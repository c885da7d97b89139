-- ===== src/Model/Tags/Order.antt =====
-- The text of a set of tags, and the orders in which Go may visit the map.
use open_falcon.Prelude.{
  ◌≡◌, refl, sym, ap, ap₂, ◌∙◌, fun_ext, true, false, List, [], ◌∷◌, none, some, arith, eq_str,
  ==_refl, Permᴰ,
}
use open_falcon.Prelude.Text.{Str}
use open_falcon.Prelude.Maps.{Map, IsMap, lookup-perm}
use open_falcon.Model.Tags.{
  str_le, insert_sorted, sort_strings, keys, value_of, write_pairs, sorted_tags,
}

str_le-total : (s t : Str) → str_le s t ≡ false → str_le t s ≡ true
str_le-total [] t h = cc
str_le-total (b ∷ s) [] h = refl
str_le-total (b ∷ s) (c ∷ t) h = ground (arith, str_le-total s t)

str_le-antisym : (s t : Str) → str_le s t ≡ true → str_le t s ≡ true → s ≡ t
str_le-antisym [] [] h k = refl
str_le-antisym [] (c ∷ t) h k = cc
str_le-antisym (b ∷ s) [] h k = cc
str_le-antisym (b ∷ s) (c ∷ t) h k = ground (arith, str_le-antisym s t)

str_le_trans : (s t u : Str) → str_le s t ≡ true → str_le t u ≡ true → str_le s u ≡ true
str_le_trans [] t u h k = refl
str_le_trans (b ∷ s) [] u h k = cc
str_le_trans (b ∷ s) (c ∷ t) [] h k = cc
str_le_trans (b ∷ s) (c ∷ t) (d ∷ u) h k = ground (arith, str_le_trans s t u)

insert_sorted_comm :
    (j k : Str) (ks : List Str)
    → insert_sorted j (insert_sorted k ks) ≡ insert_sorted k (insert_sorted j ks)
insert_sorted_comm j k [] = ground (arith, str_le-total j k, str_le-total k j, str_le-antisym j k)
insert_sorted_comm j k (i ∷ ks) = ground (
  arith,
  str_le-total j k,
  str_le-total k j,
  str_le-total i k,
  str_le-total i j,
  str_le-total j i,
  str_le-total k i,
  str_le-antisym j k,
  str_le_trans j k i,
  str_le_trans k j i,
  str_le_trans j i k,
  str_le_trans k i j,
  insert_sorted_comm j k ks,
)

sort_strings-perm : {xs ys : List Str} → Permᴰ xs ys → sort_strings xs ≡ sort_strings ys
sort_strings-perm Permᴰ.nil = refl
sort_strings-perm (Permᴰ.cons e p) = ap₂ insert_sorted e (sort_strings-perm p)
sort_strings-perm (Permᴰ.swap {a = a} {b = b} {l = l} e f) =
    insert_sorted_comm a b (sort_strings l)
    ∙ ap₂ (λ x y. insert_sorted x (insert_sorted y (sort_strings l))) f e
sort_strings-perm (Permᴰ.trans p q) = sort_strings-perm p ∙ sort_strings-perm q

sorted_tags-write :
    (tags : Map Str Str) → sorted_tags tags ≡ write_pairs (value_of tags) (sort_strings (keys tags))
unfolding sorted_tags
sorted_tags-write [] = refl
sorted_tags-write ((k, v) ∷ []) = ground (arith, ==_refl k)
sorted_tags-write (kv ∷ next ∷ rest) = refl

keys-perm : {m n : Map Str Str} → Permᴰ m n → Permᴰ (keys m) (keys n)
keys-perm Permᴰ.nil = Permᴰ.nil
keys-perm (Permᴰ.cons e p) = Permᴰ.cons (ap (λ kv. kv.0) e) (keys-perm p)
keys-perm (Permᴰ.swap e f) = Permᴰ.swap (ap (λ kv. kv.0) e) (ap (λ kv. kv.0) f)
keys-perm (Permᴰ.trans p q) = Permᴰ.trans (keys-perm p) (keys-perm q)

value_of-perm : {m n : Map Str Str} → Permᴰ m n → IsMap m → (k : Str) → value_of m k ≡ value_of n k
value_of-perm p h k = ap (λ o. elim o [ some v ↦ v | none ↦ [] ]) (lookup-perm p h k)

-- `SortedTags` gives one text for a map of tags, in whatever order its entries are visited.
pub sorted_tags-perm : {m n : Map Str Str} → Permᴰ m n → IsMap m → sorted_tags m ≡ sorted_tags n
sorted_tags-perm {m} {n} p h =
    sorted_tags-write m
    ∙ (ap₂ write_pairs (fun_ext (value_of-perm p h)) (sort_strings-perm (keys-perm p))
        ∙ sym (sorted_tags-write n))
