-- ===== src/Model/Tags.antt =====
-- common/utils/tags.go, func.go and counter.go: tags as text, and the keys that are made of them.
-- The pool of buffers is the string that is written to.
pub mod Order
use open_falcon.Prelude.{
  ℕ, Bool, true, false, List, [], ◌∷◌, ◌++◌, Option, none, some, map, length, take, drop, filter,
  suc, ltb, nat_eq, ◌&&◌, ◌||◌, not, if◌then◌else◌, eq_str,
}
use open_falcon.Prelude.Int.{ℤ}
use open_falcon.Prelude.Text.{Str, str, split, index_from, itoa}
use open_falcon.Prelude.Maps.{Map, lookup, insert}

-- The order of strings, byte by byte.
abbrev pub str_le : Str → Str → Bool
str_le [] t = true
str_le (b ∷ s) [] = false
str_le (b ∷ s) (c ∷ t) = ltb b c || (nat_eq b c && str_le s t)

abbrev pub insert_sorted : Str → List Str → List Str
insert_sorted k [] = k ∷ []
insert_sorted k (j ∷ ks) = if str_le k j then k ∷ j ∷ ks else j ∷ insert_sorted k ks

-- `sort.Strings`.
abbrev pub sort_strings : List Str → List Str
sort_strings [] = []
sort_strings (k ∷ ks) = insert_sorted k (sort_strings ks)

abbrev pub keys : Map Str Str → List Str
keys tags = map (λ (kv : Str × Str). kv.0) tags

-- `tags[key]`: the empty string where there is none.
abbrev pub value_of : Map Str Str → Str → Str
value_of tags key = elim (lookup key tags) [ some v ↦ v | none ↦ [] ]

abbrev pub pair : Str → Str → Str
pair key value = key ++ b'=' ∷ value

-- The loop of `SortedTags`: a comma behind each pair but the last.
abbrev pub write_pairs : (Str → Str) → List Str → Str
write_pairs value [] = []
write_pairs value (key ∷ []) = pair key (value key)
write_pairs value (key ∷ next ∷ rest) =
    pair key (value key) ++ b',' ∷ write_pairs value (next ∷ rest)

unfoldable pub sorted_tags : Map Str Str → Str
sorted_tags [] = []
sorted_tags ((k, v) ∷ []) = pair k v
sorted_tags (kv ∷ next ∷ rest) =
    let tags = kv ∷ next ∷ rest in write_pairs (value_of tags) (sort_strings (keys tags))

unfoldable pub pk : Str → Str → Map Str Str → Str
unfolding sorted_tags
pk endpoint metric [] = endpoint ++ b'/' ∷ metric
pk endpoint metric (kv ∷ tags) = endpoint ++ b'/' ∷ (metric ++ b'/' ∷ sorted_tags (kv ∷ tags))

unfoldable pub pk2 : Str → Str → Str
pk2 endpoint counter = endpoint ++ b'/' ∷ counter

unfoldable pub uuid : Str → Str → Map Str Str → Str → ℤ → Str
unfolding sorted_tags
uuid endpoint metric [] dstype step =
    endpoint ++ b'/' ∷ (metric ++ b'/' ∷ (dstype ++ b'/' ∷ itoa step))
uuid endpoint metric (kv ∷ tags) dstype step =
    endpoint
    ++ b'/' ∷ (metric ++ b'/' ∷ (sorted_tags (kv ∷ tags) ++ b'/' ∷ (dstype ++ b'/' ∷ itoa step)))

unfoldable pub counter : Str → Map Str Str → Str
unfolding sorted_tags
counter metric [] = metric
counter metric (kv ∷ tags) = metric ++ b'/' ∷ sorted_tags (kv ∷ tags)

-- The loop of `DictedTagstring`: a part without `=` is passed over.
abbrev pub add_tag : Map Str Str → Str → Map Str Str
add_tag dict tag = elim (index_from b'=' 0 tag) [
  | some i ↦ insert (take i tag) (drop (suc i) tag) dict
  | none ↦ dict
]

abbrev pub add_tags : Map Str Str → List Str → Map Str Str
add_tags dict [] = dict
add_tags dict (tag ∷ tags) = add_tags (add_tag dict tag) tags

unfoldable pub dicted_tagstring : Str → Map Str Str
dicted_tagstring [] = []
dicted_tagstring (c ∷ cs) = add_tags [] (split b',' (filter (λ b. not (nat_eq b b' ')) (c ∷ cs)))
