-- ===== src/Graph/Store/Refine.antt =====
-- What the operations of the sharded store do to every key.
use native.Mathlib.Nat.{mod-lt}
use open_falcon.Prelude.{
  ◌≢◌, ◌↔◌, ℕ, zero, suc, ◌%◌, ◌^◌, ◌<◌, ◌≡◌, refl, sym, ap, ◌∙◌, subst, Bool, true, false, List,
  [], ◌∷◌, Option, none, some, arith, ◌>>=◌, length, get_elem?, if◌then◌else◌, nat_eq, nat_eq_iff,
  eq_str, ◌==◌, Bool-cases, Option-cases, inl, inr, get_elem?_in_range, list_eq_iff,
}
use open_falcon.Prelude.Text.{Str}
use open_falcon.Prelude.Maps.{Map, lookup, insert, delete, lookup-insert, lookup-delete}
use open_falcon.Graph.{SafeLinkedList}
use open_falcon.Graph.Store.{
  GraphItemMap, set_elem, hash_key, index_of, shard, put, get, set, remove,
}

replaced : {A : Type 0} → ℕ → A → List A → List A
replaced i x [] = []
replaced zero x (y ∷ ys) = x ∷ ys
replaced (suc i) x (y ∷ ys) = y ∷ replaced i x ys

set_elem-replaced :
    {A : Type 0} (i : ℕ) (x : A) (xs : List A)
    → i < length xs
    → set_elem i x xs ≡ some (replaced i x xs)
unfolding set_elem replaced
set_elem-replaced i x [] h = absurd (omega arith)
set_elem-replaced zero x (y ∷ ys) h = refl
set_elem-replaced (suc i) x (y ∷ ys) h = rw (set_elem-replaced i x ys (omega arith)) refl

length-replaced : {A : Type 0} (i : ℕ) (x : A) (xs : List A) → length (replaced i x xs) ≡ length xs
unfolding replaced
length-replaced i x [] = refl
length-replaced zero x (y ∷ ys) = refl
length-replaced (suc i) x (y ∷ ys) = ap suc (length-replaced i x ys)

get_elem?-replaced :
    {A : Type 0} (i : ℕ) (x : A) (xs : List A)
    → i < length xs
    → get_elem? (replaced i x xs) i ≡ some x
unfolding replaced
get_elem?-replaced i x [] h = absurd (omega arith)
get_elem?-replaced zero x (y ∷ ys) h = refl
get_elem?-replaced (suc i) x (y ∷ ys) h = get_elem?-replaced i x ys (omega arith)

get_elem?-replaced_other :
    {A : Type 0} (i j : ℕ) (x : A) (xs : List A)
    → i ≢ j
    → get_elem? (replaced i x xs) j ≡ get_elem? xs j
unfolding replaced
get_elem?-replaced_other i j x [] h = refl
get_elem?-replaced_other zero zero x (y ∷ ys) h = absurd (h refl)
get_elem?-replaced_other zero (suc j) x (y ∷ ys) h = refl
get_elem?-replaced_other (suc i) zero x (y ∷ ys) h = refl
get_elem?-replaced_other (suc i) (suc j) x (y ∷ ys) h =
    get_elem?-replaced_other i j x ys λ e. h (ap suc e)

-- As many maps as the size says, and at least one.
pub record IsStore {F : Type 0} (m : GraphItemMap F) : Type 0 where
  pub positive : 0 < m.size
  pub small : m.size < 2 ^ 32
  pub full : length m.a ≡ m.size

module _ (crc32 : Str → ℕ) where
  place : Str → ℕ → ℕ
  place key size = hash_key crc32 key % size

  index_of-place :
      (key : Str) (size : ℕ)
      → 0 < size
      → size < 2 ^ 32
      → (index_of crc32 key size ≡ some (place key size)) × (place key size < size)
  unfolding index_of place
  index_of-place key zero a b = absurd (omega arith)
  index_of-place key (suc n) a b =
      let e : suc n % 2 ^ 32 ≡ suc n = omega arith in
      let z : nat_eq (suc n) 0 ≡ false = ground arith in
      (rw (e, z) refl, mod-lt (hash_key crc32 key) a)

  module _ {F : Type 0} where
    get-found :
        (key : Str) (m : GraphItemMap F) (s : Map Str (SafeLinkedList F))
        → IsStore m
        → get_elem? m.a (place key m.size) ≡ some s
        → get crc32 key m ≡ some (lookup key s)
    unfolding shard get
    get-found key m s h f = rw ((index_of-place key m.size h.positive h.small).0, f) refl

    -- The map of a key exists.
    shard-found :
        (key : Str) (m : GraphItemMap F)
        → IsStore m
        → (s : Map Str (SafeLinkedList F)) × (shard crc32 key m ≡ some (place key m.size, s))
          × (get_elem? m.a (place key m.size) ≡ some s)
          × (get crc32 key m ≡ some (lookup key s))
    unfolding shard
    shard-found key m h =
        let (e, b) = index_of-place key m.size h.positive h.small in
        let (s, f) = get_elem?_in_range m.a (place key m.size) (omega (arith, h.full)) in
        (s, rw (e, f) refl, f, get-found key m s h f)

    -- `Get` does not panic on a store.
    pub get-returns :
        (key : Str) (m : GraphItemMap F)
        → IsStore m
        → (o : Option (SafeLinkedList F)) × (get crc32 key m ≡ some o)
    get-returns key m h = let (s, _, _, g) = shard-found key m h in (lookup key s, g)

    abbrev updated : ℕ → Map Str (SafeLinkedList F) → GraphItemMap F → GraphItemMap F
    updated i s m = record m { a = replaced i s m.a }

    -- What changes when the map of a key is replaced by one that differs in this key only.
    put-get :
        (key : Str) (m : GraphItemMap F) (s s' : Map Str (SafeLinkedList F))
        (v : Option (SafeLinkedList F))
        → IsStore m
        → get_elem? m.a (place key m.size) ≡ some s
        → ((j : Str) → lookup j s' ≡ (if key == j then v else lookup j s))
        → (m' : GraphItemMap F) × (put crc32 (place key m.size) s' m ≡ some m')
          × IsStore m'
          × ((j : Str) → get crc32 j m' ≡ (if key == j then some v else get crc32 j m))
    unfolding put
    put-get key m s s' v h f k = (
      updated (place key m.size) s' m,
      rw (set_elem-replaced (place key m.size) s' m.a inside) refl,
      h',
      by_key,
    )
      where
        inside : place key m.size < length m.a
        inside = omega (arith, h.full, (index_of-place key m.size h.positive h.small).1)

        h' : IsStore (updated (place key m.size) s' m)
        h' = record {
          positive = h.positive;
          small = h.small;
          full = length-replaced (place key m.size) s' m.a ∙ h.full;
        }

        by_key :
            (j : Str)
            → get crc32 j (updated (place key m.size) s' m)
              ≡ (if key == j then some v else get crc32 j m)
        by_key j = elim (Bool-cases (nat_eq (place key m.size) (place j m.size))) [
          | inl same ↦
              let e = (nat_eq_iff (place key m.size) (place j m.size)).0 same in
              let new = get-found j (updated (place key m.size) s' m) s' h' (
                subst (λ p. get_elem? (replaced (place key m.size) s' m.a) p ≡ some s') e
                  (get_elem?-replaced (place key m.size) s' m.a inside)) in
              let old = get-found j m s h (subst (λ p. get_elem? m.a p ≡ some s) e f) in
              ground (arith, new, old, k j)
          | inr other ↦
              let (sj, _, fj, old) = shard-found j m h in
              let far : place key m.size ≢ place j m.size =
                λ q. cc ((nat_eq_iff (place key m.size) (place j m.size)).1 q) in
              let new =
                get-found j (updated (place key m.size) s' m) sj h'
                  (get_elem?-replaced_other (place key m.size) (place j m.size) s' m.a far ∙ fj) in
              elim (Bool-cases (key == j)) [
                | inl equal ↦ absurd (far (ap (λ x. place x m.size) ((list_eq_iff key j).0 equal)))
                | inr differ ↦ rw differ (new ∙ sym old)
              ]
        ]

    -- `Set` neither panics on a store nor spoils it; afterwards `Get` finds the list under its key, and
    -- under every other key what it found before.
    pub get-set :
        (key : Str) (l : SafeLinkedList F) (m : GraphItemMap F)
        → IsStore m
        → (m' : GraphItemMap F) × (set crc32 key l m ≡ some m')
          × IsStore m'
          × ((j : Str) → get crc32 j m' ≡ (if key == j then some (some l) else get crc32 j m))
    unfolding set
    get-set key l m h =
        let (s, e, f, g) = shard-found key m h in
        rw e (put-get key m s (insert key l s) (some l) h f (λ j. lookup-insert key j l s))

    remove-found :
        (key : Str) (m : GraphItemMap F) (s : Map Str (SafeLinkedList F))
        → shard crc32 key m ≡ some (place key m.size, s)
        → remove crc32 key m ≡ elim (lookup key s) [
          | none ↦ some (m, false)
          | some _ ↦ put crc32 (place key m.size) (delete key s) m >>= λ m'. some (m', true)
        ]
    unfolding remove
    remove-found key m s e = rw e refl

    -- `Remove` neither panics on a store nor spoils it, and says whether the key was there; afterwards
    -- `Get` finds nothing under the key, and under every other key what it found before.
    pub get-remove :
        (key : Str) (m : GraphItemMap F)
        → IsStore m
        → (m' : GraphItemMap F) × (found : Bool) × (remove crc32 key m ≡ some (m', found))
          × IsStore m'
          × ((found ≡ true) ↔ (get crc32 key m ≢ some none))
          × ((j : Str) → get crc32 j m' ≡ (if key == j then some none else get crc32 j m))
    get-remove key m h =
        let (s, e, f, g) = shard-found key m h in
        elim (Option-cases (lookup key s)) [
          | inl missing ↦
              let gone : get crc32 key m ≡ some none = g ∙ ap some missing in
              rw (remove-found key m s e, missing)
                (
                  m,
                  false,
                  refl,
                  h,
                  (λ q. cc, λ q. absurd (q gone)),
                  λ j. elim (Bool-cases (key == j)) [
                    | inl same ↦
                        rw same
                          (subst (λ x. get crc32 x m ≡ some none) ((list_eq_iff key j).0 same) gone)
                    | inr other ↦ rw other refl
                  ],
                )
          | inr (l, there) ↦
              let (m', p, h', k) =
                put-get key m s (delete key s) none h f (λ j. lookup-delete key j s) in
              rw (remove-found key m s e, there, p)
                (m', true, refl, h', (λ q r. cc (sym (g ∙ ap some there) ∙ r), λ q. refl), k)
        ]
