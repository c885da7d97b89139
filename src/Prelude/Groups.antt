-- ===== src/Prelude/Groups.antt =====
-- Maps from keys to the lists of what has the key.
use mathlib.Core.Path.{◌≡◌, sym}
use mathlib.Core.List.{List, [], ◌∷◌, ◌++◌, append-nil, append_assoc}
use mathlib.Core.Option.{Option, none, some}
use mathlib.Core.Logic.{inl, inr}
use native.Mathlib.Omega.{arith}
use open_falcon.Prelude.Tests.{Eq, ◌==◌, if◌then◌else◌, Option-cases}
use open_falcon.Prelude.Lists.{filter}
use open_falcon.Prelude.Maps.{Map, lookup, insert, lookup-insert}

abbrev pub list_at {ℓ} : {A : Type ℓ} → Option (List A) → List A
list_at none = []
list_at (some xs) = xs

module _ {ℓ κ} {K : Type ℓ} {A : Type κ} ⦃e : Eq K⦄ where
  -- `if _, exists := m[key]; exists { m[key] = append(m[key], x) } else { m[key] = [x] }`.
  unfoldable pub append_at : K → A → Map K (List A) → Map K (List A)
  append_at key x m = elim (lookup key m) [
    | some xs ↦ insert key (xs ++ x ∷ []) m
    | none ↦ insert key (x ∷ []) m
  ]

  -- The entry at a key, with no entry read as an empty list.
  abbrev pub at_key : K → Map K (List A) → List A
  at_key key m = list_at (lookup key m)

  pub at_key-append_at :
      (key k : K) (x : A) (m : Map K (List A))
      → at_key k (append_at key x m) ≡ (if key == k then at_key k m ++ x ∷ [] else at_key k m)
  unfolding append_at
  at_key-append_at key k x m = elim (Option-cases (lookup key m)) [
    | inl q ↦ ground (arith, lookup-insert key k (x ∷ []) m, e.beq_iff key k)
    | inr (xs, q) ↦ ground (arith, lookup-insert key k (xs ++ x ∷ []) m, e.beq_iff key k)
  ]

  -- A loop that appends each element at its key.
  unfoldable pub group_by : (A → K) → List A → Map K (List A) → Map K (List A)
  unfolding append_at
  group_by key [] m = m
  group_by key (x ∷ xs) m = group_by key xs (append_at (key x) x m)

  pub at_key-group_by :
      (key : A → K) (k : K) (xs : List A) (m : Map K (List A))
      → at_key k (group_by key xs m) ≡ at_key k m ++ filter (λ x. key x == k) xs
  unfolding group_by
  at_key-group_by key k [] m = sym (append-nil (at_key k m))
  at_key-group_by key k (x ∷ xs) m = ground (
    arith,
    at_key-group_by key k xs (append_at (key x) x m),
    at_key-append_at (key x) k x m,
    append_assoc (at_key k m) (x ∷ []) (filter (λ x. key x == k) xs),
  )
