-- ===== src/Prelude/Maps.antt =====
-- Go maps as association lists: the order of the list is the order in which `range` happens to
-- visit the keys.
use mathlib.Core.Path.{◌≡◌, refl, ◌∙◌, ap₂, subst}
use mathlib.Core.List.{List, [], ◌∷◌, Permᴰ}
use mathlib.Core.Option.{Option, none, some}
use native.Mathlib.Omega.{arith}
use open_falcon.Prelude.Tests.{Eq, ◌==◌, if◌then◌else◌, Bool-cases}
use open_falcon.Prelude.Lists.{All}
use mathlib.Core.Logic.{inl, inr}

abbrev pub Map {ℓ κ} : Type ℓ → Type κ → Type (ℓ ⊔ κ)
Map K V = List (K × V)

module _ {ℓ κ} {K : Type ℓ} {V : Type κ} ⦃e : Eq K⦄ where
  -- `v, ok := m[k]`.
  abbrev pub lookup : K → Map K V → Option V
  lookup k [] = none
  lookup k ((j, v) ∷ m) = if j == k then some v else lookup k m

  -- `m[k] = v`.
  abbrev pub insert : K → V → Map K V → Map K V
  insert k v [] = (k, v) ∷ []
  insert k v ((j, w) ∷ m) = if j == k then (k, v) ∷ m else (j, w) ∷ insert k v m

  -- `delete(m, k)`.
  abbrev pub delete : K → Map K V → Map K V
  delete k [] = []
  delete k ((j, w) ∷ m) = if j == k then delete k m else (j, w) ∷ delete k m

  pub lookup-insert :
      (k j : K) (v : V) (m : Map K V)
      → lookup j (insert k v m) ≡ (if k == j then some v else lookup j m)
  lookup-insert k j v [] = refl
  lookup-insert k j v ((i, w) ∷ m) =
      ground (arith, e.beq_iff k j, e.beq_iff i k, e.beq_iff i j, lookup-insert k j v m)

  pub lookup-delete :
      (k j : K) (m : Map K V) → lookup j (delete k m) ≡ (if k == j then none else lookup j m)
  lookup-delete k j [] = ground arith
  lookup-delete k j ((i, w) ∷ m) =
      ground (arith, e.beq_iff k j, e.beq_iff i k, e.beq_iff i j, lookup-delete k j m)

  -- No key stands twice, as in every Go map.
  abbrev pub IsMap : Map K V → Type κ
  IsMap [] = Unit
  IsMap ((k, v) ∷ m) = (lookup k m ≡ none) × IsMap m

  pub insert-IsMap : (k : K) (v : V) (m : Map K V) → IsMap m → IsMap (insert k v m)
  insert-IsMap k v [] h = (refl, tt)
  insert-IsMap k v ((j, w) ∷ m) h =
      ground (arith, e.beq_iff j k, e.beq_iff k j, lookup-insert k j v m, insert-IsMap k v m h.1)

  pub delete-IsMap : (k : K) (m : Map K V) → IsMap m → IsMap (delete k m)
  delete-IsMap k [] h = tt
  delete-IsMap k ((j, w) ∷ m) h =
      ground (arith, e.beq_iff j k, lookup-delete k j m, delete-IsMap k m h.1)

  perm_lem : {m n : Map K V} → Permᴰ m n → IsMap m → IsMap n × ((k : K) → lookup k m ≡ lookup k n)
  perm_lem Permᴰ.nil h = (tt, λ k. refl)
  perm_lem (Permᴰ.cons {a = a} {b = b} {l₁ = l} f p) h =
      let (i, q) = perm_lem p h.1 in ((ground (arith, q b.0), i), λ k. ground (arith, q k))
  perm_lem (Permᴰ.swap {a = a} {b = b} {a' = a'} {b' = b'} {l = l} f g) h = (
    ground (arith, e.beq_iff b'.0 a'.0, e.beq_iff b.0 a.0),
    λ k. ground (arith, e.beq_iff a.0 k, e.beq_iff b.0 k, e.beq_iff b.0 a.0),
  )
  perm_lem (Permᴰ.trans p q) h =
      let (i, f) = perm_lem p h in let (j, g) = perm_lem q i in (j, λ k. f k ∙ g k)

  -- The same map, visited in another order.
  pub IsMap-perm : {m n : Map K V} → Permᴰ m n → IsMap m → IsMap n
  IsMap-perm p h = (perm_lem p h).0

  pub lookup-perm : {m n : Map K V} → Permᴰ m n → IsMap m → (k : K) → lookup k m ≡ lookup k n
  lookup-perm p h = (perm_lem p h).1

  pub All-insert {μ} :
      (P : K × V → Type μ) (k : K) (v : V) (m : Map K V) → All P m → P (k, v) → All P (insert k v m)
  All-insert P k v [] a p = (p, tt)
  All-insert P k v ((j, w) ∷ m) a p = elim (Bool-cases (j == k)) [
    | inl same ↦ rw same (p, a.1)
    | inr other ↦ rw other (a.0, All-insert P k v m a.1 p)
  ]

  pub All-delete {μ} : (P : K × V → Type μ) (k : K) (m : Map K V) → All P m → All P (delete k m)
  All-delete P k [] a = tt
  All-delete P k ((j, w) ∷ m) a = elim (Bool-cases (j == k)) [
    | inl same ↦ rw same (All-delete P k m a.1)
    | inr other ↦ rw other (a.0, All-delete P k m a.1)
  ]

  pub All-lookup {μ} :
      (P : K × V → Type μ) (k : K) (v : V) (m : Map K V) → All P m → lookup k m ≡ some v → P (k, v)
  All-lookup P k v [] a h = cc
  All-lookup P k v ((j, w) ∷ m) a h = elim (Bool-cases (j == k)) [
    | inl same ↦
        let g : some w ≡ some v = rw same at h in
        let g' : w ≡ v = cc g in subst P (ap₂ (λ x y. (x, y)) ((e.beq_iff j k).0 same) g') a.0
    | inr other ↦ All-lookup P k v m a.1 (rw other at h)
  ]
