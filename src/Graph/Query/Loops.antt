-- ===== src/Graph/Query/Loops.antt =====
-- The loops of a query end, and what they make of the points keeps a property that every point and
-- every gap has.
use open_falcon.Prelude.{
  ℕ, zero, suc, ◌+◌, ◌^◌, ◌≤◌, ◌<◌, ◌≡◌, refl, Bool, true, List, [], ◌∷◌, ◌++◌, some, arith, length,
  All, inl, inr, Bool-cases, length-append,
}
use open_falcon.Prelude.Int.{ℤ, pos, add64-pos, ltb_ℤ, int_eq}
use open_falcon.Graph.{GraphItem, RrdData}
use open_falcon.Graph.Store.{set_elem}
use open_falcon.Graph.Query.{window, cache_loop, fix_missing, format_result}

module _ {F : Type 0} (P : RrdData F → Type 0) where
  pub All-append : (xs ys : List (RrdData F)) → All P xs → All P ys → All P (xs ++ ys)
  All-append [] ys a b = b
  All-append (x ∷ xs) ys a b = (a.0, All-append xs ys a.1 b)

  pub set_elem-All :
      (i : ℕ) (d : RrdData F) (merged : List (RrdData F))
      → i < length merged
      → P d
      → All P merged
      → (m : List (RrdData F)) × (set_elem i d merged ≡ some m)
        × (length m ≡ length merged)
        × All P m
  unfolding set_elem
  set_elem-All i d [] a p h = absurd (omega arith)
  set_elem-All zero d (x ∷ merged) a p h = (d ∷ merged, refl, refl, (p, h.1))
  set_elem-All (suc i) d (x ∷ merged) a p h =
      let (m, e, l, q) = set_elem-All i d merged (omega arith) p h.1 in
      (x ∷ m, rw e refl, omega (arith, l), (h.0, q))

module _ {F : Type 0} (nan : F) (step : ℕ) (P : RrdData F → Type 0) where
  module _ (point : ℤ → List (GraphItem F) → F × List (GraphItem F)) (more : ℤ → Bool)
      (start_ts end_ts : ℤ) (last : ℕ) (Rest : List (GraphItem F) → Type 0)
      (more_le : (t : ℕ) → more (pos t) ≡ true → t ≤ last)
      (keep : (ts : ℤ) (items : List (GraphItem F)) → Rest items → Rest (point ts items).1)
      (make : (ts : ℤ) (items : List (GraphItem F))
        → Rest items
        → P (record { timestamp = ts; value = (point ts items).0 })) where
    pub cache_loop-All :
        (fuel t : ℕ) (items : List (GraphItem F))
        → 0 < step
        → last + step < 2 ^ 63
        → last + 1 < t + fuel
        → 0 < fuel
        → Rest items
        → (cache : List (RrdData F)) × (cache_loop
              (pos step)
              point
              more
              start_ts
              end_ts
              fuel
              (pos t)
              items
            ≡ some cache)
          × All (λ d. P d × (window start_ts end_ts d.timestamp ≡ true)) cache
    unfolding cache_loop
    cache_loop-All zero t items a b c z h = absurd (omega arith)
    cache_loop-All (suc fuel) t items a b c z h = elim (Bool-cases (more (pos t))) [
      | inl go ↦
          let le = more_le t go in
          let e = add64-pos t step (omega (arith, le)) in
          let (cache, q, ps) =
            cache_loop-All fuel (t + step) (point (pos t) items).1 a b (omega (arith, le))
              (omega (arith, le)) (keep (pos t) items h) in
          elim (Bool-cases (window start_ts end_ts (pos t))) [
            | inl seen ↦ (
              record { timestamp = pos t; value = (point (pos t) items).0 } ∷ cache,
              rw (go, e, q, seen) refl,
              ((make (pos t) items h, seen), ps),
            )
            | inr hidden ↦ (cache, rw (go, e, q, hidden) refl, ps)
          ]
      | inr stop ↦ ([], rw stop refl, tt)
    ]

  pub fix_missing-All :
      (last fuel t : ℕ) (merged : List (RrdData F))
      → 0 < step
      → last + step < 2 ^ 63
      → last + 1 < t + fuel
      → 0 < fuel
      → ((ts : ℤ) → P (record { timestamp = ts; value = nan }))
      → All P merged
      → (fixed : List (RrdData F)) × (fix_missing nan (pos step) (pos last) fuel (pos t) merged
          ≡ some fixed)
        × (length merged ≤ length fixed)
        × All P fixed
  unfolding fix_missing
  fix_missing-All last zero t merged a b c z gap h = absurd (omega arith)
  fix_missing-All last (suc fuel) t merged a b c z gap h =
      elim (Bool-cases (ltb_ℤ (pos t) (pos last))) [
        | inl go ↦
            let le : t < last = ground (arith, go) in
            let (fixed, q, l, ps) =
              fix_missing-All last fuel (t + step)
                (merged ++ record { timestamp = pos t; value = nan } ∷ []) a b (omega (arith, le))
                (omega (arith, le)) gap
                (All-append P merged (record { timestamp = pos t; value = nan } ∷ []) h
                  (gap (pos t), tt)) in
            (
              fixed,
              rw (go, add64-pos t step (omega (arith, le))) q,
              omega
                  (arith, l, length-append merged (record { timestamp = pos t; value = nan } ∷ [])),
              ps,
            )
        | inr stop ↦ (merged, rw stop refl, omega arith, h)
      ]

  pub format_result-All :
      (n : ℕ) (ts : ℤ) (merged : List (RrdData F))
      → ((ts : ℤ) → P (record { timestamp = ts; value = nan }))
      → All P merged
      → All P (format_result nan (pos step) n ts merged)
  unfolding format_result
  format_result-All zero ts merged gap h = tt
  format_result-All (suc n) ts [] gap h = (gap ts, format_result-All n _ [] gap tt)
  format_result-All (suc n) ts (d ∷ merged) gap h = elim (Bool-cases (int_eq ts d.timestamp)) [
    | inl hit ↦ rw hit (h.0, format_result-All n _ merged gap h.1)
    | inr miss ↦ rw miss (gap ts, format_result-All n _ (d ∷ merged) gap h)
  ]
