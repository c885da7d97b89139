-- ===== src/Graph/Query/Answer.antt =====
-- The answer to a query whose window is merged with the cache.
use native.Mathlib.Nat.{div-le_self, div-mul-le_self}
use open_falcon.Prelude.{
  ℕ, zero, suc, ◌+◌, ◌-◌, ◌*◌, ◌/◌, ◌^◌, ◌≤◌, ◌<◌, ◌≡◌, refl, sym, subst, ap, ◌∙◌, Bool, true, List,
  [], ◌∷◌, some, arith, length, get_elem?, All, inl, inr, ◌||◌, Bool-cases, if◌then◌else◌, filter,
  get_elem?_in_range, bind_some, ◌==◌, eq_str,
}
use open_falcon.Prelude.Int.{
  ℤ, pos, add64-pos, sub64-pos, quot64-pos, ltb_ℤ, leb_ℤ, int_eq, int_eq_iff,
}
use open_falcon.Prelude.Text.{Str, str}
use open_falcon.Float.{Float}
use open_falcon.Graph.{GraphItem, RrdData}
use open_falcon.Graph.Query.{
  window, rounds, rate_point, gauge_point, format_cache, merge_cache, format_result, ret_size,
  merge,
}
use open_falcon.Graph.Query.Loops.{cache_loop-All, format_result-All}
use open_falcon.Graph.Query.Junction.{rounds-enough, merge_cache-All, All-get_elem?}
use open_falcon.Graph.Query.Origin.{
  IsSuffix, Origin, gap, gauge_point-IsSuffix, gauge_point-Origin, rate_point-IsSuffix,
  rate_point-Origin, stored_in,
}

-- A time from which a step more is still an int64.
abbrev pub IsTime : ℕ → ℤ → Type 0
IsTime step ts = (t : ℕ) × (ts ≡ pos t) × (t + step < 2 ^ 63)

-- The number of points of an answer from `s` to `e`.
abbrev pub points_in : ℕ → Str → ℕ → ℕ → ℕ
points_in step ds_type s e = (e - s) / step + (if ds_type == str "GAUGE" then 1 else 0)

pub ret_size-pos :
    (step : ℕ) (ds_type : Str) (s e : ℕ)
    → 0 < step
    → s ≤ e
    → e + 1 < 2 ^ 63
    → ret_size (pos step) ds_type (pos s) (pos e) ≡ some (points_in step ds_type s e)
unfolding ret_size
ret_size-pos step ds_type s e a b c =
    let n = quot64-pos (e - s) step a (omega arith) in
    elim (Bool-cases (ds_type == str "GAUGE")) [
      | inl gauge ↦
          rw (sub64-pos e s b (omega arith), n, gauge)
            (rw (add64-pos ((e - s) / step) 1 (omega (arith, div-le_self (e - s) step))) refl)
      | inr other ↦ rw (sub64-pos e s b (omega arith), n, other) (ap some (omega arith))
    ]

points_in-bound :
    (step : ℕ) (ds_type : Str) (s e : ℕ)
    → s ≤ e
    → e + step + step < 2 ^ 63
    → s + points_in step ds_type s e * step < 2 ^ 63
points_in-bound step ds_type s e b c =
    let q = div-mul-le_self (e - s) step in
    elim (Bool-cases (ds_type == str "GAUGE")) [
      | inl gauge ↦ rw gauge (grind (arith, q))
      | inr other ↦ rw other (grind (arith, q))
    ]

-- One point for each step from `t` on.
abbrev pub IsGrid : {F : Type 0} → ℕ → ℕ → ℕ → List (RrdData F) → Type 0
IsGrid {F} step t n values =
    (length values ≡ n)
    × ((i : ℕ)
        → i < n
        → (d : RrdData F) × (get_elem? values i ≡ some d) × (d.timestamp ≡ pos (t + i * step)))

module _ {F : Type 0} (nan : F) (step : ℕ) where
  IsGrid-cons :
      (n t : ℕ) (d : RrdData F) (rest : List (RrdData F))
      → d.timestamp ≡ pos t
      → IsGrid step (t + step) n rest
      → IsGrid step t (suc n) (d ∷ rest)
  IsGrid-cons n t d rest e (l, points) = (ap suc l, at)
    where
      at :
          (i : ℕ)
          → i < suc n
          → (x : RrdData F) × (get_elem? (d ∷ rest) i ≡ some x) × (x.timestamp ≡ pos (t + i * step))
      at zero h = (d, refl, e ∙ ap pos (omega arith))
      at (suc i) h = let (x, q, k) = points i (omega arith) in (x, q, k ∙ ap pos (grind arith))

  format_result-cons :
      (n t : ℕ) (merged : List (RrdData F))
      → t + step < 2 ^ 63
      → (d : RrdData F) × (rest : List (RrdData F)) × (format_result nan
            (pos step)
            (suc n)
            (pos t)
            merged
          ≡ d ∷ format_result nan (pos step) n (pos (t + step)) rest)
        × (d.timestamp ≡ pos t)
  unfolding format_result
  format_result-cons n t [] a =
      (record { timestamp = pos t; value = nan }, [], rw (add64-pos t step a) refl, refl)
  format_result-cons n t (d ∷ merged) a = elim (Bool-cases (int_eq (pos t) d.timestamp)) [
    | inl hit ↦
        (d, merged, rw (hit, add64-pos t step a) refl, sym ((int_eq_iff (pos t) d.timestamp).0 hit))
    | inr miss ↦ (
      record { timestamp = pos t; value = nan },
      d ∷ merged,
      rw (miss, add64-pos t step a) refl,
      refl,
    )
  ]

  format_result-IsGrid :
      (n t : ℕ) (merged : List (RrdData F))
      → t + n * step < 2 ^ 63
      → IsGrid step t n (format_result nan (pos step) n (pos t) merged)
  unfolding format_result
  format_result-IsGrid zero t merged a = (refl, λ i h. absurd (omega arith))
  format_result-IsGrid (suc n) t merged a =
      let (d, rest, e, q) = format_result-cons n t merged (grind arith) in
      rw e (IsGrid-cons n t d _ q (format_result-IsGrid n (t + step) rest (grind arith)))

module _ {F : Type 0} ⦃fl : Float F⦄ (nan : F) (step : ℕ) (datas : List (RrdData F))
    (items : List (GraphItem F)) where
  abbrev IsAnswer : ℕ → ℕ → RrdData F → Type 0
  IsAnswer s e d = Origin nan (pos step) datas items d × (window (pos s) (pos e) d.timestamp ≡ true)

  format_cache-All :
      (ds_type : Str) (s e t u : ℕ)
      → 0 < step
      → u + step < 2 ^ 63
      → (cache : List (RrdData F)) × (format_cache nan
            (pos step)
            ds_type
            (pos s)
            (pos e)
            (pos t)
            (pos u)
            items
          ≡ some cache)
        × All (IsAnswer s e) cache
  unfolding format_cache
  format_cache-All ds_type s e t u a c =
      let (rates, k, ps) =
        cache_loop-All nan step (Origin nan (pos step) datas items) (rate_point nan (pos step))
          (λ ts. ltb_ℤ ts (pos u)) (pos s) (pos e) u (IsSuffix items) (λ x h. ground (arith, h))
          (rate_point-IsSuffix nan (pos step) datas items)
          (rate_point-Origin nan (pos step) datas items) (rounds (pos t) (pos u)) t items a c
          (rounds-enough t u) (omega arith) ([], refl) in
      let (values, k', ps') =
        cache_loop-All nan step (Origin nan (pos step) datas items) (gauge_point nan)
          (λ ts. leb_ℤ ts (pos u)) (pos s) (pos e) u (IsSuffix items) (λ x h. ground (arith, h))
          (gauge_point-IsSuffix nan (pos step) datas items)
          (gauge_point-Origin nan (pos step) datas items) (rounds (pos t) (pos u)) t items a c
          (rounds-enough t u) (omega arith) ([], refl) in
      elim (Bool-cases (ds_type == str "DERIVE" || ds_type == str "COUNTER")) [
        | inl counter ↦ (rates, rw counter k, ps)
        | inr other ↦ elim (Bool-cases (ds_type == str "GAUGE")) [
          | inl gauge ↦ (values, rw (other, gauge) k', ps')
          | inr unknown ↦ ([], rw (other, unknown) refl, tt)
        ]
      ]

  pub merge-steps :
      (is_nan : F → Bool) (ds_type : Str) (s e : ℤ) {first last : GraphItem F}
      {cache merged : List (RrdData F)} {n : ℕ}
      → get_elem? items 0 ≡ some first
      → get_elem? items (length items - 1) ≡ some last
      → format_cache nan (pos step) ds_type s e first.timestamp last.timestamp items ≡ some cache
      → merge_cache nan (pos step) is_nan cache (filter (λ d. window s e d.timestamp) datas)
        ≡ some merged
      → ret_size (pos step) ds_type s e ≡ some n
      → merge nan (pos step) is_nan ds_type s e datas items
        ≡ some (format_result nan (pos step) n s merged)
  unfolding merge
  merge-steps is_nan ds_type s e a b c d f =
      bind_some _ a (bind_some _ b (bind_some _ c (bind_some _ d (bind_some _ f refl))))

  pub merge-Origin :
      (is_nan : F → Bool) (ds_type : Str) (s e : ℕ)
      → 0 < step
      → s ≤ e
      → e + step + step < 2 ^ 63
      → 0 < length items
      → All (λ x. IsTime step x.timestamp) items
      → (values : List (RrdData F)) × (merge nan
            (pos step)
            is_nan
            ds_type
            (pos s)
            (pos e)
            datas
            items
          ≡ some values)
        × IsGrid step s (points_in step ds_type s e) values
        × All (Origin nan (pos step) datas items) values
  merge-Origin is_nan ds_type s e a b c z h =
      let (first, q1) = get_elem?_in_range items 0 z in
      let (last, q2) = get_elem?_in_range items (length items - 1) (omega arith) in
      let (t, r1, l1) = All-get_elem? _ items 0 first h q1 in
      let (u, r2, l2) = All-get_elem? _ items (length items - 1) last h q2 in
      let (cache, q3, p3) = format_cache-All ds_type s e t u a l2 in
      let (merged, q4, p4) =
        merge_cache-All (Origin nan (pos step) datas items) nan is_nan step s e cache
          (filter (λ d. window (pos s) (pos e) d.timestamp) datas) a (omega arith) (λ ts. gap refl)
          p3 (stored_in nan (pos step) datas items (pos s) (pos e) datas ([], refl)) in
      (
        format_result nan (pos step) (points_in step ds_type s e) (pos s) merged,
        merge-steps is_nan ds_type (pos s) (pos e) q1 q2
            (subst
              (λ x.
                format_cache nan (pos step) ds_type (pos s) (pos e) x last.timestamp items
                ≡ some cache)
              (sym r1)
              (subst
                (λ x.
                  format_cache nan (pos step) ds_type (pos s) (pos e) (pos t) x items ≡ some cache)
                (sym r2) q3))
            q4 (ret_size-pos step ds_type s e a b (omega arith)),
        format_result-IsGrid nan step (points_in step ds_type s e) s merged
            (points_in-bound step ds_type s e b c),
        format_result-All nan step (Origin nan (pos step) datas items) (points_in step ds_type s e)
            (pos s) merged (λ ts. gap refl) p4,
      )
