-- ===== src/Graph/Query/Shown.antt =====
-- Points that show the values of a gauge in the window, from the cached points to the formatted answer.
use native.Mathlib.Decide.{dec_le}
use open_falcon.Prelude.{
  ℕ, zero, suc, ◌+◌, ◌*◌, ◌^◌, ◌≤◌, ◌<◌, ◌≡◌, refl, sym, subst, ap, ap₂, ◌∙◌, true, false, List, [],
  ◌∷◌, some, arith, inl, inr, Bool-cases,
}
use open_falcon.Prelude.Int.{ℤ, pos, add64, add64-pos, leb_ℤ, int_eq}
use open_falcon.Graph.{GraphItem, RrdData}
use open_falcon.Graph.Query.{window, gauge_point, cache_loop, format_result}
use open_falcon.Graph.Query.Steps.{
  time, steps_apart, next_step, stops, Between, value_at, values_from, value_at-behind, gauge_step,
}

module _ {F : Type 0} (nan : F) (step : ℕ) (s e : ℤ) (values : ℕ → F) where
  -- The points from `k` steps on have the values, and there is none only where that is a gap.
  abbrev pub Shows : ℕ → List (RrdData F) → Type 0
  Shows k [] = (w : ℕ) → k ≤ w → window s e (time step w) ≡ true → values w ≡ nan
  Shows k (d ∷ cache) =
      (j : ℕ) × (d.timestamp ≡ time step j)
      × (k ≤ j)
      × (d.value ≡ values j)
      × (window s e (time step j) ≡ true)
      × ((w : ℕ) → k ≤ w → w < j → window s e (time step w) ≡ true → values w ≡ nan)
      × Shows (suc j) cache

  pub Shows-from :
      (a b : ℕ) (cache : List (RrdData F))
      → ((w : ℕ) → w < a → values w ≡ nan)
      → ((w : ℕ) → window s e (time step w) ≡ true → b ≤ w)
      → Shows a cache
      → Shows b cache
  Shows-from a b [] before inside h = λ w le seen. elim (dec_le a w) [
    | yes there ↦ h w there seen
    | no g ↦ before w (omega (arith, g))
  ]
  Shows-from a b (d ∷ cache) before inside (j, q, le, v, in_it, gaps, h) = (
    j,
    q,
    inside j in_it,
    v,
    in_it,
    λ w le lt seen. elim (dec_le a w) [
      | yes there ↦ gaps w there lt seen
      | no g ↦ before w (omega (arith, g))
    ],
    h,
  )

  Shows-hidden :
      (k : ℕ) (cache : List (RrdData F))
      → window s e (time step k) ≡ false
      → Shows (suc k) cache
      → Shows k cache
  Shows-hidden k [] hidden h = λ w a seen. elim (dec_le (suc k) w) [
    | yes later ↦ h w later seen
    | no g ↦
        let same : k ≡ w = omega (arith, g, a) in
        let now : window s e (time step k) ≡ true = rw same seen in cc
  ]
  Shows-hidden k (d ∷ cache) hidden (j, q, a, v, in_it, gaps, h) = (
    j,
    q,
    omega (arith, a),
    v,
    in_it,
    λ w b c seen. elim (dec_le (suc k) w) [
      | yes later ↦ gaps w later c seen
      | no g ↦
          let same : k ≡ w = omega (arith, g, b) in
          let now : window s e (time step k) ≡ true = rw same seen in cc
    ],
    h,
  )

  pub cache_loop-Shows :
      (m fuel k : ℕ) (items : List (GraphItem F))
      → 0 < step
      → m * step + step < 2 ^ 63
      → m * step + 1 < k * step + fuel
      → 0 < fuel
      → Between step k m items
      → ((w : ℕ) → k ≤ w → values w ≡ value_at nan (time step w) items)
      → (cache : List (RrdData F)) × (cache_loop
            (pos step)
            (gauge_point nan)
            (λ ts. leb_ℤ ts (time step m))
            s
            e
            fuel
            (time step k)
            items
          ≡ some cache)
        × Shows k cache
  unfolding cache_loop gauge_point
  cache_loop-Shows m zero k items z b c f h same = absurd (omega arith)
  cache_loop-Shows m (suc fuel) k items z b c f h same =
      elim (Bool-cases (leb_ℤ (time step k) (time step m))) [
        | inl go ↦
            let le : k * step ≤ m * step = ground (arith, go) in
            let e1 = add64-pos (k * step) step (omega (arith, le)) ∙ ap pos (next_step step k) in
            let (v, rest, q, is_v, h', same') = gauge_step nan step k m items z h in
            let (cache, q', shows) =
              cache_loop-Shows m fuel (suc k) rest z b (grind (arith, le)) (omega (arith, le)) h'
                (λ w a. same w (omega arith) ∙ same' w a) in
            elim (Bool-cases (window s e (time step k))) [
              | inl seen ↦ (
                record { timestamp = time step k; value = v } ∷ cache,
                rw (go, q, e1, q', seen) refl,
                (
                  k,
                  refl,
                  omega arith,
                  sym (same k (omega arith) ∙ is_v),
                  seen,
                  λ w a b c. absurd (omega arith),
                  shows,
                ),
              )
              | inr hidden ↦
                  (cache, rw (go, q, e1, q', hidden) refl, Shows-hidden k cache hidden shows)
            ]
        | inr stop ↦ (
          [],
          rw stop refl,
          λ w a seen.
              same w a ∙ value_at-behind nan step (time step w) k m items (stops step k m stop) h,
        )
      ]

  abbrev pub grid : ℕ → ℕ → List (RrdData F)
  grid k zero = []
  grid k (suc n) = record { timestamp = time step k; value = values k } ∷ grid (suc k) n

  pub format_result-Shows :
      (n k : ℕ) (merged : List (RrdData F))
      → 0 < step
      → k * step + n * step < 2 ^ 63
      → ((w : ℕ) → k ≤ w → w < k + n → window s e (time step w) ≡ true)
      → Shows k merged
      → format_result nan (pos step) n (time step k) merged ≡ grid k n
  unfolding format_result
  format_result-Shows zero k merged z b inside h = refl
  format_result-Shows (suc n) k [] z b inside h =
      let e1 = add64-pos (k * step) step (grind arith) ∙ ap pos (next_step step k) in
      let rest =
        format_result-Shows n (suc k) [] z (grind arith)
          (λ w a c. inside w (omega arith) (omega arith)) (λ w a seen. h w (omega arith) seen) in
      rw (e1, rest, h k (omega arith) (inside k (omega arith) (omega arith))) refl
  format_result-Shows (suc n) k (d ∷ merged) z b inside (j, q, a, v, in_it, gaps, h) =
      elim (dec_le (suc k) j) [
        | yes later ↦
            let rest =
              format_result-Shows n (suc k) (d ∷ merged) z (grind arith)
                (λ w a c. inside w (omega arith) (omega arith))
                (j, q, later, v, in_it, λ w a c seen. gaps w (omega arith) c seen, h) in
            let miss : int_eq (time step k) d.timestamp ≡ false =
              rw q (steps_apart step k j z later) in
            rw (miss, e1, rest, gaps k (omega arith) later (inside k (omega arith) (omega arith)))
              refl
        | no g ↦
            let same : j ≡ k = omega (arith, g, a) in
            let rest =
              format_result-Shows n (suc k) merged z (grind arith)
                (λ w a c. inside w (omega arith) (omega arith))
                (subst (λ i. Shows (suc i) merged) same h) in
            let q' : d.timestamp ≡ time step k = q ∙ ap (time step) same in
            let hit : int_eq (time step k) d.timestamp ≡ true = rw q' (int_eq_refl (time step k)) in
            rw (hit, e1, rest) (ap (λ x. x ∷ grid (suc k) n) (ap₂ at_time q' (v ∙ ap values same)))
      ]
    where
      e1 : add64 (time step k) (pos step) ≡ time step (suc k)
      e1 = add64-pos (k * step) step (grind arith) ∙ ap pos (next_step step k)

      at_time : ℤ → F → RrdData F
      at_time ts x = record { timestamp = ts; value = x }

      int_eq_refl : (ts : ℤ) → int_eq ts ts ≡ true
      int_eq_refl ts = ground arith

module _ {F : Type 0} (nan : F) (step : ℕ) where
  pub grid-values_from :
      (s e : ℤ) (items : List (GraphItem F)) (k n : ℕ)
      → grid nan step s e (λ w. value_at nan (time step w) items) k n
        ≡ values_from nan step k n items
  grid-values_from s e items k zero = refl
  grid-values_from s e items k (suc n) = rw (grid-values_from s e items (suc k) n) refl
