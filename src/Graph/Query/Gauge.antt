-- ===== src/Graph/Query/Gauge.antt =====
-- The answer for a gauge that has no point of the file in the window: what the cache holds.
use native.Mathlib.Decide.{dec_le}
use native.Mathlib.Nat.{mul-div_cancel}
use open_falcon.Prelude.{
  ℕ, zero, suc, ◌+◌, ◌-◌, ◌*◌, ◌^◌, ◌≤◌, ◌<◌, ◌≡◌, refl, sym, ap, ap₂, ◌∙◌, Bool, true, false, List,
  [], ◌∷◌, ◌++◌, some, arith, get_elem?, append_assoc, append-nil, ltb, filter, eq_str,
}
use open_falcon.Prelude.Int.{ℤ, pos, add64, add64-pos, ltb_ℤ}
use open_falcon.Prelude.Text.{str}
use open_falcon.Float.{Float}
use open_falcon.Graph.{GraphItem, RrdData}
use open_falcon.Graph.Query.{
  window, rounds, fix_missing, overlay, junction, merge_cache, format_cache, merge,
}
use open_falcon.Graph.Query.Junction.{merge_cache-steps, rounds-enough}
use open_falcon.Graph.Query.Steps.{
  time, steps_mono, Ascends, Between, last_item, value_at, values_from, value_at-before,
}
use open_falcon.Graph.Query.Shown.{
  Shows, Shows-from, cache_loop-Shows, format_result-Shows, grid-values_from,
}
use open_falcon.Graph.Query.Answer.{points_in, ret_size-pos, merge-steps}

module _ {F : Type 0} (nan : F) where
  -- What the cache puts behind nothing.
  overlay-behind :
      (is_nan : F → Bool) (idx : ℕ) (cache merged : List (RrdData F))
      → overlay is_nan 0 idx cache merged ≡ some (merged ++ cache)
  unfolding overlay
  overlay-behind is_nan idx [] merged = ap some (sym (append-nil merged))
  overlay-behind is_nan idx (c ∷ cache) merged =
      let behind : ltb idx 0 ≡ false = ground arith in
      rw behind (
        overlay-behind is_nan (suc idx) cache (merged ++ c ∷ [])
        ∙ ap some (append_assoc merged (c ∷ []) cache))

  fix_missing-behind :
      (step last : ℤ) (fuel : ℕ) (ts : ℤ) (merged : List (RrdData F))
      → 0 < fuel
      → ltb_ℤ ts last ≡ false
      → fix_missing nan step last fuel ts merged ≡ some merged
  unfolding fix_missing
  fix_missing-behind step last zero ts merged a b = absurd (omega arith)
  fix_missing-behind step last (suc fuel) ts merged a b = rw b refl

  merge_cache-nothing :
      (is_nan : F → Bool) (step c : ℕ) (d : RrdData F) (cache : List (RrdData F))
      → d.timestamp ≡ pos c
      → c + step < 2 ^ 63
      → merge_cache nan (pos step) is_nan (d ∷ cache) [] ≡ some (d ∷ cache)
  unfolding junction
  merge_cache-nothing is_nan step c d cache q b =
      let sum : add64 d.timestamp (pos step) ≡ pos (c + step) = rw q (add64-pos c step b) in
      let behind : ltb_ℤ (pos (c + step)) d.timestamp ≡ false = rw q (ground arith) in
      merge_cache-steps nan is_nan (pos step) d cache [] refl sum
        (fix_missing-behind (pos step) d.timestamp (rounds (pos (c + step)) d.timestamp)
          (pos (c + step)) [] (omega arith) behind)
        (overlay-behind is_nan 0 (d ∷ cache) [])

module _ {F : Type 0} ⦃fl : Float F⦄ (nan : F) (step k q : ℕ) (pos_step : 0 < step)
    (within : q * step + step + step < 2 ^ 63) where
  after_start : (w : ℕ) → window (time step k) (time step q) (time step w) ≡ true → k ≤ w
  after_start w seen =
      let le : k * step ≤ w * step = ground (arith, seen) in
      elim (dec_le (suc w) k) [
        | yes lt ↦
            let more = steps_mono step (suc w) k lt in absurd (grind (arith, more, le, pos_step))
        | no g ↦ omega (arith, g)
      ]

  in_window :
      (w : ℕ)
      → k ≤ w
      → w < k + suc (q - k)
      → k ≤ q
      → window (time step k) (time step q) (time step w) ≡ true
  in_window w a b c =
      let le = steps_mono step k w a in
      let le' = steps_mono step w q (omega (arith, b, c)) in ground (arith, le, le')

  merge_cache-Shows :
      (is_nan : F → Bool) (values : ℕ → F) (cache : List (RrdData F))
      → Shows nan step (time step k) (time step q) values k cache
      → merge_cache nan (pos step) is_nan cache [] ≡ some cache
  unfolding merge_cache
  merge_cache-Shows is_nan values [] h = refl
  merge_cache-Shows is_nan values (d ∷ cache) (j, e, a, v, seen, gaps, h) =
      let le : j * step ≤ q * step = ground (arith, seen) in
      merge_cache-nothing nan is_nan step (j * step) d cache e (omega (arith, le, within))

  steps_between : k ≤ q → q * step ≡ k * step + (q - k) * step
  steps_between le =
      let split : q ≡ k + (q - k) = omega arith in
      let distrib : (a b : ℕ) → (a + b) * step ≡ a * step + b * step = λ a b. grind arith in
      ap (λ x. x * step) split ∙ distrib k (q - k)

  points_between : k ≤ q → points_in step (str "GAUGE") (k * step) (q * step) ≡ suc (q - k)
  points_between le =
      let same : q * step - k * step ≡ (q - k) * step = omega (arith, steps_between le) in
      rw (same, mul-div_cancel (q - k) pos_step) (omega arith)

  format_cache-Shows :
      (items : List (GraphItem F)) (i m : ℕ)
      → m * step + step < 2 ^ 63
      → i ≤ m
      → Between step i m items
      → (cache : List (RrdData F)) × (format_cache nan
            (pos step)
            (str "GAUGE")
            (time step k)
            (time step q)
            (time step i)
            (time step m)
            items
          ≡ some cache)
        × Shows nan step (time step k) (time step q) (λ w. value_at nan (time step w) items) k cache
  unfolding format_cache
  format_cache-Shows items i m b le h =
      let (cache, e, shows) =
        cache_loop-Shows nan step (time step k) (time step q)
          (λ w. value_at nan (time step w) items) m (rounds (time step i) (time step m)) i items
          pos_step b (omega (arith, rounds-enough (i * step) (m * step))) (omega arith) h
          (λ w a. refl) in
      (
        cache,
        e,
        Shows-from nan step (time step k) (time step q) (λ w. value_at nan (time step w) items) i k
            cache (λ w lt. value_at-before nan step w i m items pos_step lt h) after_start shows,
      )

  pub merge-values_from :
      (is_nan : F → Bool) (datas : List (RrdData F)) (x : GraphItem F) (rest : List (GraphItem F))
      (i : ℕ)
      → k ≤ q
      → Ascends step i (x ∷ rest)
      → filter (λ d. window (time step k) (time step q) d.timestamp) datas ≡ []
      → merge nan (pos step) is_nan (str "GAUGE") (time step k) (time step q) datas (x ∷ rest)
        ≡ some (values_from nan step k (suc (q - k)) (x ∷ rest))
  merge-values_from is_nan datas x rest i le (j, e, a, b, c) nothing =
      let (m, y, e1, e2, le', b', h) = last_item step j x rest (j, e, omega arith, b, c) in
      let (cache, e3, shows) = format_cache-Shows (x ∷ rest) j m b' le' h in
      let values = λ (w : ℕ). value_at nan (time step w) (x ∷ rest) in
      merge-steps nan step datas (x ∷ rest) is_nan (str "GAUGE") (time step k) (time step q)
        {first = x} {last = y} {cache = cache} {merged = cache} {n = suc (q - k)} refl
        (ap (get_elem? (x ∷ rest)) (omega arith) ∙ e1)
        (ap₂
            (λ t u.
              format_cache nan (pos step) (str "GAUGE") (time step k) (time step q) t u (x ∷ rest))
            e e2
          ∙ e3)
        (ap (merge_cache nan (pos step) is_nan cache) nothing
          ∙ merge_cache-Shows is_nan values cache shows)
        (ret_size-pos step (str "GAUGE") (k * step) (q * step) pos_step (steps_mono step k q le)
            (omega (arith, within))
          ∙ ap some (points_between le))
      ∙ ap some (
          format_result-Shows nan step (time step k) (time step q) values (suc (q - k)) k cache
            pos_step (grind (arith, steps_between le, within)) (λ w a b. in_window w a b le) shows
          ∙ grid-values_from nan step (time step k) (time step q) (x ∷ rest) k (suc (q - k)))
