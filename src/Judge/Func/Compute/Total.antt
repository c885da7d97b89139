-- ===== src/Judge/Func/Compute/Total.antt =====
-- `Compute` as a total function: what the parameters and the items must be for it.
use open_falcon.Prelude.{
  ℕ, zero, suc, ◌+◌, ◌-◌, ◌^◌, ◌≤◌, ◌<◌, ◌≡◌, ◌≢◌, refl, ap, Bool, true, false, ◌&&◌, List, [], ◌∷◌,
  Option, some, arith, length, take, if◌then◌else◌, leb, Bool-cases, inl, inr, length-take,
  take_all, ◌∙◌,
}
use open_falcon.Prelude.Int.{
  ℤ, pos, negsuc, pos_part, IsInt64, ◌+ℤ◌, ◌<ℤ◌, add64, wrap64, wrap64-eq, leb_ℤ,
}
use open_falcon.Prelude.Text.{Str}
use open_falcon.Float.{Float}
use open_falcon.Model.{HistoryData, JudgeItem}
use open_falcon.Judge.LinkedList.Series.{series, IsTyped, history_data-series}
use open_falcon.Judge.Func.{
  std_deviation_function, Function, Computed, max_function, min_function, all_function,
  lookup_function, sum_function, avg_function, diff_function, pdiff_function, kpdiff_function,
  kdiff_function,
}
use open_falcon.Judge.Func.Statistics.{zero_float}
use open_falcon.Judge.Func.Compute.{
  Round, loop, rounds_from_one, with_points, not_enough, extreme, all_points, lookup_points,
  avg_points, change_points, kdiff_points, sum_points, std_deviation_points, pair_loop, max_round,
  min_round, sum_round, diff_round, pdiff_round, compute, kpdiff_change, all_round, lookup_round,
}
use open_falcon.Judge.Func.Compute.Loops.{run, loop-run}
use open_falcon.Judge.Func.Compute.Correct.{extreme-run}
use open_falcon.Judge.Func.Compute.KDiff.{kdiff_points-pairs}

abbrev Total : {F : Type 0} → Option (Computed F) → Type 0
Total {F} o = (r : Computed F) × (o ≡ some r) × (r.is_enough ≡ true → r.vs ≢ [])

-- The number of points that the method asks for is an int, and not the largest one.
abbrev pub Fits : {F : Type 0} → Function F → Type 0
Fits (max_function limit _ _) = limit <ℤ pos (2 ^ 63 - 1)
Fits (min_function limit _ _) = limit <ℤ pos (2 ^ 63 - 1)
Fits (all_function limit _ _) = limit <ℤ pos (2 ^ 63 - 1)
Fits (lookup_function _ limit _ _) = limit <ℤ pos (2 ^ 63 - 1)
Fits (sum_function limit _ _) = limit <ℤ pos (2 ^ 63 - 1)
Fits (avg_function limit _ _) = limit <ℤ pos (2 ^ 63 - 1)
Fits (std_deviation_function limit _ _) = limit <ℤ pos (2 ^ 63 - 1)
Fits (diff_function limit _ _) = IsInt64 limit × (limit <ℤ pos (2 ^ 63 - 2))
Fits (pdiff_function limit _ _) = IsInt64 limit × (limit <ℤ pos (2 ^ 63 - 2))
Fits (kpdiff_function num limit _ _) = IsInt64 (limit +ℤ num) × (limit +ℤ num <ℤ pos (2 ^ 63 - 1))
Fits (kdiff_function num limit _ _) = IsInt64 (limit +ℤ num) × (limit +ℤ num <ℤ pos (2 ^ 63 - 1))

add64-one :
    (limit : ℤ)
    → IsInt64 limit
    → limit <ℤ pos (2 ^ 63 - 2)
    → add64 limit (pos 1) <ℤ pos (2 ^ 63 - 1)
unfolding wrap64 ◌+ℤ◌
add64-one (pos n) i h = ground arith
add64-one (negsuc n) i h = ground arith

+ℤ_pos : (m n : ℕ) → pos m +ℤ pos n ≡ pos (m + n)
unfolding ◌+ℤ◌
+ℤ_pos m n = ground arith

module _ {F : Type 0} ⦃fl : Float F⦄ where
  if-Total :
      (b : Bool) (limit : ℤ) (xs : List (HistoryData F))
      (body : List (HistoryData F) → Option (Computed F))
      → (b ≡ true → (1 ≤ length xs) × (limit ≡ pos (length xs)))
      → ((v : HistoryData F) (vs : List (HistoryData F))
          → limit ≡ pos (suc (length vs))
          → Total (body (v ∷ vs)))
      → Total (if b then body xs else not_enough xs)
  if-Total false limit xs body h k = (_, refl, λ enough empty. cc)
  if-Total true limit [] body h k = absurd (omega (arith, (h refl).0))
  if-Total true limit (v ∷ vs) body h k = k v vs (h refl).1

  counted :
      (limit : ℤ) (xs : List (HistoryData F))
      → (leb_ℤ (pos 1) limit && leb (pos_part limit) (length xs)) ≡ true
      → (1 ≤ length (take (pos_part limit) xs)) × (limit ≡ pos (length (take (pos_part limit) xs)))
  counted (pos n) xs e = ground (arith, length-take n xs)
  counted (negsuc n) xs e = ground arith

  with_points-Total :
      (limit : ℤ) (items : List (JudgeItem F)) (body : List (HistoryData F) → Option (Computed F))
      → limit <ℤ pos (2 ^ 63 - 1)
      → IsTyped items
      → length items < 2 ^ 63
      → ((v : HistoryData F) (vs : List (HistoryData F))
          → limit ≡ pos (suc (length vs))
          → Total (body (v ∷ vs)))
      → Total (with_points limit items body)
  with_points-Total limit items body a t s k = rw (history_data-series limit items t a s) (
      if-Total _ limit (take (pos_part limit) (series items)) body (counted limit (series items)) k)

  extreme-Total :
      (round : HistoryData F → F → Round F) (limit : ℤ) (operator : Str) (right : F)
      (v : HistoryData F) (vs : List (HistoryData F))
      → limit ≡ pos (suc (length vs))
      → Total (extreme round limit operator right (v ∷ vs))
  extreme-Total round limit operator right v vs e =
      rw e (_, extreme-run round (suc (length vs)) operator right v vs refl, λ enough empty. cc)

  -- The loops over all points.
  loop-all :
      {S : Type 0} (body : HistoryData F → S → Round S) (limit : ℤ) (vs : List (HistoryData F))
      (s : S)
      → limit ≡ pos (length vs)
      → loop body vs 0 (pos_part limit) s ≡ some (run body vs s)
  loop-all body limit vs s e = rw e (
      loop-run body 0 (length vs) vs s (omega arith)
      ∙ ap (λ w. some (run body w s)) (take_all (length vs) vs (omega arith)))

  -- The loops over the points behind the newest one.
  loop-rest :
      {S : Type 0} (body : HistoryData F → S → Round S) (limit : ℤ) (v : HistoryData F)
      (vs : List (HistoryData F)) (s : S)
      → limit ≡ pos (suc (length vs))
      → loop body (v ∷ vs) 1 (rounds_from_one limit) s ≡ some (run body vs s)
  loop-rest body limit v vs s e = rw e (
      loop-run body 1 (suc (length vs) - 1) (v ∷ vs) s (omega arith)
      ∙ ap (λ w. some (run body w s)) (take_all (suc (length vs) - 1) vs (omega arith)))

  kdiff_points-Total :
      (change : F → F → F) (num limit : ℤ) (operator : Str) (right : F) (v : HistoryData F)
      (vs : List (HistoryData F))
      → IsInt64 (limit +ℤ num)
      → limit +ℤ num ≡ pos (suc (length vs))
      → Total (kdiff_points change num limit operator right (v ∷ vs))
  unfolding kdiff_points pair_loop
  kdiff_points-Total change (negsuc n) limit operator right v vs i e = (_, refl, λ enough empty. cc)
  kdiff_points-Total change (pos zero) limit operator right v vs i e = (_, refl, λ enough empty. cc)
  kdiff_points-Total change (pos (suc n)) (negsuc m) operator right v vs i e =
      elim (Bool-cases (fl.eq v.value zero_float)) [
        | inl z ↦ rw z (_, refl, λ enough empty. cc)
        | inr nz ↦ rw nz (_, refl, λ enough empty. cc)
      ]
  kdiff_points-Total change (pos (suc n)) (pos zero) operator right v vs i e =
      elim (Bool-cases (fl.eq v.value zero_float)) [
        | inl z ↦ rw z (_, refl, λ enough empty. cc)
        | inr nz ↦ rw nz (_, refl, λ enough empty. cc)
      ]
  kdiff_points-Total change (pos (suc n)) (pos (suc m)) operator right v vs i e =
      let p : pos (suc m + suc n) ≡ pos (suc (length vs)) = rw +ℤ_pos at e in
      let q : suc m + suc n ≡ suc (length vs) = ground arith in
      let b : IsInt64 (pos (suc m + suc n)) = rw +ℤ_pos at i in
      let (left, r) =
        kdiff_points-pairs change (suc n) (suc m) operator right (v ∷ vs) (omega arith)
          (omega arith) b.0 (omega arith) in
      (_, r, λ enough empty. cc)

  -- With a typed list of at most an int's length, every method `Compute` returns: no index is out of
  -- range, for any limit and number, negative ones too, that do not add up past the ints. If it says
  -- that there are enough points, it hands on at least one.
  pub compute-Total :
      (f : Function F) (items : List (JudgeItem F))
      → Fits f
      → IsTyped items
      → length items < 2 ^ 63
      → (r : Computed F) × (compute f items ≡ some r) × (r.is_enough ≡ true → r.vs ≢ [])
  unfolding compute all_points lookup_points sum_points avg_points std_deviation_points
      change_points
  compute-Total (max_function limit operator right) items a t s =
      with_points-Total limit items _ a t s (extreme-Total max_round limit operator right)
  compute-Total (min_function limit operator right) items a t s =
      with_points-Total limit items _ a t s (extreme-Total min_round limit operator right)
  compute-Total (all_function limit operator right) items a t s =
      with_points-Total limit items _ a t s λ v vs e.
        rw (loop-all (all_round operator right) limit (v ∷ vs) true e) (_, refl, λ enough empty. cc)
  compute-Total (lookup_function num limit operator right) items a t s =
      with_points-Total limit items _ a t s λ v vs e.
        rw (loop-all (lookup_round num operator right) limit (v ∷ vs) (pos 0, false) e)
          (_, refl, λ enough empty. cc)
  compute-Total (sum_function limit operator right) items a t s =
      with_points-Total limit items _ a t s
        λ v vs e. rw (loop-all sum_round limit (v ∷ vs) zero_float e) (_, refl, λ enough empty. cc)
  compute-Total (avg_function limit operator right) items a t s =
      with_points-Total limit items _ a t s
        λ v vs e. rw (loop-all sum_round limit (v ∷ vs) zero_float e) (_, refl, λ enough empty. cc)
  compute-Total (std_deviation_function limit operator right) items a t s =
      with_points-Total limit items _ a t s λ v vs e. (_, refl, λ enough empty. cc)
  compute-Total (diff_function limit operator right) items a t s =
      with_points-Total (add64 limit (pos 1)) items _ (add64-one limit a.0 a.1) t s λ v vs e.
        rw
          (loop-rest (diff_round v.value operator right) (add64 limit (pos 1)) v vs
            (zero_float, false) e)
          (_, refl, λ enough empty. cc)
  compute-Total (pdiff_function limit operator right) items a t s =
      with_points-Total (add64 limit (pos 1)) items _ (add64-one limit a.0 a.1) t s λ v vs e.
        rw
          (loop-rest (pdiff_round v.value operator right) (add64 limit (pos 1)) v vs
            (zero_float, false) e)
          (_, refl, λ enough empty. cc)
  compute-Total (kpdiff_function num limit operator right) items a t s =
      rw (wrap64-eq (limit +ℤ num) a.0) (
        with_points-Total (limit +ℤ num) items _ a.1 t s
          (λ v vs e. kdiff_points-Total kpdiff_change num limit operator right v vs a.0 e))
  compute-Total (kdiff_function num limit operator right) items a t s =
      rw (wrap64-eq (limit +ℤ num) a.0) (
        with_points-Total (limit +ℤ num) items _ a.1 t s
          (λ v vs e. kdiff_points-Total fl.sub num limit operator right v vs a.0 e))
