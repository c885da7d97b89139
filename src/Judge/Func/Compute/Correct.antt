-- ===== src/Judge/Func/Compute/Correct.antt =====
-- What the methods `Compute` return when the list holds enough points.
use native.Mathlib.Nat.{zero-add}
use native.Mathlib.Numerals.{add-one}
use open_falcon.Prelude.{
  ℕ, suc, ◌+◌, ◌-◌, ◌^◌, ◌<◌, ◌≡◌, refl, ap, Bool, true, false, not, ◌&&◌, List, [], ◌∷◌, arith,
  length, take, every, exists, count, leb, take_all, All, map, ◌∙◌, length-map,
}
use open_falcon.Prelude.Int.{pos, add64-pos}
use open_falcon.Prelude.Text.{Str}
use open_falcon.Float.{Float, IsOrdered}
use open_falcon.Model.{HistoryData, JudgeItem}
use open_falcon.Judge.LinkedList.Series.{series}
use open_falcon.Judge.Func.{
  check_is_triggered, max_function, min_function, all_function, lookup_function, avg_function,
  diff_function, pdiff_function,
}
use open_falcon.Judge.Func.Statistics.{zero_float, sum_from, compute_mean}
use open_falcon.Judge.Func.Compute.{
  Round, unless_empty, computed, extreme, all_points, lookup_points, avg_points, change_points,
  max_round, min_round, sum_round, diff_round, pdiff_round, compute, percent, all_round,
  lookup_round,
}
use open_falcon.Judge.Func.Compute.Loops.{
  run, loop-run, checked, run-all_round, run-lookup_round, run-diff_round, run-pdiff_round,
}
use open_falcon.Judge.Func.Compute.Extremes.{
  IsNumber, IsMaximum, IsMinimum, run-max_round-IsMaximum, run-min_round-IsMinimum,
}
use open_falcon.Judge.Func.Compute.Points.{HasPoints, with_points-enough, nonempty}

module _ {F : Type 0} ⦃fl : Float F⦄ where
  pub extreme-run :
      (round : HistoryData F → F → Round F) (n : ℕ) (operator : Str) (right : F) (v : HistoryData F)
      (vs : List (HistoryData F))
      → n ≡ suc (length vs)
      → extreme round (pos n) operator right (v ∷ vs)
        ≡ computed
            (v ∷ vs)
            (run round vs v.value)
            (check_is_triggered (run round vs v.value) operator right)
  unfolding extreme
  extreme-run round n operator right v vs e =
      rw
        (loop-run round 1 (n - 1) (v ∷ vs) v.value (omega arith), take_all (n - 1) vs (omega arith))

  -- `MaxFunction` with enough points, none of them NaN, compares the largest of the newest `n`
  -- values with the right value.
  pub compute-max :
      (n : ℕ) (operator : Str) (right : F) (items : List (JudgeItem F))
      → IsOrdered fl
      → HasPoints n items
      → All IsNumber (take n (series items))
      → (left : F) × (compute (max_function (pos n) operator right) items
          ≡ computed (take n (series items)) left (check_is_triggered left operator right))
        × IsMaximum left (take n (series items))
  unfolding compute
  compute-max n operator right items ord h =
      rw (with_points-enough n items (extreme max_round (pos n) operator right) h) (
        nonempty
          (λ xs.
            All IsNumber xs
            → (left : F) × (extreme max_round (pos n) operator right xs
                ≡ computed xs left (check_is_triggered left operator right))
              × IsMaximum left xs)
          n items h
          λ v vs e a. (
            run max_round vs v.value,
            extreme-run max_round n operator right v vs e,
            run-max_round-IsMaximum ord v vs a,
          ))

  -- `MinFunction` with enough points, none of them NaN, compares the smallest of the newest `n`
  -- values with the right value.
  pub compute-min :
      (n : ℕ) (operator : Str) (right : F) (items : List (JudgeItem F))
      → IsOrdered fl
      → HasPoints n items
      → All IsNumber (take n (series items))
      → (left : F) × (compute (min_function (pos n) operator right) items
          ≡ computed (take n (series items)) left (check_is_triggered left operator right))
        × IsMinimum left (take n (series items))
  unfolding compute
  compute-min n operator right items ord h =
      rw (with_points-enough n items (extreme min_round (pos n) operator right) h) (
        nonempty
          (λ xs.
            All IsNumber xs
            → (left : F) × (extreme min_round (pos n) operator right xs
                ≡ computed xs left (check_is_triggered left operator right))
              × IsMinimum left xs)
          n items h
          λ v vs e a. (
            run min_round vs v.value,
            extreme-run min_round n operator right v vs e,
            run-min_round-IsMinimum ord v vs a,
          ))

  abbrev pub first_value : List (HistoryData F) → F
  first_value [] = zero_float
  first_value (v ∷ vs) = v.value

  -- `AllFunction` with enough points triggers exactly when each of the newest `n` does, and reports
  -- the newest value.
  pub compute-all :
      (n : ℕ) (operator : Str) (right : F) (items : List (JudgeItem F))
      → HasPoints n items
      → let vs = take n (series items) in
        compute (all_function (pos n) operator right) items
        ≡ computed vs (first_value vs) (every (checked operator right) vs)
  unfolding compute all_points
  compute-all n operator right items h =
      rw (with_points-enough n items (all_points (pos n) operator right) h) (
        nonempty
          (λ xs.
            all_points (pos n) operator right xs
            ≡ computed xs (first_value xs) (every (checked operator right) xs))
          n items h
          λ v vs e. rw (
            loop-run (all_round operator right) 0 n (v ∷ vs) true (omega arith),
            take_all n (v ∷ vs) (omega arith),
            run-all_round operator right (v ∷ vs),
          ))

  -- `LookupFunction` with enough points triggers exactly when at least `num` of the newest `n` do,
  -- and reports the newest value. `num` is positive.
  pub compute-lookup :
      (num n : ℕ) (operator : Str) (right : F) (items : List (JudgeItem F))
      → 0 < num
      → num < 2 ^ 63
      → HasPoints n items
      → let vs = take n (series items) in
        compute (lookup_function (pos num) (pos n) operator right) items
        ≡ computed vs (first_value vs) (leb num (count (checked operator right) vs))
  unfolding compute lookup_points
  compute-lookup num n operator right items b c h =
      rw (with_points-enough n items (lookup_points (pos num) (pos n) operator right) h) (
        nonempty
          (λ xs.
            lookup_points (pos num) (pos n) operator right xs
            ≡ computed xs (first_value xs) (leb num (count (checked operator right) xs)))
          n items h
          λ v vs e. rw (
            loop-run (lookup_round (pos num) operator right) 0 n (v ∷ vs) (pos 0, false)
                (omega arith),
            take_all n (v ∷ vs) (omega arith),
            run-lookup_round num 0 operator right (v ∷ vs) c b,
            zero-add,
          ))

  pub run-sum_round :
      (sum : F) (vs : List (HistoryData F))
      → run sum_round vs sum ≡ sum_from sum (map (λ (v : HistoryData F). v.value) vs)
  unfolding sum_from
  run-sum_round sum [] = refl
  run-sum_round sum (v ∷ vs) = run-sum_round (fl.add sum v.value) vs

  -- `AvgFunction` with enough points compares what `ComputeMean` makes of the newest `n` values.
  pub compute-avg :
      (n : ℕ) (operator : Str) (right : F) (items : List (JudgeItem F))
      → HasPoints n items
      → let vs = take n (series items) in
        let mean = compute_mean (map (λ (v : HistoryData F). v.value) vs) in
        compute (avg_function (pos n) operator right) items
        ≡ computed vs mean (check_is_triggered mean operator right)
  unfolding compute avg_points compute_mean
  compute-avg n operator right items h =
      rw (with_points-enough n items (avg_points (pos n) operator right) h) (
        nonempty
          (λ xs.
            let mean = compute_mean (map (λ (v : HistoryData F). v.value) xs) in
            avg_points (pos n) operator right xs
            ≡ computed xs mean (check_is_triggered mean operator right))
          n items h
          λ v vs e. rw (
            loop-run sum_round 0 n (v ∷ vs) zero_float (omega arith),
            take_all n (v ∷ vs) (omega arith),
            run-sum_round zero_float (v ∷ vs),
            e,
            ← length-map (λ (w : HistoryData F). w.value) vs,
          ))

  pub change_points-run :
      (round : F → HistoryData F → F × Bool → Round (F × Bool)) (n : ℕ) (v : HistoryData F)
      (vs : List (HistoryData F))
      → suc n < 2 ^ 63 - 1
      → suc n ≡ suc (length vs)
      → let s = run (round v.value) vs (zero_float, false) in
        change_points round (pos n) (v ∷ vs) ≡ computed (v ∷ vs) s.0 s.1
  unfolding change_points
  change_points-run round n v vs b e = rw (
    add64-pos n 1 (omega arith),
    loop-run (round v.value) 1 (n + 1 - 1) (v ∷ vs) (zero_float, false) (omega arith),
    take_all (n + 1 - 1) vs (omega arith),
  )

  abbrev pub rest_of : List (HistoryData F) → List (HistoryData F)
  rest_of [] = []
  rest_of (v ∷ vs) = vs

  -- `DiffFunction` with `n + 1` points triggers exactly when the difference of the newest value and
  -- one of the `n` values behind it does.
  pub compute-diff :
      (n : ℕ) (operator : Str) (right : F) (items : List (JudgeItem F))
      → HasPoints (suc n) items
      → let vs = take (suc n) (series items) in
        (left : F) × (compute (diff_function (pos n) operator right) items
          ≡ computed vs left (
              exists
                (λ v. check_is_triggered (fl.sub (first_value vs) v.value) operator right)
                (rest_of vs)))
  unfolding compute
  compute-diff n operator right items h =
      rw
        (
          add64-pos n 1 (omega (arith, h.small)),
          add-one,
          with_points-enough (suc n) items
              (unless_empty (change_points (λ first. diff_round first operator right) (pos n))) h,
        )
        (nonempty
          (λ xs.
            (left : F) × (unless_empty
                (change_points (λ first. diff_round first operator right) (pos n)) xs
              ≡ computed xs left (
                  exists (λ v. check_is_triggered (fl.sub (first_value xs) v.value) operator right)
                    (rest_of xs))))
          (suc n) items h
          λ v vs e. (
            (run (diff_round v.value operator right) vs (zero_float, false)).0,
            change_points-run (λ first. diff_round first operator right) n v vs h.small e
                ∙ ap (computed (v ∷ vs) _) (run-diff_round v.value zero_float operator right vs),
          ))

  -- `PDiffFunction` with `n + 1` points triggers exactly when, for one of the `n` values behind the
  -- newest that is not zero, the change from it to the newest value in per cent of it does.
  pub compute-pdiff :
      (n : ℕ) (operator : Str) (right : F) (items : List (JudgeItem F))
      → HasPoints (suc n) items
      → let vs = take (suc n) (series items) in
        (left : F) × (compute (pdiff_function (pos n) operator right) items
          ≡ computed vs left (
              exists
                (λ v.
                  not (fl.eq v.value zero_float)
                  && check_is_triggered
                      (percent (fl.sub (first_value vs) v.value) v.value)
                      operator
                      right)
                (rest_of vs)))
  unfolding compute
  compute-pdiff n operator right items h =
      rw
        (
          add64-pos n 1 (omega (arith, h.small)),
          add-one,
          with_points-enough (suc n) items
              (unless_empty (change_points (λ first. pdiff_round first operator right) (pos n))) h,
        )
        (nonempty
          (λ xs.
            (left : F) × (unless_empty
                (change_points (λ first. pdiff_round first operator right) (pos n)) xs
              ≡ computed xs left (
                  exists
                    (λ v.
                      not (fl.eq v.value zero_float)
                      && check_is_triggered (percent (fl.sub (first_value xs) v.value) v.value)
                          operator right)
                    (rest_of xs))))
          (suc n) items h
          λ v vs e. (
            (run (pdiff_round v.value operator right) vs (zero_float, false)).0,
            change_points-run (λ first. pdiff_round first operator right) n v vs h.small e
                ∙ ap (computed (v ∷ vs) _) (run-pdiff_round v.value zero_float operator right vs),
          ))
