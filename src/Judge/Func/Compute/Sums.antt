-- ===== src/Judge/Func/Compute/Sums.antt =====
-- What `SumFunction` and `StdDeviationFunction` return when the list holds enough points.
use open_falcon.Prelude.{
  ℕ, ◌≡◌, refl, sym, ap, ap₂, ◌∙◌, ◌||◌, List, [], ◌∷◌, ◌++◌, arith, take, map, length,
}
use open_falcon.Prelude.Int.{pos}
use open_falcon.Prelude.Text.{Str}
use open_falcon.Float.{Float}
use open_falcon.Model.{HistoryData, JudgeItem}
use open_falcon.Judge.LinkedList.Series.{series}
use open_falcon.Judge.Func.{check_is_triggered, sum_function, std_deviation_function}
use open_falcon.Judge.Func.Statistics.{zero_float, sum_from, compute_mean, compute_std_deviation}
use open_falcon.Judge.Func.Compute.{
  computed, compute, sum_round, sum_points, std_deviation_points, unless_empty,
}
use open_falcon.Judge.Func.Compute.Loops.{loop-run}
use open_falcon.Judge.Func.Compute.Points.{HasPoints, with_points-enough, nonempty}
use open_falcon.Judge.Func.Compute.Correct.{first_value, run-sum_round}
use open_falcon.Prelude.{take_all}
use mathlib.Core.List.{reverse, reverse-cons}

module _ {F : Type 0} ⦃fl : Float F⦄ where
  abbrev pub values : List (HistoryData F) → List F
  values vs = map (λ (v : HistoryData F). v.value) vs

  -- `SumFunction` with enough points compares the sum of the newest `n` values, added up from zero
  -- and the newest first.
  pub compute-sum :
      (n : ℕ) (operator : Str) (right : F) (items : List (JudgeItem F))
      → HasPoints n items
      → let vs = take n (series items) in
        let sum = sum_from zero_float (values vs) in
        compute (sum_function (pos n) operator right) items
        ≡ computed vs sum (check_is_triggered sum operator right)
  unfolding compute sum_points
  compute-sum n operator right items h =
      rw (with_points-enough n items (sum_points (pos n) operator right) h) (
        nonempty
          (λ xs.
            let sum = sum_from zero_float (values xs) in
            sum_points (pos n) operator right xs
            ≡ computed xs sum (check_is_triggered sum operator right))
          n items h
          λ v vs e. rw (
            loop-run sum_round 0 n (v ∷ vs) zero_float (omega arith),
            take_all n (v ∷ vs) (omega arith),
            run-sum_round zero_float (v ∷ vs),
          ))

  -- Values added up to `acc`, the last of the list first.
  abbrev pub add_back : F → List F → F
  add_back acc [] = acc
  add_back acc (x ∷ xs) = fl.add (add_back acc xs) x

  add_back-append_one :
      (acc x : F) (xs : List F) → add_back acc (xs ++ x ∷ []) ≡ add_back (fl.add acc x) xs
  add_back-append_one acc x [] = refl
  add_back-append_one acc x (y ∷ xs) = ap (λ t. fl.add t y) (add_back-append_one acc x xs)

  sum_from-add_back : (acc : F) (xs : List F) → sum_from acc xs ≡ add_back acc (reverse xs)
  unfolding sum_from
  sum_from-add_back acc [] = refl
  sum_from-add_back acc (x ∷ xs) =
      sum_from-add_back (fl.add acc x) xs
      ∙ sym (add_back-append_one acc x (reverse xs))
      ∙ ap (add_back acc) (sym (reverse-cons x xs))

  -- The mean of values.
  abbrev pub average : List F → F
  average xs = fl.div (add_back zero_float (reverse xs)) (fl.of_int (pos (length xs)))

  -- The squares of their distances from a point.
  abbrev pub squares : F → List F → List F
  squares center [] = []
  squares center (x ∷ xs) = fl.mul (fl.sub x center) (fl.sub x center) ∷ squares center xs

  compute_mean-average : (xs : List F) → compute_mean xs ≡ average xs
  unfolding compute_mean
  compute_mean-average xs =
      ap (λ t. fl.div t (fl.of_int (pos (length xs)))) (sum_from-add_back zero_float xs)

  squares-map :
      (center : F) (xs : List F)
      → map (λ v. fl.mul (fl.sub v center) (fl.sub v center)) xs ≡ squares center xs
  squares-map center [] = refl
  squares-map center (x ∷ xs) =
      ap (λ t. fl.mul (fl.sub x center) (fl.sub x center) ∷ t) (squares-map center xs)

  compute_std_deviation-average :
      (xs : List F) → compute_std_deviation xs ≡ fl.sqrt (average (squares (average xs) xs))
  unfolding compute_std_deviation
  compute_std_deviation-average xs = ap fl.sqrt (
      ap (λ c. compute_mean (map (λ v. fl.mul (fl.sub v c) (fl.sub v c)) xs))
        (compute_mean-average xs)
      ∙ ap compute_mean (squares-map (average xs) xs)
      ∙ compute_mean-average (squares (average xs) xs))

  -- `StdDeviationFunction` with enough points triggers exactly when the newest value is outside the
  -- interval around the mean of the newest `n` values whose half length is the right value times their
  -- standard deviation, the square root of the mean of the squares of their distances from their
  -- mean; it reports the newest value. A mean is the sum from zero on, the newest first, divided by
  -- the number of values.
  pub compute-stddev :
      (n : ℕ) (operator : Str) (right : F) (items : List (JudgeItem F))
      → HasPoints n items
      → let vs = take n (series items) in
        let mean = average (values vs) in
        let reach = fl.mul right (fl.sqrt (average (squares mean (values vs)))) in
        compute (std_deviation_function (pos n) operator right) items
        ≡ computed vs (first_value vs) (
            fl.lt (first_value vs) (fl.sub mean reach)
            || fl.lt (fl.add mean reach) (first_value vs))
  unfolding compute std_deviation_points
  compute-stddev n operator right items h =
      rw (with_points-enough n items (unless_empty (std_deviation_points right)) h) (
        nonempty
          (λ xs.
            let mean = average (values xs) in
            let reach = fl.mul right (fl.sqrt (average (squares mean (values xs)))) in
            unless_empty (std_deviation_points right) xs
            ≡ computed xs (first_value xs) (
                fl.lt (first_value xs) (fl.sub mean reach)
                || fl.lt (fl.add mean reach) (first_value xs)))
          n items h
          λ v vs e.
            ap₂
              (λ mean std. computed (v ∷ vs) v.value (
                fl.lt v.value (fl.sub mean (fl.mul right std))
                || fl.lt (fl.add mean (fl.mul right std)) v.value))
              (compute_mean-average (values (v ∷ vs)))
              (compute_std_deviation-average (values (v ∷ vs))))
