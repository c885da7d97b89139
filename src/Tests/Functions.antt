-- ===== src/Tests/Functions.antt =====
-- The functions on three points, and witnesses of what is proved of them.
use open_falcon.Prelude.{
  ℕ, ◌≡◌, ◌≢◌, ◌<◌, true, not, ◌&&◌, List, [], ◌∷◌, none, some, arith, leb, take, count, exists,
  eq_str,
}
use mathlib.Core.List.{reverse}
use open_falcon.Prelude.Int.{ℤ, pos, ◌+ℤ◌}
use open_falcon.Prelude.Text.{str, itoa}
use open_falcon.Float.{fixed_point}
use open_falcon.Model.{HistoryData}
use open_falcon.Judge.LinkedList.{history_data}
use open_falcon.Judge.LinkedList.Series.{history_data-series}
use open_falcon.Judge.LinkedList.Retention.{push_all, push_all-accept_all}
use open_falcon.Judge.Func.{
  Computed, check_is_triggered, lookup_function, pdiff_function, kdiff_function,
}
use open_falcon.Judge.Func.Statistics.{zero_float}
use open_falcon.Judge.Func.Compute.{compute, computed, percent}
use open_falcon.Judge.Func.Compute.Pairs.{every_pair}
use open_falcon.Judge.Func.Compute.Points.{HasPoints}
use open_falcon.Judge.Func.Compute.Total.{compute-Total}
use open_falcon.Judge.Func.Compute.Loops.{checked}
use open_falcon.Judge.Func.Compute.Correct.{compute-lookup, compute-pdiff}
use open_falcon.Judge.Func.Compute.KDiff.{compute-kdiff}
use open_falcon.Judge.Func.Parse.{parse_func_from_string}
use open_falcon.Judge.Func.Parse.Spelling.{spell, parse-show, parse_single_panics}
use open_falcon.Judge.Func.Compute.Sums.{values, average, squares, compute-stddev}
use open_falcon.Judge.Func.{std_deviation_function}
use open_falcon.Prelude.{◌||◌}
use open_falcon.Tests.{whole, item, items, datum}

-- The points of the three items.
abbrev newest : List (HistoryData ℤ)
newest = datum 180 7 ∷ datum 120 9 ∷ datum 60 4 ∷ []

has_points : (n : ℕ) → 0 < n → n < 4 → HasPoints n items
has_points n a b = record {
  typed = omega arith;
  small = omega arith;
  listed = omega arith;
  wanted = a;
  enough = omega arith;
}

history_data-series_example :
    history_data (pos 2) items ≡ some (datum 180 7 ∷ datum 120 9 ∷ [], true)
history_data-series_example =
    history_data-series (pos 2) items (omega arith) (omega arith) (omega arith)

-- Room for two: an old item is refused, the oldest one is dropped.
push_all-accept_all_example :
    push_all (item 120 9 ∷ item 60 1 ∷ item 180 7 ∷ []) (pos 2) (item 60 4 ∷ [])
    ≡ some (item 180 7 ∷ item 120 9 ∷ [])
push_all-accept_all_example =
    push_all-accept_all (item 120 9 ∷ item 60 1 ∷ item 180 7 ∷ []) 2 (item 60 4 ∷ []) (omega arith)
      (omega arith)

compute-lookup_example :
    compute (lookup_function (pos 2) (pos 3) (str ">") (whole 6)) items
    ≡ computed newest (whole 7) (leb 2 (count (checked (str ">") (whole 6)) newest))
compute-lookup_example =
    compute-lookup 2 3 (str ">") (whole 6) items (omega arith) (omega arith)
      (has_points 3 (omega arith) (omega arith))

compute-pdiff_example :
    (left : ℤ) × (compute (pdiff_function (pos 2) (str ">") (whole 50)) items
      ≡ computed newest left (
          exists
            (λ v.
              not (fixed_point.eq v.value zero_float)
              && check_is_triggered
                  (percent (fixed_point.sub (whole 7) v.value) v.value)
                  (str ">")
                  (whole 50))
            (datum 120 9 ∷ datum 60 4 ∷ [])))
compute-pdiff_example =
    compute-pdiff 2 (str ">") (whole 50) items (has_points 3 (omega arith) (omega arith))

compute-kdiff_example :
    (left : ℤ) × (compute (kdiff_function (pos 1) (pos 2) (str ">") (whole 2)) items
      ≡ computed newest left (
          every_pair fixed_point.sub
            (str ">")
            (whole 2)
            (take 2 newest)
            (take 1 newest)
            (reverse newest)))
compute-kdiff_example =
    compute-kdiff 1 2 (str ">") (whole 2) items (omega arith) (omega arith)
      (has_points 3 (omega arith) (omega arith))

compute-Total_example :
    (r : Computed ℤ) × (compute (kdiff_function (pos 1) (pos 2) (str ">") (whole 2)) items ≡ some r)
    × (r.is_enough ≡ true → r.vs ≢ [])
unfolding ◌+ℤ◌
compute-Total_example =
    compute-Total (kdiff_function (pos 1) (pos 2) (str ">") (whole 2)) items (omega arith)
      (omega arith) (omega arith)

parse-show_example :
    parse_func_from_string (str "lookup(#2,3)") (str ">") (whole 6)
    ≡ some (some (lookup_function (pos 2) (pos 3) (str ">") (whole 6)))
unfolding itoa
parse-show_example = parse-show (lookup_function (pos 2) (pos 3) (str ">") (whole 6)) (omega arith)

parse_single_panics_example :
    (parse_func_from_string (spell (str "lookup") (itoa (pos 3))) (str ">") (whole 6) ≡ none)
    × (parse_func_from_string (spell (str "kdiff") (itoa (pos 3))) (str ">") (whole 6) ≡ none)
    × (parse_func_from_string (spell (str "kpdiff") (itoa (pos 3))) (str ">") (whole 6) ≡ none)
parse_single_panics_example = parse_single_panics (pos 3) (str ">") (whole 6) (omega arith)

compute-stddev_example :
    let mean = average (values newest) in
    let reach =
      fixed_point.mul (whole 2) (fixed_point.sqrt (average (squares mean (values newest)))) in
    compute (std_deviation_function (pos 3) (str ">") (whole 2)) items
    ≡ computed newest (whole 7) (
        fixed_point.lt (whole 7) (fixed_point.sub mean reach)
        || fixed_point.lt (fixed_point.add mean reach) (whole 7))
compute-stddev_example =
    compute-stddev 3 (str ">") (whole 2) items (has_points 3 (omega arith) (omega arith))
