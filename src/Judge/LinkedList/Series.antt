-- ===== src/Judge/LinkedList/Series.antt =====
-- What `HistoryData` returns, against the whole series that the list stands for.
use open_falcon.Prelude.{
  ℕ, zero, suc, ◌-◌, ◌^◌, ◌≤◌, ◌<◌, ◌≡◌, refl, ◌&&◌, List, [], ◌∷◌, some, map, arith, length,
  length-map, take, take_all, leb, if◌then◌else◌,
}
use open_falcon.Prelude.Int.{ℤ, pos, negsuc, pos_part, add64-pos, sub64-pos, ◌<ℤ◌, leb_ℤ}
use open_falcon.Float.{Float}
use open_falcon.Model.{JudgeItem, HistoryData}
use open_falcon.Judge.LinkedList.{
  point, points, rate, rates, is_gauge, history_data, gauge_data, counter_data,
}

-- `JudgeType[0]` of the newest item exists.
abbrev pub IsTyped : {F : Type 0} → List (JudgeItem F) → Type 0
IsTyped [] = Unit {0}
IsTyped (first ∷ rest) = 0 < length first.judge_type

module _ {F : Type 0} ⦃fl : Float F⦄ where
  abbrev pub differences : JudgeItem F → List (JudgeItem F) → List (HistoryData F)
  differences current [] = []
  differences current (next ∷ rest) = rate current next ∷ differences next rest

  -- A gauge is its values; of another counter the rates between neighbours count.
  abbrev pub series : List (JudgeItem F) → List (HistoryData F)
  series [] = []
  series (first ∷ rest) = elim first.judge_type [
    | [] ↦ []
    | t ∷ _ ↦ if is_gauge t then map point (first ∷ rest) else differences first rest
  ]

  points-take :
      (k : ℕ) (items : List (JudgeItem F))
      → k ≤ length items
      → points k items ≡ some (take k (map point items))
  unfolding points
  points-take zero items h = refl
  points-take (suc k) [] h = absurd (omega arith)
  points-take (suc k) (x ∷ xs) h = ground (arith, points-take k xs)

  rates-take :
      (k : ℕ) (x : JudgeItem F) (items : List (JudgeItem F))
      → k ≤ length items
      → rates k x items ≡ some (take k (differences x items))
  unfolding rates
  rates-take zero x items h = refl
  rates-take (suc k) x [] h = absurd (omega arith)
  rates-take (suc k) x (y ∷ ys) h = ground (arith, rates-take k y ys)

  length-differences :
      (x : JudgeItem F) (items : List (JudgeItem F)) → length (differences x items) ≡ length items
  length-differences x [] = refl
  length-differences x (y ∷ ys) = omega (arith, length-differences y ys)

  gauge_data-take :
      (n : ℕ) (first : JudgeItem F) (rest : List (JudgeItem F))
      → gauge_data (pos (suc n)) first rest
        ≡ some (point first ∷ take n (map point rest), leb (suc n) (suc (length rest)))
  unfolding gauge_data
  gauge_data-take n first rest = ground (
    arith,
    points-take n rest,
    points-take (length rest) rest,
    take_all n (map point rest),
    take_all (length rest) (map point rest),
    length-map (point {F = F}) rest,
  )

  counter_data-take :
      (n : ℕ) (first : JudgeItem F) (rest : List (JudgeItem F))
      → n < 2 ^ 63 - 1
      → length rest < 2 ^ 63 - 1
      → counter_data (pos n) first rest
        ≡ some (take n (differences first rest), leb n (length rest))
  unfolding counter_data
  counter_data-take n first rest h k = ground (
    arith,
    rates-take n first rest,
    rates-take (length rest) first rest,
    take_all n (differences first rest),
    take_all (length rest) (differences first rest),
    length-differences first rest,
    add64-pos n 1,
    sub64-pos (suc (length rest)) 1,
  )

  typed_case :
      (n : ℕ) (first : JudgeItem F) (rest : List (JudgeItem F)) (j : List ℕ)
      → first.judge_type ≡ j
      → 0 < length j
      → suc n < 2 ^ 63 - 1
      → length rest < 2 ^ 63 - 1
      → history_data (pos (suc n)) (first ∷ rest)
        ≡ some (take (suc n) (series (first ∷ rest)), leb (suc n) (length (series (first ∷ rest))))
  unfolding history_data
  typed_case n first rest [] e t h k = absurd (omega arith)
  typed_case n first rest (c ∷ cs) e t h k = rw e (
      ground (
        arith,
        gauge_data-take n first rest,
        counter_data-take (suc n) first rest h k,
        length-map (point {F = F}) rest,
        length-differences first rest,
      ))

  -- `HistoryData(limit)` never panics and returns the newest `limit` points of the series, or all of
  -- them where there are fewer; it says that there are enough exactly when `limit` is positive and
  -- there are that many. The newest item must have a type, and `limit + 1` must be an int.
  pub history_data-series :
      (limit : ℤ) (items : List (JudgeItem F))
      → IsTyped items
      → limit <ℤ pos (2 ^ 63 - 1)
      → length items < 2 ^ 63
      → history_data limit items
        ≡ some (
          take (pos_part limit) (series items),
          leb_ℤ (pos 1) limit && leb (pos_part limit) (length (series items)),
        )
  unfolding history_data
  history_data-series (negsuc n) [] t h k = ground arith
  history_data-series (pos zero) [] t h k = ground arith
  history_data-series (pos (suc n)) [] t h k = ground arith
  history_data-series (negsuc n) (first ∷ rest) t h k = ground arith
  history_data-series (pos zero) (first ∷ rest) t h k = ground arith
  history_data-series (pos (suc n)) (first ∷ rest) t h k =
      ground (arith, typed_case n first rest first.judge_type refl t)
