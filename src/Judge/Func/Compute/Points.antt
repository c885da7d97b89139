-- ===== src/Judge/Func/Compute/Points.antt =====
-- The points that a method `Compute` works on when the list holds enough of them.
use open_falcon.Prelude.{
  ℕ, suc, ◌-◌, ◌^◌, ◌≤◌, ◌<◌, ◌≡◌, sym, List, [], ◌∷◌, Option, arith, length, take, length-take,
}
use open_falcon.Prelude.Int.{pos}
use open_falcon.Float.{Float}
use open_falcon.Model.{HistoryData, JudgeItem}
use open_falcon.Judge.LinkedList.Series.{series, IsTyped, history_data-series}
use open_falcon.Judge.Func.{Computed}
use open_falcon.Judge.Func.Compute.{with_points}

module _ {F : Type 0} ⦃fl : Float F⦄ where
  -- The list stands for at least `n` points, and `n` is positive.
  pub record HasPoints (n : ℕ) (items : List (JudgeItem F)) : Type 0 where
    pub typed : IsTyped items
    pub small : n < 2 ^ 63 - 1
    pub listed : length items < 2 ^ 63
    pub wanted : 0 < n
    pub enough : n ≤ length (series items)

  pub with_points-enough :
      (n : ℕ) (items : List (JudgeItem F)) (body : List (HistoryData F) → Option (Computed F))
      → HasPoints n items
      → with_points (pos n) items body ≡ body (take n (series items))
  with_points-enough n items body h =
      rw (history_data-series (pos n) items h.typed (omega (arith, h.small)) h.listed)
        (ground arith)

  -- The points that a method works on: `n` of them, so at least one.
  pub nonempty :
      (P : List (HistoryData F) → Type 0) (n : ℕ) (items : List (JudgeItem F))
      → HasPoints n items
      → ((v : HistoryData F) (vs : List (HistoryData F)) → n ≡ suc (length vs) → P (v ∷ vs))
      → P (take n (series items))
  nonempty P n items h k =
      cases (take n (series items)) (omega (arith, h.enough, length-take n (series items)))
    where
      cases : (xs : List (HistoryData F)) → length xs ≡ n → P xs
      cases [] e = absurd (omega (arith, h.wanted))
      cases (v ∷ vs) e = k v vs (sym e)
