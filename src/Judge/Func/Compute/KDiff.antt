-- ===== src/Judge/Func/Compute/KDiff.antt =====
-- What `KDiffFunction` and `KPDiffFunction` return when the list holds enough points.
use mathlib.Core.List.{reverse}
use open_falcon.Prelude.{
  ℕ, zero, suc, ◌+◌, ◌^◌, ◌<◌, ◌≡◌, refl, ap, true, false, List, ◌∷◌, arith, length, take, ◌>>=◌,
  ◌∙◌,
}
use open_falcon.Prelude.Int.{ℤ, pos, add64, add64-pos}
use open_falcon.Prelude.Text.{Str}
use open_falcon.Float.{Float}
use open_falcon.Model.{HistoryData, JudgeItem}
use open_falcon.Judge.LinkedList.Series.{series}
use open_falcon.Judge.Func.{kdiff_function}
use open_falcon.Judge.Func.Statistics.{zero_float}
use open_falcon.Judge.Func.Compute.{
  with_points, unless_empty, computed, kdiff_points, kdiff_loop, compute,
}
use open_falcon.Judge.Func.Compute.Pairs.{every_pair, kdiff_loop-pairs}
use open_falcon.Judge.Func.Compute.Points.{HasPoints, with_points-enough, nonempty}

module _ {F : Type 0} ⦃fl : Float F⦄ where
  -- The first round sets `isTriggered` before it reads it.
  kdiff_loop-fresh :
      (change : F → F → F) (operator : Str) (right : F) (vs : List (HistoryData F)) (num l : ℤ)
      (i k : ℕ) (left : F)
      → kdiff_loop change operator right vs num l i (suc k) (left, false)
        ≡ kdiff_loop change operator right vs num l i (suc k) (left, true)
  unfolding kdiff_loop
  kdiff_loop-fresh change operator right vs num l i k left = refl

  pub kdiff_points-pairs :
      (change : F → F → F) (num l : ℕ) (operator : Str) (right : F) (vs : List (HistoryData F))
      → 0 < num
      → 0 < l
      → l + num < 2 ^ 63
      → length vs ≡ l + num
      → (left : F) × (kdiff_points change (pos num) (pos l) operator right vs
          ≡ computed vs left
              (every_pair change operator right (take l vs) (take num vs) (reverse vs)))
  unfolding kdiff_points
  kdiff_points-pairs change zero l operator right vs a b c e = absurd (omega arith)
  kdiff_points-pairs change (suc num) l operator right vs a b c e =
      let (r, p, q) =
        kdiff_loop-pairs change operator right vs (suc num) l 0 (suc num) zero_float e b c
          (omega arith) in
      (
        r.0,
        ap (λ o. o >>= λ s. computed vs s.0 s.1)
              (kdiff_loop-fresh change operator right vs (pos (suc num)) (pos l) 0 num zero_float
                ∙ p)
            ∙ ap (computed vs r.0) q,
      )

  with_pairs :
      (change : F → F → F) (num l : ℕ) (operator : Str) (right : F) (items : List (JudgeItem F))
      → 0 < num
      → 0 < l
      → HasPoints (l + num) items
      → let vs = take (l + num) (series items) in
        (left : F) × (with_points
            (add64 (pos l) (pos num))
            items
            (unless_empty (kdiff_points change (pos num) (pos l) operator right))
          ≡ computed vs left
              (every_pair change operator right (take l vs) (take num vs) (reverse vs)))
  with_pairs change num l operator right items a b h =
      rw
        (
          add64-pos l num (omega (arith, h.small)),
          with_points-enough (l + num) items
              (unless_empty (kdiff_points change (pos num) (pos l) operator right)) h,
        )
        (nonempty
          (λ xs.
            (left : F) × (unless_empty (kdiff_points change (pos num) (pos l) operator right) xs
              ≡ computed xs left
                  (every_pair change operator right (take l xs) (take num xs) (reverse xs))))
          (l + num) items h
          λ v vs e.
            kdiff_points-pairs change num l operator right (v ∷ vs) a b (omega (arith, h.small))
              (omega arith))

  -- `KDiffFunction` with `limit + num` points triggers exactly when the newest `num` values are not
  -- zero and the difference of each of the newest `limit` values and each of the oldest `num` values
  -- triggers; `limit` and `num` are positive.
  pub compute-kdiff :
      (num l : ℕ) (operator : Str) (right : F) (items : List (JudgeItem F))
      → 0 < num
      → 0 < l
      → HasPoints (l + num) items
      → let vs = take (l + num) (series items) in
        (left : F) × (compute (kdiff_function (pos num) (pos l) operator right) items
          ≡ computed vs left
              (every_pair fl.sub operator right (take l vs) (take num vs) (reverse vs)))
  unfolding compute
  compute-kdiff num l operator right items a b h =
      with_pairs fl.sub num l operator right items a b h
