-- ===== src/Judge/Func/Compute/Pairs.antt =====
-- The nested loops of `KDiffFunction` and `KPDiffFunction`.
use mathlib.Core.List.{reverse}
use open_falcon.Prelude.{
  ℕ, zero, suc, ◌+◌, ◌-◌, ◌^◌, ◌≤◌, ◌<◌, ◌≡◌, refl, Bool, true, false, not, ◌&&◌, List, [], ◌∷◌,
  some, arith, length, take, drop, ◌∙◌, Option, get_elem?, every, get_elem?_in_range,
  get_elem?-reverse, drop-cons, Bool-cases, inl, inr,
}
use open_falcon.Prelude.Int.{pos, add64, sub64, add64-pos, sub64-pos}
use open_falcon.Prelude.Text.{Str}
use open_falcon.Float.{Float}
use open_falcon.Model.{HistoryData}
use open_falcon.Judge.Func.{check_is_triggered}
use open_falcon.Judge.Func.Statistics.{zero_float}
use open_falcon.Judge.Func.Compute.{pair_round, pair_loop, kdiff_loop}
use open_falcon.Judge.Func.Compute.Loops.{run, loop-run, run-pair_round}

module _ {F : Type 0} ⦃fl : Float F⦄ (change : F → F → F) (operator : Str) (right : F) where
  -- Every one of `vs` differs enough from `old`.
  abbrev pub all_against : List (HistoryData F) → HistoryData F → Bool
  all_against vs old = every (λ v. check_is_triggered (change v.value old.value) operator right) vs

  -- Newest points against oldest points: a newest point must not be zero, and each of `recent`
  -- must differ enough from the oldest one.
  abbrev pub every_pair : List (HistoryData F) → List (HistoryData F) → List (HistoryData F) → Bool
  every_pair recent [] olds = true
  every_pair recent (v ∷ vs) [] = true
  every_pair recent (v ∷ vs) (old ∷ olds) =
      not (fl.eq v.value zero_float) && (all_against recent old && every_pair recent vs olds)

  pair_loop-against :
      (vs : List (HistoryData F)) (base l : ℕ) (old : HistoryData F) (left : F)
      → get_elem? vs base ≡ some old
      → 0 < l
      → l ≤ length vs
      → (r : F × Bool) × (pair_loop change operator right vs (pos base) l (left, false) ≡ some r)
        × (r.1 ≡ all_against (take l vs) old)
  unfolding pair_loop
  pair_loop-against vs base zero old left e h k = absurd (omega arith)
  pair_loop-against [] base (suc l) old left e h k = absurd (omega arith)
  pair_loop-against (v ∷ vs) base (suc l) old left e h k = (
    run (pair_round change operator right old) (take (suc l) (v ∷ vs)) (left, false),
    rw e (loop-run _ 0 (suc l) (v ∷ vs) (left, false) (omega arith)),
    run-pair_round change operator right old left false (v ∷ take l vs) (λ q. cc),
  )

  -- What the outer loop does with the result of the inner one.
  abbrev go_on : F × Bool → (F × Bool → Option (F × Bool)) → Option (F × Bool)
  go_on s rest = elim s.1 [ true ↦ rest s | false ↦ some s ]

  abbrev pub Ends : Option (F × Bool) → Bool → Type 0
  Ends o b = (r : F × Bool) × (o ≡ some r) × (r.1 ≡ b)

  go_on-Ends :
      (s : F × Bool) (rest : F × Bool → Option (F × Bool)) (a b : Bool)
      → s.1 ≡ a
      → ((left : F) → Ends (rest (left, true)) b)
      → Ends (go_on s rest) (a && b)
  go_on-Ends (left, true) rest a b e h = rw (← e) (h left)
  go_on-Ends (left, false) rest a b e h = rw (← e) ((left, false), refl, refl)

  pub kdiff_loop-pairs :
      (vs : List (HistoryData F)) (num l i k : ℕ) (left : F)
      → length vs ≡ l + num
      → 0 < l
      → l + num < 2 ^ 63
      → i + k ≡ num
      → Ends
          (kdiff_loop change operator right vs (pos num) (pos l) i k (left, true))
          (every_pair (take l vs) (take k (drop i vs)) (drop i (reverse vs)))
  unfolding kdiff_loop
  kdiff_loop-pairs vs num l i zero left e h b c = ((left, true), refl, refl)
  kdiff_loop-pairs vs num l i (suc k) left e h b c =
      let (v, at_i) = get_elem?_in_range vs i (omega arith) in
      let (old, at_old) = get_elem?_in_range vs (l + num - 1 - i) (omega arith) in
      let mirrored : get_elem? (reverse vs) i ≡ some old =
        get_elem?-reverse vs i (l + num - 1 - i) (omega arith) ∙ at_old in
      let base : sub64 (sub64 (add64 (pos l) (pos num)) (pos 1)) (pos i) ≡ pos (l + num - 1 - i) =
        rw (add64-pos l num b, sub64-pos (l + num) 1 (omega arith) b)
          (sub64-pos (l + num - 1) i (omega arith) (omega arith)) in
      rw (at_i, base, drop-cons vs i v at_i, drop-cons (reverse vs) i old mirrored)
        (elim (Bool-cases (fl.eq v.value zero_float)) [
          | inl z ↦ rw z ((left, false), refl, refl)
          | inr nz ↦
              let (s, p, q) =
                pair_loop-against vs (l + num - 1 - i) l old left at_old h (omega arith) in
              rw (nz, p)
                (go_on-Ends s (kdiff_loop change operator right vs (pos num) (pos l) (i + 1) k)
                  (all_against (take l vs) old)
                  (every_pair (take l vs) (take k (drop (suc i) vs)) (drop (suc i) (reverse vs))) q
                  λ left'.
                    let e1 : suc i ≡ i + 1 = omega arith in
                    rw e1 (kdiff_loop-pairs vs num l (i + 1) k left' e h b (omega arith)))
        ])
