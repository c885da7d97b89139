-- ===== src/Judge/Func/Compute/Loops.antt =====
-- The loops of `Compute` over a range of indices, against recursions over that part of the slice.
use open_falcon.Prelude.{
  ℕ, zero, suc, ◌+◌, ◌^◌, ◌≤◌, ◌<◌, ◌≡◌, refl, ap, Bool, true, false, not, ◌&&◌, List, [], ◌∷◌,
  some, arith, length, take, drop, ◌∙◌, Option, fun_ext, get_elem?, leb, ◌>>=◌, every, exists,
  count, ◌≢◌,
}
use open_falcon.Prelude.Int.{pos, add64-pos}
use open_falcon.Prelude.Text.{Str}
use open_falcon.Float.{Float}
use open_falcon.Model.{HistoryData}
use open_falcon.Judge.Func.{check_is_triggered}
use open_falcon.Judge.Func.Statistics.{zero_float}
use open_falcon.Judge.Func.Compute.{
  Round, next, leave, proceed, loop, all_round, lookup_round, diff_round, pdiff_round, percent,
  pair_round,
}

module _ {A S : Type 0} (body : A → S → Round S) where
  abbrev pub run : List A → S → S
  run [] s = s
  run (x ∷ xs) s = elim (body x s) [ next s' ↦ run xs s' | leave s' ↦ s' ]

  proceed-run :
      (r : Round S) (f : S → Option S) (xs : List A)
      → ((s : S) → f s ≡ some (run xs s))
      → proceed r f ≡ some (elim r [ next s' ↦ run xs s' | leave s' ↦ s' ])
  proceed-run (next s) f xs h = h s
  proceed-run (leave s) f xs h = refl

  loop-shift :
      (k i : ℕ) (x : A) (vs : List A) (s : S) → loop body (x ∷ vs) (suc i) k s ≡ loop body vs i k s
  unfolding loop
  loop-shift zero i x vs s = refl
  loop-shift (suc k) i x vs s =
      ap (λ f. get_elem? vs i >>= λ v. proceed (body v s) f)
        (fun_ext λ s'.
          let e : suc i + 1 ≡ suc (i + 1) = omega arith in rw e (loop-shift k (i + 1) x vs s'))

  loop-run-zero :
      (k : ℕ) (vs : List A) (s : S) → k ≤ length vs → loop body vs 0 k s ≡ some (run (take k vs) s)
  unfolding loop
  loop-run-zero zero vs s h = refl
  loop-run-zero (suc k) [] s h = absurd (omega arith)
  loop-run-zero (suc k) (v ∷ vs) s h =
      proceed-run (body v s) _ (take k vs)
        (λ s'. loop-shift k 0 v vs s' ∙ loop-run-zero k vs s' (omega arith))

  -- A loop from index `i` runs over the `k` items behind the first `i`.
  pub loop-run :
      (i k : ℕ) (vs : List A) (s : S)
      → i + k ≤ length vs
      → loop body vs i k s ≡ some (run (take k (drop i vs)) s)
  loop-run zero k vs s h = loop-run-zero k vs s (omega arith)
  loop-run (suc i) k [] s h = absurd (omega arith)
  loop-run (suc i) k (v ∷ vs) s h = loop-shift k i v vs s ∙ loop-run i k vs s (omega arith)

module _ {F : Type 0} ⦃fl : Float F⦄ where
  abbrev pub checked : Str → F → HistoryData F → Bool
  checked operator right v = check_is_triggered v.value operator right

  pub run-all_round :
      (operator : Str) (right : F) (vs : List (HistoryData F))
      → run (all_round operator right) vs true ≡ every (checked operator right) vs
  run-all_round operator right [] = refl
  run-all_round operator right (v ∷ vs) = ground (arith, run-all_round operator right vs)

  -- The loop has met `c` points and wants `num` of them.
  pub run-lookup_round :
      (num c : ℕ) (operator : Str) (right : F) (vs : List (HistoryData F))
      → num < 2 ^ 63
      → c < num
      → (run (lookup_round (pos num) operator right) vs (pos c, false)).1
        ≡ leb num (c + count (checked operator right) vs)
  run-lookup_round num c operator right [] h k = ground arith
  run-lookup_round num c operator right (v ∷ vs) h k = ground (
    arith,
    add64-pos c 1,
    run-lookup_round num c operator right vs,
    run-lookup_round num (c + 1) operator right vs,
  )

  pub run-diff_round :
      (first left : F) (operator : Str) (right : F) (vs : List (HistoryData F))
      → (run (diff_round first operator right) vs (left, false)).1
        ≡ exists (λ v. check_is_triggered (fl.sub first v.value) operator right) vs
  run-diff_round first left operator right [] = refl
  run-diff_round first left operator right (v ∷ vs) =
      ground (arith, run-diff_round first (fl.sub first v.value) operator right vs)

  pub run-pdiff_round :
      (first left : F) (operator : Str) (right : F) (vs : List (HistoryData F))
      → (run (pdiff_round first operator right) vs (left, false)).1
        ≡ exists
            (λ v.
              not (fl.eq v.value zero_float)
              && check_is_triggered (percent (fl.sub first v.value) v.value) operator right)
            vs
  run-pdiff_round first left operator right [] = refl
  run-pdiff_round first left operator right (v ∷ vs) = ground (
    arith,
    run-pdiff_round first left operator right vs,
    run-pdiff_round first (percent (fl.sub first v.value) v.value) operator right vs,
  )

  pub run-pair_round :
      (change : F → F → F) (operator : Str) (right : F) (old : HistoryData F) (left : F) (t : Bool)
      (vs : List (HistoryData F))
      → vs ≢ []
      → (run (pair_round change operator right old) vs (left, t)).1
        ≡ every (λ v. check_is_triggered (change v.value old.value) operator right) vs
  run-pair_round change operator right old left t [] h = absurd (h refl)
  run-pair_round change operator right old left t (v ∷ []) h = ground arith
  run-pair_round change operator right old left t (v ∷ w ∷ vs) h =
      ground
        (arith, run-pair_round change operator right old (change v.value old.value) true (w ∷ vs))
