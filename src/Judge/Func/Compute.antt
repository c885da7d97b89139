-- ===== src/Judge/Func/Compute.antt =====
-- modules/judge/store/func.go: the methods `Compute`. `none` is a panic: an index out of range.
pub mod Loops
pub mod Pairs
pub mod Extremes
pub mod Points
pub mod Total
pub mod Correct
pub mod Sums
pub mod KDiff
use open_falcon.Prelude.{
  ℕ, zero, suc, ◌+◌, ◌-◌, Bool, true, false, ◌||◌, List, [], ◌∷◌, Option, none, some, map,
  get_elem?, if◌then◌else◌, ◌>>=◌,
}
use open_falcon.Prelude.Int.{ℤ, pos, negsuc, pos_part, add64, sub64, int_eq}
use open_falcon.Prelude.Text.{Str}
use open_falcon.Float.{Float}
use open_falcon.Model.{JudgeItem, HistoryData}
use open_falcon.Judge.LinkedList.{history_data}
use open_falcon.Judge.Func.{
  Function, Computed, check_is_triggered, max_function, min_function, all_function, lookup_function,
  sum_function, avg_function, diff_function, std_deviation_function, pdiff_function,
  kpdiff_function, kdiff_function,
}
use open_falcon.Judge.Func.Statistics.{zero_float, compute_mean, compute_std_deviation}

-- What one round of a loop does: go on with a new state, or leave the loop with one.
pub data Round (S : Type 0) : Type 0 where
  next : S → Round S
  leave : S → Round S

abbrev pub proceed : {S : Type 0} → Round S → (S → Option S) → Option S
proceed (next s) rest = rest s
proceed (leave s) rest = some s

-- `for ; ...; i++ { ... vs[i] ... }` for `k` rounds.
pub loop : {A S : Type 0} → (A → S → Round S) → List A → ℕ → ℕ → S → Option S
loop body vs i zero s = some s
loop body vs i (suc k) s =
    get_elem? vs i >>= λ v. proceed (body v s) (λ s'. loop body vs (i + 1) k s')

-- `vs[i]` at an int.
abbrev pub index : {A : Type 0} → List A → ℤ → Option A
index vs (pos i) = get_elem? vs i
index vs (negsuc i) = none

-- `for i := 1; i < limit; i++`.
abbrev pub rounds_from_one : ℤ → ℕ
rounds_from_one limit = pos_part limit - 1

module _ {F : Type 0} ⦃fl : Float F⦄ where
  abbrev pub max_round : HistoryData F → F → Round F
  max_round v max = next (if fl.lt max v.value then v.value else max)

  abbrev pub min_round : HistoryData F → F → Round F
  min_round v min = next (if fl.lt v.value min then v.value else min)

  abbrev pub sum_round : HistoryData F → F → Round F
  sum_round v sum = next (fl.add sum v.value)

  abbrev pub all_round : Str → F → HistoryData F → Bool → Round Bool
  all_round operator right v triggered =
      let t = check_is_triggered v.value operator right in if t then next t else leave t

  -- The state is `n` and `isTriggered`.
  abbrev pub lookup_round : ℤ → Str → F → HistoryData F → ℤ × Bool → Round (ℤ × Bool)
  lookup_round num operator right v (n, triggered) =
      if check_is_triggered v.value operator right
      then (let n' = add64 n (pos 1) in
          if int_eq n' num then leave (n', true) else next (n', triggered))
      else next (n, triggered)

  -- The state is `leftValue` and `isTriggered`.
  abbrev pub diff_round : F → Str → F → HistoryData F → F × Bool → Round (F × Bool)
  diff_round first operator right v s =
      let left = fl.sub first v.value in
      let t = check_is_triggered left operator right in
      if t then leave (left, t) else next (left, t)

  abbrev pub percent : F → F → F
  percent change base = fl.mul (fl.div change base) (fl.of_int (pos 100))

  abbrev pub pdiff_round : F → Str → F → HistoryData F → F × Bool → Round (F × Bool)
  pdiff_round first operator right v s =
      if fl.eq v.value zero_float
      then next s
      else (let left = percent (fl.sub first v.value) v.value in
          let t = check_is_triggered left operator right in
          if t then leave (left, t) else next (left, t))

  -- The inner loop of `KDiffFunction` and `KPDiffFunction`: `vs[j]` against the point at `base`.
  -- `change new old` is the difference, or the percentage.
  abbrev pub pair_round :
      (F → F → F) → Str → F → HistoryData F → HistoryData F → F × Bool → Round (F × Bool)
  pair_round change operator right old v s =
      let left = change v.value old.value in
      let t = check_is_triggered left operator right in
      if t then next (left, t) else leave (left, t)

  pair_loop : (F → F → F) → Str → F → List (HistoryData F) → ℤ → ℕ → F × Bool → Option (F × Bool)
  pair_loop change operator right vs base zero s = some s
  pair_loop change operator right vs base (suc k) s =
      index vs base >>= λ old. loop (pair_round change operator right old) vs 0 (suc k) s

  -- The outer loop at `i`, for `k` more rounds.
  pub kdiff_loop :
      (F → F → F) → Str → F → List (HistoryData F) → ℤ → ℤ → ℕ → ℕ → F × Bool → Option (F × Bool)
  unfolding pair_loop
  kdiff_loop change operator right vs num limit i zero s = some s
  kdiff_loop change operator right vs num limit i (suc k) (left, triggered) =
      get_elem? vs i >>= λ v.
      if fl.eq v.value zero_float
      then some (left, false)
      else (pair_loop change operator right vs (sub64 (sub64 (add64 limit num) (pos 1)) (pos i))
            (pos_part limit) (left, false)
          >>= λ s. elim s.1 [
            | true ↦ kdiff_loop change operator right vs num limit (i + 1) k s
            | false ↦ some s
          ])

  abbrev pub computed : List (HistoryData F) → F → Bool → Option (Computed F)
  computed vs left triggered =
      some (record { vs = vs; left_value = left; is_triggered = triggered; is_enough = true })

  abbrev pub not_enough : List (HistoryData F) → Option (Computed F)
  not_enough vs =
      some (record { vs = vs; left_value = zero_float; is_triggered = false; is_enough = false })

  -- The beginning that the methods share.
  abbrev pub with_points :
      ℤ → List (JudgeItem F) → (List (HistoryData F) → Option (Computed F)) → Option (Computed F)
  with_points limit items rest =
      history_data limit items >>= λ r. if r.1 then rest r.0 else not_enough r.0

  -- `if len(vs) == 0 { isEnough = false; return }`.
  abbrev pub unless_empty :
      (List (HistoryData F) → Option (Computed F)) → List (HistoryData F) → Option (Computed F)
  unless_empty rest [] = not_enough []
  unless_empty rest (v ∷ vs) = rest (v ∷ vs)

  pub extreme :
      (HistoryData F → F → Round F) → ℤ → Str → F → List (HistoryData F) → Option (Computed F)
  unfolding loop
  extreme round limit operator right vs = get_elem? vs 0 >>= λ first.
      loop round vs 1 (rounds_from_one limit) first.value >>= λ left.
      computed vs left (check_is_triggered left operator right)

  all_points : ℤ → Str → F → List (HistoryData F) → Option (Computed F)
  unfolding loop
  all_points limit operator right vs =
      loop (all_round operator right) vs 0 (pos_part limit) true >>= λ triggered.
      get_elem? vs 0 >>= λ first. computed vs first.value triggered

  lookup_points : ℤ → ℤ → Str → F → List (HistoryData F) → Option (Computed F)
  unfolding loop
  lookup_points num limit operator right vs = get_elem? vs 0 >>= λ first.
      loop (lookup_round num operator right) vs 0 (pos_part limit) (pos 0, false) >>= λ s.
      computed vs first.value s.1

  sum_points : ℤ → Str → F → List (HistoryData F) → Option (Computed F)
  unfolding loop
  sum_points limit operator right vs = loop sum_round vs 0 (pos_part limit) zero_float >>= λ sum.
      computed vs sum (check_is_triggered sum operator right)

  avg_points : ℤ → Str → F → List (HistoryData F) → Option (Computed F)
  unfolding loop
  avg_points limit operator right vs = loop sum_round vs 0 (pos_part limit) zero_float >>= λ sum.
      let left = fl.div sum (fl.of_int limit) in
      computed vs left (check_is_triggered left operator right)

  -- `DiffFunction` and `PDiffFunction`, whose loops run over `vs[1]` to `vs[limit]`.
  pub change_points :
      (F → HistoryData F → F × Bool → Round (F × Bool))
      → ℤ
      → List (HistoryData F)
      → Option (Computed F)
  unfolding loop
  change_points round limit vs = get_elem? vs 0 >>= λ first.
      loop (round first.value) vs 1 (rounds_from_one (add64 limit (pos 1))) (zero_float, false)
      >>= λ s. computed vs s.0 s.1

  std_deviation_points : F → List (HistoryData F) → Option (Computed F)
  std_deviation_points right vs = get_elem? vs 0 >>= λ first.
      let left = first.value in
      let datas = map (λ (v : HistoryData F). v.value) vs in
      let std = compute_std_deviation datas in
      let mean = compute_mean datas in
      let upper_bound = fl.add mean (fl.mul right std) in
      let lower_bound = fl.sub mean (fl.mul right std) in
      computed vs left (fl.lt left lower_bound || fl.lt upper_bound left)

  pub kdiff_points : (F → F → F) → ℤ → ℤ → Str → F → List (HistoryData F) → Option (Computed F)
  unfolding kdiff_loop
  kdiff_points change num limit operator right vs =
      kdiff_loop change operator right vs num limit 0 (pos_part num) (zero_float, false) >>= λ s.
      computed vs s.0 s.1

  abbrev pub kpdiff_change : F → F → F
  kpdiff_change new old = percent (fl.sub new old) new

  pub compute : Function F → List (JudgeItem F) → Option (Computed F)
  unfolding extreme all_points lookup_points sum_points avg_points change_points
      std_deviation_points kdiff_points
  compute (max_function limit operator right) items =
      with_points limit items (extreme max_round limit operator right)
  compute (min_function limit operator right) items =
      with_points limit items (extreme min_round limit operator right)
  compute (all_function limit operator right) items =
      with_points limit items (all_points limit operator right)
  compute (lookup_function num limit operator right) items =
      with_points limit items (lookup_points num limit operator right)
  compute (sum_function limit operator right) items =
      with_points limit items (sum_points limit operator right)
  compute (avg_function limit operator right) items =
      with_points limit items (avg_points limit operator right)
  compute (diff_function limit operator right) items =
      with_points (add64 limit (pos 1)) items
        (unless_empty (change_points (λ first. diff_round first operator right) limit))
  compute (std_deviation_function limit operator right) items =
      with_points limit items (unless_empty (std_deviation_points right))
  compute (pdiff_function limit operator right) items =
      with_points (add64 limit (pos 1)) items
        (unless_empty (change_points (λ first. pdiff_round first operator right) limit))
  compute (kpdiff_function num limit operator right) items =
      with_points (add64 limit num) items
        (unless_empty (kdiff_points kpdiff_change num limit operator right))
  compute (kdiff_function num limit operator right) items =
      with_points (add64 limit num) items
        (unless_empty (kdiff_points fl.sub num limit operator right))
