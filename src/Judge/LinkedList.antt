-- ===== src/Judge/LinkedList.antt =====
-- modules/judge/store/linkedlist.go: the recent items of one counter, newest first. The list stands
-- for `L`, front first; each method runs under the lock of its list, so it is one step.
pub mod Series
pub mod Retention
use open_falcon.Prelude.{
  ℕ, zero, suc, ◌+◌, ◌-◌, Bool, true, false, not, ◌||◌, List, [], ◌∷◌, Option, none, some, ◌>>=◌,
  length, get_elem?, if◌then◌else◌, nat_eq,
}
use open_falcon.Prelude.Int.{ℤ, pos, pos_part, ltb_ℤ, leb_ℤ, add64, sub64}
use open_falcon.Float.{Float}
use open_falcon.Model.{JudgeItem, HistoryData}

-- `L.Remove(L.Back())`, which panics on an empty list.
unfoldable pub remove_back {ℓ} : {A : Type ℓ} → List A → Option (List A)
remove_back [] = none
remove_back (x ∷ []) = some []
remove_back (x ∷ y ∷ rest) = remove_back (y ∷ rest) >>= λ kept. some (x ∷ kept)

unfoldable pub remove_backs {ℓ} : {A : Type ℓ} → ℕ → List A → Option (List A)
unfolding remove_back
remove_backs zero items = some items
remove_backs (suc del) items = remove_back items >>= λ kept. remove_backs del kept

-- The first byte of the type of the newest item decides: `G` or `g` is a gauge.
abbrev pub is_gauge : ℕ → Bool
is_gauge judge_type = nat_eq judge_type b'G' || nat_eq judge_type b'g'

module _ {F : Type 0} where
  abbrev pub is_stale : JudgeItem F → List (JudgeItem F) → Bool
  is_stale v [] = false
  is_stale v (front ∷ rest) = leb_ℤ v.timestamp front.timestamp || leb_ℤ v.timestamp (pos 0)

  -- The list after the call, and whether the item was taken. `maxCount` may be negative.
  pub push_front_and_maintain :
      JudgeItem F → ℤ → List (JudgeItem F) → Option (List (JudgeItem F) × Bool)
  unfolding remove_backs
  push_front_and_maintain v max_count items =
      if is_stale v items
      then some (items, false)
      else let sz = suc (length items) in
        if leb_ℤ (pos sz) max_count
        then some (v ∷ items, true)
        else (remove_backs (pos_part (sub64 (pos sz) max_count)) (v ∷ items) >>= λ kept.
            some (kept, true))

  abbrev pub point : JudgeItem F → HistoryData F
  point item = record { timestamp = item.timestamp; value = item.value }

  -- `none` is the nil element behind the last one.
  points : ℕ → List (JudgeItem F) → Option (List (HistoryData F))
  points zero items = some []
  points (suc k) [] = none
  points (suc k) (next ∷ rest) = points k rest >>= λ vs. some (point next ∷ vs)

module _ {F : Type 0} ⦃fl : Float F⦄ where
  abbrev pub rate : JudgeItem F → JudgeItem F → HistoryData F
  rate current next = record {
    timestamp = current.timestamp;
    value =
        fl.div (fl.sub current.value next.value)
          (fl.of_int (sub64 current.timestamp next.timestamp));
  }

  rates : ℕ → JudgeItem F → List (JudgeItem F) → Option (List (HistoryData F))
  rates zero current rest = some []
  rates (suc k) current [] = none
  rates (suc k) current (next ∷ rest) = rates k next rest >>= λ vs. some (rate current next ∷ vs)

  gauge_data : ℤ → JudgeItem F → List (JudgeItem F) → Option (List (HistoryData F) × Bool)
  unfolding points
  gauge_data limit first rest =
      let size = pos (suc (length rest)) in
      let short = ltb_ℤ size limit in
      let limit' = if short then size else limit in
      points (pos_part limit' - 1) rest >>= λ vs. some (point first ∷ vs, not short)

  counter_data : ℤ → JudgeItem F → List (JudgeItem F) → Option (List (HistoryData F) × Bool)
  unfolding rates
  counter_data limit first rest =
      let size = pos (suc (length rest)) in
      let short = ltb_ℤ size (add64 limit (pos 1)) in
      let limit' = if short then sub64 size (pos 1) else limit in
      rates (pos_part limit') first rest >>= λ vs. some (vs, not short)

  -- The newest `limit` points, and whether there were as many.
  unfoldable pub history_data : ℤ → List (JudgeItem F) → Option (List (HistoryData F) × Bool)
  unfolding gauge_data counter_data
  history_data limit [] = some ([], false)
  history_data limit (first ∷ rest) =
      if ltb_ℤ limit (pos 1)
      then some ([], false)
      else (get_elem? first.judge_type 0 >>= λ judge_type.
          if is_gauge judge_type
          then gauge_data limit first rest
          else counter_data limit first rest)
