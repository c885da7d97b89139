-- ===== src/Judge/History.antt =====
-- modules/judge/store/history.go, modules/judge/rpc/receiver.go and modules/judge/cron/cleaner.go:
-- the lists of all counters, in 256 maps by the first two digits of the counter's hash. Each method
-- runs under the lock of its map, so it is one step; `none` is a panic.
pub mod Clean
pub mod Shards
pub mod Cleaned
pub mod Send
use open_falcon.Prelude.{
  ℕ, Bool, true, false, List, [], ◌∷◌, ◌++◌, Option, none, some, ◌>>=◌, if◌then◌else◌, eq_str, map,
  ◌*◌,
}
use open_falcon.Prelude.Int.{ℤ, pos, ltb_ℤ, sub64}
use open_falcon.Prelude.Text.{Str, str, slice}
use open_falcon.Prelude.Maps.{Map, lookup, insert, delete}
use open_falcon.Float.{Float}
use open_falcon.Model.{JudgeItem}
use open_falcon.Judge.LinkedList.{push_front_and_maintain}
use open_falcon.Judge.Events.{Alarms}
use open_falcon.Judge.Rules.{Rules, filter_exists}
use open_falcon.Judge.Check.{primary_key, judge}

-- `JudgeItemMap`; `Get`, `Set` and `Delete` are `lookup`, `insert` and `delete`.
abbrev pub JudgeItemMap : Type 0 → Type 0
JudgeItemMap F = Map Str (List (JudgeItem F))

abbrev pub HistoryBigMap : Type 0 → Type 0
HistoryBigMap F = Map Str (JudgeItemMap F)

-- `arr[i]+arr[j]` for all `i` and `j`, in the order of the two loops.
abbrev pub hex_digits : List Str
hex_digits = map (λ c. c ∷ []) (str "0123456789abcdef")

abbrev pub pairs_of : List Str → List Str → List Str
pairs_of [] arr = []
pairs_of (i ∷ is) arr = map (λ j. i ++ j) arr ++ pairs_of is arr

abbrev pub prefixes : List Str
prefixes = pairs_of hex_digits hex_digits

-- The same of cron/cleaner.go, which has an array of its own.
abbrev pub cleaner_digits : List Str
cleaner_digits = map (λ c. c ∷ []) (str "0123456789abcdef")

abbrev pub cleaner_prefixes : List Str
cleaner_prefixes = pairs_of cleaner_digits cleaner_digits

module _ {F : Type 0} where
  init_loop : List Str → HistoryBigMap F → HistoryBigMap F
  init_loop [] big = big
  init_loop (p ∷ ps) big = init_loop ps (insert p [] big)

  unfoldable pub init_history_big_map : HistoryBigMap F → HistoryBigMap F
  unfolding init_loop
  init_history_big_map big = init_loop prefixes big

  unfoldable pub batch_delete : List Str → JudgeItemMap F → JudgeItemMap F
  batch_delete [] m = m
  batch_delete (key ∷ keys) m = batch_delete keys (delete key m)

  -- The test on the front of a list.
  abbrev pub is_old : ℤ → List (JudgeItem F) → Bool
  is_old before [] = false
  is_old before (front ∷ rest) = ltb_ℤ front.timestamp before

  unfoldable pub stale_keys : ℤ → JudgeItemMap F → List Str
  stale_keys before [] = []
  stale_keys before ((key, items) ∷ m) =
      let rest = stale_keys before m in if is_old before items then key ∷ rest else rest

  unfoldable pub clean_stale : ℤ → JudgeItemMap F → JudgeItemMap F
  unfolding batch_delete stale_keys
  clean_stale before m = batch_delete (stale_keys before m) m

  clean_loop : List Str → ℤ → HistoryBigMap F → Option (HistoryBigMap F)
  unfolding clean_stale
  clean_loop [] before big = some big
  clean_loop (p ∷ ps) before big =
      lookup p big >>= λ m. clean_loop ps before (insert p (clean_stale before m) big)

  -- `cleanStale` of the package `cron`: a week.
  unfoldable pub clean_all : ℤ → HistoryBigMap F → Option (HistoryBigMap F)
  unfolding clean_loop
  clean_all now big = clean_loop cleaner_prefixes (sub64 now (pos (3600 * 24 * 7))) big

module _ {F : Type 0} ⦃fl : Float F⦄ (md5 : Str → Str) (min_interval now : ℤ)
    (rules : Rules F) where
  -- `JudgeItemMap.PushFrontAndMaintain`.
  unfoldable pub push_and_judge :
      Str → JudgeItem F → ℤ → JudgeItemMap F → Alarms F → Option (JudgeItemMap F × Alarms F)
  push_and_judge key val max_count m st = elim (lookup key m) [
    | some items ↦ push_front_and_maintain val max_count items >>= λ r.
        (if r.1 then judge md5 min_interval now rules r.0 val st else some st) >>= λ st'.
        some (insert key r.0 m, st')
    | none ↦ judge md5 min_interval now rules (val ∷ []) val st >>= λ st'.
        some (insert key (val ∷ []) m, st')
  ]

  unfoldable pub send_item :
      JudgeItem F → ℤ → HistoryBigMap F → Alarms F → Option (HistoryBigMap F × Alarms F)
  unfolding push_and_judge
  send_item item remain big st =
      if filter_exists rules item.metric
      then (let pk = primary_key md5 min_interval now item in
          slice pk (pos 0) (pos 2) >>= λ p. lookup p big >>= λ m.
          push_and_judge pk item remain m st >>= λ r. some (insert p r.0 big, r.1))
      else some (big, st)

  -- The handler `Judge.Send`. A nil pointer among the items, `none`, is a panic.
  unfoldable pub send :
      List (Option (JudgeItem F))
      → ℤ
      → HistoryBigMap F
      → Alarms F
      → Option (HistoryBigMap F × Alarms F)
  unfolding send_item
  send [] remain big st = some (big, st)
  send (none ∷ items) remain big st = none
  send (some item ∷ items) remain big st =
      send_item item remain big st >>= λ r. send items remain r.0 r.1
