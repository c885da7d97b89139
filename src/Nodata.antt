-- ===== src/Nodata.antt =====
-- modules/nodata/judge/{status,judge_cron}.go: counters whose data stays away. The cache
-- `nmap.SafeMap` of a package is an interface, with the law that the code relies on; the lists of
-- the configuration and of the collected items are arguments. `none` is a panic.
pub mod Verdict
pub mod Pace
pub mod Timestamps
pub mod Collector
use open_falcon.Prelude.{
  ℕ, suc, ◌≡◌, ◌*◌, ◌+◌, ◌%◌, Bool, true, false, ◌&&◌, ◌||◌, not, List, [], ◌∷◌, Option, none, some,
  ◌>>=◌, if◌then◌else◌, nat_eq, ◌==◌, eq_str,
}
use open_falcon.Prelude.Int.{
  mul64, ℤ, pos, negsuc, neg_part, pos_part, sub_ℕ, ltb_ℤ, leb_ℤ, int_eq, add64, sub64, wrap64,
}
use open_falcon.Prelude.Text.{Str}
use open_falcon.Prelude.Maps.{Map}
use open_falcon.Float.{Float}
use open_falcon.Container.{SafeMap}
use open_falcon.Model.Tags.{sorted_tags}
use open_falcon.Judge.Func.Statistics.{zero_float}

-- The strings `OK` and `NODATA` of a status, and any other of a fetch.
pub data State : Type 0 where
  okay nodata failed : State

abbrev pub is_okay : State → Bool
is_okay okay = true
is_okay nodata = false
is_okay failed = false

pub record NodataStatus : Type 0 where
  pub key : Str
  pub status : State
  pub cnt : ℤ
  pub ts : ℤ

pub record NodataConfig (F : Type 0) : Type 0 where
  pub id : ℤ
  pub name : Str
  pub obj_type : Str
  pub endpoint : Str
  pub metric : Str
  pub tags : Map Str Str
  pub type : Str
  pub step : ℤ
  pub mock : F

-- `DataItem` of the collector.
pub record DataItem (F : Type 0) : Type 0 where
  pub ts : ℤ
  pub value : F
  pub f_status : State
  pub f_ts : ℤ

-- The item that `AddMock` hands to the sender, under its key.
pub record Mock (F : Type 0) : Type 0 where
  pub key : Str
  pub metric : Str
  pub endpoint : Str
  pub timestamp : ℤ
  pub step : ℤ
  pub value : F
  pub counter_type : Str
  pub tags : Str

module _ {M : Type 0} (sm : SafeMap NodataStatus M) where
  unfoldable pub last_ts : Str → M → ℤ
  last_ts key m = elim (sm.get key m) [ some ns ↦ ns.ts | none ↦ pos 0 ]

  -- The status is changed in place where there is one.
  unfoldable pub turn_ok : Str → ℤ → M → M
  turn_ok key ts m = elim (sm.get key m) [
    | none ↦ sm.put key (record { key = key; status = okay; cnt = pos 0; ts = ts }) m
    | some ns ↦ sm.put key (record ns { status = okay; cnt = pos 0; ts = ts }) m
  ]

  unfoldable pub turn_nodata : Str → ℤ → M → M
  turn_nodata key ts m = elim (sm.get key m) [
    | none ↦ sm.put key (record { key = key; status = nodata; cnt = pos 1; ts = ts }) m
    | some ns ↦ sm.put key (record ns { status = nodata; cnt = add64 ns.cnt (pos 1); ts = ts }) m
  ]

-- `a % b` of Go for a positive `b`: with the sign of `a`.
abbrev pub rem : ℤ → ℤ → ℤ
rem (pos n) b = pos (n % pos_part b)
rem (negsuc n) b = sub_ℕ 0 (suc n % pos_part b)

unfoldable pub gen_ts : ℤ → ℤ → ℤ
gen_ts now_ts step =
    let step' = if ltb_ℤ step (pos 1) then pos 60 else step in
    sub64 (sub64 now_ts (rem now_ts step')) (mul64 2 step')

unfoldable pub get_timeout : ℤ → ℤ
get_timeout step = if ltb_ℤ step (pos 60) then pos 180 else mul64 3 step

module _ {F : Type 0} ⦃fl : Float F⦄ where
  unfoldable pub f_compare : F → F → ℤ
  f_compare left right =
      let sub = fl.sub left right in
      if fl.lt (fl.sub zero_float fl.tiny) sub && fl.lt sub fl.tiny
      then pos 0
      else if fl.le fl.tiny sub
      then pos 1
      else negsuc 0

  unfoldable pub gen_mock : ℤ → Str → NodataConfig F → Mock F
  gen_mock ts key ndcfg = record {
    key = key;
    metric = ndcfg.metric;
    endpoint = ndcfg.endpoint;
    timestamp = ts;
    step = ndcfg.step;
    value = ndcfg.mock;
    counter_type = ndcfg.type;
    tags = sorted_tags ndcfg.tags;
  }

module _ {F M : Type 0} ⦃fl : Float F⦄ (sm : SafeMap NodataStatus M)
    (get_nd_config : Str → Option (NodataConfig F)) (get_first_item : Str → Option (DataItem F))
    (now : ℤ) where
  -- The data stayed away: no more than one mock in a step.
  unfoldable pub time_out : Str → NodataConfig F → M × List (Mock F) → M × List (Mock F)
  unfolding last_ts turn_nodata gen_ts gen_mock
  time_out key ndcfg (m, mocks) =
      if leb_ℤ (add64 (last_ts sm key m) ndcfg.step) now
      then (turn_nodata sm key now m, gen_mock (gen_ts now ndcfg.step) key ndcfg ∷ mocks)
      else (m, mocks)

  -- One round of the loop. The mocks are a log, the latest first.
  unfoldable pub judge_key : Str → M × List (Mock F) → M × List (Mock F)
  unfolding time_out get_timeout f_compare turn_ok
  judge_key key (m, mocks) = elim (get_nd_config key) [
    | none ↦ (m, mocks)
    | some ndcfg ↦ elim (get_first_item key) [
      | none ↦ (m, mocks)
      | some item ↦
          let oldest = sub64 now (get_timeout ndcfg.step) in
          if not (is_okay item.f_status) || ltb_ℤ item.f_ts oldest
          then (m, mocks)
          else if int_eq (f_compare ndcfg.mock item.value) (pos 0)
          then time_out key ndcfg (m, mocks)
          else if ltb_ℤ item.ts oldest
          then time_out key ndcfg (m, mocks)
          else (turn_ok sm key now m, mocks)
    ]
  ]

  unfoldable pub judge : List Str → M × List (Mock F) → M × List (Mock F)
  unfolding judge_key
  judge [] st = st
  judge (key ∷ keys) st = judge keys (judge_key key st)
