-- ===== src/Graph/History.antt =====
-- modules/graph/store/history.go: the last points of each counter, the newest in front. The map
-- `HistoryCache` and its lists come from a package. A list is changed in place, and so is put back.
pub mod Latest
use open_falcon.Prelude.{ℕ, Bool, true, List, [], Option, none, some, if◌then◌else◌}
use open_falcon.Prelude.Int.{ℤ, pos, ltb_ℤ}
use open_falcon.Prelude.Text.{Str}
use open_falcon.Float.{Float}
use open_falcon.Container.{SafeMap, SafeListLimited, front}
use open_falcon.Judge.Func.Statistics.{zero_float}
use open_falcon.Graph.{GraphItem}

abbrev pub default_history_size : ℕ
default_history_size = 3

-- `&cmodel.GraphItem{}`.
abbrev pub no_item : {F : Type 0} ⦃fl : Float F⦄ → GraphItem F
no_item = record {
  endpoint = [];
  metric = [];
  tags = [];
  value = zero_float;
  timestamp = pos 0;
  ds_type = [];
  step = pos 0;
  heartbeat = pos 0;
  min = [];
  max = [];
}

-- Whether `first` is nil, or its time is before `ts`.
abbrev pub is_newer : {F : Type 0} → ℤ → Option (GraphItem F) → Bool
is_newer ts none = true
is_newer ts (some first) = ltb_ℤ first.timestamp ts

abbrev pub item_or : {F : Type 0} ⦃fl : Float F⦄ → Option (GraphItem F) → GraphItem F
item_or none = no_item
item_or (some first) = first

module _ {F L : Type 0} (sl : SafeListLimited (GraphItem F) L) where
  -- What a pointer to a list gives, nil or not.
  abbrev pub front_of : Option L → Option (GraphItem F)
  front_of none = none
  front_of (some l) = front sl l

  abbrev pub all_of : Option L → List (GraphItem F)
  all_of none = []
  all_of (some l) = sl.front_all l

  abbrev pub list_or : Option L → L
  list_or none = sl.new default_history_size
  list_or (some l) = l

module _ {F L M : Type 0} (sm : SafeMap L M) (sl : SafeListLimited (GraphItem F) L) where
  unfoldable pub get_last_item : ⦃fl : Float F⦄ → Str → M → GraphItem F
  get_last_item key m = item_or (front_of sl (sm.get key m))

  unfoldable pub get_all_items : Str → M → List (GraphItem F)
  get_all_items key m = all_of sl (sm.get key m)

  -- A new list is put under a key that has none.
  unfoldable pub add_item : Str → GraphItem F → M → M
  add_item key val m =
      let slist = list_or sl (sm.get key m) in
      let m' = sm.put key slist m in
      if is_newer val.timestamp (front sl slist)
      then sm.put key (sl.push_front_violently val slist) m'
      else m'
