-- ===== src/Graph/Api.antt =====
-- modules/graph/api/graph.go: the calls that other services make. `none` is a panic. The
-- containers of the cache of last points come from a package.
pub mod Accept
use open_falcon.Prelude.{
  ℕ, Bool, false, not, ◌&&◌, ◌||◌, List, [], ◌∷◌, Option, none, some, ◌>>=◌, if◌then◌else◌, ◌==◌,
  eq_str, nat_eq, every,
}
use open_falcon.Prelude.Int.{ℤ, pos, sub64, leb_ℤ, int_eq}
use open_falcon.Prelude.Text.{Str, str}
use open_falcon.Float.{Float}
use open_falcon.Container.{SafeMap, SafeListLimited}
use open_falcon.Model.Tags.{counter, pk2}
use open_falcon.Judge.Func.Statistics.{zero_float}
use open_falcon.Graph.{GraphItem, RrdData}
use open_falcon.Graph.CacheKey.{form_rrd_cache_key, rrd_file_name}
use open_falcon.Graph.Store
use open_falcon.Graph.Store.{GraphItemMap, graph_f_miss}
use open_falcon.Graph.Index.{IndexCaches, receive_item, get_type_and_step, checksum}
use open_falcon.Graph.History.{get_last_item, get_all_items, add_item}

-- What the service keeps in memory.
pub record GraphState (F M : Type 0) : Type 0 where
  pub items : GraphItemMap F
  pub index : IndexCaches F
  pub history : M

-- The runes that `IsValidString` refuses by name; the last is `'\032'`.
abbrev pub refused : ℕ → Bool
refused t = nat_eq t 13 || nat_eq t 10 || nat_eq t 39 || nat_eq t 34 || nat_eq t 62 || nat_eq t 26

unfoldable pub is_valid_string : (Str → List ℕ) → (ℕ → Bool) → Str → Bool
is_valid_string runes is_print s = every (λ t. not (refused t) && is_print t) (runes s)

-- What the service calls but does not contain, and its configuration: md5 and crc32; the runes of a
-- string, and which of them print (`unicode.IsPrint`); whether an rrd file is there; the directory of
-- these files, and whether the migration is on.
pub record Env : Type 0 where
  pub md5 : Str → Str
  pub crc32 : Str → ℕ
  pub runes : Str → List ℕ
  pub is_print : ℕ → Bool
  pub is_rrd_file_exist : Str → Bool
  pub storage : Str
  pub migrate : Bool

-- Whether an item comes too late for the first one of its key.
abbrev pub is_late : {F : Type 0} → ℤ → Option (GraphItem F) → Bool
is_late ts none = false
is_late ts (some first) = leb_ℤ ts first.timestamp

module _ {F : Type 0} (env : Env) where
  -- Whether `PushFront` flags a new list: with the migration on, when there is no file.
  unfoldable pub is_missing : GraphItem F → Str → Option Bool
  unfolding rrd_file_name
  is_missing item sum =
      if env.migrate
      then (rrd_file_name env.storage sum item.ds_type item.step >>= λ file.
          some (not (env.is_rrd_file_exist file)))
      else some false

  unfoldable pub is_valid_item : GraphItem F → Bool
  unfolding is_valid_string counter
  is_valid_item item =
      is_valid_string env.runes env.is_print item.endpoint
      && is_valid_string env.runes env.is_print (counter item.metric item.tags)

module _ {F L M : Type 0} (env : Env) (sm : SafeMap L M)
    (sl : SafeListLimited (GraphItem F) L) where
  unfoldable pub store_item : GraphItem F → GraphState F M → Option (GraphState F M)
  unfolding is_missing Store.push_front receive_item add_item checksum form_rrd_cache_key
  store_item item st =
      let sum = checksum env.md5 item in
      let key = form_rrd_cache_key sum item.ds_type item.step in
      is_missing env item sum >>= λ missing.
      Store.push_front env.crc32 key item missing st.items >>= λ items.
      receive_item env.is_rrd_file_exist env.storage item sum st.index >>= λ index.
      some (record { items = items; index = index; history = add_item sm sl sum item st.history })

  -- One round of the loop; `none` is a nil pointer among the items.
  unfoldable pub handle_item : Option (GraphItem F) → GraphState F M → Option (GraphState F M)
  unfolding store_item is_valid_item Store.first checksum form_rrd_cache_key
  handle_item none st = some st
  handle_item (some item) st =
      let key = form_rrd_cache_key (checksum env.md5 item) item.ds_type item.step in
      if is_valid_item env item
      then (Store.first env.crc32 key st.items >>= λ first.
          if is_late item.timestamp first then some st else store_item item st)
      else some st

  unfoldable pub handle_items :
      List (Option (GraphItem F)) → GraphState F M → Option (GraphState F M)
  unfolding handle_item
  handle_items [] st = some st
  handle_items (item ∷ items) st = handle_item item st >>= λ st'. handle_items items st'

  unfoldable pub get_last_raw : ⦃fl : Float F⦄ → Str → Str → GraphState F M → RrdData F
  unfolding get_last_item pk2
  get_last_raw endpoint counter st =
      let item = get_last_item sm sl (env.md5 (pk2 endpoint counter)) st.history in
      record { timestamp = item.timestamp; value = item.value }

abbrev pub no_data : {F : Type 0} ⦃fl : Float F⦄ → RrdData F
no_data = record { timestamp = pos 0; value = zero_float }

-- The rate from the last point but one to the last, where they are a step apart.
unfoldable pub last_rate : {F : Type 0} ⦃fl : Float F⦄ → ℤ → List (GraphItem F) → RrdData F
last_rate ⦃fl⦄ step (f0 ∷ f1 ∷ rest) =
    let delta_ts = sub64 f0.timestamp f1.timestamp in
    let delta_v = fl.sub f0.value f1.value in
    if not (int_eq delta_ts step) || leb_ℤ delta_ts (pos 0) then no_data else record {
      timestamp = f0.timestamp;
      value =
          fl.div (if fl.lt delta_v zero_float then zero_float else delta_v) (fl.of_int delta_ts);
    }
last_rate step _ = no_data

module _ {F L M : Type 0} ⦃fl : Float F⦄ (env : Env) (sm : SafeMap L M)
    (sl : SafeListLimited (GraphItem F) L) (endpoint_id : Str → Option ℤ)
    (counter_of : ℤ → Str → Option (Str × ℤ)) where
  unfoldable pub get_last : Str → Str → GraphState F M → RrdData F
  unfolding get_type_and_step get_last_raw get_all_items last_rate pk2
  get_last endpoint counter st =
      elim (get_type_and_step env.md5 endpoint_id counter_of endpoint counter st.index) [
        | none ↦ no_data
        | some (ds_type, step) ↦
            if ds_type == str "GAUGE"
            then get_last_raw env sm sl endpoint counter st
            else if ds_type == str "COUNTER" || ds_type == str "DERIVE"
            then last_rate step (get_all_items sm sl (env.md5 (pk2 endpoint counter)) st.history)
            else no_data
      ]
