-- ===== src/Tests/Queries.antt =====
-- Witnesses of what is proved of the calls that the storage service answers.
use open_falcon.Prelude.{
  ℕ, ◌≡◌, refl, sym, subst, ◌∙◌, Bool, true, false, List, [], ◌∷◌, none, some, arith, length, leb,
  if◌then◌else◌, ◌==◌, eq_str, head?, All,
}
use open_falcon.Prelude.Int.{ltb_ℤ, ℤ, pos, negsuc, int_eq, ◌<ℤ◌}
use open_falcon.Prelude.Text.{Str, str, slice, atoi, itoa}
use open_falcon.Prelude.Maps.{Map}
use open_falcon.Float.{fixed_point}
use open_falcon.Container.{plain_map, bounded_list}
use open_falcon.Model.Tags.{counter, pk, pk2}
use open_falcon.Graph.{GraphItem, RrdData}
use open_falcon.Graph.CacheKey.{
  form_rrd_cache_key, rrd_file_name, split_rrd_cache_key, parse_int_32,
}
use open_falcon.Graph.Store.{
  GraphItemMap, get, first, keys_by_index, fetch_all, shard, index_of, hash_key,
}
use open_falcon.Graph.Store.Refine.{IsStore}
use open_falcon.Graph.History.{is_newer, get_all_items, add_item}
use open_falcon.Graph.History.Latest.{
  IsLatest, after_add, empty-IsLatest, add_item-IsLatest, get_all_items-add_item,
}
use open_falcon.Graph.Index.{get_type_and_step, checksum}
use open_falcon.Graph.Api.{
  Env, GraphState, is_valid_item, is_valid_string, handle_item, handle_items, get_last_raw,
}
use open_falcon.Graph.Api.Accept.{
  IsDigest, IsState, key_of, handle_items-IsState, get_last_raw-handle_item,
}
use open_falcon.Graph.Query.Steps.{values_from}
use open_falcon.Graph.Handlers.{GraphQueryParam, fetched, rra1_start_ts, query}
use open_falcon.Graph.Handlers.Gauges.{HasNothing, query-values_from}
use open_falcon.Graph.Flush.{commit_by_key, flush_rrd}
use open_falcon.Graph.Flush.Forced.{Drained, flush_rrd-Drained}
use open_falcon.Graph.Flush.Committed.{points_of, emptied, commit_by_key-Committed}
use open_falcon.Tests.{whole, hash}
use open_falcon.Tests.Storage.{point, cached}

hash-IsDigest : IsDigest hash
unfolding slice
hash-IsDigest s = (str "0a", ground arith)

abbrev key : Str
key = str "0aweb1/load_GAUGE_60"

abbrev env : Env
env = record {
  md5 = hash;
  crc32 = length;
  runes = λ s. s;
  is_print = λ t. leb 32 t;
  is_rrd_file_exist = λ file. true;
  storage = str "/data";
  migrate = false;
}

abbrev cache : GraphItemMap ℤ
cache = record { a = ((key, cached) ∷ []) ∷ [] ∷ []; size = 2 }

cache-IsStore : IsStore cache
cache-IsStore = record { positive = omega arith; small = omega arith; full = refl }

abbrev state : GraphState ℤ (Map Str (ℕ × List (GraphItem ℤ)))
state = record {
  items = cache;
  index = record {
    indexed = (str "0aweb1/load", record { id = str "u"; item = point 60 }) ∷ [];
    unindexed = [];
  };
  history = (str "0aweb1/load", (3, point 120 ∷ point 60 ∷ [])) ∷ [];
}

history-IsLatest : IsLatest plain_map bounded_list state.history
unfolding get_all_items add_item
history-IsLatest =
    add_item-IsLatest plain_map bounded_list (str "0aweb1/load") (point 120)
      ((str "0aweb1/load", (3, point 60 ∷ [])) ∷ [])
      (add_item-IsLatest plain_map bounded_list (str "0aweb1/load") (point 60) []
        (empty-IsLatest plain_map bounded_list [] (λ key. refl)))

state-IsState : IsState env plain_map bounded_list state
state-IsState = record { store = cache-IsStore; latest = history-IsLatest }

get_all_items-add_item_example :
    get_all_items plain_map bounded_list
      (str "0aweb1/load")
      (add_item plain_map bounded_list (str "0aweb1/load") (point 180) state.history)
    ≡ (if str "0aweb1/load" == str "0aweb1/load"
        then after_add
            (point 180)
            (get_all_items plain_map bounded_list (str "0aweb1/load") state.history)
        else get_all_items plain_map bounded_list (str "0aweb1/load") state.history)
get_all_items-add_item_example =
    get_all_items-add_item plain_map bounded_list (str "0aweb1/load") (str "0aweb1/load")
      (point 180) state.history history-IsLatest

handle_items-IsState_example :
    (st' : GraphState ℤ (Map Str (ℕ × List (GraphItem ℤ)))) × (handle_items env plain_map
        bounded_list
        (some (point 180) ∷ none ∷ some (point 60) ∷ [])
        state
      ≡ some st')
    × IsState env plain_map bounded_list st'
handle_items-IsState_example =
    handle_items-IsState env plain_map bounded_list (some (point 180) ∷ none ∷ some (point 60) ∷ [])
      state hash-IsDigest state-IsState

newest_point : first length (key_of env (point 180)) cache ≡ some (some (point 120))
unfolding first get shard index_of hash_key checksum pk form_rrd_cache_key itoa
newest_point = refl

point_is_valid : is_valid_item env (point 180) ≡ true
unfolding is_valid_item is_valid_string counter
point_is_valid = refl

on_time :
    (x : GraphItem ℤ)
    → first length (key_of env (point 180)) cache ≡ some (some x)
    → x.timestamp <ℤ pos 180
on_time x e =
    let same : point 120 ≡ x = cc (sym newest_point ∙ e) in
    subst (λ y. y.timestamp <ℤ pos 180) same (omega arith)

is_last :
    is_newer
      (pos 180)
      (head? (get_all_items plain_map bounded_list (checksum hash (point 180)) state.history))
    ≡ true
unfolding get_all_items checksum pk
is_last = refl

get_last_raw-handle_item_example :
    (st' : GraphState ℤ (Map Str (ℕ × List (GraphItem ℤ)))) × (handle_item env plain_map
        bounded_list
        (some (point 180))
        state
      ≡ some st')
    × (get_last_raw env plain_map bounded_list (str "web1") (counter (str "load") []) st'
        ≡ record { timestamp = pos 180; value = whole 3 })
get_last_raw-handle_item_example =
    get_last_raw-handle_item env plain_map bounded_list (point 180) state hash-IsDigest
      state-IsState point_is_valid on_time is_last

key_parts : split_rrd_cache_key key ≡ some (str "0aweb1/load", str "GAUGE", pos 60)
unfolding split_rrd_cache_key parse_int_32 atoi
key_parts = refl

key_file :
    rrd_file_name (str "/data") (str "0aweb1/load") (str "GAUGE") (pos 60)
    ≡ some (str "/data/0a/0aweb1/load_GAUGE_60.rrd")
unfolding rrd_file_name slice itoa
key_file = refl

cache_get : get length key cache ≡ some (some cached)
unfolding get shard index_of hash_key
cache_get = refl

commit_by_key-Committed_example :
    (m' : GraphItemMap ℤ) × (commit_by_key length (str "/data") key (cache, [])
      ≡ some (m', (str "/data/0a/0aweb1/load_GAUGE_60.rrd", points_of (some cached)) ∷ []))
    × IsStore m'
    × ((j : Str)
        → get length j m' ≡ (if key == j then some (emptied (some cached)) else get length j cache))
commit_by_key-Committed_example =
    commit_by_key-Committed length (str "/data") key (str "0aweb1/load") (str "GAUGE")
      (str "/data/0a/0aweb1/load_GAUGE_60.rrd") (pos 60) cache [] (some cached) cache-IsStore
      key_parts key_file cache_get

cache_keys : keys_by_index length (pos 0) cache ≡ some (key ∷ [])
unfolding keys_by_index
cache_keys = refl

flush_rrd-Drained_example :
    (m' : GraphItemMap ℤ) × (log' : List (Str × List (GraphItem ℤ))) × (flush_rrd length
        (str "/data")
        true
        true
        (pos 200)
        (pos 0)
        (cache, [])
      ≡ some (m', log'))
    × Drained length (key ∷ []) cache [] m' log'
flush_rrd-Drained_example =
    flush_rrd-Drained length (str "/data") true (pos 200) (pos 0) (key ∷ []) cache [] cache-IsStore
      cache_keys
      (
        (
          str "0aweb1/load",
          str "GAUGE",
          str "/data/0a/0aweb1/load_GAUGE_60.rrd",
          pos 60,
          key_parts,
          key_file,
        ),
        tt,
      )

abbrev nan : ℤ
nan = negsuc 999_999_999

abbrev is_nan : ℤ → Bool
is_nan x = int_eq x nan

abbrev param : GraphQueryParam
param = record {
  start = pos 60;
  end = pos 200;
  consol_fun = str "AVERAGE";
  endpoint = str "web1";
  counter = str "load";
}

cache_fetched :
    fetch_all length
      (form_rrd_cache_key (hash (pk2 (str "web1") (str "load"))) (str "GAUGE") (pos 60))
      cache
    ≡ some (point 60 ∷ point 120 ∷ [], 0)
unfolding fetch_all get shard index_of hash_key pk2 form_rrd_cache_key itoa
cache_fetched = refl

counter_is_known :
    get_type_and_step hash (λ e. none) (λ id c. none) (str "web1") (str "load") state.index
    ≡ some (str "GAUGE", pos 60)
unfolding get_type_and_step pk2
counter_is_known = refl

-- Data from before the window.
abbrev long_ago : Str → Str → Str → ℤ → ℤ → ℤ → List (RrdData ℤ)
long_ago file sum fun start end step = record { timestamp = pos 0; value = whole 2 } ∷ []

param_file :
    rrd_file_name (str "/data") (hash (pk2 (str "web1") (str "load"))) (str "GAUGE") (pos 60)
    ≡ some (str "/data/0a/0aweb1/load_GAUGE_60.rrd")
unfolding rrd_file_name slice itoa pk2
param_file = refl

nothing_in_window :
    HasNothing nan is_nan
      (pos 200)
      env
      long_ago
      (λ p. [])
      param
      60
      (str "/data/0a/0aweb1/load_GAUGE_60.rrd")
      0
      1
      4
unfolding fetched
nothing_in_window = refl

is_recent : ltb_ℤ (pos 60) (rra1_start_ts (pos 200) (pos 60)) ≡ false
unfolding rra1_start_ts open_falcon.Prelude.Int.wrap64 open_falcon.Prelude.Int.◌-ℤ◌
    open_falcon.Prelude.Int.rem64
is_recent = refl

query-values_from_example :
    query nan is_nan (pos 200) env long_ago (λ p. []) (λ e. none) (λ id c. none) param state
    ≡ some (record {
      endpoint = str "web1";
      counter = str "load";
      ds_type = str "GAUGE";
      step = pos 60;
      values = values_from nan 60 1 4 (point 60 ∷ point 120 ∷ []);
    })
query-values_from_example =
    query-values_from nan is_nan (pos 200) env long_ago (λ p. []) param 60 (λ e. none)
      (λ id c. none) state 60 200 0 (point 60) (point 120 ∷ [])
      (str "/data/0a/0aweb1/load_GAUGE_60.rrd") counter_is_known param_file cache_fetched
      (1, refl, omega arith, omega arith, (2, refl, omega arith, omega arith, tt)) nothing_in_window
      is_recent (omega arith) refl refl (omega arith) (omega arith)
