-- ===== src/Graph/Handlers.antt =====
-- modules/graph/api/graph.go, Query, Info and Delete, and modules/graph/index/index.go, RemoveItem.
-- `none` is a panic, or a loop that does not end. Parameters: what MySQL knows of the counters;
-- `rrdtool.Fetch`, whose error is not looked at, and the query to the node that has the data during a
-- migration; the time.
pub mod Replies
pub mod Gauges
use open_falcon.Prelude.{
  ℕ, Bool, ◌&&◌, List, [], Option, none, some, ◌>>=◌, length, if◌then◌else◌, eq_str, nat_eq, ◌%◌,
}
use open_falcon.Prelude.Int.{ℤ, pos, sub64, add64, rem64, mul64, ltb_ℤ, int_eq}
use open_falcon.Prelude.Text.{Str}
use open_falcon.Prelude.Maps.{delete}
use open_falcon.Float.{Float}
use open_falcon.Model.Tags.{pk2}
use open_falcon.Graph.{GraphItem, RrdData}
use open_falcon.Graph.CacheKey.{form_rrd_cache_key, rrd_file_name}
use open_falcon.Graph.Store
use open_falcon.Graph.Store.{GraphItemMap, graph_f_miss}
use open_falcon.Graph.Index.{IndexCaches, get_type_and_step, checksum}
use open_falcon.Graph.Api.{Env, GraphState}
use open_falcon.Graph.Query.{merge}

pub record GraphQueryParam : Type 0 where
  pub start : ℤ
  pub end : ℤ
  pub consol_fun : Str
  pub endpoint : Str
  pub counter : Str

pub record GraphQueryResponse (F : Type 0) : Type 0 where
  pub endpoint : Str
  pub counter : Str
  pub ds_type : Str
  pub step : ℤ
  pub values : List (RrdData F)

-- The number of points of the finest archive.
abbrev pub rra1_point_cnt : ℕ
rra1_point_cnt = 720

-- What `Query` answers for a counter that is not known.
abbrev pub empty_response : {F : Type 0} → GraphQueryParam → Str → ℤ → GraphQueryResponse F
empty_response param ds_type step = record {
  endpoint = param.endpoint;
  counter = param.counter;
  ds_type = ds_type;
  step = step;
  values = [];
}

-- `start_ts` and `end_ts`: the window in whole steps, for a step that is not 0.
abbrev pub start_of : ℤ → ℤ → ℤ
start_of start step = sub64 start (rem64 start step)

abbrev pub end_of : ℤ → ℤ → ℤ
end_of end step = add64 (sub64 end (rem64 end step)) step

-- `flag & GRAPH_F_MISS != 0`.
abbrev pub has_flag_miss : ℕ → Bool
has_flag_miss flag = nat_eq (flag % 2) 1

-- The first second that the finest archive still holds.
unfoldable pub rra1_start_ts : ℤ → ℤ → ℤ
rra1_start_ts now step = sub64 (sub64 now (rem64 now step)) (mul64 rra1_point_cnt step)

module _ {F : Type 0} (env : Env) (fetch : Str → Str → Str → ℤ → ℤ → ℤ → List (RrdData F))
    (remote : GraphQueryParam → List (RrdData F)) where
  -- `datas`: from the node that has them while they are missing here, or from the rrd file.
  unfoldable pub fetched : GraphQueryParam → Str → Str → ℤ → ℤ → ℤ → ℕ → List (RrdData F)
  fetched param filename sum start_ts end_ts step flag =
      if env.migrate && has_flag_miss flag
      then remote param
      else fetch filename sum param.consol_fun (sub64 start_ts step) end_ts step

module _ {F : Type 0} ⦃fl : Float F⦄ (nan : F) (is_nan : F → Bool) (now : ℤ) where
  -- `resp.Values`, of the data and of the cached items.
  unfoldable pub reply :
      Str → ℤ → ℤ → ℤ → List (RrdData F) → List (GraphItem F) → Option (List (RrdData F))
  unfolding merge rra1_start_ts
  reply ds_type step start_ts end_ts datas cached =
      let all = merge nan step is_nan ds_type start_ts end_ts datas cached in
      if ltb_ℤ start_ts (rra1_start_ts now step)
      then some datas
      else if nat_eq (length cached) 0
      then some datas
      else all

  module _ (env : Env) (fetch : Str → Str → Str → ℤ → ℤ → ℤ → List (RrdData F))
      (remote : GraphQueryParam → List (RrdData F)) where
    -- For a known type and step and a window that is not empty.
    unfoldable pub query_values :
        GraphQueryParam → Str → ℤ → ℤ → ℤ → GraphItemMap F → Option (List (RrdData F))
    unfolding pk2 form_rrd_cache_key rrd_file_name Store.fetch_all reply fetched
    query_values param ds_type step start_ts end_ts items =
        let sum = env.md5 (pk2 param.endpoint param.counter) in
        rrd_file_name env.storage sum ds_type step >>= λ filename.
        Store.fetch_all env.crc32 (form_rrd_cache_key sum ds_type step) items >>= λ cached.
        reply ds_type step start_ts end_ts
          (fetched env fetch remote param filename sum start_ts end_ts step cached.1) cached.0

    -- What is told of a counter of that type and step, for the window.
    unfoldable pub query_known :
        GraphQueryParam → Str → ℤ → ℤ → ℤ → GraphItemMap F → Option (GraphQueryResponse F)
    unfolding query_values
    query_known param ds_type step start_ts end_ts items =
        let values = query_values param ds_type step start_ts end_ts items in
        if int_eq step (pos 0)
        then none
        else if ltb_ℤ (sub64 (sub64 end_ts start_ts) step) (pos 1)
        then some (empty_response param ds_type step)
        else (values >>= λ v. some (record (empty_response param ds_type step) { values = v }))

    unfoldable pub query :
        {M : Type 0}
        → (Str → Option ℤ)
        → (ℤ → Str → Option (Str × ℤ))
        → GraphQueryParam
        → GraphState F M
        → Option (GraphQueryResponse F)
    unfolding get_type_and_step query_known
    query endpoint_id counter_of param st =
        elim (get_type_and_step env.md5 endpoint_id counter_of param.endpoint param.counter
          st.index) [
            | none ↦ some (empty_response param [] (pos 0))
            | some (ds_type, step) ↦
                query_known param ds_type step (start_of param.start step) (end_of param.end step)
                  st.items
          ]

module _ {F : Type 0} (env : Env) (endpoint_id : Str → Option ℤ)
    (counter_of : ℤ → Str → Option (Str × ℤ)) where
  -- The type, the step and the file of a counter; an inner `none` is the empty answer.
  unfoldable pub info : Str → Str → IndexCaches F → Option (Option (Str × ℤ × Str))
  unfolding get_type_and_step pk2 rrd_file_name
  info endpoint counter c =
      elim (get_type_and_step env.md5 endpoint_id counter_of endpoint counter c) [
        | none ↦ some none
        | some (ds_type, step) ↦
            rrd_file_name env.storage (env.md5 (pk2 endpoint counter)) ds_type step >>= λ file.
            some (some (ds_type, step, file))
      ]

module _ {F M : Type 0} (env : Env) where
  -- `RemoveItem`, with the file that is removed.
  unfoldable pub remove_item : GraphItem F → GraphState F M → Option (GraphState F M × Str)
  unfolding checksum form_rrd_cache_key rrd_file_name Store.pop_all
  remove_item item st =
      let sum = checksum env.md5 item in
      Store.pop_all env.crc32 (form_rrd_cache_key sum item.ds_type item.step) st.items >>= λ r.
      rrd_file_name env.storage sum item.ds_type item.step >>= λ file. some (
        record st {
          items = r.1;
          index = record {
            indexed = delete sum st.index.indexed;
            unindexed = delete sum st.index.unindexed;
          };
        },
        file,
      )
