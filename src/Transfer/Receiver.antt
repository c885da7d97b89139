-- ===== src/Transfer/Receiver.antt =====
-- modules/transfer/receiver/rpc/rpc_transfer.go, RecvMetricValues: which values are taken in.
-- `strconv.ParseFloat` is the parameter `parse_float`; a conversion of an int64 is that of the floats.
pub mod Valid
use open_falcon.Prelude.{
  ℕ, suc, ◌+◌, Bool, true, false, not, List, [], ◌∷◌, Option, none, some, ◌>>=◌, if◌then◌else◌,
  ◌==◌, eq_str, ◌||◌, ◌&&◌, ltb, length,
}
use open_falcon.Prelude.Int.{ℤ, pos, mul64, leb_ℤ, ltb_ℤ}
use open_falcon.Prelude.Text.{Str, str}
use open_falcon.Float.{Float}
use open_falcon.Model.Tags.{dicted_tagstring}
use open_falcon.Prelude.Maps.{Map}
use open_falcon.Container.{SafeListLimited}
use open_falcon.Model.{JudgeItem}
use open_falcon.Graph.{GraphItem}
use open_falcon.Transfer.Sender.{
  min_step_of, push2_graph_send_queue, push2_judge_send_queue, push2_tsdb_send_queue,
  push2_transfer_send_queue, push2_influxdb_send_queue, push2_p8s_relay_send_queue,
}
use open_falcon.Transfer.{
  P8sItem, TsdbItem, InfluxdbItem, Value, text, number, whole, other, MetricValue, MetaData,
}

-- A time that is not positive, or later than twice now, is replaced by now.
unfoldable pub time_of : ℤ → ℤ → ℤ
time_of now timestamp =
    if leb_ℤ timestamp (pos 0) || ltb_ℤ (mul64 2 now) timestamp then now else timestamp

-- `TransferResponse`, but for the latency.
pub record Reply : Type 0 where
  pub message : Str
  pub total : ℕ
  pub invalid : ℕ

module _ {F : Type 0} where
  -- `v.Value == ""`.
  abbrev pub is_empty_text : Value F → Bool
  is_empty_text (text []) = true
  is_empty_text _ = false

  -- The tests of the loop before the value is looked at, in their order.
  unfoldable pub is_refused : MetricValue F → Bool
  is_refused v =
      v.metric == str "kernel.hostname"
      || (v.metric == [] || v.endpoint == [])
      || (not (v.type == str "COUNTER")
          && (not (v.type == str "GAUGE") && not (v.type == str "DERIVE")))
      || is_empty_text v.value
      || leb_ℤ v.step (pos 0)
      || ltb 510 (length v.metric + length v.tags)

  -- The switch on the type of the value; `none` is not valid.
  unfoldable pub value_of : ⦃fl : Float F⦄ → (Str → Option F) → Value F → Option F
  value_of parse_float (text cv) = parse_float cv
  value_of parse_float (number cv) = some cv
  value_of ⦃fl⦄ parse_float (whole cv) = some (fl.of_int cv)
  value_of parse_float other = none

-- `fv`.
abbrev pub meta_of : {F : Type 0} → ℤ → MetricValue F → F → MetaData F
meta_of now v vv = record {
  metric = v.metric;
  endpoint = v.endpoint;
  timestamp = time_of now v.timestamp;
  step = v.step;
  value = vv;
  counter_type = v.type;
  tags = dicted_tagstring v.tags;
}

module _ {F : Type 0} ⦃fl : Float F⦄ (parse_float : Str → Option F) (now : ℤ) where
  -- One round of the loop; `none` for a value that counts as invalid, and a nil pointer does.
  unfoldable pub accept : Option (MetricValue F) → Option (MetaData F)
  unfolding is_refused value_of
  accept none = none
  accept (some v) =
      let taken = value_of parse_float v.value >>= λ vv. some (meta_of now v vv) in
      if is_refused v then none else taken

  -- The items, and `reply.Invalid`.
  unfoldable pub recv_loop : List (Option (MetricValue F)) → List (MetaData F) × ℕ
  unfolding accept
  recv_loop [] = ([], 0)
  recv_loop (v ∷ args) =
      let rest = recv_loop args in
      elim (accept v) [ none ↦ (rest.0, suc rest.1) | some item ↦ (item ∷ rest.0, rest.1) ]

-- Where the queues of each service are kept; all of these containers come from a package.
pub record Containers (F J G P D T I : Type 0) : Type 0 where
  pub judge : SafeListLimited (JudgeItem F) J
  pub graph : SafeListLimited (GraphItem F) G
  pub p8s : SafeListLimited (P8sItem F) P
  pub tsdb : SafeListLimited (TsdbItem F) D
  pub transfer : SafeListLimited (MetaData F) T
  pub influxdb : SafeListLimited (InfluxdbItem F) I

pub record Queues (J G P D T I : Type 0) : Type 0 where
  pub judge : Map Str J
  pub graph : Map Str G
  pub p8s : Map Str P
  pub tsdb : D
  pub transfer : T
  pub influxdb : I

-- The configuration, with the rings that are made of it, `strconv.ParseFloat`, and the printing of a
-- value with three decimals.
pub record Config (F : Type 0) : Type 0 where
  pub graph_enabled : Bool
  pub judge_enabled : Bool
  pub tsdb_enabled : Bool
  pub transfer_enabled : Bool
  pub influxdb_enabled : Bool
  pub p8s_enabled : Bool
  pub min_step : ℤ
  pub judge_node : Str → Option Str
  pub graph_node : Str → Option Str
  pub p8s_node : Str → Option Str
  pub graph_cluster : Map Str (List Str)
  pub p8s_cluster : Map Str (List Str)
  pub not_sync : List Str
  pub round : F → F
  pub parse_float : Str → Option F

module _ {F J G P D T I : Type 0} (con : Containers F J G P D T I) (cfg : Config F) where
  -- The items in the queues of the services that are enabled.
  unfoldable pub dispatch : List (MetaData F) → Queues J G P D T I → Option (Queues J G P D T I)
  unfolding push2_graph_send_queue push2_judge_send_queue push2_tsdb_send_queue
      push2_transfer_send_queue push2_influxdb_send_queue push2_p8s_relay_send_queue min_step_of
  dispatch items q =
      let min_step = min_step_of cfg.min_step in
      (if cfg.graph_enabled
        then push2_graph_send_queue con.graph cfg.graph_node cfg.graph_cluster min_step items
            q.graph
        else some q.graph)
      >>= λ graph.
          (if cfg.judge_enabled
            then push2_judge_send_queue con.judge cfg.judge_node min_step items q.judge
            else some q.judge)
          >>= λ judge.
              (if cfg.p8s_enabled
                then push2_p8s_relay_send_queue con.p8s cfg.p8s_node cfg.p8s_cluster cfg.not_sync
                    cfg.round min_step items q.p8s
                else some q.p8s)
              >>= λ p8s. some (record {
                judge = judge;
                graph = graph;
                p8s = p8s;
                tsdb =
                    if cfg.tsdb_enabled
                    then push2_tsdb_send_queue con.tsdb items q.tsdb
                    else q.tsdb;
                transfer =
                    if cfg.transfer_enabled
                    then push2_transfer_send_queue con.transfer items q.transfer
                    else q.transfer;
                influxdb =
                    if cfg.influxdb_enabled
                    then push2_influxdb_send_queue con.influxdb items q.influxdb
                    else q.influxdb;
              })

  unfoldable pub recv_metric_values :
      ⦃fl : Float F⦄
      → ℤ
      → List (Option (MetricValue F))
      → Queues J G P D T I
      → Option (Reply × Queues J G P D T I)
  unfolding recv_loop dispatch
  recv_metric_values now args q =
      let taken = recv_loop cfg.parse_float now args in
      dispatch taken.0 q >>= λ q'.
      some (record { message = str "ok"; total = length args; invalid = taken.1 }, q')
