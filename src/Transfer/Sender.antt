-- ===== src/Transfer/Sender.antt =====
-- modules/transfer/sender/sender.go: the items in the form that each service takes, and the queues
-- to the services. The consistent hash rings, which may fail, and the queues come from packages; what
-- is counted for statistics is left out. `none` is a panic.
pub mod Converted
pub mod Routing
use open_falcon.Prelude.{
  Bool, List, [], ◌∷◌, ◌++◌, Option, none, some, ◌>>=◌, if◌then◌else◌, ◌==◌, eq_str, list_eq, take,
  length, exists,
}
use open_falcon.Prelude.Int.{ℤ, pos, sub64, rem64, mul64, ltb_ℤ}
use open_falcon.Prelude.Text.{Str, str}
use open_falcon.Prelude.Maps.{Map, lookup, insert}
use open_falcon.Container.{SafeListLimited}
use open_falcon.Model.{JudgeItem}
use open_falcon.Model.Tags.{pk}
use open_falcon.Graph.{GraphItem}
use open_falcon.Transfer.{MetaData, P8sItem, TsdbItem, InfluxdbItem}

-- `MinStep`, of the configuration.
unfoldable pub min_step_of : ℤ → ℤ
min_step_of configured = if ltb_ℤ configured (pos 1) then pos 30 else configured

-- For a period that is not 0, which would be a panic: the steps that it is called with are at least
-- `MinStep`, which is positive.
unfoldable pub align_ts : ℤ → ℤ → ℤ
align_ts ts period = sub64 ts (rem64 ts period)

-- The step of an item, where it is not below `MinStep`.
unfoldable pub step_of : ℤ → ℤ → ℤ
step_of min_step step = if ltb_ℤ step min_step then min_step else step

-- The tags are copied, one by one.
abbrev pub copy_tags : Map Str Str → Map Str Str → Map Str Str
copy_tags [] tags = tags
copy_tags ((k, v) ∷ rest) tags = copy_tags rest (insert k v tags)

-- To the queues of all addresses of a node.
unfoldable pub push_addrs :
    {A L : Type 0} → SafeListLimited A L → A → Str → List Str → Map Str L → Option (Map Str L)
push_addrs sl item node [] queues = some queues
push_addrs sl item node (addr ∷ addrs) queues = lookup (node ++ addr) queues >>= λ q.
    push_addrs sl item node addrs (insert (node ++ addr) (sl.push_front item q).0 queues)

-- An item in its converted form, to its node; nothing if it has no form, or no node.
unfoldable pub push_cluster :
    {A L : Type 0}
    → SafeListLimited A L
    → (Str → Option Str)
    → Map Str (List Str)
    → Option A
    → Str
    → Map Str L
    → Option (Map Str L)
unfolding push_addrs
push_cluster sl get_node cluster none key queues = some queues
push_cluster sl get_node cluster (some a) key queues = elim (get_node key) [
  | none ↦ some queues
  | some node ↦ lookup node cluster >>= λ addrs. push_addrs sl a node addrs queues
]

-- `strings.HasPrefix`.
abbrev pub has_prefix : Str → Str → Bool
has_prefix s prefix = list_eq (take (length prefix) s) prefix

module _ {F : Type 0} where
  unfoldable pub meta_pk : MetaData F → Str
  unfolding pk
  meta_pk d = pk d.endpoint d.metric d.tags

  -- `none` is the error `not_supported_counter_type`.
  unfoldable pub convert2_graph_item : ℤ → MetaData F → Option (GraphItem F)
  unfolding align_ts step_of
  convert2_graph_item min_step d =
      let step = step_of min_step d.step in
      let item : Str → Str → Str → GraphItem F = λ ds_type min max. record {
        endpoint = d.endpoint;
        metric = d.metric;
        tags = d.tags;
        value = d.value;
        timestamp = align_ts d.timestamp step;
        ds_type = ds_type;
        step = step;
        heartbeat = mul64 2 step;
        min = min;
        max = max;
      } in
      if d.counter_type == str "GAUGE"
      then some (item d.counter_type (str "U") (str "U"))
      else if d.counter_type == str "COUNTER"
      then some (item (str "DERIVE") (str "0") (str "U"))
      else if d.counter_type == str "DERIVE"
      then some (item (str "DERIVE") (str "0") (str "U"))
      else none

  -- The value is printed with three decimals and read again, by `round`.
  unfoldable pub convert2_p8s_relay_item : (F → F) → ℤ → MetaData F → Option (P8sItem F)
  unfolding align_ts step_of
  convert2_p8s_relay_item round min_step d =
      let step = step_of min_step d.step in
      let item : Str → P8sItem F = λ type. record {
        endpoint = d.endpoint;
        metric = d.metric;
        tags = d.tags;
        value = round d.value;
        timestamp = align_ts d.timestamp step;
        metric_type = type;
        step = step;
      } in
      if d.counter_type == str "GAUGE"
      then some (item (str "GAUGE"))
      else if d.counter_type == str "COUNTER"
      then some (item (str "COUNTER"))
      else none

  unfoldable pub convert2_tsdb_item : MetaData F → TsdbItem F
  convert2_tsdb_item d = record {
    metric = d.metric;
    tags = insert (str "endpoint") d.endpoint (copy_tags d.tags []);
    value = d.value;
    timestamp = d.timestamp;
  }

  unfoldable pub convert2_influxdb_item : MetaData F → InfluxdbItem F
  convert2_influxdb_item d = record {
    measurement = d.metric;
    tags = insert (str "endpoint") d.endpoint (copy_tags d.tags []);
    fileds = insert (str "value") d.value [];
    timestamp = d.timestamp;
  }

  unfoldable pub judge_item_of : ℤ → MetaData F → JudgeItem F
  unfolding align_ts step_of
  judge_item_of min_step d = record {
    endpoint = d.endpoint;
    metric = d.metric;
    value = d.value;
    timestamp = align_ts d.timestamp (step_of min_step d.step);
    judge_type = d.counter_type;
    tags = d.tags;
  }

  -- One item of `Push2JudgeSendQueue`: to the queue of its node, if there is one.
  unfoldable pub push_judge :
      {L : Type 0}
      → SafeListLimited (JudgeItem F) L
      → (Str → Option Str)
      → ℤ
      → MetaData F
      → Map Str L
      → Option (Map Str L)
  unfolding meta_pk judge_item_of
  push_judge sl get_node min_step item queues = elim (get_node (meta_pk item)) [
    | none ↦ some queues
    | some node ↦ lookup node queues >>= λ q.
        some (insert node (sl.push_front (judge_item_of min_step item) q).0 queues)
  ]

  unfoldable pub push2_judge_send_queue :
      {L : Type 0}
      → SafeListLimited (JudgeItem F) L
      → (Str → Option Str)
      → ℤ
      → List (MetaData F)
      → Map Str L
      → Option (Map Str L)
  unfolding push_judge
  push2_judge_send_queue sl get_node min_step [] queues = some queues
  push2_judge_send_queue sl get_node min_step (item ∷ items) queues =
      push_judge sl get_node min_step item queues >>= λ q.
      push2_judge_send_queue sl get_node min_step items q

  unfoldable pub push2_graph_send_queue :
      {L : Type 0}
      → SafeListLimited (GraphItem F) L
      → (Str → Option Str)
      → Map Str (List Str)
      → ℤ
      → List (MetaData F)
      → Map Str L
      → Option (Map Str L)
  unfolding push_cluster convert2_graph_item meta_pk
  push2_graph_send_queue sl get_node cluster min_step [] queues = some queues
  push2_graph_send_queue sl get_node cluster min_step (item ∷ items) queues =
      push_cluster sl get_node cluster (convert2_graph_item min_step item) (meta_pk item) queues
      >>= λ q. push2_graph_send_queue sl get_node cluster min_step items q

  -- Metrics with one of the prefixes `not_sync` are not relayed.
  unfoldable pub push2_p8s_relay_send_queue :
      {L : Type 0}
      → SafeListLimited (P8sItem F) L
      → (Str → Option Str)
      → Map Str (List Str)
      → List Str
      → (F → F)
      → ℤ
      → List (MetaData F)
      → Map Str L
      → Option (Map Str L)
  unfolding push_cluster convert2_p8s_relay_item meta_pk
  push2_p8s_relay_send_queue sl get_node cluster not_sync round min_step [] queues = some queues
  push2_p8s_relay_send_queue sl get_node cluster not_sync round min_step (item ∷ items) queues =
      let skip =
        push2_p8s_relay_send_queue sl get_node cluster not_sync round min_step items queues in
      let push =
        push_cluster sl get_node cluster (convert2_p8s_relay_item round min_step item)
          (meta_pk item) queues
        >>= λ q. push2_p8s_relay_send_queue sl get_node cluster not_sync round min_step items q in
      if exists (λ m. has_prefix item.metric m) not_sync then skip else push

  -- `Push2TsdbSendQueue`, `Push2TransferSendQueue` and `Push2InfluxdbSendQueue`: one queue for all.
  unfoldable pub push_each :
      {A L : Type 0} → SafeListLimited A L → (MetaData F → A) → List (MetaData F) → L → L
  push_each sl convert [] q = q
  push_each sl convert (item ∷ items) q =
      push_each sl convert items (sl.push_front (convert item) q).0

  unfoldable pub push2_tsdb_send_queue :
      {L : Type 0} → SafeListLimited (TsdbItem F) L → List (MetaData F) → L → L
  unfolding push_each convert2_tsdb_item
  push2_tsdb_send_queue sl = push_each sl convert2_tsdb_item

  unfoldable pub push2_transfer_send_queue :
      {L : Type 0} → SafeListLimited (MetaData F) L → List (MetaData F) → L → L
  unfolding push_each
  push2_transfer_send_queue sl = push_each sl (λ item. item)

  unfoldable pub push2_influxdb_send_queue :
      {L : Type 0} → SafeListLimited (InfluxdbItem F) L → List (MetaData F) → L → L
  unfolding push_each convert2_influxdb_item
  push2_influxdb_send_queue sl = push_each sl convert2_influxdb_item
