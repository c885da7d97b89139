-- ===== src/Tests/Deliveries.antt =====
-- Witnesses of what is proved of the transfer.
use open_falcon.Prelude.{
  ℕ, ◌+◌, ◌≡◌, refl, inl, inr, List, [], ◌∷◌, subst, eq_str, Option, none, some, arith, length, All,
}
use open_falcon.Prelude.Int.{ℤ, pos}
use open_falcon.Prelude.Text.{Str, str}
use open_falcon.Prelude.Maps.{Map, lookup}
use open_falcon.Float.{fixed_point}
use open_falcon.Container.{bounded_list}
use open_falcon.Model.{JudgeItem}
use open_falcon.Graph.{GraphItem}
use open_falcon.Transfer.{number, MetricValue, MetaData}
use open_falcon.Transfer.Receiver.{recv_loop}
use open_falcon.Transfer.Receiver.Valid.{IsValid, recv_loop-IsValid}
use open_falcon.Transfer.Sender.{convert2_graph_item, push2_judge_send_queue}
use open_falcon.Transfer.Sender.Converted.{IsFit, convert2_graph_item-IsFit}
use open_falcon.Transfer.Sender.Routing.{routed, IsCovered, push2_judge_send_queue-routed}
use open_falcon.Tests.{whole}

abbrev metric : Str → ℕ → MetricValue ℤ
metric type t = record {
  endpoint = str "web1";
  metric = str "load";
  value = number (whole 3);
  step = pos 60;
  type = type;
  tags = str "idc=bj";
  timestamp = pos t;
}

-- A good value, a nil pointer, an unknown type, a time in the far future.
abbrev values : List (Option (MetricValue ℤ))
values =
    some (metric (str "GAUGE") 180)
    ∷ none
    ∷ some (metric (str "SUM") 180)
    ∷ some (metric (str "COUNTER") 9000)
    ∷ []

abbrev no_text : Str → Option ℤ
no_text s = none

recv_loop-IsValid_example :
    (length (recv_loop no_text (pos 200) values).0 + (recv_loop no_text (pos 200) values).1
      ≡ length values)
    × All (IsValid 200) (recv_loop no_text (pos 200) values).0
recv_loop-IsValid_example = recv_loop-IsValid no_text 200 values (omega arith) (omega arith)

abbrev meta : MetaData ℤ
meta = record {
  metric = str "load";
  endpoint = str "web1";
  timestamp = pos 199;
  step = pos 10;
  value = whole 3;
  counter_type = str "COUNTER";
  tags = (str "idc", str "bj") ∷ [];
}

convert2_graph_item-IsFit_example :
    (item : GraphItem ℤ) × (convert2_graph_item (pos 30) meta ≡ some item)
    × IsFit 30 10 199 meta item
convert2_graph_item-IsFit_example =
    convert2_graph_item-IsFit 30 10 199 meta refl refl (omega arith) (omega arith) (inr (inl refl))

-- One node for all counters, whose queue has room for two items.
abbrev one_node : Str → Option Str
one_node key = some (str "n")

abbrev queues : Map Str (ℕ × List (JudgeItem ℤ))
queues = (str "n", (2, [])) ∷ []

queues-IsCovered : IsCovered bounded_list one_node (pos 30) queues
queues-IsCovered key node e =
    let same : str "n" ≡ node = cc e in
    subst (λ (n : Str). (q : ℕ × List (JudgeItem ℤ)) × (lookup n queues ≡ some q)) same
      ((2, []), refl)

push2_judge_send_queue-routed_example :
    (queues' : Map Str (ℕ × List (JudgeItem ℤ))) × (push2_judge_send_queue bounded_list one_node
        (pos 30)
        (meta ∷ meta ∷ meta ∷ [])
        queues
      ≡ some queues')
    × ((n : Str) (q : ℕ × List (JudgeItem ℤ))
        → lookup n queues ≡ some q
        → (q' : ℕ × List (JudgeItem ℤ)) × (lookup n queues' ≡ some q')
          × (q'.1 ≡ routed bounded_list one_node (pos 30) n q.0 (meta ∷ meta ∷ meta ∷ []) q.1))
push2_judge_send_queue-routed_example =
    push2_judge_send_queue-routed bounded_list one_node (pos 30) (meta ∷ meta ∷ meta ∷ []) queues
      queues-IsCovered
