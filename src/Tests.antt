-- ===== src/Tests.antt =====
-- Data for the tests: one counter of one host, with values that have six decimals.
mod Functions
mod Selection
mod Alarms
mod Histories
mod Storage
mod Absence
mod Queries
mod Deliveries
mod Inheritance
mod Clusters
use open_falcon.Prelude.{ℕ, ◌*◌, List, [], ◌∷◌, none, some}
use open_falcon.Prelude.Int.{ℤ, pos}
use open_falcon.Prelude.Text.{Str, str}
use open_falcon.Model.{JudgeItem, HistoryData, Strategy, Expression, HostStrategy}
use open_falcon.Judge.Rules.{Rules, strategy_key, expression_key}

-- A whole number.
abbrev pub whole : ℕ → ℤ
whole n = pos (n * 1_000_000)

abbrev pub item : ℕ → ℕ → JudgeItem ℤ
item t v = record {
  endpoint = str "web1";
  metric = str "load";
  value = whole v;
  timestamp = pos t;
  judge_type = str "GAUGE";
  tags = (str "idc", str "bj") ∷ [];
}

-- The newest first.
abbrev pub items : List (JudgeItem ℤ)
items = item 180 7 ∷ item 120 9 ∷ item 60 4 ∷ []

abbrev pub datum : ℕ → ℕ → HistoryData ℤ
datum t v = record { timestamp = pos t; value = whole v }

abbrev pub strategy : Strategy ℤ
strategy = record {
  id = pos 5;
  metric = str "load";
  tags = (str "idc", str "bj") ∷ [];
  func = str "all(#2)";
  operator = str ">";
  right_value = whole 3;
  max_step = pos 2;
  priority = pos 1;
  note = str "load";
  tpl = none;
}

abbrev pub expression : Expression ℤ
expression = record {
  id = pos 8;
  metric = str "load";
  tags = (str "idc", str "bj") ∷ (str "endpoint", str "web1") ∷ [];
  func = str "max(#2)";
  operator = str ">";
  right_value = whole 8;
  max_step = pos 3;
  priority = pos 2;
  note = str "peak";
  action_id = pos 4;
}

abbrev pub hosts : List (HostStrategy ℤ)
hosts = record { hostname = str "web1"; strategies = strategy ∷ [] } ∷ []

abbrev pub rules : Rules ℤ
rules = record {
  strategy_map = (str "web1/load", strategy ∷ []) ∷ [];
  expression_map =
      (str "load/idc=bj", expression ∷ []) ∷ (str "load/endpoint=web1", expression ∷ []) ∷ [];
  filter_map = (str "load", str "load") ∷ [];
}

-- A hash for the tests.
abbrev pub hash : Str → Str
hash s = b'0' ∷ b'a' ∷ s
