-- ===== src/Model.antt =====
-- common/model: the records that the services exchange (judge.go, strategy.go, expression.go,
-- template.go, event.go).
pub mod EventInfo
pub mod Tags
use open_falcon.Prelude.{Option, List}
use open_falcon.Prelude.Int.{ℤ}
use open_falcon.Prelude.Text.{Str}
use open_falcon.Prelude.Maps.{Map}

pub record JudgeItem (F : Type 0) : Type 0 where
  pub endpoint : Str
  pub metric : Str
  pub value : F
  pub timestamp : ℤ
  pub judge_type : Str
  pub tags : Map Str Str

pub record HistoryData (F : Type 0) : Type 0 where
  pub timestamp : ℤ
  pub value : F

pub record Template : Type 0 where
  pub id : ℤ
  pub name : Str
  pub parent_id : ℤ
  pub action_id : ℤ
  pub creator : Str

-- `tpl` is a pointer, which may be nil.
pub record Strategy (F : Type 0) : Type 0 where
  pub id : ℤ
  pub metric : Str
  pub tags : Map Str Str
  pub func : Str
  pub operator : Str
  pub right_value : F
  pub max_step : ℤ
  pub priority : ℤ
  pub note : Str
  pub tpl : Option Template

pub record Expression (F : Type 0) : Type 0 where
  pub id : ℤ
  pub metric : Str
  pub tags : Map Str Str
  pub func : Str
  pub operator : Str
  pub right_value : F
  pub max_step : ℤ
  pub priority : ℤ
  pub note : Str
  pub action_id : ℤ

-- The strings that `Event.Status` takes; `unset` is the empty one of a fresh event.
pub data Status : Type 0 where
  unset problem okay : Status

pub record Event (F : Type 0) : Type 0 where
  pub id : Str
  pub strategy : Option (Strategy F)
  pub expression : Option (Expression F)
  pub status : Status
  pub endpoint : Str
  pub left_value : F
  pub current_step : ℤ
  pub event_time : ℤ
  pub pushed_tags : Map Str Str

pub record HostStrategy (F : Type 0) : Type 0 where
  pub hostname : Str
  pub strategies : List (Strategy F)
