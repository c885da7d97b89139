-- ===== src/Model/EventInfo.antt =====
-- common/model/event.go: what an event says of the strategy or the expression that raised it.
-- `none` is the panic of a nil pointer.
use open_falcon.Prelude.{Option, none, some, ◌>>=◌}
use open_falcon.Prelude.Int.{ℤ, pos}
use open_falcon.Prelude.Text.{Str}
use open_falcon.Model.{Event, Strategy, Expression, Template, Status, unset, problem, okay}

-- `event.Status[0]`.
abbrev pub status_byte : Status → Option Prim.Native.Nat.ℕ
status_byte unset = none
status_byte problem = some b'P'
status_byte okay = some b'O'

module _ {F : Type 0} where
  pub expression_id : Event F → ℤ
  expression_id event = elim event.expression [ some e ↦ e.id | none ↦ pos 0 ]

  pub strategy_id : Event F → ℤ
  strategy_id event = elim event.strategy [ some s ↦ s.id | none ↦ pos 0 ]

  pub tpl_id : Event F → Option ℤ
  tpl_id event = elim event.strategy [ some s ↦ s.tpl >>= λ t. some t.id | none ↦ some (pos 0) ]

  pub tpl : Event F → Option Template
  tpl event = elim event.strategy [ some s ↦ s.tpl | none ↦ none ]

  pub action_id : Event F → Option ℤ
  action_id event = elim event.expression [
    | some e ↦ some e.action_id
    | none ↦ event.strategy >>= λ s. s.tpl >>= λ t. some t.action_id
  ]

  -- `Priority`, `Note`, `Metric`, `RightValue`, `Operator`, `Func` and `MaxStep` choose alike.
  of_source : {A : Type 0} → (Strategy F → A) → (Expression F → A) → Event F → Option A
  of_source f g event = elim event.strategy [
    | some s ↦ some (f s)
    | none ↦ event.expression >>= λ e. some (g e)
  ]

  unfoldable pub priority : Event F → Option ℤ
  unfolding of_source
  priority = of_source (λ s. s.priority) (λ e. e.priority)

  pub note : Event F → Option Str
  unfolding of_source
  note = of_source (λ s. s.note) (λ e. e.note)

  pub metric : Event F → Option Str
  unfolding of_source
  metric = of_source (λ s. s.metric) (λ e. e.metric)

  unfoldable pub right_value : Event F → Option F
  unfolding of_source
  right_value = of_source (λ s. s.right_value) (λ e. e.right_value)

  pub operator : Event F → Option Str
  unfolding of_source
  operator = of_source (λ s. s.operator) (λ e. e.operator)

  pub func : Event F → Option Str
  unfolding of_source
  func = of_source (λ s. s.func) (λ e. e.func)

  unfoldable pub max_step : Event F → Option ℤ
  unfolding of_source
  max_step = of_source (λ s. s.max_step) (λ e. e.max_step)
