-- ===== src/Judge/Events.antt =====
-- modules/judge/store/judge.go: `sendEvent` and `sendEventIfNeed`, which decide from the last event
-- of a counter under a rule whether a new one is raised. `none` is a panic.
pub mod Decision
pub mod Invariant
pub mod Protocol
use open_falcon.Prelude.{
  ℕ, suc, ◌-◌, Bool, true, false, ◌&&◌, List, [], ◌∷◌, Option, none, some, ◌>>=◌, length, get_elem?,
  nat_eq, if◌then◌else◌, eq_str,
}
use open_falcon.Prelude.Int.{ℤ, pos, leb_ℤ, ltb_ℤ, int_eq, add64, sub64}
use open_falcon.Prelude.Text.{Str}
use open_falcon.Prelude.Maps.{Map, lookup, insert}
use open_falcon.Float.{Float}
use open_falcon.Model.{Event, HistoryData, Status, problem, okay}
use open_falcon.Model.EventInfo.{status_byte, priority, right_value}

-- `g.LastEvents`, and what was pushed to Redis, the latest first: each event under the priority
-- that chooses its queue. A push that fails is not noticed by the code.
pub record Alarms (F : Type 0) : Type 0 where
  pub last_events : Map Str (Event F)
  pub pushed : List (ℤ × Event F)

-- `list[len(list) - 1]`.
abbrev pub last_of {ℓ} : {A : Type ℓ} → List A → Option A
last_of xs = get_elem? xs (length xs - 1)

module _ {F : Type 0} ⦃fl : Float F⦄ where
  -- `json.Marshal` refuses an event with a float that is not finite.
  abbrev pub marshals : Event F → Bool
  marshals event =
      fl.is_finite event.left_value
      && elim (right_value event) [ some r ↦ fl.is_finite r | none ↦ true ]

  unfoldable pub send_event : Alarms F → Event F → Option (Alarms F)
  send_event st event =
      let st' = record st { last_events = insert event.id event st.last_events } in
      if marshals event
      then (priority event >>= λ p. some (record st' { pushed = (p, event) ∷ st'.pushed }))
      else some st'

  -- The last event is a problem: whether to raise the next one.
  unfoldable pub send_again :
      Alarms F → List (HistoryData F) → ℤ → ℤ → Event F → ℤ → Event F → Option (Alarms F)
  unfolding send_event
  send_again st history_data now min_interval event max_step last =
      if leb_ℤ max_step last.current_step
      then some st
      else (last_of history_data >>= λ oldest.
          if leb_ℤ oldest.timestamp last.event_time
          then some st
          else if ltb_ℤ (sub64 now last.event_time) min_interval
          then some st
          else send_event st (record event { current_step = add64 last.current_step (pos 1) }))

  -- No last event, or one that says that all is well.
  unfoldable pub send_first : Alarms F → Event F → ℤ → Option (Alarms F)
  unfolding send_event
  send_first st event max_step =
      if int_eq max_step (pos 0)
      then some st
      else send_event st (record event { current_step = pos 1 })

  when_triggered :
      Alarms F → List (HistoryData F) → ℤ → ℤ → Event F → ℤ → Option (Event F) → Option (Alarms F)
  unfolding send_again send_first
  when_triggered st history_data now min_interval event max_step none = send_first st event max_step
  when_triggered st history_data now min_interval event max_step (some last) =
      status_byte last.status >>= λ b.
      if nat_eq b b'O'
      then send_first st event max_step
      else send_again st history_data now min_interval event max_step last

  when_quiet : Alarms F → Event F → Option (Event F) → Option (Alarms F)
  unfolding send_event
  when_quiet st event none = some st
  when_quiet st event (some last) = status_byte last.status >>= λ b.
      if nat_eq b b'P'
      then send_event st (record event { status = okay; current_step = pos 1 })
      else some st

  unfoldable pub send_event_if_need :
      Alarms F → List (HistoryData F) → Bool → ℤ → ℤ → Event F → ℤ → Option (Alarms F)
  unfolding when_triggered when_quiet
  send_event_if_need st history_data is_triggered now min_interval event max_step =
      let last_event = lookup event.id st.last_events in
      if is_triggered
      then when_triggered st history_data now min_interval (record event { status = problem })
          max_step last_event
      else when_quiet st event last_event
