-- ===== src/Tests/Alarms.antt =====
-- One alarm from its first event to its end, and witnesses of what is proved of alarms.
use open_falcon.Prelude.{ℕ, ◌≤◌, ◌≡◌, refl, true, false, List, [], ◌∷◌, none, some, arith}
use open_falcon.Prelude.Int.{ℤ, pos, wrap64, ◌-ℤ◌}
use open_falcon.Prelude.Text.{Str, str}
use open_falcon.Float.{fixed_point}
use open_falcon.Model.{Event, unset, problem, okay}
use open_falcon.Model.EventInfo.{priority, right_value}
use open_falcon.Judge.Events.{Alarms, send_event, send_again, send_first, send_event_if_need}
use open_falcon.Judge.Events.Decision.{Decides, send_event_if_need-Decides}
use open_falcon.Judge.Events.Invariant.{HasRule}
use open_falcon.Judge.Events.Protocol.{Reach, start, call, IsProtocol, streak, Reach-IsProtocol}
use open_falcon.Tests.{whole, datum, strategy}

abbrev calm : Alarms ℤ
calm = record { last_events = []; pushed = [] }

abbrev event : ℕ → Event ℤ
event t = record {
  id = str "s_5_x";
  strategy = some strategy;
  expression = none;
  status = unset;
  endpoint = str "web1";
  left_value = whole 7;
  current_step = pos 0;
  event_time = pos t;
  pushed_tags = [];
}

abbrev raised : ℕ → ℕ → Event ℤ
raised t n = record (event t) { status = problem; current_step = pos n }

abbrev over : ℕ → Event ℤ
over t = record (event t) { status = okay; current_step = pos 1 }

abbrev after : Event ℤ → List (ℤ × Event ℤ) → Alarms ℤ
after e pushed = record { last_events = (str "s_5_x", e) ∷ []; pushed = (pos 1, e) ∷ pushed }

event-HasRule : (t : ℕ) → HasRule (event t)
unfolding priority
event-HasRule t q = cc

first_call :
    send_event_if_need calm (datum 60 7 ∷ []) true (pos 61) (pos 300) (event 60) (pos 2)
    ≡ some (after (raised 60 1) [])
unfolding send_event_if_need send_first send_event priority right_value
first_call = refl

-- Too early for the second event, then in time for it.
early_call :
    send_event_if_need
      (after (raised 60 1) [])
      (datum 120 7 ∷ [])
      true
      (pos 121)
      (pos 300)
      (event 120)
      (pos 2)
    ≡ some (after (raised 60 1) [])
unfolding send_event_if_need send_again wrap64 ◌-ℤ◌
early_call = refl

last_call :
    send_event_if_need
      (after (raised 60 1) [])
      (datum 420 2 ∷ [])
      false
      (pos 421)
      (pos 300)
      (event 420)
      (pos 2)
    ≡ some (after (over 420) ((pos 1, raised 60 1) ∷ []))
unfolding send_event_if_need send_event priority right_value
last_call = refl

send_event_if_need-Decides_example :
    Decides
      (datum 420 7 ∷ [])
      (pos 421)
      (pos 300)
      (event 420)
      (pos 2)
      true
      (after (raised 60 1) [])
      (some (raised 60 1))
      (send_event_if_need
        (after (raised 60 1) [])
        (datum 420 7 ∷ [])
        true
        (pos 421)
        (pos 300)
        (event 420)
        (pos 2))
send_event_if_need-Decides_example =
    send_event_if_need-Decides (datum 420 7 ∷ []) (pos 421) (pos 300) (event 420) (pos 2) true
      (after (raised 60 1) []) (λ e. cc) (λ e. cc)

abbrev limits : Str → ℤ
limits id = pos 2

two_calls : Reach (pos 300) limits (after (over 420) ((pos 1, raised 60 1) ∷ []))
unfolding right_value
two_calls =
    call (datum 420 2 ∷ []) false (pos 421) (event 420)
      (call (datum 60 7 ∷ []) true (pos 61) (event 60) start (λ e. cc) (event-HasRule 60) refl
        first_call)
      (λ e. cc) (event-HasRule 420) refl last_call

Reach-IsProtocol_example :
    IsProtocol 2 (str "s_5_x") ((pos 1, over 420) ∷ (pos 1, raised 60 1) ∷ [])
    × (streak (str "s_5_x") ((pos 1, over 420) ∷ (pos 1, raised 60 1) ∷ []) ≤ 2)
Reach-IsProtocol_example =
    Reach-IsProtocol (pos 300) limits (λ id. omega arith) two_calls (str "s_5_x")
