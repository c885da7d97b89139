-- ===== src/Judge/Events/Invariant.antt =====
-- What holds of the last events and of the pushed ones at all times.
use open_falcon.Prelude.{
  ℕ, ◌+◌, ◌^◌, ◌∙◌, sym, subst, ◌<◌, ◌≡◌, ◌≢◌, refl, Bool, true, false, List, [], ◌∷◌, Option, none,
  some, arith, inl, inr, Bool-cases, Option-cases, if◌then◌else◌, All, eq_str,
}
use open_falcon.Prelude.Int.{ℤ, pos, negsuc, add64-pos, ◌≤ℤ◌, ◌<ℤ◌, add64, IsInt64}
use open_falcon.Prelude.Text.{Str}
use open_falcon.Prelude.Maps.{lookup, insert, All-insert, All-lookup}
use open_falcon.Float.{Float}
use open_falcon.Model.{Event, HistoryData, unset}
use open_falcon.Model.EventInfo
use open_falcon.Judge.Events.{Alarms, send_event, send_event_if_need, marshals}
use open_falcon.Judge.Events.Decision.{Transition, Decides, HasStatus, send_event_if_need-Decides}

-- Counting on from a step below `maxStep` stays within the ints.
next_step :
    (s m : ℤ)
    → pos 1 ≤ℤ s
    → s <ℤ m
    → IsInt64 m
    → (n : ℕ) × (s ≡ pos n) × (add64 s (pos 1) ≡ pos (n + 1)) × (n + 1 < 2 ^ 63)
next_step (pos n) m a b i = (n, refl, add64-pos n 1 (omega arith), omega arith)
next_step (negsuc n) m a b i = absurd (omega arith)

module _ {F : Type 0} ⦃fl : Float F⦄ where
  -- A last event stands under its own id, says whether there is a problem, and counts from one.
  abbrev pub IsSoundEntry : Str × Event F → Type 0
  IsSoundEntry (k, e) =
      (e.id ≡ k) × (e.status ≢ unset) × (pos 1 ≤ℤ e.current_step) × IsInt64 e.current_step

  abbrev pub IsSound : Alarms F → Type 0
  IsSound st = All IsSoundEntry st.last_events

  -- Some rule raised the event: the pointer to a strategy or to an expression is set.
  abbrev pub HasRule : Event F → Type 0
  HasRule event = EventInfo.priority event ≢ none

  pub IsSound-HasStatus :
      (st : Alarms F) (k : Str) → IsSound st → HasStatus (lookup k st.last_events)
  IsSound-HasStatus st k s = by_lookup (lookup k st.last_events) refl
    where
      by_lookup : (o : Option (Event F)) → lookup k st.last_events ≡ o → HasStatus o
      by_lookup none e = tt
      by_lookup (some l) e = (All-lookup IsSoundEntry k l st.last_events s e).1

  -- The state after an event was recorded, and pushed if it could be encoded.
  abbrev pub recorded : Alarms F → Event F → ℤ → Alarms F
  recorded st ev p = record {
    last_events = insert ev.id ev st.last_events;
    pushed = if marshals ev then (p, ev) ∷ st.pushed else st.pushed;
  }

  pub send_event-recorded :
      (st : Alarms F) (ev : Event F)
      → HasRule ev
      → (p : ℤ) × (send_event st ev ≡ some (recorded st ev p))
  unfolding send_event
  send_event-recorded st ev r = elim (Option-cases (EventInfo.priority ev)) [
    | inl missing ↦ absurd (r missing)
    | inr (p, e) ↦ (
      p,
      rw e (elim (Bool-cases (marshals ev)) [ inl yes_ ↦ rw yes_ refl | inr no_ ↦ rw no_ refl ]),
    )
  ]

  module _ (history_data : List (HistoryData F)) (now min_interval : ℤ) (event : Event F)
      (max_step : ℤ) where
    Transition-IsSoundEntry :
        (triggered : Bool) (st : Alarms F) (ev : Event F)
        → IsSound st
        → IsInt64 max_step
        → Transition history_data now min_interval event max_step triggered
            (lookup event.id st.last_events)
            ev
        → IsSoundEntry (event.id, ev)
    Transition-IsSoundEntry false st ev s b (l, q, p, e) =
        rw e (refl, λ x. cc, omega arith, omega arith)
    Transition-IsSoundEntry true st ev s b (inl (c, m, e)) =
        rw e (refl, λ x. cc, omega arith, omega arith)
    Transition-IsSoundEntry true st ev s b (inr (l, o, q, p, a, u, f, g, e)) =
        let sound = All-lookup IsSoundEntry event.id l st.last_events s q in
        let (n, i, j, k) = next_step l.current_step max_step sound.2 a b in
        rw (e, j) (refl, λ x. cc, omega arith, omega arith)

    abbrev pub IsSame : Event F → Type 0
    IsSame ev =
        (ev.id ≡ event.id)
        × (EventInfo.priority ev ≡ EventInfo.priority event)
        × (marshals ev ≡ marshals event)

    -- The event of a transition is that of the call but for its status and its step.
    pub Transition-IsSame :
        (triggered : Bool) (last : Option (Event F)) (ev : Event F)
        → Transition history_data now min_interval event max_step triggered last ev
        → IsSame ev
    unfolding EventInfo.priority EventInfo.right_value
    Transition-IsSame false last ev (l, q, p, e) = subst IsSame (sym e) (refl, refl, refl)
    Transition-IsSame true last ev (inl (c, m, e)) = subst IsSame (sym e) (refl, refl, refl)
    Transition-IsSame true last ev (inr (l, o, q, p, a, u, f, g, e)) =
        subst IsSame (sym e) (refl, refl, refl)

    -- `sendEventIfNeed` with at least one point, for an event that a rule raised, neither panics nor
    -- spoils the last events: each stands under its own id, says whether there is a problem, and
    -- counts from one within the ints.
    pub send_event_if_need-IsSound :
        (triggered : Bool) (st : Alarms F)
        → IsSound st
        → history_data ≢ []
        → HasRule event
        → IsInt64 max_step
        → (st' : Alarms F) × (send_event_if_need st history_data triggered now min_interval event
              max_step
            ≡ some st')
          × IsSound st'
    send_event_if_need-IsSound triggered st s n r b = from (
        send_event_if_need-Decides history_data now min_interval event max_step triggered st
          (IsSound-HasStatus st event.id s) n)
      where
        from :
            Decides history_data now min_interval event max_step triggered st
              (lookup event.id st.last_events)
              (send_event_if_need st history_data triggered now min_interval event max_step)
            → (st' : Alarms F) × (send_event_if_need st history_data triggered now min_interval
                  event max_step
                ≡ some st')
              × IsSound st'
        from (inl (same, _)) = (st, same, s)
        from (inr (ev, t, sent)) =
            let i = Transition-IsSoundEntry triggered st ev s b t in
            let (p, rec) = send_event-recorded st ev (λ q.
              r (sym (Transition-IsSame triggered (lookup event.id st.last_events) ev t).1 ∙ q)) in
            (
              recorded st ev p,
              sent ∙ rec,
              All-insert IsSoundEntry ev.id ev st.last_events s (refl, i.1, i.2, i.3),
            )
