-- ===== src/Judge/Events/Decision.antt =====
-- When `sendEventIfNeed` raises an event: the transitions of the alarm of one counter under one
-- rule.
use open_falcon.Prelude.{
  ◌≡◌, ◌≢◌, refl, subst, Bool, true, false, List, Option, none, some, arith, ◌⊎◌, inl, inr,
  Bool-cases, eq_str, [], ◌∷◌, suc, ◌-◌, length, get_elem?_in_range,
}
use open_falcon.Prelude.Int.{ℤ, pos, ◌≤ℤ◌, ◌<ℤ◌, add64, sub64, leb_ℤ, ltb_ℤ, int_eq}
use open_falcon.Prelude.Maps.{lookup}
use open_falcon.Float.{Float}
use open_falcon.Model.{Event, HistoryData, Status, unset, problem, okay}
use open_falcon.Judge.Events.{
  Alarms, last_of, send_event, send_again, send_first, when_triggered, when_quiet,
  send_event_if_need,
}

last_of-nonempty : {A : Type 0} (xs : List A) → xs ≢ [] → (x : A) × (last_of xs ≡ some x)
last_of-nonempty [] h = absurd (h refl)
last_of-nonempty (x ∷ xs) h = get_elem?_in_range (x ∷ xs) (suc (length xs) - 1) (omega arith)

-- A last event has a status, as every event that is raised does.
abbrev pub HasStatus : {F : Type 0} → Option (Event F) → Type 0
HasStatus none = Unit {0}
HasStatus (some l) = l.status ≢ unset

module _ {F : Type 0} (history_data : List (HistoryData F)) (now min_interval : ℤ) (event : Event F)
    (max_step : ℤ) where
  -- Nothing was wrong before, and the rule is not muted: the first event of a problem.
  abbrev pub Opens : Option (Event F) → Event F → Type 0
  Opens last ev =
      ((last ≡ none) ⊎ ((l : Event F) × (last ≡ some l) × (l.status ≡ okay)))
      × (max_step ≢ pos 0)
      × (ev ≡ record event { status = problem; current_step = pos 1 })

  -- The problem goes on, was announced fewer than `maxStep` times, all points of the decision are
  -- newer than the last event, and that is at least the minimal interval ago.
  abbrev pub Repeats : Option (Event F) → Event F → Type 0
  Repeats last ev =
      (l : Event F) × (oldest : HistoryData F) × (last ≡ some l)
      × (l.status ≡ problem)
      × (l.current_step <ℤ max_step)
      × (last_of history_data ≡ some oldest)
      × (l.event_time <ℤ oldest.timestamp)
      × (min_interval ≤ℤ sub64 now l.event_time)
      × (ev ≡ record event { status = problem; current_step = add64 l.current_step (pos 1) })

  -- The problem is over.
  abbrev pub Closes : Option (Event F) → Event F → Type 0
  Closes last ev =
      (l : Event F) × (last ≡ some l)
      × (l.status ≡ problem)
      × (ev ≡ record event { status = okay; current_step = pos 1 })

  abbrev pub Transition : Bool → Option (Event F) → Event F → Type 0
  Transition true last ev = Opens last ev ⊎ Repeats last ev
  Transition false last ev = Closes last ev

module _ {F : Type 0} ⦃fl : Float F⦄ (history_data : List (HistoryData F)) (now min_interval : ℤ)
    (event : Event F) (max_step : ℤ) where
  -- A call either raises the event of a transition, or there is no transition and nothing changes.
  abbrev pub Decides : Bool → Alarms F → Option (Event F) → Option (Alarms F) → Type 0
  Decides triggered st last result =
      ((result ≡ some st)
        × ((ev : Event F)
            → ¬ Transition history_data now min_interval event max_step triggered last ev))
      ⊎ ((ev : Event F) × Transition history_data now min_interval event max_step triggered last ev
          × (result ≡ send_event st ev))

  opened : Event F
  opened = record event { status = problem; current_step = pos 1 }

  send_first-Decides :
      (st : Alarms F) (last : Option (Event F))
      → ((last ≡ none) ⊎ ((l : Event F) × (last ≡ some l) × (l.status ≡ okay)))
      → Decides true st last (send_first st (record event { status = problem }) max_step)
  unfolding send_first
  send_first-Decides st last clear = elim (Bool-cases (int_eq max_step (pos 0))) [
    | inl muted ↦ rw muted (inl (refl, λ ev t. ground arith))
    | inr heard ↦ rw heard (inr (_, inl (clear, ground arith, refl), refl))
  ]

  send_again-Decides :
      (st : Alarms F) (l : Event F) (oldest : HistoryData F)
      → l.status ≡ problem
      → last_of history_data ≡ some oldest
      → Decides true st (some l) (
          send_again st history_data now min_interval
            (record event { status = problem })
            max_step
            l)
  unfolding send_again
  send_again-Decides st l oldest p o = elim (Bool-cases (leb_ℤ max_step l.current_step)) [
    | inl spent ↦ rw spent (inl (refl, λ ev t. ground arith))
    | inr more ↦
        rw (more, o)
          (elim (Bool-cases (leb_ℤ oldest.timestamp l.event_time)) [
            | inl used ↦ rw used (inl (refl, λ ev t. ground arith))
            | inr fresh ↦
                rw fresh (elim (Bool-cases (ltb_ℤ (sub64 now l.event_time) min_interval)) [
                  | inl early ↦ rw early (inl (refl, λ ev t. ground arith))
                  | inr due ↦ rw due (
                      inr (
                        _,
                        inr (
                          l,
                          oldest,
                          refl,
                          p,
                          ground arith,
                          refl,
                          ground arith,
                          ground arith,
                          refl,
                        ),
                        refl,
                      ))
                ])
          ])
  ]

  quiet-Decides :
      (st : Alarms F) (last : Option (Event F))
      → HasStatus last
      → Decides false st last (when_quiet st event last)
  unfolding when_quiet
  quiet-Decides st none h = inl (refl, λ ev t. ground arith)
  quiet-Decides st (some l) h = by_status l.status refl
    where
      by_status :
          (s : Status) → l.status ≡ s → Decides false st (some l) (when_quiet st event (some l))
      by_status unset e = absurd (h e)
      by_status problem e =
          inr
            (record event { status = okay; current_step = pos 1 }, (l, refl, e, refl), ground arith)
      by_status okay e = inl (ground arith, λ ev t. ground arith)

  when_triggered-problem :
      (st : Alarms F) (l : Event F)
      → l.status ≡ problem
      → send_again st history_data now min_interval (record event { status = problem }) max_step l
        ≡ when_triggered st history_data now min_interval
            (record event { status = problem })
            max_step
            (some l)
  unfolding when_triggered
  when_triggered-problem st l e = ground arith

  when_triggered-okay :
      (st : Alarms F) (l : Event F)
      → l.status ≡ okay
      → send_first st (record event { status = problem }) max_step
        ≡ when_triggered st history_data now min_interval
            (record event { status = problem })
            max_step
            (some l)
  unfolding when_triggered
  when_triggered-okay st l e = ground arith

  triggered-Decides :
      (st : Alarms F) (last : Option (Event F)) (oldest : HistoryData F)
      → HasStatus last
      → last_of history_data ≡ some oldest
      → Decides true st last (
          when_triggered st history_data now min_interval
            (record event { status = problem })
            max_step
            last)
  unfolding when_triggered
  triggered-Decides st none oldest h o = send_first-Decides st none (inl refl)
  triggered-Decides st (some l) oldest h o = by_status l.status refl
    where
      by_status :
          (s : Status)
          → l.status ≡ s
          → Decides true st (some l) (
              when_triggered st history_data now min_interval
                (record event { status = problem })
                max_step
                (some l))
      by_status unset e = absurd (h e)
      by_status problem e =
          subst (Decides true st (some l)) (when_triggered-problem st l e)
            (send_again-Decides st l oldest e o)
      by_status okay e =
          subst (Decides true st (some l)) (when_triggered-okay st l e)
            (send_first-Decides st (some l) (inr (l, refl, e)))

  -- With at least one point, and a last event that has a status if there is one, `sendEventIfNeed`
  -- does not panic before it sends. It sends the event of a transition, the first one of a
  -- problem, the next one of a problem that goes on, or the one that ends it; or there is no
  -- transition, and it changes nothing.
  pub send_event_if_need-Decides :
      (triggered : Bool) (st : Alarms F)
      → HasStatus (lookup event.id st.last_events)
      → history_data ≢ []
      → Decides triggered st
          (lookup event.id st.last_events)
          (send_event_if_need st history_data triggered now min_interval event max_step)
  unfolding send_event_if_need
  send_event_if_need-Decides false st h n = quiet-Decides st (lookup event.id st.last_events) h
  send_event_if_need-Decides true st h n =
      let (oldest, o) = last_of-nonempty history_data n in
      triggered-Decides st (lookup event.id st.last_events) oldest h o
