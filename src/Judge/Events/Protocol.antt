-- ===== src/Judge/Events/Protocol.antt =====
-- What is announced for one counter under one rule, over any history of calls.
use open_falcon.Prelude.{
  ℕ, suc, ◌^◌, ◌≤◌, ◌<◌, ◌≡◌, ◌≢◌, refl, sym, subst, ◌∙◌, Bool, true, false, List, [], ◌∷◌, Option,
  none, some, arith, ◌⊎◌, inl, inr, Bool-cases, if◌then◌else◌, ◌==◌, eq_str, list_eq_iff,
}
use open_falcon.Prelude.Int.{ℤ, pos, negsuc, add64-pos, ◌<ℤ◌}
use open_falcon.Prelude.Text.{Str}
use open_falcon.Prelude.Maps.{lookup, lookup-insert}
use open_falcon.Float.{Float}
use open_falcon.Model.{Event, HistoryData, Status, unset, problem, okay}
use open_falcon.Judge.Events.{Alarms, send_event_if_need, marshals}
use open_falcon.Judge.Events.Decision.{Transition, Decides, HasStatus, send_event_if_need-Decides}
use open_falcon.Judge.Events.Invariant.{HasRule, recorded, send_event-recorded, Transition-IsSame}

-- The number of problem events in a row after one more event.
abbrev pub streak_after : Status → ℕ → ℕ
streak_after problem n = suc n
streak_after okay n = 0
streak_after unset n = 0

-- How many problem events in a row a `maxStep` lets through: a negative one does not mute a rule, as 0
-- does, and lets the first one through.
abbrev pub room_of : ℤ → ℕ
room_of (pos n) = n
room_of (negsuc n) = 1

room_of-first : (max_step : ℤ) → max_step ≢ pos 0 → 1 ≤ room_of max_step
room_of-first (pos n) h = ground (arith, h)
room_of-first (negsuc n) h = omega arith

room_of-next : (max_step : ℤ) (n : ℕ) → pos n <ℤ max_step → suc n ≤ room_of max_step
room_of-next (pos k) n h = omega (arith, h)
room_of-next (negsuc k) n h = absurd (omega (arith, h))

-- What may follow after `n` problem events in a row: the next one with the number `n + 1`, at most
-- the limit, or after at least one the end of the problem.
abbrev pub MayFollow : ℕ → ℕ → Status → ℤ → Type 0
MayFollow limit n problem step = (step ≡ pos (suc n)) × (suc n ≤ limit)
MayFollow limit n okay step = 0 < n
MayFollow limit n unset step = ⊥

abbrev pub WhenSame : Bool → Type 0 → Type 0
WhenSame true P = P
WhenSame false P = Unit {0}

some-inj : {A : Type 0} {x y : A} → some x ≡ some y → x ≡ y
some-inj h = cc h

module _ {F : Type 0} where
  -- How many problem events in a row were pushed under an id, up to now.
  abbrev pub streak : Str → List (ℤ × Event F) → ℕ
  streak id [] = 0
  streak id ((p, e) ∷ rest) =
      if e.id == id then streak_after e.status (streak id rest) else streak id rest

  -- The events pushed under an id, the latest first, keep to this order.
  abbrev pub IsProtocol : ℕ → Str → List (ℤ × Event F) → Type 0
  IsProtocol limit id [] = Unit {0}
  IsProtocol limit id ((p, e) ∷ rest) =
      WhenSame (e.id == id) (MayFollow limit (streak id rest) e.status e.current_step)
      × IsProtocol limit id rest

  -- The last event knows the streak.
  abbrev Knows : Option (Event F) → ℕ → Type 0
  Knows none n = n ≡ 0
  Knows (some l) n =
      (l.status ≢ unset)
      × (l.status ≡ okay → n ≡ 0)
      × (l.status ≡ problem → (l.current_step ≡ pos n) × (0 < n))

  record IsKept (limit : ℕ) (id : Str) (st : Alarms F) : Type 0 where
    known : Knows (lookup id st.last_events) (streak id st.pushed)
    protocol : IsProtocol limit id st.pushed
    within : streak id st.pushed ≤ limit

  Knows-problem :
      (last : Option (Event F)) (n : ℕ) (l : Event F)
      → Knows last n
      → last ≡ some l
      → l.status ≡ problem
      → (l.current_step ≡ pos n) × (0 < n)
  Knows-problem last n l k q p = (subst (λ o. Knows o n) q k).2 p

  Knows-clear :
      (last : Option (Event F)) (n : ℕ)
      → Knows last n
      → ((last ≡ none) ⊎ ((l : Event F) × (last ≡ some l) × (l.status ≡ okay)))
      → n ≡ 0
  Knows-clear last n k (inl q) = subst (λ o. Knows o n) q k
  Knows-clear last n k (inr (l, q, p)) = (subst (λ o. Knows o n) q k).1 p

  Transition-Knows :
      (history_data : List (HistoryData F)) (now min_interval : ℤ) (event : Event F) (max_step : ℤ)
      (n : ℕ) (triggered : Bool) (last : Option (Event F)) (ev : Event F)
      → room_of max_step < 2 ^ 63
      → Knows last n
      → n ≤ room_of max_step
      → Transition history_data now min_interval event max_step triggered last ev
      → MayFollow (room_of max_step) n ev.status ev.current_step
        × Knows (some ev) (streak_after ev.status n)
        × (streak_after ev.status n ≤ room_of max_step)
  Transition-Knows history_data now min_interval event max_step n false last ev b k w (l, q, p, e) =
      let known = Knows-problem last n l k q p in rw e (ground (arith, known))
  Transition-Knows history_data now min_interval event max_step n true last ev b k w
        (inl (c, m, e)) =
      let first = room_of-first max_step m in
      let zero_there = Knows-clear last n k c in rw e (ground (arith, zero_there, first))
  Transition-Knows history_data now min_interval event max_step n true last ev b k w
        (inr (l, o, q, p, a, u, f, g, e)) =
      let known = Knows-problem last n l k q p in
      let next = room_of-next max_step n (subst (λ x. x <ℤ max_step) known.0 a) in
      rw e (ground (arith, known, next, add64-pos n 1))

module _ {F : Type 0} ⦃fl : Float F⦄ (min_interval : ℤ) (limits : Str → ℤ) where
  -- The histories: calls of `sendEventIfNeed` one after the other, for events that a rule raised and
  -- JSON can hold, each with at least one point. An id has its `maxStep` once and for all.
  pub data Reach : Alarms F → Type 0 where
    start : Reach (record { last_events = []; pushed = [] })
    call :
        {st st' : Alarms F} (history_data : List (HistoryData F)) (triggered : Bool) (now : ℤ)
        (event : Event F)
        → Reach st
        → history_data ≢ []
        → HasRule event
        → marshals event ≡ true
        → send_event_if_need st history_data triggered now min_interval event (limits event.id)
          ≡ some st'
        → Reach st'

  -- One event more.
  recorded-IsKept :
      (limit : ℕ) (id : Str) (st : Alarms F) (ev : Event F) (p : ℤ)
      → IsKept limit id st
      → marshals ev ≡ true
      → (ev.id ≡ id
          → MayFollow limit (streak id st.pushed) ev.status ev.current_step
            × Knows (some ev) (streak_after ev.status (streak id st.pushed))
            × (streak_after ev.status (streak id st.pushed) ≤ limit))
      → IsKept limit id (recorded st ev p)
  recorded-IsKept limit id st ev p k m f = rw m (elim (Bool-cases (ev.id == id)) [
    | inl same ↦
        let (a, b, c) = f ((list_eq_iff ev.id id).0 same) in
        record {
          known = rw (lookup-insert ev.id id ev st.last_events, same) b;
          protocol = rw same (a, k.protocol);
          within = rw same c;
        }
    | inr other ↦ record {
      known = rw (lookup-insert ev.id id ev st.last_events, other) k.known;
      protocol = rw other (tt, k.protocol);
      within = rw other k.within;
    }
  ])

  Knows-HasStatus : (last : Option (Event F)) (n : ℕ) → Knows last n → HasStatus last
  Knows-HasStatus none n k = tt
  Knows-HasStatus (some l) n k = k.0

  module _ (small : (id : Str) → room_of (limits id) < 2 ^ 63) where
    call-IsKept :
        (st st' : Alarms F) (history_data : List (HistoryData F)) (triggered : Bool) (now : ℤ)
        (event : Event F)
        → ((id : Str) → IsKept (room_of (limits id)) id st)
        → history_data ≢ []
        → HasRule event
        → marshals event ≡ true
        → send_event_if_need st history_data triggered now min_interval event (limits event.id)
          ≡ some st'
        → (id : Str) → IsKept (room_of (limits id)) id st'
    call-IsKept st st' history_data triggered now event k n r m sent id = from (
        send_event_if_need-Decides history_data now min_interval event (limits event.id) triggered
          st (Knows-HasStatus _ _ (k event.id).known) n)
      where
        from :
            Decides history_data now min_interval event
              (limits event.id)
              triggered
              st
              (lookup event.id st.last_events)
              (send_event_if_need st history_data triggered now min_interval event
                (limits event.id))
            → IsKept (room_of (limits id)) id st'
        from (inl (same, _)) =
            subst (IsKept (room_of (limits id)) id) (some-inj (sym same ∙ sent)) (k id)
        from (inr (ev, t, rest)) =
            let same =
              Transition-IsSame history_data now min_interval event (limits event.id) triggered
                (lookup event.id st.last_events) ev t in
            let (p, rec) = send_event-recorded st ev (λ q. r (sym same.1 ∙ q)) in
            subst (IsKept (room_of (limits id)) id) (some-inj (sym (rest ∙ rec) ∙ sent)) (
              recorded-IsKept (room_of (limits id)) id st ev p (k id) (same.2 ∙ m) λ e.
                subst
                  (λ i.
                    MayFollow (room_of (limits i)) (streak i st.pushed) ev.status ev.current_step
                    × Knows (some ev) (streak_after ev.status (streak i st.pushed))
                    × (streak_after ev.status (streak i st.pushed) ≤ room_of (limits i)))
                  (sym same.0 ∙ e)
                  (Transition-Knows history_data now min_interval event (limits event.id)
                    (streak event.id st.pushed) triggered (lookup event.id st.last_events) ev
                    (small event.id) (k event.id).known (k event.id).within t))

    Reach-IsKept : {st : Alarms F} → Reach st → (id : Str) → IsKept (room_of (limits id)) id st
    Reach-IsKept start id = record { known = refl; protocol = tt; within = omega arith }
    Reach-IsKept (call {st = st} {st' = st'} history_data triggered now event before n r m sent)
          id =
        call-IsKept st st' history_data triggered now event (Reach-IsKept before) n r m sent id

    -- In every history of calls of sendEventIfNeed, from no events on, for events that a rule raised and
    -- JSON can hold, each with at least one point and with one maxStep for each id, the events pushed
    -- under one id keep to the protocol: problem events are numbered from 1 without a gap, up to maxStep
    -- at most where it is not negative and up to 1 where it is; an event that ends the problem comes only
    -- after at least one of them, and after it the numbers begin again. The maxStep are below 2^63.
    pub Reach-IsProtocol :
        {st : Alarms F}
        → Reach st
        → (id : Str)
        → IsProtocol (room_of (limits id)) id st.pushed
          × (streak id st.pushed ≤ room_of (limits id))
    Reach-IsProtocol r id = ((Reach-IsKept r id).protocol, (Reach-IsKept r id).within)
