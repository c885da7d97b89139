-- ===== src/Transfer/Receiver/Valid.antt =====
-- What becomes of the values that the transfer receives.
use open_falcon.Prelude.{
  ℕ, ◌+◌, ◌*◌, ◌^◌, ◌≤◌, ◌<◌, ◌≡◌, ◌≢◌, refl, ap, false, not, ◌&&◌, ◌||◌, List, [], ◌∷◌, Option,
  none, some, arith, length, All, inl, inr, Bool-cases, Option-cases, ◌⊎◌, ◌==◌, eq_str,
  list_eq_iff,
}
use open_falcon.Prelude.Int.{ℤ, pos, negsuc, mul64, leb_ℤ, ltb_ℤ, wrap64-eq}
use open_falcon.Prelude.Text.{Str, str}
use open_falcon.Float.{Float}
use open_falcon.Transfer.{MetricValue, MetaData}
use open_falcon.Transfer.Receiver.{is_refused, time_of, value_of, meta_of, accept, recv_loop}
use open_falcon.Transfer.Sender.Converted.{IsCounterType}

-- A time after the epoch, and no later than twice now.
abbrev pub IsRecent : ℕ → ℤ → Type 0
IsRecent now ts = (t : ℕ) × (ts ≡ pos t) × (0 < t) × (t ≤ 2 * now)

time_of-IsRecent :
    (now : ℕ) (ts : ℤ) → 0 < now → 2 * now < 2 ^ 63 → IsRecent now (time_of (pos now) ts)
unfolding time_of
time_of-IsRecent now (negsuc t) a b = (now, ground arith, a, omega arith)
time_of-IsRecent now (pos t) a b =
    let twice : mul64 2 (pos now) ≡ pos (2 * now) = ground (arith, wrap64-eq (pos (2 * now))) in
    elim (Bool-cases (leb_ℤ (pos t) (pos 0) || ltb_ℤ (pos (2 * now)) (pos t))) [
      | inl replaced ↦ (now, rw (twice, replaced) refl, a, omega arith)
      | inr kept ↦ (t, rw (twice, kept) refl, ground (arith, kept), ground (arith, kept))
    ]

-- What holds of every item that is handed on.
pub record IsValid {F : Type 0} (now : ℕ) (item : MetaData F) : Type 0 where
  pub named : item.metric ≢ []
  pub placed : item.endpoint ≢ []
  pub typed : IsCounterType item.counter_type
  pub stepped : (step : ℕ) × (item.step ≡ pos step) × (0 < step)
  pub recent : IsRecent now item.timestamp

typed_of :
    (type : Str)
    → (not (type == str "COUNTER") && (not (type == str "GAUGE") && not (type == str "DERIVE")))
      ≡ false
    → IsCounterType type
typed_of type h = elim (Bool-cases (type == str "GAUGE")) [
  | inl gauge ↦ inl ((list_eq_iff type (str "GAUGE")).0 gauge)
  | inr not_gauge ↦ elim (Bool-cases (type == str "COUNTER")) [
    | inl counter ↦ inr (inl ((list_eq_iff type (str "COUNTER")).0 counter))
    | inr not_counter ↦
        inr (inr ((list_eq_iff type (str "DERIVE")).0 (ground (arith, h, not_gauge, not_counter))))
  ]
]

positive : (n : ℤ) → leb_ℤ n (pos 0) ≡ false → (k : ℕ) × (n ≡ pos k) × (0 < k)
positive (pos k) h = (k, refl, ground (arith, h))
positive (negsuc k) h = absurd (ground (arith, h))

module _ {F : Type 0} where
  not_refused :
      (v : MetricValue F)
      → is_refused v ≡ false
      → (v.metric ≢ [])
        × (v.endpoint ≢ [])
        × IsCounterType v.type
        × ((step : ℕ) × (v.step ≡ pos step) × (0 < step))
  unfolding is_refused
  not_refused v e =
      let unnamed : (v.metric == []) ≡ false = ground (arith, e) in
      let unplaced : (v.endpoint == []) ≡ false = ground (arith, e) in
      let stopped : leb_ℤ v.step (pos 0) ≡ false = ground (arith, e) in
      (
        (λ q. absurd (ground (arith, unnamed, ap (λ x. x == []) q))),
        (λ q. absurd (ground (arith, unplaced, ap (λ x. x == []) q))),
        typed_of v.type (ground (arith, e)),
        positive v.step stopped,
      )

module _ {F : Type 0} ⦃fl : Float F⦄ (parse_float : Str → Option F) (now : ℕ) where
  accept-IsValid :
      (o : Option (MetricValue F))
      → 0 < now
      → 2 * now < 2 ^ 63
      → (accept parse_float (pos now) o ≡ none)
        ⊎ ((item : MetaData F) × (accept parse_float (pos now) o ≡ some item) × IsValid now item)
  unfolding accept
  accept-IsValid none a b = inl refl
  accept-IsValid (some v) a b = elim (Bool-cases (is_refused v)) [
    | inl bad ↦ inl (rw bad refl)
    | inr good ↦ elim (Option-cases (value_of parse_float v.value)) [
      | inl no_value ↦ inl (rw (good, no_value) refl)
      | inr (vv, value) ↦
          let (named, placed, typed, stepped) = not_refused v good in
          inr (
            meta_of (pos now) v vv,
            rw (good, value) refl,
            record {
              named = named;
              placed = placed;
              typed = typed;
              stepped = stepped;
              recent = time_of-IsRecent now v.timestamp a b;
            },
          )
    ]
  ]

  -- The loop of RecvMetricValues: every value is either counted as invalid or handed on, and what is
  -- handed on has a metric, an endpoint, one of the three types, a positive step, and a time between the
  -- epoch and twice now.
  pub recv_loop-IsValid :
      (args : List (Option (MetricValue F)))
      → 0 < now
      → 2 * now < 2 ^ 63
      → (length (recv_loop parse_float (pos now) args).0 + (recv_loop parse_float (pos now) args).1
          ≡ length args)
        × All (IsValid now) (recv_loop parse_float (pos now) args).0
  unfolding recv_loop
  recv_loop-IsValid [] a b = (refl, tt)
  recv_loop-IsValid (v ∷ args) a b =
      let (l, h) = recv_loop-IsValid args a b in
      elim (accept-IsValid v a b) [
        | inl bad ↦ rw (bad, recv_loop) (omega (arith, l), h)
        | inr (item, good, valid) ↦ rw (good, recv_loop) (omega (arith, l), (valid, h))
      ]
