-- ===== src/Nodata/Pace.antt =====
-- How often a counter that stays away gets a mock.
use open_falcon.Prelude.{
  ℕ, suc, ◌+◌, ◌^◌, ◌≤◌, ◌<◌, ◌≡◌, refl, sym, ap, ◌∙◌, subst, ◌&&◌, List, [], ◌∷◌, Option, none,
  some, arith, length, if◌then◌else◌, ltb, ◌==◌, eq_str, inl, inr, Bool-cases, list_eq_iff,
}
use open_falcon.Prelude.Int.{pos, ◌≤ℤ◌, add64, add64-pos}
use open_falcon.Container.{SafeMap}
use open_falcon.Prelude.Text.{Str}
use open_falcon.Float.{Float}
use open_falcon.Nodata.{NodataStatus, NodataConfig, DataItem, Mock, last_ts, judge_key}
use open_falcon.Nodata.Verdict.{Outcome, last_ts-turn_ok, last_ts-turn_nodata, judge_key-Outcome}

-- Each time is at least a step after the one behind it.
abbrev pub IsSpaced : ℕ → List ℕ → Type 0
IsSpaced step [] = Unit {0}
IsSpaced step (t ∷ []) = Unit {0}
IsSpaced step (t ∷ u ∷ rest) = (u + step ≤ t) × IsSpaced step (u ∷ rest)

-- The times at which a key got a mock, after a round for `k` at `now`.
abbrev pub announced : Str → Str → ℕ → ℕ → ℕ → List ℕ → List ℕ
announced key k now before after times = if k == key && ltb before after then now ∷ times else times

announced-same : (key k : Str) (now n : ℕ) (times : List ℕ) → announced key k now n n times ≡ times
announced-same key k now n times = ground arith

abbrev IsAfter : List ℕ → ℕ → Type 0
IsAfter [] l = Unit {0}
IsAfter (t ∷ rest) l = t ≤ l

IsSpaced-cons :
    (step t l : ℕ) (times : List ℕ)
    → IsAfter times l
    → l + step ≤ t
    → IsSpaced step times
    → IsSpaced step (t ∷ times)
IsSpaced-cons step t l [] a b s = tt
IsSpaced-cons step t l (u ∷ rest) a b s = (omega arith, s)

IsAfter-le : (times : List ℕ) (l n : ℕ) → IsAfter times l → l ≤ n → IsAfter times n
IsAfter-le [] l n a b = tt
IsAfter-le (t ∷ rest) l n a b = omega arith

announced-more :
    (key k : Str) (now n : ℕ) (times : List ℕ)
    → announced key k now n (suc n) times ≡ (if k == key then now ∷ times else times)
announced-more key k now n times = ground arith

module _ {M : Type 0} (sm : SafeMap NodataStatus M) (key : Str) (step : ℕ) where
  record Knows (clock : ℕ) (m : M) (times : List ℕ) : Type 0 where
    last : ℕ
    seen : last_ts sm key m ≡ pos last
    past : last ≤ clock
    after : IsAfter times last
    spaced : IsSpaced step times

  -- A verdict at `now` that is no mock of the key.
  verdict-Knows :
      (clock now : ℕ) (k : Str) (m m' : M) (times : List ℕ)
      → Knows clock m times
      → clock ≤ now
      → last_ts sm key m' ≡ (if k == key then pos now else last_ts sm key m)
      → Knows now m' times
  verdict-Knows clock now k m m' times h c e = elim (Bool-cases (k == key)) [
    | inl same ↦ record {
      last = now;
      seen = rw same at e;
      past = omega arith;
      after = IsAfter-le times h.last now h.after (omega (arith, h.past));
      spaced = h.spaced;
    }
    | inr other ↦ record {
      last = h.last;
      seen = (rw other at e) ∙ h.seen;
      past = omega (arith, h.past);
      after = h.after;
      spaced = h.spaced;
    }
  ]

  -- A mock of the key at `now`.
  mock-Knows :
      (clock now : ℕ) (m m' : M) (times : List ℕ) (h : Knows clock m times)
      → clock ≤ now
      → h.last + step ≤ now
      → last_ts sm key m' ≡ pos now
      → Knows now m' (now ∷ times)
  mock-Knows clock now m m' times h c b e = record {
    last = now;
    seen = e;
    past = omega arith;
    after = omega arith;
    spaced = IsSpaced-cons step now h.last times h.after b h.spaced;
  }

module _ (F : Type 0) {M : Type 0} ⦃fl : Float F⦄ (sm : SafeMap NodataStatus M) (key : Str)
    (step : ℕ) where
  -- Rounds one after the other, for any keys, on a clock that does not go back; with the last time, the
  -- statuses, and the times at which `key` got a mock. Whenever the key has a configuration, its step
  -- is `step`.
  pub data Rounds : ℕ → M → List ℕ → Type 0 where
    start : {m : M} → sm.get key m ≡ none → Rounds 0 m []
    round :
        {clock : ℕ} {m : M} {times : List ℕ} (now : ℕ)
        (get_nd_config : Str → Option (NodataConfig F)) (get_first_item : Str → Option (DataItem F))
        (k : Str) (mocks : List (Mock F)) (r : M × List (Mock F))
        → Rounds clock m times
        → clock ≤ now
        → now + step < 2 ^ 63
        → ((c : NodataConfig F) → get_nd_config key ≡ some c → c.step ≡ pos step)
        → judge_key sm get_nd_config get_first_item (pos now) k (m, mocks) ≡ r
        → Rounds now r.0 (announced key k now (length mocks) (length r.1) times)

  round-Knows :
      (clock : ℕ) (m : M) (times : List ℕ) (now : ℕ) (get_nd_config : Str → Option (NodataConfig F))
      (get_first_item : Str → Option (DataItem F)) (k : Str) (mocks : List (Mock F))
      (r : M × List (Mock F))
      → Knows sm key step clock m times
      → clock ≤ now
      → now + step < 2 ^ 63
      → ((c : NodataConfig F) → get_nd_config key ≡ some c → c.step ≡ pos step)
      → Outcome sm get_nd_config get_first_item (pos now) k m mocks r
      → Knows sm key step now r.0 (announced key k now (length mocks) (length r.1) times)
  round-Knows clock m times now cfg item k mocks r h c b f (inl e) =
      subst (λ x. Knows sm key step now x.0 (announced key k now (length mocks) (length x.1) times))
        (sym e)
        (rw (announced-same key k now (length mocks) times) (record {
          last = h.last;
          seen = h.seen;
          past = omega (arith, h.past);
          after = h.after;
          spaced = h.spaced;
        }))
  round-Knows clock m times now cfg item k mocks r h c b f (inr (inl e)) =
      subst (λ x. Knows sm key step now x.0 (announced key k now (length mocks) (length x.1) times))
        (sym e)
        (rw (announced-same key k now (length mocks) times) (
          verdict-Knows sm key step clock now k m _ times h c
            (last_ts-turn_ok sm k key (pos now) m)))
  round-Knows clock m times now cfg item k mocks r h c b f (inr (inr (cf, e, late, q))) =
      subst (λ x. Knows sm key step now x.0 (announced key k now (length mocks) (length x.1) times))
        (sym q)
        (elim (Bool-cases (k == key)) [
          | inl same ↦
              let i = (list_eq_iff k key).0 same in
              let early : add64 (pos h.last) (pos step) ≤ℤ pos now =
                subst (λ x. add64 (pos h.last) x ≤ℤ pos now)
                  (f cf (subst (λ x. cfg x ≡ some cf) i e))
                  (subst (λ x. add64 x cf.step ≤ℤ pos now) (ap (λ x. last_ts sm x m) i ∙ h.seen)
                    late) in
              let in_range : pos (h.last + step) ≤ℤ pos now =
                subst (λ x. x ≤ℤ pos now) (add64-pos h.last step (omega (arith, h.past))) early in
              rw (announced-more key k now (length mocks) times, same)
                (mock-Knows sm key step clock now m _ times h c (omega (arith, in_range)) (
                  last_ts-turn_nodata sm k key (pos now) m
                  ∙ ap (λ x. if x then pos now else last_ts sm key m) same))
          | inr other ↦
              rw (announced-more key k now (length mocks) times, other)
                (verdict-Knows sm key step clock now k m _ times h c
                  (last_ts-turn_nodata sm k key (pos now) m))
        ])

  Rounds-Knows :
      {clock : ℕ} {m : M} {times : List ℕ} → Rounds clock m times → Knows sm key step clock m times
  unfolding last_ts
  Rounds-Knows (start e) = record {
    last = 0;
    seen = rw (e, last_ts) refl;
    past = omega arith;
    after = tt;
    spaced = tt;
  }
  Rounds-Knows (round {clock} {m} {times} now cfg item k mocks r before c b f e) =
      round-Knows clock m times now cfg item k mocks r (Rounds-Knows before) c b f (
        subst (Outcome sm cfg item (pos now) k m mocks) e
          (judge_key-Outcome sm cfg item (pos now) k m mocks))

  -- In every run of rounds from no status of the key on, on a clock that does not go back and stays
  -- within the ints, a key whose configuration has always the same step gets its mocks at times that
  -- are at least a step apart.
  pub Rounds-IsSpaced :
      {clock : ℕ} {m : M} {times : List ℕ} → Rounds clock m times → IsSpaced step times
  Rounds-IsSpaced r = (Rounds-Knows r).spaced
