-- ===== src/Nodata/Verdict.antt =====
-- What one round of the judge does to a key.
use open_falcon.Prelude.{
  ◌≡◌, refl, sym, ap, ◌∙◌, subst, Bool, true, false, not, ◌||◌, List, ◌∷◌, Option, none, some,
  arith, if◌then◌else◌, ◌==◌, eq_str, ◌⊎◌, inl, inr, Bool-cases, Option-cases,
}
use open_falcon.Prelude.Int.{ℤ, pos, ◌≤ℤ◌, add64, sub64, leb_ℤ, ltb_ℤ, int_eq}
use open_falcon.Container.{SafeMap}
use open_falcon.Prelude.Text.{Str}
use open_falcon.Float.{Float}
use open_falcon.Nodata.{
  NodataStatus, NodataConfig, DataItem, Mock, is_okay, last_ts, turn_ok, turn_nodata, gen_ts,
  get_timeout, f_compare, gen_mock, time_out, judge_key,
}

module _ {M : Type 0} (sm : SafeMap NodataStatus M) where
  -- The time of the last verdict that an entry stands for.
  abbrev ts_of : Option NodataStatus → ℤ
  ts_of o = elim o [ some ns ↦ ns.ts | none ↦ pos 0 ]

  last_ts-put :
      (k key : Str) (ns : NodataStatus) (m : M)
      → last_ts sm key (sm.put k ns m) ≡ (if k == key then ns.ts else last_ts sm key m)
  unfolding last_ts
  last_ts-put k key ns m = elim (Bool-cases (k == key)) [
    | inl same ↦ rw same (
        ap ts_of (sm.get-put k key ns m)
        ∙ ap (λ b. ts_of (if b then some ns else sm.get key m)) same)
    | inr other ↦ rw other (
        ap ts_of (sm.get-put k key ns m)
        ∙ ap (λ b. ts_of (if b then some ns else sm.get key m)) other)
  ]

  turn_ok-put :
      (k : Str) (now : ℤ) (m : M)
      → (ns : NodataStatus) × (turn_ok sm k now m ≡ sm.put k ns m) × (ns.ts ≡ now)
  unfolding turn_ok
  turn_ok-put k now m = elim (Option-cases (sm.get k m)) [
    | inl e ↦ rw (e, turn_ok) (_, refl, refl)
    | inr (ns, e) ↦ rw (e, turn_ok) (_, refl, refl)
  ]

  turn_nodata-put :
      (k : Str) (now : ℤ) (m : M)
      → (ns : NodataStatus) × (turn_nodata sm k now m ≡ sm.put k ns m) × (ns.ts ≡ now)
  unfolding turn_nodata
  turn_nodata-put k now m = elim (Option-cases (sm.get k m)) [
    | inl e ↦ rw (e, turn_nodata) (_, refl, refl)
    | inr (ns, e) ↦ rw (e, turn_nodata) (_, refl, refl)
  ]

  pub last_ts-turn_ok :
      (k key : Str) (now : ℤ) (m : M)
      → last_ts sm key (turn_ok sm k now m) ≡ (if k == key then now else last_ts sm key m)
  last_ts-turn_ok k key now m =
      let (ns, e, t) = turn_ok-put k now m in
      ap (last_ts sm key) e
      ∙ (last_ts-put k key ns m ∙ ap (λ x. if k == key then x else last_ts sm key m) t)

  pub last_ts-turn_nodata :
      (k key : Str) (now : ℤ) (m : M)
      → last_ts sm key (turn_nodata sm k now m) ≡ (if k == key then now else last_ts sm key m)
  last_ts-turn_nodata k key now m =
      let (ns, e, t) = turn_nodata-put k now m in
      ap (last_ts sm key) e
      ∙ (last_ts-put k key ns m ∙ ap (λ x. if k == key then x else last_ts sm key m) t)

module _ {F M : Type 0} ⦃fl : Float F⦄ (sm : SafeMap NodataStatus M) where
  module _ (get_nd_config : Str → Option (NodataConfig F))
      (get_first_item : Str → Option (DataItem F)) (now : ℤ) where
    -- What a round can do: nothing, clear the status, or send a mock if the last verdict is at least a
    -- step ago.
    abbrev pub Outcome : Str → M → List (Mock F) → M × List (Mock F) → Type 0
    Outcome k m mocks r =
        (r ≡ (m, mocks))
        ⊎ (r ≡ (turn_ok sm k now m, mocks))
        ⊎ ((c : NodataConfig F) × (get_nd_config k ≡ some c)
            × (add64 (last_ts sm k m) c.step ≤ℤ now)
            × (r ≡ (turn_nodata sm k now m, gen_mock (gen_ts now c.step) k c ∷ mocks)))

    time_out-Outcome :
        (k : Str) (c : NodataConfig F) (m : M) (mocks : List (Mock F))
        → get_nd_config k ≡ some c
        → Outcome k m mocks (time_out sm get_nd_config get_first_item now k c (m, mocks))
    unfolding time_out
    time_out-Outcome k c m mocks e = elim (Bool-cases (leb_ℤ (add64 (last_ts sm k m) c.step) now)) [
      | inl late ↦ rw late (inr (inr (c, e, ground arith, refl)))
      | inr early ↦ rw early (inl refl)
    ]

    -- The tests of a round once the configuration and an item are found.
    abbrev settle : Str → M → List (Mock F) → NodataConfig F → DataItem F → M × List (Mock F)
    settle k m mocks c item =
        let oldest = sub64 now (get_timeout c.step) in
        if not (is_okay item.f_status) || ltb_ℤ item.f_ts oldest
        then (m, mocks)
        else if int_eq (f_compare c.mock item.value) (pos 0)
        then time_out sm get_nd_config get_first_item now k c (m, mocks)
        else if ltb_ℤ item.ts oldest
        then time_out sm get_nd_config get_first_item now k c (m, mocks)
        else (turn_ok sm k now m, mocks)

    judge_key-settle :
        (k : Str) (m : M) (mocks : List (Mock F)) (c : NodataConfig F) (item : DataItem F)
        → get_nd_config k ≡ some c
        → get_first_item k ≡ some item
        → judge_key sm get_nd_config get_first_item now k (m, mocks) ≡ settle k m mocks c item
    unfolding judge_key
    judge_key-settle k m mocks c item e f = rw (e, f, judge_key) refl

    choose :
        (P : M × List (Mock F) → Type 0) (b : Bool) (x y : M × List (Mock F))
        → P x
        → P y
        → P (if b then x else y)
    choose P true x y p q = p
    choose P false x y p q = q

    settle-Outcome :
        (k : Str) (m : M) (mocks : List (Mock F)) (c : NodataConfig F) (item : DataItem F)
        → get_nd_config k ≡ some c
        → Outcome k m mocks (settle k m mocks c item)
    settle-Outcome k m mocks c item e =
        let missing = time_out-Outcome k c m mocks e in
        choose (Outcome k m mocks) _ _ _ (inl refl) (
          choose (Outcome k m mocks) _ _ _ missing
            (choose (Outcome k m mocks) _ _ _ missing (inr (inl refl))))

    pub judge_key-Outcome :
        (k : Str) (m : M) (mocks : List (Mock F))
        → Outcome k m mocks (judge_key sm get_nd_config get_first_item now k (m, mocks))
    unfolding judge_key
    judge_key-Outcome k m mocks = elim (Option-cases (get_nd_config k)) [
      | inl e ↦ rw (e, judge_key) (inl refl)
      | inr (c, e) ↦ elim (Option-cases (get_first_item k)) [
        | inl f ↦ rw (e, f, judge_key) (inl refl)
        | inr (item, f) ↦
            subst (Outcome k m mocks) (sym (judge_key-settle k m mocks c item e f))
              (settle-Outcome k m mocks c item e)
      ]
    ]
