-- ===== src/Graph/Query/Steps.antt =====
-- Times of whole steps, and the cached points of a counter at such times.
use native.Mathlib.Decide.{dec_le}
use open_falcon.Prelude.{
  ℕ, zero, suc, ◌+◌, ◌*◌, ◌^◌, ◌≤◌, ◌<◌, ◌≡◌, refl, subst, ap, ◌∙◌, true, false, List, [], ◌∷◌,
  some, arith, length, get_elem?, if◌then◌else◌,
}
use open_falcon.Prelude.Int.{ℤ, pos, leb_ℤ, int_eq}
use open_falcon.Graph.{GraphItem, RrdData}
use open_falcon.Graph.Query.{gauge_point}

-- The time after `k` steps.
abbrev pub time : ℕ → ℕ → ℤ
time step k = pos (k * step)

module _ (step : ℕ) where
  pub steps_mono : (a b : ℕ) → a ≤ b → a * step ≤ b * step
  steps_mono a b h = grind arith

  pub steps_apart : (a b : ℕ) → 0 < step → a < b → int_eq (time step a) (time step b) ≡ false
  steps_apart a b z h =
      let le = steps_mono (suc a) b h in
      let lt : a * step < b * step = grind arith in ground (arith, lt)

  pub steps_apart' : (a b : ℕ) → 0 < step → b < a → int_eq (time step a) (time step b) ≡ false
  steps_apart' a b z h =
      let le = steps_mono (suc b) a h in
      let lt : b * step < a * step = grind arith in ground (arith, lt)

  pub next_step : (k : ℕ) → k * step + step ≡ suc k * step
  next_step k = grind arith

  pub stops : (k m : ℕ) → leb_ℤ (time step k) (time step m) ≡ false → m < k
  stops k m stop =
      let lt : m * step < k * step = ground (arith, stop) in
      elim (dec_le k m) [
        | yes le ↦ absurd (omega (arith, steps_mono k m le, lt))
        | no g ↦ omega (arith, g)
      ]

module _ {F : Type 0} (step : ℕ) where
  -- Each item is at a time of whole steps, from `k` of them on, and later than the one before it; a
  -- step more is still an int64.
  abbrev pub Ascends : ℕ → List (GraphItem F) → Type 0
  Ascends k [] = Unit {0}
  Ascends k (x ∷ items) =
      (j : ℕ) × (x.timestamp ≡ time step j)
      × (k ≤ j)
      × (j * step + step < 2 ^ 63)
      × Ascends (suc j) items

  -- The same, where the last one is after `m` steps.
  abbrev pub Between : ℕ → ℕ → List (GraphItem F) → Type 0
  Between k m [] = Unit {0}
  Between k m (x ∷ items) =
      (j : ℕ) × (x.timestamp ≡ time step j) × (k ≤ j) × (j ≤ m) × Between (suc j) m items

  pub last_item :
      (k : ℕ) (x : GraphItem F) (rest : List (GraphItem F))
      → Ascends k (x ∷ rest)
      → (m : ℕ) × (y : GraphItem F) × (get_elem? (x ∷ rest) (length rest) ≡ some y)
        × (y.timestamp ≡ time step m)
        × (k ≤ m)
        × (m * step + step < 2 ^ 63)
        × Between k m (x ∷ rest)
  last_item k x [] (j, e, a, b, c) = (j, x, refl, e, a, b, (j, e, a, omega arith, tt))
  last_item k x (x' ∷ rest) (j, e, a, b, c) =
      let (m, y, q, e', a', b', h) = last_item (suc j) x' rest c in
      (m, y, q, e', omega (arith, a, a'), b', (j, e, a, omega (arith, a'), h))

module _ {F : Type 0} (nan : F) where
  -- The value that the items have at a time; a gap, if there is none.
  abbrev pub value_at : ℤ → List (GraphItem F) → F
  value_at ts [] = nan
  value_at ts (x ∷ items) = if int_eq ts x.timestamp then x.value else value_at ts items

  module _ (step : ℕ) where
    -- The values of the items at `n` times in a row, from `k` steps on.
    abbrev pub values_from : ℕ → ℕ → List (GraphItem F) → List (RrdData F)
    values_from k zero items = []
    values_from k (suc n) items =
        record { timestamp = time step k; value = value_at (time step k) items }
        ∷ values_from (suc k) n items

    pub value_at-before :
        (j k m : ℕ) (items : List (GraphItem F))
        → 0 < step
        → j < k
        → Between step k m items
        → value_at (time step j) items ≡ nan
    value_at-before j k m [] z a h = refl
    value_at-before j k m (x ∷ items) z a (i, e, b, c, h) =
        rw (e, steps_apart step j i z (omega (arith, b)))
          (value_at-before j (suc i) m items z (omega (arith, b)) h)

    pub value_at-behind :
        (ts : ℤ) (k m : ℕ) (items : List (GraphItem F))
        → m < k
        → Between step k m items
        → value_at ts items ≡ nan
    value_at-behind ts k m [] a h = refl
    value_at-behind ts k m (x ∷ items) a (i, e, b, c, h) = absurd (omega (arith, a, b, c))

    pub gauge_step :
        (k m : ℕ) (items : List (GraphItem F))
        → 0 < step
        → Between step k m items
        → (v : F) × (rest : List (GraphItem F)) × (gauge_point nan (time step k) items ≡ (v, rest))
          × (value_at (time step k) items ≡ v)
          × Between step (suc k) m rest
          × ((w : ℕ) → suc k ≤ w → value_at (time step w) items ≡ value_at (time step w) rest)
    unfolding gauge_point
    gauge_step k m [] z h = (nan, [], refl, refl, tt, λ w a. refl)
    gauge_step k m (x ∷ items) z (j, e, a, b, h) = elim (dec_le (suc k) j) [
      | yes later ↦ (
        nan,
        x ∷ items,
        rw (e, steps_apart step k j z later) refl,
        value_at-before k (suc k) m (x ∷ items) z (omega arith) (j, e, later, b, h),
        (j, e, later, b, h),
        λ w c. refl,
      )
      | no g ↦
          let same : j ≡ k = omega (arith, g, a) in
          let e' : x.timestamp ≡ time step k = e ∙ ap (time step) same in
          let hit : int_eq (time step k) (time step k) ≡ true = ground arith in
          (
            x.value,
            items,
            rw (e', hit) refl,
            rw (e', hit) refl,
            subst (λ i. Between step (suc i) m items) same h,
            λ w c. rw (e', steps_apart' step w k z c) refl,
          )
    ]
