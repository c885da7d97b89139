-- ===== src/Graph/Query/Origin.antt =====
-- What the points of an answer are, and when.
use open_falcon.Prelude.{
  ◌≡◌, refl, sym, ◌∙◌, true, List, [], ◌∷◌, ◌++◌, All, inl, inr, Bool-cases, filter, append_assoc,
  eq_str,
}
use open_falcon.Prelude.Int.{ℤ, sub64, int_eq, int_eq_iff}
use open_falcon.Float.{Float}
use open_falcon.Graph.{GraphItem, RrdData}
use open_falcon.Graph.Query.{window, rate_point, gauge_point}

-- `rest` is an end of `all`.
abbrev pub IsSuffix {ℓ} : {A : Type ℓ} → List A → List A → Type ℓ
IsSuffix {A = A} all rest = (before : List A) × (all ≡ before ++ rest)

IsSuffix-tail {ℓ} :
    {A : Type ℓ} (all : List A) (x : A) (rest : List A)
    → IsSuffix all (x ∷ rest)
    → IsSuffix all rest
IsSuffix-tail all x rest (before, e) =
    (before ++ x ∷ [], e ∙ sym (append_assoc before (x ∷ []) rest))

module _ {F : Type 0} ⦃fl : Float F⦄ (nan : F) (step : ℤ) (datas : List (RrdData F))
    (items : List (GraphItem F)) where
  -- A point of an answer: a gap, a point of the rrd file, a cached value at its own time, or the rate
  -- between two cached items that follow each other a step apart without falling.
  pub data Origin (d : RrdData F) : Type 0 where
    gap : d.value ≡ nan → Origin d
    stored : (rest : List (RrdData F)) → IsSuffix datas (d ∷ rest) → Origin d
    value :
        (x : GraphItem F) (rest : List (GraphItem F))
        → IsSuffix items (x ∷ rest)
        → d.timestamp ≡ x.timestamp
        → d.value ≡ x.value
        → Origin d
    rate :
        (x y : GraphItem F) (rest : List (GraphItem F))
        → IsSuffix items (x ∷ y ∷ rest)
        → d.timestamp ≡ x.timestamp
        → d.timestamp ≡ sub64 y.timestamp step
        → fl.le x.value y.value ≡ true
        → d.value ≡ fl.div (fl.sub y.value x.value) (fl.of_int step)
        → Origin d

  pub gauge_point-IsSuffix :
      (ts : ℤ) (rest : List (GraphItem F))
      → IsSuffix items rest
      → IsSuffix items (gauge_point nan ts rest).1
  unfolding gauge_point
  gauge_point-IsSuffix ts [] h = h
  gauge_point-IsSuffix ts (x ∷ rest) h = elim (Bool-cases (int_eq ts x.timestamp)) [
    | inl hit ↦ rw hit (IsSuffix-tail items x rest h)
    | inr miss ↦ rw miss h
  ]

  pub gauge_point-Origin :
      (ts : ℤ) (rest : List (GraphItem F))
      → IsSuffix items rest
      → Origin (record { timestamp = ts; value = (gauge_point nan ts rest).0 })
  unfolding gauge_point
  gauge_point-Origin ts [] h = gap refl
  gauge_point-Origin ts (x ∷ rest) h = elim (Bool-cases (int_eq ts x.timestamp)) [
    | inl hit ↦ rw hit (value x rest h ((int_eq_iff ts x.timestamp).0 hit) refl)
    | inr miss ↦ rw miss (gap refl)
  ]

  pub rate_point-IsSuffix :
      (ts : ℤ) (rest : List (GraphItem F))
      → IsSuffix items rest
      → IsSuffix items (rate_point nan step ts rest).1
  unfolding rate_point
  rate_point-IsSuffix ts [] h = h
  rate_point-IsSuffix ts (x ∷ []) h = h
  rate_point-IsSuffix ts (x ∷ y ∷ rest) h = elim (Bool-cases (int_eq ts x.timestamp)) [
    | inl hit ↦ rw hit (IsSuffix-tail items x (y ∷ rest) h)
    | inr miss ↦ rw miss h
  ]

  pub rate_point-Origin :
      (ts : ℤ) (rest : List (GraphItem F))
      → IsSuffix items rest
      → Origin (record { timestamp = ts; value = (rate_point nan step ts rest).0 })
  unfolding rate_point
  rate_point-Origin ts [] h = gap refl
  rate_point-Origin ts (x ∷ []) h = gap refl
  rate_point-Origin ts (x ∷ y ∷ rest) h = elim (Bool-cases (int_eq ts x.timestamp)) [
    | inl hit ↦ elim (Bool-cases (int_eq ts (sub64 y.timestamp step))) [
      | inl next ↦ elim (Bool-cases (fl.le x.value y.value)) [
        | inl rising ↦
            rw (hit, next, rising)
              (rate x y rest h ((int_eq_iff ts x.timestamp).0 hit)
                ((int_eq_iff ts (sub64 y.timestamp step)).0 next) rising refl)
        | inr falling ↦ rw (hit, next, falling) (gap refl)
      ]
      | inr apart ↦ rw (hit, apart) (gap refl)
    ]
    | inr miss ↦ rw miss (gap refl)
  ]

  pub stored_in :
      (s e : ℤ) (rest : List (RrdData F))
      → IsSuffix datas rest
      → All
          (λ d. Origin d × (window s e d.timestamp ≡ true))
          (filter (λ d. window s e d.timestamp) rest)
  stored_in s e [] h = tt
  stored_in s e (d ∷ rest) h = elim (Bool-cases (window s e d.timestamp)) [
    | inl inside ↦
        rw inside ((stored rest h, inside), stored_in s e rest (IsSuffix-tail datas d rest h))
    | inr outside ↦ rw outside (stored_in s e rest (IsSuffix-tail datas d rest h))
  ]
