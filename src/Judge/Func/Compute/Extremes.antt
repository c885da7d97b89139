-- ===== src/Judge/Func/Compute/Extremes.antt =====
-- The loops of `MaxFunction` and `MinFunction` over values that are numbers.
use open_falcon.Prelude.{
  ◌≡◌, refl, true, List, [], ◌∷◌, arith, Bool-cases, inl, inr, All, ◌⊎◌, if◌then◌else◌,
}
use open_falcon.Float.{Float, IsOrdered}
use open_falcon.Model.{HistoryData}
use open_falcon.Judge.Func.Compute.{max_round, min_round}
use open_falcon.Judge.Func.Compute.Loops.{run}

module _ {F : Type 0} ⦃fl : Float F⦄ where
  -- `x` is the value of one of the points.
  abbrev pub Among : F → List (HistoryData F) → Type 0
  Among x [] = ⊥
  Among x (v ∷ vs) = (x ≡ v.value) ⊎ Among x vs

  -- Not NaN.
  abbrev pub IsNumber : HistoryData F → Type 0
  IsNumber v = fl.le v.value v.value ≡ true

  abbrev pub IsMaximum : F → List (HistoryData F) → Type 0
  IsMaximum x vs = All (λ v. fl.le v.value x ≡ true) vs × Among x vs

  abbrev pub IsMinimum : F → List (HistoryData F) → Type 0
  IsMinimum x vs = All (λ v. fl.le x v.value ≡ true) vs × Among x vs

  -- `r` is the largest of `m` and the values.
  abbrev Tops : F → List (HistoryData F) → F → Type 0
  Tops m vs r = (fl.le m r ≡ true) × All (λ v. fl.le v.value r ≡ true) vs × ((r ≡ m) ⊎ Among r vs)

  abbrev Bottoms : F → List (HistoryData F) → F → Type 0
  Bottoms m vs r =
      (fl.le r m ≡ true) × All (λ v. fl.le r v.value ≡ true) vs × ((r ≡ m) ⊎ Among r vs)

  abbrev pub larger : F → F → F
  larger m x = if fl.lt m x then x else m

  abbrev pub smaller : F → F → F
  smaller m x = if fl.lt x m then x else m

  module _ (ord : IsOrdered fl) where
    Tops-step :
        (m r : F) (v : HistoryData F) (vs : List (HistoryData F))
        → fl.le m m ≡ true
        → IsNumber v
        → Tops (larger m v.value) vs r
        → Tops m (v ∷ vs) r
    Tops-step m r v vs h k t = elim (Bool-cases (fl.lt m v.value)) [
      | inl less ↦
          let t' : Tops v.value vs r = rw less at t in
          (ord.le_trans _ _ _ (ord.le_of_lt _ _ less) t'.0, (t'.0, t'.1), inr t'.2)
      | inr more ↦
          let t' : Tops m vs r = rw more at t in
          (t'.0, (ord.le_trans _ _ _ (ord.le_of_not_lt _ _ h k more) t'.0, t'.1), keep t'.2)
    ]
      where
        keep : (r ≡ m) ⊎ Among r vs → (r ≡ m) ⊎ (r ≡ v.value) ⊎ Among r vs
        keep (inl e) = inl e
        keep (inr e) = inr (inr e)

    Bottoms-step :
        (m r : F) (v : HistoryData F) (vs : List (HistoryData F))
        → fl.le m m ≡ true
        → IsNumber v
        → Bottoms (smaller m v.value) vs r
        → Bottoms m (v ∷ vs) r
    Bottoms-step m r v vs h k t = elim (Bool-cases (fl.lt v.value m)) [
      | inl less ↦
          let t' : Bottoms v.value vs r = rw less at t in
          (ord.le_trans _ _ _ t'.0 (ord.le_of_lt _ _ less), (t'.0, t'.1), inr t'.2)
      | inr more ↦
          let t' : Bottoms m vs r = rw more at t in
          (t'.0, (ord.le_trans _ _ _ t'.0 (ord.le_of_not_lt _ _ k h more), t'.1), keep t'.2)
    ]
      where
        keep : (r ≡ m) ⊎ Among r vs → (r ≡ m) ⊎ (r ≡ v.value) ⊎ Among r vs
        keep (inl e) = inl e
        keep (inr e) = inr (inr e)

    larger-number :
        (m x : F) → fl.le m m ≡ true → fl.le x x ≡ true → fl.le (larger m x) (larger m x) ≡ true
    larger-number m x h k = ground arith

    smaller-number :
        (m x : F) → fl.le m m ≡ true → fl.le x x ≡ true → fl.le (smaller m x) (smaller m x) ≡ true
    smaller-number m x h k = ground arith

    run-max_round :
        (m : F) (vs : List (HistoryData F))
        → fl.le m m ≡ true
        → All IsNumber vs
        → Tops m vs (run max_round vs m)
    run-max_round m [] h a = (h, tt, inl refl)
    run-max_round m (v ∷ vs) h a =
        Tops-step m _ v vs h a.0
          (run-max_round (larger m v.value) vs (larger-number m v.value h a.0) a.1)

    run-min_round :
        (m : F) (vs : List (HistoryData F))
        → fl.le m m ≡ true
        → All IsNumber vs
        → Bottoms m vs (run min_round vs m)
    run-min_round m [] h a = (h, tt, inl refl)
    run-min_round m (v ∷ vs) h a =
        Bottoms-step m _ v vs h a.0
          (run-min_round (smaller m v.value) vs (smaller-number m v.value h a.0) a.1)

    pub run-max_round-IsMaximum :
        (v : HistoryData F) (vs : List (HistoryData F))
        → All IsNumber (v ∷ vs)
        → IsMaximum (run max_round vs v.value) (v ∷ vs)
    run-max_round-IsMaximum v vs a = let t = run-max_round v.value vs a.0 a.1 in ((t.0, t.1), t.2)

    pub run-min_round-IsMinimum :
        (v : HistoryData F) (vs : List (HistoryData F))
        → All IsNumber (v ∷ vs)
        → IsMinimum (run min_round vs v.value) (v ∷ vs)
    run-min_round-IsMinimum v vs a = let t = run-min_round v.value vs a.0 a.1 in ((t.0, t.1), t.2)
