-- ===== src/Judge/Check/Once.antt =====
-- Which expressions `CheckExpression` judges, when several keys lead to one.
use open_falcon.Prelude.{
  ◌≡◌, refl, sym, ap, ◌∙◌, Bool, true, false, List, [], ◌∷◌, ◌++◌, Option, none, some, arith, ◌>>=◌,
  ◌==◌, if◌then◌else◌, exists, Bool-cases, Option-cases, inl, inr, eq_str, ==_refl, fun_ext,
}
use open_falcon.Prelude.Int.{ℤ, eq_ℤ, int_eq_iff}
use open_falcon.Prelude.Text.{Str}
use open_falcon.Prelude.Maps.{Map, lookup, insert, lookup-insert}
use open_falcon.Float.{Float}
use open_falcon.Model.{JudgeItem, Expression}
use open_falcon.Judge.Events.{Alarms}
use open_falcon.Judge.Rules.{Rules}
use open_falcon.Prelude.Groups.{at_key}
use open_falcon.Judge.Check.{
  Progress, filter_related_expressions, build_keys_from_metric_and_tags, judge_item_with_expression,
  related_loop, key_loop, check_expression,
}

abbrev is_handled : Map ℤ (Unit {0}) → ℤ → Bool
is_handled handled id = elim (lookup id handled) [ some _ ↦ true | none ↦ false ]

is_handled-insert :
    (handled : Map ℤ (Unit {0})) (k id : ℤ)
    → is_handled (insert k tt handled) id ≡ (if k == id then true else is_handled handled id)
is_handled-insert handled k id = ground (arith, lookup-insert k id tt handled)

not_handled :
    (handled : Map ℤ (Unit {0})) (id : ℤ) → lookup id handled ≡ none → is_handled handled id ≡ false
not_handled handled id e = rw (e, is_handled) refl

handled_before :
    (handled : Map ℤ (Unit {0})) (id : ℤ) (u : Unit {0})
    → lookup id handled ≡ some u
    → is_handled handled id ≡ true
handled_before handled id u e = rw (e, is_handled) refl

id_differs :
    (handled : Map ℤ (Unit {0})) (k id : ℤ)
    → is_handled handled id ≡ true
    → is_handled handled k ≡ false
    → k == id ≡ false
id_differs handled k id h e = elim (Bool-cases (k == id)) [
  | inl same ↦ cc (sym h ∙ (ap (is_handled handled) (sym ((int_eq_iff k id).0 same)) ∙ e))
  | inr other ↦ other
]

module _ {F : Type 0} where
  -- The related expressions under the keys of an item.
  abbrev pub candidates : Rules F → JudgeItem F → List Str → List (Expression F)
  candidates rules item [] = []
  candidates rules item (key ∷ keys) =
      filter_related_expressions (at_key key rules.expression_map) item
      ++ candidates rules item keys

  abbrev pub HasId : ℤ → List (Expression F) → Type 0
  HasId id es = exists (λ (e : Expression F). e.id == id) es ≡ true

  -- No id stands twice.
  abbrev pub IsDistinct : List (Expression F) → Type 0
  IsDistinct [] = Unit {0}
  IsDistinct (e ∷ es) = (exists (λ (f : Expression F). f.id == e.id) es ≡ false) × IsDistinct es

  -- Some of the expressions, in their order.
  pub data IsPart : List (Expression F) → List (Expression F) → Type 0 where
    none_left : IsPart [] []
    taken :
        {es xs : List (Expression F)} (e : Expression F) → IsPart es xs → IsPart (e ∷ es) (e ∷ xs)
    passed : {es xs : List (Expression F)} (e : Expression F) → IsPart es xs → IsPart es (e ∷ xs)

  -- The first expression of each id that was not handled before.
  abbrev pub fresh : Map ℤ (Unit {0}) → List (Expression F) → List (Expression F)
  fresh handled [] = []
  fresh handled (x ∷ xs) =
      let rest = fresh handled xs in
      let more = fresh (insert x.id tt handled) xs in
      if is_handled handled x.id then rest else x ∷ more

  fresh-IsPart :
      (handled : Map ℤ (Unit {0})) (xs : List (Expression F)) → IsPart (fresh handled xs) xs
  fresh-IsPart handled [] = none_left
  fresh-IsPart handled (x ∷ xs) = elim (Bool-cases (is_handled handled x.id)) [
    | inl e ↦ rw e (passed x (fresh-IsPart handled xs))
    | inr e ↦ rw e (taken x (fresh-IsPart (insert x.id tt handled) xs))
  ]

  -- What is handled does not come again.
  fresh-handled :
      (handled : Map ℤ (Unit {0})) (xs : List (Expression F)) (id : ℤ)
      → is_handled handled id ≡ true
      → exists (λ (e : Expression F). e.id == id) (fresh handled xs) ≡ false
  fresh-handled handled [] id h = refl
  fresh-handled handled (x ∷ xs) id h = elim (Bool-cases (is_handled handled x.id)) [
    | inl e ↦ rw e (fresh-handled handled xs id h)
    | inr e ↦
        let differ = id_differs handled x.id id h e in
        rw (e, differ)
          (fresh-handled (insert x.id tt handled) xs id (
            is_handled-insert handled x.id id
            ∙ (ap (λ b. if b then true else is_handled handled id) differ ∙ h)))
  ]

  fresh-IsDistinct :
      (handled : Map ℤ (Unit {0})) (xs : List (Expression F)) → IsDistinct (fresh handled xs)
  fresh-IsDistinct handled [] = tt
  fresh-IsDistinct handled (x ∷ xs) = elim (Bool-cases (is_handled handled x.id)) [
    | inl e ↦ rw e (fresh-IsDistinct handled xs)
    | inr e ↦ rw e (
      fresh-handled (insert x.id tt handled) xs x.id (
          is_handled-insert handled x.id x.id
          ∙ ap (λ b. if b then true else is_handled handled x.id) (==_refl x.id)),
      fresh-IsDistinct (insert x.id tt handled) xs,
    )
  ]

  -- Every id that was not handled before is there.
  fresh-HasId :
      (handled : Map ℤ (Unit {0})) (xs : List (Expression F)) (id : ℤ)
      → is_handled handled id ≡ false
      → HasId id xs
      → HasId id (fresh handled xs)
  fresh-HasId handled [] id n h = h
  fresh-HasId handled (x ∷ xs) id n h = elim (Bool-cases (x.id == id)) [
    | inl same ↦
        let e : is_handled handled x.id ≡ false =
          ap (is_handled handled) ((int_eq_iff x.id id).0 same) ∙ n in
        rw (e, same) refl
    | inr other ↦
        let h' : HasId id xs = rw other at h in
        elim (Bool-cases (is_handled handled x.id)) [
          | inl e ↦ rw e (fresh-HasId handled xs id n h')
          | inr e ↦
              rw (e, other)
                (fresh-HasId (insert x.id tt handled) xs id
                  (is_handled-insert handled x.id id
                    ∙ (ap (λ b. if b then true else is_handled handled id) other ∙ n))
                  h')
        ]
  ]

bind_assoc :
    {A B C : Type 0} (o : Option A) (f : A → Option B) (g : B → Option C)
    → ((o >>= f) >>= g) ≡ (o >>= λ a. f a >>= g)
bind_assoc none f g = refl
bind_assoc (some a) f g = refl

module _ {F : Type 0} ⦃fl : Float F⦄ (md5 : Str → Str) (min_interval now : ℤ) where
  -- One expression after the other, up to a panic.
  abbrev pub judge_expressions :
      List (JudgeItem F) → JudgeItem F → List (Expression F) → Alarms F → Option (Alarms F)
  judge_expressions items item [] st = some st
  judge_expressions items item (e ∷ es) st =
      judge_item_with_expression md5 min_interval now items e item st >>= λ st'.
      judge_expressions items item es st'

  -- The loops without their statuses, and the rest of the keys.
  alarms_of : Option (Progress F) → Option (Alarms F)
  alarms_of o = o >>= λ p. some p.1

  attempt-lem :
      (items : List (JudgeItem F)) (item : JudgeItem F) (xs es : List (Expression F))
      (handled : Map ℤ (Unit {0})) (o : Option (Alarms F))
      → ((st : Alarms F)
          → alarms_of (related_loop md5 min_interval now items item xs (handled, st))
            ≡ judge_expressions items item es st)
      → alarms_of (
          (o >>= λ st. some (handled, st)) >>= λ p.
          related_loop md5 min_interval now items item xs p)
        ≡ (o >>= λ st. judge_expressions items item es st)
  unfolding alarms_of
  attempt-lem items item xs es handled none f = refl
  attempt-lem items item xs es handled (some st) f = f st

  related_loop-fresh :
      (items : List (JudgeItem F)) (item : JudgeItem F) (xs : List (Expression F))
      (handled : Map ℤ (Unit {0})) (st : Alarms F)
      → alarms_of (related_loop md5 min_interval now items item xs (handled, st))
        ≡ judge_expressions items item (fresh handled xs) st
  unfolding related_loop alarms_of
  related_loop-fresh items item [] handled st = refl
  related_loop-fresh items item (x ∷ xs) handled st = elim (Option-cases (lookup x.id handled)) [
    | inl e ↦
        rw (e, not_handled handled x.id e)
          (attempt-lem items item xs (fresh (insert x.id tt handled) xs) (insert x.id tt handled)
            (judge_item_with_expression md5 min_interval now items x item st)
            (related_loop-fresh items item xs (insert x.id tt handled)))
    | inr (u, e) ↦
        rw (e, handled_before handled x.id u e) (related_loop-fresh items item xs handled st)
  ]

  -- The round of the loop for one expression.
  abbrev attempt :
      List (JudgeItem F) → JudgeItem F → Expression F → Progress F → Option (Progress F)
  attempt items item e (handled, st) = elim (lookup e.id handled) [
    | some _ ↦ some (handled, st)
    | none ↦ judge_item_with_expression md5 min_interval now items e item st >>= λ st'.
        some (insert e.id tt handled, st')
  ]

  related_loop-append :
      (items : List (JudgeItem F)) (item : JudgeItem F) (xs ys : List (Expression F))
      (p : Progress F)
      → related_loop md5 min_interval now items item (xs ++ ys) p ≡ (
          related_loop md5 min_interval now items item xs p >>= λ q.
          related_loop md5 min_interval now items item ys q)
  unfolding related_loop
  related_loop-append items item [] ys p = refl
  related_loop-append items item (x ∷ xs) ys (handled, st) =
      ap (λ f. attempt items item x (handled, st) >>= f)
        (fun_ext (related_loop-append items item xs ys))
      ∙ sym (bind_assoc (attempt items item x (handled, st)) _ _)

  key_loop-candidates :
      (rules : Rules F) (items : List (JudgeItem F)) (item : JudgeItem F) (keys : List Str)
      (p : Progress F)
      → key_loop md5 min_interval now rules items item keys p
        ≡ related_loop md5 min_interval now items item (candidates rules item keys) p
  unfolding key_loop related_loop filter_related_expressions
  key_loop-candidates rules items item [] p = refl
  key_loop-candidates rules items item (key ∷ keys) p =
      elim (Option-cases (lookup key rules.expression_map)) [
        | inl e ↦ rw (e, at_key) (key_loop-candidates rules items item keys p)
        | inr (xs, e) ↦
            rw (e, at_key)
              (ap
                  (λ f.
                    related_loop md5 min_interval now items item
                      (filter_related_expressions xs item) p
                    >>= f)
                  (fun_ext (key_loop-candidates rules items item keys))
                ∙ sym (
                    related_loop-append items item (filter_related_expressions xs item)
                      (candidates rules item keys) p))
      ]

  -- `CheckExpression` judges the item by some of the related expressions under its keys, in their
  -- order: by exactly one for each id among them.
  pub check_expression-IsDistinct :
      (rules : Rules F) (items : List (JudgeItem F)) (item : JudgeItem F) (st : Alarms F)
      → let related = candidates rules item (build_keys_from_metric_and_tags item) in
        (es : List (Expression F)) × (check_expression md5 min_interval now rules items item st
          ≡ judge_expressions items item es st)
        × IsPart es related
        × IsDistinct es
        × ((id : ℤ) → HasId id related → HasId id es)
  unfolding check_expression alarms_of
  check_expression-IsDistinct rules items item st =
      let related = candidates rules item (build_keys_from_metric_and_tags item) in
      (
        fresh [] related,
        ap alarms_of
              (key_loop-candidates rules items item (build_keys_from_metric_and_tags item) ([], st))
            ∙ related_loop-fresh items item related [] st,
        fresh-IsPart [] related,
        fresh-IsDistinct [] related,
        λ id h. fresh-HasId [] related id refl h,
      )
