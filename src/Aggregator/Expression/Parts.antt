-- ===== src/Aggregator/Expression/Parts.antt =====
-- What is parsed of a valid expression.
use open_falcon.Prelude.{
  suc, ◌-◌, ◌≤◌, ◌≡◌, refl, sym, ap, subst, ◌∙◌, Bool, true, false, not, ◌&&◌, ◌||◌, inl, inr,
  Bool-cases, List, [], ◌∷◌, ◌++◌, Option, none, some, arith, length, ◌==◌, eq_str, list_eq_iff,
  nat_eq, nat_eq_iff, every, bind_some, append_assoc, take, drop, leb, get_elem?-append_end,
  length-append, get_elem?,
}
use open_falcon.Prelude.Text.{Str, str}
use open_falcon.Aggregator.Expression.{
  pieces, deal, Parsed, parse_items, parse, contains, is_digit, is_comparison, dollar, terms,
  is_empty_rest, is_compared, is_closed, is_sum_compared, expression_valid, need_compute,
}
use open_falcon.Aggregator.Expression.Shape.{
  IsBehind, IsMode, IsMode-plain, pieces-last, terms-Left,
}

and-left : (a b : Bool) → (a && b) ≡ true → a ≡ true
and-left a b h = ground (arith, h)

and-right : (a b : Bool) → (a && b) ≡ true → b ≡ true
and-right a b h = ground (arith, h)

last_form :
    (x a b c d n g : Bool)
    → (not x && (a || (b || (c || (d || (n && g)))))) ≡ true
    → a ≡ false
    → b ≡ false
    → c ≡ false
    → d ≡ false
    → g ≡ true
last_form x a b c d n g h p q r s = ground (arith, h, p, q, r, s)

deal-lengths :
    (xs : List Str)
    → (length (deal true xs).0 ≤ suc (length (deal true xs).1))
      × (length (deal false xs).0 ≤ length (deal false xs).1)
deal-lengths [] = (omega arith, omega arith)
deal-lengths (x ∷ xs) = let (a, b) = deal-lengths xs in (omega (arith, b), omega (arith, a))

digits-contains : (s : Str) → every is_digit s ≡ true → contains (str "$(") s ≡ false
digits-contains [] h = refl
digits-contains (c ∷ s) h = ground (arith, h, digits-contains s)

-- The end of an expression that `expressionValid` accepts and that has a counter.
abbrev Ends : Str → Type 0
Ends val = (rest : Str) × IsBehind val rest × IsMode rest

sum_compared-Ends : (val : Str) → is_sum_compared val ≡ true → Ends val
unfolding is_sum_compared
sum_compared-Ends [] h = absurd (ground (arith, h))
sum_compared-Ends (c ∷ s) h =
    by_rest (terms true dollar s) refl
      (and-right (nat_eq c b'(') (is_closed (terms true dollar s)) h)
  where
    by_rest : (o : Option Str) → terms true dollar s ≡ o → is_closed o ≡ true → Ends (c ∷ s)
    by_rest none e k = absurd (ground (arith, k))
    by_rest (some []) e k = absurd (ground (arith, k))
    by_rest (some (d ∷ rest)) e k =
        let (xs, q) = terms-Left true dollar s (d ∷ rest) e in
        let close = (nat_eq_iff d b')').0 (and-left (nat_eq d b')') (is_comparison rest) k) in
        (
          rest,
          (
            c ∷ (xs ++ b')' ∷ []),
            ap (λ t. c ∷ t)
                (q
                  ∙ ap (λ x. xs ++ b')' ∷ x ∷ rest) close
                  ∙ sym (append_assoc xs (b')' ∷ []) (b')' ∷ rest))),
          ),
          inr (and-right (nat_eq d b')') (is_comparison rest) k),
        )

valid-Ends : (val : Str) → expression_valid val ≡ true → need_compute val ≡ true → Ends val
unfolding expression_valid need_compute
valid-Ends val h need = by_rest (terms true dollar val) (terms false dollar val) refl refl
  where
    by_rest : (o p : Option Str) → terms true dollar val ≡ o → terms false dollar val ≡ p → Ends val
    by_rest o p e f = elim (Bool-cases (is_empty_rest o)) [
      | inl sum ↦ of_sum o e sum
      | inr no_sum ↦ elim (Bool-cases (is_compared p)) [
        | inl compared ↦ of_compared p f compared
        | inr not_compared ↦ elim (Bool-cases (is_sum_compared val)) [
          | inl sum_compared ↦ sum_compared-Ends val sum_compared
          | inr other ↦ elim (Bool-cases (val == str "$#")) [
            | inl count ↦
                let no_need : contains (str "$(") (str "$#") ≡ true =
                  subst (λ v. contains (str "$(") v ≡ true) ((list_eq_iff val (str "$#")).0 count)
                    need in
                absurd (ground (arith, no_need))
            | inr no_count ↦
                let a : is_empty_rest (terms true dollar val) ≡ false =
                  ap is_empty_rest e ∙ no_sum in
                let b : is_compared (terms false dollar val) ≡ false =
                  ap is_compared f ∙ not_compared in
                let digits =
                  last_form
                    (contains (239 ∷ 188 ∷ 136 ∷ []) val || contains (239 ∷ 188 ∷ 137 ∷ []) val)
                    (val == str "$#") (is_empty_rest (terms true dollar val))
                    (is_compared (terms false dollar val)) (is_sum_compared val) (not (val == []))
                    (every is_digit val) h no_count a b other in
                let no_need = digits-contains val digits in absurd (ground (arith, need, no_need))
          ]
        ]
      ]
    ]
      where
        of_sum : (o : Option Str) → terms true dollar val ≡ o → is_empty_rest o ≡ true → Ends val
        of_sum none e k = absurd (ground (arith, k))
        of_sum (some []) e k = ([], terms-Left true dollar val [] e, inl refl)
        of_sum (some (c ∷ s)) e k = absurd (ground (arith, k))

        of_compared :
            (o : Option Str) → terms false dollar val ≡ o → is_compared o ≡ true → Ends val
        of_compared none e k = absurd (ground (arith, k))
        of_compared (some s) e k = (s, terms-Left false dollar val s e, inr k)

-- What is relied on of a parsed expression: enough operators for the operands, and a mode that is none
-- or a comparison.
pub record IsParsed (p : Parsed) : Type 0 where
  pub enough : length p.operands ≤ suc (length p.operators)
  pub mode : IsMode p.compute_mode

parse_items-IsParsed :
    (w rest : Str) (init : List Str)
    → IsMode rest
    → (p : Parsed) × (parse_items (w ∷ (init ++ rest ∷ [])) ≡ some p) × IsParsed p
unfolding parse_items
parse_items-IsParsed w rest init h =
    let items = w ∷ (init ++ rest ∷ []) in
    let two : leb 2 (length items) ≡ true = ground (arith, length-append init (rest ∷ [])) in
    let last : get_elem? items (length items - 1) ≡ some rest =
      get_elem?-append_end (w ∷ init) rest (length items - 1)
        (omega (arith, length-append init (rest ∷ []))) in
    (
      _,
      rw two (bind_some _ last refl),
      record { enough = (deal-lengths (take (length items - 2) (drop 1 items))).0; mode = h },
    )

-- `parse` of a valid expression does not panic, and has what is relied on.
pub parse-IsParsed :
    (val : Str)
    → expression_valid val ≡ true
    → (p : Parsed) × (parse val (need_compute val) ≡ some p) × IsParsed p
unfolding parse
parse-IsParsed val h = elim (Bool-cases (need_compute val)) [
  | inl need ↦
      let (rest, (xs, q), mode) = valid-Ends val h need in
      let (w, init, e) = pieces-last xs b')' rest refl (IsMode-plain rest mode) in
      let (p, r, good) = parse_items-IsParsed w rest init mode in
      (p, rw need (ap (λ v. parse_items (pieces v)) q ∙ ap parse_items e ∙ r), good)
  | inr no_need ↦ rw no_need (_, refl, record { enough = omega arith; mode = inl refl })
]
