-- ===== src/Aggregator/Expression/Shape.antt =====
-- What follows the last counter of a valid expression, and what is parsed of it.
use open_falcon.Prelude.{
  ℕ, ◌≡◌, refl, ap, ◌∙◌, Bool, true, false, not, ◌&&◌, ◌||◌, ◌⊎◌, inl, inr, Bool-cases, List, [],
  ◌∷◌, ◌++◌, some, arith, eq_str, nat_eq, every,
}
use open_falcon.Prelude.Text.{Str}
use open_falcon.Aggregator.Expression.{
  is_separator, ends_run, pieces, NumberState, begin, whole_part, point, fraction, is_number,
  is_comparison, TermState, dollar, paren, name_start, in_name, after_term, terms,
}

-- No byte of the text is a separator.
abbrev pub is_plain : Str → Bool
is_plain s = every (λ c. not (is_separator c)) s

pieces-plain : (s : Str) → is_plain s ≡ true → pieces s ≡ s ∷ []
unfolding pieces
pieces-plain [] h = refl
pieces-plain (c ∷ s) h =
    let no : is_separator c ≡ false = ground (arith, h) in
    rw (no, pieces, pieces-plain s (ground (arith, h))) refl

ends_run-plain : (s : Str) → is_plain s ≡ true → ends_run s ≡ true
ends_run-plain [] h = refl
ends_run-plain (c ∷ s) h = ground (arith, h)

-- The last piece is what stands behind the last separator, and is not the only one.
pub pieces-last :
    (xs : Str) (c : ℕ) (rest : Str)
    → is_separator c ≡ true
    → is_plain rest ≡ true
    → (w : Str) × (init : List Str) × (pieces (xs ++ c ∷ rest) ≡ w ∷ (init ++ rest ∷ []))
unfolding pieces
pieces-last [] c rest e h =
    ([], [], rw (e, ends_run-plain rest h, pieces, pieces-plain rest h) refl)
pieces-last (x ∷ xs) c rest e h =
    let (w, init, q) = pieces-last xs c rest e h in
    elim (Bool-cases (is_separator x)) [
      | inl sep ↦ elim (Bool-cases (ends_run (xs ++ c ∷ rest))) [
        | inl ends ↦ ([], w ∷ init, rw (sep, ends, pieces, q) refl)
        | inr more ↦ (w, init, rw (sep, more, pieces) q)
      ]
      | inr other ↦ (x ∷ w, init, rw (other, pieces, q) refl)
    ]

-- What `terms` leaves stands behind a closing parenthesis.
abbrev pub IsBehind : Str → Str → Type 0
IsBehind s rest = (xs : Str) × (s ≡ xs ++ b')' ∷ rest)

abbrev Left : TermState → Str → Str → Type 0
Left after_term s rest = (s ≡ rest) ⊎ IsBehind s rest
Left dollar s rest = IsBehind s rest
Left paren s rest = IsBehind s rest
Left name_start s rest = IsBehind s rest
Left in_name s rest = IsBehind s rest

IsBehind-cons : (c : ℕ) (s rest : Str) → IsBehind s rest → IsBehind (c ∷ s) rest
IsBehind-cons c s rest (xs, e) = (c ∷ xs, ap (λ t. c ∷ t) e)

pub terms-Left :
    (many : Bool) (st : TermState) (s rest : Str) → terms many st s ≡ some rest → Left st s rest
unfolding terms
terms-Left many after_term [] rest e = inl (cc e)
terms-Left many dollar [] rest e = cc e
terms-Left many paren [] rest e = cc e
terms-Left many name_start [] rest e = cc e
terms-Left many in_name [] rest e = cc e
terms-Left many dollar (c ∷ s) rest e = elim (Bool-cases (nat_eq c b'$')) [
  | inl hit ↦ IsBehind-cons c s rest (terms-Left many paren s rest (rw (hit, terms) at e))
  | inr miss ↦ absurd (ground (arith, miss, e))
]
terms-Left many paren (c ∷ s) rest e = elim (Bool-cases (nat_eq c b'(')) [
  | inl hit ↦ IsBehind-cons c s rest (terms-Left many name_start s rest (rw (hit, terms) at e))
  | inr miss ↦ absurd (ground (arith, miss, e))
]
terms-Left many name_start (c ∷ s) rest e = elim (Bool-cases (nat_eq c b'(' || nat_eq c b')')) [
  | inl stop ↦ absurd (ground (arith, stop, e))
  | inr go ↦ IsBehind-cons c s rest (terms-Left many in_name s rest (rw (go, terms) at e))
]
terms-Left many in_name (c ∷ s) rest e = elim (Bool-cases (nat_eq c b'(')) [
  | inl stop ↦ absurd (ground (arith, stop, e))
  | inr go ↦ elim (Bool-cases (nat_eq c b')')) [
    | inl close ↦ elim (terms-Left many after_term s rest (rw (go, close, terms) at e)) [
      | inl same ↦ ([], ap (λ t. c ∷ t) same ∙ ap (λ x. x ∷ rest) (ground (arith, close)))
      | inr behind ↦ IsBehind-cons c s rest behind
    ]
    | inr name ↦ IsBehind-cons c s rest (terms-Left many in_name s rest (rw (go, name, terms) at e))
  ]
]
terms-Left many after_term (c ∷ s) rest e =
    elim (Bool-cases (many && (nat_eq c b'+' || nat_eq c b'-'))) [
      | inl sign ↦
          inr (IsBehind-cons c s rest (terms-Left many dollar s rest (rw (sign, terms) at e)))
      | inr stop ↦ let here : some (c ∷ s) ≡ some rest = rw (stop, terms) at e in inl (cc here)
    ]

is_number-plain : (st : NumberState) (s : Str) → is_number st s ≡ true → is_plain s ≡ true
is_number-plain begin [] h = refl
is_number-plain whole_part [] h = refl
is_number-plain point [] h = refl
is_number-plain fraction [] h = refl
is_number-plain begin (c ∷ s) h = ground (arith, h, is_number-plain whole_part s)
is_number-plain whole_part (c ∷ s) h =
    ground (arith, h, is_number-plain whole_part s, is_number-plain point s)
is_number-plain point (c ∷ s) h = ground (arith, h, is_number-plain fraction s)
is_number-plain fraction (c ∷ s) h = ground (arith, h, is_number-plain fraction s)

is_comparison-plain : (s : Str) → is_comparison s ≡ true → is_plain s ≡ true
is_comparison-plain [] h = refl
is_comparison-plain (c ∷ []) h = ground (arith, h)
is_comparison-plain (c ∷ d ∷ s) h = elim (Bool-cases (is_number begin s)) [
  | inl number ↦ elim (Bool-cases (is_number begin (d ∷ s))) [
    | inl longer ↦ let a = is_number-plain begin (d ∷ s) longer in ground (arith, h, a)
    | inr short ↦ let a = is_number-plain begin s number in ground (arith, h, short, a)
  ]
  | inr none_there ↦
      let longer : is_number begin (d ∷ s) ≡ true = ground (arith, h, none_there) in
      let a = is_number-plain begin (d ∷ s) longer in ground (arith, h, none_there, a)
]

-- What a computed expression ends with: nothing, or a comparison.
abbrev pub IsMode : Str → Type 0
IsMode rest = (rest ≡ []) ⊎ (is_comparison rest ≡ true)

pub IsMode-plain : (rest : Str) → IsMode rest → is_plain rest ≡ true
IsMode-plain rest (inl e) = rw e refl
IsMode-plain rest (inr h) = is_comparison-plain rest h
