-- ===== src/Aggregator/Mode.antt =====
-- What `compareSum` finds in the mode of an expression.
use open_falcon.Prelude.{
  ℕ, ◌≡◌, refl, sym, subst, true, false, Bool-cases, inl, inr, [], ◌∷◌, some, arith, ◌==◌, eq_str,
}
use open_falcon.Prelude.Text.{Str}
use open_falcon.Aggregator.Expression.{is_digit, begin, is_number, is_comparison}
use open_falcon.Aggregator.{find_mode, is_mode_char, is_value_char, span}

-- A number begins with a digit.
number-first :
    (s : Str)
    → is_number begin s ≡ true
    → (d : ℕ) × (rest : Str) × (s ≡ d ∷ rest) × (is_digit d ≡ true)
number-first [] h = absurd (ground (arith, h))
number-first (d ∷ rest) h = (d, rest, refl, ground (arith, h))

-- The first match is at the start.
find_mode-start :
    (s : Str)
    → ((span is_mode_char s).0 == []) ≡ false
    → ((span is_value_char (span is_mode_char s).1).0 == []) ≡ false
    → (m : Str × Str) × (find_mode s ≡ some m)
unfolding find_mode
find_mode-start [] a b = absurd (ground (arith, a))
find_mode-start (c ∷ s) a b = rw (a, b) (_, refl)

short_mode :
    (c d : ℕ) (s : Str)
    → is_mode_char c ≡ true
    → is_digit d ≡ true
    → (m : Str × Str) × (find_mode (c ∷ d ∷ s) ≡ some m)
short_mode c d s a b =
    let no : is_mode_char d ≡ false = ground (arith, b) in
    let yes : is_value_char d ≡ true = ground (arith, b) in
    find_mode-start (c ∷ d ∷ s) (rw a refl) (rw (a, no, yes) refl)

long_mode :
    (c e d : ℕ) (s : Str)
    → is_mode_char c ≡ true
    → is_mode_char e ≡ true
    → is_digit d ≡ true
    → (m : Str × Str) × (find_mode (c ∷ e ∷ d ∷ s) ≡ some m)
long_mode c e d s a a' b =
    let no : is_mode_char d ≡ false = ground (arith, b) in
    let yes : is_value_char d ≡ true = ground (arith, b) in
    find_mode-start (c ∷ e ∷ d ∷ s) (rw a refl) (rw (a, a', no, yes) refl)

abbrev pub Found : Str → Type 0
Found s = (m : Str × Str) × (find_mode s ≡ some m)

short-Found :
    (c : ℕ) (s : Str) (d : ℕ) (rest : Str)
    → is_mode_char c ≡ true
    → s ≡ d ∷ rest
    → is_digit d ≡ true
    → Found (c ∷ s)
short-Found c s d rest a q b = subst (λ t. Found (c ∷ t)) (sym q) (short_mode c d rest a b)

long-Found :
    (c e : ℕ) (s : Str) (d : ℕ) (rest : Str)
    → is_mode_char c ≡ true
    → is_mode_char e ≡ true
    → s ≡ d ∷ rest
    → is_digit d ≡ true
    → Found (c ∷ e ∷ s)
long-Found c e s d rest a a' q b =
    subst (λ t. Found (c ∷ e ∷ t)) (sym q) (long_mode c e d rest a a' b)

-- `compareSum` finds the comparison and the number in a valid mode.
pub comparison-Found : (s : Str) → is_comparison s ≡ true → Found s
comparison-Found [] h = absurd (ground (arith, h))
comparison-Found (c ∷ []) h = absurd (ground (arith, h))
comparison-Found (c ∷ e ∷ s) h = elim (Bool-cases (is_number begin (e ∷ s))) [
  | inl short ↦
      let (d, rest, q, digit) = number-first (e ∷ s) short in
      short-Found c (e ∷ s) d rest (ground (arith, h)) q digit
  | inr longer ↦
      let (d, rest, q, digit) = number-first s (ground (arith, h, longer)) in
      long-Found c e s d rest (ground (arith, h, longer)) (ground (arith, h, longer)) q digit
]
