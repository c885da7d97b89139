-- ===== src/Prelude/Text/Decimal.antt =====
-- Decimal numbers: `Atoi` after `%d`.
use Prim.Native.Nat.{ℕ, zero, suc, ◌+◌, ◌-◌, ◌*◌, ◌/◌, ◌%◌, ◌^◌, ◌≤◌, ◌<◌}
use mathlib.Core.Path.{◌≡◌, refl, ap}
use mathlib.Core.Logic.{◌≢◌, inl, inr, ◌⊎◌}
use mathlib.Core.List.{[], ◌∷◌, ◌++◌}
use mathlib.Core.Option.{some}
use native.Mathlib.Omega.{arith}
use open_falcon.Prelude.Tests.{ltb, ◌>>=◌, Bool-cases}
use open_falcon.Prelude.Lists.{All, length, length-append}
use native.Mathlib.Nat.{pow-suc}
use open_falcon.Prelude.Int.{ℤ, pos, negsuc, IsInt64}
use open_falcon.Prelude.Text.{Str, digits_value, unsigned_value, atoi, decimal, itoa}

abbrev pub IsDigit : ℕ → Type 0
IsDigit c = (b'0' ≤ c) × (c ≤ b'9')

All-append_end : (s : Str) (c : ℕ) → All IsDigit s → IsDigit c → All IsDigit (s ++ c ∷ [])
All-append_end [] c a d = (d, tt)
All-append_end (x ∷ s) c a d = (a.0, All-append_end s c a.1 d)

digits_value-append :
    (acc : ℕ) (s : Str) (c : ℕ)
    → All IsDigit s
    → IsDigit c
    → digits_value acc (s ++ c ∷ []) ≡ (digits_value acc s >>= λ v. some (v * 10 + (c - b'0')))
unfolding digits_value
digits_value-append acc [] c a d = ground arith
digits_value-append acc (x ∷ s) c a d =
    ground (arith, digits_value-append (acc * 10 + (x - b'0')) s c)

pub decimal-All : (fuel n : ℕ) → All IsDigit (decimal fuel n)
unfolding decimal
decimal-All zero n = tt
decimal-All (suc fuel) n = elim (Bool-cases (ltb n 10)) [
  | inl small ↦ rw small ((ground arith, ground arith), tt)
  | inr large ↦ rw large (
      All-append_end (decimal fuel (n / 10)) (b'0' + n % 10) (decimal-All fuel (n / 10))
        (omega arith, omega arith))
]

digits_value-one : (n : ℕ) → n < 10 → digits_value 0 ((b'0' + n) ∷ []) ≡ some n
unfolding digits_value
digits_value-one n h = ground arith

digits_value-decimal : (fuel n : ℕ) → n < fuel → digits_value 0 (decimal fuel n) ≡ some n
unfolding decimal
digits_value-decimal zero n h = absurd (omega arith)
digits_value-decimal (suc fuel) n h = elim (Bool-cases (ltb n 10)) [
  | inl small ↦ rw small (digits_value-one n (ground arith))
  | inr large ↦
      rw
        (
          large,
          digits_value-append 0 (decimal fuel (n / 10)) (b'0' + n % 10) (decimal-All fuel (n / 10))
              (omega arith, omega arith),
          digits_value-decimal fuel (n / 10) (ground arith),
        )
        (ap some (omega arith))
]

append_end-ne-nil : (s : Str) (c : ℕ) → s ++ c ∷ [] ≢ []
append_end-ne-nil [] c e = cc
append_end-ne-nil (x ∷ s) c e = cc

pub decimal-ne-nil : (fuel n : ℕ) → decimal (suc fuel) n ≢ []
unfolding decimal
decimal-ne-nil fuel n e = ground (arith, append_end-ne-nil (decimal fuel (n / 10)) (b'0' + n % 10))

unsigned_value-digits :
    (s : Str) (n : ℕ) → s ≢ [] → digits_value 0 s ≡ some n → unsigned_value s ≡ some n
unfolding unsigned_value
unsigned_value-digits [] n h e = absurd (h refl)
unsigned_value-digits (c ∷ s) n h e = e

atoi-digits :
    (s : Str) (n : ℕ)
    → s ≢ []
    → All IsDigit s
    → unsigned_value s ≡ some n
    → n < 2 ^ 63
    → atoi s ≡ some (pos n)
unfolding atoi
atoi-digits [] n h a e b = absurd (h refl)
atoi-digits (c ∷ s) n h a e b = ground arith

atoi-minus :
    (s : Str) (n : ℕ)
    → unsigned_value s ≡ some (suc n)
    → suc n ≤ 2 ^ 63
    → atoi (b'-' ∷ s) ≡ some (negsuc n)
unfolding atoi
atoi-minus s n e b = ground arith

unsigned_value-decimal : (n : ℕ) → unsigned_value (decimal (suc n) n) ≡ some n
unsigned_value-decimal n =
    unsigned_value-digits (decimal (suc n) n) n (decimal-ne-nil n n)
      (digits_value-decimal (suc n) n (omega arith))

-- `Atoi` reads back what `%d` prints of an int.
pub atoi-itoa : (z : ℤ) → IsInt64 z → atoi (itoa z) ≡ some z
unfolding itoa
atoi-itoa (pos n) i =
    atoi-digits (decimal (suc n) n) n (decimal-ne-nil n n) (decimal-All (suc n) n)
      (unsigned_value-decimal n) i.0
atoi-itoa (negsuc n) i =
    atoi-minus (decimal (suc (suc n)) (suc n)) n (unsigned_value-decimal (suc n)) i.1

-- A byte of a printed number: a digit or a minus sign.
abbrev pub IsNumeral : ℕ → Type 0
IsNumeral c = IsDigit c ⊎ (c ≡ b'-')

All-IsNumeral : (s : Str) → All IsDigit s → All IsNumeral s
All-IsNumeral [] a = tt
All-IsNumeral (c ∷ s) a = (inl a.0, All-IsNumeral s a.1)

pub itoa-All : (z : ℤ) → All IsNumeral (itoa z)
unfolding itoa
itoa-All (pos n) = All-IsNumeral (decimal (suc n) n) (decimal-All (suc n) n)
itoa-All (negsuc n) =
    (inr refl, All-IsNumeral (decimal (suc (suc n)) (suc n)) (decimal-All (suc (suc n)) (suc n)))

-- A number below 10 ^ k has at most k digits.
length-decimal-le : (k fuel n : ℕ) → n < 10 ^ suc k → length (decimal fuel n) ≤ suc k
unfolding decimal
length-decimal-le k zero n h = omega arith
length-decimal-le zero (suc fuel) n h = ground arith
length-decimal-le (suc k) (suc fuel) n h = elim (Bool-cases (ltb n 10)) [
  | inl small ↦ rw small (omega arith)
  | inr large ↦ rw large (
      omega (
        arith,
        length-append (decimal fuel (n / 10)) ((b'0' + n % 10) ∷ []),
        length-decimal-le k fuel (n / 10) (omega (arith, pow-suc 10 (suc k))),
      ))
]

pub length-itoa-le : (z : ℤ) → IsInt64 z → length (itoa z) ≤ 20
unfolding itoa
length-itoa-le (pos n) i = omega (arith, length-decimal-le 18 (suc n) n (omega arith))
length-itoa-le (negsuc n) i =
    omega (arith, length-decimal-le 18 (suc (suc n)) (suc n) (omega arith))
