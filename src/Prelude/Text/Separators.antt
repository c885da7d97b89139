-- ===== src/Prelude/Text/Separators.antt =====
-- Splitting and slicing strings whose parts hold no separator.
use Prim.Native.Nat.{ℕ, suc, ◌+◌}
use mathlib.Core.Path.{◌≡◌, refl, ap}
use mathlib.Core.Bool.{false}
use mathlib.Core.List.{List, [], ◌∷◌, ◌++◌}
use mathlib.Core.Option.{some}
use native.Mathlib.Omega.{arith}
use open_falcon.Prelude.Tests.{nat_eq}
use open_falcon.Prelude.Lists.{All, length, take, drop, length-append}
use open_falcon.Prelude.Int.{pos}
use open_falcon.Prelude.Text.{Str, split, slice, index_from, index_byte}

-- No byte of the string is `c`.
abbrev pub Lacks : ℕ → Str → Type 0
Lacks c = All (λ b. nat_eq b c ≡ false)

pub split-Lacks : (c : ℕ) (s : Str) → Lacks c s → split c s ≡ s ∷ []
split-Lacks c [] a = refl
split-Lacks c (b ∷ s) a = ground (arith, split-Lacks c s a.1)

pub split-append : (c : ℕ) (s t : Str) → Lacks c s → split c (s ++ c ∷ t) ≡ s ∷ split c t
split-append c [] t a = ground arith
split-append c (b ∷ s) t a = ground (arith, split-append c s t a.1)

pub take-length-append {ℓ} : {A : Type ℓ} (xs ys : List A) → take (length xs) (xs ++ ys) ≡ xs
take-length-append [] ys = refl
take-length-append (x ∷ xs) ys = ap (◌∷◌ x) (take-length-append xs ys)

pub drop-length-append {ℓ} : {A : Type ℓ} (xs ys : List A) → drop (length xs) (xs ++ ys) ≡ ys
drop-length-append [] ys = refl
drop-length-append (x ∷ xs) ys = drop-length-append xs ys

-- The bytes from the end of `s` to the end of `t`.
pub slice-middle :
    (s t u : Str) (i j : ℕ)
    → i ≡ length s
    → j ≡ length s + length t
    → slice (s ++ (t ++ u)) (pos i) (pos j) ≡ some t
unfolding slice
slice-middle s t u i j e f =
    rw (e, f)
      (ground (
        arith,
        length-append s (t ++ u),
        length-append t u,
        drop-length-append s (t ++ u),
        take-length-append t u,
      ))

pub index_from-append :
    (c i : ℕ) (s t : Str) → Lacks c s → index_from c i (s ++ c ∷ t) ≡ some (i + length s)
index_from-append c i [] t a = ground arith
index_from-append c i (b ∷ s) t a = ground (arith, index_from-append c (suc i) s t a.1)

pub index_byte-append : (c : ℕ) (s t : Str) → Lacks c s → index_byte c (s ++ c ∷ t) ≡ pos (length s)
unfolding index_byte
index_byte-append c s t a = ground (arith, index_from-append c 0 s t a)

pub Lacks-append : (c : ℕ) (s t : Str) → Lacks c s → Lacks c t → Lacks c (s ++ t)
Lacks-append c [] t a b = b
Lacks-append c (x ∷ s) t a b = (a.0, Lacks-append c s t a.1 b)
