-- ===== src/Prelude/Text.antt =====
-- Go strings as lists of bytes, and the parts of the packages `strings` and `strconv` that the
-- program uses.
pub mod Decimal
pub mod Separators
use Prim.Native.Nat.{ℕ, zero, suc, ◌+◌, ◌-◌, ◌*◌, ◌/◌, ◌%◌, ◌^◌}
use Prim.Native.Char.{code}
use Prim.Native.String.{String}
use mathlib.Core.Bool.{Bool, true, false, ◌&&◌}
use mathlib.Core.List.{List, [], ◌∷◌, ◌++◌}
use mathlib.Core.Option.{Option, none, some}
use open_falcon.Prelude.Tests.{ltb, leb, nat_eq, if◌then◌else◌, ◌>>=◌}
use open_falcon.Prelude.Lists.{length, take, drop}
use open_falcon.Prelude.Int.{ℤ, pos, negsuc, pos_part, leb_ℤ, sub64}

abbrev pub Str : Type 0
Str = List ℕ

-- A literal, which is ASCII throughout the program.
abbrev pub str : String → Str
str String.[] = []
str (String.◌∷◌ c s) = code c ∷ str s

-- `s[low:high]`, which panics out of range.
unfoldable pub slice : Str → ℤ → ℤ → Option Str
slice s low high =
    if leb_ℤ (pos 0) low && (leb_ℤ low high && leb_ℤ high (pos (length s)))
    then some (take (pos_part high - pos_part low) (drop (pos_part low) s))
    else none

-- The first index of a byte, from index `i` on.
abbrev pub index_from : ℕ → ℕ → Str → Option ℕ
index_from c i [] = none
index_from c i (b ∷ s) = if nat_eq b c then some i else index_from c (suc i) s

-- `strings.Index(s, sep)` for a separator of one byte: -1 where there is none.
unfoldable pub index_byte : ℕ → Str → ℤ
index_byte c s = elim (index_from c 0 s) [ some i ↦ pos i | none ↦ negsuc 0 ]

abbrev pub extend_first : ℕ → List Str → List Str
extend_first c [] = (c ∷ []) ∷ []
extend_first c (w ∷ ws) = (c ∷ w) ∷ ws

-- `strings.Split(s, sep)` for a separator of one byte.
abbrev pub split : ℕ → Str → List Str
split sep [] = [] ∷ []
split sep (c ∷ s) =
    let rest = split sep s in if nat_eq c sep then [] ∷ rest else extend_first c rest

-- The number that decimal digits stand for, behind those that make up `acc`.
unfoldable pub digits_value : ℕ → Str → Option ℕ
digits_value acc [] = some acc
digits_value acc (c ∷ s) =
    let rest = digits_value (acc * 10 + (c - b'0')) s in
    if leb b'0' c && leb c b'9' then rest else none

unfoldable pub unsigned_value : Str → Option ℕ
unfolding digits_value
unsigned_value [] = none
unsigned_value (c ∷ s) = digits_value 0 (c ∷ s)

abbrev positive : Option ℕ → Option ℤ
positive o = o >>= λ n. if ltb n (2 ^ 63) then some (pos n) else none

abbrev negative : Option ℕ → Option ℤ
negative o =
    o >>= λ n. if leb n (2 ^ 63) then some (if nat_eq n 0 then pos 0 else negsuc (n - 1)) else none

-- `strconv.Atoi`: a sign, then digits, within the range of an int; `none` is an error.
unfoldable pub atoi : Str → Option ℤ
unfolding unsigned_value
atoi [] = none
atoi (c ∷ s) =
    if nat_eq c b'-'
    then negative (unsigned_value s)
    else if nat_eq c b'+'
    then positive (unsigned_value s)
    else positive (unsigned_value (c ∷ s))

-- The digits of a number, with fuel for as many as it has.
unfoldable pub decimal : ℕ → ℕ → Str
decimal zero n = []
decimal (suc fuel) n =
    let front = decimal fuel (n / 10) in
    if ltb n 10 then (b'0' + n) ∷ [] else front ++ (b'0' + n % 10) ∷ []

-- `%d` of an int. One more than the number is fuel enough.
unfoldable pub itoa : ℤ → Str
unfolding decimal
itoa (pos n) = decimal (suc n) n
itoa (negsuc n) = b'-' ∷ decimal (suc (suc n)) (suc n)
