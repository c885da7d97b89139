-- ===== src/Float.antt =====
-- Go's float64, which the checker has no counterpart of: an interface over the operations that the
-- program uses, and a fixed-point instance on which the tests run.
use open_falcon.Prelude.{
  ℕ, zero, suc, ◌+◌, ◌*◌, ◌/◌, ◌≡◌, Bool, true, false, not, arith, if◌then◌else◌, leb,
}
use open_falcon.Prelude.Int.{ℤ, pos, negsuc, pos_part, neg_part, sub_ℕ, ltb_ℤ, leb_ℤ, int_eq}

pub record Float (F : Type 0) : Type 0 where
  pub add : F → F → F
  pub sub : F → F → F
  pub mul : F → F → F
  pub div : F → F → F
  pub abs : F → F
  pub sqrt : F → F
  pub lt : F → F → Bool
  pub le : F → F → Bool
  pub eq : F → F → Bool
  -- Neither NaN nor infinite: what JSON can hold.
  pub is_finite : F → Bool
  -- `float64(n)` of an int.
  pub of_int : ℤ → F
  -- The literal 0.0001.
  pub epsilon : F
  -- The literal 0.000001.
  pub tiny : F

-- What IEEE 754 says of the order. `x <= x` fails at NaN only, and so tells the numbers.
pub record IsOrdered {F : Type 0} (fl : Float F) : Type 0 where
  pub le_trans : (x y z : F) → fl.le x y ≡ true → fl.le y z ≡ true → fl.le x z ≡ true
  pub le_of_lt : (x y : F) → fl.lt x y ≡ true → fl.le x y ≡ true
  pub le_of_not_lt :
      (x y : F) → fl.le x x ≡ true → fl.le y y ≡ true → fl.lt x y ≡ false → fl.le y x ≡ true

-- Numbers with six decimals, as whole numbers of millionths.
abbrev scale : ℕ
scale = 1_000_000

abbrev magnitude : ℤ → ℕ
magnitude a = pos_part a + neg_part a

abbrev is_negative : ℤ → Bool
is_negative (pos n) = false
is_negative (negsuc n) = true

abbrev signed : Bool → ℕ → ℤ
signed true n = sub_ℕ 0 n
signed false n = pos n

abbrev differ : Bool → Bool → Bool
differ true b = not b
differ false b = b

-- The root from below, two binary digits of `n` at a time.
abbrev root : ℕ → ℕ → ℕ
root zero n = 0
root (suc fuel) n = let r = 2 * root fuel (n / 4) in if leb ((r + 1) * (r + 1)) n then r + 1 else r

instance abbrev pub fixed_point : Float ℤ
fixed_point = record {
  add = λ a b. sub_ℕ (pos_part a + pos_part b) (neg_part a + neg_part b);
  sub = λ a b. sub_ℕ (pos_part a + neg_part b) (neg_part a + pos_part b);
  mul = λ a b. signed (differ (is_negative a) (is_negative b)) (magnitude a * magnitude b / scale);
  div = λ a b. signed (differ (is_negative a) (is_negative b)) (magnitude a * scale / magnitude b);
  abs = λ a. pos (magnitude a);
  sqrt = λ a. pos (root 64 (magnitude a * scale));
  lt = ltb_ℤ;
  le = leb_ℤ;
  is_finite = λ a. true;
  eq = int_eq;
  of_int = λ n. signed (is_negative n) (magnitude n * scale);
  epsilon = pos 100;
  tiny = pos 1;
}

pub fixed_point-IsOrdered : IsOrdered fixed_point
fixed_point-IsOrdered = record {
  le_trans = λ x y z h k. ground arith;
  le_of_lt = λ x y h. ground arith;
  le_of_not_lt = λ x y h k l. ground arith;
}
