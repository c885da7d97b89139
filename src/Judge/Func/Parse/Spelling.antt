-- ===== src/Judge/Func/Parse/Spelling.antt =====
-- The spelling `name(#n)` or `name(#n,m)` of a function, and what reading it back gives.
use mathlib.Core.List.{append_assoc}
use open_falcon.Prelude.{
  ℕ, ◌+◌, ◌^◌, ◌<◌, ◌≡◌, refl, ap, subst, ◌∙◌, List, [], ◌∷◌, ◌++◌, none, some, arith, length,
  length-append, All,
}
use open_falcon.Prelude.Int.{ℤ, pos, IsInt64, add64, sub64, add64-pos, sub64-pos}
use open_falcon.Prelude.Text.{Str, str, slice, index_byte, itoa}
use open_falcon.Prelude.Text.Decimal.{IsNumeral, itoa-All, atoi-itoa, length-itoa-le}
use open_falcon.Prelude.Text.Separators.{
  Lacks, split-Lacks, split-append, slice-middle, index_byte-append, Lacks-append,
}
use open_falcon.Judge.Func.{
  Function, max_function, min_function, all_function, lookup_function, sum_function, avg_function,
  diff_function, std_deviation_function, pdiff_function, kpdiff_function, kdiff_function,
}
use open_falcon.Judge.Func.Parse.{parse_func_from_string, atois, by_name}

-- `name(#args)`.
abbrev pub spell : Str → Str → Str
spell name args = name ++ (str "(#" ++ (args ++ str ")"))

numeral-Lacks_comma : (s : Str) → All IsNumeral s → Lacks b',' s
numeral-Lacks_comma [] a = tt
numeral-Lacks_comma (c ∷ s) a = (ground arith, numeral-Lacks_comma s a.1)

atois-one : (n : ℤ) → IsInt64 n → atois (itoa n) ≡ some (n ∷ [])
unfolding atois
atois-one n i =
    rw (split-Lacks b',' (itoa n) (numeral-Lacks_comma (itoa n) (itoa-All n)), atoi-itoa n i)

atois-two : (m n : ℤ) → IsInt64 m → IsInt64 n → atois (itoa m ++ b',' ∷ itoa n) ≡ some (m ∷ n ∷ [])
unfolding atois
atois-two m n i j = rw (
  split-append b',' (itoa m) (itoa n) (numeral-Lacks_comma (itoa m) (itoa-All m)),
  split-Lacks b',' (itoa n) (numeral-Lacks_comma (itoa n) (itoa-All n)),
  atoi-itoa m i,
  atoi-itoa n j,
)

module _ (c : ℕ) (cs args : Str) where
  abbrev name : Str
  name = c ∷ cs

  length-spell : length (spell name args) ≡ length name + length args + 3
  length-spell =
      omega
        (arith, length-append name (str "(#" ++ (args ++ str ")")), length-append args (str ")"))

  index_byte-spell : Lacks b'#' name → index_byte b'#' (spell name args) ≡ pos (length name + 1)
  index_byte-spell a =
      subst (λ s. index_byte b'#' s ≡ pos (length name + 1))
        (append_assoc name (str "(") (str "#" ++ (args ++ str ")")))
        (index_byte-append b'#' (name ++ str "(") (args ++ str ")")
            (Lacks-append b'#' name (str "(") a (refl, tt))
          ∙ ap pos (length-append name (str "(")))

  slice-spell_args :
      slice (spell name args) (pos (length name + 2)) (pos (length name + length args + 2))
      ≡ some args
  slice-spell_args =
      subst (λ s. slice s (pos (length name + 2)) (pos (length name + length args + 2)) ≡ some args)
        (append_assoc name (str "(#") (args ++ str ")"))
        (slice-middle (name ++ str "(#") args (str ")") _ _
          (omega (arith, length-append name (str "(#")))
          (omega (arith, length-append name (str "(#"))))

  slice-spell_name : slice (spell name args) (pos 0) (pos (length name)) ≡ some name
  slice-spell_name = slice-middle [] name _ 0 (length name) refl (omega arith)

module _ {F : Type 0} (op : Str) (right : F) where
  -- Reading a spelling gives its name and its numbers to the `switch`.
  parse-spell :
      (c : ℕ) (cs args : Str) (ns : List ℤ)
      → Lacks b'#' (c ∷ cs)
      → length (spell (c ∷ cs) args) < 2 ^ 63
      → atois args ≡ some ns
      → parse_func_from_string (spell (c ∷ cs) args) op right ≡ by_name (c ∷ cs) ns op right
  unfolding parse_func_from_string
  parse-spell c cs args ns a b e =
      let k = length (c ∷ cs) in
      let size = length-spell c cs args in
      let low : add64 (pos (k + 1)) (pos 1) ≡ pos (k + 2) =
        add64-pos (k + 1) 1 (omega arith) ∙ ap pos (omega arith) in
      let high : sub64 (pos (k + length args + 3)) (pos 1) ≡ pos (k + length args + 2) =
        sub64-pos (k + length args + 3) 1 (omega arith) (omega arith) ∙ ap pos (omega arith) in
      let front : sub64 (pos (k + 1)) (pos 1) ≡ pos k =
        sub64-pos (k + 1) 1 (omega arith) (omega arith) ∙ ap pos (omega arith) in
      rw (
        index_byte-spell c cs args a,
        size,
        low,
        high,
        slice-spell_args c cs args,
        e,
        front,
        slice-spell_name c cs args,
      )

  parse-one :
      (c : ℕ) (cs : Str) (n : ℤ)
      → Lacks b'#' (c ∷ cs)
      → length cs < 100
      → IsInt64 n
      → parse_func_from_string (spell (c ∷ cs) (itoa n)) op right
        ≡ by_name (c ∷ cs) (n ∷ []) op right
  parse-one c cs n a b i =
      parse-spell c cs (itoa n) (n ∷ []) a
        (omega (arith, length-spell c cs (itoa n), length-itoa-le n i)) (atois-one n i)

  parse-two :
      (c : ℕ) (cs : Str) (m n : ℤ)
      → Lacks b'#' (c ∷ cs)
      → length cs < 100
      → IsInt64 m
      → IsInt64 n
      → parse_func_from_string (spell (c ∷ cs) (itoa m ++ b',' ∷ itoa n)) op right
        ≡ by_name (c ∷ cs) (m ∷ n ∷ []) op right
  parse-two c cs m n a b i j =
      parse-spell c cs (itoa m ++ b',' ∷ itoa n) (m ∷ n ∷ []) a
        (omega (
          arith,
          length-spell c cs (itoa m ++ b',' ∷ itoa n),
          length-append (itoa m) (b',' ∷ itoa n),
          length-itoa-le m i,
          length-itoa-le n j,
        ))
        (atois-two m n i j)

module _ {F : Type 0} where
  abbrev pub operator_of : Function F → Str
  operator_of (max_function n op right) = op
  operator_of (min_function n op right) = op
  operator_of (all_function n op right) = op
  operator_of (sum_function n op right) = op
  operator_of (avg_function n op right) = op
  operator_of (diff_function n op right) = op
  operator_of (pdiff_function n op right) = op
  operator_of (std_deviation_function n op right) = op
  operator_of (lookup_function m n op right) = op
  operator_of (kdiff_function m n op right) = op
  operator_of (kpdiff_function m n op right) = op

  abbrev pub right_value_of : Function F → F
  right_value_of (max_function n op right) = right
  right_value_of (min_function n op right) = right
  right_value_of (all_function n op right) = right
  right_value_of (sum_function n op right) = right
  right_value_of (avg_function n op right) = right
  right_value_of (diff_function n op right) = right
  right_value_of (pdiff_function n op right) = right
  right_value_of (std_deviation_function n op right) = right
  right_value_of (lookup_function m n op right) = right
  right_value_of (kdiff_function m n op right) = right
  right_value_of (kpdiff_function m n op right) = right

  -- The parameters are ints.
  abbrev pub HasInts : Function F → Type 0
  HasInts (max_function n op right) = IsInt64 n
  HasInts (min_function n op right) = IsInt64 n
  HasInts (all_function n op right) = IsInt64 n
  HasInts (sum_function n op right) = IsInt64 n
  HasInts (avg_function n op right) = IsInt64 n
  HasInts (diff_function n op right) = IsInt64 n
  HasInts (pdiff_function n op right) = IsInt64 n
  HasInts (std_deviation_function n op right) = IsInt64 n
  HasInts (lookup_function m n op right) = IsInt64 m × IsInt64 n
  HasInts (kdiff_function m n op right) = IsInt64 m × IsInt64 n
  HasInts (kpdiff_function m n op right) = IsInt64 m × IsInt64 n

  -- The spelling of a function in the configuration: `max(#3)`, `lookup(#2,3)`.
  abbrev pub show_function : Function F → Str
  show_function (max_function n op right) = spell (str "max") (itoa n)
  show_function (min_function n op right) = spell (str "min") (itoa n)
  show_function (all_function n op right) = spell (str "all") (itoa n)
  show_function (sum_function n op right) = spell (str "sum") (itoa n)
  show_function (avg_function n op right) = spell (str "avg") (itoa n)
  show_function (diff_function n op right) = spell (str "diff") (itoa n)
  show_function (pdiff_function n op right) = spell (str "pdiff") (itoa n)
  show_function (std_deviation_function n op right) = spell (str "stddev") (itoa n)
  show_function (lookup_function m n op right) = spell (str "lookup") (itoa m ++ b',' ∷ itoa n)
  show_function (kdiff_function m n op right) = spell (str "kdiff") (itoa m ++ b',' ∷ itoa n)
  show_function (kpdiff_function m n op right) = spell (str "kpdiff") (itoa m ++ b',' ∷ itoa n)

  -- `ParseFuncFromString` reads back every function from its spelling, with its operator and its
  -- right value, whatever ints it has as parameters.
  pub parse-show :
      (f : Function F)
      → HasInts f
      → parse_func_from_string (show_function f) (operator_of f) (right_value_of f) ≡ some (some f)
  unfolding by_name
  parse-show (max_function n op right) i =
      parse-one op right b'm' (str "ax") n (ground arith) (omega arith) i
  parse-show (min_function n op right) i =
      parse-one op right b'm' (str "in") n (ground arith) (omega arith) i
  parse-show (all_function n op right) i =
      parse-one op right b'a' (str "ll") n (ground arith) (omega arith) i
  parse-show (sum_function n op right) i =
      parse-one op right b's' (str "um") n (ground arith) (omega arith) i
  parse-show (avg_function n op right) i =
      parse-one op right b'a' (str "vg") n (ground arith) (omega arith) i
  parse-show (diff_function n op right) i =
      parse-one op right b'd' (str "iff") n (ground arith) (omega arith) i
  parse-show (pdiff_function n op right) i =
      parse-one op right b'p' (str "diff") n (ground arith) (omega arith) i
  parse-show (std_deviation_function n op right) i =
      parse-one op right b's' (str "tddev") n (ground arith) (omega arith) i
  parse-show (lookup_function m n op right) i =
      parse-two op right b'l' (str "ookup") m n (ground arith) (omega arith) i.0 i.1
  parse-show (kdiff_function m n op right) i =
      parse-two op right b'k' (str "diff") m n (ground arith) (omega arith) i.0 i.1
  parse-show (kpdiff_function m n op right) i =
      parse-two op right b'k' (str "pdiff") m n (ground arith) (omega arith) i.0 i.1

  -- `lookup`, `kdiff` and `kpdiff` with a single number: `args[1]` is out of range, and the call
  -- panics instead of returning an error, whatever the number.
  pub parse_single_panics :
      (n : ℤ) (op : Str) (right : F)
      → IsInt64 n
      → (parse_func_from_string (spell (str "lookup") (itoa n)) op right ≡ none)
        × (parse_func_from_string (spell (str "kdiff") (itoa n)) op right ≡ none)
        × (parse_func_from_string (spell (str "kpdiff") (itoa n)) op right ≡ none)
  unfolding by_name
  parse_single_panics n op right i = (
    parse-one op right b'l' (str "ookup") n (ground arith) (omega arith) i,
    parse-one op right b'k' (str "diff") n (ground arith) (omega arith) i,
    parse-one op right b'k' (str "pdiff") n (ground arith) (omega arith) i,
  )
