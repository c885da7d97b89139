-- ===== src/Judge/Func/Parse.antt =====
-- modules/judge/store/func.go: `ParseFuncFromString`. Of the results `none` is a panic, and
-- `some none` the error that the caller logs.
pub mod Spelling
use open_falcon.Prelude.{
  ℕ, Bool, List, [], ◌∷◌, Option, none, some, ◌>>=◌, ◌==◌, eq_str, if◌then◌else◌, get_elem?, length,
}
use open_falcon.Prelude.Int.{ℤ, pos, add64, sub64}
use open_falcon.Prelude.Text.{Str, str, slice, index_byte, split, atoi}
use open_falcon.Judge.Func.{
  Function, max_function, min_function, all_function, lookup_function, sum_function, avg_function,
  diff_function, std_deviation_function, pdiff_function, kpdiff_function, kdiff_function,
}

-- `Atoi` of each part, up to the first error.
abbrev pub all_ints : List Str → Option (List ℤ)
all_ints [] = some []
all_ints (w ∷ ws) = atoi w >>= λ n. all_ints ws >>= λ ns. some (n ∷ ns)

unfoldable pub atois : Str → Option (List ℤ)
atois s = all_ints (split b',' s)

module _ {F : Type 0} where
  abbrev pub one : List ℤ → (ℤ → Function F) → Option (Option (Function F))
  one args make = get_elem? args 0 >>= λ limit. some (some (make limit))

  abbrev pub two : List ℤ → (ℤ → ℤ → Function F) → Option (Option (Function F))
  two args make =
      get_elem? args 0 >>= λ num. get_elem? args 1 >>= λ limit. some (some (make num limit))

  -- `if err != nil { return nil, err }`.
  abbrev pub unless_error :
      Option (List ℤ) → (List ℤ → Option (Option (Function F))) → Option (Option (Function F))
  unless_error none rest = some none
  unless_error (some args) rest = rest args

  by_name : Str → List ℤ → Str → F → Option (Option (Function F))
  by_name name args op right =
      if name == str "max"
      then one args (λ n. max_function n op right)
      else if name == str "min"
      then one args (λ n. min_function n op right)
      else if name == str "all"
      then one args (λ n. all_function n op right)
      else if name == str "sum"
      then one args (λ n. sum_function n op right)
      else if name == str "avg"
      then one args (λ n. avg_function n op right)
      else if name == str "diff"
      then one args (λ n. diff_function n op right)
      else if name == str "pdiff"
      then one args (λ n. pdiff_function n op right)
      else if name == str "lookup"
      then two args (λ m n. lookup_function m n op right)
      else if name == str "stddev"
      then one args (λ n. std_deviation_function n op right)
      else if name == str "kdiff"
      then two args (λ m n. kdiff_function m n op right)
      else if name == str "kpdiff"
      then two args (λ m n. kpdiff_function m n op right)
      else some none

  pub parse_func_from_string : Str → Str → F → Option (Option (Function F))
  parse_func_from_string [] op right = some none
  parse_func_from_string (c ∷ cs) op right =
      let s = c ∷ cs in
      let idx = index_byte b'#' s in
      slice s (add64 idx (pos 1)) (sub64 (pos (length s)) (pos 1)) >>= λ between.
      unless_error (atois between)
        (λ args. slice s (pos 0) (sub64 idx (pos 1)) >>= λ name. by_name name args op right)
