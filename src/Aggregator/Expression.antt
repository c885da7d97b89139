-- ===== src/Aggregator/Expression.antt =====
-- modules/aggregator/cron/run.go: the expressions over counters, such as `$(a)+$(b)` and `$(a)>=80`. The
-- regular expressions of the source are written out as functions.
pub mod Shape
pub mod Parts
use open_falcon.Prelude.{
  ℕ, zero, suc, Bool, true, false, not, ◌&&◌, ◌||◌, List, [], ◌∷◌, Option, none, some, ◌>>=◌,
  length, if◌then◌else◌, ◌==◌, eq_str, nat_eq, leb, filter, every, exists, get_elem?, ◌-◌, take,
  drop,
}
use open_falcon.Prelude.Text.{Str, str, extend_first}

-- `strings.Contains`.
abbrev pub has_prefix : Str → Str → Bool
has_prefix [] s = true
has_prefix (p ∷ ps) [] = false
has_prefix (p ∷ ps) (c ∷ s) = nat_eq p c && has_prefix ps s

abbrev pub contains : Str → Str → Bool
contains sub [] = sub == []
contains sub (c ∷ s) = has_prefix sub (c ∷ s) || contains sub s

-- A byte that `cleanParam` removes; `strings.TrimSpace` comes before and is a parameter.
abbrev pub is_blank : ℕ → Bool
is_blank c = nat_eq c b' ' || nat_eq c 13 || nat_eq c 10 || nat_eq c 9

unfoldable pub clean_param : (Str → Str) → Str → Str
clean_param trim_space val = filter (λ c. not (is_blank c)) (trim_space val)

unfoldable pub need_compute : Str → Bool
need_compute val = contains (str "$(") val

-- `[\$\(\)]`.
abbrev pub is_separator : ℕ → Bool
is_separator c = nat_eq c b'$' || nat_eq c b'(' || nat_eq c b')'

-- Whether a separator that is followed by `s` ends its run.
abbrev pub ends_run : Str → Bool
ends_run [] = true
ends_run (d ∷ s) = not (is_separator d)

-- `splitCounter.Split(expression, -1)`: what lies between the runs of separators.
unfoldable pub pieces : Str → List Str
pieces [] = [] ∷ []
pieces (c ∷ s) =
    let rest = pieces s in
    if is_separator c then if ends_run s then [] ∷ rest else rest else extend_first c rest

-- The operands, at even places, and the operators, at odd ones.
abbrev pub deal : Bool → List Str → List Str × List Str
deal even [] = ([], [])
deal true (x ∷ xs) = let r = deal false xs in (x ∷ r.0, r.1)
deal false (x ∷ xs) = let r = deal true xs in (r.0, x ∷ r.1)

pub record Parsed : Type 0 where
  pub operands : List Str
  pub operators : List Str
  pub compute_mode : Str

-- `items[1 : count-1]` is a panic for less than two items.
unfoldable pub parse_items : List Str → Option Parsed
parse_items items =
    let count = length items in
    let r = deal true (take (count - 2) (drop 1 items)) in
    get_elem? items (count - 1) >>= λ mode.
    if leb 2 count
    then some (record { operands = r.0; operators = r.1; compute_mode = mode })
    else none

unfoldable pub parse : Str → Bool → Option Parsed
unfolding pieces parse_items
parse expression need =
    let items = parse_items (pieces expression) in
    if need then items else some (record { operands = []; operators = []; compute_mode = [] })

unfoldable pub operators_valid : List Str → Bool
operators_valid ops = every (λ op. op == str "+" || op == str "-") ops

abbrev pub is_digit : ℕ → Bool
is_digit c = leb b'0' c && leb c b'9'

-- Where in `\d+(\.\d+)?` a text stands: before it, in the whole part, behind the point, in the fraction.
pub data NumberState : Type 0 where
  begin : NumberState
  whole_part : NumberState
  point : NumberState
  fraction : NumberState

abbrev pub is_number : NumberState → Str → Bool
is_number begin [] = false
is_number whole_part [] = true
is_number point [] = false
is_number fraction [] = true
is_number begin (c ∷ s) = is_digit c && is_number whole_part s
is_number whole_part (c ∷ s) =
    let more = is_number whole_part s in
    let next = is_number point s in if nat_eq c b'.' then next else is_digit c && more
is_number point (c ∷ s) = is_digit c && is_number fraction s
is_number fraction (c ∷ s) = is_digit c && is_number fraction s

-- `(>|=|<|>=|<=)\d+(\.\d+)?`.
abbrev pub is_comparison : Str → Bool
is_comparison [] = false
is_comparison (c ∷ []) = false
is_comparison (c ∷ d ∷ s) =
    ((nat_eq c b'>' || nat_eq c b'<') && (nat_eq d b'=' && is_number begin s))
    || ((nat_eq c b'>' || (nat_eq c b'=' || nat_eq c b'<')) && is_number begin (d ∷ s))

-- Where in `(\$\([^\(\)]+\)[+-])*\$\([^\(\)]+\)` a text stands.
pub data TermState : Type 0 where
  dollar : TermState
  paren : TermState
  name_start : TermState
  in_name : TermState
  after_term : TermState

-- What is left behind a sum of counters, or behind one counter where `many` is false.
unfoldable pub terms : Bool → TermState → Str → Option Str
terms many after_term [] = some []
terms many dollar [] = none
terms many paren [] = none
terms many name_start [] = none
terms many in_name [] = none
terms many dollar (c ∷ s) = let next = terms many paren s in if nat_eq c b'$' then next else none
terms many paren (c ∷ s) =
    let next = terms many name_start s in if nat_eq c b'(' then next else none
terms many name_start (c ∷ s) =
    let next = terms many in_name s in if nat_eq c b'(' || nat_eq c b')' then none else next
terms many in_name (c ∷ s) =
    let next = terms many in_name s in
    let done = terms many after_term s in
    if nat_eq c b'(' then none else if nat_eq c b')' then done else next
terms many after_term (c ∷ s) =
    let next = terms many dollar s in
    if many && (nat_eq c b'+' || nat_eq c b'-') then next else some (c ∷ s)

abbrev pub is_empty_rest : Option Str → Bool
is_empty_rest none = false
is_empty_rest (some s) = s == []

abbrev pub is_compared : Option Str → Bool
is_compared none = false
is_compared (some s) = is_comparison s

abbrev pub is_closed : Option Str → Bool
is_closed none = false
is_closed (some []) = false
is_closed (some (c ∷ s)) = nat_eq c b')' && is_comparison s

-- `matchMode2`.
unfoldable pub is_sum_compared : Str → Bool
unfolding terms
is_sum_compared [] = false
is_sum_compared (c ∷ s) = nat_eq c b'(' && is_closed (terms true dollar s)

unfoldable pub expression_valid : Str → Bool
unfolding terms is_sum_compared
expression_valid val =
    not (contains (239 ∷ 188 ∷ 136 ∷ []) val || contains (239 ∷ 188 ∷ 137 ∷ []) val)
    && (val == str "$#"
        || (is_empty_rest (terms true dollar val)
            || (is_compared (terms false dollar val)
                || (is_sum_compared val || (not (val == []) && every is_digit val)))))
