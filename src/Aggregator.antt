-- ===== src/Aggregator.antt =====
-- modules/aggregator/cron/{run,computer}.go: the metrics that are computed over a cluster of hosts. The
-- names of the hosts and their last values come from other services; `strconv.ParseFloat` is a
-- parameter, which gives a value and, beside it, whether there was no error. `none` is a panic.
pub mod Expression
pub mod Mode
pub mod Total
use open_falcon.Prelude.{
  ℕ, zero, suc, Bool, true, false, not, ◌&&◌, ◌||◌, List, [], ◌∷◌, ◌++◌, Option, none, some, ◌>>=◌,
  length, get_elem?, if◌then◌else◌, ◌==◌, eq_str, nat_eq,
}
use open_falcon.Prelude.Int.{ℤ, pos, ◌+ℤ◌}
use open_falcon.Prelude.Text.{Str, str}
use open_falcon.Prelude.Maps.{Map, lookup}
use open_falcon.Float.{Float}
use open_falcon.Judge.Func.Statistics.{zero_float}
use open_falcon.Aggregator.Expression.{
  Parsed, parse, clean_param, need_compute, expression_valid, operators_valid, is_digit,
}

-- `[><=]` and `[\d\.]`.
abbrev pub is_mode_char : ℕ → Bool
is_mode_char c = nat_eq c b'>' || (nat_eq c b'<' || nat_eq c b'=')

abbrev pub is_value_char : ℕ → Bool
is_value_char c = is_digit c || nat_eq c b'.'

-- The longest first part of such bytes, and the rest.
abbrev pub span : (ℕ → Bool) → Str → Str × Str
span p [] = ([], [])
span p (c ∷ s) = let r = span p s in if p c then (c ∷ r.0, r.1) else ([], c ∷ s)

-- `regMatch.FindStringSubmatch(computeMode)`: the two groups of the first match.
unfoldable pub find_mode : Str → Option (Str × Str)
find_mode [] = none
find_mode (c ∷ s) =
    let next = find_mode s in
    let mode = span is_mode_char (c ∷ s) in
    let value = span is_value_char mode.1 in
    if mode.0 == [] || value.0 == [] then next else some (mode.0, value.0)

-- A side of the quotient: the text, whether it is computed, and how.
pub record Side : Type 0 where
  pub text : Str
  pub need : Bool
  pub parsed : Parsed

-- `numerator`, `denominator` and `validCount`.
pub record Totals (F : Type 0) : Type 0 where
  pub numerator : F
  pub denominator : F
  pub valid_count : ℕ

module _ {F : Type 0} ⦃fl : Float F⦄ where
  -- The switch of `compareSum`.
  abbrev pub holds : Str → F → F → Bool
  holds mode sum val =
      (mode == str ">" && fl.lt val sum)
      || ((mode == str "<" && fl.lt sum val)
          || ((mode == str "=" && fl.eq sum val)
              || ((mode == str ">=" && fl.le val sum) || (mode == str "<=" && fl.le sum val))))

  unfoldable pub compare_sum : (Str → F × Bool) → F → Str → Option Bool
  unfolding find_mode
  compare_sum parse_float sum compute_mode =
      find_mode compute_mode >>= λ m. some (holds m.0 sum (parse_float m.1).0)

  abbrev pub add_value : Option F → List F → List F
  add_value none vals = vals
  add_value (some v) vals = v ∷ vals

  unfoldable pub query_operands : List Str → Str → Map Str F → List F
  query_operands [] endpoint val_map = []
  query_operands (counter ∷ counters) endpoint val_map =
      add_value (lookup (endpoint ++ counter) val_map) (query_operands counters endpoint val_map)

  -- The loop over `vals[1:]`, from the index `i` on.
  unfoldable pub add_up : List Str → ℕ → F → List F → Option F
  add_up operators i sum [] = some sum
  add_up operators i sum (v ∷ vals) = get_elem? operators i >>= λ op.
      add_up operators (suc i) (if op == str "+" then fl.add sum v else fl.sub sum v) vals

  unfoldable pub sum_up : List Str → List F → Option F
  unfolding add_up
  sum_up operators [] = none
  sum_up operators (v ∷ vals) = add_up operators 0 v vals

  -- `val`, of the sum.
  unfoldable pub mode_value : (Str → F × Bool) → Str → F → Option F
  unfolding compare_sum
  mode_value parse_float mode sum =
      let compared = compare_sum parse_float sum mode in
      if mode == []
      then some sum
      else (compared >>= λ b. some (if b then fl.of_int (pos 1) else zero_float))

  -- An inner `none` is an error.
  unfoldable pub compute : (Str → F × Bool) → Parsed → Str → Map Str F → Option (Option F)
  unfolding query_operands sum_up mode_value
  compute parse_float p hostname val_map =
      let vals = query_operands p.operands hostname val_map in
      let val = sum_up p.operators vals >>= λ sum.
      mode_value parse_float p.compute_mode sum >>= λ v. some (some v) in
      if nat_eq (length p.operands) 0
      then some none
      else if nat_eq (length vals) (length p.operands)
      then val
      else some none

  unfoldable pub host_value : (Str → F × Bool) → Side → Str → Map Str F → Option (Option F)
  unfolding compute
  host_value parse_float side hostname val_map =
      let val = compute parse_float side.parsed hostname val_map in
      if side.need then val else some (some zero_float)

  abbrev pub add_host : Option F → Option F → Totals F → Totals F
  add_host (some n) (some d) t = record {
    numerator = fl.add t.numerator n;
    denominator = fl.add t.denominator d;
    valid_count = suc t.valid_count;
  }
  add_host (some n) none t = t
  add_host none d t = t

  -- The loop over the hosts. The value of the denominator is not asked for where that of the numerator
  -- is an error.
  unfoldable pub host_loop :
      (Str → F × Bool) → Side → Side → Map Str F → List Str → Totals F → Option (Totals F)
  unfolding host_value
  host_loop parse_float num den val_map [] t = some t
  host_loop parse_float num den val_map (h ∷ hostnames) t =
      host_value parse_float num h val_map >>= λ n.
      let d = host_value parse_float den h val_map in
      (elim n [ none ↦ some none | some v ↦ d ]) >>= λ d'.
      host_loop parse_float num den val_map hostnames (add_host n d' t)

  -- A side that is not computed: the number of hosts, or a number; `none` is an error.
  unfoldable pub side_total : (Str → F × Bool) → Side → F → ℕ → Option F
  side_total parse_float side total valid_count =
      if side.need
      then some total
      else if side.text == str "$#"
      then some (fl.of_int (pos valid_count))
      else if (parse_float side.text).1
      then some (parse_float side.text).0
      else none

  -- What is pushed, if anything.
  unfoldable pub quotient : (Str → F × Bool) → Side → Side → Totals F → Option F
  unfolding side_total
  quotient parse_float num den t = side_total parse_float num t.numerator t.valid_count >>= λ n.
      side_total parse_float den t.denominator t.valid_count >>= λ d.
      if fl.eq d zero_float
      then none
      else if nat_eq t.valid_count 0
      then none
      else some (fl.div n d)

  -- From the operators on; `hostnames` and `values` are `none` where asking for them fails.
  unfoldable pub run_sides :
      (Str → F × Bool) → Option (List Str) → Option (Map Str F) → Side → Side → Option (Option F)
  unfolding operators_valid host_loop quotient
  run_sides parse_float hostnames values num den =
      if operators_valid num.parsed.operators && operators_valid den.parsed.operators
      then elim hostnames [
        | none ↦ some none
        | some [] ↦ some none
        | some (h ∷ hs) ↦ elim values [
          | none ↦ some none
          | some val_map ↦
              host_loop parse_float num den val_map (h ∷ hs)
                (record { numerator = zero_float; denominator = zero_float; valid_count = 0 })
              >>= λ t. some (quotient parse_float num den t)
        ]
      ]
      else some none

  -- `WorkerRun`, for the numerator and the denominator of a cluster: the value that is pushed, if any.
  unfoldable pub worker_run :
      (Str → Str)
      → (Str → F × Bool)
      → Option (List Str)
      → Option (Map Str F)
      → Str
      → Str
      → Option (Option F)
  unfolding clean_param expression_valid need_compute parse run_sides
  worker_run trim_space parse_float hostnames values numerator denominator =
      let num = clean_param trim_space numerator in
      let den = clean_param trim_space denominator in
      let run = parse num (need_compute num) >>= λ p. parse den (need_compute den) >>= λ q.
      run_sides parse_float hostnames values
        (record { text = num; need = need_compute num; parsed = p })
        (record { text = den; need = need_compute den; parsed = q }) in
      if not (expression_valid num) || not (expression_valid den)
      then some none
      else if not (need_compute num) && not (need_compute den)
      then some none
      else run
