-- ===== src/Aggregator/Total.antt =====
-- The run of a worker never panics.
use open_falcon.Prelude.{
  ℕ, suc, ◌+◌, ◌<◌, ◌≤◌, ◌≡◌, refl, Bool, true, false, not, ◌&&◌, ◌||◌, inl, inr, Bool-cases, List,
  [], ◌∷◌, Option, none, some, arith, length, if◌then◌else◌, ◌==◌, eq_str, nat_eq, bind_some,
  get_elem?_in_range,
}
use open_falcon.Prelude.Text.{Str, str}
use open_falcon.Prelude.Maps.{Map}
use open_falcon.Float.{Float}
use open_falcon.Judge.Func.Statistics.{zero_float}
use open_falcon.Aggregator.Expression.{
  Parsed, expression_valid, need_compute, clean_param, operators_valid,
}
use open_falcon.Aggregator.Expression.Shape.{IsMode}
use open_falcon.Aggregator.Expression.Parts.{IsParsed, parse-IsParsed}
use open_falcon.Aggregator.Mode.{comparison-Found}
use open_falcon.Aggregator.{
  compare_sum, query_operands, add_up, sum_up, mode_value, compute, Side, host_value, Totals,
  add_host, host_loop, run_sides, worker_run,
}

both_valid : (a b : Bool) → (not a || not b) ≡ false → (a ≡ true) × (b ≡ true)
both_valid a b h = (ground (arith, h), ground (arith, h))

module _ {F : Type 0} ⦃fl : Float F⦄ (parse_float : Str → F × Bool) where
  add_up-returns :
      (operators : List Str) (i : ℕ) (sum : F) (vals : List F)
      → i + length vals ≤ length operators
      → (r : F) × (add_up operators i sum vals ≡ some r)
  unfolding add_up
  add_up-returns operators i sum [] h = (sum, refl)
  add_up-returns operators i sum (v ∷ vals) h =
      let (op, e) = get_elem?_in_range operators i (omega (arith, h)) in
      let (r, q) =
        add_up-returns operators (suc i) (if op == str "+" then fl.add sum v else fl.sub sum v) vals
          (omega (arith, h)) in
      (r, bind_some _ e q)

  sum_up-returns :
      (operators : List Str) (vals : List F)
      → 0 < length vals
      → length vals ≤ suc (length operators)
      → (r : F) × (sum_up operators vals ≡ some r)
  unfolding sum_up
  sum_up-returns operators [] h k = absurd (omega (arith, h))
  sum_up-returns operators (v ∷ vals) h k = add_up-returns operators 0 v vals (omega (arith, k))

  mode_value-returns :
      (mode : Str) (sum : F) → IsMode mode → (r : F) × (mode_value parse_float mode sum ≡ some r)
  unfolding mode_value compare_sum
  mode_value-returns mode sum (inl none_there) = (sum, rw none_there refl)
  mode_value-returns mode sum (inr compared) = elim (Bool-cases (mode == [])) [
    | inl empty ↦ (sum, rw empty refl)
    | inr there ↦
        let (m, e) = comparison-Found mode compared in
        rw there (_, bind_some _ (bind_some _ e refl) refl)
  ]

  compute-returns :
      (p : Parsed) (hostname : Str) (val_map : Map Str F)
      → IsParsed p
      → (r : Option F) × (compute parse_float p hostname val_map ≡ some r)
  unfolding compute
  compute-returns p hostname val_map h =
      let vals = query_operands p.operands hostname val_map in
      elim (Bool-cases (nat_eq (length p.operands) 0)) [
        | inl empty ↦ (none, rw empty refl)
        | inr there ↦ elim (Bool-cases (nat_eq (length vals) (length p.operands))) [
          | inl all ↦
              let same : length vals ≡ length p.operands = ground (arith, all) in
              let (sum, e) =
                sum_up-returns p.operators vals (ground (arith, there, same))
                  (omega (arith, same, h.enough)) in
              let (r, q) = mode_value-returns p.compute_mode sum h.mode in
              (some r, rw (there, all) (bind_some _ e (bind_some _ q refl)))
          | inr missing ↦ (none, rw (there, missing) refl)
        ]
      ]

  host_value-returns :
      (side : Side) (hostname : Str) (val_map : Map Str F)
      → IsParsed side.parsed
      → (r : Option F) × (host_value parse_float side hostname val_map ≡ some r)
  unfolding host_value
  host_value-returns side hostname val_map h = elim (Bool-cases side.need) [
    | inl need ↦ let (r, e) = compute-returns side.parsed hostname val_map h in (r, rw need e)
    | inr no_need ↦ rw no_need (_, refl)
  ]

  host_loop-returns :
      (num den : Side) (val_map : Map Str F) (hostnames : List Str) (t : Totals F)
      → IsParsed num.parsed
      → IsParsed den.parsed
      → (t' : Totals F) × (host_loop parse_float num den val_map hostnames t ≡ some t')
  unfolding host_loop
  host_loop-returns num den val_map [] t a b = (t, refl)
  host_loop-returns num den val_map (h ∷ hostnames) t a b =
      let (n, e) = host_value-returns num h val_map a in
      let (d, q) = host_value-returns den h val_map b in
      let (d', r) = asked n d e q in
      let (t', more) = host_loop-returns num den val_map hostnames (add_host n d' t) a b in
      (t', bind_some _ e (bind_some _ r more))
    where
      asked :
          (n d : Option F)
          → host_value parse_float num h val_map ≡ some n
          → host_value parse_float den h val_map ≡ some d
          → (d' : Option F) × ((elim n [
            | none ↦ some none
            | some v ↦ host_value parse_float den h val_map
          ])
              ≡ some d')
      asked none d e q = (none, refl)
      asked (some v) d e q = (d, q)

  run_sides-returns :
      (hostnames : Option (List Str)) (values : Option (Map Str F)) (num den : Side)
      → IsParsed num.parsed
      → IsParsed den.parsed
      → (r : Option F) × (run_sides parse_float hostnames values num den ≡ some r)
  unfolding run_sides
  run_sides-returns hostnames values num den a b =
      elim (Bool-cases
        (operators_valid num.parsed.operators && operators_valid den.parsed.operators)) [
          | inl valid ↦ by_answer hostnames values valid
          | inr bad ↦ (none, rw bad refl)
        ]
    where
      by_answer :
          (hostnames : Option (List Str)) (values : Option (Map Str F))
          → (operators_valid num.parsed.operators && operators_valid den.parsed.operators) ≡ true
          → (r : Option F) × (run_sides parse_float hostnames values num den ≡ some r)
      by_answer none values valid = (none, rw valid refl)
      by_answer (some []) values valid = (none, rw valid refl)
      by_answer (some (h ∷ hs)) none valid = (none, rw valid refl)
      by_answer (some (h ∷ hs)) (some val_map) valid =
          let (t, e) =
            host_loop-returns num den val_map (h ∷ hs)
              (record { numerator = zero_float; denominator = zero_float; valid_count = 0 }) a b in
          rw valid (_, bind_some _ e refl)

  -- WorkerRun never panics, whatever the numerator and the denominator of the cluster are, and whatever
  -- hosts and values there are: the operands that are parsed of an expression have the operators that the
  -- sum of their values asks for, and what follows them is a comparison or nothing.
  pub worker_run-returns :
      (trim_space : Str → Str) (hostnames : Option (List Str)) (values : Option (Map Str F))
      (numerator denominator : Str)
      → (r : Option F) × (worker_run trim_space parse_float hostnames values numerator denominator
          ≡ some r)
  unfolding worker_run
  worker_run-returns trim_space hostnames values numerator denominator =
      let num = clean_param trim_space numerator in
      let den = clean_param trim_space denominator in
      elim (Bool-cases (not (expression_valid num) || not (expression_valid den))) [
        | inl bad ↦ (none, rw bad refl)
        | inr good ↦ elim (Bool-cases (not (need_compute num) && not (need_compute den))) [
          | inl constant ↦ (none, rw (good, constant) refl)
          | inr computed ↦
              let (v, w) = both_valid (expression_valid num) (expression_valid den) good in
              let (p, e, a) = parse-IsParsed num v in
              let (q, f, b) = parse-IsParsed den w in
              let (r, g) =
                run_sides-returns hostnames values
                  (record { text = num; need = need_compute num; parsed = p })
                  (record { text = den; need = need_compute den; parsed = q }) a b in
              (r, rw (good, computed) (bind_some _ e (bind_some _ f g)))
        ]
      ]
