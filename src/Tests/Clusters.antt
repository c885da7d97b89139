-- ===== src/Tests/Clusters.antt =====
-- Runs of what the aggregator computes, and a witness.
use open_falcon.Prelude.{ℕ, ◌≡◌, refl, Bool, true, false, List, [], ◌∷◌, Option, none, some}
use open_falcon.Prelude.Int.{ℤ, pos}
use open_falcon.Prelude.Text.{Str, str, digits_value}
use open_falcon.Prelude.Maps.{Map}
use open_falcon.Float.{fixed_point}
use open_falcon.Aggregator.Expression.{
  expression_valid, is_sum_compared, terms, need_compute, clean_param, pieces, parse_items, parse,
  operators_valid,
}
use open_falcon.Aggregator.{
  worker_run, run_sides, host_loop, host_value, compute, query_operands, sum_up, add_up, mode_value,
  compare_sum, find_mode, quotient, side_total,
}
use open_falcon.Aggregator.Total.{worker_run-returns}
use open_falcon.Tests.{whole}

-- Whole numbers only.
abbrev value_of : Option ℕ → ℤ × Bool
value_of none = (pos 0, false)
value_of (some n) = (whole n, true)

abbrev read : Str → ℤ × Bool
read s = value_of (digits_value 0 s)

abbrev last_values : Map Str ℤ
last_values = (str "a/idle", whole 30) ∷ (str "b/idle", whole 50) ∷ (str "b/busy", whole 9) ∷ []

abbrev names : List Str
names = str "a" ∷ str "b" ∷ str "c" ∷ []

-- The mean over the hosts that have a value.
mean_run :
    worker_run (λ s. s) read (some names) (some last_values) (str "$(/idle) ") (str "$#")
    ≡ some (some (whole 40))
unfolding worker_run clean_param expression_valid is_sum_compared terms need_compute parse pieces
    parse_items run_sides operators_valid host_loop host_value compute query_operands sum_up add_up
    mode_value quotient side_total digits_value
mean_run = refl

-- How many of a hundred hosts have too much.
share_run :
    worker_run
      (λ s. s)
      read
      (some names)
      (some last_values)
      (str "($(/idle)-$(/busy))>=41")
      (str "100")
    ≡ some (some (pos 10_000))
unfolding worker_run clean_param expression_valid is_sum_compared terms need_compute parse pieces
    parse_items run_sides operators_valid host_loop host_value compute query_operands sum_up add_up
    mode_value compare_sum find_mode quotient side_total digits_value
share_run = refl

worker_run-returns_example :
    (r : Option ℤ) × (worker_run
        (λ s. s)
        read
        (some names)
        (some last_values)
        (str "($(/idle)-$(/busy))>=41")
        (str "100")
      ≡ some r)
worker_run-returns_example =
    worker_run-returns read (λ s. s) (some names) (some last_values) (str "($(/idle)-$(/busy))>=41")
      (str "100")
