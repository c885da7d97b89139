-- ===== src/Judge/Func.antt =====
-- modules/judge/store/func.go: the functions that a strategy or an expression applies to the recent
-- points of a counter, and the comparison with its right value.
pub mod Statistics
pub mod Compute
pub mod Parse
use open_falcon.Prelude.{Bool, false, List, ◌||◌, ◌==◌, if◌then◌else◌, eq_str}
use open_falcon.Prelude.Int.{ℤ}
use open_falcon.Prelude.Text.{Str, str}
use open_falcon.Float.{Float}
use open_falcon.Model.{HistoryData}

-- The types that implement `Function`: each with `Limit`, `Operator` and `RightValue`, behind `Num`
-- where it has one.
pub data Function (F : Type 0) : Type 0 where
  max_function : ℤ → Str → F → Function F
  min_function : ℤ → Str → F → Function F
  all_function : ℤ → Str → F → Function F
  lookup_function : ℤ → ℤ → Str → F → Function F
  sum_function : ℤ → Str → F → Function F
  avg_function : ℤ → Str → F → Function F
  diff_function : ℤ → Str → F → Function F
  std_deviation_function : ℤ → Str → F → Function F
  pdiff_function : ℤ → Str → F → Function F
  kpdiff_function : ℤ → ℤ → Str → F → Function F
  kdiff_function : ℤ → ℤ → Str → F → Function F

-- What `Compute` returns.
pub record Computed (F : Type 0) : Type 0 where
  pub vs : List (HistoryData F)
  pub left_value : F
  pub is_triggered : Bool
  pub is_enough : Bool

-- An operator that is none of these never triggers.
unfoldable pub check_is_triggered : {F : Type 0} ⦃fl : Float F⦄ → F → Str → F → Bool
check_is_triggered ⦃fl⦄ left_value operator right_value =
    if operator == str "=" || operator == str "=="
    then fl.lt (fl.abs (fl.sub left_value right_value)) fl.epsilon
    else if operator == str "!="
    then fl.lt fl.epsilon (fl.abs (fl.sub left_value right_value))
    else if operator == str "<"
    then fl.lt left_value right_value
    else if operator == str "<="
    then fl.le left_value right_value
    else if operator == str ">"
    then fl.lt right_value left_value
    else if operator == str ">="
    then fl.le right_value left_value
    else false
