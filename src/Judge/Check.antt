-- ===== src/Judge/Check.antt =====
-- modules/judge/store/judge.go: which strategies and expressions are judged for an item. The hash
-- `utils.Md5` of a string is the parameter `md5`. `none` is a panic.
pub mod Selection
pub mod Total
pub mod Once
use open_falcon.Prelude.{
  ℕ, Bool, true, false, ◌&&◌, List, [], ◌∷◌, ◌++◌, Option, none, some, ◌>>=◌, ◌==◌, eq_str,
  if◌then◌else◌,
}
use open_falcon.Prelude.Int.{ℤ, pos, eq_ℤ}
use open_falcon.Prelude.Text.{Str, str, itoa}
use open_falcon.Prelude.Maps.{Map, lookup, insert}
use open_falcon.Float.{Float}
use open_falcon.Model.{JudgeItem, Strategy, Expression, Event, unset}
use open_falcon.Model.Tags.{pk}
use open_falcon.Judge.Func.{Function}
use open_falcon.Judge.Func.Compute.{compute}
use open_falcon.Judge.Func.Parse.{parse_func_from_string}
use open_falcon.Judge.Events.{Alarms, send_event_if_need}
use open_falcon.Judge.Rules.{Rules, strategy_key, expression_key}

-- The loops over the tags of a rule: each must stand among the tags of the item.
unfoldable pub tags_match : Map Str Str → Map Str Str → Bool
tags_match [] item_tags = true
tags_match ((k, v) ∷ tags) item_tags =
    elim (lookup k item_tags) [ some my ↦ my == v | none ↦ false ] && tags_match tags item_tags

set_all : Map Str Str → Map Str Str → Map Str Str
set_all [] ret = ret
set_all ((k, v) ∷ tags) ret = set_all tags (insert k v ret)

tag_keys : Str → Map Str Str → List Str
tag_keys metric [] = []
tag_keys metric ((k, v) ∷ tags) = expression_key metric k v ∷ tag_keys metric tags

-- `handledExpression`, and the alarms.
abbrev pub Progress : Type 0 → Type 0
Progress F = Map ℤ (Unit {0}) × Alarms F

module _ {F : Type 0} where
  unfoldable pub copy_item_tags : JudgeItem F → Map Str Str
  unfolding set_all
  copy_item_tags item = set_all item.tags ((str "endpoint", item.endpoint) ∷ [])

  -- An expression may ask for `endpoint=...`, which is no tag of the item.
  unfoldable pub is_related : JudgeItem F → Expression F → Bool
  unfolding copy_item_tags tags_match
  is_related item exp =
      tags_match exp.tags (elim (lookup (str "endpoint") exp.tags) [
        | some _ ↦ copy_item_tags item
        | none ↦ item.tags
      ])

  unfoldable pub filter_related_expressions :
      List (Expression F) → JudgeItem F → List (Expression F)
  filter_related_expressions [] item = []
  filter_related_expressions (exp ∷ expressions) item =
      let rest = filter_related_expressions expressions item in
      if is_related item exp then exp ∷ rest else rest

  unfoldable pub build_keys_from_metric_and_tags : JudgeItem F → List Str
  unfolding tag_keys
  build_keys_from_metric_and_tags item =
      tag_keys item.metric item.tags
      ++ expression_key item.metric (str "endpoint") item.endpoint ∷ []

module _ {F : Type 0} ⦃fl : Float F⦄ (md5 : Str → Str) (min_interval now : ℤ) where
  unfoldable pub primary_key : JudgeItem F → Str
  primary_key item = md5 (pk item.endpoint item.metric item.tags)

  -- `fmt.Sprintf("s_%d_%s", ...)` and `fmt.Sprintf("e_%d_%s", ...)`.
  abbrev pub event_id : Str → ℤ → JudgeItem F → Str
  event_id kind id item = kind ++ (itoa id ++ b'_' ∷ primary_key item)

  -- The part that `judgeItemWithStrategy` and `judgeItemWithExpression` share: apply the function, and
  -- raise the event that `make` builds from the left value. A function that cannot be read is logged.
  judge_item :
      Option (Option (Function F))
      → List (JudgeItem F)
      → (F → Event F)
      → ℤ
      → Alarms F
      → Option (Alarms F)
  judge_item parsed items make max_step st = parsed >>= λ fn. elim fn [
    | none ↦ some st
    | some f ↦ compute f items >>= λ c.
        if c.is_enough
        then send_event_if_need st c.vs c.is_triggered now min_interval (make c.left_value) max_step
        else some st
  ]

  abbrev pub strategy_event : Strategy F → JudgeItem F → F → Event F
  strategy_event s item left = record {
    id = event_id (str "s_") s.id item;
    strategy = some s;
    expression = none;
    status = unset;
    endpoint = item.endpoint;
    left_value = left;
    current_step = pos 0;
    event_time = item.timestamp;
    pushed_tags = item.tags;
  }

  abbrev pub expression_event : Expression F → JudgeItem F → F → Event F
  expression_event e item left = record {
    id = event_id (str "e_") e.id item;
    strategy = none;
    expression = some e;
    status = unset;
    endpoint = item.endpoint;
    left_value = left;
    current_step = pos 0;
    event_time = item.timestamp;
    pushed_tags = item.tags;
  }

  pub judge_item_with_strategy :
      List (JudgeItem F) → Strategy F → JudgeItem F → Alarms F → Option (Alarms F)
  unfolding judge_item
  judge_item_with_strategy items s item st =
      judge_item (parse_func_from_string s.func s.operator s.right_value) items
        (strategy_event s item) s.max_step st

  pub judge_item_with_expression :
      List (JudgeItem F) → Expression F → JudgeItem F → Alarms F → Option (Alarms F)
  unfolding judge_item
  judge_item_with_expression items e item st =
      judge_item (parse_func_from_string e.func e.operator e.right_value) items
        (expression_event e item) e.max_step st

  -- The strategies of a key may be about other tags.
  strategy_loop :
      List (JudgeItem F) → JudgeItem F → List (Strategy F) → Alarms F → Option (Alarms F)
  strategy_loop items item [] st = some st
  strategy_loop items item (s ∷ strategies) st =
      (if tags_match s.tags item.tags then judge_item_with_strategy items s item st else some st)
      >>= λ st'. strategy_loop items item strategies st'

  pub check_strategy : Rules F → List (JudgeItem F) → JudgeItem F → Alarms F → Option (Alarms F)
  unfolding strategy_loop
  check_strategy rules items item st =
      elim (lookup (strategy_key item.endpoint item.metric) rules.strategy_map) [
        | none ↦ some st
        | some strategies ↦ strategy_loop items item strategies st
      ]

  related_loop :
      List (JudgeItem F) → JudgeItem F → List (Expression F) → Progress F → Option (Progress F)
  related_loop items item [] p = some p
  related_loop items item (e ∷ related) (handled, st) =
      (elim (lookup e.id handled) [
        | some _ ↦ some (handled, st)
        | none ↦
            judge_item_with_expression items e item st >>= λ st'. some (insert e.id tt handled, st')
      ])
      >>= λ p. related_loop items item related p

  key_loop :
      Rules F → List (JudgeItem F) → JudgeItem F → List Str → Progress F → Option (Progress F)
  unfolding related_loop
  key_loop rules items item [] p = some p
  key_loop rules items item (key ∷ keys) p =
      (elim (lookup key rules.expression_map) [
        | none ↦ some p
        | some expressions ↦ related_loop items item (filter_related_expressions expressions item) p
      ])
      >>= λ p'. key_loop rules items item keys p'

  pub check_expression : Rules F → List (JudgeItem F) → JudgeItem F → Alarms F → Option (Alarms F)
  unfolding key_loop
  check_expression rules items item st =
      key_loop rules items item (build_keys_from_metric_and_tags item) ([], st) >>= λ p. some p.1

  unfoldable pub judge : Rules F → List (JudgeItem F) → JudgeItem F → Alarms F → Option (Alarms F)
  judge rules items item st =
      check_strategy rules items item st >>= λ st'. check_expression rules items item st'
