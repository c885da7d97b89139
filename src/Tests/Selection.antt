-- ===== src/Tests/Selection.antt =====
-- Witnesses of what is proved of the rules and of their choice.
use open_falcon.Prelude.{List, ◌≡◌, refl, [], ◌∷◌, Permᴰ, eq_str}
use open_falcon.Prelude.Int.{ℤ, pos}
use open_falcon.Prelude.Text.{str}
use open_falcon.Float.{fixed_point}
use open_falcon.Model.Tags.{sorted_tags}
use open_falcon.Model.Tags.Order.{sorted_tags-perm}
use open_falcon.Judge.Events.{Alarms}
use open_falcon.Model.{Expression, Strategy}
use open_falcon.Judge.Rules.{rebuild_strategy_map, rebuild_expression_map}
use open_falcon.Judge.Rules.Rebuild.{at_key-rebuild_strategy_map, at_key-rebuild_expression_map}
use open_falcon.Prelude.Groups.{at_key}
use open_falcon.Judge.Check.{check_strategy}
use open_falcon.Judge.Check.Selection.{Selected, judge_strategies, check_strategy-Selected}
use open_falcon.Judge.Check.{build_keys_from_metric_and_tags, check_expression}
use open_falcon.Judge.Check.Once.{
  candidates, judge_expressions, IsPart, IsDistinct, HasId, check_expression-IsDistinct,
}
use open_falcon.Tests.{item, items, strategy, expression, hosts, rules}

at_key-rebuild_strategy_map_example :
    at_key (str "web1/load") (rebuild_strategy_map hosts rules).strategy_map ≡ strategy ∷ []
at_key-rebuild_strategy_map_example = at_key-rebuild_strategy_map (str "web1/load") hosts rules

at_key-rebuild_expression_map_example :
    at_key
      (str "load/endpoint=web1")
      (rebuild_expression_map (expression ∷ []) rules).expression_map
    ≡ expression ∷ []
at_key-rebuild_expression_map_example =
    at_key-rebuild_expression_map (str "load/endpoint=web1") (expression ∷ []) rules

abbrev calm : Alarms ℤ
calm = record { last_events = []; pushed = [] }

check_strategy-Selected_example :
    (es : List (Strategy ℤ)) × Selected (item 180 7).tags (strategy ∷ []) es
    × (check_strategy (λ s. s) (pos 300) (pos 200) rules items (item 180 7) calm
        ≡ judge_strategies (λ s. s) (pos 300) (pos 200) items (item 180 7) es calm)
check_strategy-Selected_example =
    check_strategy-Selected (λ s. s) (pos 300) (pos 200) rules items (item 180 7) calm

sorted_tags-perm_example :
    sorted_tags ((str "b", str "1") ∷ (str "a", str "2") ∷ [])
    ≡ sorted_tags ((str "a", str "2") ∷ (str "b", str "1") ∷ [])
sorted_tags-perm_example = sorted_tags-perm (Permᴰ.swap refl refl) (refl, (refl, tt))

-- Two keys lead to the expression.
check_expression-IsDistinct_example :
    let related = candidates rules (item 180 7) (build_keys_from_metric_and_tags (item 180 7)) in
    (es : List (Expression ℤ)) × (check_expression
        (λ s. s)
        (pos 300)
        (pos 200)
        rules
        items
        (item 180 7)
        calm
      ≡ judge_expressions (λ s. s) (pos 300) (pos 200) items (item 180 7) es calm)
    × IsPart es related
    × IsDistinct es
    × ((id : ℤ) → HasId id related → HasId id es)
check_expression-IsDistinct_example =
    check_expression-IsDistinct (λ s. s) (pos 300) (pos 200) rules items (item 180 7) calm
