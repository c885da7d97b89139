-- ===== src/Judge/Check/Total.antt =====
-- `Judge` as a total function: what the rules and the items must be for it.
use open_falcon.Prelude.{
  ◌^◌, ◌<◌, ◌≡◌, refl, ap, List, [], ◌∷◌, Option, none, some, ◌>>=◌, eq_str, Bool-cases,
  Option-cases, inl, inr, All, length,
}
use open_falcon.Prelude.Int.{ℤ, IsInt64, eq_ℤ}
use open_falcon.Prelude.Text.{Str}
use open_falcon.Prelude.Maps.{lookup, insert, All-lookup}
use open_falcon.Float.{Float}
use open_falcon.Model.{JudgeItem, Strategy, Expression, Event}
use open_falcon.Model.EventInfo
use open_falcon.Judge.LinkedList.Series.{IsTyped}
use open_falcon.Judge.Func.{Function}
use open_falcon.Judge.Func.Parse.{parse_func_from_string}
use open_falcon.Judge.Func.Compute.Total.{Fits, compute-Total}
use open_falcon.Judge.Events.{Alarms}
use open_falcon.Judge.Events.Invariant.{IsSound, HasRule, send_event_if_need-IsSound}
use open_falcon.Judge.Rules.{Rules, strategy_key}
use open_falcon.Judge.Check.{
  tags_match, is_related, filter_related_expressions, build_keys_from_metric_and_tags, Progress,
  judge_item, strategy_event, expression_event, judge_item_with_strategy,
  judge_item_with_expression, strategy_loop, check_strategy, related_loop, key_loop,
  check_expression, judge,
}

-- A function that is read without a panic, and whose limits fit, or an error.
abbrev pub IsSafe : {F : Type 0} → Option (Option (Function F)) → Type 0
IsSafe none = ⊥
IsSafe (some none) = Unit {0}
IsSafe (some (some f)) = Fits f

module _ {F : Type 0} where
  abbrev pub StrategyIsSafe : Strategy F → Type 0
  StrategyIsSafe s =
      IsSafe (parse_func_from_string s.func s.operator s.right_value) × IsInt64 s.max_step

  abbrev pub ExpressionIsSafe : Expression F → Type 0
  ExpressionIsSafe e =
      IsSafe (parse_func_from_string e.func e.operator e.right_value) × IsInt64 e.max_step

  pub record RulesAreSafe (rules : Rules F) : Type 0 where
    pub strategies :
        All (λ (kv : Str × List (Strategy F)). All StrategyIsSafe kv.1) rules.strategy_map
    pub expressions :
        All (λ (kv : Str × List (Expression F)). All ExpressionIsSafe kv.1) rules.expression_map

  All-filter_related :
      (es : List (Expression F)) (item : JudgeItem F)
      → All ExpressionIsSafe es
      → All ExpressionIsSafe (filter_related_expressions es item)
  unfolding filter_related_expressions
  All-filter_related [] item a = tt
  All-filter_related (e ∷ es) item a = elim (Bool-cases (is_related item e)) [
    | inl related ↦ rw related (a.0, All-filter_related es item a.1)
    | inr other ↦ rw other (All-filter_related es item a.1)
  ]

module _ {F : Type 0} ⦃fl : Float F⦄ where
  abbrev pub Returns : Option (Alarms F) → Type 0
  Returns o = (st : Alarms F) × (o ≡ some st) × IsSound st

  Returns-bind :
      (o : Option (Alarms F)) (f : Alarms F → Option (Alarms F))
      → Returns o
      → ((st : Alarms F) → IsSound st → Returns (f st))
      → Returns (o >>= f)
  Returns-bind o f (st, e, s) k = rw e (k st s)

  abbrev Proceeds : Option (Progress F) → Type 0
  Proceeds o = (p : Progress F) × (o ≡ some p) × IsSound p.1

  Proceeds-bind :
      (o : Option (Progress F)) (f : Progress F → Option (Progress F))
      → Proceeds o
      → ((p : Progress F) → IsSound p.1 → Proceeds (f p))
      → Proceeds (o >>= f)
  Proceeds-bind o f (p, e, s) k = rw e (k p s)

  module _ (md5 : Str → Str) (min_interval now : ℤ) (items : List (JudgeItem F))
      (typed : IsTyped items) (listed : length items < 2 ^ 63) where
    judge_item-Returns :
        (parsed : Option (Option (Function F))) (make : F → Event F) (max_step : ℤ) (st : Alarms F)
        → IsSafe parsed
        → ((left : F) → HasRule (make left))
        → IsInt64 max_step
        → IsSound st
        → Returns (judge_item md5 min_interval now parsed items make max_step st)
    unfolding judge_item
    judge_item-Returns none make max_step st a r b s = absurd a
    judge_item-Returns (some none) make max_step st a r b s = (st, refl, s)
    judge_item-Returns (some (some f)) make max_step st a r b s =
        let (c, e, k) = compute-Total f items a typed listed in
        rw e (elim (Bool-cases c.is_enough) [
          | inl enough ↦ rw enough (
              send_event_if_need-IsSound c.vs now min_interval (make c.left_value) max_step
                c.is_triggered st s (k enough) (r c.left_value) b)
          | inr short ↦ rw short (st, refl, s)
        ])

    with_strategy-Returns :
        (x : Strategy F) (item : JudgeItem F) (st : Alarms F)
        → StrategyIsSafe x
        → IsSound st
        → Returns (judge_item_with_strategy md5 min_interval now items x item st)
    unfolding judge_item_with_strategy EventInfo.priority
    with_strategy-Returns x item st a s =
        judge_item-Returns (parse_func_from_string x.func x.operator x.right_value)
          (strategy_event md5 min_interval now x item) x.max_step st a.0 (λ left q. cc) a.1 s

    with_expression-Returns :
        (x : Expression F) (item : JudgeItem F) (st : Alarms F)
        → ExpressionIsSafe x
        → IsSound st
        → Returns (judge_item_with_expression md5 min_interval now items x item st)
    unfolding judge_item_with_expression EventInfo.priority
    with_expression-Returns x item st a s =
        judge_item-Returns (parse_func_from_string x.func x.operator x.right_value)
          (expression_event md5 min_interval now x item) x.max_step st a.0 (λ left q. cc) a.1 s

    strategy_loop-Returns :
        (item : JudgeItem F) (xs : List (Strategy F)) (st : Alarms F)
        → All StrategyIsSafe xs
        → IsSound st
        → Returns (strategy_loop md5 min_interval now items item xs st)
    unfolding strategy_loop
    strategy_loop-Returns item [] st a s = (st, refl, s)
    strategy_loop-Returns item (x ∷ xs) st a s = elim (Bool-cases (tags_match x.tags item.tags)) [
      | inl related ↦ rw related (
          Returns-bind (judge_item_with_strategy md5 min_interval now items x item st) _
            (with_strategy-Returns x item st a.0 s)
            (λ st' s'. strategy_loop-Returns item xs st' a.1 s'))
      | inr other ↦ rw other (strategy_loop-Returns item xs st a.1 s)
    ]

    check_strategy-Returns :
        (rules : Rules F) (item : JudgeItem F) (st : Alarms F)
        → RulesAreSafe rules
        → IsSound st
        → Returns (check_strategy md5 min_interval now rules items item st)
    unfolding check_strategy
    check_strategy-Returns rules item st a s =
        elim (Option-cases (lookup (strategy_key item.endpoint item.metric) rules.strategy_map)) [
          | inl e ↦ rw (e, check_strategy) (st, refl, s)
          | inr (xs, e) ↦
              rw (e, check_strategy)
                (strategy_loop-Returns item xs st
                  (All-lookup _ _ xs rules.strategy_map a.strategies e) s)
        ]

    related_loop-Proceeds :
        (item : JudgeItem F) (xs : List (Expression F)) (p : Progress F)
        → All ExpressionIsSafe xs
        → IsSound p.1
        → Proceeds (related_loop md5 min_interval now items item xs p)
    unfolding related_loop
    related_loop-Proceeds item [] p a s = (p, refl, s)
    related_loop-Proceeds item (x ∷ xs) (handled, st) a s =
        elim (Option-cases (lookup x.id handled)) [
          | inl e ↦
              let (st', f, s') = with_expression-Returns x item st a.0 s in
              rw (e, f) (related_loop-Proceeds item xs (insert x.id tt handled, st') a.1 s')
          | inr (u, e) ↦ rw e (related_loop-Proceeds item xs (handled, st) a.1 s)
        ]

    key_loop-Proceeds :
        (rules : Rules F) (item : JudgeItem F) (keys : List Str) (p : Progress F)
        → RulesAreSafe rules
        → IsSound p.1
        → Proceeds (key_loop md5 min_interval now rules items item keys p)
    unfolding key_loop
    key_loop-Proceeds rules item [] p a s = (p, refl, s)
    key_loop-Proceeds rules item (k ∷ keys) p a s =
        elim (Option-cases (lookup k rules.expression_map)) [
          | inl e ↦ rw e (key_loop-Proceeds rules item keys p a s)
          | inr (xs, e) ↦ rw e (
              Proceeds-bind
                (related_loop md5 min_interval now items item (filter_related_expressions xs item)
                  p)
                _
                (related_loop-Proceeds item (filter_related_expressions xs item) p
                  (All-filter_related xs item
                    (All-lookup _ k xs rules.expression_map a.expressions e))
                  s)
                (λ p' s'. key_loop-Proceeds rules item keys p' a s'))
        ]

    -- For a typed list of at most an int's length, rules whose functions are read without a panic
    -- and whose limits fit, and sound last events, `Judge` does not panic and keeps the last events
    -- sound.
    pub judge-Returns :
        (rules : Rules F) (item : JudgeItem F) (st : Alarms F)
        → RulesAreSafe rules
        → IsSound st
        → Returns (judge md5 min_interval now rules items item st)
    unfolding judge check_expression
    judge-Returns rules item st a s =
        Returns-bind (check_strategy md5 min_interval now rules items item st) _
          (check_strategy-Returns rules item st a s)
          λ st' s'.
            let (p, e, k) =
              key_loop-Proceeds rules item (build_keys_from_metric_and_tags item) ([], st') a s' in
            (p.1, ap (λ o. o >>= λ q. some q.1) e, k)
