-- ===== src/Judge/Check/Selection.antt =====
-- Which rules are judged for an item, and in what order.
use open_falcon.Prelude.{
  ◌≡◌, refl, ap, fun_ext, ◌↔◌, true, List, [], ◌∷◌, ◌++◌, Option, some, arith, ◌>>=◌, eq_str, All,
  Bool-cases, Option-cases, inl, inr, list_eq_iff,
}
use open_falcon.Prelude.Int.{ℤ, eq_ℤ}
use open_falcon.Prelude.Text.{Str}
use open_falcon.Prelude.Maps.{Map, lookup}
use open_falcon.Float.{Float}
use open_falcon.Model.{JudgeItem, Strategy}
use open_falcon.Judge.Events.{Alarms}
use open_falcon.Judge.Rules.{Rules, strategy_key}
use open_falcon.Prelude.Groups.{at_key}
use open_falcon.Judge.Check.{tags_match, judge_item_with_strategy, strategy_loop, check_strategy}

-- The tags of a rule match exactly when the item has each of them with the same value.
pub tags_match_iff :
    (tags item_tags : Map Str Str)
    → (tags_match tags item_tags ≡ true)
      ↔ All (λ (kv : Str × Str). lookup kv.0 item_tags ≡ some kv.1) tags
unfolding tags_match
tags_match_iff [] item_tags = (λ h. tt, λ h. refl)
tags_match_iff ((k, v) ∷ tags) item_tags = elim (Option-cases (lookup k item_tags)) [
  | inl e ↦ rw e ((λ h. cc), λ h. cc)
  | inr (my, e) ↦ rw e (
    (λ h. (ground (arith, list_eq_iff my v), (tags_match_iff tags item_tags).0 (ground arith))),
    λ h. (let q = (tags_match_iff tags item_tags).1 h.1 in ground (arith, list_eq_iff my v)),
  )
]

-- The item has each tag of a rule, with the same value.
abbrev pub HasTags : Map Str Str → Map Str Str → Type 0
HasTags tags item_tags = All (λ (kv : Str × Str). lookup kv.0 item_tags ≡ some kv.1) tags

-- Of the strategies those whose tags the item has, each once and in their order.
pub data Selected {F : Type 0} (item_tags : Map Str Str)
    : List (Strategy F) → List (Strategy F) → Type 0 where
  done : Selected item_tags [] []
  chosen :
      (s : Strategy F) {ss es : List (Strategy F)}
      → HasTags s.tags item_tags
      → Selected item_tags ss es
      → Selected item_tags (s ∷ ss) (s ∷ es)
  passed :
      (s : Strategy F) {ss es : List (Strategy F)}
      → ¬ HasTags s.tags item_tags
      → Selected item_tags ss es
      → Selected item_tags (s ∷ ss) es

module _ {F : Type 0} ⦃fl : Float F⦄ (md5 : Str → Str) (min_interval now : ℤ) where
  -- One strategy after the other, up to a panic.
  abbrev pub judge_strategies :
      List (JudgeItem F) → JudgeItem F → List (Strategy F) → Alarms F → Option (Alarms F)
  judge_strategies items item [] st = some st
  judge_strategies items item (s ∷ ss) st =
      judge_item_with_strategy md5 min_interval now items s item st >>= λ st'.
      judge_strategies items item ss st'

  strategy_loop-Selected :
      (items : List (JudgeItem F)) (item : JudgeItem F) (ss : List (Strategy F))
      → (es : List (Strategy F)) × Selected item.tags ss es
        × ((st : Alarms F)
            → strategy_loop md5 min_interval now items item ss st
              ≡ judge_strategies items item es st)
  unfolding strategy_loop
  strategy_loop-Selected items item [] = ([], done, λ st. refl)
  strategy_loop-Selected items item (s ∷ ss) =
      let (es, selected, same) = strategy_loop-Selected items item ss in
      elim (Bool-cases (tags_match s.tags item.tags)) [
        | inl related ↦ (
          s ∷ es,
          chosen s ((tags_match_iff s.tags item.tags).0 related) selected,
          λ st. rw related (
              ap (λ f. judge_item_with_strategy md5 min_interval now items s item st >>= f)
                (fun_ext same)),
        )
        | inr other ↦ (
          es,
          passed s (λ h. absurd (ground (arith, other, (tags_match_iff s.tags item.tags).1 h)))
              selected,
          λ st. rw other (same st),
        )
      ]

  -- `CheckStrategy` judges the item, one after the other and up to a panic, by those strategies under
  -- its endpoint and metric of whose tags it has each with the same value, each strategy once and in
  -- their order, and by no others.
  pub check_strategy-Selected :
      (rules : Rules F) (items : List (JudgeItem F)) (item : JudgeItem F) (st : Alarms F)
      → (es : List (Strategy F)) × Selected item.tags
          (at_key (item.endpoint ++ b'/' ∷ item.metric) rules.strategy_map)
          es
        × (check_strategy md5 min_interval now rules items item st
            ≡ judge_strategies items item es st)
  unfolding check_strategy
  check_strategy-Selected rules items item st =
      elim (Option-cases (lookup (strategy_key item.endpoint item.metric) rules.strategy_map)) [
        | inl e ↦ ([], rw (e, at_key) done, rw (e, check_strategy, at_key) refl)
        | inr (ss, e) ↦
            let (es, selected, same) = strategy_loop-Selected items item ss in
            (es, rw (e, at_key) selected, rw (e, check_strategy, at_key) (same st))
      ]
