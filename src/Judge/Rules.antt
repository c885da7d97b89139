-- ===== src/Judge/Rules.antt =====
-- modules/judge/g/var.go and modules/judge/cron/strategy.go: the maps of rules, and how they are
-- rebuilt from the answers of the heartbeat server.
pub mod Rebuild
use open_falcon.Prelude.{
  ℕ, Bool, true, false, List, [], ◌∷◌, ◌++◌, Option, none, some, if◌then◌else◌, eq_str,
}
use open_falcon.Prelude.Text.{Str}
use open_falcon.Prelude.Groups.{append_at}
use open_falcon.Prelude.Maps.{Map, lookup, insert}
use open_falcon.Model.{Strategy, Expression, HostStrategy}

pub record Rules (F : Type 0) : Type 0 where
  -- endpoint/metric to strategies
  pub strategy_map : Map Str (List (Strategy F))
  -- metric/tag=value to expressions
  pub expression_map : Map Str (List (Expression F))
  pub filter_map : Map Str Str

-- `fmt.Sprintf("%s/%s", endpoint, metric)`.
abbrev pub strategy_key : Str → Str → Str
strategy_key endpoint metric = endpoint ++ b'/' ∷ metric

-- `fmt.Sprintf("%s/%s=%s", metric, k, v)`.
abbrev pub expression_key : Str → Str → Str → Str
expression_key metric k v = metric ++ b'/' ∷ (k ++ b'=' ∷ v)

module _ {F : Type 0} where
  add_strategies :
      Str → List (Strategy F) → Map Str (List (Strategy F)) → Map Str (List (Strategy F))
  unfolding append_at
  add_strategies hostname [] m = m
  add_strategies hostname (s ∷ ss) m =
      add_strategies hostname ss (append_at (strategy_key hostname s.metric) s m)

  add_hosts : List (HostStrategy F) → Map Str (List (Strategy F)) → Map Str (List (Strategy F))
  unfolding add_strategies
  add_hosts [] m = m
  add_hosts (hs ∷ rest) m = add_hosts rest (add_strategies hs.hostname hs.strategies m)

  -- `rebuildStrategyMap`, with `ReInit`; what it prints for debugging is left out.
  pub rebuild_strategy_map : List (HostStrategy F) → Rules F → Rules F
  unfolding add_hosts
  rebuild_strategy_map host_strategies rules = record rules {
    strategy_map = add_hosts host_strategies [];
  }

  add_expression :
      Expression F
      → List (Str × Str)
      → Map Str (List (Expression F))
      → Map Str (List (Expression F))
  unfolding append_at
  add_expression exp [] m = m
  add_expression exp ((k, v) ∷ tags) m =
      add_expression exp tags (append_at (expression_key exp.metric k v) exp m)

  add_expressions :
      List (Expression F) → Map Str (List (Expression F)) → Map Str (List (Expression F))
  unfolding add_expression
  add_expressions [] m = m
  add_expressions (exp ∷ rest) m = add_expressions rest (add_expression exp exp.tags m)

  pub rebuild_expression_map : List (Expression F) → Rules F → Rules F
  unfolding add_expressions
  rebuild_expression_map expressions rules = record rules {
    expression_map = add_expressions expressions [];
  }

  abbrev pub filter_strategies : List (Strategy F) → Map Str Str → Map Str Str
  filter_strategies [] m = m
  filter_strategies (s ∷ ss) m = filter_strategies ss (insert s.metric s.metric m)

  abbrev pub filter_expressions : List (Expression F) → Map Str Str → Map Str Str
  filter_expressions [] m = m
  filter_expressions (e ∷ es) m = filter_expressions es (insert e.metric e.metric m)

  abbrev pub filter_strategy_map : Map Str (List (Strategy F)) → Map Str Str → Map Str Str
  filter_strategy_map [] m = m
  filter_strategy_map ((key, ss) ∷ rest) m = filter_strategy_map rest (filter_strategies ss m)

  abbrev pub filter_expression_map : Map Str (List (Expression F)) → Map Str Str → Map Str Str
  filter_expression_map [] m = m
  filter_expression_map ((key, es) ∷ rest) m = filter_expression_map rest (filter_expressions es m)

  pub sync_filter : Rules F → Rules F
  sync_filter rules = record rules {
    filter_map =
        filter_expression_map rules.expression_map (filter_strategy_map rules.strategy_map []);
  }

  -- `FilterMap.Exists`.
  unfoldable pub filter_exists : Rules F → Str → Bool
  filter_exists rules metric = elim (lookup metric rules.filter_map) [
    | some _ ↦ true
    | none ↦ false
  ]
