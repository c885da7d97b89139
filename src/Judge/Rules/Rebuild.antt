-- ===== src/Judge/Rules/Rebuild.antt =====
-- What the rebuilt maps hold.
use open_falcon.Prelude.{
  ◌≡◌, sym, ap, ◌∙◌, List, [], ◌∷◌, ◌++◌, append_assoc, append-nil, arith, if◌then◌else◌, eq_str,
  ◌==◌, filter,
}
use open_falcon.Prelude.Text.{Str}
use open_falcon.Prelude.Groups.{append_at, at_key, at_key-append_at}
use open_falcon.Prelude.Maps.{Map}
use open_falcon.Model.{Strategy, Expression, HostStrategy}
use open_falcon.Judge.Rules.{
  Rules, strategy_key, expression_key, add_strategies, add_hosts, rebuild_strategy_map,
  add_expression, add_expressions, rebuild_expression_map,
}

module _ {F : Type 0} where
  at_key-add_strategies :
      (hostname k : Str) (ss : List (Strategy F)) (m : Map Str (List (Strategy F)))
      → at_key k (add_strategies hostname ss m)
        ≡ at_key k m ++ filter (λ s. strategy_key hostname s.metric == k) ss
  unfolding add_strategies
  at_key-add_strategies hostname k [] m = sym (append-nil (at_key k m))
  at_key-add_strategies hostname k (s ∷ ss) m = ground (
    arith,
    at_key-add_strategies hostname k ss (append_at (strategy_key hostname s.metric) s m),
    at_key-append_at (strategy_key hostname s.metric) k s m,
    append_assoc (at_key k m) (s ∷ []) (filter (λ s. strategy_key hostname s.metric == k) ss),
  )

  -- All strategies of a host under a key, and of a list of hosts.
  abbrev pub strategies_at : Str → List (HostStrategy F) → List (Strategy F)
  strategies_at k [] = []
  strategies_at k (hs ∷ rest) =
      filter (λ s. strategy_key hs.hostname s.metric == k) hs.strategies ++ strategies_at k rest

  at_key-add_hosts :
      (k : Str) (hosts : List (HostStrategy F)) (m : Map Str (List (Strategy F)))
      → at_key k (add_hosts hosts m) ≡ at_key k m ++ strategies_at k hosts
  unfolding add_hosts
  at_key-add_hosts k [] m = sym (append-nil (at_key k m))
  at_key-add_hosts k (hs ∷ rest) m =
      at_key-add_hosts k rest (add_strategies hs.hostname hs.strategies m)
      ∙ (ap (λ xs. xs ++ strategies_at k rest) (at_key-add_strategies hs.hostname k hs.strategies m)
          ∙ append_assoc (at_key k m) _ (strategies_at k rest))

  -- After `rebuildStrategyMap` a key holds the strategies of the answer whose host and metric spell
  -- that key, each as often as it was sent and in the order of the answer; the old map is forgotten.
  pub at_key-rebuild_strategy_map :
      (k : Str) (hosts : List (HostStrategy F)) (rules : Rules F)
      → at_key k (rebuild_strategy_map hosts rules).strategy_map ≡ strategies_at k hosts
  unfolding rebuild_strategy_map
  at_key-rebuild_strategy_map k hosts rules = at_key-add_hosts k hosts []

  abbrev pub copies : Str → Expression F → List (Str × Str) → List (Expression F)
  copies key exp [] = []
  copies key exp ((k, v) ∷ tags) =
      if expression_key exp.metric k v == key
      then exp ∷ copies key exp tags
      else copies key exp tags

  abbrev pub expressions_at : Str → List (Expression F) → List (Expression F)
  expressions_at key [] = []
  expressions_at key (exp ∷ rest) = copies key exp exp.tags ++ expressions_at key rest

  at_key-add_expression :
      (key : Str) (exp : Expression F) (tags : List (Str × Str)) (m : Map Str (List (Expression F)))
      → at_key key (add_expression exp tags m) ≡ at_key key m ++ copies key exp tags
  unfolding add_expression
  at_key-add_expression key exp [] m = sym (append-nil (at_key key m))
  at_key-add_expression key exp ((k, v) ∷ tags) m = ground (
    arith,
    at_key-add_expression key exp tags (append_at (expression_key exp.metric k v) exp m),
    at_key-append_at (expression_key exp.metric k v) key exp m,
    append_assoc (at_key key m) (exp ∷ []) (copies key exp tags),
  )

  at_key-add_expressions :
      (key : Str) (expressions : List (Expression F)) (m : Map Str (List (Expression F)))
      → at_key key (add_expressions expressions m) ≡ at_key key m ++ expressions_at key expressions
  unfolding add_expressions
  at_key-add_expressions key [] m = sym (append-nil (at_key key m))
  at_key-add_expressions key (exp ∷ rest) m =
      at_key-add_expressions key rest (add_expression exp exp.tags m)
      ∙ (ap (λ xs. xs ++ expressions_at key rest) (at_key-add_expression key exp exp.tags m)
          ∙ append_assoc (at_key key m) _ (expressions_at key rest))

  -- After `rebuildExpressionMap` a key holds each expression of the answer once for every tag of it
  -- that spells the key together with its metric, in the order of the answer.
  pub at_key-rebuild_expression_map :
      (key : Str) (expressions : List (Expression F)) (rules : Rules F)
      → at_key key (rebuild_expression_map expressions rules).expression_map
        ≡ expressions_at key expressions
  unfolding rebuild_expression_map
  at_key-rebuild_expression_map key expressions rules = at_key-add_expressions key expressions []
