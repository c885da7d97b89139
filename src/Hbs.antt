-- ===== src/Hbs.antt =====
-- modules/hbs: the heartbeat server, as far as it tells the judges which rules hold for which host:
-- modules/hbs/cache/strategies.go, ParentIds, and modules/hbs/rpc/hbs.go. What MySQL holds is an
-- argument. The order of a map's list is the order in which `range` happens to visit it. `none` is a
-- panic.
pub mod Ancestors
pub mod Inherit
pub mod Known
use open_falcon.Prelude.{
  ℕ, zero, suc, ◌-◌, Bool, true, false, ◌&&◌, ◌||◌, List, [], ◌∷◌, ◌++◌, Option, none, some, ◌>>=◌,
  length, get_elem?, if◌then◌else◌, ◌==◌, eq_str, eq_ℕ, every, exists, nat_eq, map,
}
use open_falcon.Prelude.Int.{ℤ, pos, leb_ℤ, eq_ℤ, int_eq}
use open_falcon.Prelude.Text.{Str, str}
use open_falcon.Prelude.Maps.{Map, lookup, insert}
use open_falcon.Prelude.Groups.{append_at, group_by}
use open_falcon.Model.{Template, Strategy, HostStrategy}
use open_falcon.Model.Tags.{sorted_tags}
use mathlib.Core.List.{reverse}

abbrev pub oldest_first : Option (List ℤ) → List ℤ
oldest_first none = []
oldest_first (some ret) = reverse ret

module _ (all_tpls : Map ℤ Template) where
  -- The loop of `ParentIds`, with the rounds that are left until `depth` is 10; `none` is the error.
  unfoldable pub parent_loop : ℕ → ℤ → List ℤ → Option (List ℤ)
  parent_loop zero tid ret = none
  parent_loop (suc k) tid ret = if leb_ℤ tid (pos 0) then some ret else elim (lookup tid all_tpls) [
    | none ↦ some ret
    | some t ↦ parent_loop k t.parent_id (ret ++ tid ∷ [])
  ]

  unfoldable pub parent_ids : ℤ → List ℤ
  unfolding parent_loop
  parent_ids tid = oldest_first (parent_loop 10 tid [])

abbrev pub slice_int_contains : List ℤ → ℤ → Bool
slice_int_contains list target = exists (λ b. b == target) list

abbrev pub slice_int_eq : List ℤ → List ℤ → Bool
slice_int_eq [] [] = true
slice_int_eq [] (b ∷ bs) = false
slice_int_eq (a ∷ l) [] = false
slice_int_eq (a ∷ l) (b ∷ bs) = a == b && slice_int_eq l bs

-- Every element of the one is in the other.
abbrev pub slice_int_lt : List ℤ → List ℤ → Bool
slice_int_lt a b = every (λ i. slice_int_contains b i) a

-- `tpl_buckets`: the lines of the templates that are known.
unfoldable pub buckets_of : Map ℤ Template → List ℤ → List (List ℤ)
unfolding parent_ids
buckets_of all_tpls [] = []
buckets_of all_tpls (tid ∷ tids) =
    let ids = parent_ids all_tpls tid in
    let rest = buckets_of all_tpls tids in if nat_eq (length ids) 0 then rest else ids ∷ rest

-- The inner loop of the choice of buckets, from the index `j` on.
unfoldable pub is_valid_bucket : ℕ → ℕ → List ℤ → List (List ℤ) → Bool
is_valid_bucket i j bucket [] = true
is_valid_bucket i j bucket (other ∷ rest) =
    let next = is_valid_bucket i (suc j) bucket rest in
    if nat_eq i j
    then next
    else if slice_int_eq bucket other
    then true
    else if slice_int_lt bucket other
    then false
    else next

-- `uniq_tpl_buckets`, from the index `i` on.
unfoldable pub uniq_from : ℕ → List (List ℤ) → List (List ℤ) → List (List ℤ)
unfolding is_valid_bucket
uniq_from i all [] = []
uniq_from i all (bucket ∷ rest) =
    let more = uniq_from (suc i) all rest in
    if is_valid_bucket i 0 bucket all then bucket ∷ more else more

-- `bucket[len(bucket)-1]`.
abbrev pub last_tid : List ℤ → Option ℤ
last_tid bucket = get_elem? bucket (length bucket - 1)

module _ {F : Type 0} where
  -- A nil strategy, `none`, and one without a template are passed over.
  abbrev pub add_to_tpl :
      Strategy F → Option Template → Map ℤ (List (Strategy F)) → Map ℤ (List (Strategy F))
  add_to_tpl s none ret = ret
  add_to_tpl s (some tpl) ret = append_at tpl.id s ret

  unfoldable pub tpl2_loop :
      List (Option (Strategy F)) → Map ℤ (List (Strategy F)) → Map ℤ (List (Strategy F))
  tpl2_loop [] ret = ret
  tpl2_loop (none ∷ rest) ret = tpl2_loop rest ret
  tpl2_loop (some s ∷ rest) ret = tpl2_loop rest (add_to_tpl s s.tpl ret)

  unfoldable pub tpl2_strategies : Map ℤ (Option (Strategy F)) → Map ℤ (List (Strategy F))
  unfolding tpl2_loop
  tpl2_strategies strategies =
      tpl2_loop (map (λ (kv : ℤ × Option (Strategy F)). kv.1) strategies) []

  -- `uuid`: what a strategy watches.
  unfoldable pub strategy_uuid : Strategy F → Str
  unfolding sorted_tags
  strategy_uuid s = str "metric:" ++ s.metric ++ str "/tags:" ++ sorted_tags s.tags

  -- The strategies of a younger template take the place of those of its parents that watch the same.
  abbrev pub override :
      Map Str (List (Strategy F)) → Map Str (List (Strategy F)) → Map Str (List (Strategy F))
  override [] all = all
  override ((uuid, ss) ∷ rest) all = override rest (insert uuid ss all)

  abbrev pub stras_of : Option (List (Strategy F)) → List (Strategy F)
  stras_of none = []
  stras_of (some ss) = ss

  -- `bucket_stras_map`, of a line of templates from the oldest on.
  unfoldable pub bucket_loop :
      Map ℤ (List (Strategy F)) → List ℤ → Map Str (List (Strategy F)) → Map Str (List (Strategy F))
  unfolding group_by strategy_uuid
  bucket_loop tpl2 [] all = all
  bucket_loop tpl2 (tid ∷ bucket) all =
      bucket_loop tpl2 bucket
        (override (group_by strategy_uuid (stras_of (lookup tid tpl2)) []) all)

  -- The strategy with the youngest template in place of its own; a nil template is a panic.
  unfoldable pub with_last : Map ℤ Template → ℤ → Strategy F → Option (Strategy F)
  with_last all_tpls last s =
      s.tpl >>= λ tpl. some (if tpl.id == last then s else record s { tpl = lookup last all_tpls })

  -- What is collected, with the ids that are in it.
  unfoldable pub collect :
      Map ℤ Template
      → ℤ
      → List (Strategy F)
      → List (Strategy F) × List ℤ
      → Option (List (Strategy F) × List ℤ)
  unfolding with_last
  collect all_tpls last [] st = some st
  collect all_tpls last (s ∷ ss) (out, ids) =
      let skip = collect all_tpls last ss (out, ids) in
      let take_it =
        with_last all_tpls last s >>= λ s'. collect all_tpls last ss (out ++ s' ∷ [], s.id ∷ ids) in
      if slice_int_contains ids s.id then skip else take_it

  unfoldable pub collect_all :
      Map ℤ Template
      → ℤ
      → Map Str (List (Strategy F))
      → List (Strategy F) × List ℤ
      → Option (List (Strategy F) × List ℤ)
  unfolding collect
  collect_all all_tpls last [] st = some st
  collect_all all_tpls last ((uuid, ss) ∷ rest) st =
      collect all_tpls last ss st >>= λ st'. collect_all all_tpls last rest st'

  unfoldable pub bucket_strategies :
      Map ℤ Template
      → Map ℤ (List (Strategy F))
      → List (List ℤ)
      → List (Strategy F) × List ℤ
      → Option (List (Strategy F) × List ℤ)
  unfolding bucket_loop collect_all
  bucket_strategies all_tpls tpl2 [] st = some st
  bucket_strategies all_tpls tpl2 (bucket ∷ rest) st = last_tid bucket >>= λ last.
      collect_all all_tpls last (bucket_loop tpl2 bucket []) st >>= λ st'.
      bucket_strategies all_tpls tpl2 rest st'

  unfoldable pub calc_inherit_strategies :
      Map ℤ Template → List ℤ → Map ℤ (List (Strategy F)) → Option (List (Strategy F))
  unfolding buckets_of uniq_from bucket_strategies
  calc_inherit_strategies all_tpls tids tpl2 =
      let all = buckets_of all_tpls tids in
      bucket_strategies all_tpls tpl2 (uniq_from 0 all all) ([], []) >>= λ st. some st.0

  -- The loop over the hosts; a host that is not monitored, or has no strategies, is left out.
  unfoldable pub host_loop :
      Map ℤ Template
      → Map ℤ Str
      → Map ℤ (List (Strategy F))
      → Map ℤ (List ℤ)
      → Option (List (HostStrategy F))
  unfolding calc_inherit_strategies
  host_loop all_tpls hosts tpl2 [] = some []
  host_loop all_tpls hosts tpl2 ((host_id, tids) ∷ rest) =
      let more = host_loop all_tpls hosts tpl2 rest in
      elim (lookup host_id hosts) [
        | none ↦ more
        | some name ↦ calc_inherit_strategies all_tpls tids tpl2 >>= λ ss. more >>= λ hs.
            some (
              if nat_eq (length ss) 0 then hs else record { hostname = name; strategies = ss } ∷ hs)
      ]

  -- Of the hosts only the names are used.
  unfoldable pub get_strategies :
      Map ℤ (List ℤ)
      → Map ℤ Str
      → Map ℤ Template
      → Map ℤ (Option (Strategy F))
      → Option (List (HostStrategy F))
  unfolding host_loop tpl2_strategies
  get_strategies hid_tids hosts tpls strategies =
      let all = host_loop tpls hosts (tpl2_strategies strategies) hid_tids in
      if nat_eq (length hid_tids) 0
        || nat_eq (length hosts) 0
        || nat_eq (length tpls) 0
        || nat_eq (length strategies) 0
      then some []
      else all
