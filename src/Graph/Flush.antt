-- ===== src/Graph/Flush.antt =====
-- modules/graph/rrdtool/rrdtool.go: how the cached points get to disk. What is written is a log of
-- files with their points, the latest last; how `update` writes them is left to the rrd library, and
-- a write that fails is as one that does not, since nothing looks at the error. `none` is a panic.
pub mod Committed
pub mod Forced
use open_falcon.Prelude.{
  ℕ, zero, suc, ◌/◌, Bool, true, false, not, ◌&&◌, ◌||◌, List, [], ◌∷◌, ◌++◌, Option, none, some,
  ◌>>=◌, length, if◌then◌else◌, leb, nat_eq, ◌%◌,
}
use open_falcon.Prelude.Int.{ℤ, pos, sub64, leb_ℤ}
use open_falcon.Prelude.Text.{Str}
use open_falcon.Graph.{GraphItem}
use open_falcon.Graph.CacheKey.{split_rrd_cache_key, rrd_file_name}
use open_falcon.Graph.Store
use open_falcon.Graph.Store.{GraphItemMap}
use open_falcon.Graph.Handlers.{has_flag_miss}

abbrev pub flush_min_count : ℕ
flush_min_count = 6

abbrev pub flush_max_wait : ℕ
flush_max_wait = 86400

-- The cache, and what has been written.
abbrev pub Disk : Type 0 → Type 0
Disk F = GraphItemMap F × List (Str × List (GraphItem F))

abbrev pub is_overdue : {F : Type 0} → ℤ → Option (GraphItem F) → Bool
is_overdue deadline none = false
is_overdue deadline (some back) = leb_ℤ back.timestamp deadline

-- Whether the points are to come from another node; a key that is not there has no flags.
abbrev pub is_pulled : Bool → Bool → Option ℕ → Bool
is_pulled migrate force none = false
is_pulled migrate force (some flag) = not force && (migrate && has_flag_miss flag)

module _ {F : Type 0} (crc32 : Str → ℕ) where
  unfoldable pub should_flush : ℤ → Str → GraphItemMap F → Option Bool
  unfolding Store.item_cnt Store.back
  should_flush now key items = Store.item_cnt crc32 key items >>= λ n.
      let late = Store.back crc32 key items >>= λ back.
      some (is_overdue (sub64 now (pos flush_max_wait)) back) in
      if leb flush_min_count n then some true else late

  -- The points of a key that could be read, in the file of its name.
  unfoldable pub commit_to : Str → Str → Disk F → Option (Disk F)
  unfolding Store.pop_all
  commit_to filename key (items, log) = Store.pop_all crc32 key items >>= λ r.
      some (r.1, if nat_eq (length r.0) 0 then log else log ++ (filename, r.0) ∷ [])

module _ {F : Type 0} (crc32 : Str → ℕ) (storage : Str) where
  unfoldable pub commit_by_key : Str → Disk F → Option (Disk F)
  unfolding split_rrd_cache_key rrd_file_name commit_to
  commit_by_key key st = elim (split_rrd_cache_key key) [
    | none ↦ some st
    | some (md5, ds_type, step) ↦
        rrd_file_name storage md5 ds_type step >>= λ filename. commit_to crc32 filename key st
  ]

  -- One round of the loop. `PullByKey` only asks another node, which answers later.
  unfoldable pub flush_key : Bool → Bool → ℤ → Str → Disk F → Option (Disk F)
  unfolding Store.get_flag should_flush commit_by_key
  flush_key migrate force now key st = Store.get_flag crc32 key st.0 >>= λ flag.
      should_flush crc32 now key st.0 >>= λ due.
      let commit = commit_by_key key st in
      if is_pulled migrate force flag then some st else if force || due then commit else some st

  unfoldable pub flush_loop : Bool → Bool → ℤ → List Str → Disk F → Option (Disk F)
  unfolding flush_key
  flush_loop migrate force now [] st = some st
  flush_loop migrate force now (key ∷ keys) st =
      flush_key migrate force now key st >>= λ st'. flush_loop migrate force now keys st'

  unfoldable pub flush_rrd : Bool → Bool → ℤ → ℤ → Disk F → Option (Disk F)
  unfolding Store.keys_by_index flush_loop
  flush_rrd migrate force now idx st =
      Store.keys_by_index crc32 idx st.0 >>= λ keys. flush_loop migrate force now keys st

  -- `FlushAll`, for the indices from `idx` on; what it prints for every tenth of them is left out.
  unfoldable pub flush_from : Bool → Bool → ℤ → ℕ → ℕ → Disk F → Option (Disk F)
  unfolding flush_rrd
  flush_from migrate force now zero idx st = some st
  flush_from migrate force now (suc k) idx st = flush_rrd migrate force now (pos idx) st >>= λ st'.
      flush_from migrate force now k (suc idx) st'

  -- A tenth of less than ten indices is 0, and `i % n` a panic, unless there are no indices.
  unfoldable pub flush_all : Bool → Bool → ℤ → Disk F → Option (Disk F)
  unfolding flush_from
  flush_all migrate force now st =
      let all = flush_from migrate force now st.0.size 0 st in
      if nat_eq (st.0.size / 10) 0 && not (nat_eq st.0.size 0) then none else all
