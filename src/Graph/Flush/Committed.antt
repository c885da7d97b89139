-- ===== src/Graph/Flush/Committed.antt =====
-- What leaves the cache is written.
use open_falcon.Prelude.{
  ℕ, ◌≡◌, refl, sym, ap, ◌∙◌, List, [], ◌∷◌, ◌++◌, Option, none, some, length, if◌then◌else◌,
  nat_eq, ◌==◌, eq_str, bind_some, inl, inr, Bool-cases, list_eq_iff,
}
use open_falcon.Prelude.Text.{Str}
use open_falcon.Prelude.Int.{ℤ}
use open_falcon.Graph.{GraphItem, SafeLinkedList}
use open_falcon.Graph.CacheKey.{split_rrd_cache_key, rrd_file_name}
use open_falcon.Graph.LinkedList.{walk}
use open_falcon.Graph.Store.{GraphItemMap, get, pop_all}
use open_falcon.Graph.Store.Refine.{IsStore, get-set}
use open_falcon.Graph.Store.Restore.{pop_all-found}
use open_falcon.Graph.Flush.{commit_to, commit_by_key}

-- The points under a key, the oldest first.
abbrev pub points_of : {F : Type 0} → Option (SafeLinkedList F) → List (GraphItem F)
points_of none = []
points_of (some l) = walk l.items

abbrev pub emptied : {F : Type 0} → Option (SafeLinkedList F) → Option (SafeLinkedList F)
emptied none = none
emptied (some l) = some (record l { items = [] })

module _ {F : Type 0} (crc32 : Str → ℕ) where
  -- `PopAll` gives out all points of a key, and leaves those of the others.
  pop_all-returns :
      (key : Str) (m : GraphItemMap F) (o : Option (SafeLinkedList F))
      → IsStore m
      → get crc32 key m ≡ some o
      → (m' : GraphItemMap F) × (pop_all crc32 key m ≡ some (points_of o, m'))
        × IsStore m'
        × ((j : Str) → get crc32 j m' ≡ (if key == j then some (emptied o) else get crc32 j m))
  unfolding pop_all
  pop_all-returns key m none h e = (
    m,
    bind_some _ e refl,
    h,
    λ j. elim (Bool-cases (key == j)) [
      | inl same ↦ rw same (ap (λ k. get crc32 k m) (sym ((list_eq_iff key j).0 same)) ∙ e)
      | inr other ↦ rw other refl
    ],
  )
  pop_all-returns key m (some l) h e =
      let (m', s, h', k) = get-set crc32 key (record l { items = [] }) m h in
      (m', pop_all-found crc32 key m m' l e s, h', k)

  commit_to-steps :
      (filename key : Str) (m : GraphItemMap F) (log : List (Str × List (GraphItem F)))
      {r : List (GraphItem F) × GraphItemMap F}
      → pop_all crc32 key m ≡ some r
      → commit_to crc32 filename key (m, log)
        ≡ some (r.1, if nat_eq (length r.0) 0 then log else log ++ (filename, r.0) ∷ [])
  unfolding commit_to
  commit_to-steps filename key m log e = bind_some _ e refl

  -- CommitByKey, for a key that it can read: all points of the key leave the cache, and they are what
  -- is written, the oldest first, to the file of the key; nothing is written if there are none. The
  -- points of the other keys stay.
  pub commit_by_key-Committed :
      (storage key md5 ds_type filename : Str) (step : ℤ) (m : GraphItemMap F)
      (log : List (Str × List (GraphItem F))) (o : Option (SafeLinkedList F))
      → IsStore m
      → split_rrd_cache_key key ≡ some (md5, ds_type, step)
      → rrd_file_name storage md5 ds_type step ≡ some filename
      → get crc32 key m ≡ some o
      → (m' : GraphItemMap F) × (commit_by_key crc32 storage key (m, log)
          ≡ some (
            m',
            if nat_eq (length (points_of o)) 0 then log else log ++ (filename, points_of o) ∷ [],
          ))
        × IsStore m'
        × ((j : Str) → get crc32 j m' ≡ (if key == j then some (emptied o) else get crc32 j m))
  unfolding commit_by_key
  commit_by_key-Committed storage key md5 ds_type filename step m log o h e1 e2 e3 =
      let (m', q, h', k) = pop_all-returns key m o h e3 in
      (m', rw (e1, commit_by_key) (bind_some _ e2 (commit_to-steps filename key m log q)), h', k)
