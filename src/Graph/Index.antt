-- ===== src/Graph/Index.antt =====
-- modules/graph/index/{index,cache,index_update_incr_task}.go: which counters the service knows,
-- with their types and steps. Whether an rrd file is there, what MySQL answers and whether it takes
-- an item are parameters. `none` is a panic.
use open_falcon.Prelude.{
  Bool, List, [], ◌∷◌, Option, none, some, ◌>>=◌, if◌then◌else◌, ◌==◌, eq_str, map,
}
use open_falcon.Prelude.Int.{ℤ}
use open_falcon.Prelude.Text.{Str}
use open_falcon.Prelude.Maps.{Map, lookup, insert, delete}
use open_falcon.Model.Tags.{uuid, pk, pk2}
use open_falcon.Graph.{GraphItem}
use open_falcon.Graph.CacheKey.{rrd_file_name}

-- `UUID` is the field `id`.
pub record IndexCacheItem (F : Type 0) : Type 0 where
  pub id : Str
  pub item : GraphItem F

-- `IndexedItemCache` and `unIndexedItemCache`: `IndexCacheBase` is a map under a lock, whose `Put`,
-- `Get`, `Remove` and `ContainsKey` are those of the map.
pub record IndexCaches (F : Type 0) : Type 0 where
  pub indexed : Map Str (IndexCacheItem F)
  pub unindexed : Map Str (IndexCacheItem F)

module _ {F : Type 0} where
  unfoldable pub item_uuid : GraphItem F → Str
  unfolding uuid
  item_uuid item = uuid item.endpoint item.metric item.tags item.ds_type item.step

  abbrev pub put_indexed : Str → IndexCacheItem F → IndexCaches F → IndexCaches F
  put_indexed md5 ic c = record c { indexed = insert md5 ic c.indexed }

  abbrev pub put_unindexed : Str → IndexCacheItem F → IndexCaches F → IndexCaches F
  put_unindexed md5 ic c = record c { unindexed = insert md5 ic c.unindexed }

  unfoldable pub receive_item :
      (Str → Bool) → Str → GraphItem F → Str → IndexCaches F → Option (IndexCaches F)
  unfolding item_uuid rrd_file_name
  receive_item is_rrd_file_exist storage item md5 c =
      let ic : IndexCacheItem F = record { id = item_uuid item; item = item } in
      elim (lookup md5 c.indexed) [
        | some old ↦
            some (if item_uuid item == old.id then put_indexed md5 ic c else put_unindexed md5 ic c)
        | none ↦ rrd_file_name storage md5 item.ds_type item.step >>= λ file.
            some (if is_rrd_file_exist file then put_indexed md5 ic c else put_unindexed md5 ic c)
      ]

  -- One round of the update: an item that MySQL takes is indexed.
  unfoldable pub update_one : (GraphItem F → Bool) → Str → IndexCaches F → IndexCaches F
  update_one saved key c =
      let c' = record c { unindexed = delete key c.unindexed } in
      elim (lookup key c.unindexed) [
        | none ↦ c'
        | some ic ↦ if saved ic.item then put_indexed key ic c' else c'
      ]

  unfoldable pub update_loop : (GraphItem F → Bool) → List Str → IndexCaches F → IndexCaches F
  unfolding update_one
  update_loop saved [] c = c
  update_loop saved (key ∷ keys) c = update_loop saved keys (update_one saved key c)

  -- With a connection to MySQL.
  unfoldable pub update_index_incr : (GraphItem F → Bool) → IndexCaches F → IndexCaches F
  unfolding update_loop
  update_index_incr saved c =
      update_loop saved (map (λ (kv : Str × IndexCacheItem F). kv.0) c.unindexed) c

module _ {F : Type 0} (md5 : Str → Str) where
  -- The type and the step of a counter.
  unfoldable pub get_type_and_step :
      (Str → Option ℤ) → (ℤ → Str → Option (Str × ℤ)) → Str → Str → IndexCaches F → Option (Str × ℤ)
  unfolding pk2
  get_type_and_step endpoint_id counter_of endpoint counter c =
      elim (lookup (md5 (pk2 endpoint counter)) c.indexed) [
        | some ic ↦ some (ic.item.ds_type, ic.item.step)
        | none ↦ endpoint_id endpoint >>= λ id. counter_of id counter
      ]

  unfoldable pub checksum : GraphItem F → Str
  unfolding pk
  checksum item = md5 (pk item.endpoint item.metric item.tags)
