-- ===== src/Graph/Store.antt =====
-- modules/graph/store/store.go: the cached points of all counters, in maps chosen by the hash of the
-- key. Each method is one step, as under the lock of the map; but `PushFront` is a Get and then a Set, each
-- under the lock, so that two calls at once for one new key are not covered. `none` is a panic. The
-- package `hash/crc32` is the parameter `crc32`, and whether an rrd file is missing is an argument of
-- `push_front`.
pub mod Refine
pub mod Restore
use open_falcon.Prelude.{
  ℕ, zero, suc, ◌+◌, ◌*◌, ◌/◌, ◌%◌, ◌^◌, Bool, true, false, List, [], ◌∷◌, ◌++◌, Option, none, some,
  ◌>>=◌, length, get_elem?, take, if◌then◌else◌, ltb, nat_eq, eq_str, map,
}
use open_falcon.Prelude.Int.{ℤ, pos, negsuc, add64, sub64}
use open_falcon.Prelude.Text.{Str}
use open_falcon.Prelude.Maps.{Map, lookup, insert, delete}
use open_falcon.Graph.{GraphItem, SafeLinkedList}
use open_falcon.Graph.LinkedList

abbrev pub cache_time : ℕ
cache_time = 1_800_000

abbrev pub flush_disk_step : ℕ
flush_disk_step = 1000

-- The flag `GRAPH_F_MISS`.
abbrev pub graph_f_miss : ℕ
graph_f_miss = 1

pub record GraphItemMap (F : Type 0) : Type 0 where
  pub a : List (Map Str (SafeLinkedList F))
  pub size : ℕ

-- `xs[i] = x`.
unfoldable pub set_elem {ℓ} : {A : Type ℓ} → ℕ → A → List A → Option (List A)
set_elem i x [] = none
set_elem zero x (y ∷ ys) = some (x ∷ ys)
set_elem (suc i) x (y ∷ ys) = set_elem i x ys >>= λ r. some (y ∷ r)

abbrev zeros : ℕ → Str
zeros zero = []
zeros (suc n) = 0 ∷ zeros n

abbrev empty_maps : {F : Type 0} → ℕ → List (Map Str (SafeLinkedList F))
empty_maps zero = []
empty_maps (suc n) = [] ∷ empty_maps n

unfoldable pub init_items : {F : Type 0} → GraphItemMap F
init_items = record {
  a = empty_maps (cache_time / flush_disk_step);
  size = cache_time / flush_disk_step;
}

module _ (crc32 : Str → ℕ) where
  -- A short key is copied to an array on the stack first.
  unfoldable pub hash_key : Str → ℕ
  hash_key key =
      if ltb (length key) 64
      then crc32 (take (length key) (take 64 (key ++ zeros 64))) % 2 ^ 32
      else crc32 key % 2 ^ 32

  unfoldable pub get_wts : Str → ℤ → ℤ
  unfolding hash_key
  get_wts key now = sub64 (add64 now (pos cache_time)) (pos (hash_key key % cache_time))

  -- `hashKey(key) % uint32(this.Size)`, which panics for a size of 0.
  unfoldable pub index_of : Str → ℕ → Option ℕ
  unfolding hash_key
  index_of key size = let n = size % 2 ^ 32 in if nat_eq n 0 then none else some (hash_key key % n)

  module _ {F : Type 0} where
    -- `this.A[idx]`, with the index.
    unfoldable pub shard : Str → GraphItemMap F → Option (ℕ × Map Str (SafeLinkedList F))
    unfolding index_of
    shard key m = index_of key m.size >>= λ i. get_elem? m.a i >>= λ s. some (i, s)

    unfoldable pub put : ℕ → Map Str (SafeLinkedList F) → GraphItemMap F → Option (GraphItemMap F)
    unfolding set_elem
    put i s m = set_elem i s m.a >>= λ a. some (record m { a = a })

    -- `val, ok := this.A[idx][key]`.
    unfoldable pub get : Str → GraphItemMap F → Option (Option (SafeLinkedList F))
    unfolding shard
    get key m = shard key m >>= λ r. some (lookup key r.1)

    unfoldable pub set : Str → SafeLinkedList F → GraphItemMap F → Option (GraphItemMap F)
    unfolding shard put
    set key val m = shard key m >>= λ r. put r.0 (insert key val r.1) m

    unfoldable pub remove : Str → GraphItemMap F → Option (GraphItemMap F × Bool)
    unfolding shard put
    remove key m = shard key m >>= λ r. elim (lookup key r.1) [
      | none ↦ some (m, false)
      | some _ ↦ put r.0 (delete key r.1) m >>= λ m'. some (m', true)
    ]

    unfoldable pub get_items :
        ℤ → GraphItemMap F → Option (Map Str (SafeLinkedList F) × GraphItemMap F)
    unfolding put
    get_items (negsuc n) m = none
    get_items (pos i) m = get_elem? m.a i >>= λ items. put i [] m >>= λ m'. some (items, m')

    len_loop : ℕ → ℕ → GraphItemMap F → Option ℕ
    len_loop i zero m = some 0
    len_loop i (suc k) m =
        get_elem? m.a i >>= λ s. len_loop (suc i) k m >>= λ l. some (length s + l)

    unfoldable pub len : GraphItemMap F → Option ℕ
    unfolding len_loop
    len m = len_loop 0 m.size m

    unfoldable pub keys_by_index : ℤ → GraphItemMap F → Option (List Str)
    keys_by_index (negsuc n) m = none
    keys_by_index (pos i) m = get_elem? m.a i >>= λ s. some (map (λ kv. kv.0) s)

    unfoldable pub first : Str → GraphItemMap F → Option (Option (GraphItem F))
    unfolding get LinkedList.front
    first key m = get key m >>= λ o. some (o >>= λ l. LinkedList.front l)

    unfoldable pub back : Str → GraphItemMap F → Option (Option (GraphItem F))
    unfolding get LinkedList.back
    back key m = get key m >>= λ o. some (o >>= λ l. LinkedList.back l)

    unfoldable pub item_cnt : Str → GraphItemMap F → Option ℕ
    unfolding get
    item_cnt key m = get key m >>= λ o. some (elim o [ some l ↦ length l.items | none ↦ 0 ])

    -- `false` is the error `not exist`. The list is changed in place.
    unfoldable pub push_all :
        Str → List (GraphItem F) → GraphItemMap F → Option (GraphItemMap F × Bool)
    unfolding get set LinkedList.push_all
    push_all key items m = get key m >>= λ o. elim o [
      | none ↦ some (m, false)
      | some l ↦ LinkedList.push_all items l >>= λ l'. set key l' m >>= λ m'. some (m', true)
    ]

    unfoldable pub pop_all : Str → GraphItemMap F → Option (List (GraphItem F) × GraphItemMap F)
    unfolding get set LinkedList.pop_all
    pop_all key m = get key m >>= λ o. elim o [
      | none ↦ some ([], m)
      | some l ↦ LinkedList.pop_all l >>= λ r. set key r.1 m >>= λ m'. some (r.0, m')
    ]

    unfoldable pub fetch_all : Str → GraphItemMap F → Option (List (GraphItem F) × ℕ)
    unfolding get LinkedList.fetch_all
    fetch_all key m =
        get key m >>= λ o. elim o [ none ↦ some ([], 0) | some l ↦ some (LinkedList.fetch_all l) ]

    -- An inner `none` is the error `not exist`.
    unfoldable pub get_flag : Str → GraphItemMap F → Option (Option ℕ)
    unfolding get
    get_flag key m = get key m >>= λ o. some (o >>= λ l. some l.flag)

    unfoldable pub set_flag : Str → ℕ → GraphItemMap F → Option (GraphItemMap F × Bool)
    unfolding get set
    set_flag key flag m = get key m >>= λ o. elim o [
      | none ↦ some (m, false)
      | some l ↦ set key (record l { flag = flag }) m >>= λ m'. some (m', true)
    ]

    -- `missing` says whether the migration is on and there is no rrd file yet.
    unfoldable pub push_front : Str → GraphItem F → Bool → GraphItemMap F → Option (GraphItemMap F)
    unfolding get set LinkedList.push_front
    push_front key item missing m = get key m >>= λ o. elim o [
      | some l ↦ set key (LinkedList.push_front item l) m
      | none ↦ set key (record { flag = if missing then graph_f_miss else 0; items = item ∷ [] }) m
    ]
