-- ===== src/Tests/Storage.antt =====
-- Witnesses of what is proved of the storage service.
use open_falcon.Prelude.{
  ℕ, ◌≡◌, ◌≢◌, ◌↔◌, refl, Bool, true, false, List, [], ◌∷◌, none, some, arith, if◌then◌else◌,
  eq_str, ◌==◌, length,
}
use open_falcon.Prelude.Int.{ℤ, pos}
use open_falcon.Prelude.Text.{Str, str}
use open_falcon.Graph.{GraphItem, SafeLinkedList}
use open_falcon.Graph.CacheKey.{form_rrd_cache_key, split_rrd_cache_key, split-form_rrd_cache_key}
use open_falcon.Graph.Store.{
  GraphItemMap, hash_key, index_of, shard, get, set, remove, push_front, push_all, pop_all,
  fetch_all,
}
use open_falcon.Graph.Store.Refine.{IsStore, get-set, get-remove}
use open_falcon.Graph.Store.Restore.{pushed, pop_all-push_front-push_all}
use open_falcon.Tests.{whole}

abbrev pub point : ℕ → GraphItem ℤ
point t = record {
  endpoint = str "web1";
  metric = str "load";
  tags = [];
  value = whole 3;
  timestamp = pos t;
  ds_type = str "GAUGE";
  step = pos 60;
  heartbeat = pos 120;
  min = str "U";
  max = str "U";
}

abbrev pub cached : SafeLinkedList ℤ
cached = record { flag = 0; items = point 120 ∷ point 60 ∷ [] }

-- Two maps, and a hash that is the length of the key.
abbrev store : GraphItemMap ℤ
store = record { a = [] ∷ ((str "k", cached) ∷ []) ∷ []; size = 2 }

store-IsStore : IsStore store
store-IsStore = record { positive = omega arith; small = omega arith; full = refl }

store_get : get length (str "k") store ≡ some (some cached)
unfolding get shard index_of hash_key
store_get = refl

get-set_example :
    (m' : GraphItemMap ℤ) × (set length (str "j") cached store ≡ some m')
    × IsStore m'
    × ((j : Str)
        → get length j m' ≡ (if str "j" == j then some (some cached) else get length j store))
get-set_example = get-set length (str "j") cached store store-IsStore

get-remove_example :
    (m' : GraphItemMap ℤ) × (found : Bool) × (remove length (str "k") store ≡ some (m', found))
    × IsStore m'
    × ((found ≡ true) ↔ (get length (str "k") store ≢ some none))
    × ((j : Str) → get length j m' ≡ (if str "k" == j then some none else get length j store))
get-remove_example = get-remove length (str "k") store store-IsStore

pop_all-push_front-push_all_example :
    (old : List (GraphItem ℤ)) × (m₁ m₂ m₃ : GraphItemMap ℤ) × (fetch_all length (str "k") store
      ≡ some (old, 0))
    × (pop_all length (str "k") store ≡ some (old, m₁))
    × (push_front length (str "k") (point 180) false m₁ ≡ some m₂)
    × (push_all length (str "k") old m₂ ≡ some (m₃, true))
    × ((j : Str)
        → get length j m₃ ≡ (
            if str "k" == j
            then some (some (pushed (point 180) false (some cached)))
            else get length j store))
pop_all-push_front-push_all_example =
    pop_all-push_front-push_all length (str "k") (point 180) false store cached store-IsStore
      store_get

split-form_rrd_cache_key_example :
    split_rrd_cache_key (form_rrd_cache_key (str "0a1b") (str "GAUGE") (pos 60))
    ≡ some (str "0a1b", str "GAUGE", pos 60)
split-form_rrd_cache_key_example =
    split-form_rrd_cache_key (str "0a1b") (str "GAUGE") (pos 60) (ground arith) (ground arith)
      (omega arith)
