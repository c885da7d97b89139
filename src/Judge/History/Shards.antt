-- ===== src/Judge/History/Shards.antt =====
-- What the history of all counters holds, from its beginning on and after each cleaning.
use open_falcon.Prelude.{
  ℕ, length, ◌<◌, ◌≡◌, ap, ◌∙◌, List, [], ◌∷◌, some, arith, ◌==◌, ==_refl, if◌then◌else◌, eq_str,
  Bool-cases, inl, inr, All,
}
use open_falcon.Prelude.Int.{ℤ, pos}
use open_falcon.Prelude.Text.{Str, slice}
use open_falcon.Prelude.Maps.{lookup, insert, IsMap, lookup-insert, insert-IsMap, All-insert}
use open_falcon.Float.{Float}
use open_falcon.Model.{JudgeItem}
use open_falcon.Judge.LinkedList.Retention.{IsWindow}
use open_falcon.Judge.Check.{primary_key}
use open_falcon.Judge.History.{
  JudgeItemMap, HistoryBigMap, prefixes, init_loop, init_history_big_map, stale_keys, clean_stale,
}
use open_falcon.Judge.History.Clean.{batch_delete-IsMap, All-batch_delete}

-- The map for a prefix is there.
abbrev pub Has : {F : Type 0} → HistoryBigMap F → Str → Type 0
Has {F} big p = (m : JudgeItemMap F) × (lookup p big ≡ some m)

pub All-map : (P Q : Str → Type 0) (ps : List Str) → ((p : Str) → P p → Q p) → All P ps → All Q ps
All-map P Q [] f a = tt
All-map P Q (p ∷ ps) f a = (f p a.0, All-map P Q ps f a.1)

module _ {F : Type 0} where
  pub insert-Has :
      (p q : Str) (m : JudgeItemMap F) (big : HistoryBigMap F) → Has big q → Has (insert p m big) q
  insert-Has p q m big (m', e) = elim (Bool-cases (p == q)) [
    | inl same ↦ (m, ground (arith, lookup-insert p q m big))
    | inr other ↦ (m', ground (arith, lookup-insert p q m big))
  ]

  init_loop-Has :
      (ps : List Str) (q : Str) (big : HistoryBigMap F) → Has big q → Has (init_loop ps big) q
  unfolding init_loop
  init_loop-Has [] q big h = h
  init_loop-Has (p ∷ ps) q big h = init_loop-Has ps q (insert p [] big) (insert-Has p q [] big h)

  init_loop-All : (ps : List Str) (big : HistoryBigMap F) → All (Has (init_loop ps big)) ps
  unfolding init_loop
  init_loop-All [] big = tt
  init_loop-All (p ∷ ps) big = (
    init_loop-Has ps p (insert p [] big)
        ([], lookup-insert p p [] big ∙ ap (λ b. if b then some [] else lookup p big) (==_refl p)),
    init_loop-All ps (insert p [] big),
  )

module _ {F : Type 0} ⦃fl : Float F⦄ (md5 : Str → Str) (min_interval now : ℤ) where
  -- An entry of the map for a prefix: the key starts with the prefix, the list is a window of at most
  -- `n` items, and all of them are typed items of the counter that the key is the hash of.
  pub record IsEntry (n : ℕ) (p : Str) (kv : Str × List (JudgeItem F)) : Type 0 where
    pub in_shard : slice kv.0 (pos 0) (pos 2) ≡ some p
    pub window : IsWindow n kv.1
    pub own :
        All (λ v. (primary_key md5 min_interval now v ≡ kv.0) × (0 < length v.judge_type)) kv.1

  pub record IsShard (n : ℕ) (pm : Str × JudgeItemMap F) : Type 0 where
    pub distinct : IsMap pm.1
    pub entries : All (IsEntry n pm.0) pm.1

  pub record IsHistory (n : ℕ) (big : HistoryBigMap F) : Type 0 where
    pub distinct : IsMap big
    pub shards : All (IsShard n) big
    pub complete : All (Has big) prefixes

  abbrev Holds : ℕ → HistoryBigMap F → Type 0
  Holds n big = IsMap big × All (IsShard n) big

  init_loop-Holds :
      (n : ℕ) (ps : List Str) (big : HistoryBigMap F) → Holds n big → Holds n (init_loop ps big)
  unfolding init_loop
  init_loop-Holds n [] big h = h
  init_loop-Holds n (p ∷ ps) big h = init_loop-Holds n ps (insert p [] big) (
    insert-IsMap p [] big h.0,
    All-insert (IsShard n) p [] big h.1 (record { distinct = tt; entries = tt }),
  )

  -- What `InitHistoryBigMap` sets up is a history, for any number of items.
  pub init_history_big_map-IsHistory : (n : ℕ) → IsHistory n (init_history_big_map [])
  unfolding init_history_big_map
  init_history_big_map-IsHistory n =
      let h = init_loop-Holds n prefixes [] (tt, tt) in
      record { distinct = h.0; shards = h.1; complete = init_loop-All prefixes [] }

  pub clean_stale-IsShard :
      (n : ℕ) (before : ℤ) (p : Str) (m : JudgeItemMap F)
      → IsShard n (p, m)
      → IsShard n (p, clean_stale before m)
  unfolding clean_stale
  clean_stale-IsShard n before p m h = record {
    distinct = batch_delete-IsMap (stale_keys before m) m h.distinct;
    entries = All-batch_delete (IsEntry n p) (stale_keys before m) m h.entries;
  }

  pub put-IsHistory :
      (n : ℕ) (p : Str) (m : JudgeItemMap F) (big : HistoryBigMap F)
      → IsHistory n big
      → IsShard n (p, m)
      → IsHistory n (insert p m big)
  put-IsHistory n p m big h s = record {
    distinct = insert-IsMap p m big h.distinct;
    shards = All-insert (IsShard n) p m big h.shards s;
    complete =
        All-map (Has big) (Has (insert p m big)) prefixes (λ q. insert-Has p q m big) h.complete;
  }
