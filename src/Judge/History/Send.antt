-- ===== src/Judge/History/Send.antt =====
-- Sending items to the history.
use open_falcon.Prelude.{
  ℕ, zero, suc, length, length-take, ◌^◌, ◌-◌, ◌<◌, ◌≡◌, refl, subst, true, List, [], ◌∷◌, Option,
  none, some, arith, ◌==◌, if◌then◌else◌, eq_str, Bool-cases, Option-cases, inl, inr, All, All-take,
  take, exists, list_eq_iff,
}
use open_falcon.Prelude.Int.{ℤ, pos}
use open_falcon.Prelude.Text.{Str, slice}
use open_falcon.Prelude.Maps.{lookup, insert, insert-IsMap, All-insert, All-lookup}
use open_falcon.Float.{Float}
use open_falcon.Model.{JudgeItem}
use open_falcon.Model.Tags.{pk}
use open_falcon.Judge.LinkedList.{is_stale}
use open_falcon.Judge.LinkedList.Retention.{kept-IsWindow, push_lem}
use open_falcon.Judge.LinkedList.Series.{IsTyped}
use open_falcon.Judge.Events.Invariant.{IsSound}
use open_falcon.Judge.Check.Total.{RulesAreSafe, judge-Returns}
use open_falcon.Judge.Events.{Alarms}
use open_falcon.Judge.Rules.{Rules, filter_exists}
use open_falcon.Judge.Check.{primary_key}
use open_falcon.Judge.History.{
  JudgeItemMap, HistoryBigMap, prefixes, push_and_judge, send_item, send,
}
use open_falcon.Judge.History.Shards.{Has, IsEntry, IsShard, IsHistory, put-IsHistory}

-- The hash of a counter starts with two hexadecimal digits.
abbrev pub HashesToHex : (Str → Str) → Type 0
HashesToHex md5 =
    (x : Str)
    → (p : Str) × (slice (md5 x) (pos 0) (pos 2) ≡ some p) × (exists (λ q. q == p) prefixes ≡ true)

exists-All :
    (P : Str → Type 0) (p : Str) (qs : List Str) → All P qs → exists (λ q. q == p) qs ≡ true → P p
exists-All P p [] a h = cc
exists-All P p (q ∷ qs) a h = elim (Bool-cases (q == p)) [
  | inl same ↦ subst P ((list_eq_iff q p).0 same) a.0
  | inr other ↦ exists-All P p qs a.1 (rw other at h)
]

-- An item that has a type; no nil pointer.
abbrev pub IsSent : {F : Type 0} → Option (JudgeItem F) → Type 0
IsSent none = ⊥
IsSent (some v) = 0 < length v.judge_type

module _ {F : Type 0} ⦃fl : Float F⦄ (md5 : Str → Str) (min_interval now : ℤ) where
  -- The list that takes the place of an entry's, or that starts one.
  put-IsShard :
      (n : ℕ) (p key : Str) (items : List (JudgeItem F)) (m : JudgeItemMap F)
      → IsShard md5 min_interval now n (p, m)
      → IsEntry md5 min_interval now n p (key, items)
      → IsShard md5 min_interval now n (p, insert key items m)
  put-IsShard n p key items m h s = record {
    distinct = insert-IsMap key items m h.distinct;
    entries = All-insert (IsEntry md5 min_interval now n p) key items m h.entries s;
  }

  kept-IsEntry :
      (n : ℕ) (p key : Str) (item : JudgeItem F) (items : List (JudgeItem F))
      → primary_key md5 min_interval now item ≡ key
      → 0 < length item.judge_type
      → IsEntry md5 min_interval now n p (key, items)
      → IsEntry md5 min_interval now n p
          (key, if is_stale item items then items else take n (item ∷ items))
  kept-IsEntry n p key item items k t s = record {
    in_shard = s.in_shard;
    window = kept-IsWindow item n items s.window;
    own = elim (Bool-cases (is_stale item items)) [
      | inl stale ↦ rw stale s.own
      | inr fresh ↦ rw fresh (All-take _ n (item ∷ items) ((k, t), s.own))
    ];
  }

  first-IsEntry :
      (n : ℕ) (p key : Str) (item : JudgeItem F)
      → 0 < n
      → primary_key md5 min_interval now item ≡ key
      → 0 < length item.judge_type
      → slice key (pos 0) (pos 2) ≡ some p
      → IsEntry md5 min_interval now n p (key, item ∷ [])
  first-IsEntry n p key item a k t s = record {
    in_shard = s;
    window = record { bounded = omega arith; falling = tt };
    own = ((k, t), tt);
  }

  kept-IsTyped :
      (n : ℕ) (item : JudgeItem F) (items : List (JudgeItem F))
      → 0 < n
      → 0 < length item.judge_type
      → IsTyped (take n (item ∷ items))
  kept-IsTyped zero item items a t = absurd (omega arith)
  kept-IsTyped (suc n) item items a t = t

  module _ (rules : Rules F) (safe : RulesAreSafe rules) (n : ℕ) (positive : 0 < n)
      (small : n < 2 ^ 63 - 1) where
    abbrev ShardReturns : Str → Option (JudgeItemMap F × Alarms F) → Type 0
    ShardReturns p o =
        (r : JudgeItemMap F × Alarms F) × (o ≡ some r)
        × IsShard md5 min_interval now n (p, r.0)
        × IsSound r.1

    push_and_judge-Returns :
        (p key : Str) (item : JudgeItem F) (m : JudgeItemMap F) (st : Alarms F)
        → primary_key md5 min_interval now item ≡ key
        → 0 < length item.judge_type
        → slice key (pos 0) (pos 2) ≡ some p
        → IsShard md5 min_interval now n (p, m)
        → IsSound st
        → ShardReturns p (push_and_judge md5 min_interval now rules key item (pos n) m st)
    unfolding push_and_judge
    push_and_judge-Returns p key item m st k t s h sound = elim (Option-cases (lookup key m)) [
      | inl missing ↦
          let (st', e, sound') =
            judge-Returns md5 min_interval now (item ∷ []) t (omega arith) rules item st safe
              sound in
          rw (missing, push_and_judge, e)
            (
              _,
              refl,
              put-IsShard n p key (item ∷ []) m h (first-IsEntry n p key item positive k t s),
              sound',
            )
      | inr (items, found) ↦
          let old = All-lookup (IsEntry md5 min_interval now n p) key items m h.entries found in
          let put = put-IsShard n p key _ m h (kept-IsEntry n p key item items k t old) in
          rw
            (
              found,
              push_and_judge,
              push_lem item n items (omega arith) (omega (arith, old.window.bounded)),
            )
            (elim (Bool-cases (is_stale item items)) [
              | inl stale ↦ rw stale (_, refl, rw stale at put, sound)
              | inr fresh ↦
                  let (st', e, sound') =
                    judge-Returns md5 min_interval now (take n (item ∷ items))
                      (kept-IsTyped n item items positive t)
                      (omega (arith, length-take n (item ∷ items))) rules item st safe sound in
                  rw (fresh, e) (_, refl, rw fresh at put, sound')
            ])
    ]

    module _ (hex : HashesToHex md5) where
      abbrev pub SendReturns : Option (HistoryBigMap F × Alarms F) → Type 0
      SendReturns o =
          (r : HistoryBigMap F × Alarms F) × (o ≡ some r)
          × IsHistory md5 min_interval now n r.0
          × IsSound r.1

      send_item-Returns :
          (item : JudgeItem F) (big : HistoryBigMap F) (st : Alarms F)
          → 0 < length item.judge_type
          → IsHistory md5 min_interval now n big
          → IsSound st
          → SendReturns (send_item md5 min_interval now rules item (pos n) big st)
      unfolding send_item primary_key
      send_item-Returns item big st t h sound =
          elim (Bool-cases (filter_exists rules item.metric)) [
            | inl wanted ↦
                let (p, s, inside) = hex (pk item.endpoint item.metric item.tags) in
                let (m, e) = exists-All (Has big) p prefixes h.complete inside in
                let shard = All-lookup (IsShard md5 min_interval now n) p m big h.shards e in
                let (r, f, shard', sound') =
                  push_and_judge-Returns p (primary_key md5 min_interval now item) item m st refl t
                    s shard sound in
                rw (wanted, s, e, f)
                  (_, refl, put-IsHistory md5 min_interval now n p r.0 big h shard', sound')
            | inr other ↦ rw other (_, refl, h, sound)
          ]

      -- For a hash that starts with two hexadecimal digits, rules whose functions are read without a
      -- panic and whose limits fit, room for `n` items, at least one, and items with a type, `Send`
      -- does not panic from a history and sound last events. It leaves sound last events and a
      -- history: every prefix has its map, and each entry of it has a key that starts with the
      -- prefix and holds at most `n` items of that counter, each newer than the one behind it.
      pub send-IsHistory :
          (items : List (Option (JudgeItem F))) (big : HistoryBigMap F) (st : Alarms F)
          → All IsSent items
          → IsHistory md5 min_interval now n big
          → IsSound st
          → SendReturns (send md5 min_interval now rules items (pos n) big st)
      unfolding send
      send-IsHistory [] big st t h sound = (_, refl, h, sound)
      send-IsHistory (none ∷ items) big st t h sound = absurd t.0
      send-IsHistory (some item ∷ items) big st t h sound =
          let (r, e, h', sound') = send_item-Returns item big st t.0 h sound in
          rw e (send-IsHistory items r.0 r.1 t.1 h' sound')
