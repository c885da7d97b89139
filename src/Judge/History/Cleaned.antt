-- ===== src/Judge/History/Cleaned.antt =====
-- What `cleanStale` leaves of all the maps.
use open_falcon.Prelude.{
  ℕ, ◌≡◌, refl, sym, ap, ◌∙◌, Bool, true, false, List, [], ◌∷◌, Option, none, some, ◌>>=◌, ◌==◌,
  if◌then◌else◌, eq_str, Bool-cases, inl, inr, All, exists, list_eq_iff,
}
use open_falcon.Prelude.Int.{ℤ, pos, sub64}
use open_falcon.Prelude.Text.{Str}
use open_falcon.Prelude.Maps.{lookup, insert, IsMap, lookup-insert, All-lookup}
use open_falcon.Float.{Float}
use open_falcon.Model.{JudgeItem}
use open_falcon.Judge.History.{
  JudgeItemMap, HistoryBigMap, prefixes, cleaner_prefixes, is_old, clean_stale, clean_loop,
  clean_all,
}
use open_falcon.Judge.History.Clean.{lookup-clean_stale}
use open_falcon.Judge.History.Shards.{
  Has, IsShard, IsHistory, All-map, insert-Has, clean_stale-IsShard, put-IsHistory,
}

module _ {F : Type 0} where
  -- What cleaning makes of the entry of a counter.
  abbrev pub kept : ℤ → Option (List (JudgeItem F)) → Option (List (JudgeItem F))
  kept before o = o >>= λ items. if is_old before items then none else some items

  kept-kept :
      (before : ℤ) (o : Option (List (JudgeItem F))) → kept before (kept before o) ≡ kept before o
  kept-kept before none = refl
  kept-kept before (some items) = elim (Bool-cases (is_old before items)) [
    | inl old ↦ rw old refl
    | inr young ↦ rw (young, young) refl
  ]

  -- The maps after the shards of some prefixes are cleaned: each has its entries, but for the stale ones
  -- where its prefix is among these.
  abbrev pub Cleaned : List Str → ℤ → HistoryBigMap F → HistoryBigMap F → Type 0
  Cleaned ps before big big' =
      (p : Str) (m : JudgeItemMap F)
      → lookup p big ≡ some m
      → (m' : JudgeItemMap F) × (lookup p big' ≡ some m')
        × ((key : Str)
            → lookup key m'
              ≡ (if exists (λ q. q == p) ps then kept before (lookup key m) else lookup key m))

  clean_one-Cleaned :
      (p : Str) (ps : List Str) (before : ℤ) (m : JudgeItemMap F) (big big' : HistoryBigMap F)
      → lookup p big ≡ some m
      → IsMap m
      → Cleaned ps before (insert p (clean_stale before m) big) big'
      → Cleaned (p ∷ ps) before big big'
  clean_one-Cleaned p ps before m big big' e distinct rest q m₂ f = elim (Bool-cases (p == q)) [
    | inl same ↦
        let at_q : some m ≡ some m₂ =
          sym e ∙ ap (λ k. lookup k big) ((list_eq_iff p q).0 same) ∙ f in
        let m_eq : m ≡ m₂ = cc at_q in
        let (m', g, keys) =
          rest q (clean_stale before m)
            (lookup-insert p q (clean_stale before m) big ∙ rw same refl) in
        (
          m',
          g,
          λ key.
              keys key
              ∙ ap (λ o. if exists (λ r. r == q) ps then kept before o else o)
                  (lookup-clean_stale key before m distinct)
              ∙ twice (exists (λ r. r == q) ps) (lookup key m)
              ∙ ap (λ x. kept before (lookup key x)) m_eq
              ∙ rw same refl,
        )
    | inr other ↦
        let (m', g, keys) = rest q m₂ (lookup-insert p q (clean_stale before m) big ∙ rw other f) in
        (m', g, λ key. keys key ∙ rw other refl)
  ]
    where
      twice :
          (b : Bool) (o : Option (List (JudgeItem F)))
          → (if b then kept before (kept before o) else kept before o) ≡ kept before o
      twice true o = kept-kept before o
      twice false o = refl

module _ {F : Type 0} ⦃fl : Float F⦄ (md5 : Str → Str) (min_interval now : ℤ) where
  clean_loop-Cleaned :
      (n : ℕ) (ps : List Str) (before : ℤ) (big : HistoryBigMap F)
      → All (Has big) ps
      → IsHistory md5 min_interval now n big
      → (big' : HistoryBigMap F) × (clean_loop ps before big ≡ some big')
        × IsHistory md5 min_interval now n big'
        × Cleaned ps before big big'
  unfolding clean_loop
  clean_loop-Cleaned n [] before big a h = (big, refl, h, λ p m e. (m, e, λ key. refl))
  clean_loop-Cleaned n (p ∷ ps) before big a h =
      let (m, e) = a.0 in
      let old = All-lookup (IsShard md5 min_interval now n) p m big h.shards e in
      let shard = clean_stale-IsShard md5 min_interval now n before p m old in
      let (big', q, h', c) =
        clean_loop-Cleaned n ps before (insert p (clean_stale before m) big)
          (All-map (Has big) _ ps (λ q. insert-Has p q (clean_stale before m) big) a.1)
          (put-IsHistory md5 min_interval now n p (clean_stale before m) big h shard) in
      (big', rw e q, h', clean_one-Cleaned p ps before m big big' e old.distinct c)

  -- `cleanStale` does not panic on a history, and leaves a history. In the map of each of the 256 prefixes
  -- exactly those counters are gone whose newest item is more than a week older than now; the others
  -- keep their items, and so does a counter whose list is empty.
  pub clean_all-Cleaned :
      (n : ℕ) (big : HistoryBigMap F)
      → IsHistory md5 min_interval now n big
      → (big' : HistoryBigMap F) × (clean_all now big ≡ some big')
        × IsHistory md5 min_interval now n big'
        × Cleaned prefixes (sub64 now (pos 604_800)) big big'
  unfolding clean_all
  clean_all-Cleaned n big h = clean_loop-Cleaned n cleaner_prefixes _ big h.complete h
