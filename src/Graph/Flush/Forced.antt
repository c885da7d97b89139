-- ===== src/Graph/Flush/Forced.antt =====
-- A forced flush leaves nothing behind.
use open_falcon.Prelude.{
  ℕ, ◌≡◌, refl, sym, ap, subst, ◌∙◌, Bool, true, false, List, [], ◌∷◌, ◌++◌, Option, none, some,
  length, if◌then◌else◌, nat_eq, leb, ◌==◌, eq_str, bind_some, inl, inr, ◌⊎◌, Bool-cases,
  list_eq_iff, All, All-imp, exists, ◌||◌, append-nil, append_assoc, arith, ==_refl,
}
use open_falcon.Prelude.Text.{Str}
use open_falcon.Prelude.Int.{ℤ, pos, sub64}
use open_falcon.Graph.{GraphItem, SafeLinkedList}
use open_falcon.Graph.CacheKey.{split_rrd_cache_key, rrd_file_name}
use open_falcon.Graph.Store.{GraphItemMap, get, get_flag, item_cnt, back, keys_by_index}
use open_falcon.Graph.Store.Refine.{IsStore, get-returns}
use open_falcon.Graph.Flush.{
  is_pulled, should_flush, is_overdue, flush_max_wait, flush_rrd, flush_min_count, commit_by_key,
  flush_key, flush_loop,
}
use open_falcon.Graph.Flush.Committed.{points_of, emptied, commit_by_key-Committed}

-- A key that CommitByKey can read.
abbrev pub IsReadable : Str → Str → Type 0
IsReadable storage key =
    (md5 ds_type filename : Str) × (step : ℤ) × (split_rrd_cache_key key
      ≡ some (md5, ds_type, step))
    × (rrd_file_name storage md5 ds_type step ≡ some filename)

module _ {F : Type 0} where
  -- Points of which there are none, or which a file was written with.
  abbrev pub IsWritten : List (Str × List (GraphItem F)) → List (GraphItem F) → Type 0
  IsWritten log points =
      (points ≡ [])
      ⊎ ((file : Str) × (before after : List (Str × List (GraphItem F))) × (log
            ≡ before ++ (file, points) ∷ after))

  IsWritten-append :
      (log more : List (Str × List (GraphItem F))) (points : List (GraphItem F))
      → IsWritten log points
      → IsWritten (log ++ more) points
  IsWritten-append log more points (inl e) = inl e
  IsWritten-append log more points (inr (file, before, after, e)) = inr (
    file,
    before,
    after ++ more,
    ap (λ l. l ++ more) e ∙ append_assoc before ((file, points) ∷ after) more,
  )

  committed-IsWritten :
      (log : List (Str × List (GraphItem F))) (file : Str) (points : List (GraphItem F))
      → IsWritten (if nat_eq (length points) 0 then log else log ++ (file, points) ∷ []) points
  committed-IsWritten log file [] = inl refl
  committed-IsWritten log file (x ∷ points) =
      let there : nat_eq (length (x ∷ points)) 0 ≡ false = ground arith in
      inr (file, log, [], rw there refl)

  committed-more :
      (log : List (Str × List (GraphItem F))) (file : Str) (points : List (GraphItem F))
      → (more : List (Str × List (GraphItem F))) × ((if nat_eq (length points) 0
            then log
            else log ++ (file, points) ∷ [])
          ≡ log ++ more)
  committed-more log file [] = ([], sym (append-nil log))
  committed-more log file (x ∷ points) =
      let there : nat_eq (length (x ∷ points)) 0 ≡ false = ground arith in
      ((file, x ∷ points) ∷ [], rw there refl)

  emptied-emptied : (o : Option (SafeLinkedList F)) → emptied (emptied o) ≡ emptied o
  emptied-emptied none = refl
  emptied-emptied (some l) = refl

not_pulled : (migrate : Bool) (flag : Option ℕ) → is_pulled migrate true flag ≡ false
not_pulled migrate none = refl
not_pulled migrate (some flag) = refl

module _ {F : Type 0} (crc32 : Str → ℕ) where
  item_cnt-returns :
      (key : Str) (m : GraphItemMap F) → IsStore m → (n : ℕ) × (item_cnt crc32 key m ≡ some n)
  unfolding item_cnt
  item_cnt-returns key m h = let (o, e) = get-returns crc32 key m h in (_, bind_some _ e refl)

  back-returns :
      (key : Str) (m : GraphItemMap F)
      → IsStore m
      → (o : Option (GraphItem F)) × (back crc32 key m ≡ some o)
  unfolding back
  back-returns key m h = let (o, e) = get-returns crc32 key m h in (_, bind_some _ e refl)

  get_flag-returns :
      (key : Str) (m : GraphItemMap F)
      → IsStore m
      → (o : Option ℕ) × (get_flag crc32 key m ≡ some o)
  unfolding get_flag
  get_flag-returns key m h = let (o, e) = get-returns crc32 key m h in (_, bind_some _ e refl)

  should_flush-returns :
      (now : ℤ) (key : Str) (m : GraphItemMap F)
      → IsStore m
      → (b : Bool) × (should_flush crc32 now key m ≡ some b)
  unfolding should_flush
  should_flush-returns now key m h =
      let (n, e) = item_cnt-returns key m h in
      let (o, q) = back-returns key m h in
      elim (Bool-cases (leb flush_min_count n)) [
        | inl many ↦ (true, bind_some _ e (rw many refl))
        | inr few ↦ (
          is_overdue (sub64 now (pos flush_max_wait)) o,
          bind_some _ e (rw few (bind_some _ q refl)),
        )
      ]

  -- What a forced flush of the keys makes of a cache and a log.
  pub record Drained (keys : List Str) (m : GraphItemMap F) (log : List (Str × List (GraphItem F)))
      (m' : GraphItemMap F) (log' : List (Str × List (GraphItem F))) : Type 0 where
    pub sound : IsStore m'
    pub more : (new : List (Str × List (GraphItem F))) × (log' ≡ log ++ new)
    -- A key that is not flushed keeps its points.
    pub kept :
        (j : Str) (o : Option (SafeLinkedList F))
        → get crc32 j m ≡ some o
        → (get crc32 j m' ≡ some o)
          ⊎ ((exists (λ k. k == j) keys ≡ true) × (get crc32 j m' ≡ some (emptied o)))
    -- The flushed keys have no points any more, and what they had is written.
    pub drained :
        All
          (λ key.
            (o : Option (SafeLinkedList F))
            → get crc32 key m ≡ some o
            → (get crc32 key m' ≡ some (emptied o)) × IsWritten log' (points_of o))
          keys

  drained-or :
      (keys : List Str) (j : Str) (o : Option (SafeLinkedList F)) (m : GraphItemMap F)
      → (get crc32 j m ≡ some (emptied o))
        ⊎ ((exists (λ k. k == j) keys ≡ true) × (get crc32 j m ≡ some (emptied (emptied o))))
      → get crc32 j m ≡ some (emptied o)
  drained-or keys j o m (inl e) = e
  drained-or keys j o m (inr (_, e)) = e ∙ ap some (emptied-emptied o)

  kept-cons :
      (key : Str) (keys : List Str) (j : Str) (o : Option (SafeLinkedList F)) (m : GraphItemMap F)
      → (get crc32 j m ≡ some o)
        ⊎ ((exists (λ k. k == j) keys ≡ true) × (get crc32 j m ≡ some (emptied o)))
      → (get crc32 j m ≡ some o)
        ⊎ ((exists (λ k. k == j) (key ∷ keys) ≡ true) × (get crc32 j m ≡ some (emptied o)))
  kept-cons key keys j o m (inl e) = inl e
  kept-cons key keys j o m (inr (there, e)) = inr (ground (arith, there), e)

  -- The same after one more key is flushed before the others.
  cons-Drained :
      (key file : Str) (keys : List Str) (m m1 m2 : GraphItemMap F)
      (log log2 : List (Str × List (GraphItem F))) (o : Option (SafeLinkedList F))
      → get crc32 key m ≡ some o
      → ((j : Str) → get crc32 j m1 ≡ (if key == j then some (emptied o) else get crc32 j m))
      → Drained keys m1
          (if nat_eq (length (points_of o)) 0 then log else log ++ (file, points_of o) ∷ [])
          m2
          log2
      → Drained (key ∷ keys) m log m2 log2
  cons-Drained key file keys m m1 m2 log log2 o e f d =
      let (new, n) = d.more in
      let (first, c) = committed-more log file (points_of o) in
      let written : IsWritten log2 (points_of o) =
        subst (λ l. IsWritten l (points_of o)) (sym n)
          (IsWritten-append _ new (points_of o) (committed-IsWritten log file (points_of o))) in
      let gone : (j : Str) → (key == j) ≡ true → get crc32 j m2 ≡ some (emptied o) = λ j same.
        drained-or keys j o m2 (
          d.kept j (emptied o)
            (f j ∙ ap (λ b. if b then some (emptied o) else get crc32 j m) same)) in
      let held : (j : Str) (p : Option (SafeLinkedList F))
          → (key == j) ≡ true
          → get crc32 j m ≡ some p
          → o ≡ p =
        λ j p same q.
          same_list (sym e ∙ ap (λ k. get crc32 k m) ((list_eq_iff key j).0 same) ∙ q) in
      let other : (j : Str) (p : Option (SafeLinkedList F))
          → (key == j) ≡ false
          → get crc32 j m ≡ some p
          → get crc32 j m1 ≡ some p =
        λ j p no_key q. f j ∙ ap (λ b. if b then some (emptied o) else get crc32 j m) no_key ∙ q in
      record {
        sound = d.sound;
        more = (first ++ new, n ∙ ap (λ l. l ++ new) c ∙ append_assoc log first new);
        kept = λ j p q. elim (Bool-cases (key == j)) [
          | inl same ↦ inr (
            ap (λ b. b || exists (λ k. k == j) keys) same,
            gone j same ∙ ap (λ x. some (emptied x)) (held j p same q),
          )
          | inr no_key ↦ kept-cons key keys j p m2 (d.kept j p (other j p no_key q))
        ];
        drained = (
          λ p q. (
            gone key (==_refl key) ∙ ap (λ x. some (emptied x)) (held key p (==_refl key) q),
            subst (λ x. IsWritten log2 (points_of x)) (held key p (==_refl key) q) written,
          ),
          All-imp _ _ keys
              (λ j k p q. elim (Bool-cases (key == j)) [
                | inl same ↦ (
                  gone j same ∙ ap (λ x. some (emptied x)) (held j p same q),
                  subst (λ x. IsWritten log2 (points_of x)) (held j p same q) written,
                )
                | inr no_key ↦ k p (other j p no_key q)
              ])
              d.drained,
        );
      }
    where
      same_list : {a b : Option (SafeLinkedList F)} → some a ≡ some b → a ≡ b
      same_list q = cc q

  module _ (storage : Str) (migrate : Bool) (now : ℤ) where
    flush_key-forced :
        (key : Str) (m : GraphItemMap F) (log : List (Str × List (GraphItem F)))
        → IsStore m
        → flush_key crc32 storage migrate true now key (m, log)
          ≡ commit_by_key crc32 storage key (m, log)
    unfolding flush_key
    flush_key-forced key m log h =
        let (flag, e) = get_flag-returns key m h in
        let (b, q) = should_flush-returns now key m h in
        bind_some _ e (
          bind_some _ q (
            ap (λ x. if x then some (m, log) else commit_by_key crc32 storage key (m, log))
              (not_pulled migrate flag)))

    flush_loop-Drained :
        (keys : List Str) (m : GraphItemMap F) (log : List (Str × List (GraphItem F)))
        → IsStore m
        → All (IsReadable storage) keys
        → (m' : GraphItemMap F) × (log' : List (Str × List (GraphItem F))) × (flush_loop crc32
              storage migrate true now keys
              (m, log)
            ≡ some (m', log'))
          × Drained keys m log m' log'
    unfolding flush_loop
    flush_loop-Drained [] m log h a = (
      m,
      log,
      refl,
      record { sound = h; more = ([], sym (append-nil log)); kept = λ j o e. inl e; drained = tt },
    )
    flush_loop-Drained (key ∷ keys) m log h ((md5, ds_type, file, step, s, r), a) =
        let (o, e) = get-returns crc32 key m h in
        let (m1, q, h1, f) =
          commit_by_key-Committed crc32 storage key md5 ds_type file step m log o h s r e in
        let (m2, log2, q2, d) = flush_loop-Drained keys m1 _ h1 a in
        (
          m2,
          log2,
          bind_some _ (flush_key-forced key m log h ∙ q) q2,
          cons-Drained key file keys m m1 m2 log log2 o e f d,
        )

    -- A forced FlushRRD, where CommitByKey can read the keys of the index, does not panic and drains them:
    -- afterwards these keys have no points, and all that they had is written to a file, the oldest first.
    -- Every other key has the points that it had, and what was written before stays.
    pub flush_rrd-Drained :
        (idx : ℤ) (keys : List Str) (m : GraphItemMap F) (log : List (Str × List (GraphItem F)))
        → IsStore m
        → keys_by_index crc32 idx m ≡ some keys
        → All (IsReadable storage) keys
        → (m' : GraphItemMap F) × (log' : List (Str × List (GraphItem F))) × (flush_rrd crc32
              storage migrate true now idx
              (m, log)
            ≡ some (m', log'))
          × Drained keys m log m' log'
    unfolding flush_rrd
    flush_rrd-Drained idx keys m log h e a =
        let (m', log', q, d) = flush_loop-Drained keys m log h a in (m', log', bind_some _ e q, d)
