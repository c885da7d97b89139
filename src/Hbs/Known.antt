-- ===== src/Hbs/Known.antt =====
-- The templates and the strategies that come together for a host are known.
use open_falcon.Prelude.{
  ℕ, suc, ◌-◌, ◌≤◌, ◌<◌, ◌≡◌, refl, sym, ap, subst, ◌∙◌, false, List, [], ◌∷◌, ◌++◌, Option, none,
  some, arith, length, All, inl, inr, Bool-cases, Option-cases, map, nat_eq, get_elem?-append_end,
  length-append, Eq, eq_str, ◌⊎◌,
}
use open_falcon.Prelude.Int.{ℤ, eq_ℤ}
use open_falcon.Prelude.Text.{Str}
use open_falcon.Prelude.Maps.{Map, lookup, insert, All-insert, All-lookup}
use open_falcon.Prelude.Groups.{append_at, group_by}
use open_falcon.Model.{Template, Strategy}
use open_falcon.Hbs.{
  parent_ids, buckets_of, is_valid_bucket, uniq_from, last_tid, add_to_tpl, tpl2_loop,
  tpl2_strategies, strategy_uuid, override, stras_of, bucket_loop,
}
use open_falcon.Hbs.Ancestors.{Ascent, parent_ids-Ascent}
use mathlib.Core.List.{reverse, reverse-cons}

-- A line whose youngest template is known.
abbrev pub IsKnown : Map ℤ Template → List ℤ → Type 0
IsKnown all_tpls bucket =
    (last : ℤ) × (t : Template) × (last_tid bucket ≡ some last) × (lookup last all_tpls ≡ some t)

last-append : (xs : List ℤ) (x : ℤ) → last_tid (xs ++ x ∷ []) ≡ some x
last-append xs x =
    get_elem?-append_end xs x (length (xs ++ x ∷ []) - 1) (omega (arith, length-append xs (x ∷ [])))

module _ (all_tpls : Map ℤ Template) where
  Ascent-IsKnown :
      (tid x : ℤ) (xs : List ℤ) → Ascent all_tpls tid (x ∷ xs) → IsKnown all_tpls (reverse (x ∷ xs))
  unfolding Ascent
  Ascent-IsKnown tid x xs (e, _, (t, known, _)) = (
    x,
    t,
    ap last_tid (reverse-cons x xs) ∙ last-append (reverse xs) x,
    subst (λ y. lookup y all_tpls ≡ some t) (sym e) known,
  )

  line_of :
      (tid : ℤ)
      → nat_eq (length (parent_ids all_tpls tid)) 0 ≡ false
      → IsKnown all_tpls (parent_ids all_tpls tid)
  line_of tid there = by_line (parent_ids-Ascent all_tpls tid)
    where
      by_line :
          ((xs : List ℤ) × Ascent all_tpls tid xs
              × (length xs < 10)
              × (parent_ids all_tpls tid ≡ reverse xs))
            ⊎ ((parent_ids all_tpls tid ≡ [])
                × ((xs : List ℤ) → Ascent all_tpls tid xs → 10 ≤ length xs))
          → IsKnown all_tpls (parent_ids all_tpls tid)
      by_line (inl ([], a, l, e)) =
          let none_there : nat_eq 0 0 ≡ false = rw e at there in absurd (ground (arith, none_there))
      by_line (inl (x ∷ xs, a, l, e)) = subst (IsKnown all_tpls) (sym e) (Ascent-IsKnown tid x xs a)
      by_line (inr (e, f)) =
          let none_there : nat_eq 0 0 ≡ false = rw e at there in absurd (ground (arith, none_there))

  pub buckets_of-IsKnown : (tids : List ℤ) → All (IsKnown all_tpls) (buckets_of all_tpls tids)
  unfolding buckets_of
  buckets_of-IsKnown [] = tt
  buckets_of-IsKnown (tid ∷ tids) =
      elim (Bool-cases (nat_eq (length (parent_ids all_tpls tid)) 0)) [
        | inl none_there ↦ rw none_there (buckets_of-IsKnown tids)
        | inr there ↦ rw there (line_of tid there, buckets_of-IsKnown tids)
      ]

  pub uniq_from-IsKnown :
      (i : ℕ) (all buckets : List (List ℤ))
      → All (IsKnown all_tpls) buckets
      → All (IsKnown all_tpls) (uniq_from i all buckets)
  unfolding uniq_from
  uniq_from-IsKnown i all [] a = tt
  uniq_from-IsKnown i all (b ∷ bs) a = elim (Bool-cases (is_valid_bucket i 0 b all)) [
    | inl valid ↦ rw valid (a.0, uniq_from-IsKnown (suc i) all bs a.1)
    | inr covered ↦ rw covered (uniq_from-IsKnown (suc i) all bs a.1)
  ]

-- All lists of a map have only such elements.
abbrev pub AllValues {ℓ κ μ} : {K : Type ℓ} {A : Type κ} → (A → Type μ) → Map K (List A) → Type μ
AllValues P m = All (λ kv. All P kv.1) m

pub All-append_one {κ μ} :
    {A : Type κ} (P : A → Type μ) (xs : List A) (x : A) → All P xs → P x → All P (xs ++ x ∷ [])
All-append_one P [] x a h = (h, tt)
All-append_one P (y ∷ xs) x a h = (a.0, All-append_one P xs x a.1 h)

module _ {ℓ κ μ} {K : Type ℓ} {A : Type κ} ⦃e : Eq K⦄ (P : A → Type μ) where
  append_at-AllValues :
      (key : K) (x : A) (m : Map K (List A)) → P x → AllValues P m → AllValues P (append_at key x m)
  unfolding append_at
  append_at-AllValues key x m h a = elim (Option-cases (lookup key m)) [
    | inl new ↦ rw (new, append_at) (All-insert (λ kv. All P kv.1) key (x ∷ []) m a (h, tt))
    | inr (xs, old) ↦
        rw (old, append_at)
          (All-insert (λ kv. All P kv.1) key (xs ++ x ∷ []) m a
            (All-append_one P xs x (All-lookup (λ kv. All P kv.1) key xs m a old) h))
  ]

  pub group_by-AllValues :
      (key : A → K) (xs : List A) (m : Map K (List A))
      → All P xs
      → AllValues P m
      → AllValues P (group_by key xs m)
  unfolding group_by
  group_by-AllValues key [] m h a = a
  group_by-AllValues key (x ∷ xs) m h a =
      group_by-AllValues key xs (append_at (key x) x m) h.1 (append_at-AllValues (key x) x m h.0 a)

module _ {F : Type 0} (P : Strategy F → Type 0) where
  override-AllValues :
      (m all : Map Str (List (Strategy F)))
      → AllValues P m
      → AllValues P all
      → AllValues P (override m all)
  override-AllValues [] all h a = a
  override-AllValues ((uuid, ss) ∷ m) all h a =
      override-AllValues m (insert uuid ss all) h.1
        (All-insert (λ kv. All P kv.1) uuid ss all a h.0)

  pub bucket_loop-AllValues :
      (tpl2 : Map ℤ (List (Strategy F))) (bucket : List ℤ) (all : Map Str (List (Strategy F)))
      → AllValues P tpl2
      → AllValues P all
      → AllValues P (bucket_loop tpl2 bucket all)
  unfolding bucket_loop
  bucket_loop-AllValues tpl2 [] all h a = a
  bucket_loop-AllValues tpl2 (tid ∷ bucket) all h a =
      bucket_loop-AllValues tpl2 bucket _ h
        (override-AllValues _ all (group_by-AllValues P strategy_uuid _ [] (stras tid) tt) a)
    where
      stras : (tid : ℤ) → All P (stras_of (lookup tid tpl2))
      stras tid = elim (Option-cases (lookup tid tpl2)) [
        | inl unknown ↦ rw unknown tt
        | inr (ss, known) ↦ rw known (All-lookup (λ kv. All P kv.1) tid ss tpl2 h known)
      ]

-- A strategy whose template is not nil.
abbrev pub HasTemplate : {F : Type 0} → Strategy F → Type 0
HasTemplate s = (t : Template) × (s.tpl ≡ some t)

module _ {F : Type 0} where
  add_to_tpl-AllValues :
      (s : Strategy F) (o : Option Template) (ret : Map ℤ (List (Strategy F)))
      → s.tpl ≡ o
      → AllValues HasTemplate ret
      → AllValues HasTemplate (add_to_tpl s o ret)
  add_to_tpl-AllValues s none ret e a = a
  add_to_tpl-AllValues s (some t) ret e a = append_at-AllValues HasTemplate t.id s ret (t, e) a

  tpl2_loop-AllValues :
      (ss : List (Option (Strategy F))) (ret : Map ℤ (List (Strategy F)))
      → AllValues HasTemplate ret
      → AllValues HasTemplate (tpl2_loop ss ret)
  unfolding tpl2_loop
  tpl2_loop-AllValues [] ret a = a
  tpl2_loop-AllValues (none ∷ ss) ret a = tpl2_loop-AllValues ss ret a
  tpl2_loop-AllValues (some s ∷ ss) ret a =
      tpl2_loop-AllValues ss (add_to_tpl s s.tpl ret) (add_to_tpl-AllValues s s.tpl ret refl a)

  pub tpl2_strategies-AllValues :
      (m : Map ℤ (Option (Strategy F))) → AllValues HasTemplate (tpl2_strategies m)
  unfolding tpl2_strategies
  tpl2_strategies-AllValues m =
      tpl2_loop-AllValues (map (λ (kv : ℤ × Option (Strategy F)). kv.1) m) [] tt
