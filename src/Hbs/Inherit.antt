-- ===== src/Hbs/Inherit.antt =====
-- What the judges are told of the rules of a host.
use open_falcon.Prelude.{
  Option, ◌<◌, ◌≡◌, refl, sym, ap, subst, ◌∙◌, false, List, [], ◌∷◌, ◌++◌, some, arith, length, All,
  inl, inr, Bool-cases, Option-cases, bind_some, map, nat_eq, ◌==◌, eq_str, ◌||◌,
}
use open_falcon.Prelude.Int.{ℤ, eq_ℤ}
use open_falcon.Prelude.Text.{Str}
use open_falcon.Prelude.Maps.{Map, lookup}
use open_falcon.Model.{Template, Strategy, HostStrategy}
use open_falcon.Hbs.{
  slice_int_contains, buckets_of, uniq_from, tpl2_strategies, bucket_loop, with_last, collect,
  collect_all, bucket_strategies, calc_inherit_strategies, host_loop, get_strategies,
}
use open_falcon.Hbs.Known.{
  IsKnown, All-append_one, HasTemplate, AllValues, buckets_of-IsKnown, uniq_from-IsKnown,
  bucket_loop-AllValues, tpl2_strategies-AllValues,
}
use mathlib.Core.List.{reverse, reverse-cons}

-- No two strategies of the list have one id.
abbrev pub IsDistinct : List ℤ → Type 0
IsDistinct [] = Unit {0}
IsDistinct (id ∷ ids) = (slice_int_contains ids id ≡ false) × IsDistinct ids

module _ {F : Type 0} where
  abbrev ids_of : List (Strategy F) → List ℤ
  ids_of ss = map (λ (s : Strategy F). s.id) ss

  -- What has been collected: the ids are those of the strategies, the last one in front.
  record IsCollected (st : List (Strategy F) × List ℤ) : Type 0 where
    listed : st.1 ≡ reverse (ids_of st.0)
    distinct : IsDistinct st.1
    templates : All HasTemplate st.0

  reverse-append_one :
      (xs : List (Strategy F)) (x : Strategy F)
      → reverse (ids_of (xs ++ x ∷ [])) ≡ x.id ∷ reverse (ids_of xs)
  reverse-append_one [] x = refl
  reverse-append_one (y ∷ xs) x =
      reverse-cons y.id (ids_of (xs ++ x ∷ []))
      ∙ ap (λ l. l ++ y.id ∷ []) (reverse-append_one xs x)
      ∙ ap (λ l. x.id ∷ l) (sym (reverse-cons y.id (ids_of xs)))

  module _ (all_tpls : Map ℤ Template) where
    with_last-HasTemplate :
        (last : ℤ) (t : Template) (s : Strategy F)
        → lookup last all_tpls ≡ some t
        → HasTemplate s
        → (s' : Strategy F) × (with_last all_tpls last s ≡ some s')
          × (s'.id ≡ s.id)
          × HasTemplate s'
    unfolding with_last
    with_last-HasTemplate last t s known (tpl, e) = elim (Bool-cases (tpl.id == last)) [
      | inl own ↦ (s, bind_some _ e (rw own refl), refl, (tpl, e))
      | inr other ↦
          (record s { tpl = lookup last all_tpls }, bind_some _ e (rw other refl), refl, (t, known))
    ]

    collect-IsCollected :
        (last : ℤ) (t : Template) (ss : List (Strategy F)) (st : List (Strategy F) × List ℤ)
        → lookup last all_tpls ≡ some t
        → All HasTemplate ss
        → IsCollected st
        → (st' : List (Strategy F) × List ℤ) × (collect all_tpls last ss st ≡ some st')
          × IsCollected st'
    unfolding collect
    collect-IsCollected last t [] st known a h = (st, refl, h)
    collect-IsCollected last t (s ∷ ss) (out, ids) known a h =
        elim (Bool-cases (slice_int_contains ids s.id)) [
          | inl there ↦
              let (st', e, h') = collect-IsCollected last t ss (out, ids) known a.1 h in
              (st', rw there e, h')
          | inr new ↦
              let (s', e, same, templated) = with_last-HasTemplate last t s known a.0 in
              let (st', e', h') =
                collect-IsCollected last t ss (out ++ s' ∷ [], s.id ∷ ids) known a.1
                  (record {
                    listed =
                        ap (λ i. i ∷ ids) (sym same)
                        ∙ ap (λ l. s'.id ∷ l) h.listed
                        ∙ sym (reverse-append_one out s');
                    distinct = (new, h.distinct);
                    templates = All-append_one HasTemplate out s' h.templates templated;
                  }) in
              (st', rw new (bind_some _ e e'), h')
        ]

    collect_all-IsCollected :
        (last : ℤ) (t : Template) (m : Map Str (List (Strategy F)))
        (st : List (Strategy F) × List ℤ)
        → lookup last all_tpls ≡ some t
        → All (λ kv. All HasTemplate kv.1) m
        → IsCollected st
        → (st' : List (Strategy F) × List ℤ) × (collect_all all_tpls last m st ≡ some st')
          × IsCollected st'
    unfolding collect_all
    collect_all-IsCollected last t [] st known a h = (st, refl, h)
    collect_all-IsCollected last t ((uuid, ss) ∷ m) st known a h =
        let (st1, e1, h1) = collect-IsCollected last t ss st known a.0 h in
        let (st2, e2, h2) = collect_all-IsCollected last t m st1 known a.1 h1 in
        (st2, bind_some _ e1 e2, h2)

    bucket_strategies-IsCollected :
        (tpl2 : Map ℤ (List (Strategy F))) (buckets : List (List ℤ))
        (st : List (Strategy F) × List ℤ)
        → AllValues HasTemplate tpl2
        → All (IsKnown all_tpls) buckets
        → IsCollected st
        → (st' : List (Strategy F) × List ℤ) × (bucket_strategies all_tpls tpl2 buckets st
            ≡ some st')
          × IsCollected st'
    unfolding bucket_strategies
    bucket_strategies-IsCollected tpl2 [] st v k h = (st, refl, h)
    bucket_strategies-IsCollected tpl2 (b ∷ bs) st v ((last, t, at_end, known), k) h =
        let (st1, e1, h1) =
          collect_all-IsCollected last t (bucket_loop tpl2 b []) st known
            (bucket_loop-AllValues HasTemplate tpl2 b [] v tt) h in
        let (st2, e2, h2) = bucket_strategies-IsCollected tpl2 bs st1 v k h1 in
        (st2, bind_some _ at_end (bind_some _ e1 e2), h2)

    -- What is told of a host: no strategy twice, and none without a template.
    pub record IsTold (ss : List (Strategy F)) : Type 0 where
      pub distinct : IsDistinct (reverse (ids_of ss))
      pub templates : All HasTemplate ss

    calc_inherit_strategies-IsTold :
        (tids : List ℤ) (tpl2 : Map ℤ (List (Strategy F)))
        → AllValues HasTemplate tpl2
        → (ss : List (Strategy F)) × (calc_inherit_strategies all_tpls tids tpl2 ≡ some ss)
          × IsTold ss
    unfolding calc_inherit_strategies
    calc_inherit_strategies-IsTold tids tpl2 v =
        let all = buckets_of all_tpls tids in
        let (st, e, h) =
          bucket_strategies-IsCollected tpl2 (uniq_from 0 all all) ([], []) v
            (uniq_from-IsKnown all_tpls 0 all all (buckets_of-IsKnown all_tpls tids))
            (record { listed = refl; distinct = tt; templates = tt }) in
        (
          st.0,
          bind_some _ e refl,
          record { distinct = subst IsDistinct h.listed h.distinct; templates = h.templates },
        )

    host_loop-IsTold :
        (hosts : Map ℤ Str) (tpl2 : Map ℤ (List (Strategy F))) (hid_tids : Map ℤ (List ℤ))
        → AllValues HasTemplate tpl2
        → (hs : List (HostStrategy F)) × (host_loop all_tpls hosts tpl2 hid_tids ≡ some hs)
          × All (λ h. IsTold h.strategies × (0 < length h.strategies)) hs
    unfolding host_loop
    host_loop-IsTold hosts tpl2 [] v = ([], refl, tt)
    host_loop-IsTold hosts tpl2 ((id, tids) ∷ rest) v =
        let (hs, e, a) = host_loop-IsTold hosts tpl2 rest v in
        let (ss, e', told) = calc_inherit_strategies-IsTold tids tpl2 v in
        elim (Option-cases (lookup id hosts)) [
          | inl gone ↦ (hs, rw (gone, host_loop) e, a)
          | inr (name, there) ↦ elim (Bool-cases (nat_eq (length ss) 0)) [
            | inl empty ↦
                (hs, rw (there, host_loop) (bind_some _ e' (bind_some _ e (rw empty refl))), a)
            | inr some_there ↦ (
              record { hostname = name; strategies = ss } ∷ hs,
              rw (there, host_loop) (bind_some _ e' (bind_some _ e (rw some_there refl))),
              ((told, ground (arith, some_there)), a),
            )
          ]
        ]

    -- GetStrategies does not panic, whatever templates, strategies and hosts there are, with cycles among
    -- the templates, nil strategies and strategies without a template. Each host that it names has a strategy; none of its
    -- strategies stands twice, by its id, and each has a template.
    pub get_strategies-IsTold :
        (hid_tids : Map ℤ (List ℤ)) (hosts : Map ℤ Str) (strategies : Map ℤ (Option (Strategy F)))
        → (hs : List (HostStrategy F)) × (get_strategies hid_tids hosts all_tpls strategies
            ≡ some hs)
          × All (λ h. IsTold h.strategies × (0 < length h.strategies)) hs
    unfolding get_strategies
    get_strategies-IsTold hid_tids hosts strategies =
        let (hs, e, a) =
          host_loop-IsTold hosts (tpl2_strategies strategies) hid_tids
            (tpl2_strategies-AllValues strategies) in
        elim (Bool-cases (
          nat_eq (length hid_tids) 0
          || nat_eq (length hosts) 0
          || nat_eq (length all_tpls) 0
          || nat_eq (length strategies) 0)) [
            | inl nothing ↦ ([], rw nothing refl, tt)
            | inr something ↦ (hs, rw something e, a)
          ]
