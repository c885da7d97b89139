-- ===== src/Hbs/Ancestors.antt =====
-- The line of a template's ancestors.
use open_falcon.Prelude.{
  ℕ, zero, suc, false, ◌≤◌, ◌<◌, ◌≡◌, refl, sym, ap, subst, ◌∙◌, List, [], ◌∷◌, ◌++◌, none, some,
  arith, length, append_assoc, append-nil, inl, inr, Bool-cases, Option-cases, ◌⊎◌,
}
use open_falcon.Prelude.Int.{ℤ, pos, leb_ℤ, eq_ℤ, ◌≤ℤ◌, ◌<ℤ◌}
use open_falcon.Prelude.Maps.{Map, lookup}
use open_falcon.Model.{Template}
use open_falcon.Hbs.{oldest_first, parent_loop, parent_ids}
use mathlib.Core.List.{reverse}

module _ (all_tpls : Map ℤ Template) where
  -- The templates from `tid` up: each is known, and the next one is its parent; the last has no parent
  -- that is known.
  unfoldable pub Ascent : ℤ → List ℤ → Type 0
  Ascent tid [] = (tid ≤ℤ pos 0) ⊎ (lookup tid all_tpls ≡ none)
  Ascent tid (x ∷ xs) =
      (x ≡ tid)
      × (pos 0 <ℤ tid)
      × ((t : Template) × (lookup tid all_tpls ≡ some t) × Ascent t.parent_id xs)

  -- With an ancestor more, every line is longer.
  longer :
      (k : ℕ) (tid : ℤ) (t : Template)
      → leb_ℤ tid (pos 0) ≡ false
      → lookup tid all_tpls ≡ some t
      → ((xs : List ℤ) → Ascent t.parent_id xs → k ≤ length xs)
      → (xs : List ℤ) → Ascent tid xs
      → suc k ≤ length xs
  unfolding Ascent
  longer k tid t inside known f [] (inl root) = absurd (ground (arith, inside, root))
  longer k tid t inside known f [] (inr unknown) = cc (sym known ∙ unknown)
  longer k tid t inside known f (x ∷ xs) (_, _, (t', known', a)) =
      let same : t' ≡ t = cc (sym known' ∙ known) in
      omega (arith, f xs (subst (λ u. Ascent u.parent_id xs) same a))

  parent_loop-Ascent :
      (k : ℕ) (tid : ℤ) (ret : List ℤ)
      → ((xs : List ℤ) × Ascent tid xs
          × (length xs < k)
          × (parent_loop all_tpls k tid ret ≡ some (ret ++ xs)))
        ⊎ ((parent_loop all_tpls k tid ret ≡ none)
            × ((xs : List ℤ) → Ascent tid xs → k ≤ length xs))
  unfolding Ascent parent_loop
  parent_loop-Ascent zero tid ret = inr (refl, λ xs a. omega arith)
  parent_loop-Ascent (suc k) tid ret = elim (Bool-cases (leb_ℤ tid (pos 0))) [
    | inl root ↦ inl ([], inl (ground (arith, root)), omega arith, rw (root, append-nil ret) refl)
    | inr inside ↦ elim (Option-cases (lookup tid all_tpls)) [
      | inl unknown ↦
          inl ([], inr unknown, omega arith, rw (inside, unknown, parent_loop, append-nil ret) refl)
      | inr (t, known) ↦ elim (parent_loop-Ascent k t.parent_id (ret ++ tid ∷ [])) [
        | inl (xs, a, l, e) ↦ inl (
          tid ∷ xs,
          (refl, ground (arith, inside), (t, known, a)),
          omega (arith, l),
          rw (inside, known, parent_loop) (e ∙ ap some (append_assoc ret (tid ∷ []) xs)),
        )
        | inr (e, f) ↦ inr (rw (inside, known, parent_loop) e, longer k tid t inside known f)
      ]
    ]
  ]

  -- ParentIds ends whatever the templates are. It lists the template and its ancestors, the oldest first,
  -- where there are at most nine of them in all; where every line from the template up is longer, as in
  -- a cycle, it lists none.
  pub parent_ids-Ascent :
      (tid : ℤ)
      → ((xs : List ℤ) × Ascent tid xs × (length xs < 10) × (parent_ids all_tpls tid ≡ reverse xs))
        ⊎ ((parent_ids all_tpls tid ≡ []) × ((xs : List ℤ) → Ascent tid xs → 10 ≤ length xs))
  unfolding parent_ids
  parent_ids-Ascent tid = elim (parent_loop-Ascent 10 tid []) [
    | inl (xs, a, l, e) ↦ inl (xs, a, l, ap oldest_first e)
    | inr (e, f) ↦ inr (ap oldest_first e, f)
  ]
