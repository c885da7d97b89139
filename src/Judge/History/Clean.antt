-- ===== src/Judge/History/Clean.antt =====
-- What `CleanStale` removes.
use open_falcon.Prelude.{
  ◌≡◌, refl, sym, subst, ap, ◌∙◌, false, List, [], ◌∷◌, none, some, arith, ◌>>=◌, ◌==◌,
  if◌then◌else◌, eq_str, Bool-cases, inl, inr, exists, All, list_eq_iff,
}
use open_falcon.Prelude.Int.{ℤ}
use open_falcon.Prelude.Text.{Str}
use open_falcon.Prelude.Maps.{lookup, delete, lookup-delete, IsMap, delete-IsMap, All-delete}
use open_falcon.Model.{JudgeItem}
use open_falcon.Judge.History.{JudgeItemMap, batch_delete, is_old, stale_keys, clean_stale}

module _ {F : Type 0} where
  lookup-batch_delete :
      (key : Str) (keys : List Str) (m : JudgeItemMap F)
      → lookup key (batch_delete keys m)
        ≡ (if exists (λ k. k == key) keys then none else lookup key m)
  unfolding batch_delete
  lookup-batch_delete key [] m = refl
  lookup-batch_delete key (k ∷ keys) m =
      rw (lookup-batch_delete key keys (delete k m)) (ground (arith, lookup-delete k key m))

  exists-stale_keys :
      (key : Str) (before : ℤ) (m : JudgeItemMap F)
      → IsMap m
      → exists (λ k. k == key) (stale_keys before m)
        ≡ elim (lookup key m) [ some items ↦ is_old before items | none ↦ false ]
  unfolding stale_keys
  exists-stale_keys key before [] h = refl
  exists-stale_keys key before ((k, items) ∷ m) h = elim (Bool-cases (k == key)) [
    | inl same ↦
        let e : lookup key m ≡ none =
          subst (λ j. lookup j m ≡ none) ((list_eq_iff k key).0 same) h.0 in
        let rest : exists (λ j. j == key) (stale_keys before m) ≡ false =
          exists-stale_keys key before m h.1
          ∙ ap (λ o. elim o [ some items' ↦ is_old before items' | none ↦ false ]) e in
        elim (Bool-cases (is_old before items)) [
          | inl old ↦ rw (old, same) (sym old)
          | inr young ↦ rw (young, same) (rest ∙ sym young)
        ]
    | inr other ↦ elim (Bool-cases (is_old before items)) [
      | inl old ↦ rw (old, other) (exists-stale_keys key before m h.1)
      | inr young ↦ rw (young, other) (exists-stale_keys key before m h.1)
    ]
  ]

  -- `CleanStale` removes exactly the counters whose newest item is older than `before`; the others
  -- keep their items, and so does a counter whose list is empty.
  pub lookup-clean_stale :
      (key : Str) (before : ℤ) (m : JudgeItemMap F)
      → IsMap m
      → lookup key (clean_stale before m)
        ≡ (lookup key m >>= λ items. if is_old before items then none else some items)
  unfolding clean_stale
  lookup-clean_stale key before m h =
      rw (lookup-batch_delete key (stale_keys before m) m, exists-stale_keys key before m h)
        (elim (lookup key m)
          as (λ o.
            (if elim o [ some items ↦ is_old before items | none ↦ false ] then none else o)
            ≡ (o >>= λ items. if is_old before items then none else some items)) [
              | none ↦ refl
              | some items ↦ refl
            ])

  pub batch_delete-IsMap :
      (keys : List Str) (m : JudgeItemMap F) → IsMap m → IsMap (batch_delete keys m)
  unfolding batch_delete
  batch_delete-IsMap [] m h = h
  batch_delete-IsMap (k ∷ keys) m h = batch_delete-IsMap keys (delete k m) (delete-IsMap k m h)

  pub All-batch_delete :
      (P : Str × List (JudgeItem F) → Type 0) (keys : List Str) (m : JudgeItemMap F)
      → All P m
      → All P (batch_delete keys m)
  unfolding batch_delete
  All-batch_delete P [] m h = h
  All-batch_delete P (k ∷ keys) m h = All-batch_delete P keys (delete k m) (All-delete P k m h)
