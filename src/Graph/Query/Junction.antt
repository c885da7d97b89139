-- ===== src/Graph/Query/Junction.antt =====
-- How the cached points of a query are put behind the stored ones.
use open_falcon.Prelude.{
  ℕ, zero, suc, ◌+◌, ◌^◌, ◌≤◌, ◌<◌, ◌≡◌, refl, sym, subst, Bool, true, List, [], ◌∷◌, ◌++◌, Option,
  some, arith, length, get_elem?, All, inl, inr, Bool-cases, ltb, bind_some, All-imp, length-append,
  get_elem?_in_range,
}
use open_falcon.Prelude.Int.{ℤ, pos, negsuc, -ℤ_parts, add64, add64-pos, ltb_ℤ}
use open_falcon.Graph.{RrdData}
use open_falcon.Graph.Query.{fix_missing, rounds, window, junction, overlay, merge_cache}
use open_falcon.Graph.Query.Loops.{fix_missing-All, set_elem-All, All-append}

pub rounds-enough : (t last : ℕ) → last + 1 < t + rounds (pos t) (pos last)
rounds-enough t last = omega (arith, -ℤ_parts (pos last) (pos t))

pub All-get_elem? {ℓ κ} :
    {A : Type ℓ} (P : A → Type κ) (xs : List A) (i : ℕ) (x : A)
    → All P xs
    → get_elem? xs i ≡ some x
    → P x
All-get_elem? P [] i x h e = cc
All-get_elem? P (y ∷ xs) zero x h e = let e' : y ≡ x = cc in subst P e' h.0
All-get_elem? P (y ∷ xs) (suc i) x h e = All-get_elem? P xs i x h.1 e

-- A time of the window is a natural.
pub window-pos :
    (s : ℕ) (end_ts ts : ℤ) → window (pos s) end_ts ts ≡ true → (t : ℕ) × (ts ≡ pos t) × (s ≤ t)
window-pos s end_ts (pos t) h = (t, refl, ground (arith, h))
window-pos s end_ts (negsuc t) h = ground (arith, h)

module _ {F : Type 0} where
  -- The junction is not behind the first cached point.
  pub junction-before :
      (s : ℕ) (end_ts : ℤ) (c k : ℕ) (merged : List (RrdData F))
      → k ≤ length merged
      → All (λ d. window (pos s) end_ts d.timestamp ≡ true) merged
      → (j : ℕ) × (t : ℕ) × (junction (pos c) k merged ≡ some (j, pos t)) × (j ≤ k) × (t ≤ c)
  unfolding junction
  junction-before s end_ts c zero merged a h = (0, c, refl, omega arith, omega arith)
  junction-before s end_ts c (suc k) merged a h =
      let (d, e) = get_elem?_in_range merged k (omega arith) in
      let (t, q, l) = window-pos s end_ts d.timestamp (All-get_elem? _ merged k d h e) in
      step_back d e t q (junction-before s end_ts c k merged (omega arith) h)
    where
      step_back :
          (d : RrdData F)
          → get_elem? merged k ≡ some d
          → (t : ℕ) → d.timestamp ≡ pos t
          → (j : ℕ) × (t : ℕ) × (junction (pos c) k merged ≡ some (j, pos t)) × (j ≤ k) × (t ≤ c)
          → (j : ℕ) × (t : ℕ) × (junction (pos c) (suc k) merged ≡ some (j, pos t))
            × (j ≤ suc k)
            × (t ≤ c)
      step_back d e t q (j, t', q', b, b') = elim (Bool-cases (ltb_ℤ d.timestamp (pos c))) [
        | inl before ↦
            let before' : ltb_ℤ (pos t) (pos c) ≡ true = rw q at before in
            (suc k, t, rw (e, before, q) refl, omega arith, ground (arith, before'))
        | inr behind ↦ (j, t', rw (e, behind) q', omega (arith, b), b')
      ]

  pub merge_cache-steps :
      (nan : F) (is_nan : F → Bool) (step : ℤ) (c : RrdData F) (cache merged : List (RrdData F))
      {u v : ℤ} {j : ℕ} {fixed : List (RrdData F)} {r : Option (List (RrdData F))}
      → junction c.timestamp (length merged) merged ≡ some (j, u)
      → add64 u step ≡ v
      → fix_missing nan step c.timestamp (rounds v c.timestamp) v merged ≡ some fixed
      → overlay is_nan (length merged) j (c ∷ cache) fixed ≡ r
      → merge_cache nan step is_nan (c ∷ cache) merged ≡ r
  unfolding merge_cache
  merge_cache-steps nan is_nan step c cache merged b d e f = bind_some _ b (rw d (bind_some _ e f))

  module _ (P : RrdData F → Type 0) where
    pub overlay-All :
        (is_nan : F → Bool) (size idx : ℕ) (cache merged : List (RrdData F))
        → size ≤ length merged
        → All P cache
        → All P merged
        → (m : List (RrdData F)) × (overlay is_nan size idx cache merged ≡ some m) × All P m
    unfolding overlay
    overlay-All is_nan size idx [] merged a h g = (merged, refl, g)
    overlay-All is_nan size idx (c ∷ cache) merged a h g = elim (Bool-cases (ltb idx size)) [
      | inl inside ↦ elim (Bool-cases (is_nan c.value)) [
        | inl gap ↦
            let (m, e, p) = overlay-All is_nan size (suc idx) cache merged a h.1 g in
            (m, rw (inside, gap) e, p)
        | inr value ↦
            let (m, e, l, p) = set_elem-All P idx c merged (ground (arith, inside)) h.0 g in
            let (m', e', p') = overlay-All is_nan size (suc idx) cache m (omega (arith, l)) h.1 p in
            (m', rw (inside, value, e) e', p')
      ]
      | inr behind ↦
          let (m, e, p) =
            overlay-All is_nan size (suc idx) cache (merged ++ c ∷ [])
              (omega (arith, length-append merged (c ∷ []))) h.1
              (All-append P merged (c ∷ []) g (h.0, tt)) in
          (m, rw behind e, p)
    ]

    pub merge_cache-All :
        (nan : F) (is_nan : F → Bool) (step s e : ℕ) (cache merged : List (RrdData F))
        → 0 < step
        → e + step < 2 ^ 63
        → ((ts : ℤ) → P (record { timestamp = ts; value = nan }))
        → All (λ d. P d × (window (pos s) (pos e) d.timestamp ≡ true)) cache
        → All (λ d. P d × (window (pos s) (pos e) d.timestamp ≡ true)) merged
        → (m : List (RrdData F)) × (merge_cache nan (pos step) is_nan cache merged ≡ some m)
          × All P m
    unfolding merge_cache
    merge_cache-All nan is_nan step s e [] merged a b gap h g =
        (merged, refl, All-imp _ _ merged (λ d p. p.0) g)
    merge_cache-All nan is_nan step s e (c ∷ cache) merged a b gap h g =
        let (t, q, l) = window-pos s (pos e) c.timestamp h.0.1 in behind t q
      where
        behind :
            (t : ℕ)
            → c.timestamp ≡ pos t
            → (m : List (RrdData F)) × (merge_cache nan (pos step) is_nan (c ∷ cache) merged
                ≡ some m)
              × All P m
        behind t q =
            let seen : window (pos s) (pos e) (pos t) ≡ true = rw q at h.0.1 in
            let le : t ≤ e = ground (arith, seen) in
            let (j, u, q', b1, b2) =
              junction-before s (pos e) t (length merged) merged (omega arith)
                (All-imp _ _ merged (λ d p. p.1) g) in
            let sum = add64-pos u step (omega (arith, le, b2)) in
            let (fixed, q2, l2, p2) =
              fix_missing-All nan step P t (rounds (pos (u + step)) (pos t)) (u + step) merged a
                (omega (arith, le)) (rounds-enough (u + step) t) (omega arith) gap
                (All-imp _ _ merged (λ d p. p.0) g) in
            let (m, q3, p3) =
              overlay-All is_nan (length merged) j (c ∷ cache) fixed l2
                (All-imp _ _ (c ∷ cache) (λ d p. p.0) h) p2 in
            (
              m,
              merge_cache-steps nan is_nan (pos step) c cache merged
                  (subst (λ x. junction x (length merged) merged ≡ some (j, pos u)) (sym q) q') sum
                  (subst
                    (λ x.
                      fix_missing nan (pos step) x (rounds (pos (u + step)) x) (pos (u + step))
                        merged
                      ≡ some fixed)
                    (sym q) q2)
                  q3,
              p3,
            )
