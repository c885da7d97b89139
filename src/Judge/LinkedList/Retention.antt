-- ===== src/Judge/LinkedList/Retention.antt =====
-- Which items a list keeps: `PushFrontAndMaintain` against an unbounded log of what was taken.
use open_falcon.Prelude.{
  ℕ, zero, suc, ◌+◌, ◌-◌, ◌^◌, ◌≤◌, ◌<◌, ◌≡◌, refl, sym, ap, Bool, false, not, List, [], ◌∷◌,
  Option, some, arith, length, take, if◌then◌else◌, ◌>>=◌, Bool-cases, inl, inr, length-take,
  take_all,
}
use open_falcon.Prelude.Int.{ℤ, pos, sub64-pos, ◌<ℤ◌}
use open_falcon.Model.{JudgeItem}
use open_falcon.Judge.LinkedList.{remove_back, remove_backs, is_stale, push_front_and_maintain}

remove_back-take {ℓ} :
    {A : Type ℓ} (x : A) (xs : List A) → remove_back (x ∷ xs) ≡ some (take (length xs) (x ∷ xs))
unfolding remove_back
remove_back-take x [] = refl
remove_back-take x (y ∷ ys) = rw (remove_back-take y ys)

take-take {ℓ} : {A : Type ℓ} (m n : ℕ) (xs : List A) → m ≤ n → take m (take n xs) ≡ take m xs
take-take zero n xs h = refl
take-take (suc m) zero xs h = absurd (omega arith)
take-take (suc m) (suc n) [] h = refl
take-take (suc m) (suc n) (x ∷ xs) h = ap (◌∷◌ x) (take-take m n xs (omega arith))

-- Removing the last `k` items keeps the first ones.
remove_backs-take {ℓ} :
    {A : Type ℓ} (k n : ℕ) (xs : List A) → length xs ≡ n + k → remove_backs k xs ≡ some (take n xs)
unfolding remove_backs
remove_backs-take zero n xs h = ap some (sym (take_all n xs (omega arith)))
remove_backs-take (suc k) n [] h = absurd (omega arith)
remove_backs-take (suc k) n (x ∷ xs) h =
    rw
      (
        remove_back-take x xs,
        remove_backs-take k n (take (length xs) (x ∷ xs))
            (omega (arith, length-take (length xs) (x ∷ xs))),
      )
      (ap some (take-take n (length xs) (x ∷ xs) (omega arith)))

module _ {F : Type 0} where
  pub push_lem :
      (v : JudgeItem F) (n : ℕ) (items : List (JudgeItem F))
      → n < 2 ^ 63
      → length items < 2 ^ 63 - 1
      → push_front_and_maintain v (pos n) items
        ≡ some (if is_stale v items then items else take n (v ∷ items), not (is_stale v items))
  unfolding push_front_and_maintain
  push_lem v n items h k = elim (Bool-cases (is_stale v items)) [
    | inl stale ↦ rw stale refl
    | inr fresh ↦ rw fresh (
        ground (
          arith,
          sub64-pos (suc (length items)) n,
          remove_backs-take (suc (length items) - n) n (v ∷ items),
          take_all n (v ∷ items),
        ))
  ]

  -- The log of everything that was ever taken, which forgets nothing.
  abbrev pub accept : JudgeItem F → List (JudgeItem F) → List (JudgeItem F)
  accept v log = if is_stale v log then log else v ∷ log

  abbrev pub accept_all : List (JudgeItem F) → List (JudgeItem F) → List (JudgeItem F)
  accept_all [] log = log
  accept_all (v ∷ vs) log = accept_all vs (accept v log)

  -- Calls of `PushFrontAndMaintain` one after the other.
  abbrev pub push_all : List (JudgeItem F) → ℤ → List (JudgeItem F) → Option (List (JudgeItem F))
  push_all [] max_count items = some items
  push_all (v ∷ vs) max_count items =
      push_front_and_maintain v max_count items >>= λ r. push_all vs max_count r.0

  is_stale-take :
      (v : JudgeItem F) (n : ℕ) (log : List (JudgeItem F))
      → 0 < n
      → is_stale v (take n log) ≡ is_stale v log
  is_stale-take v zero log h = absurd (omega arith)
  is_stale-take v (suc n) [] h = refl
  is_stale-take v (suc n) (x ∷ xs) h = refl

  take-accept :
      (v : JudgeItem F) (n : ℕ) (log : List (JudgeItem F))
      → 0 < n
      → (if is_stale v (take n log) then take n log else take n (v ∷ take n log))
        ≡ take n (accept v log)
  take-accept v zero log h = absurd (omega arith)
  take-accept v (suc n) log h = ground (arith, is_stale-take v (suc n) log, take-take n (suc n) log)

  -- With room for `n` items, at least one, calls of `PushFrontAndMaintain` never panic and leave the
  -- `n` newest entries of the log of all items that were taken: those that are newer than the newest
  -- entry and whose timestamp is positive, and the first one if the log was empty.
  pub push_all-accept_all :
      (vs : List (JudgeItem F)) (n : ℕ) (log : List (JudgeItem F))
      → 0 < n
      → n < 2 ^ 63 - 1
      → push_all vs (pos n) (take n log) ≡ some (take n (accept_all vs log))
  push_all-accept_all [] n log h k = refl
  push_all-accept_all (v ∷ vs) n log h k =
      rw
        (
          push_lem v n (take n log) (omega arith) (omega (arith, length-take n log)),
          take-accept v n log h,
        )
        (push_all-accept_all vs n (accept v log) h k)

  -- Timestamps fall along the list.
  abbrev pub IsFalling : List (JudgeItem F) → Type 0
  IsFalling [] = Unit {0}
  IsFalling (x ∷ []) = Unit {0}
  IsFalling (x ∷ y ∷ rest) = (y.timestamp <ℤ x.timestamp) × IsFalling (y ∷ rest)

  IsFalling-accept :
      (v : JudgeItem F) (log : List (JudgeItem F)) → IsFalling log → IsFalling (accept v log)
  IsFalling-accept v [] f = tt
  IsFalling-accept v (x ∷ xs) f = ground arith

  IsFalling-take : (n : ℕ) (log : List (JudgeItem F)) → IsFalling log → IsFalling (take n log)
  IsFalling-take zero log f = tt
  IsFalling-take (suc n) [] f = tt
  IsFalling-take (suc zero) (x ∷ xs) f = tt
  IsFalling-take (suc (suc n)) (x ∷ []) f = tt
  IsFalling-take (suc (suc n)) (x ∷ y ∷ ys) f = (f.0, IsFalling-take (suc n) (y ∷ ys) f.1)

  -- A list holds at most `n` items, each newer than the one behind it.
  pub record IsWindow (n : ℕ) (items : List (JudgeItem F)) : Type 0 where
    pub bounded : length items ≤ n
    pub falling : IsFalling items

  pub kept-IsWindow :
      (v : JudgeItem F) (n : ℕ) (items : List (JudgeItem F))
      → IsWindow n items
      → IsWindow n (if is_stale v items then items else take n (v ∷ items))
  kept-IsWindow v n items w = elim (Bool-cases (is_stale v items)) [
    | inl stale ↦ rw stale w
    | inr fresh ↦ rw fresh (record {
      bounded = omega (arith, length-take n (v ∷ items));
      falling = IsFalling-take n (v ∷ items) (rw fresh at (IsFalling-accept v items w.falling));
    })
  ]

  -- `PushFrontAndMaintain` with room for `n` items keeps a list of at most `n` items, each newer
  -- than the one behind it, and does not panic; a refused item leaves the list as it was.
  pub push-IsWindow :
      (v : JudgeItem F) (n : ℕ) (items : List (JudgeItem F))
      → n < 2 ^ 63 - 1
      → IsWindow n items
      → (r : List (JudgeItem F) × Bool) × (push_front_and_maintain v (pos n) items ≡ some r)
        × IsWindow n r.0
        × (r.1 ≡ false → r.0 ≡ items)
  push-IsWindow v n items h w = (
    (if is_stale v items then items else take n (v ∷ items), not (is_stale v items)),
    push_lem v n items (omega arith) (omega (arith, w.bounded)),
    kept-IsWindow v n items w,
    ground arith,
  )
