-- ===== src/Graph/LinkedList.antt =====
-- modules/graph/store/linkedlist.go: the cached points of one counter, the newest in front. Each
-- method runs under the lock of its list. `none` is a panic.
use open_falcon.Prelude.{
  ℕ, zero, suc, ◌≡◌, refl, sym, ap, ◌∙◌, List, [], ◌∷◌, ◌++◌, Option, none, some, arith, ◌>>=◌,
  length, get_elem?, append-nil, append_assoc, length-append,
}
use open_falcon.Graph.{GraphItem, SafeLinkedList}

-- `L.Back()` with what is in front of it.
unfoldable pub split_back : {A : Type 0} → List A → Option (List A × A)
split_back [] = none
split_back (x ∷ []) = some ([], x)
split_back (x ∷ y ∷ rest) = split_back (y ∷ rest) >>= λ r. some (x ∷ r.0, r.1)

-- The loop of `PopAll`.
unfoldable pub pop_loop : {A : Type 0} → ℕ → List A → List A → Option (List A × List A)
unfolding split_back
pop_loop zero items ret = some (ret, items)
pop_loop (suc k) items ret = split_back items >>= λ r. pop_loop k r.0 (ret ++ r.1 ∷ [])

-- The loop of `PushAll`, from the last index down.
unfoldable pub push_loop : {A : Type 0} → ℕ → List A → List A → Option (List A)
push_loop zero new items = some items
push_loop (suc i) new items = get_elem? new i >>= λ x. push_loop i new (items ++ x ∷ [])

-- The walk of `FetchAll` from the back to the front.
abbrev pub walk : {A : Type 0} → List A → List A
walk [] = []
walk (x ∷ rest) = walk rest ++ x ∷ []

module _ {F : Type 0} where
  unfoldable pub push_front : GraphItem F → SafeLinkedList F → SafeLinkedList F
  push_front v l = record l { items = v ∷ l.items }

  unfoldable pub front : SafeLinkedList F → Option (GraphItem F)
  front l = get_elem? l.items 0

  unfoldable pub back : SafeLinkedList F → Option (GraphItem F)
  unfolding split_back
  back l = split_back l.items >>= λ r. some r.1

  unfoldable pub pop_back : SafeLinkedList F → SafeLinkedList F × Option (GraphItem F)
  unfolding split_back
  pop_back l = elim (split_back l.items) [
    | none ↦ (l, none)
    | some r ↦ (record l { items = r.0 }, some r.1)
  ]

  unfoldable pub pop_all : SafeLinkedList F → Option (List (GraphItem F) × SafeLinkedList F)
  unfolding pop_loop
  pop_all l = pop_loop (length l.items) l.items [] >>= λ r. some (r.0, record l { items = r.1 })

  unfoldable pub push_all : List (GraphItem F) → SafeLinkedList F → Option (SafeLinkedList F)
  unfolding push_loop
  push_all new l = push_loop (length new) new l.items >>= λ items. some (record l { items = items })

  unfoldable pub fetch_all : SafeLinkedList F → List (GraphItem F) × ℕ
  fetch_all l = (walk l.items, l.flag)

split_back-append : {A : Type 0} (xs : List A) (x : A) → split_back (xs ++ x ∷ []) ≡ some (xs, x)
unfolding split_back
split_back-append [] x = refl
split_back-append (y ∷ []) x = refl
split_back-append (y ∷ z ∷ xs) x = rw (split_back-append (z ∷ xs) x)

-- From the back, as `reverse` of a list that is given in reverse.
pop_loop-walk :
    {A : Type 0} (xs ret : List A) → pop_loop (length xs) (walk xs) ret ≡ some (ret ++ xs, [])
unfolding pop_loop
pop_loop-walk [] ret = ap (λ r. some (r, [])) (sym (append-nil ret))
pop_loop-walk (x ∷ xs) ret =
    rw (split_back-append (walk xs) x)
      (pop_loop-walk xs (ret ++ x ∷ []) ∙ ap (λ r. some (r, [])) (append_assoc ret (x ∷ []) xs))

walk-append : {A : Type 0} (xs : List A) (x : A) → walk (xs ++ x ∷ []) ≡ x ∷ walk xs
walk-append [] x = refl
walk-append (y ∷ xs) x = rw (walk-append xs x)

walk-walk : {A : Type 0} (xs : List A) → walk (walk xs) ≡ xs
walk-walk [] = refl
walk-walk (x ∷ xs) = walk-append (walk xs) x ∙ ap (◌∷◌ x) (walk-walk xs)

length-walk : {A : Type 0} (xs : List A) → length (walk xs) ≡ length xs
length-walk [] = refl
length-walk (x ∷ xs) = omega (arith, length-append (walk xs) (x ∷ []), length-walk xs)

-- `PopAll` returns the items from the back on, and leaves none.
pub pop_loop_all : {A : Type 0} (xs : List A) → pop_loop (length xs) xs [] ≡ some (walk xs, [])
pop_loop_all xs = rw (walk-walk xs, length-walk xs) at (pop_loop-walk (walk xs) [])

get_elem?_middle :
    {A : Type 0} (xs : List A) (y : A) (ys : List A) → get_elem? (xs ++ y ∷ ys) (length xs) ≡ some y
get_elem?_middle [] y ys = refl
get_elem?_middle (x ∷ xs) y ys = get_elem?_middle xs y ys

push_loop-walk :
    {A : Type 0} (zs ys acc : List A) → push_loop (length zs) (walk zs ++ ys) acc ≡ some (acc ++ zs)
unfolding push_loop
push_loop-walk [] ys acc = ap some (sym (append-nil acc))
push_loop-walk (z ∷ zs) ys acc =
    rw
      (
        append_assoc (walk zs) (z ∷ []) ys,
        ← length-walk zs,
        get_elem?_middle (walk zs) z ys,
        length-walk zs,
      )
      (push_loop-walk zs (z ∷ ys) (acc ++ z ∷ []) ∙ ap some (append_assoc acc (z ∷ []) zs))

-- `PushAll` puts what `PopAll` returned behind the items.
pub push_loop_all :
    {A : Type 0} (xs acc : List A) → push_loop (length (walk xs)) (walk xs) acc ≡ some (acc ++ xs)
push_loop_all xs acc = rw (append-nil (walk xs), ← length-walk xs) at (push_loop-walk xs [] acc)

module _ {F : Type 0} where
  pub pop_all-walk :
      (l : SafeLinkedList F) → pop_all l ≡ some (walk l.items, record l { items = [] })
  unfolding pop_all
  pop_all-walk l = rw (pop_loop_all l.items) refl

  pub push_all-walk :
      (xs : List (GraphItem F)) (l : SafeLinkedList F)
      → push_all (walk xs) l ≡ some (record l { items = l.items ++ xs })
  unfolding push_all
  push_all-walk xs l = rw (push_loop_all xs l.items) refl
