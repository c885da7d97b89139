-- ===== src/Graph/Store/Restore.antt =====
-- What arrives between taking the points of a counter and putting them back, and what `PushFront`
-- does.
use open_falcon.Prelude.{
  ℕ, ◌+◌, ◌-◌, ◌%◌, ◌^◌, ◌≤◌, ◌<◌, ◌≡◌, refl, ap, ◌∙◌, Bool, true, false, List, [], ◌∷◌, ◌++◌,
  Option, none, some, arith, if◌then◌else◌, eq_str, ◌==◌, ==_refl, Bool-cases, inl, inr,
}
use open_falcon.Prelude.Int.{pos, add64-pos, sub64-pos}
use open_falcon.Prelude.Text.{Str}
use open_falcon.Graph.{GraphItem, SafeLinkedList}
use open_falcon.Graph.LinkedList
use open_falcon.Graph.LinkedList.{pop_all-walk, push_all-walk, walk}
use open_falcon.Graph.Store.{
  GraphItemMap, cache_time, hash_key, get_wts, get, set, first, push_front, push_all, pop_all,
  fetch_all, graph_f_miss,
}
use open_falcon.Graph.Store.Refine.{IsStore, get-set}

at_self : {A : Type 0} (key : Str) (o x y : A) → o ≡ (if key == key then x else y) → o ≡ x
at_self key o x y e = e ∙ ap (λ b. if b then x else y) (==_refl key)

at_other :
    {A : Type 0} (key j : Str) (o x y : A)
    → key == j ≡ false
    → o ≡ (if key == j then x else y)
    → o ≡ y
at_other key j o x y other e = e ∙ ap (λ b. if b then x else y) other

module _ {F : Type 0} where
  -- The list of a key after one more item.
  abbrev pub pushed : GraphItem F → Bool → Option (SafeLinkedList F) → SafeLinkedList F
  pushed v missing none = record { flag = if missing then graph_f_miss else 0; items = v ∷ [] }
  pushed v missing (some l) = record l { items = v ∷ l.items }

  pushed-items :
      (v : GraphItem F) (missing : Bool) (o : Option (SafeLinkedList F))
      → (rest : List (GraphItem F)) × ((pushed v missing o).items ≡ v ∷ rest)
  pushed-items v missing none = ([], refl)
  pushed-items v missing (some l) = (l.items, refl)

module _ (crc32 : Str → ℕ) where
  -- `getWts` is after now, by at most the time that points are cached, for a time that is not negative
  -- and leaves room for it in an int64.
  pub get_wts-bounds :
      (key : Str) (now : ℕ)
      → now + cache_time < 2 ^ 63
      → (wts : ℕ) × (get_wts crc32 key (pos now) ≡ pos wts) × (now < wts) × (wts ≤ now + cache_time)
  unfolding get_wts
  get_wts-bounds key now h = (
    now + cache_time - hash_key crc32 key % cache_time,
    rw
        (
          add64-pos now cache_time h,
          sub64-pos (now + cache_time) (hash_key crc32 key % cache_time) (omega arith)
              (omega arith),
        )
        refl,
    omega arith,
    omega arith,
  )

  module _ {F : Type 0} where
    push_front-set :
        (key : Str) (v : GraphItem F) (missing : Bool) (m : GraphItemMap F)
        (o : Option (SafeLinkedList F))
        → get crc32 key m ≡ some o
        → push_front crc32 key v missing m ≡ set crc32 key (pushed v missing o) m
    unfolding push_front LinkedList.push_front
    push_front-set key v missing m none e = rw e refl
    push_front-set key v missing m (some l) e = rw e refl

    first-get :
        (key : Str) (m : GraphItemMap F) (v : GraphItem F) (l : SafeLinkedList F)
        (rest : List (GraphItem F))
        → get crc32 key m ≡ some (some l)
        → l.items ≡ v ∷ rest
        → first crc32 key m ≡ some (some v)
    unfolding first LinkedList.front
    first-get key m v l rest e f = rw (e, f) refl

    -- `PushFront` neither panics on a store nor spoils it. Afterwards the item is the first one of its
    -- key, in front of what the key held, under a new list if it held nothing; the other keys hold
    -- what they held.
    pub get-push_front :
        (key : Str) (v : GraphItem F) (missing : Bool) (m : GraphItemMap F)
        (o : Option (SafeLinkedList F))
        → IsStore m
        → get crc32 key m ≡ some o
        → (m' : GraphItemMap F) × (push_front crc32 key v missing m ≡ some m')
          × IsStore m'
          × (first crc32 key m' ≡ some (some v))
          × ((j : Str)
              → get crc32 j m'
                ≡ (if key == j then some (some (pushed v missing o)) else get crc32 j m))
    get-push_front key v missing m o h e =
        let (m', s, h', k) = get-set crc32 key (pushed v missing o) m h in
        (
          m',
          push_front-set key v missing m o e ∙ s,
          h',
          first-get key m' v (pushed v missing o) (pushed-items v missing o).0
              (at_self key _ _ _ (k key)) (pushed-items v missing o).1,
          k,
        )

    pub pop_all-found :
        (key : Str) (m m' : GraphItemMap F) (l : SafeLinkedList F)
        → get crc32 key m ≡ some (some l)
        → set crc32 key (record l { items = [] }) m ≡ some m'
        → pop_all crc32 key m ≡ some (walk l.items, m')
    unfolding pop_all
    pop_all-found key m m' l e s = rw (e, pop_all-walk l, s) refl

    push_all-found :
        (key : Str) (m m' : GraphItemMap F) (l : SafeLinkedList F) (xs : List (GraphItem F))
        → get crc32 key m ≡ some (some l)
        → set crc32 key (record l { items = l.items ++ xs }) m ≡ some m'
        → push_all crc32 key (walk xs) m ≡ some (m', true)
    unfolding push_all
    push_all-found key m m' l xs e s = rw (e, push_all-walk xs l, s) refl

    fetch_all-found :
        (key : Str) (m : GraphItemMap F) (l : SafeLinkedList F)
        → get crc32 key m ≡ some (some l)
        → fetch_all crc32 key m ≡ some (walk l.items, l.flag)
    unfolding fetch_all LinkedList.fetch_all
    fetch_all-found key m l e = rw e refl

    -- `PopAll` returns the points that `FetchAll` would, and `PushAll` puts them back: if one point
    -- arrives in between, every key holds in the end what it would after `PushFront` of that point
    -- alone. The key is in the store before.
    pub pop_all-push_front-push_all :
        (key : Str) (v : GraphItem F) (missing : Bool) (m : GraphItemMap F) (l : SafeLinkedList F)
        → IsStore m
        → get crc32 key m ≡ some (some l)
        → (old : List (GraphItem F)) × (m₁ m₂ m₃ : GraphItemMap F) × (fetch_all crc32 key m
            ≡ some (old, l.flag))
          × (pop_all crc32 key m ≡ some (old, m₁))
          × (push_front crc32 key v missing m₁ ≡ some m₂)
          × (push_all crc32 key old m₂ ≡ some (m₃, true))
          × ((j : Str)
              → get crc32 j m₃
                ≡ (if key == j then some (some (pushed v missing (some l))) else get crc32 j m))
    pop_all-push_front-push_all key v missing m l h e =
        let (m₁, s₁, h₁, k₁) = get-set crc32 key (record l { items = [] }) m h in
        let (m₂, s₂, h₂, f₂, k₂) =
          get-push_front key v missing m₁ (some (record l { items = [] })) h₁
            (at_self key _ _ _ (k₁ key)) in
        let (m₃, s₃, h₃, k₃) = get-set crc32 key (pushed v missing (some l)) m₂ h₂ in
        (
          walk l.items,
          m₁,
          m₂,
          m₃,
          fetch_all-found key m l e,
          pop_all-found key m m₁ l e s₁,
          s₂,
          push_all-found key m₂ m₃ (record l { items = v ∷ [] }) l.items
              (at_self key _ _ _ (k₂ key)) s₃,
          λ j. elim (Bool-cases (key == j)) [
            | inl same ↦ rw same (
                k₃ j
                ∙ ap (λ b. if b then some (some (pushed v missing (some l))) else get crc32 j m₂)
                    same)
            | inr other ↦ rw other (
                at_other key j _ _ _ other (k₃ j)
                ∙ (at_other key j _ _ _ other (k₂ j) ∙ at_other key j _ _ _ other (k₁ j)))
          ],
        )
