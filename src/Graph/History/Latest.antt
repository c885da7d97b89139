-- ===== src/Graph/History/Latest.antt =====
-- What the cache of last points keeps.
use open_falcon.Prelude.{
  ℕ, zero, suc, ◌≤◌, ◌≡◌, refl, ap, ◌∙◌, sym, true, List, [], ◌∷◌, Option, none, some, arith,
  length, head?, take, inl, inr, Bool-cases, Option-cases, if◌then◌else◌, ◌==◌, eq_str, ==_refl,
  length-take,
}
use open_falcon.Prelude.Int.{◌<ℤ◌}
use open_falcon.Prelude.Text.{Str}
use open_falcon.Float.{Float}
use open_falcon.Container.{SafeMap, SafeListLimited, front}
use open_falcon.Graph.{GraphItem}
use open_falcon.Graph.History.{
  default_history_size, is_newer, get_last_item, get_all_items, list_or, all_of, front_of, item_or,
  add_item,
}

-- Each point is newer than the one behind it.
abbrev pub IsFalling : {F : Type 0} → List (GraphItem F) → Type 0
IsFalling [] = Unit {0}
IsFalling (x ∷ []) = Unit {0}
IsFalling (x ∷ y ∷ rest) = (y.timestamp <ℤ x.timestamp) × IsFalling (y ∷ rest)

abbrev pub head_or : {F : Type 0} → GraphItem F → List (GraphItem F) → GraphItem F
head_or d [] = d
head_or d (x ∷ xs) = x

IsFalling-take :
    {F : Type 0} (n : ℕ) (xs : List (GraphItem F)) → IsFalling xs → IsFalling (take n xs)
IsFalling-take zero xs h = tt
IsFalling-take (suc n) [] h = tt
IsFalling-take (suc zero) (x ∷ xs) h = tt
IsFalling-take (suc (suc n)) (x ∷ []) h = tt
IsFalling-take (suc (suc n)) (x ∷ y ∷ xs) h = (h.0, IsFalling-take (suc n) (y ∷ xs) h.1)

-- The points of a counter after a new one.
abbrev pub after_add : {F : Type 0} → GraphItem F → List (GraphItem F) → List (GraphItem F)
after_add val xs =
    if is_newer val.timestamp (head? xs) then take default_history_size (val ∷ xs) else xs

IsFalling-cons :
    {F : Type 0} (val : GraphItem F) (xs : List (GraphItem F))
    → is_newer val.timestamp (head? xs) ≡ true
    → IsFalling xs
    → IsFalling (val ∷ xs)
IsFalling-cons val [] e h = tt
IsFalling-cons val (x ∷ xs) e h = (ground (arith, e), h)

after_add-IsFalling :
    {F : Type 0} (val : GraphItem F) (xs : List (GraphItem F))
    → IsFalling xs
    → IsFalling (after_add val xs)
after_add-IsFalling val xs h = elim (Bool-cases (is_newer val.timestamp (head? xs))) [
  | inl newer ↦ rw newer (IsFalling-take 3 (val ∷ xs) (IsFalling-cons val xs newer h))
  | inr older ↦ rw older h
]

after_add-few :
    {F : Type 0} (val : GraphItem F) (xs : List (GraphItem F))
    → length xs ≤ default_history_size
    → length (after_add val xs) ≤ default_history_size
after_add-few val xs h = elim (Bool-cases (is_newer val.timestamp (head? xs))) [
  | inl newer ↦ rw newer (omega (arith, length-take 3 (val ∷ xs)))
  | inr older ↦ rw older h
]

module _ {F L M : Type 0} (sm : SafeMap L M) (sl : SafeListLimited (GraphItem F) L) where
  -- Every list has the room that `AddItem` asks for, and its points fall in time.
  pub record IsLatest (m : M) : Type 0 where
    pub room : (key : Str) (l : L) → sm.get key m ≡ some l → sl.max_size l ≡ default_history_size
    pub falling : (key : Str) → IsFalling (get_all_items sm sl key m)
    pub few : (key : Str) → length (get_all_items sm sl key m) ≤ default_history_size

  -- The list that `AddItem` leaves.
  abbrev added : GraphItem F → L → L
  added val l = if is_newer val.timestamp (front sl l) then sl.push_front_violently val l else l

  get-add_item :
      (key j : Str) (val : GraphItem F) (m : M)
      → sm.get j (add_item sm sl key val m)
        ≡ (if key == j then some (added val (list_or sl (sm.get key m))) else sm.get j m)
  unfolding add_item
  get-add_item key j val m =
      elim (Bool-cases (is_newer val.timestamp (front sl (list_or sl (sm.get key m))))) [
        | inl newer ↦ rw newer (
            sm.get-put key j _ (sm.put key (list_or sl (sm.get key m)) m)
            ∙ elim (Bool-cases (key == j)) [
              | inl same ↦ rw same refl
              | inr other ↦ rw (other, sm.get-put key j (list_or sl (sm.get key m)) m, other) refl
            ])
        | inr older ↦ rw older (sm.get-put key j _ m)
      ]

  all_of-added :
      (val : GraphItem F) (l : L)
      → sl.max_size l ≡ default_history_size
      → sl.front_all (added val l) ≡ after_add val (sl.front_all l)
  all_of-added val l e = elim (Bool-cases (is_newer val.timestamp (front sl l))) [
    | inl newer ↦
        rw newer (sl.push_front_violently_law val l ∙ ap (λ n. take n (val ∷ sl.front_all l)) e)
    | inr older ↦ rw older refl
  ]

  front_all-list_or : (o : Option L) → sl.front_all (list_or sl o) ≡ all_of sl o
  front_all-list_or none = sl.front_all-new default_history_size
  front_all-list_or (some l) = refl

  room-list_or :
      (key : Str) (m : M)
      → IsLatest m
      → sl.max_size (list_or sl (sm.get key m)) ≡ default_history_size
  room-list_or key m h = elim (Option-cases (sm.get key m)) [
    | inl none_there ↦ rw none_there (sl.max_size-new default_history_size)
    | inr (l, e) ↦ rw e (h.room key l e)
  ]

  -- `AddItem` puts a point in front of those of its counter if it is newer than the first of them,
  -- and drops it otherwise; of a counter's points the three newest stay. The other counters keep theirs.
  pub get_all_items-add_item :
      (key j : Str) (val : GraphItem F) (m : M)
      → IsLatest m
      → get_all_items sm sl j (add_item sm sl key val m)
        ≡ (if key == j then after_add val (get_all_items sm sl key m) else get_all_items sm sl j m)
  unfolding get_all_items
  get_all_items-add_item key j val m h = elim (Bool-cases (key == j)) [
    | inl same ↦ rw same (
        ap (all_of sl) (get-add_item key j val m)
        ∙ rw same (
            all_of-added val (list_or sl (sm.get key m)) (room-list_or key m h)
            ∙ ap (after_add val) (front_all-list_or (sm.get key m))))
    | inr other ↦ rw other (ap (all_of sl) (get-add_item key j val m) ∙ rw other refl)
  ]

  max_size-added :
      (val : GraphItem F) (l : L)
      → sl.max_size l ≡ default_history_size
      → sl.max_size (added val l) ≡ default_history_size
  max_size-added val l e = elim (Bool-cases (is_newer val.timestamp (front sl l))) [
    | inl newer ↦ rw newer (sl.max_size-push_front_violently val l ∙ e)
    | inr older ↦ rw older e
  ]

  -- `AddItem` keeps the lists of all counters falling in time, with at most three points each.
  pub add_item-IsLatest :
      (key : Str) (val : GraphItem F) (m : M) → IsLatest m → IsLatest (add_item sm sl key val m)
  add_item-IsLatest key val m h = record {
    room = λ j l e. elim (Bool-cases (key == j)) [
      | inl same ↦
          let q =
            sym e
            ∙ get-add_item key j val m
            ∙ ap (λ b. if b then some (added val (list_or sl (sm.get key m))) else sm.get j m)
                same in
          let q' : l ≡ added val (list_or sl (sm.get key m)) = cc q in
          ap sl.max_size q' ∙ max_size-added val (list_or sl (sm.get key m)) (room-list_or key m h)
      | inr other ↦ h.room j l (
          sym
            (ap (λ b. if b then some (added val (list_or sl (sm.get key m))) else sm.get j m) other)
          ∙ sym (get-add_item key j val m)
          ∙ e)
    ];
    falling = λ j. elim (Bool-cases (key == j)) [
      | inl same ↦
          rw (get_all_items-add_item key j val m h, same)
            (after_add-IsFalling val (get_all_items sm sl key m) (h.falling key))
      | inr other ↦ rw (get_all_items-add_item key j val m h, other) (h.falling j)
    ];
    few = λ j. elim (Bool-cases (key == j)) [
      | inl same ↦
          rw (get_all_items-add_item key j val m h, same)
            (after_add-few val (get_all_items sm sl key m) (h.few key))
      | inr other ↦ rw (get_all_items-add_item key j val m h, other) (h.few j)
    ];
  }

  -- An empty cache.
  pub empty-IsLatest : (m : M) → ((key : Str) → sm.get key m ≡ none) → IsLatest m
  unfolding get_all_items
  empty-IsLatest m e = record {
    room = λ key l q. absurd (ground (arith, e key, q));
    falling = λ key. rw (e key) tt;
    few = λ key. rw (e key) (omega arith);
  }

  front_of-head? : (o : Option L) → front_of sl o ≡ head? (all_of sl o)
  front_of-head? none = refl
  front_of-head? (some l) = refl

  last-all :
      ⦃fl : Float F⦄ (key : Str) (m : M)
      → get_last_item sm sl key m ≡ item_or (head? (get_all_items sm sl key m))
  unfolding get_last_item get_all_items
  last-all key m = ap item_or (front_of-head? (sm.get key m))

  -- A point that is newer than all of its counter is the last one after `AddItem`.
  pub get_last_item-add_item :
      ⦃fl : Float F⦄ (key : Str) (val : GraphItem F) (m : M)
      → IsLatest m
      → is_newer val.timestamp (head? (get_all_items sm sl key m)) ≡ true
      → get_last_item sm sl key (add_item sm sl key val m) ≡ val
  get_last_item-add_item key val m h newer =
      last-all key (add_item sm sl key val m)
      ∙ ap (λ xs. item_or (head? xs))
          (get_all_items-add_item key key val m h
            ∙ ap
                (λ b.
                  if b
                  then after_add val (get_all_items sm sl key m)
                  else get_all_items sm sl key m)
                (==_refl key)
            ∙ ap
                (λ b.
                  if b then take 3 (val ∷ get_all_items sm sl key m) else get_all_items sm sl key m)
                newer)
