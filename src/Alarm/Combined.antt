-- ===== src/Alarm/Combined.antt =====
-- Which alarms go into which letter.
use open_falcon.Prelude.{
  ◌≡◌, ◌<◌, refl, sym, ap, ◌∙◌, length, length-append, list_eq_iff, All-imp, Bool, true, false,
  List, [], ◌∷◌, ◌++◌, Option, none, some, arith, All, inl, inr, Bool-cases, Option-cases, filter,
  exists, ◌==◌, eq_str, bind_some, if◌then◌else◌, ==_refl, ◌||◌,
}
use open_falcon.Prelude.Text.{Str}
use open_falcon.Prelude.Maps.{Map, lookup, insert, IsMap, insert-IsMap, All-insert}
use open_falcon.Prelude.Groups.{append_at, list_at, group_by, at_key-group_by}
use open_falcon.Alarm.{ShortDto, Letter, write_all, short_key, write_short, combine_short}

-- No key stands twice.
abbrev pub NoDup : List Str → Type 0
NoDup [] = Unit {0}
NoDup (k ∷ ks) = (exists (λ j. j == k) ks ≡ false) × NoDup ks

module _ {A : Type 0} (key : A → Str) where
  group_by-IsMap : (xs : List A) (m : Map Str (List A)) → IsMap m → IsMap (group_by key xs m)
  unfolding group_by append_at
  group_by-IsMap [] m h = h
  group_by-IsMap (x ∷ xs) m h = group_by-IsMap xs (append_at (key x) x m) (one x m h)
    where
      one : (x : A) (m : Map Str (List A)) → IsMap m → IsMap (append_at (key x) x m)
      one x m h = elim (Option-cases (lookup (key x) m)) [
        | inl new ↦ rw (new, append_at) (insert-IsMap (key x) (x ∷ []) m h)
        | inr (ys, old) ↦ rw (old, append_at) (insert-IsMap (key x) (ys ++ x ∷ []) m h)
      ]

abbrev pub keys_of : {A : Type 0} → Map Str (List A) → List Str
keys_of [] = []
keys_of ((k, xs) ∷ m) = k ∷ keys_of m

abbrev pub has_key : Str → List Str → Bool
has_key k ks = exists (λ j. j == k) ks

module _ {A : Type 0} where
  has_key-insert :
      (j k : Str) (v : List A) (m : Map Str (List A))
      → has_key k (keys_of (insert j v m)) ≡ (j == k || has_key k (keys_of m))
  has_key-insert j k v [] = refl
  has_key-insert j k v ((i, w) ∷ m) =
      ground (arith, list_eq_iff i j, list_eq_iff i k, list_eq_iff j k, has_key-insert j k v m)

  lookup-has_key :
      (k : Str) (m : Map Str (List A)) → lookup k m ≡ none → has_key k (keys_of m) ≡ false
  lookup-has_key k [] e = refl
  lookup-has_key k ((j, w) ∷ m) e = ground (arith, lookup-has_key k m, e)

  keys_of-NoDup : (m : Map Str (List A)) → IsMap m → NoDup (keys_of m)
  keys_of-NoDup [] h = tt
  keys_of-NoDup ((k, w) ∷ m) h = (lookup-has_key k m h.0, keys_of-NoDup m h.1)

-- Only lists with an element.
abbrev HasSome : {A : Type 0} → Map Str (List A) → Type 0
HasSome m = All (λ kv. 0 < length kv.1) m

module _ {A : Type 0} (key : A → Str) where
  append_at-keeps :
      (k : Str) (x : A) (m : Map Str (List A))
      → (key x == k || has_key k (keys_of m)) ≡ true
      → has_key k (keys_of (append_at (key x) x m)) ≡ true
  unfolding append_at
  append_at-keeps k x m h = elim (Option-cases (lookup (key x) m)) [
    | inl new ↦ rw (new, append_at) (has_key-insert (key x) k (x ∷ []) m ∙ h)
    | inr (ys, old) ↦ rw (old, append_at) (has_key-insert (key x) k (ys ++ x ∷ []) m ∙ h)
  ]

  group_by-keeps :
      (k : Str) (xs : List A) (m : Map Str (List A))
      → has_key k (keys_of m) ≡ true
      → has_key k (keys_of (group_by key xs m)) ≡ true
  unfolding group_by
  group_by-keeps k [] m h = h
  group_by-keeps k (x ∷ xs) m h =
      group_by-keeps k xs (append_at (key x) x m) (append_at-keeps k x m (ground (arith, h)))

  group_by-has_key :
      (xs : List A) (m : Map Str (List A))
      → All (λ x. has_key (key x) (keys_of (group_by key xs m)) ≡ true) xs
  unfolding group_by
  group_by-has_key [] m = tt
  group_by-has_key (x ∷ xs) m = (
    group_by-keeps (key x) xs (append_at (key x) x m) (
        append_at-keeps (key x) x m (ap (λ b. b || has_key (key x) (keys_of m)) (==_refl (key x)))),
    group_by-has_key xs (append_at (key x) x m),
  )

  group_by-HasSome : (xs : List A) (m : Map Str (List A)) → HasSome m → HasSome (group_by key xs m)
  unfolding group_by append_at
  group_by-HasSome [] m h = h
  group_by-HasSome (x ∷ xs) m h = group_by-HasSome xs (append_at (key x) x m) (one x m h)
    where
      one : (x : A) (m : Map Str (List A)) → HasSome m → HasSome (append_at (key x) x m)
      one x m h = elim (Option-cases (lookup (key x) m)) [
        | inl new ↦
            rw (new, append_at)
              (All-insert (λ kv. 0 < length kv.1) (key x) (x ∷ []) m h (omega arith))
        | inr (ys, old) ↦
            rw (old, append_at)
              (All-insert (λ kv. 0 < length kv.1) (key x) (ys ++ x ∷ []) m h
                (omega (arith, length-append ys (x ∷ []))))
      ]

module _ {A : Type 0} where
  -- The entries of a map are what is looked up in it.
  entries :
      (all m : Map Str (List A))
      → ((k : Str) → has_key k (keys_of m) ≡ true → lookup k all ≡ lookup k m)
      → IsMap m
      → All (λ kv. lookup kv.0 all ≡ some kv.1) m
  entries all [] f h = tt
  entries all ((j, w) ∷ m) f h = (
    f j (ap (λ b. b || has_key j (keys_of m)) (==_refl j))
        ∙ ap (λ b. if b then some w else lookup j m) (==_refl j),
    entries all m
        (λ k there. f k (ground (arith, there)) ∙ elim (Bool-cases (j == k)) [
          | inl same ↦
              let gone = lookup-has_key j m h.0 in
              let same' = (list_eq_iff j k).0 same in
              absurd (ground (arith, there, gone, ap (λ x. has_key x (keys_of m)) same'))
          | inr other ↦ rw other refl
        ])
        h.1,
  )

module _ {A : Type 0} (key : A → Str) (write : List A → Option Letter) (dtos : List A) where
  -- A letter for each key, of the alarms that have the key, in their order.
  abbrev pub Each : List Str → List Letter → Type 0
  Each [] [] = Unit {0}
  Each [] (l ∷ ls) = ⊥
  Each (k ∷ ks) [] = ⊥
  Each (k ∷ ks) (l ∷ ls) = (write (filter (λ x. key x == k) dtos) ≡ some l) × Each ks ls

  -- What is sent of the alarms: one letter for each key.
  pub record Combined (sent : Option (List Letter)) : Type 0 where
    pub keys : List Str
    pub letters : List Letter
    pub returned : sent ≡ some letters
    pub once : NoDup keys
    pub each : Each keys letters
    pub every_alarm : All (λ x. has_key (key x) keys ≡ true) dtos

  module _ (total : (arr : List A) → 0 < length arr → (l : Letter) × (write arr ≡ some l)) where
    write_all-Each :
        (m : Map Str (List A))
        → All (λ kv. kv.1 ≡ filter (λ x. key x == kv.0) dtos) m
        → HasSome m
        → (ls : List Letter) × (write_all write m ≡ some ls) × Each (keys_of m) ls
    unfolding write_all
    write_all-Each [] a h = ([], refl, tt)
    write_all-Each ((k, arr) ∷ m) a h =
        let (l, e) = total arr h.0 in
        let (ls, e', each) = write_all-Each m a.1 h.1 in
        (l ∷ ls, bind_some _ e (bind_some _ e' refl), (ap write (sym a.0) ∙ e, each))

    pub write_all-Combined : Combined (write_all write (group_by key dtos []))
    write_all-Combined =
        let m = group_by key dtos [] in
        let is_map = group_by-IsMap key dtos [] tt in
        let (ls, e, each) =
          write_all-Each m
            (All-imp (λ kv. lookup kv.0 m ≡ some kv.1)
              (λ kv. kv.1 ≡ filter (λ x. key x == kv.0) dtos) m
              (λ kv there. sym (ap list_at there) ∙ at_key-group_by key kv.0 dtos [])
              (entries m m (λ k h. refl) is_map))
            (group_by-HasSome key dtos [] tt) in
        record {
          keys = keys_of m;
          letters = ls;
          returned = e;
          once = keys_of-NoDup m is_map;
          each = each;
          every_alarm = group_by-has_key key dtos [];
        }

write_short-returns :
    (link : Str → Option Str) (dashboard : Str) (arr : List ShortDto)
    → 0 < length arr
    → (l : Letter) × (write_short link dashboard arr ≡ some l)
unfolding write_short
write_short-returns link dashboard [] h = absurd (omega arith)
write_short-returns link dashboard (d ∷ []) h = (_, refl)
write_short-returns link dashboard (d ∷ e ∷ rest) h = (_, refl)

-- combineSms and combineIM do not panic, whether or not links can be made. They send one letter for
-- each key, of priority, status, receiver and metric, that an alarm has: made of all alarms with the
-- key, and of no other, in their order.
pub combine_short-Combined :
    (link : Str → Option Str) (dashboard : Str) (dtos : List ShortDto)
    → Combined short_key (write_short link dashboard) dtos (combine_short link dashboard dtos)
unfolding combine_short
combine_short-Combined link dashboard dtos =
    write_all-Combined short_key (write_short link dashboard) dtos
      (write_short-returns link dashboard)
