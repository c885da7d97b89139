-- ===== src/Container.antt =====
-- The containers of the package `toolkits/container` that several services keep their state in: the
-- package is not part of the repository, so each is an interface, with the laws that its
-- documentation states and the code relies on. Each has an instance on which the tests run.
use open_falcon.Prelude.{
  ℕ, ◌≡◌, refl, List, [], ◌∷◌, Option, none, some, Bool, true, false, arith, head?, length, take,
  if◌then◌else◌, ltb, ◌==◌, eq_str,
}
use open_falcon.Prelude.Text.{Str}
use open_falcon.Prelude.Maps.{Map, lookup, insert, delete, lookup-insert, lookup-delete}

-- `Get`, `Put` and `Remove` of `nmap.SafeMap`.
pub record SafeMap (V M : Type 0) : Type 0 where
  pub get : Str → M → Option V
  pub put : Str → V → M → M
  pub remove : Str → M → M
  pub get-put :
      (k j : Str) (v : V) (m : M) → get j (put k v m) ≡ (if k == j then some v else get j m)
  pub get-remove : (k j : Str) (m : M) → get j (remove k m) ≡ (if k == j then none else get j m)

-- `list.SafeListLimited`: at most `max_size` elements; the list from the front is `front_all`.
pub record SafeListLimited (A L : Type 0) : Type 0 where
  pub new : ℕ → L
  pub max_size : L → ℕ
  pub front_all : L → List A
  pub push_front : A → L → L × Bool
  pub push_front_violently : A → L → L
  pub max_size-new : (n : ℕ) → max_size (new n) ≡ n
  pub front_all-new : (n : ℕ) → front_all (new n) ≡ []
  -- A full list refuses, or drops its last element.
  pub push_front_law :
      (x : A) (l : L)
      → front_all (push_front x l).0 ≡ (if (push_front x l).1 then x ∷ front_all l else front_all l)
  pub push_front_room :
      (x : A) (l : L) → (push_front x l).1 ≡ ltb (length (front_all l)) (max_size l)
  pub push_front_violently_law :
      (x : A) (l : L) → front_all (push_front_violently x l) ≡ take (max_size l) (x ∷ front_all l)
  pub max_size-push_front : (x : A) (l : L) → max_size (push_front x l).0 ≡ max_size l
  pub max_size-push_front_violently :
      (x : A) (l : L) → max_size (push_front_violently x l) ≡ max_size l

module _ {A L : Type 0} (sl : SafeListLimited A L) where
  -- `Front`: nil for an empty list.
  abbrev pub front : L → Option A
  front l = head? (sl.front_all l)

-- Go's maps are such maps.
abbrev pub plain_map : {V : Type 0} → SafeMap V (Map Str V)
plain_map = record {
  get = lookup;
  put = insert;
  remove = delete;
  get-put = λ k j v m. lookup-insert k j v m;
  get-remove = λ k j m. lookup-delete k j m;
}

abbrev pub offer {ℓ} : {A : Type ℓ} → A → ℕ × List A → (ℕ × List A) × Bool
offer x l = if ltb (length l.1) l.0 then ((l.0, x ∷ l.1), true) else (l, false)

pub offer_lem {ℓ} :
    {A : Type ℓ} (x : A) (l : ℕ × List A)
    → (offer x l).0.1 ≡ (if (offer x l).1 then x ∷ l.1 else l.1)
offer_lem x l = ground arith

pub offer-room {ℓ} : {A : Type ℓ} (x : A) (l : ℕ × List A) → (offer x l).1 ≡ ltb (length l.1) l.0
offer-room x l = ground arith

pub offer-size {ℓ} : {A : Type ℓ} (x : A) (l : ℕ × List A) → (offer x l).0.0 ≡ l.0
offer-size x l = ground arith

-- The room, and the elements.
abbrev pub bounded_list : {A : Type 0} → SafeListLimited A (ℕ × List A)
bounded_list = record {
  new = λ n. (n, []);
  max_size = λ l. l.0;
  front_all = λ l. l.1;
  push_front = offer;
  push_front_violently = λ x l. (l.0, take l.0 (x ∷ l.1));
  max_size-new = λ n. refl;
  front_all-new = λ n. refl;
  push_front_law = offer_lem;
  push_front_room = offer-room;
  push_front_violently_law = λ x l. refl;
  max_size-push_front = offer-size;
  max_size-push_front_violently = λ x l. refl;
}
