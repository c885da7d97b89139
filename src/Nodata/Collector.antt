-- ===== src/Nodata/Collector.antt =====
-- modules/nodata/collector/collector.go: the values that are collected, up to three of each key. The map
-- and its lists come from a package.
use open_falcon.Prelude.{
  ℕ, zero, suc, ◌<◌, ◌≡◌, refl, ap, ◌∙◌, List, ◌∷◌, Option, none, some, arith, head?, take,
  if◌then◌else◌, eq_str, ==_refl,
}
use open_falcon.Prelude.Text.{Str}
use open_falcon.Container.{SafeMap, SafeListLimited, front}
use open_falcon.Nodata.{DataItem}

-- How many values of a key are kept.
abbrev pub max_items : ℕ
max_items = 3

module _ {F L M : Type 0} (sm : SafeMap L M) (sl : SafeListLimited (DataItem F) L) where
  abbrev pub first_of : Option L → Option (DataItem F)
  first_of none = none
  first_of (some l) = front sl l

  abbrev pub list_or_new : Option L → L
  list_or_new none = sl.new max_items
  list_or_new (some l) = l

  -- `none` is an empty item with `false`.
  unfoldable pub get_first_item : Str → M → Option (DataItem F)
  get_first_item key m = first_of (sm.get key m)

  -- A list is changed in place, and so is put back.
  unfoldable pub add_data : Str → DataItem F → M → M
  add_data key val m = sm.put key (sl.push_front_violently val (list_or_new (sm.get key m))) m

  unfoldable pub remove_data : Str → M → M
  remove_data key m = sm.remove key m

  head-take :
      (n : ℕ) (x : DataItem F) (xs : List (DataItem F)) → 0 < n → head? (take n (x ∷ xs)) ≡ some x
  head-take zero x xs h = absurd (omega (arith, h))
  head-take (suc n) x xs h = refl

  -- What `AddItem` was called with last is what `GetFirstItem` finds, for a list with room.
  get_first_item-add_data :
      (key : Str) (val : DataItem F) (m : M)
      → 0 < sl.max_size (list_or_new (sm.get key m))
      → get_first_item key (add_data key val m) ≡ some val
  unfolding get_first_item add_data
  get_first_item-add_data key val m h =
      let l = list_or_new (sm.get key m) in
      ap first_of (
        sm.get-put key key (sl.push_front_violently val l) m
        ∙ ap (λ b. if b then some (sl.push_front_violently val l) else sm.get key m) (==_refl key))
      ∙ ap head? (sl.push_front_violently_law val l)
      ∙ head-take (sl.max_size l) val (sl.front_all l) h
