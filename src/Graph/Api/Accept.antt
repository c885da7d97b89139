-- ===== src/Graph/Api/Accept.antt =====
-- What the service has taken in after a call of Send.
use open_falcon.Prelude.{
  ℕ, ◌≡◌, refl, ap, ◌∙◌, Bool, true, false, List, [], ◌∷◌, Option, none, some, ◌>>=◌, arith, head?,
  inl, inr, Bool-cases, Option-cases, eq_str, bind_some,
}
use open_falcon.Prelude.Int.{ℤ, pos, leb_ℤ, ◌≤ℤ◌, ◌<ℤ◌}
use open_falcon.Prelude.Text.{Str, slice}
use open_falcon.Prelude.Maps.{Map, lookup}
use open_falcon.Float.{Float}
use open_falcon.Container.{SafeMap, SafeListLimited}
use open_falcon.Model.Tags.{counter, pk, pk2}
use open_falcon.Graph.{GraphItem, SafeLinkedList}
use open_falcon.Graph.CacheKey.{form_rrd_cache_key, rrd_file_name}
use open_falcon.Graph.LinkedList
use open_falcon.Graph.Store.{GraphItemMap, get, first}
use open_falcon.Graph.Store.Refine.{IsStore, get-returns}
use open_falcon.Graph.Store.Restore.{get-push_front}
use open_falcon.Graph.Index.{IndexCaches, receive_item, checksum}
use open_falcon.Graph.History.{is_newer, add_item, get_all_items, get_last_item}
use open_falcon.Graph.History.Latest.{IsLatest, add_item-IsLatest, get_last_item-add_item}
use open_falcon.Graph.Api.{
  Env, GraphState, is_missing, store_item, is_valid_item, handle_item, handle_items, get_last_raw,
}

-- What is relied on of md5: its digest has two characters for the name of a directory.
abbrev pub IsDigest : (Str → Str) → Type 0
IsDigest md5 = (s : Str) → (p : Str) × (slice (md5 s) (pos 0) (pos 2) ≡ some p)

pub rrd_file_name-returns :
    (storage sum ds_type : Str) (step : ℤ) (p : Str)
    → slice sum (pos 0) (pos 2) ≡ some p
    → (file : Str) × (rrd_file_name storage sum ds_type step ≡ some file)
unfolding rrd_file_name
rrd_file_name-returns storage sum ds_type step p e = (_, bind_some _ e refl)

receive_item-returns :
    {F : Type 0} (exist : Str → Bool) (storage : Str) (item : GraphItem F) (sum p : Str)
    (c : IndexCaches F)
    → slice sum (pos 0) (pos 2) ≡ some p
    → (c' : IndexCaches F) × (receive_item exist storage item sum c ≡ some c')
unfolding receive_item
receive_item-returns exist storage item sum p c e =
    let (file, q) = rrd_file_name-returns storage sum item.ds_type item.step p e in
    elim (Option-cases (lookup sum c.indexed)) [
      | inl new ↦ rw (new, receive_item) (_, bind_some _ q refl)
      | inr (old, known) ↦ rw (known, receive_item) (_, refl)
    ]

-- The counter of an item, as a query names it, has the item's checksum.
pk2-counter :
    (endpoint metric : Str) (tags : Map Str Str)
    → pk2 endpoint (counter metric tags) ≡ pk endpoint metric tags
unfolding pk2 counter pk
pk2-counter endpoint metric [] = refl
pk2-counter endpoint metric (kv ∷ tags) = refl

is_missing-returns :
    {F : Type 0} (env : Env) (item : GraphItem F) (sum p : Str)
    → slice sum (pos 0) (pos 2) ≡ some p
    → (b : Bool) × (is_missing env item sum ≡ some b)
unfolding is_missing
is_missing-returns env item sum p e =
    let (file, q) = rrd_file_name-returns env.storage sum item.ds_type item.step p e in
    elim (Bool-cases env.migrate) [
      | inl on ↦ rw on (_, bind_some _ q refl)
      | inr off ↦ rw off (false, refl)
    ]

first-get :
    {F : Type 0} (crc32 : Str → ℕ) (key : Str) (m : GraphItemMap F) (o : Option (SafeLinkedList F))
    → get crc32 key m ≡ some o
    → first crc32 key m ≡ some (o >>= λ l. LinkedList.front l)
unfolding first
first-get crc32 key m o e = bind_some _ e refl

-- The key of an item in the store.
abbrev pub key_of : {F : Type 0} → Env → GraphItem F → Str
key_of env item = form_rrd_cache_key (checksum env.md5 item) item.ds_type item.step

module _ {F L M : Type 0} (env : Env) (sm : SafeMap L M)
    (sl : SafeListLimited (GraphItem F) L) where
  pub record IsState (st : GraphState F M) : Type 0 where
    pub store : IsStore st.items
    pub latest : IsLatest sm sl st.history

  -- The state after an item that is taken in.
  pub record Stored (item : GraphItem F) (st st' : GraphState F M) : Type 0 where
    pub front : first env.crc32 (key_of env item) st'.items ≡ some (some item)
    pub history : st'.history ≡ add_item sm sl (checksum env.md5 item) item st.history

  store_item-Stored :
      (item : GraphItem F) (st : GraphState F M)
      → IsDigest env.md5
      → IsState st
      → (st' : GraphState F M) × (store_item env sm sl item st ≡ some st')
        × IsState st'
        × Stored item st st'
  unfolding store_item checksum
  store_item-Stored item st digest h =
      let sum = checksum env.md5 item in
      let (p, d) = digest (pk item.endpoint item.metric item.tags) in
      let (missing, q1) = is_missing-returns env item sum p d in
      let (o, g) = get-returns env.crc32 (key_of env item) st.items h.store in
      let (items, q2, is, f, _) =
        get-push_front env.crc32 (key_of env item) item missing st.items o h.store g in
      let (index, q3) =
        receive_item-returns env.is_rrd_file_exist env.storage item sum p st.index d in
      (
        record { items = items; index = index; history = add_item sm sl sum item st.history },
        bind_some _ q1 (bind_some _ q2 (bind_some _ q3 refl)),
        record { store = is; latest = add_item-IsLatest sm sl sum item st.history h.latest },
        record { front = f; history = refl },
      )

  -- What a call does with an item: nothing if it is nil, not valid or late, and else it is stored.
  pub data Handled (st : GraphState F M) : Option (GraphItem F) → GraphState F M → Type 0 where
    nil : Handled st none st
    invalid : (item : GraphItem F) → is_valid_item env item ≡ false → Handled st (some item) st
    late :
        (item first_item : GraphItem F)
        → first env.crc32 (key_of env item) st.items ≡ some (some first_item)
        → item.timestamp ≤ℤ first_item.timestamp
        → Handled st (some item) st
    taken :
        (item : GraphItem F) (st' : GraphState F M)
        → is_valid_item env item ≡ true
        → Stored item st st'
        → Handled st (some item) st'

  pub handle_item-Handled :
      (o : Option (GraphItem F)) (st : GraphState F M)
      → IsDigest env.md5
      → IsState st
      → (st' : GraphState F M) × (handle_item env sm sl o st ≡ some st')
        × IsState st'
        × Handled st o st'
  unfolding handle_item
  handle_item-Handled none st digest h = (st, refl, h, nil)
  handle_item-Handled (some item) st digest h = elim (Bool-cases (is_valid_item env item)) [
    | inr bad ↦ (st, rw bad refl, h, invalid item bad)
    | inl good ↦
        let (o, g) = get-returns env.crc32 (key_of env item) st.items h.store in
        let f = first-get env.crc32 (key_of env item) st.items o g in
        elim (Option-cases (o >>= λ l. LinkedList.front l)) [
          | inl no_first ↦
              let (st', q, h', r) = store_item-Stored item st digest h in
              (st', rw (good, f, no_first) q, h', taken item st' good r)
          | inr (x, has_first) ↦ elim (Bool-cases (leb_ℤ item.timestamp x.timestamp)) [
            | inl old ↦ (
              st,
              rw (good, f, has_first, old) refl,
              h,
              late item x (f ∙ ap some has_first) (ground (arith, old)),
            )
            | inr new ↦
                let (st', q, h', r) = store_item-Stored item st digest h in
                (st', rw (good, f, has_first, new) q, h', taken item st' good r)
          ]
        ]
  ]

  -- HandleItems, on a sound state, neither panics nor spoils it, whatever items arrive and in whatever
  -- order: nil pointers, invalid names and late points among them.
  pub handle_items-IsState :
      (items : List (Option (GraphItem F))) (st : GraphState F M)
      → IsDigest env.md5
      → IsState st
      → (st' : GraphState F M) × (handle_items env sm sl items st ≡ some st') × IsState st'
  unfolding handle_items
  handle_items-IsState [] st digest h = (st, refl, h)
  handle_items-IsState (item ∷ items) st digest h =
      let (st', q, h', _) = handle_item-Handled item st digest h in
      let (st'', q', h'') = handle_items-IsState items st' digest h' in
      (st'', bind_some _ q q', h'')

  answer :
      ⦃fl : Float F⦄ (st : GraphState F M) (item : GraphItem F) (st' : GraphState F M)
      → IsState st
      → Handled st (some item) st'
      → is_valid_item env item ≡ true
      → ((x : GraphItem F)
          → first env.crc32 (key_of env item) st.items ≡ some (some x)
          → x.timestamp <ℤ item.timestamp)
      → is_newer item.timestamp (head? (get_all_items sm sl (checksum env.md5 item) st.history))
        ≡ true
      → get_last_raw env sm sl item.endpoint (counter item.metric item.tags) st'
        ≡ record { timestamp = item.timestamp; value = item.value }
  unfolding get_last_raw checksum
  answer st item st' h (invalid _ bad) valid on_time newer = absurd (ground (arith, bad, valid))
  answer st item st' h (late _ x f le) valid on_time newer = absurd (omega (arith, le, on_time x f))
  answer st item st' h (taken _ _ _ r) valid on_time newer =
      ap (λ (x : GraphItem F). record { timestamp = x.timestamp; value = x.value })
        (ap (λ k. get_last_item sm sl (env.md5 k) st'.history)
            (pk2-counter item.endpoint item.metric item.tags)
          ∙ ap (get_last_item sm sl (checksum env.md5 item)) r.history
          ∙ get_last_item-add_item sm sl (checksum env.md5 item) item st.history h.latest newer)

  -- After Send of a valid item that is newer than the first point of its key and than the last point of
  -- its counter, LastRaw answers its value and its time, asked for the counter as a user spells it.
  pub get_last_raw-handle_item :
      ⦃fl : Float F⦄ (item : GraphItem F) (st : GraphState F M)
      → IsDigest env.md5
      → IsState st
      → is_valid_item env item ≡ true
      → ((x : GraphItem F)
          → first env.crc32 (key_of env item) st.items ≡ some (some x)
          → x.timestamp <ℤ item.timestamp)
      → is_newer item.timestamp (head? (get_all_items sm sl (checksum env.md5 item) st.history))
        ≡ true
      → (st' : GraphState F M) × (handle_item env sm sl (some item) st ≡ some st')
        × (get_last_raw env sm sl item.endpoint (counter item.metric item.tags) st'
            ≡ record { timestamp = item.timestamp; value = item.value })
  get_last_raw-handle_item item st digest h valid on_time newer =
      let (st', q, _, r) = handle_item-Handled (some item) st digest h in
      (st', q, answer st item st' h r valid on_time newer)
