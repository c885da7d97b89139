-- ===== src/Transfer/Sender/Routing.antt =====
-- Which queue holds what after Push2JudgeSendQueue.
use open_falcon.Prelude.{
  ℕ, ◌≡◌, refl, sym, ap, ap₂, ◌∙◌, Bool, false, List, [], ◌∷◌, Option, none, some, length, inl, inr,
  Bool-cases, Option-cases, if◌then◌else◌, ltb, ◌==◌, eq_str, bind_some, list_eq_iff,
}
use open_falcon.Prelude.Int.{ℤ}
use open_falcon.Prelude.Text.{Str}
use open_falcon.Prelude.Maps.{Map, lookup, insert, lookup-insert}
use open_falcon.Container.{SafeListLimited}
use open_falcon.Model.{JudgeItem}
use open_falcon.Transfer.{MetaData}
use open_falcon.Transfer.Sender.{meta_pk, judge_item_of, push_judge, push2_judge_send_queue}

-- A queue as a list, with room for `size` elements: a full one refuses.
abbrev pub offered {ℓ} : {A : Type ℓ} → ℕ → A → List A → List A
offered size x xs = if ltb (length xs) size then x ∷ xs else xs

-- Whether a ring gives the node `n`.
abbrev pub is_node : Str → Option Str → Bool
is_node n none = false
is_node n (some node) = node == n

module _ {F L : Type 0} (sl : SafeListLimited (JudgeItem F) L) (get_node : Str → Option Str)
    (min_step : ℤ) where
  -- The queue of the node `n` after the items, one after the other: those that the ring gives to the
  -- node go in front, in the form for judge, as long as there is room.
  abbrev pub routed : Str → ℕ → List (MetaData F) → List (JudgeItem F) → List (JudgeItem F)
  routed n size [] xs = xs
  routed n size (item ∷ items) xs = routed n size items (
      if is_node n (get_node (meta_pk item))
      then offered size (judge_item_of min_step item) xs
      else xs)

  push_front-offered :
      (x : JudgeItem F) (q : L)
      → sl.front_all (sl.push_front x q).0 ≡ offered (sl.max_size q) x (sl.front_all q)
  push_front-offered x q =
      sl.push_front_law x q
      ∙ ap (λ b. if b then x ∷ sl.front_all q else sl.front_all q) (sl.push_front_room x q)

  -- Every node of the ring has a queue.
  abbrev pub IsCovered : Map Str L → Type 0
  IsCovered queues =
      (key node : Str) → get_node key ≡ some node → (q : L) × (lookup node queues ≡ some q)

  push_judge-steps :
      (item : MetaData F) (queues : Map Str L)
      → IsCovered queues
      → (queues' : Map Str L) × (push_judge sl get_node min_step item queues ≡ some queues')
        × IsCovered queues'
        × ((n : Str) (q : L)
            → lookup n queues ≡ some q
            → (q' : L) × (lookup n queues' ≡ some q')
              × (sl.max_size q' ≡ sl.max_size q)
              × (sl.front_all q' ≡ (
                  if is_node n (get_node (meta_pk item))
                  then offered (sl.max_size q) (judge_item_of min_step item) (sl.front_all q)
                  else sl.front_all q)))
  unfolding push_judge
  push_judge-steps item queues h = elim (Option-cases (get_node (meta_pk item))) [
    | inl lost ↦ (queues, rw (lost, push_judge) refl, h, λ n q e. (q, e, refl, rw lost refl))
    | inr (node, found) ↦
        let (q, e) = h (meta_pk item) node found in
        let pushed = (sl.push_front (judge_item_of min_step item) q).0 in
        (
          insert node pushed queues,
          rw (found, push_judge) (bind_some _ e refl),
          λ key m f. elim (Bool-cases (node == m)) [
            | inl same ↦ (pushed, lookup-insert node m pushed queues ∙ rw same refl)
            | inr other ↦
                let (qm, em) = h key m f in (qm, lookup-insert node m pushed queues ∙ rw other em)
          ],
          λ n qn en. elim (Bool-cases (node == n)) [
            | inl same ↦
                let here = sym (ap (λ k. lookup k queues) ((list_eq_iff node n).0 same)) ∙ e in
                let q_eq : q ≡ qn = cc (sym here ∙ en) in
                (
                  pushed,
                  lookup-insert node n pushed queues ∙ rw same refl,
                  sl.max_size-push_front (judge_item_of min_step item) q ∙ ap sl.max_size q_eq,
                  push_front-offered (judge_item_of min_step item) q
                      ∙ rw (found, same)
                          (ap
                            (λ x.
                              offered (sl.max_size x) (judge_item_of min_step item)
                                (sl.front_all x))
                            q_eq),
                )
            | inr other ↦
                (qn, lookup-insert node n pushed queues ∙ rw other en, refl, rw (found, other) refl)
          ],
        )
  ]

  -- Push2JudgeSendQueue does not panic where every node of the ring has a queue. Afterwards the queue of
  -- a node holds what it held and, in front of it and the latest first, each item that the ring gives
  -- to the node, in the form for judge, for as long as the queue has room.
  pub push2_judge_send_queue-routed :
      (items : List (MetaData F)) (queues : Map Str L)
      → IsCovered queues
      → (queues' : Map Str L) × (push2_judge_send_queue sl get_node min_step items queues
          ≡ some queues')
        × ((n : Str) (q : L)
            → lookup n queues ≡ some q
            → (q' : L) × (lookup n queues' ≡ some q')
              × (sl.front_all q' ≡ routed n (sl.max_size q) items (sl.front_all q)))
  unfolding push2_judge_send_queue
  push2_judge_send_queue-routed [] queues h = (queues, refl, λ n q e. (q, e, refl))
  push2_judge_send_queue-routed (item ∷ items) queues h =
      let (queues1, p1, h1, step) = push_judge-steps item queues h in
      let (queues2, p2, rest) = push2_judge_send_queue-routed items queues1 h1 in
      (
        queues2,
        bind_some _ p1 p2,
        λ n q e.
            let (q1, e1, m1, f1) = step n q e in
            let (q2, e2, f2) = rest n q1 e1 in
            (q2, e2, f2 ∙ ap₂ (λ size xs. routed n size items xs) m1 f1),
      )
