-- ===== src/Transfer/Sender/Converted.antt =====
-- The form that a metric takes on its way to graph.
use native.Mathlib.Nat.{mod-le, div-add-mod}
use open_falcon.Prelude.{
  ℕ, ◌+◌, ◌-◌, ◌*◌, ◌/◌, ◌%◌, ◌^◌, ◌<◌, ◌≡◌, refl, ap, ◌∙◌, some, arith, inl, inr, ◌⊎◌,
  if◌then◌else◌, eq_str,
}
use open_falcon.Prelude.Int.{ℤ, pos, mul64, ltb_ℤ, sub64-pos, wrap64-eq, rem64}
use open_falcon.Prelude.Text.{Str, str}
use open_falcon.Graph.{GraphItem}
use open_falcon.Transfer.{MetaData}
use open_falcon.Transfer.Sender.{align_ts, step_of, convert2_graph_item}

align_ts-pos : (ts step : ℕ) → ts < 2 ^ 63 → align_ts (pos ts) (pos step) ≡ pos (ts - ts % step)
unfolding align_ts rem64
align_ts-pos ts step a = rw (plus_zero step) (sub64-pos ts (ts % step) (mod-le ts step) a)
  where
    plus_zero : (n : ℕ) → n + 0 ≡ n
    plus_zero n = omega arith

aligned_multiple : (ts step : ℕ) → ts - ts % step ≡ (ts / step) * step
aligned_multiple ts step = grind (arith, div-add-mod ts step, mod-le ts step)

mul64-two : (a : ℕ) → 2 * a < 2 ^ 63 → mul64 2 (pos a) ≡ pos (2 * a)
mul64-two a h = ground (arith, wrap64-eq (pos (2 * a)))

-- The greater of the step of a metric and of the least one.
abbrev pub step_at_least : ℕ → ℕ → ℕ
step_at_least min_step step = if ltb_ℤ (pos step) (pos min_step) then min_step else step

step_of-pos :
    (min_step step : ℕ) → step_of (pos min_step) (pos step) ≡ pos (step_at_least min_step step)
unfolding step_of
step_of-pos min_step step = ground arith

-- The three types that graph and judge know.
abbrev pub IsCounterType : Str → Type 0
IsCounterType type = (type ≡ str "GAUGE") ⊎ ((type ≡ str "COUNTER") ⊎ (type ≡ str "DERIVE"))

-- The types of data in rrd files.
abbrev pub IsDsType : Str → Type 0
IsDsType type = (type ≡ str "GAUGE") ⊎ (type ≡ str "DERIVE")

module _ {F : Type 0} where
  -- What rrdtool asks of an item that comes of a metric with a step and a time.
  pub record IsFit (min_step step ts : ℕ) (d : MetaData F) (item : GraphItem F) : Type 0 where
    pub known : IsDsType item.ds_type
    pub stepped : item.step ≡ pos (step_at_least min_step step)
    pub patient : item.heartbeat ≡ pos (2 * step_at_least min_step step)
    pub aligned :
        item.timestamp ≡ pos (ts / step_at_least min_step step * step_at_least min_step step)
    pub same_endpoint : item.endpoint ≡ d.endpoint
    pub same_metric : item.metric ≡ d.metric
    pub same_tags : item.tags ≡ d.tags
    pub same_value : item.value ≡ d.value

  convert-known :
      (min_step : ℤ) (d : MetaData F)
      → IsCounterType d.counter_type
      → (item : GraphItem F) × (convert2_graph_item min_step d ≡ some item)
        × IsDsType item.ds_type
        × (item.step ≡ step_of min_step d.step)
        × (item.heartbeat ≡ mul64 2 (step_of min_step d.step))
        × (item.timestamp ≡ align_ts d.timestamp (step_of min_step d.step))
        × (item.endpoint ≡ d.endpoint)
        × (item.metric ≡ d.metric)
        × (item.tags ≡ d.tags)
        × (item.value ≡ d.value)
  unfolding convert2_graph_item
  convert-known min_step d (inl e) =
      rw e (_, refl, inl refl, refl, refl, refl, refl, refl, refl, refl)
  convert-known min_step d (inr (inl e)) =
      rw e (_, refl, inr refl, refl, refl, refl, refl, refl, refl, refl)
  convert-known min_step d (inr (inr e)) =
      rw e (_, refl, inr refl, refl, refl, refl, refl, refl, refl, refl)

  -- A metric of a known type, with times that are no overflow, has a form for graph: of a type of rrd,
  -- with a step of at least the least one, a heartbeat of two steps and a time cut to whole steps;
  -- the rest is as it came.
  pub convert2_graph_item-IsFit :
      (min_step step ts : ℕ) (d : MetaData F)
      → d.step ≡ pos step
      → d.timestamp ≡ pos ts
      → ts < 2 ^ 63
      → 2 * step_at_least min_step step < 2 ^ 63
      → IsCounterType d.counter_type
      → (item : GraphItem F) × (convert2_graph_item (pos min_step) d ≡ some item)
        × IsFit min_step step ts d item
  convert2_graph_item-IsFit min_step step ts d e1 e2 a b k =
      let (item, q, known, s, h, t, p1, p2, p3, p4) = convert-known (pos min_step) d k in
      let s' = ap (step_of (pos min_step)) e1 ∙ step_of-pos min_step step in
      (
        item,
        q,
        record {
          known = known;
          stepped = s ∙ s';
          patient = h ∙ ap (mul64 2) s' ∙ mul64-two (step_at_least min_step step) b;
          aligned =
              t
              ∙ ap (align_ts d.timestamp) s'
              ∙ ap (λ x. align_ts x (pos (step_at_least min_step step))) e2
              ∙ align_ts-pos ts (step_at_least min_step step) a
              ∙ ap pos (aligned_multiple ts (step_at_least min_step step));
          same_endpoint = p1;
          same_metric = p2;
          same_tags = p3;
          same_value = p4;
        },
      )
