-- ===== src/Graph/Handlers/Replies.antt =====
-- What Query replies.
use native.Mathlib.Nat.{mod-le, mod-lt, div-add-mod}
use native.Mathlib.Decide.{dec_le}
use open_falcon.Prelude.{
  ℕ, ◌+◌, ◌-◌, ◌%◌, ◌^◌, ◌≤◌, ◌<◌, ◌≡◌, refl, ap, ap₂, ◌∙◌, ◌/◌, Bool, true, false, List, [],
  Option, none, some, arith, length, All, inl, inr, Bool-cases, ◌⊎◌, nat_eq, bind_some,
}
use open_falcon.Prelude.Int.{ℤ, pos, sub64, add64, rem64, ltb_ℤ, int_eq, sub64-pos, add64-pos}
use open_falcon.Prelude.Text.{Str}
use open_falcon.Float.{Float}
use open_falcon.Model.Tags.{pk2}
use open_falcon.Graph.{GraphItem, SafeLinkedList, RrdData}
use open_falcon.Graph.CacheKey.{form_rrd_cache_key, rrd_file_name}
use open_falcon.Graph.Store.{GraphItemMap, fetch_all, get}
use open_falcon.Graph.Store.Refine.{IsStore, get-returns}
use open_falcon.Graph.Index.{get_type_and_step}
use open_falcon.Graph.Api.{Env, GraphState}
use open_falcon.Graph.Api.Accept.{IsDigest, rrd_file_name-returns}
use open_falcon.Graph.Query.Origin.{Origin}
use open_falcon.Graph.Query.Answer.{IsTime, IsGrid, points_in, merge-Origin}
use open_falcon.Graph.Handlers.{
  GraphQueryParam, GraphQueryResponse, empty_response, start_of, end_of, rra1_start_ts, fetched,
  reply, query_known, query_values, query,
}

-- The window in whole steps.
abbrev pub from : ℕ → ℕ → ℕ
from start step = start - start % step

abbrev pub until : ℕ → ℕ → ℕ
until end step = end - end % step + step

pub start_of-pos :
    (start step : ℕ) → start < 2 ^ 63 → start_of (pos start) (pos step) ≡ pos (from start step)
unfolding rem64
start_of-pos start step a =
    rw (add_zero_lem step) (sub64-pos start (start % step) (mod-le start step) a)
  where
    add_zero_lem : (n : ℕ) → n + 0 ≡ n
    add_zero_lem n = omega arith

pub end_of-pos :
    (end step : ℕ) → end + step < 2 ^ 63 → end_of (pos end) (pos step) ≡ pos (until end step)
end_of-pos end step a =
    ap (λ x. add64 x (pos step)) (start_of-pos end step (omega arith))
    ∙ add64-pos (end - end % step) step (omega arith)

from_mono : (a b step : ℕ) → 0 < step → a ≤ b → from a step ≤ from b step
from_mono a b step h le = elim (dec_le (a / step) (b / step)) [
  | yes l ↦ grind (arith, div-add-mod a step, div-add-mod b step)
  | no g ↦ absurd (grind (arith, div-add-mod a step, div-add-mod b step, mod-lt b h))
]

one_step :
    (s e step : ℕ)
    → ltb_ℤ (sub64 (sub64 (pos e) (pos s)) (pos step)) (pos 1) ≡ true
    → s + step ≤ e
    → e + step + step < 2 ^ 63
    → e ≡ s + step
one_step s e step one b c =
    let two : sub64 (sub64 (pos e) (pos s)) (pos step) ≡ pos (e - s - step) =
      rw (sub64-pos e s (omega arith) (omega arith))
        (sub64-pos (e - s) step (omega arith) (omega arith)) in
    let one' : ltb_ℤ (pos (e - s - step)) (pos 1) ≡ true = rw two at one in
    let small : e - s - step < 1 = ground (arith, one') in omega (arith, small)

fetch_all-returns :
    {F : Type 0} (crc32 : Str → ℕ) (key : Str) (m : GraphItemMap F)
    → IsStore m
    → (r : List (GraphItem F) × ℕ) × (fetch_all crc32 key m ≡ some r)
unfolding fetch_all
fetch_all-returns {F = F} crc32 key m h = by_list (get-returns crc32 key m h)
  where
    by_list :
        (o : Option (SafeLinkedList F)) × (get crc32 key m ≡ some o)
        → (r : List (GraphItem F) × ℕ) × (fetch_all crc32 key m ≡ some r)
    by_list (none, e) = (([], 0), bind_some _ e refl)
    by_list (some l, e) = (_, bind_some _ e refl)

module _ {F : Type 0} ⦃fl : Float F⦄ (nan : F) (now : ℤ) (ds_type : Str) (step s e : ℕ)
    (datas : List (RrdData F)) (cached : List (GraphItem F)) where
  -- The values of a reply: those of the data, if the window begins before what the finest archive holds
  -- or nothing is cached; else a point for every step of the window, each of them a gap, or of the data,
  -- or of the cached items.
  pub data Replied (values : List (RrdData F)) : Type 0 where
    old : ltb_ℤ (pos s) (rra1_start_ts now (pos step)) ≡ true → values ≡ datas → Replied values
    uncached : length cached ≡ 0 → values ≡ datas → Replied values
    merged :
        ltb_ℤ (pos s) (rra1_start_ts now (pos step)) ≡ false
        → IsGrid step s (points_in step ds_type s e) values
        → All (Origin nan (pos step) datas cached) values
        → Replied values

module _ {F : Type 0} ⦃fl : Float F⦄ (nan : F) (is_nan : F → Bool) (now : ℤ) where
  reply-Replied :
      (ds_type : Str) (step s e : ℕ) (datas : List (RrdData F)) (cached : List (GraphItem F))
      → All (λ x. IsTime step x.timestamp) cached
      → 0 < step
      → s ≤ e
      → e + step + step < 2 ^ 63
      → (values : List (RrdData F)) × (reply nan is_nan now ds_type
            (pos step)
            (pos s)
            (pos e)
            datas
            cached
          ≡ some values)
        × Replied nan now ds_type step s e datas cached values
  unfolding reply
  reply-Replied ds_type step s e datas cached times a b c =
      elim (Bool-cases (ltb_ℤ (pos s) (rra1_start_ts now (pos step)))) [
        | inl before ↦ (datas, rw before refl, old before refl)
        | inr after ↦ elim (Bool-cases (nat_eq (length cached) 0)) [
          | inl none_there ↦
              (datas, rw (after, none_there) refl, uncached (ground (arith, none_there)) refl)
          | inr there ↦
              let (values, q, grid, origins) =
                merge-Origin nan step datas cached is_nan ds_type s e a b c (ground (arith, there))
                  times in
              (values, rw (after, there) q, merged after grid origins)
        ]
      ]

  module _ (env : Env) (fetch : Str → Str → Str → ℤ → ℤ → ℤ → List (RrdData F))
      (remote : GraphQueryParam → List (RrdData F)) (param : GraphQueryParam) (ds_type : Str)
      (step : ℕ) (m : GraphItemMap F) where
    abbrev sum : Str
    sum = env.md5 (pk2 param.endpoint param.counter)

    pub query_values-steps :
        (s e : ℤ) {filename : Str} {cached : List (GraphItem F) × ℕ} {r : Option (List (RrdData F))}
        → rrd_file_name env.storage sum ds_type (pos step) ≡ some filename
        → fetch_all env.crc32 (form_rrd_cache_key sum ds_type (pos step)) m ≡ some cached
        → reply nan is_nan now ds_type
            (pos step)
            s
            e
            (fetched env fetch remote param filename sum s e (pos step) cached.1)
            cached.0
          ≡ r
        → query_values nan is_nan now env fetch remote param ds_type (pos step) s e m ≡ r
    unfolding query_values
    query_values-steps s e a b c = bind_some _ a (bind_some _ b c)

    pub query-known :
        {M : Type 0} (endpoint_id : Str → Option ℤ) (counter_of : ℤ → Str → Option (Str × ℤ))
        (st : GraphState F M) {s e : ℤ}
        → get_type_and_step env.md5 endpoint_id counter_of param.endpoint param.counter st.index
          ≡ some (ds_type, pos step)
        → st.items ≡ m
        → start_of param.start (pos step) ≡ s
        → end_of param.end (pos step) ≡ e
        → query nan is_nan now env fetch remote endpoint_id counter_of param st
          ≡ query_known nan is_nan now env fetch remote param ds_type (pos step) s e m
    unfolding query
    query-known endpoint_id counter_of st known same a b =
        rw (known, query)
          (ap
              (λ x.
                query_known nan is_nan now env fetch remote param ds_type (pos step)
                  (start_of param.start (pos step)) (end_of param.end (pos step)) x)
              same
            ∙ ap₂
                (λ x y. query_known nan is_nan now env fetch remote param ds_type (pos step) x y m)
                a b)

    -- What `Query` replies for a window from `s` to `e`.
    abbrev pub Reply : ℕ → ℕ → GraphQueryResponse F → Type 0
    Reply s e resp =
        (resp.ds_type ≡ ds_type)
        × (resp.step ≡ pos step)
        × (((e ≡ s + step) × (resp.values ≡ []))
            ⊎ ((filename : Str) × (cached : List (GraphItem F) × ℕ) × (rrd_file_name env.storage sum
                    ds_type (pos step)
                  ≡ some filename)
                × (fetch_all env.crc32 (form_rrd_cache_key sum ds_type (pos step)) m ≡ some cached)
                × Replied nan now ds_type step s e
                    (fetched env fetch remote param filename sum (pos s) (pos e) (pos step)
                      cached.1)
                    cached.0 resp.values))

    -- The cached points of the counter have times from which a step more is still an int64.
    abbrev pub HasTimes : Type 0
    HasTimes =
        (r : List (GraphItem F) × ℕ)
        → fetch_all env.crc32 (form_rrd_cache_key sum ds_type (pos step)) m ≡ some r
        → All (λ x. IsTime step x.timestamp) r.0

    query_known-Reply :
        (s e : ℕ)
        → IsDigest env.md5
        → IsStore m
        → HasTimes
        → 0 < step
        → s + step ≤ e
        → e + step + step < 2 ^ 63
        → (resp : GraphQueryResponse F) × (query_known nan is_nan now env fetch remote param ds_type
              (pos step)
              (pos s)
              (pos e)
              m
            ≡ some resp)
          × Reply s e resp
    unfolding query_known
    query_known-Reply s e digest h times a b c =
        let nonzero : int_eq (pos step) (pos 0) ≡ false = ground arith in
        let (p, d) = digest (pk2 param.endpoint param.counter) in
        let (file, q1) = rrd_file_name-returns env.storage sum ds_type (pos step) p d in
        let (cached, q2) =
          fetch_all-returns env.crc32 (form_rrd_cache_key sum ds_type (pos step)) m h in
        let (values, q3, r) =
          reply-Replied ds_type step s e
            (fetched env fetch remote param file sum (pos s) (pos e) (pos step) cached.1) cached.0
            (times cached q2) a (omega arith) c in
        elim (Bool-cases (ltb_ℤ (sub64 (sub64 (pos e) (pos s)) (pos step)) (pos 1))) [
          | inl one ↦ (
            empty_response param ds_type (pos step),
            rw (nonzero, one) refl,
            (refl, refl, inl (one_step s e step one b c, refl)),
          )
          | inr more ↦ (
            record (empty_response param ds_type (pos step)) { values = values },
            rw (nonzero, more) (bind_some _ (query_values-steps (pos s) (pos e) q1 q2 q3) refl),
            (refl, refl, inr (file, cached, q1, q2, r)),
          )
        ]

    -- Query, for a counter with a type and a positive step and for a window that begins no later than it
    -- ends, neither panics nor runs on, where the times of the cached points are not negative and a
    -- step more is below 2^63, as are three steps more from the end of the window. If the window lies in
    -- one step the reply has no values. Otherwise nothing in it is made up: the values are the data that
    -- are fetched for the window in whole steps, or one point for every step, each a gap, a point of
    -- the data, a cached value at its own time or the rate between two cached values.
    query-Reply :
        {M : Type 0} (endpoint_id : Str → Option ℤ) (counter_of : ℤ → Str → Option (Str × ℤ))
        (st : GraphState F M) (start end : ℕ)
        → get_type_and_step env.md5 endpoint_id counter_of param.endpoint param.counter st.index
          ≡ some (ds_type, pos step)
        → st.items ≡ m
        → IsDigest env.md5
        → IsStore m
        → HasTimes
        → 0 < step
        → param.start ≡ pos start
        → param.end ≡ pos end
        → start ≤ end
        → end + step + step + step < 2 ^ 63
        → (resp : GraphQueryResponse F) × (query nan is_nan now env fetch remote endpoint_id
              counter_of param st
            ≡ some resp)
          × Reply (from start step) (until end step) resp
    query-Reply endpoint_id counter_of st start end known same digest h times a p1 p2 b c =
        let r1 = ap (λ x. start_of x (pos step)) p1 ∙ start_of-pos start step (omega arith) in
        let r2 = ap (λ x. end_of x (pos step)) p2 ∙ end_of-pos end step (omega arith) in
        let (resp, q, r) =
          query_known-Reply (from start step) (until end step) digest h times a
            (omega (arith, from_mono start end step a b)) (omega (arith, mod-le end step)) in
        (resp, query-known endpoint_id counter_of st known same r1 r2 ∙ q, r)
