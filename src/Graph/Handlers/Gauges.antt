-- ===== src/Graph/Handlers/Gauges.antt =====
-- What Query replies for a gauge of which the cache alone has points.
use native.Mathlib.Nat.{div-add-mod, mod-le, mod-lt}
use open_falcon.Prelude.{
  ℕ, suc, ◌+◌, ◌-◌, ◌*◌, ◌/◌, ◌^◌, ◌≤◌, ◌<◌, ◌≡◌, refl, ap, ◌∙◌, Bool, false, List, [], ◌∷◌, Option,
  some, arith, length, nat_eq, filter, bind_some,
}
use open_falcon.Prelude.Int.{ℤ, pos, sub64, sub64-pos, ltb_ℤ, int_eq}
use open_falcon.Prelude.Text.{Str, str}
use open_falcon.Float.{Float}
use open_falcon.Model.Tags.{pk2}
use open_falcon.Graph.{GraphItem, RrdData}
use open_falcon.Graph.CacheKey.{form_rrd_cache_key, rrd_file_name}
use open_falcon.Graph.Store.{fetch_all}
use open_falcon.Graph.Index.{get_type_and_step}
use open_falcon.Graph.Api.{Env, GraphState}
use open_falcon.Graph.Query.{window}
use open_falcon.Graph.Query.Steps.{time, Ascends, values_from, steps_mono}
use open_falcon.Graph.Query.Gauge.{merge-values_from}
use open_falcon.Graph.Handlers.{
  GraphQueryParam, empty_response, rra1_start_ts, start_of, end_of, fetched, reply, query_known,
  query,
}
use open_falcon.Graph.Handlers.Replies.{
  from, until, start_of-pos, end_of-pos, query_values-steps, query-known,
}

from-steps : (start step : ℕ) → from start step ≡ start / step * step
from-steps start step = omega (arith, div-add-mod start step)

until-steps : (end step : ℕ) → until end step ≡ suc (end / step) * step
until-steps end step =
    let next : (a : ℕ) → a * step + step ≡ suc a * step = λ a. grind arith in
    omega (arith, div-add-mod end step, next (end / step))

module _ {F : Type 0} ⦃fl : Float F⦄ (nan : F) (is_nan : F → Bool) (now : ℤ) (env : Env)
    (fetch : Str → Str → Str → ℤ → ℤ → ℤ → List (RrdData F))
    (remote : GraphQueryParam → List (RrdData F)) (param : GraphQueryParam) (step : ℕ) where
  abbrev pub sum_of : Str
  sum_of = env.md5 (pk2 param.endpoint param.counter)

  -- The data for the window from `k` to `q` steps, of which none is in it.
  abbrev pub HasNothing : Str → ℕ → ℕ → ℕ → Type 0
  HasNothing filename flag k q =
      filter (λ d. window (time step k) (time step q) d.timestamp)
        (fetched env fetch remote param filename sum_of (time step k) (time step q) (pos step) flag)
      ≡ []

  query_known-values_from :
      {M : Type 0} (st : GraphState F M) (k q flag : ℕ) (x : GraphItem F)
      (rest : List (GraphItem F)) (filename : Str)
      → rrd_file_name env.storage sum_of (str "GAUGE") (pos step) ≡ some filename
      → fetch_all env.crc32 (form_rrd_cache_key sum_of (str "GAUGE") (pos step)) st.items
        ≡ some (x ∷ rest, flag)
      → Ascends step 0 (x ∷ rest)
      → HasNothing filename flag k q
      → ltb_ℤ (time step k) (rra1_start_ts now (pos step)) ≡ false
      → 0 < step
      → suc k < q
      → q * step + step + step < 2 ^ 63
      → query_known nan is_nan now env fetch remote param
          (str "GAUGE")
          (pos step)
          (time step k)
          (time step q)
          st.items
        ≡ some (record (empty_response param (str "GAUGE") (pos step)) {
          values = values_from nan step k (suc (q - k)) (x ∷ rest);
        })
  unfolding query_known reply
  query_known-values_from st k q flag x rest filename file there up nothing recent z lt b =
      let nonzero : int_eq (pos step) (pos 0) ≡ false = ground arith in
      let le : k * step + step + step ≤ q * step =
        grind (arith, steps_mono step (suc (suc k)) q lt) in
      let long : ltb_ℤ (pos (q * step - k * step - step)) (pos 1) ≡ false = ground (arith, le, z) in
      let more : ltb_ℤ (sub64 (sub64 (time step q) (time step k)) (pos step)) (pos 1) ≡ false =
        rw
          (
            sub64-pos (q * step) (k * step) (omega (arith, le)) (omega (arith, b)),
            sub64-pos (q * step - k * step) step (omega (arith, le)) (omega (arith, b)),
          )
          long in
      let some_there : nat_eq (length (x ∷ rest)) 0 ≡ false = ground arith in
      rw (nonzero, more)
        (bind_some _
          (query_values-steps nan is_nan now env fetch remote param (str "GAUGE") step st.items
            (time step k) (time step q) file there
            (rw (recent, some_there)
              (merge-values_from nan step k q z b is_nan
                (fetched env fetch remote param filename sum_of (time step k) (time step q)
                  (pos step) flag)
                x rest 0 (omega arith) up nothing)))
          refl)

  -- Query, for a gauge with a positive step and for a window that begins no earlier than what the
  -- finest archive holds and ends in a later step than it begins in, answers exactly what is cached of
  -- the counter, where points are cached and none of the data that are fetched is in the window, as
  -- while the counter has no file yet: for each time of whole steps from the one at or before `start`
  -- to the one behind `end`, in their order, the value of the cached point with that time, or a gap if
  -- there is none. The cached points are at times of whole steps that are not negative, each later than
  -- the one before it, and from each a step more is below 2^63, as are three steps more from `end`.
  pub query-values_from :
      {M : Type 0} (endpoint_id : Str → Option ℤ) (counter_of : ℤ → Str → Option (Str × ℤ))
      (st : GraphState F M) (start end flag : ℕ) (x : GraphItem F) (rest : List (GraphItem F))
      (filename : Str)
      → get_type_and_step env.md5 endpoint_id counter_of param.endpoint param.counter st.index
        ≡ some (str "GAUGE", pos step)
      → rrd_file_name env.storage sum_of (str "GAUGE") (pos step) ≡ some filename
      → fetch_all env.crc32 (form_rrd_cache_key sum_of (str "GAUGE") (pos step)) st.items
        ≡ some (x ∷ rest, flag)
      → Ascends step 0 (x ∷ rest)
      → HasNothing filename flag (start / step) (suc (end / step))
      → ltb_ℤ (time step (start / step)) (rra1_start_ts now (pos step)) ≡ false
      → 0 < step
      → param.start ≡ pos start
      → param.end ≡ pos end
      → start / step < end / step
      → end + step + step + step < 2 ^ 63
      → query nan is_nan now env fetch remote endpoint_id counter_of param st
        ≡ some (record (empty_response param (str "GAUGE") (pos step)) {
          values =
              values_from nan step
                (start / step)
                (suc (suc (end / step) - start / step))
                (x ∷ rest);
        })
  query-values_from endpoint_id counter_of st start end flag x rest filename known file there up
        nothing recent z p1 p2 lt b =
      let le = steps_mono step (suc (start / step)) (end / step) lt in
      let start_le : start ≤ end =
        grind (arith, le, div-add-mod start step, div-add-mod end step, mod-lt start z) in
      let r1 =
        ap (λ x. start_of x (pos step)) p1
        ∙ start_of-pos start step (omega (arith, start_le, b))
        ∙ ap pos (from-steps start step) in
      let r2 =
        ap (λ x. end_of x (pos step)) p2
        ∙ end_of-pos end step (omega arith)
        ∙ ap pos (until-steps end step) in
      query-known nan is_nan now env fetch remote param (str "GAUGE") step st.items endpoint_id
        counter_of st known refl r1 r2
      ∙ query_known-values_from st (start / step) (suc (end / step)) flag x rest filename file there
          up nothing recent z (omega (arith, lt))
          (omega (arith, until-steps end step, mod-le end step, b))
