-- ===== src/Graph/Query.antt =====
-- modules/graph/api/graph.go, Query: the answer to a query of one counter, made of the points that
-- the rrd file holds and of the cached ones that are newer. `math.NaN()` is the parameter `nan`, and
-- `math.IsNaN` is `is_nan`. `none` is a panic, or a loop that does not end.
pub mod Loops
pub mod Junction
pub mod Origin
pub mod Answer
pub mod Steps
pub mod Shown
pub mod Gauge
use open_falcon.Prelude.{
  ℕ, zero, suc, ◌+◌, ◌-◌, Bool, true, false, ◌&&◌, ◌||◌, List, [], ◌∷◌, ◌++◌, Option, none, some,
  ◌>>=◌, length, get_elem?, if◌then◌else◌, ltb, ◌==◌, eq_str, filter,
}
use open_falcon.Prelude.Int.{
  ℤ, pos, negsuc, pos_part, ◌-ℤ◌, add64, sub64, quot64, ltb_ℤ, leb_ℤ, int_eq,
}
use open_falcon.Prelude.Text.{Str, str}
use open_falcon.Float.{Float}
use open_falcon.Graph.{GraphItem, RrdData}
use open_falcon.Graph.Store.{set_elem}

-- The rounds that a loop from `ts` up to `last` can need.
abbrev pub rounds : ℤ → ℤ → ℕ
rounds ts last = pos_part (last -ℤ ts) + 2

abbrev pub window : ℤ → ℤ → ℤ → Bool
window start_ts end_ts ts = leb_ℤ start_ts ts && leb_ℤ ts end_ts

module _ {F : Type 0} ⦃fl : Float F⦄ (nan : F) (step : ℤ) where
  -- `val` and what is left of the items, for a counter: the rate to the next item.
  unfoldable pub rate_point : ℤ → List (GraphItem F) → F × List (GraphItem F)
  rate_point ts [] = (nan, [])
  rate_point ts (x ∷ []) = (nan, x ∷ [])
  rate_point ts (x ∷ y ∷ rest) =
      if int_eq ts x.timestamp
      then (
        if int_eq ts (sub64 y.timestamp step) && fl.le x.value y.value
            then fl.div (fl.sub y.value x.value) (fl.of_int step)
            else nan,
        y ∷ rest,
      )
      else (nan, x ∷ y ∷ rest)

module _ {F : Type 0} where
  -- The same for a gauge: the value itself.
  unfoldable pub gauge_point : F → ℤ → List (GraphItem F) → F × List (GraphItem F)
  gauge_point nan ts [] = (nan, [])
  gauge_point nan ts (x ∷ rest) = if int_eq ts x.timestamp then (x.value, rest) else (nan, x ∷ rest)

  -- The two loops that make points of the cached items, one for each step from the first item on.
  module _ (step : ℤ) (point : ℤ → List (GraphItem F) → F × List (GraphItem F)) (more : ℤ → Bool)
      (start_ts end_ts : ℤ) where
    unfoldable pub cache_loop : ℕ → ℤ → List (GraphItem F) → Option (List (RrdData F))
    cache_loop zero ts items = none
    cache_loop (suc fuel) ts items =
        let r = point ts items in
        let rest = cache_loop fuel (add64 ts step) r.1 in
        if more ts
        then (rest >>= λ cache. some (
            if window start_ts end_ts ts
            then record { timestamp = ts; value = r.0 } ∷ cache
            else cache))
        else some []

  -- The last of the first `k` points that is before `ts`: the index behind it, and its time.
  unfoldable pub junction : ℤ → ℕ → List (RrdData F) → Option (ℕ × ℤ)
  junction ts zero merged = some (0, ts)
  junction ts (suc k) merged = get_elem? merged k >>= λ d.
      if ltb_ℤ d.timestamp ts then some (suc k, d.timestamp) else junction ts k merged

  -- The cached points from the junction on; what rrd has stays where the cache has a gap.
  unfoldable pub overlay :
      (F → Bool) → ℕ → ℕ → List (RrdData F) → List (RrdData F) → Option (List (RrdData F))
  unfolding set_elem
  overlay is_nan size idx [] merged = some merged
  overlay is_nan size idx (c ∷ cache) merged =
      let skip = overlay is_nan size (suc idx) cache merged in
      let replace = set_elem idx c merged >>= λ m. overlay is_nan size (suc idx) cache m in
      let append = overlay is_nan size (suc idx) cache (merged ++ c ∷ []) in
      if ltb idx size then if is_nan c.value then skip else replace else append

  module _ (nan : F) (step : ℤ) where
    -- Gaps from `ts` up to the first cached point.
    unfoldable pub fix_missing : ℤ → ℕ → ℤ → List (RrdData F) → Option (List (RrdData F))
    fix_missing last zero ts merged = none
    fix_missing last (suc fuel) ts merged =
        let rest =
          fix_missing last fuel (add64 ts step)
            (merged ++ record { timestamp = ts; value = nan } ∷ []) in
        if ltb_ℤ ts last then rest else some merged

    unfoldable pub merge_cache :
        (F → Bool) → List (RrdData F) → List (RrdData F) → Option (List (RrdData F))
    unfolding junction fix_missing overlay
    merge_cache is_nan [] merged = some merged
    merge_cache is_nan (c ∷ cache) merged = junction c.timestamp (length merged) merged >>= λ r.
        fix_missing c.timestamp (rounds (add64 r.1 step) c.timestamp) (add64 r.1 step) merged
        >>= λ fixed. overlay is_nan (length merged) r.0 (c ∷ cache) fixed

    -- The loop that formats the result: a point for each step, and a gap where none has its time.
    unfoldable pub format_result : ℕ → ℤ → List (RrdData F) → List (RrdData F)
    format_result zero ts merged = []
    format_result (suc n) ts [] =
        record { timestamp = ts; value = nan } ∷ format_result n (add64 ts step) []
    format_result (suc n) ts (d ∷ merged) =
        let hit = format_result n (add64 ts step) merged in
        let miss = format_result n (add64 ts step) (d ∷ merged) in
        if int_eq ts d.timestamp then d ∷ hit else record { timestamp = ts; value = nan } ∷ miss

-- A negative size is a panic of `make`.
abbrev size_of : ℤ → Option ℕ
size_of (pos k) = some k
size_of (negsuc k) = none

unfoldable pub ret_size : ℤ → Str → ℤ → ℤ → Option ℕ
ret_size step ds_type start_ts end_ts =
    let n = quot64 (sub64 end_ts start_ts) step in
    size_of (if ds_type == str "GAUGE" then add64 n (pos 1) else n)

module _ {F : Type 0} ⦃fl : Float F⦄ (nan : F) (step : ℤ) where
  -- `cache`, by the type of the counter, for items from the time `first` to `last`.
  unfoldable pub format_cache : Str → ℤ → ℤ → ℤ → ℤ → List (GraphItem F) → Option (List (RrdData F))
  unfolding cache_loop rate_point gauge_point
  format_cache ds_type start_ts end_ts first last items =
      let fuel = rounds first last in
      if ds_type == str "DERIVE" || ds_type == str "COUNTER"
      then cache_loop step (rate_point nan step) (λ ts. ltb_ℤ ts last) start_ts end_ts fuel first
          items
      else if ds_type == str "GAUGE"
      then cache_loop step (gauge_point nan) (λ ts. leb_ℤ ts last) start_ts end_ts fuel first items
      else some []

  -- From `merge` on, for items of which there is at least one.
  unfoldable pub merge :
      (F → Bool) → Str → ℤ → ℤ → List (RrdData F) → List (GraphItem F) → Option (List (RrdData F))
  unfolding format_cache merge_cache format_result ret_size
  merge is_nan ds_type start_ts end_ts datas items = get_elem? items 0 >>= λ first.
      get_elem? items (length items - 1) >>= λ last.
      format_cache ds_type start_ts end_ts first.timestamp last.timestamp items >>= λ cache.
      merge_cache nan step is_nan cache (filter (λ d. window start_ts end_ts d.timestamp) datas)
      >>= λ merged. ret_size step ds_type start_ts end_ts >>= λ n.
          some (format_result nan step n start_ts merged)
