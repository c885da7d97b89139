-- ===== src/Nodata/Timestamps.antt =====
-- The time that a mock is for.
use native.Mathlib.Nat.{mod-lt, div-add-mod}
use open_falcon.Prelude.{
  ℕ, zero, suc, ◌+◌, ◌-◌, ◌*◌, ◌/◌, ◌%◌, ◌^◌, ◌≤◌, ◌<◌, ◌≡◌, ap, false, arith, eq_str,
}
use open_falcon.Prelude.Int.{mul64, pos, sub64-pos, wrap64-eq, ltb_ℤ}
use open_falcon.Nodata.{gen_ts}

mul64-two : (a : ℕ) → 2 * a < 2 ^ 63 → mul64 2 (pos a) ≡ pos (2 * a)
mul64-two a h = ground (arith, wrap64-eq (pos (2 * a)))

-- `genTs` gives a multiple of the step, from two steps up to three before now, for a positive step and
-- a time of at least three steps.
pub gen_ts-bounds :
    (now step : ℕ)
    → 0 < step
    → 3 * step ≤ now
    → now < 2 ^ 63
    → (k : ℕ) × (gen_ts (pos now) (pos step) ≡ pos (k * step))
      × (k * step + 2 * step ≤ now)
      × (now < k * step + 3 * step)
unfolding gen_ts
gen_ts-bounds now step a b c = by_quotient (now / step) (div-add-mod now step) (mod-lt now a)
  where
    by_quotient :
        (q : ℕ)
        → step * q + now % step ≡ now
        → now % step < step
        → (k : ℕ) × (gen_ts (pos now) (pos step) ≡ pos (k * step))
          × (k * step + 2 * step ≤ now)
          × (now < k * step + 3 * step)
    by_quotient zero e r = absurd (omega arith)
    by_quotient (suc zero) e r = absurd (omega arith)
    by_quotient (suc (suc k)) e r =
        let e' : k * step + 2 * step + now % step ≡ now = grind (arith, e) in
        let t : ltb_ℤ (pos step) (pos 1) ≡ false = ground arith in
        (
          k,
          rw
              (
                t,
                mul64-two step (omega arith),
                sub64-pos now (now % step) (omega arith) c,
                sub64-pos (now - now % step) (2 * step) (omega arith) (omega arith),
              )
              (ap pos (omega (arith, e'))),
          omega (arith, e'),
          omega (arith, e', r),
        )
