-- ===== src/Graph/CacheKey.antt =====
-- modules/graph/g/utils.go: the keys under which the points are cached.
use open_falcon.Prelude.{
  ◌-◌, ◌^◌, ◌≡◌, refl, List, [], ◌∷◌, ◌++◌, Option, none, some, arith, ◌>>=◌, if◌then◌else◌, ◌&&◌,
  All,
}
use open_falcon.Prelude.Int.{ℤ, pos, negsuc, leb_ℤ, ◌≤ℤ◌}
use open_falcon.Prelude.Text.{Str, slice, split, atoi, itoa}
use open_falcon.Prelude.Text.Decimal.{IsNumeral, itoa-All, atoi-itoa}
use open_falcon.Prelude.Text.Separators.{Lacks, split-Lacks, split-append}

-- `strconv.ParseInt(s, 10, 32)`.
unfoldable pub parse_int_32 : Str → Option ℤ
parse_int_32 s = atoi s >>= λ n.
    if leb_ℤ (negsuc (2 ^ 31 - 1)) n && leb_ℤ n (pos (2 ^ 31 - 1)) then some n else none

-- The panic of `md5[0:2]` is `none`.
unfoldable pub rrd_file_name : Str → Str → Str → ℤ → Option Str
rrd_file_name base_dir md5 ds_type step = slice md5 (pos 0) (pos 2) >>= λ p. some (
    base_dir
    ++ b'/'
      ∷ (p
          ++ b'/'
            ∷ (md5 ++ b'_' ∷ (ds_type ++ b'_' ∷ (itoa step ++ b'.' ∷ b'r' ∷ b'r' ∷ b'd' ∷ [])))))

unfoldable pub form_rrd_cache_key : Str → Str → ℤ → Str
form_rrd_cache_key md5 ds_type step = md5 ++ b'_' ∷ (ds_type ++ b'_' ∷ itoa step)

-- Of three parts the last is a number; `none` is an error.
abbrev pub three_parts : List Str → Option (Str × Str × ℤ)
three_parts (md5 ∷ ds_type ∷ step ∷ []) = parse_int_32 step >>= λ n. some (md5, ds_type, n)
three_parts _ = none

unfoldable pub split_rrd_cache_key : Str → Option (Str × Str × ℤ)
split_rrd_cache_key ckey = three_parts (split b'_' ckey)

numeral-Lacks : (s : Str) → All IsNumeral s → Lacks b'_' s
numeral-Lacks [] a = tt
numeral-Lacks (c ∷ s) a = (ground arith, numeral-Lacks s a.1)

abbrev pub IsInt32 : ℤ → Type 0
IsInt32 n = (negsuc (2 ^ 31 - 1) ≤ℤ n) × (n ≤ℤ pos (2 ^ 31 - 1))

parse_int_32-itoa : (n : ℤ) → IsInt32 n → parse_int_32 (itoa n) ≡ some n
unfolding parse_int_32
parse_int_32-itoa (pos n) h = rw (atoi-itoa (pos n) (omega arith)) (ground arith)
parse_int_32-itoa (negsuc n) h = rw (atoi-itoa (negsuc n) (omega arith)) (ground arith)

-- `SplitRrdCacheKey` reads back what `FormRrdCacheKey` joined, for an md5 and a type without an
-- underscore and a step of 32 bits.
pub split-form_rrd_cache_key :
    (md5 ds_type : Str) (step : ℤ)
    → Lacks b'_' md5
    → Lacks b'_' ds_type
    → IsInt32 step
    → split_rrd_cache_key (form_rrd_cache_key md5 ds_type step) ≡ some (md5, ds_type, step)
unfolding split_rrd_cache_key form_rrd_cache_key
split-form_rrd_cache_key md5 ds_type step a b c =
    rw
      (
        split-append b'_' md5 (ds_type ++ b'_' ∷ itoa step) a,
        split-append b'_' ds_type (itoa step) b,
        split-Lacks b'_' (itoa step) (numeral-Lacks (itoa step) (itoa-All step)),
        parse_int_32-itoa step c,
      )
      refl
