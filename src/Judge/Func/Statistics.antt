-- ===== src/Judge/Func/Statistics.antt =====
-- common/utils/statistics.go.
use open_falcon.Prelude.{List, [], ◌∷◌, map, length}
use open_falcon.Prelude.Int.{pos}
use open_falcon.Float.{Float}

module _ {F : Type 0} ⦃fl : Float F⦄ where
  abbrev pub zero_float : F
  zero_float = fl.of_int (pos 0)

  unfoldable pub sum_from : F → List F → F
  sum_from sum [] = sum
  sum_from sum (value ∷ values) = sum_from (fl.add sum value) values

  unfoldable pub compute_mean : List F → F
  unfolding sum_from
  compute_mean values = fl.div (sum_from zero_float values) (fl.of_int (pos (length values)))

  unfoldable pub compute_std_deviation : List F → F
  unfolding compute_mean
  compute_std_deviation values =
      let mean = compute_mean values in
      let vp = map (λ v. fl.mul (fl.sub v mean) (fl.sub v mean)) values in fl.sqrt (compute_mean vp)
