-- ===== src/Tests/Absence.antt =====
-- A counter that stays away for two rounds, and witnesses of what is proved of its mocks.
use open_falcon.Prelude.{ℕ, ◌+◌, ◌*◌, ◌≤◌, ◌<◌, ◌≡◌, refl, List, [], ◌∷◌, some, arith, eq_str}
use open_falcon.Prelude.Int.{ℤ, pos, wrap64, ◌+ℤ◌, ◌-ℤ◌}
use open_falcon.Container.{SafeMap, plain_map}
use open_falcon.Prelude.Text.{Str, str}
use open_falcon.Prelude.Maps.{Map}
use open_falcon.Float.{fixed_point}
use open_falcon.Nodata.{
  NodataStatus, NodataConfig, DataItem, Mock, okay, nodata, last_ts, turn_nodata, gen_ts,
  get_timeout, f_compare, gen_mock, time_out, judge_key,
}
use open_falcon.Nodata.Pace.{IsSpaced, Rounds, start, round, Rounds-IsSpaced}
use open_falcon.Nodata.Timestamps.{gen_ts-bounds}
use open_falcon.Tests.{whole}

abbrev table : SafeMap NodataStatus (Map Str NodataStatus)
table = plain_map

abbrev config : NodataConfig ℤ
config = record {
  id = pos 1;
  name = str "load";
  obj_type = str "host";
  endpoint = str "web1";
  metric = str "load";
  tags = [];
  type = str "GAUGE";
  step = pos 60;
  mock = whole 1;
}

-- Nothing new since 600.
abbrev stale : ℕ → DataItem ℤ
stale now = record { ts = pos 600; value = whole 5; f_status = okay; f_ts = pos now }

abbrev one_round : ℕ → Map Str NodataStatus × List (Mock ℤ) → Map Str NodataStatus × List (Mock ℤ)
one_round now st = judge_key table (λ k. some config) (λ k. some (stale now)) (pos now) (str "k") st

abbrev mocked : ℕ → ℕ → NodataStatus
mocked n now = record { key = str "k"; status = nodata; cnt = pos n; ts = pos now }

first_round :
    one_round 1000 ([], [])
    ≡ ((str "k", mocked 1 1000) ∷ [], gen_mock (gen_ts (pos 1000) (pos 60)) (str "k") config ∷ [])
unfolding judge_key time_out last_ts turn_nodata get_timeout f_compare wrap64 ◌+ℤ◌ ◌-ℤ◌
first_round = refl

-- Half a minute later it is too early, a minute later there is the next mock.
early_round :
    one_round 1030 ((str "k", mocked 1 1000) ∷ [], []) ≡ ((str "k", mocked 1 1000) ∷ [], [])
unfolding judge_key time_out last_ts turn_nodata get_timeout f_compare wrap64 ◌+ℤ◌ ◌-ℤ◌
early_round = refl

second_round :
    one_round 1060 ((str "k", mocked 1 1000) ∷ [], [])
    ≡ ((str "k", mocked 2 1060) ∷ [], gen_mock (gen_ts (pos 1060) (pos 60)) (str "k") config ∷ [])
unfolding judge_key time_out last_ts turn_nodata get_timeout f_compare wrap64 ◌+ℤ◌ ◌-ℤ◌
second_round = refl

step_of_config : (c : NodataConfig ℤ) → some config ≡ some c → c.step ≡ pos 60
step_of_config c e = cc e

away_twice-Rounds :
    Rounds ℤ table (str "k") 60 1060 ((str "k", mocked 2 1060) ∷ []) (1060 ∷ 1000 ∷ [])
away_twice-Rounds =
    round 1060 (λ k. some config) (λ k. some (stale 1060)) (str "k") [] _
      (round 1000 (λ k. some config) (λ k. some (stale 1000)) (str "k") [] _ (start refl)
        (omega arith) (omega arith) step_of_config first_round)
      (omega arith) (omega arith) step_of_config second_round

Rounds-IsSpaced_example : IsSpaced 60 (1060 ∷ 1000 ∷ [])
Rounds-IsSpaced_example = Rounds-IsSpaced ℤ table (str "k") 60 away_twice-Rounds

gen_ts-bounds_example :
    (k : ℕ) × (gen_ts (pos 1000) (pos 60) ≡ pos (k * 60))
    × (k * 60 + 2 * 60 ≤ 1000)
    × (1000 < k * 60 + 3 * 60)
gen_ts-bounds_example = gen_ts-bounds 1000 60 (omega arith) (omega arith) (omega arith)
