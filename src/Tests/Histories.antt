-- ===== src/Tests/Histories.antt =====
-- Witnesses of what is proved of the history of all counters.
use open_falcon.Prelude.{◌≡◌, refl, subst, sym, [], ◌∷◌, none, some, arith, eq_str}
use open_falcon.Prelude.Int.{ℤ, pos, sub64}
use open_falcon.Prelude.Text.{str, slice, itoa}
use open_falcon.Prelude.Maps.{lookup}
use open_falcon.Float.{fixed_point}
use open_falcon.Judge.Events.{Alarms}
use open_falcon.Judge.Events.Invariant.{IsSound}
use open_falcon.Judge.Func.{all_function, max_function}
use open_falcon.Judge.Func.Parse.{parse_func_from_string}
use open_falcon.Judge.Func.Parse.Spelling.{parse-show}
use open_falcon.Judge.Check.{judge}
use open_falcon.Judge.Check.Total.{IsSafe, RulesAreSafe, judge-Returns}
use open_falcon.Judge.History.{
  JudgeItemMap, HistoryBigMap, clean_stale, init_history_big_map, send, clean_all, prefixes,
}
use open_falcon.Judge.History.Clean.{lookup-clean_stale}
use open_falcon.Judge.History.Send.{HashesToHex, send-IsHistory}
use open_falcon.Judge.History.Shards.{IsHistory, init_history_big_map-IsHistory}
use open_falcon.Judge.History.Cleaned.{Cleaned, clean_all-Cleaned}
use open_falcon.Tests.{hash, whole, item, items, rules, strategy, expression}

abbrev calm : Alarms ℤ
calm = record { last_events = []; pushed = [] }

hash-HashesToHex : HashesToHex hash
unfolding slice
hash-HashesToHex x = (str "0a", ground arith, refl)

strategy-IsSafe :
    IsSafe (parse_func_from_string strategy.func strategy.operator strategy.right_value)
unfolding itoa
strategy-IsSafe =
    subst IsSafe (sym (parse-show (all_function (pos 2) (str ">") (whole 3)) (omega arith)))
      (omega arith)

expression-IsSafe :
    IsSafe (parse_func_from_string expression.func expression.operator expression.right_value)
unfolding itoa
expression-IsSafe =
    subst IsSafe (sym (parse-show (max_function (pos 2) (str ">") (whole 8)) (omega arith)))
      (omega arith)

rules-RulesAreSafe : RulesAreSafe rules
rules-RulesAreSafe = record {
  strategies = (((strategy-IsSafe, omega arith), tt), tt);
  expressions =
      (((expression-IsSafe, omega arith), tt), (((expression-IsSafe, omega arith), tt), tt));
}

judge-Returns_example :
    (st : Alarms ℤ) × (judge hash (pos 300) (pos 200) rules items (item 180 7) calm ≡ some st)
    × IsSound st
judge-Returns_example =
    judge-Returns hash (pos 300) (pos 200) items (omega arith) (omega arith) rules (item 180 7) calm
      rules-RulesAreSafe tt

abbrev fresh : HistoryBigMap ℤ
fresh = init_history_big_map []

send-IsHistory_example :
    (r : HistoryBigMap ℤ × Alarms ℤ) × (send hash
        (pos 300)
        (pos 200)
        rules
        (some (item 60 4) ∷ some (item 120 9) ∷ [])
        (pos 11)
        fresh
        calm
      ≡ some r)
    × IsHistory hash (pos 300) (pos 200) 11 r.0
    × IsSound r.1
send-IsHistory_example =
    send-IsHistory hash (pos 300) (pos 200) rules rules-RulesAreSafe 11 (omega arith) (omega arith)
      hash-HashesToHex (some (item 60 4) ∷ some (item 120 9) ∷ []) fresh calm
      (omega arith, (omega arith, tt)) (init_history_big_map-IsHistory hash (pos 300) (pos 200) 11)
      tt

abbrev two_counters : JudgeItemMap ℤ
two_counters = (str "0a1", item 60 4 ∷ []) ∷ (str "0a2", items) ∷ []

lookup-clean_stale_example : lookup (str "0a1") (clean_stale (pos 100) two_counters) ≡ none
lookup-clean_stale_example =
    lookup-clean_stale (str "0a1") (pos 100) two_counters (refl, (refl, tt))

clean_all-Cleaned_example :
    (big : HistoryBigMap ℤ) × (clean_all (pos 1_000_000) fresh ≡ some big)
    × IsHistory hash (pos 300) (pos 1_000_000) 11 big
    × Cleaned prefixes (sub64 (pos 1_000_000) (pos 604_800)) fresh big
clean_all-Cleaned_example =
    clean_all-Cleaned hash (pos 300) (pos 1_000_000) 11 fresh
      (init_history_big_map-IsHistory hash (pos 300) (pos 1_000_000) 11)
