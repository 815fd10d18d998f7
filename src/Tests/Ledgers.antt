-- ===== src/Tests/Ledgers.antt =====
-- The ledger of three events.
use ganker.Base.{string_dec, String, ◌≡◌, refl, List, [], ◌∷◌}
use ganker.Base.Int.{pos, ◌+ℤ◌}
use ganker.Base.Result.{ok}
use ganker.Base.Dict.{lookup, insert}
use ganker.Base.Order.{sorted, IsStrict}
use ganker.Contracts.{Usage, add, no_usage, TelemetrySummary, UsageEvent}
use mathlib.Core.List.{Permᴰ}
use ganker.Telemetry.{summary, tally_events, tally_event, at_names}
use ganker.Telemetry.Totals.{summary_totals, usage_where, count_where, of_run}
use ganker.Telemetry.Sources.{summary_sources, source_names, find_source, expected}
use ganker.Telemetry.Shares.{summary_shares, sum_usage, sum_count}
use ganker.Telemetry.Orders.{summary-perm}
use ganker.Tests.Data.{events, event, steps_usage, tokens_usage}

abbrev both : Usage
both = record no_usage { input_tokens = pos 7; training_steps = pos 1 }

abbrev summary_of_a : TelemetrySummary
summary_of_a = record {
  run_id = "a";
  total = both;
  event_count = pos 2;
  by_source =
      (record { event_source = "rollout"; usage = steps_usage; event_count = pos 1 })
      ∷ (record { event_source = "trainer"; usage = tokens_usage; event_count = pos 1 })
      ∷ [];
}

summarised : summary events "a" ≡ ok summary_of_a
unfolding summary tally_events tally_event at_names lookup insert sorted add ◌+ℤ◌ string_dec
summarised = refl

summary_totals_example :
    (summary_of_a.run_id ≡ "a")
    × (both ≡ usage_where (of_run "a") events)
    × (summary_of_a.event_count ≡ pos (count_where (of_run "a") events))
summary_totals_example = summary_totals events "a" summary_of_a summarised

summary_sources_example :
    IsStrict (source_names summary_of_a.by_source)
    × ((name : String) → find_source name summary_of_a.by_source ≡ expected "a" name events)
summary_sources_example = summary_sources events "a" summary_of_a summarised

summary_shares_example :
    (sum_usage summary_of_a.by_source ≡ both)
    × (sum_count summary_of_a.by_source ≡ summary_of_a.event_count)
summary_shares_example = summary_shares events "a" summary_of_a summarised

abbrev swapped : List UsageEvent
swapped =
    event "b" "trainer" steps_usage
    ∷ event "a" "trainer" tokens_usage
    ∷ event "a" "rollout" steps_usage
    ∷ []

summary-perm_example : summary events "a" ≡ summary swapped "a"
summary-perm_example = summary-perm "a" events swapped (Permᴰ.swap refl refl)
