-- ===== src/Telemetry/Totals.antt =====
-- The totals of a summary: what they count, and that the sources add up to them.
use ganker.Base.{ℕ, ◌+◌, String, ◌≡◌, sym, ◌∙◌, Bool, List, [], ◌∷◌, arith, ◌==◌, if◌then◌else◌}
use ganker.Base.Int.{◌+ℤ◌, pos, +ℤ-zero, +ℤ-suc, zero-+ℤ}
use ganker.Base.Result.{ok}
use ganker.Contracts.{
  Usage, no_usage, add, add_assoc, add_comm, no_usage-add, UsageEvent, TelemetrySummary,
}
use ganker.Telemetry.{Tally, no_tally, tally_event, tally_events, summary, TelemetryLedger}

-- The usage and the number of the events that pass a test.
unfoldable pub usage_where : (UsageEvent → Bool) → List UsageEvent → Usage
usage_where p [] = no_usage
usage_where p (e ∷ es) = if p e then add e.usage (usage_where p es) else usage_where p es

unfoldable pub count_where : (UsageEvent → Bool) → List UsageEvent → ℕ
count_where p [] = 0
count_where p (e ∷ es) = if p e then 1 + count_where p es else count_where p es

abbrev pub of_run : String → UsageEvent → Bool
of_run run_id e = e.run_id == run_id

pub add-no_usage : (u : Usage) → add u no_usage ≡ u
add-no_usage u = add_comm u no_usage ∙ no_usage-add u

pub total-tally_events :
    (run_id : String) (events : List UsageEvent) (t : Tally)
    → (tally_events run_id events t).total ≡ add t.total (usage_where (of_run run_id) events)
unfolding tally_events tally_event usage_where
total-tally_events run_id [] t = sym (add-no_usage t.total)
total-tally_events run_id (e ∷ es) t = ground (
  arith,
  total-tally_events run_id es (tally_event run_id e t),
  add_assoc t.total e.usage (usage_where (of_run run_id) es),
)

pub count-tally_events :
    (run_id : String) (events : List UsageEvent) (t : Tally)
    → (tally_events run_id events t).event_count
      ≡ t.event_count +ℤ pos (count_where (of_run run_id) events)
unfolding tally_events tally_event count_where
count-tally_events run_id [] t = sym (+ℤ-zero t.event_count)
count-tally_events run_id (e ∷ es) t = ground (
  arith,
  count-tally_events run_id es (tally_event run_id e t),
  +ℤ-suc t.event_count (count_where (of_run run_id) es),
)

-- A summary counts every event of its run, once, and no event of another run.
pub summary_totals :
    (events : TelemetryLedger) (run_id : String) (s : TelemetrySummary)
    → summary events run_id ≡ ok s
    → (s.run_id ≡ run_id)
      × (s.total ≡ usage_where (of_run run_id) events)
      × (s.event_count ≡ pos (count_where (of_run run_id) events))
unfolding summary
summary_totals events run_id s h = ground (
  arith,
  total-tally_events run_id events no_tally,
  count-tally_events run_id events no_tally,
  no_usage-add (usage_where (of_run run_id) events),
  zero-+ℤ (pos (count_where (of_run run_id) events)),
)
