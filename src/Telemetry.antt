-- ===== src/Telemetry.antt =====
-- The ledger of usage events, and its component.
-- `TelemetryLedger` and `TelemetryComponent` of src/ganker/components.py
pub mod Totals
pub mod Sources
pub mod Orders
pub mod Shares
use ganker.Base.{ℕ, ◌+◌, String, Option, none, some, List, [], ◌∷◌, ◌++◌, length, ◌==◌, is_empty}
use ganker.Base.{if◌then◌else◌}
use ganker.Base.Int.{ℤ, ◌+ℤ◌, pos}
use ganker.Base.Result.{Error, invalid_request, Result, ok, err, unless, fmap, Exec}
use ganker.Base.Dict.{Dict, lookup, insert, keys}
use ganker.Base.Order.{sorted}
use ganker.Contracts.{
  Usage, no_usage, add, UsageEvent, UsageBySource, TelemetrySummary, RecordTelemetryRequest,
  RecordTelemetryResponse, GetTelemetrySummaryRequest, GetTelemetrySummaryResponse,
}

-- `self._events`
abbrev pub TelemetryLedger : Type 0
TelemetryLedger = List UsageEvent

unfoldable pub record_event : UsageEvent → Exec TelemetryLedger ℕ
record_event event events =
    if is_empty event.request_id
    then (err (invalid_request "event.request_id is required"), events)
    else if is_empty event.run_id
    then (err (invalid_request "event.run_id is required"), events)
    else if is_empty event.event_source
    then (err (invalid_request "event.event_source is required"), events)
    else (ok (length (events ++ event ∷ [])), events ++ event ∷ [])

-- The variables of the loop in `summary`.
pub record Tally : Type 0 where
  pub total : Usage
  pub event_count : ℤ
  pub by_source : Dict UsageBySource

abbrev pub no_tally : Tally
no_tally = record { total = no_usage; event_count = pos 0; by_source = [] }

-- `by_source.setdefault(name, UsageBySource(event_source=name))`
abbrev pub or_new : String → Option UsageBySource → UsageBySource
or_new name none = record { event_source = name; usage = no_usage; event_count = pos 0 }
or_new name (some source) = source

-- The entry of a source after one more event. Two entries of the dict are never one object.
abbrev pub bump : UsageEvent → UsageBySource → UsageBySource
bump event source = record source {
  usage = add source.usage event.usage;
  event_count = source.event_count +ℤ pos 1;
}

unfoldable pub tally_event : String → UsageEvent → Tally → Tally
tally_event run_id event t =
    if event.run_id == run_id
    then record {
      total = add t.total event.usage;
      event_count = t.event_count +ℤ pos 1;
      by_source =
          insert event.event_source
            (bump event (or_new event.event_source (lookup event.event_source t.by_source)))
            t.by_source;
    }
    else t

unfoldable pub tally_events : String → List UsageEvent → Tally → Tally
tally_events run_id [] t = t
tally_events run_id (event ∷ events) t = tally_events run_id events (tally_event run_id event t)

-- `[by_source[name] for name in names]`, for names that are keys
unfoldable pub at_names : Dict UsageBySource → List String → List UsageBySource
at_names d [] = []
at_names d (name ∷ names) =
    let rest = at_names d names in elim (lookup name d) [ none ↦ rest | some v ↦ v ∷ rest ]

abbrev pub to_summary : String → Tally → TelemetrySummary
to_summary run_id t = record {
  run_id = run_id;
  total = t.total;
  event_count = t.event_count;
  by_source = at_names t.by_source (sorted (keys t.by_source));
}

-- `summary` reads the ledger and leaves it alone.
unfoldable pub summary : TelemetryLedger → String → Result TelemetrySummary
unfolding tally_events tally_event at_names
summary events run_id =
    unless (is_empty run_id) (invalid_request "run_id is required")
      (ok (to_summary run_id (tally_events run_id events no_tally)))

-- `request_id or uuid.uuid4().hex`; the fresh id is an argument.
unfoldable pub request_id_from : String → String → String
request_id_from uuid request_id = if is_empty request_id then uuid else request_id

-- The event with the request's id where it has none of its own.
abbrev with_request_id : String → UsageEvent → UsageEvent
with_request_id request_id event =
    if is_empty event.request_id then record event { request_id = request_id } else event

unfoldable pub handle_record :
    String → RecordTelemetryRequest → Exec TelemetryLedger RecordTelemetryResponse
unfolding record_event request_id_from
handle_record uuid request events =
    let request_id = request_id_from uuid request.context.request_id in
    let (count, events') = record_event (with_request_id request_id request.event) events in
    (fmap (λ n. record { request_id = request_id; event_count = n }) count, events')

unfoldable pub handle_get_summary :
    String → GetTelemetrySummaryRequest → TelemetryLedger → Result GetTelemetrySummaryResponse
unfolding summary request_id_from
handle_get_summary uuid request events =
    let request_id = request_id_from uuid request.context.request_id in
    fmap (λ s. record { request_id = request_id; summary = s }) (summary events request.run_id)
