-- ===== src/Telemetry/Sources.antt =====
-- The entries of a summary, one for each source.
use ganker.Base.{
  ◌+◌, String, ◌≡◌, refl, sym, ap, ◌∙◌, Bool, true, ◌&&◌, List, [], ◌∷◌, arith, ◌==◌, if◌then◌else◌,
  Option, some, none, eqb, All, Option-cases, inl, inr,
}
use mathlib.Core.Path.{subst}
use ganker.Base.Int.{◌+ℤ◌, pos, +ℤ-zero, +ℤ-suc, zero-+ℤ}
use ganker.Base.Result.{ok}
use ganker.Base.Dict.{
  Dict, lookup, lookup-insert, keys, is_some, contains-keys, keys-insert-IsDistinct,
}
use ganker.Base.Order.{
  sorted, contains, contains-sorted, contains-first, contains-later, IsStrict, IsDistinct,
  sorted-IsStrict,
}
use ganker.Contracts.{
  no_usage, add, add_assoc, add_comm, no_usage-add, UsageEvent, UsageBySource, TelemetrySummary,
}
use ganker.Telemetry.{
  Tally, no_tally, to_summary, or_new, bump, tally_event, tally_events, summary, TelemetryLedger,
  at_names,
}
use ganker.Telemetry.Totals.{usage_where, count_where}

abbrev pub of_source : String → String → UsageEvent → Bool
of_source run_id name e = e.run_id == run_id && e.event_source == name

-- What the loop makes of the entry of one source.
follow : String → String → List UsageEvent → Option UsageBySource → Option UsageBySource
follow run_id name [] o = o
follow run_id name (e ∷ es) o =
    follow run_id name es (if of_source run_id name e then some (bump e (or_new name o)) else o)

entry_step :
    (run_id name : String) (e : UsageEvent) (t : Tally)
    → lookup name (tally_event run_id e t).by_source ≡ (
        if of_source run_id name e
        then some (bump e (or_new name (lookup name t.by_source)))
        else lookup name t.by_source)
unfolding tally_event
entry_step run_id name e t = ground (
  arith,
  lookup-insert name e.event_source
      (bump e (or_new e.event_source (lookup e.event_source t.by_source))) t.by_source,
)

lookup-tally_events :
    (run_id name : String) (events : List UsageEvent) (t : Tally)
    → lookup name (tally_events run_id events t).by_source
      ≡ follow run_id name events (lookup name t.by_source)
unfolding tally_events follow
lookup-tally_events run_id name [] t = refl
lookup-tally_events run_id name (e ∷ es) t =
    lookup-tally_events run_id name es (tally_event run_id e t)
    ∙ ap (follow run_id name es) (entry_step run_id name e t)

-- An entry that counts `events` on top of `v`.
abbrev plus_events : String → String → List UsageEvent → UsageBySource → UsageBySource
plus_events run_id name events v = record v {
  usage = add v.usage (usage_where (of_source run_id name) events);
  event_count = v.event_count +ℤ pos (count_where (of_source run_id name) events);
}

follow-some :
    (run_id name : String) (events : List UsageEvent) (v : UsageBySource)
    → follow run_id name events (some v) ≡ some (plus_events run_id name events v)
unfolding follow usage_where count_where
follow-some run_id name [] v =
    ground (arith, +ℤ-zero v.event_count, add_comm v.usage no_usage, no_usage-add v.usage)
follow-some run_id name (e ∷ es) v = ground (
  arith,
  follow-some run_id name es v,
  follow-some run_id name es (bump e v),
  add_assoc v.usage e.usage (usage_where (of_source run_id name) es),
  +ℤ-suc v.event_count (count_where (of_source run_id name) es),
)

-- The entry that a summary ought to have for a source: none if the source had no event.
abbrev pub expected : String → String → List UsageEvent → Option UsageBySource
expected run_id name events =
    if eqb (count_where (of_source run_id name) events) 0
    then none
    else some (record {
      event_source = name;
      usage = usage_where (of_source run_id name) events;
      event_count = pos (count_where (of_source run_id name) events);
    })

follow-none :
    (run_id name : String) (events : List UsageEvent)
    → follow run_id name events none ≡ expected run_id name events
unfolding follow usage_where count_where
follow-none run_id name [] = refl
follow-none run_id name (e ∷ es) = ground (
  arith,
  follow-none run_id name es,
  follow-some run_id name es (bump e (or_new name none)),
  add_assoc no_usage e.usage (usage_where (of_source run_id name) es),
  no_usage-add (add e.usage (usage_where (of_source run_id name) es)),
  +ℤ-suc (pos 0) (count_where (of_source run_id name) es),
  zero-+ℤ (pos (1 + count_where (of_source run_id name) es)),
)

lookup-nil : (name : String) → lookup {V = UsageBySource} name [] ≡ none
unfolding lookup
lookup-nil name = refl

pub lookup-tally_events_new :
    (run_id name : String) (events : List UsageEvent)
    → lookup name (tally_events run_id events no_tally).by_source ≡ expected run_id name events
lookup-tally_events_new run_id name events =
    lookup-tally_events run_id name events no_tally ∙ rw lookup-nil (follow-none run_id name events)

keys-tally_events :
    (run_id : String) (events : List UsageEvent) (t : Tally)
    → IsDistinct (keys t.by_source)
    → IsDistinct (keys (tally_events run_id events t).by_source)
unfolding tally_events tally_event
keys-tally_events run_id [] t h = h
keys-tally_events run_id (e ∷ es) t h = keys-tally_events run_id es (tally_event run_id e t) (
    ground (
      arith,
      keys-insert-IsDistinct e.event_source
          (bump e (or_new e.event_source (lookup e.event_source t.by_source))) t.by_source h,
    ))

pub keys-tally_events_new :
    (run_id : String) (events : List UsageEvent)
    → IsDistinct (keys (tally_events run_id events no_tally).by_source)
keys-tally_events_new run_id events = keys-tally_events run_id events no_tally tt

-- The entry of a summary for a source.
abbrev pub find_source : String → List UsageBySource → Option UsageBySource
find_source name [] = none
find_source name (v ∷ vs) = if v.event_source == name then some v else find_source name vs

abbrev pub source_names : List UsageBySource → List String
source_names [] = []
source_names (v ∷ vs) = v.event_source ∷ source_names vs

-- Each entry carries the name that it is stored under.
abbrev IsNamed : Dict UsageBySource → Type 0
IsNamed d = (k : String) (v : UsageBySource) → lookup k d ≡ some v → v.event_source ≡ k

module _ (d : Dict UsageBySource) (named : IsNamed d) where
  names-at_names :
      (names : List String)
      → All (λ k. is_some (lookup k d) ≡ true) names
      → source_names (at_names d names) ≡ names
  unfolding at_names
  names-at_names [] h = refl
  names-at_names (k ∷ ks) h = elim (Option-cases (lookup k d)) [
    | inl e ↦ ground (arith, h.0)
    | inr (v, e) ↦ ground (arith, names-at_names ks h.1, named k v e)
  ]

  find-at_names :
      (name : String) (names : List String)
      → find_source name (at_names d names) ≡ (if contains name names then lookup name d else none)
  unfolding at_names contains
  find-at_names name [] = refl
  find-at_names name (k ∷ ks) = elim (Option-cases (lookup k d)) [
    | inl e ↦ ground (arith, find-at_names name ks)
    | inr (v, e) ↦ ground (arith, find-at_names name ks, named k v e)
  ]

All-present :
    (d : Dict UsageBySource) (names : List String)
    → ((k : String) → contains k names ≡ true → contains k (keys d) ≡ true)
    → All (λ k. is_some (lookup k d) ≡ true) names
All-present d [] h = tt
All-present d (k ∷ ks) h = (
  sym (contains-keys k d) ∙ h k (contains-first k ks),
  All-present d ks (λ j m. h j (contains-later j k ks m)),
)

expected-IsNamed :
    (run_id : String) (events : List UsageEvent)
    → IsNamed (tally_events run_id events no_tally).by_source
expected-IsNamed run_id events k v e = ground (arith, lookup-tally_events_new run_id k events)

module _ (run_id : String) (events : List UsageEvent) where
  abbrev entries : Dict UsageBySource
  entries = (tally_events run_id events no_tally).by_source

  abbrev names : List String
  names = sorted (keys entries)

  entry_names : source_names (at_names entries names) ≡ names
  entry_names =
      names-at_names entries (expected-IsNamed run_id events) names
        (All-present entries names (λ k m. sym (contains-sorted k (keys entries)) ∙ m))

  found_entry :
      (name : String) → find_source name (at_names entries names) ≡ expected run_id name events
  found_entry name = ground (
    arith,
    find-at_names entries (expected-IsNamed run_id events) name names,
    contains-sorted name (keys entries),
    contains-keys name entries,
    lookup-tally_events_new run_id name events,
  )

  pub summary-eq :
      (s : TelemetrySummary)
      → summary events run_id ≡ ok s
      → to_summary run_id (tally_events run_id events no_tally) ≡ s
  unfolding summary
  summary-eq s h = ground arith

-- The entries of a summary stand in strictly increasing order of their sources' names, and the
-- entry of each source has the usage and the number of its events in the run; a source with no
-- event in the run has no entry.
pub summary_sources :
    (events : TelemetryLedger) (run_id : String) (s : TelemetrySummary)
    → summary events run_id ≡ ok s
    → IsStrict (source_names s.by_source)
      × ((name : String) → find_source name s.by_source ≡ expected run_id name events)
summary_sources events run_id s h =
    subst
      (λ (x : TelemetrySummary).
        IsStrict (source_names x.by_source)
        × ((name : String) → find_source name x.by_source ≡ expected run_id name events))
      (summary-eq run_id events s h)
      (
        rw entry_names (sorted-IsStrict _ (keys-tally_events_new run_id events)),
        found_entry run_id events,
      )
