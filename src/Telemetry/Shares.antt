-- ===== src/Telemetry/Shares.antt =====
-- The entries of a summary share its totals out among the sources.
use mathlib.Core.Path.{subst}
use mathlib.Core.List.{Permᴰ}
use ganker.Base.{
  String, ◌≡◌, refl, sym, ap, ◌∙◌, false, List, [], ◌∷◌, arith, Option-cases, inl, inr,
}
use ganker.Base.Int.{ℤ, ◌+ℤ◌, pos, +ℤ_assoc, +ℤ_comm, +ℤ_left_comm, zero-+ℤ, +ℤ-zero}
use ganker.Base.Result.{ok}
use ganker.Base.Dict.{Dict, lookup, insert, keys, values}
use ganker.Base.Order.{contains, IsDistinct, sorted-perm}
use ganker.Contracts.{
  Usage, no_usage, add, add_assoc, add_comm, no_usage-add, UsageEvent, UsageBySource,
  TelemetrySummary,
}
use ganker.Telemetry.{
  Tally, no_tally, or_new, bump, tally_event, tally_events, summary, TelemetryLedger, at_names,
}
use ganker.Telemetry.Sources.{keys-tally_events_new, summary-eq}

abbrev pub sum_usage : List UsageBySource → Usage
sum_usage [] = no_usage
sum_usage (v ∷ vs) = add v.usage (sum_usage vs)

abbrev pub sum_count : List UsageBySource → ℤ
sum_count [] = pos 0
sum_count (v ∷ vs) = v.event_count +ℤ sum_count vs

-- The sums over a dict, after one more event.
module _ (e : UsageEvent) where
  abbrev bumped : Dict UsageBySource → Dict UsageBySource
  bumped d = insert e.event_source (bump e (or_new e.event_source (lookup e.event_source d))) d

  sum_usage-bumped :
      (d : Dict UsageBySource) → sum_usage (values (bumped d)) ≡ add (sum_usage (values d)) e.usage
  unfolding insert lookup
  sum_usage-bumped [] =
      ground (arith, add_comm (add no_usage e.usage) no_usage, no_usage-add (add no_usage e.usage))
  sum_usage-bumped ((k, v) ∷ d) = ground (
    arith,
    sum_usage-bumped d,
    add_assoc v.usage (sum_usage (values d)) e.usage,
    add_assoc v.usage e.usage (sum_usage (values d)),
    add_comm e.usage (sum_usage (values d)),
  )

  sum_count-bumped :
      (d : Dict UsageBySource) → sum_count (values (bumped d)) ≡ sum_count (values d) +ℤ pos 1
  unfolding insert lookup
  sum_count-bumped [] = ground (arith, zero-+ℤ (pos 1), +ℤ-zero (pos 0 +ℤ pos 1))
  sum_count-bumped ((k, v) ∷ d) = ground (
    arith,
    sum_count-bumped d,
    +ℤ_assoc v.event_count (sum_count (values d)) (pos 1),
    +ℤ_assoc v.event_count (pos 1) (sum_count (values d)),
    +ℤ_comm (pos 1) (sum_count (values d)),
  )

-- What the loop keeps: the entries add up to the totals.
abbrev IsShared : Tally → Type 0
IsShared t =
    (sum_usage (values t.by_source) ≡ t.total) × (sum_count (values t.by_source) ≡ t.event_count)

tally_events-IsShared :
    (run_id : String) (events : List UsageEvent) (t : Tally)
    → IsShared t
    → IsShared (tally_events run_id events t)
unfolding tally_events tally_event
tally_events-IsShared run_id [] t h = h
tally_events-IsShared run_id (e ∷ es) t h =
    tally_events-IsShared run_id es (tally_event run_id e t)
      (ground (arith, h.0, h.1, sum_usage-bumped e t.by_source, sum_count-bumped e t.by_source))

at_names-cons :
    (k : String) (v : UsageBySource) (d : Dict UsageBySource) (names : List String)
    → contains k names ≡ false
    → at_names ((k, v) ∷ d) names ≡ at_names d names
unfolding at_names lookup contains
at_names-cons k v d [] h = refl
at_names-cons k v d (name ∷ names) h = ground (arith, at_names-cons k v d names)

at_names-keys : (d : Dict UsageBySource) → IsDistinct (keys d) → at_names d (keys d) ≡ values d
unfolding at_names lookup
at_names-keys [] h = refl
at_names-keys ((k, v) ∷ d) h = ground (arith, at_names-cons k v d (keys d) h.0, at_names-keys d h.1)

abbrev SameSums : List UsageBySource → List UsageBySource → Type 0
SameSums vs ws = (sum_usage vs ≡ sum_usage ws) × (sum_count vs ≡ sum_count ws)

pub add_left_comm : (u v w : Usage) → add u (add v w) ≡ add v (add u w)
add_left_comm u v w = sym (add_assoc u v w) ∙ ap (λ x. add x w) (add_comm u v) ∙ add_assoc v u w

at_names-swap :
    (d : Dict UsageBySource) (j k : String) (names : List String)
    → SameSums (at_names d (j ∷ k ∷ names)) (at_names d (k ∷ j ∷ names))
unfolding at_names
at_names-swap d j k names = elim (Option-cases (lookup j d)) [
  | inl e ↦ ground arith
  | inr (v, e) ↦ elim (Option-cases (lookup k d)) [
    | inl f ↦ ground arith
    | inr (w, f) ↦ ground (
      arith,
      add_left_comm v.usage w.usage (sum_usage (at_names d names)),
      +ℤ_left_comm v.event_count w.event_count (sum_count (at_names d names)),
    )
  ]
]

at_names-perm :
    (d : Dict UsageBySource) {xs ys : List String}
    → Permᴰ xs ys
    → SameSums (at_names d xs) (at_names d ys)
unfolding at_names
at_names-perm d Permᴰ.nil = (refl, refl)
at_names-perm d (Permᴰ.cons e p) = ground (arith, at_names-perm d p)
at_names-perm d (Permᴰ.swap {a = a} {b = b} {l = l} e f) = ground (arith, at_names-swap d a b l)
at_names-perm d (Permᴰ.trans p q) = ground (arith, at_names-perm d p, at_names-perm d q)

-- The entries of a summary share it out: their usage adds up to the total, and their event counts
-- to the summary's event count.
pub summary_shares :
    (events : TelemetryLedger) (run_id : String) (s : TelemetrySummary)
    → summary events run_id ≡ ok s
    → (sum_usage s.by_source ≡ s.total) × (sum_count s.by_source ≡ s.event_count)
summary_shares events run_id s h =
    subst
      (λ (x : TelemetrySummary).
        (sum_usage x.by_source ≡ x.total) × (sum_count x.by_source ≡ x.event_count))
      (summary-eq run_id events s h)
      (ground (
        arith,
        at_names-perm (tally_events run_id events no_tally).by_source
            (sorted-perm (keys (tally_events run_id events no_tally).by_source)),
        at_names-keys (tally_events run_id events no_tally).by_source
            (keys-tally_events_new run_id events),
        tally_events-IsShared run_id events no_tally (refl, refl),
      ))
