-- ===== src/Telemetry/Orders.antt =====
-- The sources of a summary add up to its totals, and the order of the events does not matter.
use mathlib.Core.List.{Permᴰ}
use ganker.Base.{String, ◌≡◌, refl, sym, ap, ◌∙◌, Bool, List, [], ◌∷◌, arith}
use ganker.Base.Dict.{Dict, lookup, keys, is_some, contains-keys}
use ganker.Base.Order.{sorted, contains-sorted, IsStrict-unique, sorted-IsStrict}
use ganker.Contracts.{UsageEvent, UsageBySource}
use ganker.Telemetry.{no_tally, tally_events, summary, TelemetryLedger, at_names}
use ganker.Telemetry.Totals.{
  usage_where, count_where, of_run, total-tally_events, count-tally_events,
}
use ganker.Telemetry.Shares.{add_left_comm}
use ganker.Telemetry.Sources.{expected, lookup-tally_events_new, keys-tally_events_new, of_source}

usage-perm :
    (p : UsageEvent → Bool) {xs ys : List UsageEvent}
    → Permᴰ xs ys
    → usage_where p xs ≡ usage_where p ys
unfolding usage_where
usage-perm p Permᴰ.nil = refl
usage-perm p (Permᴰ.cons {a = a} {b = b} {l₁ = xs} {l₂ = ys} e d) = ground (arith, usage-perm p d)
usage-perm p (Permᴰ.swap {a = a} {b = b} {l = l} e f) =
    ground (arith, add_left_comm a.usage b.usage (usage_where p l))
usage-perm p (Permᴰ.trans d e) = usage-perm p d ∙ usage-perm p e

count-perm :
    (p : UsageEvent → Bool) {xs ys : List UsageEvent}
    → Permᴰ xs ys
    → count_where p xs ≡ count_where p ys
unfolding count_where
count-perm p Permᴰ.nil = refl
count-perm p (Permᴰ.cons e d) = ground (arith, count-perm p d)
count-perm p (Permᴰ.swap e f) = ground arith
count-perm p (Permᴰ.trans d e) = count-perm p d ∙ count-perm p e

expected-perm :
    (run_id name : String) {xs ys : List UsageEvent}
    → Permᴰ xs ys
    → expected run_id name xs ≡ expected run_id name ys
expected-perm run_id name d =
    ground (arith, usage-perm (of_source run_id name) d, count-perm (of_source run_id name) d)

at_names-cong :
    (d e : Dict UsageBySource) (names : List String)
    → ((k : String) → lookup k d ≡ lookup k e)
    → at_names d names ≡ at_names e names
unfolding at_names
at_names-cong d e [] h = refl
at_names-cong d e (k ∷ ks) h = ground (arith, h k, at_names-cong d e ks h)

module _ (run_id : String) {xs ys : List UsageEvent} (p : Permᴰ xs ys) where
  same_lookup :
      (k : String)
      → lookup k (tally_events run_id xs no_tally).by_source
        ≡ lookup k (tally_events run_id ys no_tally).by_source
  same_lookup k =
      lookup-tally_events_new run_id k xs
      ∙ expected-perm run_id k p
      ∙ sym (lookup-tally_events_new run_id k ys)

  same_names :
      sorted (keys (tally_events run_id xs no_tally).by_source)
      ≡ sorted (keys (tally_events run_id ys no_tally).by_source)
  same_names =
      IsStrict-unique _ _ (sorted-IsStrict _ (keys-tally_events_new run_id xs))
        (sorted-IsStrict _ (keys-tally_events_new run_id ys))
        λ k.
          contains-sorted k _
          ∙ contains-keys k (tally_events run_id xs no_tally).by_source
          ∙ ap is_some (same_lookup k)
          ∙ sym (contains-keys k (tally_events run_id ys no_tally).by_source)
          ∙ sym (contains-sorted k _)

  same_entries :
      at_names
        (tally_events run_id xs no_tally).by_source
        (sorted (keys (tally_events run_id xs no_tally).by_source))
      ≡ at_names
          (tally_events run_id ys no_tally).by_source
          (sorted (keys (tally_events run_id ys no_tally).by_source))
  same_entries = rw same_names (at_names-cong _ _ _ same_lookup)

-- The summary of a run is the same whatever the order in which the events were recorded.
pub summary-perm :
    (run_id : String) (xs ys : TelemetryLedger)
    → Permᴰ xs ys
    → summary xs run_id ≡ summary ys run_id
unfolding summary
summary-perm run_id xs ys p = ground (
  arith,
  same_entries run_id p,
  total-tally_events run_id xs no_tally,
  total-tally_events run_id ys no_tally,
  count-tally_events run_id xs no_tally,
  count-tally_events run_id ys no_tally,
  usage-perm (of_run run_id) p,
  count-perm (of_run run_id) p,
)
