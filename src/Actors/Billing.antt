-- ===== src/Actors/Billing.antt =====
-- What a client's calls add to the summaries of its runs.
use ganker.Base.{
  String, Bool, false, List, [], ◌∷◌, ◌++◌, ◌≡◌, refl, sym, ap, ◌∙◌, arith, is_empty, ◌==◌,
  if◌then◌else◌,
}
use ganker.Base.Result.{ok}
use ganker.Contracts.{
  Usage, no_usage, add, add_assoc, no_usage-add, has_activity-false, UsageEvent, TelemetrySummary,
}
use ganker.Backends.{TrainingBackend, InferenceBackend}
use ganker.Telemetry.{summary}
use ganker.Telemetry.Totals.{usage_where, of_run, summary_totals, add-no_usage}
use mathlib.Core.Path.{ap₂}
use ganker.Actors.{Mesh, Uuids}
use ganker.Actors.Calls.{
  Call, Reply, serve_proxy, create_reply, forward_reply, step_reply, save_reply, refresh_reply,
  sample_reply, summary_reply,
}
use ganker.Actors.Ledger.{posted, posted_event, serve_proxy-Posted}

-- The usage of a reply that its run is charged with.
abbrev pub charge : {R : Type 0} → String → Reply R → Usage
charge run_id (create_reply r) = no_usage
charge run_id (forward_reply r) = if r.run_id == run_id then r.usage else no_usage
charge run_id (step_reply r) = if r.run_id == run_id then r.usage else no_usage
charge run_id (save_reply r) = no_usage
charge run_id (refresh_reply r) = no_usage
charge run_id (sample_reply r) = if r.run_id == run_id then r.usage else no_usage
charge run_id (summary_reply r) = no_usage

usage_where-append :
    (p : UsageEvent → Bool) (xs ys : List UsageEvent)
    → usage_where p (xs ++ ys) ≡ add (usage_where p xs) (usage_where p ys)
unfolding usage_where
usage_where-append p [] ys = sym (no_usage-add (usage_where p ys))
usage_where-append p (x ∷ xs) ys =
    ground
      (arith, usage_where-append p xs ys, add_assoc x.usage (usage_where p xs) (usage_where p ys))

usage_where-posted_event :
    (run_id request_id run source : String) (u : Usage)
    → usage_where (of_run run_id) (posted_event request_id run source u)
      ≡ (if run == run_id then u else no_usage)
unfolding usage_where
usage_where-posted_event run_id request_id run source u =
    ground (arith, has_activity-false u, add-no_usage u)

usage_where-posted :
    {R : Type 0} (run_id : String) (reply : Reply R)
    → usage_where (of_run run_id) (posted reply) ≡ charge run_id reply
unfolding usage_where
usage_where-posted run_id (create_reply r) = refl
usage_where-posted run_id (forward_reply r) =
    usage_where-posted_event run_id r.request_id r.run_id "trainer" r.usage
usage_where-posted run_id (step_reply r) =
    usage_where-posted_event run_id r.request_id r.run_id "trainer" r.usage
usage_where-posted run_id (save_reply r) = refl
usage_where-posted run_id (refresh_reply r) = refl
usage_where-posted run_id (sample_reply r) =
    usage_where-posted_event run_id r.request_id r.run_id "rollout" r.usage
usage_where-posted run_id (summary_reply r) = refl

-- A call that returns through the proxy actor changes the total in the summary of its own run by
-- exactly the usage in its reply, and leaves the totals of all other runs; a call without usage
-- leaves all totals. The condition on the fresh id is that `uuid.uuid4().hex` is not empty.
pub serve_proxy_charges :
    {R : Type 0} (T : TrainingBackend R) (I : InferenceBackend R) (uuids : Uuids) (call : Call R)
    (mesh : Mesh T I) (reply : Reply R) (run_id : String) (before after : TelemetrySummary)
    → is_empty uuids.of_call ≡ false
    → (serve_proxy T I uuids call mesh).0 ≡ ok reply
    → summary mesh.telemetry run_id ≡ ok before
    → summary (serve_proxy T I uuids call mesh).1.telemetry run_id ≡ ok after
    → after.total ≡ add before.total (charge run_id reply)
serve_proxy_charges T I uuids call mesh reply run_id before after e h b a =
    let posts = (serve_proxy-Posted T I uuids call mesh e).0 reply h in
    let (_, total_before, _) = summary_totals mesh.telemetry run_id before b in
    let (_, total_after, _) =
      summary_totals (serve_proxy T I uuids call mesh).1.telemetry run_id after a in
    total_after
    ∙ ap (usage_where (of_run run_id)) posts
    ∙ usage_where-append (of_run run_id) mesh.telemetry (posted reply)
    ∙ ap₂ add (sym total_before) (usage_where-posted run_id reply)
