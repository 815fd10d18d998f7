-- ===== src/Rpc/Refinement.antt =====
-- The gRPC transport does in seven of its calls what the transport behind its server does. A download
-- is the eighth: the server answers it by itself (Rpc/Downloads).
-- src/ganker/rpc/client.py and src/ganker/rpc/server.py
use ganker.Base.{String, ◌≡◌, refl, ap, true, List, All}
use ganker.Base.Result.{ok}
use ganker.Base.Float.{Float}
use ganker.Contracts.{ForwardBackwardRequest, ForwardBackwardResponse}
use ganker.Actors.Calls.{
  Call, create_call, forward_call, step_call, save_call, refresh_call, sample_call, summary_call,
  Reply, create_reply, forward_reply, step_reply, save_reply, refresh_reply, sample_reply,
  summary_reply,
}
use ganker.Transport.Proxies.{ProxyTransport, perform}
use ganker.Rpc.Protobuf.{Protobuf}
use ganker.Rpc.Server.{GankerProxyServicer, check_auth, servicer_methods}
use ganker.Rpc.Client.{connect_metadata, grpc_proxy_transport}
use ganker.Rpc.Auth.{check_auth-connect}
use ganker.Rpc.Requests.{
  create_training_run_request_to_proto, create_training_run_request_from_proto,
  forward_backward_request_to_proto, forward_backward_request_from_proto,
  optim_step_request_to_proto, optim_step_request_from_proto, save_weights_request_to_proto,
  save_weights_request_from_proto, refresh_weights_request_to_proto,
  refresh_weights_request_from_proto, sample_request_to_proto, sample_request_from_proto,
  get_telemetry_summary_request_to_proto, get_telemetry_summary_request_from_proto,
}
use ganker.Rpc.Responses.{
  create_training_run_response_to_proto, create_training_run_response_from_proto,
  forward_backward_response_to_proto, forward_backward_response_from_proto,
  optim_step_response_to_proto, optim_step_response_from_proto, save_weights_response_to_proto,
  save_weights_response_from_proto, refresh_weights_response_to_proto,
  refresh_weights_response_from_proto, sample_response_to_proto, sample_response_from_proto,
  get_telemetry_summary_response_to_proto, get_telemetry_summary_response_from_proto,
}
use ganker.Rpc.Relay.{Answers, replied_relays}
use ganker.Rpc.RoundTrip.Values.{IsKind, FitsRun, FitsArtifact, FitsSummary, Same}
use ganker.Rpc.RoundTrip.Requests.{
  FitsCreate, FitsOptional, FitsDatum, FitsSample, SameForward, sample_arrived,
  create_request_carried, forward_request_carried, step_request_carried, save_request_carried,
  refresh_request_carried, sample_request_carried, summary_request_carried,
}
use ganker.Rpc.RoundTrip.Responses.{
  FitsStepReply, FitsForwardReply, FitsSampleReply, SameForwardReply, create_response_carried,
  forward_response_carried, step_response_carried, save_response_carried, refresh_response_carried,
  sample_response_carried, summary_response_carried,
}

module _ (P : Protobuf) (F : Float) where
  -- Every int of the request has 64 bits, and every enum is a member.
  abbrev pub FitsCall : Call F.Real → Type 0
  FitsCall (create_call q) = FitsCreate q
  FitsCall (forward_call q) = All (FitsDatum P F) q.batch
  FitsCall (step_call q) = Unit
  FitsCall (save_call q) = IsKind q.kind
  FitsCall (refresh_call q) = FitsOptional q.artifact
  FitsCall (sample_call q) = FitsSample P F q
  FitsCall (summary_call q) = Unit

  abbrev pub FitsReply : Reply F.Real → Type 0
  FitsReply (create_reply a) = FitsRun a.run
  FitsReply (forward_reply a) = FitsForwardReply P F a
  FitsReply (step_reply a) = FitsStepReply a
  FitsReply (save_reply a) = FitsArtifact a.artifact
  FitsReply (refresh_reply a) = FitsArtifact a.artifact
  FitsReply (sample_reply a) = FitsSampleReply P F a
  FitsReply (summary_reply a) = FitsSummary a.summary

  -- The call that arrives: the same one, but that ints in tensors are floats, that dicts have another
  -- order, and that a `top_p` of zero is 1.0.
  abbrev pub ArrivesCall : Call F.Real → Call F.Real → Type 0
  ArrivesCall (forward_call q) d =
      (r : ForwardBackwardRequest F.Real) × (d ≡ forward_call r) × SameForward P F q r
  ArrivesCall (sample_call q) d = d ≡ sample_call (sample_arrived P F q)
  ArrivesCall (create_call q) d = d ≡ create_call q
  ArrivesCall (step_call q) d = d ≡ step_call q
  ArrivesCall (save_call q) d = d ≡ save_call q
  ArrivesCall (refresh_call q) d = d ≡ refresh_call q
  ArrivesCall (summary_call q) d = d ≡ summary_call q

  abbrev pub ArrivesReply : Reply F.Real → Reply F.Real → Type 0
  ArrivesReply (forward_reply a) b =
      (r : ForwardBackwardResponse F.Real) × (b ≡ forward_reply r) × SameForwardReply P F a r
  ArrivesReply (create_reply a) b = b ≡ create_reply a
  ArrivesReply (step_reply a) b = b ≡ step_reply a
  ArrivesReply (save_reply a) b = b ≡ save_reply a
  ArrivesReply (refresh_reply a) b = b ≡ refresh_reply a
  ArrivesReply (sample_reply a) b = b ≡ sample_reply a
  ArrivesReply (summary_reply a) b = b ≡ summary_reply a

  module _ {S : Type 0} (self : GankerProxyServicer F.Real S)
      (metadata : List (String × String)) where
    -- The client's transport, connected to the servicer.
    abbrev pub connected : ProxyTransport F.Real S
    connected = grpc_proxy_transport P F (servicer_methods P F self) metadata

    -- What a call through gRPC does, against a call of the transport behind the server.
    abbrev pub Relays : Call F.Real → Call F.Real → S → Type 0
    Relays c d s =
        ((perform connected c s).1 ≡ (perform self.transport d s).1)
        × Answers self.host.text FitsReply ArrivesReply (perform self.transport d s).0
            (perform connected c s).0

    module _
        (admitted : check_auth self.bearer_token (self.host.invocation_metadata metadata)
          ≡ true) where
      relays :
          (c : Call F.Real)
          → FitsCall c
          → (d : Call F.Real) × ArrivesCall c d × ((s : S) → Relays c d s)
      unfolding perform grpc_proxy_transport servicer_methods
      relays (create_call q) h =
          let (r, arrives, answers) =
            replied_relays self metadata admitted FitsReply ArrivesReply
              (create_training_run_request_to_proto P) create_training_run_request_from_proto
              self.transport.create_training_run (create_training_run_response_to_proto P)
              create_training_run_response_from_proto create_reply (λ a. FitsRun a.run) Same
              (λ a k. k) (λ a b e. ap create_reply e) (create_response_carried P) q (Same q)
              (create_request_carried P q h) in
          (create_call r, ap create_call arrives, answers)
      relays (forward_call q) h =
          let (r, arrives, answers) =
            replied_relays self metadata admitted FitsReply ArrivesReply
              (forward_backward_request_to_proto P F)
              (λ m. ok (forward_backward_request_from_proto P F m)) self.transport.forward_backward
              (forward_backward_response_to_proto P F)
              (λ m. ok (forward_backward_response_from_proto P F m)) forward_reply
              (FitsForwardReply P F) (SameForwardReply P F) (λ a k. k) (λ a b same. (b, refl, same))
              (forward_response_carried P F) q (SameForward P F q)
              (forward_request_carried P F q h) in
          (forward_call r, (r, refl, arrives), answers)
      relays (step_call q) h =
          let (r, arrives, answers) =
            replied_relays self metadata admitted FitsReply ArrivesReply
              (λ r. ok (optim_step_request_to_proto P F r))
              (λ m. ok (optim_step_request_from_proto P F m)) self.transport.optim_step
              (optim_step_response_to_proto P) (λ m. ok (optim_step_response_from_proto m))
              step_reply FitsStepReply Same (λ a k. k) (λ a b e. ap step_reply e)
              (step_response_carried P) q (Same q) (step_request_carried P F q) in
          (step_call r, ap step_call arrives, answers)
      relays (save_call q) h =
          let (r, arrives, answers) =
            replied_relays self metadata admitted FitsReply ArrivesReply
              save_weights_request_to_proto save_weights_request_from_proto
              self.transport.save_weights (save_weights_response_to_proto P)
              save_weights_response_from_proto save_reply (λ a. FitsArtifact a.artifact) Same
              (λ a k. k) (λ a b e. ap save_reply e) (save_response_carried P) q (Same q)
              (save_request_carried P q h) in
          (save_call r, ap save_call arrives, answers)
      relays (refresh_call q) h =
          let (r, arrives, answers) =
            replied_relays self metadata admitted FitsReply ArrivesReply
              (refresh_weights_request_to_proto P) refresh_weights_request_from_proto
              self.transport.refresh_weights (refresh_weights_response_to_proto P)
              refresh_weights_response_from_proto refresh_reply (λ a. FitsArtifact a.artifact) Same
              (λ a k. k) (λ a b e. ap refresh_reply e) (refresh_response_carried P) q (Same q)
              (refresh_request_carried P q h) in
          (refresh_call r, ap refresh_call arrives, answers)
      relays (sample_call q) h =
          let (r, arrives, answers) =
            replied_relays self metadata admitted FitsReply ArrivesReply
              (sample_request_to_proto P F) (λ m. ok (sample_request_from_proto P F m))
              self.transport.sample (sample_response_to_proto P F) (sample_response_from_proto P F)
              sample_reply (FitsSampleReply P F) Same (λ a k. k) (λ a b e. ap sample_reply e)
              (sample_response_carried P F) q (λ r. r ≡ sample_arrived P F q)
              (sample_request_carried P F q h) in
          (sample_call r, ap sample_call arrives, answers)
      relays (summary_call q) h =
          let (r, arrives, answers) =
            replied_relays self metadata admitted FitsReply ArrivesReply
              (λ r. ok (get_telemetry_summary_request_to_proto r))
              (λ m. ok (get_telemetry_summary_request_from_proto m))
              self.transport.get_telemetry_summary (get_telemetry_summary_response_to_proto P)
              (λ m. ok (get_telemetry_summary_response_from_proto m)) summary_reply
              (λ a. FitsSummary a.summary) Same (λ a k. k) (λ a b e. ap summary_reply e)
              (summary_response_carried P) q (Same q) (summary_request_carried P q) in
          (summary_call r, ap summary_call arrives, answers)

-- Take any call but a download, so a call that creates a run, accumulates gradients, steps, saves,
-- refreshes, samples or asks for a summary. A client that connects with the server's bearer token, or
-- to a server without one, gets from such a call that fits the wire what the transport behind the
-- server gives: the call leaves the state that the same call of that transport leaves, an error of
-- that transport is raised as the error that its status stands for, and a reply that fits the wire is
-- returned. Call and reply are the same on both sides, but that ints in tensors arrive as floats,
-- that a `top_p` of zero arrives as 1.0, and that a dict has the same value under each key and
-- perhaps another order.
pub grpc_refines :
    (P : Protobuf) (F : Float) {S : Type 0} (self : GankerProxyServicer F.Real S) (c : Call F.Real)
    → FitsCall P F c
    → (d : Call F.Real) × ArrivesCall P F c d
      × ((s : S) → Relays P F self (connect_metadata self.bearer_token) c d s)
grpc_refines P F self c h =
    relays P F self (connect_metadata self.bearer_token)
      (check_auth-connect self.host self.bearer_token) c h
