-- ===== src/Rpc/RoundTrip/Tensors.antt =====
-- What arrives of tensors, training data and sampling values: ints in a tensor arrive as floats, a
-- `top_p` of zero arrives as 1.0, and the entries of a dict arrive in another order.
use mathlib.Core.Option
use ganker.Base.{
  String, ◌≡◌, refl, ap, ◌∙◌, Option, some, none, List, [], ◌∷◌, map, All, arith, if◌then◌else◌,
}
use ganker.Base.Int.{pos}
use ganker.Base.Result.{ok}
use ganker.Base.Dict.{Dict, lookup, map_values}
use ganker.Base.Float.{Float}
use ganker.Contracts.{
  float, TensorData, Datum, SamplingParams, SampledSequence, ForwardBackwardOutput,
}
use ganker.Rpc.Wire
use ganker.Rpc.Protobuf.{Protobuf, FitsInt64, bind-ok}
use ganker.Rpc.Tensors.{
  to_float, tensor_data_to_proto, tensor_data_from_proto, datum_to_proto, datum_from_proto,
  sampling_params_to_proto, sampling_params_from_proto, sampled_sequence_to_proto,
  sampled_sequence_from_proto, loss_fn_output_to_proto, loss_fn_output_from_proto,
  forward_backward_output_to_proto, forward_backward_output_from_proto,
}
use ganker.Rpc.RoundTrip.Lists.{Carries, Pairwise, traverse-int64}
use ganker.Rpc.RoundTrip.Values.{Same, model_input_carried}

lookup-map_values :
    {V W : Type 0} (f : V → W) (k : String) (d : Dict V)
    → lookup k (map_values f d) ≡ Option.map f (lookup k d)
unfolding lookup
lookup-map_values f k [] = refl
lookup-map_values f k ((j, v) ∷ d) = ground (arith, lookup-map_values f k d)

map-map :
    {A B C : Type 0} (f : A → B) (g : B → C) (xs : List A)
    → map g (map f xs) ≡ map (λ x. g (f x)) xs
map-map f g [] = refl
map-map f g (x ∷ xs) = ap (λ l. g (f x) ∷ l) (map-map f g xs)

module _ (P : Protobuf) (F : Float) where
  -- The values as floats.
  abbrev pub floats : TensorData F.Real → TensorData F.Real
  floats t = record { values = map (λ v. float (to_float P F v)) t.values }

  -- The same keys, and under each the same value as floats.
  abbrev pub SameTensors : Dict (TensorData F.Real) → Dict (TensorData F.Real) → Type 0
  SameTensors d e = (k : String) → lookup k e ≡ Option.map floats (lookup k d)

  abbrev pub SameEntries : Dict F.Real → Dict F.Real → Type 0
  SameEntries d e = (k : String) → lookup k e ≡ lookup k d

  abbrev pub SameDatum : Datum F.Real → Datum F.Real → Type 0
  SameDatum d e = (e.model_input ≡ d.model_input) × SameTensors d.loss_fn_inputs e.loss_fn_inputs

  abbrev pub SameOutput : ForwardBackwardOutput F.Real → ForwardBackwardOutput F.Real → Type 0
  SameOutput o e =
      (e.loss ≡ o.loss)
      × SameEntries o.metrics e.metrics
      × Pairwise SameTensors o.loss_fn_outputs e.loss_fn_outputs

  -- `top_p` as it arrives.
  abbrev pub with_top_p : SamplingParams F.Real → SamplingParams F.Real
  with_top_p s = record s { top_p = if F.truthy s.top_p then s.top_p else F.literal (pos 10) 1 }

  tensor_carried :
      (t : TensorData F.Real) → tensor_data_from_proto P F (tensor_data_to_proto P F t) ≡ floats t
  unfolding tensor_data_from_proto tensor_data_to_proto
  tensor_carried t = ap (λ vs. record { values = vs }) (map-map (to_float P F) float t.values)

  found_carried :
      (o : Option (TensorData F.Real))
      → Option.map (tensor_data_from_proto P F) (Option.map (tensor_data_to_proto P F) o)
        ≡ Option.map floats o
  found_carried none = refl
  found_carried (some t) = ap some (tensor_carried t)

  tensors_carried :
      (d : Dict (TensorData F.Real))
      → SameTensors d (
          map_values
            (tensor_data_from_proto P F)
            (P.items (Wire.TensorData F.Real) (map_values (tensor_data_to_proto P F) d)))
  tensors_carried d k =
      lookup-map_values (tensor_data_from_proto P F) k _
      ∙ ap (Option.map (tensor_data_from_proto P F))
          (P.lookup-items _ k _ ∙ lookup-map_values (tensor_data_to_proto P F) k d)
      ∙ found_carried (lookup k d)

  pub datum_carried :
      (d : Datum F.Real)
      → All FitsInt64 d.model_input.token_ids
      → Carries (datum_to_proto P F) (λ m. ok (datum_from_proto P F m)) d (SameDatum d)
  unfolding datum_to_proto datum_from_proto
  datum_carried d h =
      let (m, v, sent, back, same) = model_input_carried P d.model_input h in
      (_, _, bind-ok _ sent refl, refl, (ground arith, tensors_carried d.loss_fn_inputs))

  pub sampling_params_carried :
      (s : SamplingParams F.Real)
      → FitsInt64 s.max_tokens
      → Carries
          (sampling_params_to_proto P F)
          (λ m. ok (sampling_params_from_proto P F m))
          s
          (λ e. e ≡ with_top_p s)
  unfolding sampling_params_to_proto sampling_params_from_proto
  sampling_params_carried s h = (_, _, bind-ok _ (P.int64_keeps _ h) refl, refl, refl)

  pub sequence_carried :
      (s : SampledSequence F.Real)
      → All FitsInt64 s.tokens
      → Carries
          (sampled_sequence_to_proto P F)
          (λ m. ok (sampled_sequence_from_proto P F m))
          s
          (Same s)
  unfolding sampled_sequence_to_proto sampled_sequence_from_proto
  sequence_carried s h = (_, _, bind-ok _ (traverse-int64 P s.tokens h) refl, refl, refl)

  outputs_carried :
      (ds : List (Dict (TensorData F.Real)))
      → Pairwise SameTensors ds
          (map (loss_fn_output_from_proto P F) (map (loss_fn_output_to_proto P F) ds))
  outputs_carried [] = tt
  outputs_carried (d ∷ ds) = (tensors_carried d, outputs_carried ds)

  pub output_carried :
      (o : ForwardBackwardOutput F.Real)
      → SameOutput o
          (forward_backward_output_from_proto P F (forward_backward_output_to_proto P F o))
  unfolding forward_backward_output_from_proto forward_backward_output_to_proto
  output_carried o =
      (refl, (λ k. P.lookup-items F.Real k o.metrics), outputs_carried o.loss_fn_outputs)
