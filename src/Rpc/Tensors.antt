-- ===== src/Rpc/Tensors.antt =====
-- The conversions of the values that hold floats: tensors, training data and sampling values.
-- src/ganker/rpc/conversion.py
use ganker.Base.{map, if◌then◌else◌}
use ganker.Base.Int.{pos}
use ganker.Base.Result.{Result, ok}
use ganker.Base.Dict.{Dict, map_values}
use ganker.Base.Float.{Float}
use ganker.Contracts.{
  Num, int, float, TensorData, Datum, SamplingParams, SampledSequence, ForwardBackwardOutput,
  AdamParams,
}
use ganker.Rpc.Wire
use ganker.Rpc.Protobuf.{Protobuf, ◌>>=◌, traverse}
use ganker.Rpc.Values.{model_input_to_proto, model_input_from_proto}

module _ (P : Protobuf) (F : Float) where
  -- `float(item)`
  abbrev pub to_float : Num F.Real → F.Real
  to_float (int n) = F.of_int n
  to_float (float r) = r

  unfoldable pub tensor_data_to_proto : TensorData F.Real → Wire.TensorData F.Real
  tensor_data_to_proto value = record { values = map to_float value.values }

  unfoldable pub datum_to_proto : Datum F.Real → Result (Wire.Datum F.Real)
  datum_to_proto value = do
    model_input ← model_input_to_proto P value.model_input
    ok (record {
      model_input = model_input;
      loss_fn_inputs = map_values tensor_data_to_proto value.loss_fn_inputs;
    })

  unfoldable pub sampling_params_to_proto :
      SamplingParams F.Real → Result (Wire.SamplingParams F.Real)
  sampling_params_to_proto value = do
    max_tokens ← P.int64 value.max_tokens
    ok (record {
      max_tokens = max_tokens;
      temperature = value.temperature;
      stop = value.stop;
      top_p = value.top_p;
    })

  unfoldable pub sampled_sequence_to_proto :
      SampledSequence F.Real → Result (Wire.SampledSequence F.Real)
  sampled_sequence_to_proto value = do
    tokens ← traverse P.int64 value.tokens
    ok (record {
      tokens = tokens;
      logprobs = value.logprobs;
      stop_reason = value.stop_reason;
      text = value.text;
    })

  abbrev pub loss_fn_output_to_proto : Dict (TensorData F.Real) → Wire.LossFnOutput F.Real
  loss_fn_output_to_proto item = record { values = map_values tensor_data_to_proto item }

  unfoldable pub forward_backward_output_to_proto :
      ForwardBackwardOutput F.Real → Wire.ForwardBackwardOutput F.Real
  forward_backward_output_to_proto value = record {
    loss = value.loss;
    metrics = value.metrics;
    loss_fn_outputs = map loss_fn_output_to_proto value.loss_fn_outputs;
  }

  unfoldable pub tensor_data_from_proto : Wire.TensorData F.Real → TensorData F.Real
  tensor_data_from_proto value = record { values = map float value.values }

  unfoldable pub datum_from_proto : Wire.Datum F.Real → Datum F.Real
  datum_from_proto value = record {
    model_input = model_input_from_proto value.model_input;
    loss_fn_inputs =
        map_values tensor_data_from_proto (P.items (Wire.TensorData F.Real) value.loss_fn_inputs);
  }

  unfoldable pub sampling_params_from_proto : Wire.SamplingParams F.Real → SamplingParams F.Real
  sampling_params_from_proto value = record {
    max_tokens = value.max_tokens;
    temperature = value.temperature;
    top_p = if F.truthy value.top_p then value.top_p else F.literal (pos 10) 1;
    stop = value.stop;
  }

  unfoldable pub sampled_sequence_from_proto : Wire.SampledSequence F.Real → SampledSequence F.Real
  sampled_sequence_from_proto value = record {
    text = value.text;
    tokens = value.tokens;
    logprobs = value.logprobs;
    stop_reason = value.stop_reason;
  }

  abbrev pub loss_fn_output_from_proto : Wire.LossFnOutput F.Real → Dict (TensorData F.Real)
  loss_fn_output_from_proto item =
      map_values tensor_data_from_proto (P.items (Wire.TensorData F.Real) item.values)

  unfoldable pub forward_backward_output_from_proto :
      Wire.ForwardBackwardOutput F.Real → ForwardBackwardOutput F.Real
  forward_backward_output_from_proto value = record {
    loss = value.loss;
    metrics = P.items F.Real value.metrics;
    loss_fn_outputs = map loss_fn_output_from_proto value.loss_fn_outputs;
  }

  unfoldable pub adam_params_to_proto : AdamParams F.Real → Wire.AdamParams F.Real
  adam_params_to_proto value = record {
    learning_rate = value.learning_rate;
    beta1 = value.beta1;
    beta2 = value.beta2;
    eps = value.eps;
    weight_decay = value.weight_decay;
  }

  unfoldable pub adam_params_from_proto : Wire.AdamParams F.Real → AdamParams F.Real
  adam_params_from_proto value = record {
    learning_rate = value.learning_rate;
    beta1 = value.beta1;
    beta2 = value.beta2;
    eps = value.eps;
    weight_decay = value.weight_decay;
  }
