-- ===== src/Backends/Megatron/Batch.antt =====
-- `datums_to_tensor_batch` and `_split_tensor_batch` of src/ganker/backends/megatron.py
pub mod Shapes
pub mod Pieces
use ganker.Base.{
  ℕ, zero, suc, ◌+◌, ◌*◌, ◌%◌, ◌/◌, String, ◌<>◌, Bool, true, false, not, Option, some, none, List,
  [], ◌∷◌, map, ◌==◌, eqb, if◌then◌else◌, length, is_nil, take, drop,
}
use ganker.Base.Int.{ℤ, pos, pos_part, is_nonpos}
use ganker.Base.Float.{Float}
use ganker.Base.Text.{show, show_ℤ}
use ganker.Base.Result.{
  Error, invalid_request, backend_unavailable, Result, ok, err, bind, fmap, unless,
}
use ganker.Base.Dict.{Dict, lookup}
use ganker.Contracts.{Datum, Num, int, float, TensorData}

-- The tensors of a batch, row by row.
pub record TensorBatch (R : Type 0) : Type 0 where
  pub input_ids : List (List ℤ)
  pub target_tokens : List (List ℤ)
  pub weights : List (List R)

-- The parts of the installed packages that the conversion calls: whether torch can be imported, and
-- `torch.tensor` for `torch.long` and `torch.float32`, which may raise or round.
pub record Torch (R : Type 0) : Type 0 where
  pub is_installed : Bool
  pub long : List (List ℤ) → Result (List (List ℤ))
  pub float32 : List (List R) → Result (List (List R))

abbrev pub first_length : {A : Type 0} → List (List A) → ℕ
first_length [] = 0
first_length (row ∷ rows) = length row

-- `shape[0] * shape[1]`
unfoldable pub token_count : {R : Type 0} → TensorBatch R → ℕ
token_count batch = length batch.input_ids * first_length batch.input_ids

abbrev pub field_name : ℕ → String → String
field_name index name = "data[" <> (show index <> ("].loss_fn_inputs['" <> (name <> "']")))

unfoldable pub required_tensor_values : {R : Type 0} → Datum R → String → ℕ → Result (List (Num R))
required_tensor_values datum name index = elim (lookup name datum.loss_fn_inputs) [
  | none ↦ err (invalid_request (field_name index name <> " is required"))
  | some tensor ↦ ok tensor.values
]

-- One datum's part of the three lists of rows.
pub record Row (R : Type 0) : Type 0 where
  pub tokens : List ℤ
  pub targets : List ℤ
  pub weights : List R

-- Whether a length differs from the one that the first datum set.
abbrev pub differs : Option ℕ → ℕ → Bool
differs none n = false
differs (some expected) n = not (eqb n expected)

module _ (F : Float) where
  -- `int(value)` and `float(value)`
  abbrev pub num_to_int : Num F.Real → Result ℤ
  num_to_int (int n) = ok n
  num_to_int (float r) = F.to_int r

  abbrev pub num_to_float : Num F.Real → F.Real
  num_to_float (int n) = F.of_int n
  num_to_float (float r) = r

  unfoldable pub to_ints : List (Num F.Real) → Result (List ℤ)
  to_ints [] = ok []
  to_ints (n ∷ ns) = bind (num_to_int n) λ i. fmap (λ is. i ∷ is) (to_ints ns)

  -- The body of the loop over the data.
  unfoldable pub tensor_row : ℕ → Option ℕ → Datum F.Real → Result (Row F.Real)
  tensor_row index expected datum =
      let tokens = datum.model_input.token_ids in
      unless (is_nil tokens)
        (invalid_request ("data[" <> (show index <> "].model_input.token_ids cannot be empty")))
        (bind (required_tensor_values datum "target_tokens" index) λ targets.
          bind (required_tensor_values datum "weights" index) λ weights.
            unless (not (eqb (length targets) (length tokens)))
              (invalid_request (field_name index "target_tokens" <> " length must match token_ids"))
              (unless (not (eqb (length weights) (length tokens)))
                (invalid_request (field_name index "weights" <> " length must match token_ids"))
                (unless (differs expected (length tokens))
                  (invalid_request "all datums must have the same token length")
                  (bind (to_ints targets) λ ints. ok (record {
                    tokens = tokens;
                    targets = ints;
                    weights = map num_to_float weights;
                  })))))

  -- `expected_length` after the datum whose row is given
  abbrev pub expected_after : Option ℕ → Row F.Real → Option ℕ
  expected_after none row = some (length row.tokens)
  expected_after (some n) row = some n

  unfoldable pub tensor_rows : ℕ → Option ℕ → List (Datum F.Real) → Result (List (Row F.Real))
  tensor_rows index expected [] = ok []
  tensor_rows index expected (d ∷ ds) =
      bind (tensor_row index expected d)
        λ row. fmap (λ rows. row ∷ rows) (tensor_rows (index + 1) (expected_after expected row) ds)

  unfoldable pub datums_to_tensor_batch :
      Torch F.Real → List (Datum F.Real) → String → Result (TensorBatch F.Real)
  datums_to_tensor_batch torch data' loss_fn =
      unless (not (loss_fn == "cross_entropy"))
        (invalid_request ("unsupported Megatron loss_fn: " <> loss_fn))
        (unless (is_nil data') (invalid_request "data cannot be empty") (
          bind (tensor_rows 0 none data') λ rows.
            unless (not torch.is_installed)
              (backend_unavailable "torch is required for Megatron tensor conversion preflight")
              (bind (torch.long (map (λ r. r.tokens) rows)) λ input_ids.
                bind (torch.long (map (λ r. r.targets) rows)) λ target_tokens.
                  bind (torch.float32 (map (λ r. r.weights) rows)) λ weights. ok (record {
                    input_ids = input_ids;
                    target_tokens = target_tokens;
                    weights = weights;
                  }))))

module _ {R : Type 0} where
  -- Rows `start` to `start + size` of each tensor.
  abbrev pub slice : ℕ → ℕ → TensorBatch R → TensorBatch R
  slice start size batch = record {
    input_ids = take size (drop start batch.input_ids);
    target_tokens = take size (drop start batch.target_tokens);
    weights = take size (drop start batch.weights);
  }

  -- The passes of the loop over `range(start, …, size)`.
  unfoldable pub slices : ℕ → ℕ → TensorBatch R → ℕ → List (TensorBatch R)
  slices start size batch zero = []
  slices start size batch (suc n) = slice start size batch ∷ slices (start + size) size batch n

  unfoldable pub split_tensor_batch : TensorBatch R → ℤ → Result (List (TensorBatch R))
  split_tensor_batch batch micro_batch_size =
      let size = pos_part micro_batch_size in
      let total = length batch.input_ids in
      unless (is_nonpos micro_batch_size) (invalid_request "micro_batch_size must be positive") (
        unless (eqb total 0) (invalid_request "batch must contain at least one datum") (
          unless (not (eqb (total % size) 0))
            (invalid_request (
              "logical batch size must be divisible by configured micro_batch_size: batch_size="
              <> (show total <> (", micro_batch_size=" <> show_ℤ micro_batch_size))))
            (if eqb total size then ok (batch ∷ []) else ok (slices 0 size batch (total / size)))))
