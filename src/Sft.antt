-- ===== src/Sft.antt =====
-- The encoding of supervised examples as training data, and their batches.
-- examples/sft/data.py
pub mod Lengths
pub mod Batches
pub mod Loop
use ganker.Base.{
  ℕ, zero, suc, ◌+◌, ◌-◌, String, Bool, true, false, not, ◌&&◌, ◌||◌, Option, some, none, List, [],
  ◌∷◌, ◌++◌, map, if◌then◌else◌, length, is_nil, take, drop, replicate, range, ltb, leb, eqb,
}
use ganker.Base.Int.{ℤ, pos, pos_part, is_nonpos, ltb_ℤ}
use ganker.Base.Float.{Float}
use ganker.Base.Result.{Error, value_error, Result, ok, err, bind, unless}
use ganker.Base.File.{JsonObject}
use ganker.Contracts.{Datum, TensorData, Num, int, float, from_ints}

-- A tokenizer, which may be one of another package.
pub record Tokenizer : Type 0 where
  pub pad_token_id : ℤ
  pub bos_token_id : ℤ
  pub eos_token_id : ℤ
  pub encode : String → Result (List ℤ)

pub record SftExample (R : Type 0) : Type 0 where
  pub prompt : String
  pub completion : String
  pub weight : R
  pub metadata : JsonObject

pub record SftDataConfig : Type 0 where
  pub sequence_length : ℤ
  pub batch_size : ℤ
  pub drop_overlong : Bool
  pub shuffle : Bool
  pub seed : ℤ

unfoldable pub validate : SftDataConfig → Result (Unit {0})
validate c =
    unless (ltb_ℤ c.sequence_length (pos 2)) (value_error "sequence_length must be at least 2")
      (unless (is_nonpos c.batch_size) (value_error "batch_size must be positive") (ok tt))

-- `xs[-1] = x`
abbrev pub set_last : {A : Type 0} → List A → A → List A
set_last [] x = []
set_last (y ∷ []) x = x ∷ []
set_last (y ∷ z ∷ ys) x = y ∷ set_last (z ∷ ys) x

-- The lists after truncation and padding to `n` positions.
unfoldable pub fit : {A : Type 0} → ℕ → ℕ → A → List A → List A
fit n pad_count pad xs = take n xs ++ replicate pad_count pad

module _ (F : Float) where
  abbrev pub zero_weight : F.Real
  zero_weight = F.literal (pos 0) 1

  -- The weights of `n` positions, of which those from `first` up to `end` count.
  unfoldable pub weights_of : F.Real → ℕ → ℕ → ℕ → List F.Real
  weights_of weight first end n =
      set_last
        (map (λ index. if leb first index && ltb index end then weight else zero_weight)
          (range 0 n))
        zero_weight

  -- `any(weight > 0 for weight in weights)`
  unfoldable pub any_positive : List F.Real → Bool
  any_positive [] = false
  any_positive (w ∷ ws) = F.lt (F.of_int (pos 0)) w || any_positive ws

  abbrev pub to_datum : List ℤ → List ℤ → List F.Real → Datum F.Real
  to_datum input_ids target_tokens weights = record {
    model_input = from_ints input_ids;
    loss_fn_inputs =
        ("target_tokens", record { values = map int target_tokens })
        ∷ ("weights", record { values = map float weights })
        ∷ [];
  }

  -- `encode_sft_example` once the tokens are there.
  unfoldable pub encode_tokens :
      F.Real → Tokenizer → SftDataConfig → List ℤ → List ℤ → Option (Datum F.Real)
  unfolding weights_of fit
  encode_tokens weight tokenizer config prompt_tokens completion_tokens =
      let n = pos_part config.sequence_length in
      let input_ids =
        (tokenizer.bos_token_id ∷ prompt_tokens)
        ++ completion_tokens
        ++ tokenizer.eos_token_id ∷ [] in
      let target_tokens = drop 1 input_ids ++ tokenizer.pad_token_id ∷ [] in
      let weights =
        weights_of weight (length prompt_tokens)
          (length prompt_tokens + length completion_tokens + 1) (length input_ids) in
      let pad_count = n - length (take n input_ids) in
      let weights' = fit n pad_count zero_weight weights in
      if ltb n (length input_ids) && config.drop_overlong
      then none
      else if not (any_positive weights')
      then none
      else some (
          to_datum (fit n pad_count tokenizer.pad_token_id input_ids)
            (fit n pad_count tokenizer.pad_token_id target_tokens) weights')

  unfoldable pub encode_sft_example :
      SftExample F.Real → Tokenizer → SftDataConfig → Result (Option (Datum F.Real))
  encode_sft_example example tokenizer config = bind (validate config) λ _.
      bind (tokenizer.encode example.prompt) λ prompt_tokens.
        bind (tokenizer.encode example.completion) λ completion_tokens.
          unless (is_nil completion_tokens)
            (value_error "completion must produce at least one token")
            (ok (encode_tokens example.weight tokenizer config prompt_tokens completion_tokens))

module _ {A : Type 0} where
  -- The loop: the batches so far and the batch that is being filled.
  unfoldable pub fill_batches : ℕ → List A → List (List A) → List A → List (List A) × List A
  fill_batches size [] batches batch = (batches, batch)
  fill_batches size (d ∷ ds) batches batch =
      let full = batch ++ d ∷ [] in
      let (more, rest) =
        if eqb (length full) size then (batches ++ full ∷ [], []) else (batches, full) in
      fill_batches size ds more rest

  -- The batches with the last one, if it has anything.
  abbrev pub close_batch : List (List A) × List A → List (List A)
  close_batch (batches, batch) = if is_nil batch then batches else batches ++ batch ∷ []

  unfoldable pub batch_datums : List A → ℤ → Result (List (List A))
  batch_datums datums batch_size =
      let batches = close_batch (fill_batches (pos_part batch_size) datums [] []) in
      unless (is_nonpos batch_size) (value_error "batch_size must be positive") (
        unless (is_nil batches) (value_error "no SFT datums available after filtering")
          (ok batches))
