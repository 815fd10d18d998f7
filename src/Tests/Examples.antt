-- ===== src/Tests/Examples.antt =====
-- A supervised example of one prompt and one completion token, and batches of two.
use ganker.Base.{◌<◌, ◌≤◌, String, ◌≡◌, refl, List, [], ◌∷◌, some, false, length, All}
use ganker.Base.Int.{ℤ, pos, pos_part}
use ganker.Base.Result.{ok}
use ganker.Contracts.{Datum}
use ganker.Sft.{
  Tokenizer, SftExample, SftDataConfig, encode_sft_example, batch_datums, to_datum, fill_batches,
  validate, encode_tokens,
}
use ganker.Sft.Lengths.{IsFull, encode_sft_example-IsFull}
use ganker.Sft.Batches.{flat, flat-batch_datums}
use ganker.Tests.Data.{whole}

abbrev tokenizer : Tokenizer
tokenizer = record {
  pad_token_id = pos 0;
  bos_token_id = pos 1;
  eos_token_id = pos 2;
  encode = λ text. ok (pos 7 ∷ []);
}

abbrev example : SftExample ℤ
example = record { prompt = "a"; completion = "b"; weight = pos 1; metadata = [] }

abbrev config : SftDataConfig
config = record {
  sequence_length = pos 6;
  batch_size = pos 2;
  drop_overlong = false;
  shuffle = false;
  seed = pos 0;
}

abbrev encoded : Datum ℤ
encoded =
    to_datum whole (pos 1 ∷ pos 7 ∷ pos 7 ∷ pos 2 ∷ pos 0 ∷ pos 0 ∷ [])
      (pos 7 ∷ pos 7 ∷ pos 2 ∷ pos 0 ∷ pos 0 ∷ pos 0 ∷ [])
      (pos 0 ∷ pos 1 ∷ pos 1 ∷ pos 0 ∷ pos 0 ∷ pos 0 ∷ [])

encodes : encode_sft_example whole example tokenizer config ≡ ok (some encoded)
unfolding encode_sft_example validate encode_tokens ganker.Sft.any_positive
encodes = refl

encode_sft_example-IsFull_example : IsFull (pos_part config.sequence_length) encoded
encode_sft_example-IsFull_example =
    encode_sft_example-IsFull whole example tokenizer config encoded encodes

abbrev letters : List String
letters = "a" ∷ "b" ∷ "c" ∷ []

abbrev batches : List (List String)
batches = ("a" ∷ "b" ∷ []) ∷ ("c" ∷ []) ∷ []

batched : batch_datums letters (pos 2) ≡ ok batches
unfolding batch_datums fill_batches
batched = refl

flat-batch_datums_example :
    (flat batches ≡ letters)
    × All (λ (batch : List String). (0 < length batch) × (length batch ≤ 2)) batches
flat-batch_datums_example = flat-batch_datums letters 2 batches batched
