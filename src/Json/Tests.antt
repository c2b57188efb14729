-- ===== src/Json/Tests.antt =====
-- Examples for canonical JSON and the commitment of a request (common/src/types.rs).
use zk_llm_gateway.Prelude.{ℕ, ◌≡◌, ◌≢◌, none, some, List, [], ◌∷◌}
use zk_llm_gateway.Prelude.Text.{codes}
use zk_llm_gateway.Token.{c256}
use zk_llm_gateway.Json.{num, obj, Fields, end, field, canonicalize_json}
use zk_llm_gateway.Json.Canonical.{in_obj, SameFields, exchange, canonicalize_json-Same}
use zk_llm_gateway.Types.{
  ChatMessage, ZkTicket, InferenceRequest, Encoding, authorization_commitment,
}
use zk_llm_gateway.Types.Commitment.{no_messages, message, authorization_commitment-Same}

abbrev options : Fields
options = field (codes "top_p") (num 1) (field (codes "seed") (num 2) end)

abbrev swapped : Fields
swapped = field (codes "seed") (num 2) (field (codes "top_p") (num 1) end)

keys_differ : codes "top_p" ≢ codes "seed"
keys_differ h = cc h

options-SameFields : SameFields options swapped
options-SameFields = exchange (codes "top_p") (codes "seed") (num 1) (num 2) end keys_differ

canonicalize_json-Same_example : canonicalize_json (obj options) ≡ canonicalize_json (obj swapped)
canonicalize_json-Same_example = canonicalize_json-Same (in_obj options-SameFields)

abbrev encoding : Encoding
encoding = record {
  to_vec = λ v. some (1 ∷ []);
  f32_value = λ n. num n;
  uuid_value = λ n. n ∷ [];
  shake256 = λ b. b;
}

abbrev ticket : ℕ → ZkTicket
ticket n = record { commitment_root = []; nullifier = n ∷ []; token_class = c256; proof = [] }

abbrev with_extra : Fields → List ChatMessage
with_extra fs = record { role = codes "user"; content = codes "hi"; extra = fs } ∷ []

abbrev request : InferenceRequest
request = record {
  request_id = 42;
  model = codes "m";
  messages = with_extra options;
  max_tokens = none;
  temperature = none;
  stream = none;
  token_class = c256;
  ticket = ticket 1;
  provider_options = options;
}

authorization_commitment-Same_example :
    authorization_commitment encoding request
    ≡ authorization_commitment encoding (record request {
      messages = with_extra swapped;
      provider_options = swapped;
      ticket = ticket 2;
    })
authorization_commitment-Same_example =
    authorization_commitment-Same encoding request (with_extra swapped) swapped (ticket 2)
      (message (codes "user") (codes "hi") options-SameFields no_messages) options-SameFields
