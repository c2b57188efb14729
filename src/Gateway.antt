-- ===== src/Gateway.antt =====
-- gateway/src/main.rs: the state of the gateway, its errors, and its call of the model provider.
-- Sending, the ticket verifier, serde_json and the texts of errors are fields of the state.
pub mod Infer
pub mod Compat
use Prim.Native.String.{String}
use zk_llm_gateway.Prelude.{
  ℕ, ◌+◌, Bool, true, false, ◌||◌, Option, none, some, List, [], ◌∷◌, ◌++◌, if◌then◌else◌, length,
}
use zk_llm_gateway.Prelude.Text.{Bytes, Text, codes, text_len, trim_start, trim_end}
use zk_llm_gateway.Prelude.Result.{Result, ok, err, ◌>>=◌, ◌>>◌, guard, ok_or}
use zk_llm_gateway.Crypto.{Crypto}
use zk_llm_gateway.Sled.{Sled}
use zk_llm_gateway.Token.{max_completion_tokens}
use zk_llm_gateway.Json.{Value, null, str, arr, Items, nil, cons, Fields, get}
use zk_llm_gateway.Types.{
  ChatMessage, ZkTicket, InferenceRequest, GatewayEnvelopePayload, ErrorResponse, VerifiedTicket,
  ZkVerifyError, invalid_proof, internal, VerificationContext, Encoding, messages_value,
}
use zk_llm_gateway.Envelope.{GatewayKeypair, EnvelopeError}
use zk_llm_gateway.Actum.{is_success}

-- `addr.ip().is_loopback()` is the first argument.
unfoldable pub is_dummy_bind_allowed : Bool → Bool → Bool
is_dummy_bind_allowed is_loopback allow_non_loopback_local_demo =
    is_loopback || allow_non_loopback_local_demo

unfoldable pub provider_url : Text → Text → Text
provider_url base path = trim_end 47 base ++ (47 ∷ trim_start 47 path)

pub record EncryptedError : Type 0 where
  pub code : String
  pub message : String

-- `EncryptedError::internal` drops what it is told.
unfoldable pub internal_error : String → EncryptedError
internal_error message = record { code = "internal_error"; message = "internal error" }

unfoldable pub map_zk_error : ZkVerifyError → EncryptedError
unfolding internal_error
map_zk_error invalid_proof = record { code = "invalid_proof"; message = "invalid usage proof" }
map_zk_error (internal msg) = internal_error "verifier error"

-- A 400 and a 500 answer, in the clear.
pub data ApiError : Type 0 where
  bad_request internal_failure : ErrorResponse → ApiError

-- A POST to the provider: the address, the bearer token, and the body.
pub record ProviderCall : Type 0 where
  pub url : Text
  pub bearer : Option Text
  pub model : Text
  pub messages : List ChatMessage
  pub max_tokens : ℕ
  pub temperature : Option ℕ
  pub stream : Option Bool
  pub extra : Fields

-- No answer, an answer whose body cannot be read, or a status with a body.
pub data Upstream : Type 0 where
  network_failure : Upstream
  read_failure : ℕ → Upstream
  answer : ℕ → Bytes → Upstream

pub record ProviderChatCompletionResult : Type 0 where
  pub body : Value
  pub output : Text

pub record AppState : Type 1 where
  pub crypto : Crypto
  pub sled : Sled
  pub encoding : Encoding
  pub keypair : GatewayKeypair
  pub verify : ZkTicket → VerificationContext → Result ZkVerifyError VerifiedTicket
  pub send : ProviderCall → Upstream
  pub provider_base_url : Text
  pub provider_api_key : Option Text
  pub nullifier_pending_ttl_ms : ℕ
  -- serde_json, with the texts of its errors.
  pub parse_request : Bytes → Result String InferenceRequest
  pub parse_value : Bytes → Option Value
  pub value_text : Value → Text
  pub payload_to_vec : GatewayEnvelopePayload → Result String Bytes
  -- The derived `Display` of an envelope error.
  pub describe : EnvelopeError → String

and_then : {A B : Type 0} → Option A → (A → Option B) → Option B
and_then none f = none
and_then (some a) f = f a

as_array : Value → Option Items
as_array (arr xs) = some xs
as_array _ = none

first : Items → Option Value
first nil = none
first (cons x xs) = some x

-- `body.choices[0].message.content`, where it is there.
unfoldable pub message_content : Value → Option Value
unfolding and_then as_array first
message_content body = and_then (get (codes "choices") body) λ choices.
    and_then (as_array choices) λ items.
      and_then (first items)
        λ choice. and_then (get (codes "message") choice) λ message. get (codes "content") message

content_text : (Value → Text) → Option Value → Text
content_text to_string none = []
content_text to_string (some null) = []
content_text to_string (some (str text)) = text
content_text to_string (some other) = to_string other

unfoldable pub extract_provider_output : (Value → Text) → Value → Text
unfolding content_text message_content
extract_provider_output to_string body = content_text to_string (message_content body)

-- The lengths of the texts, for messages that cannot be serialized.
text_lengths : List ChatMessage → ℕ
text_lengths [] = 0
text_lengths (m ∷ ms) = text_len m.role + text_len m.content + text_lengths ms

unfoldable pub approx_prompt_bytes : Encoding → List ChatMessage → ℕ
unfolding text_lengths
approx_prompt_bytes s messages = elim (s.to_vec (arr (messages_value messages))) [
  | none ↦ text_lengths messages
  | some bytes ↦ length bytes
]

module _ (st : AppState) where
  -- The body always asks for the class's limit, whatever the client wanted.
  unfoldable pub provider_call : InferenceRequest → ProviderCall
  provider_call req = record {
    url = trim_end 47 st.provider_base_url ++ codes "/v1/chat/completions";
    bearer = st.provider_api_key;
    model = req.model;
    messages = req.messages;
    max_tokens = max_completion_tokens req.token_class;
    temperature = req.temperature;
    stream = req.stream;
    extra = req.provider_options;
  }

  read_answer : Upstream → Result EncryptedError ProviderChatCompletionResult
  read_answer network_failure =
      err (record { code = "upstream_network"; message = "upstream network error" })
  read_answer (read_failure status) =
      err (record { code = "upstream_read"; message = "upstream read error" })
  read_answer (answer status bytes) = do
    guard (is_success status)
        (record { code = "upstream_error"; message = "upstream returned error" })
    body ←
        ok_or (st.parse_value bytes)
          (record { code = "upstream_parse"; message = "upstream parse error" })
    ok (record { body = body; output = extract_provider_output st.value_text body })

  unfoldable pub call_provider :
      InferenceRequest → Result EncryptedError ProviderChatCompletionResult
  unfolding read_answer provider_call
  call_provider req = read_answer (st.send (provider_call req))
