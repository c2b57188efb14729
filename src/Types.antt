-- ===== src/Types.antt =====
-- common/src/types.rs and common/src/zk.rs: messages, requests, tickets and responses, the commitment
-- that an authorization binds to, and the development verifier.
pub mod Commitment
use zk_llm_gateway.Prelude.{
  ℕ, Bool, true, false, Option, none, some, List, [], ◌∷◌, ◌++◌, ◌/◌, ◌%◌, ◌^◌, if◌then◌else◌,
  length,
}
use zk_llm_gateway.Prelude.Text.{Bytes, Text, codes}
use Prim.Native.String.{String}
use zk_llm_gateway.Prelude.Result.{Result, ok, err}
use zk_llm_gateway.Crypto.{Crypto}
use zk_llm_gateway.Token.{TokenClass, c256, c512, c1024, c2048, c4096}
use zk_llm_gateway.Json.{
  Value, null, bool, num, str, arr, obj, Items, nil, cons, Fields, end, field, insert, extend,
  canonicalize_json,
}

-- `extra` holds the flattened fields that the program does not read.
pub record ChatMessage : Type 0 where
  pub role : Text
  pub content : Text
  pub extra : Fields

pub record ZkTicket : Type 0 where
  pub commitment_root : Bytes
  pub nullifier : Bytes
  pub token_class : TokenClass
  pub proof : Bytes

-- `temperature` is the bit pattern of an `f32`, which is only passed on.
pub record InferenceRequest : Type 0 where
  pub request_id : ℕ
  pub model : Text
  pub messages : List ChatMessage
  pub max_tokens : Option ℕ
  pub temperature : Option ℕ
  pub stream : Option Bool
  pub token_class : TokenClass
  pub ticket : ZkTicket
  pub provider_options : Fields

pub record InferenceResponse : Type 0 where
  pub request_id : ℕ
  pub model : Text
  pub output : Text
  pub billed_token_class : TokenClass
  pub upstream : Option Value

pub record ErrorResponse : Type 0 where
  pub request_id : Option ℕ
  pub code : String
  pub message : String

pub data GatewayEnvelopePayload : Type 0 where
  response : InferenceResponse → GatewayEnvelopePayload
  error : ErrorResponse → GatewayEnvelopePayload

pub record VerifiedTicket : Type 0 where
  pub token_class : TokenClass
  pub nullifier_key : Bytes

pub data ZkVerifyError : Type 0 where
  invalid_proof : ZkVerifyError
  internal : String → ZkVerifyError

pub record VerificationContext : Type 0 where
  pub request_commitment : Bytes

-- What the program takes from serde_json, sha3 and the derived conversions: writing a value, an
-- `f32` as a number, the hyphenated id as a text, and 48 bytes of SHAKE256.
pub record Encoding : Type 0 where
  pub to_vec : Value → Option Bytes
  pub f32_value : ℕ → Value
  pub uuid_value : ℕ → Text
  pub shake256 : Bytes → Bytes

-- The `snake_case` names of the variants.
unfoldable pub class_name : TokenClass → Text
class_name c256 = codes "c256"
class_name c512 = codes "c512"
class_name c1024 = codes "c1024"
class_name c2048 = codes "c2048"
class_name c4096 = codes "c4096"

option_value {ℓ} : {A : Type ℓ} → (A → Value) → Option A → Value
option_value f none = null
option_value f (some a) = f a

-- The derived `Serialize` of a message, its extra fields flattened into it.
unfoldable pub message_value : ChatMessage → Value
message_value m = obj (
    extend (field (codes "role") (str m.role) (field (codes "content") (str m.content) end))
      m.extra)

unfoldable pub messages_value : List ChatMessage → Items
unfolding message_value
messages_value [] = nil
messages_value (m ∷ ms) = cons (message_value m) (messages_value ms)

-- The bytes of a `u64`, most significant first.
abbrev u64_to_be_bytes : ℕ → Bytes
u64_to_be_bytes n =
    (n / 2 ^ 56) % 256
    ∷ (n / 2 ^ 48) % 256
    ∷ (n / 2 ^ 40) % 256
    ∷ (n / 2 ^ 32) % 256
    ∷ (n / 2 ^ 24) % 256
    ∷ (n / 2 ^ 16) % 256
    ∷ (n / 2 ^ 8) % 256
    ∷ n % 256
    ∷ []

module _ (s : Encoding) where
  -- The object that is committed to; the ticket is left out.
  unfoldable pub commitment_value : InferenceRequest → Value
  unfolding option_value messages_value class_name
  commitment_value r = obj (
      field (codes "request_id") (str (s.uuid_value r.request_id)) (
        field (codes "model") (str r.model) (
          field (codes "messages") (arr (messages_value r.messages)) (
            field (codes "max_tokens") (option_value num r.max_tokens) (
              field (codes "temperature") (option_value s.f32_value r.temperature) (
                field (codes "stream") (option_value bool r.stream) (
                  field (codes "token_class") (str (class_name r.token_class))
                    (field (codes "provider_options") (obj r.provider_options) end))))))))

  commit_bytes : Option Bytes → Option Bytes
  commit_bytes none = none
  commit_bytes (some encoded) = some (
      s.shake256 (
        codes "ACTIVECHAIN-ZEROK-INFERENCE-AUTHORIZATION-V1"
        ++ (0 ∷ [])
        ++ u64_to_be_bytes (length encoded)
        ++ encoded))

  -- `none` is a serialization error.
  unfoldable pub authorization_commitment : InferenceRequest → Option Bytes
  unfolding commit_bytes commitment_value
  authorization_commitment r = commit_bytes (s.to_vec (canonicalize_json (commitment_value r)))

unfoldable pub is_empty : Bytes → Bool
is_empty [] = true
is_empty (b ∷ bs) = false

-- `DummyVerifier::verify`.
unfoldable pub dummy_verify : ZkTicket → VerificationContext → Result ZkVerifyError VerifiedTicket
unfolding is_empty
dummy_verify ticket context =
    if is_empty ticket.nullifier
    then err invalid_proof
    else ok (record { token_class = ticket.token_class; nullifier_key = ticket.nullifier })

unfoldable pub replay_key : Crypto → ZkTicket → Bytes
replay_key c ticket = c.sha256 ticket.nullifier
