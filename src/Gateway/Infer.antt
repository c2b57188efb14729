-- ===== src/Gateway/Infer.antt =====
-- gateway/src/main.rs, `infer` and `infer_canonical`. The clock's three readings and the AEAD nonce
-- are arguments; the delays before an answer change nothing and are left out.
pub mod Charge
pub mod Paid
pub mod Sealed
mod Tests
use Prim.Native.String.{String, ◌++◌}
use zk_llm_gateway.Prelude.{
  ℕ, Bool, true, false, not, Option, none, some, List, [], ◌∷◌, leb, if◌then◌else◌,
}
use zk_llm_gateway.Prelude.Text.{Bytes}
use zk_llm_gateway.Prelude.Result.{Result, ok, err, ◌>>=◌, ◌>>◌, guard, ok_or, map_err}
use zk_llm_gateway.Token.{class_eq, max_prompt_bytes}
use zk_llm_gateway.Types.{
  InferenceRequest, InferenceResponse, GatewayEnvelopePayload, response, error, ErrorResponse,
  authorization_commitment, is_empty, replay_key,
}
use zk_llm_gateway.Envelope.{Envelope, open_request_at_gateway, seal_response_at_gateway}
use zk_llm_gateway.Nullifier.{
  ReserveError, already_used, db_failed, encode_nullifier_value, pending_status, spent_status,
  reserve_nullifier, mark_nullifier_spent, release_pending_nullifier,
}
use zk_llm_gateway.Gateway.{
  AppState, EncryptedError, internal_error, map_zk_error, ApiError, bad_request, internal_failure,
  ProviderCall, ProviderChatCompletionResult, provider_call, call_provider, approx_prompt_bytes,
}

-- The clock when the reservation is made, when a value in its way is looked at, and at the end.
pub record Clock : Type 0 where
  pub reserved_at : ℕ
  pub contended_at : ℕ
  pub spent_at : ℕ

is_streaming : Option Bool → Bool
is_streaming none = false
is_streaming (some stream) = stream

unfoldable pub map_reserve_error : ReserveError → EncryptedError
map_reserve_error already_used = record {
  code = "double_spend";
  message = "ticket nullifier already used";
}
map_reserve_error db_failed = internal_error "db error"

module _ (st : AppState) where
  -- What a handler leaves: its result, the database, and the calls it made to the provider.
  pub record Outcome (E A : Type 0) : Type 0 where
    pub result : Result E A
    pub db : st.sled.Db
    pub calls : List ProviderCall

  -- The consistency and size checks.
  unfoldable pub check_request : Envelope → InferenceRequest → Result EncryptedError (Unit {0})
  unfolding is_streaming
  check_request env req = do
    guard (class_eq req.token_class env.token_class) (record {
      code = "token_class_mismatch";
      message = "request token_class does not match envelope";
    })
    guard (class_eq req.ticket.token_class req.token_class) (record {
      code = "token_class_mismatch";
      message = "ticket token_class does not match request";
    })
    guard (leb (approx_prompt_bytes st.encoding req.messages) (max_prompt_bytes req.token_class))
        (record { code = "prompt_too_large"; message = "prompt exceeds token-class size limit" })
    guard (not (is_streaming req.stream)) (record {
      code = "stream_unsupported";
      message = "stream=true is not supported on /v1/infer";
    })

  -- The verified ticket's replay key.
  unfoldable pub authorize : InferenceRequest → Result EncryptedError Bytes
  authorize req = do
    commitment ←
        ok_or (authorization_commitment st.encoding req)
          (record { code = "invalid_request"; message = "request cannot be committed" })
    verified ←
        map_err map_zk_error (st.verify req.ticket (record { request_commitment = commitment }))
    ok (
        if is_empty verified.nullifier_key
        then replay_key st.crypto req.ticket
        else verified.nullifier_key)

  module _ (req : InferenceRequest) (clock : Clock) (rkey : Bytes) where
    abbrev pub pending_val : Bytes
    pending_val = encode_nullifier_value pending_status clock.reserved_at

    abbrev pub spent_val : Bytes
    spent_val = encode_nullifier_value spent_status clock.spent_at

    abbrev Charged : Type 0
    Charged = Outcome EncryptedError ProviderChatCompletionResult

    after_mark :
        ProviderChatCompletionResult → Result ReserveError (Unit {0}) × st.sled.Db → Charged
    after_mark r (ok u, db) = record { result = ok r; db = db; calls = provider_call st req ∷ [] }
    after_mark r (err e, db) = record {
      result = err (internal_error "db error");
      db = db;
      calls = provider_call st req ∷ [];
    }

    after_call : Result EncryptedError ProviderChatCompletionResult → st.sled.Db → Charged
    unfolding after_mark
    after_call (ok r) db = after_mark r (mark_nullifier_spent st.sled rkey pending_val spent_val db)
    after_call (err e) db = record {
      result = err e;
      db = (release_pending_nullifier st.sled rkey pending_val db).1;
      calls = provider_call st req ∷ [];
    }

    after_reserve : Result ReserveError (Unit {0}) × st.sled.Db → Charged
    unfolding after_call
    after_reserve (ok u, db) = after_call (call_provider st req) db
    after_reserve (err e, db) = record { result = err (map_reserve_error e); db = db; calls = [] }

    -- Reserve the key, call the provider, and mark the key as spent or release it.
    unfoldable pub charge : st.sled.Db → Charged
    unfolding after_reserve
    charge db = after_reserve (
        reserve_nullifier st.sled rkey pending_val st.nullifier_pending_ttl_ms clock.contended_at
          db)

  after_authorize :
      InferenceRequest
      → Clock
      → Result EncryptedError Bytes
      → st.sled.Db
      → Outcome EncryptedError ProviderChatCompletionResult
  unfolding charge
  after_authorize req clock (ok rkey) db = charge req clock rkey db
  after_authorize req clock (err e) db = record { result = err e; db = db; calls = [] }

  -- The block of `infer_canonical` whose errors are sent encrypted.
  unfoldable pub infer_checked :
      Envelope
      → InferenceRequest
      → Clock
      → st.sled.Db
      → Outcome EncryptedError ProviderChatCompletionResult
  unfolding after_authorize
  infer_checked env req clock db =
      after_authorize req clock (check_request env req >> authorize req) db

  unfoldable pub payload_of :
      InferenceRequest → Result EncryptedError ProviderChatCompletionResult → GatewayEnvelopePayload
  payload_of req (ok r) = response (record {
    request_id = req.request_id;
    model = req.model;
    output = r.output;
    billed_token_class = req.token_class;
    upstream = some r.body;
  })
  payload_of req (err e) =
      error (record { request_id = some req.request_id; code = e.code; message = e.message })

  internal_api_error : Option ℕ → String → ApiError
  internal_api_error request_id message =
      internal_failure
        (record { request_id = request_id; code = "internal_error"; message = message })

  unfoldable pub finalize_encrypted_response :
      Envelope → Bytes → Bytes → Option ℕ → Result ApiError Envelope
  unfolding internal_api_error
  finalize_encrypted_response req_env nonce payload_json request_id =
      map_err (λ e. internal_api_error request_id ("encrypt: " ++ st.describe e))
        (seal_response_at_gateway st.crypto st.keypair nonce req_env payload_json)

  unfoldable pub seal_payload :
      Envelope → InferenceRequest → Bytes → GatewayEnvelopePayload → Result ApiError Envelope
  unfolding internal_api_error finalize_encrypted_response
  seal_payload env req nonce payload = do
    payload_json ←
        map_err (λ e. internal_api_error (some req.request_id) ("serialize: " ++ e))
          (st.payload_to_vec payload)
    finalize_encrypted_response env nonce payload_json (some req.request_id)

  unfoldable pub infer_canonical :
      Envelope → InferenceRequest → Bytes → Clock → st.sled.Db → Outcome ApiError Envelope
  unfolding infer_checked payload_of seal_payload
  infer_canonical env req nonce clock db =
      let out = infer_checked env req clock db in
      record {
        result = seal_payload env req nonce (payload_of req out.result);
        db = out.db;
        calls = out.calls;
      }

  -- Opening and parsing; these errors are answered in the clear.
  unfoldable pub open_infer : Envelope → Result ApiError InferenceRequest
  open_infer env = do
    plaintext ←
        map_err
          (λ e.
            bad_request
              (record { request_id = none; code = "decrypt_failed"; message = st.describe e }))
          (open_request_at_gateway st.crypto st.keypair env)
    map_err (λ e. bad_request (record { request_id = none; code = "invalid_json"; message = e }))
        (st.parse_request plaintext)

  after_open :
      Envelope
      → Bytes
      → Clock
      → Result ApiError InferenceRequest
      → st.sled.Db
      → Outcome ApiError Envelope
  unfolding infer_canonical
  after_open env nonce clock (ok req) db = infer_canonical env req nonce clock db
  after_open env nonce clock (err e) db = record { result = err e; db = db; calls = [] }

  unfoldable pub infer : Envelope → Bytes → Clock → st.sled.Db → Outcome ApiError Envelope
  unfolding open_infer after_open
  infer env nonce clock db = after_open env nonce clock (open_infer env) db
