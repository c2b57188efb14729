-- ===== src/Gateway/Infer/Tests.antt =====
-- One request through the gateway (`infer` in gateway/src/main.rs), over concrete parameters.
use zk_llm_gateway.Prelude.{
  ℕ, ◌+◌, ◌≤◌, ◌<◌, ◌≡◌, ◌≢◌, ◌⊎◌, refl, sym, ◌∙◌, none, some, [], ◌∷◌, arith, length, replicate,
  length-replicate,
}
use zk_llm_gateway.Prelude.Text.{Bytes, Text, codes, bytes_eq}
use zk_llm_gateway.Prelude.Result.{ok, err}
use zk_llm_gateway.Crypto.Toy.{toy, toy-CryptoLaws, diffie_hellman, public_from}
use zk_llm_gateway.Sled.Memory.{memory, memory-SledLaws, Table, compare_and_swap, option_eq, update}
use zk_llm_gateway.Token.{
  c256, class_eq, id_u8, max_prompt_bytes, envelope_request_plaintext_bytes,
  envelope_response_plaintext_bytes,
}
use zk_llm_gateway.Json.{null, str, num, end, get}
use zk_llm_gateway.Types.{
  InferenceRequest, Encoding, authorization_commitment, dummy_verify, is_empty,
}
use zk_llm_gateway.Envelope.{
  Envelope, ClientCryptoContext, ensure_contributory, from_secret_bytes, seal_request_for_gateway,
  seal_response_at_gateway, open_request_at_gateway, open_response,
}
use zk_llm_gateway.Envelope.RoundTrip.{exchange}
use zk_llm_gateway.Envelope.Privacy.{HasSize, seal_request-HasSize}
use zk_llm_gateway.Nullifier.{
  encode_nullifier_value, spent_status, reserve_nullifier, mark_nullifier_spent,
}
use zk_llm_gateway.Actum.{is_success}
use zk_llm_gateway.Gateway.Compat.{
  CompatCall, post_method, pass_back, compat_chat_completions, compat_chat_completions_lem,
}
use zk_llm_gateway.Gateway.{
  AppState, internal_failure, Upstream, network_failure, answer, ProviderChatCompletionResult,
  provider_call, call_provider, approx_prompt_bytes, extract_provider_output, message_content,
}
use zk_llm_gateway.Gateway.Infer.{
  Clock, pending_val, check_request, authorize, charge, infer_checked, infer_canonical, open_infer,
  infer,
}
use zk_llm_gateway.Gateway.Infer.Charge.{IsFree, IsPaid, charge-IsUnspent}
use zk_llm_gateway.Gateway.Infer.Paid.{
  IsAdmissible, IsAuthorized, infer-calls, infer_checked-IsPaid,
}
use zk_llm_gateway.Gateway.Infer.Sealed.{infer-HasSize, infer_reaches_client, infer_too_large}

abbrev key_a : Bytes
key_a = 7 ∷ []

abbrev key_b : Bytes
key_b = 9 ∷ []

abbrev nonce_a : Bytes
nonce_a = replicate 12 1

abbrev nonce_b : Bytes
nonce_b = replicate 12 2

abbrev client_nonce : Bytes
client_nonce = replicate 32 5

abbrev question : Bytes
question = 123 ∷ 125 ∷ []

abbrev small_payload : Bytes
small_payload = 91 ∷ 93 ∷ []

abbrev large_payload : Bytes
large_payload = replicate {A = ℕ} 9000 1

abbrev encoding : Encoding
encoding = record {
  to_vec = λ v. some (1 ∷ []);
  f32_value = λ n. num n;
  uuid_value = λ n. n ∷ [];
  shake256 = λ b. b;
}

abbrev request : InferenceRequest
request = record {
  request_id = 42;
  model = codes "m";
  messages = record { role = codes "user"; content = codes "hi"; extra = end } ∷ [];
  max_tokens = none;
  temperature = none;
  stream = none;
  token_class = c256;
  ticket = record { commitment_root = []; nullifier = 1 ∷ []; token_class = c256; proof = [] };
  provider_options = end;
}

abbrev state : Upstream → Bytes → AppState
state upstream payload = record {
  crypto = toy;
  sled = memory;
  encoding = encoding;
  keypair = from_secret_bytes toy key_a;
  verify = dummy_verify;
  send = λ call. upstream;
  provider_base_url = codes "http://localhost:8000";
  provider_api_key = none;
  nullifier_pending_ttl_ms = 300;
  parse_request = λ bytes. ok request;
  parse_value = λ bytes. some null;
  value_text = λ v. [];
  payload_to_vec = λ p. ok payload;
  describe = λ e. "error";
}

abbrev good : Upstream
good = answer 200 (1 ∷ [])

abbrev st : AppState
st = state good small_payload

abbrev st_large : AppState
st_large = state good large_payload

abbrev st_down : AppState
st_down = state network_failure small_payload

abbrev clock : Clock
clock = record { reserved_at = 1000; contended_at = 1001; spent_at = 2000 }

abbrev empty : Table
empty k = none

abbrev result : ProviderChatCompletionResult
result = record { body = null; output = [] }

contributory_toy : ensure_contributory (toy.diffie_hellman key_b (toy.public_from key_a)) ≡ ok tt
unfolding ensure_contributory diffie_hellman public_from
contributory_toy = refl

question_fits : length question ≤ envelope_request_plaintext_bytes c256
unfolding envelope_request_plaintext_bytes
question_fits = omega arith

small_fits : length small_payload ≤ envelope_response_plaintext_bytes c256
unfolding envelope_response_plaintext_bytes
small_fits = omega arith

abbrev Sealed : Type 0
Sealed =
    (env : Envelope) × (ctx : ClientCryptoContext) × (answer_env : Envelope)
    × (seal_request_for_gateway toy key_b client_nonce nonce_a (from_secret_bytes toy key_a).public
          c256 42 question
        ≡ ok (env, ctx))
    × (open_request_at_gateway toy (from_secret_bytes toy key_a) env ≡ ok question)
    × (seal_response_at_gateway toy (from_secret_bytes toy key_a) nonce_b env small_payload
        ≡ ok answer_env)
    × (open_response toy ctx answer_env ≡ ok small_payload)

sealed : Sealed
sealed =
    exchange toy toy-CryptoLaws key_a key_b client_nonce nonce_a nonce_b c256 42 question
      small_payload refl refl refl contributory_toy question_fits (omega arith) small_fits
      (omega arith)

sealed_class : sealed.0.token_class ≡ c256
sealed_class =
    (seal_request-HasSize toy toy-CryptoLaws key_b client_nonce nonce_a
      (from_secret_bytes toy key_a).public c256 42 question sealed.0 sealed.1 sealed.3).1

-- Over an empty database the request is paid for.
checked :
    (payload : Bytes) (env : Envelope)
    → env.token_class ≡ c256
    → ((infer_checked (state good payload) env request clock empty).result ≡ ok result)
      × ((infer_checked (state good payload) env request clock empty).calls
          ≡ provider_call (state good payload) request ∷ [])
unfolding infer_checked check_request authorize charge authorization_commitment dummy_verify
    is_empty class_eq id_u8 max_prompt_bytes approx_prompt_bytes reserve_nullifier
    mark_nullifier_spent compare_and_swap option_eq update encode_nullifier_value call_provider
    extract_provider_output message_content is_success bytes_eq get
checked payload env same = rw same (refl, refl)

infer_checked-IsPaid_example :
    (rkey : Bytes) × IsAdmissible st sealed.0 request
    × IsAuthorized st request rkey
    × IsPaid st memory-SledLaws request clock rkey result empty
        (infer_checked st sealed.0 request clock empty)
infer_checked-IsPaid_example =
    infer_checked-IsPaid st memory-SledLaws sealed.0 clock empty request result
      (checked small_payload sealed.0 sealed_class).0

calls_made : (infer st sealed.0 nonce_b clock empty).calls ≢ []
unfolding infer open_infer infer_canonical
calls_made h =
    absurd (cc (sym (checked small_payload sealed.0 sealed_class).1 ∙ (rw sealed.4 at h)))

infer-calls_example :
    (req : InferenceRequest) × (rkey : Bytes) × (open_infer st sealed.0 ≡ ok req)
    × IsAdmissible st sealed.0 req
    × IsAuthorized st req rkey
    × IsFree st memory-SledLaws req clock rkey empty
    × ((infer st sealed.0 nonce_b clock empty).calls ≡ provider_call st req ∷ [])
infer-calls_example = infer-calls st memory-SledLaws sealed.0 clock empty nonce_b calls_made

infer_reaches_client_example :
    (reply : Envelope) × ((infer st sealed.0 nonce_b clock empty).result ≡ ok reply)
    × (open_response toy sealed.1 reply ≡ ok small_payload)
infer_reaches_client_example =
    infer_reaches_client st toy-CryptoLaws key_a key_b client_nonce nonce_a nonce_b c256 42 question
      small_payload sealed.0 sealed.1 clock empty request refl refl refl refl contributory_toy
      question_fits (omega arith) sealed.3 refl refl small_fits (omega arith)

-- The same answer, for the example below.
answered :
    (reply : Envelope) × ((infer st sealed.0 nonce_b clock empty).result ≡ ok reply)
    × (open_response toy sealed.1 reply ≡ ok small_payload)
answered =
    infer_reaches_client st toy-CryptoLaws key_a key_b client_nonce nonce_a nonce_b c256 42 question
      small_payload sealed.0 sealed.1 clock empty request refl refl refl refl contributory_toy
      question_fits (omega arith) sealed.3 refl refl small_fits (omega arith)

infer-HasSize_example :
    HasSize toy answered.0 (envelope_response_plaintext_bytes sealed.0.token_class + 16)
    × (answered.0.token_class ≡ sealed.0.token_class)
    × (answered.0.request_id ≡ sealed.0.request_id)
    × (answered.0.client_nonce_b64 ≡ sealed.0.client_nonce_b64)
    × (answered.0.kem_pub_b64 ≡ sealed.0.kem_pub_b64)
infer-HasSize_example =
    infer-HasSize st toy-CryptoLaws sealed.0 answered.0 nonce_b clock empty answered.1

large_over : envelope_response_plaintext_bytes sealed.0.token_class < length large_payload
unfolding envelope_response_plaintext_bytes
large_over = rw (sealed_class, length-replicate {A = ℕ} 9000 1) (omega arith)

infer_too_large_example :
    ((infer st_large sealed.0 nonce_b clock empty).result
      ≡ err (
          internal_failure
            (record { request_id = some 42; code = "internal_error"; message = "encrypt: error" })))
    × ((rkey : Bytes) × IsAuthorized st_large request rkey
        × (memory.contents (infer st_large sealed.0 nonce_b clock empty).db rkey
            ≡ some (encode_nullifier_value spent_status 2000)))
infer_too_large_example =
    infer_too_large st_large memory-SledLaws sealed.0 nonce_b large_payload question clock empty
      request result sealed.4 refl (checked large_payload sealed.0 sealed_class).0 refl large_over

abbrev rkey : Bytes
rkey = 1 ∷ []

provider_down :
    call_provider st_down request
    ≡ err (record { code = "upstream_network"; message = "upstream network error" })
unfolding call_provider
provider_down = refl

charge-IsUnspent_example :
    (memory.contents (charge st_down request clock rkey empty).db rkey ≡ memory.contents empty rkey)
    ⊎ ((memory.contents (charge st_down request clock rkey empty).db rkey
          ≡ some (pending_val st_down request clock rkey))
        ⊎ (memory.contents (charge st_down request clock rkey empty).db rkey ≡ none))
charge-IsUnspent_example =
    charge-IsUnspent st_down memory-SledLaws request clock rkey empty _ provider_down

abbrev forward : CompatCall → Upstream
forward call = good

abbrev lossy : Bytes → Text
lossy bytes = bytes

compat_chat_completions_lem_instance :
    compat_chat_completions st forward lossy (str (codes "hi"))
    ≡ pass_back st forward lossy (
        forward (record {
          method = post_method;
          url = (provider_call st request).url;
          bearer = (provider_call st request).bearer;
          body = some (str (codes "hi"));
        }))
compat_chat_completions_lem_instance =
    compat_chat_completions_lem st forward lossy (str (codes "hi")) request
