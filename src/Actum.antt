-- ===== src/Actum.antt =====
-- gateway/src/actum.rs: the verifier that asks an Actum service about a payment. The HTTP client and
-- the URL parser are parameters.
pub mod Acceptance
mod Tests
use Prim.Native.String.{String}
use zk_llm_gateway.Prelude.{
  ℕ, ◌*◌, Bool, true, false, ◌&&◌, ◌||◌, not, Option, none, some, List, [], ◌∷◌, ltb, ◌==◌, leb,
  if◌then◌else◌, length,
}
use zk_llm_gateway.Prelude.Text.{Bytes, Text, codes, bytes_eq}
use zk_llm_gateway.Prelude.Result.{Result, ok, err, ◌>>=◌, ◌>>◌, guard, ok_or}
use zk_llm_gateway.Crypto.{Crypto}
use zk_llm_gateway.Token.{TokenClass, class_eq}
use zk_llm_gateway.Types.{
  ZkTicket, VerifiedTicket, VerificationContext, ZkVerifyError, invalid_proof, internal, is_empty,
}

abbrev pub max_actum_evidence_bytes : ℕ
max_actum_evidence_bytes = 2 * 1024 * 1024

pub record Url : Type 0 where
  pub scheme : Text
  pub rest : Text

pub record ActumVerifier : Type 0 where
  pub endpoint : Url
  pub bearer_token : Text
  pub audience : Text

pub record VerifyRequest : Type 0 where
  pub protocol : Text
  pub audience : Text
  pub request_commitment_b64 : Text
  pub replay_identifier_b64 : Text
  pub token_class : TokenClass
  pub payment_evidence_b64 : Text

pub record VerifyResponse : Type 0 where
  pub authorized : Bool
  pub finalized : Bool
  pub request_commitment_b64 : Text
  pub authorization_id_b64 : Text
  pub token_class : TokenClass

-- What the service answers: a status, and the body if it is a well-formed response.
pub record HttpResponse : Type 0 where
  pub status : ℕ
  pub body : Option VerifyResponse

pub data NewError : Type 0 where
  invalid_url not_https no_bearer_token no_audience no_client : NewError

-- `ActumVerifier::new`; `parse` is the URL parser and `built` says whether the client was built.
unfoldable pub new :
    (Text → Option Url) → Bool → Text → Text → Text → Bool → Result NewError ActumVerifier
new parse built endpoint_text bearer_token audience allow_insecure_http = do
  endpoint ← ok_or (parse endpoint_text) invalid_url
  guard (bytes_eq endpoint.scheme (codes "https") || allow_insecure_http) not_https
  guard (not (is_empty bearer_token)) no_bearer_token
  guard (not (is_empty audience)) no_audience
  guard built no_client
  ok (record { endpoint = endpoint; bearer_token = bearer_token; audience = audience })

-- 200 to 299.
unfoldable pub is_success : ℕ → Bool
is_success status = leb 200 status && ltb status 300

-- UNAUTHORIZED, FORBIDDEN, UNPROCESSABLE_ENTITY.
unfoldable pub is_refusal : ℕ → Bool
is_refusal status = status == 401 || status == 403 || status == 422

-- The checks before the service is asked.
unfoldable pub is_well_bound : ZkTicket → VerificationContext → Bool
is_well_bound ticket context =
    length context.request_commitment == 48
    && bytes_eq ticket.commitment_root context.request_commitment
    && not (is_empty ticket.nullifier)
    && not (is_empty ticket.proof)
    && leb (length ticket.proof) max_actum_evidence_bytes

module _ (c : Crypto) (verifier : ActumVerifier) where
  unfoldable pub verify_request : ZkTicket → VerificationContext → VerifyRequest
  verify_request ticket context = record {
    protocol = codes "actum.payment-finality.v1";
    audience = verifier.audience;
    request_commitment_b64 = c.b64_encode context.request_commitment;
    replay_identifier_b64 = c.b64_encode ticket.nullifier;
    token_class = ticket.token_class;
    payment_evidence_b64 = c.b64_encode ticket.proof;
  }

  -- What the service's answer has to say.
  unfoldable pub is_authorized :
      ZkTicket → VerificationContext → VerifyResponse → Bytes → Bytes → Bool
  is_authorized ticket context response echoed_commitment authorization_id =
      response.authorized
      && response.finalized
      && class_eq response.token_class ticket.token_class
      && bytes_eq echoed_commitment context.request_commitment
      && not (is_empty authorization_id)

  -- `post` sends a request to an endpoint with a bearer token; `none` is a network error.
  unfoldable pub verify :
      (Url → Text → VerifyRequest → Option HttpResponse)
      → ZkTicket
      → VerificationContext
      → Result ZkVerifyError VerifiedTicket
  verify post ticket context = do
    guard (is_well_bound ticket context) invalid_proof
    http ←
        ok_or (post verifier.endpoint verifier.bearer_token (verify_request ticket context))
          (internal "Actum verifier unavailable")
    guard (not (is_refusal http.status)) invalid_proof
    guard (is_success http.status) (internal "Actum verifier returned an error")
    response ← ok_or http.body (internal "malformed Actum response")
    echoed_commitment ← ok_or (c.b64_decode response.request_commitment_b64) invalid_proof
    authorization_id ← ok_or (c.b64_decode response.authorization_id_b64) invalid_proof
    guard (is_authorized ticket context response echoed_commitment authorization_id) invalid_proof
    ok (record { token_class = response.token_class; nullifier_key = c.sha256 authorization_id })
