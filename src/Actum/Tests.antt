-- ===== src/Actum/Tests.antt =====
-- Examples for gateway/src/actum.rs, over the concrete cryptography of `Crypto.Toy`.
use zk_llm_gateway.Prelude.{
  ◌≡◌, ◌≢◌, ◌⊎◌, refl, true, false, Option, none, some, [], ◌∷◌, replicate, if◌then◌else◌,
}
use zk_llm_gateway.Prelude.Text.{Bytes, Text, codes, bytes_eq}
use zk_llm_gateway.Prelude.Result.{ok, err}
use zk_llm_gateway.Crypto.Toy.{toy}
use zk_llm_gateway.Token.{c256, class_eq, id_u8}
use zk_llm_gateway.Types.{
  ZkTicket, VerifiedTicket, VerificationContext, invalid_proof, internal, is_empty,
}
use zk_llm_gateway.Actum.{
  Url, ActumVerifier, VerifyRequest, HttpResponse, new, is_success, is_refusal, is_well_bound,
  is_authorized, verify,
}
use zk_llm_gateway.Actum.Acceptance.{
  Accepted, verify-Accepted, verify_unreachable, verify_refused, new_policy,
}

abbrev endpoint : Url
endpoint = record { scheme = codes "https"; rest = codes "actum" }

abbrev verifier : ActumVerifier
verifier = record { endpoint = endpoint; bearer_token = codes "token"; audience = codes "zk" }

abbrev commitment : Bytes
commitment = replicate 48 3

abbrev ticket : ZkTicket
ticket = record {
  commitment_root = commitment;
  nullifier = 7 ∷ [];
  token_class = c256;
  proof = 8 ∷ [];
}

abbrev context : VerificationContext
context = record { request_commitment = commitment }

abbrev accepting : HttpResponse
accepting = record {
  status = 200;
  body = some (record {
    authorized = true;
    finalized = true;
    request_commitment_b64 = commitment;
    authorization_id_b64 = 4 ∷ [];
    token_class = c256;
  });
}

abbrev answering : HttpResponse → Url → Text → VerifyRequest → Option HttpResponse
answering http url token request = some http

abbrev verified : VerifiedTicket
verified = record { token_class = c256; nullifier_key = toy.sha256 (4 ∷ []) }

accepts : verify toy verifier (answering accepting) ticket context ≡ ok verified
unfolding verify is_well_bound is_authorized is_success is_refusal is_empty bytes_eq class_eq id_u8
accepts = refl

verify-Accepted_example : Accepted toy verifier (answering accepting) ticket context verified
verify-Accepted_example =
    verify-Accepted toy verifier (answering accepting) ticket context verified accepts

abbrev silent : Url → Text → VerifyRequest → Option HttpResponse
silent url token request = none

verify_unreachable_instance :
    verify toy verifier silent ticket context
    ≡ err (
        if is_well_bound ticket context
        then internal "Actum verifier unavailable"
        else invalid_proof)
verify_unreachable_instance = verify_unreachable toy verifier silent ticket context refl

abbrev refusing : HttpResponse
refusing = record { status = 403; body = accepting.body }

refusing_status : is_refusal 403 ≡ true
unfolding is_refusal
refusing_status = refl

verify_refused_instance :
    verify toy verifier (answering refusing) ticket context ≡ err invalid_proof
verify_refused_instance =
    verify_refused toy verifier (answering refusing) ticket context refusing refl refusing_status

abbrev parse : Text → Option Url
parse text = some endpoint

builds : new parse true (codes "https://actum") (codes "token") (codes "zk") false ≡ ok verifier
unfolding new bytes_eq is_empty
builds = refl

new_policy_instance :
    (◌≡◌ {A = Option Url} (some endpoint) (some endpoint))
    × ((codes "https" ≡ codes "https") ⊎ (false ≡ true))
    × (codes "token" ≢ [])
    × (codes "zk" ≢ [])
new_policy_instance =
    new_policy parse true (codes "https://actum") (codes "token") (codes "zk") false verifier builds
