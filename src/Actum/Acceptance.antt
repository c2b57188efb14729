-- ===== src/Actum/Acceptance.antt =====
-- What an accepted payment rests on, and how the verifier fails (gateway/src/actum.rs).
use zk_llm_gateway.Prelude.{
  ◌≤◌, ◌≡◌, ◌≢◌, refl, sym, ap, subst, ◌∙◌, Bool-cases, if◌then◌else◌, ◌⊎◌, inl, inr, Bool, true,
  ◌||◌, not, Option, none, some, [], ◌∷◌, arith, length,
}
use zk_llm_gateway.Prelude.Text.{Bytes, Text, codes, bytes_eq, bytes_eq_iff}
use zk_llm_gateway.Prelude.Result.{
  ok, err, guard, ok_or, >>=-eq-ok, guard-eq-ok, ok_or-eq-ok, ok-injective,
}
use zk_llm_gateway.Crypto.{Crypto}
use zk_llm_gateway.Token.Classes.{class_eq_iff}
use zk_llm_gateway.Types.{
  ZkTicket, VerifiedTicket, VerificationContext, invalid_proof, internal, is_empty,
}
use zk_llm_gateway.Actum.{
  Url, ActumVerifier, VerifyRequest, VerifyResponse, HttpResponse, invalid_url, not_https,
  no_bearer_token, no_audience, no_client, max_actum_evidence_bytes, new, is_success, is_refusal,
  is_well_bound, verify_request, is_authorized, verify,
}

is_empty_lem : (b : Bytes) → not (is_empty b) ≡ true → b ≢ []
unfolding is_empty
is_empty_lem [] h = λ e. cc h
is_empty_lem (x ∷ xs) h = λ e. cc

-- The ticket is bound to the request and carries evidence of an admissible size.
pub record WellBound (ticket : ZkTicket) (context : VerificationContext) : Type 0 where
  pub commitment_size : length context.request_commitment ≡ 48
  pub root : ticket.commitment_root ≡ context.request_commitment
  pub nullifier : ticket.nullifier ≢ []
  pub evidence : ticket.proof ≢ []
  pub evidence_size : length ticket.proof ≤ max_actum_evidence_bytes

is_well_bound_sound :
    (ticket : ZkTicket) (context : VerificationContext)
    → is_well_bound ticket context ≡ true
    → WellBound ticket context
unfolding is_well_bound
is_well_bound_sound ticket context h = record {
  commitment_size = ground arith;
  root = (bytes_eq_iff _ _).0 (ground arith);
  nullifier = is_empty_lem ticket.nullifier (ground arith);
  evidence = is_empty_lem ticket.proof (ground arith);
  evidence_size = ground arith;
}

module _ (c : Crypto) (verifier : ActumVerifier)
    (post : Url → Text → VerifyRequest → Option HttpResponse) (ticket : ZkTicket)
    (context : VerificationContext) where
  -- The answer that an accepted ticket rests on.
  pub record Accepted (verified : VerifiedTicket) : Type 0 where
    pub bound : WellBound ticket context
    pub http : HttpResponse
    pub response : VerifyResponse
    pub authorization_id : Bytes
    pub asked :
        post verifier.endpoint verifier.bearer_token (verify_request c verifier ticket context)
        ≡ some http
    pub success : is_success http.status ≡ true
    pub answered : http.body ≡ some response
    pub authorized : response.authorized ≡ true
    pub finalized : response.finalized ≡ true
    pub same_class : response.token_class ≡ ticket.token_class
    pub echoed : c.b64_decode response.request_commitment_b64 ≡ some context.request_commitment
    pub identified : c.b64_decode response.authorization_id_b64 ≡ some authorization_id
    pub named : authorization_id ≢ []
    pub verified_class : verified.token_class ≡ ticket.token_class
    pub verified_key : verified.nullifier_key ≡ c.sha256 authorization_id

  is_authorized_sound :
      (response : VerifyResponse) (echo id : Bytes)
      → is_authorized c verifier ticket context response echo id ≡ true
      → (response.authorized ≡ true)
        × (response.finalized ≡ true)
        × (response.token_class ≡ ticket.token_class)
        × (echo ≡ context.request_commitment)
        × (id ≢ [])
  unfolding is_authorized
  is_authorized_sound response echo id h = (
    ground arith,
    ground arith,
    (class_eq_iff _ _).0 (ground arith),
    (bytes_eq_iff _ _).0 (ground arith),
    is_empty_lem id (ground arith),
  )

  -- A ticket is accepted only if it is bound to this request, the service answered this very question
  -- with success, and the answer says authorized and finalized for the ticket's class and the
  -- request's commitment, under a named authorization whose hash becomes the replay key.
  pub verify-Accepted :
      (verified : VerifiedTicket)
      → verify c verifier post ticket context ≡ ok verified
      → Accepted verified
  unfolding verify
  verify-Accepted verified h =
      let (_, bound_ok, r1) = >>=-eq-ok (guard (is_well_bound ticket context) invalid_proof) _ h in
      let asked =
        post verifier.endpoint verifier.bearer_token (verify_request c verifier ticket context) in
      let (http, http_ok, r2) =
        >>=-eq-ok (ok_or asked (internal "Actum verifier unavailable")) _ r1 in
      let (_, _, r3) = >>=-eq-ok (guard (not (is_refusal http.status)) invalid_proof) _ r2 in
      let (_, success_ok, r4) =
        >>=-eq-ok (guard (is_success http.status) (internal "Actum verifier returned an error")) _
          r3 in
      let (response, response_ok, r5) =
        >>=-eq-ok (ok_or http.body (internal "malformed Actum response")) _ r4 in
      let (echo, echo_ok, r6) =
        >>=-eq-ok (ok_or (c.b64_decode response.request_commitment_b64) invalid_proof) _ r5 in
      let (id, id_ok, r7) =
        >>=-eq-ok (ok_or (c.b64_decode response.authorization_id_b64) invalid_proof) _ r6 in
      let (_, authorized_ok, r8) =
        >>=-eq-ok (guard (is_authorized c verifier ticket context response echo id) invalid_proof) _
          r7 in
      let facts =
        is_authorized_sound response echo id (
          guard-eq-ok (is_authorized c verifier ticket context response echo id) _ authorized_ok) in
      record {
        bound =
            is_well_bound_sound ticket context
              (guard-eq-ok (is_well_bound ticket context) _ bound_ok);
        http = http;
        response = response;
        authorization_id = id;
        asked = ok_or-eq-ok asked _ http_ok;
        success = guard-eq-ok (is_success http.status) _ success_ok;
        answered = ok_or-eq-ok http.body _ response_ok;
        authorized = facts.0;
        finalized = facts.1;
        same_class = facts.2;
        echoed =
            ok_or-eq-ok (c.b64_decode response.request_commitment_b64) _ echo_ok ∙ ap some facts.3;
        identified = ok_or-eq-ok (c.b64_decode response.authorization_id_b64) _ id_ok;
        named = facts.4;
        verified_class = ap (λ v. v.token_class) (sym (ok-injective r8)) ∙ facts.2;
        verified_key = ap (λ v. v.nullifier_key) (sym (ok-injective r8));
      }

  -- While the service cannot be reached, no ticket is accepted: one that is not bound to the request is
  -- refused as an invalid proof, a bound one fails with an internal error.
  pub verify_unreachable :
      post verifier.endpoint verifier.bearer_token (verify_request c verifier ticket context) ≡ none
      → verify c verifier post ticket context
        ≡ err (
            if is_well_bound ticket context
            then internal "Actum verifier unavailable"
            else invalid_proof)
  unfolding verify
  verify_unreachable h = elim (Bool-cases (is_well_bound ticket context)) [
    | inl e ↦ rw (e, h) refl
    | inr e ↦ rw e refl
  ]

  -- If the service answers this ticket's question with a refusal status, the ticket is invalid,
  -- whatever the body says.
  pub verify_refused :
      (http : HttpResponse)
      → post verifier.endpoint verifier.bearer_token (verify_request c verifier ticket context)
        ≡ some http
      → is_refusal http.status ≡ true
      → verify c verifier post ticket context ≡ err invalid_proof
  unfolding verify
  verify_refused http asked refused = elim (Bool-cases (is_well_bound ticket context)) [
    | inl e ↦ rw (e, asked, refused) refl
    | inr e ↦ rw e refl
  ]

https_or_allowed :
    (scheme : Text) (allow : Bool)
    → (bytes_eq scheme (codes "https") || allow) ≡ true
    → (scheme ≡ codes "https") ⊎ (allow ≡ true)
https_or_allowed scheme allow h = elim (Bool-cases (bytes_eq scheme (codes "https"))) [
  | inl e ↦ inl ((bytes_eq_iff scheme (codes "https")).0 e)
  | inr e ↦ inr (rw e at h)
]

-- A verifier is built only with an https endpoint or under the explicit local override, and always
-- with a bearer token and an audience.
pub new_policy :
    (parse : Text → Option Url) (built : Bool) (endpoint_text bearer_token audience : Text)
    (allow_insecure_http : Bool) (v : ActumVerifier)
    → new parse built endpoint_text bearer_token audience allow_insecure_http ≡ ok v
    → (parse endpoint_text ≡ some v.endpoint)
      × ((v.endpoint.scheme ≡ codes "https") ⊎ (allow_insecure_http ≡ true))
      × (v.bearer_token ≢ [])
      × (v.audience ≢ [])
unfolding new
new_policy parse built endpoint_text bearer_token audience allow v h =
    let (endpoint, parsed, r1) = >>=-eq-ok (ok_or (parse endpoint_text) invalid_url) _ h in
    let (_, secure, r2) =
      >>=-eq-ok (guard (bytes_eq endpoint.scheme (codes "https") || allow) not_https) _ r1 in
    let (_, token, r3) = >>=-eq-ok (guard (not (is_empty bearer_token)) no_bearer_token) _ r2 in
    let (_, named, r4) = >>=-eq-ok (guard (not (is_empty audience)) no_audience) _ r3 in
    let (_, _, r5) = >>=-eq-ok (guard built no_client) _ r4 in
    let same = ok-injective r5 in
    let https =
      https_or_allowed endpoint.scheme allow
        (guard-eq-ok (bytes_eq endpoint.scheme (codes "https") || allow) _ secure) in
    (
      ok_or-eq-ok (parse endpoint_text) _ parsed ∙ ap (λ w. some w.endpoint) same,
      subst (λ w. (w.endpoint.scheme ≡ codes "https") ⊎ (allow ≡ true)) same https,
      subst (λ w. w.bearer_token ≢ []) same
          (is_empty_lem bearer_token (guard-eq-ok (not (is_empty bearer_token)) _ token)),
      subst (λ w. w.audience ≢ []) same
          (is_empty_lem audience (guard-eq-ok (not (is_empty audience)) _ named)),
    )
