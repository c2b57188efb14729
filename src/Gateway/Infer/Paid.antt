-- ===== src/Gateway/Infer/Paid.antt =====
-- What the gateway checks before it calls the provider, and before it answers with a result
-- (`infer` and `infer_canonical` in gateway/src/main.rs).
use zk_llm_gateway.Prelude.{
  ◌≤◌, ◌≡◌, ◌≢◌, refl, sym, Bool, true, false, not, Option, none, some, [], ◌∷◌, arith, leb,
  if◌then◌else◌,
}
use zk_llm_gateway.Prelude.Text.{Bytes}
use zk_llm_gateway.Prelude.Result.{
  Result, ok, err, ◌>>◌, guard, ok_or, map_err, >>=-eq-ok, guard-eq-ok, ok_or-eq-ok, map_err-eq-ok,
  ok-injective,
}
use zk_llm_gateway.Sled.{SledLaws}
use zk_llm_gateway.Token.{class_eq, max_prompt_bytes}
use zk_llm_gateway.Token.Classes.{class_eq_iff}
use zk_llm_gateway.Types.{
  InferenceRequest, VerifiedTicket, authorization_commitment, is_empty, replay_key,
}
use zk_llm_gateway.Envelope.{Envelope}
use zk_llm_gateway.Gateway.{
  AppState, EncryptedError, map_zk_error, ApiError, ProviderChatCompletionResult, provider_call,
  approx_prompt_bytes,
}
use zk_llm_gateway.Gateway.Infer.{
  Clock, Outcome, is_streaming, check_request, authorize, after_authorize, infer_checked,
  infer_canonical, open_infer, after_open, infer,
}
use zk_llm_gateway.Gateway.Infer.Charge.{IsFree, IsPaid, charge-IsPaid, charge-calls}

is_streaming_lem : (stream : Option Bool) → not (is_streaming stream) ≡ true → stream ≢ some true
unfolding is_streaming
is_streaming_lem none h = λ e. cc e
is_streaming_lem (some true) h = absurd (cc h)
is_streaming_lem (some false) h = λ e. cc e

module _ (st : AppState) where
  -- The request is of the envelope's class, and so is its ticket; its prompt fits the class, and it
  -- does not ask for a stream.
  pub record IsAdmissible (env : Envelope) (req : InferenceRequest) : Type 0 where
    pub request_class : req.token_class ≡ env.token_class
    pub ticket_class : req.ticket.token_class ≡ req.token_class
    pub prompt_size :
        approx_prompt_bytes st.encoding req.messages ≤ max_prompt_bytes req.token_class
    pub not_stream : req.stream ≢ some true

  check_request-IsAdmissible :
      (env : Envelope) (req : InferenceRequest)
      → check_request st env req ≡ ok tt
      → IsAdmissible env req
  unfolding check_request
  check_request-IsAdmissible env req h =
      let (_, same, r1) = >>=-eq-ok (guard (class_eq req.token_class env.token_class) _) _ h in
      let (_, ticket, r2) =
        >>=-eq-ok (guard (class_eq req.ticket.token_class req.token_class) _) _ r1 in
      let fits =
        leb (approx_prompt_bytes st.encoding req.messages) (max_prompt_bytes req.token_class) in
      let (_, size, r3) = >>=-eq-ok (guard fits _) _ r2 in
      let fits_true = guard-eq-ok fits _ size in
      record {
        request_class =
            (class_eq_iff _ _).0 (guard-eq-ok (class_eq req.token_class env.token_class) _ same);
        ticket_class =
            (class_eq_iff _ _).0
              (guard-eq-ok (class_eq req.ticket.token_class req.token_class) _ ticket);
        prompt_size = ground (arith, fits_true);
        not_stream = is_streaming_lem req.stream (guard-eq-ok (not (is_streaming req.stream)) _ r3);
      }

  -- The verifier accepted the request's ticket for the commitment of this very request, and the
  -- replay key is the one it named, or the hash of the ticket's nullifier where it named none.
  pub record IsAuthorized (req : InferenceRequest) (rkey : Bytes) : Type 0 where
    pub commitment : Bytes
    pub verified : VerifiedTicket
    pub committed : authorization_commitment st.encoding req ≡ some commitment
    pub accepted : st.verify req.ticket (record { request_commitment = commitment }) ≡ ok verified
    pub key : rkey ≡ (
        if is_empty verified.nullifier_key
        then replay_key st.crypto req.ticket
        else verified.nullifier_key)

  authorize-IsAuthorized :
      (req : InferenceRequest) (rkey : Bytes) → authorize st req ≡ ok rkey → IsAuthorized req rkey
  unfolding authorize
  authorize-IsAuthorized req rkey h =
      let (commitment, committed, r1) =
        >>=-eq-ok (ok_or (authorization_commitment st.encoding req) _) _ h in
      let asked = st.verify req.ticket (record { request_commitment = commitment }) in
      let (verified, accepted, r2) = >>=-eq-ok (map_err map_zk_error asked) _ r1 in
      record {
        commitment = commitment;
        verified = verified;
        committed = ok_or-eq-ok (authorization_commitment st.encoding req) _ committed;
        accepted = map_err-eq-ok map_zk_error asked accepted;
        key = sym (ok-injective r2);
      }

  abbrev Checked : Type 0
  Checked = Outcome st EncryptedError ProviderChatCompletionResult

  admitted :
      (env : Envelope) (req : InferenceRequest) (rkey : Bytes)
      → (check_request st env req >> authorize st req) ≡ ok rkey
      → IsAdmissible env req × IsAuthorized req rkey
  admitted env req rkey h =
      let (_, checked, r) = >>=-eq-ok (check_request st env req) _ h in
      (check_request-IsAdmissible env req checked, authorize-IsAuthorized req rkey r)

  module _ (laws : SledLaws st.sled) (env : Envelope) (clock : Clock) (db : st.sled.Db) where
    after_authorize-IsPaid :
        (req : InferenceRequest) (key : Result EncryptedError Bytes)
        (r : ProviderChatCompletionResult)
        → (after_authorize st req clock key db).result ≡ ok r
        → (rkey : Bytes) × (key ≡ ok rkey)
          × IsPaid st laws req clock rkey r db (after_authorize st req clock key db)
    unfolding after_authorize
    after_authorize-IsPaid req (ok rkey) r h =
        (rkey, refl, charge-IsPaid st laws req clock rkey r db h)
    after_authorize-IsPaid req (err e) r h = absurd (cc h)

    -- A result is given only for an admissible request whose ticket was accepted for this very
    -- request and whose key was free, after one call of the provider that answered with it, and then
    -- the key holds the spent value.
    pub infer_checked-IsPaid :
        (req : InferenceRequest) (r : ProviderChatCompletionResult)
        → (infer_checked st env req clock db).result ≡ ok r
        → (rkey : Bytes) × IsAdmissible env req
          × IsAuthorized req rkey
          × IsPaid st laws req clock rkey r db (infer_checked st env req clock db)
    unfolding infer_checked
    infer_checked-IsPaid req r h =
        let (rkey, found, paid) =
          after_authorize-IsPaid req (check_request st env req >> authorize st req) r h in
        let (admissible, authorized) = admitted env req rkey found in
        (rkey, admissible, authorized, paid)

    after_authorize-calls :
        (req : InferenceRequest) (key : Result EncryptedError Bytes)
        → (after_authorize st req clock key db).calls ≢ []
        → (rkey : Bytes) × (key ≡ ok rkey)
          × IsFree st laws req clock rkey db
          × ((after_authorize st req clock key db).calls ≡ provider_call st req ∷ [])
    unfolding after_authorize
    after_authorize-calls req (ok rkey) h =
        let (free, calls) = charge-calls st laws req clock rkey db h in (rkey, refl, free, calls)
    after_authorize-calls req (err e) h = absurd (h refl)

    infer_checked-calls :
        (req : InferenceRequest)
        → (infer_checked st env req clock db).calls ≢ []
        → (rkey : Bytes) × IsAdmissible env req
          × IsAuthorized req rkey
          × IsFree st laws req clock rkey db
          × ((infer_checked st env req clock db).calls ≡ provider_call st req ∷ [])
    unfolding infer_checked
    infer_checked-calls req h =
        let (rkey, found, free, calls) =
          after_authorize-calls req (check_request st env req >> authorize st req) h in
        let (admissible, authorized) = admitted env req rkey found in
        (rkey, admissible, authorized, free, calls)

    module _ (nonce : Bytes) where
      after_open-calls :
          (opened : Result ApiError InferenceRequest)
          → (after_open st env nonce clock opened db).calls ≢ []
          → (req : InferenceRequest) × (rkey : Bytes) × (opened ≡ ok req)
            × IsAdmissible env req
            × IsAuthorized req rkey
            × IsFree st laws req clock rkey db
            × ((after_open st env nonce clock opened db).calls ≡ provider_call st req ∷ [])
      unfolding after_open infer_canonical
      after_open-calls (ok req) h =
          let (rkey, admissible, authorized, free, calls) = infer_checked-calls req h in
          (req, rkey, refl, admissible, authorized, free, calls)
      after_open-calls (err e) h = absurd (h refl)

      -- Whenever the handler calls the provider, the envelope opened to an admissible request whose
      -- ticket the verifier accepted for this very request, the ticket's key was free in the
      -- database, and there was this one call, which the request determines.
      pub infer-calls :
          (infer st env nonce clock db).calls ≢ []
          → (req : InferenceRequest) × (rkey : Bytes) × (open_infer st env ≡ ok req)
            × IsAdmissible env req
            × IsAuthorized req rkey
            × IsFree st laws req clock rkey db
            × ((infer st env nonce clock db).calls ≡ provider_call st req ∷ [])
      unfolding infer
      infer-calls h = after_open-calls (open_infer st env) h
