-- ===== src/Gateway/Infer/Sealed.antt =====
-- What the gateway sends back (`infer` in gateway/src/main.rs), seen from the network and from the
-- client that sealed the request (common/src/envelope.rs).
use Prim.Native.String.{◌++◌}
use zk_llm_gateway.Prelude.{
  ◌+◌, ◌≤◌, ◌<◌, ◌≡◌, refl, sym, ap, ◌∙◌, inl, inr, Option, some, arith, length, ℕ,
}
use zk_llm_gateway.Prelude.Text.{Bytes}
use zk_llm_gateway.Prelude.Result.{Result, ok, err, map_err, >>=-eq-ok, map_err-eq-ok, ok-injective}
use zk_llm_gateway.Crypto.{CryptoLaws}
use zk_llm_gateway.Sled.{SledLaws}
use zk_llm_gateway.Token.{
  TokenClass, too_large, envelope_request_plaintext_bytes, envelope_response_plaintext_bytes,
}
use zk_llm_gateway.Token.Padding.{NoTrailingZero, pad_to_len_lem}
use zk_llm_gateway.Types.{InferenceRequest, GatewayEnvelopePayload}
use zk_llm_gateway.Envelope.{
  Envelope, ClientCryptoContext, padding, ensure_contributory, from_secret_bytes,
  seal_request_for_gateway, open_request_at_gateway, seal_response_at_gateway, open_response,
}
use zk_llm_gateway.Envelope.Opening.{open_request_sound}
use zk_llm_gateway.Envelope.Privacy.{HasSize, seal_response-HasSize}
use zk_llm_gateway.Envelope.RoundTrip.{exchange}
use zk_llm_gateway.Nullifier.{encode_nullifier_value, spent_status}
use zk_llm_gateway.Gateway.{AppState, ApiError, internal_failure, ProviderChatCompletionResult}
use zk_llm_gateway.Gateway.Infer.{
  Clock, infer_checked, payload_of, internal_api_error, finalize_encrypted_response, seal_payload,
  infer_canonical, open_infer, after_open, infer,
}
use zk_llm_gateway.Gateway.Infer.Paid.{IsAuthorized, infer_checked-IsPaid}

module _ (st : AppState) where
  finalize-ok :
      (env answer : Envelope) (nonce payload : Bytes) (id : Option ℕ)
      → finalize_encrypted_response st env nonce payload id ≡ ok answer
      → seal_response_at_gateway st.crypto st.keypair nonce env payload ≡ ok answer
  unfolding finalize_encrypted_response
  finalize-ok env answer nonce payload id h =
      map_err-eq-ok _ (seal_response_at_gateway st.crypto st.keypair nonce env payload) h

  seal_payload-ok :
      (env answer : Envelope) (req : InferenceRequest) (nonce : Bytes)
      (payload : GatewayEnvelopePayload)
      → seal_payload st env req nonce payload ≡ ok answer
      → (bytes : Bytes) × (seal_response_at_gateway st.crypto st.keypair nonce env bytes
          ≡ ok answer)
  unfolding seal_payload
  seal_payload-ok env answer req nonce payload h =
      let (bytes, _, r) =
        >>=-eq-ok
          (map_err (λ e. internal_api_error st (some req.request_id) ("serialize: " ++ e))
            (st.payload_to_vec payload))
          _ h in
      (bytes, finalize-ok env answer nonce bytes (some req.request_id) r)

  after_open-sealed :
      (env answer : Envelope) (nonce : Bytes) (clock : Clock)
      (opened : Result ApiError InferenceRequest) (db : st.sled.Db)
      → (after_open st env nonce clock opened db).result ≡ ok answer
      → (bytes : Bytes) × (seal_response_at_gateway st.crypto st.keypair nonce env bytes
          ≡ ok answer)
  unfolding after_open infer_canonical
  after_open-sealed env answer nonce clock (ok req) db h = seal_payload-ok env answer req nonce _ h
  after_open-sealed env answer nonce clock (err e) db h = absurd (cc h)

  -- Under the laws of the ciphers, every envelope that the handler answers with, be there a result
  -- or an error in it, has a ciphertext of the one length of its class, and repeats the class, the
  -- id, the client nonce and the ephemeral key of the request's envelope.
  pub infer-HasSize :
      (laws : CryptoLaws st.crypto) (env answer : Envelope) (nonce : Bytes) (clock : Clock)
      (db : st.sled.Db)
      → (infer st env nonce clock db).result ≡ ok answer
      → HasSize st.crypto answer (envelope_response_plaintext_bytes env.token_class + 16)
        × (answer.token_class ≡ env.token_class)
        × (answer.request_id ≡ env.request_id)
        × (answer.client_nonce_b64 ≡ env.client_nonce_b64)
        × (answer.kem_pub_b64 ≡ env.kem_pub_b64)
  unfolding infer
  infer-HasSize laws env answer nonce clock db h =
      let (bytes, sealed) = after_open-sealed env answer nonce clock (open_infer st env) db h in
      seal_response-HasSize st.crypto laws st.keypair nonce env bytes answer sealed

  -- The handler's answer to an envelope that opens, once its payload is serialized.
  infer_sealed :
      (env : Envelope) (nonce bytes plaintext : Bytes) (clock : Clock) (db : st.sled.Db)
      (req : InferenceRequest)
      → open_request_at_gateway st.crypto st.keypair env ≡ ok plaintext
      → st.parse_request plaintext ≡ ok req
      → st.payload_to_vec (payload_of st req (infer_checked st env req clock db).result) ≡ ok bytes
      → ((infer st env nonce clock db).result
          ≡ finalize_encrypted_response st env nonce bytes (some req.request_id))
        × ((infer st env nonce clock db).db ≡ (infer_checked st env req clock db).db)
  unfolding infer open_infer after_open infer_canonical seal_payload
  infer_sealed env nonce bytes plaintext clock db req opened parsed encoded =
      (rw (opened, parsed, encoded) refl, rw (opened, parsed) refl)

  -- Let a client with random bytes of the right lengths and a contributory key agreement seal a
  -- plaintext that fits its class and does not end in a zero byte, and let the gateway parse it. If
  -- the payload that the gateway then makes, a result or an error, can be serialized, fits the class
  -- and does not end in a zero byte, the handler answers, and the client opens that payload.
  pub infer_reaches_client :
      (laws : CryptoLaws st.crypto) (secret eph_secret client_nonce nonce nonce' : Bytes)
      (tc : TokenClass) (id : ℕ) (plaintext bytes : Bytes) (env : Envelope)
      (ctx : ClientCryptoContext) (clock : Clock) (db : st.sled.Db) (req : InferenceRequest)
      → st.keypair ≡ from_secret_bytes st.crypto secret
      → length client_nonce ≡ 32
      → length nonce ≡ 12
      → length nonce' ≡ 12
      → ensure_contributory (st.crypto.diffie_hellman eph_secret (st.crypto.public_from secret))
        ≡ ok tt
      → length plaintext ≤ envelope_request_plaintext_bytes tc
      → NoTrailingZero plaintext
      → seal_request_for_gateway st.crypto eph_secret client_nonce nonce st.keypair.public tc id
          plaintext
        ≡ ok (env, ctx)
      → st.parse_request plaintext ≡ ok req
      → st.payload_to_vec (payload_of st req (infer_checked st env req clock db).result) ≡ ok bytes
      → length bytes ≤ envelope_response_plaintext_bytes tc
      → NoTrailingZero bytes
      → (answer : Envelope) × ((infer st env nonce' clock db).result ≡ ok answer)
        × (open_response st.crypto ctx answer ≡ ok bytes)
  unfolding finalize_encrypted_response
  infer_reaches_client laws secret eph_secret client_nonce nonce nonce' tc id plaintext bytes env
        ctx clock db req key client_size size size' contributory fits clean sealed parsed encoded
        fits' clean' =
      let (env0, ctx0, answer, sealed0, opened0, answered0, read0) =
        exchange st.crypto laws secret eph_secret client_nonce nonce nonce' tc id plaintext bytes
          client_size size size' contributory fits clean fits' clean' in
      let same = ok-injective (sym (rw key sealed0) ∙ sealed) in
      let opened : open_request_at_gateway st.crypto st.keypair env ≡ ok plaintext =
        rw (key, ← ap (λ p. p.0) same) opened0 in
      let answered : seal_response_at_gateway st.crypto st.keypair nonce' env bytes ≡ ok answer =
        rw (key, ← ap (λ p. p.0) same) answered0 in
      (
        answer,
        (infer_sealed env nonce' bytes plaintext clock db req opened parsed encoded).0
            ∙ rw answered refl,
        rw (← ap (λ p. p.1) same) read0,
      )

  -- An opened envelope refuses a response that is longer than its class allows.
  too_large_refused :
      (env : Envelope) (plaintext nonce bytes : Bytes)
      → open_request_at_gateway st.crypto st.keypair env ≡ ok plaintext
      → envelope_response_plaintext_bytes env.token_class < length bytes
      → seal_response_at_gateway st.crypto st.keypair nonce env bytes
        ≡ err
            (padding (too_large (length bytes) (envelope_response_plaintext_bytes env.token_class)))
  unfolding seal_response_at_gateway
  too_large_refused env plaintext nonce bytes opened over =
      let o = open_request_sound st.crypto st.keypair env plaintext opened in
      elim (pad_to_len_lem bytes (envelope_response_plaintext_bytes env.token_class)) [
        | inl (fits, _) ↦ absurd (omega arith)
        | inr (_, e) ↦ rw (o.eph_decoded, o.client_nonce_decoded, e, o.current) refl
      ]

  -- If the envelope opens, its text parses, the provider's result is charged for, and the payload
  -- made of it is serialized and longer than the class allows, the handler answers with an internal
  -- error in the clear, and the key of the accepted ticket is then spent.
  pub infer_too_large :
      (laws : SledLaws st.sled) (env : Envelope) (nonce bytes plaintext : Bytes) (clock : Clock)
      (db : st.sled.Db) (req : InferenceRequest) (r : ProviderChatCompletionResult)
      → open_request_at_gateway st.crypto st.keypair env ≡ ok plaintext
      → st.parse_request plaintext ≡ ok req
      → (infer_checked st env req clock db).result ≡ ok r
      → st.payload_to_vec (payload_of st req (ok r)) ≡ ok bytes
      → envelope_response_plaintext_bytes env.token_class < length bytes
      → ((infer st env nonce clock db).result
          ≡ err (
              internal_failure (record {
                request_id = some req.request_id;
                code = "internal_error";
                message =
                    "encrypt: "
                    ++ st.describe (
                        padding (
                          too_large
                            (length bytes)
                            (envelope_response_plaintext_bytes env.token_class)));
              })))
        × ((rkey : Bytes) × IsAuthorized st req rkey
            × (st.sled.contents (infer st env nonce clock db).db rkey
                ≡ some (encode_nullifier_value spent_status clock.spent_at)))
  unfolding finalize_encrypted_response internal_api_error
  infer_too_large laws env nonce bytes plaintext clock db req r opened parsed answered encoded
        over =
      let (sealed, same_db) =
        infer_sealed env nonce bytes plaintext clock db req opened parsed (rw answered encoded) in
      let (rkey, _, authorized, paid) = infer_checked-IsPaid st laws env clock db req r answered in
      (
        sealed ∙ rw (too_large_refused env plaintext nonce bytes opened over) refl,
        (rkey, authorized, ap (λ d. st.sled.contents d rkey) same_db ∙ paid.spends),
      )
