-- ===== src/Envelope/Privacy.antt =====
-- What an observer of envelopes sees, and what a client accepts (common/src/envelope.rs).
use zk_llm_gateway.Prelude.{ℕ, ◌+◌, ◌<◌, ◌≡◌, refl, ap, ◌∙◌, inl, inr, some, arith, length, ◌==◌}
use zk_llm_gateway.Prelude.Text.{Bytes}
use zk_llm_gateway.Prelude.Result.{
  ok, err, guard, ok_or, map_err, >>=-eq-ok, ok_or-eq-ok, map_err-eq-ok, ok-injective,
}
use zk_llm_gateway.Crypto.{Crypto, CryptoLaws}
use zk_llm_gateway.Token.{
  TokenClass, too_large, trim_zero_padding, pad_to_len, envelope_request_plaintext_bytes,
  envelope_response_plaintext_bytes,
}
use zk_llm_gateway.Token.Padding.{length-pad_to_len, pad_to_len_lem}
use zk_llm_gateway.Envelope.{
  Envelope, GatewayKeypair, ClientCryptoContext, envelope_version, request, response,
  ensure_contributory, decode_eph_pubkey, decode_client_nonce, derive_key, padding,
  unsupported_version, aead_encrypt_failed, aad_bytes, seal_request_for_gateway,
  seal_response_at_gateway, open_response,
}
use zk_llm_gateway.Envelope.Binding.{Transcript, aad}
use zk_llm_gateway.Envelope.Opening.{open_response_sound}

-- The ciphertext of an envelope is `n` bytes long.
abbrev pub HasSize : Crypto → Envelope → ℕ → Type 0
HasSize c env n = (ct : Bytes) × (c.b64_decode env.ciphertext_b64 ≡ some ct) × (length ct ≡ n)

-- The transcript that a client keeps for its request.
abbrev pub own_transcript : ClientCryptoContext → Transcript
own_transcript ctx = record {
  version = envelope_version;
  token_class = ctx.token_class;
  request_id = ctx.request_id;
  client_nonce = ctx.client_nonce_bytes;
  eph_pub = ctx.eph_pub_bytes;
  gateway_pub = ctx.gateway_public_bytes;
}

module _ (c : Crypto) (laws : CryptoLaws c) where
  -- The ciphertext of a sealed request has the length of its class, whatever the request says, and
  -- the envelope shows the class and the request id that the caller gave.
  pub seal_request-HasSize :
      (eph_secret client_nonce nonce gateway_public : Bytes) (tc : TokenClass) (id : ℕ)
      (plaintext : Bytes) (env : Envelope) (ctx : ClientCryptoContext)
      → seal_request_for_gateway c eph_secret client_nonce nonce gateway_public tc id plaintext
        ≡ ok (env, ctx)
      → HasSize c env (envelope_request_plaintext_bytes tc + 16)
        × (env.token_class ≡ tc)
        × (env.request_id ≡ id)
  unfolding seal_request_for_gateway
  seal_request-HasSize eph_secret client_nonce nonce gateway_public tc id plaintext env ctx h =
      let eph = c.public_from eph_secret in
      let (padded, pad_ok, r1) =
        >>=-eq-ok (map_err padding (pad_to_len plaintext (envelope_request_plaintext_bytes tc))) _
          h in
      let shared = c.diffie_hellman eph_secret gateway_public in
      let (_, _, r2) = >>=-eq-ok (ensure_contributory shared) _ r1 in
      let (key, _, r3) =
        >>=-eq-ok (derive_key c shared request tc id client_nonce eph gateway_public) _ r2 in
      let sealed =
        c.encrypt key nonce padded
          (aad_bytes c envelope_version tc request id client_nonce eph gateway_public) in
      let (ct, ct_ok, r4) = >>=-eq-ok (ok_or sealed aead_encrypt_failed) _ r3 in
      let built = ap (λ p. p.0) (ok-injective r4) in
      rw (← built) (
        (
          ct,
          laws.b64_round ct,
          laws.encrypt_length _ _ _ _ ct (ok_or-eq-ok sealed _ ct_ok)
              ∙ ap (λ n. n + 16)
                  (length-pad_to_len plaintext _ padded (
                    map_err-eq-ok padding
                      (pad_to_len plaintext (envelope_request_plaintext_bytes tc)) pad_ok)),
        ),
        refl,
        refl,
      )

  -- The ciphertext of a sealed response has the length of its class, and the response repeats the
  -- class, the request id, the client nonce and the ephemeral key of its request.
  pub seal_response-HasSize :
      (keypair : GatewayKeypair) (nonce : Bytes) (request_env : Envelope) (plaintext : Bytes)
      (env : Envelope)
      → seal_response_at_gateway c keypair nonce request_env plaintext ≡ ok env
      → HasSize c env (envelope_response_plaintext_bytes request_env.token_class + 16)
        × (env.token_class ≡ request_env.token_class)
        × (env.request_id ≡ request_env.request_id)
        × (env.client_nonce_b64 ≡ request_env.client_nonce_b64)
        × (env.kem_pub_b64 ≡ request_env.kem_pub_b64)
  unfolding seal_response_at_gateway
  seal_response-HasSize keypair nonce request_env plaintext env h =
      let tc = request_env.token_class in
      let (_, _, r1) =
        >>=-eq-ok
          (guard (request_env.version == envelope_version)
            (unsupported_version request_env.version))
          _ h in
      let (eph, _, r2) = >>=-eq-ok (decode_eph_pubkey c request_env) _ r1 in
      let (client_nonce, _, r3) = >>=-eq-ok (decode_client_nonce c request_env) _ r2 in
      let fit = pad_to_len plaintext (envelope_response_plaintext_bytes tc) in
      let (padded, pad_ok, r4) = >>=-eq-ok (map_err padding fit) _ r3 in
      let shared = c.diffie_hellman keypair.secret eph in
      let (_, _, r5) = >>=-eq-ok (ensure_contributory shared) _ r4 in
      let (key, _, r6) =
        >>=-eq-ok
          (derive_key c shared response tc request_env.request_id client_nonce eph keypair.public) _
          r5 in
      let sealed = c.encrypt key nonce padded (
        aad_bytes c request_env.version tc response request_env.request_id client_nonce eph
          keypair.public) in
      let (ct, ct_ok, r7) = >>=-eq-ok (ok_or sealed aead_encrypt_failed) _ r6 in
      rw (← ok-injective r7) (
        (
          ct,
          laws.b64_round ct,
          laws.encrypt_length _ _ _ _ ct (ok_or-eq-ok sealed _ ct_ok)
              ∙ ap (λ n. n + 16)
                  (length-pad_to_len plaintext _ padded (map_err-eq-ok padding fit pad_ok)),
        ),
        refl,
        refl,
        refl,
        refl,
      )

  -- A client accepts only an envelope of the current version for its own request id and class, whose
  -- ciphertext is the encryption, under the response key of its own transcript and with the
  -- associated data of that transcript in the response direction, of a text that trims to the plaintext.
  pub open_response-bound :
      (ctx : ClientCryptoContext) (env : Envelope) (plaintext : Bytes)
      → open_response c ctx env ≡ ok plaintext
      → (env.version ≡ envelope_version)
        × (env.request_id ≡ ctx.request_id)
        × (env.token_class ≡ ctx.token_class)
        × ((key nonce padded ct : Bytes) × (derive_key c
                (c.diffie_hellman ctx.eph_secret_bytes ctx.gateway_public_bytes)
                response
                ctx.token_class
                ctx.request_id
                ctx.client_nonce_bytes
                ctx.eph_pub_bytes
                ctx.gateway_public_bytes
              ≡ ok key)
            × (c.b64_decode env.ciphertext_b64 ≡ some ct)
            × (c.encrypt key nonce padded (aad c response (own_transcript ctx)) ≡ some ct)
            × (plaintext ≡ trim_zero_padding padded))
  open_response-bound ctx env plaintext h =
      let o = open_response_sound c ctx env plaintext h in
      (
        o.current,
        o.same_request,
        o.same_class,
        (
          o.key,
          o.nonce,
          o.padded,
          o.ciphertext,
          o.derived,
          o.ciphertext_decoded,
          laws.encrypt_decrypt _ _ _ _ _ (rw o.current at o.decrypted),
          o.trimmed,
        ),
      )

-- A request that does not fit its class is refused with its length and the limit of the class.
pub seal_request-too_large :
    (c : Crypto) (eph_secret client_nonce nonce gateway_public : Bytes) (tc : TokenClass) (id : ℕ)
    (plaintext : Bytes)
    → envelope_request_plaintext_bytes tc < length plaintext
    → seal_request_for_gateway c eph_secret client_nonce nonce gateway_public tc id plaintext
      ≡ err (padding (too_large (length plaintext) (envelope_request_plaintext_bytes tc)))
unfolding seal_request_for_gateway
seal_request-too_large c eph_secret client_nonce nonce gateway_public tc id plaintext over =
    elim (pad_to_len_lem plaintext (envelope_request_plaintext_bytes tc)) [
      | inl (fits, _) ↦ absurd (omega arith)
      | inr (_, e) ↦ rw e
    ]
