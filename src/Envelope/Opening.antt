-- ===== src/Envelope/Opening.antt =====
-- What a successful opening means, and what makes an opening succeed (common/src/envelope.rs).
use zk_llm_gateway.Prelude.{◌≡◌, sym, ap, ◌∙◌, some, ◌==◌, ==_iff}
use zk_llm_gateway.Prelude.Text.{Bytes, bytes_eq, bytes_eq_iff, bytes_eq_refl}
use zk_llm_gateway.Prelude.Result.{
  ok, guard, ok_or, >>=-eq-ok, guard-eq-ok, ok_or-eq-ok, ok-injective,
}
use zk_llm_gateway.Token.Classes.{class_eq_iff}
use zk_llm_gateway.Crypto.{Crypto}
use zk_llm_gateway.Token.{class_eq, trim_zero_padding}
use zk_llm_gateway.Envelope.{
  Envelope, GatewayKeypair, ClientCryptoContext, envelope_version, unsupported_version,
  request_id_mismatch, token_class_mismatch, unexpected_eph_pubkey, client_nonce_mismatch,
  invalid_ciphertext_b64, aead_decrypt_failed, request, response, ensure_contributory,
  decode_eph_pubkey, decode_client_nonce, decode_nonce, derive_key, aad_bytes,
  open_request_at_gateway, open_response,
}

module _ (c : Crypto) (keypair : GatewayKeypair) (env : Envelope) where
  -- Everything that `open_request_at_gateway` checked on its way to a plaintext.
  pub record OpenedRequest (plaintext : Bytes) : Type 0 where
    pub eph_pub : Bytes
    pub client_nonce : Bytes
    pub nonce : Bytes
    pub ciphertext : Bytes
    pub key : Bytes
    pub padded : Bytes
    pub current : env.version ≡ envelope_version
    pub eph_decoded : decode_eph_pubkey c env ≡ ok eph_pub
    pub client_nonce_decoded : decode_client_nonce c env ≡ ok client_nonce
    pub nonce_decoded : decode_nonce c env ≡ ok nonce
    pub ciphertext_decoded : c.b64_decode env.ciphertext_b64 ≡ some ciphertext
    pub contributory : ensure_contributory (c.diffie_hellman keypair.secret eph_pub) ≡ ok tt
    pub derived :
        derive_key c
          (c.diffie_hellman keypair.secret eph_pub)
          request
          env.token_class
          env.request_id
          client_nonce
          eph_pub
          keypair.public
        ≡ ok key
    pub decrypted :
        c.decrypt key nonce ciphertext (
          aad_bytes c env.version env.token_class request env.request_id client_nonce eph_pub
            keypair.public)
        ≡ some padded
    pub trimmed : plaintext ≡ trim_zero_padding padded

  pub open_request_sound :
      (plaintext : Bytes)
      → open_request_at_gateway c keypair env ≡ ok plaintext
      → OpenedRequest plaintext
  unfolding open_request_at_gateway
  open_request_sound plaintext h =
      let (u, version_ok, r1) =
        >>=-eq-ok (guard (env.version == envelope_version) (unsupported_version env.version)) _ h in
      let (eph, eph_ok, r2) = >>=-eq-ok (decode_eph_pubkey c env) _ r1 in
      let (client, client_ok, r3) = >>=-eq-ok (decode_client_nonce c env) _ r2 in
      let (nonce, nonce_ok, r4) = >>=-eq-ok (decode_nonce c env) _ r3 in
      let (ct, ct_ok, r5) =
        >>=-eq-ok (ok_or (c.b64_decode env.ciphertext_b64) invalid_ciphertext_b64) _ r4 in
      let shared = c.diffie_hellman keypair.secret eph in
      let (v, contributory_ok, r6) = >>=-eq-ok (ensure_contributory shared) _ r5 in
      let (key, key_ok, r7) =
        >>=-eq-ok
          (derive_key c shared request env.token_class env.request_id client eph keypair.public) _
          r6 in
      let aad =
        aad_bytes c env.version env.token_class request env.request_id client eph keypair.public in
      let (padded, padded_ok, r8) =
        >>=-eq-ok (ok_or (c.decrypt key nonce ct aad) aead_decrypt_failed) _ r7 in
      record {
        eph_pub = eph;
        client_nonce = client;
        nonce = nonce;
        ciphertext = ct;
        key = key;
        padded = padded;
        current = (==_iff _ _).0 (guard-eq-ok (env.version == envelope_version) _ version_ok);
        eph_decoded = eph_ok;
        client_nonce_decoded = client_ok;
        nonce_decoded = nonce_ok;
        ciphertext_decoded = ok_or-eq-ok (c.b64_decode env.ciphertext_b64) _ ct_ok;
        contributory = contributory_ok;
        derived = key_ok;
        decrypted = ok_or-eq-ok (c.decrypt key nonce ct aad) _ padded_ok;
        trimmed = sym (ok-injective r8);
      }

  pub open_request_complete :
      (plaintext : Bytes)
      → OpenedRequest plaintext
      → open_request_at_gateway c keypair env ≡ ok plaintext
  unfolding open_request_at_gateway
  open_request_complete plaintext o = rw (
    (==_iff _ _).1 o.current,
    o.eph_decoded,
    o.client_nonce_decoded,
    o.nonce_decoded,
    o.ciphertext_decoded,
    o.contributory,
    o.derived,
    o.decrypted,
    o.trimmed,
  )

module _ (c : Crypto) (ctx : ClientCryptoContext) (env : Envelope) where
  -- Everything that `open_response` checked on its way to a plaintext.
  pub record OpenedResponse (plaintext : Bytes) : Type 0 where
    pub nonce : Bytes
    pub ciphertext : Bytes
    pub key : Bytes
    pub padded : Bytes
    pub current : env.version ≡ envelope_version
    pub same_request : env.request_id ≡ ctx.request_id
    pub same_class : env.token_class ≡ ctx.token_class
    pub eph_decoded : decode_eph_pubkey c env ≡ ok ctx.eph_pub_bytes
    pub client_nonce_decoded : decode_client_nonce c env ≡ ok ctx.client_nonce_bytes
    pub nonce_decoded : decode_nonce c env ≡ ok nonce
    pub ciphertext_decoded : c.b64_decode env.ciphertext_b64 ≡ some ciphertext
    pub contributory :
        ensure_contributory (c.diffie_hellman ctx.eph_secret_bytes ctx.gateway_public_bytes) ≡ ok tt
    pub derived :
        derive_key c
          (c.diffie_hellman ctx.eph_secret_bytes ctx.gateway_public_bytes)
          response
          ctx.token_class
          ctx.request_id
          ctx.client_nonce_bytes
          ctx.eph_pub_bytes
          ctx.gateway_public_bytes
        ≡ ok key
    pub decrypted :
        c.decrypt key nonce ciphertext (
          aad_bytes c env.version ctx.token_class response ctx.request_id ctx.client_nonce_bytes
            ctx.eph_pub_bytes ctx.gateway_public_bytes)
        ≡ some padded
    pub trimmed : plaintext ≡ trim_zero_padding padded

  pub open_response_sound :
      (plaintext : Bytes) → open_response c ctx env ≡ ok plaintext → OpenedResponse plaintext
  unfolding open_response
  open_response_sound plaintext h =
      let (u, version_ok, r1) =
        >>=-eq-ok (guard (env.version == envelope_version) (unsupported_version env.version)) _ h in
      let (u2, id_ok, r2) =
        >>=-eq-ok (guard (env.request_id == ctx.request_id) request_id_mismatch) _ r1 in
      let (u3, class_ok, r3) =
        >>=-eq-ok (guard (class_eq env.token_class ctx.token_class) token_class_mismatch) _ r2 in
      let (eph, eph_ok, r4) = >>=-eq-ok (decode_eph_pubkey c env) _ r3 in
      let (u4, same_eph, r5) =
        >>=-eq-ok (guard (bytes_eq eph ctx.eph_pub_bytes) unexpected_eph_pubkey) _ r4 in
      let (client, client_ok, r6) = >>=-eq-ok (decode_client_nonce c env) _ r5 in
      let (u5, same_client, r7) =
        >>=-eq-ok (guard (bytes_eq client ctx.client_nonce_bytes) client_nonce_mismatch) _ r6 in
      let (nonce, nonce_ok, r8) = >>=-eq-ok (decode_nonce c env) _ r7 in
      let (ct, ct_ok, r9) =
        >>=-eq-ok (ok_or (c.b64_decode env.ciphertext_b64) invalid_ciphertext_b64) _ r8 in
      let shared = c.diffie_hellman ctx.eph_secret_bytes ctx.gateway_public_bytes in
      let (v, contributory_ok, r10) = >>=-eq-ok (ensure_contributory shared) _ r9 in
      let (key, key_ok, r11) =
        >>=-eq-ok
          (derive_key c shared response ctx.token_class ctx.request_id ctx.client_nonce_bytes
            ctx.eph_pub_bytes ctx.gateway_public_bytes)
          _ r10 in
      let aad =
        aad_bytes c env.version ctx.token_class response ctx.request_id ctx.client_nonce_bytes
          ctx.eph_pub_bytes ctx.gateway_public_bytes in
      let (padded, padded_ok, r12) =
        >>=-eq-ok (ok_or (c.decrypt key nonce ct aad) aead_decrypt_failed) _ r11 in
      record {
        nonce = nonce;
        ciphertext = ct;
        key = key;
        padded = padded;
        current = (==_iff _ _).0 (guard-eq-ok (env.version == envelope_version) _ version_ok);
        same_request = (==_iff _ _).0 (guard-eq-ok (env.request_id == ctx.request_id) _ id_ok);
        same_class =
            (class_eq_iff _ _).0
              (guard-eq-ok (class_eq env.token_class ctx.token_class) _ class_ok);
        eph_decoded =
            eph_ok
            ∙ ap ok
                ((bytes_eq_iff _ _).0 (guard-eq-ok (bytes_eq eph ctx.eph_pub_bytes) _ same_eph));
        client_nonce_decoded =
            client_ok
            ∙ ap ok (
                (bytes_eq_iff _ _).0
                  (guard-eq-ok (bytes_eq client ctx.client_nonce_bytes) _ same_client));
        nonce_decoded = nonce_ok;
        ciphertext_decoded = ok_or-eq-ok (c.b64_decode env.ciphertext_b64) _ ct_ok;
        contributory = contributory_ok;
        derived = key_ok;
        decrypted = ok_or-eq-ok (c.decrypt key nonce ct aad) _ padded_ok;
        trimmed = sym (ok-injective r12);
      }

  pub open_response_complete :
      (plaintext : Bytes) → OpenedResponse plaintext → open_response c ctx env ≡ ok plaintext
  unfolding open_response
  open_response_complete plaintext o = rw (
    (==_iff _ _).1 o.current,
    (==_iff _ _).1 o.same_request,
    (class_eq_iff _ _).1 o.same_class,
    o.eph_decoded,
    bytes_eq_refl,
    o.client_nonce_decoded,
    bytes_eq_refl,
    o.nonce_decoded,
    o.ciphertext_decoded,
    o.contributory,
    o.derived,
    o.decrypted,
    o.trimmed,
  )
