-- ===== src/Envelope/RoundTrip.antt =====
-- A request sealed by a client opens at the gateway, and the answer opens at the client
-- (common/src/envelope.rs).
use zk_llm_gateway.Prelude.{◌+◌, ℕ, ◌^◌, ◌≤◌, ◌≡◌, refl, sym, ap, inl, inr, arith, length}
use zk_llm_gateway.Prelude.Text.{Bytes}
use zk_llm_gateway.Prelude.Result.{ok, ok_or}
use zk_llm_gateway.Crypto.{Crypto, CryptoLaws}
use zk_llm_gateway.Token.{
  TokenClass, pad_to_len, envelope_request_plaintext_bytes, envelope_response_plaintext_bytes,
}
use zk_llm_gateway.Token.Padding.{
  NoTrailingZero, pad_to_len_lem, trim-pad_to_len, length-pad_to_len,
}
use zk_llm_gateway.Envelope.{
  KeyDirection, Envelope, ClientCryptoContext, envelope_version, request, response, binding_salt,
  hkdf_info, hkdf_expand_failed, ensure_contributory, decode_eph_pubkey, decode_client_nonce,
  decode_nonce, derive_key, aad_bytes, from_secret_bytes, seal_request_for_gateway,
  seal_response_at_gateway, open_request_at_gateway, open_response,
}
use zk_llm_gateway.Envelope.Opening.{open_request_complete, open_response_complete}

module _ (c : Crypto) (laws : CryptoLaws c) where
  decode_eph_pubkey-encode :
      (env : Envelope) (b : Bytes)
      → env.kem_pub_b64 ≡ c.b64_encode b
      → length b ≡ 32
      → decode_eph_pubkey c env ≡ ok b
  unfolding decode_eph_pubkey
  decode_eph_pubkey-encode env b e n = rw (e, laws.b64_round b, n)

  decode_client_nonce-encode :
      (env : Envelope) (b : Bytes)
      → env.client_nonce_b64 ≡ c.b64_encode b
      → length b ≡ 32
      → decode_client_nonce c env ≡ ok b
  unfolding decode_client_nonce
  decode_client_nonce-encode env b e n = rw (e, laws.b64_round b, n)

  decode_nonce-encode :
      (env : Envelope) (b : Bytes)
      → env.nonce_b64 ≡ c.b64_encode b
      → length b ≡ 12
      → decode_nonce c env ≡ ok b
  unfolding decode_nonce
  decode_nonce-encode env b e n = rw (e, laws.b64_round b, n)

  derive_key_total :
      (shared : Bytes) (dir : _) (tc : TokenClass) (id : ℕ) (cn eph gw : Bytes)
      → (key : Bytes) × (derive_key c shared dir tc id cn eph gw ≡ ok key)
  unfolding derive_key
  derive_key_total shared dir tc id cn eph gw =
      let (okm, e) =
        laws.hkdf_total (binding_salt c envelope_version tc id cn eph gw) shared
          (hkdf_info tc dir) in
      (okm, ap (λ o. ok_or o hkdf_expand_failed) e)

  request_room : (tc : TokenClass) → envelope_request_plaintext_bytes tc + 64 ≤ 2 ^ 38
  unfolding envelope_request_plaintext_bytes
  request_room tc = ground arith

  response_room : (tc : TokenClass) → envelope_response_plaintext_bytes tc + 64 ≤ 2 ^ 38
  unfolding envelope_response_plaintext_bytes
  response_room tc = ground arith

  pad_total :
      (payload : Bytes) (n : ℕ)
      → length payload ≤ n
      → (padded : Bytes) × (pad_to_len payload n ≡ ok padded) × (length padded ≡ n)
  pad_total payload n fits = elim (pad_to_len_lem payload n) [
    | inl (_, e) ↦ (_, e, length-pad_to_len payload n _ e)
    | inr (over, _) ↦ absurd (omega arith)
  ]

-- What `seal_request_for_gateway` and `seal_response_at_gateway` build around a ciphertext.
module _ (c : Crypto) (eph_secret client_nonce : Bytes) (tc : TokenClass) (id : ℕ) where
  abbrev request_env : Bytes → Bytes → Envelope
  request_env nonce ciphertext = record {
    version = envelope_version;
    token_class = tc;
    request_id = id;
    client_nonce_b64 = c.b64_encode client_nonce;
    kem_pub_b64 = c.b64_encode (c.public_from eph_secret);
    nonce_b64 = c.b64_encode nonce;
    ciphertext_b64 = c.b64_encode ciphertext;
  }

  abbrev request_ctx : Bytes → ClientCryptoContext
  request_ctx gateway_public = record {
    eph_secret_bytes = eph_secret;
    eph_pub_bytes = c.public_from eph_secret;
    gateway_public_bytes = gateway_public;
    client_nonce_bytes = client_nonce;
    request_id = id;
    token_class = tc;
  }

module _ (c : Crypto) (laws : CryptoLaws c) (secret eph_secret client_nonce : Bytes)
    (tc : TokenClass) (id : ℕ) (client_nonce_size : length client_nonce ≡ 32)
    (contributory : ensure_contributory (c.diffie_hellman eph_secret (c.public_from secret))
      ≡ ok tt) where
  abbrev eph : Bytes
  eph = c.public_from eph_secret

  abbrev gw : Bytes
  gw = c.public_from secret

  abbrev aad : KeyDirection → Bytes
  aad dir = aad_bytes c envelope_version tc dir id client_nonce eph gw

  exchange_request :
      (nonce plaintext : Bytes)
      → length nonce ≡ 12
      → length plaintext ≤ envelope_request_plaintext_bytes tc
      → NoTrailingZero plaintext
      → (ct : Bytes) × (seal_request_for_gateway c eph_secret client_nonce nonce
            (from_secret_bytes c secret).public
            tc
            id
            plaintext
          ≡ ok (
            request_env c eph_secret client_nonce tc id nonce ct,
            request_ctx c eph_secret client_nonce tc id gw,
          ))
        × (open_request_at_gateway c
              (from_secret_bytes c secret)
              (request_env c eph_secret client_nonce tc id nonce ct)
            ≡ ok plaintext)
  unfolding from_secret_bytes seal_request_for_gateway
  exchange_request nonce plaintext nonce_size fits clean =
      let (padded, pad_ok, pad_size) =
        pad_total c laws plaintext (envelope_request_plaintext_bytes tc) fits in
      let (key, key_ok) =
        derive_key_total c laws (c.diffie_hellman eph_secret gw) request tc id client_nonce eph
          gw in
      let (ct, ct_ok) =
        laws.encrypt_total key nonce padded (aad request) (omega (arith, request_room c laws tc)) in
      (
        ct,
        rw (pad_ok, contributory, key_ok, ct_ok),
        open_request_complete c (from_secret_bytes c secret)
            (request_env c eph_secret client_nonce tc id nonce ct) plaintext
            (record {
              eph_pub = eph;
              client_nonce = client_nonce;
              nonce = nonce;
              ciphertext = ct;
              key = key;
              padded = padded;
              current = refl;
              eph_decoded =
                  decode_eph_pubkey-encode c laws _ eph refl (laws.public_length eph_secret);
              client_nonce_decoded =
                  decode_client_nonce-encode c laws _ client_nonce refl client_nonce_size;
              nonce_decoded = decode_nonce-encode c laws _ nonce refl nonce_size;
              ciphertext_decoded = laws.b64_round ct;
              contributory = rw (laws.dh_agree secret eph_secret) contributory;
              derived = rw (laws.dh_agree secret eph_secret) key_ok;
              decrypted = laws.decrypt_encrypt key nonce padded (aad request) ct ct_ok;
              trimmed = sym (trim-pad_to_len plaintext _ padded clean pad_ok).1;
            }),
      )

  exchange_response :
      (sent_nonce sent nonce answer : Bytes)
      → length nonce ≡ 12
      → length answer ≤ envelope_response_plaintext_bytes tc
      → NoTrailingZero answer
      → (answer_env : Envelope) × (seal_response_at_gateway c
            (from_secret_bytes c secret)
            nonce
            (request_env c eph_secret client_nonce tc id sent_nonce sent)
            answer
          ≡ ok answer_env)
        × (open_response c (request_ctx c eph_secret client_nonce tc id gw) answer_env ≡ ok answer)
  unfolding from_secret_bytes seal_response_at_gateway
  exchange_response sent_nonce sent nonce answer nonce_size fits clean =
      let (padded, pad_ok, pad_size) =
        pad_total c laws answer (envelope_response_plaintext_bytes tc) fits in
      let (key, key_ok) =
        derive_key_total c laws (c.diffie_hellman eph_secret gw) response tc id client_nonce eph
          gw in
      let (ct, ct_ok) =
        laws.encrypt_total key nonce padded (aad response)
          (omega (arith, response_room c laws tc)) in
      let agree = laws.dh_agree secret eph_secret in
      let answer_env : Envelope = request_env c eph_secret client_nonce tc id nonce ct in
      (
        answer_env,
        rw (
          decode_eph_pubkey-encode c laws
              (request_env c eph_secret client_nonce tc id sent_nonce sent) eph refl
              (laws.public_length eph_secret),
          decode_client_nonce-encode c laws
              (request_env c eph_secret client_nonce tc id sent_nonce sent) client_nonce refl
              client_nonce_size,
          pad_ok,
          agree,
          contributory,
          key_ok,
          ct_ok,
        ),
        open_response_complete c (request_ctx c eph_secret client_nonce tc id gw) answer_env answer
            (record {
              nonce = nonce;
              ciphertext = ct;
              key = key;
              padded = padded;
              current = refl;
              same_request = refl;
              same_class = refl;
              eph_decoded =
                  decode_eph_pubkey-encode c laws _ eph refl (laws.public_length eph_secret);
              client_nonce_decoded =
                  decode_client_nonce-encode c laws _ client_nonce refl client_nonce_size;
              nonce_decoded = decode_nonce-encode c laws _ nonce refl nonce_size;
              ciphertext_decoded = laws.b64_round ct;
              contributory = contributory;
              derived = key_ok;
              decrypted = laws.decrypt_encrypt key nonce padded (aad response) ct ct_ok;
              trimmed = sym (trim-pad_to_len answer _ padded clean pad_ok).1;
            }),
      )

-- With a client nonce and AEAD nonces of the right lengths, a key agreement that is not all zero,
-- and payloads that fit their class and do not end in a zero byte, all four steps succeed: the
-- gateway opens the sealed request to the client's plaintext, and the client opens the sealed
-- response to the gateway's answer.
pub exchange :
    (c : Crypto) (laws : CryptoLaws c) (secret eph_secret client_nonce nonce nonce' : Bytes)
    (tc : TokenClass) (id : ℕ) (plaintext answer : Bytes)
    → length client_nonce ≡ 32
    → length nonce ≡ 12
    → length nonce' ≡ 12
    → ensure_contributory (c.diffie_hellman eph_secret (c.public_from secret)) ≡ ok tt
    → length plaintext ≤ envelope_request_plaintext_bytes tc
    → NoTrailingZero plaintext
    → length answer ≤ envelope_response_plaintext_bytes tc
    → NoTrailingZero answer
    → (env : Envelope) × (ctx : ClientCryptoContext) × (answer_env : Envelope)
      × (seal_request_for_gateway c eph_secret client_nonce nonce
            (from_secret_bytes c secret).public
            tc
            id
            plaintext
          ≡ ok (env, ctx))
      × (open_request_at_gateway c (from_secret_bytes c secret) env ≡ ok plaintext)
      × (seal_response_at_gateway c (from_secret_bytes c secret) nonce' env answer ≡ ok answer_env)
      × (open_response c ctx answer_env ≡ ok answer)
exchange c laws secret eph_secret client_nonce nonce nonce' tc id plaintext answer sc s1 s2
      contributory fits clean answer_fits answer_clean =
    let (ct, sealed, opened) =
      exchange_request c laws secret eph_secret client_nonce tc id sc contributory nonce plaintext
        s1 fits clean in
    let (answer_env, answer_sealed, answer_opened) =
      exchange_response c laws secret eph_secret client_nonce tc id sc contributory nonce ct nonce'
        answer s2 answer_fits answer_clean in
    (_, _, answer_env, sealed, opened, answer_sealed, answer_opened)
