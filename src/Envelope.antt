-- ===== src/Envelope.antt =====
-- common/src/envelope.rs: sealing and opening the envelopes between client and gateway. Random
-- bytes (ephemeral secret, client nonce, AEAD nonce) are arguments; zeroizing memory is left out.
pub mod Binding
pub mod Opening
pub mod RoundTrip
pub mod Privacy
mod Tests
use zk_llm_gateway.Prelude.{
  ℕ, ◌≡◌, Bool, true, false, ◌&&◌, not, Option, none, some, List, [], ◌∷◌, ◌++◌, ltb, ◌==◌,
  if◌then◌else◌, length,
}
use zk_llm_gateway.Prelude.Text.{Bytes, Text, codes, bytes_eq}
use zk_llm_gateway.Prelude.Result.{Result, ok, err, ◌>>=◌, ◌>>◌, guard, ok_or, map_err}
use zk_llm_gateway.Crypto.{Crypto}
use zk_llm_gateway.Token.{
  TokenClass, PaddingError, id_u8, class_eq, envelope_request_plaintext_bytes,
  envelope_response_plaintext_bytes, pad_to_len, trim_zero_padding,
}

pub data EnvelopeError : Type 0 where
  unsupported_version : ℕ → EnvelopeError
  request_id_mismatch token_class_mismatch unexpected_eph_pubkey client_nonce_mismatch :
      EnvelopeError
  invalid_kem_pub_b64 kem_pub_wrong_length invalid_client_nonce_b64 client_nonce_wrong_length :
      EnvelopeError
  invalid_nonce_b64 nonce_wrong_length invalid_ciphertext_b64 invalid_shared_secret : EnvelopeError
  hkdf_expand_failed aead_encrypt_failed aead_decrypt_failed : EnvelopeError
  padding : PaddingError → EnvelopeError

-- `secret` and `public` are the 32 bytes of the two keys.
pub record GatewayKeypair : Type 0 where
  pub secret : Bytes
  pub public : Bytes

pub record ClientCryptoContext : Type 0 where
  pub eph_secret_bytes : Bytes
  pub eph_pub_bytes : Bytes
  pub gateway_public_bytes : Bytes
  pub client_nonce_bytes : Bytes
  pub request_id : ℕ
  pub token_class : TokenClass

pub record Envelope : Type 0 where
  pub version : ℕ
  pub token_class : TokenClass
  pub request_id : ℕ
  pub client_nonce_b64 : Text
  pub kem_pub_b64 : Text
  pub nonce_b64 : Text
  pub ciphertext_b64 : Text

abbrev pub envelope_version : ℕ
envelope_version = 2

pub data KeyDirection : Type 0 where
  request response : KeyDirection

-- `try_into` an array of `n` bytes.
unfoldable pub to_array : ℕ → Bytes → Option Bytes
to_array n b = if length b == n then some b else none

all_zero : Bytes → Bool
all_zero [] = true
all_zero (b ∷ bs) = b == 0 && all_zero bs

unfoldable pub ensure_contributory : Bytes → Result EnvelopeError (Unit {0})
unfolding all_zero
ensure_contributory shared_secret =
    if all_zero shared_secret then err invalid_shared_secret else ok tt

direction_suffix : KeyDirection → Bytes
direction_suffix request = codes "/req"
direction_suffix response = codes "/resp"

unfoldable pub hkdf_info : TokenClass → KeyDirection → Bytes
unfolding direction_suffix
hkdf_info token_class dir =
    (codes "zk-llm-gateway-envelope-v2" ++ direction_suffix dir) ++ id_u8 token_class ∷ []

unfoldable pub direction_byte : KeyDirection → ℕ
direction_byte request = 1
direction_byte response = 2

module _ (c : Crypto) where
  unfoldable pub from_secret_bytes : Bytes → GatewayKeypair
  from_secret_bytes secret_bytes = record {
    secret = secret_bytes;
    public = c.public_from secret_bytes;
  }

  unfoldable pub decode_eph_pubkey : Envelope → Result EnvelopeError Bytes
  unfolding to_array
  decode_eph_pubkey env = do
    b ← ok_or (c.b64_decode env.kem_pub_b64) invalid_kem_pub_b64
    ok_or (to_array 32 b) kem_pub_wrong_length

  unfoldable pub decode_client_nonce : Envelope → Result EnvelopeError Bytes
  unfolding to_array
  decode_client_nonce env = do
    b ← ok_or (c.b64_decode env.client_nonce_b64) invalid_client_nonce_b64
    ok_or (to_array 32 b) client_nonce_wrong_length

  -- The AEAD nonce of an envelope, decoded in the body of both `open` functions.
  unfoldable pub decode_nonce : Envelope → Result EnvelopeError Bytes
  unfolding to_array
  decode_nonce env = do
    b ← ok_or (c.b64_decode env.nonce_b64) invalid_nonce_b64
    ok_or (to_array 12 b) nonce_wrong_length

  unfoldable pub binding_material : Bytes → ℕ → TokenClass → ℕ → Bytes → Bytes → Bytes → Bytes
  binding_material label version token_class request_id client_nonce eph_pub gateway_pub =
      label
      ++ (version
          ∷ id_u8 token_class
          ∷ (c.uuid_text request_id ++ (client_nonce ++ (eph_pub ++ gateway_pub))))

  unfoldable pub binding_salt : ℕ → TokenClass → ℕ → Bytes → Bytes → Bytes → Bytes
  unfolding binding_material
  binding_salt version token_class request_id client_nonce eph_pub gateway_pub = c.sha256 (
      binding_material (codes "zk-llm-gateway-envelope-kdf-v2") version token_class request_id
        client_nonce eph_pub gateway_pub)

  unfoldable pub aad_bytes : ℕ → TokenClass → KeyDirection → ℕ → Bytes → Bytes → Bytes → Bytes
  unfolding binding_material direction_byte
  aad_bytes version token_class dir request_id client_nonce eph_pub gateway_pub =
      binding_material (codes "zk-llm-gateway-envelope-aad-v2") version token_class request_id
        client_nonce eph_pub gateway_pub
      ++ direction_byte dir ∷ []

  unfoldable pub derive_key :
      Bytes → KeyDirection → TokenClass → ℕ → Bytes → Bytes → Bytes → Result EnvelopeError Bytes
  unfolding binding_salt hkdf_info
  derive_key shared_secret dir token_class request_id client_nonce eph_pub gateway_pub =
      let salt =
        binding_salt envelope_version token_class request_id client_nonce eph_pub gateway_pub in
      ok_or (c.hkdf_expand salt shared_secret (hkdf_info token_class dir)) hkdf_expand_failed

  -- `seal_request_for_gateway`, with the random bytes that it draws as its first arguments.
  unfoldable pub seal_request_for_gateway :
      Bytes
      → Bytes
      → Bytes
      → Bytes
      → TokenClass
      → ℕ
      → Bytes
      → Result EnvelopeError (Envelope × ClientCryptoContext)
  seal_request_for_gateway eph_secret client_nonce nonce gateway_public token_class request_id
        plaintext_json =
      do
        let eph_pub = c.public_from eph_secret
        padded ←
            map_err padding
              (pad_to_len plaintext_json (envelope_request_plaintext_bytes token_class))
        let shared = c.diffie_hellman eph_secret gateway_public
        ensure_contributory shared
        req_key ←
            derive_key shared request token_class request_id client_nonce eph_pub gateway_public
        let aad =
            aad_bytes envelope_version token_class request request_id client_nonce eph_pub
              gateway_public
        ciphertext ← ok_or (c.encrypt req_key nonce padded aad) aead_encrypt_failed
        ok (
          record {
            version = envelope_version;
            token_class = token_class;
            request_id = request_id;
            client_nonce_b64 = c.b64_encode client_nonce;
            kem_pub_b64 = c.b64_encode eph_pub;
            nonce_b64 = c.b64_encode nonce;
            ciphertext_b64 = c.b64_encode ciphertext;
          },
          record {
            eph_secret_bytes = eph_secret;
            eph_pub_bytes = eph_pub;
            gateway_public_bytes = gateway_public;
            client_nonce_bytes = client_nonce;
            request_id = request_id;
            token_class = token_class;
          },
        )

  unfoldable pub open_request_at_gateway : GatewayKeypair → Envelope → Result EnvelopeError Bytes
  open_request_at_gateway keypair env = do
    guard (env.version == envelope_version) (unsupported_version env.version)
    eph_pub ← decode_eph_pubkey env
    client_nonce ← decode_client_nonce env
    nonce ← decode_nonce env
    ciphertext ← ok_or (c.b64_decode env.ciphertext_b64) invalid_ciphertext_b64
    let shared = c.diffie_hellman keypair.secret eph_pub
    ensure_contributory shared
    req_key ←
        derive_key shared request env.token_class env.request_id client_nonce eph_pub keypair.public
    let aad =
        aad_bytes env.version env.token_class request env.request_id client_nonce eph_pub
          keypair.public
    plaintext_padded ← ok_or (c.decrypt req_key nonce ciphertext aad) aead_decrypt_failed
    ok (trim_zero_padding plaintext_padded)

  -- The argument after the keypair is the random AEAD nonce.
  unfoldable pub seal_response_at_gateway :
      GatewayKeypair → Bytes → Envelope → Bytes → Result EnvelopeError Envelope
  seal_response_at_gateway keypair nonce request_env plaintext_json = do
    guard (request_env.version == envelope_version) (unsupported_version request_env.version)
    eph_pub ← decode_eph_pubkey request_env
    client_nonce ← decode_client_nonce request_env
    padded ←
        map_err padding
          (pad_to_len plaintext_json (envelope_response_plaintext_bytes request_env.token_class))
    let shared = c.diffie_hellman keypair.secret eph_pub
    ensure_contributory shared
    resp_key ←
        derive_key shared response request_env.token_class request_env.request_id client_nonce
          eph_pub keypair.public
    let aad =
        aad_bytes request_env.version request_env.token_class response request_env.request_id
          client_nonce eph_pub keypair.public
    ciphertext ← ok_or (c.encrypt resp_key nonce padded aad) aead_encrypt_failed
    ok (record {
      version = envelope_version;
      token_class = request_env.token_class;
      request_id = request_env.request_id;
      client_nonce_b64 = request_env.client_nonce_b64;
      kem_pub_b64 = request_env.kem_pub_b64;
      nonce_b64 = c.b64_encode nonce;
      ciphertext_b64 = c.b64_encode ciphertext;
    })

  unfoldable pub open_response : ClientCryptoContext → Envelope → Result EnvelopeError Bytes
  open_response ctx env = do
    guard (env.version == envelope_version) (unsupported_version env.version)
    guard (env.request_id == ctx.request_id) request_id_mismatch
    guard (class_eq env.token_class ctx.token_class) token_class_mismatch
    eph_pub ← decode_eph_pubkey env
    guard (bytes_eq eph_pub ctx.eph_pub_bytes) unexpected_eph_pubkey
    client_nonce ← decode_client_nonce env
    guard (bytes_eq client_nonce ctx.client_nonce_bytes) client_nonce_mismatch
    nonce ← decode_nonce env
    ciphertext ← ok_or (c.b64_decode env.ciphertext_b64) invalid_ciphertext_b64
    let shared = c.diffie_hellman ctx.eph_secret_bytes ctx.gateway_public_bytes
    ensure_contributory shared
    key ←
        derive_key shared response ctx.token_class ctx.request_id ctx.client_nonce_bytes
          ctx.eph_pub_bytes ctx.gateway_public_bytes
    let aad =
        aad_bytes env.version ctx.token_class response ctx.request_id ctx.client_nonce_bytes
          ctx.eph_pub_bytes ctx.gateway_public_bytes
    plaintext_padded ← ok_or (c.decrypt key nonce ciphertext aad) aead_decrypt_failed
    ok (trim_zero_padding plaintext_padded)
