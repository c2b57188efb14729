-- ===== src/Crypto.antt =====
-- The crates that the workspace calls and does not contain (x25519-dalek, sha2, hkdf,
-- chacha20poly1305, base64, uuid), as a parameter, with the documented laws that the code relies on.
pub mod Toy
use zk_llm_gateway.Prelude.{ℕ, ◌+◌, ◌^◌, ◌≤◌, ◌≡◌, Option, none, some, length}
use zk_llm_gateway.Prelude.Text.{Bytes, Text}

pub record Crypto : Type 0 where
  -- `PublicKey::from(&secret)` and `secret.diffie_hellman(&public)`.
  pub public_from : Bytes → Bytes
  pub diffie_hellman : Bytes → Bytes → Bytes
  pub sha256 : Bytes → Bytes
  -- salt, input key material, info; the output is 32 bytes.
  pub hkdf_expand : Bytes → Bytes → Bytes → Option Bytes
  -- key, nonce, message or ciphertext, associated data.
  pub encrypt : Bytes → Bytes → Bytes → Bytes → Option Bytes
  pub decrypt : Bytes → Bytes → Bytes → Bytes → Option Bytes
  pub b64_encode : Bytes → Text
  pub b64_decode : Text → Option Bytes
  -- `Uuid::to_string().as_bytes()`.
  pub uuid_text : ℕ → Bytes

pub record CryptoLaws (c : Crypto) : Type 0 where
  pub dh_agree :
      (a b : Bytes) → c.diffie_hellman a (c.public_from b) ≡ c.diffie_hellman b (c.public_from a)
  pub public_length : (a : Bytes) → length (c.public_from a) ≡ 32
  -- HKDF-SHA256 refuses only outputs above 8160 bytes, and the AEAD only messages of more than
  -- 2 ^ 38 - 64 bytes, what its 32-bit block counter leaves.
  pub hkdf_total : (s k i : Bytes) → (okm : Bytes) × (c.hkdf_expand s k i ≡ some okm)
  pub encrypt_total :
      (k n m a : Bytes) → length m + 64 ≤ 2 ^ 38 → (ct : Bytes) × (c.encrypt k n m a ≡ some ct)
  -- The AEAD is a stream cipher with a deterministic 16-byte tag: each direction undoes the other.
  pub decrypt_encrypt :
      (k n m a ct : Bytes) → c.encrypt k n m a ≡ some ct → c.decrypt k n ct a ≡ some m
  pub encrypt_decrypt :
      (k n ct a m : Bytes) → c.decrypt k n ct a ≡ some m → c.encrypt k n m a ≡ some ct
  pub encrypt_length :
      (k n m a ct : Bytes) → c.encrypt k n m a ≡ some ct → length ct ≡ length m + 16
  pub b64_round : (b : Bytes) → c.b64_decode (c.b64_encode b) ≡ some b
  -- The hyphenated form: 36 characters, different for different ids.
  pub uuid_length : (u : ℕ) → length (c.uuid_text u) ≡ 36
  pub uuid_injective : (u v : ℕ) → c.uuid_text u ≡ c.uuid_text v → u ≡ v
