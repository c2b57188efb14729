-- ===== src/Client/Session.antt =====
-- client/src/session.rs: a session and its file, plain or encrypted at rest. The file formats
-- (serde_json) are a parameter; the clock and the random bytes are arguments;
-- the file system is a map from paths to contents.
pub mod Files
mod Tests
use zk_llm_gateway.Prelude.{
  ℕ, ◌≡◌, Bool, true, false, Option, none, some, List, [], ◌∷◌, ◌++◌, ◌==◌, if◌then◌else◌, length,
}
use zk_llm_gateway.Prelude.Text.{Bytes, Text, codes}
use zk_llm_gateway.Prelude.Strings.{Dict, lookup, put}
use zk_llm_gateway.Prelude.Result.{Result, ok, err, ◌>>=◌, ◌>>◌, guard, ok_or}
use zk_llm_gateway.Crypto.{Crypto}
use zk_llm_gateway.Types.{ChatMessage}
use zk_llm_gateway.Envelope.{to_array}
use zk_llm_gateway.Client.Redaction.{RedactionState, new_state}

pub record MemoryItem : Type 0 where
  pub id : ℕ
  pub created_at_ms : ℕ
  pub text : Text
  pub tags : List Text

pub record Session : Type 0 where
  pub version : ℕ
  pub created_at_ms : ℕ
  pub system_prompt : Text
  pub messages : List ChatMessage
  pub memory : List MemoryItem
  pub summary : Text
  pub redaction : RedactionState

pub data SessionDisk : Type 0 where
  plain : Session → SessionDisk
  -- version, salt, nonce and ciphertext.
  encrypted : ℕ → Text → Text → Text → SessionDisk

-- `Blob` is what a file holds.
pub record Formats (Blob : Type 0) : Type 0 where
  pub print_disk : SessionDisk → Blob
  pub parse_disk : Blob → Option SessionDisk
  pub print_session : Session → Bytes
  pub parse_session : Bytes → Option Session
  pub parse_history : Blob → Option (List ChatMessage)

pub data SessionError : Type 0 where
  read_failed write_failed key_missing invalid_salt salt_size invalid_nonce nonce_size
        invalid_ciphertext hkdf_failed decrypt_failed invalid_session encrypt_failed unrecognized :
      SessionError
  unsupported_version : ℕ → SessionError

-- The clock and the random bytes that `Session::new` takes.
pub record Birth : Type 0 where
  pub now : ℕ
  pub salt : Bytes

module _ (c : Crypto) where
  unfoldable pub new : Birth → Text → Session
  new birth system_prompt = record {
    version = 1;
    created_at_ms = birth.now;
    system_prompt = system_prompt;
    messages = [];
    memory = [];
    summary = [];
    redaction = new_state (c.b64_encode birth.salt);
  }

  unfoldable pub derive_session_key : Bytes → Bytes → Result SessionError Bytes
  derive_session_key master salt =
      ok_or (c.hkdf_expand salt master (codes "zk-llm-session-v1")) hkdf_failed

  -- A field of the wrapper that has a fixed size.
  unfoldable pub decode_field : ℕ → Text → SessionError → SessionError → Result SessionError Bytes
  decode_field n s not_base64 wrong_size = do
    bytes ← ok_or (c.b64_decode s) not_base64
    ok_or (to_array n bytes) wrong_size

unfoldable pub push_memory : ℕ → ℕ → Text → List Text → Session → Session
push_memory id now text tags session = record session {
  memory = session.memory ++ record { id = id; created_at_ms = now; text = text; tags = tags } ∷ [];
}

module _ {Blob : Type 0} (c : Crypto) (f : Formats Blob) where
  unfoldable pub load_encrypted :
      ℕ → Text → Text → Text → Option Bytes → Result SessionError Session
  unfolding decode_field
  load_encrypted enc_version salt_b64 nonce_b64 ciphertext_b64 session_key = do
    guard (enc_version == 1) (unsupported_version enc_version)
    key ← ok_or session_key key_missing
    salt ← decode_field c 16 salt_b64 invalid_salt salt_size
    nonce ← decode_field c 12 nonce_b64 invalid_nonce nonce_size
    ciphertext ← ok_or (c.b64_decode ciphertext_b64) invalid_ciphertext
    aead_key ← derive_session_key c key salt
    plaintext ←
        ok_or (c.decrypt aead_key nonce ciphertext (codes "zk-llm-session-v1")) decrypt_failed
    ok_or (f.parse_session plaintext) invalid_session

  -- The previous format, a list of messages.
  unfoldable pub load_history : Birth → Blob → Result SessionError Session
  load_history birth blob = elim (f.parse_history blob) [
    | none ↦ err unrecognized
    | some history ↦
        ok (record (new c birth (codes "You are a helpful assistant.")) { messages = history })
  ]

  unfoldable pub load_wrapper : SessionDisk → Option Bytes → Result SessionError Session
  unfolding load_encrypted
  load_wrapper (plain session) session_key = ok session
  load_wrapper (encrypted v salt nonce ciphertext) session_key =
      load_encrypted v salt nonce ciphertext session_key

  unfoldable pub load_blob : Birth → Blob → Option Bytes → Result SessionError Session
  unfolding load_wrapper load_history
  load_blob birth blob session_key = elim (f.parse_disk blob) [
    | none ↦ load_history birth blob
    | some wrapper ↦ load_wrapper wrapper session_key
  ]

  unfoldable pub load_session :
      Birth → Dict Blob → Text → Option Bytes → Result SessionError Session
  unfolding load_blob
  load_session birth files path session_key = do
    blob ← ok_or (lookup path files) read_failed
    load_blob birth blob session_key

  -- The wrapper that is written; salt and nonce are the random bytes.
  unfoldable pub wrap : Bytes → Bytes → Session → Option Bytes → Result SessionError SessionDisk
  wrap salt nonce session none = ok (plain session)
  wrap salt nonce session (some key) = do
    aead_key ← derive_session_key c key salt
    ciphertext ←
        ok_or (c.encrypt aead_key nonce (f.print_session session) (codes "zk-llm-session-v1"))
          encrypt_failed
    ok (encrypted 1 (c.b64_encode salt) (c.b64_encode nonce) (c.b64_encode ciphertext))

  -- `writable` is the file system's answer to the write. A parent directory that cannot be made is no
  -- error of its own.
  unfoldable pub save_session :
      Bytes
      → Bytes
      → Bool
      → Dict Blob
      → Text
      → Session
      → Option Bytes
      → Result SessionError (Dict Blob)
  unfolding wrap
  save_session salt nonce writable files path session session_key = do
    wrapper ← wrap salt nonce session session_key
    guard writable write_failed
    ok (put path (f.print_disk wrapper) files)
