-- ===== src/Client/Session/Files.antt =====
-- What `save_session` writes and `load_session` accepts.
use zk_llm_gateway.Prelude.{
  ℕ, ◌+◌, ◌≤◌, ◌^◌, ◌≡◌, refl, ap, ◌∙◌, sym, true, Option, none, some, List, ◌==◌, length, ==_iff,
  arith,
}
use zk_llm_gateway.Prelude.Text.{Bytes, Text, codes}
use zk_llm_gateway.Prelude.Strings.{Dict, lookup, put}
use zk_llm_gateway.Prelude.Dicts.{lookup-put}
use zk_llm_gateway.Prelude.Result.{ok, guard, ok_or, >>=-eq-ok, ok_or-eq-ok, guard-eq-ok}
use zk_llm_gateway.Crypto.{Crypto, CryptoLaws}
use zk_llm_gateway.Types.{ChatMessage}
use zk_llm_gateway.Envelope.{to_array}
use zk_llm_gateway.Client.Session.{
  Session, SessionDisk, encrypted, Formats, Birth, new, derive_session_key, SessionError,
  read_failed, invalid_salt, salt_size, invalid_nonce, nonce_size, invalid_ciphertext,
  decrypt_failed, invalid_session, key_missing, unsupported_version, decode_field, load_encrypted,
  load_history, load_wrapper, load_blob, load_session, wrap, save_session,
}

load_blob_known :
    {Blob : Type 0} (c : Crypto) (f : Formats Blob) (birth : Birth) (bytes : Blob) (w : SessionDisk)
    (key : Option Bytes)
    → f.parse_disk bytes ≡ some w
    → load_blob c f birth bytes key ≡ load_wrapper c f w key
unfolding load_blob
load_blob_known c f birth bytes w key parsed = ground (arith, parsed)

module _ (c : Crypto) (laws : CryptoLaws c) {Blob : Type 0} (f : Formats Blob)
    (wrapper_round : (s n t : Text)
      → f.parse_disk (f.print_disk (encrypted 1 s n t)) ≡ some (encrypted 1 s n t)) where
  decode_field-encode :
      (n : ℕ) (b : Bytes)
      → length b ≡ n
      → decode_field c n (c.b64_encode b) invalid_salt salt_size ≡ ok b
  unfolding decode_field to_array
  decode_field-encode n b e = rw (laws.b64_round b, (==_iff (length b) n).1 e) refl

  decode_field-encode_nonce :
      (n : ℕ) (b : Bytes)
      → length b ≡ n
      → decode_field c n (c.b64_encode b) invalid_nonce nonce_size ≡ ok b
  unfolding decode_field to_array
  decode_field-encode_nonce n b e = rw (laws.b64_round b, (==_iff (length b) n).1 e) refl

  load_encrypted-wrap :
      (salt nonce key aead_key plaintext ciphertext : Bytes)
      → length salt ≡ 16
      → length nonce ≡ 12
      → derive_session_key c key salt ≡ ok aead_key
      → c.encrypt aead_key nonce plaintext (codes "zk-llm-session-v1") ≡ some ciphertext
      → load_encrypted c f 1
          (c.b64_encode salt)
          (c.b64_encode nonce)
          (c.b64_encode ciphertext)
          (some key)
        ≡ ok_or (f.parse_session plaintext) invalid_session
  unfolding load_encrypted
  load_encrypted-wrap salt nonce key aead_key plaintext ciphertext s n derived sealed =
      rw
        (
          decode_field-encode 16 salt s,
          decode_field-encode_nonce 12 nonce n,
          laws.b64_round ciphertext,
          derived,
          laws.decrypt_encrypt aead_key nonce plaintext (codes "zk-llm-session-v1") ciphertext
              sealed,
        )
        refl

  -- A session that is saved with a key, where the write succeeds, is on the disk as a wrapper of
  -- version 1, and loading its path with that key gives exactly what the JSON printed for the session
  -- is parsed to: base64, the key derivation and the AEAD lose nothing, and no check on the way
  -- refuses. The salt and the nonce have their 16 and 12 bytes, the JSON has at most 2 ^ 38 - 64, and
  -- serde_json reads back every version 1 wrapper, whatever its three texts.
  pub load_session-save_session :
      (salt nonce key : Bytes) (files : Dict Blob) (path : Text) (session : Session) (birth : Birth)
      → length salt ≡ 16
      → length nonce ≡ 12
      → length (f.print_session session) + 64 ≤ 2 ^ 38
      → (s n t : Text) × (saved : Dict Blob) × (save_session c f salt nonce true files path session
            (some key)
          ≡ ok saved)
        × (lookup path saved ≡ some (f.print_disk (encrypted 1 s n t)))
        × (load_session c f birth saved path (some key)
            ≡ ok_or (f.parse_session (f.print_session session)) invalid_session)
  unfolding save_session load_session
  load_session-save_session salt nonce key files path session birth s n fits =
      let plaintext = f.print_session session in
      let (okm, expanded) = laws.hkdf_total salt key (codes "zk-llm-session-v1") in
      let derived : derive_session_key c key salt ≡ ok okm =
        unfold derive_session_key in rw expanded refl in
      let (ct, sealed) = laws.encrypt_total okm nonce plaintext (codes "zk-llm-session-v1") fits in
      let w = encrypted 1 (c.b64_encode salt) (c.b64_encode nonce) (c.b64_encode ct) in
      let wrapped : wrap c f salt nonce session (some key) ≡ ok w =
        unfold wrap in rw (derived, sealed) refl in
      let stored = lookup-put path (f.print_disk w) files in
      let back : load_wrapper c f w (some key) ≡ ok_or (f.parse_session plaintext) invalid_session =
        unfold load_wrapper in
        load_encrypted-wrap salt nonce key okm plaintext ct s n derived sealed in
      (
        _,
        _,
        _,
        put path (f.print_disk w) files,
        rw wrapped refl,
        stored,
        rw (stored, load_blob_known c f birth (f.print_disk w) w (some key) (wrapper_round _ _ _))
            back,
      )

to_array-eq-some :
    (n : ℕ) (bytes : Bytes) {b : Bytes}
    → to_array n bytes ≡ some b
    → (bytes ≡ b) × (length bytes ≡ n)
unfolding to_array
to_array-eq-some n bytes h = ground arith

-- An encrypted session was opened with a key, and the key that it gives decrypts the stored text,
-- bound to the format's name, to the JSON of the session.
pub record IsOpened {Blob : Type 0} (c : Crypto) (f : Formats Blob) (v : ℕ)
    (salt_b64 nonce_b64 ciphertext_b64 : Text) (session_key : Option Bytes) (session : Session)
    : Type 0 where
  pub version : v ≡ 1
  pub key : Bytes
  pub given : session_key ≡ some key
  pub salt : Bytes
  pub aead_key : Bytes
  pub derived : derive_session_key c key salt ≡ ok aead_key
  pub nonce : Bytes
  pub ciphertext : Bytes
  pub plaintext : Bytes
  pub salt_stored : c.b64_decode salt_b64 ≡ some salt
  pub nonce_stored : c.b64_decode nonce_b64 ≡ some nonce
  pub ciphertext_stored : c.b64_decode ciphertext_b64 ≡ some ciphertext
  pub opened : c.decrypt aead_key nonce ciphertext (codes "zk-llm-session-v1") ≡ some plaintext
  pub parsed : f.parse_session plaintext ≡ some session

decode_field-eq-ok :
    (c : Crypto) (n : ℕ) (s : Text) {b : Bytes} (e e' : SessionError)
    → decode_field c n s e e' ≡ ok b
    → (c.b64_decode s ≡ some b) × (length b ≡ n)
unfolding decode_field to_array
decode_field-eq-ok c n s e e' h =
    let (bytes, decoded, sized) = >>=-eq-ok (ok_or (c.b64_decode s) e) _ h in
    let (same, size) = to_array-eq-some n bytes (ok_or-eq-ok (to_array n bytes) e' sized) in
    (ok_or-eq-ok _ e decoded ∙ ap some same, ap length (sym same) ∙ size)

load_encrypted-IsOpened :
    {Blob : Type 0} (c : Crypto) (f : Formats Blob) (v : ℕ)
    (salt_b64 nonce_b64 ciphertext_b64 : Text) (session_key : Option Bytes) (session : Session)
    → load_encrypted c f v salt_b64 nonce_b64 ciphertext_b64 session_key ≡ ok session
    → IsOpened c f v salt_b64 nonce_b64 ciphertext_b64 session_key session
unfolding load_encrypted
load_encrypted-IsOpened c f v salt_b64 nonce_b64 ciphertext_b64 session_key session h =
    let (u, versioned, h1) = >>=-eq-ok (guard (v == 1) (unsupported_version v)) _ h in
    let (key, given, h2) = >>=-eq-ok (ok_or session_key key_missing) _ h1 in
    let (salt, salted, h3) = >>=-eq-ok (decode_field c 16 salt_b64 invalid_salt salt_size) _ h2 in
    let (nonce, nonced, h4) =
      >>=-eq-ok (decode_field c 12 nonce_b64 invalid_nonce nonce_size) _ h3 in
    let (ciphertext, stored, h5) =
      >>=-eq-ok (ok_or (c.b64_decode ciphertext_b64) invalid_ciphertext) _ h4 in
    let (aead_key, derived, h6) = >>=-eq-ok (derive_session_key c key salt) _ h5 in
    let (plaintext, opened, parsed) =
      >>=-eq-ok
        (ok_or (c.decrypt aead_key nonce ciphertext (codes "zk-llm-session-v1")) decrypt_failed) _
        h6 in
    record {
      version = (==_iff v 1).0 (guard-eq-ok (v == 1) (unsupported_version v) versioned);
      key = key;
      given = ok_or-eq-ok session_key key_missing given;
      salt = salt;
      aead_key = aead_key;
      derived = derived;
      nonce = nonce;
      ciphertext = ciphertext;
      plaintext = plaintext;
      salt_stored = (decode_field-eq-ok c 16 salt_b64 invalid_salt salt_size salted).0;
      nonce_stored = (decode_field-eq-ok c 12 nonce_b64 invalid_nonce nonce_size nonced).0;
      ciphertext_stored = ok_or-eq-ok (c.b64_decode ciphertext_b64) invalid_ciphertext stored;
      opened =
          ok_or-eq-ok (c.decrypt aead_key nonce ciphertext (codes "zk-llm-session-v1"))
            decrypt_failed opened;
      parsed = ok_or-eq-ok (f.parse_session plaintext) invalid_session parsed;
    }

-- A file that holds an encrypted wrapper gives a session only when a key was handed over, the wrapper
-- has version 1, and the stored text decrypts, under the key derived from the given one and the stored
-- salt, to the JSON of that session; in every other case loading is an error.
pub load_session-IsOpened :
    {Blob : Type 0} (c : Crypto) (f : Formats Blob) (birth : Birth) (files : Dict Blob)
    (path : Text) (bytes : Blob) (v : ℕ) (salt_b64 nonce_b64 ciphertext_b64 : Text)
    (session_key : Option Bytes) (session : Session)
    → lookup path files ≡ some bytes
    → f.parse_disk bytes ≡ some (encrypted v salt_b64 nonce_b64 ciphertext_b64)
    → load_session c f birth files path session_key ≡ ok session
    → IsOpened c f v salt_b64 nonce_b64 ciphertext_b64 session_key session
unfolding load_session load_wrapper
load_session-IsOpened c f birth files path bytes v salt_b64 nonce_b64 ciphertext_b64 session_key
      session found parsed h =
    let (bytes', read, loaded) = >>=-eq-ok (ok_or (lookup path files) read_failed) _ h in
    let same : bytes' ≡ bytes =
      let there = ok_or-eq-ok (lookup path files) read_failed read in cc in
    load_encrypted-IsOpened c f v salt_b64 nonce_b64 ciphertext_b64 session_key session (
      sym (load_blob_known c f birth bytes _ session_key parsed)
      ∙ ap (λ b. load_blob c f birth b session_key) (sym same)
      ∙ loaded)

-- A file of the previous format, a list of messages, becomes a new session with those messages and
-- the default prompt, whether or not a key was handed over.
pub load_session-history :
    {Blob : Type 0} (c : Crypto) (f : Formats Blob) (birth : Birth) (files : Dict Blob)
    (path : Text) (bytes : Blob) (history : List ChatMessage) (session_key : Option Bytes)
    → lookup path files ≡ some bytes
    → f.parse_disk bytes ≡ none
    → f.parse_history bytes ≡ some history
    → load_session c f birth files path session_key
      ≡ ok (record (new c birth (codes "You are a helpful assistant.")) { messages = history })
unfolding load_session load_blob load_history
load_session-history c f birth files path bytes history session_key found no_disk parsed =
    rw (found, load_blob) (ground (arith, no_disk, parsed))
