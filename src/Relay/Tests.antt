-- ===== src/Relay/Tests.antt =====
-- Examples for relay/src/main.rs.
use zk_llm_gateway.Prelude.{ℕ, ◌≡◌, refl, subst, Option, some, [], ◌∷◌, true}
use zk_llm_gateway.Prelude.Text.{Bytes, Text, codes}
use zk_llm_gateway.Prelude.Result.{Result, ok, ok-injective}
use zk_llm_gateway.Token.{c256}
use zk_llm_gateway.Types.{ErrorResponse}
use zk_llm_gateway.Envelope.{Envelope}
use zk_llm_gateway.Actum.{is_success}
use zk_llm_gateway.Gateway.{ApiError}
use zk_llm_gateway.Relay.{Reply, reply, relay, gateway_reply}
use zk_llm_gateway.Relay.Passing.{passed, relay-ok, relay-passed}

-- An envelope of class c256 and version 2, written as its other fields.
abbrev env : Text → Envelope
env text = record {
  version = 2;
  token_class = c256;
  request_id = 42;
  client_nonce_b64 = [];
  kem_pub_b64 = [];
  nonce_b64 = [];
  ciphertext_b64 = text;
}

abbrev read : Bytes → Option Envelope
read bytes = some (env bytes)

abbrev post : Text → Envelope → Reply
post url e = reply 200 (7 ∷ [])

passes : relay post read (codes "http://gateway") (env []) ≡ ok (env (7 ∷ []))
unfolding relay is_success
passes = refl

relay-ok_example :
    (status : ℕ) × (bytes : Bytes) × (reply 200 (7 ∷ []) ≡ reply status bytes)
    × (is_success status ≡ true)
    × (read bytes ≡ some (env (7 ∷ [])))
relay-ok_example = relay-ok post read (codes "http://gateway") (env []) (env (7 ∷ [])) passes

abbrev handler : Envelope → Result ApiError Envelope
handler e = ok (env (7 ∷ []))

abbrev write : Envelope → Bytes
write e = e.ciphertext_b64

abbrev write_error : ErrorResponse → Bytes
write_error e = []

reads : (e : Envelope) → handler (env []) ≡ ok e → read (write e) ≡ some e
reads e h = subst (λ x. read (write x) ≡ some x) (ok-injective h) refl

relay-passed_example :
    relay
      (λ _ e. gateway_reply write write_error (handler e))
      read
      (codes "http://gateway")
      (env [])
    ≡ passed (handler (env []))
relay-passed_example =
    relay-passed write write_error read handler (codes "http://gateway") (env []) reads
