-- ===== src/Relay/Passing.antt =====
-- What passes through the relay (relay/src/main.rs).
use zk_llm_gateway.Prelude.{ℕ, ◌≡◌, refl, true, Option, some}
use zk_llm_gateway.Prelude.Text.{Bytes, Text}
use zk_llm_gateway.Prelude.Result.{Result, ok, err, guard, >>=-eq-ok, guard-eq-ok, ok_or-eq-ok}
use zk_llm_gateway.Types.{ErrorResponse}
use zk_llm_gateway.Envelope.{Envelope}
use zk_llm_gateway.Actum.{is_success}
use zk_llm_gateway.Gateway.{ApiError, bad_request, internal_failure}
use zk_llm_gateway.Relay.{
  RelayError, gateway_error, Reply, timed_out, unreachable, unreadable, reply, read_reply, relay,
  gateway_reply,
}

module _ (post : Text → Envelope → Reply) (parse : Bytes → Option Envelope) (url : Text)
    (env : Envelope) where
  read_reply-ok :
      (r : Reply) (out : Envelope)
      → read_reply parse r ≡ ok out
      → (status : ℕ) × (bytes : Bytes) × (r ≡ reply status bytes)
        × (is_success status ≡ true)
        × (parse bytes ≡ some out)
  unfolding read_reply
  read_reply-ok timed_out out h = absurd (cc h)
  read_reply-ok unreachable out h = absurd (cc h)
  read_reply-ok unreadable out h = absurd (cc h)
  read_reply-ok (reply status bytes) out h =
      let (_, success, r) = >>=-eq-ok (guard (is_success status) gateway_error) _ h in
      (
        status,
        bytes,
        refl,
        guard-eq-ok (is_success status) _ success,
        ok_or-eq-ok (parse bytes) _ r,
      )

  -- The relay answers with an envelope only if the gateway replied to this envelope with a success
  -- status and a body that is that envelope.
  pub relay-ok :
      (out : Envelope)
      → relay post parse url env ≡ ok out
      → (status : ℕ) × (bytes : Bytes) × (post url env ≡ reply status bytes)
        × (is_success status ≡ true)
        × (parse bytes ≡ some out)
  unfolding relay
  relay-ok out h = read_reply-ok (post url env) out h

-- The client's view of a gateway's answer through the relay.
abbrev pub passed : Result ApiError Envelope → Result RelayError Envelope
passed (ok env) = ok env
passed (err e) = err gateway_error

through :
    (write_envelope : Envelope → Bytes) (write_error : ErrorResponse → Bytes)
    (parse : Bytes → Option Envelope) (answer : Result ApiError Envelope)
    → ((e : Envelope) → answer ≡ ok e → parse (write_envelope e) ≡ some e)
    → read_reply parse (gateway_reply write_envelope write_error answer) ≡ passed answer
unfolding read_reply gateway_reply is_success
through write_envelope write_error parse (ok env) reads = rw (reads env refl) refl
through write_envelope write_error parse (err (bad_request e)) reads = refl
through write_envelope write_error parse (err (internal_failure e)) reads = refl

-- If the envelope that the gateway answers with can be read back as it is written, the relay passes
-- it on unchanged; every error that the gateway answers in the clear becomes one and the same error.
pub relay-passed :
    (write_envelope : Envelope → Bytes) (write_error : ErrorResponse → Bytes)
    (parse : Bytes → Option Envelope) (handler : Envelope → Result ApiError Envelope) (url : Text)
    (env : Envelope)
    → ((e : Envelope) → handler env ≡ ok e → parse (write_envelope e) ≡ some e)
    → relay (λ _ e. gateway_reply write_envelope write_error (handler e)) parse url env
      ≡ passed (handler env)
unfolding relay
relay-passed write_envelope write_error parse handler url env reads =
    through write_envelope write_error parse (handler env) reads
