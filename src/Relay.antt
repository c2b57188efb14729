-- ===== src/Relay.antt =====
-- relay/src/main.rs: the relay passes an envelope on to the gateway. The HTTP client and serde_json
-- are parameters.
pub mod Passing
mod Tests
use Prim.Native.String.{String}
use zk_llm_gateway.Prelude.{ℕ, Option}
use zk_llm_gateway.Prelude.Text.{Bytes, Text}
use zk_llm_gateway.Prelude.Result.{Result, ok, err, ◌>>=◌, ◌>>◌, guard, ok_or}
use zk_llm_gateway.Types.{ErrorResponse}
use zk_llm_gateway.Envelope.{Envelope}
use zk_llm_gateway.Actum.{is_success}
use zk_llm_gateway.Gateway.{ApiError, bad_request, internal_failure}

pub data RelayError : Type 0 where
  gateway_timeout gateway_unreachable gateway_error : RelayError

-- No reply in time, none at all, one whose body cannot be read, or a status with a body.
pub data Reply : Type 0 where
  timed_out unreachable unreadable : Reply
  reply : ℕ → Bytes → Reply

read_reply : (Bytes → Option Envelope) → Reply → Result RelayError Envelope
read_reply parse timed_out = err gateway_timeout
read_reply parse unreachable = err gateway_unreachable
read_reply parse unreadable = err gateway_unreachable
read_reply parse (reply status bytes) = do
  guard (is_success status) gateway_error
  ok_or (parse bytes) gateway_error

-- `relay`: `post` sends an envelope to an address.
unfoldable pub relay :
    (Text → Envelope → Reply)
    → (Bytes → Option Envelope)
    → Text
    → Envelope
    → Result RelayError Envelope
unfolding read_reply
relay post parse gateway_url env = read_reply parse (post gateway_url env)

-- `RelayError::into_response`.
unfoldable pub relay_response : RelayError → ℕ × String
relay_response gateway_timeout = (504, "gateway timeout")
relay_response gateway_unreachable = (502, "gateway unreachable")
relay_response gateway_error = (502, "gateway error")

-- What the gateway's handler puts on the wire, `ApiError::into_response` of gateway/src/main.rs
-- included; the first two arguments write an envelope and an error as JSON.
unfoldable pub gateway_reply :
    (Envelope → Bytes) → (ErrorResponse → Bytes) → Result ApiError Envelope → Reply
gateway_reply write_envelope write_error (ok env) = reply 200 (write_envelope env)
gateway_reply write_envelope write_error (err (bad_request e)) = reply 400 (write_error e)
gateway_reply write_envelope write_error (err (internal_failure e)) = reply 500 (write_error e)
