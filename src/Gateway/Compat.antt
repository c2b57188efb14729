-- ===== src/Gateway/Compat.antt =====
-- gateway/src/main.rs, `compat_proxy`: the OpenAI-compatible pass-through, which needs no ticket.
use Prim.Native.String.{String}
use zk_llm_gateway.Prelude.{ℕ, ◌≡◌, refl, Option, none, some}
use zk_llm_gateway.Prelude.Text.{Bytes, Text, codes, trim_start}
use zk_llm_gateway.Json.{Value, str, obj, end, field}
use zk_llm_gateway.Types.{InferenceRequest}
use zk_llm_gateway.Gateway.{
  AppState, Upstream, network_failure, read_failure, answer, provider_url, provider_call,
}

pub data Method : Type 0 where
  get_method post_method : Method

pub record CompatCall : Type 0 where
  pub method : Method
  pub url : Text
  pub bearer : Option Text
  pub body : Option Value

pub record CompatResponse : Type 0 where
  pub status : ℕ
  pub body : Value

unreachable_body : String → Value
unreachable_body message = obj (
    field (codes "error")
      (obj (
        field (codes "code") (str (codes "upstream_unreachable"))
          (field (codes "message") (str (codes message)) end)))
      end)

-- `send` is the HTTP client, `lossy` is `String::from_utf8_lossy`.
module _ (st : AppState) (send : CompatCall → Upstream) (lossy : Bytes → Text) where
  body_value : Bytes → Option Value → Value
  body_value bytes none = obj (field (codes "raw") (str (lossy bytes)) end)
  body_value bytes (some value) = value

  pub pass_back : Upstream → CompatResponse
  unfolding body_value unreachable_body
  pass_back network_failure = record {
    status = 502;
    body = unreachable_body "upstream network error";
  }
  pass_back (read_failure status) = record {
    status = 502;
    body = unreachable_body "upstream read error";
  }
  pass_back (answer status bytes) = record {
    status = status;
    body = body_value bytes (st.parse_value bytes);
  }

  unfoldable pub compat_proxy : Method → Text → Option Value → CompatResponse
  unfolding pass_back
  compat_proxy method path body = pass_back (
      send (record {
        method = method;
        url = provider_url st.provider_base_url path;
        bearer = st.provider_api_key;
        body = body;
      }))

  unfoldable pub compat_models : CompatResponse
  unfolding compat_proxy
  compat_models = compat_proxy get_method (codes "/v1/models") none

  unfoldable pub compat_chat_completions : Value → CompatResponse
  unfolding compat_proxy
  compat_chat_completions body = compat_proxy post_method (codes "/v1/chat/completions") (some body)

-- The pass-through of chat completions asks the provider at the same address, with the same key, as
-- any paid request does, sends the body on as it came, and gives the reply back.
pub compat_chat_completions_lem :
    (st : AppState) (send : CompatCall → Upstream) (lossy : Bytes → Text) (body : Value)
    (req : InferenceRequest)
    → compat_chat_completions st send lossy body
      ≡ pass_back st send lossy (
          send (record {
            method = post_method;
            url = (provider_call st req).url;
            bearer = (provider_call st req).bearer;
            body = some body;
          }))
unfolding compat_chat_completions provider_call provider_url trim_start
compat_chat_completions_lem st send lossy body req = refl
