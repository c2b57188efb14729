-- ===== src/Token/Classes.antt =====
-- The limits of the token classes, common/src/token.rs.
use zk_llm_gateway.Prelude.{◌+◌, ◌≤◌, ◌<◌, ◌≡◌, ◌↔◌, ◌*◌, refl, true, arith}
use zk_llm_gateway.Token.{
  TokenClass, max_prompt_bytes, max_completion_tokens, envelope_request_plaintext_bytes,
  envelope_response_plaintext_bytes, id_u8, class_eq,
}

pub id_u8-injective : (a b : TokenClass) → id_u8 a ≡ id_u8 b → a ≡ b
unfolding id_u8
id_u8-injective a b h = ground arith

pub class_eq_iff : (a b : TokenClass) → (class_eq a b ≡ true) ↔ (a ≡ b)
unfolding class_eq
class_eq_iff a b = ground arith

pub class_eq_refl : (a : TokenClass) → class_eq a a ≡ true
class_eq_refl a = (class_eq_iff a a).1 refl

-- Classes with a larger identifier have strictly larger limits, all four of them.
pub limits_mono :
    (a b : TokenClass)
    → id_u8 a < id_u8 b
    → (max_prompt_bytes a < max_prompt_bytes b)
      × (max_completion_tokens a < max_completion_tokens b)
      × (envelope_request_plaintext_bytes a < envelope_request_plaintext_bytes b)
      × (envelope_response_plaintext_bytes a < envelope_response_plaintext_bytes b)
unfolding id_u8 max_prompt_bytes max_completion_tokens envelope_request_plaintext_bytes
    envelope_response_plaintext_bytes
limits_mono a b h = ground arith

-- A request envelope leaves at least six kilobytes beside the largest prompt of its class.
pub prompt_room :
    (a : TokenClass) → max_prompt_bytes a + 6 * 1024 ≤ envelope_request_plaintext_bytes a
unfolding max_prompt_bytes envelope_request_plaintext_bytes
prompt_room a = ground arith
