-- ===== src/Token/Tests.antt =====
-- Examples for common/src/token.rs.
use zk_llm_gateway.Prelude.{ℕ, ◌<◌, ◌≡◌, refl, [], ◌∷◌, ◌++◌, arith, length, replicate}
use zk_llm_gateway.Prelude.Text.{Bytes}
use zk_llm_gateway.Prelude.Result.{ok}
use zk_llm_gateway.Token.{
  c256, c1024, max_prompt_bytes, max_completion_tokens, envelope_request_plaintext_bytes,
  envelope_response_plaintext_bytes, id_u8, pad_to_len, trim_zero_padding,
}
use zk_llm_gateway.Token.Padding.{NoTrailingZero, trim-pad_to_len, trim_zero_padding_lem}
use zk_llm_gateway.Token.Classes.{limits_mono}

abbrev payload : Bytes
payload = 5 ∷ 0 ∷ 7 ∷ []

abbrev padded : Bytes
padded = 5 ∷ 0 ∷ 7 ∷ 0 ∷ 0 ∷ []

padded_ok : pad_to_len payload 5 ≡ ok padded
unfolding pad_to_len
padded_ok = refl

trim-pad_to_len_example : (length padded ≡ 5) × (trim_zero_padding padded ≡ payload)
trim-pad_to_len_example = trim-pad_to_len payload 5 padded (omega arith) padded_ok

trim_zero_padding_lem_instance :
    (k : ℕ) × (padded ≡ trim_zero_padding padded ++ replicate k 0)
    × NoTrailingZero (trim_zero_padding padded)
trim_zero_padding_lem_instance = trim_zero_padding_lem padded

c256_c1024 : id_u8 c256 < id_u8 c1024
unfolding id_u8
c256_c1024 = omega arith

limits_mono_instance :
    (max_prompt_bytes c256 < max_prompt_bytes c1024)
    × (max_completion_tokens c256 < max_completion_tokens c1024)
    × (envelope_request_plaintext_bytes c256 < envelope_request_plaintext_bytes c1024)
    × (envelope_response_plaintext_bytes c256 < envelope_response_plaintext_bytes c1024)
limits_mono_instance = limits_mono c256 c1024 c256_c1024
