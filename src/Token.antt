-- ===== src/Token.antt =====
-- common/src/token.rs: token classes, and zero padding of a payload to a fixed length.
pub mod Padding
pub mod Classes
mod Tests
use zk_llm_gateway.Prelude.{
  ℕ, zero, suc, ◌-◌, ◌*◌, Bool, false, Option, none, some, ◌++◌, ltb, ◌==◌, if◌then◌else◌, length,
  get_elem?, take, replicate,
}
use zk_llm_gateway.Prelude.Text.{Bytes}
use zk_llm_gateway.Prelude.Result.{Result, ok, err}

pub data TokenClass : Type 0 where
  c256 c512 c1024 c2048 c4096 : TokenClass

unfoldable pub max_prompt_bytes : TokenClass → ℕ
max_prompt_bytes c256 = 2 * 1024
max_prompt_bytes c512 = 4 * 1024
max_prompt_bytes c1024 = 8 * 1024
max_prompt_bytes c2048 = 16 * 1024
max_prompt_bytes c4096 = 32 * 1024

unfoldable pub max_completion_tokens : TokenClass → ℕ
max_completion_tokens c256 = 256
max_completion_tokens c512 = 512
max_completion_tokens c1024 = 1024
max_completion_tokens c2048 = 2048
max_completion_tokens c4096 = 4096

unfoldable pub envelope_request_plaintext_bytes : TokenClass → ℕ
envelope_request_plaintext_bytes c256 = 8 * 1024
envelope_request_plaintext_bytes c512 = 12 * 1024
envelope_request_plaintext_bytes c1024 = 20 * 1024
envelope_request_plaintext_bytes c2048 = 36 * 1024
envelope_request_plaintext_bytes c4096 = 68 * 1024

unfoldable pub envelope_response_plaintext_bytes : TokenClass → ℕ
envelope_response_plaintext_bytes c256 = 8 * 1024
envelope_response_plaintext_bytes c512 = 16 * 1024
envelope_response_plaintext_bytes c1024 = 32 * 1024
envelope_response_plaintext_bytes c2048 = 64 * 1024
envelope_response_plaintext_bytes c4096 = 128 * 1024

unfoldable pub id_u8 : TokenClass → ℕ
id_u8 c256 = 1
id_u8 c512 = 2
id_u8 c1024 = 3
id_u8 c2048 = 4
id_u8 c4096 = 5

-- The derived `PartialEq`.
unfoldable pub class_eq : TokenClass → TokenClass → Bool
unfolding id_u8
class_eq a b = id_u8 a == id_u8 b

pub data PaddingError : Type 0 where
  too_large : ℕ → ℕ → PaddingError

unfoldable pub pad_to_len : Bytes → ℕ → Result PaddingError Bytes
pad_to_len buf target_len =
    if ltb target_len (length buf)
    then err (too_large (length buf) target_len)
    else ok (buf ++ replicate (target_len - length buf) 0)

-- `data[i] == 0`; the loop below reads in range only.
is_zero_at : Bytes → ℕ → Bool
is_zero_at buf i = elim (get_elem? buf i) [ none ↦ false | some b ↦ b == 0 ]

-- The loop that moves `end` down.
trim_end : Bytes → ℕ → ℕ
unfolding is_zero_at
trim_end buf zero = zero
trim_end buf (suc end) =
    let shorter = trim_end buf end in if is_zero_at buf end then shorter else suc end

unfoldable pub trim_zero_padding : Bytes → Bytes
unfolding trim_end
trim_zero_padding buf = take (trim_end buf (length buf)) buf
