-- ===== src/Nullifier/Value.antt =====
-- The stored values decode to the status and the time that they were made of.
use zk_llm_gateway.Prelude.{ℕ, ◌^◌, ◌<◌, ◌≡◌, ap, some, arith}
use zk_llm_gateway.Nullifier.{encode_nullifier_value, decode_nullifier_value}

-- Every status byte and every 64-bit time survive encoding and decoding.
pub decode-encode :
    (status ts : ℕ)
    → ts < 2 ^ 64
    → decode_nullifier_value (encode_nullifier_value status ts) ≡ some (status, ts)
unfolding decode_nullifier_value encode_nullifier_value
decode-encode status ts h = ap (λ t. some (status, t)) (omega arith)
