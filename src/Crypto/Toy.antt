-- ===== src/Crypto/Toy.antt =====
-- A concrete `Crypto` that meets the laws, for the examples. It hides nothing.
use native.Mathlib.Nat.{mul_comm}
use zk_llm_gateway.Prelude.{
  ℕ, suc, ◌+◌, ◌-◌, ◌*◌, ◌≡◌, refl, sym, ap, ◌∙◌, Option, none, some, [], ◌∷◌, ◌++◌, arith,
  if◌then◌else◌, length, length-append, take, take_self, take-append, replicate,
}
use zk_llm_gateway.Prelude.Text.{Bytes, bytes_eq, bytes_eq_iff, bytes_eq_refl}
use zk_llm_gateway.Crypto.{Crypto, CryptoLaws}

unfoldable pub checksum : Bytes → ℕ
checksum [] = 0
checksum (b ∷ bs) = b + checksum bs

first : Bytes → ℕ
first [] = 0
first (b ∷ bs) = b

tag : Bytes → Bytes → Bytes → Bytes → Bytes
unfolding checksum
tag key nonce message aad = replicate 16 (checksum (key ++ nonce ++ message ++ aad))

unfoldable pub public_from : Bytes → Bytes
unfolding checksum
public_from secret = replicate 32 (checksum secret)

unfoldable pub diffie_hellman : Bytes → Bytes → Bytes
unfolding checksum first
diffie_hellman secret public = replicate 32 (suc (checksum secret * first public))

length-tag : (key nonce message aad : Bytes) → length (tag key nonce message aad) ≡ 16
unfolding tag
length-tag key nonce message aad = refl

pub encrypt : Bytes → Bytes → Bytes → Bytes → Option Bytes
encrypt key nonce message aad = some (message ++ tag key nonce message aad)

accept : Bytes → Bytes → Bytes → Option Bytes
unfolding bytes_eq
accept ciphertext message end = if bytes_eq ciphertext (message ++ end) then some message else none

unfoldable pub decrypt : Bytes → Bytes → Bytes → Bytes → Option Bytes
unfolding tag accept
decrypt key nonce ciphertext aad =
    let message = take (length ciphertext - 16) ciphertext in
    accept ciphertext message (tag key nonce message aad)

abbrev pub toy : Crypto
toy = record {
  public_from = public_from;
  diffie_hellman = diffie_hellman;
  sha256 = λ b. checksum b ∷ replicate 31 0;
  hkdf_expand = λ salt key info. some (replicate 32 (checksum (salt ++ key ++ info)));
  encrypt = encrypt;
  decrypt = decrypt;
  b64_encode = λ b. b;
  b64_decode = λ t. some t;
  uuid_text = λ u. u ∷ replicate 35 0;
}

message-take :
    (message end : Bytes)
    → length end ≡ 16
    → take (length (message ++ end) - 16) (message ++ end) ≡ message
message-take message end e =
    ap (λ n. take n (message ++ end)) (omega (arith, length-append message end))
    ∙ take-append (length message) message end (omega arith)
    ∙ take_self message

some_eq : {x y : Bytes} → some x ≡ some y → x ≡ y
some_eq h = cc

accept_self : (message end : Bytes) → accept (message ++ end) message end ≡ some message
unfolding accept
accept_self message end = rw (bytes_eq_refl (message ++ end))

accept_sound :
    (ct message end m : Bytes)
    → accept ct message end ≡ some m
    → (message ≡ m) × (ct ≡ message ++ end)
unfolding accept
accept_sound ct message end m h = ground (arith, bytes_eq_iff ct (message ++ end))

decrypt-encrypt : (k n m a ct : Bytes) → encrypt k n m a ≡ some ct → decrypt k n ct a ≡ some m
unfolding encrypt decrypt
decrypt-encrypt k n m a ct e =
    let end = tag k n m a in
    rw (← some_eq e, message-take m end (length-tag k n m a)) (accept_self m end)

encrypt-decrypt : (k n ct a m : Bytes) → decrypt k n ct a ≡ some m → encrypt k n m a ≡ some ct
unfolding encrypt decrypt
encrypt-decrypt k n ct a m e =
    let message = take (length ct - 16) ct in
    let (same, whole) = accept_sound ct message (tag k n message a) m e in
    ap some (ap (λ x. x ++ tag k n x a) (sym same) ∙ sym whole)

pub toy-CryptoLaws : CryptoLaws toy
unfolding public_from diffie_hellman first encrypt
toy-CryptoLaws = record {
  dh_agree = λ a b. ap (λ n. replicate 32 (suc n)) (mul_comm (checksum a) (checksum b));
  public_length = λ a. refl;
  hkdf_total = λ s k i. (_, refl);
  encrypt_total = λ k n m a h. (_, refl);
  decrypt_encrypt = decrypt-encrypt;
  encrypt_decrypt = encrypt-decrypt;
  encrypt_length = λ k n m a ct e.
      sym (ap length (some_eq e)) ∙ length-append m _ ∙ ap (λ x. length m + x) (length-tag k n m a);
  b64_round = λ b. refl;
  uuid_length = λ u. refl;
  uuid_injective = λ u v e. ap first e;
}
