-- ===== src/Envelope/Tests.antt =====
-- Examples for common/src/envelope.rs, over the concrete cryptography of `Crypto.Toy`.
use zk_llm_gateway.Prelude.{
  some, ◌≤◌, ℕ, ◌+◌, ◌≡◌, refl, [], ◌∷◌, arith, length, replicate, length-replicate,
}
use zk_llm_gateway.Prelude.Text.{Bytes}
use zk_llm_gateway.Prelude.Result.{ok, err}
use zk_llm_gateway.Crypto.Toy.{toy, toy-CryptoLaws, diffie_hellman, public_from}
use zk_llm_gateway.Token.{
  c256, c512, too_large, trim_zero_padding, envelope_request_plaintext_bytes,
  envelope_response_plaintext_bytes,
}
use zk_llm_gateway.Envelope.{
  Envelope, ClientCryptoContext, request, response, padding, ensure_contributory, from_secret_bytes,
  seal_request_for_gateway, seal_response_at_gateway, open_request_at_gateway, open_response,
  envelope_version, derive_key,
}
use zk_llm_gateway.Envelope.Binding.{
  Transcript, IsSized, aad, aad_bytes-injective, hkdf_info-injective,
}
use zk_llm_gateway.Envelope.RoundTrip.{exchange}
use zk_llm_gateway.Envelope.Privacy.{
  HasSize, own_transcript, seal_request-HasSize, seal_response-HasSize, open_response-bound,
  seal_request-too_large,
}

abbrev key_a : Bytes
key_a = 7 ∷ []

abbrev key_b : Bytes
key_b = 9 ∷ []

abbrev nonce_a : Bytes
nonce_a = replicate 12 1

abbrev nonce_b : Bytes
nonce_b = replicate 12 2

abbrev client_nonce : Bytes
client_nonce = replicate 32 5

abbrev question : Bytes
question = 123 ∷ 125 ∷ []

abbrev reply : Bytes
reply = 91 ∷ 93 ∷ []

contributory_toy : ensure_contributory (toy.diffie_hellman key_b (toy.public_from key_a)) ≡ ok tt
unfolding ensure_contributory diffie_hellman public_from
contributory_toy = refl

question_fits : length question ≤ envelope_request_plaintext_bytes c256
unfolding envelope_request_plaintext_bytes
question_fits = omega arith

reply_fits : length reply ≤ envelope_response_plaintext_bytes c256
unfolding envelope_response_plaintext_bytes
reply_fits = omega arith

abbrev Exchanged : Type 0
Exchanged =
    (env : Envelope) × (ctx : ClientCryptoContext) × (answer_env : Envelope)
    × (seal_request_for_gateway toy key_b client_nonce nonce_a (from_secret_bytes toy key_a).public
          c256 42 question
        ≡ ok (env, ctx))
    × (open_request_at_gateway toy (from_secret_bytes toy key_a) env ≡ ok question)
    × (seal_response_at_gateway toy (from_secret_bytes toy key_a) nonce_b env reply ≡ ok answer_env)
    × (open_response toy ctx answer_env ≡ ok reply)

exchange_example : Exchanged
exchange_example =
    exchange toy toy-CryptoLaws key_a key_b client_nonce nonce_a nonce_b c256 42 question reply refl
      refl refl contributory_toy question_fits (omega arith) reply_fits (omega arith)

sample : Exchanged
sample =
    exchange toy toy-CryptoLaws key_a key_b client_nonce nonce_a nonce_b c256 42 question reply refl
      refl refl contributory_toy question_fits (omega arith) reply_fits (omega arith)

seal_request-HasSize_instance :
    HasSize toy sample.0 (envelope_request_plaintext_bytes c256 + 16)
    × (sample.0.token_class ≡ c256)
    × (sample.0.request_id ≡ 42)
seal_request-HasSize_instance =
    seal_request-HasSize toy toy-CryptoLaws key_b client_nonce nonce_a
      (from_secret_bytes toy key_a).public c256 42 question sample.0 sample.1 sample.3

seal_response-HasSize_instance :
    HasSize toy sample.2 (envelope_response_plaintext_bytes sample.0.token_class + 16)
    × (sample.2.token_class ≡ sample.0.token_class)
    × (sample.2.request_id ≡ sample.0.request_id)
    × (sample.2.client_nonce_b64 ≡ sample.0.client_nonce_b64)
    × (sample.2.kem_pub_b64 ≡ sample.0.kem_pub_b64)
seal_response-HasSize_instance =
    seal_response-HasSize toy toy-CryptoLaws (from_secret_bytes toy key_a) nonce_b sample.0 reply
      sample.2 sample.5

open_response-bound_example :
    (sample.2.version ≡ envelope_version)
    × (sample.2.request_id ≡ sample.1.request_id)
    × (sample.2.token_class ≡ sample.1.token_class)
    × ((key nonce padded ct : Bytes) × (derive_key toy
            (toy.diffie_hellman sample.1.eph_secret_bytes sample.1.gateway_public_bytes)
            response
            sample.1.token_class
            sample.1.request_id
            sample.1.client_nonce_bytes
            sample.1.eph_pub_bytes
            sample.1.gateway_public_bytes
          ≡ ok key)
        × (toy.b64_decode sample.2.ciphertext_b64 ≡ some ct)
        × (toy.encrypt key nonce padded (aad toy response (own_transcript sample.1)) ≡ some ct)
        × (reply ≡ trim_zero_padding padded))
open_response-bound_example =
    open_response-bound toy toy-CryptoLaws sample.1 sample.2 reply sample.6

abbrev sample_transcript : Transcript
sample_transcript = record {
  version = envelope_version;
  token_class = c256;
  request_id = 42;
  client_nonce = client_nonce;
  eph_pub = replicate 32 3;
  gateway_pub = replicate 32 4;
}

sample-IsSized : IsSized sample_transcript
sample-IsSized = omega arith

aad_bytes-injective_example : (◌≡◌ request request) × (sample_transcript ≡ sample_transcript)
aad_bytes-injective_example =
    aad_bytes-injective toy toy-CryptoLaws sample-IsSized sample-IsSized request request refl

hkdf_info-injective_instance : (c512 ≡ c512) × (response ≡ response)
hkdf_info-injective_instance = hkdf_info-injective c512 c512 response response refl

seal_request-too_large_instance :
    seal_request_for_gateway toy key_b client_nonce nonce_a
      (toy.public_from key_a)
      c256
      42
      (replicate {A = ℕ} 9000 1)
    ≡ err (
        padding
          (too_large (length (replicate {A = ℕ} 9000 1)) (envelope_request_plaintext_bytes c256)))
seal_request-too_large_instance =
    seal_request-too_large toy key_b client_nonce nonce_a (toy.public_from key_a) c256 42
      (replicate {A = ℕ} 9000 1)
      (unfold envelope_request_plaintext_bytes in
        rw (length-replicate {A = ℕ} 9000 1) (omega arith))
