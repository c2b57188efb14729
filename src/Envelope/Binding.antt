-- ===== src/Envelope/Binding.antt =====
-- What a key and an authenticated ciphertext are bound to (common/src/envelope.rs).
use zk_llm_gateway.Prelude.{
  ℕ, ◌≡◌, refl, sym, ap, ◌∙◌, arith, some, get_elem?, length, length-append, append-injective,
  cons-injective,
}
use zk_llm_gateway.Prelude.Text.{Bytes, codes}
use zk_llm_gateway.Crypto.{Crypto, CryptoLaws}
use zk_llm_gateway.Token.{TokenClass}
use zk_llm_gateway.Token.Classes.{id_u8-injective}
use zk_llm_gateway.Envelope.{
  KeyDirection, request, response, direction_byte, hkdf_info, binding_material, aad_bytes,
}

direction_byte-injective : (d e : KeyDirection) → direction_byte d ≡ direction_byte e → d ≡ e
unfolding direction_byte
direction_byte-injective d e h = ground arith

-- The fields of a transcript, as both ends hold them.
pub record Transcript : Type 0 where
  pub version : ℕ
  pub token_class : TokenClass
  pub request_id : ℕ
  pub client_nonce : Bytes
  pub eph_pub : Bytes
  pub gateway_pub : Bytes

-- The arrays have the lengths of their Rust types.
pub record IsSized (t : Transcript) : Type 0 where
  pub client_nonce_size : length t.client_nonce ≡ 32
  pub eph_pub_size : length t.eph_pub ≡ 32
  pub gateway_pub_size : length t.gateway_pub ≡ 32

module _ (c : Crypto) where
  abbrev pub material : Bytes → Transcript → Bytes
  material label t =
      binding_material c label t.version t.token_class t.request_id t.client_nonce t.eph_pub
        t.gateway_pub

  abbrev pub aad : KeyDirection → Transcript → Bytes
  aad dir t =
      aad_bytes c t.version t.token_class dir t.request_id t.client_nonce t.eph_pub t.gateway_pub

module _ (c : Crypto) (laws : CryptoLaws c) {t u : Transcript} (st : IsSized t)
    (su : IsSized u) where
  material-injective : (label : Bytes) → material c label t ≡ material c label u → t ≡ u
  unfolding binding_material
  material-injective label e =
      let (_, e1) = append-injective label label refl e in
      let (same_version, e2) = cons-injective e1 in
      let (same_class, e3) = cons-injective e2 in
      let (same_id, e4) =
        append-injective (c.uuid_text t.request_id) (c.uuid_text u.request_id)
          (laws.uuid_length _ ∙ sym (laws.uuid_length _)) e3 in
      let (same_nonce, e5) =
        append-injective t.client_nonce u.client_nonce
          (st.client_nonce_size ∙ sym su.client_nonce_size) e4 in
      let (same_eph, same_gateway) =
        append-injective t.eph_pub u.eph_pub (st.eph_pub_size ∙ sym su.eph_pub_size) e5 in
      let class_eq = id_u8-injective t.token_class u.token_class same_class in
      let id_eq = laws.uuid_injective t.request_id u.request_id same_id in
      λ i. record {
        version = same_version i;
        token_class = class_eq i;
        request_id = id_eq i;
        client_nonce = same_nonce i;
        eph_pub = same_eph i;
        gateway_pub = same_gateway i;
      }

  length-material : (label : Bytes) → length (material c label t) ≡ length (material c label u)
  unfolding binding_material
  length-material label = omega (
    arith,
    st.client_nonce_size,
    su.client_nonce_size,
    st.eph_pub_size,
    su.eph_pub_size,
    st.gateway_pub_size,
    su.gateway_pub_size,
    laws.uuid_length t.request_id,
    laws.uuid_length u.request_id,
    length-append {0},
  )

  -- Over transcripts whose nonce and keys have their lengths, associated data is equal only for the
  -- same direction and the same transcript: version, class, request id, client nonce, ephemeral key
  -- and gateway key.
  pub aad_bytes-injective : (d e : KeyDirection) → aad c d t ≡ aad c e u → (d ≡ e) × (t ≡ u)
  unfolding aad_bytes
  aad_bytes-injective d e h =
      let label = codes "zk-llm-gateway-envelope-aad-v2" in
      let (same, last) =
        append-injective (material c label t) (material c label u) (length-material label) h in
      (direction_byte-injective d e (cons-injective last).0, material-injective label same)

some_eq : {x y : ℕ} → some x ≡ some y → x ≡ y
some_eq h = cc

-- The info of a key derivation is equal only for the same class and the same direction.
pub hkdf_info-injective :
    (a b : TokenClass) (d e : KeyDirection) → hkdf_info a d ≡ hkdf_info b e → (a ≡ b) × (d ≡ e)
unfolding hkdf_info
hkdf_info-injective a b request request h =
    (id_u8-injective a b (some_eq (ap (λ xs. get_elem? xs 30) h)), refl)
hkdf_info-injective a b request response h = absurd (omega (arith, ap length h))
hkdf_info-injective a b response request h = absurd (omega (arith, ap length h))
hkdf_info-injective a b response response h =
    (id_u8-injective a b (some_eq (ap (λ xs. get_elem? xs 31) h)), refl)
