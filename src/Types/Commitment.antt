-- ===== src/Types/Commitment.antt =====
-- The commitment does not depend on the iteration order of maps, nor on the ticket
-- (common/src/types.rs).
use zk_llm_gateway.Prelude.{
  ◌≡◌, ◌≢◌, refl, sym, ap, ◌∙◌, inl, inr, true, false, List, [], ◌∷◌, Bool-cases,
}
use zk_llm_gateway.Prelude.Text.{Text, bytes_eq, bytes_eq_iff}
use zk_llm_gateway.Json.{Value, Fields, end, field, insert, extend}
use zk_llm_gateway.Json.Canonical.{
  Same, same, in_arr, in_obj, SameItems, same_nil, same_cons, SameFields, same_end, same_field,
  exchange, chain, canonicalize_json-Same,
}
use zk_llm_gateway.Types.{
  ChatMessage, ZkTicket, InferenceRequest, Encoding, messages_value, commit_bytes,
  authorization_commitment,
}

pub SameFields-refl : (fs : Fields) → SameFields fs fs
SameFields-refl end = same_end
SameFields-refl (field k v fs) = same_field k (same v) (SameFields-refl fs)

insert_hit :
    (k j : Text) (v w : Value) (fs : Fields)
    → bytes_eq j k ≡ true
    → insert k v (field j w fs) ≡ field j v fs
unfolding insert
insert_hit k j v w fs e = rw e

insert_miss :
    (k j : Text) (v w : Value) (fs : Fields)
    → bytes_eq j k ≡ false
    → insert k v (field j w fs) ≡ field j w (insert k v fs)
unfolding insert
insert_miss k j v w fs e = rw e

insert-end : (k : Text) (v : Value) → insert k v end ≡ field k v end
unfolding insert
insert-end k v = refl

differ : (i j : Text) → i ≢ j → bytes_eq i j ≡ false
differ i j h = elim (Bool-cases (bytes_eq i j)) [
  | inl e ↦ absurd (h ((bytes_eq_iff i j).0 e))
  | inr e ↦ e
]

-- Two insertions under different keys may be exchanged.
insert_exchange :
    (k j : Text) (v w : Value) (fs : Fields)
    → k ≢ j
    → SameFields (insert k v (insert j w fs)) (insert j w (insert k v fs))
insert_exchange k j v w end h =
    rw
      (
        insert-end j w,
        insert-end k v,
        insert_miss k j v w end (differ j k (λ e. h (sym e))),
        insert_miss j k w v end (differ k j h),
        insert-end k v,
        insert-end j w,
      )
      (exchange j k w v end (λ e. h (sym e)))
insert_exchange k j v w (field i u fs) h = elim (Bool-cases (bytes_eq i k)) [
  | inl ik ↦
      let ij : bytes_eq i j ≡ false = differ i j (λ e. h (sym ((bytes_eq_iff i k).0 ik) ∙ e)) in
      rw
        (
          insert_miss j i w u fs ij,
          insert_hit k i v u (insert j w fs) ik,
          insert_hit k i v u fs ik,
          insert_miss j i w v fs ij,
        )
        (SameFields-refl (field i v (insert j w fs)))
  | inr ik ↦ elim (Bool-cases (bytes_eq i j)) [
    | inl ij ↦
        rw
          (
            insert_hit j i w u fs ij,
            insert_miss k i v w fs ik,
            insert_miss k i v u fs ik,
            insert_hit j i w u (insert k v fs) ij,
          )
          (SameFields-refl (field i w (insert k v fs)))
    | inr ij ↦
        rw
          (
            insert_miss j i w u fs ij,
            insert_miss k i v u (insert j w fs) ik,
            insert_miss k i v u fs ik,
            insert_miss j i w u (insert k v fs) ij,
          )
          (same_field i (same u) (insert_exchange k j v w fs h))
  ]
]

insert-SameFields :
    (k : Text) (v : Value) {fs gs : Fields}
    → SameFields fs gs
    → SameFields (insert k v fs) (insert k v gs)
insert-SameFields k v same_end = SameFields-refl (insert k v end)
insert-SameFields k v (same_field j {v = x} {w = y} {fs} {gs} x-y fs-gs) =
    elim (Bool-cases (bytes_eq j k)) [
      | inl e ↦ rw (insert_hit k j v x fs e, insert_hit k j v y gs e) (same_field j (same v) fs-gs)
      | inr e ↦
          rw (insert_miss k j v x fs e, insert_miss k j v y gs e)
            (same_field j x-y (insert-SameFields k v fs-gs))
    ]
insert-SameFields k v (exchange i j x y fs h) = elim (Bool-cases (bytes_eq i k)) [
  | inl ik ↦
      let jk : bytes_eq j k ≡ false = differ j k (λ e. h ((bytes_eq_iff i k).0 ik ∙ sym e)) in
      rw
        (
          insert_hit k i v x (field j y fs) ik,
          insert_miss k j v y (field i x fs) jk,
          insert_hit k i v x fs ik,
        )
        (exchange i j v y fs h)
  | inr ik ↦ elim (Bool-cases (bytes_eq j k)) [
    | inl jk ↦
        rw
          (
            insert_miss k i v x (field j y fs) ik,
            insert_hit k j v y fs jk,
            insert_hit k j v y (field i x fs) jk,
          )
          (exchange i j x v fs h)
    | inr jk ↦
        rw
          (
            insert_miss k i v x (field j y fs) ik,
            insert_miss k j v y fs jk,
            insert_miss k j v y (field i x fs) jk,
            insert_miss k i v x fs ik,
          )
          (exchange i j x y (insert k v fs) h)
  ]
]
insert-SameFields k v (chain a b) = chain (insert-SameFields k v a) (insert-SameFields k v b)

extend-SameFields_left :
    (gs : Fields) {fs hs : Fields} → SameFields fs hs → SameFields (extend fs gs) (extend hs gs)
unfolding extend
extend-SameFields_left end h = h
extend-SameFields_left (field k v gs) h = extend-SameFields_left gs (insert-SameFields k v h)

insert-Same-SameFields :
    (k : Text) {v w : Value} (fs : Fields) → Same v w → SameFields (insert k v fs) (insert k w fs)
insert-Same-SameFields k {v} {w} end h =
    rw (insert-end k v, insert-end k w) (same_field k h same_end)
insert-Same-SameFields k {v} {w} (field j u fs) h = elim (Bool-cases (bytes_eq j k)) [
  | inl e ↦
      rw (insert_hit k j v u fs e, insert_hit k j w u fs e) (same_field j h (SameFields-refl fs))
  | inr e ↦
      rw (insert_miss k j v u fs e, insert_miss k j w u fs e)
        (same_field j (same u) (insert-Same-SameFields k fs h))
]

extend-SameFields :
    (object : Fields) {fs gs : Fields}
    → SameFields fs gs
    → SameFields (extend object fs) (extend object gs)
unfolding extend
extend-SameFields object same_end = SameFields-refl object
extend-SameFields object (same_field k {v} {w} {fs} {gs} v-w fs-gs) =
    chain (extend-SameFields_left fs (insert-Same-SameFields k object v-w))
      (extend-SameFields (insert k w object) fs-gs)
extend-SameFields object (exchange k j v w fs h) =
    extend-SameFields_left fs (insert_exchange j k w v object (λ e. h (sym e)))
extend-SameFields object (chain a b) =
    chain (extend-SameFields object a) (extend-SameFields object b)

-- Messages that differ only in the iteration order of their extra fields.
pub data SameMessages : List ChatMessage → List ChatMessage → Type 0 where
  no_messages : SameMessages [] []
  message :
      (role content : Text) {fs gs : Fields} {ms ns : List ChatMessage}
      → SameFields fs gs
      → SameMessages ms ns
      → SameMessages
          (record { role = role; content = content; extra = fs } ∷ ms)
          (record { role = role; content = content; extra = gs } ∷ ns)

messages-SameItems :
    {ms ns : List ChatMessage}
    → SameMessages ms ns
    → SameItems (messages_value ms) (messages_value ns)
unfolding messages_value
messages-SameItems no_messages = same_nil
messages-SameItems (message role content fs ms) =
    same_cons (in_obj (extend-SameFields _ fs)) (messages-SameItems ms)

-- Requests that differ only in the iteration order of their maps (extra message fields and provider
-- options, at every depth) and in their ticket have one commitment.
pub authorization_commitment-Same :
    (s : Encoding) (r : InferenceRequest) (ms : List ChatMessage) (options : Fields)
    (ticket : ZkTicket)
    → SameMessages r.messages ms
    → SameFields r.provider_options options
    → authorization_commitment s r
      ≡ authorization_commitment s
          (record r { messages = ms; provider_options = options; ticket = ticket })
unfolding authorization_commitment
authorization_commitment-Same s r ms options ticket same_ms same_options =
    ap (λ v. commit_bytes s (s.to_vec v))
      (canonicalize_json-Same (
        in_obj (
          same_field _ (same _) (
            same_field _ (same _) (
              same_field _ (in_arr (messages-SameItems same_ms)) (
                same_field _ (same _) (
                  same_field _ (same _) (
                    same_field _ (same _)
                      (same_field _ (same _) (same_field _ (in_obj same_options) same_end))))))))))
