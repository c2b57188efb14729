-- ===== src/Gateway/Infer/Charge.antt =====
-- What charging a ticket does to its key (the second half of `infer_canonical` in
-- gateway/src/main.rs).
use zk_llm_gateway.Prelude.{◌≡◌, ◌≢◌, refl, ap, ◌∙◌, ◌⊎◌, inl, inr, Option, none, some, [], ◌∷◌}
use zk_llm_gateway.Prelude.Text.{Bytes}
use zk_llm_gateway.Prelude.Result.{Result, ok, err}
use zk_llm_gateway.Sled.{SledLaws}
use zk_llm_gateway.Types.{InferenceRequest}
use zk_llm_gateway.Nullifier.{
  ReserveError, reserve_nullifier, mark_nullifier_spent, release_pending_nullifier,
}
use zk_llm_gateway.Nullifier.Effects.{IsStale, reserve_nullifier-ok, reserve_nullifier-touches}
use zk_llm_gateway.Nullifier.Settle.{mark_nullifier_spent_lem, release_pending_nullifier-touches}
use zk_llm_gateway.Gateway.{
  AppState, EncryptedError, ProviderChatCompletionResult, provider_call, call_provider,
}
use zk_llm_gateway.Gateway.Infer.{
  Clock, Outcome, pending_val, spent_val, after_mark, after_call, after_reserve, charge,
}

module _ (st : AppState) (laws : SledLaws st.sled) (req : InferenceRequest) (clock : Clock)
    (rkey : Bytes) where
  -- The key is free for a reservation: it holds nothing, or a reservation that is too old.
  abbrev pub IsFree : st.sled.Db → Type 0
  IsFree db =
      (st.sled.contents db rkey ≡ none)
      ⊎ ((val : Bytes) × (st.sled.contents db rkey ≡ some val)
          × IsStale st.nullifier_pending_ttl_ms clock.contended_at val)

  abbrev Charged : Type 0
  Charged = Outcome st EncryptedError ProviderChatCompletionResult

  abbrev pending : Bytes
  pending = pending_val st req clock rkey

  abbrev spent : Bytes
  spent = spent_val st req clock rkey

  -- What a result that is charged for rests on.
  pub record IsPaid (r : ProviderChatCompletionResult) (db : st.sled.Db) (out : Charged)
      : Type 0 where
    pub free : IsFree db
    pub provided : call_provider st req ≡ ok r
    pub spends : st.sled.contents out.db rkey ≡ some spent
    pub calls : out.calls ≡ provider_call st req ∷ []

  after_mark-ok :
      (r r' : ProviderChatCompletionResult) (out : Result ReserveError (Unit {0}) × st.sled.Db)
      → (after_mark st req clock rkey r' out).result ≡ ok r
      → (out.0 ≡ ok tt)
        × (r' ≡ r)
        × ((after_mark st req clock rkey r' out).db ≡ out.1)
        × ((after_mark st req clock rkey r' out).calls ≡ provider_call st req ∷ [])
  unfolding after_mark
  after_mark-ok r r' (ok u, db) h = (refl, cc h, refl, refl)
  after_mark-ok r r' (err e, db) h = absurd (cc h)

  after_call-ok :
      (r : ProviderChatCompletionResult)
      (called : Result EncryptedError ProviderChatCompletionResult) (before db : st.sled.Db)
      → call_provider st req ≡ called
      → IsFree before
      → (after_call st req clock rkey called db).result ≡ ok r
      → IsPaid r before (after_call st req clock rkey called db)
  unfolding after_call
  after_call-ok r (ok r') before db e free h =
      let (marked, same, db_same, calls) =
        after_mark-ok r r' (mark_nullifier_spent st.sled rkey pending spent db) h in
      let (_, holds) = mark_nullifier_spent_lem st.sled laws rkey pending spent db marked in
      record {
        free = free;
        provided = e ∙ ap ok same;
        spends = ap (λ d. st.sled.contents d rkey) db_same ∙ holds;
        calls = calls;
      }
  after_call-ok r (err e') before db e free h = absurd (cc h)

  marked_calls :
      (r : ProviderChatCompletionResult) (out : Result ReserveError (Unit {0}) × st.sled.Db)
      → (after_mark st req clock rkey r out).calls ≡ provider_call st req ∷ []
  unfolding after_mark
  marked_calls r (ok u, db) = refl
  marked_calls r (err e, db) = refl

  after_call-calls :
      (called : Result EncryptedError ProviderChatCompletionResult) (db : st.sled.Db)
      → (after_call st req clock rkey called db).calls ≡ provider_call st req ∷ []
  unfolding after_call
  after_call-calls (ok r) db = marked_calls r (mark_nullifier_spent st.sled rkey pending spent db)
  after_call-calls (err e) db = refl

  abbrev reserve : st.sled.Db → Result ReserveError (Unit {0}) × st.sled.Db
  reserve db =
      reserve_nullifier st.sled rkey pending st.nullifier_pending_ttl_ms clock.contended_at db

  reserve-IsFree : (db : st.sled.Db) → (reserve db).0 ≡ ok tt → IsFree db
  reserve-IsFree db h =
      (reserve_nullifier-ok st.sled laws rkey pending st.nullifier_pending_ttl_ms clock.contended_at
        db h).0

  after_reserve-ok :
      (r : ProviderChatCompletionResult) (before : st.sled.Db)
      (out : Result ReserveError (Unit {0}) × st.sled.Db)
      → (out.0 ≡ ok tt → IsFree before)
      → (after_reserve st req clock rkey out).result ≡ ok r
      → IsPaid r before (after_reserve st req clock rkey out)
  unfolding after_reserve
  after_reserve-ok r before (ok u, db) free h =
      after_call-ok r (call_provider st req) before db refl (free refl) h
  after_reserve-ok r before (err e, db) free h = absurd (cc h)

  -- A charge that succeeds found its key free, has the provider's answer to its one call, and leaves
  -- the key with the spent value.
  pub charge-IsPaid :
      (r : ProviderChatCompletionResult) (db : st.sled.Db)
      → (charge st req clock rkey db).result ≡ ok r
      → IsPaid r db (charge st req clock rkey db)
  unfolding charge
  charge-IsPaid r db h = after_reserve-ok r db (reserve db) (reserve-IsFree db) h

  after_reserve-calls :
      (before : st.sled.Db) (out : Result ReserveError (Unit {0}) × st.sled.Db)
      → (out.0 ≡ ok tt → IsFree before)
      → (after_reserve st req clock rkey out).calls ≢ []
      → IsFree before × ((after_reserve st req clock rkey out).calls ≡ provider_call st req ∷ [])
  unfolding after_reserve
  after_reserve-calls before (ok u, db) free h =
      (free refl, after_call-calls (call_provider st req) db)
  after_reserve-calls before (err e, db) free h = absurd (h refl)

  -- A charge calls the provider at most once, and only for a key that it found free.
  pub charge-calls :
      (db : st.sled.Db)
      → (charge st req clock rkey db).calls ≢ []
      → IsFree db × ((charge st req clock rkey db).calls ≡ provider_call st req ∷ [])
  unfolding charge
  charge-calls db h = after_reserve-calls db (reserve db) (reserve-IsFree db) h

  -- The key holds what it held, this reservation, or nothing.
  abbrev pub IsUnspent : Option Bytes → st.sled.Db → Type 0
  IsUnspent held db =
      (st.sled.contents db rkey ≡ held)
      ⊎ ((st.sled.contents db rkey ≡ some pending) ⊎ (st.sled.contents db rkey ≡ none))

  release-IsUnspent :
      (held : Option Bytes) (db : st.sled.Db)
      → (st.sled.contents db rkey ≡ held) ⊎ (st.sled.contents db rkey ≡ some pending)
      → IsUnspent held (release_pending_nullifier st.sled rkey pending db).1
  release-IsUnspent held db h =
      elim (release_pending_nullifier-touches st.sled laws rkey pending db) [
        | inr gone ↦ inr (inr gone)
        | inl kept ↦ elim h [ inl was ↦ inl (kept ∙ was) | inr was ↦ inr (inl (kept ∙ was)) ]
      ]

  after_reserve-IsUnspent :
      (held : Option Bytes) (e : EncryptedError) (out : Result ReserveError (Unit {0}) × st.sled.Db)
      → call_provider st req ≡ err e
      → (st.sled.contents out.1 rkey ≡ held) ⊎ (st.sled.contents out.1 rkey ≡ some pending)
      → IsUnspent held (after_reserve st req clock rkey out).db
  unfolding after_reserve after_call
  after_reserve-IsUnspent held e (ok u, db) failed h = rw failed (release-IsUnspent held db h)
  after_reserve-IsUnspent held e (err x, db) failed h = elim h [
    | inl was ↦ inl was
    | inr was ↦ inr (inl was)
  ]

  -- While the provider fails, a charge never spends the ticket: whatever the database does, the key
  -- then holds what it held before, this request's reservation, or nothing.
  pub charge-IsUnspent :
      (db : st.sled.Db) (e : EncryptedError)
      → call_provider st req ≡ err e
      → (st.sled.contents (charge st req clock rkey db).db rkey ≡ st.sled.contents db rkey)
        ⊎ ((st.sled.contents (charge st req clock rkey db).db rkey
              ≡ some (pending_val st req clock rkey))
            ⊎ (st.sled.contents (charge st req clock rkey db).db rkey ≡ none))
  unfolding charge
  charge-IsUnspent db e failed =
      after_reserve-IsUnspent (st.sled.contents db rkey) e (reserve db) failed (
        reserve_nullifier-touches st.sled laws rkey pending st.nullifier_pending_ttl_ms
          clock.contended_at db)
