-- ===== src/Nullifier.antt =====
-- gateway/src/main.rs, replay protection: the values stored under a ticket's nullifier and the
-- functions that reserve, spend and release it. The clock's reading is an argument.
pub mod Value
pub mod Effects
pub mod Settle
mod Tests
use zk_llm_gateway.Prelude.{
  ℕ, zero, suc, ◌+◌, ◌-◌, ◌*◌, ◌/◌, ◌%◌, ◌^◌, Bool, true, false, Option, none, some, List, [], ◌∷◌,
  ltb, ◌==◌, if◌then◌else◌, length,
}
use zk_llm_gateway.Prelude.Text.{Bytes}
use zk_llm_gateway.Prelude.Result.{Result, ok, err}
use zk_llm_gateway.Sled.{Cas, swapped, conflict, io_error, Sled}

pub data ReserveError : Type 0 where
  already_used db_failed : ReserveError

-- `u64::to_be_bytes`, most significant byte first, for any number of bytes.
to_be_bytes : ℕ → ℕ → Bytes
to_be_bytes zero x = []
to_be_bytes (suc n) x = (x / 256 ^ n) % 256 ∷ to_be_bytes n x

from_be_bytes : ℕ → Bytes → ℕ
from_be_bytes acc [] = acc
from_be_bytes acc (b ∷ bs) = from_be_bytes (acc * 256 + b) bs

abbrev pub pending_status : ℕ
pending_status = b'p'

abbrev pub spent_status : ℕ
spent_status = b's'

unfoldable pub encode_nullifier_value : ℕ → ℕ → Bytes
unfolding to_be_bytes
encode_nullifier_value status ts_ms = status ∷ to_be_bytes 8 ts_ms

unfoldable pub decode_nullifier_value : Bytes → Option (ℕ × ℕ)
unfolding from_be_bytes
decode_nullifier_value [] = none
decode_nullifier_value (status ∷ ts) =
    if length ts == 8 then some (status, from_be_bytes 0 ts) else none

-- A pending value that is older than the time to live.
unfoldable pub is_stale_pending : ℕ → ℕ → Bytes → Bool
unfolding decode_nullifier_value
is_stale_pending ttl now val = elim (decode_nullifier_value val) [
  | none ↦ false
  | some (status, ts) ↦ if status == pending_status then ltb ttl (now - ts) else false
]

module _ (s : Sled) where
  abbrev pub Outcome : Type 0
  Outcome = Result ReserveError (Unit {0}) × s.Db

  -- `db.flush().map_err(|_| ReserveError::Db)?; Ok(())`.
  pub flushed : Bool × s.Db → Outcome
  flushed (true, db) = (ok tt, db)
  flushed (false, db) = (err db_failed, db)

  -- After the second compare-and-swap of `reserve_nullifier`.
  replaced : Cas × s.Db → Outcome
  unfolding flushed
  replaced (swapped, db) = flushed (s.flush db)
  replaced (conflict, db) = (err already_used, db)
  replaced (io_error, db) = (err db_failed, db)

  -- The slow path: the value that is there is replaced if it is a stale reservation.
  replace_stale : Bytes → Bytes → ℕ → ℕ → Option (Option Bytes) → s.Db → Outcome
  unfolding replaced
  replace_stale rkey pending_val ttl now none db = (err db_failed, db)
  replace_stale rkey pending_val ttl now (some none) db = (err already_used, db)
  replace_stale rkey pending_val ttl now (some (some val)) db =
      if is_stale_pending ttl now val
      then replaced (s.compare_and_swap rkey (some val) (some pending_val) db)
      else (err already_used, db)

  -- After the first compare-and-swap.
  reserved : Bytes → Bytes → ℕ → ℕ → Cas × s.Db → Outcome
  unfolding flushed replace_stale
  reserved rkey pending_val ttl now (swapped, db) = flushed (s.flush db)
  reserved rkey pending_val ttl now (conflict, db) =
      replace_stale rkey pending_val ttl now (s.get rkey db) db
  reserved rkey pending_val ttl now (io_error, db) = (err db_failed, db)

  unfoldable pub reserve_nullifier : Bytes → Bytes → ℕ → ℕ → s.Db → Outcome
  unfolding reserved
  reserve_nullifier rkey pending_val ttl now db =
      reserved rkey pending_val ttl now (s.compare_and_swap rkey none (some pending_val) db)

  marked : Cas × s.Db → Outcome
  unfolding flushed
  marked (swapped, db) = flushed (s.flush db)
  marked (conflict, db) = (err db_failed, db)
  marked (io_error, db) = (err db_failed, db)

  unfoldable pub mark_nullifier_spent : Bytes → Bytes → Bytes → s.Db → Outcome
  unfolding marked
  mark_nullifier_spent rkey pending_val spent_val db =
      marked (s.compare_and_swap rkey (some pending_val) (some spent_val) db)

  released : Cas × s.Db → Outcome
  unfolding flushed
  released (swapped, db) = flushed (s.flush db)
  released (conflict, db) = (ok tt, db)
  released (io_error, db) = (err db_failed, db)

  unfoldable pub release_pending_nullifier : Bytes → Bytes → s.Db → Outcome
  unfolding released
  release_pending_nullifier rkey pending_val db =
      released (s.compare_and_swap rkey (some pending_val) none db)
