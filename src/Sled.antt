-- ===== src/Sled.antt =====
-- The embedded database of the gateway (the sled crate), as a parameter: its operations may fail
-- with an I/O error, and the laws say what its documentation promises of the others.
pub mod Memory
use zk_llm_gateway.Prelude.{ℕ, ◌≡◌, ◌≢◌, ◌⊎◌, Bool, Option, some}
use zk_llm_gateway.Prelude.Text.{Bytes}

-- `Ok(Ok(()))`, `Ok(Err(_))` and `Err(_)` of `compare_and_swap`.
pub data Cas : Type 0 where
  swapped conflict io_error : Cas

pub record Sled : Type 1 where
  pub Db : Type 0
  -- What a key holds, an abstract view that the laws speak of.
  pub contents : Db → Bytes → Option Bytes
  -- key, expected value, new value.
  pub compare_and_swap : Bytes → Option Bytes → Option Bytes → Db → Cas × Db
  -- `none` is an I/O error.
  pub get : Bytes → Db → Option (Option Bytes)
  -- `false` is an I/O error.
  pub flush : Db → Bool × Db

pub record SledLaws (s : Sled) : Type 0 where
  pub cas_swapped :
      (k : Bytes) (old new : Option Bytes) (db db' : s.Db)
      → s.compare_and_swap k old new db ≡ (swapped, db')
      → (s.contents db k ≡ old) × (s.contents db' k ≡ new)
  pub cas_conflict :
      (k : Bytes) (old new : Option Bytes) (db db' : s.Db)
      → s.compare_and_swap k old new db ≡ (conflict, db')
      → (s.contents db k ≢ old) × (s.contents db' k ≡ s.contents db k)
  -- After an I/O error the write may have happened, if it was due.
  pub cas_io_error :
      (k : Bytes) (old new : Option Bytes) (db db' : s.Db)
      → s.compare_and_swap k old new db ≡ (io_error, db')
      → (s.contents db' k ≡ s.contents db k) ⊎ ((s.contents db k ≡ old) × (s.contents db' k ≡ new))
  pub cas_frame :
      (k j : Bytes) (old new : Option Bytes) (db : s.Db)
      → k ≢ j
      → s.contents (s.compare_and_swap k old new db).1 j ≡ s.contents db j
  pub get_reads :
      (k : Bytes) (db : s.Db) (v : Option Bytes) → s.get k db ≡ some v → v ≡ s.contents db k
  pub flush_keeps : (db : s.Db) (k : Bytes) → s.contents (s.flush db).1 k ≡ s.contents db k
