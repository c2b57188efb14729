-- ===== src/Interleaving.antt =====
-- gateway/src/main.rs, `infer_canonical` from the reservation of the nullifier on, run by any number
-- of requests at once over one database. Each step is one database operation of one request, or its
-- provider call; a schedule is a list of such steps.
pub mod Step
pub mod Safety
mod Tests
use zk_llm_gateway.Prelude.{
  ℕ, Bool, true, false, Option, none, some, List, [], ◌∷◌, ◌==◌, if◌then◌else◌,
}
use zk_llm_gateway.Prelude.Text.{Bytes}
use zk_llm_gateway.Sled.{Cas, swapped, conflict, io_error, Sled}
use zk_llm_gateway.Nullifier.{encode_nullifier_value, spent_status, is_stale_pending}

-- What a request brings: its replay key, its reservation, and the time to live.
pub record Job : Type 0 where
  pub rkey : Bytes
  pub pending_val : Bytes
  pub ttl : ℕ

-- How far a request has come. `replacing` holds the stale value that it read, `spending` the value
-- that it is about to write; the `_written` phases come before the flush.
pub data Phase : Type 0 where
  starting contended reserve_written calling spent_written : Phase
  replacing spending : Bytes → Phase
  releasing release_written paid failed : Phase

-- What the surroundings decide at a step: the clock, and whether the provider answers.
pub record Event : Type 0 where
  pub now : ℕ
  pub provider_ok : Bool

unfoldable pub set_phase : ℕ → Phase → (ℕ → Phase) → ℕ → Phase
set_phase i p f k = if i == k then p else f k

module _ (s : Sled) where
  -- Go on to `won` if the swap was made, to `lost` if another value stood there.
  after_cas : Phase → Phase → Cas × s.Db → Phase × s.Db
  after_cas won lost (swapped, db) = (won, db)
  after_cas won lost (conflict, db) = (lost, db)
  after_cas won lost (io_error, db) = (failed, db)

  after_flush : Phase → Bool × s.Db → Phase × s.Db
  after_flush next (true, db) = (next, db)
  after_flush next (false, db) = (failed, db)

  after_get : ℕ → ℕ → Option (Option Bytes) → Phase
  after_get ttl now none = failed
  after_get ttl now (some none) = failed
  after_get ttl now (some (some val)) =
      if is_stale_pending ttl now val then replacing val else failed

  unfoldable pub step_job : Job → Event → Phase → s.Db → Phase × s.Db
  unfolding after_cas after_flush after_get
  step_job j e starting db =
      after_cas reserve_written contended (s.compare_and_swap j.rkey none (some j.pending_val) db)
  step_job j e contended db = (after_get j.ttl e.now (s.get j.rkey db), db)
  step_job j e (replacing val) db =
      after_cas reserve_written failed
        (s.compare_and_swap j.rkey (some val) (some j.pending_val) db)
  step_job j e reserve_written db = after_flush calling (s.flush db)
  step_job j e calling db = (
    if e.provider_ok then spending (encode_nullifier_value spent_status e.now) else releasing,
    db,
  )
  step_job j e (spending spent_val) db =
      after_cas spent_written failed
        (s.compare_and_swap j.rkey (some j.pending_val) (some spent_val) db)
  step_job j e spent_written db = after_flush paid (s.flush db)
  step_job j e releasing db =
      after_cas release_written failed (s.compare_and_swap j.rkey (some j.pending_val) none db)
  step_job j e release_written db = after_flush failed (s.flush db)
  step_job j e paid db = (paid, db)
  step_job j e failed db = (failed, db)

  -- The database, and the phase of each request by its number.
  pub record World : Type 0 where
    pub db : s.Db
    pub phase : ℕ → Phase

  unfoldable pub step : (ℕ → Job) → World → ℕ × Event → World
  unfolding step_job set_phase
  step jobs w (i, e) =
      let out = step_job (jobs i) e (w.phase i) w.db in
      record { db = out.1; phase = set_phase i out.0 w.phase }

  unfoldable pub run : (ℕ → Job) → World → List (ℕ × Event) → World
  unfolding step
  run jobs w [] = w
  run jobs w (x ∷ xs) = run jobs (step jobs w x) xs

  -- All requests stand before their first operation.
  abbrev pub initial : s.Db → World
  initial db = record { db = db; phase = λ i. starting }
