-- ===== src/Interleaving/Tests.antt =====
-- Two requests with one ticket, interleaved over the database in memory.
use zk_llm_gateway.Prelude.{ℕ, ◌≡◌, ◌≢◌, refl, true, none, some, List, [], ◌∷◌}
use zk_llm_gateway.Prelude.Text.{Bytes, bytes_eq}
use zk_llm_gateway.Sled.Memory.{memory, memory-SledLaws, Table, compare_and_swap, option_eq, update}
use zk_llm_gateway.Nullifier.{pending_status, spent_status, encode_nullifier_value}
use zk_llm_gateway.Interleaving.{Job, Event, paid, step_job, set_phase, step, run, initial}
use zk_llm_gateway.Interleaving.Step.{SpentAt}
use zk_llm_gateway.Interleaving.Safety.{AllPending, one_answer_per_key, spent_forever}

abbrev key : Bytes
key = 1 ∷ 2 ∷ []

abbrev jobs : ℕ → Job
jobs i = record { rkey = key; pending_val = encode_nullifier_value pending_status 1000; ttl = 300 }

abbrev tick : Event
tick = record { now = 1001; provider_ok = true }

-- Request 0 runs through; request 1 tries in between.
abbrev schedule : List (ℕ × Event)
schedule = (0, tick) ∷ (1, tick) ∷ (0, tick) ∷ (1, tick) ∷ (0, tick) ∷ (0, tick) ∷ (0, tick) ∷ []

jobs-AllPending : AllPending jobs
unfolding encode_nullifier_value
jobs-AllPending i = refl

abbrev empty : Table
empty k = none

runs : (run memory jobs (initial memory empty) schedule).phase 0 ≡ paid
unfolding run step step_job set_phase encode_nullifier_value compare_and_swap option_eq bytes_eq
    update
runs = refl

one_answer_per_key_example :
    (◌≡◌ {A = ℕ} 0 0) × SpentAt memory (run memory jobs (initial memory empty) schedule).db key
one_answer_per_key_example =
    one_answer_per_key memory memory-SledLaws jobs jobs-AllPending empty schedule 0 0 runs runs refl

abbrev all_spent : Table
all_spent k = some (encode_nullifier_value spent_status 900)

all_spent-SpentAt : SpentAt memory all_spent key
unfolding encode_nullifier_value
all_spent-SpentAt = refl

spent_forever_example :
    SpentAt memory (run memory jobs (initial memory all_spent) schedule).db key
    × ((run memory jobs (initial memory all_spent) schedule).phase 1 ≢ paid)
spent_forever_example =
    spent_forever memory memory-SledLaws jobs jobs-AllPending all_spent schedule 1 all_spent-SpentAt
