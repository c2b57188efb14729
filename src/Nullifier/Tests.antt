-- ===== src/Nullifier/Tests.antt =====
-- Examples for the replay protection of gateway/src/main.rs, over the database in memory.
use zk_llm_gateway.Prelude.{◌≡◌, ◌≢◌, ◌⊎◌, refl, none, some, [], ◌∷◌, arith}
use zk_llm_gateway.Prelude.Text.{Bytes, bytes_eq}
use zk_llm_gateway.Prelude.Result.{ok, err}
use zk_llm_gateway.Sled.Memory.{memory, memory-SledLaws, Table, compare_and_swap, option_eq, update}
use zk_llm_gateway.Nullifier.{
  already_used, pending_status, spent_status, encode_nullifier_value, decode_nullifier_value,
  is_stale_pending, reserve_nullifier, mark_nullifier_spent, release_pending_nullifier,
}
use zk_llm_gateway.Nullifier.Value.{decode-encode}
use zk_llm_gateway.Nullifier.Effects.{IsStale, reserve_nullifier-ok, reserve_nullifier-used}
use zk_llm_gateway.Nullifier.Settle.{mark_nullifier_spent_lem, release_pending_nullifier_lem}

abbrev key : Bytes
key = 1 ∷ 2 ∷ []

abbrev old : Bytes
old = encode_nullifier_value pending_status 1000

abbrev fresh : Bytes
fresh = encode_nullifier_value pending_status 9000

abbrev spent : Bytes
spent = encode_nullifier_value spent_status 9500

-- Every key holds one value.
abbrev holding : Bytes → Table
holding val k = some val

decode-encode_instance :
    decode_nullifier_value (encode_nullifier_value spent_status 1700000000000)
    ≡ some (spent_status, 1700000000000)
decode-encode_instance = decode-encode spent_status 1700000000000 (omega arith)

-- A reservation from 1000 is replaced at 9000, with a time to live of 300.
replaces : (reserve_nullifier memory key fresh 300 9000 (holding old)).0 ≡ ok tt
unfolding reserve_nullifier is_stale_pending encode_nullifier_value decode_nullifier_value
    compare_and_swap option_eq bytes_eq update
replaces = refl

reserve_nullifier-ok_example :
    ((some old ≡ none) ⊎ ((val : Bytes) × (some old ≡ some val) × IsStale 300 9000 val))
    × (memory.contents (reserve_nullifier memory key fresh 300 9000 (holding old)).1 key
        ≡ some fresh)
reserve_nullifier-ok_example =
    reserve_nullifier-ok memory memory-SledLaws key fresh 300 9000 (holding old) replaces

refuses : (reserve_nullifier memory key fresh 300 9000 (holding spent)).0 ≡ err already_used
unfolding reserve_nullifier is_stale_pending encode_nullifier_value decode_nullifier_value
    compare_and_swap option_eq bytes_eq update
refuses = refl

reserve_nullifier-used_example :
    (val : Bytes) × (some spent ≡ some val)
    × (¬ IsStale 300 9000 val)
    × (memory.contents (reserve_nullifier memory key fresh 300 9000 (holding spent)).1 key
        ≡ some val)
reserve_nullifier-used_example =
    reserve_nullifier-used memory memory-SledLaws key fresh 300 9000 (holding spent) refuses

marks : (mark_nullifier_spent memory key fresh spent (holding fresh)).0 ≡ ok tt
unfolding mark_nullifier_spent encode_nullifier_value compare_and_swap option_eq bytes_eq update
marks = refl

mark_nullifier_spent_lem_example :
    (memory.contents (holding fresh) key ≡ some fresh)
    × (memory.contents (mark_nullifier_spent memory key fresh spent (holding fresh)).1 key
        ≡ some spent)
mark_nullifier_spent_lem_example =
    mark_nullifier_spent_lem memory memory-SledLaws key fresh spent (holding fresh) marks

releases : (release_pending_nullifier memory key fresh (holding spent)).0 ≡ ok tt
unfolding release_pending_nullifier encode_nullifier_value compare_and_swap option_eq bytes_eq
    update
releases = refl

release_pending_nullifier_lem_instance :
    ((memory.contents (holding spent) key ≡ some fresh)
      × (memory.contents (release_pending_nullifier memory key fresh (holding spent)).1 key ≡ none))
    ⊎ ((memory.contents (holding spent) key ≢ some fresh)
        × (memory.contents (release_pending_nullifier memory key fresh (holding spent)).1 key
            ≡ memory.contents (holding spent) key))
release_pending_nullifier_lem_instance =
    release_pending_nullifier_lem memory memory-SledLaws key fresh (holding spent) releases
