-- ===== src/Nullifier/Settle.antt =====
-- What marking a nullifier as spent and releasing it do to the database (gateway/src/main.rs).
use zk_llm_gateway.Prelude.{◌≡◌, ◌≢◌, refl, ◌∙◌, ◌⊎◌, inl, inr, none, some}
use zk_llm_gateway.Prelude.Text.{Bytes}
use zk_llm_gateway.Prelude.Result.{ok}
use zk_llm_gateway.Sled.{Cas, swapped, conflict, io_error, Sled, SledLaws}
use zk_llm_gateway.Nullifier.{marked, mark_nullifier_spent, released, release_pending_nullifier}
use zk_llm_gateway.Nullifier.Effects.{cas_effect, flushed-contents}

module _ (s : Sled) (laws : SledLaws s) where
  marked_ok :
      (rkey pending_val spent_val : Bytes) (db : s.Db) (out : Cas × s.Db)
      → s.compare_and_swap rkey (some pending_val) (some spent_val) db ≡ out
      → (marked s out).0 ≡ ok tt
      → (s.contents db rkey ≡ some pending_val)
        × (s.contents (marked s out).1 rkey ≡ some spent_val)
  unfolding marked
  marked_ok rkey pending_val spent_val db (swapped, db') e h =
      let (before, after) = laws.cas_swapped rkey (some pending_val) (some spent_val) db db' e in
      (before, flushed-contents s laws db' rkey ∙ after)
  marked_ok rkey pending_val spent_val db (conflict, db') e h = absurd (cc h)
  marked_ok rkey pending_val spent_val db (io_error, db') e h = absurd (cc h)

  -- Marking succeeds only on the caller's own reservation, and leaves the spent value.
  pub mark_nullifier_spent_lem :
      (rkey pending_val spent_val : Bytes) (db : s.Db)
      → (mark_nullifier_spent s rkey pending_val spent_val db).0 ≡ ok tt
      → (s.contents db rkey ≡ some pending_val)
        × (s.contents (mark_nullifier_spent s rkey pending_val spent_val db).1 rkey
            ≡ some spent_val)
  unfolding mark_nullifier_spent
  mark_nullifier_spent_lem rkey pending_val spent_val db =
      marked_ok rkey pending_val spent_val db _ refl

  released_ok :
      (rkey pending_val : Bytes) (db : s.Db) (out : Cas × s.Db)
      → s.compare_and_swap rkey (some pending_val) none db ≡ out
      → (released s out).0 ≡ ok tt
      → ((s.contents db rkey ≡ some pending_val) × (s.contents (released s out).1 rkey ≡ none))
        ⊎ ((s.contents db rkey ≢ some pending_val)
            × (s.contents (released s out).1 rkey ≡ s.contents db rkey))
  unfolding released
  released_ok rkey pending_val db (swapped, db') e h =
      let (before, after) = laws.cas_swapped rkey (some pending_val) none db db' e in
      inl (before, flushed-contents s laws db' rkey ∙ after)
  released_ok rkey pending_val db (conflict, db') e h =
      inr (laws.cas_conflict rkey (some pending_val) none db db' e)
  released_ok rkey pending_val db (io_error, db') e h = absurd (cc h)

  -- Releasing removes the caller's own reservation and leaves every other value alone.
  pub release_pending_nullifier_lem :
      (rkey pending_val : Bytes) (db : s.Db)
      → (release_pending_nullifier s rkey pending_val db).0 ≡ ok tt
      → ((s.contents db rkey ≡ some pending_val)
          × (s.contents (release_pending_nullifier s rkey pending_val db).1 rkey ≡ none))
        ⊎ ((s.contents db rkey ≢ some pending_val)
            × (s.contents (release_pending_nullifier s rkey pending_val db).1 rkey
                ≡ s.contents db rkey))
  unfolding release_pending_nullifier
  release_pending_nullifier_lem rkey pending_val db = released_ok rkey pending_val db _ refl

  released-touches :
      (rkey pending_val : Bytes) (db : s.Db) (out : Cas × s.Db)
      → (s.contents out.1 rkey ≡ s.contents db rkey) ⊎ (s.contents out.1 rkey ≡ none)
      → (s.contents (released s out).1 rkey ≡ s.contents db rkey)
        ⊎ (s.contents (released s out).1 rkey ≡ none)
  unfolding released
  released-touches rkey pending_val db (swapped, db') h = rw (flushed-contents s laws db' rkey) h
  released-touches rkey pending_val db (conflict, db') h = h
  released-touches rkey pending_val db (io_error, db') h = h

  -- Whatever releasing returns, the key holds what it held, or nothing.
  pub release_pending_nullifier-touches :
      (rkey pending_val : Bytes) (db : s.Db)
      → (s.contents (release_pending_nullifier s rkey pending_val db).1 rkey ≡ s.contents db rkey)
        ⊎ (s.contents (release_pending_nullifier s rkey pending_val db).1 rkey ≡ none)
  unfolding release_pending_nullifier
  release_pending_nullifier-touches rkey pending_val db =
      released-touches rkey pending_val db _
        (elim (cas_effect s laws rkey (some pending_val) none db) [
          | inl kept ↦ inl kept
          | inr (_, wrote) ↦ inr wrote
        ])
