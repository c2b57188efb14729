-- ===== src/Nullifier/Effects.antt =====
-- What the functions of gateway/src/main.rs that write a nullifier do to the database.
use zk_llm_gateway.Prelude.{
  ℕ, ◌+◌, ◌-◌, ◌<◌, ◌≡◌, ◌≢◌, refl, sym, ap, subst, ◌∙◌, ◌⊎◌, inl, inr, Bool, true, false, Option,
  none, some, arith, ltb, lt→ltb, if◌then◌else◌, Bool-cases, ◌==◌,
}
use zk_llm_gateway.Prelude.Text.{Bytes}
use zk_llm_gateway.Prelude.Result.{Result, ok, err}
use zk_llm_gateway.Sled.{Cas, swapped, conflict, io_error, Sled, SledLaws}
use zk_llm_gateway.Nullifier.{
  ReserveError, already_used, decode_nullifier_value, is_stale_pending, pending_status, flushed,
  replaced, replace_stale, reserved, reserve_nullifier,
}

-- A reservation whose age exceeds the time to live.
abbrev pub IsStale : ℕ → ℕ → Bytes → Type 0
IsStale ttl now val =
    (ts : ℕ) × (decode_nullifier_value val ≡ some (pending_status, ts)) × (ttl + ts < now)

-- The test of the code, over the decoded value.
stale_test : ℕ → ℕ → Option (ℕ × ℕ) → Bool
stale_test ttl now none = false
stale_test ttl now (some (status, ts)) =
    if status == pending_status then ltb ttl (now - ts) else false

is_stale_pending_lem :
    (ttl now : ℕ) (val : Bytes)
    → is_stale_pending ttl now val ≡ stale_test ttl now (decode_nullifier_value val)
unfolding is_stale_pending stale_test
is_stale_pending_lem ttl now val = ground arith

stale_test_sound :
    (ttl now : ℕ) (o : Option (ℕ × ℕ))
    → stale_test ttl now o ≡ true
    → (ts : ℕ) × (o ≡ some (pending_status, ts)) × (ttl + ts < now)
unfolding stale_test
stale_test_sound ttl now none h = absurd (cc h)
stale_test_sound ttl now (some (status, ts)) h = (ts, ground arith, ground arith)

pub IsStale-sound :
    (ttl now : ℕ) (val : Bytes) → is_stale_pending ttl now val ≡ true → IsStale ttl now val
IsStale-sound ttl now val h =
    stale_test_sound ttl now (decode_nullifier_value val)
      (sym (is_stale_pending_lem ttl now val) ∙ h)

IsStale-complete :
    (ttl now : ℕ) (val : Bytes) → is_stale_pending ttl now val ≡ false → ¬ IsStale ttl now val
unfolding stale_test
IsStale-complete ttl now val h (ts, e, old) = cc (
    sym h
    ∙ is_stale_pending_lem ttl now val
    ∙ ap (stale_test ttl now) e
    ∙ lt→ltb ttl (now - ts) (omega arith))

module _ (s : Sled) (laws : SledLaws s) where
  -- Whatever a compare-and-swap reports, it either left its key alone or wrote as asked.
  pub cas_effect :
      (k : Bytes) (old new : Option Bytes) (db : s.Db)
      → (s.contents (s.compare_and_swap k old new db).1 k ≡ s.contents db k)
        ⊎ ((s.contents db k ≡ old) × (s.contents (s.compare_and_swap k old new db).1 k ≡ new))
  cas_effect k old new db = split (s.compare_and_swap k old new db) refl
    where
      split :
          (out : Cas × s.Db)
          → s.compare_and_swap k old new db ≡ out
          → (s.contents out.1 k ≡ s.contents db k)
            ⊎ ((s.contents db k ≡ old) × (s.contents out.1 k ≡ new))
      split (swapped, db') e = inr (laws.cas_swapped k old new db db' e)
      split (conflict, db') e = inl (laws.cas_conflict k old new db db' e).1
      split (io_error, db') e = laws.cas_io_error k old new db db' e

  flushed_db : (f : Bool × s.Db) → (flushed s f).1 ≡ f.1
  unfolding flushed
  flushed_db (true, db) = refl
  flushed_db (false, db) = refl

  pub flushed-contents :
      (db : s.Db) (k : Bytes) → s.contents (flushed s (s.flush db)).1 k ≡ s.contents db k
  flushed-contents db k = ap (λ d. s.contents d k) (flushed_db (s.flush db)) ∙ laws.flush_keeps db k

  flushed-ne-used : (f : Bool × s.Db) → (flushed s f).0 ≢ err already_used
  unfolding flushed
  flushed-ne-used (true, db) h = cc
  flushed-ne-used (false, db) h = cc

  module _ (rkey pending_val : Bytes) (ttl now : ℕ) where
    -- What a granted reservation found.
    abbrev Free : Option Bytes → Type 0
    Free before = (before ≡ none) ⊎ ((val : Bytes) × (before ≡ some val) × IsStale ttl now val)

    abbrev Granted : s.Db → Result ReserveError (Unit {0}) × s.Db → Type 0
    Granted db out =
        out.0 ≡ ok tt → Free (s.contents db rkey) × (s.contents out.1 rkey ≡ some pending_val)

    replaced-Granted :
        (db : s.Db) (val : Bytes) (stale : IsStale ttl now val) (out : Cas × s.Db)
        → s.compare_and_swap rkey (some val) (some pending_val) db ≡ out
        → Granted db (replaced s out)
    unfolding replaced
    replaced-Granted db val stale (swapped, db') e h =
        let (before, after) = laws.cas_swapped rkey (some val) (some pending_val) db db' e in
        (inr (val, before, stale), flushed-contents db' rkey ∙ after)
    replaced-Granted db val stale (conflict, db') e h = absurd (cc h)
    replaced-Granted db val stale (io_error, db') e h = absurd (cc h)

    replace_stale-Granted :
        (db : s.Db) (got : Option (Option Bytes))
        → Granted db (replace_stale s rkey pending_val ttl now got db)
    unfolding replace_stale
    replace_stale-Granted db none = λ h. absurd (cc h)
    replace_stale-Granted db (some none) = λ h. absurd (cc h)
    replace_stale-Granted db (some (some val)) = elim (Bool-cases (is_stale_pending ttl now val)) [
      | inl e ↦ rw e (replaced-Granted db val (IsStale-sound ttl now val e) _ refl)
      | inr e ↦ rw e (λ h. absurd (cc h))
    ]

    reserved-Granted :
        (db : s.Db) (out : Cas × s.Db)
        → s.compare_and_swap rkey none (some pending_val) db ≡ out
        → Granted db (reserved s rkey pending_val ttl now out)
    unfolding reserved
    reserved-Granted db (swapped, db') e h =
        let (before, after) = laws.cas_swapped rkey none (some pending_val) db db' e in
        (inl before, flushed-contents db' rkey ∙ after)
    reserved-Granted db (conflict, db') e h =
        let same = (laws.cas_conflict rkey none (some pending_val) db db' e).1 in
        let (free, after) = replace_stale-Granted db' (s.get rkey db') h in (rw same at free, after)
    reserved-Granted db (io_error, db') e h = absurd (cc h)

    replaced-refuses :
        (db : s.Db) (out : Cas × s.Db)
        → (val : Bytes) → s.contents db rkey ≡ some val
        → s.compare_and_swap rkey (some val) (some pending_val) db ≡ out
        → (replaced s out).0 ≢ err already_used
    unfolding replaced
    replaced-refuses db (swapped, db') val v e h = flushed-ne-used (s.flush db') h
    replaced-refuses db (conflict, db') val v e h =
        (laws.cas_conflict rkey (some val) (some pending_val) db db' e).0 v
    replaced-refuses db (io_error, db') val v e h = cc

    abbrev Refused : s.Db → Result ReserveError (Unit {0}) × s.Db → Type 0
    Refused db out =
        out.0 ≡ err already_used
        → (val : Bytes) × (s.contents db rkey ≡ some val)
          × (¬ IsStale ttl now val)
          × (s.contents out.1 rkey ≡ some val)

    replace_stale-Refused :
        (db : s.Db) (got : Option (Option Bytes))
        → s.get rkey db ≡ got
        → s.contents db rkey ≢ none
        → Refused db (replace_stale s rkey pending_val ttl now got db)
    unfolding replace_stale
    replace_stale-Refused db none e there = λ h. absurd (cc h)
    replace_stale-Refused db (some none) e there =
        λ h. absurd (there (sym (laws.get_reads rkey db none e)))
    replace_stale-Refused db (some (some val)) e there =
        let v : s.contents db rkey ≡ some val = sym (laws.get_reads rkey db (some val) e) in
        elim (Bool-cases (is_stale_pending ttl now val)) [
          | inl t ↦ rw t (λ h. absurd (replaced-refuses db _ val v refl h))
          | inr t ↦ rw t (λ h. (val, v, IsStale-complete ttl now val t, v))
        ]

    reserved-Refused :
        (db : s.Db) (out : Cas × s.Db)
        → s.compare_and_swap rkey none (some pending_val) db ≡ out
        → Refused db (reserved s rkey pending_val ttl now out)
    unfolding reserved
    reserved-Refused db (swapped, db') e h = absurd (flushed-ne-used (s.flush db') h)
    reserved-Refused db (conflict, db') e h =
        let (there, same) = laws.cas_conflict rkey none (some pending_val) db db' e in
        let (val, v, fresh, after) =
          replace_stale-Refused db' (s.get rkey db') refl (λ absent. there (sym same ∙ absent)) h in
        (val, sym same ∙ v, fresh, after)
    reserved-Refused db (io_error, db') e h = absurd (cc h)

    -- A reservation is granted only where the key held nothing or a pending value older than the time
    -- to live, and then the key holds this reservation.
    pub reserve_nullifier-ok :
        (db : s.Db)
        → (reserve_nullifier s rkey pending_val ttl now db).0 ≡ ok tt
        → ((s.contents db rkey ≡ none)
            ⊎ ((val : Bytes) × (s.contents db rkey ≡ some val) × IsStale ttl now val))
          × (s.contents (reserve_nullifier s rkey pending_val ttl now db).1 rkey ≡ some pending_val)
    unfolding reserve_nullifier
    reserve_nullifier-ok db = reserved-Granted db _ refl

    -- A reservation is refused as already used only where the key held a value that is no pending
    -- value older than the time to live, and then that value stays.
    pub reserve_nullifier-used :
        (db : s.Db)
        → (reserve_nullifier s rkey pending_val ttl now db).0 ≡ err already_used
        → (val : Bytes) × (s.contents db rkey ≡ some val)
          × (¬ IsStale ttl now val)
          × (s.contents (reserve_nullifier s rkey pending_val ttl now db).1 rkey ≡ some val)
    unfolding reserve_nullifier
    reserve_nullifier-used db = reserved-Refused db _ refl

    abbrev Touched : s.Db → s.Db → Type 0
    Touched db db' =
        (s.contents db' rkey ≡ s.contents db rkey) ⊎ (s.contents db' rkey ≡ some pending_val)

    -- The database after a compare-and-swap that was to write the reservation.
    cas-Touched :
        (old : Option Bytes) (db : s.Db)
        → Touched db (s.compare_and_swap rkey old (some pending_val) db).1
    cas-Touched old db = elim (cas_effect rkey old (some pending_val) db) [
      | inl kept ↦ inl kept
      | inr (_, wrote) ↦ inr wrote
    ]

    flushed-Touched : (db db' : s.Db) → Touched db db' → Touched db (flushed s (s.flush db')).1
    flushed-Touched db db' h = rw (flushed-contents db' rkey) h

    replaced-Touched :
        (db : s.Db) (out : Cas × s.Db) → Touched db out.1 → Touched db (replaced s out).1
    unfolding replaced
    replaced-Touched db (swapped, db') h = flushed-Touched db db' h
    replaced-Touched db (conflict, db') h = h
    replaced-Touched db (io_error, db') h = h

    replace_stale-Touched :
        (db : s.Db) (got : Option (Option Bytes))
        → Touched db (replace_stale s rkey pending_val ttl now got db).1
    unfolding replace_stale
    replace_stale-Touched db none = inl refl
    replace_stale-Touched db (some none) = inl refl
    replace_stale-Touched db (some (some val)) = elim (Bool-cases (is_stale_pending ttl now val)) [
      | inl e ↦ rw e (replaced-Touched db _ (cas-Touched (some val) db))
      | inr e ↦ rw e (inl refl)
    ]

    reserved-Touched :
        (db : s.Db) (out : Cas × s.Db)
        → s.compare_and_swap rkey none (some pending_val) db ≡ out
        → Touched db (reserved s rkey pending_val ttl now out).1
    unfolding reserved
    reserved-Touched db (swapped, db') e =
        flushed-Touched db db' (inr (laws.cas_swapped rkey none (some pending_val) db db' e).1)
    reserved-Touched db (conflict, db') e =
        rw (← (laws.cas_conflict rkey none (some pending_val) db db' e).1)
          (replace_stale-Touched db' (s.get rkey db'))
    reserved-Touched db (io_error, db') e = subst (λ o. Touched db o.1) e (cas-Touched none db)

    -- Whatever it returns, I/O errors included, the key holds what it held or the reservation.
    pub reserve_nullifier-touches :
        (db : s.Db)
        → (s.contents (reserve_nullifier s rkey pending_val ttl now db).1 rkey ≡ s.contents db rkey)
          ⊎ (s.contents (reserve_nullifier s rkey pending_val ttl now db).1 rkey ≡ some pending_val)
    unfolding reserve_nullifier
    reserve_nullifier-touches db = reserved-Touched db _ refl
