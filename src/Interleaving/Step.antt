-- ===== src/Interleaving/Step.antt =====
-- What one step of one request does to the database and to its phase.
use zk_llm_gateway.Prelude.{
  ℕ, ◌≡◌, refl, sym, ap, subst, ◌∙◌, ◌⊎◌, inl, inr, Bool, true, false, Option, none, some, [], ◌∷◌,
  arith, Bool-cases,
}
use zk_llm_gateway.Prelude.Text.{Bytes, bytes_eq, bytes_eq_iff}
use zk_llm_gateway.Sled.{Cas, swapped, conflict, io_error, Sled, SledLaws}
use zk_llm_gateway.Nullifier.{
  encode_nullifier_value, decode_nullifier_value, pending_status, spent_status, is_stale_pending,
}
use zk_llm_gateway.Nullifier.Effects.{cas_effect, IsStale-sound}
use zk_llm_gateway.Interleaving.{
  Job, Phase, Event, starting, contended, replacing, reserve_written, calling, spending,
  spent_written, releasing, release_written, paid, failed, after_cas, after_flush, after_get,
  step_job,
}

-- The status byte of a stored value; 0 where there is none.
abbrev pub status_of : Option Bytes → ℕ
status_of none = 0
status_of (some []) = 0
status_of (some (status ∷ ts)) = status

abbrev pub IsSpent : Option Bytes → Type 0
IsSpent o = status_of o ≡ spent_status

-- The request has written its spent value.
abbrev pub IsSettled : Phase → Type 0
IsSettled spent_written = Unit
IsSettled paid = Unit
IsSettled _ = ⊥

-- The values that a phase holds have the right status.
abbrev pub IsSound : Phase → Type 0
IsSound (replacing val) = status_of (some val) ≡ pending_status
IsSound (spending val) = IsSpent (some val)
IsSound _ = Unit

status-decode :
    (val : Bytes) (status ts : ℕ)
    → decode_nullifier_value val ≡ some (status, ts)
    → status_of (some val) ≡ status
unfolding decode_nullifier_value
status-decode [] status ts h = absurd (cc h)
status-decode (b ∷ bs) status ts h = ground arith

IsSpent-value : (now : ℕ) → IsSpent (some (encode_nullifier_value spent_status now))
unfolding encode_nullifier_value
IsSpent-value now = refl

abbrev pub SpentAt : (s : Sled) → s.Db → Bytes → Type 0
SpentAt s db k = IsSpent (s.contents db k)

module _ (s : Sled) (laws : SledLaws s) where
  cas_self-SpentAt :
      (k : Bytes) (old new : Option Bytes) (db : s.Db)
      → ¬ IsSpent old
      → SpentAt s db k
      → SpentAt s (s.compare_and_swap k old new db).1 k
  cas_self-SpentAt k old new db free h = elim (cas_effect s laws k old new db) [
    | inl kept ↦ ap status_of kept ∙ h
    | inr (was, _) ↦ absurd (free (ap status_of (sym was) ∙ h))
  ]

  -- A swap of a value that is not spent undoes no spending.
  cas-SpentAt :
      (rkey k : Bytes) (old new : Option Bytes) (db : s.Db)
      → ¬ IsSpent old
      → SpentAt s db k
      → SpentAt s (s.compare_and_swap rkey old new db).1 k
  cas-SpentAt rkey k old new db free h = elim (Bool-cases (bytes_eq rkey k)) [
    | inl e ↦
        subst (λ r. SpentAt s (s.compare_and_swap r old new db).1 k)
          (sym ((bytes_eq_iff rkey k).0 e)) (cas_self-SpentAt k old new db free h)
    | inr e ↦
        ap status_of
          (laws.cas_frame rkey k old new db (λ same. cc (sym e ∙ (bytes_eq_iff rkey k).1 same)))
        ∙ h
  ]

  -- What one step may do.
  pub record StepFacts (j : Job) (p p' : Phase) (db db' : s.Db) : Type 0 where
    pub sound : IsSound p'
    pub keeps : (k : Bytes) → SpentAt s db k → SpentAt s db' k
    pub settles : IsSettled p' → IsSettled p ⊎ ((¬ SpentAt s db j.rkey) × SpentAt s db' j.rkey)

  abbrev Facts : Job → Phase → s.Db → Phase × s.Db → Type 0
  Facts j p db out = StepFacts j p out.0 db out.1

  after_cas-IsSound :
      (won lost : Phase) (out : Cas × s.Db)
      → IsSound won
      → IsSound lost
      → IsSound (after_cas s won lost out).0
  unfolding after_cas
  after_cas-IsSound won lost (swapped, db) w l = w
  after_cas-IsSound won lost (conflict, db) w l = l
  after_cas-IsSound won lost (io_error, db) w l = tt

  after_cas_db : (won lost : Phase) (out : Cas × s.Db) → (after_cas s won lost out).1 ≡ out.1
  unfolding after_cas
  after_cas_db won lost (swapped, db) = refl
  after_cas_db won lost (conflict, db) = refl
  after_cas_db won lost (io_error, db) = refl

  after_cas-unsettled :
      (won lost : Phase) (out : Cas × s.Db)
      → ¬ IsSettled won
      → ¬ IsSettled lost
      → ¬ IsSettled (after_cas s won lost out).0
  unfolding after_cas
  after_cas-unsettled won lost (swapped, db) w l = w
  after_cas-unsettled won lost (conflict, db) w l = l
  after_cas-unsettled won lost (io_error, db) w l = λ x. x

  -- A step by a swap of a value that is not spent, to phases that are not settled.
  swap-Facts :
      (j : Job) (p won lost : Phase) (old new : Option Bytes) (db : s.Db)
      → ¬ IsSpent old
      → IsSound won × (¬ IsSettled won)
      → IsSound lost × (¬ IsSettled lost)
      → Facts j p db (after_cas s won lost (s.compare_and_swap j.rkey old new db))
  swap-Facts j p won lost old new db free w l =
      let out = s.compare_and_swap j.rkey old new db in
      record {
        sound = after_cas-IsSound won lost out w.0 l.0;
        keeps = λ k h.
            ap (λ d. status_of (s.contents d k)) (after_cas_db won lost out)
            ∙ cas-SpentAt j.rkey k old new db free h;
        settles = λ h. absurd (after_cas-unsettled won lost out w.1 l.1 h);
      }

  after_flush_db : (next : Phase) (f : Bool × s.Db) → (after_flush s next f).1 ≡ f.1
  unfolding after_flush
  after_flush_db next (true, db) = refl
  after_flush_db next (false, db) = refl

  after_flush-IsSound :
      (next : Phase) (f : Bool × s.Db) → IsSound next → IsSound (after_flush s next f).0
  unfolding after_flush
  after_flush-IsSound next (true, db) h = h
  after_flush-IsSound next (false, db) h = tt

  after_flush-IsSettled :
      (next : Phase) (f : Bool × s.Db) → IsSettled (after_flush s next f).0 → IsSettled next
  unfolding after_flush
  after_flush-IsSettled next (true, db) h = h
  after_flush-IsSettled next (false, db) h = absurd h

  flush-Facts :
      (j : Job) (p next : Phase) (db : s.Db)
      → IsSound next
      → (IsSettled next → IsSettled p)
      → Facts j p db (after_flush s next (s.flush db))
  flush-Facts j p next db w back = record {
    sound = after_flush-IsSound next (s.flush db) w;
    keeps = λ k h.
        ap (λ d. status_of (s.contents d k)) (after_flush_db next (s.flush db))
        ∙ ap status_of (laws.flush_keeps db k)
        ∙ h;
    settles = λ h. inl (back (after_flush-IsSettled next (s.flush db) h));
  }

  -- A step that leaves the database alone.
  still-Facts :
      (j : Job) (p next : Phase) (db : s.Db)
      → IsSound next
      → (IsSettled next → IsSettled p)
      → Facts j p db (next, db)
  still-Facts j p next db w back = record {
    sound = w;
    keeps = λ k h. h;
    settles = λ h. inl (back h);
  }

  after_get-IsSound :
      (ttl now : ℕ) (got : Option (Option Bytes)) → IsSound (after_get s ttl now got)
  unfolding after_get
  after_get-IsSound ttl now none = tt
  after_get-IsSound ttl now (some none) = tt
  after_get-IsSound ttl now (some (some val)) = elim (Bool-cases (is_stale_pending ttl now val)) [
    | inl e ↦
        let (ts, decoded, _) = IsStale-sound ttl now val e in
        rw e (status-decode val pending_status ts decoded)
    | inr e ↦ rw e tt
  ]

  after_get-unsettled :
      (ttl now : ℕ) (got : Option (Option Bytes)) → ¬ IsSettled (after_get s ttl now got)
  unfolding after_get
  after_get-unsettled ttl now none = λ h. h
  after_get-unsettled ttl now (some none) = λ h. h
  after_get-unsettled ttl now (some (some val)) = elim (Bool-cases (is_stale_pending ttl now val)) [
    | inl e ↦ rw e (λ h. h)
    | inr e ↦ rw e (λ h. h)
  ]

  -- The one step that settles a request finds its own reservation.
  spend-Facts :
      (j : Job) (spent_val : Bytes) (db : s.Db)
      → status_of (some j.pending_val) ≡ pending_status
      → IsSpent (some spent_val)
      → (out : Cas × s.Db)
      → s.compare_and_swap j.rkey (some j.pending_val) (some spent_val) db ≡ out
      → Facts j (spending spent_val) db (after_cas s spent_written failed out)
  unfolding after_cas
  spend-Facts j spent_val db own spent out e = record {
    sound = after_cas-IsSound spent_written failed out tt tt;
    keeps = λ k h.
        ap (λ d. status_of (s.contents d k)) (after_cas_db spent_written failed out)
        ∙ subst (λ o. SpentAt s o.1 k) e
            (cas-SpentAt j.rkey k (some j.pending_val) (some spent_val) db
              (λ x. absurd (omega (arith, own, x))) h);
    settles = settled out e;
  }
    where
      settled :
          (out : Cas × s.Db)
          → s.compare_and_swap j.rkey (some j.pending_val) (some spent_val) db ≡ out
          → IsSettled (after_cas s spent_written failed out).0
          → IsSettled (spending spent_val)
            ⊎ ((¬ SpentAt s db j.rkey) × SpentAt s (after_cas s spent_written failed out).1 j.rkey)
      settled (swapped, db') e h =
          let (before, after) = laws.cas_swapped j.rkey _ _ db db' e in
          inr (
            λ x. absurd (omega (arith, own, ap status_of (sym before) ∙ x)),
            ap status_of after ∙ spent,
          )
      settled (conflict, db') e h = absurd h
      settled (io_error, db') e h = absurd h

  -- Every step of a request keeps spent keys spent, and settles the request only by turning its own
  -- key from not spent to spent.
  pub step_job-Facts :
      (j : Job) (e : Event) (p : Phase) (db : s.Db)
      → status_of (some j.pending_val) ≡ pending_status
      → IsSound p
      → Facts j p db (step_job s j e p db)
  unfolding step_job
  step_job-Facts j e starting db own h =
      swap-Facts j starting reserve_written contended none (some j.pending_val) db
        (λ x. absurd (omega (arith, x))) (tt, λ x. x) (tt, λ x. x)
  step_job-Facts j e contended db own h =
      still-Facts j contended (after_get s j.ttl e.now (s.get j.rkey db)) db
        (after_get-IsSound j.ttl e.now (s.get j.rkey db))
        (λ x. absurd (after_get-unsettled j.ttl e.now (s.get j.rkey db) x))
  step_job-Facts j e (replacing val) db own h =
      swap-Facts j (replacing val) reserve_written failed (some val) (some j.pending_val) db
        (λ x. absurd (omega (arith, h, x))) (tt, λ x. x) (tt, λ x. x)
  step_job-Facts j e reserve_written db own h = flush-Facts j reserve_written calling db tt (λ x. x)
  step_job-Facts j e calling db own h = elim (Bool-cases e.provider_ok) [
    | inl y ↦ rw y (
        still-Facts j calling (spending (encode_nullifier_value spent_status e.now)) db
          (IsSpent-value e.now) (λ x. x))
    | inr y ↦ rw y (still-Facts j calling releasing db tt (λ x. x))
  ]
  step_job-Facts j e (spending spent_val) db own h = spend-Facts j spent_val db own h _ refl
  step_job-Facts j e spent_written db own h = flush-Facts j spent_written paid db tt (λ x. x)
  step_job-Facts j e releasing db own h =
      swap-Facts j releasing release_written failed (some j.pending_val) none db
        (λ x. absurd (omega (arith, own, x))) (tt, λ x. x) (tt, λ x. x)
  step_job-Facts j e release_written db own h = flush-Facts j release_written failed db tt (λ x. x)
  step_job-Facts j e paid db own h = still-Facts j paid paid db tt (λ x. x)
  step_job-Facts j e failed db own h = still-Facts j failed failed db tt (λ x. x)
