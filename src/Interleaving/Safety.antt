-- ===== src/Interleaving/Safety.antt =====
-- Under every schedule at most one request per key is answered, and a spent key answers none.
use zk_llm_gateway.Prelude.{
  ℕ, ◌≡◌, ◌≢◌, refl, sym, subst, ◌∙◌, ◌⊎◌, inl, inr, List, [], ◌∷◌, arith, Bool-cases, ◌==◌, ==_iff,
  some,
}
use zk_llm_gateway.Prelude.Text.{Bytes}
use zk_llm_gateway.Sled.{Sled, SledLaws}
use zk_llm_gateway.Nullifier.{pending_status}
use zk_llm_gateway.Interleaving.{
  Job, Phase, Event, paid, step_job, World, set_phase, step, run, initial,
}
use zk_llm_gateway.Interleaving.Step.{
  status_of, IsSettled, IsSound, SpentAt, StepFacts, step_job-Facts,
}

-- Every request reserves with a pending value.
abbrev pub AllPending : (ℕ → Job) → Type 0
AllPending jobs = (i : ℕ) → status_of (some (jobs i).pending_val) ≡ pending_status

set_phase_self : (i : ℕ) (p : Phase) (f : ℕ → Phase) → set_phase i p f i ≡ p
unfolding set_phase
set_phase_self i p f = ground arith

set_phase_ne : (i k : ℕ) (p : Phase) (f : ℕ → Phase) → i ≢ k → set_phase i p f k ≡ f k
unfolding set_phase
set_phase_ne i k p f h = ground arith

ℕ-cases : (i k : ℕ) → (i ≡ k) ⊎ (i ≢ k)
ℕ-cases i k = elim (Bool-cases (i == k)) [
  | inl e ↦ inl ((==_iff i k).0 e)
  | inr e ↦ inr (λ h. cc (sym e ∙ (==_iff i k).1 h))
]

module _ (s : Sled) (laws : SledLaws s) (jobs : ℕ → Job) (pending : AllPending jobs) where
  pub record Inv (w : World s) : Type 0 where
    pub sound : (i : ℕ) → IsSound (w.phase i)
    pub holds_spent : (i : ℕ) → IsSettled (w.phase i) → SpentAt s w.db (jobs i).rkey
    pub unique :
        (i k : ℕ)
        → IsSettled (w.phase i)
        → IsSettled (w.phase k)
        → (jobs i).rkey ≡ (jobs k).rkey
        → i ≡ k

  module _ (w : World s) (v : Inv w) (i : ℕ) (e : Event) where
    abbrev out : Phase × s.Db
    out = step_job s (jobs i) e (w.phase i) w.db

    facts : StepFacts s laws (jobs i) (w.phase i) out.0 w.db out.1
    facts = step_job-Facts s laws (jobs i) e (w.phase i) w.db (pending i) (v.sound i)

    abbrev phase' : ℕ → Phase
    phase' = set_phase i out.0 w.phase

    sound' : (k : ℕ) → IsSound (phase' k)
    sound' k = elim (ℕ-cases i k) [
      | inl h ↦ subst (λ n. IsSound (phase' n)) h (rw (set_phase_self i out.0 w.phase) facts.sound)
      | inr h ↦ rw (set_phase_ne i k out.0 w.phase h) (v.sound k)
    ]

    -- A settled request was settled before, or it settled just now.
    abbrev Settling : ℕ → Type 0
    Settling k =
        IsSettled (w.phase k)
        ⊎ ((i ≡ k) × (¬ SpentAt s w.db (jobs k).rkey) × SpentAt s out.1 (jobs k).rkey)

    own-Settling : IsSettled out.0 → Settling i
    own-Settling h = elim (facts.settles h) [
      | inl before ↦ inl before
      | inr (free, now) ↦ inr (refl, free, now)
    ]

    settling : (k : ℕ) → IsSettled (phase' k) → Settling k
    settling k = elim (ℕ-cases i k) [
      | inl same ↦
          subst (λ n. IsSettled (phase' n) → Settling n) same
            (rw (set_phase_self i out.0 w.phase) own-Settling)
      | inr other ↦ λ h. inl (rw (set_phase_ne i k out.0 w.phase other) at h)
    ]

    holds_spent' : (k : ℕ) → IsSettled (phase' k) → SpentAt s out.1 (jobs k).rkey
    holds_spent' k h = elim (settling k h) [
      | inl before ↦ facts.keeps (jobs k).rkey (v.holds_spent k before)
      | inr (_, _, now) ↦ now
    ]

    unique' :
        (k n : ℕ)
        → IsSettled (phase' k)
        → IsSettled (phase' n)
        → (jobs k).rkey ≡ (jobs n).rkey
        → k ≡ n
    unique' k n hk hn same = elim (settling k hk) [
      | inl bk ↦ elim (settling n hn) [
        | inl bn ↦ v.unique k n bk bn same
        | inr (_, free, _) ↦ absurd (free (subst (SpentAt s w.db) same (v.holds_spent k bk)))
      ]
      | inr (ik, free, _) ↦ elim (settling n hn) [
        | inl bn ↦ absurd (free (subst (SpentAt s w.db) (sym same) (v.holds_spent n bn)))
        | inr (in', _, _) ↦ sym ik ∙ in'
      ]
    ]

  step-Inv : (w : World s) (x : ℕ × Event) → Inv w → Inv (step s jobs w x)
  unfolding step
  step-Inv w (i, e) v = record {
    sound = sound' w v i e;
    holds_spent = holds_spent' w v i e;
    unique = unique' w v i e;
  }

  run-Inv : (xs : List (ℕ × Event)) (w : World s) → Inv w → Inv (run s jobs w xs)
  unfolding run
  run-Inv [] w v = v
  run-Inv (x ∷ xs) w v = run-Inv xs (step s jobs w x) (step-Inv w x v)

  initial-Inv : (db : s.Db) → Inv (initial s db)
  initial-Inv db = record {
    sound = λ i. tt;
    holds_spent = λ i h. absurd h;
    unique = λ i k h. absurd h;
  }

  -- Let every request reserve with a pending value. Whatever the schedule, the clocks, the provider
  -- and the I/O errors do, of the requests that carry one replay key at most one is answered, and
  -- then the key holds a spent value.
  pub one_answer_per_key :
      (db : s.Db) (xs : List (ℕ × Event)) (i k : ℕ)
      → (run s jobs (initial s db) xs).phase i ≡ paid
      → (run s jobs (initial s db) xs).phase k ≡ paid
      → (jobs i).rkey ≡ (jobs k).rkey
      → (i ≡ k) × SpentAt s (run s jobs (initial s db) xs).db (jobs i).rkey
  one_answer_per_key db xs i k hi hk same =
      let v = run-Inv xs (initial s db) (initial-Inv db) in
      (v.unique i k (rw hi tt) (rw hk tt) same, v.holds_spent i (rw hi tt))

  -- The key is spent, and no request that carries it is settled.
  record Closed (key : Bytes) (w : World s) : Type 0 where
    spent : SpentAt s w.db key
    unsettled : (i : ℕ) → (jobs i).rkey ≡ key → ¬ IsSettled (w.phase i)

  step-Closed :
      (key : Bytes) (w : World s) (x : ℕ × Event)
      → Inv w
      → Closed key w
      → Closed key (step s jobs w x)
  unfolding step
  step-Closed key w (i, e) v c = record {
    spent = (facts w v i e).keeps key c.spent;
    unsettled = λ k same h. elim (settling w v i e k h) [
      | inl before ↦ c.unsettled k same before
      | inr (_, free, _) ↦ free (subst (SpentAt s w.db) (sym same) c.spent)
    ];
  }

  run-Closed :
      (key : Bytes) (xs : List (ℕ × Event)) (w : World s)
      → Inv w
      → Closed key w
      → Closed key (run s jobs w xs)
  unfolding run
  run-Closed key [] w v c = c
  run-Closed key (x ∷ xs) w v c =
      run-Closed key xs (step s jobs w x) (step-Inv w x v) (step-Closed key w x v c)

  -- Let every request reserve with a pending value. A key that is spent at the start stays spent
  -- under every schedule, and a request that carries it is not answered.
  pub spent_forever :
      (db : s.Db) (xs : List (ℕ × Event)) (i : ℕ)
      → SpentAt s db (jobs i).rkey
      → SpentAt s (run s jobs (initial s db) xs).db (jobs i).rkey
        × ((run s jobs (initial s db) xs).phase i ≢ paid)
  spent_forever db xs i h =
      let c =
        run-Closed (jobs i).rkey xs (initial s db) (initial-Inv db)
          (record { spent = h; unsettled = λ k same x. x }) in
      (c.spent, λ e. c.unsettled i refl (rw e tt))
