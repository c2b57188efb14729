-- ===== src/Client/Prompt/Budget.antt =====
-- When the loop of `enforce_budget` ends, and when it does not (client/src/prompt.rs).
use zk_llm_gateway.Prelude.{
  ℕ, zero, suc, ◌-◌, ◌≤◌, ◌<◌, ◌≡◌, refl, sym, subst, ◌∙◌, ◌⊎◌, inl, inr, true, false, Option, none,
  some, List, [], ◌∷◌, arith, ltb, Bool-cases, length,
}
use zk_llm_gateway.Types.{ChatMessage}
use zk_llm_gateway.Token.{TokenClass, max_prompt_bytes}
use zk_llm_gateway.Client.Prompt.{
  is_user, prompt_bytes, last_user, update_at, cut, kept_index, cut_last_user, drop_or_cut,
  budget_step, enforce_budget_to, enforce_budget,
}
use zk_llm_gateway.Client.Prompt.Keeping.{
  system_bytes, HasUser, user_no_system, system_bytes-le, Keeps, KeepsAt, system_bytes-cons,
  last_user-tail, last_user-head, UserAt, last_user-nil, last_user-UserAt, system_bytes-skip,
  drop_index-KeepsAt,
}

-- Cutting the last user message keeps it a user message.
cut-is_user : (over : ℕ) (m : ChatMessage) → is_user (cut over m) ≡ is_user m
unfolding cut is_user
cut-is_user over m = refl

-- The message there is a user message.
abbrev CutAt : ℕ → List ChatMessage → Option ℕ → Type 0
CutAt over ms none = ¬ HasUser ms
CutAt over ms (some i) = Keeps ms (update_at i (cut over) ms)

CutAt-cons :
    (over : ℕ) (m : ChatMessage) (ms : List ChatMessage) (o : Option ℕ)
    → last_user ms ≡ o
    → CutAt over ms o
    → CutAt over (m ∷ ms) (last_user (m ∷ ms))
unfolding update_at
CutAt-cons over m ms (some i) e (same, user) =
    rw (last_user-tail m ms i e) (system_bytes-cons m ms _ same, inr user)
CutAt-cons over m ms none e h = elim (Bool-cases (is_user m)) [
  | inl u ↦
      let u' = cut-is_user over m ∙ u in
      rw (last_user-head m ms e, u)
        (
          sym (system_bytes-skip (cut over m) ms (user_no_system (cut over m) u'))
              ∙ system_bytes-skip m ms (user_no_system m u),
          inl u',
        )
  | inr u ↦
      rw (last_user-head m ms e, u) (λ x. elim x [ inl v ↦ absurd (cc (sym u ∙ v)) | inr v ↦ h v ])
]

last_user-CutAt : (over : ℕ) (ms : List ChatMessage) → CutAt over ms (last_user ms)
last_user-CutAt over [] = rw last_user-nil (λ x. x)
last_user-CutAt over (m ∷ ms) = CutAt-cons over m ms (last_user ms) refl (last_user-CutAt over ms)

-- The loop goes on, to a list that keeps what it has to.
abbrev pub GoesOn : List ChatMessage → Option (List ChatMessage) → Type 0
GoesOn ms none = ⊥
GoesOn ms (some ns) = Keeps ms ns

cut_last_user-GoesOn :
    (max : ℕ) (ms : List ChatMessage) (o : Option ℕ)
    → HasUser ms
    → CutAt (prompt_bytes ms - max) ms o
    → GoesOn ms (cut_last_user max ms o)
unfolding cut_last_user
cut_last_user-GoesOn max ms none user h = h user
cut_last_user-GoesOn max ms (some i) user h = h

drop_or_cut-GoesOn :
    (max : ℕ) (ms : List ChatMessage) (o : Option ℕ)
    → HasUser ms
    → KeepsAt ms o
    → GoesOn ms (drop_or_cut max ms o)
unfolding drop_or_cut
drop_or_cut-GoesOn max ms none user h =
    cut_last_user-GoesOn max ms (last_user ms) user (last_user-CutAt (prompt_bytes ms - max) ms)
drop_or_cut-GoesOn max ms (some i) user h = h

kept_index-UserAt :
    (ms : List ChatMessage) (o : Option ℕ) → HasUser ms → UserAt ms o → kept_index ms o ≡ o
unfolding kept_index
kept_index-UserAt ms none user h = absurd (h user)
kept_index-UserAt ms (some i) user h = refl

pub budget_step-GoesOn :
    (max : ℕ) (ms : List ChatMessage) → HasUser ms → GoesOn ms (budget_step max ms)
unfolding budget_step
budget_step-GoesOn max ms user =
    rw (kept_index-UserAt ms (last_user ms) user (last_user-UserAt ms))
      (elim (Bool-cases (ltb 2 (length ms))) [
        | inl e ↦ rw e (drop_or_cut-GoesOn max ms _ user (drop_index-KeepsAt true ms user))
        | inr e ↦ rw e (drop_or_cut-GoesOn max ms none user tt)
      ])

over_budget :
    (max : ℕ) (ms : List ChatMessage) → max < system_bytes ms → ltb max (prompt_bytes ms) ≡ true
over_budget max ms h = ground (arith, system_bytes-le ms)

next_step :
    (fuel max : ℕ) (ms : List ChatMessage) (o : Option (List ChatMessage))
    → budget_step max ms ≡ o
    → GoesOn ms o
    → max < system_bytes ms
    → ((ns : List ChatMessage)
        → HasUser ns
        → max < system_bytes ns
        → enforce_budget_to fuel max ns ≡ none)
    → enforce_budget_to (suc fuel) max ms ≡ none
unfolding enforce_budget_to
next_step fuel max ms none e h over later = absurd h
next_step fuel max ms (some ns) e (same, user) over later =
    rw (over_budget max ms over, e) (later ns user (rw same over))

never_ends :
    (fuel max : ℕ) (ms : List ChatMessage)
    → HasUser ms
    → max < system_bytes ms
    → enforce_budget_to fuel max ms ≡ none
unfolding enforce_budget_to
never_ends zero max ms user over = rw (over_budget max ms over) refl
never_ends (suc fuel) max ms user over =
    next_step fuel max ms (budget_step max ms) refl (budget_step-GoesOn max ms user) over
      (never_ends fuel max)

-- If the system messages alone exceed the limit of the class and there is a user message, the loop
-- never ends: no number of rounds suffices.
pub enforce_budget_diverges :
    (fuel : ℕ) (tc : TokenClass) (ms : List ChatMessage)
    → HasUser ms
    → max_prompt_bytes tc < system_bytes ms
    → enforce_budget fuel tc ms ≡ none
unfolding enforce_budget
enforce_budget_diverges fuel tc ms user over = never_ends fuel (max_prompt_bytes tc) ms user over

-- How the loop may end.
abbrev pub Fits : ℕ → List ChatMessage → Type 0
Fits max out = (prompt_bytes out ≤ max) ⊎ (¬ HasUser out)

pub some_same : {a b : List ChatMessage} → some a ≡ some b → a ≡ b
some_same h = cc h

within :
    (max : ℕ) (ms out : List ChatMessage)
    → ltb max (prompt_bytes ms) ≡ false
    → some ms ≡ some out
    → Fits max out
within max ms out e h = inl (rw (← some_same h) (ground (arith, e)))

round-Fits :
    (fuel max : ℕ) (ms out : List ChatMessage) (o : Option (List ChatMessage))
    → ltb max (prompt_bytes ms) ≡ true
    → budget_step max ms ≡ o
    → ((ns : List ChatMessage) → enforce_budget_to fuel max ns ≡ some out → Fits max out)
    → enforce_budget_to (suc fuel) max ms ≡ some out
    → Fits max out
unfolding enforce_budget_to
round-Fits fuel max ms out none over e later h =
    let same : ms ≡ out = some_same (rw (over, e) at h) in
    inr (λ user. subst (GoesOn ms) e (budget_step-GoesOn max ms (rw same user)))
round-Fits fuel max ms out (some ns) over e later h = later ns (rw (over, e) at h)

pub loop-Fits :
    (fuel max : ℕ) (ms out : List ChatMessage)
    → enforce_budget_to fuel max ms ≡ some out
    → Fits max out
unfolding enforce_budget_to
loop-Fits zero max ms out h = elim (Bool-cases (ltb max (prompt_bytes ms))) [
  | inl e ↦ absurd (cc (rw e at h))
  | inr e ↦ within max ms out e (rw e at h)
]
loop-Fits (suc fuel) max ms out h = elim (Bool-cases (ltb max (prompt_bytes ms))) [
  | inl e ↦
      round-Fits fuel max ms out (budget_step max ms) e refl (λ ns. loop-Fits fuel max ns out) h
  | inr e ↦ within max ms out e (rw e at h)
]
