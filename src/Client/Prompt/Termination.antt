-- ===== src/Client/Prompt/Termination.antt =====
-- When the loop of `enforce_budget` does end (client/src/prompt.rs).
use zk_llm_gateway.Prelude.{
  ℕ, zero, suc, ◌+◌, ◌-◌, ◌≤◌, ◌<◌, ◌≡◌, refl, sym, ap, subst, ◌∙◌, ◌⊎◌, inl, inr, Bool, true,
  false, ◌||◌, Option, none, some, List, [], ◌∷◌, arith, ltb, if◌then◌else◌, Bool-cases, length,
}
use zk_llm_gateway.Types.{ChatMessage}
use zk_llm_gateway.Token.{TokenClass, max_prompt_bytes}
use zk_llm_gateway.Client.Prompt.{
  is_user, is_system, message_bytes, prompt_bytes, suc_index, pred_index, is_here, last_user,
  drop_index, remove_at, update_at, cut, kept_index, cut_last_user, drop_or_cut, budget_step,
  enforce_budget_to, enforce_budget,
}
use zk_llm_gateway.Client.Prompt.Keeping.{
  HasUser, system_bytes, SameAt, drop_index-SameAt, last_user-tail, last_user-head, user_no_system,
  last_user-nil,
}
use zk_llm_gateway.Client.Prompt.Budget.{loop-Fits}
use zk_llm_gateway.Client.Prompt.Cutting.{system_bytes-system, some_index, lone, cut_fits}

-- A message that may be dropped is there, so that dropping it makes the list shorter.
abbrev ShortAt : List ChatMessage → Option ℕ → Type 0
ShortAt ms none = Unit
ShortAt ms (some k) = suc (length (remove_at k ms)) ≡ length ms

ShortAt-suc :
    (m : ChatMessage) (ms : List ChatMessage) (o : Option ℕ)
    → ShortAt ms o
    → ShortAt (m ∷ ms) (suc_index o)
unfolding suc_index remove_at
ShortAt-suc m ms none h = tt
ShortAt-suc m ms (some k) h = ap suc h

drop_index-ShortAt :
    (at_head : Bool) (kept : Option ℕ) (ms : List ChatMessage)
    → ShortAt ms (drop_index at_head kept ms)
unfolding drop_index remove_at
drop_index-ShortAt at_head kept [] = tt
drop_index-ShortAt at_head kept (m ∷ ms) =
    elim (Bool-cases (at_head || is_system m || is_here kept)) [
      | inl e ↦ rw e (ShortAt-suc m ms _ (drop_index-ShortAt false (pred_index kept) ms))
      | inr e ↦ rw e refl
    ]

-- What a round finds after a system message at the head: nothing to drop, or a message to drop.
abbrev Dropped : List ChatMessage → Option ℕ → Type 0
Dropped rest none = (i : ℕ) → last_user rest ≡ some i → drop_index false (some i) rest ≡ none
Dropped rest (some zero) = ⊥
Dropped rest (some (suc k)) =
    (system_bytes (remove_at k rest) ≡ system_bytes rest)
    × (suc (length (remove_at k rest)) ≡ length rest)

Dropped-suc :
    (rest : List ChatMessage) (x : Option ℕ)
    → SameAt rest x
    → ShortAt rest x
    → (x ≡ none → Dropped rest none)
    → Dropped rest (suc_index x)
unfolding suc_index
Dropped-suc rest none same short h = h refl
Dropped-suc rest (some k) same short h = (same, short)

-- The last user message behind a head that is a system message.
kept_behind :
    (m : ChatMessage) (rest : List ChatMessage) (i : ℕ)
    → last_user rest ≡ some i
    → pred_index (kept_index (m ∷ rest) (last_user (m ∷ rest))) ≡ some i
unfolding pred_index kept_index
kept_behind m rest i e = rw (last_user-tail m rest i e) refl

or_here : (b : Bool) → (b || true) ≡ true
or_here b = ground arith

two_short : (n : ℕ) → ¬ (ltb 2 (suc (suc (suc n))) ≡ false)
two_short n h = ground arith

one_user : (m : ChatMessage) → is_user m ≡ true → last_user (m ∷ []) ≡ some 0
one_user m u = rw (last_user-head m [] last_user-nil, u) refl

single :
    (rest : List ChatMessage) (i : ℕ)
    → ltb 2 (suc (length rest)) ≡ false
    → last_user rest ≡ some i
    → drop_index false (some i) rest ≡ none
unfolding drop_index is_here suc_index pred_index
single [] i short e = refl
single (m ∷ []) i short e = elim (Bool-cases (is_user m)) [
  | inl u ↦
      subst (λ n. drop_index false (some n) (m ∷ []) ≡ none) (some_index (sym (one_user m u) ∙ e))
        (rw (or_here (is_system m)) refl)
  | inr u ↦ absurd (cc (rw (last_user-head m [] last_user-nil, u) at e))
]
single (m ∷ n ∷ rest) i short e = absurd (two_short (length rest) short)

round-Dropped :
    (m : ChatMessage) (rest : List ChatMessage)
    → Dropped rest (
        if ltb 2 (length (m ∷ rest))
        then drop_index true (kept_index (m ∷ rest) (last_user (m ∷ rest))) (m ∷ rest)
        else none)
unfolding drop_index
round-Dropped m rest = elim (Bool-cases (ltb 2 (length (m ∷ rest)))) [
  | inr e ↦ rw e (λ i. single rest i e)
  | inl e ↦
      let kept = pred_index (kept_index (m ∷ rest) (last_user (m ∷ rest))) in
      rw e (
        Dropped-suc rest (drop_index false kept rest) (drop_index-SameAt false kept rest)
          (drop_index-ShortAt false kept rest)
          (λ free i user.
            subst (λ o. drop_index false o rest ≡ none) (kept_behind m rest i user) free))
]

-- The loop ends within so many rounds.
abbrev Ends : ℕ → ℕ → List ChatMessage → Type 0
Ends fuel max ms = (out : List ChatMessage) × (enforce_budget_to fuel max ms ≡ some out)

fitting-Ends :
    (fuel max : ℕ) (ms : List ChatMessage) → ltb max (prompt_bytes ms) ≡ false → Ends fuel max ms
unfolding enforce_budget_to
fitting-Ends zero max ms h = (ms, rw h refl)
fitting-Ends (suc fuel) max ms h = (ms, rw h refl)

-- The rounds that follow one round.
abbrev Follows : ℕ → ℕ → List ChatMessage → Option (List ChatMessage) → Type 0
Follows fuel max ms none = Unit
Follows fuel max ms (some ns) = Ends fuel max ns

round-Ends :
    (fuel max : ℕ) (ms : List ChatMessage) (o : Option (List ChatMessage))
    → budget_step max ms ≡ o
    → ltb max (prompt_bytes ms) ≡ true
    → Follows fuel max ms o
    → Ends (suc fuel) max ms
unfolding enforce_budget_to
round-Ends fuel max ms none e over h = (ms, rw (over, e) refl)
round-Ends fuel max ms (some ns) e over (out, ends) = (out, rw (over, e) ends)

module _ (max : ℕ) (m : ChatMessage) (head : is_system m ≡ true) where
  no_user : is_user m ≡ false
  no_user = elim (Bool-cases (is_user m)) [
    | inl u ↦ absurd (cc (sym head ∙ user_no_system m u))
    | inr u ↦ u
  ]

  within_max : (n : ℕ) → n ≤ max → ltb max n ≡ false
  within_max n h = ground arith

  cut_room :
      (rest : List ChatMessage) (i : ℕ)
      → last_user rest ≡ some i
      → system_bytes (m ∷ rest) + 7 ≤ max
      → max < prompt_bytes (m ∷ rest)
      → drop_index false (some i) rest ≡ none
      → prompt_bytes (update_at (suc i) (cut (prompt_bytes (m ∷ rest) - max)) (m ∷ rest)) ≤ max
  unfolding update_at prompt_bytes
  cut_room rest i e room over free =
      let excess = message_bytes m + prompt_bytes rest - max in
      let (u, user, before, after) = lone excess rest i e free in
      let sys = system_bytes-system m rest head in
      let fits =
        cut_fits max excess (message_bytes m + system_bytes rest) u user (omega (arith, sys, room))
          (omega (arith, before)) (omega (arith, before, over)) in
      omega (arith, after, fits)

  cut-Follows :
      (fuel : ℕ) (rest : List ChatMessage) (o : Option ℕ)
      → last_user rest ≡ o
      → system_bytes (m ∷ rest) + 7 ≤ max
      → max < prompt_bytes (m ∷ rest)
      → Dropped rest none
      → Follows fuel max (m ∷ rest) (cut_last_user max (m ∷ rest) (last_user (m ∷ rest)))
  unfolding cut_last_user
  cut-Follows fuel rest none e room over free = rw (last_user-head m rest e, no_user) tt
  cut-Follows fuel rest (some i) e room over free =
      rw (last_user-tail m rest i e)
        (fitting-Ends fuel max _ (within_max _ (cut_room rest i e room over (free i e))))

  drop-Follows :
      (fuel : ℕ) (rest : List ChatMessage) (d : Option ℕ)
      → system_bytes (m ∷ rest) + 7 ≤ max
      → max < prompt_bytes (m ∷ rest)
      → Dropped rest d
      → ((ns : List ChatMessage)
          → suc (length ns) ≡ length rest
          → system_bytes (m ∷ ns) + 7 ≤ max
          → Ends fuel max (m ∷ ns))
      → Follows fuel max (m ∷ rest) (drop_or_cut max (m ∷ rest) d)
  unfolding drop_or_cut remove_at
  drop-Follows fuel rest none room over free later =
      cut-Follows fuel rest (last_user rest) refl room over free
  drop-Follows fuel rest (some zero) room over dropped later = absurd dropped
  drop-Follows fuel rest (some (suc k)) room over (same, shorter) later =
      later (remove_at k rest) shorter (
        rw (system_bytes-system m (remove_at k rest) head, same)
          (rw (system_bytes-system m rest head) at room))

  over_max : (n : ℕ) → ltb max n ≡ true → max < n
  over_max n h = ground arith

  ends :
      (fuel : ℕ) (rest : List ChatMessage)
      → length rest ≤ fuel
      → system_bytes (m ∷ rest) + 7 ≤ max
      → Ends (suc fuel) max (m ∷ rest)
  unfolding budget_step
  ends zero rest enough room = elim (Bool-cases (ltb max (prompt_bytes (m ∷ rest)))) [
    | inr e ↦ fitting-Ends 1 max (m ∷ rest) e
    | inl e ↦ round-Ends zero max (m ∷ rest) (budget_step max (m ∷ rest)) refl e (
        drop-Follows zero rest _ room (over_max _ e) (round-Dropped m rest)
          (λ ns shorter room'. absurd (omega (arith, shorter, enough))))
  ]
  ends (suc fuel) rest enough room = elim (Bool-cases (ltb max (prompt_bytes (m ∷ rest)))) [
    | inr e ↦ fitting-Ends (suc (suc fuel)) max (m ∷ rest) e
    | inl e ↦ round-Ends (suc fuel) max (m ∷ rest) (budget_step max (m ∷ rest)) refl e (
        drop-Follows (suc fuel) rest _ room (over_max _ e) (round-Dropped m rest)
          (λ ns shorter room'. ends fuel ns (omega (arith, shorter, enough)) room'))
  ]

-- If the head is a system message, and the system messages leave seven bytes of the class's limit for
-- a cut user message, the loop ends within as many rounds as there are messages, and the prompt then
-- fits its class or has no user message.
pub enforce_budget_ends :
    (tc : TokenClass) (m : ChatMessage) (rest : List ChatMessage)
    → is_system m ≡ true
    → system_bytes (m ∷ rest) + 7 ≤ max_prompt_bytes tc
    → (out : List ChatMessage) × (enforce_budget (length (m ∷ rest)) tc (m ∷ rest) ≡ some out)
      × ((prompt_bytes out ≤ max_prompt_bytes tc) ⊎ (¬ HasUser out))
unfolding enforce_budget
enforce_budget_ends tc m rest head room =
    let (out, e) = ends (max_prompt_bytes tc) m head (length rest) rest (omega arith) room in
    (out, e, loop-Fits (length (m ∷ rest)) (max_prompt_bytes tc) (m ∷ rest) out e)
