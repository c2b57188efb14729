-- ===== src/Client/Prompt/Delivery.antt =====
-- The prompt that `build_remote_messages_with_retrieval` returns.
use zk_llm_gateway.Prelude.{
  ℕ, zero, suc, ◌+◌, ◌≤◌, ◌≡◌, refl, ap, sym, subst, ◌∙◌, inl, inr, true, false, Option, none, some,
  List, [], ◌∷◌, arith, ltb, Bool-cases, length,
}
use zk_llm_gateway.Prelude.Text.{Text, codes, bytes_eq}
use zk_llm_gateway.Token.{TokenClass, max_prompt_bytes}
use zk_llm_gateway.Types.{ChatMessage}
use zk_llm_gateway.Crypto.{Crypto}
use zk_llm_gateway.Client.Redaction.{RedactMode, Redactor, Patterns}
use zk_llm_gateway.Client.Session.{Session}
use zk_llm_gateway.Client.MemoryStore.{RetrievedContext}
use zk_llm_gateway.Client.Prompt.{
  is_system, prompt_bytes, budget_step, enforce_budget_to, enforce_budget,
}
use zk_llm_gateway.Client.Prompt.Keeping.{HasUser, system_bytes}
use zk_llm_gateway.Client.Prompt.Budget.{GoesOn, budget_step-GoesOn, some_same}
use zk_llm_gateway.Client.Prompt.Termination.{enforce_budget_ends}
use zk_llm_gateway.Client.Prompt.Filler.{pad_system_message, pad_system_message_fits}
use zk_llm_gateway.Client.Prompt.Assembly.{
  PromptBuildConfig, message_of, assemble, fit, build_remote_messages_with_retrieval,
}

round-HasUser :
    (fuel max : ℕ) (ms out : List ChatMessage) (o : Option (List ChatMessage))
    → HasUser ms
    → ltb max (prompt_bytes ms) ≡ true
    → budget_step max ms ≡ o
    → GoesOn ms o
    → ((ns : List ChatMessage)
        → HasUser ns
        → enforce_budget_to fuel max ns ≡ some out
        → HasUser out)
    → enforce_budget_to (suc fuel) max ms ≡ some out
    → HasUser out
unfolding enforce_budget_to
round-HasUser fuel max ms out none user over e goes later h = absurd goes
round-HasUser fuel max ms out (some ns) user over e (same, user') later h =
    later ns user' (rw (over, e) at h)

-- The loop keeps a user message.
loop-HasUser :
    (fuel max : ℕ) (ms out : List ChatMessage)
    → HasUser ms
    → enforce_budget_to fuel max ms ≡ some out
    → HasUser out
unfolding enforce_budget_to
loop-HasUser zero max ms out user h = elim (Bool-cases (ltb max (prompt_bytes ms))) [
  | inl e ↦ absurd (cc (rw e at h))
  | inr e ↦ let same : ms ≡ out = some_same (rw e at h) in subst HasUser same user
]
loop-HasUser (suc fuel) max ms out user h = elim (Bool-cases (ltb max (prompt_bytes ms))) [
  | inl e ↦
      round-HasUser fuel max ms out (budget_step max ms) user e refl
        (budget_step-GoesOn max ms user) (λ ns user'. loop-HasUser fuel max ns out user') h
  | inr e ↦ let same : ms ≡ out = some_same (rw e at h) in subst HasUser same user
]

enforce_budget-idle :
    (fuel : ℕ) (tc : TokenClass) (ms : List ChatMessage)
    → prompt_bytes ms ≤ max_prompt_bytes tc
    → enforce_budget fuel tc ms ≡ some ms
unfolding enforce_budget enforce_budget_to
enforce_budget-idle zero tc ms h =
    let e : ltb (max_prompt_bytes tc) (prompt_bytes ms) ≡ false = ground arith in rw e refl
enforce_budget-idle (suc fuel) tc ms h =
    let e : ltb (max_prompt_bytes tc) (prompt_bytes ms) ≡ false = ground arith in rw e refl

pad_fits :
    (filler : ℕ → Text) (tc : TokenClass) (max_padding : ℕ) (ms : List ChatMessage)
    → HasUser ms
    → prompt_bytes ms ≤ max_prompt_bytes tc
    → prompt_bytes (pad_system_message filler tc max_padding ms) ≤ max_prompt_bytes tc
pad_fits filler tc max_padding [] user h = absurd user
pad_fits filler tc max_padding (m ∷ ms) user h =
    let (head, same, fits) = pad_system_message_fits filler tc max_padding m ms h in rw same fits

pub message_of-is_system : (t : Text) → is_system (message_of (codes "system") t) ≡ true
unfolding is_system message_of bytes_eq
message_of-is_system t = refl

fit-fits :
    (filler : ℕ → Text) (tc : TokenClass) (cfg : PromptBuildConfig) (m : ChatMessage)
    (rest : List ChatMessage)
    → is_system m ≡ true
    → HasUser (m ∷ rest)
    → system_bytes (m ∷ rest) + 7 ≤ max_prompt_bytes tc
    → (out : List ChatMessage) × (fit (length (m ∷ rest)) filler tc cfg (m ∷ rest) ≡ some out)
      × (prompt_bytes out ≤ max_prompt_bytes tc)
unfolding fit
fit-fits filler tc cfg m rest head user room =
    let fuel = length (m ∷ rest) in
    let (fitted, ends, how) = enforce_budget_ends tc m rest head room in
    let user' =
      loop-HasUser fuel (max_prompt_bytes tc) (m ∷ rest) fitted user
        (unfold enforce_budget in ends) in
    let fits : prompt_bytes fitted ≤ max_prompt_bytes tc = elim how [
      | inl f ↦ f
      | inr no_user ↦ absurd (no_user user')
    ] in
    elim (Bool-cases cfg.pad_system_prompt) [
      | inl e ↦
          let padded = pad_system_message filler tc cfg.max_padding_bytes fitted in
          let within = pad_fits filler tc cfg.max_padding_bytes fitted user' fits in
          (padded, rw (ends, e, fit) (enforce_budget-idle fuel tc padded within), within)
      | inr e ↦ (fitted, rw (ends, e, fit) refl, fits)
    ]

-- The prompt that leaves the client is made and fits its class: when the assembled messages have a user
-- message, and their system messages leave seven bytes of the class's limit for a cut user message,
-- both budget loops end within as many rounds as there are messages, and the result, padded or not, is
-- within the limit.
pub build_remote_messages-fits :
    (c : Crypto) (pats : Patterns) (mode : RedactMode) (extra_terms : List Text) (filler : ℕ → Text)
    (tc : TokenClass) (cfg : PromptBuildConfig) (session : Session) (retrieved : RetrievedContext)
    (red : Redactor) {messages : List ChatMessage}
    → (assemble c pats mode extra_terms cfg session retrieved red).1 ≡ messages
    → HasUser messages
    → system_bytes messages + 7 ≤ max_prompt_bytes tc
    → (out : List ChatMessage) × ((build_remote_messages_with_retrieval c pats mode extra_terms
          (length messages)
          filler
          tc
          cfg
          session
          retrieved
          red).1
        ≡ some out)
      × (prompt_bytes out ≤ max_prompt_bytes tc)
unfolding build_remote_messages_with_retrieval assemble
build_remote_messages-fits c pats mode extra_terms filler tc cfg session retrieved red made user
      room =
    let (out, built, within) =
      fit-fits filler tc cfg _ _ (message_of-is_system _) (subst HasUser (sym made) user)
        (subst (λ ms. system_bytes ms + 7 ≤ max_prompt_bytes tc) (sym made) room) in
    (
      out,
      ap
            (λ ms.
              fit (length ms) filler tc cfg
                (assemble c pats mode extra_terms cfg session retrieved red).1)
            (sym made)
          ∙ built,
      within,
    )
