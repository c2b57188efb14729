-- ===== src/Client/Prompt/Assembly.antt =====
-- client/src/prompt.rs: `build_remote_messages_with_retrieval`. The random filler is an argument; the
-- fuel is that of the two budget loops.
use zk_llm_gateway.Prelude.{
  ℕ, zero, suc, ◌+◌, ◌-◌, Bool, true, false, ◌&&◌, ◌||◌, not, Option, none, some, List, [], ◌∷◌,
  ◌++◌, ltb, if◌then◌else◌, length, take,
}
use zk_llm_gateway.Prelude.Text.{Text, codes}
use zk_llm_gateway.Prelude.Strings.{trim, is_blank, decimal}
use zk_llm_gateway.Json.{end}
use zk_llm_gateway.Types.{ChatMessage}
use zk_llm_gateway.Crypto.{Crypto}
use zk_llm_gateway.Token.{TokenClass}
use zk_llm_gateway.Client.Redaction.{RedactMode, Redactor, Patterns, redact}
use zk_llm_gateway.Client.Session.{Session}
use zk_llm_gateway.Client.MemoryStore.{Doc, RetrievedContext}
use zk_llm_gateway.Client.Prompt.{take_last, enforce_budget}
use zk_llm_gateway.Client.Prompt.Filler.{pad_system_message}

pub record PromptBuildConfig : Type 0 where
  pub max_recent_messages : ℕ
  pub max_memory_items : ℕ
  pub include_summary : Bool
  pub normalize_context_blocks : Bool
  pub pad_system_prompt : Bool
  pub max_padding_bytes : ℕ
  pub max_recall_snippets : ℕ

abbrev pub default : PromptBuildConfig
default = record {
  max_recent_messages = 8;
  max_memory_items = 8;
  include_summary = true;
  normalize_context_blocks = true;
  pad_system_prompt = true;
  max_padding_bytes = 65536;
  max_recall_snippets = 6;
}

unfoldable pub message_of : Text → Text → ChatMessage
message_of role content = record { role = role; content = content; extra = end }

unfoldable pub privacy_note : Text
privacy_note =
    10
    ∷ 10
    ∷ (codes "[Privacy note]"
        ++ (10
            ∷ codes
                "You may see placeholders like <EMAIL_...> or <API_KEY_...>. Do not ask for the underlying values. Treat them as stable identifiers."))

-- The first block: the rolling summary.
unfoldable pub summary_block : PromptBuildConfig → Text → Text
summary_block cfg summary =
    if cfg.include_summary || cfg.normalize_context_blocks
    then codes "[Conversation summary (local)]"
      ++ (10
          ∷ ((if cfg.include_summary && not (is_blank summary)
                then trim summary
                else codes "<EMPTY>")
              ++ (10 ∷ 10 ∷ [])))
    else []

unfoldable pub join : List Text → Text
join [] = []
join (t ∷ []) = t
join (t ∷ u ∷ us) = t ++ (44 ∷ join (u ∷ us))

unfoldable pub tags_part : List Text → Text
unfolding join
tags_part [] = []
tags_part (t ∷ ts) = codes " [" ++ (join (t ∷ ts) ++ codes "]")

unfoldable pub memory_line : ℕ → Doc → Text
unfolding tags_part
memory_line number item =
    codes "- M"
    ++ (decimal number ++ (tags_part item.tags ++ (codes ": " ++ (take 400 item.text ++ 10 ∷ []))))

unfoldable pub recall_line : ℕ → ChatMessage → Text
recall_line number msg =
    codes "- R"
    ++ (decimal number ++ (32 ∷ (msg.role ++ (codes ": " ++ (take 300 msg.content ++ 10 ∷ [])))))

-- Lines that are numbered from the given number.
unfoldable pub numbered : {A : Type 0} → (ℕ → A → Text) → ℕ → List A → Text
numbered line number [] = []
numbered line number (x ∷ xs) = line number x ++ numbered line (number + 1) xs

unfoldable pub empty_lines : Text → ℕ → ℕ → Text
empty_lines mark number zero = []
empty_lines mark number (suc n) =
    (mark ++ (decimal number ++ (codes ": <EMPTY>" ++ 10 ∷ []))) ++ empty_lines mark (number + 1) n

-- The items, then empty lines up to the fixed number when the structure is normalized.
unfoldable pub listing : {A : Type 0} → (ℕ → A → Text) → Text → Bool → ℕ → List A → Text
unfolding numbered empty_lines
listing line mark normalize most xs =
    let shown = take most xs in
    numbered line 1 shown
    ++ (if normalize then empty_lines mark (length shown + 1) (most - length shown) else [])

unfoldable pub is_empty : {A : Type 0} → List A → Bool
is_empty [] = true
is_empty (x ∷ xs) = false

unfoldable pub memory_block : PromptBuildConfig → List Doc → Text
unfolding listing memory_line is_empty
memory_block cfg memories =
    if cfg.normalize_context_blocks || not (is_empty memories)
    then codes "[Selected memory (local)]"
      ++ (10
          ∷ (listing memory_line (codes "- M") cfg.normalize_context_blocks cfg.max_memory_items
                memories
              ++ 10 ∷ []))
    else []

unfoldable pub recall_block : PromptBuildConfig → List ChatMessage → Text
unfolding listing recall_line is_empty
recall_block cfg recall =
    if ltb 0 cfg.max_recall_snippets && (cfg.normalize_context_blocks || not (is_empty recall))
    then codes "[Recall snippets (local)]"
      ++ (10
          ∷ (listing recall_line (codes "- R") cfg.normalize_context_blocks cfg.max_recall_snippets
                recall
              ++ 10 ∷ []))
    else []

unfoldable pub memory_text : PromptBuildConfig → Text → RetrievedContext → Text
unfolding summary_block memory_block recall_block
memory_text cfg summary retrieved =
    summary_block cfg summary
    ++ (memory_block cfg retrieved.memories ++ recall_block cfg retrieved.recall)

-- The two budget loops with the padding between them.
unfoldable pub fit :
    ℕ → (ℕ → Text) → TokenClass → PromptBuildConfig → List ChatMessage → Option (List ChatMessage)
fit fuel filler token_class cfg messages = elim (enforce_budget fuel token_class messages) [
  | none ↦ none
  | some fitted ↦
      if cfg.pad_system_prompt
      then enforce_budget fuel token_class
          (pad_system_message filler token_class cfg.max_padding_bytes fitted)
      else some fitted
]

module _ (c : Crypto) (pats : Patterns) (mode : RedactMode) (extra_terms : List Text) where
  -- The recent messages, redacted one after the other.
  unfoldable pub redact_messages : List ChatMessage → Redactor → Redactor × List ChatMessage
  redact_messages [] red = (red, [])
  redact_messages (m ∷ ms) red =
      let (red1, content) = redact c pats mode extra_terms m.content red in
      let (red2, rest) = redact_messages ms red1 in (red2, message_of m.role content ∷ rest)

  unfoldable pub context_message : Text → Redactor → Redactor × List ChatMessage
  context_message text red =
      if is_blank text
      then (red, [])
      else (let (red1, content) = redact c pats mode extra_terms text red in
          (red1, message_of (codes "system") content ∷ []))

  -- The messages before the budget is enforced.
  unfoldable pub assemble :
      PromptBuildConfig → Session → RetrievedContext → Redactor → Redactor × List ChatMessage
  unfolding redact_messages context_message privacy_note
  assemble cfg session retrieved red =
      let (red1, system) = redact c pats mode extra_terms session.system_prompt red in
      let (red2, context) = context_message (memory_text cfg session.summary retrieved) red1 in
      let (red3, recent) =
        redact_messages (take_last cfg.max_recent_messages session.messages) red2 in
      (red3, message_of (codes "system") (system ++ privacy_note) ∷ (context ++ recent))

  unfoldable pub build_remote_messages_with_retrieval :
      ℕ
      → (ℕ → Text)
      → TokenClass
      → PromptBuildConfig
      → Session
      → RetrievedContext
      → Redactor
      → Redactor × Option (List ChatMessage)
  unfolding fit
  build_remote_messages_with_retrieval fuel filler token_class cfg session retrieved red =
      let (red', messages) = assemble cfg session retrieved red in
      (red', fit fuel filler token_class cfg messages)
