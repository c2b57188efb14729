-- ===== src/Client/Prompt/Tests.antt =====
-- Examples for client/src/prompt.rs.
use zk_llm_gateway.Prelude.{
  ℕ, ◌+◌, true, ◌≤◌, ◌<◌, ◌≡◌, ◌⊎◌, inl, inr, refl, none, some, length, List, [], ◌∷◌, arith,
  replicate,
}
use zk_llm_gateway.Prelude.Text.{Text, codes, bytes_eq, text_len, utf8_width}
use zk_llm_gateway.Token.{c256, max_prompt_bytes}
use zk_llm_gateway.Json.{end}
use zk_llm_gateway.Types.{ChatMessage}
use zk_llm_gateway.Prelude.Strings.{
  trim, trim_left, trim_right, is_whitespace, is_blank, decimal, digits,
}
use zk_llm_gateway.Client.Redaction.{none_mode, redact}
use zk_llm_gateway.Client.MemoryStore.{RetrievedContext, memory}
use zk_llm_gateway.Client.Toy.{blind, no_patterns, config, session, redactor}
use zk_llm_gateway.Client.Prompt.Assembly.{
  message_of, assemble, memory_text, redact_messages, context_message, privacy_note, summary_block,
  join, tags_part, memory_line, recall_line, numbered, empty_lines, listing, is_empty, memory_block,
  recall_block, build_remote_messages_with_retrieval,
}
use zk_llm_gateway.Client.Prompt.Delivery.{build_remote_messages-fits}
use zk_llm_gateway.Client.Prompt.Structure.{lines, lines-memory_text}
use zk_llm_gateway.Client.Prompt.{
  take_last, is_user, is_system, message_bytes, prompt_bytes, enforce_budget,
}
use zk_llm_gateway.Client.Prompt.Keeping.{HasUser, system_bytes}
use zk_llm_gateway.Client.Prompt.Budget.{enforce_budget_diverges}
use zk_llm_gateway.Client.Prompt.Filler.{pad_system_message, pad_system_message_fits}
use zk_llm_gateway.Client.Prompt.Termination.{enforce_budget_ends}

abbrev user : Text → ChatMessage
user text = record { role = codes "user"; content = text; extra = end }

abbrev system : Text → ChatMessage
system text = record { role = codes "system"; content = text; extra = end }

-- A system message of 2100 bytes, for a class that allows 2048.
abbrev long : List ChatMessage
long = system (replicate 2100 65) ∷ user (codes "hi") ∷ []

long-HasUser : HasUser long
unfolding is_user bytes_eq
long-HasUser = inr (inl refl)

long_over : max_prompt_bytes c256 < system_bytes long
unfolding max_prompt_bytes system_bytes is_system message_bytes bytes_eq text_len utf8_width
long_over = omega arith

enforce_budget_diverges_example : enforce_budget 1000 c256 long ≡ none
enforce_budget_diverges_example = enforce_budget_diverges 1000 c256 long long-HasUser long_over

-- A user message of 3000 characters, which is cut, and one before it, which is dropped.
abbrev talk : List ChatMessage
talk = user (codes "hello") ∷ user (replicate 3000 65) ∷ []

brief-is_system : is_system (system (codes "be brief")) ≡ true
unfolding is_system bytes_eq
brief-is_system = refl

brief_room : system_bytes (system (codes "be brief") ∷ talk) + 7 ≤ max_prompt_bytes c256
unfolding max_prompt_bytes system_bytes is_system message_bytes bytes_eq text_len utf8_width
brief_room = omega arith

enforce_budget_ends_instance :
    (out : List ChatMessage) × (enforce_budget 3 c256 (system (codes "be brief") ∷ talk) ≡ some out)
    × ((prompt_bytes out ≤ max_prompt_bytes c256) ⊎ (¬ HasUser out))
enforce_budget_ends_instance =
    enforce_budget_ends c256 (system (codes "be brief")) talk brief-is_system brief_room

abbrev filler : ℕ → Text
filler n = replicate n 65

abbrev short : List ChatMessage
short = user (codes "hi") ∷ []

short_fits : prompt_bytes (system (codes "be brief") ∷ short) ≤ max_prompt_bytes c256
unfolding max_prompt_bytes prompt_bytes message_bytes text_len utf8_width
short_fits = omega arith

pad_system_message_fits_instance :
    (head : ChatMessage) × (pad_system_message filler c256 65536 (system (codes "be brief") ∷ short)
      ≡ head ∷ short)
    × (prompt_bytes (head ∷ short) ≤ max_prompt_bytes c256)
pad_system_message_fits_instance =
    pad_system_message_fits filler c256 65536 (system (codes "be brief")) short short_fits

abbrev retrieved : RetrievedContext
retrieved = record {
  memories =
      record {
        kind = memory;
        id = [];
        created_at_ms = 1;
        role = none;
        msg_index = none;
        text = codes "likes tea";
        tags = codes "food" ∷ [];
      }
      ∷ [];
  recall = [];
}

lines-memory_text_example : lines (memory_text config [] retrieved) ≡ 11
unfolding lines trim trim_left trim_right
lines-memory_text_example =
    lines-memory_text config [] retrieved refl refl (refl, (refl, tt), tt) tt

abbrev assembled : List ChatMessage
assembled = (assemble blind no_patterns none_mode [] config session retrieved redactor).1

assembled-HasUser : HasUser assembled
unfolding assemble redact redact_messages context_message message_of take_last is_user bytes_eq
    is_blank is_whitespace memory_text summary_block memory_block recall_block
assembled-HasUser = inr (inr (inl refl))

assembled_room : system_bytes assembled + 7 ≤ max_prompt_bytes c256
unfolding assemble redact redact_messages context_message message_of privacy_note take_last
    is_system bytes_eq is_blank is_whitespace memory_text summary_block memory_block recall_block
    listing numbered empty_lines memory_line recall_line tags_part join is_empty trim trim_left
    trim_right decimal digits max_prompt_bytes system_bytes message_bytes text_len utf8_width
assembled_room = omega arith

build_remote_messages-fits_example :
    (out : List ChatMessage) × ((build_remote_messages_with_retrieval blind no_patterns none_mode []
        (length assembled)
        filler
        c256
        config
        session
        retrieved
        redactor).1
      ≡ some out)
    × (prompt_bytes out ≤ max_prompt_bytes c256)
build_remote_messages-fits_example =
    build_remote_messages-fits blind no_patterns none_mode [] filler c256 config session retrieved
      redactor refl assembled-HasUser assembled_room
