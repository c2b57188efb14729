-- ===== src/Client/Agent.antt =====
-- client/src/agent.rs: one session's runtime. What it calls outside the repository (HTTP, JSON, the
-- local model, the ticket source that sessions share) is the parameter `World`; random bytes and the
-- answers of the file system are arguments.
pub mod Turn
pub mod Repl
pub mod Summary
pub mod State
pub mod Answer
pub mod Invariant
mod Tests
use zk_llm_gateway.Prelude.{
  ℕ, ◌+◌, ◌-◌, Bool, true, false, Option, none, some, List, [], ◌∷◌, ◌++◌, ltb, if◌then◌else◌,
  length, take, drop, min,
}
use zk_llm_gateway.Prelude.Text.{Bytes, Text, codes, text_len}
use zk_llm_gateway.Prelude.Strings.{Dict}
use zk_llm_gateway.Prelude.Result.{Result, ok, err}
use zk_llm_gateway.Crypto.{Crypto}
use zk_llm_gateway.Token.{TokenClass}
use zk_llm_gateway.Types.{ChatMessage, ZkTicket, InferenceRequest, GatewayEnvelopePayload, Encoding}
use zk_llm_gateway.Envelope.{Envelope}
use zk_llm_gateway.Client.Tickets.{TicketError}
use zk_llm_gateway.Client.Redaction.{RedactMode, Redactor, Patterns, add_custom_term}
use zk_llm_gateway.Client.Session.{
  MemoryItem, Session, SessionError, write_failed, Formats, push_memory, save_session,
}
use zk_llm_gateway.Client.MemoryStore.{
  Floats, MemoryStore, add_message, add_memory_item, rebuild_from_session,
}
use zk_llm_gateway.Client.MemoryStore.Tokens.{Unicode}
use zk_llm_gateway.Client.Prompt.{take_last}
use zk_llm_gateway.Client.Prompt.Assembly.{PromptBuildConfig, message_of, redact_messages}

pub record World (Blob F Source : Type 0) : Type 0 where
  pub crypto : Crypto
  pub encoding : Encoding
  pub patterns : Patterns
  pub formats : Formats Blob
  pub floats : Floats F
  pub unicode : Unicode
  pub uuid_text : ℕ → Text
  pub next_ticket : TokenClass → Bytes → Source → Result TicketError ZkTicket × Source
  pub print_request : InferenceRequest → Option Bytes
  -- The POST to the endpoint: whether the status is a success, and the body.
  pub post : Text → Envelope → Option (Bool × Bytes)
  pub parse_envelope : Bytes → Option Envelope
  pub parse_payload : Bytes → Option GatewayEnvelopePayload
  -- What a failed write to the path leaves on the disk.
  pub after_broken_write : Text → Dict Blob → Dict Blob
  -- The local model, where there is one; an inner `none` is its failure.
  pub local_ai : Option (Text → List ChatMessage → Option Text)

pub record AgentRuntime (F : Type 0) : Type 0 where
  pub endpoint_url : Text
  pub gateway_public_bytes : Bytes
  pub model : Text
  pub token_class : TokenClass
  pub redact_mode : RedactMode
  pub extra_terms : List Text
  pub prompt_cfg : PromptBuildConfig
  pub session_path : Text
  pub session_key : Option Bytes
  pub session : Session
  pub redactor : Redactor
  pub memory_store : MemoryStore F

-- The random salt and nonce of a file that is written, and the file system's answer.
pub record Write : Type 0 where
  pub salt : Bytes
  pub nonce : Bytes
  pub writable : Bool

unfoldable pub add_terms : List Text → Redactor → Redactor
add_terms [] red = red
add_terms (t ∷ ts) red = add_terms ts (add_custom_term t red)

module _ {Blob F Source : Type 0} (w : World Blob F Source) where
  -- A write that fails may leave the file empty or cut short; every other error comes before it.
  unfoldable pub after_failure : SessionError → Text → Dict Blob → Dict Blob
  after_failure write_failed path files = w.after_broken_write path files
  after_failure failure path files = files

  -- `save_session(…).ok()`.
  unfoldable pub save_or_not : Write → Text → Session → Option Bytes → Dict Blob → Dict Blob
  unfolding after_failure
  save_or_not write path session session_key files =
      elim (save_session w.crypto w.formats write.salt write.nonce write.writable files path session
        session_key) [ ok files' ↦ files' | err failure ↦ after_failure failure path files ]

  unfoldable pub persist : Write → AgentRuntime F → Dict Blob → Dict Blob
  persist write agent files =
      save_or_not write agent.session_path agent.session agent.session_key files

  -- `AgentRuntime::new` for an agent whose index is still to be built. Building the HTTP client is left
  -- out.
  unfoldable pub new : Write → Bool → ℕ → AgentRuntime F → Dict Blob → AgentRuntime F × Dict Blob
  unfolding persist
  new write index_messages max_messages_indexed agent files =
      let red =
        add_terms agent.extra_terms
          (add_terms agent.session.redaction.custom_terms agent.redactor) in
      let agent' = record agent {
        redactor = red;
        memory_store =
            rebuild_from_session w.floats w.unicode w.uuid_text agent.session.memory
              agent.session.messages index_messages max_messages_indexed;
        session = record agent.session { redaction = red.state };
      } in
      (agent', persist write agent' files)

  -- The arguments are the id and the time of the new item.
  unfoldable pub remember :
      Write → ℕ → ℕ → Text → List Text → AgentRuntime F → Dict Blob → AgentRuntime F × Dict Blob
  unfolding persist
  remember write id now text tags agent files =
      let item : MemoryItem = record { id = id; created_at_ms = now; text = text; tags = tags } in
      let agent' = record agent {
        session = push_memory id now text tags agent.session;
        memory_store = add_memory_item w.floats w.unicode w.uuid_text item agent.memory_store;
      } in
      (agent', persist write agent' files)

  unfoldable pub add_redaction_term :
      Write → Text → AgentRuntime F → Dict Blob → AgentRuntime F × Dict Blob
  unfolding persist
  add_redaction_term write term agent files =
      let red = add_custom_term term agent.redactor in
      let agent' = record agent {
        redactor = red;
        session = record agent.session { redaction = red.state };
      } in
      (agent', persist write agent' files)

  unfoldable pub set_system_prompt :
      Write → Text → AgentRuntime F → Dict Blob → AgentRuntime F × Dict Blob
  unfolding persist
  set_system_prompt write system agent files =
      let agent' = record agent { session = record agent.session { system_prompt = system } } in
      (agent', persist write agent' files)

  -- A message at the end of the history, which is indexed under its number.
  unfoldable pub push_message : Text → Text → AgentRuntime F → AgentRuntime F
  push_message role content agent =
      let msg = message_of role content in
      record agent {
        session = record agent.session { messages = agent.session.messages ++ msg ∷ [] };
        memory_store =
            add_message w.floats w.unicode (length agent.session.messages) msg agent.memory_store;
      }

-- `messages`: the last ones, at most `limit`.
unfoldable pub messages : {F : Type 0} → ℕ → AgentRuntime F → List ChatMessage
messages limit agent =
    let all = agent.session.messages in let n = min limit (length all) in drop (length all - n) all

unfoldable pub turn_line : ChatMessage → Text
turn_line m = codes "- " ++ (m.role ++ (codes ": " ++ (take 300 m.content ++ 10 ∷ [])))

unfoldable pub turn_lines : List ChatMessage → Text
unfolding turn_line
turn_lines [] = []
turn_lines (m ∷ ms) = turn_line m ++ turn_lines ms

-- The byte length decides how many characters are skipped.
unfoldable pub keep_end : Text → Text
keep_end s = if ltb 4000 (text_len s) then drop (text_len s - 4000) s else s

unfoldable pub naive_summary : Text → List ChatMessage → Text
unfolding keep_end turn_lines
naive_summary summary turn = keep_end (summary ++ turn_lines turn)

-- The summary after a turn.
unfoldable pub next_summary :
    Option (Text → List ChatMessage → Option Text) → Text → List ChatMessage → Text
unfolding naive_summary
next_summary none summary turn = naive_summary summary turn
next_summary (some local) summary turn = elim (local summary turn) [
  | some s ↦ s
  | none ↦ naive_summary summary turn
]

module _ {Blob F Source : Type 0} (w : World Blob F Source) where
  unfoldable pub update_summary : AgentRuntime F → AgentRuntime F
  update_summary agent =
      let (red, turn) =
        redact_messages w.crypto w.patterns agent.redact_mode agent.extra_terms
          (take_last 2 agent.session.messages) agent.redactor in
      record agent {
        redactor = red;
        session = record agent.session {
          summary = next_summary w.local_ai agent.session.summary turn;
        };
      }
