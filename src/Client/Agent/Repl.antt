-- ===== src/Client/Agent/Repl.antt =====
-- client/src/agent.rs: `repl`, a line of input and what it does to the agent. What is printed is left
-- out.
use zk_llm_gateway.Prelude.{
  ℕ, Bool, true, false, ◌||◌, Option, none, some, List, [], ◌∷◌, if◌then◌else◌, length, drop,
}
use zk_llm_gateway.Prelude.Text.{Text, codes, bytes_eq}
use zk_llm_gateway.Prelude.Strings.{Dict, trim, starts_with}
use zk_llm_gateway.Client.Agent.{
  World, AgentRuntime, remember, add_redaction_term, set_system_prompt,
}
use zk_llm_gateway.Client.Agent.Turn.{Draw, send_user_message}

pub data Command : Type 0 where
  leave nothing help show_memory : Command
  note query redact_term system chat : Text → Command

unfoldable pub strip_prefix : Text → Text → Option Text
strip_prefix prefix s = if starts_with prefix s then some (drop (length prefix) s) else none

unfoldable pub or_else : (Text → Command) → Option Text → Command → Command
or_else f none other = other
or_else f (some rest) other = f rest

unfoldable pub parse_command : Text → Command
unfolding strip_prefix or_else
parse_command input =
    let line = trim input in
    if bytes_eq line []
    then nothing
    else if bytes_eq line (codes "/exit") || bytes_eq line (codes "/quit")
    then leave
    else if bytes_eq line (codes "/help")
    then help
    else or_else note (strip_prefix (codes "/remember ") line) (
        if bytes_eq line (codes "/memory")
        then show_memory
        else or_else query (strip_prefix (codes "/search ") line) (
            or_else redact_term (strip_prefix (codes "/redact ") line)
              (or_else system (strip_prefix (codes "/system ") line) (chat line))))

-- The id and the time of a new memory item, and what a turn draws.
pub record Input : Type 0 where
  pub line : Text
  pub id : ℕ
  pub now : ℕ
  pub draw : Draw

module _ {Blob F Source : Type 0} (w : World Blob F Source) where
  unfoldable pub run_command :
      Command → Input → AgentRuntime F × Source × Dict Blob → AgentRuntime F × Source × Dict Blob
  run_command (note text) input (agent, src, files) =
      let (agent', files') = remember w input.draw.write input.id input.now text [] agent files in
      (agent', src, files')
  run_command (redact_term term) input (agent, src, files) =
      let (agent', files') = add_redaction_term w input.draw.write term agent files in
      (agent', src, files')
  run_command (system prompt) input (agent, src, files) =
      let (agent', files') = set_system_prompt w input.draw.write prompt agent files in
      (agent', src, files')
  run_command (chat text) input (agent, src, files) =
      let (out, agent', src', files') = send_user_message w input.draw text agent src files in
      (agent', src', files')
  run_command _ input state = state

  unfoldable pub is_leave : Command → Bool
  is_leave leave = true
  is_leave _ = false

  -- The loop, over the lines that are read.
  unfoldable pub repl :
      List Input → AgentRuntime F × Source × Dict Blob → AgentRuntime F × Source × Dict Blob
  unfolding run_command is_leave
  repl [] state = state
  repl (input ∷ inputs) state =
      let command = parse_command input.line in
      let rest = repl inputs (run_command command input state) in
      if is_leave command then state else rest
