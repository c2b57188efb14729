-- ===== src/Client/Agent/Invariant.antt =====
-- What every operation of the agent preserves: its redactor can be stored and opened again, and its
-- index is true to its documents.
use zk_llm_gateway.Prelude.{ℕ, inl, inr, Bool, ◌||◌, Option, none, some, List, [], ◌∷◌, Bool-cases}
use zk_llm_gateway.Prelude.Text.{Text, codes}
use zk_llm_gateway.Prelude.Strings.{Dict, is_blank, has_text}
use zk_llm_gateway.Prelude.Result.{Result, ok, err}
use zk_llm_gateway.Crypto.{Crypto}
use zk_llm_gateway.Types.{ChatMessage, InferenceResponse}
use zk_llm_gateway.Client.Redaction.{
  RedactMode, Redactor, Patterns, add_custom_term, redact, rehydrate,
}
use zk_llm_gateway.Client.Redaction.Consistency.{IsConsistent, redact-IsConsistent}
use zk_llm_gateway.Client.Session.{Session}
use zk_llm_gateway.Client.MemoryStore.{RetrievedContext, add_message, add_memory_item}
use zk_llm_gateway.Client.MemoryStore.Index.{IsIndex, add_doc-IsIndex, rebuild_from_session-IsIndex}
use zk_llm_gateway.Client.Prompt.{take_last}
use zk_llm_gateway.Client.Prompt.Assembly.{
  PromptBuildConfig, memory_text, redact_messages, context_message, assemble,
  build_remote_messages_with_retrieval,
}
use zk_llm_gateway.Client.Agent.{
  World, AgentRuntime, Write, add_terms, new, remember, add_redaction_term, set_system_prompt,
  push_message, update_summary,
}
use zk_llm_gateway.Client.Agent.Turn.{
  AgentError, Draw, obtain, finish, concluded, with_prompt, with_context, send_user_message,
}
use zk_llm_gateway.Client.Agent.Repl.{
  Command, leave, nothing, help, show_memory, note, query, redact_term, system, chat, Input,
  parse_command, run_command, is_leave, repl,
}

module _ (c : Crypto) where
  add_custom_term-IsConsistent :
      (term : Text) (red : Redactor)
      → IsConsistent c red
      → IsConsistent c (add_custom_term term red)
  unfolding add_custom_term IsConsistent
  add_custom_term-IsConsistent term red p =
      elim (Bool-cases (is_blank term || has_text term red.state.custom_terms)) [
        | inl e ↦ rw e p
        | inr e ↦ rw e p
      ]

  add_terms-IsConsistent :
      (terms : List Text) (red : Redactor)
      → IsConsistent c red
      → IsConsistent c (add_terms terms red)
  unfolding add_terms
  add_terms-IsConsistent [] red p = p
  add_terms-IsConsistent (t ∷ ts) red p =
      add_terms-IsConsistent ts (add_custom_term t red) (add_custom_term-IsConsistent t red p)

  module _ (pats : Patterns) (mode : RedactMode) (terms : List Text) where
    redact_messages-IsConsistent :
        (ms : List ChatMessage) (red : Redactor)
        → IsConsistent c red
        → IsConsistent c (redact_messages c pats mode terms ms red).0
    unfolding redact_messages
    redact_messages-IsConsistent [] red p = p
    redact_messages-IsConsistent (m ∷ ms) red p =
        redact_messages-IsConsistent ms (redact c pats mode terms m.content red).0
          (redact-IsConsistent c pats mode terms m.content red p)

    context_message-IsConsistent :
        (text : Text) (red : Redactor)
        → IsConsistent c red
        → IsConsistent c (context_message c pats mode terms text red).0
    unfolding context_message
    context_message-IsConsistent text red p = elim (Bool-cases (is_blank text)) [
      | inl e ↦ rw e p
      | inr e ↦ rw e (redact-IsConsistent c pats mode terms text red p)
    ]

    assemble-IsConsistent :
        (cfg : PromptBuildConfig) (session : Session) (retrieved : RetrievedContext)
        (red : Redactor)
        → IsConsistent c red
        → IsConsistent c (assemble c pats mode terms cfg session retrieved red).0
    unfolding assemble
    assemble-IsConsistent cfg session retrieved red p =
        redact_messages-IsConsistent (take_last cfg.max_recent_messages session.messages) _ (
          context_message-IsConsistent (memory_text cfg session.summary retrieved) _
            (redact-IsConsistent c pats mode terms session.system_prompt red p))

module _ {Blob F Source : Type 0} (w : World Blob F Source) where
  pub record IsSound (agent : AgentRuntime F) : Type 0 where
    pub consistent : IsConsistent w.crypto agent.redactor
    pub indexed : IsIndex w.floats w.unicode agent.memory_store

  -- An agent that is made from a consistent redactor is sound, whatever its session holds.
  new-IsSound :
      (write : Write) (index_messages : Bool) (max_messages : ℕ) (agent : AgentRuntime F)
      (files : Dict Blob)
      → IsConsistent w.crypto agent.redactor
      → IsSound (new w write index_messages max_messages agent files).0
  unfolding new
  new-IsSound write index_messages max_messages agent files p = record {
    consistent =
        add_terms-IsConsistent w.crypto agent.extra_terms _
          (add_terms-IsConsistent w.crypto agent.session.redaction.custom_terms agent.redactor p);
    indexed =
        (rebuild_from_session-IsIndex w.floats w.unicode w.uuid_text agent.session.memory
          agent.session.messages index_messages max_messages).0;
  }

  push_message-IsSound :
      (role content : Text) (agent : AgentRuntime F)
      → IsSound agent
      → IsSound (push_message w role content agent)
  unfolding push_message add_message
  push_message-IsSound role content agent is = record {
    consistent = is.consistent;
    indexed = (add_doc-IsIndex w.floats w.unicode _ agent.memory_store is.indexed).0;
  }

  update_summary-IsSound :
      (agent : AgentRuntime F) → IsSound agent → IsSound (update_summary w agent)
  unfolding update_summary
  update_summary-IsSound agent is = record {
    consistent =
        redact_messages-IsConsistent w.crypto w.patterns agent.redact_mode agent.extra_terms
          (take_last 2 agent.session.messages) agent.redactor is.consistent;
    indexed = is.indexed;
  }

  concluded-IsSound :
      (draw : Draw) (agent : AgentRuntime F) (files : Dict Blob)
      (answer : Result AgentError InferenceResponse)
      → IsSound agent
      → IsSound (concluded w draw agent files answer).1
  unfolding concluded finish
  concluded-IsSound draw agent files (err failure) is = is
  concluded-IsSound draw agent files (ok r) is =
      let end =
        update_summary-IsSound _
          (push_message-IsSound (codes "assistant") (rehydrate agent.redactor r.output) agent is) in
      record { consistent = end.consistent; indexed = end.indexed }

  with_prompt-IsSound :
      (draw : Draw) (agent : AgentRuntime F) (src : Source) (files : Dict Blob)
      (built : Option (List ChatMessage))
      → IsSound agent
      → IsSound (with_prompt w draw agent src files built).1
  unfolding with_prompt
  with_prompt-IsSound draw agent src files none is = is
  with_prompt-IsSound draw agent src files (some messages) is =
      concluded-IsSound draw agent files (obtain w draw agent messages src).0 is

  with_context-IsSound :
      (draw : Draw) (agent : AgentRuntime F) (src : Source) (files : Dict Blob)
      (retrieved : Option RetrievedContext)
      → IsSound agent
      → IsSound (with_context w draw agent src files retrieved).1
  unfolding with_context build_remote_messages_with_retrieval
  with_context-IsSound draw agent src files none is = is
  with_context-IsSound draw agent src files (some retrieved) is =
      let (red, built) =
        build_remote_messages_with_retrieval w.crypto w.patterns agent.redact_mode agent.extra_terms
          draw.fuel draw.filler agent.token_class agent.prompt_cfg agent.session retrieved
          agent.redactor in
      with_prompt-IsSound draw (record agent { redactor = red }) src files built
        (record {
          consistent =
              assemble-IsConsistent w.crypto w.patterns agent.redact_mode agent.extra_terms
                agent.prompt_cfg agent.session retrieved agent.redactor is.consistent;
          indexed = is.indexed;
        })

  run_command-IsSound :
      (command : Command) (input : Input) (agent : AgentRuntime F) (src : Source)
      (files : Dict Blob)
      → IsSound agent
      → IsSound (run_command w command input (agent, src, files)).0
  unfolding run_command remember add_memory_item add_redaction_term set_system_prompt
      send_user_message
  run_command-IsSound leave input agent src files is = is
  run_command-IsSound nothing input agent src files is = is
  run_command-IsSound help input agent src files is = is
  run_command-IsSound show_memory input agent src files is = is
  run_command-IsSound (query t) input agent src files is = is
  run_command-IsSound (note t) input agent src files is = record {
    consistent = is.consistent;
    indexed = (add_doc-IsIndex w.floats w.unicode _ agent.memory_store is.indexed).0;
  }
  run_command-IsSound (redact_term t) input agent src files is = record {
    consistent = add_custom_term-IsConsistent w.crypto t agent.redactor is.consistent;
    indexed = is.indexed;
  }
  run_command-IsSound (system t) input agent src files is = record {
    consistent = is.consistent;
    indexed = is.indexed;
  }
  run_command-IsSound (chat t) input agent src files is =
      with_context-IsSound input.draw _ src files _ (push_message-IsSound (codes "user") t agent is)

  repl-keeps :
      (inputs : List Input) (agent : AgentRuntime F) (src : Source) (files : Dict Blob)
      → IsSound agent
      → IsSound (repl w inputs (agent, src, files)).0
  unfolding repl
  repl-keeps [] agent src files is = is
  repl-keeps (input ∷ inputs) agent src files is =
      let command = parse_command input.line in
      let (agent', src', files') = run_command w command input (agent, src, files) in
      elim (Bool-cases (is_leave w command)) [
        | inl e ↦ rw e is
        | inr e ↦ rw e (
            repl-keeps inputs agent' src' files'
              (run_command-IsSound command input agent src files is))
      ]

  -- Whatever lines are typed, and whatever the provider, the local model and the file system answer:
  -- an agent that was made from a consistent redactor has a redactor that can be stored and opened
  -- again without loss, and an index that is exactly the index of its documents.
  pub repl-IsSound :
      (write : Write) (index_messages : Bool) (max_messages : ℕ) (agent : AgentRuntime F)
      (files : Dict Blob) (inputs : List Input) (src : Source)
      → IsConsistent w.crypto agent.redactor
      → (let (agent', files') = new w write index_messages max_messages agent files in
          IsSound (repl w inputs (agent', src, files')).0)
  repl-IsSound write index_messages max_messages agent files inputs src p =
      repl-keeps inputs _ src _ (new-IsSound write index_messages max_messages agent files p)
