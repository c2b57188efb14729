-- ===== src/Client/Agent/State.antt =====
-- What a turn does to the agent.
use zk_llm_gateway.Prelude.{
  ◌≡◌, refl, ap, ◌∙◌, Option, none, some, List, [], ◌∷◌, ◌++◌, append_assoc,
}
use zk_llm_gateway.Prelude.Text.{Text, codes}
use zk_llm_gateway.Prelude.Strings.{Dict}
use zk_llm_gateway.Prelude.Result.{Result, ok, err}
use zk_llm_gateway.Types.{ChatMessage, InferenceResponse}
use zk_llm_gateway.Client.Redaction.{rehydrate}
use zk_llm_gateway.Client.MemoryStore.{RetrievedContext}
use zk_llm_gateway.Client.Prompt.Assembly.{message_of, build_remote_messages_with_retrieval}
use zk_llm_gateway.Client.Agent.{World, AgentRuntime, push_message, update_summary}
use zk_llm_gateway.Client.Agent.Turn.{
  AgentError, Draw, obtain, finish, concluded, with_prompt, with_context, send_user_message,
}

-- The history after a turn: the user's message always, the answer with it when there is one; the file
-- is written only with an answer.
abbrev pub Recorded :
    {Blob F : Type 0}
    → Text
    → AgentRuntime F
    → Dict Blob
    → Result AgentError Text
    → AgentRuntime F
    → Dict Blob
    → Type 0
Recorded msg before files (err failure) after files' =
    (after.session.messages ≡ before.session.messages ++ message_of (codes "user") msg ∷ [])
    × (files' ≡ files)
Recorded msg before files (ok out) after files' =
    (after.session.messages
      ≡ before.session.messages
        ++ message_of (codes "user") msg ∷ message_of (codes "assistant") out ∷ [])
    × (after.session.redaction ≡ after.redactor.state)

module _ {Blob F Source : Type 0} (w : World Blob F Source) where
  concluded-Recorded :
      (draw : Draw) (msg : Text) (before agent : AgentRuntime F) (files : Dict Blob)
      (answer : Result AgentError InferenceResponse)
      → agent.session.messages ≡ before.session.messages ++ message_of (codes "user") msg ∷ []
      → (let (out, agent', files') = concluded w draw agent files answer in
          Recorded msg before files out agent' files')
  unfolding concluded finish update_summary push_message
  concluded-Recorded draw msg before agent files (err failure) pushed = (pushed, refl)
  concluded-Recorded draw msg before agent files (ok r) pushed = (
    ap
          (λ (ms : List ChatMessage).
            ms ++ message_of (codes "assistant") (rehydrate agent.redactor r.output) ∷ [])
          pushed
        ∙ append_assoc before.session.messages (message_of (codes "user") msg ∷ [])
            (message_of (codes "assistant") (rehydrate agent.redactor r.output) ∷ []),
    refl,
  )

  with_prompt-Recorded :
      (draw : Draw) (msg : Text) (before agent : AgentRuntime F) (src : Source) (files : Dict Blob)
      (built : Option (List ChatMessage))
      → agent.session.messages ≡ before.session.messages ++ message_of (codes "user") msg ∷ []
      → (let (out, agent', src', files') = with_prompt w draw agent src files built in
          Recorded msg before files out agent' files')
  unfolding with_prompt
  with_prompt-Recorded draw msg before agent src files none pushed = (pushed, refl)
  with_prompt-Recorded draw msg before agent src files (some messages) pushed =
      concluded-Recorded draw msg before agent files (obtain w draw agent messages src).0 pushed

  with_context-Recorded :
      (draw : Draw) (msg : Text) (before agent : AgentRuntime F) (src : Source) (files : Dict Blob)
      (retrieved : Option RetrievedContext)
      → agent.session.messages ≡ before.session.messages ++ message_of (codes "user") msg ∷ []
      → (let (out, agent', src', files') = with_context w draw agent src files retrieved in
          Recorded msg before files out agent' files')
  unfolding with_context
  with_context-Recorded draw msg before agent src files none pushed = (pushed, refl)
  with_context-Recorded draw msg before agent src files (some retrieved) pushed =
      let (red, built) =
        build_remote_messages_with_retrieval w.crypto w.patterns agent.redact_mode agent.extra_terms
          draw.fuel draw.filler agent.token_class agent.prompt_cfg agent.session retrieved
          agent.redactor in
      with_prompt-Recorded draw msg before (record agent { redactor = red }) src files built pushed

  -- After a turn the history has the user's message at its end, and after it the answer that is
  -- returned, when there is one; then the stored redaction state is the redactor's. A turn that fails,
  -- in whatever step, leaves the message in the history and does not write the file.
  pub send_user_message-Recorded :
      (draw : Draw) (msg : Text) (agent : AgentRuntime F) (src : Source) (files : Dict Blob)
      → (let (out, agent', src', files') = send_user_message w draw msg agent src files in
          Recorded msg agent files out agent' files')
  unfolding send_user_message push_message
  send_user_message-Recorded draw msg agent src files =
      with_context-Recorded draw msg agent (push_message w (codes "user") msg agent) src files _
        refl
