-- ===== src/Client/Api/Handlers.antt =====
-- client/src/api.rs: the work of each endpoint of a session, on the session that it is given.
use zk_llm_gateway.Prelude.{ℕ, ◌-◌, max, Option, none, some, List, length}
use zk_llm_gateway.Prelude.Text.{Text}
use zk_llm_gateway.Prelude.Result.{Result, ok, err}
use zk_llm_gateway.Client.Agent.{
  World, messages, remember, add_redaction_term, set_system_prompt, persist,
}
use zk_llm_gateway.Client.Agent.Turn.{send_user_message}
use zk_llm_gateway.Client.MemoryStore.{RetrievedContext}
use zk_llm_gateway.Client.MemoryStore.Query.{retrieve_context}
use zk_llm_gateway.Client.Api.{
  ApiError, panicked, Reply, view, message_list, memory_list, found, ok_reply, stream, Action,
  get_session, get_memory, post_save, get_messages, post_chat, post_chat_stream,
  post_redaction_term, post_system, post_memory, post_memory_search, ApiDraw, ApiState,
  check_api_key, Answered, and_then, with_agent, stream_events, chat_result,
}

found_or_panic : Option RetrievedContext → Result ApiError Reply
found_or_panic none = err panicked
found_or_panic (some ctx) = ok (found ctx)

module _ {Blob F Source : Type 0} (w : World Blob F Source) where
  unfoldable pub get_session_view_for :
      ApiDraw → Text → ApiState Blob F Source → Answered Blob F Source
  get_session_view_for d id st =
      with_agent w d id
        (λ agent src files. (
          ok (
              view (record {
                session_id = id;
                system_prompt = agent.session.system_prompt;
                summary = agent.session.summary;
                message_count = length agent.session.messages;
                memory_count = length agent.session.memory;
                token_class = agent.token_class;
                model = agent.model;
                session_path = agent.session_path;
              })),
          agent,
          src,
          files,
        ))
        st

  unfoldable pub get_messages_for :
      ApiDraw → Text → ℕ → ApiState Blob F Source → Answered Blob F Source
  get_messages_for d id limit st =
      with_agent w d id
        (λ agent src files. (ok (message_list (messages limit agent)), agent, src, files)) st

  unfoldable pub post_chat_for :
      ApiDraw → Text → Text → ApiState Blob F Source → Answered Blob F Source
  post_chat_for d id text st =
      with_agent w d id
        (λ agent src files.
          let (out, agent', src', files') = send_user_message w d.draw text agent src files in
          (chat_result out, agent', src', files'))
        st

  -- What the task of a streamed chat does, once the agent is there.
  unfoldable pub stream_chat :
      ApiDraw → Text → Text → ApiState Blob F Source → Answered Blob F Source
  stream_chat d id text st =
      with_agent w d id
        (λ agent src files.
          let (out, agent', src', files') = send_user_message w d.draw text agent src files in
          (
            ok (stream (stream_events d.stream_id id (max st.stream_chunk_chars 1) out)),
            agent',
            src',
            files',
          ))
        st

  unfoldable pub get_memory_for : ApiDraw → Text → ApiState Blob F Source → Answered Blob F Source
  get_memory_for d id st =
      with_agent w d id
        (λ agent src files. (ok (memory_list agent.session.memory), agent, src, files)) st

  unfoldable pub post_memory_for :
      ApiDraw → Text → Text → List Text → ApiState Blob F Source → Answered Blob F Source
  post_memory_for d id text tags st =
      with_agent w d id
        (λ agent src files.
          let (agent', files') = remember w d.draw.write d.memory_id d.now text tags agent files in
          (ok ok_reply, agent', src, files'))
        st

  unfoldable pub post_memory_search_for :
      ApiDraw → Text → Text → ℕ → ApiState Blob F Source → Answered Blob F Source
  unfolding found_or_panic
  post_memory_search_for d id query k st =
      with_agent w d id
        (λ agent src files.
          let exclude_cutoff =
            length agent.session.messages - agent.prompt_cfg.max_recent_messages in
          (
            found_or_panic (
                retrieve_context w.floats w.unicode query k k (some exclude_cutoff)
                  agent.memory_store),
            agent,
            src,
            files,
          ))
        st

  unfoldable pub post_redaction_term_for :
      ApiDraw → Text → Text → ApiState Blob F Source → Answered Blob F Source
  post_redaction_term_for d id term st =
      with_agent w d id
        (λ agent src files.
          let (agent', files') = add_redaction_term w d.draw.write term agent files in
          (ok ok_reply, agent', src, files'))
        st

  unfoldable pub post_system_for :
      ApiDraw → Text → Text → ApiState Blob F Source → Answered Blob F Source
  post_system_for d id system st =
      with_agent w d id
        (λ agent src files.
          let (agent', files') = set_system_prompt w d.draw.write system agent files in
          (ok ok_reply, agent', src, files'))
        st

  unfoldable pub post_save_for : ApiDraw → Text → ApiState Blob F Source → Answered Blob F Source
  post_save_for d id st =
      with_agent w d id
        (λ agent src files. (ok ok_reply, agent, src, persist w d.draw.write agent files)) st

  -- The streamed chat checks the key itself.
  unfoldable pub post_chat_stream_for :
      ApiDraw → Option Text → Text → Text → ApiState Blob F Source → Answered Blob F Source
  post_chat_stream_for d header id text st =
      and_then (check_api_key header st.api_key) st (stream_chat d id text st)

  -- The work that an action asks for.
  unfoldable pub work_of : ApiDraw → Text → Action → ApiState Blob F Source → Answered Blob F Source
  work_of d id get_session = get_session_view_for d id
  work_of d id (get_messages limit) = get_messages_for d id limit
  work_of d id (post_chat text) = post_chat_for d id text
  work_of d id (post_chat_stream text) = stream_chat d id text
  work_of d id get_memory = get_memory_for d id
  work_of d id (post_memory text tags) = post_memory_for d id text tags
  work_of d id (post_memory_search query k) = post_memory_search_for d id query k
  work_of d id (post_redaction_term term) = post_redaction_term_for d id term
  work_of d id (post_system system) = post_system_for d id system
  work_of d id post_save = post_save_for d id
