-- ===== src/Client/Api/Serve.antt =====
-- client/src/api.rs: the endpoints of the local HTTP API, each with its own check of the key.
use zk_llm_gateway.Prelude.{ℕ, Option, none, some, List}
use zk_llm_gateway.Prelude.Text.{Text}
use zk_llm_gateway.Prelude.Result.{Result, ok, err}
use zk_llm_gateway.Client.Agent.{World}
use zk_llm_gateway.Client.Manager.{AgentManager, ManagerError, create_session}
use zk_llm_gateway.Client.Api.{
  not_created, created, Action, get_session, get_memory, post_save, get_messages, post_chat,
  post_chat_stream, post_redaction_term, post_system, post_memory, post_memory_search, ApiDraw,
  ApiState, Answered, check_api_key, and_then,
}
use zk_llm_gateway.Client.Api.Handlers.{
  get_session_view_for, get_messages_for, post_chat_for, post_chat_stream_for, get_memory_for,
  post_memory_for, post_memory_search_for, post_redaction_term_for, post_system_for, post_save_for,
}

module _ {Blob F Source : Type 0} (w : World Blob F Source) where
  unfoldable pub get_session_default :
      ApiDraw → Option Text → ApiState Blob F Source → Answered Blob F Source
  get_session_default d header st =
      and_then (check_api_key header st.api_key) st
        (get_session_view_for w d st.default_session_id st)

  unfoldable pub get_session_by_id :
      ApiDraw → Option Text → Text → ApiState Blob F Source → Answered Blob F Source
  get_session_by_id d header id st =
      and_then (check_api_key header st.api_key) st (get_session_view_for w d id st)

  unfoldable pub get_messages_default :
      ApiDraw → Option Text → ℕ → ApiState Blob F Source → Answered Blob F Source
  get_messages_default d header limit st =
      and_then (check_api_key header st.api_key) st
        (get_messages_for w d st.default_session_id limit st)

  unfoldable pub get_messages_by_id :
      ApiDraw → Option Text → Text → ℕ → ApiState Blob F Source → Answered Blob F Source
  get_messages_by_id d header id limit st =
      and_then (check_api_key header st.api_key) st (get_messages_for w d id limit st)

  unfoldable pub post_chat_default :
      ApiDraw → Option Text → Text → ApiState Blob F Source → Answered Blob F Source
  post_chat_default d header text st =
      and_then (check_api_key header st.api_key) st
        (post_chat_for w d st.default_session_id text st)

  unfoldable pub post_chat_by_id :
      ApiDraw → Option Text → Text → Text → ApiState Blob F Source → Answered Blob F Source
  post_chat_by_id d header id text st =
      and_then (check_api_key header st.api_key) st (post_chat_for w d id text st)

  unfoldable pub post_chat_stream_default :
      ApiDraw → Option Text → Text → ApiState Blob F Source → Answered Blob F Source
  post_chat_stream_default d header text st =
      post_chat_stream_for w d header st.default_session_id text st

  unfoldable pub post_chat_stream_by_id :
      ApiDraw → Option Text → Text → Text → ApiState Blob F Source → Answered Blob F Source
  post_chat_stream_by_id d header id text st = post_chat_stream_for w d header id text st

  unfoldable pub get_memory_default :
      ApiDraw → Option Text → ApiState Blob F Source → Answered Blob F Source
  get_memory_default d header st =
      and_then (check_api_key header st.api_key) st (get_memory_for w d st.default_session_id st)

  unfoldable pub get_memory_by_id :
      ApiDraw → Option Text → Text → ApiState Blob F Source → Answered Blob F Source
  get_memory_by_id d header id st =
      and_then (check_api_key header st.api_key) st (get_memory_for w d id st)

  unfoldable pub post_memory_default :
      ApiDraw → Option Text → Text → List Text → ApiState Blob F Source → Answered Blob F Source
  post_memory_default d header text tags st =
      and_then (check_api_key header st.api_key) st
        (post_memory_for w d st.default_session_id text tags st)

  unfoldable pub post_memory_by_id :
      ApiDraw
      → Option Text
      → Text
      → Text
      → List Text
      → ApiState Blob F Source
      → Answered Blob F Source
  post_memory_by_id d header id text tags st =
      and_then (check_api_key header st.api_key) st (post_memory_for w d id text tags st)

  unfoldable pub post_memory_search_default :
      ApiDraw → Option Text → Text → ℕ → ApiState Blob F Source → Answered Blob F Source
  post_memory_search_default d header query k st =
      and_then (check_api_key header st.api_key) st
        (post_memory_search_for w d st.default_session_id query k st)

  unfoldable pub post_memory_search_by_id :
      ApiDraw → Option Text → Text → Text → ℕ → ApiState Blob F Source → Answered Blob F Source
  post_memory_search_by_id d header id query k st =
      and_then (check_api_key header st.api_key) st (post_memory_search_for w d id query k st)

  unfoldable pub post_redaction_term_default :
      ApiDraw → Option Text → Text → ApiState Blob F Source → Answered Blob F Source
  post_redaction_term_default d header term st =
      and_then (check_api_key header st.api_key) st
        (post_redaction_term_for w d st.default_session_id term st)

  unfoldable pub post_redaction_term_by_id :
      ApiDraw → Option Text → Text → Text → ApiState Blob F Source → Answered Blob F Source
  post_redaction_term_by_id d header id term st =
      and_then (check_api_key header st.api_key) st (post_redaction_term_for w d id term st)

  unfoldable pub post_system_default :
      ApiDraw → Option Text → Text → ApiState Blob F Source → Answered Blob F Source
  post_system_default d header system st =
      and_then (check_api_key header st.api_key) st
        (post_system_for w d st.default_session_id system st)

  unfoldable pub post_system_by_id :
      ApiDraw → Option Text → Text → Text → ApiState Blob F Source → Answered Blob F Source
  post_system_by_id d header id system st =
      and_then (check_api_key header st.api_key) st (post_system_for w d id system st)

  unfoldable pub post_save_default :
      ApiDraw → Option Text → ApiState Blob F Source → Answered Blob F Source
  post_save_default d header st =
      and_then (check_api_key header st.api_key) st (post_save_for w d st.default_session_id st)

  unfoldable pub post_save_by_id :
      ApiDraw → Option Text → Text → ApiState Blob F Source → Answered Blob F Source
  post_save_by_id d header id st =
      and_then (check_api_key header st.api_key) st (post_save_for w d id st)

  -- The routes of a session: without an id, the endpoints of the default session.
  unfoldable pub handle :
      ApiDraw → Option Text → Option Text → Action → ApiState Blob F Source → Answered Blob F Source
  handle d header none get_session = get_session_default d header
  handle d header (some id) get_session = get_session_by_id d header id
  handle d header none (get_messages limit) = get_messages_default d header limit
  handle d header (some id) (get_messages limit) = get_messages_by_id d header id limit
  handle d header none (post_chat text) = post_chat_default d header text
  handle d header (some id) (post_chat text) = post_chat_by_id d header id text
  handle d header none (post_chat_stream text) = post_chat_stream_default d header text
  handle d header (some id) (post_chat_stream text) = post_chat_stream_by_id d header id text
  handle d header none get_memory = get_memory_default d header
  handle d header (some id) get_memory = get_memory_by_id d header id
  handle d header none (post_memory text tags) = post_memory_default d header text tags
  handle d header (some id) (post_memory text tags) = post_memory_by_id d header id text tags
  handle d header none (post_memory_search query k) = post_memory_search_default d header query k
  handle d header (some id) (post_memory_search query k) =
      post_memory_search_by_id d header id query k
  handle d header none (post_redaction_term term) = post_redaction_term_default d header term
  handle d header (some id) (post_redaction_term term) = post_redaction_term_by_id d header id term
  handle d header none (post_system system) = post_system_default d header system
  handle d header (some id) (post_system system) = post_system_by_id d header id system
  handle d header none post_save = post_save_default d header
  handle d header (some id) post_save = post_save_by_id d header id

  unfoldable pub created_or_not :
      ApiState Blob F Source
      → Result ManagerError (Text × AgentManager Blob F)
      → Answered Blob F Source
  created_or_not st (err e) = (err (not_created e), st)
  created_or_not st (ok (id, m)) = (ok (created id), record st { manager = m })

  -- Without an id under a new one, without a prompt with the default one.
  unfoldable pub make_session :
      ApiDraw → Option Text → Option Text → ApiState Blob F Source → Answered Blob F Source
  unfolding created_or_not
  make_session d session_id system st = created_or_not st (
      create_session w d.load (elim session_id [ none ↦ d.new_id | some id ↦ id ])
        (elim system [ none ↦ st.manager.cfg.default_system_prompt | some s ↦ s ]) st.manager)

  -- The endpoint `create_session`.
  unfoldable pub post_session :
      ApiDraw
      → Option Text
      → Option Text
      → Option Text
      → ApiState Blob F Source
      → Answered Blob F Source
  post_session d header session_id system st =
      and_then (check_api_key header st.api_key) st (make_session d session_id system st)
