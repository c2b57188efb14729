-- ===== src/Client/Api/Access.antt =====
-- Who may do what through the local API, and what a request leaves alone.
use zk_llm_gateway.Prelude.{
  ◌≡◌, refl, sym, ap, ◌∙◌, ◌⊎◌, inl, inr, false, ◌≢◌, false≢true, Option, none, some, [],
  Bool-cases, subst,
}
use zk_llm_gateway.Prelude.Text.{Text, bytes_eq, bytes_eq_iff}
use zk_llm_gateway.Prelude.Strings.{Dict, lookup}
use zk_llm_gateway.Prelude.Dicts.{lookup-put_apart}
use zk_llm_gateway.Prelude.Result.{Result, ok, err, guard}
use zk_llm_gateway.Client.Agent.{World, AgentRuntime}
use zk_llm_gateway.Client.Manager.{AgentManager, ManagerError, get_or_load}
use zk_llm_gateway.Client.Manager.Loading.{get_or_load-IsLoaded}
use zk_llm_gateway.Client.Api.{
  ApiError, unauthorized, Action, get_session, get_memory, post_save, get_messages, post_chat,
  post_chat_stream, post_redaction_term, post_system, post_memory, post_memory_search, ApiDraw,
  ApiState, check_api_key, Answered, and_then, on_agent, with_agent, Work,
}
use zk_llm_gateway.Client.Api.Handlers.{
  work_of, post_chat_stream_for, get_session_view_for, get_messages_for, post_chat_for, stream_chat,
  get_memory_for, post_memory_for, post_memory_search_for, post_redaction_term_for, post_system_for,
  post_save_for,
}
use zk_llm_gateway.Client.Api.Serve.{
  handle, make_session, post_session, get_session_default, get_session_by_id, get_messages_default,
  get_messages_by_id, post_chat_default, post_chat_by_id, post_chat_stream_default,
  post_chat_stream_by_id, get_memory_default, get_memory_by_id, post_memory_default,
  post_memory_by_id, post_memory_search_default, post_memory_search_by_id,
  post_redaction_term_default, post_redaction_term_by_id, post_system_default, post_system_by_id,
  post_save_default, post_save_by_id,
}

-- The session that a path names.
abbrev pub asked : {Blob F Source : Type 0} → ApiState Blob F Source → Option Text → Text
asked st none = st.default_session_id
asked st (some id) = id

abbrev pub given : Option Text → Text
given none = []
given (some got) = got

-- No key is set, or the header is the key; a header that is not there counts as an empty one.
abbrev pub Allowed : Option Text → Option Text → Type 0
Allowed header key = (key ≡ none) ⊎ (key ≡ some (given header))

-- A request that is allowed in has the outcome `inside`; every other one is unauthorized and changes
-- nothing.
abbrev pub IsGuarded :
    {Blob F Source : Type 0}
    → Option Text
    → ApiState Blob F Source
    → Answered Blob F Source
    → Answered Blob F Source
    → Type 0
IsGuarded header st out inside =
    (Allowed header st.api_key × (out ≡ inside))
    ⊎ (¬ Allowed header st.api_key × (out ≡ (err unauthorized, st)))

guard_given :
    (key : Option Text) (got expected : Text)
    → key ≡ some expected
    → ((key ≡ some got) × (guard (bytes_eq got expected) unauthorized ≡ ok tt))
      ⊎ ((key ≢ some got) × (guard (bytes_eq got expected) unauthorized ≡ err unauthorized))
guard_given key got expected set = elim (Bool-cases (bytes_eq got expected)) [
  | inl e ↦ inl (set ∙ ap some (sym ((bytes_eq_iff got expected).0 e)), rw e refl)
  | inr e ↦ inr (
    (λ same. let eq : got ≡ expected = cc in false≢true (sym e ∙ (bytes_eq_iff got expected).1 eq)),
    rw e refl,
  )
]

differing_key :
    (header : Option Text) (expected : Text)
    → ◌≢◌ {A = Option Text} (some expected) (some (given header))
    → ¬ Allowed header (some expected)
differing_key header expected differs (inl e) = absurd (cc e)
differing_key header expected differs (inr e) = differs e

check_given :
    (header : Option Text) (expected : Text)
    → (Allowed header (some expected) × (check_api_key header (some expected) ≡ ok tt))
      ⊎ (¬ Allowed header (some expected)
          × (check_api_key header (some expected) ≡ err unauthorized))
unfolding check_api_key
check_given none expected = elim (guard_given (some expected) [] expected refl) [
  | inl (same, checked) ↦ inl (inr same, checked)
  | inr (differs, checked) ↦ inr (differing_key none expected differs, checked)
]
check_given (some got) expected = elim (guard_given (some expected) got expected refl) [
  | inl (same, checked) ↦ inl (inr same, checked)
  | inr (differs, checked) ↦ inr (differing_key (some got) expected differs, checked)
]

check_api_key_cases :
    (header key : Option Text)
    → (Allowed header key × (check_api_key header key ≡ ok tt))
      ⊎ (¬ Allowed header key × (check_api_key header key ≡ err unauthorized))
unfolding check_api_key
check_api_key_cases header none = inl (inl refl, refl)
check_api_key_cases header (some expected) = check_given header expected

module _ {Blob F Source : Type 0} where
  and_then-IsGuarded :
      (header : Option Text) (st : ApiState Blob F Source) (inside : Answered Blob F Source)
      → IsGuarded header st (and_then (check_api_key header st.api_key) st inside) inside
  unfolding and_then
  and_then-IsGuarded header st inside = elim (check_api_key_cases header st.api_key) [
    | inl (allowed, checked) ↦ inl (allowed, rw (and_then, checked) refl)
    | inr (barred, checked) ↦ inr (barred, rw (and_then, checked) refl)
  ]

module _ {Blob F Source : Type 0} (w : World Blob F Source) where
  -- Each endpoint checks the key and then works on the session that its path names.
  pub handle-checked :
      (d : ApiDraw) (header session_id : Option Text) (action : Action)
      (st : ApiState Blob F Source)
      → handle w d header session_id action st
        ≡ and_then
            (check_api_key header st.api_key)
            st
            (work_of w d (asked st session_id) action st)
  unfolding handle work_of post_chat_stream_for get_session_default get_session_by_id
      get_messages_default get_messages_by_id post_chat_default post_chat_by_id
      post_chat_stream_default post_chat_stream_by_id get_memory_default get_memory_by_id
      post_memory_default post_memory_by_id post_memory_search_default post_memory_search_by_id
      post_redaction_term_default post_redaction_term_by_id post_system_default post_system_by_id
      post_save_default post_save_by_id
  handle-checked d header none get_session st = refl
  handle-checked d header (some id) get_session st = refl
  handle-checked d header none (get_messages limit) st = refl
  handle-checked d header (some id) (get_messages limit) st = refl
  handle-checked d header none (post_chat text) st = refl
  handle-checked d header (some id) (post_chat text) st = refl
  handle-checked d header none (post_chat_stream text) st = refl
  handle-checked d header (some id) (post_chat_stream text) st = refl
  handle-checked d header none get_memory st = refl
  handle-checked d header (some id) get_memory st = refl
  handle-checked d header none (post_memory text tags) st = refl
  handle-checked d header (some id) (post_memory text tags) st = refl
  handle-checked d header none (post_memory_search query k) st = refl
  handle-checked d header (some id) (post_memory_search query k) st = refl
  handle-checked d header none (post_redaction_term term) st = refl
  handle-checked d header (some id) (post_redaction_term term) st = refl
  handle-checked d header none (post_system system) st = refl
  handle-checked d header (some id) (post_system system) st = refl
  handle-checked d header none post_save st = refl
  handle-checked d header (some id) post_save st = refl

  -- Each of the twenty endpoints of a session, and the one that creates a session, does its work
  -- exactly when no key is set or the request's header is the key, where a header that is not there
  -- counts as an empty one; then its answer and what it does to the state are those of the work on the
  -- session that the path names, or on the default one. Every other request is answered as
  -- unauthorized, and changes nothing.
  pub handle-IsGuarded :
      (d : ApiDraw) (header session_id new_id system : Option Text) (action : Action)
      (st : ApiState Blob F Source)
      → IsGuarded header st
          (handle w d header session_id action st)
          (work_of w d (asked st session_id) action st)
        × IsGuarded header st
            (post_session w d header new_id system st)
            (make_session w d new_id system st)
  unfolding post_session
  handle-IsGuarded d header session_id new_id system action st = (
    subst (λ out. IsGuarded header st out (work_of w d (asked st session_id) action st))
        (sym (handle-checked d header session_id action st))
        (and_then-IsGuarded header st (work_of w d (asked st session_id) action st)),
    and_then-IsGuarded header st (make_session w d new_id system st),
  )

  on_agent-others :
      (d : ApiDraw) (id j : Text) (job : AgentRuntime F → Source → Dict Blob → Work Blob F Source)
      (st : ApiState Blob F Source) (r : Result ManagerError (AgentRuntime F × AgentManager Blob F))
      → get_or_load w d.load id st.manager ≡ r
      → bytes_eq id j ≡ false
      → lookup j (on_agent w id job st r).1.manager.sessions ≡ lookup j st.manager.sessions
  unfolding on_agent
  on_agent-others d id j job st (err e) h apart = refl
  on_agent-others d id j job st (ok (agent, m)) h apart =
      lookup-put_apart j id (job agent st.source m.files).1 m.sessions apart
      ∙ (get_or_load-IsLoaded w d.load id st.manager agent m h).1.others j apart

  with_agent-others :
      (d : ApiDraw) (id j : Text) (job : AgentRuntime F → Source → Dict Blob → Work Blob F Source)
      (st : ApiState Blob F Source)
      → bytes_eq id j ≡ false
      → lookup j (with_agent w d id job st).1.manager.sessions ≡ lookup j st.manager.sessions
  unfolding with_agent
  with_agent-others d id j job st apart =
      on_agent-others d id j job st (get_or_load w d.load id st.manager) refl apart

  work_of-others :
      (d : ApiDraw) (id j : Text) (action : Action) (st : ApiState Blob F Source)
      → bytes_eq id j ≡ false
      → lookup j (work_of w d id action st).1.manager.sessions ≡ lookup j st.manager.sessions
  unfolding work_of get_session_view_for get_messages_for post_chat_for stream_chat get_memory_for
      post_memory_for post_memory_search_for post_redaction_term_for post_system_for post_save_for
  work_of-others d id j get_session st apart = with_agent-others d id j _ st apart
  work_of-others d id j (get_messages limit) st apart = with_agent-others d id j _ st apart
  work_of-others d id j (post_chat text) st apart = with_agent-others d id j _ st apart
  work_of-others d id j (post_chat_stream text) st apart = with_agent-others d id j _ st apart
  work_of-others d id j get_memory st apart = with_agent-others d id j _ st apart
  work_of-others d id j (post_memory text tags) st apart = with_agent-others d id j _ st apart
  work_of-others d id j (post_memory_search query k) st apart = with_agent-others d id j _ st apart
  work_of-others d id j (post_redaction_term term) st apart = with_agent-others d id j _ st apart
  work_of-others d id j (post_system system) st apart = with_agent-others d id j _ st apart
  work_of-others d id j post_save st apart = with_agent-others d id j _ st apart

  and_then-others :
      (c : Result ApiError (Unit {0})) (j : Text) (st : ApiState Blob F Source)
      (inside : Answered Blob F Source)
      → lookup j inside.1.manager.sessions ≡ lookup j st.manager.sessions
      → lookup j (and_then c st inside).1.manager.sessions ≡ lookup j st.manager.sessions
  unfolding and_then
  and_then-others (err e) j st inside h = refl
  and_then-others (ok u) j st inside h = h

  -- Whatever a request to a session does, with whatever result, the agents of all other sessions are
  -- as before.
  pub handle-others :
      (d : ApiDraw) (header session_id : Option Text) (j : Text) (action : Action)
      (st : ApiState Blob F Source)
      → bytes_eq (asked st session_id) j ≡ false
      → lookup j (handle w d header session_id action st).1.manager.sessions
        ≡ lookup j st.manager.sessions
  handle-others d header session_id j action st apart =
      ap (λ (out : Answered Blob F Source). lookup j out.1.manager.sessions)
        (handle-checked d header session_id action st)
      ∙ and_then-others (check_api_key header st.api_key) j st _
          (work_of-others d (asked st session_id) j action st apart)
