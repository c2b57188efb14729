-- ===== src/Client/Api.antt =====
-- client/src/api.rs: the local HTTP API. Here are its data, the check of the key, the lookup of an
-- agent and the chunks of a stream; Handlers has the work of each endpoint, Serve the endpoints
-- themselves. A request is what the router and the JSON extractors hand over; the agent that a handler
-- locks is put back into the manager's map. Listing the sessions is left out, and so are the delays
-- between the chunks of a stream.
pub mod Handlers
pub mod Serve
pub mod Chunks
pub mod Access
pub mod Streams
mod Tests
use zk_llm_gateway.Prelude.{
  ℕ, ◌-◌, max, Bool, true, false, Option, none, some, List, [], ◌∷◌, ◌++◌, leb, if◌then◌else◌,
  length, map,
}
use zk_llm_gateway.Prelude.Text.{Text, bytes_eq}
use zk_llm_gateway.Prelude.Strings.{Dict, put}
use zk_llm_gateway.Prelude.Result.{Result, ok, err, guard}
use zk_llm_gateway.Types.{ChatMessage}
use zk_llm_gateway.Token.{TokenClass}
use zk_llm_gateway.Client.Session.{MemoryItem}
use zk_llm_gateway.Client.MemoryStore.{RetrievedContext}
use zk_llm_gateway.Client.MemoryStore.Query.{retrieve_context}
use zk_llm_gateway.Client.Agent.{
  World, AgentRuntime, messages, remember, add_redaction_term, set_system_prompt, persist,
}
use zk_llm_gateway.Client.Agent.Turn.{AgentError, Draw, send_user_message}
use zk_llm_gateway.Client.Manager.{
  AgentManager, AgentManagerConfig, ManagerError, Load, get_or_load, create_session,
}

pub data ApiError : Type 0 where
  unauthorized : ApiError
  bad_request : ManagerError → ApiError
  internal : AgentError → ApiError
  not_created : ManagerError → ApiError
  -- The index panics in a search.
  panicked : ApiError

pub data StreamEvent : Type 0 where
  start : Text → Text → StreamEvent
  delta : Text → StreamEvent
  done : StreamEvent
  failed : AgentError → StreamEvent

pub record SessionView : Type 0 where
  pub session_id : Text
  pub system_prompt : Text
  pub summary : Text
  pub message_count : ℕ
  pub memory_count : ℕ
  pub token_class : TokenClass
  pub model : Text
  pub session_path : Text

-- The endpoints of one session, with their bodies and queries.
pub data Action : Type 0 where
  get_session get_memory post_save : Action
  get_messages : ℕ → Action
  post_chat post_chat_stream post_redaction_term post_system : Text → Action
  post_memory : Text → List Text → Action
  post_memory_search : Text → ℕ → Action

pub data Reply : Type 0 where
  view : SessionView → Reply
  message_list : List ChatMessage → Reply
  chat_reply : Text → Reply
  stream : List StreamEvent → Reply
  memory_list : List MemoryItem → Reply
  found : RetrievedContext → Reply
  ok_reply : Reply
  created : Text → Reply

-- What the requests draw: ids, times, and the draws of a turn and of a load.
pub record ApiDraw : Type 0 where
  pub stream_id : Text
  pub new_id : Text
  pub memory_id : ℕ
  pub now : ℕ
  pub draw : Draw
  pub load : Load

-- The state that the handlers share; the ticket source with it.
pub record ApiState (Blob F Source : Type 0) : Type 0 where
  pub manager : AgentManager Blob F
  pub api_key : Option Text
  pub default_session_id : Text
  pub stream_chunk_chars : ℕ
  pub source : Source

-- The header is `x-api-key`, when it is there and is a text.
unfoldable pub check_api_key : Option Text → Option Text → Result ApiError (Unit {0})
check_api_key header none = ok tt
check_api_key header (some expected) =
    guard (bytes_eq (elim header as (λ h. Text) [ none ↦ [] | some got ↦ got ]) expected)
      unauthorized

some_chunk : Text → List Text
some_chunk [] = []
some_chunk (c ∷ cs) = (c ∷ cs) ∷ []

-- The loop of `chunk_string`, with its buffer.
unfoldable pub chunks : ℕ → Text → Text → List Text
unfolding some_chunk
chunks n buf [] = some_chunk buf
chunks n buf (c ∷ cs) =
    let buf' = buf ++ c ∷ [] in
    let full = leb n (length buf') in
    let rest = chunks n (if full then [] else buf') cs in if full then buf' ∷ rest else rest

unfoldable pub chunk_string : Text → ℕ → List Text
unfolding chunks
chunk_string s chunk_chars = chunks chunk_chars [] s

unfoldable pub stream_events : Text → Text → ℕ → Result AgentError Text → List StreamEvent
stream_events stream_id session_id n (err e) = start stream_id session_id ∷ failed e ∷ []
stream_events stream_id session_id n (ok full) =
    start stream_id session_id ∷ (map delta (chunk_string full n) ++ done ∷ [])

unfoldable pub chat_result : Result AgentError Text → Result ApiError Reply
chat_result (err e) = err (internal e)
chat_result (ok reply) = ok (chat_reply reply)

found_or_panic : Option RetrievedContext → Result ApiError Reply
found_or_panic none = err panicked
found_or_panic (some ctx) = ok (found ctx)

-- What the work on an agent leaves: the answer, the agent, the ticket source and the disk.
abbrev pub Work : Type 0 → Type 0 → Type 0 → Type 0
Work Blob F Source = Result ApiError Reply × AgentRuntime F × Source × Dict Blob

abbrev pub Answered : Type 0 → Type 0 → Type 0 → Type 0
Answered Blob F Source = Result ApiError Reply × ApiState Blob F Source

-- The operator `?` on the check of the key.
unfoldable pub and_then :
    {Blob F Source : Type 0}
    → Result ApiError (Unit {0})
    → ApiState Blob F Source
    → Answered Blob F Source
    → Answered Blob F Source
and_then (err e) st rest = (err e, st)
and_then (ok u) st rest = rest

module _ {Blob F Source : Type 0} (w : World Blob F Source) where
  unfoldable pub on_agent :
      Text
      → (AgentRuntime F → Source → Dict Blob → Work Blob F Source)
      → ApiState Blob F Source
      → Result ManagerError (AgentRuntime F × AgentManager Blob F)
      → Answered Blob F Source
  on_agent id job st (err e) = (err (bad_request e), st)
  on_agent id job st (ok (agent, m)) =
      let (out, agent', src', files') = job agent st.source m.files in
      (
        out,
        record st {
          manager = record { cfg = m.cfg; sessions = put id agent' m.sessions; files = files' };
          source = src';
        },
      )

  -- `get_agent`, the lock, and the work under it.
  unfoldable pub with_agent :
      ApiDraw
      → Text
      → (AgentRuntime F → Source → Dict Blob → Work Blob F Source)
      → ApiState Blob F Source
      → Answered Blob F Source
  unfolding on_agent
  with_agent d id job st = on_agent id job st (get_or_load w d.load id st.manager)
