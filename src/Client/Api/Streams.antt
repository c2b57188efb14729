-- ===== src/Client/Api/Streams.antt =====
-- The streamed chat beside the plain one.
use zk_llm_gateway.Prelude.{ℕ, ◌<◌, max, ◌≡◌, refl, Option, List, ◌∷◌, [], ◌++◌, map, arith}
use zk_llm_gateway.Prelude.Text.{Text}
use zk_llm_gateway.Prelude.Result.{Result, ok, err}
use zk_llm_gateway.Client.Agent.{World, AgentRuntime}
use zk_llm_gateway.Client.Agent.Turn.{AgentError, send_user_message}
use zk_llm_gateway.Client.Manager.{AgentManager, ManagerError, get_or_load}
use zk_llm_gateway.Client.Api.{
  ApiError, internal, start, delta, done, failed, Reply, chat_reply, stream, post_chat,
  post_chat_stream, ApiDraw, ApiState, check_api_key, Answered, and_then, on_agent, with_agent,
  chunk_string, stream_events, chat_result,
}
use zk_llm_gateway.Client.Api.Handlers.{post_chat_for, stream_chat, work_of}
use zk_llm_gateway.Client.Api.Serve.{handle}
use zk_llm_gateway.Client.Api.Access.{asked, handle-checked}
use zk_llm_gateway.Client.Api.Chunks.{joined, IsCut, chunk_string-joined, chunk_string-IsCut}

-- An answer of the plain chat, and the one that streams it in pieces of n characters.
pub data IsStreamed (n : ℕ) : Result ApiError Reply → Result ApiError Reply → Type 0 where
  not_started : (e : ApiError) → IsStreamed n (err e) (err e)
  broken :
      (stream_id session_id : Text) (e : AgentError)
      → IsStreamed n (err (internal e)) (ok (stream (start stream_id session_id ∷ failed e ∷ [])))
  whole :
      (stream_id session_id reply : Text) (pieces : List Text)
      → joined pieces ≡ reply
      → IsCut n pieces
      → IsStreamed n
          (ok (chat_reply reply))
          (ok (stream (start stream_id session_id ∷ (map delta pieces ++ done ∷ []))))

result-IsStreamed :
    (stream_id session_id : Text) (n : ℕ) (r : Result AgentError Text)
    → 0 < n
    → IsStreamed n (chat_result r) (ok (stream (stream_events stream_id session_id n r)))
unfolding chat_result stream_events
result-IsStreamed stream_id session_id n (err e) h = broken stream_id session_id e
result-IsStreamed stream_id session_id n (ok t) h =
    whole stream_id session_id t (chunk_string t n) (chunk_string-joined t n)
      (chunk_string-IsCut t n h)

module _ {Blob F Source : Type 0} (w : World Blob F Source) where
  on_agent-IsStreamed :
      (d : ApiDraw) (id text : Text) (st : ApiState Blob F Source)
      (r : Result ManagerError (AgentRuntime F × AgentManager Blob F))
      → get_or_load w d.load id st.manager ≡ r
      → IsStreamed
          (max st.stream_chunk_chars 1)
          (post_chat_for w d id text st).0
          (stream_chat w d id text st).0
        × ((stream_chat w d id text st).1 ≡ (post_chat_for w d id text st).1)
  unfolding on_agent with_agent post_chat_for stream_chat
  on_agent-IsStreamed d id text st (err e) h = rw h (not_started _, refl)
  on_agent-IsStreamed d id text st (ok (agent, m)) h = rw h (
    result-IsStreamed d.stream_id id (max st.stream_chunk_chars 1)
        (send_user_message w d.draw text agent st.source m.files).0 (omega arith),
    refl,
  )

  and_then-IsStreamed :
      (n : ℕ) (c : Result ApiError (Unit {0})) (st : ApiState Blob F Source)
      (plain streamed : Answered Blob F Source)
      → IsStreamed n plain.0 streamed.0 × (streamed.1 ≡ plain.1)
      → IsStreamed n (and_then c st plain).0 (and_then c st streamed).0
        × ((and_then c st streamed).1 ≡ (and_then c st plain).1)
  unfolding and_then
  and_then-IsStreamed n (err e) st plain streamed h = (not_started e, refl)
  and_then-IsStreamed n (ok u) st plain streamed h = h

  -- A streamed chat does to the state exactly what the plain chat does, and its answer is that of the
  -- plain chat: the same error when the request is refused or the session is not there; one error
  -- event when the turn fails; and otherwise pieces that together are the reply, none empty, each but
  -- the last of exactly the configured number of characters, which counts as one when it is zero.
  pub handle-IsStreamed :
      (d : ApiDraw) (header session_id : Option Text) (text : Text) (st : ApiState Blob F Source)
      → IsStreamed
          (max st.stream_chunk_chars 1)
          (handle w d header session_id (post_chat text) st).0
          (handle w d header session_id (post_chat_stream text) st).0
        × ((handle w d header session_id (post_chat_stream text) st).1
            ≡ (handle w d header session_id (post_chat text) st).1)
  unfolding work_of
  handle-IsStreamed d header session_id text st =
      let id = asked st session_id in
      rw
        (
          handle-checked w d header session_id (post_chat text) st,
          handle-checked w d header session_id (post_chat_stream text) st,
        )
        (and_then-IsStreamed (max st.stream_chunk_chars 1) (check_api_key header st.api_key) st
          (post_chat_for w d id text st) (stream_chat w d id text st)
          (on_agent-IsStreamed d id text st (get_or_load w d.load id st.manager) refl))
