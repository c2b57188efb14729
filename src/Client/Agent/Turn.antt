-- ===== src/Client/Agent/Turn.antt =====
-- client/src/agent.rs: `send_user_message`.
use zk_llm_gateway.Prelude.{ℕ, ◌-◌, Bool, true, Option, none, some, List, [], ◌==◌, length}
use zk_llm_gateway.Prelude.Text.{Bytes, Text, codes}
use zk_llm_gateway.Prelude.Strings.{Dict}
use zk_llm_gateway.Prelude.Result.{Result, ok, err, ◌>>=◌, ◌>>◌, guard, ok_or, map_err}
use zk_llm_gateway.Json.{end}
use zk_llm_gateway.Types.{
  ChatMessage, ZkTicket, InferenceRequest, InferenceResponse, GatewayEnvelopePayload, response,
  error, authorization_commitment,
}
use zk_llm_gateway.Envelope.{
  Envelope, ClientCryptoContext, EnvelopeError, seal_request_for_gateway, open_response,
}
use zk_llm_gateway.Client.Tickets.{TicketError}
use zk_llm_gateway.Client.Redaction.{rehydrate}
use zk_llm_gateway.Client.MemoryStore.{RetrievedContext}
use zk_llm_gateway.Client.MemoryStore.Query.{retrieve_context}
use zk_llm_gateway.Client.Prompt.Assembly.{build_remote_messages_with_retrieval}
use zk_llm_gateway.Client.Agent.{World, AgentRuntime, Write, persist, push_message, update_summary}

pub data AgentError : Type 0 where
  -- A panic of the index, and a budget loop that does not end.
  index_panic prompt_endless : AgentError
  serialize_failed send_failed http_status parse_failed gateway_error request_id_mismatch
        error_id_mismatch :
      AgentError
  ticket_failed : TicketError → AgentError
  seal_failed open_failed : EnvelopeError → AgentError

-- What a turn draws at random: the request id, the key pair, the nonces, the filler of the padding; and
-- the fuel of the budget loops.
pub record Draw : Type 0 where
  pub request_id : ℕ
  pub eph_secret : Bytes
  pub client_nonce : Bytes
  pub nonce : Bytes
  pub filler : ℕ → Text
  pub fuel : ℕ
  pub write : Write

module _ {Blob F Source : Type 0} (w : World Blob F Source) where
  unfoldable pub request_of : Draw → AgentRuntime F → List ChatMessage → ZkTicket → InferenceRequest
  request_of draw agent messages ticket = record {
    request_id = draw.request_id;
    model = agent.model;
    messages = messages;
    max_tokens = none;
    temperature = none;
    stream = none;
    token_class = agent.token_class;
    ticket = ticket;
    provider_options = end;
  }

  unfoldable pub empty_ticket : AgentRuntime F → ZkTicket
  empty_ticket agent = record {
    commitment_root = [];
    nullifier = [];
    token_class = agent.token_class;
    proof = [];
  }

  -- The id of an error may be missing.
  unfoldable pub same_or_missing : Option ℕ → ℕ → Bool
  same_or_missing none id = true
  same_or_missing (some other) id = other == id

  unfoldable pub check_payload : ℕ → GatewayEnvelopePayload → Result AgentError InferenceResponse
  unfolding same_or_missing
  check_payload id (response r) = do guard (r.request_id == id) request_id_mismatch; ok r
  check_payload id (error e) = do
    guard (same_or_missing e.request_id id) error_id_mismatch
    err gateway_error

  -- From the envelope to the checked response.
  unfoldable pub post_and_open :
      Text → ℕ → Envelope × ClientCryptoContext → Result AgentError InferenceResponse
  post_and_open url id (env, ctx) = do
    (success, bytes) ← ok_or (w.post url env) send_failed
    guard success http_status
    resp_env ← ok_or (w.parse_envelope bytes) parse_failed
    plaintext ← map_err open_failed (open_response w.crypto ctx resp_env)
    payload ← ok_or (w.parse_payload plaintext) parse_failed
    check_payload id payload

  unfoldable pub deliver :
      Draw → AgentRuntime F → InferenceRequest → Result AgentError InferenceResponse
  unfolding post_and_open
  deliver draw agent req = do
    req_json ← ok_or (w.print_request req) serialize_failed
    sealed ← map_err seal_failed (
        seal_request_for_gateway w.crypto draw.eph_secret draw.client_nonce draw.nonce
          agent.gateway_public_bytes agent.token_class req.request_id req_json)
    post_and_open agent.endpoint_url req.request_id sealed

  -- The ticket for the request's commitment, then the exchange.
  unfoldable pub with_ticket :
      Draw
      → AgentRuntime F
      → List ChatMessage
      → Result TicketError ZkTicket × Source
      → Result AgentError InferenceResponse × Source
  unfolding deliver
  with_ticket draw agent messages (err failure, src) = (err (ticket_failed failure), src)
  with_ticket draw agent messages (ok ticket, src) =
      (deliver draw agent (request_of draw agent messages ticket), src)

  unfoldable pub obtain :
      Draw
      → AgentRuntime F
      → List ChatMessage
      → Source
      → Result AgentError InferenceResponse × Source
  unfolding with_ticket empty_ticket
  obtain draw agent messages src =
      elim (authorization_commitment w.encoding
        (request_of draw agent messages (empty_ticket agent))) [
          | none ↦ (err serialize_failed, src)
          | some commitment ↦
              with_ticket draw agent messages (w.next_ticket agent.token_class commitment src)
        ]

  -- The state after the answer: the message shown, stored and indexed, the summary, the file.
  unfoldable pub finish : Draw → AgentRuntime F → Text → Dict Blob → AgentRuntime F × Dict Blob
  finish draw agent out files =
      let agent1 = update_summary w (push_message w (codes "assistant") out agent) in
      let agent2 = record agent1 {
        session = record agent1.session { redaction = agent1.redactor.state };
      } in
      (agent2, persist w draw.write agent2 files)

  unfoldable pub concluded :
      Draw
      → AgentRuntime F
      → Dict Blob
      → Result AgentError InferenceResponse
      → Result AgentError Text × AgentRuntime F × Dict Blob
  concluded draw agent files (err failure) = (err failure, agent, files)
  concluded draw agent files (ok r) =
      let out = rehydrate agent.redactor r.output in
      let (agent', files') = finish draw agent out files in (ok out, agent', files')

  -- The prompt is built, or the loop does not end.
  unfoldable pub with_prompt :
      Draw
      → AgentRuntime F
      → Source
      → Dict Blob
      → Option (List ChatMessage)
      → Result AgentError Text × AgentRuntime F × Source × Dict Blob
  unfolding concluded
  with_prompt draw agent src files none = (err prompt_endless, agent, src, files)
  with_prompt draw agent src files (some messages) =
      let (answer, src') = obtain draw agent messages src in
      let (out, agent', files') = concluded draw agent files answer in (out, agent', src', files')

  unfoldable pub with_context :
      Draw
      → AgentRuntime F
      → Source
      → Dict Blob
      → Option RetrievedContext
      → Result AgentError Text × AgentRuntime F × Source × Dict Blob
  unfolding with_prompt
  with_context draw agent src files none = (err index_panic, agent, src, files)
  with_context draw agent src files (some retrieved) =
      let (red, built) =
        build_remote_messages_with_retrieval w.crypto w.patterns agent.redact_mode agent.extra_terms
          draw.fuel draw.filler agent.token_class agent.prompt_cfg agent.session retrieved
          agent.redactor in
      with_prompt draw (record agent { redactor = red }) src files built

  unfoldable pub send_user_message :
      Draw
      → Text
      → AgentRuntime F
      → Source
      → Dict Blob
      → Result AgentError Text × AgentRuntime F × Source × Dict Blob
  unfolding with_context
  send_user_message draw user_msg agent src files =
      let agent' = push_message w (codes "user") user_msg agent in
      let cutoff = length agent'.session.messages - agent'.prompt_cfg.max_recent_messages in
      with_context draw agent' src files (
        retrieve_context w.floats w.unicode user_msg agent'.prompt_cfg.max_memory_items
          agent'.prompt_cfg.max_recall_snippets (some cutoff) agent'.memory_store)
