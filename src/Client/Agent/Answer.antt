-- ===== src/Client/Agent/Answer.antt =====
-- How a turn's response was obtained.
use zk_llm_gateway.Prelude.{
  ℕ, ◌≡◌, refl, ap, sym, ◌∙◌, Bool, true, Option, none, some, List, ◌==◌, ==_iff,
}
use zk_llm_gateway.Prelude.Text.{Bytes}
use zk_llm_gateway.Prelude.Result.{
  Result, ok, err, guard, ok_or, map_err, >>=-eq-ok, guard-eq-ok, ok-injective, ok_or-eq-ok,
}
use zk_llm_gateway.Types.{
  ChatMessage, ZkTicket, InferenceResponse, GatewayEnvelopePayload, response, error,
  authorization_commitment,
}
use zk_llm_gateway.Envelope.{Envelope, ClientCryptoContext, open_response, seal_request_for_gateway}
use zk_llm_gateway.Client.Tickets.{TicketError}
use zk_llm_gateway.Client.Agent.{World, AgentRuntime}
use zk_llm_gateway.Client.Agent.Turn.{
  AgentError, serialize_failed, send_failed, http_status, parse_failed, request_id_mismatch,
  error_id_mismatch, seal_failed, open_failed, Draw, request_of, empty_ticket, same_or_missing,
  check_payload, post_and_open, deliver, with_ticket, obtain,
}

module _ {Blob F Source : Type 0} (w : World Blob F Source) where
  check_payload-id :
      (id : ℕ) (payload : GatewayEnvelopePayload) {r : InferenceResponse}
      → check_payload w id payload ≡ ok r
      → r.request_id ≡ id
  unfolding check_payload
  check_payload-id id (response q) h =
      let (u, same, e) = >>=-eq-ok (guard (q.request_id == id) request_id_mismatch) _ h in
      ap (λ (x : InferenceResponse). x.request_id) (sym (ok-injective e))
      ∙ (==_iff q.request_id id).0 (guard-eq-ok (q.request_id == id) request_id_mismatch same)
  check_payload-id id (error e) h =
      let (u, same, e') =
        >>=-eq-ok (guard (same_or_missing w e.request_id id) error_id_mismatch) _ h in
      absurd (cc e')

  check_payload-response :
      (id : ℕ) (payload : GatewayEnvelopePayload) {r : InferenceResponse}
      → check_payload w id payload ≡ ok r
      → payload ≡ response r
  unfolding check_payload
  check_payload-response id (response q) h =
      let (u, same, e) = >>=-eq-ok (guard (q.request_id == id) request_id_mismatch) _ h in
      ap response (ok-injective e)
  check_payload-response id (error e) h =
      let (u, same, e') =
        >>=-eq-ok (guard (same_or_missing w e.request_id id) error_id_mismatch) _ h in
      absurd (cc e')

  -- How a response was obtained: the ticket is the source's for the commitment of this very request, the
  -- request with that ticket was sealed and posted, and the answer's envelope opens, for this exchange,
  -- to the response, which names this request.
  pub record IsAnswered (draw : Draw) (agent : AgentRuntime F) (messages : List ChatMessage)
      (src src' : Source) (r : InferenceResponse) : Type 0 where
    pub commitment : Bytes
    pub committed :
        authorization_commitment w.encoding
          (request_of w draw agent messages (empty_ticket w agent))
        ≡ some commitment
    pub ticket : ZkTicket
    pub taken : w.next_ticket agent.token_class commitment src ≡ (ok ticket, src')
    pub json : Bytes
    pub printed : w.print_request (request_of w draw agent messages ticket) ≡ some json
    pub env : Envelope
    pub ctx : ClientCryptoContext
    pub sealed :
        seal_request_for_gateway w.crypto draw.eph_secret draw.client_nonce draw.nonce
          agent.gateway_public_bytes agent.token_class draw.request_id json
        ≡ ok (env, ctx)
    pub body : Bytes
    pub posted : w.post agent.endpoint_url env ≡ some (true, body)
    pub resp_env : Envelope
    pub parsed : w.parse_envelope body ≡ some resp_env
    pub plaintext : Bytes
    pub opened : open_response w.crypto ctx resp_env ≡ ok plaintext
    pub payload : w.parse_payload plaintext ≡ some (response r)
    pub same_id : r.request_id ≡ draw.request_id

  map_err-eq-ok' :
      {E G A : Type 0} (g : E → G) (x : Result E A) {a : A} → map_err g x ≡ ok a → x ≡ ok a
  map_err-eq-ok' g (ok b) h = ap ok (ok-injective h)
  map_err-eq-ok' g (err e) h = absurd (cc h)

  deliver-IsAnswered :
      (draw : Draw) (agent : AgentRuntime F) (messages : List ChatMessage) (src src' : Source)
      (commitment : Bytes) (ticket : ZkTicket) (r : InferenceResponse)
      → authorization_commitment w.encoding
          (request_of w draw agent messages (empty_ticket w agent))
        ≡ some commitment
      → w.next_ticket agent.token_class commitment src ≡ (ok ticket, src')
      → deliver w draw agent (request_of w draw agent messages ticket) ≡ ok r
      → IsAnswered draw agent messages src src' r
  unfolding deliver post_and_open request_of
  deliver-IsAnswered draw agent messages src src' commitment ticket r committed taken h =
      let req = request_of w draw agent messages ticket in
      let (json, printed, h1) = >>=-eq-ok (ok_or (w.print_request req) serialize_failed) _ h in
      let ((env, ctx), sealed, h2) =
        >>=-eq-ok
          (map_err seal_failed (
            seal_request_for_gateway w.crypto draw.eph_secret draw.client_nonce draw.nonce
              agent.gateway_public_bytes agent.token_class draw.request_id json))
          _ h1 in
      let ((success, body), posted, h3) =
        >>=-eq-ok (ok_or (w.post agent.endpoint_url env) send_failed) _ h2 in
      let (u, good, h4) = >>=-eq-ok (guard success http_status) _ h3 in
      let (resp_env, parsed, h5) = >>=-eq-ok (ok_or (w.parse_envelope body) parse_failed) _ h4 in
      let (plaintext, opened, h6) =
        >>=-eq-ok (map_err open_failed (open_response w.crypto ctx resp_env)) _ h5 in
      let (payload, read, h7) = >>=-eq-ok (ok_or (w.parse_payload plaintext) parse_failed) _ h6 in
      record {
        commitment = commitment;
        committed = committed;
        ticket = ticket;
        taken = taken;
        json = json;
        printed = ok_or-eq-ok (w.print_request req) serialize_failed printed;
        env = env;
        ctx = ctx;
        sealed = map_err-eq-ok' seal_failed _ sealed;
        body = body;
        posted =
            ok_or-eq-ok (w.post agent.endpoint_url env) send_failed posted
            ∙ ap (λ (b : Bool). some (b, body)) (guard-eq-ok success http_status good);
        resp_env = resp_env;
        parsed = ok_or-eq-ok (w.parse_envelope body) parse_failed parsed;
        plaintext = plaintext;
        opened = map_err-eq-ok' open_failed _ opened;
        payload =
            ok_or-eq-ok (w.parse_payload plaintext) parse_failed read
            ∙ ap some (check_payload-response draw.request_id payload h7);
        same_id = check_payload-id draw.request_id payload h7;
      }

  with_ticket-IsAnswered :
      (draw : Draw) (agent : AgentRuntime F) (messages : List ChatMessage) (src src' : Source)
      (commitment : Bytes) (given : Result TicketError ZkTicket × Source) (r : InferenceResponse)
      → authorization_commitment w.encoding
          (request_of w draw agent messages (empty_ticket w agent))
        ≡ some commitment
      → w.next_ticket agent.token_class commitment src ≡ given
      → with_ticket w draw agent messages given ≡ (ok r, src')
      → IsAnswered draw agent messages src src' r
  unfolding with_ticket
  with_ticket-IsAnswered draw agent messages src src' commitment (err e, s) r committed taken h =
      absurd (cc (ap (λ (x : Result AgentError InferenceResponse × Source). x.0) h))
  with_ticket-IsAnswered draw agent messages src src' commitment (ok ticket, s) r committed taken
        h =
      deliver-IsAnswered draw agent messages src src' commitment ticket r committed
        (taken
          ∙ ap (λ (x : Source). (ok ticket, x))
              (ap (λ (x : Result AgentError InferenceResponse × Source). x.1) h))
        (ap (λ (x : Result AgentError InferenceResponse × Source). x.0) h)

  committed_cases :
      (draw : Draw) (agent : AgentRuntime F) (messages : List ChatMessage) (src src' : Source)
      (r : InferenceResponse) (o : Option Bytes)
      → authorization_commitment w.encoding
          (request_of w draw agent messages (empty_ticket w agent))
        ≡ o
      → obtain w draw agent messages src ≡ (ok r, src')
      → IsAnswered draw agent messages src src' r
  unfolding obtain
  committed_cases draw agent messages src src' r none e h =
      let out : ◌≡◌ {A = Result AgentError InferenceResponse} (err serialize_failed) (ok r) =
        ap (λ (x : Result AgentError InferenceResponse × Source). x.0) (rw (e, obtain) at h) in
      absurd (cc out)
  committed_cases draw agent messages src src' r (some commitment) e h =
      with_ticket-IsAnswered draw agent messages src src' commitment _ r e refl
        (rw (e, obtain) at h)

  -- A response is accepted only for a ticket that the source gave for the commitment of this request,
  -- and only when the posted envelope's answer opens for this exchange and names this request.
  pub obtain-IsAnswered :
      (draw : Draw) (agent : AgentRuntime F) (messages : List ChatMessage) (src src' : Source)
      (r : InferenceResponse)
      → obtain w draw agent messages src ≡ (ok r, src')
      → IsAnswered draw agent messages src src' r
  obtain-IsAnswered draw agent messages src src' r h =
      committed_cases draw agent messages src src' r _ refl h
