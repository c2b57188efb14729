-- ===== src/Lib.antt =====
-- A privacy-preserving gateway to language models: a client seals a request in an envelope of a
-- fixed size, a relay passes it on without reading it, and the gateway opens it, verifies an
-- anonymous ticket, spends the ticket's nullifier once, asks the model provider, and seals the
-- answer.
--
-- Parts, from the repository's root:
--   Token         common/src/token.rs: token classes, their limits, zero padding and trimming.
--   Envelope      common/src/envelope.rs: seal_request_for_gateway, open_request_at_gateway,
--                 seal_response_at_gateway, open_response, and the derivations of keys, salts and
--                 associated data. Random bytes are arguments.
--   Types, Json   common/src/types.rs and common/src/zk.rs: requests, responses, tickets, canonical
--                 JSON, the authorization commitment, the development verifier, the replay key.
--   Actum         gateway/src/actum.rs: the verifier that asks an Actum service.
--   Nullifier     gateway/src/main.rs: reserve_nullifier, mark_nullifier_spent,
--                 release_pending_nullifier, and the values that they store.
--   Interleaving  gateway/src/main.rs: the database operations of any number of concurrent calls of
--                 infer_canonical, one operation per step, under an arbitrary schedule.
--   Gateway       gateway/src/main.rs: infer, infer_canonical, call_provider, compat_proxy, errors.
--   Relay         relay/src/main.rs: the relay handler.
--   Client.Tickets      client/src/tickets.rs: where tickets come from.
--   Client.Redaction    client/src/redaction.rs: placeholders for what a prompt should not show, and
--                       rehydrate, which puts the originals back.
--   Client.Session      client/src/session.rs: a session and its file, plain or encrypted.
--   Client.MemoryStore  client/src/memory_store.rs: the tokenizer, the inverted index, search and
--                       retrieve_context.
--   Client.Prompt       client/src/prompt.rs: build_remote_messages_with_retrieval (Assembly),
--                       enforce_budget, which fits a prompt to its class, pad_system_message (Filler).
--   Client.Agent        client/src/agent.rs: the operations of one session's runtime, its turn
--                       send_user_message (Turn), update_summary, and the loop over typed lines (Repl).
--   Client.Manager      client/src/manager.rs: session ids, paths, loading and creating sessions.
--   Client.Api          client/src/api.rs: the local HTTP API: the work of its endpoints (Handlers), the
--                       endpoints with their checks of the key (Serve), and the streamed chat.
--
-- In a turn the agent stores the user's message, retrieves a context from its index, builds a
-- redacted prompt, takes a ticket for the request's commitment, seals and posts the request, opens
-- the answer, rehydrates it, and saves the session. The client uses Envelope to seal, the relay
-- passes the Envelope record on, and Gateway.Infer opens it with Envelope, checks it with Token
-- and Types, asks a verifier (Actum or the development one), and moves the ticket's key through
-- Nullifier over the database. Functions keep the code's names. A handler that changes the
-- database takes it as its last argument and returns it, with the list of the calls that it made
-- to the provider.
--
-- Parameters: Crypto (x25519-dalek, sha2, hkdf, chacha20poly1305, base64, uuid) and Sled (the
-- database, whose operations may fail) are records of operations, with their documented behaviour
-- in CryptoLaws and SledLaws; Encoding holds serde_json's writer and SHAKE256; AppState holds the
-- HTTP client, the verifier and the JSON parsers. On the client's side Patterns holds the regular
-- expressions, Formats the JSON of sessions, Floats the arithmetic of f32, Unicode the tables of
-- the tokenizer, and World all that an agent calls: HTTP, JSON, the local model, the ticket
-- source, which the sessions share. TicketJson is the JSON of the ticket file. Random
-- bytes, the clock and the answers of the file system are arguments; what a write that fails
-- leaves in a file is one too, of next_ticket (Written) and of World (after_broken_write). Crypto.Toy and Sled.Memory are instances that meet the laws, for the examples in the
-- Tests modules; Client.Toy has those of the client.
--
-- Bounds: numbers are unbounded naturals; the times that are stored are taken modulo 2 ^ 64 by the
-- eight bytes that hold them. The loop of enforce_budget runs on fuel, one unit for a round,
-- because it does not always end; a round for every message is chosen where the system messages
-- leave room, since every round but the last one drops a message. A token's count in a document is
-- below 2 ^ 32, as in any text that fits in memory, and an index out of range, which panics, is
-- `none`. A hash map is a list in its order of iteration, which the code does not fix either; no
-- theorem depends on it but through the order of equal scores. Every other loop is structural
-- recursion.
--
-- Not modelled: delays, logging, zeroizing of memory, option parsing, routing and CORS, the
-- relay's documentation page, the Halo2 skeleton, the client's command line, the listing of the
-- sessions directory, what the typed commands print, and the disk after a load or a creation that
-- failed: none of these changes what the operations above compute. Of the secrecy of the
-- ciphers nothing is claimed: the laws say what they compute, not what an attacker cannot.
pub mod Prelude
pub mod Token
pub mod Crypto
pub mod Envelope
pub mod Sled
pub mod Nullifier
pub mod Interleaving
pub mod Json
pub mod Types
pub mod Actum
pub mod Gateway
pub mod Relay
pub mod Client
