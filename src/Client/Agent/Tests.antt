-- ===== src/Client/Agent/Tests.antt =====
-- Examples for client/src/agent.rs.
use zk_llm_gateway.Prelude.{
  ◌+◌, ◌≤◌, ◌≡◌, refl, true, List, [], ◌∷◌, ◌++◌, arith, length, replicate,
}
use zk_llm_gateway.Prelude.Text.{Text, codes, bytes_eq, text_len, utf8_width}
use zk_llm_gateway.Prelude.Strings.{trim, trim_left, trim_right, is_whitespace, starts_with}
use zk_llm_gateway.Prelude.Result.{ok}
use zk_llm_gateway.Token.{class_eq, trim_zero_padding, envelope_request_plaintext_bytes, pad_to_len}
use zk_llm_gateway.Types.{ChatMessage, authorization_commitment}
use zk_llm_gateway.Envelope.{
  to_array, ensure_contributory, decode_eph_pubkey, decode_client_nonce, decode_nonce, derive_key,
  seal_request_for_gateway, open_response,
}
use zk_llm_gateway.Client.Redaction.{from_state, decode_b64_32, rev_of}
use zk_llm_gateway.Client.Redaction.Consistency.{IsConsistent, from_state-IsConsistent}
use zk_llm_gateway.Client.Toy.{blind, world, agent, redaction, redactor, draw, answer}
use zk_llm_gateway.Client.Agent.{new, naive_summary, turn_lines}
use zk_llm_gateway.Client.Agent.Turn.{
  request_of, check_payload, post_and_open, deliver, with_ticket, obtain, send_user_message,
}
use zk_llm_gateway.Client.Agent.Repl.{chat, Input, parse_command, repl, strip_prefix, or_else}
use zk_llm_gateway.Client.Agent.State.{Recorded, send_user_message-Recorded}
use zk_llm_gateway.Client.Agent.Answer.{IsAnswered, obtain-IsAnswered}
use zk_llm_gateway.Client.Agent.Invariant.{IsSound, repl-IsSound}
use zk_llm_gateway.Client.Agent.Summary.{naive_summary-bound, naive_summary_lost}

send_user_message-Recorded_example :
    Recorded
      (codes "tea?")
      agent
      []
      (send_user_message world draw (codes "tea?") agent 1 []).0
      (send_user_message world draw (codes "tea?") agent 1 []).1
      (send_user_message world draw (codes "tea?") agent 1 []).3
send_user_message-Recorded_example = send_user_message-Recorded world draw (codes "tea?") agent 1 []

abbrev hello : List ChatMessage
hello = agent.session.messages

answered : obtain world draw agent hello 1 ≡ (ok answer, 0)
unfolding obtain with_ticket deliver post_and_open check_payload authorization_commitment
    seal_request_for_gateway open_response to_array ensure_contributory decode_eph_pubkey
    decode_client_nonce decode_nonce derive_key class_eq trim_zero_padding pad_to_len bytes_eq
    envelope_request_plaintext_bytes request_of
answered = refl

obtain-IsAnswered_example : IsAnswered world draw agent hello 1 0 answer
obtain-IsAnswered_example = obtain-IsAnswered world draw agent hello 1 0 answer answered

opened : from_state blind redaction ≡ ok redactor
unfolding from_state decode_b64_32 rev_of to_array
opened = refl

redactor-IsConsistent : IsConsistent blind redactor
redactor-IsConsistent = from_state-IsConsistent blind redaction opened

abbrev typed : Text → Input
typed line = record { line = line; id = 7; now = 8; draw = draw }

repl-IsSound_example :
    IsSound world
      (repl world
        (typed (codes "/remember likes tea") ∷ typed (codes "tea?") ∷ [])
        ((new world draw.write true 5 agent []).0, 1, (new world draw.write true 5 agent []).1)).0
repl-IsSound_example =
    repl-IsSound world draw.write true 5 agent []
      (typed (codes "/remember likes tea") ∷ typed (codes "tea?") ∷ []) 1 redactor-IsConsistent

-- A command without its argument is a message for the provider.
no_argument : parse_command (codes " /remember  ") ≡ chat (codes "/remember")
unfolding parse_command strip_prefix or_else trim trim_left trim_right is_whitespace starts_with
    bytes_eq
no_argument = refl

naive_summary-bound_instance : length (naive_summary (replicate 10 65) hello) ≤ 4000
naive_summary-bound_instance = naive_summary-bound (replicate 10 65) hello

abbrev wide : Text
wide = replicate 2000 0x2026

wide_text : length (wide ++ turn_lines []) + 4000 ≤ text_len (wide ++ turn_lines [])
unfolding turn_lines text_len utf8_width
wide_text = omega arith

wide_some : 1 ≤ length (wide ++ turn_lines [])
unfolding turn_lines
wide_some = omega arith

naive_summary_lost_example : naive_summary wide [] ≡ []
naive_summary_lost_example = naive_summary_lost wide [] wide_text wide_some
