-- ===== src/Client/Tickets/Tests.antt =====
-- Examples for client/src/tickets.rs.
use zk_llm_gateway.Prelude.{◌≡◌, ◌⊎◌, some, none, length, ◌==◌, if◌then◌else◌, [], ◌∷◌}
use zk_llm_gateway.Prelude.Text.{Bytes}
use zk_llm_gateway.Prelude.Result.{err}
use zk_llm_gateway.Token.{TokenClass, c256, c512}
use zk_llm_gateway.Types.{ZkTicket}
use zk_llm_gateway.Client.Tickets.{
  FileTicketSource, TicketJson, broken_off, file_empty, next_ticket,
}
use zk_llm_gateway.Client.Tickets.Choice.{Taken, next_ticket_cases}

abbrev ticket : TokenClass → Bytes → ZkTicket
ticket token_class root = record {
  commitment_root = root;
  nullifier = 1 ∷ [];
  token_class = token_class;
  proof = [];
}

abbrev source : FileTicketSource
source = record { tickets = ticket c512 (5 ∷ []) ∷ ticket c256 (6 ∷ []) ∷ []; file = 2 ∷ 0 ∷ [] }

-- The JSON of a list is its length here; a write is broken off after its first byte.
abbrev json : TicketJson
json = record {
  print = λ ts. some (length ts ∷ 0 ∷ []);
  parse = λ b. if length b == 2 then some source.tickets else none;
}

next_ticket_cases_example :
    ((source.tickets ≡ [])
      × (next_ticket json (broken_off (1 ∷ [])) c256 (6 ∷ []) source ≡ (err file_empty, source)))
    ⊎ Taken json
        (broken_off (1 ∷ []))
        c256
        (6 ∷ [])
        source
        (next_ticket json (broken_off (1 ∷ [])) c256 (6 ∷ []) source)
next_ticket_cases_example = next_ticket_cases json (broken_off (1 ∷ [])) c256 (6 ∷ []) source
