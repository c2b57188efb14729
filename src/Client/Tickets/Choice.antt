-- ===== src/Client/Tickets/Choice.antt =====
-- Which ticket `FileTicketSource::next_ticket` takes, and what it leaves (client/src/tickets.rs).
use zk_llm_gateway.Prelude.{
  ℕ, ◌≡◌, ◌≢◌, refl, sym, ap, ◌∙◌, ◌⊎◌, inl, inr, false, Option, none, some, List, [], ◌∷◌, ◌++◌,
  Bool-cases,
}
use zk_llm_gateway.Prelude.Text.{Bytes, bytes_eq, bytes_eq_iff}
use zk_llm_gateway.Prelude.Result.{Result, ok, err}
use zk_llm_gateway.Token.{TokenClass, class_eq}
use zk_llm_gateway.Token.Classes.{class_eq_iff}
use zk_llm_gateway.Types.{ZkTicket}
use zk_llm_gateway.Client.Tickets.{
  TicketError, file_empty, not_bound, FileTicketSource, suc_index, position, first_index, or_else,
  choose, keep_first, remove, after_remove, after_choose, next_ticket, TicketJson, Written,
  all_written, broken_off, persist, after_write,
}

-- The ticket stands between `before` and `after`, and it is the first of its class, or the very
-- first where there is none of the class.
pub record IsChosen (tc : TokenClass) (tickets before after : List ZkTicket) (t : ZkTicket)
    : Type 0 where
  pub place : tickets ≡ before ++ t ∷ after
  pub first_of_class : position tc before ≡ none
  pub of_class : (t.token_class ≡ tc) ⊎ ((before ≡ []) × (position tc tickets ≡ none))

class_ne : (t : ZkTicket) (tc : TokenClass) → class_eq t.token_class tc ≡ false → t.token_class ≢ tc
class_ne t tc h e = cc (sym h ∙ (class_eq_iff _ _).1 e)

-- What `position` finds, and what `remove` does there.
abbrev Found : TokenClass → List ZkTicket → Option ℕ → Type 0
Found tc ts none = Unit
Found tc ts (some i) =
    (before after : List ZkTicket) × (t : ZkTicket) × (ts ≡ before ++ t ∷ after)
    × (position tc before ≡ none)
    × (t.token_class ≡ tc)
    × (remove i ts ≡ some (t, before ++ after))

Found-later :
    (tc : TokenClass) (t : ZkTicket) (ts : List ZkTicket) (o : Option ℕ)
    → class_eq t.token_class tc ≡ false
    → Found tc ts o
    → Found tc (t ∷ ts) (suc_index o)
unfolding suc_index position remove keep_first
Found-later tc t ts none ne h = tt
Found-later tc t ts (some i) ne (before, after, u, e, free, of_class, taken) =
    (t ∷ before, after, u, ap (λ l. t ∷ l) e, rw (ne, free) refl, of_class, rw taken refl)

position-Found : (tc : TokenClass) (ts : List ZkTicket) → Found tc ts (position tc ts)
unfolding position remove
position-Found tc [] = tt
position-Found tc (t ∷ ts) = elim (Bool-cases (class_eq t.token_class tc)) [
  | inl e ↦ rw e ([], ts, t, refl, refl, (class_eq_iff _ _).0 e, refl)
  | inr e ↦ rw e (Found-later tc t ts (position tc ts) e (position-Found tc ts))
]

-- What is in the file after the tickets were to be written to it: all of their JSON, or what a write
-- that was broken off left; without JSON nothing is written.
pub data IsPersisted (json : TicketJson) (tickets : List ZkTicket) (old : Bytes)
    : Written → Bytes → Type 0 where
  whole :
      (bytes : Bytes)
      → json.print tickets ≡ some bytes
      → IsPersisted json tickets old all_written bytes
  broken :
      (bytes left : Bytes)
      → json.print tickets ≡ some bytes
      → IsPersisted json tickets old (broken_off left) left
  unprinted : (w : Written) → json.print tickets ≡ none → IsPersisted json tickets old w old

persist-IsPersisted :
    (json : TicketJson) (written : Written) (tickets : List ZkTicket) (old : Bytes)
    (printed : Option Bytes)
    → json.print tickets ≡ printed
    → IsPersisted json tickets old written (persist json written tickets old)
unfolding persist after_write
persist-IsPersisted json written tickets old none e = rw (persist, e) (unprinted written e)
persist-IsPersisted json all_written tickets old (some bytes) e = rw (persist, e) (whole bytes e)
persist-IsPersisted json (broken_off left) tickets old (some bytes) e =
    rw (persist, e) (broken bytes left e)

-- The outcome of taking a ticket out of the source.
abbrev pub Taken :
    TicketJson
    → Written
    → TokenClass
    → Bytes
    → FileTicketSource
    → Result TicketError ZkTicket × FileTicketSource
    → Type 0
Taken json written tc commitment src out =
    (before after : List ZkTicket) × (t : ZkTicket) × IsChosen tc src.tickets before after t
    × (out.1.tickets ≡ before ++ after)
    × (((t.commitment_root ≡ commitment)
          × (out.0 ≡ ok t)
          × IsPersisted json (before ++ after) src.file written out.1.file)
        ⊎ ((t.commitment_root ≢ commitment) × (out.0 ≡ err not_bound) × (out.1.file ≡ src.file)))

after_remove-Taken :
    (json : TicketJson) (written : Written) (tc : TokenClass) (commitment : Bytes)
    (src : FileTicketSource) (before after : List ZkTicket) (t : ZkTicket)
    → IsChosen tc src.tickets before after t
    → Taken json written tc commitment src
        (after_remove json written commitment src (some (t, before ++ after)))
unfolding after_remove
after_remove-Taken json written tc commitment src before after t chosen =
    elim (Bool-cases (bytes_eq t.commitment_root commitment)) [
      | inl e ↦ rw e (
        before,
        after,
        t,
        chosen,
        refl,
        inl (
          (bytes_eq_iff _ _).0 e,
          refl,
          persist-IsPersisted json written (before ++ after) src.file _ refl,
        ),
      )
      | inr e ↦ rw e (
        before,
        after,
        t,
        chosen,
        refl,
        inr ((λ h. cc (sym e ∙ (bytes_eq_iff _ _).1 h)), refl, refl),
      )
    ]

without_class :
    (json : TicketJson) (written : Written) (tc : TokenClass) (commitment : Bytes)
    (tickets : List ZkTicket) (file : Bytes)
    → position tc tickets ≡ none
    → let src : FileTicketSource = record { tickets = tickets; file = file } in
      ((tickets ≡ [])
        × (after_choose json written commitment src (first_index tickets) ≡ (err file_empty, src)))
      ⊎ Taken json written tc commitment src
          (after_choose json written commitment src (first_index tickets))
unfolding after_choose first_index remove position
without_class json written tc commitment [] file e = inl (refl, refl)
without_class json written tc commitment (t ∷ ts) file e = inr (
    after_remove-Taken json written tc commitment (record { tickets = t ∷ ts; file = file }) [] ts t
      (record { place = refl; first_of_class = refl; of_class = inr (refl, e) }))

choice :
    (json : TicketJson) (written : Written) (tc : TokenClass) (commitment : Bytes)
    (src : FileTicketSource) (found : Option ℕ)
    → position tc src.tickets ≡ found
    → Found tc src.tickets found
    → ((src.tickets ≡ [])
        × (after_choose json written commitment src (or_else found (first_index src.tickets))
            ≡ (err file_empty, src)))
      ⊎ Taken json written tc commitment src
          (after_choose json written commitment src (or_else found (first_index src.tickets)))
unfolding after_choose or_else first_index remove position
choice json written tc commitment src (some i) e (before, after, t, place, free, of_class, taken) =
    inr (
      rw taken (
        after_remove-Taken json written tc commitment src before after t
          (record { place = place; first_of_class = free; of_class = inl of_class })))
choice json written tc commitment src none e h =
    without_class json written tc commitment src.tickets src.file e

-- An empty source reports that it is empty. Every other source loses exactly one ticket, the first of
-- the wanted class, or the very first where there is none of it. If that ticket is bound to the
-- request it is handed out, however the write ends, and the file then has the JSON of the remaining
-- tickets, or what a write that was broken off left in it, or, where there is no JSON, its old bytes.
-- If the ticket is not bound to the request, it is lost from memory all the same, the call fails, and
-- the file is not written.
pub next_ticket_cases :
    (json : TicketJson) (written : Written) (tc : TokenClass) (commitment : Bytes)
    (src : FileTicketSource)
    → ((src.tickets ≡ []) × (next_ticket json written tc commitment src ≡ (err file_empty, src)))
      ⊎ Taken json written tc commitment src (next_ticket json written tc commitment src)
unfolding next_ticket choose
next_ticket_cases json written tc commitment src =
    choice json written tc commitment src (position tc src.tickets) refl
      (position-Found tc src.tickets)
