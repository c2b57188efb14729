-- ===== src/Client/Tickets.antt =====
-- client/src/tickets.rs: where the client takes its tickets from. Random bytes are arguments. What a
-- write that fails leaves in the ticket file is an argument too, since `fs::write` empties the file
-- before it writes.
pub mod Choice
mod Tests
use zk_llm_gateway.Prelude.{
  ℕ, zero, suc, Bool, true, false, Option, none, some, List, [], ◌∷◌, if◌then◌else◌, length, ◌==◌,
}
use zk_llm_gateway.Prelude.Text.{Bytes, codes, bytes_eq}
use zk_llm_gateway.Prelude.Result.{Result, ok, err, ok_or, ◌>>=◌}
use zk_llm_gateway.Crypto.{Crypto}
use zk_llm_gateway.Token.{TokenClass, class_eq}
use zk_llm_gateway.Json.{Value, bool, str, obj, end, field}
use zk_llm_gateway.Types.{ZkTicket, Encoding, class_name}

pub data TicketError : Type 0 where
  read_failed parse_failed commitment_size cannot_encode file_empty out_of_range not_bound :
      TicketError

-- `DummyTicketSource::next_ticket`: 32 and 64 random bytes.
unfoldable pub dummy_ticket : Bytes → Bytes → TokenClass → Bytes → ZkTicket
dummy_ticket nullifier proof token_class request_commitment = record {
  commitment_root = request_commitment;
  nullifier = nullifier;
  token_class = token_class;
  proof = proof;
}

module _ (c : Crypto) (s : Encoding) where
  unfoldable pub evidence_value : Bytes → Bytes → TokenClass → Bytes → Value
  evidence_value replay_identifier authorization_id token_class request_commitment = obj (
      field (codes "schema") (str (codes "actum.payment-finality.v1")) (
        field (codes "request_commitment_b64") (str (c.b64_encode request_commitment)) (
          field (codes "replay_identifier_b64") (str (c.b64_encode replay_identifier)) (
            field (codes "token_class") (str (class_name token_class)) (
              field (codes "finalized") (bool true) (
                field (codes "authorization_id_b64") (str (c.b64_encode authorization_id)) end))))))

  with_evidence : Bytes → TokenClass → Bytes → Option Bytes → Result TicketError ZkTicket
  with_evidence replay_identifier token_class request_commitment none = err cannot_encode
  with_evidence replay_identifier token_class request_commitment (some evidence) = ok (record {
    commitment_root = request_commitment;
    nullifier = replay_identifier;
    token_class = token_class;
    proof = evidence;
  })

  -- `ActumDevTicketSource::next_ticket`: twice 48 random bytes.
  unfoldable pub actum_dev_ticket : Bytes → Bytes → TokenClass → Bytes → Result TicketError ZkTicket
  unfolding with_evidence evidence_value
  actum_dev_ticket replay_identifier authorization_id token_class request_commitment =
      if length request_commitment == 48
      then with_evidence replay_identifier token_class request_commitment (
          s.to_vec
            (evidence_value replay_identifier authorization_id token_class request_commitment))
      else err commitment_size

-- The tickets in memory, and the bytes of the file.
pub record FileTicketSource : Type 0 where
  pub tickets : List ZkTicket
  pub file : Bytes

-- `from_slice` and `to_vec_pretty` of serde_json, for a list of tickets.
pub record TicketJson : Type 0 where
  pub print : List ZkTicket → Option Bytes
  pub parse : Bytes → Option (List ZkTicket)

-- How a write ends: all bytes written, or a failure that leaves these.
pub data Written : Type 0 where
  all_written : Written
  broken_off : Bytes → Written

suc_index : Option ℕ → Option ℕ
suc_index none = none
suc_index (some i) = some (suc i)

-- `iter().position(|t| t.token_class == token_class)`.
unfoldable pub position : TokenClass → List ZkTicket → Option ℕ
unfolding suc_index
position token_class [] = none
position token_class (t ∷ ts) =
    let rest = suc_index (position token_class ts) in
    if class_eq t.token_class token_class then some 0 else rest

first_index : List ZkTicket → Option ℕ
first_index [] = none
first_index (t ∷ ts) = some 0

or_else : Option ℕ → Option ℕ → Option ℕ
or_else none other = other
or_else (some i) other = some i

-- The first ticket of the class, or the first of any class.
unfoldable pub choose : TokenClass → List ZkTicket → Option ℕ
unfolding position first_index or_else
choose token_class tickets = or_else (position token_class tickets) (first_index tickets)

keep_first : ZkTicket → Option (ZkTicket × List ZkTicket) → Option (ZkTicket × List ZkTicket)
keep_first t none = none
keep_first t (some (u, rest)) = some (u, t ∷ rest)

-- `Vec::remove`, `none` where it panics.
unfoldable pub remove : ℕ → List ZkTicket → Option (ZkTicket × List ZkTicket)
unfolding keep_first
remove i [] = none
remove zero (t ∷ ts) = some (t, ts)
remove (suc i) (t ∷ ts) = keep_first t (remove i ts)

unfoldable pub after_write : Written → Bytes → Bytes
after_write all_written bytes = bytes
after_write (broken_off left) bytes = left

module _ (json : TicketJson) where
  -- `FileTicketSource::load`; the argument is what the file holds, where it can be read.
  unfoldable pub load : Option Bytes → Result TicketError FileTicketSource
  load file = do
    bytes ← ok_or file read_failed
    tickets ← ok_or (json.parse bytes) parse_failed
    ok (record { tickets = tickets; file = bytes })

  -- `FileTicketSource::persist`: the file's bytes afterwards.
  unfoldable pub persist : Written → List ZkTicket → Bytes → Bytes
  unfolding after_write
  persist written tickets file = elim (json.print tickets) [
    | none ↦ file
    | some bytes ↦ after_write written bytes
  ]

  unfoldable pub after_remove :
      Written
      → Bytes
      → FileTicketSource
      → Option (ZkTicket × List ZkTicket)
      → Result TicketError ZkTicket × FileTicketSource
  unfolding persist
  after_remove written request_commitment src none = (err out_of_range, src)
  after_remove written request_commitment src (some (ticket, rest)) =
      if bytes_eq ticket.commitment_root request_commitment
      then (ok ticket, record { tickets = rest; file = persist written rest src.file })
      else (err not_bound, record { tickets = rest; file = src.file })

  unfoldable pub after_choose :
      Written → Bytes → FileTicketSource → Option ℕ → Result TicketError ZkTicket × FileTicketSource
  unfolding remove after_remove
  after_choose written request_commitment src none = (err file_empty, src)
  after_choose written request_commitment src (some i) =
      after_remove written request_commitment src (remove i src.tickets)

  -- `FileTicketSource::next_ticket`; the first argument says how the write ends, if there is one.
  unfoldable pub next_ticket :
      Written
      → TokenClass
      → Bytes
      → FileTicketSource
      → Result TicketError ZkTicket × FileTicketSource
  unfolding choose after_choose
  next_ticket written token_class request_commitment src =
      after_choose written request_commitment src (choose token_class src.tickets)
