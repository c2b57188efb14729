-- ===== src/Client/Session/Tests.antt =====
-- Examples for client/src/session.rs. A file holds a wrapper or a list of messages as they are.
use zk_llm_gateway.Prelude.{◌≡◌, refl, true, Option, none, some, List, [], ◌∷◌, arith, replicate}
use zk_llm_gateway.Prelude.Text.{Text, codes, bytes_eq}
use zk_llm_gateway.Prelude.Strings.{Dict, lookup}
use zk_llm_gateway.Prelude.Result.{ok}
use zk_llm_gateway.Json.{end}
use zk_llm_gateway.Types.{ChatMessage}
use zk_llm_gateway.Crypto.Toy.{toy, toy-CryptoLaws, decrypt, checksum}
use zk_llm_gateway.Envelope.{to_array}
use zk_llm_gateway.Client.Session.{
  Session, SessionDisk, encrypted, Formats, Birth, new, push_memory, derive_session_key,
  decode_field, load_encrypted, load_wrapper, load_blob, load_session, save_session,
}
use zk_llm_gateway.Client.Session.Files.{
  IsOpened, load_session-save_session, load_session-IsOpened, load_session-history,
}

data Content : Type 0 where
  wrapper : SessionDisk → Content
  history : List ChatMessage → Content

parse_disk : Content → Option SessionDisk
parse_disk (wrapper w) = some w
parse_disk (history h) = none

parse_history : Content → Option (List ChatMessage)
parse_history (wrapper w) = none
parse_history (history h) = some h

abbrev birth : Birth
birth = record { now = 1700; salt = replicate 32 3 }

abbrev session : Session
session =
    push_memory 5 1701 (codes "likes tea") (codes "food" ∷ []) (new toy birth (codes "Be brief."))

abbrev formats : Formats Content
formats = record {
  print_disk = wrapper;
  parse_disk = parse_disk;
  print_session = λ s. s.system_prompt;
  parse_session = λ b. some session;
  parse_history = parse_history;
}

load_session-save_session_example :
    (s n t : Text) × (saved : Dict Content) × (save_session toy formats
        (replicate 16 1)
        (replicate 12 2)
        true
        []
        (codes "s.json")
        session
        (some (replicate 32 9))
      ≡ ok saved)
    × (lookup (codes "s.json") saved ≡ some (wrapper (encrypted 1 s n t)))
    × (load_session toy formats birth saved (codes "s.json") (some (replicate 32 9)) ≡ ok session)
unfolding new push_memory
load_session-save_session_example =
    load_session-save_session toy toy-CryptoLaws formats (λ s n t. unfold parse_disk in refl)
      (replicate 16 1) (replicate 12 2) (replicate 32 9) [] (codes "s.json") session birth refl refl
      (omega arith)

-- What the concrete cryptography makes of an empty text, the key and the salt.
abbrev sealed_files : Dict Content
sealed_files =
    (codes "s.json", wrapper (encrypted 1 (replicate 16 1) (replicate 12 2) (replicate 16 63476)))
    ∷ []

sealed_files_loaded :
    load_session toy formats birth sealed_files (codes "s.json") (some (replicate 32 9))
    ≡ ok session
unfolding load_session load_blob load_wrapper load_encrypted decode_field derive_session_key
    to_array lookup bytes_eq parse_disk decrypt checksum
sealed_files_loaded = refl

load_session-IsOpened_example :
    IsOpened toy formats 1
      (replicate 16 1)
      (replicate 12 2)
      (replicate 16 63476)
      (some (replicate 32 9))
      session
unfolding lookup bytes_eq parse_disk
load_session-IsOpened_example =
    load_session-IsOpened toy formats birth sealed_files (codes "s.json")
      (wrapper (encrypted 1 (replicate 16 1) (replicate 12 2) (replicate 16 63476))) 1
      (replicate 16 1) (replicate 12 2) (replicate 16 63476) (some (replicate 32 9)) session refl
      refl sealed_files_loaded

abbrev old : List ChatMessage
old = record { role = codes "user"; content = codes "hello"; extra = end } ∷ []

abbrev old_files : Dict Content
old_files = (codes "old.json", history old) ∷ []

load_session-history_instance :
    load_session toy formats birth old_files (codes "old.json") none
    ≡ ok (record (new toy birth (codes "You are a helpful assistant.")) { messages = old })
unfolding lookup bytes_eq parse_disk parse_history
load_session-history_instance =
    load_session-history toy formats birth old_files (codes "old.json") (history old) old none refl
      refl refl
