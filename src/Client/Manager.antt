-- ===== src/Client/Manager.antt =====
-- client/src/manager.rs: the agents of several sessions, by session id. `get_or_load` checks the map
-- twice, under a read and under a write lock; here it runs at one go, as under the write lock.
pub mod Paths
pub mod Loading
mod Tests
use zk_llm_gateway.Prelude.{
  ℕ, Bool, true, false, ◌&&◌, ◌||◌, not, Option, none, some, List, [], ◌∷◌, ◌++◌, ltb, leb, ◌==◌,
  if◌then◌else◌,
}
use zk_llm_gateway.Prelude.Text.{Bytes, Text, codes, bytes_eq, text_len}
use zk_llm_gateway.Prelude.Strings.{Dict, lookup, put, has_key, starts_with}
use zk_llm_gateway.Prelude.Result.{Result, ok, err, ◌>>=◌, ◌>>◌, guard, map_err}
use zk_llm_gateway.Token.{TokenClass}
use zk_llm_gateway.Client.Redaction.{RedactMode, Redactor, from_state}
use zk_llm_gateway.Client.Session.{Session, Birth, SessionError, load_session, save_session}
use zk_llm_gateway.Client.Session
use zk_llm_gateway.Client.MemoryStore
use zk_llm_gateway.Client.Prompt.Assembly.{PromptBuildConfig}
use zk_llm_gateway.Client.Agent.{World, AgentRuntime, Write, add_terms, save_or_not}
use zk_llm_gateway.Client.Agent

pub record AgentManagerConfig : Type 0 where
  pub endpoint_url : Text
  pub gateway_public_bytes : Bytes
  pub model : Text
  pub token_class : TokenClass
  pub redact_mode : RedactMode
  pub extra_terms : List Text
  pub prompt_cfg : PromptBuildConfig
  pub session_key : Option Bytes
  pub sessions_dir : Text
  pub default_system_prompt : Text
  pub default_session_id : Text
  pub default_session_path_override : Option Text
  pub index_messages : Bool
  pub max_messages_indexed : ℕ

-- The loaded sessions, and the disk.
pub record AgentManager (Blob F : Type 0) : Type 0 where
  pub cfg : AgentManagerConfig
  pub sessions : Dict (AgentRuntime F)
  pub files : Dict Blob

pub data ManagerError : Type 0 where
  invalid_length invalid_characters already_exists redactor_failed : ManagerError
  load_failed save_failed : SessionError → ManagerError

-- `is_ascii_alphanumeric`, a dash or an underscore.
unfoldable pub is_allowed : ℕ → Bool
is_allowed c =
    (leb 48 c && leb c 57)
    || (leb 65 c && leb c 90)
    || (leb 97 c && leb c 122)
    || c == 45
    || c == 95

unfoldable pub all_allowed : Text → Bool
unfolding is_allowed
all_allowed [] = true
all_allowed (c ∷ cs) = is_allowed c && all_allowed cs

unfoldable pub validate_session_id : Text → Result ManagerError (Unit {0})
unfolding all_allowed
validate_session_id session_id = do
  guard (not (text_len session_id == 0 || ltb 64 (text_len session_id))) invalid_length
  guard (all_allowed session_id) invalid_characters

unfoldable pub ends_with_slash : Text → Bool
ends_with_slash [] = false
ends_with_slash (c ∷ []) = c == 47
ends_with_slash (c ∷ d ∷ ds) = ends_with_slash (d ∷ ds)

-- The directory as what stands before a name.
unfoldable pub directory : Text → Text
unfolding ends_with_slash
directory [] = []
directory (c ∷ cs) = if ends_with_slash (c ∷ cs) then c ∷ cs else c ∷ (cs ++ 47 ∷ [])

-- `Path::join`: an absolute name takes the directory's place.
unfoldable pub join : Text → Text → Text
unfolding directory
join dir name = if starts_with (47 ∷ []) name then name else directory dir ++ name

unfoldable pub file_name : Text → Text
file_name session_id = session_id ++ codes ".session.json"

unfoldable pub session_path_for : AgentManagerConfig → Text → Text
unfolding join
session_path_for cfg session_id =
    let default_path = join cfg.sessions_dir (file_name session_id) in
    if bytes_eq session_id cfg.default_session_id
    then elim cfg.default_session_path_override [ none ↦ default_path | some p ↦ p ]
    else default_path

-- The random bytes, clock and write answers of a load.
pub record Load : Type 0 where
  pub birth : Birth
  pub write_new : Write
  pub write_terms : Write
  pub write_agent : Write

module _ {Blob F Source : Type 0} (w : World Blob F Source) where
  unfoldable pub agent_of : AgentManagerConfig → Text → Session → Redactor → AgentRuntime F
  agent_of cfg session_path session redactor = record {
    endpoint_url = cfg.endpoint_url;
    gateway_public_bytes = cfg.gateway_public_bytes;
    model = cfg.model;
    token_class = cfg.token_class;
    redact_mode = cfg.redact_mode;
    extra_terms = cfg.extra_terms;
    prompt_cfg = cfg.prompt_cfg;
    session_path = session_path;
    session_key = cfg.session_key;
    session = session;
    redactor = redactor;
    memory_store = MemoryStore.default w.floats;
  }

  unfoldable pub build_agent :
      Load
      → AgentManagerConfig
      → Text
      → Session
      → Dict Blob
      → Result ManagerError (AgentRuntime F × Dict Blob)
  unfolding agent_of
  build_agent load cfg session_path session files = do
    redactor ← map_err (λ e. redactor_failed) (from_state w.crypto session.redaction)
    let red = add_terms cfg.extra_terms (add_terms session.redaction.custom_terms redactor)
    let session' = record session { redaction = red.state }
    let files' = save_or_not w load.write_terms session_path session' cfg.session_key files
    ok (
        Agent.new w load.write_agent cfg.index_messages cfg.max_messages_indexed
          (agent_of cfg session_path session' red) files')

  -- The session of a path: loaded when the file is there, else new, and saved if that can be done.
  unfoldable pub load_or_create :
      Load → AgentManagerConfig → Text → Dict Blob → Result ManagerError (Session × Dict Blob)
  load_or_create load cfg path files =
      if has_key path files
      then (do
        session ←
            map_err load_failed
              (load_session w.crypto w.formats load.birth files path cfg.session_key)
        ok (session, files))
      else (let session = Session.new w.crypto load.birth cfg.default_system_prompt in
          ok (session, save_or_not w load.write_new path session cfg.session_key files))

  -- A session that is not in memory.
  unfoldable pub load_into :
      Load → Text → AgentManager Blob F → Result ManagerError (AgentRuntime F × AgentManager Blob F)
  unfolding load_or_create build_agent
  load_into load session_id m = do
    let path = session_path_for m.cfg session_id
    (session, files) ← load_or_create load m.cfg path m.files
    (agent, files') ← build_agent load m.cfg path session files
    ok (agent, record { cfg = m.cfg; sessions = put session_id agent m.sessions; files = files' })

  unfoldable pub get_or_load :
      Load → Text → AgentManager Blob F → Result ManagerError (AgentRuntime F × AgentManager Blob F)
  unfolding load_into
  get_or_load load session_id m = do
    validate_session_id session_id
    elim (lookup session_id m.sessions) [
      | some agent ↦ ok (agent, m)
      | none ↦ load_into load session_id m
    ]

  unfoldable pub insert_prebuilt :
      Text → AgentRuntime F → AgentManager Blob F → Result ManagerError (AgentManager Blob F)
  insert_prebuilt session_id agent m = do
    validate_session_id session_id
    ok (record m { sessions = put session_id agent m.sessions })

  -- The id is the given one, or a new UUID's text.
  unfoldable pub create_session :
      Load → Text → Text → AgentManager Blob F → Result ManagerError (Text × AgentManager Blob F)
  unfolding get_or_load
  create_session load id system m = do
    validate_session_id id
    let path = session_path_for m.cfg id
    guard (not (has_key path m.files)) already_exists
    let session = Session.new w.crypto load.birth system
    files ← map_err save_failed (
        save_session w.crypto w.formats load.write_new.salt load.write_new.nonce
          load.write_new.writable m.files path session m.cfg.session_key)
    (agent, m') ← get_or_load load id (record m { files = files })
    ok (id, m')
