-- ===== src/Client/Manager/Tests.antt =====
-- Examples for client/src/manager.rs.
use zk_llm_gateway.Prelude.{ℕ, ◌≤◌, ◌≡◌, ◌≢◌, refl, true, false, none, [], ◌∷◌, ◌++◌, replicate}
use zk_llm_gateway.Prelude.Text.{Text, codes, bytes_eq, text_len, utf8_width}
use zk_llm_gateway.Prelude.Strings.{lookup, put, has_key, starts_with}
use zk_llm_gateway.Prelude.Result.{Result, ok, err}
use zk_llm_gateway.Token.{c256}
use zk_llm_gateway.Envelope.{to_array}
use zk_llm_gateway.Client.Redaction.{none_mode, from_state, decode_b64_32, rev_of, new_state}
use zk_llm_gateway.Client.Redaction.Marks.{free_of}
use zk_llm_gateway.Client.Session.{
  SessionDisk, plain, new, load_session, load_blob, load_wrapper, save_session, wrap,
}
use zk_llm_gateway.Client.Agent.{AgentRuntime}
use zk_llm_gateway.Client.Toy.{world, agent, config, session, draw}
use zk_llm_gateway.Client.Manager.{
  AgentManagerConfig, AgentManager, is_allowed, all_allowed, validate_session_id, directory,
  ends_with_slash, join, file_name, session_path_for, Load, build_agent, load_or_create, load_into,
  get_or_load, create_session,
}
use zk_llm_gateway.Client.Manager.Paths.{session_path_for-inside, session_path_for-injective}
use zk_llm_gateway.Client.Manager.Loading.{IsLoaded, get_or_load-IsLoaded, create_session-IsLoaded}

abbrev cfg : AgentManagerConfig
cfg = record {
  endpoint_url = codes "http";
  gateway_public_bytes = [];
  model = codes "m";
  token_class = c256;
  redact_mode = none_mode;
  extra_terms = [];
  prompt_cfg = config;
  session_key = none;
  sessions_dir = codes "data";
  default_system_prompt = codes "Be brief.";
  default_session_id = codes "default";
  default_session_path_override = none;
  index_messages = true;
  max_messages_indexed = 5;
}

valid_a : validate_session_id (codes "work-1") ≡ ok tt
unfolding validate_session_id all_allowed is_allowed text_len utf8_width
valid_a = refl

session_path_for-inside_example :
    (session_path_for cfg (codes "work-1")
      ≡ directory (codes "data") ++ (codes "work-1" ++ codes ".session.json"))
    × (free_of 47 (codes "work-1") ≡ true)
    × (free_of 46 (codes "work-1") ≡ true)
    × (text_len (codes "work-1") ≢ 0)
    × (text_len (codes "work-1") ≤ 64)
session_path_for-inside_example = session_path_for-inside cfg (codes "work-1") refl valid_a

session_path_for-injective_instance : codes "work-1" ≡ codes "work-1"
session_path_for-injective_instance =
    session_path_for-injective cfg (codes "work-1") (codes "work-1") refl valid_a valid_a refl

abbrev load : Load
load = record {
  birth = record { now = 5; salt = replicate 32 4 };
  write_new = draw.write;
  write_terms = draw.write;
  write_agent = draw.write;
}

abbrev stored : AgentManager SessionDisk ℕ
stored = record {
  cfg = cfg;
  sessions = (codes "other", agent) ∷ [];
  files = (codes "data/work-1.session.json", plain session) ∷ [];
}

value {ℓ} : {E : Type 0} {A : Type ℓ} → A → Result E A → A
value a (ok b) = b
value a (err e) = a

abbrev opened : AgentRuntime ℕ × AgentManager SessionDisk ℕ
opened = value (agent, stored) (get_or_load world load (codes "work-1") stored)

opened_lem : get_or_load world load (codes "work-1") stored ≡ ok (opened.0, opened.1)
unfolding value get_or_load load_into load_or_create build_agent validate_session_id all_allowed
    is_allowed text_len utf8_width session_path_for join directory ends_with_slash file_name
    starts_with bytes_eq lookup has_key load_session load_blob load_wrapper from_state decode_b64_32
    to_array rev_of
opened_lem = refl

get_or_load-IsLoaded_example :
    (validate_session_id (codes "work-1") ≡ ok tt)
    × IsLoaded world (codes "work-1") stored opened.0 opened.1
get_or_load-IsLoaded_example =
    get_or_load-IsLoaded world load (codes "work-1") stored opened.0 opened.1 opened_lem

abbrev created : Text × AgentManager SessionDisk ℕ
created = value (codes "", stored) (create_session world load (codes "work-2") (codes "Hi.") stored)

created_lem :
    create_session world load (codes "work-2") (codes "Hi.") stored ≡ ok (created.0, created.1)
unfolding value create_session get_or_load load_into load_or_create build_agent validate_session_id
    all_allowed is_allowed text_len utf8_width session_path_for join directory ends_with_slash
    file_name starts_with bytes_eq lookup put has_key save_session wrap load_session load_blob
    load_wrapper from_state decode_b64_32 to_array rev_of new new_state
created_lem = refl

create_session-IsLoaded_instance :
    (created.0 ≡ codes "work-2")
    × (validate_session_id (codes "work-2") ≡ ok tt)
    × (has_key (session_path_for cfg (codes "work-2")) stored.files ≡ false)
    × ((agent : AgentRuntime ℕ) × IsLoaded world (codes "work-2") stored agent created.1)
create_session-IsLoaded_instance =
    create_session-IsLoaded world load (codes "work-2") (codes "Hi.") created.0 stored created.1
      created_lem
