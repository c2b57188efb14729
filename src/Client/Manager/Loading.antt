-- ===== src/Client/Manager/Loading.antt =====
-- What loading a session does to the manager.
use zk_llm_gateway.Prelude.{
  ◌≡◌, refl, ap, sym, ◌∙◌, Bool, true, false, not, Option, none, some, subst,
}
use zk_llm_gateway.Prelude.Text.{Text, bytes_eq}
use zk_llm_gateway.Prelude.Strings.{lookup, put, has_key}
use zk_llm_gateway.Prelude.Dicts.{lookup-put, lookup-put_apart}
use zk_llm_gateway.Prelude.Result.{ok, guard, map_err, >>=-eq-ok, guard-eq-ok, ok-injective}
use zk_llm_gateway.Client.Session
use zk_llm_gateway.Client.Session.{save_session}
use zk_llm_gateway.Client.Agent.{World, AgentRuntime}
use zk_llm_gateway.Client.Manager.{
  AgentManager, already_exists, save_failed, validate_session_id, session_path_for, Load,
  build_agent, load_or_create, load_into, get_or_load, create_session,
}

absent_file : (b : Bool) → not b ≡ true → b ≡ false
absent_file true h = cc h
absent_file false h = refl

module _ {Blob F Source : Type 0} (w : World Blob F Source) where
  -- The agent is the session's, the other sessions are as before, and asking for it again changes
  -- nothing.
  pub record IsLoaded (id : Text) (m : AgentManager Blob F) (agent : AgentRuntime F)
      (m' : AgentManager Blob F) : Type 0 where
    pub found : lookup id m'.sessions ≡ some agent
    pub others : (j : Text) → bytes_eq id j ≡ false → lookup j m'.sessions ≡ lookup j m.sessions
    pub same_cfg : m'.cfg ≡ m.cfg
    pub again : (load : Load) → get_or_load w load id m' ≡ ok (agent, m')

  get_or_load-found :
      (load : Load) (id : Text) (m : AgentManager Blob F) (agent : AgentRuntime F) {u : Unit {0}}
      → validate_session_id id ≡ ok u
      → lookup id m.sessions ≡ some agent
      → get_or_load w load id m ≡ ok (agent, m)
  unfolding get_or_load
  get_or_load-found load id m agent valid found = rw (valid, get_or_load, found) refl

  IsLoaded-put :
      (id : Text) (m m' : AgentManager Blob F) (agent agent' : AgentRuntime F) {u : Unit {0}}
      → validate_session_id id ≡ ok u
      → agent' ≡ agent
      → m'.sessions ≡ put id agent' m.sessions
      → m'.cfg ≡ m.cfg
      → IsLoaded id m agent m'
  IsLoaded-put id m m' agent agent' valid same sessions cfg =
      let found : lookup id m'.sessions ≡ some agent =
        ap (lookup id) sessions ∙ lookup-put id agent' m.sessions ∙ ap some same in
      record {
        found = found;
        others = λ j apart. ap (lookup j) sessions ∙ lookup-put_apart j id agent' m.sessions apart;
        same_cfg = cfg;
        again = λ load. get_or_load-found load id m' agent valid found;
      }

  load_into-IsLoaded :
      (load : Load) (id : Text) (m : AgentManager Blob F) (agent : AgentRuntime F)
      (m' : AgentManager Blob F) {u : Unit {0}}
      → validate_session_id id ≡ ok u
      → load_into w load id m ≡ ok (agent, m')
      → IsLoaded id m agent m'
  unfolding load_into
  load_into-IsLoaded load id m agent m' valid h =
      let path = session_path_for m.cfg id in
      let ((session, files), loaded, h1) =
        >>=-eq-ok (load_or_create w load m.cfg path m.files) _ h in
      let ((agent', files'), built, h2) =
        >>=-eq-ok (build_agent w load m.cfg path session files) _ h1 in
      let made = ok-injective h2 in
      IsLoaded-put id m m' agent agent' valid
        (ap (λ (x : AgentRuntime F × AgentManager Blob F). x.0) made)
        (ap (λ (x : AgentRuntime F × AgentManager Blob F). x.1.sessions) (sym made))
        (ap (λ (x : AgentRuntime F × AgentManager Blob F). x.1.cfg) (sym made))

  lookup_cases :
      (load : Load) (id : Text) (m : AgentManager Blob F) (agent : AgentRuntime F)
      (m' : AgentManager Blob F) {u : Unit {0}} (o : Option (AgentRuntime F))
      → validate_session_id id ≡ ok u
      → lookup id m.sessions ≡ o
      → get_or_load w load id m ≡ ok (agent, m')
      → IsLoaded id m agent m'
  unfolding get_or_load
  lookup_cases load id m agent m' none valid e h =
      load_into-IsLoaded load id m agent m' valid (rw (valid, get_or_load, e) at h)
  lookup_cases load id m agent m' (some old) valid e h =
      let made = ok-injective (sym (get_or_load-found load id m old valid e) ∙ h) in
      let same : old ≡ agent = ap (λ (x : AgentRuntime F × AgentManager Blob F). x.0) made in
      subst (IsLoaded id m agent) (ap (λ (x : AgentRuntime F × AgentManager Blob F). x.1) made)
        (record {
          found = e ∙ ap some same;
          others = λ j apart. refl;
          same_cfg = refl;
          again = λ load'. get_or_load-found load' id m agent valid (e ∙ ap some same);
        })

  -- When a session is handed out, its id is valid, the agent is the one that the map then has for the
  -- id, the agents of all other sessions are as before, and asking for the session again hands out the
  -- same agent and changes nothing, the disk neither.
  pub get_or_load-IsLoaded :
      (load : Load) (id : Text) (m : AgentManager Blob F) (agent : AgentRuntime F)
      (m' : AgentManager Blob F)
      → get_or_load w load id m ≡ ok (agent, m')
      → (validate_session_id id ≡ ok tt) × IsLoaded id m agent m'
  unfolding get_or_load
  get_or_load-IsLoaded load id m agent m' h =
      let (u, valid, rest) = >>=-eq-ok (validate_session_id id) _ h in
      (valid, lookup_cases load id m agent m' _ valid refl h)

  -- A session is created only under a valid id, that of the answer, and where no file was at its path;
  -- afterwards its agent is loaded, and the agents of the other sessions are as before.
  pub create_session-IsLoaded :
      (load : Load) (id system answer : Text) (m m' : AgentManager Blob F)
      → create_session w load id system m ≡ ok (answer, m')
      → (answer ≡ id)
        × (validate_session_id id ≡ ok tt)
        × (has_key (session_path_for m.cfg id) m.files ≡ false)
        × ((agent : AgentRuntime F) × IsLoaded id m agent m')
  unfolding create_session
  create_session-IsLoaded load id system answer m m' h =
      let path = session_path_for m.cfg id in
      let (u, valid, h1) = >>=-eq-ok (validate_session_id id) _ h in
      let (v, fresh, h2) = >>=-eq-ok (guard (not (has_key path m.files)) already_exists) _ h1 in
      let (files, saved, h3) =
        >>=-eq-ok
          (map_err save_failed (
            save_session w.crypto w.formats load.write_new.salt load.write_new.nonce
              load.write_new.writable m.files path (Session.new w.crypto load.birth system)
              m.cfg.session_key))
          _ h2 in
      let ((agent, m''), loaded, h4) =
        >>=-eq-ok (get_or_load w load id (record m { files = files })) _ h3 in
      let is = (get_or_load-IsLoaded load id (record m { files = files }) agent m'' loaded).1 in
      let made = ok-injective h4 in
      let same : m'' ≡ m' = ap (λ (x : Text × AgentManager Blob F). x.1) made in
      (
        ap (λ (x : Text × AgentManager Blob F). x.0) (sym made),
        valid,
        absent_file (has_key path m.files)
            (guard-eq-ok (not (has_key path m.files)) already_exists fresh),
        (
          agent,
          subst (IsLoaded id m agent) same (record {
            found = is.found;
            others = is.others;
            same_cfg = is.same_cfg;
            again = is.again;
          }),
        ),
      )
