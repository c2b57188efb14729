-- ===== src/Client/Manager/Paths.antt =====
-- Session ids as file names.
use zk_llm_gateway.Prelude.{
  ℕ, ◌≤◌, ◌≡◌, ◌≢◌, refl, ap, sym, ◌∙◌, inl, inr, true, false, ◌||◌, not, none, [], ◌∷◌, ◌++◌, ◌==◌,
  ltb, arith, Bool-cases, length, length-append, append-injective, ==_iff, false≢true,
}
use zk_llm_gateway.Prelude.Text.{Text, codes, bytes_eq, text_len}
use zk_llm_gateway.Prelude.Strings.{starts_with}
use zk_llm_gateway.Prelude.Result.{ok, guard, >>=-eq-ok, guard-eq-ok}
use zk_llm_gateway.Client.Redaction.Marks.{free_of}
use zk_llm_gateway.Client.Manager.{
  AgentManagerConfig, invalid_length, invalid_characters, is_allowed, all_allowed,
  validate_session_id, directory, join, file_name, session_path_for,
}

allowed_apart : (c x : ℕ) → is_allowed x ≡ false → is_allowed c ≡ true → (c == x) ≡ false
allowed_apart c x no_char allowed = elim (Bool-cases (c == x)) [
  | inl e ↦
      let same = (==_iff c x).0 e in
      absurd (false≢true (sym no_char ∙ ap is_allowed (sym same) ∙ allowed))
  | inr e ↦ e
]

all_allowed-free_of :
    (x : ℕ) (s : Text) → is_allowed x ≡ false → all_allowed s ≡ true → free_of x s ≡ true
unfolding all_allowed free_of
all_allowed-free_of x [] no_char h = refl
all_allowed-free_of x (c ∷ s) no_char h =
    let here : (c == x) ≡ false = allowed_apart c x no_char (ground arith) in
    ground (arith, here, all_allowed-free_of x s)

-- What a valid id is.
validated :
    (id : Text) {u : Unit {0}}
    → validate_session_id id ≡ ok u
    → (text_len id ≢ 0) × (text_len id ≤ 64) × (all_allowed id ≡ true)
unfolding validate_session_id
validated id h =
    let (u, sized, rest) =
      >>=-eq-ok (guard (not (text_len id == 0 || ltb 64 (text_len id))) invalid_length) _ h in
    let size = guard-eq-ok (not (text_len id == 0 || ltb 64 (text_len id))) invalid_length sized in
    (λ e. ground arith, ground arith, guard-eq-ok (all_allowed id) invalid_characters rest)

no_slash :
    (id : Text)
    → text_len id ≢ 0
    → all_allowed id ≡ true
    → starts_with (47 ∷ []) (file_name id) ≡ false
unfolding starts_with file_name all_allowed is_allowed text_len
no_slash [] size h = absurd (size refl)
no_slash (c ∷ id) size h = ground arith

joined :
    (dir id : Text)
    → text_len id ≢ 0
    → all_allowed id ≡ true
    → join dir (file_name id) ≡ directory dir ++ file_name id
unfolding join
joined dir id size h = rw (no_slash id size h) refl

-- The file of a valid id, when the default session's path is not overridden.
path_of :
    (cfg : AgentManagerConfig) (id : Text)
    → cfg.default_session_path_override ≡ none
    → text_len id ≢ 0
    → all_allowed id ≡ true
    → session_path_for cfg id ≡ directory cfg.sessions_dir ++ file_name id
unfolding session_path_for
path_of cfg id plain size h = elim (Bool-cases (bytes_eq id cfg.default_session_id)) [
  | inl e ↦ rw (e, plain) (joined cfg.sessions_dir id size h)
  | inr e ↦ rw e (joined cfg.sessions_dir id size h)
]

-- A valid session id names a file in the sessions directory itself: it has 1 to 64 bytes, and neither a
-- slash nor a dot, so that the path is the directory, the id and the extension, and cannot lead out of
-- the directory. The path of the default session is not overridden.
pub session_path_for-inside :
    (cfg : AgentManagerConfig) (id : Text) {u : Unit {0}}
    → cfg.default_session_path_override ≡ none
    → validate_session_id id ≡ ok u
    → (session_path_for cfg id ≡ directory cfg.sessions_dir ++ (id ++ codes ".session.json"))
      × (free_of 47 id ≡ true)
      × (free_of 46 id ≡ true)
      × (text_len id ≢ 0)
      × (text_len id ≤ 64)
session_path_for-inside cfg id plain valid =
    let (size, short, allowed) = validated id valid in
    (
      path_of cfg id plain size allowed ∙ unfold file_name in refl,
      all_allowed-free_of 47 id (unfold is_allowed in refl) allowed,
      all_allowed-free_of 46 id (unfold is_allowed in refl) allowed,
      size,
      short,
    )

same_prefix : (xs : Text) {ys zs : Text} → xs ++ ys ≡ xs ++ zs → ys ≡ zs
same_prefix xs e = (append-injective xs xs refl e).1

same_suffix : (xs ys zs : Text) → xs ++ zs ≡ ys ++ zs → xs ≡ ys
same_suffix xs ys zs e =
    let sizes : length xs ≡ length ys =
      omega (arith, length-append xs zs, length-append ys zs, ap length e) in
    (append-injective xs ys sizes e).0

-- Sessions of different valid ids have different files.
pub session_path_for-injective :
    (cfg : AgentManagerConfig) (a b : Text) {u v : Unit {0}}
    → cfg.default_session_path_override ≡ none
    → validate_session_id a ≡ ok u
    → validate_session_id b ≡ ok v
    → session_path_for cfg a ≡ session_path_for cfg b
    → a ≡ b
session_path_for-injective cfg a b plain valid_a valid_b same =
    let (size_a, _sa, allowed_a) = validated a valid_a in
    let (size_b, _sb, allowed_b) = validated b valid_b in
    let whole =
      sym (path_of cfg a plain size_a allowed_a) ∙ same ∙ path_of cfg b plain size_b allowed_b in
    same_suffix a b (codes ".session.json")
      (unfold file_name in same_prefix (directory cfg.sessions_dir) whole)
