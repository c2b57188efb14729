-- ===== src/Client/Toy.antt =====
-- Concrete parameters for the examples of the client: whole numbers for scores, the lower case letters
-- for words, and a world whose provider gives one answer.
use zk_llm_gateway.Prelude.{
  ℕ, ◌+◌, ◌-◌, ◌*◌, ◌/◌, max, true, false, ◌&&◌, none, some, [], ◌∷◌, ltb, leb, replicate,
}
use zk_llm_gateway.Prelude.Text.{Text, codes}
use zk_llm_gateway.Prelude.Result.{ok, err}
use zk_llm_gateway.Token.{c256}
use zk_llm_gateway.Json.{null, end}
use zk_llm_gateway.Types.{ZkTicket, InferenceResponse, response, Encoding}
use zk_llm_gateway.Crypto.{Crypto}
use zk_llm_gateway.Envelope.{Envelope, envelope_version}
use zk_llm_gateway.Client.Tickets.{file_empty}
use zk_llm_gateway.Client.Redaction.{none_mode, RedactionState, Redactor, between, Regex, Patterns}
use zk_llm_gateway.Client.Session.{Session, SessionDisk, Formats}
use zk_llm_gateway.Client.MemoryStore.{Floats}
use zk_llm_gateway.Client.MemoryStore.Tokens.{Unicode}
use zk_llm_gateway.Client.Prompt.Assembly.{PromptBuildConfig}
use zk_llm_gateway.Client.Agent.{World, AgentRuntime}
use zk_llm_gateway.Client.Agent.Turn.{Draw}

abbrev pub whole : Floats ℕ
whole = record {
  of_nat = λ n. n;
  plus = λ a b. a + b;
  minus = λ a b. a - b;
  times = λ a b. a * b;
  over = λ a b. a / b;
  larger = λ a b. max a b;
  ln = λ a. a;
  half = 0;
  k1 = 1;
  b = 0;
  above = λ a b. ltb b a;
}

abbrev pub letters : Unicode
letters = record { to_lowercase = λ t. t; is_alphanumeric = λ c. leb 97 c && leb c 122 }

abbrev pub uuid : ℕ → Text
uuid n = (97 + n) ∷ []

abbrev pub no_match : Regex
no_match = λ t. between t ∷ []

abbrev pub no_patterns : Patterns
no_patterns = record {
  private_key_block = no_match;
  openai_key = no_match;
  email = no_match;
  phone = no_match;
  eth_address = no_match;
  url = no_match;
}

-- Cryptography that does not look at its input.
abbrev pub blind : Crypto
blind = record {
  public_from = λ a. replicate 32 1;
  diffie_hellman = λ a b. replicate 32 1;
  sha256 = λ a. replicate 32 1;
  hkdf_expand = λ s k i. some (replicate 32 1);
  encrypt = λ k n m a. some [];
  decrypt = λ k n m a. some (codes "payload");
  b64_encode = λ b. b;
  b64_decode = λ t. some t;
  uuid_text = λ u. replicate 36 1;
}

abbrev pub encoding : Encoding
encoding = record {
  to_vec = λ v. some (codes "{}");
  f32_value = λ n. null;
  uuid_value = λ n. [];
  shake256 = λ b. replicate 48 7;
}

abbrev pub formats : Formats SessionDisk
formats = record {
  print_disk = λ w. w;
  parse_disk = λ w. some w;
  print_session = λ s. [];
  parse_session = λ b. none;
  parse_history = λ w. none;
}

abbrev pub ticket : ZkTicket
ticket = record {
  commitment_root = replicate 48 7;
  nullifier = replicate 32 5;
  token_class = c256;
  proof = [];
}

abbrev pub answer : InferenceResponse
answer = record {
  request_id = 11;
  model = codes "m";
  output = codes "hello";
  billed_token_class = c256;
  upstream = none;
}

abbrev pub answer_envelope : Envelope
answer_envelope = record {
  version = envelope_version;
  token_class = c256;
  request_id = 11;
  client_nonce_b64 = replicate 32 2;
  kem_pub_b64 = replicate 32 1;
  nonce_b64 = replicate 12 3;
  ciphertext_b64 = [];
}

abbrev pub world : World SessionDisk ℕ ℕ
world = record {
  crypto = blind;
  encoding = encoding;
  patterns = no_patterns;
  formats = formats;
  floats = whole;
  unicode = letters;
  uuid_text = uuid;
  next_ticket = λ t c n. elim (ltb 0 n) [ true ↦ (ok ticket, n - 1) | false ↦ (err file_empty, n) ];
  print_request = λ r. some (codes "{}");
  post = λ u e. some (true, []);
  parse_envelope = λ b. some answer_envelope;
  parse_payload = λ b. some (response answer);
  after_broken_write = λ path files. files;
  local_ai = none;
}

abbrev pub config : PromptBuildConfig
config = record {
  max_recent_messages = 4;
  max_memory_items = 2;
  include_summary = true;
  normalize_context_blocks = true;
  pad_system_prompt = true;
  max_padding_bytes = 100;
  max_recall_snippets = 2;
}

abbrev pub redaction : RedactionState
redaction = record { salt_b64 = replicate 32 7; entries = []; custom_terms = [] }

abbrev pub redactor : Redactor
redactor = record { salt = replicate 32 7; rev = []; state = redaction }

abbrev pub session : Session
session = record {
  version = 1;
  created_at_ms = 1;
  system_prompt = codes "Be brief.";
  messages = record { role = codes "user"; content = codes "hi"; extra = end } ∷ [];
  memory = record { id = 0; created_at_ms = 1; text = codes "likes tea"; tags = [] } ∷ [];
  summary = [];
  redaction = redaction;
}

abbrev pub agent : AgentRuntime ℕ
agent = record {
  endpoint_url = codes "http";
  gateway_public_bytes = replicate 32 1;
  model = codes "m";
  token_class = c256;
  redact_mode = none_mode;
  extra_terms = [];
  prompt_cfg = config;
  session_path = codes "s";
  session_key = none;
  session = session;
  redactor = redactor;
  memory_store = record { docs = []; inverted = []; doc_len = []; avg_doc_len = 0 };
}

abbrev pub draw : Draw
draw = record {
  request_id = 11;
  eph_secret = [];
  client_nonce = replicate 32 2;
  nonce = replicate 12 3;
  filler = λ n. replicate n 65;
  fuel = 9;
  write = record { salt = replicate 16 1; nonce = replicate 12 1; writable = true };
}
