-- ===== src/Client/Redaction.antt =====
-- client/src/redaction.rs: placeholders for what a prompt should not show, and their originals put
-- back. A regular expression (the regex crate) is a parameter: it cuts a text into what lies between
-- its matches and the matches. `rev` is a map in its order of iteration.
pub mod Consistency
pub mod Marks
pub mod Rehydration
pub mod Placeholders
pub mod RoundTrip
mod Tests
use zk_llm_gateway.Prelude.{
  ℕ, ◌+◌, ◌/◌, ◌%◌, Bool, true, false, ◌&&◌, ◌||◌, not, Option, none, some, List, [], ◌∷◌, ◌++◌,
  ltb, ◌==◌, if◌then◌else◌, length, take,
}
use zk_llm_gateway.Prelude.Text.{Bytes, Text, codes, text_len}
use zk_llm_gateway.Prelude.Strings.{
  Dict, lookup, put, has_key, has_text, is_blank, contains, replace, utf8,
}
use zk_llm_gateway.Prelude.Result.{Result, ok, err, ◌>>=◌, ok_or}
use zk_llm_gateway.Crypto.{Crypto}
use zk_llm_gateway.Envelope.{to_array}

pub data RedactMode : Type 0 where
  none_mode basic strict : RedactMode

pub data RedactionKind : Type 0 where
  private_key api_key email phone eth_address url custom : RedactionKind

pub record RedactionEntry : Type 0 where
  pub placeholder : Text
  pub original : Text
  pub kind : RedactionKind

pub record RedactionState : Type 0 where
  pub salt_b64 : Text
  pub entries : List RedactionEntry
  pub custom_terms : List Text

unfoldable pub new_state : Text → RedactionState
new_state salt_b64 = record { salt_b64 = salt_b64; entries = []; custom_terms = [] }

pub record Redactor : Type 0 where
  pub salt : Bytes
  pub rev : Dict Text
  pub state : RedactionState

pub data SaltError : Type 0 where
  invalid_b64 not_32_bytes : SaltError

pub data Piece : Type 0 where
  between : Text → Piece
  hit : Text → Piece

abbrev pub Regex : Type 0
Regex = Text → List Piece

-- The six expressions of the module.
pub record Patterns : Type 0 where
  pub private_key_block : Regex
  pub openai_key : Regex
  pub email : Regex
  pub phone : Regex
  pub eth_address : Regex
  pub url : Regex

hex_digit : ℕ → ℕ
hex_digit n = if ltb n 10 then 48 + n else 87 + n

unfoldable pub to_hex : Bytes → Text
unfolding hex_digit
to_hex [] = []
to_hex (b ∷ bs) = hex_digit (b / 16) ∷ hex_digit (b % 16) ∷ to_hex bs

unfoldable pub rev_of : Dict Text → List RedactionEntry → Dict Text
rev_of rev [] = rev
rev_of rev (e ∷ es) = rev_of (put e.placeholder e.original rev) es

unfoldable pub add_custom_term : Text → Redactor → Redactor
add_custom_term term red =
    if is_blank term || has_text term red.state.custom_terms then red else record red {
      state = record red.state { custom_terms = red.state.custom_terms ++ term ∷ [] };
    }

unfoldable pub upsert_mapping : Text → Text → RedactionKind → Redactor → Redactor
upsert_mapping placeholder original kind red = if has_key placeholder red.rev then red else record {
  salt = red.salt;
  rev = put placeholder original red.rev;
  state = record red.state {
    entries =
        red.state.entries
        ++ record { placeholder = placeholder; original = original; kind = kind } ∷ [];
  };
}

-- `sort_by_key(|k| Reverse(k.len()))`, a stable sort.
insert_longest : Text → List Text → List Text
insert_longest k [] = k ∷ []
insert_longest k (j ∷ js) =
    let rest = insert_longest k js in if ltb (text_len k) (text_len j) then j ∷ rest else k ∷ j ∷ js

sort_longest : List Text → List Text
unfolding insert_longest
sort_longest [] = []
sort_longest (k ∷ ks) = insert_longest k (sort_longest ks)

pub keys : Dict Text → List Text
keys [] = []
keys ((k, v) ∷ d) = k ∷ keys d

-- The loop of `rehydrate`.
replace_keys : Dict Text → List Text → Text → Text
replace_keys rev [] out = out
replace_keys rev (k ∷ ks) out =
    replace_keys rev ks
      (elim (lookup k rev) [ none ↦ out | some original ↦ replace k original out ])

unfoldable pub rehydrate : Redactor → Text → Text
unfolding sort_longest keys replace_keys
rehydrate red text = replace_keys red.rev (sort_longest (keys red.rev)) text

module _ (c : Crypto) where
  unfoldable pub decode_b64_32 : Text → Result SaltError Bytes
  decode_b64_32 s = do
    bytes ← ok_or (c.b64_decode s) invalid_b64
    ok_or (to_array 32 bytes) not_32_bytes

  unfoldable pub from_state : RedactionState → Result SaltError Redactor
  unfolding rev_of decode_b64_32
  from_state state = do
    salt ← decode_b64_32 state.salt_b64
    ok (record { salt = salt; rev = rev_of [] state.entries; state = state })

  -- The hash's first eight bytes.
  digest : Bytes → Text → Text → Bytes
  digest salt tag original = take 8 (c.sha256 (salt ++ (utf8 tag ++ utf8 original)))

  unfoldable pub placeholder_for : Bytes → Text → Text → Text
  unfolding digest
  placeholder_for salt tag original =
      60 ∷ (tag ++ (95 ∷ (to_hex (digest salt tag original) ++ 62 ∷ [])))

  -- The replacement that the expression makes, from left to right.
  pub replace_pieces : RedactionKind → Text → List Piece → Redactor → Redactor × Text
  unfolding placeholder_for upsert_mapping
  replace_pieces kind tag [] red = (red, [])
  replace_pieces kind tag (between s ∷ ps) red =
      let (red', out) = replace_pieces kind tag ps red in (red', s ++ out)
  replace_pieces kind tag (hit m ∷ ps) red =
      let ph = placeholder_for red.salt tag m in
      let (red', out) = replace_pieces kind tag ps (upsert_mapping ph m kind red) in
      (red', ph ++ out)

  unfoldable pub redact_regex : Regex → RedactionKind → Text → Redactor × Text → Redactor × Text
  unfolding replace_pieces
  redact_regex re kind tag (red, input) = replace_pieces kind tag (re input) red

  unfoldable pub redact_literal : Text → RedactionKind → Text → Redactor × Text → Redactor × Text
  unfolding placeholder_for upsert_mapping
  redact_literal literal kind tag (red, input) =
      if contains literal input
      then (let ph = placeholder_for red.salt tag literal in
          (upsert_mapping ph literal kind red, replace literal ph input))
      else (red, input)

  -- The loop over the custom terms.
  redact_terms : List Text → Redactor × Text → Redactor × Text
  unfolding redact_literal
  redact_terms [] out = out
  redact_terms (term ∷ terms) out =
      redact_terms terms
        (if is_blank term then out else redact_literal term custom (codes "CUSTOM") out)

  is_strict : RedactMode → Bool
  is_strict strict = true
  is_strict _ = false

  redact_patterns : Patterns → Bool → Redactor × Text → Redactor × Text
  unfolding redact_regex
  redact_patterns pats also_urls start =
      let keys_out = redact_regex pats.private_key_block private_key (codes "PRIVATE_KEY") start in
      let api_out = redact_regex pats.openai_key api_key (codes "API_KEY") keys_out in
      let email_out = redact_regex pats.email email (codes "EMAIL") api_out in
      let phone_out = redact_regex pats.phone phone (codes "PHONE") email_out in
      let eth_out = redact_regex pats.eth_address eth_address (codes "ETH_ADDR") phone_out in
      if also_urls then redact_regex pats.url url (codes "URL") eth_out else eth_out

  unfoldable pub redact : Patterns → RedactMode → List Text → Text → Redactor → Redactor × Text
  unfolding is_strict redact_patterns redact_terms
  redact pats none_mode extra_terms text red = (red, text)
  redact pats mode extra_terms text red =
      let (red', out) = redact_patterns pats (is_strict mode) (red, text) in
      redact_terms (red'.state.custom_terms ++ extra_terms) (red', out)
