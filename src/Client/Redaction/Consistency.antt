-- ===== src/Client/Redaction/Consistency.antt =====
-- What every redaction preserves: the map and the persisted entries agree, and a mapping stays.
use zk_llm_gateway.Prelude.{
  Bool, true, false, ◌≡◌, refl, ap, ◌∙◌, some, List, [], ◌∷◌, ◌++◌, if◌then◌else◌, Bool-cases, inl,
  inr, subst, arith,
}
use zk_llm_gateway.Prelude.Text.{Text, codes}
use zk_llm_gateway.Prelude.Strings.{Dict, lookup, put, has_key, is_blank, contains}
use zk_llm_gateway.Prelude.Result.{ok, ok-injective, >>=-eq-ok}
use zk_llm_gateway.Crypto.{Crypto}
use zk_llm_gateway.Client.Redaction.{
  RedactMode, none_mode, basic, strict, RedactionKind, private_key, api_key, email, phone,
  eth_address, url, custom, RedactionEntry, RedactionState, Redactor, Piece, between, hit, Patterns,
  Regex, rev_of, upsert_mapping, decode_b64_32, from_state, placeholder_for, replace_pieces,
  redact_regex, redact_literal, redact_terms, is_strict, redact_patterns, redact,
}

-- A property that new mappings keep is kept by a whole redaction.
module _ (c : Crypto) (P : Redactor → Type 0)
    (keep : (red : Redactor) (ph original : Text) (kind : RedactionKind)
      → P red
      → P (upsert_mapping ph original kind red)) where
  pub replace_pieces-keeps :
      (kind : RedactionKind) (tag : Text) (ps : List Piece) (red : Redactor)
      → P red
      → P (replace_pieces c kind tag ps red).0
  unfolding replace_pieces
  replace_pieces-keeps kind tag [] red p = p
  replace_pieces-keeps kind tag (between s ∷ ps) red p = replace_pieces-keeps kind tag ps red p
  replace_pieces-keeps kind tag (hit m ∷ ps) red p =
      replace_pieces-keeps kind tag ps
        (upsert_mapping (placeholder_for c red.salt tag m) m kind red)
        (keep red (placeholder_for c red.salt tag m) m kind p)

  redact_regex-keeps :
      (re : Regex) (kind : RedactionKind) (tag : Text) (start : Redactor × Text)
      → P start.0
      → P (redact_regex c re kind tag start).0
  unfolding redact_regex
  redact_regex-keeps re kind tag (red, text) p = replace_pieces-keeps kind tag (re text) red p

  redact_patterns-keeps :
      (pats : Patterns) (b : Bool) (start : Redactor × Text)
      → P start.0
      → P (redact_patterns c pats b start).0
  unfolding redact_patterns
  redact_patterns-keeps pats b start p =
      let s1 = redact_regex c pats.private_key_block private_key (codes "PRIVATE_KEY") start in
      let s2 = redact_regex c pats.openai_key api_key (codes "API_KEY") s1 in
      let s3 = redact_regex c pats.email email (codes "EMAIL") s2 in
      let s4 = redact_regex c pats.phone phone (codes "PHONE") s3 in
      let p1 =
        redact_regex-keeps pats.private_key_block private_key (codes "PRIVATE_KEY") start p in
      let p2 = redact_regex-keeps pats.openai_key api_key (codes "API_KEY") s1 p1 in
      let p3 = redact_regex-keeps pats.email email (codes "EMAIL") s2 p2 in
      let p4 = redact_regex-keeps pats.phone phone (codes "PHONE") s3 p3 in
      let p5 = redact_regex-keeps pats.eth_address eth_address (codes "ETH_ADDR") s4 p4 in
      elim b as (λ b'. P (redact_patterns c pats b' start).0) [
        | false ↦ p5
        | true ↦
            redact_regex-keeps pats.url url (codes "URL")
              (redact_regex c pats.eth_address eth_address (codes "ETH_ADDR") s4) p5
      ]

  redact_literal-keeps :
      (literal : Text) (kind : RedactionKind) (tag : Text) (start : Redactor × Text)
      → P start.0
      → P (redact_literal c literal kind tag start).0
  unfolding redact_literal
  redact_literal-keeps literal kind tag (red, text) p = elim (Bool-cases (contains literal text)) [
    | inl e ↦ rw e (keep red (placeholder_for c red.salt tag literal) literal kind p)
    | inr e ↦ rw e p
  ]

  redact_terms-keeps :
      (terms : List Text) (start : Redactor × Text) → P start.0 → P (redact_terms c terms start).0
  unfolding redact_terms
  redact_terms-keeps [] start p = p
  redact_terms-keeps (term ∷ terms) start p =
      redact_terms-keeps terms
        (if is_blank term then start else redact_literal c term custom (codes "CUSTOM") start)
        (elim (Bool-cases (is_blank term)) [
          | inl e ↦ rw e p
          | inr e ↦ rw e (redact_literal-keeps term custom (codes "CUSTOM") start p)
        ])

  redact_all-keeps :
      (pats : Patterns) (b : Bool) (terms : List Text) (text : Text) (red : Redactor)
      → P red
      → (let (red', out) = redact_patterns c pats b (red, text) in
          P (redact_terms c (red'.state.custom_terms ++ terms) (red', out)).0)
  redact_all-keeps pats b terms text red p =
      redact_terms-keeps _ _ (redact_patterns-keeps pats b (red, text) p)

  pub redact-keeps :
      (pats : Patterns) (mode : RedactMode) (terms : List Text) (text : Text) (red : Redactor)
      → P red
      → P (redact c pats mode terms text red).0
  unfolding redact is_strict
  redact-keeps pats none_mode terms text red p = p
  redact-keeps pats basic terms text red p = redact_all-keeps pats false terms text red p
  redact-keeps pats strict terms text red p = redact_all-keeps pats true terms text red p

-- The salt is the decoded one, and the map is what the entries give when they are inserted in order.
unfoldable pub IsConsistent : Crypto → Redactor → Type 0
unfolding rev_of
IsConsistent c red =
    (decode_b64_32 c red.state.salt_b64 ≡ ok red.salt) × (rev_of [] red.state.entries ≡ red.rev)

rev_of-append :
    (rev : Dict Text) (es : List RedactionEntry) (e : RedactionEntry)
    → rev_of rev (es ++ e ∷ []) ≡ put e.placeholder e.original (rev_of rev es)
unfolding rev_of
rev_of-append rev [] e = refl
rev_of-append rev (d ∷ es) e = rev_of-append (put d.placeholder d.original rev) es e

upsert_mapping-IsConsistent :
    (c : Crypto) (red : Redactor) (ph original : Text) (kind : RedactionKind)
    → IsConsistent c red
    → IsConsistent c (upsert_mapping ph original kind red)
unfolding upsert_mapping IsConsistent
upsert_mapping-IsConsistent c red ph original kind (salted, same) =
    elim (Bool-cases (has_key ph red.rev)) [
      | inl e ↦ rw e (salted, same)
      | inr e ↦ rw e (
        salted,
        rev_of-append [] red.state.entries
              (record { placeholder = ph; original = original; kind = kind })
            ∙ ap (put ph original) same,
      )
    ]

pub from_state-IsConsistent :
    (c : Crypto) (state : RedactionState) {red : Redactor}
    → from_state c state ≡ ok red
    → IsConsistent c red
unfolding from_state IsConsistent
from_state-IsConsistent c state h =
    let (salt, decoded, made) = >>=-eq-ok (decode_b64_32 c state.salt_b64) _ h in
    subst (IsConsistent c) (ok-injective made) (decoded, refl)

from_state-IsConsistent_eq :
    (c : Crypto) (red : Redactor) → IsConsistent c red → from_state c red.state ≡ ok red
unfolding from_state IsConsistent
from_state-IsConsistent_eq c red (salted, same) =
    rw salted (ap (λ d. ok (record { salt = red.salt; rev = d; state = red.state })) same)

-- A redactor that was opened from a stored state can be stored after any redaction and opened again:
-- the new state gives back exactly the redactor, with its salt and all its mappings.
pub from_state-redact :
    (c : Crypto) (pats : Patterns) (mode : RedactMode) (terms : List Text) (text : Text)
    (state : RedactionState) (red : Redactor)
    → from_state c state ≡ ok red
    → from_state c (redact c pats mode terms text red).0.state
      ≡ ok (redact c pats mode terms text red).0
from_state-redact c pats mode terms text state red h = from_state-IsConsistent_eq c _ (
    redact-keeps c (IsConsistent c) (upsert_mapping-IsConsistent c) pats mode terms text red
      (from_state-IsConsistent c state h))

lookup-put_other :
    (k ph original : Text) (d : Dict Text) {v : Text}
    → has_key ph d ≡ false
    → lookup k d ≡ some v
    → lookup k (put ph original d) ≡ some v
unfolding lookup put has_key
lookup-put_other k ph original [] fresh found = cc
lookup-put_other k ph original ((j, w) ∷ d) {v = v} fresh found =
    ground (arith, lookup-put_other k ph original d {v = v})

pub upsert_mapping-keeps_lookup :
    (k : Text) {v : Text} (red : Redactor) (ph original : Text) (kind : RedactionKind)
    → lookup k red.rev ≡ some v
    → lookup k (upsert_mapping ph original kind red).rev ≡ some v
unfolding upsert_mapping
upsert_mapping-keeps_lookup k red ph original kind found = elim (Bool-cases (has_key ph red.rev)) [
  | inl e ↦ rw e found
  | inr e ↦ rw e (lookup-put_other k ph original red.rev e found)
]

-- A placeholder that stands for a text stands for it after every redaction: no later match and no
-- collision of two placeholders replaces the original of an earlier answer.
pub lookup-redact :
    (c : Crypto) (pats : Patterns) (mode : RedactMode) (terms : List Text) (text : Text)
    (red : Redactor) (ph original : Text)
    → lookup ph red.rev ≡ some original
    → lookup ph (redact c pats mode terms text red).0.rev ≡ some original
lookup-redact c pats mode terms text red ph original found =
    redact-keeps c (λ r. lookup ph r.rev ≡ some original) (upsert_mapping-keeps_lookup ph) pats mode
      terms text red found

pub redact-IsConsistent :
    (c : Crypto) (pats : Patterns) (mode : RedactMode) (terms : List Text) (text : Text)
    (red : Redactor)
    → IsConsistent c red
    → IsConsistent c (redact c pats mode terms text red).0
redact-IsConsistent c = redact-keeps c (IsConsistent c) (upsert_mapping-IsConsistent c)
