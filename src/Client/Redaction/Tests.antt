-- ===== src/Client/Redaction/Tests.antt =====
-- Examples for client/src/redaction.rs, with an expression that matches each `@`.
use zk_llm_gateway.Prelude.{
  ℕ, Bool, true, false, ◌≡◌, refl, inl, inr, some, List, [], ◌∷◌, ◌++◌, ◌==◌, if◌then◌else◌,
  replicate, take,
}
use zk_llm_gateway.Prelude.Text.{Text, codes, bytes_eq, text_len, utf8_width}
use zk_llm_gateway.Prelude.Strings.{
  lookup, put, has_key, starts_with, contains, replace_from, replace, utf8, utf8_char, is_blank,
  is_whitespace,
}
use zk_llm_gateway.Prelude.Result.{ok}
use zk_llm_gateway.Envelope.{to_array}
use zk_llm_gateway.Crypto.Toy.{toy, checksum}
use zk_llm_gateway.Client.Redaction.{
  basic, strict, email, RedactionState, Redactor, between, hit, Regex, Patterns, hex_digit, to_hex,
  rev_of, add_custom_term, upsert_mapping, insert_longest, sort_longest, keys, replace_keys,
  rehydrate, decode_b64_32, from_state, digest, placeholder_for, replace_pieces, redact_regex,
  redact_literal, redact_terms, is_strict, redact_patterns, redact,
}
use zk_llm_gateway.Client.Redaction.Consistency.{from_state-redact, lookup-redact}
use zk_llm_gateway.Client.Redaction.Marks.{free_of}
use zk_llm_gateway.Client.Redaction.Placeholders.{text_of, IsHit}
use zk_llm_gateway.Client.Redaction.RoundTrip.{IsClashFree, rehydrate-redact_regex}

at_signs : Regex
at_signs [] = []
at_signs (c ∷ cs) = (if c == 64 then hit (c ∷ []) else between (c ∷ [])) ∷ at_signs cs

abbrev no_match : Regex
no_match = λ t. between t ∷ []

abbrev patterns : Patterns
patterns = record {
  private_key_block = no_match;
  openai_key = no_match;
  email = at_signs;
  phone = no_match;
  eth_address = no_match;
  url = no_match;
}

abbrev key_patterns : Patterns
key_patterns = record patterns { openai_key = at_signs; email = no_match }

abbrev stored : RedactionState
stored = record { salt_b64 = replicate 32 7; entries = []; custom_terms = codes "acme" ∷ [] }

abbrev opened : Redactor
opened = record { salt = replicate 32 7; rev = []; state = stored }

opened_lem : from_state toy stored ≡ ok opened
unfolding from_state decode_b64_32 rev_of to_array
opened_lem = refl

from_state-redact_example :
    from_state toy (redact toy patterns strict (codes "bob" ∷ []) (codes "a@acme") opened).0.state
    ≡ ok (redact toy patterns strict (codes "bob" ∷ []) (codes "a@acme") opened).0
from_state-redact_example =
    from_state-redact toy patterns strict (codes "bob" ∷ []) (codes "a@acme") stored opened
      opened_lem

abbrev used : Redactor
used = record { salt = replicate 32 7; rev = (codes "<EMAIL_1>", codes "x@y") ∷ []; state = stored }

used_lem : lookup (codes "<EMAIL_1>") used.rev ≡ some (codes "x@y")
unfolding lookup bytes_eq
used_lem = refl

lookup-redact_instance :
    lookup (codes "<EMAIL_1>") (redact toy patterns basic [] (codes "a@acme") used).0.rev
    ≡ some (codes "x@y")
lookup-redact_instance =
    lookup-redact toy patterns basic [] (codes "a@acme") used (codes "<EMAIL_1>") (codes "x@y")
      used_lem

only_hit : (m : Text) → IsHit m (at_signs (codes "a@b@")) → m ≡ codes "@"
unfolding at_signs
only_hit m (inl p) = p
only_hit m (inr (inl p)) = p
only_hit m (inr (inr p)) = absurd (cc p)

clash_free : IsClashFree toy (codes "EMAIL") opened.salt (at_signs (codes "a@b@")) opened
unfolding lookup
clash_free = record {
  apart = λ m n p q e. let x = only_hit m p in let y = only_hit n q in cc;
  open_for = λ m p. inl refl;
}

at_signs_whole : text_of (at_signs (codes "a@b@")) ≡ codes "a@b@"
unfolding text_of at_signs
at_signs_whole = refl

rehydrate-redact_regex_example :
    rehydrate
      (redact_regex toy at_signs email (codes "EMAIL") (opened, codes "a@b@")).0
      (redact_regex toy at_signs email (codes "EMAIL") (opened, codes "a@b@")).1
    ≡ codes "a@b@"
unfolding keys
rehydrate-redact_regex_example =
    rehydrate-redact_regex toy at_signs email (codes "EMAIL") (codes "a@b@") opened at_signs_whole
      (unfold free_of in refl) (unfold free_of in refl) (unfold free_of in refl) tt clash_free

-- A custom term inside an earlier placeholder: the placeholder of `@` is cut up by the one of "KEY",
-- and the longer of the two is looked for first, when it is not there.
abbrev with_term : Redactor
with_term = record {
  salt = replicate 32 7;
  rev = [];
  state = record { salt_b64 = replicate 32 7; entries = []; custom_terms = codes "KEY" ∷ [] };
}

abbrev round : Text → Text
round text = let (red, out) = redact toy key_patterns basic [] text with_term in rehydrate red out

nested_lost : bytes_eq (take 9 (round (codes "@"))) (codes "<API_KEY_") ≡ true
unfolding bytes_eq rehydrate sort_longest insert_longest keys replace_keys redact is_strict
    redact_patterns redact_terms redact_regex redact_literal replace_pieces upsert_mapping
    placeholder_for digest to_hex hex_digit lookup put has_key contains starts_with replace
    replace_from utf8 utf8_char is_blank is_whitespace text_len utf8_width checksum at_signs
nested_lost = refl

twice :
    (add_custom_term (codes " ") (add_custom_term (codes "acme") opened)).state.custom_terms
    ≡ codes "acme" ∷ []
unfolding add_custom_term is_blank is_whitespace zk_llm_gateway.Prelude.Strings.has_text bytes_eq
twice = refl
