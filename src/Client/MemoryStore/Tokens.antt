-- ===== src/Client/MemoryStore/Tokens.antt =====
-- client/src/memory_store.rs, the tokenizer. The Unicode tables are a parameter.
use zk_llm_gateway.Prelude.{ℕ, Bool, ◌||◌, not, List, [], ◌∷◌, ◌++◌, ltb, if◌then◌else◌, map}
use zk_llm_gateway.Prelude.Text.{Text, codes, text_len}
use zk_llm_gateway.Prelude.Strings.{has_text, trim}

pub record Unicode : Type 0 where
  pub to_lowercase : Text → Text
  pub is_alphanumeric : ℕ → Bool

abbrev stopwords : List Text
stopwords = map codes (
    "the" ∷ "and" ∷ "for" ∷ "with" ∷ "this" ∷ "that" ∷ "from" ∷ "have" ∷ "you" ∷ "your" ∷ "are"
    ∷ "was" ∷ "were" ∷ "will" ∷ "would" ∷ "should" ∷ "could" ∷ "what" ∷ "when" ∷ "where" ∷ "why"
    ∷ "how" ∷ "into" ∷ "about" ∷ "them" ∷ "they" ∷ "then" ∷ "than" ∷ "also" ∷ "just" ∷ "like"
    ∷ "want" ∷ "need" ∷ "been" ∷ "being" ∷ "can" ∷ "not" ∷ "but" ∷ "our" ∷ "out" ∷ "use" ∷ "using"
    ∷ "used" ∷ [])

unfoldable pub is_stopword : Text → Bool
is_stopword w = has_text w stopwords

-- A character put before the first of the segments.
unfoldable pub onto : ℕ → List Text → List Text
onto c [] = (c ∷ []) ∷ []
onto c (w ∷ ws) = (c ∷ w) ∷ ws

-- `split` at the characters that pass the test.
unfoldable pub split : (ℕ → Bool) → Text → List Text
unfolding onto
split at [] = [] ∷ []
split at (c ∷ cs) = let rest = split at cs in if at c then [] ∷ rest else onto c rest

-- The words that are kept.
unfoldable pub keep_words : List Text → List Text
keep_words [] = []
keep_words (w ∷ ws) =
    let rest = keep_words ws in
    let word = trim w in if ltb (text_len word) 3 || is_stopword word then rest else word ∷ rest

-- Each text at its first place only.
unfoldable pub first_places : List Text → List Text → List Text
first_places seen [] = []
first_places seen (t ∷ ts) =
    let rest = first_places (if has_text t seen then seen else t ∷ seen) ts in
    if has_text t seen then rest else t ∷ rest

module _ (u : Unicode) where
  unfoldable pub tokenize : Text → List Text
  unfolding split keep_words
  tokenize s = keep_words (split (λ c. not (u.is_alphanumeric c)) (u.to_lowercase s))

  tag_tokens : List Text → List Text
  tag_tokens [] = []
  tag_tokens (t ∷ ts) =
      let rest = tag_tokens ts in
      elim (u.to_lowercase (trim t)) [ [] ↦ rest | c ∷ cs ↦ (codes "tag:" ++ (c ∷ cs)) ∷ rest ]

  unfoldable pub tokenize_for_index : Text → List Text → List Text
  unfolding tag_tokens
  tokenize_for_index text tags = tokenize text ++ tag_tokens tags

  unfoldable pub tokenize_query : Text → List Text
  unfolding first_places
  tokenize_query q = first_places [] (tokenize q)
