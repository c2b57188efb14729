-- ===== src/Client/Redaction/RoundTrip.antt =====
-- `rehydrate` after the replacement of one expression's matches.
use zk_llm_gateway.Prelude.{
  ℕ, true, ◌≡◌, refl, ap, sym, ◌∙◌, inl, inr, some, List, [], ◌∷◌, ◌++◌, arith, Bool-cases, subst,
}
use zk_llm_gateway.Prelude.Text.{Bytes, Text, bytes_eq}
use zk_llm_gateway.Prelude.Strings.{Dict, lookup, put, has_key}
use zk_llm_gateway.Crypto.{Crypto}
use zk_llm_gateway.Client.Redaction.{
  RedactionKind, Redactor, Piece, between, hit, Regex, upsert_mapping, keys, rehydrate,
  placeholder_for, replace_pieces, redact_regex,
}
use zk_llm_gateway.Client.Redaction.Consistency.{replace_pieces-keeps, upsert_mapping-keeps_lookup}
use zk_llm_gateway.Client.Redaction.Marks.{IsMark, free_of}
use zk_llm_gateway.Client.Redaction.Rehydration.{AllSound, AllMarks, rehydrate-render}
use zk_llm_gateway.Client.Redaction.Placeholders.{
  placeholder_for-IsMark, text_of, IsHit, items_of, raws-AllSound, plain-items_of,
  upsert_mapping-salt, replace_pieces-render, IsOpenFor, upsert_mapping-lookup,
  upsert_mapping-IsOpenFor,
}

-- The truncated hash tells the matches apart, from each other and from what the map already holds.
pub record IsClashFree (c : Crypto) (tag : Text) (salt : Bytes) (ps : List Piece) (red : Redactor)
    : Type 0 where
  pub apart :
      (m n : Text)
      → IsHit m ps
      → IsHit n ps
      → placeholder_for c salt tag m ≡ placeholder_for c salt tag n
      → m ≡ n
  pub open_for : (m : Text) → IsHit m ps → IsOpenFor (placeholder_for c salt tag m) m red

free_of-append_parts :
    (c : ℕ) (xs ys : Text)
    → free_of c (xs ++ ys) ≡ true
    → (free_of c xs ≡ true) × (free_of c ys ≡ true)
unfolding free_of
free_of-append_parts c [] ys h = (refl, h)
free_of-append_parts c (x ∷ xs) ys h = ground (arith, free_of-append_parts c xs ys)

put-KeysMarks :
    (ph m : Text) (d : Dict Text) → IsMark ph → AllMarks (keys d) → AllMarks (keys (put ph m d))
unfolding keys put
put-KeysMarks ph m [] p all = (p, tt)
put-KeysMarks ph m ((j, v) ∷ d) p (q, all) = elim (Bool-cases (bytes_eq j ph)) [
  | inl e ↦ rw e (q, all)
  | inr e ↦ rw e (q, put-KeysMarks ph m d p all)
]

upsert_mapping-AllMarks :
    (ph m : Text) (kind : RedactionKind) (red : Redactor)
    → IsMark ph
    → AllMarks (keys red.rev)
    → AllMarks (keys (upsert_mapping ph m kind red).rev)
unfolding upsert_mapping
upsert_mapping-AllMarks ph m kind red p all = elim (Bool-cases (has_key ph red.rev)) [
  | inl e ↦ rw e all
  | inr e ↦ rw e (put-KeysMarks ph m red.rev p all)
]

module _ (c : Crypto) (kind : RedactionKind) (tag : Text) (salt : Bytes)
    (open_free : free_of 60 tag ≡ true) (close_free : free_of 62 tag ≡ true) where
  replace_pieces-AllMarks :
      (ps : List Piece) (red : Redactor)
      → red.salt ≡ salt
      → AllMarks (keys red.rev)
      → AllMarks (keys (replace_pieces c kind tag ps red).0.rev)
  unfolding replace_pieces
  replace_pieces-AllMarks [] red same all = all
  replace_pieces-AllMarks (between s ∷ ps) red same all = replace_pieces-AllMarks ps red same all
  replace_pieces-AllMarks (hit m ∷ ps) red same all =
      let ph = placeholder_for c red.salt tag m in
      replace_pieces-AllMarks ps (upsert_mapping ph m kind red)
        (upsert_mapping-salt ph m kind red ∙ same)
        (upsert_mapping-AllMarks ph m kind red
          (placeholder_for-IsMark c red.salt tag m open_free close_free) all)

  upsert_mapping-IsClashFree :
      (m : Text) (ps : List Piece) (red : Redactor)
      → IsClashFree c tag salt (hit m ∷ ps) red
      → IsClashFree c tag salt ps (upsert_mapping (placeholder_for c salt tag m) m kind red)
  upsert_mapping-IsClashFree m ps red clean = record {
    apart = λ x y p q e. clean.apart x y (inr p) (inr q) e;
    open_for = λ n p.
        upsert_mapping-IsOpenFor (placeholder_for c salt tag n) (placeholder_for c salt tag m) n m
          kind red (λ e. clean.apart m n (inl refl) (inr p) e) (clean.open_for m (inl refl))
          (clean.open_for n (inr p));
  }

  replace_pieces-AllSound :
      (ps : List Piece) (red : Redactor)
      → red.salt ≡ salt
      → free_of 60 (text_of ps) ≡ true
      → IsClashFree c tag salt ps red
      → AllSound (replace_pieces c kind tag ps red).0.rev (items_of c salt tag ps)
  unfolding replace_pieces items_of text_of
  replace_pieces-AllSound [] red same free clean = tt
  replace_pieces-AllSound (between s ∷ ps) red same free clean =
      let (here, there) = free_of-append_parts 60 s (text_of ps) free in
      raws-AllSound _ s (items_of c salt tag ps) here (
        replace_pieces-AllSound ps red same there
          (record { apart = clean.apart; open_for = clean.open_for }))
  replace_pieces-AllSound (hit m ∷ ps) red same free clean =
      let (here, there) = free_of-append_parts 60 m (text_of ps) free in
      let ph = placeholder_for c red.salt tag m in
      let red' = upsert_mapping ph m kind red in
      let R = (replace_pieces c kind tag ps red').0.rev in
      let opened =
        subst (λ (t : Bytes). IsOpenFor (placeholder_for c t tag m) m red) (sym same)
          (clean.open_for m (inl refl)) in
      let found : lookup ph R ≡ some m =
        replace_pieces-keeps c (λ (r : Redactor). lookup ph r.rev ≡ some m)
          (upsert_mapping-keeps_lookup ph) kind tag ps red'
          (upsert_mapping-lookup ph m kind red opened) in
      let rest = replace_pieces-AllSound ps red' (upsert_mapping-salt ph m kind red ∙ same) there (
        subst
          (λ (t : Bytes).
            IsClashFree c tag salt ps (upsert_mapping (placeholder_for c t tag m) m kind red))
          (sym same) (upsert_mapping-IsClashFree m ps red clean)) in
      (
        placeholder_for-IsMark c salt tag m open_free close_free,
        here,
        subst (λ (t : Bytes). lookup (placeholder_for c t tag m) R ≡ some m) same found,
        rest,
      )

-- Rehydration undoes the replacement of an expression's matches: when the text has no `<`, the tag no
-- angle bracket, the placeholders so far are marks and the truncated hash tells the matches apart, the
-- redacted text gives back the text that was cut into matches and what lies between them.
pub rehydrate-redact_regex :
    (c : Crypto) (re : Regex) (kind : RedactionKind) (tag text : Text) (red : Redactor)
    → text_of (re text) ≡ text
    → free_of 60 text ≡ true
    → free_of 60 tag ≡ true
    → free_of 62 tag ≡ true
    → AllMarks (keys red.rev)
    → IsClashFree c tag red.salt (re text) red
    → (let (red', out) = redact_regex c re kind tag (red, text) in rehydrate red' out ≡ text)
unfolding redact_regex
rehydrate-redact_regex c re kind tag text red whole free open_free close_free marks clean =
    let ps = re text in
    let red' = (replace_pieces c kind tag ps red).0 in
    ap (rehydrate red') (replace_pieces-render c kind tag red.salt ps red refl)
    ∙ rehydrate-render red' (items_of c red.salt tag ps)
        (replace_pieces-AllMarks c kind tag red.salt open_free close_free ps red refl marks)
        (replace_pieces-AllSound c kind tag red.salt open_free close_free ps red refl
          (ap (free_of 60) whole ∙ free) clean)
    ∙ plain-items_of c red.salt tag ps
    ∙ whole
