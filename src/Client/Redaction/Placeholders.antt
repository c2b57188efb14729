-- ===== src/Client/Redaction/Placeholders.antt =====
-- The placeholders of one expression's matches, and what stands between them
-- (client/src/redaction.rs).
use zk_llm_gateway.Prelude.{
  ℕ, true, false, ◌||◌, ◌≡◌, ◌⊎◌, refl, ap, sym, ◌∙◌, inl, inr, none, some, List, [], ◌∷◌, ◌++◌,
  ◌==◌, arith, Bool-cases, subst, append_assoc,
}
use zk_llm_gateway.Prelude.Text.{Bytes, Text, bytes_eq, bytes_eq_iff}
use zk_llm_gateway.Prelude.Strings.{Dict, lookup, has_key, has_text}
use zk_llm_gateway.Prelude.Dicts.{lookup-put, lookup-put_apart, has_key-lookup}
use zk_llm_gateway.Crypto.{Crypto}
use zk_llm_gateway.Client.Redaction.{
  RedactionKind, Redactor, Piece, between, hit, hex_digit, to_hex, upsert_mapping, digest,
  placeholder_for, replace_pieces,
}
use zk_llm_gateway.Client.Redaction.Marks.{IsMark, free_of, free_of-append}
use zk_llm_gateway.Client.Redaction.Rehydration.{Item, raw, mark, render, plain, AllSound}

free_of-hex : (x : ℕ) (bs : Bytes) → ((x == 60) || (x == 62)) ≡ true → free_of x (to_hex bs) ≡ true
unfolding free_of to_hex hex_digit
free_of-hex x [] h = refl
free_of-hex x (b ∷ bs) h = ground (arith, free_of-hex x bs)

-- A placeholder whose tag has no angle bracket is a mark.
pub placeholder_for-IsMark :
    (c : Crypto) (salt : Bytes) (tag original : Text)
    → free_of 60 tag ≡ true
    → free_of 62 tag ≡ true
    → IsMark (placeholder_for c salt tag original)
unfolding placeholder_for
placeholder_for-IsMark c salt tag original open_free close_free =
    let hex = to_hex (digest c salt tag original) in
    let free_in =
      λ (x : ℕ) (h : ((x == 60) || (x == 62)) ≡ true) (t : free_of x tag ≡ true)
          (u : free_of x (95 ∷ []) ≡ true).
        free_of-append x tag ((95 ∷ []) ++ hex) t
          (free_of-append x (95 ∷ []) hex u (free_of-hex x (digest c salt tag original) h)) in
    record {
      body = tag ++ (95 ∷ hex);
      shape = ap (◌∷◌ 60) (sym (append_assoc tag (95 ∷ hex) (62 ∷ [])));
      no_open = free_in 60 refl open_free (unfold free_of in refl);
      no_close = free_in 62 refl close_free (unfold free_of in refl);
    }

-- The text that was cut.
unfoldable pub text_of : List Piece → Text
text_of [] = []
text_of (between s ∷ ps) = s ++ text_of ps
text_of (hit m ∷ ps) = m ++ text_of ps

abbrev pub IsHit : Text → List Piece → Type 0
IsHit m [] = true ≡ false
IsHit m (between s ∷ ps) = IsHit m ps
IsHit m (hit n ∷ ps) = (m ≡ n) ⊎ IsHit m ps

unfoldable pub raws : Text → List Item → List Item
raws [] items = items
raws (c ∷ cs) items = raw c ∷ raws cs items

unfoldable pub items_of : Crypto → Bytes → Text → List Piece → List Item
unfolding raws
items_of c salt tag [] = []
items_of c salt tag (between s ∷ ps) = raws s (items_of c salt tag ps)
items_of c salt tag (hit m ∷ ps) = mark (placeholder_for c salt tag m) m ∷ items_of c salt tag ps

render-raws : (s : Text) (items : List Item) → render [] (raws s items) ≡ s ++ render [] items
unfolding render raws
render-raws [] items = refl
render-raws (x ∷ s) items = ap (◌∷◌ x) (render-raws s items)

plain-raws : (s : Text) (items : List Item) → plain (raws s items) ≡ s ++ plain items
unfolding plain raws
plain-raws [] items = refl
plain-raws (x ∷ s) items = ap (◌∷◌ x) (plain-raws s items)

pub raws-AllSound :
    (rev : Dict Text) (s : Text) (items : List Item)
    → free_of 60 s ≡ true
    → AllSound rev items
    → AllSound rev (raws s items)
unfolding raws free_of
raws-AllSound rev [] items h sound = sound
raws-AllSound rev (x ∷ s) items h sound =
    (ground arith, raws-AllSound rev s items (ground arith) sound)

pub plain-items_of :
    (c : Crypto) (salt : Bytes) (tag : Text) (ps : List Piece)
    → plain (items_of c salt tag ps) ≡ text_of ps
unfolding items_of text_of plain
plain-items_of c salt tag [] = refl
plain-items_of c salt tag (between s ∷ ps) =
    plain-raws s (items_of c salt tag ps) ∙ ap (◌++◌ s) (plain-items_of c salt tag ps)
plain-items_of c salt tag (hit m ∷ ps) = ap (◌++◌ m) (plain-items_of c salt tag ps)

pub upsert_mapping-salt :
    (ph m : Text) (kind : RedactionKind) (red : Redactor)
    → (upsert_mapping ph m kind red).salt ≡ red.salt
unfolding upsert_mapping
upsert_mapping-salt ph m kind red = elim (Bool-cases (has_key ph red.rev)) [
  | inl e ↦ rw e refl
  | inr e ↦ rw e refl
]

-- What `replace_pieces` writes.
pub replace_pieces-render :
    (c : Crypto) (kind : RedactionKind) (tag : Text) (salt : Bytes) (ps : List Piece)
    (red : Redactor)
    → red.salt ≡ salt
    → (replace_pieces c kind tag ps red).1 ≡ render [] (items_of c salt tag ps)
unfolding replace_pieces items_of render has_text
replace_pieces-render c kind tag salt [] red same = refl
replace_pieces-render c kind tag salt (between s ∷ ps) red same =
    ap (◌++◌ s) (replace_pieces-render c kind tag salt ps red same)
    ∙ sym (render-raws s (items_of c salt tag ps))
replace_pieces-render c kind tag salt (hit m ∷ ps) red same =
    let red' = upsert_mapping (placeholder_for c red.salt tag m) m kind red in
    let ih =
      replace_pieces-render c kind tag salt ps red'
        (upsert_mapping-salt (placeholder_for c red.salt tag m) m kind red ∙ same) in
    rw ih (ap (λ t. placeholder_for c t tag m ++ render [] (items_of c salt tag ps)) same)

-- The placeholder is unused, or used for this text.
abbrev pub IsOpenFor : Text → Text → Redactor → Type 0
IsOpenFor ph m red = (lookup ph red.rev ≡ none) ⊎ (lookup ph red.rev ≡ some m)

pub upsert_mapping-lookup :
    (ph m : Text) (kind : RedactionKind) (red : Redactor)
    → IsOpenFor ph m red
    → lookup ph (upsert_mapping ph m kind red).rev ≡ some m
unfolding upsert_mapping
upsert_mapping-lookup ph m kind red (inl gone) =
    let fresh = has_key-lookup ph red.rev gone in rw fresh (lookup-put ph m red.rev)
upsert_mapping-lookup ph m kind red (inr found) = elim (Bool-cases (has_key ph red.rev)) [
  | inl e ↦ rw e found
  | inr e ↦ rw e (lookup-put ph m red.rev)
]

pub upsert_mapping-IsOpenFor :
    (k ph n m : Text) (kind : RedactionKind) (red : Redactor)
    → (ph ≡ k → m ≡ n)
    → IsOpenFor ph m red
    → IsOpenFor k n red
    → IsOpenFor k n (upsert_mapping ph m kind red)
unfolding upsert_mapping
upsert_mapping-IsOpenFor k ph n m kind red apart here there = elim (Bool-cases (bytes_eq ph k)) [
  | inl e ↦
      let same = (bytes_eq_iff ph k).0 e in
      inr (
        subst (λ t. lookup t (upsert_mapping ph m kind red).rev ≡ some n) same
          (upsert_mapping-lookup ph m kind red here ∙ ap some (apart same)))
  | inr e ↦ elim (Bool-cases (has_key ph red.rev)) [
    | inl old ↦ rw old there
    | inr fresh ↦ rw (fresh, lookup-put_apart k ph m red.rev e) there
  ]
]
