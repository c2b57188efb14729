-- ===== src/Client/Redaction/Rehydration.antt =====
-- A text with marks as a sequence of characters and marks, and `rehydrate` on it.
use zk_llm_gateway.Prelude.{
  ℕ, true, false, ◌||◌, ◌≡◌, refl, ap, ◌∙◌, inl, inr, none, some, List, [], ◌∷◌, ◌++◌, ◌==◌,
  if◌then◌else◌, arith, Bool-cases, Option-cases, subst, ltb,
}
use zk_llm_gateway.Prelude.Text.{Text, bytes_eq, bytes_eq_iff, text_len}
use zk_llm_gateway.Prelude.Strings.{Dict, lookup, has_text, replace_from, replace}
use zk_llm_gateway.Client.Redaction.{
  Redactor, insert_longest, sort_longest, keys, replace_keys, rehydrate,
}
use zk_llm_gateway.Client.Redaction.Marks.{IsMark, free_of, replace_from-free, replace_from-mark}

pub data Item : Type 0 where
  raw : ℕ → Item
  mark : Text → Text → Item

-- The text when the marks of the list have been put back.
unfoldable pub render : List Text → List Item → Text
render restored [] = []
render restored (raw c ∷ items) = c ∷ render restored items
render restored (mark ph original ∷ items) =
    (if has_text ph restored then original else ph) ++ render restored items

unfoldable pub plain : List Item → Text
plain [] = []
plain (raw c ∷ items) = c ∷ plain items
plain (mark ph original ∷ items) = original ++ plain items

-- No character opens a mark, and each mark is mapped to its original.
abbrev pub AllSound : Dict Text → List Item → Type 0
AllSound rev [] = Unit {0}
AllSound rev (raw c ∷ items) = ((c == 60) ≡ false) × AllSound rev items
AllSound rev (mark ph original ∷ items) =
    IsMark ph × (free_of 60 original ≡ true) × (lookup ph rev ≡ some original) × AllSound rev items

abbrev pub AllMarks : List Text → Type 0
AllMarks [] = Unit {0}
AllMarks (k ∷ ks) = IsMark k × AllMarks ks

abbrev AllCovered : List Text → List Text → List Item → Type 0
AllCovered ks restored [] = Unit {0}
AllCovered ks restored (raw c ∷ items) = AllCovered ks restored items
AllCovered ks restored (mark ph original ∷ items) =
    ((has_text ph ks || has_text ph restored) ≡ true) × AllCovered ks restored items

replace-IsMark : (k o s : Text) → IsMark k → replace k o s ≡ replace_from k o 0 s
unfolding replace
replace-IsMark k o s p = rw p.shape refl

replace_from-plain :
    (k o s rest : Text)
    → IsMark k
    → free_of 60 s ≡ true
    → replace_from k o 0 (s ++ rest) ≡ s ++ replace_from k o 0 rest
replace_from-plain k o s rest p h = rw p.shape (replace_from-free _ o s rest h)

same_original :
    (rev : Dict Text) (k ph : Text) {o original : Text}
    → bytes_eq k ph ≡ true
    → lookup k rev ≡ some o
    → lookup ph rev ≡ some original
    → o ≡ original
same_original rev k ph {o} {original} e found known =
    let same = (bytes_eq_iff k ph).0 e in
    let there = subst (λ j. lookup j rev ≡ some o) same found in cc

replace_from-item :
    (rev : Dict Text) (k o ph original : Text) (restored : List Text) (rest rest' : Text)
    → IsMark k
    → IsMark ph
    → lookup k rev ≡ some o
    → free_of 60 original ≡ true
    → lookup ph rev ≡ some original
    → replace_from k o 0 rest ≡ rest'
    → replace_from k o 0 ((if has_text ph restored then original else ph) ++ rest)
      ≡ (if has_text ph (k ∷ restored) then original else ph) ++ rest'
unfolding has_text
replace_from-item rev k o ph original restored rest rest' p q found free known ih =
    elim (Bool-cases (has_text ph restored)) [
      | inl e ↦
          let step = replace_from-plain k o original rest p free ∙ ap (◌++◌ original) ih in
          elim (Bool-cases (bytes_eq k ph)) [ inl f ↦ rw (e, f) step | inr f ↦ rw (e, f) step ]
      | inr e ↦
          let step = replace_from-mark k ph o rest p q in
          elim (Bool-cases (bytes_eq k ph)) [
            | inl f ↦
                rw (e, f)
                  (step
                    ∙ rw (f, ih)
                        (ap (λ (t : Text). t ++ rest') (same_original rev k ph f found known)))
            | inr f ↦ rw (e, f) (step ∙ rw (f, ih) refl)
          ]
    ]

-- One round of the loop puts one mark's original back, everywhere.
replace_from-render :
    (rev : Dict Text) (k o : Text) (restored : List Text) (items : List Item)
    → IsMark k
    → lookup k rev ≡ some o
    → AllSound rev items
    → replace_from k o 0 (render restored items) ≡ render (k ∷ restored) items
unfolding render replace_from free_of
replace_from-render rev k o restored [] p found sound = refl
replace_from-render rev k o restored (raw c ∷ items) p found (free, sound) =
    replace_from-plain k o (c ∷ []) (render restored items) p (rw free refl)
    ∙ ap (◌∷◌ c) (replace_from-render rev k o restored items p found sound)
replace_from-render rev k o restored (mark ph original ∷ items) p found (q, free, known, sound) =
    replace_from-item rev k o ph original restored _ _ p q found free known
      (replace_from-render rev k o restored items p found sound)

-- A key with no original is no mark of the text.
render_missing :
    (rev : Dict Text) (k : Text) (restored : List Text) (items : List Item)
    → lookup k rev ≡ none
    → AllSound rev items
    → render restored items ≡ render (k ∷ restored) items
unfolding render has_text
render_missing rev k restored [] gone sound = refl
render_missing rev k restored (raw c ∷ items) gone (free, sound) =
    ap (◌∷◌ c) (render_missing rev k restored items gone sound)
render_missing rev k restored (mark ph original ∷ items) gone (q, free, known, sound) =
    let ih = render_missing rev k restored items gone sound in
    elim (Bool-cases (bytes_eq k ph)) [
      | inl f ↦ absurd (let same = (bytes_eq_iff k ph).0 f in cc)
      | inr f ↦ rw (f, ih) refl
    ]

render_covered :
    (restored : List Text) (items : List Item)
    → AllCovered [] restored items
    → render restored items ≡ plain items
unfolding render plain has_text
render_covered restored [] all = refl
render_covered restored (raw c ∷ items) all = ap (◌∷◌ c) (render_covered restored items all)
render_covered restored (mark ph original ∷ items) (here, all) =
    rw here (ap (◌++◌ original) (render_covered restored items all))

covered_shift :
    (k : Text) (ks restored : List Text) (items : List Item)
    → AllCovered (k ∷ ks) restored items
    → AllCovered ks (k ∷ restored) items
unfolding has_text
covered_shift k ks restored [] all = tt
covered_shift k ks restored (raw c ∷ items) all = covered_shift k ks restored items all
covered_shift k ks restored (mark ph original ∷ items) (here, all) =
    (ground arith, covered_shift k ks restored items all)

replace_keys-render :
    (rev : Dict Text) (ks restored : List Text) (items : List Item)
    → AllMarks ks
    → AllSound rev items
    → AllCovered ks restored items
    → replace_keys rev ks (render restored items) ≡ plain items
unfolding replace_keys
replace_keys-render rev [] restored items marks sound all = render_covered restored items all
replace_keys-render rev (k ∷ ks) restored items (p, marks) sound all =
    let ih =
      replace_keys-render rev ks (k ∷ restored) items marks sound
        (covered_shift k ks restored items all) in
    elim (Option-cases (lookup k rev)) [
      | inl gone ↦ rw (gone, render_missing rev k restored items gone sound) ih
      | inr (o, found) ↦
          rw
            (
              found,
              replace-IsMark k o (render restored items) p,
              replace_from-render rev k o restored items p found sound,
            )
            ih
    ]

has_text-insert_longest :
    (ph k : Text) (ks : List Text)
    → has_text ph (insert_longest k ks) ≡ (bytes_eq k ph || has_text ph ks)
unfolding has_text insert_longest
has_text-insert_longest ph k [] = refl
has_text-insert_longest ph k (j ∷ js) = ground (arith, has_text-insert_longest ph k js)

has_text-sort_longest :
    (ph : Text) (ks : List Text) → has_text ph (sort_longest ks) ≡ has_text ph ks
unfolding has_text sort_longest
has_text-sort_longest ph [] = refl
has_text-sort_longest ph (k ∷ ks) =
    has_text-insert_longest ph k (sort_longest ks)
    ∙ ap (λ b. bytes_eq k ph || b) (has_text-sort_longest ph ks)

insert_longest-AllMarks :
    (k : Text) (ks : List Text) → IsMark k → AllMarks ks → AllMarks (insert_longest k ks)
unfolding insert_longest
insert_longest-AllMarks k [] p all = (p, tt)
insert_longest-AllMarks k (j ∷ js) p (q, all) = elim (Bool-cases (ltb (text_len k) (text_len j))) [
  | inl e ↦ rw e (q, insert_longest-AllMarks k js p all)
  | inr e ↦ rw e (p, (q, all))
]

sort_longest-AllMarks : (ks : List Text) → AllMarks ks → AllMarks (sort_longest ks)
unfolding sort_longest
sort_longest-AllMarks [] all = tt
sort_longest-AllMarks (k ∷ ks) (p, all) =
    insert_longest-AllMarks k (sort_longest ks) p (sort_longest-AllMarks ks all)

has_text-keys :
    (ph : Text) (rev : Dict Text) {original : Text}
    → lookup ph rev ≡ some original
    → has_text ph (keys rev) ≡ true
unfolding lookup has_text keys
has_text-keys ph [] found = cc
has_text-keys ph ((j, v) ∷ rev) {original = original} found =
    ground (arith, has_text-keys ph rev {original = original})

covered_keys :
    (rev : Dict Text) (items : List Item)
    → AllSound rev items
    → AllCovered (sort_longest (keys rev)) [] items
unfolding has_text
covered_keys rev [] sound = tt
covered_keys rev (raw c ∷ items) (free, sound) = covered_keys rev items sound
covered_keys rev (mark ph original ∷ items) (q, free, known, sound) = (
  rw (has_text-sort_longest ph (keys rev), has_text-keys ph rev known) refl,
  covered_keys rev items sound,
)

-- All marks of a text are put back, when every key of the map is a mark.
pub rehydrate-render :
    (red : Redactor) (items : List Item)
    → AllMarks (keys red.rev)
    → AllSound red.rev items
    → rehydrate red (render [] items) ≡ plain items
unfolding rehydrate
rehydrate-render red items marks sound =
    replace_keys-render red.rev (sort_longest (keys red.rev)) [] items
      (sort_longest-AllMarks (keys red.rev) marks) sound (covered_keys red.rev items sound)
