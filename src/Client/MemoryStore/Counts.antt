-- ===== src/Client/MemoryStore/Counts.antt =====
-- Counting of tokens and postings, against their description by the documents.
use zk_llm_gateway.Prelude.{
  ℕ, suc, ◌+◌, false, ◌≡◌, refl, ap, sym, ◌∙◌, inl, inr, Option, none, some, List, [], ◌∷◌, ◌++◌,
  append-nil, ◌==◌, if◌then◌else◌, length, arith, Bool-cases,
}
use zk_llm_gateway.Prelude.Text.{Text, bytes_eq, bytes_eq_iff}
use zk_llm_gateway.Prelude.Strings.{Dict, lookup, put, has_key}
use zk_llm_gateway.Prelude.Dicts.{lookup-put, lookup-put_apart}
use zk_llm_gateway.Client.MemoryStore.{
  Doc, Postings, postings_of, or_empty, one_more, count_tokens, sum_values, post_terms,
}
use zk_llm_gateway.Client.MemoryStore.Tokens.{Unicode, tokenize_for_index}

unfoldable pub count : Text → List Text → ℕ
count t [] = 0
count t (x ∷ xs) = let rest = count t xs in if bytes_eq x t then suc rest else rest

-- The specification of a term's postings, for documents that are numbered from the given one.
unfoldable pub postings : Unicode → Text → ℕ → List Doc → Postings
unfolding count
postings u t i [] = []
postings u t i (d ∷ ds) =
    let rest = postings u t (suc i) ds in
    let n = count t (tokenize_for_index u d.text d.tags) in if n == 0 then rest else (i, n) ∷ rest

bytes_eq_flip : (x y : Text) → bytes_eq y x ≡ false → bytes_eq x y ≡ false
bytes_eq_flip x y h = ground (arith, bytes_eq_iff x y, bytes_eq_iff y x)

-- A count as an entry of the map, where zero is absent.
pub entry : ℕ → Option ℕ
entry n = if n == 0 then none else some n

one_more-entry : (m : ℕ) → entry (one_more (entry m)) ≡ entry (suc m)
unfolding one_more entry
one_more-entry m = ground arith

some-one_more : (m : ℕ) → some (one_more (entry m)) ≡ entry (suc m)
unfolding one_more entry
some-one_more m = ground arith

pub lookup-count_tokens :
    (t : Text) (ts : List Text) (tf : Dict ℕ) (m : ℕ)
    → lookup t tf ≡ entry m
    → lookup t (count_tokens ts tf) ≡ entry (m + count t ts)
unfolding count_tokens count
lookup-count_tokens t [] tf m h = h ∙ ap entry (omega arith)
lookup-count_tokens t (x ∷ ts) tf m h =
    let tf' = put x (one_more (lookup x tf)) tf in
    elim (Bool-cases (bytes_eq x t)) [
      | inl e ↦
          let same = (bytes_eq_iff x t).0 e in
          let now : lookup t tf' ≡ entry (suc m) =
            ap (λ k. lookup k tf') (sym same)
            ∙ lookup-put x (one_more (lookup x tf)) tf
            ∙ ap (λ k. some (one_more (lookup k tf))) same
            ∙ ap (λ o. some (one_more o)) h
            ∙ some-one_more m in
          let shift : suc m + count t ts ≡ m + suc (count t ts) = omega arith in
          rw e (lookup-count_tokens t ts tf' (suc m) now ∙ ap entry shift)
      | inr e ↦ rw e (lookup-count_tokens t ts tf' m (lookup-put_apart t x _ tf e ∙ h))
    ]

-- The keys are different.
abbrev pub AllApart : Dict ℕ → Type 0
AllApart [] = Unit {0}
AllApart ((k, n) ∷ d) = (has_key k d ≡ false) × AllApart d

has_key-put :
    (j k : Text) (v : ℕ) (d : Dict ℕ)
    → bytes_eq k j ≡ false
    → has_key j d ≡ false
    → has_key j (put k v d) ≡ false
unfolding has_key put
has_key-put j k v [] e h = rw e refl
has_key-put j k v ((i, w) ∷ d) e h = ground (arith, has_key-put j k v d)

put-AllApart : (k : Text) (v : ℕ) (d : Dict ℕ) → AllApart d → AllApart (put k v d)
unfolding has_key put
put-AllApart k v [] all = (refl, tt)
put-AllApart k v ((j, w) ∷ d) (h, all) = elim (Bool-cases (bytes_eq j k)) [
  | inl e ↦ rw e (h, all)
  | inr e ↦ rw e (has_key-put j k v d (bytes_eq_flip k j e) h, put-AllApart k v d all)
]

pub count_tokens-AllApart :
    (ts : List Text) (tf : Dict ℕ) → AllApart tf → AllApart (count_tokens ts tf)
unfolding count_tokens
count_tokens-AllApart [] tf all = all
count_tokens-AllApart (t ∷ ts) tf all =
    count_tokens-AllApart ts _ (put-AllApart t (one_more (lookup t tf)) tf all)

-- What a document adds to a term's postings.
pub added : ℕ → Option ℕ → Postings
added i none = []
added i (some n) = (i, n) ∷ []

absent : (t : Text) (d : Dict ℕ) → has_key t d ≡ false → lookup t d ≡ none
unfolding has_key lookup
absent t [] h = refl
absent t ((k, n) ∷ d) h = ground (arith, absent t d)

postings_of-put :
    (t k : Text) (ps : Postings) (inverted : Dict Postings)
    → postings_of t (put k ps inverted) ≡ (if bytes_eq k t then ps else postings_of t inverted)
unfolding postings_of
postings_of-put t k ps inverted = elim (Bool-cases (bytes_eq k t)) [
  | inl e ↦
      let same = (bytes_eq_iff k t).0 e in
      rw e (
        ap (λ (j : Text). or_empty (lookup j (put k ps inverted))) (sym same)
        ∙ ap or_empty (lookup-put k ps inverted))
  | inr e ↦ rw e (ap or_empty (lookup-put_apart t k ps inverted e))
]

pub postings_of-post_terms :
    (t : Text) (i : ℕ) (tf : Dict ℕ) (inverted : Dict Postings)
    → AllApart tf
    → postings_of t (post_terms i tf inverted) ≡ postings_of t inverted ++ added i (lookup t tf)
unfolding post_terms lookup added
postings_of-post_terms t i [] inverted all = sym (append-nil _)
postings_of-post_terms t i ((k, n) ∷ tf) inverted (h, all) =
    let ps = postings_of k inverted ++ (i, n) ∷ [] in
    let ih = postings_of-post_terms t i tf (put k ps inverted) all in
    let now = postings_of-put t k ps inverted in
    let step = ih ∙ ap (λ (p : Postings). p ++ added i (lookup t tf)) now in
    elim (Bool-cases (bytes_eq k t)) [
      | inl e ↦
          let same = (bytes_eq_iff k t).0 e in
          let gone : lookup t tf ≡ none = absent t tf (ap (λ j. has_key j tf) (sym same) ∙ h) in
          rw e (
            step
            ∙ rw (e, gone)
                (append-nil ps ∙ ap (λ (j : Text). postings_of j inverted ++ (i, n) ∷ []) same))
      | inr e ↦ rw e (step ∙ rw e refl)
    ]

pub postings-append :
    (u : Unicode) (t : Text) (i : ℕ) (ds : List Doc) (d : Doc)
    → postings u t i (ds ++ d ∷ [])
      ≡ postings u t i ds
        ++ added (i + length ds) (entry (count t (tokenize_for_index u d.text d.tags)))
unfolding postings entry added
postings-append u t i [] d =
    let here : i + 0 ≡ i = omega arith in
    elim (Bool-cases (count t (tokenize_for_index u d.text d.tags) == 0)) [
      | inl e ↦ rw e refl
      | inr e ↦ rw (e, here) refl
    ]
postings-append u t i (x ∷ ds) d =
    let shift : suc i + length ds ≡ i + suc (length ds) = omega arith in
    let ih =
      postings-append u t (suc i) ds d
      ∙ ap
          (λ (j : ℕ).
            postings u t (suc i) ds
            ++ added j (entry (count t (tokenize_for_index u d.text d.tags))))
          shift in
    elim (Bool-cases (count t (tokenize_for_index u x.text x.tags) == 0)) [
      | inl e ↦ rw e ih
      | inr e ↦ rw e (ap (◌∷◌ (i, count t (tokenize_for_index u x.text x.tags))) ih)
    ]

sum_values-put :
    (t : Text) (tf : Dict ℕ) → sum_values (put t (one_more (lookup t tf)) tf) ≡ suc (sum_values tf)
unfolding sum_values put one_more lookup
sum_values-put t [] = refl
sum_values-put t ((k, n) ∷ tf) = ground (arith, sum_values-put t tf)

pub sum_values-count_tokens :
    (ts : List Text) (tf : Dict ℕ) → sum_values (count_tokens ts tf) ≡ sum_values tf + length ts
unfolding count_tokens
sum_values-count_tokens [] tf = omega arith
sum_values-count_tokens (t ∷ ts) tf =
    let ih = sum_values-count_tokens ts (put t (one_more (lookup t tf)) tf) in
    omega (arith, sum_values-put t tf)

pub lookup-count_tokens_new :
    (t : Text) (ts : List Text) → lookup t (count_tokens ts []) ≡ entry (count t ts)
unfolding lookup entry
lookup-count_tokens_new t ts = lookup-count_tokens t ts [] 0 refl ∙ ap entry (omega arith)

pub postings-append_last :
    (u : Unicode) (t : Text) (ds : List Doc) (d : Doc)
    → postings u t 0 (ds ++ d ∷ [])
      ≡ postings u t 0 ds
        ++ added (length ds) (entry (count t (tokenize_for_index u d.text d.tags)))
postings-append_last u t ds d =
    let from : 0 + length ds ≡ length ds = omega arith in
    postings-append u t 0 ds d
    ∙ ap
        (λ (j : ℕ).
          postings u t 0 ds ++ added j (entry (count t (tokenize_for_index u d.text d.tags))))
        from
