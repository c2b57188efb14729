-- ===== src/Client/MemoryStore/Search.antt =====
-- What a search finds.
use zk_llm_gateway.Prelude.{
  ℕ, zero, suc, ◌≤◌, ◌<◌, true, ◌||◌, ◌≡◌, refl, ap, sym, ◌∙◌, inl, inr, Option, some, List, [],
  ◌∷◌, ◌++◌, append_assoc, ◌==◌, if◌then◌else◌, length, length-append, length-take, take, get_elem?,
  arith, Bool-cases, subst,
}
use zk_llm_gateway.Prelude.Text.{Text, bytes_eq_refl}
use zk_llm_gateway.Prelude.Strings.{has_text}
use zk_llm_gateway.Client.MemoryStore.{
  Floats, DocKind, Doc, SearchResult, MemoryStore, Postings, postings_of,
}
use zk_llm_gateway.Client.MemoryStore.Tokens.{Unicode, tokenize_for_index, tokenize_query}
use zk_llm_gateway.Client.MemoryStore.Counts.{count, postings}
use zk_llm_gateway.Client.MemoryStore.Index.{IsIndex}
use zk_llm_gateway.Client.MemoryStore.Query.{
  admits, bump, gain, score_postings, inverse_frequency, score_terms, results, insert_ranked,
  sort_ranked, search,
}

-- A document of the store that passes the filter and has a term of the query.
pub record IsFound (u : Unicode) (docs : List Doc) (kind_filter : Option DocKind)
    (cutoff : Option ℕ) (terms : List Text) (d : Doc) : Type 0 where
  pub place : ℕ
  pub placed : get_elem? docs place ≡ some d
  pub admitted : admits kind_filter cutoff d ≡ true
  pub term : Text
  pub queried : has_text term terms ≡ true
  pub occurs : 0 < count term (tokenize_for_index u d.text d.tags)

-- A posting that names a document in which the term occurs.
abbrev IsPosted : Unicode → List Doc → Text → ℕ → Type 0
IsPosted u docs t i =
    (d : Doc) × (get_elem? docs i ≡ some d) × (0 < count t (tokenize_for_index u d.text d.tags))

abbrev AllPosted : Unicode → List Doc → Text → Postings → Type 0
AllPosted u docs t [] = Unit {0}
AllPosted u docs t ((i, n) ∷ ps) = IsPosted u docs t i × AllPosted u docs t ps

get_elem?-append_next :
    {A : Type 0} (xs : List A) (y : A) (ys : List A) → get_elem? (xs ++ y ∷ ys) (length xs) ≡ some y
get_elem?-append_next [] y ys = refl
get_elem?-append_next (x ∷ xs) y ys = get_elem?-append_next xs y ys

postings-AllPosted :
    (u : Unicode) (t : Text) (i : ℕ) (before ds : List Doc)
    → length before ≡ i
    → AllPosted u (before ++ ds) t (postings u t i ds)
unfolding postings
postings-AllPosted u t i before [] e = tt
postings-AllPosted u t i before (d ∷ ds) e =
    let n = count t (tokenize_for_index u d.text d.tags) in
    let size : length (before ++ d ∷ []) ≡ suc i = omega (arith, length-append before (d ∷ [])) in
    let ih =
      subst (λ all. AllPosted u all t (postings u t (suc i) ds)) (append_assoc before (d ∷ []) ds)
        (postings-AllPosted u t (suc i) (before ++ d ∷ []) ds size) in
    let here : get_elem? (before ++ d ∷ ds) i ≡ some d =
      ap (get_elem? (before ++ d ∷ ds)) (sym e) ∙ get_elem?-append_next before d ds in
    elim (Bool-cases (n == 0)) [ inl z ↦ rw z ih | inr z ↦ rw z ((d, here, ground arith), ih) ]

module _ {F : Type 0} (fl : Floats F) (u : Unicode) (store : MemoryStore F)
    (kind_filter : Option DocKind) (cutoff : Option ℕ) (terms : List Text) where
  abbrev AllScored : List (ℕ × F) → Type 0
  AllScored [] = Unit {0}
  AllScored ((i, s) ∷ scores) =
      ((d : Doc) × (get_elem? store.docs i ≡ some d)
        × IsFound u store.docs kind_filter cutoff terms d)
      × AllScored scores

  abbrev pub AllFound : List (SearchResult F) → Type 0
  AllFound [] = Unit {0}
  AllFound (r ∷ rs) = IsFound u store.docs kind_filter cutoff terms r.doc × AllFound rs

  bump-AllScored :
      (i : ℕ) (add : F) (scores : List (ℕ × F))
      → ((d : Doc) × (get_elem? store.docs i ≡ some d)
          × IsFound u store.docs kind_filter cutoff terms d)
      → AllScored scores
      → AllScored (bump fl i add scores)
  unfolding bump
  bump-AllScored i add [] here all = (here, tt)
  bump-AllScored i add ((j, s) ∷ scores) here (there, all) = elim (Bool-cases (j == i)) [
    | inl e ↦ rw e (there, all)
    | inr e ↦ rw e (there, bump-AllScored i add scores here all)
  ]

  admit-AllScored :
      (i : ℕ) (add : F) (scores : List (ℕ × F)) (t : Text) (d : Doc)
      → get_elem? store.docs i ≡ some d
      → 0 < count t (tokenize_for_index u d.text d.tags)
      → has_text t terms ≡ true
      → AllScored scores
      → AllScored (if admits kind_filter cutoff d then bump fl i add scores else scores)
  admit-AllScored i add scores t d placed occurs queried all =
      elim (Bool-cases (admits kind_filter cutoff d)) [
        | inl e ↦ rw e (
            bump-AllScored i add scores
              (
                d,
                placed,
                record {
                  place = i;
                  placed = placed;
                  admitted = e;
                  term = t;
                  queried = queried;
                  occurs = occurs;
                },
              )
              all)
        | inr e ↦ rw e all
      ]

  score_postings-AllScored :
      (t : Text) (idf : F) (ps : Postings) (scores : List (ℕ × F))
      → has_text t terms ≡ true
      → AllPosted u store.docs t ps
      → AllScored scores
      → (out : List (ℕ × F)) × (score_postings fl store kind_filter cutoff idf ps scores ≡ some out)
        × AllScored out
  unfolding score_postings
  score_postings-AllScored t idf [] scores queried posted all = (scores, refl, all)
  score_postings-AllScored t idf ((i, n) ∷ ps) scores queried ((d, placed, occurs), posted) all =
      let add = gain fl store idf i n in
      let (out, made, end) =
        score_postings-AllScored t idf ps
          (if admits kind_filter cutoff d then bump fl i add scores else scores) queried posted
          (admit-AllScored i add scores t d placed occurs queried all) in
      (out, rw (placed, score_postings) made, end)

  score_terms-AllScored :
      (is : IsIndex fl u store) (ts : List Text) (scores : List (ℕ × F))
      → ((t : Text) → has_text t ts ≡ true → has_text t terms ≡ true)
      → AllScored scores
      → (out : List (ℕ × F)) × (score_terms fl store kind_filter cutoff ts scores ≡ some out)
        × AllScored out
  unfolding score_terms has_text
  score_terms-AllScored is [] scores sub all = (scores, refl, all)
  score_terms-AllScored is (t ∷ ts) scores sub all =
      let ps = postings_of t store.inverted in
      let posted =
        subst (AllPosted u store.docs t) (sym (is.terms t))
          (postings-AllPosted u t 0 [] store.docs refl) in
      let (now, made, good) =
        score_postings-AllScored t (inverse_frequency fl (length store.docs) (length ps)) ps scores
          (sub t (rw (bytes_eq_refl t) refl)) posted all in
      let (out, rest, end) =
        score_terms-AllScored is ts now (λ x h. sub x (ground (arith, h))) good in
      (out, rw (made, score_terms) rest, end)

  results-AllFound :
      (scores : List (ℕ × F))
      → AllScored scores
      → (rs : List (SearchResult F)) × (results fl store.docs scores ≡ some rs) × AllFound rs
  unfolding results
  results-AllFound [] all = ([], refl, tt)
  results-AllFound ((i, s) ∷ scores) ((d, placed, found), all) =
      let (rs, made, good) = results-AllFound scores all in
      (record { score = s; doc = d } ∷ rs, rw (placed, made, results) refl, (found, good))

  insert_ranked-AllFound :
      (r : SearchResult F) (rs : List (SearchResult F))
      → IsFound u store.docs kind_filter cutoff terms r.doc
      → AllFound rs
      → AllFound (insert_ranked fl r rs)
  unfolding insert_ranked
  insert_ranked-AllFound r [] here all = (here, tt)
  insert_ranked-AllFound r (q ∷ qs) here (there, all) =
      elim (Bool-cases (fl.above q.score r.score)) [
        | inl e ↦ rw e (there, insert_ranked-AllFound r qs here all)
        | inr e ↦ rw e (here, (there, all))
      ]

  sort_ranked-AllFound : (rs : List (SearchResult F)) → AllFound rs → AllFound (sort_ranked fl rs)
  unfolding sort_ranked
  sort_ranked-AllFound [] all = tt
  sort_ranked-AllFound (r ∷ rs) (here, all) =
      insert_ranked-AllFound r (sort_ranked fl rs) here (sort_ranked-AllFound rs all)

  take-AllFound : (n : ℕ) (rs : List (SearchResult F)) → AllFound rs → AllFound (take n rs)
  take-AllFound zero rs all = tt
  take-AllFound (suc n) [] all = tt
  take-AllFound (suc n) (r ∷ rs) (here, all) = (here, take-AllFound n rs all)

-- A search over an index that is true to its documents ends with an answer (no index is out of
-- range). The answer has at most as many results as asked for, and each is a document of the store,
-- of the wanted kind, no message from the cutoff on, in which a term of the query occurs.
pub search-AllFound :
    {F : Type 0} (fl : Floats F) (u : Unicode) (query : Text) (limit : ℕ)
    (kind_filter : Option DocKind) (cutoff : Option ℕ) (store : MemoryStore F)
    → IsIndex fl u store
    → (rs : List (SearchResult F)) × (search fl u query limit kind_filter cutoff store ≡ some rs)
      × (length rs ≤ limit)
      × AllFound fl u store kind_filter cutoff (tokenize_query u query) rs
unfolding search
search-AllFound fl u query limit kind_filter cutoff store is =
    let terms = tokenize_query u query in
    elim (Bool-cases (limit == 0 || length store.docs == 0)) [
      | inl e ↦ rw e ([], refl, omega arith, tt)
      | inr e ↦
          let (scores, scored, good) =
            score_terms-AllScored fl u store kind_filter cutoff terms is terms [] (λ t h. h) tt in
          let (rs, made, found) =
            results-AllFound fl u store kind_filter cutoff terms scores good in
          rw (e, scored, made)
            (
              take limit (sort_ranked fl rs),
              refl,
              omega (arith, length-take limit (sort_ranked fl rs)),
              take-AllFound fl u store kind_filter cutoff terms limit (sort_ranked fl rs)
                  (sort_ranked-AllFound fl u store kind_filter cutoff terms rs found),
            )
    ]
