-- ===== src/Client/MemoryStore/Query.antt =====
-- client/src/memory_store.rs: `search` and `retrieve_context`.
use zk_llm_gateway.Prelude.{
  ℕ, Bool, true, false, ◌&&◌, ◌||◌, not, map, Option, none, some, List, [], ◌∷◌, ◌++◌, ltb, leb,
  ◌==◌, if◌then◌else◌, length, take, get_elem?,
}
use zk_llm_gateway.Prelude.Text.{Text, codes}
use zk_llm_gateway.Json.{end}
use zk_llm_gateway.Types.{ChatMessage}
use zk_llm_gateway.Client.MemoryStore.Tokens.{Unicode, tokenize_query}
use zk_llm_gateway.Client.MemoryStore.{
  Floats, DocKind, memory, message, same_kind, Doc, SearchResult, RetrievedContext, Postings,
  postings_of, MemoryStore,
}

wanted : Option DocKind → Doc → Bool
wanted none d = true
wanted (some k) d = same_kind d.kind k

-- A message from the cutoff on.
past : Option ℕ → Doc → Bool
past none d = false
past (some cutoff) d = elim d.msg_index [
  | none ↦ false
  | some i ↦ same_kind d.kind message && leb cutoff i
]

-- The document passes the filter of the search.
unfoldable pub admits : Option DocKind → Option ℕ → Doc → Bool
unfolding wanted past same_kind
admits kind_filter cutoff d = wanted kind_filter d && not (past cutoff d)

module _ {F : Type 0} (fl : Floats F) where
  -- `*scores.entry(idx).or_insert(0.0) += add`.
  unfoldable pub bump : ℕ → F → List (ℕ × F) → List (ℕ × F)
  bump idx add [] = (idx, fl.plus (fl.of_nat 0) add) ∷ []
  bump idx add ((j, s) ∷ scores) =
      if j == idx then (j, fl.plus s add) ∷ scores else (j, s) ∷ bump idx add scores

  -- What one posting adds to a score.
  unfoldable pub gain : MemoryStore F → F → ℕ → ℕ → F
  gain store idf idx freq =
      let one = fl.of_nat 1 in
      let avgdl = fl.larger store.avg_doc_len one in
      let dl = fl.of_nat (elim (get_elem? store.doc_len idx) [ none ↦ 1 | some n ↦ n ]) in
      let tf = fl.of_nat freq in
      let denom =
        fl.plus tf
          (fl.times fl.k1 (fl.plus (fl.minus one fl.b) (fl.times fl.b (fl.over dl avgdl)))) in
      fl.times idf (fl.over (fl.times tf (fl.plus fl.k1 one)) denom)

  -- The loop over one term's postings; `none` is an index out of range, a panic.
  unfoldable pub score_postings :
      MemoryStore F
      → Option DocKind
      → Option ℕ
      → F
      → Postings
      → List (ℕ × F)
      → Option (List (ℕ × F))
  unfolding admits bump gain
  score_postings store kind_filter cutoff idf [] scores = some scores
  score_postings store kind_filter cutoff idf ((idx, freq) ∷ ps) scores =
      elim (get_elem? store.docs idx) [
        | none ↦ none
        | some d ↦ score_postings store kind_filter cutoff idf ps (
            if admits kind_filter cutoff d
            then bump idx (gain store idf idx freq) scores
            else scores)
      ]

  unfoldable pub inverse_frequency : ℕ → ℕ → F
  inverse_frequency n_docs n =
      let df = fl.of_nat n in
      fl.ln (
        fl.plus (fl.over (fl.plus (fl.minus (fl.of_nat n_docs) df) fl.half) (fl.plus df fl.half))
          (fl.of_nat 1))

  -- The loop over the terms of the query.
  unfoldable pub score_terms :
      MemoryStore F → Option DocKind → Option ℕ → List Text → List (ℕ × F) → Option (List (ℕ × F))
  unfolding score_postings
  score_terms store kind_filter cutoff [] scores = some scores
  score_terms store kind_filter cutoff (t ∷ ts) scores =
      let ps = postings_of t store.inverted in
      elim (score_postings store kind_filter cutoff
        (inverse_frequency (length store.docs) (length ps)) ps scores) [
          | none ↦ none
          | some scores' ↦ score_terms store kind_filter cutoff ts scores'
        ]

  unfoldable pub results : List Doc → List (ℕ × F) → Option (List (SearchResult F))
  results docs [] = some []
  results docs ((idx, score) ∷ scores) =
      let rest = results docs scores in
      elim (get_elem? docs idx) [
        | none ↦ none
        | some d ↦ elim rest [
          | none ↦ none
          | some rs ↦ some (record { score = score; doc = d } ∷ rs)
        ]
      ]

  -- `sort_by` with the greatest score first, a stable sort.
  unfoldable pub insert_ranked : SearchResult F → List (SearchResult F) → List (SearchResult F)
  insert_ranked r [] = r ∷ []
  insert_ranked r (q ∷ qs) =
      let rest = insert_ranked r qs in if fl.above q.score r.score then q ∷ rest else r ∷ q ∷ qs

  unfoldable pub sort_ranked : List (SearchResult F) → List (SearchResult F)
  unfolding insert_ranked
  sort_ranked [] = []
  sort_ranked (r ∷ rs) = insert_ranked r (sort_ranked rs)

  -- A query with no term and an index with no document give no score.
  unfoldable pub search :
      Unicode
      → Text
      → ℕ
      → Option DocKind
      → Option ℕ
      → MemoryStore F
      → Option (List (SearchResult F))
  unfolding score_terms results sort_ranked
  search u query limit kind_filter cutoff store =
      if limit == 0 || length store.docs == 0
      then some []
      else elim (score_terms store kind_filter cutoff (tokenize_query u query) []) [
        | none ↦ none
        | some scores ↦ elim (results store.docs scores) [
          | none ↦ none
          | some rs ↦ some (take limit (sort_ranked rs))
        ]
      ]

  unfoldable pub docs_of : List (SearchResult F) → List Doc
  docs_of [] = []
  docs_of (r ∷ rs) = r.doc ∷ docs_of rs

-- A document as a message of the prompt, cut at 400 characters.
unfoldable pub recall_message : Doc → ChatMessage
recall_message d = record {
  role = elim d.role [ none ↦ codes "unknown" | some role ↦ role ];
  content = take 400 d.text ++ (if ltb 400 (length d.text) then 0x2026 ∷ [] else []);
  extra = end;
}

module _ {F : Type 0} (fl : Floats F) where
  unfoldable pub retrieve_context :
      Unicode → Text → ℕ → ℕ → Option ℕ → MemoryStore F → Option RetrievedContext
  unfolding docs_of recall_message
  retrieve_context u query max_memory_items max_recall_snippets cutoff store =
      elim (search fl u query max_memory_items (some memory) none store) [
        | none ↦ none
        | some found ↦
            elim (if ltb 0 max_recall_snippets
              then search fl u query max_recall_snippets (some message) cutoff store
              else some []) [
                | none ↦ none
                | some recalled ↦ some (record {
                  memories = docs_of fl found;
                  recall = map recall_message (docs_of fl recalled);
                })
              ]
      ]
