-- ===== src/Client/MemoryStore/Context.antt =====
-- What `retrieve_context` hands to the prompt.
use zk_llm_gateway.Prelude.{
  ℕ, ◌≤◌, ◌≡◌, refl, inl, inr, Option, none, some, List, [], ◌∷◌, map, ltb, if◌then◌else◌, length,
  length-append, length-take, take, arith, Bool-cases,
}
use zk_llm_gateway.Prelude.Text.{Text}
use zk_llm_gateway.Types.{ChatMessage}
use zk_llm_gateway.Client.MemoryStore.{
  Floats, DocKind, memory, message, Doc, SearchResult, RetrievedContext, MemoryStore,
}
use zk_llm_gateway.Client.MemoryStore.Tokens.{Unicode, tokenize_query}
use zk_llm_gateway.Client.MemoryStore.Index.{IsIndex}
use zk_llm_gateway.Client.MemoryStore.Query.{search, docs_of, recall_message, retrieve_context}
use zk_llm_gateway.Client.MemoryStore.Search.{IsFound, AllFound, search-AllFound}

-- Every document is one that a search may find.
abbrev pub AllFoundDocs :
    Unicode → List Doc → Option DocKind → Option ℕ → List Text → List Doc → Type 0
AllFoundDocs u docs k cutoff terms [] = Unit {0}
AllFoundDocs u docs k cutoff terms (d ∷ ds) =
    IsFound u docs k cutoff terms d × AllFoundDocs u docs k cutoff terms ds

-- Every message is cut from such a document, to 400 characters and a mark.
abbrev pub AllCut :
    Unicode → List Doc → Option DocKind → Option ℕ → List Text → List ChatMessage → Type 0
AllCut u docs k cutoff terms [] = Unit {0}
AllCut u docs k cutoff terms (m ∷ ms) =
    ((d : Doc) × IsFound u docs k cutoff terms d
      × (m ≡ recall_message d)
      × (length m.content ≤ 401))
    × AllCut u docs k cutoff terms ms

recall_message-short : (d : Doc) → length (recall_message d).content ≤ 401
unfolding recall_message
recall_message-short d = elim (Bool-cases (ltb 400 (length d.text))) [
  | inl e ↦
      rw e (omega (arith, length-append (take 400 d.text) (0x2026 ∷ []), length-take 400 d.text))
  | inr e ↦ rw e (omega (arith, length-append {A = ℕ} (take 400 d.text) [], length-take 400 d.text))
]

module _ {F : Type 0} (fl : Floats F) (u : Unicode) (store : MemoryStore F) (k : Option DocKind)
    (cutoff : Option ℕ) (terms : List Text) where
  docs_of-AllFoundDocs :
      (rs : List (SearchResult F))
      → AllFound fl u store k cutoff terms rs
      → AllFoundDocs u store.docs k cutoff terms (docs_of fl rs)
        × AllCut u store.docs k cutoff terms (map recall_message (docs_of fl rs))
        × (length (docs_of fl rs) ≡ length rs)
        × (length (map recall_message (docs_of fl rs)) ≡ length rs)
  unfolding docs_of
  docs_of-AllFoundDocs [] all = (tt, tt, refl, refl)
  docs_of-AllFoundDocs (r ∷ rs) (here, all) =
      let (docs, cut, size, count) = docs_of-AllFoundDocs rs all in
      (
        (here, docs),
        ((r.doc, here, refl, recall_message-short r.doc), cut),
        omega arith,
        omega arith,
      )

-- What the filter of the recall finds when it is asked for.
search_or_none :
    {F : Type 0} (fl : Floats F) (u : Unicode) (query : Text) (limit : ℕ) (cutoff : Option ℕ)
    (store : MemoryStore F)
    → IsIndex fl u store
    → (rs : List (SearchResult F)) × ((if ltb 0 limit
          then search fl u query limit (some message) cutoff store
          else some [])
        ≡ some rs)
      × (length rs ≤ limit)
      × AllFound fl u store (some message) cutoff (tokenize_query u query) rs
search_or_none fl u query limit cutoff store is = elim (Bool-cases (ltb 0 limit)) [
  | inl e ↦ rw e (search-AllFound fl u query limit (some message) cutoff store is)
  | inr e ↦ rw e ([], refl, omega arith, tt)
]

-- The context for a prompt: over an index that is true to its documents it is always made; it has at
-- most the asked number of memories and of recalled messages; each memory is a memory document with a
-- term of the query, and each recalled message is made of a message document before the cutoff with a
-- term of the query, and has at most 401 characters.
pub retrieve_context-AllCut :
    {F : Type 0} (fl : Floats F) (u : Unicode) (query : Text) (max_memory max_recall : ℕ)
    (cutoff : Option ℕ) (store : MemoryStore F)
    → IsIndex fl u store
    → (ctx : RetrievedContext) × (retrieve_context fl u query max_memory max_recall cutoff store
        ≡ some ctx)
      × (length ctx.memories ≤ max_memory)
      × (length ctx.recall ≤ max_recall)
      × AllFoundDocs u store.docs (some memory) none (tokenize_query u query) ctx.memories
      × AllCut u store.docs (some message) cutoff (tokenize_query u query) ctx.recall
unfolding retrieve_context
retrieve_context-AllCut fl u query max_memory max_recall cutoff store is =
    let terms = tokenize_query u query in
    let (found, searched, few, good) =
      search-AllFound fl u query max_memory (some memory) none store is in
    let (recalled, again, few', good') = search_or_none fl u query max_recall cutoff store is in
    let (docs, _cut, size, _n) =
      docs_of-AllFoundDocs fl u store (some memory) none terms found good in
    let (_docs, cut, _m, size') =
      docs_of-AllFoundDocs fl u store (some message) cutoff terms recalled good' in
    (
      record { memories = docs_of fl found; recall = map recall_message (docs_of fl recalled) },
      rw (searched, again, retrieve_context) refl,
      omega arith,
      omega arith,
      docs,
      cut,
    )
