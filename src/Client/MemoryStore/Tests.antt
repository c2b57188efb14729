-- ===== src/Client/MemoryStore/Tests.antt =====
-- Examples for client/src/memory_store.rs, with whole numbers for the scores.
use zk_llm_gateway.Prelude.{ℕ, ◌≤◌, true, ◌≡◌, refl, none, some, List, [], ◌∷◌, length}
use zk_llm_gateway.Prelude.Text.{codes, bytes_eq, text_len, utf8_width}
use zk_llm_gateway.Prelude.Strings.{trim, trim_left, trim_right, is_whitespace, has_text}
use zk_llm_gateway.Json.{end}
use zk_llm_gateway.Types.{ChatMessage}
use zk_llm_gateway.Client.Session.{MemoryItem}
use zk_llm_gateway.Client.Toy.{whole, letters, uuid}
use zk_llm_gateway.Client.MemoryStore.{
  memory, message, SearchResult, RetrievedContext, MemoryStore, rebuild_from_session,
}
use zk_llm_gateway.Client.MemoryStore.Tokens.{
  tokenize, split, onto, keep_words, is_stopword, tokenize_query,
}
use zk_llm_gateway.Client.MemoryStore.Query.{search, retrieve_context}
use zk_llm_gateway.Client.MemoryStore.Index.{IsIndex, session_docs, rebuild_from_session-IsIndex}
use zk_llm_gateway.Client.MemoryStore.Search.{AllFound, search-AllFound}
use zk_llm_gateway.Client.MemoryStore.Context.{AllFoundDocs, AllCut, retrieve_context-AllCut}

abbrev items : List MemoryItem
items =
    record { id = 0; created_at_ms = 1; text = codes "likes green tea"; tags = codes "food" ∷ [] }
    ∷ record { id = 1; created_at_ms = 2; text = codes "lives in oslo"; tags = [] }
    ∷ []

abbrev messages : List ChatMessage
messages =
    record { role = codes "user"; content = codes "the tea was cold"; extra = end }
    ∷ record { role = codes "user"; content = codes "more tea"; extra = end }
    ∷ []

abbrev store : MemoryStore ℕ
store = rebuild_from_session whole letters uuid items messages true 5

rebuild_from_session-IsIndex_example :
    IsIndex whole letters store
    × (store.docs ≡ session_docs whole letters uuid items messages true 5)
rebuild_from_session-IsIndex_example =
    rebuild_from_session-IsIndex whole letters uuid items messages true 5

store-IsIndex : IsIndex whole letters store
store-IsIndex = (rebuild_from_session-IsIndex whole letters uuid items messages true 5).0

the_tokens : tokenize letters (codes "the green, ok tea") ≡ codes "green" ∷ codes "tea" ∷ []
unfolding tokenize split onto keep_words trim trim_left trim_right is_whitespace is_stopword
    has_text bytes_eq text_len utf8_width
the_tokens = refl

search-AllFound_example :
    (rs : List (SearchResult ℕ)) × (search whole letters (codes "tea?") 1 none none store ≡ some rs)
    × (length rs ≤ 1)
    × AllFound whole letters store none none (tokenize_query letters (codes "tea?")) rs
search-AllFound_example =
    search-AllFound whole letters (codes "tea?") 1 none none store store-IsIndex

retrieve_context-AllCut_example :
    (ctx : RetrievedContext) × (retrieve_context whole letters
        (codes "green tea")
        2
        2
        (some 1)
        store
      ≡ some ctx)
    × (length ctx.memories ≤ 2)
    × (length ctx.recall ≤ 2)
    × AllFoundDocs letters store.docs
        (some memory)
        none
        (tokenize_query letters (codes "green tea"))
        ctx.memories
    × AllCut letters store.docs
        (some message)
        (some 1)
        (tokenize_query letters (codes "green tea"))
        ctx.recall
retrieve_context-AllCut_example =
    retrieve_context-AllCut whole letters (codes "green tea") 2 2 (some 1) store store-IsIndex
