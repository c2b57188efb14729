-- ===== src/Client/MemoryStore/Index.antt =====
-- The index of a store is what its documents say.
use zk_llm_gateway.Prelude.{
  ℕ, ◌+◌, ◌-◌, Bool, true, false, ◌≡◌, refl, ap, sym, ◌∙◌, Option, List, [], ◌∷◌, ◌++◌, map,
  append-nil, append_assoc, if◌then◌else◌, length, drop, max, arith,
}
use zk_llm_gateway.Prelude.Text.{Text}
use zk_llm_gateway.Prelude.Strings.{lookup}
use zk_llm_gateway.Types.{ChatMessage}
use zk_llm_gateway.Client.Session.{MemoryItem}
use zk_llm_gateway.Client.MemoryStore.{
  Floats, Doc, MemoryStore, postings_of, or_empty, count_tokens, sum_values, doc_of_memory,
  doc_of_message, default, average, recompute_avg_len, add_doc, add_memory_item, add_message,
  add_items, add_messages, rebuild_from_session,
}
use zk_llm_gateway.Client.MemoryStore.Tokens.{Unicode, tokenize_for_index}
use zk_llm_gateway.Client.MemoryStore.Counts.{
  count, postings, entry, added, lookup-count_tokens_new, count_tokens-AllApart,
  postings_of-post_terms, postings-append_last, sum_values-count_tokens,
}

-- A document's length: its number of tokens, at least one.
doc_length : Unicode → Doc → ℕ
doc_length u d = max (length (tokenize_for_index u d.text d.tags)) 1

pub doc_lengths : Unicode → List Doc → List ℕ
unfolding doc_length
doc_lengths u [] = []
doc_lengths u (d ∷ ds) = doc_length u d ∷ doc_lengths u ds

doc_lengths-append :
    (u : Unicode) (ds : List Doc) (d : Doc)
    → doc_lengths u (ds ++ d ∷ []) ≡ doc_lengths u ds ++ doc_length u d ∷ []
unfolding doc_lengths
doc_lengths-append u [] d = refl
doc_lengths-append u (x ∷ ds) d = ap (◌∷◌ (doc_length u x)) (doc_lengths-append u ds d)

-- The store against its documents: each term's postings, the lengths and their average.
pub record IsIndex {F : Type 0} (fl : Floats F) (u : Unicode) (store : MemoryStore F) : Type 0 where
  pub terms : (t : Text) → postings_of t store.inverted ≡ postings u t 0 store.docs
  pub lengths : store.doc_len ≡ doc_lengths u store.docs
  pub averaged : store.avg_doc_len ≡ average fl store.doc_len

-- The documents of messages that are numbered from the given index.
pub message_docs : ℕ → List ChatMessage → List Doc
message_docs i [] = []
message_docs i (m ∷ ms) = doc_of_message i m ∷ message_docs (i + 1) ms

module _ {F : Type 0} (fl : Floats F) (u : Unicode) where
  default-IsIndex : IsIndex fl u (default fl)
  unfolding default postings doc_lengths average postings_of lookup or_empty
  default-IsIndex = record { terms = λ t. refl; lengths = refl; averaged = refl }

  doc_length-sum_values :
      (d : Doc)
      → max (sum_values (count_tokens (tokenize_for_index u d.text d.tags) [])) 1 ≡ doc_length u d
  unfolding doc_length
  doc_length-sum_values d =
      ap (λ n. max n 1)
        (sum_values-count_tokens (tokenize_for_index u d.text d.tags) []
          ∙ unfold sum_values in omega arith)

  -- Adding a document keeps the index true to the documents.
  pub add_doc-IsIndex :
      (d : Doc) (store : MemoryStore F)
      → IsIndex fl u store
      → IsIndex fl u (add_doc fl u d store) × ((add_doc fl u d store).docs ≡ store.docs ++ d ∷ [])
  unfolding add_doc recompute_avg_len
  add_doc-IsIndex d store is =
      let tokens = tokenize_for_index u d.text d.tags in
      (
        record {
          terms = λ t.
              postings_of-post_terms t (length store.docs) (count_tokens tokens []) store.inverted
                (count_tokens-AllApart tokens [] tt)
              ∙ ap (λ (o : Option ℕ). postings_of t store.inverted ++ added (length store.docs) o)
                  (lookup-count_tokens_new t tokens)
              ∙ ap (λ p. p ++ added (length store.docs) (entry (count t tokens))) (is.terms t)
              ∙ sym (postings-append_last u t store.docs d);
          lengths =
              ap (λ n. store.doc_len ++ n ∷ []) (doc_length-sum_values d)
              ∙ ap (λ ns. ns ++ doc_length u d ∷ []) is.lengths
              ∙ sym (doc_lengths-append u store.docs d);
          averaged = refl;
        },
        refl,
      )

  add_items-IsIndex :
      (uuid_text : ℕ → Text) (items : List MemoryItem) (store : MemoryStore F)
      → IsIndex fl u store
      → IsIndex fl u (add_items fl u uuid_text items store)
        × ((add_items fl u uuid_text items store).docs
            ≡ store.docs ++ map (doc_of_memory uuid_text) items)
  unfolding add_items add_memory_item
  add_items-IsIndex uuid_text [] store is = (is, sym (append-nil _))
  add_items-IsIndex uuid_text (m ∷ ms) store is =
      let d = doc_of_memory uuid_text m in
      let (now, docs_now) = add_doc-IsIndex d store is in
      let (end, docs_end) = add_items-IsIndex uuid_text ms (add_doc fl u d store) now in
      (
        end,
        docs_end
            ∙ ap (λ (ds : List Doc). ds ++ map (doc_of_memory uuid_text) ms) docs_now
            ∙ append_assoc store.docs (d ∷ []) (map (doc_of_memory uuid_text) ms),
      )

  add_messages-IsIndex :
      (i : ℕ) (messages : List ChatMessage) (store : MemoryStore F)
      → IsIndex fl u store
      → IsIndex fl u (add_messages fl u i messages store)
        × ((add_messages fl u i messages store).docs ≡ store.docs ++ message_docs i messages)
  unfolding add_messages add_message message_docs
  add_messages-IsIndex i [] store is = (is, sym (append-nil _))
  add_messages-IsIndex i (m ∷ ms) store is =
      let d = doc_of_message i m in
      let (now, docs_now) = add_doc-IsIndex d store is in
      let (end, docs_end) = add_messages-IsIndex (i + 1) ms (add_doc fl u d store) now in
      (
        end,
        docs_end
            ∙ ap (λ (ds : List Doc). ds ++ message_docs (i + 1) ms) docs_now
            ∙ append_assoc store.docs (d ∷ []) (message_docs (i + 1) ms),
      )

  recompute_avg_len-IsIndex :
      (store : MemoryStore F) → IsIndex fl u store → IsIndex fl u (recompute_avg_len fl store)
  unfolding recompute_avg_len
  recompute_avg_len-IsIndex store is = record {
    terms = is.terms;
    lengths = is.lengths;
    averaged = refl;
  }

  -- The documents that a session is to be indexed by: its memory, and its last messages when asked for.
  pub session_docs : (ℕ → Text) → List MemoryItem → List ChatMessage → Bool → ℕ → List Doc
  session_docs uuid_text items messages index_messages max_messages =
      let start = length messages - max_messages in
      map (doc_of_memory uuid_text) items
      ++ (if index_messages then message_docs start (drop start messages) else [])

  -- An index that is rebuilt from a session is exactly the index of its documents: those are the memory
  -- items, then, when messages are indexed, the last messages up to the cap under their own numbers;
  -- each term has as postings the documents in which it occurs, in order, with its count; and the
  -- lengths and their average are those of the documents.
  pub rebuild_from_session-IsIndex :
      (uuid_text : ℕ → Text) (items : List MemoryItem) (messages : List ChatMessage)
      (index_messages : Bool) (max_messages : ℕ)
      → (let store =
            rebuild_from_session fl u uuid_text items messages index_messages max_messages in
          IsIndex fl u store
          × (store.docs ≡ session_docs uuid_text items messages index_messages max_messages))
  unfolding rebuild_from_session session_docs default
  rebuild_from_session-IsIndex uuid_text items messages index_messages max_messages =
      let start = length messages - max_messages in
      let (first, first_docs) = add_items-IsIndex uuid_text items (default fl) default-IsIndex in
      let (last, last_docs) = add_messages-IsIndex start (drop start messages) _ first in
      elim index_messages
        as (λ b.
          (let store = rebuild_from_session fl u uuid_text items messages b max_messages in
            IsIndex fl u store
            × (store.docs ≡ session_docs uuid_text items messages b max_messages))) [
              | false ↦ (
                recompute_avg_len-IsIndex _ first,
                unfold recompute_avg_len in first_docs ∙ sym (append-nil _),
              )
              | true ↦ (
                recompute_avg_len-IsIndex _ last,
                unfold recompute_avg_len in
                    last_docs
                    ∙ ap (λ (ds : List Doc). ds ++ message_docs start (drop start messages))
                        first_docs,
              )
            ]
