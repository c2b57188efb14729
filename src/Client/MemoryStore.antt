-- ===== src/Client/MemoryStore.antt =====
-- client/src/memory_store.rs: the local full-text index and its search. The arithmetic of `f32` is a
-- parameter. Counts are below 2 ^ 32, as in a text that fits in memory. A map is an association list in
-- its order of iteration, so results of one score come in that order.
pub mod Tokens
pub mod Query
pub mod Counts
pub mod Index
pub mod Search
pub mod Context
mod Tests
use zk_llm_gateway.Prelude.{
  ℕ, ◌+◌, ◌-◌, Bool, true, false, ◌&&◌, ◌||◌, not, map, Option, none, some, List, [], ◌∷◌, ◌++◌,
  ltb, leb, ◌==◌, if◌then◌else◌, length, take, drop, get_elem?, max,
}
use zk_llm_gateway.Prelude.Text.{Text, codes, bytes_eq}
use zk_llm_gateway.Prelude.Strings.{Dict, lookup, put, decimal}
use zk_llm_gateway.Json.{end}
use zk_llm_gateway.Types.{ChatMessage}
use zk_llm_gateway.Client.Session.{MemoryItem}
use zk_llm_gateway.Client.MemoryStore.Tokens.{Unicode, tokenize_for_index, tokenize_query}

-- The operations on `f32` and the constants that the code uses.
pub record Floats (F : Type 0) : Type 0 where
  pub of_nat : ℕ → F
  pub plus : F → F → F
  pub minus : F → F → F
  pub times : F → F → F
  pub over : F → F → F
  pub larger : F → F → F
  pub ln : F → F
  pub half : F
  pub k1 : F
  pub b : F
  -- The first is above the second.
  pub above : F → F → Bool

pub data DocKind : Type 0 where
  memory message : DocKind

unfoldable pub same_kind : DocKind → DocKind → Bool
same_kind memory memory = true
same_kind message message = true
same_kind _ _ = false

pub record Doc : Type 0 where
  pub kind : DocKind
  pub id : Text
  pub created_at_ms : ℕ
  pub role : Option Text
  pub msg_index : Option ℕ
  pub text : Text
  pub tags : List Text

pub record SearchResult (F : Type 0) : Type 0 where
  pub score : F
  pub doc : Doc

pub record RetrievedContext : Type 0 where
  pub memories : List Doc
  pub recall : List ChatMessage

-- A document's index and the term's count in it.
abbrev pub Postings : Type 0
Postings = List (ℕ × ℕ)

pub record MemoryStore (F : Type 0) : Type 0 where
  pub docs : List Doc
  pub inverted : Dict Postings
  pub doc_len : List ℕ
  pub avg_doc_len : F

pub one_more : Option ℕ → ℕ
one_more none = 1
one_more (some n) = n + 1

-- `*tf.entry(t).or_insert(0) += 1` for each token.
pub count_tokens : List Text → Dict ℕ → Dict ℕ
unfolding one_more
count_tokens [] tf = tf
count_tokens (t ∷ ts) tf = count_tokens ts (put t (one_more (lookup t tf)) tf)

pub sum_values : Dict ℕ → ℕ
sum_values [] = 0
sum_values ((k, n) ∷ d) = n + sum_values d

pub or_empty : Option Postings → Postings
or_empty none = []
or_empty (some ps) = ps

unfoldable pub postings_of : Text → Dict Postings → Postings
unfolding or_empty
postings_of term inverted = or_empty (lookup term inverted)

-- `self.inverted.entry(term).or_default().push((idx, freq))` for each term.
pub post_terms : ℕ → Dict ℕ → Dict Postings → Dict Postings
post_terms idx [] inverted = inverted
post_terms idx ((term, freq) ∷ tf) inverted =
    post_terms idx tf (put term (postings_of term inverted ++ (idx, freq) ∷ []) inverted)

unfoldable pub doc_of_memory : (ℕ → Text) → MemoryItem → Doc
doc_of_memory uuid_text item = record {
  kind = memory;
  id = uuid_text item.id;
  created_at_ms = item.created_at_ms;
  role = none;
  msg_index = none;
  text = item.text;
  tags = item.tags;
}

unfoldable pub doc_of_message : ℕ → ChatMessage → Doc
doc_of_message msg_index msg = record {
  kind = message;
  id = codes "msg:" ++ decimal msg_index;
  created_at_ms = 0;
  role = some msg.role;
  msg_index = some msg_index;
  text = msg.content;
  tags = [];
}

module _ {F : Type 0} (fl : Floats F) where
  unfoldable pub default : MemoryStore F
  default = record { docs = []; inverted = []; doc_len = []; avg_doc_len = fl.of_nat 0 }

  sum_from : F → List ℕ → F
  sum_from acc [] = acc
  sum_from acc (n ∷ ns) = sum_from (fl.plus acc (fl.of_nat n)) ns

  pub average : List ℕ → F
  unfolding sum_from
  average [] = fl.of_nat 0
  average (n ∷ ns) = fl.over (sum_from (fl.of_nat 0) (n ∷ ns)) (fl.of_nat (length (n ∷ ns)))

  pub recompute_avg_len : MemoryStore F → MemoryStore F
  unfolding average
  recompute_avg_len store = record store { avg_doc_len = average store.doc_len }

  unfoldable pub add_doc : Unicode → Doc → MemoryStore F → MemoryStore F
  unfolding count_tokens sum_values post_terms recompute_avg_len
  add_doc u doc store =
      let idx = length store.docs in
      let tf = count_tokens (tokenize_for_index u doc.text doc.tags) [] in
      recompute_avg_len (record {
        docs = store.docs ++ doc ∷ [];
        inverted = post_terms idx tf store.inverted;
        doc_len = store.doc_len ++ max (sum_values tf) 1 ∷ [];
        avg_doc_len = store.avg_doc_len;
      })

  unfoldable pub add_memory_item : Unicode → (ℕ → Text) → MemoryItem → MemoryStore F → MemoryStore F
  add_memory_item u uuid_text item store = add_doc u (doc_of_memory uuid_text item) store

  unfoldable pub add_message : Unicode → ℕ → ChatMessage → MemoryStore F → MemoryStore F
  add_message u msg_index msg store = add_doc u (doc_of_message msg_index msg) store

  add_items : Unicode → (ℕ → Text) → List MemoryItem → MemoryStore F → MemoryStore F
  add_items u uuid_text [] store = store
  add_items u uuid_text (m ∷ ms) store =
      add_items u uuid_text ms (add_memory_item u uuid_text m store)

  -- The messages from the given index on.
  add_messages : Unicode → ℕ → List ChatMessage → MemoryStore F → MemoryStore F
  add_messages u i [] store = store
  add_messages u i (m ∷ ms) store = add_messages u (i + 1) ms (add_message u i m store)

  unfoldable pub rebuild_from_session :
      Unicode → (ℕ → Text) → List MemoryItem → List ChatMessage → Bool → ℕ → MemoryStore F
  unfolding add_items add_messages recompute_avg_len
  rebuild_from_session u uuid_text items messages index_messages max_messages =
      let store = add_items u uuid_text items default in
      let start = length messages - max_messages in
      recompute_avg_len
        (if index_messages then add_messages u start (drop start messages) store else store)
