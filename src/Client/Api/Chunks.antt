-- ===== src/Client/Api/Chunks.antt =====
-- How a reply is cut for a stream.
use zk_llm_gateway.Prelude.{
  ℕ, ◌+◌, ◌≤◌, ◌<◌, ◌≡◌, refl, ap, ◌∙◌, inl, inr, List, [], ◌∷◌, ◌++◌, append_assoc, leb, length,
  length-append, arith, Bool-cases,
}
use zk_llm_gateway.Prelude.Text.{Text}
use zk_llm_gateway.Client.Api.{some_chunk, chunks, chunk_string}

abbrev pub joined : List Text → Text
joined [] = []
joined (b ∷ bs) = b ++ joined bs

-- Pieces of n characters, of which only the last one may have fewer, and none has none.
pub data IsCut (n : ℕ) : List Text → Type 0 where
  nothing : IsCut n []
  last : (b : Text) → 0 < length b → length b ≤ n → IsCut n (b ∷ [])
  next : (b : Text) (bs : List Text) → length b ≡ n → IsCut n bs → IsCut n (b ∷ bs)

chunks-joined : (n : ℕ) (buf s : Text) → joined (chunks n buf s) ≡ buf ++ s
unfolding chunks some_chunk
chunks-joined n [] [] = refl
chunks-joined n (b ∷ bs) [] = refl
chunks-joined n buf (c ∷ cs) =
    let buf' = buf ++ c ∷ [] in
    let whole : buf' ++ cs ≡ buf ++ c ∷ cs = append_assoc buf (c ∷ []) cs in
    elim (Bool-cases (leb n (length buf'))) [
      | inl full ↦ rw full (ap (λ t. buf' ++ t) (chunks-joined n [] cs) ∙ whole)
      | inr room ↦ rw room (chunks-joined n buf' cs ∙ whole)
    ]

chunks-IsCut : (n : ℕ) (buf s : Text) → length buf < n → IsCut n (chunks n buf s)
unfolding chunks some_chunk
chunks-IsCut n [] [] small = nothing
chunks-IsCut n (b ∷ bs) [] small = last (b ∷ bs) (omega arith) (omega arith)
chunks-IsCut n buf (c ∷ cs) small =
    let buf' = buf ++ c ∷ [] in
    let size : length buf' ≡ length buf + 1 = length-append buf (c ∷ []) in
    elim (Bool-cases (leb n (length buf'))) [
      | inl full ↦ rw full (next buf' _ (ground arith) (chunks-IsCut n [] cs (omega arith)))
      | inr room ↦ rw room (chunks-IsCut n buf' cs (ground arith))
    ]

pub chunk_string-joined : (s : Text) (n : ℕ) → joined (chunk_string s n) ≡ s
unfolding chunk_string
chunk_string-joined s n = chunks-joined n [] s

pub chunk_string-IsCut : (s : Text) (n : ℕ) → 0 < n → IsCut n (chunk_string s n)
unfolding chunk_string
chunk_string-IsCut s n h = chunks-IsCut n [] s h
