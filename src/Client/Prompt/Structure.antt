-- ===== src/Client/Prompt/Structure.antt =====
-- The structure of the context block of a prompt: how many lines it has.
use zk_llm_gateway.Prelude.{
  ℕ, zero, suc, ◌+◌, ◌-◌, ◌/◌, ◌%◌, ◌≡◌, refl, ◌∙◌, inl, inr, true, false, List, [], ◌∷◌, ◌++◌,
  arith, ltb, ◌==◌, if◌then◌else◌, Bool-cases, length, length-take, take,
}
use zk_llm_gateway.Prelude.Text.{Text, codes}
use zk_llm_gateway.Prelude.Strings.{trim, is_blank, decimal, digits}
use zk_llm_gateway.Types.{ChatMessage}
use zk_llm_gateway.Client.MemoryStore.{Doc, RetrievedContext}
use zk_llm_gateway.Client.Prompt.Assembly.{
  PromptBuildConfig, summary_block, join, tags_part, memory_line, recall_line, numbered,
  empty_lines, listing, memory_block, recall_block, memory_text,
}

-- Line ends.
unfoldable pub lines : Text → ℕ
lines [] = 0
lines (c ∷ cs) = (if c == 10 then 1 else 0) + lines cs

lines-append : (s t : Text) → lines (s ++ t) ≡ lines s + lines t
unfolding lines
lines-append [] t = omega arith
lines-append (c ∷ s) t = omega (arith, lines-append s t)

lines-take : (n : ℕ) (s : Text) → lines s ≡ 0 → lines (take n s) ≡ 0
unfolding lines
lines-take zero s h = refl
lines-take (suc n) [] h = refl
lines-take (suc n) (c ∷ s) h =
    let first : ◌≡◌ {A = ℕ} (if c == 10 then 1 else 0) 0 = omega (arith, h) in
    omega (arith, first, lines-take n s (omega (arith, h)))

digit_line : (n : ℕ) (s : Text) → lines ((48 + n % 10) ∷ s) ≡ lines s
unfolding lines
digit_line n s = let e : ((48 + n % 10) == 10) ≡ false = ground arith in rw e (omega arith)

lines-digits : (fuel n : ℕ) (rest : Text) → lines (digits fuel n rest) ≡ lines rest
unfolding digits
lines-digits zero n rest = refl
lines-digits (suc fuel) n rest = elim (Bool-cases (ltb n 10)) [
  | inl e ↦ rw e (digit_line n rest)
  | inr e ↦ rw e (lines-digits fuel (n / 10) ((48 + n % 10) ∷ rest) ∙ digit_line n rest)
]

lines-decimal : (n : ℕ) → lines (decimal n) ≡ 0
unfolding decimal lines
lines-decimal n = lines-digits 20 n []

-- Texts of one line.
abbrev pub AllLines : List Text → Type 0
AllLines [] = Unit {0}
AllLines (t ∷ ts) = (lines t ≡ 0) × AllLines ts

lines-join : (ts : List Text) → AllLines ts → lines (join ts) ≡ 0
unfolding join lines
lines-join [] all = refl
lines-join (t ∷ []) (h, all) = h
lines-join (t ∷ u ∷ us) (h, all) =
    lines-append t (44 ∷ join (u ∷ us)) ∙ omega (arith, h, lines-join (u ∷ us) all)

-- What is retrieved has no line end of its own.
abbrev pub FlatDocs : List Doc → Type 0
FlatDocs [] = Unit {0}
FlatDocs (d ∷ ds) = (lines d.text ≡ 0) × AllLines d.tags × FlatDocs ds

abbrev pub FlatMessages : List ChatMessage → Type 0
FlatMessages [] = Unit {0}
FlatMessages (m ∷ ms) = (lines m.role ≡ 0) × (lines m.content ≡ 0) × FlatMessages ms

lines-tags_part : (ts : List Text) → AllLines ts → lines (tags_part ts) ≡ 0
unfolding lines tags_part
lines-tags_part [] all = refl
lines-tags_part (t ∷ ts) all =
    omega (arith, lines-append (join (t ∷ ts)) (93 ∷ []), lines-join (t ∷ ts) all)

lines-memory_line :
    (n : ℕ) (d : Doc) → lines d.text ≡ 0 → AllLines d.tags → lines (memory_line n d) ≡ 1
unfolding memory_line lines
lines-memory_line n d h all =
    let body = take 400 d.text ++ 10 ∷ [] in
    omega (
      arith,
      lines-append (decimal n) (tags_part d.tags ++ (58 ∷ 32 ∷ body)),
      lines-decimal n,
      lines-append (tags_part d.tags) (58 ∷ 32 ∷ body),
      lines-tags_part d.tags all,
      lines-append (take 400 d.text) (10 ∷ []),
      lines-take 400 d.text h,
    )

lines-recall_line :
    (n : ℕ) (m : ChatMessage) → lines m.role ≡ 0 → lines m.content ≡ 0 → lines (recall_line n m) ≡ 1
unfolding recall_line lines
lines-recall_line n m r h =
    let body = take 300 m.content ++ 10 ∷ [] in
    omega (
      arith,
      lines-append (decimal n) (32 ∷ (m.role ++ (58 ∷ 32 ∷ body))),
      lines-decimal n,
      lines-append m.role (58 ∷ 32 ∷ body),
      r,
      lines-append (take 300 m.content) (10 ∷ []),
      lines-take 300 m.content h,
    )

lines-empty_lines : (mark : Text) (k n : ℕ) → lines mark ≡ 0 → lines (empty_lines mark k n) ≡ n
unfolding empty_lines lines
lines-empty_lines mark k zero h = refl
lines-empty_lines mark k (suc n) h =
    let tail = codes ": <EMPTY>" ++ 10 ∷ [] in
    omega (
      arith,
      lines-append (mark ++ (decimal k ++ tail)) (empty_lines mark (k + 1) n),
      lines-append mark (decimal k ++ tail),
      h,
      lines-append (decimal k) tail,
      lines-decimal k,
      lines-empty_lines mark (k + 1) n h,
    )

lines-numbered_docs :
    (most k : ℕ) (ds : List Doc)
    → FlatDocs ds
    → lines (numbered memory_line k (take most ds)) ≡ length (take most ds)
unfolding numbered lines
lines-numbered_docs zero k ds flat = refl
lines-numbered_docs (suc most) k [] flat = refl
lines-numbered_docs (suc most) k (d ∷ ds) (h, tags, flat) = omega (
  arith,
  lines-append (memory_line k d) (numbered memory_line (k + 1) (take most ds)),
  lines-memory_line k d h tags,
  lines-numbered_docs most (k + 1) ds flat,
)

lines-numbered_messages :
    (most k : ℕ) (ms : List ChatMessage)
    → FlatMessages ms
    → lines (numbered recall_line k (take most ms)) ≡ length (take most ms)
unfolding numbered lines
lines-numbered_messages zero k ms flat = refl
lines-numbered_messages (suc most) k [] flat = refl
lines-numbered_messages (suc most) k (m ∷ ms) (r, h, flat) = omega (
  arith,
  lines-append (recall_line k m) (numbered recall_line (k + 1) (take most ms)),
  lines-recall_line k m r h,
  lines-numbered_messages most (k + 1) ms flat,
)

-- A normalized listing has its fixed number of lines.
lines-listing :
    {A : Type 0} (line : ℕ → A → Text) (mark : Text) (most : ℕ) (xs : List A)
    → lines mark ≡ 0
    → lines (numbered line 1 (take most xs)) ≡ length (take most xs)
    → lines (listing line mark true most xs) ≡ most
unfolding listing
lines-listing line mark most xs h shown =
    let left = most - length (take most xs) in
    omega (
      arith,
      lines-append (numbered line 1 (take most xs))
          (empty_lines mark (length (take most xs) + 1) left),
      shown,
      lines-empty_lines mark (length (take most xs) + 1) left h,
      length-take most xs,
    )

lines-memory_block :
    (cfg : PromptBuildConfig) (ds : List Doc)
    → cfg.normalize_context_blocks ≡ true
    → FlatDocs ds
    → lines (memory_block cfg ds) ≡ 2 + cfg.max_memory_items
unfolding memory_block lines
lines-memory_block cfg ds e flat =
    let block = listing memory_line (codes "- M") true cfg.max_memory_items ds in
    rw e (
      omega (
        arith,
        lines-append block (10 ∷ []),
        lines-listing memory_line (codes "- M") cfg.max_memory_items ds refl
            (lines-numbered_docs cfg.max_memory_items 1 ds flat),
      ))

lines-recall_block :
    (cfg : PromptBuildConfig) (ms : List ChatMessage)
    → cfg.normalize_context_blocks ≡ true
    → FlatMessages ms
    → lines (recall_block cfg ms)
      ≡ (if ltb 0 cfg.max_recall_snippets then 2 + cfg.max_recall_snippets else 0)
unfolding recall_block lines
lines-recall_block cfg ms e flat =
    let block = listing recall_line (codes "- R") true cfg.max_recall_snippets ms in
    elim (Bool-cases (ltb 0 cfg.max_recall_snippets)) [
      | inl some_room ↦
          rw (some_room, e)
            (omega (
              arith,
              lines-append block (10 ∷ []),
              lines-listing recall_line (codes "- R") cfg.max_recall_snippets ms refl
                  (lines-numbered_messages cfg.max_recall_snippets 1 ms flat),
            ))
      | inr no_room ↦ rw no_room refl
    ]

lines-summary_block :
    (cfg : PromptBuildConfig) (summary : Text)
    → cfg.normalize_context_blocks ≡ true
    → lines (trim summary) ≡ 0
    → lines (summary_block cfg summary) ≡ 3
unfolding summary_block lines
lines-summary_block cfg summary e h = elim (Bool-cases cfg.include_summary) [
  | inl asked ↦ elim (Bool-cases (is_blank summary)) [
    | inl blank ↦ rw (asked, blank) (omega arith)
    | inr shown ↦ rw (asked, shown) (omega (arith, lines-append (trim summary) (10 ∷ 10 ∷ []), h))
  ]
  | inr quiet ↦ rw (quiet, e) (omega arith)
]

-- With normalized blocks, the context of the prompt has a number of lines that the configuration
-- alone fixes: it does not depend on how many memories and snippets were retrieved, nor on whether
-- there is a summary, as long as each of them is one line.
pub lines-memory_text :
    (cfg : PromptBuildConfig) (summary : Text) (retrieved : RetrievedContext)
    → cfg.normalize_context_blocks ≡ true
    → lines (trim summary) ≡ 0
    → FlatDocs retrieved.memories
    → FlatMessages retrieved.recall
    → lines (memory_text cfg summary retrieved)
      ≡ 5
        + cfg.max_memory_items
        + (if ltb 0 cfg.max_recall_snippets then 2 + cfg.max_recall_snippets else 0)
unfolding memory_text
lines-memory_text cfg summary retrieved e h docs recall = omega (
  arith,
  lines-append (summary_block cfg summary)
      (memory_block cfg retrieved.memories ++ recall_block cfg retrieved.recall),
  lines-append (memory_block cfg retrieved.memories) (recall_block cfg retrieved.recall),
  lines-summary_block cfg summary e h,
  lines-memory_block cfg retrieved.memories e docs,
  lines-recall_block cfg retrieved.recall e recall,
)
