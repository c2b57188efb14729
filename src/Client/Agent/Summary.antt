-- ===== src/Client/Agent/Summary.antt =====
-- The rolling summary when there is no local model: how much of it is kept.
use zk_llm_gateway.Prelude.{
  ℕ, zero, suc, ◌+◌, ◌-◌, ◌≤◌, ◌≡◌, refl, inl, inr, true, List, [], ◌∷◌, ◌++◌, arith, ltb,
  Bool-cases, length, drop,
}
use zk_llm_gateway.Prelude.Text.{Text, text_len, utf8_width}
use zk_llm_gateway.Types.{ChatMessage}
use zk_llm_gateway.Client.Agent.{keep_end, naive_summary, turn_lines}

utf8_width-positive : (c : ℕ) → 1 ≤ utf8_width c
unfolding utf8_width
utf8_width-positive c = ground arith

length-text_len : (s : Text) → length s ≤ text_len s
unfolding text_len
length-text_len [] = omega arith
length-text_len (c ∷ s) = omega (arith, length-text_len s, utf8_width-positive c)

length-drop : (n : ℕ) (s : Text) → length (drop n s) ≡ length s - n
length-drop zero s = omega arith
length-drop (suc n) [] = omega arith
length-drop (suc n) (c ∷ s) = omega (arith, length-drop n s)

drop_all : (n : ℕ) (s : Text) → length s ≤ n → drop n s ≡ []
drop_all zero [] h = refl
drop_all zero (c ∷ s) h = absurd (omega arith)
drop_all (suc n) [] h = refl
drop_all (suc n) (c ∷ s) h = drop_all n s (omega arith)

-- The summary that is kept has at most 4000 characters, whatever is appended to whatever summary.
pub naive_summary-bound :
    (summary : Text) (turn : List ChatMessage) → length (naive_summary summary turn) ≤ 4000
unfolding naive_summary keep_end
naive_summary-bound summary turn =
    let s = summary ++ turn_lines turn in
    elim (Bool-cases (ltb 4000 (text_len s))) [
      | inl e ↦ rw e (omega (arith, length-drop (text_len s - 4000) s, length-text_len s))
      | inr e ↦ rw e (ground (arith, length-text_len s))
    ]

-- When the text has 4000 bytes more than characters, as 2000 characters of three bytes have, the whole
-- summary is lost, the turn just added too: the bytes over the limit are counted, and as many
-- characters are skipped.
pub naive_summary_lost :
    (summary : Text) (turn : List ChatMessage)
    → length (summary ++ turn_lines turn) + 4000 ≤ text_len (summary ++ turn_lines turn)
    → 1 ≤ length (summary ++ turn_lines turn)
    → naive_summary summary turn ≡ []
unfolding naive_summary keep_end
naive_summary_lost summary turn wide some_text =
    let s = summary ++ turn_lines turn in
    let e : ltb 4000 (text_len s) ≡ true = ground arith in
    rw e (drop_all (text_len s - 4000) s (omega arith))
