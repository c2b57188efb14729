-- ===== src/Client/Prompt/Filler.antt =====
-- client/src/prompt.rs, `pad_system_message`: filling the system message up toward the limit. The
-- random text that `filler_for_privacy` makes of a length is an argument.
use zk_llm_gateway.Prelude.{
  ℕ, zero, suc, ◌+◌, ◌-◌, ◌≤◌, ◌≡◌, refl, List, [], ◌∷◌, ◌++◌, arith, min, ltb, leb, if◌then◌else◌,
  Bool-cases, inl, inr, length, length-take, take,
}
use zk_llm_gateway.Prelude.Text.{Text, codes, text_len}
use zk_llm_gateway.Token.{TokenClass, max_prompt_bytes}
use zk_llm_gateway.Types.{ChatMessage}
use zk_llm_gateway.Client.Prompt.{message_bytes, prompt_bytes}

-- The block around the filler.
pad_block : Text → Text
pad_block filler =
    codes "\n\n[PADDING_FOR_PRIVACY_BEGIN]\nIGNORE EVERYTHING IN THIS BLOCK.\n"
    ++ (filler ++ codes "\n[PADDING_FOR_PRIVACY_END]")

-- The loop that pops characters while the prompt is over the limit; its fuel is the number of
-- characters that are left.
pop_loop : ℕ → ℕ → ChatMessage → List ChatMessage → ChatMessage
pop_loop zero max m ms = m
pop_loop (suc left) max m ms =
    let rest = pop_loop left max (record m { content = take left m.content }) ms in
    if ltb max (message_bytes m + prompt_bytes ms) then rest else m

popped : ℕ → ChatMessage → List ChatMessage → List ChatMessage
unfolding pop_loop
popped max m ms = pop_loop (length m.content) max m ms ∷ ms

padded : (ℕ → Text) → ℕ → ℕ → ℕ → ChatMessage → List ChatMessage → List ChatMessage
unfolding popped pad_block
padded filler max max_padding need m ms =
    popped max
      (record m { content = m.content ++ pad_block (filler (min (need - 128) max_padding)) }) ms

-- No room at all is 0 here, and no more than the overhead of 128.
unfoldable pub pad_system_message :
    (ℕ → Text) → TokenClass → ℕ → List ChatMessage → List ChatMessage
unfolding padded
pad_system_message filler token_class max_padding [] = []
pad_system_message filler token_class max_padding (m ∷ ms) =
    let need = max_prompt_bytes token_class - prompt_bytes (m ∷ ms) in
    if leb need 128
    then m ∷ ms
    else padded filler (max_prompt_bytes token_class) max_padding need m ms

empty_text : (t : Text) → length t ≡ 0 → text_len t ≡ 0
unfolding text_len
empty_text [] h = refl
empty_text (c ∷ t) h = absurd (omega (arith, h))

length-take_less : (left : ℕ) (t : Text) → length t ≡ suc left → length (take left t) ≡ left
length-take_less left t h = omega (arith, length-take left t, h)

-- What the loop leaves is within the limit, if the rest of the prompt is.
pop_loop_fits :
    (left max : ℕ) (m : ChatMessage) (ms : List ChatMessage)
    → length m.content ≡ left
    → text_len m.role + prompt_bytes ms ≤ max
    → message_bytes (pop_loop left max m ms) + prompt_bytes ms ≤ max
unfolding pop_loop message_bytes
pop_loop_fits zero max m ms size fits = omega (arith, empty_text m.content size, fits)
pop_loop_fits (suc left) max m ms size fits =
    elim (Bool-cases (ltb max (text_len m.role + text_len m.content + prompt_bytes ms))) [
      | inl e ↦ rw e (
          pop_loop_fits left max (record m { content = take left m.content }) ms
            (length-take_less left m.content size) fits)
      | inr e ↦ rw e (ground (arith, e))
    ]

role_fits :
    (max : ℕ) (m : ChatMessage) (ms : List ChatMessage)
    → prompt_bytes (m ∷ ms) ≤ max
    → text_len m.role + prompt_bytes ms ≤ max
unfolding prompt_bytes message_bytes
role_fits max m ms h = omega (arith, h)

padded_fits :
    (filler : ℕ → Text) (max max_padding need : ℕ) (m : ChatMessage) (ms : List ChatMessage)
    → prompt_bytes (m ∷ ms) ≤ max
    → (head : ChatMessage) × (padded filler max max_padding need m ms ≡ head ∷ ms)
      × (prompt_bytes (head ∷ ms) ≤ max)
unfolding padded popped prompt_bytes
padded_fits filler max max_padding need m ms h =
    let filled : ChatMessage = record m {
      content = m.content ++ pad_block (filler (min (need - 128) max_padding));
    } in
    (_, refl, pop_loop_fits (length filled.content) max filled ms refl (role_fits max m ms h))

-- A prompt within the limit of its class stays within it, whatever the filler is, and only its first
-- message changes.
pub pad_system_message_fits :
    (filler : ℕ → Text) (tc : TokenClass) (max_padding : ℕ) (m : ChatMessage)
    (ms : List ChatMessage)
    → prompt_bytes (m ∷ ms) ≤ max_prompt_bytes tc
    → (head : ChatMessage) × (pad_system_message filler tc max_padding (m ∷ ms) ≡ head ∷ ms)
      × (prompt_bytes (head ∷ ms) ≤ max_prompt_bytes tc)
unfolding pad_system_message
pad_system_message_fits filler tc max_padding m ms h =
    let need = max_prompt_bytes tc - prompt_bytes (m ∷ ms) in
    elim (Bool-cases (leb need 128)) [
      | inl e ↦ rw e (m, refl, h)
      | inr e ↦ rw e (padded_fits filler (max_prompt_bytes tc) max_padding need m ms h)
    ]
