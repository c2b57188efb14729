-- ===== src/Client/Prompt.antt =====
-- client/src/prompt.rs: fitting a prompt to the budget of its class. The loop of `enforce_budget`
-- runs on fuel here; `none` says that the fuel did not suffice.
pub mod Keeping
pub mod Budget
pub mod Cutting
pub mod Filler
pub mod Termination
pub mod Assembly
pub mod Structure
pub mod Delivery
mod Tests
use zk_llm_gateway.Prelude.{
  ℕ, zero, suc, ◌+◌, ◌-◌, Bool, true, false, ◌||◌, Option, none, some, List, [], ◌∷◌, ◌++◌, ltb,
  leb, if◌then◌else◌, length, take, drop,
}
use zk_llm_gateway.Prelude.Text.{Text, codes, bytes_eq, text_len}
use zk_llm_gateway.Token.{TokenClass, max_prompt_bytes}
use zk_llm_gateway.Types.{ChatMessage}

unfoldable pub is_user : ChatMessage → Bool
is_user m = bytes_eq m.role (codes "user")

unfoldable pub is_system : ChatMessage → Bool
is_system m = bytes_eq m.role (codes "system")

unfoldable pub message_bytes : ChatMessage → ℕ
message_bytes m = text_len m.role + text_len m.content

-- `approx_prompt_bytes`.
unfoldable pub prompt_bytes : List ChatMessage → ℕ
unfolding message_bytes
prompt_bytes [] = 0
prompt_bytes (m ∷ ms) = message_bytes m + prompt_bytes ms

unfoldable pub take_last : ℕ → List ChatMessage → List ChatMessage
take_last n v = if leb (length v) n then v else drop (length v - n) v

unfoldable pub suc_index : Option ℕ → Option ℕ
suc_index none = none
suc_index (some i) = some (suc i)

pred_index : Option ℕ → Option ℕ
pred_index none = none
pred_index (some zero) = none
pred_index (some (suc i)) = some i

is_here : Option ℕ → Bool
is_here none = false
is_here (some zero) = true
is_here (some (suc i)) = false

-- `iter().rposition(|m| m.role == "user")`.
unfoldable pub last_user : List ChatMessage → Option ℕ
unfolding is_user
last_user [] = none
last_user (m ∷ ms) = elim (last_user ms) [
  | some i ↦ some (suc i)
  | none ↦ if is_user m then some 0 else none
]

-- The search for the message to drop: the first one that is not at the head, not a system message
-- and not at `kept`, an index from the present place on.
unfoldable pub drop_index : Bool → Option ℕ → List ChatMessage → Option ℕ
unfolding is_system suc_index pred_index is_here
drop_index at_head kept [] = none
drop_index at_head kept (m ∷ ms) =
    let rest = suc_index (drop_index false (pred_index kept) ms) in
    if at_head || is_system m || is_here kept then rest else some 0

unfoldable pub remove_at : ℕ → List ChatMessage → List ChatMessage
remove_at i [] = []
remove_at zero (m ∷ ms) = ms
remove_at (suc i) (m ∷ ms) = m ∷ remove_at i ms

unfoldable pub update_at : ℕ → (ChatMessage → ChatMessage) → List ChatMessage → List ChatMessage
update_at i f [] = []
update_at zero f (m ∷ ms) = f m ∷ ms
update_at (suc i) f (m ∷ ms) = m ∷ update_at i f ms

-- The content cut by `over + 32` characters, with an ellipsis after it.
unfoldable pub cut : ℕ → ChatMessage → ChatMessage
cut over m = record m { content = take (length m.content - (over + 32)) m.content ++ 0x2026 ∷ [] }

-- `unwrap_or(messages.len().saturating_sub(1))`.
kept_index : List ChatMessage → Option ℕ → Option ℕ
kept_index ms none = some (length ms - 1)
kept_index ms (some i) = some i

cut_last_user : ℕ → List ChatMessage → Option ℕ → Option (List ChatMessage)
unfolding update_at cut
cut_last_user max ms none = none
cut_last_user max ms (some i) = some (update_at i (cut (prompt_bytes ms - max)) ms)

drop_or_cut : ℕ → List ChatMessage → Option ℕ → Option (List ChatMessage)
unfolding cut_last_user remove_at last_user
drop_or_cut max ms none = cut_last_user max ms (last_user ms)
drop_or_cut max ms (some i) = some (remove_at i ms)

-- The body of the loop; `none` leaves the loop.
unfoldable pub budget_step : ℕ → List ChatMessage → Option (List ChatMessage)
unfolding drop_or_cut kept_index drop_index
budget_step max ms =
    drop_or_cut max ms
      (if ltb 2 (length ms) then drop_index true (kept_index ms (last_user ms)) ms else none)

unfoldable pub enforce_budget_to : ℕ → ℕ → List ChatMessage → Option (List ChatMessage)
unfolding budget_step prompt_bytes
enforce_budget_to zero max ms = if ltb max (prompt_bytes ms) then none else some ms
enforce_budget_to (suc fuel) max ms =
    let rest : Option (List ChatMessage) = elim (budget_step max ms) [
      | none ↦ some ms
      | some ms' ↦ enforce_budget_to fuel max ms'
    ] in
    if ltb max (prompt_bytes ms) then rest else some ms

unfoldable pub enforce_budget : ℕ → TokenClass → List ChatMessage → Option (List ChatMessage)
unfolding enforce_budget_to
enforce_budget fuel token_class ms = enforce_budget_to fuel (max_prompt_bytes token_class) ms
