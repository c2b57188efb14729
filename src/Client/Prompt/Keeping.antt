-- ===== src/Client/Prompt/Keeping.antt =====
-- What dropping a message keeps, and where the last user message is (client/src/prompt.rs).
use zk_llm_gateway.Prelude.{
  ℕ, suc, ◌+◌, ◌≤◌, ◌≡◌, refl, sym, subst, ◌∙◌, ◌⊎◌, inl, inr, Bool, true, false, ◌||◌, Option,
  none, some, List, [], ◌∷◌, arith, if◌then◌else◌, Bool-cases,
}
use zk_llm_gateway.Prelude.Text.{codes, bytes_eq, bytes_eq_iff}
use zk_llm_gateway.Types.{ChatMessage}
use zk_llm_gateway.Client.Prompt.{
  is_user, is_system, message_bytes, prompt_bytes, suc_index, pred_index, is_here, last_user,
  drop_index, remove_at,
}

-- The bytes of the system messages, which the loop never touches.
unfoldable pub system_bytes : List ChatMessage → ℕ
system_bytes [] = 0
system_bytes (m ∷ ms) =
    let rest = system_bytes ms in if is_system m then message_bytes m + rest else rest

abbrev pub HasUser : List ChatMessage → Type 0
HasUser [] = ⊥
HasUser (m ∷ ms) = (is_user m ≡ true) ⊎ HasUser ms

pub user_no_system : (m : ChatMessage) → is_user m ≡ true → is_system m ≡ false
unfolding is_user is_system bytes_eq
user_no_system m h = rw ((bytes_eq_iff m.role (codes "user")).0 h) refl

pub system_bytes-le : (ms : List ChatMessage) → system_bytes ms ≤ prompt_bytes ms
unfolding system_bytes prompt_bytes
system_bytes-le [] = omega arith
system_bytes-le (m ∷ ms) = ground (arith, system_bytes-le ms)

-- What a change of the list has to keep for the loop to go on for ever.
abbrev pub Keeps : List ChatMessage → List ChatMessage → Type 0
Keeps ms ns = (system_bytes ns ≡ system_bytes ms) × HasUser ns

abbrev pub KeepsAt : List ChatMessage → Option ℕ → Type 0
KeepsAt ms none = Unit
KeepsAt ms (some k) = Keeps ms (remove_at k ms)

pub system_bytes-cons :
    (m : ChatMessage) (ms ns : List ChatMessage)
    → system_bytes ns ≡ system_bytes ms
    → system_bytes (m ∷ ns) ≡ system_bytes (m ∷ ms)
unfolding system_bytes
system_bytes-cons m ms ns h = rw h refl

KeepsAt-suc :
    (m : ChatMessage) (ms : List ChatMessage) (o : Option ℕ)
    → KeepsAt ms o
    → KeepsAt (m ∷ ms) (suc_index o)
unfolding suc_index remove_at
KeepsAt-suc m ms none h = tt
KeepsAt-suc m ms (some k) (same, user) = (system_bytes-cons m ms (remove_at k ms) same, inr user)

-- Dropping keeps the system messages; `SameAt` is the first half of `KeepsAt`.
abbrev pub SameAt : List ChatMessage → Option ℕ → Type 0
SameAt ms none = Unit
SameAt ms (some k) = system_bytes (remove_at k ms) ≡ system_bytes ms

SameAt-suc :
    (m : ChatMessage) (ms : List ChatMessage) (o : Option ℕ)
    → SameAt ms o
    → SameAt (m ∷ ms) (suc_index o)
unfolding suc_index remove_at
SameAt-suc m ms none h = tt
SameAt-suc m ms (some k) same = system_bytes-cons m ms (remove_at k ms) same

pub drop_index-SameAt :
    (at_head : Bool) (kept : Option ℕ) (ms : List ChatMessage)
    → SameAt ms (drop_index at_head kept ms)
unfolding drop_index remove_at system_bytes
drop_index-SameAt at_head kept [] = tt
drop_index-SameAt at_head kept (m ∷ ms) =
    elim (Bool-cases (at_head || is_system m || is_here kept)) [
      | inl e ↦ rw e (SameAt-suc m ms _ (drop_index-SameAt false (pred_index kept) ms))
      | inr e ↦ rw e (ground arith)
    ]

KeepsAt-user :
    (m : ChatMessage) (ms : List ChatMessage) (o : Option ℕ)
    → is_user m ≡ true
    → SameAt ms o
    → KeepsAt (m ∷ ms) (suc_index o)
unfolding suc_index remove_at
KeepsAt-user m ms none user h = tt
KeepsAt-user m ms (some k) user same = (system_bytes-cons m ms (remove_at k ms) same, inl user)

-- What `last_user` finds in the tail decides what it finds in the list.
pub last_user-tail :
    (m : ChatMessage) (ms : List ChatMessage) (i : ℕ)
    → last_user ms ≡ some i
    → last_user (m ∷ ms) ≡ some (suc i)
unfolding last_user
last_user-tail m ms i h = rw h refl

pub last_user-head :
    (m : ChatMessage) (ms : List ChatMessage)
    → last_user ms ≡ none
    → last_user (m ∷ ms) ≡ (if is_user m then some 0 else none)
unfolding last_user
last_user-head m ms h = rw h refl

-- The place of the last user message, if there is one.
abbrev pub UserAt : List ChatMessage → Option ℕ → Type 0
UserAt ms none = ¬ HasUser ms
UserAt ms (some i) = HasUser ms

UserAt-cons :
    (m : ChatMessage) (ms : List ChatMessage) (o : Option ℕ)
    → last_user ms ≡ o
    → UserAt ms o
    → UserAt (m ∷ ms) (last_user (m ∷ ms))
UserAt-cons m ms (some i) e h = rw (last_user-tail m ms i e) (inr h)
UserAt-cons m ms none e h = elim (Bool-cases (is_user m)) [
  | inl u ↦ rw (last_user-head m ms e, u) (inl u)
  | inr u ↦
      rw (last_user-head m ms e, u) (λ x. elim x [ inl v ↦ absurd (cc (sym u ∙ v)) | inr v ↦ h v ])
]

pub last_user-nil : last_user [] ≡ none
unfolding last_user
last_user-nil = refl

pub last_user-UserAt : (ms : List ChatMessage) → UserAt ms (last_user ms)
last_user-UserAt [] = rw last_user-nil (λ x. x)
last_user-UserAt (m ∷ ms) = UserAt-cons m ms (last_user ms) refl (last_user-UserAt ms)

pub system_bytes-skip :
    (m : ChatMessage) (ms : List ChatMessage)
    → is_system m ≡ false
    → system_bytes ms ≡ system_bytes (m ∷ ms)
unfolding system_bytes
system_bytes-skip m ms h = rw h refl

or_false : (a b : Bool) → (a || b || false) ≡ false → b ≡ false
or_false a b h = ground arith

or_true : (a b : Bool) → (a || b || true) ≡ true
or_true a b = ground arith

-- One step of the search, whose kept message is the last user message.
drop_cons-KeepsAt :
    (at_head : Bool) (m : ChatMessage) (ms : List ChatMessage) (o : Option ℕ)
    → last_user ms ≡ o
    → UserAt ms o
    → HasUser (m ∷ ms)
    → (HasUser ms → KeepsAt ms (drop_index false (last_user ms) ms))
    → KeepsAt (m ∷ ms) (drop_index at_head (last_user (m ∷ ms)) (m ∷ ms))
unfolding drop_index remove_at
drop_cons-KeepsAt at_head m ms (some i) e here user later =
    rw (last_user-tail m ms i e) (elim (Bool-cases (at_head || is_system m || false)) [
      | inl t ↦ rw t (
          KeepsAt-suc m ms (drop_index false (some i) ms)
            (subst (λ o. KeepsAt ms (drop_index false o ms)) e (later here)))
      | inr t ↦ rw t (system_bytes-skip m ms (or_false at_head (is_system m) t), here)
    ])
drop_cons-KeepsAt at_head m ms none e here user later = elim user [
  | inr v ↦ absurd (here v)
  | inl v ↦
      rw (last_user-head m ms e, v, or_true at_head (is_system m))
        (KeepsAt-user m ms (drop_index false none ms) v (drop_index-SameAt false none ms))
]

pub drop_index-KeepsAt :
    (at_head : Bool) (ms : List ChatMessage)
    → HasUser ms
    → KeepsAt ms (drop_index at_head (last_user ms) ms)
drop_index-KeepsAt at_head [] h = absurd h
drop_index-KeepsAt at_head (m ∷ ms) h =
    drop_cons-KeepsAt at_head m ms (last_user ms) refl (last_user-UserAt ms) h
      (drop_index-KeepsAt false ms)
