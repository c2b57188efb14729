-- ===== src/Client/Prompt/Cutting.antt =====
-- What dropping and cutting messages do to their size (client/src/prompt.rs).
use zk_llm_gateway.Prelude.{
  ℕ, zero, suc, ◌+◌, ◌-◌, ◌≤◌, ◌<◌, ◌≡◌, refl, sym, ap, subst, ◌∙◌, ◌⊎◌, inl, inr, Bool, true,
  false, ◌||◌, Option, none, some, List, [], ◌∷◌, ◌++◌, arith, leb, if◌then◌else◌, Bool-cases,
  length, take,
}
use zk_llm_gateway.Prelude.Text.{Text, codes, bytes_eq_iff, utf8_width, text_len}
use zk_llm_gateway.Types.{ChatMessage}
use zk_llm_gateway.Client.Prompt.{
  is_user, is_system, message_bytes, prompt_bytes, suc_index, pred_index, is_here, last_user,
  drop_index, update_at, cut,
}
use zk_llm_gateway.Client.Prompt.Keeping.{
  system_bytes, last_user-tail, last_user-head, user_no_system, system_bytes-skip, last_user-nil,
}

utf8_width-pos : (c : ℕ) → 0 < utf8_width c
unfolding utf8_width
utf8_width-pos c = ground arith

text_len-append_ellipsis : (t : Text) → text_len (t ++ 0x2026 ∷ []) ≡ text_len t + 3
unfolding text_len utf8_width
text_len-append_ellipsis [] = refl
text_len-append_ellipsis (c ∷ t) = omega (arith, text_len-append_ellipsis t)

-- Every character that is cut off is at least a byte.
text_len-take : (n : ℕ) (t : Text) → text_len (take n t) + (length t - n) ≤ text_len t
unfolding text_len
text_len-take zero [] = omega arith
text_len-take zero (c ∷ t) = omega (arith, text_len-take zero t, utf8_width-pos c)
text_len-take (suc n) [] = omega arith
text_len-take (suc n) (c ∷ t) = omega (arith, text_len-take n t)

text_len-take_none : (n : ℕ) (t : Text) → n ≡ 0 → text_len (take n t) ≡ 0
unfolding text_len
text_len-take_none n t h = rw h refl

-- The content after a cut: only the ellipsis, or shorter by the cut but for the ellipsis.
cut-bytes :
    (over : ℕ) (m : ChatMessage)
    → (text_len (cut over m).content ≡ 3)
      ⊎ (text_len (cut over m).content + over + 29 ≤ text_len m.content)
unfolding cut
cut-bytes over m = elim (Bool-cases (leb (length m.content) (over + 32))) [
  | inl e ↦ inl (
      text_len-append_ellipsis (take (length m.content - (over + 32)) m.content)
      ∙ ap (λ n. n + 3)
          (text_len-take_none (length m.content - (over + 32)) m.content (ground (arith, e))))
  | inr e ↦
      let short = text_len-take (length m.content - (over + 32)) m.content in
      inr (
        rw (text_len-append_ellipsis (take (length m.content - (over + 32)) m.content))
          (ground (arith, e, short)))
]

if_none :
    (t : Bool) (x : Option ℕ) → (if t then suc_index x else some 0) ≡ none → (t ≡ true) × (x ≡ none)
unfolding suc_index
if_none true none h = (refl, refl)
if_none true (some i) h = absurd (cc h)
if_none false x h = absurd (cc h)

pub system_bytes-system :
    (m : ChatMessage) (ms : List ChatMessage)
    → is_system m ≡ true
    → system_bytes (m ∷ ms) ≡ message_bytes m + system_bytes ms
unfolding system_bytes
system_bytes-system m ms h = rw h refl

only_system : (b : Bool) → (false || b || false) ≡ true → b ≡ true
only_system b h = ground arith

-- With nothing to drop and nothing kept, all messages are system messages.
none_kept :
    (ms : List ChatMessage) → drop_index false none ms ≡ none → prompt_bytes ms ≡ system_bytes ms
unfolding drop_index prompt_bytes system_bytes
none_kept [] h = refl
none_kept (m ∷ ms) h =
    let (t, rest) = if_none _ (drop_index false none ms) h in
    rw (only_system (is_system m) t) (ap (λ n. message_bytes m + n) (none_kept ms rest))

-- The user message at an index is the only message that is no system message.
abbrev Lone : ℕ → List ChatMessage → ℕ → Type 0
Lone over ms i =
    (u : ChatMessage) × (is_user u ≡ true)
    × (prompt_bytes ms ≡ system_bytes ms + message_bytes u)
    × (prompt_bytes (update_at i (cut over) ms) ≡ system_bytes ms + message_bytes (cut over u))

Lone-suc :
    (over : ℕ) (m : ChatMessage) (ms : List ChatMessage) (i : ℕ)
    → is_system m ≡ true
    → Lone over ms i
    → Lone over (m ∷ ms) (suc i)
unfolding update_at prompt_bytes
Lone-suc over m ms i h (u, user, before, after) = (
  u,
  user,
  rw (system_bytes-system m ms h) (omega (arith, before)),
  rw (system_bytes-system m ms h) (omega (arith, after)),
)

Lone-zero :
    (over : ℕ) (m : ChatMessage) (ms : List ChatMessage)
    → is_user m ≡ true
    → prompt_bytes ms ≡ system_bytes ms
    → Lone over (m ∷ ms) 0
unfolding update_at prompt_bytes
Lone-zero over m ms user same =
    let skip = system_bytes-skip m ms (user_no_system m user) in
    (m, user, omega (arith, same, skip), omega (arith, same, skip))

pub some_index : {i j : ℕ} → some i ≡ some j → i ≡ j
some_index h = cc h

Lone-cons :
    (over : ℕ) (m : ChatMessage) (ms : List ChatMessage) (o : Option ℕ) (i : ℕ)
    → last_user ms ≡ o
    → last_user (m ∷ ms) ≡ some i
    → drop_index false (some i) (m ∷ ms) ≡ none
    → ((j : ℕ) → last_user ms ≡ some j → drop_index false (some j) ms ≡ none → Lone over ms j)
    → Lone over (m ∷ ms) i
unfolding drop_index pred_index is_here
Lone-cons over m ms (some j) i e s h later =
    subst (λ n. drop_index false (some n) (m ∷ ms) ≡ none → Lone over (m ∷ ms) n)
      (some_index (sym (last_user-tail m ms j e) ∙ s))
      (λ free.
        let (t, rest) = if_none _ (drop_index false (some j) ms) free in
        Lone-suc over m ms j (only_system (is_system m) t) (later j e rest))
      h
Lone-cons over m ms none i e s h later = elim (Bool-cases (is_user m)) [
  | inl u ↦
      subst (λ n. drop_index false (some n) (m ∷ ms) ≡ none → Lone over (m ∷ ms) n)
        (some_index (sym (rw (last_user-head m ms e, u) refl) ∙ s))
        (λ free.
          let (t, rest) = if_none _ (drop_index false none ms) free in
          Lone-zero over m ms u (none_kept ms rest))
        h
  | inr u ↦ absurd (cc (rw (last_user-head m ms e, u) at s))
]

pub lone :
    (over : ℕ) (ms : List ChatMessage) (i : ℕ)
    → last_user ms ≡ some i
    → drop_index false (some i) ms ≡ none
    → Lone over ms i
lone over [] i e h = absurd (cc (sym last_user-nil ∙ e))
lone over (m ∷ ms) i e h = Lone-cons over m ms (last_user ms) i refl e h (lone over ms)

user_role : (u : ChatMessage) → is_user u ≡ true → text_len u.role ≡ 4
unfolding is_user text_len utf8_width
user_role u h = rw ((bytes_eq_iff u.role (codes "user")).0 h) refl

cut_role : (over : ℕ) (u : ChatMessage) → text_len (cut over u).role ≡ text_len u.role
unfolding cut
cut_role over u = refl

-- A cut that leaves nothing over the limit.
pub cut_fits :
    (max over sys : ℕ) (u : ChatMessage)
    → is_user u ≡ true
    → sys + 7 ≤ max
    → over ≡ sys + message_bytes u - max
    → max < sys + message_bytes u
    → sys + message_bytes (cut over u) ≤ max
unfolding message_bytes
cut_fits max over sys u user room e large =
    let role : text_len u.role ≡ 4 = user_role u user in
    let role' : text_len (cut over u).role ≡ 4 = cut_role over u ∙ role in
    elim (cut-bytes over u) [
      | inl h ↦ omega (arith, role', h)
      | inr h ↦ omega (arith, role, role', h)
    ]
