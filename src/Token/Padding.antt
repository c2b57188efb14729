-- ===== src/Token/Padding.antt =====
-- Padding and trimming, common/src/token.rs: `trim_zero_padding` undoes `pad_to_len`.
use zk_llm_gateway.Prelude.{
  ℕ, zero, suc, ◌-◌, ◌≤◌, ◌<◌, ◌≡◌, ◌≢◌, refl, sym, ap, ◌∙◌, ◌⊎◌, inl, inr, List, [], ◌∷◌, ◌++◌,
  append-nil, append_assoc, arith, ◌==◌, ==_iff, if◌then◌else◌, length, replicate, length-append,
  length-replicate, take_self, take-append, get_elem?-append, get_elem?-append_last,
  replicate-append_one, Bool-cases,
}
use zk_llm_gateway.Prelude.Text.{Bytes}
use zk_llm_gateway.Prelude.Result.{ok, err, ok-injective}
use zk_llm_gateway.Token.{too_large, pad_to_len, trim_end, trim_zero_padding}

trim_end-le : (buf : Bytes) (e : ℕ) → trim_end buf e ≤ e
unfolding trim_end
trim_end-le buf zero = omega arith
trim_end-le buf (suc e) = ground (arith, trim_end-le buf e)

-- The loop reads only below its start.
trim_end-append : (e : ℕ) (xs ys : Bytes) → e ≤ length xs → trim_end (xs ++ ys) e ≡ trim_end xs e
unfolding trim_end
trim_end-append zero xs ys h = refl
trim_end-append (suc e) xs ys h =
    ground (arith, get_elem?-append e xs ys (omega arith), trim_end-append e xs ys (omega arith))

length-append_one : (xs : Bytes) (b : ℕ) → length (xs ++ b ∷ []) ≡ suc (length xs)
length-append_one xs b = omega (arith, length-append xs (b ∷ []))

-- One step of the loop at the last byte.
trim_end-append_one :
    (xs : Bytes) (b : ℕ)
    → trim_end (xs ++ b ∷ []) (suc (length xs))
      ≡ (if b == 0 then trim_end xs (length xs) else suc (length xs))
unfolding trim_end
trim_end-append_one xs b =
    ground
      (arith, get_elem?-append_last xs b, trim_end-append (length xs) xs (b ∷ []) (omega arith))

trim-append_zero : (xs : Bytes) → trim_zero_padding (xs ++ 0 ∷ []) ≡ trim_zero_padding xs
unfolding trim_zero_padding
trim-append_zero xs =
    rw (length-append_one xs 0, trim_end-append_one xs 0)
      (take-append (trim_end xs (length xs)) xs (0 ∷ []) (trim_end-le xs (length xs)))

trim-append_byte : (xs : Bytes) (b : ℕ) → b ≢ 0 → trim_zero_padding (xs ++ b ∷ []) ≡ xs ++ b ∷ []
unfolding trim_zero_padding
trim-append_byte xs b h = elim (Bool-cases (b == 0)) [
  | inl e ↦ absurd (h ((==_iff b 0).0 e))
  | inr e ↦
      rw (length-append_one xs b, trim_end-append_one xs b, e, ← length-append_one xs b)
        (take_self (xs ++ b ∷ []))
]

-- Any number of zeros behind a payload is invisible after trimming.
pub trim-append_zeros :
    (n : ℕ) (xs : Bytes) → trim_zero_padding (xs ++ replicate n 0) ≡ trim_zero_padding xs
trim-append_zeros zero xs = rw append-nil
trim-append_zeros (suc n) xs =
    rw (← replicate-append_one {A = ℕ} n 0, ← append_assoc)
      (trim-append_zero (xs ++ replicate n 0) ∙ trim-append_zeros n xs)

-- A list read from its end.
data Ends {ℓ} {A : Type ℓ} : List A → Type ℓ where
  empty : Ends []
  last : {xs : List A} → Ends xs → (x : A) → Ends (xs ++ x ∷ [])

Ends-cons {ℓ} : {A : Type ℓ} (x : A) {xs : List A} → Ends xs → Ends (x ∷ xs)
Ends-cons x empty = last empty x
Ends-cons x (last e y) = last (Ends-cons x e) y

Ends-all {ℓ} : {A : Type ℓ} (xs : List A) → Ends xs
Ends-all [] = empty
Ends-all (x ∷ xs) = Ends-cons x (Ends-all xs)

-- The last byte, if there is one, is not zero.
abbrev pub NoTrailingZero : Bytes → Type 0
NoTrailingZero [] = Unit
NoTrailingZero (b ∷ []) = b ≢ 0
NoTrailingZero (b ∷ c ∷ rest) = NoTrailingZero (c ∷ rest)

NoTrailingZero-last : (xs : Bytes) (b : ℕ) → NoTrailingZero (xs ++ b ∷ []) → b ≢ 0
NoTrailingZero-last [] b h = h
NoTrailingZero-last (x ∷ []) b h = h
NoTrailingZero-last (x ∷ y ∷ xs) b h = NoTrailingZero-last (y ∷ xs) b h

NoTrailingZero-append_one : (xs : Bytes) (b : ℕ) → b ≢ 0 → NoTrailingZero (xs ++ b ∷ [])
NoTrailingZero-append_one [] b h = h
NoTrailingZero-append_one (x ∷ []) b h = h
NoTrailingZero-append_one (x ∷ y ∷ xs) b h = NoTrailingZero-append_one (y ∷ xs) b h

trim_self_Ends : {buf : Bytes} → Ends buf → NoTrailingZero buf → trim_zero_padding buf ≡ buf
unfolding trim_zero_padding trim_end
trim_self_Ends empty h = refl
trim_self_Ends (last {xs} e b) h = trim-append_byte xs b (NoTrailingZero-last xs b h)

pub trim_self : (buf : Bytes) → NoTrailingZero buf → trim_zero_padding buf ≡ buf
trim_self buf h = trim_self_Ends (Ends-all buf) h

abbrev Trimmed : Bytes → Type 0
Trimmed buf =
    (k : ℕ) × (buf ≡ trim_zero_padding buf ++ replicate k 0)
    × NoTrailingZero (trim_zero_padding buf)

Trimmed-append_zero : (xs : Bytes) → Trimmed xs → Trimmed (xs ++ 0 ∷ [])
Trimmed-append_zero xs (k, e, h) = rw (trim-append_zero xs) (
  suc k,
  ap (λ ys. ys ++ 0 ∷ []) e
      ∙ append_assoc (trim_zero_padding xs) (replicate k 0) (0 ∷ [])
      ∙ ap (◌++◌ (trim_zero_padding xs)) (replicate-append_one {A = ℕ} k 0),
  h,
)

Trimmed-append_byte : (xs : Bytes) (b : ℕ) → b ≢ 0 → Trimmed (xs ++ b ∷ [])
Trimmed-append_byte xs b h =
    rw (trim-append_byte xs b h)
      (0, sym (append-nil (xs ++ b ∷ [])), NoTrailingZero-append_one xs b h)

Trimmed-Ends : {buf : Bytes} → Ends buf → Trimmed buf
Trimmed-Ends empty = unfold trim_zero_padding trim_end in (0, refl, tt)
Trimmed-Ends (last {xs} e b) = elim (Bool-cases (b == 0)) [
  | inl z ↦ rw ((==_iff b 0).0 z) (Trimmed-append_zero xs (Trimmed-Ends e))
  | inr z ↦ Trimmed-append_byte xs b (ground arith)
]

-- What trimming drops is zero bytes only, and what it keeps does not end in a zero byte.
pub trim_zero_padding_lem :
    (buf : Bytes)
    → (k : ℕ) × (buf ≡ trim_zero_padding buf ++ replicate k 0)
      × NoTrailingZero (trim_zero_padding buf)
trim_zero_padding_lem buf = Trimmed-Ends (Ends-all buf)

-- A payload that fits is padded with zero bytes; one that does not fit is refused with both lengths.
pub pad_to_len_lem :
    (payload : Bytes) (n : ℕ)
    → ((length payload ≤ n)
        × (pad_to_len payload n ≡ ok (payload ++ replicate (n - length payload) 0)))
      ⊎ ((n < length payload) × (pad_to_len payload n ≡ err (too_large (length payload) n)))
unfolding pad_to_len
pad_to_len_lem payload n = ground arith

pub length-pad_to_len :
    (payload : Bytes) (n : ℕ) (padded : Bytes)
    → pad_to_len payload n ≡ ok padded
    → length padded ≡ n
length-pad_to_len payload n padded h = elim (pad_to_len_lem payload n) [
  | inl (fits, e) ↦ rw (← ok-injective (sym e ∙ h)) (
      omega (
        arith,
        length-append payload (replicate (n - length payload) 0),
        length-replicate {A = ℕ} (n - length payload) 0,
      ))
  | inr (_, e) ↦ absurd (cc (sym e ∙ h))
]

-- Padding succeeds only with exactly the target length, and trimming then gives back a payload that
-- does not end in a zero byte.
pub trim-pad_to_len :
    (payload : Bytes) (n : ℕ) (padded : Bytes)
    → NoTrailingZero payload
    → pad_to_len payload n ≡ ok padded
    → (length padded ≡ n) × (trim_zero_padding padded ≡ payload)
trim-pad_to_len payload n padded clean h = (length-pad_to_len payload n padded h, trimmed)
  where
    trimmed : trim_zero_padding padded ≡ payload
    trimmed = elim (pad_to_len_lem payload n) [
      | inl (fits, e) ↦
          rw (← ok-injective (sym e ∙ h))
            (trim-append_zeros (n - length payload) payload ∙ trim_self payload clean)
      | inr (_, e) ↦ absurd (cc (sym e ∙ h))
    ]
