-- ===== src/Client/Redaction/Marks.antt =====
-- Placeholders as marks, `<` and `>` around a text with neither, and what `str::replace` does to them.
use zk_llm_gateway.Prelude.{
  ℕ, suc, ◌-◌, Bool, true, false, ◌&&◌, not, ◌≡◌, refl, ap, sym, ◌∙◌, inl, inr, [], ◌∷◌, ◌++◌,
  append_assoc, ◌==◌, if◌then◌else◌, length, arith, Bool-cases, subst, false≢true, cons-injective,
}
use zk_llm_gateway.Prelude.Text.{Text, bytes_eq, bytes_eq_iff}
use zk_llm_gateway.Prelude.Strings.{starts_with, replace_from}

unfoldable pub free_of : ℕ → Text → Bool
free_of c [] = true
free_of c (x ∷ xs) = not (x == c) && free_of c xs

pub free_of-append :
    (c : ℕ) (xs ys : Text) → free_of c xs ≡ true → free_of c ys ≡ true → free_of c (xs ++ ys) ≡ true
unfolding free_of
free_of-append c [] ys h g = g
free_of-append c (x ∷ xs) ys h g = ground (arith, free_of-append c xs ys)

pub record IsMark (mark : Text) : Type 0 where
  pub body : Text
  pub shape : mark ≡ 60 ∷ (body ++ 62 ∷ [])
  pub no_open : free_of 60 body ≡ true
  pub no_close : free_of 62 body ≡ true

starts_with-append : (xs ys : Text) → starts_with xs (xs ++ ys) ≡ true
unfolding starts_with
starts_with-append [] ys = refl
starts_with-append (x ∷ xs) ys = ground (arith, starts_with-append xs ys)

-- Of two marks one is a prefix only of itself.
starts_with-close :
    (b b' rest : Text)
    → free_of 62 b ≡ true
    → free_of 62 b' ≡ true
    → starts_with (b ++ 62 ∷ []) (b' ++ 62 ∷ rest) ≡ true
    → b ≡ b'
unfolding starts_with free_of
starts_with-close [] [] rest h g e = refl
starts_with-close [] (y ∷ b') rest h g e = absurd (ground arith)
starts_with-close (x ∷ b) [] rest h g e = absurd (ground arith)
starts_with-close (x ∷ b) (y ∷ b') rest h g e = ground (arith, starts_with-close b b' rest)

replace_from-skip :
    (k o s rest : Text) → replace_from k o (length s) (s ++ rest) ≡ replace_from k o 0 rest
unfolding replace_from
replace_from-skip k o [] rest = refl
replace_from-skip k o (c ∷ s) rest = replace_from-skip k o s rest

-- A text without the opening character is passed over.
pub replace_from-free :
    (k o s rest : Text)
    → free_of 60 s ≡ true
    → replace_from (60 ∷ k) o 0 (s ++ rest) ≡ s ++ replace_from (60 ∷ k) o 0 rest
unfolding replace_from free_of starts_with
replace_from-free k o [] rest h = refl
replace_from-free k o (c ∷ s) rest h =
    let off : (60 == c) ≡ false = ground arith in
    rw off (ap (◌∷◌ c) (replace_from-free k o s rest (ground arith)))

miss-replace_from :
    (k o : Text) (b rest : Text)
    → free_of 60 b ≡ true
    → starts_with (60 ∷ k) (60 ∷ ((b ++ 62 ∷ []) ++ rest)) ≡ false
    → replace_from (60 ∷ k) o 0 (60 ∷ ((b ++ 62 ∷ []) ++ rest))
      ≡ 60 ∷ ((b ++ 62 ∷ []) ++ replace_from (60 ∷ k) o 0 rest)
unfolding replace_from
miss-replace_from k o b rest free e = rw e (
    ap (◌∷◌ 60) (
      replace_from-free k o (b ++ 62 ∷ []) rest
        (free_of-append 60 b (62 ∷ []) free (unfold free_of in refl))))

hit-replace_from :
    (k m o rest : Text)
    → k ≡ m
    → replace_from (60 ∷ k) o 0 (60 ∷ (m ++ rest)) ≡ o ++ replace_from (60 ∷ k) o 0 rest
unfolding replace_from
hit-replace_from k m o rest same =
    let one : suc (length k) - 1 ≡ length k = omega arith in
    subst (λ m. replace_from (60 ∷ k) o 0 (60 ∷ (m ++ rest)) ≡ o ++ replace_from (60 ∷ k) o 0 rest)
      same
      (rw (starts_with-append (60 ∷ k) rest, one)
        (ap (◌++◌ o) (replace_from-skip (60 ∷ k) o k rest)))

marks_differ :
    (b b' rest : Text)
    → free_of 62 b ≡ true
    → free_of 62 b' ≡ true
    → bytes_eq (60 ∷ (b ++ 62 ∷ [])) (60 ∷ (b' ++ 62 ∷ [])) ≡ false
    → starts_with (60 ∷ (b ++ 62 ∷ [])) (60 ∷ ((b' ++ 62 ∷ []) ++ rest)) ≡ false
unfolding starts_with
marks_differ b b' rest h g e =
    elim (Bool-cases (starts_with (b ++ 62 ∷ []) ((b' ++ 62 ∷ []) ++ rest))) [
      | inl hit ↦
          let same = starts_with-close b b' rest h g (
            subst (λ t. starts_with (b ++ 62 ∷ []) t ≡ true) (append_assoc b' (62 ∷ []) rest)
              hit) in
          absurd (
            false≢true (sym e ∙ (bytes_eq_iff _ _).1 (ap (λ (x : Text). 60 ∷ (x ++ 62 ∷ [])) same)))
      | inr miss ↦ miss
    ]

replace_from-shape :
    (b b' o rest : Text)
    → free_of 62 b ≡ true
    → free_of 60 b' ≡ true
    → free_of 62 b' ≡ true
    → (let k = 60 ∷ (b ++ 62 ∷ []) in
        let m = 60 ∷ (b' ++ 62 ∷ []) in
        replace_from k o 0 (m ++ rest) ≡ (if bytes_eq k m then o else m) ++ replace_from k o 0 rest)
replace_from-shape b b' o rest h f g =
    let k = b ++ 62 ∷ [] in
    let m = b' ++ 62 ∷ [] in
    elim (Bool-cases (bytes_eq (60 ∷ k) (60 ∷ m))) [
      | inl e ↦
          rw e (
            hit-replace_from k m o rest ((cons-injective ((bytes_eq_iff (60 ∷ k) (60 ∷ m)).0 e)).1))
      | inr e ↦ rw e (miss-replace_from k o b' rest f (marks_differ b b' rest h g e))
    ]

-- A replacement of one mark at the head of a text that begins with a mark.
pub replace_from-mark :
    (k m o rest : Text)
    → IsMark k
    → IsMark m
    → replace_from k o 0 (m ++ rest) ≡ (if bytes_eq k m then o else m) ++ replace_from k o 0 rest
replace_from-mark k m o rest p q =
    rw (p.shape, q.shape) (replace_from-shape p.body q.body o rest p.no_close q.no_open q.no_close)
