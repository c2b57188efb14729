-- ===== src/Sled/Memory.antt =====
-- A database in memory that meets the laws of `Sled` and never fails, for the examples.
use zk_llm_gateway.Prelude.{
  ◌≡◌, ◌≢◌, ◌↔◌, refl, sym, ap, ◌∙◌, inl, inr, Bool, true, false, Option, none, some, arith,
  if◌then◌else◌, Bool-cases, false≢true, ◌⊎◌,
}
use zk_llm_gateway.Prelude.Text.{Bytes, bytes_eq, bytes_eq_iff, bytes_eq_refl}
use zk_llm_gateway.Sled.{Cas, swapped, conflict, Sled, SledLaws}

unfoldable pub option_eq : Option Bytes → Option Bytes → Bool
option_eq none none = true
option_eq (some a) (some b) = bytes_eq a b
option_eq _ _ = false

option_eq_iff : (a b : Option Bytes) → (option_eq a b ≡ true) ↔ (a ≡ b)
unfolding option_eq
option_eq_iff none none = (λ _. refl, λ _. refl)
option_eq_iff none (some b) = (λ h. cc, λ h. cc)
option_eq_iff (some a) none = (λ h. cc, λ h. cc)
option_eq_iff (some a) (some b) = ground (arith, bytes_eq_iff a b)

abbrev pub Table : Type 0
Table = Bytes → Option Bytes

unfoldable pub update : Bytes → Option Bytes → Table → Table
update k new db j = if bytes_eq k j then new else db j

unfoldable pub compare_and_swap : Bytes → Option Bytes → Option Bytes → Table → Cas × Table
unfolding update option_eq
compare_and_swap k old new db =
    if option_eq (db k) old then (swapped, update k new db) else (conflict, db)

abbrev pub memory : Sled
memory = record {
  Db = Table;
  contents = λ db k. db k;
  compare_and_swap = compare_and_swap;
  get = λ k db. some (db k);
  flush = λ db. (true, db);
}

update_self : (k : Bytes) (new : Option Bytes) (db : Table) → update k new db k ≡ new
unfolding update
update_self k new db = rw (bytes_eq_refl k)

update_ne : (k j : Bytes) (new : Option Bytes) (db : Table) → k ≢ j → update k new db j ≡ db j
unfolding update
update_ne k j new db h = ground (arith, bytes_eq_iff k j)

pair_eq : {c d : Cas} {t u : Table} → ◌≡◌ {A = Cas × Table} (c, t) (d, u) → (c ≡ d) × (t ≡ u)
pair_eq h = (ap (λ p. p.0) h, ap (λ p. p.1) h)

-- The two ways in which a compare-and-swap ends here.
compare_and_swap_cases :
    (k : Bytes) (old new : Option Bytes) (db : Table)
    → ((db k ≡ old) × (compare_and_swap k old new db ≡ (swapped, update k new db)))
      ⊎ ((db k ≢ old) × (compare_and_swap k old new db ≡ (conflict, db)))
unfolding compare_and_swap
compare_and_swap_cases k old new db = elim (Bool-cases (option_eq (db k) old)) [
  | inl e ↦ inl ((option_eq_iff (db k) old).0 e, rw e)
  | inr e ↦ inr (λ same. false≢true (sym e ∙ (option_eq_iff (db k) old).1 same), rw e)
]

pub memory-SledLaws : SledLaws memory
memory-SledLaws = record {
  cas_swapped = λ k old new db db' h. elim (compare_and_swap_cases k old new db) [
    | inl (hit, e) ↦ (hit, ap (λ t. t k) (sym (pair_eq (sym e ∙ h)).1) ∙ update_self k new db)
    | inr (_, e) ↦ absurd (cc (pair_eq (sym e ∙ h)).0)
  ];
  cas_conflict = λ k old new db db' h. elim (compare_and_swap_cases k old new db) [
    | inl (_, e) ↦ absurd (cc (pair_eq (sym e ∙ h)).0)
    | inr (miss, e) ↦ (miss, ap (λ t. t k) (sym (pair_eq (sym e ∙ h)).1))
  ];
  cas_io_error = λ k old new db db' h. elim (compare_and_swap_cases k old new db) [
    | inl (_, e) ↦ absurd (cc (pair_eq (sym e ∙ h)).0)
    | inr (_, e) ↦ absurd (cc (pair_eq (sym e ∙ h)).0)
  ];
  cas_frame = λ k j old new db ne. elim (compare_and_swap_cases k old new db) [
    | inl (_, e) ↦ ap (λ p. p.1 j) e ∙ update_ne k j new db ne
    | inr (_, e) ↦ ap (λ p. p.1 j) e
  ];
  get_reads = λ k db v e. cc;
  flush_keeps = λ db k. refl;
}
