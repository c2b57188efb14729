-- ===== src/Json/Order.antt =====
-- The order of the keys, and what inserting in order does.
use zk_llm_gateway.Prelude.{◌≡◌, ◌≢◌, refl, true, false, [], ◌∷◌, arith}
use zk_llm_gateway.Prelude.Text.{Text}
use zk_llm_gateway.Json.{Value, Fields, end, field, text_le, insert_sorted}

text_le_total : (x y : Text) → text_le x y ≡ false → text_le y x ≡ true
unfolding text_le
text_le_total [] y h = absurd (cc h)
text_le_total (a ∷ x) [] h = refl
text_le_total (a ∷ x) (b ∷ y) h = ground (arith, text_le_total x y)

text_le_trans : (x y z : Text) → text_le x y ≡ true → text_le y z ≡ true → text_le x z ≡ true
unfolding text_le
text_le_trans [] y z p q = refl
text_le_trans (a ∷ x) [] z p q = absurd (cc p)
text_le_trans (a ∷ x) (b ∷ y) [] p q = absurd (cc q)
text_le_trans (a ∷ x) (b ∷ y) (d ∷ z) p q = ground (arith, text_le_trans x y z)

text_le_antisym : (x y : Text) → text_le x y ≡ true → text_le y x ≡ true → x ≡ y
unfolding text_le
text_le_antisym [] [] p q = refl
text_le_antisym [] (b ∷ y) p q = absurd (cc q)
text_le_antisym (a ∷ x) [] p q = absurd (cc p)
text_le_antisym (a ∷ x) (b ∷ y) p q = ground (arith, text_le_antisym x y)

-- Two insertions under different keys may be exchanged.
pub insert_sorted_comm :
    (k j : Text) (v w : Value) (fs : Fields)
    → k ≢ j
    → insert_sorted k v (insert_sorted j w fs) ≡ insert_sorted j w (insert_sorted k v fs)
unfolding insert_sorted
insert_sorted_comm k j v w end h = ground (arith, text_le_total k j, text_le_antisym k j)
insert_sorted_comm k j v w (field i u fs) h = ground (
  arith,
  insert_sorted_comm k j v w fs h,
  text_le_total k j,
  text_le_antisym k j,
  text_le_total k i,
  text_le_total j i,
  text_le_trans k j i,
  text_le_trans j k i,
  text_le_trans k i j,
  text_le_trans j i k,
)
