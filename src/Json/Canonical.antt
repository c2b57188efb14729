-- ===== src/Json/Canonical.antt =====
-- Canonical JSON forgets the iteration order of maps, at every depth.
use zk_llm_gateway.Prelude.{◌≡◌, ◌≢◌, refl, ap, ◌∙◌}
use zk_llm_gateway.Prelude.Text.{Text}
use zk_llm_gateway.Json.{
  Value, arr, obj, Items, nil, cons, Fields, end, field, extend, insert_sorted, sort_entries,
  canonicalize_json, canonicalize_items, canonicalize_entries,
}
use zk_llm_gateway.Json.Order.{insert_sorted_comm}

-- The same value up to the order in which maps are iterated: neighbouring entries under different
-- keys may change places, at every depth, any number of times.
mutual
  pub data Same : Value → Value → Type 0 where
    same : (v : Value) → Same v v
    in_arr : {xs ys : Items} → SameItems xs ys → Same (arr xs) (arr ys)
    in_obj : {fs gs : Fields} → SameFields fs gs → Same (obj fs) (obj gs)

  pub data SameItems : Items → Items → Type 0 where
    same_nil : SameItems nil nil
    same_cons :
        {v w : Value} {xs ys : Items}
        → Same v w
        → SameItems xs ys
        → SameItems (cons v xs) (cons w ys)

  pub data SameFields : Fields → Fields → Type 0 where
    same_end : SameFields end end
    same_field :
        (k : Text) {v w : Value} {fs gs : Fields}
        → Same v w
        → SameFields fs gs
        → SameFields (field k v fs) (field k w gs)
    exchange :
        (k j : Text) (v w : Value) (fs : Fields)
        → k ≢ j
        → SameFields (field k v (field j w fs)) (field j w (field k v fs))
    chain : {fs gs hs : Fields} → SameFields fs gs → SameFields gs hs → SameFields fs hs

mutual
  unfolding canonicalize_json

  json_eq : {v w : Value} → Same v w → canonicalize_json v ≡ canonicalize_json w
  json_eq (same v) = refl
  json_eq (in_arr xs) = ap arr (items_eq xs)
  json_eq (in_obj fs) = ap (λ gs. obj (extend end gs)) (fields_eq fs)

  items_eq : {xs ys : Items} → SameItems xs ys → canonicalize_items xs ≡ canonicalize_items ys
  items_eq same_nil = refl
  items_eq (same_cons v xs) = λ i. cons (json_eq v i) (items_eq xs i)

  fields_eq :
      {fs gs : Fields}
      → SameFields fs gs
      → sort_entries (canonicalize_entries fs) ≡ sort_entries (canonicalize_entries gs)
  fields_eq same_end = refl
  fields_eq (same_field k v fs) = λ i. insert_sorted k (json_eq v i) (fields_eq fs i)
  fields_eq (exchange k j v w fs h) =
      insert_sorted_comm k j (canonicalize_json v) (canonicalize_json w)
        (sort_entries (canonicalize_entries fs)) h
  fields_eq (chain a b) = fields_eq a ∙ fields_eq b

-- Values that differ only in the iteration order of their maps have one canonical form.
pub canonicalize_json-Same : {v w : Value} → Same v w → canonicalize_json v ≡ canonicalize_json w
canonicalize_json-Same h = json_eq h
