-- ===== src/Json.antt =====
-- JSON values as the program handles them (serde_json's `Value`), and `canonicalize_json` of
-- common/src/types.rs. An object is the list of its entries in iteration order.
pub mod Order
pub mod Canonical
mod Tests
use zk_llm_gateway.Prelude.{
  ℕ, Bool, true, false, ◌&&◌, Option, none, some, List, [], ◌∷◌, ltb, ◌==◌, if◌then◌else◌,
}
use zk_llm_gateway.Prelude.Text.{Text, bytes_eq}

mutual
  pub data Value : Type 0 where
    null : Value
    bool : Bool → Value
    -- Numbers are opaque to the program: non-negative integers, and the others by some code.
    num : ℕ → Value
    other_num : ℕ → Value
    str : Text → Value
    arr : Items → Value
    obj : Fields → Value

  pub data Items : Type 0 where
    nil : Items
    cons : Value → Items → Items

  pub data Fields : Type 0 where
    end : Fields
    field : Text → Value → Fields → Fields

-- `String::cmp`: lexicographic (UTF-8 keeps the order of code points).
unfoldable pub text_le : Text → Text → Bool
text_le [] ys = true
text_le (x ∷ xs) [] = false
text_le (x ∷ xs) (y ∷ ys) =
    let rest = text_le xs ys in if ltb x y then true else if x == y then rest else false

-- `Map::insert`: a value for a key that is there replaces the old one in its place.
unfoldable pub insert : Text → Value → Fields → Fields
unfolding bytes_eq
insert k v end = field k v end
insert k v (field j w fs) = if bytes_eq j k then field j v fs else field j w (insert k v fs)

-- `Map::extend`.
unfoldable pub extend : Fields → Fields → Fields
unfolding insert
extend object end = object
extend object (field k v fs) = extend (insert k v object) fs

-- `sort_by` on the keys, a stable sort.
unfoldable pub insert_sorted : Text → Value → Fields → Fields
unfolding text_le
insert_sorted k v end = field k v end
insert_sorted k v (field j w fs) =
    if text_le k j then field k v (field j w fs) else field j w (insert_sorted k v fs)

unfoldable pub sort_entries : Fields → Fields
unfolding insert_sorted
sort_entries end = end
sort_entries (field k v fs) = insert_sorted k v (sort_entries fs)

-- Sorting looks only at the keys, so the children may be done before it.
unfoldable mutual
  unfolding sort_entries extend

  pub canonicalize_json : Value → Value
  canonicalize_json null = null
  canonicalize_json (bool b) = bool b
  canonicalize_json (num n) = num n
  canonicalize_json (other_num n) = other_num n
  canonicalize_json (str s) = str s
  canonicalize_json (arr xs) = arr (canonicalize_items xs)
  canonicalize_json (obj fs) = obj (extend end (sort_entries (canonicalize_entries fs)))

  pub canonicalize_items : Items → Items
  canonicalize_items nil = nil
  canonicalize_items (cons x xs) = cons (canonicalize_json x) (canonicalize_items xs)

  pub canonicalize_entries : Fields → Fields
  canonicalize_entries end = end
  canonicalize_entries (field k v fs) = field k (canonicalize_json v) (canonicalize_entries fs)

-- `Value::get` of a key; only objects have one.
unfoldable pub get_field : Text → Fields → Option Value
unfolding bytes_eq
get_field k end = none
get_field k (field j w fs) = if bytes_eq j k then some w else get_field k fs

unfoldable pub get : Text → Value → Option Value
unfolding get_field
get k (obj fs) = get_field k fs
get k _ = none
