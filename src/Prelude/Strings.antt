-- ===== src/Prelude/Strings.antt =====
-- What the client uses of Rust's `str` and `HashMap<String, _>`: prefixes, replacement, trimming,
-- UTF-8, and maps as association lists whose order is the order of iteration.
use Prim.Native.Nat.{ℕ, zero, suc, ◌+◌, ◌-◌, ◌/◌, ◌%◌}
use mathlib.Core.Bool.{Bool, true, false, ◌&&◌, ◌||◌}
use mathlib.Core.Option.{Option, none, some}
use mathlib.Core.List.{List, [], ◌∷◌, ◌++◌}
use zk_llm_gateway.Prelude.Tests.{ltb, leb, ◌==◌, if◌then◌else◌}
use zk_llm_gateway.Prelude.Lists.{length}
use zk_llm_gateway.Prelude.Text.{Bytes, Text, bytes_eq}

-- The code points with the property White_Space.
unfoldable pub is_whitespace : ℕ → Bool
is_whitespace c =
    (leb 9 c && leb c 13)
    || c == 32
    || c == 0x85
    || c == 0xA0
    || c == 0x1680
    || (leb 0x2000 c && leb c 0x200A)
    || c == 0x2028
    || c == 0x2029
    || c == 0x202F
    || c == 0x205F
    || c == 0x3000

unfoldable pub trim_left : Text → Text
trim_left [] = []
trim_left (c ∷ cs) = let rest = trim_left cs in if is_whitespace c then rest else c ∷ cs

unfoldable pub trim_right : Text → Text
trim_right [] = []
trim_right (c ∷ cs) = elim (trim_right cs) [
  | [] ↦ if is_whitespace c then [] else c ∷ []
  | d ∷ ds ↦ c ∷ d ∷ ds
]

unfoldable pub trim : Text → Text
unfolding trim_left trim_right is_whitespace
trim s = trim_right (trim_left s)

-- `s.trim().is_empty()`.
unfoldable pub is_blank : Text → Bool
unfolding is_whitespace
is_blank [] = true
is_blank (c ∷ cs) = is_whitespace c && is_blank cs

-- The first text is a prefix of the second.
unfoldable pub starts_with : Text → Text → Bool
starts_with [] s = true
starts_with (p ∷ ps) [] = false
starts_with (p ∷ ps) (c ∷ cs) = p == c && starts_with ps cs

-- The first text occurs in the second.
unfoldable pub contains : Text → Text → Bool
unfolding starts_with
contains pat [] = starts_with pat []
contains pat (c ∷ cs) = starts_with pat (c ∷ cs) || contains pat cs

-- The scan of `replace`, with the number of characters still to pass over.
unfoldable pub replace_from : Text → Text → ℕ → Text → Text
unfolding starts_with
replace_from pat to left [] = []
replace_from pat to (suc left) (c ∷ cs) = replace_from pat to left cs
replace_from pat to zero (c ∷ cs) =
    let hit = starts_with pat (c ∷ cs) in
    let rest = replace_from pat to (if hit then length pat - 1 else 0) cs in
    (if hit then to else c ∷ []) ++ rest

-- An empty pattern stands before every character and at the end.
everywhere : Text → Text → Text
everywhere to [] = to
everywhere to (c ∷ cs) = to ++ (c ∷ everywhere to cs)

-- `s.replace(pat, to)`.
unfoldable pub replace : Text → Text → Text → Text
unfolding replace_from everywhere
replace [] to s = everywhere to s
replace (p ∷ ps) to s = replace_from (p ∷ ps) to 0 s

-- `as_bytes`: UTF-8.
unfoldable pub utf8_char : ℕ → Bytes
utf8_char c =
    if ltb c 0x80
    then c ∷ []
    else if ltb c 0x800
    then (0xC0 + c / 64) ∷ (0x80 + c % 64) ∷ []
    else if ltb c 0x10000
    then (0xE0 + c / 4096) ∷ (0x80 + (c / 64) % 64) ∷ (0x80 + c % 64) ∷ []
    else (0xF0 + c / 262144)
      ∷ (0x80 + (c / 4096) % 64)
      ∷ (0x80 + (c / 64) % 64)
      ∷ (0x80 + c % 64)
      ∷ []

unfoldable pub utf8 : Text → Bytes
unfolding utf8_char
utf8 [] = []
utf8 (c ∷ cs) = utf8_char c ++ utf8 cs

-- The decimal digits of a number below `10 ^ fuel`, as `to_string` writes it.
unfoldable pub digits : ℕ → ℕ → Text → Text
digits zero n rest = rest
digits (suc fuel) n rest =
    let more = digits fuel (n / 10) ((48 + n % 10) ∷ rest) in
    if ltb n 10 then (48 + n % 10) ∷ rest else more

-- A `usize` has at most twenty digits.
unfoldable pub decimal : ℕ → Text
unfolding digits
decimal n = digits 20 n []

abbrev pub Dict : Type 0 → Type 0
Dict V = List (Text × V)

module _ {V : Type 0} where
  unfoldable pub lookup : Text → Dict V → Option V
  unfolding bytes_eq
  lookup k [] = none
  lookup k ((j, v) ∷ d) = if bytes_eq j k then some v else lookup k d

  unfoldable pub put : Text → V → Dict V → Dict V
  unfolding bytes_eq
  put k v [] = (k, v) ∷ []
  put k v ((j, w) ∷ d) = if bytes_eq j k then (j, v) ∷ d else (j, w) ∷ put k v d

  unfoldable pub has_key : Text → Dict V → Bool
  unfolding bytes_eq
  has_key k [] = false
  has_key k ((j, v) ∷ d) = bytes_eq j k || has_key k d

-- Any member of a list of texts.
unfoldable pub has_text : Text → List Text → Bool
unfolding bytes_eq
has_text k [] = false
has_text k (j ∷ js) = bytes_eq j k || has_text k js
