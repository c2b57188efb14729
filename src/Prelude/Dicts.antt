-- ===== src/Prelude/Dicts.antt =====
-- Laws of the association lists of `Strings`: reading after writing.
use mathlib.Core.Path.{◌≡◌, refl}
use mathlib.Core.Bool.{false}
use mathlib.Core.Option.{none, some}
use mathlib.Core.List.{[], ◌∷◌}
use native.Mathlib.Omega.{arith}
use zk_llm_gateway.Prelude.Text.{Text, bytes_eq, bytes_eq_iff, bytes_eq_refl}
use zk_llm_gateway.Prelude.Strings.{Dict, lookup, put, has_key}

module _ {V : Type 0} where
  pub lookup-put : (k : Text) (v : V) (d : Dict V) → lookup k (put k v d) ≡ some v
  unfolding lookup put
  lookup-put k v [] = rw (bytes_eq_refl k) refl
  lookup-put k v ((j, w) ∷ d) = ground (arith, lookup-put k v d)

  pub lookup-put_apart :
      (k j : Text) (v : V) (d : Dict V) → bytes_eq j k ≡ false → lookup k (put j v d) ≡ lookup k d
  unfolding lookup put
  lookup-put_apart k j v [] apart = rw apart refl
  lookup-put_apart k j v ((i, w) ∷ d) apart =
      ground (arith, lookup-put_apart k j v d, bytes_eq_iff i j, bytes_eq_iff i k, bytes_eq_iff j k)

  pub has_key-lookup : (k : Text) (d : Dict V) → lookup k d ≡ none → has_key k d ≡ false
  unfolding lookup has_key
  has_key-lookup k [] gone = refl
  has_key-lookup k ((j, v) ∷ d) gone = ground (arith, has_key-lookup k d)

  pub lookup-has_key : (k : Text) (d : Dict V) → has_key k d ≡ false → lookup k d ≡ none
  unfolding lookup has_key
  lookup-has_key k [] gone = refl
  lookup-has_key k ((j, v) ∷ d) gone = ground (arith, lookup-has_key k d)
