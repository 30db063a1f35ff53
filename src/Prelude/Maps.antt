-- ===== src/Prelude/Maps.antt =====
-- Go maps with text keys, as association lists: a missing key reads as `none`.
use Prim.Native.String.{String}
use mathlib.Core.Path.{◌≡◌, refl}
use mathlib.Core.Bool.{Bool, false}
use mathlib.Core.Option.{Option, none, some}
use mathlib.Core.List.{List, [], ◌∷◌}
use native.Mathlib.Omega.{arith}
use text.Mathlib.Text.{◌==◌ as str_eq}
use text.Mathlib.TextEquality.{eq_iff}
use runai_cli.Prelude.Tests.{if◌then◌else◌, is_some}

abbrev pub Map {ℓ} : Type ℓ → Type ℓ
Map V = List (String × V)

pub str_eq_flip : (a b : String) → str_eq a b ≡ false → str_eq b a ≡ false
str_eq_flip a b h = ground (arith, eq_iff a b, eq_iff b a)

module _ {ℓ} {V : Type ℓ} where
  -- `m[key]`, with whether the key is there.
  unfoldable pub lookup : Map V → String → Option V
  lookup [] key = none
  lookup (entry ∷ m) key = if str_eq entry.0 key then some entry.1 else lookup m key

  -- `m[key] = value`: a new key goes to the end.
  unfoldable pub assign : Map V → String → V → Map V
  assign [] key value = (key, value) ∷ []
  assign (entry ∷ m) key value =
      if str_eq entry.0 key then (key, value) ∷ m else entry ∷ assign m key value

  pub lookup-assign :
      (m : Map V) (key other : String) (value : V)
      → lookup (assign m key value) other
        ≡ (if str_eq key other then some value else lookup m other)
  unfolding lookup assign
  lookup-assign [] key other value = refl
  lookup-assign (entry ∷ m) key other value = ground (
    arith,
    lookup-assign m key other value,
    eq_iff entry.0 key,
    eq_iff entry.0 other,
    eq_iff key other,
  )

  unfoldable pub has_key : Map V → String → Bool
  unfolding lookup
  has_key m key = is_some (lookup m key)

-- `m[key]` of a `map[string]string`, where a missing key reads as the empty text.
unfoldable pub get : Map String → String → String
unfolding lookup
get m key = elim (lookup m key) [ none ↦ "" | some value ↦ value ]
