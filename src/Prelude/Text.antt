-- ===== src/Prelude/Text.antt =====
-- Texts as Go's `strings` package treats them: split at a separator, and joined again.
use Prim.Native.Nat.{ℕ}
use Prim.Native.Char.{Char, code}
use Prim.Native.String
use Prim.Native.String.{String}
use mathlib.Core.Path.{◌≡◌, refl, ap, ◌∙◌, sym}
use mathlib.Core.Bool.{false}
use mathlib.Core.Logic.{inl, inr}
use mathlib.Core.List.{List, [], ◌∷◌}
use text.Mathlib.TextEquality.{Char-path}
use text.Mathlib.TextLemmas.{nil-append, cons-append}
use runai_cli.Prelude.Lists.{All}
use runai_cli.Prelude.Tests.{◌==◌, ==_iff, if◌then◌else◌, Bool-cases}

-- The code points of a text.
abbrev pub codes : String → List ℕ
codes String.[] = []
codes (String.◌∷◌ c s) = code c ∷ codes s

abbrev pub prepend : Char → List String → List String
prepend c [] = []
prepend c (part ∷ parts) = String.◌∷◌ c part ∷ parts

-- `strings.Split(s, sep)` for a separator of one ASCII character.
unfoldable pub split : ℕ → String → List String
split sep String.[] = "" ∷ []
split sep (String.◌∷◌ c s) = if code c == sep then "" ∷ split sep s else prepend c (split sep s)

-- `strings.Join(parts, sep)`.
unfoldable pub join : String → List String → String
join sep [] = ""
join sep (part ∷ []) = part
join sep (part ∷ (next ∷ parts)) = String.◌++◌ part (String.◌++◌ sep (join sep (next ∷ parts)))

-- The text holds no character with this code.
abbrev pub Lacks : ℕ → String → Type 0
Lacks sep String.[] = Unit
Lacks sep (String.◌∷◌ c s) = ((code c == sep) ≡ false) × Lacks sep s

pub split-Lacks : (sep : ℕ) (s : String) → Lacks sep s → split sep s ≡ s ∷ []
unfolding split
split-Lacks sep String.[] h = refl
split-Lacks sep (String.◌∷◌ c s) (h, hs) = rw (h, split-Lacks sep s hs)

-- A separator that stands behind a part without separators ends that part.
pub split-append :
    (a : String) (c : Char) (s : String)
    → Lacks (code c) a
    → split (code c) (String.◌++◌ a (String.◌∷◌ c s)) ≡ a ∷ split (code c) s
unfolding split
split-append String.[] c s h = rw (nil-append, (==_iff _ _).1 refl)
split-append (String.◌∷◌ d a) c s (h, hs) = rw (cons-append, h, split-append a c s hs)

prepend-Lacks :
    (sep : ℕ) (c : Char) (parts : List String)
    → ((code c == sep) ≡ false)
    → All (Lacks sep) parts
    → All (Lacks sep) (prepend c parts)
prepend-Lacks sep c [] h k = tt
prepend-Lacks sep c (part ∷ parts) h (k, ks) = ((h, k), ks)

-- No part of a split text holds the separator.
pub All-split : (sep : ℕ) (s : String) → All (Lacks sep) (split sep s)
unfolding split
All-split sep String.[] = (tt, tt)
All-split sep (String.◌∷◌ c s) = elim (Bool-cases (code c == sep)) [
  | inl e ↦ rw e (tt, All-split sep s)
  | inr e ↦ rw e (prepend-Lacks sep c (split sep s) e (All-split sep s))
]

-- Joining what was split at the same character gives the text back.
join-prepend :
    (sep : String) (c : Char) (part : String) (parts : List String)
    → join sep (prepend c (part ∷ parts)) ≡ String.◌∷◌ c (join sep (part ∷ parts))
unfolding join
join-prepend sep c part [] = refl
join-prepend sep c part (next ∷ parts) = cons-append c part _

prepend-split :
    (sep : ℕ) (s : String) → (part : String) × (parts : List String) × (split sep s ≡ part ∷ parts)
unfolding split
prepend-split sep String.[] = ("", [], refl)
prepend-split sep (String.◌∷◌ c s) = elim (Bool-cases (code c == sep)) [
  | inl e ↦ ("", split sep s, rw e)
  | inr e ↦ let (part, parts, q) = prepend-split sep s in (String.◌∷◌ c part, parts, rw (e, q))
]

pub join-split : (c : Char) (s : String) → join (String.◌∷◌ c "") (split (code c) s) ≡ s
unfolding split join
join-split c String.[] = refl
join-split c (String.◌∷◌ d s) =
    let (part, parts, q) = prepend-split (code c) s in
    let ih : join (String.◌∷◌ c "") (part ∷ parts) ≡ s =
      ap (join (String.◌∷◌ c "")) (sym q) ∙ join-split c s in
    elim (Bool-cases (code d == code c)) [
      | inl e ↦
          rw (e, q)
            (nil-append _
              ∙ cons-append c "" _
              ∙ ap (String.◌∷◌ c) (nil-append _ ∙ ih)
              ∙ ap (λ x. String.◌∷◌ x s) (sym (Char-path d c ((==_iff _ _).0 e))))
      | inr e ↦ rw (e, q) (join-prepend _ d part parts ∙ ap (String.◌∷◌ d) ih)
    ]

-- Splitting what was joined gives the parts back, where none of them holds the separator.
pub split-join :
    (c : Char) (part : String) (parts : List String)
    → Lacks (code c) part
    → All (Lacks (code c)) parts
    → split (code c) (join (String.◌∷◌ c "") (part ∷ parts)) ≡ part ∷ parts
unfolding join
split-join c part [] h hs = split-Lacks (code c) part h
split-join c part (next ∷ parts) h hs =
    rw (cons-append, nil-append)
      (split-append part c _ h ∙ ap (λ t. part ∷ t) (split-join c next parts hs.0 hs.1))
