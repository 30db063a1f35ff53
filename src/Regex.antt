-- ===== src/Regex.antt =====
-- Go's `regexp.MatchString` for the anchored patterns of pkg/util/validate.go and
-- pkg/util/volume.go: patterns as data, and a matcher by derivatives, over code points.
pub mod Language
use runai_cli.Prelude.{ℕ, Bool, true, false, ◌&&◌, ◌||◌, List, [], ◌∷◌, if◌then◌else◌}

pub data Regex : Type 0 where
  fail eps : Regex
  cls : (ℕ → Bool) → Regex
  alt seq : Regex → Regex → Regex
  star : Regex → Regex

-- `r?` and `r+`.
abbrev pub opt : Regex → Regex
opt r = alt eps r

abbrev pub plus : Regex → Regex
plus r = seq r (star r)

-- Whether the empty text matches.
unfoldable pub null : Regex → Bool
null fail = false
null eps = true
null (cls p) = false
null (alt r s) = null r || null s
null (seq r s) = null r && null s
null (star r) = true

-- What is left to match after one code point.
unfoldable pub deriv : ℕ → Regex → Regex
unfolding null
deriv c fail = fail
deriv c eps = fail
deriv c (cls p) = if p c then eps else fail
deriv c (alt r s) = alt (deriv c r) (deriv c s)
deriv c (seq r s) =
    let first = seq (deriv c r) s in
    let second = deriv c s in if null r then alt first second else first
deriv c (star r) = seq (deriv c r) (star r)

unfoldable pub matches : Regex → List ℕ → Bool
unfolding null deriv
matches r [] = null r
matches r (c ∷ w) = matches (deriv c r) w
