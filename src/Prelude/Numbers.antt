-- ===== src/Prelude/Numbers.antt =====
-- Signed integers by their sign, and numbers in decimal, as `fmt` prints them with "%d".
use Prim.Native.Nat.{ℕ, zero, suc, ◌+◌, ◌/◌, ◌%◌}
use Prim.Native.String
use Prim.Native.String.{String}
use mathlib.Core.Bool.{Bool, true}
use mathlib.Core.List.{List, [], ◌∷◌}
use runai_cli.Prelude.Tests.{ltb, if◌then◌else◌}

-- `negsuc n` is -(n + 1).
pub data ℤ : Type 0 where
  pos : ℕ → ℤ
  negsuc : ℕ → ℤ

abbrev pub nth_digit : List String → ℕ → String
nth_digit [] i = ""
nth_digit (d ∷ ds) zero = d
nth_digit (d ∷ ds) (suc i) = nth_digit ds i

abbrev pub digit : ℕ → String
digit n = nth_digit ("0" ∷ "1" ∷ "2" ∷ "3" ∷ "4" ∷ "5" ∷ "6" ∷ "7" ∷ "8" ∷ "9" ∷ []) n

-- A number below `suc fuel` has at most `suc fuel` digits.
unfoldable pub decimal_from : ℕ → ℕ → String
decimal_from zero n = digit (n % 10)
decimal_from (suc fuel) n =
    let front = decimal_from fuel (n / 10) in
    if ltb n 10 then digit n else String.◌++◌ front (digit (n % 10))

unfoldable pub decimal : ℕ → String
unfolding decimal_from
decimal n = decimal_from n n

unfoldable pub decimal_int : ℤ → String
unfolding decimal
decimal_int (pos n) = decimal n
decimal_int (negsuc n) = String.◌++◌ "-" (decimal (n + 1))

-- Integer division by a positive number, which rounds towards zero.
unfoldable pub quotient : ℤ → ℕ → ℤ
quotient (pos n) d = pos (n / d)
quotient (negsuc n) d = elim ((n + 1) / d) [ zero ↦ pos 0 | suc m ↦ negsuc m ]

unfoldable pub less_than : ℤ → ℕ → Bool
less_than (pos n) m = ltb n m
less_than (negsuc n) m = true
