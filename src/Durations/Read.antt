-- ===== src/Durations/Read.antt =====
-- A printed duration, read back.
use Prim.Native.Nat.{ℕ, ◌+◌, ◌-◌, ◌*◌, ◌≤◌, ◌<◌, ◌^◌}
use Prim.Native.Char.{code}
use Prim.Native.String
use runai_cli.Prelude.{String, ℤ, pos, ◌⊎◌, ◌&&◌, Option, none, some, leb, ◌==◌, if◌then◌else◌, ◌≡◌}
use runai_cli.Trainer.Amounts.{Floats}
use runai_cli.Durations.{Time}

abbrev pub second : ℕ
second = 1000000000

abbrev pub minute : ℕ
minute = 60000000000

abbrev pub hour : ℕ
hour = 3600000000000

-- The number of nanoseconds of a unit.
abbrev pub unit_of : ℕ → Option ℕ
unit_of letter =
    if letter == 115
    then some second
    else if letter == 109
    then some minute
    else if letter == 104
    then some hour
    else if letter == 100
    then some (hour * 24)
    else if letter == 121
    then some (hour * 24 * 365)
    else none

abbrev pub at_end : ℕ → Option ℕ → String → Option (ℕ × ℕ)
at_end n none s = none
at_end n (some unit) String.[] = some (n, unit)
at_end n (some unit) (String.◌∷◌ c s) = none

-- The digits and the unit of a text, behind the digits that `acc` stands for.
unfoldable pub read_duration : ℕ → String → Option (ℕ × ℕ)
read_duration acc String.[] = none
read_duration acc (String.◌∷◌ c s) =
    let rest = read_duration (acc * 10 + (code c - 48)) s in
    if leb 48 (code c) && leb (code c) 57 then rest else at_end acc (unit_of (code c)) s

-- A whole number of units for a duration, where a float may round up the last ten microseconds.
abbrev pub IsNear : ℕ → ℕ → ℕ → Type 0
IsNear d n unit = (n * unit ≤ d + 10000) × (d < (n + 1) * unit)

abbrev pub IsWhole : ℕ → ℕ → ℤ → Type 0
IsWhole d unit z = (n : ℕ) × (z ≡ pos n) × IsNear d n unit

-- Each number is small enough for its unit.
abbrev pub IsShort : ℕ → ℕ → Type 0
IsShort n unit =
    ((unit ≡ second) × (n < 60))
    ⊎ (((unit ≡ minute) × (n < 60))
        ⊎ (((unit ≡ hour) × (n < 24))
            ⊎ (((unit ≡ hour * 24) × (n < 365)) ⊎ (unit ≡ hour * 24 * 365))))

abbrev pub IsRounded : ℕ → Option (ℕ × ℕ) → Type 0
IsRounded d none = ⊥
IsRounded d (some (n, unit)) = IsNear d n unit × IsShort n unit

module _ (num : Floats) (time : Time num) where
  open num use {of_signed, truncate, divide}
  open time use {seconds, minutes, hours}

  -- The floats of a duration that is not negative and has 63 bits: they never fall below a whole number
  -- that the duration reaches, and 53 bits of a float are exact up to a few microseconds.
  pub record IsTime : Type 0 where
    pub whole_seconds : (d : ℕ) → d < 2 ^ 63 → IsWhole d second (truncate (seconds (pos d)))
    pub whole_minutes : (d : ℕ) → d < 2 ^ 63 → IsWhole d minute (truncate (minutes (pos d)))
    pub whole_hours : (d : ℕ) → d < 2 ^ 63 → IsWhole d hour (truncate (hours (pos d)))
    pub whole_years :
        (d : ℕ)
        → d < 2 ^ 63
        → IsWhole d
            (hour * 24 * 365)
            (truncate (divide (divide (hours (pos d)) (of_signed (pos 24))) (of_signed (pos 365))))
