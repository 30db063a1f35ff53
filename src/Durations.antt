-- ===== src/Durations.antt =====
-- `ShortHumanDuration` of pkg/util/duration.go. A duration is a number of nanoseconds, and its hours,
-- minutes and seconds are floats that the standard library computes from it.
pub mod Read
mod Tests
use Prim.Native.String
use runai_cli.Prelude.{
  ℕ, zero, suc, ◌*◌, ℤ, pos, negsuc, String, Bool, true, ltb, decimal, quotient, if◌then◌else◌,
}
use runai_cli.Trainer.Amounts.{Floats}

-- `Seconds`, `Minutes` and `Hours` of `time.Duration`.
pub record Time (num : Floats) : Type 0 where
  pub seconds : ℤ → num.Float
  pub minutes : ℤ → num.Float
  pub hours : ℤ → num.Float

abbrev pub below : ℤ → ℕ → Bool
below (pos n) limit = ltb n limit
below (negsuc n) limit = true

abbrev pub with_unit : ℤ → String → String
with_unit (pos n) unit = String.◌++◌ (decimal n) unit
with_unit (negsuc n) unit = String.◌++◌ "-" (String.◌++◌ (decimal (suc n)) unit)

module _ (num : Floats) (time : Time num) where
  open num use {of_signed, truncate, divide}
  open time use {seconds, minutes, hours}

  -- From the whole hours of a duration of at least an hour.
  unfoldable pub by_hours : ℤ → ℤ → String
  unfolding decimal quotient
  by_hours d whole =
      if below whole 24
      then with_unit whole "h"
      else if below whole (24 * 365)
      then with_unit (quotient whole 24) "d"
      else with_unit
          (truncate (divide (divide (hours d) (of_signed (pos 24))) (of_signed (pos 365)))) "y"

  unfoldable pub by_minutes : ℤ → ℤ → String
  unfolding by_hours decimal
  by_minutes d whole =
      if below whole 60 then with_unit whole "m" else by_hours d (truncate (hours d))

  -- From the whole seconds: an error of less than 2 seconds of the clock is passed over.
  unfoldable pub by_seconds : ℤ → ℤ → String
  unfolding by_minutes decimal
  by_seconds d (negsuc (suc n)) = "<invalid>"
  by_seconds d (negsuc zero) = "0s"
  by_seconds d (pos n) =
      if ltb n 60 then with_unit (pos n) "s" else by_minutes d (truncate (minutes d))

  unfoldable pub short_human_duration : ℤ → String
  unfolding by_seconds
  short_human_duration d = by_seconds d (truncate (seconds d))
