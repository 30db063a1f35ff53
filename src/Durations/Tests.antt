-- ===== src/Durations/Tests.antt =====
-- Printed durations, with floats that are whole numbers.
use Prim.Native.Nat.{ℕ, ◌/◌, ◌+◌, ◌*◌}
use runai_cli.Prelude.{
  ℤ, pos, negsuc, some, true, false, if◌then◌else◌, decimal, quotient, ◌==◌, ◌≡◌, refl,
}
use runai_cli.Trainer.Amounts.{Floats}
use runai_cli.Durations.{Time, by_hours, by_minutes, by_seconds, short_human_duration}
use runai_cli.Durations.Read.{second, minute, hour}

abbrev magnitude : ℤ → ℕ
magnitude (pos n) = n
magnitude (negsuc n) = n + 1

abbrev over : ℤ → ℤ → ℤ
over (pos a) (pos b) = pos (a / b)
over a b = pos 0

abbrev whole : Floats
whole = record {
  Float = ℤ;
  zero_float = pos 0;
  plus = λ x y. pos (magnitude x + magnitude y);
  times = λ x y. pos (magnitude x * magnitude y);
  of_int = pos;
  is_zero = λ x. magnitude x == 0;
  parse_float = λ text. some (pos 0);
  of_signed = λ x. x;
  truncate = λ x. x;
  divide = over;
  is_positive = λ x. elim x [ pos n ↦ if n == 0 then false else true | negsuc n ↦ false ];
}

abbrev clock : Time whole
clock = record {
  seconds = λ d. quotient d second;
  minutes = λ d. quotient d minute;
  hours = λ d. quotient d hour;
}

prints :
    (short_human_duration whole clock (pos 59000000000) ≡ "59s")
    × (short_human_duration whole clock (pos 3599000000000) ≡ "59m")
    × (short_human_duration whole clock (pos 86400000000000) ≡ "1d")
    × (short_human_duration whole clock (pos 31536000000000000) ≡ "1y")
    × (short_human_duration whole clock (negsuc 0) ≡ "0s")
    × (short_human_duration whole clock (negsuc 999999999) ≡ "0s")
    × (short_human_duration whole clock (negsuc 1999999999) ≡ "<invalid>")
unfolding short_human_duration by_seconds by_minutes by_hours decimal quotient
prints = (refl, refl, refl, refl, refl, refl, refl)
