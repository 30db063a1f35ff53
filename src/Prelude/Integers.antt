-- ===== src/Prelude/Integers.antt =====
-- Reading a decimal number back: `strconv.Atoi` on 64 bits.
use Prim.Native.Nat.{ℕ, zero, suc, ◌+◌, ◌-◌, ◌*◌, ◌/◌, ◌%◌, ◌^◌, ◌≤◌, ◌<◌}
use Prim.Native.Char.{code}
use Prim.Native.String
use Prim.Native.String.{String}
use mathlib.Core.Path.{◌≡◌, refl, ap, ◌∙◌, sym}
use mathlib.Core.Bool.{false, ◌&&◌}
use mathlib.Core.Logic.{◌≢◌, inl, inr}
use mathlib.Core.Option.{Option, none, some}
use native.Mathlib.Omega.{arith}
use text.Mathlib.TextLemmas.{nil-append, cons-append}
use runai_cli.Prelude.Tests.{ltb, leb, ◌==◌, if◌then◌else◌, Bool-cases}
use runai_cli.Prelude.Numbers.{ℤ, pos, negsuc, digit, decimal_from, decimal}

-- The digits of a text behind those that `acc` stands for.
unfoldable pub read_digits : ℕ → String → Option ℕ
read_digits acc String.[] = some acc
read_digits acc (String.◌∷◌ c s) =
    let rest = read_digits (acc * 10 + (code c - 48)) s in
    if leb 48 (code c) && leb (code c) 57 then rest else none

unfoldable pub read_number : String → Option ℕ
unfolding read_digits
read_number String.[] = none
read_number (String.◌∷◌ c s) = read_digits 0 (String.◌∷◌ c s)

abbrev pub in_range : Option ℕ → Option ℤ
in_range none = none
in_range (some n) = if ltb n (2 ^ 63) then some (pos n) else none

abbrev pub negated : Option ℕ → Option ℤ
negated none = none
negated (some zero) = some (pos 0)
negated (some (suc n)) = if ltb n (2 ^ 63) then some (negsuc n) else none

unfoldable pub atoi : String → Option ℤ
unfolding read_number
atoi String.[] = none
atoi (String.◌∷◌ c s) =
    if code c == 45
    then negated (read_number s)
    else if code c == 43
    then in_range (read_number s)
    else in_range (read_number (String.◌∷◌ c s))

abbrev then_read : Option ℕ → String → Option ℕ
then_read none s = none
then_read (some acc) s = read_digits acc s

read_digits-append :
    (a b : String) (acc : ℕ) → read_digits acc (String.◌++◌ a b) ≡ then_read (read_digits acc a) b
unfolding read_digits
read_digits-append String.[] b acc = rw nil-append
read_digits-append (String.◌∷◌ c a) b acc =
    rw cons-append (elim (Bool-cases (leb 48 (code c) && leb (code c) 57)) [
      | inl e ↦ rw e (read_digits-append a b (acc * 10 + (code c - 48)))
      | inr e ↦ rw e
    ])

read_digits-digit : (d acc : ℕ) → d < 10 → read_digits acc (digit d) ≡ some (acc * 10 + d)
unfolding read_digits
read_digits-digit zero acc h = refl
read_digits-digit (suc zero) acc h = refl
read_digits-digit (suc (suc zero)) acc h = refl
read_digits-digit (suc (suc (suc zero))) acc h = refl
read_digits-digit (suc (suc (suc (suc zero)))) acc h = refl
read_digits-digit (suc (suc (suc (suc (suc zero))))) acc h = refl
read_digits-digit (suc (suc (suc (suc (suc (suc zero)))))) acc h = refl
read_digits-digit (suc (suc (suc (suc (suc (suc (suc zero))))))) acc h = refl
read_digits-digit (suc (suc (suc (suc (suc (suc (suc (suc zero)))))))) acc h = refl
read_digits-digit (suc (suc (suc (suc (suc (suc (suc (suc (suc zero))))))))) acc h = refl
read_digits-digit (suc (suc (suc (suc (suc (suc (suc (suc (suc (suc d)))))))))) acc h =
    absurd (omega arith)

read_digits-decimal_from : (fuel n : ℕ) → n ≤ fuel → read_digits 0 (decimal_from fuel n) ≡ some n
unfolding decimal_from
read_digits-decimal_from zero n h =
    read_digits-digit (n % 10) 0 (omega arith) ∙ ap some (omega arith)
read_digits-decimal_from (suc fuel) n h = elim (Bool-cases (ltb n 10)) [
  | inl e ↦ rw e (read_digits-digit n 0 (ground arith) ∙ ap some (omega arith))
  | inr e ↦
      let small : n / 10 ≤ fuel = ground arith in
      rw e (
        read_digits-append (decimal_from fuel (n / 10)) (digit (n % 10)) 0
        ∙ ap (λ o. then_read o (digit (n % 10))) (read_digits-decimal_from fuel (n / 10) small)
        ∙ read_digits-digit (n % 10) (n / 10) (omega arith)
        ∙ ap some (omega arith))
]

digit-ne-empty : (d : ℕ) → d < 10 → ◌≢◌ {A = String} (digit d) ""
unfolding read_digits
digit-ne-empty d h e =
    let q : some 1 ≡ some (1 * 10 + d) = sym (ap (read_digits 1) e) ∙ read_digits-digit d 1 h in
    ground arith

append-ne-empty : (a b : String) → ◌≢◌ {A = String} b "" → ◌≢◌ {A = String} (String.◌++◌ a b) ""
append-ne-empty String.[] b h = rw nil-append h
append-ne-empty (String.◌∷◌ c a) b h = rw cons-append (λ e. cc)

decimal_from-ne-empty : (fuel n : ℕ) → ◌≢◌ {A = String} (decimal_from fuel n) ""
unfolding decimal_from
decimal_from-ne-empty zero n = digit-ne-empty (n % 10) (omega arith)
decimal_from-ne-empty (suc fuel) n = elim (Bool-cases (ltb n 10)) [
  | inl e ↦ rw e (digit-ne-empty n (ground arith))
  | inr e ↦ rw e (
      append-ne-empty (decimal_from fuel (n / 10)) (digit (n % 10))
        (digit-ne-empty (n % 10) (omega arith)))
]

atoi_digits :
    (s : String) (n : ℕ)
    → ◌≢◌ {A = String} s ""
    → read_digits 0 s ≡ some n
    → n < 2 ^ 63
    → atoi s ≡ some (pos n)
unfolding atoi read_digits
atoi_digits String.[] n h e small = absurd (h refl)
atoi_digits (String.◌∷◌ c s) n h e small = elim (Bool-cases (leb 48 (code c) && leb (code c) 57)) [
  | inl d ↦
      let minus : (code c == 45) ≡ false = ground arith in
      let plus : (code c == 43) ≡ false = ground arith in rw (minus, plus, e) (ground arith)
  | inr d ↦ cc (e, d)
]

-- What is printed in decimal is read back, if it fits into 63 bits.
pub atoi-decimal : (n : ℕ) → n < 2 ^ 63 → atoi (decimal n) ≡ some (pos n)
unfolding decimal
atoi-decimal n small =
    atoi_digits (decimal_from n n) n (decimal_from-ne-empty n n)
      (read_digits-decimal_from n n (omega arith)) small

pub read_digits-decimal : (n : ℕ) → read_digits 0 (decimal n) ≡ some n
unfolding decimal
read_digits-decimal n = read_digits-decimal_from n n (omega arith)

-- Numbers with the same decimal text are the same.
pub decimal-injective : (m n : ℕ) → decimal m ≡ decimal n → m ≡ n
decimal-injective m n e =
    let q = sym (read_digits-decimal m) ∙ ap (read_digits 0) e ∙ read_digits-decimal n in
    ground arith
