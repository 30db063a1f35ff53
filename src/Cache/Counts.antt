-- ===== src/Cache/Counts.antt =====
-- Sums over the first callers, and what a step of one caller does to them.
use runai_cli.Prelude.{
  ℕ, zero, suc, ◌+◌, ◌<◌, ◌≤◌, ◌==◌, ◌≡◌, ◌≢◌, refl, sym, ◌⊎◌, inl, inr, Bool-cases, ==_iff, arith,
}
use mathlib.Core.Path.{subst}
use runai_cli.Cache.{Caller, asked, called, fetches, sends, waits, reads, answered, put}

-- The steps that a caller can still take.
abbrev pub left_of : {V : Type 0} → Caller V → ℕ
left_of asked = 4
left_of called = 3
left_of fetches = 2
left_of (sends n v) = 1
left_of waits = 1
left_of reads = 1
left_of (answered a) = 0

abbrev pub waiting : {V : Type 0} → Caller V → ℕ
waiting waits = 1
waiting c = 0

module _ {V : Type 0} where
  put-cases :
      (i j : ℕ) (c : Caller V) (callers : ℕ → Caller V)
      → ((j ≡ i) × (put i c callers j ≡ c)) ⊎ ((j ≢ i) × (put i c callers j ≡ callers j))
  put-cases i j c callers = elim (Bool-cases (j == i)) [
    | inl e ↦ inl ((==_iff j i).0 e, rw e refl)
    | inr o ↦ inr (λ q. ground (arith, ==_iff j i), rw o refl)
  ]

  unfoldable pub total : (Caller V → ℕ) → ℕ → (ℕ → Caller V) → ℕ
  total f zero callers = 0
  total f (suc n) callers = f (callers n) + total f n callers

  total-put-outside :
      (f : Caller V → ℕ) (n i : ℕ) (c : Caller V) (callers : ℕ → Caller V)
      → n ≤ i
      → total f n (put i c callers) ≡ total f n callers
  unfolding total
  total-put-outside f zero i c callers h = refl
  total-put-outside f (suc n) i c callers h = elim (put-cases i n c callers) [
    | inl (q, e) ↦ absurd (omega arith)
    | inr (q, e) ↦ rw (e, total-put-outside f n i c callers (omega arith)) refl
  ]

  pub total-put :
      (f : Caller V → ℕ) (n i : ℕ) (c old : Caller V) (callers : ℕ → Caller V)
      → i < n
      → callers i ≡ old
      → total f n (put i c callers) + f old ≡ total f n callers + f c
  unfolding total
  total-put f zero i c old callers h e = absurd (omega arith)
  total-put f (suc n) i c old callers h e = elim (put-cases i n c callers) [
    | inl (q, p) ↦
        let o : callers n ≡ old = rw q e in
        let rest = total-put-outside f n i c callers (omega arith) in rw (p, rest, o) (omega arith)
    | inr (q, p) ↦ let rest = total-put f n i c old callers (omega arith) e in rw p (omega arith)
  ]

  -- All of the first callers, and all of them but one.
  abbrev pub All : (Caller V → Type 0) → ℕ → (ℕ → Caller V) → Type 0
  All P n callers = (j : ℕ) → j < n → P (callers j)

  abbrev pub Others : (Caller V → Type 0) → ℕ → ℕ → (ℕ → Caller V) → Type 0
  Others P n w callers = (j : ℕ) → j < n → j ≢ w → P (callers j)

  pub All-put :
      (P : Caller V → Type 0) (n i : ℕ) (c : Caller V) {callers : ℕ → Caller V}
      → P c
      → Others P n i callers
      → All P n (put i c callers)
  All-put P n i c {callers} p h j small = elim (put-cases i j c callers) [
    | inl (q, e) ↦ subst P (sym e) p
    | inr (o, e) ↦ subst P (sym e) (h j small o)
  ]

  pub Others-put :
      (P : Caller V → Type 0) (n w i : ℕ) (c : Caller V) {callers : ℕ → Caller V}
      → P c
      → Others P n w callers
      → Others P n w (put i c callers)
  Others-put P n w i c {callers} p h j small other = elim (put-cases i j c callers) [
    | inl (q, e) ↦ subst P (sym e) p
    | inr (o, e) ↦ subst P (sym e) (h j small other)
  ]

  pub Others-put_self :
      (P : Caller V → Type 0) (n w : ℕ) (c : Caller V) {callers : ℕ → Caller V}
      → Others P n w callers
      → Others P n w (put w c callers)
  Others-put_self P n w c {callers} h j small other = elim (put-cases w j c callers) [
    | inl (q, e) ↦ absurd (other q)
    | inr (o, e) ↦ subst P (sym e) (h j small other)
  ]

  pub put_self : (i : ℕ) (c : Caller V) (callers : ℕ → Caller V) → put i c callers i ≡ c
  put_self i c callers = rw ((==_iff i i).1 refl) refl

  pub put-other :
      (i j : ℕ) (c : Caller V) (callers : ℕ → Caller V) → j ≢ i → put i c callers j ≡ callers j
  put-other i j c callers o = elim (put-cases i j c callers) [
    | inl (q, e) ↦ absurd (o q)
    | inr (_, e) ↦ e
  ]

  -- Where nobody waits in total, nobody waits.
  pub total-none :
      (n i : ℕ) (callers : ℕ → Caller V) → i < n → total waiting n callers ≡ 0 → callers i ≢ waits
  total-none n i callers small z e =
      let h = total-put waiting n i asked waits callers small e in omega arith
