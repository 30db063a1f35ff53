-- ===== src/Workflow/Names.antt =====
-- Names with a generated suffix tell their base and their index.
use Prim.Native.Nat.{ℕ, ◌+◌, ◌-◌, ◌*◌}
use Prim.Native.Char.{Char, code}
use Prim.Native.String
use mathlib.Core.Path.{subst}
use text.Mathlib.TextLemmas.{nil-append, cons-append}
use runai_cli.Prelude.{
  String, true, ◌&&◌, some, leb, decimal, decimal-injective, read_digits, read_digits-decimal,
  Lacks, ◌≡◌, refl, sym, ap, ◌∙◌, inl, inr, Bool-cases, arith,
}
use runai_cli.Workflow.{get_config_map_name}

-- A text that is read as a number holds no dash.
read_digits-Lacks : (s : String) (acc : ℕ) {n : ℕ} → read_digits acc s ≡ some n → Lacks 45 s
unfolding read_digits
read_digits-Lacks String.[] acc e = tt
read_digits-Lacks (String.◌∷◌ c s) acc e = elim (Bool-cases (leb 48 (code c) && leb (code c) 57)) [
  | inl d ↦ (ground arith, read_digits-Lacks s (acc * 10 + (code c - 48)) (sym (rw d refl) ∙ e))
  | inr d ↦ absurd (cc (e, d))
]

decimal-Lacks : (n : ℕ) → Lacks 45 (decimal n)
decimal-Lacks n = read_digits-Lacks (decimal n) 0 (read_digits-decimal n)

abbrev suffixed : String → String → String
suffixed base digits = String.◌++◌ base (String.◌++◌ "-" digits)

suffixed-cons :
    (c : Char) (base digits : String)
    → suffixed (String.◌∷◌ c base) digits ≡ String.◌∷◌ c (suffixed base digits)
suffixed-cons c base digits = cons-append c base _

abbrev dash : Char
dash = "-"

suffixed-nil : (digits : String) → suffixed "" digits ≡ String.◌∷◌ dash digits
suffixed-nil digits =
    nil-append _ ∙ cons-append dash "" digits ∙ ap (String.◌∷◌ dash) (nil-append digits)

not_Lacks : (base digits : String) → Lacks 45 (suffixed base digits) → ⊥
not_Lacks String.[] digits h = absurd (let k = subst (Lacks 45) (suffixed-nil digits) h in cc k.0)
not_Lacks (String.◌∷◌ c base) digits h =
    not_Lacks base digits (subst (Lacks 45) (suffixed-cons c base digits) h).1

suffixed-injective :
    (a b d e : String) → Lacks 45 d → Lacks 45 e → suffixed a d ≡ suffixed b e → (a ≡ b) × (d ≡ e)
suffixed-injective String.[] String.[] d e hd he q =
    let k = sym (suffixed-nil d) ∙ q ∙ suffixed-nil e in (refl, cc)
suffixed-injective String.[] (String.◌∷◌ c b) d e hd he q =
    let k = sym (suffixed-nil d) ∙ q ∙ suffixed-cons c b e in
    let same : d ≡ suffixed b e = cc in absurd (not_Lacks b e (subst (Lacks 45) same hd))
suffixed-injective (String.◌∷◌ c a) String.[] d e hd he q =
    let k = sym (suffixed-cons c a d) ∙ q ∙ suffixed-nil e in
    let same : e ≡ suffixed a d = cc in absurd (not_Lacks a d (subst (Lacks 45) same he))
suffixed-injective (String.◌∷◌ c a) (String.◌∷◌ g b) d e hd he q =
    let k = sym (suffixed-cons c a d) ∙ q ∙ suffixed-cons g b e in
    let first : c ≡ g = cc in
    let rest : suffixed a d ≡ suffixed b e = cc in
    let (x, y) = suffixed-injective a b d e hd he rest in ((λ i. String.◌∷◌ (first i) (x i)), y)

-- Two generated names are the same only for the same base name and the same index.
pub get_config_map_name-injective :
    (a b : String) (i j : ℕ)
    → get_config_map_name a i true ≡ get_config_map_name b j true
    → (a ≡ b) × (i ≡ j)
unfolding get_config_map_name
get_config_map_name-injective a b i j q =
    let (x, y) =
      suffixed-injective a b (decimal i) (decimal j) (decimal-Lacks i) (decimal-Lacks j) q in
    (x, decimal-injective i j y)
