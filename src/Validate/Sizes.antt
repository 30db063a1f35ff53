-- ===== src/Validate/Sizes.antt =====
-- What sizes and storage classes pkg/util/validate.go accepts, described without patterns.
use mathlib.Core.Path.{subst}
use runai_cli.Prelude.{
  ℕ, String, Bool, true, List, [], ◌∷◌, ◌++◌, ◌≡◌, ◌≢◌, refl, sym, ◌↔◌, ◌⊎◌, inl, inr, none, arith,
  codes, All, str_eq, eq_iff, Bool-cases,
}
use runai_cli.Regex.{cls, opt, plus}
use runai_cli.Regex.Language.{
  Matches, both, left, right, empty, one, seq_inv, opt_inv, cls_inv, star_cls, matches_iff,
}
use runai_cli.Validate.{
  is_sign, is_amount_char, is_unit_char, is_digit, dns1123_label, resource_request,
  validate_storage_class_name, validate_storage_resource_request,
}
use runai_cli.Validate.Names.{IsLabel, Matches-IsLabel, IsLabel-Matches}

abbrev pub AllIn : (ℕ → Bool) → List ℕ → Type 0
AllIn p w = All (λ c. p c ≡ true) w

-- At most one character, of this kind.
abbrev pub IsOptional : (ℕ → Bool) → List ℕ → Type 0
IsOptional p w = (w ≡ []) ⊎ ((c : ℕ) × (w ≡ c ∷ []) × (p c ≡ true))

-- A sign or none, digits and dots, letters of a unit, a sign or none, and digits; only the digits and
-- dots must be there.
pub record IsSize (w : List ℕ) : Type 0 where
  pub sign : List ℕ
  pub amount : List ℕ
  pub unit : List ℕ
  pub sign_behind : List ℕ
  pub digits : List ℕ
  pub parts : w ≡ (sign ++ amount) ++ (unit ++ (sign_behind ++ digits))
  pub signed : IsOptional is_sign sign
  pub some_amount : (amount ≢ []) × AllIn is_amount_char amount
  pub of_unit : AllIn is_unit_char unit
  pub signed_behind : IsOptional is_sign sign_behind
  pub of_digits : AllIn is_digit digits

-- The class is left out or a DNS-1123 label.
abbrev pub IsClass : String → Type 0
IsClass class = (class ≡ "") ⊎ IsLabel (codes class)

opt_cls : (p : ℕ → Bool) (w : List ℕ) → Matches (opt (cls p)) w ↔ IsOptional p w
opt_cls p w = (
  λ m. elim (opt_inv m) [ inl e ↦ inl e | inr n ↦ inr (cls_inv n) ],
  λ h. elim h [
    | inl e ↦ subst (Matches (opt (cls p))) (sym e) (left empty)
    | inr (c, e, k) ↦ subst (Matches (opt (cls p))) (sym e) (right (one k))
  ],
)

plus_cls_sound : (p : ℕ → Bool) (w : List ℕ) → Matches (plus (cls p)) w → (w ≢ []) × AllIn p w
plus_cls_sound p w m =
    let (u, v, q, a, b) = seq_inv m in
    let (c, e, h) = cls_inv a in rw (q, e) (λ k. cc k, (h, (star_cls p v).0 b))

plus_cls_complete : (p : ℕ → Bool) (w : List ℕ) → w ≢ [] → AllIn p w → Matches (plus (cls p)) w
plus_cls_complete p [] n h = absurd (n refl)
plus_cls_complete p (c ∷ w) n h = both {u = c ∷ []} refl (one h.0) ((star_cls p w).1 h.1)

Matches-IsSize : {w : List ℕ} → Matches resource_request w → IsSize w
unfolding resource_request
Matches-IsSize m =
    let (before, behind, q, m1, m2) = seq_inv m in
    let (sign, amount, q1, a, b) = seq_inv m1 in
    let (unit, last, q2, c, m3) = seq_inv m2 in
    let (sign_behind, digits, q3, d, e) = seq_inv m3 in
    record {
      sign = sign;
      amount = amount;
      unit = unit;
      sign_behind = sign_behind;
      digits = digits;
      parts = rw (q, q1, q2, q3) refl;
      signed = (opt_cls is_sign sign).0 a;
      some_amount = plus_cls_sound is_amount_char amount b;
      of_unit = (star_cls is_unit_char unit).0 c;
      signed_behind = (opt_cls is_sign sign_behind).0 d;
      of_digits = (star_cls is_digit digits).0 e;
    }

IsSize-Matches : {w : List ℕ} → IsSize w → Matches resource_request w
unfolding resource_request
IsSize-Matches h =
    both h.parts
      (both refl ((opt_cls is_sign h.sign).1 h.signed)
        (plus_cls_complete is_amount_char h.amount h.some_amount.0 h.some_amount.1))
      (both refl ((star_cls is_unit_char h.unit).1 h.of_unit) (
        both refl ((opt_cls is_sign h.sign_behind).1 h.signed_behind)
          ((star_cls is_digit h.digits).1 h.of_digits)))

pub validate-IsSize_iff :
    (size : String) → (validate_storage_resource_request size ≡ none) ↔ IsSize (codes size)
unfolding validate_storage_resource_request
validate-IsSize_iff size =
    let decides = matches_iff resource_request (codes size) in
    (
      λ h. Matches-IsSize (decides.0 (ground arith)),
      λ h. let e = decides.1 (IsSize-Matches h) in ground arith,
    )

pub validate-IsClass_iff :
    (class : String) → (validate_storage_class_name class ≡ none) ↔ IsClass class
unfolding validate_storage_class_name
validate-IsClass_iff class =
    let decides = matches_iff dns1123_label (codes class) in
    elim (Bool-cases (str_eq class "")) [
      | inl e ↦ rw e (λ h. inl ((eq_iff class "").0 e), λ h. refl)
      | inr e ↦ rw e (
        λ h. inr (Matches-IsLabel (decides.0 (ground arith))),
        λ h. elim h [
          | inl q ↦ absurd (cc (e, (eq_iff class "").1 q))
          | inr label ↦ let k = decides.1 (IsLabel-Matches _ label) in ground arith
        ],
      )
    ]
