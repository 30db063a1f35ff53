-- ===== src/Validate/Names.antt =====
-- What the patterns of pkg/util/validate.go accept, described without patterns.
use mathlib.Core.Path.{subst}
use runai_cli.Prelude.{
  ℕ, String, len, ◌≤◌, true, List, [], ◌∷◌, ◌++◌, ◌≡◌, refl, ap, ◌↔◌, inl, inr, none, arith, codes,
  All, All-append,
}
use runai_cli.Regex.Language.{
  Matches, both, left, right, empty, one, seq_inv, opt_inv, cls_inv, star_cls, matches_iff,
}
use runai_cli.Validate.{is_alnum, is_label_char, dns1123_label, job_max_length, validate_job_name}

-- The first, and the last, element satisfies the predicate; there is one.
abbrev pub First : (ℕ → Type 0) → List ℕ → Type 0
First P [] = ⊥
First P (c ∷ w) = P c

abbrev pub Last : (ℕ → Type 0) → List ℕ → Type 0
Last P [] = ⊥
Last P (c ∷ []) = P c
Last P (c ∷ (d ∷ w)) = Last P (d ∷ w)

abbrev pub IsAlnum : ℕ → Type 0
IsAlnum c = is_alnum c ≡ true

-- A DNS-1123 label: lower case letters, digits and "-", with a letter or digit at both ends.
pub record IsLabel (w : List ℕ) : Type 0 where
  pub chars : All (λ c. is_label_char c ≡ true) w
  pub first : First IsAlnum w
  pub last : Last IsAlnum w

is_label_char_of_alnum : (c : ℕ) → is_alnum c ≡ true → is_label_char c ≡ true
unfolding is_label_char
is_label_char_of_alnum c h = ground arith

Last-append : (P : ℕ → Type 0) (u : List ℕ) (d : ℕ) → P d → Last P (u ++ d ∷ [])
Last-append P [] d h = h
Last-append P (c ∷ []) d h = h
Last-append P (c ∷ (e ∷ u)) d h = Last-append P (e ∷ u) d h

Last-cons : (P : ℕ → Type 0) (c : ℕ) (w : List ℕ) → Last P w → Last P (c ∷ w)
Last-cons P c [] h = absurd h
Last-cons P c (d ∷ w) h = h

-- A list that is not empty ends in an element.
unsnoc :
    (P : ℕ → Type 0) (c : ℕ) (w : List ℕ)
    → Last P (c ∷ w)
    → (u : List ℕ) × (d : ℕ) × (c ∷ w ≡ u ++ d ∷ []) × P d
unsnoc P c [] h = ([], c, refl, h)
unsnoc P c (e ∷ w) h = let (u, d, q, k) = unsnoc P e w h in (c ∷ u, d, ap (λ t. c ∷ t) q, k)

All-left : (P : ℕ → Type 0) (u v : List ℕ) → All P (u ++ v) → All P u
All-left P [] v h = tt
All-left P (c ∷ u) v h = (h.0, All-left P u v h.1)

single-IsLabel : (c : ℕ) {w : List ℕ} → w ≡ c ∷ [] → is_alnum c ≡ true → IsLabel w
single-IsLabel c e h =
    rw e (record { chars = (is_label_char_of_alnum c h, tt); first = h; last = h })

between-IsLabel :
    (c d : ℕ) (u : List ℕ) {w : List ℕ}
    → w ≡ c ∷ (u ++ d ∷ [])
    → is_alnum c ≡ true
    → is_alnum d ≡ true
    → All (λ x. is_label_char x ≡ true) u
    → IsLabel w
between-IsLabel c d u e h k us = rw e (record {
  chars = (is_label_char_of_alnum c h, All-append _ u (d ∷ []) us (is_label_char_of_alnum d k, tt));
  first = h;
  last = Last-cons IsAlnum c (u ++ d ∷ []) (Last-append IsAlnum u d k);
})

pub Matches-IsLabel : {w : List ℕ} → Matches dns1123_label w → IsLabel w
unfolding dns1123_label
Matches-IsLabel m =
    let (u, v, q, a, b) = seq_inv m in
    let (c, e, h) = cls_inv a in
    elim (opt_inv b) [
      | inl k ↦ single-IsLabel c (rw (q, e, k)) h
      | inr n ↦
          let (x, y, q', s, t) = seq_inv n in
          let (d, e', h') = cls_inv t in
          between-IsLabel c d x (rw (q, e, q', e')) h h' ((star_cls _ x).0 s)
    ]

pub IsLabel-Matches : (w : List ℕ) → IsLabel w → Matches dns1123_label w
unfolding dns1123_label
IsLabel-Matches [] h = absurd h.first
IsLabel-Matches (c ∷ []) h = both refl (one h.first) (left empty)
IsLabel-Matches (c ∷ (e ∷ w)) h =
    let (u, d, q, k) = unsnoc IsAlnum e w h.last in
    let us =
      All-left (λ x. is_label_char x ≡ true) u (d ∷ [])
        (subst (All (λ x. is_label_char x ≡ true)) q h.chars.1) in
    both {u = c ∷ []} refl (one h.first) (right (both q ((star_cls _ u).1 us) (one k)))

-- A job name is accepted exactly when it has at most 49 bytes and is a DNS-1123 label.
pub validate_job_name-IsLabel :
    (name : String)
    → (validate_job_name name ≡ none) ↔ ((len name ≤ job_max_length) × IsLabel (codes name))
unfolding validate_job_name
validate_job_name-IsLabel name =
    let decides = matches_iff dns1123_label (codes name) in
    (
      λ h. (ground arith, Matches-IsLabel (decides.0 (ground arith))),
      λ h. let e = decides.1 (IsLabel-Matches _ h.1) in ground arith,
    )
