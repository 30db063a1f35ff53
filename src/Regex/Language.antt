-- ===== src/Regex/Language.antt =====
-- The language of a pattern as a relation, and the matcher decides it.
use runai_cli.Prelude.{
  ℕ, Bool, true, List, [], ◌∷◌, ◌++◌, ◌≡◌, refl, sym, ap, ◌∙◌, ◌↔◌, ◌⊎◌, inl, inr, arith,
  Bool-cases, All,
}
use runai_cli.Regex.{Regex, fail, eps, cls, alt, seq, star, opt, null, deriv, matches}

-- A repetition takes at least one code point a round.
pub data Matches : Regex → List ℕ → Type 0 where
  empty : Matches eps []
  one : {p : ℕ → Bool} {c : ℕ} → p c ≡ true → Matches (cls p) (c ∷ [])
  left : {r s : Regex} {w : List ℕ} → Matches r w → Matches (alt r s) w
  right : {r s : Regex} {w : List ℕ} → Matches s w → Matches (alt r s) w
  both :
      {r s : Regex} {u v w : List ℕ} → w ≡ u ++ v → Matches r u → Matches s v → Matches (seq r s) w
  done : {r : Regex} → Matches (star r) []
  round :
      {r : Regex} {c : ℕ} {u v w : List ℕ}
      → w ≡ c ∷ (u ++ v)
      → Matches r (c ∷ u)
      → Matches (star r) v
      → Matches (star r) w

append-eq-nil : (u v : List ℕ) → [] ≡ u ++ v → (u ≡ []) × (v ≡ [])
append-eq-nil [] v e = (refl, sym e)
append-eq-nil (c ∷ u) v e = cc

to_nil : {r : Regex} {w : List ℕ} → w ≡ [] → Matches r w → Matches r []
to_nil e m = rw e at m

null_complete : (r : Regex) {w : List ℕ} → w ≡ [] → Matches r w → null r ≡ true
unfolding null
null_complete r e empty = refl
null_complete r e (one h) = cc
null_complete (alt r s) e (left m) = ground (arith, null_complete r e m)
null_complete (alt r s) e (right m) = ground (arith, null_complete s e m)
null_complete (seq r s) {w} e (both {u = u} {v = v} q m n) =
    let k = append-eq-nil u v (sym e ∙ q) in
    ground (arith, null_complete r k.0 m, null_complete s k.1 n)
null_complete r e done = refl
null_complete r e (round q m n) = cc

null_sound : (r : Regex) → null r ≡ true → Matches r []
unfolding null
null_sound fail h = cc
null_sound eps h = empty
null_sound (cls p) h = cc
null_sound (alt r s) h = elim (Bool-cases (null r)) [
  | inl e ↦ left (null_sound r e)
  | inr e ↦ right (null_sound s (ground arith))
]
null_sound (seq r s) h = both refl (null_sound r (ground arith)) (null_sound s (ground arith))
null_sound (star r) h = done

alt_inv : {r s : Regex} {w : List ℕ} → Matches (alt r s) w → Matches r w ⊎ Matches s w
alt_inv (left m) = inl m
alt_inv (right m) = inr m

pub seq_inv :
    {r s : Regex} {w : List ℕ}
    → Matches (seq r s) w
    → (u : List ℕ) × (v : List ℕ) × (w ≡ u ++ v) × Matches r u × Matches s v
seq_inv (both {u = u} {v = v} q m n) = (u, v, q, m, n)

eps_inv : {w : List ℕ} → Matches eps w → w ≡ []
eps_inv empty = refl

fail_inv : {w : List ℕ} → Matches fail w → ⊥
fail_inv m = elim m [ ]

deriv_sound : (c : ℕ) (r : Regex) {w : List ℕ} → Matches (deriv c r) w → Matches r (c ∷ w)
unfolding deriv
deriv_sound c fail m = absurd (fail_inv m)
deriv_sound c eps m = absurd (fail_inv m)
deriv_sound c (cls p) m = elim (Bool-cases (p c)) [
  | inl h ↦ rw (eps_inv (rw h at m)) (one h)
  | inr h ↦ absurd (fail_inv (rw h at m))
]
deriv_sound c (alt r s) m = elim (alt_inv m) [
  | inl k ↦ left (deriv_sound c r k)
  | inr k ↦ right (deriv_sound c s k)
]
deriv_sound c (seq r s) {w} m =
    let first : Matches (seq (deriv c r) s) w → Matches (seq r s) (c ∷ w) =
      λ k. let (u, v, q, a, b) = seq_inv k in both (ap (λ t. c ∷ t) q) (deriv_sound c r a) b in
    elim (Bool-cases (null r)) [
      | inl h ↦ elim (alt_inv (rw h at m)) [
        | inl k ↦ first k
        | inr k ↦ both refl (null_sound r h) (deriv_sound c s k)
      ]
      | inr h ↦ first (rw h at m)
    ]
deriv_sound c (star r) m =
    let (u, v, q, a, b) = seq_inv m in round (ap (λ t. c ∷ t) q) (deriv_sound c r a) b

list_cases : (u : List ℕ) → (u ≡ []) ⊎ ((d : ℕ) × (u' : List ℕ) × (u ≡ d ∷ u'))
list_cases [] = inl refl
list_cases (d ∷ u) = inr (d, u, refl)

same_head : {c d : ℕ} {u t : List ℕ} → d ∷ u ≡ c ∷ t → d ≡ c
same_head e = cc

same_tail : {c d : ℕ} {u t : List ℕ} → d ∷ u ≡ c ∷ t → u ≡ t
same_tail e = cc

deriv_complete :
    (c : ℕ) (r : Regex) {w : List ℕ} (t : List ℕ) → w ≡ c ∷ t → Matches r w → Matches (deriv c r) t
unfolding deriv
deriv_complete c r t e empty = cc
deriv_complete c r t e (one {p = p} h) = rw (← same_tail e) (rw (← same_head e, h) empty)
deriv_complete c (alt r s) t e (left m) = left (deriv_complete c r t e m)
deriv_complete c (alt r s) t e (right m) = right (deriv_complete c s t e m)
deriv_complete c (seq r s) t e (both {u = u} {v = v} q m n) = elim (list_cases u) [
  | inl k ↦
      let rest = deriv_complete c s t (ap (λ x. x ++ v) (sym k) ∙ sym q ∙ e) n in
      rw (null_complete r k m) (right rest)
  | inr (d, u', k) ↦
      let q' : d ∷ (u' ++ v) ≡ c ∷ t = ap (λ x. x ++ v) (sym k) ∙ sym q ∙ e in
      let now : Matches (seq (deriv c r) s) t =
        both (sym (same_tail q')) (deriv_complete c r u' (rw (← same_head q') k) m) n in
      elim (Bool-cases (null r)) [ inl h ↦ rw h (left now) | inr h ↦ rw h now ]
]
deriv_complete c r t e done = cc
deriv_complete c (star r) t e (round {u = u} q m n) =
    let q' = sym q ∙ e in
    both (sym (same_tail q')) (deriv_complete c r u (rw (same_head q') refl) m) n

-- The matcher accepts exactly the texts of the pattern's language.
pub matches_iff : (r : Regex) (w : List ℕ) → (matches r w ≡ true) ↔ Matches r w
unfolding matches
matches_iff r [] = (null_sound r, null_complete r refl)
matches_iff r (c ∷ w) =
    let ih = matches_iff (deriv c r) w in
    (λ h. deriv_sound c r (ih.0 h), λ m. ih.1 (deriv_complete c r w refl m))

-- Languages of the shapes that the patterns use.
pub cls_inv :
    {p : ℕ → Bool} {w : List ℕ} → Matches (cls p) w → (c : ℕ) × (w ≡ c ∷ []) × (p c ≡ true)
cls_inv (one {c = c} h) = (c, refl, h)

pub opt_inv : {r : Regex} {w : List ℕ} → Matches (opt r) w → (w ≡ []) ⊎ Matches r w
opt_inv (left m) = inl (eps_inv m)
opt_inv (right m) = inr m

star_cls_sound : {p : ℕ → Bool} {w : List ℕ} → Matches (star (cls p)) w → All (λ c. p c ≡ true) w
star_cls_sound done = tt
star_cls_sound (round q m n) =
    let (d, e, h) = cls_inv m in rw (q, same_tail e) (rw (same_head e) h, star_cls_sound n)

star_cls_complete : (p : ℕ → Bool) (w : List ℕ) → All (λ c. p c ≡ true) w → Matches (star (cls p)) w
star_cls_complete p [] h = done
star_cls_complete p (c ∷ w) h = round refl (one h.0) (star_cls_complete p w h.1)

pub star_cls : (p : ℕ → Bool) (w : List ℕ) → Matches (star (cls p)) w ↔ All (λ c. p c ≡ true) w
star_cls p w = (star_cls_sound, star_cls_complete p w)
