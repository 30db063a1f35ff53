-- ===== src/Ports/Free.antt =====
-- Which port is picked.
use runai_cli.Prelude.{
  ℕ, zero, suc, ◌+◌, ◌≤◌, ◌<◌, Bool, true, false, Option, none, some, List, [], ◌∷◌, ◌++◌, ltb,
  ◌==◌, ==_iff, any_iff, ◌≡◌, ◌↔◌, inl, inr, refl, sym, ap, ◌∙◌, arith, Any, Elem,
  Elem-append_right, Elem-append_left, Bool-cases,
}
use mathlib.Core.Path.{subst}
use runai_cli.Ports.{
  Answers, none_available, not_listed, Selected, port, failed, auto_select_port_min,
  auto_select_port_max, init_k8s_cluster_used_port, is_port_in_used, select_loop, take_port,
  when_listed, select_available_port,
}

Any-Elem : (p : ℕ) (used : List ℕ) → Any (λ u. (p == u) ≡ true) used ↔ Elem p used
Any-Elem p [] = (λ h. h, λ h. h)
Any-Elem p (u ∷ used) = (
  elim [ inl e ↦ inl ((==_iff p u).0 e) | inr h ↦ inr ((Any-Elem p used).0 h) ],
  elim [ inl e ↦ inl ((==_iff p u).1 e) | inr h ↦ inr ((Any-Elem p used).1 h) ],
)

is_port_in_used_iff : (used : List ℕ) (p : ℕ) → (is_port_in_used used p ≡ true) ↔ Elem p used
unfolding is_port_in_used
is_port_in_used_iff used p = (
  λ h. (Any-Elem p used).0 ((any_iff (λ u. p == u) used).0 h),
  λ h. (any_iff (λ u. p == u) used).1 ((Any-Elem p used).1 h),
)

-- A port from `low` on, below the limit, that is free, and below which all from `low` on are used.
abbrev pub IsFirstFree : List ℕ → ℕ → ℕ → Type 0
IsFirstFree used low p =
    (low ≤ p)
    × (p < auto_select_port_max)
    × ¬ (Elem p used)
    × ((q : ℕ) → low ≤ q → q < p → Elem q used)

abbrev pub AllUsed : List ℕ → ℕ → Type 0
AllUsed used low = (q : ℕ) → low ≤ q → q < auto_select_port_max → Elem q used

abbrev pub IsFound : List ℕ → ℕ → Option ℕ → Type 0
IsFound used low none = AllUsed used low
IsFound used low (some p) = IsFirstFree used low p

next-IsFound :
    (used : List ℕ) (low : ℕ) (o : Option ℕ)
    → Elem low used
    → IsFound used (low + 1) o
    → IsFound used low o
next-IsFound used low none e h = λ q a b. elim (Bool-cases (q == low)) [
  | inl k ↦ subst (λ t. Elem t used) (sym ((==_iff q low).0 k)) e
  | inr k ↦ h q (ground arith) b
]
next-IsFound used low (some p) e (a, b, free, below) = (
  omega arith,
  b,
  free,
  λ q c d. elim (Bool-cases (q == low)) [
    | inl k ↦ subst (λ t. Elem t used) (sym ((==_iff q low).0 k)) e
    | inr k ↦ below q (ground arith) d
  ],
)

module _ (used : List ℕ) (fuel p : ℕ) where
  select_loop_end : ltb p auto_select_port_max ≡ false → select_loop used (suc fuel) p ≡ none
  unfolding select_loop
  select_loop_end above = rw (above, select_loop)

  select_loop_used :
      ltb p auto_select_port_max ≡ true
      → is_port_in_used used p ≡ true
      → select_loop used (suc fuel) p ≡ select_loop used fuel (p + 1)
  unfolding select_loop
  select_loop_used below taken = rw (below, taken, select_loop)

  select_loop_free :
      ltb p auto_select_port_max ≡ true
      → is_port_in_used used p ≡ false
      → select_loop used (suc fuel) p ≡ some p
  unfolding select_loop
  select_loop_free below free = rw (below, free, select_loop)

select_loop-zero : (used : List ℕ) (p : ℕ) → select_loop used zero p ≡ none
unfolding select_loop
select_loop-zero used p = refl

IsFound-none : (used : List ℕ) (p : ℕ) → auto_select_port_max ≤ p → IsFound used p none
IsFound-none used p h = λ q a b. absurd (omega arith)

select_loop-IsFound :
    (used : List ℕ) (fuel p : ℕ)
    → auto_select_port_max ≤ p + fuel
    → IsFound used p (select_loop used fuel p)
select_loop-IsFound used zero p h =
    subst (IsFound used p) (sym (select_loop-zero used p)) (IsFound-none used p (omega arith))
select_loop-IsFound used (suc fuel) p h = elim (Bool-cases (ltb p auto_select_port_max)) [
  | inr above ↦
      subst (IsFound used p) (sym (select_loop_end used fuel p above))
        (IsFound-none used p (ground arith))
  | inl below ↦ elim (Bool-cases (is_port_in_used used p)) [
    | inl taken ↦ subst (IsFound used p) (sym (select_loop_used used fuel p below taken)) (
        next-IsFound used p _ ((is_port_in_used_iff used p).0 taken)
          (select_loop-IsFound used fuel (p + 1) (omega arith)))
    | inr free ↦ subst (IsFound used p) (sym (select_loop_free used fuel p below free)) (
      omega arith,
      ground arith,
      λ e. cc ((is_port_in_used_iff used p).1 e, free),
      λ q a b. absurd (omega arith),
    )
  ]
]

-- What a call makes of the ports that are known to be used.
abbrev pub IsSelected : List ℕ × Bool → List ℕ × Selected → Type 0
IsSelected (now, false) result = result ≡ (now, failed not_listed)
IsSelected (now, true) (after, port p) =
    (after ≡ now ++ p ∷ []) × IsFirstFree now auto_select_port_min p
IsSelected (now, true) (after, failed e) =
    (after ≡ now) × (e ≡ none_available) × AllUsed now auto_select_port_min

take_port-IsSelected :
    (now : List ℕ) (o : Option ℕ)
    → IsFound now auto_select_port_min o
    → IsSelected (now, true) (take_port now o)
take_port-IsSelected now none h = (refl, refl, h)
take_port-IsSelected now (some p) h = (refl, h)

when_listed-IsSelected : (state : List ℕ × Bool) → IsSelected state (when_listed state)
when_listed-IsSelected (now, false) = refl
when_listed-IsSelected (now, true) =
    take_port-IsSelected now _ (select_loop-IsFound now _ auto_select_port_min (omega arith))

-- With the used ports read from the cluster if none were known, a call picks the first port from
-- 20000 to 29999 that is not used and adds it to the used ones; it fails where all of these are used,
-- and where the cluster did not answer.
pub select_available_port-IsSelected :
    (answers : Answers) (used : List ℕ)
    → IsSelected (init_k8s_cluster_used_port answers used) (select_available_port answers used)
unfolding select_available_port
select_available_port-IsSelected answers used =
    when_listed-IsSelected (init_k8s_cluster_used_port answers used)

pub init-cons :
    (answers : Answers) (p : ℕ) (used : List ℕ)
    → init_k8s_cluster_used_port answers (p ∷ used) ≡ (p ∷ used, true)
unfolding init_k8s_cluster_used_port
init-cons answers p used = refl

init-append :
    (answers : Answers) (used : List ℕ) (p : ℕ)
    → init_k8s_cluster_used_port answers (used ++ p ∷ []) ≡ (used ++ p ∷ [], true)
init-append answers [] p = init-cons answers p []
init-append answers (u ∷ used) p = init-cons answers u (used ++ p ∷ [])

later-lt :
    (now later : List ℕ) (p q : ℕ)
    → IsFirstFree now auto_select_port_min p
    → IsSelected (now ++ p ∷ [], true) (later, port q)
    → p < q
later-lt now later p q (a, b, free, below) (e, (c, d, fresh, k)) = elim (Bool-cases (ltb p q)) [
  | inl h ↦ ground arith
  | inr h ↦ elim (Bool-cases (q == p)) [
    | inl same ↦ absurd (fresh (Elem-append_right q now (p ∷ []) (inl ((==_iff q p).0 same))))
    | inr other ↦ absurd (fresh (Elem-append_left q now (p ∷ []) (below q c (ground arith))))
  ]
]

earlier :
    (state : List ℕ × Bool) (after : List ℕ) (p : ℕ)
    → IsSelected state (after, port p)
    → (now : List ℕ) × (after ≡ now ++ p ∷ []) × IsFirstFree now auto_select_port_min p
earlier (now, false) after p h = cc
earlier (now, true) after p (e, h) = (now, e, h)

-- Two calls that follow each other pick different ports: the second picks a larger one, whatever the
-- cluster answers in between.
pub select_available_port-lt :
    (answers again : Answers) (used after later : List ℕ) (p q : ℕ)
    → select_available_port answers used ≡ (after, port p)
    → select_available_port again after ≡ (later, port q)
    → p < q
select_available_port-lt answers again used after later p q e k =
    let (now, grown, first) = earlier _ after p (
      subst (IsSelected (init_k8s_cluster_used_port answers used)) e
        (select_available_port-IsSelected answers used)) in
    later-lt now later p q first (
      subst (λ s. IsSelected s (later, port q))
        (ap (init_k8s_cluster_used_port again) grown ∙ init-append again now p)
        (subst (IsSelected (init_k8s_cluster_used_port again after)) k
          (select_available_port-IsSelected again after)))
