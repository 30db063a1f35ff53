-- ===== src/Workflow/Indices.antt =====
-- The index that `getSmallestUnoccupiedIndex` finds.
use runai_cli.Prelude.{
  ℕ, zero, suc, ◌+◌, ◌-◌, ◌≤◌, ◌<◌, String, Bool, true, false, List, [], ◌∷◌, map, Map, assign,
  lookup, lookup-assign, decimal, decimal-injective, length, Elem, str_eq, eq_iff, ◌≡◌, ◌≢◌, refl,
  sym, ap, ◌∙◌, ◌⊎◌, inl, inr, ◌↔◌, Bool-cases, dec_lt, arith,
}
use mathlib.Core.Path.{subst}
use runai_cli.Workflow.{
  ConfigMap, index_label, occupation, or_false, index_loop, get_smallest_unoccupied_index,
}

abbrev pub indices_of : List ConfigMap → List String
indices_of config_maps = map index_label config_maps

-- An element is taken out of a list: all others stay.
remove_one :
    {A : Type 0} (a : A) (xs : List A)
    → Elem a xs
    → (ys : List A) × (length xs ≡ suc (length ys)) × ((b : A) → b ≢ a → Elem b xs → Elem b ys)
remove_one a [] h = absurd h
remove_one a (x ∷ xs) (inl e) =
    (xs, refl, λ b apart. elim [ inl q ↦ absurd (apart (q ∙ sym e)) | inr h ↦ h ])
remove_one a (x ∷ xs) (inr h) =
    let (ys, size, others) = remove_one a xs h in
    (x ∷ ys, ap suc size, λ b apart. elim [ inl q ↦ inl q | inr k ↦ inr (others b apart k) ])

-- A list that holds the texts of the numbers below `n` has at least `n` elements.
pigeonhole : (n : ℕ) (xs : List String) → ((i : ℕ) → i < n → Elem (decimal i) xs) → n ≤ length xs
pigeonhole zero xs h = omega arith
pigeonhole (suc n) xs h =
    let (ys, size, others) = remove_one (decimal n) xs (h n (omega arith)) in
    let small = pigeonhole n ys (λ i below.
      others (decimal i) (λ e. let q = decimal-injective i n e in omega arith)
        (h i (omega arith))) in
    omega arith

occupied_iff :
    (config_maps : List ConfigMap) (seen : Map Bool) (key : String)
    → (or_false (lookup (occupation config_maps seen) key) ≡ true)
      ↔ (Elem key (indices_of config_maps) ⊎ (or_false (lookup seen key) ≡ true))
unfolding occupation
occupied_iff [] seen key = (λ h. inr h, elim [ inl h ↦ absurd h | inr h ↦ h ])
occupied_iff (m ∷ rest) seen key =
    let ih = occupied_iff rest (assign seen (index_label m) true) key in
    let assigned = lookup-assign seen (index_label m) key true in
    elim (Bool-cases (str_eq (index_label m) key)) [
      | inl e ↦
          let now : or_false (lookup (assign seen (index_label m) true) key) ≡ true =
            ground (arith, assigned) in
          (λ _. inl (inl (sym ((eq_iff _ _).0 e))), λ _. ih.1 (inr now))
      | inr e ↦
          let same : lookup (assign seen (index_label m) true) key ≡ lookup seen key =
            ground (arith, assigned) in
          (
            λ h. elim (ih.0 h) [ inl k ↦ inl (inr k) | inr k ↦ inr (ap or_false (sym same) ∙ k) ],
            elim [
              | inl (inl q) ↦ absurd (let w = (eq_iff (index_label m) key).1 (sym q) in cc)
              | inl (inr k) ↦ ih.1 (inl k)
              | inr k ↦ ih.1 (inr (ap or_false same ∙ k))
            ],
          )
    ]

abbrev IsSeen : Map Bool → ℕ → Type 0
IsSeen seen j = or_false (lookup seen (decimal j)) ≡ true

-- Where the loop ends: at an index that is not seen, or behind the last one.
abbrev LoopEnd : ℕ → ℕ → ℕ → Map Bool → ℕ → Type 0
LoopEnd turns i n seen r =
    ((r ≡ n) × ((j : ℕ) → i ≤ j → j < i + turns → IsSeen seen j))
    ⊎ ((i ≤ r)
        × (or_false (lookup seen (decimal r)) ≡ false)
        × ((j : ℕ) → i ≤ j → j < r → IsSeen seen j))

one_more :
    (P : ℕ → Type 0) (i m : ℕ)
    → P i
    → ((j : ℕ) → suc i ≤ j → j < m → P j)
    → (j : ℕ) → i ≤ j
    → j < m
    → P j
one_more P i m p h j low high = elim (dec_lt i j) [
  | yes q ↦ h j (omega arith) high
  | no q ↦ let e : i ≡ j = omega arith in subst P e p
]

index_loop-LoopEnd :
    (turns i n : ℕ) (seen : Map Bool) → LoopEnd turns i n seen (index_loop turns i n seen)
unfolding index_loop
index_loop-LoopEnd zero i n seen = inl (refl, λ j low high. absurd (omega arith))
index_loop-LoopEnd (suc turns) i n seen = elim (Bool-cases (or_false (lookup seen (decimal i)))) [
  | inl e ↦ rw e (elim (index_loop-LoopEnd turns (suc i) n seen) [
    | inl (q, all) ↦
        inl (q, λ j low high. one_more (IsSeen seen) i (suc i + turns) e all j low (omega arith))
    | inr (low, free, all) ↦ inr (omega arith, free, one_more (IsSeen seen) i _ e all)
  ])
  | inr e ↦ rw e (inr (omega arith, e, λ j low high. absurd (omega arith)))
]

length-indices_of :
    (config_maps : List ConfigMap) → length (indices_of config_maps) ≡ length config_maps
length-indices_of [] = refl
length-indices_of (m ∷ rest) = ap suc (length-indices_of rest)

at_least_one :
    (key : String) (config_maps : List ConfigMap)
    → Elem key (indices_of config_maps)
    → 1 ≤ length config_maps
at_least_one key [] h = absurd h
at_least_one key (m ∷ rest) h = omega arith

-- Where as many indices as there are config maps are taken, the next one is free.
full :
    (config_maps : List ConfigMap)
    → ((j : ℕ) → j < length config_maps → Elem (decimal j) (indices_of config_maps))
    → Elem (decimal (length config_maps)) (indices_of config_maps)
    → ⊥
full config_maps all last =
    let n = length config_maps in
    let many = pigeonhole (suc n) (indices_of config_maps) (λ j below. elim (dec_lt j n) [
      | yes q ↦ all j q
      | no q ↦
          let e : n ≡ j = omega arith in
          subst (λ k. Elem (decimal k) (indices_of config_maps)) e last
    ]) in
    let size = length-indices_of config_maps in omega arith

unseen : (key : String) → or_false (lookup [] key) ≢ true
unfolding lookup
unseen key h = cc

-- The index is not taken, and all from 1 on below it are.
abbrev pub IsSmallest : List String → ℕ → Type 0
IsSmallest taken i =
    (1 ≤ i) × (Elem (decimal i) taken → ⊥) × ((j : ℕ) → 1 ≤ j → j < i → Elem (decimal j) taken)

taken_of :
    (config_maps : List ConfigMap) (j : ℕ)
    → IsSeen (occupation config_maps []) j
    → Elem (decimal j) (indices_of config_maps)
taken_of config_maps j h = elim ((occupied_iff config_maps [] (decimal j)).0 h) [
  | inl k ↦ k
  | inr k ↦ absurd (unseen (decimal j) k)
]

-- Where the index 0 is taken, `getSmallestUnoccupiedIndex` finds the smallest index from 1 on that is
-- not: with `n` config maps one of the indices up to `n` is free.
pub get_smallest_unoccupied_index-IsSmallest :
    (config_maps : List ConfigMap)
    → Elem (decimal 0) (indices_of config_maps)
    → IsSmallest (indices_of config_maps) (get_smallest_unoccupied_index config_maps)
unfolding get_smallest_unoccupied_index
get_smallest_unoccupied_index-IsSmallest config_maps zero_taken =
    let n = length config_maps in
    let some_map = at_least_one (decimal 0) config_maps zero_taken in
    elim (index_loop-LoopEnd (n - 1) 1 n (occupation config_maps [])) [
      | inl (e, all) ↦
          let taken : (j : ℕ) → 1 ≤ j → j < n → Elem (decimal j) (indices_of config_maps) =
            λ j low high. taken_of config_maps j (all j low (omega arith)) in
          subst (IsSmallest (indices_of config_maps)) (sym e) (
            some_map,
            full config_maps (λ j below. elim (dec_lt 0 j) [
              | yes q ↦ taken j (omega arith) below
              | no q ↦
                  let z : 0 ≡ j = omega arith in
                  subst (λ k. Elem (decimal k) (indices_of config_maps)) z zero_taken
            ]),
            taken,
          )
      | inr (low, free, all) ↦ (
        low,
        λ h. let s = (occupied_iff config_maps [] _).1 (inl h) in cc,
        λ j one below. taken_of config_maps j (all j one below),
      )
    ]
