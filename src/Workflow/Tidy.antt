-- ===== src/Workflow/Tidy.antt =====
-- Where a job is given a suffix: the config maps keep in order with their labels, so that the next free
-- index of a base name is found.
use runai_cli.Prelude.{
  if-eq, ℕ, zero, suc, ◌≤◌, String, Bool, true, false, Option, some, assign, lookup, get, decimal,
  decimal-injective, str_eq, eq_iff, ◌≡◌, ◌≢◌, refl, sym, ap, ◌∙◌, ◌⊎◌, inl, inr, Bool-cases, arith,
}
use mathlib.Core.Option.{some-injective}
use runai_cli.Workflow.{
  ConfigMap, Problem, failed, done, Call, Cluster, create_empty_config_map, is_unauthorized,
  config_map_generation_retries, get_smallest_unoccupied_index, index_label, labels_of,
  empty_config_map, base_name_label_selector_name, get_config_map_name, retry_loop, after_first,
  submit_config_map,
}
use runai_cli.Workflow.Created.{IsStored, IsSame, IsCluster}
use runai_cli.Workflow.Chains.{or_else_keeps, and_then_keeps}
use runai_cli.Workflow.Names.{get_config_map_name-injective}

abbrev pub base_label : ConfigMap → Option String
base_label m = lookup m.labels base_name_label_selector_name

base_label-empty :
    (name base : String) (index : ℕ) → base_label (empty_config_map name base index) ≡ some base
unfolding labels_of lookup assign
base_label-empty name base index = refl

index_label-empty :
    (name base : String) (index : ℕ)
    → index_label (empty_config_map name base index) ≡ decimal index
unfolding labels_of get lookup assign
index_label-empty name base index = refl

-- A name that `getConfigMapName` generates from no base name.
abbrev pub IsPlain : String → Type 0
IsPlain name = (base : String) (index : ℕ) → name ≢ get_config_map_name base index true

plain_name : (name : String) (index : ℕ) → name ≡ get_config_map_name name index false
unfolding get_config_map_name
plain_name name index = refl

module _ (cluster : Cluster) where
  open cluster use {World, find, create, list, meanwhile}

  -- A config map whose name is a generated one has the labels of that base name and index, and one with
  -- these labels, where the index is not 0, has that name.
  pub record IsTidy (w : World) : Type 0 where
    pub labelled :
        (base : String) (index : ℕ) {m : ConfigMap}
        → find w (get_config_map_name base index true) ≡ some m
        → (base_label m ≡ some base) × (index_label m ≡ decimal index)
    pub named :
        {base : String} {index : ℕ} {n : String} {m : ConfigMap}
        → 1 ≤ index
        → find w n ≡ some m
        → base_label m ≡ some base
        → index_label m ≡ decimal index
        → n ≡ get_config_map_name base index true

  IsSame-IsTidy : {s t : World} → IsSame cluster s t → IsTidy s → IsTidy t
  IsSame-IsTidy same tidy = record {
    labelled = λ base index e. tidy.labelled base index (sym (same _) ∙ e);
    named = λ low e. tidy.named low (sym (same _) ∙ e);
  }

module _ (name : String) where
  -- The config map that a submission under this name creates.
  abbrev IsOwn : Bool → ConfigMap → Type 0
  IsOwn generate_suffix m =
      (index : ℕ) × (m
        ≡ empty_config_map (get_config_map_name name index generate_suffix) name index)
      × (generate_suffix ≡ false → index ≡ 0)

  abbrev IsAllowed : Bool → Type 0
  IsAllowed generate_suffix = generate_suffix ≡ false → IsPlain name

  own_labelled :
      (generate_suffix : Bool) (m : ConfigMap) (base : String) (index : ℕ)
      → IsOwn generate_suffix m
      → IsAllowed generate_suffix
      → m.name ≡ get_config_map_name base index true
      → (base_label m ≡ some base) × (index_label m ≡ decimal index)
  own_labelled true m base index (i, q, _) plain e =
      let (b, j) = get_config_map_name-injective name base i index (sym (ap (λ x. x.name) q) ∙ e) in
      (
        ap base_label q ∙ base_label-empty (get_config_map_name name i true) name i ∙ ap some b,
        ap index_label q
            ∙ index_label-empty (get_config_map_name name i true) name i
            ∙ ap decimal j,
      )
  own_labelled false m base index (i, q, _) plain e =
      absurd (plain refl base index (plain_name name i ∙ sym (ap (λ x. x.name) q) ∙ e))

  own_named :
      (generate_suffix : Bool) (m : ConfigMap) (base : String) (index : ℕ)
      → IsOwn generate_suffix m
      → 1 ≤ index
      → base_label m ≡ some base
      → index_label m ≡ decimal index
      → m.name ≡ get_config_map_name base index true
  own_named true m base index (i, q, _) low b j =
      let x : name ≡ base = some-injective _ _ (
        sym (base_label-empty (get_config_map_name name i true) name i)
        ∙ sym (ap base_label q)
        ∙ b) in
      let y : i ≡ index = decimal-injective i index (
        sym (index_label-empty (get_config_map_name name i true) name i)
        ∙ sym (ap index_label q)
        ∙ j) in
      ap (λ z. z.name) q
      ∙ ap (λ z. get_config_map_name z i true) x
      ∙ ap (λ z. get_config_map_name base z true) y
  own_named false m base index (i, q, zero_index) low b j =
      let y : i ≡ index = decimal-injective i index (
        sym (index_label-empty (get_config_map_name name i false) name i)
        ∙ sym (ap index_label q)
        ∙ j) in
      let z = zero_index refl in absurd (omega arith)

module _ (cluster : Cluster) (laws : IsCluster cluster) (name : String)
    (generate_suffix : Bool) where
  open cluster use {World, find, create, list, meanwhile}

  found_after :
      {s t : World} {m : ConfigMap} (n : String) {found : ConfigMap}
      → IsStored cluster s m t
      → find t n ≡ some found
      → ((m.name ≡ n) × (m ≡ found)) ⊎ (find s n ≡ some found)
  found_after {m = m} n (_, after) e = elim (if-eq (str_eq m.name n) _ _ (sym (after n) ∙ e)) [
    | inl (h, q) ↦ inl ((eq_iff _ _).0 h, some-injective _ _ q)
    | inr (_, q) ↦ inr q
  ]

  IsStored-IsTidy :
      {s t : World} {m : ConfigMap}
      → IsOwn name generate_suffix m
      → IsAllowed name generate_suffix
      → IsStored cluster s m t
      → IsTidy cluster s
      → IsTidy cluster t
  IsStored-IsTidy {m = m} own plain stored tidy = record {
    labelled = λ base index e. elim (found_after _ stored e) [
      | inl (n, q) ↦
          let (b, j) = own_labelled name generate_suffix m base index own plain n in
          (sym (ap base_label q) ∙ b, sym (ap index_label q) ∙ j)
      | inr k ↦ tidy.labelled base index k
    ];
    named = λ low e b j. elim (found_after _ stored e) [
      | inl (n, q) ↦
          sym n
          ∙ own_named name generate_suffix m _ _ own low (ap base_label q ∙ b)
              (ap index_label q ∙ j)
      | inr k ↦ tidy.named low k b j
    ];
  }

  answered-IsTidy :
      {m : ConfigMap}
      → IsOwn name generate_suffix m
      → IsAllowed name generate_suffix
      → (w : World) (c : Call World ConfigMap) → create w m ≡ c
      → IsTidy cluster w
      → IsTidy cluster c.0
  answered-IsTidy own plain w (t, failed p) e tidy = elim (laws.create_fails e) [
    | inl same ↦ IsSame-IsTidy cluster same tidy
    | inr stored ↦ IsStored-IsTidy own plain stored tidy
  ]
  answered-IsTidy own plain w (t, done a) e tidy =
      IsStored-IsTidy own plain (laws.create_stores e).1 tidy

  create-IsTidy :
      (index : ℕ)
      → (generate_suffix ≡ false → index ≡ 0)
      → IsAllowed name generate_suffix
      → (w : World) → IsTidy cluster w
      → IsTidy cluster
          (create_empty_config_map cluster w
            (get_config_map_name name index generate_suffix)
            name
            index).0
  create-IsTidy index zero_index plain w tidy =
      answered-IsTidy (index, refl, zero_index) plain w _ refl tidy

module _ (cluster : Cluster) (laws : IsCluster cluster) (name : String) where
  open cluster use {World, find, create, list, meanwhile}

  abbrev pub OthersKeep : Type 0
  OthersKeep = (n : ℕ) (s : World) → IsTidy cluster s → IsTidy cluster (meanwhile n s)

  retry_loop-IsTidy :
      (tries call : ℕ) (w : World)
      → OthersKeep
      → IsTidy cluster w
      → IsTidy cluster (retry_loop cluster tries call name w).0
  unfolding retry_loop
  retry_loop-IsTidy zero call w others tidy = tidy
  retry_loop-IsTidy (suc tries) call w others tidy =
      and_then_keeps (IsTidy cluster)
        (_, list (meanwhile call w) base_name_label_selector_name name) _ (others call w tidy)
        (λ v config_maps kept.
          or_else_keeps (IsTidy cluster) _ (λ u p. retry_loop cluster tries (suc (suc call)) name u)
            (create-IsTidy cluster laws name true (get_smallest_unoccupied_index config_maps)
              (λ h. absurd (cc h)) (λ h. absurd (cc h)) (meanwhile (suc call) v)
              (others (suc call) v kept))
            (λ u p again. retry_loop-IsTidy tries (suc (suc call)) u others again))

  after_first-IsTidy :
      (generate_suffix : Bool) (w : World) (p : Problem)
      → OthersKeep
      → IsTidy cluster w
      → IsTidy cluster (after_first cluster name generate_suffix w p).0
  unfolding after_first
  after_first-IsTidy true w p others tidy = elim (Bool-cases (is_unauthorized p)) [
    | inl e ↦ rw e tidy
    | inr e ↦ rw e (retry_loop-IsTidy config_map_generation_retries 1 w others tidy)
  ]
  after_first-IsTidy false w p others tidy = elim (Bool-cases (is_unauthorized p)) [
    | inl e ↦ rw e tidy
    | inr e ↦ rw e tidy
  ]

  -- Whatever a submission comes to, also if its calls fail or their answers are lost, it leaves every
  -- config map with a generated name under the labels of that name, and every config map with the
  -- labels of a base name and an index of at least 1 under the name that is generated from these, if
  -- it was so before and what others do keeps it so. A job without a generated suffix must not be
  -- named like one that has it, such as `train-1`.
  pub submit_config_map-IsTidy :
      (w : World) (generate_suffix : Bool)
      → OthersKeep
      → (generate_suffix ≡ false → IsPlain name)
      → IsTidy cluster w
      → IsTidy cluster (submit_config_map cluster w name generate_suffix).0
  unfolding submit_config_map
  submit_config_map-IsTidy w generate_suffix others plain tidy =
      or_else_keeps (IsTidy cluster)
        (create_empty_config_map cluster (meanwhile 0 w)
          (get_config_map_name name 0 generate_suffix) name 0)
        (after_first cluster name generate_suffix)
        (create-IsTidy cluster laws name generate_suffix 0 (λ h. refl) plain (meanwhile 0 w)
          (others 0 w tidy))
        (λ u p kept. after_first-IsTidy generate_suffix u p others kept)
