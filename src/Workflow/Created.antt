-- ===== src/Workflow/Created.antt =====
-- The config map that `submitConfigMap` returns is one that it has created.
use runai_cli.Prelude.{
  if-eq, ℕ, zero, suc, String, Bool, true, false, none, some, List, Elem, lookup, str_eq,
  if◌then◌else◌, ◌≡◌, refl, sym, ◌⊎◌, inl, inr, ◌↔◌,
}
use mathlib.Core.Path.{subst}
use runai_cli.Workflow.Chains.{or_else-done, and_then-done}
use runai_cli.Workflow.{
  ConfigMap, Problem, failed, done, or_else, Cluster, empty_config_map, create_empty_config_map,
  base_name_label_selector_name, get_config_map_name, get_smallest_unoccupied_index,
  is_unauthorized, config_map_generation_retries, retry_loop, after_first, submit_config_map,
}

module _ (cluster : Cluster) where
  open cluster use {World, find, create, list, update, meanwhile}

  -- The config map is new, and all others are as they were.
  abbrev pub IsStored : World → ConfigMap → World → Type 0
  IsStored s m t =
      (find s m.name ≡ none)
      × ((n : String) → find t n ≡ (if str_eq m.name n then some m else find s n))

  abbrev pub IsSame : World → World → Type 0
  IsSame s t = (n : String) → find t n ≡ find s n

  -- What the API server promises: it creates a config map only under a new name, also where its answer
  -- is lost and the call fails, and it lists the config maps with a label.
  pub record IsCluster : Type 0 where
    pub create_stores :
        {s t : World} {m a : ConfigMap} → create s m ≡ (t, done a) → (a ≡ m) × IsStored s m t
    pub create_fails :
        {s t : World} {m : ConfigMap} {p : Problem}
        → create s m ≡ (t, failed p)
        → IsSame s t ⊎ IsStored s m t
    pub find_name : {s : World} {n : String} {m : ConfigMap} → find s n ≡ some m → m.name ≡ n
    pub list_labelled :
        {s : World} {key value : String} {config_maps : List ConfigMap} (m : ConfigMap)
        → list s key value ≡ done config_maps
        → Elem m config_maps ↔ ((find s m.name ≡ some m) × (lookup m.labels key ≡ some value))

module _ (cluster : Cluster) (laws : IsCluster cluster) where
  open cluster use {World, find, create, list, update, meanwhile}

  -- The config map for the name and an index is new in a world, and `t` is that world with it.
  abbrev pub IsNew : String → Bool → World → ConfigMap → Type 0
  IsNew name generate_suffix t m =
      (s : World) × (index : ℕ) × IsStored cluster s m t
      × (m ≡ empty_config_map (get_config_map_name name index generate_suffix) name index)
      × (generate_suffix ≡ false → index ≡ 0)

  created :
      (name : String) (generate_suffix : Bool) (index : ℕ) (s : World) {t : World} {m : ConfigMap}
      → create s (empty_config_map (get_config_map_name name index generate_suffix) name index)
        ≡ (t, done m)
      → (generate_suffix ≡ false → index ≡ 0)
      → IsNew name generate_suffix t m
  created name generate_suffix index s {t} e plain =
      let (q, stored) = laws.create_stores e in
      (s, index, subst (λ a. IsStored cluster s a t) (sym q) stored, q, plain)

  retry_loop-IsNew :
      (tries call : ℕ) (name : String) (w : World) {t : World} {m : ConfigMap}
      → retry_loop cluster tries call name w ≡ (t, done m)
      → IsNew name true t m
  unfolding retry_loop
  retry_loop-IsNew zero call name w e = absurd (cc e)
  retry_loop-IsNew (suc tries) call name w e =
      let listing = meanwhile call w in
      let (v, config_maps, _, f) =
        and_then-done (listing, list listing base_name_label_selector_name name)
          (λ v config_maps.
            or_else
              (create_empty_config_map cluster (meanwhile (suc call) v)
                (get_config_map_name name (get_smallest_unoccupied_index config_maps) true) name
                (get_smallest_unoccupied_index config_maps))
              (λ u p. retry_loop cluster tries (suc (suc call)) name u))
          e in
      let index = get_smallest_unoccupied_index config_maps in
      elim (or_else-done _ (λ u p. retry_loop cluster tries (suc (suc call)) name u) f) [
        | inl g ↦ created name true index (meanwhile (suc call) v) g (λ h. absurd (cc h))
        | inr (u, p, _, g) ↦ retry_loop-IsNew tries (suc (suc call)) name u g
      ]

  after_first-IsNew :
      (name : String) (generate_suffix : Bool) (w : World) (p : Problem) {t : World} {m : ConfigMap}
      → after_first cluster name generate_suffix w p ≡ (t, done m)
      → IsNew name generate_suffix t m
  unfolding after_first
  after_first-IsNew name true w p e = elim (if-eq (is_unauthorized p) _ _ e) [
    | inl (_, f) ↦ absurd (cc f)
    | inr (_, f) ↦ retry_loop-IsNew config_map_generation_retries 1 name w f
  ]
  after_first-IsNew name false w p e = elim (if-eq (is_unauthorized p) _ _ e) [
    | inl (_, f) ↦ absurd (cc f)
    | inr (_, f) ↦ absurd (cc f)
  ]

  -- A config map that `submitConfigMap` returns was not there before: just before the call that has
  -- created it, no config map had its name, and that call has changed no other one. It carries the base
  -- name and its index as labels, and without a generated suffix its name is the one asked for. This
  -- holds whatever others do to the cluster between the calls.
  pub submit_config_map-IsNew :
      (w : World) (name : String) (generate_suffix : Bool) {t : World} {m : ConfigMap}
      → submit_config_map cluster w name generate_suffix ≡ (t, done m)
      → IsNew name generate_suffix t m
  unfolding submit_config_map
  submit_config_map-IsNew w name generate_suffix e =
      elim (or_else-done _ (after_first cluster name generate_suffix) e) [
        | inl g ↦ created name generate_suffix 0 (meanwhile 0 w) g (λ h. refl)
        | inr (u, p, _, g) ↦ after_first-IsNew name generate_suffix u p g
      ]
