-- ===== src/Workflow/Free.antt =====
-- The index that a job with a generated suffix gets, where nobody else submits and the cluster answers.
use runai_cli.Prelude.{
  ℕ, suc, ◌≤◌, ◌<◌, String, true, none, some, List, ◌∷◌, [], Elem, decimal, ◌≡◌, ◌≢◌, refl, sym, ap,
  inl, inr, Option-cases, dec_lt, arith,
}
use mathlib.Core.Path.{subst}
use runai_cli.Workflow.{
  ConfigMap, status_error, failed, done, and_then, or_else, Cluster, empty_config_map, index_label,
  base_name_label_selector_name, get_config_map_name, get_smallest_unoccupied_index, retry_loop,
  after_first, submit_config_map,
}
use runai_cli.Workflow.Indices.{indices_of, get_smallest_unoccupied_index-IsSmallest}
use runai_cli.Workflow.Created.{IsCluster}
use runai_cli.Workflow.Tidy.{IsTidy}

-- An element of a list whose image is in the image of the list, and the reverse.
Elem-indices_of :
    (m : ConfigMap) (config_maps : List ConfigMap)
    → Elem m config_maps
    → Elem (index_label m) (indices_of config_maps)
Elem-indices_of m [] h = absurd h
Elem-indices_of m (x ∷ rest) (inl e) = inl (ap index_label e)
Elem-indices_of m (x ∷ rest) (inr h) = inr (Elem-indices_of m rest h)

indices_of-Elem :
    (index : String) (config_maps : List ConfigMap)
    → Elem index (indices_of config_maps)
    → (m : ConfigMap) × Elem m config_maps × (index ≡ index_label m)
indices_of-Elem index [] h = absurd h
indices_of-Elem index (x ∷ rest) (inl e) = (x, inl refl, e)
indices_of-Elem index (x ∷ rest) (inr h) =
    let (m, k, e) = indices_of-Elem index rest h in (m, inr k, e)

module _ (cluster : Cluster) where
  open cluster use {World, find, create, list, meanwhile}

  -- The cluster answers every call, and nobody else changes it.
  pub record IsAvailable : Type 0 where
    pub create_free :
        (s : World) (m : ConfigMap)
        → find s m.name ≡ none
        → (t : World) × (create s m ≡ (t, done m))
    pub create_taken :
        (s : World) (m : ConfigMap) {old : ConfigMap}
        → find s m.name ≡ some old
        → create s m ≡ (s, failed (status_error 409))
    pub list_answers :
        (s : World) (key value : String)
        → (config_maps : List ConfigMap) × (list s key value ≡ done config_maps)
    pub nobody_else : (n : ℕ) (s : World) → meanwhile n s ≡ s

  -- No config map has the name with this index, and with each smaller index one has.
  abbrev pub IsNext : World → String → ℕ → Type 0
  IsNext w name index =
      (find w (get_config_map_name name index true) ≡ none)
      × ((j : ℕ) → j < index → find w (get_config_map_name name j true) ≢ none)

  module _ (laws : IsCluster cluster) (w : World) (tidy : IsTidy cluster w) (name : String) where
    module _ (config_maps : List ConfigMap)
        (listed : list w base_name_label_selector_name name ≡ done config_maps) where
      -- The index of a generated name is in the list.
      taken-listed :
          (index : ℕ) {m : ConfigMap}
          → find w (get_config_map_name name index true) ≡ some m
          → Elem (decimal index) (indices_of config_maps)
      taken-listed index {m} e =
          let (b, j) = tidy.labelled name index e in
          let k =
            (laws.list_labelled m listed).1
              (subst (λ n. find w n ≡ some m) (sym (laws.find_name e)) e, b) in
          subst (λ i. Elem i (indices_of config_maps)) j (Elem-indices_of m config_maps k)

      listed-taken :
          (index : ℕ)
          → 1 ≤ index
          → Elem (decimal index) (indices_of config_maps)
          → find w (get_config_map_name name index true) ≢ none
      listed-taken index low h e =
          let (m, k, q) = indices_of-Elem (decimal index) config_maps h in
          let (there, b) = (laws.list_labelled m listed).0 k in
          let n = tidy.named low there b (sym q) in cc (there, e, ap (find w) n)

      next_index :
          {old : ConfigMap}
          → find w (get_config_map_name name 0 true) ≡ some old
          → IsNext w name (get_smallest_unoccupied_index config_maps)
      next_index first =
          let (low, free, below) =
            get_smallest_unoccupied_index-IsSmallest config_maps (taken-listed 0 first) in
          let index = get_smallest_unoccupied_index config_maps in
          (
            elim (Option-cases (find w (get_config_map_name name index true))) [
              | inl e ↦ e
              | inr (m, e) ↦ absurd (free (taken-listed index e))
            ],
            λ j small. elim (dec_lt 0 j) [
              | yes q ↦ listed-taken j (omega arith) (below j (omega arith) small)
              | no q ↦
                  let z : 0 ≡ j = omega arith in
                  λ e.
                    cc (
                      first,
                      subst (λ i. find w (get_config_map_name name i true) ≡ none) (sym z) e,
                    )
            ],
          )

    module _ (available : IsAvailable) where
      retry_loop-next :
          (tries call : ℕ) {old : ConfigMap}
          → find w (get_config_map_name name 0 true) ≡ some old
          → (index : ℕ) × (t : World) × IsNext w name index
            × (retry_loop cluster (suc tries) call name w
                ≡ (t, done (empty_config_map (get_config_map_name name index true) name index)))
      unfolding retry_loop and_then or_else
      retry_loop-next tries call first =
          let (config_maps, listed) = available.list_answers w base_name_label_selector_name name in
          let next = next_index config_maps listed first in
          let index = get_smallest_unoccupied_index config_maps in
          let (t, e) =
            available.create_free w
              (empty_config_map (get_config_map_name name index true) name index) next.0 in
          (
            index,
            t,
            next,
            rw (available.nobody_else call w, listed)
                (rw
                  (
                    available.nobody_else (suc call) (meanwhile call w),
                    available.nobody_else call w,
                    e,
                  )
                  refl),
          )

      -- A job with a generated suffix is submitted under the smallest index that no config map has in
      -- its name, if the config maps with generated names are in order with their labels, the cluster
      -- answers and nobody else submits meanwhile.
      pub submit_config_map-IsNext :
          (index : ℕ) × (t : World) × IsNext w name index
          × (submit_config_map cluster w name true
              ≡ (t, done (empty_config_map (get_config_map_name name index true) name index)))
      unfolding submit_config_map after_first or_else
      submit_config_map-IsNext = elim (Option-cases (find w (get_config_map_name name 0 true))) [
        | inl e ↦
            let (t, q) =
              available.create_free w (empty_config_map (get_config_map_name name 0 true) name 0)
                e in
            (0, t, (e, λ j small. absurd (omega arith)), rw (available.nobody_else 0 w, q) refl)
        | inr (old, e) ↦
            let q =
              available.create_taken w (empty_config_map (get_config_map_name name 0 true) name 0)
                e in
            let (index, t, next, r) = retry_loop-next 4 1 e in
            (index, t, next, rw (available.nobody_else 0 w, q) r)
      ]
