-- ===== src/Nodes/Shared.antt =====
-- The shared GPUs of a node: what its pods use of each.
use runai_cli.Prelude.{
  String, Bool, false, not, ◌&&◌, Option, none, some, List, [], ◌∷◌, Map, lookup, lookup-assign,
  select, str_eq, eq_iff, if◌then◌else◌, ◌≡◌, refl, ap, ◌∙◌, inl, inr, Bool-cases,
}
use runai_cli.Kube.{Pod}
use runai_cli.Trainer.Amounts.{Floats}
use runai_cli.Nodes.{
  has_finished, or_zero_float, get_gpu_fraction_used_by_pod, add_fraction, shared_loop,
  get_shared_gpus_index_used_in_pods,
}

abbrev is_index : String → Option String → Bool
is_index index none = false
is_index index (some other) = str_eq other index

-- An active pod that uses this GPU.
abbrev pub uses_gpu : String → Pod → Bool
uses_gpu index pod =
    not (has_finished pod) && is_index index (lookup pod.meta.annotations "runai-gpu")

module _ (num : Floats) where
  open num use {Float, zero_float, plus}

  -- The fractions of pods, added up in their order behind what was there.
  abbrev pub sum_behind : Option Float → List Pod → Option Float
  sum_behind sum [] = sum
  sum_behind sum (pod ∷ pods) =
      sum_behind (some (plus (or_zero_float num sum) (get_gpu_fraction_used_by_pod num pod))) pods

  lookup-add_fraction :
      (used : Map Float) (key : Option String) (index : String) (fraction : Float)
      → lookup (add_fraction num used key fraction) index ≡ (
          if is_index index key
          then some (plus (or_zero_float num (lookup used index)) fraction)
          else lookup used index)
  lookup-add_fraction used none index fraction = refl
  lookup-add_fraction used (some key) index fraction =
      lookup-assign used key index _ ∙ elim (Bool-cases (str_eq key index)) [
        | inl e ↦ rw e (
            ap (λ k. some (plus (or_zero_float num (lookup used k)) fraction))
              ((eq_iff key index).0 e))
        | inr e ↦ rw e refl
      ]

  lookup-shared_loop :
      (index : String) (used : Map Float) (pods : List Pod)
      → lookup (shared_loop num used pods) index
        ≡ sum_behind (lookup used index) (select (uses_gpu index) pods)
  unfolding shared_loop select
  lookup-shared_loop index used [] = refl
  lookup-shared_loop index used (pod ∷ pods) = elim (Bool-cases (has_finished pod)) [
    | inl e ↦ rw e (lookup-shared_loop index used pods)
    | inr e ↦
        let key = lookup pod.meta.annotations "runai-gpu" in
        let next = add_fraction num used key (get_gpu_fraction_used_by_pod num pod) in
        let here = lookup-add_fraction used key index (get_gpu_fraction_used_by_pod num pod) in
        elim (Bool-cases (is_index index key)) [
          | inl f ↦
              rw (e, f)
                (lookup-shared_loop index next pods
                  ∙ ap (λ o. sum_behind o (select (uses_gpu index) pods)) (here ∙ rw f refl))
          | inr f ↦
              rw (e, f)
                (lookup-shared_loop index next pods
                  ∙ ap (λ o. sum_behind o (select (uses_gpu index) pods)) (here ∙ rw f refl))
        ]
  ]

  -- For each index of a GPU the map holds the sum of the fractions of the active pods with this index in
  -- their annotation, added up in their order, and no entry where there are no such pods.
  pub lookup-shared_gpus :
      (index : String) (pods : List Pod)
      → lookup (get_shared_gpus_index_used_in_pods num pods) index
        ≡ sum_behind none (select (uses_gpu index) pods)
  unfolding get_shared_gpus_index_used_in_pods lookup
  lookup-shared_gpus index pods = lookup-shared_loop index [] pods
