-- ===== src/Nodes/Balance.antt =====
-- The GPUs that the view of a node shows, where whole numbers of floats are exact.
use runai_cli.Prelude.{
  if-eq, ℕ, zero, suc, ◌+◌, ◌^◌, ◌<◌, pos, true, Option, none, some, List, lookup, ltb, ◌≡◌, refl,
  ap, ◌∙◌, inl, inr, arith,
}
use mathlib.Core.Path.{subst}
use mathlib.Core.Option.{some-injective}
use runai_cli.Kube.{Pod}
use runai_cli.Trainer.Amounts.{Floats}
use runai_cli.Nodes.{Node, nvidia_gpu_resource_name, amount, gpu_capacity, num_shared_gpus}
use runai_cli.Nodes.Resources.{
  ResourceList, NodeResourcesStatus, NodeGpuResource, plus_int, minus_int, float_amount,
  kube_quantity_to_float_64, add_kube_resource_list_to_resource_list, no_resources, share,
  get_resources_status, gpu_view, to_gpus,
}

-- Whole numbers below `2 ^ 53` are exact.
pub record IsExact (num : Floats) : Type 0 where
  pub zero_exact : num.zero_float ≡ num.of_int 0
  pub plus_exact :
      (m n : ℕ) → m + n < 2 ^ 53 → num.plus (num.of_int m) (num.of_int n) ≡ num.of_int (m + n)
  pub signed_exact : (n : ℕ) → num.of_signed (pos n) ≡ num.of_int n
  pub truncate_exact : (n : ℕ) → n < 2 ^ 53 → num.truncate (num.of_int n) ≡ pos n

module _ (num : Floats) (exact : IsExact num) where
  open num use {Float, zero_float, plus, of_int, of_signed, truncate}

  float_amount-of_int : (o : Option ℕ) → float_amount num o ≡ of_int (amount o)
  float_amount-of_int none = exact.zero_exact
  float_amount-of_int (some n) = refl

  plus-zero : (n : ℕ) → n < 2 ^ 53 → plus zero_float (of_int n) ≡ of_int n
  plus-zero n small =
      ap (λ z. plus z (of_int n)) exact.zero_exact
      ∙ exact.plus_exact 0 n (omega arith)
      ∙ ap of_int (omega arith)

  -- The GPUs of a node that it has to give.
  abbrev pub allocatable_gpus : Node → ℕ
  allocatable_gpus node = amount (lookup node.allocatable nvidia_gpu_resource_name)

  shared_capacity :
      (node : Node) (shared : ℕ)
      → gpu_capacity node < 2 ^ 53
      → truncate
          (share num node
            (pos shared)
            (add_kube_resource_list_to_resource_list num (no_resources num) node.capacity)).0.gpus
        ≡ pos (gpu_capacity node)
  unfolding add_kube_resource_list_to_resource_list kube_quantity_to_float_64 gpu_capacity
  shared_capacity node zero small =
      ap truncate (
        ap (plus zero_float) (float_amount-of_int (lookup node.capacity nvidia_gpu_resource_name))
        ∙ plus-zero (gpu_capacity node) small)
      ∙ exact.truncate_exact (gpu_capacity node) small
  shared_capacity node (suc shared) small =
      let above : ltb 0 (suc shared) ≡ true = ground arith in
      rw above (exact.truncate_exact (gpu_capacity node) small)

  shared_allocatable :
      (node : Node) (shared : ℕ) (capacity : ResourceList Float)
      → shared + allocatable_gpus node < 2 ^ 53
      → truncate
          (add_kube_resource_list_to_resource_list num
            (share num node (pos shared) capacity).1
            node.allocatable).gpus
        ≡ pos (shared + allocatable_gpus node)
  unfolding add_kube_resource_list_to_resource_list kube_quantity_to_float_64
  shared_allocatable node zero capacity small =
      ap truncate (
        ap (plus zero_float)
          (float_amount-of_int (lookup node.allocatable nvidia_gpu_resource_name))
        ∙ plus-zero (allocatable_gpus node) (omega arith))
      ∙ exact.truncate_exact (allocatable_gpus node) (omega arith)
      ∙ ap pos (omega arith)
  shared_allocatable node (suc shared) capacity small =
      let above : ltb 0 (suc shared) ≡ true = ground arith in
      let signed : plus zero_float (of_signed (pos (suc shared))) ≡ of_int (suc shared) =
        ap (plus zero_float) (exact.signed_exact (suc shared))
        ∙ plus-zero (suc shared) (omega arith) in
      rw above (
        ap truncate (
          ap (λ z. plus z (float_amount num (lookup node.allocatable nvidia_gpu_resource_name)))
            signed
          ∙ ap (plus (of_int (suc shared)))
              (float_amount-of_int (lookup node.allocatable nvidia_gpu_resource_name))
          ∙ exact.plus_exact (suc shared) (allocatable_gpus node) small)
        ∙ exact.truncate_exact (suc shared + allocatable_gpus node) small)

  shared_in_use :
      (node : Node) (shared : ℕ) (capacity : ResourceList Float)
      → (share num node (pos shared) capacity).2 ≡ pos shared
  shared_in_use node zero capacity = refl
  shared_in_use node (suc shared) capacity =
      let above : ltb 0 (suc shared) ≡ true = ground arith in rw above refl

  -- The numbers of GPUs that a view of the node shows.
  pub record IsBalanced (node : Node) (shared : ℕ) (nrs : NodeResourcesStatus Float)
      (view : NodeGpuResource Float) : Type 0 where
    pub capacity : view.capacity ≡ pos (gpu_capacity node)
    pub in_use : view.in_use ≡ plus_int (pos shared) (truncate nrs.limited.gpus)
    pub free : view.free ≡ minus_int (pos (gpu_capacity node)) view.in_use
    pub unhealthy :
        view.unhealthy ≡ minus_int (pos (gpu_capacity node)) (pos (shared + allocatable_gpus node))

  view_of :
      (node : Node) (shared : ℕ) (nrs : NodeResourcesStatus Float) {view : NodeGpuResource Float}
      → truncate nrs.capacity.gpus ≡ pos (gpu_capacity node)
      → truncate nrs.allocatable.gpus ≡ pos (shared + allocatable_gpus node)
      → nrs.gpus_in_use ≡ plus_int (pos shared) (truncate nrs.limited.gpus)
      → to_gpus num nrs ≡ some view
      → IsBalanced node shared nrs view
  unfolding to_gpus gpu_view
  view_of node shared nrs {view} c a u e = elim (if-eq _ none (some (gpu_view num nrs)) e) [
    | inl (_, q) ↦ absurd (cc q)
    | inr (_, q) ↦ subst (IsBalanced node shared nrs) (some-injective _ _ q) (record {
      capacity = c;
      in_use = u;
      free = ap (λ n. minus_int n nrs.gpus_in_use) c;
      unhealthy =
          ap (minus_int (truncate nrs.capacity.gpus)) a
          ∙ ap (λ n. minus_int n (pos (shared + allocatable_gpus node))) c;
    })
  ]

  -- Where a node has shared GPUs, its view shows as capacity the GPUs that are not shared, though the
  -- shared ones count as in use and as allocatable: so the free GPUs are the others less the ones in
  -- use, and the GPUs shown as unhealthy are the capacity less all that are allocatable, which is
  -- negative where no GPU is broken. Numbers of GPUs below `2 ^ 53` are taken to be exact as floats.
  pub to_gpus-IsBalanced :
      (node : Node) (pods : List Pod) (shared : ℕ) {view : NodeGpuResource Float}
      → num_shared_gpus node ≡ pos shared
      → gpu_capacity node < 2 ^ 53
      → shared + allocatable_gpus node < 2 ^ 53
      → to_gpus num (get_resources_status num node pods) ≡ some view
      → IsBalanced node shared (get_resources_status num node pods) view
  unfolding get_resources_status
  to_gpus-IsBalanced node pods shared n c a e =
      let capacity = add_kube_resource_list_to_resource_list num (no_resources num) node.capacity in
      view_of node shared (get_resources_status num node pods)
        (ap (λ z. truncate (share num node z capacity).0.gpus) n ∙ shared_capacity node shared c)
        (ap
            (λ z.
              truncate
                (add_kube_resource_list_to_resource_list num (share num node z capacity).1
                  node.allocatable).gpus)
            n
          ∙ shared_allocatable node shared capacity a)
        (ap (λ z. plus_int z (truncate (get_resources_status num node pods).limited.gpus))
          (ap (λ z. (share num node z capacity).2) n ∙ shared_in_use node shared capacity))
        e
