-- ===== src/Nodes/Resources.antt =====
-- The resources of a node: GetResourcesStatus of pkg/nodes/node_info.go without metrics, and the
-- functions of pkg/helpers that it and the views of a node call.
use runai_cli.Prelude.{
  ℕ, zero, suc, ◌+◌, ◌-◌, ℤ, pos, negsuc, String, Bool, false, Option, none, some, List, [], ◌∷◌,
  Map, lookup, get, leb, ltb, ◌==◌, if◌then◌else◌,
}
use runai_cli.Kube.{Container, Pod}
use runai_cli.Trainer.Amounts.{Floats}
use runai_cli.Nodes.{
  Node, nvidia_gpu_resource_name, gpu_capacity, num_shared_gpus, gpu_in_active_pod,
}

pub record ResourceList (Float : Type 0) : Type 0 where
  pub cpus : Float
  pub gpus : Float
  pub memory : Float
  pub gpu_memory : Float
  pub storage : Float

pub record PodResourcesStatus (Float : Type 0) : Type 0 where
  pub limited : ResourceList Float
  pub allocated : ResourceList Float
  pub requested : ResourceList Float
  pub usage : ResourceList Float

pub record NodeResourcesStatus (Float : Type 0) : Type 0 where
  pub capacity : ResourceList Float
  pub allocatable : ResourceList Float
  pub limited : ResourceList Float
  pub allocated : ResourceList Float
  pub gpus_in_use : ℤ
  pub num_shared_gpus : ℤ
  pub gpu_type : String
  pub requested : ResourceList Float
  pub usage : ResourceList Float

pub record NodeGpuResource (Float : Type 0) : Type 0 where
  pub gpu_type : String
  pub capacity : ℤ
  pub allocatable : Float
  pub allocated : Float
  pub in_use : ℤ
  pub free : ℤ
  pub utilization : Float
  pub usage : Float
  pub unhealthy : ℤ

-- Sums and differences of an `int`, which do not come near its bounds here.
unfoldable pub difference : ℕ → ℕ → ℤ
difference m n = if leb n m then pos (m - n) else negsuc (n - m - 1)

unfoldable pub plus_int : ℤ → ℤ → ℤ
unfolding difference
plus_int (pos m) (pos n) = pos (m + n)
plus_int (pos m) (negsuc n) = difference m (suc n)
plus_int (negsuc m) (pos n) = difference n (suc m)
plus_int (negsuc m) (negsuc n) = negsuc (suc (m + n))

unfoldable pub opposite : ℤ → ℤ
opposite (pos zero) = pos 0
opposite (pos (suc n)) = negsuc n
opposite (negsuc n) = pos (suc n)

unfoldable pub minus_int : ℤ → ℤ → ℤ
unfolding plus_int opposite
minus_int a b = plus_int a (opposite b)

abbrev pub is_above_zero : ℤ → Bool
is_above_zero (pos n) = ltb 0 n
is_above_zero (negsuc n) = false

module _ (num : Floats) where
  open num use {Float, zero_float, plus, times, of_int, of_signed, truncate, divide}

  abbrev pub no_resources : ResourceList Float
  no_resources = record {
    cpus = zero_float;
    gpus = zero_float;
    memory = zero_float;
    gpu_memory = zero_float;
    storage = zero_float;
  }

  abbrev pub float_amount : Option ℕ → Float
  float_amount none = zero_float
  float_amount (some n) = of_int n

  -- The amount of a key, which for `cpu` is in thousandths.
  unfoldable pub kube_quantity_to_float_64 : Map ℕ → String → Float
  unfolding lookup
  kube_quantity_to_float_64 rl key = float_amount (lookup rl key)

  unfoldable pub add_to_resource_list : ResourceList Float → ResourceList Float → ResourceList Float
  add_to_resource_list rl other = record {
    cpus = plus rl.cpus other.cpus;
    gpus = plus rl.gpus other.gpus;
    memory = plus rl.memory other.memory;
    gpu_memory = plus rl.gpu_memory other.gpu_memory;
    storage = plus rl.storage other.storage;
  }

  unfoldable pub add_kube_resource_list_to_resource_list :
      ResourceList Float → Map ℕ → ResourceList Float
  unfolding kube_quantity_to_float_64
  add_kube_resource_list_to_resource_list rl krl = record rl {
    cpus = plus rl.cpus (kube_quantity_to_float_64 krl "cpu");
    gpus = plus rl.gpus (kube_quantity_to_float_64 krl nvidia_gpu_resource_name);
    memory = plus rl.memory (kube_quantity_to_float_64 krl "memory");
    storage = plus rl.storage (kube_quantity_to_float_64 krl "storage");
  }

  abbrev pub no_pod_resources : PodResourcesStatus Float
  no_pod_resources = record {
    limited = no_resources;
    allocated = no_resources;
    requested = no_resources;
    usage = no_resources;
  }

  unfoldable pub resources_loop :
      PodResourcesStatus Float → List Container → PodResourcesStatus Float
  unfolding add_kube_resource_list_to_resource_list
  resources_loop prs [] = prs
  resources_loop prs (container ∷ containers) =
      resources_loop
        (record prs {
          requested = add_kube_resource_list_to_resource_list prs.requested container.requests;
          limited = add_kube_resource_list_to_resource_list prs.limited container.limits;
        })
        containers

  unfoldable pub get_pod_resource_status : Pod → PodResourcesStatus Float
  unfolding resources_loop gpu_in_active_pod
  get_pod_resource_status pod = record (resources_loop no_pod_resources pod.spec.containers) {
    allocated = record no_resources { gpus = gpu_in_active_pod num pod };
  }

  unfoldable pub add_to_pod_resources_status :
      PodResourcesStatus Float → PodResourcesStatus Float → PodResourcesStatus Float
  unfolding add_to_resource_list
  add_to_pod_resources_status prs other = record {
    limited = add_to_resource_list prs.limited other.limited;
    allocated = add_to_resource_list prs.allocated other.allocated;
    requested = add_to_resource_list prs.requested other.requested;
    usage = add_to_resource_list prs.usage other.usage;
  }

  unfoldable pub pods_loop : PodResourcesStatus Float → List Pod → PodResourcesStatus Float
  unfolding add_to_pod_resources_status get_pod_resource_status
  pods_loop prs [] = prs
  pods_loop prs (pod ∷ pods) =
      pods_loop (add_to_pod_resources_status prs (get_pod_resource_status pod)) pods

  -- The fix of the GPUs of a node that shares some of them.
  abbrev pub share : Node → ℤ → ResourceList Float → ResourceList Float × ResourceList Float × ℤ
  share node shared capacity =
      if is_above_zero shared
      then (
        record capacity { gpus = of_int (gpu_capacity node) },
        record no_resources { gpus = plus zero_float (of_signed shared) },
        shared,
      )
      else (capacity, no_resources, pos 0)

  unfoldable pub get_resources_status : Node → List Pod → NodeResourcesStatus Float
  unfolding pods_loop add_kube_resource_list_to_resource_list num_shared_gpus gpu_capacity get
  get_resources_status node pods =
      let prs = pods_loop no_pod_resources pods in
      let fixed =
        share node (num_shared_gpus node)
          (add_kube_resource_list_to_resource_list no_resources node.capacity) in
      record {
        capacity = fixed.0;
        allocatable = add_kube_resource_list_to_resource_list fixed.1 node.allocatable;
        limited = prs.limited;
        allocated = prs.allocated;
        gpus_in_use = plus_int fixed.2 (truncate prs.limited.gpus);
        num_shared_gpus = fixed.2;
        gpu_type = get node.labels "nvidia.com/gpu.product";
        requested = prs.requested;
        usage = no_resources;
      }

  abbrev pub is_zero_int : ℤ → Bool
  is_zero_int (pos n) = n == 0
  is_zero_int (negsuc n) = false

  unfoldable pub gpu_view : NodeResourcesStatus Float → NodeGpuResource Float
  unfolding minus_int
  gpu_view nrs =
      let capacity = truncate nrs.capacity.gpus in
      record {
        gpu_type = nrs.gpu_type;
        capacity = capacity;
        allocatable = nrs.allocatable.gpus;
        allocated = nrs.allocated.gpus;
        in_use = nrs.gpus_in_use;
        free = minus_int capacity nrs.gpus_in_use;
        utilization = nrs.usage.gpus;
        usage = times (divide nrs.usage.gpus (of_int 100)) (of_signed capacity);
        unhealthy = minus_int capacity (truncate nrs.allocatable.gpus);
      }

  unfoldable pub to_gpus : NodeResourcesStatus Float → Option (NodeGpuResource Float)
  unfolding gpu_view
  to_gpus nrs = if is_zero_int (truncate nrs.capacity.gpus) then none else some (gpu_view nrs)
