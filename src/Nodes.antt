-- ===== src/Nodes.antt =====
-- Nodes and the GPUs of their pods: cmd/util/gpu.go and cmd/util/node.go, and the pods of a node in
-- pkg/nodes/node_info.go. Floats are a parameter, quantities are whole numbers.
pub mod Shared
pub mod Resources
pub mod Balance
pub mod Metrics
pub mod Grouped
mod Tests
use Prim.Native.String
use runai_cli.Prelude.{
  ℕ, zero, suc, ◌+◌, ◌-◌, ◌%◌, ◌^◌, ℤ, pos, negsuc, String, Bool, true, false, not, ◌&&◌, ◌||◌,
  Option, none, some, List, [], ◌∷◌, ◌++◌, Map, map, get, lookup, assign, any, select, ltb, leb,
  str_eq, if◌then◌else◌, join, atoi,
}
use runai_cli.Kube.{
  Container, Condition, Pod, pod_running, pod_pending, pod_succeeded, pod_failed, condition_true,
  pod_ready,
}
use runai_cli.Trainer.Amounts.{Floats}

-- The fields of a node that are read here. An amount of the key `cpu` is in thousandths.
pub record Node : Type 0 where
  pub name : String
  pub labels : Map String
  pub capacity : Map ℕ
  pub allocatable : Map ℕ
  pub conditions : List Condition
  pub unschedulable : Bool
  pub addresses : List (String × String)

abbrev pub nvidia_gpu_resource_name : String
nvidia_gpu_resource_name = "nvidia.com/gpu"

abbrev pub amount : Option ℕ → ℕ
amount none = 0
amount (some n) = n

unfoldable pub gpu_capacity : Node → ℕ
unfolding lookup
gpu_capacity node = amount (lookup node.capacity nvidia_gpu_resource_name)

abbrev pub parsed_or : Option ℤ → ℕ → ℤ
parsed_or none capacity = pos capacity
parsed_or (some gpus) capacity = gpus

abbrev pub read_label : Option String → Option ℤ
read_label none = none
read_label (some val) = atoi val

-- From the label `nvidia.com/gpu.count`, where there is one that can be read.
unfoldable pub total_gpu_count : Node → ℤ
unfolding lookup atoi gpu_capacity
total_gpu_count node =
    parsed_or (read_label (lookup node.labels "nvidia.com/gpu.count")) (gpu_capacity node)

-- The difference on `int64`, which wraps around.
unfoldable pub minus_64 : ℤ → ℕ → ℤ
minus_64 (pos m) n = if leb n m then pos (m - n) else negsuc (n - m - 1)
minus_64 (negsuc m) n = if ltb (m + n) (2 ^ 63) then negsuc (m + n) else pos (2 ^ 64 - 1 - (m + n))

unfoldable pub num_shared_gpus : Node → ℤ
unfolding total_gpu_count gpu_capacity minus_64
num_shared_gpus node = minus_64 (total_gpu_count node) (gpu_capacity node)

unfoldable pub container_gpu_limits : Container → ℕ
unfolding lookup
container_gpu_limits container = amount (lookup container.limits nvidia_gpu_resource_name)

-- The sum on 64 bits.
unfoldable pub gpu_loop : ℕ → List Container → ℕ
unfolding container_gpu_limits
gpu_loop count [] = count
gpu_loop count (container ∷ containers) =
    gpu_loop ((count + container_gpu_limits container) % 2 ^ 64) containers

abbrev pub signed_64 : ℕ → ℤ
signed_64 n = if ltb n (2 ^ 63) then pos n else negsuc (2 ^ 64 - 1 - n)

unfoldable pub gpu_in_pod : Pod → ℤ
unfolding gpu_loop
gpu_in_pod pod = signed_64 (gpu_loop 0 pod.spec.containers)

unfoldable pub has_finished : Pod → Bool
has_finished pod = str_eq pod.status.phase pod_succeeded || str_eq pod.status.phase pod_failed

module _ (num : Floats) where
  open num use {Float, zero_float, plus, parse_float, of_signed, is_positive}

  abbrev pub or_zero_float : Option Float → Float
  or_zero_float none = zero_float
  or_zero_float (some x) = x

  unfoldable pub get_gpu_fraction_used_by_pod : Pod → Float
  unfolding get
  get_gpu_fraction_used_by_pod pod =
      or_zero_float (parse_float (get pod.meta.annotations "gpu-fraction"))

  unfoldable pub gpu_in_active_pod : Pod → Float
  unfolding has_finished get_gpu_fraction_used_by_pod gpu_in_pod
  gpu_in_active_pod pod =
      if has_finished pod
      then zero_float
      else if is_positive (get_gpu_fraction_used_by_pod pod)
      then get_gpu_fraction_used_by_pod pod
      else of_signed (gpu_in_pod pod)

  -- `gpuIndexUsed[gpuIndex] += gpuAllocated`, where the pod has an index.
  abbrev pub add_fraction : Map Float → Option String → Float → Map Float
  add_fraction used none fraction = used
  add_fraction used (some index) fraction =
      assign used index (plus (or_zero_float (lookup used index)) fraction)

  unfoldable pub shared_loop : Map Float → List Pod → Map Float
  unfolding has_finished lookup assign get_gpu_fraction_used_by_pod
  shared_loop used [] = used
  shared_loop used (pod ∷ pods) =
      shared_loop
        (if has_finished pod
          then used
          else add_fraction used (lookup pod.meta.annotations "runai-gpu")
              (get_gpu_fraction_used_by_pod pod))
        pods

  unfoldable pub get_shared_gpus_index_used_in_pods : List Pod → Map Float
  unfolding shared_loop
  get_shared_gpus_index_used_in_pods pods = shared_loop [] pods

unfoldable pub is_node_ready : Node → Bool
unfolding any
is_node_ready node =
    any (λ c. str_eq c.status condition_true && str_eq c.type pod_ready) node.conditions

abbrev pub address_or : List (String × String) → String
address_or [] = "unknown"
address_or (address ∷ addresses) =
    let rest = address_or addresses in if str_eq address.0 "InternalIP" then address.1 else rest

unfoldable pub get_node_internal_address : Node → String
get_node_internal_address node = address_or node.addresses

unfoldable pub get_node_status : Node → String
unfolding select is_node_ready join
get_node_status node = join "," (
    map (λ c. c.type) (select (λ c. str_eq c.status condition_true) node.conditions)
    ++ ((if node.unschedulable then "Unschedulable" ∷ [] else [])
        ++ (if not (is_node_ready node) then "NotReady" ∷ [] else [])))

unfoldable pub is_gpu_exclusive_node : Node → Bool
unfolding lookup
is_gpu_exclusive_node node = ltb 0 (amount (lookup node.allocatable nvidia_gpu_resource_name))

-- The pods of a node among the active pods of the cluster.
unfoldable pub get_pods_on_specific_node : Node → List Pod → List Pod
unfolding is_node_ready select
get_pods_on_specific_node node pods =
    if not (is_node_ready node)
    then []
    else select
        (λ pod.
          str_eq pod.spec.node_name node.name
          && (str_eq pod.status.phase pod_running || str_eq pod.status.phase pod_pending))
        pods
