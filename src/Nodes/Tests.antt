-- ===== src/Nodes/Tests.antt =====
-- A node with shared GPUs.
use runai_cli.Prelude.{
  ℕ, ◌+◌, ◌*◌, ◌/◌, ◌==◌, ◌<◌, ltb, pos, negsuc, String, true, none, some, List, [], ◌∷◌, Map, get,
  lookup, assign, select, any, atoi, join, read_number, read_digits, ◌≡◌, refl, arith,
}
use runai_cli.Kube.{Pod}
use runai_cli.Trainer.Amounts.{Floats}
use runai_cli.Nodes.{
  Node, gpu_capacity, total_gpu_count, num_shared_gpus, minus_64, gpu_in_active_pod, gpu_in_pod,
  gpu_loop, container_gpu_limits, has_finished, get_gpu_fraction_used_by_pod, shared_loop,
  get_shared_gpus_index_used_in_pods, get_node_status, is_node_ready, get_pods_on_specific_node,
}
use runai_cli.Trainer.Mpi.{zero_pod, zero_meta}
use runai_cli.Nodes.Shared.{uses_gpu, sum_behind, lookup-shared_gpus}
use runai_cli.Nodes.Resources.{
  NodeGpuResource, difference, plus_int, opposite, minus_int, kube_quantity_to_float_64,
  add_kube_resource_list_to_resource_list, pods_loop, get_resources_status, gpu_view, to_gpus,
}
use runai_cli.Nodes.Balance.{IsExact, IsBalanced, allocatable_gpus, to_gpus-IsBalanced}
use runai_cli.Nodes.Metrics.{
  MetricResult, add_result, results_loop, queries_loop, group_multi_queries_to_items,
}
use runai_cli.Nodes.Grouped.{IsGrouped, group_multi_queries_to_items-IsGrouped}

abbrev whole : Floats
whole = record {
  Float = ℕ;
  zero_float = 0;
  plus = λ x y. x + y;
  times = λ x y. x * y;
  of_int = λ n. n;
  is_zero = λ x. x == 0;
  parse_float = λ text. some 1;
  of_signed = λ n. elim n [ pos m ↦ m | negsuc m ↦ 0 ];
  truncate = λ x. pos x;
  divide = λ x y. x / y;
  is_positive = λ x. ltb 0 x;
}

whole-IsExact : IsExact whole
whole-IsExact = record {
  zero_exact = refl;
  plus_exact = λ m n small. refl;
  signed_exact = λ n. refl;
  truncate_exact = λ n small. refl;
}

-- Four GPUs, of which one is shared.
abbrev node : Node
node = record {
  name = "node";
  labels = ("nvidia.com/gpu.count", "4") ∷ [];
  capacity = ("nvidia.com/gpu", 3) ∷ [];
  allocatable = ("nvidia.com/gpu", 3) ∷ [];
  conditions = [];
  unschedulable = true;
  addresses = [];
}

viewing : Unit {0}
unfolding gpu_capacity total_gpu_count num_shared_gpus minus_64 gpu_in_active_pod gpu_in_pod
    gpu_loop container_gpu_limits has_finished get_gpu_fraction_used_by_pod shared_loop
    get_shared_gpus_index_used_in_pods get_node_status is_node_ready get_pods_on_specific_node
    difference plus_int opposite minus_int kube_quantity_to_float_64
    add_kube_resource_list_to_resource_list pods_loop get_resources_status gpu_view to_gpus lookup
    assign get select any atoi read_number read_digits add_result results_loop queries_loop
    group_multi_queries_to_items
viewing = tt

status : get_node_status node ≡ "Unschedulable,NotReady"
unfolding viewing join
status = refl

shares : num_shared_gpus node ≡ pos 1
unfolding viewing
shares = refl

abbrev view : NodeGpuResource ℕ
view = record {
  gpu_type = "";
  capacity = pos 3;
  allocatable = 4;
  allocated = 0;
  in_use = pos 1;
  free = pos 2;
  utilization = 0;
  usage = 0;
  unhealthy = negsuc 0;
}

-- One GPU fewer than none is unhealthy.
views : to_gpus whole (get_resources_status whole node []) ≡ some view
unfolding viewing
views = refl

few : gpu_capacity node < 9007199254740992
unfolding viewing
few = omega arith

few_allocatable : 1 + allocatable_gpus whole whole-IsExact node < 9007199254740992
unfolding viewing
few_allocatable = omega arith

to_gpus-IsBalanced_example :
    IsBalanced whole whole-IsExact node 1 (get_resources_status whole node []) view
to_gpus-IsBalanced_example =
    to_gpus-IsBalanced whole whole-IsExact node [] 1 shares few few_allocatable views

abbrev sharing : String → String → Pod
sharing phase index = record zero_pod {
  meta = record zero_meta { annotations = ("runai-gpu", index) ∷ ("gpu-fraction", "0.5") ∷ [] };
  status = record {
    phase = phase;
    reason = "";
    conditions = [];
    init_statuses = [];
    statuses = [];
  };
}

abbrev sharing_pods : List Pod
sharing_pods =
    sharing "Running" "0"
    ∷ sharing "Failed" "0"
    ∷ sharing "Running" "1"
    ∷ sharing "Pending" "0"
    ∷ []

adds_up : lookup (get_shared_gpus_index_used_in_pods whole sharing_pods) "0" ≡ some 2
unfolding viewing
adds_up = refl

lookup-shared_gpus_example :
    lookup (get_shared_gpus_index_used_in_pods whole sharing_pods) "0"
    ≡ sum_behind whole none (select (uses_gpu "0") sharing_pods)
lookup-shared_gpus_example = lookup-shared_gpus whole "0" sharing_pods

abbrev result_of : String → String → MetricResult
result_of item value = record { metric = ("node", item) ∷ []; value = value }

abbrev queries : Map (List MetricResult)
queries =
    ("usedGpus", result_of "a" "1" ∷ result_of "b" "2" ∷ [])
    ∷ ("usedCpus", result_of "a" "3" ∷ [])
    ∷ []

groups :
    group_multi_queries_to_items (some queries) "node"
    ≡ some (
        ("a", ("usedGpus", result_of "a" "1" ∷ []) ∷ ("usedCpus", result_of "a" "3" ∷ []) ∷ [])
        ∷ ("b", ("usedGpus", result_of "b" "2" ∷ []) ∷ [])
        ∷ [])
unfolding viewing
groups = refl

group_multi_queries_to_items-IsGrouped_example :
    IsGrouped "node" queries (group_multi_queries_to_items (some queries) "node")
group_multi_queries_to_items-IsGrouped_example =
    group_multi_queries_to_items-IsGrouped "node" queries
