-- ===== src/Trainer/Amounts/Tests.antt =====
-- Amounts of a job with two pods.
use runai_cli.Prelude.{
  ℕ, ◌+◌, ◌*◌, ◌/◌, ◌==◌, ltb, negsuc, String, false, none, some, Map, [], ◌∷◌, get, lookup, atoi,
  read_number, pos, ◌≡◌, refl,
}
use mathlib.Core.List.Perm
use runai_cli.Kube.{Pod}
use runai_cli.Trainer.Status.{is_finished_status}
use runai_cli.Trainer.Amounts.{
  Floats, Workload, parse_uint, parse_int_32, read_annotation, get_running_pods, get_pending_pods,
  count_phase, running_pods, pending_pods, memory_loop, get_requested_gpus_memory_per_pod_group,
  requested_gpu_memory, fraction_loop, requested_gpu, current_requested_gpus,
  current_allocated_gpus, allocated_gpu, total_requested_gpus, host_ip_of_chief,
}
use runai_cli.Trainer.Amounts.Sums.{IsCounted, amounts-IsCounted}

-- Numbers of GPUs in tenths, and no fractions in annotations.
abbrev tenths_of_gpu : Floats
tenths_of_gpu = record {
  Float = ℕ;
  zero_float = 0;
  plus = λ x y. x + y;
  times = λ x y. x * y;
  of_int = λ n. 10 * n;
  is_zero = λ x. x == 0;
  parse_float = λ text. none;
  of_signed = λ n. elim n [ pos m ↦ 10 * m | negsuc m ↦ 0 ];
  truncate = λ x. pos (x / 10);
  divide = λ x y. x / y;
  is_positive = λ x. ltb 0 x;
}

abbrev pod_with : String → String → Pod
pod_with phase memory = record {
  meta = record {
    name = "p";
    namespace = "runai-team";
    uid = "p";
    labels = [];
    annotations = ("gpu-memory", memory) ∷ [];
    created = 7;
    deleted = none;
    owners = [];
  };
  spec = record {
    scheduler_name = "runai-scheduler";
    node_name = "node";
    host_network = false;
    containers = [];
    init_containers = [];
  };
  status = record {
    phase = phase;
    reason = "";
    conditions = [];
    init_statuses = [];
    statuses = [];
  };
}

abbrev first_pod : Pod
first_pod = pod_with "Running" "500"

abbrev second_pod : Pod
second_pod = pod_with "Pending" "1e3"

abbrev workload : Map String → Workload
workload annotations = record {
  job_annotations = annotations;
  pods = first_pod ∷ second_pod ∷ [];
  chief_pod = some first_pod;
  containers =
      record {
        name = "c";
        image = "i";
        limits = ("nvidia.com/gpu", 2) ∷ [];
        requests = [];
        ports = [];
      }
      ∷ [];
  status = "Running";
  completions = 3;
}

counting : Unit {0}
unfolding parse_uint parse_int_32 read_annotation get_running_pods get_pending_pods count_phase
    running_pods pending_pods memory_loop get_requested_gpus_memory_per_pod_group
    requested_gpu_memory fraction_loop requested_gpu current_requested_gpus current_allocated_gpus
    allocated_gpu total_requested_gpus host_ip_of_chief is_finished_status get lookup atoi
    read_number
counting = tt

counts :
    (running_pods (workload []) ≡ pos 1)
    × (pending_pods (workload []) ≡ pos 1)
    × (running_pods (workload (("runai-running-pods", "7") ∷ [])) ≡ pos 7)
    × (running_pods (workload (("runai-running-pods", "3000000000") ∷ [])) ≡ pos 1)
    × (requested_gpu_memory (workload []) ≡ 500)
    × (requested_gpu_memory (workload (("runai-podgroup-requested-gpus-memory", "900") ∷ [])) ≡ 900)
    × (host_ip_of_chief (workload []) ≡ "node")
unfolding counting
counts = (refl, refl, refl, refl, refl, refl, refl)

gpus :
    (requested_gpu tenths_of_gpu (workload []) ≡ some 20)
    × (current_requested_gpus tenths_of_gpu (workload []) ≡ some 20)
    × (current_allocated_gpus tenths_of_gpu (record (workload []) { chief_pod = none }) ≡ some 0)
    × (total_requested_gpus tenths_of_gpu (workload []) ≡ some 600)
    × (requested_gpu tenths_of_gpu (record (workload []) { containers = [] }) ≡ none)
unfolding counting
gpus = (refl, refl, refl, refl, refl)

amounts-IsCounted_example : IsCounted (workload []) (second_pod ∷ first_pod ∷ [])
amounts-IsCounted_example =
    amounts-IsCounted (workload []) (second_pod ∷ first_pod ∷ [])
      (Perm.swap second_pod first_pod [])
