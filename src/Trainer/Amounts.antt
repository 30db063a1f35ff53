-- ===== src/Trainer/Amounts.antt =====
-- The pods and the GPUs of a listed job: the methods of cmd/trainer/runai_workload.go that count them,
-- the readers of annotations in cmd/trainer/trainer_common.go and those in cmd/util/gpu.go. Floats are a
-- parameter, and quantities are numbers.
pub mod Sums
mod Tests
use Prim.Native.String
use runai_cli.Prelude.{
  ℕ, zero, suc, ◌+◌, ◌-◌, ◌%◌, ◌^◌, ℤ, pos, negsuc, String, Bool, true, false, not, ◌&&◌, ◌||◌,
  Option, none, some, List, [], ◌∷◌, Map, get, lookup, ltb, ◌==◌, str_eq, if◌then◌else◌, atoi,
  read_number,
}
use runai_cli.Kube.{Meta, Container, Pod, pod_running, pod_pending}
use runai_cli.Trainer.Status.{is_finished_status}

pub record Floats : Type 1 where
  pub Float : Type 0
  pub zero_float : Float
  pub plus : Float → Float → Float
  pub times : Float → Float → Float
  pub of_int : ℕ → Float
  pub is_zero : Float → Bool
  pub parse_float : String → Option Float
  pub of_signed : ℤ → Float
  pub truncate : Float → ℤ
  pub divide : Float → Float → Float
  pub is_positive : Float → Bool

-- The fields of `RunaiWorkload` that are read here.
pub record Workload : Type 0 where
  pub job_annotations : Map String
  pub pods : List Pod
  pub chief_pod : Option Pod
  pub containers : List Container
  pub status : String
  pub completions : ℕ

-- `strconv.ParseUint(text, 10, 64)` and `strconv.ParseInt(text, 10, 32)`.
abbrev pub below_64 : Option ℕ → Option ℕ
below_64 none = none
below_64 (some n) = if ltb n (2 ^ 64) then some n else none

unfoldable pub parse_uint : String → Option ℕ
unfolding read_number
parse_uint text = below_64 (read_number text)

abbrev pub below_32 : Option ℤ → Option ℤ
below_32 none = none
below_32 (some (pos n)) = if ltb n (2 ^ 31) then some (pos n) else none
below_32 (some (negsuc n)) = if ltb n (2 ^ 31) then some (negsuc n) else none

unfoldable pub parse_int_32 : String → Option ℤ
unfolding atoi
parse_int_32 text = below_32 (atoi text)

-- An annotation that is not empty and can be read.
unfoldable pub read_annotation {ℓ} :
    {A : Type ℓ} → (String → Option A) → Map String → String → Option A
unfolding get
read_annotation parse annotations key =
    if str_eq (get annotations key) "" then none else parse (get annotations key)

abbrev pub or_zero : Option ℕ → ℕ
or_zero none = 0
or_zero (some n) = n

unfoldable pub get_running_pods : Map String → Option ℤ
unfolding read_annotation parse_int_32
get_running_pods annotations = read_annotation parse_int_32 annotations "runai-running-pods"

unfoldable pub get_pending_pods : Map String → Option ℤ
unfolding read_annotation parse_int_32
get_pending_pods annotations = read_annotation parse_int_32 annotations "runai-pending-pods"

unfoldable pub count_phase : String → List Pod → ℕ
count_phase phase [] = 0
count_phase phase (pod ∷ pods) =
    let rest = count_phase phase pods in if str_eq pod.status.phase phase then suc rest else rest

abbrev pub or_count : Option ℤ → ℕ → ℤ
or_count none count = pos count
or_count (some n) count = n

unfoldable pub running_pods : Workload → ℤ
unfolding get_running_pods count_phase
running_pods rj = or_count (get_running_pods rj.job_annotations) (count_phase pod_running rj.pods)

unfoldable pub pending_pods : Workload → ℤ
unfolding get_pending_pods count_phase
pending_pods rj = or_count (get_pending_pods rj.job_annotations) (count_phase pod_pending rj.pods)

-- The loop of `RequestedGPUMemory` on 64 bits; what cannot be read adds nothing.
unfoldable pub memory_loop : ℕ → List Pod → ℕ
unfolding get parse_uint
memory_loop memory [] = memory
memory_loop memory (pod ∷ pods) =
    memory_loop ((memory + or_zero (parse_uint (get pod.meta.annotations "gpu-memory"))) % 2 ^ 64)
      pods

unfoldable pub get_requested_gpus_memory_per_pod_group : Map String → ℕ
unfolding read_annotation
get_requested_gpus_memory_per_pod_group annotations =
    or_zero (read_annotation parse_uint annotations "runai-podgroup-requested-gpus-memory")

unfoldable pub requested_gpu_memory : Workload → ℕ
unfolding memory_loop get_requested_gpus_memory_per_pod_group
requested_gpu_memory rj =
    let memory = get_requested_gpus_memory_per_pod_group rj.job_annotations in
    if not (memory == 0) then memory else memory_loop memory rj.pods

unfoldable pub get_allocated_gpus_memory : Map String → ℕ
unfolding read_annotation
get_allocated_gpus_memory annotations =
    or_zero (read_annotation parse_uint annotations "runai-current-allocated-gpus-memory")

unfoldable pub get_total_requested_gpus_memory : Map String → ℕ
unfolding read_annotation
get_total_requested_gpus_memory annotations =
    or_zero (read_annotation parse_uint annotations "runai-total-requested-gpus-memory")

abbrev pub pod_node_name : Option Pod → String → String
pod_node_name none node = ""
pod_node_name (some pod) node = if not (str_eq node "") then node else pod.spec.node_name

unfoldable pub host_ip_of_chief : Workload → String
unfolding get
host_ip_of_chief rj = pod_node_name rj.chief_pod (get rj.job_annotations "runai-used-nodes")

module _ (num : Floats) where
  open num use {Float, zero_float, plus, times, of_int, is_zero, parse_float}

  abbrev pub plus_some : Float → Option Float → Float
  plus_some sum none = sum
  plus_some sum (some x) = plus sum x

  unfoldable pub fraction_loop : Float → List Pod → Float
  unfolding get
  fraction_loop sum [] = sum
  fraction_loop sum (pod ∷ pods) =
      fraction_loop (plus_some sum (parse_float (get pod.meta.annotations "gpu-fraction"))) pods

  abbrev pub limit_of : Option ℕ → Float
  limit_of none = zero_float
  limit_of (some n) = of_int n

  -- `none` is the panic at a pod without containers.
  abbrev pub container_gpu : List Container → Option Float
  container_gpu [] = none
  container_gpu (container ∷ containers) =
      some (limit_of (lookup container.limits "nvidia.com/gpu"))

  abbrev pub float_or : Option Float → Option Float → Option Float
  float_or none other = other
  float_or (some x) other = some x

  unfoldable pub requested_gpu : Workload → Option Float
  unfolding read_annotation fraction_loop lookup
  requested_gpu rj =
      float_or (read_annotation parse_float rj.job_annotations "runai-podgroup-requested-gpus") (
        let sum = fraction_loop zero_float rj.pods in
        if not (is_zero sum) then some sum else container_gpu rj.containers)

  abbrev pub has_phase : Option Pod → (String → Bool) → Bool
  has_phase none test = false
  has_phase (some pod) test = test pod.status.phase

  unfoldable pub current_requested_gpus : Workload → Option Float
  unfolding read_annotation requested_gpu
  current_requested_gpus rj =
      float_or (read_annotation parse_float rj.job_annotations "runai-current-requested-gpus") (
        if is_finished_status rj.status
        then some zero_float
        else if has_phase rj.chief_pod
            (λ phase. str_eq phase pod_running || str_eq phase pod_pending)
        then requested_gpu rj
        else some zero_float)

  unfoldable pub current_allocated_gpus : Workload → Option Float
  unfolding read_annotation requested_gpu
  current_allocated_gpus rj =
      float_or (read_annotation parse_float rj.job_annotations "runai-current-allocated-gpus") (
        if has_phase rj.chief_pod (λ phase. str_eq phase pod_running)
        then requested_gpu rj
        else some zero_float)

  unfoldable pub allocated_gpu : Workload → Option Float
  unfolding requested_gpu
  allocated_gpu rj =
      if has_phase rj.chief_pod (λ phase. str_eq phase pod_running)
      then requested_gpu rj
      else some zero_float

  abbrev pub times_some : Option Float → ℕ → Option Float
  times_some none n = none
  times_some (some x) n = some (times x (of_int n))

  unfoldable pub total_requested_gpus : Workload → Option Float
  unfolding read_annotation requested_gpu
  total_requested_gpus rj =
      float_or (read_annotation parse_float rj.job_annotations "runai-total-requested-gpus")
        (times_some (requested_gpu rj) rj.completions)
