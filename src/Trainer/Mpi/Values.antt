-- ===== src/Trainer/Mpi/Values.antt =====
-- What is shown of an MPI job: the methods of MPIJob in cmd/trainer/trainer_mpi.go, with
-- GetPodLatestCondition of cmd/trainer/pod_helper.go. A time that is zero is the number 0.
use runai_cli.Prelude.{
  ℕ, ◌*◌, ◌%◌, ◌^◌, ℤ, pos, String, Bool, not, ◌&&◌, Option, none, some, List, [], ◌∷◌, get, lookup,
  any, atoi, ltb, ◌==◌, str_eq, if◌then◌else◌,
}
use runai_cli.Kube.{Container, Condition, Pod, pod_running, pod_pending, pod_failed, condition_true}
use runai_cli.Trainer.Status.{scheduler_name, status_pending, status_succeeded, get_training_status}
use runai_cli.Trainer.Amounts.{
  Floats, read_annotation, parse_uint, or_zero, or_count, count_phase, get_running_pods,
  get_pending_pods, get_requested_gpus_memory_per_pod_group,
}
use runai_cli.Trainer.Mpi.{MpiJob}
use runai_cli.Nodes.{gpu_in_active_pod}
use runai_cli.Nodes.Resources.{difference, plus_int, is_above_zero}

unfoldable pub get_pod_group_name : MpiJob → String
unfolding get
get_pod_group_name mj =
    if str_eq mj.chief_pod.spec.scheduler_name scheduler_name
    then get mj.chief_pod.meta.annotations "pod-group-name"
    else ""

abbrev pub image_of : List Container → String
image_of [] = "N/A"
image_of (container ∷ containers) = container.image

unfoldable pub image : MpiJob → String
image mj = image_of mj.chiefjob.containers

unfoldable pub get_status : MpiJob → String
unfolding get_training_status
get_status mj =
    if not mj.mpijob.replica_statuses
    then status_pending
    else get_training_status mj.mpijob.meta.annotations (some mj.chief_pod) ""

unfoldable pub age : ℕ → MpiJob → ℤ
unfolding difference
age now mj = if mj.mpijob.meta.created == 0 then pos 0 else difference now mj.mpijob.meta.created

unfoldable pub has_condition : List Condition → String → Bool
unfolding any
has_condition conditions type =
    any (λ c. str_eq c.type type && str_eq c.status condition_true) conditions

unfoldable pub is_failed : MpiJob → Bool
unfolding has_condition
is_failed mj = has_condition mj.mpijob.conditions "Failed"

abbrev pub later_condition : Condition → Option Condition → Condition
later_condition c none = c
later_condition c (some other) = if ltb c.changed other.changed then other else c

-- The first condition where they are sorted with the latest one first. Of several that changed at the
-- same time the sort may take any; only their time is read.
unfoldable pub latest_condition : List Condition → Option Condition
latest_condition [] = none
latest_condition (c ∷ conditions) = some (later_condition c (latest_condition conditions))

abbrev pub time_of_condition : Option Condition → ℕ
time_of_condition none = 0
time_of_condition (some c) = c.changed

abbrev pub ended_at : Option ℕ → ℕ → ℕ → ℤ
ended_at none created other = difference other created
ended_at (some time) created other = difference time created

-- When a failed job ended: `now` where no condition tells.
unfoldable pub failed_at : ℕ → MpiJob → ℕ
unfolding is_failed latest_condition
failed_at now mj =
    let changed = time_of_condition (latest_condition mj.chief_pod.status.conditions) in
    if is_failed mj && not (changed == 0) then changed else now

unfoldable pub duration : ℕ → MpiJob → ℤ
unfolding difference failed_at
duration now mj =
    if mj.mpijob.meta.created == 0
    then pos 0
    else if not (str_eq mj.chiefjob.meta.name "")
    then ended_at mj.chiefjob.completion_time mj.mpijob.meta.created (failed_at now mj)
    else difference (failed_at now mj) mj.mpijob.meta.created

abbrev pub annotated_or : Option String → ℕ → ℕ
annotated_or none other = other
annotated_or (some value) other = or_zero (parse_uint value)

unfoldable pub requested_gpu_memory : MpiJob → ℕ
unfolding get_requested_gpus_memory_per_pod_group lookup parse_uint
requested_gpu_memory mj =
    let memory = get_requested_gpus_memory_per_pod_group mj.mpijob.meta.annotations in
    if not (memory == 0)
    then memory
    else annotated_or (lookup mj.mpijob.meta.annotations "totalGPUsMemory") 0

unfoldable pub running_pods : MpiJob → ℤ
unfolding get_running_pods count_phase
running_pods mj =
    or_count (get_running_pods mj.mpijob.meta.annotations) (count_phase pod_running mj.pods)

unfoldable pub pending_pods : MpiJob → ℤ
unfolding get_pending_pods count_phase
pending_pods mj =
    or_count (get_pending_pods mj.mpijob.meta.annotations) (count_phase pod_pending mj.pods)

unfoldable pub failed : MpiJob → ℕ
unfolding count_phase
failed mj = count_phase pod_failed mj.pods

unfoldable pub succeeded : MpiJob → ℕ
unfolding get_status
succeeded mj = if str_eq (get_status mj) status_succeeded then 1 else 0

abbrev pub parallelism : ℕ
parallelism = 1

unfoldable pub total_requested_gpus_memory : MpiJob → ℕ
unfolding requested_gpu_memory
total_requested_gpus_memory mj = requested_gpu_memory mj * parallelism % 2 ^ 64

abbrev pub or_no_memory : Option ℤ → ℤ
or_no_memory none = pos 0
or_no_memory (some n) = n

unfoldable pub current_requested_gpus_memory : MpiJob → ℤ
unfolding read_annotation
current_requested_gpus_memory mj =
    or_no_memory
      (read_annotation atoi mj.mpijob.meta.annotations "runai-current-requested-gpus-memory")

unfoldable pub project : MpiJob → String
unfolding get
project mj = get mj.mpijob.meta.labels "project"

unfoldable pub user : MpiJob → String
unfolding get
user mj =
    if not (str_eq (get mj.mpijob.meta.annotations "user") "")
    then get mj.mpijob.meta.annotations "user"
    else get mj.mpijob.meta.labels "user"

module _ (num : Floats) where
  open num use {Float, zero_float, times, of_int, parse_float, of_signed, truncate}

  abbrev pub parsed_or_zero : Option String → Float
  parsed_or_zero none = zero_float
  parsed_or_zero (some value) = elim (parse_float value) [ none ↦ zero_float | some x ↦ x ]

  abbrev pub value_or : Option Float → Float → Float
  value_or none other = other
  value_or (some x) other = x

  unfoldable pub requested_gpu : MpiJob → Float
  unfolding read_annotation lookup
  requested_gpu mj =
      value_or
        (read_annotation parse_float mj.mpijob.meta.annotations "runai-podgroup-requested-gpus")
        (parsed_or_zero (lookup mj.mpijob.meta.annotations "totalGPUs"))

  unfoldable pub current_requested_gpus : MpiJob → Float
  unfolding read_annotation requested_gpu
  current_requested_gpus mj =
      value_or
        (read_annotation parse_float mj.mpijob.meta.annotations "runai-current-requested-gpus")
        (requested_gpu mj)

  unfoldable pub current_allocated_gpus : MpiJob → Float
  unfolding read_annotation requested_gpu
  current_allocated_gpus mj =
      value_or
        (read_annotation parse_float mj.mpijob.meta.annotations "runai-current-allocated-gpus")
        (requested_gpu mj)

  unfoldable pub total_requested_gpus : MpiJob → Float
  unfolding requested_gpu
  total_requested_gpus mj = times (requested_gpu mj) (of_int parallelism)

  unfoldable pub allocated_loop : ℤ → List Pod → ℤ
  unfolding gpu_in_active_pod plus_int
  allocated_loop allocated [] = allocated
  allocated_loop allocated (pod ∷ pods) =
      allocated_loop
        (if str_eq pod.status.phase pod_running
          then plus_int allocated (truncate (gpu_in_active_pod num pod))
          else allocated)
        pods

  -- The job keeps the number that it has counted.
  unfoldable pub allocated_gpu : MpiJob → MpiJob × Float
  unfolding allocated_loop
  allocated_gpu mj =
      let allocated =
        if is_above_zero mj.allocated_gpu
        then mj.allocated_gpu
        else allocated_loop mj.allocated_gpu mj.pods in
      (record mj { allocated_gpu = allocated }, of_signed allocated)
