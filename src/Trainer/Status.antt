-- ===== src/Trainer/Status.antt =====
-- The status of a job: cmd/trainer/trainer_common.go, with the names of cmd/constants/const.go.
pub mod Column
pub mod Training
mod Tests
use Prim.Native.String
use runai_cli.Prelude.{
  ℕ, zero, suc, ◌+◌, String, Bool, true, false, not, ◌&&◌, ◌||◌, Option, none, some, is_some, List,
  [], ◌∷◌, Map, lookup, length, ◌==◌, str_eq, if◌then◌else◌, any, decimal,
}
use runai_cli.Kube.{
  Condition, ContainerStatus, Terminated, Pod, PodStatus, condition_true, pod_ready,
}

abbrev pub scheduler_name : String
scheduler_name = "runai-scheduler"

abbrev pub workload_calculated_status : String
workload_calculated_status = "runai-calculated-status"

abbrev pub status_running : String
status_running = "Running"

abbrev pub status_pending : String
status_pending = "Pending"

abbrev pub status_succeeded : String
status_succeeded = "Succeeded"

abbrev pub status_deleted : String
status_deleted = "Deleted"

abbrev pub status_failed : String
status_failed = "Failed"

abbrev pub status_timed_out : String
status_timed_out = "TimedOut"

abbrev pub status_preempted : String
status_preempted = "Preempted"

abbrev pub status_unknown : String
status_unknown = "Unknown"

unfoldable pub is_finished_status : String → Bool
is_finished_status status =
    str_eq status status_succeeded
    || (str_eq status status_failed
        || (str_eq status status_deleted
            || (str_eq status status_preempted || str_eq status status_timed_out)))

unfoldable pub has_pod_ready_condition : List Condition → Bool
unfolding any
has_pod_ready_condition conditions =
    any (λ c. str_eq c.type pod_ready && str_eq c.status condition_true) conditions

-- What a container that ended shows, behind a prefix.
unfoldable pub ended : String → Terminated → String
unfolding decimal
ended prefix t =
    if str_eq t.reason ""
    then (if not (t.signal == 0)
        then String.◌++◌ prefix (String.◌++◌ "Signal:" (decimal t.signal))
        else String.◌++◌ prefix (String.◌++◌ "ExitCode:" (decimal t.exit_code)))
    else String.◌++◌ prefix t.reason

abbrev pub init_progress : ℕ → ℕ → String
init_progress i total =
    String.◌++◌ "Init:" (String.◌++◌ (decimal i) (String.◌++◌ "/" (decimal total)))

-- A container that is not done: one that waits for a reason of its own, or any other.
unfoldable pub init_waiting : ℕ → ℕ → Option String → String
init_waiting total i none = init_progress i total
init_waiting total i (some reason) =
    if not (str_eq reason "") && not (str_eq reason "PodInitializing")
    then String.◌++◌ "Init:" reason
    else init_progress i total

-- The body of the loop over the init containers: `none` goes on to the next one.
unfoldable pub init_reason : ℕ → ℕ → ContainerStatus → Option Terminated → Option String
unfolding ended init_waiting
init_reason total i c none = some (init_waiting total i c.waiting)
init_reason total i c (some t) = if t.exit_code == 0 then none else some (ended "Init:" t)

-- The loop: the reason of the first init container that is not done, if there is one.
unfoldable pub init_loop : ℕ → ℕ → List ContainerStatus → Option String
unfolding init_reason
init_loop total i [] = none
init_loop total i (c ∷ cs) =
    let later = init_loop total (i + 1) cs in
    elim (init_reason total i c c.terminated) [ none ↦ later | some reason ↦ some reason ]

-- What one container makes of the reason: `none` leaves it.
abbrev pub ended_reason : Option Terminated → Option String
ended_reason none = none
ended_reason (some t) = some (ended "" t)

unfoldable pub container_reason : Option String → Option Terminated → Option String
unfolding ended
container_reason none t = ended_reason t
container_reason (some reason) t = if not (str_eq reason "") then some reason else ended_reason t

-- The loop over the containers runs from the last to the first.
unfoldable pub containers_loop : String → List ContainerStatus → String × Bool
unfolding container_reason
containers_loop reason [] = (reason, false)
containers_loop reason (c ∷ cs) =
    let (later, has_running) = containers_loop reason cs in
    elim (container_reason c.waiting c.terminated) [
      | some own ↦ (own, has_running)
      | none ↦ (later, has_running || (c.ready && c.running))
    ]

unfoldable pub containers_status : Pod → String → String
unfolding containers_loop has_pod_ready_condition
containers_status pod reason =
    let (last, has_running) = containers_loop reason pod.status.statuses in
    if str_eq last "Completed" && has_running
    then (if has_pod_ready_condition pod.status.conditions then "Running" else "NotReady")
    else last

-- The status that `kubectl` would show.
unfoldable pub get_status_column_from_pod_status : Pod → String
unfolding init_loop containers_status
get_status_column_from_pod_status pod =
    let reason =
      if not (str_eq pod.status.reason "") then pod.status.reason else pod.status.phase in
    let shown : String =
      elim (init_loop (length pod.spec.init_containers) 0 pod.status.init_statuses) [
        | some initializing ↦ initializing
        | none ↦ containers_status pod reason
      ] in
    if is_some pod.meta.deleted && str_eq pod.status.reason "NodeLost"
    then "Unknown"
    else if is_some pod.meta.deleted
    then "Terminating"
    else shown

abbrev pub pod_status : Option Pod → String
pod_status none = status_unknown
pod_status (some pod) = get_status_column_from_pod_status pod

abbrev pub is_true_text : Option String → Bool
is_true_text none = false
is_true_text (some value) = str_eq value "true"

abbrev pub is_finished : Option String → Bool
is_finished none = false
is_finished (some status) = is_finished_status status

abbrev pub status_or : Option String → String → String
status_or none other = other
status_or (some status) other = status

-- The status from the calculated one, the mark "unschedulable", the workload and the pod.
unfoldable pub choose_status : Option String → Option String → String → String → String
choose_status calculated unschedulable workload_status pod =
    if is_finished calculated
    then status_or calculated ""
    else if is_true_text unschedulable
    then "Unschedulable"
    else if not (str_eq workload_status "")
    then workload_status
    else status_or calculated pod

unfoldable pub get_training_status : Map String → Option Pod → String → String
unfolding choose_status
get_training_status annotations chief workload_status =
    choose_status (lookup annotations workload_calculated_status)
      (lookup annotations "unschedulable") workload_status (pod_status chief)
