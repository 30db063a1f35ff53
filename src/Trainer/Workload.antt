-- ===== src/Trainer/Workload.antt =====
-- Start and end of a listed job: cmd/trainer/runai_workload.go. A time is a number; the clock is an
-- argument: what it says when the method begins, and when it is read for a pod.
pub mod Times
mod Tests
use runai_cli.Prelude.{
  ℕ, ◌-◌, String, Bool, true, false, not, ◌&&◌, ◌||◌, Option, none, some, is_some, List, [], ◌∷◌,
  Map, get, ltb, str_eq, if◌then◌else◌, find_first, length, ℤ, pos, negsuc,
}
use runai_cli.Kube.{
  Condition, Meta, Pod, condition_true, pod_initialized, pod_ready, pod_succeeded, pod_failed,
}
use runai_cli.Trainer.Status.{scheduler_name}

-- The fields of `RunaiWorkload` that are read here.
pub record RunaiWorkload : Type 0 where
  pub chief_pod : Option Pod
  pub pods : List Pod
  pub parallelism : ℕ
  pub job_metadata : Meta

abbrev pub changed_at : Option Condition → Option ℕ
changed_at none = none
changed_at (some condition) = some condition.changed

unfoldable pub get_start_time_of_pod : Option Pod → Option ℕ
unfolding find_first
get_start_time_of_pod none = none
get_start_time_of_pod (some pod) = changed_at (
    find_first (λ c. str_eq c.type pod_initialized && str_eq c.status condition_true)
      pod.status.conditions)

abbrev pub time_or : Option ℕ → ℕ → ℕ
time_or none other = other
time_or (some time) other = time

abbrev pub has_ended : Pod → Bool
has_ended pod = str_eq pod.status.phase pod_succeeded || str_eq pod.status.phase pod_failed

-- Never nil: a pod that has not ended, or whose end is not told, ends now.
unfoldable pub get_end_time_of_pod : ℕ → Option Pod → ℕ
unfolding find_first
get_end_time_of_pod now none = now
get_end_time_of_pod now (some pod) =
    if has_ended pod
    then time_or (changed_at (find_first (λ c. str_eq c.type pod_ready) pod.status.conditions)) now
    else now

-- The earlier of two times, where the first is kept unless the second is there and earlier.
abbrev pub earlier : Option ℕ → Option ℕ → Option ℕ
earlier earliest none = earliest
earlier none (some start) = some start
earlier (some earliest) (some start) = some (if ltb start earliest then start else earliest)

unfoldable pub start_loop : Option ℕ → List Pod → Option ℕ
unfolding get_start_time_of_pod
start_loop earliest [] = earliest
start_loop earliest (pod ∷ pods) =
    start_loop (earlier earliest (get_start_time_of_pod (some pod))) pods

unfoldable pub start_time : RunaiWorkload → Option ℕ
unfolding start_loop
start_time rj =
    if ltb 1 rj.parallelism then start_loop none rj.pods else get_start_time_of_pod rj.chief_pod

unfoldable pub finish_loop : (Pod → ℕ) → ℕ → List Pod → ℕ
unfolding get_end_time_of_pod
finish_loop clock latest [] = latest
finish_loop clock latest (pod ∷ pods) =
    let end = get_end_time_of_pod (clock pod) (some pod) in
    finish_loop clock (if ltb latest end then end else latest) pods

unfoldable pub finish_time : ℕ → (Pod → ℕ) → RunaiWorkload → ℕ
unfolding finish_loop
finish_time now clock rj =
    if ltb 1 rj.parallelism
    then finish_loop clock now rj.pods
    else get_end_time_of_pod now rj.chief_pod

unfoldable pub get_pod_group_name : RunaiWorkload → String
unfolding get
get_pod_group_name rj = elim rj.chief_pod [
  | none ↦ get rj.job_metadata.annotations "pod-group-name"
  | some pod ↦
      if not (str_eq pod.spec.scheduler_name scheduler_name) then "" else elim pod.meta.labels [
        | [] ↦ ""
        | ◌∷◌ label labels ↦ get pod.meta.annotations "pod-group-name"
      ]
]
