-- ===== src/Trainer/Status/Tests.antt =====
-- Statuses of pods and jobs, and their theorems at concrete objects.
use runai_cli.Prelude.{
  ℕ, String, true, false, none, some, List, [], ◌∷◌, lookup, ◌≡◌, ◌≢◌, refl, ◌⊎◌, any,
  if◌then◌else◌, decimal, arith,
}
use runai_cli.Kube.{Meta, Pod, ContainerStatus}
use runai_cli.Trainer.Status.{
  is_finished_status, get_status_column_from_pod_status, get_training_status,
  has_pod_ready_condition, container_reason,
}
use runai_cli.Trainer.Status.Column.{
  IsDone, StartsWithInit, is_serving, get_status-StartsWithInit, get_status-first_reason,
}
use runai_cli.Trainer.Status.Training.{get_training_status-finished}

-- What a test unfolds to compute a status.
statuses : Unit {0}
unfolding get_status_column_from_pod_status get_training_status is_finished_status lookup any
    decimal container_reason has_pod_ready_condition
statuses = tt

abbrev no_meta : Meta
no_meta = record {
  name = "p";
  namespace = "runai-team";
  uid = "u1";
  labels = [];
  annotations = [];
  created = 0;
  deleted = none;
  owners = [];
}

abbrev ended_with : ℕ → ContainerStatus
ended_with code = record {
  terminated = some (record { exit_code = code; signal = 0; reason = "" });
  waiting = none;
  running = false;
  ready = false;
}

abbrev serving : ContainerStatus
serving = record { terminated = none; waiting = none; running = true; ready = true }

abbrev pod_with : List ContainerStatus → List ContainerStatus → Pod
pod_with inits containers = record {
  meta = no_meta;
  spec = record {
    scheduler_name = "runai-scheduler";
    node_name = "n";
    host_network = false;
    containers = [];
    init_containers = [];
  };
  status = record {
    phase = "Running";
    reason = "";
    conditions = [];
    init_statuses = inits;
    statuses = containers;
  };
}

columns :
    (get_status_column_from_pod_status (pod_with (ended_with 0 ∷ ended_with 3 ∷ []) [])
      ≡ "Init:ExitCode:3")
    × (get_status_column_from_pod_status (pod_with (serving ∷ []) []) ≡ "Init:0/0")
    × (get_status_column_from_pod_status (pod_with [] (serving ∷ ended_with 12 ∷ []))
        ≡ "ExitCode:12")
    × (get_status_column_from_pod_status (pod_with [] (serving ∷ [])) ≡ "Running")
unfolding statuses
columns = (refl, refl, refl, refl)

not-IsDone : ¬ (IsDone (ended_with 3))
not-IsDone (t, e, z) = ground arith

get_status-StartsWithInit_example :
    StartsWithInit
      (get_status_column_from_pod_status (pod_with (ended_with 0 ∷ ended_with 3 ∷ []) []))
get_status-StartsWithInit_example =
    get_status-StartsWithInit (pod_with (ended_with 0 ∷ ended_with 3 ∷ []) []) (ended_with 0 ∷ [])
      (ended_with 3) [] refl refl ((_, refl, refl), tt) not-IsDone

first_reason_shown :
    ((◌≢◌ {A = String} "ExitCode:12" "Completed"
        ⊎ (any is_serving (serving ∷ ended_with 12 ∷ []) ≡ false))
      → get_status_column_from_pod_status (pod_with [] (serving ∷ ended_with 12 ∷ []))
        ≡ "ExitCode:12")
    × (◌≡◌ {A = String} "ExitCode:12" "Completed"
        → any is_serving (serving ∷ ended_with 12 ∷ []) ≡ true
        → get_status_column_from_pod_status (pod_with [] (serving ∷ ended_with 12 ∷ []))
          ≡ (if has_pod_ready_condition [] then "Running" else "NotReady"))
unfolding statuses
first_reason_shown =
    get_status-first_reason (pod_with [] (serving ∷ ended_with 12 ∷ [])) refl tt "ExitCode:12" refl

stays_finished :
    is_finished_status
      (get_training_status (("runai-calculated-status", "Running") ∷ []) none "Failed")
    ≡ true
unfolding statuses
stays_finished =
    get_training_status-finished (("runai-calculated-status", "Running") ∷ []) none "Failed" refl
      (λ e. cc e)
