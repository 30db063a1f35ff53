-- ===== src/Trainer/Workload/Tests.antt =====
-- The times of concrete jobs.
use runai_cli.Prelude.{ℕ, ◌≤◌, false, none, some, [], ◌∷◌, get, find_first, ◌≡◌, refl, All, arith}
use runai_cli.Kube.{Meta, Pod}
use runai_cli.Trainer.Workload.{
  RunaiWorkload, get_start_time_of_pod, get_end_time_of_pod, start_loop, start_time, finish_loop,
  finish_time, get_pod_group_name,
}
use runai_cli.Trainer.Workload.Times.{IsEarliest, start_time-IsEarliest, finish_time-le}

-- What a test unfolds to compute a time.
timing : Unit {0}
unfolding start_time start_loop get_start_time_of_pod finish_time finish_loop get_end_time_of_pod
    find_first get_pod_group_name get
timing = tt

abbrev some_meta : Meta
some_meta = record {
  name = "p";
  namespace = "n";
  uid = "u";
  labels = [];
  annotations = ("pod-group-name", "g") ∷ [];
  created = 0;
  deleted = none;
  owners = [];
}

abbrev pod_between : ℕ → ℕ → Pod
pod_between start end = record {
  meta = some_meta;
  spec = record {
    scheduler_name = "runai-scheduler";
    node_name = "";
    host_network = false;
    containers = [];
    init_containers = [];
  };
  status = record {
    phase = "Succeeded";
    reason = "";
    conditions =
        record { type = "Initialized"; status = "True"; changed = start }
        ∷ record { type = "Ready"; status = "False"; changed = end }
        ∷ [];
    init_statuses = [];
    statuses = [];
  };
}

abbrev two_pods : RunaiWorkload
two_pods = record {
  chief_pod = some (pod_between 5 9);
  pods = pod_between 5 9 ∷ pod_between 3 8 ∷ [];
  parallelism = 2;
  job_metadata = some_meta;
}

times :
    (start_time two_pods ≡ some 3)
    × (finish_time 100 (λ p. 100) two_pods ≡ 100)
    × (finish_time 100 (λ p. 100) (record two_pods { parallelism = 1 }) ≡ 9)
    × (get_pod_group_name (record two_pods { chief_pod = none }) ≡ "g")
    × (get_pod_group_name two_pods ≡ "")
unfolding timing
times = (refl, refl, refl, refl, refl)

start_time-IsEarliest_example : IsEarliest none two_pods.pods (start_time two_pods)
start_time-IsEarliest_example = start_time-IsEarliest two_pods (omega arith)

finishes_after :
    (100 ≤ finish_time 100 (λ p. 100) two_pods)
    × All
        (λ p. get_end_time_of_pod 100 (some p) ≤ finish_time 100 (λ p. 100) two_pods)
        two_pods.pods
finishes_after = finish_time-le 100 (λ p. 100) two_pods (omega arith)
