-- ===== src/Trainer/Mpi/Tests.antt =====
-- An MPI job with two launchers and a worker.
use runai_cli.Prelude.{
  ℕ, ◌+◌, ◌*◌, ◌/◌, ◌==◌, ltb, pos, negsuc, String, true, false, none, some, List, [], ◌∷◌, map,
  All, Map, get, lookup, any, find_first, ◌≡◌, refl,
}
use runai_cli.Kube.{Meta, Pod}
use runai_cli.Trainer.Amounts.{Floats}
use runai_cli.Trainer.Mpi.{
  MpiObject, MpiJob, MpiJobTrainer, zero_pod, zero_job, new_mpi_job_trainer, is_supported,
  is_chief_pod, is_pod_of_mpi_job, turn_of, pods_loop, get_pods_of_mpi_job, is_chief_job,
  get_job_type, pod_resources, get_training_job_info, listed_job, list_training_jobs,
}
use runai_cli.Trainer.Mpi.Listed.{HasPods, list_training_jobs-HasPods}
use runai_cli.Trainer.Mpi.Values.{allocated_loop, allocated_gpu}
use runai_cli.Nodes.{gpu_in_active_pod, get_gpu_fraction_used_by_pod, has_finished}

abbrev meta_of : String → Map String → ℕ → Meta
meta_of name labels created = record {
  name = name;
  namespace = "runai-team";
  uid = name;
  labels = labels;
  annotations = ("gpu-fraction", "0.5") ∷ [];
  created = created;
  deleted = none;
  owners = [];
}

abbrev pod_of : String → String → String → ℕ → Pod
pod_of name role phase created = record zero_pod {
  meta = meta_of name (("mpi_job_name", "train") ∷ ("mpi_role_type", role) ∷ []) created;
  status = record {
    phase = phase;
    reason = "";
    conditions = [];
    init_statuses = [];
    statuses = [];
  };
}

abbrev first_launcher : Pod
first_launcher = pod_of "launcher-1" "launcher" "Failed" 1

abbrev second_launcher : Pod
second_launcher = pod_of "launcher-2" "launcher" "Pending" 2

abbrev worker : Pod
worker = pod_of "worker" "worker" "Running" 1

abbrev all_pods : List Pod
all_pods = first_launcher ∷ worker ∷ second_launcher ∷ []

listing : Unit {0}
unfolding get_pods_of_mpi_job pods_loop turn_of is_chief_pod is_pod_of_mpi_job is_chief_job
    get_job_type pod_resources get_training_job_info listed_job list_training_jobs lookup get
    find_first any new_mpi_job_trainer is_supported
listing = tt

-- The pending launcher is not among the pods.
leaves_out :
    get_pods_of_mpi_job "train" "runai-team" all_pods
    ≡ (first_launcher ∷ worker ∷ [], first_launcher)
unfolding listing
leaves_out = refl

abbrev trainer : MpiJobTrainer
trainer = record { type = "mpijob"; enabled = true }

serves :
    (new_mpi_job_trainer (some ("MPIJob" ∷ [])) ≡ trainer)
    × (new_mpi_job_trainer none ≡ record { type = "mpijob"; enabled = false })
    × (new_mpi_job_trainer (some []) ≡ record { type = ""; enabled = false })
unfolding listing
serves = (refl, refl, refl)

abbrev train_object : MpiObject
train_object = record {
  meta = meta_of "train-mpijob" (("release", "train") ∷ ("priorityClassName", "build") ∷ []) 1;
  conditions = [];
  replica_statuses = true;
}

abbrev train : MpiJob
train = record {
  name = "train";
  resources =
      record { name = "launcher-1"; uid = "launcher-1"; resource_type = "Pod" }
      ∷ record { name = "worker"; uid = "worker"; resource_type = "Pod" }
      ∷ [];
  mpijob = train_object;
  chiefjob = zero_job;
  pods = first_launcher ∷ worker ∷ [];
  chief_pod = first_launcher;
  allocated_gpu = pos 0;
  trainer_type = "Interactive";
}

lists :
    list_training_jobs trainer (some (train_object ∷ [])) (some all_pods) (some [])
    ≡ some (train ∷ [])
unfolding listing
lists = refl

-- No error where the pods cannot be listed.
lists_nothing : list_training_jobs trainer (some (train_object ∷ [])) none (some []) ≡ some []
unfolding listing
lists_nothing = refl

list_training_jobs-HasPods_example :
    All (HasPods all_pods) (train ∷ []) × (map (λ row. row.mpijob) (train ∷ []) ≡ train_object ∷ [])
list_training_jobs-HasPods_example =
    list_training_jobs-HasPods trainer (train_object ∷ []) all_pods [] lists

-- Numbers of GPUs in tenths; the only fraction is a half.
abbrev halves : Floats
halves = record {
  Float = ℕ;
  zero_float = 0;
  plus = λ x y. x + y;
  times = λ x y. x * y / 10;
  of_int = λ n. 10 * n;
  is_zero = λ x. x == 0;
  parse_float = λ text. some 5;
  of_signed = λ n. elim n [ pos m ↦ 10 * m | negsuc m ↦ 0 ];
  truncate = λ x. pos (x / 10);
  divide = λ x y. x * 10 / y;
  is_positive = λ x. ltb 0 x;
}

-- The half of a GPU of the running worker is not counted.
allocates_none : (allocated_gpu halves train).1 ≡ 0
unfolding allocated_gpu allocated_loop gpu_in_active_pod get_gpu_fraction_used_by_pod has_finished
    get lookup
allocates_none = refl
