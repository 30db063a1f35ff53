-- ===== src/Trainer/Mpi.antt =====
-- The jobs of the MPI operator: cmd/trainer/trainer_mpi.go, with GetPodLatestCondition of
-- cmd/trainer/pod_helper.go. What the cluster lists is an argument, where `none` is an error. The zero
-- values of Go, which stand for a missing launcher, are records with empty fields.
pub mod Chief
pub mod Listed
pub mod Values
mod Tests
use Prim.Native.String
use runai_cli.Prelude.{
  ℕ, zero, suc, ◌+◌, ◌-◌, ◌<◌, ◌^◌, ℤ, pos, negsuc, String, Bool, true, false, not, ◌&&◌, ◌||◌,
  Option, none, some, List, [], ◌∷◌, ◌++◌, Map, map, get, lookup, any, find_first, ltb, leb, ◌==◌,
  str_eq, if◌then◌else◌, join, atoi,
}
use runai_cli.Kube.{
  Meta, Container, Condition, Pod, pod_running, pod_pending, pod_failed, condition_true,
}
use runai_cli.Trainer.Status.{scheduler_name, status_succeeded, get_training_status}
use runai_cli.Trainer.Owners.{Resource}
use runai_cli.Trainer.Amounts.{
  read_annotation, parse_uint, or_zero, or_count, count_phase, get_running_pods, get_pending_pods,
  get_requested_gpus_memory_per_pod_group, get_allocated_gpus_memory,
}

-- The fields of `batchv1.Job` that are read here.
pub record BatchJob : Type 0 where
  pub meta : Meta
  pub containers : List Container
  pub completion_time : Option ℕ

-- `mpi.MPIJob`; `replica_statuses` says whether that map is not nil.
pub record MpiObject : Type 0 where
  pub meta : Meta
  pub conditions : List Condition
  pub replica_statuses : Bool

pub record MpiJob : Type 0 where
  pub name : String
  pub resources : List Resource
  pub mpijob : MpiObject
  pub chiefjob : BatchJob
  pub pods : List Pod
  pub chief_pod : Pod
  pub allocated_gpu : ℤ
  pub trainer_type : String

abbrev pub zero_meta : Meta
zero_meta = record {
  name = "";
  namespace = "";
  uid = "";
  labels = [];
  annotations = [];
  created = 0;
  deleted = none;
  owners = [];
}

abbrev pub zero_job : BatchJob
zero_job = record { meta = zero_meta; containers = []; completion_time = none }

abbrev pub zero_pod : Pod
zero_pod = record {
  meta = zero_meta;
  spec = record {
    scheduler_name = "";
    node_name = "";
    host_network = false;
    containers = [];
    init_containers = [];
  };
  status = record { phase = ""; reason = ""; conditions = []; init_statuses = []; statuses = [] };
}

-- The trainer itself.
pub record MpiJobTrainer : Type 0 where
  pub type : String
  pub enabled : Bool

-- From the kinds of `kubeflow.org/v1alpha2` that the cluster serves.
unfoldable pub new_mpi_job_trainer : Option (List String) → MpiJobTrainer
unfolding any
new_mpi_job_trainer none = record { type = "mpijob"; enabled = false }
new_mpi_job_trainer (some kinds) =
    if any (λ kind. str_eq kind "MPIJob") kinds
    then record { type = "mpijob"; enabled = true }
    else record { type = ""; enabled = false }

-- From the MPI jobs with the label of the name.
unfoldable pub is_supported : MpiJobTrainer → Option (List MpiObject) → Bool
is_supported tt none = false
is_supported tt (some []) = false
is_supported tt (some (mpi_job ∷ mpi_jobs)) = tt.enabled

abbrev pub has_label : Map String → String → String → Bool
has_label labels key value = elim (lookup labels key) [ none ↦ false | some v ↦ str_eq v value ]

unfoldable pub is_chief_pod : Pod → Bool
unfolding lookup
is_chief_pod item = has_label item.meta.labels "mpi_role_type" "launcher"

unfoldable pub is_pod_of_mpi_job : String → String → Pod → Bool
unfolding lookup
is_pod_of_mpi_job name namespace item =
    str_eq item.meta.namespace namespace && has_label item.meta.labels "mpi_job_name" name

-- What the loop of `getPodsOfMPIJob` does with a pod.
pub data Turn : Type 0 where
  passes adds leads : Turn

unfoldable pub turn_of : String → String → Pod → Pod → Turn
unfolding is_pod_of_mpi_job is_chief_pod
turn_of name namespace chief_pod item =
    if not (is_pod_of_mpi_job name namespace item)
    then passes
    else if is_chief_pod item && ltb chief_pod.meta.created item.meta.created
    then if not (str_eq chief_pod.meta.name "") && str_eq item.status.phase pod_pending
      then passes
      else leads
    else adds

abbrev pub next_chief : Turn → Pod → Pod → Pod
next_chief passes chief_pod item = chief_pod
next_chief adds chief_pod item = chief_pod
next_chief leads chief_pod item = item

abbrev pub take_pod : Turn → Pod → List Pod → List Pod
take_pod passes item pods = pods
take_pod adds item pods = item ∷ pods
take_pod leads item pods = item ∷ pods

-- The pods, and the last launcher, behind the launcher that has been found so far.
unfoldable pub pods_loop : String → String → Pod → List Pod → List Pod × Pod
unfolding turn_of
pods_loop name namespace chief_pod [] = ([], chief_pod)
pods_loop name namespace chief_pod (item ∷ pods) =
    let turn = turn_of name namespace chief_pod item in
    let rest = pods_loop name namespace (next_chief turn chief_pod item) pods in
    (take_pod turn item rest.0, rest.1)

unfoldable pub get_pods_of_mpi_job : String → String → List Pod → List Pod × Pod
unfolding pods_loop
get_pods_of_mpi_job name namespace pods = pods_loop name namespace zero_pod pods

abbrev pub with_suffix : String → String → String
with_suffix name suffix = String.◌++◌ name (String.◌++◌ "-" suffix)

unfoldable pub is_chief_job : String → String → BatchJob → Bool
is_chief_job name namespace job =
    str_eq job.meta.namespace namespace
    && (str_eq job.meta.name (with_suffix name "launcher")
        || str_eq job.meta.name (with_suffix name "mpijob-launcher"))

abbrev pub job_or : Option BatchJob → BatchJob → BatchJob
job_or none other = other
job_or (some job) other = job

abbrev pub first_or : List BatchJob → BatchJob → BatchJob
first_or [] other = other
first_or (job ∷ jobs) other = job

-- From the batch jobs with the labels of the name and of the name with `-mpijob`.
unfoldable pub get_chief_job : List BatchJob → List BatchJob → BatchJob
get_chief_job of_name of_mpijob_name = first_or of_name (first_or of_mpijob_name zero_job)

unfoldable pub get_job_type : MpiObject → String
unfolding get
get_job_type mpijob =
    if str_eq (get mpijob.meta.labels "priorityClassName") "build" then "Interactive" else "Train"

unfoldable pub pod_resources : List Pod → List Resource
pod_resources pods =
    map (λ pod. record { name = pod.meta.name; uid = pod.meta.uid; resource_type = "Pod" }) pods

abbrev pub resource_of : String → Meta → Resource
resource_of type meta = record { name = meta.name; uid = meta.uid; resource_type = type }

-- From the stateful sets and the batch jobs with the label of the name.
unfoldable pub resources :
    Option (List Meta) → Option (List Meta) → List Pod → Option (List Resource)
unfolding pod_resources
resources none jobs pods = none
resources (some sets) none pods = none
resources (some sets) (some jobs) pods =
    some
      (map (resource_of "StatefulSet") sets ++ (map (resource_of "Job") jobs ++ pod_resources pods))

unfoldable pub get_training_job_info :
    String → String → MpiObject → List Pod → List BatchJob → MpiJob
unfolding find_first is_chief_job get_pods_of_mpi_job get_job_type pod_resources
get_training_job_info name namespace mpi_job all_pods all_jobs =
    let found = get_pods_of_mpi_job name namespace all_pods in
    record {
      name = name;
      resources = pod_resources found.0;
      mpijob = mpi_job;
      chiefjob = job_or (find_first (is_chief_job name namespace) all_jobs) zero_job;
      pods = found.0;
      chief_pod = found.1;
      allocated_gpu = pos 0;
      trainer_type = get_job_type mpi_job;
    }

-- The name that `ListTrainingJobs` gives to an object.
abbrev pub name_of : Option String → MpiJobTrainer → MpiObject → String
name_of none tt mpi_job = mpi_job.meta.name
name_of (some val) tt mpi_job =
    if str_eq mpi_job.meta.name (with_suffix val tt.type) then val else mpi_job.meta.name

unfoldable pub listed_job : MpiJobTrainer → List Pod → List BatchJob → MpiObject → MpiJob
unfolding lookup get_training_job_info
listed_job tt pods jobs mpi_job =
    get_training_job_info (name_of (lookup mpi_job.meta.labels "release") tt mpi_job)
      mpi_job.meta.namespace mpi_job pods jobs

-- From the lists of a namespace. Where the pods or the batch jobs cannot be listed, there is no error.
unfoldable pub list_training_jobs :
    MpiJobTrainer
    → Option (List MpiObject)
    → Option (List Pod)
    → Option (List BatchJob)
    → Option (List MpiJob)
unfolding listed_job
list_training_jobs tt none pods jobs = none
list_training_jobs tt (some mpi_jobs) none jobs = some []
list_training_jobs tt (some mpi_jobs) (some pods) none = some []
list_training_jobs tt (some mpi_jobs) (some pods) (some jobs) =
    some (map (listed_job tt pods jobs) mpi_jobs)
