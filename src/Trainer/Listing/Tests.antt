-- ===== src/Trainer/Listing/Tests.antt =====
-- The list of a namespace with one job and its pod.
use runai_cli.Prelude.{
  String, true, false, Option, none, some, List, [], ◌∷◌, select, any, has_key, get, lookup, assign,
  ◌≡◌, refl,
}
use runai_cli.Kube.{OwnerReference, Meta, Pod, PodSpec}
use runai_cli.Trainer.Status.{get_training_status, choose_status, get_status_column_from_pod_status}
use runai_cli.Trainer.Owners.{
  ReplicaSets, is_replica_set, top_owner_loop, get_pod_top_owner, is_mpi_pod, add_pod, is_skipped,
  group_pods, get_pod_job_map,
}
use runai_cli.Trainer.Jobs.{
  Job, has_failed, pod_template_job_from_job, pod_template_job_from_stateful_set,
  pod_template_job_from_pod, pod_template_job_from_runai_job, is_runai_pod_object, get_job_type,
  update_entry, add_job, add_jobs,
}
use runai_cli.Trainer.Services.{get_last_created_pod}
use runai_cli.Trainer.Named.{get_ingress_service, get_ingresses_for_namespace}
use runai_cli.Trainer.Listing.{
  Namespace, ListedJob, and_then, unless_error, get_pods_without_owner, from_deployments,
  jobs_for_list_command, listed_job, rows_of, list_training_jobs,
}
use runai_cli.Trainer.Listing.Objects.{IsObject}
use runai_cli.Trainer.Listing.Rows.{IsShown, list_training_jobs-IsShown}

abbrev meta_with : String → List OwnerReference → Meta
meta_with uid owners = record {
  name = "train";
  namespace = "runai-team";
  uid = uid;
  labels = [];
  annotations = [];
  created = 7;
  deleted = none;
  owners = owners;
}

abbrev runai_spec : PodSpec
runai_spec = record {
  scheduler_name = "runai-scheduler";
  node_name = "";
  host_network = false;
  containers = [];
  init_containers = [];
}

abbrev owned_pod : Pod
owned_pod = record {
  meta =
      meta_with "p"
        (record { kind = "Job"; name = "train"; uid = "j"; controller = some true } ∷ []);
  spec = runai_spec;
  status = record {
    phase = "Running";
    reason = "";
    conditions = [];
    init_statuses = [];
    statuses = [];
  };
}

abbrev runai_job : Job
runai_job = record {
  meta = meta_with "j" [];
  template = record { meta = meta_with "j" []; spec = runai_spec };
  selector = some [];
  parallelism = none;
  completions = none;
  conditions = [];
  completed = false;
  active = 1;
  failed = 0;
  succeeded = 0;
}

abbrev namespace : Namespace
namespace = record {
  services = some [];
  nodes = some [];
  nginx_services = some [];
  ingresses = none;
  pods = some (owned_pod ∷ []);
  replica_sets = some [];
  jobs = runai_job ∷ [];
  stateful_sets = [];
  deployments = [];
  runai_jobs = [];
  pods_again = none;
}

listing_jobs : Unit {0}
unfolding list_training_jobs rows_of listed_job jobs_for_list_command from_deployments
    get_pods_without_owner and_then unless_error get_ingress_service get_ingresses_for_namespace
    get_pod_job_map group_pods is_skipped add_pod is_mpi_pod get_pod_top_owner top_owner_loop
    is_replica_set add_jobs add_job update_entry get_job_type is_runai_pod_object has_failed
    pod_template_job_from_job pod_template_job_from_stateful_set pod_template_job_from_runai_job
    pod_template_job_from_pod lookup assign has_key get any select get_last_created_pod
    get_training_status choose_status get_status_column_from_pod_status
listing_jobs = tt

abbrev the_rows : Option (Option (List ListedJob)) → List ListedJob
the_rows (some (some rows)) = rows
the_rows other = []

-- What the list shows of its first job.
abbrev first_status : List ListedJob → String
first_status [] = ""
first_status (row ∷ rows) = row.info.status

listings :
    (first_status (the_rows (list_training_jobs namespace)) ≡ "Running")
    × (list_training_jobs (record namespace { nodes = none }) ≡ some none)
    × (list_training_jobs (record namespace { services = none; pods = none }) ≡ some none)
unfolding listing_jobs
listings = (refl, refl, refl)

list_training_jobs-IsShown_example :
    (pods : List Pod) × (sets : ReplicaSets) × (namespace.pods ≡ some pods)
    × (namespace.replica_sets ≡ some sets)
    × ((uid : String)
        → IsObject namespace uid
        → IsShown sets pods uid (the_rows (list_training_jobs namespace)))
unfolding listing_jobs
list_training_jobs-IsShown_example =
    list_training_jobs-IsShown namespace (the_rows (list_training_jobs namespace)) refl
