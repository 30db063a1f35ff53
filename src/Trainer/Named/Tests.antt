-- ===== src/Trainer/Named/Tests.antt =====
-- The job "train" of a namespace.
use runai_cli.Prelude.{
  String, true, false, none, some, List, [], ◌∷◌, select, any, has_key, get, lookup, ◌≡◌, refl,
}
use runai_cli.Kube.{OwnerReference, Meta, Pod, PodSpec}
use runai_cli.Trainer.Status.{get_training_status, choose_status, get_status_column_from_pod_status}
use runai_cli.Trainer.Jobs.{
  Job, StatefulSet, has_failed, pod_template_job_from_job, pod_template_job_from_stateful_set,
  pod_template_job_from_deployment, pod_template_job_from_pod, pod_template_job_from_runai_job,
  is_runai_pod_object, get_job_type,
}
use runai_cli.Trainer.Services.{
  get_node_ip, get_last_created_pod, get_service_of_pod, get_service_urls,
}
use runai_cli.Trainer.Named.{
  Cluster, FoundJob, found_job, is_supported, get_pods_of_job, get_ingresses_for_namespace,
  get_ingress_service, get_service_urls_by_last_created_pod, get_runai_training_job, candidates,
  first_found, get_training_job,
}
use runai_cli.Trainer.Named.Chosen.{IsChosen, get_training_job-IsChosen}

abbrev meta_of : String → List OwnerReference → Meta
meta_of uid owners = record {
  name = "train";
  namespace = "runai-team";
  uid = uid;
  labels = [];
  annotations = [];
  created = 7;
  deleted = none;
  owners = owners;
}

abbrev spec_of : String → PodSpec
spec_of scheduler = record {
  scheduler_name = scheduler;
  node_name = "";
  host_network = false;
  containers = [];
  init_containers = [];
}

abbrev pod_of : String → Pod
pod_of owner = record {
  meta =
      meta_of "p"
        (record { kind = "Job"; name = "train"; uid = owner; controller = some true } ∷ []);
  spec = spec_of "runai-scheduler";
  status = record {
    phase = "Running";
    reason = "";
    conditions = [];
    init_statuses = [];
    statuses = [];
  };
}

abbrev batch_job : String → Job
batch_job scheduler = record {
  meta = meta_of "j" [];
  template = record { meta = meta_of "j" []; spec = spec_of scheduler };
  selector = some [];
  parallelism = none;
  completions = none;
  conditions = [];
  completed = false;
  active = 1;
  failed = 0;
  succeeded = 0;
}

abbrev foreign_set : StatefulSet
foreign_set = record {
  meta = meta_of "s" [];
  template = record { meta = meta_of "s" []; spec = spec_of "default-scheduler" };
  selector = some [];
  current_replicas = 1;
}

abbrev cluster : Cluster
cluster = record {
  jobs = batch_job "default-scheduler" ∷ [];
  stateful_sets = [];
  deployments = [];
  runai_jobs = batch_job "runai-scheduler" ∷ [];
  pod = none;
  pods_by = λ selector. some (pod_of "j" ∷ pod_of "k" ∷ []);
  replica_sets_by = λ selector. none;
  services = some [];
  nodes = some [];
  nginx_services = some [];
  ingresses = none;
}

by_name : Unit {0}
unfolding get_training_job first_found candidates get_runai_training_job get_pods_of_job
    get_service_urls_by_last_created_pod get_ingresses_for_namespace get_ingress_service
    is_supported get_last_created_pod get_service_of_pod get_service_urls get_node_ip
    is_runai_pod_object pod_template_job_from_job pod_template_job_from_stateful_set
    pod_template_job_from_deployment pod_template_job_from_pod pod_template_job_from_runai_job
    select any has_failed get_training_status choose_status get_job_type get lookup has_key
    get_status_column_from_pod_status
by_name = tt

abbrev running : FoundJob
running =
    found_job (pod_template_job_from_runai_job (batch_job "runai-scheduler")) (pod_of "j" ∷ []) []

answers :
    (get_training_job cluster ≡ some (some running))
    × (running.status ≡ "Running")
    × (is_supported cluster ≡ true)
    × (get_training_job (record cluster { nodes = none }) ≡ some none)
    × (get_training_job
          (record cluster { jobs = record (batch_job "runai-scheduler") { selector = none } ∷ [] })
        ≡ none)
unfolding by_name
answers = (refl, refl, refl, refl, refl)

-- A stateful set of another scheduler hides a job of Run:AI that has its name.
hidden :
    (is_supported (record cluster { stateful_sets = foreign_set ∷ [] }) ≡ false)
    × (get_training_job (record cluster { stateful_sets = foreign_set ∷ [] }) ≡ some (some running))
unfolding by_name
hidden = (refl, refl)

get_training_job-IsChosen_example : IsChosen cluster running
unfolding by_name
get_training_job-IsChosen_example = get_training_job-IsChosen cluster running refl
