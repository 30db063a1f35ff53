-- ===== src/Trainer/Jobs.antt =====
-- The objects that make a job, as one kind of record: pkg/types/pod_template_job.go; and the loop of
-- `ListTrainingJobs` in cmd/trainer/trainer_runai.go that looks each of them up among the pods.
pub mod Found
mod Tests
use runai_cli.Prelude.{
  ℕ, ◌+◌, String, Bool, true, false, not, ◌&&◌, ◌||◌, Option, none, some, is_some, List, [], ◌∷◌,
  ◌++◌, Map, lookup, assign, has_key, get, str_eq, ◌==◌, any, if◌then◌else◌,
}
use runai_cli.Kube.{Meta, Condition, Pod, PodTemplate}
use runai_cli.Trainer.Status.{scheduler_name, status_failed, status_pending}
use runai_cli.Trainer.Owners.{Resource, RunaiJobInfo, no_job_info}

-- The fields of batch and Run:AI jobs that are read; `completed` says whether there is a completion time.
pub record Job : Type 0 where
  pub meta : Meta
  pub template : PodTemplate
  pub selector : Option (Map String)
  pub parallelism : Option ℕ
  pub completions : Option ℕ
  pub conditions : List Condition
  pub completed : Bool
  pub active : ℕ
  pub failed : ℕ
  pub succeeded : ℕ

pub record StatefulSet : Type 0 where
  pub meta : Meta
  pub template : PodTemplate
  pub selector : Option (Map String)
  pub current_replicas : ℕ

-- The number of replicas is a pointer, which the API server fills in.
pub record Deployment : Type 0 where
  pub meta : Meta
  pub template : PodTemplate
  pub selector : Option (Map String)
  pub replicas : Option ℕ

pub data ResourceType : Type 0 where
  of_job of_stateful_set of_deployment of_pod of_runai_job : ResourceType

pub record PodTemplateJob : Type 0 where
  pub extra_status : String
  pub type : ResourceType
  pub meta : Meta
  pub selector : Option (Map String)
  pub template : PodTemplate
  pub parallelism : ℕ
  pub completions : ℕ
  pub failed : ℕ
  pub succeeded : ℕ

unfoldable pub has_failed : List Condition → Bool
unfolding any
has_failed conditions = any (λ c. str_eq c.type "Failed" && str_eq c.status "True") conditions

abbrev pub number_or : ℕ → Option ℕ → ℕ
number_or other none = other
number_or other (some n) = n

unfoldable pub pod_template_job_from_job : Job → PodTemplateJob
unfolding has_failed
pod_template_job_from_job job = record {
  extra_status =
      if not job.completed && (job.active == 0)
      then status_pending
      else if has_failed job.conditions
      then status_failed
      else "";
  type = of_job;
  meta = job.meta;
  selector = job.selector;
  template = job.template;
  parallelism = number_or 1 job.parallelism;
  completions = number_or 1 job.completions;
  failed = job.failed;
  succeeded = job.succeeded;
}

unfoldable pub pod_template_job_from_stateful_set : StatefulSet → PodTemplateJob
pod_template_job_from_stateful_set set = record {
  extra_status = if set.current_replicas == 0 then status_pending else "";
  type = of_stateful_set;
  meta = set.meta;
  selector = set.selector;
  template = set.template;
  parallelism = 1;
  completions = 1;
  failed = 0;
  succeeded = 0;
}

-- `none` is the panic at a nil pointer.
unfoldable pub pod_template_job_from_deployment : Deployment → Option PodTemplateJob
pod_template_job_from_deployment deployment = elim deployment.replicas [
  | none ↦ none
  | some replicas ↦ some (record {
    extra_status = "";
    type = of_deployment;
    meta = deployment.meta;
    selector = deployment.selector;
    template = deployment.template;
    parallelism = replicas;
    completions = 0;
    failed = 0;
    succeeded = 0;
  })
]

unfoldable pub pod_template_job_from_pod : Pod → PodTemplateJob
pod_template_job_from_pod pod = record {
  extra_status = "";
  type = of_pod;
  meta = pod.meta;
  selector = some [];
  template = record { meta = pod.meta; spec = pod.spec };
  parallelism = 0;
  completions = 0;
  failed = 0;
  succeeded = 0;
}

abbrev pub selector_or_empty : Option (Map String) → Option (Map String)
selector_or_empty none = some []
selector_or_empty (some selector) = some selector

unfoldable pub pod_template_job_from_runai_job : Job → PodTemplateJob
unfolding has_failed
pod_template_job_from_runai_job job = record {
  extra_status = if has_failed job.conditions then status_failed else "";
  type = of_runai_job;
  meta = job.meta;
  selector = selector_or_empty job.selector;
  template = job.template;
  parallelism = number_or 1 job.parallelism;
  completions = if is_some job.parallelism then number_or 1 job.completions else 1;
  failed = job.failed;
  succeeded = job.succeeded;
}

-- `cmdTypes.ResourceType` as text.
abbrev pub resource_type_name : ResourceType → String
resource_type_name of_job = "Job"
resource_type_name of_stateful_set = "StatefulSet"
resource_type_name of_deployment = "Deployment"
resource_type_name of_pod = "Pod"
resource_type_name of_runai_job = "RunaiJob"

unfoldable pub is_runai_pod_object : PodTemplateJob → Bool
unfolding has_key
is_runai_pod_object job =
    str_eq job.template.spec.scheduler_name scheduler_name
    && not (has_key job.meta.labels "mpi_job_name")

abbrev pub type_by_resource : ResourceType → String
type_by_resource of_deployment = "Inference"
type_by_resource of_stateful_set = "Interactive"
type_by_resource type = "Train"

unfoldable pub get_job_type : PodTemplateJob → String
unfolding get
get_job_type job =
    let label = get job.meta.labels "priorityClassName" in
    if str_eq label "interactive-preemptible"
    then "Interactive-Preemptible"
    else if str_eq label "build"
    then "Interactive"
    else type_by_resource job.type

-- A job without pods.
abbrev pub job_entry : PodTemplateJob → RunaiJobInfo
job_entry job = record no_job_info {
  name = job.meta.name;
  namespace = job.meta.namespace;
  pod_spec = some job.template.spec;
  pod_metadata = some job.template.meta;
}

abbrev pub entry_of : PodTemplateJob → Option RunaiJobInfo → RunaiJobInfo
entry_of job none = job_entry job
entry_of job (some info) = info

-- What the loop writes into an entry.
unfoldable pub update_entry : PodTemplateJob → RunaiJobInfo → RunaiJobInfo
unfolding get get_job_type
update_entry job info = record info {
  object_meta = some job.meta;
  created = job.meta.created;
  deleted = false;
  owner = record {
    name = job.meta.name;
    uid = job.meta.uid;
    resource_type = resource_type_name job.type;
  };
  created_by_cli =
      if str_eq (get job.meta.labels "app") "runaijob" then true else info.created_by_cli;
  job_type = get_job_type job;
  status = job.extra_status;
  parallelism = job.parallelism;
  completions = job.completions;
  failed = job.failed;
  succeeded = job.succeeded;
}

unfoldable pub add_job : Map RunaiJobInfo → PodTemplateJob → Map RunaiJobInfo
unfolding is_runai_pod_object lookup assign update_entry
add_job infos job =
    if is_runai_pod_object job
    then assign infos job.meta.uid (update_entry job (entry_of job (lookup infos job.meta.uid)))
    else infos

unfoldable pub add_jobs : Map RunaiJobInfo → List PodTemplateJob → Map RunaiJobInfo
unfolding add_job
add_jobs infos [] = infos
add_jobs infos (job ∷ jobs) = add_jobs (add_job infos job) jobs
