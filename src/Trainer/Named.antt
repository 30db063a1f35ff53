-- ===== src/Trainer/Named.antt =====
-- The Run:AI job of a name: `IsSupported`, `GetTrainingJob` and what they call in
-- cmd/trainer/trainer_runai.go. What the cluster lists is an argument; a list by a name is empty and an
-- object is `none` where the cluster answers with an error, unless the code looks at the error.
pub mod Chosen
pub mod Supported
mod Tests
use Prim.Native.String
use runai_cli.Prelude.{
  String, Bool, true, false, not, ◌&&◌, ◌||◌, Option, none, some, is_some, List, [], ◌∷◌, ◌++◌, Map,
  get, str_eq, any, select, if◌then◌else◌,
}
use runai_cli.Kube.{OwnerReference, Meta, Pod, PodTemplate}
use runai_cli.Trainer.Status
use runai_cli.Trainer.Status.{get_training_status}
use runai_cli.Trainer.Owners.{Resource}
use runai_cli.Trainer.Jobs.{
  Job, StatefulSet, Deployment, ResourceType, of_deployment, PodTemplateJob,
  pod_template_job_from_job, pod_template_job_from_stateful_set, pod_template_job_from_deployment,
  pod_template_job_from_pod, pod_template_job_from_runai_job, resource_type_name,
  is_runai_pod_object, get_job_type,
}
use runai_cli.Trainer.Services.{
  Node, Service, Rules, get_node_ip, get_last_created_pod, get_service_of_pod, get_service_urls,
}

-- An ingress: its annotations and its rules.
pub record IngressObject : Type 0 where
  pub annotations : Map String
  pub rules : Rules

-- What the cluster answers about a name in a namespace, and about the namespace.
pub record Cluster : Type 0 where
  pub jobs : List Job
  pub stateful_sets : List StatefulSet
  pub deployments : List Deployment
  pub runai_jobs : List Job
  pub pod : Option Pod
  -- by a selector: the pods, and the identifiers of the replica sets
  pub pods_by : Map String → Option (List Pod)
  pub replica_sets_by : Map String → Option (List String)
  pub services : Option (List Service)
  pub nodes : Option (List Node)
  pub nginx_services : Option (List Service)
  pub ingresses : Option (List IngressObject)

abbrev pub is_scheduled : PodTemplate → Bool
is_scheduled template = str_eq template.spec.scheduler_name Status.scheduler_name

abbrev pub has_no_owner : Pod → Bool
has_no_owner pod = elim pod.meta.owners [ [] ↦ true | owner ∷ owners ↦ false ]

abbrev pub without_owner : Option Pod → Option Pod
without_owner none = none
without_owner (some pod) = if has_no_owner pod then some pod else none

-- The first stateful set decides alone; a pod is the last to be asked.
abbrev pub by_sets : List StatefulSet → Bool → Bool
by_sets [] later = later
by_sets (set ∷ sets) later = is_runai_pod_object (pod_template_job_from_stateful_set set)

abbrev pub by_pod : Option Pod → Bool
by_pod none = false
by_pod (some pod) = str_eq pod.spec.scheduler_name Status.scheduler_name

unfoldable pub is_supported : Cluster → Bool
unfolding any is_runai_pod_object pod_template_job_from_stateful_set
is_supported c =
    any (λ job. is_scheduled job.template) c.jobs
    || by_sets c.stateful_sets (
        any (λ deployment. is_scheduled deployment.template) c.deployments
        || (any (λ job. is_scheduled job.template) c.runai_jobs || by_pod (without_owner c.pod)))

abbrev pub is_owned_by : String → Pod → Bool
is_owned_by uid pod = elim pod.meta.owners [ [] ↦ false | owner ∷ owners ↦ str_eq owner.uid uid ]

-- The pods that were filtered, or the pod of the job's name.
abbrev pub or_own_pod : Option Pod → List Pod → List Pod
or_own_pod own (pod ∷ pods) = pod ∷ pods
or_own_pod none [] = []
or_own_pod (some pod) [] = pod ∷ []

-- The identifier that the pods name as their owner: that of the first replica set of a deployment.
abbrev pub first_uid : Option (List String) → Option String
first_uid none = none
first_uid (some []) = none
first_uid (some (uid ∷ uids)) = some uid

abbrev pub owner_uid : Cluster → Map String → ResourceType → String → Option String
owner_uid c selector of_deployment uid = first_uid (c.replica_sets_by selector)
owner_uid c selector type uid = some uid

abbrev pub pods_owned : Option Pod → Option (List Pod) → Option String → List Pod
pods_owned own none uid = []
pods_owned own (some pods) none = []
pods_owned own (some pods) (some uid) = or_own_pod own (select (is_owned_by uid) pods)

-- `none` is the panic at a selector that is nil.
unfoldable pub get_pods_of_job : Cluster → PodTemplateJob → Option (List Pod)
unfolding select
get_pods_of_job c job = elim job.selector [
  | none ↦ none
  | some selector ↦ some (
      pods_owned (without_owner c.pod) (c.pods_by selector)
        (owner_uid c selector job.type job.meta.uid))
]

-- An error of this list reads as no ingresses.
abbrev pub rules_of : List IngressObject → List Rules
rules_of [] = []
rules_of (ingress ∷ ingresses) = ingress.rules ∷ rules_of ingresses

unfoldable pub get_ingresses_for_namespace : Option (List IngressObject) → List Rules
unfolding select get
get_ingresses_for_namespace none = []
get_ingresses_for_namespace (some ingresses) =
    rules_of
      (select (λ i. str_eq (get i.annotations "kubernetes.io/ingress.class") "nginx") ingresses)

abbrev pub first_service : List Service → Option Service
first_service [] = none
first_service (service ∷ services) = some service

unfoldable pub get_ingress_service : Option (List Service) → Option (Option Service)
get_ingress_service none = none
get_ingress_service (some services) = some (first_service services)

abbrev pub urls_of : Option Service → List Rules → String → Option Service → List String
urls_of ingress_service ingresses node_ip none = []
urls_of ingress_service ingresses node_ip (some service) =
    get_service_urls ingress_service ingresses node_ip service

abbrev pub service_of : List Service → Option Pod → Option Service
service_of services none = none
service_of services (some pod) = get_service_of_pod services pod

infixl 5 ◌>>=◌
abbrev ◌>>=◌ : {A B : Type 0} → Option A → (A → Option B) → Option B
none >>= next = none
some answer >>= next = next answer

-- `none` is an error.
unfoldable pub get_service_urls_by_last_created_pod : Cluster → Option Pod → Option (List String)
unfolding get_ingress_service get_ingresses_for_namespace get_service_urls get_service_of_pod
    get_node_ip
get_service_urls_by_last_created_pod c pod = do
  services ← c.services
  nodes ← c.nodes
  ingress_service ← get_ingress_service c.nginx_services
  some (
      urls_of ingress_service (get_ingresses_for_namespace c.ingresses) (get_node_ip nodes)
        (service_of services pod))

-- The arguments of `NewRunaiWorkload` that are computed here, with the object that the others are of.
pub record FoundJob : Type 0 where
  pub job : PodTemplateJob
  pub pods : List Pod
  pub chief_pod : Option Pod
  pub training_type : String
  pub status : String
  pub service_urls : List String
  pub created_by_cli : Bool
  pub owner : Resource

abbrev pub found_job : PodTemplateJob → List Pod → List String → FoundJob
found_job job pods urls = record {
  job = job;
  pods = pods;
  chief_pod = get_last_created_pod pods;
  training_type = get_job_type job;
  status = get_training_status job.meta.annotations (get_last_created_pod pods) job.extra_status;
  service_urls = urls;
  created_by_cli = str_eq (get job.meta.labels "app") "runaijob";
  owner = record {
    name = job.meta.name;
    uid = job.meta.uid;
    resource_type = resource_type_name job.type;
  };
}

abbrev with_urls : PodTemplateJob → List Pod → Option (List String) → Option FoundJob
with_urls job pods none = none
with_urls job pods (some urls) = some (found_job job pods urls)

-- The outer `none` is a panic, and the inner one no job, also for an error.
unfoldable pub get_runai_training_job : Cluster → PodTemplateJob → Option (Option FoundJob)
unfolding get_pods_of_job get_service_urls_by_last_created_pod get_last_created_pod
    get_training_status get_job_type get
get_runai_training_job c job =
    if not (is_scheduled job.template) then some none else elim (get_pods_of_job c job) [
      | none ↦ none
      | some pods ↦
          some (
            with_urls job pods (get_service_urls_by_last_created_pod c (get_last_created_pod pods)))
    ]

-- The first object of a list, as a job: `none` where there is none, and inside it a panic.
abbrev pub first_as :
    {A : Type 0} → (A → Option PodTemplateJob) → List A → List (Option PodTemplateJob)
first_as convert [] = []
first_as convert (a ∷ more) = convert a ∷ []

abbrev pub pod_as : Option Pod → List (Option PodTemplateJob)
pod_as none = []
pod_as (some pod) = some (pod_template_job_from_pod pod) ∷ []

-- The objects that may be the job, in the order in which they are asked for.
unfoldable pub candidates : Cluster → List (Option PodTemplateJob)
unfolding pod_template_job_from_job pod_template_job_from_stateful_set
    pod_template_job_from_deployment pod_template_job_from_pod pod_template_job_from_runai_job
candidates c =
    first_as (λ job. some (pod_template_job_from_job job)) c.jobs
    ++ (first_as (λ set. some (pod_template_job_from_stateful_set set)) c.stateful_sets
        ++ (first_as pod_template_job_from_deployment c.deployments
            ++ (pod_as (without_owner c.pod)
                ++ first_as (λ job. some (pod_template_job_from_runai_job job)) c.runai_jobs)))

abbrev pub or_next : Option (Option FoundJob) → Option (Option FoundJob) → Option (Option FoundJob)
or_next none next = none
or_next (some none) next = next
or_next (some (some job)) next = some (some job)

unfoldable pub first_found : Cluster → List (Option PodTemplateJob) → Option (Option FoundJob)
unfolding get_runai_training_job
first_found c [] = some none
first_found c (none ∷ jobs) = none
first_found c (some job ∷ jobs) = or_next (get_runai_training_job c job) (first_found c jobs)

-- `some none` is the error that no job was found.
unfoldable pub get_training_job : Cluster → Option (Option FoundJob)
unfolding first_found candidates
get_training_job c = first_found c (candidates c)
