-- ===== src/Trainer/Listing.antt =====
-- `ListTrainingJobs` of cmd/trainer/trainer_runai.go, from what the cluster lists to the jobs: pods are
-- grouped by their owners, objects are looked up among the groups, and every entry becomes a job. Of
-- the answers, `none` is an error; where the code does not look at it, the list is empty.
pub mod Objects
pub mod Rows
mod Tests
use runai_cli.Prelude.{
  String, Bool, true, false, Option, none, some, List, [], ◌∷◌, ◌++◌, Map, map, select,
}
use runai_cli.Kube.{Meta, Pod}
use runai_cli.Trainer.Status.{get_training_status}
use runai_cli.Trainer.Owners.{RunaiJobInfo, ReplicaSets, get_pod_job_map}
use runai_cli.Trainer.Jobs.{
  Job, StatefulSet, Deployment, PodTemplateJob, pod_template_job_from_job,
  pod_template_job_from_stateful_set, pod_template_job_from_deployment, pod_template_job_from_pod,
  pod_template_job_from_runai_job, add_jobs,
}
use runai_cli.Trainer.Services.{
  Node, Service, Rules, get_node_ip, get_last_created_pod, get_service_of_pod, get_service_urls,
}
use runai_cli.Trainer.Named.{
  IngressObject, has_no_owner, get_ingress_service, get_ingresses_for_namespace, urls_of,
  service_of,
}

-- The pods are listed twice: to be grouped, and for those without an owner.
pub record Namespace : Type 0 where
  pub services : Option (List Service)
  pub nodes : Option (List Node)
  pub nginx_services : Option (List Service)
  pub ingresses : Option (List IngressObject)
  pub pods : Option (List Pod)
  pub replica_sets : Option ReplicaSets
  pub jobs : List Job
  pub stateful_sets : List StatefulSet
  pub deployments : List Deployment
  pub runai_jobs : List Job
  pub pods_again : Option (List Pod)

unfoldable pub and_then {ℓ κ} : {A : Type ℓ} {B : Type κ} → Option A → (A → Option B) → Option B
and_then none next = none
and_then (some answer) next = next answer

unfoldable pub get_pods_without_owner : Option (List Pod) → List Pod
unfolding select
get_pods_without_owner none = []
get_pods_without_owner (some pods) = select has_no_owner pods

-- `none` is the panic at a deployment whose number of replicas is nil.
unfoldable pub from_deployments : List Deployment → Option (List PodTemplateJob)
from_deployments [] = some []
from_deployments (deployment ∷ deployments) =
    and_then (pod_template_job_from_deployment deployment)
      (λ job. and_then (from_deployments deployments) (λ jobs. some (job ∷ jobs)))

unfoldable pub jobs_for_list_command : Namespace → Option (List PodTemplateJob)
jobs_for_list_command ns = and_then (from_deployments ns.deployments) (λ deployments. some (
    map pod_template_job_from_job ns.jobs
    ++ (map pod_template_job_from_stateful_set ns.stateful_sets
        ++ (deployments
            ++ (map pod_template_job_from_runai_job ns.runai_jobs
                ++ map pod_template_job_from_pod (get_pods_without_owner ns.pods_again))))))

-- A job of the list: its entry, with the status that is shown.
pub record ListedJob : Type 0 where
  pub info : RunaiJobInfo
  pub chief_pod : Option Pod
  pub service_urls : List String

abbrev pub annotations_of : Option Meta → Map String
annotations_of none = []
annotations_of (some meta) = meta.annotations

-- What is read once for all jobs: the services, the address, the ingress service and the ingresses.
pub record Addresses : Type 0 where
  pub services : List Service
  pub node_ip : String
  pub ingress_service : Option Service
  pub ingresses : List Rules

abbrev pub addresses_of : Namespace → List Service → List Node → Option Service → Addresses
addresses_of ns services nodes ingress_service = record {
  services = services;
  node_ip = get_node_ip nodes;
  ingress_service = ingress_service;
  ingresses = get_ingresses_for_namespace ns.ingresses;
}

unfoldable pub listed_job : Addresses → RunaiJobInfo → ListedJob
listed_job at info =
    let chief = get_last_created_pod info.pods in
    record {
      info = record info {
        status = get_training_status (annotations_of info.object_meta) chief info.status;
      };
      chief_pod = chief;
      service_urls =
          urls_of at.ingress_service at.ingresses at.node_ip (service_of at.services chief);
    }

unfoldable pub rows_of : Addresses → Map RunaiJobInfo → List ListedJob
rows_of at [] = []
rows_of at (entry ∷ infos) = listed_job at entry.1 ∷ rows_of at infos

-- An error of the calls that the code looks at is `some none`, and a panic is `none`.
unfoldable pub unless_error {ℓ κ} :
    {A : Type ℓ} {B : Type κ} → Option A → (A → Option (Option B)) → Option (Option B)
unless_error none next = some none
unless_error (some answer) next = next answer

unfoldable pub list_training_jobs : Namespace → Option (Option (List ListedJob))
list_training_jobs ns = unless_error ns.services (λ services. unless_error ns.nodes (λ nodes.
    unless_error (get_ingress_service ns.nginx_services) (λ ingress_service.
      unless_error ns.pods (λ pods. unless_error ns.replica_sets (λ sets.
        and_then (get_pod_job_map sets pods) (λ infos. and_then (jobs_for_list_command ns) (λ jobs.
          some (
            some (
              rows_of (addresses_of ns services nodes ingress_service)
                (add_jobs infos jobs))))))))))
