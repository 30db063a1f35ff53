-- ===== src/Trainer/Listing/Objects.antt =====
-- The objects that `jobsForListCommand` of cmd/trainer/trainer_runai.go collects, told apart by the
-- kinds of objects in a namespace.
use runai_cli.Prelude.{
  String, true, false, Option, none, some, List, [], ◌∷◌, ◌++◌, Elem, map, has_key, ◌≡◌, refl, ap,
  inl, inr, eq_iff, Option-cases, Elem-select,
}
use mathlib.Core.Path.{subst}
use mathlib.Core.Option.{some-injective}
use runai_cli.Kube.{Meta, Pod, PodTemplate}
use runai_cli.Trainer.Status.{scheduler_name}
use runai_cli.Trainer.Jobs.{
  Job, StatefulSet, Deployment, PodTemplateJob, pod_template_job_from_job,
  pod_template_job_from_stateful_set, pod_template_job_from_deployment, pod_template_job_from_pod,
  pod_template_job_from_runai_job, is_runai_pod_object,
}
use runai_cli.Trainer.Jobs.Found.{IsRunai, IsListed}
use runai_cli.Trainer.Named.{has_no_owner}
use runai_cli.Trainer.Listing.{
  Namespace, and_then, get_pods_without_owner, from_deployments, jobs_for_list_command,
}

-- The object with this UID is for the scheduler of Run:AI, and not part of an MPI job.
pub record IsOfRunai (uid : String) (meta : Meta) (template : PodTemplate) : Type 0 where
  pub scheduled : template.spec.scheduler_name ≡ scheduler_name
  pub not_mpi : has_key meta.labels "mpi_job_name" ≡ false
  pub same_uid : meta.uid ≡ uid

-- An object of Run:AI with this UID is in the namespace.
pub data IsObject (ns : Namespace) (uid : String) : Type 0 where
  a_job : (job : Job) → Elem job ns.jobs → IsOfRunai uid job.meta job.template → IsObject ns uid
  a_stateful_set :
      (set : StatefulSet)
      → Elem set ns.stateful_sets
      → IsOfRunai uid set.meta set.template
      → IsObject ns uid
  a_deployment :
      (deployment : Deployment)
      → Elem deployment ns.deployments
      → IsOfRunai uid deployment.meta deployment.template
      → IsObject ns uid
  a_runai_job :
      (job : Job) → Elem job ns.runai_jobs → IsOfRunai uid job.meta job.template → IsObject ns uid
  a_pod :
      (pods : List Pod) (pod : Pod)
      → ns.pods_again ≡ some pods
      → Elem pod pods
      → has_no_owner pod ≡ true
      → IsOfRunai uid pod.meta (record { meta = pod.meta; spec = pod.spec })
      → IsObject ns uid

pub and_then_lem :
    {A B : Type 0} (o : Option A) (next : A → Option B) {b : B}
    → and_then o next ≡ some b
    → (a : A) × (o ≡ some a) × (next a ≡ some b)
unfolding and_then
and_then_lem none next h = absurd (cc h)
and_then_lem (some a) next h = (a, refl, h)

IsOfRunai-IsRunai :
    (uid : String) (job : PodTemplateJob) → IsOfRunai uid job.meta job.template → IsRunai uid job
unfolding is_runai_pod_object
IsOfRunai-IsRunai uid job r = (
  rw r.scheduled (rw ((eq_iff scheduler_name scheduler_name).1 refl) (rw r.not_mpi refl)),
  r.same_uid,
)

Elem-IsListed :
    (uid : String) (job : PodTemplateJob) (jobs : List PodTemplateJob)
    → Elem job jobs
    → IsOfRunai uid job.meta job.template
    → IsListed uid jobs
Elem-IsListed uid job (other ∷ jobs) (inl e) r =
    inl (subst (IsRunai uid) e (IsOfRunai-IsRunai uid job r))
Elem-IsListed uid job (other ∷ jobs) (inr h) r = inr (Elem-IsListed uid job jobs h r)
Elem-IsListed uid job [] h r = absurd h

Elem-map : {A B : Type 0} (f : A → B) (a : A) (xs : List A) → Elem a xs → Elem (f a) (map f xs)
Elem-map f a (x ∷ xs) (inl e) = inl (ap f e)
Elem-map f a (x ∷ xs) (inr h) = inr (Elem-map f a xs h)
Elem-map f a [] h = absurd h

taken_deployment :
    (uid : String) (deployment : Deployment) {job : PodTemplateJob}
    → pod_template_job_from_deployment deployment ≡ some job
    → IsOfRunai uid deployment.meta deployment.template
    → IsRunai uid job
unfolding pod_template_job_from_deployment
taken_deployment uid deployment e r = elim (Option-cases deployment.replicas) [
  | inl q ↦ absurd (cc (q, e))
  | inr (replicas, q) ↦
      subst (IsRunai uid) (some-injective _ _ (rw q at e)) (IsOfRunai-IsRunai uid _ r)
]

-- A deployment is taken unless the loop panics.
from_deployments-Elem :
    (uid : String) (deployment : Deployment) (deployments : List Deployment)
    {jobs : List PodTemplateJob}
    → from_deployments deployments ≡ some jobs
    → Elem deployment deployments
    → IsOfRunai uid deployment.meta deployment.template
    → IsListed uid jobs
unfolding from_deployments pod_template_job_from_deployment
from_deployments-Elem uid deployment [] e h r = absurd h
from_deployments-Elem uid deployment (other ∷ deployments) e h r =
    let (job, made, e) = and_then_lem (pod_template_job_from_deployment other) _ e in
    let (rest, taken, e) = and_then_lem (from_deployments deployments) _ e in
    subst (IsListed uid) (some-injective _ _ e) (elim h [
      | inl same ↦ inl (taken_deployment uid deployment (rw same made) r)
      | inr k ↦ inr (from_deployments-Elem uid deployment deployments taken k r)
    ])

IsListed-append_left :
    (uid : String) (xs ys : List PodTemplateJob) → IsListed uid xs → IsListed uid (xs ++ ys)
IsListed-append_left uid (x ∷ xs) ys (inl e) = inl e
IsListed-append_left uid (x ∷ xs) ys (inr h) = inr (IsListed-append_left uid xs ys h)
IsListed-append_left uid [] ys h = absurd h

IsListed-append_right :
    (uid : String) (xs ys : List PodTemplateJob) → IsListed uid ys → IsListed uid (xs ++ ys)
IsListed-append_right uid [] ys h = h
IsListed-append_right uid (x ∷ xs) ys h = inr (IsListed-append_right uid xs ys h)

-- The five lists of objects, one behind the other.
collected-IsListed :
    (ns : Namespace) (uid : String) (deployments : List PodTemplateJob)
    → from_deployments ns.deployments ≡ some deployments
    → IsObject ns uid
    → IsListed uid (
        map pod_template_job_from_job ns.jobs
        ++ (map pod_template_job_from_stateful_set ns.stateful_sets
            ++ (deployments
                ++ (map pod_template_job_from_runai_job ns.runai_jobs
                    ++ map pod_template_job_from_pod (get_pods_without_owner ns.pods_again)))))
unfolding get_pods_without_owner pod_template_job_from_job pod_template_job_from_stateful_set
    pod_template_job_from_runai_job pod_template_job_from_pod
collected-IsListed ns uid deployments e (a_job job h r) =
    IsListed-append_left uid _ _ (Elem-IsListed uid _ _ (Elem-map _ job ns.jobs h) r)
collected-IsListed ns uid deployments e (a_stateful_set set h r) =
    IsListed-append_right uid (map pod_template_job_from_job ns.jobs) _
      (IsListed-append_left uid _ _ (Elem-IsListed uid _ _ (Elem-map _ set ns.stateful_sets h) r))
collected-IsListed ns uid deployments e (a_deployment deployment h r) =
    IsListed-append_right uid (map pod_template_job_from_job ns.jobs) _ (
      IsListed-append_right uid (map pod_template_job_from_stateful_set ns.stateful_sets) _
        (IsListed-append_left uid _ _ (from_deployments-Elem uid deployment ns.deployments e h r)))
collected-IsListed ns uid deployments e (a_runai_job job h r) =
    IsListed-append_right uid (map pod_template_job_from_job ns.jobs) _ (
      IsListed-append_right uid (map pod_template_job_from_stateful_set ns.stateful_sets) _ (
        IsListed-append_right uid deployments _ (
          IsListed-append_left uid _ _ (Elem-IsListed uid _ _ (Elem-map _ job ns.runai_jobs h) r))))
collected-IsListed ns uid deployments e (a_pod pods pod given h alone r) =
    IsListed-append_right uid (map pod_template_job_from_job ns.jobs) _ (
      IsListed-append_right uid (map pod_template_job_from_stateful_set ns.stateful_sets) _ (
        IsListed-append_right uid deployments _ (
          IsListed-append_right uid (map pod_template_job_from_runai_job ns.runai_jobs) _ (
            rw given (
              Elem-IsListed uid _ _
                (Elem-map _ pod _ ((Elem-select has_no_owner pod pods).1 (h, alone))) r)))))

pub jobs_for_list_command-IsListed :
    (ns : Namespace) (uid : String) {jobs : List PodTemplateJob}
    → jobs_for_list_command ns ≡ some jobs
    → IsObject ns uid
    → IsListed uid jobs
unfolding jobs_for_list_command
jobs_for_list_command-IsListed ns uid e object =
    let (deployments, made, e) = and_then_lem (from_deployments ns.deployments) _ e in
    subst (IsListed uid) (some-injective _ _ e) (collected-IsListed ns uid deployments made object)
