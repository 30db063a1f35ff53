-- ===== src/Trainer/Named/Supported.antt =====
-- Which names are supported.
use runai_cli.Prelude.{
  Bool, true, ◌||◌, Option, none, some, List, [], ◌∷◌, any, Elem, Elem-append, ◌≡◌, ◌⊎◌, inl, inr,
  refl, sym, ap, ◌∙◌, Option-cases, arith,
}
use mathlib.Core.Path.{subst}
use runai_cli.Kube.{Pod}
use runai_cli.Trainer.Jobs.{
  Job, StatefulSet, Deployment, PodTemplateJob, pod_template_job_from_job,
  pod_template_job_from_stateful_set, pod_template_job_from_deployment, pod_template_job_from_pod,
  pod_template_job_from_runai_job,
}
use runai_cli.Trainer.Named.{
  Cluster, is_scheduled, without_owner, is_supported, first_as, pod_as, candidates, by_sets, by_pod,
}

first_as-any :
    {A : Type 0} (convert : A → Option PodTemplateJob) (test : A → Bool) (xs : List A)
    (job : PodTemplateJob)
    → ((a : A) → convert a ≡ some job → test a ≡ is_scheduled job.template)
    → Elem (some job) (first_as convert xs)
    → is_scheduled job.template ≡ true
    → any test xs ≡ true
unfolding any
first_as-any convert test [] job same h s = absurd h
first_as-any convert test (a ∷ xs) job same (inl e) s = let q = same a (sym e) ∙ s in rw q refl
first_as-any convert test (a ∷ xs) job same (inr h) s = absurd h

pod_as-by_pod :
    (own : Option Pod) (job : PodTemplateJob)
    → Elem (some job) (pod_as own)
    → is_scheduled job.template ≡ true
    → by_pod own ≡ true
unfolding pod_template_job_from_pod
pod_as-by_pod none job h s = absurd h
pod_as-by_pod (some pod) job (inl e) s =
    let q : job ≡ pod_template_job_from_pod pod = cc in
    ap (λ j. is_scheduled j.template) (sym q) ∙ s
pod_as-by_pod (some pod) job (inr h) s = absurd h

or_right : (a : Bool) {b : Bool} → b ≡ true → (a || b) ≡ true
or_right a h = ground arith

or_left : {a : Bool} (b : Bool) → a ≡ true → (a || b) ≡ true
or_left b h = ground arith

abbrev as_job : Job → Option PodTemplateJob
as_job job = some (pod_template_job_from_job job)

abbrev as_set : StatefulSet → Option PodTemplateJob
as_set set = some (pod_template_job_from_stateful_set set)

abbrev as_runai_job : Job → Option PodTemplateJob
as_runai_job job = some (pod_template_job_from_runai_job job)

-- The lists that a candidate can be from.
candidates-cases :
    (c : Cluster) (o : Option PodTemplateJob)
    → Elem o (candidates c)
    → Elem o (first_as as_job c.jobs)
      ⊎ (Elem o (first_as as_set c.stateful_sets)
          ⊎ (Elem o (first_as pod_template_job_from_deployment c.deployments)
              ⊎ (Elem o (pod_as (without_owner c.pod))
                  ⊎ Elem o (first_as as_runai_job c.runai_jobs))))
unfolding candidates
candidates-cases c o h = elim (Elem-append o (first_as as_job c.jobs) _ h) [
  | inl k ↦ inl k
  | inr h1 ↦ elim (Elem-append o (first_as as_set c.stateful_sets) _ h1) [
    | inl k ↦ inr (inl k)
    | inr h2 ↦ elim (Elem-append o (first_as pod_template_job_from_deployment c.deployments) _ h2) [
      | inl k ↦ inr (inr (inl k))
      | inr h3 ↦ inr (inr (inr (Elem-append o (pod_as (without_owner c.pod)) _ h3)))
    ]
  ]
]

from_job_template :
    (job : Job) (p : PodTemplateJob)
    → as_job job ≡ some p
    → is_scheduled job.template ≡ is_scheduled p.template
unfolding pod_template_job_from_job
from_job_template job p e =
    let q : pod_template_job_from_job job ≡ p = cc in ap (λ x. is_scheduled x.template) q

from_runai_job_template :
    (job : Job) (p : PodTemplateJob)
    → as_runai_job job ≡ some p
    → is_scheduled job.template ≡ is_scheduled p.template
unfolding pod_template_job_from_runai_job
from_runai_job_template job p e =
    let q : pod_template_job_from_runai_job job ≡ p = cc in ap (λ x. is_scheduled x.template) q

from_deployment_template :
    (deployment : Deployment) (p : PodTemplateJob)
    → pod_template_job_from_deployment deployment ≡ some p
    → is_scheduled deployment.template ≡ is_scheduled p.template
unfolding pod_template_job_from_deployment
from_deployment_template deployment p e = elim (Option-cases deployment.replicas) [
  | inl q ↦ absurd (cc (e, q))
  | inr (n, q) ↦ ground (arith, e, q)
]

no_set : {sets : List StatefulSet} {b : Bool} → sets ≡ [] → b ≡ true → by_sets sets b ≡ true
no_set {sets} {b} e h = subst (λ l. by_sets l b ≡ true) (sym e) h

-- Where no stateful set has the name, a candidate of Run:AI's scheduler makes the name a supported one.
pub candidates-is_supported :
    (c : Cluster) (job : PodTemplateJob)
    → c.stateful_sets ≡ []
    → Elem (some job) (candidates c)
    → is_scheduled job.template ≡ true
    → is_supported c ≡ true
unfolding is_supported
candidates-is_supported c job none_set h s = elim (candidates-cases c (some job) h) [
  | inl k ↦ or_left _ (first_as-any as_job _ c.jobs job (λ a. from_job_template a job) k s)
  | inr (inl k) ↦ absurd (subst (λ l. Elem (some job) (first_as as_set l)) none_set k)
  | inr (inr (inl k)) ↦ or_right _ (
      no_set none_set (
        or_left _ (
          first_as-any pod_template_job_from_deployment _ c.deployments job
            (λ a. from_deployment_template a job) k s)))
  | inr (inr (inr (inl k))) ↦
      or_right _
        (no_set none_set (or_right _ (or_right _ (pod_as-by_pod (without_owner c.pod) job k s))))
  | inr (inr (inr (inr k))) ↦ or_right _ (
      no_set none_set (
        or_right _ (
          or_left _ (
            first_as-any as_runai_job _ c.runai_jobs job (λ a. from_runai_job_template a job) k
              s))))
]
