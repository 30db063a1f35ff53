-- ===== src/Trainer/Named/Chosen.antt =====
-- What a Run:AI job is that is found by its name.
use runai_cli.Prelude.{
  String, true, Option, none, some, List, [], ◌∷◌, Map, select, Elem, Elem-select, ◌≡◌, ◌⊎◌, inl,
  inr, refl, sym, ap, Bool-cases, Option-cases,
}
use mathlib.Core.Path.{subst}
use runai_cli.Kube.{Pod}
use runai_cli.Trainer.Jobs.{PodTemplateJob}
use runai_cli.Trainer.Named.{
  Cluster, is_scheduled, without_owner, is_supported, is_owned_by, or_own_pod, owner_uid,
  pods_owned, get_pods_of_job, get_service_urls_by_last_created_pod, FoundJob, found_job, with_urls,
  get_runai_training_job, candidates, or_next, first_found, get_training_job,
}
use runai_cli.Trainer.Services.{get_last_created_pod}
use runai_cli.Trainer.Named.Supported.{candidates-is_supported}

or_next-cases :
    (o next : Option (Option FoundJob)) (f : FoundJob)
    → or_next o next ≡ some (some f)
    → (o ≡ some (some f)) ⊎ (next ≡ some (some f))
or_next-cases none next f h = absurd (cc h)
or_next-cases (some none) next f h = inr h
or_next-cases (some (some job)) next f h = inl h

first_found_lem :
    (c : Cluster) (jobs : List (Option PodTemplateJob)) (f : FoundJob)
    → first_found c jobs ≡ some (some f)
    → (job : PodTemplateJob) × Elem (some job) jobs × (get_runai_training_job c job ≡ some (some f))
unfolding first_found
first_found_lem c [] f h = absurd (cc h)
first_found_lem c (none ∷ jobs) f h = absurd (cc h)
first_found_lem c (some job ∷ jobs) f h =
    elim (or_next-cases (get_runai_training_job c job) (first_found c jobs) f h) [
      | inl e ↦ (job, inl refl, e)
      | inr e ↦ let (other, k, q) = first_found_lem c jobs f e in (other, inr k, q)
    ]

with_urls_lem :
    (job : PodTemplateJob) (pods : List Pod) (o : Option (List String)) (f : FoundJob)
    → with_urls job pods o ≡ some f
    → (urls : List String) × (f ≡ found_job job pods urls)
with_urls_lem job pods none f h = absurd (cc h)
with_urls_lem job pods (some urls) f h = (urls, let e : found_job job pods urls ≡ f = cc in sym e)

get_runai_training_job_lem :
    (c : Cluster) (job : PodTemplateJob) (f : FoundJob)
    → get_runai_training_job c job ≡ some (some f)
    → (is_scheduled job.template ≡ true)
      × ((pods : List Pod) × (urls : List String) × (get_pods_of_job c job ≡ some pods)
          × (f ≡ found_job job pods urls))
unfolding get_runai_training_job
get_runai_training_job_lem c job f h = elim (Bool-cases (is_scheduled job.template)) [
  | inr e ↦ absurd (cc (h, e))
  | inl e ↦ elim (Option-cases (get_pods_of_job c job)) [
    | inl q ↦ absurd (cc (h, e, q))
    | inr (pods, q) ↦
        let k : with_urls job pods
              (get_service_urls_by_last_created_pod c (get_last_created_pod pods))
            ≡ some f =
          cc (h, e, q) in
        let (urls, r) = with_urls_lem job pods _ f k in (e, (pods, urls, q, r))
  ]
]

-- A pod of a job: a pod of the selector whose first owner is the job, or the first replica set of a
-- deployment; or the pod of the job's name, if nobody owns it.
abbrev pub IsPodOf : Cluster → PodTemplateJob → Pod → Type 0
IsPodOf c job pod =
    ((selector : Map String) × (listed : List Pod) × (uid : String) × (job.selector ≡ some selector)
      × (c.pods_by selector ≡ some listed)
      × Elem pod listed
      × (owner_uid c selector job.type job.meta.uid ≡ some uid)
      × (is_owned_by uid pod ≡ true))
    ⊎ (without_owner c.pod ≡ some pod)

or_own_pod_lem :
    (own : Option Pod) (pods : List Pod) (pod : Pod)
    → Elem pod (or_own_pod own pods)
    → Elem pod pods ⊎ (own ≡ some pod)
or_own_pod_lem own (p ∷ pods) pod h = inl h
or_own_pod_lem none [] pod h = inl h
or_own_pod_lem (some p) [] pod (inl e) = inr (ap some (sym e))
or_own_pod_lem (some p) [] pod (inr h) = absurd h

pods_owned_lem :
    (own : Option Pod) (listed : Option (List Pod)) (uid : Option String) (pod : Pod)
    → Elem pod (pods_owned own listed uid)
    → ((pods : List Pod) × (u : String) × (listed ≡ some pods)
        × Elem pod pods
        × (uid ≡ some u)
        × (is_owned_by u pod ≡ true))
      ⊎ (own ≡ some pod)
pods_owned_lem own none uid pod h = absurd h
pods_owned_lem own (some pods) none pod h = absurd h
pods_owned_lem own (some pods) (some u) pod h =
    elim (or_own_pod_lem own (select (is_owned_by u) pods) pod h) [
      | inl e ↦
          let (listed, owned) = (Elem-select (is_owned_by u) pod pods).0 e in
          inl (pods, u, refl, listed, refl, owned)
      | inr e ↦ inr e
    ]

get_pods_of_job-IsPodOf :
    (c : Cluster) (job : PodTemplateJob) (pods : List Pod) (pod : Pod)
    → get_pods_of_job c job ≡ some pods
    → Elem pod pods
    → IsPodOf c job pod
unfolding get_pods_of_job
get_pods_of_job-IsPodOf c job pods pod h k = elim (Option-cases job.selector) [
  | inl e ↦ absurd (cc (h, e))
  | inr (selector, e) ↦
      let q : pods_owned (without_owner c.pod) (c.pods_by selector)
            (owner_uid c selector job.type job.meta.uid)
          ≡ pods =
        cc (h, e) in
      elim (pods_owned_lem (without_owner c.pod) (c.pods_by selector)
        (owner_uid c selector job.type job.meta.uid) pod (subst (Elem pod) (sym q) k)) [
          | inl (listed, uid, l, m, u, o) ↦ inl (selector, listed, uid, e, l, m, u, o)
          | inr own ↦ inr own
        ]
]

-- What holds of a job that is found.
pub record IsChosen (c : Cluster) (f : FoundJob) : Type 0 where
  pub listed : Elem (some f.job) (candidates c)
  pub scheduled : is_scheduled f.job.template ≡ true
  pub pods_of : (pod : Pod) → Elem pod f.pods → IsPodOf c f.job pod
  pub computed : f ≡ found_job f.job f.pods f.service_urls
  pub supported : c.stateful_sets ≡ [] → is_supported c ≡ true

-- A job that is found by its name is one of the objects that the cluster lists under the name, and is
-- Run:AI's. Each of its pods is listed under its selector and owned by it, or by the first replica set
-- of the deployment, or is the pod of this name that nobody owns; its chief pod, status, type and owner
-- are computed from these pods and the object. If no stateful set has the name, the trainer also says
-- that it supports the name, so that a search asks it for the job.
pub get_training_job-IsChosen :
    (c : Cluster) (f : FoundJob) → get_training_job c ≡ some (some f) → IsChosen c f
unfolding get_training_job
get_training_job-IsChosen c f h =
    let (job, k, g) = first_found_lem c (candidates c) f h in
    let (s, (pods, urls, p, e)) = get_runai_training_job_lem c job f g in
    subst (IsChosen c) (sym e) (record {
      listed = k;
      scheduled = s;
      pods_of = λ pod m. get_pods_of_job-IsPodOf c job pods pod p m;
      computed = refl;
      supported = λ none_set. candidates-is_supported c job none_set k s;
    })
