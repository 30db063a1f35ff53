-- ===== src/Trainer/Jobs/Found.antt =====
-- Which jobs are listed as deleted.
use mathlib.Core.Path.{subst}
use runai_cli.Prelude.{
  String, true, false, Option, none, some, List, [], ◌∷◌, Map, lookup, lookup-assign, str_eq,
  eq_iff, ◌≡◌, refl, sym, ap, ◌∙◌, inl, inr, ◌⊎◌, Any, Bool-cases,
}
use runai_cli.Kube.{Pod}
use runai_cli.Trainer.Owners.{RunaiJobInfo}
use runai_cli.Trainer.Owners.Groups.{pods_in}
use runai_cli.Trainer.Jobs.{
  PodTemplateJob, is_runai_pod_object, entry_of, update_entry, add_job, add_jobs,
}

-- One of the objects is Run:AI's and has this UID.
abbrev pub IsRunai : String → PodTemplateJob → Type 0
IsRunai uid job = (is_runai_pod_object job ≡ true) × (job.meta.uid ≡ uid)

abbrev pub IsListed : String → List PodTemplateJob → Type 0
IsListed uid jobs = Any (IsRunai uid) jobs

-- An entry that is not deleted, with these pods.
abbrev pub IsAlive : List Pod → Option RunaiJobInfo → Type 0
IsAlive pods o =
    (info : RunaiJobInfo) × (o ≡ some info) × (info.deleted ≡ false) × (info.pods ≡ pods)

update_entry-IsAlive :
    (job : PodTemplateJob) (o : Option RunaiJobInfo)
    → IsAlive (pods_in o) (some (update_entry job (entry_of job o)))
unfolding update_entry
update_entry-IsAlive job none = (_, refl, refl, refl)
update_entry-IsAlive job (some info) = (_, refl, refl, refl)

module _ (infos : Map RunaiJobInfo) (job : PodTemplateJob) (uid : String) where
  lookup-add_job_other : ¬ (IsRunai uid job) → lookup (add_job infos job) uid ≡ lookup infos uid
  unfolding add_job
  lookup-add_job_other h = elim (Bool-cases (is_runai_pod_object job)) [
    | inr e ↦ rw e
    | inl e ↦ rw e (
        lookup-assign infos job.meta.uid uid _ ∙ elim (Bool-cases (str_eq job.meta.uid uid)) [
          | inl q ↦ absurd (h (e, (eq_iff job.meta.uid uid).0 q))
          | inr q ↦ rw q
        ])
  ]

  lookup-add_job :
      IsRunai uid job
      → lookup (add_job infos job) uid ≡ some (update_entry job (entry_of job (lookup infos uid)))
  unfolding add_job
  lookup-add_job (e, q) = rw e (
      lookup-assign infos job.meta.uid uid _
      ∙ rw ((eq_iff job.meta.uid uid).1 q)
          (ap (λ u. some (update_entry job (entry_of job (lookup infos u)))) q))

  IsRunai-cases : IsRunai uid job ⊎ (¬ (IsRunai uid job))
  IsRunai-cases = elim (Bool-cases (is_runai_pod_object job)) [
    | inr e ↦ inr (λ h. cc (h.0, e))
    | inl e ↦ elim (Bool-cases (str_eq job.meta.uid uid)) [
      | inl q ↦ inl (e, (eq_iff job.meta.uid uid).0 q)
      | inr q ↦ inr (λ h. cc ((eq_iff job.meta.uid uid).1 h.1, q))
    ]
  ]

  add_job-IsAlive :
      IsRunai uid job → IsAlive (pods_in (lookup infos uid)) (lookup (add_job infos job) uid)
  add_job-IsAlive h =
      subst (IsAlive (pods_in (lookup infos uid))) (sym (lookup-add_job h))
        (update_entry-IsAlive job (lookup infos uid))

IsAlive-pods_in : (pods : List Pod) (o : Option RunaiJobInfo) → IsAlive pods o → pods_in o ≡ pods
IsAlive-pods_in pods o (info, e, d, p) = ap pods_in e ∙ p

add_job-pods_in :
    (infos : Map RunaiJobInfo) (job : PodTemplateJob) (uid : String)
    → pods_in (lookup (add_job infos job) uid) ≡ pods_in (lookup infos uid)
add_job-pods_in infos job uid = elim (IsRunai-cases infos job uid) [
  | inl h ↦ IsAlive-pods_in _ _ (add_job-IsAlive infos job uid h)
  | inr h ↦ ap pods_in (lookup-add_job_other infos job uid h)
]

add_jobs-nil : (infos : Map RunaiJobInfo) → add_jobs infos [] ≡ infos
unfolding add_jobs
add_jobs-nil infos = refl

add_jobs-cons :
    (infos : Map RunaiJobInfo) (job : PodTemplateJob) (jobs : List PodTemplateJob)
    → add_jobs infos (job ∷ jobs) ≡ add_jobs (add_job infos job) jobs
unfolding add_jobs
add_jobs-cons infos job jobs = refl

stays-IsAlive :
    (infos : Map RunaiJobInfo) (jobs : List PodTemplateJob) (uid : String) (pods : List Pod)
    → IsAlive pods (lookup infos uid)
    → IsAlive pods (lookup (add_jobs infos jobs) uid)
stays-IsAlive infos [] uid pods h = rw (add_jobs-nil infos) h
stays-IsAlive infos (job ∷ jobs) uid pods h = rw (add_jobs-cons infos job jobs) (
    stays-IsAlive (add_job infos job) jobs uid pods (elim (IsRunai-cases infos job uid) [
      | inl r ↦
          subst (λ ps. IsAlive ps (lookup (add_job infos job) uid)) (IsAlive-pods_in pods _ h)
            (add_job-IsAlive infos job uid r)
      | inr r ↦ subst (IsAlive pods) (sym (lookup-add_job_other infos job uid r)) h
    ]))

found-IsAlive :
    (infos : Map RunaiJobInfo) (jobs : List PodTemplateJob) (uid : String)
    → IsListed uid jobs
    → IsAlive (pods_in (lookup infos uid)) (lookup (add_jobs infos jobs) uid)
found-IsAlive infos [] uid h = absurd h
found-IsAlive infos (job ∷ jobs) uid (inl r) =
    rw (add_jobs-cons infos job jobs)
      (stays-IsAlive (add_job infos job) jobs uid _ (add_job-IsAlive infos job uid r))
found-IsAlive infos (job ∷ jobs) uid (inr h) = rw (add_jobs-cons infos job jobs) (
    subst (λ ps. IsAlive ps (lookup (add_jobs (add_job infos job) jobs) uid))
      (add_job-pods_in infos job uid) (found-IsAlive (add_job infos job) jobs uid h))

kept :
    (infos : Map RunaiJobInfo) (jobs : List PodTemplateJob) (uid : String)
    → ¬ (IsListed uid jobs)
    → lookup (add_jobs infos jobs) uid ≡ lookup infos uid
kept infos [] uid h = ap (λ m. lookup m uid) (add_jobs-nil infos)
kept infos (job ∷ jobs) uid h =
    ap (λ m. lookup m uid) (add_jobs-cons infos job jobs)
    ∙ kept (add_job infos job) jobs uid (λ k. h (inr k))
    ∙ lookup-add_job_other infos job uid (λ r. h (inl r))

-- A job is not deleted, and keeps the pods that were grouped under its UID, if one of the objects that
-- the cluster lists is Run:AI's and has this UID; under any other UID nothing changes, so that what
-- was grouped there stays marked as deleted.
pub add_jobs-IsAlive :
    (infos : Map RunaiJobInfo) (jobs : List PodTemplateJob) (uid : String)
    → (IsListed uid jobs → IsAlive (pods_in (lookup infos uid)) (lookup (add_jobs infos jobs) uid))
      × (¬ (IsListed uid jobs) → lookup (add_jobs infos jobs) uid ≡ lookup infos uid)
add_jobs-IsAlive infos jobs uid = (found-IsAlive infos jobs uid, kept infos jobs uid)
