-- ===== src/Trainer/Listing/Rows.antt =====
-- What the list shows of an object of the cluster.
use runai_cli.Prelude.{
  String, false, Option, none, some, List, [], ◌∷◌, Map, lookup, select, Elem, str_eq, ◌≡◌, refl,
  sym, ap, ◌∙◌, inl, inr, Bool-cases, arith,
}
use mathlib.Core.Path.{subst}
use mathlib.Core.Option.{some-injective}
use runai_cli.Kube.{Pod}
use runai_cli.Trainer.Owners.{RunaiJobInfo, ReplicaSets, get_pod_job_map}
use runai_cli.Trainer.Owners.Groups.{belongs, get_pod_job_map-pods_of}
use runai_cli.Trainer.Jobs.{PodTemplateJob, add_jobs}
use runai_cli.Trainer.Jobs.Found.{add_jobs-IsAlive}
use runai_cli.Trainer.Services.{get_last_created_pod}
use runai_cli.Trainer.Listing.{
  Namespace, ListedJob, Addresses, unless_error, addresses_of, listed_job, rows_of,
  jobs_for_list_command, list_training_jobs,
}
use runai_cli.Trainer.Listing.Objects.{and_then_lem, IsObject, jobs_for_list_command-IsListed}

lookup-Elem :
    (at : Addresses) (infos : Map RunaiJobInfo) (uid : String) (info : RunaiJobInfo)
    → lookup infos uid ≡ some info
    → Elem (listed_job at info) (rows_of at infos)
unfolding lookup rows_of
lookup-Elem at [] uid info h = absurd (cc h)
lookup-Elem at (entry ∷ infos) uid info h = elim (Bool-cases (str_eq entry.0 uid)) [
  | inl e ↦ let q : entry.1 ≡ info = ground (arith, h, e) in inl (ap (listed_job at) (sym q))
  | inr e ↦ inr (lookup-Elem at infos uid info (ground (arith, h, e)))
]

unless_error_lem :
    {A B : Type 0} (o : Option A) (next : A → Option (Option B)) {b : B}
    → unless_error o next ≡ some (some b)
    → (a : A) × (o ≡ some a) × (next a ≡ some (some b))
unfolding unless_error
unless_error_lem none next h = absurd (cc h)
unless_error_lem (some a) next h = (a, refl, h)

-- The rows of a list that was made.
abbrev IsMade : Namespace → List ListedJob → Type 0
IsMade ns rows =
    (pods : List Pod) × (sets : ReplicaSets) × (at : Addresses) × (infos : Map RunaiJobInfo)
    × (objects : List PodTemplateJob) × (ns.pods ≡ some pods)
    × (ns.replica_sets ≡ some sets)
    × (get_pod_job_map sets pods ≡ some infos)
    × (jobs_for_list_command ns ≡ some objects)
    × (rows_of at (add_jobs infos objects) ≡ rows)

list_training_jobs-IsMade :
    (ns : Namespace) {rows : List ListedJob}
    → list_training_jobs ns ≡ some (some rows)
    → IsMade ns rows
unfolding list_training_jobs
list_training_jobs-IsMade ns h =
    let (services, a, h1) = unless_error_lem _ _ h in
    let (nodes, b, h2) = unless_error_lem _ _ h1 in
    let (ingress, c, h3) = unless_error_lem _ _ h2 in
    let (pods, d, h4) = unless_error_lem _ _ h3 in
    let (sets, e, h5) = unless_error_lem _ _ h4 in
    let (infos, f, h6) = and_then_lem _ _ h5 in
    let (objects, g, h7) = and_then_lem _ _ h6 in
    (
      pods,
      sets,
      addresses_of ns services nodes ingress,
      infos,
      objects,
      d,
      e,
      f,
      g,
      some-injective _ _ (some-injective _ _ h7),
    )

-- A job of the list that is not deleted, with the pods of this UID.
pub record IsShown (sets : ReplicaSets) (pods : List Pod) (uid : String) (rows : List ListedJob)
    : Type 0 where
  pub row : ListedJob
  pub listed : Elem row rows
  pub alive : row.info.deleted ≡ false
  pub owned : row.info.pods ≡ select (belongs sets uid) pods
  pub chief : row.chief_pod ≡ get_last_created_pod (select (belongs sets uid) pods)

-- If a namespace is listed, then every object of Run:AI in it, be it a batch job, a stateful set, a
-- deployment, a Run:AI job or a pod without owner, is in the list as a job that is not deleted. Of
-- Run:AI are objects with its scheduler that are not part of an MPI job. The pods of this job are
-- the listed pods that count for the object's UID, in their order: those that are not passed over,
-- and whose top owner has a name and this UID. Its chief pod is the last created one of them.
pub list_training_jobs-IsShown :
    (ns : Namespace) (rows : List ListedJob)
    → list_training_jobs ns ≡ some (some rows)
    → (pods : List Pod) × (sets : ReplicaSets) × (ns.pods ≡ some pods)
      × (ns.replica_sets ≡ some sets)
      × ((uid : String) → IsObject ns uid → IsShown sets pods uid rows)
unfolding listed_job
list_training_jobs-IsShown ns rows h =
    let (pods, sets, at, infos, objects, p, s, grouped, o, made) = list_training_jobs-IsMade ns h in
    (
      pods,
      sets,
      p,
      s,
      λ uid object.
          let (info, found, alive, held) =
            (add_jobs-IsAlive infos objects uid).0
              (jobs_for_list_command-IsListed ns uid o object) in
          let owned = held ∙ get_pod_job_map-pods_of sets pods grouped uid in
          record {
            row = listed_job at info;
            listed =
                subst (Elem (listed_job at info)) made
                  (lookup-Elem at (add_jobs infos objects) uid info found);
            alive = alive;
            owned = owned;
            chief = ap get_last_created_pod owned;
          },
    )
