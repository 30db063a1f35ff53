-- ===== src/Trainer/Owners/Tests.antt =====
-- The grouping of pods at a concrete namespace.
use runai_cli.Prelude.{
  Any, ◌↔◌, String, true, false, none, some, List, [], ◌∷◌, Map, lookup, ◌≡◌, refl, sym, ap, select,
}
use mathlib.Core.Option.{some-injective}
use runai_cli.Kube.{OwnerReference, Pod}
use runai_cli.Trainer.Owners.{
  RunaiJobInfo, ReplicaSets, is_replica_set, get_pod_top_owner, is_skipped, get_pod_job_map,
}
use runai_cli.Trainer.Owners.Groups.{pods_of, belongs, get_pod_job_map-pods_of}
use runai_cli.Trainer.Owners.Panics.{IsFatal, get_pod_job_map-panics}

-- What a test unfolds to compute a grouping.
grouping : Unit {0}
unfolding get_pod_job_map is_replica_set is_skipped get_pod_top_owner belongs lookup select
grouping = tt

abbrev owner_of : String → String → String → OwnerReference
owner_of kind name uid = record { kind = kind; name = name; uid = uid; controller = some true }

abbrev pod_of : String → List OwnerReference → Pod
pod_of uid owners = record {
  meta = record {
    name = uid;
    namespace = "runai-team";
    uid = uid;
    labels = [];
    annotations = [];
    created = 0;
    deleted = none;
    owners = owners;
  };
  spec = record {
    scheduler_name = "runai-scheduler";
    node_name = "";
    host_network = false;
    containers = [];
    init_containers = [];
  };
  status = record {
    phase = "Pending";
    reason = "";
    conditions = [];
    init_statuses = [];
    statuses = [];
  };
}

abbrev replicated : Pod
replicated = pod_of "p1" (owner_of "ReplicaSet" "set" "s" ∷ [])

abbrev alone : Pod
alone = pod_of "p2" []

abbrev of_job : Pod
of_job = pod_of "p3" (owner_of "RunaiJob" "job" "j" ∷ [])

abbrev some_sets : ReplicaSets
some_sets = ("s", owner_of "Deployment" "served" "d" ∷ []) ∷ []

abbrev bare_sets : ReplicaSets
bare_sets = ("s", []) ∷ []

some_pods : List Pod
some_pods = replicated ∷ alone ∷ of_job ∷ replicated ∷ []

groups :
    (jobs : Map RunaiJobInfo)
    → get_pod_job_map some_sets (replicated ∷ alone ∷ of_job ∷ replicated ∷ []) ≡ some jobs
    → (pods_of jobs "d" ≡ replicated ∷ replicated ∷ [])
      × (pods_of jobs "p2" ≡ alone ∷ [])
      × (pods_of jobs "j" ≡ of_job ∷ [])
unfolding grouping
groups jobs e = (
  ap (λ m. pods_of m "d") (sym (some-injective _ _ e)),
  ap (λ m. pods_of m "p2") (sym (some-injective _ _ e)),
  ap (λ m. pods_of m "j") (sym (some-injective _ _ e)),
)

two_jobs : Map RunaiJobInfo
two_jobs = elim (get_pod_job_map some_sets (replicated ∷ of_job ∷ [])) [
  | none ↦ []
  | some jobs ↦ jobs
]

get_pod_job_map-pods_of_example :
    pods_of two_jobs "d" ≡ select (belongs some_sets "d") (replicated ∷ of_job ∷ [])
unfolding two_jobs grouping
get_pod_job_map-pods_of_example =
    get_pod_job_map-pods_of some_sets (replicated ∷ of_job ∷ []) {jobs = two_jobs} refl "d"

get_pod_job_map-panics_example :
    (get_pod_job_map bare_sets (alone ∷ replicated ∷ of_job ∷ []) ≡ none)
    ↔ Any (IsFatal bare_sets) (alone ∷ replicated ∷ of_job ∷ [])
get_pod_job_map-panics_example = get_pod_job_map-panics bare_sets (alone ∷ replicated ∷ of_job ∷ [])

panics : get_pod_job_map bare_sets (alone ∷ replicated ∷ of_job ∷ []) ≡ none
unfolding grouping
panics = refl
