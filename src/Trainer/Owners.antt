-- ===== src/Trainer/Owners.antt =====
-- Grouping the pods of a namespace by the object that owns them: `getPodTopOwner` and `getPodJobMap`
-- of cmd/trainer/trainer_runai.go. `none` is the panic of an index out of range.
pub mod Groups
pub mod Panics
mod Tests
use runai_cli.Prelude.{
  ℕ, String, Bool, true, false, not, ◌&&◌, ◌||◌, Option, none, some, List, [], ◌∷◌, ◌++◌, Map,
  lookup, assign, has_key, get, str_eq, if◌then◌else◌,
}
use runai_cli.Kube.{OwnerReference, Meta, Pod, PodSpec}
use runai_cli.Submit.GitSync.{is_bool_true}
use runai_cli.Trainer.Status.{scheduler_name}

-- `types.Resource` of pkg/types/basic_job_info.go.
pub record Resource : Type 0 where
  pub name : String
  pub uid : String
  pub resource_type : String

-- `RunaiJobInfo`. The metadata of the job itself is `none` until the job is found.
pub record RunaiJobInfo : Type 0 where
  pub name : String
  pub namespace : String
  pub job_type : String
  pub created : ℕ
  pub pods : List Pod
  pub created_by_cli : Bool
  pub deleted : Bool
  pub pod_spec : Option PodSpec
  pub pod_metadata : Option Meta
  pub object_meta : Option Meta
  pub owner : Resource
  pub status : String
  pub parallelism : ℕ
  pub completions : ℕ
  pub failed : ℕ
  pub succeeded : ℕ

-- `&RunaiJobInfo{}`.
abbrev pub no_job_info : RunaiJobInfo
no_job_info = record {
  name = "";
  namespace = "";
  job_type = "";
  created = 0;
  pods = [];
  created_by_cli = false;
  deleted = false;
  pod_spec = none;
  pod_metadata = none;
  object_meta = none;
  owner = record { name = ""; uid = ""; resource_type = "" };
  status = "";
  parallelism = 0;
  completions = 0;
  failed = 0;
  succeeded = 0;
}

-- The owners of each replica set, by the UID of the set.
abbrev pub ReplicaSets : Type 0
ReplicaSets = Map (List OwnerReference)

-- The first owner of a replica set that was found.
abbrev pub first_owner : List OwnerReference → Option (String × String)
first_owner [] = none
first_owner (owner ∷ owners) = some (owner.name, owner.uid)

-- The round of the loop over the owners of a pod that looks a replica set up.
unfoldable pub is_replica_set : OwnerReference → Bool
is_replica_set owner = is_bool_true owner.controller && str_eq owner.kind "ReplicaSet"

abbrev pub replica_set_of : ReplicaSets → OwnerReference → Option (List OwnerReference)
replica_set_of sets owner = if is_replica_set owner then lookup sets owner.uid else none

unfoldable pub top_owner_loop :
    ReplicaSets → String × String → List OwnerReference → Option (String × String)
unfolding is_replica_set
top_owner_loop sets last [] = some last
top_owner_loop sets last (owner ∷ owners) =
    let next = top_owner_loop sets (owner.name, owner.uid) owners in
    elim (replica_set_of sets owner) [ some above ↦ first_owner above | none ↦ next ]

abbrev pub top_owner :
    ReplicaSets → String × String → List OwnerReference → Option (String × String)
top_owner sets self [] = some self
top_owner sets self (owner ∷ owners) = top_owner_loop sets ("", "") (owner ∷ owners)

unfoldable pub get_pod_top_owner : ReplicaSets → Pod → Option (String × String)
unfolding top_owner_loop
get_pod_top_owner sets pod = top_owner sets (pod.meta.name, pod.meta.uid) pod.meta.owners

unfoldable pub is_mpi_pod : Pod → Bool
unfolding has_key
is_mpi_pod pod = has_key pod.meta.labels "mpi_job_name"

-- The entry that is made at the first pod of an owner: deleted, unless the job is found later.
abbrev pub new_entry : String → Pod → RunaiJobInfo
new_entry controller pod = record no_job_info {
  name = controller;
  namespace = pod.meta.namespace;
  deleted = true;
  pod_spec = some pod.spec;
  pod_metadata = some pod.meta;
  created_by_cli = str_eq (get pod.meta.labels "app") "runaijob";
}

abbrev pub entry_or : Option RunaiJobInfo → RunaiJobInfo → RunaiJobInfo
entry_or none other = other
entry_or (some info) other = info

unfoldable pub add_pod : Map RunaiJobInfo → Pod → String × String → Map RunaiJobInfo
unfolding lookup assign get
add_pod jobs pod (controller, uid) =
    let info = entry_or (lookup jobs uid) (new_entry controller pod) in
    assign jobs uid
      (if not (str_eq controller "") then record info { pods = info.pods ++ pod ∷ [] } else info)

-- A pod that the loop passes over.
unfoldable pub is_skipped : Pod → Bool
unfolding is_mpi_pod
is_skipped pod = is_mpi_pod pod || not (str_eq pod.spec.scheduler_name scheduler_name)

unfoldable pub group_pods : ReplicaSets → Map RunaiJobInfo → List Pod → Option (Map RunaiJobInfo)
unfolding get_pod_top_owner is_skipped add_pod
group_pods sets jobs [] = some jobs
group_pods sets jobs (pod ∷ pods) = elim (is_skipped pod) [
  | true ↦ group_pods sets jobs pods
  | false ↦ elim (get_pod_top_owner sets pod) [
    | none ↦ none
    | some owner ↦ group_pods sets (add_pod jobs pod owner) pods
  ]
]

-- The pods that the cluster lists, grouped.
unfoldable pub get_pod_job_map : ReplicaSets → List Pod → Option (Map RunaiJobInfo)
unfolding group_pods
get_pod_job_map sets pods = group_pods sets [] pods
