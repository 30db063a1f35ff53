-- ===== src/Trainer/Owners/Panics.antt =====
-- The pods at which the grouping of pods by their owners panics.
use runai_cli.Prelude.{
  String, true, false, Option, none, some, List, [], ◌∷◌, Any, Map, lookup, has_key, eq_iff, ◌≡◌,
  ◌↔◌, ◌⊎◌, refl, Bool-cases, Option-cases, inl, inr, arith,
}
use runai_cli.Kube.{OwnerReference, Pod}
use runai_cli.Trainer.Owners.{
  RunaiJobInfo, ReplicaSets, first_owner, is_replica_set, replica_set_of, top_owner_loop, top_owner,
  get_pod_top_owner, is_mpi_pod, is_skipped, add_pod, group_pods, get_pod_job_map,
}
use runai_cli.Trainer.Owners.Groups.{group_pods_skip, group_pods_add, group_pods_panic}

-- An owner that controls the pod and is a replica set.
abbrev pub IsReplicaSet : OwnerReference → Type 0
IsReplicaSet owner = (owner.controller ≡ some true) × (owner.kind ≡ "ReplicaSet")

-- The first owner that is a listed replica set is one that has no owners.
abbrev pub IsStuck : ReplicaSets → List OwnerReference → Type 0
IsStuck sets [] = ⊥
IsStuck sets (owner ∷ owners) =
    (IsReplicaSet owner × (lookup sets owner.uid ≡ some []))
    ⊎ ((¬ (IsReplicaSet owner) ⊎ (lookup sets owner.uid ≡ none)) × IsStuck sets owners)

-- A pod of Run:AI's scheduler that is of no MPI job, with such owners.
pub record IsFatal (sets : ReplicaSets) (pod : Pod) : Type 0 where
  pub scheduled : pod.spec.scheduler_name ≡ "runai-scheduler"
  pub not_mpi : has_key pod.meta.labels "mpi_job_name" ≡ false
  pub stuck : IsStuck sets pod.meta.owners

is_replica_set_iff : (owner : OwnerReference) → (is_replica_set owner ≡ true) ↔ IsReplicaSet owner
unfolding is_replica_set
is_replica_set_iff owner = elim (Option-cases owner.controller) [
  | inl e ↦ ground (arith, e)
  | inr (b, e) ↦ ground (arith, e, eq_iff owner.kind "ReplicaSet")
]

looked_up :
    (sets : ReplicaSets) (owner : OwnerReference)
    → ((replica_set_of sets owner ≡ some [])
        ↔ (IsReplicaSet owner × (lookup sets owner.uid ≡ some [])))
      × ((replica_set_of sets owner ≡ none)
          ↔ (¬ (IsReplicaSet owner) ⊎ (lookup sets owner.uid ≡ none)))
looked_up sets owner =
    let is_set = is_replica_set_iff owner in
    elim (Bool-cases (is_replica_set owner)) [
      | inl e ↦
          let r = is_set.0 e in
          rw e (
            (λ h. (r, h), λ h. h.1),
            (λ h. inr h, λ h. elim h [ inl n ↦ absurd (n r) | inr q ↦ q ]),
          )
      | inr e ↦
          let other : ¬ (IsReplicaSet owner) = λ r. cc (e, is_set.1 r) in
          rw e ((λ h. absurd (cc h), λ h. absurd (other h.0)), (λ h. inl other, λ h. refl))
    ]

-- One round of the loop, from what the lookup gives and the other rounds.
round_iff :
    (o : Option (List OwnerReference)) (next : Option (String × String)) {S : Type 0}
    → ((next ≡ none) ↔ S)
    → (◌≡◌ {A = Option (String × String)}
        (elim o [ some above ↦ first_owner above | none ↦ next ])
        none)
      ↔ ((o ≡ some []) ⊎ ((o ≡ none) × S))
round_iff none next more =
    (λ h. inr (refl, more.0 h), λ h. elim h [ inl q ↦ absurd (cc q) | inr (q, k) ↦ more.1 k ])
round_iff (some []) next more = (λ h. inl refl, λ h. refl)
round_iff (some (above ∷ rest)) next more =
    (λ h. absurd (cc h), λ h. elim h [ inl q ↦ absurd (cc q) | inr (q, k) ↦ absurd (cc q) ])

top_owner_loop_iff :
    (sets : ReplicaSets) (last : String × String) (owners : List OwnerReference)
    → (top_owner_loop sets last owners ≡ none) ↔ IsStuck sets owners
unfolding top_owner_loop
top_owner_loop_iff sets last [] = (λ h. absurd (cc h), λ h. absurd h)
top_owner_loop_iff sets last (owner ∷ owners) =
    let (bare, passed) = looked_up sets owner in
    let more = top_owner_loop_iff sets (owner.name, owner.uid) owners in
    let round =
      round_iff (replica_set_of sets owner) (top_owner_loop sets (owner.name, owner.uid) owners)
        more in
    (
      λ h. elim (round.0 h) [ inl q ↦ inl (bare.0 q) | inr (q, k) ↦ inr (passed.0 q, k) ],
      λ h. round.1 (elim h [ inl b ↦ inl (bare.1 b) | inr (p, k) ↦ inr (passed.1 p, k) ]),
    )

top_owner_iff :
    (sets : ReplicaSets) (self : String × String) (owners : List OwnerReference)
    → (top_owner sets self owners ≡ none) ↔ IsStuck sets owners
top_owner_iff sets self [] = (λ h. absurd (cc h), λ h. absurd h)
top_owner_iff sets self (owner ∷ owners) = top_owner_loop_iff sets ("", "") (owner ∷ owners)

is_skipped_iff :
    (pod : Pod)
    → (is_skipped pod ≡ false) ↔ (
        (pod.spec.scheduler_name ≡ "runai-scheduler")
        × (has_key pod.meta.labels "mpi_job_name" ≡ false))
unfolding is_skipped is_mpi_pod
is_skipped_iff pod = ground (arith, eq_iff pod.spec.scheduler_name "runai-scheduler")

group_pods_iff :
    (sets : ReplicaSets) (jobs : Map RunaiJobInfo) (pods : List Pod)
    → (group_pods sets jobs pods ≡ none) ↔ Any (IsFatal sets) pods
unfolding get_pod_top_owner
group_pods_iff sets jobs [] = (λ h. absurd (unfold group_pods in cc h), λ h. absurd h)
group_pods_iff sets jobs (pod ∷ pods) =
    let counted = is_skipped_iff pod in
    let owners = top_owner_iff sets (pod.meta.name, pod.meta.uid) pod.meta.owners in
    elim (Bool-cases (is_skipped pod)) [
      | inl e ↦
          let more = group_pods_iff sets jobs pods in
          rw (group_pods_skip sets pod pods jobs e) (
            λ h. inr (more.0 h),
            λ h. elim h [
              | inl f ↦ absurd (cc (e, counted.1 (f.scheduled, f.not_mpi)))
              | inr k ↦ more.1 k
            ],
          )
      | inr e ↦ elim (Option-cases (get_pod_top_owner sets pod)) [
        | inl panic ↦
            let (scheduled, not_mpi) = counted.0 e in
            rw (group_pods_panic sets pod pods jobs e panic) (
              λ h.
                  inl (record { scheduled = scheduled; not_mpi = not_mpi; stuck = owners.0 panic }),
              λ h. refl,
            )
        | inr (owner, found) ↦
            let more = group_pods_iff sets (add_pod jobs pod owner) pods in
            rw (group_pods_add sets pod pods jobs e found) (
              λ h. inr (more.0 h),
              λ h. elim h [ inl f ↦ absurd (cc (found, owners.1 f.stuck)) | inr k ↦ more.1 k ],
            )
      ]
    ]

-- The grouping panics exactly if one of the pods is of Run:AI's scheduler and of no MPI job, and the
-- first of its owners that controls it, is a replica set and is listed, has no owners itself.
pub get_pod_job_map-panics :
    (sets : ReplicaSets) (pods : List Pod)
    → (get_pod_job_map sets pods ≡ none) ↔ Any (IsFatal sets) pods
unfolding get_pod_job_map
get_pod_job_map-panics sets pods = group_pods_iff sets [] pods
