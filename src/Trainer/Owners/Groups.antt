-- ===== src/Trainer/Owners/Groups.antt =====
-- Which pods end in which group.
use runai_cli.Prelude.{
  String, Bool, true, false, not, ◌&&◌, Option, none, some, List, [], ◌∷◌, ◌++◌, Map, lookup,
  lookup-assign, str_eq, eq_iff, if◌then◌else◌, select, ◌≡◌, refl, sym, ap, ◌∙◌, Bool-cases,
  Option-cases, inl, inr,
}
use mathlib.Core.Option.{some-injective}
use mathlib.Core.List.{append-nil, append_assoc}
use runai_cli.Kube.{Pod}
use runai_cli.Trainer.Owners.{
  RunaiJobInfo, ReplicaSets, get_pod_top_owner, is_skipped, entry_or, new_entry, add_pod,
  group_pods, get_pod_job_map,
}

abbrev pub pods_in : Option RunaiJobInfo → List Pod
pods_in none = []
pods_in (some info) = info.pods

-- The pods of the group of an owner.
abbrev pub pods_of : Map RunaiJobInfo → String → List Pod
pods_of jobs uid = pods_in (lookup jobs uid)

-- Whether a pod counts for an owner: it is not passed over, and its top owner has a name and this UID.
abbrev pub owned_by : String → Option (String × String) → Bool
owned_by uid none = false
owned_by uid (some (controller, u)) = not (str_eq controller "") && str_eq u uid

unfoldable pub belongs : ReplicaSets → String → Pod → Bool
belongs sets uid pod = not (is_skipped pod) && owned_by uid (get_pod_top_owner sets pod)

entry-pods :
    (o : Option RunaiJobInfo) (controller : String) (pod : Pod) (named : Bool)
    → pods_in (
        some (
          if named
          then record (entry_or o (new_entry controller pod)) {
            pods = (entry_or o (new_entry controller pod)).pods ++ pod ∷ [];
          }
          else entry_or o (new_entry controller pod)))
      ≡ (if named && true then pods_in o ++ pod ∷ [] else pods_in o)
entry-pods none controller pod true = refl
entry-pods none controller pod false = refl
entry-pods (some info) controller pod true = refl
entry-pods (some info) controller pod false = refl

add_pod-pods_of :
    (jobs : Map RunaiJobInfo) (pod : Pod) (controller u uid : String)
    → pods_of (add_pod jobs pod (controller, u)) uid ≡ (
        if not (str_eq controller "") && str_eq u uid
        then pods_of jobs uid ++ pod ∷ []
        else pods_of jobs uid)
unfolding add_pod
add_pod-pods_of jobs pod controller u uid =
    ap pods_in (lookup-assign jobs u uid _) ∙ elim (Bool-cases (str_eq u uid)) [
      | inl e ↦ rw e (
          entry-pods (lookup jobs u) controller pod (not (str_eq controller ""))
          ∙ ap
              (λ o. if not (str_eq controller "") && true then pods_in o ++ pod ∷ [] else pods_in o)
              (ap (lookup jobs) ((eq_iff u uid).0 e)))
      | inr e ↦ rw e (elim (Bool-cases (str_eq controller "")) [ inl k ↦ rw k | inr k ↦ rw k ])
    ]

add_pod-owned_by :
    (jobs : Map RunaiJobInfo) (pod : Pod) (owner : String × String) (uid : String)
    → pods_of (add_pod jobs pod owner) uid
      ≡ pods_of jobs uid ++ (if owned_by uid (some owner) then pod ∷ [] else [])
add_pod-owned_by jobs pod (controller, u) uid =
    add_pod-pods_of jobs pod controller u uid
    ∙ elim (Bool-cases (owned_by uid (some (controller, u)))) [
      | inl e ↦ rw e
      | inr e ↦ rw e (sym (append-nil _))
    ]

select_nil : (p : Pod → Bool) → select p [] ≡ []
unfolding select
select_nil p = refl

select_split :
    (p : Pod → Bool) (pod : Pod) (pods : List Pod) (b : Bool)
    → p pod ≡ b
    → (if b then pod ∷ [] else []) ++ select p pods ≡ select p (pod ∷ pods)
unfolding select
select_split p pod pods true e = rw e
select_split p pod pods false e = rw e

module _ (sets : ReplicaSets) (pod : Pod) (pods : List Pod) (jobs : Map RunaiJobInfo) where
  pub group_pods_skip :
      is_skipped pod ≡ true → group_pods sets jobs (pod ∷ pods) ≡ group_pods sets jobs pods
  unfolding group_pods
  group_pods_skip e = rw (e, group_pods)

  pub group_pods_add :
      {owner : String × String}
      → is_skipped pod ≡ false
      → get_pod_top_owner sets pod ≡ some owner
      → group_pods sets jobs (pod ∷ pods) ≡ group_pods sets (add_pod jobs pod owner) pods
  unfolding group_pods
  group_pods_add e q = rw (e, q, group_pods)

  pub group_pods_panic :
      is_skipped pod ≡ false
      → get_pod_top_owner sets pod ≡ none
      → group_pods sets jobs (pod ∷ pods) ≡ none
  unfolding group_pods
  group_pods_panic e q = rw (e, q, group_pods)

belongs_skip :
    (sets : ReplicaSets) (uid : String) (pod : Pod)
    → is_skipped pod ≡ true
    → belongs sets uid pod ≡ false
unfolding belongs
belongs_skip sets uid pod e = rw e

belongs_add :
    (sets : ReplicaSets) (uid : String) (pod : Pod) {owner : String × String}
    → is_skipped pod ≡ false
    → get_pod_top_owner sets pod ≡ some owner
    → belongs sets uid pod ≡ owned_by uid (some owner)
unfolding belongs
belongs_add sets uid pod e q = rw (e, q)

group_pods_nil :
    (sets : ReplicaSets) (jobs : Map RunaiJobInfo) {result : Map RunaiJobInfo}
    → group_pods sets jobs [] ≡ some result
    → jobs ≡ result
unfolding group_pods
group_pods_nil sets jobs h = some-injective _ _ h

group_pods-pods_of :
    (sets : ReplicaSets) (pods : List Pod) (jobs : Map RunaiJobInfo) {result : Map RunaiJobInfo}
    → group_pods sets jobs pods ≡ some result
    → (uid : String) → pods_of result uid ≡ pods_of jobs uid ++ select (belongs sets uid) pods
group_pods-pods_of sets [] jobs h uid =
    ap (λ m. pods_of m uid) (sym (group_pods_nil sets jobs h))
    ∙ sym (append-nil (pods_of jobs uid))
    ∙ ap (λ t. pods_of jobs uid ++ t) (sym (select_nil (belongs sets uid)))
group_pods-pods_of sets (pod ∷ pods) jobs h uid = elim (Bool-cases (is_skipped pod)) [
  | inl skipped ↦
      group_pods-pods_of sets pods jobs (sym (group_pods_skip sets pod pods jobs skipped) ∙ h) uid
      ∙ ap (λ t. pods_of jobs uid ++ t)
          (select_split (belongs sets uid) pod pods false (belongs_skip sets uid pod skipped))
  | inr counted ↦ elim (Option-cases (get_pod_top_owner sets pod)) [
    | inl panic ↦ cc (group_pods_panic sets pod pods jobs counted panic)
    | inr (owner, found) ↦
        group_pods-pods_of sets pods (add_pod jobs pod owner)
          (sym (group_pods_add sets pod pods jobs counted found) ∙ h) uid
        ∙ ap (λ t. t ++ select (belongs sets uid) pods) (add_pod-owned_by jobs pod owner uid)
        ∙ append_assoc (pods_of jobs uid) (if owned_by uid (some owner) then pod ∷ [] else [])
            (select (belongs sets uid) pods)
        ∙ ap (λ t. pods_of jobs uid ++ t)
            (select_split (belongs sets uid) pod pods _ (belongs_add sets uid pod counted found))
  ]
]

-- The group of an owner holds exactly the listed pods that count for it, in their order: those that
-- are scheduled by Run:AI and are not of an MPI job, and whose top owner has this UID and a name.
pub get_pod_job_map-pods_of :
    (sets : ReplicaSets) (pods : List Pod) {jobs : Map RunaiJobInfo}
    → get_pod_job_map sets pods ≡ some jobs
    → (uid : String) → pods_of jobs uid ≡ select (belongs sets uid) pods
unfolding get_pod_job_map
get_pod_job_map-pods_of sets pods h uid = group_pods-pods_of sets pods [] h uid
