-- ===== src/Trainer/Services/Pods.antt =====
-- The last pod of a job, and the service of a pod.
use runai_cli.Prelude.{
  ◌≤◌, String, true, false, Option, none, some, List, [], ◌∷◌, Map, get, ltb, str_eq, eq_iff, all,
  find_first, find_first-eq-some, find_first-eq-none, if◌then◌else◌, ◌≡◌, refl, sym, ap, ◌∙◌, ◌↔◌,
  inl, inr, All, Elem, Bool-cases, Option-cases, arith,
}
use mathlib.Core.Path.{subst}
use mathlib.Core.Option.{some-injective}
use runai_cli.Kube.{Pod}
use runai_cli.Trainer.Services.{
  Service, last_created_loop, get_last_created_pod, is_selected, get_service_of_pod,
}

-- No pod of the list was created after this one.
abbrev pub NoneLater : Pod → List Pod → Type 0
NoneLater p pods = All (λ q. q.meta.created ≤ p.meta.created) pods

abbrev pub IsLast : List Pod → Option Pod → Type 0
IsLast pods none = pods ≡ []
IsLast pods (some p) = Elem p pods × NoneLater p pods

last_created_loop-cons :
    (last pod : Pod) (pods : List Pod)
    → last_created_loop last (pod ∷ pods)
      ≡ last_created_loop (if ltb last.meta.created pod.meta.created then pod else last) pods
unfolding last_created_loop
last_created_loop-cons last pod pods = refl

last_created_loop-nil : (last : Pod) → last_created_loop last [] ≡ last
unfolding last_created_loop
last_created_loop-nil last = refl

abbrev pub IsLastOf : List Pod → Pod → Type 0
IsLastOf pods p = Elem p pods × NoneLater p pods

last_created_loop-IsLastOf :
    (last : Pod) (pods : List Pod) → IsLastOf (last ∷ pods) (last_created_loop last pods)
last_created_loop-IsLastOf last [] = rw (last_created_loop-nil last) (inl refl, (omega arith, tt))
last_created_loop-IsLastOf last (pod ∷ pods) =
    elim (Bool-cases (ltb last.meta.created pod.meta.created)) [
      | inl later ↦
          let h = last_created_loop-IsLastOf pod pods in
          subst (IsLastOf (last ∷ pod ∷ pods))
            (sym (
              last_created_loop-cons last pod pods
              ∙ ap (λ b. last_created_loop (if b then pod else last) pods) later))
            (inr h.0, (ground (arith, h.1.0), h.1))
      | inr earlier ↦
          let h = last_created_loop-IsLastOf last pods in
          subst (IsLastOf (last ∷ pod ∷ pods))
            (sym (
              last_created_loop-cons last pod pods
              ∙ ap (λ b. last_created_loop (if b then pod else last) pods) earlier))
            (
              elim h.0 [ inl e ↦ inl e | inr k ↦ inr (inr k) ],
              (h.1.0, (ground (arith, h.1.0), h.1.1)),
            )
    ]

-- The last created pod is one of the pods, and none of them was created later; there is none exactly
-- where there are no pods.
pub get_last_created_pod-IsLast : (pods : List Pod) → IsLast pods (get_last_created_pod pods)
unfolding get_last_created_pod
get_last_created_pod-IsLast [] = refl
get_last_created_pod-IsLast (pod ∷ pods) = last_created_loop-IsLastOf pod pods

-- The service has a selector, and each of its pairs is a label of the pod.
abbrev pub Selects : Pod → Service → Type 0
Selects pod service =
    (selector : Map String) × (service.selector ≡ some selector)
    × All (λ pair. get pod.meta.labels pair.0 ≡ pair.1) selector

all_iff :
    (pod : Pod) (selector : Map String)
    → (all (λ pair. str_eq (get pod.meta.labels pair.0) pair.1) selector ≡ true)
      ↔ All (λ pair. get pod.meta.labels pair.0 ≡ pair.1) selector
unfolding all
all_iff pod [] = (λ h. tt, λ h. refl)
all_iff pod (pair ∷ selector) =
    ground (arith, all_iff pod selector, eq_iff (get pod.meta.labels pair.0) pair.1)

is_selected_iff :
    (pod : Pod) (service : Service)
    → (is_selected pod service.selector ≡ true) ↔ Selects pod service
unfolding is_selected
is_selected_iff pod service = elim (Option-cases service.selector) [
  | inl e ↦ rw e (λ h. cc, λ (s, q, k). cc)
  | inr (selector, e) ↦ rw e (
    λ h. (selector, refl, (all_iff pod selector).0 h),
    λ (s, q, k). (all_iff pod selector).1 (
        subst (λ t. All (λ pair. get pod.meta.labels pair.0 ≡ pair.1) t)
          (sym (some-injective _ _ q)) k),
  )
]

abbrev pub IsServiceOf : List Service → Pod → Option Service → Type 0
IsServiceOf services pod none = All (λ s. ¬ (Selects pod s)) services
IsServiceOf services pod (some s) = Elem s services × Selects pod s

none-selected :
    (services : List Service) (pod : Pod)
    → All (λ s. is_selected pod s.selector ≡ false) services
    → All (λ s. ¬ (Selects pod s)) services
none-selected [] pod h = tt
none-selected (s ∷ services) pod (h, hs) =
    (λ k. cc ((is_selected_iff pod s).1 k, h), none-selected services pod hs)

-- The service of a pod is one of the services, and its selector asks for nothing but labels of the
-- pod; there is none exactly where no service has such a selector.
pub get_service_of_pod-IsServiceOf :
    (services : List Service) (pod : Pod)
    → IsServiceOf services pod (get_service_of_pod services pod)
unfolding get_service_of_pod
get_service_of_pod-IsServiceOf services pod =
    elim (Option-cases (find_first (λ s. is_selected pod s.selector) services)) [
      | inl e ↦ rw e (none-selected services pod (find_first-eq-none _ services e))
      | inr (s, e) ↦
          let (k, q) = find_first-eq-some (λ s. is_selected pod s.selector) services e in
          rw e (k, (is_selected_iff pod s).0 q)
    ]
