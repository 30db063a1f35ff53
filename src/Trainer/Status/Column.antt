-- ===== src/Trainer/Status/Column.antt =====
-- The status that is shown for a pod.
use text.Mathlib.Text.{starts_with}
use text.Mathlib.TextPositions.{starts_with-append}
use runai_cli.Prelude.{
  ℕ, ◌+◌, String, Bool, true, false, not, ◌&&◌, Option, none, some, is_some, List, [], ◌∷◌, ◌++◌,
  length, ◌==◌, str_eq, eq_iff, if◌then◌else◌, any, ◌≡◌, ◌≢◌, refl, ◌⊎◌, inl, inr, arith,
  Bool-cases, All, ◌∙◌, sym,
}
use runai_cli.Kube.{ContainerStatus, Terminated, Pod}
use runai_cli.Trainer.Status.{
  ended, init_waiting, init_reason, init_loop, container_reason, containers_loop, containers_status,
  get_status_column_from_pod_status, has_pod_ready_condition,
}

-- An init container that ended with exit code 0.
abbrev pub IsDone : ContainerStatus → Type 0
IsDone c = (t : Terminated) × (c.terminated ≡ some t) × (t.exit_code ≡ 0)

abbrev pub StartsWithInit : String → Type 0
StartsWithInit s = starts_with s "Init:" ≡ true

ended-StartsWithInit : (t : Terminated) → StartsWithInit (ended "Init:" t)
unfolding ended
ended-StartsWithInit t = elim (Bool-cases (str_eq t.reason "")) [
  | inl e ↦ rw e (elim (Bool-cases (not (t.signal == 0))) [
    | inl k ↦ rw k (starts_with-append "Init:" _)
    | inr k ↦ rw k (starts_with-append "Init:" _)
  ])
  | inr e ↦ rw e (starts_with-append "Init:" _)
]

init_waiting-StartsWithInit :
    (total i : ℕ) (reason : Option String) → StartsWithInit (init_waiting total i reason)
unfolding init_waiting
init_waiting-StartsWithInit total i none = starts_with-append "Init:" _
init_waiting-StartsWithInit total i (some reason) =
    elim (Bool-cases (not (str_eq reason "") && not (str_eq reason "PodInitializing"))) [
      | inl e ↦ rw e (starts_with-append "Init:" _)
      | inr e ↦ rw e (starts_with-append "Init:" _)
    ]

-- The own reason of the first container that has one.
abbrev pub first_reason : List ContainerStatus → Option String
first_reason [] = none
first_reason (c ∷ cs) = elim (container_reason c.waiting c.terminated) [
  | none ↦ first_reason cs
  | some own ↦ some own
]

-- A container that runs, is ready, and has no reason of its own.
abbrev pub is_serving : ContainerStatus → Bool
is_serving c = not (is_some (container_reason c.waiting c.terminated)) && (c.ready && c.running)

containers_loop-first_reason :
    (reason : String) (cs : List ContainerStatus)
    → ((containers_loop reason cs).0 ≡ elim (first_reason cs) [ none ↦ reason | some own ↦ own ])
      × ((containers_loop reason cs).1 ≡ any is_serving cs)
unfolding containers_loop any
containers_loop-first_reason reason [] = (refl, refl)
containers_loop-first_reason reason (c ∷ cs) =
    let ih = containers_loop-first_reason reason cs in ground (arith, ih.0, ih.1)

init_reason-StartsWithInit :
    (total i : ℕ) (c : ContainerStatus) (t : Option Terminated)
    → c.terminated ≡ t
    → ¬ (IsDone c)
    → (r : String) × (init_reason total i c t ≡ some r) × StartsWithInit r
unfolding init_reason
init_reason-StartsWithInit total i c none e h =
    (_, refl, init_waiting-StartsWithInit total i c.waiting)
init_reason-StartsWithInit total i c (some t) e h = elim (Bool-cases (t.exit_code == 0)) [
  | inl k ↦ absurd (h (t, e, ground arith))
  | inr k ↦ (_, rw k, ended-StartsWithInit t)
]

init_reason-IsDone :
    (total i : ℕ) (c : ContainerStatus) → IsDone c → init_reason total i c c.terminated ≡ none
unfolding init_reason
init_reason-IsDone total i c (t, e, z) = rw (e, init_reason) (ground arith)

init_loop-StartsWithInit :
    (total i : ℕ) (done : List ContainerStatus) (c : ContainerStatus) (rest : List ContainerStatus)
    → All IsDone done
    → ¬ (IsDone c)
    → (r : String) × (init_loop total i (done ++ c ∷ rest) ≡ some r) × StartsWithInit r
unfolding init_loop
init_loop-StartsWithInit total i [] c rest h k =
    let (r, q, s) = init_reason-StartsWithInit total i c c.terminated refl k in
    (r, rw (q, init_loop), s)
init_loop-StartsWithInit total i (d ∷ done) c rest h k =
    let (r, q, s) = init_loop-StartsWithInit total (i + 1) done c rest h.1 k in
    (r, rw (init_reason-IsDone total i d h.0, init_loop) q, s)

init_loop-IsDone :
    (total i : ℕ) (cs : List ContainerStatus) → All IsDone cs → init_loop total i cs ≡ none
unfolding init_loop
init_loop-IsDone total i [] h = refl
init_loop-IsDone total i (c ∷ cs) h =
    rw (init_reason-IsDone total i c h.0, init_loop) (init_loop-IsDone total (i + 1) cs h.1)

module _ (pod : Pod) where
  -- While an init container has not ended with exit code 0, a pod that is not being deleted is
  -- shown with a status that starts with "Init:".
  pub get_status-StartsWithInit :
      (done : List ContainerStatus) (c : ContainerStatus) (rest : List ContainerStatus)
      → pod.meta.deleted ≡ none
      → pod.status.init_statuses ≡ done ++ c ∷ rest
      → All IsDone done
      → ¬ (IsDone c)
      → StartsWithInit (get_status_column_from_pod_status pod)
  unfolding get_status_column_from_pod_status
  get_status-StartsWithInit done c rest alive q h k =
      let (r, e, s) =
        init_loop-StartsWithInit (length pod.spec.init_containers) 0 done c rest h k in
      rw (alive, q, e) s

  -- Once every init container has ended with exit code 0, a pod that is not being deleted is shown
  -- with the reason of the first container that has one, and with the reason or the phase of the
  -- pod if none has; where that is "Completed" although a container is running and ready, the pod
  -- is shown as "Running" or "NotReady".
  pub get_status-first_reason :
      pod.meta.deleted ≡ none
      → All IsDone pod.status.init_statuses
      → (reason : String)
      → reason ≡ elim (first_reason pod.status.statuses) [
        | none ↦ if not (str_eq pod.status.reason "") then pod.status.reason else pod.status.phase
        | some own ↦ own
      ]
      → (((reason ≢ "Completed") ⊎ (any is_serving pod.status.statuses ≡ false))
          → get_status_column_from_pod_status pod ≡ reason)
        × (reason ≡ "Completed"
            → any is_serving pod.status.statuses ≡ true
            → get_status_column_from_pod_status pod
              ≡ (if has_pod_ready_condition pod.status.conditions then "Running" else "NotReady"))
  unfolding get_status_column_from_pod_status containers_status
  get_status-first_reason alive h reason q =
      let own = if not (str_eq pod.status.reason "") then pod.status.reason else pod.status.phase in
      let (last, serving) = containers_loop-first_reason own pod.status.statuses in
      let shown = last ∙ sym q in
      rw
        (
          alive,
          init_loop-IsDone (length pod.spec.init_containers) 0 pod.status.init_statuses h,
          shown,
          serving,
        )
        (
          λ k. ground (arith, eq_iff reason "Completed"),
          λ e k. ground (arith, eq_iff reason "Completed"),
        )
