-- ===== src/Trainer/Mpi/Chief.antt =====
-- The pods of an MPI job, and its launcher.
use runai_cli.Prelude.{
  ◌≤◌, ◌<◌, String, true, false, not, ◌&&◌, List, [], ◌∷◌, ltb, str_eq, Elem, ◌≡◌, refl, sym, ap,
  ◌⊎◌, inl, inr, Bool-cases, arith,
}
use mathlib.Core.Path.{subst}
use runai_cli.Kube.{Pod, pod_pending}
use runai_cli.Trainer.Mpi.{
  zero_pod, Turn, passes, adds, leads, turn_of, next_chief, take_pod, is_chief_pod,
  is_pod_of_mpi_job, pods_loop, get_pods_of_mpi_job,
}

module _ (name namespace : String) where
  abbrev pub IsOfJob : Pod → Type 0
  IsOfJob pod = is_pod_of_mpi_job name namespace pod ≡ true

  -- A launcher of the job.
  abbrev pub IsLauncher : Pod → Type 0
  IsLauncher pod = IsOfJob pod × (is_chief_pod pod ≡ true)

  abbrev pub IsPending : Pod → Type 0
  IsPending pod = str_eq pod.status.phase pod_pending ≡ true

  -- What a turn says of the pod and of the launcher that has been found so far.
  abbrev TurnSays : Pod → Pod → Turn → Type 0
  TurnSays chief item passes =
      (is_pod_of_mpi_job name namespace item ≡ false) ⊎ (IsLauncher item × IsPending item)
  TurnSays chief item adds =
      IsOfJob item × ((is_chief_pod item ≡ false) ⊎ (item.meta.created ≤ chief.meta.created))
  TurnSays chief item leads = IsLauncher item × (chief.meta.created < item.meta.created)

  turn_of-TurnSays : (chief item : Pod) → TurnSays chief item (turn_of name namespace chief item)
  unfolding turn_of
  turn_of-TurnSays chief item = elim (Bool-cases (is_pod_of_mpi_job name namespace item)) [
    | inr e ↦ rw e (inl e)
    | inl e ↦ elim (Bool-cases (is_chief_pod item)) [
      | inr f ↦ rw (e, f) (e, inl f)
      | inl f ↦ elim (Bool-cases (ltb chief.meta.created item.meta.created)) [
        | inr g ↦ rw (e, f, g) (e, inr (ground arith))
        | inl g ↦
            elim (Bool-cases
              (not (str_eq chief.meta.name "") && str_eq item.status.phase pod_pending)) [
                | inl h ↦ rw (e, f, g, h) (inr ((e, f), ground arith))
                | inr h ↦ rw (e, f, g, h) ((e, f), ground arith)
              ]
      ]
    ]
  ]

  -- What the loop has chosen from the pods `all`, where the launcher before them was `before`.
  pub record IsChosen (before : Pod) (all pods : List Pod) (chief : Pod) : Type 0 where
    pub of_job : (p : Pod) → Elem p pods → Elem p all × IsOfJob p
    pub none_lost : (p : Pod) → Elem p all → IsOfJob p → Elem p pods ⊎ (IsLauncher p × IsPending p)
    pub chief_there : (chief ≡ before) ⊎ (Elem chief pods × IsLauncher chief)
    pub not_before : before.meta.created ≤ chief.meta.created
    pub last :
        (p : Pod) → Elem p all → IsLauncher p → (p.meta.created ≤ chief.meta.created) ⊎ IsPending p

  later_chief :
      (before chief item : Pod)
      → (is_chief_pod item ≡ false) ⊎ (item.meta.created ≤ before.meta.created)
      → before.meta.created ≤ chief.meta.created
      → IsLauncher item
      → item.meta.created ≤ chief.meta.created
  later_chief before chief item (inl e) low launcher = absurd (cc (e, launcher.1))
  later_chief before chief item (inr e) low launcher = omega arith

  turn-IsChosen :
      (t : Turn) {before item : Pod} {all pods : List Pod} {chief : Pod}
      → TurnSays before item t
      → IsChosen (next_chief t before item) all pods chief
      → IsChosen before (item ∷ all) (take_pod t item pods) chief
  turn-IsChosen passes {chief = chief} says rest = record {
    of_job = λ p h. (inr (rest.of_job p h).0, (rest.of_job p h).1);
    none_lost = λ p h own. elim h [
      | inl e ↦ elim says [
        | inl no_pod ↦ absurd (cc (own, ap (is_pod_of_mpi_job name namespace) e, no_pod))
        | inr both ↦ inr (subst (λ q. IsLauncher q × IsPending q) (sym e) both)
      ]
      | inr k ↦ rest.none_lost p k own
    ];
    chief_there = rest.chief_there;
    not_before = rest.not_before;
    last = λ p h launcher. elim h [
      | inl e ↦ elim says [
        | inl no_pod ↦ absurd (cc (launcher.0, ap (is_pod_of_mpi_job name namespace) e, no_pod))
        | inr both ↦ inr (subst IsPending (sym e) both.1)
      ]
      | inr k ↦ rest.last p k launcher
    ];
  }
  turn-IsChosen adds {before = before} {item = item} {chief = chief} says rest = record {
    of_job = λ p h. elim h [
      | inl e ↦ (inl e, subst IsOfJob (sym e) says.0)
      | inr k ↦ (inr (rest.of_job p k).0, (rest.of_job p k).1)
    ];
    none_lost = λ p h own. elim h [
      | inl e ↦ inl (inl e)
      | inr k ↦ elim (rest.none_lost p k own) [ inl q ↦ inl (inr q) | inr q ↦ inr q ]
    ];
    chief_there = elim rest.chief_there [ inl e ↦ inl e | inr k ↦ inr (inr k.0, k.1) ];
    not_before = rest.not_before;
    last = λ p h launcher. elim h [
      | inl e ↦ inl (
          subst (λ q. q.meta.created ≤ chief.meta.created) (sym e)
            (later_chief before chief item says.1 rest.not_before (subst IsLauncher e launcher)))
      | inr k ↦ rest.last p k launcher
    ];
  }
  turn-IsChosen leads {before = before} {item = item} {chief = chief} says rest = record {
    of_job = λ p h. elim h [
      | inl e ↦ (inl e, subst IsOfJob (sym e) says.0.0)
      | inr k ↦ (inr (rest.of_job p k).0, (rest.of_job p k).1)
    ];
    none_lost = λ p h own. elim h [
      | inl e ↦ inl (inl e)
      | inr k ↦ elim (rest.none_lost p k own) [ inl q ↦ inl (inr q) | inr q ↦ inr q ]
    ];
    chief_there = elim rest.chief_there [
      | inl e ↦ inr (inl e, subst IsLauncher (sym e) says.0)
      | inr k ↦ inr (inr k.0, k.1)
    ];
    not_before = let low = rest.not_before in let later = says.1 in omega arith;
    last = λ p h launcher. elim h [
      | inl e ↦ inl (subst (λ q. q.meta.created ≤ chief.meta.created) (sym e) rest.not_before)
      | inr k ↦ rest.last p k launcher
    ];
  }

  pods_loop-IsChosen :
      (before : Pod) (all : List Pod)
      → IsChosen before all
          (pods_loop name namespace before all).0
          (pods_loop name namespace before all).1
  unfolding pods_loop
  pods_loop-IsChosen before [] = record {
    of_job = λ p h. absurd h;
    none_lost = λ p h own. absurd h;
    chief_there = inl refl;
    not_before = omega arith;
    last = λ p h launcher. absurd h;
  }
  pods_loop-IsChosen before (item ∷ all) =
      let turn = turn_of name namespace before item in
      turn-IsChosen turn (turn_of-TurnSays before item)
        (pods_loop-IsChosen (next_chief turn before item) all)

  -- The pods of an MPI job are pods with its label in its namespace, and of those only launchers that
  -- are pending can be missing. The chief pod is the zero pod or one of these pods that is a launcher,
  -- and no launcher of the job was created after it, but for pending ones.
  pub get_pods_of_mpi_job-IsChosen :
      (all : List Pod)
      → IsChosen zero_pod all
          (get_pods_of_mpi_job name namespace all).0
          (get_pods_of_mpi_job name namespace all).1
  unfolding get_pods_of_mpi_job
  get_pods_of_mpi_job-IsChosen all = pods_loop-IsChosen zero_pod all
