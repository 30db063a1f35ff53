-- ===== src/Trainer/Status/Training.antt =====
-- The status of a job, from its annotations, its workload and its chief pod.
use runai_cli.Prelude.{
  String, true, Option, none, some, Map, lookup, str_eq, eq_iff, ◌≡◌, ◌≢◌, ap, Bool-cases, inl, inr,
}
use runai_cli.Kube.{Pod}
use runai_cli.Trainer.Status.{
  is_finished_status, get_training_status, choose_status, is_finished, is_true_text, status_or,
}

finished-ne-nil : (status : String) → is_finished_status status ≡ true → status ≢ ""
unfolding is_finished_status
finished-ne-nil status h e = cc (rw e at h)

is_true_text_sound : (value : Option String) → is_true_text value ≡ true → value ≡ some "true"
is_true_text_sound none h = cc
is_true_text_sound (some value) h = ap some ((eq_iff value "true").0 h)

is_finished_sound :
    (calculated : Option String)
    → is_finished calculated ≡ true
    → is_finished_status (status_or calculated "") ≡ true
is_finished_sound none h = cc
is_finished_sound (some status) h = h

choose_status-finished :
    (calculated unschedulable : Option String) (workload_status pod : String)
    → is_finished_status workload_status ≡ true
    → unschedulable ≢ some "true"
    → is_finished_status (choose_status calculated unschedulable workload_status pod) ≡ true
unfolding choose_status
choose_status-finished calculated unschedulable workload_status pod h k =
    elim (Bool-cases (is_finished calculated)) [
      | inl e ↦ rw e (is_finished_sound calculated e)
      | inr e ↦ elim (Bool-cases (is_true_text unschedulable)) [
        | inl t ↦ absurd (k (is_true_text_sound unschedulable t))
        | inr t ↦ elim (Bool-cases (str_eq workload_status "")) [
          | inl z ↦ absurd (finished-ne-nil workload_status h ((eq_iff _ _).0 z))
          | inr z ↦ rw (e, t, z) h
        ]
      ]
    ]

-- A job whose workload has finished is shown as finished, whatever its annotations and its pods
-- say, unless it is marked as unschedulable.
pub get_training_status-finished :
    (annotations : Map String) (chief : Option Pod) (workload_status : String)
    → is_finished_status workload_status ≡ true
    → lookup annotations "unschedulable" ≢ some "true"
    → is_finished_status (get_training_status annotations chief workload_status) ≡ true
unfolding get_training_status
get_training_status-finished annotations chief workload_status h k =
    choose_status-finished _ (lookup annotations "unschedulable") workload_status _ h k
