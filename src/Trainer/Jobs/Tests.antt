-- ===== src/Trainer/Jobs/Tests.antt =====
-- Jobs of a concrete namespace.
use runai_cli.Prelude.{
  String, false, none, some, List, [], ◌∷◌, lookup, assign, ◌≡◌, refl, any, inl, has_key, get,
}
use runai_cli.Kube.{Meta, PodTemplate}
use runai_cli.Trainer.Status.{get_training_status, choose_status}
use runai_cli.Trainer.Jobs.{
  Job, PodTemplateJob, has_failed, pod_template_job_from_job, pod_template_job_from_runai_job,
  pod_template_job_from_deployment, is_runai_pod_object, update_entry, get_job_type, add_job,
  add_jobs,
}
use runai_cli.Trainer.Jobs.Found.{IsAlive, add_jobs-IsAlive}

-- What a test unfolds to list jobs.
listing : Unit {0}
unfolding add_jobs add_job update_entry get_job_type is_runai_pod_object pod_template_job_from_job
    pod_template_job_from_runai_job pod_template_job_from_deployment has_failed lookup assign any
    has_key get get_training_status choose_status
listing = tt

abbrev meta_of : String → Meta
meta_of uid = record {
  name = uid;
  namespace = "runai-team";
  uid = uid;
  labels = [];
  annotations = [];
  created = 7;
  deleted = none;
  owners = [];
}

abbrev template_of : String → PodTemplate
template_of uid = record {
  meta = meta_of uid;
  spec = record {
    scheduler_name = "runai-scheduler";
    node_name = "";
    host_network = false;
    containers = [];
    init_containers = [];
  };
}

abbrev failed_job : Job
failed_job = record {
  meta = meta_of "j";
  template = template_of "j";
  selector = none;
  parallelism = none;
  completions = some 3;
  conditions = record { type = "Failed"; status = "True"; changed = 9 } ∷ [];
  completed = false;
  active = 0;
  failed = 1;
  succeeded = 0;
}

conversions :
    ((pod_template_job_from_job failed_job).extra_status ≡ "Pending")
    × ((pod_template_job_from_runai_job failed_job).extra_status ≡ "Failed")
    × ((pod_template_job_from_job failed_job).completions ≡ 3)
    × ((pod_template_job_from_runai_job failed_job).completions ≡ 1)
    × (get_job_type (pod_template_job_from_job failed_job) ≡ "Train")
unfolding listing
conversions = (refl, refl, refl, refl, refl)

abbrev one_job : List PodTemplateJob
one_job = pod_template_job_from_job failed_job ∷ []

kept_pods : IsAlive [] (lookup (add_jobs [] one_job) "j")
unfolding listing
kept_pods = (add_jobs-IsAlive [] one_job "j").0 (inl (refl, refl))

failed_shown :
    get_training_status [] none (pod_template_job_from_job failed_job).extra_status ≡ "Pending"
unfolding listing
failed_shown = refl
