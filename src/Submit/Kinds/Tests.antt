-- ===== src/Submit/Kinds/Tests.antt =====
-- Jobs of the two commands.
use runai_cli.Prelude.{◌^◌, ◌-◌, pos, negsuc, true, false, none, some, [], ◌∷◌, ◌≡◌, refl}
use runai_cli.Submit.Kinds.{
  RunaiArgs, no_image, no_completions, elastic_and_parallel, inference_and_interactive, ok, err,
  use_jupyter_default_values, set_jupyter, set_completions, require_image, verify_hpo_flags,
  handle_runai_job_crd, run_runai_job, times_int, check, prepare,
}
use runai_cli.Submit.Kinds.Accepted.{IsAccepted, run_runai_job-IsAccepted}

abbrev plain : RunaiArgs
plain = record {
  name = "nb";
  project = "team";
  image = "";
  interactive = none;
  backoff_limit = none;
  ports = [];
  service_type = "ingress";
  spec_command = [];
  spec_args = [];
  elastic = none;
  completions = none;
  parallelism = none;
  is_jupyter = none;
  inference = none;
  is_old_job = none;
  is_runai_job = none;
  ttl_after_finished = some (pos 60);
  ttl = none;
}

abbrev notebook : RunaiArgs
notebook = record plain { is_jupyter = some true }

abbrev started : RunaiArgs
started = record notebook {
  image = "jupyter/scipy-notebook";
  interactive = some true;
  ports = "8888" ∷ [];
  spec_command = "start-notebook.sh" ∷ [];
  spec_args = "--NotebookApp.base_url=/team-nb" ∷ [];
  completions = some (pos 1);
  is_runai_job = some true;
  ttl = some (pos 60);
}

commands : Unit {0}
unfolding run_runai_job use_jupyter_default_values set_jupyter set_completions require_image
    verify_hpo_flags handle_runai_job_crd prepare check times_int
commands = tt

runs :
    (run_runai_job true notebook ≡ ok started)
    × (run_runai_job true plain ≡ err no_image)
    × (run_runai_job true (record notebook { inference = some true })
        ≡ err inference_and_interactive)
    × (run_runai_job true (record plain { image = "i"; parallelism = some (pos 2) })
        ≡ err no_completions)
    × (run_runai_job true (record plain {
      image = "i";
      parallelism = some (pos 2);
      completions = some (pos 4);
      elastic = some false;
    })
        ≡ err elastic_and_parallel)
unfolding commands
runs = (refl, refl, refl, refl, refl)

products :
    (times_int (pos 3) 7 ≡ pos 21)
    × (times_int (negsuc 1) 7 ≡ negsuc 13)
    × (times_int (pos 2) (2 ^ 63 - 1) ≡ negsuc 1)
unfolding commands
products = (refl, refl, refl)

run_runai_job-IsAccepted_example : IsAccepted true notebook started
unfolding commands
run_runai_job-IsAccepted_example = run_runai_job-IsAccepted true notebook refl
