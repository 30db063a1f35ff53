-- ===== src/Submit/Run/Tests.antt =====
-- Submissions: one that is accepted, and some that are not.
use runai_cli.Prelude.{
  ℕ, ◌*◌, ◌/◌, ℤ, pos, String, true, false, none, some, List, [], ◌∷◌, ◌==◌, str_eq, decimal,
  if◌then◌else◌, ◌≡◌, refl,
}
use runai_cli.Submit.Volume.{handle_volumes_and_pvc}
use runai_cli.Submit.Resources.{Arithmetic, handle_requested_gpus, handle_image_pull_policy}
use runai_cli.Submit.GitSync.{handle_git_sync}
use runai_cli.Submit.Line.{get_job_name_with_suffix_generation_flag}
use runai_cli.Submit.Run.{
  Answers, bad_label, tty_without_stdin, no_groups, Outcome, done, stopped, RunArgs, set_ids,
  assign_user, apply_run_as_authenticated_user, run_as_os_user, run_as, set_common_run,
}
use runai_cli.Submit.Run.Checks.{judge}
use runai_cli.Submit.Run.Refined.{checks, completed, set_common_run-judge}

abbrev whole : ℤ → ℕ
whole (pos n) = n
whole n = 0

-- Numbers of GPUs in tenths.
abbrev in_tenths : Arithmetic
in_tenths = record {
  Float = ℕ;
  truncate = λ x. pos (x / 10);
  of_int = λ n. whole n * 10;
  same = λ x y. x == y;
  general = decimal;
  parse_quantity = λ text. if str_eq text "1G" then some (pos 1000000000) else none;
}

abbrev answers : Answers
answers = record {
  authenticated_user = some "dana";
  authenticated_ids = some ("1000", "");
  os_user = some (record { username = "local"; uid = "501"; gid = "20" });
  groups = none;
  namespace = some ("runai-team", "team");
  cluster_config = some (true, true);
  job_index = some "8";
  is_dns1035_label = λ name. str_eq name "train";
}

abbrev given : RunArgs ℕ
given = record {
  name_parameter = "";
  name_prefix = "";
  name = "";
  generate_suffix = false;
  user = "";
  namespace = "";
  project = "";
  environment_variable = "A=1" ∷ [];
  run_as_user = "";
  run_as_group = "7";
  supplemental_groups = [];
  run_as_current_user = none;
  prevent_privilege_escalation = none;
  volume = record { persistent_volumes = []; volumes = [] };
  labels = [];
  attach = some true;
  std_in = none;
  tty = none;
  gpu = record { gpu = some 5; gpu_int = none; gpu_fraction = ""; gpu_memory = "" };
  image = record { image_pull_policy = "Always"; local_image = none };
  memory = "1G";
  git_sync = none;
  interactive = some true;
  backoff_limit = none;
}

abbrev run : List String → RunArgs ℕ → Outcome (RunArgs ℕ)
run = set_common_run in_tenths answers none

common : Unit {0}
unfolding set_common_run assign_user run_as set_ids apply_run_as_authenticated_user run_as_os_user
    handle_volumes_and_pvc handle_requested_gpus handle_image_pull_policy handle_git_sync
    get_job_name_with_suffix_generation_flag
common = tt

abbrev args_or_given : Outcome (RunArgs ℕ) → RunArgs ℕ
args_or_given (done args) = args
args_or_given (stopped e) = given

abbrev sent : RunArgs ℕ
sent = args_or_given (run ("train" ∷ []) given)

acceptance :
    (sent.name ≡ "train")
    × (sent.user ≡ "dana")
    × (sent.environment_variable ≡ "A=1" ∷ "LDAP_UID=1000" ∷ [])
    × (sent.run_as_user ≡ "1000")
    × (sent.run_as_group ≡ "7")
    × (sent.labels ≡ ("runai/job-index", "8") ∷ [])
    × (sent.tty ≡ some true)
    × (sent.backoff_limit ≡ some (pos 0))
unfolding common
acceptance = (refl, refl, refl, refl, refl, refl, refl, refl)

refusals :
    (run ("Train" ∷ []) given ≡ stopped bad_label)
    × (run ("train" ∷ []) (record given { std_in = some false }) ≡ stopped tty_without_stdin)
    × (set_common_run in_tenths
          (record answers { authenticated_ids = some ("", "") })
          none
          ("train" ∷ [])
          given
        ≡ stopped no_groups)
unfolding common
refusals = (refl, refl, refl)

set_common_run-judge_example :
    run ("train" ∷ []) given
    ≡ judge
        (checks in_tenths answers none ("train" ∷ []) given)
        (completed in_tenths answers none ("train" ∷ []) given)
set_common_run-judge_example = set_common_run-judge in_tenths answers none ("train" ∷ []) given
