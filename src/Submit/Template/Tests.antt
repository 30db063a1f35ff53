-- ===== src/Submit/Template/Tests.antt =====
-- Templates applied to concrete arguments.
use runai_cli.Prelude.{
  ℕ, String, true, Option, none, some, [], ◌∷◌, ◌++◌, ◌≡◌, refl, find_first, any, split, str_eq,
  if◌then◌else◌,
}
use runai_cli.Templates.{
  TemplateField, SubmitTemplate, no_template, no_git_sync, merge_environment_variables,
  append_variables, cli_keys, variable_key,
}
use runai_cli.Submit.GitSync.{new_git_sync, handle_git_sync}
use runai_cli.Submit.Template.{
  ok, mandatory, SubmitArgs, parse_bool, apply_template_field_for_string, apply_template_field,
  apply_template_field_for_bool, merge_string_flags, merge_extra_args, merge_git_sync,
  merge_git_sync_fields, merge_command_and_args, merge_template_to_common_submit_args,
}
use runai_cli.Submit.Template.Flags.{judge, flag, chosen}
use runai_cli.Submit.Template.Precedence.{
  common_flags, common_merged, merge_template_to_common_submit_args-judge,
}
use runai_cli.Submit.Template.Jobs.{
  SubmitRunaiJobArgs, SubmitMpiJobArgs, merge_template_to_runai_submit_args,
  merge_template_to_mpi_submit_args, runai_flags, runai_merged,
  merge_template_to_runai_submit_args-judge, merge_template_to_mpi_submit_args-judge,
}
use runai_cli.Submit.Template.Sync.{merge_git_sync-off}

-- What a test unfolds to apply a template.
applying : Unit {0}
unfolding merge_template_to_common_submit_args apply_template_field_for_string apply_template_field
    apply_template_field_for_bool parse_bool merge_string_flags merge_extra_args merge_git_sync
    merge_git_sync_fields merge_command_and_args merge_environment_variables append_variables
    cli_keys variable_key any find_first judge split
applying = tt

-- A parser that reads one text only.
abbrev parse_one : String → Option ℕ
parse_one text = if str_eq text "1" then some 1 else none

abbrev no_args : SubmitArgs ℕ
no_args = record {
  name_parameter = "";
  environment_variable = [];
  volumes = [];
  always_pull_image = none;
  attach = none;
  cpu = "";
  cpu_limit = "";
  create_home_dir = none;
  gpu = none;
  host_ipc = none;
  host_network = none;
  image = "";
  interactive = none;
  large_shm = none;
  local_image = none;
  memory = "";
  memory_limit = "";
  ports = [];
  persistent_volumes = [];
  working_dir = "";
  name_prefix = "";
  prevent_privilege_escalation = none;
  run_as_current_user = none;
  command = none;
  git_sync = none;
  spec_command = [];
  spec_args = [];
}

abbrev runai_args : SubmitRunaiJobArgs ℕ ℕ ℕ
runai_args = record {
  common = no_args;
  backoff_limit = none;
  elastic = none;
  parallelism = none;
  is_preemptible = none;
  service_type = "";
  is_jupyter = none;
  ttl_after_finished = none;
}

abbrev mpi_args : SubmitMpiJobArgs ℕ ℕ
mpi_args = record { common = no_args; processes = none }

abbrev field_of : String → Option TemplateField
field_of value = some (record { required = some true; value = value })

abbrev some_template : SubmitTemplate
some_template = record no_template {
  image = field_of "ubuntu";
  cpu = field_of "";
  gpu = field_of "1";
}

runs :
    (merge_template_to_common_submit_args parse_one no_args some_template [] ≡ mandatory "cpu")
    × (merge_template_to_common_submit_args parse_one
          (record no_args { cpu = "2" })
          some_template
          ("-x" ∷ [])
        ≡ ok (record no_args { cpu = "2"; image = "ubuntu"; gpu = some 1; spec_args = "-x" ∷ [] }))
unfolding applying
runs = (refl, refl)

merge_template_to_common_submit_args-judge_example :
    merge_template_to_common_submit_args parse_one no_args some_template []
    ≡ judge
        (common_flags parse_one no_args some_template)
        (common_merged parse_one no_args some_template [])
merge_template_to_common_submit_args-judge_example =
    merge_template_to_common_submit_args-judge parse_one no_args some_template []

merge_template_to_runai_submit_args-judge_example :
    merge_template_to_runai_submit_args parse_one parse_one parse_one runai_args some_template []
    ≡ judge
        (common_flags parse_one no_args some_template
          ++ runai_flags parse_one parse_one parse_one runai_args some_template)
        (runai_merged parse_one parse_one parse_one runai_args some_template [])
merge_template_to_runai_submit_args-judge_example =
    merge_template_to_runai_submit_args-judge parse_one parse_one parse_one runai_args some_template
      []

mpi_merged :
    merge_template_to_mpi_submit_args parse_one parse_one mpi_args some_template []
    ≡ judge
        (common_flags parse_one no_args some_template
          ++ flag parse_one "processes" none some_template.processes ∷ [])
        (record {
          common = common_merged parse_one no_args some_template [];
          processes = chosen parse_one none some_template.processes;
        })
mpi_merged = merge_template_to_mpi_submit_args-judge parse_one parse_one mpi_args some_template []

merges_off :
    handle_git_sync (record new_git_sync { branch = "main" })
    ≡ (record new_git_sync { branch = "main" }, none)
unfolding applying
merges_off =
    merge_git_sync-off (record no_git_sync { branch = field_of "main" })
      {gs = record new_git_sync { branch = "main" }} refl
