-- ===== src/Templates.antt =====
-- pkg/templates/submit_template.go and pkg/templates/submit_template_merger.go: the templates of a
-- submission, and how one is laid over another. A pointer that may be nil is an option.
pub mod Environment
pub mod Merging
mod Tests
use runai_cli.Prelude.{
  String, Bool, true, false, not, ◌&&◌, Option, none, some, List, [], ◌∷◌, ◌++◌, select, any, split,
  str_eq, if◌then◌else◌,
}

pub record TemplateField : Type 0 where
  pub required : Option Bool
  pub value : String

pub record GitSyncTemplate : Type 0 where
  pub repository : Option TemplateField
  pub branch : Option TemplateField
  pub revision : Option TemplateField
  pub username : Option TemplateField
  pub password : Option TemplateField
  pub image : Option TemplateField
  pub directory : Option TemplateField

pub record SubmitTemplate : Type 0 where
  pub name : Option TemplateField
  pub env_variables : List String
  pub volumes : List String
  pub always_pull_image : Option TemplateField
  pub attach : Option TemplateField
  pub cpu : Option TemplateField
  pub cpu_limit : Option TemplateField
  pub create_home_dir : Option TemplateField
  pub gpu : Option TemplateField
  pub host_ipc : Option TemplateField
  pub host_network : Option TemplateField
  pub image : Option TemplateField
  pub interactive : Option TemplateField
  pub large_shm : Option TemplateField
  pub local_image : Option TemplateField
  pub memory : Option TemplateField
  pub memory_limit : Option TemplateField
  pub node_type : Option TemplateField
  pub ports : List String
  pub persistent_volumes : List String
  pub working_dir : Option TemplateField
  pub job_name_prefix : Option TemplateField
  pub prevent_privilege_escalation : Option TemplateField
  pub run_as_current_user : Option TemplateField
  pub extra_args : List String
  pub is_command : Option TemplateField
  pub git_sync : Option GitSyncTemplate
  pub backoff_limit : Option TemplateField
  pub elastic : Option TemplateField
  pub parallelism : Option TemplateField
  pub is_preemptible : Option TemplateField
  pub service_type : Option TemplateField
  pub is_jupyter : Option TemplateField
  pub ttl_after_finished : Option TemplateField
  pub processes : Option TemplateField

-- The zero values of the two templates.
abbrev pub no_git_sync : GitSyncTemplate
no_git_sync = record {
  repository = none;
  branch = none;
  revision = none;
  username = none;
  password = none;
  image = none;
  directory = none;
}

abbrev pub no_template : SubmitTemplate
no_template = record {
  name = none;
  env_variables = [];
  volumes = [];
  always_pull_image = none;
  attach = none;
  cpu = none;
  cpu_limit = none;
  create_home_dir = none;
  gpu = none;
  host_ipc = none;
  host_network = none;
  image = none;
  interactive = none;
  large_shm = none;
  local_image = none;
  memory = none;
  memory_limit = none;
  node_type = none;
  ports = [];
  persistent_volumes = [];
  working_dir = none;
  job_name_prefix = none;
  prevent_privilege_escalation = none;
  run_as_current_user = none;
  extra_args = [];
  is_command = none;
  git_sync = none;
  backoff_limit = none;
  elastic = none;
  parallelism = none;
  is_preemptible = none;
  service_type = none;
  is_jupyter = none;
  ttl_after_finished = none;
  processes = none;
}

-- `if patch != nil { base = patch }`.
abbrev pub override {ℓ} : {A : Type ℓ} → Option A → Option A → Option A
override base none = base
override base (some patch) = some patch

unfoldable pub merge_template_fields :
    Option TemplateField → Option TemplateField → Option TemplateField
merge_template_fields base none = base
merge_template_fields none (some patch) = some patch
merge_template_fields (some base) (some patch) =
    some (record { required = override base.required patch.required; value = patch.value })

unfoldable pub merge_git_sync_template :
    Option GitSyncTemplate → Option GitSyncTemplate → Option GitSyncTemplate
merge_git_sync_template base none = base
merge_git_sync_template none (some patch) = none
merge_git_sync_template (some base) (some patch) = some (record {
  repository = override base.repository patch.repository;
  branch = override base.branch patch.branch;
  revision = override base.revision patch.revision;
  username = override base.username patch.username;
  password = override base.password patch.password;
  image = override base.image patch.image;
  directory = override base.directory patch.directory;
})

-- The key of a variable that splits into two parts at "=".
unfoldable pub env_key : List String → Option String
env_key (key ∷ (value ∷ [])) = some key
env_key parts = none

unfoldable pub variable_key : String → Option String
unfolding env_key split
variable_key variable = env_key (split b'=' variable)

-- The keys of the first loop: the map from keys to true.
unfoldable pub cli_keys : List String → List String
unfolding variable_key
cli_keys [] = []
cli_keys (variable ∷ variables) = elim (variable_key variable) [
  | none ↦ cli_keys variables
  | some key ↦ key ∷ cli_keys variables
]

abbrev pub is_key : List String → String → Bool
is_key keys key = any (λ k. str_eq k key) keys

abbrev pub is_new_key : List String → Option String → Bool
is_new_key keys none = false
is_new_key keys (some key) = not (is_key keys key)

-- The second loop: the template's variables go behind the given ones, and the map stays as it is.
unfoldable pub append_variables : List String → List String → List String → List String
unfolding variable_key any
append_variables keys env [] = env
append_variables keys env (variable ∷ variables) =
    append_variables keys
      (if is_new_key keys (variable_key variable) then env ++ variable ∷ [] else env) variables

unfoldable pub merge_environment_variables : List String → List String → List String
unfolding cli_keys append_variables
merge_environment_variables base patch = append_variables (cli_keys base) base patch

unfoldable pub merge_submit_templates : SubmitTemplate → SubmitTemplate → SubmitTemplate
unfolding merge_template_fields merge_git_sync_template merge_environment_variables
merge_submit_templates base patch = record {
  name = merge_template_fields base.name patch.name;
  env_variables = merge_environment_variables patch.env_variables base.env_variables;
  volumes = base.volumes ++ patch.volumes;
  always_pull_image = merge_template_fields base.always_pull_image patch.always_pull_image;
  attach = merge_template_fields base.attach patch.attach;
  cpu = merge_template_fields base.cpu patch.cpu;
  cpu_limit = merge_template_fields base.cpu_limit patch.cpu_limit;
  create_home_dir = merge_template_fields base.create_home_dir patch.create_home_dir;
  gpu = merge_template_fields base.gpu patch.gpu;
  host_ipc = merge_template_fields base.host_ipc patch.host_ipc;
  host_network = merge_template_fields base.host_network patch.host_network;
  image = merge_template_fields base.image patch.image;
  interactive = merge_template_fields base.interactive patch.interactive;
  large_shm = merge_template_fields base.large_shm patch.large_shm;
  local_image = merge_template_fields base.local_image patch.local_image;
  memory = merge_template_fields base.memory patch.memory;
  memory_limit = merge_template_fields base.memory_limit patch.memory_limit;
  node_type = merge_template_fields base.node_type patch.node_type;
  ports = base.ports ++ patch.ports;
  persistent_volumes = base.persistent_volumes ++ patch.persistent_volumes;
  working_dir = merge_template_fields base.working_dir patch.working_dir;
  job_name_prefix = merge_template_fields base.job_name_prefix patch.job_name_prefix;
  prevent_privilege_escalation =
      merge_template_fields base.prevent_privilege_escalation patch.prevent_privilege_escalation;
  run_as_current_user = merge_template_fields base.run_as_current_user patch.run_as_current_user;
  extra_args = base.extra_args ++ patch.extra_args;
  is_command = merge_template_fields base.is_command patch.is_command;
  git_sync = merge_git_sync_template base.git_sync patch.git_sync;
  backoff_limit = merge_template_fields base.backoff_limit patch.backoff_limit;
  elastic = merge_template_fields base.elastic patch.elastic;
  parallelism = merge_template_fields base.parallelism patch.parallelism;
  is_preemptible = merge_template_fields base.is_preemptible patch.is_preemptible;
  service_type = merge_template_fields base.service_type patch.service_type;
  is_jupyter = merge_template_fields base.is_jupyter patch.is_jupyter;
  ttl_after_finished = merge_template_fields base.ttl_after_finished patch.ttl_after_finished;
  processes = merge_template_fields base.processes patch.processes;
}
