-- ===== src/Submit/Template.antt =====
-- cmd/job/submit/submit_template_util.go: the flags of the command line over those of a template.
-- A nullable flag is an option. A panic on a mandatory flag is the error that the recovery makes.
pub mod Flags
pub mod Precedence
pub mod Jobs
pub mod Sync
mod Tests
use runai_cli.Prelude.{
  String, Bool, true, false, not, ◌&&◌, Option, none, some, List, [], ◌∷◌, ◌++◌, str_eq, any,
  if◌then◌else◌, is_some,
}
use runai_cli.Templates.{
  TemplateField, GitSyncTemplate, SubmitTemplate, merge_environment_variables,
}
use runai_cli.Submit.GitSync.{GitSync, new_git_sync, is_bool_true}

-- The outcome: a value, or the name of a mandatory flag that is missing.
pub data Result {ℓ} (A : Type ℓ) : Type ℓ where
  ok : A → Result A
  mandatory : String → Result A

infixl 5 ◌>>=◌
abbrev pub ◌>>=◌ {ℓ κ} : {A : Type ℓ} {B : Type κ} → Result A → (A → Result B) → Result B
ok a >>= f = f a
mandatory name >>= f = mandatory name

-- `mergeStringFlags`.
unfoldable pub merge_string_flags : String → String → String
merge_string_flags cli template =
    if not (str_eq cli "") then cli else if not (str_eq template "") then template else ""

-- `mergeBoolFlags`, and the same for the other nullable types.
abbrev pub merge_flags {ℓ} : {A : Type ℓ} → Option A → Option A → Option A
merge_flags (some cli) template = some cli
merge_flags none (some template) = some template
merge_flags none none = none

unfoldable pub merge_extra_args : List String → List String → List String
merge_extra_args (arg ∷ args) template = arg ∷ args
merge_extra_args [] (arg ∷ args) = arg ∷ args
merge_extra_args [] [] = []

abbrev pub is_required : Option TemplateField → Bool
is_required none = false
is_required (some field) = is_bool_true field.required

abbrev pub field_value : Option TemplateField → String
field_value none = ""
field_value (some field) = field.value

unfoldable pub apply_template_field_for_string :
    String → Option TemplateField → String → Result String
unfolding merge_string_flags
apply_template_field_for_string cli field name =
    let value = merge_string_flags cli (field_value field) in
    if str_eq value "" && is_required field then mandatory name else ok value

-- `validateValueIsNotRequiredAndNil`, and then the value.
abbrev pub checked {ℓ} : {A : Type ℓ} → Option A → Bool → String → Result (Option A)
checked value required name = if not (is_some value) && required then mandatory name else ok value

-- A template's value that does not parse counts as none.
abbrev pub parsed {ℓ} : {A : Type ℓ} → (String → Option A) → Option TemplateField → Option A
parsed parse none = none
parsed parse (some field) = parse field.value

unfoldable pub apply_template_field {ℓ} :
    {A : Type ℓ}
    → (String → Option A)
    → Option A
    → Option TemplateField
    → String
    → Result (Option A)
apply_template_field parse cli field name =
    checked (merge_flags cli (parsed parse field)) (is_required field) name

-- `strconv.ParseBool`.
unfoldable pub parse_bool : String → Option Bool
unfolding any
parse_bool s =
    if any (str_eq s) ("1" ∷ "t" ∷ "T" ∷ "TRUE" ∷ "true" ∷ "True" ∷ [])
    then some true
    else if any (str_eq s) ("0" ∷ "f" ∷ "F" ∷ "FALSE" ∷ "false" ∷ "False" ∷ [])
    then some false
    else none

unfoldable pub apply_template_field_for_bool :
    Option Bool → Option TemplateField → String → Result (Option Bool)
unfolding apply_template_field parse_bool
apply_template_field_for_bool = apply_template_field parse_bool

-- The fields of `submitArgs` that a template reaches.
pub record SubmitArgs (Float : Type 0) : Type 0 where
  pub name_parameter : String
  pub environment_variable : List String
  pub volumes : List String
  pub always_pull_image : Option Bool
  pub attach : Option Bool
  pub cpu : String
  pub cpu_limit : String
  pub create_home_dir : Option Bool
  pub gpu : Option Float
  pub host_ipc : Option Bool
  pub host_network : Option Bool
  pub image : String
  pub interactive : Option Bool
  pub large_shm : Option Bool
  pub local_image : Option Bool
  pub memory : String
  pub memory_limit : String
  pub ports : List String
  pub persistent_volumes : List String
  pub working_dir : String
  pub name_prefix : String
  pub prevent_privilege_escalation : Option Bool
  pub run_as_current_user : Option Bool
  pub command : Option Bool
  pub git_sync : Option GitSync
  pub spec_command : List String
  pub spec_args : List String

abbrev pub git_sync_or_new : Option GitSync → GitSync
git_sync_or_new none = new_git_sync
git_sync_or_new (some gs) = gs

unfoldable pub merge_git_sync_fields : GitSync → GitSyncTemplate → Result GitSync
unfolding apply_template_field_for_string
merge_git_sync_fields gs t = do
  repository ← apply_template_field_for_string gs.repository t.repository "git-sync.repository"
  branch ← apply_template_field_for_string gs.branch t.branch "git-sync.branch"
  revision ← apply_template_field_for_string gs.revision t.revision "git-sync.revision"
  username ← apply_template_field_for_string gs.username t.username "git-sync.username"
  password ← apply_template_field_for_string gs.password t.password "git-sync.password"
  image ← apply_template_field_for_string gs.image t.image "git-sync.image"
  directory ← apply_template_field_for_string gs.directory t.directory "git-sync.target"
  ok (record gs {
    repository = repository;
    branch = branch;
    revision = revision;
    username = username;
    password = password;
    image = image;
    directory = directory;
  })

unfoldable pub merge_git_sync : Option GitSync → Option GitSyncTemplate → Result (Option GitSync)
unfolding merge_git_sync_fields
merge_git_sync gs none = ok gs
merge_git_sync gs (some t) = do
  merged ← merge_git_sync_fields (git_sync_or_new gs) t
  ok (some merged)

-- The command and the arguments of `mergeCommandAndArgs`, where `command` is merged once more.
unfoldable pub merge_command_and_args :
    Option Bool → SubmitTemplate → List String → Result (Option Bool × List String × List String)
unfolding apply_template_field_for_bool merge_extra_args
merge_command_and_args command t extra = do
  command ← apply_template_field_for_bool command t.is_command "command"
  ok (
      if is_bool_true command
      then (command, merge_extra_args extra t.extra_args, [])
      else (command, [], merge_extra_args extra t.extra_args))

-- The parsers of floats and durations are the standard library's, as arguments.
module _ {Float : Type 0} (parse_float : String → Option Float) where
  unfoldable pub merge_template_to_common_submit_args :
      SubmitArgs Float → SubmitTemplate → List String → Result (SubmitArgs Float)
  unfolding apply_template_field_for_string apply_template_field apply_template_field_for_bool
      merge_git_sync merge_command_and_args merge_environment_variables
  merge_template_to_common_submit_args args t extra = do
    name ← apply_template_field_for_string args.name_parameter t.name "name"
    always_pull_image ←
        apply_template_field_for_bool args.always_pull_image t.always_pull_image "always-pull-image"
    attach ← apply_template_field_for_bool args.attach t.attach "attach"
    cpu ← apply_template_field_for_string args.cpu t.cpu "cpu"
    cpu_limit ← apply_template_field_for_string args.cpu_limit t.cpu_limit "cpu-limit"
    create_home_dir ←
        apply_template_field_for_bool args.create_home_dir t.create_home_dir "create-home-dir"
    gpu ← apply_template_field parse_float args.gpu t.gpu "gpu"
    host_ipc ← apply_template_field_for_bool args.host_ipc t.host_ipc "host-ipc"
    host_network ← apply_template_field_for_bool args.host_network t.host_network "host-network"
    image ← apply_template_field_for_string args.image t.image "image"
    interactive ← apply_template_field_for_bool args.interactive t.interactive "interactive"
    large_shm ← apply_template_field_for_bool args.large_shm t.large_shm "large-shm"
    local_image ← apply_template_field_for_bool args.local_image t.local_image "local-image"
    memory ← apply_template_field_for_string args.memory t.memory "memory"
    memory_limit ← apply_template_field_for_string args.memory_limit t.memory_limit "memory-limit"
    working_dir ← apply_template_field_for_string args.working_dir t.working_dir "working-dir"
    name_prefix ←
        apply_template_field_for_string args.name_prefix t.job_name_prefix "job-name-prefix"
    prevent ←
        apply_template_field_for_bool args.prevent_privilege_escalation
          t.prevent_privilege_escalation "prevent-privilege-escalation"
    run_as ←
        apply_template_field_for_bool args.run_as_current_user t.run_as_current_user "run-as-user"
    command ← apply_template_field_for_bool args.command t.is_command "command"
    git_sync ← merge_git_sync args.git_sync t.git_sync
    commands ← merge_command_and_args command t extra
    ok (record {
      name_parameter = name;
      environment_variable = merge_environment_variables args.environment_variable t.env_variables;
      volumes = args.volumes ++ t.volumes;
      always_pull_image = always_pull_image;
      attach = attach;
      cpu = cpu;
      cpu_limit = cpu_limit;
      create_home_dir = create_home_dir;
      gpu = gpu;
      host_ipc = host_ipc;
      host_network = host_network;
      image = image;
      interactive = interactive;
      large_shm = large_shm;
      local_image = local_image;
      memory = memory;
      memory_limit = memory_limit;
      ports = args.ports ++ t.ports;
      persistent_volumes = args.persistent_volumes ++ t.persistent_volumes;
      working_dir = working_dir;
      name_prefix = name_prefix;
      prevent_privilege_escalation = prevent;
      run_as_current_user = run_as;
      command = commands.0;
      git_sync = git_sync;
      spec_command = commands.1;
      spec_args = commands.2;
    })
