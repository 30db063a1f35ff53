-- ===== src/Submit/Template/Precedence.antt =====
-- Merging a template succeeds unless a mandatory flag is missing, and the command line wins.
use runai_cli.Prelude.{
  String, Bool, false, Option, none, some, find_first, List, [], ◌∷◌, ◌++◌, if◌then◌else◌, ◌≡◌,
  refl, inl, inr, Bool-cases, Option-cases,
}
use mathlib.Core.List.{append-nil}
use runai_cli.Templates.{
  TemplateField, GitSyncTemplate, SubmitTemplate, merge_environment_variables,
}
use runai_cli.Submit.GitSync.{GitSync, is_bool_true}
use runai_cli.Submit.Template.{
  ok, parsed, parse_bool, apply_template_field_for_bool, git_sync_or_new, merge_git_sync_fields,
  merge_git_sync, merge_extra_args, merge_command_and_args, SubmitArgs,
  merge_template_to_common_submit_args,
}
use runai_cli.Submit.Template.Flags.{
  Flag, judge, chosen, chosen_text, flag, text_flag, apply_string, apply_flag, judge-bind,
  flag-bind, judge_one,
}

pub apply_bool :
    (cli : Option Bool) (field : Option TemplateField) (name : String)
    → apply_template_field_for_bool cli field name
      ≡ judge (flag parse_bool name cli field ∷ []) (chosen parse_bool cli field)
unfolding apply_template_field_for_bool
apply_bool cli field name = apply_flag parse_bool cli field name

abbrev pub git_sync_flags : GitSync → GitSyncTemplate → List Flag
git_sync_flags gs t =
    text_flag "git-sync.repository" gs.repository t.repository
    ∷ text_flag "git-sync.branch" gs.branch t.branch
    ∷ text_flag "git-sync.revision" gs.revision t.revision
    ∷ text_flag "git-sync.username" gs.username t.username
    ∷ text_flag "git-sync.password" gs.password t.password
    ∷ text_flag "git-sync.image" gs.image t.image
    ∷ text_flag "git-sync.target" gs.directory t.directory
    ∷ []

abbrev pub git_sync_merged : GitSync → GitSyncTemplate → GitSync
git_sync_merged gs t = record gs {
  repository = chosen_text gs.repository t.repository;
  branch = chosen_text gs.branch t.branch;
  revision = chosen_text gs.revision t.revision;
  username = chosen_text gs.username t.username;
  password = chosen_text gs.password t.password;
  image = chosen_text gs.image t.image;
  directory = chosen_text gs.directory t.directory;
}

pub ok-judge : {A : Type 0} (a : A) → ok a ≡ judge [] a
unfolding judge find_first
ok-judge a = refl

merge_git_sync_fields-judge :
    (gs : GitSync) (t : GitSyncTemplate)
    → merge_git_sync_fields gs t ≡ judge (git_sync_flags gs t) (git_sync_merged gs t)
unfolding merge_git_sync_fields
merge_git_sync_fields-judge gs t =
    flag-bind _ _ _ _ _ _ (apply_string gs.repository t.repository "git-sync.repository") (λ _.
      flag-bind _ _ _ _ _ _ (apply_string gs.branch t.branch "git-sync.branch") (λ _.
        flag-bind _ _ _ _ _ _ (apply_string gs.revision t.revision "git-sync.revision") (λ _.
          flag-bind _ _ _ _ _ _ (apply_string gs.username t.username "git-sync.username") (λ _.
            flag-bind _ _ _ _ _ _ (apply_string gs.password t.password "git-sync.password") (λ _.
              flag-bind _ _ _ _ _ _ (apply_string gs.image t.image "git-sync.image") (λ _.
                flag-bind _ _ _ _ _ _ (apply_string gs.directory t.directory "git-sync.target")
                  (λ _. ok-judge _)))))))

-- The git-sync part: a template without one leaves it alone, and otherwise it is filled field by field.
abbrev pub all_git_sync_flags : Option GitSync → Option GitSyncTemplate → List Flag
all_git_sync_flags gs none = []
all_git_sync_flags gs (some t) = git_sync_flags (git_sync_or_new gs) t

abbrev pub all_git_sync_merged : Option GitSync → Option GitSyncTemplate → Option GitSync
all_git_sync_merged gs none = gs
all_git_sync_merged gs (some t) = some (git_sync_merged (git_sync_or_new gs) t)

pub merge_git_sync-judge :
    (gs : Option GitSync) (t : Option GitSyncTemplate)
    → merge_git_sync gs t ≡ judge (all_git_sync_flags gs t) (all_git_sync_merged gs t)
unfolding merge_git_sync
merge_git_sync-judge gs none = ok-judge gs
merge_git_sync-judge gs (some t) =
    judge-bind (git_sync_flags (git_sync_or_new gs) t) [] (git_sync_merged (git_sync_or_new gs) t) _
      _ _ (merge_git_sync_fields-judge (git_sync_or_new gs) t) (ok-judge _)

abbrev pub extra_of : SubmitTemplate → List String → List String
extra_of t [] = t.extra_args
extra_of t (arg ∷ args) = arg ∷ args

merge_extra_args_lem :
    (t : SubmitTemplate) (extra : List String)
    → merge_extra_args extra t.extra_args ≡ extra_of t extra
unfolding merge_extra_args
merge_extra_args_lem t (arg ∷ args) = refl
merge_extra_args_lem t [] = go t.extra_args
  where
    go : (args : List String) → merge_extra_args [] args ≡ args
    go [] = refl
    go (arg ∷ args) = refl

abbrev pub commands_of :
    Option Bool → SubmitTemplate → List String → Option Bool × List String × List String
commands_of command t extra = (
  command,
  if is_bool_true command then extra_of t extra else [],
  if is_bool_true command then [] else extra_of t extra,
)

chosen_again :
    (command : Option Bool) (field : Option TemplateField)
    → chosen parse_bool (chosen parse_bool command field) field ≡ chosen parse_bool command field
chosen_again (some command) field = refl
chosen_again none field = elim (Option-cases (parsed parse_bool field)) [
  | inl e ↦ rw (e, e)
  | inr (value, e) ↦ rw e
]

-- The flag "command" is looked at twice: the second time it is not missing, and stays as it is.
merge_command_and_args-judge :
    (command : Option Bool) (t : SubmitTemplate) (extra : List String)
    → (flag parse_bool "command" command t.is_command).1 ≡ false
    → merge_command_and_args (chosen parse_bool command t.is_command) t extra
      ≡ judge [] (commands_of (chosen parse_bool command t.is_command) t extra)
unfolding merge_command_and_args
merge_command_and_args-judge command t extra given =
    rw (apply_bool, chosen_again, judge_one, given, merge_extra_args_lem)
      (elim (Bool-cases (is_bool_true (chosen parse_bool command t.is_command))) [
        | inl e ↦ rw e (ok-judge _)
        | inr e ↦ rw e (ok-judge _)
      ])

module _ {Float : Type 0} (parse_float : String → Option Float) where
  -- The flags that a template may ask for, in the order in which they are looked at.
  abbrev pub common_flags : SubmitArgs Float → SubmitTemplate → List Flag
  common_flags args t =
      text_flag "name" args.name_parameter t.name
      ∷ flag parse_bool "always-pull-image" args.always_pull_image t.always_pull_image
      ∷ flag parse_bool "attach" args.attach t.attach
      ∷ text_flag "cpu" args.cpu t.cpu
      ∷ text_flag "cpu-limit" args.cpu_limit t.cpu_limit
      ∷ flag parse_bool "create-home-dir" args.create_home_dir t.create_home_dir
      ∷ flag parse_float "gpu" args.gpu t.gpu
      ∷ flag parse_bool "host-ipc" args.host_ipc t.host_ipc
      ∷ flag parse_bool "host-network" args.host_network t.host_network
      ∷ text_flag "image" args.image t.image
      ∷ flag parse_bool "interactive" args.interactive t.interactive
      ∷ flag parse_bool "large-shm" args.large_shm t.large_shm
      ∷ flag parse_bool "local-image" args.local_image t.local_image
      ∷ text_flag "memory" args.memory t.memory
      ∷ text_flag "memory-limit" args.memory_limit t.memory_limit
      ∷ text_flag "working-dir" args.working_dir t.working_dir
      ∷ text_flag "job-name-prefix" args.name_prefix t.job_name_prefix
      ∷ flag parse_bool "prevent-privilege-escalation" args.prevent_privilege_escalation
          t.prevent_privilege_escalation
      ∷ flag parse_bool "run-as-user" args.run_as_current_user t.run_as_current_user
      ∷ flag parse_bool "command" args.command t.is_command
      ∷ all_git_sync_flags args.git_sync t.git_sync

  abbrev pub common_merged : SubmitArgs Float → SubmitTemplate → List String → SubmitArgs Float
  common_merged args t extra =
      let command = chosen parse_bool args.command t.is_command in
      record {
        name_parameter = chosen_text args.name_parameter t.name;
        always_pull_image = chosen parse_bool args.always_pull_image t.always_pull_image;
        attach = chosen parse_bool args.attach t.attach;
        cpu = chosen_text args.cpu t.cpu;
        cpu_limit = chosen_text args.cpu_limit t.cpu_limit;
        create_home_dir = chosen parse_bool args.create_home_dir t.create_home_dir;
        gpu = chosen parse_float args.gpu t.gpu;
        host_ipc = chosen parse_bool args.host_ipc t.host_ipc;
        host_network = chosen parse_bool args.host_network t.host_network;
        image = chosen_text args.image t.image;
        interactive = chosen parse_bool args.interactive t.interactive;
        large_shm = chosen parse_bool args.large_shm t.large_shm;
        local_image = chosen parse_bool args.local_image t.local_image;
        memory = chosen_text args.memory t.memory;
        memory_limit = chosen_text args.memory_limit t.memory_limit;
        working_dir = chosen_text args.working_dir t.working_dir;
        name_prefix = chosen_text args.name_prefix t.job_name_prefix;
        prevent_privilege_escalation =
            chosen parse_bool args.prevent_privilege_escalation t.prevent_privilege_escalation;
        run_as_current_user = chosen parse_bool args.run_as_current_user t.run_as_current_user;
        command = command;
        environment_variable =
            merge_environment_variables args.environment_variable t.env_variables;
        volumes = args.volumes ++ t.volumes;
        ports = args.ports ++ t.ports;
        persistent_volumes = args.persistent_volumes ++ t.persistent_volumes;
        git_sync = all_git_sync_merged args.git_sync t.git_sync;
        spec_command = if is_bool_true command then extra_of t extra else [];
        spec_args = if is_bool_true command then [] else extra_of t extra;
      }

  -- Applying a template to the arguments of a command succeeds unless a flag that the template
  -- requires is given neither on the command line nor, in a form that can be read, in the template:
  -- then the first such flag is named. On success every flag has the value of the command line, and
  -- that of the template where the command line gives none; the lists of the template go behind
  -- those of the command line; and the words behind the flags, or those of the template where there
  -- are none, are the command if the flag "command" is on, and the arguments otherwise.
  pub merge_template_to_common_submit_args-judge :
      (args : SubmitArgs Float) (t : SubmitTemplate) (extra : List String)
      → merge_template_to_common_submit_args parse_float args t extra
        ≡ judge (common_flags args t) (common_merged args t extra)
  unfolding merge_template_to_common_submit_args
  merge_template_to_common_submit_args-judge args t extra =
      flag-bind _ _ _ _ _ _ (apply_string args.name_parameter t.name "name") (λ _.
        flag-bind _ _ _ _ _ _
          (apply_bool args.always_pull_image t.always_pull_image "always-pull-image")
          (λ _. flag-bind _ _ _ _ _ _ (apply_bool args.attach t.attach "attach") (λ _.
            flag-bind _ _ _ _ _ _ (apply_string args.cpu t.cpu "cpu") (λ _.
              flag-bind _ _ _ _ _ _ (apply_string args.cpu_limit t.cpu_limit "cpu-limit") (λ _.
                flag-bind _ _ _ _ _ _
                  (apply_bool args.create_home_dir t.create_home_dir "create-home-dir")
                  (λ _. flag-bind _ _ _ _ _ _ (apply_flag parse_float args.gpu t.gpu "gpu") (λ _.
                    flag-bind _ _ _ _ _ _ (apply_bool args.host_ipc t.host_ipc "host-ipc") (λ _.
                      flag-bind _ _ _ _ _ _
                        (apply_bool args.host_network t.host_network "host-network")
                        (λ _. flag-bind _ _ _ _ _ _ (apply_string args.image t.image "image") (λ _.
                          flag-bind _ _ _ _ _ _
                            (apply_bool args.interactive t.interactive "interactive")
                            (λ _.
                              flag-bind _ _ _ _ _ _
                                (apply_bool args.large_shm t.large_shm "large-shm")
                                (λ _.
                                  flag-bind _ _ _ _ _ _
                                    (apply_bool args.local_image t.local_image "local-image")
                                    (λ _.
                                      flag-bind _ _ _ _ _ _
                                        (apply_string args.memory t.memory "memory")
                                        (λ _.
                                          flag-bind _ _ _ _ _ _
                                            (apply_string args.memory_limit t.memory_limit
                                              "memory-limit")
                                            (λ _.
                                              flag-bind _ _ _ _ _ _
                                                (apply_string args.working_dir t.working_dir
                                                  "working-dir")
                                                (λ _.
                                                  flag-bind _ _ _ _ _ _
                                                    (apply_string args.name_prefix t.job_name_prefix
                                                      "job-name-prefix")
                                                    (λ _.
                                                      flag-bind _ _ _ _ _ _
                                                        (apply_bool
                                                          args.prevent_privilege_escalation
                                                          t.prevent_privilege_escalation
                                                          "prevent-privilege-escalation")
                                                        (λ _.
                                                          flag-bind _ _ _ _ _ _
                                                            (apply_bool args.run_as_current_user
                                                            t.run_as_current_user "run-as-user")
                                                            (λ _.
                                                            flag-bind _ _ _ _ _ _
                                                            (apply_bool args.command t.is_command
                                                            "command")
                                                            (λ given.
                                                            rw
                                                            (← append-nil (
                                                            all_git_sync_flags args.git_sync
                                                            t.git_sync))
                                                            (judge-bind
                                                            (all_git_sync_flags args.git_sync
                                                            t.git_sync)
                                                            [] _ _ _ _
                                                            (merge_git_sync-judge args.git_sync
                                                            t.git_sync)
                                                            (judge-bind [] [] _ _ _ _
                                                            (merge_command_and_args-judge
                                                            args.command t extra given)
                                                            (ok-judge _)))))))))))))))))))))))
