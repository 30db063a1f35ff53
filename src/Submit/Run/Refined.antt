-- ===== src/Submit/Run/Refined.antt =====
-- The chain of handlers against one list of checks and one completed record.
use runai_cli.Prelude.{
  ℕ, pos, String, Bool, true, false, not, ◌&&◌, ◌||◌, Option, some, is_some, List, [], ◌∷◌, str_eq,
  if◌then◌else◌, ◌≡◌,
}
use runai_cli.Submit.Volume.{handle_volumes_and_pvc}
use runai_cli.Submit.Resources.{Arithmetic, handle_requested_gpus, handle_image_pull_policy}
use runai_cli.Submit.GitSync.{handle_git_sync, is_bool_true}
use runai_cli.Submit.Template.{git_sync_or_new}
use runai_cli.Submit.Line.{get_job_name_with_suffix_generation_flag}
use runai_cli.Submit.Run.{
  Answers, RunError, unexpected_arguments, bad_label, no_namespace, no_project, no_cluster_config,
  tty_without_stdin, bad_memory, of_volume, of_gpu, of_image, of_git_sync, RunArgs, user_of, or_on,
  label_index, assign_user, place, set_common_run,
}
use runai_cli.Submit.Run.Checks.{
  judge, judge-nil, check-bind, fails, absent, value_or, failed, refuse-judge, need-judge,
  handled-judge, Identity, identity, env_as, uid_as, gid_as, groups_as, run_as-judge,
}

-- What the answers say, and what stands for an answer that does not come.
abbrev pub named : Option ℕ → List String → String → String → Option (String × Bool)
named = get_job_name_with_suffix_generation_flag

abbrev pub name_or : Option (String × Bool) → String × Bool
name_or o = value_or ("", false) o

abbrev pub place_or : Option (String × String) → String × String
place_or o = value_or ("", "") o

abbrev pub config_or : Option (Bool × Bool) → Bool × Bool
config_or o = value_or (false, false) o

module _ (num : Arithmetic) (w : Answers) (dash : Option ℕ) (words : List String) where
  open num use {Float, parse_quantity}

  module _ (args : RunArgs Float) where
    abbrev pub name_of : Option (String × Bool)
    name_of =
        get_job_name_with_suffix_generation_flag dash words args.name_parameter args.name_prefix

    abbrev pub identity_of : Option RunError × Identity
    identity_of =
        identity w ((config_or w.cluster_config).0 || is_bool_true args.run_as_current_user)

    abbrev pub std_in_of : Option Bool
    std_in_of = or_on (is_bool_true args.attach) args.std_in

    abbrev pub tty_of : Option Bool
    tty_of = or_on (is_bool_true args.attach) args.tty

    -- The checks, in their order.
    abbrev pub checks : List (Option RunError)
    checks =
        absent name_of unexpected_arguments
        ∷ fails (not (w.is_dns1035_label (name_or name_of).0)) bad_label
        ∷ absent w.namespace no_namespace
        ∷ fails (str_eq (place_or w.namespace).1 "") no_project
        ∷ absent w.cluster_config no_cluster_config
        ∷ identity_of.0
        ∷ failed of_volume (handle_volumes_and_pvc args.volume).1
        ∷ fails (is_bool_true tty_of && not (is_bool_true std_in_of)) tty_without_stdin
        ∷ failed of_gpu (handle_requested_gpus num args.gpu).1
        ∷ failed of_image (handle_image_pull_policy args.image).1
        ∷ fails (not (str_eq args.memory "") && not (is_some (parse_quantity args.memory)))
            bad_memory
        ∷ failed of_git_sync (handle_git_sync (git_sync_or_new args.git_sync)).1
        ∷ []

    -- The arguments where no check fails.
    abbrev pub completed : RunArgs Float
    completed = record args {
      name = (name_or name_of).0;
      generate_suffix = (name_or name_of).1;
      user =
          if str_eq args.user ""
          then user_of w.authenticated_user w.os_user args.user
          else args.user;
      namespace = (place_or w.namespace).0;
      project = (place_or w.namespace).1;
      environment_variable = env_as identity_of.1 args.environment_variable;
      run_as_user = uid_as identity_of.1 args.run_as_user;
      run_as_group = gid_as identity_of.1 args.run_as_group;
      supplemental_groups = groups_as identity_of.1 args.supplemental_groups;
      prevent_privilege_escalation =
          if (config_or w.cluster_config).1 then some true else args.prevent_privilege_escalation;
      volume = (handle_volumes_and_pvc args.volume).0;
      labels = label_index w.job_index args.labels;
      std_in = std_in_of;
      tty = tty_of;
      gpu = (handle_requested_gpus num args.gpu).0;
      image = (handle_image_pull_policy args.image).0;
      git_sync = some (handle_git_sync (git_sync_or_new args.git_sync)).0;
      backoff_limit = if is_bool_true args.interactive then some (pos 0) else args.backoff_limit;
    }

  -- A submission fails exactly where one of its checks does, and then with the error of the first,
  -- although each handler runs on what the ones before it have changed: the checks of the name, of the
  -- project and its cluster, of the user that the job runs as, of volumes, of the terminal, of GPUs,
  -- of the image, of the memory and of git-sync see the arguments as they were given. Otherwise the
  -- arguments are completed: by the name, the project and the user, the labels, the terminal of an
  -- attached job, the results of the handlers, the escalation that the cluster forbids, and no retries
  -- for an interactive job.
  pub set_common_run-judge :
      (args : RunArgs Float)
      → set_common_run num w dash words args ≡ judge (checks args) (completed args)
  unfolding set_common_run assign_user
  set_common_run-judge args =
      check-bind _ _ _ _ _ _ (need-judge ("", false) (name_of args) unexpected_arguments) (
        check-bind _ _ _ _ _ _ (refuse-judge _ bad_label) (
          check-bind _ _ _ _ _ _ (need-judge ("", "") w.namespace no_namespace) (
            check-bind _ _ _ _ _ _ (refuse-judge _ no_project) (
              check-bind _ _ _ _ _ _ (need-judge (false, false) w.cluster_config no_cluster_config)
                (check-bind _ _ _ _ _ _
                  (run_as-judge w (config_or w.cluster_config).0
                    (place (name_or (name_of args)) (place_or w.namespace) (assign_user w args)))
                  (check-bind _ _ _ _ _ _
                    (handled-judge of_volume (handle_volumes_and_pvc args.volume))
                    (check-bind _ _ _ _ _ _ (refuse-judge _ tty_without_stdin) (
                      check-bind _ _ _ _ _ _
                        (handled-judge of_gpu (handle_requested_gpus num args.gpu))
                        (check-bind _ _ _ _ _ _
                          (handled-judge of_image (handle_image_pull_policy args.image))
                          (check-bind _ _ _ _ _ _ (refuse-judge _ bad_memory) (
                            check-bind _ _ _ _ _ _
                              (handled-judge of_git_sync
                                (handle_git_sync (git_sync_or_new args.git_sync)))
                              (judge-nil (completed args)))))))))))))
