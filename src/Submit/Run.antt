-- ===== src/Submit/Run.antt =====
-- `setCommonRun` of cmd/job/submit/submit.go: the arguments of a job, once a template is applied, are
-- checked and completed by one handler after the other. What the cluster, the identity provider and
-- the operating system answer is an argument, where `none` is an error.
pub mod Checks
pub mod Refined
mod Tests
use Prim.Native.String
use runai_cli.Prelude.{
  ℕ, ℤ, pos, String, Bool, true, false, not, ◌&&◌, ◌||◌, Option, none, some, is_some, List, [], ◌∷◌,
  ◌++◌, Map, str_eq, if◌then◌else◌,
}
use runai_cli.Submit.Volume.{VolumeArgs, VolumeError, handle_volumes_and_pvc}
use runai_cli.Submit.Resources.{
  Arithmetic, GpuArgs, GpuError, handle_requested_gpus, ImageArgs, ImageError,
  handle_image_pull_policy,
}
use runai_cli.Submit.GitSync.{GitSync, GitSyncError, handle_git_sync, is_bool_true}
use runai_cli.Submit.Template.{git_sync_or_new}
use runai_cli.Submit.Line.{get_job_name_with_suffix_generation_flag}

pub record OsUser : Type 0 where
  pub username : String
  pub uid : String
  pub gid : String

-- What the rest of the world answers; the index is the result of `getJobIndex`.
pub record Answers : Type 0 where
  pub authenticated_user : Option String
  pub authenticated_ids : Option (String × String)
  pub os_user : Option OsUser
  pub groups : Option (List ℕ)
  pub namespace : Option (String × String)
  pub cluster_config : Option (Bool × Bool)
  pub job_index : Option String
  pub is_dns1035_label : String → Bool

pub data RunError : Type 0 where
  unexpected_arguments bad_label no_namespace no_project no_cluster_config no_identity no_os_user
        no_groups tty_without_stdin bad_memory :
      RunError
  of_volume : VolumeError → RunError
  of_gpu : GpuError → RunError
  of_image : ImageError → RunError
  of_git_sync : GitSyncError → RunError

pub data Outcome {ℓ} (Args : Type ℓ) : Type ℓ where
  stopped : RunError → Outcome Args
  done : Args → Outcome Args

infixl 5 ◌>>=◌ ◌>>◌
abbrev pub ◌>>=◌ {ℓ κ} :
    {Args : Type ℓ} {Next : Type κ} → Outcome Args → (Args → Outcome Next) → Outcome Next
stopped error >>= next = stopped error
done args >>= next = next args

abbrev pub ◌>>◌ {ℓ} : {Args : Type ℓ} → Outcome (Unit {0}) → Outcome Args → Outcome Args
check >> next = check >>= λ _. next

-- The fields of `submitArgs` that `setCommonRun` reads or writes. Those of one handler are one field.
pub record RunArgs (Float : Type 0) : Type 0 where
  pub name_parameter : String
  pub name_prefix : String
  pub name : String
  pub generate_suffix : Bool
  pub user : String
  pub namespace : String
  pub project : String
  pub environment_variable : List String
  pub run_as_user : String
  pub run_as_group : String
  pub supplemental_groups : List ℕ
  pub run_as_current_user : Option Bool
  pub prevent_privilege_escalation : Option Bool
  pub volume : VolumeArgs
  pub labels : Map String
  pub attach : Option Bool
  pub std_in : Option Bool
  pub tty : Option Bool
  pub gpu : GpuArgs Float
  pub image : ImageArgs
  pub memory : String
  pub git_sync : Option GitSync
  pub interactive : Option Bool
  pub backoff_limit : Option ℤ

abbrev pub os_name : Option OsUser → String → String
os_name none user = user
os_name (some os) user = os.username

abbrev pub user_of : Option String → Option OsUser → String → String
user_of none os user = os_name os user
user_of (some authenticated) os user =
    if not (str_eq authenticated "") then authenticated else os_name os user

abbrev pub need {ℓ} : {A : Type ℓ} → Option A → RunError → Outcome A
need none e = stopped e
need (some a) e = done a

abbrev pub refuse : Bool → RunError → Outcome (Unit {0})
refuse true e = stopped e
refuse false e = done tt

-- A handler that changes its fields and may fail.
abbrev pub handled {ℓ} : {A E : Type ℓ} → (E → RunError) → A × Option E → Outcome A
handled wrap (a, none) = done a
handled wrap (a, some e) = stopped (wrap e)

-- `--stdin` and `--tty` are switched on by `--attach` where they are not given.
abbrev pub or_on : Bool → Option Bool → Option Bool
or_on attach none = if attach then some true else none
or_on attach (some b) = some b

abbrev pub label_index : Option String → Map String → Map String
label_index none labels = labels
label_index (some index) labels = ("runai/job-index", index) ∷ []

module _ {Float : Type 0} where
  unfoldable pub assign_user : Answers → RunArgs Float → RunArgs Float
  assign_user w args = record args {
    user =
        if str_eq args.user "" then user_of w.authenticated_user w.os_user args.user else args.user;
  }

  -- The identifiers that are not empty, and the variables that tell them to the container.
  unfoldable pub set_ids : String → String → RunArgs Float → RunArgs Float
  set_ids uid gid args = record args {
    environment_variable =
        args.environment_variable
        ++ (if not (str_eq uid "") then String.◌++◌ "LDAP_UID=" uid ∷ [] else [])
        ++ (if not (str_eq gid "") then String.◌++◌ "LDAP_GID=" gid ∷ [] else []);
    run_as_user = if not (str_eq uid "") then uid else args.run_as_user;
    run_as_group = if not (str_eq gid "") then gid else args.run_as_group;
  }

  -- The arguments, and whether somebody is authenticated.
  unfoldable pub apply_run_as_authenticated_user :
      Option (String × String) → RunArgs Float → Outcome (RunArgs Float × Bool)
  unfolding set_ids
  apply_run_as_authenticated_user none args = stopped no_identity
  apply_run_as_authenticated_user (some (uid, gid)) args =
      if str_eq uid "" && str_eq gid ""
      then done (args, false)
      else done (set_ids uid gid args, true)

  -- The user of the operating system, with its groups.
  unfoldable pub run_as_os_user :
      Option OsUser → Option (List ℕ) → RunArgs Float → Outcome (RunArgs Float)
  run_as_os_user os_user groups args = do
    os ← need os_user no_os_user
    ids ← need groups no_groups
    done (record args { supplemental_groups = ids; run_as_user = os.uid; run_as_group = os.gid })

  abbrev pub unless_applied :
      Option OsUser → Option (List ℕ) → RunArgs Float × Bool → Outcome (RunArgs Float)
  unless_applied os groups (args, true) = done args
  unless_applied os groups (args, false) = run_as_os_user os groups args

  unfoldable pub run_as : Answers → Bool → RunArgs Float → Outcome (RunArgs Float)
  unfolding apply_run_as_authenticated_user run_as_os_user
  run_as w enforced args = elim (enforced || is_bool_true args.run_as_current_user) [
    | false ↦ done args
    | true ↦
        apply_run_as_authenticated_user w.authenticated_ids args
        >>= unless_applied w.os_user w.groups
  ]

  abbrev pub place : String × Bool → String × String → RunArgs Float → RunArgs Float
  place name namespace args = record args {
    generate_suffix = name.1;
    name = name.0;
    namespace = namespace.0;
    project = namespace.1;
  }

module _ (num : Arithmetic) where
  open num use {Float, parse_quantity}

  unfoldable pub set_common_run :
      Answers → Option ℕ → List String → RunArgs Float → Outcome (RunArgs Float)
  unfolding assign_user run_as
  set_common_run w dash words given = do
    let args = assign_user w given
    name ←
        need
          (get_job_name_with_suffix_generation_flag dash words args.name_parameter args.name_prefix)
          unexpected_arguments
    refuse (not (w.is_dns1035_label name.0)) bad_label
    namespace ← need w.namespace no_namespace
    refuse (str_eq namespace.1 "") no_project
    config ← need w.cluster_config no_cluster_config
    placed ← run_as w config.0 (place name namespace args)
    volume ← handled of_volume (handle_volumes_and_pvc placed.volume)
    let std_in = or_on (is_bool_true placed.attach) placed.std_in
    let tty = or_on (is_bool_true placed.attach) placed.tty
    refuse (is_bool_true tty && not (is_bool_true std_in)) tty_without_stdin
    gpu ← handled of_gpu (handle_requested_gpus num placed.gpu)
    image ← handled of_image (handle_image_pull_policy placed.image)
    refuse (not (str_eq placed.memory "") && not (is_some (parse_quantity placed.memory)))
        bad_memory
    git_sync ← handled of_git_sync (handle_git_sync (git_sync_or_new placed.git_sync))
    done (record placed {
      prevent_privilege_escalation =
          if config.1 then some true else placed.prevent_privilege_escalation;
      volume = volume;
      labels = label_index w.job_index placed.labels;
      std_in = std_in;
      tty = tty;
      gpu = gpu;
      image = image;
      git_sync = some git_sync;
      backoff_limit =
          if is_bool_true placed.interactive then some (pos 0) else placed.backoff_limit;
    })
