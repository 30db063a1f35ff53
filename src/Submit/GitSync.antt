-- ===== src/Submit/GitSync.antt =====
-- cmd/job/submit/submit_args_git_sync.go: the git-sync arguments of a job.
pub mod Handled
pub mod Arguments
pub mod Pairs
mod Tests
use Prim.Native.Char.{Char, code}
use Prim.Native.String
use runai_cli.Prelude.{
  ℕ, String, Bool, true, false, ◌&&◌, ◌||◌, not, Option, none, some, List, [], ◌∷◌, Map, lookup,
  assign, split, ◌==◌, str_eq, if◌then◌else◌,
}

pub record GitSync : Type 0 where
  pub sync : Option Bool
  pub image : String
  pub repository : String
  pub by_revision : Bool
  pub branch : String
  pub revision : String
  pub username : String
  pub password : String
  pub use_credentials : Bool
  pub directory : String

pub data GitSyncError : Type 0 where
  no_repository : GitSyncError

abbrev pub default_git_sync_image : String
default_git_sync_image = "k8s.gcr.io/git-sync/git-sync:v3.2.0"

abbrev pub default_sync_directory : String
default_sync_directory = "/code"

abbrev pub default_branch : String
default_branch = "master"

abbrev pub new_git_sync : GitSync
new_git_sync = record {
  sync = some false;
  image = "";
  repository = "";
  by_revision = false;
  branch = "";
  revision = "";
  username = "";
  password = "";
  use_credentials = false;
  directory = "";
}

-- `IsBoolPTrue`.
abbrev pub is_bool_true : Option Bool → Bool
is_bool_true none = false
is_bool_true (some b) = b

-- The assignments of `HandleGitSync`, a field at a time: each reads fields that none has written.
unfoldable pub fill : GitSync → GitSync
fill gs = record gs {
  by_revision = if not (str_eq gs.revision "") then true else gs.by_revision;
  branch =
      if not (str_eq gs.revision "")
      then gs.branch
      else if str_eq gs.branch ""
      then default_branch
      else gs.branch;
  use_credentials =
      if not (str_eq gs.username "") || not (str_eq gs.password "")
      then true
      else gs.use_credentials;
  image = if str_eq gs.image "" then default_git_sync_image else gs.image;
  directory = if str_eq gs.directory "" then default_sync_directory else gs.directory;
}

unfoldable pub handle_git_sync : GitSync → GitSync × Option GitSyncError
unfolding fill
handle_git_sync gs =
    if not (is_bool_true gs.sync)
    then (gs, none)
    else (fill gs, if str_eq gs.repository "" then some no_repository else none)

-- `strings.Trim(value, "'\"")`.
unfoldable pub is_quote : Char → Bool
is_quote c = (code c == 39) || (code c == 34)

unfoldable pub trim_left : String → String
unfolding is_quote
trim_left String.[] = ""
trim_left (String.◌∷◌ c s) = if is_quote c then trim_left s else String.◌∷◌ c s

unfoldable pub trim_right : String → String
unfolding is_quote
trim_right String.[] = ""
trim_right (String.◌∷◌ c s) =
    let rest = trim_right s in if is_quote c && str_eq rest "" then "" else String.◌∷◌ c rest

unfoldable pub trim_quotes : String → String
unfolding trim_left trim_right
trim_quotes s = trim_right (trim_left s)

-- The arguments of a connection string: a parameter that is no pair is passed over.
unfoldable pub add_argument : Map String → List String → Map String
unfolding assign trim_quotes
add_argument arguments (key ∷ (value ∷ [])) = assign arguments key (trim_quotes value)
add_argument arguments parts = arguments

unfoldable pub collect_arguments : Map String → List String → Map String
unfolding add_argument split
collect_arguments arguments [] = arguments
collect_arguments arguments (parameter ∷ rest) =
    collect_arguments (add_argument arguments (split b'=' parameter)) rest

-- One case of the switch in `ParseGitSyncArguments`.
unfoldable pub set_argument : GitSync → String → String → GitSync
set_argument gs key value =
    if str_eq key "source"
    then record gs { repository = value }
    else if str_eq key "branch"
    then record gs { branch = value }
    else if str_eq key "rev"
    then record gs { revision = value }
    else if str_eq key "image"
    then record gs { image = value }
    else if str_eq key "username"
    then record gs { username = value }
    else if str_eq key "password"
    then record gs { password = value }
    else if str_eq key "target"
    then record gs { directory = value }
    else gs

unfoldable pub set_arguments : GitSync → Map String → GitSync
unfolding set_argument
set_arguments gs [] = gs
set_arguments gs ((key, value) ∷ rest) = set_arguments (set_argument gs key value) rest

unfoldable pub parse_git_sync_arguments : Map String → GitSync
unfolding set_arguments
parse_git_sync_arguments arguments =
    set_arguments (record new_git_sync { sync = some true }) arguments

abbrev pub when_any : Map String → Option GitSync
when_any [] = none
when_any (entry ∷ arguments) = some (parse_git_sync_arguments (entry ∷ arguments))

unfoldable pub git_sync_from_connection_string : String → Option GitSync
unfolding collect_arguments parse_git_sync_arguments split
git_sync_from_connection_string connection = when_any (collect_arguments [] (split b',' connection))
