-- ===== src/Submit/GitSync/Tests.antt =====
-- Runs of the git-sync handlers, and their theorems at concrete arguments.
use runai_cli.Prelude.{true, none, some, ◌≡◌, ◌↔◌, refl, split, lookup, assign}
use runai_cli.Submit.GitSync.{
  GitSync, new_git_sync, no_repository, handle_git_sync, git_sync_from_connection_string,
}
use runai_cli.Submit.GitSync.Handled.{
  IsCompleted, IsFilled, handle_git_sync-IsFilled, handle_git_sync_idempotent,
}
use runai_cli.Submit.GitSync.Pairs.{IsRead, git_sync_from_connection_string-IsRead}

-- What a test unfolds to run the handlers.
git_sync : Unit {0}
unfolding git_sync_from_connection_string handle_git_sync split lookup assign
git_sync = tt

abbrev by_branch : GitSync
by_branch = record new_git_sync {
  sync = some true;
  repository = "git@host/repo";
  directory = "/src";
  username = "me";
}

read_back :
    git_sync_from_connection_string "source='git@host/repo',junk,target=\"/src\",username=me"
    ≡ some by_branch
unfolding git_sync
read_back = refl

filled : handle_git_sync by_branch ≡ (
  record by_branch {
    branch = "master";
    use_credentials = true;
    image = "k8s.gcr.io/git-sync/git-sync:v3.2.0";
  },
  none,
)
unfolding git_sync
filled = refl

handle_git_sync-IsFilled_example :
    IsCompleted by_branch (handle_git_sync by_branch).0
    × IsFilled (handle_git_sync by_branch).0
    × ((handle_git_sync by_branch).0.repository ≡ "git@host/repo")
    × ((handle_git_sync by_branch).0.revision ≡ "")
    × ((handle_git_sync by_branch).0.username ≡ "me")
    × ((handle_git_sync by_branch).0.password ≡ "")
    × (((handle_git_sync by_branch).1 ≡ some no_repository) ↔ (by_branch.repository ≡ ""))
handle_git_sync-IsFilled_example = handle_git_sync-IsFilled by_branch refl

git_sync_twice : handle_git_sync (handle_git_sync by_branch).0 ≡ handle_git_sync by_branch
git_sync_twice = handle_git_sync_idempotent by_branch

git_sync_from_connection_string-IsRead_example :
    IsRead
      (split b',' "source=a,source='b',rev=1")
      (record new_git_sync { sync = some true; repository = "b"; revision = "1" })
unfolding git_sync
git_sync_from_connection_string-IsRead_example =
    git_sync_from_connection_string-IsRead "source=a,source='b',rev=1" refl
