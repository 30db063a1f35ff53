-- ===== src/Submit/Template/Sync.antt =====
-- The git-sync part of a template, and the handler that runs behind the merge.
use runai_cli.Prelude.{Option, none, some, List, ◌≡◌, sym, ◌∙◌, refl}
use mathlib.Core.Path.{subst}
use mathlib.Core.Option.{some-injective}
use runai_cli.Templates.{GitSyncTemplate}
use runai_cli.Submit.GitSync.{GitSync, new_git_sync, handle_git_sync}
use runai_cli.Submit.Template.{ok, merge_git_sync}
use runai_cli.Submit.Template.Flags.{Flag, judge, outcome}
use runai_cli.Submit.Template.Precedence.{all_git_sync_flags, git_sync_merged, merge_git_sync-judge}

outcome-eq-ok : {A : Type 0} (a b : A) (o : Option Flag) → outcome a o ≡ ok b → a ≡ b
outcome-eq-ok a b none e = cc
outcome-eq-ok a b (some flag) e = cc

judge-eq-ok : {A : Type 0} (flags : List Flag) (a b : A) → judge flags a ≡ ok b → a ≡ b
unfolding judge
judge-eq-ok flags a b e = outcome-eq-ok a b _ e

handle_git_sync_off :
    (t : GitSyncTemplate)
    → handle_git_sync (git_sync_merged new_git_sync t) ≡ (git_sync_merged new_git_sync t, none)
unfolding handle_git_sync
handle_git_sync_off t = refl

-- Where the command line has no git-sync part, that of a template has no effect: it is merged into
-- the arguments, but the handler that runs next takes git-sync to be switched off, and neither fills
-- the arguments in nor fails, even where the template names no repository.
pub merge_git_sync-off :
    (t : GitSyncTemplate) {gs : GitSync}
    → merge_git_sync none (some t) ≡ ok (some gs)
    → handle_git_sync gs ≡ (gs, none)
merge_git_sync-off t {gs} e =
    subst (λ g. handle_git_sync g ≡ (g, none))
      (some-injective _ _ (
        judge-eq-ok (all_git_sync_flags none (some t)) _ (some gs)
          (sym (merge_git_sync-judge none (some t)) ∙ e)))
      (handle_git_sync_off t)
