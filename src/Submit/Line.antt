-- ===== src/Submit/Line.antt =====
-- The words of the command line in cmd/job/submit/submit.go: the name of the job, the command behind
-- the dashes, and the words that older versions took. `none` is a command line without dashes.
mod Tests
use Prim.Native.String
use runai_cli.Prelude.{
  ℕ, zero, suc, ◌+◌, String, Bool, true, false, not, ◌&&◌, ◌||◌, Option, none, some, List, [], ◌∷◌,
  ◌++◌, length, ltb, str_eq, any, if◌then◌else◌,
}

abbrev pub job_default_name : String
job_default_name = "job"

abbrev pub dash_arg : String
dash_arg = "--"

abbrev pub command_flag : String
command_flag = "command"

abbrev pub old_command_flag : String
old_command_flag = "old-command"

-- `args[:n]` and `args[n:]`, for an `n` that is at most the length.
abbrev pub first_words : ℕ → List String → List String
first_words zero words = []
first_words (suc n) [] = []
first_words (suc n) (word ∷ words) = word ∷ first_words n words

abbrev pub later_words : ℕ → List String → List String
later_words zero words = words
later_words (suc n) [] = []
later_words (suc n) (word ∷ words) = later_words n words

abbrev pub until_dash : Option ℕ → List String → List String
until_dash none words = words
until_dash (some n) words = first_words n words

abbrev pub after_dash : Option ℕ → List String → List String
after_dash none words = later_words (length words) words
after_dash (some n) words = later_words n words

-- A name, and whether the server adds a number to it; `none` is the error of an unexpected word.
abbrev pub chosen_name : String → String → List String → Option (String × Bool)
chosen_name parameter prefix [] =
    if not (str_eq parameter "")
    then some (parameter, false)
    else if not (str_eq prefix "")
    then some (prefix, true)
    else some (job_default_name, true)
chosen_name parameter prefix (word ∷ words) =
    if not (str_eq parameter "") then none else some (word, false)

unfoldable pub get_job_name_with_suffix_generation_flag :
    Option ℕ → List String → String → String → Option (String × Bool)
get_job_name_with_suffix_generation_flag dash args parameter prefix =
    chosen_name parameter prefix (until_dash dash args)

abbrev pub has_words : List String → Bool
has_words [] = false
has_words (word ∷ words) = true

unfoldable pub merge_old_command_and_args_with_new :
    Option ℕ → List String → List String → List String → Option Bool → List String × Option Bool
merge_old_command_and_args_with_new dash args old_command old_args is_command =
    if has_words (after_dash dash args)
    then (after_dash dash args, is_command)
    else if not (has_words old_command) && not (has_words old_args)
    then ([], is_command)
    else (old_command ++ old_args, some (has_words old_command))

-- The three fields that the flags of older versions reach.
pub record CommandArgs : Type 0 where
  pub spec_command : List String
  pub spec_args : List String
  pub command : Option Bool

abbrev pub is_on : Option Bool → Bool
is_on none = false
is_on (some b) = b

-- The words behind the flags, and the fields.
unfoldable pub convert_old_command_args_flags :
    Option ℕ → List String → CommandArgs → CommandArgs × List String
unfolding merge_old_command_and_args_with_new
convert_old_command_args_flags dash args c =
    let (words, is_command) =
      merge_old_command_and_args_with_new dash args c.spec_command c.spec_args c.command in
    (
      record {
        spec_command = if is_on is_command then words else [];
        spec_args = if is_on is_command then [] else words;
        command = is_command;
      },
      words,
    )

unfoldable pub rename_command : List String → List String
rename_command [] = []
rename_command (arg ∷ args) =
    (if str_eq arg (String.◌++◌ dash_arg command_flag)
      then String.◌++◌ dash_arg old_command_flag
      else arg)
    ∷ rename_command args

-- Only a submission whose words hold no "--" is changed.
unfoldable pub align_args_pre_parsing : List String → List String
unfolding rename_command any
align_args_pre_parsing [] = []
align_args_pre_parsing (program ∷ []) = program ∷ []
align_args_pre_parsing (program ∷ (verb ∷ args)) =
    if not (str_eq verb "submit") && not (str_eq verb "submit-mpi")
    then program ∷ verb ∷ args
    else if any (str_eq dash_arg) (program ∷ verb ∷ args)
    then program ∷ verb ∷ args
    else rename_command (program ∷ verb ∷ args)
