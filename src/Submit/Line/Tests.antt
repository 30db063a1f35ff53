-- ===== src/Submit/Line/Tests.antt =====
-- Command lines.
use runai_cli.Prelude.{true, false, none, some, [], ◌∷◌, ◌≡◌, refl, any}
use runai_cli.Submit.Line.{
  get_job_name_with_suffix_generation_flag, merge_old_command_and_args_with_new, rename_command,
  align_args_pre_parsing,
}

names :
    (get_job_name_with_suffix_generation_flag none [] "" "" ≡ some ("job", true))
    × (get_job_name_with_suffix_generation_flag (some 0) ("bash" ∷ []) "" "dev"
        ≡ some ("dev", true))
    × (get_job_name_with_suffix_generation_flag none ("train" ∷ []) "" "dev"
        ≡ some ("train", false))
    × (get_job_name_with_suffix_generation_flag none ("train" ∷ []) "other" "" ≡ none)
unfolding get_job_name_with_suffix_generation_flag
names = (refl, refl, refl, refl)

words :
    (merge_old_command_and_args_with_new none [] ("bash" ∷ "-c" ∷ []) ("echo" ∷ []) (some false)
      ≡ ("bash" ∷ "-c" ∷ "echo" ∷ [], some true))
    × (merge_old_command_and_args_with_new (some 1) ("name" ∷ "sleep" ∷ "1" ∷ []) [] [] none
        ≡ ("sleep" ∷ "1" ∷ [], none))
    × (merge_old_command_and_args_with_new none ("name" ∷ []) [] [] none ≡ ([], none))
unfolding merge_old_command_and_args_with_new
words = (refl, refl, refl)

aligned :
    (align_args_pre_parsing ("runai" ∷ "submit" ∷ "--command" ∷ "bash" ∷ [])
      ≡ "runai" ∷ "submit" ∷ "--old-command" ∷ "bash" ∷ [])
    × (align_args_pre_parsing ("runai" ∷ "submit" ∷ "--command" ∷ "--" ∷ "bash" ∷ [])
        ≡ "runai" ∷ "submit" ∷ "--command" ∷ "--" ∷ "bash" ∷ [])
    × (align_args_pre_parsing ("runai" ∷ "list" ∷ "--command" ∷ [])
        ≡ "runai" ∷ "list" ∷ "--command" ∷ [])
unfolding align_args_pre_parsing rename_command any
aligned = (refl, refl, refl)
