-- ===== src/Templates/Tests.antt =====
-- Merges of concrete templates.
use runai_cli.Prelude.{
  String, true, Option, none, some, is_some, List, [], ◌∷◌, ◌++◌, ◌≡◌, ◌↔◌, refl, split, Elem, any,
}
use runai_cli.Templates.{
  no_template, no_git_sync, TemplateField, merge_template_fields, merge_environment_variables,
  merge_submit_templates, append_variables, cli_keys, variable_key,
}
use runai_cli.Templates.Environment.{IsTaken, merge_environment_variables-IsTaken}
use runai_cli.Templates.Merging.{
  IsOver, merge_template_fields_assoc, merge_submit_templates-git_sync,
}

merges :
    merge_environment_variables ("A=1" ∷ "B=x=y" ∷ []) ("A=2" ∷ "B=2" ∷ "C=3" ∷ "D=a=b" ∷ "E" ∷ [])
    ≡ "A=1" ∷ "B=x=y" ∷ "B=2" ∷ "C=3" ∷ []
unfolding merge_environment_variables append_variables cli_keys variable_key split any
merges = refl

merge_environment_variables-IsTaken_example :
    (taken : List String) × (merge_environment_variables ("A=1" ∷ []) ("A=2" ∷ "C=3" ∷ [])
      ≡ ("A=1" ∷ []) ++ taken)
    × ((v : String) → Elem v taken ↔ (Elem v ("A=2" ∷ "C=3" ∷ []) × IsTaken ("A=1" ∷ []) v))
merge_environment_variables-IsTaken_example =
    merge_environment_variables-IsTaken ("A=1" ∷ []) ("A=2" ∷ "C=3" ∷ [])

abbrev field_of : String → Option TemplateField
field_of value = some (record { required = some true; value = value })

merge_template_fields_assoc_example :
    IsOver (field_of "1") (field_of "2") (merge_template_fields (field_of "1") (field_of "2"))
    × (merge_template_fields (merge_template_fields (field_of "1") (field_of "2")) none
        ≡ merge_template_fields (field_of "1") (merge_template_fields (field_of "2") none))
merge_template_fields_assoc_example = merge_template_fields_assoc (field_of "1") (field_of "2") none

merges_git_sync :
    is_some
      (merge_submit_templates no_template
        (record no_template { git_sync = some no_git_sync })).git_sync
    ≡ is_some (no_template.git_sync)
merges_git_sync =
    merge_submit_templates-git_sync no_template (record no_template { git_sync = some no_git_sync })
