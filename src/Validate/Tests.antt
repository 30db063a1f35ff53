-- ===== src/Validate/Tests.antt =====
-- Names and sizes that are accepted and refused.
use runai_cli.Prelude.{len, ◌≤◌, none, some, ◌≡◌, refl, ◌↔◌, codes}
use runai_cli.Validate.{
  job_max_length, validate_job_name, validate_storage_resource_request, bad_name, bad_size,
  too_long,
}
use runai_cli.Validate.Names.{IsLabel, validate_job_name-IsLabel}

accepted : (validate_job_name "train-1" ≡ none) × (validate_job_name "a" ≡ none)
unfolding validate_job_name
accepted = (refl, refl)

refused :
    (validate_job_name "-a" ≡ some bad_name)
    × (validate_job_name "a." ≡ some bad_name)
    × (validate_job_name "" ≡ some bad_name)
    × (validate_job_name "aaaaaaaaaaaaaaaaaaaaaaaaaaaaaaaaaaaaaaaaaaaaaaaaaa" ≡ some too_long)
unfolding validate_job_name
refused = (refl, refl, refl, refl)

sizes :
    (validate_storage_resource_request "2Gi" ≡ none)
    × (validate_storage_resource_request "+1.5e3" ≡ none)
    × (validate_storage_resource_request "Gi" ≡ some bad_size)
unfolding validate_storage_resource_request
sizes = (refl, refl, refl)

validate_job_name-IsLabel_example :
    (validate_job_name "train-1" ≡ none)
    ↔ ((len "train-1" ≤ job_max_length) × IsLabel (codes "train-1"))
validate_job_name-IsLabel_example = validate_job_name-IsLabel "train-1"
