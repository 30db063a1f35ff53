-- ===== src/Trainer/Search/Tests.antt =====
-- Searches among two trainers.
use runai_cli.Prelude.{
  ℕ, String, Bool, true, false, Option, none, some, List, [], ◌∷◌, select, any, ◌≡◌, ◌≢◌, ◌↔◌, refl,
}
use runai_cli.Trainer.Search.{
  Trainer, found, failed, panicked, unknown_type, invalid_job, no_config_maps, more_than_one,
  is_known_training_type, get_training_job_by_type, by_name_loop, get_training_jobs_by_name,
  types_of_maps, get_training_types, search_training_job,
}
use runai_cli.Trainer.Search.Unique.{IsOnly, search_training_job-IsOnly}

abbrev trainer_of : String → Bool → Option ℕ → Trainer ℕ
trainer_of type supported job = record {
  type = type;
  is_supported = supported;
  get_training_job = job;
}

abbrev both : List (Trainer ℕ)
both = trainer_of "mpijob" false (some 1) ∷ trainer_of "runai" true (some 2) ∷ []

searching : Unit {0}
unfolding search_training_job is_known_training_type get_training_job_by_type by_name_loop
    get_training_jobs_by_name types_of_maps get_training_types select any
searching = tt

searches :
    (search_training_job both false (some []) "job" "" ≡ found 2)
    × (search_training_job both false (some []) "job" "mpijob" ≡ found 1)
    × (search_training_job both false (some []) "job" "spark" ≡ failed unknown_type)
    × (search_training_job (trainer_of "mpijob" true (some 1) ∷ both) false (some []) "job" ""
        ≡ failed more_than_one)
    × (search_training_job (trainer_of "runai" false none ∷ []) true (some []) "job" ""
        ≡ failed invalid_job)
    × (search_training_job (trainer_of "runai" false none ∷ []) true none "job" ""
        ≡ failed no_config_maps)
unfolding searching
searches = (refl, refl, refl, refl, refl, refl)

config_types :
    get_training_types "job" (some ("job-runai" ∷ "other" ∷ "job-mpijob" ∷ []))
    ≡ some ("mpijob" ∷ "runai" ∷ [])
unfolding searching
config_types = refl

search_training_job-IsOnly_example :
    ((search_training_job both false (some []) "job" "" ≡ found 2)
      ↔ IsOnly (select (λ t. t.is_supported) both) 2)
    × (search_training_job both false (some []) "job" "" ≢ panicked)
search_training_job-IsOnly_example = search_training_job-IsOnly both false (some []) "job" 2
