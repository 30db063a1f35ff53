-- ===== src/Trainer/Search.antt =====
-- Finding one job by its name, with or without its type: `SearchTrainingJob` of
-- cmd/trainer/trainer_common.go with what it calls. What a trainer answers for the name is a field of
-- it, and what the cluster answers is an argument, where `none` is an error.
pub mod Unique
mod Tests
use Prim.Native.String
use runai_cli.Prelude.{
  String, Bool, true, false, not, Option, none, some, List, [], ◌∷◌, ◌++◌, str_eq, any, select,
  if◌then◌else◌,
}

abbrev pub known_training_types : List String
known_training_types = "mpijob" ∷ "runai" ∷ []

pub data SearchError : Type 0 where
  of_trainer unknown_type no_trainer invalid_job no_such_job no_config_maps more_than_one :
      SearchError

-- A trainer, with what it answers for the name and the namespace of the search.
pub record Trainer (Job : Type 0) : Type 0 where
  pub type : String
  pub is_supported : Bool
  pub get_training_job : Option Job

pub data Found (Job : Type 0) : Type 0 where
  found : Job → Found Job
  failed : SearchError → Found Job
  panicked : Found Job

unfoldable pub is_known_training_type : String → Bool
unfolding any
is_known_training_type type = any (str_eq type) known_training_types

module _ {Job : Type 0} where
  abbrev pub found_or_failed : Option Job → Found Job
  found_or_failed none = failed of_trainer
  found_or_failed (some job) = found job

  unfoldable pub get_training_job_by_type : List (Trainer Job) → String → Found Job
  get_training_job_by_type [] type = failed no_trainer
  get_training_job_by_type (trainer ∷ trainers) type =
      let rest = get_training_job_by_type trainers type in
      if str_eq trainer.type type then found_or_failed trainer.get_training_job else rest

  -- The loop over the trainers: the jobs so far, and the answer of the next trainer; `none` is its error.
  unfoldable pub by_name_loop : List Job → List (Trainer Job) → Option (List Job)
  by_name_loop jobs [] = some jobs
  by_name_loop jobs (trainer ∷ trainers) = elim trainer.is_supported [
    | false ↦ by_name_loop jobs trainers
    | true ↦ elim trainer.get_training_job [
      | none ↦ none
      | some job ↦ by_name_loop (jobs ++ job ∷ []) trainers
    ]
  ]

  -- Whether there is a config map of the job's name tells what a missing job is.
  abbrev pub jobs_or_error : Bool → Option (List Job) → Found (List Job)
  jobs_or_error config_map none = failed of_trainer
  jobs_or_error config_map (some []) = if config_map then failed invalid_job else failed no_such_job
  jobs_or_error config_map (some (job ∷ jobs)) = found (job ∷ jobs)

  unfoldable pub get_training_jobs_by_name : Bool → List (Trainer Job) → Found (List Job)
  unfolding by_name_loop
  get_training_jobs_by_name config_map trainers =
      jobs_or_error config_map (by_name_loop [] trainers)

-- The types for which a config map of the job is listed, one for each such map.
unfoldable pub types_of_maps : String → List String → List String → List String
unfolding select
types_of_maps name maps [] = []
types_of_maps name maps (type ∷ types) =
    copies type (select (str_eq (String.◌++◌ name (String.◌++◌ "-" type))) maps)
    ++ types_of_maps name maps types
  where
    copies : String → List String → List String
    copies type [] = []
    copies type (map ∷ maps) = type ∷ copies type maps

unfoldable pub get_training_types : String → Option (List String) → Option (List String)
unfolding types_of_maps
get_training_types name none = none
get_training_types name (some maps) = some (types_of_maps name maps known_training_types)

module _ {Job : Type 0} where
  -- Of several jobs none is taken; the types that config maps tell only make a warning.
  abbrev pub the_only : Option (List String) → Found (List Job) → Found Job
  the_only none (failed e) = failed no_config_maps
  the_only (some types) (failed e) = failed e
  the_only none panicked = panicked
  the_only (some types) panicked = panicked
  the_only types (found []) = panicked
  the_only types (found (job ∷ [])) = found job
  the_only types (found (job ∷ (other ∷ jobs))) = failed more_than_one

  unfoldable pub search_training_job :
      List (Trainer Job) → Bool → Option (List String) → String → String → Found Job
  unfolding get_training_job_by_type get_training_jobs_by_name get_training_types
      is_known_training_type
  search_training_job trainers config_map maps name type =
      if not (str_eq type "")
      then (if is_known_training_type type
          then get_training_job_by_type trainers type
          else failed unknown_type)
      else the_only (get_training_types name maps) (get_training_jobs_by_name config_map trainers)
