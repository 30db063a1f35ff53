-- ===== src/Workflow/Removal.antt =====
-- `DeleteJob` of pkg/workflow/workflow.go and the functions that it calls. Logging is left out; that the
-- message of success is printed is part of the result.
pub mod Printed
pub mod Kept
mod Tests
use Prim.Native.String
use runai_cli.Prelude.{
  String, Bool, true, false, Option, none, some, List, [], ◌∷◌, str_eq, if◌then◌else◌,
}
use runai_cli.Workflow.{ConfigMap, Problem, Outcome, failed, done, Call}

-- The types of `WorkloadType` that `DeleteJob` deletes.
pub data WorkloadType : Type 0 where
  mpi_workload_type : WorkloadType
  resource_type_deployment : WorkloadType
  resource_type_job : WorkloadType
  resource_type_stateful_set : WorkloadType
  resource_type_runai_job : WorkloadType
  resource_type_pod : WorkloadType

-- The calls of the cluster and of kubectl. `search_training_job` answers with the type of the workload.
pub record Deleter : Type 1 where
  pub World : Type 0
  pub get_config_map : World → String → Outcome ConfigMap
  pub save_app_config_map_to_file : World → String → Call World String
  pub uninstall_apps_with_app_info_file : World → String → Call World String
  pub delete_config_map : World → String → Call World (Unit {0})
  pub get_client : World → Outcome (Unit {0})
  pub search_training_job : World → String → Outcome String
  pub delete_workload : World → WorkloadType → String → Call World (Unit {0})
  pub delete_service : World → String → Call World (Unit {0})
  pub delete_ingress : World → String → Call World (Unit {0})

-- What is left, whether success has been printed, and the error.
pub record Deleted (World : Type 0) : Type 0 where
  pub world : World
  pub printed : Bool
  pub result : Outcome (Unit {0})

abbrev pub with_suffix : String → String → String
with_suffix name suffix = String.◌++◌ name (String.◌++◌ "-" suffix)

abbrev pub maybe_config_map_names : String → List String
maybe_config_map_names job_name =
    job_name ∷ with_suffix job_name "runai" ∷ with_suffix job_name "mpijob" ∷ []

-- The case that `switch` takes, where the type text is one of them.
abbrev pub kind_of : String → List (String × WorkloadType) → Option WorkloadType
kind_of text [] = none
kind_of text (entry ∷ entries) =
    let rest = kind_of text entries in if str_eq text entry.0 then some entry.1 else rest

abbrev pub workload_types : List (String × WorkloadType)
workload_types =
    ("MPIJob", mpi_workload_type)
    ∷ ("Deployment", resource_type_deployment)
    ∷ ("Job", resource_type_job)
    ∷ ("StatefulSet", resource_type_stateful_set)
    ∷ ("RunaiJob", resource_type_runai_job)
    ∷ ("Pod", resource_type_pod)
    ∷ []

module _ (deleter : Deleter) (not_found : Problem) where
  open deleter use {
    World, get_config_map, save_app_config_map_to_file, uninstall_apps_with_app_info_file,
    delete_config_map, get_client, search_training_job, delete_workload, delete_service,
    delete_ingress,
  }

  abbrev pub name_or : Outcome ConfigMap → Outcome String → Outcome String
  name_or (failed p) next = next
  name_or (done config_map) next = done config_map.name

  -- The loop over the names; `not_found` is the error of `GetJobDoesNotExistsInNamespaceError`.
  unfoldable pub first_config_map : World → List String → Outcome String
  first_config_map w [] = failed not_found
  first_config_map w (name ∷ names) = name_or (get_config_map w name) (first_config_map w names)

  unfoldable pub get_server_config_map_name_by_job : World → String → Outcome String
  unfolding first_config_map
  get_server_config_map_name_by_job w job_name =
      first_config_map w (maybe_config_map_names job_name)

  unfoldable pub delete_additional_job_resources : World → String → World
  delete_additional_job_resources w job_name =
      (delete_config_map (delete_ingress (delete_service w job_name).0 job_name).0 job_name).0

  -- An unexpected type leaves the error of the search, which is none.
  unfoldable pub delete_by_type : World → String → Option WorkloadType → Call World (Unit {0})
  delete_by_type w job_name none = (w, done tt)
  delete_by_type w job_name (some kind) = delete_workload w kind job_name

  abbrev pub is_failed : Outcome (Unit {0}) → Bool
  is_failed (failed p) = true
  is_failed (done a) = false

  -- From the answer of `SearchTrainingJob`.
  unfoldable pub after_search : World → String → Outcome String → Deleted World
  unfolding delete_additional_job_resources delete_by_type
  after_search w job_name (failed p) = record {
    world = delete_additional_job_resources w job_name;
    printed = false;
    result = failed not_found;
  }
  after_search w job_name (done text) =
      let c = delete_by_type w job_name (kind_of text workload_types) in
      record {
        world = delete_additional_job_resources c.0 job_name;
        printed = is_failed c.1;
        result = done tt;
      }

  unfoldable pub after_client : World → String → Outcome (Unit {0}) → Deleted World
  unfolding after_search
  after_client w job_name (failed p) = record { world = w; printed = false; result = failed p }
  after_client w job_name (done a) = after_search w job_name (search_training_job w job_name)

  unfoldable pub delete_job_resources_without_config_map : World → String → Deleted World
  unfolding after_client
  delete_job_resources_without_config_map w job_name = after_client w job_name (get_client w)

  unfoldable pub after_delete : Call World (Unit {0}) → Deleted World
  after_delete (w, failed p) = record { world = w; printed = false; result = failed p }
  after_delete (w, done a) = record { world = w; printed = true; result = done tt }

  unfoldable pub after_uninstall : String → String → Call World String → Deleted World
  unfolding delete_job_resources_without_config_map after_delete
  after_uninstall job_name config_map_name (w, failed p) =
      delete_job_resources_without_config_map w job_name
  after_uninstall job_name config_map_name (w, done output) =
      after_delete (delete_config_map w config_map_name)

  unfoldable pub after_save : String → String → Call World String → Deleted World
  unfolding delete_job_resources_without_config_map after_uninstall
  after_save job_name config_map_name (w, failed p) =
      delete_job_resources_without_config_map w job_name
  after_save job_name config_map_name (w, done file) =
      after_uninstall job_name config_map_name (uninstall_apps_with_app_info_file w file)

  unfoldable pub after_name : World → String → Outcome String → Deleted World
  unfolding delete_job_resources_without_config_map after_save
  after_name w job_name (failed p) = delete_job_resources_without_config_map w job_name
  after_name w job_name (done config_map_name) =
      after_save job_name config_map_name (save_app_config_map_to_file w config_map_name)

  unfoldable pub delete_job : World → String → Deleted World
  unfolding get_server_config_map_name_by_job after_name
  delete_job w job_name = after_name w job_name (get_server_config_map_name_by_job w job_name)
