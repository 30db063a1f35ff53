-- ===== src/Workflow/Removal/Printed.antt =====
-- When `deleteJobResourcesWithoutConfigMap` returns an error, and when it prints success.
use runai_cli.Prelude.{String, true, ◌≡◌, ◌↔◌, refl, sym}
use mathlib.Core.Path.{subst}
use runai_cli.Workflow.{Problem, Outcome, failed, done}
use runai_cli.Workflow.Removal.{
  Deleter, Deleted, kind_of, workload_types, is_failed, delete_by_type, after_search, after_client,
  delete_job_resources_without_config_map,
}

module _ (deleter : Deleter) (not_found : Problem) where
  open deleter use {World, get_client, search_training_job}

  -- The client is there, and the search has found a job, with this type.
  abbrev pub IsFoundAs : World → String → String → Type 0
  IsFoundAs w job_name text =
      (get_client w ≡ done tt) × (search_training_job w job_name ≡ done text)

  -- When there is no error, and when success is printed, for what the client and the search answer.
  pub record IsReported (w : World) (job_name : String) (client : Outcome (Unit {0}))
      (search : Outcome String) (d : Deleted World) : Type 0 where
    pub error_iff :
        (d.result ≡ done tt) ↔ ((text : String) × (client ≡ done tt) × (search ≡ done text))
    pub printed_iff : (d.printed ≡ true) ↔ (
        (text : String) × (client ≡ done tt)
        × (search ≡ done text)
        × (is_failed deleter not_found
              (delete_by_type deleter not_found w job_name (kind_of text workload_types)).1
            ≡ true))

  search-IsReported :
      (w : World) (job_name : String) (search : Outcome String)
      → IsReported w job_name (done tt) search (after_search deleter not_found w job_name search)
  unfolding after_search
  search-IsReported w job_name (failed p) = record {
    error_iff = (λ e. absurd (cc e), λ h. absurd (cc h.2));
    printed_iff = (λ e. absurd (cc e), λ h. absurd (cc h.2));
  }
  search-IsReported w job_name (done text) = record {
    error_iff = (λ e. (text, refl, refl), λ h. refl);
    printed_iff = (
      λ e. (text, refl, refl, e),
      λ (other, _, q, f).
          let same : text ≡ other = cc q in
          subst
            (λ x.
              is_failed deleter not_found
                (delete_by_type deleter not_found w job_name (kind_of x workload_types)).1
              ≡ true)
            (sym same) f,
    );
  }

  client-IsReported :
      (w : World) (job_name : String) (client : Outcome (Unit {0}))
      → IsReported w job_name client
          (search_training_job w job_name)
          (after_client deleter not_found w job_name client)
  unfolding after_client
  client-IsReported w job_name (failed p) = record {
    error_iff = (λ e. absurd (cc e), λ h. absurd (cc h.1));
    printed_iff = (λ e. absurd (cc e), λ h. absurd (cc h.1));
  }
  client-IsReported w job_name (done tt) =
      search-IsReported w job_name (search_training_job w job_name)

  -- Where a job is deleted without its config map, no error is returned exactly if the job has been
  -- found, whatever its deletion comes to, and success is printed exactly if the job has been found and
  -- its deletion has failed.
  pub without_config_map-IsReported :
      (w : World) (job_name : String)
      → IsReported w job_name
          (get_client w)
          (search_training_job w job_name)
          (delete_job_resources_without_config_map deleter not_found w job_name)
  unfolding delete_job_resources_without_config_map
  without_config_map-IsReported w job_name = client-IsReported w job_name (get_client w)
