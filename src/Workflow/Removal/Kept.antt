-- ===== src/Workflow/Removal/Kept.antt =====
-- What `DeleteJob` leaves alone.
use runai_cli.Prelude.{
  String, List, [], ◌∷◌, Elem, Option, none, some, ◌≡◌, refl, sym, ◌∙◌, ◌⊎◌, inl, inr,
}
use runai_cli.Workflow.{ConfigMap, Problem, Outcome, failed, done, Call}
use runai_cli.Workflow.Removal.{
  Deleter, WorkloadType, name_or, first_config_map, maybe_config_map_names,
  get_server_config_map_name_by_job, kind_of, workload_types, delete_by_type,
  delete_additional_job_resources, after_search, after_client,
  delete_job_resources_without_config_map, after_delete, after_uninstall, after_save, after_name,
  delete_job,
}

-- The calls keep what `Holds` says of a config map, but for the deletion of one that is not `IsOther`.
pub record IsKeeping (deleter : Deleter) (IsOther : String → Type 0)
    (Holds : deleter.World → Type 0) : Type 0 where
  pub get_names :
      {w : deleter.World} {name : String} {m : ConfigMap}
      → deleter.get_config_map w name ≡ done m
      → m.name ≡ name
  pub save_keeps :
      (w : deleter.World) (name : String)
      → Holds w
      → Holds (deleter.save_app_config_map_to_file w name).0
  pub uninstall_keeps :
      (w : deleter.World) (file : String)
      → Holds w
      → Holds (deleter.uninstall_apps_with_app_info_file w file).0
  pub config_map_keeps :
      (w : deleter.World) (name : String)
      → IsOther name
      → Holds w
      → Holds (deleter.delete_config_map w name).0
  pub workload_keeps :
      (w : deleter.World) (kind : WorkloadType) (name : String)
      → Holds w
      → Holds (deleter.delete_workload w kind name).0
  pub service_keeps :
      (w : deleter.World) (name : String) → Holds w → Holds (deleter.delete_service w name).0
  pub ingress_keeps :
      (w : deleter.World) (name : String) → Holds w → Holds (deleter.delete_ingress w name).0

module _ (deleter : Deleter) (not_found : Problem) (IsOther : String → Type 0)
    (Holds : deleter.World → Type 0) (laws : IsKeeping deleter IsOther Holds) where
  open deleter use {World}

  additional_keeps :
      (w : World) (job_name : String)
      → IsOther job_name
      → Holds w
      → Holds (delete_additional_job_resources deleter not_found w job_name)
  unfolding delete_additional_job_resources
  additional_keeps w job_name other h =
      laws.config_map_keeps _ job_name other
        (laws.ingress_keeps _ job_name (laws.service_keeps w job_name h))

  type_keeps :
      (w : World) (job_name : String) (kind : Option WorkloadType)
      → Holds w
      → Holds (delete_by_type deleter not_found w job_name kind).0
  unfolding delete_by_type
  type_keeps w job_name none h = h
  type_keeps w job_name (some kind) h = laws.workload_keeps w kind job_name h

  search_keeps :
      (w : World) (job_name : String) (answer : Outcome String)
      → IsOther job_name
      → Holds w
      → Holds (after_search deleter not_found w job_name answer).world
  unfolding after_search
  search_keeps w job_name (failed p) other h = additional_keeps w job_name other h
  search_keeps w job_name (done text) other h =
      additional_keeps _ job_name other (type_keeps w job_name (kind_of text workload_types) h)

  client_keeps :
      (w : World) (job_name : String) (answer : Outcome (Unit {0}))
      → IsOther job_name
      → Holds w
      → Holds (after_client deleter not_found w job_name answer).world
  unfolding after_client
  client_keeps w job_name (failed p) other h = h
  client_keeps w job_name (done a) other h = search_keeps w job_name _ other h

  without_keeps :
      (w : World) (job_name : String)
      → IsOther job_name
      → Holds w
      → Holds (delete_job_resources_without_config_map deleter not_found w job_name).world
  unfolding delete_job_resources_without_config_map
  without_keeps w job_name other h = client_keeps w job_name _ other h

  delete_keeps :
      (c : Call World (Unit {0})) → Holds c.0 → Holds (after_delete deleter not_found c).world
  unfolding after_delete
  delete_keeps (w, failed p) h = h
  delete_keeps (w, done a) h = h

  uninstall_keeps :
      (job_name name : String) (c : Call World String)
      → IsOther job_name
      → IsOther name
      → Holds c.0
      → Holds (after_uninstall deleter not_found job_name name c).world
  unfolding after_uninstall
  uninstall_keeps job_name name (w, failed p) other q h = without_keeps w job_name other h
  uninstall_keeps job_name name (w, done output) other q h =
      delete_keeps _ (laws.config_map_keeps w name q h)

  save_keeps :
      (job_name name : String) (c : Call World String)
      → IsOther job_name
      → IsOther name
      → Holds c.0
      → Holds (after_save deleter not_found job_name name c).world
  unfolding after_save
  save_keeps job_name name (w, failed p) other q h = without_keeps w job_name other h
  save_keeps job_name name (w, done file) other q h =
      uninstall_keeps job_name name _ other q (laws.uninstall_keeps w file h)

  name_or-done :
      (o : Outcome ConfigMap) (next : Outcome String) {name : String}
      → name_or deleter not_found o next ≡ done name
      → ((m : ConfigMap) × (o ≡ done m) × (m.name ≡ name)) ⊎ (next ≡ done name)
  name_or-done (failed p) next e = inr e
  name_or-done (done m) next e = inl (m, refl, cc e)

  -- The name that is found is one of those that are tried.
  first_config_map-Elem :
      (w : World) (names : List String) {name : String}
      → first_config_map deleter not_found w names ≡ done name
      → Elem name names
  unfolding first_config_map
  first_config_map-Elem w [] e = absurd (cc e)
  first_config_map-Elem w (n ∷ names) e =
      elim (name_or-done _ (first_config_map deleter not_found w names) e) [
        | inl (m, q, same) ↦ inl (sym same ∙ laws.get_names q)
        | inr f ↦ inr (first_config_map-Elem w names f)
      ]

  name_keeps :
      (w : World) (job_name : String) (answer : Outcome String)
      → IsOther job_name
      → ((name : String) → answer ≡ done name → IsOther name)
      → Holds w
      → Holds (after_name deleter not_found w job_name answer).world
  unfolding after_name
  name_keeps w job_name (failed p) other q h = without_keeps w job_name other h
  name_keeps w job_name (done name) other q h =
      save_keeps job_name name _ other (q name refl) (laws.save_keeps w name h)

  -- Whatever `DeleteJob` comes to, it leaves every config map alone but those with the name of the job
  -- and with `-runai` or `-mpijob` behind it, if the calls of kubectl and of the cluster delete no
  -- other ones.
  pub delete_job_keeps :
      (w : World) (job_name : String)
      → ((name : String) → Elem name (maybe_config_map_names job_name) → IsOther name)
      → Holds w
      → Holds (delete_job deleter not_found w job_name).world
  unfolding delete_job get_server_config_map_name_by_job
  delete_job_keeps w job_name others h =
      name_keeps w job_name (first_config_map deleter not_found w (maybe_config_map_names job_name))
        (others job_name (inl refl))
        (λ name e. others name (first_config_map-Elem w (maybe_config_map_names job_name) e)) h
