-- ===== src/Workflow/Removal/Tests.antt =====
-- Deletions on a list of the names of config maps.
use runai_cli.Prelude.{
  String, Bool, true, false, not, List, [], ◌∷◌, select, any, Elem, str_eq, eq_iff, ◌≡◌, refl, inl,
  inr, arith, if◌then◌else◌,
}
use runai_cli.Workflow.{ConfigMap, Problem, reported, Outcome, failed, done}
use runai_cli.Workflow.Removal.{
  Deleter, first_config_map, get_server_config_map_name_by_job, delete_by_type,
  delete_additional_job_resources, after_search, after_client,
  delete_job_resources_without_config_map, after_delete, after_uninstall, after_save, after_name,
  delete_job, maybe_config_map_names,
}
use runai_cli.Workflow.Removal.Printed.{IsReported, without_config_map-IsReported}
use runai_cli.Workflow.Removal.Kept.{IsKeeping, delete_job_keeps}

abbrev map_of : String → ConfigMap
map_of name = record { name = name; labels = []; content = [] }

abbrev without : List String → String → List String
without names name = select (λ n. not (str_eq n name)) names

-- A workload cannot be deleted; the search finds a job of each name.
abbrev names_only : Deleter
names_only = record {
  World = List String;
  get_config_map = λ names name.
      if any (str_eq name) names then done (map_of name) else failed (reported "not found");
  save_app_config_map_to_file = λ names name. (names, done name);
  uninstall_apps_with_app_info_file = λ names file. (names, done "");
  delete_config_map = λ names name. (without names name, done tt);
  get_client = λ names. done tt;
  search_training_job = λ names name. done "Job";
  delete_workload = λ names kind name. (names, failed (reported "forbidden"));
  delete_service = λ names name. (names, done tt);
  delete_ingress = λ names name. (names, done tt);
}

abbrev not_there : Problem
not_there = reported "The job does not exist"

deleting : Unit {0}
unfolding first_config_map get_server_config_map_name_by_job delete_by_type
    delete_additional_job_resources after_search after_client
    delete_job_resources_without_config_map after_delete after_uninstall after_save after_name
    delete_job select any
deleting = tt

deletes :
    delete_job names_only not_there ("a" ∷ "b" ∷ []) "a"
    ≡ record { world = "b" ∷ []; printed = true; result = done tt }
unfolding deleting
deletes = refl

-- The config map of another job, which is named `a-runai`.
deletes_other :
    delete_job names_only not_there ("a-runai" ∷ []) "a"
    ≡ record { world = []; printed = true; result = done tt }
unfolding deleting
deletes_other = refl

-- The workload could not be deleted.
prints_success :
    delete_job names_only not_there [] "a" ≡ record { world = []; printed = true; result = done tt }
unfolding deleting
prints_success = refl

without_config_map-IsReported_example :
    IsReported names_only not_there [] "a"
      (done tt)
      (done "Job")
      (delete_job_resources_without_config_map names_only not_there [] "a")
without_config_map-IsReported_example = without_config_map-IsReported names_only not_there [] "a"

abbrev IsThere : List String → Type 0
IsThere names = any (str_eq "b") names ≡ true

abbrev IsOther : String → Type 0
IsOther name = str_eq "b" name ≡ false

without_other :
    (names : List String) (name : String)
    → IsOther name
    → IsThere names
    → IsThere (without names name)
unfolding any select
without_other [] name other h = h
without_other (n ∷ names) name other h =
    ground (arith, without_other names name other, eq_iff "b" n, eq_iff "b" name, eq_iff n name)

found_name :
    (b : Bool) (name : String) {m : ConfigMap}
    → ◌≡◌ {A = Outcome ConfigMap}
        (if b then done (map_of name) else failed (reported "not found"))
        (done m)
    → m.name ≡ name
found_name true name e = cc e
found_name false name e = absurd (cc e)

names_only-IsKeeping : IsKeeping names_only IsOther IsThere
names_only-IsKeeping = record {
  get_names = λ e. found_name _ _ e;
  save_keeps = λ w name h. h;
  uninstall_keeps = λ w file h. h;
  config_map_keeps = λ w name other h. without_other w name other h;
  workload_keeps = λ w kind name h. h;
  service_keeps = λ w name h. h;
  ingress_keeps = λ w name h. h;
}

not_b : (name : String) → Elem name (maybe_config_map_names "a") → IsOther name
not_b name (inl e) = rw e refl
not_b name (inr (inl e)) = rw e refl
not_b name (inr (inr (inl e))) = rw e refl
not_b name (inr (inr (inr h))) = absurd h

holds_b : IsThere ("a" ∷ "b" ∷ [])
unfolding any
holds_b = refl

delete_job_keeps_example : IsThere (delete_job names_only not_there ("a" ∷ "b" ∷ []) "a").world
delete_job_keeps_example =
    delete_job_keeps names_only not_there IsOther IsThere names_only-IsKeeping ("a" ∷ "b" ∷ []) "a"
      not_b holds_b
