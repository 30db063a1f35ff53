-- ===== src/Workflow/Stays.antt =====
-- The config map of a job stays in the cluster where its submission fails later on.
use runai_cli.Prelude.{
  String, true, false, none, some, str_eq, eq_iff, ◌≡◌, ◌≢◌, refl, ap, ◌∙◌, inl, inr, Bool-cases,
  Option-cases,
}
use runai_cli.Workflow.{
  ConfigMap, failed, done, Cluster, and_then, or_else, on_failure, empty_config_map,
  get_config_map_name, after_first, submit_config_map, job_exists,
}
use runai_cli.Workflow.Job.{
  taken, JobFiles, Tools, cleanup_single_file, cleanup_job_files, generate_job_files,
  populate_config_map, install_files, install_job, submit_job_internal, submit_job,
}
use runai_cli.Workflow.Chains.{and_then_keeps, on_failure_keeps}
use runai_cli.Workflow.Created.{IsCluster, submit_config_map-IsNew}
use runai_cli.Workflow.Free.{IsAvailable}

module _ (cluster : Cluster) {Values : Type 0} (tools : Tools cluster.World Values) where
  open cluster use {World, find, update, meanwhile}
  open tools use {
    remove, read_file, generate_value_file, generate_helm_template, save_app_info, get_chart_name,
    get_chart_version, uninstall_apps_with_app_info_file, install_apps,
  }

  abbrev pub IsHeld : String → World → Type 0
  IsHeld name w = find w name ≢ none

  -- The tools delete no config map of this name, and an update does not either.
  pub record IsKeeping (name : String) : Type 0 where
    pub update_keeps : (w : World) (m : ConfigMap) → IsHeld name w → IsHeld name (update w m).0
    pub remove_keeps : (w : World) (file : String) → IsHeld name w → IsHeld name (remove w file).0
    pub values_keep :
        (w : World) (values : Values)
        → IsHeld name w
        → IsHeld name (generate_value_file w values).world
    pub template_keeps :
        (w : World) (job file chart : String)
        → IsHeld name w
        → IsHeld name (generate_helm_template w job file chart).world
    pub save_keeps :
        (w : World) (file : String) → IsHeld name w → IsHeld name (save_app_info w file).world
    pub uninstall_keeps :
        (w : World) (file : String)
        → IsHeld name w
        → IsHeld name (uninstall_apps_with_app_info_file w file).0
    pub install_keeps :
        (w : World) (file : String) → IsHeld name w → IsHeld name (install_apps w file).0

  module _ (name : String) (laws : IsKeeping name) where
    cleanup_keeps :
        (file : String) (w : World) → IsHeld name w → IsHeld name (cleanup_single_file tools w file)
    unfolding cleanup_single_file
    cleanup_keeps file w h = elim (Bool-cases (tools.exists w file)) [
      | inl e ↦ rw e (laws.remove_keeps w file h)
      | inr e ↦ rw e h
    ]

    generate_keeps :
        (w : World) (job : String) (values : Values) (chart : String)
        → IsHeld name w
        → IsHeld name (generate_job_files tools w job values chart).0
    unfolding generate_job_files taken
    generate_keeps w job values chart h =
        and_then_keeps (IsHeld name) (taken (generate_value_file w values)) _
          (laws.values_keep w values h)
          (λ u vf k.
            and_then_keeps (IsHeld name)
              (on_failure (taken (generate_helm_template u job vf chart))
                (λ w. cleanup_single_file tools w vf))
              _
              (on_failure_keeps (IsHeld name) (taken (generate_helm_template u job vf chart))
                (λ w. cleanup_single_file tools w vf) (laws.template_keeps u job vf chart k)
                (cleanup_keeps vf))
              (λ v t l.
                and_then_keeps (IsHeld name)
                  (on_failure (taken (save_app_info v t))
                    (λ w. cleanup_single_file tools (cleanup_single_file tools w t) vf))
                  _
                  (on_failure_keeps (IsHeld name) (taken (save_app_info v t))
                    (λ w. cleanup_single_file tools (cleanup_single_file tools w t) vf)
                    (laws.save_keeps v t l) (λ w i. cleanup_keeps vf _ (cleanup_keeps t w i)))
                  (λ x a i. i)))

    install_files_keeps :
        (w : World) (m : ConfigMap) (files : JobFiles) (chart : String)
        → IsHeld name w
        → IsHeld name (install_files cluster tools w m files chart).0
    unfolding install_files populate_config_map
    install_files_keeps w m files chart h =
        and_then_keeps (IsHeld name) (w, get_chart_version w chart) _ h
          (λ u version k.
            and_then_keeps (IsHeld name)
              (populate_config_map cluster tools u m (get_chart_name chart) version files) _
              (and_then_keeps (IsHeld name) (u, read_file u files.value_file_name) _ k
                (λ v values l.
                  and_then_keeps (IsHeld name) (v, read_file v files.app_info_file_name) _ l
                    (λ x app i. laws.update_keeps x _ i)))
              (λ v _ l.
                laws.install_keeps _ files.template
                  (laws.uninstall_keeps v files.app_info_file_name l)))

    install_job_keeps :
        (w : World) (m : ConfigMap) (values : Values) (chart : String)
        → IsHeld name w
        → IsHeld name (install_job cluster tools w m values chart).0
    unfolding install_job cleanup_job_files
    install_job_keeps w m values chart h =
        and_then_keeps (IsHeld name) (generate_job_files tools w m.name values chart) _
          (generate_keeps w m.name values chart h)
          (λ v files k. cleanup_keeps files.app_info_file_name _ (
            cleanup_keeps files.template _
              (cleanup_keeps files.value_file_name _ (install_files_keeps v m files chart k))))

    refused :
        (available : IsAvailable cluster) (t : World) (values : Values) (chart : String)
        → IsHeld name t
        → submit_job cluster tools t name false values chart false ≡ (t, failed (job_exists name))
    unfolding submit_job submit_job_internal submit_config_map or_else and_then after_first
        get_config_map_name
    refused available t values chart held = elim (Option-cases (find t name)) [
      | inl e ↦ absurd (held e)
      | inr (old, e) ↦
          let q = available.create_taken t (empty_config_map name name 0) e in
          rw (available.nobody_else 0 t, q) refl
    ]

    created-IsHeld :
        (cluster_laws : IsCluster cluster) (w : World) {s : World} {m : ConfigMap}
        → submit_config_map cluster w name false ≡ (s, done m)
        → IsHeld name s
    unfolding get_config_map_name
    created-IsHeld cluster_laws w {s} {m} e none_left =
        let (u, index, (_, after), q, _) =
          submit_config_map-IsNew cluster cluster_laws w name false e in
        let same : str_eq m.name name ≡ true = (eq_iff m.name name).1 (ap (λ x. x.name) q) in
        let there : find s name ≡ some m = after name ∙ rw same refl in
        absurd (cc (there, none_left))

    submitted_keeps :
        (cluster_laws : IsCluster cluster) (w : World) (values : Values) (chart : String)
        {s : World} {m : ConfigMap}
        → submit_config_map cluster w name false ≡ (s, done m)
        → IsHeld name (submit_job cluster tools w name false values chart false).0
    unfolding submit_job submit_job_internal and_then
    submitted_keeps cluster_laws w values chart {s} {m} e =
        rw e (install_job_keeps s m values chart (created-IsHeld cluster_laws w e))

    -- Once a submission without generated suffix has created its config map, the name is taken, however
    -- the submission ends: it does not remove the config map where helm or kubectl fails, and each
    -- further submission of the name is refused as a job that exists already and changes nothing.
    pub submit_job-job_exists :
        (cluster_laws : IsCluster cluster) (available : IsAvailable cluster) (w : World)
        (values again : Values) (chart other_chart : String) {s : World} {m : ConfigMap}
        → submit_config_map cluster w name false ≡ (s, done m)
        → let t = (submit_job cluster tools w name false values chart false).0 in
          submit_job cluster tools t name false again other_chart false
          ≡ (t, failed (job_exists name))
    submit_job-job_exists cluster_laws available w values again chart other_chart e =
        refused available _ again other_chart (submitted_keeps cluster_laws w values chart e)
