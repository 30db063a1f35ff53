-- ===== src/Workflow/Job.antt =====
-- `SubmitJob` of pkg/workflow/workflow.go and the functions that it calls, but for `submitConfigMap`,
-- which is in Workflow. What is printed and logged is left out.
use runai_cli.Prelude.{
  Option, none, some, String, Bool, true, false, [], Map, assign, if◌then◌else◌,
}
use runai_cli.Workflow.{
  ConfigMap, Problem, Outcome, failed, done, Call, and_then, on_failure, Cluster, submit_config_map,
}

pub record JobFiles : Type 0 where
  pub value_file_name : String
  pub template : String
  pub app_info_file_name : String

-- The name of a file and an error, which is nil as `none`: with an error too a file may be there.
pub record Written (World : Type 0) : Type 0 where
  pub world : World
  pub file : String
  pub error : Option Problem

abbrev pub file_or : Option Problem → String → Outcome String
file_or none file = done file
file_or (some p) file = failed p

-- As the caller reads it, which looks at the name only where there is no error.
unfoldable pub taken : {World : Type 0} → Written World → Call World String
taken written = (written.world, file_or written.error written.file)

-- The files, and the tools helm and kubectl, on the world of a cluster and for the values of a chart.
pub record Tools (World Values : Type 0) : Type 0 where
  pub exists : World → String → Bool
  pub remove : World → String → Call World (Unit {0})
  pub read_file : World → String → Outcome String
  pub generate_value_file : World → Values → Written World
  pub generate_helm_template : World → String → String → String → Written World
  pub save_app_info : World → String → Written World
  pub get_chart_name : String → String
  pub get_chart_version : World → String → Outcome String
  pub uninstall_apps_with_app_info_file : World → String → Call World String
  pub install_apps : World → String → Call World String

module _ {World Values : Type 0} (tools : Tools World Values) where
  open tools use {exists, remove, generate_value_file, generate_helm_template, save_app_info}

  unfoldable pub cleanup_single_file : World → String → World
  cleanup_single_file w file = if exists w file then (remove w file).0 else w

  unfoldable pub cleanup_job_files : World → JobFiles → World
  unfolding cleanup_single_file
  cleanup_job_files w files =
      cleanup_single_file
        (cleanup_single_file (cleanup_single_file w files.value_file_name) files.template)
        files.app_info_file_name

  unfoldable pub generate_job_files : World → String → Values → String → Call World JobFiles
  unfolding and_then on_failure cleanup_single_file
  generate_job_files w name values chart =
      and_then (taken (generate_value_file w values)) (λ w value_file_name.
        and_then
          (on_failure (taken (generate_helm_template w name value_file_name chart))
            (λ w. cleanup_single_file w value_file_name))
          (λ w template.
            and_then
              (on_failure (taken (save_app_info w template))
                (λ w. cleanup_single_file (cleanup_single_file w template) value_file_name))
              (λ w app_info_file_name. (
                w,
                done (record {
                  value_file_name = value_file_name;
                  template = template;
                  app_info_file_name = app_info_file_name;
                }),
              ))))

-- `data` of `populateConfigMap`.
abbrev pub content_of : String → String → String → String → Map String
content_of chart_name chart_version values app =
    assign (assign (assign [] chart_name chart_version) "values" values) "app" app

-- The answer of `submitJobInternal` as `SubmitJob` passes it on.
abbrev pub named : String → Outcome String → Outcome String
named name (failed p) = failed p
named name (done output) = done name

module _ (cluster : Cluster) {Values : Type 0} (tools : Tools cluster.World Values) where
  open cluster use {World, update}
  open tools use {
    read_file, get_chart_name, get_chart_version, uninstall_apps_with_app_info_file, install_apps,
  }

  unfoldable pub populate_config_map :
      World → ConfigMap → String → String → JobFiles → Call World (Unit {0})
  unfolding and_then assign
  populate_config_map w config_map chart_name chart_version files =
      and_then (w, read_file w files.value_file_name)
        (λ w values.
          and_then (w, read_file w files.app_info_file_name)
            (λ w app.
              update w
                (record config_map { content = content_of chart_name chart_version values app })))

  -- What `submitJobInternal` does with the files, before it removes them.
  unfoldable pub install_files : World → ConfigMap → JobFiles → String → Call World String
  unfolding and_then populate_config_map
  install_files w config_map files chart =
      and_then (w, get_chart_version w chart)
        (λ w chart_version.
          and_then (populate_config_map w config_map (get_chart_name chart) chart_version files)
            (λ w _.
              install_apps (uninstall_apps_with_app_info_file w files.app_info_file_name).0
                files.template))

  abbrev pub cleaned : Call World String → JobFiles → Call World String
  cleaned c files = (cleanup_job_files tools c.0 files, c.1)

  unfoldable pub install_job : World → ConfigMap → Values → String → Call World String
  unfolding and_then generate_job_files install_files
  install_job w config_map values chart =
      and_then (generate_job_files tools w config_map.name values chart)
        (λ w files. cleaned (install_files w config_map files chart) files)

  unfoldable pub submit_job_internal : World → String → Bool → Values → String → Call World String
  unfolding and_then submit_config_map install_job
  submit_job_internal w name generate_suffix values chart =
      and_then (submit_config_map cluster w name generate_suffix) (λ w config_map.
        let c = install_job w config_map values chart in (c.0, named config_map.name c.1))

  unfoldable pub submit_job : World → String → Bool → Values → String → Bool → Call World String
  unfolding and_then generate_job_files submit_job_internal
  submit_job w name generate_suffix values chart true =
      and_then (generate_job_files tools w name values chart) (λ w files. (w, done ""))
  submit_job w name generate_suffix values chart false =
      submit_job_internal w name generate_suffix values chart
