-- ===== src/Workflow/Installed.antt =====
-- What `SubmitJob` has done where it returns a job, and the files that it leaves.
use runai_cli.Prelude.{String, Bool, false, ◌≡◌, refl, ap}
use mathlib.Core.Path.{subst}
use runai_cli.Workflow.{ConfigMap, Outcome, failed, done, Cluster, submit_config_map}
use runai_cli.Workflow.Job.{
  JobFiles, Tools, cleanup_job_files, generate_job_files, content_of, named, populate_config_map,
  install_files, install_job, submit_job_internal, submit_job,
}
use runai_cli.Workflow.Chains.{and_then-done, asked-done}
use runai_cli.Workflow.Created.{IsCluster, IsNew, submit_config_map-IsNew}

named-done :
    {name : String} (o : Outcome String) {job : String}
    → named name o ≡ done job
    → (output : String) × (o ≡ done output) × (job ≡ name)
named-done (failed p) e = absurd (cc e)
named-done (done output) e = (output, refl, cc e)

module _ (cluster : Cluster) {Values : Type 0} (tools : Tools cluster.World Values) where
  open cluster use {World, update}
  open tools use {
    read_file, get_chart_name, get_chart_version, uninstall_apps_with_app_info_file, install_apps,
  }

  -- The config map and the files of a job in the world `s`, and the calls that have installed it.
  pub record IsInstalled (s : World) (m : ConfigMap) (values : Values) (chart : String) (t : World)
      : Type 0 where
    pub files : JobFiles
    pub generated : World
    pub generates : generate_job_files tools s m.name values chart ≡ (generated, done files)
    pub version : String
    pub values_text : String
    pub app : String
    pub has_version : get_chart_version generated chart ≡ done version
    pub reads_values : read_file generated files.value_file_name ≡ done values_text
    pub reads_app : read_file generated files.app_info_file_name ≡ done app
    pub updated : World
    pub updates :
        update generated
          (record m { content = content_of (get_chart_name chart) version values_text app })
        ≡ (updated, done tt)
    pub installed : World
    pub output : String
    pub installs :
        install_apps
          (uninstall_apps_with_app_info_file updated files.app_info_file_name).0
          files.template
        ≡ (installed, done output)
    pub left : t ≡ cleanup_job_files tools installed files

  -- From what `install_files` has done.
  record_of :
      (s : World) (m : ConfigMap) (values : Values) (chart : String) (v : World) (files : JobFiles)
      → generate_job_files tools s m.name values chart ≡ (v, done files)
      → {x : World} {output : String}
      → install_files cluster tools v m files chart ≡ (x, done output)
      → IsInstalled s m values chart (cleanup_job_files tools x files)
  unfolding install_files populate_config_map
  record_of s m values chart v files g {x} {output} e =
      let (version, has, e) = asked-done v (get_chart_version v chart) _ e in
      let (u, _, p, e) =
        and_then-done (populate_config_map cluster tools v m (get_chart_name chart) version files) _
          e in
      let (values_text, reads, p) = asked-done v (read_file v files.value_file_name) _ p in
      let (app, reads_app, p) = asked-done v (read_file v files.app_info_file_name) _ p in
      record {
        files = files;
        generated = v;
        generates = g;
        version = version;
        values_text = values_text;
        app = app;
        has_version = has;
        reads_values = reads;
        reads_app = reads_app;
        updated = u;
        updates = p;
        installed = x;
        output = output;
        installs = e;
        left = refl;
      }

  install_job-IsInstalled :
      (s : World) (m : ConfigMap) (values : Values) (chart : String) {t : World} {output : String}
      → install_job cluster tools s m values chart ≡ (t, done output)
      → IsInstalled s m values chart t
  unfolding install_job
  install_job-IsInstalled s m values chart e =
      let (v, files, g, e) = and_then-done (generate_job_files tools s m.name values chart) _ e in
      subst (IsInstalled s m values chart) (ap (λ c. c.0) e) (
        record_of s m values chart v files g {x = (install_files cluster tools v m files chart).0}
          (λ i. ((install_files cluster tools v m files chart).0, (ap (λ c. c.1) e) i)))

  -- If `SubmitJob` returns a job and it is no dry run, the job has the name of a config map that it has
  -- created. The files were made for this name, the config map got the version of the chart, the values
  -- and the app info from them, the template was installed after that, and the files were removed at
  -- the end.
  pub submit_job-IsInstalled :
      (laws : IsCluster cluster) (w : World) (name : String) (generate_suffix : Bool)
      (values : Values) (chart : String) {t : World} {job : String}
      → submit_job cluster tools w name generate_suffix values chart false ≡ (t, done job)
      → (s : World) × (m : ConfigMap) × IsNew cluster laws name generate_suffix s m
        × (job ≡ m.name)
        × IsInstalled s m values chart t
  unfolding submit_job submit_job_internal
  submit_job-IsInstalled laws w name generate_suffix values chart e =
      let (s, m, c, e) = and_then-done (submit_config_map cluster w name generate_suffix) _ e in
      let (output, q, same) =
        named-done (install_job cluster tools s m values chart).1 (ap (λ c. c.1) e) in
      (
        s,
        m,
        submit_config_map-IsNew cluster laws w name generate_suffix c,
        same,
        install_job-IsInstalled s m values chart (λ i. ((ap (λ c. c.0) e) i, q i)),
      )
