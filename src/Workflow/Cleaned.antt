-- ===== src/Workflow/Cleaned.antt =====
-- The files that a submission leaves.
use runai_cli.Prelude.{
  String, true, false, List, [], ◌∷◌, All, str_eq, eq_iff, if◌then◌else◌, ◌≡◌, ◌≢◌, none, some,
  arith, ap, refl, sym, ◌∙◌, inl, inr, Bool-cases,
}
use mathlib.Core.Path.{subst}
use runai_cli.Workflow.{
  ConfigMap, Problem, Outcome, failed, done, Call, Cluster, and_then, on_failure,
}
use runai_cli.Workflow.Job.{
  JobFiles, Tools, Written, taken, cleanup_single_file, cleanup_job_files, generate_job_files,
  install_files, install_job, cleaned,
}
use runai_cli.Workflow.Chains.{Call-cases}

module _ {World Values : Type 0} (tools : Tools World Values) where
  open tools use {exists, remove, generate_value_file, generate_helm_template, save_app_info}

  -- What the file system promises: a file that is there can be removed, and no other one goes or comes.
  pub record IsFileSystem : Type 0 where
    pub removes :
        (w : World) (file other : String)
        → exists w file ≡ true
        → exists (remove w file).0 other ≡ (if str_eq file other then false else exists w other)

  abbrev pub IsGone : String → World → Type 0
  IsGone file w = exists w file ≡ false

  -- The files of the calls of `generateJobFiles` that end without an error.
  abbrev pub made_then : Outcome String → (String → List String) → List String
  made_then (failed p) more = []
  made_then (done file) more = file ∷ more file

  abbrev pub made_files : World → String → Values → String → List String
  made_files w name values chart =
      let a = taken (generate_value_file w values) in
      made_then a.1 (λ value_file_name.
        let b = taken (generate_helm_template a.0 name value_file_name chart) in
        made_then b.1
          (λ template. made_then (taken (save_app_info b.0 template)).1 (λ app_info_file_name. [])))

  module _ (laws : IsFileSystem) where
    cleanup-gone :
        (file : String) (w : World) → exists (cleanup_single_file tools w file) file ≡ false
    unfolding cleanup_single_file
    cleanup-gone file w = elim (Bool-cases (exists w file)) [
      | inl e ↦ rw e (laws.removes w file file e ∙ rw ((eq_iff file file).1 refl) refl)
      | inr e ↦ rw e e
    ]

    cleanup_stays :
        (file other : String) (w : World)
        → exists w other ≡ false
        → exists (cleanup_single_file tools w file) other ≡ false
    unfolding cleanup_single_file
    cleanup_stays file other w h = elim (Bool-cases (exists w file)) [
      | inl e ↦ rw e (
          laws.removes w file other e
          ∙ elim (Bool-cases (str_eq file other)) [ inl q ↦ rw q refl | inr q ↦ rw (q, h) refl ])
      | inr e ↦ rw e h
    ]

    cleanup_keeps_other :
        (file other : String) (w : World)
        → other ≢ file
        → exists w other ≡ true
        → exists (cleanup_single_file tools w file) other ≡ true
    unfolding cleanup_single_file
    cleanup_keeps_other file other w n h = elim (Bool-cases (exists w file)) [
      | inl e ↦
          let no : str_eq file other ≡ false = ground (arith, n, eq_iff file other) in
          rw e (laws.removes w file other e ∙ rw (no, h) refl)
      | inr e ↦ rw e h
    ]

    cleanup_job_files-IsGone :
        (files : JobFiles) (w : World)
        → IsGone files.value_file_name (cleanup_job_files tools w files)
          × IsGone files.template (cleanup_job_files tools w files)
          × IsGone files.app_info_file_name (cleanup_job_files tools w files)
    unfolding cleanup_job_files
    cleanup_job_files-IsGone files w =
        let u = cleanup_single_file tools w files.value_file_name in
        let v = cleanup_single_file tools u files.template in
        (
          cleanup_stays files.app_info_file_name _ v
              (cleanup_stays files.template _ u (cleanup-gone files.value_file_name w)),
          cleanup_stays files.app_info_file_name _ v (cleanup-gone files.template u),
          cleanup-gone files.app_info_file_name v,
        )

module _ (cluster : Cluster) {Values : Type 0} (tools : Tools cluster.World Values) where
  open cluster use {World}
  open tools use {generate_value_file, generate_helm_template, save_app_info}

  in_case :
      (w : World) (m : ConfigMap) (values : Values) (chart : String) (d : Call World String)
      (others : List String)
      → install_job cluster tools w m values chart ≡ d
      → made_files tools w m.name values chart ≡ others
      → All (λ file. IsGone tools file d.0) others
      → All
          (λ file. IsGone tools file (install_job cluster tools w m values chart).0)
          (made_files tools w m.name values chart)
  in_case w m values chart d others p q h =
      subst (λ c. All (λ file. IsGone tools file c.0) (made_files tools w m.name values chart))
        (sym p) (subst (λ fs. All (λ file. IsGone tools file d.0) fs) (sym q) h)

  -- However the installation of a job ends, also where helm or kubectl fails at any point, no file is
  -- left that one of the calls that make the files has returned without an error, if files that are
  -- there can be removed.
  pub install_job-IsGone :
      (laws : IsFileSystem tools) (w : World) (m : ConfigMap) (values : Values) (chart : String)
      → All
          (λ file. IsGone tools file (install_job cluster tools w m values chart).0)
          (made_files tools w m.name values chart)
  unfolding install_job generate_job_files and_then on_failure
  install_job-IsGone laws w m values chart =
      elim (Call-cases (taken (generate_value_file w values))) [
        | inl (u, p, e) ↦ in_case w m values chart (u, failed p) [] (rw e refl) (rw e refl) tt
        | inr (u, vf, e) ↦ elim (Call-cases (taken (generate_helm_template u m.name vf chart))) [
          | inl (v, p, f) ↦
              in_case w m values chart (cleanup_single_file tools v vf, failed p) (vf ∷ [])
                (rw e (rw f refl)) (rw e (rw f refl)) (cleanup-gone tools laws vf v, tt)
          | inr (v, t, f) ↦ elim (Call-cases (taken (save_app_info v t))) [
            | inl (x, p, g) ↦
                let y = cleanup_single_file tools x t in
                in_case w m values chart (cleanup_single_file tools y vf, failed p) (vf ∷ t ∷ [])
                  (rw e (rw f (rw g refl))) (rw e (rw f (rw g refl)))
                  (
                    cleanup-gone tools laws vf y,
                    (cleanup_stays tools laws vf t y (cleanup-gone tools laws t x), tt),
                  )
            | inr (x, a, g) ↦
                let files : JobFiles = record {
                  value_file_name = vf;
                  template = t;
                  app_info_file_name = a;
                } in
                let (h, i, j) =
                  cleanup_job_files-IsGone tools laws files
                    (install_files cluster tools x m files chart).0 in
                in_case w m values chart
                  (cleaned cluster tools (install_files cluster tools x m files chart) files)
                  (vf ∷ t ∷ a ∷ []) (rw e (rw f (rw g refl))) (rw e (rw f (rw g refl)))
                  (h, (i, (j, tt)))
          ]
        ]
      ]

  -- The template file that helm leaves with an error is none of those that are removed.
  template_stays :
      (laws : IsFileSystem tools) (w : World) (m : ConfigMap) (values : Values) (chart : String)
      {vf : String} {p : Problem}
      → (generate_value_file w values).file ≡ vf
      → (generate_value_file w values).error ≡ none
      → (generate_helm_template (generate_value_file w values).world m.name vf chart).error ≡ some p
      → install_job cluster tools w m values chart ≡ (
        cleanup_single_file tools
            (generate_helm_template (generate_value_file w values).world m.name vf chart).world
            vf,
        failed p,
      )
  unfolding install_job generate_job_files and_then on_failure taken
  template_stays laws w m values chart f e g = rw (e, f, g) refl

  -- Where the values have been written, and helm fails and returns the name of a template file with
  -- its error, the installation fails with that error, and the template file stays if it is there and
  -- is not the file of the values, also if files can be removed.
  pub install_job_leaves :
      (laws : IsFileSystem tools) (w : World) (m : ConfigMap) (values : Values) (chart : String)
      (template : Written World) {p : Problem}
      → (generate_value_file w values).error ≡ none
      → generate_helm_template
          (generate_value_file w values).world
          m.name
          (generate_value_file w values).file
          chart
        ≡ template
      → template.error ≡ some p
      → template.file ≢ (generate_value_file w values).file
      → tools.exists template.world template.file ≡ true
      → ((install_job cluster tools w m values chart).1 ≡ failed p)
        × (tools.exists (install_job cluster tools w m values chart).0 template.file ≡ true)
  install_job_leaves laws w m values chart template e made g other there =
      let vf = (generate_value_file w values).file in
      let q = template_stays laws w m values chart {vf = vf} refl e (ap (λ t. t.error) made ∙ g) in
      rw q
        (refl, rw made (cleanup_keeps_other tools laws vf template.file template.world other there))
