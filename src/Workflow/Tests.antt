-- ===== src/Workflow/Tests.antt =====
-- Submissions and deletions on a list of config maps.
use runai_cli.Prelude.{
  ℕ, true, false, [], ◌∷◌, All, select, any, find_first, assign, lookup, get, decimal, ◌≡◌, refl,
}
use runai_cli.Workflow.{
  ConfigMap, reported, failed, done, and_then, or_else, on_failure, labels_of, empty_config_map,
  occupation, index_loop, get_smallest_unoccupied_index, get_config_map_name, retry_loop,
  after_first, submit_config_map, job_exists,
}
use runai_cli.Workflow.Job.{
  Written, taken, cleanup_single_file, cleanup_job_files, generate_job_files, populate_config_map,
  install_files, install_job, submit_job_internal, submit_job,
}
use runai_cli.Workflow.Example.{
  Site, site_cluster, site_tools, site-IsCluster, site-IsAvailable, site-IsFileSystem,
  site-IsKeeping,
}
use runai_cli.Workflow.Created.{IsNew, submit_config_map-IsNew}
use runai_cli.Workflow.Tidy.{IsTidy, submit_config_map-IsTidy}
use runai_cli.Workflow.Free.{IsNext, submit_config_map-IsNext}
use runai_cli.Workflow.Installed.{IsInstalled, submit_job-IsInstalled}
use runai_cli.Workflow.Cleaned.{IsGone, made_files, install_job-IsGone, install_job_leaves}
use runai_cli.Workflow.Stays.{submit_job-job_exists}

submitting : Unit {0}
unfolding labels_of occupation index_loop get_smallest_unoccupied_index get_config_map_name
    retry_loop after_first submit_config_map and_then or_else on_failure find_first select any
    assign lookup get decimal cleanup_single_file cleanup_job_files generate_job_files taken
    populate_config_map install_files install_job submit_job_internal submit_job
submitting = tt

abbrev nothing : Site
nothing = record { maps = []; files = [] }

abbrev one : Site
one = record { maps = empty_config_map "train-0" "train" 0 ∷ []; files = [] }

abbrev two : Site
two = record {
  maps = empty_config_map "train-1" "train" 1 ∷ empty_config_map "train-0" "train" 0 ∷ [];
  files = [];
}

first_submission :
    submit_config_map site_cluster nothing "train" true
    ≡ (one, done (empty_config_map "train-0" "train" 0))
unfolding submitting
first_submission = refl

next_submission :
    submit_config_map site_cluster one "train" true
    ≡ (two, done (empty_config_map "train-1" "train" 1))
unfolding submitting
next_submission = refl

-- A job that is named `train-1` itself stands in the way of a generated name: each try takes the index 1.
blocked :
    (submit_config_map site_cluster
      (record {
        maps = empty_config_map "train-1" "train-1" 0 ∷ empty_config_map "train-0" "train" 0 ∷ [];
        files = [];
      })
      "train"
      true).1
    ≡ failed (reported "job creation has failed. Please try again")
unfolding submitting
blocked = refl

dry_run :
    submit_job site_cluster (site_tools false) nothing "train" false "values.yaml" "chart" true ≡ (
      record { maps = []; files = "train.template.app" ∷ "train.template" ∷ "values.yaml" ∷ [] },
      done "",
    )
unfolding submitting
dry_run = refl

submission :
    submit_job site_cluster (site_tools false) nothing "train" true "values.yaml" "chart" false
    ≡ (one, done "train-0")
unfolding submitting
submission = refl

submit_config_map-IsNew_example :
    IsNew site_cluster site-IsCluster "train" true two (empty_config_map "train-1" "train" 1)
submit_config_map-IsNew_example =
    submit_config_map-IsNew site_cluster site-IsCluster one "train" true next_submission

nothing-IsTidy : IsTidy site_cluster nothing
unfolding find_first
nothing-IsTidy = record { labelled = λ base index e. absurd (cc e); named = λ low e. absurd (cc e) }

submit_config_map-IsTidy_example :
    IsTidy site_cluster (submit_config_map site_cluster nothing "train" true).0
submit_config_map-IsTidy_example =
    submit_config_map-IsTidy site_cluster site-IsCluster "train" nothing true (λ n s tidy. tidy)
      (λ e. absurd (cc e)) nothing-IsTidy

one-IsTidy : IsTidy site_cluster one
unfolding submitting
one-IsTidy =
    submit_config_map-IsTidy site_cluster site-IsCluster "train" nothing true (λ n s tidy. tidy)
      (λ e. absurd (cc e)) nothing-IsTidy

submit_config_map-IsNext_example :
    (index : ℕ) × (t : Site) × IsNext site_cluster one "train" index
    × (submit_config_map site_cluster one "train" true
        ≡ (t, done (empty_config_map (get_config_map_name "train" index true) "train" index)))
submit_config_map-IsNext_example =
    submit_config_map-IsNext site_cluster site-IsCluster one one-IsTidy "train" site-IsAvailable

submit_job-IsInstalled_example :
    (s : Site) × (m : ConfigMap) × IsNew site_cluster site-IsCluster "train" true s m
    × ("train-0" ≡ m.name)
    × IsInstalled site_cluster (site_tools false) s m "values.yaml" "chart" one
submit_job-IsInstalled_example =
    submit_job-IsInstalled site_cluster (site_tools false) site-IsCluster nothing "train" true
      "values.yaml" "chart" submission

install_job-IsGone_example :
    All
      (λ file.
        IsGone
          (site_tools true)
          file
          (install_job site_cluster
            (site_tools true)
            one
            (empty_config_map "train-0" "train" 0)
            "values.yaml"
            "chart").0)
      (made_files (site_tools true) one "train-0" "values.yaml" "chart")
install_job-IsGone_example =
    install_job-IsGone site_cluster (site_tools true) (site-IsFileSystem true) one
      (empty_config_map "train-0" "train" 0) "values.yaml" "chart"

-- Helm fails where no chart is named.
abbrev left_template : Written Site
left_template =
    (site_tools false).generate_helm_template
      ((site_tools false).generate_value_file one "values.yaml").world "train-0" "values.yaml" ""

install_job_leaves_example :
    ((install_job site_cluster
        (site_tools false)
        one
        (empty_config_map "train-0" "train" 0)
        "values.yaml"
        "").1
      ≡ failed (reported "no chart"))
    × ((site_tools false).exists
          (install_job site_cluster
            (site_tools false)
            one
            (empty_config_map "train-0" "train" 0)
            "values.yaml"
            "").0
          "train-0.template"
        ≡ true)
unfolding submitting
install_job_leaves_example =
    install_job_leaves site_cluster (site_tools false) (site-IsFileSystem false) one
      (empty_config_map "train-0" "train" 0) "values.yaml" "" left_template refl refl refl
      (λ e. cc e) refl

plain_submission : submit_config_map site_cluster nothing "train" false ≡ (
  record { maps = empty_config_map "train" "train" 0 ∷ []; files = [] },
  done (empty_config_map "train" "train" 0),
)
unfolding submitting
plain_submission = refl

submit_job-job_exists_example :
    let t = (submit_job site_cluster (site_tools true) nothing "train" false "a" "chart" false).0 in
    submit_job site_cluster (site_tools true) t "train" false "b" "chart" false
    ≡ (t, failed (job_exists "train"))
submit_job-job_exists_example =
    submit_job-job_exists site_cluster (site_tools true) "train" (site-IsKeeping true "train")
      site-IsCluster site-IsAvailable nothing "a" "b" "chart" "chart" plain_submission
