-- ===== src/Submit/Template/Jobs.antt =====
-- `mergeTemplateToRunaiSubmitArgs` and `mergeTemplateToMpiSubmitArgs`: the flags of the two kinds of
-- jobs, behind the common ones. The parsers of floats, integers and durations are arguments.
use runai_cli.Prelude.{String, Bool, Option, List, [], ◌∷◌, ◌++◌, ◌≡◌}
use runai_cli.Templates.{SubmitTemplate}
use runai_cli.Submit.Template.{
  Result, ok, ◌>>=◌, parse_bool, apply_template_field_for_bool, apply_template_field_for_string,
  apply_template_field, SubmitArgs, merge_template_to_common_submit_args,
}
use runai_cli.Submit.Template.Flags.{
  Flag, judge, chosen, chosen_text, flag, text_flag, apply_string, apply_flag, judge-bind,
  flag-bind,
}
use runai_cli.Submit.Template.Precedence.{
  ok-judge, apply_bool, common_flags, common_merged, merge_template_to_common_submit_args-judge,
}

-- The fields of `submitRunaiJobArgs` that a template reaches.
pub record SubmitRunaiJobArgs (Float Int Duration : Type 0) : Type 0 where
  pub common : SubmitArgs Float
  pub backoff_limit : Option Int
  pub elastic : Option Bool
  pub parallelism : Option Int
  pub is_preemptible : Option Bool
  pub service_type : String
  pub is_jupyter : Option Bool
  pub ttl_after_finished : Option Duration

pub record SubmitMpiJobArgs (Float Int : Type 0) : Type 0 where
  pub common : SubmitArgs Float
  pub processes : Option Int

module _ {Float Int : Type 0} (parse_float : String → Option Float)
    (atoi : String → Option Int) where
  module _ {Duration : Type 0} (parse_duration : String → Option Duration) where
    unfoldable pub merge_template_to_runai_submit_args :
        SubmitRunaiJobArgs Float Int Duration
        → SubmitTemplate
        → List String
        → Result (SubmitRunaiJobArgs Float Int Duration)
    unfolding merge_template_to_common_submit_args apply_template_field
        apply_template_field_for_bool apply_template_field_for_string
    merge_template_to_runai_submit_args args t extra = do
      common ← merge_template_to_common_submit_args parse_float args.common t extra
      backoff_limit ← apply_template_field atoi args.backoff_limit t.backoff_limit "backofflimit"
      elastic ← apply_template_field_for_bool args.elastic t.elastic "elastic"
      parallelism ← apply_template_field atoi args.parallelism t.parallelism "parallelism"
      is_preemptible ←
          apply_template_field_for_bool args.is_preemptible t.is_preemptible "preemptible"
      service_type ← apply_template_field_for_string args.service_type t.service_type "service-type"
      is_jupyter ← apply_template_field_for_bool args.is_jupyter t.is_jupyter "jupyter"
      ttl_after_finished ←
          apply_template_field parse_duration args.ttl_after_finished t.ttl_after_finished
            "ttl-after-finish"
      ok (record {
        common = common;
        backoff_limit = backoff_limit;
        elastic = elastic;
        parallelism = parallelism;
        is_preemptible = is_preemptible;
        service_type = service_type;
        is_jupyter = is_jupyter;
        ttl_after_finished = ttl_after_finished;
      })

    abbrev pub runai_flags : SubmitRunaiJobArgs Float Int Duration → SubmitTemplate → List Flag
    runai_flags args t =
        flag atoi "backofflimit" args.backoff_limit t.backoff_limit
        ∷ flag parse_bool "elastic" args.elastic t.elastic
        ∷ flag atoi "parallelism" args.parallelism t.parallelism
        ∷ flag parse_bool "preemptible" args.is_preemptible t.is_preemptible
        ∷ text_flag "service-type" args.service_type t.service_type
        ∷ flag parse_bool "jupyter" args.is_jupyter t.is_jupyter
        ∷ flag parse_duration "ttl-after-finish" args.ttl_after_finished t.ttl_after_finished
        ∷ []

    abbrev pub runai_merged :
        SubmitRunaiJobArgs Float Int Duration
        → SubmitTemplate
        → List String
        → SubmitRunaiJobArgs Float Int Duration
    runai_merged args t extra = record {
      common = common_merged parse_float args.common t extra;
      backoff_limit = chosen atoi args.backoff_limit t.backoff_limit;
      elastic = chosen parse_bool args.elastic t.elastic;
      parallelism = chosen atoi args.parallelism t.parallelism;
      is_preemptible = chosen parse_bool args.is_preemptible t.is_preemptible;
      service_type = chosen_text args.service_type t.service_type;
      is_jupyter = chosen parse_bool args.is_jupyter t.is_jupyter;
      ttl_after_finished = chosen parse_duration args.ttl_after_finished t.ttl_after_finished;
    }

    -- Applying a template to the arguments of a Run:AI job succeeds unless a flag that the template
    -- requires is missing, and then names the first such flag, the common ones first. On success the
    -- common arguments are the merged ones, and each of the further flags has the value of the
    -- command line, and that of the template where the command line gives none.
    pub merge_template_to_runai_submit_args-judge :
        (args : SubmitRunaiJobArgs Float Int Duration) (t : SubmitTemplate) (extra : List String)
        → merge_template_to_runai_submit_args args t extra
          ≡ judge
              (common_flags parse_float args.common t ++ runai_flags args t)
              (runai_merged args t extra)
    unfolding merge_template_to_runai_submit_args
    merge_template_to_runai_submit_args-judge args t extra =
        judge-bind (common_flags parse_float args.common t) (runai_flags args t) _ _ _ _
          (merge_template_to_common_submit_args-judge parse_float args.common t extra)
          (flag-bind _ _ _ _ _ _ (apply_flag atoi args.backoff_limit t.backoff_limit "backofflimit")
            (λ _. flag-bind _ _ _ _ _ _ (apply_bool args.elastic t.elastic "elastic") (λ _.
              flag-bind _ _ _ _ _ _ (apply_flag atoi args.parallelism t.parallelism "parallelism")
                (λ _.
                  flag-bind _ _ _ _ _ _
                    (apply_bool args.is_preemptible t.is_preemptible "preemptible")
                    (λ _.
                      flag-bind _ _ _ _ _ _
                        (apply_string args.service_type t.service_type "service-type")
                        (λ _.
                          flag-bind _ _ _ _ _ _ (apply_bool args.is_jupyter t.is_jupyter "jupyter")
                            (λ _.
                              flag-bind _ _ _ _ _ _
                                (apply_flag parse_duration args.ttl_after_finished
                                  t.ttl_after_finished "ttl-after-finish")
                                (λ _. ok-judge _))))))))

  unfoldable pub merge_template_to_mpi_submit_args :
      SubmitMpiJobArgs Float Int
      → SubmitTemplate
      → List String
      → Result (SubmitMpiJobArgs Float Int)
  unfolding merge_template_to_common_submit_args apply_template_field
  merge_template_to_mpi_submit_args args t extra = do
    common ← merge_template_to_common_submit_args parse_float args.common t extra
    processes ← apply_template_field atoi args.processes t.processes "processes"
    ok (record { common = common; processes = processes })

  -- Applying a template to the arguments of an MPI job succeeds unless a flag that the template
  -- requires is missing, and then names the first such flag, the number of processes last. On success
  -- the common arguments are the merged ones, and the number of processes is that of the command
  -- line, and that of the template where the command line gives none.
  pub merge_template_to_mpi_submit_args-judge :
      (args : SubmitMpiJobArgs Float Int) (t : SubmitTemplate) (extra : List String)
      → merge_template_to_mpi_submit_args args t extra
        ≡ judge
            (common_flags parse_float args.common t
              ++ flag atoi "processes" args.processes t.processes ∷ [])
            (record {
              common = common_merged parse_float args.common t extra;
              processes = chosen atoi args.processes t.processes;
            })
  unfolding merge_template_to_mpi_submit_args
  merge_template_to_mpi_submit_args-judge args t extra =
      judge-bind (common_flags parse_float args.common t) _ _ _ _ _
        (merge_template_to_common_submit_args-judge parse_float args.common t extra)
        (flag-bind _ _ _ _ _ _ (apply_flag atoi args.processes t.processes "processes")
          (λ _. ok-judge _))
