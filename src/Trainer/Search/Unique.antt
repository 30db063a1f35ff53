-- ===== src/Trainer/Search/Unique.antt =====
-- A search finds the job of the one trainer that answers for it.
use runai_cli.Prelude.{
  String, Bool, true, false, Option, none, some, List, [], ◌∷◌, ◌++◌, select, ◌≡◌, ◌≢◌, ◌↔◌, ◌⊎◌,
  inl, inr, refl, sym, ap, ◌∙◌, Bool-cases, Option-cases,
}
use mathlib.Core.Path.{subst}
use runai_cli.Trainer.Search.{
  SearchError, of_trainer, invalid_job, no_such_job, no_config_maps, more_than_one, Trainer, Found,
  found, failed, panicked, by_name_loop, jobs_or_error, get_training_jobs_by_name,
  get_training_types, the_only, search_training_job,
}

module _ {Job : Type 0} where
  -- The jobs of the trainers, all of which answer for the name.
  collect : List Job → List (Trainer Job) → Option (List Job)
  collect jobs [] = some jobs
  collect jobs (trainer ∷ trainers) = elim trainer.get_training_job [
    | none ↦ none
    | some job ↦ collect (jobs ++ job ∷ []) trainers
  ]

  by_name_loop-select :
      (jobs : List Job) (trainers : List (Trainer Job))
      → by_name_loop jobs trainers ≡ collect jobs (select (λ t. t.is_supported) trainers)
  unfolding by_name_loop collect select
  by_name_loop-select jobs [] = refl
  by_name_loop-select jobs (trainer ∷ trainers) = elim (Bool-cases trainer.is_supported) [
    | inl e ↦ rw e (elim (Option-cases trainer.get_training_job) [
      | inl q ↦ rw q refl
      | inr (job, q) ↦ rw q (by_name_loop-select (jobs ++ job ∷ []) trainers)
    ])
    | inr e ↦ rw e (by_name_loop-select jobs trainers)
  ]

  -- With two jobs, there are two in the end, or an error.
  collect-two :
      (first second : Job) (jobs : List Job) (trainers : List (Trainer Job))
      → (collect (first ∷ second ∷ jobs) trainers ≡ none)
        ⊎ ((all : List Job) × (collect (first ∷ second ∷ jobs) trainers
              ≡ some (first ∷ second ∷ all)))
  unfolding collect
  collect-two first second jobs [] = inr (jobs, refl)
  collect-two first second jobs (trainer ∷ trainers) =
      elim (Option-cases trainer.get_training_job) [
        | inl q ↦ inl (rw q refl)
        | inr (job, q) ↦ rw q (collect-two first second (jobs ++ job ∷ []) trainers)
      ]

  abbrev pub IsFailed : Found Job → Type 0
  IsFailed r = (e : SearchError) × (r ≡ failed e)

  failed-IsFailed :
      (types : Option (List String)) (e : SearchError) → IsFailed (the_only types (failed e))
  failed-IsFailed none e = (no_config_maps, refl)
  failed-IsFailed (some types) e = (e, refl)

  none-IsFailed :
      (types : Option (List String)) (config_map : Bool)
      → IsFailed (the_only types (jobs_or_error config_map none))
  none-IsFailed types config_map = failed-IsFailed types of_trainer

  nil-IsFailed :
      (types : Option (List String)) (config_map : Bool)
      → IsFailed (the_only types (jobs_or_error config_map (some [])))
  nil-IsFailed types true = failed-IsFailed types invalid_job
  nil-IsFailed types false = failed-IsFailed types no_such_job

  two-IsFailed :
      (types : Option (List String)) (config_map : Bool) (first second : Job) (jobs : List Job)
      → IsFailed (the_only types (jobs_or_error config_map (some (first ∷ second ∷ jobs))))
  two-IsFailed none config_map first second jobs = (more_than_one, refl)
  two-IsFailed (some types) config_map first second jobs = (more_than_one, refl)

  -- The one trainer of a list, with its job.
  abbrev pub IsOnly : List (Trainer Job) → Job → Type 0
  IsOnly trainers job =
      (trainer : Trainer Job) × (trainers ≡ trainer ∷ []) × (trainer.get_training_job ≡ some job)

  abbrev Verdict : List (Trainer Job) → Job → Found Job → Type 0
  Verdict trainers job r = ((r ≡ found job) ↔ IsOnly trainers job) × (r ≢ panicked)

  IsFailed-Verdict :
      (trainers : List (Trainer Job)) (job : Job) (r : Found Job)
      → IsFailed r
      → (IsOnly trainers job → ⊥)
      → Verdict trainers job r
  IsFailed-Verdict trainers job r (e, q) other =
      ((λ h. let b = sym h ∙ q in cc, λ o. absurd (other o)), λ h. let b = sym h ∙ q in cc)

  one-found :
      (types : Option (List String)) (config_map : Bool) (job : Job)
      → the_only types (jobs_or_error config_map (some (job ∷ []))) ≡ found job
  one-found none config_map job = refl
  one-found (some types) config_map job = refl

  abbrev once : Option Job → Option (List Job)
  once none = none
  once (some job) = some (job ∷ [])

  collect-one : (trainer : Trainer Job) → collect [] (trainer ∷ []) ≡ once trainer.get_training_job
  unfolding collect
  collect-one trainer = elim (Option-cases trainer.get_training_job) [
    | inl q ↦ rw q refl
    | inr (job, q) ↦ rw q refl
  ]

  one-Verdict :
      (trainer : Trainer Job) (types : Option (List String)) (config_map : Bool) (job : Job)
      (answer : Option Job)
      → trainer.get_training_job ≡ answer
      → Verdict (trainer ∷ []) job (the_only types (jobs_or_error config_map (once answer)))
  one-Verdict trainer types config_map job none q =
      IsFailed-Verdict (trainer ∷ []) job _ (none-IsFailed types config_map) (λ (t, e, h).
        let t_eq : trainer ≡ t = cc in let b = sym q ∙ ap (λ u. u.get_training_job) t_eq ∙ h in cc)
  one-Verdict trainer types config_map job (some other) q = rw (one-found types config_map other) (
    (
      λ h. (trainer, refl, q ∙ ap some (let e : other ≡ job = cc in e)),
      λ (t, e, h).
          let t_eq : trainer ≡ t = cc in
          let b = sym q ∙ ap (λ u. u.get_training_job) t_eq ∙ h in
          let e : other ≡ job = cc in ap found e,
    ),
    λ h. cc,
  )

  more-Verdict :
      (trainer next : Trainer Job) (trainers : List (Trainer Job)) (types : Option (List String))
      (config_map : Bool) (job : Job)
      → IsFailed
          (the_only types (jobs_or_error config_map (collect [] (trainer ∷ next ∷ trainers))))
  unfolding collect
  more-Verdict trainer next trainers types config_map job =
      elim (Option-cases trainer.get_training_job) [
        | inl q ↦ rw q (none-IsFailed types config_map)
        | inr (first, q) ↦ elim (Option-cases next.get_training_job) [
          | inl p ↦ rw (q, p) (none-IsFailed types config_map)
          | inr (second, p) ↦
              rw (q, p)
                (elim (collect-two first second [] trainers) [
                  | inl e ↦
                      subst (λ o. IsFailed (the_only types (jobs_or_error config_map o))) (sym e)
                        (none-IsFailed types config_map)
                  | inr (all, e) ↦
                      subst (λ o. IsFailed (the_only types (jobs_or_error config_map o))) (sym e)
                        (two-IsFailed types config_map first second all)
                ])
        ]
      ]

  collect-Verdict :
      (trainers : List (Trainer Job)) (types : Option (List String)) (config_map : Bool) (job : Job)
      → Verdict trainers job (the_only types (jobs_or_error config_map (collect [] trainers)))
  unfolding collect
  collect-Verdict [] types config_map job =
      IsFailed-Verdict [] job _ (nil-IsFailed types config_map) (λ (t, e, h). cc)
  collect-Verdict (trainer ∷ []) types config_map job =
      subst (λ o. Verdict (trainer ∷ []) job (the_only types (jobs_or_error config_map o)))
        (sym (collect-one trainer))
        (one-Verdict trainer types config_map job trainer.get_training_job refl)
  collect-Verdict (trainer ∷ (next ∷ trainers)) types config_map job =
      IsFailed-Verdict _ job _ (more-Verdict trainer next trainers types config_map job)
        (λ (t, e, h). cc)

  -- A search by name alone finds a job exactly where one trainer and no other answers for the name, and
  -- then the job that this trainer gives. In every other case it fails, and it never takes the first of
  -- no jobs.
  pub search_training_job-IsOnly :
      (trainers : List (Trainer Job)) (config_map : Bool) (maps : Option (List String))
      (name : String) (job : Job)
      → ((search_training_job trainers config_map maps name "" ≡ found job)
          ↔ IsOnly (select (λ t. t.is_supported) trainers) job)
        × (search_training_job trainers config_map maps name "" ≢ panicked)
  unfolding search_training_job get_training_jobs_by_name
  search_training_job-IsOnly trainers config_map maps name job =
      subst
        (λ o.
          Verdict (select (λ t. t.is_supported) trainers) job
            (the_only (get_training_types name maps) (jobs_or_error config_map o)))
        (sym (by_name_loop-select [] trainers))
        (collect-Verdict (select (λ t. t.is_supported) trainers) (get_training_types name maps)
          config_map job)
