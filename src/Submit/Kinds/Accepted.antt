-- ===== src/Submit/Kinds/Accepted.antt =====
-- What holds of the arguments of an accepted Run:AI job.
use runai_cli.Prelude.{
  pos, String, Bool, true, false, not, ◌&&◌, none, some, is_some, List, [], ◌∷◌, eq_iff, ◌≡◌, ◌≢◌,
  refl, sym, ap, ◌∙◌, arith, Bool-cases, inl, inr,
}
use mathlib.Core.Path.{subst}
use runai_cli.Submit.GitSync.{is_bool_true}
use runai_cli.Submit.Kinds.{
  RunaiArgs, Result, ok, err, ◌>>=◌, is_parallel, set_jupyter, use_jupyter_default_values,
  set_completions, require_image, verify_hpo_flags, handle_runai_job_crd, run_runai_job, or_words,
  ttl_or,
}

>>=-eq-ok :
    (m : Result) (f : RunaiArgs → Result) {b : RunaiArgs}
    → (m >>= f) ≡ ok b
    → (a : RunaiArgs) × (m ≡ ok a) × (f a ≡ ok b)
>>=-eq-ok (ok a) f h = (a, refl, h)
>>=-eq-ok (err e) f h = cc

-- The steps of the command, with the arguments between them.
record Trace (listed : Bool) (given result : RunaiArgs) : Type 0 where
  completed : RunaiArgs
  pictured : RunaiArgs
  verified : RunaiArgs
  completes :
      set_completions
        (set_jupyter (record given { ttl = ttl_or given.ttl_after_finished given.ttl }))
      ≡ ok completed
  pictures : require_image completed ≡ ok pictured
  verifies : verify_hpo_flags pictured ≡ ok verified
  ends : handle_runai_job_crd listed verified ≡ result

set_completions_lem :
    (a : RunaiArgs) {b : RunaiArgs}
    → set_completions a ≡ ok b
    → (is_bool_true a.interactive ≡ true
        → (is_bool_true a.inference ≡ false) × (b ≡ record a { completions = some (pos 1) }))
      × (is_bool_true a.interactive ≡ false → b ≡ a)
unfolding set_completions
set_completions_lem a h = ground arith

require_image_lem :
    (a : RunaiArgs) {b : RunaiArgs} → require_image a ≡ ok b → (b ≡ a) × (a.image ≢ "")
unfolding require_image
require_image_lem a h = ground (arith, eq_iff a.image "")

-- A parallel job tells its completions, and gives neither of two flags.
abbrev pub IsParallelSafe : RunaiArgs → Type 0
IsParallelSafe a =
    is_parallel a.parallelism ≡ true
    → (is_some a.completions ≡ true) × (a.elastic ≡ none) × (a.interactive ≡ none)

verify_hpo_flags_lem :
    (a : RunaiArgs) {b : RunaiArgs} → verify_hpo_flags a ≡ ok b → (b ≡ a) × IsParallelSafe a
unfolding verify_hpo_flags
verify_hpo_flags_lem a h = ground arith

ok-inj : {a b : RunaiArgs} → ok a ≡ ok b → a ≡ b
ok-inj h = cc

run_runai_job-Trace :
    (listed : Bool) (given : RunaiArgs) {result : RunaiArgs}
    → run_runai_job listed given ≡ ok result
    → Trace listed given result
unfolding run_runai_job
run_runai_job-Trace listed given h =
    let (completed, c, h1) = >>=-eq-ok _ _ h in
    let (pictured, p, h2) = >>=-eq-ok _ _ h1 in
    let (verified, v, h3) = >>=-eq-ok _ _ h2 in
    record {
      completed = completed;
      pictured = pictured;
      verified = verified;
      completes = c;
      pictures = p;
      verifies = v;
      ends = ok-inj h3;
    }

-- What the flag of a notebook switches on.
abbrev pub IsNotebook : RunaiArgs → Type 0
IsNotebook a = (a.interactive ≡ some true) × (a.ports ≢ []) × (a.service_type ≢ "")

or_words-ne-nil : (words : List String) (word : String) → or_words words (word ∷ []) ≢ []
or_words-ne-nil [] word = λ h. cc
or_words-ne-nil (w ∷ words) word = λ h. cc

set_jupyter_lem :
    (a : RunaiArgs)
    → (is_bool_true a.is_jupyter ≡ true → IsNotebook (set_jupyter a))
      × ((set_jupyter a).backoff_limit ≡ a.backoff_limit)
unfolding set_jupyter use_jupyter_default_values
set_jupyter_lem a = elim (Bool-cases (is_bool_true a.is_jupyter)) [
  | inl e ↦ rw e (
    λ h. (
      refl,
      or_words-ne-nil a.ports "8888",
      ground (arith, eq_iff a.service_type "", eq_iff "portforward" ""),
    ),
    refl,
  )
  | inr e ↦ rw e (λ h. cc, refl)
]

-- Completing touches neither the image nor what a notebook has.
completed_lem :
    (a b : RunaiArgs)
    → set_completions a ≡ ok b
    → (is_bool_true b.interactive ≡ true
        → (b.completions ≡ some (pos 1)) × (is_bool_true b.inference ≡ false))
      × (IsNotebook a → IsNotebook b)
      × (b.backoff_limit ≡ a.backoff_limit)
completed_lem a b h = elim (Bool-cases (is_bool_true a.interactive)) [
  | inl e ↦ let (k, q) = (set_completions_lem a h).0 e in rw q (λ _. (refl, k), λ n. n, refl)
  | inr e ↦ let q = (set_completions_lem a h).1 e in rw q (λ k. cc, λ n. n, refl)
]

pub record IsAccepted (listed : Bool) (given result : RunaiArgs) : Type 0 where
  pub image : result.image ≢ ""
  pub interactive :
      is_bool_true result.interactive ≡ true
      → (result.completions ≡ some (pos 1)) × (is_bool_true result.inference ≡ false)
  pub parallel : IsParallelSafe result
  pub notebook : is_bool_true given.is_jupyter ≡ true → IsNotebook result
  pub backoff : result.backoff_limit ≡ given.backoff_limit
  pub kind :
      result.is_runai_job
      ≡ some
          (not (is_bool_true result.inference) && (not (is_bool_true result.is_old_job) && listed))

handle_IsAccepted :
    (listed : Bool) (given a : RunaiArgs)
    → a.image ≢ ""
    → (is_bool_true a.interactive ≡ true
        → (a.completions ≡ some (pos 1)) × (is_bool_true a.inference ≡ false))
    → IsParallelSafe a
    → (is_bool_true given.is_jupyter ≡ true → IsNotebook a)
    → a.backoff_limit ≡ given.backoff_limit
    → IsAccepted listed given (handle_runai_job_crd listed a)
unfolding handle_runai_job_crd
handle_IsAccepted listed given a i c p n b = record {
  image = i;
  interactive = c;
  parallel = p;
  notebook = n;
  backoff = b;
  kind = ground arith;
}

-- An accepted Run:AI job has an image; if it is interactive it has one completion and is no inference
-- job; if it has more than one parallel pod, its completions are told and neither of the flags for
-- elastic and interactive jobs is given; the flag of a notebook makes it interactive, with a port and a
-- type of service. It is sent as a Run:AI job unless it is an inference job, an old one, or the cluster
-- lists no Run:AI jobs. Its limit of retries stays as it was given, also where a notebook has become
-- interactive here.
pub run_runai_job-IsAccepted :
    (listed : Bool) (given : RunaiArgs) {result : RunaiArgs}
    → run_runai_job listed given ≡ ok result
    → IsAccepted listed given result
run_runai_job-IsAccepted listed given h =
    let t = run_runai_job-Trace listed given h in
    let start = set_jupyter (record given { ttl = ttl_or given.ttl_after_finished given.ttl }) in
    let (picture, image) = require_image_lem t.completed t.pictures in
    let (verify, parallel) = verify_hpo_flags_lem t.pictured t.verifies in
    let (completes, notebook, backoff) = completed_lem start t.completed t.completes in
    let (starts, kept) =
      set_jupyter_lem (record given { ttl = ttl_or given.ttl_after_finished given.ttl }) in
    subst (IsAccepted listed given)
      (ap (handle_runai_job_crd listed) (sym (verify ∙ picture)) ∙ t.ends)
      (handle_IsAccepted listed given t.completed image completes
        (subst IsParallelSafe picture parallel) (λ j. notebook (starts j)) (backoff ∙ kept))
