-- ===== src/Submit/Kinds.antt =====
-- What the two commands do behind `setCommonRun`: the body of `NewRunaiJobCommand` with its helpers in
-- cmd/job/submit/submit_runai.go, and `prepare` of cmd/job/submit/submit_mpi.go.
pub mod Accepted
mod Tests
use Prim.Native.String
use runai_cli.Prelude.{
  ℕ, ◌*◌, ◌-◌, ◌%◌, ◌^◌, ℤ, pos, negsuc, String, Bool, true, false, not, ◌&&◌, ◌||◌, Option, none,
  some, is_some, List, [], ◌∷◌, ltb, str_eq, if◌then◌else◌,
}
use runai_cli.Validate.{Invalid, validate_job_name}
use runai_cli.Submit.GitSync.{is_bool_true}

-- The fields of `submitRunaiJobArgs` that are read or written here; `ttl_after_finished` is in rounded
-- seconds.
pub record RunaiArgs : Type 0 where
  pub name : String
  pub project : String
  pub image : String
  pub interactive : Option Bool
  pub backoff_limit : Option ℤ
  pub ports : List String
  pub service_type : String
  pub spec_command : List String
  pub spec_args : List String
  pub elastic : Option Bool
  pub completions : Option ℤ
  pub parallelism : Option ℤ
  pub is_jupyter : Option Bool
  pub inference : Option Bool
  pub is_old_job : Option Bool
  pub is_runai_job : Option Bool
  pub ttl_after_finished : Option ℤ
  pub ttl : Option ℤ

pub data KindError : Type 0 where
  inference_and_interactive no_image no_completions elastic_and_parallel interactive_and_parallel :
      KindError

pub data Result : Type 0 where
  ok : RunaiArgs → Result
  err : KindError → Result

infixl 5 ◌>>=◌
abbrev pub ◌>>=◌ : Result → (RunaiArgs → Result) → Result
ok a >>= f = f a
err e >>= f = err e

abbrev pub or_words : List String → List String → List String
or_words [] other = other
or_words (word ∷ words) other = word ∷ words

abbrev pub or_text : String → String → String
or_text given other = if str_eq given "" then other else given

-- The words of the command are for an ingress only, and read the type that has just been chosen.
unfoldable pub use_jupyter_default_values : RunaiArgs → RunaiArgs
use_jupyter_default_values sa =
    let service_type = or_text sa.service_type "portforward" in
    record sa {
      interactive = some true;
      ports = or_words sa.ports ("8888" ∷ []);
      image = or_text sa.image "jupyter/scipy-notebook";
      service_type = service_type;
      spec_command =
          if str_eq service_type "ingress"
          then or_words sa.spec_command ("start-notebook.sh" ∷ [])
          else sa.spec_command;
      spec_args =
          if str_eq service_type "ingress"
          then or_words sa.spec_args (
              String.◌++◌ "--NotebookApp.base_url=/"
                (String.◌++◌ sa.project (String.◌++◌ "-" sa.name))
              ∷ [])
          else sa.spec_args;
    }

abbrev pub ttl_or : Option ℤ → Option ℤ → Option ℤ
ttl_or none ttl = ttl
ttl_or (some seconds) ttl = some seconds

unfoldable pub set_jupyter : RunaiArgs → RunaiArgs
unfolding use_jupyter_default_values
set_jupyter sa = if is_bool_true sa.is_jupyter then use_jupyter_default_values sa else sa

unfoldable pub set_completions : RunaiArgs → Result
set_completions sa =
    if is_bool_true sa.interactive
    then (if is_bool_true sa.inference
        then err inference_and_interactive
        else ok (record sa { completions = some (pos 1) }))
    else ok sa

unfoldable pub require_image : RunaiArgs → Result
require_image sa = if str_eq sa.image "" then err no_image else ok sa

abbrev pub is_parallel : Option ℤ → Bool
is_parallel none = false
is_parallel (some (pos n)) = ltb 1 n
is_parallel (some (negsuc n)) = false

unfoldable pub verify_hpo_flags : RunaiArgs → Result
verify_hpo_flags sa =
    if is_parallel sa.parallelism
    then (if not (is_some sa.completions)
        then err no_completions
        else if is_some sa.elastic
        then err elastic_and_parallel
        else if is_some sa.interactive
        then err interactive_and_parallel
        else ok sa)
    else ok sa

-- `listed` says whether the cluster answers a list of Run:AI jobs.
unfoldable pub handle_runai_job_crd : Bool → RunaiArgs → RunaiArgs
handle_runai_job_crd listed sa = record sa {
  is_runai_job =
      if is_bool_true sa.inference
      then some false
      else if is_bool_true sa.is_old_job
      then some false
      else some listed;
}

-- The arguments that the chart is rendered from.
unfoldable pub run_runai_job : Bool → RunaiArgs → Result
unfolding set_jupyter set_completions require_image verify_hpo_flags handle_runai_job_crd
run_runai_job listed given = do
  let sa = record given { ttl = ttl_or given.ttl_after_finished given.ttl }
  completed ← set_completions (set_jupyter sa)
  pictured ← require_image completed
  verified ← verify_hpo_flags pictured
  ok (handle_runai_job_crd listed verified)

-- The MPI command: `times n x` is `float64(n) * x`, `gpu_memory` the text of the flag, and
-- `parse_uint` the parser of the standard library.
pub record MpiArgs (Float : Type 0) : Type 0 where
  pub name : String
  pub processes : Option ℤ
  pub gpu : Option Float
  pub gpu_memory : String
  pub number_processes : ℤ
  pub total_gpus : Float
  pub total_gpus_memory : ℤ

-- An `int` of 64 bits, as its residue, and back.
abbrev pub residue : ℤ → ℕ
residue (pos n) = n % 2 ^ 64
residue (negsuc n) = 2 ^ 64 - 1 - n % 2 ^ 64

abbrev pub signed : ℕ → ℤ
signed r = if ltb r (2 ^ 63) then pos r else negsuc (2 ^ 64 - 1 - r)

-- `n * int(m)`.
unfoldable pub times_int : ℤ → ℕ → ℤ
times_int n m = signed (residue n * (m % 2 ^ 64) % 2 ^ 64)

abbrev pub number_or {ℓ} : {A : Type ℓ} → A → Option A → A
number_or other none = other
number_or other (some n) = n

-- `submitArgs.check`: `none` is no error.
pub data CheckError : Type 0 where
  no_name : CheckError
  invalid : Invalid → CheckError

abbrev pub name_error : Option Invalid → Option CheckError
name_error none = none
name_error (some e) = some (invalid e)

unfoldable pub check : String → Option CheckError
check name = if str_eq name "" then some no_name else name_error (validate_job_name name)

module _ {Float : Type 0} (zero_float : Float) (times : ℤ → Float → Float)
    (parse_uint : String → Option ℕ) where
  unfoldable pub prepare : MpiArgs Float → MpiArgs Float × Option CheckError
  unfolding check times_int
  prepare args = elim (check args.name) [
    | some e ↦ (args, some e)
    | none ↦ (
      record args {
        number_processes = number_or (pos 1) args.processes;
        total_gpus = times (number_or (pos 1) args.processes) (number_or zero_float args.gpu);
        total_gpus_memory =
            times_int (number_or (pos 1) args.processes) (number_or 0 (parse_uint args.gpu_memory));
      },
      none,
    )
  ]
