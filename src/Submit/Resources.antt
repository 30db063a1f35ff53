-- ===== src/Submit/Resources.antt =====
-- cmd/job/submit/requested_gpu_handler.go and image_pulll_policy_handler.go: the GPUs that a job
-- asks for, and when its image is pulled.
pub mod Gpus
pub mod Images
mod Tests
use runai_cli.Prelude.{
  ℕ, String, Bool, true, false, not, ◌&&◌, ◌||◌, Option, none, some, str_eq, if◌then◌else◌, ℤ,
  decimal_int, quotient, less_than,
}
use runai_cli.Submit.GitSync.{is_bool_true}

abbrev pub min_gpu_memory : ℕ
min_gpu_memory = 100

abbrev pub gpu_mb_factor : ℕ
gpu_mb_factor = 1000000

-- What the handler needs of Go's `float64` and of Kubernetes' quantities: `int(x)`, `float64(n)`,
-- `==`, the format "%g", and the value in bytes of a quantity, where the text is one.
pub record Arithmetic : Type 1 where
  pub Float : Type 0
  pub truncate : Float → ℤ
  pub of_int : ℤ → Float
  pub same : Float → Float → Bool
  pub general : Float → String
  pub parse_quantity : String → Option ℤ

pub data GpuError : Type 0 where
  two_flags bad_quantity too_little_memory : GpuError

-- The fields of `submitArgs` that the handler reads and writes.
pub record GpuArgs (Float : Type 0) : Type 0 where
  pub gpu : Option Float
  pub gpu_int : Option ℤ
  pub gpu_fraction : String
  pub gpu_memory : String

module _ (num : Arithmetic) where
  open num use {Float, truncate, of_int, same, general, parse_quantity}

  -- The branch with a number of GPUs.
  unfoldable pub set_gpus : GpuArgs Float → Float → GpuArgs Float
  set_gpus args gpu =
      if same (of_int (truncate gpu)) gpu
      then record args { gpu_int = some (truncate gpu) }
      else record args { gpu_fraction = general gpu }

  -- The branch with an amount of memory, in bytes.
  unfoldable pub set_gpu_memory : GpuArgs Float → Option ℤ → GpuArgs Float × Option GpuError
  unfolding quotient less_than decimal_int
  set_gpu_memory args none = (args, some bad_quantity)
  set_gpu_memory args (some bytes) =
      if less_than (quotient bytes gpu_mb_factor) min_gpu_memory
      then (args, some too_little_memory)
      else (record args { gpu_memory = decimal_int (quotient bytes gpu_mb_factor) }, none)

  abbrev pub dispatch : GpuArgs Float → Option Float → GpuArgs Float × Option GpuError
  dispatch args none =
      if str_eq args.gpu_memory ""
      then (args, none)
      else set_gpu_memory args (parse_quantity args.gpu_memory)
  dispatch args (some gpu) =
      if not (str_eq args.gpu_memory "") then (args, some two_flags) else (set_gpus args gpu, none)

  unfoldable pub handle_requested_gpus : GpuArgs Float → GpuArgs Float × Option GpuError
  unfolding set_gpus set_gpu_memory
  handle_requested_gpus args = dispatch args args.gpu

abbrev pub pull_policy_always : String
pull_policy_always = "Always"

abbrev pub pull_policy_if_not_present : String
pull_policy_if_not_present = "IfNotPresent"

abbrev pub pull_policy_never : String
pull_policy_never = "Never"

pub data ImageError : Type 0 where
  bad_policy : ImageError

-- The fields of `submitArgs` that the handler reads and writes.
pub record ImageArgs : Type 0 where
  pub image_pull_policy : String
  pub local_image : Option Bool

unfoldable pub handle_image_pull_policy : ImageArgs → ImageArgs × Option ImageError
handle_image_pull_policy args =
    if str_eq args.image_pull_policy pull_policy_always
      || (str_eq args.image_pull_policy pull_policy_if_not_present
          || str_eq args.image_pull_policy pull_policy_never)
    then (
      if is_bool_true args.local_image
          then record args { image_pull_policy = pull_policy_never }
          else args,
      none,
    )
    else (args, some bad_policy)
