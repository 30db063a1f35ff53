-- ===== src/Submit/Resources/Tests.antt =====
-- Runs of the handlers of GPUs and images, and their theorems at concrete arguments.
use runai_cli.Prelude.{
  ℕ, ◌/◌, ◌*◌, String, true, none, some, ◌≡◌, ◌≢◌, ◌↔◌, refl, ℤ, pos, ◌==◌, str_eq, decimal,
  if◌then◌else◌,
}
use runai_cli.Submit.Resources.{
  Arithmetic, GpuArgs, handle_requested_gpus, too_little_memory, ImageArgs,
  handle_image_pull_policy,
}
use runai_cli.Submit.Resources.Gpus.{Handled, handle_requested_gpus-Handled}
use runai_cli.Submit.Resources.Images.{IsPolicy, handle_image_pull_policy-IsPolicy}

abbrev whole_part : ℤ → ℕ
whole_part (pos n) = n
whole_part n = 0

-- Numbers of GPUs in tenths, and two quantities.
abbrev tenths : Arithmetic
tenths = record {
  Float = ℕ;
  truncate = λ x. pos (x / 10);
  of_int = λ n. whole_part n * 10;
  same = λ x y. x == y;
  general = decimal;
  parse_quantity = λ text.
      if str_eq text "1G"
      then some (pos 1000000000)
      else if str_eq text "1M"
      then some (pos 1000000)
      else none;
}

abbrev asks : String → GpuArgs ℕ
asks memory = record { gpu = none; gpu_int = none; gpu_fraction = ""; gpu_memory = memory }

gpu_tests :
    (handle_requested_gpus tenths (asks "1G") ≡ (asks "1000", none))
    × ((handle_requested_gpus tenths (asks "1M")).1 ≡ some too_little_memory)
    × ((handle_requested_gpus tenths (record (asks "") { gpu = some 20 })).0.gpu_int ≡ some (pos 2))
    × ((handle_requested_gpus tenths (record (asks "") { gpu = some 5 })).0.gpu_fraction ≡ "5")
unfolding handle_requested_gpus decimal
gpu_tests = (refl, refl, refl, refl)

handle_requested_gpus-Handled_example :
    Handled tenths (asks "1G") (handle_requested_gpus tenths (asks "1G")).0
unfolding handle_requested_gpus
handle_requested_gpus-Handled_example = handle_requested_gpus-Handled tenths (asks "1G") refl

abbrev pulls : ImageArgs
pulls = record { image_pull_policy = "IfNotPresent"; local_image = some true }

keeps_given :
    (((handle_image_pull_policy pulls).1 ≡ none) ↔ IsPolicy pulls.image_pull_policy)
    × (IsPolicy pulls.image_pull_policy
        → pulls.local_image ≡ some true
        → (handle_image_pull_policy pulls).0.image_pull_policy ≡ "Never")
    × (pulls.local_image ≢ some true → (handle_image_pull_policy pulls).0 ≡ pulls)
    × ((handle_image_pull_policy pulls).0.local_image ≡ pulls.local_image)
keeps_given = handle_image_pull_policy-IsPolicy pulls
