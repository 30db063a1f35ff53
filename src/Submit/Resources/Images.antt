-- ===== src/Submit/Resources/Images.antt =====
-- When the image of a job is pulled.
use runai_cli.Prelude.{String, true, none, some, eq_iff, ◌≡◌, ◌≢◌, ◌⊎◌, ◌↔◌, arith}
use runai_cli.Submit.Resources.{ImageArgs, handle_image_pull_policy}

abbrev pub IsPolicy : String → Type 0
IsPolicy policy = (policy ≡ "Always") ⊎ ((policy ≡ "IfNotPresent") ⊎ (policy ≡ "Never"))

-- A policy is accepted exactly when it is one of the three; it stays as it is, but a local image is
-- never pulled; the other argument is left alone.
pub handle_image_pull_policy-IsPolicy :
    (args : ImageArgs)
    → (((handle_image_pull_policy args).1 ≡ none) ↔ IsPolicy args.image_pull_policy)
      × (IsPolicy args.image_pull_policy
          → args.local_image ≡ some true
          → (handle_image_pull_policy args).0.image_pull_policy ≡ "Never")
      × (args.local_image ≢ some true → (handle_image_pull_policy args).0 ≡ args)
      × ((handle_image_pull_policy args).0.local_image ≡ args.local_image)
unfolding handle_image_pull_policy
handle_image_pull_policy-IsPolicy args =
    let policy = args.image_pull_policy in
    (
      ground (arith, eq_iff policy "Always", eq_iff policy "IfNotPresent", eq_iff policy "Never"),
      ground (arith, eq_iff policy "Always", eq_iff policy "IfNotPresent", eq_iff policy "Never"),
      ground (arith, eq_iff policy "Always", eq_iff policy "IfNotPresent", eq_iff policy "Never"),
      ground arith,
    )
