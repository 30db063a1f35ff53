-- ===== src/Submit/Volume.antt =====
-- cmd/job/submit/volume_handler.go: the --pvc and --volume parameters of a job.
pub mod Pvc
pub mod Mounts
mod Tests
use runai_cli.Prelude.{
  ℕ, String, Bool, true, false, ◌&&◌, ◌||◌, Option, none, some, List, [], ◌∷◌, ◌++◌, split, join,
  length, ltb, ◌==◌, str_eq, is_some, not, if◌then◌else◌,
}
use runai_cli.Validate.{
  Invalid, access_mode_read_only_param, access_mode_read_write_param, validate_storage_class_name,
  validate_mount_read_only_flag, validate_storage_resource_request,
}

-- The errors, by the message that the code formats, and the panic of an index out of range.
pub data VolumeError : Type 0 where
  bad_pvc_form no_claim_name no_mount_path no_size bad_volume_form out_of_range : VolumeError
  invalid : Invalid → VolumeError

-- The fields of `submitArgs` that the handlers read and write.
pub record VolumeArgs : Type 0 where
  pub persistent_volumes : List String
  pub volumes : List String

abbrev pub Rebuilt : Type 0
Rebuilt = String × Option VolumeError

unfoldable pub as_error : Option Invalid → Option VolumeError
as_error none = none
as_error (some e) = some (invalid e)

-- Whether the parts are read as an existing claim. The caller passes two, three or four of them.
unfoldable pub extrapolate_param_type : List String → Bool
extrapolate_param_type (claim ∷ (path ∷ [])) = true
extrapolate_param_type (class ∷ (size ∷ (path ∷ (mode ∷ [])))) = false
extrapolate_param_type (first ∷ (second ∷ (third ∷ more))) =
    if str_eq first ""
    then false
    else if not (is_some (validate_storage_resource_request second))
    then false
    else if str_eq third access_mode_read_only_param || str_eq third access_mode_read_write_param
    then true
    else true
extrapolate_param_type parts = true

abbrev existing_pvc : String → String → String → Rebuilt
existing_pvc claim path mode =
    let err =
      if str_eq claim ""
      then some no_claim_name
      else if str_eq path ""
      then some no_mount_path
      else as_error (validate_mount_read_only_flag mode) in
    (join ":" (claim ∷ path ∷ mode ∷ []), err)

-- Two parts are completed by an empty access mode; parts behind the third are not read.
unfoldable pub handle_existing_pvc : List String → Rebuilt
unfolding as_error
handle_existing_pvc (claim ∷ (path ∷ [])) = existing_pvc claim path ""
handle_existing_pvc (claim ∷ (path ∷ (mode ∷ more))) = existing_pvc claim path mode
handle_existing_pvc parts = ("", some out_of_range)

abbrev dynamic_pvc : String → String → String → String → Rebuilt
dynamic_pvc class size path mode =
    let err =
      if str_eq size ""
      then some no_size
      else if str_eq path ""
      then some no_mount_path
      else if is_some (validate_storage_class_name class)
      then as_error (validate_storage_class_name class)
      else if is_some (validate_storage_resource_request size)
      then as_error (validate_storage_resource_request size)
      else as_error (validate_mount_read_only_flag mode) in
    (join ":" (class ∷ size ∷ path ∷ mode ∷ []), err)

unfoldable pub handle_dynamic_provision_pvc : List String → Rebuilt
unfolding as_error
handle_dynamic_provision_pvc (class ∷ (size ∷ (path ∷ []))) = dynamic_pvc class size path ""
handle_dynamic_provision_pvc (class ∷ (size ∷ (path ∷ (mode ∷ more)))) =
    dynamic_pvc class size path mode
handle_dynamic_provision_pvc parts = ("", some out_of_range)

-- One round of the loop over the claims, once their number of parts is known to be right.
unfoldable pub rebuild : List String → Rebuilt
unfolding extrapolate_param_type handle_existing_pvc handle_dynamic_provision_pvc
rebuild parts =
    if extrapolate_param_type parts
    then handle_existing_pvc parts
    else handle_dynamic_provision_pvc parts

-- The loop of `handlePvcParams`: `rebuilt` is what it has appended so far.
unfoldable pub handle_pvc_loop :
    VolumeArgs → List String → List String → VolumeArgs × Option VolumeError
unfolding rebuild
handle_pvc_loop args rebuilt [] = (record args { persistent_volumes = rebuilt }, none)
handle_pvc_loop args rebuilt (joined ∷ rest) =
    let parts = split b':' joined in
    let (text, err) = rebuild parts in
    elim (ltb (length parts) 2 || ltb 4 (length parts)) [
      | true ↦ (args, some bad_pvc_form)
      | false ↦ elim err [
        | some e ↦ (record args { persistent_volumes = rebuilt ++ text ∷ [] }, some e)
        | none ↦ handle_pvc_loop args (rebuilt ++ text ∷ []) rest
      ]
    ]

unfoldable pub handle_pvc_params : VolumeArgs → VolumeArgs × Option VolumeError
unfolding handle_pvc_loop
handle_pvc_params args = handle_pvc_loop args [] args.persistent_volumes

-- One round of the loop over --volume, with the verdict of the later rounds.
unfoldable pub check_volume : List String → Option VolumeError → Option VolumeError
unfolding as_error
check_volume (host ∷ (path ∷ [])) later = later
check_volume (host ∷ (path ∷ (mode ∷ []))) later =
    if str_eq mode "" then later else as_error (validate_mount_read_only_flag mode)
check_volume parts later = some bad_volume_form

-- The loop returns at the first parameter that gives an access mode.
unfoldable pub handle_volumes : List String → Option VolumeError
unfolding check_volume
handle_volumes [] = none
handle_volumes (joined ∷ rest) = check_volume (split b':' joined) (handle_volumes rest)

unfoldable pub handle_volumes_and_pvc : VolumeArgs → VolumeArgs × Option VolumeError
unfolding handle_pvc_params handle_volumes
handle_volumes_and_pvc args =
    let (args', err) = handle_pvc_params args in
    elim err [ some e ↦ (args', some e) | none ↦ (args', handle_volumes args'.volumes) ]
