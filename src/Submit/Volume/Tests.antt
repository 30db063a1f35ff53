-- ===== src/Submit/Volume/Tests.antt =====
-- Runs of the volume handlers, and their theorems at concrete arguments.
use runai_cli.Prelude.{String, none, some, List, [], ◌∷◌, ◌≡◌, refl, inr, All, split, join, ◌++◌}
use runai_cli.Validate.{
  validate_mount_read_only_flag, validate_storage_class_name, validate_storage_resource_request,
}
use runai_cli.Submit.Volume.{
  VolumeArgs, handle_pvc_params, handle_volumes, handle_volumes_and_pvc, no_size,
}
use runai_cli.Submit.Volume.Pvc.{
  Pointwise, IsRebuilt, handle_pvc_params-IsRebuilt, Acceptable, handle_pvc_params-Acceptable,
}
use runai_cli.Submit.Volume.Mounts.{handle_volumes-unchecked, IsScanned, handle_volumes-IsScanned}
use runai_cli.Prelude.{◌↔◌}

-- What a test unfolds to run the handlers.
handlers : Unit {0}
unfolding handle_volumes_and_pvc split join validate_mount_read_only_flag
    validate_storage_class_name validate_storage_resource_request
handlers = tt

abbrev claims : VolumeArgs
claims = record {
  persistent_volumes = "pvc-name:/path" ∷ ":2Gi:/path" ∷ "class:5G:/data:ro" ∷ [];
  volumes = "/host:/path" ∷ "/tmp:/tmp:rw" ∷ "nonsense" ∷ [];
}

claims_rebuilt : handle_pvc_params claims ≡ (
  record claims {
    persistent_volumes = "pvc-name:/path:" ∷ ":2Gi:/path:" ∷ "class:5G:/data:ro" ∷ [];
  },
  none,
)
unfolding handlers
claims_rebuilt = refl

both_handled : (handle_volumes_and_pvc claims).1 ≡ none
unfolding handlers
both_handled = refl

three_part_error :
    (handle_pvc_params (record claims { persistent_volumes = "::/path" ∷ [] })).1 ≡ some no_size
unfolding handlers
three_part_error = refl

handle_pvc_params-IsRebuilt_example :
    (texts : List String) × ((handle_pvc_params claims).0
      ≡ record claims { persistent_volumes = texts })
    × Pointwise IsRebuilt claims.persistent_volumes texts
unfolding handlers
handle_pvc_params-IsRebuilt_example = handle_pvc_params-IsRebuilt claims refl

handle_pvc_params-Acceptable_example :
    ((handle_pvc_params claims).1 ≡ none)
    ↔ All (λ given. Acceptable (split b':' given)) claims.persistent_volumes
handle_pvc_params-Acceptable_example = handle_pvc_params-Acceptable claims

handle_volumes-IsScanned_example : (handle_volumes claims.volumes ≡ none) ↔ IsScanned claims.volumes
handle_volumes-IsScanned_example = handle_volumes-IsScanned claims.volumes

unchecked_behind_mode :
    handle_volumes (("/host:/path" ∷ []) ++ "/tmp:/tmp:rw" ∷ "nonsense" ∷ []) ≡ none
unfolding handlers
unchecked_behind_mode =
    handle_volumes-unchecked ("/host:/path" ∷ []) "/tmp:/tmp:rw" ("nonsense" ∷ []) (tt, tt)
      (inr refl)
