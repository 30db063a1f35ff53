-- ===== src/Submit/Volume/Mounts.antt =====
-- The --volume parameters: the scan that checks them, and where it stops.
use runai_cli.Prelude.{
  String, Option, none, List, [], ◌∷◌, ◌++◌, split, eq_iff, ◌≡◌, ◌≢◌, refl, ◌⊎◌, inl, inr, ◌↔◌,
  arith, All, ◌∙◌, sym,
}
use runai_cli.Submit.Volume.{VolumeError, check_volume, handle_volumes}
use runai_cli.Submit.Volume.Pvc.{validate-IsMode_iff}

-- A host path and a container path, with no access mode or an empty one.
abbrev pub IsPlain : List String → Type 0
IsPlain (host ∷ (path ∷ [])) = Unit
IsPlain (host ∷ (path ∷ (mode ∷ []))) = mode ≡ ""
IsPlain parts = ⊥

-- The same with an access mode.
abbrev pub HasMode : List String → Type 0
HasMode (host ∷ (path ∷ (mode ∷ []))) = (mode ≡ "ro") ⊎ (mode ≡ "rw")
HasMode parts = ⊥

check_volume-plain :
    (parts : List String) (later : Option VolumeError)
    → IsPlain parts
    → check_volume parts later ≡ later
unfolding check_volume
check_volume-plain (a ∷ (b ∷ [])) later h = refl
check_volume-plain (a ∷ (b ∷ (c ∷ []))) later h = ground (arith, eq_iff c "")
check_volume-plain [] later h = absurd h
check_volume-plain (a ∷ []) later h = absurd h
check_volume-plain (a ∷ (b ∷ (c ∷ (d ∷ r)))) later h = absurd h

mode_ne_nil : (mode : String) → (mode ≡ "ro") ⊎ (mode ≡ "rw") → mode ≢ ""
mode_ne_nil mode (inl h) e = cc (sym h ∙ e)
mode_ne_nil mode (inr h) e = cc (sym h ∙ e)

check_volume-mode :
    (parts : List String) (later : Option VolumeError)
    → HasMode parts
    → check_volume parts later ≡ none
unfolding check_volume
check_volume-mode (a ∷ (b ∷ (c ∷ []))) later h =
    ground (arith, eq_iff c "", validate-IsMode_iff c, eq_iff c "ro", eq_iff c "rw", mode_ne_nil c)
check_volume-mode [] later h = absurd h
check_volume-mode (a ∷ []) later h = absurd h
check_volume-mode (a ∷ (b ∷ [])) later h = absurd h
check_volume-mode (a ∷ (b ∷ (c ∷ (d ∷ r)))) later h = absurd h

check_volume_inv :
    (parts : List String) (later : Option VolumeError)
    → check_volume parts later ≡ none
    → (IsPlain parts × (later ≡ none)) ⊎ HasMode parts
unfolding check_volume
check_volume_inv (a ∷ (b ∷ [])) later h = inl (tt, h)
check_volume_inv (a ∷ (b ∷ (c ∷ []))) later h = ground (arith, eq_iff c "", validate-IsMode_iff c)
check_volume_inv [] later h = cc
check_volume_inv (a ∷ []) later h = cc
check_volume_inv (a ∷ (b ∷ (c ∷ (d ∷ r)))) later h = cc

-- Every parameter up to the first one with an access mode has the right form.
abbrev pub IsScanned : List String → Type 0
IsScanned [] = Unit
IsScanned (joined ∷ rest) =
    (IsPlain (split b':' joined) × IsScanned rest) ⊎ HasMode (split b':' joined)

-- The --volume parameters are accepted exactly when those up to the first one that gives an access
-- mode have the right form: those behind it are not looked at.
pub handle_volumes-IsScanned :
    (volumes : List String) → (handle_volumes volumes ≡ none) ↔ IsScanned volumes
unfolding handle_volumes
handle_volumes-IsScanned [] = (λ _. tt, λ _. refl)
handle_volumes-IsScanned (joined ∷ rest) =
    let parts = split b':' joined in
    let later = handle_volumes rest in
    let ih = handle_volumes-IsScanned rest in
    (
      λ h. elim (check_volume_inv parts later h) [ inl k ↦ inl (k.0, ih.0 k.1) | inr k ↦ inr k ],
      λ s. elim s [
        | inl k ↦ check_volume-plain parts later k.0 ∙ ih.1 k.1
        | inr k ↦ check_volume-mode parts later k
      ],
    )

-- Once a parameter gives the mode "ro" or "rw", any parameters at all are accepted behind it.
pub handle_volumes-unchecked :
    (plain : List String) (joined : String) (rest : List String)
    → All (λ v. IsPlain (split b':' v)) plain
    → HasMode (split b':' joined)
    → handle_volumes (plain ++ joined ∷ rest) ≡ none
unfolding handle_volumes
handle_volumes-unchecked [] joined rest h k = check_volume-mode _ _ k
handle_volumes-unchecked (v ∷ plain) joined rest h k =
    check_volume-plain _ _ h.0 ∙ handle_volumes-unchecked plain joined rest h.1 k
