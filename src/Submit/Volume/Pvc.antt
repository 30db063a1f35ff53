-- ===== src/Submit/Volume/Pvc.antt =====
-- The --pvc parameters: which are accepted, and what the accepted ones are rebuilt to.
use Prim.Native.String
use mathlib.Core.Path.{subst}
use mathlib.Core.List.{append-nil, append_assoc}
use text.Mathlib.TextLemmas.{append_assoc as String_append_assoc, append-nil as String_append-nil}
use runai_cli.Prelude.{
  String, codes, none, List, [], ◌∷◌, ◌++◌, split, join, length, eq_iff, if◌then◌else◌, ◌≡◌, ◌≢◌,
  refl, ◌∙◌, ◌↔◌, ◌⊎◌, inl, inr, arith, All, Bool-cases, ◌≤◌, Lacks, split-join, join-split,
  All-split,
}
use runai_cli.Validate.Sizes.{IsSize, IsClass, validate-IsSize_iff, validate-IsClass_iff}
use runai_cli.Validate.{validate_mount_read_only_flag, validate_storage_resource_request}
use runai_cli.Submit.Volume.{
  VolumeArgs, extrapolate_param_type, rebuild, handle_pvc_loop, handle_pvc_params,
}

abbrev pub IsMode : String → Type 0
IsMode mode = (mode ≡ "") ⊎ ((mode ≡ "ro") ⊎ (mode ≡ "rw"))

abbrev pub IsQuantity : String → Type 0
IsQuantity size = IsSize (codes size)

pub validate-IsMode_iff :
    (mode : String) → (validate_mount_read_only_flag mode ≡ none) ↔ IsMode mode
unfolding validate_mount_read_only_flag
validate-IsMode_iff mode = ground (arith, eq_iff mode "", eq_iff mode "ro", eq_iff mode "rw")

-- An existing claim, with its mode; a new volume of a storage class.
abbrev pub IsExisting : String → String → String → Type 0
IsExisting claim path mode = (claim ≢ "") × (path ≢ "") × IsMode mode

abbrev pub IsDynamic : String → String → String → String → Type 0
IsDynamic class size path mode = IsClass class × IsQuantity size × (path ≢ "") × IsMode mode

-- The accepted forms. Three parts whose second is a quantity are never an existing claim.
abbrev pub Acceptable : List String → Type 0
Acceptable (claim ∷ (path ∷ [])) = IsExisting claim path ""
Acceptable (a ∷ (b ∷ (c ∷ []))) = (¬ (IsQuantity b) × IsExisting a b c) ⊎ IsDynamic a b c ""
Acceptable (class ∷ (size ∷ (path ∷ (mode ∷ [])))) = IsDynamic class size path mode
Acceptable parts = ⊥

-- What the chart expects: three parts for an existing claim, four for a new volume.
abbrev pub IsNormal : List String → Type 0
IsNormal (claim ∷ (path ∷ (mode ∷ []))) = IsExisting claim path mode
IsNormal (class ∷ (size ∷ (path ∷ (mode ∷ [])))) = IsDynamic class size path mode
IsNormal parts = ⊥

quantity-ne-nil : (size : String) → IsQuantity size → size ≢ ""
unfolding validate_storage_resource_request
quantity-ne-nil size h e = let k = (validate-IsSize_iff size).1 h in cc (rw e at k)

rebuild_accepts :
    (parts : List String)
    → 2 ≤ length parts
    → length parts ≤ 4
    → ((rebuild parts).1 ≡ none) ↔ Acceptable parts
unfolding rebuild
rebuild_accepts [] h k = absurd (omega arith)
rebuild_accepts (a ∷ []) h k = absurd (omega arith)
rebuild_accepts (a ∷ (b ∷ [])) h k =
    ground (arith, eq_iff a "", eq_iff b "", validate-IsMode_iff "")
rebuild_accepts (a ∷ (b ∷ (c ∷ []))) h k = ground (
  arith,
  eq_iff a "",
  eq_iff b "",
  eq_iff c "",
  eq_iff c "ro",
  eq_iff c "rw",
  validate-IsMode_iff "",
  validate-IsMode_iff c,
  validate-IsSize_iff b,
  validate-IsClass_iff a,
  quantity-ne-nil b,
)
rebuild_accepts (a ∷ (b ∷ (c ∷ (d ∷ [])))) h k = ground (
  arith,
  eq_iff b "",
  eq_iff c "",
  validate-IsMode_iff d,
  validate-IsSize_iff b,
  validate-IsClass_iff a,
  quantity-ne-nil b,
)
rebuild_accepts (a ∷ (b ∷ (c ∷ (d ∷ (e ∷ r))))) h k = absurd (omega arith)

Acceptable-length :
    (parts : List String) → Acceptable parts → (2 ≤ length parts) × (length parts ≤ 4)
Acceptable-length [] h = absurd h
Acceptable-length (a ∷ []) h = absurd h
Acceptable-length (a ∷ (b ∷ [])) h = omega arith
Acceptable-length (a ∷ (b ∷ (c ∷ []))) h = omega arith
Acceptable-length (a ∷ (b ∷ (c ∷ (d ∷ [])))) h = omega arith
Acceptable-length (a ∷ (b ∷ (c ∷ (d ∷ (e ∷ r))))) h = absurd h

-- The parts of a rebuilt text, before they are joined.
abbrev completed : List String → List String
completed (a ∷ (b ∷ [])) = a ∷ b ∷ "" ∷ []
completed (a ∷ (b ∷ (c ∷ []))) =
    if extrapolate_param_type (a ∷ b ∷ c ∷ []) then a ∷ b ∷ c ∷ [] else a ∷ b ∷ c ∷ "" ∷ []
completed parts = parts

rebuild-completed :
    (parts : List String) → Acceptable parts → (rebuild parts).0 ≡ join ":" (completed parts)
unfolding rebuild
rebuild-completed [] h = absurd h
rebuild-completed (a ∷ []) h = absurd h
rebuild-completed (a ∷ (b ∷ [])) h = refl
rebuild-completed (a ∷ (b ∷ (c ∷ []))) h = ground (arith, validate-IsSize_iff b)
rebuild-completed (a ∷ (b ∷ (c ∷ (d ∷ [])))) h = refl
rebuild-completed (a ∷ (b ∷ (c ∷ (d ∷ (e ∷ r))))) h = absurd h

completed-IsNormal : (parts : List String) → Acceptable parts → IsNormal (completed parts)
unfolding extrapolate_param_type
completed-IsNormal [] h = absurd h
completed-IsNormal (a ∷ []) h = absurd h
completed-IsNormal (a ∷ (b ∷ [])) h = h
completed-IsNormal (a ∷ (b ∷ (c ∷ []))) h =
    ground (arith, validate-IsSize_iff b, eq_iff a "", eq_iff c "ro", eq_iff c "rw")
completed-IsNormal (a ∷ (b ∷ (c ∷ (d ∷ [])))) h = h
completed-IsNormal (a ∷ (b ∷ (c ∷ (d ∷ (e ∷ r))))) h = absurd h

abbrev NoColon : String → Type 0
NoColon s = Lacks b':' s

completed-NoColon :
    (parts : List String) → All NoColon parts → Acceptable parts → All NoColon (completed parts)
completed-NoColon [] k h = tt
completed-NoColon (a ∷ []) k h = k
completed-NoColon (a ∷ (b ∷ [])) k h = (k.0, (k.1.0, (tt, tt)))
completed-NoColon (a ∷ (b ∷ (c ∷ []))) k h =
    elim (Bool-cases (extrapolate_param_type (a ∷ b ∷ c ∷ []))) [
      | inl e ↦ rw e k
      | inr e ↦ rw e (k.0, (k.1.0, (k.1.1.0, (tt, tt))))
    ]
completed-NoColon (a ∷ (b ∷ (c ∷ (d ∷ [])))) k h = k
completed-NoColon (a ∷ (b ∷ (c ∷ (d ∷ (e ∷ r))))) k h = absurd h

split-join-colon :
    (parts : List String) → All NoColon parts → IsNormal parts → split b':' (join ":" parts) ≡ parts
split-join-colon [] k h = absurd h
split-join-colon (a ∷ r) k h = split-join ":" a r k.0 k.1

-- A rebuilt text is the given one, or the given one with an empty access mode behind it.
abbrev pub Completes : String → String → Type 0
Completes given text = (text ≡ given) ⊎ (text ≡ String.◌++◌ given ":")

join-completed :
    (parts : List String)
    → Acceptable parts
    → Completes (join ":" parts) (join ":" (completed parts))
unfolding join
join-completed [] h = absurd h
join-completed (a ∷ []) h = absurd h
join-completed (a ∷ (b ∷ [])) h = inr (simp (String_append_assoc, String_append-nil))
join-completed (a ∷ (b ∷ (c ∷ []))) h =
    elim (Bool-cases (extrapolate_param_type (a ∷ b ∷ c ∷ []))) [
      | inl e ↦ rw e (inl refl)
      | inr e ↦ rw e (inr (simp (String_append_assoc, String_append-nil)))
    ]
join-completed (a ∷ (b ∷ (c ∷ (d ∷ [])))) h = inl refl
join-completed (a ∷ (b ∷ (c ∷ (d ∷ (e ∷ r))))) h = absurd h

-- What the loop writes back for one accepted parameter.
abbrev pub IsRebuilt : String → String → Type 0
IsRebuilt given text = Completes given text × IsNormal (split b':' text)

rebuild-IsRebuilt :
    (given : String)
    → Acceptable (split b':' given)
    → IsRebuilt given (rebuild (split b':' given)).0
rebuild-IsRebuilt given h =
    let parts = split b':' given in
    let text = rebuild-completed parts h in
    let normal = completed-IsNormal parts h in
    let back = split-join-colon _ (completed-NoColon parts (All-split b':' given) h) normal in
    (
      rw text (
          subst (λ g. Completes g (join ":" (completed parts))) (join-split ":" given)
            (join-completed parts h)),
      rw (text, back) normal,
    )

-- Lists of the same length, related element by element.
abbrev pub Pointwise {ℓ} : {A B : Type ℓ} → (A → B → Type 0) → List A → List B → Type 0
Pointwise R [] [] = Unit
Pointwise R (x ∷ xs) (y ∷ ys) = R x y × Pointwise R xs ys
Pointwise R [] (y ∷ ys) = ⊥
Pointwise R (x ∷ xs) [] = ⊥

abbrev IsAccepted : String → Type 0
IsAccepted given = Acceptable (split b':' given)

loop_accepts :
    (args : VolumeArgs) (acc given : List String)
    → ((handle_pvc_loop args acc given).1 ≡ none) ↔ All IsAccepted given
unfolding handle_pvc_loop
loop_accepts args acc [] = (λ _. tt, λ _. refl)
loop_accepts args acc (joined ∷ rest) =
    let parts = split b':' joined in
    ground (
      arith,
      rebuild_accepts parts,
      Acceptable-length parts,
      loop_accepts args (acc ++ (rebuild parts).0 ∷ []) rest,
    )

loop_rebuilds :
    (args : VolumeArgs) (acc given : List String)
    → All IsAccepted given
    → (texts : List String) × ((handle_pvc_loop args acc given).0
        ≡ record args { persistent_volumes = acc ++ texts })
      × Pointwise IsRebuilt given texts
unfolding handle_pvc_loop
loop_rebuilds args acc [] h = ([], rw append-nil, tt)
loop_rebuilds args acc (joined ∷ rest) h =
    let parts = split b':' joined in
    let text = (rebuild parts).0 in
    let (texts, q, r) = loop_rebuilds args (acc ++ text ∷ []) rest h.1 in
    let fits = Acceptable-length parts h.0 in
    let fine = (rebuild_accepts parts fits.0 fits.1).1 h.0 in
    let step : (handle_pvc_loop args acc (joined ∷ rest)).0
        ≡ (handle_pvc_loop args (acc ++ text ∷ []) rest).0 =
      ground arith in
    (text ∷ texts, step ∙ q ∙ rw append_assoc, (rebuild-IsRebuilt joined h.0, r))

-- The --pvc parameters are accepted exactly when each of them has one of the accepted forms: an
-- existing claim or a new volume. The claim and the path are not empty, the size has the form of a
-- quantity, the storage class is empty or a DNS-1123 label, and the access mode is left out, empty, "ro"
-- or "rw".
pub handle_pvc_params-Acceptable :
    (args : VolumeArgs)
    → ((handle_pvc_params args).1 ≡ none)
      ↔ All (λ given. Acceptable (split b':' given)) args.persistent_volumes
unfolding handle_pvc_params
handle_pvc_params-Acceptable args = loop_accepts args [] args.persistent_volumes

-- Accepted --pvc parameters are rewritten one by one, and nothing else of the arguments changes:
-- each text is the given one, or it with ":" behind it, and it splits into the three parts of an
-- existing claim or the four of a new volume.
pub handle_pvc_params-IsRebuilt :
    (args : VolumeArgs)
    → (handle_pvc_params args).1 ≡ none
    → (texts : List String) × ((handle_pvc_params args).0
        ≡ record args { persistent_volumes = texts })
      × Pointwise IsRebuilt args.persistent_volumes texts
unfolding handle_pvc_params
handle_pvc_params-IsRebuilt args h =
    loop_rebuilds args [] args.persistent_volumes
      ((loop_accepts args [] args.persistent_volumes).0 h)
