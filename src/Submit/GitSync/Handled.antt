-- ===== src/Submit/GitSync/Handled.antt =====
-- What the handler of the git-sync arguments fills in.
use runai_cli.Prelude.{
  String, true, false, none, some, str_eq, eq_iff, if◌then◌else◌, not, ◌||◌, ◌≡◌, ◌≢◌, refl, ◌⊎◌,
  inl, inr, ◌↔◌, arith, Bool-cases, ap, ◌∙◌,
}
use runai_cli.Submit.GitSync.{
  GitSync, no_repository, handle_git_sync, is_bool_true, fill, default_git_sync_image,
  default_sync_directory, default_branch,
}

-- Arguments with which a repository can be cloned, but for its address.
pub record IsFilled (gs : GitSync) : Type 0 where
  pub image : gs.image ≢ ""
  pub directory : gs.directory ≢ ""
  pub version :
      ((gs.revision ≢ "") × (gs.by_revision ≡ true)) ⊎ ((gs.revision ≡ "") × (gs.branch ≢ ""))
  pub credentials : gs.username ≢ "" → gs.use_credentials ≡ true
  pub secret : gs.password ≢ "" → gs.use_credentials ≡ true

-- What is given stays, and only what is missing is filled in.
pub record IsCompleted (old new : GitSync) : Type 0 where
  pub image : old.image ≢ "" → new.image ≡ old.image
  pub no_image : old.image ≡ "" → new.image ≡ "k8s.gcr.io/git-sync/git-sync:v3.2.0"
  pub directory : old.directory ≢ "" → new.directory ≡ old.directory
  pub no_directory : old.directory ≡ "" → new.directory ≡ "/code"
  pub branch : old.revision ≢ "" ⊎ old.branch ≢ "" → new.branch ≡ old.branch
  pub no_branch : old.revision ≡ "" → old.branch ≡ "" → new.branch ≡ "master"
  pub revision : old.revision ≢ "" → new.by_revision ≡ true
  pub no_revision : old.revision ≡ "" → new.by_revision ≡ old.by_revision
  pub credentials : old.username ≢ "" ⊎ old.password ≢ "" → new.use_credentials ≡ true
  pub no_credentials :
      old.username ≡ "" → old.password ≡ "" → new.use_credentials ≡ old.use_credentials

fill-IsCompleted : (gs : GitSync) → IsCompleted gs (fill gs)
unfolding fill
fill-IsCompleted gs = record {
  image = ground (arith, eq_iff gs.image "");
  no_image = ground (arith, eq_iff gs.image "");
  directory = ground (arith, eq_iff gs.directory "");
  no_directory = ground (arith, eq_iff gs.directory "");
  branch = ground (arith, eq_iff gs.revision "", eq_iff gs.branch "");
  no_branch = ground (arith, eq_iff gs.revision "", eq_iff gs.branch "");
  revision = ground (arith, eq_iff gs.revision "");
  no_revision = ground (arith, eq_iff gs.revision "");
  credentials = ground (arith, eq_iff gs.username "", eq_iff gs.password "");
  no_credentials = ground (arith, eq_iff gs.username "", eq_iff gs.password "");
}

fill_fixed : (gs : GitSync) → IsFilled gs → fill gs ≡ gs
unfolding fill
fill_fixed gs h =
    let version = h.version in
    λ i. record {
      sync = gs.sync;
      image = image i;
      repository = gs.repository;
      by_revision = by_revision i;
      branch = branch i;
      revision = gs.revision;
      username = gs.username;
      password = gs.password;
      use_credentials = use_credentials i;
      directory = directory i;
    }
  where
    image : (if str_eq gs.image "" then default_git_sync_image else gs.image) ≡ gs.image
    image = ground (arith, eq_iff gs.image "", h.image)

    directory :
        (if str_eq gs.directory "" then default_sync_directory else gs.directory) ≡ gs.directory
    directory = ground (arith, eq_iff gs.directory "", h.directory)

    by_revision : (if not (str_eq gs.revision "") then true else gs.by_revision) ≡ gs.by_revision
    by_revision = ground (arith, eq_iff gs.revision "", h.version)

    branch :
        (if not (str_eq gs.revision "")
          then gs.branch
          else if str_eq gs.branch ""
          then default_branch
          else gs.branch)
        ≡ gs.branch
    branch = ground (arith, eq_iff gs.revision "", eq_iff gs.branch "", h.version)

    use_credentials :
        (if not (str_eq gs.username "") || not (str_eq gs.password "")
          then true
          else gs.use_credentials)
        ≡ gs.use_credentials
    use_credentials =
        ground (arith, eq_iff gs.username "", eq_iff gs.password "", h.credentials, h.secret)

given_ne :
    (given default : String) → default ≢ "" → (if str_eq given "" then default else given) ≢ ""
given_ne given default h = elim (Bool-cases (str_eq given "")) [
  | inl e ↦ rw e h
  | inr e ↦ rw e (λ d. cc (rw d at e))
]

fill-IsFilled : (gs : GitSync) → IsFilled (fill gs)
unfolding fill
fill-IsFilled gs = record {
  image = λ e. given_ne gs.image default_git_sync_image (λ d. cc) e;
  directory = λ e. given_ne gs.directory default_sync_directory (λ d. cc) e;
  version = elim (Bool-cases (str_eq gs.revision "")) [
    | inl e ↦ inr ((eq_iff gs.revision "").0 e, rw e (given_ne gs.branch default_branch (λ d. cc)))
    | inr e ↦ inl (ground (arith, eq_iff gs.revision ""), rw e)
  ];
  credentials = ground (arith, eq_iff gs.username "");
  secret = ground (arith, eq_iff gs.password "");
}

handle_git_sync_on :
    (gs : GitSync)
    → is_bool_true gs.sync ≡ true
    → handle_git_sync gs ≡ (fill gs, if str_eq gs.repository "" then some no_repository else none)
unfolding handle_git_sync
handle_git_sync_on gs on = rw on

handle_git_sync_off :
    (gs : GitSync) → is_bool_true gs.sync ≡ false → handle_git_sync gs ≡ (gs, none)
unfolding handle_git_sync
handle_git_sync_off gs off = rw off

module _ (gs : GitSync) where
  -- With git-sync switched on, the image, the directory and the branch get their default exactly where
  -- none is given, the branch only where no revision is given either. A revision asks for a checkout by
  -- revision, and a user name or a password for credentials; otherwise these two stay as they are. The
  -- repository, revision, user name and password stay as given, and the handler fails exactly when no
  -- repository is named.
  pub handle_git_sync-IsFilled :
      gs.sync ≡ some true
      → IsCompleted gs (handle_git_sync gs).0
        × IsFilled (handle_git_sync gs).0
        × ((handle_git_sync gs).0.repository ≡ gs.repository)
        × ((handle_git_sync gs).0.revision ≡ gs.revision)
        × ((handle_git_sync gs).0.username ≡ gs.username)
        × ((handle_git_sync gs).0.password ≡ gs.password)
        × (((handle_git_sync gs).1 ≡ some no_repository) ↔ (gs.repository ≡ ""))
  unfolding fill
  handle_git_sync-IsFilled on = rw (handle_git_sync_on gs (ap is_bool_true on)) (
    fill-IsCompleted gs,
    fill-IsFilled gs,
    refl,
    refl,
    refl,
    refl,
    ground (arith, eq_iff gs.repository ""),
  )

  -- The handler changes nothing when it runs a second time on its own result.
  pub handle_git_sync_idempotent : handle_git_sync (handle_git_sync gs).0 ≡ handle_git_sync gs
  unfolding fill
  handle_git_sync_idempotent = elim (Bool-cases (is_bool_true gs.sync)) [
    | inl on ↦ rw (handle_git_sync_on gs on) (
        handle_git_sync_on (fill gs) on
        ∙ ap (λ g. (g, if str_eq gs.repository "" then some no_repository else none))
            (fill_fixed (fill gs) (fill-IsFilled gs)))
    | inr off ↦ rw (handle_git_sync_off gs off) (handle_git_sync_off gs off)
  ]
