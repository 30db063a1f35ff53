-- ===== src/Submit/GitSync/Arguments.antt =====
-- Reading the arguments of a connection string.
use mathlib.Core.Path.{subst}
use mathlib.Core.Option.{some-injective}
use runai_cli.Prelude.{
  String, true, none, some, List, [], ◌∷◌, Map, lookup, assign, lookup-assign, split, str_eq,
  eq_iff, if◌then◌else◌, ◌≡◌, ◌↔◌, refl, ap, ◌∙◌, sym, Bool-cases, inl, inr, arith, str_eq_flip,
}
use runai_cli.Submit.GitSync.{
  new_git_sync, when_any, GitSync, add_argument, collect_arguments, set_argument, set_arguments,
  parse_git_sync_arguments, git_sync_from_connection_string,
}

-- Each key once, as in a Go map.
abbrev pub HasDistinctKeys : Map String → Type 0
HasDistinctKeys [] = Unit
HasDistinctKeys (entry ∷ m) = (lookup m entry.0 ≡ none) × HasDistinctKeys m

-- The value of a key, or what stands there already.
abbrev pub value_or : Map String → String → String → String
value_or m key old = elim (lookup m key) [ none ↦ old | some value ↦ value ]

-- The seven fields that the arguments name.
pub record AreRead (m : Map String) (old new : GitSync) : Type 0 where
  pub repository : new.repository ≡ value_or m "source" old.repository
  pub branch : new.branch ≡ value_or m "branch" old.branch
  pub revision : new.revision ≡ value_or m "rev" old.revision
  pub image : new.image ≡ value_or m "image" old.image
  pub username : new.username ≡ value_or m "username" old.username
  pub password : new.password ≡ value_or m "password" old.password
  pub directory : new.directory ≡ value_or m "target" old.directory

-- Which key of an argument a text is.
keys_iff :
    (key : String)
    → ((str_eq key "source" ≡ true) ↔ (key ≡ "source"))
      × ((str_eq key "branch" ≡ true) ↔ (key ≡ "branch"))
      × ((str_eq key "rev" ≡ true) ↔ (key ≡ "rev"))
      × ((str_eq key "image" ≡ true) ↔ (key ≡ "image"))
      × ((str_eq key "username" ≡ true) ↔ (key ≡ "username"))
      × ((str_eq key "password" ≡ true) ↔ (key ≡ "password"))
      × ((str_eq key "target" ≡ true) ↔ (key ≡ "target"))
keys_iff key = (
  eq_iff key "source",
  eq_iff key "branch",
  eq_iff key "rev",
  eq_iff key "image",
  eq_iff key "username",
  eq_iff key "password",
  eq_iff key "target",
)

set_argument-repository :
    (gs : GitSync) (key value : String)
    → (set_argument gs key value).repository
      ≡ (if str_eq key "source" then value else gs.repository)
unfolding set_argument
set_argument-repository gs key value = ground (arith, keys_iff key, keys_iff "source")

set_argument-branch :
    (gs : GitSync) (key value : String)
    → (set_argument gs key value).branch ≡ (if str_eq key "branch" then value else gs.branch)
unfolding set_argument
set_argument-branch gs key value = ground (arith, keys_iff key, keys_iff "branch")

set_argument-revision :
    (gs : GitSync) (key value : String)
    → (set_argument gs key value).revision ≡ (if str_eq key "rev" then value else gs.revision)
unfolding set_argument
set_argument-revision gs key value = ground (arith, keys_iff key, keys_iff "rev")

set_argument-image :
    (gs : GitSync) (key value : String)
    → (set_argument gs key value).image ≡ (if str_eq key "image" then value else gs.image)
unfolding set_argument
set_argument-image gs key value = ground (arith, keys_iff key, keys_iff "image")

set_argument-username :
    (gs : GitSync) (key value : String)
    → (set_argument gs key value).username ≡ (if str_eq key "username" then value else gs.username)
unfolding set_argument
set_argument-username gs key value = ground (arith, keys_iff key, keys_iff "username")

set_argument-password :
    (gs : GitSync) (key value : String)
    → (set_argument gs key value).password ≡ (if str_eq key "password" then value else gs.password)
unfolding set_argument
set_argument-password gs key value = ground (arith, keys_iff key, keys_iff "password")

set_argument-directory :
    (gs : GitSync) (key value : String)
    → (set_argument gs key value).directory ≡ (if str_eq key "target" then value else gs.directory)
unfolding set_argument
set_argument-directory gs key value = ground (arith, keys_iff key, keys_iff "target")

value_or_step :
    (m : Map String) (key name value old new : String)
    → lookup m key ≡ none
    → new ≡ (if str_eq key name then value else old)
    → value_or m name new ≡ value_or ((key, value) ∷ m) name old
unfolding lookup
value_or_step m key name value old new missing q = elim (Bool-cases (str_eq key name)) [
  | inl e ↦
      rw (e, value_or)
        (rw (ap (lookup m) (sym ((eq_iff key name).0 e)) ∙ missing, value_or) (q ∙ rw e))
  | inr e ↦ rw (e, value_or) (ap (value_or m name) (q ∙ rw e))
]

-- A field that one case of the switch writes holds the value of its key, or what it held.
set_arguments_field :
    (field : GitSync → String) (name : String)
    → ((gs : GitSync) (key value : String)
        → field (set_argument gs key value) ≡ (if str_eq key name then value else field gs))
    → (gs : GitSync) (m : Map String) → HasDistinctKeys m
    → field (set_arguments gs m) ≡ value_or m name (field gs)
unfolding set_arguments lookup
set_arguments_field field name one gs [] h = refl
set_arguments_field field name one gs ((key, value) ∷ m) h =
    set_arguments_field field name one (set_argument gs key value) m h.1
    ∙ value_or_step m key name value (field gs) _ h.0 (one gs key value)

assign-HasDistinctKeys :
    (m : Map String) (key value : String) → HasDistinctKeys m → HasDistinctKeys (assign m key value)
unfolding assign lookup
assign-HasDistinctKeys [] key value h = (refl, tt)
assign-HasDistinctKeys (entry ∷ m) key value h = elim (Bool-cases (str_eq entry.0 key)) [
  | inl e ↦ rw e (ap (lookup m) (sym ((eq_iff entry.0 key).0 e)) ∙ h.0, h.1)
  | inr e ↦ rw e (
    lookup-assign m key entry.0 value ∙ rw (str_eq_flip entry.0 key e) h.0,
    assign-HasDistinctKeys m key value h.1,
  )
]

add_argument-HasDistinctKeys :
    (m : Map String) (parts : List String)
    → HasDistinctKeys m
    → HasDistinctKeys (add_argument m parts)
unfolding add_argument
add_argument-HasDistinctKeys m (key ∷ (value ∷ [])) h = assign-HasDistinctKeys m key _ h
add_argument-HasDistinctKeys m [] h = h
add_argument-HasDistinctKeys m (a ∷ []) h = h
add_argument-HasDistinctKeys m (a ∷ (b ∷ (c ∷ r))) h = h

-- The arguments that are read from any connection string have each key once.
pub collect_arguments-HasDistinctKeys :
    (m : Map String) (parameters : List String)
    → HasDistinctKeys m
    → HasDistinctKeys (collect_arguments m parameters)
unfolding collect_arguments
collect_arguments-HasDistinctKeys m [] h = h
collect_arguments-HasDistinctKeys m (p ∷ ps) h =
    collect_arguments-HasDistinctKeys (add_argument m (split b'=' p)) ps
      (add_argument-HasDistinctKeys m (split b'=' p) h)

set_arguments-AreRead :
    (gs : GitSync) (m : Map String) → HasDistinctKeys m → AreRead m gs (set_arguments gs m)
set_arguments-AreRead gs m h = record {
  repository = set_arguments_field (λ g. g.repository) "source" set_argument-repository gs m h;
  branch = set_arguments_field (λ g. g.branch) "branch" set_argument-branch gs m h;
  revision = set_arguments_field (λ g. g.revision) "rev" set_argument-revision gs m h;
  image = set_arguments_field (λ g. g.image) "image" set_argument-image gs m h;
  username = set_arguments_field (λ g. g.username) "username" set_argument-username gs m h;
  password = set_arguments_field (λ g. g.password) "password" set_argument-password gs m h;
  directory = set_arguments_field (λ g. g.directory) "target" set_argument-directory gs m h;
}

when_any-AreRead :
    (m : Map String) {gs : GitSync}
    → HasDistinctKeys m
    → when_any m ≡ some gs
    → AreRead m (record new_git_sync { sync = some true }) gs
unfolding parse_git_sync_arguments
when_any-AreRead [] k h = cc
when_any-AreRead (entry ∷ m) k h =
    subst (AreRead (entry ∷ m) _) (some-injective _ _ h) (set_arguments-AreRead _ (entry ∷ m) k)

-- The seven fields that are read from a connection string, by the map of its pairs.
pub git_sync_from_connection_string-AreRead :
    (connection : String) {gs : GitSync}
    → git_sync_from_connection_string connection ≡ some gs
    → AreRead (collect_arguments [] (split b',' connection)) new_git_sync gs
unfolding git_sync_from_connection_string
git_sync_from_connection_string-AreRead connection {gs} h =
    let m = collect_arguments [] (split b',' connection) in
    let read =
      when_any-AreRead m (collect_arguments-HasDistinctKeys [] (split b',' connection) tt) h in
    record {
      repository = read.repository;
      branch = read.branch;
      revision = read.revision;
      image = read.image;
      username = read.username;
      password = read.password;
      directory = read.directory;
    }
