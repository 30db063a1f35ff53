-- ===== src/Submit/Run/Checks.antt =====
-- The checks of a submission in their order, each on the arguments as they were given.
use runai_cli.Prelude.{
  ℕ, String, Bool, true, false, not, ◌&&◌, ◌||◌, Option, none, some, List, [], ◌∷◌, ◌++◌, str_eq,
  if◌then◌else◌, ◌≡◌, refl, inl, inr, Bool-cases,
}
use Prim.Native.String
use runai_cli.Submit.GitSync.{is_bool_true}
use runai_cli.Submit.Run.{
  OsUser, Answers, RunError, no_identity, no_os_user, no_groups, Outcome, done, stopped, ◌>>=◌,
  RunArgs, need, refuse, handled, apply_run_as_authenticated_user, unless_applied, run_as_os_user,
  run_as,
}

-- The result, unless one of the checks fails: then the error of the first that does.
unfoldable pub judge {ℓ} : {A : Type ℓ} → List (Option RunError) → A → Outcome A
judge [] a = done a
judge (none ∷ checks) a = judge checks a
judge (some e ∷ checks) a = stopped e

pub judge-nil : {A : Type 0} (a : A) → done a ≡ judge [] a
unfolding judge
judge-nil a = refl

pub check-bind :
    {A B : Type 0} (c : Option RunError) (more : List (Option RunError)) (a : A) (b : B)
    (m : Outcome A) (k : A → Outcome B)
    → m ≡ judge (c ∷ []) a
    → k a ≡ judge more b
    → (m >>= k) ≡ judge (c ∷ more) b
unfolding judge
check-bind none more a b m k e h = rw e h
check-bind (some f) more a b m k e h = rw e

abbrev pub fails : Bool → RunError → Option RunError
fails true e = some e
fails false e = none

abbrev pub absent {ℓ} : {A : Type ℓ} → Option A → RunError → Option RunError
absent none e = some e
absent (some a) e = none

abbrev pub value_or {ℓ} : {A : Type ℓ} → A → Option A → A
value_or other none = other
value_or other (some a) = a

abbrev pub failed {ℓ} : {E : Type ℓ} → (E → RunError) → Option E → Option RunError
failed wrap none = none
failed wrap (some e) = some (wrap e)

pub refuse-judge : (b : Bool) (e : RunError) → refuse b e ≡ judge (fails b e ∷ []) tt
unfolding judge
refuse-judge true e = refl
refuse-judge false e = refl

pub need-judge :
    {A : Type 0} (other : A) (o : Option A) (e : RunError)
    → need o e ≡ judge (absent o e ∷ []) (value_or other o)
unfolding judge
need-judge other none e = refl
need-judge other (some a) e = refl

pub handled-judge :
    {A E : Type 0} (wrap : E → RunError) (r : A × Option E)
    → handled wrap r ≡ judge (failed wrap r.1 ∷ []) r.0
unfolding judge
handled-judge wrap (a, none) = refl
handled-judge wrap (a, some e) = refl

-- Who the job runs as: as the arguments say, as the authenticated user, or as the one of the system.
pub data Identity : Type 0 where
  as_given : Identity
  authenticated : String → String → Identity
  of_system : OsUser → List ℕ → Identity

abbrev pub Choice : Type 0
Choice = Option RunError × Identity

abbrev pub of_os : Option OsUser → Option (List ℕ) → Choice
of_os none groups = (some no_os_user, as_given)
of_os (some os) none = (some no_groups, as_given)
of_os (some os) (some groups) = (none, of_system os groups)

abbrev pub of_ids : Option (String × String) → Choice → Choice
of_ids none os = (some no_identity, as_given)
of_ids (some (uid, gid)) os =
    if str_eq uid "" && str_eq gid "" then os else (none, authenticated uid gid)

abbrev pub identity : Answers → Bool → Choice
identity w false = (none, as_given)
identity w true = of_ids w.authenticated_ids (of_os w.os_user w.groups)

abbrev pub env_as : Identity → List String → List String
env_as (authenticated uid gid) env =
    env
    ++ (if not (str_eq uid "") then String.◌++◌ "LDAP_UID=" uid ∷ [] else [])
    ++ (if not (str_eq gid "") then String.◌++◌ "LDAP_GID=" gid ∷ [] else [])
env_as as_given env = env
env_as (of_system os groups) env = env

-- An authenticated user without a user identifier leaves the one that was given.
abbrev pub uid_as : Identity → String → String
uid_as as_given given = given
uid_as (authenticated uid gid) given = if not (str_eq uid "") then uid else given
uid_as (of_system os groups) given = os.uid

abbrev pub gid_as : Identity → String → String
gid_as as_given given = given
gid_as (authenticated uid gid) given = if not (str_eq gid "") then gid else given
gid_as (of_system os groups) given = os.gid

abbrev pub groups_as : Identity → List ℕ → List ℕ
groups_as as_given given = given
groups_as (authenticated uid gid) given = given
groups_as (of_system os groups) given = groups

module _ {Float : Type 0} where
  abbrev pub acting : Identity → RunArgs Float → RunArgs Float
  acting i args = record args {
    environment_variable = env_as i args.environment_variable;
    run_as_user = uid_as i args.run_as_user;
    run_as_group = gid_as i args.run_as_group;
    supplemental_groups = groups_as i args.supplemental_groups;
  }

  abbrev judged_choice : Choice → RunArgs Float → Outcome (RunArgs Float)
  judged_choice choice args = judge (choice.0 ∷ []) (acting choice.1 args)

  run_as_os_user-judge :
      (os : Option OsUser) (groups : Option (List ℕ)) (args : RunArgs Float)
      → run_as_os_user os groups args ≡ judged_choice (of_os os groups) args
  unfolding run_as_os_user judge
  run_as_os_user-judge none groups args = refl
  run_as_os_user-judge (some os) none args = refl
  run_as_os_user-judge (some os) (some groups) args = refl

  authenticated-judge :
      (ids : Option (String × String)) (os : Option OsUser) (groups : Option (List ℕ))
      (args : RunArgs Float)
      → (apply_run_as_authenticated_user ids args >>= unless_applied os groups)
        ≡ judged_choice (of_ids ids (of_os os groups)) args
  unfolding apply_run_as_authenticated_user judge
  authenticated-judge none os groups args = refl
  authenticated-judge (some (uid, gid)) os groups args =
      elim (Bool-cases (str_eq uid "" && str_eq gid "")) [
        | inl e ↦ rw e (run_as_os_user-judge os groups args)
        | inr e ↦ rw e
      ]

  pub run_as-judge :
      (w : Answers) (enforced : Bool) (args : RunArgs Float)
      → run_as w enforced args
        ≡ judged_choice (identity w (enforced || is_bool_true args.run_as_current_user)) args
  unfolding run_as judge
  run_as-judge w enforced args = by_test (enforced || is_bool_true args.run_as_current_user)
    where
      by_test :
          (b : Bool)
          → ◌≡◌ {A = Outcome (RunArgs Float)}
              (elim b [
                | false ↦ done args
                | true ↦
                    apply_run_as_authenticated_user w.authenticated_ids args
                    >>= unless_applied w.os_user w.groups
              ])
              (judged_choice (identity w b) args)
      by_test false = refl
      by_test true = authenticated-judge w.authenticated_ids w.os_user w.groups args
