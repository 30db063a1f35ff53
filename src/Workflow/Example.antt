-- ===== src/Workflow/Example.antt =====
-- A cluster that is a list of config maps, with a list of files: it keeps the promises that the theorems
-- on submissions rely on.
use Prim.Native.String
use runai_cli.Prelude.{
  String, Bool, true, false, not, Option, none, some, List, [], ◌∷◌, select, any, find_first,
  lookup, Elem, Elem-select, find_first-eq-some, str_eq, eq_iff, if◌then◌else◌, ◌≡◌, refl, sym, ap,
  ◌∙◌, inl, inr, ◌↔◌, Bool-cases, Option-cases, arith,
}
use mathlib.Core.Path.{subst}
use mathlib.Core.Option.{some-injective}
use runai_cli.Workflow.{
  ConfigMap, Problem, status_error, reported, Outcome, failed, done, Call, Cluster,
}
use runai_cli.Workflow.Job.{Written, Tools}
use runai_cli.Workflow.Created.{IsCluster, IsStored}
use runai_cli.Workflow.Free.{IsAvailable}
use runai_cli.Workflow.Cleaned.{IsFileSystem}
use runai_cli.Workflow.Stays.{IsKeeping}

pub record Site : Type 0 where
  pub maps : List ConfigMap
  pub files : List String

abbrev pub is_named : String → ConfigMap → Bool
is_named name m = str_eq m.name name

abbrev pub find_map : List ConfigMap → String → Option ConfigMap
find_map maps name = find_first (is_named name) maps

abbrev create_in : Site → ConfigMap → Option ConfigMap → Call Site ConfigMap
create_in site m none = (record site { maps = m ∷ site.maps }, done m)
create_in site m (some old) = (site, failed (status_error 409))

-- The first config map of each name.
abbrev unshadowed : List ConfigMap → List ConfigMap
unshadowed [] = []
unshadowed (m ∷ maps) = m ∷ select (λ x. not (str_eq m.name x.name)) (unshadowed maps)

abbrev is_value : Option String → String → Bool
is_value none value = false
is_value (some v) value = str_eq v value

abbrev pub site_cluster : Cluster
site_cluster = record {
  World = Site;
  find = λ site name. find_map site.maps name;
  create = λ site m. create_in site m (find_map site.maps m.name);
  list = λ site key value.
      done (select (λ m. is_value (lookup m.labels key) value) (unshadowed site.maps));
  update = λ site m. (site, done tt);
  meanwhile = λ n site. site;
}

unshadowed_iff :
    (m : ConfigMap) (maps : List ConfigMap)
    → Elem m (unshadowed maps) ↔ (find_map maps m.name ≡ some m)
unfolding find_first
unshadowed_iff m [] = (λ h. absurd h, λ e. absurd (cc e))
unshadowed_iff m (x ∷ maps) =
    let ih = unshadowed_iff m maps in
    let kept = Elem-select (λ y. not (str_eq x.name y.name)) m (unshadowed maps) in
    elim (Bool-cases (str_eq x.name m.name)) [
      | inl e ↦ rw e (
        elim [ inl q ↦ ap some (sym q) | inr h ↦ absurd (cc ((kept.0 h).1, ap not e)) ],
        λ q. inl (sym (some-injective _ _ q)),
      )
      | inr e ↦ rw e (
        elim [
          | inl q ↦ absurd (cc (e, (eq_iff x.name m.name).1 (ap (λ y. y.name) (sym q))))
          | inr h ↦ ih.0 (kept.0 h).0
        ],
        λ q. inr (kept.1 (ih.1 q, ap not e)),
      )
    ]

is_value_iff : (o : Option String) (value : String) → (is_value o value ≡ true) ↔ (o ≡ some value)
is_value_iff none value = (λ e. absurd (cc e), λ e. absurd (cc e))
is_value_iff (some v) value =
    (λ e. ap some ((eq_iff v value).0 e), λ e. (eq_iff v value).1 (some-injective _ _ e))

create_in-done :
    (site : Site) (m : ConfigMap) {t : Site} {a : ConfigMap}
    → create_in site m (find_map site.maps m.name) ≡ (t, done a)
    → (a ≡ m) × IsStored site_cluster site m t
unfolding find_first
create_in-done site m {t} {a} e = elim (Option-cases (find_map site.maps m.name)) [
  | inl q ↦
      let e : (record site { maps = m ∷ site.maps }, done m) ≡ (t, done a) = sym (rw q refl) ∙ e in
      (cc (ap (λ c. c.1) e), (q, λ n. ap (λ c. find_map c.0.maps n) (sym e)))
  | inr (old, q) ↦
      let e : ◌≡◌ {A = Call Site ConfigMap} (site, failed (status_error 409)) (t, done a) =
        sym (rw q refl) ∙ e in
      absurd (cc e)
]

create_in-failed :
    (site : Site) (m : ConfigMap) {t : Site} {p : Problem}
    → create_in site m (find_map site.maps m.name) ≡ (t, failed p)
    → t ≡ site
create_in-failed site m {t} {p} e = elim (Option-cases (find_map site.maps m.name)) [
  | inl q ↦
      let e : ◌≡◌ {A = Call Site ConfigMap} (record site { maps = m ∷ site.maps }, done m)
          (t, failed p) =
        sym (rw q refl) ∙ e in
      absurd (cc e)
  | inr (old, q) ↦
      let e : (site, failed (status_error 409)) ≡ (t, failed p) = sym (rw q refl) ∙ e in
      sym (ap (λ c. c.0) e)
]

listed_iff :
    (all : List ConfigMap) (key value : String) (maps : List ConfigMap) (m : ConfigMap)
    → ◌≡◌ {A = Outcome (List ConfigMap)}
        (done (select (λ x. is_value (lookup x.labels key) value) (unshadowed all)))
        (done maps)
    → Elem m maps ↔ ((find_map all m.name ≡ some m) × (lookup m.labels key ≡ some value))
listed_iff all key value maps m e =
    let q : select (λ x. is_value (lookup x.labels key) value) (unshadowed all) ≡ maps = cc e in
    let chosen = Elem-select (λ x. is_value (lookup x.labels key) value) m (unshadowed all) in
    let there = unshadowed_iff m all in
    let labelled = is_value_iff (lookup m.labels key) value in
    (
      λ h. let k = chosen.0 (subst (Elem m) (sym q) h) in (there.0 k.0, labelled.0 k.1),
      λ h. subst (Elem m) q (chosen.1 (there.1 h.0, labelled.1 h.1)),
    )

pub site-IsCluster : IsCluster site_cluster
site-IsCluster = record {
  create_stores = λ e. create_in-done _ _ e;
  create_fails = λ e. inl (λ n. ap (λ s. find_map s.maps n) (create_in-failed _ _ e));
  find_name = λ e. (eq_iff _ _).0 (find_first-eq-some (is_named _) _ e).1;
  list_labelled = λ m e. listed_iff _ _ _ _ m e;
}

pub site-IsAvailable : IsAvailable site_cluster
site-IsAvailable = record {
  create_free = λ site m e. (record site { maps = m ∷ site.maps }, rw e refl);
  create_taken = λ site m e. rw e refl;
  list_answers = λ site key value. (_, refl);
  nobody_else = λ n site. refl;
}

-- Tools that make a file each. With `broken` nothing can be installed.
abbrev add_file : Site → String → Option Problem → Written Site
add_file site file error = record {
  world = record site { files = file ∷ site.files };
  file = file;
  error = error;
}

abbrev pub site_tools : Bool → Tools Site String
site_tools broken = record {
  exists = λ site file. any (str_eq file) site.files;
  remove =
      λ site file. (record site { files = select (λ f. not (str_eq file f)) site.files }, done tt);
  read_file = λ site file. done (String.◌++◌ "content of " file);
  generate_value_file = λ site values. add_file site values none;
  generate_helm_template = λ site name file chart.
      add_file site (String.◌++◌ name ".template")
        (if str_eq chart "" then some (reported "no chart") else none);
  save_app_info = λ site template. add_file site (String.◌++◌ template ".app") none;
  get_chart_name = λ chart. chart;
  get_chart_version = λ site chart. done "1.0";
  uninstall_apps_with_app_info_file = λ site file. (site, done "");
  install_apps = λ site template.
      (site, if broken then failed (reported "no connection") else done "installed");
}

any-select :
    (file other : String) (files : List String)
    → any (str_eq other) (select (λ f. not (str_eq file f)) files)
      ≡ (if str_eq file other then false else any (str_eq other) files)
unfolding any select
any-select file other [] = elim (Bool-cases (str_eq file other)) [
  | inl e ↦ rw e refl
  | inr e ↦ rw e refl
]
any-select file other (f ∷ files) =
    ground (arith, any-select file other files, eq_iff file f, eq_iff other f, eq_iff file other)

pub site-IsFileSystem : (broken : Bool) → IsFileSystem (site_tools broken)
site-IsFileSystem broken = record {
  removes = λ site file other e. any-select file other site.files;
}

pub site-IsKeeping :
    (broken : Bool) (name : String) → IsKeeping site_cluster (site_tools broken) name
site-IsKeeping broken name = record {
  update_keeps = λ w m h. h;
  remove_keeps = λ w file h. h;
  values_keep = λ w values h. h;
  template_keeps = λ w job file chart h. h;
  save_keeps = λ w file h. h;
  uninstall_keeps = λ w file h. h;
  install_keeps = λ w file h. h;
}
