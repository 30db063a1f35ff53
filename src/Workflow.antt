-- ===== src/Workflow.antt =====
-- The submission of a job: pkg/workflow/workflow.go. The namespace of the cluster with its config maps,
-- the files, and the tools helm and kubectl are parameters: one world that their calls change.
pub mod Indices
pub mod Chains
pub mod Job
pub mod Names
pub mod Created
pub mod Installed
pub mod Cleaned
pub mod Stays
pub mod Tidy
pub mod Free
pub mod Removal
mod Example
mod Tests
use Prim.Native.String
use runai_cli.Prelude.{
  ℕ, zero, suc, ◌+◌, ◌-◌, ◌==◌, String, Bool, true, false, ◌||◌, Option, none, some, List, [], ◌∷◌,
  Map, assign, lookup, get, decimal, length, if◌then◌else◌,
}

pub record ConfigMap : Type 0 where
  pub name : String
  pub labels : Map String
  pub content : Map String

-- An error: a `StatusError` of the API server with its code, or another one with its text.
pub data Problem : Type 0 where
  status_error : ℕ → Problem
  reported : String → Problem

pub data Outcome (A : Type 0) : Type 0 where
  failed : Problem → Outcome A
  done : A → Outcome A

-- What a call leaves and answers. What it has changed before it fails stays.
abbrev pub Call : Type 0 → Type 0 → Type 0
Call World A = World × Outcome A

unfoldable pub and_then :
    {World A B : Type 0} → Call World A → (World → A → Call World B) → Call World B
and_then (w, failed p) next = (w, failed p)
and_then (w, done a) next = next w a

unfoldable pub or_else :
    {World A : Type 0} → Call World A → (World → Problem → Call World A) → Call World A
or_else (w, failed p) next = next w p
or_else (w, done a) next = (w, done a)

-- What is done to the world where a call has failed.
unfoldable pub on_failure : {World A : Type 0} → Call World A → (World → World) → Call World A
on_failure (w, failed p) after = (after w, failed p)
on_failure (w, done a) after = (w, done a)

-- The config maps of a namespace. `meanwhile n` is what others do before the call of that number.
pub record Cluster : Type 1 where
  pub World : Type 0
  pub find : World → String → Option ConfigMap
  pub create : World → ConfigMap → Call World ConfigMap
  pub list : World → String → String → Outcome (List ConfigMap)
  pub update : World → ConfigMap → Call World (Unit {0})
  pub meanwhile : ℕ → World → World

abbrev pub base_name_label_selector_name : String
base_name_label_selector_name = "base-name"

abbrev pub base_index_label_selector_name : String
base_index_label_selector_name = "base-name-index"

abbrev pub config_map_generation_retries : ℕ
config_map_generation_retries = 5

abbrev pub job_config_label_key : String
job_config_label_key = "createdBy"

abbrev pub job_config_label_values : String
job_config_label_values = "arena"

abbrev pub index_label : ConfigMap → String
index_label config_map = get config_map.labels base_index_label_selector_name

unfoldable pub occupation : List ConfigMap → Map Bool → Map Bool
unfolding assign get
occupation [] seen = seen
occupation (config_map ∷ rest) seen = occupation rest (assign seen (index_label config_map) true)

abbrev pub or_false : Option Bool → Bool
or_false none = false
or_false (some b) = b

-- The loop over `i`, with the turns that are left and the number of config maps.
unfoldable pub index_loop : ℕ → ℕ → ℕ → Map Bool → ℕ
unfolding lookup decimal
index_loop zero i n seen = n
index_loop (suc turns) i n seen =
    let rest = index_loop turns (suc i) n seen in
    if or_false (lookup seen (decimal i)) then rest else i

unfoldable pub get_smallest_unoccupied_index : List ConfigMap → ℕ
unfolding occupation index_loop
get_smallest_unoccupied_index config_maps =
    index_loop (length config_maps - 1) 1 (length config_maps) (occupation config_maps [])

unfoldable pub get_config_map_name : String → ℕ → Bool → String
unfolding decimal
get_config_map_name name index true = String.◌++◌ name (String.◌++◌ "-" (decimal index))
get_config_map_name name index false = name

-- The labels that `createEmptyConfigMap` sets.
unfoldable pub labels_of : String → ℕ → Map String
unfolding assign decimal
labels_of base_name index =
    assign
      (assign (assign [] job_config_label_key job_config_label_values)
        base_index_label_selector_name (decimal index))
      base_name_label_selector_name base_name

abbrev pub empty_config_map : String → String → ℕ → ConfigMap
empty_config_map name base_name index = record {
  name = name;
  labels = labels_of base_name index;
  content = [];
}

abbrev pub is_unauthorized : Problem → Bool
is_unauthorized (status_error code) = code == 403 || code == 401
is_unauthorized (reported text) = false

abbrev pub job_exists : String → Problem
job_exists name = reported (
    String.◌++◌ "the job " (
      String.◌++◌ name (
        String.◌++◌ " already exists, please delete it first (use 'runai delete "
          (String.◌++◌ name "')"))))

module _ (cluster : Cluster) where
  open cluster use {World, find, create, list, update, meanwhile}

  abbrev pub create_empty_config_map : World → String → String → ℕ → Call World ConfigMap
  create_empty_config_map w name base_name index = create w (empty_config_map name base_name index)

  -- The loop of `submitConfigMap`, with the tries that are left and the number of the next call.
  unfoldable pub retry_loop : ℕ → ℕ → String → World → Call World ConfigMap
  unfolding and_then or_else get_smallest_unoccupied_index get_config_map_name
  retry_loop zero call name w = (w, failed (reported "job creation has failed. Please try again"))
  retry_loop (suc tries) call name w =
      let listing = meanwhile call w in
      and_then (listing, list listing base_name_label_selector_name name)
        (λ v config_maps.
          let index = get_smallest_unoccupied_index config_maps in
          or_else
            (create_empty_config_map (meanwhile (suc call) v) (get_config_map_name name index true)
              name index)
            (λ u p. retry_loop tries (suc (suc call)) name u))

  unfoldable pub after_first : String → Bool → World → Problem → Call World ConfigMap
  unfolding retry_loop
  after_first name generate_suffix w p =
      if is_unauthorized p
      then (w, failed p)
      else if generate_suffix
      then retry_loop config_map_generation_retries 1 name w
      else (w, failed (job_exists name))

  unfoldable pub submit_config_map : World → String → Bool → Call World ConfigMap
  unfolding get_config_map_name or_else after_first
  submit_config_map w name generate_suffix =
      or_else
        (create_empty_config_map (meanwhile 0 w) (get_config_map_name name 0 generate_suffix) name
          0)
        (after_first name generate_suffix)
