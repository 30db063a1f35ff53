-- ===== src/Submit/Index.antt =====
-- `getJobIndex` of cmd/job/submit/submit.go: clients draw the next number from one config map of the
-- cluster, which they read, and write under the version they have read. The server is a parameter.
pub mod Unique
pub mod Tries
mod Tests
use Prim.Native.String
use runai_cli.Prelude.{
  ℕ, zero, suc, ◌+◌, ◌*◌, ◌^◌, ◌-◌, ◌<◌, ◌==◌, ℤ, pos, negsuc, String, Bool, true, false, Option,
  none, some, Map, get, assign, atoi, decimal, if◌then◌else◌, ◌≡◌,
}

-- The server: the versions and the data of the config map `runai-cli-index`, where `none` is an error.
pub record Server : Type 1 where
  pub Store : Type 0
  pub read : Store → Option (ℕ × Map String)
  pub update : Store → ℕ → Map String → Option Store

-- What the API server promises: an update needs the current version, stores its data, and the
-- versions grow.
pub record IsServer (server : Server) : Type 0 where
  pub update_current :
      {s t : server.Store} {v : ℕ} {values : Map String}
      → server.update s v values ≡ some t
      → (old : Map String) × (server.read s ≡ some (v, old))
  pub update_stores :
      {s t : server.Store} {v : ℕ} {values : Map String}
      → server.update s v values ≡ some t
      → (w : ℕ) × (v < w) × (server.read t ≡ some (w, values))

abbrev pub get_resource_max_retries : ℕ
get_resource_max_retries = 5

abbrev pub index_key : String
index_key = "index"

-- `fmt.Sprintf("%d", n+1)` on an `int` of 64 bits.
unfoldable pub next_index : ℤ → String
next_index (pos n) = if n == 2 ^ 63 - 1 then String.◌++◌ "-" (decimal (2 ^ 63)) else decimal (suc n)
next_index (negsuc zero) = decimal 0
next_index (negsuc (suc n)) = String.◌++◌ "-" (decimal (suc n))

-- Where a run of the function stands: at a call of the cluster, with the tries that are left, or at its
-- end.
pub data Client : Type 0 where
  reading : ℕ → Client
  writing : ℕ → ℕ → String → Map String → Client
  returned : Option String → Client

abbrev pub start : Client
start = reading (get_resource_max_retries - 1)

abbrev pub retry : ℕ → Client
retry zero = returned none
retry (suc tries) = reading tries

-- From the last number of the config map, where `none` is a text that is no number.
unfoldable pub draw : ℕ → ℕ → Map String → Option ℤ → Client
unfolding next_index
draw tries version values none = returned none
draw tries version values (some last) =
    writing tries version (next_index last) (assign values index_key (next_index last))

-- From the answer of `Get`.
unfoldable pub after_read : ℕ → Option (ℕ × Map String) → Client
after_read tries none = returned none
after_read tries (some (version, values)) = draw tries version values (atoi (get values index_key))

-- From the answer of `Update`.
unfoldable pub after_update : ℕ → String → Bool → Client
after_update tries index true = returned (some index)
after_update tries index false = retry tries

-- A server and the runs of its clients.
pub record System (Store : Type 0) : Type 0 where
  pub store : Store
  pub clients : ℕ → Client

abbrev pub put : ℕ → Client → (ℕ → Client) → ℕ → Client
put i c clients j = if j == i then c else clients j

module _ (server : Server) where
  open server use {Store, read, update}

  -- One call of one client. Each call may fail, also a write that the server has done.
  pub data Step (s : System Store) (i : ℕ) (t : System Store) : Type 0 where
    reads :
        (tries : ℕ)
        → s.clients i ≡ reading tries
        → t
          ≡ record { store = s.store; clients = put i (after_read tries (read s.store)) s.clients }
        → Step s i t
    read_fails :
        (tries : ℕ)
        → s.clients i ≡ reading tries
        → t ≡ record { store = s.store; clients = put i (after_read tries none) s.clients }
        → Step s i t
    writes :
        (tries v : ℕ) (index : String) (values : Map String) (store : Store) (answered : Bool)
        → s.clients i ≡ writing tries v index values
        → update s.store v values ≡ some store
        → t
          ≡ record { store = store; clients = put i (after_update tries index answered) s.clients }
        → Step s i t
    write_fails :
        (tries v : ℕ) (index : String) (values : Map String)
        → s.clients i ≡ writing tries v index values
        → t ≡ record { store = s.store; clients = put i (after_update tries index false) s.clients }
        → Step s i t

  pub data Runs (s : System Store) : ℕ → System Store → Type 0 where
    here : Runs s 0 s
    next : {n : ℕ} {t u : System Store} (i : ℕ) → Runs s n t → Step t i u → Runs s (suc n) u

-- All clients start on a server with this number and data.
pub record Begins (server : Server) (s : System server.Store) (first : ℕ) : Type 0 where
  pub version : ℕ
  pub values_of : Map String
  pub stored : server.read s.store ≡ some (version, values_of)
  pub last : atoi (get values_of index_key) ≡ some (pos first)
  pub fresh : (i : ℕ) → s.clients i ≡ start
