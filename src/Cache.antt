-- ===== src/Cache.antt =====
-- pkg/util/cache.go: a value that is fetched when it is first asked for. A caller is at a lock, at a
-- call of `get_data`, at the channel, or at its end. What a caller does while it holds the mutex is one
-- step, but for the sends, which wait for a receiver.
pub mod Served
pub mod Phases
pub mod Kept
pub mod Counts
mod Tests
use runai_cli.Prelude.{
  ℕ, zero, suc, ◌+◌, ◌<◌, ◌==◌, Bool, true, false, Option, none, some, if◌then◌else◌, ◌≡◌, ◌≢◌,
}

pub data CacheStatus : Type 0 where
  ready fetching empty : CacheStatus

-- `V` is the data with its error; `none` is before the first fetch.
pub record CacheImpl (V : Type 0) : Type 0 where
  pub content : Option V
  pub status : CacheStatus
  pub waiters_counter : ℕ

pub data Caller (V : Type 0) : Type 0 where
  -- before the lock of `Get`, and before the first lock of `Refresh`
  asked called : Caller V
  -- in `get_data`
  fetches : Caller V
  -- in the loop of `Refresh`, with the mutex and the sends that are left
  sends : ℕ → V → Caller V
  -- in `wait`
  waits : Caller V
  -- before the values are read without the mutex
  reads : Caller V
  answered : Option V → Caller V

module _ {V : Type 0} where
  unfoldable pub new_cache : CacheImpl V
  new_cache = record { content = none; status = empty; waiters_counter = 0 }

  -- `Get`, to its `Unlock`.
  abbrev pub get_at : CacheStatus → CacheImpl V → CacheImpl V × Caller V
  get_at empty c = (record c { status = fetching }, called)
  get_at fetching c = (record c { waiters_counter = suc c.waiters_counter }, waits)
  get_at ready c = (c, reads)

  abbrev pub get_locked : CacheImpl V → CacheImpl V × Caller V
  get_locked c = get_at c.status c

  -- `Refresh`, to its first `Unlock`.
  abbrev pub refresh_locked : CacheImpl V → CacheImpl V × Caller V
  refresh_locked c = (record c { status = fetching }, fetches)

  -- `Refresh`, from its second `Lock` to the loop.
  abbrev pub store_locked : V → CacheImpl V → CacheImpl V × Caller V
  store_locked v c = (record c { content = some v; status = ready }, sends c.waiters_counter v)

  -- From the loop to the end.
  abbrev pub end_locked : V → CacheImpl V → CacheImpl V × Caller V
  end_locked v c = (record c { waiters_counter = 0 }, answered (some v))

-- The cache, its mutex, and the callers.
pub record System (V : Type 0) : Type 0 where
  pub cache : CacheImpl V
  pub locked : Bool
  pub callers : ℕ → Caller V

module _ {V : Type 0} where
  abbrev pub put : ℕ → Caller V → (ℕ → Caller V) → ℕ → Caller V
  put i c callers j = if j == i then c else callers j

  -- The system after caller `i` did what gives a cache and its next place.
  abbrev pub moved : ℕ → Bool → CacheImpl V × Caller V → System V → System V
  moved i locked r s = record { cache = r.0; locked = locked; callers = put i r.1 s.callers }

  -- The steps of one of `n` callers, with the number of calls of `get_data` that begin in it.
  pub data Step (n : ℕ) (s : System V) (fetched : ℕ) (t : System V) : Type 0 where
    gets :
        (i : ℕ)
        → i < n
        → s.callers i ≡ asked
        → s.locked ≡ false
        → fetched ≡ 0
        → t ≡ moved i false (get_locked s.cache) s
        → Step n s fetched t
    refreshes :
        (i : ℕ)
        → i < n
        → s.callers i ≡ called
        → s.locked ≡ false
        → fetched ≡ 1
        → t ≡ moved i false (refresh_locked s.cache) s
        → Step n s fetched t
    stores :
        (i : ℕ) (v : V)
        → i < n
        → s.callers i ≡ fetches
        → s.locked ≡ false
        → fetched ≡ 0
        → t ≡ moved i true (store_locked v s.cache) s
        → Step n s fetched t
    meets :
        (i j left : ℕ) (v : V)
        → i < n
        → j < n
        → s.callers i ≡ sends (suc left) v
        → s.callers j ≡ waits
        → fetched ≡ 0
        → t ≡ record s { callers = put j (answered (some v)) (put i (sends left v) s.callers) }
        → Step n s fetched t
    ends :
        (i : ℕ) (v : V)
        → i < n
        → s.callers i ≡ sends 0 v
        → fetched ≡ 0
        → t ≡ moved i false (end_locked v s.cache) s
        → Step n s fetched t
    looks :
        (i : ℕ)
        → i < n
        → s.callers i ≡ reads
        → fetched ≡ 0
        → t ≡ record s { callers = put i (answered s.cache.content) s.callers }
        → Step n s fetched t

  -- A run, with its length and the number of calls of `get_data` in it.
  pub data Runs (n : ℕ) (s : System V) : ℕ → ℕ → System V → Type 0 where
    here : Runs n s 0 0 s
    next : {k f g : ℕ} {t u : System V} → Runs n s k f t → Step n t g u → Runs n s (suc k) (g + f) u

  unfoldable pub fresh_system : System V
  unfolding new_cache
  fresh_system = record { cache = new_cache; locked = false; callers = λ i. asked }
