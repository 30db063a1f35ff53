-- ===== src/Submit/Index/Tests.antt =====
-- A server with one config map, and a run of two clients on it.
use runai_cli.Prelude.{
  ℕ, suc, ◌*◌, ◌≤◌, ◌<◌, ◌==◌, ==_iff, ◌⊎◌, String, true, false, Option, none, some, [], ◌∷◌, Map,
  get, lookup, assign, atoi, decimal, if◌then◌else◌, ◌≡◌, refl, arith,
}
use runai_cli.Submit.Index.{
  Server, IsServer, reading, returned, start, draw, after_read, after_update, next_index, System,
  put, Step, reads, writes, write_fails, Runs, here, next, Begins, get_resource_max_retries,
}
use runai_cli.Submit.Index.Unique.{IsDistinct, get_job_index_unique}
use runai_cli.Submit.Index.Tries.{calls_of, calls_bound}

abbrev versioned : ℕ × Map String → ℕ → Map String → Option (ℕ × Map String)
versioned (w, old) v values = if w == v then some (suc v, values) else none

abbrev one_map : Server
one_map = record { Store = ℕ × Map String; read = λ s. some s; update = versioned }

one_map-IsServer : IsServer one_map
one_map-IsServer = record {
  update_current = λ {s} {t} {v} {values} h. (s.1, ground (arith, ==_iff s.0 v));
  update_stores = λ {s} {t} {v} {values} h. (suc v, omega arith, ground (arith, ==_iff s.0 v));
}

abbrev at_seven : System (ℕ × Map String)
at_seven = record { store = (4, ("index", "7") ∷ []); clients = λ i. start }

at_seven-Begins : Begins one_map at_seven 7
unfolding get lookup atoi
at_seven-Begins = record {
  version = 4;
  values_of = ("index", "7") ∷ [];
  stored = refl;
  last = refl;
  fresh = λ i. refl;
}

abbrev eight : Map String
eight = ("index", "8") ∷ []

-- Both clients read, the second writes, and the write of the first is refused.
abbrev read_once : System (ℕ × Map String)
read_once = record {
  store = at_seven.store;
  clients = put 0 (after_read 4 (some at_seven.store)) at_seven.clients;
}

abbrev read_twice : System (ℕ × Map String)
read_twice = record {
  store = at_seven.store;
  clients = put 1 (after_read 4 (some at_seven.store)) read_once.clients;
}

abbrev written : System (ℕ × Map String)
written = record {
  store = (5, eight);
  clients = put 1 (after_update 4 "8" true) read_twice.clients;
}

abbrev refused : System (ℕ × Map String)
refused = record {
  store = written.store;
  clients = put 0 (after_update 4 "8" false) written.clients;
}

drawn : Runs one_map at_seven 4 refused
unfolding after_read draw after_update next_index get lookup assign atoi decimal
drawn =
    next 0
      (next 1 (next 1 (next 0 here (reads 4 refl refl)) (reads 4 refl refl))
        (writes 4 4 "8" eight (5, eight) true refl refl refl))
      (write_fails 4 4 "8" eight refl refl)

drawn_tests : (refused.clients 1 ≡ returned (some "8")) × (refused.clients 0 ≡ reading 3)
unfolding after_update
drawn_tests = (refl, refl)

get_job_index_unique_example :
    IsDistinct refused.clients
    × ((i : ℕ) (index : String)
        → refused.clients i ≡ returned (some index)
        → (number : ℕ) × (7 < number) × (number ≤ 11) × (index ≡ decimal number))
get_job_index_unique_example =
    get_job_index_unique one_map one_map-IsServer at_seven-Begins drawn (omega arith)

calls_bound_example :
    (calls_of one_map 0 drawn ≤ 2 * get_resource_max_retries)
    × (((r : Option String) × (refused.clients 0 ≡ returned r))
        ⊎ ((calls_of one_map 0 drawn < 2 * get_resource_max_retries)
            × ((u : System (ℕ × Map String)) × Step one_map refused 0 u)))
calls_bound_example = calls_bound one_map (λ j. refl) drawn 0
