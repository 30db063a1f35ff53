-- ===== src/Cache/Tests.antt =====
-- Two callers: the first fetches, the second waits at the channel.
use runai_cli.Prelude.{ℕ, ◌*◌, ◌≤◌, ◌<◌, ◌⊎◌, true, false, Option, none, some, ◌≡◌, refl, arith}
use runai_cli.Cache.{
  fetching, ready, asked, called, sends, answered, get_locked, refresh_locked, store_locked,
  end_locked, System, put, moved, gets, refreshes, stores, meets, ends, Runs, here, next,
  fresh_system,
}
use runai_cli.Cache.Served.{IsHeld, IsAnswered, CanStep, get_once, get_ends}

abbrev first_got : System ℕ
first_got = record {
  cache = record { content = none; status = fetching; waiters_counter = 0 };
  locked = false;
  callers = put 0 called (λ i. asked);
}

abbrev refreshed : System ℕ
refreshed = moved 0 false (refresh_locked first_got.cache) first_got

abbrev second_got : System ℕ
second_got = moved 1 false (get_locked refreshed.cache) refreshed

abbrev stored : System ℕ
stored = moved 0 true (store_locked 7 second_got.cache) second_got

abbrev met : System ℕ
met = record stored { callers = put 1 (answered (some 7)) (put 0 (sends 0 7) stored.callers) }

abbrev both_done : System ℕ
both_done = moved 0 false (end_locked 7 met.cache) met

two_callers : Runs 2 fresh_system 6 1 both_done
unfolding fresh_system
two_callers =
    next
      (next
        (next
          (next
            (next (next here (gets 0 (omega arith) refl refl refl refl))
              (refreshes 0 (omega arith) refl refl refl refl))
            (gets 1 (omega arith) refl refl refl refl))
          (stores 0 7 (omega arith) refl refl refl refl))
        (meets 0 1 0 7 (omega arith) (omega arith) refl refl refl refl))
      (ends 0 7 (omega arith) refl refl refl)

answers :
    (both_done.callers 0 ≡ answered (some 7))
    × (both_done.callers 1 ≡ answered (some 7))
    × (both_done.cache.status ≡ ready)
answers = (refl, refl, refl)

get_once_example :
    (1 ≤ 1)
    × ((i : ℕ) (answer : Option ℕ)
        → i < 2
        → both_done.callers i ≡ answered answer
        → IsHeld both_done answer)
get_once_example = get_once two_callers

get_ends_example :
    (6 ≤ 4 * 2) × ((i : ℕ) → i < 2 → IsAnswered (both_done.callers i) ⊎ CanStep 2 both_done)
get_ends_example = get_ends 7 two_callers
