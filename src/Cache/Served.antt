-- ===== src/Cache/Served.antt =====
-- Every caller of `Get` comes to its end, with the one value that is fetched.
use runai_cli.Prelude.{
  ℕ, zero, suc, ◌+◌, ◌*◌, ◌<◌, ◌≤◌, false, Option, none, some, ◌≡◌, ◌≢◌, refl, sym, ap, ◌∙◌, ◌⊎◌,
  inl, inr, arith,
}
use mathlib.Core.Path.{subst}
use runai_cli.Cache.{
  CacheImpl, ready, fetching, empty, CacheStatus, get_at, Caller, asked, called, fetches, sends,
  waits, reads, answered, System, put, Step, gets, refreshes, stores, meets, ends, looks, Runs,
  here, next, fresh_system,
}
use runai_cli.Cache.Counts.{left_of, waiting, total, total-put, put-other}
use runai_cli.Cache.Phases.{
  Idle, Queued, Served, Settled, Phase, before, during, handing, after, worker,
}
use runai_cli.Cache.Kept.{Runs-Phase, not_worker}

total-asked : (V : Type 0) (n : ℕ) → total left_of n (fresh_system {V = V}).callers ≡ 4 * n
unfolding total fresh_system
total-asked V zero = refl
total-asked V (suc n) = let h = total-asked V n in omega arith

module _ {V : Type 0} where
  left-get_at : (status : CacheStatus) (c : CacheImpl V) → left_of (get_at status c).1 < 4
  left-get_at empty c = omega arith
  left-get_at fetching c = omega arith
  left-get_at ready c = omega arith

  total-less :
      (n i : ℕ) (c old : Caller V) (callers : ℕ → Caller V)
      → i < n
      → callers i ≡ old
      → left_of c < left_of old
      → total left_of n (put i c callers) < total left_of n callers
  total-less n i c old callers small e h =
      let p = total-put left_of n i c old callers small e in omega arith

  -- Each step leaves fewer steps.
  Step-less :
      {n g : ℕ} {s t : System V}
      → Step n s g t
      → total left_of n t.callers < total left_of n s.callers
  Step-less {n} {s = s} (gets i si e l g q) =
      rw q (total-less n i _ _ s.callers si e (left-get_at s.cache.status s.cache))
  Step-less {n} {s = s} (refreshes i si e l g q) =
      rw q (total-less n i _ _ s.callers si e (omega arith))
  Step-less {n} {s = s} (stores i v si e l g q) =
      rw q (total-less n i _ _ s.callers si e (omega arith))
  Step-less {n} {s = s} (meets i j left v si sj e ej g q) =
      let apart : j ≢ i = λ h. let b = sym ej ∙ ap s.callers h ∙ e in cc in
      let a = total-put left_of n i (sends left v) (sends (suc left) v) s.callers si e in
      let b =
        total-put left_of n j (answered (some v)) waits (put i (sends left v) s.callers) sj
          (put-other i j (sends left v) s.callers apart ∙ ej) in
      rw q (omega arith)
  Step-less {n} {s = s} (ends i v si e g q) = rw q (total-less n i _ _ s.callers si e (omega arith))
  Step-less {n} {s = s} (looks i si e g q) = rw q (total-less n i _ _ s.callers si e (omega arith))

  Runs-bound :
      {n : ℕ} {s : System V} {k f : ℕ} {t : System V}
      → Runs n s k f t
      → k + total left_of n t.callers ≤ total left_of n s.callers
  Runs-bound here = omega arith
  Runs-bound (next r step) = let a = Runs-bound r in let b = Step-less step in omega arith

  waits-cases : (c : Caller V) → (c ≡ waits) ⊎ (waiting c ≡ 0)
  waits-cases asked = inr refl
  waits-cases called = inr refl
  waits-cases fetches = inr refl
  waits-cases (sends n v) = inr refl
  waits-cases waits = inl refl
  waits-cases reads = inr refl
  waits-cases (answered a) = inr refl

  -- Where somebody waits in total, somebody waits.
  some_waits :
      (n m : ℕ) (callers : ℕ → Caller V)
      → total waiting n callers ≡ suc m
      → (j : ℕ) × (j < n) × (callers j ≡ waits)
  unfolding total
  some_waits zero m callers h = absurd (omega arith)
  some_waits (suc n) m callers h = elim (waits-cases (callers n)) [
    | inl e ↦ (n, omega arith, e)
    | inr z ↦ let (j, small, e) = some_waits n m callers (omega arith) in (j, omega arith, e)
  ]

  abbrev pub CanStep : ℕ → System V → Type 0
  CanStep n s = (g : ℕ) × (t : System V) × Step n s g t

  abbrev pub IsAnswered : Caller V → Type 0
  IsAnswered c = (a : Option V) × (c ≡ answered a)

  Idle-asked : (c : Caller V) → Idle c → c ≡ asked
  unfolding Idle
  Idle-asked asked h = refl
  Idle-asked called h = absurd h
  Idle-asked fetches h = absurd h
  Idle-asked (sends n v) h = absurd h
  Idle-asked waits h = absurd h
  Idle-asked reads h = absurd h
  Idle-asked (answered a) h = absurd h

  hand :
      (n w left : ℕ) (v : V) (s : System V)
      → w < n
      → s.callers w ≡ sends left v
      → total waiting n s.callers ≡ left
      → CanStep n s
  hand n w zero v s small e sum = (_, _, ends w v small e refl refl)
  hand n w (suc left) v s small e sum =
      let (j, sj, ej) = some_waits n left s.callers sum in
      (_, _, meets w j left v small sj e ej refl refl)

  settle :
      (v : V) (n i : ℕ) (s : System V) (c : Caller V)
      → i < n
      → s.locked ≡ false
      → s.callers i ≡ c
      → Settled v c
      → IsAnswered (s.callers i) ⊎ CanStep n s
  unfolding Settled
  settle v n i s asked small l e h = inr (_, _, gets i small e l refl refl)
  settle v n i s called small l e h = absurd h
  settle v n i s fetches small l e h = absurd h
  settle v n i s (sends m w) small l e h = absurd h
  settle v n i s waits small l e h = absurd h
  settle v n i s reads small l e h = inr (_, _, looks i small e refl refl)
  settle v n i s (answered a) small l e h = inl (a, e)

  Phase-progress :
      (v : V) {n f : ℕ} {s : System V} (i : ℕ)
      → i < n
      → Phase n s f
      → IsAnswered (s.callers i) ⊎ CanStep n s
  unfolding Settled Idle
  Phase-progress v {n} {f} {s} i small (before st k l idle z) =
      inr (_, _, gets i small (Idle-asked (s.callers i) (idle i small)) l refl refl)
  Phase-progress v i small (during w wn st l (inl (e, _)) others sum) =
      inr (_, _, refreshes w wn e l refl refl)
  Phase-progress v i small (during w wn st l (inr (e, _)) others sum) =
      inr (_, _, stores w v wn e l refl refl)
  Phase-progress v i small (handing w left x wn st ct lk at others sum z) =
      inr (hand _ w left x _ wn at sum)
  Phase-progress v {s = s} i small (after x st ct l all z) =
      settle x _ i s (s.callers i) small l refl (all i small)

  -- An answer is the value in the cache.
  abbrev pub IsHeld : System V → Option V → Type 0
  IsHeld s a = (s.cache.content ≡ a) × (a ≢ none)

  Served-IsHeld :
      (x : V) (s : System V) (a : Option V) → s.cache.content ≡ some x → a ≡ some x → IsHeld s a
  Served-IsHeld x s a ct e = (ct ∙ sym e, λ h. cc)

  Phase-answer :
      {n f : ℕ} {s : System V}
      → Phase n s f
      → (f ≤ 1) × ((i : ℕ) (a : Option V) → i < n → s.callers i ≡ answered a → IsHeld s a)
  unfolding Idle Queued Served Settled
  Phase-answer (before st k l idle z) = (omega arith, λ i a si e. absurd (subst Idle e (idle i si)))
  Phase-answer {n} {s = s} (during w wn st l place others sum) = (
    elim place [ inl (_, z) ↦ omega arith | inr (_, z) ↦ omega arith ],
    λ i a si e. absurd (
        not_worker s w i _ place e (λ h. cc) (λ h. cc)
          (sym (worker Queued n w i _ others si e (λ h. h)))),
  )
  Phase-answer {n} {s = s} (handing w left x wn st ct lk at others sum z) = (
    omega arith,
    λ i a si e.
        let apart : i ≢ w = λ h. let b = sym e ∙ ap s.callers h ∙ at in cc in
        Served-IsHeld x s a ct (subst (Served x) e (others i si apart)),
  )
  Phase-answer {s = s} (after x st ct l all z) =
      (omega arith, λ i a si e. Served-IsHeld x s a ct (subst (Settled x) e (all i si)))

  -- However the calls of `Get` of several callers fall together on a new cache, at most one of them
  -- calls `get_data`, and each that has returned has returned the value that this call has left in the
  -- cache: never the empty value from before, also not those who read it without the mutex.
  pub get_once :
      {n k f : ℕ} {t : System V}
      → Runs n fresh_system k f t
      → (f ≤ 1)
        × ((i : ℕ) (answer : Option V) → i < n → t.callers i ≡ answered answer → IsHeld t answer)
  get_once r = Phase-answer (Runs-Phase r)

  -- If `get_data` returns, every caller of `Get` on a new cache returns: a run of `n` callers has at
  -- most `4 * n` steps, and as long as one of them has not returned, some caller can take a step. So
  -- nobody waits at the channel for ever, and nobody sends to it with no receiver left.
  pub get_ends :
      (v : V) {n k f : ℕ} {t : System V}
      → Runs n fresh_system k f t
      → (k ≤ 4 * n) × ((i : ℕ) → i < n → IsAnswered (t.callers i) ⊎ CanStep n t)
  get_ends v {n} {k} {f} {t} r =
      let a = Runs-bound r in
      let b = total-asked V n in (omega arith, λ i small. Phase-progress v i small (Runs-Phase r))
