-- ===== src/Cache/Phases.antt =====
-- The four phases of a cache, and that every step keeps to them.
use runai_cli.Prelude.{
  ℕ, zero, suc, ◌<◌, ◌==◌, ==_iff, Bool-cases, true, false, some, ◌≡◌, ◌≢◌, refl, ◌⊎◌, inl, inr,
  arith,
}
use mathlib.Core.Path.{subst}
use runai_cli.Cache.{
  ready, fetching, empty, Caller, asked, called, fetches, sends, waits, reads, answered, System,
}
use runai_cli.Cache.Counts.{waiting, total, All, Others}

module _ {V : Type 0} where
  -- Where a caller can be: before the fetch, beside the one who fetches, beside the one who sends, and
  -- afterwards.
  unfoldable pub Idle : Caller V → Type 0
  Idle asked = Unit
  Idle called = ⊥
  Idle fetches = ⊥
  Idle (sends n v) = ⊥
  Idle waits = ⊥
  Idle reads = ⊥
  Idle (answered a) = ⊥

  unfoldable pub Queued : Caller V → Type 0
  Queued asked = Unit
  Queued called = ⊥
  Queued fetches = ⊥
  Queued (sends n v) = ⊥
  Queued waits = Unit
  Queued reads = ⊥
  Queued (answered a) = ⊥

  unfoldable pub Served : V → Caller V → Type 0
  Served v asked = Unit
  Served v called = ⊥
  Served v fetches = ⊥
  Served v (sends n w) = ⊥
  Served v waits = Unit
  Served v reads = ⊥
  Served v (answered a) = a ≡ some v

  unfoldable pub Settled : V → Caller V → Type 0
  Settled v asked = Unit
  Settled v called = ⊥
  Settled v fetches = ⊥
  Settled v (sends n w) = ⊥
  Settled v waits = ⊥
  Settled v reads = Unit
  Settled v (answered a) = a ≡ some v

  pub data Phase (n : ℕ) (s : System V) (f : ℕ) : Type 0 where
    before :
        s.cache.status ≡ empty
        → s.cache.waiters_counter ≡ 0
        → s.locked ≡ false
        → All Idle n s.callers
        → f ≡ 0
        → Phase n s f
    during :
        (w : ℕ)
        → w < n
        → s.cache.status ≡ fetching
        → s.locked ≡ false
        → ((s.callers w ≡ called) × (f ≡ 0)) ⊎ ((s.callers w ≡ fetches) × (f ≡ 1))
        → Others Queued n w s.callers
        → total waiting n s.callers ≡ s.cache.waiters_counter
        → Phase n s f
    handing :
        (w left : ℕ) (v : V)
        → w < n
        → s.cache.status ≡ ready
        → s.cache.content ≡ some v
        → s.locked ≡ true
        → s.callers w ≡ sends left v
        → Others (Served v) n w s.callers
        → total waiting n s.callers ≡ left
        → f ≡ 1
        → Phase n s f
    after :
        (v : V)
        → s.cache.status ≡ ready
        → s.cache.content ≡ some v
        → s.locked ≡ false
        → All (Settled v) n s.callers
        → f ≡ 1
        → Phase n s f

  -- A caller that is not beside the worker is the worker.
  pub worker :
      (P : Caller V → Type 0) (n w i : ℕ) (c : Caller V) {callers : ℕ → Caller V}
      → Others P n w callers
      → i < n
      → callers i ≡ c
      → (P c → ⊥)
      → i ≡ w
  worker P n w i c h small e bad = elim (Bool-cases (i == w)) [
    | inl q ↦ (==_iff i w).0 q
    | inr o ↦ absurd (bad (subst P e (h i small (λ q. ground (arith, ==_iff i w)))))
  ]

  pub Queued-Served : (v : V) (c : Caller V) → Queued c → Served v c
  unfolding Queued Served
  Queued-Served v asked h = tt
  Queued-Served v called h = h
  Queued-Served v fetches h = h
  Queued-Served v (sends n w) h = h
  Queued-Served v waits h = tt
  Queued-Served v reads h = h
  Queued-Served v (answered a) h = absurd h

  pub Served-Settled : (v : V) (c : Caller V) → Served v c → c ≢ waits → Settled v c
  unfolding Served Settled
  Served-Settled v asked h w = tt
  Served-Settled v called h w = h
  Served-Settled v fetches h w = h
  Served-Settled v (sends n x) h w = h
  Served-Settled v waits h w = absurd (w refl)
  Served-Settled v reads h w = absurd h
  Served-Settled v (answered a) h w = h

  pub Idle-Queued : (c : Caller V) → Idle c → Queued c
  unfolding Idle Queued
  Idle-Queued asked h = tt
  Idle-Queued called h = h
  Idle-Queued fetches h = h
  Idle-Queued (sends n v) h = h
  Idle-Queued waits h = absurd h
  Idle-Queued reads h = h
  Idle-Queued (answered a) h = h

  pub Idle-waiting : (c : Caller V) → Idle c → waiting c ≡ 0
  unfolding Idle
  Idle-waiting asked h = refl
  Idle-waiting called h = refl
  Idle-waiting fetches h = refl
  Idle-waiting (sends n v) h = refl
  Idle-waiting waits h = absurd h
  Idle-waiting reads h = refl
  Idle-waiting (answered a) h = refl

  pub total-Idle :
      (n : ℕ) (callers : ℕ → Caller V) → All Idle n callers → total waiting n callers ≡ 0
  unfolding total
  total-Idle zero callers h = refl
  total-Idle (suc n) callers h =
      let a = Idle-waiting (callers n) (h n (omega arith)) in
      let b = total-Idle n callers (λ j small. h j (omega arith)) in omega arith
