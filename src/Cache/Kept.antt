-- ===== src/Cache/Kept.antt =====
-- Every step leads from a phase to a phase.
use runai_cli.Prelude.{
  ℕ, suc, ◌+◌, ◌<◌, true, false, some, ◌≡◌, ◌≢◌, refl, sym, ap, ◌∙◌, ◌⊎◌, inl, inr, arith,
}
use mathlib.Core.Path.{subst}
use runai_cli.Cache.{
  CacheImpl, ready, fetching, empty, Caller, asked, called, fetches, sends, waits, reads, answered,
  get_locked, refresh_locked, store_locked, end_locked, System, put, moved, Step, gets, refreshes,
  stores, meets, ends, looks, Runs, here, next, fresh_system,
}
use runai_cli.Cache.Counts.{
  waiting, total, total-put, Others, All-put, Others-put, Others-put_self, put_self, put-other,
  total-none,
}
use runai_cli.Cache.Phases.{
  Idle, Queued, Served, Settled, Phase, before, during, handing, after, worker, Queued-Served,
  Served-Settled, Idle-Queued, total-Idle,
}

no_fetch : {f g : ℕ} → g ≡ 0 → f ≡ g + f
no_fetch h = omega arith

one_fetch : {f g : ℕ} → g ≡ 1 → suc f ≡ g + f
one_fetch h = omega arith

module _ {V : Type 0} where
  get-empty :
      (c : CacheImpl V) → c.status ≡ empty → get_locked c ≡ (record c { status = fetching }, called)
  get-empty c e = rw e refl

  get-fetching :
      (c : CacheImpl V)
      → c.status ≡ fetching
      → get_locked c ≡ (record c { waiters_counter = suc c.waiters_counter }, waits)
  get-fetching c e = rw e refl

  get-ready : (c : CacheImpl V) → c.status ≡ ready → get_locked c ≡ (c, reads)
  get-ready c e = rw e refl

  -- The caller who fetches is not at a place that only others have.
  pub not_worker :
      (s : System V) {f : ℕ} (w i : ℕ) (c : Caller V)
      → ((s.callers w ≡ called) × (f ≡ 0)) ⊎ ((s.callers w ≡ fetches) × (f ≡ 1))
      → s.callers i ≡ c
      → c ≢ called
      → c ≢ fetches
      → w ≢ i
  not_worker s w i c (inl (a, _)) e x y q = x (sym e ∙ ap s.callers (sym q) ∙ a)
  not_worker s w i c (inr (a, _)) e x y q = y (sym e ∙ ap s.callers (sym q) ∙ a)

  gets-Phase :
      {n f : ℕ} {s : System V} (i : ℕ)
      → i < n
      → s.callers i ≡ asked
      → s.locked ≡ false
      → Phase n s f
      → Phase n (moved i false (get_locked s.cache) s) f
  unfolding Queued Settled
  gets-Phase {n} {f} {s} i small e l (before st k _ idle z) =
      subst (λ r. Phase n (moved i false r s) f) (sym (get-empty s.cache st))
        (during i small refl refl (inl (put_self i called s.callers, z))
          (Others-put_self Queued n i called (λ j h _. Idle-Queued _ (idle j h)))
          (let p = total-put waiting n i called asked s.callers small e in
            let q = total-Idle n s.callers idle in omega arith))
  gets-Phase {n} {f} {s} i small e l (during w wn st _ place others sum) =
      let o = not_worker s w i asked place e (λ h. cc) (λ h. cc) in
      subst (λ r. Phase n (moved i false r s) f) (sym (get-fetching s.cache st))
        (during w wn st refl
          (subst (λ c. ((c ≡ called) × (f ≡ 0)) ⊎ ((c ≡ fetches) × (f ≡ 1)))
            (sym (put-other i w waits s.callers o)) place)
          (Others-put Queued n w i waits tt others)
          (let p = total-put waiting n i waits asked s.callers small e in omega arith))
  gets-Phase i small e l (handing w left v wn st ct lk at others sum z) = cc
  gets-Phase {n} {f} {s} i small e l (after v st ct _ all z) =
      subst (λ r. Phase n (moved i false r s) f) (sym (get-ready s.cache st))
        (after v st ct refl (All-put (Settled v) n i reads tt (λ j h _. all j h)) z)

  refreshes-Phase :
      {n f : ℕ} {s : System V} (i : ℕ)
      → i < n
      → s.callers i ≡ called
      → s.locked ≡ false
      → Phase n s f
      → Phase n (moved i false (refresh_locked s.cache) s) (suc f)
  unfolding Idle Queued Settled
  refreshes-Phase i small e l (before st k _ idle z) = absurd (subst Idle e (idle i small))
  refreshes-Phase {n} {f} {s} i small e l (during w wn st _ place others sum) =
      let q = worker Queued n w i called others small e (λ h. h) in
      let z : f ≡ 0 = elim place [
        | inl (_, z) ↦ z
        | inr (a, _) ↦ let x = sym e ∙ ap s.callers q ∙ a in cc
      ] in
      during i small refl refl (inr (put_self i fetches s.callers, ap suc z))
        (Others-put_self Queued n i fetches
          (subst (λ x. Others Queued n x s.callers) (sym q) others))
        (let p = total-put waiting n i fetches called s.callers small e in omega arith)
  refreshes-Phase i small e l (handing w left v wn st ct lk at others sum z) = cc
  refreshes-Phase i small e l (after v st ct _ all z) = absurd (subst (Settled v) e (all i small))

  stores-Phase :
      {n f : ℕ} {s : System V} (i : ℕ) (v : V)
      → i < n
      → s.callers i ≡ fetches
      → s.locked ≡ false
      → Phase n s f
      → Phase n (moved i true (store_locked v s.cache) s) f
  unfolding Idle Queued Settled
  stores-Phase i v small e l (before st k _ idle z) = absurd (subst Idle e (idle i small))
  stores-Phase {n} {f} {s} i v small e l (during w wn st _ place others sum) =
      let q = worker Queued n w i fetches others small e (λ h. h) in
      let z : f ≡ 1 = elim place [
        | inl (a, _) ↦ let x = sym e ∙ ap s.callers q ∙ a in cc
        | inr (_, z) ↦ z
      ] in
      handing i s.cache.waiters_counter v small refl refl refl (put_self i _ s.callers)
        (Others-put_self (Served v) n i _
          (λ j h o. Queued-Served v _ (others j h (λ x. o (x ∙ sym q)))))
        (let p =
            total-put waiting n i (sends s.cache.waiters_counter v) fetches s.callers small e in
          omega arith)
        z
  stores-Phase i v small e l (handing w left x wn st ct lk at others sum z) = cc
  stores-Phase i v small e l (after x st ct _ all z) = absurd (subst (Settled x) e (all i small))

  meets-Phase :
      {n f : ℕ} {s : System V} (i j left : ℕ) (v : V)
      → i < n
      → j < n
      → s.callers i ≡ sends (suc left) v
      → s.callers j ≡ waits
      → Phase n s f
      → Phase n
          (record s { callers = put j (answered (some v)) (put i (sends left v) s.callers) })
          f
  unfolding Idle Queued Served Settled
  meets-Phase i j left v si sj e ej (before st k _ idle z) = absurd (subst Idle e (idle i si))
  meets-Phase {s = s} i j left v si sj e ej (during w wn st _ place others sum) = absurd (
      not_worker s w i _ place e (λ h. cc) (λ h. cc)
        (sym (worker Queued _ w i _ others si e (λ h. h))))
  meets-Phase {n} {f} {s} i j left v si sj e ej (handing w l x wn st ct lk at others sum z) =
      let q = worker (Served x) n w i _ others si e (λ h. h) in
      let same : sends (suc left) v ≡ sends l x = sym e ∙ ap s.callers q ∙ at in
      let moves : l ≡ suc left = cc in
      let value : x ≡ v = cc in
      let apart : i ≢ j = λ h. let b = sym e ∙ ap s.callers h ∙ ej in cc in
      let waiter : put i (sends left v) s.callers j ≡ waits =
        put-other i j (sends left v) s.callers (λ h. apart (sym h)) ∙ ej in
      handing i left v si st (ct ∙ ap some value) lk
        (put-other j i (answered (some v)) (put i (sends left v) s.callers) apart
          ∙ put_self i (sends left v) s.callers)
        (Others-put (Served v) n i j (answered (some v)) refl (
          Others-put_self (Served v) n i (sends left v) (
            subst (λ y. Others (Served y) n i s.callers) value
              (subst (λ y. Others (Served x) n y s.callers) (sym q) others))))
        (let a = total-put waiting n i (sends left v) (sends (suc left) v) s.callers si e in
          let b =
            total-put waiting n j (answered (some v)) waits (put i (sends left v) s.callers) sj
              waiter in
          omega arith)
        z
  meets-Phase i j left v si sj e ej (after x st ct _ all z) =
      absurd (subst (Settled x) e (all i si))

  ends-Phase :
      {n f : ℕ} {s : System V} (i : ℕ) (v : V)
      → i < n
      → s.callers i ≡ sends 0 v
      → Phase n s f
      → Phase n (moved i false (end_locked v s.cache) s) f
  unfolding Idle Queued Served Settled
  ends-Phase i v si e (before st k _ idle z) = absurd (subst Idle e (idle i si))
  ends-Phase {s = s} i v si e (during w wn st _ place others sum) = absurd (
      not_worker s w i _ place e (λ h. cc) (λ h. cc)
        (sym (worker Queued _ w i _ others si e (λ h. h))))
  ends-Phase {n} {f} {s} i v si e (handing w l x wn st ct lk at others sum z) =
      let q = worker (Served x) n w i _ others si e (λ h. h) in
      let same : sends 0 v ≡ sends l x = sym e ∙ ap s.callers q ∙ at in
      let none_left : total waiting n s.callers ≡ 0 = cc in
      let value : x ≡ v = cc in
      after v st (ct ∙ ap some value) refl
        (All-put (Settled v) n i (answered (some v)) refl (λ j h o.
          subst (λ y. Settled y (s.callers j)) value
            (Served-Settled x _ (others j h (λ y. o (y ∙ sym q)))
              (total-none n j s.callers h none_left))))
        z
  ends-Phase i v si e (after x st ct _ all z) = absurd (subst (Settled x) e (all i si))

  looks-Phase :
      {n f : ℕ} {s : System V} (i : ℕ)
      → i < n
      → s.callers i ≡ reads
      → Phase n s f
      → Phase n (record s { callers = put i (answered s.cache.content) s.callers }) f
  unfolding Idle Queued Served Settled
  looks-Phase i si e (before st k _ idle z) = absurd (subst Idle e (idle i si))
  looks-Phase {s = s} i si e (during w wn st _ place others sum) = absurd (
      not_worker s w i _ place e (λ h. cc) (λ h. cc)
        (sym (worker Queued _ w i _ others si e (λ h. h))))
  looks-Phase {s = s} i si e (handing w l x wn st ct lk at others sum z) =
      let q = worker (Served x) _ w i _ others si e (λ h. h) in
      let same : reads ≡ sends l x = sym e ∙ ap s.callers q ∙ at in cc
  looks-Phase {n} {f} {s} i si e (after v st ct lk all z) =
      after v st ct lk (All-put (Settled v) n i _ ct (λ j h _. all j h)) z

  pub Step-Phase : {n f g : ℕ} {s t : System V} → Step n s g t → Phase n s f → Phase n t (g + f)
  Step-Phase {n} {f} {t = t} (gets i si e l g q) p =
      subst (Phase n t) (no_fetch g) (subst (λ u. Phase n u f) (sym q) (gets-Phase i si e l p))
  Step-Phase {n} {f} {t = t} (refreshes i si e l g q) p =
      subst (Phase n t) (one_fetch g)
        (subst (λ u. Phase n u (suc f)) (sym q) (refreshes-Phase i si e l p))
  Step-Phase {n} {f} {t = t} (stores i v si e l g q) p =
      subst (Phase n t) (no_fetch g) (subst (λ u. Phase n u f) (sym q) (stores-Phase i v si e l p))
  Step-Phase {n} {f} {t = t} (meets i j left v si sj e ej g q) p =
      subst (Phase n t) (no_fetch g)
        (subst (λ u. Phase n u f) (sym q) (meets-Phase i j left v si sj e ej p))
  Step-Phase {n} {f} {t = t} (ends i v si e g q) p =
      subst (Phase n t) (no_fetch g) (subst (λ u. Phase n u f) (sym q) (ends-Phase i v si e p))
  Step-Phase {n} {f} {t = t} (looks i si e g q) p =
      subst (Phase n t) (no_fetch g) (subst (λ u. Phase n u f) (sym q) (looks-Phase i si e p))

  fresh-Phase : (n : ℕ) → Phase {V = V} n fresh_system 0
  unfolding fresh_system Idle
  fresh-Phase n = before refl refl refl (λ j h. tt) refl

  pub Runs-Phase : {n k f : ℕ} {t : System V} → Runs n fresh_system k f t → Phase n t f
  Runs-Phase {n} here = fresh-Phase n
  Runs-Phase (next r step) = Step-Phase step (Runs-Phase r)
