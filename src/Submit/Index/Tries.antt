-- ===== src/Submit/Index/Tries.antt =====
-- Each run of `getJobIndex` ends: its calls are counted.
use runai_cli.Prelude.{
  ℕ, zero, suc, ◌+◌, ◌*◌, ◌≤◌, ◌<◌, ◌==◌, ℤ, String, Bool, true, false, Option, none, some, Map,
  if◌then◌else◌, ◌≡◌, refl, sym, ◌⊎◌, inl, inr, Bool-cases, ==_iff, arith,
}
use mathlib.Core.Path.{subst}
use runai_cli.Submit.Index.{
  Server, get_resource_max_retries, draw, Client, reading, writing, returned, start, after_read,
  after_update, System, put, Step, reads, read_fails, writes, write_fails, Runs, here, next,
}

abbrev measure : Client → ℕ
measure (reading tries) = 2 * tries + 2
measure (writing tries v index values) = 2 * tries + 1
measure (returned r) = 0

draw-measure :
    (tries v : ℕ) (values : Map String) (last : Option ℤ)
    → measure (draw tries v values last) < 2 * tries + 2
unfolding draw
draw-measure tries v values none = omega arith
draw-measure tries v values (some n) = omega arith

after_read-measure :
    (tries : ℕ) (answer : Option (ℕ × Map String))
    → measure (after_read tries answer) < 2 * tries + 2
unfolding after_read
after_read-measure tries none = omega arith
after_read-measure tries (some (v, values)) = draw-measure tries v values _

after_update-measure :
    (tries : ℕ) (index : String) (answered : Bool)
    → measure (after_update tries index answered) < 2 * tries + 1
unfolding after_update
after_update-measure tries index true = omega arith
after_update-measure zero index false = omega arith
after_update-measure (suc tries) index false = omega arith

put-same : (i : ℕ) (c : Client) (clients : ℕ → Client) → put i c clients i ≡ c
put-same i c clients = rw ((==_iff i i).1 refl) refl

module _ (server : Server) where
  open server use {Store, read}

  abbrev after : ℕ → Client → System Store → Client
  after i c s = put i c s.clients i

  put-measure :
      (i : ℕ) (c old : Client) (s : System Store)
      → s.clients i ≡ old
      → measure c < measure old
      → measure (put i c s.clients i) < measure (s.clients i)
  put-measure i c old s e h = rw (put-same i c s.clients, e) h

  Step-measure :
      {s t : System Store} (i : ℕ)
      → Step server s i t
      → measure (t.clients i) < measure (s.clients i)
  Step-measure {s} i (reads tries e q) =
      rw q (put-measure i _ _ s e (after_read-measure tries (read s.store)))
  Step-measure {s} i (read_fails tries e q) =
      rw q (put-measure i _ _ s e (after_read-measure tries none))
  Step-measure {s} i (writes tries v index values store answered e u q) =
      rw q (put-measure i _ _ s e (after_update-measure tries index answered))
  Step-measure {s} i (write_fails tries v index values e q) =
      rw q (put-measure i _ _ s e (after_update-measure tries index false))

  -- The calls that one client makes in a run.
  abbrev pub calls_of : ℕ → {s t : System Store} {n : ℕ} → Runs server s n t → ℕ
  calls_of i here = 0
  calls_of i (next j r step) = let before = calls_of i r in if i == j then suc before else before

  Step-other :
      {s t : System Store} (i j : ℕ)
      → Step server s j t
      → (i == j) ≡ false
      → t.clients i ≡ s.clients i
  Step-other i j (reads tries e q) o = rw (q, o) refl
  Step-other i j (read_fails tries e q) o = rw (q, o) refl
  Step-other i j (writes tries v index values store answered e u q) o = rw (q, o) refl
  Step-other i j (write_fails tries v index values e q) o = rw (q, o) refl

  calls-measure :
      (i : ℕ) {s t : System Store} {n : ℕ} (r : Runs server s n t)
      → measure (t.clients i) + calls_of i r ≤ measure (s.clients i)
  calls-measure i here = omega arith
  calls-measure i (next {n} {t} {u} j r step) = elim (Bool-cases (i == j)) [
    | inl e ↦
        let h =
          subst (λ k. measure (u.clients k) < measure (t.clients k)) (sym ((==_iff i j).0 e))
            (Step-measure j step) in
        let before = calls-measure i r in rw e (omega arith)
    | inr o ↦ rw (o, Step-other i j step o) (calls-measure i r)
  ]

  -- A client that has not returned can take its next call.
  progress :
      (s : System Store) (i : ℕ) (c : Client)
      → s.clients i ≡ c
      → ((r : Option String) × (s.clients i ≡ returned r))
        ⊎ ((0 < measure (s.clients i)) × ((t : System Store) × Step server s i t))
  progress s i (reading tries) e = inr (rw e (omega arith), (_, reads tries e refl))
  progress s i (writing tries v index values) e =
      inr (rw e (omega arith), (_, write_fails tries v index values e refl))
  progress s i (returned r) e = inl (r, e)

  -- Each client that asks for an index makes at most ten calls of the cluster, two for each of five
  -- tries, however the others' calls fall between them and whichever calls fail. One that has not
  -- returned can make its next call, and one that has made ten calls has returned.
  pub calls_bound :
      {s t : System Store} {n : ℕ}
      → ((j : ℕ) → s.clients j ≡ start)
      → (r : Runs server s n t) (i : ℕ)
      → (calls_of i r ≤ 2 * get_resource_max_retries)
        × (((r : Option String) × (t.clients i ≡ returned r))
            ⊎ ((calls_of i r < 2 * get_resource_max_retries)
                × ((u : System Store) × Step server t i u)))
  calls_bound {t = t} fresh r i =
      let h =
        subst (λ c. measure (t.clients i) + calls_of i r ≤ measure c) (fresh i)
          (calls-measure i r) in
      (
        omega arith,
        elim (progress t i (t.clients i) refl) [
          | inl e ↦ inl e
          | inr (positive, step) ↦ inr (omega arith, step)
        ],
      )
