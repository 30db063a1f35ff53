-- ===== src/Trainer/Workload/Times.antt =====
-- The earliest start and the latest end of the pods of a job.
use runai_cli.Prelude.{
  ℕ, ◌≤◌, ◌<◌, Option, none, some, List, [], ◌∷◌, ltb, lt→ltb, if◌then◌else◌, ◌≡◌, refl, sym, ◌∙◌,
  ◌⊎◌, inl, inr, All, Any, Bool-cases, arith,
}
use mathlib.Core.Path.{subst}
use runai_cli.Kube.{Pod}
use runai_cli.Trainer.Workload.{
  RunaiWorkload, get_start_time_of_pod, get_end_time_of_pod, earlier, start_loop, start_time,
  finish_loop, finish_time,
}

-- A start that is there is not before the time.
abbrev pub NotBefore : ℕ → Option ℕ → Type 0
NotBefore t none = Unit
NotBefore t (some start) = t ≤ start

-- The time is the earliest of those that are there, and there is none where none is.
abbrev pub IsEarliest : Option ℕ → List Pod → Option ℕ → Type 0
IsEarliest first pods none = (first ≡ none) × All (λ p. get_start_time_of_pod (some p) ≡ none) pods
IsEarliest first pods (some t) =
    ((first ≡ some t) ⊎ Any (λ p. get_start_time_of_pod (some p) ≡ some t) pods)
    × NotBefore t first
    × All (λ p. NotBefore t (get_start_time_of_pod (some p))) pods

earlier-cases :
    (first start : Option ℕ) → (earlier first start ≡ first) ⊎ (earlier first start ≡ start)
earlier-cases first none = inl refl
earlier-cases none (some start) = inr refl
earlier-cases (some t) (some start) = elim (Bool-cases (ltb start t)) [
  | inl e ↦ inr (rw e)
  | inr e ↦ inl (rw e)
]

earlier-none :
    (first start : Option ℕ) → earlier first start ≡ none → (first ≡ none) × (start ≡ none)
earlier-none none none e = (refl, refl)
earlier-none (some t) none e = cc
earlier-none none (some start) e = cc
earlier-none (some t) (some start) e = cc

earlier-NotBefore :
    (t : ℕ) (first start : Option ℕ)
    → NotBefore t (earlier first start)
    → NotBefore t first × NotBefore t start
earlier-NotBefore t none none h = (tt, tt)
earlier-NotBefore t (some f) none h = (h, tt)
earlier-NotBefore t none (some s) h = (tt, h)
earlier-NotBefore t (some f) (some s) h = ground arith

start_loop-nil : (first : Option ℕ) → start_loop first [] ≡ first
unfolding start_loop
start_loop-nil first = refl

start_loop-cons :
    (first : Option ℕ) (pod : Pod) (pods : List Pod)
    → start_loop first (pod ∷ pods)
      ≡ start_loop (earlier first (get_start_time_of_pod (some pod))) pods
unfolding start_loop
start_loop-cons first pod pods = refl

IsEarliest-nil : (first : Option ℕ) → IsEarliest first [] first
IsEarliest-nil none = (refl, tt)
IsEarliest-nil (some t) = (inl refl, (omega arith), tt)

IsEarliest-cons :
    (first : Option ℕ) (pod : Pod) (pods : List Pod) (result : Option ℕ)
    → IsEarliest (earlier first (get_start_time_of_pod (some pod))) pods result
    → IsEarliest first (pod ∷ pods) result
IsEarliest-cons first pod pods none (e, h) =
    let (a, b) = earlier-none first (get_start_time_of_pod (some pod)) e in (a, (b, h))
IsEarliest-cons first pod pods (some t) (source, before, h) =
    let (a, b) = earlier-NotBefore t first (get_start_time_of_pod (some pod)) before in
    (
      elim source [
        | inr k ↦ inr (inr k)
        | inl e ↦ elim (earlier-cases first (get_start_time_of_pod (some pod))) [
          | inl q ↦ inl (sym q ∙ e)
          | inr q ↦ inr (inl (sym q ∙ e))
        ]
      ],
      a,
      (b, h),
    )

start_loop-IsEarliest :
    (first : Option ℕ) (pods : List Pod) → IsEarliest first pods (start_loop first pods)
start_loop-IsEarliest first [] = rw (start_loop-nil first) (IsEarliest-nil first)
start_loop-IsEarliest first (pod ∷ pods) =
    subst (IsEarliest first (pod ∷ pods)) (sym (start_loop-cons first pod pods)) (
      IsEarliest-cons first pod pods _
        (start_loop-IsEarliest (earlier first (get_start_time_of_pod (some pod))) pods))

-- A job with more than one parallel pod starts when the first of its pods starts: at the earliest of
-- the start times that its pods have, and it has no start time where none of them has.
pub start_time-IsEarliest :
    (rj : RunaiWorkload) → 1 < rj.parallelism → IsEarliest none rj.pods (start_time rj)
unfolding start_time
start_time-IsEarliest rj h = rw (lt→ltb 1 rj.parallelism h) (start_loop-IsEarliest none rj.pods)

finish_loop-le :
    (clock : Pod → ℕ) (latest : ℕ) (pods : List Pod)
    → (latest ≤ finish_loop clock latest pods)
      × All (λ p. get_end_time_of_pod (clock p) (some p) ≤ finish_loop clock latest pods) pods
unfolding finish_loop
finish_loop-le clock latest [] = (omega arith, tt)
finish_loop-le clock latest (pod ∷ pods) =
    let end = get_end_time_of_pod (clock pod) (some pod) in
    let (a, b) = finish_loop-le clock (if ltb latest end then end else latest) pods in
    (ground (arith, a), (ground (arith, a), b))

-- A job with more than one parallel pod never finishes before the clock is read, also where all of its
-- pods have ended long ago; and it does not finish before any of its pods ends.
pub finish_time-le :
    (now : ℕ) (clock : Pod → ℕ) (rj : RunaiWorkload)
    → 1 < rj.parallelism
    → (now ≤ finish_time now clock rj)
      × All (λ p. get_end_time_of_pod (clock p) (some p) ≤ finish_time now clock rj) rj.pods
unfolding finish_time
finish_time-le now clock rj h = rw (lt→ltb 1 rj.parallelism h) (finish_loop-le clock now rj.pods)
