-- ===== src/Workflow/Chains.antt =====
-- How chains of calls end, and what they keep.
use runai_cli.Prelude.{◌≡◌, refl, ◌⊎◌, inl, inr}
use runai_cli.Workflow.{Problem, Outcome, failed, done, Call, and_then, or_else, on_failure}

-- How a chain of calls has come to its end.
pub or_else-done :
    {World A : Type 0} (c : Call World A) (next : World → Problem → Call World A) {t : World}
    {a : A}
    → or_else c next ≡ (t, done a)
    → (c ≡ (t, done a))
      ⊎ ((w : World) × (p : Problem) × (c ≡ (w, failed p)) × (next w p ≡ (t, done a)))
unfolding or_else
or_else-done (w, failed p) next e = inr (w, p, refl, e)
or_else-done (w, done a) next e = inl e

pub or_else-failed :
    {World A : Type 0} (c : Call World A) (next : World → Problem → Call World A) {t : World}
    {q : Problem}
    → or_else c next ≡ (t, failed q)
    → (w : World) × (p : Problem) × (c ≡ (w, failed p)) × (next w p ≡ (t, failed q))
unfolding or_else
or_else-failed (w, failed p) next e = (w, p, refl, e)
or_else-failed (w, done a) next e = absurd (cc e)

pub and_then-done :
    {World A B : Type 0} (c : Call World A) (next : World → A → Call World B) {t : World} {b : B}
    → and_then c next ≡ (t, done b)
    → (w : World) × (a : A) × (c ≡ (w, done a)) × (next w a ≡ (t, done b))
unfolding and_then
and_then-done (w, failed p) next e = absurd (cc e)
and_then-done (w, done a) next e = (w, a, refl, e)

pub Call-cases :
    {World A : Type 0} (c : Call World A)
    → ((w : World) × (p : Problem) × (c ≡ (w, failed p)))
      ⊎ ((w : World) × (a : A) × (c ≡ (w, done a)))
Call-cases (w, failed p) = inl (w, p, refl)
Call-cases (w, done a) = inr (w, a, refl)

-- A question that does not change the world.
pub asked-done :
    {World A B : Type 0} (w : World) (o : Outcome A) (next : World → A → Call World B) {t : World}
    {b : B}
    → and_then (w, o) next ≡ (t, done b)
    → (a : A) × (o ≡ done a) × (next w a ≡ (t, done b))
unfolding and_then
asked-done w (failed p) next e = absurd (cc e)
asked-done w (done a) next e = (a, refl, e)

-- What a chain keeps in the world if each of its calls keeps it.
pub or_else_keeps :
    {World A : Type 0} (P : World → Type 0) (c : Call World A)
    (next : World → Problem → Call World A)
    → P c.0
    → ((w : World) (p : Problem) → P w → P (next w p).0)
    → P (or_else c next).0
unfolding or_else
or_else_keeps P (w, failed p) next h k = k w p h
or_else_keeps P (w, done a) next h k = h

pub and_then_keeps :
    {World A B : Type 0} (P : World → Type 0) (c : Call World A) (next : World → A → Call World B)
    → P c.0
    → ((w : World) (a : A) → P w → P (next w a).0)
    → P (and_then c next).0
unfolding and_then
and_then_keeps P (w, failed p) next h k = h
and_then_keeps P (w, done a) next h k = k w a h

pub on_failure_keeps :
    {World A : Type 0} (P : World → Type 0) (c : Call World A) (after : World → World)
    → P c.0
    → ((w : World) → P w → P (after w))
    → P (on_failure c after).0
unfolding on_failure
on_failure_keeps P (w, failed p) after h k = k w h
on_failure_keeps P (w, done a) after h k = h
