-- ===== src/Submit/Index/Unique.antt =====
-- Two runs of `getJobIndex` never return the same number.
use runai_cli.Prelude.{
  ℕ, zero, suc, ◌+◌, ◌-◌, ◌^◌, ◌≤◌, ◌<◌, ◌==◌, pos, String, Bool, true, false, Option, none, some,
  Map, get, assign, lookup-assign, atoi, decimal, atoi-decimal, decimal-injective, ◌≡◌, ◌≢◌, refl,
  sym, ap, ◌∙◌, ◌⊎◌, inl, inr, Bool-cases, ==_iff, Option-cases, arith,
}
use mathlib.Core.Path.{subst}
use runai_cli.Submit.Index.{
  Server, IsServer, index_key, next_index, Client, reading, writing, returned, start, draw,
  after_read, after_update, System, put, Step, reads, read_fails, writes, write_fails, Runs, here,
  next, Begins,
}

next_index-small : (n : ℕ) → suc n < 2 ^ 63 → next_index (pos n) ≡ decimal (suc n)
unfolding next_index
next_index-small n h = let e : (n == 2 ^ 63 - 1) ≡ false = ground arith in rw e refl

get-assign : (m : Map String) (value : String) → get (assign m index_key value) index_key ≡ value
unfolding get
get-assign m value = rw (lookup-assign m index_key index_key value, get) refl

-- A client holds a version that is not newer than the stored one, and if it is the stored one, the next
-- number. A number that a client has returned is stored, or has been.
unfoldable IsFine : ℕ → ℕ → ℕ → Client → Type 0
IsFine first version last (reading tries) = Unit
IsFine first version last (writing tries v index values) =
    (v ≤ version) × (v ≡ version → (index ≡ decimal (suc last)) × (get values index_key ≡ index))
IsFine first version last (returned none) = Unit
IsFine first version last (returned (some index)) =
    (n : ℕ) × (first < n) × (n ≤ last) × (index ≡ decimal n)

-- After a write all but the writer are fine.
IsFine-later :
    (first version last w : ℕ) (c : Client)
    → version < w
    → IsFine first version last c
    → IsFine first w (suc last) c
unfolding IsFine
IsFine-later first version last w (reading tries) h f = tt
IsFine-later first version last w (writing tries v index values) h f =
    (omega arith, λ e. absurd (omega arith))
IsFine-later first version last w (returned none) h f = tt
IsFine-later first version last w (returned (some index)) h (n, a, b, e) = (n, a, omega arith, e)

after_read-IsFine :
    (first version last tries : ℕ) (values : Map String)
    → atoi (get values index_key) ≡ some (pos last)
    → suc last < 2 ^ 63
    → IsFine first version last (after_read tries (some (version, values)))
unfolding after_read draw IsFine
after_read-IsFine first version last tries values e h = rw e (
    rw (next_index-small last h) (omega arith, λ _. (refl, get-assign values (decimal (suc last)))))

retry-IsFine :
    (first version last tries : ℕ) (index : String)
    → IsFine first version last (after_update tries index false)
unfolding after_update IsFine
retry-IsFine first version last zero index = tt
retry-IsFine first version last (suc tries) index = tt

written-IsFine :
    (first version last tries : ℕ) (answered : Bool)
    → first ≤ last
    → IsFine first version (suc last) (after_update tries (decimal (suc last)) answered)
unfolding after_update IsFine
written-IsFine first version last tries true h = (suc last, omega arith, omega arith, refl)
written-IsFine first version last tries false h =
    retry-IsFine first version (suc last) tries (decimal (suc last))

put-cases :
    (i j : ℕ) (c : Client) (clients : ℕ → Client)
    → ((j ≡ i) × (put i c clients j ≡ c)) ⊎ (put i c clients j ≡ clients j)
put-cases i j c clients = elim (Bool-cases (j == i)) [
  | inl e ↦ inl ((==_iff j i).0 e, rw e refl)
  | inr o ↦ inr (rw o refl)
]

put-all :
    (P : Client → Type 0) (i : ℕ) (c : Client) (clients : ℕ → Client)
    → ((j : ℕ) → P (clients j))
    → P c
    → (j : ℕ) → P (put i c clients j)
put-all P i c clients h p j = elim (put-cases i j c clients) [
  | inl (q, e) ↦ subst P (sym e) p
  | inr e ↦ subst P (sym e) (h j)
]

abbrev pub IsDistinct : (ℕ → Client) → Type 0
IsDistinct clients =
    (i j : ℕ) (index : String)
    → clients i ≡ returned (some index)
    → clients j ≡ returned (some index)
    → i ≡ j

-- A client that ends with no index, or with one that no other has returned.
put-IsDistinct :
    (i : ℕ) (c : Client) (clients : ℕ → Client)
    → IsDistinct clients
    → ((j : ℕ) (index : String)
        → c ≡ returned (some index)
        → clients j ≡ returned (some index)
        → j ≡ i)
    → IsDistinct (put i c clients)
put-IsDistinct i c clients h new j k index ej ek = elim (put-cases i j c clients) [
  | inl (qj, pj) ↦ elim (put-cases i k c clients) [
    | inl (qk, pk) ↦ qj ∙ sym qk
    | inr pk ↦ qj ∙ sym (new k index (sym pj ∙ ej) (sym pk ∙ ek))
  ]
  | inr pj ↦ elim (put-cases i k c clients) [
    | inl (qk, pk) ↦ new j index (sym pk ∙ ek) (sym pj ∙ ej) ∙ sym qk
    | inr pk ↦ h j k index (sym pj ∙ ej) (sym pk ∙ ek)
  ]
]

after_read-ne :
    (tries : ℕ) (answer : Option (ℕ × Map String)) (index : String)
    → after_read tries answer ≢ returned (some index)
unfolding after_read draw
after_read-ne tries none index e = cc
after_read-ne tries (some (v, values)) index e = elim (Option-cases (atoi (get values index_key))) [
  | inl n ↦ let q = sym (ap (draw tries v values) n) ∙ e in cc
  | inr (last, n) ↦ let q = sym (ap (draw tries v values) n) ∙ e in cc
]

after_update-index :
    (tries : ℕ) (index : String) (answered : Bool) (x : String)
    → after_update tries index answered ≡ returned (some x)
    → x ≡ index
unfolding after_update
after_update-index tries index true x e = cc
after_update-index zero index false x e = cc
after_update-index (suc tries) index false x e = cc

retry-ne : (tries : ℕ) (index x : String) → after_update tries index false ≢ returned (some x)
unfolding after_update
retry-ne zero index x e = cc
retry-ne (suc tries) index x e = cc

-- A number that a client has returned is not the next one.
IsFine-old :
    (first version last : ℕ) (c : Client)
    → IsFine first version last c
    → suc last < 2 ^ 63
    → c ≢ returned (some (decimal (suc last)))
unfolding IsFine
IsFine-old first version last (reading tries) f h e = cc
IsFine-old first version last (writing tries v index values) f h e = cc
IsFine-old first version last (returned none) f h e = cc
IsFine-old first version last (returned (some index)) (n, a, b, q) h e =
    let i : index ≡ decimal (suc last) = cc in
    let m = decimal-injective n (suc last) (sym q ∙ i) in omega arith

started-ne : (index : String) → start ≢ returned (some index)
started-ne index e = cc

module _ (server : Server) where
  open server use {Store, read, update}

  -- After `k` calls: what is stored, and the clients.
  record Inv (first k : ℕ) (s : System Store) : Type 0 where
    version : ℕ
    last : ℕ
    held : Map String
    stored : read s.store ≡ some (version, held)
    number : atoi (get held index_key) ≡ some (pos last)
    above : first ≤ last
    below : last ≤ first + k
    fine : (i : ℕ) → IsFine first version last (s.clients i)
    distinct : IsDistinct s.clients

  -- A call that leaves the server as it is, and the client without a number.
  Inv-put :
      {first k : ℕ} {s t : System Store} (i : ℕ) (c : Client)
      → t ≡ record { store = s.store; clients = put i c s.clients }
      → ((index : String) → c ≢ returned (some index))
      → (inv : Inv first k s) → IsFine first inv.version inv.last c
      → Inv first (suc k) t
  Inv-put {first} {k} {s} i c q no_index inv fine = subst (Inv first (suc k)) (sym q) (record {
    version = inv.version;
    last = inv.last;
    held = inv.held;
    stored = inv.stored;
    number = inv.number;
    above = inv.above;
    below = let b = inv.below in omega arith;
    fine = put-all (IsFine first inv.version inv.last) i c s.clients inv.fine fine;
    distinct = put-IsDistinct i c s.clients inv.distinct (λ j index e _. absurd (no_index index e));
  })

  module _ (laws : IsServer server) where
    Inv-written :
        {first k : ℕ} {s t : System Store} (i tries v : ℕ) (index : String) (values : Map String)
        (store : Store) (answered : Bool)
        → first + suc k < 2 ^ 63
        → s.clients i ≡ writing tries v index values
        → update s.store v values ≡ some store
        → t
          ≡ record { store = store; clients = put i (after_update tries index answered) s.clients }
        → Inv first k s
        → Inv first (suc k) t
    unfolding IsFine
    Inv-written {first} {k} {s} i tries v index values store answered small e u q inv =
        let (old, current) = laws.update_current u in
        let (w, grows, stores) = laws.update_stores u in
        let same : v ≡ inv.version = cc (inv.stored, current) in
        let (x, y) = (subst (IsFine first inv.version inv.last) e (inv.fine i)).1 same in
        let b = inv.below in
        let next_small : suc inv.last < 2 ^ 63 = omega arith in
        subst (Inv first (suc k)) (sym q) (record {
          version = w;
          last = suc inv.last;
          held = values;
          stored = stores;
          number = ap atoi (y ∙ x) ∙ atoi-decimal (suc inv.last) next_small;
          above = let a = inv.above in omega arith;
          below = omega arith;
          fine =
              put-all (IsFine first w (suc inv.last)) i _ s.clients
                (λ j.
                  IsFine-later first inv.version inv.last w (s.clients j)
                    (subst (λ n. n < w) same grows) (inv.fine j))
                (subst (λ d. IsFine first w (suc inv.last) (after_update tries d answered)) (sym x)
                  (written-IsFine first w inv.last tries answered inv.above));
          distinct = put-IsDistinct i _ s.clients inv.distinct (λ j d c h. absurd (
              IsFine-old first inv.version inv.last (s.clients j) (inv.fine j) next_small (
                h
                ∙ ap (λ z. returned (some z)) (after_update-index tries index answered d c ∙ x))));
        })

    Step-Inv :
        {first k : ℕ} {s t : System Store} (i : ℕ)
        → first + suc k < 2 ^ 63
        → Step server s i t
        → Inv first k s
        → Inv first (suc k) t
    unfolding IsFine after_read
    Step-Inv {first} {s = s} i small (reads tries e q) inv =
        let b = inv.below in
        Inv-put i _ q (after_read-ne tries (read s.store)) inv (
          subst (λ o. IsFine first inv.version inv.last (after_read tries o)) (sym inv.stored)
            (after_read-IsFine first inv.version inv.last tries inv.held inv.number (omega arith)))
    Step-Inv i small (read_fails tries e q) inv = Inv-put i _ q (after_read-ne tries none) inv tt
    Step-Inv i small (writes tries v index values store answered e u q) inv =
        Inv-written i tries v index values store answered small e u q inv
    Step-Inv {first} i small (write_fails tries v index values e q) inv =
        Inv-put i _ q (retry-ne tries index) inv
          (retry-IsFine first inv.version inv.last tries index)

    start-Inv : {s : System Store} {first : ℕ} → Begins server s first → Inv first 0 s
    unfolding IsFine
    start-Inv {s} {first} b = record {
      version = b.version;
      last = first;
      held = b.values_of;
      stored = b.stored;
      number = b.last;
      above = omega arith;
      below = omega arith;
      fine = λ i. subst (IsFine first b.version first) (sym (b.fresh i)) tt;
      distinct = λ i j index e f. let q = sym (b.fresh i) ∙ e in absurd (started-ne index q);
    }

    Runs-Inv :
        {s t : System Store} {first n : ℕ}
        → Begins server s first
        → Runs server s n t
        → first + n < 2 ^ 63
        → Inv first n t
    Runs-Inv b here small = start-Inv b
    Runs-Inv b (next i r step) small = Step-Inv i small step (Runs-Inv b r (omega arith))

    -- If clients ask for an index at the same time, in whatever order their calls fall and whichever of
    -- them fail, also writes that are done but not answered, no two of them get the same index. Each
    -- index that one gets is the decimal text of a number above the one that was stored first, and at
    -- most as many above it as there were calls. This holds for a server that keeps its promise on
    -- versions, if only these clients write the config map and the numbers stay below `2 ^ 63`.
    pub get_job_index_unique :
        {s t : System Store} {first n : ℕ}
        → Begins server s first
        → Runs server s n t
        → first + n < 2 ^ 63
        → IsDistinct t.clients
          × ((i : ℕ) (index : String)
              → t.clients i ≡ returned (some index)
              → (number : ℕ) × (first < number) × (number ≤ first + n) × (index ≡ decimal number))
    unfolding IsFine
    get_job_index_unique {first = first} b r small =
        let inv = Runs-Inv b r small in
        let low = inv.below in
        (
          inv.distinct,
          λ i index e.
              let (m, above, below, q) = subst (IsFine first inv.version inv.last) e (inv.fine i) in
              (m, above, omega arith, q),
        )
