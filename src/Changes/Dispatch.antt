-- ===== src/Changes/Dispatch.antt =====
-- The dispatcher of change records: its depth limit, its order, and whom it calls.
use lytecache.Common.{
  ℕ, ◌+◌, ◌≤◌, Bool, true, false, Option, none, some, List, [], ◌∷◌, ◌++◌, ◌≡◌, refl, arith, ltb,
  lt→ltb, if◌then◌else◌, All, inl, inr, Bool-cases,
}
use lytecache.World.{Op, ChangeRecord, Dispatcher}
use lytecache.Changes.{
  max_dispatch_depth, new_dispatcher, add_listener, submit, unsubscribe, targets, next_dispatch,
  close_dispatcher,
}

-- The steps of a dispatcher: listeners come and go, records are submitted (from outside, or by a
-- listener that is being called), the next one is dispatched, and it is closed.
pub data DispatcherStep (d : Dispatcher) : Dispatcher → Type 0 where
  adding : (ops : Op → Bool) → DispatcherStep d (add_listener ops d).0
  removing : (id : ℕ) → DispatcherStep d (unsubscribe id d)
  submitting : (inside : Bool) (rec : ChangeRecord) → DispatcherStep d (submit inside rec d)
  dispatching :
      (rec : ChangeRecord) (ids : List ℕ) (after : Dispatcher)
      → next_dispatch d ≡ some (rec, ids, after)
      → DispatcherStep d after
  closing : DispatcherStep d (close_dispatcher d)

pub data DispatcherRun : Dispatcher → Type 0 where
  installed : DispatcherRun new_dispatcher
  next : {d e : Dispatcher} → DispatcherRun d → DispatcherStep d e → DispatcherRun e

-- The cascade that listeners cause is bounded: every queued record has a depth from 1 to 8.
abbrev pub IsBounded : Dispatcher → Type 0
IsBounded d =
    All (λ q. (1 ≤ q.1) × (q.1 ≤ max_dispatch_depth)) d.queue × (d.depth ≤ max_dispatch_depth)

All-snoc :
    {A : Type 0} (P : A → Type 0) (xs : List A) (x : A) → All P xs → P x → All P (xs ++ x ∷ [])
All-snoc P [] x h k = (k, tt)
All-snoc P (y ∷ ys) x h k = (h.0, All-snoc P ys x h.1 k)

InRange : ChangeRecord × ℕ → Type 0
InRange q = (1 ≤ q.1) × (q.1 ≤ max_dispatch_depth)

not_deeper : (k : ℕ) → ltb max_dispatch_depth k ≡ false → k ≤ max_dispatch_depth
not_deeper k h = ground (arith, lt→ltb 8 k)

enqueued :
    (k : ℕ) (rec : ChangeRecord) (d : Dispatcher)
    → 1 ≤ k
    → IsBounded d
    → IsBounded (
        if ltb max_dispatch_depth k
        then d
        else if d.closed
        then d
        else record d { queue = d.queue ++ (rec, k) ∷ [] })
unfolding InRange
enqueued k rec d l h = elim (Bool-cases (ltb max_dispatch_depth k)) [
  | inl x ↦ rw x h
  | inr x ↦ elim (Bool-cases d.closed) [
    | inl y ↦ rw (x, y) h
    | inr y ↦ rw (x, y) (All-snoc InRange d.queue (rec, k) h.0 (l, not_deeper k x), h.1)
  ]
]

submit-IsBounded :
    (inside : Bool) (rec : ChangeRecord) (d : Dispatcher)
    → IsBounded d
    → IsBounded (submit inside rec d)
unfolding submit
submit-IsBounded true rec d h = enqueued (d.depth + 1) rec d (omega arith) h
submit-IsBounded false rec d h = enqueued 1 rec d (omega arith) h

-- what a round that dispatches a record does
abbrev pub Dispatched : Dispatcher → Option (ChangeRecord × List ℕ × Dispatcher) → Type 0
Dispatched d none = Unit {0}
Dispatched d (some (rec, ids, e)) =
    (k : ℕ) × (d.queue ≡ (rec, k) ∷ e.queue)
    × (e.depth ≡ k)
    × (d.closed ≡ false)
    × (ids ≡ targets rec.op d.listeners)
    × (e.listeners ≡ d.listeners)
    × (e.next_id ≡ d.next_id)

taken_of :
    (d : Dispatcher) (q : List (ChangeRecord × ℕ))
    → d.queue ≡ q
    → d.closed ≡ false
    → Dispatched d (elim q [
      | [] ↦ none
      | (rec, depth) ∷ rest ↦
          some (rec, targets rec.op d.listeners, record d { queue = rest; depth = depth })
    ])
taken_of d [] e c = tt
taken_of d ((rec, k) ∷ rest) e c = (k, e, refl, c, refl, refl, refl)

open_of :
    (d : Dispatcher) (b : Bool)
    → d.closed ≡ b
    → Dispatched d (
        if b then none else elim d.queue [
          | [] ↦ none
          | (rec, depth) ∷ rest ↦
              some (rec, targets rec.op d.listeners, record d { queue = rest; depth = depth })
        ])
open_of d true c = tt
open_of d false c = taken_of d d.queue refl c

-- A round of the dispatcher takes the oldest record of the queue and calls the listeners of its
-- operation, in the order of their registration; a closed one takes none.
pub next_dispatch-Dispatched : (d : Dispatcher) → Dispatched d (next_dispatch d)
unfolding next_dispatch
next_dispatch-Dispatched d = open_of d d.closed refl

taken-IsBounded :
    (d e : Dispatcher) (rec : ChangeRecord) (ids : List ℕ)
    → IsBounded d
    → Dispatched d (some (rec, ids, e))
    → IsBounded e
taken-IsBounded d e rec ids h (k, q, p, _, _, _, _) = let (x, y) = rw q at h.0 in (y, rw p x.1)

-- Whatever listeners do, the depth of every queued record is between 1 and 8.
pub DispatcherRun-IsBounded : {d : Dispatcher} → DispatcherRun d → IsBounded d
unfolding add_listener unsubscribe close_dispatcher
DispatcherRun-IsBounded installed = (tt, ground arith)
DispatcherRun-IsBounded (next r (adding ops)) = DispatcherRun-IsBounded r
DispatcherRun-IsBounded (next r (removing id)) = DispatcherRun-IsBounded r
DispatcherRun-IsBounded (next {d = d} r (submitting inside rec)) =
    submit-IsBounded inside rec d (DispatcherRun-IsBounded r)
DispatcherRun-IsBounded (next {d = d} {e = e} r (dispatching rec ids after h)) =
    taken-IsBounded d e rec ids (DispatcherRun-IsBounded r) (rw h at (next_dispatch-Dispatched d))
DispatcherRun-IsBounded (next r closing) = DispatcherRun-IsBounded r
