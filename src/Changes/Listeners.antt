-- ===== src/Changes/Listeners.antt =====
-- lytecache-go/changes.go: a listener that has unsubscribed is not called again.
use lytecache.Common.{
  ℕ, ◌+◌, ◌≤◌, ◌<◌, Bool, false, some, List, [], ◌∷◌, ◌++◌, ◌≡◌, refl, arith, ltb, ◌==◌,
  if◌then◌else◌, All, inl, inr, Bool-cases,
}
use lytecache.World.{Op, ChangeRecord, Dispatcher}
use lytecache.Changes.{
  max_dispatch_depth, add_listener, submit, unsubscribe, without, targets, next_dispatch,
  still_listens, close_dispatcher,
}
use lytecache.Changes.Dispatch.{
  DispatcherStep, adding, removing, submitting, dispatching, closing, next_dispatch-Dispatched,
}

-- Any number of steps of the dispatcher.
pub data Later (d : Dispatcher) : Dispatcher → Type 0 where
  now : Later d d
  after : {e f : Dispatcher} → Later d e → DispatcherStep e f → Later d f

-- The id was given out, and no listener has it.
abbrev IsGone : ℕ → Dispatcher → Type 0
IsGone id d = (still_listens id d.listeners ≡ false) × (id < d.next_id)

gone_from : (id : ℕ) (ls : List (ℕ × (Op → Bool))) → still_listens id (without id ls) ≡ false
unfolding without still_listens
gone_from id [] = refl
gone_from id ((j, ops) ∷ ls) = elim (Bool-cases (j == id)) [
  | inl x ↦ rw x (gone_from id ls)
  | inr x ↦ rw (x, x) (gone_from id ls)
]

gone_before :
    (id other : ℕ) (ls : List (ℕ × (Op → Bool)))
    → still_listens id ls ≡ false
    → still_listens id (without other ls) ≡ false
unfolding without still_listens
gone_before id other [] h = refl
gone_before id other ((j, ops) ∷ ls) h = elim (Bool-cases (j == other)) [
  | inl x ↦ rw x (gone_before id other ls (ground (arith, h)))
  | inr x ↦ rw x (ground (arith, h, gone_before id other ls))
]

still_listens-snoc :
    (id j : ℕ) (ops : Op → Bool) (ls : List (ℕ × (Op → Bool)))
    → still_listens id ls ≡ false
    → id < j
    → still_listens id (ls ++ (j, ops) ∷ []) ≡ false
unfolding still_listens
still_listens-snoc id j ops [] h l = ground (arith, l)
still_listens-snoc id j ops ((i, o) ∷ ls) h l = ground (arith, h, still_listens-snoc id j ops ls)

targets-gone :
    (id : ℕ) (op : Op) (ls : List (ℕ × (Op → Bool)))
    → still_listens id ls ≡ false
    → All (λ j. (j == id) ≡ false) (targets op ls)
unfolding still_listens targets
targets-gone id op [] h = tt
targets-gone id op ((j, ops) ∷ ls) h = elim (Bool-cases (ops op)) [
  | inl x ↦ rw x (ground (arith, h), targets-gone id op ls (ground (arith, h)))
  | inr x ↦ rw x (targets-gone id op ls (ground (arith, h)))
]

-- what a step keeps of the listeners and of the ids
abbrev Keeps : Dispatcher → Dispatcher → Type 0
Keeps d e = (e.listeners ≡ d.listeners) × (e.next_id ≡ d.next_id)

submit-Keeps : (inside : Bool) (rec : ChangeRecord) (d : Dispatcher) → Keeps d (submit inside rec d)
unfolding submit
submit-Keeps inside rec d =
    elim (Bool-cases (ltb max_dispatch_depth (if inside then d.depth + 1 else 1))) [
      | inl x ↦ rw x (refl, refl)
      | inr x ↦ elim (Bool-cases d.closed) [
        | inl y ↦ rw (x, y) (refl, refl)
        | inr y ↦ rw (x, y) (refl, refl)
      ]
    ]

next_dispatch-Keeps :
    (d e : Dispatcher) (rec : ChangeRecord) (ids : List ℕ)
    → next_dispatch d ≡ some (rec, ids, e)
    → (ids ≡ targets rec.op d.listeners) × Keeps d e
next_dispatch-Keeps d e rec ids h =
    let (_, _, _, _, a, b, c) = rw h at (next_dispatch-Dispatched d) in (a, (b, c))

Step-next_id : {d e : Dispatcher} → DispatcherStep d e → d.next_id ≤ e.next_id
unfolding add_listener unsubscribe close_dispatcher
Step-next_id (adding ops) = omega arith
Step-next_id (removing id) = omega arith
Step-next_id {d = d} (submitting inside rec) = omega (arith, (submit-Keeps inside rec d).1)
Step-next_id {d = d} (dispatching rec ids e h) =
    omega (arith, (next_dispatch-Keeps d e rec ids h).1.1)
Step-next_id closing = omega arith

Keeps-IsGone : (id : ℕ) (d e : Dispatcher) → Keeps d e → IsGone id d → IsGone id e
Keeps-IsGone id d e (a, b) (g, l) = (rw a g, rw b l)

Step-IsGone : (id : ℕ) {d e : Dispatcher} → DispatcherStep d e → IsGone id d → IsGone id e
unfolding add_listener unsubscribe close_dispatcher still_listens
Step-IsGone id {d = d} (adding ops) (g, l) =
    (still_listens-snoc id d.next_id ops d.listeners g l, omega (arith, l))
Step-IsGone id {d = d} (removing other) (g, l) = (gone_before id other d.listeners g, l)
Step-IsGone id {d = d} (submitting inside rec) h =
    Keeps-IsGone id d (submit inside rec d) (submit-Keeps inside rec d) h
Step-IsGone id {d = d} (dispatching rec ids e k) h =
    Keeps-IsGone id d e (next_dispatch-Keeps d e rec ids k).1 h
Step-IsGone id closing (g, l) = (refl, l)

Later-IsGone : (id : ℕ) {d e : Dispatcher} → Later d e → IsGone id d → IsGone id e
Later-IsGone id now h = h
Later-IsGone id (after r s) h = Step-IsGone id s (Later-IsGone id r h)

Later-next_id : {d e : Dispatcher} → Later d e → d.next_id ≤ e.next_id
Later-next_id now = omega arith
Later-next_id (after r s) = omega (arith, Later-next_id r, Step-next_id s)

-- A listener is added, and unsubscribed after any steps of the dispatcher. After any further steps,
-- in which other listeners may be added, its id does not pass the check before a call, and no round
-- of the dispatcher has it among its targets.
pub unsubscribe-gone :
    (ops : Op → Bool) (d e f : Dispatcher)
    → Later (add_listener ops d).0 e
    → Later (unsubscribe (add_listener ops d).1 e) f
    → (still_listens (add_listener ops d).1 f.listeners ≡ false)
      × ((rec : ChangeRecord) (ids : List ℕ) (g : Dispatcher)
          → next_dispatch f ≡ some (rec, ids, g)
          → All (λ j. (j == (add_listener ops d).1) ≡ false) ids)
unfolding unsubscribe add_listener
unsubscribe-gone ops d e f r s =
    let id = (add_listener ops d).1 in
    let (g, l) = Later-IsGone id s (gone_from id e.listeners, omega (arith, Later-next_id r)) in
    (
      g,
      λ rec ids h k.
          rw (next_dispatch-Keeps f h rec ids k).0 (targets-gone id rec.op f.listeners g),
    )
