-- ===== src/Events/Order.antt =====
-- The order of events: what publishing and retention do to the sequence numbers.
use lytecache.Common.{
  ℕ, zero, suc, ◌≤◌, ◌<◌, String, true, false, List, [], ◌∷◌, ◌++◌, ◌≡◌, arith, leb, All, All-map,
  inl, inr, Bool-cases, ℤ,
}
use lytecache.World.{Db, EventRow}
use lytecache.Events.{Encoded, append_event, delete_events}

abbrev pub Below : ℕ → List EventRow → Type 0
Below n es = All (λ e. e.seq ≤ n) es

abbrev pub Rising : List EventRow → Type 0
Rising [] = Unit {0}
Rising (e ∷ es) = All (λ f. e.seq < f.seq) es × Rising es

-- The events stand in the order of their sequence numbers, which are all different, and the counter
-- has passed them all.
abbrev pub EventsFit : Db → Type 0
EventsFit d = Rising d.events × Below d.last_seq d.events

pub All-snoc :
    {A : Type 0} (P : A → Type 0) (xs : List A) (x : A) → All P xs → P x → All P (xs ++ x ∷ [])
All-snoc P [] x h k = (k, tt)
All-snoc P (y ∷ ys) x h k = (h.0, All-snoc P ys x h.1 k)

pub Rising-snoc :
    (n : ℕ) (es : List EventRow) (x : EventRow)
    → Rising es
    → Below n es
    → n < x.seq
    → Rising (es ++ x ∷ [])
Rising-snoc n [] x r b l = (tt, tt)
Rising-snoc n (e ∷ es) x r b l =
    (All-snoc _ es x r.0 (omega (arith, b.0, l)), Rising-snoc n es x r.1 b.1 l)

pub append_event-EventsFit :
    (ns : String) (now : ℤ) (e : Encoded) (d : Db)
    → EventsFit d
    → EventsFit (append_event ns now e d).0
unfolding append_event
append_event-EventsFit ns now e d h = (
  Rising-snoc d.last_seq d.events _ h.0 h.1 (omega arith),
  All-snoc _ d.events _ (All-map d.events (λ x k. omega (arith, k)) h.1) (omega arith),
)

-- one row of a batched delete
pub deleted_row :
    (n bound : ℕ) (e : EventRow) (es : List EventRow)
    → leb e.seq bound ≡ true
    → (delete_events (suc n) bound (e ∷ es)).0 ≡ (delete_events n bound es).0
unfolding delete_events
deleted_row n bound e es h = ground (arith, h)

pub kept_row :
    (n bound : ℕ) (e : EventRow) (es : List EventRow)
    → leb e.seq bound ≡ false
    → (delete_events (suc n) bound (e ∷ es)).0 ≡ e ∷ (delete_events (suc n) bound es).0
unfolding delete_events
kept_row n bound e es h = ground (arith, h)

All-delete_events :
    (P : EventRow → Type 0) (n bound : ℕ) (es : List EventRow)
    → All P es
    → All P (delete_events n bound es).0
unfolding delete_events
All-delete_events P zero bound es h = h
All-delete_events P (suc n) bound [] h = tt
All-delete_events P (suc n) bound (e ∷ es) h = elim (Bool-cases (leb e.seq bound)) [
  | inl x ↦ rw (deleted_row n bound e es x) (All-delete_events P n bound es h.1)
  | inr x ↦ rw (kept_row n bound e es x) (h.0, All-delete_events P (suc n) bound es h.1)
]

Rising-delete_events :
    (n bound : ℕ) (es : List EventRow) → Rising es → Rising (delete_events n bound es).0
unfolding delete_events
Rising-delete_events zero bound es h = h
Rising-delete_events (suc n) bound [] h = tt
Rising-delete_events (suc n) bound (e ∷ es) h = elim (Bool-cases (leb e.seq bound)) [
  | inl x ↦ rw (deleted_row n bound e es x) (Rising-delete_events n bound es h.1)
  | inr x ↦
      rw (kept_row n bound e es x)
        (All-delete_events _ (suc n) bound es h.0, Rising-delete_events (suc n) bound es h.1)
]

-- A batch of the retention keeps the order, and every event above its bound.
pub delete_events-EventsFit :
    (n bound : ℕ) (d : Db)
    → EventsFit d
    → Rising (delete_events n bound d.events).0
      × Below d.last_seq (delete_events n bound d.events).0
delete_events-EventsFit n bound d h =
    (Rising-delete_events n bound d.events h.0, All-delete_events _ n bound d.events h.1)
