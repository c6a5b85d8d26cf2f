-- ===== src/Watch/History.antt =====
-- What publishing and retention do to the events that were ever published.
use mathlib.Core.List.{append_assoc}
use lytecache.Common.{
  ℕ, zero, suc, ◌+◌, ◌<◌, String, ◌≡◌, refl, sym, ap, ◌∙◌, arith, List, [], ◌∷◌, ◌++◌, leb, All,
  All-map, Bool-cases, inl, inr, ℤ,
}
use lytecache.World.{Db, EventRow}
use lytecache.Events.{Encoded, new_event, append_event, delete_events, on_events}
use lytecache.Events.Order.{Rising, All-snoc, Rising-snoc, deleted_row, kept_row}
use lytecache.Watch.Gap.{IsHistory, Rising-drop}

-- nothing is deleted beyond the bound
delete_events-none :
    (n bound : ℕ) (es : List EventRow)
    → All (λ e. bound < e.seq) es
    → (delete_events n bound es).0 ≡ es
unfolding delete_events
delete_events-none zero bound es h = refl
delete_events-none (suc n) bound [] h = refl
delete_events-none (suc n) bound (e ∷ es) h =
    rw (kept_row n bound e es (ground (arith, h.0)), delete_events-none (suc n) bound es h.1) refl

abbrev pub IsSuffix : List EventRow → List EventRow → Type 0
IsSuffix es rest = (front : List EventRow) × (es ≡ front ++ rest)

delete_events-IsSuffix :
    (n bound : ℕ) (es : List EventRow) → Rising es → IsSuffix es (delete_events n bound es).0
unfolding delete_events
delete_events-IsSuffix zero bound es r = ([], refl)
delete_events-IsSuffix (suc n) bound [] r = ([], refl)
delete_events-IsSuffix (suc n) bound (e ∷ es) r = elim (Bool-cases (leb e.seq bound)) [
  | inl x ↦
      let ih = delete_events-IsSuffix n bound es r.1 in
      (e ∷ ih.0, rw (deleted_row n bound e es x) (ap (◌∷◌ e) ih.1))
  | inr x ↦ (
    [],
    rw
        (
          kept_row n bound e es x,
          delete_events-none (suc n) bound es (All-map es (λ f l. ground (arith, l, x)) r.0),
        )
        refl,
  )
]

-- A batch of the retention takes the oldest events that are left.
pub delete_events-IsHistory :
    (n bound : ℕ) (log : List EventRow) (d : Db)
    → IsHistory log d
    → IsHistory log (on_events (delete_events n bound) d).0
delete_events-IsHistory n bound log d h =
    let s =
      delete_events-IsSuffix n bound d.events
        (Rising-drop h.gone d.events (rw (← h.split) h.rising)) in
    record {
      gone = h.gone ++ s.0;
      split = h.split ∙ ap (◌++◌ h.gone) s.1 ∙ sym (append_assoc h.gone s.0 _);
      rising = h.rising;
      below = h.below;
    }

-- A published event is the newest of all.
pub append_event-IsHistory :
    (ns : String) (now : ℤ) (e : Encoded) (log : List EventRow) (d : Db)
    → IsHistory log d
    → IsHistory (log ++ new_event ns now e (d.last_seq + 1) ∷ []) (append_event ns now e d).0
unfolding append_event new_event
append_event-IsHistory ns now e log d h = record {
  gone = h.gone;
  split = rw h.split (append_assoc h.gone d.events _);
  rising = Rising-snoc d.last_seq log _ h.rising h.below (omega arith);
  below = All-snoc _ log _ (All-map log (λ x k. omega (arith, k)) h.below) (omega arith);
}
