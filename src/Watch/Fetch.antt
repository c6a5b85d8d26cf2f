-- ===== src/Watch/Fetch.antt =====
-- What one call of `fetch` returns.
use lytecache.Common.{
  ℕ, suc, Bool, true, false, ◌≡◌, refl, sym, ap, ◌∙◌, Option, none, some, ◌⊎◌, inl, inr, List, [],
  ◌∷◌, map, take,
}
use lytecache.World.{World, Db, EventRow, ◌>>=◌}
use lytecache.World.Ends.{
  Ends, called, Ends-pure, Ends-if, Ends-bind, Ends-query, Ends-attempt, Ends-weaken,
}
use lytecache.World.Calls.{Ends-next_fault, Ends-call}
use lytecache.Watch.{
  GapError, Subscription, Fetched, scan_event, scan_rows, gap_check, read_batch, read_tx, or_failed,
  fetch, events_batch, is_wanted, select_events,
}
use lytecache.Watch.Gap.{verdict, KeepsDb, gap_check-Ends}

-- The events that the subscription is still to see, of those in `log`.
abbrev pub wanted : Subscription → List EventRow → List EventRow
wanted s log = select_events (is_wanted s.cursor s.namespace s.filter) log

abbrev pub fetched_rows : List EventRow → Bool → Fetched
fetched_rows rows failed = record { batch = map scan_event rows; gap = none; failed = failed }

-- The four ways in which a fetch ends.
pub data FetchFits (d : Db) (s : Subscription) (f : Fetched) : Type 0 where
  nothing_read : f ≡ fetched_rows [] true → FetchFits d s f
  gap_found :
      (g : GapError)
      → verdict s.cursor d ≡ some g
      → f ≡ record { batch = []; gap = some g; failed = false }
      → FetchFits d s f
  whole_batch :
      verdict s.cursor d ≡ none
      → f ≡ fetched_rows (take events_batch (wanted s d.events)) false
      → FetchFits d s f
  part_of_batch :
      verdict s.cursor d ≡ none
      → (k : ℕ) → f ≡ fetched_rows (take k (take events_batch (wanted s d.events))) true
      → FetchFits d s f

-- all rows, or those before the one at which the driver failed
abbrev Scanned : List EventRow → Fetched → Type 0
Scanned rows f = (f ≡ fetched_rows rows false) ⊎ ((k : ℕ) × (f ≡ fetched_rows (take k rows) true))

Scanned-cons :
    (r : EventRow) (rs : List EventRow) (f : Fetched)
    → Scanned rs f
    → Scanned (r ∷ rs) (record f { batch = scan_event r ∷ f.batch })
Scanned-cons r rs f (inl e) = inl (rw e refl)
Scanned-cons r rs f (inr (k, e)) = inr (suc k, rw e refl)

ended_by : (rs : List EventRow) (bad : Bool) → Scanned [] (fetched_rows [] bad)
ended_by rs true = inr (0, refl)
ended_by rs false = inl refl

scan_rows-Ends :
    (rs : List EventRow) (w : World)
    → Ends w (scan_rows rs) (λ f u. KeepsDb w u × Scanned rs f) (λ _ u. KeepsDb w u)
unfolding scan_rows
scan_rows-Ends [] w =
    Ends-bind (Ends-next_fault (Ends-pure _ ((refl, refl), ended_by [] (w.env.faults 0))))
scan_rows-Ends (r ∷ rs) w = Ends-bind (
    Ends-next_fault (
      Ends-if (w.env.faults 0) _ _ (λ x. Ends-pure _ ((refl, refl), inr (0, refl)))
        (λ x. Ends-bind (
          Ends-weaken (scan_rows-Ends rs (called w))
            (λ f u h. Ends-pure _ (h.0, Scanned-cons r rs f h.1)) (λ _ u h. h)))))

KeepsDb-trans : (w u v : World) → KeepsDb w u → KeepsDb u v → KeepsDb w v
KeepsDb-trans w u v a b = (b.0 ∙ a.0, b.1 ∙ a.1)

Scanned-FetchFits :
    (d : Db) (s : Subscription) (f : Fetched)
    → verdict s.cursor d ≡ none
    → Scanned (take events_batch (wanted s d.events)) f
    → FetchFits d s f
Scanned-FetchFits d s f v (inl e) = whole_batch v e
Scanned-FetchFits d s f v (inr (k, e)) = part_of_batch v k e

-- no events are read where there is a gap
read_batch-Ends :
    (w u : World) (s : Subscription) (g : Option GapError)
    → KeepsDb w u
    → g ≡ verdict s.cursor w.db
    → Ends u (read_batch s g) (λ f v. KeepsDb w v × FetchFits w.db s f) (λ _ v. KeepsDb w v)
unfolding read_batch
read_batch-Ends w u s (some g) k e = Ends-pure _ (k, gap_found g (sym e) refl)
read_batch-Ends w u s none k e = Ends-bind (
    Ends-query _
      (λ x.
        Ends-weaken (scan_rows-Ends _ (called u))
          (λ f v h. (
            KeepsDb-trans w (called u) v k h.0,
            Scanned-FetchFits w.db s f (sym e)
                (rw (← ap (λ (d : Db). take events_batch (wanted s d.events)) k.0) h.1),
          ))
          (λ _ v h. KeepsDb-trans w (called u) v k h))
      (λ x. k))

read-Ends :
    (w : World) (s : Subscription)
    → Ends w
        (read_tx (do g ← gap_check s.cursor; read_batch s g))
        (λ f u. KeepsDb w u × FetchFits w.db s f)
        (λ _ u. KeepsDb w u)
read-Ends w s =
    Ends-call
      (Ends-bind (
        Ends-weaken (gap_check-Ends (called w) s.cursor) (λ g u h. read_batch-Ends w u s g h.1 h.0)
          (λ _ u h. h)))
      (refl, refl)

-- A fetch returns in one of four ways, and changes neither the database nor the cache.
pub fetch-Ends :
    (w : World) (s : Subscription)
    → Ends w (fetch s) (λ f u. KeepsDb w u × FetchFits w.db s f) (λ _ u. KeepsDb w u)
unfolding fetch or_failed
fetch-Ends w s = Ends-bind (
    Ends-attempt (
      Ends-weaken (read-Ends w s) (λ f u h. Ends-pure _ h)
        (λ _ u h. Ends-pure _ (h, nothing_read refl))))
