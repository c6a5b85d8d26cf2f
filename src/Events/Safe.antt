-- ===== src/Events/Safe.antt =====
-- Retention never fails the sweep that it is a part of.
use lytecache.Common.{ℕ, zero, suc, Bool, true, false, Option, none, some}
use lytecache.Errors.{Result, ok, err}
use lytecache.World.{Cache}
use lytecache.World.Safe.{Safe, Safe-bind, Safe-if, Safe-attempt, Safe-pure, safe}
use lytecache.Events.{
  is_full_batch, noticed, mark_ready, events_exist, delete_up_to, delete_bound, cap_bound,
  apply_retention, retain, sweep_events,
}

Safe-noticed : (r : Result Bool) → Safe (noticed r)
unfolding noticed mark_ready
Safe-noticed (ok true) = search safe
Safe-noticed (ok false) = search safe
Safe-noticed (err e) = search safe

Safe-events_exist : Safe events_exist
unfolding events_exist
Safe-events_exist = search (safe, Safe-noticed)

Safe-delete_up_to : (f bound : ℕ) → Safe (delete_up_to f bound)
unfolding delete_up_to
Safe-delete_up_to zero bound = Safe-pure tt
Safe-delete_up_to (suc f) bound =
    Safe-bind _ _ (Safe-attempt _)
      (λ r. Safe-if (is_full_batch r) _ _ (Safe-delete_up_to f bound) (Safe-pure tt))

Safe-delete_bound : (b : Option ℕ) → Safe (delete_bound b)
unfolding delete_bound
Safe-delete_bound none = search safe
Safe-delete_bound (some b) = search (safe, Safe-delete_up_to)

Safe-cap_bound : (c : Cache) (b : Option ℕ) → Safe (cap_bound c b)
unfolding cap_bound
Safe-cap_bound c b = search safe

Safe-apply_retention : (r : Result (Option ℕ)) → Safe (apply_retention r)
unfolding apply_retention
Safe-apply_retention (err e) = search safe
Safe-apply_retention (ok b) = search (safe, Safe-cap_bound, Safe-delete_bound)

Safe-retain : (b : Bool) → Safe (retain b)
unfolding retain
Safe-retain true = search (safe, Safe-apply_retention) depth 12
Safe-retain false = search safe

pub Safe-sweep_events : Safe sweep_events
unfolding sweep_events
Safe-sweep_events = search (safe, Safe-events_exist, Safe-retain)
