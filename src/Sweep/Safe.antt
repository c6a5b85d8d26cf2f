-- ===== src/Sweep/Safe.antt =====
-- Maintenance never fails the operation that it is a part of.
use lytecache.Common.{ℕ, zero, suc, String, List, [], ◌∷◌, ℤ}
use lytecache.Errors.{Result, ok, err}
use lytecache.World.{LruUpdate}
use lytecache.World.Safe.{
  Safe, Safe-bind, Safe-if, Safe-attempt, Safe-pure, Safe-get_cache, Safe-next_die, safe,
}
use lytecache.Events.{is_full_batch}
use lytecache.Events.Safe.{Safe-sweep_events}
use lytecache.Sweep.{
  flush_taken, flush_lru_buffer, buffer_lru, count_removed, remove_expired, remove_expired_batch,
  must_evict, removed_some, count_evicted, evict_passes, enforce_capacity, sweep_once, maybe_evict,
  maybe_opportunistic_sweep,
}

Safe-flush_taken : (c : String) (l : List (String × LruUpdate)) → Safe (flush_taken c l)
unfolding flush_taken
Safe-flush_taken c [] = search safe
Safe-flush_taken c (x ∷ l) = search safe

pub Safe-flush_lru_buffer : Safe flush_lru_buffer
unfolding flush_lru_buffer
Safe-flush_lru_buffer = search (safe, Safe-flush_taken)

pub Safe-buffer_lru : (key : String) (now : ℤ) → Safe (buffer_lru key now)
unfolding buffer_lru
Safe-buffer_lru key now = search (safe, Safe-flush_lru_buffer) depth 12

Safe-count_removed : (r : Result ℕ) → Safe (count_removed r)
unfolding count_removed
Safe-count_removed (ok n) = search safe
Safe-count_removed (err e) = search safe

Safe-remove_expired : (f : ℕ) (c : String) (now : ℤ) → Safe (remove_expired f c now)
unfolding remove_expired
Safe-remove_expired zero c now = Safe-pure tt
Safe-remove_expired (suc f) c now = Safe-bind _ _ (Safe-attempt _) (λ r.
    Safe-bind _ _ (Safe-count_removed r)
      (λ _. Safe-if (is_full_batch r) _ _ (Safe-remove_expired f c now) (Safe-pure tt)))

Safe-remove_expired_batch : Safe remove_expired_batch
unfolding remove_expired_batch
Safe-remove_expired_batch = search (safe, Safe-remove_expired) depth 12

Safe-count_evicted : (r : Result ℕ) → Safe (count_evicted r)
unfolding count_evicted
Safe-count_evicted (ok n) = search safe
Safe-count_evicted (err e) = search safe

Safe-evict_passes : (f : ℕ) → Safe (evict_passes f)
unfolding evict_passes
Safe-evict_passes zero = Safe-pure tt
Safe-evict_passes (suc f) = Safe-bind _ _ Safe-get_cache (λ c.
    Safe-bind _ _ (Safe-attempt _) (λ sums.
      Safe-if (must_evict c.config sums) _ _
        (Safe-bind _ _ Safe-next_die (λ die. Safe-bind _ _ (Safe-attempt _) (λ r.
          Safe-bind _ _ (Safe-count_evicted r)
            (λ _. Safe-if (removed_some r) _ _ (Safe-evict_passes f) (Safe-pure tt)))))
        (Safe-pure tt)))

Safe-enforce_capacity : Safe enforce_capacity
unfolding enforce_capacity
Safe-enforce_capacity = search (safe, Safe-evict_passes)

-- a sweep handles the errors of its calls
pub Safe-sweep_once : Safe sweep_once
unfolding sweep_once
Safe-sweep_once =
    search
      (
        safe, Safe-flush_lru_buffer, Safe-remove_expired_batch, Safe-enforce_capacity,
        Safe-sweep_events,
      )
      depth 12

pub Safe-maybe_evict : Safe maybe_evict
unfolding maybe_evict
Safe-maybe_evict = search (safe, Safe-flush_lru_buffer, Safe-enforce_capacity) depth 12

pub Safe-maybe_opportunistic_sweep : Safe maybe_opportunistic_sweep
unfolding maybe_opportunistic_sweep
Safe-maybe_opportunistic_sweep = search (safe, Safe-sweep_once) depth 12
