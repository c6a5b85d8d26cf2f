-- ===== src/Sweep/Rows.antt =====
-- Maintenance runs statements on the rows of its own namespace only.
use lytecache.Common.{
  ℕ, zero, suc, String, Bool, false, Option, none, some, List, [], ◌∷◌, ◌≡◌, refl, ℤ, arith,
}
use lytecache.Errors.{Result, ok, err}
use lytecache.Table.{Row, Table, at_key, in_namespace, update_where, delete_limit}
use lytecache.Table.Trace.{Statement, updating, deleting, limiting, Within}
use lytecache.World.{Cache, LruUpdate, exec, on_rows}
use lytecache.World.Rules.{
  Runs, Runs-exec_rows, Runs-bind, Runs-if, Runs-attempt, Runs-with_cache, Runs-next_die, Runs-pure,
  runs,
}
use lytecache.Events.{sweep_batch_size, is_full_batch}
use lytecache.Events.Rows.{Runs-sweep_events}
use lytecache.Sweep.{
  note_access, write_pending, flush_pending, flush_taken, flush_lru_buffer, buffer_lru, expired_in,
  count_removed, remove_expired, remove_expired_batch, delete_victim, evict_one, count_evicted,
  evict_passes, enforce_capacity, sweep_once, maintain, maybe_evict, maybe_opportunistic_sweep,
  must_evict, removed_some,
}

pub at_key-Within : (ns k : String) → Within ns (at_key ns k)
unfolding at_key in_namespace
at_key-Within ns k r h = ground arith

expired_in-Within : (ns : String) (now : ℤ) → Within ns (expired_in ns now)
unfolding expired_in
expired_in-Within ns now r h = ground arith

module _ {fading : Bool} {ns : String} where
  Runs-update_pending :
      (c key : String) (u : LruUpdate)
      → c ≡ ns
      → Runs fading ns (exec (on_rows (update_where (at_key c key) (note_access u))))
  unfolding note_access
  Runs-update_pending c key u e = Runs-exec_rows _ (λ t.
      updating (at_key c key) (note_access u) (rw e (at_key-Within ns key)) (λ r. (refl, refl))
        (λ r h. h) (λ x r. (refl, refl, refl, refl)))

  Runs-write_pending :
      (c : String) (l : List (String × LruUpdate)) → c ≡ ns → Runs fading ns (write_pending c l)
  unfolding write_pending
  Runs-write_pending c [] e = Runs-pure tt
  Runs-write_pending c ((key, u) ∷ l) e =
      Runs-bind _ _ (Runs-attempt _ (Runs-update_pending c key u e)) (λ _. Runs-write_pending c l e)

  Runs-flush_pending :
      (c : String) (l : List (String × LruUpdate)) → c ≡ ns → Runs fading ns (flush_pending c l)
  unfolding flush_pending
  Runs-flush_pending c l e = search (runs, Runs-write_pending)

  Runs-flush_taken :
      (c : String) (l : List (String × LruUpdate)) → c ≡ ns → Runs fading ns (flush_taken c l)
  unfolding flush_taken
  Runs-flush_taken c [] e = Runs-pure tt
  Runs-flush_taken c (x ∷ l) e = search (runs, Runs-flush_pending)

  pub Runs-flush_lru_buffer : Runs fading ns flush_lru_buffer
  unfolding flush_lru_buffer
  Runs-flush_lru_buffer = search (runs, Runs-flush_taken)

  pub Runs-buffer_lru : (key : String) (now : ℤ) → Runs fading ns (buffer_lru key now)
  unfolding buffer_lru
  Runs-buffer_lru key now = search (runs, Runs-flush_lru_buffer) depth 12

  Runs-delete_expired :
      (c : String) (now : ℤ)
      → c ≡ ns
      → Runs fading ns (exec (on_rows (delete_limit sweep_batch_size (expired_in c now))))
  Runs-delete_expired c now e =
      Runs-exec_rows _
        (λ t. limiting sweep_batch_size (expired_in c now) (rw e (expired_in-Within ns now)))

  Runs-count_removed : (r : Result ℕ) → Runs fading ns (count_removed r)
  unfolding count_removed
  Runs-count_removed (ok n) = search runs
  Runs-count_removed (err x) = search runs

  Runs-remove_expired :
      (f : ℕ) (c : String) (now : ℤ) → c ≡ ns → Runs fading ns (remove_expired f c now)
  unfolding remove_expired
  Runs-remove_expired zero c now e = Runs-pure tt
  Runs-remove_expired (suc f) c now e =
      Runs-bind _ _ (Runs-attempt _ (Runs-delete_expired c now e)) (λ r.
        Runs-bind _ _ (Runs-count_removed r)
          (λ _. Runs-if (is_full_batch r) _ _ (Runs-remove_expired f c now e) (Runs-pure tt)))

  Runs-remove_expired_batch : Runs fading ns remove_expired_batch
  unfolding remove_expired_batch
  Runs-remove_expired_batch = search (runs, Runs-remove_expired) depth 12

  delete_victim-Statement :
      (v : Option Row) (t : Table) → Statement fading ns t (delete_victim ns v t).0
  unfolding delete_victim
  delete_victim-Statement none t = deleting (λ _. false) (λ r h. ground arith)
  delete_victim-Statement (some v) t = deleting (at_key ns v.key) (at_key-Within ns v.key)

  Runs-evict_one :
      (c : Cache) (die : ℕ)
      → c.namespace ≡ ns
      → Runs fading ns (exec (on_rows (evict_one c.eviction die c.namespace)))
  unfolding evict_one
  Runs-evict_one c die e = Runs-exec_rows _ (λ t. rw e (delete_victim-Statement _ t))

  Runs-count_evicted : (r : Result ℕ) → Runs fading ns (count_evicted r)
  unfolding count_evicted
  Runs-count_evicted (ok n) = search runs
  Runs-count_evicted (err x) = search runs

  Runs-evict_passes : (f : ℕ) → Runs fading ns (evict_passes f)
  unfolding evict_passes
  Runs-evict_passes zero = Runs-pure tt
  Runs-evict_passes (suc f) = Runs-with_cache _ (λ c e. Runs-bind _ _ (search runs) (λ sums.
      Runs-if (must_evict c.config sums) _ _
        (Runs-bind _ _ Runs-next_die (λ die.
          Runs-bind _ _ (Runs-attempt _ (Runs-evict_one c die e)) (λ r.
            Runs-bind _ _ (Runs-count_evicted r)
              (λ _. Runs-if (removed_some r) _ _ (Runs-evict_passes f) (Runs-pure tt)))))
        (Runs-pure tt)))

  pub Runs-enforce_capacity : Runs fading ns enforce_capacity
  unfolding enforce_capacity
  Runs-enforce_capacity = search (runs, Runs-evict_passes)

  pub Runs-sweep_once : Runs fading ns sweep_once
  unfolding sweep_once
  Runs-sweep_once =
      search
        (
          runs, Runs-flush_lru_buffer, Runs-remove_expired_batch, Runs-enforce_capacity,
          Runs-sweep_events,
        )
        depth 12

  pub Runs-maintain : Runs fading ns maintain
  unfolding maintain
  Runs-maintain = search (runs, Runs-sweep_once) depth 12

  pub Runs-maybe_evict : Runs fading ns maybe_evict
  unfolding maybe_evict
  Runs-maybe_evict = search (runs, Runs-flush_lru_buffer, Runs-enforce_capacity) depth 12

  pub Runs-maybe_opportunistic_sweep : Runs fading ns maybe_opportunistic_sweep
  unfolding maybe_opportunistic_sweep
  Runs-maybe_opportunistic_sweep = search (runs, Runs-sweep_once) depth 12
