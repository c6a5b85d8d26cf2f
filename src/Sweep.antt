-- ===== src/Sweep.antt =====
-- lytecache-go/sweep.go: the buffered read bookkeeping, the removal of expired rows, and eviction.
pub mod Rows
pub mod Passes
pub mod Removal
pub mod Victims
pub mod Evicted
pub mod Safe
use lytecache.Common.{
  ℕ, zero, suc, ◌+◌, ◌-◌, ◌%◌, ◌<◌, String, Bool, true, false, not, ◌&&◌, ◌||◌, Option, none, some,
  List, [], ◌∷◌, ltb, leb, ◌==◌, if◌then◌else◌, ℤ, pos, leb_ℤ, ltb_ℤ, length, get_elem?, str_eq,
}
use lytecache.Errors.{Result, ok, err}
use lytecache.Table.{
  Row, Table, is_expired, at_key, in_namespace, select_where, update_where, delete_where,
  delete_limit, count_where, sum_size,
}
use lytecache.World.{
  World, M, Cache, Config, Eviction, lru, ttl_policy, random, no_eviction, LruUpdate, ◌>>=◌, ◌>>◌,
  pure, attempt, get_cache, get_db, set_cache, when, now_millis, next_die, query, exec, in_tx,
  on_rows,
}
use lytecache.Events.{sweep_batch_size, is_full_batch, sweep_events}

abbrev pub max_eviction_passes : ℕ
max_eviction_passes = 1_000_000

abbrev pub lru_flush_every : ℕ
lru_flush_every = 200

abbrev pub opportunistic_sweep_every : ℕ
opportunistic_sweep_every = 100

-- UPDATE cache SET last_accessed = ?, access_count = access_count + ?
pub note_access : LruUpdate → Row → Row
note_access u r = record r {
  last_accessed = u.last_accessed;
  access_count = r.access_count + u.access_count;
}

-- An update that fails is only logged.
pub write_pending : String → List (String × LruUpdate) → M (Unit {0})
write_pending ns [] = pure tt
write_pending ns ((key, u) ∷ rest) = do
  attempt (exec (on_rows (update_where (at_key ns key) (note_access u))))
  write_pending ns rest

-- Prepare and the updates, in one transaction
flush_pending : String → List (String × LruUpdate) → M (Unit {0})
flush_pending ns pending = in_tx (do query (λ _. tt); write_pending ns pending)

flush_taken : String → List (String × LruUpdate) → M (Unit {0})
unfolding flush_pending
flush_taken ns [] = pure tt
flush_taken ns (e ∷ pending) = do
  set_cache (λ c. record c { lru_buffer = [] })
  attempt (flush_pending ns (e ∷ pending))
  pure tt

-- flushLRUBuffer: the buffer is taken first, so an error loses what was in it.
pub flush_lru_buffer : M (Unit {0})
unfolding flush_taken
flush_lru_buffer = do c ← get_cache; flush_taken c.namespace c.lru_buffer

-- u := c.lruBuffer[key]; u.lastAccessed = now; u.accessCount++; c.lruBuffer[key] = u
unfoldable pub buffer_access : String → ℤ → List (String × LruUpdate) → List (String × LruUpdate)
buffer_access key now [] = (key, record { last_accessed = now; access_count = 1 }) ∷ []
buffer_access key now ((j, u) ∷ b) =
    if str_eq j key
    then (j, record { last_accessed = now; access_count = u.access_count + 1 }) ∷ b
    else (j, u) ∷ buffer_access key now b

unfoldable pub buffer_lru : String → ℤ → M (Unit {0})
buffer_lru key now = do
  set_cache (λ c. record c { lru_buffer = buffer_access key now c.lru_buffer })
  c ← get_cache
  when (leb lru_flush_every (length c.lru_buffer)) flush_lru_buffer

-- expires_at IS NOT NULL AND expires_at <= now, in the namespace
pub expired_in : String → ℤ → Row → Bool
expired_in ns now r = in_namespace ns r && is_expired r.expires_at now

count_removed : Result ℕ → M (Unit {0})
count_removed (err e) = pure tt
count_removed (ok n) = set_cache (λ c. record c { expired_removed = c.expired_removed + n })

-- The loop of removeExpiredBatch. A round that does not end it removes rows, so as much fuel as
-- there are rows is enough.
pub remove_expired : ℕ → String → ℤ → M (Unit {0})
unfolding count_removed
remove_expired zero ns now = pure tt
remove_expired (suc f) ns now = do
  r ← attempt (exec (on_rows (delete_limit sweep_batch_size (expired_in ns now))))
  count_removed r
  if is_full_batch r then remove_expired f ns now else pure tt

pub remove_expired_batch : M (Unit {0})
remove_expired_batch = do
  now ← now_millis
  c ← get_cache
  d ← get_db
  remove_expired (suc (length d.rows)) c.namespace now

-- evictionOrderBy for the two ordered policies: whether `a` stands before `b`.
pub evicts_before : Eviction → Row → Row → Bool
evicts_before ttl_policy a b = elim a.expires_at [
  | none ↦ false
  | some x ↦ elim b.expires_at [ none ↦ true | some y ↦ ltb_ℤ x y ]
]
evicts_before _ a b = ltb_ℤ a.last_accessed b.last_accessed

-- the first of the rows that no other stands before
pub first_of_order : Eviction → List Row → Option Row
first_of_order e [] = none
first_of_order e (r ∷ rs) = elim (first_of_order e rs) [
  | none ↦ some r
  | some m ↦ if evicts_before e m r then some m else some r
]

-- ORDER BY … LIMIT 1; `die` is where RANDOM() points
pub pick_victim : Eviction → ℕ → List Row → Option Row
pick_victim random die rows = get_elem? rows (die % length rows)
pick_victim e die rows = first_of_order e rows

delete_victim : String → Option Row → Table → Table × ℕ
delete_victim ns none t = delete_where (λ _. false) t
delete_victim ns (some v) t = delete_where (at_key ns v.key) t

-- DELETE … WHERE namespace = ? AND key IN (SELECT key … ORDER BY … LIMIT 1)
pub evict_one : Eviction → ℕ → String → Table → Table × ℕ
unfolding delete_victim
evict_one e die ns t = delete_victim ns (pick_victim e die (select_where (in_namespace ns) t)) t

-- c.maxKeys != nil && count > *c.maxKeys, and the same for bytes
unfoldable pub exceeds : Option ℤ → ℕ → Bool
exceeds none n = false
exceeds (some limit) n = ltb_ℤ limit (pos n)

-- The size of no rows is NULL, which is never over the limit.
unfoldable pub over_limits : Config → ℕ → ℕ → Bool
over_limits c count size =
    exceeds c.max_keys count || (not (count == 0) && exceeds c.max_bytes size)

-- Whether a pass goes on to evict: the sums were read, and are over a limit.
pub must_evict : Config → Result (ℕ × ℕ) → Bool
must_evict c (err e) = false
must_evict c (ok (count, size)) = over_limits c count size

abbrev pub removed_some : Result ℕ → Bool
removed_some (err e) = false
removed_some (ok n) = not (n == 0)

count_evicted : Result ℕ → M (Unit {0})
count_evicted (err e) = pure tt
count_evicted (ok n) = set_cache (λ c. record c { evictions = c.evictions + n })

-- SELECT COUNT(*), SUM(size_bytes)
unfoldable pub sums_of : String → Table → ℕ × ℕ
sums_of ns t = (count_where (in_namespace ns) t, sum_size (in_namespace ns) t)

-- The loop of enforceCapacity, with maxEvictionPasses as its fuel.
pub evict_passes : ℕ → M (Unit {0})
unfolding count_evicted
evict_passes zero = pure tt
evict_passes (suc f) = do
  c ← get_cache
  sums ← attempt (query (λ d. sums_of c.namespace d.rows))
  if must_evict c.config sums
      then (do
        die ← next_die
        r ← attempt (exec (on_rows (evict_one c.eviction die c.namespace)))
        count_evicted r
        if removed_some r then evict_passes f else pure tt)
      else pure tt

unfoldable pub is_no_eviction : Eviction → Bool
is_no_eviction no_eviction = true
is_no_eviction _ = false

unfoldable pub is_lru : Eviction → Bool
is_lru lru = true
is_lru _ = false

-- c.maxKeys == nil && c.maxBytes == nil
unfoldable pub is_unlimited : Config → Bool
is_unlimited c = elim c.max_keys [
  | some n ↦ false
  | none ↦ elim c.max_bytes [ some n ↦ false | none ↦ true ]
]

pub enforce_capacity : M (Unit {0})
enforce_capacity = do
  c ← get_cache
  if is_no_eviction c.eviction || is_unlimited c.config
      then pure tt
      else evict_passes max_eviction_passes

pub sweep_once : M (Unit {0})
sweep_once = do flush_lru_buffer; remove_expired_batch; enforce_capacity; sweep_events

-- Maintain: the rows removed by one pass, for either reason
pub maintain : M (ℕ × ℕ)
maintain = do
  before ← get_cache
  sweep_once
  after ← get_cache
  pure (after.expired_removed - before.expired_removed, after.evictions - before.evictions)

unfoldable pub maybe_evict : M (Unit {0})
maybe_evict = do
  c ← get_cache
  if is_no_eviction c.eviction || is_unlimited c.config
      then pure tt
      else do when (is_lru c.eviction) flush_lru_buffer; enforce_capacity

-- cache.go: with no background sweeper, every hundredth operation sweeps.
unfoldable pub maybe_opportunistic_sweep : M (Unit {0})
maybe_opportunistic_sweep = do
  c ← get_cache
  if ltb_ℤ (pos 0) c.sweep_interval then pure tt else do
    set_cache (λ c. record c { ops_since_sweep = c.ops_since_sweep + 1 })
    c ← get_cache
    when (c.ops_since_sweep % opportunistic_sweep_every == 0) sweep_once
