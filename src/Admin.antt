-- ===== src/Admin.antt =====
-- lytecache-go/stats.go, lytecache-go/namespaces.go and lytecache-go/memoize.go.
pub mod Rows
use lytecache.Common.{
  ℕ, ◌+◌, String, Bool, true, false, ◌&&◌, Option, none, some, List, [], ◌∷◌, map, ◌==◌,
  if◌then◌else◌, ℤ, pos, ltb_ℤ,
}
use lytecache.Errors.{Error, Result, ok, err}
use lytecache.Value.{Value, Dest, Decoded}
use lytecache.Table.{Row, Table, is_expired, in_namespace, count_where, sum_size}
use lytecache.World.{World, M, Cache, ◌>>=◌, ◌>>◌, pure, get_cache, now_millis, query, exec}
use lytecache.Sweep.{flush_lru_buffer, expired_in}
use lytecache.Kv.{get, set, dedupe}
use lytecache.Bulk.{sorted_keys}

-- `hit_rate` is the quotient hits / (hits + misses) as a pair, or none for 0.
pub record Stats : Type 0 where
  pub hits : ℕ
  pub misses : ℕ
  pub hit_rate : Option (ℕ × ℕ)
  pub key_count : ℕ
  pub size_bytes : ℕ
  pub evictions : ℕ
  pub expired_removed : ℕ
  pub expired_present : ℕ
  pub json1 : Bool

-- COUNT(*), SUM(size_bytes) and the rows past their expiry
unfoldable totals : String → ℤ → Table → ℕ × ℕ × ℕ
totals ns now t = (
  count_where (in_namespace ns) t,
  sum_size (in_namespace ns) t,
  count_where (expired_in ns now) t,
)

pub stats : M Stats
stats = do
  flush_lru_buffer
  now ← now_millis
  c ← get_cache
  sums ← query (λ d. totals c.namespace now d.rows)
  c ← get_cache
  pure (record {
    hits = c.hits;
    misses = c.misses;
    hit_rate = if c.hits + c.misses == 0 then none else some (c.hits, c.hits + c.misses);
    key_count = sums.0;
    size_bytes = sums.1;
    evictions = c.evictions;
    expired_removed = c.expired_removed;
    expired_present = sums.2;
    json1 = c.json1;
  })

-- VACUUM changes no row.
pub vacuum : M (Unit {0})
vacuum = do exec (λ d. (d, 0)); pure tt

pub record NamespaceInfo : Type 0 where
  pub namespace : String
  pub key_count : ℕ
  pub size_bytes : ℕ
  pub expired_present : ℕ

unfoldable info_for : ℤ → Table → String → NamespaceInfo
info_for now t ns = record {
  namespace = ns;
  key_count = count_where (in_namespace ns) t;
  size_bytes = sum_size (in_namespace ns) t;
  expired_present = count_where (expired_in ns now) t;
}

-- GROUP BY namespace ORDER BY namespace
unfoldable by_namespace : ℤ → Table → List NamespaceInfo
by_namespace now t = map (info_for now t) (sorted_keys (dedupe [] (map (λ r. r.namespace) t)))

pub namespaces : M (List NamespaceInfo)
namespaces = do now ← now_millis; query (λ d. by_namespace now d.rows)

-- What Memoize returns: the value that was cached, or the one that was loaded.
pub data Memoized : Type 0 where
  cached : Decoded → Memoized
  loaded : Value → Memoized

memoize_found : String → ℤ → M Value → Option Decoded → M Memoized
memoize_found key ttl loader (some v) = pure (cached v)
memoize_found key ttl loader none = do
  value ← loader
  set key value (if ltb_ℤ (pos 0) ttl then some ttl else none)
  pure (loaded value)

pub memoize : String → ℤ → Dest → M Value → M Memoized
unfolding memoize_found
memoize key ttl dest loader = do found ← get key dest; memoize_found key ttl loader found
