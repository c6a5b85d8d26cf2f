-- ===== src/Api/Isolation.antt =====
-- What any run of calls on one cache does to the `cache` table and to the configuration.
use lytecache.Common.{String, List, [], ◌∷◌, All, ◌≡◌, ◌≢◌, refl, false}
use lytecache.Table.{HasPrimaryKey}
use lytecache.Table.Trace.{SizeFits, rows_in, Trace-HasPrimaryKey, Trace-SizeFits, Trace-rows_in}
use lytecache.World.{World, lift}
use lytecache.World.Rules.{Moved, Moved-refl, Moved-trans, namespace-Moved, Runs-lift}
use lytecache.Events.Rows.{Runs-notify, Runs-notify_many}
use lytecache.Sweep.Rows.{Runs-sweep_once, Runs-maintain}
use lytecache.Kv.Rows.{
  Runs-set, Runs-get_raw, Runs-get, Runs-delete, Runs-exists, Runs-add, Runs-replace, Runs-get_set,
}
use lytecache.Bulk.Rows.{Runs-set_many, Runs-get_many}
use lytecache.Ttl.Rows.{Runs-expire, Runs-persist, Runs-ttl_of, Runs-inspect}
use lytecache.Counters.Rows.{Runs-incr, Runs-incr_float}
use lytecache.Lock.Rows.{Runs-try_lock, Runs-release}
use lytecache.Keys.Rows.{Runs-keys_page, Runs-flush}
use lytecache.Admin.Rows.{Runs-stats, Runs-vacuum, Runs-namespaces, Runs-memoize}
use lytecache.Api.{
  Call, perform, run, call_add, call_delete, call_exists, call_expire, call_flush, call_get,
  call_get_many, call_get_raw, call_get_set, call_incr, call_incr_float, call_inspect,
  call_keys_page, call_maintain, call_memoize, call_namespaces, call_notify, call_notify_many,
  call_persist, call_release, call_replace, call_set, call_set_many, call_stats, call_sweep_once,
  call_try_lock, call_ttl_of, call_vacuum,
}

module _ {ns : String} where
  perform-Moved : (c : Call) (w : World) → w.cache.namespace ≡ ns → Moved false ns w (perform c w)
  unfolding perform
  perform-Moved (call_set key v ttl) w e = (Runs-set key v ttl).at w e
  perform-Moved (call_add key v ttl) w e = (Runs-add key v ttl).at w e
  perform-Moved (call_replace key v ttl) w e = (Runs-replace key v ttl).at w e
  perform-Moved (call_get_raw key) w e = (Runs-get_raw key).at w e
  perform-Moved (call_exists key) w e = (Runs-exists key).at w e
  perform-Moved (call_persist key) w e = (Runs-persist key).at w e
  perform-Moved (call_ttl_of key) w e = (Runs-ttl_of key).at w e
  perform-Moved (call_inspect key) w e = (Runs-inspect key).at w e
  perform-Moved (call_get key dest) w e = (Runs-get key dest).at w e
  perform-Moved (call_delete ks) w e = (Runs-delete ks).at w e
  perform-Moved (call_get_many ks) w e = (Runs-get_many ks).at w e
  perform-Moved (call_get_set key v dest) w e = (Runs-get_set key v dest).at w e
  perform-Moved (call_set_many es ttl) w e = (Runs-set_many es ttl).at w e
  perform-Moved (call_expire key ttl) w e = (Runs-expire key ttl).at w e
  perform-Moved (call_incr key n) w e = (Runs-incr key n).at w e
  perform-Moved (call_incr_float key n) w e = (Runs-incr_float key n).at w e
  perform-Moved (call_try_lock name token t d) w e = (Runs-try_lock name token t d).at w e
  perform-Moved (call_release l) w e = (Runs-release l).at w e
  perform-Moved (call_keys_page pattern last) w e = (Runs-keys_page pattern last).at w e
  perform-Moved call_flush w e = Runs-flush.at w e
  perform-Moved call_sweep_once w e = Runs-sweep_once.at w e
  perform-Moved call_maintain w e = Runs-maintain.at w e
  perform-Moved call_stats w e = Runs-stats.at w e
  perform-Moved call_vacuum w e = Runs-vacuum.at w e
  perform-Moved call_namespaces w e = Runs-namespaces.at w e
  perform-Moved (call_memoize key ttl dest r) w e =
      (Runs-memoize key ttl dest (lift r) (Runs-lift r)).at w e
  perform-Moved (call_notify channel v) w e = (Runs-notify channel v).at w e
  perform-Moved (call_notify_many es) w e = (Runs-notify_many es).at w e

  run-Moved : (cs : List Call) (w : World) → w.cache.namespace ≡ ns → Moved false ns w (run cs w)
  unfolding run
  run-Moved [] w e = Moved-refl ns w
  run-Moved (c ∷ cs) w e =
      let h = perform-Moved c w e in
      Moved-trans h (run-Moved cs (perform c w) (namespace-Moved h e))

-- Any run of calls on a cache, whatever fails, leaves every other namespace's rows as they were, in
-- their order.
pub run-rows_in :
    (cs : List Call) (w : World) (other : String)
    → other ≢ w.cache.namespace
    → rows_in other (run cs w).db.rows ≡ rows_in other w.db.rows
run-rows_in cs w other ne = Trace-rows_in w.cache.namespace other ne (run-Moved cs w refl).rows

-- Any run of calls keeps the primary key: at most one row for each namespace and key.
pub run-HasPrimaryKey :
    (cs : List Call) (w : World) → HasPrimaryKey w.db.rows → HasPrimaryKey (run cs w).db.rows
run-HasPrimaryKey cs w h = Trace-HasPrimaryKey (run-Moved cs w refl).rows h

-- Any run of calls keeps `size_bytes` the length of the value in every row.
pub run-SizeFits :
    (cs : List Call) (w : World) → All SizeFits w.db.rows → All SizeFits (run cs w).db.rows
run-SizeFits cs w h = Trace-SizeFits (run-Moved cs w refl).rows h

-- No call changes the configuration that the cache was opened with.
pub run-config : (cs : List Call) (w : World) → (run cs w).cache.config ≡ w.cache.config
run-config cs w = (run-Moved cs w refl).config
