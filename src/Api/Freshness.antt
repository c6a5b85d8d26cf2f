-- ===== src/Api/Freshness.antt =====
-- Reads after writes: what a call that stores nothing leaves, and what Get returns after a Set.
use lytecache.Common.{
  ℕ, String, List, [], ◌∷◌, All, ◌≡◌, refl, ap, ◌∙◌, Option, some, ℤ, true, false, arith,
}
use lytecache.Errors.{ok}
use lytecache.Strconv.{Bytes}
use lytecache.Value.{Value, encode_value}
use lytecache.Table.{HasPrimaryKey, is_expired}
use lytecache.Table.Fading.{Fades, Faded-trans, Trace-Fades}
use lytecache.Table.Trace.{Trace-HasPrimaryKey}
use lytecache.World.{World, Config}
use lytecache.World.Rules.{Moved, Moved-refl, Moved-trans, namespace-Moved}
use lytecache.World.Ends.{Ends-ok}
use lytecache.Events.Rows.{Runs-notify, Runs-notify_many}
use lytecache.Sweep.Rows.{Runs-sweep_once, Runs-maintain}
use lytecache.Kv.{fresh_row, set, get_raw, expires_at_arg}
use lytecache.Kv.Rows.{Runs-set, Runs-get_raw, Runs-get, Runs-delete, Runs-exists}
use lytecache.Kv.Stores.{Stored, set-Stored, new_row, put_row-Faded}
use lytecache.Kv.Serves.{LiveRow, get_raw-Ends}
use lytecache.Bulk.Rows.{Runs-get_many}
use lytecache.Ttl.Rows.{Runs-ttl_of, Runs-inspect}
use lytecache.Lock.Rows.{Runs-release}
use lytecache.Keys.Rows.{Runs-keys_page, Runs-flush}
use lytecache.Admin.Rows.{Runs-stats, Runs-vacuum, Runs-namespaces}
use lytecache.Api.{
  Call, perform, run, stores_nothing, call_add, call_delete, call_exists, call_expire, call_flush,
  call_get, call_get_many, call_get_raw, call_get_set, call_incr, call_incr_float, call_inspect,
  call_keys_page, call_maintain, call_memoize, call_namespaces, call_notify, call_notify_many,
  call_persist, call_release, call_replace, call_set, call_set_many, call_stats, call_sweep_once,
  call_try_lock, call_ttl_of, call_vacuum,
}

module _ {ns : String} where
  fading-Moved :
      (c : Call) (w : World)
      → w.cache.namespace ≡ ns
      → stores_nothing c ≡ true
      → Moved true ns w (perform c w)
  unfolding perform stores_nothing
  fading-Moved (call_get_raw key) w e h = (Runs-get_raw key).at w e
  fading-Moved (call_exists key) w e h = (Runs-exists key).at w e
  fading-Moved (call_ttl_of key) w e h = (Runs-ttl_of key).at w e
  fading-Moved (call_inspect key) w e h = (Runs-inspect key).at w e
  fading-Moved (call_get key dest) w e h = (Runs-get key dest).at w e
  fading-Moved (call_delete ks) w e h = (Runs-delete ks).at w e
  fading-Moved (call_get_many ks) w e h = (Runs-get_many ks).at w e
  fading-Moved (call_release l) w e h = (Runs-release l).at w e
  fading-Moved (call_keys_page pattern last) w e h = (Runs-keys_page pattern last).at w e
  fading-Moved call_flush w e h = Runs-flush.at w e
  fading-Moved call_sweep_once w e h = Runs-sweep_once.at w e
  fading-Moved call_maintain w e h = Runs-maintain.at w e
  fading-Moved call_stats w e h = Runs-stats.at w e
  fading-Moved call_vacuum w e h = Runs-vacuum.at w e
  fading-Moved call_namespaces w e h = Runs-namespaces.at w e
  fading-Moved (call_notify channel v) w e h = (Runs-notify channel v).at w e
  fading-Moved (call_notify_many es) w e h = (Runs-notify_many es).at w e
  fading-Moved (call_set _ _ _) w e h = ground (arith, h)
  fading-Moved (call_add _ _ _) w e h = ground (arith, h)
  fading-Moved (call_replace _ _ _) w e h = ground (arith, h)
  fading-Moved (call_persist _) w e h = ground (arith, h)
  fading-Moved (call_get_set _ _ _) w e h = ground (arith, h)
  fading-Moved (call_set_many _ _) w e h = ground (arith, h)
  fading-Moved (call_expire _ _) w e h = ground (arith, h)
  fading-Moved (call_incr _ _) w e h = ground (arith, h)
  fading-Moved (call_incr_float _ _) w e h = ground (arith, h)
  fading-Moved (call_try_lock _ _ _ _) w e h = ground (arith, h)
  fading-Moved (call_memoize _ _ _ _) w e h = ground (arith, h)

  run_fading-Moved :
      (cs : List Call) (w : World)
      → w.cache.namespace ≡ ns
      → All (λ c. stores_nothing c ≡ true) cs
      → Moved true ns w (run cs w)
  unfolding run
  run_fading-Moved [] w e h = Moved-refl ns w
  run_fading-Moved (c ∷ cs) w e h =
      let m = fading-Moved c w e h.0 in
      Moved-trans m (run_fading-Moved cs (perform c w) (namespace-Moved m e) h.1)

-- A run of calls that store nothing (reads, deletes, sweeps, notifications) leaves at every key
-- either no row, or the row that was there with its value, type, creation time and expiry.
pub run-Fades :
    (cs : List Call) (w : World)
    → All (λ c. stores_nothing c ≡ true) cs
    → HasPrimaryKey w.db.rows
    → Fades w.db.rows (run cs w).db.rows
run-Fades cs w h k = Trace-Fades (run_fading-Moved cs w refl h).rows k

namespace_kept :
    (w u : World) → u.cache.config ≡ w.cache.config → u.cache.namespace ≡ w.cache.namespace
namespace_kept w u e = ap (λ (c : Config). c.namespace) e

-- What a read serves after a Set of the key.
abbrev pub Fresh : World → Value → Option ℤ → World → Bytes → ℕ → Type 0
Fresh w v ttl x d code =
    (encode_value w.env.codec v ≡ ok (d, code))
    × ((n : ℕ) × (is_expired (expires_at_arg ttl (w.env.clock 0)) (x.env.clock n) ≡ false))

served-Fresh :
    (w u x : World) (key : String) (v : Value) (ttl : Option ℤ) (d : Bytes) (code : ℕ)
    → Stored w key v ttl u
    → Fades u.db.rows x.db.rows
    → x.cache.namespace ≡ w.cache.namespace
    → LiveRow x key d code
    → Fresh w v ttl x d code
unfolding fresh_row
served-Fresh w u x key v ttl d code (d', code', e, a, f) g ns (row, s, p, q, (n, l)) =
    let t = Faded-trans _ _ _ (f w.cache.namespace key) (g w.cache.namespace key) in
    let (b, c, y) =
      put_row-Faded (new_row w key d' code' ttl) row w.db.rows (rw (rw ns at s) at t) in
    (rw (← p, ← q, b, c) e, (n, rw (← y) l))

set-Moved :
    (w u : World) (key : String) (v : Value) (ttl : Option ℤ)
    → set key v ttl w ≡ (ok tt, u)
    → Moved false w.cache.namespace w u
set-Moved w u key v ttl e = rw (ap (λ z. z.1) e) at ((Runs-set key v ttl).at w refl)

-- Reading your writes: after Set returned without an error, and any run of calls on the cache that
-- store nothing, a read of the key that returns a value returns the encoding of the value that was
-- set, at a reading of the clock before the expiry that Set computed.
pub get_raw-set :
    (w u x : World) (key : String) (v : Value) (ttl : Option ℤ) (cs : List Call) (d : Bytes)
    (code : ℕ)
    → HasPrimaryKey w.db.rows
    → set key v ttl w ≡ (ok tt, u)
    → All (λ c. stores_nothing c ≡ true) cs
    → get_raw key (run cs u) ≡ (ok (some (d, code)), x)
    → Fresh w v ttl (run cs u) d code
get_raw-set w u x key v ttl cs d code h e k g =
    let m = set-Moved w u key v ttl e in
    let c = (run_fading-Moved cs u refl k).config ∙ m.config in
    served-Fresh w u (run cs u) key v ttl d code (set-Stored w u key v ttl h e)
      (run-Fades cs u k (Trace-HasPrimaryKey m.rows h)) (namespace_kept w (run cs u) c)
      (Ends-ok (get_raw-Ends (run cs u) key) g)
