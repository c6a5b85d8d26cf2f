-- ===== src/Api.antt =====
-- The methods of a `Cache` of lytecache-go as one type of calls, and runs of calls. A listing
-- (Keys) and the lock's polling loop are calls of their rounds: one page, and one attempt.
pub mod Isolation
pub mod Freshness
use lytecache.Common.{ℕ, String, Bool, true, false, Option, List, [], ◌∷◌, ℤ}
use lytecache.Errors.{Result}
use lytecache.Strconv.{Bytes}
use lytecache.Value.{Value, Dest}
use lytecache.World.{World, lift}
use lytecache.Events.{Notification, notify, notify_many}
use lytecache.Sweep.{sweep_once, maintain}
use lytecache.Kv.{set, get_raw, get, delete, exists, add, replace, get_set}
use lytecache.Bulk.{set_many, get_many}
use lytecache.Ttl.{expire, persist, ttl_of, inspect}
use lytecache.Counters.{incr, incr_float}
use lytecache.Lock.{Lock, try_lock, release}
use lytecache.Keys.{keys_page, flush}
use lytecache.Admin.{stats, vacuum, namespaces, memoize}

pub data Call : Type 0 where
  call_set call_add call_replace : String → Value → Option ℤ → Call
  call_get_raw call_exists call_persist call_ttl_of call_inspect : String → Call
  call_get : String → Dest → Call
  call_delete call_get_many : List String → Call
  call_get_set : String → Value → Dest → Call
  call_set_many : List (String × Value) → Option ℤ → Call
  call_expire call_incr : String → ℤ → Call
  call_incr_float : String → ℕ → Call
  call_try_lock : String → Bytes → ℤ → ℤ → Call
  call_release : Lock → Call
  call_keys_page : String → String → Call
  call_flush call_sweep_once call_maintain call_stats call_vacuum call_namespaces : Call
  call_memoize : String → ℤ → Dest → Result Value → Call
  call_notify : String → Value → Call
  call_notify_many : List Notification → Call

-- The state that a call leaves, whatever it returns.
unfoldable pub perform : Call → World → World
perform (call_set key v ttl) w = (set key v ttl w).1
perform (call_add key v ttl) w = (add key v ttl w).1
perform (call_replace key v ttl) w = (replace key v ttl w).1
perform (call_get_raw key) w = (get_raw key w).1
perform (call_exists key) w = (exists key w).1
perform (call_persist key) w = (persist key w).1
perform (call_ttl_of key) w = (ttl_of key w).1
perform (call_inspect key) w = (inspect key w).1
perform (call_get key dest) w = (get key dest w).1
perform (call_delete ks) w = (delete ks w).1
perform (call_get_many ks) w = (get_many ks w).1
perform (call_get_set key v dest) w = (get_set key v dest w).1
perform (call_set_many es ttl) w = (set_many es ttl w).1
perform (call_expire key ttl) w = (expire key ttl w).1
perform (call_incr key n) w = (incr key n w).1
perform (call_incr_float key n) w = (incr_float key n w).1
perform (call_try_lock name token t deadline) w = (try_lock name token t deadline w).1
perform (call_release l) w = (release l w).1
perform (call_keys_page pattern last) w = (keys_page pattern last w).1
perform call_flush w = (flush w).1
perform call_sweep_once w = (sweep_once w).1
perform call_maintain w = (maintain w).1
perform call_stats w = (stats w).1
perform call_vacuum w = (vacuum w).1
perform call_namespaces w = (namespaces w).1
perform (call_memoize key ttl dest r) w = (memoize key ttl dest (lift r) w).1
perform (call_notify channel v) w = (notify channel v w).1
perform (call_notify_many es) w = (notify_many es w).1

unfoldable pub run : List Call → World → World
run [] w = w
run (c ∷ cs) w = run cs (perform c w)

-- Calls that store no value: they read, delete, sweep or publish.
unfoldable pub stores_nothing : Call → Bool
stores_nothing (call_get_raw _) = true
stores_nothing (call_exists _) = true
stores_nothing (call_ttl_of _) = true
stores_nothing (call_inspect _) = true
stores_nothing (call_get _ _) = true
stores_nothing (call_delete _) = true
stores_nothing (call_get_many _) = true
stores_nothing (call_release _) = true
stores_nothing (call_keys_page _ _) = true
stores_nothing call_flush = true
stores_nothing call_sweep_once = true
stores_nothing call_maintain = true
stores_nothing call_stats = true
stores_nothing call_vacuum = true
stores_nothing call_namespaces = true
stores_nothing (call_notify _ _) = true
stores_nothing (call_notify_many _) = true
stores_nothing _ = false
