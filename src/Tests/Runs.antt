-- ===== src/Tests/Runs.antt =====
-- The theorems on runs of calls, applied to a run.
use lytecache.Common.{
  ℕ, String, Bool, true, false, Option, none, some, List, [], ◌∷◌, ℤ, pos, ◌≡◌, refl, ◌≢◌, arith,
  All, eq_iff, str_eq,
}
use lytecache.Errors.{ok}
use lytecache.Value.{Value}
use lytecache.Table.{HasPrimaryKey}
use lytecache.Table.Trace.{SizeFits, rows_in}
use lytecache.Table.Fading.{Fades}
use lytecache.World.{World}
use lytecache.Kv.{set, get_raw}
use lytecache.Api.{
  Call, call_set, call_delete, call_get_raw, call_sweep_once, call_exists, run, stores_nothing,
}
use lytecache.Api.Isolation.{run-rows_in, run-HasPrimaryKey, run-SizeFits}
use lytecache.Api.Freshness.{Fresh, run-Fades, get_raw-set}
use lytecache.Tests.{start, start-HasPrimaryKey, returned}

abbrev value : Value
value = Value.string (b'v' ∷ [])

abbrev calls : List Call
calls = call_set "k" value none ∷ call_delete ("hits" ∷ []) ∷ call_sweep_once ∷ []

web_ne : "web" ≢ start.cache.namespace
web_ne e = ground (arith, e, eq_iff "web" "app")

run-rows_in_example : rows_in "web" (run calls start).db.rows ≡ rows_in "web" start.db.rows
run-rows_in_example = run-rows_in calls start "web" web_ne

run-HasPrimaryKey_example : HasPrimaryKey (run calls start).db.rows
run-HasPrimaryKey_example = run-HasPrimaryKey calls start start-HasPrimaryKey

start-SizeFits : All SizeFits start.db.rows
start-SizeFits = (refl, (refl, (refl, tt)))

run-SizeFits_example : All SizeFits (run calls start).db.rows
run-SizeFits_example = run-SizeFits calls start start-SizeFits

abbrev reads : List Call
reads = call_exists "k" ∷ []

reads_store_nothing : All (λ c. stores_nothing c ≡ true) reads
unfolding stores_nothing
reads_store_nothing = (refl, tt)

run-Fades_example : Fades start.db.rows (run reads start).db.rows
run-Fades_example = run-Fades reads start reads_store_nothing start-HasPrimaryKey

abbrev stored : World
stored = (set "k" value (some (pos 5000000)) start).1

set_run : (set "k" value (some (pos 5000000)) start).0 ≡ ok tt
unfolding set lytecache.World.◌>>=◌ lytecache.Value.encode_value lytecache.Kv.capacity_check
    lytecache.Sweep.is_no_eviction lytecache.World.now_millis lytecache.World.exec
    lytecache.Changes.changed lytecache.World.when lytecache.Changes.listener_wants
    lytecache.Sweep.maybe_evict lytecache.Sweep.is_unlimited
    lytecache.Sweep.maybe_opportunistic_sweep lytecache.Common.ltb_ℤ
set_run = refl

get_run : (get_raw "k" (run reads stored)).0 ≡ ok (some (b'v' ∷ [], 1))
unfolding get_raw set run lytecache.World.◌>>=◌ lytecache.Sweep.maybe_opportunistic_sweep
    lytecache.Common.ltb_ℤ lytecache.World.query lytecache.Api.perform lytecache.Kv.exists
    lytecache.Value.encode_value lytecache.Kv.capacity_check lytecache.Sweep.is_no_eviction
    lytecache.World.now_millis lytecache.World.exec lytecache.Changes.changed lytecache.World.when
    lytecache.Changes.listener_wants lytecache.Sweep.maybe_evict lytecache.Sweep.is_unlimited
    lytecache.Table.select_key lytecache.Kv.put_row lytecache.Table.upsert lytecache.Table.at_key
    lytecache.Kv.fresh_row lytecache.Kv.expires_at_arg lytecache.Table.is_expired
    lytecache.Common.leb_ℤ lytecache.Common.wrap64 lytecache.Common.◌+ℤ◌
    lytecache.Events.milliseconds lytecache.Kv.hit lytecache.Sweep.buffer_lru
    lytecache.Sweep.buffer_access
get_run = refl

get_raw-set_example : Fresh start value (some (pos 5000000)) (run reads stored) (b'v' ∷ []) 1
get_raw-set_example =
    get_raw-set start stored (get_raw "k" (run reads stored)).1 "k" value (some (pos 5000000)) reads
      (b'v' ∷ []) 1 start-HasPrimaryKey
      (returned (set "k" value (some (pos 5000000)) start) set_run) reads_store_nothing
      (returned (get_raw "k" (run reads stored)) get_run)
