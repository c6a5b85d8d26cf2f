-- ===== src/Tests/Upkeep.antt =====
-- The theorems on maintenance, change records and events, applied to runs.
use lytecache.Common.{
  ℕ, false, ◌==◌, ◌<◌, true, false, some, List, [], ◌∷◌, pos, ◌≡◌, refl, arith, All,
}
use lytecache.Errors.{ok}
use lytecache.Value.{Value}
use lytecache.Table.{HasPrimaryKey, select_key, at_key, delete_where, count_where, in_namespace}
use lytecache.World.{World, Config, Op, op_set, Dispatcher, ChangeRecord, Eviction, lru, ttl_policy}
use lytecache.Sweep.{
  expired_in, remove_expired_batch, enforce_capacity, max_eviction_passes, evict_one,
  is_no_eviction, is_unlimited,
}
use lytecache.Sweep.Removal.{remove_expired_batch-rows}
use lytecache.Sweep.Passes.{WithinLimits, enforce_capacity-WithinLimits}
use lytecache.Sweep.Evicted.{Evicted, evict_one-Evicted}
use lytecache.Changes.{new_dispatcher, add_listener, unsubscribe, next_dispatch, still_listens}
use lytecache.Changes.Listeners.{now, unsubscribe-gone}
use lytecache.Changes.Dispatch.{
  installed, next, adding, removing, IsBounded, DispatcherRun-IsBounded,
}
use lytecache.Events.{Notification, insert_events, delete_events}
use lytecache.Events.Published.{Published, insert_events-Published}
use lytecache.Tests.{start, rows, returned, config, world_of}

remove_expired_batch-rows_example :
    (remove_expired_batch start).1.db.rows
    ≡ (delete_where (expired_in start.cache.namespace (start.env.clock 0)) start.db.rows).0
remove_expired_batch-rows_example = remove_expired_batch-rows start (λ n. refl)

-- one row too many for its limit
abbrev limited : World
limited = world_of (record config { max_keys = some (pos 1) }) rows

few_rows : count_where (in_namespace limited.cache.namespace) limited.db.rows < max_eviction_passes
unfolding count_where in_namespace
few_rows = ground arith

evicts : is_no_eviction limited.cache.eviction ≡ false
unfolding is_no_eviction
evicts = refl

has_limit : is_unlimited limited.cache.config ≡ false
unfolding is_unlimited
has_limit = refl

enforce_capacity-WithinLimits_example : WithinLimits limited (enforce_capacity limited).1
enforce_capacity-WithinLimits_example =
    enforce_capacity-WithinLimits limited (λ n. refl) evicts has_limit few_rows

lru_evicts : is_no_eviction lru ≡ false
unfolding is_no_eviction
lru_evicts = refl

rows-HasPrimaryKey : HasPrimaryKey rows
unfolding select_key at_key
rows-HasPrimaryKey = (refl, (refl, (refl, tt)))

evict_one-Evicted_example : Evicted lru "app" rows (evict_one lru 0 "app" rows).0
evict_one-Evicted_example = evict_one-Evicted lru 0 "app" rows rows-HasPrimaryKey lru_evicts

-- a listener comes and goes
abbrev listening : Dispatcher
listening = (add_listener (λ o. true) new_dispatcher).0

DispatcherRun-IsBounded_example : IsBounded (unsubscribe 0 listening)
DispatcherRun-IsBounded_example =
    DispatcherRun-IsBounded (next (next installed (adding (λ o. true))) (removing 0))

unsubscribe-gone_example :
    (still_listens 0 (unsubscribe 0 listening).listeners ≡ false)
    × ((rec : ChangeRecord) (ids : List ℕ) (g : Dispatcher)
        → next_dispatch (unsubscribe 0 listening) ≡ some (rec, ids, g)
        → All (λ j. (j == 0) ≡ false) ids)
unfolding add_listener
unsubscribe-gone_example =
    unsubscribe-gone (λ o. true) new_dispatcher listening (unsubscribe 0 listening) now now

abbrev news : List Notification
news =
    record { channel = "a"; payload = Value.bytes [] }
    ∷ record { channel = "b"; payload = Value.bytes [] }
    ∷ []

news_run : (insert_events news start).0 ≡ ok (1 ∷ 2 ∷ [])
unfolding insert_events lytecache.World.◌>>=◌ lytecache.Events.encode_all
    lytecache.Value.encode_value lytecache.Events.ensure_events lytecache.World.exec
    lytecache.World.now_millis lytecache.World.in_tx lytecache.Events.insert_rows
    lytecache.Events.poke_all
news_run = refl

insert_events-Published_example : Published news start (1 ∷ 2 ∷ []) (insert_events news start).1
insert_events-Published_example =
    insert_events-Published start (insert_events news start).1 news (1 ∷ 2 ∷ []) (tt, tt)
      (returned (insert_events news start) news_run)
