-- ===== src/Tests/Store.antt =====
-- The theorems on reads and writes, applied to runs.
use lytecache.Common.{
  ℕ, String, Bool, true, false, Option, none, some, List, [], ◌∷◌, ℤ, pos, ◌≡◌, refl, ◌≢◌, ltb_ℤ,
}
use lytecache.Errors.{ok, err, serialization, database}
use lytecache.Value.{Value, encode_value, to_int, to_bytes, Decoded}
use lytecache.Table.{HasPrimaryKey, select_key, at_key, is_expired}
use lytecache.Table.Fading.{Faded}
use lytecache.World.{World, ◌>>=◌, now_millis, exec, when, query}
use lytecache.World.Ends.{Ends, Same}
use lytecache.Changes.{changed, listener_wants}
use lytecache.Sweep.{maybe_evict, maybe_opportunistic_sweep, is_unlimited, is_no_eviction}
use lytecache.Kv.{set, capacity_check, get, add}
use lytecache.Kv.Stores.{Stored, set-Stored, set-err}
use lytecache.Kv.Capacity.{admits, Refused, capacity_check-Ends}
use lytecache.Kv.Serves.{Decodes, get-Decodes}
use lytecache.Kv.Adds.{Added, add-Added, add-live}
use lytecache.Tests.{start, start-HasPrimaryKey, returned, failed, faulty, row_of}

abbrev value : Value
value = Value.string (b'v' ∷ [])

abbrev after_set : World
after_set = (set "k" value (some (pos 5000000)) start).1

set_run : (set "k" value (some (pos 5000000)) start).0 ≡ ok tt
unfolding set encode_value capacity_check ◌>>=◌ now_millis exec query changed when maybe_evict
    maybe_opportunistic_sweep is_unlimited is_no_eviction listener_wants ltb_ℤ
set_run = refl

set-Stored_example : Stored start "k" value (some (pos 5000000)) after_set
set-Stored_example =
    set-Stored start after_set "k" value (some (pos 5000000)) start-HasPrimaryKey
      (returned (set "k" value (some (pos 5000000)) start) set_run)

set_fails : (set "k" (Value.other none) none start).0 ≡ err serialization
unfolding set encode_value ◌>>=◌
set_fails = refl

set-err_example : (set "k" (Value.other none) none start).1.db.rows ≡ start.db.rows
set-err_example =
    set-err start (set "k" (Value.other none) none start).1 "k" (Value.other none) none
      serialization start-HasPrimaryKey (failed (set "k" (Value.other none) none start) set_fails)

capacity_check-Ends_example :
    Ends start
      (capacity_check "k")
      (λ _ u. Same start u × (admits start.cache.config "k" start.db.rows ≡ true))
      (λ e u. Same start u × Refused (admits start.cache.config "k" start.db.rows) e)
capacity_check-Ends_example = capacity_check-Ends start "k"

get_run : (get "hits" (to_int 64) start).0 ≡ ok (some (Decoded.int (pos 7)))
unfolding get ◌>>=◌ lytecache.Kv.get_raw maybe_opportunistic_sweep ltb_ℤ query select_key at_key
    now_millis is_expired lytecache.Kv.hit lytecache.Sweep.buffer_lru when
    lytecache.Sweep.buffer_access lytecache.Value.decode_into lytecache.Strconv.parse_int
    lytecache.Value.assign_int lytecache.Value.fits_int
get_run = refl

get-Decodes_example : Decodes start "hits" (to_int 64) (some (Decoded.int (pos 7)))
get-Decodes_example =
    get-Decodes start (get "hits" (to_int 64) start).1 "hits" (to_int 64)
      (some (Decoded.int (pos 7))) (returned (get "hits" (to_int 64) start) get_run)

get_fails : (get "hits" to_bytes faulty).0 ≡ err database
unfolding get ◌>>=◌ lytecache.Kv.get_raw maybe_opportunistic_sweep ltb_ℤ query
    lytecache.Kv.degrade_read_error
get_fails = refl

add_run : (add "old" value none start).0 ≡ ok true
unfolding add ◌>>=◌ lytecache.Kv.add_with encode_value capacity_check is_no_eviction now_millis exec
    when lytecache.Kv.put_row_if_expired lytecache.Table.upsert at_key lytecache.Kv.fresh_row
    is_expired lytecache.Common.leb_ℤ changed listener_wants maybe_evict is_unlimited
    maybe_opportunistic_sweep ltb_ℤ
add_run = refl

add-Added_example : Added start "old" value none true (add "old" value none start).1
add-Added_example =
    add-Added start (add "old" value none start).1 "old" value none true start-HasPrimaryKey
      (returned (add "old" value none start) add_run)

add_refused : (add "hits" value none start).0 ≡ ok false
unfolding add ◌>>=◌ lytecache.Kv.add_with encode_value capacity_check is_no_eviction now_millis exec
    when lytecache.Kv.put_row_if_expired lytecache.Table.upsert at_key lytecache.Kv.fresh_row
    is_expired maybe_opportunistic_sweep ltb_ℤ
add_refused = refl

hits_row : select_key "app" "hits" start.db.rows ≡ some (row_of "app" "hits" (b'7' ∷ []) 2 none)
unfolding select_key at_key
hits_row = refl

hits_live : is_expired none (start.env.clock 0) ≡ false
unfolding is_expired
hits_live = refl

add-live_example :
    (false ≡ false)
    × Faded
        (some (row_of "app" "hits" (b'7' ∷ []) 2 none))
        (select_key "app" "hits" (add "hits" value none start).1.db.rows)
add-live_example =
    add-live start (add "hits" value none start).1 "hits" value none false
      (row_of "app" "hits" (b'7' ∷ []) 2 none) start-HasPrimaryKey hits_row hits_live
      (returned (add "hits" value none start) add_refused)
