-- ===== src/Tests/Counting.antt =====
-- The theorems on counters, locks and SetMany, applied to runs.
use lytecache.Common.{
  ℕ, ◌==◌, String, Bool, true, false, Option, none, some, List, [], ◌∷◌, ℤ, pos, ◌+ℤ◌, ◌≡◌, refl,
  arith, inr, IsInt64,
}
use lytecache.Errors.{ok, err, serialization}
use lytecache.Strconv.{Bytes, format_int}
use lytecache.Value.{Value, encode_value}
use lytecache.Table.{Row, select_key, at_key, is_expired}
use lytecache.World.{World, Config}
use lytecache.World.Ends.{Outcome}
use lytecache.Counters.{incr}
use lytecache.Counters.Adds.{Counts, incr-adds}
use lytecache.Counters.Refuses.{Refusal, NotCounted, incr-NotCounted}
use lytecache.Lock.{Lock, lock_key, try_lock, release}
use lytecache.Lock.Exclusion.{Attempted, holds_token, try_lock-free, release-holds_token}
use lytecache.Bulk.{set_many}
use lytecache.Bulk.Atomic.{AllWritten, set_many-err, set_many-AllWritten}
use lytecache.Tests.{
  start, start-HasPrimaryKey, returned, failed, world_of, config, row_of, add_texts-IsAdder,
}

hits_Counts : Counts (select_key "app" "hits" start.db.rows) (start.env.clock 0) (pos 7)
unfolding select_key at_key is_expired format_int
hits_Counts = inr (refl, refl, refl)

incr_run : (incr "hits" (pos 5) start).0 ≡ ok (pos 12)
unfolding incr lytecache.World.◌>>=◌ lytecache.Counters.atomic_incr lytecache.World.now_millis
    lytecache.World.exec lytecache.Counters.incr_row lytecache.Table.upsert at_key
    lytecache.Kv.fresh_row is_expired lytecache.World.query select_key lytecache.Counters.count_up
    lytecache.Changes.changed lytecache.World.when lytecache.Changes.listener_wants
    lytecache.Sweep.maybe_opportunistic_sweep lytecache.Common.ltb_ℤ lytecache.Strconv.parse_int
    lytecache.Counters.summed lytecache.Tests.add_texts format_int ◌+ℤ◌
incr_run = refl

seven_five : IsInt64 (pos 7 +ℤ pos 5)
unfolding ◌+ℤ◌
seven_five = ground arith

incr-adds_example : pos 12 ≡ pos 7 +ℤ pos 5
incr-adds_example =
    incr-adds start (incr "hits" (pos 5) start).1 "hits" (pos 7) (pos 5) (pos 12) add_texts-IsAdder
      (ground arith, ground arith, seven_five) hits_Counts
      (returned (incr "hits" (pos 5) start) incr_run)

-- a live text at the key "word"
abbrev word : Row
word = row_of "app" "word" (b'x' ∷ []) 1 none

abbrev worded : World
worded = world_of config (word ∷ [])

word_there : select_key "app" "word" worded.db.rows ≡ some word
unfolding select_key at_key
word_there = refl

word_live : is_expired word.expires_at (worded.env.clock 0) ≡ false
unfolding is_expired
word_live = refl

incr-NotCounted_example : Outcome (Refusal worded) (NotCounted worded) (incr "word" (pos 1) worded)
incr-NotCounted_example = incr-NotCounted worded "word" (pos 1) word word_there word_live refl

abbrev token : Bytes
token = b'a' ∷ b'b' ∷ []

abbrev job_lock : Lock
job_lock = record { name = "job"; token = token }

lock_run : (try_lock "job" token (pos 9000000) (pos 200) start).0 ≡ ok (some job_lock)
unfolding try_lock lytecache.World.◌>>=◌ lytecache.Kv.add_with encode_value
    lytecache.Kv.capacity_check lytecache.Sweep.is_no_eviction lytecache.World.now_millis
    lytecache.World.exec lytecache.World.when lytecache.Kv.put_row_if_expired lytecache.Table.upsert
    at_key lytecache.Kv.fresh_row lock_key lytecache.Sweep.maybe_evict lytecache.Sweep.is_unlimited
    lytecache.Sweep.maybe_opportunistic_sweep lytecache.Common.ltb_ℤ
lock_run = refl

try_lock-free_example :
    Attempted start "job" token
      (pos 9000000)
      (some job_lock)
      (try_lock "job" token (pos 9000000) (pos 200) start).1
try_lock-free_example =
    try_lock-free start (try_lock "job" token (pos 9000000) (pos 200) start).1 "job" token
      (pos 9000000) (pos 200) job_lock start-HasPrimaryKey
      (returned (try_lock "job" token (pos 9000000) (pos 200) start) lock_run)

-- the lock is held by another
abbrev held_row : Row
held_row = row_of "app" "__lock__:job" (b'z' ∷ []) 1 (some (pos 900))

abbrev held : World
held = world_of config (held_row ∷ [])

held_there : select_key "app" (lock_key "job") held.db.rows ≡ some held_row
unfolding select_key at_key lock_key
held_there = refl

held_live : is_expired held_row.expires_at (held.env.clock 0) ≡ false
unfolding is_expired lytecache.Common.leb_ℤ
held_live = refl

held_run : (try_lock "job" token (pos 9000000) (pos 200) held).0 ≡ ok none
unfolding try_lock lytecache.World.◌>>=◌ lytecache.Kv.add_with encode_value
    lytecache.Kv.capacity_check lytecache.Sweep.is_no_eviction lytecache.World.now_millis
    lytecache.World.exec lytecache.World.when lytecache.Kv.put_row_if_expired lytecache.Table.upsert
    at_key lytecache.Kv.fresh_row lock_key is_expired lytecache.Common.leb_ℤ
    lytecache.Sweep.maybe_opportunistic_sweep lytecache.Common.ltb_ℤ
held_run = refl

release_run : (release job_lock held).0 ≡ ok tt
unfolding release lytecache.World.◌>>=◌ encode_value lytecache.World.exec
release_run = refl

release-holds_token_example :
    (d : Bytes) × (code : ℕ) × (encode_value held.env.codec (Value.string job_lock.token)
      ≡ ok (d, code))
    × (select_key held.cache.namespace (lock_key job_lock.name) (release job_lock held).1.db.rows
        ≡ holds_token d (select_key held.cache.namespace (lock_key job_lock.name) held.db.rows))
release-holds_token_example =
    release-holds_token held (release job_lock held).1 job_lock (unfold select_key in (refl, tt))
      (returned (release job_lock held) release_run)

abbrev entry : String × Value
entry = ("a", Value.int (pos 3))

abbrev bad : String × Value
bad = ("b", Value.other none)

many_fails : (set_many (entry ∷ bad ∷ []) none start).0 ≡ err serialization
unfolding set_many lytecache.World.◌>>=◌ lytecache.World.in_tx lytecache.World.query
    lytecache.World.now_millis encode_value lytecache.World.exec
many_fails = refl

set_many-err_example : (set_many (entry ∷ bad ∷ []) none start).1.db.rows ≡ start.db.rows
set_many-err_example =
    set_many-err start (set_many (entry ∷ bad ∷ []) none start).1 entry (bad ∷ []) none
      serialization start-HasPrimaryKey (failed (set_many (entry ∷ bad ∷ []) none start) many_fails)

many_run : (set_many (entry ∷ []) none start).0 ≡ ok tt
unfolding set_many lytecache.World.◌>>=◌ lytecache.World.in_tx lytecache.World.query
    lytecache.World.now_millis encode_value lytecache.World.exec lytecache.Changes.changed
    lytecache.World.when lytecache.Changes.listener_wants lytecache.Sweep.maybe_evict
    lytecache.Sweep.is_no_eviction lytecache.Sweep.is_unlimited
    lytecache.Sweep.maybe_opportunistic_sweep lytecache.Common.ltb_ℤ
many_run = refl

set_many-AllWritten_example :
    AllWritten start (entry ∷ []) none (set_many (entry ∷ []) none start).1
set_many-AllWritten_example =
    set_many-AllWritten start (set_many (entry ∷ []) none start).1 entry [] none start-HasPrimaryKey
      (returned (set_many (entry ∷ []) none start) many_run)
