-- ===== src/World.antt =====
-- The state that the methods of lytecache-go share: the `Cache` struct of lytecache-go/cache.go,
-- the database file, and the environment (clock, driver errors, random order). A method is an
-- action: it returns the new state beside its result.
pub mod Rules
pub mod Safe
pub mod Ends
pub mod Calls
use lytecache.Common.{ℕ, suc, String, Bool, true, false, Option, List, ℤ, if◌then◌else◌}
use lytecache.Errors.{Error, Result, ok, err, database}
use lytecache.Strconv.{Bytes}
use lytecache.Value.{Codec}
use lytecache.Table.{Table}
use lytecache.Json.{JsonLib}

pub data Eviction : Type 0 where
  lru ttl_policy random no_eviction : Eviction

-- The change operations "set", "delete" and "flush".
pub data Op : Type 0 where
  op_set op_delete op_flush : Op

pub record ChangeRecord : Type 0 where
  pub op : Op
  pub namespace : String
  pub keys : Option (List String)
  pub count : ℕ
  pub truncated : Bool

pub record LruUpdate : Type 0 where
  pub last_accessed : ℤ
  pub access_count : ℕ

-- `depth` is that of the record that is being dispatched.
pub record Dispatcher : Type 0 where
  pub listeners : List (ℕ × (Op → Bool))
  pub next_id : ℕ
  pub queue : List (ChangeRecord × ℕ)
  pub closed : Bool
  pub depth : ℕ

-- The fields of `Cache` that New sets once. Durations are in nanoseconds.
pub record Config : Type 0 where
  pub namespace : String
  pub max_keys : Option ℤ
  pub max_bytes : Option ℤ
  pub eviction : Eviction
  pub strict : Bool
  pub sweep_interval : ℤ
  pub json1 : Bool
  pub publish_ops : Op → Bool
  pub event_retention : ℤ
  pub event_max_count : ℤ
  pub change_key_cap : ℤ

-- `wakes` holds the wake channel of each registered subscription, by its identity.
pub record Cache : Type 0 where
  pub config : Config
  pub open config use *
  pub ops_since_sweep : ℕ
  pub lru_buffer : List (String × LruUpdate)
  pub hits : ℕ
  pub misses : ℕ
  pub evictions : ℕ
  pub expired_removed : ℕ
  pub events_ready : Bool
  pub wakes : List (ℕ × Bool)
  pub dispatcher : Option Dispatcher

pub record EventRow : Type 0 where
  pub seq : ℕ
  pub channel : String
  pub namespace : String
  pub payload : Option Bytes
  pub value_type : ℕ
  pub created_at : ℤ

-- The database file: the tables `cache`, `events` (if it was created) and `meta`. `last_seq` is
-- the last seq that AUTOINCREMENT gave out.
pub record Db : Type 0 where
  pub rows : Table
  pub events_table : Bool
  pub events : List EventRow
  pub last_seq : ℕ
  pub meta : List (String × Bytes)

-- The next readings of the clock (milliseconds), whether each next call of the driver fails, the
-- rows that RANDOM() puts first, and what the code calls that is not of this repository: the float
-- and JSON codecs, the JSON of a change record, SQLite's sum of two texts, its GLOB, fmt.Sscan
-- into an int64, and the JSON functions of hashes.
pub record Env : Type 0 where
  pub clock : ℕ → ℤ
  pub faults : ℕ → Bool
  pub dice : ℕ → ℕ
  pub codec : Codec
  pub change_json : ChangeRecord → Bytes
  pub sql_add : Bytes → Bytes → Bytes
  pub glob : String → String → Bool
  pub sscan : Bytes → Option ℤ
  pub json : JsonLib
  pub on_dispatcher : Bool

pub record World : Type 0 where
  pub cache : Cache
  pub db : Db
  pub env : Env

abbrev pub M : Type 0 → Type 0
M A = World → Result A × World

unfoldable pub pure : {A : Type 0} → A → M A
pure a w = (ok a, w)

unfoldable pub raise : {A : Type 0} → Error → M A
raise e w = (err e, w)

unfoldable pub lift : {A : Type 0} → Result A → M A
lift r w = (r, w)

-- The result of `m` as a value, for code that goes on after an error.
unfoldable pub attempt : {A : Type 0} → M A → M (Result A)
attempt m w = let (r, w') = m w in (ok r, w')

unfoldable pub get_cache : M Cache
get_cache w = (ok w.cache, w)

unfoldable pub get_env : M Env
get_env w = (ok w.env, w)

-- What the database holds, for the bounds of loops.
unfoldable pub get_db : M Db
get_db w = (ok w.db, w)

-- The fields that change; the configuration stays.
unfoldable pub set_cache : (Cache → Cache) → M (Unit {0})
set_cache f w = (ok tt, record w { cache = f w.cache })

unfoldable pub continue : {A B : Type 0} → Result A → (A → M B) → M B
continue (ok a) f w = f a w
continue (err e) f w = (err e, w)

infixl 5 ◌>>=◌ ◌>>◌
-- Opening this opens the actions above.
unfoldable pub ◌>>=◌ : {A B : Type 0} → M A → (A → M B) → M B
unfolding pure raise lift attempt get_cache get_env get_db set_cache continue
◌>>=◌ m f w = let (r, w') = m w in continue r f w'

abbrev pub ◌>>◌ : {A B : Type 0} → M A → M B → M B
m >> n = m >>= λ _. n

unfoldable pub when : Bool → M (Unit {0}) → M (Unit {0})
unfolding pure
when true m = m
when false m = pure tt

-- time.Now().UnixMilli()
unfoldable pub now_millis : M ℤ
now_millis w =
    (ok (w.env.clock 0), record w { env = record w.env { clock = λ n. w.env.clock (suc n) } })

-- Whether the next call of the driver fails.
unfoldable pub next_fault : M Bool
next_fault w =
    (ok (w.env.faults 0), record w { env = record w.env { faults = λ n. w.env.faults (suc n) } })

-- The next random number.
unfoldable pub next_die : M ℕ
next_die w = (ok (w.env.dice 0), record w { env = record w.env { dice = λ n. w.env.dice (suc n) } })

fail_or : {A : Type 0} → Bool → M A → M A
unfolding raise
fail_or true m = raise database
fail_or false m = m

-- A call of the driver: it fails, or does its work.
unfoldable pub call : {A : Type 0} → M A → M A
unfolding next_fault fail_or
call m w = let (r, w') = next_fault w in fail_or (w.env.faults 0) m w'

unfoldable pub read : {A : Type 0} → (Db → A) → M A
read f w = (ok (f w.db), w)

unfoldable pub write : (Db → Db × ℕ) → M ℕ
write f w = (ok (f w.db).1, record w { db = (f w.db).0 })

-- A statement that reads: it fails, or returns what the database holds.
unfoldable pub query : {A : Type 0} → (Db → A) → M A
unfolding call read
query f = call (read f)

-- A statement that writes: it fails and changes nothing, or returns the rows affected.
unfoldable pub exec : (Db → Db × ℕ) → M ℕ
unfolding call write
exec f = call (write f)

abbrev pub on_rows : (Table → Table × ℕ) → Db → Db × ℕ
on_rows f d = (record d { rows = (f d.rows).0 }, (f d.rows).1)

-- ROLLBACK to the database `before` the transaction.
unfoldable pub roll_back : Db → World → World
roll_back before w = record w { db = before }

-- How a transaction ends: an error rolls back, and so does a Commit that fails.
unfoldable pub finish : {A : Type 0} → Db → Result A → M A
unfolding next_fault roll_back
finish before (err e) w = (err e, roll_back before w)
finish before (ok a) w =
    let w' = (next_fault w).1 in
    if w.env.faults 0 then (err database, roll_back before w') else (ok a, w')

unfoldable pub transaction : {A : Type 0} → M A → M A
unfolding finish
transaction m w = let (r, w') = m w in finish w.db r w'

-- inTx: Begin, the body, and Commit or Rollback.
unfoldable pub in_tx : {A : Type 0} → M A → M A
unfolding call transaction
in_tx m = call (transaction m)
