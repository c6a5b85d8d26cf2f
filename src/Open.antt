-- ===== src/Open.antt =====
-- lytecache-go/cache.go: the options of New, the set-up of the schema, and Close.
pub mod Schema
use lytecache.Common.{
  ℕ, zero, suc, ◌%◌, String, Bool, true, false, not, ◌&&◌, ◌||◌, Option, none, some, List, [], ◌∷◌,
  ◌++◌, ◌==◌, if◌then◌else◌, ℤ, pos, leb_ℤ, ltb_ℤ, is_some,
}
use lytecache.Errors.{Error, Result, ok, err, schema_version, malformed, database, invalid_argument}
use lytecache.Strconv.{Bytes}
use lytecache.Value.{same_bytes}
use lytecache.World.{
  World, M, Cache, Config, Eviction, lru, Op, Dispatcher, ◌>>=◌, ◌>>◌, pure, raise, lift, attempt,
  get_cache, set_cache, call, query, exec,
}
use lytecache.Events.{insert_or_ignore}
use lytecache.Changes.{valid_ops, close_dispatcher}
use lytecache.Sweep.{flush_lru_buffer}
use lytecache.Cursors.{find_meta}

-- The options of New that the model has; durations are in nanoseconds.
pub record Options : Type 0 where
  pub namespace : String
  pub max_keys : Option ℤ
  pub max_bytes : Option ℤ
  pub eviction : Eviction
  pub sweep_interval : ℤ
  pub strict : Bool
  pub publish_ops : List String
  pub event_retention : ℤ
  pub event_max_count : ℤ
  pub change_key_cap : ℤ

-- An Option, by the function that makes it.
pub data Setting : Type 0 where
  with_publish_changes : List String → Setting
  with_event_retention with_event_max_count with_change_key_cap with_max_keys : ℤ → Setting
  with_max_bytes with_sweep_interval : ℤ → Setting
  with_namespace : String → Setting
  with_eviction : Eviction → Setting
  with_strict : Bool → Setting

unfoldable pub default_options : Options
default_options = record {
  namespace = "default";
  max_keys = none;
  max_bytes = none;
  eviction = lru;
  sweep_interval = pos 60000000000;
  strict = false;
  publish_ops = [];
  event_retention = pos 3600000000000;
  event_max_count = pos 0;
  change_key_cap = pos 100;
}

unfoldable pub apply : Setting → Options → Options
apply (with_publish_changes ops) o = record o { publish_ops = o.publish_ops ++ ops }
apply (with_event_retention d) o = record o { event_retention = d }
apply (with_event_max_count n) o = record o { event_max_count = n }
apply (with_change_key_cap n) o = record o { change_key_cap = n }
apply (with_max_keys n) o = record o { max_keys = some n }
apply (with_max_bytes n) o = record o { max_bytes = some n }
apply (with_sweep_interval d) o = record o { sweep_interval = d }
apply (with_namespace ns) o = record o { namespace = ns }
apply (with_eviction e) o = record o { eviction = e }
apply (with_strict b) o = record o { strict = b }

unfoldable pub apply_all : List Setting → Options → Options
apply_all [] o = o
apply_all (s ∷ ss) o = apply_all ss (apply s o)

checked_config : Options → Bool → (Op → Bool) → Result Config
checked_config o json1 ops =
    if leb_ℤ o.event_retention (pos 0)
    then err invalid_argument
    else if ltb_ℤ o.event_max_count (pos 0) || ltb_ℤ o.change_key_cap (pos 0)
    then err invalid_argument
    else ok (record {
      namespace = o.namespace;
      max_keys = o.max_keys;
      max_bytes = o.max_bytes;
      eviction = o.eviction;
      strict = o.strict;
      sweep_interval = o.sweep_interval;
      json1 = json1;
      publish_ops = ops;
      event_retention = o.event_retention;
      event_max_count = o.event_max_count;
      change_key_cap = o.change_key_cap;
    })

-- The configuration of the cache that New builds, with what detectJSON1 found.
unfoldable pub config_of : List Setting → Bool → Result Config
unfolding apply_all default_options checked_config
config_of settings json1 =
    let o = apply_all settings default_options in
    elim (valid_ops o.publish_ops) [ err e ↦ err e | ok ops ↦ checked_config o json1 ops ]

-- err == nil && valid == 1 && arr == "[1]"
has_json1 : Result (ℕ × Bytes) → Bool
has_json1 (err e) = false
has_json1 (ok (valid, arr)) = valid == 1 && same_bytes arr (b'[' ∷ b'1' ∷ b']' ∷ [])

-- detectJSON1: not where the environment forces the fallback, and else by what SQLite answers.
unfoldable detect_json1 : Bool → ℕ × Bytes → M Bool
unfolding has_json1
detect_json1 forced answer =
    if forced then pure false else do r ← attempt (query (λ d. answer)); pure (has_json1 r)

-- The version that a file without one is given.
record_version : M ℤ
record_version = do
  exec (λ d. (record d { meta = insert_or_ignore "schema_version" (b'1' ∷ []) d.meta }, 1))
  pure (pos 1)

-- The version text, as Sscanf reads it with "%d"; a newer one is refused.
checked_version : (Bytes → Option ℤ) → Option Bytes → M ℤ
unfolding record_version
checked_version scan none = record_version
checked_version scan (some text) = elim (scan text) [
  | none ↦ raise malformed
  | some v ↦ if ltb_ℤ (pos 1) v then raise schema_version else pure v
]

-- The DDL creates what is missing, which the model's files have.
unfoldable pub init_schema : (Bytes → Option ℤ) → M ℤ
unfolding checked_version
init_schema scan = do
  exec (λ d. (d, 0))
  text ← query (λ d. find_meta "schema_version" d.meta)
  checked_version scan text

sqlite_busy_primary : ℕ
sqlite_busy_primary = 5

-- isSQLiteBusy, of the result code that the driver's error has: Code()&0xff
is_sqlite_busy : ℕ → Error → Bool
unfolding sqlite_busy_primary
is_sqlite_busy code database = code % 256 == sqlite_busy_primary
is_sqlite_busy code _ = false

-- Up to `f` more attempts; `codes n` is the result code of the error of attempt n.
unfoldable pub init_attempts : ℕ → (ℕ → ℕ) → ℕ → (Bytes → Option ℤ) → M ℤ
unfolding is_sqlite_busy
init_attempts zero codes n scan = raise database
init_attempts (suc f) codes n scan = do
  r ← attempt (init_schema scan)
  elim r [
    | ok v ↦ pure v
    | err e ↦ if is_sqlite_busy (codes n) e then init_attempts f codes (suc n) scan else raise e
  ]

abbrev max_attempts : ℕ
max_attempts = 25

unfoldable pub init_schema_with_retry : (ℕ → ℕ) → (Bytes → Option ℤ) → M ℤ
init_schema_with_retry codes scan = init_attempts max_attempts codes 1 scan

unfoldable limits : M (Option ℤ × Option ℤ)
limits = do c ← get_cache; pure (c.max_keys, c.max_bytes)

-- Every subscription is closed and unregistered, and the dispatcher ended.
end_listeners : M (Unit {0})
end_listeners = set_cache (λ c. record c { wakes = []; dispatcher = none })

failed_close : Result (Unit {0}) → Bool
failed_close (ok u) = false
failed_close (err e) = true

-- closeOnce: what the first Close found is what every Close returns, whether an error came up.
unfoldable pub close : Option Bool → M Bool
unfolding end_listeners failed_close
close (some closed) = pure closed
close none = do
  end_listeners
  flush_lru_buffer
  write ← attempt (call (pure tt))
  read ← attempt (call (pure tt))
  pure (failed_close write || failed_close read)
