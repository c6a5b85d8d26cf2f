-- ===== src/Tests.antt =====
-- A small cache and the runs on it that the theorems are applied to.
mod Documents
mod Streams
mod Hashes
mod Store
mod Runs
mod Counting
mod Upkeep
mod Codecs
mod Logins
use lytecache.Common.{
  ℕ, ◌+◌, String, Bool, true, false, Option, none, some, List, [], ◌∷◌, ℤ, pos, ◌==◌, ◌+ℤ◌, ◌≡◌,
  refl,
}
use lytecache.Errors.{Error, Result, ok, err}
use lytecache.Strconv.{Bytes, format_int, parse_int}
use lytecache.Strconv.RoundTrip.{parse_int-format_int}
use lytecache.Counters.Adds.{IsAdder}
use lytecache.Value.{Value, Codec, Dest}
use lytecache.Tests.Documents.{json_lib}
use lytecache.Table.{Row, Table, HasPrimaryKey, select_key, at_key}
use lytecache.World.{
  World, Cache, Config, Db, Env, Eviction, lru, no_eviction, Op, ChangeRecord, LruUpdate,
}

abbrev pub lib : Codec
lib = record {
  format_float = λ b. b ∷ [];
  parse_float = λ s. elim s [ [] ↦ none | b ∷ r ↦ some b ];
  float_of_int = λ n. 0;
  to_float32 = λ b. b;
  unmarshal = λ d s. some s;
}

-- the sum of two decimal texts
add_parsed : Option ℤ → Option ℤ → Bytes
add_parsed (some a) (some b) = format_int (a +ℤ b)
add_parsed _ _ = []

unfoldable pub add_texts : Bytes → Bytes → Bytes
unfolding add_parsed
add_texts s t = add_parsed (parse_int s) (parse_int t)

pub add_texts-IsAdder : IsAdder add_texts
unfolding add_texts
add_texts-IsAdder = record {
  exact = λ a b h k l. rw (parse_int-format_int a h, parse_int-format_int b k) refl;
}

abbrev pub config : Config
config = record {
  namespace = "app";
  max_keys = none;
  max_bytes = none;
  eviction = lru;
  strict = false;
  sweep_interval = pos 1;
  json1 = true;
  publish_ops = λ o. false;
  event_retention = pos 3600000000000;
  event_max_count = pos 10;
  change_key_cap = pos 100;
}

abbrev pub row_of : String → String → Bytes → ℕ → Option ℤ → Row
row_of ns key d code e = record {
  namespace = ns;
  key = key;
  value = d;
  value_type = code;
  created_at = pos 1;
  expires_at = e;
  last_accessed = pos 5;
  access_count = 0;
  size_bytes = 1;
}

-- a live counter, an expired row, and a row of another namespace
abbrev pub rows : Table
rows =
    row_of "app" "hits" (b'7' ∷ []) 2 none
    ∷ row_of "app" "old" (b'x' ∷ []) 1 (some (pos 50))
    ∷ row_of "web" "hits" (b'9' ∷ []) 2 none
    ∷ []

abbrev pub cache_of : Config → Cache
cache_of c = record {
  config = c;
  ops_since_sweep = 0;
  lru_buffer = [];
  hits = 0;
  misses = 0;
  evictions = 0;
  expired_removed = 0;
  events_ready = false;
  wakes = (0, true) ∷ [];
  dispatcher = none;
}

abbrev pub world_of : Config → Table → World
world_of c t = record {
  cache = cache_of c;
  db = record { rows = t; events_table = false; events = []; last_seq = 0; meta = [] };
  env = record {
    clock = λ n. pos (100 + n);
    faults = λ n. false;
    dice = λ n. n;
    codec = lib;
    change_json = λ r. [];
    sql_add = add_texts;
    glob = λ p k. true;
    sscan = parse_int;
    json = json_lib;
    on_dispatcher = false;
  };
}

abbrev pub start : World
start = world_of config rows

pub returned : {A : Type 0} {a : A} (x : Result A × World) → x.0 ≡ ok a → x ≡ (ok a, x.1)
returned (r, w) h = rw h refl

pub failed : {A : Type 0} {e : Error} (x : Result A × World) → x.0 ≡ err e → x ≡ (err e, x.1)
failed (r, w) h = rw h refl

pub start-HasPrimaryKey : HasPrimaryKey start.db.rows
unfolding select_key at_key
start-HasPrimaryKey = (refl, (refl, (refl, tt)))

-- a strict cache whose next call of the driver fails
abbrev pub faulty : World
faulty =
    let w = world_of (record config { strict = true }) rows in
    record w { env = record w.env { faults = λ n. n == 0 } }
