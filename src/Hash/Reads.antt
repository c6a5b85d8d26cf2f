-- ===== src/Hash/Reads.antt =====
-- lytecache-go/hash.go: the reads of a hash.
use lytecache.Common.{
  ℕ, String, Bool, true, false, Option, none, some, List, [], ◌∷◌, map, if◌then◌else◌, ℤ, length,
  is_some,
}
use lytecache.Strconv.{Bytes}
use lytecache.Value.{Dest, to_string, to_int, Decoded, assign_json}
use lytecache.Table.{Row}
use lytecache.World.{M, ◌>>=◌, ◌>>◌, pure, raise, lift, get_cache, get_env, query, now_millis}
use lytecache.Sweep.{buffer_lru}
use lytecache.Json.{JsonLib, Fields, get_field}
use lytecache.Hash.{wrong_type, live_row, is_object, record_hash_read, load_hash}

found_fields : String → ℤ → List String → Option Fields → M (Option (List (Option Bytes)))
found_fields key now fields none = do record_hash_read key now false; pure none
found_fields key now fields (some o) = do
  record_hash_read key now true
  pure (some (map (λ f. get_field f o) fields))

selected_fields : JsonLib → String → ℤ → List String → Option Row → M (Option (List (Option Bytes)))
selected_fields lib key now fields none = do record_hash_read key now false; pure none
selected_fields lib key now fields (some r) =
    if is_object lib r
    then (do record_hash_read key now true; pure (some (map (lib.sql_field r.value) fields)))
    else raise wrong_type

-- none for a missing or expired key; each field's text where it is there
unfoldable pub hmget_found : String → List String → M (Option (List (Option Bytes)))
unfolding found_fields selected_fields
hmget_found key fields = do
  now ← now_millis
  c ← get_cache
  env ← get_env
  if c.json1
      then (do
        row ← query (λ d. live_row c.namespace key now d.rows)
        selected_fields env.json key now fields row)
      else do o ← load_hash key now; found_fields key now fields o

or_absent : List String → Option (List (Option Bytes)) → List (Option Bytes)
or_absent fields none = map (λ f. none) fields
or_absent fields (some vals) = vals

unfoldable pub hmget : String → List String → M (List (Option Bytes))
unfolding or_absent
hmget key [] = pure []
hmget key (f ∷ fs) = do vals ← hmget_found key (f ∷ fs); pure (or_absent (f ∷ fs) vals)

-- vals[0]
first_value : Option (List (Option Bytes)) → Option Bytes
first_value (some (v ∷ vs)) = v
first_value _ = none

unfoldable pub hget_raw : String → String → M (Option Bytes)
unfolding first_value
hget_raw key field = do vals ← hmget_found key (field ∷ []); pure (first_value vals)

unmarshalled : Dest → Option Bytes → M (Option Decoded)
unmarshalled dest none = pure none
unmarshalled dest (some raw) = do
  env ← get_env
  v ← lift (assign_json (env.codec.unmarshal dest raw))
  pure (some v)

unfoldable pub hget : String → String → Dest → M (Option Decoded)
unfolding unmarshalled
hget key field dest = do raw ← hget_raw key field; unmarshalled dest raw

unfoldable hget_string : String → String → M (Option Decoded)
hget_string key field = hget key field to_string

unfoldable hget_int64 : String → String → M (Option Decoded)
hget_int64 key field = hget key field (to_int 64)

unfoldable pub hexists : String → String → M Bool
unfolding first_value
hexists key field = do vals ← hmget_found key (field ∷ []); pure (is_some (first_value vals))

or_no_fields : Option Fields → Fields
or_no_fields none = []
or_no_fields (some o) = o

-- HGetAll reads the document in Go on both paths.
unfoldable pub hget_all : String → M Fields
unfolding or_no_fields
hget_all key = do
  now ← now_millis
  o ← load_hash key now
  record_hash_read key now (is_some o)
  pure (or_no_fields o)

loaded_entries : String → ℤ → Option Fields → M Fields
loaded_entries key now none = pure []
loaded_entries key now (some o) = do buffer_lru key now; pure o

row_entries : JsonLib → String → ℤ → Option Row → M Fields
row_entries lib key now none = pure []
row_entries lib key now (some r) =
    if is_object lib r
    then (do buffer_lru key now; pure (lib.sql_each r.value))
    else raise wrong_type

unfoldable pub hash_entries : String → M Fields
unfolding loaded_entries row_entries
hash_entries key = do
  now ← now_millis
  c ← get_cache
  env ← get_env
  if c.json1
      then (do
        row ← query (λ d. live_row c.namespace key now d.rows)
        row_entries env.json key now row)
      else do o ← load_hash key now; loaded_entries key now o

unfoldable pub hkeys : String → M (List String)
hkeys key = do o ← hash_entries key; pure (map (λ f. f.0) o)

unfoldable pub hvals : String → M (List Bytes)
hvals key = do o ← hash_entries key; pure (map (λ f. f.1) o)

unfoldable pub hlen : String → M ℕ
hlen key = do o ← hash_entries key; pure (length o)

-- HashMode: whether the mode is "json1".
unfoldable hash_mode : M Bool
hash_mode = do c ← get_cache; pure c.json1
