-- ===== src/Kv.antt =====
-- lytecache-go/kv.go: reading and writing one key. ("lytecache-go/kv.go" also has the bulk
-- operations, which are in Bulk.)
pub mod Rows
pub mod Capacity
pub mod Stores
pub mod Serves
pub mod Adds
use lytecache.Common.{
  ℕ, zero, suc, ◌+◌, ◌-◌, ◌<◌, String, Bool, true, false, not, ◌&&◌, ◌||◌, Option, none, some, List,
  [], ◌∷◌, ltb, leb, ◌==◌, if◌then◌else◌, ℤ, pos, ◌+ℤ◌, leb_ℤ, wrap64, length, str_eq, is_some,
}
use lytecache.Errors.{Error, Result, ok, err, cache_full, database}
use lytecache.Strconv.{Bytes}
use lytecache.Value.{
  Value, Dest, Decoded, Codec, to_bytes, to_string, to_int, to_float, encode_value, decode_into,
}
use lytecache.Table.{
  Row, Table, is_expired, is_live, at_key, in_namespace, select_key, upsert, update_where,
  delete_where, count_where, sum_size,
}
use lytecache.World.{
  World, M, Cache, Config, Op, op_set, op_delete, ◌>>=◌, ◌>>◌, pure, raise, lift, attempt,
  get_cache, get_env, set_cache, when, now_millis, query, exec, in_tx, on_rows,
}
use lytecache.Events.{milliseconds}
use lytecache.Changes.{changed}
use lytecache.Sweep.{
  buffer_lru, is_no_eviction, is_unlimited, maybe_evict, maybe_opportunistic_sweep,
}

unfoldable pub expires_at_arg : Option ℤ → ℤ → Option ℤ
expires_at_arg none now = none
expires_at_arg (some ttl) now = some (wrap64 (now +ℤ milliseconds ttl))

-- The row that upsertSQL inserts.
unfoldable pub fresh_row : String → String → Bytes → ℕ → ℤ → Option ℤ → Row
fresh_row ns key d code now expires = record {
  namespace = ns;
  key = key;
  value = d;
  value_type = code;
  created_at = now;
  expires_at = expires;
  last_accessed = now;
  access_count = 0;
  size_bytes = length d;
}

-- DO UPDATE SET … = excluded.…
unfoldable pub overwrite : Row → Row → Row
overwrite new r = record r {
  value = new.value;
  value_type = new.value_type;
  created_at = new.created_at;
  expires_at = new.expires_at;
  last_accessed = new.last_accessed;
  access_count = 0;
  size_bytes = new.size_bytes;
}

unfoldable pub put_row : Row → Table → Table × ℕ
put_row new = upsert new (overwrite new) (λ _. true)

-- count >= limit, where there is a limit
pub reaches : Option ℤ → ℕ → Bool
reaches none n = false
reaches (some limit) n = leb_ℤ limit (pos n)

check_keys : Cache → M (Unit {0})
check_keys c =
    if is_some c.max_keys
    then (do
      count ← query (λ d. count_where (in_namespace c.namespace) d.rows)
      if reaches c.max_keys count then raise cache_full else pure tt)
    else pure tt

-- SUM over no rows is NULL, which is not valid.
check_bytes : Cache → M (Unit {0})
check_bytes c =
    if is_some c.max_bytes
    then (do
      (has_rows, total) ← query {A = Bool × ℕ} (λ d. (
        not (count_where (in_namespace c.namespace) d.rows == 0),
        sum_size (in_namespace c.namespace) d.rows,
      ))
      if has_rows && reaches c.max_bytes total then raise cache_full else pure tt)
    else pure tt

-- Only a new key is refused.
pub check_capacity : String → M (Unit {0})
unfolding check_keys check_bytes
check_capacity key = do
  c ← get_cache
  row ← query (λ d. select_key c.namespace key d.rows)
  if is_some row then pure tt else do check_keys c; check_bytes c

-- c.eviction == NoEviction && (c.maxKeys != nil || c.maxBytes != nil)
unfoldable pub capacity_check : String → M (Unit {0})
capacity_check key = do
  c ← get_cache
  if is_no_eviction c.eviction && not (is_unlimited c.config) then check_capacity key else pure tt

unfoldable pub set : String → Value → Option ℤ → M (Unit {0})
set key value ttl = do
  env ← get_env
  (d, code) ← lift (encode_value env.codec value)
  capacity_check key
  now ← now_millis
  c ← get_cache
  exec (on_rows (put_row (fresh_row c.namespace key d code now (expires_at_arg ttl now))))
  changed op_set (some (key ∷ [])) 1
  maybe_evict
  maybe_opportunistic_sweep

-- Errors are ignored.
pub delete_raw : String → M (Unit {0})
delete_raw key = do
  c ← get_cache
  attempt (exec (on_rows (delete_where (at_key c.namespace key))))
  pure tt

pub miss : M (Unit {0})
miss = set_cache (λ c. record c { misses = c.misses + 1 })

unfoldable pub hit : M (Unit {0})
hit = set_cache (λ c. record c { hits = c.hits + 1 })

-- degradeReadError: strict mode returns the error, otherwise it is a miss.
unfoldable pub degrade_read_error : {A : Type 0} → Error → M (Option A)
degrade_read_error e = do c ← get_cache; if c.strict then raise e else pure none

-- What getRaw does with the row that it found.
serve_row : String → Row → M (Option (Bytes × ℕ))
serve_row key row = do
  now ← now_millis
  if is_expired row.expires_at now
      then (do miss; delete_raw key; pure none)
      else (do hit; buffer_lru key now; pure (some (row.value, row.value_type)))

serve_found : String → Result (Option Row) → M (Option (Bytes × ℕ))
unfolding serve_row
serve_found key (err e) = degrade_read_error e
serve_found key (ok none) = do miss; pure none
serve_found key (ok (some row)) = serve_row key row

unfoldable pub get_raw : String → M (Option (Bytes × ℕ))
unfolding serve_found
get_raw key = do
  c ← get_cache
  found ← attempt (query (λ d. select_key c.namespace key d.rows))
  maybe_opportunistic_sweep
  serve_found key found

settle : Result Decoded → M (Option Decoded)
settle (ok v) = pure (some v)
settle (err e) = degrade_read_error e

-- the decoding step that Get and GetSet end with
decode_found : Dest → Option (Bytes × ℕ) → M (Option Decoded)
unfolding settle
decode_found dest none = pure none
decode_found dest (some (d, code)) = do env ← get_env; settle (decode_into env.codec d code dest)

unfoldable pub get : String → Dest → M (Option Decoded)
unfolding decode_found
get key dest = do found ← get_raw key; decode_found dest found

unfoldable get_bytes : String → M (Option Decoded)
get_bytes key = get key to_bytes

unfoldable get_string : String → M (Option Decoded)
get_string key = get key to_string

pub get_int64 : String → M (Option Decoded)
get_int64 key = get key (to_int 64)

pub get_float64 : String → M (Option Decoded)
get_float64 key = get key (to_float 64)

-- key IN (…)
unfoldable pub in_keys : List String → Row → Bool
in_keys [] r = false
in_keys (k ∷ ks) r = str_eq r.key k || in_keys ks r

unfoldable pub mentions : List String → String → Bool
mentions [] k = false
mentions (j ∷ js) k = str_eq j k || mentions js k

-- hash.go: the first of each, in order; `seen` holds the earlier ones
unfoldable pub dedupe : List String → List String → List String
dedupe seen [] = []
dedupe seen (s ∷ rest) =
    let r = dedupe (s ∷ seen) rest in
    let q = dedupe seen rest in if mentions seen s then q else s ∷ r

pub delete : List String → M ℕ
delete [] = pure 0
delete (k ∷ ks) = do
  c ← get_cache
  n ← exec (on_rows (delete_where (λ r. in_namespace c.namespace r && in_keys (k ∷ ks) r)))
  when (not (n == 0)) (changed op_delete (some (dedupe [] (k ∷ ks))) n)
  pure n

exists_row : String → Result (Option Row) → M Bool
exists_row key (ok none) = pure false
exists_row key (err e) = do c ← get_cache; if c.strict then raise e else pure false
exists_row key (ok (some row)) = elim row.expires_at [
  | none ↦ pure true
  | some e ↦ (do
    now ← now_millis
    if is_expired (some e) now then (do delete_raw key; pure false) else pure true)
]

unfoldable pub exists : String → M Bool
unfolding exists_row
exists key = do
  c ← get_cache
  found ← attempt (query (λ d. select_key c.namespace key d.rows))
  exists_row key found

-- upsertSQL … WHERE cache.expires_at IS NOT NULL AND cache.expires_at <= now
unfoldable pub put_row_if_expired : ℤ → Row → Table → Table × ℕ
put_row_if_expired now new = upsert new (overwrite new) (λ r. is_expired r.expires_at now)

unfoldable pub add_with : Bool → String → Value → Option ℤ → M Bool
add_with emit key value ttl = do
  env ← get_env
  (d, code) ← lift (encode_value env.codec value)
  capacity_check key
  now ← now_millis
  c ← get_cache
  n ← exec (
      on_rows
        (put_row_if_expired now (fresh_row c.namespace key d code now (expires_at_arg ttl now))))
  when (not (n == 0)) (do when emit (changed op_set (some (key ∷ [])) 1); maybe_evict)
  maybe_opportunistic_sweep
  pure (not (n == 0))

unfoldable pub add : String → Value → Option ℤ → M Bool
add = add_with true

-- a live row of the key
unfoldable pub live_at : String → String → ℤ → Row → Bool
live_at ns key now r = at_key ns key r && is_live r.expires_at now

-- Replace leaves created_at as it is.
pub replace_value : Bytes → ℕ → Option ℤ → ℤ → Row → Row
replace_value d code expires now r = record r {
  value = d;
  value_type = code;
  expires_at = expires;
  last_accessed = now;
  access_count = 0;
  size_bytes = length d;
}

pub replace : String → Value → Option ℤ → M Bool
replace key value ttl = do
  env ← get_env
  (d, code) ← lift (encode_value env.codec value)
  now ← now_millis
  c ← get_cache
  n ← exec (
      on_rows (
        update_where (live_at c.namespace key now)
          (replace_value d code (expires_at_arg ttl now) now)))
  when (not (n == 0)) (changed op_set (some (key ∷ [])) 1)
  maybe_opportunistic_sweep
  pure (not (n == 0))

-- The previous value, unless it has expired. The clock is read only for a row with an expiry.
previous : Option Row → M (Option (Bytes × ℕ))
previous none = pure none
previous (some row) = elim row.expires_at [
  | none ↦ pure (some (row.value, row.value_type))
  | some e ↦ (do
    now ← now_millis
    pure (if is_expired (some e) now then none else some (row.value, row.value_type)))
]

-- the transaction of GetSet
swap : String → Bytes → ℕ → M (Option (Bytes × ℕ))
unfolding previous
swap key d code = do
  c ← get_cache
  row ← query (λ d. select_key c.namespace key d.rows)
  old ← previous row
  now ← now_millis
  exec (on_rows (put_row (fresh_row c.namespace key d code now none)))
  pure old

pub get_set : String → Value → Dest → M (Option Decoded)
unfolding swap decode_found
get_set key value dest = do
  env ← get_env
  (d, code) ← lift (encode_value env.codec value)
  old ← in_tx (swap key d code)
  changed op_set (some (key ∷ [])) 1
  maybe_opportunistic_sweep
  decode_found dest old
