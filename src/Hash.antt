-- ===== src/Hash.antt =====
-- lytecache-go/hash.go: what the hash operations share, and the read-modify-write fallback.
pub mod Writes
pub mod Counts
pub mod Overflow
pub mod Written
pub mod Quiet
pub mod Fallback
pub mod Reads
use lytecache.Common.{
  ℕ, zero, suc, ◌+◌, String, Bool, true, false, not, ◌&&◌, ◌||◌, Option, none, some, List, [], ◌∷◌,
  ◌++◌, map, ltb, ◌==◌, if◌then◌else◌, ℤ, pos, length, str_eq, is_some,
}
use lytecache.Errors.{Error, Result, ok, err, cache_full, serialization}
use lytecache.Strconv.{Bytes}
use lytecache.Value.{type_json}
use lytecache.Table.{
  Row, Table, is_expired, is_live, at_key, in_namespace, select_where, upsert, update_where,
  count_where, sum_size,
}
use lytecache.World.{
  World, M, Cache, Env, op_set, ◌>>=◌, ◌>>◌, pure, raise, lift, get_cache, get_env, set_cache, when,
  call, query, exec, in_tx, on_rows, now_millis,
}
use lytecache.Changes.{changed}
use lytecache.Sweep.{
  buffer_lru, is_no_eviction, is_unlimited, maybe_evict, maybe_opportunistic_sweep,
}
use lytecache.Kv.{expires_at_arg, fresh_row, put_row, reaches, live_at, hit, miss}
use lytecache.Json.{
  JsonLib, Fields, Parsed, bad_json, other_root, object, parse_json_object, marshal,
}

-- wrongTypeError: the three messages wrap one error.
abbrev pub wrong_type : Error
wrong_type = serialization

pub first_row : List Row → Option Row
first_row [] = none
first_row (r ∷ rs) = some r

-- SELECT … WHERE namespace = @ns AND key = @key AND hashLive
unfoldable pub live_row : String → String → ℤ → Table → Option Row
unfolding first_row
live_row ns key now t = first_row (select_where (live_at ns key now) t)

-- hashIsObj
unfoldable pub is_object_text : Option String → Bool
is_object_text none = false
is_object_text (some t) = str_eq t "object"

unfoldable pub is_object : JsonLib → Row → Bool
unfolding is_object_text
is_object lib r = r.value_type == type_json && is_object_text (lib.sql_type r.value)

check_row : JsonLib → Option Row → M (Unit {0})
check_row lib none = pure tt
check_row lib (some r) = if is_object lib r then pure tt else raise wrong_type

unfoldable pub check_hash_type : String → ℤ → M (Unit {0})
unfolding check_row
check_hash_type key now = do
  c ← get_cache
  env ← get_env
  row ← query (λ d. live_row c.namespace key now d.rows)
  check_row env.json row

-- recordHashRead
unfoldable pub record_hash_read : String → ℤ → Bool → M (Unit {0})
record_hash_read key now found = do
  if found then (do hit; buffer_lru key now) else miss
  maybe_opportunistic_sweep

-- inImmediate: a connection, BEGIN IMMEDIATE, the body, COMMIT or ROLLBACK.
unfoldable pub in_immediate : {A : Type 0} → M A → M A
in_immediate m = do call (pure tt); in_tx m

pub parsed_fields : Parsed → Result (Option Fields)
parsed_fields bad_json = err wrong_type
parsed_fields other_root = err wrong_type
parsed_fields (object o) = ok (some o)

unfoldable pub loaded_row : JsonLib → Option Row → Result (Option Fields)
unfolding parsed_fields
loaded_row lib none = ok none
loaded_row lib (some r) =
    if r.value_type == type_json
    then parsed_fields (parse_json_object lib r.value)
    else err wrong_type

unfoldable pub load_hash : String → ℤ → M (Option Fields)
load_hash key now = do
  c ← get_cache
  env ← get_env
  row ← query (λ d. live_row c.namespace key now d.rows)
  lift (loaded_row env.json row)

full_keys : Cache → ℕ × ℕ → M (Unit {0})
full_keys c sums =
    if reaches c.max_keys sums.0
    then raise cache_full
    else if not (sums.0 == 0) && reaches c.max_bytes sums.1
    then raise cache_full
    else pure tt

-- checkCapacityIn: one query for both limits; the sum over no rows is NULL, which is not valid.
unfoldable pub check_capacity_in : M (Unit {0})
unfolding full_keys
check_capacity_in = do
  c ← get_cache
  sums ← query {A = ℕ × ℕ} (λ d.
      (count_where (in_namespace c.namespace) d.rows, sum_size (in_namespace c.namespace) d.rows))
  full_keys c sums

-- The fallback's UPDATE of the key's row.
unfoldable pub rewrite_row : Bytes → ℤ → Row → Row
rewrite_row blob now r = record r {
  value = blob;
  size_bytes = length blob;
  last_accessed = now;
  access_count = r.access_count + 1;
}

-- What a mutation returns: whether the object has changed, its result, and the object.
abbrev pub Mutation : Type 0 → Type 0
Mutation A = Fields → Result (Bool × A × Fields)

-- That UPDATE, or INSERT OR REPLACE, which gives all columns the values of the new row.
unfoldable pub write_table :
    JsonLib → String → String → Option ℤ → ℤ → Bool → Fields → Table → Table × ℕ
unfolding rewrite_row
write_table lib ns key ttl now exists o t =
    if exists
    then update_where (at_key ns key) (rewrite_row (marshal lib o) now) t
    else put_row (fresh_row ns key (marshal lib o) type_json now (expires_at_arg ttl now)) t

write_hash : String → Option ℤ → ℤ → Bool → Fields → M (Unit {0})
write_hash key ttl now exists o = do
  c ← get_cache
  env ← get_env
  exec (on_rows (write_table env.json c.namespace key ttl now exists o))
  pure tt

unfoldable pub or_empty : Option Fields → Fields
or_empty none = []
or_empty (some o) = o

capacity_for : Bool → Bool → M (Unit {0})
capacity_for create exists = do
  c ← get_cache
  if not exists && create && is_no_eviction c.eviction && not (is_unlimited c.config)
      then check_capacity_in
      else pure tt

-- Whether a row is written: the object has changed, and it is there or to be created.
abbrev pub must_write : Bool → Bool → Bool → Bool
must_write changes create exists = changes && (exists || create)

-- The body of the transaction: the result, and whether a row was written.
mutate_hash : {A : Type 0} → String → Option ℤ → Bool → ℤ → Mutation A → M (A × Bool)
unfolding or_empty capacity_for write_hash
mutate_hash key ttl create now mutate = do
  found ← load_hash key now
  capacity_for create (is_some found)
  (changes, r, o) ← lift (mutate (or_empty found))
  if must_write changes create (is_some found)
      then (do write_hash key ttl now (is_some found) o; pure (r, true))
      else pure (r, false)

unfoldable pub rmw_hash : {A : Type 0} → String → Option ℤ → Bool → Mutation A → M A
unfolding mutate_hash
rmw_hash key ttl create mutate = do
  now ← now_millis
  (r, wrote) ← in_immediate (mutate_hash key ttl create now mutate)
  when wrote (do changed op_set (some (key ∷ [])) 1; maybe_evict)
  pure r
