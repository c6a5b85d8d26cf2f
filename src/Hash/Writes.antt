-- ===== src/Hash/Writes.antt =====
-- lytecache-go/hash.go: HSet, HSetNX, HSetMany and HDel, by SQLite's JSON functions or by the
-- fallback. A map of fields is a list of entries with different names.
use lytecache.Common.{
  ℕ, zero, suc, ◌+◌, String, Bool, true, false, not, ◌&&◌, ◌||◌, Option, none, some, List, [], ◌∷◌,
  take, drop, ◌==◌, if◌then◌else◌, ℤ, length, is_some,
}
use lytecache.Errors.{Result, ok, err}
use lytecache.Strconv.{Bytes}
use lytecache.Value.{Value, type_json}
use lytecache.Table.{Row, Table, is_expired, upsert, update_where}
use lytecache.World.{
  M, op_set, ◌>>=◌, ◌>>◌, pure, lift, get_cache, get_env, when, exec, in_tx, on_rows, now_millis,
}
use lytecache.Changes.{changed}
use lytecache.Sweep.{maybe_evict, maybe_opportunistic_sweep}
use lytecache.Kv.{capacity_check, expires_at_arg, fresh_row, live_at, dedupe}
use lytecache.Bulk.{text_le}
use lytecache.Json.{JsonLib, Fields, has, set_field, del_field, encode_hash_value}
use lytecache.Hash.{Mutation, is_object, check_hash_type, rmw_hash}

-- upsertHashSQL: an expired row is started again, a live one takes the new document.
unfoldable pub update_hash : (Bytes → Bytes) → Bytes → ℤ → Option ℤ → Row → Row
update_hash live_doc fresh now expires r =
    if is_expired r.expires_at now
    then record r {
      value = fresh;
      value_type = type_json;
      created_at = now;
      expires_at = expires;
      last_accessed = now;
      access_count = 0;
      size_bytes = length fresh;
    }
    else record r {
      value = live_doc r.value;
      value_type = type_json;
      last_accessed = now;
      access_count = r.access_count + 1;
      size_bytes = length (live_doc r.value);
    }

unfoldable pub upsert_hash :
    (Bytes → Bytes) → Bytes → (Row → Bool) → String → String → ℤ → Option ℤ → Table → Table × ℕ
unfolding update_hash
upsert_hash live_doc fresh p ns key now expires =
    upsert (fresh_row ns key fresh type_json now expires) (update_hash live_doc fresh now expires)
      (λ r. is_expired r.expires_at now || p r)

-- hashFieldType("f0") IS NULL AND hashIsObj
unfoldable pub lacks_field : JsonLib → String → Row → Bool
lacks_field lib f r = is_object lib r && not (is_some (lib.sql_field_type r.value f))

-- hashFieldType("f0") IS NOT NULL
unfoldable pub holds_field : JsonLib → String → Row → Bool
holds_field lib f r = is_object lib r && is_some (lib.sql_field_type r.value f)

-- UPDATE … SET value = document, with `bump` accesses
unfoldable pub edit_row : (Bytes → Bytes) → ℤ → ℕ → Row → Row
edit_row edit now bump r = record r {
  value = edit r.value;
  size_bytes = length (edit r.value);
  last_accessed = now;
  access_count = r.access_count + bump;
}

check_unwritten : ℕ → String → ℤ → M (Unit {0})
check_unwritten n key now = if n == 0 then check_hash_type key now else pure tt

-- the transaction of HSet: whether the field was created
set_in_tx : String → String → Bytes → ℤ → Option ℤ → M Bool
unfolding lacks_field edit_row check_unwritten
set_in_tx key field v now expires = do
  c ← get_cache
  env ← get_env
  let live_doc = λ (d : Bytes). env.json.sql_set d field v
  n ← exec (
      on_rows (
        upsert_hash live_doc (env.json.sql_object field v) (lacks_field env.json field) c.namespace
          key now expires))
  if n == 1 then pure true else do
    m ← exec (
        on_rows (
          update_where (λ r. live_at c.namespace key now r && is_object env.json r)
            (edit_row live_doc now 1)))
    check_unwritten m key now
    pure false

set_by_sql : String → String → Bytes → Option ℤ → M Bool
unfolding set_in_tx
set_by_sql key field v ttl = do
  capacity_check key
  now ← now_millis
  created ← in_tx (set_in_tx key field v now (expires_at_arg ttl now))
  changed op_set (some (key ∷ [])) 1
  maybe_evict
  maybe_opportunistic_sweep
  pure created

unfoldable pub set_mutation : String → Bytes → Mutation Bool
set_mutation field v o = ok (true, not (has field o), set_field field v o)

unfoldable pub hset : String → String → Value → Option ℤ → M Bool
unfolding set_by_sql
hset key field value ttl = do
  c ← get_cache
  env ← get_env
  v ← lift (encode_hash_value env.json value)
  if c.json1 then set_by_sql key field v ttl else rmw_hash key ttl true (set_mutation field v)

setnx_in_tx : String → String → Bytes → ℤ → Option ℤ → M Bool
unfolding lacks_field check_unwritten
setnx_in_tx key field v now expires = do
  c ← get_cache
  env ← get_env
  n ← exec (
      on_rows (
        upsert_hash (λ d. env.json.sql_set d field v) (env.json.sql_object field v)
          (lacks_field env.json field) c.namespace key now expires))
  if n == 1 then pure true else do check_hash_type key now; pure false

setnx_by_sql : String → String → Bytes → Option ℤ → M Bool
unfolding setnx_in_tx
setnx_by_sql key field v ttl = do
  capacity_check key
  now ← now_millis
  won ← in_tx (setnx_in_tx key field v now (expires_at_arg ttl now))
  when won (do changed op_set (some (key ∷ [])) 1; maybe_evict)
  pure won

unfoldable pub setnx_mutation : String → Bytes → Mutation Bool
setnx_mutation field v o =
    if has field o then ok (false, false, o) else ok (true, true, set_field field v o)

unfoldable pub hsetnx : String → String → Value → Option ℤ → M Bool
unfolding setnx_by_sql
hsetnx key field value ttl = do
  c ← get_cache
  env ← get_env
  v ← lift (encode_hash_value env.json value)
  if c.json1 then setnx_by_sql key field v ttl else rmw_hash key ttl true (setnx_mutation field v)

insert_entry : String × Value → List (String × Value) → List (String × Value)
insert_entry e [] = e ∷ []
insert_entry e (f ∷ fs) =
    let rest = insert_entry e fs in if text_le e.0 f.0 then e ∷ f ∷ fs else f ∷ rest

-- the entries in the order of sortedKeys
unfoldable pub sort_entries : List (String × Value) → List (String × Value)
unfolding insert_entry
sort_entries [] = []
sort_entries (e ∷ es) = insert_entry e (sort_entries es)

unfoldable pub encode_entries : JsonLib → List (String × Value) → Result Fields
encode_entries lib [] = ok []
encode_entries lib ((k, value) ∷ es) = elim (encode_hash_value lib value) [
  | err e ↦ err e
  | ok v ↦ elim (encode_entries lib es) [ err e ↦ err e | ok rest ↦ ok ((k, v) ∷ rest) ]
]

-- Nested json_set calls set their pairs in turn.
unfoldable pub set_pairs : JsonLib → Fields → Bytes → Bytes
set_pairs lib [] d = d
set_pairs lib ((k, v) ∷ ps) d = set_pairs lib ps (lib.sql_set d k v)

abbrev hset_many_per_statement : ℕ
hset_many_per_statement = 500

empty_object : Bytes
empty_object = b'{' ∷ b'}' ∷ []

-- The statements of one transaction, each for the next 500 fields; the fuel bounds them.
unfoldable pub set_groups : ℕ → String → ℤ → Option ℤ → Fields → M (Unit {0})
unfolding empty_object
set_groups zero key now expires pairs = pure tt
set_groups (suc f) key now expires [] = pure tt
set_groups (suc f) key now expires (p ∷ ps) = do
  c ← get_cache
  env ← get_env
  let group = set_pairs env.json (take hset_many_per_statement (p ∷ ps))
  n ← exec (
      on_rows
        (upsert_hash group (group empty_object) (is_object env.json) c.namespace key now expires))
  let rest = set_groups f key now expires (drop hset_many_per_statement (p ∷ ps))
  if n == 0 then check_hash_type key now else rest

set_many_by_sql : String → Fields → Option ℤ → M (Unit {0})
set_many_by_sql key pairs ttl = do
  capacity_check key
  now ← now_millis
  in_tx (set_groups (length pairs) key now (expires_at_arg ttl now) pairs)
  changed op_set (some (key ∷ [])) 1
  maybe_evict

unfoldable pub set_all : Fields → Fields → Fields
set_all [] o = o
set_all ((k, v) ∷ ps) o = set_all ps (set_field k v o)

unfoldable pub set_many_mutation : Fields → Mutation (Unit {0})
set_many_mutation pairs o = ok (true, tt, set_all pairs o)

unfoldable pub hset_many : String → List (String × Value) → Option ℤ → M (Unit {0})
unfolding set_many_by_sql
hset_many key [] ttl = pure tt
hset_many key (e ∷ es) ttl = do
  c ← get_cache
  env ← get_env
  pairs ← lift (encode_entries env.json (sort_entries (e ∷ es)))
  if c.json1 then set_many_by_sql key pairs ttl else rmw_hash key ttl true (set_many_mutation pairs)

-- One call is one access: the statement that removes the first field counts it.
unfoldable pub remove_each : List String → String → ℤ → ℕ → M ℕ
unfolding holds_field edit_row
remove_each [] key now removed = pure removed
remove_each (f ∷ fs) key now removed = do
  c ← get_cache
  env ← get_env
  n ← exec (
      on_rows (
        update_where (λ r. live_at c.namespace key now r && holds_field env.json f r)
          (edit_row (λ d. env.json.sql_remove d f) now (if removed == 0 then 1 else 0))))
  remove_each fs key now (removed + n)

del_in_tx : List String → String → ℤ → M ℕ
unfolding check_unwritten
del_in_tx fields key now = do
  removed ← remove_each fields key now 0
  check_unwritten removed key now
  pure removed

del_by_sql : List String → String → M ℕ
unfolding del_in_tx
del_by_sql fields key = do
  now ← now_millis
  removed ← in_tx (del_in_tx fields key now)
  when (not (removed == 0)) (changed op_set (some (key ∷ [])) 1)
  pure removed

unfoldable pub del_all : List String → Fields → ℕ × Fields
del_all [] o = (0, o)
del_all (f ∷ fs) o =
    let here = del_field f o in
    let rest = del_all fs here.1 in ((if here.0 then 1 else 0) + rest.0, rest.1)

unfoldable pub del_mutation : List String → Mutation ℕ
del_mutation fields o =
    let removed = del_all fields o in ok (not (removed.0 == 0), removed.0, removed.1)

del_unique : String → List String → M ℕ
unfolding del_by_sql
del_unique key [] = pure 0
del_unique key (f ∷ fs) = do
  c ← get_cache
  if c.json1 then del_by_sql (f ∷ fs) key else rmw_hash key none false (del_mutation (f ∷ fs))

unfoldable pub hdel : String → List String → M ℕ
unfolding del_unique
hdel key fields = del_unique key (dedupe [] fields)
