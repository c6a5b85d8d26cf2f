-- ===== src/Counters.antt =====
-- lytecache-go/counters.go: the atomic counters.
pub mod Rows
pub mod Adds
pub mod Refuses
use lytecache.Common.{
  ℕ, ◌+◌, String, Bool, true, false, not, ◌||◌, Option, none, some, List, [], ◌∷◌, ◌==◌,
  if◌then◌else◌, ℤ, pos, ◌-ℤ◌, wrap64, length,
}
use lytecache.Errors.{Error, Result, ok, err, not_numeric, database, malformed}
use lytecache.Strconv.{Bytes, format_int, parse_int}
use lytecache.Value.{type_int, type_float, decode_float_text}
use lytecache.Table.{Row, Table, is_expired, select_key, upsert}
use lytecache.World.{
  World, M, Cache, op_set, ◌>>=◌, ◌>>◌, pure, raise, lift, get_cache, get_env, now_millis, query,
  exec, on_rows,
}
use lytecache.Changes.{changed}
use lytecache.Sweep.{maybe_opportunistic_sweep}
use lytecache.Kv.{fresh_row}

-- The new text of a counter; an expired one starts from zero.
unfoldable pub summed : (Bytes → Bytes → Bytes) → Bytes → ℤ → Row → Bytes
summed sql_add amount now r =
    sql_add (if is_expired r.expires_at now then b'0' ∷ [] else r.value) amount

unfoldable pub count_up : (Bytes → Bytes → Bytes) → Bytes → ℕ → ℤ → Row → Row
count_up sql_add amount rtype now r = record r {
  value = summed sql_add amount now r;
  value_type = rtype;
  expires_at = if is_expired r.expires_at now then none else r.expires_at;
  last_accessed = now;
  access_count = r.access_count + 1;
  size_bytes = length (summed sql_add amount now r);
}

-- atomicIncrSQL
unfoldable pub incr_row :
    (Bytes → Bytes → Bytes) → Bytes → ℕ → (ℕ → Bool) → ℤ → String → String → Table → Table × ℕ
incr_row sql_add amount rtype allowed now ns key =
    upsert (fresh_row ns key amount rtype now none) (count_up sql_add amount rtype now)
      (λ r. is_expired r.expires_at now || allowed r.value_type)

-- The SELECT that reads the result back; no row is an error.
read_back : Option Row → M Bytes
read_back none = raise database
read_back (some r) = pure r.value

unfoldable pub atomic_incr : String → Bytes → ℕ → (ℕ → Bool) → M Bytes
unfolding read_back
atomic_incr key amount rtype allowed = do
  now ← now_millis
  c ← get_cache
  env ← get_env
  n ← exec (on_rows (incr_row env.sql_add amount rtype allowed now c.namespace key))
  if n == 0 then raise not_numeric else do
    row ← query (λ d. select_key c.namespace key d.rows)
    stored ← read_back row
    changed op_set (some (key ∷ [])) 1
    maybe_opportunistic_sweep
    pure stored

parsed : Option ℤ → M ℤ
parsed none = raise malformed
parsed (some n) = pure n

unfoldable pub incr : String → ℤ → M ℤ
unfolding parsed
incr key amount = do
  text ← atomic_incr key (format_int amount) type_int (λ t. t == 2)
  parsed (parse_int text)

unfoldable decr : String → ℤ → M ℤ
decr key amount = incr key (wrap64 (pos 0 -ℤ amount))

-- The amount and the result are float64 bit patterns.
pub incr_float : String → ℕ → M ℕ
incr_float key amount = do
  env ← get_env
  text ← atomic_incr key (env.codec.format_float amount) type_float (λ t. t == 2 || t == 3)
  lift (decode_float_text env.codec text)
