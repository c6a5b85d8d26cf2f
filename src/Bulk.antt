-- ===== src/Bulk.antt =====
-- lytecache-go/kv.go: SetMany and GetMany.
pub mod Rows
pub mod Atomic
use Prim.Native.String.{compare as str_compare}
use Prim.Native.Nat.{Ordering}
use lytecache.Common.{
  ℕ, zero, suc, ◌+◌, ◌-◌, String, Bool, true, false, not, ◌&&◌, ◌||◌, Option, none, some, List, [],
  ◌∷◌, map, ◌==◌, if◌then◌else◌, ℤ, length, str_eq,
}
use lytecache.Errors.{Error, Result, ok, err}
use lytecache.Strconv.{Bytes}
use lytecache.Value.{Value, encode_value}
use lytecache.Table.{Row, is_expired, in_namespace, select_where}
use lytecache.World.{
  World, M, Cache, op_set, ◌>>=◌, ◌>>◌, pure, lift, attempt, get_cache, get_env, set_cache, when,
  now_millis, query, exec, in_tx, on_rows,
}
use lytecache.Changes.{changed}
use lytecache.Sweep.{buffer_lru, maybe_evict, maybe_opportunistic_sweep}
use lytecache.Kv.{expires_at_arg, fresh_row, put_row, in_keys, delete}

-- a <= b in the order of the bytes
unfoldable pub text_le : String → String → Bool
text_le a b = elim (str_compare a b) [ Ordering.gt ↦ false | _ ↦ true ]

insert_sorted : String → List String → List String
insert_sorted k [] = k ∷ []
insert_sorted k (j ∷ js) =
    let rest = insert_sorted k js in if text_le k j then k ∷ j ∷ js else j ∷ rest

-- sortedKeys: the keys of a map, as sort.Strings leaves them
unfoldable pub sorted_keys : List String → List String
unfolding insert_sorted text_le
sorted_keys [] = []
sorted_keys (k ∷ ks) = insert_sorted k (sorted_keys ks)

pub write_entries : String → ℤ → Option ℤ → List (String × Value) → M (Unit {0})
write_entries ns now expires [] = pure tt
write_entries ns now expires ((key, value) ∷ rest) = do
  env ← get_env
  (d, code) ← lift (encode_value env.codec value)
  exec (on_rows (put_row (fresh_row ns key d code now expires)))
  write_entries ns now expires rest

-- The entries stand in the order in which the map is walked.
unfoldable pub set_many : List (String × Value) → Option ℤ → M (Unit {0})
unfolding write_entries
set_many [] ttl = pure tt
set_many (e ∷ entries) ttl = do
  c ← get_cache
  in_tx (do
    query (λ _. tt)
    now ← now_millis
    write_entries c.namespace now (expires_at_arg ttl now) (e ∷ entries))
  changed op_set (some (sorted_keys (map (λ e. e.0) (e ∷ entries)))) (length (e ∷ entries))
  maybe_evict
  maybe_opportunistic_sweep

-- RawValue, with its key
pub record Entry : Type 0 where
  pub key : String
  pub content : Bytes
  pub value_type : ℕ

-- The loop over the rows: the live entries, and the keys that have expired.
collect : ℤ → List Row → M (List Entry × List String)
collect now [] = pure ([], [])
collect now (r ∷ rows) =
    if is_expired r.expires_at now
    then (do (entries, gone) ← collect now rows; pure (entries, r.key ∷ gone))
    else (do
      buffer_lru r.key now
      (entries, gone) ← collect now rows
      pure ((record { key = r.key; content = r.value; value_type = r.value_type }) ∷ entries, gone))

drop_gone : List String → M (Unit {0})
drop_gone [] = pure tt
drop_gone (k ∷ ks) = do attempt (delete (k ∷ ks)); pure tt

pub get_many : List String → M (List Entry)
unfolding collect drop_gone
get_many [] = pure []
get_many (k ∷ ks) = do
  c ← get_cache
  rows ← query (λ d. select_where (λ r. in_namespace c.namespace r && in_keys (k ∷ ks) r) d.rows)
  now ← now_millis
  (entries, gone) ← collect now rows
  maybe_opportunistic_sweep
  drop_gone gone
  set_cache (λ c. record c { hits = c.hits + length entries })
  set_cache (λ c. record c { misses = c.misses + (length (k ∷ ks) - length entries - length gone) })
  set_cache (λ c. record c { misses = c.misses + length gone })
  pure entries
