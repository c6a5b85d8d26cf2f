-- ===== src/Ttl.antt =====
-- lytecache-go/ttl.go and lytecache-go/inspect.go: expiry of existing keys, and their metadata.
pub mod Rows
use lytecache.Common.{
  ℕ, suc, ◌+◌, ◌*◌, String, Bool, true, false, not, Option, none, some, List, [], ◌∷◌, ◌==◌,
  if◌then◌else◌, ℤ, pos, negsuc, ◌+ℤ◌, ◌-ℤ◌, leb_ℤ, wrap64,
}
use lytecache.Errors.{Error, Result, ok, err}
use lytecache.Table.{Row, is_expired, select_key, update_where}
use lytecache.World.{
  World, M, Cache, ◌>>=◌, ◌>>◌, pure, raise, attempt, get_cache, now_millis, query, exec, on_rows,
}
use lytecache.Events.{milliseconds}
use lytecache.Kv.{live_at, delete_raw, degrade_read_error}

pub set_expiry : Option ℤ → Row → Row
set_expiry e r = record r { expires_at = e }

pub expire : String → ℤ → M Bool
expire key ttl = do
  now ← now_millis
  c ← get_cache
  let expires = wrap64 (now +ℤ milliseconds ttl)
  n ← exec (on_rows (update_where (live_at c.namespace key now) (set_expiry (some expires))))
  pure (not (n == 0))

pub persist : String → M Bool
persist key = do
  now ← now_millis
  c ← get_cache
  n ← exec (on_rows (update_where (live_at c.namespace key now) (set_expiry none)))
  pure (not (n == 0))

unfoldable touch : String → ℤ → M Bool
touch key ttl = expire key ttl

-- k * a
times : ℕ → ℤ → ℤ
times k (pos n) = pos (k * n)
times k (negsuc n) = pos 0 -ℤ pos (k * suc n)

-- What TTLOf finds: no key, a key that stays, or the duration that is left.
pub data Remaining : Type 0 where
  missing forever : Remaining
  left : ℤ → Remaining

remaining : String → Result (Option Row) → M Remaining
remaining key (err e) = do c ← get_cache; if c.strict then raise e else pure missing
remaining key (ok none) = pure missing
remaining key (ok (some row)) = elim row.expires_at [
  | none ↦ pure forever
  | some e ↦ (do
    now ← now_millis
    if leb_ℤ e now
        then (do delete_raw key; pure missing)
        else pure (left (wrap64 (times 1000000 (wrap64 (e -ℤ now))))))
]

pub ttl_of : String → M Remaining
unfolding remaining times
ttl_of key = do
  c ← get_cache
  found ← attempt (query (λ d. select_key c.namespace key d.rows))
  remaining key found

-- RowInfo
pub record RowInfo : Type 0 where
  pub value_type : ℕ
  pub size_bytes : ℕ
  pub created_at : ℤ
  pub expires_at : Option ℤ
  pub last_accessed : ℤ
  pub access_count : ℕ

info_of : Row → RowInfo
info_of r = record {
  value_type = r.value_type;
  size_bytes = r.size_bytes;
  created_at = r.created_at;
  expires_at = r.expires_at;
  last_accessed = r.last_accessed;
  access_count = r.access_count;
}

inspect_row : String → Option Row → M (Option RowInfo)
unfolding info_of
inspect_row key none = pure none
inspect_row key (some row) = elim row.expires_at [
  | none ↦ pure (some (info_of row))
  | some e ↦ (do
    now ← now_millis
    if leb_ℤ e now then (do delete_raw key; pure none) else pure (some (info_of row)))
]

-- A failed read is an error here in both modes.
pub inspect : String → M (Option RowInfo)
unfolding inspect_row
inspect key = do
  c ← get_cache
  row ← query (λ d. select_key c.namespace key d.rows)
  inspect_row key row
