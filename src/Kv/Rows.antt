-- ===== src/Kv/Rows.antt =====
-- The operations on one key run statements on the rows of their own namespace only.
use lytecache.Common.{
  ℕ, String, Bool, true, false, Option, none, some, List, [], ◌∷◌, ◌≡◌, refl, ℤ, arith, length,
  ◌&&◌, Option-cases, inl, inr,
}
use lytecache.Errors.{Error, Result, ok, err}
use lytecache.Strconv.{Bytes}
use lytecache.Value.{Value, Dest, Decoded}
use lytecache.Table.{Row, at_key, in_namespace, update_where, delete_where}
use lytecache.Table.Laws.{KeepsKey}
use lytecache.Table.Trace.{upserting, updating, deleting, Within, KeepsSize}
use lytecache.World.{Cache, exec, on_rows}
use lytecache.World.Rules.{Runs, Runs-exec_rows, runs}
use lytecache.Changes.Rows.{Runs-changed}
use lytecache.Sweep.Rows.{
  at_key-Within, Runs-buffer_lru, Runs-maybe_evict, Runs-maybe_opportunistic_sweep,
}
use lytecache.Kv.{
  fresh_row, overwrite, put_row, check_keys, check_bytes, check_capacity, capacity_check, set,
  delete_raw, miss, hit, degrade_read_error, serve_row, serve_found, get_raw, settle, decode_found,
  get, in_keys, delete, exists_row, exists, put_row_if_expired, add_with, add, live_at,
  replace_value, replace, previous, swap, get_set,
}

pub overwrite-KeepsKey : (new : Row) → KeepsKey (overwrite new)
unfolding overwrite
overwrite-KeepsKey new r = (refl, refl)

overwrite-KeepsSize : (new : Row) → new.size_bytes ≡ length new.value → KeepsSize (overwrite new)
unfolding overwrite
overwrite-KeepsSize new e r h = e

pub live_at-Within : (ns key : String) (now : ℤ) → Within ns (live_at ns key now)
unfolding live_at
live_at-Within ns key now r h = at_key-Within ns key r (ground arith)

module _ {fading : Bool} {ns : String} where
  Runs-delete_key :
      (c key : String) → c ≡ ns → Runs fading ns (exec (on_rows (delete_where (at_key c key))))
  Runs-delete_key c key h = Runs-exec_rows _ (λ t. deleting _ (rw h (at_key-Within ns key)))

  Runs-delete_keys :
      (c : String) (keys : List String)
      → c ≡ ns
      → Runs fading ns (exec (on_rows (delete_where (λ r. in_namespace c r && in_keys keys r))))
  Runs-delete_keys c keys h =
      Runs-exec_rows _
        (λ t. deleting (λ r. in_namespace c r && in_keys keys r) (λ r k. rw (← h) (ground arith)))

  Runs-check_keys : (c : Cache) → Runs fading ns (check_keys c)
  unfolding check_keys
  Runs-check_keys c = search runs

  Runs-check_bytes : (c : Cache) → Runs fading ns (check_bytes c)
  unfolding check_bytes
  Runs-check_bytes c = search runs

  Runs-check_capacity : (key : String) → Runs fading ns (check_capacity key)
  unfolding check_capacity
  Runs-check_capacity key = search (runs, Runs-check_keys, Runs-check_bytes) depth 12

  pub Runs-capacity_check : (key : String) → Runs fading ns (capacity_check key)
  unfolding capacity_check
  Runs-capacity_check key = search (runs, Runs-check_capacity)

  pub Runs-delete_raw : (key : String) → Runs fading ns (delete_raw key)
  unfolding delete_raw
  Runs-delete_raw key = search (runs, Runs-delete_key)

  Runs-miss : Runs fading ns miss
  unfolding miss
  Runs-miss = search runs

  Runs-hit : Runs fading ns hit
  unfolding hit
  Runs-hit = search runs

  pub Runs-degrade_read_error :
      {A : Type 0} (e : Error) → Runs fading ns (degrade_read_error {A = A} e)
  unfolding degrade_read_error
  Runs-degrade_read_error e = search runs

  Runs-serve_row : (key : String) (row : Row) → Runs fading ns (serve_row key row)
  unfolding serve_row
  Runs-serve_row key row =
      search (runs, Runs-miss, Runs-hit, Runs-delete_raw, Runs-buffer_lru) depth 12

  Runs-serve_found : (key : String) (r : Result (Option Row)) → Runs fading ns (serve_found key r)
  unfolding serve_found
  Runs-serve_found key (err e) = search (runs, Runs-degrade_read_error)
  Runs-serve_found key (ok none) = search (runs, Runs-miss)
  Runs-serve_found key (ok (some row)) = Runs-serve_row key row

  pub Runs-get_raw : (key : String) → Runs fading ns (get_raw key)
  unfolding get_raw
  Runs-get_raw key = search (runs, Runs-maybe_opportunistic_sweep, Runs-serve_found) depth 12

  Runs-settle : (r : Result Decoded) → Runs fading ns (settle r)
  unfolding settle
  Runs-settle (ok v) = search runs
  Runs-settle (err e) = Runs-degrade_read_error e

  Runs-decode_found :
      (dest : Dest) (found : Option (Bytes × ℕ)) → Runs fading ns (decode_found dest found)
  unfolding decode_found
  Runs-decode_found dest none = search runs
  Runs-decode_found dest (some (d, code)) = search (runs, Runs-settle)

  pub Runs-get : (key : String) (dest : Dest) → Runs fading ns (get key dest)
  unfolding get
  Runs-get key dest = search (runs, Runs-get_raw, Runs-decode_found)

  pub Runs-delete : (keys : List String) → Runs fading ns (delete keys)
  unfolding delete
  Runs-delete [] = search runs
  Runs-delete (k ∷ ks) = search (runs, Runs-delete_keys, Runs-changed) depth 12

  Runs-exists_row : (key : String) (r : Result (Option Row)) → Runs fading ns (exists_row key r)
  unfolding exists_row
  Runs-exists_row key (err e) = search runs
  Runs-exists_row key (ok none) = search runs
  Runs-exists_row key (ok (some row)) = elim (Option-cases row.expires_at) [
    | inl x ↦ rw x (search runs)
    | inr (e, x) ↦ rw x (search (runs, Runs-delete_raw) depth 12)
  ]

  pub Runs-exists : (key : String) → Runs fading ns (exists key)
  unfolding exists
  Runs-exists key = search (runs, Runs-exists_row) depth 12

  Runs-previous : (row : Option Row) → Runs fading ns (previous row)
  unfolding previous
  Runs-previous none = search runs
  Runs-previous (some row) = elim (Option-cases row.expires_at) [
    | inl x ↦ rw x (search runs)
    | inr (e, x) ↦ rw x (search runs)
  ]

module _ {ns : String} where
  pub Runs-put_row :
      (c key : String) (d : Bytes) (code : ℕ) (now : ℤ) (e : Option ℤ)
      → c ≡ ns
      → Runs false ns (exec (on_rows (put_row (fresh_row c key d code now e))))
  unfolding put_row fresh_row
  Runs-put_row c key d code now e h =
      Runs-exec_rows _
        (λ t. upserting _ _ _ refl h refl (overwrite-KeepsKey _) (overwrite-KeepsSize _ refl))

  Runs-put_row_if_expired :
      (c key : String) (d : Bytes) (code : ℕ) (now : ℤ) (e : Option ℤ)
      → c ≡ ns
      → Runs false ns (exec (on_rows (put_row_if_expired now (fresh_row c key d code now e))))
  unfolding put_row_if_expired fresh_row
  Runs-put_row_if_expired c key d code now e h =
      Runs-exec_rows _
        (λ t. upserting _ _ _ refl h refl (overwrite-KeepsKey _) (overwrite-KeepsSize _ refl))

  Runs-replace_value :
      (c key : String) (d : Bytes) (code : ℕ) (now : ℤ) (e : Option ℤ)
      → c ≡ ns
      → Runs false ns
          (exec (on_rows (update_where (live_at c key now) (replace_value d code e now))))
  unfolding replace_value
  Runs-replace_value c key d code now e h = Runs-exec_rows _ (λ t.
      updating _ _ (rw h (live_at-Within ns key now)) (λ r. (refl, refl)) (λ r k. refl)
        (λ x. ground arith))

  pub Runs-set : (key : String) (v : Value) (ttl : Option ℤ) → Runs false ns (set key v ttl)
  unfolding set
  Runs-set key v ttl =
      search
        (
          runs, Runs-capacity_check, Runs-put_row, Runs-changed, Runs-maybe_evict,
          Runs-maybe_opportunistic_sweep,
        )
        depth 20

  pub Runs-add_with :
      (emit : Bool) (key : String) (v : Value) (ttl : Option ℤ)
      → Runs false ns (add_with emit key v ttl)
  unfolding add_with
  Runs-add_with emit key v ttl =
      search
        (
          runs, Runs-capacity_check, Runs-put_row_if_expired, Runs-changed, Runs-maybe_evict,
          Runs-maybe_opportunistic_sweep,
        )
        depth 24

  pub Runs-add : (key : String) (v : Value) (ttl : Option ℤ) → Runs false ns (add key v ttl)
  unfolding add
  Runs-add key v ttl = Runs-add_with true key v ttl

  pub Runs-replace : (key : String) (v : Value) (ttl : Option ℤ) → Runs false ns (replace key v ttl)
  unfolding replace
  Runs-replace key v ttl =
      search (runs, Runs-replace_value, Runs-changed, Runs-maybe_opportunistic_sweep) depth 20

  Runs-swap : (key : String) (d : Bytes) (code : ℕ) → Runs false ns (swap key d code)
  unfolding swap
  Runs-swap key d code = search (runs, Runs-previous, Runs-put_row) depth 16

  pub Runs-get_set : (key : String) (v : Value) (dest : Dest) → Runs false ns (get_set key v dest)
  unfolding get_set
  Runs-get_set key v dest =
      search (runs, Runs-swap, Runs-changed, Runs-maybe_opportunistic_sweep, Runs-decode_found)
        depth 20
