-- ===== src/Kv/Stores.antt =====
-- What Set, Add and Replace leave in the table, whatever the sweeper and the eviction do after the
-- write.
use lytecache.Common.{ℕ, String, true, false, Option, some, [], ◌∷◌, ◌≡◌, refl, ap, arith, ℤ}
use lytecache.Errors.{Error, ok, err}
use lytecache.Strconv.{Bytes}
use lytecache.Value.{Value, encode_value}
use lytecache.Table.{Row, Table, at_key, select_key, HasPrimaryKey}
use lytecache.Table.Laws.{HasPrimaryKey-upsert, select_key-upsert, at_key_self}
use lytecache.Table.Fading.{Fades, Faded, Trace-Fades}
use lytecache.World.{World, M, op_set, ◌>>◌}
use lytecache.World.Rules.{Runs, runs}
use lytecache.World.Safe.{Safe, safe}
use lytecache.World.Ends.{
  Ends, Same, Ends-ok, Ends-err, Ends-lift, Ends-bind, Ends-exec, Ends-get_cache, Ends-get_env,
  Ends-now_millis, Ends-weaken, Ends-Safe,
}
use lytecache.Changes.{changed}
use lytecache.Changes.Rows.{Runs-changed}
use lytecache.Changes.Safe.{Safe-changed}
use lytecache.Sweep.{maybe_evict, maybe_opportunistic_sweep}
use lytecache.Sweep.Rows.{Runs-maybe_evict, Runs-maybe_opportunistic_sweep}
use lytecache.Sweep.Safe.{Safe-maybe_evict, Safe-maybe_opportunistic_sweep}
use lytecache.Kv.{expires_at_arg, fresh_row, overwrite, put_row, set}
use lytecache.Kv.Rows.{overwrite-KeepsKey}
use lytecache.Kv.Capacity.{admits, capacity_check-Ends}

-- The row that a write at the time `now` puts in the table.
abbrev pub new_row : World → String → Bytes → ℕ → Option ℤ → Row
new_row w key d code ttl =
    fresh_row w.cache.namespace key d code (w.env.clock 0) (expires_at_arg ttl (w.env.clock 0))

-- Set wrote the row; what follows only takes rows away.
abbrev pub Stored : World → String → Value → Option ℤ → World → Type 0
Stored w key v ttl u =
    (d : Bytes) × (code : ℕ) × (encode_value w.env.codec v ≡ ok (d, code))
    × (admits w.cache.config key w.db.rows ≡ true)
    × Fades (put_row (new_row w key d code ttl) w.db.rows).0 u.db.rows

pub put_row-HasPrimaryKey : (r : Row) (t : Table) → HasPrimaryKey t → HasPrimaryKey (put_row r t).0
unfolding put_row
put_row-HasPrimaryKey r t h = HasPrimaryKey-upsert r (overwrite r) _ t (overwrite-KeepsKey r) h

-- what Set does once the row is written
after_set : String → M (Unit {0})
after_set key = do changed op_set (some (key ∷ [])) 1; maybe_evict; maybe_opportunistic_sweep

Runs-after_set : {ns : String} (key : String) → Runs true ns (after_set key)
unfolding after_set
Runs-after_set key =
    search (runs, Runs-changed, Runs-maybe_evict, Runs-maybe_opportunistic_sweep) depth 12

Safe-after_set : (key : String) → Safe (after_set key)
unfolding after_set
Safe-after_set key =
    search (safe, Safe-changed, Safe-maybe_evict, Safe-maybe_opportunistic_sweep) depth 12

written_fresh-Ends :
    (w u : World) (key : String) (v : Value) (d : Bytes) (code : ℕ) (ttl : Option ℤ)
    → HasPrimaryKey w.db.rows
    → encode_value w.env.codec v ≡ ok (d, code)
    → admits w.cache.config key w.db.rows ≡ true
    → u.db.rows ≡ (put_row (new_row w key d code ttl) w.db.rows).0
    → {E : Error → World → Type 0} → Ends u (after_set key) (λ _ x. Stored w key v ttl x) E
written_fresh-Ends w u key v d code ttl h e a s =
    Ends-Safe (Runs-after_set key) (Safe-after_set key) refl (λ _ x m.
      (d, code, e, a, rw (← s) (Trace-Fades m.rows (rw s (put_row-HasPrimaryKey _ w.db.rows h)))))

row_kept :
    (w u : World) (key : String) (d : Bytes) (code : ℕ) (ttl : Option ℤ)
    → Same w u
    → (put_row (new_row u key d code ttl) u.db.rows).0
      ≡ (put_row (new_row w key d code ttl) w.db.rows).0
row_kept w u key d code ttl s = rw (s.db, s.cache, s.clock) refl

-- A Set that fails has not touched the table.
abbrev pub Untouched : World → World → Type 0
Untouched w u = u.db.rows ≡ w.db.rows

set-Ends :
    (w : World) (key : String) (v : Value) (ttl : Option ℤ)
    → HasPrimaryKey w.db.rows
    → Ends w (set key v ttl) (λ _ x. Stored w key v ttl x) (λ _ x. Untouched w x)
unfolding set after_set
set-Ends w key v ttl h = Ends-bind (
    Ends-get_env (
      Ends-bind (
        Ends-lift _
          (λ (d, code) e. Ends-bind (
            Ends-weaken (capacity_check-Ends w key)
              (λ _ u (s, a). Ends-bind (
                Ends-now_millis (
                  Ends-bind (
                    Ends-get_cache (
                      Ends-bind (
                        Ends-exec _
                          (λ x.
                            written_fresh-Ends w _ key v d code ttl h e a
                              (row_kept w u key d code ttl s))
                          (λ x. ap (λ b. b.rows) s.db)))))))
              (λ x u (s, a). ap (λ b. b.rows) s.db)))
          (λ x e. refl))))

-- Set, when it returns without an error: the value was encoded, the check of the no-eviction policy
-- passed the key, and the table holds what the upsert of the new row leaves, less rows that were
-- taken away after it; what is left at any key has its value, type, creation time and expiry.
pub set-Stored :
    (w u : World) (key : String) (v : Value) (ttl : Option ℤ)
    → HasPrimaryKey w.db.rows
    → set key v ttl w ≡ (ok tt, u)
    → Stored w key v ttl u
set-Stored w u key v ttl h e = Ends-ok (set-Ends w key v ttl h) e

-- Set, when it returns an error, for whatever reason, has changed no row.
pub set-err :
    (w u : World) (key : String) (v : Value) (ttl : Option ℤ) (x : Error)
    → HasPrimaryKey w.db.rows
    → set key v ttl w ≡ (err x, u)
    → u.db.rows ≡ w.db.rows
set-err w u key v ttl x h e = Ends-err (set-Ends w key v ttl h) e

-- After a put and whatever only takes rows away, a row that is left at the key has its content.
pub put_row-Faded :
    (new row : Row) (t : Table)
    → Faded (select_key new.namespace new.key (put_row new t).0) (some row)
    → (row.value ≡ new.value)
      × (row.value_type ≡ new.value_type)
      × (row.expires_at ≡ new.expires_at)
unfolding put_row overwrite
put_row-Faded new row t h = ground (
  arith,
  select_key-upsert new.namespace new.key new (overwrite new) (λ _. true) t
      (overwrite-KeepsKey new),
  at_key_self new,
)

-- At another key a put changes nothing.
pub put_row-other :
    (ns key : String) (new : Row) (t : Table)
    → at_key ns key new ≡ false
    → select_key ns key (put_row new t).0 ≡ select_key ns key t
unfolding put_row overwrite
put_row-other ns key new t h =
    ground
      (arith, select_key-upsert ns key new (overwrite new) (λ _. true) t (overwrite-KeepsKey new))
