-- ===== src/Kv/Adds.antt =====
-- Add writes only where no live row is: what it returns, and what it leaves in the table.
use lytecache.Common.{
  ℕ, String, Bool, true, false, Option, none, some, [], ◌∷◌, ◌≡◌, refl, ap, ◌∙◌, ◌==◌, arith, ℤ,
  not,
}
use lytecache.Errors.{Error, ok}
use lytecache.Strconv.{Bytes}
use lytecache.Value.{Value, encode_value}
use lytecache.Table.{Row, Table, is_expired, select_key, HasPrimaryKey}
use lytecache.Table.Laws.{HasPrimaryKey-upsert, select_key-upsert, count-upsert, at_key_self}
use lytecache.Table.Fading.{Fades, Faded, Trace-Fades}
use lytecache.Table.Trace.{Trace-trans}
use lytecache.World.{World, M, op_set, pure, when, ◌>>◌}
use lytecache.World.Rules.{Runs, runs, namespace-Moved}
use lytecache.World.Safe.{Safe, safe}
use lytecache.World.Ends.{
  Ends, Same, Ends-ok, Ends-pure, Ends-lift, Ends-bind, Ends-exec, Ends-get_cache, Ends-get_env,
  Ends-now_millis, Ends-weaken, Ends-Safe,
}
use lytecache.Changes.{changed}
use lytecache.Changes.Rows.{Runs-changed}
use lytecache.Changes.Safe.{Safe-changed}
use lytecache.Sweep.{maybe_evict, maybe_opportunistic_sweep}
use lytecache.Sweep.Rows.{Runs-maybe_evict, Runs-maybe_opportunistic_sweep}
use lytecache.Sweep.Safe.{Safe-maybe_evict, Safe-maybe_opportunistic_sweep}
use lytecache.Kv.{overwrite, fresh_row, put_row_if_expired, add_with, add}
use lytecache.Kv.Rows.{overwrite-KeepsKey}
use lytecache.Kv.Capacity.{admits, capacity_check-Ends}
use lytecache.Kv.Stores.{new_row, Untouched}

-- Whether a key is free at a time: it has no row, or an expired one.
abbrev pub vacant : Option Row → ℤ → Bool
vacant none now = true
vacant (some r) now = is_expired r.expires_at now

-- Add returned `b`: whether the key was free, and its row was written.
abbrev pub Added : World → String → Value → Option ℤ → Bool → World → Type 0
Added w key v ttl b u =
    (d : Bytes) × (code : ℕ) × (encode_value w.env.codec v ≡ ok (d, code))
    × (admits w.cache.config key w.db.rows ≡ true)
    × (b ≡ vacant (select_key w.cache.namespace key w.db.rows) (w.env.clock 0))
    × Fades (put_row_if_expired (w.env.clock 0) (new_row w key d code ttl) w.db.rows).0 u.db.rows

put_row_if_expired-HasPrimaryKey :
    (now : ℤ) (r : Row) (t : Table) → HasPrimaryKey t → HasPrimaryKey (put_row_if_expired now r t).0
unfolding put_row_if_expired
put_row_if_expired-HasPrimaryKey now r t h =
    HasPrimaryKey-upsert r (overwrite r) _ t (overwrite-KeepsKey r) h

written_if_vacant :
    (now : ℤ) (new : Row) (t : Table)
    → not ((put_row_if_expired now new t).1 == 0) ≡ vacant (select_key new.namespace new.key t) now
unfolding put_row_if_expired
written_if_vacant now new t =
    ground (arith, count-upsert new (overwrite new) (λ r. is_expired r.expires_at now) t)

-- what Add does once the statement has run
after_add : Bool → String → ℕ → M Bool
after_add emit key n = do
  when (not (n == 0)) (do when emit (changed op_set (some (key ∷ [])) 1); maybe_evict)
  maybe_opportunistic_sweep
  pure (not (n == 0))

Runs-reported :
    {ns : String} (emit : Bool) (key : String) (b : Bool)
    → Runs true ns (when b (do when emit (changed op_set (some (key ∷ [])) 1); maybe_evict))
Runs-reported emit key b = search (runs, Runs-changed, Runs-maybe_evict) depth 12

Safe-reported :
    (emit : Bool) (key : String) (b : Bool)
    → Safe (when b (do when emit (changed op_set (some (key ∷ [])) 1); maybe_evict))
Safe-reported emit key b = search (safe, Safe-changed, Safe-maybe_evict) depth 12

after_add-Ends :
    (u : World) (emit : Bool) (key : String) (n : ℕ)
    → HasPrimaryKey u.db.rows
    → {E : Error → World → Type 0}
    → Ends u (after_add emit key n) (λ b x. (b ≡ not (n == 0)) × Fades u.db.rows x.db.rows) E
unfolding after_add
after_add-Ends u emit key n h = Ends-bind (
    Ends-Safe (Runs-reported emit key _) (Safe-reported emit key _) refl (λ _ x m. Ends-bind (
      Ends-Safe Runs-maybe_opportunistic_sweep Safe-maybe_opportunistic_sweep
        (namespace-Moved m refl)
        (λ _ y k. Ends-pure _ (refl, Trace-Fades (Trace-trans m.rows k.rows) h)))))

module _ (w : World) (key : String) (v : Value) (ttl : Option ℤ) (h : HasPrimaryKey w.db.rows) where
  -- the statement, run in a state that differs from `w` by readings only
  vacant_there :
      (u : World) (d : Bytes) (code : ℕ)
      → Same w u
      → not ((put_row_if_expired (u.env.clock 0) (new_row u key d code ttl) u.db.rows).1 == 0)
        ≡ vacant (select_key w.cache.namespace key w.db.rows) (w.env.clock 0)
  unfolding fresh_row
  vacant_there u d code s =
      written_if_vacant (u.env.clock 0) (new_row u key d code ttl) u.db.rows
      ∙ rw (s.db, s.cache, s.clock) refl

  table_kept :
      (u : World) (d : Bytes) (code : ℕ)
      → Same w u
      → (put_row_if_expired (u.env.clock 0) (new_row u key d code ttl) u.db.rows).0
        ≡ (put_row_if_expired (w.env.clock 0) (new_row w key d code ttl) w.db.rows).0
  table_kept u d code s = rw (s.db, s.cache, s.clock) refl

  -- What Add and the lock's AddNX do: on an error no row has changed.
  pub add_with-Ends :
      (emit : Bool)
      → Ends w (add_with emit key v ttl) (λ b x. Added w key v ttl b x) (λ _ x. Untouched w x)
  unfolding add_with after_add
  add_with-Ends emit = Ends-bind (
      Ends-get_env (
        Ends-bind (
          Ends-lift _
            (λ (d, code) e. Ends-bind (
              Ends-weaken (capacity_check-Ends w key)
                (λ _ u (s, a). Ends-bind (
                  Ends-now_millis (
                    Ends-bind (
                      Ends-get_cache (
                        Ends-bind (
                          Ends-exec _
                            (λ x.
                              Ends-weaken
                                (after_add-Ends _ emit key _
                                  (put_row_if_expired-HasPrimaryKey _ _ u.db.rows (rw s.db h)))
                                (λ b y (p, f). (
                                  d,
                                  code,
                                  e,
                                  a,
                                  p ∙ vacant_there u d code s,
                                  rw (← table_kept u d code s) f,
                                ))
                                (λ _ y z. z))
                            (λ x. ap (λ b. b.rows) s.db)))))))
                (λ x u (s, a). ap (λ b. b.rows) s.db)))
            (λ x e. refl))))

-- Add, when it returns without an error: its result says whether the key had no row or an expired
-- one, and the table holds what the guarded upsert leaves, less rows that were taken away after it.
pub add-Added :
    (w u : World) (key : String) (v : Value) (ttl : Option ℤ) (b : Bool)
    → HasPrimaryKey w.db.rows
    → add key v ttl w ≡ (ok b, u)
    → Added w key v ttl b u
unfolding add
add-Added w u key v ttl b h e = Ends-ok (add_with-Ends w key v ttl h true) e

kept_if_live :
    (now : ℤ) (new row : Row) (t : Table)
    → select_key new.namespace new.key t ≡ some row
    → is_expired row.expires_at now ≡ false
    → select_key new.namespace new.key (put_row_if_expired now new t).0 ≡ some row
unfolding put_row_if_expired overwrite
kept_if_live now new row t s l = ground (
  arith,
  select_key-upsert new.namespace new.key new (overwrite new) (λ r. is_expired r.expires_at now) t
      (overwrite-KeepsKey new),
  at_key_self new,
)

-- Add on a key with a live row returns false, and leaves at the key that row's content or nothing.
pub add-live :
    (w u : World) (key : String) (v : Value) (ttl : Option ℤ) (b : Bool) (row : Row)
    → HasPrimaryKey w.db.rows
    → select_key w.cache.namespace key w.db.rows ≡ some row
    → is_expired row.expires_at (w.env.clock 0) ≡ false
    → add key v ttl w ≡ (ok b, u)
    → (b ≡ false) × Faded (some row) (select_key w.cache.namespace key u.db.rows)
unfolding fresh_row
add-live w u key v ttl b row h s l e =
    let (d, code, x, a, p, f) = add-Added w u key v ttl b h e in
    let q = kept_if_live (w.env.clock 0) (new_row w key d code ttl) row w.db.rows s l in
    (p ∙ rw s l, rw q at (f w.cache.namespace key))
