-- ===== src/Bulk/Atomic.antt =====
-- SetMany writes all of its entries or none.
use lytecache.Common.{
  ℕ, String, true, false, Option, none, some, List, [], ◌∷◌, ◌≡◌, refl, sym, ap, arith, ℤ,
}
use lytecache.Errors.{Error, ok, err}
use lytecache.Strconv.{Bytes}
use lytecache.Value.{Value, Codec, encode_value}
use lytecache.Table.{Table, HasPrimaryKey}
use lytecache.Table.Trace.{Trace-HasPrimaryKey}
use lytecache.Table.Fading.{Fades, Trace-Fades}
use lytecache.World.{World, M, op_set, ◌>>◌}
use lytecache.World.Rules.{Runs, runs}
use lytecache.World.Safe.{Safe, safe}
use lytecache.World.Ends.{
  Ends, Ends-ok, Ends-err, Ends-pure, Ends-lift, Ends-bind, Ends-exec, Ends-query, Ends-get_cache,
  Ends-get_env, Ends-now_millis, Ends-weaken, Ends-Safe, Ends-in_tx, Ends-with-Runs,
}
use lytecache.Changes.{changed}
use lytecache.Changes.Rows.{Runs-changed}
use lytecache.Changes.Safe.{Safe-changed}
use lytecache.Sweep.{maybe_evict, maybe_opportunistic_sweep}
use lytecache.Sweep.Rows.{Runs-maybe_evict, Runs-maybe_opportunistic_sweep}
use lytecache.Sweep.Safe.{Safe-maybe_evict, Safe-maybe_opportunistic_sweep}
use lytecache.Kv.{expires_at_arg, fresh_row, put_row}
use lytecache.Bulk.Rows.{Runs-write_entries}
use lytecache.Bulk.{write_entries, set_many}

-- The table after the entries are written one by one; none if one does not encode.
unfoldable pub put_all :
    Codec → String → ℤ → Option ℤ → List (String × Value) → Table → Option Table
put_all lib ns now expires [] t = some t
put_all lib ns now expires ((key, value) ∷ rest) t = elim (encode_value lib value) [
  | err e ↦ none
  | ok x ↦ put_all lib ns now expires rest (put_row (fresh_row ns key x.0 x.1 now expires) t).0
]

-- SetMany wrote the table `t`; what follows only takes rows away.
abbrev pub Wrote : Option Table → World → Type 0
Wrote none u = false ≡ true
Wrote (some t) u = u.db.rows ≡ t

put_all_step :
    (lib : Codec) (ns : String) (now : ℤ) (expires : Option ℤ) (key : String) (value : Value)
    (rest : List (String × Value)) (t : Table) (x : Bytes × ℕ)
    → encode_value lib value ≡ ok x
    → put_all lib ns now expires ((key, value) ∷ rest) t
      ≡ put_all lib ns now expires rest (put_row (fresh_row ns key x.0 x.1 now expires) t).0
unfolding put_all
put_all_step lib ns now expires key value rest t x e = rw (put_all, e) refl

write_entries-Ends :
    (entries : List (String × Value)) (u : World) (ns : String) (now : ℤ) (expires : Option ℤ)
    → Ends u
        (write_entries ns now expires entries)
        (λ _ v. Wrote (put_all u.env.codec ns now expires entries u.db.rows) v)
        (λ _ _. Unit {0})
unfolding write_entries put_all
write_entries-Ends [] u ns now expires = Ends-pure _ refl
write_entries-Ends ((key, value) ∷ rest) u ns now expires = Ends-bind (
    Ends-get_env (
      Ends-bind (
        Ends-lift _
          (λ x e. Ends-bind (
            Ends-exec _
              (λ z.
                Ends-weaken (write_entries-Ends rest _ ns now expires)
                  (λ _ v h.
                    rw (put_all_step u.env.codec ns now expires key value rest u.db.rows x e) h)
                  (λ _ _ h. h))
              (λ z. tt)))
          (λ b e. tt))))

-- what SetMany does once the transaction is committed
after_set_many : List String → ℕ → M (Unit {0})
after_set_many keys n = do changed op_set (some keys) n; maybe_evict; maybe_opportunistic_sweep

Runs-after_set_many :
    {ns : String} (keys : List String) (n : ℕ) → Runs true ns (after_set_many keys n)
unfolding after_set_many
Runs-after_set_many keys n =
    search (runs, Runs-changed, Runs-maybe_evict, Runs-maybe_opportunistic_sweep) depth 12

Safe-after_set_many : (keys : List String) (n : ℕ) → Safe (after_set_many keys n)
unfolding after_set_many
Safe-after_set_many keys n =
    search (safe, Safe-changed, Safe-maybe_evict, Safe-maybe_opportunistic_sweep) depth 12

-- All entries were written, at one time, in one transaction.
abbrev pub AllWritten : World → List (String × Value) → Option ℤ → World → Type 0
AllWritten w entries ttl u =
    (t : Table) × (put_all w.env.codec w.cache.namespace (w.env.clock 0)
        (expires_at_arg ttl (w.env.clock 0)) entries w.db.rows
      ≡ some t)
    × Fades t u.db.rows

Wrote-some : (o : Option Table) (u : World) → Wrote o u → o ≡ some u.db.rows
Wrote-some none u h = ground (arith, h)
Wrote-some (some t) u h = ap some (sym h)

set_many-Ends :
    (w : World) (e : String × Value) (entries : List (String × Value)) (ttl : Option ℤ)
    → HasPrimaryKey w.db.rows
    → Ends w
        (set_many (e ∷ entries) ttl)
        (λ _ u. AllWritten w (e ∷ entries) ttl u)
        (λ _ u. u.db.rows ≡ w.db.rows)
unfolding set_many after_set_many
set_many-Ends w e entries ttl h = Ends-bind (
    Ends-get_cache (
      Ends-bind (
        Ends-in_tx (λ x. refl)
          (λ x. Ends-bind (
            Ends-query _
              (λ y. Ends-bind (
                Ends-now_millis (
                  Ends-with-Runs {fading = false}
                    (Runs-write_entries w.cache.namespace (w.env.clock 0)
                      (expires_at_arg ttl (w.env.clock 0)) (e ∷ entries) refl)
                    refl
                    (write_entries-Ends (e ∷ entries) _ w.cache.namespace (w.env.clock 0)
                      (expires_at_arg ttl (w.env.clock 0)))
                    (λ _ v k m. (
                      λ z.
                          Ends-Safe (Runs-after_set_many _ _) (Safe-after_set_many _ _) refl
                            (λ _ u l. (
                              v.db.rows,
                              Wrote-some _ v k,
                              Trace-Fades l.rows (Trace-HasPrimaryKey m.rows h),
                            )),
                      λ z. refl,
                    ))
                    (λ b v k m. refl))))
              (λ y. refl))))))

-- SetMany is all or nothing: when it returns an error, whether of an encoding, of a statement or of
-- the commit, no row has changed.
pub set_many-err :
    (w u : World) (e : String × Value) (entries : List (String × Value)) (ttl : Option ℤ)
    (x : Error)
    → HasPrimaryKey w.db.rows
    → set_many (e ∷ entries) ttl w ≡ (err x, u)
    → u.db.rows ≡ w.db.rows
set_many-err w u e entries ttl x h k = Ends-err (set_many-Ends w e entries ttl h) k

-- When SetMany returns without an error, every entry was encoded and put in the table, in turn and
-- with one reading of the clock; what is left at any key afterwards has the content that the puts
-- left there.
pub set_many-AllWritten :
    (w u : World) (e : String × Value) (entries : List (String × Value)) (ttl : Option ℤ)
    → HasPrimaryKey w.db.rows
    → set_many (e ∷ entries) ttl w ≡ (ok tt, u)
    → AllWritten w (e ∷ entries) ttl u
set_many-AllWritten w u e entries ttl h k = Ends-ok (set_many-Ends w e entries ttl h) k
