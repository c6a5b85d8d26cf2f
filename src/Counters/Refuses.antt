-- ===== src/Counters/Refuses.antt =====
-- Incr refuses a live value that is not an integer.
use lytecache.Common.{
  String, Bool, true, false, ◌||◌, none, some, [], ◌∷◌, ◌≡◌, refl, ap, ◌==◌, arith, ℤ, ◌⊎◌, inl,
  inr, Bool-cases,
}
use lytecache.Errors.{Error, not_numeric, database}
use lytecache.Strconv.{Bytes, format_int}
use lytecache.Value.{type_int}
use lytecache.Table.{Row, Table, is_expired, at_key, select_key, upsert}
use lytecache.World.{World}
use lytecache.World.Ends.{
  Ends, Outcome, Ends-raise, Ends-if, Ends-bind, Ends-exec, Ends-get_cache, Ends-get_env,
  Ends-now_millis,
}
use lytecache.Kv.{fresh_row}
use lytecache.Counters.{count_up, incr_row, atomic_incr, incr}

-- an upsert whose condition refuses the row that is there changes nothing and reports no row
upsert_refused :
    (new : Row) (set : Row → Row) (cond : Row → Bool) (t : Table) (r : Row)
    → select_key new.namespace new.key t ≡ some r
    → cond r ≡ false
    → upsert new set cond t ≡ (t, 0)
unfolding select_key upsert
upsert_refused new set cond [] r h k = ground arith
upsert_refused new set cond (q ∷ t) r h k = elim (Bool-cases (at_key new.namespace new.key q)) [
  | inl x ↦ rw x (ground (arith, h, k, x))
  | inr x ↦ rw (x, upsert_refused new set cond t r (rw x at h) k) refl
]

incr_row_refused :
    (add : Bytes → Bytes → Bytes) (amount : Bytes) (now : ℤ) (ns key : String) (t : Table) (r : Row)
    → select_key ns key t ≡ some r
    → is_expired r.expires_at now ≡ false
    → (r.value_type == 2) ≡ false
    → incr_row add amount type_int (λ t. t == 2) now ns key t ≡ (t, 0)
unfolding incr_row fresh_row
incr_row_refused add amount now ns key t r h l k =
    upsert_refused (fresh_row ns key amount type_int now none) (count_up add amount type_int now)
      (λ r. is_expired r.expires_at now || r.value_type == 2) t r h (rw (l, k) refl)

-- No number is returned.
abbrev pub Refusal : World → ℤ → World → Type 0
Refusal w m u = false ≡ true

-- An Incr that was refused: ErrNotNumeric, or a driver error, and no row has changed.
abbrev pub NotCounted : World → Error → World → Type 0
NotCounted w e u = (u.db.rows ≡ w.db.rows) × ((e ≡ not_numeric) ⊎ (e ≡ database))

module _ (w : World) (key : String) (amount : ℤ) (row : Row)
    (h : select_key w.cache.namespace key w.db.rows ≡ some row)
    (l : is_expired row.expires_at (w.env.clock 0) ≡ false)
    (k : (row.value_type == 2) ≡ false) where
  refused :
      incr_row w.env.sql_add
        (format_int amount)
        type_int
        (λ t. t == 2)
        (w.env.clock 0)
        w.cache.namespace
        key
        w.db.rows
      ≡ (w.db.rows, 0)
  refused =
      incr_row_refused w.env.sql_add (format_int amount) (w.env.clock 0) w.cache.namespace key
        w.db.rows row h l k

  incr_refused-Ends : Ends w (incr key amount) (Refusal w) (NotCounted w)
  unfolding incr atomic_incr
  incr_refused-Ends = Ends-bind (
      Ends-bind (
        Ends-now_millis (
          Ends-bind (
            Ends-get_cache (
              Ends-bind (
                Ends-get_env (
                  Ends-bind (
                    Ends-exec _
                      (λ x.
                        Ends-if
                          ((incr_row w.env.sql_add (format_int amount) type_int (λ t. t == 2)
                              (w.env.clock 0) w.cache.namespace key w.db.rows).1
                            == 0)
                          _ _ (λ y. Ends-raise _ (ap (λ z. z.0) refused, inl refl))
                          (λ y. ground (arith, ap (λ z. z.1) refused)))
                      (λ x. (refl, inr refl))))))))))

-- Incr on a key with a live row that is not an integer never returns a number: it fails with
-- ErrNotNumeric, or with a driver error, and leaves every row as it was.
pub incr-NotCounted :
    (w : World) (key : String) (amount : ℤ) (row : Row)
    → select_key w.cache.namespace key w.db.rows ≡ some row
    → is_expired row.expires_at (w.env.clock 0) ≡ false
    → (row.value_type == 2) ≡ false
    → Outcome (Refusal w) (NotCounted w) (incr key amount w)
incr-NotCounted w key amount row h l k = (incr_refused-Ends w key amount row h l k).at
