-- ===== src/Ttl/Rows.antt =====
-- The expiry operations run statements on the rows of their own namespace only.
use lytecache.Common.{
  arith, false, String, Bool, Option, none, some, ℤ, ◌≡◌, refl, Option-cases, inl, inr,
}
use lytecache.Errors.{Result, ok, err}
use lytecache.Table.{Row, update_where}
use lytecache.Table.Trace.{updating}
use lytecache.World.{exec, on_rows}
use lytecache.World.Rules.{Runs, Runs-exec_rows, runs}
use lytecache.Kv.{live_at}
use lytecache.Kv.Rows.{live_at-Within, Runs-delete_raw}
use lytecache.Ttl.{set_expiry, expire, persist, remaining, ttl_of, inspect_row, inspect}

module _ {fading : Bool} {ns : String} where
  Runs-remaining : (key : String) (r : Result (Option Row)) → Runs fading ns (remaining key r)
  unfolding remaining
  Runs-remaining key (err e) = search runs
  Runs-remaining key (ok none) = search runs
  Runs-remaining key (ok (some row)) = elim (Option-cases row.expires_at) [
    | inl x ↦ rw x (search runs)
    | inr (e, x) ↦ rw x (search (runs, Runs-delete_raw) depth 12)
  ]

  pub Runs-ttl_of : (key : String) → Runs fading ns (ttl_of key)
  unfolding ttl_of
  Runs-ttl_of key = search (runs, Runs-remaining) depth 12

  Runs-inspect_row : (key : String) (r : Option Row) → Runs fading ns (inspect_row key r)
  unfolding inspect_row
  Runs-inspect_row key none = search runs
  Runs-inspect_row key (some row) = elim (Option-cases row.expires_at) [
    | inl x ↦ rw x (search runs)
    | inr (e, x) ↦ rw x (search (runs, Runs-delete_raw) depth 12)
  ]

  pub Runs-inspect : (key : String) → Runs fading ns (inspect key)
  unfolding inspect
  Runs-inspect key = search (runs, Runs-inspect_row) depth 12

module _ {ns : String} where
  Runs-set_expiry :
      (c key : String) (now : ℤ) (e : Option ℤ)
      → c ≡ ns
      → Runs false ns (exec (on_rows (update_where (live_at c key now) (set_expiry e))))
  unfolding set_expiry
  Runs-set_expiry c key now e h = Runs-exec_rows _ (λ t.
      updating _ _ (rw h (live_at-Within ns key now)) (λ r. (refl, refl)) (λ r k. k)
        (λ x. ground arith))

  pub Runs-expire : (key : String) (ttl : ℤ) → Runs false ns (expire key ttl)
  unfolding expire
  Runs-expire key ttl = search (runs, Runs-set_expiry) depth 12

  pub Runs-persist : (key : String) → Runs false ns (persist key)
  unfolding persist
  Runs-persist key = search (runs, Runs-set_expiry) depth 12
