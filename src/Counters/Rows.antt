-- ===== src/Counters/Rows.antt =====
-- The counters run statements on the rows of their own namespace only.
use lytecache.Common.{false, ℕ, String, Bool, Option, none, some, ℤ, ◌≡◌, refl}
use lytecache.Strconv.{Bytes}
use lytecache.Table.{Row}
use lytecache.Table.Trace.{upserting}
use lytecache.World.{exec, on_rows}
use lytecache.World.Rules.{Runs, Runs-exec_rows, runs}
use lytecache.Changes.Rows.{Runs-changed}
use lytecache.Sweep.Rows.{Runs-maybe_opportunistic_sweep}
use lytecache.Kv.{fresh_row}
use lytecache.Counters.{count_up, incr_row, read_back, atomic_incr, parsed, incr, incr_float}

module _ {fading : Bool} {ns : String} where
  Runs-read_back : (r : Option Row) → Runs fading ns (read_back r)
  unfolding read_back
  Runs-read_back none = search runs
  Runs-read_back (some r) = search runs

  Runs-parsed : (n : Option ℤ) → Runs fading ns (parsed n)
  unfolding parsed
  Runs-parsed none = search runs
  Runs-parsed (some n) = search runs

module _ {ns : String} where
  Runs-incr_row :
      (add : Bytes → Bytes → Bytes) (amount : Bytes) (rtype : ℕ) (allowed : ℕ → Bool) (now : ℤ)
      (c key : String)
      → c ≡ ns
      → Runs false ns (exec (on_rows (incr_row add amount rtype allowed now c key)))
  unfolding incr_row fresh_row count_up
  Runs-incr_row add amount rtype allowed now c key h =
      Runs-exec_rows _ (λ t. upserting _ _ _ refl h refl (λ r. (refl, refl)) (λ r k. refl))

  Runs-atomic_incr :
      (key : String) (amount : Bytes) (rtype : ℕ) (allowed : ℕ → Bool)
      → Runs false ns (atomic_incr key amount rtype allowed)
  unfolding atomic_incr
  Runs-atomic_incr key amount rtype allowed =
      search (runs, Runs-incr_row, Runs-read_back, Runs-changed, Runs-maybe_opportunistic_sweep)
        depth 24

  pub Runs-incr : (key : String) (amount : ℤ) → Runs false ns (incr key amount)
  unfolding incr
  Runs-incr key amount = search (runs, Runs-atomic_incr, Runs-parsed)

  pub Runs-incr_float : (key : String) (amount : ℕ) → Runs false ns (incr_float key amount)
  unfolding incr_float
  Runs-incr_float key amount = search (runs, Runs-atomic_incr)
