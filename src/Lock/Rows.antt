-- ===== src/Lock/Rows.antt =====
-- The lock runs statements on the rows of its own namespace only.
use lytecache.Common.{false, String, Bool, ℤ, ◌≡◌, ◌&&◌, arith}
use lytecache.Strconv.{Bytes}
use lytecache.Value.{same_bytes}
use lytecache.Table.{at_key, delete_where}
use lytecache.Table.Trace.{deleting}
use lytecache.World.{exec, on_rows}
use lytecache.World.Rules.{Runs, Runs-exec_rows, runs}
use lytecache.Sweep.Rows.{at_key-Within}
use lytecache.Kv.Rows.{Runs-add_with}
use lytecache.Lock.{Lock, try_lock, release}

module _ {fading : Bool} {ns : String} where
  Runs-delete_held :
      (c key : String) (d : Bytes)
      → c ≡ ns
      → Runs fading ns (exec (on_rows (delete_where (λ r. at_key c key r && same_bytes r.value d))))
  Runs-delete_held c key d h = Runs-exec_rows _ (λ t.
      deleting (λ r. at_key c key r && same_bytes r.value d)
        (λ r k. rw (← h) (at_key-Within c key r (ground arith))))

  pub Runs-release : (l : Lock) → Runs fading ns (release l)
  unfolding release
  Runs-release l = search (runs, Runs-delete_held) depth 12

module _ {ns : String} where
  pub Runs-try_lock :
      (name : String) (token : Bytes) (timeout deadline : ℤ)
      → Runs false ns (try_lock name token timeout deadline)
  unfolding try_lock
  Runs-try_lock name token timeout deadline = search (runs, Runs-add_with) depth 12
