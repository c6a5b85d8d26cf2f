-- ===== src/Admin/Rows.antt =====
-- Stats, Vacuum, Namespaces and Memoize: statements on the rows of their own namespace only.
use lytecache.Common.{false, Bool, String, Option, none, some, ℤ}
use lytecache.Value.{Value, Dest, Decoded}
use lytecache.World.{M}
use lytecache.World.Rules.{Runs, Runs-exec_other, Runs-bind, Runs-pure, runs}
use lytecache.Sweep.Rows.{Runs-flush_lru_buffer}
use lytecache.Kv.Rows.{Runs-get, Runs-set}
use lytecache.Admin.{stats, vacuum, namespaces, memoize_found, memoize}

module _ {fading : Bool} {ns : String} where
  pub Runs-stats : Runs fading ns stats
  unfolding stats
  Runs-stats = search (runs, Runs-flush_lru_buffer) depth 12

  pub Runs-vacuum : Runs fading ns vacuum
  unfolding vacuum
  Runs-vacuum = search (runs, Runs-exec_other)

  pub Runs-namespaces : Runs fading ns namespaces
  unfolding namespaces
  Runs-namespaces = search runs

module _ {ns : String} where
  Runs-memoize_found :
      (key : String) (ttl : ℤ) (loader : M Value) (found : Option Decoded)
      → Runs false ns loader
      → Runs false ns (memoize_found key ttl loader found)
  unfolding memoize_found
  Runs-memoize_found key ttl loader none h =
      Runs-bind _ _ h (λ v. Runs-bind _ _ (Runs-set _ _ _) (λ _. Runs-pure _))
  Runs-memoize_found key ttl loader (some v) h = search runs

  pub Runs-memoize :
      (key : String) (ttl : ℤ) (dest : Dest) (loader : M Value)
      → Runs false ns loader
      → Runs false ns (memoize key ttl dest loader)
  unfolding memoize
  Runs-memoize key ttl dest loader h =
      Runs-bind _ _ (Runs-get key dest) (λ found. Runs-memoize_found key ttl loader found h)
