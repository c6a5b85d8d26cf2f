-- ===== src/Keys/Rows.antt =====
-- Flush runs statements on the rows of its own namespace only, and a listing changes no row.
use lytecache.Common.{Bool, String, ◌≡◌}
use lytecache.Table.{in_namespace, delete_where}
use lytecache.Table.Trace.{deleting}
use lytecache.World.{exec, on_rows}
use lytecache.World.Rules.{Runs, Runs-exec_rows, runs}
use lytecache.Changes.Rows.{Runs-changed}
use lytecache.Keys.{keys_page, flush}

module _ {fading : Bool} {ns : String} where
  Runs-delete_all :
      (c : String) → c ≡ ns → Runs fading ns (exec (on_rows (delete_where (in_namespace c))))
  Runs-delete_all c h = Runs-exec_rows _ (λ t. deleting _ (λ r k. rw (← h) k))

  pub Runs-flush : Runs fading ns flush
  unfolding flush
  Runs-flush = search (runs, Runs-delete_all, Runs-changed) depth 12

  pub Runs-keys_page : (pattern last : String) → Runs fading ns (keys_page pattern last)
  unfolding keys_page
  Runs-keys_page pattern last = search runs depth 12
