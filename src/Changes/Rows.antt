-- ===== src/Changes/Rows.antt =====
-- Recording a change leaves the rows of the cache alone.
use lytecache.Common.{ℕ, String, Option, List, Bool}
use lytecache.World.{Op, ChangeRecord}
use lytecache.World.Rules.{Runs, runs}
use lytecache.Events.Rows.{Runs-insert_events}
use lytecache.Changes.{publish, changed}

module _ {fading : Bool} {ns : String} where
  Runs-publish : (rec : ChangeRecord) → Runs fading ns (publish rec)
  unfolding publish
  Runs-publish rec = search (runs, Runs-insert_events) depth 12

  pub Runs-changed :
      (op : Op) (keys : Option (List String)) (count : ℕ) → Runs fading ns (changed op keys count)
  unfolding changed
  Runs-changed op keys count = search (runs, Runs-publish) depth 16
