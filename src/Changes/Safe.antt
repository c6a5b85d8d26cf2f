-- ===== src/Changes/Safe.antt =====
-- Reporting a change never fails the mutation that it reports.
use lytecache.Common.{String, Option, List, ℕ}
use lytecache.World.{Op, ChangeRecord}
use lytecache.World.Safe.{Safe, safe}
use lytecache.Changes.{publish, changed}

Safe-publish : (rec : ChangeRecord) → Safe (publish rec)
unfolding publish
Safe-publish rec = search safe

pub Safe-changed :
    (op : Op) (keys : Option (List String)) (count : ℕ) → Safe (changed op keys count)
unfolding changed
Safe-changed op keys count = search (safe, Safe-publish) depth 12
