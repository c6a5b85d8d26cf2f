-- ===== src/Tests/Streams.antt =====
-- Subscriptions, gaps, cursors and the schema version at concrete files.
use lytecache.Common.{
  ℕ, ◌+◌, ◌<◌, ◌≢◌, String, Bool, true, false, Option, none, some, List, [], ◌∷◌, ◌++◌, ◌≡◌, refl,
  arith, ℤ, pos, ltb, if◌then◌else◌,
}
use lytecache.Errors.{ok, database}
use lytecache.Strconv.{format_int, parse_int}
use lytecache.World.{World, Db, EventRow}
use lytecache.World.Ends.{Ends}
use lytecache.Events.Filter.{any_of, name_is}
use lytecache.Watch.{
  Event, GapError, Subscription, Phase, polling, sleeping, delivering, scan_event, gap_check,
  select_events, new_gap,
}
use lytecache.Watch.Gap.{IsHistory, verdict, Judged, gap_check-Judged}
use lytecache.Watch.Open.{WatchOptions, watch, default_options}
use lytecache.Watch.Start.{Started, watch-Started}
use lytecache.Watch.Progress.{ready, Serves, poll-Serves}
use lytecache.Watch.Poller.{poll, deliver}
use lytecache.Watch.Stream.{stream_to}
use lytecache.Watch.Delivery.{System, done, more, polled, delivered, Begins, Steps-stream_to}
use lytecache.Retained.{recent_events, delete_events_before, event_stats, by_channel}
use lytecache.Cursors.{save_cursor, load_cursor, cursors, CursorInfo}
use lytecache.Cursors.Saved.{stored, load_cursor-save_cursor}
use lytecache.Open.{init_schema}
use lytecache.Open.Schema.{Supported, init_schema-Supported}
use lytecache.Tests.{start, returned}

abbrev event_at : ℕ → String → EventRow
event_at n channel = record {
  seq = n;
  channel = channel;
  namespace = "app";
  payload = some (b'1' ∷ []);
  value_type = 2;
  created_at = pos n;
}

-- four events were published, and the first two deleted
abbrev all_events : List EventRow
all_events = event_at 1 "a" ∷ event_at 2 "a" ∷ event_at 3 "a" ∷ event_at 4 "b" ∷ []

abbrev file : Db
file = record start.db {
  events_table = true;
  events = event_at 3 "a" ∷ event_at 4 "b" ∷ [];
  last_seq = 4;
}

abbrev published : World
published = record start { db = file }

file-IsHistory : IsHistory all_events file
file-IsHistory = record {
  gone = event_at 1 "a" ∷ event_at 2 "a" ∷ [];
  split = refl;
  rising = ground arith;
  below = ground arith;
}

gap_run : (gap_check 1 published).0 ≡ ok (some (new_gap 1 3 false))
unfolding gap_check lytecache.World.◌>>=◌ lytecache.World.query
gap_run = refl

gap_check-Judged_example : Judged 1 all_events file (some (new_gap 1 3 false))
gap_check-Judged_example =
    gap_check-Judged published (gap_check 1 published).1 1 all_events (some (new_gap 1 3 false))
      file-IsHistory (returned (gap_check 1 published) gap_run)

abbrev watcher : Phase → ℕ → List Event → Subscription
watcher phase cursor queue = record {
  id = 1;
  namespace = "app";
  patterns = "a" ∷ [];
  filter = any_of (name_is (b'a' ∷ []) ∷ []);
  cursor = cursor;
  poll_interval = 50000000;
  interval = 50000000;
  queue = queue;
  last_seq = cursor;
  error = none;
  stopped = false;
  phase = phase;
}

watch_run :
    (watch ("a" ∷ []) (record default_options { from_seq = some (pos 2) }) published).0
    ≡ ok (watcher polling 2 [])
unfolding watch lytecache.World.◌>>=◌ lytecache.Events.Filter.channel_filter
    lytecache.Events.Filter.cut_star lytecache.Common.leb_ℤ lytecache.Common.ltb_ℤ
    lytecache.Events.ensure_events lytecache.World.exec lytecache.World.query gap_check
watch_run = refl

abbrev from_two : WatchOptions
from_two = record default_options { from_seq = some (pos 2) }

watch-Started_example :
    Started (some (pos 2)) all_events (watcher polling 2 []) (watch ("a" ∷ []) from_two published).1
watch-Started_example =
    watch-Started published (watch ("a" ∷ []) from_two published).1 ("a" ∷ []) from_two
      (watcher polling 2 []) all_events file-IsHistory
      (returned (watch ("a" ∷ []) from_two published) watch_run)

abbrev system : Subscription → System
system s = record { world = published; sub = s; log = all_events; given = [] }

abbrev third : Event
third = scan_event (event_at 3 "a")

poll_run :
    (poll (watcher polling 2 []) published).0 ≡ ok (watcher (delivering (third ∷ []) 1 false) 2 [])
unfolding poll lytecache.World.◌>>=◌ lytecache.Watch.fetch lytecache.World.call
    lytecache.World.query lytecache.Events.Filter.filter_holds lytecache.Events.Filter.same_text
poll_run = refl

deliver_run :
    deliver (watcher (delivering (third ∷ []) 1 false) 2 [])
    ≡ some (watcher (delivering [] 1 false) 3 (third ∷ []))
unfolding deliver scan_event
deliver_run = refl

watcher-Begins : Begins (system (watcher polling 2 []))
watcher-Begins = record {
  history = file-IsHistory;
  within = omega arith;
  queue = refl;
  left = refl;
  given = refl;
}

abbrev after_poll : System
after_poll = record (system (watcher (delivering (third ∷ []) 1 false) 2 [])) {
  world = (poll (watcher polling 2 []) published).1;
}

abbrev after_delivery : System
after_delivery = record after_poll { sub = watcher (delivering [] 1 false) 3 (third ∷ []) }

Steps-stream_to_example :
    third ∷ [] ≡ stream_to 2 3 "app" (any_of (name_is (b'a' ∷ []) ∷ [])) all_events
Steps-stream_to_example =
    Steps-stream_to (system (watcher polling 2 [])) after_delivery watcher-Begins (
      more (more done (polled _ _ refl (returned (poll (watcher polling 2 []) published) poll_run)))
        (delivered _ deliver_run))

no_verdict : verdict 2 file ≡ none
unfolding verdict
no_verdict = refl

poll-Serves_example :
    Serves (system (watcher polling 2 [])) (ready (watcher polling 2 []) published)
poll-Serves_example = poll-Serves (system (watcher polling 2 [])) refl refl (λ n. refl) no_verdict

save_run : (save_cursor "c" (pos 4) start).0 ≡ ok tt
unfolding save_cursor lytecache.World.◌>>=◌ lytecache.World.exec
save_run = refl

reads_back : start.env.sscan (format_int (pos 4)) ≡ some (pos 4)
unfolding parse_int format_int
reads_back = refl

load_cursor-save_cursor_example :
    Ends
      (save_cursor "c" (pos 4) start).1
      (load_cursor "c")
      (λ r _. r ≡ some (pos 4))
      (λ e _. e ≡ database)
    × ((m : String) → "c" ≢ m → stored m (save_cursor "c" (pos 4) start).1 ≡ stored m start)
load_cursor-save_cursor_example =
    load_cursor-save_cursor start (save_cursor "c" (pos 4) start).1 "c" (pos 4) reads_back
      (returned (save_cursor "c" (pos 4) start) save_run)

listed_run :
    (cursors (save_cursor "b:c" (pos 4) start).1).0
    ≡ ok (record { namespace = "app"; name = "b:c"; seq = pos 4 } ∷ [])
unfolding cursors lytecache.World.◌>>=◌ lytecache.World.query save_cursor lytecache.World.exec
    lytecache.Cursors.cursor_rows lytecache.Events.Filter.has_prefix
    lytecache.Cursors.known_namespaces lytecache.Events.events_exist lytecache.Cursors.sort_infos
    lytecache.Cursors.cursor_infos parse_int format_int lytecache.Cursors.resolve
    lytecache.Cursors.longest_first lytecache.Bulk.sorted_keys lytecache.Kv.dedupe
    lytecache.Kv.mentions lytecache.Cursors.cut_prefix
listed_run = refl

recent_run :
    (recent_events (pos 1) (pos 0) ("b" ∷ []) published).0 ≡ ok (scan_event (event_at 4 "b") ∷ [])
unfolding recent_events lytecache.World.◌>>=◌ scan_event lytecache.Events.events_exist
    lytecache.World.query lytecache.Common.leb_ℤ lytecache.Events.Filter.channel_filter
    lytecache.Events.Filter.cut_star lytecache.Retained.recent_rows lytecache.Common.ltb_ℤ
    select_events lytecache.Events.Filter.filter_holds lytecache.Events.Filter.same_text
recent_run = refl

schema_run : (init_schema parse_int start).0 ≡ ok (pos 1)
unfolding init_schema lytecache.World.◌>>=◌ lytecache.World.exec lytecache.World.query
    lytecache.Cursors.find_meta
schema_run = refl

init_schema-Supported_example : Supported parse_int start (pos 1) (init_schema parse_int start).1
init_schema-Supported_example =
    init_schema-Supported start (init_schema parse_int start).1 parse_int (pos 1)
      (returned (init_schema parse_int start) schema_run)
