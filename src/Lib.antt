-- ===== src/Lib.antt =====
-- lytecache: an embedded key-value cache in one SQLite file, with namespaces, expiry, eviction,
-- counters, locks and events. This library models the Go package lytecache-go,
-- and of lytecache-cli the login of the web interface.
--
-- The parts and their files:
--   Value, Strconv   lytecache-go/serialize.go: type codes, encodeValue and decodeInto
--   Errors           lytecache-go/errors.go
--   Table            lytecache-go/schema.go: the `cache` table as a list of rows, and the shapes of
--                    SQL statement that the sources run. Table.Trace is the step relation of
--                    statements; Table.Fading are those that only take rows away
--   World            lytecache-go/cache.go: the `Cache` struct, the database and the environment. A
--                    method is an action on this state; World.Rules, World.Safe and World.Ends give
--                    rules for the actions' statements, their errors and their results
--   Open             lytecache-go/cache.go: the options of New, the set-up of the schema with its
--                    retry (Open.Schema), Limits and Close
--   Events           lytecache-go/events.go: Notify, NotifyMany, the channel filter, the retention
--   Watch            lytecache-go/events.go: reading events, the gap check and the fields of a
--                    subscription. Watch.Poller is its loop, one function for each step; Watch.Open is
--                    Watch itself; Watch.Delivery is the step relation of a poller, its consumer, the
--                    publishers and the retention
--   Retained         lytecache-go/events.go and lytecache-go/events_admin.go: EventStats,
--                    RecentEvents, the listing of channels and the deletion of events
--   Cursors          lytecache-go/events.go and lytecache-go/events_admin.go: stored cursors
--   Changes          lytecache-go/changes.go: change records and the listeners' dispatcher
--   Sweep            lytecache-go/sweep.go: read bookkeeping, removal of expired rows, eviction
--   Kv, Bulk         lytecache-go/kv.go: operations on one key and on many
--   Ttl              lytecache-go/ttl.go and lytecache-go/inspect.go
--   Counters         lytecache-go/counters.go
--   Json             lytecache-go/hash.go: the ordered JSON object
--   Hash             lytecache-go/hash.go: loading and writing a hash and the fallback rmwHash;
--                    Hash.Writes, Hash.Counts and Hash.Reads are the operations
--   Lock             lytecache-go/lock.go
--   Keys             lytecache-go/keys.go
--   Admin            lytecache-go/stats.go, lytecache-go/namespaces.go, lytecache-go/memoize.go
--   Ui               the login of the web interface. Ui.Session and Ui.Logout:
--                    lytecache-cli/cmd/lytecache/ui/session.go, session cookies; Ui.Limiter and
--                    Ui.Backoff: lytecache-cli/cmd/lytecache/ui/ratelimit.go, the limiter of failed
--                    logins; Ui.Guard and Ui.Admission: lytecache-cli/cmd/lytecache/ui/auth.go, what is
--                    checked at the start and on each request
--   Api              the methods but those of Hash, Watch, Cursors and Retained as one type of calls,
--                    and runs of calls
--   Tests            a small cache on which the theorems are applied
--
-- How the parts interact: every operation of Kv, Bulk, Counters and Keys that writes reports to
-- Changes (`changed`), which hands a record to the dispatcher and may publish it through Events
-- (`insert_events`); it then evicts and sweeps through Sweep. Reads buffer their access in Sweep
-- (`buffer_lru`). Lock is Add of Kv with a token; Memoize is Get and Set. A hash is a row of type
-- JSON, which Hash reads and writes in one transaction. What Events inserts is what a subscription of
-- Watch reads; a publisher wakes the pollers of its process, and the retention of Events takes away
-- events that a slow subscription then misses.
--
-- What is assumed of the code that is not in this repository. A SQL statement fails as a whole and
-- changes nothing, or does what its text says and reports the rows affected; a query fails before
-- its first row. A COMMIT that fails undoes its transaction, also in inImmediate, which issues no
-- ROLLBACK then. A LIMIT without an order takes the rows that stand first. Which calls of the driver
-- fail is given by the environment, as are the readings of the clock (in milliseconds) and the rows
-- that RANDOM() picks. A []byte that is nil, which the driver would store as NULL, is left out. strconv
-- on floats, Go's conversions to float32 and from int64 to float64, encoding/json, SQLite's JSON
-- functions, fmt.Sscan, GLOB, SQLite's sum of two texts, HMAC, base64 and the parser of network
-- addresses are parameters. strings.ToLower is that of ASCII. A Go map is walked in the order of a list.
--
-- Bounds and fuel: enforceCapacity makes at most a million passes, as in the source, and each pass
-- that goes on removes a row. removeExpiredBatch and the event retention run on as much fuel as there
-- are rows and one more, and each full batch removes rows. A listing runs on the number of rows and
-- one more, and each full page moves past its keys. The polling loop of a lock runs on the list of
-- what others do between its rounds. The deletion of events in batches runs on the number of events
-- and one more. Fields of a hash are set in groups of the source's size, on the number of fields. The
-- set-up of the schema is tried 25 times, as in the source.
--
-- Not modelled: opening the file, its pragmas and permissions, paths, logging, and under
-- lytecache-cli the command line and the rest of the web interface, with the attributes of its cookies
-- and the hashing of passwords. The goroutines of the sweeper, the dispatcher and a subscription
-- are their rounds and steps, with the lengths of their waits left out. Among the steps of
-- Watch.Delivery are publishing and the retention, but not the deletion of events by an
-- administrator. The runs of calls in Api have no call of Hash, Watch, Cursors or Retained. The other
-- language packages are separate programs.
pub mod Common
pub mod Errors
pub mod Strconv
pub mod Value
pub mod Table
pub mod World
pub mod Open
pub mod Events
pub mod Watch
pub mod Retained
pub mod Cursors
pub mod Changes
pub mod Sweep
pub mod Kv
pub mod Bulk
pub mod Ttl
pub mod Counters
pub mod Json
pub mod Hash
pub mod Lock
pub mod Keys
pub mod Admin
pub mod Ui
pub mod Api
pub mod Tests
