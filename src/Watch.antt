-- ===== src/Watch.antt =====
-- lytecache-go/events.go: subscriptions, their state and what a poll reads. Durations are
-- nanoseconds.
pub mod Gap
pub mod Fetch
pub mod Stream
pub mod History
pub mod Views
pub mod Parts
pub mod Delivery
pub mod Poller
pub mod Open
pub mod Start
pub mod Progress
use lytecache.Common.{
  ℕ, zero, suc, ◌+◌, ◌-◌, ◌*◌, String, Bool, true, false, ◌&&◌, ◌||◌, Option, none, some, List, [],
  ◌∷◌, ◌++◌, map, ltb, ◌==◌, if◌then◌else◌, ℤ, pos, negsuc, pos_part, leb_ℤ, ltb_ℤ, length, take,
  str_eq,
}
use lytecache.Errors.{
  Error, Result, ok, err, gap as error_gap, subscription_closed, invalid_argument,
}
use lytecache.Strconv.{Bytes}
use lytecache.Value.{Codec, Dest, Decoded, decode_into, same_bytes, type_json}
use lytecache.World.{
  World, M, Cache, Db, EventRow, ◌>>=◌, ◌>>◌, pure, lift, attempt, get_cache, set_cache, call,
  next_fault, query,
}
use lytecache.Events.{ensure_events}
use lytecache.Events.Filter.{codes, Filter, channel_filter, filter_holds}

pub record Event : Type 0 where
  pub seq : ℕ
  pub channel : String
  pub namespace : String
  pub created_at : ℤ
  pub payload : Option Bytes
  pub value_type : ℕ
  pub null : Bool

-- payload == nil || (vt == typeJSON && string(payload) == "null")
pub is_null : Option Bytes → ℕ → Bool
is_null none code = true
is_null (some d) code = code == type_json && same_bytes d (b'n' ∷ b'u' ∷ b'l' ∷ b'l' ∷ [])

unfoldable pub scan_event : EventRow → Event
scan_event r = record {
  seq = r.seq;
  channel = r.channel;
  namespace = r.namespace;
  created_at = r.created_at;
  payload = r.payload;
  value_type = r.value_type;
  null = is_null r.payload r.value_type;
}

or_no_bytes : Option Bytes → Bytes
or_no_bytes none = []
or_no_bytes (some d) = d

-- Event.Decode: `none` for a null payload, which leaves the destination as it is.
decode : Codec → Event → Dest → Result (Option Decoded)
unfolding or_no_bytes
decode lib e dest =
    if e.null then ok none else elim (decode_into lib (or_no_bytes e.payload) e.value_type dest) [
      | ok v ↦ ok (some v)
      | err x ↦ err x
    ]

pub record GapError : Type 0 where
  pub requested_seq : ℕ
  pub oldest_seq : ℕ
  pub resume_seq : ℕ
  pub ahead : Bool

unfoldable pub new_gap : ℕ → ℕ → Bool → GapError
new_gap requested oldest ahead = record {
  requested_seq = requested;
  oldest_seq = oldest;
  resume_seq = oldest - 1;
  ahead = ahead;
}

-- SELECT min(seq) FROM events
pub min_seq : List EventRow → Option ℕ
min_seq [] = none
min_seq (e ∷ es) = elim (min_seq es) [
  | none ↦ some e.seq
  | some n ↦ some (if ltb e.seq n then e.seq else n)
]

-- The counter is 0 where sqlite_sequence has no row for the table.
abbrev pub last_assigned_seq : M ℕ
last_assigned_seq = query (λ d. d.last_seq)

unfoldable pub or_next : Option ℕ → ℕ → ℕ
or_next none last = last + 1
or_next (some oldest) last = oldest

unfoldable pub lost_before : ℕ → ℕ → Option GapError
unfolding new_gap
lost_before cursor o = if ltb cursor (o - 1) then some (new_gap cursor o false) else none

unfoldable pub gap_check : ℕ → M (Option GapError)
unfolding new_gap min_seq or_next lost_before
gap_check cursor = do
  last ← last_assigned_seq
  if ltb last cursor then pure (some (new_gap cursor (last + 1) true)) else do
    oldest ← query (λ d. min_seq d.events)
    pure (lost_before cursor (or_next oldest last))

-- Begin, then the body; the Rollback at the end undoes nothing.
abbrev pub read_tx : {A : Type 0} → M A → M A
read_tx m = call m

-- Where the poller's goroutine is: about to fetch, with the rest of a batch to hand over (and its
-- whole length, and whether the fetch failed), in the wait between polls, or returned.
pub data Phase : Type 0 where
  polling sleeping ended : Phase
  delivering : List Event → ℕ → Bool → Phase

-- `queue` is the events channel, of capacity 256; it is closed in the phase `ended`. `stopped` says
-- that the stop channel is closed. `interval` is the local variable of `run`.
pub record Subscription : Type 0 where
  pub id : ℕ
  pub namespace : String
  pub patterns : List String
  pub filter : Filter
  pub cursor : ℕ
  pub poll_interval : ℕ
  pub interval : ℕ
  pub queue : List Event
  pub last_seq : ℕ
  pub error : Option GapError
  pub stopped : Bool
  pub phase : Phase

abbrev pub events_batch : ℕ
events_batch = 500

abbrev pub subscription_queue : ℕ
subscription_queue = 256

abbrev pub max_idle_interval : ℕ
max_idle_interval = 1000000000

abbrev pub default_poll : ℤ
default_poll = pos 50000000

-- seq > ? AND namespace = ? AND filter
unfoldable pub is_wanted : ℕ → String → Filter → EventRow → Bool
is_wanted cursor ns f e =
    ltb cursor e.seq && (str_eq e.namespace ns && filter_holds f (codes e.channel))

unfoldable pub select_events : (EventRow → Bool) → List EventRow → List EventRow
select_events p [] = []
select_events p (e ∷ es) = let rest = select_events p es in if p e then e ∷ rest else rest

-- What fetch returns: the events, the gap, and whether there was an error.
pub record Fetched : Type 0 where
  pub batch : List Event
  pub gap : Option GapError
  pub failed : Bool

-- rows.Next until the driver fails; what was scanned before stays in the batch.
unfoldable pub scan_rows : List EventRow → M Fetched
scan_rows [] = do bad ← next_fault; pure (record { batch = []; gap = none; failed = bad })
scan_rows (r ∷ rs) = do
  bad ← next_fault
  let rest = scan_rows rs
  if bad
      then pure (record { batch = []; gap = none; failed = true })
      else do f ← rest; pure (record f { batch = scan_event r ∷ f.batch })

read_batch : Subscription → Option GapError → M Fetched
unfolding is_wanted select_events scan_rows
read_batch s (some g) = pure (record { batch = []; gap = some g; failed = false })
read_batch s none = do
  rows ←
      query
        (λ d. take events_batch (select_events (is_wanted s.cursor s.namespace s.filter) d.events))
  scan_rows rows

or_failed : Result Fetched → Fetched
or_failed (ok f) = f
or_failed (err e) = record { batch = []; gap = none; failed = true }

-- The gap check and the batch read in one read transaction.
unfoldable pub fetch : Subscription → M Fetched
unfolding gap_check read_batch or_failed
fetch s = do r ← attempt (read_tx (do g ← gap_check s.cursor; read_batch s g)); pure (or_failed r)
