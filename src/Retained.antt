-- ===== src/Retained.antt =====
-- lytecache-go/events.go and lytecache-go/events_admin.go: reports on the events that are retained,
-- and their deletion by hand.
use mathlib.Core.List.{reverse}
use lytecache.Common.{
  ℕ, zero, suc, ◌+◌, String, Bool, true, false, not, ◌&&◌, Option, none, some, List, [], ◌∷◌, map,
  take, ltb, leb, ◌==◌, if◌then◌else◌, ℤ, pos, pos_part, leb_ℤ, ltb_ℤ, length, str_eq,
}
use lytecache.Errors.{Error, Result, ok, err, invalid_argument}
use lytecache.Strconv.{Bytes}
use lytecache.World.{M, EventRow, ◌>>=◌, pure, raise, lift, attempt, get_db, query, exec}
use lytecache.Events.{events_exist, sweep_batch_size, is_full_batch, on_events}
use lytecache.Events.Filter.{codes, Filter, everything, channel_filter, filter_holds}
use lytecache.Bulk.{sorted_keys}
use lytecache.Kv.{dedupe}
use lytecache.Watch.{Event, scan_event, min_seq, last_assigned_seq, select_events}

-- SUM(length(payload)), which skips NULL
payload_length : Option Bytes → ℕ
payload_length none = 0
payload_length (some d) = length d

unfoldable pub sum_payload : List EventRow → ℕ
unfolding payload_length
sum_payload [] = 0
sum_payload (e ∷ es) = payload_length e.payload + sum_payload es

-- max(seq)
unfoldable pub max_seq : List EventRow → Option ℕ
max_seq [] = none
max_seq (e ∷ es) = elim (max_seq es) [
  | none ↦ some e.seq
  | some n ↦ some (if ltb n e.seq then e.seq else n)
]

-- min(created_at) and max(created_at), by which of two times is taken
extreme_time : (ℤ → ℤ → Bool) → List EventRow → Option ℤ
extreme_time before [] = none
extreme_time before (e ∷ es) = elim (extreme_time before es) [
  | none ↦ some e.created_at
  | some n ↦ some (if before e.created_at n then e.created_at else n)
]

min_created : List EventRow → Option ℤ
unfolding extreme_time
min_created es = extreme_time ltb_ℤ es

max_created : List EventRow → Option ℤ
unfolding extreme_time
max_created es = extreme_time (λ a b. ltb_ℤ b a) es

seq_or_zero : Option ℕ → ℕ
seq_or_zero none = 0
seq_or_zero (some n) = n

pub record EventInfo : Type 0 where
  pub enabled : Bool
  pub count : ℕ
  pub oldest_seq : ℕ
  pub newest_seq : ℕ
  pub oldest_at : Option ℤ
  pub newest_at : Option ℤ
  pub payload_bytes : ℕ

abbrev no_info : EventInfo
no_info = record {
  enabled = false;
  count = 0;
  oldest_seq = 0;
  newest_seq = 0;
  oldest_at = none;
  newest_at = none;
  payload_bytes = 0;
}

info_of : ℕ → List EventRow → EventInfo
unfolding min_created max_created seq_or_zero
info_of last es = record {
  enabled = true;
  count = length es;
  oldest_seq = seq_or_zero (min_seq es);
  newest_seq = last;
  oldest_at = min_created es;
  newest_at = max_created es;
  payload_bytes = sum_payload es;
}

unfoldable pub event_stats : M EventInfo
unfolding info_of
event_stats = do
  exists ← events_exist
  if exists
      then (do es ← query (λ d. d.events); last ← last_assigned_seq; pure (info_of last es))
      else pure no_info

-- The filter of the patterns, or every channel where there are none.
recent_filter : List (List ℕ) → Result Filter
recent_filter [] = ok everything
recent_filter (p ∷ ps) = channel_filter (p ∷ ps)

-- The newest `limit` rows, oldest of them first; or the first `limit` after a seq.
unfoldable pub recent_rows : ℕ → ℤ → Filter → List EventRow → List EventRow
recent_rows limit after f es =
    if ltb_ℤ after (pos 0)
    then reverse (take limit (reverse (select_events (λ e. filter_holds f (codes e.channel)) es)))
    else take limit
        (select_events (λ e. ltb (pos_part after) e.seq && filter_holds f (codes e.channel)) es)

unfoldable pub recent_events : ℤ → ℤ → List String → M (List Event)
unfolding recent_filter
recent_events limit after patterns = do
  exists ← events_exist
  if not exists then pure [] else if leb_ℤ limit (pos 0) then pure [] else do
    f ← lift (recent_filter (map codes patterns))
    rows ← query (λ d. recent_rows (pos_part limit) after f d.events)
    pure (map scan_event rows)

pub record ChannelInfo : Type 0 where
  pub channel : String
  pub info : EventInfo

on_channel : String → EventRow → Bool
on_channel channel e = str_eq e.channel channel

-- GROUP BY channel: the totals of the rows on one channel
channel_info : List EventRow → String → ChannelInfo
unfolding info_of on_channel
channel_info es channel =
    let own = select_events (on_channel channel) es in
    record { channel = channel; info = info_of (seq_or_zero (max_seq own)) own }

unfoldable pub by_channel : List EventRow → List ChannelInfo
unfolding channel_info
by_channel es = map (channel_info es) (sorted_keys (dedupe [] (map (λ e. e.channel) es)))

unfoldable pub event_channel_stats : M (List ChannelInfo)
event_channel_stats = do
  exists ← events_exist
  if exists then query (λ d. by_channel d.events) else pure []

unfoldable pub event_count_since : ℤ → M ℕ
event_count_since t = do
  exists ← events_exist
  if exists
      then query (λ d. length (select_events (λ e. leb_ℤ t e.created_at) d.events))
      else pure 0

-- DELETE … WHERE seq IN (SELECT seq … WHERE p ORDER BY seq LIMIT n)
unfoldable pub delete_some : (EventRow → Bool) → ℕ → List EventRow → List EventRow × ℕ
delete_some p zero es = (es, 0)
delete_some p (suc n) [] = ([], 0)
delete_some p (suc n) (e ∷ es) = elim (p e) [
  | true ↦ let rest = delete_some p n es in (rest.0, rest.1 + 1)
  | false ↦ let rest = delete_some p (suc n) es in (e ∷ rest.0, rest.1)
]

-- The rows removed, and the error that ended the batches.
pub record Deleted : Type 0 where
  pub total : ℕ
  pub error : Option Error

batch_result : ℕ → Result ℕ → Deleted
batch_result total (ok n) = record { total = total + n; error = none }
batch_result total (err e) = record { total = total; error = some e }

-- Each full batch removes rows, so as much fuel as there are rows is enough.
unfoldable pub delete_batches : ℕ → (EventRow → Bool) → ℕ → M Deleted
unfolding batch_result
delete_batches zero p total = pure (record { total = total; error = none })
delete_batches (suc f) p total = do
  r ← attempt (exec (on_events (delete_some p sweep_batch_size)))
  let after = batch_result total r
  let rest = delete_batches f p after.total
  if is_full_batch r then rest else pure after

unfoldable pub delete_events_batched : (EventRow → Bool) → M Deleted
delete_events_batched p = do d ← get_db; delete_batches (suc (length d.events)) p 0

unfoldable pub delete_event : ℕ → M Bool
delete_event seq = do
  exists ← events_exist
  if exists
      then (do
        n ← exec (
            on_events (λ es. (
              select_events (λ e. not (e.seq == seq)) es,
              length (select_events (λ e. e.seq == seq) es),
            )))
        pure (not (n == 0)))
      else pure false

abbrev nothing_deleted : Deleted
nothing_deleted = record { total = 0; error = none }

up_to : Option ℕ → M Deleted
up_to none = pure nothing_deleted
up_to (some bound) = delete_events_batched (λ e. leb e.seq bound)

-- everything up to the newest event that is older than t
unfoldable pub delete_events_before : ℤ → M Deleted
unfolding up_to
delete_events_before t = do
  exists ← events_exist
  if exists
      then (do
        bound ← query (λ d. max_seq (select_events (λ e. ltb_ℤ e.created_at t) d.events))
        up_to bound)
      else pure nothing_deleted

unfoldable pub delete_channel_events : String → M Deleted
delete_channel_events channel = if str_eq channel "" then raise invalid_argument else do
  exists ← events_exist
  if exists then delete_events_batched (λ e. str_eq e.channel channel) else pure nothing_deleted
