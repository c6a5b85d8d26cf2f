-- ===== src/Events.antt =====
-- lytecache-go/events.go: publishing events, and the retention that the sweeper applies.
pub mod Filter
pub mod Rows
pub mod Order
pub mod Published
pub mod Safe
use lytecache.Common.{
  ℕ, zero, suc, ◌+◌, ◌-◌, ◌/◌, ◌<◌, String, Bool, true, false, not, ◌&&◌, ◌||◌, Option, none, some,
  List, [], ◌∷◌, ◌++◌, map, ltb, leb, ◌==◌, if◌then◌else◌, ℤ, pos, negsuc, pos_part, ◌-ℤ◌, leb_ℤ,
  ltb_ℤ, wrap64, length, get_elem?, str_eq, is_some,
}
use mathlib.Core.List.{reverse}
use lytecache.Errors.{Error, Result, ok, err, invalid_argument}
use lytecache.Strconv.{Bytes}
use lytecache.Value.{Value, encode_value, Codec}
use lytecache.World.{
  World, M, Cache, Db, EventRow, ◌>>=◌, ◌>>◌, pure, raise, lift, attempt, get_cache, get_env,
  get_db, set_cache, now_millis, query, exec, in_tx,
}
use lytecache.Events.Filter.{validate_channel}

pub record Notification : Type 0 where
  pub channel : String
  pub payload : Value

-- A notification whose payload is encoded: the `row` type inside insertEvents.
pub record Encoded : Type 0 where
  pub channel : String
  pub payload : Bytes
  pub value_type : ℕ

-- INSERT OR IGNORE INTO meta
unfoldable pub insert_or_ignore : String → Bytes → List (String × Bytes) → List (String × Bytes)
insert_or_ignore k v [] = (k, v) ∷ []
insert_or_ignore k v ((j, w) ∷ m) =
    if str_eq j k then (j, w) ∷ m else (j, w) ∷ insert_or_ignore k v m

-- eventsDDL
pub create_events : Db → Db × ℕ
create_events d = (
  record d { events_table = true; meta = insert_or_ignore "events_version" (b'1' ∷ []) d.meta },
  0,
)

-- time.Duration.Milliseconds(): the quotient of the nanoseconds, rounded towards zero
unfoldable pub milliseconds : ℤ → ℤ
milliseconds (pos n) = pos (n / 1000000)
milliseconds (negsuc n) = pos 0 -ℤ pos (suc n / 1000000)

-- c.eventsReady.Store(true)
mark_ready : M (Unit {0})
mark_ready = set_cache (λ c. record c { events_ready = true })

unfoldable pub ensure_events : M (Unit {0})
unfolding create_events mark_ready
ensure_events = do
  c ← get_cache
  if c.events_ready then pure tt else do exec create_events; mark_ready

-- A failed query and an absent table both read as "no events".
noticed : Result Bool → M Bool
unfolding mark_ready
noticed (ok true) = do mark_ready; pure true
noticed (ok false) = pure false
noticed (err e) = pure false

unfoldable pub events_exist : M Bool
unfolding noticed
events_exist = do
  c ← get_cache
  if c.events_ready
      then pure true
      else do found ← attempt (query (λ d. d.events_table)); noticed found

unfoldable pub new_event : String → ℤ → Encoded → ℕ → EventRow
new_event ns now e seq = record {
  seq = seq;
  channel = e.channel;
  namespace = ns;
  payload = some e.payload;
  value_type = e.value_type;
  created_at = now;
}

-- One row, with the seq that AUTOINCREMENT gives it. LastInsertId is that seq.
unfoldable pub append_event : String → ℤ → Encoded → Db → Db × ℕ
unfolding new_event
append_event ns now e d =
    let seq = d.last_seq + 1 in
    (record d { events = d.events ++ new_event ns now e seq ∷ []; last_seq = seq }, seq)

unfoldable pub insert_rows : String → ℤ → List Encoded → M (List ℕ)
unfolding append_event
insert_rows ns now [] = pure []
insert_rows ns now (e ∷ rows) = do
  id ← exec (append_event ns now e)
  ids ← insert_rows ns now rows
  pure (id ∷ ids)

unfoldable pub encode_all : Codec → List Notification → Result (List Encoded)
encode_all lib [] = ok []
encode_all lib (n ∷ rest) = elim (encode_value lib n.payload) [
  | err e ↦ err e
  | ok (d, t) ↦ elim (encode_all lib rest) [
    | err e ↦ err e
    | ok rows ↦ ok ((record { channel = n.channel; payload = d; value_type = t }) ∷ rows)
  ]
]

-- s.poke() for every subscription of this Cache
unfoldable pub poke_all : M (Unit {0})
poke_all = set_cache (λ c. record c { wakes = map (λ s. (s.0, true)) c.wakes })

insert_alone : String → ℤ → List Encoded → M (List ℕ)
insert_alone ns now rows =
    if length rows == 1 then insert_rows ns now rows else in_tx (insert_rows ns now rows)

unfoldable pub insert_events : List Notification → M (List ℕ)
unfolding insert_alone
insert_events events = do
  env ← get_env
  rows ← lift (encode_all env.codec events)
  ensure_events
  now ← now_millis
  c ← get_cache
  seqs ← insert_alone c.namespace now rows
  poke_all
  pure seqs

first_seq : List ℕ → ℕ
first_seq [] = 0
first_seq (n ∷ ns) = n

pub notify : String → Value → M ℕ
unfolding first_seq
notify channel payload = do
  lift (validate_channel channel)
  seqs ← insert_events ((record { channel = channel; payload = payload }) ∷ [])
  pure (first_seq seqs)

unfoldable validate_all : List Notification → Result (Unit {0})
validate_all [] = ok tt
validate_all (n ∷ rest) = elim (validate_channel n.channel) [
  | err e ↦ err e
  | ok u ↦ validate_all rest
]

no_events : List Notification → Bool
no_events [] = true
no_events (n ∷ rest) = false

pub notify_many : List Notification → M (List ℕ)
unfolding no_events
notify_many events = do
  lift (validate_all events)
  if no_events events then pure [] else insert_events events

-- SELECT max(seq) … WHERE created_at <= cutoff
unfoldable max_seq_before : ℤ → List EventRow → Option ℕ
max_seq_before cutoff [] = none
max_seq_before cutoff (e ∷ es) = elim (max_seq_before cutoff es) [
  | some n ↦ some (if leb_ℤ e.created_at cutoff && ltb n e.seq then e.seq else n)
  | none ↦ if leb_ℤ e.created_at cutoff then some e.seq else none
]

-- SELECT seq … ORDER BY seq DESC LIMIT 1 OFFSET n, of rows that stand in the order of their seq
unfoldable seq_at_offset : ℕ → List EventRow → Option ℕ
seq_at_offset n es = get_elem? (map (λ e. e.seq) (reverse es)) n

-- the larger of the two bounds
unfoldable wider_bound : Option ℕ → Result (Option ℕ) → Option ℕ
wider_bound bound (ok (some cap)) = elim bound [
  | none ↦ some cap
  | some b ↦ if ltb b cap then some cap else some b
]
wider_bound bound _ = bound

-- DELETE … WHERE seq IN (SELECT seq … WHERE seq <= bound ORDER BY seq LIMIT n)
unfoldable pub delete_events : ℕ → ℕ → List EventRow → List EventRow × ℕ
delete_events zero bound es = (es, 0)
delete_events (suc n) bound [] = ([], 0)
delete_events (suc n) bound (e ∷ es) = elim (leb e.seq bound) [
  | true ↦ let rest = delete_events n bound es in (rest.0, rest.1 + 1)
  | false ↦ let rest = delete_events (suc n) bound es in (e ∷ rest.0, rest.1)
]

abbrev pub sweep_batch_size : ℕ
sweep_batch_size = 500

abbrev pub on_events : (List EventRow → List EventRow × ℕ) → Db → Db × ℕ
on_events f d = (record d { events = (f d.events).0 }, (f d.events).1)

-- Whether a batched delete is to go on: it has not failed, and n >= sweepBatchSize.
abbrev pub is_full_batch : Result ℕ → Bool
is_full_batch (err e) = false
is_full_batch (ok n) = not (ltb n sweep_batch_size)

-- The loop of sweepEvents; each full batch removes rows, so as much fuel as there are rows is
-- enough.
pub delete_up_to : ℕ → ℕ → M (Unit {0})
delete_up_to zero bound = pure tt
delete_up_to (suc f) bound = do
  r ← attempt (exec (on_events (delete_events sweep_batch_size bound)))
  if is_full_batch r then delete_up_to f bound else pure tt

delete_bound : Option ℕ → M (Unit {0})
delete_bound none = pure tt
delete_bound (some b) = do d ← get_db; delete_up_to (suc (length d.events)) b

cap_bound : Cache → Option ℕ → M (Option ℕ)
cap_bound c bound =
    if ltb_ℤ (pos 0) c.event_max_count
    then (do
      found ← attempt (query (λ d. seq_at_offset (pos_part c.event_max_count) d.events))
      pure (wider_bound bound found))
    else pure bound

apply_retention : Result (Option ℕ) → M (Unit {0})
unfolding cap_bound delete_bound
apply_retention (err e) = pure tt
apply_retention (ok bound) = do c ← get_cache; bound' ← cap_bound c bound; delete_bound bound'

retain : Bool → M (Unit {0})
unfolding apply_retention
retain false = pure tt
retain true = do
  now ← now_millis
  c ← get_cache
  found ←
      attempt
        (query (λ d. max_seq_before (wrap64 (now -ℤ milliseconds c.event_retention)) d.events))
  apply_retention found

-- Retention: everything up to the newest event that is too old, or beyond the count cap.
pub sweep_events : M (Unit {0})
unfolding retain
sweep_events = do exists ← events_exist; retain exists
