-- ===== src/Watch/Poller.antt =====
-- lytecache-go/events.go: the steps of a subscription: those of `run` in the poller's goroutine,
-- those of the consumer (Next, TryNext), and Close. A step is `none` where its goroutine waits.
use lytecache.Common.{
  ℕ, ◌*◌, Bool, true, false, ◌&&◌, not, Option, none, some, List, [], ◌∷◌, ◌++◌, ltb, ◌==◌,
  if◌then◌else◌, length,
}
use lytecache.Errors.{Error, Result, ok, err, gap, subscription_closed}
use lytecache.World.{M, ◌>>=◌, pure, set_cache}
use lytecache.Watch.{
  Event, Subscription, Fetched, Phase, polling, sleeping, ended, delivering, events_batch,
  subscription_queue, max_idle_interval, fetch,
}

-- min and max of two durations
abbrev pub shorter : ℕ → ℕ → ℕ
shorter a b = if ltb a b then a else b

abbrev pub longer : ℕ → ℕ → ℕ
longer a b = if ltb a b then b else a

-- The deferred calls: the channels are closed.
unfoldable pub return_from_run : Subscription → Subscription
return_from_run s = record s { phase = ended }

-- A failed fetch is only logged; a gap ends the subscription; else the batch is handed over.
unfoldable pub take_fetched : Subscription → Fetched → Subscription
unfolding return_from_run
take_fetched s f =
    if f.failed then record s { phase = delivering f.batch (length f.batch) true } else elim f.gap [
      | some g ↦ return_from_run (record s { error = some g })
      | none ↦ record s { phase = delivering f.batch (length f.batch) false }
    ]

-- The top of the loop: the stop channel first, then a fetch.
unfoldable pub poll : Subscription → M Subscription
unfolding take_fetched
poll s = if s.stopped then pure (return_from_run s) else do f ← fetch s; pure (take_fetched s f)

-- s.events <- e: the channel has room for another event.
unfoldable pub hand_over : Subscription → Event → List Event → ℕ → Bool → Option Subscription
hand_over s e rest n bad =
    if ltb (length s.queue) subscription_queue
    then some (record s {
      queue = s.queue ++ e ∷ [];
      cursor = e.seq;
      last_seq = e.seq;
      phase = delivering rest n bad;
    })
    else none

-- After the batch: the next interval, and whether to poll again at once.
unfoldable pub after_batch : Subscription → ℕ → Bool → Subscription
after_batch s n bad =
    if ltb 0 n
    then record s {
      interval = s.poll_interval;
      phase = if n == events_batch then polling else sleeping;
    }
    else if bad
    then record s { phase = sleeping }
    else record s {
      interval = shorter (s.interval * 2) (longer max_idle_interval s.poll_interval);
      phase = sleeping;
    }

unfoldable pub deliver_phase : Subscription → Phase → Option Subscription
unfolding hand_over after_batch
deliver_phase s (delivering (e ∷ rest) n bad) = hand_over s e rest n bad
deliver_phase s (delivering [] n bad) = some (after_batch s n bad)
deliver_phase s _ = none

-- The loop over the batch, one round of it.
unfoldable pub deliver : Subscription → Option Subscription
unfolding deliver_phase
deliver s = deliver_phase s s.phase

unfoldable pub is_sleeping : Phase → Bool
is_sleeping sleeping = true
is_sleeping _ = false

unfoldable pub is_ended : Phase → Bool
is_ended ended = true
is_ended _ = false

-- The timer fires, or the wake channel holds a value.
unfoldable pub wake_up : Subscription → Option Subscription
unfolding is_sleeping
wake_up s = if is_sleeping s.phase then some (record s { phase = polling }) else none

-- <-s.stop in one of the waits of `run`
unfoldable pub notice_stop : Subscription → Option Subscription
unfolding is_ended return_from_run
notice_stop s = if s.stopped && not (is_ended s.phase) then some (return_from_run s) else none

unfoldable pub end_err : Subscription → Error
end_err s = elim s.error [ some g ↦ gap | none ↦ subscription_closed ]

unfoldable pub received : Subscription → List Event → Option (Result Event × Subscription)
unfolding end_err is_ended
received s (e ∷ rest) = some (ok e, record s { queue = rest })
received s [] = if is_ended s.phase then some (err (end_err s), s) else none

-- Next, without its context: the oldest event, the error of a closed channel, or a wait.
unfoldable pub next : Subscription → Option (Result Event × Subscription)
unfolding received
next s = received s s.queue

-- TryNext: no event where Next waits.
pub try_next : Subscription → Result (Option Event) × Subscription
try_next s = elim (next s) [
  | none ↦ (ok none, s)
  | some (ok e, t) ↦ (ok (some e), t)
  | some (err x, t) ↦ (err x, t)
]

-- Close closes the stop channel, once,
unfoldable pub request_stop : Subscription → Subscription
request_stop s = record s { stopped = true }

unfoldable pub unregister : ℕ → List (ℕ × Bool) → List (ℕ × Bool)
unregister id [] = []
unregister id ((j, w) ∷ subs) =
    let rest = unregister id subs in if j == id then rest else (j, w) ∷ rest

-- and when the goroutine has returned, takes the subscription out of those of the cache.
pub finish_close : Subscription → Option (M (Unit {0}))
unfolding unregister is_ended
finish_close s =
    if is_ended s.phase
    then some (set_cache (λ c. record c { wakes = unregister s.id c.wakes }))
    else none
