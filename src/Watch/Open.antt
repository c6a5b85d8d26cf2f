-- ===== src/Watch/Open.antt =====
-- lytecache-go/events.go: Watch, which checks its arguments and opens a subscription.
use lytecache.Common.{
  ℕ, zero, suc, ◌-◌, String, Bool, false, Option, none, some, List, [], ◌∷◌, map, ltb,
  if◌then◌else◌, ℤ, pos, pos_part, leb_ℤ, ltb_ℤ,
}
use lytecache.Errors.{Result, ok, err, invalid_argument}
use lytecache.World.{M, Cache, ◌>>=◌, ◌>>◌, pure, lift, get_cache, set_cache, call, query}
use lytecache.Events.{ensure_events}
use lytecache.Events.Filter.{codes, Filter, channel_filter}
use lytecache.Watch.{
  GapError, Subscription, Phase, polling, ended, min_seq, last_assigned_seq, gap_check, read_tx,
  default_poll,
}

pub record WatchOptions : Type 0 where
  pub from_seq : Option ℤ
  pub poll_interval : ℤ

-- watchOptions before the options are applied
abbrev pub default_options : WatchOptions
default_options = record { from_seq = none; poll_interval = default_poll }

unfoldable pub check_patterns : List String → Result (Unit {0})
check_patterns [] = err invalid_argument
check_patterns (p ∷ ps) = ok tt

unfoldable pub check_options : WatchOptions → Result (Unit {0})
check_options o = if leb_ℤ o.poll_interval (pos 0) then err invalid_argument else elim o.from_seq [
  | none ↦ ok tt
  | some n ↦ if ltb_ℤ n (pos 0) then err invalid_argument else ok tt
]

unfoldable pub before_oldest : ℕ → Option ℕ → ℕ
before_oldest last none = last
before_oldest last (some oldest) = oldest - 1

-- Where the subscription starts: at the end, before what is retained, or after the seq given.
unfoldable pub find_start : Option ℤ → M (ℕ × Option GapError)
unfolding before_oldest
find_start none = do last ← last_assigned_seq; pure (last, none)
find_start (some (pos zero)) = do
  last ← last_assigned_seq
  oldest ← query (λ d. min_seq d.events)
  pure (before_oldest last oldest, none)
find_start (some n) = do
  last ← last_assigned_seq
  gap ← gap_check (pos_part n)
  pure (pos_part n, gap)

-- An identity that no registered subscription has.
unfoldable pub fresh_id : List (ℕ × Bool) → ℕ
fresh_id [] = 0
fresh_id ((j, w) ∷ subs) = let n = fresh_id subs in if ltb j n then n else suc j

-- The goroutine is started unless there is a gap already.
unfoldable pub first_phase : Option GapError → Phase
first_phase none = polling
first_phase (some g) = ended

unfoldable pub new_subscription :
    Cache → List String → Filter → WatchOptions → ℕ × Option GapError → Subscription
unfolding fresh_id first_phase
new_subscription c patterns f o start = record {
  id = fresh_id c.wakes;
  namespace = c.namespace;
  patterns = patterns;
  filter = f;
  cursor = start.0;
  poll_interval = pos_part o.poll_interval;
  interval = pos_part o.poll_interval;
  queue = [];
  last_seq = start.0;
  error = start.1;
  stopped = false;
  phase = first_phase start.1;
}

unfoldable pub register : Subscription → M (Unit {0})
register s = set_cache (λ c. record c { wakes = (s.id, false) ∷ c.wakes })

unfoldable pub watch : List String → WatchOptions → M Subscription
unfolding check_patterns check_options find_start new_subscription register
watch patterns o = do
  lift (check_patterns patterns)
  f ← lift (channel_filter (map codes patterns))
  lift (check_options o)
  ensure_events
  opened ← call (pure tt)
  start ← read_tx (find_start o.from_seq)
  c ← get_cache
  register (new_subscription c patterns f o start)
  pure (new_subscription c patterns f o start)
