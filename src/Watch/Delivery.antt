-- ===== src/Watch/Delivery.antt =====
-- Runs of a subscription beside publishers, the retention and its consumer, and what they deliver.
use lytecache.Common.{
  ℕ, ◌+◌, ◌≤◌, ◌<◌, arith, ltb, ◌&&◌, String, Bool, true, ◌≡◌, refl, ap, ◌∙◌, inl, inr, some, List,
  [], ◌∷◌, ◌++◌, ℤ,
}
use lytecache.Errors.{ok}
use lytecache.World.{World, Db, EventRow}
use lytecache.World.Ends.{Ends-ok}
use lytecache.Events.{Encoded, new_event, append_event, delete_events, on_events}
use lytecache.Watch.{Event, Subscription, polling, scan_event, is_wanted}
use lytecache.Watch.Gap.{IsHistory}
use lytecache.Watch.Stream.{stream, stream_to, All-select_events}
use lytecache.Watch.History.{delete_events-IsHistory}
use lytecache.Watch.Poller.{poll, deliver, wake_up, notice_stop, next, request_stop}
use lytecache.Watch.Views.{
  View, view, batch_left, Delivers, Polled, wake_up-Quiet, notice_stop-Quiet, deliver-Delivers,
  next-Taken, poll-Ends,
}
use lytecache.Watch.Parts.{
  Parted, Parted-quiet, Parted-loaded, Parted-passed, Parted-taken, Parted-database,
  Parted-published, Parted-stream_to,
}

-- `log` holds all events that were ever published to the file, and `given` those that the consumer
-- has taken, in their order.
pub record System : Type 0 where
  pub world : World
  pub sub : Subscription
  pub log : List EventRow
  pub given : List Event

abbrev with_db : System → Db → World
with_db x d = record x.world { db = d }

-- One event is inserted, a batch of the retention runs, anything else happens to the state that
-- leaves the events; or the subscription takes one of its steps.
pub data Step (x : System) : System → Type 0 where
  published :
      (ns : String) (now : ℤ) (e : Encoded)
      → Step x (record x {
        world = with_db x (append_event ns now e x.world.db).0;
        log = x.log ++ new_event ns now e (x.world.db.last_seq + 1) ∷ [];
      })
  retired :
      (n bound : ℕ)
      → Step x (record x { world = with_db x (on_events (delete_events n bound) x.world.db).0 })
  elsewhere :
      (w : World)
      → w.db.events ≡ x.world.db.events
      → w.db.last_seq ≡ x.world.db.last_seq
      → Step x (record x { world = w })
  polled :
      (s : Subscription) (w : World)
      → x.sub.phase ≡ polling
      → poll x.sub x.world ≡ (ok s, w)
      → Step x (record x { world = w; sub = s })
  delivered : (s : Subscription) → deliver x.sub ≡ some s → Step x (record x { sub = s })
  woken : (s : Subscription) → wake_up x.sub ≡ some s → Step x (record x { sub = s })
  stop_seen : (s : Subscription) → notice_stop x.sub ≡ some s → Step x (record x { sub = s })
  closing : Step x (record x { sub = request_stop x.sub })
  taken :
      (e : Event) (s : Subscription)
      → next x.sub ≡ some (ok e, s)
      → Step x (record x { sub = s; given = x.given ++ e ∷ [] })

-- Any number of steps.
pub data Steps (x : System) : System → Type 0 where
  done : Steps x x
  more : {y z : System} → Steps x y → Step y z → Steps x z

-- A subscription that has begun: nothing is fetched, and its cursor is not ahead of the counter.
pub record Begins (x : System) : Type 0 where
  pub history : IsHistory x.log x.world.db
  pub within : x.sub.cursor ≤ x.world.db.last_seq
  pub queue : x.sub.queue ≡ []
  pub left : batch_left x.sub.phase ≡ []
  pub given : x.given ≡ []

abbrev IsParted : ℕ → System → Type 0
IsParted start x = Parted start x.log x.world.db x.given (view x.sub)

move :
    {start : ℕ} {log : List EventRow} {d : Db} {given : List Event} (u v : View)
    → v ≡ u
    → Parted start log d given u
    → Parted start log d given v
move u v e p = rw e p

deliver-Parted :
    {start : ℕ} {log : List EventRow} {d : Db} {given : List Event} (s t : Subscription)
    (left : List Event)
    → batch_left s.phase ≡ left
    → Delivers s left t
    → Parted start log d given (view s)
    → Parted start log d given (view t)
deliver-Parted s t [] e h p = move _ _ h (Parted-quiet p)
deliver-Parted s t (x ∷ rest) e h p = move _ _ h (Parted-passed p x rest e)

poll-Parted :
    {start : ℕ} {log : List EventRow} {d : Db} {given : List Event} (s t : Subscription)
    → Polled d s t
    → Parted start log d given (view s)
    → Parted start log d given (view t)
poll-Parted s t (inl q) p = move _ _ q (Parted-quiet p)
poll-Parted s t (inr (v, batch, rest, e, q)) p = move _ _ q (Parted-loaded p batch rest v e)

pub other-IsHistory :
    (log : List EventRow) (d d' : Db)
    → d'.events ≡ d.events
    → d'.last_seq ≡ d.last_seq
    → IsHistory log d
    → IsHistory log d'
other-IsHistory log d d' e l h = record {
  gone = h.gone;
  split = rw e h.split;
  rising = h.rising;
  below = rw l h.below;
}

Step-IsParted : {start : ℕ} {x y : System} → Step x y → IsParted start x → IsParted start y
unfolding request_stop
Step-IsParted (published ns now e) p = Parted-published p ns now e
Step-IsParted (retired n bound) p =
    Parted-database p _ (delete_events-IsHistory n bound _ _ p.history) refl
Step-IsParted (elsewhere w a b) p = Parted-database p _ (other-IsHistory _ _ w.db a b p.history) b
Step-IsParted {x = x} (polled s w e h) p =
    let (k, q) = Ends-ok (poll-Ends x.world x.sub) h in rw k.0 (poll-Parted x.sub s q p)
Step-IsParted {x = x} (delivered s h) p =
    deliver-Parted x.sub s _ refl (deliver-Delivers x.sub s h) p
Step-IsParted {x = x} (woken s h) p = move _ _ (wake_up-Quiet x.sub s h) (Parted-quiet p)
Step-IsParted {x = x} (stop_seen s h) p = move _ _ (notice_stop-Quiet x.sub s h) (Parted-quiet p)
Step-IsParted closing p = p
Step-IsParted {x = x} (taken e s h) p =
    let (rest, q, v) = next-Taken x.sub s e h in move _ _ v (Parted-taken p e rest q)

Steps-IsParted : {start : ℕ} {x y : System} → Steps x y → IsParted start x → IsParted start y
Steps-IsParted done p = p
Steps-IsParted (more r s) p = Step-IsParted s (Steps-IsParted r p)

after_and : (c n : ℕ) (b : Bool) → (ltb c n && b) ≡ true → c < n
after_and c n b h = ground (arith, h)

begin-IsParted : (x : System) → Begins x → IsParted x.sub.cursor x
unfolding is_wanted scan_event
begin-IsParted x b = record {
  history = b.history;
  later = stream x.sub.cursor x.sub.namespace x.sub.filter x.log;
  tail = stream x.sub.cursor x.sub.namespace x.sub.filter x.log;
  split = rw (b.given, b.queue) refl;
  seen = rw (b.given, b.queue) tt;
  unseen =
      All-select_events _ (λ e. x.sub.cursor < e.seq)
        (is_wanted x.sub.cursor x.sub.namespace x.sub.filter) x.log
        (λ e h k. after_and x.sub.cursor e.seq _ h) b.history.below;
  begun = omega arith;
  reached = b.within;
  pending = rw b.left refl;
}

abbrev SameWatch : Subscription → Subscription → Type 0
SameWatch s t = (t.namespace ≡ s.namespace) × (t.filter ≡ s.filter)

view-SameWatch :
    (s t : Subscription) (v : View)
    → view t ≡ v
    → v.namespace ≡ s.namespace
    → v.filter ≡ s.filter
    → SameWatch s t
view-SameWatch s t v e n f =
    (ap (λ (u : View). u.namespace) e ∙ n, ap (λ (u : View). u.filter) e ∙ f)

deliver-SameWatch : (s t : Subscription) (left : List Event) → Delivers s left t → SameWatch s t
deliver-SameWatch s t [] h = view-SameWatch s t _ h refl refl
deliver-SameWatch s t (e ∷ rest) h = view-SameWatch s t _ h refl refl

poll-SameWatch : (d : Db) (s t : Subscription) → Polled d s t → SameWatch s t
poll-SameWatch d s t (inl q) = view-SameWatch s t _ q refl refl
poll-SameWatch d s t (inr (v, batch, rest, e, q)) = view-SameWatch s t _ q refl refl

Step-SameWatch : {x y : System} → Step x y → SameWatch x.sub y.sub
unfolding request_stop
Step-SameWatch (published ns now e) = (refl, refl)
Step-SameWatch (retired n bound) = (refl, refl)
Step-SameWatch (elsewhere w a b) = (refl, refl)
Step-SameWatch {x = x} (polled s w e h) =
    poll-SameWatch x.world.db x.sub s (Ends-ok (poll-Ends x.world x.sub) h).1
Step-SameWatch {x = x} (delivered s h) = deliver-SameWatch x.sub s _ (deliver-Delivers x.sub s h)
Step-SameWatch {x = x} (woken s h) = view-SameWatch x.sub s _ (wake_up-Quiet x.sub s h) refl refl
Step-SameWatch {x = x} (stop_seen s h) =
    view-SameWatch x.sub s _ (notice_stop-Quiet x.sub s h) refl refl
Step-SameWatch closing = (refl, refl)
Step-SameWatch {x = x} (taken e s h) =
    let (rest, q, v) = next-Taken x.sub s e h in view-SameWatch x.sub s _ v refl refl

Steps-SameWatch : {x y : System} → Steps x y → SameWatch x.sub y.sub
Steps-SameWatch done = (refl, refl)
Steps-SameWatch (more r s) =
    let (a, b) = Steps-SameWatch r in let (c, d) = Step-SameWatch s in (c ∙ a, d ∙ b)

-- However publishers, the retention, failing reads, wake-ups and the consumer interleave with its
-- poller: what a subscription has handed over is, in order and each once, exactly the events ever
-- published that match it and whose number is greater than its first cursor and at most its present one.
pub Steps-stream_to :
    (x y : System)
    → Begins x
    → Steps x y
    → y.given ++ y.sub.queue
      ≡ stream_to x.sub.cursor y.sub.cursor x.sub.namespace x.sub.filter y.log
Steps-stream_to x y b r =
    let (n, f) = Steps-SameWatch r in
    rw (← n, ← f) (Parted-stream_to (view y.sub) (Steps-IsParted r (begin-IsParted x b)))
