-- ===== src/Watch/Progress.antt =====
-- A poll that meets no error hands the events on that are there.
use mathlib.Core.List.{append-nil, append_assoc}
use lytecache.Common.{
  ℕ, suc, Bool, true, false, ◌≡◌, refl, sym, ap, ◌∙◌, arith, Option, none, some, List, [], ◌∷◌,
  ◌++◌, map, take, length, ltb, inl, inr,
}
use lytecache.Errors.{Error, Result, ok, Result-cases}
use lytecache.World.{World, M, Db, EventRow, query, call}
use lytecache.World.Ends.{
  Ends, called, Ends-ok, Ends-err, Ends-pure, Ends-if, Ends-bind, Ends-query, Ends-attempt,
  Ends-weaken,
}
use lytecache.World.Calls.{Ends-next_fault}
use lytecache.Watch.{
  Event, GapError, Subscription, Fetched, delivering, scan_event, scan_rows, gap_check, read_batch,
  or_failed, fetch,
}
use lytecache.Watch.Gap.{verdict}
use lytecache.Watch.Fetch.{wanted, fetched_rows}
use lytecache.Watch.Poller.{poll, deliver, next, take_fetched, deliver_phase, hand_over, received}
use lytecache.Watch.Delivery.{System}

-- No call of the driver fails from here on.
abbrev pub Clear : World → Type 0
Clear w = (n : ℕ) → w.env.faults n ≡ false

no_fault : {P : Type 0} (w : World) → Clear w → w.env.faults 0 ≡ true → P
no_fault w c h = ground (arith, c 0, h)

Ends-clear_query :
    {A : Type 0} {w : World} {Q : A → World → Type 0} {E : Error → World → Type 0} (f : Db → A)
    → Clear w
    → Q (f w.db) (called w)
    → Ends w (query f) Q E
Ends-clear_query {w = w} f c h = Ends-query f (λ x. h) (λ x. no_fault w c x)

Ends-clear_call :
    {A : Type 0} {w : World} {Q : A → World → Type 0} {E : Error → World → Type 0} {m : M A}
    → Clear w
    → Ends (called w) m Q E
    → Ends w (call m) Q E
unfolding call
Ends-clear_call {w = w} c h = record { at = rw (c 0) h.at }

scan_rows-Clear :
    (rs : List EventRow) (w : World) {E : Error → World → Type 0}
    → Clear w
    → Ends w (scan_rows rs) (λ f u. f ≡ fetched_rows rs false) E
unfolding scan_rows
scan_rows-Clear [] w c = Ends-bind (Ends-next_fault (Ends-pure _ (rw (c 0) refl)))
scan_rows-Clear (r ∷ rs) w c = Ends-bind (
    Ends-next_fault (
      Ends-if (w.env.faults 0) _ _ (λ x. no_fault w c x)
        (λ x. Ends-bind (
          Ends-weaken (scan_rows-Clear rs (called w) (λ n. c (suc n)))
            (λ f u h. Ends-pure _ (rw h refl)) (λ _ _ h. h)))))

gap_check-Clear :
    (w : World) (cursor : ℕ) {E : Error → World → Type 0}
    → Clear w
    → Ends w (gap_check cursor) (λ g u. (g ≡ verdict cursor w.db) × (u.db ≡ w.db) × Clear u) E
unfolding gap_check verdict
gap_check-Clear w cursor c = Ends-bind (
    Ends-clear_query _ c (
      Ends-if (ltb w.db.last_seq cursor) _ _ (λ y. Ends-pure _ (rw y refl, refl, λ n. c (suc n)))
        (λ y. Ends-bind (
          Ends-clear_query _ (λ n. c (suc n))
            (Ends-pure _ (rw y refl, refl, λ n. c (suc (suc n))))))))

-- what a poll loads
abbrev pub ready : Subscription → World → List Event
ready s w = map scan_event (take 500 (wanted s w.db.events))

read_batch-Clear :
    (w u : World) (s : Subscription) (g : Option GapError) {E : Error → World → Type 0}
    → g ≡ none
    → u.db ≡ w.db
    → Clear u
    → Ends u (read_batch s g) (λ f _. f ≡ fetched_rows (take 500 (wanted s w.db.events)) false) E
unfolding read_batch
read_batch-Clear w u s (some g) h d c = ground (arith, h)
read_batch-Clear w u s none h d c = Ends-bind (
    Ends-clear_query _ c (
      Ends-weaken (scan_rows-Clear _ (called u) (λ n. c (suc n)))
        (λ f v k. k ∙ ap (λ (b : Db). fetched_rows (take 500 (wanted s b.events)) false) d)
        (λ _ _ k. k)))

fetch-Clear :
    (w : World) (s : Subscription) {E : Error → World → Type 0}
    → Clear w
    → verdict s.cursor w.db ≡ none
    → Ends w (fetch s) (λ f _. f ≡ fetched_rows (take 500 (wanted s w.db.events)) false) E
unfolding fetch or_failed
fetch-Clear w s c v = Ends-bind (
    Ends-attempt (
      Ends-clear_call c (
        Ends-bind (
          Ends-weaken (gap_check-Clear (called w) s.cursor (λ n. c (suc n)))
            (λ g u (h, d, k).
              Ends-weaken (read_batch-Clear w u s g (h ∙ v) d k) (λ f x e. Ends-pure _ e)
                (λ _ _ e. e))
            (λ _ _ e. e)))))

abbrev pub with_batch : Subscription → List Event → Subscription
with_batch s batch = record s { phase = delivering batch (length batch) false }

take_fetched-rows :
    (s : Subscription) (f : Fetched) (rows : List EventRow)
    → f ≡ fetched_rows rows false
    → take_fetched s f ≡ with_batch s (map scan_event rows)
unfolding take_fetched
take_fetched-rows s f rows e = ap (take_fetched s) e

poll-Clear :
    (w : World) (s : Subscription) {E : Error → World → Type 0}
    → Clear w
    → s.stopped ≡ false
    → verdict s.cursor w.db ≡ none
    → Ends w (poll s) (λ t _. t ≡ with_batch s (ready s w)) E
unfolding poll
poll-Clear w s c n v =
    Ends-if s.stopped _ _ (λ x. ground (arith, x, n))
      (λ x. Ends-bind (
        Ends-weaken (fetch-Clear w s c v) (λ f u e. Ends-pure _ (take_fetched-rows s f _ e))
          (λ _ _ e. e)))

-- The steps after a poll that the poller and the consumer take by themselves: the hand-over of an event,
-- and a Next that returns one. No further poll, other process or timer has a part in them.
pub data HandOvers (x : System) : System → Type 0 where
  rest_here : HandOvers x x
  then_delivers :
      {y : System} (s : Subscription)
      → HandOvers x y
      → deliver y.sub ≡ some s
      → HandOvers x (record y { sub = s })
  then_takes :
      {y : System} (e : Event) (s : Subscription)
      → HandOvers x y
      → next y.sub ≡ some (ok e, s)
      → HandOvers x (record y { sub = s; given = y.given ++ e ∷ [] })

HandOvers-trans : {x y z : System} → HandOvers x y → HandOvers y z → HandOvers x z
HandOvers-trans r rest_here = r
HandOvers-trans r (then_delivers s t e) = then_delivers s (HandOvers-trans r t) e
HandOvers-trans r (then_takes e s t h) = then_takes e s (HandOvers-trans r t) h

-- Hand-overs lead to a state in which the batch has been taken, with an empty queue.
abbrev pub Drains : System → List Event → Type 0
Drains x batch =
    (y : System) × HandOvers x y
    × (y.given ≡ x.given ++ batch)
    × (y.sub.queue ≡ [])
    × (y.log ≡ x.log)

-- One poll returns, and its batch is taken.
abbrev pub Serves : System → List Event → Type 0
Serves x batch =
    (s : Subscription) × (w : World) × (poll x.sub x.world ≡ (ok s, w))
    × Drains (record x { world = w; sub = s }) batch

handed : Subscription → Event → List Event → ℕ → Bool → Subscription
handed s e rest n bad = record s {
  queue = e ∷ [];
  cursor = e.seq;
  last_seq = e.seq;
  phase = delivering rest n bad;
}

deliver-front :
    (s : Subscription) (e : Event) (rest : List Event) (n : ℕ) (bad : Bool)
    → s.phase ≡ delivering (e ∷ rest) n bad
    → s.queue ≡ []
    → deliver s ≡ some (handed s e rest n bad)
unfolding deliver deliver_phase hand_over handed
deliver-front s e rest n bad p q = rw (p, q) refl

next-front :
    (s : Subscription) (e : Event) (rest : List Event) (n : ℕ) (bad : Bool)
    → next (handed s e rest n bad) ≡ some (ok e, record (handed s e rest n bad) { queue = [] })
unfolding next received handed
next-front s e rest n bad = refl

-- The poller hands a batch over event by event, and the consumer takes each.
serve :
    (batch : List Event) (x : System) (n : ℕ) (bad : Bool)
    → x.sub.phase ≡ delivering batch n bad
    → x.sub.queue ≡ []
    → Drains x batch
unfolding handed
serve [] x n bad p q = (x, rest_here, sym (append-nil x.given), q, refl)
serve (e ∷ rest) x n bad p q =
    let first = handed x.sub e rest n bad in
    let (y, r, g, k, l) =
      serve rest (record x { sub = record first { queue = [] }; given = x.given ++ e ∷ [] }) n bad
        refl refl in
    (
      y,
      HandOvers-trans
          (then_takes e _ (then_delivers first rest_here (deliver-front x.sub e rest n bad p q))
            (next-front x.sub e rest n bad))
          r,
      g ∙ append_assoc x.given (e ∷ []) rest,
      k,
      l,
    )

as_pair : {A : Type 0} {r : Result A} (x : Result A × World) → x.0 ≡ r → x ≡ (r, x.1)
as_pair (q, w) h = rw h refl

loaded_batch :
    (x : System) (t : Subscription)
    → x.sub.queue ≡ []
    → (poll x.sub x.world).0 ≡ ok t
    → t ≡ with_batch x.sub (ready x.sub x.world)
    → Serves x (ready x.sub x.world)
loaded_batch x t q e h = (
  t,
  (poll x.sub x.world).1,
  as_pair (poll x.sub x.world) e,
  serve (ready x.sub x.world) (record x { world = (poll x.sub x.world).1; sub = t })
      (length (ready x.sub x.world)) false (ap (λ (s : Subscription). s.phase) h)
      (ap (λ (s : Subscription). s.queue) h ∙ q),
)

-- A subscription with an empty queue, not closed and with no gap, where no call of the driver fails: one
-- poll returns, and hand-overs and calls of Next, and nothing else, lead to a state in which the consumer
-- has taken, after what it had before, the events that the cursor has not seen and that are in the file,
-- up to 500 of them, in their order, and the queue is empty again.
pub poll-Serves :
    (x : System)
    → x.sub.queue ≡ []
    → x.sub.stopped ≡ false
    → Clear x.world
    → verdict x.sub.cursor x.world.db ≡ none
    → Serves x (ready x.sub x.world)
poll-Serves x q n c v = elim (Result-cases (poll x.sub x.world).0) [
  | inr (b, e) ↦
      Ends-err (poll-Clear x.world x.sub {E = λ _ _. Serves x (ready x.sub x.world)} c n v)
        (as_pair (poll x.sub x.world) e)
  | inl (t, e) ↦ loaded_batch x t q e (
      Ends-ok (poll-Clear x.world x.sub {E = λ _ _. Unit {0}} c n v)
        (as_pair (poll x.sub x.world) e))
]
