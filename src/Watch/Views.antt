-- ===== src/Watch/Views.antt =====
-- What the steps of a subscription do to the part of its state that decides what is delivered.
use mathlib.Core.List.{append_assoc}
use lytecache.Common.{
  ℕ, zero, suc, String, Bool, true, false, ◌≡◌, refl, ap, ◌∙◌, Option, none, some, ◌⊎◌, inl, inr,
  List, [], ◌∷◌, ◌++◌, map, take, drop, length, ltb, ◌==◌, ◌&&◌, not, if◌then◌else◌, Bool-cases,
}
use lytecache.Errors.{Result, ok, err}
use lytecache.World.{World, Db, EventRow}
use lytecache.World.Ends.{Ends, Ends-pure, Ends-if, Ends-bind, Ends-weaken}
use lytecache.Events.Filter.{Filter}
use lytecache.Watch.{
  Event, Subscription, Phase, polling, sleeping, ended, delivering, Fetched, scan_event,
  events_batch, subscription_queue,
}
use lytecache.Watch.Gap.{verdict, KeepsDb}
use lytecache.Watch.Fetch.{
  FetchFits, nothing_read, gap_found, whole_batch, part_of_batch, wanted, fetch-Ends,
}
use lytecache.Watch.Poller.{
  take_fetched, poll, deliver_phase, deliver, wake_up, notice_stop, received, next, hand_over,
  after_batch, is_sleeping, is_ended, return_from_run,
}

-- what is left of the batch
abbrev pub batch_left : Phase → List Event
batch_left (delivering batch n bad) = batch
batch_left polling = []
batch_left sleeping = []
batch_left ended = []

pub record View : Type 0 where
  pub namespace : String
  pub filter : Filter
  pub cursor : ℕ
  pub queue : List Event
  pub left : List Event

abbrev pub view : Subscription → View
view s = record {
  namespace = s.namespace;
  filter = s.filter;
  cursor = s.cursor;
  queue = s.queue;
  left = batch_left s.phase;
}

abbrev pub loaded : List Event → View → View
loaded batch v = record v { left = batch }

abbrev pub passed : Event → List Event → View → View
passed e rest v = record v { queue = v.queue ++ e ∷ []; cursor = e.seq; left = rest }

abbrev pub Quiet : Subscription → Subscription → Type 0
Quiet s t = view t ≡ loaded [] (view s)

abbrev Holds : {A : Type 0} → (A → Type 0) → Option A → Type 0
Holds P none = Unit {0}
Holds P (some a) = P a

Holds-some : {A : Type 0} (P : A → Type 0) (o : Option A) (a : A) → Holds P o → o ≡ some a → P a
Holds-some P o a h e = rw e at h

Holds-if :
    {A : Type 0} (P : A → Type 0) (b : Bool) (a : A) → P a → Holds P (if b then some a else none)
Holds-if P true a h = h
Holds-if P false a h = tt

pub wake_up-Quiet : (s t : Subscription) → wake_up s ≡ some t → Quiet s t
unfolding wake_up
wake_up-Quiet s t e = Holds-some (Quiet s) _ t (Holds-if (Quiet s) (is_sleeping s.phase) _ refl) e

pub notice_stop-Quiet : (s t : Subscription) → notice_stop s ≡ some t → Quiet s t
unfolding notice_stop return_from_run
notice_stop-Quiet s t e =
    Holds-some (Quiet s) _ t (Holds-if (Quiet s) (s.stopped && not (is_ended s.phase)) _ refl) e

-- The batch is passed on from its front, or there is nothing left of it.
abbrev pub Delivers : Subscription → List Event → Subscription → Type 0
Delivers s [] t = Quiet s t
Delivers s (e ∷ rest) t = view t ≡ passed e rest (view s)

after_batch-view : (s : Subscription) (n : ℕ) (bad : Bool) → Delivers s [] (after_batch s n bad)
unfolding after_batch
after_batch-view s n bad = elim (Bool-cases (ltb 0 n)) [
  | inl x ↦ elim (Bool-cases (n == events_batch)) [
    | inl y ↦ rw (x, y) refl
    | inr y ↦ rw (x, y) refl
  ]
  | inr x ↦ elim (Bool-cases bad) [ inl y ↦ rw (x, y) refl | inr y ↦ rw (x, y) refl ]
]

deliver_phase-view :
    (s : Subscription) (p : Phase) → Holds (Delivers s (batch_left p)) (deliver_phase s p)
unfolding deliver_phase hand_over
deliver_phase-view s (delivering (e ∷ rest) n bad) =
    Holds-if (Delivers s (e ∷ rest)) (ltb (length s.queue) subscription_queue) _ refl
deliver_phase-view s (delivering [] n bad) = after_batch-view s n bad
deliver_phase-view s polling = tt
deliver_phase-view s sleeping = tt
deliver_phase-view s ended = tt

pub deliver-Delivers : (s t : Subscription) → deliver s ≡ some t → Delivers s (batch_left s.phase) t
unfolding deliver
deliver-Delivers s t e =
    Holds-some (Delivers s (batch_left s.phase)) _ t (deliver_phase-view s s.phase) e

-- The next event that the consumer takes is the oldest in the queue.
abbrev Taken : Subscription → List Event → Option (Result Event × Subscription) → Type 0
Taken s queue none = Unit {0}
Taken s queue (some (err x, t)) = t ≡ s
Taken s queue (some (ok e, t)) =
    (rest : List Event) × (queue ≡ e ∷ rest) × (view t ≡ record (view s) { queue = rest })

received-Taken : (s : Subscription) (queue : List Event) → Taken s queue (received s queue)
unfolding received
received-Taken s (e ∷ rest) = (rest, refl, refl)
received-Taken s [] = elim (Bool-cases (is_ended s.phase)) [ inl x ↦ rw x refl | inr x ↦ rw x tt ]

pub next-Taken :
    (s t : Subscription) (e : Event)
    → next s ≡ some (ok e, t)
    → (rest : List Event) × (s.queue ≡ e ∷ rest) × (view t ≡ record (view s) { queue = rest })
unfolding next
next-Taken s t e h = rw h at (received-Taken s s.queue)

take-drop :
    (k : ℕ) (es : List EventRow)
    → map scan_event es ≡ map scan_event (take k es) ++ map scan_event (drop k es)
take-drop zero es = refl
take-drop (suc k) [] = refl
take-drop (suc k) (e ∷ es) = ap (◌∷◌ (scan_event e)) (take-drop k es)

take-take :
    (k n : ℕ) (es : List EventRow)
    → (rest : List Event) × (map scan_event es ≡ map scan_event (take k (take n es)) ++ rest)
take-take k n es = (
  _,
  take-drop n es
      ∙ ap (λ es'. es' ++ map scan_event (drop n es)) (take-drop k (take n es))
      ∙ append_assoc (map scan_event (take k (take n es))) _ _,
)

-- A poll loads the first of the events that the cursor has still to see, if the check found no gap.
abbrev pub Polled : Db → Subscription → Subscription → Type 0
Polled d s t =
    Quiet s t
    ⊎ ((verdict s.cursor d ≡ none)
        × (batch : List Event) × (rest : List Event) × (map scan_event (wanted s d.events)
            ≡ batch ++ rest)
        × (view t ≡ loaded batch (view s)))

as_taken :
    (d : Db) (s : Subscription) (f g : Fetched)
    → f ≡ g
    → Polled d s (take_fetched s g)
    → Polled d s (take_fetched s f)
as_taken d s f g e h = rw e h

take_fetched-Polled :
    (d : Db) (s : Subscription) (f : Fetched) → FetchFits d s f → Polled d s (take_fetched s f)
unfolding take_fetched return_from_run
take_fetched-Polled d s f (nothing_read e) = as_taken d s f _ e (inl refl)
take_fetched-Polled d s f (gap_found g v e) = as_taken d s f _ e (inl refl)
take_fetched-Polled d s f (whole_batch v e) =
    as_taken d s f _ e (inr (v, _, _, take-drop events_batch (wanted s d.events), refl))
take_fetched-Polled d s f (part_of_batch v k e) =
    let t = take-take k events_batch (wanted s d.events) in
    as_taken d s f _ e (inr (v, _, t.0, t.1, refl))

pub poll-Ends :
    (w : World) (s : Subscription)
    → Ends w (poll s) (λ t u. KeepsDb w u × Polled w.db s t) (λ _ u. KeepsDb w u)
unfolding poll return_from_run
poll-Ends w s =
    Ends-if s.stopped _ _ (λ x. Ends-pure _ ((refl, refl), inl refl))
      (λ x. Ends-bind (
        Ends-weaken (fetch-Ends w s) (λ f u h. Ends-pure _ (h.0, take_fetched-Polled w.db s f h.1))
          (λ _ u h. h)))
