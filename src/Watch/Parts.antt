-- ===== src/Watch/Parts.antt =====
-- The invariant of a subscription: what was handed over and what is still to come make up the
-- events that match it.
use mathlib.Core.List.{append_assoc, map-append}
use lytecache.Common.{
  ℕ, ◌+◌, ◌≤◌, ◌<◌, String, ◌≡◌, refl, sym, ap, ◌∙◌, arith, none, List, [], ◌∷◌, ◌++◌, map, All,
  All-map, ℤ,
}
use lytecache.World.{Db, EventRow}
use lytecache.Events.{Encoded, new_event, append_event}
use lytecache.Events.Order.{All-snoc}
use lytecache.Watch.{Event, scan_event, is_wanted}
use lytecache.Watch.Gap.{IsHistory, verdict, verdict-none, select_events-append}
use lytecache.Watch.Stream.{
  Ascending, Ascending-drop, Ascending-select_events, All-select_events, stream, stream_to,
  stream-after, stream_to-seen,
}
use lytecache.Watch.History.{append_event-IsHistory}
use lytecache.Watch.Views.{View, loaded, passed}

pub record Parted (start : ℕ) (log : List EventRow) (d : Db) (given : List Event) (v : View)
    : Type 0 where
  pub history : IsHistory log d
  pub later : List Event
  pub tail : List Event
  pub split : stream start v.namespace v.filter log ≡ (given ++ v.queue) ++ later
  pub seen : All (λ e. e.seq ≤ v.cursor) (given ++ v.queue)
  pub unseen : All (λ e. v.cursor < e.seq) later
  pub begun : start ≤ v.cursor
  pub reached : v.cursor ≤ d.last_seq
  pub pending : later ≡ v.left ++ tail

-- What was handed over is what matches, up to the cursor.
pub Parted-stream_to :
    {start : ℕ} {log : List EventRow} {d : Db} {given : List Event} (v : View)
    → Parted start log d given v
    → given ++ v.queue ≡ stream_to start v.cursor v.namespace v.filter log
Parted-stream_to {start = start} {log = log} v p =
    sym (stream_to-seen start v.cursor v.namespace v.filter log _ p.later p.split p.seen p.unseen)

All-last : (P : Event → Type 0) (xs ys : List Event) (e : Event) → All P (xs ++ e ∷ ys) → P e
All-last P [] ys e h = h.0
All-last P (x ∷ xs) ys e h = All-last P xs ys e h.1

All-append : (P : Event → Type 0) (xs ys : List Event) → All P xs → All P ys → All P (xs ++ ys)
All-append P [] ys h k = k
All-append P (x ∷ xs) ys h k = (h.0, All-append P xs ys h.1 k)

move_one : (xs ys zs : List Event) (e : Event) → (xs ++ ys) ++ e ∷ zs ≡ (xs ++ (ys ++ e ∷ [])) ++ zs
move_one xs ys zs e =
    rw (append_assoc xs ys (e ∷ zs), append_assoc xs (ys ++ e ∷ []) zs, append_assoc ys (e ∷ []) zs)
      refl

module _ {start : ℕ} {log : List EventRow} {d : Db} {given : List Event} {v : View}
    (p : Parted start log d given v) where
  pub Parted-quiet : Parted start log d given (loaded [] v)
  Parted-quiet = record {
    history = p.history;
    later = p.later;
    tail = p.later;
    split = p.split;
    seen = p.seen;
    unseen = p.unseen;
    begun = p.begun;
    reached = p.reached;
    pending = refl;
  }

  pub Parted-loaded :
      (batch rest : List Event)
      → verdict v.cursor d ≡ none
      → stream v.cursor v.namespace v.filter d.events ≡ batch ++ rest
      → Parted start log d given (loaded batch v)
  unfolding is_wanted
  Parted-loaded batch rest n e = record {
    history = p.history;
    later = p.later;
    tail = rest;
    split = p.split;
    seen = p.seen;
    unseen = p.unseen;
    begun = p.begun;
    reached = p.reached;
    pending =
        sym (
          stream-after start v.cursor v.namespace v.filter log _ p.later p.split p.seen p.unseen
            p.begun)
        ∙ ap (map scan_event) (
            verdict-none v.cursor (is_wanted v.cursor v.namespace v.filter) log d p.history
              (λ x l. ground (arith, l)) n)
        ∙ e;
  }

  at_front : (e : Event) (rest : List Event) → v.left ≡ e ∷ rest → p.later ≡ e ∷ (rest ++ p.tail)
  at_front e rest l = p.pending ∙ ap (λ x. x ++ p.tail) l

  whole :
      (e : Event) (rest : List Event)
      → v.left ≡ e ∷ rest
      → stream start v.namespace v.filter log ≡ (given ++ v.queue) ++ e ∷ (rest ++ p.tail)
  whole e rest l = p.split ∙ ap (◌++◌ (given ++ v.queue)) (at_front e rest l)

  -- all of what matches lies below the counter
  stream-below : All (λ (e : Event). e.seq ≤ d.last_seq) (stream start v.namespace v.filter log)
  unfolding scan_event
  stream-below =
      All-select_events _ _ (is_wanted start v.namespace v.filter) log (λ e h k. k) p.history.below

  stream-Ascending : Ascending (stream start v.namespace v.filter log)
  stream-Ascending = Ascending-select_events _ log p.history.rising

  front_unseen : (e : Event) (rest : List Event) → v.left ≡ e ∷ rest → v.cursor < e.seq
  front_unseen e rest l = (rw (at_front e rest l) at p.unseen).0

  pub Parted-passed :
      (e : Event) (rest : List Event)
      → v.left ≡ e ∷ rest
      → Parted start log d given (passed e rest v)
  Parted-passed e rest l =
      let new = front_unseen e rest l in
      record {
        history = p.history;
        later = rest ++ p.tail;
        tail = p.tail;
        split = whole e rest l ∙ move_one given v.queue (rest ++ p.tail) e;
        seen = rw (← append_assoc given v.queue (e ∷ [])) (
            All-snoc _ (given ++ v.queue) e
              (All-map (given ++ v.queue) (λ x k. omega (arith, k, new)) p.seen) (omega arith));
        unseen =
            (Ascending-drop (given ++ v.queue) (e ∷ (rest ++ p.tail))
              (rw (whole e rest l) at stream-Ascending)).0;
        begun = omega (arith, p.begun, new);
        reached =
            All-last _ (given ++ v.queue) (rest ++ p.tail) e (rw (whole e rest l) at stream-below);
        pending = refl;
      }

  pub Parted-taken :
      (e : Event) (rest : List Event)
      → v.queue ≡ e ∷ rest
      → Parted start log d (given ++ e ∷ []) (record v { queue = rest })
  Parted-taken e rest q =
      let same : given ++ v.queue ≡ (given ++ e ∷ []) ++ rest =
        rw (q, append_assoc given (e ∷ []) rest) refl in
      record {
        history = p.history;
        later = p.later;
        tail = p.tail;
        split = p.split ∙ ap (λ x. x ++ p.later) same;
        seen = rw same at p.seen;
        unseen = p.unseen;
        begun = p.begun;
        reached = p.reached;
        pending = p.pending;
      }

  -- the database changes, and keeps what the numbers are counted by
  pub Parted-database :
      (d' : Db) → IsHistory log d' → d'.last_seq ≡ d.last_seq → Parted start log d' given v
  Parted-database d' h e = record {
    history = h;
    later = p.later;
    tail = p.tail;
    split = p.split;
    seen = p.seen;
    unseen = p.unseen;
    begun = p.begun;
    reached = rw e p.reached;
    pending = p.pending;
  }

  pub Parted-published :
      (ns : String) (now : ℤ) (e : Encoded)
      → Parted start
          (log ++ new_event ns now e (d.last_seq + 1) ∷ [])
          (append_event ns now e d).0
          given
          v
  unfolding append_event new_event scan_event
  Parted-published ns now e =
      let new : List Event =
        stream start v.namespace v.filter (new_event ns now e (d.last_seq + 1) ∷ []) in
      record {
        history = append_event-IsHistory ns now e log d p.history;
        later = p.later ++ new;
        tail = p.tail ++ new;
        split =
            rw
              (
                select_events-append (is_wanted start v.namespace v.filter) log
                    (new_event ns now e (d.last_seq + 1) ∷ []),
                map-append scan_event _ _,
                p.split,
              )
              (append_assoc (given ++ v.queue) p.later new);
        seen = p.seen;
        unseen = All-append _ p.later new p.unseen (
            All-select_events _ _ (is_wanted start v.namespace v.filter)
              (new_event ns now e (d.last_seq + 1) ∷ []) (λ x h k. k)
              (omega (arith, p.reached), tt));
        begun = p.begun;
        reached = omega (arith, p.reached);
        pending = ap (λ x. x ++ new) p.pending ∙ append_assoc v.left p.tail new;
      }
