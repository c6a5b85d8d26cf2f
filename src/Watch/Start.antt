-- ===== src/Watch/Start.antt =====
-- Where Watch starts a subscription.
use lytecache.Common.{
  ℕ, zero, suc, ◌+◌, ◌-◌, ◌≤◌, String, Bool, ◌≡◌, refl, sym, ap, ◌∙◌, arith, Option, none, some,
  List, [], ℤ, All, All-map, pos, negsuc,
}
use lytecache.Errors.{ok}
use lytecache.World.{World, Db, EventRow, ◌>>=◌, ◌>>◌, pure, get_cache}
use lytecache.World.Ends.{
  Ends, called, Ends-ok, Ends-pure, Ends-lift, Ends-bind, Ends-query, Ends-get_cache,
  Ends-set_cache, Ends-weaken,
}
use lytecache.World.Calls.{Ends-call}
use lytecache.Events.Order.{Below}
use lytecache.Events.Published.{ensure_events-Ends}
use lytecache.Events.Filter.{Filter}
use lytecache.Watch.{GapError, Subscription, polling, ended, read_tx, min_seq, or_next}
use lytecache.Watch.Gap.{
  IsHistory, KeepsDb, verdict, gap_check-Ends, GapFits, verdict-some, verdict_resume, oldest-Below,
  retained-Below,
}
use lytecache.Watch.Views.{batch_left}
use lytecache.Watch.Delivery.{Begins, other-IsHistory}
use lytecache.Watch.Open.{
  WatchOptions, find_start, before_oldest, new_subscription, first_phase, register, watch,
}

-- A start that has lost nothing, or the gap that a check at it finds.
abbrev StartFits : Db → ℕ × Option GapError → Type 0
StartFits d start = (verdict start.0 d ≡ start.1) × ((start.1 ≡ none) → start.0 ≤ d.last_seq)

-- Where FromSeq asks to start: with none at the end; with 0 before every event retained (their numbers
-- begin at 1); with n > 0 after n.
abbrev pub StartsAt : Option ℤ → Db → ℕ → Type 0
StartsAt none d cursor = cursor ≡ d.last_seq
StartsAt (some (pos zero)) d cursor = All (λ e. cursor ≤ e.seq - 1) d.events
StartsAt (some (pos (suc n))) d cursor = cursor ≡ suc n
StartsAt (some (negsuc n)) d cursor = Unit {0}

before_oldest-Below :
    (last : ℕ) (oldest : Option ℕ) (es : List EventRow)
    → All (λ e. or_next oldest last ≤ e.seq) es
    → All (λ e. before_oldest last oldest ≤ e.seq - 1) es
unfolding before_oldest or_next
before_oldest-Below last none es b = All-map es (λ e k. omega (arith, k)) b
before_oldest-Below last (some n) es b = All-map es (λ e k. omega (arith, k)) b

before_oldest-StartsAt :
    (d : Db)
    → Below d.last_seq d.events
    → StartsAt (some (pos 0)) d (before_oldest d.last_seq (min_seq d.events))
before_oldest-StartsAt d b =
    before_oldest-Below d.last_seq (min_seq d.events) d.events (oldest-Below d b).1

verdict-none-within : (cursor : ℕ) (d : Db) → verdict cursor d ≡ none → cursor ≤ d.last_seq
unfolding verdict
verdict-none-within cursor d h = ground (arith, h)

before_oldest-within :
    (last : ℕ) (oldest : Option ℕ)
    → or_next oldest last ≤ last + 1
    → (before_oldest last oldest ≤ last) × (or_next oldest last - 1 ≤ before_oldest last oldest)
unfolding before_oldest or_next
before_oldest-within last none h = (omega arith, omega arith)
before_oldest-within last (some n) h = (omega (arith, h), omega arith)

before_oldest-StartFits :
    (d : Db)
    → Below d.last_seq d.events
    → StartFits d (before_oldest d.last_seq (min_seq d.events), none)
before_oldest-StartFits d b =
    let (h, k) = before_oldest-within d.last_seq (min_seq d.events) (oldest-Below d b).0 in
    (verdict_resume d _ h k, λ e. h)

find_start-Ends :
    (w : World) (from : Option ℤ)
    → Below w.db.last_seq w.db.events
    → Ends w
        (find_start from)
        (λ st u. KeepsDb w u × StartFits w.db st × StartsAt from w.db st.0)
        (λ _ u. Unit {0})
unfolding find_start
find_start-Ends w none b = Ends-bind (
    Ends-query _
      (λ x. Ends-pure _ (
        (refl, refl),
        (
          verdict_resume w.db w.db.last_seq (omega arith) (omega (arith, (oldest-Below w.db b).0)),
          λ e. omega arith,
        ),
        refl,
      ))
      (λ x. tt))
find_start-Ends w (some (pos zero)) b = Ends-bind (
    Ends-query _
      (λ x. Ends-bind (
        Ends-query _
          (λ y.
            Ends-pure _
              ((refl, refl), before_oldest-StartFits w.db b, before_oldest-StartsAt w.db b))
          (λ y. tt)))
      (λ x. tt))
find_start-Ends w (some (pos (suc n))) b = Ends-bind (
    Ends-query _
      (λ x. Ends-bind (
        Ends-weaken (gap_check-Ends (called w) (suc n))
          (λ g u h.
            Ends-pure _ (h.1, (sym h.0, λ e. verdict-none-within (suc n) w.db (sym h.0 ∙ e)), refl))
          (λ _ _ h. tt)))
      (λ x. tt))
find_start-Ends w (some (negsuc n)) b = Ends-bind (
    Ends-query _
      (λ x. Ends-bind (
        Ends-weaken (gap_check-Ends (called w) 0)
          (λ g u h. Ends-pure _ (h.1, (sym h.0, λ e. verdict-none-within 0 w.db (sym h.0 ∙ e)), tt))
          (λ _ _ h. tt)))
      (λ x. tt))

-- A subscription without an error has begun, and has lost nothing; one with an error has ended.
abbrev pub Started : Option ℤ → List EventRow → Subscription → World → Type 0
Started from log s u =
    StartsAt from u.db s.cursor
    × (verdict s.cursor u.db ≡ s.error)
    × ((s.error ≡ none)
        → (s.phase ≡ polling) × Begins (record { world = u; sub = s; log = log; given = [] }))
    × ((g : GapError) → s.error ≡ some g → (s.phase ≡ ended) × GapFits s.cursor u.db g)

first_phase-none : (e : Option GapError) → e ≡ none → first_phase e ≡ polling
unfolding first_phase
first_phase-none none h = refl
first_phase-none (some g) h = ground (arith, h)

first_phase-some : (e : Option GapError) (g : GapError) → e ≡ some g → first_phase e ≡ ended
unfolding first_phase
first_phase-some none g h = ground (arith, h)
first_phase-some (some x) g h = refl

module _ (log : List EventRow) (u : World) (patterns : List String) (f : Filter) (o : WatchOptions)
    (start : ℕ × Option GapError) (h : IsHistory log u.db) (b : Below u.db.last_seq u.db.events)
    (k : StartFits u.db start) (a : StartsAt o.from_seq u.db start.0) where
  new_subscription-Started :
      (c : List (ℕ × Bool))
      → Started o.from_seq log
          (new_subscription u.cache patterns f o start)
          (record u { cache = record u.cache { wakes = c } })
  unfolding new_subscription
  new_subscription-Started c = (
    a,
    k.0,
    λ e. (
      first_phase-none start.1 e,
      record {
        history = h;
        within = k.1 e;
        queue = refl;
        left = ap batch_left (first_phase-none start.1 e);
        given = refl;
      },
    ),
    λ g e. (first_phase-some start.1 g e, rw (k.0 ∙ e) at (verdict-some start.0 u.db b)),
  )

-- the transaction that finds the start, and what follows it
opened-Ends :
    (log : List EventRow) (u : World) (patterns : List String) (f : Filter) (o : WatchOptions)
    → IsHistory log u.db
    → Ends u
        (do
          start ← read_tx (find_start o.from_seq)
          c ← get_cache
          register (new_subscription c patterns f o start)
          pure (new_subscription c patterns f o start))
        (λ s v. Started o.from_seq log s v)
        (λ _ _. Unit {0})
unfolding register
opened-Ends log u patterns f o h =
    let b = retained-Below log u.db h in
    Ends-bind (
      Ends-call
        (Ends-weaken (find_start-Ends (called u) o.from_seq b)
          (λ st v (k, fits, at). Ends-bind (
            Ends-get_cache (
              Ends-bind (
                Ends-set_cache _ (
                  Ends-pure _ (
                    new_subscription-Started log v patterns f o st (rw k.0 h) (rw k.0 b)
                      (rw k.0 fits) (rw k.0 at) _))))))
          (λ _ _ x. tt))
        tt)

watch-Ends :
    (w : World) (patterns : List String) (o : WatchOptions) (log : List EventRow)
    → IsHistory log w.db
    → Ends w (watch patterns o) (λ s v. Started o.from_seq log s v) (λ _ _. Unit {0})
unfolding watch
watch-Ends w patterns o log h = Ends-bind (
    Ends-lift _
      (λ x p. Ends-bind (
        Ends-lift _
          (λ f q. Ends-bind (
            Ends-lift _
              (λ y r. Ends-bind (
                Ends-weaken (ensure_events-Ends w)
                  (λ z v (a, b, c). Ends-bind (
                    Ends-call
                      (Ends-pure _ (
                        opened-Ends log (called v) patterns f o
                          (other-IsHistory log w.db v.db a b h)))
                      tt))
                  (λ _ _ k. tt)))
              (λ b k. tt)))
          (λ b k. tt)))
      (λ b k. tt))

-- Watch, when it returns a subscription: its cursor is where FromSeq asks to start, at the end where
-- it is not given, before every event retained for 0, and after n for n > 0; and its error is what the gap check finds at its cursor. With no
-- error it has begun to poll, with an empty queue and a cursor that is not ahead; with a gap it has ended, and
-- the gap says truly what was lost.
pub watch-Started :
    (w u : World) (patterns : List String) (o : WatchOptions) (s : Subscription)
    (log : List EventRow)
    → IsHistory log w.db
    → watch patterns o w ≡ (ok s, u)
    → Started o.from_seq log s u
watch-Started w u patterns o s log h e = Ends-ok (watch-Ends w patterns o log h) e
