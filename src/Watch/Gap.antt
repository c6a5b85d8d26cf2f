-- ===== src/Watch/Gap.antt =====
-- Gap detection: what a check without a gap guarantees, and what a gap error says.
use lytecache.Common.{
  ℕ, ◌+◌, ◌-◌, ◌≤◌, ◌<◌, Bool, true, false, ◌≡◌, refl, sym, arith, Option, none, some, ◌⊎◌, inl,
  inr, List, [], ◌∷◌, ◌++◌, ltb, ltb→lt, if◌then◌else◌, All, All-map, Bool-cases, Option-cases,
}
use lytecache.Errors.{ok}
use lytecache.World.{World, Db, EventRow}
use lytecache.World.Ends.{Ends, Ends-ok, Ends-pure, Ends-if, Ends-bind, Ends-query}
use lytecache.Events.Order.{Rising, Below}
use lytecache.Watch.{GapError, new_gap, min_seq, or_next, lost_before, gap_check, select_events}

-- `log` holds all events that were ever published to the file, in their order; those that are not
-- in the file any more come before those that are.
pub record IsHistory (log : List EventRow) (d : Db) : Type 0 where
  pub gone : List EventRow
  pub split : log ≡ gone ++ d.events
  pub rising : Rising log
  pub below : Below d.last_seq log

abbrev pub KeepsDb : World → World → Type 0
KeepsDb w u = (u.db ≡ w.db) × (u.cache ≡ w.cache)

-- What gapCheck finds in the database.
unfoldable pub verdict : ℕ → Db → Option GapError
unfolding new_gap min_seq or_next lost_before
verdict cursor d =
    if ltb d.last_seq cursor
    then some (new_gap cursor (d.last_seq + 1) true)
    else lost_before cursor (or_next (min_seq d.events) d.last_seq)

pub gap_check-Ends :
    (w : World) (cursor : ℕ)
    → Ends w
        (gap_check cursor)
        (λ g u. (g ≡ verdict cursor w.db) × KeepsDb w u)
        (λ _ u. KeepsDb w u)
unfolding gap_check verdict
gap_check-Ends w cursor = Ends-bind (
    Ends-query _
      (λ x.
        Ends-if (ltb w.db.last_seq cursor) _ _ (λ y. Ends-pure _ (rw y refl, (refl, refl)))
          (λ y.
            Ends-bind
              (Ends-query _ (λ z. Ends-pure _ (rw y refl, (refl, refl))) (λ z. (refl, refl)))))
      (λ x. (refl, refl)))

pub Rising-drop : (gone es : List EventRow) → Rising (gone ++ es) → Rising es
Rising-drop [] es r = r
Rising-drop (g ∷ gone) es r = Rising-drop gone es r.1

All-append_left : (P : EventRow → Type 0) (xs ys : List EventRow) → All P (xs ++ ys) → All P xs
All-append_left P [] ys h = tt
All-append_left P (x ∷ xs) ys h = (h.0, All-append_left P xs ys h.1)

pub All-append_right : (P : EventRow → Type 0) (xs ys : List EventRow) → All P (xs ++ ys) → All P ys
All-append_right P [] ys h = h
All-append_right P (x ∷ xs) ys h = All-append_right P xs ys h.1

-- the least seq exceeds what all of them exceed
min_seq-above :
    (k : ℕ) (es : List EventRow)
    → All (λ e. k < e.seq) es
    → (min_seq es ≡ none) ⊎ ((n : ℕ) × (min_seq es ≡ some n) × (k < n))
unfolding min_seq
min_seq-above k [] h = inl refl
min_seq-above k (e ∷ es) h = elim (min_seq-above k es h.1) [
  | inl x ↦ inr (e.seq, rw x refl, h.0)
  | inr (n, x, l) ↦ elim (Bool-cases (ltb e.seq n)) [
    | inl y ↦ inr (e.seq, rw (x, y) refl, h.0)
    | inr y ↦ inr (n, rw (x, y) refl, l)
  ]
]

or_next-above :
    (k last : ℕ) (es : List EventRow)
    → All (λ e. k < e.seq) es
    → k ≤ last
    → k < or_next (min_seq es) last
unfolding or_next
or_next-above k last es h l = elim (min_seq-above k es h) [
  | inl x ↦ rw x (omega (arith, l))
  | inr (n, x, m) ↦ rw x m
]

-- every lost event comes before the oldest one
gone-before :
    (gone es : List EventRow) (last : ℕ)
    → Rising (gone ++ es)
    → Below last gone
    → All (λ g. g.seq < or_next (min_seq es) last) gone
gone-before [] es last r b = tt
gone-before (g ∷ gone) es last r b = (
  or_next-above g.seq last es (All-append_right _ gone es r.0) b.0,
  gone-before gone es last r.1 b.1,
)

select_events-none :
    (p : EventRow → Bool) (es : List EventRow) → All (λ e. p e ≡ false) es → select_events p es ≡ []
unfolding select_events
select_events-none p [] h = refl
select_events-none p (e ∷ es) h = rw h.0 (select_events-none p es h.1)

pub select_events-append :
    (p : EventRow → Bool) (xs ys : List EventRow)
    → select_events p (xs ++ ys) ≡ select_events p xs ++ select_events p ys
unfolding select_events
select_events-append p [] ys = refl
select_events-append p (x ∷ xs) ys = elim (Bool-cases (p x)) [
  | inl h ↦ rw (h, select_events-append p xs ys) refl
  | inr h ↦ rw (h, select_events-append p xs ys) refl
]

verdict-none-le :
    (cursor : ℕ) (d : Db)
    → verdict cursor d ≡ none
    → or_next (min_seq d.events) d.last_seq ≤ cursor + 1
unfolding verdict lost_before
verdict-none-le cursor d h = ground (arith, h)

-- the events that a cursor has still to see are all in the file
pub verdict-none :
    (cursor : ℕ) (p : EventRow → Bool) (log : List EventRow) (d : Db)
    → IsHistory log d
    → ((e : EventRow) → e.seq ≤ cursor → p e ≡ false)
    → verdict cursor d ≡ none
    → select_events p log ≡ select_events p d.events
verdict-none cursor p log d h k v =
    let r : Rising (h.gone ++ d.events) = rw (← h.split) h.rising in
    let b : Below d.last_seq (h.gone ++ d.events) = rw (← h.split) h.below in
    rw
      (
        h.split,
        select_events-append p h.gone d.events,
        select_events-none p h.gone (
            All-map h.gone (λ g l. k g (omega (arith, l, verdict-none-le cursor d v)))
              (gone-before h.gone d.events d.last_seq r (All-append_left _ h.gone d.events b))),
      )
      refl

gap_check-none :
    (w u : World) (cursor : ℕ) (log : List EventRow)
    → IsHistory log w.db
    → gap_check cursor w ≡ (ok none, u)
    → select_events (λ e. ltb cursor e.seq) log ≡ select_events (λ e. ltb cursor e.seq) w.db.events
gap_check-none w u cursor log h e =
    verdict-none cursor _ log w.db h (λ x l. ground (arith, l))
      (sym (Ends-ok (gap_check-Ends w cursor) e).0)

min_seq-none : (P : EventRow → Type 0) (es : List EventRow) → min_seq es ≡ none → All P es
unfolding min_seq
min_seq-none P [] h = tt
min_seq-none P (e ∷ es) h = elim (Option-cases (min_seq es)) [
  | inl x ↦ ground (arith, x, h)
  | inr (m, x) ↦ ground (arith, x, h)
]

-- a bound of all numbers bounds the least one, which no number is below
min_seq-within :
    (last n : ℕ) (es : List EventRow)
    → Below last es
    → min_seq es ≡ some n
    → (n ≤ last) × All (λ e. n ≤ e.seq) es
unfolding min_seq
min_seq-within last n [] b h = ground (arith, h)
min_seq-within last n (e ∷ es) b h = elim (Option-cases (min_seq es)) [
  | inl x ↦ (ground (arith, x, h, b.0), (ground (arith, x, h), min_seq-none _ es x))
  | inr (m, x) ↦
      let ih = min_seq-within last m es b.1 x in
      let l : n ≤ m = ground (arith, x, h) in
      (omega (arith, ih.0, l), (ground (arith, x, h), All-map es (λ f k. omega (arith, k, l)) ih.1))
]

-- What a gap says: the cursor is ahead of every number ever given out, or there is no event left
-- up to the number to resume after, which lies beyond the cursor. Resuming there meets no gap.
abbrev pub GapFits : ℕ → Db → GapError → Type 0
GapFits cursor d g =
    (if g.ahead then d.last_seq < cursor else cursor < g.resume_seq)
    × All (λ e. g.resume_seq < e.seq) (if g.ahead then [] else d.events)
    × (verdict g.resume_seq d ≡ none)

pub oldest-Below :
    (d : Db)
    → Below d.last_seq d.events
    → (or_next (min_seq d.events) d.last_seq ≤ d.last_seq + 1)
      × All (λ e. or_next (min_seq d.events) d.last_seq ≤ e.seq) d.events
unfolding or_next
oldest-Below d b = elim (Option-cases (min_seq d.events)) [
  | inl x ↦ rw x (omega arith, min_seq-none _ d.events x)
  | inr (n, x) ↦ let h = min_seq-within d.last_seq n d.events b x in rw x (omega (arith, h.0), h.1)
]

pub verdict_resume :
    (d : Db) (r : ℕ)
    → r ≤ d.last_seq
    → or_next (min_seq d.events) d.last_seq - 1 ≤ r
    → verdict r d ≡ none
unfolding verdict lost_before
verdict_resume d r h k = ground (arith, h, k)

ahead-GapFits :
    (cursor : ℕ) (d : Db)
    → Below d.last_seq d.events
    → d.last_seq < cursor
    → GapFits cursor d (new_gap cursor (d.last_seq + 1) true)
unfolding new_gap
ahead-GapFits cursor d b h =
    (h, tt, verdict_resume d _ (omega arith) (omega (arith, (oldest-Below d b).0)))

lost-GapFits :
    (cursor : ℕ) (d : Db)
    → Below d.last_seq d.events
    → cursor < or_next (min_seq d.events) d.last_seq - 1
    → GapFits cursor d (new_gap cursor (or_next (min_seq d.events) d.last_seq) false)
unfolding new_gap
lost-GapFits cursor d b h = (
  h,
  All-map d.events (λ e k. omega (arith, k, h)) (oldest-Below d b).1,
  verdict_resume d _ (omega (arith, (oldest-Below d b).0)) (omega arith),
)

abbrev pub GapFits? : ℕ → Db → Option GapError → Type 0
GapFits? cursor d none = Unit {0}
GapFits? cursor d (some g) = GapFits cursor d g

pub verdict-some :
    (cursor : ℕ) (d : Db) → Below d.last_seq d.events → GapFits? cursor d (verdict cursor d)
unfolding verdict lost_before
verdict-some cursor d b = elim (Bool-cases (ltb d.last_seq cursor)) [
  | inl x ↦ rw x (ahead-GapFits cursor d b (ltb→lt _ _ x))
  | inr x ↦ elim (Bool-cases (ltb cursor (or_next (min_seq d.events) d.last_seq - 1))) [
    | inl y ↦ rw (x, y) (lost-GapFits cursor d b (ltb→lt _ _ y))
    | inr y ↦ rw (x, y) tt
  ]
]

gap_check-some :
    (w u : World) (cursor : ℕ) (g : GapError)
    → Below w.db.last_seq w.db.events
    → gap_check cursor w ≡ (ok (some g), u)
    → GapFits cursor w.db g
gap_check-some w u cursor g b e =
    rw (← (Ends-ok (gap_check-Ends w cursor) e).0) at (verdict-some cursor w.db b)

pub retained-Below : (log : List EventRow) (d : Db) → IsHistory log d → Below d.last_seq d.events
retained-Below log d h = All-append_right _ h.gone d.events (rw (← h.split) h.below)

abbrev pub Judged : ℕ → List EventRow → Db → Option GapError → Type 0
Judged cursor log d none =
    select_events (λ e. ltb cursor e.seq) log ≡ select_events (λ e. ltb cursor e.seq) d.events
Judged cursor log d (some g) = GapFits cursor d g

-- A gap check (gapCheck), when it returns. With no gap: the file still holds every event ever published
-- whose number is greater than the cursor. With a gap: the cursor is ahead of every number ever given out, or
-- the file holds no event up to the number to resume after, which is greater than the cursor; and a
-- check at that number finds no gap.
pub gap_check-Judged :
    (w u : World) (cursor : ℕ) (log : List EventRow) (g : Option GapError)
    → IsHistory log w.db
    → gap_check cursor w ≡ (ok g, u)
    → Judged cursor log w.db g
gap_check-Judged w u cursor log none h e = gap_check-none w u cursor log h e
gap_check-Judged w u cursor log (some g) h e =
    gap_check-some w u cursor g (retained-Below log w.db h) e
