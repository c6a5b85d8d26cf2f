-- ===== src/Watch/Stream.antt =====
-- The events that match a subscription, in their order, and the parts that a cursor divides them
-- into.
use lytecache.Common.{
  ℕ, ◌≤◌, ◌<◌, String, Bool, true, false, ◌&&◌, ◌≡◌, refl, arith, List, [], ◌∷◌, ◌++◌, map, ltb,
  leb, if◌then◌else◌, All, All-map, Bool-cases, inl, inr,
}
use mathlib.Core.List.{append-nil}
use lytecache.World.{EventRow}
use lytecache.Events.Order.{Rising}
use lytecache.Events.Filter.{Filter}
use lytecache.Watch.{Event, scan_event, is_wanted, select_events}

unfoldable pub keep : (Event → Bool) → List Event → List Event
keep p [] = []
keep p (e ∷ es) = let rest = keep p es in if p e then e ∷ rest else rest

abbrev pub Ascending : List Event → Type 0
Ascending [] = Unit {0}
Ascending (e ∷ es) = All (λ f. e.seq < f.seq) es × Ascending es

pub keep-All : (p : Event → Bool) (es : List Event) → All (λ e. p e ≡ true) es → keep p es ≡ es
unfolding keep
keep-All p [] h = refl
keep-All p (e ∷ es) h = rw (h.0, keep-All p es h.1) refl

pub keep-none : (p : Event → Bool) (es : List Event) → All (λ e. p e ≡ false) es → keep p es ≡ []
unfolding keep
keep-none p [] h = refl
keep-none p (e ∷ es) h = rw h.0 (keep-none p es h.1)

pub keep-append :
    (p : Event → Bool) (xs ys : List Event) → keep p (xs ++ ys) ≡ keep p xs ++ keep p ys
unfolding keep
keep-append p [] ys = refl
keep-append p (x ∷ xs) ys = elim (Bool-cases (p x)) [
  | inl h ↦ rw (h, keep-append p xs ys) refl
  | inr h ↦ rw (h, keep-append p xs ys) refl
]

-- a condition on what was scanned is one on the rows
pub keep-select_events :
    (p r : EventRow → Bool) (k : Event → Bool) (es : List EventRow)
    → ((e : EventRow) → r e ≡ (p e && k (scan_event e)))
    → map scan_event (select_events r es) ≡ keep k (map scan_event (select_events p es))
unfolding select_events keep
keep-select_events p r k [] h = refl
keep-select_events p r k (e ∷ es) h = elim (Bool-cases (p e)) [
  | inl x ↦ elim (Bool-cases (k (scan_event e))) [
    | inl y ↦ rw (h e, x, y, keep-select_events p r k es h) refl
    | inr y ↦ rw (h e, x, y, keep-select_events p r k es h) refl
  ]
  | inr x ↦ rw (h e, x, keep-select_events p r k es h) refl
]

pub All-select_events :
    (P : EventRow → Type 0) (Q : Event → Type 0) (p : EventRow → Bool) (es : List EventRow)
    → ((e : EventRow) → p e ≡ true → P e → Q (scan_event e))
    → All P es
    → All Q (map scan_event (select_events p es))
unfolding select_events
All-select_events P Q p [] f h = tt
All-select_events P Q p (e ∷ es) f h = elim (Bool-cases (p e)) [
  | inl x ↦ rw x (f e x h.0, All-select_events P Q p es f h.1)
  | inr x ↦ rw x (All-select_events P Q p es f h.1)
]

pub Ascending-select_events :
    (p : EventRow → Bool) (es : List EventRow)
    → Rising es
    → Ascending (map scan_event (select_events p es))
unfolding select_events scan_event
Ascending-select_events p [] r = tt
Ascending-select_events p (e ∷ es) r = elim (Bool-cases (p e)) [
  | inl x ↦ rw x (
    All-select_events _ (λ f. e.seq < f.seq) p es (λ f y l. l) r.0,
    Ascending-select_events p es r.1,
  )
  | inr x ↦ rw x (Ascending-select_events p es r.1)
]

pub Ascending-drop : (xs ys : List Event) → Ascending (xs ++ ys) → Ascending ys
Ascending-drop [] ys a = a
Ascending-drop (x ∷ xs) ys a = Ascending-drop xs ys a.1

-- what the subscription is to see, from `start` on
abbrev pub stream : ℕ → String → Filter → List EventRow → List Event
stream start ns f log = map scan_event (select_events (is_wanted start ns f) log)

-- those of them up to the cursor
abbrev pub stream_to : ℕ → ℕ → String → Filter → List EventRow → List Event
stream_to start cursor ns f log =
    map scan_event (select_events (λ e. is_wanted start ns f e && leb e.seq cursor) log)

abbrev is_past : ℕ → Event → Bool
is_past cursor e = ltb cursor e.seq

abbrev is_reached : ℕ → Event → Bool
is_reached cursor e = leb e.seq cursor

module _ (start cursor : ℕ) (ns : String) (f : Filter) (log : List EventRow)
    (done later : List Event) (split : stream start ns f log ≡ done ++ later)
    (seen : All (λ e. e.seq ≤ cursor) done) (unseen : All (λ e. cursor < e.seq) later) where
  -- what is left is what comes after the cursor
  pub stream-after : start ≤ cursor → stream cursor ns f log ≡ later
  unfolding is_wanted scan_event
  stream-after l =
      rw
        (
          keep-select_events (is_wanted start ns f) (is_wanted cursor ns f) (is_past cursor) log
              (λ e. ground (arith, l)),
          split,
          keep-append (is_past cursor) done later,
          keep-none (is_past cursor) done (All-map done (λ e m. ground (arith, m)) seen),
          keep-All (is_past cursor) later (All-map later (λ e m. ground (arith, m)) unseen),
        )
        refl

  -- and what was seen is what comes up to it
  pub stream_to-seen : stream_to start cursor ns f log ≡ done
  unfolding is_wanted scan_event
  stream_to-seen =
      rw
        (
          keep-select_events (is_wanted start ns f) _ (is_reached cursor) log (λ e. refl),
          split,
          keep-append (is_reached cursor) done later,
          keep-All (is_reached cursor) done (All-map done (λ e m. ground (arith, m)) seen),
          keep-none (is_reached cursor) later (All-map later (λ e m. ground (arith, m)) unseen),
        )
        (append-nil done)
