-- ===== src/Events/Rows.antt =====
-- Publishing and retention leave the rows of the cache alone.
use lytecache.Common.{
  ℕ, zero, suc, String, Bool, true, false, Option, none, some, List, [], ◌∷◌, refl, ℤ,
}
use lytecache.Errors.{Result, ok, err}
use lytecache.World.{exec}
use lytecache.World.Rules.{Runs, Runs-exec_other, Runs-bind, Runs-if, Runs-pure, runs}
use lytecache.Value.{Value}
use lytecache.Events.{
  Notification, Encoded, create_events, ensure_events, noticed, events_exist, append_event,
  insert_rows, poke_all, insert_alone, insert_events, notify, notify_many, delete_events, on_events,
  is_full_batch, delete_up_to, delete_bound, cap_bound, apply_retention, retain, sweep_events,
}

module _ {fading : Bool} {ns : String} where
  Runs-create_events : Runs fading ns (exec create_events)
  unfolding create_events
  Runs-create_events = Runs-exec_other _ (λ d. refl)

  pub Runs-ensure_events : Runs fading ns ensure_events
  unfolding ensure_events
  Runs-ensure_events = search (runs, Runs-create_events)

  Runs-noticed : (r : Result Bool) → Runs fading ns (noticed r)
  unfolding noticed
  Runs-noticed (ok true) = search runs
  Runs-noticed (ok false) = search runs
  Runs-noticed (err e) = search runs

  pub Runs-events_exist : Runs fading ns events_exist
  unfolding events_exist
  Runs-events_exist = search (runs, Runs-noticed)

  Runs-append_event :
      (n : String) (now : ℤ) (e : Encoded) → Runs fading ns (exec (append_event n now e))
  unfolding append_event
  Runs-append_event n now e = Runs-exec_other _ (λ d. refl)

  Runs-insert_rows :
      (n : String) (now : ℤ) (rows : List Encoded) → Runs fading ns (insert_rows n now rows)
  unfolding insert_rows
  Runs-insert_rows n now [] = search runs
  Runs-insert_rows n now (e ∷ rows) =
      Runs-bind (exec (append_event n now e)) _ (Runs-append_event n now e) (λ id.
        Runs-bind (insert_rows n now rows) _ (Runs-insert_rows n now rows)
          (λ ids. Runs-pure (id ∷ ids)))

  Runs-insert_alone :
      (n : String) (now : ℤ) (rows : List Encoded) → Runs fading ns (insert_alone n now rows)
  unfolding insert_alone
  Runs-insert_alone n now rows = search (runs, Runs-insert_rows)

  Runs-poke_all : Runs fading ns poke_all
  unfolding poke_all
  Runs-poke_all = search runs

  pub Runs-insert_events : (events : List Notification) → Runs fading ns (insert_events events)
  unfolding insert_events
  Runs-insert_events events =
      search (runs, Runs-ensure_events, Runs-insert_alone, Runs-poke_all) depth 16

  pub Runs-notify : (channel : String) (payload : Value) → Runs fading ns (notify channel payload)
  unfolding notify
  Runs-notify channel payload = search (runs, Runs-insert_events)

  pub Runs-notify_many : (events : List Notification) → Runs fading ns (notify_many events)
  unfolding notify_many
  Runs-notify_many events = search (runs, Runs-insert_events)

  Runs-delete_events : (n b : ℕ) → Runs fading ns (exec (on_events (delete_events n b)))
  Runs-delete_events n b = Runs-exec_other _ (λ d. refl)

  Runs-delete_up_to : (f b : ℕ) → Runs fading ns (delete_up_to f b)
  unfolding delete_up_to
  Runs-delete_up_to zero b = Runs-pure tt
  Runs-delete_up_to (suc f) b =
      Runs-bind _ _ (search (runs, Runs-delete_events))
        (λ r. Runs-if (is_full_batch r) _ _ (Runs-delete_up_to f b) (Runs-pure tt))

  Runs-delete_bound : (b : Option ℕ) → Runs fading ns (delete_bound b)
  unfolding delete_bound
  Runs-delete_bound none = search runs
  Runs-delete_bound (some b) = search (runs, Runs-delete_up_to)

  Runs-apply_retention : (r : Result (Option ℕ)) → Runs fading ns (apply_retention r)
  unfolding apply_retention cap_bound
  Runs-apply_retention (err e) = search runs
  Runs-apply_retention (ok b) = search (runs, Runs-delete_bound) depth 12

  Runs-retain : (b : Bool) → Runs fading ns (retain b)
  unfolding retain
  Runs-retain false = search runs
  Runs-retain true = search (runs, Runs-apply_retention)

  pub Runs-sweep_events : Runs fading ns sweep_events
  unfolding sweep_events
  Runs-sweep_events = search (runs, Runs-events_exist, Runs-retain)
