-- ===== src/Events/Published.antt =====
-- lytecache-go/events.go: what publishing puts in the file.
use mathlib.Core.List.{append-nil, append_assoc}
use lytecache.Common.{
  ℕ, suc, ◌+◌, String, true, false, List, [], ◌∷◌, ◌++◌, ◌≡◌, refl, sym, ap, ◌∙◌, arith, some, map,
  ◌==◌, inl, inr, ℤ, length,
}
use lytecache.Errors.{ok, Result-cases}
use lytecache.Strconv.{Bytes}
use lytecache.Value.{Codec, encode_value}
use lytecache.World.{World, EventRow}
use lytecache.World.Ends.{
  Ends, called, Ends-ok, Ends-pure, Ends-lift, Ends-if, Ends-bind, Ends-exec, Ends-get_cache,
  Ends-get_env, Ends-now_millis, Ends-set_cache, Ends-weaken, Ends-in_tx,
}
use lytecache.Events.{
  Notification, Encoded, create_events, mark_ready, ensure_events, append_event, new_event,
  insert_rows, encode_all, poke_all, insert_alone, insert_events,
}
use lytecache.Events.Order.{EventsFit, append_event-EventsFit}

add_one : (l : ℕ) → l + 1 ≡ suc l
add_one l = omega arith

-- The rows of events, numbered from the one after `last`: each has the channel of its event, the
-- encoding of its payload, the namespace and the time.
abbrev pub StoredRows : String → ℤ → ℕ → List Encoded → List EventRow → Type 0
StoredRows ns now last [] [] = Unit
StoredRows ns now last (e ∷ es) (r ∷ rs) =
    (r.seq ≡ suc last)
    × (r.channel ≡ e.channel)
    × (r.namespace ≡ ns)
    × (r.payload ≡ some e.payload)
    × (r.value_type ≡ e.value_type)
    × (r.created_at ≡ now)
    × StoredRows ns now (suc last) es rs
StoredRows ns now last es rs = false ≡ true

abbrev pub Stored : Codec → String → ℤ → ℕ → List Notification → List EventRow → Type 0
Stored lib ns now last [] [] = Unit
Stored lib ns now last (n ∷ events) (r ∷ rs) =
    (r.seq ≡ suc last)
    × (r.channel ≡ n.channel)
    × (r.namespace ≡ ns)
    × ((d : Bytes) × (r.payload ≡ some d) × (encode_value lib n.payload ≡ ok (d, r.value_type)))
    × (r.created_at ≡ now)
    × Stored lib ns now (suc last) events rs
Stored lib ns now last events rs = false ≡ true

-- Rows were appended, and their numbers returned.
abbrev pub Appended : World → List ℕ → List EventRow → World → Type 0
Appended w seqs rs u =
    (u.db.events ≡ w.db.events ++ rs)
    × (seqs ≡ map (λ r. r.seq) rs)
    × (u.db.last_seq ≡ w.db.last_seq + length rs)
    × EventsFit u.db
    × (u.db.rows ≡ w.db.rows)

-- What publishing does.
abbrev pub Published : List Notification → World → List ℕ → World → Type 0
Published events w seqs u =
    (rs : List EventRow) × Stored w.env.codec w.cache.namespace (w.env.clock 0) w.db.last_seq events
      rs
    × Appended w seqs rs u

abbrev Inserted : String → ℤ → List Encoded → World → List ℕ → World → Type 0
Inserted ns now es w seqs u =
    (rs : List EventRow) × StoredRows ns now w.db.last_seq es rs × Appended w seqs rs u

add_next : (l n : ℕ) → l + 1 + n ≡ l + suc n
add_next l n = omega arith

insert_rows-Ends :
    (es : List Encoded) (u : World) (ns : String) (now : ℤ)
    → EventsFit u.db
    → Ends u (insert_rows ns now es) (λ seqs v. Inserted ns now es u seqs v) (λ _ v. EventsFit v.db)
unfolding insert_rows append_event new_event
insert_rows-Ends [] u ns now h =
    Ends-pure _ ([], tt, (sym (append-nil u.db.events), refl, omega arith, h, refl))
insert_rows-Ends (e ∷ es) u ns now h = Ends-bind (
    Ends-exec _
      (λ x. Ends-bind (
        Ends-weaken (insert_rows-Ends es _ ns now (append_event-EventsFit ns now e u.db h))
          (λ seqs v (rs, k, (a, b, c, d, f)). Ends-pure _ (
            new_event ns now e (u.db.last_seq + 1) ∷ rs,
            (add_one u.db.last_seq, refl, refl, refl, refl, refl, rw (← add_one u.db.last_seq) k),
            (
              a ∙ append_assoc u.db.events (new_event ns now e (u.db.last_seq + 1) ∷ []) rs,
              ap (◌∷◌ (u.db.last_seq + 1)) b,
              c ∙ add_next u.db.last_seq (length rs),
              d,
              f,
            ),
          ))
          (λ _ v k. k)))
      (λ x. h))

-- only the event tables were created, at most
abbrev pub SameEvents : World → World → Type 0
SameEvents w u =
    (u.db.events ≡ w.db.events) × (u.db.last_seq ≡ w.db.last_seq) × (u.db.rows ≡ w.db.rows)

SameEvents-EventsFit : (w u : World) → SameEvents w u → EventsFit w.db → EventsFit u.db
SameEvents-EventsFit w u (a, b, c) h = (rw a h.0, rw (a, b) h.1)

-- ... and the clock and the codec of the environment and the namespace are what they were
abbrev SameStart : World → World → Type 0
SameStart w u =
    SameEvents w u
    × (u.env.clock ≡ w.env.clock)
    × (u.env.codec ≡ w.env.codec)
    × (u.cache.namespace ≡ w.cache.namespace)

Appended-after :
    (w u v : World) (seqs : List ℕ) (rs : List EventRow)
    → SameEvents w u
    → Appended u seqs rs v
    → Appended w seqs rs v
Appended-after w u v seqs rs (a, b, c) (o, p, q, r, s) = (rw (← a) o, p, rw (← b) q, r, s ∙ c)

row_next :
    (lib : Codec) (ns : String) (now : ℤ) (last : ℕ) (n : Notification) (rest : List Notification)
    (d : Bytes) (t : ℕ) (tail : List Encoded) (rs : List EventRow)
    → encode_value lib n.payload ≡ ok (d, t)
    → ((qs : List EventRow)
        → StoredRows ns now (suc last) tail qs
        → Stored lib ns now (suc last) rest qs)
    → StoredRows ns now last
        ((record { channel = n.channel; payload = d; value_type = t }) ∷ tail)
        rs
    → Stored lib ns now last (n ∷ rest) rs
row_next lib ns now last n rest d t tail [] x f h = h
row_next lib ns now last n rest d t tail (r ∷ rs) x f (a, b, c, p, v, w, k) =
    (a, b, c, (d, p, x ∙ ap (λ u. ok (d, u)) (sym v)), w, f rs k)

encode_all-Stored :
    (lib : Codec) (ns : String) (now : ℤ) (last : ℕ) (events : List Notification)
    (es : List Encoded) (rs : List EventRow)
    → encode_all lib events ≡ ok es
    → StoredRows ns now last es rs
    → Stored lib ns now last events rs
unfolding encode_all
encode_all-Stored lib ns now last [] [] [] e h = tt
encode_all-Stored lib ns now last [] [] (r ∷ rs) e h = h
encode_all-Stored lib ns now last [] (x ∷ es) rs e h = ground (arith, e)
encode_all-Stored lib ns now last (n ∷ rest) es rs e h =
    elim (Result-cases (encode_value lib n.payload)) [
      | inr (b, x) ↦ ground (arith, x, e)
      | inl ((d, t), x) ↦ elim (Result-cases (encode_all lib rest)) [
        | inr (b, y) ↦ ground (arith, x, y, e)
        | inl (tail, y) ↦
            let p : es ≡ (record { channel = n.channel; payload = d; value_type = t }) ∷ tail =
              ground (arith, x, y, e) in
            row_next lib ns now last n rest d t tail rs x
              (λ qs k. encode_all-Stored lib ns now (suc last) rest tail qs y k) (rw p at h)
      ]
    ]

ensure_events-SameStart :
    (w : World) → Ends w ensure_events (λ _ u. SameStart w u) (λ _ u. SameEvents w u)
unfolding ensure_events create_events mark_ready
ensure_events-SameStart w = Ends-bind (
    Ends-get_cache (
      Ends-if w.cache.events_ready _ _ (λ x. Ends-pure _ ((refl, refl, refl), refl, refl, refl))
        (λ x. Ends-bind (
          Ends-exec create_events (λ y. Ends-set_cache _ ((refl, refl, refl), refl, refl, refl))
            (λ y. (refl, refl, refl))))))

pub ensure_events-Ends :
    (w : World) → Ends w ensure_events (λ _ u. SameEvents w u) (λ _ u. SameEvents w u)
ensure_events-Ends w = Ends-weaken (ensure_events-SameStart w) (λ _ u h. h.0) (λ _ u h. h)

insert_alone-Ends :
    (u : World) (ns : String) (now : ℤ) (rows : List Encoded)
    → EventsFit u.db
    → Ends u
        (insert_alone ns now rows)
        (λ seqs v. Inserted ns now rows u seqs v)
        (λ _ v. EventsFit v.db)
unfolding insert_alone
insert_alone-Ends u ns now rows h =
    Ends-if (length rows == 1) _ _ (λ x. insert_rows-Ends rows u ns now h)
      (λ x.
        Ends-in_tx (λ y. h)
          (λ y.
            Ends-weaken (insert_rows-Ends rows (called u) ns now h) (λ seqs v p. (λ z. p, λ z. h))
              (λ _ v k. h)))

Inserted-Published :
    (w u v : World) (events : List Notification) (es : List Encoded) (seqs : List ℕ)
    → SameStart w u
    → encode_all w.env.codec events ≡ ok es
    → Inserted u.cache.namespace (u.env.clock 0) es u seqs v
    → Published events w seqs v
Inserted-Published w u v events es seqs (s, a, b, c) e (rs, k, p) = (
  rs,
  encode_all-Stored w.env.codec w.cache.namespace (w.env.clock 0) w.db.last_seq events es rs e
      (rw (← a, ← c, ← s.1) k),
  Appended-after w u v seqs rs s p,
)

insert_events-Ends :
    (w : World) (events : List Notification)
    → EventsFit w.db
    → Ends w (insert_events events) (λ seqs u. Published events w seqs u) (λ _ u. EventsFit u.db)
unfolding insert_events poke_all
insert_events-Ends w events h = Ends-bind (
    Ends-get_env (
      Ends-bind (
        Ends-lift _
          (λ rows e. Ends-bind (
            Ends-weaken (ensure_events-SameStart w)
              (λ _ u s. Ends-bind (
                Ends-now_millis (
                  Ends-bind (
                    Ends-get_cache (
                      Ends-bind (
                        Ends-weaken
                          (insert_alone-Ends _ u.cache.namespace (u.env.clock 0) rows
                            (SameEvents-EventsFit w u s.0 h))
                          (λ seqs v p. Ends-bind (
                            Ends-set_cache _
                              (Ends-pure _ (Inserted-Published w u v events rows seqs s e p))))
                          (λ _ v k. k)))))))
              (λ _ u s. SameEvents-EventsFit w u s h)))
          (λ b e. h))))

-- Publishing (insertEvents), when it returns: the events in the file are those that were there and, after
-- them, one for each event published, in their order, numbered from the counter on, with the event's channel,
-- the encoding of its payload, the namespace, and one reading of the clock; the numbers returned are
-- theirs; all events stand in the order of their different numbers, none above the counter; and no cache
-- row has changed.
pub insert_events-Published :
    (w u : World) (events : List Notification) (seqs : List ℕ)
    → EventsFit w.db
    → insert_events events w ≡ (ok seqs, u)
    → Published events w seqs u
insert_events-Published w u events seqs h e = Ends-ok (insert_events-Ends w events h) e
