-- ===== src/Counters/Adds.antt =====
-- Incr adds to the counter that is stored, and refuses a value that is not a number.
use lytecache.Common.{
  String, true, false, ◌||◌, Option, none, some, [], ◌∷◌, ◌≡◌, refl, ◌∙◌, ◌==◌, arith, ℤ, pos, ◌+ℤ◌,
  IsInt64, zero_add_ℤ, ◌⊎◌, inl, inr,
}
use lytecache.Errors.{Error, ok}
use lytecache.Strconv.{Bytes, format_int, parse_int}
use lytecache.Strconv.RoundTrip.{parse_int-format_int, format_int_zero}
use lytecache.Value.{type_int}
use lytecache.Table.{Row, Table, at_key, is_expired, select_key}
use lytecache.Table.Laws.{KeepsKey, upserted, select_key-upsert, at_key_self}
use lytecache.World.{World, M, op_set, pure, ◌>>◌}
use lytecache.Changes.{changed}
use lytecache.Sweep.{maybe_opportunistic_sweep}
use lytecache.World.Ends.{
  Ends, Ends-ok, Ends-pure, Ends-raise, Ends-if, Ends-bind, Ends-exec, Ends-query, Ends-get_cache,
  Ends-get_env, Ends-now_millis, Ends-weaken, Ends-Safe,
}
use lytecache.Changes.Rows.{Runs-changed}
use lytecache.Changes.Safe.{Safe-changed}
use lytecache.Sweep.Rows.{Runs-maybe_opportunistic_sweep}
use lytecache.Sweep.Safe.{Safe-maybe_opportunistic_sweep}
use lytecache.Kv.{fresh_row}
use lytecache.Counters.{summed, count_up, incr_row, read_back, atomic_incr, parsed, incr}

-- What the code relies on of SQLite's sum of two integer texts: it is exact in 64 bits.
pub record IsAdder (add : Bytes → Bytes → Bytes) : Type 0 where
  pub exact :
      (a b : ℤ)
      → IsInt64 a
      → IsInt64 b
      → IsInt64 (a +ℤ b)
      → add (format_int a) (format_int b) ≡ format_int (a +ℤ b)

-- The counter of a key at a time: an absent or expired one counts from 0.
abbrev pub Counts : Option Row → ℤ → ℤ → Type 0
Counts none now n = n ≡ pos 0
Counts (some r) now n =
    (is_expired r.expires_at now ≡ true × n ≡ pos 0)
    ⊎ ((is_expired r.expires_at now ≡ false) × (r.value ≡ format_int n) × (r.value_type ≡ 2))

-- the integers that SQLite and int64 can hold
abbrev pub Fits : ℤ → ℤ → Type 0
Fits n amount = IsInt64 n × IsInt64 amount × IsInt64 (n +ℤ amount)

at_fresh :
    (ns key : String) (d : Bytes) (now : ℤ)
    → at_key ns key (fresh_row ns key d type_int now none) ≡ true
unfolding fresh_row
at_fresh ns key d now = at_key_self (fresh_row ns key d type_int now none)

-- The row that the statement leaves at the key.
abbrev pub Summed : ℤ → Option Row → Type 0
Summed total none = false ≡ true
Summed total (some r) = r.value ≡ format_int total

count_up-KeepsKey :
    (add : Bytes → Bytes → Bytes) (amount : Bytes) (now : ℤ)
    → KeepsKey (count_up add amount type_int now)
unfolding count_up
count_up-KeepsKey add amount now r = (refl, refl)

sum_text :
    (add : Bytes → Bytes → Bytes) (r : Row) (now n amount : ℤ)
    → IsAdder add
    → Counts (some r) now n
    → Fits n amount
    → (count_up add (format_int amount) type_int now r).value ≡ format_int (n +ℤ amount)
unfolding count_up summed
sum_text add r now n amount a (inl (x, e)) (f, g, h) =
    rw (x, e, ← format_int_zero) (a.exact (pos 0) amount (rw e at f) g (rw e at h))
sum_text add r now n amount a (inr (x, e, t)) (f, g, h) = rw (x, e) (a.exact n amount f g h)

allowed_row :
    (r : Row) (now n : ℤ)
    → Counts (some r) now n
    → (is_expired r.expires_at now || r.value_type == 2) ≡ true
allowed_row r now n (inl (x, e)) = ground (arith, x)
allowed_row r now n (inr (x, e, t)) = rw (x, t) refl

module _ (add : Bytes → Bytes → Bytes) (ns key : String) (now n amount : ℤ) (a : IsAdder add)
    (f : Fits n amount) where
  upserted-Summed :
      (found : Option Row)
      → Counts found now n
      → Summed (n +ℤ amount) (
          some (
            upserted
              (fresh_row ns key (format_int amount) type_int now none)
              (count_up add (format_int amount) type_int now)
              (λ r. is_expired r.expires_at now || r.value_type == 2)
              found))
  unfolding fresh_row
  upserted-Summed none e = rw (e, zero_add_ℤ amount) refl
  upserted-Summed (some r) e = rw (allowed_row r now n e) (sum_text add r now n amount a e f)

  incr_row-Summed :
      (t : Table)
      → Counts (select_key ns key t) now n
      → Summed (n +ℤ amount) (
          select_key ns key
            (incr_row add (format_int amount) type_int (λ t. t == 2) now ns key t).0)
  unfolding incr_row
  incr_row-Summed t c =
      rw
        (
          select_key-upsert ns key (fresh_row ns key (format_int amount) type_int now none)
              (count_up add (format_int amount) type_int now)
              (λ r. is_expired r.expires_at now || r.value_type == 2) t
              (count_up-KeepsKey add (format_int amount) now),
          at_fresh ns key (format_int amount) now,
        )
        (upserted-Summed (select_key ns key t) c)

-- what Incr does once it has read the text back
report : String → Bytes → M Bytes
report key stored = do changed op_set (some (key ∷ [])) 1; maybe_opportunistic_sweep; pure stored

report-Ends :
    (u : World) (key : String) (stored : Bytes) {E : Error → World → Type 0}
    → Ends u (report key stored) (λ s _. s ≡ stored) E
unfolding report
report-Ends u key stored = Ends-bind (
    Ends-Safe {fading = true} (Runs-changed _ _ _) (Safe-changed _ _ _) refl (λ _ x m. Ends-bind (
      Ends-Safe {fading = true} Runs-maybe_opportunistic_sweep Safe-maybe_opportunistic_sweep refl
        (λ _ y k. Ends-pure _ refl))))

read_back-Ends :
    (u : World) (total : ℤ) (found : Option Row)
    → Summed total found
    → Ends u (read_back found) (λ s v. s ≡ format_int total) (λ _ _. Unit {0})
unfolding read_back
read_back-Ends u total none h = ground (arith, h)
read_back-Ends u total (some r) h = Ends-pure r.value h

parsed-Ends :
    (u : World) (total : ℤ) (text : Bytes)
    → IsInt64 total
    → text ≡ format_int total
    → Ends u (parsed (parse_int text)) (λ m _. m ≡ total) (λ _ _. Unit {0})
unfolding parsed
parsed-Ends u total text i h = rw (h, parse_int-format_int total i) (Ends-pure total refl)

module _ (w : World) (key : String) (n amount : ℤ) (a : IsAdder w.env.sql_add)
    (f : Fits n amount) where
  incr-Ends :
      Counts (select_key w.cache.namespace key w.db.rows) (w.env.clock 0) n
      → Ends w (incr key amount) (λ m _. m ≡ n +ℤ amount) (λ _ _. Unit {0})
  unfolding incr atomic_incr report
  incr-Ends c = Ends-bind (
      Ends-bind (
        Ends-now_millis (
          Ends-bind (
            Ends-get_cache (
              Ends-bind (
                Ends-get_env (
                  Ends-bind (
                    Ends-exec _
                      (λ x.
                        Ends-if
                          ((incr_row w.env.sql_add (format_int amount) type_int (λ t. t == 2)
                              (w.env.clock 0) w.cache.namespace key w.db.rows).1
                            == 0)
                          _ _ (λ y. Ends-raise _ tt)
                          (λ y. Ends-bind (
                            Ends-query _
                              (λ z. Ends-bind (
                                Ends-weaken
                                  (read_back-Ends _ (n +ℤ amount) _ (
                                    incr_row-Summed w.env.sql_add w.cache.namespace key
                                      (w.env.clock 0) n amount a f w.db.rows c))
                                  (λ s v e.
                                    Ends-weaken (report-Ends v key s)
                                      (λ t x p. parsed-Ends x (n +ℤ amount) t f.2 (p ∙ e))
                                      (λ _ _ q. q))
                                  (λ _ _ q. q)))
                              (λ z. tt))))
                      (λ x. tt)))))))))

-- Incr, when it returns a number, returns the sum of the amount and of the counter that was stored
-- when its statement ran: an absent or expired counter counts from 0. The stored number, the amount
-- and the sum are to be int64s, and SQLite's sum of two integer texts exact there.
pub incr-adds :
    (w u : World) (key : String) (n amount m : ℤ)
    → IsAdder w.env.sql_add
    → Fits n amount
    → Counts (select_key w.cache.namespace key w.db.rows) (w.env.clock 0) n
    → incr key amount w ≡ (ok m, u)
    → m ≡ n +ℤ amount
incr-adds w u key n amount m a f c e = Ends-ok (incr-Ends w key n amount a f c) e
