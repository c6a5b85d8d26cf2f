-- ===== src/Hash/Fallback.antt =====
-- What the read-modify-write fallback does to the table, and when it does nothing.
use lytecache.Common.{
  ◌∙◌, ℕ, String, Bool, true, false, not, ◌&&◌, ◌≡◌, refl, ap, Option, some, ◌==◌, inl, inr, [],
  ◌∷◌, ℤ, is_some, if◌then◌else◌, Bool-cases,
}
use lytecache.Errors.{Error, ok}
use lytecache.Table.{Row, Table, HasPrimaryKey}
use lytecache.Table.Laws.{HasPrimaryKey-update_where}
use lytecache.Table.Fading.{Trace-Fades}
use lytecache.World.{World, M, Db, op_set, ◌>>◌, when, pure}
use lytecache.World.Rules.{runs}
use lytecache.World.Safe.{safe}
use lytecache.World.Ends.{
  Ends, called, Ends-pure, Ends-raise, Ends-lift, Ends-if, Ends-bind, Ends-exec, Ends-query,
  Ends-get_cache, Ends-get_env, Ends-now_millis, Ends-weaken, Ends-Safe, Ends-in_tx,
}
use lytecache.Changes.{changed}
use lytecache.Changes.Rows.{Runs-changed}
use lytecache.Changes.Safe.{Safe-changed}
use lytecache.Sweep.{maybe_evict, is_no_eviction, is_unlimited}
use lytecache.Sweep.Rows.{Runs-maybe_evict}
use lytecache.Sweep.Safe.{Safe-maybe_evict}
use lytecache.Kv.{reaches}
use lytecache.Kv.Stores.{put_row-HasPrimaryKey}
use lytecache.World.Calls.{Ends-call}
use lytecache.Json.{Fields}
use lytecache.Hash.Quiet.{is_quiet, Settles, Ends-when, quiet-Ends}
use lytecache.Hash.Written.{
  Live, HoldsObject, Outcome, live_row-Live, loaded_row-HoldsObject, write-Outcome,
}
use lytecache.Hash.{
  Mutation, live_row, loaded_row, load_hash, check_capacity_in, full_keys, capacity_for, or_empty,
  must_write, write_table, write_hash, rewrite_row, mutate_hash, in_immediate, rmw_hash,
}

-- The object that a hash operation works on: that of the key's live row, none where there is none.
abbrev Loaded : World → String → Option Fields → Type 0
Loaded w key found =
    loaded_row w.env.json (live_row w.cache.namespace key (w.env.clock 0) w.db.rows) ≡ ok found

-- The table after the write, if one is due.
abbrev table_after : World → String → Option ℤ → Bool → Bool → Option Fields → Fields → Table
table_after w key ttl create changes found o =
    if must_write changes create (is_some found)
    then (write_table w.env.json w.cache.namespace key ttl (w.env.clock 0) (is_some found) o
        w.db.rows).0
    else w.db.rows

-- in the terms of the code
abbrev Applied : {A : Type 0} → World → String → Option ℤ → Bool → Mutation A → A → Table → Type 0
Applied w key ttl create mutate r t =
    (found : Option Fields) × (changes : Bool) × (o : Fields) × Loaded w key found
    × (mutate (or_empty found) ≡ ok (changes, r, o))
    × Settles w (table_after w key ttl create changes found o) t

-- the calls of the driver, and reading the clock, leave this
abbrev Keeps : World → World → Type 0
Keeps w u = (u.db ≡ w.db) × (u.cache ≡ w.cache) × (u.env.json ≡ w.env.json)

load_hash-Ends :
    (w u : World) (key : String)
    → Keeps w u
    → Ends u
        (load_hash key (w.env.clock 0))
        (λ found v. Keeps w v × Loaded w key found)
        (λ _ _. Unit {0})
unfolding load_hash
load_hash-Ends w u key (d, c, j) = Ends-bind (
    Ends-get_cache (
      Ends-bind (
        Ends-get_env (
          Ends-bind (
            Ends-query _
              (λ x. Ends-lift _ (λ found e. ((d, c, j), rw (← d, ← c, ← j) e)) (λ b e. tt))
              (λ x. tt))))))

full_keys-Ends :
    (w u : World) (sums : ℕ × ℕ)
    → Keeps w u
    → Ends u (full_keys u.cache sums) (λ _ v. Keeps w v) (λ _ _. Unit {0})
unfolding full_keys
full_keys-Ends w u sums k =
    Ends-if (reaches u.cache.max_keys sums.0) _ _ (λ x. Ends-raise _ tt)
      (λ x.
        Ends-if (not (sums.0 == 0) && reaches u.cache.max_bytes sums.1) _ _ (λ y. Ends-raise _ tt)
          (λ y. Ends-pure _ k))

capacity_for-Ends :
    (w u : World) (create exists : Bool)
    → Keeps w u
    → Ends u (capacity_for create exists) (λ _ v. Keeps w v) (λ _ _. Unit {0})
unfolding capacity_for check_capacity_in
capacity_for-Ends w u create exists k = Ends-bind (
    Ends-get_cache (
      Ends-if
        (not exists
          && create
          && is_no_eviction u.cache.eviction
          && not (is_unlimited u.cache.config))
        _ _
        (λ x. Ends-bind (
          Ends-get_cache
            (Ends-bind (Ends-query _ (λ y. full_keys-Ends w (called u) _ k) (λ y. tt)))))
        (λ x. Ends-pure _ k)))

write_hash-Ends :
    (w u : World) (key : String) (ttl : Option ℤ) (exists : Bool) (o : Fields)
    → Keeps w u
    → Ends u
        (write_hash key ttl (w.env.clock 0) exists o)
        (λ _ v.
          (v.cache ≡ w.cache)
          × (v.db.rows
              ≡ (write_table w.env.json w.cache.namespace key ttl
                  (w.env.clock 0)
                  exists
                  o
                  w.db.rows).0))
        (λ _ _. Unit {0})
unfolding write_hash
write_hash-Ends w u key ttl exists o (d, c, j) = Ends-bind (
    Ends-get_cache (
      Ends-bind (
        Ends-get_env
          (Ends-bind (Ends-exec _ (λ x. Ends-pure _ (c, rw (d, c, j) refl)) (λ x. tt))))))

module _ {A : Type 0} (w : World) (key : String) (ttl : Option ℤ) (create : Bool)
    (mutate : Mutation A) where
  -- what the transaction has done when it commits
  abbrev Done : A × Bool → World → Type 0
  Done rw v =
      (found : Option Fields) × (changes : Bool) × (o : Fields) × Loaded w key found
      × (mutate (or_empty found) ≡ ok (changes, rw.0, o))
      × (v.db.rows ≡ table_after w key ttl create changes found o)
      × (v.cache ≡ w.cache)

  writing-Ends :
      (u : World) (found : Option Fields) (changes : Bool) (r : A) (o : Fields)
      → Keeps w u
      → Loaded w key found
      → mutate (or_empty found) ≡ ok (changes, r, o)
      → Ends u
          (if must_write changes create (is_some found)
            then (do write_hash key ttl (w.env.clock 0) (is_some found) o; pure (r, true))
            else pure (r, false))
          Done
          (λ _ _. Unit {0})
  writing-Ends u found changes r o k l m =
      Ends-if (must_write changes create (is_some found)) _ _
        (λ x. Ends-bind (
          Ends-weaken (write_hash-Ends w u key ttl (is_some found) o k)
            (λ _ v (c, e). Ends-pure _ (found, changes, o, l, m, rw x e, c)) (λ _ _ h. tt)))
        (λ x. Ends-pure _ (found, changes, o, l, m, rw x (ap (λ (d : Db). d.rows) k.0), k.1))

  mutate_hash-Ends :
      (u : World)
      → Keeps w u
      → Ends u (mutate_hash key ttl create (w.env.clock 0) mutate) Done (λ _ _. Unit {0})
  unfolding mutate_hash
  mutate_hash-Ends u k = Ends-bind (
      Ends-weaken (load_hash-Ends w u key k)
        (λ found v (k', l). Ends-bind (
          Ends-weaken (capacity_for-Ends w v create (is_some found) k')
            (λ _ v' k''. Ends-bind (
              Ends-lift _ (λ (changes, r, o) m. writing-Ends v' found changes r o k'' l m)
                (λ b e. tt)))
            (λ _ _ h. tt)))
        (λ _ _ h. tt))

  after_write : A × Bool → M A
  after_write rw = do when rw.1 (do changed op_set (some (key ∷ [])) 1; maybe_evict); pure rw.0

  table_after-HasPrimaryKey :
      (found : Option Fields) (changes : Bool) (o : Fields)
      → HasPrimaryKey w.db.rows
      → HasPrimaryKey (table_after w key ttl create changes found o)
  unfolding write_table rewrite_row
  table_after-HasPrimaryKey found changes o h =
      elim (Bool-cases (must_write changes create (is_some found))) [
        | inr x ↦ rw x h
        | inl x ↦ elim (Bool-cases (is_some found)) [
          | inl y ↦ rw (x, y) (HasPrimaryKey-update_where _ _ w.db.rows (λ r. (refl, refl)) h)
          | inr y ↦ rw (x, y) (put_row-HasPrimaryKey _ w.db.rows h)
        ]
      ]

  after_write-Ends :
      {E : Error → World → Type 0} (v : World) (rw : A × Bool)
      → HasPrimaryKey w.db.rows
      → Done rw v
      → Ends v (after_write rw) (λ r u. Applied w key ttl create mutate r u.db.rows) E
  unfolding after_write
  after_write-Ends v rw' h (found, changes, o, l, m, e, c) = elim (Bool-cases (is_quiet w)) [
    | inl q ↦ Ends-bind (
        Ends-when rw'.1 _
          (λ x.
            Ends-weaken (quiet-Ends v key (rw c q))
              (λ _ u k. Ends-pure _ (found, changes, o, l, m, rw q (k ∙ e))) (λ _ _ k. k))
          (λ x. Ends-pure _ (found, changes, o, l, m, rw q e)))
    | inr q ↦ Ends-bind (
        Ends-Safe {fading = true} (search (runs, Runs-changed, Runs-maybe_evict) depth 12)
          (search (safe, Safe-changed, Safe-maybe_evict) depth 12) refl
          (λ _ u t. Ends-pure _ (
            found,
            changes,
            o,
            l,
            m,
            rw (q, ← e) (Trace-Fades t.rows (rw e (table_after-HasPrimaryKey found changes o h))),
          )))
  ]

  rmw_hash-Ends :
      HasPrimaryKey w.db.rows
      → Ends w
          (rmw_hash key ttl create mutate)
          (λ r v. Applied w key ttl create mutate r v.db.rows)
          (λ _ v. v.db.rows ≡ w.db.rows)
  unfolding rmw_hash in_immediate after_write
  rmw_hash-Ends h = Ends-bind (
      Ends-now_millis (
        Ends-bind (
          Ends-bind (
            Ends-call
              (Ends-pure _ (
                Ends-in_tx (λ x. refl)
                  (λ x.
                    Ends-weaken (mutate_hash-Ends _ (refl, refl, refl))
                      (λ r v d. (λ y. after_write-Ends (called v) r h d, λ y. refl))
                      (λ _ v k. refl))))
              refl))))

-- The mutation was applied to the object of the key's live row, or to an empty one, and its outcome
-- was written.
abbrev pub Rewrites :
    {A : Type 0} → World → String → Option ℤ → Bool → Mutation A → A → Table → Type 0
Rewrites w key ttl create mutate r t =
    (old : Option Row) × (before : Fields) × (changes : Bool) × (o : Fields) × (m : Table) × Live
      w.cache.namespace key (w.env.clock 0) w.db.rows old
    × HoldsObject w.env.json old before
    × (mutate before ≡ ok (changes, r, o))
    × Outcome w.env.json w.cache.namespace key ttl (w.env.clock 0) create changes old o w.db.rows m
    × Settles w m t

Applied-Rewrites :
    {A : Type 0} (w : World) (key : String) (ttl : Option ℤ) (create : Bool) (mutate : Mutation A)
    (r : A) (t : Table)
    → HasPrimaryKey w.db.rows
    → Applied w key ttl create mutate r t
    → Rewrites w key ttl create mutate r t
Applied-Rewrites w key ttl create mutate r t h (found, changes, o, l, e, f) =
    let ns = w.cache.namespace in
    let now = w.env.clock 0 in
    let old = live_row ns key now w.db.rows in
    let live = live_row-Live ns key now w.db.rows h in
    let (a, b) = loaded_row-HoldsObject w.env.json old found l in
    (
      old,
      or_empty found,
      changes,
      o,
      _,
      live,
      a,
      e,
      write-Outcome w.env.json ns key ttl now create changes old (is_some found) o w.db.rows b live,
      f,
    )

-- The read-modify-write fallback (rmwHash). When it returns: the mutation was applied to the object of the
-- key's row, if that is there, has not expired and is of type JSON, or to an empty one where there is no
-- such row, and returned the result. If it has changed the object, and the row is there or to be created,
-- then the row of the key has the text of the new object and its length, was accessed now, and keeps
-- its type, creation time and expiry, with one more access; or it is new, of type JSON, created now, with
-- the expiry of the time to live and no access; and every other key, of any namespace, has the row it had.
-- If not, the table is as it was. In a cache that has no limit, or evicts nothing, and publishes no
-- changes that is what is left; else rows may have been taken away after it, and reads noted. When it
-- returns an error, it has changed no row.
pub rmw_hash-Rewrites :
    {A : Type 0} (w : World) (key : String) (ttl : Option ℤ) (create : Bool) (mutate : Mutation A)
    → HasPrimaryKey w.db.rows
    → Ends w
        (rmw_hash key ttl create mutate)
        (λ r u. Rewrites w key ttl create mutate r u.db.rows)
        (λ _ u. u.db.rows ≡ w.db.rows)
rmw_hash-Rewrites w key ttl create mutate h =
    Ends-weaken (rmw_hash-Ends w key ttl create mutate h)
      (λ r u a. Applied-Rewrites w key ttl create mutate r u.db.rows h a) (λ _ u e. e)
