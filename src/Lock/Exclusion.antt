-- ===== src/Lock/Exclusion.antt =====
-- The lock: who takes it, and what a release deletes.
use lytecache.Common.{
  ℕ, String, true, false, Option, none, some, ◌≡◌, refl, ap, ◌∙◌, ℤ, if◌then◌else◌, ◌&&◌, ◌⊎◌, inl,
  inr, Option-cases,
}
use lytecache.Errors.{Error, ok, lock_timeout}
use lytecache.Strconv.{Bytes}
use lytecache.Value.{Value, encode_value, same_bytes}
use lytecache.Table.{Row, Table, at_key, select_key, delete_where, HasPrimaryKey}
use lytecache.Table.Laws.{select_key-delete_where, select_key_at}
use lytecache.World.{World}
use lytecache.World.Ends.{
  Ends, Ends-ok, Ends-pure, Ends-raise, Ends-if, Ends-lift, Ends-bind, Ends-exec, Ends-get_cache,
  Ends-get_env, Ends-now_millis, Ends-weaken,
}
use lytecache.Kv.Adds.{Added, add_with-Ends}
use lytecache.Lock.{lock_key, Lock, try_lock, release}

-- What one attempt found: the lock, which was free, or a lock that was held.
abbrev pub Attempted : World → String → Bytes → ℤ → Option Lock → World → Type 0
Attempted w name token timeout none u =
    Added w (lock_key name) (Value.string token) (some timeout) false u
Attempted w name token timeout (some l) u =
    (l.name ≡ name)
    × (l.token ≡ token)
    × Added w (lock_key name) (Value.string token) (some timeout) true u

-- An attempt that fails has changed no row, or has found the lock held past its deadline.
abbrev pub Missed : World → String → Bytes → ℤ → Error → World → Type 0
Missed w name token timeout e u =
    (u.db.rows ≡ w.db.rows)
    ⊎ ((e ≡ lock_timeout) × Added w (lock_key name) (Value.string token) (some timeout) false u)

try_lock-Ends :
    (w : World) (name : String) (token : Bytes) (timeout deadline : ℤ)
    → HasPrimaryKey w.db.rows
    → Ends w
        (try_lock name token timeout deadline)
        (λ r u. Attempted w name token timeout r u)
        (λ e u. Missed w name token timeout e u)
unfolding try_lock
try_lock-Ends w name token timeout deadline h = Ends-bind (
    Ends-weaken (add_with-Ends w (lock_key name) (Value.string token) (some timeout) h false)
      (λ b u a.
        Ends-if b _ _ (λ x. Ends-pure _ (refl, refl, rw x at a))
          (λ x. Ends-bind (
            Ends-now_millis (
              Ends-if _ _ _ (λ y. Ends-pure none (rw x at a))
                (λ y. Ends-raise _ (inr (refl, rw x at a)))))))
      (λ e u a. inl a))

-- The lock is exclusive: an attempt that takes it found no row of the lock, or one that had expired,
-- and its own token in the new row (which may be evicted); the result carries name and token.
pub try_lock-free :
    (w u : World) (name : String) (token : Bytes) (timeout deadline : ℤ) (l : Lock)
    → HasPrimaryKey w.db.rows
    → try_lock name token timeout deadline w ≡ (ok (some l), u)
    → Attempted w name token timeout (some l) u
try_lock-free w u name token timeout deadline l h e =
    Ends-ok (try_lock-Ends w name token timeout deadline h) e

-- The row at the key of a lock once the holder of the token `d` has released it.
abbrev pub holds_token : Bytes → Option Row → Option Row
holds_token d none = none
holds_token d (some r) = if same_bytes r.value d then none else some r

released :
    (ns key : String) (d : Bytes) (t : Table)
    → HasPrimaryKey t
    → select_key ns key (delete_where (λ r. at_key ns key r && same_bytes r.value d) t).0
      ≡ holds_token d (select_key ns key t)
released ns key d t h = elim (Option-cases (select_key ns key t)) [
  | inl x ↦
      select_key-delete_where ns key (λ r. at_key ns key r && same_bytes r.value d) t h ∙ rw x refl
  | inr (r, x) ↦
      select_key-delete_where ns key (λ r. at_key ns key r && same_bytes r.value d) t h
      ∙ rw x
          (ap (λ b. if b && same_bytes r.value d then none else some r) (select_key_at ns key t x))
]

release-Ends :
    (w : World) (l : Lock)
    → HasPrimaryKey w.db.rows
    → Ends w
        (release l)
        (λ _ u.
          (d : Bytes) × (code : ℕ) × (encode_value w.env.codec (Value.string l.token)
            ≡ ok (d, code))
          × (select_key w.cache.namespace (lock_key l.name) u.db.rows
              ≡ holds_token d (select_key w.cache.namespace (lock_key l.name) w.db.rows)))
        (λ e u. u.db.rows ≡ w.db.rows)
unfolding release
release-Ends w l h = Ends-bind (
    Ends-get_env (
      Ends-bind (
        Ends-lift _
          (λ (d, code) e. Ends-bind (
            Ends-get_cache (
              Ends-bind (
                Ends-exec _
                  (λ x.
                    Ends-pure _
                      (d, code, e, released w.cache.namespace (lock_key l.name) d w.db.rows h))
                  (λ x. refl)))))
          (λ x e. refl))))

-- Release deletes the row of the lock if it holds this lock's token, and keeps the row of another
-- holder.
pub release-holds_token :
    (w u : World) (l : Lock)
    → HasPrimaryKey w.db.rows
    → release l w ≡ (ok tt, u)
    → (d : Bytes) × (code : ℕ) × (encode_value w.env.codec (Value.string l.token) ≡ ok (d, code))
      × (select_key w.cache.namespace (lock_key l.name) u.db.rows
          ≡ holds_token d (select_key w.cache.namespace (lock_key l.name) w.db.rows))
release-holds_token w u l h e = Ends-ok (release-Ends w l h) e
