-- ===== src/Sweep/Removal.antt =====
-- Removing expired rows in batches is one delete of all of them.
use lytecache.Common.{
  ℕ, zero, suc, ◌+◌, ◌<◌, String, Bool, true, false, not, [], ◌∷◌, ◌≡◌, refl, ◌∙◌, arith, ltb,
  ltb→lt, lt→ltb, ℤ, length,
}
use lytecache.Table.{Row, Table, delete_where, delete_limit}
use lytecache.World.{World}
use lytecache.World.Ends.{
  Ends, ticked, Ends-pure, Ends-if, Ends-bind, Ends-attempt, Ends-exec, Ends-set_cache,
  Ends-now_millis, Ends-get_cache, Ends-get_db, Ends-weaken, Ends-state,
}
use lytecache.Events.{sweep_batch_size}
use lytecache.Sweep.{expired_in, count_removed, remove_expired, remove_expired_batch}

-- a bounded delete, then all of the rest
delete_where-delete_limit :
    (n : ℕ) (p : Row → Bool) (t : Table)
    → (delete_where p (delete_limit n p t).0).0 ≡ (delete_where p t).0
unfolding delete_where delete_limit
delete_where-delete_limit zero p t = refl
delete_where-delete_limit (suc n) p [] = refl
delete_where-delete_limit (suc n) p (r ∷ t) =
    ground (arith, delete_where-delete_limit n p t, delete_where-delete_limit (suc n) p t)

-- a bounded delete that was not full has deleted all
delete_limit_short :
    (n : ℕ) (p : Row → Bool) (t : Table)
    → (delete_limit n p t).1 < n
    → (delete_limit n p t).0 ≡ (delete_where p t).0
unfolding delete_where delete_limit
delete_limit_short zero p t h = ground arith
delete_limit_short (suc n) p [] h = refl
delete_limit_short (suc n) p (r ∷ t) h =
    ground (arith, delete_limit_short n p t, delete_limit_short (suc n) p t)

length-delete_limit :
    (n : ℕ) (p : Row → Bool) (t : Table)
    → length (delete_limit n p t).0 + (delete_limit n p t).1 ≡ length t
unfolding delete_limit
length-delete_limit zero p t = omega arith
length-delete_limit (suc n) p [] = ground arith
length-delete_limit (suc n) p (r ∷ t) =
    ground (arith, length-delete_limit n p t, length-delete_limit (suc n) p t)

abbrev pub NoFaults : World → Type 0
NoFaults w = (n : ℕ) → w.env.faults n ≡ false

-- all expired rows of the namespace are gone, and the other rows stand as they did
abbrev pub Swept : String → ℤ → World → World → Type 0
Swept ns now w u = u.db.rows ≡ (delete_where (expired_in ns now) w.db.rows).0

next_round :
    (n f : ℕ) (p : Row → Bool) (t : Table)
    → n ≡ (delete_limit sweep_batch_size p t).1
    → not (ltb n sweep_batch_size) ≡ true
    → length t < suc f
    → length (delete_limit sweep_batch_size p t).0 < f
next_round n f p t e h k =
    ground (arith, length-delete_limit sweep_batch_size p t, lt→ltb n sweep_batch_size)

last_round : (n m : ℕ) → not (ltb n m) ≡ false → n < m
last_round n m h = ground (arith, ltb→lt n m)

remove_expired-Ends :
    (f : ℕ) (ns : String) (now : ℤ) (w : World)
    → NoFaults w
    → length w.db.rows < f
    → Ends w (remove_expired f ns now) (λ _ u. Swept ns now w u) (λ _ u. Swept ns now w u)
unfolding remove_expired count_removed
remove_expired-Ends zero ns now w n h = ground arith
remove_expired-Ends (suc f) ns now w n h = Ends-bind (
    Ends-attempt (
      Ends-exec _
        (λ x. Ends-bind (
          Ends-set_cache _ (
            Ends-if _ _ _
              (λ y.
                Ends-weaken
                  (remove_expired-Ends f ns now _ (λ i. n (suc i))
                    (next_round _ f (expired_in ns now) w.db.rows refl y h))
                  (λ _ u e. e ∙ delete_where-delete_limit sweep_batch_size _ w.db.rows)
                  (λ _ u e. e ∙ delete_where-delete_limit sweep_batch_size _ w.db.rows))
              (λ y. Ends-pure _ (
                delete_limit_short sweep_batch_size _ w.db.rows
                  (last_round _ sweep_batch_size y))))))
        (λ x. ground (arith, n 0))))

-- removeExpiredBatch, when no call of the driver fails: its batches of 500 end, and together they
-- delete exactly the namespace's rows that had expired when it read the clock; the other rows stand
-- as they did.
pub remove_expired_batch-rows :
    (w : World)
    → NoFaults w
    → (remove_expired_batch w).1.db.rows
      ≡ (delete_where (expired_in w.cache.namespace (w.env.clock 0)) w.db.rows).0
unfolding remove_expired_batch
remove_expired_batch-rows w n = Ends-state (
    Ends-bind (
      Ends-now_millis (
        Ends-bind (
          Ends-get_cache (
            Ends-bind (
              Ends-get_db (
                remove_expired-Ends _ w.cache.namespace (w.env.clock 0) (ticked w) n
                  (omega arith))))))))
