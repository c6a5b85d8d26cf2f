-- ===== src/Kv/Capacity.antt =====
-- The capacity check of the no-eviction policy.
use lytecache.Common.{
  ℕ, String, Bool, true, false, not, ◌&&◌, ◌||◌, Option, none, some, ◌≡◌, refl, ◌∙◌, ◌==◌, ◌⊎◌, inl,
  inr, arith, is_some, ℤ, ap,
}
use lytecache.Errors.{Error, cache_full, database}
use lytecache.Table.{Table, in_namespace, select_key, count_where, sum_size}
use lytecache.World.{World, Cache, Config, ◌>>◌}
use lytecache.World.Ends.{
  Ends, Same, called, Ends-pure, Ends-raise, Ends-if, Ends-bind, Ends-query, Ends-get_cache,
  Ends-weaken,
}
use lytecache.Sweep.{is_no_eviction, is_unlimited}
use lytecache.Kv.{reaches, check_keys, check_bytes, check_capacity, capacity_check}

-- Whether the namespace has room for a row of the key: it has one already, or is below its limits.
abbrev pub has_room : Config → String → Table → Bool
has_room c key t =
    is_some (select_key c.namespace key t)
    || not (reaches c.max_keys (count_where (in_namespace c.namespace) t))
      && not (
          not (count_where (in_namespace c.namespace) t == 0)
          && reaches c.max_bytes (sum_size (in_namespace c.namespace) t))

-- Whether the check of a configuration passes a key.
abbrev pub admits : Config → String → Table → Bool
admits c key t = not (is_no_eviction c.eviction && not (is_unlimited c)) || has_room c key t

abbrev pub Refused : Bool → Error → Type 0
Refused room e = (e ≡ database) ⊎ ((e ≡ cache_full) × (room ≡ false))

below_keys : Config → Table → Bool
below_keys c t = not (reaches c.max_keys (count_where (in_namespace c.namespace) t))

below_bytes : Config → Table → Bool
below_bytes c t = not (
    not (count_where (in_namespace c.namespace) t == 0)
    && reaches c.max_bytes (sum_size (in_namespace c.namespace) t))

Same-refl : (w : World) → Same w w
Same-refl w = record { db = refl; cache = refl; codec = refl; clock = refl }

Same-called : (w : World) → Same w (called w)
Same-called w = record { db = refl; cache = refl; codec = refl; clock = refl }

Same-trans : {u v w : World} → Same u v → Same v w → Same u w
Same-trans a b = record {
  db = b.db ∙ a.db;
  cache = b.cache ∙ a.cache;
  codec = b.codec ∙ a.codec;
  clock = b.clock ∙ a.clock;
}

no_limit : (limit : Option ℤ) (n : ℕ) → is_some limit ≡ false → reaches limit n ≡ false
unfolding reaches
no_limit none n h = refl
no_limit (some l) n h = ground arith

module _ (w : World) where
  check_keys-Ends :
      (c : Cache)
      → Ends w
          (check_keys c)
          (λ _ u. Same w u × (below_keys c.config w.db.rows ≡ true))
          (λ e u. Same w u × Refused (below_keys c.config w.db.rows) e)
  unfolding check_keys below_keys
  check_keys-Ends c =
      Ends-if _ _ _
        (λ x. Ends-bind (
          Ends-query _
            (λ q.
              Ends-if _ _ _ (λ y. Ends-raise _ (Same-called w, inr (refl, ground (arith, y))))
                (λ y. Ends-pure _ (Same-called w, ground (arith, y))))
            (λ q. (Same-called w, inl refl))))
        (λ x. Ends-pure _ (
          Same-refl w,
          ground (arith, no_limit c.max_keys (count_where (in_namespace c.namespace) w.db.rows) x),
        ))

  check_bytes-Ends :
      (c : Cache)
      → Ends w
          (check_bytes c)
          (λ _ u. Same w u × (below_bytes c.config w.db.rows ≡ true))
          (λ e u. Same w u × Refused (below_bytes c.config w.db.rows) e)
  unfolding check_bytes below_bytes
  check_bytes-Ends c =
      Ends-if _ _ _
        (λ x. Ends-bind (
          Ends-query _
            (λ q.
              Ends-if _ _ _ (λ y. Ends-raise _ (Same-called w, inr (refl, ground (arith, y))))
                (λ y. Ends-pure _ (Same-called w, ground (arith, y))))
            (λ q. (Same-called w, inl refl))))
        (λ x. Ends-pure _ (
          Same-refl w,
          ground (arith, no_limit c.max_bytes (sum_size (in_namespace c.namespace) w.db.rows) x),
        ))

both : Cache → Table → Bool
both c t = below_keys c.config t && below_bytes c.config t

check_both-Ends :
    (w : World) (c : Cache)
    → Ends w
        (check_keys c >> check_bytes c)
        (λ _ u. Same w u × (both c w.db.rows ≡ true))
        (λ e u. Same w u × Refused (both c w.db.rows) e)
unfolding both
check_both-Ends w c = Ends-bind (
    Ends-weaken (check_keys-Ends w c)
      (λ _ u (s, h).
        Ends-weaken (check_bytes-Ends u c)
          (λ _ v (t, k). (Same-trans s t, ground (arith, ap (λ d. d.rows) s.db)))
          (λ e v (t, k). (Same-trans s t, ground (arith, ap (λ d. d.rows) s.db))))
      (λ e u (s, h). (s, ground arith)))

check_capacity-Ends :
    (w : World) (key : String)
    → Ends w
        (check_capacity key)
        (λ _ u. Same w u × (has_room w.cache.config key w.db.rows ≡ true))
        (λ e u. Same w u × Refused (has_room w.cache.config key w.db.rows) e)
unfolding check_capacity both below_keys below_bytes
check_capacity-Ends w key = Ends-bind (
    Ends-get_cache (
      Ends-bind (
        Ends-query _
          (λ q.
            Ends-if _ _ _ (λ x. Ends-pure _ (Same-called w, ground (arith, x)))
              (λ x.
                Ends-weaken (check_both-Ends (called w) w.cache)
                  (λ _ u (s, h). (Same-trans (Same-called w) s, ground (arith, x)))
                  (λ e u (s, h). (Same-trans (Same-called w) s, ground (arith, x)))))
          (λ q. (Same-called w, inl refl)))))

guarded : (g r : Bool) → g ≡ true → (not g || r) ≡ r
guarded true r h = refl
guarded false r h = ground arith

guarded_Refused : (g r : Bool) (e : Error) → g ≡ true → Refused r e → Refused (not g || r) e
guarded_Refused g r e x h = rw (guarded g r x) h

guarded_true : (g r : Bool) → r ≡ true → (not g || r) ≡ true
guarded_true g r h = rw h (ground arith)

unguarded : (g r : Bool) → g ≡ false → (not g || r) ≡ true
unguarded g r h = rw h refl

-- The check reads only. It passes a key exactly when the policy has no limit to keep, or the
-- namespace has the key or room for it; else it fails with ErrCacheFull, or with a driver error.
pub capacity_check-Ends :
    (w : World) (key : String)
    → Ends w
        (capacity_check key)
        (λ _ u. Same w u × (admits w.cache.config key w.db.rows ≡ true))
        (λ e u. Same w u × Refused (admits w.cache.config key w.db.rows) e)
unfolding capacity_check
capacity_check-Ends w key = Ends-bind (
    Ends-get_cache (
      Ends-if _ _ _
        (λ x.
          Ends-weaken (check_capacity-Ends w key) (λ _ u (s, h). (s, guarded_true _ _ h))
            (λ e u (s, h). (s, guarded_Refused _ _ e x h)))
        (λ x. Ends-pure _ (Same-refl w, unguarded _ _ x))))
