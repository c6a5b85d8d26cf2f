-- ===== src/Sweep/Passes.antt =====
-- The passes of the eviction end with the namespace below its limits.
use lytecache.Common.{
  ℕ, zero, suc, ◌+◌, ◌<◌, String, Bool, true, false, not, ◌||◌, Option, none, some, List, [], ◌∷◌,
  ◌≡◌, refl, arith, ◌==◌, All, All-map, inl, inr, Bool-cases, ◌⊎◌, eq_iff, is_some,
}
use lytecache.Errors.{ok}
use lytecache.Table.{Row, Table, at_key, in_namespace, select_where, delete_where, count_where}
use lytecache.World.{World, Config, Eviction}
use lytecache.World.Ends.{
  Ends, Ends-pure, Ends-if, Ends-bind, Ends-attempt, Ends-exec, Ends-query, Ends-set_cache,
  Ends-next_die, Ends-get_cache, Ends-weaken, Ends-state,
}
use lytecache.Sweep.{
  pick_victim, delete_victim, evict_one, sums_of, over_limits, must_evict, count_evicted,
  evict_passes, enforce_capacity, is_no_eviction, is_unlimited, max_eviction_passes,
}
use lytecache.Sweep.Removal.{NoFaults}
use lytecache.Sweep.Victims.{Chosen, pick_victim-Chosen, pick_victim-some}

count_where-delete_where :
    (p q : Row → Bool) (t : Table)
    → ((r : Row) → q r ≡ true → p r ≡ true)
    → count_where p (delete_where q t).0 + (delete_where q t).1 ≡ count_where p t
unfolding count_where delete_where
count_where-delete_where p q [] h = omega arith
count_where-delete_where p q (r ∷ t) h = ground (arith, h r, count_where-delete_where p q t h)

-- deleting by the key of a row of the namespace removes a row
abbrev pub Removable : String → Table → Row → Type 0
Removable ns t v = 0 < (delete_where (at_key ns v.key) t).1

Removable-more :
    (ns : String) (r : Row) (t : Table) (v : Row) → Removable ns t v → Removable ns (r ∷ t) v
unfolding delete_where
Removable-more ns r t v h = ground arith

Removable-head :
    (ns : String) (r : Row) (t : Table) → in_namespace ns r ≡ true → Removable ns (r ∷ t) r
unfolding delete_where at_key in_namespace
Removable-head ns r t h = ground (arith, eq_iff r.key r.key)

All-Removable : (ns : String) (t : Table) → All (Removable ns t) (select_where (in_namespace ns) t)
unfolding select_where
All-Removable ns [] = tt
All-Removable ns (r ∷ t) =
    let rest =
      All-map (select_where (in_namespace ns) t) (Removable-more ns r t) (All-Removable ns t) in
    elim (Bool-cases (in_namespace ns r)) [
      | inl x ↦ rw x (Removable-head ns r t x, rest)
      | inr x ↦ rw x rest
    ]

select_where_none : (p : Row → Bool) (t : Table) → select_where p t ≡ [] → count_where p t ≡ 0
unfolding select_where count_where
select_where_none p [] h = refl
select_where_none p (r ∷ t) h = ground (arith, select_where_none p t)

at_key_in : (ns k : String) (r : Row) → at_key ns k r ≡ true → in_namespace ns r ≡ true
unfolding at_key in_namespace
at_key_in ns k r h = ground arith

-- What one eviction does to the number of rows: it takes some, unless there are none.
abbrev pub Shrinks : String → Table → Table × ℕ → Type 0
Shrinks ns t (u, n) =
    (count_where (in_namespace ns) u + n ≡ count_where (in_namespace ns) t)
    × ((n ≡ 0) → count_where (in_namespace ns) t ≡ 0)

delete_victim-Shrinks :
    (ns : String) (t : Table) (v : Option Row)
    → Chosen (Removable ns t) v
    → (is_some v ≡ false → count_where (in_namespace ns) t ≡ 0)
    → Shrinks ns t (delete_victim ns v t)
unfolding delete_victim
delete_victim-Shrinks ns t none c h =
    (count_where-delete_where (in_namespace ns) (λ _. false) t (λ r x. ground arith), λ e. h refl)
delete_victim-Shrinks ns t (some v) c h = (
  count_where-delete_where (in_namespace ns) (at_key ns v.key) t (at_key_in ns v.key),
  λ e. ground (arith, c, e),
)

no_victim :
    (e : Eviction) (die : ℕ) (rows : List Row)
    → is_some (pick_victim e die rows) ≡ false
    → rows ≡ []
no_victim e die [] h = refl
no_victim e die (r ∷ rs) h = ground (arith, pick_victim-some e die r rs)

pub evict_one-Shrinks :
    (e : Eviction) (die : ℕ) (ns : String) (t : Table) → Shrinks ns t (evict_one e die ns t)
unfolding evict_one
evict_one-Shrinks e die ns t =
    delete_victim-Shrinks ns t (pick_victim e die (select_where (in_namespace ns) t))
      (pick_victim-Chosen (Removable ns t) e die (select_where (in_namespace ns) t)
        (All-Removable ns t))
      (λ h.
        select_where_none (in_namespace ns) t
          (no_victim e die (select_where (in_namespace ns) t) h))

-- The namespace is within its limits, or has no row left.
abbrev pub WithinLimits : World → World → Type 0
WithinLimits w u =
    (over_limits w.cache.config (sums_of w.cache.namespace u.db.rows).0
        (sums_of w.cache.namespace u.db.rows).1
      ≡ false)
    ⊎ (count_where (in_namespace w.cache.namespace) u.db.rows ≡ 0)

fewer :
    (n f : ℕ) (ns : String) (t u : Table)
    → Shrinks ns t (u, n)
    → not (n == 0) ≡ true
    → count_where (in_namespace ns) t < suc f
    → count_where (in_namespace ns) u < f
fewer n f ns t u s h k = ground (arith, s.0)

none_left :
    (n : ℕ) (ns : String) (t u : Table)
    → Shrinks ns t (u, n)
    → not (n == 0) ≡ false
    → count_where (in_namespace ns) u ≡ 0
none_left n ns t u s h = ground (arith, s.0, s.1)

absurd : {A : Type 0} {b : Bool} → b ≡ false → b ≡ true → A
absurd h k = ground (arith, h, k)

below : (c : Config) (s : ℕ × ℕ) → must_evict c (ok s) ≡ false → over_limits c s.0 s.1 ≡ false
unfolding must_evict
below c (n, m) h = h

evict_passes-Ends :
    (f : ℕ) (w : World)
    → NoFaults w
    → count_where (in_namespace w.cache.namespace) w.db.rows < f
    → Ends w (evict_passes f) (λ _ u. WithinLimits w u) (λ _ u. WithinLimits w u)
unfolding evict_passes count_evicted
evict_passes-Ends zero w n h = ground arith
evict_passes-Ends (suc f) w n h = Ends-bind (
    Ends-get_cache (
      Ends-bind (
        Ends-attempt (
          Ends-query _
            (λ x.
              Ends-if (must_evict w.cache.config (ok (sums_of w.cache.namespace w.db.rows))) _ _
                (λ y. Ends-bind (
                  Ends-next_die (
                    Ends-bind (
                      Ends-attempt (
                        Ends-exec _
                          (λ z. Ends-bind (
                            Ends-set_cache _ (
                              Ends-if _ _ _
                                (λ s.
                                  Ends-weaken
                                    (evict_passes-Ends f _ (λ i. n (suc (suc i)))
                                      (fewer _ f w.cache.namespace w.db.rows _
                                        (evict_one-Shrinks w.cache.eviction (w.env.dice 0)
                                          w.cache.namespace w.db.rows)
                                        s h))
                                    (λ _ u e. e) (λ _ u e. e))
                                (λ s. Ends-pure _ (
                                  inr (
                                    none_left _ w.cache.namespace w.db.rows _
                                      (evict_one-Shrinks w.cache.eviction (w.env.dice 0)
                                        w.cache.namespace w.db.rows)
                                      s))))))
                          (λ z. absurd (n 1) z))))))
                (λ y. Ends-pure _ (inl (below _ _ y))))
            (λ x. absurd (n 0) x)))))

-- enforceCapacity, when no call of the driver fails, the policy evicts, a limit is set and the
-- namespace has less rows than maxEvictionPasses (a million): it ends with the namespace within its
-- limits, or with no row left in it.
pub enforce_capacity-WithinLimits :
    (w : World)
    → NoFaults w
    → is_no_eviction w.cache.eviction ≡ false
    → is_unlimited w.cache.config ≡ false
    → count_where (in_namespace w.cache.namespace) w.db.rows < max_eviction_passes
    → WithinLimits w (enforce_capacity w).1
unfolding enforce_capacity
enforce_capacity-WithinLimits w n e l h = Ends-state (
    Ends-bind (
      Ends-get_cache (
        Ends-if (is_no_eviction w.cache.eviction || is_unlimited w.cache.config) _ _
          (λ x. ground (arith, e, l, x)) (λ x. evict_passes-Ends _ w n h))))
