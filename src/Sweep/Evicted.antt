-- ===== src/Sweep/Evicted.antt =====
-- lytecache-go/sweep.go: which row an eviction takes, and that it takes no other.
use lytecache.Common.{
  ℕ, String, true, false, Option, none, some, List, [], ◌∷◌, ◌≡◌, ◌≢◌, ◌⊎◌, refl, ap, ◌∙◌, arith, ℤ,
  ltb_ℤ, if◌then◌else◌, All, All-map, inl, inr, Bool-cases, Option-cases, eq_iff,
}
use lytecache.Table.{
  Row, Table, HasPrimaryKey, at_key, in_namespace, select_key, select_where, delete_where,
}
use lytecache.Table.Laws.{at_key_eq, select_key_at, select_key-delete_where, other_key-at}
use lytecache.World.{Eviction, lru, ttl_policy, random, no_eviction}
use lytecache.Sweep.{is_no_eviction, evicts_before, pick_victim, delete_victim, evict_one}
use lytecache.Sweep.Victims.{
  NoneBefore, first_of_order-NoneBefore, pick_victim-Chosen, pick_victim-some,
}

-- A row with this expiry may go before one with that: it expires, and not after it, or neither does.
abbrev pub ExpiresFirst : Option ℤ → Option ℤ → Type 0
ExpiresFirst none y = y ≡ none
ExpiresFirst (some x) none = Unit {0}
ExpiresFirst (some x) (some y) = ltb_ℤ y x ≡ false

-- The policy lets `m` go before `r`: under LRU it was not accessed after it; under TTL as above;
-- Random may take any row, and NoEviction none.
abbrev pub MayGoFirst : Eviction → Row → Row → Type 0
MayGoFirst lru m r = ltb_ℤ r.last_accessed m.last_accessed ≡ false
MayGoFirst ttl_policy m r = ExpiresFirst m.expires_at r.expires_at
MayGoFirst random m r = Unit {0}
MayGoFirst no_eviction m r = ⊥

-- What one eviction leaves: everything, if the namespace is empty, and else all but one of its rows,
-- which may go before every row of the namespace.
abbrev pub Evicted : Eviction → String → Table → Table → Type 0
Evicted e ns t u =
    ((select_where (in_namespace ns) t ≡ []) × (u ≡ t))
    ⊎ ((m : Row) × (select_key ns m.key t ≡ some m)
        × All (λ r. MayGoFirst e m r) (select_where (in_namespace ns) t)
        × (select_key ns m.key u ≡ none)
        × ((i j : String) → (ns ≢ i) ⊎ (m.key ≢ j) → select_key i j u ≡ select_key i j t))

lru_first :
    (m : Row) (rows : List Row)
    → All (λ r. evicts_before lru r m ≡ false) rows
    → All (λ r. MayGoFirst lru m r) rows
unfolding evicts_before
lru_first m rows h = h

expires_first : (m r : Row) → evicts_before ttl_policy r m ≡ false → MayGoFirst ttl_policy m r
unfolding evicts_before
expires_first m r h = elim (Option-cases m.expires_at) [
  | inl x ↦ elim (Option-cases r.expires_at) [
    | inl y ↦ rw (x, y) refl
    | inr (b, y) ↦ ground (arith, rw (y, x) at h)
  ]
  | inr (a, x) ↦ elim (Option-cases r.expires_at) [
    | inl y ↦ rw (x, y) tt
    | inr (b, y) ↦ rw (x, y) (rw (y, x) at h)
  ]
]

ordered_first :
    (e : Eviction) (m : Row) (rows : List Row)
    → is_no_eviction e ≡ false
    → NoneBefore e rows (some m)
    → All (λ r. MayGoFirst e m r) rows
unfolding evicts_before is_no_eviction
ordered_first lru m rows n h = lru_first m rows h
ordered_first ttl_policy m rows n h = All-map rows (λ r k. expires_first m r k) h
ordered_first random m rows n h = All-map rows (λ r k. tt) h
ordered_first no_eviction m rows n h = ground (arith, n)

any_first : (m : Row) (rows : List Row) → All (λ r. MayGoFirst random m r) rows
any_first m [] = tt
any_first m (r ∷ rows) = (tt, any_first m rows)

picked_first :
    (e : Eviction) (die : ℕ) (m : Row) (rows : List Row)
    → is_no_eviction e ≡ false
    → pick_victim e die rows ≡ some m
    → All (λ r. MayGoFirst e m r) rows
unfolding pick_victim is_no_eviction
picked_first lru die m rows n h =
    ordered_first lru m rows refl (rw h at (first_of_order-NoneBefore lru rows))
picked_first ttl_policy die m rows n h =
    ordered_first ttl_policy m rows refl (rw h at (first_of_order-NoneBefore ttl_policy rows))
picked_first random die m rows n h = any_first m rows
picked_first no_eviction die m rows n h = ground (arith, n)

-- every row of the namespace is the one at its key
abbrev At : String → Table → Row → Type 0
At ns t r = select_key ns r.key t ≡ some r

At-past :
    (ns : String) (t : Table) (r s : Row)
    → select_key r.namespace r.key t ≡ none
    → At ns t s
    → At ns (r ∷ t) s
unfolding select_key
At-past ns t r s h e = elim (Bool-cases (at_key ns s.key r)) [
  | inl x ↦ let (p, q) = at_key_eq ns s.key r x in cc (rw (p, q) at h, e)
  | inr x ↦ rw x e
]

At-here : (ns : String) (t : Table) (r : Row) → in_namespace ns r ≡ true → At ns (r ∷ t) r
unfolding select_key in_namespace at_key
At-here ns t r h = rw (h, (eq_iff r.key r.key).1 refl) refl

namespace_rows :
    (ns : String) (t : Table) → HasPrimaryKey t → All (At ns t) (select_where (in_namespace ns) t)
unfolding select_where
namespace_rows ns [] h = tt
namespace_rows ns (r ∷ t) h =
    let rest =
      All-map (select_where (in_namespace ns) t) (λ s k. At-past ns t r s h.0 k)
        (namespace_rows ns t h.1) in
    elim (Bool-cases (in_namespace ns r)) [
      | inl x ↦ rw x (At-here ns t r x, rest)
      | inr x ↦ rw x rest
    ]

kept_elsewhere :
    (ns : String) (t : Table) (m : Row) (i j : String) (found : Option Row)
    → select_key i j t ≡ found
    → (ns ≢ i) ⊎ (m.key ≢ j)
    → elim found [ none ↦ none | some r ↦ if at_key ns m.key r then none else some r ] ≡ found
kept_elsewhere ns t m i j none e n = refl
kept_elsewhere ns t m i j (some r) e n =
    rw (other_key-at ns m.key i j r n (select_key_at i j t {r = r} e)) refl

removed :
    (ns : String) (t : Table) (m : Row)
    → HasPrimaryKey t
    → select_key ns m.key t ≡ some m
    → (select_key ns m.key (delete_where (at_key ns m.key) t).0 ≡ none)
      × ((i j : String)
          → (ns ≢ i) ⊎ (m.key ≢ j)
          → select_key i j (delete_where (at_key ns m.key) t).0 ≡ select_key i j t)
removed ns t m h e = (
  select_key-delete_where ns m.key (at_key ns m.key) t h
      ∙ rw (e, select_key_at ns m.key t {r = m} e) refl,
  λ i j n. select_key-delete_where i j (at_key ns m.key) t h ∙ kept_elsewhere ns t m i j _ refl n,
)

none_deleted : (t : Table) → (delete_where (λ _. false) t).0 ≡ t
unfolding delete_where
none_deleted [] = refl
none_deleted (r ∷ t) = ap (◌∷◌ r) (none_deleted t)

unpicked : (e : Eviction) (die : ℕ) (rows : List Row) → pick_victim e die rows ≡ none → rows ≡ []
unpicked e die [] h = refl
unpicked e die (r ∷ rows) h = ground (arith, rw h at (pick_victim-some e die r rows))

evicted :
    (e : Eviction) (die : ℕ) (ns : String) (t : Table) (picked : Option Row)
    → HasPrimaryKey t
    → is_no_eviction e ≡ false
    → pick_victim e die (select_where (in_namespace ns) t) ≡ picked
    → Evicted e ns t (delete_victim ns picked t).0
unfolding delete_victim
evicted e die ns t none h n p = inl (unpicked e die _ p, none_deleted t)
evicted e die ns t (some m) h n p =
    let here : At ns t m = rw p at (pick_victim-Chosen (At ns t) e die _ (namespace_rows ns t h)) in
    let (gone, kept) = removed ns t m h here in
    inr (m, here, picked_first e die m _ n p, gone, kept)

-- An eviction (the DELETE of enforceCapacity), in a table with at most one row at each key and under any
-- policy but NoEviction: it leaves a table without rows of the namespace as it is; else it removes one row of
-- the namespace and no other row: under LRU one that no row of the namespace was accessed before; under
-- TTL one with the earliest expiry, or any where none expires.
pub evict_one-Evicted :
    (e : Eviction) (die : ℕ) (ns : String) (t : Table)
    → HasPrimaryKey t
    → is_no_eviction e ≡ false
    → Evicted e ns t (evict_one e die ns t).0
unfolding evict_one
evict_one-Evicted e die ns t h n = evicted e die ns t _ h n refl
