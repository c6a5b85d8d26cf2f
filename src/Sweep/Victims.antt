-- ===== src/Sweep/Victims.antt =====
-- Eviction: which row goes first, and that the passes end below the limits.
use lytecache.Common.{
  ℕ, zero, suc, ◌%◌, ◌<◌, Bool, true, false, Option, none, some, List, [], ◌∷◌, ◌≡◌, refl, sym, ◌∙◌,
  arith, if◌then◌else◌, ℤ, ltb_ℤ, ltb_ℤ-asym, ltb_ℤ-neg_trans, Bool-cases, length, All, All-map,
  inl, inr, Option-cases, get_elem?, is_some,
}
use lytecache.Table.{Row}
use lytecache.World.{Eviction, lru, ttl_policy, random, no_eviction}
use lytecache.Sweep.{evicts_before, first_of_order, pick_victim}

-- the test of the ttl policy, on two expiries
expires_before : Option ℤ → Option ℤ → Bool
expires_before none b = false
expires_before (some x) none = true
expires_before (some x) (some y) = ltb_ℤ x y

ttl_order : (a b : Row) → evicts_before ttl_policy a b ≡ expires_before a.expires_at b.expires_at
unfolding evicts_before expires_before
ttl_order a b = elim (Option-cases a.expires_at) [
  | inl x ↦ rw x refl
  | inr (t, x) ↦ elim (Option-cases b.expires_at) [
    | inl y ↦ rw (x, y) refl
    | inr (u, y) ↦ rw (x, y) refl
  ]
]

expires_asym : (a b : Option ℤ) → expires_before a b ≡ true → expires_before b a ≡ false
unfolding expires_before
expires_asym none none h = refl
expires_asym none (some y) h = ground arith
expires_asym (some x) none h = refl
expires_asym (some x) (some y) h = ltb_ℤ-asym x y h

expires_neg_trans :
    (a b c : Option ℤ)
    → expires_before b a ≡ false
    → expires_before c b ≡ false
    → expires_before c a ≡ false
unfolding expires_before
expires_neg_trans a b none h k = refl
expires_neg_trans none none (some z) h k = ground arith
expires_neg_trans none (some y) (some z) h k = ground arith
expires_neg_trans (some x) none (some z) h k = ground arith
expires_neg_trans (some x) (some y) (some z) h k = ltb_ℤ-neg_trans x y z h k

before_asym : (e : Eviction) (a b : Row) → evicts_before e a b ≡ true → evicts_before e b a ≡ false
unfolding evicts_before
before_asym lru a b h = ltb_ℤ-asym a.last_accessed b.last_accessed h
before_asym random a b h = ltb_ℤ-asym a.last_accessed b.last_accessed h
before_asym no_eviction a b h = ltb_ℤ-asym a.last_accessed b.last_accessed h
before_asym ttl_policy a b h =
    ttl_order b a ∙ expires_asym a.expires_at b.expires_at (sym (ttl_order a b) ∙ h)

before_neg_trans :
    (e : Eviction) (a b c : Row)
    → evicts_before e b a ≡ false
    → evicts_before e c b ≡ false
    → evicts_before e c a ≡ false
unfolding evicts_before
before_neg_trans lru a b c h k = ltb_ℤ-neg_trans a.last_accessed b.last_accessed c.last_accessed h k
before_neg_trans random a b c h k =
    ltb_ℤ-neg_trans a.last_accessed b.last_accessed c.last_accessed h k
before_neg_trans no_eviction a b c h k =
    ltb_ℤ-neg_trans a.last_accessed b.last_accessed c.last_accessed h k
before_neg_trans ttl_policy a b c h k =
    ttl_order c a
    ∙ expires_neg_trans a.expires_at b.expires_at c.expires_at (sym (ttl_order b a) ∙ h)
        (sym (ttl_order c b) ∙ k)

before_irrefl : (e : Eviction) (r : Row) → evicts_before e r r ≡ false
before_irrefl e r = elim (Bool-cases (evicts_before e r r)) [
  | inl y ↦ before_asym e r r y
  | inr y ↦ y
]

mod_lt : (n k : ℕ) → n % suc k < suc k
mod_lt n k = ground arith

abbrev pub NoneBefore : Eviction → List Row → Option Row → Type 0
NoneBefore e rows none = rows ≡ []
NoneBefore e rows (some m) = All (λ r. evicts_before e r m ≡ false) rows

step_first :
    (e : Eviction) (r : Row) (rs : List Row) (m : Option Row)
    → NoneBefore e rs m
    → NoneBefore e
        (r ∷ rs)
        (elim m [ none ↦ some r | some x ↦ if evicts_before e x r then some x else some r ])
step_first e r rs none h = (before_irrefl e r, rw h tt)
step_first e r rs (some x) h = elim (Bool-cases (evicts_before e x r)) [
  | inl y ↦ rw y (before_asym e x r y, h)
  | inr y ↦ rw y (before_irrefl e r, All-map rs (λ z k. before_neg_trans e r x z y k) h)
]

-- The row that is evicted first: no row of the list comes before it in the order of the policy
-- (least last_accessed, or for the TTL policy the earliest expiry, rows without one last).
pub first_of_order-NoneBefore :
    (e : Eviction) (rows : List Row) → NoneBefore e rows (first_of_order e rows)
unfolding first_of_order
first_of_order-NoneBefore e [] = refl
first_of_order-NoneBefore e (r ∷ rs) =
    step_first e r rs (first_of_order e rs) (first_of_order-NoneBefore e rs)

-- a property of all rows is one of the victim
abbrev pub Chosen : (Row → Type 0) → Option Row → Type 0
Chosen P none = Unit {0}
Chosen P (some r) = P r

step-Chosen :
    (P : Row → Type 0) (e : Eviction) (r : Row) (m : Option Row)
    → P r
    → Chosen P m
    → Chosen P (elim m [ none ↦ some r | some x ↦ if evicts_before e x r then some x else some r ])
step-Chosen P e r none h k = h
step-Chosen P e r (some x) h k = elim (Bool-cases (evicts_before e x r)) [
  | inl y ↦ rw y k
  | inr y ↦ rw y h
]

first-Chosen :
    (P : Row → Type 0) (e : Eviction) (rows : List Row)
    → All P rows
    → Chosen P (first_of_order e rows)
unfolding first_of_order
first-Chosen P e [] h = tt
first-Chosen P e (r ∷ rs) h = step-Chosen P e r (first_of_order e rs) h.0 (first-Chosen P e rs h.1)

get-Chosen : (P : Row → Type 0) (rows : List Row) (i : ℕ) → All P rows → Chosen P (get_elem? rows i)
get-Chosen P [] i h = tt
get-Chosen P (r ∷ rs) zero h = h.0
get-Chosen P (r ∷ rs) (suc i) h = get-Chosen P rs i h.1

pub pick_victim-Chosen :
    (P : Row → Type 0) (e : Eviction) (die : ℕ) (rows : List Row)
    → All P rows
    → Chosen P (pick_victim e die rows)
unfolding pick_victim
pick_victim-Chosen P lru die rows h = first-Chosen P lru rows h
pick_victim-Chosen P ttl_policy die rows h = first-Chosen P ttl_policy rows h
pick_victim-Chosen P random die rows h = get-Chosen P rows (die % length rows) h
pick_victim-Chosen P no_eviction die rows h = first-Chosen P no_eviction rows h

-- there is a victim unless there is no row
first-some : (e : Eviction) (r : Row) (rs : List Row) → is_some (first_of_order e (r ∷ rs)) ≡ true
unfolding first_of_order
first-some e r rs = ground arith

get-some : (rows : List Row) (i : ℕ) → i < length rows → is_some (get_elem? rows i) ≡ true
get-some [] i h = ground arith
get-some (r ∷ rs) zero h = refl
get-some (r ∷ rs) (suc i) h = get-some rs i (omega arith)

pub pick_victim-some :
    (e : Eviction) (die : ℕ) (r : Row) (rs : List Row) → is_some (pick_victim e die (r ∷ rs)) ≡ true
unfolding pick_victim
pick_victim-some lru die r rs = first-some lru r rs
pick_victim-some ttl_policy die r rs = first-some ttl_policy r rs
pick_victim-some no_eviction die r rs = first-some no_eviction r rs
pick_victim-some random die r rs =
    get-some (r ∷ rs) (die % length (r ∷ rs)) (mod_lt die (length rs))
