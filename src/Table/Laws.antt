-- ===== src/Table/Laws.antt =====
-- What each statement does to the row of a key, and that it keeps the primary key.
use lytecache.Common.{
  ℕ, zero, suc, String, Bool, true, false, not, Option, none, some, [], ◌∷◌, ◌≡◌, ◌≢◌, refl, sym,
  ◌∙◌, ◌⊎◌, arith, Bool-cases, inr, if◌then◌else◌, ℤ, ltb_ℤ-not, eq_iff, inl,
}
use lytecache.Table.{
  Row, Table, is_expired, is_live, at_key, select_key, upsert, update_where, delete_where,
  delete_limit, HasPrimaryKey,
}

pub is_live-not : (e : Option ℤ) (now : ℤ) → is_live e now ≡ not (is_expired e now)
unfolding is_live is_expired
is_live-not none now = refl
is_live-not (some e) now = ground (arith, ltb_ℤ-not now e)

-- Two keys at once: what stands at one is not at another.
pub at_key_eq : (ns k : String) (r : Row) → at_key ns k r ≡ true → (r.namespace ≡ ns) × (r.key ≡ k)
unfolding at_key
at_key_eq ns k r h = ground (arith, eq_iff r.namespace ns, eq_iff r.key k)

-- A row of one key is not at another.
pub other_key-at :
    (ns key i j : String) (r : Row)
    → (ns ≢ i) ⊎ (key ≢ j)
    → at_key i j r ≡ true
    → at_key ns key r ≡ false
other_key-at ns key i j r n h = elim (Bool-cases (at_key ns key r)) [
  | inr x ↦ x
  | inl x ↦
      let (p, q) = at_key_eq ns key r x in
      let (p', q') = at_key_eq i j r h in
      elim n [ inl k ↦ absurd (k (sym p ∙ p')) | inr k ↦ absurd (k (sym q ∙ q')) ]
]

pub at_key_self : (r : Row) → at_key r.namespace r.key r ≡ true
unfolding at_key
at_key_self r = ground (arith, eq_iff r.namespace r.namespace, eq_iff r.key r.key)

pub select_key_at :
    (ns k : String) (t : Table) {r : Row} → select_key ns k t ≡ some r → at_key ns k r ≡ true
unfolding select_key
select_key_at ns k [] h = ground arith
select_key_at ns k (r ∷ t) {r = s} h = ground (arith, select_key_at ns k t {r = s})

-- a setter that leaves the key alone
abbrev pub KeepsKey : (Row → Row) → Type 0
KeepsKey set = (r : Row) → ((set r).namespace ≡ r.namespace) × ((set r).key ≡ r.key)

at_key-set :
    (ns k : String) (set : Row → Row) (r : Row) → KeepsKey set → at_key ns k (set r) ≡ at_key ns k r
unfolding at_key
at_key-set ns k set r h = rw ((h r).0, (h r).1)

pub select_key-update_where :
    (ns k : String) (p : Row → Bool) (set : Row → Row) (t : Table)
    → KeepsKey set
    → select_key ns k (update_where p set t).0
      ≡ elim (select_key ns k t) [ none ↦ none | some r ↦ some (if p r then set r else r) ]
unfolding select_key update_where
select_key-update_where ns k p set [] h = refl
select_key-update_where ns k p set (r ∷ t) h =
    ground (arith, at_key-set ns k set r h, select_key-update_where ns k p set t h)

-- rows of one key stand at the same keys
at_key_congr :
    (ns k : String) (a b : Row) → at_key a.namespace a.key b ≡ true → at_key ns k b ≡ at_key ns k a
unfolding at_key
at_key_congr ns k a b h = ground (
  arith,
  eq_iff a.namespace ns,
  eq_iff a.key k,
  eq_iff b.namespace ns,
  eq_iff b.key k,
  eq_iff b.namespace a.namespace,
  eq_iff b.key a.key,
)

at_key_apart :
    (ns k : String) (a b : Row)
    → at_key a.namespace a.key b ≡ false
    → at_key ns k a ≡ true
    → at_key ns k b ≡ false
unfolding at_key
at_key_apart ns k a b h e = ground (
  arith,
  eq_iff a.namespace ns,
  eq_iff a.key k,
  eq_iff b.namespace ns,
  eq_iff b.key k,
  eq_iff b.namespace a.namespace,
  eq_iff b.key a.key,
)

-- The row at a key after an upsert.
abbrev pub upserted : Row → (Row → Row) → (Row → Bool) → Option Row → Row
upserted new set cond none = new
upserted new set cond (some r) = if cond r then set r else r

pub select_key-upsert :
    (ns k : String) (new : Row) (set : Row → Row) (cond : Row → Bool) (t : Table)
    → KeepsKey set
    → select_key ns k (upsert new set cond t).0 ≡ (
        if at_key ns k new
        then some (upserted new set cond (select_key ns k t))
        else select_key ns k t)
unfolding select_key upsert
select_key-upsert ns k new set cond [] h = refl
select_key-upsert ns k new set cond (r ∷ t) h = ground (
  arith,
  at_key_congr ns k new r,
  at_key_apart ns k new r,
  at_key-set ns k set r h,
  select_key-upsert ns k new set cond t h,
)

-- An upsert reports one row unless its condition refuses the row that is there.
pub count-upsert :
    (new : Row) (set : Row → Row) (cond : Row → Bool) (t : Table)
    → (upsert new set cond t).1
      ≡ elim (select_key new.namespace new.key t) [ none ↦ 1 | some r ↦ if cond r then 1 else 0 ]
unfolding select_key upsert
count-upsert new set cond [] = refl
count-upsert new set cond (r ∷ t) = ground (arith, count-upsert new set cond t)

-- rows after a delete come from rows before it
select_key-delete_where-none :
    (ns k : String) (p : Row → Bool) (t : Table)
    → select_key ns k t ≡ none
    → select_key ns k (delete_where p t).0 ≡ none
unfolding select_key delete_where
select_key-delete_where-none ns k p [] h = refl
select_key-delete_where-none ns k p (r ∷ t) h =
    ground (arith, select_key-delete_where-none ns k p t)

select_key_same :
    (ns k : String) (r : Row) (t : Table)
    → at_key ns k r ≡ true
    → select_key r.namespace r.key t ≡ none
    → select_key ns k t ≡ none
select_key_same ns k r t h e = let (a, b) = at_key_eq ns k r h in rw (← a, ← b) e

pub select_key-delete_where :
    (ns k : String) (p : Row → Bool) (t : Table)
    → HasPrimaryKey t
    → select_key ns k (delete_where p t).0
      ≡ elim (select_key ns k t) [ none ↦ none | some r ↦ if p r then none else some r ]
unfolding select_key delete_where
select_key-delete_where ns k p [] h = refl
select_key-delete_where ns k p (r ∷ t) h = ground (
  arith,
  select_key_same ns k r t,
  select_key-delete_where-none ns k p t,
  select_key-delete_where ns k p t h.1,
)

select_key-delete_limit-none :
    (n : ℕ) (ns k : String) (p : Row → Bool) (t : Table)
    → select_key ns k t ≡ none
    → select_key ns k (delete_limit n p t).0 ≡ none
unfolding select_key delete_limit
select_key-delete_limit-none zero ns k p t h = h
select_key-delete_limit-none (suc n) ns k p [] h = refl
select_key-delete_limit-none (suc n) ns k p (r ∷ t) h =
    ground (
      arith,
      select_key-delete_limit-none n ns k p t,
      select_key-delete_limit-none (suc n) ns k p t,
    )

-- A bounded delete leaves the row at a key, or removes it where the condition holds of it.
abbrev pub Meets : (Row → Bool) → Option Row → Type 0
Meets p none = Unit {0}
Meets p (some r) = p r ≡ true

abbrev pub Survives : (Row → Bool) → Option Row → Option Row → Type 0
Survives p before after = (after ≡ before) ⊎ ((after ≡ none) × Meets p before)

pub select_key-delete_limit :
    (n : ℕ) (ns k : String) (p : Row → Bool) (t : Table)
    → HasPrimaryKey t
    → Survives p (select_key ns k t) (select_key ns k (delete_limit n p t).0)
unfolding select_key delete_limit
select_key-delete_limit zero ns k p t h = inl refl
select_key-delete_limit (suc n) ns k p [] h = inl refl
select_key-delete_limit (suc n) ns k p (r ∷ t) h = ground (
  arith,
  select_key_same ns k r t,
  select_key-delete_limit-none n ns k p t,
  select_key-delete_limit n ns k p t h.1,
  select_key-delete_limit (suc n) ns k p t h.1,
)

-- The primary key is kept by every statement.
pub HasPrimaryKey-upsert :
    (new : Row) (set : Row → Row) (cond : Row → Bool) (t : Table)
    → KeepsKey set
    → HasPrimaryKey t
    → HasPrimaryKey (upsert new set cond t).0
unfolding upsert
HasPrimaryKey-upsert new set cond [] s h = unfold select_key in (refl, tt)
HasPrimaryKey-upsert new set cond (r ∷ t) s h = ground (
  arith,
  s r,
  at_key_self r,
  at_key_apart r.namespace r.key new r,
  select_key-upsert r.namespace r.key new set cond t s,
  HasPrimaryKey-upsert new set cond t s h.1,
)

pub HasPrimaryKey-update_where :
    (p : Row → Bool) (set : Row → Row) (t : Table)
    → KeepsKey set
    → HasPrimaryKey t
    → HasPrimaryKey (update_where p set t).0
unfolding update_where
HasPrimaryKey-update_where p set [] s h = tt
HasPrimaryKey-update_where p set (r ∷ t) s h = ground (
  arith,
  s r,
  select_key-update_where r.namespace r.key p set t s,
  HasPrimaryKey-update_where p set t s h.1,
)

pub HasPrimaryKey-delete_where :
    (p : Row → Bool) (t : Table) → HasPrimaryKey t → HasPrimaryKey (delete_where p t).0
unfolding delete_where
HasPrimaryKey-delete_where p [] h = tt
HasPrimaryKey-delete_where p (r ∷ t) h =
    ground (
      arith,
      select_key-delete_where-none r.namespace r.key p t,
      HasPrimaryKey-delete_where p t h.1,
    )

pub HasPrimaryKey-delete_limit :
    (n : ℕ) (p : Row → Bool) (t : Table) → HasPrimaryKey t → HasPrimaryKey (delete_limit n p t).0
unfolding delete_limit
HasPrimaryKey-delete_limit zero p t h = h
HasPrimaryKey-delete_limit (suc n) p [] h = tt
HasPrimaryKey-delete_limit (suc n) p (r ∷ t) h = ground (
  arith,
  select_key-delete_limit-none (suc n) r.namespace r.key p t,
  HasPrimaryKey-delete_limit n p t h.1,
  HasPrimaryKey-delete_limit (suc n) p t h.1,
)
