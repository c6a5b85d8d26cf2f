-- ===== src/Table/Trace.antt =====
-- The statements that a cache runs on the rows, as a step relation: each writes rows of one
-- namespace, keeps keys, and keeps `size_bytes` the length of the value. A `fading` one only takes
-- rows away or notes that they were read.
use lytecache.Common.{
  ℕ, zero, suc, String, Bool, true, false, [], ◌∷◌, ◌≡◌, refl, ◌∙◌, ◌≢◌, arith, if◌then◌else◌, All,
  length, eq_iff,
}
use lytecache.Table.{
  Row, Table, in_namespace, upsert, update_where, delete_where, delete_limit, HasPrimaryKey,
}
use lytecache.Table.Laws.{
  KeepsKey, at_key_eq, HasPrimaryKey-upsert, HasPrimaryKey-update_where, HasPrimaryKey-delete_where,
  HasPrimaryKey-delete_limit,
}

abbrev pub SizeFits : Row → Type 0
SizeFits r = r.size_bytes ≡ length r.value

abbrev pub SameContent : Row → Row → Type 0
SameContent r s =
    (s.value ≡ r.value)
    × (s.value_type ≡ r.value_type)
    × (s.created_at ≡ r.created_at)
    × (s.expires_at ≡ r.expires_at)

-- a setter that keeps the size right
abbrev pub KeepsSize : (Row → Row) → Type 0
KeepsSize set = (r : Row) → SizeFits r → SizeFits (set r)

-- a setter that keeps what a reader of the key is served
abbrev pub KeepsContent : (Row → Row) → Type 0
KeepsContent set = (r : Row) → SameContent r (set r)

-- a condition that only rows of the namespace meet
abbrev pub Within : String → (Row → Bool) → Type 0
Within ns p = (r : Row) → p r ≡ true → in_namespace ns r ≡ true

pub data Statement (fading : Bool) (ns : String) (t : Table) : Table → Type 0 where
  upserting :
      (new : Row) (set : Row → Row) (cond : Row → Bool)
      → fading ≡ false
      → new.namespace ≡ ns
      → SizeFits new
      → KeepsKey set
      → KeepsSize set
      → Statement fading ns t (upsert new set cond t).0
  updating :
      (p : Row → Bool) (set : Row → Row)
      → Within ns p
      → KeepsKey set
      → KeepsSize set
      → (fading ≡ true → KeepsContent set)
      → Statement fading ns t (update_where p set t).0
  deleting : (p : Row → Bool) → Within ns p → Statement fading ns t (delete_where p t).0
  limiting : (n : ℕ) (p : Row → Bool) → Within ns p → Statement fading ns t (delete_limit n p t).0

-- Any number of statements.
pub data Trace (fading : Bool) (ns : String) (t : Table) : Table → Type 0 where
  done : Trace fading ns t t
  step : {u v : Table} → Trace fading ns t u → Statement fading ns u v → Trace fading ns t v

pub Trace-trans :
    {fading : Bool} {ns : String} {t u v : Table}
    → Trace fading ns t u
    → Trace fading ns u v
    → Trace fading ns t v
Trace-trans a done = a
Trace-trans a (step b s) = step (Trace-trans a b) s

pub Trace-HasPrimaryKey :
    {fading : Bool} {ns : String} {t u : Table}
    → Trace fading ns t u
    → HasPrimaryKey t
    → HasPrimaryKey u
Trace-HasPrimaryKey done h = h
Trace-HasPrimaryKey (step {u = u} a (upserting new set cond x e f k s)) h =
    HasPrimaryKey-upsert new set cond u k (Trace-HasPrimaryKey a h)
Trace-HasPrimaryKey (step {u = u} a (updating p set w k s c)) h =
    HasPrimaryKey-update_where p set u k (Trace-HasPrimaryKey a h)
Trace-HasPrimaryKey (step {u = u} a (deleting p w)) h =
    HasPrimaryKey-delete_where p u (Trace-HasPrimaryKey a h)
Trace-HasPrimaryKey (step {u = u} a (limiting n p w)) h =
    HasPrimaryKey-delete_limit n p u (Trace-HasPrimaryKey a h)

upsert-SizeFits :
    (new : Row) (set : Row → Row) (cond : Row → Bool) (t : Table)
    → SizeFits new
    → KeepsSize set
    → All SizeFits t
    → All SizeFits (upsert new set cond t).0
unfolding upsert
upsert-SizeFits new set cond [] n s h = (n, tt)
upsert-SizeFits new set cond (r ∷ t) n s h =
    ground (arith, s r, upsert-SizeFits new set cond t n s h.1)

update_where-SizeFits :
    (p : Row → Bool) (set : Row → Row) (t : Table)
    → KeepsSize set
    → All SizeFits t
    → All SizeFits (update_where p set t).0
unfolding update_where
update_where-SizeFits p set [] s h = tt
update_where-SizeFits p set (r ∷ t) s h = ground (arith, s r, update_where-SizeFits p set t s h.1)

delete_where-SizeFits :
    (p : Row → Bool) (t : Table) → All SizeFits t → All SizeFits (delete_where p t).0
unfolding delete_where
delete_where-SizeFits p [] h = tt
delete_where-SizeFits p (r ∷ t) h = ground (arith, delete_where-SizeFits p t h.1)

delete_limit-SizeFits :
    (n : ℕ) (p : Row → Bool) (t : Table) → All SizeFits t → All SizeFits (delete_limit n p t).0
unfolding delete_limit
delete_limit-SizeFits zero p t h = h
delete_limit-SizeFits (suc n) p [] h = tt
delete_limit-SizeFits (suc n) p (r ∷ t) h =
    ground (arith, delete_limit-SizeFits n p t h.1, delete_limit-SizeFits (suc n) p t h.1)

pub Trace-SizeFits :
    {fading : Bool} {ns : String} {t u : Table}
    → Trace fading ns t u
    → All SizeFits t
    → All SizeFits u
Trace-SizeFits done h = h
Trace-SizeFits (step {u = u} a (upserting new set cond x e f k s)) h =
    upsert-SizeFits new set cond u f s (Trace-SizeFits a h)
Trace-SizeFits (step {u = u} a (updating p set w k s c)) h =
    update_where-SizeFits p set u s (Trace-SizeFits a h)
Trace-SizeFits (step {u = u} a (deleting p w)) h = delete_where-SizeFits p u (Trace-SizeFits a h)
Trace-SizeFits (step {u = u} a (limiting n p w)) h =
    delete_limit-SizeFits n p u (Trace-SizeFits a h)

-- the rows of another namespace, in their order
unfoldable pub rows_in : String → Table → Table
rows_in ns [] = []
rows_in ns (r ∷ t) = if in_namespace ns r then r ∷ rows_in ns t else rows_in ns t

in_namespace_ne :
    (ns other : String) (r : Row)
    → other ≢ ns
    → in_namespace ns r ≡ true
    → in_namespace other r ≡ false
unfolding in_namespace
in_namespace_ne ns other r ne h = ground (arith, eq_iff r.namespace ns, eq_iff r.namespace other)

in_namespace-set :
    (ns : String) (set : Row → Row) (r : Row)
    → KeepsKey set
    → in_namespace ns (set r) ≡ in_namespace ns r
unfolding in_namespace
in_namespace-set ns set r k = rw (k r).0

module _ (ns other : String) (ne : other ≢ ns) where
  rows_in-upsert :
      (new : Row) (set : Row → Row) (cond : Row → Bool) (t : Table)
      → new.namespace ≡ ns
      → KeepsKey set
      → rows_in other (upsert new set cond t).0 ≡ rows_in other t
  unfolding rows_in upsert in_namespace
  rows_in-upsert new set cond [] e k = ground (arith, eq_iff new.namespace other)
  rows_in-upsert new set cond (r ∷ t) e k = ground (
    arith,
    k r,
    at_key_eq new.namespace new.key r,
    eq_iff r.namespace other,
    eq_iff (set r).namespace other,
    rows_in-upsert new set cond t e k,
  )

  rows_in-update_where :
      (p : Row → Bool) (set : Row → Row) (t : Table)
      → Within ns p
      → KeepsKey set
      → rows_in other (update_where p set t).0 ≡ rows_in other t
  unfolding rows_in update_where
  rows_in-update_where p set [] w k = refl
  rows_in-update_where p set (r ∷ t) w k = ground (
    arith,
    w r,
    in_namespace_ne ns other r ne,
    in_namespace-set other set r k,
    rows_in-update_where p set t w k,
  )

  rows_in-delete_where :
      (p : Row → Bool) (t : Table)
      → Within ns p
      → rows_in other (delete_where p t).0 ≡ rows_in other t
  unfolding rows_in delete_where
  rows_in-delete_where p [] w = refl
  rows_in-delete_where p (r ∷ t) w =
      ground (arith, w r, in_namespace_ne ns other r ne, rows_in-delete_where p t w)

  rows_in-delete_limit :
      (n : ℕ) (p : Row → Bool) (t : Table)
      → Within ns p
      → rows_in other (delete_limit n p t).0 ≡ rows_in other t
  unfolding rows_in delete_limit
  rows_in-delete_limit zero p t w = refl
  rows_in-delete_limit (suc n) p [] w = refl
  rows_in-delete_limit (suc n) p (r ∷ t) w = ground (
    arith,
    w r,
    in_namespace_ne ns other r ne,
    rows_in-delete_limit n p t w,
    rows_in-delete_limit (suc n) p t w,
  )

  pub Trace-rows_in :
      {fading : Bool} {t u : Table} → Trace fading ns t u → rows_in other u ≡ rows_in other t
  Trace-rows_in done = refl
  Trace-rows_in (step {u = u} a (upserting new set cond x e f k s)) =
      rows_in-upsert new set cond u e k ∙ Trace-rows_in a
  Trace-rows_in (step {u = u} a (updating p set w k s c)) =
      rows_in-update_where p set u w k ∙ Trace-rows_in a
  Trace-rows_in (step {u = u} a (deleting p w)) = rows_in-delete_where p u w ∙ Trace-rows_in a
  Trace-rows_in (step {u = u} a (limiting n p w)) = rows_in-delete_limit n p u w ∙ Trace-rows_in a
