-- ===== src/Table.antt =====
-- The `cache` table of lytecache-go/schema.go as a list of rows, and the shapes of SQL statement
-- that the sources run on it. A statement that writes returns the table and the rows affected.
pub mod Laws
pub mod Trace
pub mod Fading
use lytecache.Common.{
  ℕ, zero, suc, ◌+◌, String, Bool, true, false, not, ◌&&◌, Option, none, some, List, [], ◌∷◌, leb,
  ltb, if◌then◌else◌, ℤ, leb_ℤ, ltb_ℤ, str_eq, ◌≡◌,
}
use lytecache.Strconv.{Bytes}

pub record Row : Type 0 where
  pub namespace : String
  pub key : String
  pub value : Bytes
  pub value_type : ℕ
  pub created_at : ℤ
  pub expires_at : Option ℤ
  pub last_accessed : ℤ
  pub access_count : ℕ
  pub size_bytes : ℕ

abbrev pub Table : Type 0
Table = List Row

-- expires_at IS NOT NULL AND expires_at <= now
unfoldable pub is_expired : Option ℤ → ℤ → Bool
is_expired none now = false
is_expired (some e) now = leb_ℤ e now

-- expires_at IS NULL OR expires_at > now
unfoldable pub is_live : Option ℤ → ℤ → Bool
is_live none now = true
is_live (some e) now = ltb_ℤ now e

-- namespace = ? AND key = ?
unfoldable pub at_key : String → String → Row → Bool
at_key ns k r = str_eq r.namespace ns && str_eq r.key k

unfoldable pub in_namespace : String → Row → Bool
in_namespace ns r = str_eq r.namespace ns

-- SELECT … WHERE namespace = ? AND key = ?
unfoldable pub select_key : String → String → Table → Option Row
select_key ns k [] = none
select_key ns k (r ∷ t) = if at_key ns k r then some r else select_key ns k t

-- SELECT … WHERE p
unfoldable pub select_where : (Row → Bool) → Table → List Row
select_where p [] = []
select_where p (r ∷ t) = if p r then r ∷ select_where p t else select_where p t

-- INSERT … ON CONFLICT(namespace, key) DO UPDATE SET … WHERE …
unfoldable pub upsert : Row → (Row → Row) → (Row → Bool) → Table → Table × ℕ
upsert new set cond [] = (new ∷ [], 1)
upsert new set cond (r ∷ t) =
    let rest = upsert new set cond t in
    if at_key new.namespace new.key r
    then (if cond r then (set r ∷ t, 1) else (r ∷ t, 0))
    else (r ∷ rest.0, rest.1)

-- UPDATE … SET … WHERE p
unfoldable pub update_where : (Row → Bool) → (Row → Row) → Table → Table × ℕ
update_where p set [] = ([], 0)
update_where p set (r ∷ t) =
    let rest = update_where p set t in
    if p r then (set r ∷ rest.0, rest.1 + 1) else (r ∷ rest.0, rest.1)

-- DELETE … WHERE p
unfoldable pub delete_where : (Row → Bool) → Table → Table × ℕ
delete_where p [] = ([], 0)
delete_where p (r ∷ t) =
    let rest = delete_where p t in if p r then (rest.0, rest.1 + 1) else (r ∷ rest.0, rest.1)

-- DELETE … WHERE key IN (SELECT key … WHERE p LIMIT n). SQL leaves open which rows a LIMIT without
-- an order takes: here those that stand first.
unfoldable pub delete_limit : ℕ → (Row → Bool) → Table → Table × ℕ
delete_limit zero p t = (t, 0)
delete_limit (suc n) p [] = ([], 0)
delete_limit (suc n) p (r ∷ t) = elim (p r) [
  | true ↦ let rest = delete_limit n p t in (rest.0, rest.1 + 1)
  | false ↦ let rest = delete_limit (suc n) p t in (r ∷ rest.0, rest.1)
]

-- SELECT COUNT(*) … WHERE p
unfoldable pub count_where : (Row → Bool) → Table → ℕ
count_where p [] = 0
count_where p (r ∷ t) = if p r then count_where p t + 1 else count_where p t

-- SELECT SUM(size_bytes) … WHERE p; a NULL over no rows reads as 0
unfoldable pub sum_size : (Row → Bool) → Table → ℕ
sum_size p [] = 0
sum_size p (r ∷ t) = if p r then sum_size p t + r.size_bytes else sum_size p t

-- PRIMARY KEY (namespace, key)
abbrev pub HasPrimaryKey : Table → Type 0
HasPrimaryKey [] = Unit {0}
HasPrimaryKey (r ∷ t) = (select_key r.namespace r.key t ≡ none) × HasPrimaryKey t
