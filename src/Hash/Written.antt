-- ===== src/Hash/Written.antt =====
-- The row that the fallback of the hash operations reads, and the one that it leaves.
use mathlib.Core.Option.{some-injective}
use lytecache.Common.{
  ◌+◌, String, Bool, true, false, ◌&&◌, ◌||◌, ◌≡◌, ◌≢◌, ◌⊎◌, refl, sym, ◌∙◌, arith, Option, none,
  some, inl, inr, [], ◌∷◌, ℤ, ◌+ℤ◌, is_some, wrap64, if◌then◌else◌, Bool-cases, length, ◌==◌,
  ==_iff,
}
use lytecache.Errors.{ok}
use lytecache.Strconv.{Bytes}
use lytecache.Value.{type_json}
use lytecache.Table.{
  Row, Table, HasPrimaryKey, at_key, is_live, select_key, select_where, update_where,
}
use lytecache.Table.Laws.{
  at_key_eq, at_key_self, other_key-at, upserted, select_key_at, select_key-update_where,
  select_key-upsert,
}
use lytecache.Kv.{fresh_row, overwrite, put_row, expires_at_arg, live_at}
use lytecache.Events.{milliseconds}
use lytecache.Json.{
  JsonLib, Fields, Parsed, bad_json, other_root, object, parse_json_object, marshal,
}
use lytecache.Hash.{
  live_row, first_row, loaded_row, parsed_fields, or_empty, write_table, rewrite_row,
}

-- The row of the key that has not expired, if there is one.
abbrev pub Live : String → String → ℤ → Table → Option Row → Type 0
Live ns key now t none = (r : Row) → select_key ns key t ≡ some r → is_live r.expires_at now ≡ false
Live ns key now t (some r) = (select_key ns key t ≡ some r) × (is_live r.expires_at now ≡ true)

-- Its object: a row of type JSON whose text is an object, or an empty one.
abbrev pub HoldsObject : JsonLib → Option Row → Fields → Type 0
HoldsObject lib none o = o ≡ []
HoldsObject lib (some r) o = (r.value_type ≡ 4) × (parse_json_object lib r.value ≡ object o)

abbrev pub due : Option ℤ → ℤ → Option ℤ
due none now = none
due (some ttl) now = some (wrap64 (now +ℤ milliseconds ttl))

-- The row after a write: an old one keeps its creation time and its expiry, a new one is created now,
-- with the expiry that the time to live gives.
abbrev pub Written : Option ℤ → ℤ → Option Row → Bytes → Row → Type 0
Written ttl now none blob s =
    (s.value ≡ blob)
    × (s.size_bytes ≡ length blob)
    × (s.value_type ≡ 4)
    × (s.created_at ≡ now)
    × (s.expires_at ≡ due ttl now)
    × (s.last_accessed ≡ now)
    × (s.access_count ≡ 0)
Written ttl now (some r) blob s =
    (s.value ≡ blob)
    × (s.size_bytes ≡ length blob)
    × (s.value_type ≡ r.value_type)
    × (s.created_at ≡ r.created_at)
    × (s.expires_at ≡ r.expires_at)
    × (s.last_accessed ≡ now)
    × (s.access_count ≡ r.access_count + 1)

-- A table whose row at the key is that, and which holds at every other key what was there.
abbrev pub OnlyWritten :
    String → String → Option ℤ → ℤ → Option Row → Bytes → Table → Table → Type 0
OnlyWritten ns key ttl now old blob t m =
    ((s : Row) × (select_key ns key m ≡ some s) × Written ttl now old blob s)
    × ((i j : String) → (ns ≢ i) ⊎ (key ≢ j) → select_key i j m ≡ select_key i j t)

module _ (ns key : String) (now : ℤ) (r : Row) (t : Table) where
  live_row-cons :
      live_row ns key now (r ∷ t)
      ≡ (if at_key ns key r && is_live r.expires_at now then some r else live_row ns key now t)
  unfolding live_row first_row select_where live_at
  live_row-cons = elim (Bool-cases (at_key ns key r && is_live r.expires_at now)) [
    | inl x ↦ rw x refl
    | inr x ↦ rw x refl
  ]

  select_key-here : at_key ns key r ≡ true → select_key ns key (r ∷ t) ≡ some r
  unfolding select_key
  select_key-here x = rw x refl

  select_key-past : at_key ns key r ≡ false → select_key ns key (r ∷ t) ≡ select_key ns key t
  unfolding select_key
  select_key-past x = rw x refl

module _ (ns key : String) (now : ℤ) where
  live_row-absent : (t : Table) → select_key ns key t ≡ none → live_row ns key now t ≡ none
  unfolding live_row first_row select_where
  live_row-absent [] h = refl
  live_row-absent (r ∷ t) h = elim (Bool-cases (at_key ns key r)) [
    | inl x ↦ cc (h, select_key-here ns key now r t x)
    | inr x ↦
        let e = live_row-absent t (sym (select_key-past ns key now r t x) ∙ h) in
        live_row-cons ns key now r t ∙ rw (x, e) refl
  ]

  -- what holds of the rest of the table, where the first row stands at another key
  Live-past :
      (r : Row) (t : Table) (old : Option Row)
      → at_key ns key r ≡ false
      → Live ns key now t old
      → Live ns key now (r ∷ t) old
  Live-past r t none x h = λ s e. h s (sym (select_key-past ns key now r t x) ∙ e)
  Live-past r t (some s) x h = (select_key-past ns key now r t x ∙ h.0, h.1)

  pub live_row-Live : (t : Table) → HasPrimaryKey t → Live ns key now t (live_row ns key now t)
  unfolding live_row first_row select_where select_key
  live_row-Live [] h = λ r e. cc e
  live_row-Live (r ∷ t) h = elim (Bool-cases (at_key ns key r)) [
    | inl x ↦ elim (Bool-cases (is_live r.expires_at now)) [
      | inl y ↦
          let e : live_row ns key now (r ∷ t) ≡ some r =
            live_row-cons ns key now r t ∙ rw (x, y) refl in
          rw e (select_key-here ns key now r t x, y)
      | inr y ↦
          let (p, q) = at_key_eq ns key r x in
          let e : live_row ns key now (r ∷ t) ≡ none =
            live_row-cons ns key now r t ∙ rw (x, y, live_row-absent t (rw (p, q) at h.0)) refl in
          rw e (λ s f. rw (some-injective r s (sym (select_key-here ns key now r t x) ∙ f)) at y)
    ]
    | inr x ↦
        let e : live_row ns key now (r ∷ t) ≡ live_row ns key now t =
          live_row-cons ns key now r t ∙ rw x refl in
        rw e (Live-past r t _ x (live_row-Live t h.1))
  ]

module _ (ns key : String) (ttl : Option ℤ) (now : ℤ) (blob : Bytes) (t : Table) where
  rewritten_elsewhere :
      (i j : String) (found : Option Row)
      → select_key i j t ≡ found
      → (ns ≢ i) ⊎ (key ≢ j)
      → elim found [
        | none ↦ none
        | some r ↦ some (if at_key ns key r then rewrite_row blob now r else r)
      ]
        ≡ found
  rewritten_elsewhere i j none e n = refl
  rewritten_elsewhere i j (some r) e n =
      rw (other_key-at ns key i j r n (select_key_at i j t {r = r} e)) refl

  rewritten-OnlyWritten :
      (r : Row)
      → select_key ns key t ≡ some r
      → OnlyWritten ns key ttl now
          (some r)
          blob
          t
          (update_where (at_key ns key) (rewrite_row blob now) t).0
  unfolding rewrite_row
  rewritten-OnlyWritten r e =
      let law = λ (i : String) (j : String).
        select_key-update_where i j (at_key ns key) (rewrite_row blob now) t (λ x. (refl, refl)) in
      (
        (
          rewrite_row blob now r,
          law ns key ∙ rw (e, select_key_at ns key t {r = r} e) refl,
          (refl, refl, refl, refl, refl, refl, refl),
        ),
        λ i j n. law i j ∙ rewritten_elsewhere i j (select_key i j t) refl n,
      )

  abbrev new_row : Row
  new_row = fresh_row ns key blob type_json now (expires_at_arg ttl now)

  due-now : expires_at_arg ttl now ≡ due ttl now
  unfolding expires_at_arg
  due-now = elim ttl as (λ x. expires_at_arg x now ≡ due x now) [ none ↦ refl | some x ↦ refl ]

  put-Written :
      (found : Option Row)
      → Written ttl now none blob (upserted new_row (overwrite new_row) (λ _. true) found)
  unfolding fresh_row overwrite
  put-Written none = (refl, refl, refl, refl, due-now, refl, refl)
  put-Written (some r) = (refl, refl, refl, refl, due-now, refl, refl)

  new_row-apart : (i j : String) → (ns ≢ i) ⊎ (key ≢ j) → at_key i j new_row ≡ false
  unfolding fresh_row
  new_row-apart i j n =
      other_key-at i j ns key new_row
        (elim n [ inl k ↦ inl (λ e. k (sym e)) | inr k ↦ inr (λ e. k (sym e)) ])
        (at_key_self new_row)

  put_law :
      (i j : String)
      → select_key i j (put_row new_row t).0 ≡ (
          if at_key i j new_row
          then some (upserted new_row (overwrite new_row) (λ _. true) (select_key i j t))
          else select_key i j t)
  unfolding put_row overwrite
  put_law i j = select_key-upsert i j new_row (overwrite new_row) (λ _. true) t (λ x. (refl, refl))

  new_row-here : at_key ns key new_row ≡ true
  unfolding fresh_row
  new_row-here = at_key_self new_row

  put-OnlyWritten : OnlyWritten ns key ttl now none blob t (put_row new_row t).0
  put-OnlyWritten = (
    (
      upserted new_row (overwrite new_row) (λ _. true) (select_key ns key t),
      put_law ns key ∙ rw new_row-here refl,
      put-Written (select_key ns key t),
    ),
    λ i j n. put_law i j ∙ rw (new_row-apart i j n) refl,
  )

-- What one call of the fallback leaves, before what is taken away after it: the object is written where
-- the mutation has changed it and it was there or is to be created, and else the table is as it was.
abbrev pub Outcome :
    JsonLib
    → String
    → String
    → Option ℤ
    → ℤ
    → Bool
    → Bool
    → Option Row
    → Fields
    → Table
    → Table
    → Type 0
Outcome lib ns key ttl now create changes old o t m =
    if changes && (is_some old || create)
    then OnlyWritten ns key ttl now old (marshal lib o) t m
    else m ≡ t

parsed_object :
    (p : Parsed) (found : Option Fields)
    → parsed_fields p ≡ ok found
    → (p ≡ object (or_empty found)) × (is_some found ≡ true)
unfolding parsed_fields or_empty
parsed_object bad_json found h = ground (arith, h)
parsed_object other_root found h = ground (arith, h)
parsed_object (object o) none h = ground (arith, h)
parsed_object (object o) (some q) h = ground (arith, h)

pub loaded_row-HoldsObject :
    (lib : JsonLib) (old : Option Row) (found : Option Fields)
    → loaded_row lib old ≡ ok found
    → HoldsObject lib old (or_empty found) × (is_some found ≡ is_some old)
unfolding loaded_row or_empty
loaded_row-HoldsObject lib none none h = (refl, refl)
loaded_row-HoldsObject lib none (some o) h = ground (arith, h)
loaded_row-HoldsObject lib (some r) found h = elim (Bool-cases (r.value_type == 4)) [
  | inr x ↦ ground (arith, h, x)
  | inl x ↦
      let (a, b) = parsed_object (parse_json_object lib r.value) found (rw x at h) in
      (((==_iff r.value_type 4).0 x, a), b)
]

pub write-Outcome :
    (lib : JsonLib) (ns key : String) (ttl : Option ℤ) (now : ℤ) (create changes : Bool)
    → (old : Option Row) (b : Bool) (o : Fields) (t : Table) → b ≡ is_some old
    → Live ns key now t old
    → Outcome lib ns key ttl now create changes old o t
        (if changes && (b || create) then (write_table lib ns key ttl now b o t).0 else t)
unfolding write_table
write-Outcome lib ns key ttl now false false old b o t e h = refl
write-Outcome lib ns key ttl now true false old b o t e h = refl
write-Outcome lib ns key ttl now create true (some r) b o t e h =
    rw e (rewritten-OnlyWritten ns key ttl now (marshal lib o) t r h.0)
write-Outcome lib ns key ttl now true true none b o t e h =
    rw e (put-OnlyWritten ns key ttl now (marshal lib o) t)
write-Outcome lib ns key ttl now false true none b o t e h = rw e refl
