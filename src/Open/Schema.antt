-- ===== src/Open/Schema.antt =====
-- Opening a file: which schema versions are accepted, and what is written.
use lytecache.Common.{
  String, false, ◌≡◌, refl, ap, arith, Option, none, some, ◌⊎◌, inl, inr, List, [], ◌∷◌, ℤ, pos,
  ltb_ℤ, str_eq, Bool-cases,
}
use lytecache.Errors.{ok}
use lytecache.Strconv.{Bytes}
use lytecache.World.{World, Db}
use lytecache.World.Ends.{
  Ends, Ends-ok, Ends-pure, Ends-raise, Ends-if, Ends-bind, Ends-exec, Ends-query,
}
use lytecache.Events.{insert_or_ignore}
use lytecache.Cursors.{find_meta}
use lytecache.Open.{record_version, checked_version, init_schema}

abbrev pub recorded : Db → Option Bytes
recorded d = find_meta "schema_version" d.meta

find_meta-insert_or_ignore :
    (v : Bytes) (m : List (String × Bytes))
    → find_meta "schema_version" m ≡ none
    → find_meta "schema_version" (insert_or_ignore "schema_version" v m) ≡ some v
unfolding find_meta insert_or_ignore
find_meta-insert_or_ignore v [] h = refl
find_meta-insert_or_ignore v ((j, w) ∷ m) h = elim (Bool-cases (str_eq j "schema_version")) [
  | inl x ↦ ground (arith, x, h)
  | inr x ↦ rw (x, find_meta-insert_or_ignore v m (rw x at h)) (rw x refl)
]

-- A version that is at most 1: the recorded one, or 1, which is recorded now where none was.
abbrev pub Supported : (Bytes → Option ℤ) → World → ℤ → World → Type 0
Supported scan w v u =
    (ltb_ℤ (pos 1) v ≡ false)
    × (u.db.rows ≡ w.db.rows)
    × (((text : Bytes) × (recorded w.db ≡ some text) × (scan text ≡ some v) × (u.db ≡ w.db))
        ⊎ ((recorded w.db ≡ none) × (recorded u.db ≡ some (b'1' ∷ [])) × (v ≡ pos 1)))

scanned-Ends :
    (w u : World) (scan : Bytes → Option ℤ) (text : Bytes) (o : Option ℤ)
    → recorded w.db ≡ some text
    → scan text ≡ o
    → u.db ≡ w.db
    → Ends u (checked_version scan (some text)) (Supported scan w) (λ e v. v.db ≡ w.db)
unfolding checked_version
scanned-Ends w u scan text none h k d = rw (k, checked_version) (Ends-raise _ d)
scanned-Ends w u scan text (some v) h k d =
    rw (k, checked_version)
      (Ends-if (ltb_ℤ (pos 1) v) _ _ (λ x. Ends-raise _ d)
        (λ x. Ends-pure _ (x, ap (λ (b : Db). b.rows) d, inl (text, h, k, d))))

unrecorded-Ends :
    (w u : World) (scan : Bytes → Option ℤ)
    → recorded w.db ≡ none
    → u.db ≡ w.db
    → Ends u (checked_version scan none) (Supported scan w) (λ e v. v.db ≡ w.db)
unfolding checked_version record_version ltb_ℤ
unrecorded-Ends w u scan h d = Ends-bind (
    Ends-exec _
      (λ x. Ends-pure _ (
        refl,
        ap (λ (b : Db). b.rows) d,
        inr (
          h,
          rw (ap (λ (b : Db). b.meta) d) (find_meta-insert_or_ignore (b'1' ∷ []) w.db.meta h),
          refl,
        ),
      ))
      (λ x. d))

version-Ends :
    (w u : World) (scan : Bytes → Option ℤ) (o : Option Bytes)
    → recorded w.db ≡ o
    → u.db ≡ w.db
    → Ends u (checked_version scan o) (Supported scan w) (λ e v. v.db ≡ w.db)
version-Ends w u scan none h d = unrecorded-Ends w u scan h d
version-Ends w u scan (some text) h d = scanned-Ends w u scan text (scan text) h refl d

init_schema-Ends :
    (w : World) (scan : Bytes → Option ℤ)
    → Ends w (init_schema scan) (Supported scan w) (λ e u. u.db ≡ w.db)
unfolding init_schema
init_schema-Ends w scan = Ends-bind (
    Ends-exec _ (λ x. Ends-bind (Ends-query _ (λ y. version-Ends w _ scan _ refl refl) (λ y. refl)))
      (λ x. refl))

-- initSchema, when it returns a version: the version is at most 1, no cache row has changed, and the file
-- records that version: as it did before, or as version 1 that is recorded now where there was none.
pub init_schema-Supported :
    (w u : World) (scan : Bytes → Option ℤ) (v : ℤ)
    → init_schema scan w ≡ (ok v, u)
    → Supported scan w v u
init_schema-Supported w u scan v e = Ends-ok (init_schema-Ends w scan) e
