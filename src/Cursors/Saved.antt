-- ===== src/Cursors/Saved.antt =====
-- A cursor that was saved is loaded again, and no other cursor of the namespace has changed.
use Prim.Native.String.{◌++◌ as concat}
use text.Mathlib.TextLemmas.{append_cancel_left}
use mathlib.Core.Option.{some-injective}
use lytecache.Common.{
  str_eq-same, str_eq-other, String, ◌≡◌, ◌≢◌, refl, sym, ap, ◌∙◌, arith, Option, none, some, inl,
  inr, List, [], ◌∷◌, ℤ, str_eq, eq_iff, Bool-cases, if◌then◌else◌,
}
use lytecache.Errors.{ok, database}
use lytecache.Strconv.{Bytes, format_int}
use lytecache.World.{World}
use lytecache.World.Ends.{
  Ends, Ends-ok, Ends-pure, Ends-bind, Ends-exec, Ends-query, Ends-get_cache, Ends-get_env,
}
use lytecache.Cursors.{cursor_key, put_meta, save_cursor, find_meta, scanned_seq, load_cursor}

-- an upsert of one key
find_meta-put_meta :
    (j k : String) (v : Bytes) (m : List (String × Bytes))
    → find_meta j (put_meta k v m) ≡ (if str_eq k j then some v else find_meta j m)
unfolding find_meta put_meta
find_meta-put_meta j k v [] = refl
find_meta-put_meta j k v ((i, w) ∷ m) = elim (Bool-cases (str_eq i k)) [
  | inl x ↦
      let p = (eq_iff i k).0 x in
      rw (x, ← p) (elim (Bool-cases (str_eq i j)) [ inl y ↦ rw y refl | inr y ↦ rw y refl ])
  | inr x ↦ elim (Bool-cases (str_eq i j)) [
    | inl y ↦
        let p = (eq_iff i j).0 y in
        rw (x, y, str_eq-same k j i k (λ e. p ∙ sym e) (λ e. sym e ∙ p), x) refl
    | inr y ↦ rw (x, y) (find_meta-put_meta j k v m)
  ]
]

abbrev pub stored : String → World → Option Bytes
stored name u = find_meta (cursor_key u.cache.namespace name) u.db.meta

cursor_key-inj : (ns a b : String) → cursor_key ns a ≡ cursor_key ns b → a ≡ b
unfolding cursor_key
cursor_key-inj ns a b e = append_cancel_left (concat (concat "cursor:" ns) ":") a b e

str_eq-cursor_key : (ns a b : String) → str_eq (cursor_key ns a) (cursor_key ns b) ≡ str_eq a b
str_eq-cursor_key ns a b =
    str_eq-same (cursor_key ns a) (cursor_key ns b) a b (cursor_key-inj ns a b) (ap (cursor_key ns))

-- What a save leaves: this cursor, and the others as they were.
abbrev pub Saves : String → ℤ → World → World → Type 0
Saves name seq w u =
    (u.env.sscan ≡ w.env.sscan)
    × ((m : String) → stored m u ≡ (if str_eq name m then some (format_int seq) else stored m w))

save_cursor-Ends :
    (w : World) (name : String) (seq : ℤ)
    → Ends w (save_cursor name seq) (λ _ u. Saves name seq w u) (λ _ u. u.db ≡ w.db)
unfolding save_cursor
save_cursor-Ends w name seq = Ends-bind (
    Ends-get_cache (
      Ends-bind (
        Ends-exec _
          (λ x. Ends-pure _ (
            refl,
            λ m.
                find_meta-put_meta _ (cursor_key w.cache.namespace name) (format_int seq) w.db.meta
                ∙ rw (str_eq-cursor_key w.cache.namespace name m) refl,
          ))
          (λ x. refl))))

scanned_seq-Ends :
    (w : World) (scan : Bytes → Option ℤ) (o : Option Bytes) (v : Bytes) (seq : ℤ)
    → o ≡ some v
    → scan v ≡ some seq
    → Ends w (scanned_seq scan o) (λ r _. r ≡ some seq) (λ e _. e ≡ database)
unfolding scanned_seq
scanned_seq-Ends w scan none v seq h k = ground (arith, h)
scanned_seq-Ends w scan (some x) v seq h k =
    rw (some-injective x v h, scanned_seq, k) (Ends-pure _ refl)

load_cursor-Ends :
    (w : World) (name : String) (v : Bytes) (seq : ℤ)
    → stored name w ≡ some v
    → w.env.sscan v ≡ some seq
    → Ends w (load_cursor name) (λ r _. r ≡ some seq) (λ e _. e ≡ database)
unfolding load_cursor
load_cursor-Ends w name v seq h k = Ends-bind (
    Ends-get_cache (
      Ends-bind (
        Ends-get_env (
          Ends-bind (Ends-query _ (λ x. scanned_seq-Ends _ w.env.sscan _ v seq h k) (λ x. refl))))))

-- Given that fmt.Sscan reads the decimal text of this number back: after a SaveCursor without an error,
-- LoadCursor of the same name returns the number that was saved, or an error of the driver; and every
-- other cursor of the namespace is stored as it was.
pub load_cursor-save_cursor :
    (w u : World) (name : String) (seq : ℤ)
    → w.env.sscan (format_int seq) ≡ some seq
    → save_cursor name seq w ≡ (ok tt, u)
    → Ends u (load_cursor name) (λ r _. r ≡ some seq) (λ e _. e ≡ database)
      × ((m : String) → name ≢ m → stored m u ≡ stored m w)
load_cursor-save_cursor w u name seq k e =
    let h = Ends-ok (save_cursor-Ends w name seq) e in
    (
      load_cursor-Ends u name (format_int seq) seq (h.1 name ∙ rw ((eq_iff name name).1 refl) refl)
          (rw h.0 k),
      λ m n. h.1 m ∙ rw (str_eq-other name m n) refl,
    )
