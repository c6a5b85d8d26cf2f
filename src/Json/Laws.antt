-- ===== src/Json/Laws.antt =====
-- The ordered object of the fallback: reading, writing and removing a field.
use lytecache.Common.{
  arith, ℕ, suc, String, Bool, true, false, ◌≡◌, refl, sym, ap, ◌∙◌, none, some, inl, inr, List, [],
  ◌∷◌, ◌++◌, map, if◌then◌else◌, Bool-cases, str_eq-same, Option-cases, str_eq, eq_iff,
}
use lytecache.Strconv.{Bytes}
use lytecache.Json.{
  Fields, index, has, value_at, get_field, put_at, set_field, remove_at, del_field, collect,
  value_found, put_found, remove_found,
}

module _ (k j : String) (v w : Bytes) (o : Fields) where
  index-other : str_eq j k ≡ false → index k o ≡ none → index k ((j, w) ∷ o) ≡ none
  unfolding index
  index-other h e = rw (h, e) refl

  index-here : str_eq j k ≡ true → index k ((j, w) ∷ o) ≡ some 0
  unfolding index
  index-here h = rw h refl

  index-next :
      {i : ℕ} → str_eq j k ≡ false → index k o ≡ some i → index k ((j, w) ∷ o) ≡ some (suc i)
  unfolding index
  index-next h e = rw (h, e) refl

  get_field-cons : get_field k ((j, w) ∷ o) ≡ (if str_eq j k then some w else get_field k o)
  unfolding get_field value_found value_at
  get_field-cons = elim (Bool-cases (str_eq j k)) [
    | inl x ↦ rw (index-here x, x) refl
    | inr x ↦ elim (Option-cases (index k o)) [
      | inl y ↦ rw (index-other x y, x, y) refl
      | inr (i, y) ↦ rw (index-next x y, x, y) refl
    ]
  ]

  set_field-cons :
      set_field k v ((j, w) ∷ o) ≡ (if str_eq j k then (j, v) ∷ o else (j, w) ∷ set_field k v o)
  unfolding set_field put_found put_at
  set_field-cons = elim (Bool-cases (str_eq j k)) [
    | inl x ↦ rw (index-here x, x) refl
    | inr x ↦ elim (Option-cases (index k o)) [
      | inl y ↦ rw (index-other x y, x, y) refl
      | inr (i, y) ↦ rw (index-next x y, x, y) refl
    ]
  ]

  del_field-cons :
      del_field k ((j, w) ∷ o)
      ≡ (if str_eq j k then (true, o) else ((del_field k o).0, (j, w) ∷ (del_field k o).1))
  unfolding del_field remove_found remove_at
  del_field-cons = elim (Bool-cases (str_eq j k)) [
    | inl x ↦ rw (index-here x, x) refl
    | inr x ↦ elim (Option-cases (index k o)) [
      | inl y ↦ rw (index-other x y, x, y) refl
      | inr (i, y) ↦ rw (index-next x y, x, y) refl
    ]
  ]

  has-cons : has k ((j, w) ∷ o) ≡ (if str_eq j k then true else has k o)
  unfolding has
  has-cons = elim (Bool-cases (str_eq j k)) [
    | inl x ↦ rw (index-here x, x) refl
    | inr x ↦ elim (Option-cases (index k o)) [
      | inl y ↦ rw (index-other x y, x, y) refl
      | inr (i, y) ↦ rw (index-next x y, x, y) refl
    ]
  ]

-- no field has this name
abbrev pub Lacks : String → Fields → Type 0
Lacks k o = get_field k o ≡ none

-- the names are different
abbrev pub IsObject : Fields → Type 0
IsObject [] = Unit {0}
IsObject ((k, v) ∷ o) = Lacks k o × IsObject o

-- Reading after writing a field.
get_field-set_field :
    (j k : String) (v : Bytes) (o : Fields)
    → get_field j (set_field k v o) ≡ (if str_eq k j then some v else get_field j o)
unfolding set_field index
get_field-set_field j k v [] = get_field-cons j k v v []
get_field-set_field j k v ((i, w) ∷ o) = elim (Bool-cases (str_eq i k)) [
  | inl x ↦
      let p = (eq_iff i k).0 x in
      rw (set_field-cons k i v w o, x, get_field-cons j i v v o, get_field-cons j i v w o, ← p)
        (elim (Bool-cases (str_eq i j)) [ inl y ↦ rw y refl | inr y ↦ rw y refl ])
  | inr x ↦
      rw
        (
          set_field-cons k i v w o,
          x,
          get_field-cons j i v w (set_field k v o),
          get_field-cons j i v w o,
          get_field-set_field j k v o,
        )
        (elim (Bool-cases (str_eq i j)) [
          | inl y ↦
              let p = (eq_iff i j).0 y in
              rw (y, str_eq-same k j i k (λ e. p ∙ sym e) (λ e. sym e ∙ p), x) refl
          | inr y ↦ rw y refl
        ])
]

-- Removing a field.
get_field-del_field :
    (j k : String) (o : Fields)
    → IsObject o
    → get_field j (del_field k o).1 ≡ (if str_eq k j then none else get_field j o)
unfolding del_field index get_field remove_found
get_field-del_field j k [] h = elim (Bool-cases (str_eq k j)) [
  | inl y ↦ rw y refl
  | inr y ↦ rw y refl
]
get_field-del_field j k ((i, w) ∷ o) h = elim (Bool-cases (str_eq i k)) [
  | inl x ↦
      let p = (eq_iff i k).0 x in
      rw (del_field-cons k i w w o, x, get_field-cons j i w w o, ← p)
        (elim (Bool-cases (str_eq i j)) [
          | inl y ↦ rw (y, ← (eq_iff i j).0 y) h.0
          | inr y ↦ rw y refl
        ])
  | inr x ↦
      rw
        (
          del_field-cons k i w w o,
          x,
          get_field-cons j i w w (del_field k o).1,
          get_field-cons j i w w o,
          get_field-del_field j k o h.1,
        )
        (elim (Bool-cases (str_eq i j)) [
          | inl y ↦
              let p = (eq_iff i j).0 y in
              rw (y, str_eq-same k j i k (λ e. p ∙ sym e) (λ e. sym e ∙ p), x) refl
          | inr y ↦ rw y refl
        ])
]

cons_if :
    (b : Bool) (i : String) (xs ys : List String)
    → i ∷ (if b then xs else ys) ≡ (if b then i ∷ xs else i ∷ ys)
cons_if true i xs ys = refl
cons_if false i xs ys = refl

-- A written field keeps its place; a new one comes last.
names-set_field :
    (k : String) (v : Bytes) (o : Fields)
    → map (λ f. f.0) (set_field k v o)
      ≡ (if has k o then map (λ f. f.0) o else map (λ f. f.0) o ++ k ∷ [])
unfolding set_field index has put_found
names-set_field k v [] = refl
names-set_field k v ((i, w) ∷ o) = elim (Bool-cases (str_eq i k)) [
  | inl x ↦ rw (set_field-cons k i v w o, has-cons k i v w o, x) refl
  | inr x ↦
      rw (set_field-cons k i v w o, has-cons k i v w o, x)
        (ap (◌∷◌ i) (names-set_field k v o) ∙ cons_if (has k o) i _ _)
]

Lacks-set_field :
    (j k : String) (v : Bytes) (o : Fields)
    → str_eq k j ≡ false
    → Lacks j o
    → Lacks j (set_field k v o)
Lacks-set_field j k v o x h = rw (get_field-set_field j k v o, x) h

set_field-IsObject : (k : String) (v : Bytes) (o : Fields) → IsObject o → IsObject (set_field k v o)
unfolding set_field index put_found get_field value_found
set_field-IsObject k v [] h = (refl, tt)
set_field-IsObject k v ((i, w) ∷ o) h = elim (Bool-cases (str_eq i k)) [
  | inl x ↦ rw (set_field-cons k i v w o, x) h
  | inr x ↦
      rw (set_field-cons k i v w o, x)
        (
          Lacks-set_field i k v o (str_eq-same k i i k sym sym ∙ x) h.0,
          set_field-IsObject k v o h.1,
        )
]

-- the names without one of them, in their order
abbrev pub others : String → List String → List String
others k [] = []
others k (n ∷ ns) = let rest = others k ns in if str_eq n k then rest else n ∷ rest

Lacks-past :
    (k i : String) (w : Bytes) (o : Fields) → Lacks k ((i, w) ∷ o) → str_eq i k ≡ false → Lacks k o
Lacks-past k i w o h x = sym (get_field-cons k i w w o ∙ rw x refl) ∙ h

Lacks-here :
    (k i : String) (w : Bytes) (o : Fields)
    → str_eq i k ≡ true
    → Lacks k ((i, w) ∷ o)
    → false ≡ true
Lacks-here k i w o x h =
    let e : get_field k ((i, w) ∷ o) ≡ some w = get_field-cons k i w w o ∙ rw x refl in cc (e, h)

others-Lacks :
    (k : String) (o : Fields) → Lacks k o → others k (map (λ f. f.0) o) ≡ map (λ f. f.0) o
others-Lacks k [] h = refl
others-Lacks k ((i, w) ∷ o) h = elim (Bool-cases (str_eq i k)) [
  | inl x ↦ ground (arith, Lacks-here k i w o x h)
  | inr x ↦ rw x (ap (◌∷◌ i) (others-Lacks k o (Lacks-past k i w o h x)))
]

-- A removed field leaves the others in their places.
names-del_field :
    (k : String) (o : Fields)
    → IsObject o
    → map (λ f. f.0) (del_field k o).1 ≡ others k (map (λ f. f.0) o)
unfolding del_field index remove_found
names-del_field k [] h = refl
names-del_field k ((i, w) ∷ o) h = elim (Bool-cases (str_eq i k)) [
  | inl x ↦ rw (del_field-cons k i w w o, x) (sym (others-Lacks k o (rw ((eq_iff i k).0 x) at h.0)))
  | inr x ↦ rw (del_field-cons k i w w o, x) (ap (◌∷◌ i) (names-del_field k o h.1))
]

del_field-IsObject : (k : String) (o : Fields) → IsObject o → IsObject (del_field k o).1
unfolding del_field index remove_found
del_field-IsObject k [] h = tt
del_field-IsObject k ((i, w) ∷ o) h = elim (Bool-cases (str_eq i k)) [
  | inl x ↦ rw (del_field-cons k i w w o, x) h.1
  | inr x ↦
      rw (del_field-cons k i w w o, x)
        (
          get_field-del_field i k o h.1 ∙ rw (str_eq-same k i i k sym sym ∙ x) h.0,
          del_field-IsObject k o h.1,
        )
]

del_field-found : (k : String) (o : Fields) → (del_field k o).0 ≡ has k o
unfolding del_field has remove_found
del_field-found k o = elim (Option-cases (index k o)) [ inl x ↦ rw x refl | inr (i, x) ↦ rw x refl ]

-- what jsonObject.set and jsonObject.del leave
abbrev pub Edits : String → Bytes → Fields → Type 0
Edits k v o =
    ((j : String) → get_field j (set_field k v o) ≡ (if str_eq k j then some v else get_field j o))
    × (map (λ f. f.0) (set_field k v o)
        ≡ (if has k o then map (λ f. f.0) o else map (λ f. f.0) o ++ k ∷ []))
    × ((j : String) → get_field j (del_field k o).1 ≡ (if str_eq k j then none else get_field j o))
    × (map (λ f. f.0) (del_field k o).1 ≡ others k (map (λ f. f.0) o))
    × ((del_field k o).0 ≡ has k o)
    × IsObject (set_field k v o)
    × IsObject (del_field k o).1

-- An object whose names are different. After set, the field has the new text and every other field the one
-- it had, the names keep their order, a name that is new comes last, and the names are different. del says
-- whether the field was there; after it the field is gone, every other field has the text it had, and the
-- other names are in their order and different.
pub edit-Edits : (k : String) (v : Bytes) (o : Fields) → IsObject o → Edits k v o
edit-Edits k v o h = (
  λ j. get_field-set_field j k v o,
  names-set_field k v o,
  λ j. get_field-del_field j k o h,
  names-del_field k o h,
  del_field-found k o,
  set_field-IsObject k v o h,
  del_field-IsObject k o h,
)

-- What the decoder's members are collected into has different names.
pub collect-IsObject : (o ms : Fields) → IsObject o → IsObject (collect o ms)
unfolding collect
collect-IsObject o [] h = h
collect-IsObject o ((k, v) ∷ ms) h =
    collect-IsObject (set_field k v o) ms (set_field-IsObject k v o h)
