-- ===== src/Cursors.antt =====
-- lytecache-go/events.go: saved cursors; lytecache-go/events_admin.go: their listing.
pub mod Saved
use Prim.Native.Char.{code}
use Prim.Native.Nat.{Ordering}
use Prim.Native.String.{◌∷◌ as cons, [] as empty, ◌++◌ as concat}
use lytecache.Common.{
  ℕ, suc, ◌+◌, String, Bool, true, false, Option, none, some, List, [], ◌∷◌, ◌++◌, map, ltb, leb,
  ◌==◌, if◌then◌else◌, ℤ, length, str_eq,
}
use lytecache.Errors.{Error, Result, ok, err, malformed}
use lytecache.Strconv.{Bytes, format_int, parse_int}
use lytecache.Table.{Row}
use lytecache.World.{World, M, Cache, Db, ◌>>=◌, ◌>>◌, pure, raise, get_cache, get_env, query, exec}
use lytecache.Events.{events_exist}
use lytecache.Events.Filter.{codes, has_prefix}
use lytecache.Bulk.{sorted_keys, text_le}
use lytecache.Kv.{dedupe}

unfoldable pub cursor_key : String → String → String
cursor_key ns name = concat (concat (concat "cursor:" ns) ":") name

-- INSERT … ON CONFLICT(k) DO UPDATE SET v = excluded.v
unfoldable pub put_meta : String → Bytes → List (String × Bytes) → List (String × Bytes)
put_meta k v [] = (k, v) ∷ []
put_meta k v ((j, w) ∷ m) =
    let rest = put_meta k v m in if str_eq j k then (j, v) ∷ m else (j, w) ∷ rest

unfoldable pub save_cursor : String → ℤ → M (Unit {0})
unfolding cursor_key put_meta
save_cursor name seq = do
  c ← get_cache
  exec
      (λ d. (record d { meta = put_meta (cursor_key c.namespace name) (format_int seq) d.meta }, 1))
  pure tt

-- SELECT v FROM meta WHERE k = ?
unfoldable pub find_meta : String → List (String × Bytes) → Option Bytes
find_meta k [] = none
find_meta k ((j, w) ∷ m) = if str_eq j k then some w else find_meta k m

unfoldable pub scanned_seq : (Bytes → Option ℤ) → Option Bytes → M (Option ℤ)
scanned_seq scan none = pure none
scanned_seq scan (some v) = elim (scan v) [ some n ↦ pure (some n) | none ↦ raise malformed ]

unfoldable pub load_cursor : String → M (Option ℤ)
unfolding cursor_key find_meta scanned_seq
load_cursor name = do
  c ← get_cache
  env ← get_env
  v ← query (λ d. find_meta (cursor_key c.namespace name) d.meta)
  scanned_seq env.sscan v

pub record CursorInfo : Type 0 where
  pub namespace : String
  pub name : String
  pub seq : ℤ

-- strings.CutPrefix
unfoldable pub cut_prefix : String → String → Option String
cut_prefix s empty = some s
cut_prefix empty (cons b t) = none
cut_prefix (cons a s) (cons b t) =
    let rest = cut_prefix s t in if code a == code b then rest else none

-- strings.Cut(s, ":"): with no colon, all of the text and nothing.
unfoldable pub cut_colon : String → String × String
cut_colon empty = (empty, empty)
cut_colon (cons c s) =
    let rest = cut_colon s in if code c == b':' then (empty, s) else (cons c rest.0, rest.1)

trim_prefix : String → String → String
trim_prefix s p = elim (cut_prefix s p) [ some rest ↦ rest | none ↦ s ]

-- The first known namespace that the text starts with, before a colon.
unfoldable pub resolve_known : List String → String → Option (String × String)
resolve_known [] rest = none
resolve_known (ns ∷ known) rest = elim (cut_prefix rest (concat ns ":")) [
  | some name ↦ some (ns, name)
  | none ↦ resolve_known known rest
]

-- ci.Namespace == "" splits at the first colon, also where the namespace "" was found.
unfoldable pub resolve : List String → String → String × String
unfolding resolve_known
resolve known rest = elim (resolve_known known rest) [
  | some (ns, name) ↦ if str_eq ns "" then cut_colon rest else (ns, name)
  | none ↦ cut_colon rest
]

info_for : String × String → Option ℤ → List CursorInfo
info_for p none = []
info_for p (some n) = record { namespace = p.0; name = p.1; seq = n } ∷ []

-- A row whose value is not an integer is skipped.
unfoldable pub cursor_infos : List String → List (String × Bytes) → List CursorInfo
unfolding info_for trim_prefix
cursor_infos known [] = []
cursor_infos known ((k, v) ∷ m) =
    info_for (resolve known (trim_prefix k "cursor:")) (parse_int v) ++ cursor_infos known m

-- SELECT k, v FROM meta WHERE substr(k, 1, 7) = 'cursor:' ORDER BY k
insert_row : String × Bytes → List (String × Bytes) → List (String × Bytes)
insert_row r [] = r ∷ []
insert_row r (q ∷ qs) =
    let rest = insert_row r qs in if text_le r.0 q.0 then r ∷ q ∷ qs else q ∷ rest

unfoldable pub cursor_rows : List (String × Bytes) → List (String × Bytes)
unfolding insert_row
cursor_rows [] = []
cursor_rows (r ∷ m) =
    let rest = cursor_rows m in
    if has_prefix (codes r.0) (codes "cursor:") then insert_row r rest else rest

-- len of a string: the bytes of its UTF-8
abbrev char_bytes : ℕ → ℕ
char_bytes c = if ltb c 0x80 then 1 else if ltb c 0x800 then 2 else if ltb c 0x10000 then 3 else 4

unfoldable byte_length : String → ℕ
byte_length empty = 0
byte_length (cons c s) = char_bytes (code c) + byte_length s

insert_longest : String → List String → List String
unfolding byte_length
insert_longest s [] = s ∷ []
insert_longest s (t ∷ ts) =
    let rest = insert_longest s ts in
    if leb (byte_length t) (byte_length s) then s ∷ t ∷ ts else t ∷ rest

-- sort.SliceStable by falling length
unfoldable pub longest_first : List String → List String
unfolding insert_longest
longest_first [] = []
longest_first (s ∷ ss) = insert_longest s (longest_first ss)

-- SELECT DISTINCT namespace, of the cache and of the events where there are any
namespaces_in : Bool → Db → List String
namespaces_in exists d =
    map (λ r. r.namespace) d.rows ++ (if exists then map (λ e. e.namespace) d.events else [])

unfoldable pub known_namespaces : M (List String)
unfolding namespaces_in
known_namespaces = do
  exists ← events_exist
  c ← get_cache
  used ← query (namespaces_in exists)
  pure (longest_first (sorted_keys (dedupe [] (c.namespace ∷ used))))

info_le : CursorInfo → CursorInfo → Bool
info_le a b =
    if str_eq a.namespace b.namespace
    then text_le a.name b.name
    else text_le a.namespace b.namespace

insert_info : CursorInfo → List CursorInfo → List CursorInfo
unfolding info_le
insert_info i [] = i ∷ []
insert_info i (j ∷ js) = let rest = insert_info i js in if info_le i j then i ∷ j ∷ js else j ∷ rest

unfoldable pub sort_infos : List CursorInfo → List CursorInfo
unfolding insert_info
sort_infos [] = []
sort_infos (i ∷ is) = insert_info i (sort_infos is)

list_cursors : List (String × Bytes) → M (List CursorInfo)
list_cursors [] = pure []
list_cursors (r ∷ rows) = do
  known ← known_namespaces
  pure (sort_infos (cursor_infos known (r ∷ rows)))

unfoldable pub cursors : M (List CursorInfo)
unfolding list_cursors
cursors = do rows ← query (λ d. cursor_rows d.meta); list_cursors rows
