-- ===== src/Keys.antt =====
-- lytecache-go/keys.go: listing the keys of the namespace page by page, and Flush.
pub mod Rows
use Prim.Native.String.{compare as str_compare}
use Prim.Native.Nat.{Ordering}
use lytecache.Common.{
  ℕ, zero, suc, ◌+◌, String, Bool, true, false, not, ◌&&◌, Option, none, some, List, [], ◌∷◌, ◌++◌,
  map, take, length, ltb, ◌==◌, if◌then◌else◌, ℤ, str_eq,
}
use lytecache.Errors.{Error, Result, ok, err}
use lytecache.Table.{Row, Table, is_live, in_namespace, select_where, delete_where}
use lytecache.World.{
  World, M, Cache, op_flush, ◌>>=◌, ◌>>◌, pure, get_cache, get_env, set_cache, when, now_millis,
  query, exec, on_rows,
}
use lytecache.Changes.{changed}
use lytecache.Bulk.{sorted_keys}

abbrev pub keys_batch_size : ℕ
keys_batch_size = 500

-- a < b in the order of the bytes
unfoldable text_lt : String → String → Bool
text_lt a b = elim (str_compare a b) [ Ordering.lt ↦ true | _ ↦ false ]

-- namespace = ? AND key GLOB ? AND key > ? AND (expires_at IS NULL OR expires_at > ?)
unfoldable on_page : (String → String → Bool) → String → String → String → ℤ → Row → Bool
on_page glob ns pattern last now r =
    in_namespace ns r && glob pattern r.key && text_lt last r.key && is_live r.expires_at now

-- … ORDER BY key LIMIT n
unfoldable page_of : ℕ → (Row → Bool) → Table → List String
page_of n p t = take n (sorted_keys (map (λ r. r.key) (select_where p t)))

pub keys_page : String → String → M (List String)
keys_page pattern last = do
  now ← now_millis
  c ← get_cache
  env ← get_env
  query (λ d. page_of keys_batch_size (on_page env.glob c.namespace pattern last now) d.rows)

-- batch[len(batch)-1]
unfoldable last_of : String → List String → String
last_of k [] = k
last_of k (j ∷ js) = last_of j js

-- The pages from the key `last` on, until one is not full: the keys that are yielded, and the
-- error that ends the listing. The fuel bounds the pages.
unfoldable pages : ℕ → String → String → World → (List String × Option Error) × World
pages zero pattern last w = (([], none), w)
pages (suc f) pattern last w =
    let (r, w') = keys_page pattern last w in
    elim r [
      | err e ↦ (([], some e), w')
      | ok batch ↦ elim (ltb (length batch) keys_batch_size) [
        | true ↦ ((batch, none), w')
        | false ↦
            let (rest, w'') = pages f pattern (last_of last batch) w' in
            ((batch ++ rest.0, rest.1), w'')
      ]
    ]

-- Keys, for a consumer that takes every key. Each full page leaves fewer keys to list.
unfoldable keys : String → World → (List String × Option Error) × World
keys pattern w = pages (suc (length w.db.rows)) (if str_eq pattern "" then "*" else pattern) "" w

pub flush : M (Unit {0})
flush = do
  c ← get_cache
  n ← exec (on_rows (delete_where (in_namespace c.namespace)))
  set_cache (λ c. record c { lru_buffer = [] })
  when (not (n == 0)) (changed op_flush none n)
