-- ===== src/Lock.antt =====
-- lytecache-go/lock.go: the distributed lock, built on Add.
pub mod Rows
pub mod Exclusion
use Prim.Native.String.{◌++◌ as concat}
use lytecache.Common.{
  ℕ, ◌+◌, String, Bool, true, false, not, ◌&&◌, Option, none, some, List, [], ◌∷◌, if◌then◌else◌, ℤ,
  ◌+ℤ◌, ltb_ℤ, wrap64,
}
use lytecache.Errors.{Error, Result, ok, err, lock_timeout}
use lytecache.Strconv.{Bytes}
use lytecache.Value.{Value, encode_value, same_bytes}
use lytecache.Table.{Row, Table, at_key, delete_where}
use lytecache.World.{
  World, M, Cache, ◌>>=◌, ◌>>◌, pure, raise, lift, get_cache, get_env, now_millis, exec, on_rows,
}
use lytecache.Events.{milliseconds}
use lytecache.Kv.{add_with}

unfoldable pub lock_key : String → String
lock_key name = concat "__lock__:" name

pub record Lock : Type 0 where
  pub name : String
  pub token : Bytes

-- One round of the polling loop: the lock, or none if the caller is to sleep and try again.
unfoldable pub try_lock : String → Bytes → ℤ → ℤ → M (Option Lock)
try_lock name token timeout deadline = do
  won ← add_with false (lock_key name) (Value.string token) (some timeout)
  if won
      then pure (some (record { name = name; token = token }))
      else do now ← now_millis; if ltb_ℤ now deadline then pure none else raise lock_timeout

-- The polling loop. `others` is what other holders do to the state in each of its sleeps; the
-- outcome is none if they have not let the loop end.
unfoldable poll :
    List (World → World) → String → Bytes → ℤ → ℤ → World → Option (Result Lock) × World
poll [] name token timeout deadline w = (none, w)
poll (sleep ∷ others) name token timeout deadline w =
    let (r, w') = try_lock name token timeout deadline w in
    elim r [
      | err e ↦ (some (err e), w')
      | ok (some l) ↦ (some (ok l), w')
      | ok none ↦ poll others name token timeout deadline (sleep w')
    ]

-- Lock, with the random token that it draws. Times are in milliseconds.
unfoldable lock : String → Bytes → ℤ → List (World → World) → World → Option (Result Lock) × World
lock name token timeout others w =
    let (now, w') = now_millis w in
    elim now [
      | err e ↦ (some (err e), w')
      | ok t ↦ poll others name token timeout (wrap64 (t +ℤ milliseconds timeout)) w'
    ]

-- Release deletes the row only if it still holds this lock's token.
unfoldable pub release : Lock → M (Unit {0})
release l = do
  env ← get_env
  (d, code) ← lift (encode_value env.codec (Value.string l.token))
  c ← get_cache
  exec
      (on_rows (delete_where (λ r. at_key c.namespace (lock_key l.name) r && same_bytes r.value d)))
  pure tt
