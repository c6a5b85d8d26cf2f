-- ===== src/Hash/Overflow.antt =====
-- HIncrBy in the fallback: the sum is an int64, or nothing is written.
use lytecache.Common.{Bool, true, false, ◌≡◌, ◌⊎◌, Option, none, some, ℤ, ◌+ℤ◌, IsInt64, String}
use lytecache.Errors.{Result, ok, err, not_numeric, overflow}
use lytecache.Strconv.{format_int}
use lytecache.Json.{Fields, get_field, set_field, parse_json_int}
use lytecache.Json.{marshal}
use lytecache.Table.{Row, Table}
use lytecache.World.{World}
use lytecache.World.Ends.{Ends}
use lytecache.Hash.Counts.{or_zero}
use lytecache.Hash.Written.{Live, HoldsObject, OnlyWritten}
use lytecache.Hash.Quiet.{Settles}

-- the integer that the field holds, 0 where it is absent
abbrev pub held : String → Fields → Option ℤ
held field o = parse_json_int (or_zero (get_field field o))

abbrev pub Counts : String → ℤ → Fields → Result (Bool × ℤ × Fields) → Type 0
Counts field a o (ok (changes, n, o')) =
    (cur : ℤ) × (held field o ≡ some cur)
    × IsInt64 n
    × (n ≡ cur +ℤ a)
    × (changes ≡ true)
    × (o' ≡ set_field field (format_int n) o)
Counts field a o (err e) =
    ((held field o ≡ none) × (e ≡ not_numeric))
    ⊎ ((cur : ℤ) × (held field o ≡ some cur) × (e ≡ overflow) × (IsInt64 (cur +ℤ a) → false ≡ true))

-- The field of the key's live object, or an absent one, has been incremented, and the object written.
abbrev pub Increments : World → String → String → Option ℤ → ℤ → ℤ → Table → Type 0
Increments w key field ttl a n t =
    (old : Option Row) × (before : Fields) × (cur : ℤ) × (m : Table) × Live w.cache.namespace key
      (w.env.clock 0) w.db.rows old
    × HoldsObject w.env.json old before
    × (held field before ≡ some cur)
    × (n ≡ cur +ℤ a)
    × IsInt64 n
    × OnlyWritten w.cache.namespace key ttl (w.env.clock 0) old
        (marshal w.env.json (set_field field (format_int n) before)) w.db.rows m
    × Settles w m t
