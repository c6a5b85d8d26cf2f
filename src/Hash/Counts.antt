-- ===== src/Hash/Counts.antt =====
-- lytecache-go/hash.go: HIncrBy and HIncrByFloat. A float64 is its bit pattern.
use lytecache.Common.{
  ℕ, ◌-◌, ◌%◌, ◌^◌, String, Bool, true, ◌&&◌, ◌||◌, Option, none, some, [], ◌∷◌, ◌==◌,
  if◌then◌else◌, ℤ, pos, negsuc, ◌+ℤ◌, ◌-ℤ◌, ltb_ℤ, is_some, str_eq,
}
use lytecache.Errors.{Result, ok, err, not_numeric, overflow, malformed, database, serialization}
use lytecache.Strconv.{Bytes, format_int, parse_int}
use lytecache.Value.{is_nan_or_inf}
use lytecache.Table.{Row, select_key}
use lytecache.World.{
  M, op_set, ◌>>=◌, ◌>>◌, pure, raise, get_cache, get_env, get_db, exec, query, in_tx, on_rows,
  now_millis,
}
use lytecache.Changes.{changed}
use lytecache.Sweep.{maybe_evict}
use lytecache.Kv.{capacity_check, expires_at_arg}
use lytecache.Json.{
  JsonLib, Fields, get_field, set_field, parse_json_int, parse_json_number, format_json_float,
}
use lytecache.Hash.{Mutation, is_object, check_hash_type, rmw_hash}
use lytecache.Hash.Writes.{upsert_hash}

-- What the statement of hincr takes from the type of its amount: the new document of a fresh row,
-- the text of the new value where the guard holds, the result from the text that RETURNING gives,
-- and the field types that count as numbers.
pub record Increment (A : Type 0) : Type 0 where
  pub fresh : Bytes
  pub next : Bytes → Option Bytes
  pub result : Bytes → Option A
  pub numeric : String → Bool

is_integer_type : String → Bool
is_integer_type t = str_eq t "integer"

is_number_type : String → Bool
is_number_type t = str_eq t "integer" || str_eq t "real"

-- COALESCE(hashFieldType, …) is one of the types
may_count : (String → Bool) → Option String → Bool
may_count numeric none = true
may_count numeric (some t) = numeric t

sum_text : Option ℤ → Option Bytes
sum_text none = none
sum_text (some n) = some (format_int n)

float_sum_text : JsonLib → Option ℕ → Option Bytes
float_sum_text lib none = none
float_sum_text lib (some n) = some (lib.sql_float_text n)

unfoldable pub int_increment : JsonLib → String → ℤ → Increment ℤ
unfolding may_count sum_text is_integer_type
int_increment lib field amount = record {
  fresh = lib.sql_object field (format_int amount);
  next = λ d.
      if may_count is_integer_type (lib.sql_field_type d field)
      then sum_text (lib.sql_sum d field amount)
      else none;
  result = parse_int;
  numeric = is_integer_type;
}

float_increment : JsonLib → String → ℕ → Increment ℕ
unfolding may_count float_sum_text is_number_type
float_increment lib field amount = record {
  fresh = lib.sql_object field (lib.sql_real amount);
  next = λ d.
      if may_count is_number_type (lib.sql_field_type d field)
      then float_sum_text lib (lib.sql_float_sum d field amount)
      else none;
  result = lib.parse_float;
  numeric = is_number_type;
}

unfoldable pub counted_doc : {A : Type 0} → JsonLib → String → Increment A → Bytes → Bytes
counted_doc lib field inc d = elim (inc.next d) [ none ↦ d | some v ↦ lib.sql_set d field v ]

-- SELECT hashFieldType … WHERE namespace = @ns AND key = @key; ErrNoRows is an error here.
refusal : {A : Type 0} → JsonLib → String → Increment A → Option Row → M A
refusal lib field inc none = raise database
refusal lib field inc (some r) =
    elim (if is_object lib r then lib.sql_field_type r.value field else none) [
      | none ↦ raise not_numeric
      | some t ↦ if inc.numeric t then raise overflow else raise not_numeric
    ]

parsed_result : {A : Type 0} → Option A → M A
parsed_result none = raise malformed
parsed_result (some a) = pure a

returned_text : JsonLib → String → Option Row → Bytes
returned_text lib field none = []
returned_text lib field (some r) = lib.sql_extract r.value field

count_in_tx : {A : Type 0} → String → String → Increment A → ℤ → Option ℤ → M A
unfolding counted_doc refusal parsed_result returned_text
count_in_tx key field inc now expires = do
  c ← get_cache
  env ← get_env
  n ← exec (
      on_rows (
        upsert_hash (counted_doc env.json field inc) inc.fresh
          (λ r. is_object env.json r && is_some (inc.next r.value)) c.namespace key now expires))
  d ← get_db
  if n == 1
      then parsed_result
          (inc.result (returned_text env.json field (select_key c.namespace key d.rows)))
      else do
        check_hash_type key now
        row ← query (λ d. select_key c.namespace key d.rows)
        refusal env.json field inc row

unfoldable pub count_by_sql : {A : Type 0} → String → String → Increment A → Option ℤ → M A
unfolding count_in_tx
count_by_sql key field inc ttl = do
  capacity_check key
  now ← now_millis
  r ← in_tx (count_in_tx key field inc now (expires_at_arg ttl now))
  changed op_set (some (key ∷ [])) 1
  maybe_evict
  pure r

unfoldable pub or_zero : Option Bytes → Bytes
or_zero none = b'0' ∷ []
or_zero (some raw) = raw

max_int64 : ℤ
max_int64 = pos (2 ^ 63 - 1)

min_int64 : ℤ
min_int64 = negsuc (2 ^ 63 - 1)

-- (a > 0 && cur > math.MaxInt64-a) || (a < 0 && cur < math.MinInt64-a)
unfoldable pub overflows : ℤ → ℤ → Bool
unfolding max_int64 min_int64
overflows a cur =
    ltb_ℤ (pos 0) a && ltb_ℤ (max_int64 -ℤ a) cur || ltb_ℤ a (pos 0) && ltb_ℤ cur (min_int64 -ℤ a)

unfoldable pub int_added : String → ℤ → Fields → Option ℤ → Result (Bool × ℤ × Fields)
int_added field a o none = err not_numeric
int_added field a o (some cur) =
    if overflows a cur
    then err overflow
    else ok (true, cur +ℤ a, set_field field (format_int (cur +ℤ a)) o)

unfoldable pub int_mutation : String → ℤ → Mutation ℤ
unfolding or_zero int_added
int_mutation field a o = int_added field a o (parse_json_int (or_zero (get_field field o)))

-- math.IsInf(f, 0): all exponent bits are set, and none of the fraction.
is_inf : ℕ → Bool
is_inf b = b % 2 ^ 63 == 0x7FF0000000000000

float_added : JsonLib → String → ℕ → Fields → Option ℕ → Result (Bool × ℕ × Fields)
unfolding is_inf
float_added lib field a o none = err not_numeric
float_added lib field a o (some cur) =
    let next = lib.float_sum cur a in
    if is_inf next
    then err overflow
    else ok (true, next, set_field field (format_json_float lib next) o)

unfoldable pub float_mutation : JsonLib → String → ℕ → Mutation ℕ
unfolding or_zero float_added
float_mutation lib field a o =
    float_added lib field a o (parse_json_number lib (or_zero (get_field field o)))

unfoldable pub hincr_by : String → String → ℤ → Option ℤ → M ℤ
hincr_by key field amount ttl = do
  c ← get_cache
  env ← get_env
  if c.json1
      then count_by_sql key field (int_increment env.json field amount) ttl
      else rmw_hash key ttl true (int_mutation field amount)

unfoldable pub hincr_by_float : String → String → ℕ → Option ℤ → M ℕ
unfolding float_increment
hincr_by_float key field amount ttl = if is_nan_or_inf amount then raise serialization else do
  c ← get_cache
  env ← get_env
  if c.json1
      then count_by_sql key field (float_increment env.json field amount) ttl
      else rmw_hash key ttl true (float_mutation env.json field amount)
