-- ===== src/Json.antt =====
-- lytecache-go/hash.go: the ordered JSON object of the fallback, and the JSON text of fields.
pub mod Laws
use lytecache.Common.{
  ℕ, zero, suc, ◌+◌, String, Bool, true, false, not, ◌&&◌, ◌||◌, Option, none, some, List, [], ◌∷◌,
  ◌++◌, map, ltb, leb, ◌==◌, if◌then◌else◌, ℤ, pos, negsuc, is_some, str_eq,
}
use mathlib.Core.List.{reverse}
use lytecache.Errors.{Error, Result, ok, err, serialization}
use lytecache.Strconv.{Bytes, parse_int}
use lytecache.Value.{Value}

-- What the code calls of encoding/json, of strconv for floats, and of SQLite's JSON functions;
-- `utf8` is the bytes of a string. A type name is what json_type returns, none for a malformed document or an absent field; a sum is
-- none where SQLite's leaves the type or the range.
pub record JsonLib : Type 0 where
  pub utf8 : String → Bytes
  pub encode : Value → Option Bytes
  pub valid : Bytes → Bool
  pub members : Bytes → Option (List (String × Bytes))
  pub compact : Bytes → Bytes
  pub float_sum : ℕ → ℕ → ℕ
  pub parse_float : Bytes → Option ℕ
  pub format_float : ℕ → Bytes
  pub sql_type : Bytes → Option String
  pub sql_field_type : Bytes → String → Option String
  pub sql_set : Bytes → String → Bytes → Bytes
  pub sql_object : String → Bytes → Bytes
  pub sql_remove : Bytes → String → Bytes
  pub sql_field : Bytes → String → Option Bytes
  pub sql_each : Bytes → List (String × Bytes)
  pub sql_extract : Bytes → String → Bytes
  pub sql_sum : Bytes → String → ℤ → Option ℤ
  pub sql_float_sum : Bytes → String → ℕ → Option ℕ
  pub sql_float_text : ℕ → Bytes
  pub sql_real : ℕ → Bytes

-- jsonObject: the fields in their order, each with its exact text
abbrev pub Fields : Type 0
Fields = List (String × Bytes)

-- jsonObject.index, none for -1
unfoldable pub index : String → Fields → Option ℕ
index k [] = none
index k ((j, v) ∷ o) =
    if str_eq j k then some 0 else elim (index k o) [ none ↦ none | some i ↦ some (suc i) ]

unfoldable pub has : String → Fields → Bool
has k o = is_some (index k o)

unfoldable pub value_at : ℕ → Fields → Option Bytes
value_at i [] = none
value_at zero ((j, v) ∷ o) = some v
value_at (suc i) ((j, v) ∷ o) = value_at i o

value_found : Option ℕ → Fields → Option Bytes
unfolding value_at
value_found none o = none
value_found (some i) o = value_at i o

unfoldable pub get_field : String → Fields → Option Bytes
unfolding value_found
get_field k o = value_found (index k o) o

unfoldable pub put_at : ℕ → Bytes → Fields → Fields
put_at i v [] = []
put_at zero v ((j, w) ∷ o) = (j, v) ∷ o
put_at (suc i) v ((j, w) ∷ o) = (j, w) ∷ put_at i v o

put_found : Option ℕ → String → Bytes → Fields → Fields
unfolding put_at
put_found none k v o = o ++ (k, v) ∷ []
put_found (some i) k v o = put_at i v o

unfoldable pub set_field : String → Bytes → Fields → Fields
unfolding put_found
set_field k v o = put_found (index k o) k v o

unfoldable pub remove_at : ℕ → Fields → Fields
remove_at i [] = []
remove_at zero (f ∷ o) = o
remove_at (suc i) (f ∷ o) = f ∷ remove_at i o

remove_found : Option ℕ → Fields → Bool × Fields
unfolding remove_at
remove_found none o = (false, o)
remove_found (some i) o = (true, remove_at i o)

-- Whether the field was there, and the object without it.
unfoldable pub del_field : String → Fields → Bool × Fields
unfolding remove_found
del_field k o = remove_found (index k o) o

drop_newlines : Bytes → Bytes
drop_newlines [] = []
drop_newlines (c ∷ s) = if c == 10 then drop_newlines s else c ∷ s

-- strings.TrimRight(s, "\n")
trim_newlines : Bytes → Bytes
unfolding drop_newlines
trim_newlines s = reverse (drop_newlines (reverse s))

or_serialization : Option Bytes → Result Bytes
unfolding trim_newlines
or_serialization none = err serialization
or_serialization (some buf) = ok (trim_newlines buf)

-- []byte is refused; the rest is what the Encoder writes, without its newline.
unfoldable pub encode_hash_value : JsonLib → Value → Result Bytes
unfolding or_serialization
encode_hash_value lib (Value.bytes d) = err serialization
encode_hash_value lib v = or_serialization (lib.encode v)

-- the text of a field name
name_text : JsonLib → String → Bytes
name_text lib k = elim (encode_hash_value lib (Value.string (lib.utf8 k))) [ ok t ↦ t | err e ↦ [] ]

unfoldable pub marshal_fields : JsonLib → Bool → Fields → Bytes
unfolding name_text
marshal_fields lib first [] = b'}' ∷ []
marshal_fields lib first ((k, v) ∷ o) =
    (if first then [] else b',' ∷ [])
    ++ name_text lib k
    ++ b':' ∷ (lib.compact v ++ marshal_fields lib false o)

-- jsonObject.marshal
unfoldable pub marshal : JsonLib → Fields → Bytes
marshal lib o = b'{' ∷ marshal_fields lib true o

is_space : ℕ → Bool
is_space c = c == 32 || leb 9 c && leb c 13

skip_spaces : Bytes → Bytes
unfolding is_space
skip_spaces [] = []
skip_spaces (c ∷ s) = if is_space c then skip_spaces s else c ∷ s

-- bytes.TrimSpace on ASCII text
unfoldable pub trim_space : Bytes → Bytes
unfolding skip_spaces
trim_space s = reverse (skip_spaces (reverse (skip_spaces s)))

-- What a document is: malformed, a value of another type, or an object.
pub data Parsed : Type 0 where
  bad_json other_root : Parsed
  object : Fields → Parsed

-- The decoder's members in their order; a name that comes again replaces the earlier value.
unfoldable pub collect : Fields → Fields → Fields
collect o [] = o
collect o ((k, v) ∷ ms) = collect (set_field k v o) ms

collected : Option Fields → Parsed
collected none = bad_json
collected (some ms) = object (collect [] ms)

starts_object : Bytes → Bool
starts_object [] = false
starts_object (c ∷ s) = c == b'{'

unfoldable pub parse_json_object : JsonLib → Bytes → Parsed
unfolding collected starts_object trim_space
parse_json_object lib d =
    if not (lib.valid d)
    then bad_json
    else if starts_object (trim_space d)
    then collected (lib.members (trim_space d))
    else other_root

-- strings.ContainsAny(s, ".eE")
pub has_point : Bytes → Bool
has_point [] = false
has_point (c ∷ s) = c == b'.' || c == b'e' || c == b'E' || has_point s

unfoldable pub parse_json_int : Bytes → Option ℤ
unfolding has_point
parse_json_int raw = let s = trim_space raw in if has_point s then none else parse_int s

starts_number : Bytes → Bool
starts_number [] = false
starts_number (c ∷ s) = c == b'-' || leb b'0' c && leb c b'9'

pub parse_json_number : JsonLib → Bytes → Option ℕ
unfolding starts_number
parse_json_number lib raw =
    let s = trim_space raw in if starts_number s then lib.parse_float s else none

-- formatJSONFloat
pub format_json_float : JsonLib → ℕ → Bytes
format_json_float lib f =
    let s = lib.format_float f in if has_point s then s else s ++ b'.' ∷ b'0' ∷ []
