-- ===== src/Tests/Documents.antt =====
-- A small JSON for the tests: objects of integers whose names are the letters a and b.
use lytecache.Common.{
  ℕ, ◌+◌, String, Bool, true, false, Option, none, some, [], ◌∷◌, ◌++◌, ◌==◌, ◌||◌, if◌then◌else◌,
  ℤ, ◌+ℤ◌,
}
use lytecache.Strconv.{Bytes, format_int, parse_int}
use lytecache.Value.{Value}
use lytecache.Events.Filter.{codes}
use lytecache.Json.{JsonLib, Fields, get_field, set_field, del_field}

letter : ℕ → String
letter c = if c == b'a' then "a" else "b"

-- the text up to a comma or a brace
until_end : Bytes → Bytes
until_end [] = []
until_end (c ∷ s) = let rest = until_end s in if c == b',' || c == b'}' then [] else c ∷ rest

-- each member starts with a quote, its letter, a quote and a colon
unfoldable pub members_of : Bytes → Fields
unfolding letter until_end
members_of [] = []
members_of (q ∷ []) = []
members_of (q ∷ c ∷ []) = []
members_of (q ∷ c ∷ r ∷ []) = []
members_of (q ∷ c ∷ r ∷ k ∷ s) =
    let rest = members_of (c ∷ r ∷ k ∷ s) in
    if k == b':' then (letter c, until_end s) ∷ members_of s else rest

quote : Bytes → Bytes
quote s = b'"' ∷ (s ++ b'"' ∷ [])

write_members : Bool → Fields → Bytes
unfolding quote
write_members first [] = b'}' ∷ []
write_members first ((k, v) ∷ o) =
    (if first then [] else b',' ∷ []) ++ quote (codes k) ++ b':' ∷ (v ++ write_members false o)

unfoldable pub document_of : Fields → Bytes
unfolding write_members
document_of o = b'{' ∷ write_members true o

unfoldable pub text_of : Value → Option Bytes
unfolding quote
text_of (Value.int n) = some (format_int n ++ 10 ∷ [])
text_of (Value.string s) = some (quote s ++ 10 ∷ [])
text_of _ = none

unfoldable pub is_document : Bytes → Bool
is_document [] = false
is_document (c ∷ s) = c == b'{'

unfoldable pub type_of : Option Bytes → Option String
type_of none = none
type_of (some v) = some "integer"

unfoldable pub sum_of : Option ℤ → ℤ → Option ℤ
sum_of none a = none
sum_of (some n) a = some (n +ℤ a)

unfoldable pub integer_at : Option Bytes → Option ℤ
integer_at none = parse_int (b'0' ∷ [])
integer_at (some v) = parse_int v

unfoldable pub text_at : Option Bytes → Bytes
text_at none = []
text_at (some v) = v

abbrev pub json_lib : JsonLib
json_lib = record {
  utf8 = codes;
  encode = text_of;
  valid = is_document;
  members = λ d. some (members_of d);
  compact = λ v. v;
  float_sum = λ a b. a + b;
  parse_float = λ s. none;
  format_float = λ b. [];
  sql_type = λ d. if is_document d then some "object" else none;
  sql_field_type = λ d f. type_of (get_field f (members_of d));
  sql_set = λ d f v. document_of (set_field f v (members_of d));
  sql_object = λ f v. document_of ((f, v) ∷ []);
  sql_remove = λ d f. document_of (del_field f (members_of d)).1;
  sql_field = λ d f. get_field f (members_of d);
  sql_each = λ d. members_of d;
  sql_extract = λ d f. text_at (get_field f (members_of d));
  sql_sum = λ d f a. sum_of (integer_at (get_field f (members_of d))) a;
  sql_float_sum = λ d f a. none;
  sql_float_text = λ b. [];
  sql_real = λ b. [];
}
