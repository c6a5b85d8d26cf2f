-- ===== src/Value.antt =====
-- lytecache-go/serialize.go: the wire codes, encodeValue and decodeInto.
pub mod RoundTrip
use lytecache.Common.{
  ℕ, zero, suc, ◌+◌, ◌-◌, ◌/◌, ◌%◌, ◌^◌, Bool, true, false, ◌&&◌, ◌||◌, Option, none, some, List,
  [], ◌∷◌, map, ltb, leb, ◌==◌, if◌then◌else◌, ℤ, pos, negsuc,
}
use lytecache.Errors.{Result, ok, err, serialization}
use lytecache.Strconv.{Bytes, format_int, parse_int}

abbrev pub type_bytes : ℕ
type_bytes = 0

abbrev pub type_string : ℕ
type_string = 1

abbrev pub type_int : ℕ
type_int = 2

abbrev pub type_float : ℕ
type_float = 3

abbrev pub type_json : ℕ
type_json = 4

-- A Go value by the case of encodeValue that takes it. A []byte is not nil. A float64 is its bit pattern, and a value
-- that is left to encoding/json is what json.Marshal returns for it.
pub data Value : Type 0 where
  bytes : Bytes → Value
  string : Bytes → Value
  int : ℤ → Value
  uint : ℕ → Value
  float : ℕ → Value
  other : Option Bytes → Value

-- A destination by the type that it points to, a number's with its width in bits; `invalid` is anything but a non-nil pointer.
pub data Dest : Type 0 where
  to_bytes to_string to_any to_other invalid : Dest
  to_float : ℕ → Dest
  to_int : ℕ → Dest
  to_uint : ℕ → Dest

-- What a destination holds after it was assigned; a `document` is what json.Unmarshal made of a text.
pub data Decoded : Type 0 where
  bytes : Bytes → Decoded
  string : Bytes → Decoded
  int : ℤ → Decoded
  float : ℕ → Decoded
  document : Bytes → Decoded

-- What the code calls of strconv for floats and of encoding/json, and Go's conversions of an int64 to a
-- float64 and of a float64 to the nearest float32.
pub record Codec : Type 0 where
  pub format_float : ℕ → Bytes
  pub parse_float : Bytes → Option ℕ
  pub float_of_int : ℤ → ℕ
  pub to_float32 : ℕ → ℕ
  pub unmarshal : Dest → Bytes → Option Bytes

-- math.IsNaN(v) || math.IsInf(v, 0): all exponent bits are set.
unfoldable pub is_nan_or_inf : ℕ → Bool
is_nan_or_inf b = b / 2 ^ 52 % 2 ^ 11 == 2047

unfoldable pub encode_int_bytes : ℤ → Bytes
encode_int_bytes v = format_int v

pub encode_uint_bytes : ℕ → Result (Bytes × ℕ)
encode_uint_bytes v =
    if ltb (2 ^ 63 - 1) v then err serialization else ok (encode_int_bytes (pos v), type_int)

pub encode_float_bytes : Codec → ℕ → Result (Bytes × ℕ)
encode_float_bytes lib v =
    if is_nan_or_inf v then err serialization else ok (lib.format_float v, type_float)

unfoldable pub encode_value : Codec → Value → Result (Bytes × ℕ)
encode_value lib (bytes v) = ok (v, type_bytes)
encode_value lib (string v) = ok (v, type_string)
encode_value lib (int v) = ok (encode_int_bytes v, type_int)
encode_value lib (uint v) = encode_uint_bytes v
encode_value lib (float v) = encode_float_bytes lib v
encode_value lib (other none) = err serialization
encode_value lib (other (some buf)) = ok (buf, type_json)

-- strings.ToLower on ASCII text.
unfoldable pub to_lower : Bytes → Bytes
to_lower = map (λ c. if leb b'A' c && leb c b'Z' then c + 32 else c)

unfoldable pub same_bytes : Bytes → Bytes → Bool
same_bytes [] [] = true
same_bytes (a ∷ s) (b ∷ t) = a == b && same_bytes s t
same_bytes s t = false

abbrev text_nan : Bytes
text_nan = b'n' ∷ b'a' ∷ b'n' ∷ []

abbrev text_inf : Bytes
text_inf = b'i' ∷ b'n' ∷ b'f' ∷ []

abbrev text_infinity : Bytes
text_infinity = b'i' ∷ b'n' ∷ b'f' ∷ b'i' ∷ b'n' ∷ b'i' ∷ b't' ∷ b'y' ∷ []

-- The spellings that decodeFloatText takes before it calls strconv: the bits of math.NaN(),
-- math.Inf(1) and math.Inf(-1).
unfoldable pub special_float : Bytes → Option ℕ
special_float s =
    if same_bytes s text_nan
    then some 0x7FF8000000000001
    else if same_bytes s text_inf || same_bytes s text_infinity
    then some 0x7FF0000000000000
    else if same_bytes s (b'-' ∷ text_inf) || same_bytes s (b'-' ∷ text_infinity)
    then some 0xFFF0000000000000
    else none

or_parsed : Codec → Bytes → Option ℕ → Result ℕ
or_parsed lib s (some v) = ok v
or_parsed lib s none = elim (lib.parse_float s) [ some v ↦ ok v | none ↦ err serialization ]

pub decode_float_text : Codec → Bytes → Result ℕ
unfolding or_parsed
decode_float_text lib s = or_parsed lib s (special_float (to_lower s))

pub assign_bytes : Dest → Bytes → Result Decoded
assign_bytes to_bytes d = ok (Decoded.bytes d)
assign_bytes to_string d = ok (Decoded.string d)
assign_bytes to_any d = ok (Decoded.bytes d)
assign_bytes _ d = err serialization

pub assign_string : Dest → Bytes → Result Decoded
assign_string to_string s = ok (Decoded.string s)
assign_string to_bytes s = ok (Decoded.bytes s)
assign_string to_any s = ok (Decoded.string s)
assign_string _ s = err serialization

-- reflect's OverflowInt for a signed type of `bits` bits
unfoldable pub fits_int : ℕ → ℤ → Bool
fits_int bits (pos n) = ltb n (2 ^ (bits - 1))
fits_int bits (negsuc n) = ltb n (2 ^ (bits - 1))

-- n >= 0 and no overflow of an unsigned type of `bits` bits
pub fits_uint : ℕ → ℤ → Bool
fits_uint bits (pos n) = ltb n (2 ^ bits)
fits_uint bits (negsuc n) = false

-- reflect's SetFloat, which narrows the value to the destination's width
pub set_float : Codec → ℕ → ℕ → Decoded
set_float lib bits f = Decoded.float (if bits == 32 then lib.to_float32 f else f)

unfoldable pub assign_int : Codec → Dest → ℤ → Result Decoded
unfolding set_float
assign_int lib (to_int bits) n = if fits_int bits n then ok (Decoded.int n) else err serialization
assign_int lib (to_uint bits) n = if fits_uint bits n then ok (Decoded.int n) else err serialization
assign_int lib (to_float bits) n = ok (set_float lib bits (lib.float_of_int n))
assign_int lib to_any n = ok (Decoded.int n)
assign_int lib _ n = err serialization

pub assign_float : Codec → Dest → ℕ → Result Decoded
assign_float lib (to_float bits) f = ok (set_float lib bits f)
assign_float lib to_any f = ok (Decoded.float f)
assign_float lib _ f = err serialization

assign_parsed : Codec → Dest → Option ℤ → Result Decoded
assign_parsed lib dest none = err serialization
assign_parsed lib dest (some n) = assign_int lib dest n

assign_decoded : Codec → Dest → Result ℕ → Result Decoded
assign_decoded lib dest (err e) = err e
assign_decoded lib dest (ok f) = assign_float lib dest f

pub assign_json : Option Bytes → Result Decoded
assign_json none = err serialization
assign_json (some v) = ok (document v)

-- Codes 5 and 6 are the other languages' own formats; they and unknown codes are refused.
unfoldable pub decode_into : Codec → Bytes → ℕ → Dest → Result Decoded
unfolding assign_parsed assign_decoded assign_json
decode_into lib d code dest =
    if code == type_bytes
    then assign_bytes dest d
    else if code == type_string
    then assign_string dest d
    else if code == type_int
    then assign_parsed lib dest (parse_int d)
    else if code == type_float
    then assign_decoded lib dest (decode_float_text lib d)
    else if code == type_json
    then assign_json (lib.unmarshal dest d)
    else err serialization
