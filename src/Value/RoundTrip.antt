-- ===== src/Value/RoundTrip.antt =====
-- What encodeValue writes, decodeInto reads back.
use lytecache.Common.{
  ◌==◌, ==_iff, Bool-cases, inl, inr, refl, ℕ, ◌^◌, ◌-◌, ◌<◌, ◌≡◌, sym, ◌∙◌, true, false, none,
  some, [], arith, ℤ, pos, negsuc, IsInt64,
}
use lytecache.Errors.{ok}
use lytecache.Strconv.{Bytes}
use lytecache.Strconv.RoundTrip.{parse_int-format_int}
use lytecache.Value.{
  Value, Dest, Decoded, Codec, to_bytes, to_string, to_int, to_uint, to_float, to_any, set_float,
  type_int, is_nan_or_inf, encode_int_bytes, encode_uint_bytes, encode_float_bytes, encode_value,
  to_lower, special_float, decode_float_text, assign_bytes, assign_string, fits_int, fits_uint,
  assign_int, assign_float, decode_into,
}

-- What strconv and encoding/json promise: the shortest text of a finite float reads back as that
-- float, and is none of the words for NaN and infinity.
pub record IsCodec (lib : Codec) : Type 0 where
  pub parse_format :
      (b : ℕ) → is_nan_or_inf b ≡ false → lib.parse_float (lib.format_float b) ≡ some b
  pub format_ordinary :
      (b : ℕ) → is_nan_or_inf b ≡ false → special_float (to_lower (lib.format_float b)) ≡ none

-- A number that a destination can hold.
abbrev pub Holds : Dest → ℤ → Type 0
Holds (to_int bits) (pos n) = n < 2 ^ (bits - 1)
Holds (to_int bits) (negsuc n) = n < 2 ^ (bits - 1)
Holds (to_uint bits) (pos n) = n < 2 ^ bits
Holds (to_uint bits) (negsuc n) = ⊥
Holds _ n = Unit {0}

-- The value is one of the type that the destination points to: a []byte, a string, a number of that
-- width. A float32 is the float64 that it widens to, which narrows back to itself. A value that is left
-- to encoding/json has none here.
abbrev pub IsOfType : Codec → Value → Dest → Type 0
IsOfType lib (Value.bytes v) to_bytes = Unit {0}
IsOfType lib (Value.string v) to_string = Unit {0}
IsOfType lib (Value.int v) (to_int bits) = Holds (to_int bits) v × IsInt64 v
IsOfType lib (Value.uint v) (to_uint bits) = v < 2 ^ bits
IsOfType lib (Value.float v) (to_float bits) = (bits ≡ 32) → lib.to_float32 v ≡ v
IsOfType lib v dest = ⊥

abbrev pub own_content : Value → Decoded
own_content (Value.bytes v) = Decoded.bytes v
own_content (Value.string v) = Decoded.string v
own_content (Value.int v) = Decoded.int v
own_content (Value.uint v) = Decoded.int (pos v)
own_content (Value.float v) = Decoded.float v
own_content (Value.other v) = Decoded.document []

int_text :
    (lib : Codec) (n : ℤ) (dest : Dest)
    → IsInt64 n
    → decode_into lib (encode_int_bytes n) type_int dest ≡ assign_int lib dest n
unfolding decode_into encode_int_bytes
int_text lib n dest h = rw (parse_int-format_int n h)

fits_int-Holds : (bits : ℕ) (n : ℤ) → Holds (to_int bits) n → fits_int bits n ≡ true
unfolding fits_int
fits_int-Holds bits (pos n) h = ground arith
fits_int-Holds bits (negsuc n) h = ground arith

set_float-own :
    (lib : Codec) (bits v : ℕ)
    → IsOfType lib (Value.float v) (to_float bits)
    → set_float lib bits v ≡ Decoded.float v
unfolding set_float
set_float-own lib bits v h = elim (Bool-cases (bits == 32)) [
  | inl x ↦ rw (x, h ((==_iff bits 32).0 x)) refl
  | inr x ↦ rw x refl
]

-- A []byte, a string, an integer of any width or a float of either that is encoded decodes into a
-- destination of its own type as itself, given that strconv reads the text of a finite float back as
-- that float and that this text is none of the words for NaN and infinity.
pub decode_into-encode_value :
    (lib : Codec)
    → IsCodec lib
    → (v : Value) (dest : Dest) {d : Bytes} {t : ℕ} → IsOfType lib v dest
    → encode_value lib v ≡ ok (d, t)
    → decode_into lib d t dest ≡ ok (own_content v)
unfolding encode_value decode_into
decode_into-encode_value lib laws (Value.bytes v) to_bytes g e = unfold assign_bytes in ground arith
decode_into-encode_value lib laws (Value.string v) to_string g e =
    unfold assign_string in ground arith
decode_into-encode_value lib laws (Value.int v) (to_int bits) g e =
    unfold assign_int in ground (arith, int_text lib v (to_int bits) g.1, fits_int-Holds bits v g.0)
decode_into-encode_value lib laws (Value.uint v) (to_uint bits) g e =
    unfold assign_int encode_uint_bytes fits_uint in
    ground (arith, int_text lib (pos v) (to_uint bits))
decode_into-encode_value lib laws (Value.float v) (to_float bits) g e =
    unfold assign_float encode_float_bytes decode_float_text in
    ground (arith, laws.parse_format v, laws.format_ordinary v, set_float-own lib bits v g)
decode_into-encode_value lib laws v dest g e = absurd g

assign_int-Holds :
    (lib : Codec) (n m : ℤ) (dest : Dest)
    → assign_int lib dest n ≡ ok (Decoded.int m)
    → (m ≡ n) × Holds dest m
unfolding assign_int fits_int fits_uint
assign_int-Holds lib (pos n) m (to_int bits) e =
    let p : m ≡ pos n = ground arith in rw p (ground arith)
assign_int-Holds lib (negsuc n) m (to_int bits) e =
    let p : m ≡ negsuc n = ground arith in rw p (ground arith)
assign_int-Holds lib (pos n) m (to_uint bits) e =
    let p : m ≡ pos n = ground arith in rw p (ground arith)
assign_int-Holds lib (negsuc n) m (to_uint bits) e = ground arith
assign_int-Holds lib n m to_any e = (ground arith, tt)
assign_int-Holds lib n m dest e = ground arith

-- A stored integer that is read as an integer of any width is read unaltered, and only into a
-- type that can hold it.
pub decode_into_int :
    (lib : Codec) (n m : ℤ) (dest : Dest)
    → IsInt64 n
    → decode_into lib (encode_int_bytes n) type_int dest ≡ ok (Decoded.int m)
    → (m ≡ n) × Holds dest m
decode_into_int lib n m dest h e = assign_int-Holds lib n m dest (sym (int_text lib n dest h) ∙ e)
