-- ===== src/Tests/Codecs.antt =====
-- The theorems on encodings and channel patterns, applied to values.
use lytecache.Common.{ℕ, none, List, [], ◌∷◌, pos, ◌≡◌, refl, arith}
use lytecache.Errors.{Result, ok, err}
use lytecache.Strconv.{format_int, parse_int}
use lytecache.Value.{
  Value, Decoded, to_int, type_int, encode_int_bytes, encode_value, decode_into, special_float,
  to_lower, same_bytes, fits_int, assign_int,
}
use lytecache.Value.RoundTrip.{
  IsCodec, Holds, own_content, decode_into-encode_value, decode_into_int,
}
use lytecache.Events.Filter.{
  channel_filter, filter_holds, any_matches, Filter, everything, filter_holds-channel_filter,
}
use lytecache.Tests.{lib}

lib_ordinary : (b : ℕ) → special_float (to_lower (b ∷ [])) ≡ none
unfolding special_float to_lower same_bytes
lib_ordinary b = ground arith

lib-IsCodec : IsCodec lib
lib-IsCodec = record { parse_format = λ b h. refl; format_ordinary = λ b h. lib_ordinary b }

abbrev five : Value
five = Value.int (pos 5)

five_encoded : encode_value lib five ≡ ok (b'5' ∷ [], 2)
unfolding encode_value encode_int_bytes format_int
five_encoded = refl

decode_into-encode_value_example : decode_into lib (b'5' ∷ []) 2 (to_int 8) ≡ ok (own_content five)
decode_into-encode_value_example =
    decode_into-encode_value lib lib-IsCodec five (to_int 8) (ground arith, ground arith)
      five_encoded

five_decoded :
    decode_into lib (encode_int_bytes (pos 5)) type_int (to_int 8) ≡ ok (Decoded.int (pos 5))
unfolding decode_into encode_int_bytes format_int parse_int assign_int fits_int
five_decoded = refl

decode_into_int_example : (pos 5 ≡ pos 5) × Holds (to_int 8) (pos 5)
decode_into_int_example = decode_into_int lib (pos 5) (pos 5) (to_int 8) (ground arith) five_decoded

-- the patterns "a*" and "b"
abbrev patterns : List (List ℕ)
patterns = (b'a' ∷ b'*' ∷ []) ∷ (b'b' ∷ []) ∷ []

abbrev unwrap : Result Filter → Filter
unwrap (ok f) = f
unwrap (err e) = everything

abbrev built : Filter
built = unwrap (channel_filter patterns)

patterns_ok : channel_filter patterns ≡ ok built
unfolding channel_filter lytecache.Events.Filter.cut_star
patterns_ok = refl

filter_holds-channel_filter_example :
    filter_holds built (b'a' ∷ b'c' ∷ []) ≡ any_matches patterns (b'a' ∷ b'c' ∷ [])
filter_holds-channel_filter_example =
    filter_holds-channel_filter patterns (b'a' ∷ b'c' ∷ []) patterns_ok
