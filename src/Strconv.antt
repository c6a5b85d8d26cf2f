-- ===== src/Strconv.antt =====
-- The decimal text of an int64, as strconv.FormatInt and strconv.ParseInt write and read it for
-- lytecache-go/serialize.go and lytecache-go/counters.go.
pub mod RoundTrip
use lytecache.Common.{
  ℕ, zero, suc, ◌+◌, ◌-◌, ◌*◌, ◌/◌, ◌%◌, ◌^◌, ◌≡◌, refl, Bool, true, false, ◌||◌, Option, none,
  some, List, [], ◌∷◌, ltb, leb, ◌==◌, if◌then◌else◌, ℤ, pos, negsuc,
}

abbrev pub Bytes : Type 0
Bytes = List ℕ

-- The digits of `n` in front of `out`; the fuel `n` is enough, since each round divides by ten.
pub emit : ℕ → ℕ → Bytes → Bytes
emit zero n out = out
emit (suc f) n out =
    let rest = emit f (n / 10) ((b'0' + n % 10) ∷ out) in if n == 0 then out else rest

pub format_nat : ℕ → Bytes
format_nat n = if n == 0 then b'0' ∷ [] else emit n n []

unfoldable pub format_int : ℤ → Bytes
unfolding format_nat emit
format_int (pos n) = format_nat n
format_int (negsuc n) = b'-' ∷ format_nat (suc n)

pub scan : Bytes → ℕ → Option ℕ
scan [] n = some n
scan (c ∷ s) n = if ltb c b'0' || ltb b'9' c then none else scan s (n * 10 + (c - b'0'))

pub parse_nat : Bytes → Option ℕ
parse_nat [] = none
parse_nat (c ∷ s) = scan (c ∷ s) 0

-- The magnitude must fit: below 2^63, or at most 2^63 behind a minus sign.
pub signed : Bool → Option ℕ → Option ℤ
signed negative none = none
signed false (some n) = if ltb n (2 ^ 63) then some (pos n) else none
signed true (some zero) = some (pos 0)
signed true (some (suc n)) = if ltb n (2 ^ 63) then some (negsuc n) else none

unfoldable pub parse_int : Bytes → Option ℤ
unfolding parse_nat scan signed
parse_int [] = none
parse_int (c ∷ s) =
    if c == b'-'
    then signed true (parse_nat s)
    else if c == b'+'
    then signed false (parse_nat s)
    else signed false (parse_nat (c ∷ s))
