-- ===== src/Strconv/RoundTrip.antt =====
-- What FormatInt writes, ParseInt reads back.
use lytecache.Common.{
  ℕ, zero, suc, ◌+◌, ◌/◌, ◌%◌, ◌≤◌, ◌≡◌, refl, Bool, true, false, Option, none, some, ◌∷◌, [], inl,
  inr, Bool-cases, arith, ◌==◌, ℤ, pos, negsuc, IsInt64,
}
use lytecache.Strconv.{Bytes, emit, format_nat, format_int, scan, parse_nat, signed, parse_int}

suc-==-zero : (n : ℕ) → (suc n == 0) ≡ false
suc-==-zero n = ground arith

scan-emit : (f n : ℕ) (out : Bytes) → n ≤ f → scan (emit f n out) 0 ≡ scan out n
unfolding emit scan
scan-emit zero n out h = ground arith
scan-emit (suc f) n out h = ground (arith, scan-emit f (n / 10) ((b'0' + n % 10) ∷ out))

-- a text that starts with a digit
abbrev HasDigit : Bytes → Type 0
HasDigit s = (c : ℕ) × (r : Bytes) × (s ≡ c ∷ r) × (b'0' ≤ c)

emit-HasDigit : (f n : ℕ) (c : ℕ) (out : Bytes) → b'0' ≤ c → HasDigit (emit f n (c ∷ out))
unfolding emit
emit-HasDigit zero n c out h = (c, out, refl, h)
emit-HasDigit (suc f) n c out h = elim (Bool-cases (n == 0)) [
  | inl e ↦ rw e (c, out, refl, h)
  | inr e ↦ rw e (emit-HasDigit f (n / 10) (b'0' + n % 10) (c ∷ out) (omega arith))
]

format_nat-HasDigit : (n : ℕ) → HasDigit (format_nat n)
unfolding format_nat emit
format_nat-HasDigit zero = (b'0', [], refl, omega arith)
format_nat-HasDigit (suc n) =
    rw suc-==-zero (emit-HasDigit n (suc n / 10) (b'0' + suc n % 10) [] (omega arith))

scan-format_nat : (n : ℕ) → scan (format_nat n) 0 ≡ some n
unfolding format_nat scan
scan-format_nat zero = refl
scan-format_nat (suc n) = rw suc-==-zero (scan-emit (suc n) (suc n) [] (omega arith))

parse_nat-format_nat : (n : ℕ) → parse_nat (format_nat n) ≡ some n
unfolding parse_nat
parse_nat-format_nat n =
    let (c, r, e, h) = format_nat-HasDigit n in
    let p : scan (c ∷ r) 0 ≡ some n = rw e at (scan-format_nat n) in rw e p

pub parse_int-format_int : (a : ℤ) → IsInt64 a → parse_int (format_int a) ≡ some a
unfolding parse_int format_int signed
parse_int-format_int (pos n) h =
    let (c, r, e, d) = format_nat-HasDigit n in
    let p : parse_nat (c ∷ r) ≡ some n = rw e at (parse_nat-format_nat n) in rw e (ground arith)
parse_int-format_int (negsuc n) h = rw (parse_nat-format_nat (suc n)) (ground arith)

pub format_int_zero : format_int (pos 0) ≡ b'0' ∷ []
unfolding format_int format_nat emit
format_int_zero = refl

abbrev Fitting : Option ℤ → Type 0
Fitting none = Unit {0}
Fitting (some n) = IsInt64 n

signed-Fitting : (b : Bool) (o : Option ℕ) → Fitting (signed b o)
unfolding signed
signed-Fitting b none = tt
signed-Fitting false (some m) = ground arith
signed-Fitting true (some zero) = ground arith
signed-Fitting true (some (suc m)) = ground arith

parse_int-Fitting : (s : Bytes) → Fitting (parse_int s)
unfolding parse_int
parse_int-Fitting [] = tt
parse_int-Fitting (c ∷ s) = elim (Bool-cases (c == b'-')) [
  | inl x ↦ rw x (signed-Fitting true (parse_nat s))
  | inr x ↦ elim (Bool-cases (c == b'+')) [
    | inl y ↦ rw (x, y) (signed-Fitting false (parse_nat s))
    | inr y ↦ rw (x, y) (signed-Fitting false (parse_nat (c ∷ s)))
  ]
]

-- What ParseInt returns is an int64.
pub parse_int-IsInt64 : (s : Bytes) (n : ℤ) → parse_int s ≡ some n → IsInt64 n
parse_int-IsInt64 s n h = rw h at (parse_int-Fitting s)
