-- ===== src/Ui/Backoff.antt =====
-- The waiting time after failed logins: lytecache-cli/cmd/lytecache/ui/ratelimit.go.
use native.Mathlib.Nat.{pow-suc, mul-mod_left}
use lytecache.Common.{
  ℕ, zero, suc, ◌+◌, ◌-◌, ◌*◌, ◌^◌, ◌<◌, String, Bool, true, false, ◌&&◌, some, List, [], ◌∷◌, ◌≡◌,
  refl, ap, ◌∙◌, inl, inr, ltb, ◌==◌, if◌then◌else◌, str_eq, eq_iff, Bool-cases, arith, ==_iff, All,
}
use lytecache.Ui.Limiter.{
  Attempts, second, max_backoff, backoff, capped, failures_before_backoff, find_attempts,
  put_attempts, allow, is_stale, gc_locked, failed_again, or_new, record_failure, record_success,
  stale_attempt_ttl,
}

-- The duration before the backoff is capped, with no bound on its bits.
abbrev pub wait : ℕ → ℕ
wait shift = if ltb shift 5 then second * 2 ^ shift else max_backoff

abbrev all_agree : ℕ → Bool
all_agree zero = true
all_agree (suc n) = (backoff n == wait n) && all_agree n

agree_below_55 : all_agree 55 ≡ true
unfolding backoff capped lytecache.Ui.Limiter.is_positive
agree_below_55 = refl

all_agree-at : (n s : ℕ) → all_agree n ≡ true → s < n → backoff s ≡ wait s
all_agree-at zero s h k = ground arith
all_agree-at (suc n) s h k = elim (Bool-cases (s == n)) [
  | inl e ↦ rw ((==_iff s n).0 e) ((==_iff (backoff n) (wait n)).0 (ground arith))
  | inr e ↦ all_agree-at n s (ground arith) (ground arith)
]

shifted_out : (k : ℕ) → second * 2 ^ (k + 55) ≡ 1953125 * 2 ^ k * 2 ^ 64
shifted_out zero = refl
shifted_out (suc k) =
    let e : suc k + 55 ≡ suc (k + 55) = omega arith in
    omega (arith, shifted_out k, ap (λ n. 2 ^ n) e, pow-suc 2 (k + 55), pow-suc 2 k)

backoff_long : (k : ℕ) → backoff (k + 55) ≡ max_backoff
unfolding backoff capped lytecache.Ui.Limiter.is_positive
backoff_long k = rw (shifted_out k, mul-mod_left (1953125 * 2 ^ k) (2 ^ 64)) refl

pub backoff-wait : (s : ℕ) → backoff s ≡ wait s
backoff-wait s = elim (Bool-cases (ltb s 55)) [
  | inl h ↦ all_agree-at 55 s agree_below_55 (ground arith)
  | inr h ↦
      let e : s ≡ s - 55 + 55 = ground arith in ap backoff e ∙ backoff_long (s - 55) ∙ ground arith
]

module _ (ip : String) where
  find_attempts-put_attempts :
      (b : Attempts) (l : List (String × Attempts))
      → find_attempts ip (put_attempts ip b l) ≡ some b
  unfolding find_attempts put_attempts
  find_attempts-put_attempts b [] = rw ((eq_iff ip ip).1 refl) refl
  find_attempts-put_attempts b ((i, a) ∷ l) = elim (Bool-cases (str_eq i ip)) [
    | inl h ↦ rw (h, h) refl
    | inr h ↦ rw (h, h) (find_attempts-put_attempts b l)
  ]

allow-found :
    (ip : String) (now : ℕ) (a : Attempts) (l : List (String × Attempts))
    → find_attempts ip l ≡ some a
    → allow l ip now ≡ (if ltb now a.lock_until then (false, a.lock_until - now) else (true, 0))
unfolding allow
allow-found ip now a l h = rw (h, allow) refl

-- The address has been locked only after more than five failures.
abbrev pub LocksLate : Attempts → Type 0
LocksLate a = ltb failures_before_backoff a.count ≡ false → a.lock_until ≡ 0

-- The failures of an address that are remembered at this time.
abbrev pub remembered : List (String × Attempts) → String → ℕ → ℕ
remembered l ip now = (or_new (find_attempts ip (gc_locked now l))).count

-- What is answered at a time after that many failures, the last of them at time u.
abbrev pub answer : ℕ → ℕ → ℕ → Bool × ℕ
answer n u now =
    if ltb 5 n
    then (if ltb now (u + wait (n - 5 - 1)) then (false, u + wait (n - 5 - 1) - now) else (true, 0))
    else (true, 0)

gc_locked-LocksLate :
    (t : ℕ) (l : List (String × Attempts))
    → All (λ p. LocksLate p.1) l
    → All (λ p. LocksLate p.1) (gc_locked t l)
unfolding gc_locked
gc_locked-LocksLate t [] h = h
gc_locked-LocksLate t ((i, a) ∷ l) h = elim (Bool-cases (is_stale t a)) [
  | inl x ↦ rw x (gc_locked-LocksLate t l h.1)
  | inr x ↦ rw x (h.0, gc_locked-LocksLate t l h.1)
]

find_attempts-LocksLate :
    (ip : String) (l : List (String × Attempts))
    → All (λ p. LocksLate p.1) l
    → LocksLate (or_new (find_attempts ip l))
unfolding find_attempts or_new
find_attempts-LocksLate ip [] h = λ x. refl
find_attempts-LocksLate ip ((i, a) ∷ l) h = elim (Bool-cases (str_eq i ip)) [
  | inl x ↦ rw x h.0
  | inr x ↦ rw x (find_attempts-LocksLate ip l h.1)
]

put_attempts-LocksLate :
    (ip : String) (b : Attempts) (l : List (String × Attempts))
    → LocksLate b
    → All (λ p. LocksLate p.1) l
    → All (λ p. LocksLate p.1) (put_attempts ip b l)
unfolding put_attempts
put_attempts-LocksLate ip b [] k h = (k, tt)
put_attempts-LocksLate ip b ((i, a) ∷ l) k h = elim (Bool-cases (str_eq i ip)) [
  | inl x ↦ rw x (k, h.1)
  | inr x ↦ rw x (h.0, put_attempts-LocksLate ip b l k h.1)
]

module _ (a : Attempts) (t u : ℕ) (h : LocksLate a) where
  failed_again-LocksLate : LocksLate (failed_again a t u)
  unfolding failed_again
  failed_again-LocksLate = elim (Bool-cases (ltb 5 (suc a.count))) [
    | inl x ↦ rw x (λ y. ground (arith, x, y))
    | inr x ↦ rw x (λ y. h (ground (arith, x)))
  ]

  -- the answer for a found entry
  failed_again-answer :
      (now : ℕ)
      → (if ltb now (failed_again a t u).lock_until
          then (false, (failed_again a t u).lock_until - now)
          else (true, 0))
        ≡ answer (suc a.count) u now
  unfolding failed_again
  failed_again-answer now = elim (Bool-cases (ltb 5 (suc a.count))) [
    | inl x ↦ rw (x, backoff-wait (suc a.count - 5 - 1)) refl
    | inr x ↦ let z : a.lock_until ≡ 0 = h (ground (arith, x)) in rw (x, z) (ground arith)
  ]

-- A failed login, given that every address in the table was locked only after more than five
-- failures: this stays so; and with the failures of the address that are remembered and this one,
-- up to five, the address may try again at once; with more it may not before 1, 2, 4, 8, 16 and then
-- always 30 seconds have passed since this failure, and it is told how long that is.
pub record_failure-answer :
    (l : List (String × Attempts)) (ip : String) (t s u now : ℕ)
    → All (λ p. LocksLate p.1) l
    → (allow (record_failure l ip t s u) ip now ≡ answer (suc (remembered l ip t)) u now)
      × All (λ p. LocksLate p.1) (record_failure l ip t s u)
unfolding record_failure
record_failure-answer l ip t s u now h =
    let kept = gc_locked t l in
    let old = or_new (find_attempts ip kept) in
    let g = find_attempts-LocksLate ip kept (gc_locked-LocksLate t l h) in
    (
      allow-found ip now (failed_again old s u) _
            (find_attempts-put_attempts ip (failed_again old s u) kept)
          ∙ failed_again-answer old s u g now,
      put_attempts-LocksLate ip (failed_again old s u) kept (failed_again-LocksLate old s u g)
          (gc_locked-LocksLate t l h),
    )
