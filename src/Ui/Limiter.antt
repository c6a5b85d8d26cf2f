-- ===== src/Ui/Limiter.antt =====
-- lytecache-cli/cmd/lytecache/ui/ratelimit.go: the limiter of failed logins. Each reading of the clock is
-- an argument; the map of attempts is a list. A duration is an int64 of nanoseconds.
use lytecache.Common.{
  ℕ, suc, ◌+◌, ◌-◌, ◌*◌, ◌%◌, ◌^◌, String, Bool, true, false, not, ◌&&◌, ◌||◌, Option, none, some,
  List, [], ◌∷◌, ltb, ◌==◌, if◌then◌else◌, str_eq,
}

pub record Attempts : Type 0 where
  pub count : ℕ
  pub lock_until : ℕ
  pub last_attempt : ℕ

abbrev pub failures_before_backoff : ℕ
failures_before_backoff = 5

abbrev pub second : ℕ
second = 1000000000

abbrev pub max_backoff : ℕ
max_backoff = 30 * second

abbrev pub stale_attempt_ttl : ℕ
stale_attempt_ttl = 3600 * second

unfoldable pub find_attempts : String → List (String × Attempts) → Option Attempts
find_attempts ip [] = none
find_attempts ip ((i, a) ∷ l) = if str_eq i ip then some a else find_attempts ip l

unfoldable pub put_attempts :
    String → Attempts → List (String × Attempts) → List (String × Attempts)
put_attempts ip b [] = (ip, b) ∷ []
put_attempts ip b ((i, a) ∷ l) =
    let rest = put_attempts ip b l in if str_eq i ip then (i, b) ∷ l else (i, a) ∷ rest

-- Whether a login may be tried now, and if not, in what time.
unfoldable pub allow : List (String × Attempts) → String → ℕ → Bool × ℕ
allow l ip now = elim (find_attempts ip l) [
  | none ↦ (true, 0)
  | some a ↦ if ltb now a.lock_until then (false, a.lock_until - now) else (true, 0)
]

unfoldable pub is_stale : ℕ → Attempts → Bool
is_stale now a = ltb (a.last_attempt + stale_attempt_ttl) now

unfoldable pub gc_locked : ℕ → List (String × Attempts) → List (String × Attempts)
gc_locked now [] = []
gc_locked now ((i, a) ∷ l) =
    let rest = gc_locked now l in if is_stale now a then rest else (i, a) ∷ rest

-- The bits of the int64 are those of a positive number.
unfoldable pub is_positive : ℕ → Bool
is_positive bits = not (bits == 0) && ltb bits (2 ^ 63)

unfoldable pub capped : ℕ → ℕ
unfolding is_positive
capped bits =
    if (is_positive bits && ltb max_backoff bits) || not (is_positive bits)
    then max_backoff
    else bits

-- time.Second << shift, on 64 bits
unfoldable pub backoff : ℕ → ℕ
unfolding capped
backoff shift = capped (second * 2 ^ shift % 2 ^ 64)

-- With the clock read for the last attempt and again for the lock.
unfoldable pub failed_again : Attempts → ℕ → ℕ → Attempts
failed_again a t u =
    let n = suc a.count in
    if ltb failures_before_backoff n
    then (record {
      count = n;
      lock_until = u + backoff (n - failures_before_backoff - 1);
      last_attempt = t;
    })
    else (record { count = n; lock_until = a.lock_until; last_attempt = t })

unfoldable pub or_new : Option Attempts → Attempts
or_new none = record { count = 0; lock_until = 0; last_attempt = 0 }
or_new (some a) = a

unfoldable pub record_failure :
    List (String × Attempts) → String → ℕ → ℕ → ℕ → List (String × Attempts)
record_failure l ip now t u =
    let kept = gc_locked now l in
    put_attempts ip (failed_again (or_new (find_attempts ip kept)) t u) kept

unfoldable pub record_success : List (String × Attempts) → String → List (String × Attempts)
record_success [] ip = []
record_success ((i, a) ∷ l) ip =
    let rest = record_success l ip in if str_eq i ip then rest else (i, a) ∷ rest
