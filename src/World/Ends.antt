-- ===== src/World/Ends.antt =====
-- How an action ends in one state: `Q` holds of what it returns and of the state then, or `E` of
-- the error. One rule for each way to build an action, with what the driver's fault says.
use lytecache.Common.{
  ℕ, suc, ℤ, String, Bool, true, false, ◌≡◌, refl, if◌then◌else◌, inl, inr, Bool-cases, arith,
}
use lytecache.Errors.{Error, Result, ok, err, database, is_ok}
use lytecache.World.{
  World, M, Cache, Db, Env, pure, raise, lift, attempt, get_cache, get_env, get_db, set_cache,
  ◌>>=◌, continue, when, now_millis, next_die, call, read, write, query, exec, finish, roll_back,
  transaction, in_tx,
}
use lytecache.World.Rules.{Moved, Runs}
use lytecache.World.Safe.{Safe}

abbrev pub Outcome :
    {A : Type 0} → (A → World → Type 0) → (Error → World → Type 0) → Result A × World → Type 0
Outcome Q E (ok a, v) = Q a v
Outcome Q E (err e, v) = E e v

-- Only readings of the database were taken.
pub record Same (w u : World) : Type 0 where
  pub db : u.db ≡ w.db
  pub cache : u.cache ≡ w.cache
  pub codec : u.env.codec ≡ w.env.codec
  pub clock : u.env.clock ≡ w.env.clock

pub record Ends {A : Type 0} (w : World) (m : M A) (Q : A → World → Type 0)
    (E : Error → World → Type 0) : Type 0 where
  pub at : Outcome Q E (m w)

-- the state after a call of the driver has asked for its fault
abbrev pub called : World → World
called w = record w { env = record w.env { faults = λ n. w.env.faults (suc n) } }

abbrev pub ticked : World → World
ticked w = record w { env = record w.env { clock = λ n. w.env.clock (suc n) } }

-- the state after a statement that writes
abbrev pub written : (Db → Db × ℕ) → World → World
written f w = record (called w) { db = (f w.db).0 }

outcome_ok :
    {A : Type 0} (Q : A → World → Type 0) (E : Error → World → Type 0) (x : Result A × World)
    (a : A) (v : World)
    → Outcome Q E x
    → x ≡ (ok a, v)
    → Q a v
outcome_ok Q E x a v h e = rw e at h

outcome_err :
    {A : Type 0} (Q : A → World → Type 0) (E : Error → World → Type 0) (x : Result A × World)
    (b : Error) (v : World)
    → Outcome Q E x
    → x ≡ (err b, v)
    → E b v
outcome_err Q E x b v h e = rw e at h

attempt_outcome :
    {A : Type 0} (Q : Result A → World → Type 0) (x : Result A × World)
    → Outcome (λ a v. Q (ok a) v) (λ b v. Q (err b) v) x
    → Q x.0 x.1
attempt_outcome Q (ok a, v) h = h
attempt_outcome Q (err b, v) h = h

continue-Outcome :
    {A B : Type 0} (Q : B → World → Type 0) (E : Error → World → Type 0) (f : A → M B)
    (x : Result A × World)
    → Outcome (λ a v. Ends v (f a) Q E) E x
    → Outcome Q E (continue x.0 f x.1)
unfolding continue
continue-Outcome Q E f (ok a, v) h = h.at
continue-Outcome Q E f (err b, v) h = h

finish-Outcome :
    {A : Type 0} (before : Db) (Q : A → World → Type 0) (E : Error → World → Type 0)
    (x : Result A × World)
    → Outcome
        (λ a v.
          (v.env.faults 0 ≡ false → Q a (called v))
          × (v.env.faults 0 ≡ true → E database (record (called v) { db = before })))
        (λ b v. E b (record v { db = before }))
        x
    → Outcome Q E (finish before x.0 x.1)
unfolding finish roll_back
finish-Outcome before Q E (ok a, v) h = elim (Bool-cases (v.env.faults 0)) [
  | inl e ↦ rw e (h.1 e)
  | inr e ↦ rw e (h.0 e)
]
finish-Outcome before Q E (err b, v) h = h

weaker :
    {A : Type 0} (Q' Q : A → World → Type 0) (E' E : Error → World → Type 0) (x : Result A × World)
    → Outcome Q' E' x
    → ((a : A) (v : World) → Q' a v → Q a v)
    → ((b : Error) (v : World) → E' b v → E b v)
    → Outcome Q E x
weaker Q' Q E' E (ok a, v) r h k = h a v r
weaker Q' Q E' E (err b, v) r h k = k b v r

safe-Outcome :
    {A : Type 0} (fading : Bool) (ns : String) (w : World) (Q : A → World → Type 0)
    (E : Error → World → Type 0) (x : Result A × World)
    → Moved fading ns w x.1
    → is_ok x.0 ≡ true
    → ((a : A) (v : World) → Moved fading ns w v → Q a v)
    → Outcome Q E x
safe-Outcome fading ns w Q E (ok a, v) s i h = h a v s
safe-Outcome fading ns w Q E (err b, v) s i h = ground (arith, i)

module _ {A : Type 0} {w : World} {Q : A → World → Type 0} {E : Error → World → Type 0} where
  pub Ends-ok : {m : M A} {a : A} {v : World} → Ends w m Q E → m w ≡ (ok a, v) → Q a v
  Ends-ok {m = m} {a = a} {v = v} h e = outcome_ok Q E (m w) a v h.at e

  pub Ends-err : {m : M A} {b : Error} {v : World} → Ends w m Q E → m w ≡ (err b, v) → E b v
  Ends-err {m = m} {b = b} {v = v} h e = outcome_err Q E (m w) b v h.at e

  pub Ends-weaken :
      {Q' : A → World → Type 0} {E' : Error → World → Type 0} {m : M A}
      → Ends w m Q' E'
      → ((a : A) (v : World) → Q' a v → Q a v)
      → ((b : Error) (v : World) → E' b v → E b v)
      → Ends w m Q E
  Ends-weaken {Q' = Q'} {E' = E'} {m = m} r h k = record { at = weaker Q' Q E' E (m w) r.at h k }

  pub Ends-pure : (a : A) → Q a w → Ends w (pure a) Q E
  unfolding pure
  Ends-pure a h = record { at = h }

  pub Ends-raise : (b : Error) → E b w → Ends w (raise b) Q E
  unfolding raise
  Ends-raise b h = record { at = h }

  pub Ends-lift :
      (r : Result A)
      → ((a : A) → r ≡ ok a → Q a w)
      → ((b : Error) → r ≡ err b → E b w)
      → Ends w (lift r) Q E
  unfolding lift
  Ends-lift (ok a) h k = record { at = h a refl }
  Ends-lift (err b) h k = record { at = k b refl }

  pub Ends-if :
      (b : Bool) (m n : M A)
      → (b ≡ true → Ends w m Q E)
      → (b ≡ false → Ends w n Q E)
      → Ends w (if b then m else n) Q E
  Ends-if true m n h k = h refl
  Ends-if false m n h k = k refl

  pub Ends-query :
      (f : Db → A)
      → (w.env.faults 0 ≡ false → Q (f w.db) (called w))
      → (w.env.faults 0 ≡ true → E database (called w))
      → Ends w (query f) Q E
  unfolding query read call
  Ends-query f h k = record {
    at = elim (Bool-cases (w.env.faults 0)) [ inl x ↦ rw x (k x) | inr x ↦ rw x (h x) ];
  }

  -- what is known of the state after an action of which only its statements are known
  pub Ends-Runs :
      {fading : Bool} {ns : String} {m : M A}
      → Runs fading ns m
      → w.cache.namespace ≡ ns
      → ((a : A) (v : World) → Moved fading ns w v → Q a v)
      → ((b : Error) (v : World) → Moved fading ns w v → E b v)
      → Ends w m Q E
  Ends-Runs {m = m} r e h k = record { at = go (m w) (r.at w e) h k }
    where
      go :
          {fading : Bool} {ns : String} (x : Result A × World)
          → Moved fading ns w x.1
          → ((a : A) (v : World) → Moved fading ns w v → Q a v)
          → ((b : Error) (v : World) → Moved fading ns w v → E b v)
          → Outcome Q E x
      go (ok a, v) s h k = h a v s
      go (err b, v) s h k = k b v s

module _ {w : World} {E : Error → World → Type 0} where
  pub Ends-get_cache : {Q : Cache → World → Type 0} → Q w.cache w → Ends w get_cache Q E
  unfolding get_cache
  Ends-get_cache h = record { at = h }

  pub Ends-get_db : {Q : Db → World → Type 0} → Q w.db w → Ends w get_db Q E
  unfolding get_db
  Ends-get_db h = record { at = h }

  pub Ends-next_die :
      {Q : ℕ → World → Type 0}
      → Q (w.env.dice 0) (record w { env = record w.env { dice = λ n. w.env.dice (suc n) } })
      → Ends w next_die Q E
  unfolding next_die
  Ends-next_die h = record { at = h }

  pub Ends-get_env : {Q : Env → World → Type 0} → Q w.env w → Ends w get_env Q E
  unfolding get_env
  Ends-get_env h = record { at = h }

  pub Ends-now_millis :
      {Q : ℤ → World → Type 0} → Q (w.env.clock 0) (ticked w) → Ends w now_millis Q E
  unfolding now_millis
  Ends-now_millis h = record { at = h }

  pub Ends-set_cache :
      {Q : Unit {0} → World → Type 0} (f : Cache → Cache)
      → Q tt (record w { cache = f w.cache })
      → Ends w (set_cache f) Q E
  unfolding set_cache
  Ends-set_cache f h = record { at = h }

  pub Ends-exec :
      {Q : ℕ → World → Type 0} (f : Db → Db × ℕ)
      → (w.env.faults 0 ≡ false → Q (f w.db).1 (written f w))
      → (w.env.faults 0 ≡ true → E database (called w))
      → Ends w (exec f) Q E
  unfolding exec write call
  Ends-exec f h k = record {
    at = elim (Bool-cases (w.env.faults 0)) [ inl x ↦ rw x (k x) | inr x ↦ rw x (h x) ];
  }

  pub Ends-when :
      {Q : Unit {0} → World → Type 0} (b : Bool) (m : M (Unit {0}))
      → (b ≡ true → Ends w m Q E)
      → (b ≡ false → Q tt w)
      → Ends w (when b m) Q E
  unfolding when
  Ends-when true m h k = h refl
  Ends-when false m h k = record { at = k refl }

  pub Ends-attempt :
      {A : Type 0} {Q : Result A → World → Type 0} {m : M A}
      → Ends w m (λ a v. Q (ok a) v) (λ b v. Q (err b) v)
      → Ends w (attempt m) Q E
  unfolding attempt
  Ends-attempt {Q = Q} {m = m} h = record { at = attempt_outcome Q (m w) h.at }

  pub Ends-bind :
      {A B : Type 0} {Q : B → World → Type 0} {m : M A} {f : A → M B}
      → Ends w m (λ a v. Ends v (f a) Q E) E
      → Ends w (m >>= f) Q E
  unfolding ◌>>=◌
  Ends-bind {Q = Q} {m = m} {f = f} h = record { at = continue-Outcome Q E f (m w) h.at }

-- A transaction commits what its body did, or leaves the database as it was.
pub Ends-in_tx :
    {A : Type 0} {w : World} {Q : A → World → Type 0} {E : Error → World → Type 0} {m : M A}
    → (w.env.faults 0 ≡ true → E database (called w))
    → (w.env.faults 0 ≡ false
        → Ends
            (called w)
            m
            (λ a v.
              (v.env.faults 0 ≡ false → Q a (called v))
              × (v.env.faults 0 ≡ true → E database (record (called v) { db = w.db })))
            (λ b v. E b (record v { db = w.db })))
    → Ends w (in_tx m) Q E
unfolding in_tx transaction call
Ends-in_tx {w = w} {Q = Q} {E = E} {m = m} k h = record {
  at = elim (Bool-cases (w.env.faults 0)) [
    | inl x ↦ rw x (k x)
    | inr x ↦ rw x (finish-Outcome w.db Q E (m (called w)) (h x).at)
  ];
}

-- An action that cannot fail, of which only its statements are known.
pub Ends-Safe :
    {A : Type 0} {fading : Bool} {ns : String} {w : World} {Q : A → World → Type 0}
    {E : Error → World → Type 0} {m : M A}
    → Runs fading ns m
    → Safe m
    → w.cache.namespace ≡ ns
    → ((a : A) (v : World) → Moved fading ns w v → Q a v)
    → Ends w m Q E
Ends-Safe {fading = fading} {ns = ns} {w = w} {Q = Q} {E = E} {m = m} r s e h = record {
  at = safe-Outcome fading ns w Q E (m w) (r.at w e) (s.at w) h;
}

with-Outcome :
    {A : Type 0} (fading : Bool) (ns : String) (w : World) (Q' Q : A → World → Type 0)
    (E' E : Error → World → Type 0) (x : Result A × World)
    → Moved fading ns w x.1
    → Outcome Q' E' x
    → ((a : A) (v : World) → Q' a v → Moved fading ns w v → Q a v)
    → ((b : Error) (v : World) → E' b v → Moved fading ns w v → E b v)
    → Outcome Q E x
with-Outcome fading ns w Q' Q E' E (ok a, v) s r h k = h a v r s
with-Outcome fading ns w Q' Q E' E (err b, v) s r h k = k b v r s

-- What is known of an action, and what its statements are.
pub Ends-with-Runs :
    {A : Type 0} {fading : Bool} {ns : String} {w : World} {Q' Q : A → World → Type 0}
    {E' E : Error → World → Type 0} {m : M A}
    → Runs fading ns m
    → w.cache.namespace ≡ ns
    → Ends w m Q' E'
    → ((a : A) (v : World) → Q' a v → Moved fading ns w v → Q a v)
    → ((b : Error) (v : World) → E' b v → Moved fading ns w v → E b v)
    → Ends w m Q E
Ends-with-Runs {fading = fading} {ns = ns} {w = w} {Q' = Q'} {Q = Q} {E' = E'} {E = E} {m = m} s e r
      h k =
    record { at = with-Outcome fading ns w Q' Q E' E (m w) (s.at w e) r.at h k }

state_outcome :
    {A : Type 0} (P : World → Type 0) (x : Result A × World)
    → Outcome (λ _ v. P v) (λ _ v. P v) x
    → P x.1
state_outcome P (ok a, v) h = h
state_outcome P (err b, v) h = h

-- What holds of the state whatever is returned.
pub Ends-state :
    {A : Type 0} {w : World} {P : World → Type 0} {m : M A}
    → Ends w m (λ _ v. P v) (λ _ v. P v)
    → P (m w).1
Ends-state {w = w} {P = P} {m = m} h = state_outcome P (m w) h.at
