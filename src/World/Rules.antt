-- ===== src/World/Rules.antt =====
-- What an action of a cache does to the state: it keeps the configuration, and moves the rows by
-- statements on its own namespace. One rule for each way to build an action.
use lytecache.Common.{
  ℕ, ℤ, suc, ◌+◌, arith, String, Bool, true, false, ◌≡◌, refl, ap, ◌∙◌, if◌then◌else◌, inl, inr,
  Bool-cases,
}
use lytecache.Errors.{Error, Result, ok, err}
use lytecache.Table.{Table}
use lytecache.Table.Trace.{Statement, Trace, done, step, Trace-trans}
use lytecache.World.{
  World, M, Cache, Config, Db, pure, raise, lift, attempt, get_cache, get_env, get_db, set_cache,
  ◌>>=◌, continue, when, now_millis, next_fault, next_die, call, read, write, query, exec, on_rows,
  finish, transaction, in_tx,
}

-- the readings of a clock after the first `shift` of them
pub record Later (before after : ℕ → ℤ) : Type 0 where
  pub shift : ℕ
  pub rest : (n : ℕ) → after n ≡ before (n + shift)

Later-refl : (f : ℕ → ℤ) → Later f f
Later-refl f = record { shift = 0; rest = λ n. ground arith }

sum_assoc : (a b c : ℕ) → a + b + c ≡ a + (b + c)
sum_assoc a b c = omega arith

Later-trans : {f g h : ℕ → ℤ} → Later f g → Later g h → Later f h
Later-trans {f = f} a b = record {
  shift = b.shift + a.shift;
  rest = λ n. b.rest n ∙ a.rest (n + b.shift) ∙ ap f (sum_assoc n b.shift a.shift);
}

Later-suc : (f : ℕ → ℤ) → Later f (λ n. f (suc n))
Later-suc f = record { shift = 1; rest = λ n. ground arith }

pub record Moved (fading : Bool) (ns : String) (w w' : World) : Type 0 where
  pub config : w'.cache.config ≡ w.cache.config
  pub codec : w'.env.codec ≡ w.env.codec
  pub clock : Later w.env.clock w'.env.clock
  pub rows : Trace fading ns w.db.rows w'.db.rows

pub Moved-refl : {fading : Bool} (ns : String) (w : World) → Moved fading ns w w
Moved-refl ns w = record {
  config = refl;
  codec = refl;
  clock = Later-refl w.env.clock;
  rows = done;
}

pub Moved-trans :
    {fading : Bool} {ns : String} {u v w : World}
    → Moved fading ns u v
    → Moved fading ns v w
    → Moved fading ns u w
Moved-trans a b = record {
  config = b.config ∙ a.config;
  codec = b.codec ∙ a.codec;
  clock = Later-trans a.clock b.clock;
  rows = Trace-trans a.rows b.rows;
}

-- The action `m` of a cache of namespace `ns`, whether it returns or fails.
pub record Runs (fading : Bool) (ns : String) {A : Type 0} (m : M A) : Type 0 where
  pub at : (w : World) → w.cache.namespace ≡ ns → Moved fading ns w (m w).1

pub namespace-Moved :
    {fading : Bool} {ns : String} {w w' : World}
    → Moved fading ns w w'
    → w.cache.namespace ≡ ns
    → w'.cache.namespace ≡ ns
namespace-Moved h e = ap (λ (c : Config). c.namespace) h.config ∙ e

module _ {fading : Bool} {ns : String} where
  pub Runs-pure : {A : Type 0} (a : A) → Runs fading ns (pure a)
  unfolding pure
  Runs-pure a = record { at = λ w e. Moved-refl ns w }

  pub Runs-raise : {A : Type 0} (x : Error) → Runs fading ns (raise {A = A} x)
  unfolding raise
  Runs-raise x = record { at = λ w e. Moved-refl ns w }

  pub Runs-lift : {A : Type 0} (r : Result A) → Runs fading ns (lift r)
  unfolding lift
  Runs-lift r = record { at = λ w e. Moved-refl ns w }

  pub Runs-attempt : {A : Type 0} (m : M A) → Runs fading ns m → Runs fading ns (attempt m)
  unfolding attempt
  Runs-attempt m k = record { at = λ w e. k.at w e }

  pub Runs-get_env : Runs fading ns get_env
  unfolding get_env
  Runs-get_env = record { at = λ w e. Moved-refl ns w }

  pub Runs-get_db : Runs fading ns get_db
  unfolding get_db
  Runs-get_db = record { at = λ w e. Moved-refl ns w }

  pub Runs-get_cache : Runs fading ns get_cache
  unfolding get_cache
  Runs-get_cache = record { at = λ w e. Moved-refl ns w }

  pub Runs-set_cache :
      (f : Cache → Cache) → ((c : Cache) → (f c).config ≡ c.config) → Runs fading ns (set_cache f)
  unfolding set_cache
  Runs-set_cache f k = record {
    at = λ w e. record {
      config = k w.cache;
      codec = refl;
      clock = Later-refl w.env.clock;
      rows = done;
    };
  }

  pub Runs-now_millis : Runs fading ns now_millis
  unfolding now_millis
  Runs-now_millis = record {
    at = λ w e. record { config = refl; codec = refl; clock = Later-suc w.env.clock; rows = done };
  }

  pub Runs-next_die : Runs fading ns next_die
  unfolding next_die
  Runs-next_die = record {
    at = λ w e. record { config = refl; codec = refl; clock = Later-refl w.env.clock; rows = done };
  }

  Runs-continue :
      {A B : Type 0} (r : Result A) (f : A → M B)
      → ((a : A) → Runs fading ns (f a))
      → Runs fading ns (continue r f)
  unfolding continue
  Runs-continue (ok a) f k = record { at = λ w e. (k a).at w e }
  Runs-continue (err x) f k = record { at = λ w e. Moved-refl ns w }

  pub Runs-bind :
      {A B : Type 0} (m : M A) (f : A → M B)
      → Runs fading ns m
      → ((a : A) → Runs fading ns (f a))
      → Runs fading ns (m >>= f)
  unfolding ◌>>=◌
  Runs-bind m f k l = record {
    at = λ w e.
        let h = k.at w e in
        Moved-trans h ((Runs-continue (m w).0 f l).at (m w).1 (namespace-Moved h e));
  }

  -- the rest of the block may use that the cache is one of the namespace
  pub Runs-with_cache :
      {B : Type 0} (f : Cache → M B)
      → ((c : Cache) → c.namespace ≡ ns → Runs fading ns (f c))
      → Runs fading ns (get_cache >>= f)
  unfolding ◌>>=◌
  Runs-with_cache f k = record { at = λ w e. (k w.cache e).at w e }

  pub Runs-if :
      {A : Type 0} (b : Bool) (m n : M A)
      → Runs fading ns m
      → Runs fading ns n
      → Runs fading ns (if b then m else n)
  Runs-if true m n k l = k
  Runs-if false m n k l = l

  pub Runs-when : (b : Bool) (m : M (Unit {0})) → Runs fading ns m → Runs fading ns (when b m)
  unfolding when
  Runs-when true m k = k
  Runs-when false m k = Runs-pure tt

  Runs-call : {A : Type 0} (m : M A) → Runs fading ns m → Runs fading ns (call m)
  unfolding call
  Runs-call m k = record {
    at = λ w e. elim (Bool-cases (w.env.faults 0)) [
      | inl x ↦
          rw x (record { config = refl; codec = refl; clock = Later-refl w.env.clock; rows = done })
      | inr x ↦ rw x (record {
        config = (k.at (next_fault w).1 e).config;
        codec = (k.at (next_fault w).1 e).codec;
        clock = (k.at (next_fault w).1 e).clock;
        rows = (k.at (next_fault w).1 e).rows;
      })
    ];
  }

  pub Runs-query : {A : Type 0} (f : Db → A) → Runs fading ns (query f)
  unfolding query
  Runs-query f = Runs-call (read f) (record { at = λ w e. Moved-refl ns w })

  pub Runs-exec_rows :
      (f : Table → Table × ℕ)
      → ((t : Table) → Statement fading ns t (f t).0)
      → Runs fading ns (exec (on_rows f))
  unfolding exec
  Runs-exec_rows f k = Runs-call (write (on_rows f)) (record {
    at = λ w e. record {
      config = refl;
      codec = refl;
      clock = Later-refl w.env.clock;
      rows = step done (k w.db.rows);
    };
  })

  -- a statement on the other tables
  pub Runs-exec_other :
      (f : Db → Db × ℕ) → ((d : Db) → (f d).0.rows ≡ d.rows) → Runs fading ns (exec f)
  unfolding exec
  Runs-exec_other f k = Runs-call (write f) (record {
    at = λ w e. record {
      config = refl;
      codec = refl;
      clock = Later-refl w.env.clock;
      rows = rw (k w.db) done;
    };
  })

  finish-Moved :
      {A : Type 0} (before w : World) (r : Result A)
      → Moved fading ns before w
      → Moved fading ns before (finish before.db r w).1
  unfolding finish
  finish-Moved before w (err x) h = record {
    config = h.config;
    codec = h.codec;
    clock = h.clock;
    rows = done;
  }
  finish-Moved before w (ok a) h = elim (Bool-cases (w.env.faults 0)) [
    | inl x ↦ rw x (record { config = h.config; codec = h.codec; clock = h.clock; rows = done })
    | inr x ↦ rw x (record { config = h.config; codec = h.codec; clock = h.clock; rows = h.rows })
  ]

  pub Runs-in_tx : {A : Type 0} (m : M A) → Runs fading ns m → Runs fading ns (in_tx m)
  unfolding in_tx
  Runs-in_tx m k =
      Runs-call (transaction m) (record { at = λ w e. finish-Moved w (m w).1 (m w).0 (k.at w e) })

pub ruleset runs = (
  Runs-pure, Runs-raise, Runs-lift, Runs-attempt, Runs-get_env, Runs-get_db, Runs-with_cache,
  Runs-now_millis, Runs-next_die, Runs-bind, Runs-if, Runs-when, Runs-query, Runs-in_tx,
  Runs-set_cache,
)
