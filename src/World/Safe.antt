-- ===== src/World/Safe.antt =====
-- Actions that never return an error, whatever the driver does.
use lytecache.Common.{Bool, true, false, ◌≡◌, refl, if◌then◌else◌}
use lytecache.Errors.{Result, ok, err, is_ok}
use lytecache.World.{
  World, M, Cache, pure, attempt, get_cache, get_env, get_db, set_cache, ◌>>=◌, continue, when,
  now_millis, next_die,
}

pub record Safe {A : Type 0} (m : M A) : Type 0 where
  pub at : (w : World) → is_ok (m w).0 ≡ true

pub Safe-pure : {A : Type 0} (a : A) → Safe (pure a)
unfolding pure
Safe-pure a = record { at = λ w. refl }

pub Safe-attempt : {A : Type 0} (m : M A) → Safe (attempt m)
unfolding attempt
Safe-attempt m = record { at = λ w. refl }

pub Safe-get_cache : Safe get_cache
unfolding get_cache
Safe-get_cache = record { at = λ w. refl }

pub Safe-get_env : Safe get_env
unfolding get_env
Safe-get_env = record { at = λ w. refl }

pub Safe-get_db : Safe get_db
unfolding get_db
Safe-get_db = record { at = λ w. refl }

pub Safe-set_cache : (f : Cache → Cache) → Safe (set_cache f)
unfolding set_cache
Safe-set_cache f = record { at = λ w. refl }

pub Safe-now_millis : Safe now_millis
unfolding now_millis
Safe-now_millis = record { at = λ w. refl }

pub Safe-next_die : Safe next_die
unfolding next_die
Safe-next_die = record { at = λ w. refl }

Safe-continue :
    {A B : Type 0} (x : Result A × World) (f : A → M B)
    → is_ok x.0 ≡ true
    → ((a : A) → Safe (f a))
    → is_ok (continue x.0 f x.1).0 ≡ true
unfolding continue
Safe-continue (ok a, v) f h k = (k a).at v
Safe-continue (err e, v) f h k = h

pub Safe-bind :
    {A B : Type 0} (m : M A) (f : A → M B) → Safe m → ((a : A) → Safe (f a)) → Safe (m >>= f)
unfolding ◌>>=◌
Safe-bind m f h k = record { at = λ w. Safe-continue (m w) f (h.at w) k }

pub Safe-if : {A : Type 0} (b : Bool) (m n : M A) → Safe m → Safe n → Safe (if b then m else n)
Safe-if true m n h k = h
Safe-if false m n h k = k

pub Safe-when : (b : Bool) (m : M (Unit {0})) → Safe m → Safe (when b m)
unfolding when
Safe-when true m h = h
Safe-when false m h = Safe-pure tt

pub ruleset safe = (
  Safe-pure, Safe-attempt, Safe-get_cache, Safe-get_env, Safe-get_db, Safe-set_cache,
  Safe-now_millis, Safe-next_die, Safe-bind, Safe-if, Safe-when,
)
