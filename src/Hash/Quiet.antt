-- ===== src/Hash/Quiet.antt =====
-- What follows the write of a hash where nothing is evicted and nothing published.
use lytecache.Common.{
  arith, ◌||◌, String, Bool, true, false, not, ◌&&◌, ◌≡◌, refl, some, [], ◌∷◌, if◌then◌else◌,
}
use lytecache.Errors.{Error}
use lytecache.Table.{Table}
use lytecache.Table.Fading.{Fades}
use lytecache.World.{World, M, op_set, ◌>>◌, when}
use lytecache.World.Ends.{
  Ends, Ends-pure, Ends-if, Ends-bind, Ends-get_cache, Ends-set_cache, Ends-get_env,
}
use lytecache.Changes.{changed}
use lytecache.Sweep.{maybe_evict, is_no_eviction, is_unlimited}

-- No limit and no published change: nothing runs on the rows after a write.
abbrev pub is_quiet : World → Bool
is_quiet w =
    not (w.cache.publish_ops op_set)
    && (is_no_eviction w.cache.eviction || is_unlimited w.cache.config)

-- What may follow the write of the table `m`: nothing in a quiet cache, else rows are taken away and
-- reads noted.
abbrev pub Settles : World → Table → Table → Type 0
Settles w m t = if is_quiet w then t ≡ m else Fades m t

pub Ends-when :
    {w : World} {Q : Unit {0} → World → Type 0} {E : Error → World → Type 0} (b : Bool)
    (m : M (Unit {0}))
    → (b ≡ true → Ends w m Q E)
    → (b ≡ false → Q tt w)
    → Ends w (when b m) Q E
unfolding when
Ends-when true m f g = f refl
Ends-when false m f g = Ends-pure _ (g refl)

quiet_evict :
    (v u : World) {E : Error → World → Type 0}
    → is_quiet v ≡ true
    → u.cache.config ≡ v.cache.config
    → u.db.rows ≡ v.db.rows
    → Ends u maybe_evict (λ _ x. x.db.rows ≡ v.db.rows) E
unfolding maybe_evict
quiet_evict v u h c r = Ends-bind (
    Ends-get_cache (
      Ends-if (is_no_eviction u.cache.eviction || is_unlimited u.cache.config) _ _
        (λ y. Ends-pure _ r) (λ y. ground (arith, rw c at y, h))))

-- what follows a write in a quiet cache
pub quiet-Ends :
    (v : World) (key : String) {E : Error → World → Type 0}
    → is_quiet v ≡ true
    → Ends v (do changed op_set (some (key ∷ [])) 1; maybe_evict) (λ _ u. u.db.rows ≡ v.db.rows) E
unfolding changed maybe_evict
quiet-Ends v key h = Ends-bind (
    Ends-bind (
      Ends-get_cache (
        Ends-bind (
          Ends-get_env (
            Ends-bind (
              Ends-when _ _
                (λ x.
                  Ends-set_cache _
                    (Ends-when _ _ (λ y. ground (arith, y, h)) (λ y. quiet_evict v _ h refl refl)))
                (λ x.
                  Ends-when _ _ (λ y. ground (arith, y, h))
                    (λ y. quiet_evict v v h refl refl))))))))
