-- ===== src/Kv/Serves.antt =====
-- What reading a key returns: a row of the table that has not expired, and no error unless the
-- cache is strict.
use lytecache.Common.{ℕ, ◌+◌, String, true, false, Option, none, some, ◌≡◌, refl, sym, ap, ◌∙◌}
use lytecache.Errors.{Error, Result, ok, err}
use lytecache.Strconv.{Bytes}
use lytecache.Value.{Dest, Decoded, decode_into}
use lytecache.Table.{Row, is_expired, select_key}
use lytecache.World.{World, Config}
use lytecache.World.Rules.{Later}
use lytecache.World.Safe.{Safe, safe}
use lytecache.World.Ends.{
  Ends, Ends-ok, Ends-err, Ends-pure, Ends-raise, Ends-if, Ends-bind, Ends-query, Ends-attempt,
  Ends-get_cache, Ends-get_env, Ends-now_millis, Ends-set_cache, Ends-Safe, Ends-with-Runs,
}
use lytecache.Sweep.Rows.{Runs-buffer_lru, Runs-maybe_opportunistic_sweep}
use lytecache.Sweep.Safe.{Safe-buffer_lru, Safe-maybe_opportunistic_sweep}
use lytecache.Kv.{
  miss, hit, delete_raw, degrade_read_error, serve_row, serve_found, get_raw, settle, decode_found,
  get,
}
use lytecache.Kv.Rows.{Runs-delete_raw, Runs-get_raw}

-- The row of the key in the table, not expired at a reading of the clock that the call took.
abbrev pub LiveRow : World → String → Bytes → ℕ → Type 0
LiveRow w key d code =
    (row : Row) × (select_key w.cache.namespace key w.db.rows ≡ some row)
    × (row.value ≡ d)
    × (row.value_type ≡ code)
    × ((n : ℕ) × (is_expired row.expires_at (w.env.clock n) ≡ false))

abbrev pub Served : World → String → Option (Bytes × ℕ) → Type 0
Served w key none = Unit {0}
Served w key (some (d, code)) = LiveRow w key d code

Safe-delete_raw : (key : String) → Safe (delete_raw key)
unfolding delete_raw
Safe-delete_raw key = search safe

strict_of : (w u : World) → u.cache.config ≡ w.cache.config → u.cache.strict ≡ w.cache.strict
strict_of w u e = ap (λ (c : Config). c.strict) e

namespace_of :
    (w u : World) → u.cache.config ≡ w.cache.config → u.cache.namespace ≡ w.cache.namespace
namespace_of w u e = ap (λ (c : Config). c.namespace) e

module _ (w : World) (key : String) where
  degrade_read_error-Ends :
      (u : World) (e : Error)
      → u.cache.config ≡ w.cache.config
      → Ends u (degrade_read_error e) (λ r _. Served w key r) (λ _ _. w.cache.strict ≡ true)
  unfolding degrade_read_error
  degrade_read_error-Ends u e c = Ends-bind (
      Ends-get_cache
        (Ends-if _ _ _ (λ x. Ends-raise _ (sym (strict_of w u c) ∙ x)) (λ x. Ends-pure _ tt)))

  serve_row-Ends :
      (u : World) (row : Row)
      → select_key w.cache.namespace key w.db.rows ≡ some row
      → Later w.env.clock u.env.clock
      → Ends u (serve_row key row) (λ r _. Served w key r) (λ _ _. w.cache.strict ≡ true)
  unfolding serve_row hit miss
  serve_row-Ends u row s l = Ends-bind (
      Ends-now_millis (
        Ends-if _ _ _
          (λ x. Ends-bind (
            Ends-set_cache _ (
              Ends-bind (
                Ends-Safe {fading = true} (Runs-delete_raw key) (Safe-delete_raw key) refl
                  (λ _ v m. Ends-pure _ tt)))))
          (λ x. Ends-bind (
            Ends-set_cache _ (
              Ends-bind (
                Ends-Safe {fading = true} (Runs-buffer_lru key _) (Safe-buffer_lru key _) refl
                  (λ _ v m. Ends-pure (some (row.value, row.value_type)) (
                    row,
                    s,
                    refl,
                    refl,
                    (0 + l.shift, ap (is_expired row.expires_at) (sym (l.rest 0)) ∙ x),
                  ))))))))

  serve_found-Ends :
      (u : World) (row : Option Row)
      → select_key w.cache.namespace key w.db.rows ≡ row
      → Later w.env.clock u.env.clock
      → Ends u (serve_found key (ok row)) (λ r _. Served w key r) (λ _ _. w.cache.strict ≡ true)
  unfolding serve_found miss
  serve_found-Ends u none s l = Ends-bind (Ends-set_cache _ (Ends-pure _ tt))
  serve_found-Ends u (some row) s l = serve_row-Ends u row s l

  -- A read returns nothing, or the value and type of the key's row, which at a reading of the clock
  -- during the call had not expired. It fails only in strict mode.
  pub get_raw-Ends : Ends w (get_raw key) (λ r _. Served w key r) (λ _ _. w.cache.strict ≡ true)
  unfolding get_raw serve_found
  get_raw-Ends = Ends-bind (
      Ends-get_cache (
        Ends-bind (
          Ends-attempt (
            Ends-query _
              (λ q. Ends-bind (
                Ends-Safe {fading = true} Runs-maybe_opportunistic_sweep
                  Safe-maybe_opportunistic_sweep refl (λ _ v m. serve_found-Ends v _ refl m.clock)))
              (λ q. Ends-bind (
                Ends-Safe {fading = true} Runs-maybe_opportunistic_sweep
                  Safe-maybe_opportunistic_sweep refl
                  (λ _ v m. degrade_read_error-Ends v _ m.config)))))))

-- A typed read returns nothing, or the decoding of the key's live row.
abbrev pub Decodes : World → String → Dest → Option Decoded → Type 0
Decodes w key dest none = Unit {0}
Decodes w key dest (some x) =
    (d : Bytes) × (code : ℕ) × LiveRow w key d code × (decode_into w.env.codec d code dest ≡ ok x)

degrade-Decodes :
    (w u : World) (key : String) (dest : Dest) (e : Error)
    → u.cache.config ≡ w.cache.config
    → Ends u (degrade_read_error e) (λ r _. Decodes w key dest r) (λ _ _. w.cache.strict ≡ true)
unfolding degrade_read_error
degrade-Decodes w u key dest e c = Ends-bind (
    Ends-get_cache
      (Ends-if _ _ _ (λ x. Ends-raise _ (sym (strict_of w u c) ∙ x)) (λ x. Ends-pure _ tt)))

settle-Ends :
    (w u : World) (key : String) (dest : Dest) (r : Result Decoded) (d : Bytes) (code : ℕ)
    → LiveRow w key d code
    → decode_into w.env.codec d code dest ≡ r
    → u.cache.config ≡ w.cache.config
    → Ends u (settle r) (λ r _. Decodes w key dest r) (λ _ _. w.cache.strict ≡ true)
unfolding settle
settle-Ends w u key dest (ok x) d code l e c = Ends-pure (some x) (d, code, l, e)
settle-Ends w u key dest (err x) d code l e c = degrade-Decodes w u key dest x c

decode_found-Ends :
    (w u : World) (key : String) (dest : Dest) (found : Option (Bytes × ℕ))
    → Served w key found
    → u.cache.config ≡ w.cache.config
    → u.env.codec ≡ w.env.codec
    → Ends u (decode_found dest found) (λ r _. Decodes w key dest r) (λ _ _. w.cache.strict ≡ true)
unfolding decode_found
decode_found-Ends w u key dest none l c k = Ends-pure _ tt
decode_found-Ends w u key dest (some (d, code)) l c k = Ends-bind (
    Ends-get_env
      (settle-Ends w u key dest _ d code l (ap (λ lib. decode_into lib d code dest) (sym k)) c))

get-Ends :
    (w : World) (key : String) (dest : Dest)
    → Ends w (get key dest) (λ r _. Decodes w key dest r) (λ _ _. w.cache.strict ≡ true)
unfolding get
get-Ends w key dest = Ends-bind (
    Ends-with-Runs {fading = true} (Runs-get_raw key) refl (get_raw-Ends w key)
      (λ found u s m. decode_found-Ends w u key dest found s m.config m.codec) (λ b u x m. x))

-- Get, GetBytes, GetString, GetInt64 and GetFloat64: a value that is returned is the decoding of
-- the key's row, which had not expired at a reading of the clock that the call took.
pub get-Decodes :
    (w u : World) (key : String) (dest : Dest) (r : Option Decoded)
    → get key dest w ≡ (ok r, u)
    → Decodes w key dest r
get-Decodes w u key dest r e = Ends-ok (get-Ends w key dest) e

-- A typed read returns an error only in strict mode: otherwise a driver error and a value that does
-- not decode are misses.
pub get-err :
    (w u : World) (key : String) (dest : Dest) (x : Error)
    → get key dest w ≡ (err x, u)
    → w.cache.strict ≡ true
get-err w u key dest x e = Ends-err (get-Ends w key dest) e
