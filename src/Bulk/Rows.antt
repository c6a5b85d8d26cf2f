-- ===== src/Bulk/Rows.antt =====
-- SetMany and GetMany run statements on the rows of their own namespace only.
use lytecache.Common.{String, Bool, false, Option, List, [], ◌∷◌, ℤ, ◌≡◌}
use lytecache.Value.{Value}
use lytecache.Table.{Row, is_expired}
use lytecache.World.Rules.{Runs, Runs-bind, Runs-get_env, Runs-lift, Runs-pure, Runs-if, runs}
use lytecache.Changes.Rows.{Runs-changed}
use lytecache.Sweep.Rows.{Runs-buffer_lru, Runs-maybe_evict, Runs-maybe_opportunistic_sweep}
use lytecache.Kv.Rows.{Runs-put_row, Runs-delete}
use lytecache.Bulk.{write_entries, set_many, collect, drop_gone, get_many}

module _ {fading : Bool} {ns : String} where
  Runs-collect : (now : ℤ) (rows : List Row) → Runs fading ns (collect now rows)
  unfolding collect
  Runs-collect now [] = search runs
  Runs-collect now (r ∷ rows) =
      Runs-if (is_expired r.expires_at now) _ _
        (Runs-bind _ _ (Runs-collect now rows) (λ x. Runs-pure _))
        (Runs-bind _ _ (Runs-buffer_lru r.key now)
          (λ _. Runs-bind _ _ (Runs-collect now rows) (λ x. Runs-pure _)))

  Runs-drop_gone : (keys : List String) → Runs fading ns (drop_gone keys)
  unfolding drop_gone
  Runs-drop_gone [] = search runs
  Runs-drop_gone (k ∷ ks) = search (runs, Runs-delete)

  pub Runs-get_many : (keys : List String) → Runs fading ns (get_many keys)
  unfolding get_many
  Runs-get_many [] = search runs
  Runs-get_many (k ∷ ks) =
      search (runs, Runs-collect, Runs-maybe_opportunistic_sweep, Runs-drop_gone) depth 20

module _ {ns : String} where
  pub Runs-write_entries :
      (c : String) (now : ℤ) (e : Option ℤ) (entries : List (String × Value))
      → c ≡ ns
      → Runs false ns (write_entries c now e entries)
  unfolding write_entries
  Runs-write_entries c now e [] h = search runs
  Runs-write_entries c now e ((key, value) ∷ rest) h = Runs-bind _ _ Runs-get_env (λ env.
      Runs-bind _ _ (Runs-lift _) (λ x.
        Runs-bind _ _ (Runs-put_row c key x.0 x.1 now e h)
          (λ _. Runs-write_entries c now e rest h)))

  pub Runs-set_many :
      (entries : List (String × Value)) (ttl : Option ℤ) → Runs false ns (set_many entries ttl)
  unfolding set_many
  Runs-set_many [] ttl = search runs
  Runs-set_many (e ∷ entries) ttl =
      search
        (runs, Runs-write_entries, Runs-changed, Runs-maybe_evict, Runs-maybe_opportunistic_sweep)
        depth 20
