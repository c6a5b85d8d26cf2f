-- ===== src/Events/Filter.antt =====
-- lytecache-go/events.go and lytecache-go/events_admin.go: channel names and watch patterns.
-- A name is taken as its code points.
use Prim.Native.Char.{code}
use Prim.Native.String.{◌∷◌ as cons, [] as empty}
use lytecache.Common.{
  ℕ, String, Bool, true, false, ◌&&◌, ◌||◌, ◌≡◌, refl, Option, none, some, List, [], ◌∷◌, ◌==◌,
  if◌then◌else◌, take, length, arith, Option-cases, inl, inr,
}
use lytecache.Errors.{Result, ok, err, invalid_argument}

abbrev pub codes : String → List ℕ
codes empty = []
codes (cons c s) = code c ∷ codes s

unfoldable pub same_text : List ℕ → List ℕ → Bool
same_text [] [] = true
same_text (a ∷ s) (b ∷ t) = a == b && same_text s t
same_text s t = false

-- strings.HasPrefix
unfoldable pub has_prefix : List ℕ → List ℕ → Bool
has_prefix s [] = true
has_prefix [] (b ∷ t) = false
has_prefix (a ∷ s) (b ∷ t) = a == b && has_prefix s t

-- strings.Contains(s, "*")
pub has_star : List ℕ → Bool
has_star [] = false
has_star (c ∷ s) = c == b'*' || has_star s

abbrev is_empty : List ℕ → Bool
is_empty [] = true
is_empty (c ∷ s) = false

pub check_channel : List ℕ → Result (Unit {0})
check_channel channel =
    if is_empty channel
    then err invalid_argument
    else if has_star channel
    then err invalid_argument
    else if has_prefix channel (b'_' ∷ b'_' ∷ [])
    then err invalid_argument
    else ok tt

unfoldable pub validate_channel : String → Result (Unit {0})
validate_channel channel = check_channel (codes channel)

-- strings.CutSuffix(p, "*"): the text before a final star
unfoldable pub cut_star : List ℕ → Option (List ℕ)
cut_star [] = none
cut_star (c ∷ []) = if c == b'*' then some [] else none
cut_star (c ∷ d ∷ s) = elim (cut_star (d ∷ s)) [ none ↦ none | some p ↦ some (c ∷ p) ]

-- MatchChannel
match_channel : List ℕ → List ℕ → Bool
match_channel pattern channel = if is_empty pattern then false else elim (cut_star pattern) [
  | some prefix ↦ has_prefix channel prefix
  | none ↦ same_text channel pattern
]

-- One clause of the SQL condition: `substr(channel, 1, n) = prefix` or `channel = name`.
pub data Clause : Type 0 where
  prefix_is : ℕ → List ℕ → Clause
  name_is : List ℕ → Clause

-- The condition "1", or the clauses joined by OR.
pub data Filter : Type 0 where
  everything : Filter
  any_of : List Clause → Filter

add_clause : Clause → Result Filter → Result Filter
add_clause c (err e) = err e
add_clause c (ok everything) = ok everything
add_clause c (ok (any_of cs)) = ok (any_of (c ∷ cs))

clause_for : List ℕ → Option (List ℕ) → Clause
clause_for p none = name_is p
clause_for p (some prefix) = prefix_is (length prefix) prefix

-- A pattern "*" ends the loop at once.
abbrev is_bare_star : Option (List ℕ) → Bool
is_bare_star (some []) = true
is_bare_star _ = false

unfoldable pub channel_filter : List (List ℕ) → Result Filter
unfolding add_clause clause_for
channel_filter [] = ok (any_of [])
channel_filter (p ∷ ps) =
    let rest = channel_filter ps in
    if is_empty p
    then err invalid_argument
    else if is_bare_star (cut_star p)
    then ok everything
    else add_clause (clause_for p (cut_star p)) rest

-- What SQL makes of the condition at a channel.
pub clause_holds : List ℕ → Clause → Bool
clause_holds channel (prefix_is n prefix) = same_text (take n channel) prefix
clause_holds channel (name_is name) = same_text channel name

pub some_clause_holds : List ℕ → List Clause → Bool
unfolding clause_holds
some_clause_holds channel [] = false
some_clause_holds channel (c ∷ cs) = clause_holds channel c || some_clause_holds channel cs

unfoldable pub filter_holds : Filter → List ℕ → Bool
unfolding some_clause_holds
filter_holds everything channel = true
filter_holds (any_of cs) channel = some_clause_holds channel cs

pub any_matches : List (List ℕ) → List ℕ → Bool
unfolding match_channel
any_matches [] channel = false
any_matches (p ∷ ps) channel = match_channel p channel || any_matches ps channel

same_text-take : (s p : List ℕ) → same_text (take (length p) s) p ≡ has_prefix s p
unfolding same_text has_prefix
same_text-take s [] = refl
same_text-take [] (b ∷ p) = refl
same_text-take (a ∷ s) (b ∷ p) = ground (arith, same_text-take s p)

abbrev Agrees : List (List ℕ) → List ℕ → Filter → Type 0
Agrees ps channel f = filter_holds f channel ≡ any_matches ps channel

clause_holds-clause_for :
    (p channel : List ℕ)
    → is_empty p ≡ false
    → clause_holds channel (clause_for p (cut_star p)) ≡ match_channel p channel
unfolding clause_holds clause_for match_channel
clause_holds-clause_for p channel h = elim (Option-cases (cut_star p)) [
  | inl e ↦ rw (e, h)
  | inr (q, e) ↦ rw (e, h) (same_text-take channel q)
]

-- one more pattern in front, by what the others gave
filter_step :
    (p : List ℕ) (ps : List (List ℕ)) (channel : List ℕ) (f : Filter) (r : Result Filter)
    → channel_filter ps ≡ r
    → ((g : Filter) → r ≡ ok g → Agrees ps channel g)
    → channel_filter (p ∷ ps) ≡ ok f
    → Agrees (p ∷ ps) channel f
unfolding channel_filter filter_holds any_matches has_prefix
filter_step p ps channel f (err x) er ih e = ground arith
filter_step p ps channel f (ok everything) er ih e = ground (arith, ih everything refl)
filter_step p ps channel f (ok (any_of cs)) er ih e =
    ground (arith, ih (any_of cs) refl, clause_holds-clause_for p channel)

-- The SQL condition that Watch and RecentEvents build accepts exactly the channels that
-- MatchChannel accepts for one of the patterns.
pub filter_holds-channel_filter :
    (patterns : List (List ℕ)) (channel : List ℕ) {f : Filter}
    → channel_filter patterns ≡ ok f
    → filter_holds f channel ≡ any_matches patterns channel
filter_holds-channel_filter [] channel e =
    unfold channel_filter filter_holds any_matches in ground arith
filter_holds-channel_filter (p ∷ ps) channel {f = f} e =
    filter_step p ps channel f (channel_filter ps) refl
      (λ g h. filter_holds-channel_filter ps channel h) e
