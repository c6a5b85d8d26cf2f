-- ===== src/Ui/Session.antt =====
-- lytecache-cli/cmd/lytecache/ui/session.go: session cookies. The reading of the clock and the random id are
-- arguments; HMAC, base64 and JSON are the fields of a codec. The map of revoked sessions is a list.
use Prim.Native.Char.{code}
use Prim.Native.String.{◌∷◌ as cons, [] as empty, ◌++◌ as concat}
use lytecache.Common.{
  ℕ, ◌+◌, ◌-◌, String, Bool, ◌||◌, Option, none, some, List, [], ◌∷◌, ltb, ◌==◌, if◌then◌else◌,
  str_eq, is_some,
}
use lytecache.Strconv.{Bytes}

pub record Claims : Type 0 where
  pub id : String
  pub username : String
  pub issued_at : ℕ
  pub expires_at : ℕ
  pub last_seen : ℕ

pub record Codec : Type 0 where
  pub sign : String → String
  pub encode_payload : Bytes → String
  pub decode_payload : String → Option Bytes
  pub marshal : Claims → Option Bytes
  pub unmarshal : Bytes → Option Claims

pub record Manager : Type 0 where
  pub idle_timeout : ℕ
  pub absolute_life : ℕ
  pub revoked : List (String × ℕ)

abbrev pub default_idle_timeout : ℕ
default_idle_timeout = 1800000000000

abbrev pub default_absolute_lifetime : ℕ
default_absolute_lifetime = 43200000000000

unfoldable pub new_manager : ℕ → ℕ → Manager
new_manager idle life = record { idle_timeout = idle; absolute_life = life; revoked = [] }

-- strings.Cut(value, ".")
unfoldable pub cut_dot : String → Option (String × String)
cut_dot empty = none
cut_dot (cons c s) =
    let rest = cut_dot s in
    if code c == b'.'
    then some (empty, s)
    else elim rest [ none ↦ none | some p ↦ some (cons c p.0, p.1) ]

unfoldable pub encode : Codec → Claims → Option String
encode k c = elim (k.marshal c) [
  | none ↦ none
  | some b ↦ some (concat (concat (k.encode_payload b) ".") (k.sign (k.encode_payload b)))
]

-- The cookie of a new session.
unfoldable pub issue : Codec → Manager → String → String → ℕ → Option String
unfolding encode
issue k m id username now = encode k (record {
  id = id;
  username = username;
  issued_at = now;
  expires_at = now + m.absolute_life;
  last_seen = now;
})

unfoldable pub find_revoked : String → List (String × ℕ) → Option ℕ
find_revoked k [] = none
find_revoked k ((i, e) ∷ l) = if str_eq i k then some e else find_revoked k l

unfoldable pub put_revoked : String → ℕ → List (String × ℕ) → List (String × ℕ)
put_revoked k x [] = (k, x) ∷ []
put_revoked k x ((i, e) ∷ l) =
    let rest = put_revoked k x l in if str_eq i k then (i, x) ∷ l else (i, e) ∷ rest

unfoldable pub without_expired : ℕ → List (String × ℕ) → List (String × ℕ)
without_expired now [] = []
without_expired now ((i, e) ∷ l) =
    let rest = without_expired now l in if ltb e now then rest else (i, e) ∷ rest

-- The claims of a cookie whose signature is right.
unfoldable pub signed_claims : Codec → String → Option Claims
signed_claims k value = elim (cut_dot value) [
  | none ↦ none
  | some p ↦
      if str_eq p.1 (k.sign p.0)
      then elim (k.decode_payload p.0) [ none ↦ none | some b ↦ k.unmarshal b ]
      else none
]

unfoldable pub is_over : Manager → ℕ → Claims → Bool
is_over m now c = ltb c.expires_at now || ltb m.idle_timeout (now - c.last_seen)

unfoldable pub accepted : Manager → ℕ → Claims → Option Claims
accepted m now c =
    if is_over m now c then none else if is_some (find_revoked c.id m.revoked) then none else some c

unfoldable pub verify : Codec → Manager → ℕ → String → Option Claims
verify k m now value = elim (signed_claims k value) [ none ↦ none | some c ↦ accepted m now c ]

unfoldable pub revoke : Manager → ℕ → Claims → Manager
revoke m now c = record m {
  revoked = without_expired now (put_revoked c.id c.expires_at m.revoked);
}
