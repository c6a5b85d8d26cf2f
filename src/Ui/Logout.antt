-- ===== src/Ui/Logout.antt =====
-- What a logout promises: lytecache-cli/cmd/lytecache/ui/session.go.
use mathlib.Core.Option.{some-injective}
use lytecache.Common.{
  ◌-◌, ℕ, ◌<◌, ◌≤◌, String, true, false, none, some, List, [], ◌∷◌, ◌≡◌, refl, sym, ap, ◌∙◌, inl,
  inr, ◌⊎◌, ◌≢◌, ltb, str_eq, eq_iff, str_eq-other, Bool-cases, Option-cases, arith, All,
}
use lytecache.Ui.Session.{
  Claims, Codec, Manager, find_revoked, put_revoked, without_expired, signed_claims, is_over,
  accepted, verify, revoke,
}

module _ (k : String) where
  find_revoked-put_revoked-same :
      (x : ℕ) (l : List (String × ℕ)) → find_revoked k (put_revoked k x l) ≡ some x
  unfolding find_revoked put_revoked
  find_revoked-put_revoked-same x [] = rw ((eq_iff k k).1 refl) refl
  find_revoked-put_revoked-same x ((i, e) ∷ l) = elim (Bool-cases (str_eq i k)) [
    | inl h ↦ rw (h, h) refl
    | inr h ↦ rw (h, h) (find_revoked-put_revoked-same x l)
  ]

  find_revoked-put_revoked-other :
      (j : String) (x : ℕ) (l : List (String × ℕ))
      → j ≢ k
      → find_revoked k (put_revoked j x l) ≡ find_revoked k l
  unfolding find_revoked put_revoked
  find_revoked-put_revoked-other j x [] n = rw (str_eq-other j k n) refl
  find_revoked-put_revoked-other j x ((i, e) ∷ l) n = elim (Bool-cases (str_eq i j)) [
    | inl h ↦ let b = str_eq-other i k (λ p. n (sym ((eq_iff i j).0 h) ∙ p)) in rw (h, b) refl
    | inr h ↦ elim (Bool-cases (str_eq i k)) [
      | inl g ↦ rw (h, g) refl
      | inr g ↦ rw (h, g) (find_revoked-put_revoked-other j x l n)
    ]
  ]

  find_revoked-here :
      (i : String) (e : ℕ) (l : List (String × ℕ))
      → str_eq i k ≡ true
      → find_revoked k ((i, e) ∷ l) ≡ some e
  unfolding find_revoked
  find_revoked-here i e l g = rw g refl

  find_revoked-past :
      (i : String) (e : ℕ) (l : List (String × ℕ))
      → str_eq i k ≡ false
      → find_revoked k ((i, e) ∷ l) ≡ find_revoked k l
  unfolding find_revoked
  find_revoked-past i e l g = rw g refl

  find_revoked-without_expired :
      (x t : ℕ) (l : List (String × ℕ))
      → ltb x t ≡ false
      → find_revoked k l ≡ some x
      → find_revoked k (without_expired t l) ≡ some x
  unfolding without_expired
  find_revoked-without_expired x t [] n h = h
  find_revoked-without_expired x t ((i, e) ∷ l) n h = elim (Bool-cases (str_eq i k)) [
    | inl g ↦
        let same = sym (find_revoked-here i e l g) ∙ h in
        elim (Bool-cases (ltb e t)) [
          | inl a ↦ ground (arith, n, a, some-injective e x same)
          | inr a ↦ rw a (find_revoked-here i e (without_expired t l) g ∙ same)
        ]
    | inr g ↦
        let rest = find_revoked-without_expired x t l n (sym (find_revoked-past i e l g) ∙ h) in
        elim (Bool-cases (ltb e t)) [
          | inl a ↦ rw a rest
          | inr a ↦ rw a (find_revoked-past i e (without_expired t l) g ∙ rest)
        ]
  ]

-- The logged-out session is known as such, or has expired.
abbrev pub IsOut : String → ℕ → ℕ → Manager → Type 0
IsOut k x now m = (find_revoked k m.revoked ≡ some x) ⊎ (x < now)

module _ (k : String) (x now t : ℕ) (le : t ≤ now) (m : Manager) where
  kept_out :
      (l : List (String × ℕ))
      → find_revoked k l ≡ some x
      → (find_revoked k (without_expired t l) ≡ some x) ⊎ (x < now)
  kept_out l h = elim (Bool-cases (ltb x t)) [
    | inl a ↦ inr (ground arith)
    | inr a ↦ inl (find_revoked-without_expired k x t l a h)
  ]

  revoke-IsOut :
      (d : Claims) → (d.id ≡ k → d.expires_at ≡ x) → IsOut k x now m → IsOut k x now (revoke m t d)
  unfolding revoke
  revoke-IsOut d f (inr h) = inr h
  revoke-IsOut d f (inl h) = kept_out _ (elim (Bool-cases (str_eq d.id k)) [
    | inl a ↦
        let p = (eq_iff d.id k).0 a in
        rw p (find_revoked-put_revoked-same k d.expires_at m.revoked ∙ ap some (f p))
    | inr a ↦
        find_revoked-put_revoked-other k d.id d.expires_at m.revoked
          (λ p. ground (arith, a, (eq_iff d.id k).1 p))
        ∙ h
  ])

revoked-IsOut :
    (m : Manager) (t now : ℕ) (c : Claims) → t ≤ now → IsOut c.id c.expires_at now (revoke m t c)
unfolding revoke
revoked-IsOut m t now c le =
    kept_out c.id c.expires_at now t le m _
      (find_revoked-put_revoked-same c.id c.expires_at m.revoked)

-- The logouts of a list, one after the other, with their readings of the clock.
unfoldable pub logouts : Manager → List (ℕ × Claims) → Manager
logouts m [] = m
logouts m ((t, d) ∷ ds) = logouts (revoke m t d) ds

-- Before this time, and with one expiry for the session.
abbrev pub Agrees : Claims → ℕ → ℕ × Claims → Type 0
Agrees c now p = (p.0 ≤ now) × (p.1.id ≡ c.id → p.1.expires_at ≡ c.expires_at)

logouts-IsOut :
    (c : Claims) (now : ℕ) (m : Manager) (ds : List (ℕ × Claims))
    → All (Agrees c now) ds
    → IsOut c.id c.expires_at now m
    → IsOut c.id c.expires_at now (logouts m ds)
unfolding logouts
logouts-IsOut c now m [] a h = h
logouts-IsOut c now m ((t, d) ∷ ds) a h =
    logouts-IsOut c now (revoke m t d) ds a.1
      (revoke-IsOut c.id c.expires_at now t a.0.0 m d a.0.1 h)

-- The session has neither expired nor been idle for too long.
abbrev pub IsCurrent : Manager → ℕ → Claims → Type 0
IsCurrent m now c = (now ≤ c.expires_at) × (now - c.last_seen ≤ m.idle_timeout)

is_over-IsCurrent :
    (m : Manager) (now : ℕ) (c : Claims) → is_over m now c ≡ false → IsCurrent m now c
unfolding is_over
is_over-IsCurrent m now c h = ground (arith, h)

accepted-cases :
    (m : Manager) (now : ℕ) (c : Claims)
    → (accepted m now c ≡ none)
      ⊎ ((accepted m now c ≡ some c) × IsCurrent m now c × (find_revoked c.id m.revoked ≡ none))
unfolding accepted
accepted-cases m now c = elim (Bool-cases (is_over m now c)) [
  | inl a ↦ inl (rw a refl)
  | inr a ↦ elim (Option-cases (find_revoked c.id m.revoked)) [
    | inl b ↦ inr (rw (a, b) refl, is_over-IsCurrent m now c a, b)
    | inr (x, b) ↦ inl (rw (a, b) refl)
  ]
]

-- Verification accepts only the claims that the signed value carries, and those only while the session is
-- current and not revoked.
pub verify-IsCurrent :
    (k : Codec) (m : Manager) (now : ℕ) (value : String) (d : Claims)
    → verify k m now value ≡ some d
    → (signed_claims k value ≡ some d) × IsCurrent m now d × (find_revoked d.id m.revoked ≡ none)
unfolding verify
verify-IsCurrent k m now value d h = elim (Option-cases (signed_claims k value)) [
  | inl e ↦ let v : verify k m now value ≡ none = rw (e, verify) refl in cc (h, v)
  | inr (c, e) ↦
      let v : verify k m now value ≡ accepted m now c = rw (e, verify) refl in
      elim (accepted-cases m now c) [
        | inl x ↦ cc (h, v, x)
        | inr (x, y, z) ↦ let p = some-injective c d (sym (v ∙ x) ∙ h) in rw (← p) (e, y, z)
      ]
]

-- A session that was logged out is not accepted again: a cookie with its id and its expiry is refused at every
-- time from the logout on, whatever other sessions were logged out before that time, given that
-- revoked sessions with its id have its expiry.
pub verify-logouts :
    (k : Codec) (m : Manager) (t now : ℕ) (c d : Claims) (ds : List (ℕ × Claims)) (value : String)
    → t ≤ now
    → All (Agrees c now) ds
    → verify k (logouts (revoke m t c) ds) now value ≡ some d
    → ¬ ((d.id ≡ c.id) × (d.expires_at ≡ c.expires_at))
verify-logouts k m t now c d ds value le a h (p, q) =
    let (_, y, z) = verify-IsCurrent k (logouts (revoke m t c) ds) now value d h in
    elim (logouts-IsOut c now (revoke m t c) ds a (revoked-IsOut m t now c le)) [
      | inl e ↦ cc (e, z, ap (λ i. find_revoked i (logouts (revoke m t c) ds).revoked) p)
      | inr e ↦ ground (arith, e, y.0, q)
    ]
