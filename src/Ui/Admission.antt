-- ===== src/Ui/Admission.antt =====
-- What a request must have to reach a handler: lytecache-cli/cmd/lytecache/ui/auth.go.
use lytecache.Common.{
  ℕ, String, Bool, true, false, not, ◌&&◌, none, some, ◌≡◌, refl, sym, ◌∙◌, ◌⊎◌, inl, inr, str_eq,
  eq_iff, Bool-cases, Option-cases, arith, ap,
}
use lytecache.Ui.Session.{Claims, Codec, Manager, verify, signed_claims, find_revoked}
use lytecache.Ui.Logout.{IsCurrent, verify-IsCurrent}
use lytecache.Ui.Guard.{
  Request, Answer, next_handler, to_login, to_change_password, forbidden, auth_exempt,
  is_state_changing, csrf_token, verify_csrf, answer_session, auth_middleware,
}

-- The password need not be changed or this is the page for it, and a request that changes state has
-- the session's token.
abbrev pub IsAllowed : Codec → Bool → Request → Claims → Type 0
IsAllowed k forced r c =
    (forced ≡ true → r.path ≡ "/change-password")
    × (is_state_changing r.method ≡ true → r.csrf_field ≡ csrf_token k c)

unfoldable pub is_next : Answer → Bool
is_next (next_handler o) = true
is_next to_login = false
is_next to_change_password = false
is_next forbidden = false

module _ (k : Codec) (forced : Bool) (r : Request) (c : Claims) where
  verify_csrf-token : verify_csrf k r c ≡ true → r.csrf_field ≡ csrf_token k c
  unfolding verify_csrf
  verify_csrf-token h = (eq_iff r.csrf_field (csrf_token k c)).0 (ground (arith, h))

  answer_session-IsAllowed : is_next (answer_session k forced r c) ≡ true → IsAllowed k forced r c
  unfolding answer_session is_next
  answer_session-IsAllowed h =
      elim (Bool-cases (forced && not (str_eq r.path "/change-password"))) [
        | inl a ↦
            let v : answer_session k forced r c ≡ to_change_password =
              rw (a, answer_session) refl in
            ground (arith, h, ap is_next v)
        | inr a ↦ elim (Bool-cases (is_state_changing r.method && not (verify_csrf k r c))) [
          | inl b ↦
              let v : answer_session k forced r c ≡ forbidden = rw (a, b, answer_session) refl in
              ground (arith, h, ap is_next v)
          | inr b ↦ (
            λ f. (eq_iff r.path "/change-password").0 (ground (arith, a, f)),
            λ s. verify_csrf-token (ground (arith, b, s)),
          )
        ]
      ]

-- The session of the request's cookie: signed, current and not revoked.
abbrev pub Admitted : Codec → Manager → Bool → ℕ → Request → Type 0
Admitted k m forced now r =
    (value : String) × (d : Claims) × (r.cookie ≡ some value)
    × (signed_claims k value ≡ some d)
    × IsCurrent m now d
    × (find_revoked d.id m.revoked ≡ none)
    × IsAllowed k forced r d

-- A request that reaches a handler is for a page that is open to all, or carries a cookie whose signed
-- session is current and not revoked, is for the page that changes the password if that is forced, and
-- has the session's token if it changes state.
pub auth_middleware-Admitted :
    (k : Codec) (m : Manager) (forced : Bool) (now touched : ℕ) (r : Request)
    → is_next (auth_middleware k m forced now touched r).1 ≡ true
    → (auth_exempt r.path ≡ true) ⊎ Admitted k m forced now r
unfolding auth_middleware is_next answer_session verify_csrf csrf_token
auth_middleware-Admitted k m forced now touched r h = elim (Bool-cases (auth_exempt r.path)) [
  | inl a ↦ inl a
  | inr a ↦ elim (Option-cases r.cookie) [
    | inl b ↦
        let v : (auth_middleware k m forced now touched r).1 ≡ to_login =
          rw (a, b, auth_middleware) refl in
        ground (arith, h, ap is_next v)
    | inr (value, b) ↦ elim (Option-cases (verify k m now value)) [
      | inl e ↦
          let v : (auth_middleware k m forced now touched r).1 ≡ to_login =
            rw (a, b, e, auth_middleware) refl in
          ground (arith, h, ap is_next v)
      | inr (d, e) ↦
          let c = record d { last_seen = touched } in
          let v : (auth_middleware k m forced now touched r).1 ≡ answer_session k forced r c =
            rw (a, b, e, auth_middleware) refl in
          let (x, y, z) = verify-IsCurrent k m now value d e in
          inr (value, d, b, x, y, z, answer_session-IsAllowed k forced r c (sym (ap is_next v) ∙ h))
    ]
  ]
]
