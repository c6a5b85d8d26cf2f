-- ===== src/Tests/Logins.antt =====
-- Sessions, requests and failed logins at concrete times.
use lytecache.Common.{
  suc, String, true, false, none, some, List, [], ◌∷◌, ◌≡◌, ◌⊎◌, refl, arith, All, str_eq,
  if◌then◌else◌,
}
use lytecache.Ui.Session.{
  Claims, Codec, Manager, new_manager, default_idle_timeout, default_absolute_lifetime, issue,
  verify, revoke, signed_claims, find_revoked,
}
use lytecache.Ui.Logout.{logouts, verify-logouts}
use lytecache.Ui.Limiter.{allow, record_failure, record_success, Attempts, second}
use lytecache.Ui.Backoff.{answer, remembered, LocksLate, record_failure-answer}
use lytecache.Ui.Guard.{
  Request, auth_middleware, check_startup_guardrails, check_metrics_guardrail, no_tls,
  default_password, no_metrics_token, forced_password_change_required, auth_exempt,
}
use lytecache.Ui.Admission.{Admitted, is_next, auth_middleware-Admitted}

abbrev ann : Claims
ann = record {
  id = "a1";
  username = "ann";
  issued_at = 0;
  expires_at = default_absolute_lifetime;
  last_seen = 0;
}

abbrev bob : Claims
bob = record { id = "b2"; username = "bob"; issued_at = 0; expires_at = 50; last_seen = 0 }

-- one payload, which stands for the session of bob
abbrev cookies : Codec
cookies = record {
  sign = λ s. "sig";
  encode_payload = λ b. "bob";
  decode_payload = λ s. if str_eq s "bob" then some (1 ∷ []) else none;
  marshal = λ c. some (1 ∷ []);
  unmarshal = λ b. some bob;
}

abbrev sessions : Manager
sessions = new_manager default_idle_timeout default_absolute_lifetime

issued : issue cookies sessions "b2" "bob" 0 ≡ some "bob.sig"
unfolding issue new_manager
issued = refl

forged : verify cookies sessions 10 "bob.gis" ≡ none
unfolding verify signed_claims lytecache.Ui.Session.cut_dot
forged = refl

expired : verify cookies sessions 51 "bob.sig" ≡ none
unfolding verify signed_claims lytecache.Ui.Session.cut_dot lytecache.Ui.Session.accepted
    lytecache.Ui.Session.is_over
expired = refl

valid_after_logout_of_ann :
    verify cookies (logouts (revoke sessions 5 ann) []) 10 "bob.sig" ≡ some bob
unfolding verify signed_claims lytecache.Ui.Session.cut_dot lytecache.Ui.Session.accepted
    lytecache.Ui.Session.is_over logouts revoke new_manager find_revoked
    lytecache.Ui.Session.without_expired lytecache.Ui.Session.put_revoked
valid_after_logout_of_ann = refl

verify-logouts_example : ¬ ((bob.id ≡ ann.id) × (bob.expires_at ≡ ann.expires_at))
verify-logouts_example =
    verify-logouts cookies sessions 5 10 ann bob [] "bob.sig" (omega arith) tt
      valid_after_logout_of_ann

logged_out : verify cookies (revoke sessions 5 bob) 10 "bob.sig" ≡ none
unfolding verify signed_claims lytecache.Ui.Session.cut_dot lytecache.Ui.Session.accepted
    lytecache.Ui.Session.is_over revoke new_manager find_revoked
    lytecache.Ui.Session.without_expired lytecache.Ui.Session.put_revoked
logged_out = refl

abbrev post : Request
post = record { path = "/keys"; method = "POST"; cookie = some "bob.sig"; csrf_field = "sig" }

post_served : is_next (auth_middleware cookies sessions false 10 11 post).1 ≡ true
unfolding auth_middleware is_next auth_exempt lytecache.Events.Filter.has_prefix verify
    signed_claims lytecache.Ui.Session.cut_dot lytecache.Ui.Session.accepted
    lytecache.Ui.Session.is_over new_manager find_revoked lytecache.Ui.Guard.answer_session
    lytecache.Ui.Guard.is_state_changing lytecache.Ui.Guard.verify_csrf
    lytecache.Ui.Guard.csrf_token
post_served = refl

without_token :
    is_next (auth_middleware cookies sessions false 10 11 (record post { csrf_field = "" })).1
    ≡ false
unfolding auth_middleware is_next auth_exempt lytecache.Events.Filter.has_prefix verify
    signed_claims lytecache.Ui.Session.cut_dot lytecache.Ui.Session.accepted
    lytecache.Ui.Session.is_over new_manager find_revoked lytecache.Ui.Guard.answer_session
    lytecache.Ui.Guard.is_state_changing lytecache.Ui.Guard.verify_csrf
without_token = refl

auth_middleware-Admitted_example :
    (auth_exempt "/keys" ≡ true) ⊎ Admitted cookies sessions false 10 post
auth_middleware-Admitted_example =
    auth_middleware-Admitted cookies sessions false 10 11 post post_served

guardrails :
    (check_startup_guardrails (λ s. none) "0.0.0.0" false false false ≡ some no_tls)
    × (check_startup_guardrails (λ s. none) "0.0.0.0" true true false ≡ some default_password)
    × (check_startup_guardrails (λ s. none) "::1" true false false ≡ none)
    × (check_metrics_guardrail (λ s. none) "0.0.0.0" false "" ≡ some no_metrics_token)
    × (forced_password_change_required true true ≡ true)
unfolding check_startup_guardrails lytecache.Ui.Guard.is_loopback_host check_metrics_guardrail
    forced_password_change_required
guardrails = (refl, refl, refl, refl, refl)

abbrev failures : List (String × Attempts)
failures = ("ip", record { count = 7; lock_until = 9; last_attempt = 7 }) ∷ []

failures-LocksLate : All (λ p. LocksLate p.1) failures
failures-LocksLate = (λ h. ground (arith, h), tt)

record_failure-answer_example :
    (allow (record_failure failures "ip" 20 20 21) "ip" 22
      ≡ answer (suc (remembered failures "ip" 20)) 21 22)
    × All (λ p. LocksLate p.1) (record_failure failures "ip" 20 20 21)
record_failure-answer_example = record_failure-answer failures "ip" 20 20 21 22 failures-LocksLate

locked : allow (record_failure failures "ip" 20 20 21) "ip" 22 ≡ (false, 3999999999)
unfolding allow record_failure lytecache.Ui.Limiter.find_attempts lytecache.Ui.Limiter.put_attempts
    lytecache.Ui.Limiter.gc_locked lytecache.Ui.Limiter.is_stale lytecache.Ui.Limiter.failed_again
    lytecache.Ui.Limiter.or_new lytecache.Ui.Limiter.backoff
locked = refl

cleared : allow (record_success failures "ip") "ip" 8 ≡ (true, 0)
unfolding allow record_success lytecache.Ui.Limiter.find_attempts
cleared = refl
