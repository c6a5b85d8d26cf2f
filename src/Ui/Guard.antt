-- ===== src/Ui/Guard.antt =====
-- lytecache-cli/cmd/lytecache/ui/auth.go: what is refused at the start and on each request. The parser
-- of network addresses, whether the password is the default one, and the reading of the clock are
-- arguments.
use Prim.Native.String.{◌++◌ as concat}
use lytecache.Common.{
  ℕ, String, Bool, true, false, not, ◌&&◌, ◌||◌, Option, none, some, if◌then◌else◌, str_eq,
}
use lytecache.Events.Filter.{codes, has_prefix}
use lytecache.Ui.Session.{Claims, Codec, Manager, encode, verify}

-- net.ParseIP, and IsLoopback of what it returns
unfoldable pub is_loopback_host : (String → Option Bool) → String → Bool
is_loopback_host parse_ip host =
    if str_eq host "127.0.0.1"
      || (str_eq host "localhost" || (str_eq host "::1" || str_eq host "[::1]"))
    then true
    else elim (parse_ip host) [ none ↦ false | some b ↦ b ]

pub data Refusal : Type 0 where
  default_password : Refusal
  no_tls : Refusal
  no_metrics_token : Refusal

unfoldable pub check_startup_guardrails :
    (String → Option Bool) → String → Bool → Bool → Bool → Option Refusal
check_startup_guardrails parse_ip host is_default tls_configured insecure =
    if is_loopback_host parse_ip host
    then none
    else if is_default
    then some default_password
    else if not tls_configured && not insecure
    then some no_tls
    else none

unfoldable pub check_metrics_guardrail :
    (String → Option Bool) → String → Bool → String → Option Refusal
check_metrics_guardrail parse_ip host no_metrics token =
    if no_metrics || is_loopback_host parse_ip host
    then none
    else if str_eq token ""
    then some no_metrics_token
    else none

unfoldable pub forced_password_change_required : Bool → Bool → Bool
forced_password_change_required non_loopback_bind is_default =
    if not non_loopback_bind then false else is_default

unfoldable pub auth_exempt : String → Bool
auth_exempt path =
    if str_eq path "/login" || (str_eq path "/healthz" || str_eq path "/metrics")
    then true
    else has_prefix (codes path) (codes "/static/")

unfoldable pub is_state_changing : String → Bool
is_state_changing method =
    str_eq method "POST"
    || (str_eq method "PUT" || (str_eq method "PATCH" || str_eq method "DELETE"))

-- What the checks read of a request.
pub record Request : Type 0 where
  pub path : String
  pub method : String
  pub cookie : Option String
  pub csrf_field : String

unfoldable pub csrf_token : Codec → Claims → String
csrf_token k c = k.sign (concat "csrf:" c.id)

unfoldable pub verify_csrf : Codec → Request → Claims → Bool
verify_csrf k r c = not (str_eq r.csrf_field "") && str_eq r.csrf_field (csrf_token k c)

-- The next handler, with the session if there is one, or an answer of the middleware.
pub data Answer : Type 0 where
  next_handler : Option Claims → Answer
  to_login : Answer
  to_change_password : Answer
  forbidden : Answer

unfoldable pub answer_session : Codec → Bool → Request → Claims → Answer
answer_session k forced r c =
    if forced && not (str_eq r.path "/change-password")
    then to_change_password
    else if is_state_changing r.method && not (verify_csrf k r c)
    then forbidden
    else next_handler (some c)

-- The cookie that is set, where one is, and the answer. The clock is read to verify and again to touch.
unfoldable pub auth_middleware : Codec → Manager → Bool → ℕ → ℕ → Request → Option String × Answer
auth_middleware k m forced now touched r =
    if auth_exempt r.path then (none, next_handler none) else elim r.cookie [
      | none ↦ (none, to_login)
      | some value ↦ elim (verify k m now value) [
        | none ↦ (none, to_login)
        | some c ↦
            let c = record c { last_seen = touched } in (encode k c, answer_session k forced r c)
      ]
    ]
