-- ===== src/Gateway/Auth.antt =====
-- Who may call what (pkg/server/server.go: checkToken, checkBearerToken, allowTokenQuery, the console
-- sessions; worker_config_handlers.go: parseBearerToken; admin_handlers.go: requireAdmin).
mod Tests
pub mod Access
pub mod Sessions
use Prim.Native.String
use nano_cloud.Base.{
  ℕ, ◌+◌, String, Bool, true, false, not, ◌&&◌, ◌||◌, Option, none, some, List, [], ◌∷◌, ◌==◌, ltb,
  nat_eq, ◌*◌, if◌then◌else◌,
}
use nano_cloud.Base.Int.{ℤ, pos, negsuc}
use nano_cloud.Base.Map.{Map, lookup, insert, delete}
use nano_cloud.Base.Text.{trim_space, to_lower, has_prefix, trim_prefix}
use nano_cloud.Base.Result.{Result, ok, err}
use nano_cloud.Gateway.State.{Gateway}
use nano_cloud.Gateway.Streams.{is_after}

-- what the checks read of a request: three headers, the token of the query, and the console's cookie
pub record HttpRequest : Type 0 where
  pub authorization : String
  pub x_gateway_token : String
  pub x_worker_token : String
  pub query_token : String
  pub cookie : Option String

-- the environment variables
pub record Environment : Type 0 where
  pub allow_token_query_var : String
  pub dev_mode_var : String
  pub console_session_ttl_minutes_var : String

-- there is a scheme and something after it
unfoldable pub has_bearer : String → Bool
has_bearer auth = has_prefix "Bearer " auth && not (auth == "Bearer ")

unfoldable pub parse_bearer_token : HttpRequest → String
unfolding has_bearer
parse_bearer_token r =
    if has_bearer r.authorization then trim_space (trim_prefix "Bearer " r.authorization) else ""

unfoldable pub allow_token_query : Environment → Bool
allow_token_query e =
    let v = to_lower (trim_space e.allow_token_query_var) in
    v == "1"
    || v == "true"
    || v == "yes"
    || v == "on"
    || v == "dev"
    || to_lower (trim_space e.dev_mode_var) == "true"

unfoldable pub check_token : Environment → HttpRequest → Gateway → Bool
check_token e r g =
    if g.token == ""
    then true
    else if parse_bearer_token r == g.token
    then true
    else if r.x_gateway_token == g.token
    then true
    else if allow_token_query e
    then trim_space r.query_token == g.token
    else false

-- the token is compared without trimming
unfoldable pub check_bearer_token : HttpRequest → Gateway → Bool
unfolding has_bearer
check_bearer_token r g =
    if g.token == ""
    then true
    else has_bearer r.authorization && trim_prefix "Bearer " r.authorization == g.token

unfoldable pub console_auth_enabled : Gateway → Bool
console_auth_enabled g = not (g.token == "")

-- the session of a cookie: an expired one is removed on the way
unfoldable pub session_of : String → ℕ → Gateway → Bool × Gateway
session_of sid now g = elim (lookup sid g.console_sessions) [
  | none ↦ (false, g)
  | some exp ↦
      if is_after exp now
      then (true, g)
      else (false, record g { console_sessions = delete sid g.console_sessions })
]

unfoldable pub console_session_valid : HttpRequest → ℕ → Gateway → Bool × Gateway
unfolding session_of console_auth_enabled
console_session_valid r now g =
    if console_auth_enabled g
    then elim r.cookie [
      | none ↦ (false, g)
      | some sid ↦ if trim_space sid == "" then (false, g) else session_of sid now g
    ]
    else (false, g)

-- eight hours unless the number is positive
unfoldable pub minutes : ℤ → ℕ
minutes (negsuc n) = 28800
minutes (pos n) = if nat_eq n 0 then 28800 else n * 60

-- parseConsoleSessionTTL, in seconds; strconv.Atoi is an argument
unfoldable pub parse_console_session_ttl : (String → Option ℤ) → Environment → ℕ
parse_console_session_ttl atoi e =
    let v = trim_space e.console_session_ttl_minutes_var in
    if v == "" then 28800 else elim (atoi v) [ none ↦ 28800 | some n ↦ minutes n ]

-- the session id comes from the random source
unfoldable pub create_console_session : String → ℕ → ℕ → Gateway → Gateway
create_console_session sid ttl now g = record g {
  console_sessions = insert sid (now + ttl) g.console_sessions;
}

unfoldable pub clear_console_session : String → Gateway → Gateway
clear_console_session sid g =
    if trim_space sid == ""
    then g
    else record g { console_sessions = delete sid g.console_sessions }

-- the answers of a login: 404, a redirect to the failure page, 500, or the cookie
pub data LoginReply : Type 0 where
  login_not_found login_failed login_error : LoginReply
  logged_in : String → LoginReply

-- `form` is none where the form does not parse, and else the fields token and password; `fresh` is
-- none where the random source fails.
unfoldable pub console_login :
    Option (String × String) → Option String → ℕ → ℕ → Gateway → LoginReply × Gateway
console_login none fresh ttl now g =
    (if console_auth_enabled g then login_failed else login_not_found, g)
console_login (some (token_field, password)) fresh ttl now g =
    let first = trim_space token_field in
    let token = if first == "" then trim_space password else first in
    if console_auth_enabled g
    then if token == g.token
      then elim fresh [
        | none ↦ (login_error, g)
        | some sid ↦ (logged_in sid, create_console_session sid ttl now g)
      ]
      else (login_failed, g)
    else (login_not_found, g)

unfoldable pub console_logout : HttpRequest → Gateway → Gateway
console_logout r g = elim r.cookie [ none ↦ g | some sid ↦ clear_console_session sid g ]

-- the answers of requireAdmin: 503, 401, or go on
pub data AdminCheck : Type 0 where
  token_required unauthorized admin : AdminCheck

unfoldable pub require_admin : HttpRequest → ℕ → Gateway → AdminCheck × Gateway
require_admin r now g =
    if g.token == ""
    then (token_required, g)
    else if parse_bearer_token r == g.token
    then (admin, g)
    else let (valid, g1) = console_session_valid r now g in
      (if valid then admin else unauthorized, g1)
