-- ===== src/Gateway/Auth/Sessions.antt =====
-- The life of a console session: login, use, logout (pkg/server/server.go).
use nano_cloud.Base.{
  ℕ, ◌+◌, String, true, false, some, ◌≡◌, ◌≢◌, arith, ltb, if◌then◌else◌, Option-cases, inl, inr,
  ◌↔◌, ◌==◌, eq_iff,
}
use nano_cloud.Base.Map.{lookup-insert_self, lookup-delete_self}
use nano_cloud.Base.Text.{trim_space}
use nano_cloud.Gateway.State.{Gateway}
use nano_cloud.Gateway.Streams.{is_after}
use nano_cloud.Gateway.Auth.{
  HttpRequest, session_of, logged_in, console_session_valid, clear_console_session,
  console_auth_enabled, create_console_session, console_logout, console_login,
}

-- the token that a login form gives: the field token, or else the field password
abbrev pub form_token : String → String → String
form_token token_field password =
    if trim_space token_field == "" then trim_space password else trim_space token_field

-- The login of a form succeeds exactly if a gateway token is set and the form gives it, where the
-- random source works.
pub console_login_iff :
    (token_field password sid : String) (ttl now : ℕ) (g : Gateway)
    → ((console_login (some (token_field, password)) (some sid) ttl now g).0 ≡ logged_in sid)
      ↔ ((g.token ≢ "") × (form_token token_field password ≡ g.token))
unfolding console_login console_auth_enabled
console_login_iff token_field password sid ttl now g = (
  λ m. (
    ground (arith, eq_iff g.token ""),
    ground (arith, eq_iff (form_token token_field password) g.token),
  ),
  λ (set, same).
      ground (arith, eq_iff g.token "", eq_iff (form_token token_field password) g.token),
)

-- After a login, a request with its cookie has a valid session up to the end of its time to live, and
-- none from then on.
pub login-session :
    (token_field password sid : String) (ttl now later : ℕ) (r : HttpRequest) (g : Gateway)
    → g.token ≢ ""
    → form_token token_field password ≡ g.token
    → trim_space sid ≢ ""
    → r.cookie ≡ some sid
    → (console_session_valid r later
        (console_login (some (token_field, password)) (some sid) ttl now g).1).0
      ≡ ltb later (now + ttl)
unfolding console_login create_console_session console_auth_enabled console_session_valid session_of
    is_after
login-session token_field password sid ttl now later r g set same named cookie =
    let set_b : (g.token == "") ≡ false = ground (arith, eq_iff g.token "") in
    let named_b : (trim_space sid == "") ≡ false = ground (arith, eq_iff (trim_space sid) "") in
    let same_b : (form_token token_field password == g.token) ≡ true =
      (eq_iff (form_token token_field password) g.token).1 same in
    let stored = lookup-insert_self sid (now + ttl) g.console_sessions in
    ground (arith, set_b, named_b, same_b, cookie, stored)

-- After a logout, the request that made it has no valid session any more.
pub console_session_valid-logout :
    (r : HttpRequest) (later : ℕ) (g : Gateway)
    → (console_session_valid r later (console_logout r g)).0 ≡ false
unfolding console_logout clear_console_session console_auth_enabled console_session_valid session_of
console_session_valid-logout r later g = elim (Option-cases r.cookie) [
  | inl absent ↦ ground (arith, absent)
  | inr (sid, here) ↦ ground (arith, here, lookup-delete_self sid g.console_sessions)
]
