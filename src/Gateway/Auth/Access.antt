-- ===== src/Gateway/Auth/Access.antt =====
-- Which requests pass the token checks (pkg/server/server.go, admin_handlers.go,
-- worker_config_handlers.go).
use nano_cloud.Base.{
  ℕ, ◌<◌, String, true, false, some, ◌≡◌, ◌≢◌, refl, arith, Bool-cases, Option-cases, inl, inr, ◌⊎◌,
  ◌↔◌, ◌==◌, eq_iff, eq_refl,
}
use nano_cloud.Base.Map.{lookup}
use nano_cloud.Base.Text.{trim_space, trim_prefix}
use nano_cloud.Gateway.State.{Gateway}
use nano_cloud.Gateway.Streams.{is_after}
use nano_cloud.Gateway.Auth.{
  has_bearer, allow_token_query, admin, Environment, parse_bearer_token, console_auth_enabled,
  check_bearer_token, require_admin, HttpRequest, check_token, console_session_valid, session_of,
}

-- A request passes `check_token` exactly if no gateway token is set, or its bearer token, its
-- X-Gateway-Token header, or, where the environment allows that, its trimmed query token is the
-- gateway token.
pub check_token_iff :
    (e : Environment) (r : HttpRequest) (g : Gateway)
    → (check_token e r g ≡ true) ↔ (
        (g.token ≡ "")
        ⊎ ((parse_bearer_token r ≡ g.token)
            ⊎ ((r.x_gateway_token ≡ g.token)
                ⊎ ((allow_token_query e ≡ true) × (trim_space r.query_token ≡ g.token)))))
unfolding check_token
check_token_iff e r g = (
  λ pass. elim (Bool-cases (g.token == "")) [
    | inl open_gate ↦ inl ((eq_iff g.token "").0 open_gate)
    | inr set ↦ inr (elim (Bool-cases (parse_bearer_token r == g.token)) [
      | inl bearer ↦ inl ((eq_iff (parse_bearer_token r) g.token).0 bearer)
      | inr other ↦ inr (elim (Bool-cases (r.x_gateway_token == g.token)) [
        | inl header ↦ inl ((eq_iff r.x_gateway_token g.token).0 header)
        | inr neither ↦ inr (
          ground (arith, set, other, neither),
          ground (arith, set, other, neither, eq_iff (trim_space r.query_token) g.token),
        )
      ])
    ])
  ],
  λ any. elim any [
    | inl open_gate ↦ ground (arith, eq_iff g.token "")
    | inr (inl bearer) ↦ ground (arith, eq_iff (parse_bearer_token r) g.token)
    | inr (inr (inl header)) ↦ ground (arith, eq_iff r.x_gateway_token g.token)
    | inr (inr (inr (allowed, query))) ↦ ground (arith, eq_iff (trim_space r.query_token) g.token)
  ],
)

-- With a gateway token that has no space around it, the strict check of the polling endpoints lets
-- no request in that the check of the other endpoints keeps out.
pub check_bearer_token-check_token :
    (e : Environment) (r : HttpRequest) (g : Gateway)
    → trim_space g.token ≡ g.token
    → check_bearer_token r g ≡ true
    → check_token e r g ≡ true
unfolding check_bearer_token check_token parse_bearer_token
check_bearer_token-check_token e r g trimmed pass = elim (Bool-cases (g.token == "")) [
  | inl open_gate ↦ ground (arith, open_gate)
  | inr set ↦
      let same : trim_prefix "Bearer " r.authorization ≡ g.token =
        ground (arith, set, eq_iff (trim_prefix "Bearer " r.authorization) g.token) in
      let bearer : has_bearer r.authorization ≡ true = ground (arith, set) in
      rw (set, bearer, same, trimmed, eq_refl) refl
]

-- the cookie names a session that has not expired
abbrev pub HasSession : HttpRequest → ℕ → Gateway → Type 0
HasSession r now g =
    (sid : String) × ((r.cookie ≡ some sid)
      × ((trim_space sid ≢ "")
          × ((exp : ℕ) × ((lookup sid g.console_sessions ≡ some exp) × (now < exp)))))

session_of_iff :
    (sid : String) (now : ℕ) (g : Gateway)
    → ((session_of sid now g).0 ≡ true)
      ↔ ((exp : ℕ) × ((lookup sid g.console_sessions ≡ some exp) × (now < exp)))
unfolding session_of is_after
session_of_iff sid now g = elim (Option-cases (lookup sid g.console_sessions)) [
  | inl absent ↦ (λ m. absurd (ground (arith, absent)), λ (exp, (here, live)). absurd (cc))
  | inr (t, here) ↦
      (λ m. (t, (here, ground (arith, here))), λ (exp, (there, live)). ground (arith, here, there))
]

console_session_valid_iff :
    (r : HttpRequest) (now : ℕ) (g : Gateway)
    → g.token ≢ ""
    → ((console_session_valid r now g).0 ≡ true) ↔ HasSession r now g
unfolding console_session_valid console_auth_enabled
console_session_valid_iff r now g set = elim (Option-cases r.cookie) [
  | inl absent ↦ (λ m. absurd (ground (arith, absent)), λ (sid, (here, live)). absurd (cc))
  | inr (sid, here) ↦
      let (to, from) = session_of_iff sid now g in
      (
        λ m. (
          sid,
          (here, (ground (arith, here, eq_iff (trim_space sid) ""), to (ground (arith, here)))),
        ),
        λ (other, (there, (named, live))).
            let same : sid ≡ other = cc in
            let valid : (session_of sid now g).0 ≡ true = from (rw same live) in
            let apart : (trim_space sid == "") ≡ false =
              rw same (ground (arith, eq_iff (trim_space other) "")) in
            ground (arith, here, valid, apart, eq_iff g.token ""),
      )
]

-- what makes a request an administrator's
abbrev pub IsAdmin : HttpRequest → ℕ → Gateway → Type 0
IsAdmin r now g = (g.token ≢ "") × ((parse_bearer_token r ≡ g.token) ⊎ HasSession r now g)

-- The admin API lets a request on exactly if a gateway token is set and the request carries it as its
-- bearer token, or the cookie of a console session that has not expired: without a gateway token it
-- lets nobody on.
pub require_admin_iff :
    (r : HttpRequest) (now : ℕ) (g : Gateway)
    → ((require_admin r now g).0 ≡ admin) ↔ IsAdmin r now g
unfolding require_admin
require_admin_iff r now g = elim (Bool-cases (g.token == "")) [
  | inl open_gate ↦ (
    λ m. absurd (ground (arith, open_gate)),
    λ (set, any). absurd (set ((eq_iff g.token "").0 open_gate)),
  )
  | inr set ↦
      let there : g.token ≢ "" = ground (arith, eq_iff g.token "") in
      let (to, from) = console_session_valid_iff r now g there in
      (
        λ m. (
          there,
          elim (Bool-cases (parse_bearer_token r == g.token)) [
            | inl bearer ↦ inl ((eq_iff (parse_bearer_token r) g.token).0 bearer)
            | inr other ↦ inr (to (ground (arith, set, other)))
          ],
        ),
        λ (named, any). elim any [
          | inl bearer ↦ ground (arith, set, eq_iff (parse_bearer_token r) g.token)
          | inr live ↦ ground (arith, set, from live)
        ],
      )
]
