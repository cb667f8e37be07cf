-- ===== src/Gateway/Connect/Binding.antt =====
-- Which worker a connection can become (pkg/server/server.go, handleWorkerConnect).
use nano_cloud.Base.{
  ap, ℕ, String, Bool, false, Option, none, some, List, ◌≡◌, ◌≢◌, ◌∙◌, sym, arith, Bool-cases,
  Option-cases, inl, inr, ◌⊎◌, ◌==◌, eq_iff,
}
use nano_cloud.Base.Result.{ok, err, Result-cases}
use nano_cloud.Store.Disk.{Error, Disk}
use nano_cloud.Store.Workers.{validate_worker_token}
use nano_cloud.Gateway.Messages.{Envelope, get_worker_hello}
use nano_cloud.Gateway.State.{Gateway}
use nano_cloud.Gateway.Auth.{HttpRequest, Environment, check_token}
use nano_cloud.Gateway.Connect.{
  refused, session, worker_token_of, valid_id, expected_worker_id, session_id, greet, connect,
}

session_id-bound :
    (expected named fresh id : String)
    → expected ≢ ""
    → session_id expected named fresh ≡ some id
    → id ≡ expected
unfolding session_id
session_id-bound expected named fresh id bound here =
    ground (arith, eq_iff expected "", eq_iff named "", eq_iff named expected)

greet-bound :
    (expected fresh id : String) (conn now : ℕ) (env : Envelope) (writes : List Bool) (g : Gateway)
    → expected ≢ ""
    → (greet expected fresh conn env now writes g).0 ≡ session id
    → id ≡ expected
unfolding greet
greet-bound expected fresh id conn now env writes g bound here =
    elim (Option-cases (get_worker_hello env.message)) [
      | inl absent ↦ absurd (ground (arith, absent))
      | inr (hello, said) ↦ elim (Option-cases (session_id expected env.worker_id fresh)) [
        | inl nobody ↦ absurd (ground (arith, said, nobody))
        | inr (j, chosen) ↦
            let same : j ≡ id = ground (arith, said, chosen) in
            sym same ∙ session_id-bound expected env.worker_id fresh j bound chosen
      ]
    ]

pub expected-bound :
    (hash : String → String) (e : Environment) (r : HttpRequest) (g : Gateway) (d : Disk)
    (bound : String)
    → check_token e r g ≡ false
    → validate_worker_token hash (worker_token_of r) d ≡ ok bound
    → (expected_worker_id hash e r g d ≡ none) ⊎ (expected_worker_id hash e r g d ≡ some bound)
unfolding expected_worker_id valid_id
expected-bound hash e r g d bound stranger valid = elim (Bool-cases (worker_token_of r == "")) [
  | inl missing ↦ inl (ground (arith, stranger, missing))
  | inr given ↦ inr (ground (arith, stranger, given, valid))
]

refused_session : (id : String) → refused ≢ session id
refused_session id same = cc

module _ (hash : String → String) (e : Environment) (r : HttpRequest) (fresh : String) (conn : ℕ)
    (first : Option Envelope) (now : ℕ) (writes : List Bool) (g : Gateway) (d : Disk) where
  pub connect-named :
      (bound id : String)
      → check_token e r g ≡ false
      → validate_worker_token hash (worker_token_of r) d ≡ ok bound
      → bound ≢ ""
      → (connect hash e r fresh conn first now writes g d).0 ≡ session id
      → id ≡ bound
  unfolding connect
  connect-named bound id stranger valid named here =
      elim (expected-bound hash e r g d bound stranger valid) [
        | inl nobody ↦ absurd (ground (arith, nobody))
        | inr expected ↦ elim (Option-cases first) [
          | inl silent ↦ absurd (ground (arith, expected, silent))
          | inr (env, said) ↦
              greet-bound bound fresh id conn now env writes g named
                (ground (arith, expected, said))
        ]
      ]

  -- Without the gateway token and without a valid worker token, a connection is refused, and the
  -- gateway stays as it was.
  pub connect-refused :
      (why : Error)
      → check_token e r g ≡ false
      → validate_worker_token hash (worker_token_of r) d ≡ err why
      → connect hash e r fresh conn first now writes g d ≡ (refused, g)
  unfolding connect expected_worker_id valid_id
  connect-refused why stranger invalid = ground (arith, stranger, invalid)

  -- Without the gateway token, a connection becomes a session only with a valid worker token, and under
  -- the worker id that the token is valid for, unless the record of the token has an empty id.
  pub connect-bound :
      (id : String)
      → check_token e r g ≡ false
      → (connect hash e r fresh conn first now writes g d).0 ≡ session id
      → (bound : String) × (validate_worker_token hash (worker_token_of r) d ≡ ok bound)
        × ((bound ≡ "") ⊎ (id ≡ bound))
  connect-bound id stranger here =
      elim (Result-cases (validate_worker_token hash (worker_token_of r) d)) [
        | inl (why, invalid) ↦
            absurd (
              refused_session id
                (ap (λ p. p.0) (sym (connect-refused why stranger invalid)) ∙ here))
        | inr (bound, valid) ↦ (
          bound,
          valid,
          elim (Bool-cases (bound == "")) [
            | inl blank ↦ inl ((eq_iff bound "").0 blank)
            | inr named ↦ inr (
                connect-named bound id stranger valid (ground (arith, named, eq_iff bound "")) here)
          ],
        )
      ]
