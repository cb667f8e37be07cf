-- ===== src/Worker/Adapter/Environment.antt =====
-- The environment of a run's container (pkg/worker/runtime/base.go).
use nano_cloud.Base.{
  ℕ, String, Option, none, some, ◌≡◌, ◌∙◌, refl, arith, ◌==◌, ltb, eq_iff, if◌then◌else◌,
  Bool-cases, inl, inr,
}
use nano_cloud.Base.Map.{Map, lookup, insert, lookup-insert}
use nano_cloud.Base.Result.{ok}
use nano_cloud.Base.Text.Decimal.{decimal}
use nano_cloud.Gateway.Messages.{
  ApprovalPolicy, approval_auto, approval_ask, approval_deny, approval_unspecified, Policy,
  RunRequest,
}
use nano_cloud.Worker.Adapter.{
  DockerRunSpec, BaseAdapter, build_spec, timeout_env, policy_env, request_env, extract_prompt,
  approval_env, ContextInfo,
}

-- what a request sets a variable to, `none` where it leaves it to the configuration
abbrev approval_name : ApprovalPolicy → Option String
approval_name approval_auto = some "auto"
approval_name approval_ask = some "ask"
approval_name approval_deny = some "deny"
approval_name approval_unspecified = none

abbrev timeout_value : ℕ → Option String
timeout_value n = if ltb 0 n then some (decimal n) else none

abbrev from_policy : (Policy → Option String) → Option Policy → Option String
from_policy f none = none
from_policy f (some pol) = f pol

-- the variables that a request decides
abbrev pub request_value : RunRequest → ContextInfo → String → Option String
request_value req info k =
    if "TIMEOUT_SECONDS" == k
    then from_policy (λ pol. timeout_value pol.timeout_seconds) req.policy
    else if "APPROVAL_POLICY" == k
    then from_policy (λ pol. approval_name pol.approval) req.policy
    else if "PROMPT" == k
    then some (extract_prompt req.input)
    else if "SESSION_ID" == k
    then some req.session_id
    else if "STREAM_ID" == k
    then some info.stream_id
    else none

abbrev pub or_else : Option String → Option String → Option String
or_else none other = other
or_else (some v) other = some v

lookup-approval_env :
    (approval : ApprovalPolicy) (env : Map String) (k : String)
    → lookup k (approval_env approval env) ≡ (
        if "APPROVAL_POLICY" == k
        then or_else (approval_name approval) (lookup k env)
        else lookup k env)
unfolding approval_env
lookup-approval_env approval_auto env k =
    rw lookup-insert (ground (arith, eq_iff "APPROVAL_POLICY" k))
lookup-approval_env approval_ask env k =
    rw lookup-insert (ground (arith, eq_iff "APPROVAL_POLICY" k))
lookup-approval_env approval_deny env k =
    rw lookup-insert (ground (arith, eq_iff "APPROVAL_POLICY" k))
lookup-approval_env approval_unspecified env k = ground arith

lookup-timeout_env :
    (n : ℕ) (env : Map String) (k : String)
    → lookup k (timeout_env n env)
      ≡ (if "TIMEOUT_SECONDS" == k then or_else (timeout_value n) (lookup k env) else lookup k env)
unfolding timeout_env
lookup-timeout_env n env k = elim (Bool-cases (ltb 0 n)) [
  | inl given ↦ rw (given, lookup-insert) (ground (arith, given, eq_iff "TIMEOUT_SECONDS" k))
  | inr free ↦ ground (arith, free)
]

lookup-policy_env :
    (o : Option Policy) (env : Map String) (k : String)
    → lookup k (policy_env o env) ≡ (
        if "TIMEOUT_SECONDS" == k
        then or_else (from_policy (λ pol. timeout_value pol.timeout_seconds) o) (lookup k env)
        else if "APPROVAL_POLICY" == k
        then or_else (from_policy (λ pol. approval_name pol.approval) o) (lookup k env)
        else lookup k env)
unfolding policy_env
lookup-policy_env none env k = ground arith
lookup-policy_env (some pol) env k =
    lookup-approval_env pol.approval (timeout_env pol.timeout_seconds env) k
    ∙ rw (lookup-timeout_env pol.timeout_seconds env k)
        (elim (Bool-cases ("TIMEOUT_SECONDS" == k)) [
          | inl same ↦ let one = (eq_iff "TIMEOUT_SECONDS" k).0 same in rw (← one) refl
          | inr other ↦ rw other refl
        ])

names_env : String → String → String → Map String → Map String
names_env prompt session stream env =
    insert "PROMPT" prompt (insert "SESSION_ID" session (insert "STREAM_ID" stream env))

lookup-names_env :
    (prompt session stream k : String) (env : Map String)
    → lookup k (names_env prompt session stream env) ≡ (
        if "PROMPT" == k
        then some prompt
        else if "SESSION_ID" == k
        then some session
        else if "STREAM_ID" == k
        then some stream
        else lookup k env)
unfolding names_env
lookup-names_env prompt session stream k env =
    lookup-insert "PROMPT" k prompt (insert "SESSION_ID" session (insert "STREAM_ID" stream env))
    ∙ rw (lookup-insert "SESSION_ID" k session (insert "STREAM_ID" stream env))
        (rw (lookup-insert "STREAM_ID" k stream env) refl)

lookup-request_env :
    (req : RunRequest) (info : ContextInfo) (env : Map String) (k : String)
    → lookup k (request_env req info env) ≡ or_else (request_value req info k) (lookup k env)
unfolding request_env names_env
lookup-request_env req info env k =
    let named = names_env (extract_prompt req.input) req.session_id info.stream_id env in
    lookup-policy_env req.policy named k
    ∙ rw (lookup-names_env (extract_prompt req.input) req.session_id info.stream_id k env)
        (elim (Bool-cases ("TIMEOUT_SECONDS" == k)) [
          | inl same ↦ let one = (eq_iff "TIMEOUT_SECONDS" k).0 same in rw (← one) refl
          | inr no_timeout ↦ rw no_timeout (elim (Bool-cases ("APPROVAL_POLICY" == k)) [
            | inl same ↦ let one = (eq_iff "APPROVAL_POLICY" k).0 same in rw (← one) refl
            | inr no_approval ↦ rw no_approval (ground arith)
          ])
        ])

-- The environment of a container is the configured one, except that the request decides the prompt,
-- the session and the stream, and where it says so the timeout and the approval policy.
pub build_spec-env :
    (a : BaseAdapter) (req : RunRequest) (info : ContextInfo) (spec : DockerRunSpec) (k : String)
    → build_spec a req info ≡ ok spec
    → lookup k spec.env ≡ or_else (request_value req info k) (lookup k a.env)
unfolding build_spec
build_spec-env a req info spec k built =
    let same : spec.env ≡ request_env req info a.env = ground (arith, built) in
    rw same (lookup-request_env req info a.env k)
