-- ===== src/Worker/Adapter/NanoAgent.antt =====
-- The adapter of the nano agent (pkg/worker/runtime/nano_agent.go): the base adapter's container, whose
-- environment an env file completes. Opening and reading the file is an argument.
use nano_cloud.Base.{
  String, Bool, true, false, ◌&&◌, ◌||◌, Option, none, some, List, [], ◌∷◌, ◌==◌, if◌then◌else◌,
  ◌≡◌, refl, ◌∙◌, arith, eq_iff, Bool-cases, Option-cases, inl, inr,
}
use nano_cloud.Base.Map.{Map, lookup, insert, lookup-insert}
use nano_cloud.Base.Text.{trim_space, has_prefix, has_suffix}
use nano_cloud.Base.Text.Decimal.{cut_char, trim_left_char, trim_right_char}
use nano_cloud.Base.Result.{Result, ok, err}
use nano_cloud.Gateway.Messages.{RunRequest}
use nano_cloud.Worker.Adapter.{
  BaseAdapter, ContextInfo, DockerRunSpec, SpecError, env_file_failed, build_spec,
}
use nano_cloud.Worker.Adapter.Environment.{request_value, or_else, build_spec-env}

-- a quote is the character 34
unfoldable pub unquote : String → String
unfolding trim_left_char trim_right_char
unquote val =
    if has_prefix "\"" val && has_suffix "\"" val
    then trim_right_char 34 (trim_left_char 34 val)
    else val

unfoldable pub env_line : String → Map String → Map String
unfolding cut_char unquote
env_line text envs =
    let line = trim_space text in
    if line == "" || has_prefix "#" line then envs else elim (cut_char 61 line) [
      | none ↦ envs
      | some (key, val) ↦
          if trim_space key == ""
          then envs
          else insert (trim_space key) (unquote (trim_space val)) envs
    ]

unfoldable pub env_lines : List String → Map String → Map String
unfolding env_line
env_lines [] envs = envs
env_lines (line ∷ lines) envs = env_lines lines (env_line line envs)

-- what opening and scanning the file gives: the lines, and whether the scan ended in an error
pub data EnvFile : Type 0 where
  no_file unreadable absent : EnvFile
  scanned : List String → Bool → EnvFile

-- the variables that are not set yet
unfoldable pub merge_missing : Map String → Map String → Map String
merge_missing [] env = env
merge_missing ((k, v) ∷ file) env =
    merge_missing file (elim (lookup k env) [ none ↦ insert k v env | some old ↦ env ])

unfoldable pub add_env_file : EnvFile → DockerRunSpec → Result SpecError DockerRunSpec
unfolding merge_missing env_lines
add_env_file no_file spec = ok spec
add_env_file absent spec = ok spec
add_env_file unreadable spec = err env_file_failed
add_env_file (scanned lines true) spec = err env_file_failed
add_env_file (scanned lines false) spec =
    ok (record spec { env = merge_missing (env_lines lines []) spec.env })

-- NanoAgentAdapter.BuildSpec
unfoldable pub nano_build_spec :
    BaseAdapter → EnvFile → RunRequest → ContextInfo → Result SpecError DockerRunSpec
unfolding build_spec add_env_file
nano_build_spec a file req info = elim (build_spec a req info) [
  | err e ↦ err e
  | ok spec ↦ add_env_file file spec
]

-- the variables of an env file
abbrev pub file_variables : EnvFile → Map String
file_variables (scanned lines failed) = env_lines lines []
file_variables _ = []

lookup-merge_missing :
    (file env : Map String) (k : String)
    → lookup k (merge_missing file env) ≡ or_else (lookup k env) (lookup k file)
unfolding merge_missing lookup
lookup-merge_missing [] env k = elim (Option-cases (lookup k env)) [
  | inl absent_before ↦ rw absent_before refl
  | inr (v, present) ↦ rw present refl
]
lookup-merge_missing ((j, w) ∷ file) env k = elim (Option-cases (lookup j env)) [
  | inl absent_before ↦ rw absent_before (
      lookup-merge_missing file (insert j w env) k
      ∙ rw (lookup-insert j k w env) (elim (Bool-cases (j == k)) [
        | inl same ↦ let one = (eq_iff j k).0 same in rw same (rw (← one) (rw absent_before refl))
        | inr other ↦ rw other refl
      ]))
  | inr (old, present) ↦ rw present (
      lookup-merge_missing file env k ∙ elim (Bool-cases (j == k)) [
        | inl same ↦ let one = (eq_iff j k).0 same in rw same (rw (← one) (rw present refl))
        | inr other ↦ rw other refl
      ])
]

or_else-none : (o : Option String) → or_else o none ≡ o
or_else-none none = refl
or_else-none (some v) = refl

add_env_file-env :
    (file : EnvFile) (base spec : DockerRunSpec) (k : String)
    → add_env_file file base ≡ ok spec
    → lookup k spec.env ≡ or_else (lookup k base.env) (lookup k (file_variables file))
unfolding add_env_file lookup
add_env_file-env no_file base spec k added =
    let same : spec ≡ base = ground (arith, added) in
    rw (same, or_else-none (lookup k base.env)) refl
add_env_file-env absent base spec k added =
    let same : spec ≡ base = ground (arith, added) in
    rw (same, or_else-none (lookup k base.env)) refl
add_env_file-env unreadable base spec k added = absurd (ground (arith, added))
add_env_file-env (scanned lines true) base spec k added = absurd (ground (arith, added))
add_env_file-env (scanned lines false) base spec k added =
    let same : spec.env ≡ merge_missing (env_lines lines []) base.env = ground (arith, added) in
    rw same (lookup-merge_missing (env_lines lines []) base.env k)

-- Where the specification of the nano agent's container is built, a variable of its environment has the
-- value that the request decides (the prompt, the session and the stream, and where it says so the timeout
-- and the approval policy), else the configured one, else that of the env file.
pub nano_build_spec-env :
    (a : BaseAdapter) (file : EnvFile) (req : RunRequest) (info : ContextInfo)
    (spec : DockerRunSpec) (k : String)
    → nano_build_spec a file req info ≡ ok spec
    → lookup k spec.env
      ≡ or_else
          (or_else (request_value req info k) (lookup k a.env))
          (lookup k (file_variables file))
unfolding nano_build_spec
nano_build_spec-env a file req info spec k built = go (build_spec a req info) refl
  where
    go :
        (r : Result SpecError DockerRunSpec)
        → build_spec a req info ≡ r
        → lookup k spec.env
          ≡ or_else
              (or_else (request_value req info k) (lookup k a.env))
              (lookup k (file_variables file))
    go (err e) failed = absurd (ground (arith, built, failed))
    go (ok base) based =
        add_env_file-env file base spec k (ground (arith, built, based))
        ∙ rw (build_spec-env a req info base k based) refl
