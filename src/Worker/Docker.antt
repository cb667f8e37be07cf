-- ===== src/Worker/Docker.antt =====
-- The docker command lines of a run (pkg/worker/docker_runner.go). What the docker CLI answers is an
-- argument.
pub mod Limits
use Prim.Native.String
use nano_cloud.Base.{
  ℕ, ◌+◌, ◌-◌, ◌*◌, ◌/◌, ◌%◌, ◌^◌, String, Bool, true, false, Option, none, some, List, [], ◌∷◌,
  ◌++◌, ◌==◌, ltb, nat_eq, if◌then◌else◌,
}
use nano_cloud.Base.Map.{Map}
use nano_cloud.Base.Text.{trim_space}
use nano_cloud.Base.Text.Decimal.{decimal, digit, trim_right_char}
use nano_cloud.Gateway.Messages.{NetworkPolicy, network_none, Capacity, Policy}
use nano_cloud.Worker.Adapter.{DockerRunSpec}

unfoldable pub docker_runtime_args : String → List String
docker_runtime_args container_runtime =
    let rt = trim_space container_runtime in
    if rt == "" then [] else String.◌++◌ "--runtime=" rt ∷ []

abbrev pub mib : ℕ
mib = 1024 * 1024

-- the mebibytes of a limit, in uint64
unfoldable pub memory_mib : ℕ → ℕ
memory_mib memory_bytes =
    let m = (memory_bytes + (mib - 1)) % 2 ^ 64 / mib in if nat_eq m 0 then 1 else m

unfoldable pub format_docker_memory : ℕ → String
unfolding memory_mib decimal
format_docker_memory memory_bytes = String.◌++◌ (decimal (memory_mib memory_bytes)) "m"

-- "%.3f" of a number of thousandths
unfoldable pub thousandths : ℕ → String
unfolding decimal digit
thousandths n = String.◌++◌ (decimal (n / 1000)) (
    String.◌++◌ "."
      (String.◌∷◌ (digit (n / 100)) (String.◌∷◌ (digit (n / 10)) (String.◌∷◌ (digit n) ""))))

unfoldable pub format_docker_cpus : ℕ → String
unfolding thousandths trim_right_char
format_docker_cpus cpu_millis =
    let s = trim_right_char 46 (trim_right_char 48 (thousandths cpu_millis)) in
    if s == "" then "0" else s

abbrev pub limit_arg : String → ℕ → String → List String
limit_arg flag n text = if ltb 0 n then flag ∷ text ∷ [] else []

unfoldable pub capacity_args : Option Capacity → List String
unfolding format_docker_cpus format_docker_memory decimal
capacity_args none = []
capacity_args (some res) =
    limit_arg "--cpus" res.cpu_millis (format_docker_cpus res.cpu_millis)
    ++ limit_arg "--memory" res.memory_bytes (format_docker_memory res.memory_bytes)
    ++ limit_arg "--pids-limit" res.pids (decimal res.pids)

unfoldable pub network_args : NetworkPolicy → List String
network_args network_none = "--network" ∷ "none" ∷ []
network_args _ = []

unfoldable pub docker_extra_args_from_policy : Option Policy → List String
unfolding network_args capacity_args
docker_extra_args_from_policy none = []
docker_extra_args_from_policy (some pol) = network_args pol.network ++ capacity_args pol.resources

abbrev pub flag_if : Bool → String → List String
flag_if b flag = if b then flag ∷ [] else []

abbrev pub named : String → String → List String
named flag value = if value == "" then [] else flag ∷ value ∷ []

-- a flag for each entry, in the order of the map
unfoldable pub entry_args : String → String → Map String → List String
entry_args flag join [] = []
entry_args flag join ((k, v) ∷ m) =
    flag ∷ String.◌++◌ k (String.◌++◌ join v) ∷ entry_args flag join m

-- the arguments of DockerRun
unfoldable pub docker_run_args : DockerRunSpec → List String
unfolding entry_args
docker_run_args spec =
    "run" ∷ []
    ++ flag_if spec.detach "-d"
    ++ flag_if spec.remove "--rm"
    ++ named "--name" spec.name
    ++ named "-w" spec.workdir
    ++ entry_args "-v" ":" spec.mounts
    ++ entry_args "-e" "=" spec.env
    ++ spec.extra_args
    ++ spec.image ∷ spec.command
