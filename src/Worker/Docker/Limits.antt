-- ===== src/Worker/Docker/Limits.antt =====
-- The rounding of a memory limit (pkg/worker/docker_runner.go, formatDockerMemory).
use nano_cloud.Base.{ℕ, ◌+◌, ◌-◌, ◌*◌, ◌%◌, ◌^◌, ◌≤◌, ◌<◌, ◌≡◌, refl, arith}
use nano_cloud.Worker.Docker.{mib, memory_mib, format_docker_cpus, format_docker_memory}

-- A memory limit that is not zero is rounded up to mebibytes, by less than one of them, as long as the
-- rounding stays below 2 ^ 64 bytes.
pub memory_mib_bounds :
    (memory_bytes : ℕ)
    → 0 < memory_bytes
    → memory_bytes + mib ≤ 2 ^ 64
    → (memory_bytes ≤ memory_mib memory_bytes * mib)
      × (memory_mib memory_bytes * mib < memory_bytes + mib)
unfolding memory_mib
memory_mib_bounds memory_bytes some_bytes fits =
    let whole : (memory_bytes + (mib - 1)) % 2 ^ 64 ≡ memory_bytes + (mib - 1) = omega arith in
    rw whole (ground arith, ground arith)

cpus : format_docker_cpus 1500 ≡ "1.5"
unfolding format_docker_cpus
cpus = refl

memory : format_docker_memory 268435457 ≡ "257m"
unfolding format_docker_memory
memory = refl
