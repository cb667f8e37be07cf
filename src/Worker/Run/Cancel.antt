-- ===== src/Worker/Run/Cancel.antt =====
-- handleCancel (pkg/worker/worker.go).
use nano_cloud.Base.{String, true, false, Option, none, some, ◌==◌, if◌then◌else◌}
use nano_cloud.Base.Int.{pos}
use nano_cloud.Worker.Run.Program.{
  Program, stop, DockerProcess, stop_logs, kill_command, M, set, look, compare_and_swap, ask_host,
  send_status, send_completed,
}
use nano_cloud.Worker.Run.Commands.{stop_process, docker_remove, docker_network_remove}

-- a container is stopped and removed, by its id or else by its name
unfoldable pub drop_process : Option DockerProcess → M (Unit {0})
drop_process none k = k tt
drop_process (some p) k =
    stop_process p
      λ _. docker_remove (if p.container_id == "" then p.container else p.container_id) λ _. k tt

abbrev pub drop_network : String → M (Unit {0})
drop_network name k = if name == "" then k tt else docker_network_remove name (λ _. k tt)

unfoldable pub release : M (Unit {0})
release k = look λ st1.
    drop_process st1.proc
      λ _. look λ st2. drop_process st2.net_proc λ _. look λ st3. drop_network st3.net_name k

unfoldable pub stop_output : M (Unit {0})
stop_output k = look λ st. if st.logs then ask_host stop_logs (λ _. k tt) else k tt

unfoldable pub stop_command : M (Unit {0})
stop_command k = look λ st. if st.cmd then ask_host kill_command (λ _. k tt) else k tt

unfoldable pub finish_cancel : String → Program
finish_cancel reason =
    send_status "cancelled" reason
      λ _. send_completed false (pos 137) "{\"reason\":\"cancelled\"}" λ _. stop

-- what the goroutine does that has set `done`
unfoldable pub cancelled_run : String → Program
cancelled_run reason =
    set (λ st. record st { cancelled = true })
      λ _. stop_output λ _. release λ _. stop_command λ _. finish_cancel reason

unfoldable pub handle_cancel : String → Program
handle_cancel reason = look λ st.
    if st.registered
    then compare_and_swap (λ won. if won then cancelled_run reason else stop)
    else stop
