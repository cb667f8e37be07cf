-- ===== src/Worker/Paths.antt =====
-- The directories of a run (pkg/worker/worker.go: the head of handleRunRequest, resolveHostBindPath).
pub mod Inside
use Prim.Native.String
use nano_cloud.Base.{String, Bool, true, ◌||◌, Option, none, some, List, ◌==◌, if◌then◌else◌}
use nano_cloud.Base.Result.{Result, ok, err}
use nano_cloud.Base.Text.{has_prefix}
use nano_cloud.Base.FilePath.{path_of, path_text, clean, join, join_with, rel}
use nano_cloud.Worker.Adapter.{sanitize}

-- the id of the workspace that a request names, or else the run's
unfoldable pub workspace_id : String → String → String
workspace_id named stream_id = if named == "" then stream_id else named

unfoldable pub workspace_dir : String → String → String
unfolding join sanitize
workspace_dir workspace_root id = join workspace_root (sanitize id)

-- the directory of the run below the central log root, "" for none; `made` is whether it is created
unfoldable pub log_dir : String → String → Bool → String
unfolding clean join sanitize has_prefix
log_dir log_root stream_id made =
    let root = clean log_root in
    let dir = clean (join root (sanitize stream_id)) in
    if log_root == ""
    then ""
    else if has_prefix (String.◌++◌ root "/") (String.◌++◌ dir "/")
    then (if made then dir else "")
    else ""

pub data PathError : Type 0 where
  no_relative_path outside : PathError

unfoldable pub host_path : String → Option (List String) → Result PathError String
unfolding join_with has_prefix join
host_path host_root none = err no_relative_path
host_path host_root (some parts) =
    let text = join_with "/" parts in
    if has_prefix "../" text || text == ".." then err outside else ok (join host_root text)

-- the path on the host of a path in the worker's container
unfoldable pub resolve_host_bind_path : String → String → String → Result PathError String
unfolding host_path
resolve_host_bind_path host_root container_root container_path =
    if host_root == "" || container_root == "" || container_path == ""
    then ok ""
    else host_path host_root (rel (path_of container_root) (path_of container_path))
