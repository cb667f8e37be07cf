-- ===== src/Worker/Run/Network.antt =====
-- The docker network of a run behind an allowlist (pkg/worker/worker.go, handleRunRequest): what a
-- handler that nobody cancels still owes to docker.
pub mod Guarded
pub mod Released
use Prim.Native.String
use nano_cloud.Base.{
  String, Bool, true, false, not, ◌&&◌, ◌||◌, Option, none, some, List, [], ◌∷◌, ◌≡◌, ◌≢◌, refl,
  arith, ◌==◌, eq_refl, if◌then◌else◌, Bool-cases, inl, inr,
}
use nano_cloud.Base.Int.{ℤ}
use nano_cloud.Base.Result.{Result, ok, err}
use nano_cloud.Base.Text.{trim_space}
use nano_cloud.Worker.Adapter.{DockerRunSpec}
use nano_cloud.Worker.Docker.{docker_run_args}
use nano_cloud.Worker.Run.Program.{
  Program, stop, send, look, put, claim, docker, host, read_env_file, wait_command, CliReply,
  Failure, DockerProcess, on_error, on_result, unregister,
}
use nano_cloud.Worker.Run.Commands.{
  docker_network_create_internal, docker_network_remove, docker_network_connect, docker_remove,
  docker_run, docker_wait, run_again, is_conflict, started, tolerate, wait_code,
}
use nano_cloud.Worker.Run.Handler.{give_up, complete, unless_interrupted}
use nano_cloud.Worker.Run.Alone.{
  IsCalm, IsCalmReply, IsCalmResult, tolerate-IsCalm, started-IsCalm, wait_code-IsCalm,
}

-- the arguments after `network` that remove it
unfoldable pub is_rm : String → List String → Bool
is_rm name [] = false
is_rm name (sub ∷ []) = false
is_rm name (sub ∷ target ∷ []) = sub == "rm" && target == name
is_rm name (sub ∷ target ∷ more ∷ rest) = false

-- Whether the network is owed to docker after a command: a container that runs owes it, and its removal
-- pays.
unfoldable pub owed_after : String → Bool → List String → Bool
owed_after name owed [] = owed
owed_after name owed (verb ∷ args) =
    if verb == "run" then true else if verb == "network" && is_rm name args then false else owed

-- The same after all that was asked, the newest first.
unfoldable pub owed : String → List (List String × CliReply) → Bool
owed name [] = false
owed name ((args, r) ∷ earlier) = owed_after name (owed name earlier) args

-- Where the run is not cancelled and `done` is as given, the program pays what is owed before its end.
abbrev pub Pays : String → Bool → Bool → Program → Type 0
Pays name d o stop = o ≡ false
Pays name d o (send e k) = Pays name d o k
Pays name d o (look k) = (st : _) → st.cancelled ≡ false → st.done ≡ d → Pays name d o (k st)
Pays name d o (put f k) =
    ((st : _) → ((f st).done ≡ st.done) × ((f st).cancelled ≡ st.cancelled)) × Pays name d o k
Pays name d o (claim k) = Pays name true o (k (not d))
Pays name d o (docker args k) = (r : _) → IsCalmReply r → Pays name d (owed_after name o args) (k r)
Pays name d o (host call k) = (r : _) → IsCalm r → Pays name d o (k r)
Pays name d o (read_env_file path k) = (r : _) → Pays name d o (k r)
Pays name d o (wait_command k) = (r : _) → Pays name d o (k r)

module _ (name : String) where
  pub give_up-Pays :
      {A : Type 0} (code message : String) (exit_code : _) (k : A → Program)
      → Pays name false false (give_up code message exit_code k)
  unfolding give_up
  give_up-Pays code message exit_code k = ((λ st. (refl, refl)), refl)

  pub complete-Pays : (code : ℤ) → Pays name false false (complete code)
  unfolding complete
  complete-Pays code = ((λ st. (refl, refl)), refl)

  pub branches :
      (o b : Bool) (p q : Program)
      → Pays name false o p
      → Pays name false o q
      → Pays name false o (if b then p else q)
  branches o true p q left right = left
  branches o false p q left right = right

  pub on_error-Pays :
      (o : Bool) (r : Option Failure) (failed : Failure → Program) (k : Program)
      → IsCalm r
      → ((f : Failure) → f.canceled ≡ false → Pays name false o (failed f))
      → Pays name false o k
      → Pays name false o (on_error r failed k)
  unfolding on_error
  on_error-Pays o none failed k calm bad rest = rest
  on_error-Pays o (some f) failed k calm bad rest = bad f calm

  pub on_result-Pays :
      {A : Type 0} (o : Bool) (r : Result Failure A) (failed : Failure → Program) (k : A → Program)
      → IsCalmResult r
      → ((f : Failure) → f.canceled ≡ false → Pays name false o (failed f))
      → ((a : A) → Pays name false o (k a))
      → Pays name false o (on_result r failed k)
  unfolding on_result
  on_result-Pays o (ok a) failed k calm bad rest = rest a
  on_result-Pays o (err f) failed k calm bad rest = bad f calm

  pub unless_interrupted-Pays :
      (o canceled : Bool) (k : Unit {0} → Program)
      → canceled ≡ false
      → Pays name false o (k tt)
      → Pays name false o (unless_interrupted canceled k)
  unfolding unless_interrupted
  unless_interrupted-Pays o canceled k calm rest st running open_yet =
      rw (running, open_yet, calm) rest

  pub docker_remove-Pays :
      (o : Bool) (container : String) (k : Option Failure → Program)
      → ((r : Option Failure) → Pays name false o (k r))
      → Pays name false o (docker_remove container k)
  unfolding docker_remove owed_after
  docker_remove-Pays o container k rest =
      branches o (trim_space container == "") _ _ (rest none) (λ r calm. rest _)

  -- the removal pays
  pub docker_network_remove-Pays :
      (o : Bool) (k : Option Failure → Program)
      → (trim_space name == "") ≡ false
      → ((r : Option Failure) → Pays name false false (k r))
      → Pays name false o (docker_network_remove name k)
  unfolding docker_network_remove owed_after is_rm
  docker_network_remove-Pays o k filled rest = rw filled (λ r calm. rw eq_refl (rest _))

  pub docker_network_create-Pays :
      (o : Bool) (k : Option Failure → Program)
      → ((r : Option Failure) → IsCalm r → Pays name false o (k r))
      → Pays name false o (docker_network_create_internal name k)
  unfolding docker_network_create_internal owed_after is_rm
  docker_network_create-Pays o k rest =
      branches o (trim_space name == "") _ _ (rest none tt) (λ r calm.
        rest _ (tolerate-IsCalm "docker network create" "already exists" "already exists" r calm))

  pub docker_network_connect-Pays :
      (o : Bool) (network container : String) (k : Option Failure → Program)
      → ((r : Option Failure) → IsCalm r → Pays name false o (k r))
      → Pays name false o (docker_network_connect network container k)
  unfolding docker_network_connect owed_after is_rm
  docker_network_connect-Pays o network container k rest =
      branches o (trim_space network == "" || trim_space container == "") _ _ (rest none tt)
        (λ r calm.
          rest _
            (tolerate-IsCalm "docker network connect" "already exists" "already connected" r calm))

  pub docker_run-Pays :
      (o : Bool) (spec : DockerRunSpec) (k : Result Failure DockerProcess → Program)
      → ((r : Result Failure DockerProcess) → IsCalmResult r → Pays name false true (k r))
      → Pays name false o (docker_run spec k)
  unfolding docker_run run_again docker_run_args owed_after
  docker_run-Pays o spec k rest reply calm =
      branches true (is_conflict spec.name reply) _ _
        (docker_remove-Pays true spec.name _
          (λ r again still. rest (started spec.name again) (started-IsCalm spec.name again still)))
        (rest (started spec.name reply) (started-IsCalm spec.name reply calm))

  pub docker_wait-Pays :
      (o : Bool) (container : String) (k : Result Failure ℤ → Program)
      → ((r : Result Failure ℤ) → IsCalmResult r → Pays name false o (k r))
      → Pays name false o (docker_wait container k)
  unfolding docker_wait owed_after
  docker_wait-Pays o container k rest r calm = rest (wait_code r) (wait_code-IsCalm r calm)
