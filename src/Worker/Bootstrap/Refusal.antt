-- ===== src/Worker/Bootstrap/Refusal.antt =====
-- A worker that has paired, and the gateway that it connects to (pkg/worker/bootstrap_remote.go and
-- worker.go against handleWorkerConnect of pkg/server/server.go).
use nano_cloud.Base.{
  ℕ, String, Bool, false, Option, none, some, List, ◌≡◌, ◌≢◌, refl, sym, ap, ◌∙◌, arith, ◌==◌,
  eq_iff, Bool-cases, inl, inr,
}
use nano_cloud.Base.Result.{Result, ok, err}
use nano_cloud.Store.Disk.{Disk}
use nano_cloud.Store.Workers.{validate_worker_token}
use nano_cloud.Gateway.Messages.{get_worker_hello}
use nano_cloud.Gateway.State.{Gateway}
use nano_cloud.Gateway.Auth.{Environment, check_token}
use nano_cloud.Gateway.Connect.{session, worker_token_of, session_id, greet, connect}
use nano_cloud.Gateway.Connect.Binding.{expected-bound, connect-named}
use nano_cloud.Worker.Config.{Config}
use nano_cloud.Worker.Bootstrap.{
  BootstrapConfig, BootstrapState, ParsedUrl, BootError, PollReply, StartReply, BootHost, no_answer,
  failed_with, undecodable, accepted, enrolled, save_state, paired, pair,
  build_config_from_bootstrap, known_state, configured, obtain, http_base_url_from_relay_url,
  state_dir_of, bootstrap_from_remote, or_default, start_config, dial_request, hello, poll_until,
  polled, configured_or_wait, at_base,
}

-- the id that the worker has of its own: the saved one, or else the configured one
abbrev pub own_id : BootstrapState → BootstrapConfig → String
own_id saved boot = or_default boot.worker_id saved.worker_id

-- the id under which it connects
abbrev pub hello_id : String → BootstrapState → BootstrapConfig → String
hello_id fresh saved boot = or_default fresh (own_id saved boot)

known_state_id :
    (saved : BootstrapState) (boot : BootstrapConfig)
    → ((known_state saved boot).worker_id ≡ own_id saved boot)
      × ((known_state saved boot).worker_token ≡ saved.worker_token)
unfolding known_state
known_state_id saved boot = elim (Bool-cases (saved.worker_id == "")) [
  | inl unnamed ↦ rw unnamed (refl, refl)
  | inr named ↦ rw named (refl, refl)
]

configured-id :
    (boot : BootstrapConfig) (r : Result BootError BootstrapState) (id : String) (cfg : Config)
    → ((st : BootstrapState) → r ≡ ok st → st.worker_id ≡ id)
    → configured boot r ≡ ok cfg
    → cfg.worker_id ≡ id
unfolding configured build_config_from_bootstrap
configured-id boot (err e) id cfg same got = cc
configured-id boot (ok st) id cfg same got = ground (arith, got, same st refl)

paired-id :
    (written : Bool) (st st' : BootstrapState) (r : Result BootError String)
    → paired written st r ≡ ok st'
    → st'.worker_id ≡ st.worker_id
unfolding paired save_state
paired-id written st st' (err e) got = cc
paired-id written st st' (ok token) got = ground (arith, got)

polled-id :
    (written : Bool) (st st' : BootstrapState) (o : Option (Result BootError String))
    → polled written st o ≡ some (ok st')
    → st'.worker_id ≡ st.worker_id
unfolding polled
polled-id written st st' none got = cc
polled-id written st st' (some r) got = paired-id written st st' r (ground (arith, got))

-- a pairing leaves the id as it is
pair-id :
    (written : Bool) (st st' : BootstrapState) (start : StartReply) (polls : List PollReply)
    → pair written st start polls ≡ some (ok st')
    → st'.worker_id ≡ st.worker_id
unfolding pair
pair-id written st st' no_answer polls got = cc
pair-id written st st' (failed_with n) polls got = cc
pair-id written st st' undecodable polls got = cc
pair-id written st st' accepted polls got = polled-id written st st' (poll_until polls) got
pair-id written st st' (enrolled id token) polls got =
    polled-id written st st' (poll_until polls) got

configured_or_wait-id :
    (boot : BootstrapConfig) (o : Option (Result BootError BootstrapState)) (id : String)
    (cfg : Config)
    → ((st : BootstrapState) → o ≡ some (ok st) → st.worker_id ≡ id)
    → configured_or_wait boot o ≡ some (ok cfg)
    → cfg.worker_id ≡ id
unfolding configured_or_wait
configured_or_wait-id boot none id cfg same got = cc
configured_or_wait-id boot (some r) id cfg same got =
    configured-id boot r id cfg (λ st here. same st (ap some here)) (ground (arith, got))

obtain-id :
    (host : BootHost) (st : BootstrapState) (boot : BootstrapConfig) (start : StartReply)
    (polls : List PollReply) (cfg : Config)
    → boot.enroll_token ≡ ""
    → obtain host st boot start polls ≡ some (ok cfg)
    → cfg.worker_id ≡ st.worker_id
obtain-id host st boot start polls cfg no_enroll got = elim (Bool-cases (st.worker_token == "")) [
  | inr known ↦ unfold obtain build_config_from_bootstrap in ground (arith, got, known)
  | inl unknown ↦
      configured_or_wait-id boot (pair host.state_written st start polls) st.worker_id cfg
        (λ st' here. pair-id host.state_written st st' start polls here)
        (unfold obtain in ground (arith, got, unknown, no_enroll, eq_iff boot.enroll_token ""))
]

at_base-ok :
    (base : Result BootError String) (result : Option (Result BootError Config)) (cfg : Config)
    → at_base base result ≡ some (ok cfg)
    → result ≡ some (ok cfg)
unfolding at_base
at_base-ok (err e) result cfg got = cc
at_base-ok (ok base) result cfg got = got

-- Without an enrolment token, the worker keeps the id that it has of its own.
bootstrap-id :
    (host : BootHost) (saved : BootstrapState) (boot : BootstrapConfig) (url : Option ParsedUrl)
    (start : StartReply) (polls : List PollReply) (cfg : Config)
    → boot.enroll_token ≡ ""
    → bootstrap_from_remote host saved boot url start polls ≡ some (ok cfg)
    → cfg.worker_id ≡ own_id saved boot
bootstrap-id host saved boot url start polls cfg no_enroll got =
    let placed = record boot { state_dir = state_dir_of host boot } in
    let obtained : obtain host (known_state saved boot) placed start polls ≡ some (ok cfg) =
      at_base-ok (http_base_url_from_relay_url url) _ cfg
        (unfold bootstrap_from_remote in ground (arith, got)) in
    obtain-id host (known_state saved boot) placed start polls cfg no_enroll obtained
    ∙ (known_state_id saved boot).0

start-id :
    (fresh temp_dir : String) (cfg : Config)
    → (start_config fresh temp_dir cfg).worker_id ≡ or_default fresh cfg.worker_id
unfolding start_config
start-id fresh temp_dir cfg = refl

hello-session :
    (bound fresh id : String) (conn now seq : ℕ) (cfg : Config) (writes : List Bool) (g : Gateway)
    → cfg.worker_id ≢ ""
    → (greet bound fresh conn (hello cfg seq) now writes g).0 ≡ session id
    → id ≡ cfg.worker_id
unfolding greet hello session_id get_worker_hello
hello-session bound fresh id conn now seq cfg writes g named here =
    ground (arith, eq_iff cfg.worker_id "", eq_iff bound "", eq_iff cfg.worker_id bound)

connect-hello :
    (hash : String → String) (e : Environment) (fresh id bound : String) (conn now seq : ℕ)
    (cfg : Config) (writes : List Bool) (g : Gateway) (d : Disk)
    → check_token e (dial_request cfg) g ≡ false
    → validate_worker_token hash (worker_token_of (dial_request cfg)) d ≡ ok bound
    → cfg.worker_id ≢ ""
    → (connect hash e (dial_request cfg) fresh conn (some (hello cfg seq)) now writes g d).0
      ≡ session id
    → id ≡ cfg.worker_id
unfolding connect
connect-hello hash e fresh id bound conn now seq cfg writes g d stranger valid named here =
    elim (expected-bound hash e (dial_request cfg) g d bound stranger valid) [
      | inl nobody ↦ absurd (ground (arith, here, nobody))
      | inr expected ↦
          hello-session bound fresh id conn now seq cfg writes g named
            (ground (arith, here, expected))
    ]

module _ (hash : String → String) (e : Environment) (g : Gateway) (d : Disk) (host : BootHost)
    (saved : BootstrapState) (boot : BootstrapConfig) (url : Option ParsedUrl) (start : StartReply)
    (polls : List PollReply) (cfg : Config) (fresh temp_dir bound : String) where
  -- A worker without an enrolment token that gets through its bootstrap, by a pairing or with a
  -- saved token, and then connects without the gateway's own token, at a gateway that has one, with a
  -- worker token that is valid for another id than its own (the saved or configured one, or else the
  -- one that it makes up), gets no session from the gateway.
  pub paired_worker_refused :
      (fresh2 id : String) (conn now seq : ℕ) (writes : List Bool)
      → boot.enroll_token ≡ ""
      → bootstrap_from_remote host saved boot url start polls ≡ some (ok cfg)
      → check_token e (dial_request (start_config fresh temp_dir cfg)) g ≡ false
      → validate_worker_token hash
          (worker_token_of (dial_request (start_config fresh temp_dir cfg)))
          d
        ≡ ok bound
      → bound ≢ ""
      → hello_id fresh saved boot ≢ ""
      → hello_id fresh saved boot ≢ bound
      → (connect hash e
          (dial_request (start_config fresh temp_dir cfg))
          fresh2
          conn
          (some (hello (start_config fresh temp_dir cfg) seq))
          now
          writes
          g
          d).0
        ≢ session id
  paired_worker_refused fresh2 id conn now seq writes no_enroll got stranger valid named own other
        here =
      let started = start_config fresh temp_dir cfg in
      let same : started.worker_id ≡ hello_id fresh saved boot =
        start-id fresh temp_dir cfg
        ∙ ap (or_default fresh) (bootstrap-id host saved boot url start polls cfg no_enroll got) in
      let is_bound : id ≡ bound =
        connect-named hash e (dial_request started) fresh2 conn (some (hello started seq)) now
          writes g d bound id stranger valid named here in
      let is_own : id ≡ started.worker_id =
        connect-hello hash e fresh2 id bound conn now seq started writes g d stranger valid
          (λ blank. own (sym same ∙ blank)) here in
      other (sym same ∙ sym is_own ∙ is_bound)
