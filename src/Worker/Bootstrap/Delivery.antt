-- ===== src/Worker/Bootstrap/Delivery.antt =====
-- The polls of a worker that pairs, answered by the gateway (pkg/worker/bootstrap_remote.go against
-- handleWorkerPairingStatus of pkg/server/pairing_handlers.go).
use Prim.Native.String
use nano_cloud.Base.{
  ℕ, ◌<◌, String, Bool, true, false, none, some, List, [], ◌∷◌, ◌≡◌, ◌≢◌, refl, sym, ap, ◌∙◌, arith,
  ◌==◌, eq_iff, if◌then◌else◌, Bool-cases, inl, inr,
}
use nano_cloud.Base.Result.{ok, err}
use nano_cloud.Base.Text.{trim_space, trim_prefix}
use nano_cloud.Base.Text.Affix.{has_prefix-append, trim_prefix-append}
use nano_cloud.Store.Disk.{
  Status, pending, approved, rejected, expired, PairingRequest, json, not_found, Error, Exec,
}
use nano_cloud.Store.Pairing.{find_first, has_id, poll_pairing_request}
use nano_cloud.Store.Polling.{IsUnique, poll_delivers_once}
use nano_cloud.Gateway.Auth.{HttpRequest, has_bearer, parse_bearer_token}
use nano_cloud.Gateway.Admin.{
  Reply, reply, bad_request, unauthorized_401, not_found_404, internal_error, unavailable, Server,
  call, poll_status, worker_pairing_status,
}
use nano_cloud.Worker.Bootstrap.{
  PollReply, nothing, http, answer, BootError, poll_result, poll_until,
}

-- the statuses as the gateway writes them
unfoldable pub status_text : Status → String
status_text pending = "pending"
status_text approved = "approved"
status_text rejected = "rejected"
status_text expired = "expired"

-- a reply of the gateway as the worker reads it
unfoldable pub read_reply : Reply (Status × String) → PollReply
unfolding status_text
read_reply (reply (status, token)) = answer (status_text status) token
read_reply bad_request = http 400
read_reply unauthorized_401 = http 401
read_reply not_found_404 = http 404
read_reply internal_error = http 500
read_reply unavailable = http 503

-- the request of a poll
unfoldable pub poll_request : String → HttpRequest
poll_request secret = record {
  authorization = String.◌++◌ "Bearer " secret;
  x_gateway_token = "";
  x_worker_token = "";
  query_token = "";
  cookie = none;
}

-- a poll, and what the worker reads of it: nothing where the reply is lost
unfoldable pub poll_once :
    (String → String) → String → String → ℕ → Bool → Server → PollReply × Server
unfolding poll_request worker_pairing_status read_reply
poll_once hash id secret now arrives s =
    let (got, s1) = worker_pairing_status hash (poll_request secret) now id s in
    (if arrives then read_reply got else nothing, s1)

-- the header is more than its prefix
longer : (secret : String) → secret ≢ "" → (String.◌++◌ "Bearer " secret == "Bearer ") ≡ false
longer secret there = elim (Bool-cases (String.◌++◌ "Bearer " secret == "Bearer ")) [
  | inl same ↦
      let whole = (eq_iff (String.◌++◌ "Bearer " secret) "Bearer ").0 same in
      let bare : trim_prefix "Bearer " "Bearer " ≡ "" = unfold trim_prefix in refl in
      absurd (
        there (sym (trim_prefix-append "Bearer " secret) ∙ ap (trim_prefix "Bearer ") whole ∙ bare))
  | inr other ↦ other
]

request-bearer :
    (secret : String)
    → trim_space secret ≡ secret
    → secret ≢ ""
    → parse_bearer_token (poll_request secret) ≡ secret
unfolding parse_bearer_token has_bearer poll_request
request-bearer secret trimmed there =
    rw
      (has_prefix-append "Bearer " secret, trim_prefix-append "Bearer " secret, longer secret there)
      trimmed

status-answer :
    (hash : String → String) (id secret : String) (now : ℕ) (s : Server)
    → trim_space secret ≡ secret
    → secret ≢ ""
    → worker_pairing_status hash (poll_request secret) now id s
      ≡ call poll_status (poll_pairing_request hash id secret now) s
unfolding worker_pairing_status
status-answer hash id secret now s trimmed there =
    rw (request-bearer secret trimmed there) (ground (arith, there, eq_iff secret ""))

call-ok :
    {A : Type 0} (status : Error → Reply A) (run : Exec A) (s : Server) (a : A)
    → (run s.disk).0 ≡ ok a
    → (call status run s).0 ≡ reply a
unfolding call
call-ok status run s a told = rw told refl

call-err :
    {A : Type 0} (status : Error → Reply A) (run : Exec A) (s : Server) (e : Error)
    → (run s.disk).0 ≡ err e
    → (call status run s).0 ≡ status e
unfolding call
call-err status run s e told = rw told refl

module _ (hash : String → String) (id secret : String) (trimmed : trim_space secret ≡ secret)
    (text : secret ≢ "") (now : ℕ) (s : Server) where
  poll_once-answer :
      (status : Status) (token : String)
      → (poll_pairing_request hash id secret now s.disk).0 ≡ ok (status, token)
      → (poll_once hash id secret now true s).0 ≡ answer (status_text status) token
  unfolding poll_once
  poll_once-answer status token told =
      rw
        (
          status-answer hash id secret now s trimmed text,
          call-ok poll_status (poll_pairing_request hash id secret now) s (status, token) told,
        )
        (unfold read_reply in refl)

  poll_once-missing :
      (poll_pairing_request hash id secret now s.disk).0 ≡ err not_found
      → (poll_once hash id secret now true s).0 ≡ http 404
  unfolding poll_once
  poll_once-missing told =
      rw
        (
          status-answer hash id secret now s trimmed text,
          call-err poll_status (poll_pairing_request hash id secret now) s not_found told,
        )
        (unfold read_reply poll_status in refl)

  poll_once-disk :
      (arrives : Bool)
      → (poll_once hash id secret now arrives s).1.disk
        ≡ (poll_pairing_request hash id secret now s.disk).1
  unfolding poll_once call
  poll_once-disk arrives = rw (status-answer hash id secret now s trimmed text) refl

  poll_once-lost : (poll_once hash id secret now false s).0 ≡ nothing
  unfolding poll_once
  poll_once-lost = refl

module _ (hash : String → String) (id secret : String) (now later : ℕ) (s : Server)
    (reqs : List PairingRequest) (r : PairingRequest) (rest : List PollReply) where
  -- A poll of an approved request in time, with the right secret and where no write fails, ends the
  -- worker's pairing with the token where the reply arrives. Where it is lost, the next poll that is
  -- answered ends the pairing with `not found`, and the token is gone.
  pub token_delivery :
      s.disk.pairing_file ≡ json reqs
      → find_first (has_id id) reqs ≡ some r
      → r.secret_hash ≡ hash secret
      → (r.expires_at < now → ⊥)
      → r.status ≡ approved
      → r.worker_token ≢ ""
      → s.disk.faults ≡ []
      → IsUnique id reqs
      → trim_space secret ≡ secret
      → secret ≢ ""
      → (poll_until ((poll_once hash id secret now true s).0 ∷ rest) ≡ some (ok r.worker_token))
        × (poll_until (
              (poll_once hash id secret now false s).0
              ∷ (poll_once hash id secret later true (poll_once hash id secret now false s).1).0
              ∷ rest)
            ≡ some (err BootError.not_found))
  token_delivery requested found known in_time granted there reliable unique trimmed text =
      let (first, second) =
        poll_delivers_once hash id secret now reqs s.disk requested r found known in_time granted
          there reliable unique secret later in
      let s1 = (poll_once hash id secret now false s).1 in
      let same_disk = poll_once-disk hash id secret trimmed text now s false in
      let gone : (poll_pairing_request hash id secret later s1.disk).0 ≡ err not_found =
        rw same_disk (ap (λ p. p.0) second) in
      (
        rw (poll_once-answer hash id secret trimmed text now s approved r.worker_token first)
            (unfold poll_until poll_result status_text in refl),
        rw
            (
              poll_once-lost hash id secret trimmed text now s,
              poll_once-missing hash id secret trimmed text later s1 gone,
            )
            (unfold poll_until poll_result in refl),
      )
