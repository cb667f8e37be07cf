-- ===== src/Store/Polling.antt =====
-- PollPairingRequest (pkg/server/pairing_store.go): the secret guards the request, and a token is
-- handed over once.
use nano_cloud.Base.{
  ℕ, ◌<◌, String, Bool, true, none, some, List, [], ◌∷◌, ◌≡◌, ◌≢◌, ◌∙◌, refl, arith, eq_iff,
}
use nano_cloud.Base.Result.{ok, err}
use nano_cloud.Store.Disk.{
  unauthorized, not_found, io, approved, rejected, PairingRequest, json, Disk, bind_ok, bind_err,
  read_pairing, read_pairing_lem,
}
use nano_cloud.Store.Pairing.{
  find_or, find_or-some, find_or-none, find_first, remove_first, has_id, poll_pairing_request,
  poll_found,
}

-- The id that a poll names is that of at most one request: none is left once the first is removed.
abbrev pub IsUnique : String → List PairingRequest → Type 0
IsUnique id reqs = find_first (has_id id) (remove_first (has_id id) reqs) ≡ none

module _ (hash : String → String) (id secret : String) (now : ℕ) (reqs : List PairingRequest)
    (d : Disk) (requested : d.pairing_file ≡ json reqs) where
  pub poll_missing :
      find_first (has_id id) reqs ≡ none
      → poll_pairing_request hash id secret now d ≡ (err not_found, d)
  unfolding poll_pairing_request
  poll_missing absent =
      bind_ok read_pairing _ d (read_pairing_lem d requested)
      ∙ bind_err (find_or (find_first (has_id id) reqs)) _ d (find_or-none d absent)

module _ (hash : String → String) (id secret : String) (now : ℕ) (reqs : List PairingRequest)
    (d : Disk) (requested : d.pairing_file ≡ json reqs) where
  module _ (r : PairingRequest) (found : find_first (has_id id) reqs ≡ some r) where
    -- A wrong secret is answered by `unauthorized`, whatever the state of the request, and changes
    -- nothing.
    pub poll_wrong_secret :
        r.secret_hash ≢ hash secret
        → poll_pairing_request hash id secret now d ≡ (err unauthorized, d)
    unfolding poll_pairing_request
    poll_wrong_secret wrong =
        bind_ok read_pairing _ d (read_pairing_lem d requested)
        ∙ bind_ok (find_or (find_first (has_id id) reqs)) _ d (find_or-some d found)
        ∙ ground (arith, wrong, eq_iff r.secret_hash (hash secret))

    module _ (known : r.secret_hash ≡ hash secret) where
      poll_to_found : poll_pairing_request hash id secret now d ≡ poll_found hash id reqs r now d
      unfolding poll_pairing_request
      poll_to_found =
          bind_ok read_pairing _ d (read_pairing_lem d requested)
          ∙ bind_ok (find_or (find_first (has_id id) reqs)) _ d (find_or-some d found)
          ∙ ground (arith, known, eq_iff r.secret_hash (hash secret))

      pub poll_delivers :
          (r.expires_at < now → ⊥)
          → r.status ≡ approved
          → r.worker_token ≢ ""
          → d.faults ≡ []
          → poll_pairing_request hash id secret now d ≡ (
            ok (approved, r.worker_token),
            record d { pairing_file = json (remove_first (has_id id) reqs) },
          )
      unfolding poll_found
      poll_delivers in_time granted there reliable =
          poll_to_found
          ∙ ground (arith, in_time, granted, there, reliable, eq_iff r.worker_token "")

      -- A token is handed over once: a poll of an approved request in time, with the right secret
      -- and on a disk that does not fail, returns the token and takes the request away, so that any
      -- later poll of its id finds none.
      pub poll_delivers_once :
          (r.expires_at < now → ⊥)
          → r.status ≡ approved
          → r.worker_token ≢ ""
          → d.faults ≡ []
          → IsUnique id reqs
          → (other : String) (later : ℕ)
          → ((poll_pairing_request hash id secret now d).0 ≡ ok (approved, r.worker_token))
            × (poll_pairing_request hash id other later
                  (poll_pairing_request hash id secret now d).1
                ≡ (err not_found, (poll_pairing_request hash id secret now d).1))
      poll_delivers_once in_time granted there reliable unique other later =
          rw (poll_delivers in_time granted there reliable)
            (refl, poll_missing hash id other later (remove_first (has_id id) reqs) _ refl unique)

      -- A request that was approved and then rejected keeps its token: each poll of it in time, with
      -- the right secret, returns the token beside the status `rejected`, and changes nothing.
      pub poll_rejected_leaks :
          (r.expires_at < now → ⊥)
          → r.status ≡ rejected
          → poll_pairing_request hash id secret now d ≡ (ok (rejected, r.worker_token), d)
      unfolding poll_found
      poll_rejected_leaks in_time turned_down = poll_to_found ∙ ground (arith, in_time, turned_down)

      -- When the write that takes the request away fails, no token is returned and the request file
      -- is as it was.
      pub poll_failed_keeps :
          (rest : List Bool)
          → (r.expires_at < now → ⊥)
          → r.status ≡ approved
          → r.worker_token ≢ ""
          → d.faults ≡ true ∷ rest
          → poll_pairing_request hash id secret now d ≡ (err io, record d { faults = rest })
      unfolding poll_found
      poll_failed_keeps rest in_time granted there failing =
          poll_to_found ∙ ground (arith, in_time, granted, there, failing, eq_iff r.worker_token "")
