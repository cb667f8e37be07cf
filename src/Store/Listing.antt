-- ===== src/Store/Listing.antt =====
-- What the two lists show (ListPairingRequests of pkg/server/pairing_store.go, ListWorkers of
-- pkg/server/worker_config_store.go).
use mathlib.Core.List.{Perm}
use nano_cloud.Base.{ℕ, true, false, List, ◌≡◌, arith, ap, keep_if, map}
use nano_cloud.Base.Sort.{sort_slice, IsSorted, sort_slice-IsSorted, sort_slice-perm}
use nano_cloud.Base.Text.{text_lt-asym}
use nano_cloud.Store.Disk.{PairingRequest, WorkerRecord, json, Disk, read_json}
use nano_cloud.Store.Workers.{worker_before, decoded, list_workers}
use nano_cloud.Store.Pairing.{list_order, without_secrets, is_live, listed, list_pairing_requests}

list_order-asym : (x y : PairingRequest) → list_order x y ≡ true → list_order y x ≡ false
unfolding list_order
list_order-asym x y h = ground arith

list_lem :
    (now : ℕ) (reqs : List PairingRequest) (d : Disk)
    → d.pairing_file ≡ json reqs
    → list_pairing_requests now d
      ≡ sort_slice list_order (map without_secrets (keep_if (is_live now) reqs))
unfolding list_pairing_requests
list_lem now reqs d requested = ap (λ f. listed now (read_json f)) requested

-- The list of pairing requests shows, with token and secret hash blanked, the requests that have not
-- expired, each as often as the file has it and whatever its status, newest first.
pub list_pairing_requests-lists :
    (now : ℕ) (reqs : List PairingRequest) (d : Disk)
    → d.pairing_file ≡ json reqs
    → Perm (list_pairing_requests now d) (map without_secrets (keep_if (is_live now) reqs))
      × IsSorted list_order (list_pairing_requests now d)
list_pairing_requests-lists now reqs d requested = rw (list_lem now reqs d requested) (
  sort_slice-perm list_order (map without_secrets (keep_if (is_live now) reqs)),
  sort_slice-IsSorted list_order list_order-asym (map without_secrets (keep_if (is_live now) reqs)),
)

worker_before-asym : (x y : WorkerRecord) → worker_before x y ≡ true → worker_before y x ≡ false
unfolding worker_before
worker_before-asym x y h = ground (arith, text_lt-asym x.worker_id y.worker_id)

-- The list of workers shows the records of the files that decode, each once for its file, last
-- update first and then by id.
pub list_workers-lists :
    (d : Disk) → Perm (list_workers d) (decoded d.workers) × IsSorted worker_before (list_workers d)
unfolding list_workers
list_workers-lists d = (
  sort_slice-perm worker_before (decoded d.workers),
  sort_slice-IsSorted worker_before worker_before-asym (decoded d.workers),
)
