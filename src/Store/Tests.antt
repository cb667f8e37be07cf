-- ===== src/Store/Tests.antt =====
-- The store's theorems at small directories (pkg/server/pairing_store.go,
-- pkg/server/worker_config_store.go).
use mathlib.Core.List.{Perm}
use nano_cloud.Base.Sort.{IsSorted}
use nano_cloud.Base.{
  Bool-cases, inl, inr, eq_iff, String, Bool, true, false, some, List, [], ◌∷◌, ◌≡◌, ◌≢◌, refl,
  arith, ◌==◌,
}
use nano_cloud.Base.Map.{Map, lookup}
use nano_cloud.Base.Text.{apart}
use nano_cloud.Base.Result.{ok, err}
use nano_cloud.Store.Protocol.{pairing_completes, poll-reject}
use nano_cloud.Store.Approval.{approve_rejected}
use nano_cloud.Store.Listing.{list_workers-lists}
use nano_cloud.Store.Faults.{approve_loses_token, rotate_locks_out, delete_revokes}
use nano_cloud.Store.Workers.{
  or_absent, remove_worker, worker_before, forget_hash, decoded, read_worker, list_workers,
  validate_worker_token, delete_worker, rotate_worker_token, validate_hash,
}
use nano_cloud.Store.Pairing.{
  approve_pairing_request, reject_pairing_request, generate_user_code, create_pairing_request,
  poll_pairing_request, find_first, approve_pairing_request_by_code,
}
use nano_cloud.Store.Disk.{
  attempt, io, approved, request_not_pending, read_json, unauthorized, json, rejected, worker_file,
  Disk, PairingRequest, WorkerRecord, pending, Status,
}

-- a hash for the tests
abbrev plain : String → String
plain s = s

abbrev empty_disk : Disk
empty_disk = record { pairing_file = json []; index_file = json []; workers = []; faults = [] }

abbrev worker_one : WorkerRecord
worker_one = record {
  worker_id = "w1";
  worker_token_hash = "old";
  labels = [];
  created_at_unix = 1;
  updated_at_unix = 1;
}

abbrev one_index : Map String
one_index = ("old", "w1") ∷ []

abbrev one_disk : List Bool → Disk
one_disk faults = record {
  pairing_file = json [];
  index_file = json one_index;
  workers = ("w1", json worker_one) ∷ [];
  faults = faults;
}

abbrev request_in : Status → String → PairingRequest
request_in status token = record {
  id = "r1";
  user_code = "ABCDEF";
  secret_hash = "s1";
  worker_name = "box";
  host_info = "linux";
  labels = "gpu" ∷ [];
  status = status;
  created_at = 100;
  expires_at = 1000;
  worker_token = token;
}

abbrev request_disk : PairingRequest → List Bool → Disk
request_disk r faults = record {
  pairing_file = json (r ∷ []);
  index_file = json [];
  workers = [];
  faults = faults;
}

pairing_completes_example :
    let started : Disk =
      (create_pairing_request plain "box" "linux" []
        (some "s1")
        "r1"
        (0 ∷ 1 ∷ 2 ∷ 3 ∷ 4 ∷ 5 ∷ [])
        100
        empty_disk).1 in
    let granted : Disk =
      (approve_pairing_request_by_code plain
        (generate_user_code (0 ∷ 1 ∷ 2 ∷ 3 ∷ 4 ∷ 5 ∷ []))
        "w1"
        (some "t1")
        200
        started).1 in
    let (answer, polled) = poll_pairing_request plain "r1" "s1" 300 granted in
    (answer ≡ ok (approved, "t1")) × (validate_worker_token plain "t1" polled ≡ ok "w1")
unfolding worker_file find_first lookup
pairing_completes_example =
    pairing_completes plain "box" "linux" [] "s1" "r1" "w1" "t1" (0 ∷ 1 ∷ 2 ∷ 3 ∷ 4 ∷ 5 ∷ []) 100 []
      [] empty_disk 200 300 refl (record { readable = refl; reliable = refl }) refl refl
      (apart "w1" "" refl) refl (apart "t1" "" refl) (omega arith) (omega arith)

approve_rejected_example :
    (approve_pairing_request_by_code plain "ABCDEF" "w9"
        (some "t1")
        200
        (request_disk (request_in rejected "") [])
      ≡ (err request_not_pending, request_disk (request_in rejected "") []))
    × ((approve_pairing_request plain "r1" "w9"
          (some "t1")
          200
          (request_disk (request_in rejected "") [])).0
        ≡ ok tt)
    × (validate_hash "t1"
          (approve_pairing_request plain "r1" "w9"
            (some "t1")
            200
            (request_disk (request_in rejected "") [])).1
        ≡ ok "w9")
unfolding worker_file lookup find_first
approve_rejected_example =
    approve_rejected plain "w9" "t1" 200 (request_in rejected "") (request_in rejected "" ∷ []) []
      {d = request_disk (request_in rejected "") []} (record { readable = refl; reliable = refl })
      refl (λ late. omega arith) refl refl refl (apart "w9" "" refl) refl

poll-reject_example :
    poll_pairing_request plain "r1" "s1" 200
      (reject_pairing_request "r1" (request_disk (request_in approved "t1") [])).1
    ≡ (
      ok (rejected, "t1"),
      (reject_pairing_request "r1" (request_disk (request_in approved "t1") [])).1,
    )
unfolding find_first
poll-reject_example =
    poll-reject plain "r1" "s1" 200 (request_in approved "t1" ∷ []) (request_in approved "t1")
      (request_disk (request_in approved "t1") []) refl refl refl refl (λ late. omega arith)

list_workers-lists_example :
    Perm (list_workers (one_disk [])) (decoded (one_disk []).workers)
    × IsSorted worker_before (list_workers (one_disk []))
list_workers-lists_example = list_workers-lists (one_disk [])

approve_loses_token_example :
    let (answer, d') =
      approve_pairing_request_by_code plain "ABCDEF" "w9"
        (some "t1")
        200
        (request_disk (request_in pending "") (false ∷ false ∷ true ∷ [])) in
    (answer ≡ err io)
    × (d'.pairing_file ≡ json (request_in pending "" ∷ []))
    × (validate_hash "t1" d' ≡ ok "w9")
unfolding find_first worker_file lookup
approve_loses_token_example =
    approve_loses_token plain "w9" "t1" "ABCDEF" 200 (request_in pending "")
      (request_in pending "" ∷ []) []
      (request_disk (request_in pending "") (false ∷ false ∷ true ∷ [])) [] refl refl
      (λ late. omega arith) refl refl refl (apart "w9" "" refl) refl

rotate_locks_out_example :
    let (answer, d') =
      rotate_worker_token plain "w1" (some "new") 9 (one_disk (false ∷ true ∷ [])) in
    (answer ≡ err io)
    × (validate_hash "old" d' ≡ err unauthorized)
    × (validate_hash "new" d' ≡ err unauthorized)
unfolding worker_file lookup
rotate_locks_out_example =
    rotate_locks_out plain "w1" "new" 9 worker_one one_index (one_disk (false ∷ true ∷ [])) [] refl
      refl (apart "w1" "" refl) refl (apart "old" "" refl) (apart "new" "old" refl)

one_disk-names :
    (j : String) (rec : WorkerRecord) → worker_file (one_disk []) j ≡ json rec → rec.worker_id ≡ j
unfolding worker_file lookup
one_disk-names j rec here = elim (Bool-cases ("w1" == j)) [
  | inl same ↦
      let one : worker_one ≡ rec = ground (arith, same) in rw (← one) ((eq_iff "w1" j).0 same)
  | inr other ↦ absurd (ground (arith, other))
]

delete_revokes_example : validate_hash "old" (delete_worker "w1" (one_disk [])).1 ≢ ok "w1"
unfolding delete_worker read_worker worker_file lookup forget_hash remove_worker read_json or_absent
    attempt
delete_revokes_example = delete_revokes "w1" (one_disk []) one_disk-names refl "old"
