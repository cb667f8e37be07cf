-- ===== src/Store/Registry/Tests.antt =====
-- The store as a registry, at a request that is approved and a token that is rotated
-- (pkg/server/pairing_store.go, worker_config_store.go).
use nano_cloud.Base.{String, some, [], ◌∷◌, ◌≡◌, ◌↔◌, refl, arith}
use nano_cloud.Base.Text.{apart}
use nano_cloud.Base.Result.{ok}
use nano_cloud.Store.Disk.{PairingRequest, pending, json, Disk}
use nano_cloud.Store.Workers.{validate_hash, rotate_worker_token}
use nano_cloud.Store.Pairing.{approve_pairing_request_by_code, find_first}
use nano_cloud.Store.Registry.{Registry, nobody, assign, IsFresh}
use nano_cloud.Store.Registry.History.{
  History, new_disk, opened, requested, approved_by_code, token_rotated, History-validate,
}

abbrev hashed : String → String
hashed s = s

abbrev asked : PairingRequest
asked = record {
  id = "p1";
  user_code = "ABCD";
  secret_hash = "s";
  worker_name = "host";
  host_info = "linux/amd64";
  labels = [];
  status = pending;
  worker_token = "";
  created_at = 1;
  expires_at = 901;
}

abbrev asked_disk : Disk
asked_disk = record new_disk { pairing_file = json (asked ∷ []) }

abbrev approved_state : Disk
approved_state = (approve_pairing_request_by_code hashed "ABCD" "w1" (some "t1") 5 asked_disk).1

abbrev one_worker : Registry
one_worker = assign "w1" "t1" nobody

IsFresh-first : IsFresh "t1" nobody
IsFresh-first = record { some_text = apart "t1" "" refl; unused = λ id e. cc }

IsFresh-second : IsFresh "t2" one_worker
IsFresh-second = record {
  some_text = apart "t2" "" refl;
  unused = λ id e. apart "t2" "t1" refl (ground (arith, e));
}

approved_History : History hashed approved_state one_worker
unfolding find_first
approved_History =
    approved_by_code "ABCD" "w1" "t1" 5 asked (asked ∷ []) (requested (json (asked ∷ [])) opened)
      refl (λ late. omega (arith, late)) refl refl (apart "w1" "" refl) refl IsFresh-first

History-validate_example :
    (validate_hash "t2" (rotate_worker_token hashed "w1" (some "t2") 7 approved_state).1 ≡ ok "w1")
    ↔ (assign "w1" "t2" one_worker "w1" ≡ some "t2")
History-validate_example =
    History-validate hashed (rotate_worker_token hashed "w1" (some "t2") 7 approved_state).1
      (assign "w1" "t2" one_worker) "t2" "w1"
      (token_rotated "w1" "t2" "t1" 7 approved_History refl IsFresh-second)
