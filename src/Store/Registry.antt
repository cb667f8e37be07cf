-- ===== src/Store/Registry.antt =====
-- The store as a registry of workers and token hashes (pkg/server/worker_config_store.go and
-- pairing_store.go): what it keeps in an index and a file for each worker is one table.
pub mod Steps
pub mod History
mod Tests
use nano_cloud.Base.{String, Option, none, some, ◌≡◌, ◌≢◌, ◌↔◌, ◌==◌, if◌then◌else◌}
use nano_cloud.Base.Map.{Map, lookup}
use nano_cloud.Store.Disk.{WorkerRecord, File, missing, json, Disk, worker_file}
use nano_cloud.Store.Credentials.{IsHealthy}

-- the hash of each worker's token
abbrev pub Registry : Type 0
Registry = String → Option String

abbrev pub nobody : Registry
nobody id = none

abbrev pub assign : String → String → Registry → Registry
assign id h m at_id = if id == at_id then some h else m at_id

abbrev pub forget : String → Registry → Registry
forget id m at_id = if id == at_id then none else m at_id

-- the file of a worker holds the hash
abbrev pub Holds : File WorkerRecord → String → String → Type 0
Holds f id h =
    (rec : WorkerRecord) × (f ≡ json rec) × (rec.worker_id ≡ id) × (rec.worker_token_hash ≡ h)

-- the directory stands for the table
pub record Refines (d : Disk) (m : Registry) : Type 0 where
  pub index : Map String
  pub healthy : IsHealthy d index
  pub files : (id h : String) → m id ≡ some h → Holds (worker_file d id) id h
  pub absent : (id : String) → m id ≡ none → worker_file d id ≡ missing
  pub indexed : (h id : String) → (lookup h index ≡ some id) ↔ (m id ≡ some h)
  pub named : (id h : String) → m id ≡ some h → (id ≢ "") × (h ≢ "")

-- a hash that no worker has
pub record IsFresh (h : String) (m : Registry) : Type 0 where
  pub some_text : h ≢ ""
  pub unused : (id : String) → m id ≢ some h
