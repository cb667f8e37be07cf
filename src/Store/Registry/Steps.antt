-- ===== src/Store/Registry/Steps.antt =====
-- The operations of the store over the table that it stands for (pkg/server/worker_config_store.go,
-- pairing_store.go).
use nano_cloud.Base.{
  subst, String, Bool, true, false, Option, none, some, ◌≡◌, ◌≢◌, ◌↔◌, ◌∙◌, sym, ap, arith, ◌==◌,
  eq_iff, Bool-cases, Option-cases, inl, inr, if◌then◌else◌,
}
use nano_cloud.Base.Map.{Map, lookup}
use nano_cloud.Base.Result.{ok}
use nano_cloud.Store.Disk.{WorkerRecord, File, missing, json, Disk, worker_file}
use nano_cloud.Store.Workers.{validate_hash}
use nano_cloud.Store.Credentials.{
  entry, IsHealthy, validate_hash-entry, entry_of_some, entry_of_none, via,
}
use nano_cloud.Store.Registry.{Registry, assign, forget, Refines, IsFresh}

accepted_at :
    (h id w : String) (rec : WorkerRecord) (index : Map String) (files : String → File WorkerRecord)
    → lookup h index ≡ some w
    → w ≢ ""
    → files w ≡ json rec
    → rec.worker_token_hash ≡ h
    → entry h index files ≡ ok rec.worker_id
accepted_at h id w rec index files found named stored holds =
    entry_of_some h w index files found
    ∙ unfold via in
      ground (arith, named, eq_iff w "", stored, eq_iff rec.worker_token_hash h, holds)

-- A hash is accepted for a worker exactly if the table has it for that worker.
pub validate_hash_iff :
    {d : Disk} {m : Registry} (r : Refines d m) (h id : String)
    → (validate_hash h d ≡ ok id) ↔ (m id ≡ some h)
validate_hash_iff {d} {m} r h id =
    let as_entry = validate_hash-entry h r.index d r.healthy.readable in
    (
      λ accepted. elim (Option-cases (lookup h r.index)) [
        | inl absent ↦
            absurd
              (ground (arith, accepted, as_entry, entry_of_none h r.index (worker_file d) absent))
        | inr (w, found) ↦
            let known = (r.indexed h w).0 found in
            let (rec, stored, own, holds) = r.files w h known in
            let here =
              accepted_at h id w rec r.index (worker_file d) found (r.named w h known).0 stored
                holds in
            let same : w ≡ id = ground (arith, accepted, as_entry, here, own) in
            subst (λ w. m w ≡ some h) same known
      ],
      λ known.
          let (rec, stored, own, holds) = r.files id h known in
          as_entry
          ∙ accepted_at h id id rec r.index (worker_file d) ((r.indexed h id).1 known)
              (r.named id h known).0 stored holds
          ∙ ap ok own,
    )

-- whether that is the hash
unfoldable pub holds_hash : Option String → String → Bool
holds_hash none k = false
holds_hash (some h) k = h == k

holds_hash_iff : (o : Option String) (k : String) → (holds_hash o k ≡ true) ↔ (o ≡ some k)
unfolding holds_hash
holds_hash_iff none k = (λ m. cc, λ e. cc)
holds_hash_iff (some h) k = (λ m. ground (arith, m, eq_iff h k), λ e. ground (arith, e, eq_iff h k))

module _ {d : Disk} {m : Registry} (r : Refines d m) where
  one_holder : (h id w : String) → m id ≡ some h → m w ≡ some h → id ≡ w
  one_holder h id w first second =
      ground (arith, (r.indexed h id).1 first, (r.indexed h w).1 second)

  forget-indexed :
      (id h k w : String)
      → m id ≡ some h
      → ((if h == k then none else lookup k r.index) ≡ some w) ↔ (forget id m w ≡ some k)
  forget-indexed id h k w known = elim (Bool-cases (h == k)) [
    | inl same ↦ (
      λ found. absurd (ground (arith, found, same)),
      λ held. elim (Bool-cases (id == w)) [
        | inl here ↦ absurd (ground (arith, held, here))
        | inr there ↦
            let also : m w ≡ some h = ground (arith, held, there, eq_iff h k, same) in
            absurd (ground (arith, one_holder h id w known also, there, eq_iff id w))
      ],
    )
    | inr other ↦ (
      λ found.
          let mine = (r.indexed k w).0 (ground (arith, found, other)) in
          ground (arith, mine, known, eq_iff id w, eq_iff h k, other),
      λ held. ground (arith, other, (r.indexed k w).1 (ground (arith, held))),
    )
  ]

  assign-indexed :
      (id new k w : String)
      → IsFresh new m
      → ((if new == k then some id else if holds_hash (m id) k then none else lookup k r.index)
          ≡ some w)
        ↔ (assign id new m w ≡ some k)
  assign-indexed id new k w fresh = elim (Bool-cases (new == k)) [
    | inl same ↦ (
      λ found. ground (arith, found, same, eq_iff new k, eq_iff id w),
      λ held. elim (Bool-cases (id == w)) [
        | inl here ↦ ground (arith, same, here, eq_iff id w)
        | inr there ↦ absurd (fresh.unused w (ground (arith, held, there, same, eq_iff new k)))
      ],
    )
    | inr other ↦ elim (Bool-cases (holds_hash (m id) k)) [
      | inl old ↦ (
        λ found. absurd (ground (arith, found, other, old)),
        λ held. elim (Bool-cases (id == w)) [
          | inl here ↦ absurd (ground (arith, held, here, other, eq_iff new k))
          | inr there ↦
              let mine = (holds_hash_iff (m id) k).0 old in
              let also : m w ≡ some k = ground (arith, held, there) in
              absurd (ground (arith, one_holder k id w mine also, there, eq_iff id w))
        ],
      )
      | inr kept ↦ (
        λ found.
            let mine = (r.indexed k w).0 (ground (arith, found, other, kept)) in
            elim (Bool-cases (id == w)) [
              | inl here ↦
                  let old : m id ≡ some k =
                    subst (λ v. m v ≡ some k) (sym ((eq_iff id w).0 here)) mine in
                  absurd (ground (arith, (holds_hash_iff (m id) k).1 old, kept))
              | inr there ↦ ground (arith, mine, there)
            ],
        λ held. elim (Bool-cases (id == w)) [
          | inl here ↦ absurd (ground (arith, held, here, other, eq_iff new k))
          | inr there ↦
              let found = (r.indexed k w).1 (ground (arith, held, there)) in
              ground (arith, other, kept, found)
        ],
      )
    ]
  ]

  pub Refines-forget :
      (d' : Disk) (index' : Map String) (id h : String)
      → IsHealthy d' index'
      → m id ≡ some h
      → ((w : String) → worker_file d' w ≡ (if id == w then missing else worker_file d w))
      → ((k : String) → lookup k index' ≡ (if h == k then none else lookup k r.index))
      → Refines d' (forget id m)
  Refines-forget d' index' id h healthy known files found = record {
    index = index';
    healthy = healthy;
    files = λ w k held. elim (Bool-cases (id == w)) [
      | inl same ↦ absurd (ground (arith, held, same))
      | inr other ↦
          let (rec, stored, own, holds) = r.files w k (ground (arith, held, other)) in
          (rec, files w ∙ ground (arith, other, stored), own, holds)
    ];
    absent = λ w gone. elim (Bool-cases (id == w)) [
      | inl same ↦ files w ∙ ground (arith, same)
      | inr other ↦ files w ∙ ground (arith, other, r.absent w (ground (arith, gone, other)))
    ];
    indexed = λ k w. rw found (forget-indexed id h k w known);
    named = λ w k held. r.named w k (ground (arith, held));
  }

  pub Refines-assign :
      (d' : Disk) (index' : Map String) (id new : String) (rec' : WorkerRecord)
      → IsHealthy d' index'
      → id ≢ ""
      → IsFresh new m
      → rec'.worker_id ≡ id
      → rec'.worker_token_hash ≡ new
      → ((w : String) → worker_file d' w ≡ (if id == w then json rec' else worker_file d w))
      → ((k : String)
          → lookup k index' ≡ (
              if new == k then some id else if holds_hash (m id) k then none else lookup k r.index))
      → Refines d' (assign id new m)
  Refines-assign d' index' id new rec' healthy named fresh own hashed files found = record {
    index = index';
    healthy = healthy;
    files = λ w k held. elim (Bool-cases (id == w)) [
      | inl same ↦ (
        rec',
        files w ∙ ground (arith, same),
        own ∙ ground (arith, eq_iff id w, same),
        hashed ∙ ground (arith, held, same),
      )
      | inr other ↦
          let (rec, stored, mine, holds) = r.files w k (ground (arith, held, other)) in
          (rec, files w ∙ ground (arith, other, stored), mine, holds)
    ];
    absent = λ w gone. elim (Bool-cases (id == w)) [
      | inl same ↦ absurd (ground (arith, gone, same))
      | inr other ↦ files w ∙ ground (arith, other, r.absent w (ground (arith, gone, other)))
    ];
    indexed = λ k w. rw found (assign-indexed id new k w fresh);
    named = λ w k held. elim (Bool-cases (id == w)) [
      | inl same ↦ (
        λ blank. named (ground (arith, eq_iff id w, same, blank)),
        λ blank. fresh.some_text (ground (arith, held, same, blank)),
      )
      | inr other ↦ r.named w k (ground (arith, held, other))
    ];
  }
