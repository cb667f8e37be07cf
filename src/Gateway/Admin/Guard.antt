-- ===== src/Gateway/Admin/Guard.antt =====
-- Who can change the data directory over the admin API (pkg/server/admin_handlers.go,
-- pairing_handlers.go).
use nano_cloud.Base.{ℕ, String, Option, ◌≡◌, refl, arith, inl, inr, ◌⊎◌}
use nano_cloud.Store.Workers.{rotate_worker_token, delete_worker}
use nano_cloud.Store.Pairing.{
  approve_pairing_request, approve_pairing_request_by_code, reject_pairing_request,
}
use nano_cloud.Gateway.Auth.{HttpRequest, AdminCheck, token_required, admin, require_admin}
use nano_cloud.Gateway.Auth.Access.{IsAdmin, require_admin_iff}
use nano_cloud.Gateway.Admin.{
  pairing_status, worker_status, call, admin_reject, admin_approve_by_code, admin_approve,
  admin_rotate_worker_token, admin_delete_worker, Reply, Server, as_admin,
}

not_admin :
    (c : AdminCheck) → (c ≡ admin → ⊥) → (c ≡ token_required) ⊎ (c ≡ AdminCheck.unauthorized)
not_admin token_required h = inl refl
not_admin AdminCheck.unauthorized h = inr refl
not_admin admin h = absurd (h refl)

as_admin-stranger :
    {A : Type 0} (r : HttpRequest) (now : ℕ) (body : Server → Reply A × Server) (s : Server)
    → (IsAdmin r now s.gateway → ⊥)
    → (as_admin r now body s).1.disk ≡ s.disk
unfolding as_admin
as_admin-stranger r now body s stranger =
    let refusal =
      not_admin (require_admin r now s.gateway).0
        (λ granted. stranger ((require_admin_iff r now s.gateway).0 granted)) in
    elim refusal [ inl unset ↦ ground (arith, unset) | inr unknown ↦ ground (arith, unknown) ]

-- Without the gateway token and without a console session, and for everybody where no gateway token is
-- set, the admin API deletes no worker, rotates no token, and approves and rejects no pairing request:
-- the data directory stays as it was.
pub admin-stranger :
    (hash : String → String) (r : HttpRequest) (now : ℕ) (id worker_id : String)
    (random : Option String) (s : Server)
    → (IsAdmin r now s.gateway → ⊥)
    → ((admin_delete_worker r now id s).1.disk ≡ s.disk)
      × ((admin_rotate_worker_token hash r now id random s).1.disk ≡ s.disk)
      × ((admin_approve hash r now id worker_id random s).1.disk ≡ s.disk)
      × ((admin_approve_by_code hash r now id worker_id random s).1.disk ≡ s.disk)
      × ((admin_reject r now id s).1.disk ≡ s.disk)
unfolding admin_delete_worker admin_rotate_worker_token admin_approve admin_approve_by_code
    admin_reject
admin-stranger hash r now id worker_id random s stranger = (
  as_admin-stranger r now (call worker_status (delete_worker id)) s stranger,
  as_admin-stranger r now (call worker_status (rotate_worker_token hash id random now)) s stranger,
  as_admin-stranger r now
      (call pairing_status (approve_pairing_request hash id worker_id random now)) s stranger,
  as_admin-stranger r now
      (call pairing_status (approve_pairing_request_by_code hash id worker_id random now)) s
      stranger,
  as_admin-stranger r now (call pairing_status (reject_pairing_request id)) s stranger,
)
