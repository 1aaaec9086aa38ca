-- ===== src/Access.antt =====
-- The checks of a member's role before an operation on an organization: membership_role in the
-- repositories, and _role or _require_role in the use cases of endpoints and deliveries; and the
-- audit rows that those operations add.
use webhook_delivery_platfor.Base.{
  ℕ, Bool, true, ◌&&◌, Option, none, some, List, [], ◌∷◌, String, ◌==◌, if◌then◌else◌,
}
use webhook_delivery_platfor.Schema.{Membership, Role, AuditEvent}
use webhook_delivery_platfor.Errors.{Result, ok, err, not_found_error, forbidden_error}

-- Who asks, when, and what the rows that the operation adds are called.
pub record Request : Type 0 where
  pub now : ℕ
  pub organization_id : ℕ
  pub user_id : ℕ
  pub request_id : Option String
  pub audit_id : ℕ

unfoldable pub membership_role : ℕ → ℕ → List Membership → Option Role
membership_role organization_id user_id [] = none
membership_role organization_id user_id (m ∷ t) =
    if m.organization_id == organization_id && m.user_id == user_id
    then some m.role
    else membership_role organization_id user_id t

-- `allowed` is the test of membership in the set of allowed roles.
unfoldable pub check_role : (Role → Bool) → Option Role → Result Role
check_role allowed none = err not_found_error
check_role allowed (some role) = if allowed role then ok role else err forbidden_error

-- {"owner", "admin", "member"}
abbrev pub any_role : Role → Bool
any_role role = true

unfoldable pub require_role : (Role → Bool) → Request → List Membership → Result Role
unfolding check_role membership_role
require_role allowed r memberships =
    check_role allowed (membership_role r.organization_id r.user_id memberships)

unfoldable pub audit : Request → String → String → ℕ → AuditEvent
audit r action resource_type resource_id = record {
  id = r.audit_id;
  created_at = r.now;
  organization_id = r.organization_id;
  actor_type = "user";
  actor_id = some r.user_id;
  action = action;
  resource_type = resource_type;
  resource_id = some resource_id;
  request_id = r.request_id;
}
