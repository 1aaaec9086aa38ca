-- ===== src/Organizations.antt =====
-- src/webhook_platform/organizations/application/use_cases.py over
-- src/webhook_platform/organizations/infrastructure/repository.py: the members of an organization. An
-- `err` is an exception before the commit, which leaves the database as it was.
pub mod Changes
pub mod Keys
pub mod Listings
pub mod Owners
use webhook_delivery_platfor.Base.{
  ℕ, Bool, true, false, not, ◌&&◌, Option, none, some, List, [], ◌∷◌, String, leb, ◌==◌,
  if◌then◌else◌, str_eq, strip, is_some, select, count, first, find, save, delete_row,
}
use webhook_delivery_platfor.Schema.{
  Database, User, Organization, Membership, Role, owner, admin, member, is_owner, organization_key,
  membership_key,
}
use webhook_delivery_platfor.Errors.{
  Exception, Result, ok, err, app_error, not_found_error, ◌>>=◌, ◌>>◌,
}
use webhook_delivery_platfor.Access.{Request, require_role, audit}
use webhook_delivery_platfor.Identity.{insert, user_by_email, membership_clashes}

abbrev role_error : Exception
role_error = app_error "invalid_role" "Role is invalid" 422

abbrev exists_error : Exception
exists_error = app_error "membership_exists" "Membership already exists" 409

abbrev pub last_owner_error : Exception
last_owner_error = app_error "last_owner" "Organization must retain an owner" 409

-- role in {"owner", "admin", "member"}, and the value that the column then holds.
unfoldable pub role_of : String → Option Role
role_of role =
    if str_eq role "owner"
    then some owner
    else if str_eq role "admin"
    then some admin
    else if str_eq role "member"
    then some member
    else none

-- repository.lock_organization, or NotFoundError.
unfoldable pub lock_organization : ℕ → Database → Result (Unit {0})
lock_organization organization_id db =
    if is_some (find organization_key organization_id db.organizations)
    then ok tt
    else err not_found_error

abbrev pub is_member : ℕ → ℕ → Membership → Bool
is_member organization_id user_id m = m.organization_id == organization_id && m.user_id == user_id

-- repository.membership
unfoldable pub membership : ℕ → ℕ → List Membership → Option Membership
membership organization_id user_id t = first (select (is_member organization_id user_id) t)

-- A row that was found, or NotFoundError.
unfoldable pub existing {ℓ} : {A : Type ℓ} → Option A → Result A
existing none = err not_found_error
existing (some a) = ok a

unfoldable pub valid_role : String → Result Role
unfolding role_of
valid_role role = elim (role_of role) [ none ↦ err role_error | some value ↦ ok value ]

-- except ValueError, which add_membership makes of the IntegrityError.
unfoldable pub or_exists {ℓ} : {A : Type ℓ} → Result A → Result A
or_exists (ok a) = ok a
or_exists (err raised) = err exists_error

-- What add_member returns.
pub record MemberView : Type 0 where
  pub user_id : ℕ
  pub email : String
  pub role : Role

abbrev new_membership : ℕ → Request → ℕ → Role → Membership
new_membership id r user_id role = record {
  id = id;
  created_at = r.now;
  organization_id = r.organization_id;
  user_id = user_id;
  role = role;
}

-- OrganizationUseCases.add_member; `id` is the key of the new row.
unfoldable pub add_member :
    (String → String) → Request → ℕ → String → String → Database → Result (Database × MemberView)
unfolding insert user_by_email
add_member casefold r id email role db = do
  locked ← lock_organization r.organization_id db
  acting ← require_role is_owner r db.memberships
  value ← valid_role role
  user ← existing (user_by_email (casefold (strip email)) db.users)
  let m : Membership = new_membership id r user.id value
  memberships ← or_exists (insert (membership_clashes m) m db.memberships)
  ok (
    record db {
      memberships = memberships;
      audits = audit r "membership.created" "membership" id ∷ db.audits;
    },
    record { user_id = user.id; email = user.email; role = value },
  )

abbrev pub owns : ℕ → Membership → Bool
owns organization_id m = m.organization_id == organization_id && is_owner m.role

-- repository.owner_count
unfoldable pub owner_count : ℕ → List Membership → ℕ
owner_count organization_id t = count (owns organization_id) t

-- The last owner keeps the role: `keeps` says that the owner would stay one.
unfoldable pub check_owner : ℕ → Membership → Bool → Database → Result (Unit {0})
unfolding owner_count
check_owner organization_id m keeps db =
    if is_owner m.role && not keeps && leb (owner_count organization_id db.memberships) 1
    then err last_owner_error
    else ok tt

-- OrganizationUseCases.change_member
unfoldable pub change_member : Request → ℕ → String → Database → Result Database
change_member r target_user_id role db = do
  locked ← lock_organization r.organization_id db
  acting ← require_role is_owner r db.memberships
  m ← existing (membership r.organization_id target_user_id db.memberships)
  checked ← check_owner r.organization_id m (str_eq role "owner") db
  value ← valid_role role
  ok (record db {
    memberships = save membership_key (record m { role = value }) db.memberships;
    audits = audit r "membership.updated" "membership" m.id ∷ db.audits;
  })

-- OrganizationUseCases.remove_member
unfoldable pub remove_member : Request → ℕ → Database → Result Database
remove_member r target_user_id db = do
  locked ← lock_organization r.organization_id db
  acting ← require_role is_owner r db.memberships
  m ← existing (membership r.organization_id target_user_id db.memberships)
  checked ← check_owner r.organization_id m false db
  ok (record db {
    memberships = delete_row membership_key m.id db.memberships;
    audits = audit r "membership.deleted" "membership" m.id ∷ db.audits;
  })
