-- ===== src/Identity/Users.antt =====
-- src/webhook_platform/identity/application/use_cases.py over
-- src/webhook_platform/identity/infrastructure/repository.py: users and their registration. An `err`
-- is an exception before the commit.
use webhook_delivery_platfor.Base.{
  ℕ, Bool, true, ◌&&◌, ◌||◌, Option, none, some, List, ◌∷◌, String, ◌==◌, if◌then◌else◌, str_eq,
  strip, is_some, select, first,
}
use webhook_delivery_platfor.Schema.{
  Database, User, Organization, OrganizationStatus, Membership, owner,
}
use webhook_delivery_platfor.Errors.{Exception, Result, ok, err, app_error, integrity_error, ◌>>=◌}

-- IdentitySecurity, the port of identity/application/security.py, and str.casefold.
pub record IdentitySecurity : Type 0 where
  pub casefold : String → String
  pub hash_password : String → String
  pub verify_password : String → String → Bool
  pub create_access_token : ℕ → String × ℕ
  pub token_hash : String → String

abbrev pub email_taken_error : Exception
email_taken_error = app_error "email_already_registered" "Email is already registered" 409

abbrev pub credentials_error : Exception
credentials_error = app_error "invalid_credentials" "Invalid email or password" 401

abbrev pub refresh_error : Exception
refresh_error = app_error "invalid_refresh_token" "Refresh token is invalid" 401

abbrev pub reused_error : Exception
reused_error = app_error "refresh_token_reused" "Refresh token reuse detected" 401

abbrev pub token_error : Exception
token_error = app_error "invalid_token" "Authentication required" 401

-- session.add and flush: a row that breaks a unique constraint raises IntegrityError. `clashes` says
-- which rows the new one may not stand beside.
unfoldable pub insert {ℓ} : {A : Type ℓ} → (A → Bool) → A → List A → Result (List A)
insert clashes r t = elim (first (select clashes t)) [
  | none ↦ ok (r ∷ t)
  | some other ↦ err integrity_error
]

-- normalized = email.strip().casefold()
abbrev pub normalize : IdentitySecurity → String → String
normalize security email = security.casefold (strip email)

-- repository.user_by_email
unfoldable pub user_by_email : String → List User → Option User
user_by_email email t = first (select (λ u. str_eq u.email email) t)

-- The keys of the rows that a registration adds, and its time.
pub record RegistrationIds : Type 0 where
  pub now : ℕ
  pub user_id : ℕ
  pub organization_id : ℕ
  pub membership_id : ℕ

-- What the views of a registration are made of.
pub record Registration : Type 0 where
  pub user : User
  pub organization : Organization
  pub membership : Membership

abbrev pub new_registration : RegistrationIds → String → String → String → Registration
new_registration ids email password_hash organization_name = record {
  user = record {
    id = ids.user_id;
    created_at = ids.now;
    email = email;
    password_hash = password_hash;
    active = true;
  };
  organization = record {
    id = ids.organization_id;
    created_at = ids.now;
    name = organization_name;
    status = OrganizationStatus.active;
  };
  membership = record {
    id = ids.membership_id;
    created_at = ids.now;
    organization_id = ids.organization_id;
    user_id = ids.user_id;
    role = owner;
  };
}

-- The unique constraint on (organization_id, user_id), and the primary key.
abbrev pub membership_clashes : Membership → Membership → Bool
membership_clashes m other =
    other.id == m.id || (other.organization_id == m.organization_id && other.user_id == m.user_id)

-- repository.create_registration
unfoldable pub create_registration : Registration → Database → Result Database
unfolding insert
create_registration row db = do
  users ← insert (λ u. u.id == row.user.id || str_eq u.email row.user.email) row.user db.users
  organizations ← insert (λ o. o.id == row.organization.id) row.organization db.organizations
  memberships ← insert (membership_clashes row.membership) row.membership db.memberships
  ok (record db { users = users; organizations = organizations; memberships = memberships })

-- IdentityUseCases.register
unfoldable pub register :
    IdentitySecurity
    → RegistrationIds
    → String
    → String
    → String
    → Database
    → Result (Database × Registration)
unfolding user_by_email create_registration
register security ids email password organization_name db =
    if is_some (user_by_email (normalize security email) db.users)
    then err email_taken_error
    else (let row =
          new_registration ids (normalize security email) (security.hash_password password)
            (strip organization_name) in
        do db' ← create_registration row db; ok (db', row))
