-- ===== src/Organizations/Listings.antt =====
-- What an organization shows: list_organizations, get_organization, list_members and list_api_keys of
-- src/webhook_platform/organizations/application/use_cases.py, over the queries of
-- src/webhook_platform/organizations/infrastructure/repository.py.
use webhook_delivery_platfor.Base.{
  ℕ, true, ◌&&◌, Option, none, some, List, [], ◌∷◌, ◌++◌, String, ◌==◌, select, first, find, map,
}
use webhook_delivery_platfor.Schema.{
  Database, User, Organization, OrganizationStatus, Membership, Role, ApiKey, is_manager, user_key,
}
use webhook_delivery_platfor.Errors.{Result, ok, ◌>>=◌}
use webhook_delivery_platfor.Access.{Request, any_role, require_role}
use webhook_delivery_platfor.Paging.{Cursor, is_older, page}
use webhook_delivery_platfor.Organizations.{existing}

-- The dictionary of an organization and the user's role in it.
pub record OrganizationView : Type 0 where
  pub id : ℕ
  pub name : String
  pub status : OrganizationStatus
  pub role : Role

abbrev organization_view : Organization × Role → OrganizationView
organization_view row = record {
  id = row.0.id;
  name = row.0.name;
  status = row.0.status;
  role = row.1;
}

-- JOIN memberships ON organization_id, for one user.
unfoldable pub join_memberships :
    ℕ → List Organization → List Membership → List (Organization × Role)
join_memberships user_id [] ms = []
join_memberships user_id (o ∷ os) ms =
    map (λ (m : Membership). (o, m.role))
      (select (λ m. m.organization_id == o.id && m.user_id == user_id) ms)
    ++ join_memberships user_id os ms

abbrev organization_cursor : Organization × Role → Cursor
organization_cursor row = record { created_at = row.0.created_at; id = row.0.id }

-- OrganizationUseCases.list_organizations, over repository.organizations_for_user.
unfoldable pub list_organizations :
    ℕ → Option Cursor → ℕ → Database → List OrganizationView × Option (Organization × Role)
unfolding join_memberships
list_organizations user_id cursor limit db =
    let (rows, next) =
      page is_older organization_cursor (λ row. true) cursor limit
        (join_memberships user_id db.organizations db.memberships) in
    (map organization_view rows, next)

-- OrganizationUseCases.get_organization, over repository.organization.
unfoldable pub get_organization : ℕ → ℕ → Database → Result OrganizationView
unfolding join_memberships
get_organization organization_id user_id db = do
  row ← existing (
      first (
        select (λ (row : Organization × Role). row.0.id == organization_id)
          (join_memberships user_id db.organizations db.memberships)))
  ok (organization_view row)

pub record ListedMember : Type 0 where
  pub user_id : ℕ
  pub email : String
  pub role : Role

-- JOIN users ON user_id.
unfoldable pub join_users : List Membership → List User → List (Membership × User)
join_users [] us = []
join_users (m ∷ ms) us = elim (find user_key m.user_id us) [
  | none ↦ join_users ms us
  | some u ↦ (m, u) ∷ join_users ms us
]

abbrev member_cursor : Membership × User → Cursor
member_cursor row = record { created_at = row.0.created_at; id = row.0.id }

abbrev listed_member : Membership × User → ListedMember
listed_member row = record { user_id = row.1.id; email = row.1.email; role = row.0.role }

-- OrganizationUseCases.list_members, over repository.members.
unfoldable pub list_members :
    Request → Option Cursor → ℕ → Database → Result (List ListedMember × Option (Membership × User))
unfolding join_users
list_members r cursor limit db = do
  acting ← require_role any_role r db.memberships
  let found =
      page is_older member_cursor (λ row. row.0.organization_id == r.organization_id) cursor limit
        (join_users db.memberships db.users)
  ok (map listed_member found.0, found.1)

-- _key_view
pub record KeyView : Type 0 where
  pub id : ℕ
  pub name : String
  pub prefix : String
  pub scopes : List String
  pub revoked_at : Option ℕ
  pub created_at : ℕ

abbrev key_view : ApiKey → KeyView
key_view k = record {
  id = k.id;
  name = k.name;
  prefix = k.prefix;
  scopes = k.scopes;
  revoked_at = k.revoked_at;
  created_at = k.created_at;
}

abbrev key_cursor : ApiKey → Cursor
key_cursor k = record { created_at = k.created_at; id = k.id }

-- OrganizationUseCases.list_api_keys, over repository.api_keys.
unfoldable pub list_api_keys :
    Request → Option Cursor → ℕ → Database → Result (List KeyView × Option ApiKey)
list_api_keys r cursor limit db = do
  acting ← require_role is_manager r db.memberships
  let found =
      page is_older key_cursor (λ k. k.organization_id == r.organization_id) cursor limit
        db.api_keys
  ok (map key_view found.0, found.1)
