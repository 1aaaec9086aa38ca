-- ===== src/Organizations/Changes.antt =====
-- What an operation on the members has found, checked and written when it returns.
use webhook_delivery_platfor.Base.{
  ℕ, ◌≡◌, refl, subst, sym, ap, ◌∙◌, false, ◌||◌, none, some, List, ◌∷◌, String, inl, inr, arith,
  Bool-cases, Option-cases, ◌==◌, select, first, save, delete_row, str_eq, strip, is_some,
}
use webhook_delivery_platfor.Schema.{
  Database, User, Organization, Membership, Role, owner, membership_key,
}
use webhook_delivery_platfor.Errors.{ok, Result-cases}
use webhook_delivery_platfor.Access.{Request}
use webhook_delivery_platfor.Identity.{
  IdentitySecurity, RegistrationIds, Registration, insert, register, create_registration,
  new_registration, membership_clashes, user_by_email, normalize,
}
use webhook_delivery_platfor.Identity.Families.{insert-ok}
use webhook_delivery_platfor.Organizations.{
  membership, existing, valid_role, role_of, or_exists, MemberView, add_member, check_owner,
  change_member, remove_member, new_membership,
}

pub record Changed (r : Request) (target : ℕ) (role : String) (db db' : Database) : Type 0 where
  pub row : Membership
  pub value : Role
  pub found : membership r.organization_id target db.memberships ≡ some row
  pub valid : role_of role ≡ some value
  pub checked : check_owner r.organization_id row (str_eq role "owner") db ≡ ok tt
  pub organizations : db'.organizations ≡ db.organizations
  pub memberships :
      db'.memberships ≡ save membership_key (record row { role = value }) db.memberships

pub change_member-ok :
    (r : Request) (target : ℕ) (role : String) (db : Database) {db' : Database}
    → change_member r target role db ≡ ok db'
    → Changed r target role db db'
unfolding change_member existing valid_role
change_member-ok r target role db {db'} h =
    elim (Option-cases (membership r.organization_id target db.memberships)) [
      | inl e ↦ absurd (ground (arith, e, h))
      | inr (m, e) ↦ elim (Option-cases (role_of role)) [
        | inl v ↦ absurd (ground (arith, e, v, h))
        | inr (value, v) ↦ record {
          row = m;
          value = value;
          found = e;
          valid = v;
          checked = ground (arith, e, v, h);
          organizations = ground (arith, e, v, h);
          memberships = ground (arith, e, v, h);
        }
      ]
    ]

pub record Removed (r : Request) (target : ℕ) (db db' : Database) : Type 0 where
  pub row : Membership
  pub found : membership r.organization_id target db.memberships ≡ some row
  pub checked : check_owner r.organization_id row false db ≡ ok tt
  pub organizations : db'.organizations ≡ db.organizations
  pub memberships : db'.memberships ≡ delete_row membership_key row.id db.memberships

pub remove_member-ok :
    (r : Request) (target : ℕ) (db : Database) {db' : Database}
    → remove_member r target db ≡ ok db'
    → Removed r target db db'
unfolding remove_member existing
remove_member-ok r target db {db'} h =
    elim (Option-cases (membership r.organization_id target db.memberships)) [
      | inl e ↦ absurd (ground (arith, e, h))
      | inr (m, e) ↦ record {
        row = m;
        found = e;
        checked = ground (arith, e, h);
        organizations = ground (arith, e, h);
        memberships = ground (arith, e, h);
      }
    ]

-- One row more, under a new key.
pub record Added (db db' : Database) : Type 0 where
  pub row : Membership
  pub fresh : first (select (membership_clashes row) db.memberships) ≡ none
  pub organizations : db'.organizations ≡ db.organizations
  pub memberships : db'.memberships ≡ row ∷ db.memberships

pub add_member-ok :
    (casefold : String → String) (r : Request) (id : ℕ) (email role : String) (db : Database)
    {db' : Database} {view : MemberView}
    → add_member casefold r id email role db ≡ ok (db', view)
    → Added db db'
unfolding add_member
add_member-ok casefold r id email role db {db'} {view} h = elim (Result-cases (valid_role role)) [
  | inr (x, v) ↦ absurd (ground (arith, v, h))
  | inl (value, v) ↦
      elim (Result-cases (existing (user_by_email (casefold (strip email)) db.users))) [
        | inr (x, u) ↦ absurd (ground (arith, v, u, h))
        | inl (user, u) ↦ member_added value user v u
      ]
]
  where
    member_added :
        (value : Role) (user : User)
        → valid_role role ≡ ok value
        → existing (user_by_email (casefold (strip email)) db.users) ≡ ok user
        → Added db db'
    member_added value user v u =
        let m = new_membership id r user.id value in
        elim (Result-cases (insert (membership_clashes m) m db.memberships)) [
          | inr (x, e) ↦ absurd (unfold or_exists in ground (arith, v, u, e, h))
          | inl (ts, e) ↦ record {
            row = m;
            fresh = (insert-ok (membership_clashes m) m db.memberships e).1;
            organizations = unfold or_exists in ground (arith, v, u, e, h);
            memberships =
                subst (λ l. db'.memberships ≡ l)
                  (insert-ok (membership_clashes m) m db.memberships e).0
                  (unfold or_exists in ground (arith, v, u, e, h));
          }
        ]

-- A new organization and its owner.
pub record Registered (row : Registration) (db db' : Database) : Type 0 where
  pub fresh : first (select (membership_clashes row.membership) db.memberships) ≡ none
  pub organizations : db'.organizations ≡ row.organization ∷ db.organizations
  pub memberships : db'.memberships ≡ row.membership ∷ db.memberships

inserted_row :
    (db db' : Database) (row : Registration) {users : List User} {os : List Organization}
    {ms : List Membership}
    → record db { users = users; organizations = os; memberships = ms } ≡ db'
    → insert (λ o. o.id == row.organization.id) row.organization db.organizations ≡ ok os
    → insert (membership_clashes row.membership) row.membership db.memberships ≡ ok ms
    → Registered row db db'
inserted_row db db' row same o m =
    let added_o =
      insert-ok (λ x. x.id == row.organization.id) row.organization db.organizations o in
    let added_m = insert-ok (membership_clashes row.membership) row.membership db.memberships m in
    record {
      fresh = added_m.1;
      organizations = sym (ap (λ (d : Database). d.organizations) same) ∙ added_o.0;
      memberships = sym (ap (λ (d : Database). d.memberships) same) ∙ added_m.0;
    }

pub create_registration-ok :
    (row : Registration) (db : Database) {db' : Database}
    → create_registration row db ≡ ok db'
    → Registered row db db'
unfolding create_registration
create_registration-ok row db {db'} h =
    elim (Result-cases
      (insert (λ u. u.id == row.user.id || str_eq u.email row.user.email) row.user db.users)) [
        | inr (x, u) ↦ absurd (ground (arith, u, h))
        | inl (users, u) ↦
            elim (Result-cases
              (insert (λ o. o.id == row.organization.id) row.organization db.organizations)) [
                | inr (x, o) ↦ absurd (ground (arith, u, o, h))
                | inl (os, o) ↦
                    elim (Result-cases
                      (insert (membership_clashes row.membership) row.membership db.memberships)) [
                        | inr (x, m) ↦ absurd (ground (arith, u, o, m, h))
                        | inl (ms, m) ↦
                            inserted_row db db' row {users = users} {os = os} {ms = ms}
                              (ground (arith, u, o, m, h)) o m
                      ]
              ]
      ]

-- register gives back the rows that it has inserted: an organization and its owner.
pub register-ok :
    (security : IdentitySecurity) (ids : RegistrationIds) (email password name : String)
    (db : Database) {db' : Database} {row : Registration}
    → register security ids email password name db ≡ ok (db', row)
    → (sent : Registration) × (sent.membership.organization_id ≡ sent.organization.id)
      × (sent.membership.role ≡ owner)
      × Registered sent db db'
unfolding register
register-ok security ids email password name db {db'} {row} h =
    let sent =
      new_registration ids (normalize security email) (security.hash_password password)
        (strip name) in
    elim (Bool-cases (is_some (user_by_email (normalize security email) db.users))) [
      | inl e ↦ absurd (ground (arith, e, h))
      | inr e ↦ elim (Result-cases (create_registration sent db)) [
        | inr (x, c) ↦ absurd (ground (arith, e, c, h))
        | inl (d, c) ↦
            let same : d ≡ db' = ground (arith, e, c, h) in
            (
              sent,
              refl,
              refl,
              subst (λ x. Registered sent db x) same (create_registration-ok sent db c),
            )
      ]
    ]
