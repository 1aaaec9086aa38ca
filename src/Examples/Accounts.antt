-- ===== src/Examples/Accounts.antt =====
-- The theorems on users, organizations and API keys, over two registrations and what follows.
use webhook_delivery_platfor.Base.{
  ◌≡◌, refl, none, [], ◌∷◌, str_eq, find, select, count, strip, drop_spaces, reverse_onto, is_space,
  delete_row,
}
use webhook_delivery_platfor.Schema.{Database, Membership, owner}
use webhook_delivery_platfor.Errors.{ok}
use webhook_delivery_platfor.Access.{Request, require_role, check_role, membership_role, audit}
use webhook_delivery_platfor.Identity.{
  IdentitySecurity, RegistrationIds, Registration, register, new_registration, create_registration,
  insert, user_by_email,
}
use webhook_delivery_platfor.Organizations.{
  add_member, remove_member, lock_organization, existing, valid_role, role_of, or_exists,
  membership, check_owner, owner_count,
}
use webhook_delivery_platfor.Organizations.Owners as Owners
use webhook_delivery_platfor.Organizations.Owners.{
  IsOwned, Reachable-IsOwned, registered, added, removed,
}
use webhook_delivery_platfor.Examples.Data.{sample_db}

abbrev pub plain_security : IdentitySecurity
plain_security = record {
  casefold = λ email. email;
  hash_password = λ password. password;
  verify_password = str_eq;
  create_access_token = λ user_id. ("access", 900);
  token_hash = λ token. token;
}

abbrev pub empty_db : Database
empty_db = record sample_db { memberships = [] }

abbrev first_ids : RegistrationIds
first_ids = record { now = 10; user_id = 101; organization_id = 102; membership_id = 103 }

abbrev second_ids : RegistrationIds
second_ids = record { now = 20; user_id = 201; organization_id = 202; membership_id = 203 }

abbrev pub first_row : Registration
first_row = new_registration first_ids "ann@example.org" "one" "Acme"

abbrev second_row : Registration
second_row = new_registration second_ids "bob@example.org" "two" "Bees"

abbrev pub one_user : Database
one_user = record empty_db {
  users = first_row.user ∷ [];
  organizations = first_row.organization ∷ [];
  memberships = first_row.membership ∷ [];
}

abbrev two_users : Database
two_users = record empty_db {
  users = second_row.user ∷ first_row.user ∷ [];
  organizations = second_row.organization ∷ first_row.organization ∷ [];
  memberships = second_row.membership ∷ first_row.membership ∷ [];
}

first_registered :
    register plain_security first_ids "ann@example.org" "one" "Acme" empty_db
    ≡ ok (one_user, first_row)
unfolding register user_by_email create_registration insert select strip drop_spaces reverse_onto
    is_space
first_registered = refl

second_registered :
    register plain_security second_ids "bob@example.org" "two" "Bees" one_user
    ≡ ok (two_users, second_row)
unfolding register user_by_email create_registration insert select strip drop_spaces reverse_onto
    is_space
second_registered = refl

abbrev ann : Request
ann = record { user_id = 101; organization_id = 102; now = 30; audit_id = 301; request_id = none }

abbrev bob_member : Membership
bob_member = record {
  id = 304;
  created_at = 30;
  organization_id = 102;
  user_id = 201;
  role = owner;
}

abbrev bob_added : Database
bob_added = record two_users {
  memberships = bob_member ∷ second_row.membership ∷ first_row.membership ∷ [];
  audits = audit ann "membership.created" "membership" 304 ∷ [];
}

bob_joins :
    add_member plain_security.casefold ann 304 "bob@example.org" "owner" two_users
    ≡ ok (bob_added, record { user_id = 201; email = "bob@example.org"; role = owner })
unfolding add_member lock_organization require_role check_role membership_role existing valid_role
    role_of or_exists user_by_email insert select find strip drop_spaces reverse_onto is_space
bob_joins = refl

abbrev ann_left : Database
ann_left = record two_users {
  memberships = bob_member ∷ second_row.membership ∷ [];
  audits =
      audit ann "membership.deleted" "membership" 103
      ∷ audit ann "membership.created" "membership" 304
      ∷ [];
}

ann_leaves : remove_member ann 101 bob_added ≡ ok ann_left
unfolding remove_member lock_organization require_role check_role membership_role existing
    membership check_owner owner_count delete_row select find count
ann_leaves = refl

Reachable-IsOwned_example : IsOwned ann_left
Reachable-IsOwned_example = Reachable-IsOwned plain_security (
    Owners.after
      (Owners.after
        (Owners.after
          (Owners.after (Owners.start empty_db refl refl)
            (registered first_ids "ann@example.org" "one" "Acme" first_registered))
          (registered second_ids "bob@example.org" "two" "Bees" second_registered))
        (added ann 304 "bob@example.org" "owner" bob_joins))
      (removed ann 101 ann_leaves))
