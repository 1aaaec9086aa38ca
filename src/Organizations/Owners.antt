-- ===== src/Organizations/Owners.antt =====
-- The owners of the organizations, over every order of the requests that write members.
use webhook_delivery_platfor.Base.{
  ℕ, ◌<◌, ◌≡◌, ◌⊎◌, refl, Bool, true, false, none, some, List, [], ◌∷◌, String, arith, eq→≡,
  eq_self, count, select, first, find, Unique, All, All-imp, str_eq, count-save, save-Unique,
  count-delete, delete-Unique, first-select, first-none-find,
}
use webhook_delivery_platfor.Schema.{
  Database, Organization, Membership, owner, is_owner, membership_key,
}
use webhook_delivery_platfor.Errors.{ok}
use webhook_delivery_platfor.Access.{Request}
use webhook_delivery_platfor.Identity.{
  IdentitySecurity, RegistrationIds, Registration, register, membership_clashes,
}
use webhook_delivery_platfor.Organizations.{
  membership, role_of, MemberView, add_member, owns, owner_count, check_owner, change_member,
  remove_member,
}
use webhook_delivery_platfor.Organizations.Changes.{
  Changed, change_member-ok, Removed, remove_member-ok, add_member-ok, register-ok,
}

-- Membership identifiers are unique, and every organization has an owner.
unfoldable pub IsOwned : Database → Type 0
IsOwned db =
    Unique membership_key db.memberships
    × All (λ (o : Organization). 0 < owner_count o.id db.memberships) db.organizations

-- A change of the memberships that leaves an owner wherever there was one.
keep_owners :
    (db db' : Database)
    → db'.organizations ≡ db.organizations
    → Unique membership_key db'.memberships
    → ((o : ℕ) → 0 < owner_count o db.memberships → 0 < owner_count o db'.memberships)
    → IsOwned db
    → IsOwned db'
unfolding IsOwned
keep_owners db db' same unique kept i =
    (unique, rw same (All-imp (λ o h. kept o.id h) db.organizations i.1))

-- Who was looked up is in the table.
found_member :
    (organization_id user_id : ℕ) (t : List Membership) {m : Membership}
    → Unique membership_key t
    → membership organization_id user_id t ≡ some m
    → (find membership_key m.id t ≡ some m) × (m.organization_id ≡ organization_id)
unfolding membership
found_member organization_id user_id t {m} u h =
    let (there, passes) = first-select membership_key _ t u h in (there, ground (arith, passes))

-- What the check of the last owner lets through.
check_owner-ok :
    (organization_id : ℕ) (m : Membership) (keeps : Bool) (db : Database)
    → check_owner organization_id m keeps db ≡ ok tt
    → (is_owner m.role ≡ false)
      ⊎ ((keeps ≡ true) ⊎ (1 < owner_count organization_id db.memberships))
unfolding check_owner
check_owner-ok organization_id m keeps db h = ground arith

role_of_owner : (role : String) → str_eq role "owner" ≡ true → role_of role ≡ some owner
unfolding role_of
role_of_owner role h = rw h refl

clash_free-Unique :
    (m : Membership) (t : List Membership)
    → first (select (membership_clashes m) t) ≡ none
    → Unique membership_key t
    → Unique membership_key (m ∷ t)
clash_free-Unique m t h u =
    (first-none-find membership_key (membership_clashes m) m.id t (λ r e. rw e refl) h, u)

add_owner :
    (o : ℕ) (m : Membership) (t : List Membership) → 0 < owner_count o t → 0 < owner_count o (m ∷ t)
unfolding owner_count count
add_owner o m t h = ground arith

change_owner :
    (r : Request) (target : ℕ) (role : String) (db db' : Database)
    → Unique membership_key db.memberships
    → Changed r target role db db'
    → (o : ℕ) → 0 < owner_count o db.memberships
    → 0 < owner_count o db'.memberships
unfolding owner_count
change_owner r target role db db' u c o h =
    let (there, mine) = found_member r.organization_id target db.memberships u c.found in
    let counted =
      count-save membership_key (owns o) (record c.row { role = c.value }) db.memberships there in
    let ways = check_owner-ok r.organization_id c.row (str_eq role "owner") db c.checked in
    rw c.memberships (
      ground
        (arith, counted, mine, ways, role_of_owner role, c.valid, eq→≡ c.row.organization_id o))

remove_owner :
    (r : Request) (target : ℕ) (db db' : Database)
    → Unique membership_key db.memberships
    → Removed r target db db'
    → (o : ℕ) → 0 < owner_count o db.memberships
    → 0 < owner_count o db'.memberships
unfolding owner_count
remove_owner r target db db' u c o h =
    let (there, mine) = found_member r.organization_id target db.memberships u c.found in
    let counted = count-delete membership_key (owns o) c.row.id db.memberships u there in
    let ways = check_owner-ok r.organization_id c.row false db c.checked in
    rw c.memberships (ground (arith, counted, mine, ways, eq→≡ c.row.organization_id o))

register-IsOwned :
    (security : IdentitySecurity) (ids : RegistrationIds) (email password name : String)
    (db : Database) {db' : Database} {row : Registration}
    → IsOwned db
    → register security ids email password name db ≡ ok (db', row)
    → IsOwned db'
unfolding IsOwned
register-IsOwned security ids email password name db {db'} {row} i h =
    let (sent, here, rank, c) = register-ok security ids email password name db h in
    (
      rw c.memberships (clash_free-Unique sent.membership db.memberships c.fresh i.0),
      rw (c.organizations, c.memberships)
          (
            first_owner sent here rank,
            All-imp (λ o p. rw c.memberships (add_owner o.id sent.membership db.memberships p))
                db.organizations i.1,
          ),
    )
  where
    first_owner :
        (sent : Registration)
        → sent.membership.organization_id ≡ sent.organization.id
        → sent.membership.role ≡ owner
        → 0 < owner_count sent.organization.id (sent.membership ∷ db.memberships)
    first_owner sent here rank =
        unfold owner_count in
        unfold count in rw (here, rank, eq_self sent.organization.id) (omega arith)

-- One request that writes members. `db` and `db'` are the database before and after it.
pub data MemberStep (security : IdentitySecurity) : Database → Database → Type 0 where
  registered :
      (ids : RegistrationIds) (email password name : String) {db db' : Database}
      {row : Registration}
      → register security ids email password name db ≡ ok (db', row)
      → MemberStep security db db'
  added :
      (r : Request) (id : ℕ) (email role : String) {db db' : Database} {view : MemberView}
      → add_member security.casefold r id email role db ≡ ok (db', view)
      → MemberStep security db db'
  changed :
      (r : Request) (target : ℕ) (role : String) {db db' : Database}
      → change_member r target role db ≡ ok db'
      → MemberStep security db db'
  removed :
      (r : Request) (target : ℕ) {db db' : Database}
      → remove_member r target db ≡ ok db'
      → MemberStep security db db'

Unique_of : (db : Database) → IsOwned db → Unique membership_key db.memberships
unfolding IsOwned
Unique_of db i = i.0

step-IsOwned :
    (security : IdentitySecurity) {db db' : Database}
    → MemberStep security db db'
    → IsOwned db
    → IsOwned db'
step-IsOwned security {db} (registered ids email password name h) i =
    register-IsOwned security ids email password name db i h
step-IsOwned security {db} {db'} (added r id email role h) i =
    let a = add_member-ok security.casefold r id email role db h in
    keep_owners db db' a.organizations
      (rw a.memberships (clash_free-Unique a.row db.memberships a.fresh (Unique_of db i)))
      (λ o p. rw a.memberships (add_owner o a.row db.memberships p)) i
step-IsOwned security {db} {db'} (changed r target role h) i =
    let c = change_member-ok r target role db h in
    let found = found_member r.organization_id target db.memberships (Unique_of db i) c.found in
    keep_owners db db' c.organizations
      (rw c.memberships (
        save-Unique membership_key (record c.row { role = c.value }) db.memberships found.0
          (Unique_of db i)))
      (change_owner r target role db db' (Unique_of db i) c) i
step-IsOwned security {db} {db'} (removed r target h) i =
    let c = remove_member-ok r target db h in
    keep_owners db db' c.organizations
      (rw c.memberships (delete-Unique membership_key c.row.id db.memberships (Unique_of db i)))
      (remove_owner r target db db' (Unique_of db i) c) i

-- The databases that a sequence of requests reaches from one without organizations and members.
pub data Reachable (security : IdentitySecurity) : Database → Type 0 where
  start : (db : Database) → db.organizations ≡ [] → db.memberships ≡ [] → Reachable security db
  after :
      {db db' : Database}
      → Reachable security db
      → MemberStep security db db'
      → Reachable security db'

-- After every sequence of registrations and of additions, changes and removals of members, from a
-- database without organizations, membership identifiers are unique and every organization has an
-- owner.
pub Reachable-IsOwned :
    (security : IdentitySecurity) {db : Database} → Reachable security db → IsOwned db
Reachable-IsOwned security (start db no_organizations no_members) =
    unfold IsOwned in rw (no_organizations, no_members) (tt, tt)
Reachable-IsOwned security (after r s) = step-IsOwned security s (Reachable-IsOwned security r)
