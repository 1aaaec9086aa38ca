-- ===== src/Endpoints/Lifecycle.antt =====
-- src/webhook_platform/endpoints/application/use_cases.py: what the operations make of an endpoint
-- and of the deliveries that wait for it.
pub mod Url
use text.Mathlib.TextPositions.{eq_refl}
use webhook_delivery_platfor.Base.{
  ℕ, ◌+◌, ◌-◌, ◌≤◌, ◌<◌, ◌≡◌, refl, sym, subst, ◌∙◌, Bool, true, false, not, ◌&&◌, Option, none,
  some, List, [], ◌∷◌, inl, inr, String, arith, count, leb, Bool-cases, Option-cases, is_some,
  str_eq, find_key, find-saved, update_where, All, ◌==◌, eq_self, ◌*◌, if◌then◌else◌,
}
use webhook_delivery_platfor.Schema.{
  is_manager, Database, Settings, Delivery, Endpoint, EndpointStatus, pending_verification, deleted,
  is_waiting, is_active, find_endpoint, endpoint_key, save_endpoint, seconds,
}
use webhook_delivery_platfor.Errors.{Result, ok, err, ◌>>=◌, ◌>>◌, >>=-eq-ok, ok-injective, is_ok}
use webhook_delivery_platfor.Access.{Request, require_role}
use webhook_delivery_platfor.Endpoints.Network.{ValidatedDestination}
use webhook_delivery_platfor.Endpoints.Operations.{
  validate_event_types, Changes, update_endpoint, delete_endpoint, delete_found, cancel_waiting,
  waits_for, cancel, mark_deleted, endpoint, owned, present, set_url, set_name, set_enabled,
  set_event_types, write_changes, cancel_if,
}
use webhook_delivery_platfor.Endpoints.Refines.{endpoint_found, present-eq}
use webhook_delivery_platfor.Endpoints.Verification.{
  NewEndpoint, create_endpoint, is_counted, insert_endpoint, new_endpoint, check_limit,
  set_challenge, begin_verify, complete_verify, reread, check_challenge, check_answer, activate,
  has_hash, unexpired,
}

-- The endpoints of an organization that are not deleted.
abbrev pub endpoints_of : ℕ → Database → ℕ
endpoints_of organization_id db = count (is_counted organization_id) db.endpoints

-- A creation that commits has counted, before it asked the resolver, fewer endpoints of the
-- organization than the limit, and adds exactly one: the organization exceeds the limit afterwards
-- by no more endpoints than were added between the count and the commit.
pub create_endpoint-limit :
    (settings : Settings) (validate : String → Result ValidatedDestination) (r : Request)
    (n : NewEndpoint) (name url : String) (types : List String) (seen db db' : Database)
    → create_endpoint settings validate r n name url types seen db ≡ ok db'
    → (endpoints_of r.organization_id db' ≡ endpoints_of r.organization_id db + 1)
      × (endpoints_of r.organization_id seen < settings.endpoint_limit)
      × (endpoints_of r.organization_id db'
          ≤ settings.endpoint_limit
            + (endpoints_of r.organization_id db - endpoints_of r.organization_id seen))
unfolding create_endpoint insert_endpoint new_endpoint count is_counted
create_endpoint-limit settings validate r n name url types seen db db' h =
    let (role, _, h1) = >>=-eq-ok (require_role is_manager r seen.memberships) _ h in
    let (u, room, h2) =
      >>=-eq-ok (check_limit (leb settings.endpoint_limit (endpoints_of r.organization_id seen))) _
        h1 in
    let (destination, _, h3) = >>=-eq-ok (validate url) _ h2 in
    let (types', _, h4) = >>=-eq-ok (validate_event_types types) _ h3 in
    let less : endpoints_of r.organization_id seen < settings.endpoint_limit = ground arith in
    let more : endpoints_of r.organization_id db' ≡ endpoints_of r.organization_id db + 1 =
      rw⁻¹ (ok-injective h4) (ground (arith, eq_self r.organization_id)) in
    (more, less, omega (arith, less, more))

-- No delivery of the organization waits for the endpoint.
abbrev pub waiting : ℕ → ℕ → Database → ℕ
waiting organization_id endpoint_id db = count (waits_for organization_id endpoint_id) db.deliveries

cancel_waiting-none :
    (organization_id endpoint_id : ℕ) (t : List Delivery)
    → count
        (waits_for organization_id endpoint_id)
        (update_where (waits_for organization_id endpoint_id) cancel t)
      ≡ 0
unfolding count update_where waits_for cancel
cancel_waiting-none organization_id endpoint_id [] = refl
cancel_waiting-none organization_id endpoint_id (d ∷ t) =
    ground (arith, cancel_waiting-none organization_id endpoint_id t)

-- A deletion that finds the endpoint, not deleted, marks it deleted, disables it, and leaves no
-- delivery waiting for it.
pub delete_endpoint-effect :
    (r : Request) (id : ℕ) (db db' : Database) (e : Endpoint)
    → endpoint r.organization_id id db ≡ some e
    → e.deleted_at ≡ none
    → delete_endpoint r id db ≡ ok db'
    → (find_endpoint id db'.endpoints
        ≡ some (record e { deleted_at = some r.now; status = deleted; enabled = false }))
      × (waiting r.organization_id id db' ≡ 0)
unfolding delete_endpoint delete_found endpoint owned mark_deleted cancel_waiting
delete_endpoint-effect r id db db' e he live h =
    let (role, _, h1) = >>=-eq-ok (require_role is_manager r db.memberships) _ h in
    rw⁻¹ (ok-injective h1) (
      rw (he, live)
        (
          find-saved endpoint_key id e (mark_deleted r.now e) db.endpoints
              (endpoint_found r.organization_id id db he) refl,
          none_left,
        ))
  where
    same : e.id ≡ id
    same = find_key endpoint_key id db.endpoints (endpoint_found r.organization_id id db he)

    none_left :
        count
          (waits_for r.organization_id id)
          (update_where (waits_for r.organization_id e.id) cancel db.deliveries)
        ≡ 0
    none_left = rw same (cancel_waiting-none r.organization_id id db.deliveries)

-- The second transaction of a verification, of a challenge that the first one made at the time `began`,
-- succeeds exactly if the receiver answered it, the row of the endpoint is still there, and ten minutes
-- have not passed. What the row holds by then does not matter: neither its challenge, which a later
-- verification may have replaced, nor its URL, status or deletion time.
pub complete_verify-exact :
    (r : Request) (began : ℕ) (hash : String) (answered : Bool) (e : Endpoint) (db : Database)
    → is_ok (complete_verify r hash answered (set_challenge began hash e) db) ≡ (
        answered
        && is_some (endpoint r.organization_id e.id db)
        && unexpired r.now (some (began + seconds (10 * 60))))
unfolding complete_verify reread check_challenge set_challenge
complete_verify-exact r began hash true e db =
    elim (Option-cases (endpoint r.organization_id e.id db)) [
      | inl gone ↦ rw gone refl
      | inr (row, there) ↦ rw there (ground (arith, eq_refl hash))
    ]
complete_verify-exact r began hash false e db = refl

-- A verification that completes clears the challenge of the endpoint's row, whatever verification it is
-- of, and makes the endpoint active, with the URL and the deletion time that the row then has; only an
-- endpoint that was active when its verification began keeps the status that the row then has.
pub complete_verify-activates :
    (r : Request) (hash : String) (answered : Bool) (held row : Endpoint) (db db' : Database)
    → endpoint r.organization_id held.id db ≡ some row
    → complete_verify r hash answered held db ≡ ok db'
    → find_endpoint held.id db'.endpoints
      ≡ some (record row {
        verification_hash = none;
        verification_expires_at = none;
        status = if is_active held.status then row.status else EndpointStatus.active;
      })
unfolding complete_verify reread check_challenge activate
complete_verify-activates r hash answered held row db db' there h =
    let (u, _, h1) = >>=-eq-ok (check_answer answered) _ h in
    let (row', found, h2) = >>=-eq-ok (reread (endpoint r.organization_id held.id db)) _ h1 in
    let (u', _, h3) = >>=-eq-ok (check_challenge r.now hash held) _ h2 in
    let same : row' ≡ row = ground (arith, there) in
    rw⁻¹ (ok-injective h3) (
      rw same (
        find-saved endpoint_key held.id row (activate held row) db.endpoints
          (endpoint_found r.organization_id held.id db there) refl))
