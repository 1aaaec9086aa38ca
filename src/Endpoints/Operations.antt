-- ===== src/Endpoints/Operations.antt =====
-- src/webhook_platform/endpoints/application/use_cases.py over
-- src/webhook_platform/endpoints/infrastructure/repository.py: the operations that change an
-- endpoint. An `err` is an exception before the commit, which leaves the database as it was.
use webhook_delivery_platfor.Base.{
  ℕ, Bool, true, false, not, ◌&&◌, ◌||◌, Option, none, some, List, [], ◌∷◌, ◌++◌, String, leb, ◌==◌,
  if◌then◌else◌, str_eq, strip, length, select, update_where, is_some,
}
use webhook_delivery_platfor.Schema.{
  Database, Delivery, Endpoint, EndpointSubscription, cancelled, is_waiting, EndpointStatus,
  pending_verification, disabled, deleted, is_active, is_disabled, is_manager, find_endpoint,
  save_endpoint,
}
use webhook_delivery_platfor.Errors.{Exception, Result, ok, err, app_error, not_found_error, ◌>>=◌}
use webhook_delivery_platfor.Access.{Request, require_role, audit}
use webhook_delivery_platfor.Events.EventType.{bad_event_type}
use webhook_delivery_platfor.Endpoints.Network.{ValidatedDestination}

abbrev event_types_error : Exception
event_types_error = app_error "invalid_event_types" "Event types must be unique" 422

abbrev event_format_error : Exception
event_format_error = app_error "invalid_event_types" "Event type format is invalid" 422

unfoldable pub has_text : String → List String → Bool
has_text s [] = false
has_text s (t ∷ ts) = str_eq s t || has_text s ts

-- list(dict.fromkeys(texts)) has as many items as the list: no text comes twice.
unfoldable pub all_different : List String → Bool
unfolding has_text
all_different [] = true
all_different (t ∷ ts) = not (has_text t ts) && all_different ts

unfoldable pub any_bad : List String → Bool
any_bad [] = false
any_bad (t ∷ ts) = bad_event_type t || any_bad ts

-- _validate_event_types
unfoldable pub validate_event_types : List String → Result (List String)
unfolding all_different any_bad
validate_event_types types =
    if not (all_different types) || not (leb 1 (length types) && leb (length types) 50)
    then err event_types_error
    else if any_bad types
    then err event_format_error
    else ok types

-- repository.cancel_waiting
unfoldable pub waits_for : ℕ → ℕ → Delivery → Bool
waits_for organization_id endpoint_id d =
    d.organization_id == organization_id && d.endpoint_id == endpoint_id && is_waiting d.status

unfoldable pub cancel : Delivery → Delivery
cancel d = record d { status = cancelled; lease_until = none; next_attempt_at = none }

unfoldable pub cancel_waiting : ℕ → ℕ → Database → Database
unfolding waits_for cancel
cancel_waiting organization_id endpoint_id db = record db {
  deliveries = update_where (waits_for organization_id endpoint_id) cancel db.deliveries;
}

-- repository.replace_subscriptions. `new_id` gives the keys of the new rows.
unfoldable pub subscribe : (String → ℕ) → ℕ → ℕ → List String → List EndpointSubscription
subscribe new_id organization_id endpoint_id [] = []
subscribe new_id organization_id endpoint_id (t ∷ ts) =
    record {
      id = new_id t;
      organization_id = organization_id;
      endpoint_id = endpoint_id;
      event_type = t;
    }
    ∷ subscribe new_id organization_id endpoint_id ts

unfoldable pub other_subscription : ℕ → ℕ → EndpointSubscription → Bool
other_subscription organization_id endpoint_id s =
    not (s.organization_id == organization_id && s.endpoint_id == endpoint_id)

unfoldable pub replace_subscriptions : (String → ℕ) → ℕ → ℕ → List String → Database → Database
unfolding subscribe other_subscription
replace_subscriptions new_id organization_id endpoint_id types db = record db {
  subscriptions =
      subscribe new_id organization_id endpoint_id types
      ++ select (other_subscription organization_id endpoint_id) db.subscriptions;
}

-- repository.endpoint
unfoldable pub owned : ℕ → Option Endpoint → Option Endpoint
owned organization_id none = none
owned organization_id (some e) = if e.organization_id == organization_id then some e else none

unfoldable pub endpoint : ℕ → ℕ → Database → Option Endpoint
unfolding owned
endpoint organization_id endpoint_id db =
    owned organization_id (find_endpoint endpoint_id db.endpoints)

-- An endpoint that is there and not deleted, or NotFoundError.
unfoldable pub present : Option Endpoint → Result Endpoint
present none = err not_found_error
present (some e) = if is_some e.deleted_at then err not_found_error else ok e

-- The body of PATCH: a key that is not in it is none.
pub record Changes : Type 0 where
  pub url : Option String
  pub name : Option String
  pub enabled : Option Bool
  pub event_types : Option (List String)

-- "url" in changes and changes["url"] != endpoint.url
unfoldable pub set_url :
    (String → Result ValidatedDestination) → Option String → Endpoint → Result Endpoint
set_url validate none e = ok e
set_url validate (some url) e = if str_eq url e.url then ok e else elim (validate url) [
  | err x ↦ err x
  | ok d ↦ ok (record e { url = d.url; status = pending_verification })
]

unfoldable pub set_name : Option String → Endpoint → Endpoint
set_name none e = e
set_name (some name) e = record e { name = strip name }

-- endpoint.enabled = ... and what follows; the Boolean says whether waiting deliveries are
-- cancelled.
unfoldable pub set_enabled : Option Bool → Endpoint → Endpoint × Bool
set_enabled none e = (e, false)
set_enabled (some enabled) e =
    if not enabled && is_active e.status
    then (record e { enabled = enabled; status = disabled }, true)
    else (if enabled && is_disabled e.status
        then (record e { enabled = enabled; status = EndpointStatus.active }, false)
        else (record e { enabled = enabled }, false))

unfoldable pub set_event_types :
    (String → ℕ) → ℕ → ℕ → Option (List String) → Database → Result Database
unfolding replace_subscriptions
set_event_types new_id organization_id endpoint_id none db = ok db
set_event_types new_id organization_id endpoint_id (some types) db =
    elim (validate_event_types types) [
      | err x ↦ err x
      | ok valid ↦ ok (replace_subscriptions new_id organization_id endpoint_id valid db)
    ]

unfoldable pub cancel_if : Bool → ℕ → ℕ → Database → Database
unfolding cancel_waiting
cancel_if true organization_id endpoint_id db = cancel_waiting organization_id endpoint_id db
cancel_if false organization_id endpoint_id db = db

-- The rest of `update` once the endpoint `e` has its new URL.
unfoldable pub write_changes :
    Request → (String → ℕ) → Changes → Database → Endpoint → Result Database
unfolding set_enabled set_name cancel_if set_event_types
write_changes r new_id changes db e =
    let (e', cancels) = set_enabled changes.enabled (set_name changes.name e) in
    let saved = record db { endpoints = save_endpoint e' db.endpoints } in
    do
      db' ←
          set_event_types new_id r.organization_id e.id changes.event_types
            (cancel_if cancels r.organization_id e.id saved)
      ok (record db' { audits = audit r "endpoint.updated" "endpoint" e.id ∷ db'.audits })

-- EndpointUseCases.update
unfoldable pub update_endpoint :
    (String → Result ValidatedDestination)
    → Request
    → (String → ℕ)
    → ℕ
    → Changes
    → Database
    → Result Database
unfolding endpoint present set_url write_changes
update_endpoint validate r new_id endpoint_id changes db = do
  role ← require_role is_manager r db.memberships
  e ← present (endpoint r.organization_id endpoint_id db)
  e' ← set_url validate changes.url e
  write_changes r new_id changes db e'

unfoldable pub mark_deleted : ℕ → Endpoint → Endpoint
mark_deleted now e = record e { deleted_at = some now; status = deleted; enabled = false }

unfoldable pub delete_found : Request → Option Endpoint → Database → Database
unfolding mark_deleted cancel_waiting
delete_found r none db = db
delete_found r (some e) db =
    if is_some e.deleted_at
    then db
    else (let db' =
          cancel_waiting r.organization_id e.id
            (record db { endpoints = save_endpoint (mark_deleted r.now e) db.endpoints }) in
        record db' { audits = audit r "endpoint.deleted" "endpoint" e.id ∷ db'.audits })

-- EndpointUseCases.delete
unfoldable pub delete_endpoint : Request → ℕ → Database → Result Database
unfolding delete_found endpoint
delete_endpoint r endpoint_id db = do
  role ← require_role is_manager r db.memberships
  ok (delete_found r (endpoint r.organization_id endpoint_id db) db)
