-- ===== src/Endpoints/Verification.antt =====
-- src/webhook_platform/endpoints/application/use_cases.py: the creation of an endpoint, and its
-- verification, which is two transactions with a request to the receiver in between.
pub mod Refines
use webhook_delivery_platfor.Base.{
  ℕ, ◌+◌, ◌*◌, Bool, true, false, not, ◌&&◌, ◌||◌, Option, none, some, List, [], ◌∷◌, ◌++◌, String,
  leb, ◌==◌, if◌then◌else◌, str_eq, strip, count, is_some,
}
use webhook_delivery_platfor.Schema.{
  Database, Settings, Endpoint, EndpointSecret, Bytes, Preview, EndpointStatus,
  pending_verification, is_active, is_manager, save_endpoint, seconds,
}
use webhook_delivery_platfor.Errors.{
  Exception, Result, ok, err, app_error, not_found_error, ◌>>=◌, ◌>>◌,
}
use webhook_delivery_platfor.Access.{Request, require_role, audit}
use webhook_delivery_platfor.Endpoints.Network.{ValidatedDestination}
use webhook_delivery_platfor.Endpoints.Operations.{
  validate_event_types, subscribe, endpoint, present,
}

-- repository.endpoint_count counts these.
unfoldable pub is_counted : ℕ → Endpoint → Bool
is_counted organization_id e = e.organization_id == organization_id && not (is_some e.deleted_at)

abbrev endpoint_limit_error : Exception
endpoint_limit_error = app_error "endpoint_limit_exceeded" "Endpoint limit exceeded" 409

abbrev pub check_limit : Bool → Result (Unit {0})
check_limit true = err endpoint_limit_error
check_limit false = ok tt

-- The keys of the new rows, and the secret as the cipher encrypted it.
pub record NewEndpoint : Type 0 where
  pub endpoint_id : ℕ
  pub secret_id : ℕ
  pub subscription_id : String → ℕ
  pub encrypted : Preview

-- repository.create_endpoint
unfoldable pub new_endpoint : Request → NewEndpoint → String → String → Endpoint
new_endpoint r n name url = record {
  id = n.endpoint_id;
  created_at = r.now;
  organization_id = r.organization_id;
  name = name;
  url = url;
  status = pending_verification;
  enabled = true;
  verification_hash = none;
  verification_expires_at = none;
  active_delivery_count = 0;
  deleted_at = none;
}

unfoldable pub insert_endpoint :
    Request → NewEndpoint → String → String → List String → Database → Database
unfolding new_endpoint subscribe
insert_endpoint r n name url types db = record db {
  endpoints = new_endpoint r n name url ∷ db.endpoints;
  secrets =
      record {
        id = n.secret_id;
        organization_id = r.organization_id;
        endpoint_id = n.endpoint_id;
        ciphertext = n.encrypted.ciphertext;
        nonce = n.encrypted.nonce;
        key_version = n.encrypted.key_version;
        active = true;
      }
      ∷ db.secrets;
  subscriptions =
      subscribe n.subscription_id r.organization_id n.endpoint_id types ++ db.subscriptions;
  audits = audit r "endpoint.created" "endpoint" n.endpoint_id ∷ db.audits;
}

-- EndpointUseCases.create: `seen` is the database while the role and the number of endpoints are
-- read, without a lock, and `db` the one that the new rows are added to. The resolver is asked in
-- between.
unfoldable pub create_endpoint :
    Settings
    → (String → Result ValidatedDestination)
    → Request
    → NewEndpoint
    → String
    → String
    → List String
    → Database
    → Database
    → Result Database
unfolding is_counted insert_endpoint
create_endpoint settings validate r n name url event_types seen db = do
  role ← require_role is_manager r seen.memberships
  check_limit (leb settings.endpoint_limit (count (is_counted r.organization_id) seen.endpoints))
  destination ← validate url
  types ← validate_event_types event_types
  ok (insert_endpoint r n (strip name) destination.url types db)

-- repository.secret
unfoldable pub secret_of : ℕ → ℕ → List EndpointSecret → Option EndpointSecret
secret_of organization_id endpoint_id [] = none
secret_of organization_id endpoint_id (s ∷ t) =
    if s.organization_id == organization_id && s.endpoint_id == endpoint_id && s.active
    then some s
    else secret_of organization_id endpoint_id t

unfoldable pub present_secret : Option EndpointSecret → Result EndpointSecret
present_secret none = err not_found_error
present_secret (some s) = ok s

unfoldable pub set_challenge : ℕ → String → Endpoint → Endpoint
set_challenge now hash e = record e {
  verification_hash = some hash;
  verification_expires_at = some (now + seconds (10 * 60));
}

-- The first transaction of `verify`: `hash` is the SHA-256 of the new challenge.
unfoldable pub begin_verify :
    (String → Result ValidatedDestination) → Request → String → ℕ → Database → Result Database
unfolding secret_of present_secret set_challenge
begin_verify validate r hash endpoint_id db = do
  role ← require_role is_manager r db.memberships
  e ← present (endpoint r.organization_id endpoint_id db)
  s ← present_secret (secret_of r.organization_id endpoint_id db.secrets)
  d ← validate e.url
  ok (record db { endpoints = save_endpoint (set_challenge r.now hash e) db.endpoints })

abbrev pub verification_error : String → Exception
verification_error message = app_error "verification_failed" message 422

-- current.verification_hash == hash
abbrev pub has_hash : String → Option String → Bool
has_hash hash none = false
has_hash hash (some h) = str_eq h hash

-- The expiry is there and in the future.
abbrev pub unexpired : ℕ → Option ℕ → Bool
unexpired now none = false
unexpired now (some t) = not (leb t now)

-- The row as the session writes it: the columns that `held`, the object in memory, changes. A status
-- that is "active" in memory is no change, and is not written.
unfoldable pub activate : Endpoint → Endpoint → Endpoint
activate held row = record row {
  verification_hash = none;
  verification_expires_at = none;
  status = if is_active held.status then row.status else EndpointStatus.active;
}

-- The row is there.
unfoldable pub reread : Option Endpoint → Result Endpoint
reread none = err (verification_error "Endpoint verification expired")
reread (some row) = ok row

unfoldable pub check_challenge : ℕ → String → Endpoint → Result (Unit {0})
check_challenge now hash held =
    if has_hash hash held.verification_hash && unexpired now held.verification_expires_at
    then ok tt
    else err (verification_error "Endpoint verification expired")

abbrev pub check_answer : Bool → Result (Unit {0})
check_answer true = ok tt
check_answer false = err (verification_error "Endpoint verification failed")

-- The second transaction, with the receiver's answer. The session does not expire its objects at the
-- commit (expire_on_commit=False), so the query only finds out whether the row is there, and locks
-- it: `current` is `held`, the object that the first transaction has left in memory.
unfoldable pub complete_verify : Request → String → Bool → Endpoint → Database → Result Database
unfolding reread check_challenge activate
complete_verify r hash answered held db = do
  check_answer answered
  row ← reread (endpoint r.organization_id held.id db)
  check_challenge r.now hash held
  ok (record db {
    endpoints = save_endpoint (activate held row) db.endpoints;
    audits = audit r "endpoint.verified" "endpoint" held.id ∷ db.audits;
  })
