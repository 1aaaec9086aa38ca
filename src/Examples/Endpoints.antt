-- ===== src/Examples/Endpoints.antt =====
-- The theorems on endpoints at concrete inputs.
use webhook_delivery_platfor.Base.{
  codes, strip, drop_spaces, reverse_onto, is_space, ◌+◌, ◌-◌, ◌*◌, ◌≤◌, ◌<◌, ◌≡◌, is_some, refl,
  true, false, ◌&&◌, none, some, [], ◌∷◌, String, count, find, save, update_where,
}
use webhook_delivery_platfor.Schema.{
  Database, Endpoint, EndpointStatus, pending_verification, deleted, cancelled, find_endpoint,
  seconds,
}
use webhook_delivery_platfor.Errors.{Result, ok, is_ok}
use webhook_delivery_platfor.Access.{require_role, check_role, membership_role, audit}
use webhook_delivery_platfor.Events.EventType.{is_event_type, bad_event_type, matches}
use webhook_delivery_platfor.Endpoints.Network.{ValidatedDestination}
use webhook_delivery_platfor.Endpoints.Operations.{
  validate_event_types, all_different, has_text, any_bad, Changes, update_endpoint, write_changes,
  present, set_url, set_name, set_enabled, cancel_if, set_event_types, delete_endpoint,
  delete_found, mark_deleted, cancel_waiting, waits_for, cancel, endpoint, owned,
}
use webhook_delivery_platfor.Endpoints.Verification.{
  NewEndpoint, create_endpoint, insert_endpoint, is_counted, set_challenge, reread, complete_verify,
  check_challenge, activate, unexpired,
}
use webhook_delivery_platfor.Endpoints.Lifecycle.{
  create_endpoint-limit, endpoints_of, complete_verify-exact, complete_verify-activates,
  delete_endpoint-effect, waiting,
}
use webhook_delivery_platfor.Endpoints.Lifecycle.Url.{update_endpoint-url, IsMoved}
use webhook_delivery_platfor.Examples.Data.{
  sample_settings, sample_db, sample_request, sample_delivery, ended_delivery, sample_endpoint,
}

abbrev pending_endpoint : Endpoint
pending_endpoint = record sample_endpoint {
  status = pending_verification;
  verification_hash = some "h";
  verification_expires_at = some 9000;
}

abbrev pending_db : Database
pending_db = record sample_db { endpoints = pending_endpoint ∷ [] }

pending_found : endpoint 7 1 pending_db ≡ some pending_endpoint
unfolding endpoint owned find
pending_found = refl

-- The endpoint as the first transaction of its verification has left it in memory.
abbrev held_endpoint : Endpoint
held_endpoint = set_challenge 500 "h" pending_endpoint

complete_verify-exact_example :
    is_ok (complete_verify sample_request "h" true held_endpoint pending_db)
    ≡ (true && is_some (endpoint 7 1 pending_db) && unexpired 1000 (some (500 + seconds (10 * 60))))
complete_verify-exact_example =
    complete_verify-exact sample_request 500 "h" true pending_endpoint pending_db

-- An endpoint that was deleted while the receiver answered.
abbrev gone_endpoint : Endpoint
gone_endpoint = record pending_endpoint {
  status = deleted;
  enabled = false;
  deleted_at = some 1500;
}

abbrev gone_db : Database
gone_db = record sample_db { endpoints = gone_endpoint ∷ [] }

gone_found : endpoint 7 1 gone_db ≡ some gone_endpoint
unfolding endpoint owned find
gone_found = refl

abbrev verified_db : Database
verified_db = record gone_db {
  endpoints =
      record gone_endpoint {
        verification_hash = none;
        verification_expires_at = none;
        status = EndpointStatus.active;
      }
      ∷ [];
  audits = audit sample_request "endpoint.verified" "endpoint" 1 ∷ [];
}

verifies : complete_verify sample_request "h" true held_endpoint gone_db ≡ ok verified_db
unfolding complete_verify reread set_challenge check_challenge activate endpoint owned find save
verifies = refl

complete_verify-activates_example :
    find_endpoint 1 verified_db.endpoints
    ≡ some (record gone_endpoint {
      verification_hash = none;
      verification_expires_at = none;
      status = EndpointStatus.active;
    })
unfolding set_challenge
complete_verify-activates_example =
    complete_verify-activates sample_request "h" true held_endpoint gone_endpoint gone_db
      verified_db gone_found verifies

sample_found : endpoint 7 1 sample_db ≡ some sample_endpoint
unfolding endpoint owned find
sample_found = refl

-- The database after the endpoint is deleted.
abbrev deleted_db : Database
deleted_db = record sample_db {
  endpoints =
      record sample_endpoint { deleted_at = some 1000; status = deleted; enabled = false } ∷ [];
  deliveries = record sample_delivery { status = cancelled } ∷ ended_delivery ∷ [];
  audits = audit sample_request "endpoint.deleted" "endpoint" 1 ∷ [];
}

deletes : delete_endpoint sample_request 1 sample_db ≡ ok deleted_db
unfolding delete_endpoint delete_found mark_deleted cancel_waiting waits_for cancel endpoint owned
    find save update_where require_role check_role membership_role
deletes = refl

delete_endpoint-effect_example :
    (find_endpoint 1 deleted_db.endpoints
      ≡ some (record sample_endpoint { deleted_at = some 1000; status = deleted; enabled = false }))
    × (waiting 7 1 deleted_db ≡ 0)
delete_endpoint-effect_example =
    delete_endpoint-effect sample_request 1 sample_db deleted_db sample_endpoint sample_found refl
      deletes

accept_url : String → Result ValidatedDestination
accept_url url = ok (record { url = "https://example.org/new"; host = "example.org"; port = 443 })

abbrev new_url : Changes
new_url = record {
  url = some "https://EXAMPLE.org/new";
  name = none;
  enabled = none;
  event_types = none;
}

abbrev moved_db : Database
moved_db = record sample_db {
  endpoints =
      record sample_endpoint { url = "https://example.org/new"; status = pending_verification }
      ∷ [];
  audits = audit sample_request "endpoint.updated" "endpoint" 1 ∷ [];
}

moves : update_endpoint accept_url sample_request (λ t. 0) 1 new_url sample_db ≡ ok moved_db
unfolding accept_url update_endpoint write_changes present set_url set_name set_enabled cancel_if
    set_event_types endpoint owned find save require_role check_role membership_role
moves = refl

update_endpoint-url_example :
    (d : ValidatedDestination) × (accept_url "https://EXAMPLE.org/new" ≡ ok d)
    × (e' : Endpoint) × (find_endpoint 1 moved_db.endpoints ≡ some e')
    × IsMoved d.url sample_endpoint e'
update_endpoint-url_example =
    update_endpoint-url accept_url sample_request (λ t. 0) 1 new_url sample_db moved_db
      sample_endpoint "https://EXAMPLE.org/new" sample_found refl refl moves

abbrev new_ids : NewEndpoint
new_ids = record {
  endpoint_id = 30;
  secret_id = 31;
  subscription_id = λ t. 32;
  encrypted = record { ciphertext = 1 ∷ []; nonce = 2 ∷ []; key_version = 1 };
}

accept_any : String → Result ValidatedDestination
accept_any url = ok (record { url = url; host = "example.org"; port = 443 })

abbrev created_db : Database
created_db =
    insert_endpoint sample_request new_ids "second" "https://example.org/" ("order.created" ∷ [])
      sample_db

creates :
    create_endpoint sample_settings accept_any sample_request new_ids " second "
      "https://example.org/"
      ("order.created" ∷ [])
      sample_db
      sample_db
    ≡ ok created_db
unfolding accept_any create_endpoint insert_endpoint is_counted count require_role check_role
    membership_role validate_event_types all_different has_text any_bad bad_event_type is_event_type
    matches codes strip drop_spaces reverse_onto is_space
creates = refl

create_endpoint-limit_example :
    (endpoints_of 7 created_db ≡ endpoints_of 7 sample_db + 1)
    × (endpoints_of 7 sample_db < 20)
    × (endpoints_of 7 created_db ≤ 20 + (endpoints_of 7 sample_db - endpoints_of 7 sample_db))
create_endpoint-limit_example =
    create_endpoint-limit sample_settings accept_any sample_request new_ids " second "
      "https://example.org/" ("order.created" ∷ []) sample_db sample_db created_db creates
