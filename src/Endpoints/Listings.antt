-- ===== src/Endpoints/Listings.antt =====
-- What a member sees of the endpoints: list and get of
-- src/webhook_platform/endpoints/application/use_cases.py, over the queries of
-- src/webhook_platform/endpoints/infrastructure/repository.py.
use webhook_delivery_platfor.Base.{
  ℕ, Bool, not, ◌&&◌, Option, none, some, List, String, ◌==◌, is_some, map, select, order_by,
}
use webhook_delivery_platfor.Schema.{Database, Endpoint, EndpointStatus, EndpointSubscription}
use webhook_delivery_platfor.Errors.{Result, ok, err, not_found_error, ◌>>=◌}
use webhook_delivery_platfor.Access.{Request, any_role, require_role}
use webhook_delivery_platfor.Paging.{Cursor, is_older, page}
use webhook_delivery_platfor.Endpoints.Operations.{endpoint}

-- repository.subscriptions; `collates` is the order of texts in the database.
unfoldable pub subscriptions : (String → String → Bool) → ℕ → Database → List String
subscriptions collates endpoint_id db = order_by collates (
    map (λ (s : EndpointSubscription). s.event_type)
      (select (λ s. s.endpoint_id == endpoint_id) db.subscriptions))

-- _view_with_types
pub record EndpointView : Type 0 where
  pub id : ℕ
  pub name : String
  pub url : String
  pub status : EndpointStatus
  pub enabled : Bool
  pub event_types : List String
  pub created_at : ℕ

-- _view
unfoldable pub endpoint_view : (String → String → Bool) → Database → Endpoint → EndpointView
unfolding subscriptions
endpoint_view collates db e = record {
  id = e.id;
  name = e.name;
  url = e.url;
  status = e.status;
  enabled = e.enabled;
  event_types = subscriptions collates e.id db;
  created_at = e.created_at;
}

abbrev pub endpoint_cursor : Endpoint → Cursor
endpoint_cursor e = record { created_at = e.created_at; id = e.id }

-- The WHERE of repository.endpoints.
abbrev pub is_listed : ℕ → Endpoint → Bool
is_listed organization_id e = e.organization_id == organization_id && not (is_some e.deleted_at)

-- EndpointUseCases.list
unfoldable pub list_endpoints :
    (String → String → Bool)
    → Request
    → Option Cursor
    → ℕ
    → Database
    → Result (List EndpointView × Option Endpoint)
unfolding endpoint_view
list_endpoints collates r cursor limit db = do
  role ← require_role any_role r db.memberships
  let found = page is_older endpoint_cursor (is_listed r.organization_id) cursor limit db.endpoints
  ok (map (endpoint_view collates db) found.0, found.1)

-- EndpointUseCases.get, which also shows a deleted endpoint.
unfoldable pub get_endpoint :
    (String → String → Bool) → Request → ℕ → Database → Result EndpointView
unfolding endpoint_view
get_endpoint collates r endpoint_id db = do
  role ← require_role any_role r db.memberships
  elim (endpoint r.organization_id endpoint_id db) [
    | none ↦ err not_found_error
    | some e ↦ ok (endpoint_view collates db e)
  ]
