-- ===== src/Endpoints/Verification/Refines.antt =====
-- The creation and the verification of an endpoint against the ledger.
use webhook_delivery_platfor.Base.{
  ℕ, ◌≡◌, refl, subst, Bool, Option, none, some, List, String, arith, strip, find, count, leb,
}
use webhook_delivery_platfor.Schema.{Database, Settings, Endpoint, is_manager, find_endpoint}
use webhook_delivery_platfor.Errors.{Result, ok, >>=-eq-ok, ok-injective}
use webhook_delivery_platfor.Access.{Request, require_role}
use webhook_delivery_platfor.Ledger.Moves.{Move, Moves, one, edit}
use webhook_delivery_platfor.Endpoints.Network.{ValidatedDestination}
use webhook_delivery_platfor.Endpoints.Operations.{endpoint, present, validate_event_types}
use webhook_delivery_platfor.Endpoints.Refines.{slots-save_same, endpoint_found, present-eq}
use webhook_delivery_platfor.Endpoints.Verification.{
  NewEndpoint, new_endpoint, insert_endpoint, create_endpoint, check_limit, is_counted, secret_of,
  present_secret, set_challenge, begin_verify, check_answer, reread, check_challenge, activate,
  complete_verify,
}

-- A new endpoint has no delivery in flight.
insert_endpoint-Move :
    (limit : ℕ) (r : Request) (n : NewEndpoint) (name url : String) (types : List String)
    (db : Database)
    → find_endpoint n.endpoint_id db.endpoints ≡ none
    → Move limit db (insert_endpoint r n name url types db)
unfolding insert_endpoint new_endpoint find
insert_endpoint-Move limit r n name url types db fresh =
    edit refl refl (λ id. ground (arith, fresh))

pub create_endpoint-Moves :
    (limit : ℕ) (settings : Settings) (validate : String → Result ValidatedDestination)
    (r : Request) (n : NewEndpoint) (name url : String) (types : List String)
    (seen db db' : Database)
    → find_endpoint n.endpoint_id db.endpoints ≡ none
    → create_endpoint settings validate r n name url types seen db ≡ ok db'
    → Moves limit db db'
unfolding create_endpoint
create_endpoint-Moves limit settings validate r n name url types seen db db' fresh h =
    let (role, allowed, h₁) = >>=-eq-ok (require_role is_manager r seen.memberships) _ h in
    let (_, below, h₂) =
      >>=-eq-ok
        (check_limit
          (leb settings.endpoint_limit (count (is_counted r.organization_id) seen.endpoints)))
        _ h₁ in
    let (d, valid, h₃) = >>=-eq-ok (validate url) _ h₂ in
    let (ts, proper, h₄) = >>=-eq-ok (validate_event_types types) _ h₃ in
    subst (Moves limit db) (ok-injective h₄)
      (one (insert_endpoint-Move limit r n (strip name) d.url ts db fresh))

reread-eq : (o : Option Endpoint) {e : Endpoint} → reread o ≡ ok e → o ≡ some e
unfolding reread
reread-eq none h = cc
reread-eq (some x) h = cc

pub begin_verify-Moves :
    (limit : ℕ) (validate : String → Result ValidatedDestination) (r : Request) (hash : String)
    (endpoint_id : ℕ) (db db' : Database)
    → begin_verify validate r hash endpoint_id db ≡ ok db'
    → Moves limit db db'
unfolding begin_verify
begin_verify-Moves limit validate r hash endpoint_id db db' h =
    let (role, allowed, h₁) = >>=-eq-ok (require_role is_manager r db.memberships) _ h in
    let (e, there, h₂) = >>=-eq-ok (present (endpoint r.organization_id endpoint_id db)) _ h₁ in
    let (s, readable, h₃) =
      >>=-eq-ok (present_secret (secret_of r.organization_id endpoint_id db.secrets)) _ h₂ in
    let (d, valid, h₄) = >>=-eq-ok (validate e.url) _ h₃ in
    subst (Moves limit db) (ok-injective h₄) (
      one (
        edit refl refl (λ id.
          slots-save_same id endpoint_id e (set_challenge r.now hash e) db.endpoints
            (endpoint_found r.organization_id endpoint_id db (present-eq _ there))
            (unfold set_challenge in refl) (unfold set_challenge in refl))))

pub complete_verify-Moves :
    (limit : ℕ) (r : Request) (hash : String) (answered : Bool) (held : Endpoint)
    (db db' : Database)
    → complete_verify r hash answered held db ≡ ok db'
    → Moves limit db db'
unfolding complete_verify
complete_verify-Moves limit r hash answered held db db' h =
    let (_, yes', h₁) = >>=-eq-ok (check_answer answered) _ h in
    let (row, there, h₂) = >>=-eq-ok (reread (endpoint r.organization_id held.id db)) _ h₁ in
    let (_, current, h₃) = >>=-eq-ok (check_challenge r.now hash held) _ h₂ in
    subst (Moves limit db) (ok-injective h₃) (
      one (
        edit refl refl (λ id.
          slots-save_same id held.id row (activate held row) db.endpoints
            (endpoint_found r.organization_id held.id db (reread-eq _ there))
            (unfold activate in refl) (unfold activate in refl))))
