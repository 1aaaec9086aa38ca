-- ===== src/Endpoints/Refines.antt =====
-- The operations of endpoints against the ledger: they do not touch the counters, and end only
-- deliveries that wait.
use webhook_delivery_platfor.Base.{
  ℕ, ◌≡◌, refl, sym, subst, ◌∙◌, Bool, true, false, Option, none, some, List, String, inl, inr,
  arith, Bool-cases, find_key, find-save, is_some,
}
use webhook_delivery_platfor.Schema.{
  Database, Endpoint, is_manager, find_endpoint, save_endpoint, endpoint_key,
}
use webhook_delivery_platfor.Errors.{Result, ok, >>=-eq-ok, ok-injective}
use webhook_delivery_platfor.Access.{Request, require_role}
use webhook_delivery_platfor.Ledger.{slots}
use webhook_delivery_platfor.Ledger.Moves.{Move, Moves, here, next, one, edit, sweep, Moves-trans}
use webhook_delivery_platfor.Endpoints.Network.{ValidatedDestination}
use webhook_delivery_platfor.Endpoints.Operations.{
  Changes, waits_for, cancel, cancel_waiting, owned, endpoint, present, set_url, set_name,
  set_enabled, set_event_types, replace_subscriptions, cancel_if, write_changes, update_endpoint,
  mark_deleted, delete_found, delete_endpoint,
}

-- A write that keeps an endpoint's key and counter changes no counter.
pub slots-save_same :
    (id k : ℕ) (e e' : Endpoint) (t : List Endpoint)
    → find_endpoint k t ≡ some e
    → e'.id ≡ e.id
    → e'.active_delivery_count ≡ e.active_delivery_count
    → slots (find_endpoint id (save_endpoint e' t)) ≡ slots (find_endpoint id t)
slots-save_same id k e e' t h same count =
    rw (find-save endpoint_key id e' t found) (ground (arith, find_key endpoint_key k t h, h))
  where
    found : find_endpoint e'.id t ≡ some e
    found = subst (λ i. find_endpoint i t ≡ some e) (sym (find_key endpoint_key k t h) ∙ sym same) h

cancel_waiting-Move :
    (limit organization_id endpoint_id : ℕ) (db : Database)
    → Move limit db (cancel_waiting organization_id endpoint_id db)
unfolding cancel_waiting waits_for cancel
cancel_waiting-Move limit organization_id endpoint_id db =
    sweep (waits_for organization_id endpoint_id) cancel (λ d h. ground arith) (λ d. refl)
      (λ d. refl) (λ d. refl) (λ d. refl) (λ d. refl) refl refl refl

-- The endpoint that an operation reads is the row with its key.
pub endpoint_found :
    (organization_id endpoint_id : ℕ) (db : Database) {e : Endpoint}
    → endpoint organization_id endpoint_id db ≡ some e
    → find_endpoint endpoint_id db.endpoints ≡ some e
unfolding endpoint owned
endpoint_found organization_id endpoint_id db h = ground arith

-- The columns of an endpoint that the ledger reads.
record Keeps (e e' : Endpoint) : Type 0 where
  same_id : e'.id ≡ e.id
  same_count : e'.active_delivery_count ≡ e.active_delivery_count

pub present-eq : (o : Option Endpoint) {e : Endpoint} → present o ≡ ok e → o ≡ some e
unfolding present
present-eq none h = cc
present-eq (some x) h = ground arith

set_url-Keeps :
    (validate : String → Result ValidatedDestination) (url : Option String) (e e' : Endpoint)
    → set_url validate url e ≡ ok e'
    → Keeps e e'
unfolding set_url
set_url-Keeps validate url e e' h = ground arith

set_enabled-Keeps :
    (name : Option String) (enabled : Option Bool) (e : Endpoint)
    → Keeps e (set_enabled enabled (set_name name e)).0
unfolding set_enabled set_name
set_enabled-Keeps name enabled e = ground arith

cancel_if-Moves :
    (limit organization_id endpoint_id : ℕ) (cancels : Bool) (db : Database)
    → Moves limit db (cancel_if cancels organization_id endpoint_id db)
unfolding cancel_if
cancel_if-Moves limit organization_id endpoint_id true db =
    one (cancel_waiting-Move limit organization_id endpoint_id db)
cancel_if-Moves limit organization_id endpoint_id false db = here

set_event_types-Move :
    (limit : ℕ) (new_id : String → ℕ) (organization_id endpoint_id : ℕ)
    (types : Option (List String)) (db db' : Database)
    → set_event_types new_id organization_id endpoint_id types db ≡ ok db'
    → Move limit db db'
unfolding set_event_types replace_subscriptions
set_event_types-Move limit new_id o id types db db' h =
    edit (ground arith) (ground arith) (λ k. ground arith)

write_changes-Moves :
    (limit : ℕ) (r : Request) (new_id : String → ℕ) (changes : Changes) (db db' : Database) (k : ℕ)
    (e e' : Endpoint)
    → find_endpoint k db.endpoints ≡ some e
    → Keeps e e'
    → write_changes r new_id changes db e' ≡ ok db'
    → Moves limit db db'
unfolding write_changes
write_changes-Moves limit r new_id changes db db' k e e' found keeps h =
    let (final, cancels) = set_enabled changes.enabled (set_name changes.name e') in
    let kept = set_enabled-Keeps changes.name changes.enabled e' in
    let saved : Database = record db { endpoints = save_endpoint final db.endpoints } in
    let cancelled : Database = cancel_if cancels r.organization_id e'.id saved in
    let (db₂, subscribed, audited) =
      >>=-eq-ok (set_event_types new_id r.organization_id e'.id changes.event_types cancelled) _
        h in
    let edited : Move limit db saved = edit refl refl (λ id.
      slots-save_same id k e final db.endpoints found (kept.same_id ∙ keeps.same_id)
        (kept.same_count ∙ keeps.same_count)) in
    Moves-trans (one edited) (
      Moves-trans (cancel_if-Moves limit r.organization_id e'.id cancels saved) (
        next
          (one (
            set_event_types-Move limit new_id r.organization_id e'.id changes.event_types cancelled
              db₂ subscribed))
          (edit (ground arith) (ground arith) (λ id. ground arith))))

-- A change of an endpoint that commits is a row of moves of the ledger.
pub update_endpoint-Moves :
    (limit : ℕ) (validate : String → Result ValidatedDestination) (r : Request)
    (new_id : String → ℕ) (endpoint_id : ℕ) (changes : Changes) (db db' : Database)
    → update_endpoint validate r new_id endpoint_id changes db ≡ ok db'
    → Moves limit db db'
unfolding update_endpoint
update_endpoint-Moves limit validate r new_id endpoint_id changes db db' h =
    let (role, allowed, h₁) = >>=-eq-ok (require_role is_manager r db.memberships) _ h in
    let (e, there, h₂) = >>=-eq-ok (present (endpoint r.organization_id endpoint_id db)) _ h₁ in
    let (e', moved, h₃) = >>=-eq-ok (set_url validate changes.url e) _ h₂ in
    write_changes-Moves limit r new_id changes db db' endpoint_id e e'
      (endpoint_found r.organization_id endpoint_id db (present-eq _ there))
      (set_url-Keeps validate changes.url e e' moved) h₃

delete_found-Moves :
    (limit : ℕ) (r : Request) (endpoint_id : ℕ) (o : Option Endpoint) (db : Database)
    → endpoint r.organization_id endpoint_id db ≡ o
    → Moves limit db (delete_found r o db)
unfolding delete_found
delete_found-Moves limit r endpoint_id none db h = here
delete_found-Moves limit r endpoint_id (some e) db h = elim (Bool-cases (is_some e.deleted_at)) [
  | inl gone ↦ rw gone here
  | inr there ↦ rw there (
      let saved : Database = record db {
        endpoints = save_endpoint (mark_deleted r.now e) db.endpoints;
      } in
      let edited : Move limit db saved = edit refl refl (λ id.
        slots-save_same id endpoint_id e (mark_deleted r.now e) db.endpoints
          (endpoint_found r.organization_id endpoint_id db h) (unfold mark_deleted in refl)
          (unfold mark_deleted in refl)) in
      next (next (one edited) (cancel_waiting-Move limit r.organization_id e.id saved))
        (edit refl refl (λ id. refl)))
]

pub delete_endpoint-Moves :
    (limit : ℕ) (r : Request) (endpoint_id : ℕ) (db db' : Database)
    → delete_endpoint r endpoint_id db ≡ ok db'
    → Moves limit db db'
unfolding delete_endpoint
delete_endpoint-Moves limit r endpoint_id db db' h =
    let (role, allowed, h₁) = >>=-eq-ok (require_role is_manager r db.memberships) _ h in
    subst (Moves limit db) (ok-injective h₁)
      (delete_found-Moves limit r endpoint_id (endpoint r.organization_id endpoint_id db) db refl)
