-- ===== src/Endpoints/Lifecycle/Url.antt =====
-- src/webhook_platform/endpoints/application/use_cases.py, update: a new URL of an endpoint.
use webhook_delivery_platfor.Base.{
  subst, ap, ℕ, ◌≡◌, refl, sym, ◌∙◌, Bool, true, false, Option, some, List, String, arith, str_eq,
  find-saved,
}
use webhook_delivery_platfor.Schema.{
  Database, Endpoint, pending_verification, is_manager, find_endpoint, endpoint_key, save_endpoint,
}
use webhook_delivery_platfor.Errors.{Result, ok, err, >>=-eq-ok, ok-injective}
use webhook_delivery_platfor.Access.{Request, require_role}
use webhook_delivery_platfor.Endpoints.Network.{ValidatedDestination}
use webhook_delivery_platfor.Endpoints.Operations.{
  replace_subscriptions, Changes, update_endpoint, cancel_waiting, endpoint, present, set_url,
  set_name, set_enabled, set_event_types, write_changes, cancel_if,
}
use webhook_delivery_platfor.Endpoints.Refines.{endpoint_found, present-eq}

set_event_types-endpoints :
    (new_id : String → ℕ) (o k : ℕ) (types : Option (List String)) (db db' : Database)
    → set_event_types new_id o k types db ≡ ok db'
    → db'.endpoints ≡ db.endpoints
unfolding set_event_types replace_subscriptions
set_event_types-endpoints new_id o k types db db' h = ground arith

cancel_if-endpoints :
    (b : Bool) (o k : ℕ) (db : Database) → (cancel_if b o k db).endpoints ≡ db.endpoints
unfolding cancel_if cancel_waiting
cancel_if-endpoints true o k db = refl
cancel_if-endpoints false o k db = refl

-- The endpoint's row after the rest of an update.
write_changes-endpoints :
    (r : Request) (new_id : String → ℕ) (changes : Changes) (db db' : Database) (e : Endpoint)
    → write_changes r new_id changes db e ≡ ok db'
    → db'.endpoints
      ≡ save_endpoint (set_enabled changes.enabled (set_name changes.name e)).0 db.endpoints
unfolding write_changes
write_changes-endpoints r new_id changes db db' e h =
    let (final, cancels) = set_enabled changes.enabled (set_name changes.name e) in
    let saved : Database = record db { endpoints = save_endpoint final db.endpoints } in
    let cancelled : Database = cancel_if cancels r.organization_id e.id saved in
    let (db₂, subscribed, audited) =
      >>=-eq-ok (set_event_types new_id r.organization_id e.id changes.event_types cancelled) _ h in
    rw⁻¹ (ok-injective audited) (
      set_event_types-endpoints new_id r.organization_id e.id changes.event_types cancelled db₂
        subscribed
      ∙ cancel_if-endpoints cancels r.organization_id e.id saved)

-- What the other changes leave of an endpoint that is to be verified.
pub record IsMoved (url : String) (e e' : Endpoint) : Type 0 where
  pub same_id : e'.id ≡ e.id
  pub pending : e'.status ≡ pending_verification
  pub moved : e'.url ≡ url
  pub same_hash : e'.verification_hash ≡ e.verification_hash
  pub same_expiry : e'.verification_expires_at ≡ e.verification_expires_at

set_enabled-IsMoved :
    (name : Option String) (enabled : Option Bool) (url : String) (e : Endpoint)
    → IsMoved url e
        (set_enabled enabled
          (set_name name (record e { url = url; status = pending_verification }))).0
unfolding set_enabled set_name
set_enabled-IsMoved name enabled url e = ground arith

set_url-new :
    (validate : String → Result ValidatedDestination) (url : String) (e e' : Endpoint)
    → str_eq url e.url ≡ false
    → set_url validate (some url) e ≡ ok e'
    → (d : ValidatedDestination) × (validate url ≡ ok d)
      × (e' ≡ record e { url = d.url; status = pending_verification })
unfolding set_url
set_url-new validate url e e' other h = go (validate url) (rw other at h)
  where
    go :
        (v : Result ValidatedDestination)
        → (elim v [
          | err x ↦ err x
          | ok d ↦ ok (record e { url = d.url; status = pending_verification })
        ])
          ≡ ok e'
        → (d : ValidatedDestination) × (v ≡ ok d)
          × (e' ≡ record e { url = d.url; status = pending_verification })
    go (ok d) k = (d, refl, sym (ok-injective k))
    go (err x) k = cc

row_of_move :
    (r : Request) (new_id : String → ℕ) (id : ℕ) (changes : Changes) (db db' : Database)
    (e e₁ : Endpoint) (url : String)
    → find_endpoint id db.endpoints ≡ some e
    → e₁ ≡ record e { url = url; status = pending_verification }
    → write_changes r new_id changes db e₁ ≡ ok db'
    → (e' : Endpoint) × (find_endpoint id db'.endpoints ≡ some e') × IsMoved url e e'
row_of_move r new_id id changes db db' e e₁ url he changed h =
    let kept = set_enabled-IsMoved changes.name changes.enabled url e in
    let written = write_changes-endpoints r new_id changes db db' e₁ h in
    (
      _,
      subst
          (λ t.
            find_endpoint id t
            ≡ some (
                (set_enabled changes.enabled (
                  set_name changes.name
                    (record e { url = url; status = pending_verification }))).0))
          (sym (
            written
            ∙ ap
                (λ x.
                  save_endpoint (set_enabled changes.enabled (set_name changes.name x)).0
                    db.endpoints)
                changed))
          (find-saved endpoint_key id e _ db.endpoints he kept.same_id),
      kept,
    )

-- An update with another URL that commits has validated that URL, stores the validated form, and
-- leaves the endpoint to be verified, whatever else the update changes. A challenge that was
-- outstanding stays outstanding.
pub update_endpoint-url :
    (validate : String → Result ValidatedDestination) (r : Request) (new_id : String → ℕ) (id : ℕ)
    (changes : Changes) (db db' : Database) (e : Endpoint) (url : String)
    → endpoint r.organization_id id db ≡ some e
    → changes.url ≡ some url
    → str_eq url e.url ≡ false
    → update_endpoint validate r new_id id changes db ≡ ok db'
    → (d : ValidatedDestination) × (validate url ≡ ok d)
      × (e' : Endpoint) × (find_endpoint id db'.endpoints ≡ some e')
      × IsMoved d.url e e'
unfolding update_endpoint
update_endpoint-url validate r new_id id changes db db' e url he asked other h =
    let (role, _, h₁) = >>=-eq-ok (require_role is_manager r db.memberships) _ h in
    let (e₀, there, h₂) = >>=-eq-ok (present (endpoint r.organization_id id db)) _ h₁ in
    let (e₁, moved, h₃) = >>=-eq-ok (set_url validate changes.url e₀) _ h₂ in
    let same : e₀ ≡ e = some-injective (sym (present-eq _ there) ∙ he) in
    let (d, valid, changed) = set_url-new validate url e e₁ other (rw (same, asked) at moved) in
    let (e', found, kept) =
      row_of_move r new_id id changes db db' e e₁ d.url (endpoint_found r.organization_id id db he)
        changed h₃ in
    (d, valid, e', found, kept)
  where
    some-injective : {x y : Endpoint} → some x ≡ some y → x ≡ y
    some-injective p = cc
