-- ===== src/Deliveries/Claim/Names.antt =====
-- The rows that a claim names (ClaimedDelivery of
-- src/webhook_platform/deliveries/infrastructure/processor.py) from the claim on.
pub mod Stable
use webhook_delivery_platfor.Base.{
  ℕ, ◌≡◌, ◌≢◌, refl, sym, subst, ◌∙◌, Bool, true, false, ◌||◌, not, Option, none, some, ◌∷◌, inl,
  inr, arith, leb, if◌then◌else◌, ◌==◌, Bool-cases, Option-cases, find, find_key, find-save,
  update_where, find-update_where, eq_self,
}
use webhook_delivery_platfor.Schema.{
  Database, Settings, Endpoint, EndpointSecret, Event, Delivery, DeliveryAttempt, Bytes,
  find_delivery, find_endpoint, find_event, find_attempt, delivery_key, attempt_key, endpoint_key,
  is_queued, is_active,
}
use webhook_delivery_platfor.Ledger.Moves.{
  Move, Moves, Replaces, edit, relabel, note, start, settle, sweep, create, here, next,
}
use webhook_delivery_platfor.Deliveries.Claim.{
  ClaimedDelivery, ClaimInput, lease, begin_attempt, refuse_secret, new_attempt, read_secret,
  active_secret, claim_with_secret, claim_with_event, claim_with_endpoint, claim_with_delivery,
  claim_delivery, is_refused,
}

-- The rows that a claim names still belong together. (They never change in these columns.)
pub record Names (c : ClaimedDelivery) (db : Database) : Type 0 where
  pub delivery_there : find_delivery c.delivery_id db.deliveries ≢ none
  pub attempt_there : find_attempt c.attempt_id db.attempts ≢ none
  pub of_endpoint :
      (d : Delivery)
      → find_delivery c.delivery_id db.deliveries ≡ some d
      → d.endpoint_id ≡ c.endpoint_id
  pub of_delivery :
      (a : DeliveryAttempt)
      → find_attempt c.attempt_id db.attempts ≡ some a
      → a.delivery_id ≡ c.delivery_id

module _ (c : ClaimedDelivery) (i : ClaimInput) (db : Database) (d : Delivery)
    (found : find_delivery d.id db.deliveries ≡ some d) where
  begin-Names :
      (settings : Settings) (e : Endpoint) (event : Event) (secret : Bytes)
      → find_endpoint d.endpoint_id db.endpoints ≡ some e
      → (begin_attempt settings i d e event secret db).1 ≡ some c
      → Names c (begin_attempt settings i d e event secret db).0
  unfolding begin_attempt find
  begin-Names settings e event secret he h = record {
    delivery_there = λ gone.
        ground
          (arith, find-save delivery_key d.id (lease settings i d) db.deliveries {s = d} found);
    attempt_there = λ gone. ground arith;
    of_endpoint = λ x hx. ground (
      arith,
      find-save delivery_key d.id (lease settings i d) db.deliveries {s = d} found,
      find_key endpoint_key d.endpoint_id db.endpoints he,
    );
    of_delivery = λ a ha. ground arith;
  }

  secret-Names :
      (settings : Settings) (e : Endpoint) (event : Event) (s : Option EndpointSecret)
      → find_endpoint d.endpoint_id db.endpoints ≡ some e
      → (claim_with_secret settings i d e event s db).1 ≡ some c
      → Names c (claim_with_secret settings i d e event s db).0
  unfolding claim_with_secret
  secret-Names settings e event none he = λ h. absurd (cc)
  secret-Names settings e event (some s) he = elim (Option-cases (read_secret settings i e s)) [
    | inl t ↦ rw (t, claim_with_secret) (λ h. absurd (cc))
    | inr (secret, t) ↦ rw (t, claim_with_secret) (begin-Names settings e event secret he)
  ]

  event-Names :
      (settings : Settings) (e : Endpoint) (event : Option Event)
      → find_endpoint d.endpoint_id db.endpoints ≡ some e
      → (claim_with_event settings i d e event db).1 ≡ some c
      → Names c (claim_with_event settings i d e event db).0
  unfolding claim_with_event
  event-Names settings e none he = λ h. absurd (cc)
  event-Names settings e (some event) he = elim (Bool-cases (is_refused d db.attempts)) [
    | inl refused ↦ rw refused (λ h. absurd (cc))
    | inr taken ↦ rw taken (secret-Names settings e event (active_secret e.id db.secrets) he)
  ]

  endpoint-Names :
      (settings : Settings) (e : Option Endpoint)
      → find_endpoint d.endpoint_id db.endpoints ≡ e
      → (claim_with_endpoint settings i d e db).1 ≡ some c
      → Names c (claim_with_endpoint settings i d e db).0
  unfolding claim_with_endpoint
  endpoint-Names settings none he = λ h. absurd (cc)
  endpoint-Names settings (some e) he =
      elim (Bool-cases (not (is_active e.status) || not e.enabled)) [
        | inl t ↦ rw t (λ h. absurd (cc))
        | inr t ↦ rw t (elim (Bool-cases (leb 3 e.active_delivery_count)) [
          | inl full ↦ rw full (λ h. absurd (cc))
          | inr free ↦ rw free (event-Names settings e (find_event d.event_id db.events) he)
        ])
      ]

delivery-Names :
    (c : ClaimedDelivery) (settings : Settings) (i : ClaimInput) (id : ℕ) (d : Option Delivery)
    (db : Database)
    → find_delivery id db.deliveries ≡ d
    → (claim_with_delivery settings i d db).1 ≡ some c
    → Names c (claim_with_delivery settings i d db).0
unfolding claim_with_delivery
delivery-Names c settings i id none db hd = λ h. absurd (cc)
delivery-Names c settings i id (some d) db hd = elim (Bool-cases (is_queued d.status)) [
  | inl q ↦ rw q (
      endpoint-Names c i db d
        (subst (λ k. find_delivery k db.deliveries ≡ some d)
          (sym (find_key delivery_key id db.deliveries hd)) hd)
        settings (find_endpoint d.endpoint_id db.endpoints) refl)
  | inr q ↦ rw q (λ h. absurd (cc))
]

-- A claim that is handed out names rows that are there and belong together.
pub claim_delivery-Names :
    (c : ClaimedDelivery) (settings : Settings) (i : ClaimInput) (id : ℕ) (db : Database)
    → (claim_delivery settings i id db).1 ≡ some c
    → Names c (claim_delivery settings i id db).0
unfolding claim_delivery
claim_delivery-Names c settings i id db =
    delivery-Names c settings i id (find_delivery id db.deliveries) db refl
