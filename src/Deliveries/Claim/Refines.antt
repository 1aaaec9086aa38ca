-- ===== src/Deliveries/Claim/Refines.antt =====
-- claim_delivery (src/webhook_platform/deliveries/infrastructure/processor.py) against the ledger.
use webhook_delivery_platfor.Base.{
  ℕ, ◌+◌, ◌<◌, ◌≡◌, refl, true, false, ◌||◌, not, Option, none, some, inl, inr, arith, leb,
  Bool-cases, Option-cases, find_key, subst, sym,
}
use webhook_delivery_platfor.Schema.{
  Database, Settings, Endpoint, EndpointSecret, Event, Delivery, DeliveryStatus, Bytes,
  is_delivering, cancelled, dead_lettered, retry_scheduled, is_queued, is_active, find_delivery,
  find_endpoint, find_event, find_attempt, delivery_key, seconds,
}
use webhook_delivery_platfor.Ledger.{IsBalanced}
use webhook_delivery_platfor.Ledger.Moves.{Moves, here, next, one, relabel, note, start}
use webhook_delivery_platfor.Deliveries.Claim.{
  ClaimInput, put_delivery, refuse_secret, begin_attempt, claim_with_secret, claim_with_event,
  claim_with_endpoint, claim_with_delivery, claim_delivery, read_secret, active_secret, is_refused,
}

-- The delivery that the transaction has read: it is queued, and may have another attempt.
record IsReady (limit : ℕ) (db : Database) (d : Delivery) : Type 0 where
  found : find_delivery d.id db.deliveries ≡ some d
  queued_now : is_queued d.status ≡ true
  another : d.attempt_count < limit

module _ (limit : ℕ) (i : ClaimInput) (db : Database) (d : Delivery) (ready : IsReady limit db d)
    (fresh : find_attempt i.new_id db.attempts ≡ none) where
  -- A new status, and a new time for the next attempt, without a lease.
  label-Moves :
      (status : DeliveryStatus) (t : Option ℕ)
      → is_delivering status ≡ false
      → Moves limit db (put_delivery (record d { status = status; next_attempt_at = t }) db)
  label-Moves status t idle = one (
      relabel d (record d { status = status; next_attempt_at = t })
        (record {
          found = ready.found;
          same_id = refl;
          same_endpoint = refl;
          within = omega (arith, ready.another);
          may_wait = λ h. ready.another;
        })
        (ground (arith, ready.queued_now)) idle refl refl refl)

  refuse-Moves : Moves limit db (refuse_secret i d db)
  unfolding refuse_secret
  refuse-Moves =
      next {db' = put_delivery d' db}
        (one (
          relabel d d'
            (record {
              found = ready.found;
              same_id = refl;
              same_endpoint = refl;
              within = omega (arith, ready.another);
              may_wait = λ h. cc;
            })
            (ground (arith, ready.queued_now)) refl refl refl refl))
        (note _ fresh refl refl refl refl)
    where
      d' : Delivery
      d' = record d { attempt_count = d.attempt_count + 1; status = dead_lettered }

  begin-Moves :
      (settings : Settings) (e : Endpoint) (event : Event) (secret : Bytes)
      → find_endpoint d.endpoint_id db.endpoints ≡ some e
      → e.active_delivery_count < 3
      → Moves limit db (begin_attempt settings i d e event secret db).0
  unfolding begin_attempt
  begin-Moves settings e event secret he free = one (
      start d _ e _ _
        (record {
          found = ready.found;
          same_id = refl;
          same_endpoint = refl;
          within = omega (arith, ready.another);
          may_wait = λ h. cc;
        })
        (ground (arith, ready.queued_now)) refl he refl free refl fresh refl refl refl refl refl)

  secret-Moves :
      (settings : Settings) (e : Endpoint) (event : Event) (s : Option EndpointSecret)
      → find_endpoint d.endpoint_id db.endpoints ≡ some e
      → e.active_delivery_count < 3
      → Moves limit db (claim_with_secret settings i d e event s db).0
  unfolding claim_with_secret
  secret-Moves settings e event none he free = refuse-Moves
  secret-Moves settings e event (some s) he free =
      elim (Option-cases (read_secret settings i e s)) [
        | inl h ↦ rw (h, claim_with_secret) refuse-Moves
        | inr (secret, h) ↦ rw (h, claim_with_secret) (begin-Moves settings e event secret he free)
      ]

  event-Moves :
      (settings : Settings) (e : Endpoint) (event : Option Event)
      → find_endpoint d.endpoint_id db.endpoints ≡ some e
      → e.active_delivery_count < 3
      → Moves limit db (claim_with_event settings i d e event db).0
  unfolding claim_with_event
  event-Moves settings e none he free = label-Moves dead_lettered d.next_attempt_at refl
  event-Moves settings e (some event) he free = elim (Bool-cases (is_refused d db.attempts)) [
    | inl refused ↦ rw refused here
    | inr taken ↦ rw taken (secret-Moves settings e event (active_secret e.id db.secrets) he free)
  ]

  endpoint-Moves :
      (settings : Settings) (e : Option Endpoint)
      → find_endpoint d.endpoint_id db.endpoints ≡ e
      → Moves limit db (claim_with_endpoint settings i d e db).0
  unfolding claim_with_endpoint
  endpoint-Moves settings none he = label-Moves cancelled d.next_attempt_at refl
  endpoint-Moves settings (some e) he =
      elim (Bool-cases (not (is_active e.status) || not e.enabled)) [
        | inl h ↦ rw h (label-Moves cancelled d.next_attempt_at refl)
        | inr h ↦ rw h (elim (Bool-cases (leb 3 e.active_delivery_count)) [
          | inl full ↦ rw full (label-Moves retry_scheduled (some (i.now + seconds 1)) refl)
          | inr free ↦
              rw free (event-Moves settings e (find_event d.event_id db.events) he (ground arith))
        ])
      ]

delivery-Moves :
    (limit : ℕ) (settings : Settings) (i : ClaimInput) (id : ℕ) (d : Option Delivery)
    (db : Database)
    → IsBalanced limit db
    → find_attempt i.new_id db.attempts ≡ none
    → find_delivery id db.deliveries ≡ d
    → Moves limit db (claim_with_delivery settings i d db).0
unfolding claim_with_delivery
delivery-Moves limit settings i id none db v fresh h = here
delivery-Moves limit settings i id (some d) db v fresh h = elim (Bool-cases (is_queued d.status)) [
  | inl q ↦ rw q (
      endpoint-Moves limit i db d
        (record {
          found =
              subst (λ k. find_delivery k db.deliveries ≡ some d)
                (sym (find_key delivery_key id db.deliveries h)) h;
          queued_now = q;
          another = v.room id d h (ground arith);
        })
        fresh settings (find_endpoint d.endpoint_id db.endpoints) refl)
  | inr q ↦ rw q here
]

-- On a balanced ledger, with an unused key for the new attempt, a claim is a row of moves of the
-- ledger, whatever it finds.
pub claim_delivery-Moves :
    (limit : ℕ) (settings : Settings) (i : ClaimInput) (id : ℕ) (db : Database)
    → IsBalanced limit db
    → find_attempt i.new_id db.attempts ≡ none
    → Moves limit db (claim_delivery settings i id db).0
unfolding claim_delivery
claim_delivery-Moves limit settings i id db v fresh =
    delivery-Moves limit settings i id (find_delivery id db.deliveries) db v fresh refl
