-- ===== src/Deliveries/Finalize/Effect.antt =====
-- finalize_delivery (src/webhook_platform/deliveries/infrastructure/processor.py): what it
-- makes of the delivery, and that its repetition does nothing.
use webhook_delivery_platfor.Base.{
  ℕ, ◌-◌, ◌≡◌, refl, sym, subst, true, false, ◌&&◌, Option, none, some, inl, inr, arith, Bool-cases,
  ltb, find-saved, if◌then◌else◌,
}
use webhook_delivery_platfor.Schema.{
  Database, Settings, Endpoint, Delivery, DeliveryAttempt, DeliveryStatus, retry_scheduled,
  dead_lettered, is_started, find_delivery, find_endpoint, find_attempt, save_attempt,
  save_delivery, save_endpoint, delivery_key, attempt_key, endpoint_key,
}
use webhook_delivery_platfor.Errors.{Result, ok, err, ok-injective}
use webhook_delivery_platfor.Deliveries.Retry.{is_success, is_retryable}
use webhook_delivery_platfor.Deliveries.Claim.{ClaimedDelivery}
use webhook_delivery_platfor.Deliveries.Exchange.{Outcome}
use webhook_delivery_platfor.Deliveries.Finalize.{
  FinalizeInput, record_response, judge, schedule_retry, store_result, finalize_rows,
  finalize_delivery, is_network_error,
}
use webhook_delivery_platfor.Deliveries.Finalize.Refines.{judge-Judged}

-- The state that an attempt with this result leaves the delivery in: a response of 200 to 299 is a
-- success; a timeout, a network error, a response of 408, 425, 429 or at least 500 is tried again
-- while there are attempts left; all else is final.
unfoldable pub status_after : Settings → Outcome → ℕ → DeliveryStatus
status_after settings o attempts =
    if is_success o.response_status
    then DeliveryStatus.succeeded
    else (if is_retryable o.response_status (is_network_error o.error_code)
          && ltb attempts settings.max_delivery_attempts
        then retry_scheduled
        else dead_lettered)

judge-status :
    (settings : Settings) (i : FinalizeInput) (o : Outcome) (d d' : Delivery)
    (a a' : DeliveryAttempt)
    → judge settings i o d a ≡ ok (d', a')
    → d'.status ≡ status_after settings o d.attempt_count
unfolding judge schedule_retry status_after
judge-status settings i o d d' a a' h = ground arith

module _ (settings : Settings) (i : FinalizeInput) (c : ClaimedDelivery) (o : Outcome)
    (db db' : Database) (d : Delivery) (e : Endpoint) (a : DeliveryAttempt)
    (hd : find_delivery c.delivery_id db.deliveries ≡ some d)
    (he : find_endpoint c.endpoint_id db.endpoints ≡ some e)
    (ha : find_attempt c.attempt_id db.attempts ≡ some a) (st : is_started a.outcome ≡ true) where
  -- The rows that the transaction leaves.
  record Stored : Type 0 where
    delivery : Delivery
    attempt : DeliveryAttempt
    judged : judge settings i o d (record_response i o d a) ≡ ok (delivery, attempt)
    stored : db' ≡ record db {
      deliveries = save_delivery (record delivery { lease_until = none }) db.deliveries;
      endpoints =
          save_endpoint
            (record e { active_delivery_count = e.active_delivery_count - 1 })
            db.endpoints;
      attempts = save_attempt attempt db.attempts;
    }

  stored_rows :
      (r : Result (Delivery × DeliveryAttempt))
      → judge settings i o d (record_response i o d a) ≡ r
      → store_result e db r ≡ ok db'
      → Stored
  unfolding store_result
  stored_rows (err x) h k = cc
  stored_rows (ok (d', a')) h k = record {
    delivery = d';
    attempt = a';
    judged = h;
    stored = sym (ok-injective k);
  }

  finalize-Stored : finalize_delivery settings i c o db ≡ ok db' → Stored
  unfolding finalize_delivery finalize_rows
  finalize-Stored h = stored_rows _ refl (rw (hd, he, ha, st) at h)

  -- The result of an attempt that is still started decides the delivery's state; the lease is gone,
  -- the number of attempts stays, and the endpoint's counter gives back one slot.
  pub finalize_delivery-effect :
      finalize_delivery settings i c o db ≡ ok db'
      → (d' : Delivery) × (find_delivery c.delivery_id db'.deliveries ≡ some d')
        × (d'.status ≡ status_after settings o d.attempt_count)
        × (d'.lease_until ≡ none)
        × (d'.attempt_count ≡ d.attempt_count)
        × (find_endpoint c.endpoint_id db'.endpoints
            ≡ some (record e { active_delivery_count = e.active_delivery_count - 1 }))
  unfolding record_response
  finalize_delivery-effect h =
      let w = finalize-Stored h in
      let j = judge-Judged settings i o d w.delivery (record_response i o d a) w.attempt w.judged in
      (
        record w.delivery { lease_until = none },
        rw w.stored (
            find-saved delivery_key c.delivery_id d (record w.delivery { lease_until = none })
              db.deliveries hd j.same_id),
        judge-status settings i o d w.delivery (record_response i o d a) w.attempt w.judged,
        refl,
        j.same_count,
        rw w.stored (find-saved endpoint_key c.endpoint_id e _ db.endpoints he refl),
      )

  -- The attempt is over.
  finalize-over :
      finalize_delivery settings i c o db ≡ ok db'
      → (a' : DeliveryAttempt) × (find_attempt c.attempt_id db'.attempts ≡ some a')
        × (is_started a'.outcome ≡ false)
  unfolding record_response
  finalize-over h =
      let w = finalize-Stored h in
      let j = judge-Judged settings i o d w.delivery (record_response i o d a) w.attempt w.judged in
      (
        w.attempt,
        rw w.stored (find-saved attempt_key c.attempt_id a w.attempt db.attempts ha j.same_attempt),
        j.over,
      )

over-noop :
    (settings : Settings) (i : FinalizeInput) (c : ClaimedDelivery) (o : Outcome) (db : Database)
    (a : DeliveryAttempt)
    → find_attempt c.attempt_id db.attempts ≡ some a
    → is_started a.outcome ≡ false
    → finalize_delivery settings i c o db ≡ ok db
unfolding finalize_delivery finalize_rows
over-noop settings i c o db a h over = ground (arith, h)

-- A transaction that wrote nothing writes nothing when it is repeated.
unwritten :
    (settings : Settings) (j : FinalizeInput) (c : ClaimedDelivery) (o' : Outcome)
    (db db' : Database)
    → finalize_delivery settings j c o' db ≡ ok db
    → ok db ≡ ok db'
    → finalize_delivery settings j c o' db' ≡ ok db'
unwritten settings j c o' db db' h same =
    subst (λ x. finalize_delivery settings j c o' x ≡ ok x) (ok-injective same) h

module _ (settings : Settings) (i j : FinalizeInput) (c : ClaimedDelivery) (o o' : Outcome)
    (db db' : Database) where
  twice-rows :
      (d : Option Delivery) (e : Option Endpoint) (a : Option DeliveryAttempt)
      → find_delivery c.delivery_id db.deliveries ≡ d
      → find_endpoint c.endpoint_id db.endpoints ≡ e
      → find_attempt c.attempt_id db.attempts ≡ a
      → finalize_delivery settings i c o db ≡ ok db'
      → finalize_delivery settings j c o' db' ≡ ok db'
  unfolding finalize_delivery finalize_rows
  twice-rows (some d) (some e) (some a) hd he ha h = elim (Bool-cases (is_started a.outcome)) [
    | inl st ↦
        let (a', found, over) = finalize-over settings i c o db db' d e a hd he ha st h in
        over-noop settings j c o' db' a' found over
    | inr over ↦
        unwritten settings j c o' db db' (over-noop settings j c o' db a ha over)
          (rw (hd, he, ha, over) at h)
  ]
  twice-rows (some d) (some e) none hd he ha h =
      unwritten settings j c o' db db' (rw (hd, he, ha) refl) (rw (hd, he, ha) at h)
  twice-rows (some d) none a hd he ha h =
      unwritten settings j c o' db db' (rw (hd, he) refl) (rw (hd, he) at h)
  twice-rows none e a hd he ha h = unwritten settings j c o' db db' (rw hd refl) (rw hd at h)

-- A result is stored once: after the transaction has committed, another one for the same claim,
-- whatever result and time it brings, leaves the database as it is.
pub finalize_twice :
    (settings : Settings) (i j : FinalizeInput) (c : ClaimedDelivery) (o o' : Outcome)
    (db db' : Database)
    → finalize_delivery settings i c o db ≡ ok db'
    → finalize_delivery settings j c o' db' ≡ ok db'
finalize_twice settings i j c o o' db db' h =
    twice-rows settings i j c o o' db db' _ _ _ refl refl refl h
