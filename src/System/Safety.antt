-- ===== src/System/Safety.antt =====
-- What holds in every state that the platform can come to, in whatever order the transactions of
-- API processes, workers, dispatchers and schedulers commit.
use webhook_delivery_platfor.Base.{
  ℕ, ◌≤◌, ◌<◌, ◌≡◌, ◌∙◌, true, false, some, none, count, count-key, bit, arith, ◌⊎◌, inl, inr, ◌-◌,
}
use webhook_delivery_platfor.Schema.{
  Database, Settings, Delivery, DeliveryAttempt, is_terminal, is_started, is_delivering,
  find_delivery, delivery_key, find_attempt, find_endpoint,
}
use webhook_delivery_platfor.Ledger.{in_flight, started_of, slots}
use webhook_delivery_platfor.Ledger.Terminal.{Moves-terminal, Moves-over}
use webhook_delivery_platfor.Ledger.Moves.{Moves}
use webhook_delivery_platfor.Errors.{ok}
use webhook_delivery_platfor.Deliveries.Claim.Refines.{claim_delivery-Moves}
use webhook_delivery_platfor.Maintenance.Cleanup.{
  CleanupInput, cleanup_expired, days, is_expired, has_old_preview,
}
use webhook_delivery_platfor.Maintenance.Cleanup.Rows.{delivery_after, attempt_after}
use webhook_delivery_platfor.System.{Platform, Step, Reach, start, after}
use webhook_delivery_platfor.System.Balance.{
  IsSound, Effect, claims_more, moves, cleaned, Moves-eq, Step-Effect, Step-IsSound,
}

-- A cleanup that has committed.
abbrev pub IsCleanup : Settings → CleanupInput → Database → Database → Type 0
IsCleanup settings i db db' = (total : ℕ) × (cleanup_expired settings i db ≡ ok (db', total))

-- Moves of the ledger, or a cleanup.
Effect-change :
    (settings : Settings) (q r : Platform)
    → IsSound settings q
    → Effect settings q r
    → Moves settings.max_delivery_attempts q.db r.db
      ⊎ ((i : CleanupInput) × IsCleanup settings i q.db r.db)
Effect-change settings q r w (claims_more i id fresh e claimed) =
    inl (Moves-eq (claim_delivery-Moves _ settings i id q.db w.balanced fresh) e)
Effect-change settings q r w (moves m same) = inl m
Effect-change settings q r w (cleaned i total done left) = inr (i, (total, done))

module _ (settings : Settings) (positive : 0 < settings.max_delivery_attempts) (p : Platform)
    (v : IsSound settings p) where
  -- If at least one attempt is allowed, then from a platform whose ledger is balanced and whose
  -- claims name their rows, every platform that transactions can bring about is one too.
  pub Reach-IsSound : (q : Platform) → Reach settings p q → IsSound settings q
  Reach-IsSound q start = v
  Reach-IsSound q (after {q = m} r s) = Step-IsSound settings positive m q (Reach-IsSound m r) s

  -- If at least one attempt is allowed, then in every state that a sound platform can come to, an
  -- endpoint has at most three deliveries in flight, as many as its counter says.
  pub at_most_three :
      (q : Platform)
      → Reach settings p q
      → (id : ℕ)
      → (count (in_flight id) q.db.deliveries ≤ 3)
        × (slots (find_endpoint id q.db.endpoints) ≡ count (in_flight id) q.db.deliveries)
  at_most_three q r id =
      let w = (Reach-IsSound q r).balanced in
      (omega (arith, w.counted id, w.capacity id), w.counted id)

  -- If at least one attempt is allowed, then in every state that a sound platform can come to, no
  -- delivery has had more attempts than the settings allow.
  pub attempts_within :
      (q : Platform)
      → Reach settings p q
      → (id : ℕ) (d : Delivery) → find_delivery id q.db.deliveries ≡ some d
      → d.attempt_count ≤ settings.max_delivery_attempts
  attempts_within q r id d h = (Reach-IsSound q r).balanced.bounded id d h

  -- If at least one attempt is allowed, then in every state that a sound platform can come to, a
  -- delivery has one started attempt if it is being delivered, and none otherwise.
  pub one_started :
      (q : Platform)
      → Reach settings p q
      → (id : ℕ)
      → count (started_of id) q.db.attempts ≡ elim (find_delivery id q.db.deliveries) [
        | none ↦ 0
        | some d ↦ bit (is_delivering d.status)
      ]
  one_started q r id =
      let w = (Reach-IsSound q r).balanced in
      w.leased id
      ∙ count-key delivery_key id (λ (d : Delivery). is_delivering d.status) q.db.deliveries
          w.delivery_ids

  -- If at least one attempt is allowed, then in every state that a sound platform can come to, a
  -- delivery that has succeeded, is dead-lettered or cancelled stays as it is in the next transaction,
  -- whichever it is, unless a cleanup deletes it, which then finds it older than the retention.
  pub terminal_stays :
      (q r : Platform)
      → Reach settings p q
      → Step settings q r
      → (id : ℕ) (d : Delivery) → find_delivery id q.db.deliveries ≡ some d
      → is_terminal d.status ≡ true
      → (find_delivery id r.db.deliveries ≡ some d)
        ⊎ ((i : CleanupInput) × IsCleanup settings i q.db r.db
            × (is_expired (i.now - days settings.metadata_retention_days) d ≡ true)
            × (find_delivery id r.db.deliveries ≡ none))
  terminal_stays q r reached s id d h end =
      let w = Reach-IsSound q reached in
      elim (Effect-change settings q r w (Step-Effect settings positive q r w s)) [
        | inl m ↦ inl (Moves-terminal settings.max_delivery_attempts q.db m id d h end)
        | inr (i, (total, done)) ↦
            elim (delivery_after settings i q.db r.db total w.balanced.delivery_ids
              w.balanced.attempt_ids done id d h) [
                | inl same ↦ inl same
                | inr (old, gone) ↦ inr (i, (total, done), old, gone)
              ]
      ]

  -- If at least one attempt is allowed, then in every state that a sound platform can come to, an
  -- attempt that is over keeps its row in the next transaction, whichever it is, unless that is a
  -- cleanup: then it may lose a preview that is older than the retention of previews, or be deleted
  -- together with its delivery.
  pub history_stays :
      (q r : Platform)
      → Reach settings p q
      → Step settings q r
      → (id : ℕ) (a : DeliveryAttempt) → find_attempt id q.db.attempts ≡ some a
      → is_started a.outcome ≡ false
      → (find_attempt id r.db.attempts ≡ some a)
        ⊎ ((i : CleanupInput) × IsCleanup settings i q.db r.db
            × (((has_old_preview (i.now - days settings.preview_retention_days) a ≡ true)
                  × (find_attempt id r.db.attempts ≡ some (record a { preview = none })))
                ⊎ ((find_delivery a.delivery_id r.db.deliveries ≡ none)
                    × (find_attempt id r.db.attempts ≡ none))))
  history_stays q r reached s id a h over =
      let w = Reach-IsSound q reached in
      elim (Effect-change settings q r w (Step-Effect settings positive q r w s)) [
        | inl m ↦ inl (Moves-over settings.max_delivery_attempts q.db m id a h over)
        | inr (i, (total, done)) ↦
            elim (attempt_after settings i q.db r.db total w.balanced.delivery_ids
              w.balanced.attempt_ids done id a h) [
                | inl same ↦ inl same
                | inr changed ↦ inr (i, (total, done), changed)
              ]
      ]
