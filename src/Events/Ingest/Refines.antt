-- ===== src/Events/Ingest/Refines.antt =====
-- The ingestion of events (src/webhook_platform/events) against the ledger.
use webhook_delivery_platfor.Base.{
  ℕ, suc, ◌<◌, ◌≤◌, ◌≡◌, refl, subst, none, inl, inr, List, [], ◌∷◌, arith, Option-cases,
  Bool-cases, ltb, find,
}
use webhook_delivery_platfor.Schema.{Database, Settings, Event, Endpoint, find_delivery}
use webhook_delivery_platfor.Errors.{Result, ok, >>=-eq-ok, ok-injective}
use webhook_delivery_platfor.Ledger.Moves.{Move, Moves, here, one, edit, create, Moves-trans}
use webhook_delivery_platfor.Events.Repository.{
  NewIds, queued_delivery, add_delivery, add_deliveries, receivers, create_event_graph,
  existing_idempotency, projected_backlog,
}
use webhook_delivery_platfor.Events.Ingest.{
  EventInput, Encoders, Accepted, prepare, idempotent_result, with_database, write, ingest_event,
  ingest,
}

-- The keys of new deliveries are not in use, and differ.
pub record AreFresh (ids : NewIds) (db : Database) : Type 0 where
  pub unused : (n : ℕ) → find_delivery (ids.delivery_id n) db.deliveries ≡ none
  pub different : (m n : ℕ) → ids.delivery_id m ≡ ids.delivery_id n → m ≡ n

-- The keys from `n` on are not in use.
abbrev UnusedFrom : ℕ → NewIds → Database → Type 0
UnusedFrom n ids db = (m : ℕ) → n ≤ m → find_delivery (ids.delivery_id m) db.deliveries ≡ none

module _ (limit now : ℕ) (positive : 0 < limit) (ids : NewIds)
    (different : (m n : ℕ) → ids.delivery_id m ≡ ids.delivery_id n → m ≡ n) (event : Event) where
  add_delivery-Move :
      (n : ℕ) (e : Endpoint) (db : Database)
      → UnusedFrom n ids db
      → Move limit db (add_delivery now ids n event e db)
  unfolding add_delivery queued_delivery
  add_delivery-Move n e db unused = create _ (unused n (omega arith)) refl positive refl refl refl

  add_delivery-UnusedFrom :
      (n : ℕ) (e : Endpoint) (db : Database)
      → UnusedFrom n ids db
      → UnusedFrom (suc n) ids (add_delivery now ids n event e db)
  unfolding add_delivery queued_delivery find
  add_delivery-UnusedFrom n e db unused m h = ground (arith, unused m (omega arith), different n m)

  add_deliveries-Moves :
      (es : List Endpoint) (n : ℕ) (db : Database)
      → UnusedFrom n ids db
      → Moves limit db (add_deliveries now ids n event es db)
  unfolding add_deliveries
  add_deliveries-Moves [] n db unused = here
  add_deliveries-Moves (e ∷ es) n db unused = Moves-trans (one (add_delivery-Move n e db unused)) (
      add_deliveries-Moves es (suc n) (add_delivery now ids n event e db)
        (add_delivery-UnusedFrom n e db unused))

create_event_graph-Moves :
    (limit now : ℕ) (ids : NewIds) (event : Event) (db : Database)
    → 0 < limit
    → AreFresh ids db
    → Moves limit db (create_event_graph now ids event db).0
unfolding create_event_graph
create_event_graph-Moves limit now ids event db positive fresh = Moves-trans (one (first)) (
    add_deliveries-Moves limit now positive ids fresh.different event
      (receivers event.organization_id event.event_type db) 0 stored (λ m h. fresh.unused m))
  where
    stored : Database
    stored = record db { events = event ∷ db.events }

    first : Move limit db stored
    first = edit refl refl (λ id. refl)

-- What comes back with the database as it was.
with_database-eq :
    (db : Database) (r : Result Accepted) (x : Database × Accepted)
    → with_database db r ≡ ok x
    → db ≡ x.0
with_database-eq db r x h = ground arith

write-Moves :
    (limit : ℕ) (settings : Settings) (ids : NewIds) (event : Event) (db : Database)
    (result : Database × Accepted)
    → 0 < limit
    → AreFresh ids db
    → write settings ids event db ≡ ok result
    → Moves limit db result.0
unfolding write
write-Moves limit settings ids event db result positive fresh h =
    elim (Bool-cases
      (ltb settings.backlog_limit (projected_backlog event.organization_id event.event_type db))) [
        | inl full ↦ absurd (ground arith)
        | inr room ↦
            elim (Option-cases (
              existing_idempotency event.organization_id event.api_key_id event.idempotency_key
                db)) [
                  | inl new ↦
                      subst (λ x. Moves limit db x.0) (ok-injective (rw (room, new) at h))
                        (create_event_graph-Moves limit event.created_at ids event db positive
                          fresh)
                  | inr (found, old) ↦
                      subst (Moves limit db)
                        (with_database-eq db (idempotent_result event.fingerprint found) result
                          (rw (room, old) at h))
                        here
                ]
      ]

ingest_event-Moves :
    (limit : ℕ) (settings : Settings) (ids : NewIds) (event : Event) (seen db : Database)
    (result : Database × Accepted)
    → 0 < limit
    → AreFresh ids db
    → ingest_event settings ids event seen db ≡ ok result
    → Moves limit db result.0
unfolding ingest_event
ingest_event-Moves limit settings ids event seen db result positive fresh h =
    elim (Option-cases
      (existing_idempotency event.organization_id event.api_key_id event.idempotency_key seen)) [
        | inl new ↦
            write-Moves limit settings ids event db result positive fresh
              (rw (new, ingest_event) at h)
        | inr (found, old) ↦
            subst (Moves limit db)
              (with_database-eq db (idempotent_result event.fingerprint found) result
                (rw (old, ingest_event) at h))
              here
      ]

-- An ingestion that commits is a row of moves of the ledger.
pub ingest-Moves :
    (limit : ℕ) (settings : Settings) (enc : Encoders) (now : ℕ) (ids : NewIds) (i : EventInput)
    (seen db : Database) (result : Database × Accepted)
    → 0 < limit
    → AreFresh ids db
    → ingest settings enc now ids i seen db ≡ ok result
    → Moves limit db result.0
unfolding ingest
ingest-Moves limit settings enc now ids i seen db result positive fresh h =
    let (event, prepared, h₁) =
      >>=-eq-ok (prepare settings enc now ids.event_id i)
        (λ event. ingest_event settings ids event seen db) h in
    ingest_event-Moves limit settings ids event seen db result positive fresh h₁
