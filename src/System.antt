-- ===== src/System.antt =====
-- The running platform: any number of API processes, workers, dispatchers and schedulers, whose
-- transactions on the one database are interleaved in any order. Each constructor of `Step` is
-- one committed transaction. Between the claim of a delivery and its result a worker holds the
-- claim alone, so a crash of a worker is a claim that is never finished.
pub mod Balance
pub mod Safety
use webhook_delivery_platfor.Base.{
  ℕ, ◌≡◌, ◌⊎◌, Bool, Option, none, some, List, [], ◌∷◌, String, select, is_some,
}
use webhook_delivery_platfor.Schema.{
  Database, Settings, Delivery, Endpoint, OutboxMessage, find_attempt, find_endpoint, find_delivery,
}
use webhook_delivery_platfor.Errors.{Result, ok}
use webhook_delivery_platfor.Access.{Request}
use webhook_delivery_platfor.Deliveries.Claim.{ClaimInput, ClaimedDelivery, claim_delivery}
use webhook_delivery_platfor.Deliveries.Exchange.{Outcome}
use webhook_delivery_platfor.Deliveries.Finalize.{FinalizeInput, finalize_delivery}
use webhook_delivery_platfor.Deliveries.Replay.{ReplayIds, replay}
use webhook_delivery_platfor.Maintenance.Reconcile.{schedule_due, reconcile_stale}
use webhook_delivery_platfor.Maintenance.Cleanup.{CleanupInput, cleanup_expired}
use webhook_delivery_platfor.Endpoints.Network.{ValidatedDestination}
use webhook_delivery_platfor.Endpoints.Operations.{Changes, update_endpoint, delete_endpoint}
use webhook_delivery_platfor.Endpoints.Verification.{
  NewEndpoint, create_endpoint, begin_verify, complete_verify,
}
use webhook_delivery_platfor.Events.Repository.{NewIds}
use webhook_delivery_platfor.Events.Ingest.{EventInput, Encoders, Accepted, ingest}
use webhook_delivery_platfor.Events.Ingest.Refines.{AreFresh}

-- The database, and the claims that workers have been handed so far.
pub record Platform : Type 0 where
  pub db : Database
  pub claims : List ClaimedDelivery

-- The claims with the one that a transaction handed out, if it did.
abbrev pub hand_out : Option ClaimedDelivery → List ClaimedDelivery → List ClaimedDelivery
hand_out none claims = claims
hand_out (some c) claims = c ∷ claims

abbrev pub In : ClaimedDelivery → List ClaimedDelivery → Type 0
In c [] = ⊥
In c (x ∷ xs) = (x ≡ c) ⊎ In c xs

-- The delivery of the claim is there.
abbrev pub is_left : Database → ClaimedDelivery → Bool
is_left db c = is_some (find_delivery c.delivery_id db.deliveries)

-- One committed transaction. What it takes from outside is arbitrary; new rows have unused keys.
pub data Step (settings : Settings) (p q : Platform) : Type 0 where
  claims_delivery :
      (i : ClaimInput) (delivery_id : ℕ)
      → find_attempt i.new_id p.db.attempts ≡ none
      → q.db ≡ (claim_delivery settings i delivery_id p.db).0
      → q.claims ≡ hand_out (claim_delivery settings i delivery_id p.db).1 p.claims
      → Step settings p q
  finalizes :
      (i : FinalizeInput) (c : ClaimedDelivery) (o : Outcome)
      → In c p.claims
      → finalize_delivery settings i c o p.db ≡ ok q.db
      → q.claims ≡ p.claims
      → Step settings p q
  schedules :
      (now : ℕ) (locked : ℕ → Bool) (message_id : ℕ → ℕ)
      → q.db ≡ schedule_due settings now locked message_id p.db
      → q.claims ≡ p.claims
      → Step settings p q
  reconciles :
      (now : ℕ) (before : Delivery → Delivery → Bool) (locked : ℕ → Bool)
      → q.db ≡ reconcile_stale settings now before locked p.db
      → q.claims ≡ p.claims
      → Step settings p q
  -- A retention cleanup. A claim whose delivery it deletes is void: storing its result finds no row.
  cleans :
      (i : CleanupInput) (total : ℕ)
      → cleanup_expired settings i p.db ≡ ok (q.db, total)
      → q.claims ≡ select (is_left q.db) p.claims
      → Step settings p q
  -- The dispatcher writes the outbox only.
  dispatches :
      (outbox : List OutboxMessage)
      → q.db ≡ record p.db { outbox = outbox }
      → q.claims ≡ p.claims
      → Step settings p q
  ingests :
      (enc : Encoders) (now : ℕ) (ids : NewIds) (i : EventInput) (seen : Database)
      (result : Database × Accepted)
      → AreFresh ids p.db
      → ingest settings enc now ids i seen p.db ≡ ok result
      → q.db ≡ result.0
      → q.claims ≡ p.claims
      → Step settings p q
  replays :
      (r : Request) (ids : ReplayIds) (delivery_id : ℕ) (key : String) (seen : Database)
      (result : Database × Delivery × Bool)
      → find_delivery ids.delivery_id p.db.deliveries ≡ none
      → replay r ids delivery_id key seen p.db ≡ ok result
      → q.db ≡ result.0
      → q.claims ≡ p.claims
      → Step settings p q
  creates :
      (validate : String → Result ValidatedDestination) (r : Request) (n : NewEndpoint)
      (name url : String) (types : List String) (seen : Database)
      → find_endpoint n.endpoint_id p.db.endpoints ≡ none
      → create_endpoint settings validate r n name url types seen p.db ≡ ok q.db
      → q.claims ≡ p.claims
      → Step settings p q
  updates :
      (validate : String → Result ValidatedDestination) (r : Request) (new_id : String → ℕ)
      (endpoint_id : ℕ) (changes : Changes)
      → update_endpoint validate r new_id endpoint_id changes p.db ≡ ok q.db
      → q.claims ≡ p.claims
      → Step settings p q
  deletes :
      (r : Request) (endpoint_id : ℕ)
      → delete_endpoint r endpoint_id p.db ≡ ok q.db
      → q.claims ≡ p.claims
      → Step settings p q
  begins_verification :
      (validate : String → Result ValidatedDestination) (r : Request) (hash : String)
      (endpoint_id : ℕ)
      → begin_verify validate r hash endpoint_id p.db ≡ ok q.db
      → q.claims ≡ p.claims
      → Step settings p q
  completes_verification :
      (r : Request) (hash : String) (answered : Bool) (held : Endpoint)
      → complete_verify r hash answered held p.db ≡ ok q.db
      → q.claims ≡ p.claims
      → Step settings p q

-- What the platform can come to, from one state, in any order of transactions.
pub data Reach (settings : Settings) (p : Platform) : Platform → Type 0 where
  start : Reach settings p p
  after : {q r : Platform} → Reach settings p q → Step settings q r → Reach settings p r
