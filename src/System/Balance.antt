-- ===== src/System/Balance.antt =====
-- The ledger is balanced in every state that the platform can come to.
use webhook_delivery_platfor.Base.{
  ℕ, ◌<◌, ◌≡◌, refl, sym, subst, Option, none, some, List, [], ◌∷◌, inl, inr, All, All-imp,
  All-select, true, ◌∙◌, arith, Option-cases, select,
}
use webhook_delivery_platfor.Schema.{
  Database, Settings, Delivery, DeliveryAttempt, find_delivery, find_attempt,
}
use webhook_delivery_platfor.Errors.{ok}
use webhook_delivery_platfor.Maintenance.Cleanup.{CleanupInput, cleanup_expired}
use webhook_delivery_platfor.Maintenance.Cleanup.Balance.{cleanup_expired-IsBalanced}
use webhook_delivery_platfor.Maintenance.Cleanup.Rows.{delivery_was, attempt_of}
use webhook_delivery_platfor.Ledger.{IsBalanced}
use webhook_delivery_platfor.Ledger.Moves.{Moves, one, edit}
use webhook_delivery_platfor.Ledger.Balance.{Moves-IsBalanced}
use webhook_delivery_platfor.Deliveries.Claim.{ClaimInput, ClaimedDelivery, claim_delivery}
use webhook_delivery_platfor.Deliveries.Claim.Refines.{claim_delivery-Moves}
use webhook_delivery_platfor.Deliveries.Claim.Names.{Names, claim_delivery-Names}
use webhook_delivery_platfor.Deliveries.Claim.Names.Stable.{Moves-Names}
use webhook_delivery_platfor.Deliveries.Finalize.Refines.{finalize_delivery-Moves}
use webhook_delivery_platfor.Deliveries.Replay.Refines.{replay-Moves}
use webhook_delivery_platfor.Maintenance.Reconcile.Refines.{
  schedule_due-Moves, reconcile_stale-Moves,
}
use webhook_delivery_platfor.Endpoints.Refines.{update_endpoint-Moves, delete_endpoint-Moves}
use webhook_delivery_platfor.Endpoints.Verification.Refines.{
  create_endpoint-Moves, begin_verify-Moves, complete_verify-Moves,
}
use webhook_delivery_platfor.Events.Ingest.Refines.{ingest-Moves}
use webhook_delivery_platfor.System.{
  Platform, hand_out, In, Step, claims_delivery, finalizes, schedules, reconciles, dispatches,
  ingests, replays, creates, updates, deletes, begins_verification, completes_verification, cleans,
  is_left,
}

-- The ledger is balanced, and every claim names rows that are there and belong together.
pub record IsSound (settings : Settings) (p : Platform) : Type 0 where
  pub balanced : IsBalanced settings.max_delivery_attempts p.db
  pub named : All (λ c. Names c p.db) p.claims

named_claim :
    (db : Database) (c : ClaimedDelivery) (claims : List ClaimedDelivery)
    → All (λ x. Names x db) claims
    → In c claims
    → Names c db
named_claim db c [] a h = absurd h
named_claim db c (x ∷ xs) a (inl e) = subst (λ y. Names y db) e a.0
named_claim db c (x ∷ xs) a (inr h) = named_claim db c xs a.1 h

pub Moves-eq :
    {limit : ℕ} {db db' db'' : Database} → Moves limit db db' → db'' ≡ db' → Moves limit db db''
Moves-eq {limit} {db} m e = subst (Moves limit db) (sym e) m

claim_named :
    (settings : Settings) (i : ClaimInput) (delivery_id : ℕ) (db : Database)
    (claims : List ClaimedDelivery) (o : Option ClaimedDelivery)
    → (claim_delivery settings i delivery_id db).1 ≡ o
    → All (λ c. Names c (claim_delivery settings i delivery_id db).0) claims
    → All (λ c. Names c (claim_delivery settings i delivery_id db).0) (hand_out o claims)
claim_named settings i delivery_id db claims none h a = a
claim_named settings i delivery_id db claims (some c) h a =
    (claim_delivery-Names c settings i delivery_id db h, a)

-- What a transaction is to the ledger and the claims: a claim of a delivery, a row of moves that hands
-- out nothing, or a cleanup.
pub data Effect (settings : Settings) (p q : Platform) : Type 0 where
  claims_more :
      (i : ClaimInput) (id : ℕ)
      → find_attempt i.new_id p.db.attempts ≡ none
      → q.db ≡ (claim_delivery settings i id p.db).0
      → q.claims ≡ hand_out (claim_delivery settings i id p.db).1 p.claims
      → Effect settings p q
  moves : Moves settings.max_delivery_attempts p.db q.db → q.claims ≡ p.claims → Effect settings p q
  cleaned :
      (i : CleanupInput) (total : ℕ)
      → cleanup_expired settings i p.db ≡ ok (q.db, total)
      → q.claims ≡ select (is_left q.db) p.claims
      → Effect settings p q

-- A cleanup keeps the names of the claims whose deliveries are left.
cleanup-Names :
    (limit : ℕ) (settings : Settings) (i : CleanupInput) (db db' : Database) (total : ℕ)
    → IsBalanced limit db
    → cleanup_expired settings i db ≡ ok (db', total)
    → (c : ClaimedDelivery) → Names c db
    → is_left db' c ≡ true
    → Names c db'
cleanup-Names limit settings i db db' total v h c n left =
    let (d, found) = there in
    let (b, there', same) = attempt_stays in
    record {
      delivery_there = λ gone. ground (arith, found, gone);
      attempt_there = λ gone. ground (arith, there', gone);
      of_endpoint = λ x e.
          n.of_endpoint x
            (delivery_was settings i db db' total v.delivery_ids v.attempt_ids h c.delivery_id x e);
      of_delivery = λ a e. ground (arith, e, there', same);
    }
  where
    there : (d : Delivery) × (find_delivery c.delivery_id db'.deliveries ≡ some d)
    there = elim (Option-cases (find_delivery c.delivery_id db'.deliveries)) [
      | inl e ↦ absurd (ground (arith, e, left))
      | inr found ↦ found
    ]

    attempt_stays :
        (b : DeliveryAttempt) × (find_attempt c.attempt_id db'.attempts ≡ some b)
        × (b.delivery_id ≡ c.delivery_id)
    attempt_stays = elim (Option-cases (find_attempt c.attempt_id db.attempts)) [
      | inl e ↦ absurd (n.attempt_there e)
      | inr (a, e) ↦
          let own = n.of_delivery a e in
          let (b, found, same) =
            attempt_of settings i db db' total v.delivery_ids v.attempt_ids h c.attempt_id a
              {d = there.0} e (rw own (there.1)) in
          (b, found, same ∙ own)
    ]

module _ (settings : Settings) (positive : 0 < settings.max_delivery_attempts) (p q : Platform)
    (v : IsSound settings p) where
  pub Step-Effect : Step settings p q → Effect settings p q
  Step-Effect (claims_delivery i id fresh e claimed) = claims_more i id fresh e claimed
  Step-Effect (finalizes i c o handed e same) =
      moves
        (finalize_delivery-Moves settings i c o p.db q.db v.balanced
          (named_claim p.db c p.claims v.named handed) e)
        same
  Step-Effect (schedules now locked message_id e same) =
      moves (Moves-eq (schedule_due-Moves _ settings now locked message_id p.db v.balanced) e) same
  Step-Effect (reconciles now before locked e same) =
      moves (Moves-eq (reconcile_stale-Moves settings now before locked p.db v.balanced) e) same
  Step-Effect (cleans i total h left) = cleaned i total h left
  Step-Effect (dispatches outbox e same) =
      moves (Moves-eq (one (edit refl refl (λ id. refl))) e) same
  Step-Effect (ingests enc now ids i seen result fresh done e same) =
      moves
        (Moves-eq (ingest-Moves _ settings enc now ids i seen p.db result positive fresh done) e)
        same
  Step-Effect (replays r ids id key seen result fresh done e same) =
      moves (Moves-eq (replay-Moves _ r ids id key seen p.db result positive fresh done) e) same
  Step-Effect (creates validate r n name url types seen fresh done same) =
      moves (create_endpoint-Moves _ settings validate r n name url types seen p.db q.db fresh done)
        same
  Step-Effect (updates validate r new_id id changes done same) =
      moves (update_endpoint-Moves _ validate r new_id id changes p.db q.db done) same
  Step-Effect (deletes r id done same) = moves (delete_endpoint-Moves _ r id p.db q.db done) same
  Step-Effect (begins_verification validate r hash id done same) =
      moves (begin_verify-Moves _ validate r hash id p.db q.db done) same
  Step-Effect (completes_verification r hash answered held done same) =
      moves (complete_verify-Moves _ r hash answered held p.db q.db done) same

  -- What moves keep of the claims.
  moved-Names : Moves settings.max_delivery_attempts p.db q.db → All (λ c. Names c q.db) p.claims
  moved-Names m =
      All-imp (λ c n. Moves-Names settings.max_delivery_attempts c p.db n m) p.claims v.named

  Effect-IsSound : Effect settings p q → IsSound settings q
  Effect-IsSound (claims_more i id fresh e claimed) =
      let m = Moves-eq (claim_delivery-Moves _ settings i id p.db v.balanced fresh) e in
      record {
        balanced = Moves-IsBalanced settings.max_delivery_attempts p.db v.balanced m;
        named =
            rw (claimed, e)
              (claim_named settings i id p.db p.claims _ refl
                (subst (λ db. All (λ c. Names c db) p.claims) e (moved-Names m)));
      }
  Effect-IsSound (moves m same) = record {
    balanced = Moves-IsBalanced settings.max_delivery_attempts p.db v.balanced m;
    named = rw same (moved-Names m);
  }
  Effect-IsSound (cleaned i total h left) = record {
    balanced =
        cleanup_expired-IsBalanced settings.max_delivery_attempts settings i p.db v.balanced h;
    named = rw left (
        All-imp
          (λ c n.
            cleanup-Names settings.max_delivery_attempts settings i p.db q.db total v.balanced h c
              n.0 n.1)
          _ (All-select _ (is_left q.db) p.claims v.named));
  }

  pub Step-IsSound : Step settings p q → IsSound settings q
  Step-IsSound s = Effect-IsSound (Step-Effect s)
