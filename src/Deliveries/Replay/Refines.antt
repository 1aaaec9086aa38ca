-- ===== src/Deliveries/Replay/Refines.antt =====
-- Replays (src/webhook_platform/deliveries/application/use_cases.py) against the ledger.
use webhook_delivery_platfor.Base.{
  ℕ, ◌<◌, ◌≡◌, refl, subst, Bool, Option, none, some, String, inl, inr, Option-cases, leb, ◌&&◌,
  length, codes,
}
use webhook_delivery_platfor.Schema.{Database, Delivery, is_manager, find_delivery}
use webhook_delivery_platfor.Errors.{ok, >>=-eq-ok, ok-injective}
use webhook_delivery_platfor.Access.{Request, require_role}
use webhook_delivery_platfor.Ledger.Moves.{Move, Moves, here, one, create}
use webhook_delivery_platfor.Deliveries.Replay.{
  ReplayIds, delivery, existing_replay, replay_of_source, create_replay, source_of, insert_replay,
  replay_new, replay_after, replay, key_error, require,
}

module _ (limit : ℕ) (positive : 0 < limit) (r : Request) (ids : ReplayIds) (delivery_id : ℕ)
    (key : String) (db : Database)
    (fresh : find_delivery ids.delivery_id db.deliveries ≡ none) where
  create_replay-Move : (source : Delivery) → Move limit db (create_replay r ids source key db)
  unfolding create_replay replay_of_source
  create_replay-Move source = create _ fresh refl positive refl refl refl

  insert_replay-Moves :
      (source : Delivery) → Moves limit db (insert_replay r ids delivery_id key source db).0
  unfolding insert_replay
  insert_replay-Moves source =
      elim (Option-cases (existing_replay r.organization_id delivery_id key db.deliveries)) [
        | inl none' ↦ rw (none', insert_replay) (one (create_replay-Move source))
        | inr (d, old) ↦ rw (old, insert_replay) here
      ]

  replay_after-Moves :
      (o : Option Delivery) (result : Database × Delivery × Bool)
      → replay_after r ids delivery_id key o db ≡ ok result
      → Moves limit db result.0
  unfolding replay_after
  replay_after-Moves (some d) result h = subst (λ x. Moves limit db x.0) (ok-injective h) here
  replay_after-Moves none result h = made h
    where
      made : replay_new r ids delivery_id key db ≡ ok result → Moves limit db result.0
      made h' =
          let (source, _, h₁) =
            >>=-eq-ok (source_of (delivery r.organization_id delivery_id db))
              (λ source. ok (insert_replay r ids delivery_id key source db))
              (unfold replay_new in h') in
          subst (λ x. Moves limit db x.0) (ok-injective h₁) (insert_replay-Moves source)

-- A replay that commits is a row of moves of the ledger.
pub replay-Moves :
    (limit : ℕ) (r : Request) (ids : ReplayIds) (delivery_id : ℕ) (key : String)
    (seen db : Database) (result : Database × Delivery × Bool)
    → 0 < limit
    → find_delivery ids.delivery_id db.deliveries ≡ none
    → replay r ids delivery_id key seen db ≡ ok result
    → Moves limit db result.0
unfolding replay
replay-Moves limit r ids delivery_id key seen db result positive fresh h =
    let (role, allowed, h₁) = >>=-eq-ok (require_role is_manager r seen.memberships) _ h in
    let (_, proper, h₂) =
      >>=-eq-ok (require (leb 16 (length (codes key)) && leb (length (codes key)) 128) key_error)
        (λ _.
          replay_after r ids delivery_id key
            (existing_replay r.organization_id delivery_id key seen.deliveries) db)
        h₁ in
    replay_after-Moves limit positive r ids delivery_id key db fresh _ result h₂
