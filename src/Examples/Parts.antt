-- ===== src/Examples/Parts.antt =====
-- The theorems on the endpoints, the outbox, the events and the parts of a delivery, at concrete
-- inputs.
use webhook_delivery_platfor.Base.{
  ◌↔◌, ℕ, ◌+◌, ◌≤◌, ◌≡◌, refl, max, true, false, Option, none, some, List, [], ◌∷◌, arith, count,
  find, length, take, ◌==◌, ◌&&◌, All, Unique,
}
use Prim.Native.Nat.{◌/◌}
use webhook_delivery_platfor.Schema.{Event, OutboxMessage, find_message, outbox_key, Bytes}
use webhook_delivery_platfor.Errors.{ok}
use webhook_delivery_platfor.Deliveries.Exchange.{collect_preview}
use webhook_delivery_platfor.Deliveries.Exchange.Preview.{collect_preview-take, joined}
use webhook_delivery_platfor.Deliveries.Retry.{retry_delay, parse_retry_after}
use webhook_delivery_platfor.Deliveries.Retry.Bounds.{retry_delay-bounded, parse_retry_after-ascii}
use webhook_delivery_platfor.Outbox.Messages.{execute_command, claim_outbox, is_claimable}
use webhook_delivery_platfor.Outbox.Messages.Lease.{claim_outbox-exclusive}
use webhook_delivery_platfor.Events.Repository.{NewIds, create_event_graph, receives}
use webhook_delivery_platfor.Events.Repository.FanOut.{
  create_event_graph-fan_out, delivery_to, command_of, delivery_of,
}
use webhook_delivery_platfor.Events.EventType.{is_event_type}
use webhook_delivery_platfor.Events.EventType.Language.{is_event_type-Dotted, Dotted}
use webhook_delivery_platfor.Events.CanonicalJson.{Json, canonicalize, integer, array, cons, nil}
use webhook_delivery_platfor.Events.CanonicalJson.Depth.{canonicalize_exact, all_finite, height}
use webhook_delivery_platfor.Examples.Data.{
  sample_db, sample_delivery, ended_delivery, sample_event,
}

collect_preview-take_example :
    collect_preview 3 [] ((1 ∷ 2 ∷ []) ∷ (3 ∷ 4 ∷ []) ∷ [])
    ≡ take 3 (joined ((1 ∷ 2 ∷ []) ∷ (3 ∷ 4 ∷ []) ∷ []))
collect_preview-take_example = collect_preview-take 3 ((1 ∷ 2 ∷ []) ∷ (3 ∷ 4 ∷ []) ∷ [])

retry_delay-bounded_example :
    (delay : ℕ) × (retry_delay (λ base. base / 10) (0 + 1) (30 ∷ 120 ∷ []) (some 60) ≡ ok delay)
    × (30 ≤ delay)
    × (delay ≤ max (120 + 12) 21600)
retry_delay-bounded_example =
    retry_delay-bounded (λ base. base / 10) 0 (30 ∷ 120 ∷ []) (some 60) 30 120 12 (omega arith)
      ((omega arith, omega arith), ((omega arith, omega arith), tt)) (λ d below. omega arith)
      (omega arith)

parse_retry_after-ascii_example :
    (r : Option ℕ) × (parse_retry_after (λ text. none) (some (54 ∷ 48 ∷ [])) 0 ≡ ok r)
    × (elim r [ none ↦ 0 | some s ↦ s ] ≤ 21600)
parse_retry_after-ascii_example =
    parse_retry_after-ascii (λ text. none) (54 ∷ 48 ∷ []) 0 (omega arith, (omega arith, tt))
      (omega arith)

abbrev pub sample_outbox : List OutboxMessage
sample_outbox = execute_command 40 20 sample_delivery ∷ execute_command 41 21 ended_delivery ∷ []

pub sample_outbox-Unique : Unique outbox_key sample_outbox
unfolding find execute_command
sample_outbox-Unique = (refl, (refl, tt))

claim_outbox-exclusive_example :
    All
      (λ m.
        (m' : OutboxMessage) × (find_message m.id
            (claim_outbox 100 (λ id. false) 10 30 sample_outbox).0
          ≡ some m')
        × (is_claimable 200 m' ≡ false))
      (claim_outbox 100 (λ id. false) 10 30 sample_outbox).1
claim_outbox-exclusive_example =
    claim_outbox-exclusive 100 (λ id. false) 10 30 sample_outbox sample_outbox-Unique 200
      (omega arith)

abbrev other_event : Event
other_event = record sample_event { id = 4 }

abbrev other_ids : NewIds
other_ids = record { event_id = 4; delivery_id = λ n. n + 50; message_id = λ n. n + 60 }

create_event_graph-fan_out_example :
    ((create_event_graph 30 other_ids other_event sample_db).0.events
      ≡ other_event ∷ sample_db.events)
    × ((create_event_graph 30 other_ids other_event sample_db).1
        ≡ count (receives 7 "order.created" sample_db.subscriptions) sample_db.endpoints)
    × (count
          (delivery_to other_event (λ k. k == 1))
          (create_event_graph 30 other_ids other_event sample_db).0.deliveries
        ≡ count (delivery_to other_event (λ k. k == 1)) sample_db.deliveries
          + count
              (λ e. receives 7 "order.created" sample_db.subscriptions e && e.id == 1)
              sample_db.endpoints)
    × (count
            (command_of other_event (λ k. k == 1))
            (create_event_graph 30 other_ids other_event sample_db).0.outbox
          + count (delivery_of other_event (λ k. k == 1)) sample_db.deliveries
        ≡ count (command_of other_event (λ k. k == 1)) sample_db.outbox
          + count
              (delivery_of other_event (λ k. k == 1))
              (create_event_graph 30 other_ids other_event sample_db).0.deliveries)
create_event_graph-fan_out_example =
    create_event_graph-fan_out 30 other_ids other_event sample_db (λ k. k == 1)

-- "a.b"
is_event_type-Dotted_example :
    is_event_type (97 ∷ 46 ∷ 98 ∷ []) ≡ true ↔ Dotted true (97 ∷ 46 ∷ 98 ∷ [])
is_event_type-Dotted_example = is_event_type-Dotted (97 ∷ 46 ∷ 98 ∷ [])

abbrev printed : Bytes
printed = 91 ∷ 93 ∷ []

abbrev nested : Json
nested = array (cons (array (cons (integer 1) nil)) nil)

canonicalize_exact_example : canonicalize (λ v. some printed) 10 3 nested ≡ ok printed ↔ (
    (all_finite nested ≡ true)
    × (height nested ≤ 3)
    × (some printed ≡ some printed)
    × (length printed ≤ 10))
canonicalize_exact_example = canonicalize_exact (λ v. some printed) 10 3 nested printed
