-- ===== src/Outbox/Dispatcher.antt =====
-- src/webhook_platform/outbox_dispatcher.py: one round of the loop of `run`.
pub mod Unreachable
pub mod Delivered
use webhook_delivery_platfor.Base.{ℕ, Bool, Option, none, some, List, [], ◌∷◌, String}
use webhook_delivery_platfor.Schema.{OutboxMessage}
use webhook_delivery_platfor.Outbox.Messages.{claim_outbox, finish_outbox}

-- What the broker does to a batch: the connection cannot be made; or it is made, each
-- publication is confirmed (none) or raises (some name), and closing it raises or does not.
pub data Broker : Type 0 where
  unreachable : String → Broker
  connected : (OutboxMessage → Option String) → Option String → Broker

-- The loop over the rows inside the connection: the outbox, and what the broker confirmed.
unfoldable pub publish_rows :
    ℕ
    → (OutboxMessage → Option String)
    → List OutboxMessage
    → List OutboxMessage
    → List OutboxMessage
publish_rows now publish [] outbox = outbox
publish_rows now publish (m ∷ ms) outbox =
    publish_rows now publish ms (finish_outbox now m.id (publish m) outbox)

-- The loop in the handler of a failed connection.
unfoldable pub fail_rows : ℕ → String → List OutboxMessage → List OutboxMessage → List OutboxMessage
fail_rows now error [] outbox = outbox
fail_rows now error (m ∷ ms) outbox =
    fail_rows now error ms (finish_outbox now m.id (some error) outbox)

unfoldable pub publish_batch :
    ℕ → Broker → List OutboxMessage → List OutboxMessage → List OutboxMessage
unfolding publish_rows fail_rows
publish_batch now (unreachable error) rows outbox = fail_rows now error rows outbox
publish_batch now (connected publish none) rows outbox = publish_rows now publish rows outbox
publish_batch now (connected publish (some error)) rows outbox =
    fail_rows now error rows (publish_rows now publish rows outbox)

-- claim_outbox, then the batch. `later` is the time of the second part.
unfoldable pub dispatch_round :
    ℕ → ℕ → (ℕ → Bool) → ℕ → Broker → List OutboxMessage → List OutboxMessage
unfolding publish_batch
dispatch_round now later locked batch_size broker outbox =
    let (outbox', rows) = claim_outbox now locked batch_size 30 outbox in
    publish_batch later broker rows outbox'
