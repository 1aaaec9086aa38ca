-- ===== src/Outbox/Dispatcher/Unreachable.antt =====
-- src/webhook_platform/outbox_dispatcher.py: a round in which the broker is not reached.
use webhook_delivery_platfor.Base.{ℕ, ◌≡◌, refl, ◌∙◌, Bool, List, [], ◌∷◌, String, Unique}
use webhook_delivery_platfor.Schema.{OutboxMessage, outbox_key}
use webhook_delivery_platfor.Outbox.Messages.{claim_outbox}
use webhook_delivery_platfor.Outbox.Messages.Lease.{
  status_of, claim_outbox-status, finish_outbox-status,
}
use webhook_delivery_platfor.Outbox.Dispatcher.{
  unreachable, dispatch_round, publish_batch, fail_rows,
}

pub fail_rows-status :
    (now k : ℕ) (error : String) (rows outbox : List OutboxMessage)
    → status_of k (fail_rows now error rows outbox) ≡ status_of k outbox
unfolding fail_rows
fail_rows-status now k error [] outbox = refl
fail_rows-status now k error (m ∷ ms) outbox =
    fail_rows-status now k error ms _ ∙ finish_outbox-status now m.id k error outbox

-- A round of the dispatcher that does not reach the broker loses and publishes no message: in an
-- outbox whose keys are unique, every message that was there is there with the status it had.
pub dispatch_round-unreachable :
    (now later : ℕ) (locked : ℕ → Bool) (batch_size : ℕ) (error : String)
    (outbox : List OutboxMessage)
    → Unique outbox_key outbox
    → (k : ℕ)
    → status_of k (dispatch_round now later locked batch_size (unreachable error) outbox)
      ≡ status_of k outbox
unfolding dispatch_round publish_batch
dispatch_round-unreachable now later locked batch_size error outbox u k =
    fail_rows-status later k error (claim_outbox now locked batch_size 30 outbox).1
      (claim_outbox now locked batch_size 30 outbox).0
    ∙ claim_outbox-status now k locked batch_size 30 outbox u
