-- ===== src/Examples/Pages.antt =====
-- The theorems on pages, cursors, previews, the limit of a body and the dispatcher, at concrete inputs.
use webhook_delivery_platfor.Base.{
  ◌≤◌, ◌<◌, ◌≡◌, refl, true, false, Option, none, some, [], ◌∷◌, arith, All, select, query,
  order_by, insert_before, if◌then◌else◌, ◌++◌, take, ◌==◌,
}
use webhook_delivery_platfor.Schema.{Bytes, admin, outbox_key}
use webhook_delivery_platfor.Errors.{ok}
use webhook_delivery_platfor.Paging.{Cursor, is_older}
use webhook_delivery_platfor.Paging.Sorted.{is_older-IsKeyOrder}
use webhook_delivery_platfor.Paging.Walk.{walk, walk_lem}
use webhook_delivery_platfor.Paging.Cursors.{
  CursorCodec, encode_cursor, decode_cursor, encode-decode_cursor, padding, missing,
}
use webhook_delivery_platfor.Deliveries.Signature.{material-injective}
use webhook_delivery_platfor.Deliveries.Finalize.{record_response}
use webhook_delivery_platfor.Deliveries.Listings.{
  Decrypt, attempt_view, delivery_cursor, wants, plaintext,
}
use webhook_delivery_platfor.Deliveries.Listings.Previews.{stored_preview-shown}
use webhook_delivery_platfor.Http.BodyLimit.{http_request, receive_all, total, receive_all-bounded}
use webhook_delivery_platfor.Outbox.Messages.{is_claimable, outbox_before}
use webhook_delivery_platfor.Outbox.Messages.Lease.{status_of}
use webhook_delivery_platfor.Outbox.Dispatcher.{connected, dispatch_round}
use webhook_delivery_platfor.Outbox.Dispatcher.Delivered.{status_after, dispatch_round-delivers}
use webhook_delivery_platfor.Examples.Data.{
  sample_db, sample_settings, sample_delivery, ended_attempt,
}
use webhook_delivery_platfor.Examples.Attempt.{finalize_input, overloaded}
use webhook_delivery_platfor.Examples.Parts.{sample_outbox, sample_outbox-Unique}

-- Pages of one delivery each.
walk_lem_example :
    walk is_older delivery_cursor (wants 7 none none none) 1 sample_db.deliveries 3 none
    ≡ some (
        order_by
          (λ r s. is_older (delivery_cursor r) (delivery_cursor s))
          (select (wants 7 none none none) sample_db.deliveries))
walk_lem_example =
    walk_lem is_older delivery_cursor (wants 7 none none none) 1 sample_db.deliveries 3
      is_older-IsKeyOrder (unfold select in unfold wants in ((refl, tt), (tt, tt))) (omega arith)
      (unfold order_by in unfold insert_before in unfold select in unfold wants in omega arith)

abbrev two_numbers : Bytes → Option Cursor
two_numbers (a ∷ b ∷ []) = some (record { created_at = a; id = b })
two_numbers raw = none

-- A codec for cursors of two small numbers.
abbrev small_codec : CursorCodec
small_codec = record {
  dump = λ c. c.created_at ∷ c.id ∷ [];
  load = two_numbers;
  b64encode = λ raw. raw ++ (65 ∷ 61 ∷ []);
  b64decode = λ text. some (take 2 text);
}

encode-decode_cursor_example :
    decode_cursor small_codec (some (encode_cursor small_codec (record { created_at = 1; id = 2 })))
    ≡ ok (some (record { created_at = 1; id = 2 }))
encode-decode_cursor_example =
    encode-decode_cursor small_codec (record { created_at = 1; id = 2 }) refl refl
      (record {
        body = 1 ∷ 2 ∷ 65 ∷ [];
        pad = 1;
        parts = unfold padding in refl;
        alphabet = (refl, (refl, (refl, tt)));
        short = omega arith;
        whole = unfold missing in refl;
      })

abbrev open_plainly : Decrypt
open_plainly = λ p d a. some p.ciphertext

stored_preview-shown_example :
    (attempt_view open_plainly sample_settings admin 5
      (record_response finalize_input overloaded sample_delivery ended_attempt)).response_preview
    ≡ some (plaintext overloaded.response_preview)
stored_preview-shown_example =
    stored_preview-shown open_plainly sample_settings finalize_input overloaded sample_delivery
      ended_attempt admin 79 (75 ∷ []) (λ body d a. refl) (λ body d a. refl) refl refl

receive_all-bounded_example :
    (total (receive_all 3 0 (http_request (1 ∷ 2 ∷ []) ∷ http_request (3 ∷ 4 ∷ []) ∷ [])).0 ≤ 3)
    × (total (http_request (1 ∷ 2 ∷ []) ∷ http_request (3 ∷ 4 ∷ []) ∷ []) ≤ 3
        → receive_all 3 0 (http_request (1 ∷ 2 ∷ []) ∷ http_request (3 ∷ 4 ∷ []) ∷ [])
          ≡ (http_request (1 ∷ 2 ∷ []) ∷ http_request (3 ∷ 4 ∷ []) ∷ [], false))
    × (3 < total (http_request (1 ∷ 2 ∷ []) ∷ http_request (3 ∷ 4 ∷ []) ∷ [])
        → (receive_all 3 0 (http_request (1 ∷ 2 ∷ []) ∷ http_request (3 ∷ 4 ∷ []) ∷ [])).1 ≡ true)
receive_all-bounded_example =
    receive_all-bounded 3 (http_request (1 ∷ 2 ∷ []) ∷ http_request (3 ∷ 4 ∷ []) ∷ [])

-- The broker confirms the command of one delivery only.
dispatch_round-delivers_example :
    All
      (λ m.
        status_of m.id (
          dispatch_round 100 101
            (λ id. false)
            10
            (connected (λ row. if row.id == 40 then none else some "Nack") none)
            sample_outbox)
        ≡ some (status_after (if m.id == 40 then none else some "Nack")))
      (query outbox_key (is_claimable 100) outbox_before (λ id. false) 10 sample_outbox)
dispatch_round-delivers_example =
    dispatch_round-delivers 100 101 (λ id. false) 10
      (λ row. if row.id == 40 then none else some "Nack") none sample_outbox sample_outbox-Unique

material-injective_example :
    (◌≡◌ {A = Bytes} (49 ∷ []) (49 ∷ []))
    × (◌≡◌ {A = Bytes} (50 ∷ []) (50 ∷ []))
    × (◌≡◌ {A = Bytes} (51 ∷ []) (51 ∷ []))
    × (◌≡◌ {A = Bytes} (46 ∷ 123 ∷ []) (46 ∷ 123 ∷ []))
material-injective_example =
    material-injective (49 ∷ []) (50 ∷ []) (51 ∷ []) (46 ∷ 123 ∷ []) (49 ∷ []) (50 ∷ []) (51 ∷ [])
      (46 ∷ 123 ∷ []) (refl, tt) (refl, tt) (refl, tt) (refl, tt) (refl, tt) (refl, tt) refl
