-- ===== src/Deliveries/Listings/Previews.antt =====
-- Who sees the start of a response.
use webhook_delivery_platfor.Base.{
  ℕ, ◌≡◌, refl, ap, true, false, Option, none, some, List, [], ◌∷◌, arith, All, map,
}
use webhook_delivery_platfor.Schema.{
  Database, Settings, Bytes, Delivery, DeliveryAttempt, Role, member, is_manager, Preview,
}
use webhook_delivery_platfor.Errors.{ok}
use webhook_delivery_platfor.Access.{Request, any_role, require_role, check_role, membership_role}
use webhook_delivery_platfor.Paging.{Cursor, page, is_newer}
use webhook_delivery_platfor.Deliveries.Exchange.{Outcome}
use webhook_delivery_platfor.Deliveries.Finalize.{FinalizeInput, record_response}
use webhook_delivery_platfor.Deliveries.Listings.{
  Decrypt, plaintext, AttemptView, attempt_view, preview_view, open_preview, list_attempts,
  attempt_cursor, is_attempt_of,
}

abbrev ShowsNothing : AttemptView → Type 0
ShowsNothing v = (v.response_preview ≡ none) × (v.response_preview_available ≡ false)

views_without :
    (decrypt : Decrypt) (settings : Settings) (delivery_id : ℕ) (rows : List DeliveryAttempt)
    → All ShowsNothing (map (attempt_view decrypt settings member delivery_id) rows)
unfolding attempt_view preview_view
views_without decrypt settings delivery_id [] = tt
views_without decrypt settings delivery_id (a ∷ rows) =
    ((refl, refl), views_without decrypt settings delivery_id rows)

list_attempts-rows :
    (decrypt : Decrypt) (settings : Settings) (r : Request) (delivery_id : ℕ)
    (cursor : Option Cursor) (limit : ℕ) (db : Database) {views : List AttemptView}
    {next : Option DeliveryAttempt} {role : Role}
    → require_role any_role r db.memberships ≡ ok role
    → list_attempts decrypt settings r delivery_id cursor limit db ≡ ok (views, next)
    → (rows : List DeliveryAttempt) × (views
        ≡ map (attempt_view decrypt settings role delivery_id) rows)
unfolding list_attempts
list_attempts-rows decrypt settings r delivery_id cursor limit db {views} {next} {role} e h = (
  (page is_newer attempt_cursor (is_attempt_of r.organization_id delivery_id) cursor limit
      db.attempts).0,
  ground (arith, e, h),
)

-- A reader whose role is member gets no attempt with a response_preview, or with the note that there
-- is one.
pub member_blind :
    (decrypt : Decrypt) (settings : Settings) (r : Request) (delivery_id : ℕ)
    (cursor : Option Cursor) (limit : ℕ) (db : Database) {views : List AttemptView}
    {next : Option DeliveryAttempt}
    → membership_role r.organization_id r.user_id db.memberships ≡ some member
    → list_attempts decrypt settings r delivery_id cursor limit db ≡ ok (views, next)
    → All
        (λ (v : AttemptView). (v.response_preview ≡ none) × (v.response_preview_available ≡ false))
        views
member_blind decrypt settings r delivery_id cursor limit db role h =
    let (rows, same) =
      list_attempts-rows decrypt settings r delivery_id cursor limit db {role = member}
        (unfold require_role in unfold check_role in rw role refl) h in
    rw same (views_without decrypt settings delivery_id rows)

opened :
    (decrypt : Decrypt) (settings : Settings) (delivery_id attempt_id : ℕ) (p : Preview)
    {body : Bytes}
    → p.key_version ≡ settings.encryption_key_version
    → decrypt p delivery_id attempt_id ≡ some body
    → open_preview decrypt settings delivery_id attempt_id p ≡ plaintext body
unfolding open_preview
opened decrypt settings delivery_id attempt_id p version opens = rw opens (ground (arith, version))

-- Where the cipher opens what it has closed and writes the current key version: what a worker stores
-- of a response that is not empty is what an owner or an admin then sees of the attempt.
pub stored_preview-shown :
    (decrypt : Decrypt) (settings : Settings) (i : FinalizeInput) (o : Outcome) (d : Delivery)
    (a : DeliveryAttempt) (role : Role) (b : ℕ) (bs : Bytes)
    → ((body : Bytes) (delivery_id attempt_id : ℕ)
        → decrypt (i.encrypt body delivery_id attempt_id) delivery_id attempt_id ≡ some body)
    → ((body : Bytes) (delivery_id attempt_id : ℕ)
        → (i.encrypt body delivery_id attempt_id).key_version ≡ settings.encryption_key_version)
    → is_manager role ≡ true
    → o.response_preview ≡ b ∷ bs
    → (attempt_view decrypt settings role d.id (record_response i o d a)).response_preview
      ≡ some (plaintext o.response_preview)
unfolding attempt_view preview_view record_response
stored_preview-shown decrypt settings i o d a role b bs opens version manager body =
    rw (body, manager)
      (ap some (
        opened decrypt settings d.id a.id (i.encrypt (b ∷ bs) d.id a.id)
          (version (b ∷ bs) d.id a.id) (opens (b ∷ bs) d.id a.id)))
