-- ===== src/Examples/Keys.antt =====
-- The theorems on API keys.
use webhook_delivery_platfor.Base.{
  append, after_prefix, ◌≡◌, refl, some, [], ◌∷◌, inl, find, save, select,
}
use webhook_delivery_platfor.Schema.{Database, ApiKey}
use webhook_delivery_platfor.Errors.{ok, err}
use webhook_delivery_platfor.Access.{require_role, check_role, membership_role, audit}
use webhook_delivery_platfor.Identity.{insert}
use webhook_delivery_platfor.Organizations.Keys.{
  create_key, producer_principal, new_api_key, only_write, new_key, split_dot, revoke_key,
  revoke_found, key_by_prefix, parse_api_key, api_key_error,
}
use webhook_delivery_platfor.Organizations.Keys.Accepted.{created_key-accepted, revoked_key-refused}
use webhook_delivery_platfor.Examples.Data.{sample_settings, sample_db, sample_request}

abbrev created_key : ApiKey
created_key =
    new_key sample_settings sample_request 501 "ci" ("events:write" ∷ []) "abcdef" "secret"

abbrev keyed_db : Database
keyed_db = record sample_db {
  api_keys = created_key ∷ [];
  audits = audit sample_request "api_key.created" "api_key" 501 ∷ [];
}

key_created :
    create_key
      (λ secret. secret)
      sample_settings
      sample_request
      501
      "abcdef"
      "secret"
      "ci"
      ("events:write" ∷ [])
      sample_db
    ≡ ok (keyed_db, (created_key, "whk_live_abcdef.secret"))
unfolding create_key require_role check_role membership_role only_write new_api_key append insert
    select
key_created = refl

created_key-accepted_example :
    (db : Database) × (producer_principal
        (λ secret. secret)
        sample_settings
        2000
        (some (append "Bearer " "whk_live_abcdef.secret"))
        keyed_db
      ≡ ok (db, record { organization_id = 7; api_key_id = 501 }))
created_key-accepted_example =
    created_key-accepted (λ secret. secret) sample_settings sample_request 2000 501 "abcdef"
      "secret" "ci" ("events:write" ∷ []) sample_db (unfold split_dot in refl) refl refl (inl refl)
      key_created

abbrev revoked_db : Database
revoked_db = record keyed_db {
  api_keys = record created_key { revoked_at = some 1000 } ∷ [];
  audits =
      audit sample_request "api_key.revoked" "api_key" 501
      ∷ audit sample_request "api_key.created" "api_key" 501
      ∷ [];
}

key_revoked : revoke_key sample_request 501 keyed_db ≡ ok revoked_db
unfolding revoke_key require_role check_role membership_role revoke_found select save
key_revoked = refl

key_parsed : parse_api_key "whk_live_abcdef.secret" ≡ some ("abcdef", "secret")
unfolding parse_api_key after_prefix split_dot
key_parsed = refl

revoked_key-refused_example :
    producer_principal
      (λ secret. secret)
      sample_settings
      2000
      (some (append "Bearer " "whk_live_abcdef.secret"))
      revoked_db
    ≡ err api_key_error
revoked_key-refused_example =
    revoked_key-refused (λ secret. secret) sample_settings sample_request 2000 created_key
      "whk_live_abcdef.secret" "secret" keyed_db (unfold find in (refl, tt))
      (unfold key_by_prefix in unfold select in refl) (unfold select in refl) key_revoked key_parsed
