-- ===== src/Examples/Tokens.antt =====
-- The theorems on refresh and access tokens, after a registration.
use webhook_delivery_platfor.Base.{
  ℕ, String, zero, suc, ap, append, arith, ◌<◌, ltb, if◌then◌else◌, ◌≡◌, refl, none, some, [], ◌∷◌,
  find, save, select, count, strip, drop_spaces, reverse_onto, is_space,
}
use webhook_delivery_platfor.Schema.{User, Database, RefreshToken}
use webhook_delivery_platfor.Errors.{ok, err}
use webhook_delivery_platfor.Identity.{
  new_token, Draw, TokenPair, login, refresh, insert, user_by_email, issue_pair, create_refresh,
  rotate, refresh_found, refresh_by_hash, revoke_refresh, is_live, reused_error, new_pair,
}
use webhook_delivery_platfor.Identity.Families.{IsRotating}
use webhook_delivery_platfor.Identity.Requests as Requests
use webhook_delivery_platfor.Identity.Requests.{logged_in, refreshed, Reachable-IsRotating}
use webhook_delivery_platfor.Identity.Reuse.{used_twice}
use webhook_delivery_platfor.Identity.AccessTokens.{
  Claims, Jwt, access_claims, default_security, current_user_id, whole_seconds, IsDecoded,
  login-authenticates,
}
use webhook_delivery_platfor.Examples.Data.{sample_settings}
use webhook_delivery_platfor.Examples.Accounts.{plain_security, one_user}

abbrev first_draw : Draw
first_draw = record { now = 40; token_id = 401; refresh_token = "r1" }

abbrev second_draw : Draw
second_draw = record { now = 50; token_id = 402; refresh_token = "r2" }

abbrev third_draw : Draw
third_draw = record { now = 60; token_id = 403; refresh_token = "r3" }

abbrev first_token : RefreshToken
first_token = new_token plain_security sample_settings first_draw 101 77

abbrev logged_db : Database
logged_db = record one_user { refresh_tokens = first_token ∷ [] }

ann_logs_in :
    login plain_security sample_settings first_draw 77 "ann@example.org" "one" one_user
    ≡ ok (logged_db, new_pair plain_security sample_settings first_draw 101)
unfolding login user_by_email issue_pair create_refresh insert select strip drop_spaces reverse_onto
    is_space
ann_logs_in = refl

abbrev rotated_db : Database
rotated_db = record one_user {
  refresh_tokens =
      new_token plain_security sample_settings second_draw 101 77
      ∷ record first_token { revoked_at = some 50; replaced_by_id = some 402 }
      ∷ [];
}

abbrev second_pair : TokenPair
second_pair = new_pair plain_security sample_settings second_draw 101

ann_refreshes :
    refresh plain_security sample_settings second_draw "r1" logged_db ≡ (rotated_db, ok second_pair)
unfolding refresh refresh_by_hash refresh_found rotate issue_pair create_refresh insert select
    revoke_refresh save
ann_refreshes = refl

logged_in_safely : Requests.Reachable plain_security sample_settings logged_db
unfolding count
logged_in_safely =
    Requests.after (Requests.start one_user refl)
      (logged_in first_draw 77 "ann@example.org" "one" (λ f e. refl) ann_logs_in)

Reachable-IsRotating_example : IsRotating rotated_db
Reachable-IsRotating_example =
    Reachable-IsRotating plain_security sample_settings
      (Requests.after logged_in_safely (refreshed second_draw "r1" ann_refreshes))

logged_db-IsRotating : IsRotating logged_db
unfolding IsRotating count is_live find
logged_db-IsRotating = ((refl, tt), λ f. ground arith)

used_twice_example :
    (token : RefreshToken) × (refresh_by_hash "r1" logged_db.refresh_tokens ≡ some token)
    × ((refresh plain_security sample_settings third_draw "r1" rotated_db).1 ≡ err reused_error)
    × (count
          (is_live token.family_id)
          (refresh plain_security sample_settings third_draw "r1" rotated_db).0.refresh_tokens
        ≡ 0)
used_twice_example =
    used_twice plain_security sample_settings second_draw third_draw "r1" logged_db
      logged_db-IsRotating ann_refreshes

-- A JWT library whose tokens have one character for each of the user's identifiers.
unfoldable unary : ℕ → String
unary zero = ""
unary (suc n) = append "a" (unary n)

unfoldable chars : String → ℕ
chars String.[] = 0
chars (String.◌∷◌ c s) = suc (chars s)

chars-unary : (n : ℕ) → chars (unary n) ≡ n
unfolding chars unary append
chars-unary zero = refl
chars-unary (suc n) = ap suc (chars-unary n)

abbrev subject : Claims → ℕ
subject claims = elim claims.sub [ none ↦ 0 | some n ↦ n ]

abbrev unary_jwt : Jwt
unary_jwt = record {
  encode = λ claims. unary (subject claims);
  decode = λ now issuer audience token.
      let claims = whole_seconds (access_claims sample_settings 40 (chars token)) in
      if ltb now claims.exp then some claims else none;
}

unary_decodes :
    (now user_id : ℕ)
    → now < (whole_seconds (access_claims sample_settings 40 user_id)).exp
    → IsDecoded unary_jwt (access_claims sample_settings 40 user_id) now
unary_decodes now user_id fresh = rw (chars-unary user_id) (ground (arith, fresh))

ann_logs_in_again :
    login
      (default_security unary_jwt sample_settings 40 plain_security)
      sample_settings
      first_draw
      77
      "ann@example.org"
      "one"
      one_user
    ≡ ok (
      logged_db,
      new_pair
          (default_security unary_jwt sample_settings 40 plain_security)
          sample_settings
          first_draw
          101,
    )
unfolding login user_by_email issue_pair create_refresh insert select strip drop_spaces reverse_onto
    is_space
ann_logs_in_again = refl

login-authenticates_example :
    (u : User) × (user_by_email (strip "ann@example.org") one_user.users ≡ some u)
    × (current_user_id unary_jwt sample_settings 50
          (some (
            append "Bearer "
              (new_pair
                (default_security unary_jwt sample_settings 40 plain_security)
                sample_settings
                first_draw
                101).access_token))
          logged_db
        ≡ ok u.id)
login-authenticates_example =
    login-authenticates unary_jwt plain_security sample_settings first_draw 77 50 "ann@example.org"
      "one" one_user (λ user_id begun fresh. unary_decodes 50 user_id fresh)
      (unfold find in (refl, tt)) ann_logs_in_again (omega arith) (omega arith)
