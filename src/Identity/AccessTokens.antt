-- ===== src/Identity/AccessTokens.antt =====
-- The access tokens of src/webhook_platform/shared/infrastructure/security.py, and current_user_id of
-- src/webhook_platform/api_dependencies.py, which a request of a user has to pass.
use Prim.Native.Nat.{◌/◌}
use webhook_delivery_platfor.Base.{
  ℕ, ◌+◌, ◌≤◌, ◌<◌, ◌≡◌, refl, ap, ◌∙◌, Bool, true, false, Option, none, some, List, String, inl,
  inr, arith, Bool-cases, Option-cases, if◌then◌else◌, str_eq, strip, append, after_prefix, find,
  Unique, first-select,
}
use webhook_delivery_platfor.Schema.{Database, Settings, User, seconds, user_key}
use webhook_delivery_platfor.Errors.{Exception, Result, ok, err, app_error}
use webhook_delivery_platfor.Identity.Users.{
  IdentitySecurity, user_by_email, normalize, token_error,
}
use webhook_delivery_platfor.Identity.Sessions.{
  Draw, TokenPair, login, issue_pair, create_refresh, new_pair, accepts_password,
}

-- The payload of a token; none stands for a missing "type", and for a "sub" that is not a text.
pub record Claims : Type 0 where
  pub sub : Option ℕ
  pub iss : String
  pub aud : String
  pub iat : ℕ
  pub exp : ℕ
  pub token_type : Option String

-- PyJWT with the program's secret: jwt.encode, and jwt.decode at a time for an issuer and an audience,
-- where none is a PyJWTError.
pub record Jwt : Type 0 where
  pub encode : Claims → String
  pub decode : ℕ → String → String → String → Option Claims

abbrev pub access_claims : Settings → ℕ → ℕ → Claims
access_claims settings now user_id = record {
  sub = some user_id;
  iss = settings.jwt_issuer;
  aud = settings.jwt_audience;
  iat = now;
  exp = now + seconds settings.access_ttl_seconds;
  token_type = some "access";
}

unfoldable pub create_access_token : Jwt → Settings → ℕ → ℕ → String × ℕ
create_access_token jwt settings now user_id =
    (jwt.encode (access_claims settings now user_id), now + seconds settings.access_ttl_seconds)

abbrev is_access : Option String → Bool
is_access none = false
is_access (some t) = str_eq t "access"

unfoldable pub decode_access_token : Jwt → Settings → ℕ → String → Option ℕ
decode_access_token jwt settings now token =
    elim (jwt.decode now settings.jwt_issuer settings.jwt_audience token) [
      | none ↦ none
      | some payload ↦ if is_access payload.token_type then payload.sub else none
    ]

abbrev header_error : Exception
header_error = app_error "authentication_required" "Authentication required" 401

unfoldable pub known_user : Option User → Result ℕ
known_user none = err token_error
known_user (some u) = if u.active then ok u.id else err token_error

unfoldable pub user_of_token : Jwt → Settings → ℕ → String → Database → Result ℕ
unfolding decode_access_token known_user
user_of_token jwt settings now token db = elim (decode_access_token jwt settings now token) [
  | none ↦ err token_error
  | some user_id ↦ known_user (find user_key user_id db.users)
]

-- current_user_id; the rate limiter comes after it.
unfoldable pub current_user_id : Jwt → Settings → ℕ → Option String → Database → Result ℕ
unfolding after_prefix user_of_token
current_user_id jwt settings now none db = err header_error
current_user_id jwt settings now (some authorization) db =
    elim (after_prefix "Bearer " authorization) [
      | none ↦ err header_error
      | some token ↦ user_of_token jwt settings now token db
    ]

-- DefaultIdentitySecurity, with the functions that do not make access tokens as they are in `base`.
abbrev pub default_security : Jwt → Settings → ℕ → IdentitySecurity → IdentitySecurity
default_security jwt settings now base = record base {
  create_access_token = create_access_token jwt settings now;
}

issue_pair-ok :
    (security : IdentitySecurity) (settings : Settings) (draw : Draw) (user_id family_id : ℕ)
    (db : Database) {db' : Database} {pair : TokenPair}
    → issue_pair security settings draw user_id family_id db ≡ ok (db', pair)
    → (pair ≡ new_pair security settings draw user_id) × (db'.users ≡ db.users)
unfolding issue_pair create_refresh
issue_pair-ok security settings draw user_id family_id db {db'} {pair} h = ground (arith, h)

login-user :
    (security : IdentitySecurity) (settings : Settings) (draw : Draw) (family_id : ℕ)
    (email password : String) (db : Database) {db' : Database} {pair : TokenPair}
    → login security settings draw family_id email password db ≡ ok (db', pair)
    → (u : User) × (user_by_email (normalize security email) db.users ≡ some u)
      × (accepts_password security password u ≡ true)
      × (issue_pair security settings draw u.id family_id db ≡ ok (db', pair))
unfolding login
login-user security settings draw family_id email password db {db'} {pair} h =
    elim (Option-cases (user_by_email (normalize security email) db.users)) [
      | inl e ↦ absurd (ground (arith, e, h))
      | inr (u, e) ↦ elim (Bool-cases (accepts_password security password u)) [
        | inl a ↦ (u, e, a, ground (arith, e, a, h))
        | inr a ↦ absurd (ground (arith, e, a, h))
      ]
    ]

-- What PyJWT makes of a payload: jwt.encode writes the times as whole seconds (timegm).
abbrev pub whole_seconds : Claims → Claims
whole_seconds c = record c { iat = seconds (c.iat / 1000000); exp = seconds (c.exp / 1000000) }

-- PyJWT decodes a token that it has made of these claims, as it has written them, for their own issuer
-- and audience, at a time that is not before the written `iat` and before the written `exp`.
abbrev pub IsDecoded : Jwt → Claims → ℕ → Type 0
IsDecoded jwt c now = jwt.decode now c.iss c.aud (jwt.encode c) ≡ some (whole_seconds c)

module _ (jwt : Jwt) (settings : Settings) (issued now user_id : ℕ)
    (decodes : IsDecoded jwt (access_claims settings issued user_id) now) where
  access_decoded :
      decode_access_token jwt settings now (jwt.encode (access_claims settings issued user_id))
      ≡ some user_id
  unfolding decode_access_token
  access_decoded = rw (decodes, decode_access_token) refl

  accepted_token :
      (db : Database) {u : User}
      → find user_key user_id db.users ≡ some u
      → u.active ≡ true
      → current_user_id jwt settings now
          (some (append "Bearer " (jwt.encode (access_claims settings issued user_id))))
          db
        ≡ ok u.id
  unfolding current_user_id user_of_token known_user after_prefix append
  accepted_token db there active =
      rw (access_decoded, there, user_of_token, known_user, active) refl

user_found :
    (email : String) (t : List User) {u : User}
    → Unique user_key t
    → user_by_email email t ≡ some u
    → find user_key u.id t ≡ some u
unfolding user_by_email
user_found email t {u} unique h =
    (first-select user_key (λ x. str_eq x.email email) t {r = u} unique h).0

-- The claims as they are written have not expired within a second less than their lifetime.
not_expired :
    (issued now lifetime : ℕ)
    → now + seconds 1 ≤ issued + seconds lifetime
    → now < seconds ((issued + seconds lifetime) / 1000000)
not_expired issued now lifetime h = omega (arith, h)

not_before : (issued now : ℕ) → issued ≤ now → seconds (issued / 1000000) ≤ now
not_before issued now h = omega (arith, h)

-- Where user identifiers are unique, and PyJWT decodes an access token of this issuer and audience that
-- it has made itself, with the times cut to whole seconds, from the cut `iat` until the cut `exp`: the access token of a login is accepted, from the
-- login until a second before access_ttl_seconds after it, as the user with the email of the login.
pub login-authenticates :
    (jwt : Jwt) (base : IdentitySecurity) (settings : Settings) (draw : Draw) (family_id now : ℕ)
    (email password : String) (db : Database) {db' : Database} {pair : TokenPair}
    → ((user_id : ℕ)
        → (whole_seconds (access_claims settings draw.now user_id)).iat ≤ now
        → now < (whole_seconds (access_claims settings draw.now user_id)).exp
        → IsDecoded jwt (access_claims settings draw.now user_id) now)
    → Unique user_key db.users
    → login (default_security jwt settings draw.now base) settings draw family_id email password db
      ≡ ok (db', pair)
    → draw.now ≤ now
    → now + seconds 1 ≤ draw.now + seconds settings.access_ttl_seconds
    → (u : User) × (user_by_email (base.casefold (strip email)) db.users ≡ some u)
      × (current_user_id jwt settings now (some (append "Bearer " pair.access_token)) db' ≡ ok u.id)
login-authenticates jwt base settings draw family_id now email password db {db'} {pair} works u h
      later fresh =
    let security = default_security jwt settings draw.now base in
    let (user, found, accepted, issued) =
      login-user security settings draw family_id email password db h in
    let (made, same) = issue_pair-ok security settings draw user.id family_id db issued in
    let there = user_found (normalize security email) db.users u found in
    let access : pair.access_token ≡ jwt.encode (access_claims settings draw.now user.id) =
      ap (λ (x : TokenPair). x.access_token) made ∙ (unfold create_access_token in refl) in
    let decoded =
      works user.id (not_before draw.now now later)
        (not_expired draw.now now settings.access_ttl_seconds fresh) in
    (
      user,
      found,
      rw access (
          accepted_token jwt settings draw.now now user.id decoded db' {u = user} (rw same there)
            (ground (arith, accepted))),
    )
