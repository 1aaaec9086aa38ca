-- ===== src/Identity/Sessions.antt =====
-- src/webhook_platform/identity/application/use_cases.py over
-- src/webhook_platform/identity/infrastructure/repository.py: login, the rotation of refresh tokens,
-- logout and the current user. `refresh` also raises after a commit, so it gives the database beside
-- its result.
use webhook_delivery_platfor.Base.{
  ℕ, ◌+◌, Bool, not, ◌&&◌, ◌||◌, Option, none, some, List, String, leb, ◌==◌, if◌then◌else◌, str_eq,
  is_some, select, update_where, first, find, save,
}
use webhook_delivery_platfor.Schema.{
  Database, Settings, seconds, User, RefreshToken, Membership, user_key, token_key,
}
use webhook_delivery_platfor.Errors.{Result, ok, err, ◌>>=◌}
use webhook_delivery_platfor.Identity.Users.{
  IdentitySecurity, credentials_error, refresh_error, reused_error, token_error, insert, normalize,
  user_by_email,
}

-- The random values of a new pair of tokens, and the time.
pub record Draw : Type 0 where
  pub now : ℕ
  pub token_id : ℕ
  pub refresh_token : String

pub record TokenPair : Type 0 where
  pub access_token : String
  pub refresh_token : String
  pub access_expires_at : ℕ
  pub refresh_expires_at : ℕ

abbrev pub new_pair : IdentitySecurity → Settings → Draw → ℕ → TokenPair
new_pair security settings draw user_id =
    let (access, access_expires_at) = security.create_access_token user_id in
    record {
      access_token = access;
      refresh_token = draw.refresh_token;
      access_expires_at = access_expires_at;
      refresh_expires_at = draw.now + seconds settings.refresh_ttl_seconds;
    }

abbrev pub new_token : IdentitySecurity → Settings → Draw → ℕ → ℕ → RefreshToken
new_token security settings draw user_id family_id = record {
  id = draw.token_id;
  created_at = draw.now;
  token_hash = security.token_hash draw.refresh_token;
  user_id = user_id;
  family_id = family_id;
  expires_at = draw.now + seconds settings.refresh_ttl_seconds;
  revoked_at = none;
  replaced_by_id = none;
}

-- repository.create_refresh
unfoldable pub create_refresh : RefreshToken → Database → Result Database
unfolding insert
create_refresh token db = do
  tokens ←
      insert (λ t. t.id == token.id || str_eq t.token_hash token.token_hash) token db.refresh_tokens
  ok (record db { refresh_tokens = tokens })

-- _issue_pair
unfoldable pub issue_pair :
    IdentitySecurity → Settings → Draw → ℕ → ℕ → Database → Result (Database × TokenPair)
unfolding create_refresh
issue_pair security settings draw user_id family_id db = do
  db' ← create_refresh (new_token security settings draw user_id family_id) db
  ok (db', new_pair security settings draw user_id)

abbrev pub accepts_password : IdentitySecurity → String → User → Bool
accepts_password security password u = u.active && security.verify_password password u.password_hash

-- IdentityUseCases.login; `family_id` is the new identifier of the family.
unfoldable pub login :
    IdentitySecurity
    → Settings
    → Draw
    → ℕ
    → String
    → String
    → Database
    → Result (Database × TokenPair)
unfolding user_by_email issue_pair
login security settings draw family_id email password db =
    elim (user_by_email (normalize security email) db.users) [
      | none ↦ err credentials_error
      | some u ↦
          if accepts_password security password u
          then issue_pair security settings draw u.id family_id db
          else err credentials_error
    ]

-- repository.refresh_by_hash_for_update
unfoldable pub refresh_by_hash : String → List RefreshToken → Option RefreshToken
refresh_by_hash digest t = first (select (λ r. str_eq r.token_hash digest) t)

-- repository.revoke_refresh
unfoldable pub revoke_refresh : ℕ → Option ℕ → RefreshToken → Database → Database
revoke_refresh now replaced_by_id token db = record db {
  refresh_tokens =
      save token_key (record token { revoked_at = some now; replaced_by_id = replaced_by_id })
        db.refresh_tokens;
}

-- A token of the family that is not revoked.
unfoldable pub is_live : ℕ → RefreshToken → Bool
is_live family_id t = t.family_id == family_id && not (is_some t.revoked_at)

abbrev pub revoke : ℕ → RefreshToken → RefreshToken
revoke now t = record t { revoked_at = some now }

-- repository.revoke_family
unfoldable pub revoke_family : ℕ → ℕ → Database → Database
unfolding is_live
revoke_family now family_id db = record db {
  refresh_tokens = update_where (is_live family_id) (revoke now) db.refresh_tokens;
}

-- A token that may be exchanged: its replacement is inserted, then it is revoked.
unfoldable pub rotate :
    IdentitySecurity → Settings → Draw → RefreshToken → Database → Result (Database × TokenPair)
unfolding issue_pair revoke_refresh
rotate security settings draw token db = do
  issued ← issue_pair security settings draw token.user_id token.family_id db
  ok (revoke_refresh draw.now (some draw.token_id) token issued.0, issued.1)

-- An exception before the commit leaves the database as it was.
abbrev pub committed {ℓ} : {A : Type ℓ} → Database → Result (Database × A) → Database × Result A
committed db (err x) = (db, err x)
committed db (ok out) = (out.0, ok out.1)

unfoldable pub refresh_found :
    IdentitySecurity
    → Settings
    → Draw
    → Option RefreshToken
    → Database
    → Database × Result TokenPair
unfolding revoke_family rotate
refresh_found security settings draw none db = (db, err refresh_error)
refresh_found security settings draw (some token) db =
    if is_some token.revoked_at
    then (revoke_family draw.now token.family_id db, err reused_error)
    else if leb token.expires_at draw.now
    then (db, err refresh_error)
    else committed db (rotate security settings draw token db)

-- IdentityUseCases.refresh
unfoldable pub refresh :
    IdentitySecurity → Settings → Draw → String → Database → Database × Result TokenPair
unfolding refresh_found refresh_by_hash
refresh security settings draw plaintext db =
    refresh_found security settings draw
      (refresh_by_hash (security.token_hash plaintext) db.refresh_tokens) db

-- IdentityUseCases.logout
unfoldable pub logout : IdentitySecurity → ℕ → String → Database → Database
unfolding refresh_by_hash revoke_refresh
logout security now plaintext db =
    elim (refresh_by_hash (security.token_hash plaintext) db.refresh_tokens) [
      | none ↦ db
      | some token ↦ if is_some token.revoked_at then db else revoke_refresh now none token db
    ]

-- IdentityUseCases.me: the user, and the organization and role of each membership.
unfoldable pub me : ℕ → Database → Result (User × List Membership)
me user_id db = elim (find user_key user_id db.users) [
  | none ↦ err token_error
  | some u ↦
      if u.active
      then ok (u, select (λ m. m.user_id == user_id) db.memberships)
      else err token_error
]
