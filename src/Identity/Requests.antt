-- ===== src/Identity/Requests.antt =====
-- The requests that write refresh tokens, in every order.
use webhook_delivery_platfor.Base.{
  ℕ, ◌≤◌, ◌≡◌, refl, subst, sym, ap, true, false, Option, none, some, List, [], ◌∷◌, String, inl,
  inr, arith, Bool-cases, Option-cases, ◌==◌, leb, count, find, update_where, Unique, str_eq,
  is_some, strip, eq_self, first-select, update_where-Unique,
}
use webhook_delivery_platfor.Schema.{Database, Settings, RefreshToken, token_key}
use webhook_delivery_platfor.Errors.{Result, ok, err}
use webhook_delivery_platfor.Identity.Users.{
  IdentitySecurity, RegistrationIds, Registration, register, create_registration, new_registration,
  user_by_email, normalize,
}
use webhook_delivery_platfor.Identity.Sessions.{
  Draw, TokenPair, login, refresh, logout, refresh_by_hash, create_refresh, issue_pair, rotate,
  refresh_found, revoke_family, revoke, is_live, new_token, committed,
}
use webhook_delivery_platfor.Identity.Families.{
  IsRotating, add_token, revoke_refresh-IsRotating, rotate-IsRotating,
}

-- One request that writes tokens. A login starts a family that has no token yet.
pub data TokenStep (security : IdentitySecurity) (settings : Settings)
    : Database → Database → Type 0 where
  registered :
      (ids : RegistrationIds) (email password name : String) {db db' : Database}
      {row : Registration}
      → register security ids email password name db ≡ ok (db', row)
      → TokenStep security settings db db'
  logged_in :
      (draw : Draw) (family_id : ℕ) (email password : String) {db db' : Database} {pair : TokenPair}
      → ((f : ℕ) → (f == family_id) ≡ true → count (is_live f) db.refresh_tokens ≡ 0)
      → login security settings draw family_id email password db ≡ ok (db', pair)
      → TokenStep security settings db db'
  refreshed :
      (draw : Draw) (plaintext : String) {db db' : Database} {result : Result TokenPair}
      → refresh security settings draw plaintext db ≡ (db', result)
      → TokenStep security settings db db'
  logged_out :
      (now : ℕ) (plaintext : String) {db db' : Database}
      → logout security now plaintext db ≡ db'
      → TokenStep security settings db db'

create_registration-tokens :
    (row : Registration) (db : Database) {db' : Database}
    → create_registration row db ≡ ok db'
    → db'.refresh_tokens ≡ db.refresh_tokens
unfolding create_registration
create_registration-tokens row db {db'} h = ground arith

register-tokens :
    (security : IdentitySecurity) (ids : RegistrationIds) (email password name : String)
    (db : Database) {db' : Database} {row : Registration}
    → register security ids email password name db ≡ ok (db', row)
    → db'.refresh_tokens ≡ db.refresh_tokens
unfolding register
register-tokens security ids email password name db {db'} {row} h = ground (
  arith,
  create_registration-tokens
      (new_registration ids (normalize security email) (security.hash_password password)
        (strip name))
      db,
)

login-ok :
    (security : IdentitySecurity) (settings : Settings) (draw : Draw) (family_id : ℕ)
    (email password : String) (db : Database) {db' : Database} {pair : TokenPair}
    → login security settings draw family_id email password db ≡ ok (db', pair)
    → (user_id : ℕ) × (create_refresh (new_token security settings draw user_id family_id) db
        ≡ ok db')
unfolding login issue_pair
login-ok security settings draw family_id email password db {db'} {pair} h =
    elim (Option-cases (user_by_email (normalize security email) db.users)) [
      | inl e ↦ absurd (ground (arith, e, h))
      | inr (u, e) ↦ (u.id, ground (arith, e, h))
    ]

-- A family is revoked: none of its tokens stays live.
pub count-revoke_family :
    (now family_id : ℕ) (ts : List RefreshToken)
    → count (is_live family_id) (update_where (is_live family_id) (revoke now) ts) ≡ 0
unfolding count update_where is_live
count-revoke_family now family_id [] = refl
count-revoke_family now family_id (t ∷ ts) = ground (arith, count-revoke_family now family_id ts)

count-revoke_other :
    (now family_id f : ℕ) (ts : List RefreshToken)
    → count (is_live f) (update_where (is_live family_id) (revoke now) ts) ≤ count (is_live f) ts
unfolding count update_where is_live
count-revoke_other now family_id f [] = omega arith
count-revoke_other now family_id f (t ∷ ts) = ground (arith, count-revoke_other now family_id f ts)

revoke_family-IsRotating :
    (now family_id : ℕ) (db : Database)
    → IsRotating db
    → IsRotating (revoke_family now family_id db)
unfolding IsRotating revoke_family
revoke_family-IsRotating now family_id db i = (
  update_where-Unique token_key (is_live family_id) (revoke now) db.refresh_tokens (λ t. refl) i.0,
  λ f. omega (arith, count-revoke_other now family_id f db.refresh_tokens, i.1 f),
)

committed-IsRotating :
    (security : IdentitySecurity) (settings : Settings) (draw : Draw) (token : RefreshToken)
    (db : Database)
    → find token_key token.id db.refresh_tokens ≡ some token
    → is_some token.revoked_at ≡ false
    → IsRotating db
    → (m : Result (Database × TokenPair)) → rotate security settings draw token db ≡ m
    → IsRotating (committed db m).0
committed-IsRotating security settings draw token db there live i (err x) h = i
committed-IsRotating security settings draw token db there live i (ok (db', pair)) h =
    rotate-IsRotating security settings draw token db there live i h

pub found_token :
    (digest : String) (db : Database) {token : RefreshToken}
    → IsRotating db
    → refresh_by_hash digest db.refresh_tokens ≡ some token
    → (find token_key token.id db.refresh_tokens ≡ some token)
      × (str_eq token.token_hash digest ≡ true)
unfolding IsRotating refresh_by_hash
found_token digest db i h = first-select token_key _ db.refresh_tokens i.0 h

refresh_found-IsRotating :
    (security : IdentitySecurity) (settings : Settings) (draw : Draw) (db : Database)
    (o : Option RefreshToken)
    → ((token : RefreshToken)
        → o ≡ some token
        → find token_key token.id db.refresh_tokens ≡ some token)
    → IsRotating db
    → IsRotating (refresh_found security settings draw o db).0
unfolding refresh_found
refresh_found-IsRotating security settings draw db none there i = i
refresh_found-IsRotating security settings draw db (some token) there i =
    elim (Bool-cases (is_some token.revoked_at)) [
      | inl e ↦ rw e (revoke_family-IsRotating draw.now token.family_id db i)
      | inr live ↦ rw live (elim (Bool-cases (leb token.expires_at draw.now)) [
        | inl e ↦ rw e i
        | inr e ↦
            rw e (
              committed-IsRotating security settings draw token db (there token refl) live i _ refl)
      ])
    ]

logout-IsRotating :
    (security : IdentitySecurity) (now : ℕ) (plaintext : String) (db : Database)
    → IsRotating db
    → IsRotating (logout security now plaintext db)
unfolding logout IsRotating
logout-IsRotating security now plaintext db i =
    elim (Option-cases (refresh_by_hash (security.token_hash plaintext) db.refresh_tokens)) [
      | inl e ↦ rw (e, logout) i
      | inr (token, e) ↦
          rw (e, logout)
            (elim (Bool-cases (is_some token.revoked_at)) [
              | inl b ↦ rw b i
              | inr b ↦ rw b (
                  revoke_refresh-IsRotating now none token db
                    (found_token (security.token_hash plaintext) db i e).0 i)
            ])
    ]

pub step-IsRotating :
    (security : IdentitySecurity) (settings : Settings) {db db' : Database}
    → TokenStep security settings db db'
    → IsRotating db
    → IsRotating db'
step-IsRotating security settings {db} (registered ids email password name h) i =
    unfold IsRotating in
    subst (λ ts. Unique token_key ts × ((f : ℕ) → count (is_live f) ts ≤ 1))
      (sym (register-tokens security ids email password name db h)) i
step-IsRotating security settings {db} {db'} (logged_in draw family_id email password fresh h) i =
    let (user_id, created) = login-ok security settings draw family_id email password db h in
    add_token (new_token security settings draw user_id family_id) db db' i
      (fresh family_id (eq_self family_id)) created
step-IsRotating security settings {db} (refreshed draw plaintext h) i =
    subst IsRotating (ap (λ (x : Database × Result TokenPair). x.0) h) (
      unfold refresh in
      refresh_found-IsRotating security settings draw db _
        (λ token e. (found_token (security.token_hash plaintext) db i e).0) i)
step-IsRotating security settings {db} (logged_out now plaintext h) i =
    subst IsRotating h (logout-IsRotating security now plaintext db i)

-- The databases that a sequence of requests reaches from one without tokens.
pub data Reachable (security : IdentitySecurity) (settings : Settings) : Database → Type 0 where
  start : (db : Database) → db.refresh_tokens ≡ [] → Reachable security settings db
  after :
      {db db' : Database}
      → Reachable security settings db
      → TokenStep security settings db db'
      → Reachable security settings db'

-- After every sequence of registrations, logins in a family without live tokens, refreshes and
-- logouts from a database without refresh tokens, no two tokens have one identifier and each family
-- has at most one token that is not revoked.
pub Reachable-IsRotating :
    (security : IdentitySecurity) (settings : Settings) {db : Database}
    → Reachable security settings db
    → IsRotating db
Reachable-IsRotating security settings (start db none_yet) =
    unfold IsRotating in rw none_yet (tt, λ f. unfold count in omega arith)
Reachable-IsRotating security settings (after r s) =
    step-IsRotating security settings s (Reachable-IsRotating security settings r)
