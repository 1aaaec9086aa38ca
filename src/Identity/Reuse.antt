-- ===== src/Identity/Reuse.antt =====
-- A refresh token that is presented a second time.
use text.Mathlib.TextEquality.{eq_iff}
use webhook_delivery_platfor.Base.{
  ◌≡◌, refl, sym, ap, ◌∙◌, true, false, ◌||◌, Option, none, some, List, [], ◌∷◌, String, inl, inr,
  arith, Bool-cases, ◌==◌, leb, count, select, first, find, str_eq, is_some, first-select-save,
  Unique,
}
use webhook_delivery_platfor.Schema.{Database, Settings, RefreshToken, token_key}
use webhook_delivery_platfor.Errors.{Result, ok, err, ok-injective}
use webhook_delivery_platfor.Identity.Users.{IdentitySecurity, reused_error, refresh_error}
use webhook_delivery_platfor.Identity.Sessions.{
  Draw, TokenPair, refresh, refresh_by_hash, rotate, refresh_found, revoke_refresh, revoke_family,
  is_live, committed,
}
use webhook_delivery_platfor.Identity.Families.{
  IsRotating, create_refresh-ok, rotate-ok, replacement,
}
use webhook_delivery_platfor.Identity.Requests.{found_token, count-revoke_family}

-- A revoked refresh token that is presented again is refused with 401 refresh_token_reused, and the
-- database that is committed with the refusal has no live token in its family.
pub reuse_revokes :
    (security : IdentitySecurity) (settings : Settings) (draw : Draw) (plaintext : String)
    (db : Database) (token : RefreshToken)
    → refresh_by_hash (security.token_hash plaintext) db.refresh_tokens ≡ some token
    → is_some token.revoked_at ≡ true
    → ((refresh security settings draw plaintext db).1 ≡ err reused_error)
      × (count
            (is_live token.family_id)
            (refresh security settings draw plaintext db).0.refresh_tokens
          ≡ 0)
unfolding refresh refresh_found revoke_family
reuse_revokes security settings draw plaintext db token found revoked =
    rw (found, revoked) (refl, count-revoke_family draw.now token.family_id db.refresh_tokens)

committed-ok :
    (db : Database) (m : Result (Database × TokenPair)) {db' : Database} {pair : TokenPair}
    → committed db m ≡ (db', ok pair)
    → m ≡ ok (db', pair)
committed-ok db (err x) {db'} {pair} h =
    absurd (clash (ap (λ (o : Database × Result TokenPair). o.1) h))
  where
    clash : err x ≡ ok pair → ⊥
    clash e = cc
committed-ok db (ok out) {db'} {pair} h = ap ok (
    pair_path (ap (λ (o : Database × Result TokenPair). o.0) h)
      (ok-injective (ap (λ (o : Database × Result TokenPair). o.1) h)))
  where
    pair_path : out.0 ≡ db' → out.1 ≡ pair → out ≡ (db', pair)
    pair_path e f = cc

no_clash : (a d n : String) → str_eq a d ≡ true → str_eq a n ≡ false → str_eq n d ≡ false
no_clash a d n h k = elim (Bool-cases (str_eq n d)) [
  | inl e ↦
      let same : a ≡ n = (eq_iff a d).0 h ∙ sym ((eq_iff n d).0 e) in
      absurd (differ ((eq_iff a n).1 same))
  | inr e ↦ e
]
  where
    differ : str_eq a n ≡ true → ⊥
    differ e = cc

-- A row of the table fails a test that no row passes.
first-none-not :
    (new : RefreshToken) (t : List RefreshToken) {r : RefreshToken}
    → find token_key r.id t ≡ some r
    → first (select (λ x. x.id == new.id || str_eq x.token_hash new.token_hash) t) ≡ none
    → str_eq r.token_hash new.token_hash ≡ false
unfolding find select
first-none-not new [] h e = cc
first-none-not new (x ∷ t) {r} h e = ground (arith, first-none-not new t {r = r})

-- A refresh that returns has found a live token and rotated it.
refresh_found-ok :
    (security : IdentitySecurity) (settings : Settings) (draw : Draw) (o : Option RefreshToken)
    (db : Database) {db' : Database} {pair : TokenPair}
    → refresh_found security settings draw o db ≡ (db', ok pair)
    → (token : RefreshToken) × (o ≡ some token)
      × (is_some token.revoked_at ≡ false)
      × (rotate security settings draw token db ≡ ok (db', pair))
unfolding refresh_found
refresh_found-ok security settings draw none db {db'} {pair} h = absurd (refused h)
  where
    refused : ◌≡◌ {A = Database × Result TokenPair} (db, err refresh_error) (db', ok pair) → ⊥
    refused e = cc
refresh_found-ok security settings draw (some token) db {db'} {pair} h =
    elim (Bool-cases (is_some token.revoked_at)) [
      | inl e ↦ absurd (ground (arith, e, h))
      | inr live ↦ elim (Bool-cases (leb token.expires_at draw.now)) [
        | inl e ↦ absurd (ground (arith, e, live, h))
        | inr e ↦ (
          token,
          refl,
          live,
          committed-ok db (rotate security settings draw token db) (ground (arith, e, live, h)),
        )
      ]
    ]

module _ (security : IdentitySecurity) (settings : Settings) (draw : Draw) (db : Database) where
  -- The presented token's row is still the one with its hash after the rotation, and is revoked.
  rotated_row :
      (digest : String) (token : RefreshToken) {db' : Database} {pair : TokenPair}
      → IsRotating db
      → refresh_by_hash digest db.refresh_tokens ≡ some token
      → rotate security settings draw token db ≡ ok (db', pair)
      → refresh_by_hash digest db'.refresh_tokens
        ≡ some (record token { revoked_at = some draw.now; replaced_by_id = some draw.token_id })
  rotated_row digest token {db'} i found h =
      let r = rotate-ok security settings draw token db h in
      let there = found_token digest db i found in
      let added = create_refresh-ok (replacement security settings draw token db) db r.created in
      let other =
        no_clash token.token_hash digest (security.token_hash draw.refresh_token) there.1 (
          first-none-not (replacement security settings draw token db) db.refresh_tokens there.0
            added.1) in
      rw r.revoked (
        unfold revoke_refresh in
        unfold refresh_by_hash in
        first-select-save token_key (λ t. str_eq t.token_hash digest) r.between.refresh_tokens
          {r = token}
          (record token { revoked_at = some draw.now; replaced_by_id = some draw.token_id })
          (rw added.0 (added.2, unique i))
          (rw added.0 (unfold select in rw other (unfold refresh_by_hash in found))) refl there.1)
    where
      unique : IsRotating db → Unique token_key db.refresh_tokens
      unique j = unfold IsRotating in j.0

-- Where each family has at most one live token and token identifiers are unique: once a refresh has
-- returned a pair, a second refresh with the same token is refused with 401 refresh_token_reused and
-- leaves no live token in the token's family.
pub used_twice :
    (security : IdentitySecurity) (settings : Settings) (draw draw2 : Draw) (plaintext : String)
    (db : Database) {db' : Database} {pair : TokenPair}
    → IsRotating db
    → refresh security settings draw plaintext db ≡ (db', ok pair)
    → (token : RefreshToken) × (refresh_by_hash (security.token_hash plaintext) db.refresh_tokens
        ≡ some token)
      × ((refresh security settings draw2 plaintext db').1 ≡ err reused_error)
      × (count
            (is_live token.family_id)
            (refresh security settings draw2 plaintext db').0.refresh_tokens
          ≡ 0)
unfolding refresh_found refresh
used_twice security settings draw draw2 plaintext db {db'} {pair} i h =
    let (token, found, live, rotated) =
      refresh_found-ok security settings draw
        (refresh_by_hash (security.token_hash plaintext) db.refresh_tokens) db h in
    let again =
      reuse_revokes security settings draw2 plaintext db' _
        (rotated_row security settings draw db (security.token_hash plaintext) token i found
          rotated)
        refl in
    (token, found, again.0, again.1)
