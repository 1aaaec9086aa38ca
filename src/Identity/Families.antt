-- ===== src/Identity/Families.antt =====
-- The families of refresh tokens, over every order of the requests that write them.
use webhook_delivery_platfor.Base.{
  ℕ, ◌+◌, ◌≤◌, ◌≡◌, refl, subst, sym, ap, ◌∙◌, Bool, false, ◌||◌, Option, none, some, List, ◌∷◌,
  inl, inr, arith, Bool-cases, Option-cases, ◌==◌, bit, count, select, first, find, Unique, str_eq,
  is_some, eq→≡, count-save, save-Unique, first-none-find,
}
use webhook_delivery_platfor.Schema.{Database, Settings, RefreshToken, token_key}
use webhook_delivery_platfor.Errors.{ok, >>=-eq-ok, ok-injective}
use webhook_delivery_platfor.Identity.Users.{IdentitySecurity, insert}
use webhook_delivery_platfor.Identity.Sessions.{
  Draw, TokenPair, create_refresh, issue_pair, rotate, revoke_refresh, is_live, new_token, new_pair,
}

-- Each family has at most one token that is not revoked.
unfoldable pub IsRotating : Database → Type 0
IsRotating db =
    Unique token_key db.refresh_tokens
    × ((family_id : ℕ) → count (is_live family_id) db.refresh_tokens ≤ 1)

pub insert-ok {ℓ} :
    {A : Type ℓ} (clashes : A → Bool) (r : A) (t : List A) {t' : List A}
    → insert clashes r t ≡ ok t'
    → (t' ≡ r ∷ t) × (first (select clashes t) ≡ none)
unfolding insert
insert-ok clashes r t {t'} h = elim (Option-cases (first (select clashes t))) [
  | inl e ↦ (cc, e)
  | inr e ↦ cc
]

pub create_refresh-ok :
    (token : RefreshToken) (db : Database) {db' : Database}
    → create_refresh token db ≡ ok db'
    → (db'.refresh_tokens ≡ token ∷ db.refresh_tokens)
      × (first (
            select
              (λ t. t.id == token.id || str_eq t.token_hash token.token_hash)
              db.refresh_tokens)
          ≡ none)
      × (find token_key token.id db.refresh_tokens ≡ none)
unfolding create_refresh
create_refresh-ok token db {db'} h =
    let (tokens, inserted, done) =
      >>=-eq-ok
        (insert (λ t. t.id == token.id || str_eq t.token_hash token.token_hash) token
          db.refresh_tokens)
        (λ tokens. ok (record db { refresh_tokens = tokens })) h in
    let parts = insert-ok _ token db.refresh_tokens inserted in
    (
      sym (ap (λ (d : Database). d.refresh_tokens) (ok-injective done)) ∙ parts.0,
      parts.1,
      first-none-find token_key _ token.id db.refresh_tokens (λ r e. rw e refl) parts.1,
    )

-- A new token in a family without a live one.
pub add_token :
    (token : RefreshToken) (db db' : Database)
    → IsRotating db
    → count (is_live token.family_id) db.refresh_tokens ≡ 0
    → create_refresh token db ≡ ok db'
    → IsRotating db'
unfolding IsRotating count is_live
add_token token db db' i fresh h =
    let added = create_refresh-ok token db h in
    subst (λ ts. Unique token_key ts × ((f : ℕ) → count (is_live f) ts ≤ 1)) (sym added.0)
      ((added.2, i.0), live)
  where
    live : (f : ℕ) → count (is_live f) (token ∷ db.refresh_tokens) ≤ 1
    live f = elim (Bool-cases (token.family_id == f)) [
      | inl e ↦
          let none_yet =
            subst (λ k. count (is_live k) db.refresh_tokens ≡ 0) (eq→≡ token.family_id f e) fresh in
          ground (arith, e, none_yet)
      | inr e ↦ ground (arith, e, i.1 f)
    ]

-- The token that is written over its row is revoked.
pub revoke_token :
    (now : ℕ) (by : Option ℕ) (token : RefreshToken) (db : Database)
    → find token_key token.id db.refresh_tokens ≡ some token
    → (f : ℕ)
    → count (is_live f) (revoke_refresh now by token db).refresh_tokens + bit (is_live f token)
      ≡ count (is_live f) db.refresh_tokens
unfolding revoke_refresh is_live
revoke_token now by token db there f =
    let c =
      count-save token_key (is_live f) (record token { revoked_at = some now; replaced_by_id = by })
        db.refresh_tokens there in
    ground (arith, c)

pub revoke_refresh-IsRotating :
    (now : ℕ) (by : Option ℕ) (token : RefreshToken) (db : Database)
    → find token_key token.id db.refresh_tokens ≡ some token
    → IsRotating db
    → IsRotating (revoke_refresh now by token db)
unfolding IsRotating
revoke_refresh-IsRotating now by token db there i = (
  unfold revoke_refresh in
      save-Unique token_key (record token { revoked_at = some now; replaced_by_id = by })
        db.refresh_tokens there i.0,
  λ f. omega (arith, revoke_token now by token db there f, i.1 f),
)

-- A rotation inserts a token of the same user and family, and then revokes the one presented.
pub record Rotation (security : IdentitySecurity) (settings : Settings) (draw : Draw)
    (token : RefreshToken) (db db' : Database) (pair : TokenPair) : Type 0 where
  pub between : Database
  pub created :
      create_refresh (new_token security settings draw token.user_id token.family_id) db
      ≡ ok between
  pub revoked : db' ≡ revoke_refresh draw.now (some draw.token_id) token between
  pub answer : pair ≡ new_pair security settings draw token.user_id

pub rotate-ok :
    (security : IdentitySecurity) (settings : Settings) (draw : Draw) (token : RefreshToken)
    (db : Database) {db' : Database} {pair : TokenPair}
    → rotate security settings draw token db ≡ ok (db', pair)
    → Rotation security settings draw token db db' pair
unfolding rotate issue_pair
rotate-ok security settings draw token db {db'} {pair} h =
    let (issued, pair_issued, last) =
      >>=-eq-ok (issue_pair security settings draw token.user_id token.family_id db)
        (λ issued. ok (revoke_refresh draw.now (some draw.token_id) token issued.0, issued.1)) h in
    let (between, created, given) =
      >>=-eq-ok (create_refresh (new_token security settings draw token.user_id token.family_id) db)
        (λ d. ok (d, new_pair security settings draw token.user_id)) pair_issued in
    let same : (between, new_pair security settings draw token.user_id) ≡ issued =
      ok-injective given in
    let out : (revoke_refresh draw.now (some draw.token_id) token issued.0, issued.1)
        ≡ (db', pair) =
      ok-injective last in
    record {
      between = between;
      created = created;
      revoked =
          sym (ap (λ (x : Database × TokenPair). x.0) out)
          ∙ ap
              (λ (x : Database × TokenPair). revoke_refresh draw.now (some draw.token_id) token x.0)
              (sym same);
      answer =
          sym (ap (λ (x : Database × TokenPair). x.1) out)
          ∙ ap (λ (x : Database × TokenPair). x.1) (sym same);
    }

module _ (security : IdentitySecurity) (settings : Settings) (draw : Draw) (token : RefreshToken)
    (db : Database) where
  abbrev pub replacement : RefreshToken
  replacement = new_token security settings draw token.user_id token.family_id

  -- The presented token's row is still there beside its replacement.
  pub still_there :
      (between : Database)
      → find token_key token.id db.refresh_tokens ≡ some token
      → create_refresh replacement db ≡ ok between
      → find token_key token.id between.refresh_tokens ≡ some token
  unfolding find
  still_there between there h =
      let added = create_refresh-ok replacement db h in
      rw added.0 (ground (arith, there, added.2, eq→≡ draw.token_id token.id))

  pub rotate-IsRotating :
      {db' : Database} {pair : TokenPair}
      → find token_key token.id db.refresh_tokens ≡ some token
      → is_some token.revoked_at ≡ false
      → IsRotating db
      → rotate security settings draw token db ≡ ok (db', pair)
      → IsRotating db'
  unfolding IsRotating
  rotate-IsRotating {db'} there live i h =
      let r = rotate-ok security settings draw token db h in
      let at = still_there r.between there r.created in
      let added = create_refresh-ok replacement db r.created in
      let unique : Unique token_key r.between.refresh_tokens = rw added.0 (added.2, i.0) in
      subst
        (λ d.
          Unique token_key d.refresh_tokens × ((f : ℕ) → count (is_live f) d.refresh_tokens ≤ 1))
        (sym r.revoked)
        (
          (unfold revoke_refresh in
              save-Unique token_key
                (record token { revoked_at = some draw.now; replaced_by_id = some draw.token_id })
                r.between.refresh_tokens at unique),
          λ f. kept f r.between at added.0,
        )
    where
      counted :
          (f : ℕ) (between : Database)
          → between.refresh_tokens ≡ replacement ∷ db.refresh_tokens
          → count (is_live f) between.refresh_tokens
            ≡ bit (is_live f token) + count (is_live f) db.refresh_tokens
      counted f between added = rw added (unfold count in unfold is_live in (ground (arith, live)))

      kept :
          (f : ℕ) (between : Database)
          → find token_key token.id between.refresh_tokens ≡ some token
          → between.refresh_tokens ≡ replacement ∷ db.refresh_tokens
          → count
              (is_live f)
              (revoke_refresh draw.now (some draw.token_id) token between).refresh_tokens
            ≤ 1
      kept f between at added =
          let one_more = counted f between added in
          ground
            (arith, revoke_token draw.now (some draw.token_id) token between at f, one_more, i.1 f)
