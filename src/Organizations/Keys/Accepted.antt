-- ===== src/Organizations/Keys/Accepted.antt =====
-- What producer_principal does with a key that was created, and with one that was revoked.
use text.Mathlib.TextPositions.{eq_refl}
use Prim.Native.Char.{code}
use webhook_delivery_platfor.Base.{
  after_prefix, append, ℕ, ◌≡◌, ◌⊎◌, refl, sym, ◌∙◌, true, false, not, ◌&&◌, none, some, List, [],
  ◌∷◌, String, inl, inr, arith, ◌==◌, if◌then◌else◌, str_eq, is_some, is_empty, select, first,
  Unique, Bool-cases, first-select-save,
}
use webhook_delivery_platfor.Schema.{
  Database, Settings, Environment, production, development, test, ApiKey, api_key_key,
}
use webhook_delivery_platfor.Errors.{ok, err}
use webhook_delivery_platfor.Access.{Request}
use webhook_delivery_platfor.Identity.{insert}
use webhook_delivery_platfor.Organizations.Keys.{
  split_dot, both_parts, parse_api_key, environment_prefix, new_api_key, only_write, new_key,
  create_key, key_of, revoke_found, revoke_key, has_write, key_by_prefix, accepts, check_key,
  check_plaintext, producer_principal, api_key_error, use_key, test_prefix,
}

split_dot-append :
    (p s : String) → split_dot p ≡ none → split_dot (append p (append "." s)) ≡ some (p, s)
unfolding split_dot append
split_dot-append String.[] s h = refl
split_dot-append (String.◌∷◌ c p) s h = elim (Bool-cases (code c == 46)) [
  | inl e ↦ absurd (ground (arith, e, h))
  | inr e ↦ rw (e, split_dot-append p s (ground (arith, e, h))) refl
]

both_parts_present :
    (p s : String)
    → is_empty p ≡ false
    → is_empty s ≡ false
    → both_parts (some (p, s)) ≡ some (p, s)
both_parts_present p s h k = rw (h, k) refl

-- A created key is split into its prefix and secret.
parse_created :
    (e : Environment) (p s : String)
    → split_dot p ≡ none
    → is_empty p ≡ false
    → is_empty s ≡ false
    → parse_api_key (append (environment_prefix e) (append p (append "." s))) ≡ some (p, s)
unfolding parse_api_key after_prefix append
parse_created production p s h hp hs = rw (split_dot-append p s h) (both_parts_present p s hp hs)
parse_created development p s h hp hs = rw (split_dot-append p s h) (both_parts_present p s hp hs)
parse_created test p s h hp hs = rw (split_dot-append p s h) (both_parts_present p s hp hs)

only_write-has_write : (scopes : List String) → only_write scopes ≡ true → has_write scopes ≡ true
unfolding only_write has_write
only_write-has_write [] h = cc
only_write-has_write (s ∷ []) h = rw h refl
only_write-has_write (s ∷ t ∷ more) h = ground arith

create_key-ok :
    (digest : String → String) (settings : Settings) (r : Request) (id : ℕ)
    (prefix secret name : String) (scopes : List String) (db : Database) {db' : Database}
    {k : ApiKey} {plaintext : String}
    → create_key digest settings r id prefix secret name scopes db ≡ ok (db', (k, plaintext))
    → (only_write scopes ≡ true)
      × (db'.api_keys ≡ new_key settings r id name scopes prefix (digest secret) ∷ db.api_keys)
      × (plaintext
          ≡ append (environment_prefix settings.environment) (append prefix (append "." secret)))
unfolding create_key new_api_key insert
create_key-ok digest settings r id prefix secret name scopes db {db'} {k} {plaintext} h =
    ground arith

-- A key that is not accepted here is refused.
plaintext_allowed :
    (settings : Settings) (rest : String)
    → (settings.environment ≡ production) ⊎ (settings.accept_test_api_keys ≡ true)
    → (is_some (after_prefix test_prefix (append (environment_prefix settings.environment) rest))
        && not settings.accept_test_api_keys)
      ≡ false
unfolding after_prefix append
plaintext_allowed settings rest (inl e) = rw e refl
plaintext_allowed settings rest (inr e) = ground (arith, e)

module _ (digest : String → String) (settings : Settings) (now : ℕ) (db : Database) where
  with_header :
      (plaintext : String)
      → producer_principal digest settings now (some (append "Bearer " plaintext)) db
        ≡ check_plaintext digest settings now plaintext db
  unfolding producer_principal after_prefix append
  with_header plaintext = refl

  with_parts :
      (plaintext prefix secret : String)
      → (is_some (after_prefix test_prefix plaintext) && not settings.accept_test_api_keys) ≡ false
      → parse_api_key plaintext ≡ some (prefix, secret)
      → check_plaintext digest settings now plaintext db ≡ check_key digest now prefix secret db
  unfolding check_plaintext
  with_parts plaintext prefix secret allowed parsed = rw (allowed, parsed) refl

  with_key :
      (prefix secret : String) (k : ApiKey)
      → key_by_prefix prefix db.api_keys ≡ some k
      → check_key digest now prefix secret db
        ≡ (if accepts digest secret k then ok (use_key now db k) else err api_key_error)
  unfolding check_key
  with_key prefix secret k found = rw (found, check_key) refl

  -- Whatever the settings take, a key that the table refuses is refused.
  refused :
      (plaintext prefix secret : String) (k : ApiKey)
      → parse_api_key plaintext ≡ some (prefix, secret)
      → key_by_prefix prefix db.api_keys ≡ some k
      → accepts digest secret k ≡ false
      → producer_principal digest settings now (some (append "Bearer " plaintext)) db
        ≡ err api_key_error
  refused plaintext prefix secret k parsed found bad =
      with_header plaintext
      ∙ elim (Bool-cases
          (is_some (after_prefix test_prefix plaintext) && not settings.accept_test_api_keys)) [
            | inl e ↦ unfold check_plaintext in rw e refl
            | inr e ↦
                with_parts plaintext prefix secret e parsed
                ∙ with_key prefix secret k found
                ∙ rw bad refl
          ]

-- A created key whose prefix has no dot, and whose prefix and secret are not empty, as the random
-- values of the program are, is accepted right away where the environment takes its kind of key: the
-- header with the key as it was shown gives the organization and the identifier of its row.
pub created_key-accepted :
    (digest : String → String) (settings : Settings) (r : Request) (now id : ℕ)
    (prefix secret name : String) (scopes : List String) (db : Database) {db' : Database}
    {k : ApiKey} {plaintext : String}
    → split_dot prefix ≡ none
    → is_empty prefix ≡ false
    → is_empty secret ≡ false
    → (settings.environment ≡ production) ⊎ (settings.accept_test_api_keys ≡ true)
    → create_key digest settings r id prefix secret name scopes db ≡ ok (db', (k, plaintext))
    → (db'' : Database) × (producer_principal digest settings now
          (some (append "Bearer " plaintext))
          db'
        ≡ ok (db'', record { organization_id = r.organization_id; api_key_id = id }))
created_key-accepted digest settings r now id prefix secret name scopes db {db'} {k} {plaintext}
      no_dot hp hs allowed h =
    let (scoped, keys, shown) = create_key-ok digest settings r id prefix secret name scopes db h in
    let k : ApiKey = new_key settings r id name scopes prefix (digest secret) in
    let found : key_by_prefix prefix db'.api_keys ≡ some k =
      unfold key_by_prefix in unfold select in rw (keys, eq_refl prefix) refl in
    let good : accepts digest secret k ≡ true =
      unfold accepts in rw (only_write-has_write scopes scoped, eq_refl (digest secret)) refl in
    (
      (use_key now db' k).0,
      with_header digest settings now db' plaintext
          ∙ with_parts digest settings now db' plaintext prefix secret
              (rw shown (plaintext_allowed settings _ allowed))
              (rw shown (parse_created settings.environment prefix secret no_dot hp hs))
          ∙ with_key digest settings now db' prefix secret k found
          ∙ rw good refl,
    )

revoke_found-revoked :
    (r : Request) (k : ApiKey) (db : Database)
    → Unique api_key_key db.api_keys
    → key_by_prefix k.prefix db.api_keys ≡ some k
    → (k' : ApiKey) × (key_by_prefix k.prefix (revoke_found r (some k) db).api_keys ≡ some k')
      × (is_some k'.revoked_at ≡ true)
unfolding revoke_found
revoke_found-revoked r k db u found = elim (Bool-cases (is_some k.revoked_at)) [
  | inl e ↦ rw e (k, found, e)
  | inr e ↦ rw e (
    record k { revoked_at = some r.now },
    (unfold key_by_prefix in
        first-select-save api_key_key (λ x. str_eq x.prefix k.prefix) db.api_keys {r = k}
          (record k { revoked_at = some r.now }) u found refl (eq_refl k.prefix)),
    refl,
  )
]

-- Where identifiers are unique and the key `k` is the one with its prefix: once revoke_key has
-- returned for it, every plaintext that names its prefix is refused with 401 invalid_api_key,
-- whatever its secret is.
pub revoked_key-refused :
    (digest : String → String) (settings : Settings) (r : Request) (now : ℕ) (k : ApiKey)
    (plaintext secret : String) (db : Database) {db' : Database}
    → Unique api_key_key db.api_keys
    → key_by_prefix k.prefix db.api_keys ≡ some k
    → first (select (key_of r.organization_id k.id) db.api_keys) ≡ some k
    → revoke_key r k.id db ≡ ok db'
    → parse_api_key plaintext ≡ some (k.prefix, secret)
    → producer_principal digest settings now (some (append "Bearer " plaintext)) db'
      ≡ err api_key_error
unfolding revoke_key
revoked_key-refused digest settings r now k plaintext secret db {db'} u found named h parsed =
    let (k', there, gone) = revoke_found-revoked r k db u found in
    let same : revoke_found r (some k) db ≡ db' = ground (arith, named, h) in
    refused digest settings now db' plaintext k.prefix secret k' parsed (rw (sym same) there)
      (unfold accepts in rw gone refl)
