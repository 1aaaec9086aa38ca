-- ===== src/Organizations/Keys.antt =====
-- The API keys of an organization: OrganizationUseCases.create_key and revoke_key of
-- src/webhook_platform/organizations/application/use_cases.py, the form of a key in
-- src/webhook_platform/shared/infrastructure/security.py, and producer_principal of
-- src/webhook_platform/api_dependencies.py, which a request with a key has to pass.
pub mod Accepted
use Prim.Native.Char.{code}
use webhook_delivery_platfor.Base.{
  ℕ, Bool, true, false, not, ◌&&◌, ◌||◌, Option, none, some, List, [], ◌∷◌, String, ◌==◌,
  if◌then◌else◌, str_eq, strip, after_prefix, append, is_some, is_empty, select, first, save,
}
use webhook_delivery_platfor.Schema.{
  Database, Settings, Environment, production, ApiKey, is_manager, api_key_key,
}
use webhook_delivery_platfor.Errors.{Exception, Result, ok, err, app_error, ◌>>=◌}
use webhook_delivery_platfor.Access.{Request, require_role, audit}
use webhook_delivery_platfor.Identity.{insert}

-- str.partition(".") where there is a dot.
unfoldable pub split_dot : String → Option (String × String)
split_dot String.[] = none
split_dot (String.◌∷◌ c s) =
    let rest = split_dot s in
    if code c == 46
    then some (String.[], s)
    else elim rest [ none ↦ none | some parts ↦ some (String.◌∷◌ c parts.0, parts.1) ]

abbrev live_prefix : String
live_prefix = "whk_live_"

abbrev test_prefix : String
test_prefix = "whk_test_"

abbrev both_parts : Option (String × String) → Option (String × String)
both_parts none = none
both_parts (some parts) = if is_empty parts.0 || is_empty parts.1 then none else some parts

-- parse_api_key
unfoldable pub parse_api_key : String → Option (String × String)
unfolding after_prefix split_dot
parse_api_key value = elim (after_prefix live_prefix value) [
  | some rest ↦ both_parts (split_dot rest)
  | none ↦ elim (after_prefix test_prefix value) [
    | some rest ↦ both_parts (split_dot rest)
    | none ↦ none
  ]
]

abbrev environment_prefix : Environment → String
environment_prefix production = live_prefix
environment_prefix _ = test_prefix

-- What new_api_key makes of the random prefix and secret: the key as it is shown, the prefix, and
-- the digest. `digest` is api_key_digest, the HMAC with the pepper of the settings.
unfoldable pub new_api_key :
    (String → String) → Settings → String → String → String × String × String
unfolding append
new_api_key digest settings prefix secret = (
  append (environment_prefix settings.environment) (append prefix (append "." secret)),
  prefix,
  digest secret,
)

abbrev scope_error : Exception
scope_error = app_error "invalid_scope" "API key scopes are invalid" 422

-- sorted(set(scopes)) == ["events:write"]
unfoldable pub only_write : List String → Bool
only_write [] = false
only_write (s ∷ []) = str_eq s "events:write"
only_write (s ∷ t ∷ more) = str_eq s "events:write" && only_write (t ∷ more)

-- The unique constraints on id and prefix.
abbrev key_clashes : ApiKey → ApiKey → Bool
key_clashes k other = other.id == k.id || str_eq other.prefix k.prefix

abbrev pub new_key : Settings → Request → ℕ → String → List String → String → String → ApiKey
new_key settings r id name scopes prefix secret_digest = record {
  id = id;
  created_at = r.now;
  organization_id = r.organization_id;
  name = strip name;
  prefix = prefix;
  secret_digest = secret_digest;
  digest_key_version = settings.api_key_digest_version;
  scopes = scopes;
  revoked_at = none;
  last_used_at = none;
}

-- OrganizationUseCases.create_key: the row, and the key that is shown only here.
unfoldable pub create_key :
    (String → String)
    → Settings
    → Request
    → ℕ
    → String
    → String
    → String
    → List String
    → Database
    → Result (Database × (ApiKey × String))
unfolding new_api_key insert only_write
create_key digest settings r id prefix secret name scopes db = do
  acting ← require_role is_manager r db.memberships
  if not (only_write scopes)
      then err scope_error
      else (let issued = new_api_key digest settings prefix secret in
          let k : ApiKey = new_key settings r id name scopes issued.1 issued.2 in
          do
            keys ← insert (key_clashes k) k db.api_keys
            ok (
              record db {
                api_keys = keys;
                audits = audit r "api_key.created" "api_key" id ∷ db.audits;
              },
              (k, issued.0),
            ))

-- repository.api_key
abbrev pub key_of : ℕ → ℕ → ApiKey → Bool
key_of organization_id key_id k = k.organization_id == organization_id && k.id == key_id

unfoldable pub revoke_found : Request → Option ApiKey → Database → Database
revoke_found r none db = db
revoke_found r (some k) db = if is_some k.revoked_at then db else record db {
  api_keys = save api_key_key (record k { revoked_at = some r.now }) db.api_keys;
  audits = audit r "api_key.revoked" "api_key" k.id ∷ db.audits;
}

-- OrganizationUseCases.revoke_key
unfoldable pub revoke_key : Request → ℕ → Database → Result Database
unfolding revoke_found
revoke_key r key_id db = do
  acting ← require_role is_manager r db.memberships
  ok (revoke_found r (first (select (key_of r.organization_id key_id) db.api_keys)) db)

abbrev pub authentication_error : Exception
authentication_error = app_error "authentication_required" "Authentication required" 401

abbrev pub api_key_error : Exception
api_key_error = app_error "invalid_api_key" "API key is invalid" 401

unfoldable pub has_write : List String → Bool
has_write [] = false
has_write (s ∷ more) = str_eq s "events:write" || has_write more

-- repository-free lookup of producer_principal: the key with the prefix.
unfoldable pub key_by_prefix : String → List ApiKey → Option ApiKey
key_by_prefix prefix t = first (select (λ k. str_eq k.prefix prefix) t)

unfoldable pub accepts : (String → String) → String → ApiKey → Bool
accepts digest secret k =
    not (is_some k.revoked_at) && has_write k.scopes && str_eq k.secret_digest (digest secret)

pub record ProducerPrincipal : Type 0 where
  pub organization_id : ℕ
  pub api_key_id : ℕ

abbrev use_key : ℕ → Database → ApiKey → Database × ProducerPrincipal
use_key now db k = (
  record db { api_keys = save api_key_key (record k { last_used_at = some now }) db.api_keys },
  record { organization_id = k.organization_id; api_key_id = k.id },
)

unfoldable pub check_key :
    (String → String) → ℕ → String → String → Database → Result (Database × ProducerPrincipal)
unfolding accepts key_by_prefix
check_key digest now prefix secret db = elim (key_by_prefix prefix db.api_keys) [
  | none ↦ err api_key_error
  | some k ↦ if accepts digest secret k then ok (use_key now db k) else err api_key_error
]

unfoldable pub check_plaintext :
    (String → String) → Settings → ℕ → String → Database → Result (Database × ProducerPrincipal)
unfolding after_prefix parse_api_key check_key
check_plaintext digest settings now plaintext db =
    if is_some (after_prefix test_prefix plaintext) && not settings.accept_test_api_keys
    then err api_key_error
    else elim (parse_api_key plaintext) [
      | none ↦ err api_key_error
      | some parts ↦ check_key digest now parts.0 parts.1 db
    ]

-- producer_principal, up to its commit; the rate limiter comes after it.
unfoldable pub producer_principal :
    (String → String)
    → Settings
    → ℕ
    → Option String
    → Database
    → Result (Database × ProducerPrincipal)
unfolding after_prefix check_plaintext
producer_principal digest settings now none db = err authentication_error
producer_principal digest settings now (some authorization) db =
    elim (after_prefix "Bearer " authorization) [
      | none ↦ err authentication_error
      | some plaintext ↦ check_plaintext digest settings now plaintext db
    ]
