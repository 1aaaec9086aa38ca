-- ===== src/Endpoints/Network.antt =====
-- src/webhook_platform/endpoints/domain/network.py and
-- src/webhook_platform/endpoints/infrastructure/network.py: which destinations are allowed.
pub mod Safety
use webhook_delivery_platfor.Base.{
  ℕ, zero, suc, Bool, true, false, not, ◌&&◌, ◌||◌, Option, none, some, List, [], ◌∷◌, String, ◌==◌,
  if◌then◌else◌, str_eq, rstrip_slash, is_empty,
}
use webhook_delivery_platfor.Schema.{Settings, Environment, development, test, production}
use webhook_delivery_platfor.Errors.{Exception, Result, ok, err, app_error}

-- What urllib.parse.urlsplit gives.
pub record SplitUrl : Type 0 where
  pub scheme : String
  pub netloc : String
  pub path : String
  pub query : String
  pub fragment : String
  pub username : Option String
  pub password : Option String
  pub hostname : Option String
  pub port : Option ℕ

-- urllib.parse and str.lower: `split` is none where urlsplit or its port raises ValueError.
pub record UrlLibrary : Type 0 where
  pub split : String → Option SplitUrl
  pub unsplit : String → String → String → String → String → String
  pub lower : String → String

-- ValidatedDestination
pub record ValidatedDestination : Type 0 where
  pub url : String
  pub host : String
  pub port : ℕ

abbrev pub unsafe_destination_error : Exception
unsafe_destination_error = app_error "unsafe_destination" "Endpoint URL is not allowed" 422

-- An optional text is true unless it is None or empty.
abbrev pub truthy : Option String → Bool
truthy none = false
truthy (some s) = not (is_empty s)

-- `port or default`: None and 0 give the default.
abbrev pub port_or : Option ℕ → ℕ → ℕ
port_or none default = default
port_or (some zero) default = default
port_or (some (suc n)) default = suc n

abbrev pub is_local : Environment → Bool
is_local production = false
is_local _ = true

abbrev path_or_slash : String → String
path_or_slash p = if is_empty p then "/" else p

unfoldable pub normalized : UrlLibrary → SplitUrl → String
normalized lib p =
    lib.unsplit (lib.lower p.scheme) (lib.lower p.netloc) (path_or_slash p.path) p.query ""

-- The test receiver of a local environment is allowed.
unfoldable pub is_test_receiver : Settings → String → Bool
is_test_receiver settings url =
    is_local settings.environment
    && settings.allow_test_receiver
    && str_eq (rstrip_slash url) (rstrip_slash settings.test_receiver_url)

unfoldable pub validate_host :
    UrlLibrary → Settings → SplitUrl → String → Result ValidatedDestination
unfolding normalized is_test_receiver
validate_host lib settings p host =
    if is_test_receiver settings (normalized lib p)
    then ok (record { url = normalized lib p; host = host; port = port_or p.port 80 })
    else (if not (str_eq (lib.lower p.scheme) "https") || not (port_or p.port 443 == 443)
        then err unsafe_destination_error
        else ok (record { url = normalized lib p; host = host; port = 443 }))

unfoldable pub validate_parts :
    UrlLibrary → Settings → SplitUrl → Option String → Result ValidatedDestination
unfolding validate_host
validate_parts lib settings p none = err unsafe_destination_error
validate_parts lib settings p (some host) =
    if truthy p.username || truthy p.password || not (is_empty p.fragment) || is_empty host
    then err unsafe_destination_error
    else validate_host lib settings p host

unfoldable pub validate_split :
    UrlLibrary → Settings → Option SplitUrl → Result ValidatedDestination
unfolding validate_parts
validate_split lib settings none = err unsafe_destination_error
validate_split lib settings (some p) = validate_parts lib settings p p.hostname

unfoldable pub validate_url_syntax : UrlLibrary → Settings → String → Result ValidatedDestination
unfolding validate_split
validate_url_syntax lib settings url = validate_split lib settings (lib.split url)

-- What the ipaddress module says of an address.
pub record AddressClass : Type 0 where
  pub is_private : Bool
  pub is_loopback : Bool
  pub is_link_local : Bool
  pub is_unspecified : Bool
  pub is_multicast : Bool
  pub is_reserved : Bool
  pub is_global : Bool

-- ipaddress.ip_address of a text: not an address (ValueError), an address, or an IPv6 address
-- that maps an IPv4 address.
pub data IpAddress : Type 0 where
  invalid : IpAddress
  plain : AddressClass → IpAddress
  ipv4_mapped : AddressClass → AddressClass → IpAddress

unfoldable pub is_public_class : AddressClass → Bool
is_public_class a =
    let prohibited =
      a.is_private || a.is_loopback || a.is_link_local || a.is_unspecified || a.is_multicast
      || a.is_reserved in
    a.is_global && not prohibited

-- A mapped address counts as the IPv4 address that it maps.
unfoldable pub is_public_address : IpAddress → Bool
unfolding is_public_class
is_public_address invalid = false
is_public_address (plain a) = is_public_class a
is_public_address (ipv4_mapped six four) = is_public_class four

unfoldable pub any_not_public : (String → IpAddress) → List String → Bool
any_not_public ip_address [] = false
any_not_public ip_address (a ∷ as') =
    not (is_public_address (ip_address a)) || any_not_public ip_address as'

abbrev pub unresolved_error : Exception
unresolved_error = app_error "unsafe_destination" "Endpoint destination cannot be resolved" 422

abbrev pub not_public_error : Exception
not_public_error = app_error "unsafe_destination" "Endpoint destination is not public" 422

unfoldable pub check_addresses : (String → IpAddress) → List String → Result (List String)
unfolding any_not_public
check_addresses ip_address [] = err not_public_error
check_addresses ip_address (a ∷ as') =
    if any_not_public ip_address (a ∷ as') then err not_public_error else ok (a ∷ as')

-- `addresses` is what getaddrinfo answers for the host and port, each address once and sorted;
-- none where it raises OSError.
unfoldable pub resolve_and_validate :
    (String → IpAddress) → Option (List String) → Result (List String)
unfolding check_addresses
resolve_and_validate ip_address none = err unresolved_error
resolve_and_validate ip_address (some addresses) = check_addresses ip_address addresses

-- _validate_destination: the syntax, and then the addresses unless it is the test receiver.
unfoldable pub resolve_unless_test :
    Settings
    → (ValidatedDestination → Result (List String))
    → Result ValidatedDestination
    → Result ValidatedDestination
unfolding is_test_receiver
resolve_unless_test settings resolver (err e) = err e
resolve_unless_test settings resolver (ok d) =
    if is_test_receiver settings d.url
    then ok d
    else elim (resolver d) [ ok addresses ↦ ok d | err e ↦ err e ]

unfoldable pub validate_destination :
    UrlLibrary
    → Settings
    → (ValidatedDestination → Result (List String))
    → String
    → Result ValidatedDestination
unfolding resolve_unless_test validate_url_syntax
validate_destination lib settings resolver url =
    resolve_unless_test settings resolver (validate_url_syntax lib settings url)
