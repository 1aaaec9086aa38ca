-- ===== src/Examples/Destinations.antt =====
-- A destination that passes the checks.
use webhook_delivery_platfor.Base.{
  codes, rstrip_slash, drop_slashes, reverse_onto, ℕ, ◌<◌, ◌≡◌, refl, true, false, Option, none,
  some, List, [], ◌∷◌, String, length, All,
}
use webhook_delivery_platfor.Errors.{ok}
use webhook_delivery_platfor.Endpoints.Network.{
  ValidatedDestination, UrlLibrary, AddressClass, plain, validate_destination, resolve_unless_test,
  validate_url_syntax, validate_split, validate_parts, validate_host, is_test_receiver, normalized,
  resolve_and_validate, check_addresses, any_not_public, is_public_address, is_public_class,
}
use webhook_delivery_platfor.Endpoints.Network.Safety.{validate_destination-public}
use webhook_delivery_platfor.Examples.Data.{sample_settings}

abbrev sample_library : UrlLibrary
sample_library = record {
  split = λ url. some (record {
    scheme = "https";
    netloc = "example.org";
    path = "/hook";
    query = "";
    fragment = "";
    username = none;
    password = none;
    hostname = some "example.org";
    port = none;
  });
  unsplit = λ scheme netloc path query fragment. "https://example.org/hook";
  lower = λ s. s;
}

abbrev global_class : AddressClass
global_class = record {
  is_private = false;
  is_loopback = false;
  is_link_local = false;
  is_unspecified = false;
  is_multicast = false;
  is_reserved = false;
  is_global = true;
}

abbrev sample_addresses : String → ℕ → Option (List String)
sample_addresses host port = some ("203.0.114.1" ∷ [])

abbrev sample_destination : ValidatedDestination
sample_destination = record { url = "https://example.org/hook"; host = "example.org"; port = 443 }

validates :
    validate_destination sample_library sample_settings
      (λ x. resolve_and_validate (λ t. plain global_class) (sample_addresses x.host x.port))
      "https://example.org/hook"
    ≡ ok sample_destination
unfolding validate_destination resolve_unless_test validate_url_syntax validate_split validate_parts
    validate_host is_test_receiver normalized resolve_and_validate check_addresses any_not_public
    is_public_address is_public_class codes rstrip_slash drop_slashes reverse_onto
validates = refl

validate_destination-public_example :
    (sample_destination.port ≡ 443)
    × (addresses : List String) × (sample_addresses "example.org" 443 ≡ some addresses)
    × (0 < length addresses)
    × All (λ a. is_public_address (plain global_class) ≡ true) addresses
validate_destination-public_example =
    validate_destination-public sample_library sample_settings (λ t. plain global_class)
      sample_addresses "https://example.org/hook" sample_destination refl validates
