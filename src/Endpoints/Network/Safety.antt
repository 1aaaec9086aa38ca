-- ===== src/Endpoints/Network/Safety.antt =====
-- src/webhook_platform/endpoints/infrastructure/network.py: what a destination that passes the
-- checks is known to be.
use webhook_delivery_platfor.Base.{
  ℕ, ◌<◌, ◌≡◌, refl, sym, subst, true, false, Option, none, some, List, [], ◌∷◌, String, All, arith,
  length, inl, inr, Bool-cases,
}
use webhook_delivery_platfor.Schema.{Settings, production}
use webhook_delivery_platfor.Errors.{Exception, Result, ok, err, ok-injective}
use webhook_delivery_platfor.Endpoints.Network.{
  UrlLibrary, ValidatedDestination, IpAddress, is_public_address, any_not_public, check_addresses,
  resolve_and_validate, validate_destination, resolve_unless_test, validate_url_syntax,
  validate_split, validate_parts, validate_host, is_test_receiver,
}

public_addresses :
    (ip_address : String → IpAddress) (as' : List String)
    → any_not_public ip_address as' ≡ false
    → All (λ a. is_public_address (ip_address a) ≡ true) as'
unfolding any_not_public
public_addresses ip_address [] h = tt
public_addresses ip_address (a ∷ as') h =
    (ground arith, public_addresses ip_address as' (ground arith))

err≢ok : {A : Type 0} {e : Exception} {a : A} → err e ≡ ok a → ⊥
err≢ok h = cc

resolved_public :
    (ip_address : String → IpAddress) (answer : Option (List String)) (as' : List String)
    → resolve_and_validate ip_address answer ≡ ok as'
    → (answer ≡ some as')
      × (0 < length as')
      × All (λ a. is_public_address (ip_address a) ≡ true) as'
unfolding resolve_and_validate check_addresses
resolved_public ip_address none as' h = cc
resolved_public ip_address (some []) as' h = cc
resolved_public ip_address (some (a ∷ rest)) as' h =
    elim (Bool-cases (any_not_public ip_address (a ∷ rest))) [
      | inl bad ↦ absurd (err≢ok (rw bad at h))
      | inr good ↦
          let same : as' ≡ (a ∷ rest) = sym (ok-injective (rw good at h)) in
          rw same (refl, omega arith, public_addresses ip_address (a ∷ rest) good)
    ]

syntax_port :
    (lib : UrlLibrary) (settings : Settings) (url : String) (d : ValidatedDestination)
    → settings.environment ≡ production
    → validate_url_syntax lib settings url ≡ ok d
    → d.port ≡ 443
unfolding validate_url_syntax validate_split validate_parts validate_host is_test_receiver
syntax_port lib settings url d live h = ground (arith, live)

unless_test :
    (settings : Settings) (resolver : ValidatedDestination → Result (List String))
    (r : Result ValidatedDestination) (d : ValidatedDestination)
    → settings.environment ≡ production
    → resolve_unless_test settings resolver r ≡ ok d
    → (r ≡ ok d) × ((as' : List String) × (resolver d ≡ ok as'))
unfolding resolve_unless_test is_test_receiver
unless_test settings resolver (err e) d live h = cc
unless_test settings resolver (ok x) d live h = go (resolver x) refl (rw live at h)
  where
    go :
        (a : Result (List String))
        → resolver x ≡ a
        → (elim a [ ok addresses ↦ ok x | err e ↦ err e ]) ≡ ok d
        → (ok x ≡ ok d) × ((as' : List String) × (resolver d ≡ ok as'))
    go (ok as') e k = (k, (as', subst (λ y. resolver y ≡ ok as') (ok-injective k) e))
    go (err z) e k = cc

-- In production, a URL that the checks let through has port 443, and the resolver has answered with
-- at least one address for its host, all of them public.
pub validate_destination-public :
    (lib : UrlLibrary) (settings : Settings) (ip_address : String → IpAddress)
    (getaddrinfo : String → ℕ → Option (List String)) (url : String) (d : ValidatedDestination)
    → settings.environment ≡ production
    → validate_destination lib settings
        (λ x. resolve_and_validate ip_address (getaddrinfo x.host x.port))
        url
      ≡ ok d
    → (d.port ≡ 443)
      × (addresses : List String) × (getaddrinfo d.host 443 ≡ some addresses)
      × (0 < length addresses)
      × All (λ a. is_public_address (ip_address a) ≡ true) addresses
unfolding validate_destination
validate_destination-public lib settings ip_address getaddrinfo url d live h =
    let (syntax, resolved) =
      unless_test settings (λ x. resolve_and_validate ip_address (getaddrinfo x.host x.port))
        (validate_url_syntax lib settings url) d live h in
    let port = syntax_port lib settings url d live syntax in
    let (as', answered) = resolved in
    let (given, some_address, public) =
      resolved_public ip_address (getaddrinfo d.host d.port) as' answered in
    (port, as', subst (λ n. getaddrinfo d.host n ≡ some as') port given, some_address, public)
