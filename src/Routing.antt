-- ===== src/Routing.antt =====
-- src/local_recall/routing.py: the choice of a provider and the gate of the egress; the values of
-- src/local_recall/domain/providers.py and src/local_recall/domain/privacy.py that they read. A set of
-- members of an enumeration is the test of membership.
pub mod Egress
pub mod Gate
pub mod Tests
use local_recall.Common.{
  ℕ, ◌+◌, ◌≡◌, refl, Bool, true, false, not, ◌&&◌, ◌||◌, String, Option, none, some, List, [], ◌∷◌,
  ◌==◌, leb, if◌then◌else◌, str_eq, is_some,
}
use local_recall.Common.Exec.{Result, ok, err}

pub data ModelCapability : Type 0 where
  generation embedding vision : ModelCapability

pub data EgressDataClass : Type 0 where
  redacted_text approved_metadata redacted_image : EgressDataClass

pub data PrivacyClass : Type 0 where
  public operational_metadata redacted_content encrypted_content raw_capture secret_material :
      PrivacyClass

pub data ProviderLocation : Type 0 where
  local remote : ProviderLocation

pub data RoutingMode : Type 0 where
  privacy_strict local_only local_first remote_explicit : RoutingMode

abbrev pub DataClasses : Type 0
DataClasses = EgressDataClass → Bool

-- The set is not empty.
unfoldable pub has_some : DataClasses → Bool
has_some classes = classes redacted_text || classes approved_metadata || classes redacted_image

abbrev implies : Bool → Bool → Bool
implies a b = not a || b

unfoldable pub is_subset : DataClasses → DataClasses → Bool
is_subset some_classes classes =
    implies (some_classes redacted_text) (classes redacted_text)
    && implies (some_classes approved_metadata) (classes approved_metadata)
    && implies (some_classes redacted_image) (classes redacted_image)

pub record EgressAuthorization : Type 0 where
  pub authorization_id : String
  pub provider_id : String
  pub data_classes : DataClasses
  pub max_payload_bytes : ℕ

pub record ProviderCapabilities : Type 0 where
  pub provider_id : String
  pub location : ProviderLocation
  pub capabilities : ModelCapability → Bool
  pub accepted_privacy_classes : PrivacyClass → Bool
  pub available : Bool

unfoldable pub accepts : ProviderCapabilities → PrivacyClass → Bool
accepts provider privacy_class = provider.accepted_privacy_classes privacy_class

pub record RoutingRequest : Type 0 where
  pub capability : ModelCapability
  pub privacy_class : PrivacyClass
  pub allow_remote : Bool
  pub egress_authorization_id : Option String
  pub data_classes : DataClasses
  pub authorization : Option EgressAuthorization

pub record RoutingDecision : Type 0 where
  pub provider_id : String
  pub location : ProviderLocation
  pub capability : ModelCapability
  pub egress_authorization_id : Option String
  pub reason_code : String

-- The reason code of a `NoRouteError`.
abbrev pub Routed : Type 0
Routed = Result String RoutingDecision

abbrev pub same_location : ProviderLocation → ProviderLocation → Bool
same_location local local = true
same_location remote remote = true
same_location _ _ = false

unfoldable pub provider_matches : ProviderCapabilities → RoutingRequest → ProviderLocation → Bool
unfolding accepts
provider_matches provider request location =
    same_location provider.location location
    && provider.available
    && provider.capabilities request.capability
    && accepts provider request.privacy_class

abbrev pub local_reason : RoutingMode → String
local_reason privacy_strict = "privacy-strict-local"
local_reason local_only = "local-only"
local_reason _ = "local-first"

abbrev pub no_local_route : RoutingMode → String
no_local_route privacy_strict = "privacy-strict-local-only"
no_local_route _ = "local-unavailable"

unfoldable pub route_local : RoutingMode → RoutingRequest → List ProviderCapabilities → Routed
unfolding provider_matches
route_local mode request [] = err (no_local_route mode)
route_local mode request (provider ∷ rest) =
    let others = route_local mode request rest in
    if not (provider_matches provider request local)
    then others
    else ok (record {
      provider_id = provider.provider_id;
      location = local;
      capability = request.capability;
      egress_authorization_id = none;
      reason_code = local_reason mode;
    })

-- `_REMOTE_PRIVACY_CLASSES`
unfoldable pub may_leave : PrivacyClass → Bool
may_leave public = true
may_leave operational_metadata = true
may_leave redacted_content = true
may_leave _ = false

-- The loop of `_route_remote`.
unfoldable pub choose_remote :
    EgressAuthorization → RoutingRequest → List ProviderCapabilities → Routed
unfolding provider_matches
choose_remote authorization request [] = err "remote-unavailable"
choose_remote authorization request (provider ∷ rest) =
    let others = choose_remote authorization request rest in
    if not (str_eq provider.provider_id authorization.provider_id)
    then others
    else if not (provider_matches provider request remote)
    then others
    else ok (record {
      provider_id = provider.provider_id;
      location = remote;
      capability = request.capability;
      egress_authorization_id = some authorization.authorization_id;
      reason_code = "remote-explicit-authorized";
    })

abbrev mismatch : Option String → String → Bool
mismatch none id = false
mismatch (some wanted) id = not (str_eq wanted id)

-- The guards of `_route_remote` after the authorization is found.
unfoldable pub route_authorized :
    EgressAuthorization → RoutingRequest → List ProviderCapabilities → Routed
route_authorized authorization request providers =
    if mismatch request.egress_authorization_id authorization.authorization_id
    then err "egress-authorization-mismatch"
    else if not (may_leave request.privacy_class)
    then err "privacy-class-denied"
    else if not (has_some request.data_classes)
    then err "egress-data-class-required"
    else if not (is_subset request.data_classes authorization.data_classes)
    then err "egress-data-class-denied"
    else choose_remote authorization request providers

unfoldable pub route_remote : RoutingRequest → List ProviderCapabilities → Routed
route_remote request providers = elim request.authorization [
  | none ↦ err "egress-authorization-required"
  | some authorization ↦
      if not request.allow_remote
      then err "egress-authorization-required"
      else route_authorized authorization request providers
]

unfoldable pub route : RoutingMode → RoutingRequest → List ProviderCapabilities → Routed
route remote_explicit request providers = route_remote request providers
route mode request providers = route_local mode request providers
