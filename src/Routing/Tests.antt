-- ===== src/Routing/Tests.antt =====
-- The routing theorems at concrete providers.
use local_recall.Common.{
  contains, ◌+◌, ◌||◌, length, if◌then◌else◌, ◌≤◌, ◌≡◌, refl, Bool, true, false, none, some, [],
  ◌∷◌,
}
use local_recall.Common.Exec.{ok}
use local_recall.Routing.{
  generation, redacted_text, approved_metadata, redacted_image, redacted_content, remote, local,
  local_first, remote_explicit, RoutingMode, EgressAuthorization, ProviderCapabilities,
  RoutingRequest, RoutingDecision, has_some, is_subset, provider_matches, may_leave, route,
  route_remote, route_authorized, choose_remote,
}
use local_recall.Routing.Gate.{
  EgressPayload, ApprovedEgressPayload, Scanner, is_empty, metadata_bytes, data_classes,
  finds_secret, scan_metadata, measure, parts, metadata_parts, size_of, approve, is_clean,
  approve-is_clean,
}
use local_recall.Routing.Egress.{IsAuthorized, StaysLocal, route-StaysLocal, route-remote}

abbrev near : ProviderCapabilities
near = record {
  provider_id = "near";
  location = local;
  capabilities = λ _. true;
  accepted_privacy_classes = λ _. true;
  available = true;
}

abbrev far : ProviderCapabilities
far = record {
  provider_id = "far";
  location = remote;
  capabilities = λ _. true;
  accepted_privacy_classes = λ _. true;
  available = true;
}

abbrev authorization : EgressAuthorization
authorization = record {
  authorization_id = "a1";
  provider_id = "far";
  data_classes = λ _. true;
  max_payload_bytes = 100;
}

abbrev request : RoutingRequest
request = record {
  capability = generation;
  privacy_class = redacted_content;
  allow_remote = true;
  egress_authorization_id = none;
  data_classes = λ _. true;
  authorization = some authorization;
}

abbrev decision : RoutingDecision
decision = record {
  provider_id = "far";
  location = remote;
  capability = generation;
  egress_authorization_id = some "a1";
  reason_code = "remote-explicit-authorized";
}

is_explicit : RoutingMode → Bool
is_explicit remote_explicit = true
is_explicit _ = false

route-StaysLocal_example :
    StaysLocal request (far ∷ near ∷ []) (route local_first request (far ∷ near ∷ []))
route-StaysLocal_example = route-StaysLocal local_first request (far ∷ near ∷ []) (λ e. cc)

routed : route remote_explicit request (near ∷ far ∷ []) ≡ ok decision
unfolding route route_remote route_authorized choose_remote may_leave has_some is_subset
    provider_matches
routed = refl

route-remote_example :
    (remote_explicit ≡ remote_explicit)
    × (true ≡ true)
    × (may_leave redacted_content ≡ true)
    × (has_some request.data_classes ≡ true)
    × ((a : EgressAuthorization) × (some authorization ≡ some a)
        × IsAuthorized a decision
        × (is_subset request.data_classes a.data_classes ≡ true))
route-remote_example = route-remote remote_explicit request (near ∷ far ∷ []) decision routed refl

abbrev payload : EgressPayload
payload = record { text = 104 ∷ 105 ∷ []; metadata = (97 ∷ [], 98 ∷ []) ∷ []; image = 5 ∷ [] }

-- Code point 0 is a secret, and a name that starts with it is sensitive.
abbrev scanner : Scanner
scanner = record {
  detects = λ text. contains 0 text;
  is_sensitive_name = λ text. contains 0 text;
  utf8 = λ text. text;
  digest = λ _. 7;
  sorted = λ pairs. pairs;
}

abbrev approved : ApprovedEgressPayload
approved = record {
  authorization_id = "a1";
  provider_id = "far";
  data_classes = data_classes payload;
  payload_bytes = 5;
  payload_sha256 = 7;
  content = payload;
}

is_approved : approve scanner payload authorization ≡ ok approved
unfolding approve data_classes is_subset finds_secret scan_metadata measure parts metadata_parts
    size_of
is_approved = refl

approve-is_clean_example :
    ((is_empty payload.text || authorization.data_classes redacted_text) ≡ true)
    × ((is_empty payload.metadata || authorization.data_classes approved_metadata) ≡ true)
    × ((is_empty payload.image || authorization.data_classes redacted_image) ≡ true)
    × (finds_secret scanner payload.text ≡ false)
    × (is_clean scanner payload.metadata ≡ true)
    × (approved.payload_bytes
        ≡ (if is_empty payload.text then 0 else length (scanner.utf8 payload.text))
          + metadata_bytes scanner (scanner.sorted payload.metadata)
          + length payload.image)
    × (approved.payload_bytes ≤ authorization.max_payload_bytes)
    × (payload ≡ payload)
    × (approved.provider_id ≡ authorization.provider_id)
approve-is_clean_example = approve-is_clean scanner payload authorization approved is_approved
