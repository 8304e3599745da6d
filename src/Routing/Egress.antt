-- ===== src/Routing/Egress.antt =====
-- What a routing decision implies about the data that may leave the machine.
use local_recall.Common.{
  ◌≡◌, refl, subst, ◌&&◌, true, false, inl, inr, Bool-cases, Option-cases, none, some, List, [],
  ◌∷◌, str_eq, arith, any,
}
use text.Mathlib.TextPositions.{eq_refl}
use local_recall.Common.Exec.{ok, err}
use local_recall.Routing.{
  RoutingMode, remote_explicit, local, remote, EgressAuthorization, ProviderCapabilities,
  RoutingRequest, RoutingDecision, Routed, has_some, is_subset, provider_matches, may_leave,
  route_local, choose_remote, route_authorized, route_remote, route,
}

-- A route to a provider of this machine that serves the request, without an egress; or no such provider.
pub StaysLocal : RoutingRequest → List ProviderCapabilities → Routed → Type 0
StaysLocal request providers (ok d) =
    (d.location ≡ local)
    × (d.egress_authorization_id ≡ none)
    × (d.capability ≡ request.capability)
    × (any (λ p. provider_matches p request local && str_eq p.provider_id d.provider_id) providers
        ≡ true)
StaysLocal request providers (err reason) =
    any (λ p. provider_matches p request local) providers ≡ false

StaysLocal-later :
    (request : RoutingRequest) (p : ProviderCapabilities) (ps : List ProviderCapabilities)
    (o : Routed)
    → provider_matches p request local ≡ false
    → StaysLocal request ps o
    → StaysLocal request (p ∷ ps) o
unfolding StaysLocal
StaysLocal-later request p ps (ok d) e (stays, none_, able, found) =
    (stays, none_, able, rw e found)
StaysLocal-later request p ps (err reason) e nothing = rw e nothing

route_local-StaysLocal :
    (mode : RoutingMode) (request : RoutingRequest) (providers : List ProviderCapabilities)
    → StaysLocal request providers (route_local mode request providers)
unfolding route_local StaysLocal
route_local-StaysLocal mode request [] = refl
route_local-StaysLocal mode request (p ∷ ps) =
    elim (Bool-cases (provider_matches p request local)) [
      | inl m ↦ rw (route_local, m) (refl, refl, refl, rw (m, eq_refl p.provider_id) refl)
      | inr m ↦
          rw (route_local, m)
            (StaysLocal-later request p ps (route_local mode request ps) m
              (route_local-StaysLocal mode request ps))
    ]

-- In every mode but `remote_explicit`: a route goes to a provider on the list that is local, available,
-- able, and accepts the privacy class, for the capability that was asked for, with no authorization of
-- an egress; and there is no route only where no provider on the list is such.
pub route-StaysLocal :
    (mode : RoutingMode) (request : RoutingRequest) (providers : List ProviderCapabilities)
    → (mode ≡ remote_explicit → ⊥)
    → StaysLocal request providers (route mode request providers)
unfolding route
route-StaysLocal remote_explicit request providers h = absurd (h refl)
route-StaysLocal mode request providers h = route_local-StaysLocal mode request providers

route_local-stays :
    (mode : RoutingMode) (request : RoutingRequest) (providers : List ProviderCapabilities)
    (d : RoutingDecision)
    → route_local mode request providers ≡ ok d
    → d.location ≡ local
unfolding StaysLocal
route_local-stays mode request providers d e =
    (subst (StaysLocal request providers) e (route_local-StaysLocal mode request providers)).0

-- The decision for a remote provider is that of the authorization.
pub record IsAuthorized (a : EgressAuthorization) (d : RoutingDecision) : Type 0 where
  pub leaves : d.location ≡ remote
  pub provider : str_eq d.provider_id a.provider_id ≡ true
  pub authorization : d.egress_authorization_id ≡ some a.authorization_id

choose_remote-IsAuthorized :
    (a : EgressAuthorization) (request : RoutingRequest) (providers : List ProviderCapabilities)
    (d : RoutingDecision)
    → choose_remote a request providers ≡ ok d
    → IsAuthorized a d
unfolding choose_remote
choose_remote-IsAuthorized a request [] d e = cc
choose_remote-IsAuthorized a request (p ∷ ps) d e =
    elim (Bool-cases (str_eq p.provider_id a.provider_id)) [
      | inl s ↦ elim (Bool-cases (provider_matches p request remote)) [
        | inl m ↦
            let named : d.provider_id ≡ p.provider_id = ground arith in
            record { leaves = ground arith; provider = rw named s; authorization = ground arith }
        | inr m ↦ choose_remote-IsAuthorized a request ps d (ground arith)
      ]
      | inr s ↦ choose_remote-IsAuthorized a request ps d (ground arith)
    ]

route_authorized-guards :
    (a : EgressAuthorization) (request : RoutingRequest) (providers : List ProviderCapabilities)
    (d : RoutingDecision)
    → route_authorized a request providers ≡ ok d
    → (may_leave request.privacy_class ≡ true)
      × (has_some request.data_classes ≡ true)
      × (is_subset request.data_classes a.data_classes ≡ true)
      × (choose_remote a request providers ≡ ok d)
unfolding route_authorized
route_authorized-guards a request providers d e = ground arith

route_remote-guards :
    (a : EgressAuthorization) (request : RoutingRequest) (providers : List ProviderCapabilities)
    (d : RoutingDecision)
    → request.authorization ≡ some a
    → route_remote request providers ≡ ok d
    → (request.allow_remote ≡ true) × (route_authorized a request providers ≡ ok d)
unfolding route_remote
route_remote-guards a request providers d s e = ground arith

unauthorized :
    (request : RoutingRequest) (providers : List ProviderCapabilities) (d : RoutingDecision)
    → request.authorization ≡ none
    → route_remote request providers ≡ ok d
    → ⊥
unfolding route_remote
unauthorized request providers d n e = ground arith

-- A remote route implies the explicit mode and a request that allows it: there is an authorization,
-- its provider and its identifier are those of the decision, the privacy class may leave the machine,
-- and the classes of data are some, all of them authorized.
pub route-remote :
    (mode : RoutingMode) (request : RoutingRequest) (providers : List ProviderCapabilities)
    (d : RoutingDecision)
    → route mode request providers ≡ ok d
    → d.location ≡ remote
    → (mode ≡ remote_explicit)
      × (request.allow_remote ≡ true)
      × (may_leave request.privacy_class ≡ true)
      × (has_some request.data_classes ≡ true)
      × ((a : EgressAuthorization) × (request.authorization ≡ some a)
          × IsAuthorized a d
          × (is_subset request.data_classes a.data_classes ≡ true))
unfolding route
route-remote remote_explicit request providers d e l = elim (Option-cases request.authorization) [
  | inl n ↦ absurd (unauthorized request providers d n e)
  | inr (a, s) ↦
      let (allowed_remote, e') = route_remote-guards a request providers d s e in
      let (leaves, classes, subset, chosen) = route_authorized-guards a request providers d e' in
      (
        refl,
        allowed_remote,
        leaves,
        classes,
        (a, s, choose_remote-IsAuthorized a request providers d chosen, subset),
      )
]
route-remote mode request providers d e l =
    let stays = route_local-stays mode request providers d e in cc
