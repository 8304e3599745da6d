-- ===== src/Policy/Match.antt =====
-- src/local_recall/policy/engine.py: what a rule says of a context, `_match_rule`, and the fields that
-- it reads.
use local_recall.Common.{
  ℕ, Bool, true, false, not, ◌&&◌, ◌||◌, Option, none, some, List, [], ◌∷◌, ◌++◌, leb, ltb, length,
  contains, any, if◌then◌else◌, Text, same_text, codes,
}
use local_recall.Policy.{
  PolicyEvaluationContext, ContextMetadata, ContextField, Scalar, text, nothing, CaptureRule,
  PolicyTimeWindow, Library, LocalRecallConfig,
}
use local_recall.Policy.Domain.{normalize_domain}

pub data Match : Type 0 where
  match no_match unknown malformed : Match

pub record CompiledRule : Type 0 where
  pub rule : CaptureRule
  pub rule_id : Text
  pub title_pattern : Option Text
  pub normalized_domain : Option Text

-- `_MAX_METADATA_TEXT`
abbrev pub max_metadata_text : ℕ
max_metadata_text = 4096

-- `"\x00" in text or len(text) > _MAX_METADATA_TEXT`
unfoldable pub is_malformed : Text → Bool
is_malformed t = contains 0 t || ltb max_metadata_text (length t)

unfoldable pub field_of : List ContextField → Text → Option ContextField
field_of [] name = none
field_of (field ∷ rest) name =
    let later = field_of rest name in if same_text field.name name then some field else later

unfoldable pub scalar_field : ContextMetadata → Text → Scalar
unfolding field_of
scalar_field metadata name = elim (field_of metadata.fields name) [
  | none ↦ nothing
  | some field ↦ field.value
]

unfoldable pub string_of : Scalar → Option Text
string_of (text t) = some t
string_of _ = none

unfoldable pub string_field : ContextMetadata → Text → Option Text
unfolding scalar_field string_of
string_field metadata name = string_of (scalar_field metadata name)

abbrev pub matched : Bool → Match
matched true = match
matched false = no_match

-- A scalar as text, `str(value)`; there is none for `None`.
unfoldable pub shown : Library → Scalar → Option Text
shown library (text t) = some t
shown library nothing = none
shown library value = some (library.printed value)

unfoldable pub match_text : Library → ContextMetadata → Text → Text → Match
unfolding scalar_field shown is_malformed
match_text library metadata name expected = elim (shown library (scalar_field metadata name)) [
  | none ↦ unknown
  | some t ↦
      if is_malformed t
      then malformed
      else matched (same_text (library.casefold t) (library.casefold expected))
]

unfoldable pub match_title : Library → ContextMetadata → Text → Match
unfolding string_field is_malformed
match_title library metadata pattern = elim (string_field metadata (codes "window.title")) [
  | none ↦ unknown
  | some title ↦ if is_malformed title then malformed else matched (library.search pattern title)
]

-- `text.endswith(suffix)`
unfoldable pub ends_with : Text → Text → Bool
ends_with [] suffix = same_text [] suffix
ends_with (c ∷ rest) suffix = same_text (c ∷ rest) suffix || ends_with rest suffix

unfoldable pub match_domain : Library → ContextMetadata → Bool → Text → Match
unfolding string_field normalize_domain ends_with
match_domain library metadata subdomains expected =
    elim (string_field metadata (codes "url.domain")) [
      | none ↦ unknown
      | some raw ↦ elim (normalize_domain library raw) [
        | none ↦ malformed
        | some domain ↦
            matched (same_text domain expected || (subdomains && ends_with domain (46 ∷ expected)))
      ]
    ]

unfoldable pub match_full_screen : Option Bool → Bool → Match
match_full_screen none wanted = unknown
match_full_screen (some true) wanted = matched wanted
match_full_screen (some false) wanted = matched (not wanted)

unfoldable pub source_ids : List ContextField → List Text
source_ids [] = []
source_ids (field ∷ rest) = field.provenance ++ source_ids rest

unfoldable pub match_source : List Text → Text → Match
match_source [] wanted = unknown
match_source (id ∷ rest) wanted = matched (any (λ x. same_text x wanted) (id ∷ rest))

unfoldable pub in_window : PolicyTimeWindow → ℕ → Bool
in_window w now =
    if ltb w.start w.end then leb w.start now && ltb now w.end else leb w.start now || ltb now w.end

-- The entry of a selector, when the rule has it.
abbrev pub entry : {A : Type 0} → Option A → (A → Match) → List Match
entry none f = []
entry (some a) f = f a ∷ []

unfoldable pub matches :
    Library → LocalRecallConfig → CompiledRule → PolicyEvaluationContext → List Match
unfolding match_text match_title match_domain match_full_screen source_ids match_source in_window
matches library configuration compiled context =
    entry compiled.rule.application
      (λ x. match_text library context.metadata (codes "application") x)
    ++ entry compiled.title_pattern (λ x. match_title library context.metadata x)
    ++ entry compiled.rule.workspace
        (λ x. match_text library context.metadata (codes "workspace") x)
    ++ entry compiled.normalized_domain
        (λ x. match_domain library context.metadata compiled.rule.include_subdomains x)
    ++ entry compiled.rule.full_screen (λ x. match_full_screen context.full_screen x)
    ++ entry compiled.rule.metadata_source
        (λ x. match_source (source_ids context.metadata.fields) x)
    ++ entry compiled.rule.time_window (λ x.
      matched (in_window x (library.local_time configuration.timezone context.evaluated_at)))

abbrev pub is_match : Match → Match → Bool
is_match match match = true
is_match no_match no_match = true
is_match unknown unknown = true
is_match malformed malformed = true
is_match _ _ = false

unfoldable pub combine : List Match → Match
combine l =
    if any (is_match malformed) l
    then malformed
    else if any (is_match no_match) l
    then no_match
    else if any (is_match unknown) l
    then unknown
    else match

unfoldable pub match_rule :
    Library → LocalRecallConfig → CompiledRule → PolicyEvaluationContext → Match
unfolding matches combine
match_rule library configuration compiled context =
    combine (matches library configuration compiled context)
