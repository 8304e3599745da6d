-- ===== src/Routing/Gate.antt =====
-- src/local_recall/routing.py: the egress gate, which approves what is sent to a remote provider. Text
-- is a list of code points. The secret detector, the encoding, the digest and `sorted` are parameters.
use local_recall.Common.{
  Text, same_text, ℕ, ◌+◌, ◌≤◌, ◌≡◌, refl, Bool, true, false, not, ◌&&◌, ◌||◌, inl, inr, Bool-cases,
  String, Option, Option-cases, none, some, List, [], ◌∷◌, ◌++◌, ltb, any, sum_of, ◌∙◌, length,
  if◌then◌else◌, arith,
}
use local_recall.Common.Exec.{Result, ok, err}
use local_recall.Routing.{
  redacted_text, approved_metadata, redacted_image, DataClasses, is_subset, EgressAuthorization,
}

pub record EgressPayload : Type 0 where
  pub text : Text
  pub metadata : List (Text × Text)
  pub image : List ℕ

abbrev pub is_empty {ℓ} : {A : Type ℓ} → List A → Bool
is_empty [] = true
is_empty (x ∷ xs) = false

-- Some name stands twice.
unfoldable pub has_repeat : List (Text × Text) → Bool
has_repeat [] = false
has_repeat ((name, value) ∷ rest) =
    any (λ (other : Text × Text). same_text name other.0) rest || has_repeat rest

pub data PayloadError : Type 0 where
  payload_is_empty metadata_name_is_empty metadata_names_repeat : PayloadError

-- `EgressPayload.__post_init__`
unfoldable pub make_payload : Text → List (Text × Text) → List ℕ → Result PayloadError EgressPayload
unfolding has_repeat
make_payload text metadata image =
    if is_empty text && is_empty metadata && is_empty image
    then err payload_is_empty
    else if any (λ (pair : Text × Text). is_empty pair.0) metadata
    then err metadata_name_is_empty
    else if has_repeat metadata
    then err metadata_names_repeat
    else ok (record { text = text; metadata = metadata; image = image })

unfoldable pub data_classes : EgressPayload → DataClasses
data_classes payload redacted_text = not (is_empty payload.text)
data_classes payload approved_metadata = not (is_empty payload.metadata)
data_classes payload redacted_image = not (is_empty payload.image)

pub record ApprovedEgressPayload : Type 0 where
  pub authorization_id : String
  pub provider_id : String
  pub data_classes : DataClasses
  pub payload_bytes : ℕ
  pub payload_sha256 : ℕ
  pub content : EgressPayload  -- the fields `text`, `metadata` and `image`

-- The detector, the UTF-8 encoding, the digest of the kinds and contents, and `sorted`.
pub record Scanner : Type 0 where
  pub detects : Text → Bool
  pub is_sensitive_name : Text → Bool
  pub utf8 : Text → List ℕ
  pub digest : List (String × List ℕ) → ℕ
  pub sorted : List (Text × Text) → List (Text × Text)

module _ (scanner : Scanner) where
  -- `_scan_text` finds a secret.
  unfoldable pub finds_secret : Text → Bool
  finds_secret text = not (is_empty text) && scanner.detects text

  -- The loop over the metadata: the reason code, if it raises.
  unfoldable pub scan_metadata : List (Text × Text) → Option String
  scan_metadata [] = none
  scan_metadata ((name, value) ∷ rest) =
      let others = scan_metadata rest in
      if scanner.is_sensitive_name name
      then some "sensitive-metadata"
      else if finds_secret value
      then some "secret-detected"
      else others

  -- The calls of `add` in `_measure`.
  unfoldable pub metadata_parts : List (Text × Text) → List (String × List ℕ)
  metadata_parts [] = []
  metadata_parts ((name, value) ∷ rest) =
      ("metadata-name", scanner.utf8 name)
      ∷ ("metadata-value", scanner.utf8 value)
      ∷ metadata_parts rest

  unfoldable pub parts : EgressPayload → List (String × List ℕ)
  parts payload =
      (if is_empty payload.text then [] else ("text", scanner.utf8 payload.text) ∷ [])
      ++ metadata_parts (scanner.sorted payload.metadata)
      ++ (if is_empty payload.image then [] else ("image", payload.image) ∷ [])

  unfoldable pub size_of : List (String × List ℕ) → ℕ
  size_of [] = 0
  size_of ((kind, content) ∷ rest) = length content + size_of rest

  -- `_measure`
  unfoldable pub measure : EgressPayload → ℕ × ℕ
  measure payload = (size_of (parts payload), scanner.digest (parts payload))

  unfoldable pub approve : EgressPayload → EgressAuthorization → Result String ApprovedEgressPayload
  approve payload authorization =
      if not (is_subset (data_classes payload) authorization.data_classes)
      then err "egress-data-class-denied"
      else if finds_secret payload.text
      then err "secret-detected"
      else elim (scan_metadata payload.metadata) [
        | some reason ↦ err reason
        | none ↦
            let (payload_bytes, payload_sha256) = measure payload in
            if ltb authorization.max_payload_bytes payload_bytes
            then err "payload-too-large"
            else ok (record {
              authorization_id = authorization.authorization_id;
              provider_id = authorization.provider_id;
              data_classes = data_classes payload;
              payload_bytes = payload_bytes;
              payload_sha256 = payload_sha256;
              content = payload;
            })
      ]

  -- No name of the metadata is sensitive, and no value has a secret.
  unfoldable pub is_clean : List (Text × Text) → Bool
  is_clean metadata = not (
      any (λ (pair : Text × Text). scanner.is_sensitive_name pair.0 || finds_secret pair.1)
        metadata)

  scan_metadata-is_clean :
      (metadata : List (Text × Text)) → scan_metadata metadata ≡ none → is_clean metadata ≡ true
  unfolding scan_metadata is_clean
  scan_metadata-is_clean [] e = refl
  scan_metadata-is_clean ((name, value) ∷ rest) e =
      elim (Bool-cases (scanner.is_sensitive_name name)) [
        | inl s ↦ ground arith
        | inr s ↦ elim (Bool-cases (finds_secret value)) [
          | inl f ↦ ground arith
          | inr f ↦
              let clean : scan_metadata rest ≡ none = ground arith in
              let ih = scan_metadata-is_clean rest clean in ground arith
        ]
      ]

  -- The bytes of a list of metadata: those of every name and of every value.
  unfoldable pub metadata_bytes : List (Text × Text) → ℕ
  metadata_bytes metadata =
      sum_of (λ (pair : Text × Text). length (scanner.utf8 pair.0) + length (scanner.utf8 pair.1))
        metadata

  size_of-append : (xs ys : List (String × List ℕ)) → size_of (xs ++ ys) ≡ size_of xs + size_of ys
  unfolding size_of
  size_of-append [] ys = omega arith
  size_of-append ((kind, content) ∷ xs) ys = omega (arith, size_of-append xs ys)

  size_of-metadata_parts :
      (metadata : List (Text × Text)) → size_of (metadata_parts metadata) ≡ metadata_bytes metadata
  unfolding size_of metadata_parts metadata_bytes
  size_of-metadata_parts [] = refl
  size_of-metadata_parts ((name, value) ∷ rest) = omega (arith, size_of-metadata_parts rest)

  one_part : (kind : String) (content : List ℕ) → size_of ((kind, content) ∷ []) ≡ length content
  unfolding size_of
  one_part kind content = omega arith

  text_part :
      (text : Text)
      → size_of (if is_empty text then [] else ("text", scanner.utf8 text) ∷ [])
        ≡ (if is_empty text then 0 else length (scanner.utf8 text))
  unfolding size_of
  text_part [] = refl
  text_part (c ∷ text) = one_part "text" (scanner.utf8 (c ∷ text))

  image_part :
      (image : List ℕ)
      → size_of (if is_empty image then [] else ("image", image) ∷ []) ≡ length image
  unfolding size_of
  image_part [] = refl
  image_part (b ∷ image) = one_part "image" (b ∷ image)

  both : {a b c d : ℕ} → a ≡ c → b ≡ d → a + b ≡ c + d
  both e f = cc

  size_of-parts :
      (payload : EgressPayload)
      → size_of (parts payload)
        ≡ (if is_empty payload.text then 0 else length (scanner.utf8 payload.text))
          + metadata_bytes (scanner.sorted payload.metadata)
          + length payload.image
  unfolding parts
  size_of-parts payload =
      let text = text_part payload.text in
      let metadata = size_of-metadata_parts (scanner.sorted payload.metadata) in
      let image = image_part payload.image in
      let texts = if is_empty payload.text then [] else ("text", scanner.utf8 payload.text) ∷ [] in
      let pairs = metadata_parts (scanner.sorted payload.metadata) in
      let images = if is_empty payload.image then [] else ("image", payload.image) ∷ [] in
      size_of-append (texts ++ pairs) images
      ∙ both (size_of-append texts pairs ∙ both text metadata) image

  -- A payload that is approved has text, metadata and an image only where the authorization has their
  -- class of data, no secret in its text, and no sensitive name and no secret in its metadata. Its text,
  -- its sorted metadata (every name and every value) and its image together take, encoded, no more
  -- bytes than the authorization allows, and that is the size which is noted. What is approved is the
  -- payload itself, for the provider of the authorization.
  pub approve-is_clean :
      (payload : EgressPayload) (authorization : EgressAuthorization) (p : ApprovedEgressPayload)
      → approve payload authorization ≡ ok p
      → ((is_empty payload.text || authorization.data_classes redacted_text) ≡ true)
        × ((is_empty payload.metadata || authorization.data_classes approved_metadata) ≡ true)
        × ((is_empty payload.image || authorization.data_classes redacted_image) ≡ true)
        × (finds_secret payload.text ≡ false)
        × (is_clean payload.metadata ≡ true)
        × (p.payload_bytes
            ≡ (if is_empty payload.text then 0 else length (scanner.utf8 payload.text))
              + metadata_bytes (scanner.sorted payload.metadata)
              + length payload.image)
        × (p.payload_bytes ≤ authorization.max_payload_bytes)
        × (p.content ≡ payload)
        × (p.provider_id ≡ authorization.provider_id)
  unfolding approve measure is_subset data_classes
  approve-is_clean payload authorization p e =
      elim (Option-cases (scan_metadata payload.metadata)) [
        | inl n ↦
            let clean = scan_metadata-is_clean payload.metadata n in
            let size = size_of-parts payload in
            let counted : p.payload_bytes ≡ size_of (parts payload) = ground arith in
            (
              ground arith,
              ground arith,
              ground arith,
              ground arith,
              clean,
              counted ∙ size,
              ground arith,
              ground arith,
              ground arith,
            )
        | inr (reason, n) ↦ ground arith
      ]
