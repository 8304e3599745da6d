-- ===== src/Policy/Domain.antt =====
-- src/local_recall/policy/engine.py, `_normalize_domain`.
use local_recall.Common.{
  ℕ, Bool, false, not, ◌&&◌, ◌||◌, Option, none, some, List, [], ◌∷◌, ◌==◌, leb, ltb, length, all,
  if◌then◌else◌, Text,
}
use local_recall.Policy.{Library}

-- The parts of a text between its points.
unfoldable pub split_points : Text → List Text
split_points [] = [] ∷ []
split_points (c ∷ rest) = elim (split_points rest) [
  | [] ↦ [] ∷ []
  | label ∷ labels ↦ if c == 46 then [] ∷ label ∷ labels else (c ∷ label) ∷ labels
]

unfoldable pub without_last_point : Text → Text
without_last_point [] = []
without_last_point (c ∷ []) = if c == 46 then [] else c ∷ []
without_last_point (c ∷ d ∷ rest) = c ∷ without_last_point (d ∷ rest)

unfoldable pub ends_in_hyphen : Text → Bool
ends_in_hyphen [] = false
ends_in_hyphen (c ∷ []) = c == 45
ends_in_hyphen (c ∷ d ∷ rest) = ends_in_hyphen (d ∷ rest)

unfoldable pub starts_with_hyphen : Text → Bool
starts_with_hyphen [] = false
starts_with_hyphen (c ∷ rest) = c == 45

-- `character.isascii() and (character.isalnum() or character == "-")`
unfoldable pub is_label_character : ℕ → Bool
is_label_character c =
    (leb 48 c && leb c 57) || (leb 65 c && leb c 90) || (leb 97 c && leb c 122) || (c == 45)

unfoldable pub is_label : Text → Bool
unfolding starts_with_hyphen ends_in_hyphen is_label_character
is_label label =
    leb 1 (length label)
    && leb (length label) 63
    && not (starts_with_hyphen label || ends_in_hyphen label)
    && all is_label_character label

-- The domain, or none where a `ValueError` is raised.
unfoldable pub normalize_domain : Library → Text → Option Text
unfolding without_last_point split_points is_label
normalize_domain library value =
    let normalized = without_last_point (library.casefold (library.strip value)) in
    if length normalized == 0 || ltb 253 (length normalized)
    then none
    else elim (library.ip_address normalized) [
      | some address ↦ some (library.casefold address)
      | none ↦
          if leb 2 (length (split_points normalized)) && all is_label (split_points normalized)
          then some normalized
          else none
    ]
