-- ===== src/Capture/Fingerprint.antt =====
-- src/local_recall/capture/adaptive.py, `perceptual_dhash_rgb8`: the difference hash of an image. Each
-- bit is new when it is set, so that `|= 1 << bit` is an addition.
use local_recall.Common.{
  ℕ, zero, suc, ◌+◌, ◌*◌, ◌/◌, ◌-◌, ◌^◌, not, ◌||◌, Option, none, some, List, [], ◌∷◌, ◌==◌, ltb,
  length, if◌then◌else◌,
}
use local_recall.Common.Exec.{Result, ok, err}
use local_recall.Capture.Adaptive.{CaptureError, invalid_image, index_error}

-- `pixels[offset]`, none where an `IndexError` is raised.
unfoldable pub byte_at : List ℕ → ℕ → Option ℕ
byte_at [] offset = none
byte_at (b ∷ rest) zero = some b
byte_at (b ∷ rest) (suc n) = byte_at rest n

unfoldable pub sample_coordinate : ℕ → ℕ → ℕ → ℕ
sample_coordinate index samples extent =
    if extent == 1 then 0 else index * (extent - 1) / (samples - 1)

abbrev pub luma : Option ℕ → Option ℕ → Option ℕ → Option ℕ
luma (some red) (some green) (some blue) = some ((299 * red + 587 * green + 114 * blue) / 1000)
luma _ _ _ = none

unfoldable pub pixel : List ℕ → ℕ → Option ℕ
unfolding byte_at
pixel pixels offset =
    luma (byte_at pixels offset) (byte_at pixels (offset + 1)) (byte_at pixels (offset + 2))

abbrev pub push : Option ℕ → Option (List ℕ) → Option (List ℕ)
push (some v) (some row) = some (v ∷ row)
push _ _ = none

-- `n` samples of a row, from the sample `x` on.
unfoldable pub sample_row : List ℕ → ℕ → ℕ → ℕ → ℕ → Option (List ℕ)
unfolding pixel sample_coordinate
sample_row pixels width start zero x = some []
sample_row pixels width start (suc n) x =
    push (pixel pixels (start + sample_coordinate x 9 width * 3))
      (sample_row pixels width start n (x + 1))

-- The bits of a row, from `bit` on.
unfoldable pub row_bits : List ℕ → ℕ → ℕ
row_bits [] bit = 0
row_bits (a ∷ []) bit = 0
row_bits (a ∷ b ∷ rest) bit =
    let others = row_bits (b ∷ rest) (bit + 1) in if ltb b a then 2 ^ bit + others else others

abbrev pub join : Option (List ℕ) → ℕ → Option ℕ → Option ℕ
join (some row) bit (some rest) = some (row_bits row bit + rest)
join _ bit _ = none

-- `n` rows, from the sample `y` on.
unfoldable pub hash_rows : List ℕ → ℕ → ℕ → ℕ → ℕ → ℕ → Option ℕ
unfolding sample_row sample_coordinate
hash_rows pixels width height stride zero y = some 0
hash_rows pixels width height stride (suc n) y =
    join (sample_row pixels width (sample_coordinate y 8 height * stride) 9 0) (y * 8)
      (hash_rows pixels width height stride n (y + 1))

abbrev pub used_stride : Option ℕ → ℕ → ℕ
used_stride none width = width * 3
used_stride (some s) width = s

unfoldable pub hash_checked : List ℕ → ℕ → ℕ → ℕ → Result CaptureError ℕ
hash_checked pixels width height stride =
    if width == 0 || height == 0
    then err invalid_image
    else if ltb stride (width * 3)
    then err invalid_image
    else if not (length pixels == stride * height)
    then err invalid_image
    else elim (hash_rows pixels width height stride 8 0) [
      | none ↦ err index_error
      | some fingerprint ↦ ok fingerprint
    ]

unfoldable pub perceptual_dhash : List ℕ → ℕ → ℕ → Option ℕ → Result CaptureError ℕ
unfolding hash_checked
perceptual_dhash pixels width height stride =
    hash_checked pixels width height (used_stride stride width)
