-- ===== src/Capture/Bounds.antt =====
-- src/local_recall/capture/adaptive.py, `perceptual_dhash_rgb8`: it reads inside the image, and its
-- value has 64 bits.
use local_recall.Common.{
  ℕ, zero, suc, ◌+◌, ◌*◌, ◌/◌, ◌-◌, ◌^◌, ◌≤◌, ◌<◌, ◌≡◌, ◌≢◌, ◌⊎◌, refl, Bool-cases, inl, inr,
  Option, some, List, [], ◌∷◌, ◌==◌, ltb, length, arith,
}
use native.Mathlib.Nat.{div-le_of_le-mul, mul-le-mul_right, pow-suc}
use local_recall.Common.Exec.{ok, err}
use local_recall.Capture.Adaptive.{invalid_image}
use local_recall.Capture.Fingerprint.{
  byte_at, sample_coordinate, pixel, sample_row, row_bits, hash_rows, perceptual_dhash,
  hash_checked, used_stride,
}

byte_at-some :
    (pixels : List ℕ) (offset : ℕ)
    → offset < length pixels
    → (b : ℕ) × (byte_at pixels offset ≡ some b)
unfolding byte_at
byte_at-some [] offset h = absurd (omega arith)
byte_at-some (b ∷ rest) zero h = (b, refl)
byte_at-some (b ∷ rest) (suc n) h = byte_at-some rest n (omega arith)

pixel-some :
    (pixels : List ℕ) (offset : ℕ)
    → offset + 2 < length pixels
    → (v : ℕ) × (pixel pixels offset ≡ some v)
unfolding pixel
pixel-some pixels offset h =
    let (r, e) = byte_at-some pixels offset (omega arith) in
    let (g, f) = byte_at-some pixels (offset + 1) (omega arith) in
    let (b, k) = byte_at-some pixels (offset + 2) (omega arith) in
    ((299 * r + 587 * g + 114 * b) / 1000, rw (e, f, k) refl)

-- The samples lie inside of the extent.
sample_coordinate-bound :
    (index samples extent : ℕ)
    → index < samples
    → 1 < samples
    → 1 ≤ extent
    → sample_coordinate index samples extent < extent
unfolding sample_coordinate
sample_coordinate-bound index samples extent h two positive = elim (Bool-cases (extent == 1)) [
  | inl e ↦ rw (sample_coordinate, e) positive
  | inr e ↦
      let scaled = mul-le-mul_right (extent - 1) (at_most h) in
      let bound = div-le_of_le-mul (samples - 1) scaled in
      rw (sample_coordinate, e) (omega (arith, bound))
]
  where
    at_most : index < samples → index ≤ samples - 1
    at_most f = omega arith

-- A sample of a row lies inside of the image.
offset-bound :
    (x y width height stride : ℕ)
    → x < width
    → y < height
    → width * 3 ≤ stride
    → y * stride + x * 3 + 2 < stride * height
offset-bound x y width height stride h k wide =
    let rows = mul-le-mul_right stride k in omega (arith, rows)

sample_row-some :
    (pixels : List ℕ) (width height stride y n x : ℕ)
    → y < height
    → 1 ≤ width
    → width * 3 ≤ stride
    → length pixels ≡ stride * height
    → x + n ≤ 9
    → (row : List ℕ) × (sample_row pixels width (y * stride) n x ≡ some row) × (length row ≡ n)
unfolding sample_row
sample_row-some pixels width height stride y zero x inside wide fits size few = ([], refl, refl)
sample_row-some pixels width height stride y (suc n) x inside wide fits size few =
    let column = sample_coordinate-bound x 9 width (omega arith) (omega arith) wide in
    let offset =
      offset-bound (sample_coordinate x 9 width) y width height stride column inside fits in
    let (v, e) =
      pixel-some pixels (y * stride + sample_coordinate x 9 width * 3)
        (omega (arith, offset, size)) in
    let (row, f, l) =
      sample_row-some pixels width height stride y n (x + 1) inside wide fits size (omega arith) in
    (v ∷ row, rw (e, f) refl, omega (arith, l))

row_bits-bound :
    (n : ℕ) (row : List ℕ) (bit : ℕ)
    → length row ≡ suc n
    → row_bits row bit + 2 ^ bit ≤ 2 ^ (bit + n)
unfolding row_bits
row_bits-bound n [] bit e = absurd (omega arith)
row_bits-bound n (a ∷ []) bit e = let same : bit + n ≡ bit = omega arith in rw same (omega arith)
row_bits-bound zero (a ∷ b ∷ rest) bit e = absurd (omega arith)
row_bits-bound (suc n) (a ∷ b ∷ rest) bit e =
    let ih = row_bits-bound n (b ∷ rest) (bit + 1) (omega arith) in
    let next : bit + 1 ≡ suc bit = omega arith in
    let double : 2 ^ (bit + 1) ≡ 2 ^ bit * 2 = rw next (pow-suc 2 bit) in
    let same : bit + 1 + n ≡ bit + suc n = omega arith in
    let ih2 : row_bits (b ∷ rest) (bit + 1) + 2 ^ (bit + 1) ≤ 2 ^ (bit + suc n) = rw⁻¹ same ih in
    elim (Bool-cases (ltb b a)) [
      | inl g ↦ rw g (omega (arith, ih2, double))
      | inr g ↦ rw g (omega (arith, ih2, double))
    ]

hash_rows-bound :
    (pixels : List ℕ) (width height stride n y : ℕ)
    → 1 ≤ height
    → 1 ≤ width
    → width * 3 ≤ stride
    → length pixels ≡ stride * height
    → y + n ≤ 8
    → (f : ℕ) × (hash_rows pixels width height stride n y ≡ some f)
      × (f + 2 ^ (y * 8) ≤ 2 ^ ((y + n) * 8))
unfolding hash_rows
hash_rows-bound pixels width height stride zero y tall wide fits size few =
    let same : (y + 0) * 8 ≡ y * 8 = omega arith in (0, refl, rw same (omega arith))
hash_rows-bound pixels width height stride (suc n) y tall wide fits size few =
    let inside = sample_coordinate-bound y 8 height (omega arith) (omega arith) tall in
    let (row, e, l) =
      sample_row-some pixels width height stride (sample_coordinate y 8 height) 9 0 inside wide fits
        size (omega arith) in
    let (f, g, h) =
      hash_rows-bound pixels width height stride n (y + 1) tall wide fits size (omega arith) in
    let bits = row_bits-bound 8 row (y * 8) l in
    let next : (y + 1) * 8 ≡ y * 8 + 8 = omega arith in
    let last : (y + 1 + n) * 8 ≡ (y + suc n) * 8 = omega arith in
    let rest : f + 2 ^ (y * 8 + 8) ≤ 2 ^ ((y + suc n) * 8) = rw⁻¹ (next, last) h in
    (row_bits row (y * 8) + f, rw (e, g) refl, omega (arith, bits, rest))

-- A hash, or what is wrong with the image.
hash_checked-bound :
    (pixels : List ℕ) (width height stride : ℕ)
    → (hash_checked pixels width height stride ≡ err invalid_image)
        × ((width ≡ 0) ⊎ (height ≡ 0) ⊎ (stride < width * 3) ⊎ (length pixels ≢ stride * height))
      ⊎ ((f : ℕ) × (hash_checked pixels width height stride ≡ ok f) × (f < 2 ^ 64))
unfolding hash_checked
hash_checked-bound pixels width height stride = elim (Bool-cases (width == 0)) [
  | inl e ↦ inl (rw (hash_checked, e) refl, inl (ground arith))
  | inr e ↦ elim (Bool-cases (height == 0)) [
    | inl f ↦ inl (rw (hash_checked, e, f) refl, inr (inl (ground arith)))
    | inr f ↦ elim (Bool-cases (ltb stride (width * 3))) [
      | inl g ↦ inl (rw (hash_checked, e, f, g) refl, inr (inr (inl (ground arith))))
      | inr g ↦ elim (Bool-cases (length pixels == stride * height)) [
        | inr h ↦ inl (rw (hash_checked, e, f, g, h) refl, inr (inr (inr (λ same. ground arith))))
        | inl h ↦
            let (v, x, bound) =
              hash_rows-bound pixels width height stride 8 0 (ground arith) (ground arith)
                (ground arith) (ground arith) (omega arith) in
            inr (v, rw (hash_checked, e, f, g, h, x) refl, ground (arith, bound))
      ]
    ]
  ]
]

-- For every buffer and all dimensions: the hash reads inside the buffer. The image is refused, and
-- then its width or height is 0, its stride less than three bytes for each pixel, or the size of the
-- buffer not the stride times the height; or there is a hash, and it is less than `2 ^ 64`.
pub perceptual_dhash-bound :
    (pixels : List ℕ) (width height : ℕ) (stride : Option ℕ)
    → (perceptual_dhash pixels width height stride ≡ err invalid_image)
        × ((width ≡ 0)
            ⊎ (height ≡ 0)
            ⊎ (used_stride stride width < width * 3)
            ⊎ (length pixels ≢ used_stride stride width * height))
      ⊎ ((f : ℕ) × (perceptual_dhash pixels width height stride ≡ ok f) × (f < 2 ^ 64))
unfolding perceptual_dhash
perceptual_dhash-bound pixels width height stride =
    hash_checked-bound pixels width height (used_stride stride width)
