-- ===== src/Filters/Colours.antt =====
-- cpu/cpu_filters.c: what the filters compute for one pixel, by the bytes of the image.
use video_compute_pipeline.Prelude.{
  ℕ, zero, suc, ◌+◌, ◌*◌, ◌/◌, ◌^◌, ◌≤◌, ◌<◌, ◌≡◌, refl, ap, ◌∙◌, List, [], ◌∷◌, get_or, All, arith,
}
use video_compute_pipeline.Prelude.Int.{pos}
use video_compute_pipeline.Frame.{Frame}
use video_compute_pipeline.Filters.{
  Pixel, bytes_of, byte_at, advance, pixel_offset, window_average, pixel_at, neighbour, colour_at,
  blur_pixel, GrayOps,
}
use video_compute_pipeline.Filters.Offsets.{at_index_lem, row_start_lem}
use video_compute_pipeline.Filters.Average.{
  sum, window_average-cong, nearest, nearest_lt, neighbour-nearest, area_bound, pixel_offset_lem,
  window_average_lem,
}

-- Every element is a byte.
abbrev pub AreBytes : List ℕ → Type 0
AreBytes bytes = All (λ b. b ≤ 255) bytes

get_or_le : (bytes : List ℕ) (i : ℕ) → AreBytes bytes → get_or bytes i 0 ≤ 255
get_or_le [] i h = omega arith
get_or_le (b ∷ bytes) zero h = h.0
get_or_le (b ∷ bytes) (suc i) h = get_or_le bytes i h.1

abbrev pixel_of : ℕ → ℕ → ℕ → Pixel
pixel_of r g b = record { red = r; green = g; blue = b }

pixel_eq : {r r' g g' b b' : ℕ} → r ≡ r' → g ≡ g' → b ≡ b' → pixel_of r g b ≡ pixel_of r' g' b'
pixel_eq er eg eb = rw (er, eg, eb) refl

-- The byte of a colour in an RGB image of width `w`: 0 is red, 1 green and 2 blue.
abbrev pub channel : List ℕ → ℕ → ℕ → ℕ → ℕ → ℕ
channel bytes w k y x = get_or bytes (y * (3 * w) + x * 3 + k) 0

-- The average of a colour over the square of `kernel` pixels whose first is `kernel / 2` above and left
-- of the pixel, each place outside the image taken from the nearest pixel of the image.
abbrev pub average : List ℕ → ℕ → ℕ → ℕ → ℕ → ℕ → ℕ → ℕ
average bytes kernel w ht k y x =
    sum
      (λ i.
        sum
          (λ j.
            channel bytes w k (nearest ht (kernel / 2) (y + i)) (nearest w (kernel / 2) (x + j)))
          kernel)
      kernel
    / (kernel * kernel)

abbrev pub average_pixel : List ℕ → ℕ → ℕ → ℕ → ℕ → ℕ → Pixel
average_pixel bytes kernel w ht y x = record {
  red = average bytes kernel w ht 0 y x;
  green = average bytes kernel w ht 1 y x;
  blue = average bytes kernel w ht 2 y x;
}

-- 0.299 R + 0.587 G + 0.114 B + 0.5, cast to a byte.
abbrev pub gray_value : {D : Type 0} → GrayOps D → ℕ → ℕ → ℕ → ℕ
gray_value c r g b =
    let part = λ (weight byte : ℕ). c.mul (c.thousandths weight) (c.of_byte byte) in
    c.to_byte (c.add (c.add (c.add (part 299 r) (part 587 g)) (part 114 b)) (c.thousandths 500))

-- The gray pixel of the input's three bytes at a place.
abbrev pub gray_at : {D : Type 0} → GrayOps D → List ℕ → ℕ → ℕ → ℕ → Pixel
gray_at c bytes w y x =
    let gray =
      gray_value c (channel bytes w 0 y x) (channel bytes w 1 y x) (channel bytes w 2 y x) in
    record { red = gray; green = gray; blue = gray }

module _ (input : Frame) (w ht : ℕ) (stride : input.stride ≡ 3 * w) (bw : 3 * w < 2 ^ 31)
    (bh : ht < 2 ^ 31) where
  colour_at_lem :
      (k sy sx : ℕ)
      → sy < ht
      → sx < w
      → colour_at input k (pos sy) (pos sx) ≡ channel (bytes_of input) w k sy sx
  unfolding colour_at
  colour_at_lem k sy sx hy hx =
      ap (λ z. byte_at (bytes_of input) (advance k z))
        (ap (λ s. pixel_offset s (pos sy) (pos sx)) stride
          ∙ pixel_offset_lem w ht sy sx bw bh hy hx)
      ∙ ap (λ i. get_or (bytes_of input) i 0) (omega arith)

  neighbour_colour :
      (kernel k y x i j : ℕ)
      → w + kernel ≤ 2 ^ 31
      → ht + kernel ≤ 2 ^ 31
      → y < ht
      → x < w
      → i < kernel
      → j < kernel
      → colour_at input k (neighbour kernel ht y i) (neighbour kernel w x j)
        ≡ channel
            (bytes_of input)
            w
            k
            (nearest ht (kernel / 2) (y + i))
            (nearest w (kernel / 2) (x + j))
  neighbour_colour kernel k y x i j kw kh hy hx hi hj =
      rw
        (
          neighbour-nearest kernel ht y i (omega (arith, hy)) (omega (arith, kh))
              (omega (arith, kh, hy, hi)),
          neighbour-nearest kernel w x j (omega (arith, hx)) (omega (arith, kw))
              (omega (arith, kw, hx, hj)),
        )
        (colour_at_lem k _ _ (nearest_lt ht (kernel / 2) (y + i) (omega (arith, hy)))
          (nearest_lt w (kernel / 2) (x + j) (omega (arith, hx))))

  pub pixel_at_lem :
      (y x : ℕ)
      → y < ht
      → x < w
      → pixel_at input y x ≡ record {
        red = channel (bytes_of input) w 0 y x;
        green = channel (bytes_of input) w 1 y x;
        blue = channel (bytes_of input) w 2 y x;
      }
  unfolding pixel_at
  pixel_at_lem y x hy hx =
      rw
        (
          stride,
          row_start_lem (3 * w) ht y (omega (arith, bh)) (area_bound w ht bw bh) hy,
          at_index_lem (y * (3 * w)) x 0 (omega (arith, bw, hx)),
          at_index_lem (y * (3 * w)) x 1 (omega (arith, bw, hx)),
          at_index_lem (y * (3 * w)) x 2 (omega (arith, bw, hx)),
        )
        refl

  blur_colour :
      (kernel k y x : ℕ)
      → w + kernel ≤ 2 ^ 31
      → ht + kernel ≤ 2 ^ 31
      → kernel ≤ 2901
      → AreBytes (bytes_of input)
      → y < ht
      → x < w
      → window_average
          (λ i j. colour_at input k (neighbour kernel ht y i) (neighbour kernel w x j))
          kernel
        ≡ average (bytes_of input) kernel w ht k y x
  blur_colour kernel k y x kw kh small b hy hx =
      window_average-cong _ _ kernel
        (λ i j hi hj. neighbour_colour kernel k y x i j kw kh hy hx hi hj)
      ∙ window_average_lem _ kernel small (λ i j. get_or_le (bytes_of input) _ b)

  pub blur_pixel_lem :
      (kernel y x : ℕ)
      → input.width ≡ pos w
      → input.height ≡ pos ht
      → w + kernel ≤ 2 ^ 31
      → ht + kernel ≤ 2 ^ 31
      → kernel ≤ 2901
      → AreBytes (bytes_of input)
      → y < ht
      → x < w
      → blur_pixel input kernel y x ≡ average_pixel (bytes_of input) kernel w ht y x
  unfolding blur_pixel
  blur_pixel_lem kernel y x ew eh kw kh small b hy hx =
      rw (ew, eh) (pixel_eq (colour 0) (colour 1) (colour 2))
    where
      colour :
          (k : ℕ)
          → window_average
              (λ i j. colour_at input k (neighbour kernel ht y i) (neighbour kernel w x j))
              kernel
            ≡ average (bytes_of input) kernel w ht k y x
      colour k = blur_colour kernel k y x kw kh small b hy hx
