-- ===== src/Filters/Blur.antt =====
-- cpu/cpu_filters.c: the frames that the box blur and the grayscale filter make.
use video_compute_pipeline.Prelude.{
  ℕ, ◌+◌, ◌*◌, ◌^◌, ◌≤◌, ◌<◌, ◌≡◌, refl, ap, ap₂, ◌∙◌, subst, ◌⊎◌, inl, inr, not, if◌then◌else◌,
  arith, lt→ltb,
}
use video_compute_pipeline.Prelude.Int.{ℤ, pos, eq_ℤ, success, failure}
use video_compute_pipeline.Memory.{Heap}
use video_compute_pipeline.Frame.{Frame, rgb24, calculate_stride}
use video_compute_pipeline.Frame.Size.{stride_rgb24}
use video_compute_pipeline.Frame.Valid.{IsFilled}
use video_compute_pipeline.Filters.{
  Pixel, bytes_of, pixel_at, with_pixels, ensure_rgb_output, blur_pixel, cpu_box_blur, GrayOps,
  gray_pixel, cpu_grayscale,
}
use video_compute_pipeline.Filters.Pixels.{Shows}
use video_compute_pipeline.Filters.Offsets.{write_rows-Shows}
use video_compute_pipeline.Filters.Average.{area_bound}
use video_compute_pipeline.Filters.Output.{
  IsReady, IsUsable, NoRoom, Ensured, ensure_rgb_output_lem,
}
use video_compute_pipeline.Filters.Colours.{
  AreBytes, average_pixel, gray_at, blur_pixel_lem, pixel_at_lem,
}

-- The image that a filter makes of the input, of width `w` and height `ht`: its pixels are those of
-- `value`, row by row.
pub record IsImageOf (input : Frame) (value : ℕ → ℕ → Pixel) (w ht : ℕ) (out : Heap × Frame × ℤ)
    : Type 0 where
  pub result : out.2 ≡ success
  pub width : out.1.width ≡ input.width
  pub height : out.1.height ≡ input.height
  pub format : out.1.format ≡ rgb24
  pub index : out.1.index ≡ input.index
  pub stride : out.1.stride ≡ 3 * w
  pub pixels :
      (y x : ℕ) → y < ht → x < w → Shows (bytes_of out.1) (y * out.1.stride + x * 3) (value y x)

with_pixels-IsImageOf :
    (h : Heap) (input output : Frame) (value : ℕ → ℕ → Pixel) (w ht : ℕ)
    → input.width ≡ pos w
    → input.height ≡ pos ht
    → 3 * w < 2 ^ 31
    → ht < 2 ^ 31
    → IsReady input output w ht
    → IsImageOf input value w ht (h, with_pixels value input output, success)
with_pixels-IsImageOf h input output value w ht ew eh bw bh r = record {
  result = refl;
  width = r.width;
  height = r.height;
  format = r.format;
  index = r.index;
  stride = r.stride;
  pixels = λ y x yb xb.
      rw (r.owns, ew, eh)
        (write_rows-Shows value output.stride w ht y x r.block.contents (omega (arith, bw))
          (omega (arith, bh)) (rw (r.stride) (area_bound w ht bw bh)) (rw (r.stride) (omega arith))
          (rw (r.stride, r.room) (omega arith)) yb xb);
}

finish_lem :
    (h : Heap) (input output : Frame) (value value' : ℕ → ℕ → Pixel) (w ht : ℕ)
    (out : Heap × Frame × ℤ)
    → input.width ≡ pos w
    → input.height ≡ pos ht
    → 3 * w < 2 ^ 31
    → ht < 2 ^ 31
    → ((y x : ℕ) → y < ht → x < w → value y x ≡ value' y x)
    → Ensured h input output w ht out
    → NoRoom h output (
        if not (eq_ℤ out.2 success)
        then (out.0, out.1, failure)
        else (out.0, with_pixels value input out.1, success))
      ⊎ IsImageOf input value' w ht (
          if not (eq_ℤ out.2 success)
          then (out.0, out.1, failure)
          else (out.0, with_pixels value input out.1, success))
finish_lem h input output value value' w ht out ew eh bw bh same (inl r) =
    rw (r.result) (inl (record { result = refl; frame = r.frame; refused = r.refused }))
finish_lem h input output value value' w ht out ew eh bw bh same (inr r) = rw (r.0) (
    inr (
      let t = with_pixels-IsImageOf out.0 input out.1 value w ht ew eh bw bh r.1 in
      record {
        result = refl;
        width = t.width;
        height = t.height;
        format = t.format;
        index = t.index;
        stride = t.stride;
        pixels = λ y x yb xb. subst (Shows _ _) (same y x yb xb) (t.pixels y x yb xb);
      }))

module _ (h : Heap) (input output : Frame) (w ht : ℕ) where
  input_stride :
      IsFilled input
      → input.format ≡ rgb24
      → input.width ≡ pos w
      → 0 < w
      → 3 * w < 2 ^ 31
      → input.stride ≡ 3 * w
  input_stride v rgb ew pw bw =
      v.layout_stride ∙ ap₂ calculate_stride ew rgb ∙ stride_rgb24 w pw (omega (arith, bw))

  -- The box blur of an RGB image whose rows are shorter than 2 ^ 31 bytes, with a kernel of 1 to 2901
  -- pixels whose sum with each side is at most 2 ^ 31, into a frame that is filled or not valid: it fails
  -- only if calloc refuses the output's block. Otherwise the output has the input's dimensions and index,
  -- and each of its bytes is the average, rounded down, of that colour over the square of the kernel,
  -- which starts half a kernel above and left of the pixel, each place outside the image taken from the
  -- nearest pixel of the image.
  pub cpu_box_blur-IsImageOf :
      (kernel : ℕ)
      → IsFilled input
      → input.format ≡ rgb24
      → AreBytes (bytes_of input)
      → input.width ≡ pos w
      → input.height ≡ pos ht
      → 0 < w
      → 3 * w < 2 ^ 31
      → 0 < ht
      → ht + kernel ≤ 2 ^ 31
      → w + kernel ≤ 2 ^ 31
      → IsUsable output
      → 0 < kernel
      → kernel ≤ 2901
      → NoRoom h output (cpu_box_blur h input output (pos kernel))
        ⊎ IsImageOf input
            (average_pixel (bytes_of input) kernel w ht)
            w
            ht
            (cpu_box_blur h input output (pos kernel))
  unfolding cpu_box_blur
  cpu_box_blur-IsImageOf kernel v rgb b ew eh pw bw ph kh kw usable pk small =
      rw (lt→ltb 0 kernel pk) (
        finish_lem h input output (blur_pixel input kernel) _ w ht
          (ensure_rgb_output h input output) ew eh bw (omega (arith, kh, pk))
          (λ y x hy hx.
            blur_pixel_lem input w ht (input_stride v rgb ew pw bw) bw (omega (arith, kh, pk))
              kernel y x ew eh kw kh small b hy hx)
          (ensure_rgb_output_lem h input output w ht v rgb ew eh pw (omega (arith, bw)) ph
            (omega (arith, kh, pk)) usable))

  -- The grayscale filter on an RGB image whose rows are shorter than 2 ^ 31 bytes, into a frame that is
  -- filled or not valid: it fails only if calloc refuses the output's block. Otherwise the output has the
  -- input's dimensions and index, and the three bytes of each of its pixels are 0.299 R + 0.587 G +
  -- 0.114 B + 0.5 of the input's red, green and blue byte at that place, as doubles and cast to a byte.
  pub cpu_grayscale-IsImageOf :
      {D : Type 0} (c : GrayOps D)
      → IsFilled input
      → input.format ≡ rgb24
      → input.width ≡ pos w
      → input.height ≡ pos ht
      → 0 < w
      → 3 * w < 2 ^ 31
      → 0 < ht
      → ht < 2 ^ 31
      → IsUsable output
      → NoRoom h output (cpu_grayscale c h input output)
        ⊎ IsImageOf input (gray_at c (bytes_of input) w) w ht (cpu_grayscale c h input output)
  unfolding cpu_grayscale gray_pixel
  cpu_grayscale-IsImageOf c v rgb ew eh pw bw ph bh usable =
      finish_lem h input output (λ y x. gray_pixel c (pixel_at input y x)) _ w ht
        (ensure_rgb_output h input output) ew eh bw bh
        (λ y x hy hx.
          ap (gray_pixel c) (pixel_at_lem input w ht (input_stride v rgb ew pw bw) bw bh y x hy hx))
        (ensure_rgb_output_lem h input output w ht v rgb ew eh pw (omega (arith, bw)) ph bh usable)
