-- ===== src/Filters/Tests.antt =====
-- Runs of cpu/cpu_filters.c on an image of two pixels.
use video_compute_pipeline.Prelude.{ℕ, ◌+◌, ◌*◌, ◌/◌, ◌≡◌, refl, ◌⊎◌, inl, some, [], ◌∷◌, arith}
use video_compute_pipeline.Prelude.Int.{pos}
use video_compute_pipeline.Frame.{
  Frame, rgb24, init, set_planes, channels_for_format, calculate_stride, calculate_size, is_valid,
}
use video_compute_pipeline.Frame.Tests.{heap_without}
use video_compute_pipeline.Frame.Valid.{IsFilled}
use video_compute_pipeline.Filters.{
  bytes_of, neighbour, pixel_offset, GrayOps, cpu_grayscale, cpu_box_blur,
}
use video_compute_pipeline.Filters.Average.{InImage, pixel_offset-neighbour}
use video_compute_pipeline.Filters.Output.{NoRoom}
use video_compute_pipeline.Filters.Colours.{average_pixel, gray_at}
use video_compute_pipeline.Filters.Blur.{IsImageOf, cpu_box_blur-IsImageOf, cpu_grayscale-IsImageOf}

abbrev two_pixels : Frame
two_pixels = set_planes (record init {
  width = pos 2;
  height = pos 1;
  channels = pos 3;
  format = rgb24;
  stride = 6;
  size = 6;
  pixels = some (record { address = 7; contents = 30 ∷ 60 ∷ 90 ∷ 0 ∷ 3 ∷ 255 ∷ [] });
})

two_pixels-IsFilled : IsFilled two_pixels
unfolding calculate_stride calculate_size channels_for_format set_planes
two_pixels-IsFilled = record {
  wide = refl;
  high = refl;
  layout_channels = refl;
  layout_stride = refl;
  layout_size = refl;
  some_stride = omega arith;
  some_size = omega arith;
  block = record { address = 7; contents = 30 ∷ 60 ∷ 90 ∷ 0 ∷ 3 ∷ 255 ∷ [] };
  owns = refl;
  room = refl;
  planes_set = refl;
}

-- Doubles that are thousandths.
abbrev pub thousandths : GrayOps ℕ
thousandths = record {
  thousandths = λ n. n;
  of_byte = λ b. b * 1000;
  add = λ a b. a + b;
  mul = λ a b. a * b / 1000;
  to_byte = λ a. a / 1000;
}

blurred :
    bytes_of (cpu_box_blur (heap_without 9) two_pixels init (pos 3)).1
    ≡ 20 ∷ 41 ∷ 145 ∷ 10 ∷ 22 ∷ 200 ∷ []
unfolding cpu_box_blur set_planes calculate_stride calculate_size
blurred = refl

cpu_box_blur-IsImageOf_example :
    NoRoom (heap_without 9) init (cpu_box_blur (heap_without 9) two_pixels init (pos 3))
    ⊎ IsImageOf two_pixels
        (average_pixel (bytes_of two_pixels) 3 2 1)
        2
        1
        (cpu_box_blur (heap_without 9) two_pixels init (pos 3))
unfolding is_valid set_planes
cpu_box_blur-IsImageOf_example =
    cpu_box_blur-IsImageOf (heap_without 9) two_pixels init 2 1 3 two_pixels-IsFilled refl
      (omega arith, (omega arith, (omega arith, (omega arith, (omega arith, (omega arith, tt))))))
      refl refl (omega arith) (omega arith) (omega arith) (omega arith) (omega arith) (inl refl)
      (omega arith) (omega arith)

cpu_grayscale-IsImageOf_example :
    NoRoom (heap_without 9) init (cpu_grayscale thousandths (heap_without 9) two_pixels init)
    ⊎ IsImageOf two_pixels
        (gray_at thousandths (bytes_of two_pixels) 2)
        2
        1
        (cpu_grayscale thousandths (heap_without 9) two_pixels init)
unfolding is_valid set_planes
cpu_grayscale-IsImageOf_example =
    cpu_grayscale-IsImageOf (heap_without 9) two_pixels init 2 1 thousandths two_pixels-IsFilled
      refl refl refl (omega arith) (omega arith) (omega arith) (omega arith) (inl refl)

-- The last place of a kernel of 13 on the pixel at the right leaves the image.
pixel_offset-neighbour_example :
    InImage 2 1 (pixel_offset 6 (neighbour 13 1 0 12) (neighbour 13 2 1 12))
pixel_offset-neighbour_example =
    pixel_offset-neighbour 13 2 1 0 1 12 12 (omega arith) (omega arith) (omega arith) (omega arith)
      (omega arith) (omega arith) (omega arith)
