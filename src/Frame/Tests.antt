-- ===== src/Frame/Tests.antt =====
-- Runs of the functions of core/frame.c on small images, which the tests of other modules use too.
use video_compute_pipeline.Prelude.{ℕ, not, ◌==◌, ◌≡◌, refl, ◌⊎◌, some, [], ◌∷◌, arith}
use video_compute_pipeline.Prelude.Int.{pos}
use video_compute_pipeline.Memory.{Heap}
use video_compute_pipeline.Frame.{
  Frame, rgb24, gray8, nv12, init, set_planes, channels_for_format, calculate_stride,
  calculate_size, copy,
}
use video_compute_pipeline.Frame.Size.{IsImage, calculate_size_lem}
use video_compute_pipeline.Frame.Valid.{IsFilled}
use video_compute_pipeline.Frame.Transfer.{Copied, NotCopied, copy_lem}

-- A heap that grants every call but the listed number.
abbrev pub heap_without : ℕ → Heap
heap_without n = record { calls = 0; granted = []; freed = []; grants = λ k. not (k == n) }

-- A gray image of two by two pixels in the block of the given address.
abbrev pub image_in : ℕ → Frame
image_in n = set_planes (record init {
  width = pos 2;
  height = pos 2;
  channels = pos 1;
  format = gray8;
  stride = 2;
  size = 4;
  pixels = some (record { address = n; contents = 1 ∷ 2 ∷ 3 ∷ 4 ∷ [] });
})

pub image_in-IsFilled : (n : ℕ) → IsFilled (image_in n)
unfolding calculate_stride calculate_size channels_for_format set_planes
image_in-IsFilled n = record {
  wide = refl;
  high = refl;
  layout_channels = refl;
  layout_stride = refl;
  layout_size = refl;
  some_stride = omega arith;
  some_size = omega arith;
  block = record { address = n; contents = 1 ∷ 2 ∷ 3 ∷ 4 ∷ [] };
  owns = refl;
  room = refl;
  planes_set = refl;
}

hd_size : calculate_size (pos 1280) (pos 720) nv12 ≡ 1382400
unfolding calculate_size
hd_size = refl

odd_size : calculate_size (pos 1281) (pos 720) nv12 ≡ 0
unfolding calculate_size
odd_size = refl

calculate_size_lem_example :
    (IsImage rgb24 (pos 640) (pos 480) × (calculate_size (pos 640) (pos 480) rgb24 ≡ 921600))
    ⊎ (¬ IsImage rgb24 (pos 640) (pos 480) × (calculate_size (pos 640) (pos 480) rgb24 ≡ 0))
calculate_size_lem_example =
    calculate_size_lem rgb24 (pos 640) (pos 480) (omega arith, omega arith)
      (omega arith, omega arith)

copy_lem_example :
    let out = copy (heap_without 5) (image_in 8) (image_in 9) in
    NotCopied (heap_without 5) (image_in 8) out
    ⊎ Copied (heap_without 5) (image_in 8) (image_in 9) (image_in-IsFilled 9) out
copy_lem_example = copy_lem (heap_without 5) (image_in 8) (image_in 9) (image_in-IsFilled 9)
