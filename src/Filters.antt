-- ===== src/Filters.antt =====
-- cpu/cpu_filters.c: grayscale and box blur on RGB24 frames. The input and the output are different
-- objects. A loop over pixels writes them in the order of the source. `D` is the machine's double,
-- with its operations as a parameter of the grayscale filter.
pub mod Pixels
pub mod Offsets
pub mod Average
pub mod Colours
pub mod Output
pub mod Blur
pub mod Tests
use video_compute_pipeline.Prelude.{
  ℕ, zero, suc, ◌+◌, ◌-◌, ◌*◌, ◌/◌, ◌%◌, Bool, true, false, not, ◌||◌, Option, none, some, List, [],
  ◌∷◌, get_or, set, leb, if◌then◌else◌,
}
use video_compute_pipeline.Prelude.Int.{
  ℤ, pos, negsuc, pos_part, is_pos, ltb_ℤ, eq_ℤ, success, failure,
}
use video_compute_pipeline.Memory.{Heap, Block, mul_size, to_size}
use video_compute_pipeline.ExecutionPlan.Profile.{wrap_int}
use video_compute_pipeline.Frame.{Frame, FrameFormat, rgb24, gray8, nv12, alloc, is_valid}

abbrev pub is_rgb : FrameFormat → Bool
is_rgb rgb24 = true
is_rgb gray8 = false
is_rgb nv12 = false

unfoldable pub ensure_rgb_output : Heap → Frame → Frame → Heap × Frame × ℤ
unfolding is_valid alloc
ensure_rgb_output h input output =
    let (h', made, result) = alloc h output input.width input.height rgb24 in
    if not (is_valid input) || not (is_rgb input.format)
    then (h, output, failure)
    else if not (is_valid output)
        || (not (eq_ℤ output.width input.width)
            || (not (eq_ℤ output.height input.height) || not (is_rgb output.format)))
    then (if not (eq_ℤ result success)
        then (h', made, failure)
        else (h', record made { index = input.index }, success))
    else (h, record output { index = input.index }, success)

abbrev pub clamp_int : ℤ → ℤ → ℤ → ℤ
clamp_int value min_value max_value =
    if ltb_ℤ value min_value then min_value else if ltb_ℤ max_value value then max_value else value

-- The three bytes of a pixel.
pub record Pixel : Type 0 where
  pub red : ℕ
  pub green : ℕ
  pub blue : ℕ

abbrev pub bytes_of : Frame → List ℕ
bytes_of f = elim f.pixels [ none ↦ [] | some b ↦ b.contents ]

abbrev pub with_bytes : Frame → (List ℕ → List ℕ) → Frame
with_bytes f write = record f {
  pixels = elim f.pixels [
    | none ↦ none
    | some b ↦ some (record { address = b.address; contents = write b.contents })
  ];
}

-- An offset behind another.
abbrev pub advance : ℕ → ℤ → ℤ
advance a (pos b) = pos (a + b)
advance a (negsuc b) = if leb (b + 1) a then pos (a - (b + 1)) else negsuc (b - a)

-- The int that a value wraps to: -(n + 1) has the inverted bits of n.
abbrev pub to_int : ℤ → ℤ
to_int (pos n) = wrap_int n
to_int (negsuc n) = elim (wrap_int n) [ pos k ↦ negsuc k | negsuc k ↦ pos k ]

-- `(size_t)y * stride`.
abbrev pub row_start : ℕ → ℤ → ℕ
row_start stride y = mul_size (to_size y) stride

-- The byte at an offset from `data`, 0 where the block has none, which C does not define.
abbrev pub byte_at : List ℕ → ℤ → ℕ
byte_at bytes (pos i) = get_or bytes i 0
byte_at bytes (negsuc i) = 0

-- A write before the block, which C does not define, is left out here.
abbrev pub set_at : List ℕ → ℤ → ℕ → List ℕ
set_at bytes (pos i) value = set bytes i value
set_at bytes (negsuc i) value = bytes

-- The offset of `[x * 3 + k]` in the row that starts at `row`. The index is an int.
abbrev pub at_index : ℕ → ℕ → ℕ → ℤ
at_index row x k = advance row (wrap_int (x * 3 + k))

-- What `cpu_grayscale` reads.
unfoldable pub pixel_at : Frame → ℕ → ℕ → Pixel
pixel_at f y x =
    let row = row_start f.stride (pos y) in
    record {
      red = byte_at (bytes_of f) (at_index row x 0);
      green = byte_at (bytes_of f) (at_index row x 1);
      blue = byte_at (bytes_of f) (at_index row x 2);
    }

unfoldable pub put_pixel : List ℕ → ℕ → ℕ → Pixel → List ℕ
put_pixel bytes row x p =
    set_at (set_at (set_at bytes (at_index row x 0) p.red) (at_index row x 1) p.green)
      (at_index row x 2) p.blue

-- The loop over `x`, of the row that starts at `row`.
unfoldable pub write_row : (ℕ → Pixel) → ℕ → ℕ → List ℕ → List ℕ
unfolding put_pixel
write_row value row zero bytes = bytes
write_row value row (suc x) bytes = put_pixel (write_row value row x bytes) row x (value x)

-- The loop over `y`.
unfoldable pub write_rows : (ℕ → ℕ → Pixel) → ℕ → ℕ → ℕ → List ℕ → List ℕ
unfolding write_row
write_rows value stride width zero bytes = bytes
write_rows value stride width (suc y) bytes =
    write_row (value y) (row_start stride (pos y)) width (write_rows value stride width y bytes)

-- Every pixel of the output gets its value.
abbrev pub with_pixels : (ℕ → ℕ → Pixel) → Frame → Frame → Frame
with_pixels value input output =
    with_bytes output
      (write_rows value output.stride (pos_part input.width) (pos_part input.height))

-- The operations on double that `cpu_grayscale` uses, and its cast to unsigned char.
pub record GrayOps (D : Type 0) : Type 0 where
  pub thousandths : ℕ → D
  pub of_byte : ℕ → D
  pub add : D → D → D
  pub mul : D → D → D
  pub to_byte : D → ℕ

module _ {D : Type 0} (c : GrayOps D) where
  unfoldable pub gray_pixel : Pixel → Pixel
  gray_pixel p =
      let gray = c.to_byte (
        c.add
          (c.add
            (c.add (c.mul (c.thousandths 299) (c.of_byte p.red))
              (c.mul (c.thousandths 587) (c.of_byte p.green)))
            (c.mul (c.thousandths 114) (c.of_byte p.blue)))
          (c.thousandths 500)) in
      record { red = gray; green = gray; blue = gray }

  unfoldable pub cpu_grayscale : Heap → Frame → Frame → Heap × Frame × ℤ
  unfolding ensure_rgb_output gray_pixel pixel_at write_rows
  cpu_grayscale h input output =
      let (h', ready, result) = ensure_rgb_output h input output in
      if not (eq_ℤ result success)
      then (h', ready, failure)
      else (h', with_pixels (λ y x. gray_pixel (pixel_at input y x)) input ready, success)

-- `i - half`, where no int overflows.
abbrev pub shifted : ℕ → ℕ → ℤ
shifted i half = if leb half i then pos (i - half) else negsuc (half - (i + 1))

-- The coordinate that the kernel reads of `count` rows or columns: its offset is `i - kernel / 2`, and
-- the sum with the pixel's coordinate is an int.
unfoldable pub neighbour : ℕ → ℕ → ℕ → ℕ → ℤ
neighbour kernel count at i =
    clamp_int (to_int (shifted (at + i) (kernel / 2))) (pos 0) (pos (count - 1))

abbrev pub three_times : ℤ → ℤ
three_times (pos n) = pos (n * 3)
three_times (negsuc n) = negsuc (n * 3 + 2)

-- `data + (size_t)sy * stride + sx * 3`. The last product is an int.
unfoldable pub pixel_offset : ℕ → ℤ → ℤ → ℤ
pixel_offset stride sy sx = advance (row_start stride sy) (to_int (three_times sx))

-- `pixel[k]`.
unfoldable pub colour_at : Frame → ℕ → ℤ → ℤ → ℕ
unfolding pixel_offset
colour_at f k sy sx = byte_at (bytes_of f) (advance k (pixel_offset f.stride sy sx))

-- A loop of `n` rounds that changes an accumulator.
unfoldable pub accumulate : (ℕ → ℤ → ℤ) → ℕ → ℤ → ℤ
accumulate step zero acc = acc
accumulate step (suc n) acc = step n (accumulate step n acc)

-- The loops over `ky` and `kx`, for one colour. The sum is an int.
unfoldable pub window_sum : (ℕ → ℕ → ℕ) → ℕ → ℤ
unfolding accumulate
window_sum colour kernel =
    accumulate (λ ky. accumulate (λ kx acc. to_int (advance (colour ky kx) acc)) kernel) kernel
      (pos 0)

abbrev pub negated : ℕ → ℤ
negated zero = pos 0
negated (suc n) = negsuc n

-- The quotient of ints, rounded towards 0.
unfoldable pub div_int : ℤ → ℤ → ℤ
div_int (pos a) (pos b) = pos (a / b)
div_int (pos a) (negsuc b) = negated (a / suc b)
div_int (negsuc a) (pos b) = negated (suc a / b)
div_int (negsuc a) (negsuc b) = pos (suc a / suc b)

-- The cast to unsigned char.
abbrev pub to_byte : ℤ → ℕ
to_byte (pos n) = n % 256
to_byte (negsuc n) = 255 - n % 256

-- The average, cast to unsigned char. The area is an int.
unfoldable pub window_average : (ℕ → ℕ → ℕ) → ℕ → ℕ
unfolding window_sum div_int
window_average colour kernel =
    to_byte (div_int (window_sum colour kernel) (wrap_int (kernel * kernel)))

unfoldable pub blur_pixel : Frame → ℕ → ℕ → ℕ → Pixel
unfolding window_average neighbour colour_at
blur_pixel input kernel y x =
    let average = λ (k : ℕ).
      window_average
        (λ ky kx.
          colour_at input k (neighbour kernel (pos_part input.height) y ky)
            (neighbour kernel (pos_part input.width) x kx))
        kernel in
    record { red = average 0; green = average 1; blue = average 2 }

unfoldable pub cpu_box_blur : Heap → Frame → Frame → ℤ → Heap × Frame × ℤ
unfolding ensure_rgb_output blur_pixel write_rows
cpu_box_blur h input output kernel_size =
    let (h', ready, result) = ensure_rgb_output h input output in
    if not (eq_ℤ result success)
    then (h', ready, failure)
    else if not (is_pos kernel_size)
    then (h', ready, failure)
    else (h', with_pixels (blur_pixel input (pos_part kernel_size)) input ready, success)

abbrev pub cpu_blur3x3 : Heap → Frame → Frame → Heap × Frame × ℤ
cpu_blur3x3 h input output = cpu_box_blur h input output (pos 3)

abbrev pub cpu_blur5x5 : Heap → Frame → Frame → Heap × Frame × ℤ
cpu_blur5x5 h input output = cpu_box_blur h input output (pos 5)

abbrev pub cpu_blur9x9 : Heap → Frame → Frame → Heap × Frame × ℤ
cpu_blur9x9 h input output = cpu_box_blur h input output (pos 9)

abbrev pub cpu_blur13x13 : Heap → Frame → Frame → Heap × Frame × ℤ
cpu_blur13x13 h input output = cpu_box_blur h input output (pos 13)
