-- ===== src/Frame.antt =====
-- core/frame.h and core/frame.c: the layout, allocation and ownership of CPU frames.
-- A function that writes through `Frame *` returns the new frame; one that allocates or frees takes
-- the heap and returns it. The objects are there: a null `Frame *` has no counterpart.
pub mod Ledger
pub mod Size
pub mod Transfer
pub mod Valid
pub mod Balance
pub mod Tests
use video_compute_pipeline.Prelude.{
  ℕ, ◌+◌, ◌*◌, ◌/◌, ◌%◌, Bool, true, false, not, ◌&&◌, ◌||◌, Option, none, some, replicate, ltb,
  ◌==◌, if◌then◌else◌,
}
use video_compute_pipeline.Prelude.Int.{ℤ, pos, negsuc, pos_part, is_pos, eq_ℤ, success, failure}
use video_compute_pipeline.Memory.{
  Heap, Block, calloc, free as free_block, memcpy, Pointer, pointer_eq, start, is_some, size_max,
  mul_size, add_size, to_size,
}

pub data FrameFormat : Type 0 where
  rgb24 gray8 nv12 : FrameFormat

abbrev pub is_nv12 : FrameFormat → Bool
is_nv12 rgb24 = false
is_nv12 gray8 = false
is_nv12 nv12 = true

-- An array of four, for `planes` and `linesize`.
pub record Four (A : Type 0) : Type 0 where
  pub at0 : A
  pub at1 : A
  pub at2 : A
  pub at3 : A

abbrev pub four_of : {A : Type 0} → A → Four A
four_of a = record { at0 = a; at1 = a; at2 = a; at3 = a }

pub record Frame : Type 0 where
  pub index : ℤ
  pub width : ℤ
  pub height : ℤ
  pub channels : ℤ
  pub format : FrameFormat
  pub stride : ℕ
  pub size : ℕ
  pub pixels : Option (Block ℕ)
  pub planes : Four (Option Pointer)
  pub linesize : Four ℕ

-- frame_init: the empty frame.
abbrev pub init : Frame
init = record {
  index = pos 0;
  width = pos 0;
  height = pos 0;
  channels = pos 0;
  format = rgb24;
  stride = 0;
  size = 0;
  pixels = none;
  planes = four_of none;
  linesize = four_of 0;
}

unfoldable pub channels_for_format : FrameFormat → ℤ
channels_for_format rgb24 = pos 3
channels_for_format gray8 = pos 1
channels_for_format nv12 = pos 1

-- The planes of a frame whose pixels stand in the given block.
set_planes_in : Frame → Option (Block ℕ) → Frame
set_planes_in f none = record f { planes = four_of none; linesize = four_of 0 }
set_planes_in f (some b) = record f {
  planes = record (four_of none) {
    at0 = start (some b);
    at1 =
        (if is_nv12 f.format
          then some (record { block = b.address; offset = mul_size f.stride (to_size f.height) })
          else none);
  };
  linesize = record (four_of 0) {
    at0 = f.stride;
    at1 = (if is_nv12 f.format then f.stride else 0);
  };
}

unfoldable pub set_planes : Frame → Frame
unfolding set_planes_in
set_planes f = set_planes_in f f.pixels

-- A width of `n` bytes or more than SIZE_MAX / channels has no stride.
unfoldable pub calculate_stride : ℤ → FrameFormat → ℕ
unfolding channels_for_format
calculate_stride width nv12 = if is_pos width && (pos_part width % 2 == 0) then to_size width else 0
calculate_stride width format =
    let channels = channels_for_format format in
    if not (is_pos width) || not (is_pos channels)
    then 0
    else if ltb (size_max / to_size channels) (to_size width)
    then 0
    else mul_size (to_size width) (to_size channels)

-- What `frame_calculate_size` returns once the stride is known to fit.
size_of_stride : ℕ → ℤ → FrameFormat → ℕ
size_of_stride stride height nv12 =
    let y_size = mul_size stride (to_size height) in
    if not (pos_part height % 2 == 0)
    then 0
    else if ltb (size_max / 3) y_size
    then 0
    else add_size y_size (y_size / 2)
size_of_stride stride height format = mul_size stride (to_size height)

unfoldable pub calculate_size : ℤ → ℤ → FrameFormat → ℕ
unfolding size_of_stride calculate_stride
calculate_size width height format =
    let stride = calculate_stride width format in
    if not (is_pos height)
    then 0
    else if stride == 0 || ltb (size_max / stride) (to_size height)
    then 0
    else size_of_stride stride height format

-- frame_free: the frame becomes the empty one.
abbrev pub free : Heap → Frame → Heap × Frame
free h f = (free_block h f.pixels, init)

-- `frame_alloc` once the block is there or not.
unfoldable pub fill_in : Heap → Frame → ℤ → ℤ → FrameFormat → Option (Block ℕ) → Heap × Frame × ℤ
fill_in h f width height format none = (h, f, failure)
fill_in h f width height format (some b) = (
  (free h f).0,
  set_planes (record (free h f).1 {
    width = width;
    height = height;
    channels = channels_for_format format;
    format = format;
    stride = calculate_stride width format;
    size = calculate_size width height format;
    pixels = some b;
  }),
  success,
)

unfoldable pub alloc : Heap → Frame → ℤ → ℤ → FrameFormat → Heap × Frame × ℤ
unfolding fill_in calloc
alloc h f width height format =
    let stride = calculate_stride width format in
    let size = calculate_size width height format in
    if not (is_pos width) || not (is_pos height)
    then (h, f, failure)
    else if eq_ℤ (channels_for_format format) (pos 0)
    then (h, f, failure)
    else if stride == 0 || size == 0
    then (h, f, failure)
    else let (h', b) = calloc h (replicate size 0) in fill_in h' f width height format b

-- `planes[1] != NULL && linesize[1] == stride`.
abbrev has_chroma : Frame → Bool
has_chroma f = is_some f.planes.at1 && (f.linesize.at1 == f.stride)

unfoldable pub is_valid : Frame → Bool
unfolding channels_for_format
is_valid f =
    is_pos f.width
    && (is_pos f.height
        && (eq_ℤ f.channels (channels_for_format f.format)
            && (ltb 0 f.stride
                && (ltb 0 f.size
                    && (is_some f.pixels
                        && (pointer_eq f.planes.at0 (start f.pixels)
                            && ((f.linesize.at0 == f.stride)
                                && (not (is_nv12 f.format) || has_chroma f))))))))

copy_pixels : ℕ → Option (Block ℕ) → Option (Block ℕ) → Option (Block ℕ)
copy_pixels n (some src) (some dst) =
    some (record dst { contents = memcpy n src.contents dst.contents })
copy_pixels n src dst = dst

-- The tail of `frame_copy`, once `frame_alloc` has made the local frame `copy` or failed.
copy_into : Heap → Frame → Frame → Frame → ℤ → Heap × Frame × ℤ
unfolding set_planes copy_pixels
copy_into h dst src copy result = if not (eq_ℤ result success) then (h, dst, failure) else (
  (free h dst).0,
  set_planes
      (record copy { index = src.index; pixels = copy_pixels src.size src.pixels copy.pixels }),
  success,
)

unfoldable pub copy : Heap → Frame → Frame → Heap × Frame × ℤ
unfolding copy_into alloc is_valid
copy h dst src =
    if not (is_valid src)
    then (h, dst, failure)
    else let (h', c, result) = alloc h init src.width src.height src.format in
      copy_into h' dst src c result

-- `aliased` says that `dst` and `src` are one object.
unfoldable pub move : Bool → Heap → Frame → Frame → Heap × Frame × Frame × ℤ
unfolding set_planes
move aliased h dst src =
    if aliased then (h, dst, src, success) else ((free h dst).0, set_planes src, init, success)
