-- ===== src/ExecutionPlan/Profile.antt =====
-- include/pipeline/hardware_profile.h, include/pipeline/video_profile.h, the capability of
-- include/inference/inference_engine.h and pipeline/video_profile.c. The operations on float and
-- double are a parameter.
use Prim.Native.String.{String}
use video_compute_pipeline.Prelude.{
  ℕ, ◌+◌, ◌-◌, ◌*◌, ◌/◌, ◌%◌, ◌^◌, ◌<◌, ◌≡◌, arith, Bool, not, ◌||◌, Option, none, some, ltb,
  if◌then◌else◌,
}
use video_compute_pipeline.Prelude.Int.{ℤ, pos, negsuc, pos_part, is_pos}
use video_compute_pipeline.Frame.{FrameFormat, rgb24, gray8, nv12}

-- The machine's float `F` and double `D`: the double of a number of hundredths, of a float, of an int
-- and of a size, the size of a double, the arithmetic and the comparisons.
pub record Doubles (F D : Type 0) : Type 0 where
  pub float_zero : F
  pub float_less : F → F → Bool
  pub widen : F → D
  pub hundredths : ℕ → D
  pub of_int : ℕ → D
  pub of_size : ℕ → D
  pub to_size : D → ℕ
  pub add : D → D → D
  pub mul : D → D → D
  pub div : D → D → D
  pub less : D → D → Bool
  pub less_eq : D → D → Bool

abbrev pub wrap : ℕ → ℕ
wrap n = n % 2 ^ 64

-- A product of sizes.
abbrev pub size_mul : ℕ → ℕ → ℕ
size_mul a b = wrap (a * b)

-- The int that a product of counts wraps to.
abbrev pub wrap_int : ℕ → ℤ
wrap_int n =
    if ltb (n % 2 ^ 32) (2 ^ 31) then pos (n % 2 ^ 32) else negsuc (2 ^ 32 - (n % 2 ^ 32 + 1))

pub wrap_int_lem : (n : ℕ) → n < 2 ^ 31 → wrap_int n ≡ pos n
wrap_int_lem n h = ground (arith, h)

pub record VideoInfo (D : Type 0) : Type 0 where
  pub width : ℤ
  pub height : ℤ
  pub fps : D
  pub total_frames : ℤ
  pub duration_sec : D

pub record VideoProfile (D : Type 0) : Type 0 where
  pub width : ℤ
  pub height : ℤ
  pub fps : D
  pub total_frames : ℤ
  pub duration_sec : D
  pub working_format : FrameFormat
  pub frame_bytes : ℕ
  pub requires_raw_upload : Bool
  pub requires_raw_download : Bool

pub record HardwareProfile (D : Type 0) : Type 0 where
  pub gpu_name : String
  pub cuda_device_id : ℤ
  pub compute_major : ℤ
  pub compute_minor : ℤ
  pub total_vram_bytes : ℕ
  pub free_vram_before_engine_bytes : ℕ
  pub free_vram_after_engine_bytes : ℕ
  pub estimated_engine_bytes : ℕ
  pub async_engine_count : ℤ
  pub concurrent_kernels : Bool
  pub can_map_host_memory : Bool
  pub unified_addressing : Bool
  pub h2d_pinned_gbps : D
  pub d2h_pinned_gbps : D
  pub cuda_available : Bool

pub record InferenceBatchCapability : Type 0 where
  pub min_batch_size : ℤ
  pub max_batch_size : ℤ
  pub supports_dynamic_batch : Bool
  pub supports_true_batching : Bool
  pub supports_parallel_contexts : Bool
  pub max_parallel_contexts : ℤ
  pub selected_context_count : ℤ
  pub input_width : ℤ
  pub input_height : ℤ
  pub input_bytes_per_frame : ℕ
  pub output_bytes_per_frame : ℕ
  pub description : String

unfoldable pub frame_bytes_for_format : ℕ → ℕ → FrameFormat → ℕ
frame_bytes_for_format width height nv12 = size_mul (size_mul width height) 3 / 2
frame_bytes_for_format width height gray8 = size_mul width height
frame_bytes_for_format width height rgb24 = size_mul (size_mul width height) 3

-- The profile, or none where the code returns -1.
unfoldable pub video_profile_from_info :
    {D : Type 0} → VideoInfo D → FrameFormat → Bool → Bool → Option (VideoProfile D)
unfolding frame_bytes_for_format
video_profile_from_info info working_format upload download =
    let bytes =
      frame_bytes_for_format (pos_part info.width) (pos_part info.height) working_format in
    if not (is_pos info.width) || not (is_pos info.height)
    then none
    else if ltb 0 bytes
    then some (record {
      width = info.width;
      height = info.height;
      fps = info.fps;
      total_frames = info.total_frames;
      duration_sec = info.duration_sec;
      working_format = working_format;
      frame_bytes = bytes;
      requires_raw_upload = upload;
      requires_raw_download = download;
    })
    else none
