-- ===== src/FrameBatch/CudaFrame.antt =====
-- gpu/cuda_frame.c and include/gpu/cuda_frame.h: the metadata of a frame in the GPU's memory. `R` is
-- the machine's double; a pointer to the device is a number if it is not null.
use video_compute_pipeline.Prelude.{ℕ, Bool, false, Option, none, ◌&&◌, ltb}
use video_compute_pipeline.Prelude.Int.{ℤ, pos, is_pos}
use video_compute_pipeline.Memory.{is_some}

pub record CudaNv12Frame (R : Type 0) : Type 0 where
  pub index : ℤ
  pub width : ℤ
  pub height : ℤ
  pub pts : ℤ
  pub dts : ℤ
  pub timestamp_ms : R
  pub d_y : Option ℕ
  pub d_uv : Option ℕ
  pub y_pitch : ℕ
  pub uv_pitch : ℕ
  pub cuda_stream : Option ℕ
  pub av_frame : Option ℕ
  pub hw_frames_ctx : Option ℕ
  pub owns_av_frame : Bool
  pub owns_cuda_memory : Bool

module _ {R : Type 0} (zero_double : R) where
  abbrev pub cuda_nv12_frame_init : CudaNv12Frame R
  cuda_nv12_frame_init = record {
    index = pos 0;
    width = pos 0;
    height = pos 0;
    pts = pos 0;
    dts = pos 0;
    timestamp_ms = zero_double;
    d_y = none;
    d_uv = none;
    y_pitch = 0;
    uv_pitch = 0;
    cuda_stream = none;
    av_frame = none;
    hw_frames_ctx = none;
    owns_av_frame = false;
    owns_cuda_memory = false;
  }

  abbrev pub cuda_nv12_frame_clear : CudaNv12Frame R → CudaNv12Frame R
  cuda_nv12_frame_clear f = cuda_nv12_frame_init

abbrev pub cuda_nv12_frame_is_valid : {R : Type 0} → CudaNv12Frame R → Bool
cuda_nv12_frame_is_valid f =
    is_pos f.width
    && (is_pos f.height
        && (is_some f.d_y && (is_some f.d_uv && (ltb 0 f.y_pitch && ltb 0 f.uv_pitch))))
