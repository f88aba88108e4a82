-- ===== src/ExecutionPlan/Bytes.antt =====
-- pipeline/video_profile.c: the bytes of a frame.
use video_compute_pipeline.Prelude.{
  ℕ, zero, suc, ◌*◌, ◌^◌, ◌≤◌, ◌<◌, ◌≡◌, refl, sym, ◌∙◌, Bool, true, some, ltb, lt→ltb, arith,
}
use video_compute_pipeline.Prelude.Int.{pos, pos_part}
use video_compute_pipeline.Frame.{FrameFormat, rgb24, gray8, nv12, calculate_size}
use video_compute_pipeline.Frame.Size.{Admits, image_bytes, image_size, product_bound}
use video_compute_pipeline.ExecutionPlan.Profile.{
  VideoInfo, VideoProfile, frame_bytes_for_format, video_profile_from_info,
}

exact :
    (w h : ℕ) (f : FrameFormat)
    → w < 2 ^ 31
    → h < 2 ^ 31
    → frame_bytes_for_format w h f ≡ image_bytes f w h
unfolding frame_bytes_for_format
exact w h rgb24 a b = omega (arith, product_bound w h a b)
exact w h gray8 a b = omega (arith, product_bound w h a b)
exact w h nv12 a b = omega (arith, product_bound w h a b)

area_positive : (w h : ℕ) → 1 ≤ w → 1 ≤ h → 1 ≤ w * h
area_positive zero h a b = omega (arith, a)
area_positive (suc w) zero a b = omega (arith, b)
area_positive (suc w) (suc h) a b = omega arith

bytes_positive : (w h : ℕ) (f : FrameFormat) → 1 ≤ w → 1 ≤ h → 1 ≤ image_bytes f w h
bytes_positive w h rgb24 a b = omega (arith, area_positive w h a b)
bytes_positive w h gray8 a b = area_positive w h a b
bytes_positive w h nv12 a b = omega (arith, area_positive w h a b)

-- For a video whose sides are positive ints, both even for NV12, `video_profile_from_info` succeeds and
-- no product overflows: the frame has as many bytes as an image of its format takes, which is also what
-- `frame_calculate_size` gives for it.
pub video_profile_from_info_lem :
    {D : Type 0} (info : VideoInfo D) (f : FrameFormat) (upload download : Bool) (w h : ℕ)
    → info.width ≡ pos w
    → info.height ≡ pos h
    → 1 ≤ w
    → 1 ≤ h
    → w < 2 ^ 31
    → h < 2 ^ 31
    → Admits f w h
    → (profile : VideoProfile D) × (video_profile_from_info info f upload download ≡ some profile)
      × (profile.frame_bytes ≡ image_bytes f w h)
      × (profile.frame_bytes ≡ calculate_size info.width info.height f)
unfolding video_profile_from_info
video_profile_from_info_lem info f upload download w h ew eh pw ph bw bh a = (
  record {
    width = info.width;
    height = info.height;
    fps = info.fps;
    total_frames = info.total_frames;
    duration_sec = info.duration_sec;
    working_format = f;
    frame_bytes = frame_bytes_for_format (pos_part info.width) (pos_part info.height) f;
    requires_raw_upload = upload;
    requires_raw_download = download;
  },
  rw (ew, eh, lt→ltb 0 w pw, lt→ltb 0 h ph, not_zero) refl,
  rw (ew, eh) (exact w h f bw bh),
  rw (ew, eh)
      (exact w h f bw bh
        ∙ sym (
            image_size f (pos w) (pos h) (bw, omega arith) (bh, omega arith)
              (lt→ltb 0 w pw, lt→ltb 0 h ph, a))),
)
  where
    not_zero : ltb 0 (frame_bytes_for_format w h f) ≡ true
    not_zero = rw (exact w h f bw bh) (lt→ltb 0 (image_bytes f w h) (bytes_positive w h f pw ph))
