-- ===== src/Frame/Valid.antt =====
-- What a frame that `frame_alloc` filled looks like, and that the other functions keep it so.
use video_compute_pipeline.Prelude.{
  ◌∷◌, ℕ, suc, ◌≡◌, ◌≢◌, refl, true, false, ◌⊎◌, inl, inr, some, arith, length, replicate,
  length-replicate, Bool-cases, Option-cases, ℕ_discrete, Bool,
}
use video_compute_pipeline.Prelude.Int.{ℤ, pos, is_pos, eq_ℤ, eq_ℤ_iff, success, failure}
use video_compute_pipeline.Memory.{Heap, Block, calloc}
use video_compute_pipeline.Frame.Size.{nonpos_width, nonpos_height}
use video_compute_pipeline.Frame.{
  FrameFormat, rgb24, gray8, nv12, Frame, init, channels_for_format, set_planes, calculate_stride,
  calculate_size, free, alloc, is_valid, fill_in,
}

-- The frame owns a block of `size` bytes, and its layout is that of its dimensions and format.
pub record IsFilled (f : Frame) : Type 0 where
  pub wide : is_pos f.width ≡ true
  pub high : is_pos f.height ≡ true
  pub layout_channels : f.channels ≡ channels_for_format f.format
  pub layout_stride : f.stride ≡ calculate_stride f.width f.format
  pub layout_size : f.size ≡ calculate_size f.width f.height f.format
  pub some_stride : f.stride ≢ 0
  pub some_size : f.size ≢ 0
  pub block : Block ℕ
  pub owns : f.pixels ≡ some block
  pub room : length block.contents ≡ f.size
  pub planes_set : set_planes f ≡ f

set_planes_valid :
    (f : Frame) (b : Block ℕ)
    → is_pos f.width ≡ true
    → is_pos f.height ≡ true
    → f.channels ≡ channels_for_format f.format
    → f.stride ≢ 0
    → f.size ≢ 0
    → f.pixels ≡ some b
    → is_valid (set_planes f) ≡ true
unfolding is_valid set_planes
set_planes_valid f b w h c s z p =
    ground (arith, (eq_ℤ_iff f.channels (channels_for_format f.format)))

-- A filled frame passes the test that every consumer makes.
pub is_valid-IsFilled : (f : Frame) → IsFilled f → is_valid f ≡ true
is_valid-IsFilled f v =
    rw v.planes_set at
      (set_planes_valid f v.block v.wide v.high v.layout_channels v.some_stride v.some_size v.owns)

pub set_planes_idem : (f : Frame) → set_planes (set_planes f) ≡ set_planes f
unfolding set_planes
set_planes_idem f = elim (Option-cases f.pixels) [
  | inl e ↦ rw (e, set_planes)
  | inr (b, e) ↦ rw (e, set_planes)
]

no_stride :
    (w ht : ℤ) (fmt : FrameFormat) → calculate_stride w fmt ≡ 0 → calculate_size w ht fmt ≡ 0
unfolding calculate_size
no_stride w ht fmt e = ground arith

channels_ne_zero : (fmt : FrameFormat) → eq_ℤ (channels_for_format fmt) (pos 0) ≡ false
unfolding channels_for_format
channels_ne_zero rgb24 = refl
channels_ne_zero gray8 = refl
channels_ne_zero nv12 = refl

alloc_no_size :
    (h : Heap) (f : Frame) (w ht : ℤ) (fmt : FrameFormat)
    → calculate_size w ht fmt ≡ 0
    → alloc h f w ht fmt ≡ (h, f, failure)
unfolding alloc
alloc_no_size h f w ht fmt e = ground arith

-- Where the size is not 0, no guard of `frame_alloc` stops it.
record IsSized (w ht : ℤ) (fmt : FrameFormat) : Type 0 where
  wide : is_pos w ≡ true
  high : is_pos ht ≡ true
  some_stride : calculate_stride w fmt ≢ 0
  some_size : calculate_size w ht fmt ≢ 0

sized : (w ht : ℤ) (fmt : FrameFormat) → calculate_size w ht fmt ≢ 0 → IsSized w ht fmt
sized w ht fmt n = record {
  wide = not-false→true (is_pos w) (λ e. n (nonpos_width fmt w ht e));
  high = not-false→true (is_pos ht) (λ e. n (nonpos_height fmt w ht e));
  some_stride = λ e. n (no_stride w ht fmt e);
  some_size = n;
}
  where
    not-false→true : (b : Bool) → (b ≢ false) → b ≡ true
    not-false→true true k = refl
    not-false→true false k = absurd (k refl)

alloc_sized :
    (h : Heap) (f : Frame) (w ht : ℤ) (fmt : FrameFormat)
    → IsSized w ht fmt
    → alloc h f w ht fmt
      ≡ (let (h', b) = calloc h (replicate (calculate_size w ht fmt) 0) in fill_in h' f w ht fmt b)
unfolding alloc
alloc_sized h f w ht fmt v = ground (arith, channels_ne_zero fmt)

-- A call of `frame_alloc` that succeeds: the frame is zeroed, of the dimensions and the format that
-- were asked for, in a new block, and what it held before is freed.
pub record Allocated (h : Heap) (f : Frame) (w ht : ℤ) (fmt : FrameFormat) (out : Heap × Frame × ℤ)
    : Type 0 where
  pub result : out.2 ≡ success
  pub filled : IsFilled out.1
  pub width : out.1.width ≡ w
  pub height : out.1.height ≡ ht
  pub format : out.1.format ≡ fmt
  pub index : out.1.index ≡ pos 0
  pub pixels :
      out.1.pixels
      ≡ some (record { address = h.calls; contents = replicate (calculate_size w ht fmt) 0 })
  pub calls : out.0.calls ≡ suc h.calls
  pub granted : out.0.granted ≡ h.calls ∷ h.granted
  pub freed : out.0.freed ≡ (free h f).0.freed

-- A call that fails: the frame and every block are as they were, and there is a reason.
pub record Refused (h : Heap) (f : Frame) (w ht : ℤ) (fmt : FrameFormat) (out : Heap × Frame × ℤ)
    : Type 0 where
  pub result : out.2 ≡ failure
  pub frame : out.1 ≡ f
  pub granted : out.0.granted ≡ h.granted
  pub freed : out.0.freed ≡ h.freed
  pub reason : (calculate_size w ht fmt ≡ 0) ⊎ (h.grants h.calls ≡ false)

new_frame : ℤ → ℤ → FrameFormat → Block ℕ → Frame
new_frame w ht fmt b = record init {
  width = w;
  height = ht;
  channels = channels_for_format fmt;
  format = fmt;
  stride = calculate_stride w fmt;
  size = calculate_size w ht fmt;
  pixels = some b;
}

new_frame-IsFilled :
    (w ht : ℤ) (fmt : FrameFormat) (b : Block ℕ)
    → IsSized w ht fmt
    → length b.contents ≡ calculate_size w ht fmt
    → IsFilled (set_planes (new_frame w ht fmt b))
unfolding set_planes new_frame
new_frame-IsFilled w ht fmt b v room = record {
  wide = v.wide;
  high = v.high;
  layout_channels = refl;
  layout_stride = refl;
  layout_size = refl;
  some_stride = v.some_stride;
  some_size = v.some_size;
  block = b;
  owns = refl;
  room = room;
  planes_set = refl;
}

fill_in_cases :
    (h : Heap) (f : Frame) (w ht : ℤ) (fmt : FrameFormat)
    → IsSized w ht fmt
    → let (h', b) = calloc {A = ℕ} h (replicate (calculate_size w ht fmt) 0) in
      Refused h f w ht fmt (fill_in h' f w ht fmt b)
      ⊎ Allocated h f w ht fmt (fill_in h' f w ht fmt b)
unfolding calloc fill_in set_planes new_frame
fill_in_cases h f w ht fmt v = elim (Bool-cases (h.grants h.calls)) [
  | inr e ↦
      rw e
        (inl (record { result = refl; frame = refl; granted = refl; freed = refl; reason = inr e }))
  | inl e ↦ rw e (
      inr (record {
        result = refl;
        filled = new_frame-IsFilled w ht fmt _ v (length-replicate (calculate_size w ht fmt) 0);
        width = refl;
        height = refl;
        format = refl;
        index = refl;
        pixels = refl;
        calls = refl;
        granted = refl;
        freed = refl;
      }))
]

pub alloc_lem :
    (h : Heap) (f : Frame) (w ht : ℤ) (fmt : FrameFormat)
    → Refused h f w ht fmt (alloc h f w ht fmt) ⊎ Allocated h f w ht fmt (alloc h f w ht fmt)
alloc_lem h f w ht fmt = elim (ℕ_discrete (calculate_size w ht fmt) 0) [
  | yes e ↦
      rw (alloc_no_size h f w ht fmt e)
        (inl (record { result = refl; frame = refl; granted = refl; freed = refl; reason = inl e }))
  | no n ↦
      let v = sized w ht fmt n in rw (alloc_sized h f w ht fmt v) (fill_in_cases h f w ht fmt v)
]
