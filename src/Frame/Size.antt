-- ===== src/Frame/Size.antt =====
-- The arithmetic of frame sizes: what `frame_calculate_stride` and `frame_calculate_size` return.
use native.Mathlib.Nat.{le-div_iff_mul-le, mul_comm, mul-le-mul}
use video_compute_pipeline.Prelude.{
  ℕ, ◌+◌, ◌*◌, ◌/◌, ◌%◌, ◌≤◌, ◌<◌, ◌≡◌, ◌^◌, true, false, arith, inl, inr, ℕ_discrete, ◌⊎◌, ltb→lt,
  Bool-cases,
}
use video_compute_pipeline.Prelude.Int.{ℤ, pos, negsuc, pos_part, is_pos, IsInt}
use video_compute_pipeline.Memory.{size_max}
use video_compute_pipeline.Frame.{FrameFormat, rgb24, gray8, nv12, calculate_stride, calculate_size}

-- The bytes that an image takes: three samples a pixel, one, or one and a half.
abbrev pub image_bytes : FrameFormat → ℕ → ℕ → ℕ
image_bytes rgb24 w h = 3 * w * h
image_bytes gray8 w h = w * h
image_bytes nv12 w h = w * h + w * h / 2

-- NV12 halves both dimensions, so they are even.
abbrev pub IsEven : ℕ → Type 0
IsEven n = n % 2 ≡ 0

abbrev pub Admits : FrameFormat → ℕ → ℕ → Type 0
Admits rgb24 w h = Unit
Admits gray8 w h = Unit
Admits nv12 w h = IsEven w × IsEven h

pub stride_rgb24 : (n : ℕ) → 0 < n → n < 2 ^ 31 → calculate_stride (pos n) rgb24 ≡ 3 * n
unfolding calculate_stride
stride_rgb24 n p h = ground arith

stride_gray8 : (n : ℕ) → 0 < n → n < 2 ^ 31 → calculate_stride (pos n) gray8 ≡ n
unfolding calculate_stride
stride_gray8 n p h = ground arith

stride_nv12 : (n : ℕ) → 0 < n → n < 2 ^ 31 → IsEven n → calculate_stride (pos n) nv12 ≡ n
unfolding calculate_stride
stride_nv12 n p h e = ground arith

pub product_bound : (w h : ℕ) → w < 2 ^ 31 → h < 2 ^ 31 → w * h ≤ 2 ^ 62
product_bound w h p q =
    omega
      (arith, mul-le-mul {n₁ = w} {m₁ = h} {n₂ = 2 ^ 31} {m₂ = 2 ^ 31} (omega arith) (omega arith))

le_div : (m s h : ℕ) → 0 < s → s * h ≤ m → h ≤ m / s
le_div m s h p q = (le-div_iff_mul-le p).1 (rw (mul_comm h s) q)

rgb24_lem :
    (w h : ℕ)
    → 0 < w
    → w < 2 ^ 31
    → 0 < h
    → h < 2 ^ 31
    → calculate_size (pos w) (pos h) rgb24 ≡ image_bytes rgb24 w h
unfolding calculate_size
rgb24_lem w h pw bw ph bh =
    ground (arith, stride_rgb24 w pw bw, product_bound w h bw bh, le_div size_max (3 * w) h)

gray8_lem :
    (w h : ℕ)
    → 0 < w
    → w < 2 ^ 31
    → 0 < h
    → h < 2 ^ 31
    → calculate_size (pos w) (pos h) gray8 ≡ image_bytes gray8 w h
unfolding calculate_size
gray8_lem w h pw bw ph bh =
    ground (arith, stride_gray8 w pw bw, product_bound w h bw bh, le_div size_max w h)

nv12_lem :
    (w h : ℕ)
    → 0 < w
    → w < 2 ^ 31
    → 0 < h
    → h < 2 ^ 31
    → IsEven w
    → IsEven h
    → calculate_size (pos w) (pos h) nv12 ≡ image_bytes nv12 w h
unfolding calculate_size
nv12_lem w h pw bw ph bh ew eh =
    ground (arith, stride_nv12 w pw bw ew, product_bound w h bw bh, le_div size_max w h)

nv12_odd : (w h : ℤ) → ¬ (IsEven (pos_part w) × IsEven (pos_part h)) → calculate_size w h nv12 ≡ 0
unfolding calculate_size
nv12_odd w h n = ground arith

pub nonpos_width : (f : FrameFormat) (w h : ℤ) → is_pos w ≡ false → calculate_size w h f ≡ 0
unfolding calculate_size calculate_stride
nonpos_width rgb24 w h n = ground arith
nonpos_width gray8 w h n = ground arith
nonpos_width nv12 w h n = ground arith

-- The dimensions of an image: both are positive, and the format admits them.
abbrev pub IsImage : FrameFormat → ℤ → ℤ → Type 0
IsImage f w h = (is_pos w ≡ true) × (is_pos h ≡ true) × Admits f (pos_part w) (pos_part h)

positive_size :
    (f : FrameFormat) (w h : ℕ)
    → 0 < w
    → w < 2 ^ 31
    → 0 < h
    → h < 2 ^ 31
    → Admits f w h
    → calculate_size (pos w) (pos h) f ≡ image_bytes f w h
positive_size rgb24 w h pw bw ph bh a = rgb24_lem w h pw bw ph bh
positive_size gray8 w h pw bw ph bh a = gray8_lem w h pw bw ph bh
positive_size nv12 w h pw bw ph bh a = nv12_lem w h pw bw ph bh a.0 a.1

pub nonpos_height : (f : FrameFormat) (w h : ℤ) → is_pos h ≡ false → calculate_size w h f ≡ 0
unfolding calculate_size
nonpos_height f w h n = rw n

pub image_size :
    (f : FrameFormat) (w h : ℤ)
    → IsInt w
    → IsInt h
    → IsImage f w h
    → calculate_size w h f ≡ image_bytes f (pos_part w) (pos_part h)
image_size f (pos w) (pos h) iw ih image =
    positive_size f w h (ltb→lt 0 w image.0) iw.0 (ltb→lt 0 h image.1) ih.0 image.2
image_size f (negsuc w) h iw ih image = cc (image.0)
image_size f (pos w) (negsuc h) iw ih image = cc (image.1)

not_admitted :
    (f : FrameFormat) (w h : ℤ) → ¬ Admits f (pos_part w) (pos_part h) → calculate_size w h f ≡ 0
not_admitted rgb24 w h n = absurd (n tt)
not_admitted gray8 w h n = absurd (n tt)
not_admitted nv12 w h n = nv12_odd w h n

no_image_size : (f : FrameFormat) (w h : ℤ) → ¬ IsImage f w h → calculate_size w h f ≡ 0
no_image_size f w h n = elim (Bool-cases (is_pos w)) [
  | inr e ↦ nonpos_width f w h e
  | inl pw ↦ elim (Bool-cases (is_pos h)) [
    | inr e ↦ nonpos_height f w h e
    | inl ph ↦ not_admitted f w h (λ a. n (pw, ph, a))
  ]
]

IsEven-dec : (n : ℕ) → Dec (IsEven n)
IsEven-dec n = ℕ_discrete (n % 2) 0

Admits-dec : (f : FrameFormat) (w h : ℕ) → Dec (Admits f w h)
Admits-dec rgb24 w h = yes tt
Admits-dec gray8 w h = yes tt
Admits-dec nv12 w h = elim (IsEven-dec w) [
  | no n ↦ no (λ e. n (e.0))
  | yes ew ↦ elim (IsEven-dec h) [ no n ↦ no (λ e. n (e.1)) | yes eh ↦ yes (ew, eh) ]
]

IsImage-dec : (f : FrameFormat) (w h : ℤ) → Dec (IsImage f w h)
IsImage-dec f w h = elim (Bool-cases (is_pos w)) [
  | inr e ↦ no (λ i. cc (e, i.0))
  | inl pw ↦ elim (Bool-cases (is_pos h)) [
    | inr e ↦ no (λ i. cc (e, i.1))
    | inl ph ↦ elim (Admits-dec f (pos_part w) (pos_part h)) [
      | yes a ↦ yes (pw, ph, a)
      | no n ↦ no (λ i. n (i.2))
    ]
  ]
]

-- For all `int` dimensions the size is computed without overflow: either they are those of an image
-- (both positive, and even for NV12) and it is the number of its bytes, or they are not and it is 0.
pub calculate_size_lem :
    (f : FrameFormat) (w h : ℤ)
    → IsInt w
    → IsInt h
    → (IsImage f w h × (calculate_size w h f ≡ image_bytes f (pos_part w) (pos_part h)))
      ⊎ (¬ IsImage f w h × (calculate_size w h f ≡ 0))
calculate_size_lem f w h iw ih = elim (IsImage-dec f w h) [
  | yes i ↦ inl (i, image_size f w h iw ih i)
  | no n ↦ inr (n, no_image_size f w h n)
]
