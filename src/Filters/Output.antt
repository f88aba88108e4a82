-- ===== src/Filters/Output.antt =====
-- cpu/cpu_filters.c: what ensure_rgb_output makes of the output frame.
use video_compute_pipeline.Prelude.{
  ℕ, zero, suc, ◌*◌, ◌^◌, ◌<◌, ◌≡◌, refl, sym, ap₂, ◌∙◌, ◌⊎◌, inl, inr, Bool, true, false, not,
  ◌||◌, some, length, if_cases, if◌then◌else◌, arith, lt→ltb,
}
use video_compute_pipeline.Prelude.Int.{ℤ, pos, eq_ℤ, eq_ℤ_iff, success, failure}
use video_compute_pipeline.Memory.{Heap, Block}
use video_compute_pipeline.Frame.{
  Frame, FrameFormat, rgb24, gray8, nv12, is_valid, calculate_stride, calculate_size,
}
use video_compute_pipeline.Frame.Size.{stride_rgb24, image_size}
use video_compute_pipeline.Frame.Valid.{IsFilled, Refused, Allocated, alloc_lem, is_valid-IsFilled}
use video_compute_pipeline.Filters.{is_rgb, ensure_rgb_output}

-- An RGB image of the input's dimensions and with its index, in a block that has room for it.
pub record IsReady (input output : Frame) (w h : ℕ) : Type 0 where
  pub width : output.width ≡ input.width
  pub height : output.height ≡ input.height
  pub format : output.format ≡ rgb24
  pub index : output.index ≡ input.index
  pub stride : output.stride ≡ 3 * w
  pub block : Block ℕ
  pub owns : output.pixels ≡ some block
  pub room : length block.contents ≡ h * (3 * w)

ready :
    (input f : Frame) (w h : ℕ)
    → input.width ≡ pos w
    → input.height ≡ pos h
    → 0 < w
    → w < 2 ^ 31
    → 0 < h
    → h < 2 ^ 31
    → IsFilled f
    → f.width ≡ input.width
    → f.height ≡ input.height
    → f.format ≡ rgb24
    → IsReady input (record f { index = input.index }) w h
ready input f w h ew eh pw bw ph bh v fw fh ff = record {
  width = fw;
  height = fh;
  format = ff;
  index = refl;
  stride = v.layout_stride ∙ ap₂ calculate_stride (fw ∙ ew) ff ∙ stride_rgb24 w pw bw;
  block = v.block;
  owns = v.owns;
  room =
      v.room
      ∙ v.layout_size
      ∙ sized_as f.width f.height f.format (fw ∙ ew) (fh ∙ eh) ff
      ∙ image_size rgb24 (pos w) (pos h) (bw, omega arith) (bh, omega arith)
          (lt→ltb 0 w pw, lt→ltb 0 h ph, tt)
      ∙ omega arith;
}
  where
    sized_as :
        (fw fh : ℤ) (ff : FrameFormat)
        → fw ≡ pos w
        → fh ≡ pos h
        → ff ≡ rgb24
        → calculate_size fw fh ff ≡ calculate_size (pos w) (pos h) rgb24
    sized_as fw fh ff a b c = rw (a, b, c) refl

positive : (w h : ℕ) → 0 < w → 0 < h → ¬ (3 * w * h ≡ 0)
positive zero h a b e = omega (arith, a)
positive (suc w) zero a b e = omega (arith, b)
positive (suc w) (suc h) a b e = omega (arith, e)

rgb_is : (f : FrameFormat) → not (is_rgb f) ≡ false → f ≡ rgb24
rgb_is rgb24 e = refl
rgb_is gray8 e = cc
rgb_is nv12 e = cc

-- A frame that the caller may pass: a filled one, or one that does not count as valid.
abbrev pub IsUsable : Frame → Type 0
IsUsable f = (is_valid f ≡ false) ⊎ IsFilled f

-- Why `ensure_rgb_output` may fail on an image: calloc has refused the block.
pub record NoRoom (h : Heap) (output : Frame) (out : Heap × Frame × ℤ) : Type 0 where
  pub result : out.2 ≡ failure
  pub frame : out.1 ≡ output
  pub refused : h.grants h.calls ≡ false

all_hold :
    (a b c d : Bool)
    → (not a || (not b || (not c || not d))) ≡ false
    → (a ≡ true) × (b ≡ true) × (c ≡ true) × (not d ≡ false)
all_hold true true true d e = (refl, refl, refl, e)
all_hold false b c d e = cc
all_hold true false c d e = cc
all_hold true true false d e = cc

filled_of : (f : Frame) → IsUsable f → is_valid f ≡ true → IsFilled f
filled_of f (inl invalid) e = cc
filled_of f (inr v) e = v

module _ (h : Heap) (input output : Frame) (w ht : ℕ) where
  abbrev pub Ensured : Heap × Frame × ℤ → Type 0
  Ensured out = NoRoom h output out ⊎ ((out.2 ≡ success) × IsReady input out.1 w ht)

  made_lem :
      (out : Heap × Frame × ℤ)
      → (Refused h output input.width input.height rgb24 out
          ⊎ Allocated h output input.width input.height rgb24 out)
      → input.width ≡ pos w
      → input.height ≡ pos ht
      → 0 < w
      → w < 2 ^ 31
      → 0 < ht
      → ht < 2 ^ 31
      → Ensured (
          if not (eq_ℤ out.2 success)
          then (out.0, out.1, failure)
          else (out.0, record out.1 { index = input.index }, success))
  made_lem out (inl r) ew eh pw bw ph bh =
      rw (r.result)
        (inl (record { result = refl; frame = r.frame; refused = refused_only r.reason }))
    where
      has_size : ¬ (calculate_size (pos w) (pos ht) rgb24 ≡ 0)
      has_size e = positive w ht pw ph (
          sym (
            image_size rgb24 (pos w) (pos ht) (bw, omega arith) (bh, omega arith)
              (lt→ltb 0 w pw, lt→ltb 0 ht ph, tt))
          ∙ e)

      refused_only :
          (calculate_size input.width input.height rgb24 ≡ 0) ⊎ (h.grants h.calls ≡ false)
          → h.grants h.calls ≡ false
      refused_only (inl small) = absurd (has_size (rw (ew, eh) at small))
      refused_only (inr e) = e
  made_lem out (inr a) ew eh pw bw ph bh =
      rw (a.result)
        (inr (refl, ready input out.1 w ht ew eh pw bw ph bh a.filled a.width a.height a.format))

  -- For an RGB image as the input and an output that the caller may pass, `ensure_rgb_output` leaves an
  -- RGB image of the input's dimensions, or fails because calloc refuses its block.
  pub ensure_rgb_output_lem :
      IsFilled input
      → input.format ≡ rgb24
      → input.width ≡ pos w
      → input.height ≡ pos ht
      → 0 < w
      → w < 2 ^ 31
      → 0 < ht
      → ht < 2 ^ 31
      → IsUsable output
      → Ensured (ensure_rgb_output h input output)
  unfolding ensure_rgb_output
  ensure_rgb_output_lem v rgb ew eh pw bw ph bh usable =
      if_cases Ensured (not (is_valid input) || not (is_rgb input.format))
        (λ e. absurd (no_guard e))
        (λ _.
          if_cases Ensured
            (not (is_valid output)
              || (not (eq_ℤ output.width input.width)
                  || (not (eq_ℤ output.height input.height) || not (is_rgb output.format))))
            (λ _. made_lem _ (alloc_lem h output input.width input.height rgb24) ew eh pw bw ph bh)
            (λ e.
              let t = all_hold _ _ _ _ e in
              inr (
                refl,
                ready input output w ht ew eh pw bw ph bh (filled_of output usable t.0)
                    ((eq_ℤ_iff _ _).0 t.1) ((eq_ℤ_iff _ _).0 t.2) (rgb_is output.format t.3),
              )))
    where
      no_guard : ¬ ((not (is_valid input) || not (is_rgb input.format)) ≡ true)
      no_guard e = cc (rw (is_valid-IsFilled input v, rgb) at e)
