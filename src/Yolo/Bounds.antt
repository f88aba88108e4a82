-- ===== src/Yolo/Bounds.antt =====
-- inference/yolo_postprocess.cpp: the reads of the output stay in it. Two memories that agree on the
-- elements of the output give the same result.
use video_compute_pipeline.Prelude.{ℕ, ◌<◌, ◌≡◌}
use video_compute_pipeline.DetectionResult.{DetectionResult}

-- The two memories agree on the first `n` elements.
abbrev pub Agree : {F : Type 0} → ℕ → (ℕ → F) → (ℕ → F) → Type 0
Agree n f g = (i : ℕ) → i < n → f i ≡ g i
