-- ===== src/DetectionResult/Tests.antt =====
-- Runs of the functions of inference/detection_result.c on a result of two places.
use video_compute_pipeline.Prelude.{ℕ, refl, some, [], ◌∷◌, arith}
use video_compute_pipeline.DetectionResult.{DetectionResult, add}
use video_compute_pipeline.DetectionResult.Grow.{IsResult, AddCase, add_lem}

abbrev one_detection : DetectionResult ℕ
one_detection = record {
  items = some (record { address = 1; contents = 7 ∷ 0 ∷ [] });
  count = 1;
  capacity = 2;
}

one_detection-IsResult : IsResult one_detection
one_detection-IsResult = record { room = refl; fits = omega arith; small = omega arith }

add_lem_example : AddCase one_detection 8 (add one_detection 8)
add_lem_example = add_lem one_detection 8 one_detection-IsResult
