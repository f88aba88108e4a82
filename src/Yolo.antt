-- ===== src/Yolo.antt =====
-- inference/yolo_postprocess.cpp: the detections in the output of a YOLO model. `D` is the machine's
-- double; std::sort is a parameter. The output is the memory from its pointer on.
pub mod Scores
pub mod Keep
pub mod Valid
pub mod Outcome
pub mod Fits
pub mod Bounds
pub mod Tests
use video_compute_pipeline.Prelude.{
  ℕ, zero, suc, ◌+◌, not, ◌&&◌, ◌||◌, Bool, false, Option, none, some, List, [], ◌∷◌, ◌++◌, length,
  leb, ◌==◌, if◌then◌else◌,
}
use video_compute_pipeline.Prelude.Int.{ℤ, pos_part, is_pos, is_neg, eq_ℤ, success, failure}
use video_compute_pipeline.DetectionResult.{DetectionResult, clear, add}
use Scores.{
  Floats, YoloPostprocessConfig, Shape, parse_output_shape, read_prediction_value, float_max,
  float_min, clamp_value, best_class, class_filter_passes, class_offset_of,
}

pub record Detection (F D : Type 0) : Type 0 where
  pub frame_index : ℤ
  pub timestamp_ms : D
  pub class_id : ℤ
  pub confidence : F
  pub x1 : F
  pub y1 : F
  pub x2 : F
  pub y2 : F

-- The loop that adds the detections to the result.
unfoldable pub add_all : {A : Type 0} → DetectionResult A → List A → DetectionResult A × ℤ
add_all r [] = (r, success)
add_all r (d ∷ ds) =
    let (r', result) = add r d in
    let rest = add_all r' ds in if not (eq_ℤ result success) then (r', failure) else rest

module _ {F D : Type 0} (o : Floats F) where
  unfoldable pub box_iou : Detection F D → Detection F D → F
  box_iou a b =
      let w = float_max o o.zero_float (o.minus (float_min o a.x2 b.x2) (float_max o a.x1 b.x1)) in
      let h = float_max o o.zero_float (o.minus (float_min o a.y2 b.y2) (float_max o a.y1 b.y1)) in
      let intersection = o.times w h in
      let area_a =
        o.times (float_max o o.zero_float (o.minus a.x2 a.x1))
          (float_max o o.zero_float (o.minus a.y2 a.y1)) in
      let area_b =
        o.times (float_max o o.zero_float (o.minus b.x2 b.x1))
          (float_max o o.zero_float (o.minus b.y2 b.y1)) in
      let denom = o.minus (o.plus area_a area_b) intersection in
      if o.less o.zero_float denom then o.over intersection denom else o.zero_float

  -- The box of a prediction in the coordinates of the frame.
  unfoldable pub detection_of : D → YoloPostprocessConfig F → (ℕ → F) → ℤ → F → Detection F D
  unfolding clamp_value
  detection_of zero_double config value class_id confidence =
      let low = λ (center size pad : F).
        o.over (o.minus (o.minus center (o.times size o.half)) pad) config.scale in
      let high = λ (center size pad : F).
        o.over (o.minus (o.plus center (o.times size o.half)) pad) config.scale in
      record {
        frame_index = config.frame_index;
        timestamp_ms = zero_double;
        class_id = class_id;
        confidence = confidence;
        x1 =
            clamp_value o (low (value 0) (value 2) config.pad_x) o.zero_float
              (o.of_int config.src_width);
        y1 =
            clamp_value o (low (value 1) (value 3) config.pad_y) o.zero_float
              (o.of_int config.src_height);
        x2 =
            clamp_value o (high (value 0) (value 2) config.pad_x) o.zero_float
              (o.of_int config.src_width);
        y2 =
            clamp_value o (high (value 1) (value 3) config.pad_y) o.zero_float
              (o.of_int config.src_height);
      }

  -- What a round of the loop over the predictions pushes, if it does.
  unfoldable pub candidate : D → YoloPostprocessConfig F → ℕ → (ℕ → F) → Option (Detection F D)
  candidate zero_double config class_offset value =
      let objectness = if class_offset == 4 then o.one else value 4 in
      let best = best_class o value class_offset config in
      let confidence = o.times objectness best.1 in
      let detection = detection_of zero_double config value best.0 confidence in
      if o.less_eq objectness o.zero_float
      then none
      else if is_neg best.0
          || (not (class_filter_passes config.class_filter_ids best.0)
              || o.less confidence config.confidence_threshold)
      then none
      else if o.less detection.x1 detection.x2 && o.less detection.y1 detection.y2
      then some detection
      else none

  abbrev pub push_if : Option (Detection F D) → List (Detection F D) → List (Detection F D)
  push_if none ds = ds
  push_if (some d) ds = d ∷ ds

  -- The loop over the predictions: `rounds` are left and `i` is the next one.
  unfoldable pub candidates :
      D → YoloPostprocessConfig F → ℕ → (ℕ → ℕ → F) → ℕ → ℕ → List (Detection F D)
  candidates zero_double config class_offset value zero i = []
  candidates zero_double config class_offset value (suc rounds) i =
      push_if (candidate zero_double config class_offset (value i))
        (candidates zero_double config class_offset value rounds (i + 1))

  -- A candidate of the class of an accepted detection that overlaps it too much.
  abbrev pub overlaps : F → Detection F D → Detection F D → Bool
  overlaps threshold c accepted =
      eq_ℤ c.class_id accepted.class_id && o.less threshold (box_iou c accepted)

  unfoldable pub suppressed : F → Detection F D → List (Detection F D) → Bool
  suppressed threshold c [] = false
  suppressed threshold c (accepted ∷ kept) =
      overlaps threshold c accepted || suppressed threshold c kept

  -- The loop over the sorted candidates.
  unfoldable pub keep_best :
      F → ℕ → List (Detection F D) → List (Detection F D) → List (Detection F D)
  keep_best threshold capacity kept [] = kept
  keep_best threshold capacity kept (c ∷ cs) =
      let without = keep_best threshold capacity kept cs in
      let longer = keep_best threshold capacity (kept ++ (c ∷ [])) cs in
      if suppressed threshold c kept
      then without
      else if leb capacity (length (kept ++ (c ∷ [])))
      then kept ++ (c ∷ [])
      else longer

  -- The candidates of the whole output.
  unfoldable pub candidates_of :
      D → (ℤ → F) → YoloPostprocessConfig F → Shape → List (Detection F D)
  candidates_of zero_double output config s =
      candidates zero_double config (class_offset_of config s) (read_prediction_value output s)
        s.prediction_count 0

  module _ (zero_double : D) (sort : List (Detection F D) → List (Detection F D)) where
    -- `yolo_postprocess` once the shape is known or not.
    with_shape :
        (ℤ → F)
        → YoloPostprocessConfig F
        → DetectionResult (Detection F D)
        → Option Shape
        → DetectionResult (Detection F D) × ℤ
    with_shape output config r none = (r, failure)
    with_shape output config r (some s) = add_all r (
        keep_best config.iou_threshold r.capacity []
          (sort (candidates_of zero_double output config s)))

    unfoldable pub yolo_postprocess :
        (ℤ → F)
        → ℕ
        → List ℤ
        → YoloPostprocessConfig F
        → DetectionResult (Detection F D)
        → DetectionResult (Detection F D) × ℤ
    unfolding with_shape
    yolo_postprocess output element_count dims config r =
        if not (is_pos config.class_count) || o.less_eq config.scale o.zero_float
        then (r, failure)
        else with_shape output config (clear r) (
            parse_output_shape dims (5 + pos_part config.class_count)
              (4 + pos_part config.class_count) element_count)
