-- ===== src/Yolo/Scores.antt =====
-- inference/yolo_postprocess.h and the first half of inference/yolo_postprocess.cpp: the shape of a
-- model's output and the class with the best score. `F` is the machine's float, with its operations
-- as a parameter.
use video_compute_pipeline.Prelude.{
  ℕ, zero, suc, ◌+◌, ◌-◌, ◌*◌, ◌/◌, Bool, true, false, not, ◌&&◌, ◌||◌, Option, none, some, List,
  [], ◌∷◌, length, get_or, ltb, leb, ◌==◌, if◌then◌else◌,
}
use video_compute_pipeline.Prelude.Int.{ℤ, pos, negsuc, pos_part, is_pos, is_neg, ltb_ℤ, eq_ℤ}
use video_compute_pipeline.ExecutionPlan.Profile.{wrap_int}

pub record Floats (F : Type 0) : Type 0 where
  pub zero_float : F
  pub one : F
  pub half : F
  pub of_int : ℤ → F
  pub plus : F → F → F
  pub minus : F → F → F
  pub times : F → F → F
  pub over : F → F → F
  pub less : F → F → Bool
  pub less_eq : F → F → Bool

-- The ids that are in use stand in `class_filter_ids`.
pub record YoloPostprocessConfig (F : Type 0) : Type 0 where
  pub frame_index : ℤ
  pub src_width : ℤ
  pub src_height : ℤ
  pub class_count : ℤ
  pub class_filter_ids : List ℤ
  pub confidence_threshold : F
  pub iou_threshold : F
  pub scale : F
  pub pad_x : F
  pub pad_y : F

-- What `parse_output_shape` writes.
pub record Shape : Type 0 where
  pub prediction_count : ℕ
  pub transposed : Bool
  pub attributes : ℕ

abbrev pub shape_of : ℤ → Bool → ℕ → Option Shape
shape_of predictions transposed attributes =
    if is_pos predictions
    then some (record {
      prediction_count = pos_part predictions;
      transposed = transposed;
      attributes = attributes;
    })
    else none

-- dims[nb_dims - k]
abbrev pub dim_back : List ℤ → ℕ → ℤ
dim_back dims k = get_or dims (length dims - k) (pos 0)

-- `none`: the call returns -1.
unfoldable pub parse_output_shape : List ℤ → ℕ → ℕ → ℕ → Option Shape
parse_output_shape dims attributes alternate_attributes element_count =
    if length dims == 0 || (attributes == 0 || element_count == 0)
    then none
    else if eq_ℤ (dim_back dims 1) (pos attributes)
    then shape_of (wrap_int (element_count / attributes)) false attributes
    else if leb 2 (length dims) && eq_ℤ (dim_back dims 2) (pos attributes)
    then shape_of (dim_back dims 1) true attributes
    else if ltb 0 alternate_attributes && eq_ℤ (dim_back dims 1) (pos alternate_attributes)
    then shape_of (wrap_int (element_count / alternate_attributes)) false alternate_attributes
    else if ltb 0 alternate_attributes
        && (leb 2 (length dims) && eq_ℤ (dim_back dims 2) (pos alternate_attributes))
    then shape_of (dim_back dims 1) true alternate_attributes
    else none

-- The index is an int: its product and its sum wrap.
unfoldable pub read_prediction_value : {F : Type 0} → (ℤ → F) → Shape → ℕ → ℕ → F
read_prediction_value output s prediction attr =
    if s.transposed
    then output (wrap_int (attr * s.prediction_count + prediction))
    else output (wrap_int (prediction * s.attributes + attr))

unfoldable pub class_filter_contains : List ℤ → ℤ → Bool
class_filter_contains [] class_id = false
class_filter_contains (id ∷ ids) class_id = eq_ℤ id class_id || class_filter_contains ids class_id

-- A list with no ids lets every class through.
abbrev pub class_filter_passes : List ℤ → ℤ → Bool
class_filter_passes ids class_id = length ids == 0 || class_filter_contains ids class_id

abbrev pub class_offset_of : {F : Type 0} → YoloPostprocessConfig F → Shape → ℕ
class_offset_of config s = if s.attributes == 4 + pos_part config.class_count then 4 else 5

module _ {F : Type 0} (o : Floats F) where
  -- std::max and std::min.
  abbrev pub float_max : F → F → F
  float_max a b = if o.less a b then b else a

  abbrev pub float_min : F → F → F
  float_min a b = if o.less b a then b else a

  unfoldable pub clamp_value : F → F → F → F
  clamp_value value lo hi = float_max lo (float_min value hi)

  -- The class with the best score so far, -1 if there is none, and its score.
  abbrev pub improve : F → ℤ → ℤ × F → ℤ × F
  improve score c best = if o.less best.1 score then (c, score) else best

  -- The loop over the ids of the filter; `value a` is the prediction's attribute `a`.
  unfoldable pub best_filtered : (ℕ → F) → ℕ → ℤ → List ℤ → ℤ × F → ℤ × F
  best_filtered value class_offset class_count [] best = best
  best_filtered value class_offset class_count (c ∷ ids) best =
      best_filtered value class_offset class_count ids (
        if is_neg c || not (ltb_ℤ c class_count)
        then best
        else improve (value (class_offset + pos_part c)) c best)

  -- The loop over all classes: `rounds` are left and `c` is the next class.
  unfoldable pub best_of_all : (ℕ → F) → ℕ → ℕ → ℕ → ℤ × F → ℤ × F
  best_of_all value class_offset zero c best = best
  best_of_all value class_offset (suc rounds) c best =
      best_of_all value class_offset rounds (c + 1)
        (improve (value (class_offset + c)) (pos c) best)

  unfoldable pub best_class : (ℕ → F) → ℕ → YoloPostprocessConfig F → ℤ × F
  unfolding best_filtered best_of_all
  best_class value class_offset config =
      let start : ℤ × F = (negsuc 0, o.zero_float) in
      if ltb 0 (length config.class_filter_ids)
      then best_filtered value class_offset config.class_count config.class_filter_ids start
      else best_of_all value class_offset (pos_part config.class_count) 0 start
