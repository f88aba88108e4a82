-- ===== src/Yolo/Tests.antt =====
-- Runs of `yolo_postprocess` on an output of two predictions of one class that overlap.
use video_compute_pipeline.Prelude.{
  ℕ, ◌+◌, ◌*◌, ◌/◌, ◌-◌, ◌≡◌, refl, true, false, All, List, [], ◌∷◌, some, get_or, ltb, leb, arith,
  if◌then◌else◌, Bool-cases, inl, inr,
}
use mathlib.Core.List.{Permᴰ}
use video_compute_pipeline.Prelude.Int.{ℤ, pos, negsuc, pos_part}
use video_compute_pipeline.Prelude.Pairs.{Pairs, All-map}
use video_compute_pipeline.Prelude.Shuffle.{Permᴰ-cons, Permᴰ-swap, All-Permᴰ}
use video_compute_pipeline.DetectionResult.{DetectionResult, add}
use video_compute_pipeline.DetectionResult.Grow.{IsResult, contents}
use video_compute_pipeline.Yolo.Scores.{
  Floats, YoloPostprocessConfig, parse_output_shape, read_prediction_value, best_class,
}
use video_compute_pipeline.Yolo.{
  Detection, yolo_postprocess, add_all, keep_best, candidates_of, candidates, candidate,
  detection_of, suppressed, box_iou,
}
use video_compute_pipeline.Yolo.Valid.{IsOrdered}
use video_compute_pipeline.Yolo.Outcome.{IsSort, Outcome, yolo_postprocess_lem}

-- Floats that are halves.
abbrev halves : Floats ℕ
halves = record {
  zero_float = 0;
  one = 2;
  half = 1;
  of_int = λ z. 2 * pos_part z;
  plus = λ a b. a + b;
  minus = λ a b. a - b;
  times = λ a b. a * b / 2;
  over = λ a b. a * 2 / b;
  less = ltb;
  less_eq = leb;
}

halves-IsOrdered : IsOrdered halves
halves-IsOrdered = record { irreflexive = λ a. ground arith; asymmetric = λ a b h. ground arith }

abbrev Box : Type 0
Box = Detection ℕ ℕ

-- A sort by insertion, the most confident first.
place : Box → List Box → List Box
place d [] = d ∷ []
place d (e ∷ es) =
    let later = place d es in if ltb e.confidence d.confidence then d ∷ e ∷ es else e ∷ later

insertion_sort : List Box → List Box
unfolding place
insertion_sort [] = []
insertion_sort (d ∷ ds) = place d (insertion_sort ds)

abbrev NotLess : Box → Box → Type 0
NotLess a b = ltb a.confidence b.confidence ≡ false

place-Permᴰ : (d : Box) (es : List Box) → Permᴰ (d ∷ es) (place d es)
unfolding place
place-Permᴰ d [] = Permᴰ.cons refl Permᴰ.nil
place-Permᴰ d (e ∷ es) = elim (Bool-cases (ltb e.confidence d.confidence)) [
  | inl t ↦ rw t (Permᴰ-cons (Permᴰ-cons (same es)))
  | inr t ↦ rw t (Permᴰ.trans Permᴰ-swap (Permᴰ-cons (place-Permᴰ d es)))
]
  where
    same : (l : List Box) → Permᴰ l l
    same [] = Permᴰ.nil
    same (x ∷ l) = Permᴰ.cons refl (same l)

place-Pairs : (d : Box) (es : List Box) → Pairs NotLess es → Pairs NotLess (place d es)
unfolding place
place-Pairs d [] h = (tt, tt)
place-Pairs d (e ∷ es) h = elim (Bool-cases (ltb e.confidence d.confidence)) [
  | inl t ↦
      rw t
        ((ground (arith, t), All-map (NotLess e) (NotLess d) (λ x p. ground (arith, t)) es h.0), h)
  | inr t ↦ rw t (All-Permᴰ (NotLess e) (place-Permᴰ d es) (t, h.0), place-Pairs d es h.1)
]

insertion_sort-Permᴰ : (ds : List Box) → Permᴰ ds (insertion_sort ds)
unfolding insertion_sort
insertion_sort-Permᴰ [] = Permᴰ.nil
insertion_sort-Permᴰ (d ∷ ds) =
    Permᴰ.trans (Permᴰ-cons (insertion_sort-Permᴰ ds)) (place-Permᴰ d (insertion_sort ds))

insertion_sort-Pairs : (ds : List Box) → Pairs NotLess (insertion_sort ds)
unfolding insertion_sort
insertion_sort-Pairs [] = tt
insertion_sort-Pairs (d ∷ ds) = place-Pairs d (insertion_sort ds) (insertion_sort-Pairs ds)

insertion_sort-IsSort : IsSort halves insertion_sort
insertion_sort-IsSort = record {
  permuted = λ ds numbers. insertion_sort-Permᴰ ds;
  sorted = λ ds numbers. insertion_sort-Pairs ds;
}

-- Center, sides, objectness and the score of the one class.
abbrev elements : ℕ → ℕ
elements i = get_or (8 ∷ 8 ∷ 4 ∷ 4 ∷ 2 ∷ 1 ∷ 8 ∷ 8 ∷ 4 ∷ 4 ∷ 2 ∷ 2 ∷ []) i 0

abbrev output : ℤ → ℕ
output z = elements (pos_part z)

abbrev other_elements : ℕ → ℕ
other_elements i = get_or (8 ∷ 8 ∷ 4 ∷ 4 ∷ 2 ∷ 1 ∷ 8 ∷ 8 ∷ 4 ∷ 4 ∷ 2 ∷ 2 ∷ 77 ∷ []) i 9

-- The same, with something else before and behind.
abbrev other_memory : ℤ → ℕ
other_memory (pos i) = other_elements i
other_memory (negsuc i) = 66

abbrev one_class : YoloPostprocessConfig ℕ
one_class = record {
  frame_index = pos 5;
  src_width = pos 20;
  src_height = pos 10;
  class_count = pos 1;
  class_filter_ids = [];
  confidence_threshold = 1;
  iou_threshold = 1;
  scale = 2;
  pad_x = 0;
  pad_y = 0;
}

abbrev empty_box : Box
empty_box = record {
  frame_index = pos 0;
  timestamp_ms = 0;
  class_id = pos 0;
  confidence = 0;
  x1 = 0;
  y1 = 0;
  x2 = 0;
  y2 = 0;
}

abbrev two_places : DetectionResult Box
two_places = record {
  items = some (record { address = 1; contents = empty_box ∷ empty_box ∷ [] });
  count = 0;
  capacity = 2;
}

two_places-IsResult : IsResult two_places
two_places-IsResult = record { room = refl; fits = omega arith; small = omega arith }

-- The less confident of the two is suppressed.
one_is_kept :
    contents
      (yolo_postprocess halves 0 insertion_sort output 12
        (pos 2 ∷ pos 6 ∷ [])
        one_class
        two_places).0
    ≡ record {
      frame_index = pos 5;
      timestamp_ms = 0;
      class_id = pos 0;
      confidence = 2;
      x1 = 6;
      y1 = 6;
      x2 = 10;
      y2 = 10;
    }
      ∷ []
unfolding yolo_postprocess insertion_sort add parse_output_shape add_all keep_best candidates_of
    candidates candidate read_prediction_value best_class detection_of suppressed box_iou
one_is_kept = refl

leb_refl : (n : ℕ) → leb n n ≡ true
leb_refl n = ground arith

-- A natural number is no NaN.
every_IsNumber : (ds : List Box) → All (λ d. leb d.confidence d.confidence ≡ true) ds
every_IsNumber [] = tt
every_IsNumber (d ∷ ds) = (leb_refl d.confidence, every_IsNumber ds)

yolo_postprocess_lem_example :
    Outcome halves 0 output 12
      (pos 2 ∷ pos 6 ∷ [])
      one_class
      two_places
      (yolo_postprocess halves 0 insertion_sort output 12 (pos 2 ∷ pos 6 ∷ []) one_class two_places)
yolo_postprocess_lem_example =
    yolo_postprocess_lem halves halves-IsOrdered 0 insertion_sort insertion_sort-IsSort output 12
      (pos 2 ∷ pos 6 ∷ []) one_class two_places refl refl (omega arith) two_places-IsResult
      (omega arith) (λ s e. every_IsNumber _)
