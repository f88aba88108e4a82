-- ===== src/Yolo/Outcome.antt =====
-- inference/yolo_postprocess.cpp: what `yolo_postprocess` returns.
use video_compute_pipeline.Prelude.{
  ℕ, zero, suc, ◌+◌, ◌≤◌, ◌<◌, ◌^◌, ◌≡◌, refl, sym, ap, subst, ◌∙◌, true, false, ◌⊎◌, inl, inr,
  Option, none, some, List, [], ◌∷◌, ◌++◌, length, length-append, arith, All, Bool-cases,
  Option-cases, append_assoc, append-nil,
}
use video_compute_pipeline.Prelude.Text.{first}
use video_compute_pipeline.Prelude.Int.{ℤ, pos, pos_part, is_pos, success, failure}
use video_compute_pipeline.Prelude.Pairs.{Pairs, All-Any}
use mathlib.Core.List.{Permᴰ}
use video_compute_pipeline.Prelude.Shuffle.{Any, All-Permᴰ, Permᴰ_symm}
use video_compute_pipeline.DetectionResult.{DetectionResult, clear, add}
use video_compute_pipeline.DetectionResult.Grow.{IsResult, contents, AddCase, add_lem}
use video_compute_pipeline.Yolo.Scores.{Floats, YoloPostprocessConfig, Shape, parse_output_shape}
use video_compute_pipeline.Yolo.{Detection, candidates_of, keep_best, add_all, yolo_postprocess}
use video_compute_pipeline.Yolo.Keep.{
  Apart, Covered, keep-All, keep-Apart, keep-Pairs, keep-Covered, length-keep,
}
use video_compute_pipeline.Yolo.Valid.{IsOrdered, IsDetection, candidates_of-IsDetection}

module _ {D : Type 0} where
  clear-IsResult : (r : DetectionResult D) → IsResult r → IsResult (clear r)
  clear-IsResult r v = record { room = v.room; fits = omega arith; small = v.small }

  -- All the detections of the list come after those that were there.
  record Extended (r : DetectionResult D) (ds : List D) (out : DetectionResult D × ℤ) : Type 0 where
    result : out.1 ≡ success
    valid : IsResult out.0
    same : out.0.capacity ≡ r.capacity
    holds : contents out.0 ≡ contents r ++ ds

  length-first : (n : ℕ) (ds : List D) → n ≤ length ds → length (first n ds) ≡ n
  length-first zero ds h = refl
  length-first (suc n) [] h = absurd (omega (arith, h))
  length-first (suc n) (d ∷ ds) h = ap suc (length-first n ds (omega (arith, h)))

  pub length-contents : (r : DetectionResult D) → IsResult r → length (contents r) ≡ r.count
  length-contents r v = length-first r.count _ (omega (arith, v.room, v.fits))

  add_all-Extended :
      (r : DetectionResult D) (ds : List D)
      → IsResult r
      → length (contents r) + length ds ≤ r.capacity
      → Extended r ds (add_all r ds)
  unfolding add_all
  add_all-Extended r [] v h = record {
    result = refl;
    valid = v;
    same = refl;
    holds = sym (append-nil (contents r));
  }
  add_all-Extended r (d ∷ ds) v h = elim (add_lem r d v) [
    | AddCase.no_room full out ↦ absurd (omega (arith, full, h, length-contents r v))
    | AddCase.added below done valid same holds ↦
        let rest =
          add_all-Extended (add r d).0 ds valid
            (omega (arith, ap length holds, length-append (contents r) (d ∷ []), h, same)) in
        rw done (record {
          result = rest.result;
          valid = rest.valid;
          same = rest.same ∙ same;
          holds = rest.holds ∙ ap (λ l. l ++ ds) holds ∙ append_assoc (contents r) (d ∷ []) ds;
        })
  ]

-- Only a NaN is not at most itself.
abbrev pub IsNumber : {F D : Type 0} → Floats F → Detection F D → Type 0
IsNumber o d = o.less_eq d.confidence d.confidence ≡ true

-- What the documentation of std::sort promises of the comparison by confidence, of a list without a
-- NaN, where it is a strict weak order: the list in another order, and none before a detection of
-- greater confidence.
pub record IsSort {F D : Type 0} (o : Floats F) (sort : List (Detection F D) → List (Detection F D))
    : Type 0 where
  pub permuted : (ds : List (Detection F D)) → All (IsNumber o) ds → Permᴰ ds (sort ds)
  pub sorted :
      (ds : List (Detection F D))
      → All (IsNumber o) ds
      → Pairs (λ a b. o.less a.confidence b.confidence ≡ false) (sort ds)

-- No candidate that comes later has a greater confidence.
abbrev Ranked : {F D : Type 0} → Floats F → Detection F D → Detection F D → Type 0
Ranked o a b = o.less a.confidence b.confidence ≡ false

-- The list that non-maximum suppression makes of the candidates.
pub record IsSuppressed {F D : Type 0} (o : Floats F) (threshold : F) (capacity : ℕ)
    (candidates kept : List (Detection F D)) : Type 0 where
  pub fits : length kept ≤ capacity
  pub among : All (λ k. Any (λ c. c ≡ k) candidates) kept
  pub ranked : Pairs (Ranked o) kept
  pub apart : Pairs (Apart o threshold capacity) kept
  pub covered : All (Covered o threshold capacity (Ranked o) kept) candidates

module _ {F D : Type 0} (o : Floats F) (sort : List (Detection F D) → List (Detection F D))
    (sorts : IsSort o sort) where
  keep_best-IsSuppressed :
      (threshold : F) (capacity : ℕ) (ds : List (Detection F D))
      → All (IsNumber o) ds
      → 0 < capacity
      → IsSuppressed o threshold capacity ds (keep_best o threshold capacity [] (sort ds))
  keep_best-IsSuppressed threshold capacity ds numbers room = record {
    fits = length-keep o threshold capacity [] (sort ds) room;
    among =
        keep-All o threshold capacity (λ k. Any (λ c. c ≡ k) ds) [] (sort ds) tt
          (All-Permᴰ (λ k. Any (λ c. c ≡ k) ds) (sorts.permuted ds numbers) (All-Any ds));
    ranked =
        keep-Pairs o threshold capacity (Ranked o) [] (sort ds) tt tt (sorts.sorted ds numbers);
    apart = keep-Apart o threshold capacity [] (sort ds) tt;
    covered =
        All-Permᴰ (Covered o threshold capacity (Ranked o) _)
          (Permᴰ_symm (sorts.permuted ds numbers))
          (keep-Covered o threshold capacity (Ranked o) [] (sort ds) tt (sorts.sorted ds numbers));
  }

-- A call that succeeds: the result is valid and has its capacity, it holds what the suppression makes
-- of the candidates of an output of that shape, and each is a detection that the caller asked for.
pub record Detected {F D : Type 0} (o : Floats F) (zero_double : D) (output : ℤ → F)
    (config : YoloPostprocessConfig F) (r : DetectionResult (Detection F D)) (s : Shape)
    (out : DetectionResult (Detection F D) × ℤ) : Type 0 where
  pub result : out.1 ≡ success
  pub valid : IsResult out.0
  pub capacity : out.0.capacity ≡ r.capacity
  pub asked : All (IsDetection o config) (contents out.0)
  pub best :
      IsSuppressed o config.iou_threshold r.capacity
        (candidates_of o zero_double output config s)
        (contents out.0)

-- What `yolo_postprocess` does, by the configuration and the shape of the output.
pub data Outcome {F D : Type 0} (o : Floats F) (zero_double : D) (output : ℤ → F)
    (element_count : ℕ) (dims : List ℤ) (config : YoloPostprocessConfig F)
    (r : DetectionResult (Detection F D)) (out : DetectionResult (Detection F D) × ℤ) : Type 0 where
  bad_config :
      (is_pos config.class_count ≡ false) ⊎ (o.less_eq config.scale o.zero_float ≡ true)
      → out ≡ (r, failure)
      → Outcome o zero_double output element_count dims config r out
  no_shape :
      parse_output_shape dims
          (5 + pos_part config.class_count)
          (4 + pos_part config.class_count)
          element_count
        ≡ none
      → out ≡ (clear r, failure)
      → Outcome o zero_double output element_count dims config r out
  detected :
      (s : Shape)
      → parse_output_shape dims
          (5 + pos_part config.class_count)
          (4 + pos_part config.class_count)
          element_count
        ≡ some s
      → Detected o zero_double output config r s out
      → Outcome o zero_double output element_count dims config r out

pub is_pos→pos : (z : ℤ) → is_pos z ≡ true → z ≡ pos (pos_part z)
is_pos→pos z h = ground arith

module _ {F D : Type 0} (o : Floats F) (w : IsOrdered o) (zero_double : D)
    (sort : List (Detection F D) → List (Detection F D)) (sorts : IsSort o sort) (output : ℤ → F)
    (element_count : ℕ) (dims : List ℤ) (config : YoloPostprocessConfig F)
    (r : DetectionResult (Detection F D)) where
  abbrev call : DetectionResult (Detection F D) × ℤ
  call = yolo_postprocess o zero_double sort output element_count dims config r

  abbrev shape : Option Shape
  shape =
      parse_output_shape dims (5 + pos_part config.class_count) (4 + pos_part config.class_count)
        element_count

  module _ (n : ℕ) (classes : config.class_count ≡ pos n)
      (wide : o.less (o.of_int config.src_width) o.zero_float ≡ false)
      (high : o.less (o.of_int config.src_height) o.zero_float ≡ false) (v : IsResult r)
      (room : 0 < r.capacity) (s : Shape)
      (numbers : All (IsNumber o) (candidates_of o zero_double output config s)) where
    found : List (Detection F D)
    found =
        keep_best o config.iou_threshold r.capacity []
          (sort (candidates_of o zero_double output config s))

    found-Detected : Detected o zero_double output config r s (add_all (clear r) found)
    unfolding found
    found-Detected = record {
      result = added.result;
      valid = added.valid;
      capacity = added.same;
      asked = subst (All (IsDetection o config)) (sym added.holds) (
          keep-All o config.iou_threshold r.capacity (IsDetection o config) [] _ tt (
            All-Permᴰ (IsDetection o config) (sorts.permuted _ numbers)
              (candidates_of-IsDetection o zero_double config w n classes wide high output s)));
      best =
          subst
            (IsSuppressed o config.iou_threshold r.capacity
              (candidates_of o zero_double output config s))
            (sym added.holds) kept;
    }
      where
        kept :
            IsSuppressed o config.iou_threshold r.capacity
              (candidates_of o zero_double output config s)
              found
        kept = keep_best-IsSuppressed o sort sorts config.iou_threshold r.capacity _ numbers room

        added : Extended (clear r) found (add_all (clear r) found)
        added = add_all-Extended (clear r) found (clear-IsResult r v) (omega (arith, kept.fits))

  -- `yolo_postprocess` on a valid result that has room, if no side of the frame is below 0 as a float,
  -- an int holds the classes and five more, and no candidate's confidence is a NaN: it fails and changes nothing if the model has no class or
  -- the scale is not positive; it fails and clears the result if the output has no shape that fits; else
  -- it succeeds. Then the result is valid with its capacity, and it holds detections of the frame whose
  -- class is one of the model's that the filter lets through, whose confidence is not below the threshold
  -- and whose box is not empty and lies in the frame. They are candidates, the more confident first; the
  -- boxes of no two of one class have an intersection over union above the threshold; and each candidate
  -- is one of them, or has one above the threshold with one of its class that is as confident, or the
  -- result is full.
  pub yolo_postprocess_lem :
      o.less (o.of_int config.src_width) o.zero_float ≡ false
      → o.less (o.of_int config.src_height) o.zero_float ≡ false
      → 5 + pos_part config.class_count < 2 ^ 31
      → IsResult r
      → 0 < r.capacity
      → ((s : Shape)
          → parse_output_shape dims
              (5 + pos_part config.class_count)
              (4 + pos_part config.class_count)
              element_count
            ≡ some s
          → All (IsNumber o) (candidates_of o zero_double output config s))
      → Outcome o zero_double output element_count dims config r
          (yolo_postprocess o zero_double sort output element_count dims config r)
  unfolding yolo_postprocess found
  yolo_postprocess_lem wide high ints v room numbers =
      elim (Bool-cases (is_pos config.class_count)) [
        | inr e ↦ rw e (bad_config (inl e) refl)
        | inl e ↦ elim (Bool-cases (o.less_eq config.scale o.zero_float)) [
          | inl f ↦ rw (e, f) (bad_config (inr f) refl)
          | inr f ↦ elim (Option-cases shape) [
            | inl g ↦ rw (e, f, g) (no_shape g refl)
            | inr (s, g) ↦
                rw (e, f, g)
                  (detected s g (
                    found-Detected (pos_part config.class_count) (is_pos→pos config.class_count e)
                      wide high v room s (numbers s g)))
          ]
        ]
      ]
