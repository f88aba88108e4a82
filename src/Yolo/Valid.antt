-- ===== src/Yolo/Valid.antt =====
-- inference/yolo_postprocess.cpp: what every candidate is.
use video_compute_pipeline.Prelude.{
  ℕ, zero, suc, ◌+◌, ◌≡◌, refl, Bool, true, false, not, ◌||◌, ◌&&◌, Option, none, some, List, [],
  ◌∷◌, length, ltb, arith, All, Bool-cases, inl, inr, if_cases, sym, subst, ◌==◌, if◌then◌else◌,
}
use video_compute_pipeline.Prelude.Int.{ℤ, pos, negsuc, pos_part, is_neg, ltb_ℤ}
use video_compute_pipeline.Yolo.Scores.{
  Floats, YoloPostprocessConfig, Shape, clamp_value, best_filtered, best_of_all, best_class,
  improve, class_filter_passes,
}
use video_compute_pipeline.Yolo.{
  Detection, detection_of, candidate, candidates, candidates_of, push_if,
}

-- The comparison of floats, of which it is not asked that a NaN equals itself.
pub record IsOrdered {F : Type 0} (o : Floats F) : Type 0 where
  pub irreflexive : (a : F) → o.less a a ≡ false
  pub asymmetric : (a b : F) → o.less a b ≡ true → o.less b a ≡ false

-- The value is between the two bounds.
abbrev pub Within : {F : Type 0} → Floats F → F → F → F → Type 0
Within o lo hi value = (o.less value lo ≡ false) × (o.less hi value ≡ false)

clamp_value-Within :
    {F : Type 0} (o : Floats F) (value lo hi : F)
    → IsOrdered o
    → o.less hi lo ≡ false
    → Within o lo hi (clamp_value o value lo hi)
unfolding clamp_value
clamp_value-Within o value lo hi w h =
    ground (arith, w.irreflexive hi, w.irreflexive lo, w.asymmetric lo value, w.asymmetric lo hi)

-- A class of the model, or none yet.
abbrev KnownClass : ℤ → ℤ → Type 0
KnownClass class_count c = is_neg c ≡ false → ltb_ℤ c class_count ≡ true

module _ {F : Type 0} (o : Floats F) where
  best_filtered-KnownClass :
      (value : ℕ → F) (k : ℕ) (class_count : ℤ) (ids : List ℤ) (best : ℤ × F)
      → KnownClass class_count best.0
      → KnownClass class_count (best_filtered o value k class_count ids best).0
  unfolding best_filtered
  best_filtered-KnownClass value k class_count [] best h = h
  best_filtered-KnownClass value k class_count (c ∷ ids) best h =
      best_filtered-KnownClass value k class_count ids _ step
    where
      step :
          KnownClass class_count
            (if is_neg c || not (ltb_ℤ c class_count)
              then best
              else improve o (value (k + pos_part c)) c best).0
      step = ground (arith, h)

  best_of_all-KnownClass :
      (value : ℕ → F) (k rounds c class_count : ℕ) (best : ℤ × F)
      → c + rounds ≡ class_count
      → KnownClass (pos class_count) best.0
      → KnownClass (pos class_count) (best_of_all o value k rounds c best).0
  unfolding best_of_all
  best_of_all-KnownClass value k zero c class_count best e h = h
  best_of_all-KnownClass value k (suc rounds) c class_count best e h =
      best_of_all-KnownClass value k rounds (c + 1) class_count _ (omega (arith, e)) step
    where
      step : KnownClass (pos class_count) (improve o (value (k + c)) (pos c) best).0
      step = ground (arith, h, e)

  best_class-KnownClass :
      (value : ℕ → F) (k : ℕ) (config : YoloPostprocessConfig F) (n : ℕ)
      → config.class_count ≡ pos n
      → KnownClass config.class_count (best_class o value k config).0
  unfolding best_class
  best_class-KnownClass value k config n e =
      elim (Bool-cases (ltb 0 (length config.class_filter_ids))) [
        | inl f ↦ rw f (
            best_filtered-KnownClass value k config.class_count config.class_filter_ids
              (negsuc 0, o.zero_float) (λ b. cc))
        | inr f ↦ rw f (
            subst (λ c. KnownClass c (best_of_all o value k (pos_part c) 0 start).0) (sym e)
              (best_of_all-KnownClass value k n 0 n start (omega arith) (λ b. cc)))
      ]
    where
      start : ℤ × F
      start = (negsuc 0, o.zero_float)

-- A detection that the caller asked for: its class is one of the model's and passes the filter, its
-- confidence is not below the threshold, and its box is not empty and lies in the frame.
pub record IsDetection {F D : Type 0} (o : Floats F) (config : YoloPostprocessConfig F)
    (d : Detection F D) : Type 0 where
  pub known : (is_neg d.class_id ≡ false) × (ltb_ℤ d.class_id config.class_count ≡ true)
  pub wanted : class_filter_passes config.class_filter_ids d.class_id ≡ true
  pub confident : o.less d.confidence config.confidence_threshold ≡ false
  pub frame : d.frame_index ≡ config.frame_index
  pub left : Within o o.zero_float (o.of_int config.src_width) d.x1
  pub right : Within o o.zero_float (o.of_int config.src_width) d.x2
  pub top : Within o o.zero_float (o.of_int config.src_height) d.y1
  pub bottom : Within o o.zero_float (o.of_int config.src_height) d.y2
  pub wide : o.less d.x1 d.x2 ≡ true
  pub high : o.less d.y1 d.y2 ≡ true

module _ {F D : Type 0} (o : Floats F) (zero_double : D) (config : YoloPostprocessConfig F)
    (w : IsOrdered o) (n : ℕ) (classes : config.class_count ≡ pos n)
    (wide : o.less (o.of_int config.src_width) o.zero_float ≡ false)
    (high : o.less (o.of_int config.src_height) o.zero_float ≡ false) where
  -- The predicate of what a round may push.
  abbrev IsPushed : Option (Detection F D) → Type 0
  IsPushed none = Unit
  IsPushed (some d) = IsDetection o config d

  candidate-IsPushed : (k : ℕ) (value : ℕ → F) → IsPushed (candidate o zero_double config k value)
  unfolding candidate detection_of
  candidate-IsPushed k value =
      if_cases IsPushed (o.less_eq objectness o.zero_float) (λ e. tt)
        λ e.
          if_cases IsPushed
            (is_neg best.0
              || (not (class_filter_passes config.class_filter_ids best.0)
                  || o.less confidence config.confidence_threshold))
            (λ f. tt)
            λ f.
              if_cases IsPushed (o.less d.x1 d.x2 && o.less d.y1 d.y2)
                (λ g. record {
                  known = (tests f).0;
                  wanted = (tests f).1;
                  confident = (tests f).2;
                  frame = refl;
                  left = clamp_value-Within o _ _ _ w wide;
                  right = clamp_value-Within o _ _ _ w wide;
                  top = clamp_value-Within o _ _ _ w high;
                  bottom = clamp_value-Within o _ _ _ w high;
                  wide = (both _ _ g).0;
                  high = (both _ _ g).1;
                })
                (λ g. tt)
    where
      objectness : F
      objectness = if k == 4 then o.one else value 4

      best : ℤ × F
      best = best_class o value k config

      confidence : F
      confidence = o.times objectness best.1

      d : Detection F D
      d = detection_of o zero_double config value best.0 confidence

      both : (a b : Bool) → (a && b) ≡ true → (a ≡ true) × (b ≡ true)
      both a b h = ground arith

      three : (a b c : Bool) → (a || (not b || c)) ≡ false → (a ≡ false) × (b ≡ true) × (c ≡ false)
      three a b c h = ground arith

      tests :
          (is_neg best.0
              || (not (class_filter_passes config.class_filter_ids best.0)
                  || o.less confidence config.confidence_threshold))
            ≡ false
          → ((is_neg best.0 ≡ false) × (ltb_ℤ best.0 config.class_count ≡ true))
            × (class_filter_passes config.class_filter_ids best.0 ≡ true)
            × (o.less confidence config.confidence_threshold ≡ false)
      tests f =
          let t = three _ _ _ f in
          ((t.0, best_class-KnownClass o value k config n classes t.0), t.1, t.2)

  candidates-IsDetection :
      (k : ℕ) (value : ℕ → ℕ → F) (rounds i : ℕ)
      → All (IsDetection o config) (candidates o zero_double config k value rounds i)
  unfolding candidates
  candidates-IsDetection k value zero i = tt
  candidates-IsDetection k value (suc rounds) i =
      push _ (candidate o zero_double config k (value i)) (candidate-IsPushed k (value i))
        (candidates-IsDetection k value rounds (i + 1))
    where
      push :
          (ds : List (Detection F D)) (c : Option (Detection F D))
          → IsPushed c
          → All (IsDetection o config) ds
          → All (IsDetection o config) (push_if o c ds)
      push ds none p h = h
      push ds (some d) p h = (p, h)

  pub candidates_of-IsDetection :
      (output : ℤ → F) (s : Shape)
      → All (IsDetection o config) (candidates_of o zero_double output config s)
  unfolding candidates_of
  candidates_of-IsDetection output s = candidates-IsDetection _ _ s.prediction_count 0
