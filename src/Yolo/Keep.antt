-- ===== src/Yolo/Keep.antt =====
-- inference/yolo_postprocess.cpp: which of the sorted candidates the suppression keeps.
use video_compute_pipeline.Prelude.{
  ℕ, Bool, ◌&&◌, ◌↔◌, if◌then◌else◌, ◌≤◌, ◌<◌, ◌≡◌, refl, true, false, ◌⊎◌, inl, inr, List, [], ◌∷◌,
  ◌++◌, length, length-append, leb, arith, All, All-append, Bool-cases,
}
use video_compute_pipeline.Prelude.Pairs.{
  Pairs, Pairs-append_one, Any-append_left, Any-append_end, All-swap_tail, All-heads,
}
use video_compute_pipeline.Prelude.Shuffle.{Any}
use video_compute_pipeline.Yolo.Scores.{Floats}
use video_compute_pipeline.Prelude.Int.{eq_ℤ, eq_ℤ_iff}
use video_compute_pipeline.Yolo.{Detection, box_iou, overlaps, suppressed, keep_best}

module _ {F : Type 0} (o : Floats F) where
  -- The length from one coordinate to another, 0 if there is none.
  abbrev pub span : F → F → F
  span from to = let n = o.minus to from in if o.less o.zero_float n then n else o.zero_float

  abbrev pub later : F → F → F
  later a b = if o.less a b then b else a

  abbrev pub earlier : F → F → F
  earlier a b = if o.less b a then b else a

module _ {F D : Type 0} (o : Floats F) where
  -- The area of a box, and that which two boxes share.
  abbrev pub area : Detection F D → F
  area d = o.times (span o d.x1 d.x2) (span o d.y1 d.y2)

  abbrev pub shared_area : Detection F D → Detection F D → F
  shared_area a b =
      o.times (span o (later o a.x1 b.x1) (earlier o a.x2 b.x2))
        (span o (later o a.y1 b.y1) (earlier o a.y2 b.y2))

  abbrev pub united_area : Detection F D → Detection F D → F
  united_area a b = o.minus (o.plus (area a) (area b)) (shared_area a b)

  -- Intersection over union, 0 for boxes without an area.
  abbrev pub shared_part : Detection F D → Detection F D → F
  shared_part a b =
      if o.less o.zero_float (united_area a b)
      then o.over (shared_area a b) (united_area a b)
      else o.zero_float

  -- Two boxes of one class share more than the threshold lets them.
  abbrev pub TooClose : F → Detection F D → Detection F D → Type 0
  TooClose threshold a b = (a.class_id ≡ b.class_id) × (o.less threshold (shared_part a b) ≡ true)

  overlaps_iff :
      (threshold : F) (a b : Detection F D)
      → (overlaps o threshold a b ≡ true) ↔ TooClose threshold a b
  unfolding box_iou
  overlaps_iff threshold a b =
      both_iff (eq_ℤ a.class_id b.class_id) _ _ (eq_ℤ_iff a.class_id b.class_id)
    where
      both_iff : (s t : Bool) (P : Type 0) → ((s ≡ true) ↔ P) → ((s && t) ≡ true) ↔ (P × (t ≡ true))
      both_iff true t P h = (λ e. (h.0 refl, e), λ k. k.1)
      both_iff false t P h = (λ e. cc e, λ k. cc (h.1 k.0))

module _ {F D : Type 0} (o : Floats F) (threshold : F) (capacity : ℕ) where
  abbrev keep : List (Detection F D) → List (Detection F D) → List (Detection F D)
  keep kept cs = keep_best o threshold capacity kept cs

  -- One round of the loop, by what it finds.
  keep_cases :
      (P : List (Detection F D) → Type 0) (kept : List (Detection F D)) (c : Detection F D)
      (cs : List (Detection F D))
      → (suppressed o threshold c kept ≡ true → P (keep kept cs))
      → (suppressed o threshold c kept ≡ false
          → leb capacity (length (kept ++ (c ∷ []))) ≡ true
          → P (kept ++ (c ∷ [])))
      → (suppressed o threshold c kept ≡ false
          → leb capacity (length (kept ++ (c ∷ []))) ≡ false
          → P (keep (kept ++ (c ∷ [])) cs))
      → P (keep kept (c ∷ cs))
  unfolding keep_best
  keep_cases P kept c cs skip full more = elim (Bool-cases (suppressed o threshold c kept)) [
    | inl e ↦ rw e (skip e)
    | inr e ↦ elim (Bool-cases (leb capacity (length (kept ++ (c ∷ []))))) [
      | inl f ↦ rw (e, f) (full e f)
      | inr f ↦ rw (e, f) (more e f)
    ]
  ]

  -- What was kept stays.
  keep-Any :
      (P : Detection F D → Type 0) (kept cs : List (Detection F D))
      → Any P kept
      → Any P (keep kept cs)
  unfolding keep_best
  keep-Any P kept [] h = h
  keep-Any P kept (c ∷ cs) h =
      keep_cases (Any P) kept c cs (λ e. keep-Any P kept cs h)
        (λ e f. Any-append_left P kept (c ∷ []) h)
        (λ e f. keep-Any P (kept ++ (c ∷ [])) cs (Any-append_left P kept (c ∷ []) h))

  pub keep-All :
      (P : Detection F D → Type 0) (kept cs : List (Detection F D))
      → All P kept
      → All P cs
      → All P (keep kept cs)
  unfolding keep_best
  keep-All P kept [] h g = h
  keep-All P kept (c ∷ cs) h g =
      keep_cases (All P) kept c cs (λ e. keep-All P kept cs h g.1)
        (λ e f. All-append P kept (c ∷ []) h (g.0, tt))
        (λ e f. keep-All P (kept ++ (c ∷ [])) cs (All-append P kept (c ∷ []) h (g.0, tt)) g.1)

  -- No more are kept than there is room for.
  pub length-keep :
      (kept cs : List (Detection F D)) → length kept < capacity → length (keep kept cs) ≤ capacity
  unfolding keep_best
  length-keep kept [] h = omega (arith, h)
  length-keep kept (c ∷ cs) h =
      keep_cases (λ l. length l ≤ capacity) kept c cs (λ e. length-keep kept cs h)
        (λ e f. omega (arith, length-append kept (c ∷ []), h))
        (λ e f. length-keep (kept ++ (c ∷ [])) cs (ground (arith, f)))

  abbrev pub Apart : Detection F D → Detection F D → Type 0
  Apart a b = ¬ TooClose o threshold b a

  not_suppressed :
      (c : Detection F D) (kept : List (Detection F D))
      → suppressed o threshold c kept ≡ false
      → All (λ a. Apart a c) kept
  unfolding suppressed
  not_suppressed c [] e = tt
  not_suppressed c (a ∷ kept) e = elim (Bool-cases (overlaps o threshold c a)) [
    | inl f ↦ cc (rw f at e)
    | inr f ↦ (λ t. cc (f, (overlaps_iff o threshold c a).1 t), not_suppressed c kept (rw f at e))
  ]

  pub keep-Apart : (kept cs : List (Detection F D)) → Pairs Apart kept → Pairs Apart (keep kept cs)
  unfolding keep_best
  keep-Apart kept [] h = h
  keep-Apart kept (c ∷ cs) h =
      keep_cases (Pairs Apart) kept c cs (λ e. keep-Apart kept cs h)
        (λ e f. Pairs-append_one Apart kept c h (not_suppressed c kept e))
        (λ e f.
          keep-Apart (kept ++ (c ∷ [])) cs
            (Pairs-append_one Apart kept c h (not_suppressed c kept e)))

  module _ (R : Detection F D → Detection F D → Type 0) where
    abbrev Before : List (Detection F D) → List (Detection F D) → Type 0
    Before kept cs = All (λ k. All (R k) cs) kept

    Before-longer :
        (kept : List (Detection F D)) (c : Detection F D) (cs : List (Detection F D))
        → Before kept (c ∷ cs)
        → All (R c) cs
        → Before (kept ++ (c ∷ [])) cs
    Before-longer kept c cs h g =
        All-append (λ k. All (R k) cs) kept (c ∷ []) (All-swap_tail R kept c cs h) (g, tt)

    -- The kept detections are in the order of the candidates.
    pub keep-Pairs :
        (kept cs : List (Detection F D))
        → Pairs R kept
        → Before kept cs
        → Pairs R cs
        → Pairs R (keep kept cs)
    unfolding keep_best
    keep-Pairs kept [] h b s = h
    keep-Pairs kept (c ∷ cs) h b s =
        keep_cases (Pairs R) kept c cs (λ e. keep-Pairs kept cs h (All-swap_tail R kept c cs b) s.1)
          (λ e f. Pairs-append_one R kept c h (All-heads R kept c cs b))
          (λ e f.
            keep-Pairs (kept ++ (c ∷ [])) cs (Pairs-append_one R kept c h (All-heads R kept c cs b))
              (Before-longer kept c cs b s.0) s.1)

    -- What becomes of a candidate: it is kept, or one that comes before it and overlaps it too much is,
    -- or there was no room.
    pub Covered : List (Detection F D) → Detection F D → Type 0
    Covered kept c =
        Any (λ k. k ≡ c) kept
        ⊎ (Any (λ k. TooClose o threshold c k × R k c) kept ⊎ (capacity ≤ length kept))

    suppressor :
        (c : Detection F D) (kept : List (Detection F D))
        → suppressed o threshold c kept ≡ true
        → All (λ k. R k c) kept
        → Any (λ k. TooClose o threshold c k × R k c) kept
    unfolding suppressed
    suppressor c [] e h = cc
    suppressor c (a ∷ kept) e h = elim (Bool-cases (overlaps o threshold c a)) [
      | inl f ↦ inl ((overlaps_iff o threshold c a).0 f, h.0)
      | inr f ↦ inr (suppressor c kept (rw f at e) h.1)
    ]

    all-Covered_if_full :
        (kept cs : List (Detection F D)) → capacity ≤ length kept → All (Covered kept) cs
    unfolding Covered
    all-Covered_if_full kept [] h = tt
    all-Covered_if_full kept (c ∷ cs) h = (inr (inr h), all-Covered_if_full kept cs h)

    pub keep-Covered :
        (kept cs : List (Detection F D))
        → Before kept cs
        → Pairs R cs
        → All (Covered (keep kept cs)) cs
    unfolding Covered keep_best
    keep-Covered kept [] b s = tt
    keep-Covered kept (c ∷ cs) b s =
        keep_cases (λ l. All (Covered l) (c ∷ cs)) kept c cs
          (λ e. (
            inr (
                inl (
                  keep-Any (λ k. TooClose o threshold c k × R k c) kept cs
                    (suppressor c kept e (All-heads R kept c cs b)))),
            keep-Covered kept cs (All-swap_tail R kept c cs b) s.1,
          ))
          (λ e f. (
            inl (Any-append_end (λ k. k ≡ c) kept c refl),
            all-Covered_if_full (kept ++ (c ∷ [])) cs (ground (arith, f)),
          ))
          (λ e f. (
            inl (
                keep-Any (λ k. k ≡ c) (kept ++ (c ∷ [])) cs
                  (Any-append_end (λ k. k ≡ c) kept c refl)),
            keep-Covered (kept ++ (c ∷ [])) cs (Before-longer kept c cs b s.0) s.1,
          ))
