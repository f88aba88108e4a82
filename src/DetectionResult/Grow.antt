-- ===== src/DetectionResult/Grow.antt =====
-- inference/detection_result.c: the detections that a result holds, and what an addition does.
use video_compute_pipeline.Prelude.{
  ℕ, zero, suc, ◌≤◌, ◌<◌, ◌≡◌, refl, ap, sym, ◌∙◌, inl, inr, false, Option, none, some, List, [],
  ◌∷◌, ◌++◌, length, length-set, set, arith, leb, Bool-cases, dec_lt,
}
use video_compute_pipeline.Prelude.Text.{first}
use video_compute_pipeline.Prelude.Int.{ℤ, success, failure}
use video_compute_pipeline.Memory.{Block, size_max, add_size, is_some}
use video_compute_pipeline.DetectionResult.{DetectionResult, add}

module _ {D : Type 0} where
  first-set :
      (n : ℕ) (ds : List D) (d : D)
      → n < length ds
      → first (suc n) (set ds n d) ≡ first n ds ++ (d ∷ [])
  first-set zero [] d lt = absurd (omega (arith, lt))
  first-set zero (e ∷ ds) d lt = refl
  first-set (suc n) [] d lt = absurd (omega (arith, lt))
  first-set (suc n) (e ∷ ds) d lt = ap (λ l. e ∷ l) (first-set n ds d (omega (arith, lt)))

  abbrev array : Option (Block D) → List D
  array none = []
  array (some b) = b.contents

  -- The detections that were added, oldest first.
  abbrev pub contents : DetectionResult D → List D
  contents r = first r.count (array r.items)

  pub record IsResult (r : DetectionResult D) : Type 0 where
    pub room : length (array r.items) ≡ r.capacity
    pub fits : r.count ≤ r.capacity
    pub small : r.capacity ≤ size_max

  -- What `detection_result_add` does, by the room that is left.
  pub data AddCase (r : DetectionResult D) (d : D) (out : DetectionResult D × ℤ) : Type 0 where
    no_room : r.count ≡ r.capacity → out ≡ (r, failure) → AddCase r d out
    added :
        r.count < r.capacity
        → out.1 ≡ success
        → IsResult out.0
        → out.0.capacity ≡ r.capacity
        → contents out.0 ≡ contents r ++ (d ∷ [])
        → AddCase r d out

  add_full : (r : DetectionResult D) (d : D) → r.capacity ≤ r.count → add r d ≡ (r, failure)
  unfolding add
  add_full r d full = elim (Bool-cases (is_some r.items)) [
    | inl e ↦ simp e (ground (arith, full))
    | inr e ↦ simp e
  ]

  add_below :
      (r : DetectionResult D) (d : D) (items : Option (Block D))
      → r.items ≡ items
      → IsResult r
      → r.count < r.capacity
      → AddCase r d (add r d)
  unfolding add
  add_below r d none e v lt = absurd (omega (arith, lt, v.room, ap (λ i. length (array i)) e))
  add_below r d (some b) e v lt =
      simp (e, below, no_wrap)
        (added lt refl
          (record {
            room = length-set b.contents r.count d ∙ ap (λ i. length (array i)) (sym e) ∙ v.room;
            fits = lt;
            small = v.small;
          })
          refl
          (first-set r.count b.contents d (omega (arith, lt, v.room, ap (λ i. length (array i)) e))
            ∙ ap (λ i. first r.count (array i) ++ (d ∷ [])) (sym e)))
    where
      below : leb r.capacity r.count ≡ false
      below = ground (arith, lt)

      no_wrap : add_size r.count 1 ≡ suc r.count
      no_wrap = omega (arith, lt, v.small)

  -- `detection_result_add` on a valid result: if it is full the call fails and nothing changes; else
  -- the detection comes after those that were there, and the result stays valid with its capacity.
  pub add_lem : (r : DetectionResult D) (d : D) → IsResult r → AddCase r d (add r d)
  add_lem r d v = elim (dec_lt r.count r.capacity) [
    | yes lt ↦ add_below r d r.items refl v lt
    | no full ↦ no_room (omega (arith, full, v.fits)) (add_full r d (omega (arith, full)))
  ]
