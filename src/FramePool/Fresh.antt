-- ===== src/FramePool/Fresh.antt =====
-- The pool that `frame_pool_init` makes is valid, and every one of its frames is available.
use video_compute_pipeline.Prelude.{
  ℕ, zero, suc, ◌≡◌, refl, true, false, not, List, inl, inr, Option, none, some, arith, Bool,
  Bool-cases, length, All, replicate, ap, ◌==◌, ◌||◌, if_cases, if_ind,
}
use video_compute_pipeline.Prelude.Int.{ℤ, is_pos, eq_ℤ, eq_ℤ_iff, success}
use video_compute_pipeline.Memory.{Heap, Block, calloc}
use video_compute_pipeline.Frame
use video_compute_pipeline.Frame.{Frame, FrameFormat}
use video_compute_pipeline.Frame.Valid.{alloc_lem}
use video_compute_pipeline.FrameSlot
use video_compute_pipeline.FrameSlot.{FrameSlot}
use video_compute_pipeline.FramePool.{FramePool, zeroed, fill_slots, init_slots, init}
use video_compute_pipeline.FramePool.Invariant.{IsPool}
use video_compute_pipeline.FramePool.Slots.{IsPooled, SlotOk, occupied_count}

calloc_zeroed :
    (h : Heap) (zeros : List FrameSlot) (c : Block FrameSlot)
    → (calloc h zeros).1 ≡ some c
    → c.contents ≡ zeros
unfolding calloc
calloc_zeroed h zeros c e = elim (Bool-cases (h.grants h.calls)) [
  | inl given ↦ ground arith
  | inr refused ↦ cc (simp refused at e)
]

module _ (w ht : ℤ) (fmt : FrameFormat) where
  -- The loop has filled every slot.
  record FilledAll (n : ℕ) (r : Heap × List FrameSlot × ℕ × Bool) : Type 0 where
    slots : All (SlotOk w ht fmt) r.1
    counted : r.2 ≡ occupied_count r.1
    every : r.2 ≡ n
    room : length r.1 ≡ n

  allocated_frame :
      (h : Heap)
      → (Frame.alloc h Frame.init w ht fmt).2 ≡ success
      → IsPooled w ht fmt (Frame.alloc h Frame.init w ht fmt).1
  allocated_frame h e = elim (alloc_lem h Frame.init w ht fmt) [
    | inl r ↦ cc (e, r.result)
    | inr r ↦ record { filled = r.filled; width = r.width; height = r.height; format = r.format }
  ]

  fill_slots-FilledAll :
      (h : Heap) (n : ℕ)
      → let r = fill_slots w ht fmt h (replicate n FrameSlot.init) in r.3 ≡ true → FilledAll n r
  unfolding fill_slots
  fill_slots-FilledAll h zero e = record { slots = tt; counted = refl; every = refl; room = refl }
  fill_slots-FilledAll h (suc n) e =
      elim (Bool-cases (eq_ℤ (Frame.alloc h Frame.init w ht fmt).2 success)) [
        | inr no_frame ↦ cc (simp no_frame at e)
        | inl got ↦
            let rest =
              fill_slots-FilledAll (Frame.alloc h Frame.init w ht fmt).0 n (simp got at e) in
            simp got (record {
              slots = (inl (refl, allocated_frame h ((eq_ℤ_iff _ success).0 got)), rest.slots);
              counted = omega (arith, rest.counted);
              every = ap suc rest.every;
              room = ap suc rest.room;
            })
      ]

  -- The outcome of a call: if it succeeds the pool is valid, open and full.
  abbrev Ready : ℕ → Heap × FramePool × ℤ → Type 0
  Ready capacity out =
      out.2 ≡ success
      → IsPool w ht fmt out.1
        × (out.1.capacity ≡ capacity)
        × (out.1.available ≡ capacity)
        × (out.1.closed ≡ false)

  init_slots-Ready :
      (h : Heap) (n : ℕ) (b : Option (Block FrameSlot))
      → ((c : Block FrameSlot) → b ≡ some c → c.contents ≡ replicate n FrameSlot.init)
      → Ready n (init_slots h zeroed n w ht fmt b)
  unfolding init_slots
  init_slots-Ready h n none blank = λ e. cc
  init_slots-Ready h n (some b) blank = rw (blank b refl) (
      if_cases (Ready n) (fill_slots w ht fmt h (replicate n FrameSlot.init)).3
        (λ all e.
          let v = fill_slots-FilledAll h n all in
          (
            record {
              ready = refl;
              block = record b {
                contents = (fill_slots w ht fmt h (replicate n FrameSlot.init)).1;
              };
              stored = refl;
              room = v.room;
              counted = v.counted;
              slots = v.slots;
            },
            refl,
            v.every,
            refl,
          ))
        (λ short e. cc))

init_all :
    (h : Heap) (p : FramePool) (capacity : ℕ) (w ht : ℤ) (fmt : FrameFormat)
    → Ready w ht fmt capacity (init h p capacity w ht fmt)
unfolding init
init_all h p capacity w ht fmt =
    if_ind (Ready w ht fmt capacity) (capacity == 0 || (not (is_pos w) || not (is_pos ht)))
      (λ e. cc)
      (init_slots-Ready w ht fmt _ capacity _
        (λ c e. calloc_zeroed h (replicate capacity FrameSlot.init) c e))

-- If `frame_pool_init` succeeds, the pool is valid and open, it has the capacity that was asked
-- for, and that many frames of the given dimensions are available.
pub init-IsPool :
    (h : Heap) (p : FramePool) (capacity : ℕ) (w ht : ℤ) (fmt : FrameFormat)
    → (init h p capacity w ht fmt).2 ≡ success
    → let (h', p', result) = init h p capacity w ht fmt in
      IsPool w ht fmt p'
      × (p'.capacity ≡ capacity)
      × (p'.available ≡ capacity)
      × (p'.closed ≡ false)
init-IsPool h p capacity w ht fmt e = init_all h p capacity w ht fmt e
