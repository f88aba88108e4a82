-- ===== src/Runner/Hardware/Threads/Number.antt =====
-- pipeline/pipeline_runner.c: the decoder numbers the frames of the video one after the other.
use video_compute_pipeline.Prelude.{
  ℕ, zero, suc, ◌+◌, ◌<◌, ◌≤◌, ◌≡◌, refl, sym, ap, subst, ◌∙◌, true, false, Option, none, some,
  get_or, set, get_or-set_self, length-set, length, arith, if_cases,
}
use video_compute_pipeline.Prelude.Int.{ℤ, pos, pos_part, is_pos, is_neg, eq_ℤ}
use video_compute_pipeline.Memory.{Block}
use video_compute_pipeline.FrameBatch.CudaFrame.{CudaNv12Frame}
use video_compute_pipeline.FrameBatch.{array, store}
use video_compute_pipeline.Runner.Hardware.{HwServices}
use video_compute_pipeline.Runner.Hardware.Output.{Batch, Context, timing_at, frame_at}
use video_compute_pipeline.Runner.Hardware.Log.{array-set_ne}
use video_compute_pipeline.Runner.Hardware.Threads.{
  Filled, reached_eof, broken, has_all, with_read, numbered, decode_slots,
}

array-set_self :
    {A : Type 0} (o : Option (Block A)) (i : ℕ) (v d : A)
    → i < length (array o)
    → get_or (array (store o (set (array o) i v))) i d ≡ v
array-set_self none i v d lt = absurd (omega (arith, lt))
array-set_self (some b) i v d lt = get_or-set_self b.contents i v d lt

length-store :
    {A : Type 0} (o : Option (Block A)) (i : ℕ) (v : A)
    → length (array (store o (set (array o) i v))) ≡ length (array o)
length-store none i v = refl
length-store (some b) i v = length-set b.contents i v

module _ {T F R W : Type 0} (s : HwServices T F R W)
    (indexed : (i : ℤ) (t : T) → s.frame_index (s.with_index i t) ≡ i) where
  -- What the loop over the slots has done from `slot` on, with `m` frames read.
  pub record Numbered (m slot : ℕ) (ctx : Context s) (b : Batch s) (k : ℕ)
      (out : Context s × Batch s × ℕ × Filled) : Type 0 where
    pub next : out.2 ≡ k + m
    pub valid : (v : ℕ) → b.valid_frames ≡ pos v → out.1.valid_frames ≡ pos (v + m)
    pub behind : (j : ℕ) → j < slot → timing_at s out.1 j ≡ timing_at s b j
    pub index : (j : ℕ) → j < m → s.frame_index (timing_at s out.1 (slot + j)) ≡ pos (k + j)
    pub at_most :
        is_pos ctx.max_frames ≡ true → k ≤ pos_part ctx.max_frames → out.2 ≤ pos_part ctx.max_frames

  abbrev pub Read : ℕ → ℕ → Context s → Batch s → ℕ → Context s × Batch s × ℕ × Filled → Type 0
  Read n slot ctx b k out = (m : ℕ) × (m ≤ n) × Numbered m slot ctx b k out

  -- A read that gives no frame.
  none-Read :
      (n slot : ℕ) (ctx ctx' : Context s) (b : Batch s) (k : ℕ) (f : CudaNv12Frame R) (t : T)
      (r : Filled)
      → Read n slot ctx b k (ctx', with_read s b slot f t, k, r)
  none-Read n slot ctx ctx' b k f t r = (
    0,
    omega arith,
    record {
      next = omega arith;
      valid = λ v e. e ∙ ap pos (omega arith);
      behind = λ j lt. array-set_ne b.timings t s.zero_timing (λ e. absurd (omega (arith, e, lt)));
      index = λ j lt. absurd (omega (arith, lt));
      at_most = λ e le. le;
    },
  )

  -- A frame that is read, with what the rest of the loop does.
  one-Read :
      (n slot : ℕ) (ctx ctx' : Context s) (b : Batch s) (k : ℕ) (f : CudaNv12Frame R) (t : T)
      (out : Context s × Batch s × ℕ × Filled)
      → slot < length (array b.timings)
      → has_all s ctx k ≡ false
      → ctx'.max_frames ≡ ctx.max_frames
      → Read n (slot + 1) ctx' (numbered s b slot f t k) (k + 1) out
      → Read (suc n) slot ctx b k out
  one-Read n slot ctx ctx' b k f t out room more same (m, le, rest) = (
    suc m,
    omega (arith, le),
    record {
      next = omega (arith, rest.next);
      valid = λ v e. rest.valid (suc v) (ap (λ x. pos (suc (pos_part x))) e) ∙ ap pos (omega arith);
      behind = λ j lt.
          rest.behind j (omega (arith, lt))
          ∙ array-set_ne b.timings _ s.zero_timing (λ e. absurd (omega (arith, e, lt)));
      index = index;
      at_most = λ e g.
          subst (λ x. out.2 ≤ pos_part x) same
            (rest.at_most (ap is_pos same ∙ e)
              (subst (λ x. k + 1 ≤ pos_part x) (sym same) (ground (arith, e, g, more))));
    },
  )
    where
      here : s.frame_index (timing_at s (numbered s b slot f t k) slot) ≡ pos k
      here =
          ap s.frame_index
            (array-set_self b.timings slot (s.with_index (pos k) t) s.zero_timing room)
          ∙ indexed (pos k) t

      at_index :
          (i c i' c' : ℕ)
          → i ≡ i'
          → c ≡ c'
          → s.frame_index (timing_at s out.1 i) ≡ pos c
          → s.frame_index (timing_at s out.1 i') ≡ pos c'
      at_index i c i' c' d e h =
          ap (λ x. s.frame_index (timing_at s out.1 x)) (sym d) ∙ h ∙ ap pos e

      index : (j : ℕ) → j < suc m → s.frame_index (timing_at s out.1 (slot + j)) ≡ pos (k + j)
      index zero lt =
          at_index slot k (slot + 0) (k + 0) (omega arith) (omega arith)
            (ap s.frame_index (rest.behind slot (omega arith)) ∙ here)
      index (suc j) lt =
          at_index (slot + 1 + j) (k + 1 + j) (slot + suc j) (k + suc j) (omega arith) (omega arith)
            (rest.index j (omega (arith, lt)))

  pub decode_slots-Read :
      (n slot : ℕ) (ctx : Context s) (b : Batch s) (k : ℕ)
      → slot + n ≤ length (array b.timings)
      → Read n slot ctx b k (decode_slots s n slot ctx b k)
  unfolding decode_slots
  decode_slots-Read zero slot ctx b k room = (
    0,
    omega arith,
    record {
      next = omega arith;
      valid = λ v e. e ∙ ap pos (omega arith);
      behind = λ j lt. refl;
      index = λ j lt. absurd (omega (arith, lt));
      at_most = λ e le. le;
    },
  )
  decode_slots-Read (suc n) slot ctx b k room =
      if_cases (Read (suc n) slot ctx b k) (has_all s ctx k)
        (λ e. (
          0,
          omega arith,
          record {
            next = omega arith;
            valid = λ v e. e ∙ ap pos (omega arith);
            behind = λ j lt. refl;
            index = λ j lt. absurd (omega (arith, lt));
            at_most = λ e le. le;
          },
        ))
        λ more.
          if_cases (Read (suc n) slot ctx b k) (eq_ℤ read.2 (pos 0))
            (λ e. none-Read (suc n) slot ctx ctx' b k read.1 timing reached_eof)
            λ e.
              if_cases (Read (suc n) slot ctx b k) (is_neg read.2)
                (λ g. none-Read (suc n) slot ctx ctx' b k read.1 timing broken)
                (λ g. one-Read n slot ctx ctx' b k read.1 timing _ (omega (arith, room)) more refl (
                  decode_slots-Read n (slot + 1) ctx' (numbered s b slot read.1 timing k) (k + 1) (
                    omega
                      (arith, room, length-store b.timings slot (s.with_index (pos k) timing)))))
    where
      read : W × CudaNv12Frame R × ℤ
      read = s.read_frame ctx.world (frame_at s b slot)

      ctx' : Context s
      ctx' = record ctx { world = read.0 }

      timing : T
      timing = s.decoded read.0 (timing_at s b slot)
