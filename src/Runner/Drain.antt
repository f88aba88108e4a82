-- ===== src/Runner/Drain.antt =====
-- pipeline/pipeline_runner.c: what `write_packet` and `write_available_ordered` write.
use mathlib.Core.List.{Permᴰ}
use video_compute_pipeline.Prelude.{
  ℕ, zero, suc, ◌+◌, ◌<◌, ◌≡◌, refl, sym, ap, ◌∙◌, Bool, true, false, Bool-cases, ◌⊎◌, inl, inr,
  Option, none, some, List, [], ◌∷◌, All, get_or, length, arith, if◌then◌else◌,
}
use video_compute_pipeline.Prelude.Int.{ℤ, pos, pos_part, success, yes_one}
use video_compute_pipeline.Prelude.Shuffle.{Any, All-Permᴰ, Any-Permᴰ, length-Permᴰ}
use video_compute_pipeline.Memory.{Heap}
use video_compute_pipeline.Frame.{Frame}
use video_compute_pipeline.Frame.Valid.{IsFilled}
use video_compute_pipeline.FramePool.Grants.{release-grants}
use video_compute_pipeline.Runner.Packet
use video_compute_pipeline.Runner.Packet.{PipelinePacket, move_lem}
use video_compute_pipeline.Runner.Pending
use video_compute_pipeline.Runner.Pending.{PendingNode, index, hand_over, unlink}
use video_compute_pipeline.Runner.Lookup.{Found, missing, found, unlink-Found}
use video_compute_pipeline.Runner.Encoder.{
  Services, PipelineContext, Progress, write_packet, write_available,
}

-- The writer and the benchmark do their work.
pub record IsReliable {T W : Type 0} (s : Services T W) : Type 0 where
  pub writes : (w : W) (f : Frame) → (s.write_frame w f).1 ≡ success
  pub adds : (w : W) (t : T) → (s.add_frame_result w t).1 ≡ success

module _ {T W : Type 0} (s : Services T W) (bench : Bool) where
  abbrev pub vacant : PipelinePacket T
  vacant = Packet.init s.zero_timing

  -- The outside once a packet is written, with its timing reported if the benchmark is on.
  abbrev pub after_write : W → PipelinePacket T → W
  after_write w p =
      let w1 = (s.write_frame w p.frame).0 in
      if bench then (s.add_frame_result w1 (s.timed w1 p.timing)).0 else w1

  -- The outside once the first packets of a list are written, in its order.
  abbrev pub write_first : ℕ → List (PipelinePacket T) → W → W
  write_first zero ps w = w
  write_first (suc n) [] w = w
  write_first (suc n) (p ∷ ps) w = write_first n ps (after_write w p)

  write_first-suc :
      (n : ℕ) (ps : List (PipelinePacket T)) (w : W)
      → n < length ps
      → write_first (suc n) ps w ≡ after_write (write_first n ps w) (get_or ps n vacant)
  write_first-suc zero [] w lt = absurd (omega (arith, lt))
  write_first-suc zero (p ∷ ps) w lt = refl
  write_first-suc (suc n) [] w lt = absurd (omega (arith, lt))
  write_first-suc (suc n) (p ∷ ps) w lt = write_first-suc n ps (after_write w p) (omega (arith, lt))

  module _ (frames : List (PipelinePacket T)) (start : W) where
    -- The packet is one of the frames, at the place that its index names.
    pub record Due (p : PipelinePacket T) : Type 0 where
      pub place : ℕ
      pub inside : place < length frames
      pub named : p.frame.index ≡ pos place
      pub same : p ≡ get_or frames place vacant
      pub filled : IsFilled p.frame

    abbrev pub At : ℕ → PendingNode T → Type 0
    At k n = index n ≡ pos k

    -- The packets before the next one have been written in order, and the pending ones are due.
    pub record Going (h : Heap) (ctx : PipelineContext W) (pending : List (PendingNode T))
        (next : ℕ) : Type 0 where
      pub due : All (λ (n : PendingNode T). Due n.packet) pending
      pub sent : ctx.world ≡ write_first next frames start
      pub grants : (k : ℕ) → h.grants k ≡ true
      pub quiet : ctx.failed ≡ false
      pub bench_on : ctx.enable_benchmark ≡ bench

    -- The same packets are accounted for, and the next one is not pending.
    pub record Drained (pending : List (PendingNode T)) (next : ℕ) (r : Progress T W) : Type 0 where
      pub going : Going r.heap r.ctx r.pending r.next_frame_id
      pub result : r.result ≡ success
      pub total : length r.pending + r.next_frame_id ≡ length pending + next
      pub kept :
          (k : ℕ) → (k < next) ⊎ Any (At k) pending → (k < r.next_frame_id) ⊎ Any (At k) r.pending
      pub waits_for : Any (At r.next_frame_id) r.pending → ⊥

    module _ (reliable : IsReliable s) where
      write_packet_lem :
          (ctx : PipelineContext W) (p : PipelinePacket T)
          → ctx.enable_benchmark ≡ bench
          → write_packet s ctx p ≡ (
            record ctx { world = after_write ctx.world p },
            record p { timing = s.timed (s.write_frame ctx.world p.frame).0 p.timing },
            success,
          )
      unfolding write_packet
      write_packet_lem ctx p e = elim (Bool-cases bench) [
        | inl on ↦ simp (
          e,
          on,
          reliable.writes ctx.world p.frame,
          reliable.adds (s.write_frame ctx.world p.frame).0
              (s.timed (s.write_frame ctx.world p.frame).0 p.timing),
        )
        | inr off ↦ simp (e, off, reliable.writes ctx.world p.frame)
      ]

      -- What `pending_take` does, by what its search finds.
      data Taken (i : ℤ) (h : Heap) (ns : List (PendingNode T))
          (r : Heap × List (PendingNode T) × PipelinePacket T × ℤ) : Type 0 where
        gone : (Any (λ n. index n ≡ i) ns → ⊥) → r ≡ (h, ns, vacant, pos 0) → Taken i h ns r
        took :
            (h' : Heap) (n : PendingNode T) (rest : List (PendingNode T))
            → index n ≡ i
            → Permᴰ ns (n ∷ rest)
            → h'.grants ≡ h.grants
            → r ≡ (h', rest, n.packet, yes_one)
            → Taken i h ns r

      hand_over-Taken :
          (i : ℤ) (h : Heap) (ns : List (PendingNode T))
          (o : Option (PendingNode T × List (PendingNode T)))
          → All (λ (n : PendingNode T). Due n.packet) ns
          → Found i ns o
          → Taken i h ns (hand_over s.zero_timing h ns vacant o)
      unfolding hand_over
      hand_over-Taken i h ns none due (missing m) = gone m refl
      hand_over-Taken i h ns (some (n, rest)) due (found e p) =
          let d = (All-Permᴰ (λ (n : PendingNode T). Due n.packet) p due).0 in
          rw (move_lem s.zero_timing h vacant n.packet d.filled) (took _ n rest e p refl refl)

      take-Taken :
          (i : ℤ) (h : Heap) (ns : List (PendingNode T))
          → All (λ (n : PendingNode T). Due n.packet) ns
          → Taken i h ns (Pending.take s.zero_timing h ns i vacant)
      unfolding Pending.take
      take-Taken i h ns due = hand_over-Taken i h ns (unlink i ns) due (unlink-Found i ns)

      -- One packet more in order.
      sent_one :
          (w : W) (next : ℕ) (p : PipelinePacket T)
          → w ≡ write_first next frames start
          → Due p
          → p.frame.index ≡ pos next
          → after_write w p ≡ write_first (next + 1) frames start
      sent_one w next p e d at =
          ap (λ w. after_write w p) e
          ∙ ap (after_write (write_first next frames start))
              (d.same ∙ ap (λ k. get_or frames k vacant) same_place)
          ∙ sym (write_first-suc next frames start (omega (arith, d.inside, same_place)))
          ∙ ap (λ k. write_first k frames start) {x = suc next} {y = next + 1} (omega arith)
        where
          same_place : d.place ≡ next
          same_place = ap pos_part (sym d.named ∙ at)

      -- Taking the next packet off accounts for it.
      kept_one :
          (k next : ℕ) (n : PendingNode T) (pending rest : List (PendingNode T))
          → Permᴰ pending (n ∷ rest)
          → index n ≡ pos next
          → (k < next) ⊎ Any (At k) pending
          → (k < next + 1) ⊎ Any (At k) rest
      kept_one k next n pending rest p at (inl lt) = inl (omega (arith, lt))
      kept_one k next n pending rest p at (inr a) = elim (Any-Permᴰ (At k) p a) [
        | inl here ↦ inl (same_lt (ap pos_part (sym here ∙ at)))
        | inr there ↦ inr there
      ]
        where
          same_lt : k ≡ next → k < next + 1
          same_lt e = omega (arith, e)

      pub drain :
          (fuel : ℕ) (h : Heap) (ctx : PipelineContext W) (pending : List (PendingNode T))
          (next : ℕ)
          → length pending < fuel
          → Going h ctx pending next
          → Drained pending next (write_available s fuel h ctx pending next)
      unfolding write_available
      drain zero h ctx pending next enough v = absurd (omega (arith, enough))
      drain (suc fuel) h ctx pending next enough v = elim (take-Taken (pos next) h pending v.due) [
        | gone m e ↦
            rw e (record { going = v; result = refl; total = refl; kept = λ k a. a; waits_for = m })
        | took h' n rest at p g e ↦
            let all = All-Permᴰ (λ (n : PendingNode T). Due n.packet) p v.due in
            let fewer = length-Permᴰ p in
            let later = drain fuel _ _ rest (next + 1) (omega (arith, fewer, enough)) (record {
              due = all.1;
              sent = sent_one ctx.world next n.packet v.sent all.0 at;
              grants = λ k.
                  ap (λ g. g k) (release-grants h' ctx.processed_frame_pool n.packet.frame ∙ g)
                  ∙ v.grants k;
              quiet = v.quiet;
              bench_on = v.bench_on;
            }) in
            rw (e, write_packet_lem ctx n.packet v.bench_on)
              (record {
                going = later.going;
                result = later.result;
                total = omega (arith, later.total, fewer);
                kept = λ k a. later.kept k (kept_one k next n pending rest p at a);
                waits_for = later.waits_for;
              })
      ]
