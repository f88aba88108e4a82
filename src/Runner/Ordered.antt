-- ===== src/Runner/Ordered.antt =====
-- pipeline/pipeline_runner.c: the encoder writes the frames in their order, whatever order the
-- workers deliver them in.
use mathlib.Core.List.{Permᴰ}
use video_compute_pipeline.Prelude.{
  ℕ, ◌<◌, ◌≤◌, ◌≡◌, refl, ap, ◌∙◌, Bool, true, false, inl, inr, List, [], ◌∷◌, All, get_or, length,
  arith, dec_lt,
}
use video_compute_pipeline.Prelude.Int.{pos}
use video_compute_pipeline.Prelude.Shuffle.{
  Any, All-Permᴰ, Any-Permᴰ, length-Permᴰ, All-get_or, Any-get_or,
}
use video_compute_pipeline.Memory.{Heap}
use video_compute_pipeline.Frame.Valid.{IsFilled}
use video_compute_pipeline.Runner.Packet.{PipelinePacket}
use video_compute_pipeline.Runner.Pending.{PendingNode}
use video_compute_pipeline.Runner.Encoder.{
  Services, PipelineContext, Progress, write_ordered, encode_loop, write_rest, leave, encoder_main,
}
use video_compute_pipeline.Runner.Drain.{
  IsReliable, vacant, after_write, write_first, Due, Going, Drained,
}
use video_compute_pipeline.Runner.Arrivals.{
  delivered, Advanced, drain_ordered, no_failure, encode_loop-Advanced,
}

module _ {T W : Type 0} (s : Services T W) (bench : Bool) where
  -- The specification: every packet is written, in the order of the list.
  abbrev pub write_all : List (PipelinePacket T) → W → W
  write_all [] w = w
  write_all (p ∷ ps) w = write_all ps (after_write s bench w p)

  write_first-length :
      (ps : List (PipelinePacket T)) (w : W) → write_first s bench (length ps) ps w ≡ write_all ps w
  write_first-length [] w = refl
  write_first-length (p ∷ ps) w = write_first-length ps (after_write s bench w p)

  -- The frames as the decoder numbers them.
  pub record InOrder (frames : List (PipelinePacket T)) : Type 0 where
    pub numbered :
        (i : ℕ) → i < length frames → (get_or frames i (vacant s bench)).frame.index ≡ pos i
    pub filled : (i : ℕ) → i < length frames → IsFilled (get_or frames i (vacant s bench)).frame

  module _ (reliable : IsReliable s) (frames : List (PipelinePacket T)) (start : W) where
    abbrev Ready : Heap → PipelineContext W → List (PendingNode T) → ℕ → Type 0
    Ready = Going s bench frames start

    abbrev IsDue : PipelinePacket T → Type 0
    IsDue = Due s bench frames start

    abbrev Numbered : ℕ → PipelinePacket T → Type 0
    Numbered k p = p.frame.index ≡ pos k

    -- Every frame is written and nothing is left.
    record Emptied (r : Progress T W) : Type 0 where
      going : Ready r.heap r.ctx r.pending r.next_frame_id
      pending : r.pending ≡ []
      next : r.next_frame_id ≡ length frames

    no_more : (ns : List (PendingNode T)) → length ns ≡ 0 → ns ≡ []
    no_more [] e = refl
    no_more (n ∷ ns) e = absurd (omega (arith, e))

    loop-Emptied :
        (ps : List (PipelinePacket T)) (h : Heap) (ctx : PipelineContext W)
        → Permᴰ frames ps
        → InOrder frames
        → Ready h ctx [] 0
        → Emptied (encode_loop s h ctx [] 0 (delivered ps))
    loop-Emptied ps h ctx perm order v = record {
      going = a.going;
      pending = no_more r.pending (omega (arith, a.total, all_written, length-Permᴰ perm));
      next = omega (arith, a.total, all_written, length-Permᴰ perm);
    }
      where
        r : Progress T W
        r = encode_loop s h ctx [] 0 (delivered ps)

        due : All IsDue frames
        due = All-get_or IsDue (vacant s bench) frames (λ i lt. record {
          place = i;
          inside = lt;
          named = order.numbered i lt;
          same = refl;
          filled = order.filled i lt;
        })

        a : Advanced s bench reliable frames start (λ k. Any (Numbered k) ps) (length ps) [] 0 r
        a =
            encode_loop-Advanced s bench reliable frames start ps h ctx [] 0
              (All-Permᴰ IsDue perm due) v (λ m. m)

        -- The next index would have come.
        all_written : length frames ≤ r.next_frame_id
        all_written = elim (dec_lt r.next_frame_id (length frames)) [
          | no done ↦ omega (arith, done)
          | yes lt ↦
              absurd
                (elim (a.kept r.next_frame_id (
                  inr (
                    inr (
                      Any-Permᴰ (Numbered r.next_frame_id) perm (
                        Any-get_or (Numbered r.next_frame_id) (vacant s bench) frames
                          r.next_frame_id lt (order.numbered r.next_frame_id lt)))))) [
                            | inl less ↦ omega (arith, less)
                            | inr m ↦ a.waits_for m
                          ])
        ]

    write_rest-Emptied : (r : Progress T W) → Emptied r → Emptied (write_rest s r)
    unfolding write_rest
    write_rest-Emptied r e =
        let d =
          drain_ordered s bench reliable frames start r.heap r.ctx r.pending r.next_frame_id
            e.going in
        no_failure s bench reliable frames start Emptied r.ctx.failed last.result _ _ e.going.quiet
          d.result
          (record {
            going = d.going;
            pending =
                no_more last.pending
                  (omega (arith, d.total, ap length e.pending, e.next, enough d));
            next = omega (arith, d.total, ap length e.pending, e.next, enough d);
          })
      where
        last : Progress T W
        last = write_ordered s r.heap r.ctx r.pending r.next_frame_id

        enough :
            Drained s bench frames start r.pending r.next_frame_id last
            → r.next_frame_id ≤ last.next_frame_id
        enough d = elim (dec_lt last.next_frame_id r.next_frame_id) [
          | no k ↦ omega (arith, k)
          | yes lt ↦ absurd (elim (d.kept last.next_frame_id (inl lt)) [
            | inl less ↦ omega (arith, less)
            | inr m ↦ d.waits_for m
          ])
        ]

  -- The outcome of `encoder_thread_main` when the whole video has come through.
  pub record Encoded (frames : List (PipelinePacket T)) (start : W) (r : Progress T W)
      : Type 0 where
    pub world : r.ctx.world ≡ (s.flush (write_all frames start)).0
    pub pending : r.pending ≡ []
    pub next : r.next_frame_id ≡ length frames
    pub quiet : r.ctx.failed ≡ false

  -- The writer is flushed.
  leave-Encoded :
      (reliable : IsReliable s) (frames : List (PipelinePacket T)) (start : W) (r : Progress T W)
      → Emptied reliable frames start r
      → Encoded frames start (leave s r)
  unfolding leave
  leave-Encoded reliable frames start r e =
      rw (e.pending, e.going.quiet)
        (record {
          world = ap (λ w. (s.flush w).0) sent_all;
          pending = refl;
          next = e.next;
          quiet = refl;
        })
    where
      sent_all : r.ctx.world ≡ write_all frames start
      sent_all =
          e.going.sent
          ∙ ap (λ n. write_first s bench n frames start) e.next
          ∙ write_first-length frames start

  -- If the writer and the benchmark do their work, calloc grants every call and nothing has failed,
  -- then whatever order the workers deliver the frames of a video in, filled and numbered from 0, the
  -- encoder writes every frame, in the order of the video, reports its timing if the benchmark is on,
  -- flushes the writer, keeps no packet back and does not fail.
  pub encoder_main_lem :
      (frames ps : List (PipelinePacket T)) (h : Heap) (ctx : PipelineContext W)
      → IsReliable s
      → InOrder frames
      → Permᴰ frames ps
      → ((k : ℕ) → h.grants k ≡ true)
      → ctx.failed ≡ false
      → ctx.enable_benchmark ≡ bench
      → Encoded frames ctx.world (encoder_main s h ctx (delivered ps))
  unfolding encoder_main
  encoder_main_lem frames ps h ctx reliable order perm grants quiet on =
      leave-Encoded reliable frames ctx.world _ (
        write_rest-Emptied reliable frames ctx.world _ (
          loop-Emptied reliable frames ctx.world ps h ctx perm order
            (record { due = tt; sent = refl; grants = grants; quiet = quiet; bench_on = on })))
