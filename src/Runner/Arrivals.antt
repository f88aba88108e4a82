-- ===== src/Runner/Arrivals.antt =====
-- pipeline/pipeline_runner.c: what a packet that reaches the encoder does to the frames that wait, and
-- what a series of packets does.
use video_compute_pipeline.Prelude.{
  ℕ, suc, ◌+◌, ◌<◌, ◌≡◌, refl, sym, ap, ◌∙◌, Bool, true, false, ◌⊎◌, inl, inr, List, [], ◌∷◌, All,
  length, arith, if◌then◌else◌, subst, not, ◌||◌,
}
use video_compute_pipeline.Prelude.Int.{ℤ, pos, eq_ℤ, success}
use video_compute_pipeline.Prelude.Shuffle.{Any, All-Permᴰ, Any-Permᴰ, length-Permᴰ}
use video_compute_pipeline.Memory.{Heap, calloc}
use video_compute_pipeline.Frame.Valid.{IsFilled}
use video_compute_pipeline.Runner.Packet.{PipelinePacket, move_lem}
use video_compute_pipeline.Runner.Pending
use video_compute_pipeline.Runner.Pending.{PendingNode, index, insert_node, insert_sorted}
use video_compute_pipeline.Runner.Lookup.{insert_sorted-Permᴰ}
use video_compute_pipeline.Runner.Encoder.{
  Services, PipelineContext, Progress, Arrival, write_ordered, accept, encode_loop,
}
use video_compute_pipeline.Runner.Drain.{IsReliable, vacant, Due, At, Going, Drained, drain}

-- The packets that come one after the other while nothing else has failed.
abbrev pub delivered : {T : Type 0} → List (PipelinePacket T) → List (Arrival T)
delivered [] = []
delivered (p ∷ ps) = record { packet = p; failed = false } ∷ delivered ps

module _ {T W : Type 0} (s : Services T W) (bench : Bool) (reliable : IsReliable s)
    (frames : List (PipelinePacket T)) (start : W) where
  abbrev Ready : Heap → PipelineContext W → List (PendingNode T) → ℕ → Type 0
  Ready = Going s bench frames start

  abbrev IsDue : PipelinePacket T → Type 0
  IsDue = Due s bench frames start

  abbrev Is : ℕ → PendingNode T → Type 0
  Is = At s bench frames start

  abbrev Numbered : ℕ → PipelinePacket T → Type 0
  Numbered k p = p.frame.index ≡ pos k

  -- A call of `pending_insert` that gets its node.
  record Inserted (h : Heap) (ns : List (PendingNode T)) (p : PipelinePacket T)
      (r : Heap × List (PendingNode T) × PipelinePacket T × ℤ) : Type 0 where
    node : PendingNode T
    holds : node.packet ≡ p
    heap : r.0.grants ≡ h.grants
    list : r.1 ≡ insert_sorted node ns
    left : r.2 ≡ vacant s bench
    result : r.3 ≡ success

  insert-Inserted :
      (h : Heap) (ns : List (PendingNode T)) (p : PipelinePacket T)
      → ((k : ℕ) → h.grants k ≡ true)
      → IsFilled p.frame
      → Inserted h ns p (Pending.insert s.zero_timing h ns p)
  unfolding Pending.insert insert_node calloc
  insert-Inserted h ns p grants v =
      rw
        (
          grants h.calls,
          move_lem s.zero_timing (record h { calls = suc h.calls; granted = h.calls ∷ h.granted })
              (vacant s bench) p v,
        )
        (record {
          node = record { address = h.calls; packet = p };
          holds = refl;
          heap = refl;
          list = refl;
          left = refl;
          result = refl;
        })

  -- The loop after a packet or more: `came` says which indices have come since.
  pub record Advanced (came : ℕ → Type 0) (n : ℕ) (pending : List (PendingNode T)) (next : ℕ)
      (r : Progress T W) : Type 0 where
    pub going : Ready r.heap r.ctx r.pending r.next_frame_id
    pub result : r.result ≡ success
    pub total : length r.pending + r.next_frame_id ≡ n + (length pending + next)
    pub kept :
        (k : ℕ)
        → (k < next) ⊎ (Any (Is k) pending ⊎ came k)
        → (k < r.next_frame_id) ⊎ Any (Is k) r.pending
    pub waits_for : Any (Is r.next_frame_id) r.pending → ⊥

  pub drain_ordered :
      (h : Heap) (ctx : PipelineContext W) (ns : List (PendingNode T)) (next : ℕ)
      → Ready h ctx ns next
      → Drained s bench frames start ns next (write_ordered s h ctx ns next)
  drain_ordered h ctx ns next v =
      drain s bench frames start reliable (suc (length ns)) h ctx ns next (omega arith) v

  -- The list with the node in place of the packet.
  placed :
      (node : PendingNode T) (p : PipelinePacket T) (ns : List (PendingNode T)) (next : ℕ)
      → node.packet ≡ p
      → (k : ℕ) → (k < next) ⊎ (Any (Is k) ns ⊎ Numbered k p)
      → (k < next) ⊎ Any (Is k) (insert_sorted node ns)
  placed node p ns next e k (inl lt) = inl lt
  placed node p ns next e k (inr (inl a)) =
      inr (Any-Permᴰ (Is k) (insert_sorted-Permᴰ node ns) (inr a))
  placed node p ns next e k (inr (inr a)) = inr (
      Any-Permᴰ (Is k) (insert_sorted-Permᴰ node ns)
        (inl (ap (λ (q : PipelinePacket T). q.frame.index) e ∙ a)))

  accept-Advanced :
      (h : Heap) (ctx : PipelineContext W) (ns : List (PendingNode T)) (next : ℕ)
      (p : PipelinePacket T)
      → Ready h ctx ns next
      → IsDue p
      → Advanced (λ k. Numbered k p) 1 ns next (accept s h ctx ns next p)
  unfolding accept
  accept-Advanced h ctx ns next p v d =
      let i = insert-Inserted h ns p v.grants d.filled in
      let perm = insert_sorted-Permᴰ i.node ns in
      let r =
        drain_ordered (Pending.insert s.zero_timing h ns p).0 ctx (insert_sorted i.node ns) next
          (record {
            due =
                All-Permᴰ (λ (n : PendingNode T). IsDue n.packet) perm
                  (subst IsDue (sym i.holds) d, v.due);
            sent = v.sent;
            grants = λ k. ap (λ g. g k) i.heap ∙ v.grants k;
            quiet = v.quiet;
            bench_on = v.bench_on;
          }) in
      rw (i.result, i.left, i.list)
        (record {
          going = r.going;
          result = r.result;
          total = omega (arith, r.total, length-Permᴰ perm);
          kept = λ k a. r.kept k (placed i.node p ns next i.holds k a);
          waits_for = r.waits_for;
        })

  -- The branch that the code takes when nothing has failed.
  pub no_failure :
      (P : Progress T W → Type 0) (b : Bool) (x : ℤ) (stopped bad : Progress T W)
      {next : Progress T W}
      → b ≡ false
      → x ≡ success
      → P next
      → P (if b then stopped else if not (eq_ℤ x success) then bad else next)
  no_failure P b x stopped bad eb ex h = rw (eb, ex) h

  pub encode_loop-Advanced :
      (ps : List (PipelinePacket T)) (h : Heap) (ctx : PipelineContext W)
      (ns : List (PendingNode T)) (next : ℕ)
      → All IsDue ps
      → Ready h ctx ns next
      → (Any (Is next) ns → ⊥)
      → Advanced
          (λ k. Any (Numbered k) ps)
          (length ps)
          ns
          next
          (encode_loop s h ctx ns next (delivered ps))
  unfolding encode_loop
  encode_loop-Advanced [] h ctx ns next due v waits = record {
    going = v;
    result = refl;
    total = omega arith;
    kept = λ k a. settled k a;
    waits_for = waits;
  }
    where
      settled : (k : ℕ) → (k < next) ⊎ (Any (Is k) ns ⊎ ⊥) → (k < next) ⊎ Any (Is k) ns
      settled k (inl lt) = inl lt
      settled k (inr (inl a)) = inr a
      settled k (inr (inr a)) = absurd a
  encode_loop-Advanced (p ∷ ps) h ctx ns next due v waits =
      let a = accept-Advanced h ctx ns next p v due.0 in
      let r = accept s h ctx ns next p in
      let rest =
        encode_loop-Advanced ps r.heap r.ctx r.pending r.next_frame_id due.1 a.going a.waits_for in
      no_failure (Advanced (λ k. Any (Numbered k) (p ∷ ps)) (suc (length ps)) ns next)
        (ctx.failed || false) r.result _ _ (rw v.quiet refl) a.result
        (record {
          going = rest.going;
          result = rest.result;
          total = omega (arith, rest.total, a.total);
          kept = λ k m. rest.kept k (regroup k r.next_frame_id r.pending (a.kept k) m);
          waits_for = rest.waits_for;
        })
    where
      widen :
          (k next' : ℕ) (ns' : List (PendingNode T))
          → (k < next') ⊎ Any (Is k) ns'
          → (k < next') ⊎ (Any (Is k) ns' ⊎ Any (Numbered k) ps)
      widen k next' ns' (inl lt) = inl lt
      widen k next' ns' (inr a) = inr (inl a)

      regroup :
          (k next' : ℕ) (ns' : List (PendingNode T))
          → ((k < next) ⊎ (Any (Is k) ns ⊎ Numbered k p) → (k < next') ⊎ Any (Is k) ns')
          → (k < next) ⊎ (Any (Is k) ns ⊎ (Numbered k p ⊎ Any (Numbered k) ps))
          → (k < next') ⊎ (Any (Is k) ns' ⊎ Any (Numbered k) ps)
      regroup k next' ns' f (inr (inr (inr later))) = inr (inr later)
      regroup k next' ns' f (inl lt) = widen k next' ns' (f (inl lt))
      regroup k next' ns' f (inr (inl a)) = widen k next' ns' (f (inr (inl a)))
      regroup k next' ns' f (inr (inr (inl a))) = widen k next' ns' (f (inr (inr a)))
