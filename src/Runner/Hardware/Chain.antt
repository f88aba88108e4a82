-- ===== src/Runner/Hardware/Chain.antt =====
-- pipeline/pipeline_runner.c: the list of pending batches loses none, and batches that follow each other.
use mathlib.Core.List.{Permᴰ}
use mathlib.Core.List.Permᴰ
use video_compute_pipeline.Prelude.{
  ℕ, ◌+◌, ◌<◌, ◌≡◌, refl, sym, ap, ap₂, subst, ◌∙◌, Bool-cases, inl, inr, Option, none, some, List,
  [], ◌∷◌, ◌++◌, if_ind, All, arith,
}
use video_compute_pipeline.Prelude.Int.{ℤ, pos, pos_part, eq_ℤ, eq_ℤ_iff, ltb_ℤ}
use video_compute_pipeline.Prelude.Shuffle.{Any, Permᴰ-cons, Permᴰ-swap}
use video_compute_pipeline.Runner.Hardware.{HwServices}
use video_compute_pipeline.Runner.Hardware.Output.{Batch, detection_batch_first_frame_id}
use video_compute_pipeline.Runner.Hardware.PendingBatch.{
  PendingBatchNode, insert_after, link, keep, unlink,
}

module _ {P : Type 0} where
  insert_after-Permᴰ :
      (node cur : PendingBatchNode P) (rest : List (PendingBatchNode P))
      → Permᴰ (node ∷ cur ∷ rest) (insert_after node cur rest)
  unfolding insert_after
  insert_after-Permᴰ node cur [] = Permᴰ-swap
  insert_after-Permᴰ node cur (next ∷ rest) =
      if_ind (Permᴰ (node ∷ cur ∷ next ∷ rest)) (ltb_ℤ next.first_frame_id node.first_frame_id)
        (Permᴰ.trans Permᴰ-swap (Permᴰ-cons (insert_after-Permᴰ node next rest))) Permᴰ-swap

  pub link-Permᴰ :
      (node : PendingBatchNode P) (ns : List (PendingBatchNode P))
      → Permᴰ (node ∷ ns) (link node ns)
  unfolding link
  link-Permᴰ node [] = Permᴰ.refl (node ∷ [])
  link-Permᴰ node (first ∷ rest) =
      if_ind (Permᴰ (node ∷ first ∷ rest)) (ltb_ℤ node.first_frame_id first.first_frame_id)
        (Permᴰ.refl (node ∷ first ∷ rest)) (insert_after-Permᴰ node first rest)

  -- What the search for a frame finds.
  pub data Found (i : ℤ) (ns : List (PendingBatchNode P))
      : Option (PendingBatchNode P × List (PendingBatchNode P)) → Type 0 where
    missing : (Any (λ n. n.first_frame_id ≡ i) ns → ⊥) → Found i ns none
    found :
        {n : PendingBatchNode P} {rest : List (PendingBatchNode P)}
        → n.first_frame_id ≡ i
        → Permᴰ ns (n ∷ rest)
        → Found i ns (some (n, rest))

  search_on :
      (i : ℤ) (n : PendingBatchNode P) (rest : List (PendingBatchNode P))
      → (n.first_frame_id ≡ i → ⊥)
      → (o : Option (PendingBatchNode P × List (PendingBatchNode P))) → Found i rest o
      → Found i (n ∷ rest) (keep n o)
  search_on i n rest other none (missing m) =
      missing (λ a. elim a [ inl e ↦ other e | inr later ↦ m later ])
  search_on i n rest other (some (m, ms)) (found e p) =
      found e (Permᴰ.trans (Permᴰ-cons p) Permᴰ-swap)

  pub unlink-Found : (i : ℤ) (ns : List (PendingBatchNode P)) → Found i ns (unlink i ns)
  unfolding unlink
  unlink-Found i [] = missing (λ a. a)
  unlink-Found i (n ∷ rest) = elim (Bool-cases (eq_ℤ n.first_frame_id i)) [
    | inl same ↦ rw same (found ((eq_ℤ_iff n.first_frame_id i).0 same) (Permᴰ.refl (n ∷ rest)))
    | inr other ↦ rw other (
        search_on i n rest (λ e. cc (other, (eq_ℤ_iff n.first_frame_id i).1 e)) (unlink i rest)
          (unlink-Found i rest))
  ]

  abbrev pub batches : List (PendingBatchNode P) → List P
  batches [] = []
  batches (n ∷ ns) = n.batch ∷ batches ns

  pub batches-Permᴰ :
      {ns ms : List (PendingBatchNode P)} → Permᴰ ns ms → Permᴰ (batches ns) (batches ms)
  batches-Permᴰ Permᴰ.nil = Permᴰ.nil
  batches-Permᴰ (Permᴰ.cons e p) = Permᴰ.cons (ap (λ n. n.batch) e) (batches-Permᴰ p)
  batches-Permᴰ (Permᴰ.swap d e) = Permᴰ.swap (ap (λ n. n.batch) d) (ap (λ n. n.batch) e)
  batches-Permᴰ (Permᴰ.trans p q) = Permᴰ.trans (batches-Permᴰ p) (batches-Permᴰ q)

module _ {T F R W : Type 0} (s : HwServices T F R W) where
  -- The batches follow each other: the first begins with frame k, and frame n follows the last.
  abbrev pub Chain : ℕ → List (Batch s) → ℕ → Type 0
  Chain k [] n = k ≡ n
  Chain k (b ∷ bs) n =
      (detection_batch_first_frame_id s b ≡ pos k) × Chain (k + pos_part b.valid_frames) bs n

  pub Chain-append :
      (k m n : ℕ) (bs cs : List (Batch s)) → Chain k bs m → Chain m cs n → Chain k (bs ++ cs) n
  Chain-append k m n [] cs h g = subst (λ j. Chain j cs n) (sym h) g
  Chain-append k m n (b ∷ bs) cs h g =
      (h.0, Chain-append (k + pos_part b.valid_frames) m n bs cs h.1 g)

  -- A batch that has a first frame has a frame.
  some_frames :
      (b : Batch s) (k : ℕ)
      → detection_batch_first_frame_id s b ≡ pos k
      → 0 < pos_part b.valid_frames
  unfolding detection_batch_first_frame_id
  some_frames b k e = ground (arith, e)

  -- Those that come later do not begin with an earlier frame.
  abbrev BeginsNotAt : ℕ → Batch s → Type 0
  BeginsNotAt k b = detection_batch_first_frame_id s b ≡ pos k → ⊥

  later-BeginsNotAt :
      (j n k : ℕ) (bs : List (Batch s)) → k < j → Chain j bs n → All (BeginsNotAt k) bs
  later-BeginsNotAt j n k [] lt h = tt
  later-BeginsNotAt j n k (b ∷ bs) lt h = (
    λ e. ground (arith, e, h.0, lt),
    later-BeginsNotAt (j + pos_part b.valid_frames) n k bs (omega (arith, lt)) h.1,
  )

  abbrev pub Among : List (Batch s) → Batch s → Type 0
  Among bs b = Any (λ c. c ≡ b) bs

  not-Among :
      (k : ℕ) (bs : List (Batch s)) (b : Batch s)
      → All (BeginsNotAt k) bs
      → detection_batch_first_frame_id s b ≡ pos k
      → Among bs b
      → ⊥
  not-Among k [] b h e a = a
  not-Among k (c ∷ bs) b h e (inl d) = h.0 (ap (detection_batch_first_frame_id s) d ∙ e)
  not-Among k (c ∷ bs) b h e (inr a) = not-Among k bs b h.1 e a

  begins_at :
      (b : Batch s) (i : ℕ) (bs : List (Batch s))
      → detection_batch_first_frame_id s b ≡ pos i
      → Among bs b
      → Any (λ c. detection_batch_first_frame_id s c ≡ pos i) bs
  begins_at b i [] e a = absurd a
  begins_at b i (c ∷ bs) e (inl d) = inl (ap (detection_batch_first_frame_id s) d ∙ e)
  begins_at b i (c ∷ bs) e (inr a) = inr (begins_at b i bs e a)

  Among-tail :
      (k : ℕ) (o : Batch s) (l xs : List (Batch s))
      → detection_batch_first_frame_id s o ≡ pos k
      → All (BeginsNotAt k) xs
      → All (Among (o ∷ l)) xs
      → All (Among l) xs
  Among-tail k o l [] e h a = tt
  Among-tail k o l (x ∷ xs) e h (inl d, a) =
      absurd (h.0 (ap (detection_batch_first_frame_id s) (sym d) ∙ e))
  Among-tail k o l (x ∷ xs) e h (inr b, a) = (b, Among-tail k o l xs e h.1 a)

  same_head :
      (k n : ℕ) (b o : Batch s) (bs : List (Batch s))
      → Chain k (b ∷ bs) n
      → detection_batch_first_frame_id s o ≡ pos k
      → Among (b ∷ bs) o
      → b ≡ o
  same_head k n b o bs h e (inl d) = d
  same_head k n b o bs h e (inr a) = absurd (
      not-Among k bs o
        (later-BeginsNotAt (k + pos_part b.valid_frames) n k bs (omega (arith, some_frames b k h.0))
          h.1)
        e a)

  -- Batches that were put out one after the other are those of the video, if none of the video's is
  -- missing and none whose turn it is waits.
  pub Chain-unique :
      (k n m : ℕ) (bs out pend : List (Batch s))
      → Chain k bs n
      → Chain k out m
      → All (Among (out ++ pend)) bs
      → All (Among bs) out
      → (Any (λ c. detection_batch_first_frame_id s c ≡ pos m) pend → ⊥)
      → bs ≡ out
  Chain-unique k n m [] [] pend h g a c d = refl
  Chain-unique k n m [] (o ∷ out) pend h g a c d = absurd c.0
  Chain-unique k n m (b ∷ bs) [] pend h g a c d =
      absurd (d (begins_at b m pend (h.0 ∙ ap pos g) a.0))
  Chain-unique k n m (b ∷ bs) (o ∷ out) pend h g a c d =
      ap₂ (λ x l. x ∷ l) same
        (Chain-unique (k + pos_part b.valid_frames) n m bs out pend h.1 after
          (Among-tail k o (out ++ pend) bs g.0
            (later-BeginsNotAt (k + pos_part b.valid_frames) n k bs more h.1) a.1)
          (Among-tail k b bs out h.0
            (later-BeginsNotAt (k + pos_part b.valid_frames) m k out more after) c.1)
          d)
    where
      same : b ≡ o
      same = same_head k n b o bs h g.0 c.0

      more : k < k + pos_part b.valid_frames
      more = omega (arith, some_frames b k h.0)

      after : Chain (k + pos_part b.valid_frames) out m
      after = subst (λ x. Chain (k + pos_part x.valid_frames) out m) (sym same) g.1
