-- ===== src/ExecutionPlan/Fits.antt =====
-- pipeline/pipeline_execution_plan.c: the batches that fit the memory and the time for their transfers.
use native.Mathlib.Nat.{mul-le-mul}
use video_compute_pipeline.Prelude.{
  ℕ, ◌+◌, ◌*◌, ◌/◌, ◌^◌, ◌↔◌, ◌||◌, leb, none, some, if◌then◌else◌, ◌≤◌, ◌<◌, ◌≡◌, refl, ◌⊎◌, inl,
  inr, Bool, true, false, Option, ltb, arith, if_cases,
}
use video_compute_pipeline.Config.Settings.{PipelineConfig}
use video_compute_pipeline.ExecutionPlan.Profile.{
  Doubles, VideoProfile, HardwareProfile, InferenceBatchCapability,
}
use video_compute_pipeline.ExecutionPlan.{
  estimate_batch, estimate_per_frame_gpu_bytes, candidate_fits_transfer_budget, candidate_fits,
}

-- What an engine takes in and gives out for a frame.
abbrev pub engine_bytes : Option InferenceBatchCapability → ℕ
engine_bytes none = 0
engine_bytes (some capability) =
    capability.input_bytes_per_frame + capability.output_bytes_per_frame

-- A quarter of the frame to work in, but not less than 4 MB.
abbrev pub work_bytes : ℕ → ℕ
work_bytes frame_bytes = if leb 4194304 (frame_bytes / 4) then frame_bytes / 4 else 4194304

-- The bytes of device memory that a frame needs, without a bound.
abbrev pub frame_need : {D : Type 0} → VideoProfile D → Option InferenceBatchCapability → ℕ
frame_need video capability =
    video.frame_bytes + engine_bytes capability + work_bytes video.frame_bytes

-- The bytes that a batch needs: those of its frames and 16 MB.
abbrev pub batch_need : ℕ → ℕ → ℕ
batch_need per_frame batch = per_frame * batch + 16777216

pub per_frame_exact :
    {D : Type 0} (video : VideoProfile D) (capability : Option InferenceBatchCapability)
    → frame_need video capability < 2 ^ 64
    → estimate_per_frame_gpu_bytes video capability ≡ frame_need video capability
unfolding estimate_per_frame_gpu_bytes
per_frame_exact video none h = ground (arith, h)
per_frame_exact video (some capability) h = ground (arith, h)

batch_exact :
    (per_frame batch : ℕ)
    → batch_need per_frame 8 < 2 ^ 64
    → batch ≤ 8
    → estimate_batch per_frame batch ≡ batch_need per_frame batch
unfolding estimate_batch
batch_exact per_frame batch h b =
    omega
      (arith, h, mul-le-mul {n₁ = per_frame} {m₁ = batch} {n₂ = per_frame} {m₂ = 8} (omega arith) b)

cases_of :
    (a b d : Bool)
    → ((if a || b then true else d) ≡ true) ↔ ((a ≡ true) ⊎ ((b ≡ true) ⊎ (d ≡ true)))
cases_of a b d = ground arith

module _ {F D : Type 0} (c : Doubles F D) (config : PipelineConfig F) (video : VideoProfile D)
    (hardware : Option (HardwareProfile D)) where
  -- The frames per second to keep up with: those asked for, else the video's, else 30.
  abbrev pub rate : D
  rate =
      if c.float_less c.float_zero config.target_fps
      then c.widen config.target_fps
      else (if c.less (c.hundredths 0) video.fps then video.fps else c.hundredths 3000)

  -- The milliseconds that the raw frames of a batch take in one direction, at 70% of the bandwidth
  -- that was measured in gigabytes per second, with 0.05 ms for the call.
  abbrev pub one_way_ms : D → ℕ → D
  one_way_ms gbps batch =
      c.add
        (c.mul
          (c.div (c.mul (c.of_size video.frame_bytes) (c.of_int batch))
            (c.mul (c.mul gbps (c.hundredths 70)) (c.hundredths 100000000000)))
          (c.hundredths 100000))
        (c.hundredths 5)

  abbrev pub upload_ms : HardwareProfile D → ℕ → D
  upload_ms card batch =
      if video.requires_raw_upload
      then c.add (c.hundredths 0) (one_way_ms card.h2d_pinned_gbps batch)
      else c.hundredths 0

  -- The milliseconds of both directions, of those that the video needs.
  abbrev pub transfer_ms : HardwareProfile D → ℕ → D
  transfer_ms card batch =
      if video.requires_raw_download
      then c.add (upload_ms card batch) (one_way_ms card.d2h_pinned_gbps batch)
      else upload_ms card batch

  -- A quarter of the time that the batch's frames last.
  abbrev pub quarter_ms : ℕ → D
  quarter_ms batch =
      c.mul (c.mul (c.div (c.hundredths 100000) rate) (c.of_int batch)) (c.hundredths 25)

  -- Where both bandwidths have been measured, the transfers take no more than a quarter of the time.
  abbrev pub InTime : Option (HardwareProfile D) → ℕ → Type 0
  InTime none batch = Unit
  InTime (some card) batch =
      (c.less_eq card.h2d_pinned_gbps (c.hundredths 0) ≡ true)
      ⊎ ((c.less_eq card.d2h_pinned_gbps (c.hundredths 0) ≡ true)
          ⊎ (c.less_eq (transfer_ms card batch) (quarter_ms batch) ≡ true))

  fits-InTime :
      (o : Option (HardwareProfile D)) (batch : ℕ)
      → (candidate_fits_transfer_budget c batch config video o ≡ true) ↔ InTime o batch
  unfolding candidate_fits_transfer_budget
  fits-InTime none batch = (λ _. tt, λ _. refl)
  fits-InTime (some card) batch = cases_of _ _ _

  -- A batch fits the memory and the time that its transfers have.
  abbrev pub Fits : ℕ → ℕ → ℕ → Type 0
  Fits budget per_frame batch = (batch_need per_frame batch ≤ budget) × InTime hardware batch

  abbrev pub Exceeds : ℕ → ℕ → ℕ → Type 0
  Exceeds budget per_frame batch = (budget < batch_need per_frame batch) ⊎ ¬ InTime hardware batch

  pub passed :
      (budget per_frame batch : ℕ)
      → batch_need per_frame 8 < 2 ^ 64
      → batch ≤ 8
      → candidate_fits c budget per_frame config video hardware batch ≡ true
      → Fits budget per_frame batch
  unfolding candidate_fits
  passed budget per_frame batch h b =
      if_cases (λ t. t ≡ true → Fits budget per_frame batch)
        (ltb budget (estimate_batch per_frame batch)) (λ _ e. cc)
        (λ l e.
          (ground (arith, l, batch_exact per_frame batch h b), (fits-InTime hardware batch).0 e))

  pub failed_test :
      (budget per_frame batch : ℕ)
      → batch_need per_frame 8 < 2 ^ 64
      → batch ≤ 8
      → candidate_fits c budget per_frame config video hardware batch ≡ false
      → Exceeds budget per_frame batch
  unfolding candidate_fits
  failed_test budget per_frame batch h b =
      if_cases (λ t. t ≡ false → Exceeds budget per_frame batch)
        (ltb budget (estimate_batch per_frame batch))
        (λ l e. inl (ground (arith, l, batch_exact per_frame batch h b)))
        (λ l e. inr (λ t. cc (e, (fits-InTime hardware batch).1 t)))
