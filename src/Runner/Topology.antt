-- ===== src/Runner/Topology.antt =====
-- pipeline/pipeline_runner.c: `build_detection_topology`, which refuses the detection runs that the
-- program cannot do. The description of a topology, a text for the log, is left out.
pub mod Tests
use video_compute_pipeline.Prelude.{ℕ, ◌≡◌, Bool, true, false, not, ◌&&◌, ◌||◌, List, if◌then◌else◌}
use video_compute_pipeline.Prelude.Int.{ℤ, success, failure}
use video_compute_pipeline.Backend.{
  InferenceRuntime, runtime_auto, runtime_tensorrt, BackendDevice, device_cuda, device_cpu,
  runtime_eq, inference_runtime_from_model_path,
}
use video_compute_pipeline.Config.Names.{VideoDecoderMode, decoder_cpu, decoder_nvdec}
use video_compute_pipeline.Config.Settings.{PipelineConfig, detection_encoder_is_nvenc}

pub data DetectionOutputMode : Type 0 where
  csv_only cpu_annotated_video cuda_annotated_video : DetectionOutputMode

-- Whether the frames come on the GPU, and whether the model runs there.
pub record DetectionTopology : Type 0 where
  pub cuda_frames : Bool
  pub cuda_inference : Bool
  pub output_mode : DetectionOutputMode
  pub requires_raw_upload : Bool
  pub requires_raw_download : Bool

abbrev pub is_nvdec : VideoDecoderMode → Bool
is_nvdec decoder_nvdec = true
is_nvdec decoder_cpu = false

abbrev pub is_cuda_device : BackendDevice → Bool
is_cuda_device device_cuda = true
is_cuda_device device_cpu = false

abbrev pub is_cpu_annotated : DetectionOutputMode → Bool
is_cpu_annotated cpu_annotated_video = true
is_cpu_annotated csv_only = false
is_cpu_annotated cuda_annotated_video = false

abbrev pub is_cuda_annotated : DetectionOutputMode → Bool
is_cuda_annotated cuda_annotated_video = true
is_cuda_annotated csv_only = false
is_cuda_annotated cpu_annotated_video = false

abbrev pub mode_of : Bool → Bool → DetectionOutputMode
mode_of draw nvenc =
    if not draw then csv_only else if nvenc then cuda_annotated_video else cpu_annotated_video

module _ {F : Type 0} (tolower : ℕ → ℕ) where
  abbrev pub output_mode_of : PipelineConfig F → DetectionOutputMode
  output_mode_of config = mode_of config.draw_boxes (detection_encoder_is_nvenc config.encoder_name)

  abbrev pub topology_of : PipelineConfig F → DetectionTopology
  topology_of config =
      let on_gpu = is_nvdec config.decoder_mode in
      let cuda = is_cuda_device config.backend_device in
      record {
        cuda_frames = on_gpu;
        cuda_inference = cuda;
        output_mode = output_mode_of config;
        requires_raw_upload = not on_gpu && cuda;
        requires_raw_download = on_gpu && not cuda;
      }

  abbrev pub selected_runtime : PipelineConfig F → InferenceRuntime
  selected_runtime config =
      if runtime_eq config.runtime runtime_auto
      then inference_runtime_from_model_path tolower config.model_path
      else config.runtime

  unfoldable pub build_detection_topology : PipelineConfig F → DetectionTopology × ℤ
  build_detection_topology config =
      let t = topology_of config in
      if is_cpu_annotated t.output_mode
      then (t, failure)
      else if is_cuda_annotated t.output_mode && (not t.cuda_frames || not t.cuda_inference)
      then (t, failure)
      else if runtime_eq (selected_runtime config) runtime_tensorrt && not t.cuda_inference
      then (t, failure)
      else (t, success)

  -- What an accepted run has.
  pub record IsSupported (config : PipelineConfig F) (t : DetectionTopology) : Type 0 where
    pub with_boxes :
        config.draw_boxes ≡ true
        → (detection_encoder_is_nvenc config.encoder_name ≡ true)
          × (is_nvdec config.decoder_mode ≡ true)
          × (is_cuda_device config.backend_device ≡ true)
          × (t.requires_raw_upload ≡ false)
          × (t.requires_raw_download ≡ false)
    pub with_tensorrt :
        runtime_eq (selected_runtime config) runtime_tensorrt ≡ true
        → is_cuda_device config.backend_device ≡ true
