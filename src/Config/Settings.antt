-- ===== src/Config/Settings.antt =====
-- include/pipeline/pipeline_config.h and pipeline/pipeline_config.c: the configuration and its
-- defaults, with the constants of config.h. A list with its count is the list of what it holds. An
-- int that is a truth value is a Bool. The type of a float is a parameter, with the float that a
-- number of thousandths denotes.
use Prim.Native.String.{String}
use video_compute_pipeline.Prelude.{
  ℕ, length, Bool, true, false, not, ◌&&◌, List, [], leb, if◌then◌else◌,
}
use video_compute_pipeline.Prelude.Int.{ℤ, pos, success, failure}
use video_compute_pipeline.Prelude.Text.{codes, text_eq}
use video_compute_pipeline.Backend.{
  InferenceRuntime, runtime_auto, BackendDevice, device_cuda, device_cpu, ModelType, model_auto,
}
use video_compute_pipeline.Config.Names.{
  ProcessMode, process_cpu, PipelineTask, task_filter, FilterType, filter_grayscale, MemoryProfile,
  memory_auto, VideoDecoderMode, decoder_cpu, decoder_nvdec, DecoderFallbackMode, fallback_cpu,
  OutputFormat, output_auto, PipelineFeatureMode, feature_auto,
}
use video_compute_pipeline.Config.OutputPath.{max_path_length}

pub data BatchSettingMode : Type 0 where
  batch_auto batch_manual : BatchSettingMode

-- copy_path: a text that does not fit leaves the empty one.
unfoldable pub copy_path : ℕ → List ℕ → List ℕ × ℤ
copy_path size text = if leb size (length text) then ([], failure) else (text, success)

pub record PipelineConfig (F : Type 0) : Type 0 where
  pub input_path : List ℕ
  pub output_path : List ℕ
  pub benchmark_path : List ℕ
  pub detections_path : List ℕ
  pub model_path : List ℕ
  pub labels_path : List ℕ
  pub inference_backend : List ℕ
  pub inference_precision : List ℕ
  pub encoder_name : List ℕ
  pub task : PipelineTask
  pub mode : ProcessMode
  pub filter : FilterType
  pub max_frames : ℤ
  pub enable_benchmark : Bool
  pub lossless_output : Bool
  pub memory_profile : MemoryProfile
  pub memory_budget_mb : ℤ
  pub frame_slots : ℤ
  pub decoder_threads : ℤ
  pub encoder_threads : ℤ
  pub processor_workers : ℤ
  pub confidence_threshold : F
  pub iou_threshold : F
  pub inference_input_size : ℤ
  pub inference_input_width : ℤ
  pub inference_input_height : ℤ
  pub detection_class_count : ℤ
  pub class_filter_ids : List ℤ
  pub class_filter_names : List (List ℕ)
  pub max_detections_per_frame : ℤ
  pub progress_interval : ℤ
  pub ffmpeg_log_level : List ℕ
  pub decoder_mode : VideoDecoderMode
  pub decoder_fallback : DecoderFallbackMode
  pub output_format : OutputFormat
  pub draw_boxes : Bool
  pub box_thickness : ℤ
  pub box_confidence : F
  pub batch_size_mode : BatchSettingMode
  pub batch_size : ℤ
  pub inflight_batches_mode : BatchSettingMode
  pub inflight_batches : ℤ
  pub enable_auto_tune : Bool
  pub profile_hardware_only : Bool
  pub target_fps : F
  pub vram_budget_ratio : F
  pub vram_reserve_mb : ℤ
  pub pipeline_overlap_mode : PipelineFeatureMode
  pub parallel_inference_mode : PipelineFeatureMode
  pub inference_contexts_mode : BatchSettingMode
  pub inference_contexts : ℤ
  pub runtime : InferenceRuntime
  pub backend_device : BackendDevice
  pub model_type : ModelType
  pub allow_host_backend : Bool
  pub list_backends : Bool
  pub model_info : Bool

unfoldable pub pipeline_config_default : {F : Type 0} → (ℕ → F) → PipelineConfig F
unfolding copy_path
pipeline_config_default thousandths = record {
  input_path = (copy_path max_path_length (codes "data/input/15592600_3840_2160_60fps.mp4")).0;
  output_path = (copy_path max_path_length (codes "data/output/output.mp4")).0;
  benchmark_path = (copy_path max_path_length (codes "benchmarks/results.csv")).0;
  detections_path = (copy_path max_path_length (codes "benchmarks/detections.csv")).0;
  model_path = (copy_path max_path_length (codes "models/yolov5s_trt11.engine")).0;
  labels_path = (copy_path max_path_length (codes "models/coco.names")).0;
  inference_backend = (copy_path 64 (codes "tensorrt")).0;
  inference_precision = (copy_path 32 (codes "fp16")).0;
  encoder_name = (copy_path 64 (codes "libx264")).0;
  task = task_filter;
  mode = process_cpu;
  filter = filter_grayscale;
  max_frames = pos 0;
  enable_benchmark = true;
  lossless_output = false;
  memory_profile = memory_auto;
  memory_budget_mb = pos 0;
  frame_slots = pos 3;
  decoder_threads = pos 4;
  encoder_threads = pos 4;
  processor_workers = pos 2;
  confidence_threshold = thousandths 250;
  iou_threshold = thousandths 450;
  inference_input_size = pos 640;
  inference_input_width = pos 640;
  inference_input_height = pos 640;
  detection_class_count = pos 0;
  class_filter_ids = [];
  class_filter_names = [];
  max_detections_per_frame = pos 300;
  progress_interval = pos 300;
  ffmpeg_log_level = (copy_path 16 (codes "warning")).0;
  decoder_mode = decoder_cpu;
  decoder_fallback = fallback_cpu;
  output_format = output_auto;
  draw_boxes = false;
  box_thickness = pos 2;
  box_confidence = thousandths 0;
  batch_size_mode = batch_manual;
  batch_size = pos 1;
  inflight_batches_mode = batch_manual;
  inflight_batches = pos 1;
  enable_auto_tune = false;
  profile_hardware_only = false;
  target_fps = thousandths 0;
  vram_budget_ratio = thousandths 375;
  vram_reserve_mb = pos 0;
  pipeline_overlap_mode = feature_auto;
  parallel_inference_mode = feature_auto;
  inference_contexts_mode = batch_auto;
  inference_contexts = pos 1;
  runtime = runtime_auto;
  backend_device = device_cuda;
  model_type = model_auto;
  allow_host_backend = false;
  list_backends = false;
  model_info = false;
}

-- detection_encoder_is_nvenc.
abbrev pub detection_encoder_is_nvenc : List ℕ → Bool
detection_encoder_is_nvenc encoder_name = text_eq encoder_name (codes "h264_nvenc")

abbrev on_cpu : VideoDecoderMode → Bool
on_cpu decoder_cpu = true
on_cpu decoder_nvdec = false

abbrev is_cuda : BackendDevice → Bool
is_cuda device_cuda = true
is_cuda device_cpu = false

module _ {F : Type 0} where
  unfoldable pub detection_output_mode_summary : PipelineConfig F → String
  detection_output_mode_summary config =
      if not config.draw_boxes
      then "csv-only"
      else if detection_encoder_is_nvenc config.encoder_name
      then "cuda-annotated-video"
      else "cpu-annotated-video"

  unfoldable pub detection_requires_raw_upload : PipelineConfig F → Bool
  detection_requires_raw_upload config = on_cpu config.decoder_mode && is_cuda config.backend_device

  unfoldable pub detection_requires_raw_download : PipelineConfig F → Bool
  detection_requires_raw_download config =
      not (on_cpu config.decoder_mode) && not (is_cuda config.backend_device)
