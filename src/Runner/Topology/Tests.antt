-- ===== src/Runner/Topology/Tests.antt =====
-- A run with boxes that pipeline/pipeline_runner.c accepts.
use video_compute_pipeline.Prelude.{ℕ, true}
use video_compute_pipeline.Prelude.Text.{codes}
use video_compute_pipeline.Backend.{runtime_tensorrt, device_cuda}
use video_compute_pipeline.Config.Names.{decoder_nvdec}
use video_compute_pipeline.Config.Settings.{PipelineConfig, pipeline_config_default}

abbrev on_gpu : PipelineConfig ℕ
on_gpu = record (pipeline_config_default (λ n. n)) {
  draw_boxes = true;
  encoder_name = codes "h264_nvenc";
  decoder_mode = decoder_nvdec;
  backend_device = device_cuda;
  runtime = runtime_tensorrt;
}
