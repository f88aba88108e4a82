-- ===== src/Config/Args/Options.antt =====
-- pipeline/pipeline_config.c: the options of `pipeline_config_parse_args`, in the order of the source.
use Prim.Native.String.{String}
use text.Mathlib.Text.{◌==◌}
use video_compute_pipeline.Prelude.{true, false, not, Option, none, if◌then◌else◌}
use video_compute_pipeline.Prelude.Text.{codes}
use video_compute_pipeline.Prelude.Int.{pos, is_pos, is_neg}
use video_compute_pipeline.Backend.{inference_runtime_parse, backend_device_parse, model_type_parse}
use video_compute_pipeline.Config.Names.{
  fallback_none, parse_mode, parse_task, parse_filter, parse_output_format, parse_memory_profile,
  parse_decoder_mode, parse_decoder_fallback, parse_feature_mode, parse_ffmpeg_log_level,
}
use video_compute_pipeline.Config.OutputPath.{max_path_length}
use video_compute_pipeline.Config.ClassFilter.{
  parse_int_value, parse_class_id_list, parse_class_name_list,
}
use video_compute_pipeline.Config.Settings.{PipelineConfig, batch_auto}
use video_compute_pipeline.Config.Args.{
  Platform, Step, unknown_option, flag_taken, square_size, known_precision, known_encoder,
  require_value, set_to, set_checked, set_list, set_text, set_backend, set_runtime,
  parse_float_value, parse_batch_setting, outside_unit, outside_ratio,
}

module _ {F : Type 0} (c : Platform F) where
  unfoldable pub file_options : PipelineConfig F → String → Option String → Step F
  file_options config arg given =
      if arg == "--input"
      then require_value given
          (λ value. set_text max_path_length value (λ t. record config { input_path = t }))
      else if arg == "--output"
      then require_value given
          (λ value. set_text max_path_length value (λ t. record config { output_path = t }))
      else if arg == "--benchmark"
      then require_value given
          (λ value. set_text max_path_length value (λ t. record config { benchmark_path = t }))
      else if arg == "--task"
      then require_value given
          (λ value. set_to (parse_task value) (λ x. record config { task = x }))
      else if arg == "--model"
      then require_value given
          (λ value. set_text max_path_length value (λ t. record config { model_path = t }))
      else if arg == "--labels"
      then require_value given
          (λ value. set_text max_path_length value (λ t. record config { labels_path = t }))
      else if arg == "--detections"
      then require_value given
          (λ value. set_text max_path_length value (λ t. record config { detections_path = t }))
      else unknown_option

  unfoldable pub threshold_options : PipelineConfig F → String → Option String → Step F
  threshold_options config arg given =
      if arg == "--confidence"
      then require_value given (λ value.
        set_checked (parse_float_value c (codes value)) (λ x. outside_unit c x)
          (λ x. record config { confidence_threshold = x }))
      else if arg == "--iou-threshold"
      then require_value given (λ value.
        set_checked (parse_float_value c (codes value)) (λ x. outside_unit c x)
          (λ x. record config { iou_threshold = x }))
      else if arg == "--input-size"
      then require_value given (λ value.
        set_checked (parse_int_value c.strtol (codes value)) (λ n. not (is_pos n))
          (λ n. record config {
            inference_input_size = n;
            inference_input_width = n;
            inference_input_height = n;
          }))
      else if arg == "--input-width"
      then require_value given (λ value.
        set_checked (parse_int_value c.strtol (codes value)) (λ n. not (is_pos n))
          (λ n. record config {
            inference_input_width = n;
            inference_input_size = square_size n config.inference_input_height;
          }))
      else if arg == "--input-height"
      then require_value given (λ value.
        set_checked (parse_int_value c.strtol (codes value)) (λ n. not (is_pos n))
          (λ n. record config {
            inference_input_height = n;
            inference_input_size = square_size config.inference_input_width n;
          }))
      else unknown_option

  unfoldable pub backend_options : PipelineConfig F → String → Option String → Step F
  backend_options config arg given =
      if arg == "--class-ids"
      then require_value given (λ value.
        set_list (parse_class_id_list c.strtol config.class_filter_ids (codes value))
          (λ ids. record config { class_filter_ids = ids }))
      else if arg == "--classes"
      then require_value given (λ value.
        set_list (parse_class_name_list config.class_filter_names (codes value))
          (λ names. record config { class_filter_names = names }))
      else if arg == "--inference-backend"
      then require_value given (λ value. set_backend config value (inference_runtime_parse value))
      else if arg == "--runtime"
      then require_value given (λ value. set_runtime config (inference_runtime_parse value))
      else if arg == "--backend-device"
      then require_value given
          (λ value. set_to (backend_device_parse value) (λ x. record config { backend_device = x }))
      else if arg == "--allow-host-backend"
      then flag_taken (record config { allow_host_backend = true })
      else if arg == "--list-backends"
      then flag_taken (record config { list_backends = true })
      else if arg == "--model-info"
      then flag_taken (record config { model_info = true })
      else if arg == "--model-type"
      then require_value given
          (λ value. set_to (model_type_parse value) (λ x. record config { model_type = x }))
      else unknown_option

  unfoldable pub output_options : PipelineConfig F → String → Option String → Step F
  output_options config arg given =
      if arg == "--precision"
      then require_value given (λ value.
        if not (known_precision value)
        then none
        else set_text 32 value (λ t. record config { inference_precision = t }))
      else if arg == "--encoder"
      then require_value given (λ value.
        if not (known_encoder value)
        then none
        else set_text 64 value (λ t. record config { encoder_name = t }))
      else if arg == "--output-format"
      then require_value given
          (λ value. set_to (parse_output_format value) (λ x. record config { output_format = x }))
      else if arg == "--mode"
      then require_value given
          (λ value. set_to (parse_mode value) (λ x. record config { mode = x }))
      else if arg == "--filter"
      then require_value given
          (λ value. set_to (parse_filter value) (λ x. record config { filter = x }))
      else unknown_option

  unfoldable pub count_options : PipelineConfig F → String → Option String → Step F
  count_options config arg given =
      if arg == "--max-frames"
      then require_value given (λ value.
        set_checked (parse_int_value c.strtol (codes value)) (λ n. is_neg n)
          (λ n. record config { max_frames = n }))
      else if arg == "--frame-slots"
      then require_value given (λ value.
        set_checked (parse_int_value c.strtol (codes value)) (λ n. not (is_pos n))
          (λ n. record config { frame_slots = n }))
      else if arg == "--decoder-threads"
      then require_value given (λ value.
        set_checked (parse_int_value c.strtol (codes value)) (λ n. not (is_pos n))
          (λ n. record config { decoder_threads = n }))
      else if arg == "--encoder-threads"
      then require_value given (λ value.
        set_checked (parse_int_value c.strtol (codes value)) (λ n. not (is_pos n))
          (λ n. record config { encoder_threads = n }))
      else if arg == "--processor-workers"
      then require_value given (λ value.
        set_checked (parse_int_value c.strtol (codes value)) (λ n. not (is_pos n))
          (λ n. record config { processor_workers = n }))
      else unknown_option

  unfoldable pub memory_options : PipelineConfig F → String → Option String → Step F
  memory_options config arg given =
      if arg == "--no-benchmark"
      then flag_taken (record config { enable_benchmark = false })
      else if arg == "--lossless"
      then flag_taken (record config { lossless_output = true })
      else if arg == "--lossy"
      then flag_taken (record config { lossless_output = false })
      else if arg == "--memory-profile"
      then require_value given
          (λ value. set_to (parse_memory_profile value) (λ x. record config { memory_profile = x }))
      else if arg == "--memory-budget-mb"
      then require_value given (λ value.
        set_checked (parse_int_value c.strtol (codes value)) (λ n. is_neg n)
          (λ n. record config { memory_budget_mb = n }))
      else if arg == "--progress-interval"
      then require_value given (λ value.
        set_checked (parse_int_value c.strtol (codes value)) (λ n. is_neg n)
          (λ n. record config { progress_interval = n }))
      else if arg == "--no-progress"
      then flag_taken (record config { progress_interval = pos 0 })
      else if arg == "--ffmpeg-log-level"
      then require_value given (λ value.
        if not (parse_ffmpeg_log_level value)
        then none
        else set_text 16 value (λ t. record config { ffmpeg_log_level = t }))
      else unknown_option

  unfoldable pub decoder_options : PipelineConfig F → String → Option String → Step F
  decoder_options config arg given =
      if arg == "--decoder"
      then require_value given
          (λ value. set_to (parse_decoder_mode value) (λ x. record config { decoder_mode = x }))
      else if arg == "--decoder-fallback"
      then require_value given (λ value.
        set_to (parse_decoder_fallback value) (λ x. record config { decoder_fallback = x }))
      else if arg == "--no-decoder-fallback"
      then flag_taken (record config { decoder_fallback = fallback_none })
      else if arg == "--draw-boxes"
      then flag_taken (record config { draw_boxes = true })
      else if arg == "--no-draw-boxes"
      then flag_taken (record config { draw_boxes = false })
      else if arg == "--box-thickness"
      then require_value given (λ value.
        set_checked (parse_int_value c.strtol (codes value)) (λ n. not (is_pos n))
          (λ n. record config { box_thickness = n }))
      else if arg == "--box-confidence"
      then require_value given (λ value.
        set_checked (parse_float_value c (codes value)) (λ x. outside_unit c x)
          (λ x. record config { box_confidence = x }))
      else unknown_option

  unfoldable pub batch_options : PipelineConfig F → String → Option String → Step F
  batch_options config arg given =
      if arg == "--batch-size"
      then require_value given (λ value.
        set_to (parse_batch_setting c value)
          (λ r. record config { batch_size_mode = r.0; batch_size = r.1 }))
      else if arg == "--inflight-batches"
      then require_value given (λ value.
        set_to (parse_batch_setting c value)
          (λ r. record config { inflight_batches_mode = r.0; inflight_batches = r.1 }))
      else if arg == "--auto-tune"
      then flag_taken (record config {
        enable_auto_tune = true;
        batch_size_mode = batch_auto;
        inflight_batches_mode = batch_auto;
      })
      else if arg == "--target-fps"
      then require_value given (λ value.
        set_checked (parse_float_value c (codes value)) (λ x. c.less x (c.thousandths 0))
          (λ x. record config { target_fps = x }))
      else if arg == "--vram-budget-ratio"
      then require_value given (λ value.
        set_checked (parse_float_value c (codes value)) (λ x. outside_ratio c x)
          (λ x. record config { vram_budget_ratio = x }))
      else if arg == "--vram-reserve-mb"
      then require_value given (λ value.
        set_checked (parse_int_value c.strtol (codes value)) (λ n. is_neg n)
          (λ n. record config { vram_reserve_mb = n }))
      else if arg == "--profile-hardware"
      then flag_taken (record config { profile_hardware_only = true; enable_auto_tune = true })
      else if arg == "--pipeline-overlap"
      then require_value given (λ value.
        set_to (parse_feature_mode value) (λ x. record config { pipeline_overlap_mode = x }))
      else if arg == "--parallel-inference"
      then require_value given (λ value.
        set_to (parse_feature_mode value) (λ x. record config { parallel_inference_mode = x }))
      else if arg == "--inference-contexts"
      then require_value given (λ value.
        set_to (parse_batch_setting c value)
          (λ r. record config { inference_contexts_mode = r.0; inference_contexts = r.1 }))
      else unknown_option
