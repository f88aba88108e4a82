-- ===== src/Config/Args/Valid/Paths.antt =====
-- pipeline/pipeline_config.c: the options for paths, thresholds, backends and output
-- keep the configuration within its ranges.
use Prim.Native.String.{String}
use text.Mathlib.Text.{◌==◌}
use video_compute_pipeline.Prelude.{refl, not, Option, if_ind, if_cases}
use video_compute_pipeline.Prelude.Text.{codes}
use video_compute_pipeline.Prelude.Int.{is_pos}
use video_compute_pipeline.Backend.{inference_runtime_parse}
use video_compute_pipeline.Backend.{backend_device_parse, model_type_parse}
use video_compute_pipeline.Config.Names.{parse_mode, parse_task, parse_filter, parse_output_format}
use video_compute_pipeline.Config.ClassFilter.{
  parse_int_value, parse_class_id_list, parse_class_name_list,
}
use video_compute_pipeline.Config.ClassFilter.Distinct.{parse_class_id_list-IsFilter}
use video_compute_pipeline.Config.Settings.{PipelineConfig}
use video_compute_pipeline.Config.Args.{Platform, parse_float_value, square_size, outside_unit}
use video_compute_pipeline.Config.Args.Words.{
  known_precision-IsPrecision, known_encoder-IsEncoder, May, Keeps, require_value_lem, set_to_lem,
  set_checked_lem, set_list_lem, set_text_lem, passes_test,
}
use video_compute_pipeline.Config.Args.Options.{
  file_options, threshold_options, backend_options, output_options,
}
use video_compute_pipeline.Config.Args.Valid.{
  IsConfig, in_unit, square_of_side, set_backend_lem, set_runtime_lem,
}

module _ {F : Type 0} (c : Platform F) where
  abbrev K : PipelineConfig F → Type 0
  K = IsConfig c

  pub file_options_lem :
      (config : PipelineConfig F) (arg : String) (given : Option String)
      → IsConfig c config
      → Keeps K (file_options c config arg given)
  unfolding file_options
  file_options_lem config arg given v =
      if_ind (Keeps K) (arg == "--input")
        (require_value_lem K given _
          (λ value. set_text_lem K _ value (λ t. record config { input_path = t }) v))
        (if_ind (Keeps K) (arg == "--output")
          (require_value_lem K given _
            (λ value. set_text_lem K _ value (λ t. record config { output_path = t }) v))
          (if_ind (Keeps K) (arg == "--benchmark")
            (require_value_lem K given _
              (λ value. set_text_lem K _ value (λ t. record config { benchmark_path = t }) v))
            (if_ind (Keeps K) (arg == "--task")
              (require_value_lem K given _ (λ value.
                set_to_lem K (parse_task value) (λ x. record config { task = x }) (λ _ _. v)))
              (if_ind (Keeps K) (arg == "--model")
                (require_value_lem K given _
                  (λ value. set_text_lem K _ value (λ t. record config { model_path = t }) v))
                (if_ind (Keeps K) (arg == "--labels")
                  (require_value_lem K given _
                    (λ value. set_text_lem K _ value (λ t. record config { labels_path = t }) v))
                  (if_ind (Keeps K) (arg == "--detections")
                    (require_value_lem K given _ (λ value.
                      set_text_lem K _ value (λ t. record config { detections_path = t }) v))
                    (tt)))))))

  pub threshold_options_lem :
      (config : PipelineConfig F) (arg : String) (given : Option String)
      → IsConfig c config
      → Keeps K (threshold_options c config arg given)
  unfolding threshold_options
  threshold_options_lem config arg given v =
      if_ind (Keeps K) (arg == "--confidence")
        (require_value_lem K given _ (λ value.
          set_checked_lem K (parse_float_value c (codes value)) (λ x. outside_unit c x)
            (λ x. record config { confidence_threshold = x })
            (λ x e. (v.0, v.1, v.2, v.3, (in_unit c x e, v.4.1, v.4.2, v.4.3, v.4.4), v.5, v.6))))
        (if_ind (Keeps K) (arg == "--iou-threshold")
          (require_value_lem K given _ (λ value.
            set_checked_lem K (parse_float_value c (codes value)) (λ x. outside_unit c x)
              (λ x. record config { iou_threshold = x })
              (λ x e. (v.0, v.1, v.2, v.3, (v.4.0, in_unit c x e, v.4.2, v.4.3, v.4.4), v.5, v.6))))
          (if_ind (Keeps K) (arg == "--input-size")
            (require_value_lem K given _ (λ value.
              set_checked_lem K (parse_int_value c.strtol (codes value)) (λ n. not (is_pos n))
                (λ n. record config {
                  inference_input_size = n;
                  inference_input_width = n;
                  inference_input_height = n;
                })
                (λ n e. (
                  v.0,
                  v.1,
                  (passes_test (is_pos n) e, passes_test (is_pos n) e, square_of_side n),
                  v.3,
                  v.4,
                  v.5,
                  v.6,
                ))))
            (if_ind (Keeps K) (arg == "--input-width")
              (require_value_lem K given _ (λ value.
                set_checked_lem K (parse_int_value c.strtol (codes value)) (λ n. not (is_pos n))
                  (λ n. record config {
                    inference_input_width = n;
                    inference_input_size = square_size n config.inference_input_height;
                  })
                  (λ n e. (v.0, v.1, (passes_test (is_pos n) e, v.2.1, refl), v.3, v.4, v.5, v.6))))
              (if_ind (Keeps K) (arg == "--input-height")
                (require_value_lem K given _ (λ value.
                  set_checked_lem K (parse_int_value c.strtol (codes value)) (λ n. not (is_pos n))
                    (λ n. record config {
                      inference_input_height = n;
                      inference_input_size = square_size config.inference_input_width n;
                    })
                    (λ n e.
                      (v.0, v.1, (v.2.0, passes_test (is_pos n) e, refl), v.3, v.4, v.5, v.6))))
                (tt)))))

  pub backend_options_lem :
      (config : PipelineConfig F) (arg : String) (given : Option String)
      → IsConfig c config
      → Keeps K (backend_options c config arg given)
  unfolding backend_options
  backend_options_lem config arg given v =
      if_ind (Keeps K) (arg == "--class-ids")
        (require_value_lem K given _ (λ value.
          set_list_lem K (parse_class_id_list c.strtol config.class_filter_ids (codes value))
            (λ ids. record config { class_filter_ids = ids })
            (
              v.0,
              v.1,
              v.2,
              v.3,
              v.4,
              v.5,
              parse_class_id_list-IsFilter c.strtol config.class_filter_ids (codes value) v.6,
            )))
        (if_ind (Keeps K) (arg == "--classes")
          (require_value_lem K given _ (λ value.
            set_list_lem K (parse_class_name_list config.class_filter_names (codes value))
              (λ names. record config { class_filter_names = names }) v))
          (if_ind (Keeps K) (arg == "--inference-backend")
            (require_value_lem K given _
              (λ value. set_backend_lem c config value v (inference_runtime_parse value)))
            (if_ind (Keeps K) (arg == "--runtime")
              (require_value_lem K given _
                (λ value. set_runtime_lem c config v (inference_runtime_parse value)))
              (if_ind (Keeps K) (arg == "--backend-device")
                (require_value_lem K given _ (λ value.
                  set_to_lem K (backend_device_parse value)
                    (λ x. record config { backend_device = x }) (λ _ _. v)))
                (if_ind (Keeps K) (arg == "--allow-host-backend") v (
                  if_ind (Keeps K) (arg == "--list-backends") v (
                    if_ind (Keeps K) (arg == "--model-info") v (
                      if_ind (Keeps K) (arg == "--model-type")
                        (require_value_lem K given _ (λ value.
                          set_to_lem K (model_type_parse value)
                            (λ x. record config { model_type = x }) (λ _ _. v)))
                        (tt)))))))))

  pub output_options_lem :
      (config : PipelineConfig F) (arg : String) (given : Option String)
      → IsConfig c config
      → Keeps K (output_options c config arg given)
  unfolding output_options
  output_options_lem config arg given v =
      if_ind (Keeps K) (arg == "--precision")
        (require_value_lem K given _ (λ value.
          if_cases (May K) _ (λ _. tt)
            (λ e.
              set_text_lem K _ value (λ t. record config { inference_precision = t })
                (
                  v.0,
                  v.1,
                  v.2,
                  v.3,
                  v.4,
                  (known_precision-IsPrecision value (passes_test _ e), v.5.1, v.5.2),
                  v.6,
                ))))
        (if_ind (Keeps K) (arg == "--encoder")
          (require_value_lem K given _ (λ value.
            if_cases (May K) _ (λ _. tt)
              (λ e.
                set_text_lem K _ value (λ t. record config { encoder_name = t })
                  (
                    v.0,
                    v.1,
                    v.2,
                    v.3,
                    v.4,
                    (v.5.0, known_encoder-IsEncoder value (passes_test _ e), v.5.2),
                    v.6,
                  ))))
          (if_ind (Keeps K) (arg == "--output-format")
            (require_value_lem K given _ (λ value.
              set_to_lem K (parse_output_format value) (λ x. record config { output_format = x })
                (λ _ _. v)))
            (if_ind (Keeps K) (arg == "--mode")
              (require_value_lem K given _ (λ value.
                set_to_lem K (parse_mode value) (λ x. record config { mode = x }) (λ _ _. v)))
              (if_ind (Keeps K) (arg == "--filter")
                (require_value_lem K given _ (λ value.
                  set_to_lem K (parse_filter value) (λ x. record config { filter = x }) (λ _ _. v)))
                (tt)))))
