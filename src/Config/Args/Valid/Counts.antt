-- ===== src/Config/Args/Valid/Counts.antt =====
-- pipeline/pipeline_config.c: the options for counts, memory, decoder and batches
-- keep the configuration within its ranges.
use Prim.Native.String.{String}
use text.Mathlib.Text.{◌==◌}
use video_compute_pipeline.Prelude.{refl, not, Option, if_ind, if_cases}
use video_compute_pipeline.Prelude.Text.{codes}
use video_compute_pipeline.Prelude.Int.{is_pos, is_neg}
use video_compute_pipeline.Config.Names.{
  parse_memory_profile, parse_decoder_mode, parse_decoder_fallback, parse_feature_mode,
}
use video_compute_pipeline.Config.ClassFilter.{parse_int_value}
use video_compute_pipeline.Config.Settings.{PipelineConfig}
use video_compute_pipeline.Config.Args.{
  Platform, parse_float_value, parse_batch_setting, outside_unit, outside_ratio,
}
use video_compute_pipeline.Config.Args.Words.{
  parse_ffmpeg_log_level-IsLogLevel, May, Keeps, require_value_lem, set_to_lem, set_checked_lem,
  set_text_lem, passes_test, parse_batch_setting_lem,
}
use video_compute_pipeline.Config.Args.Options.{
  count_options, memory_options, decoder_options, batch_options,
}
use video_compute_pipeline.Config.Args.Valid.{IsConfig, in_unit, in_ratio}

module _ {F : Type 0} (c : Platform F) where
  abbrev K : PipelineConfig F → Type 0
  K = IsConfig c

  pub count_options_lem :
      (config : PipelineConfig F) (arg : String) (given : Option String)
      → IsConfig c config
      → Keeps K (count_options c config arg given)
  unfolding count_options
  count_options_lem config arg given v =
      if_ind (Keeps K) (arg == "--max-frames")
        (require_value_lem K given _ (λ value.
          set_checked_lem K (parse_int_value c.strtol (codes value)) (λ n. is_neg n)
            (λ n. record config { max_frames = n })
            (λ n e. ((e, v.0.1, v.0.2, v.0.3, v.0.4), v.1, v.2, v.3, v.4, v.5, v.6))))
        (if_ind (Keeps K) (arg == "--frame-slots")
          (require_value_lem K given _ (λ value.
            set_checked_lem K (parse_int_value c.strtol (codes value)) (λ n. not (is_pos n))
              (λ n. record config { frame_slots = n })
              (λ n e. (
                (v.0.0, passes_test (is_pos n) e, v.0.2, v.0.3, v.0.4),
                v.1,
                v.2,
                v.3,
                v.4,
                v.5,
                v.6,
              ))))
          (if_ind (Keeps K) (arg == "--decoder-threads")
            (require_value_lem K given _ (λ value.
              set_checked_lem K (parse_int_value c.strtol (codes value)) (λ n. not (is_pos n))
                (λ n. record config { decoder_threads = n })
                (λ n e. (
                  (v.0.0, v.0.1, passes_test (is_pos n) e, v.0.3, v.0.4),
                  v.1,
                  v.2,
                  v.3,
                  v.4,
                  v.5,
                  v.6,
                ))))
            (if_ind (Keeps K) (arg == "--encoder-threads")
              (require_value_lem K given _ (λ value.
                set_checked_lem K (parse_int_value c.strtol (codes value)) (λ n. not (is_pos n))
                  (λ n. record config { encoder_threads = n })
                  (λ n e. (
                    (v.0.0, v.0.1, v.0.2, passes_test (is_pos n) e, v.0.4),
                    v.1,
                    v.2,
                    v.3,
                    v.4,
                    v.5,
                    v.6,
                  ))))
              (if_ind (Keeps K) (arg == "--processor-workers")
                (require_value_lem K given _ (λ value.
                  set_checked_lem K (parse_int_value c.strtol (codes value)) (λ n. not (is_pos n))
                    (λ n. record config { processor_workers = n })
                    (λ n e. (
                      (v.0.0, v.0.1, v.0.2, v.0.3, passes_test (is_pos n) e),
                      v.1,
                      v.2,
                      v.3,
                      v.4,
                      v.5,
                      v.6,
                    ))))
                (tt)))))

  pub memory_options_lem :
      (config : PipelineConfig F) (arg : String) (given : Option String)
      → IsConfig c config
      → Keeps K (memory_options c config arg given)
  unfolding memory_options
  memory_options_lem config arg given v = if_ind (Keeps K) (arg == "--no-benchmark") v (
      if_ind (Keeps K) (arg == "--lossless") v (
        if_ind (Keeps K) (arg == "--lossy") v (
          if_ind (Keeps K) (arg == "--memory-profile")
            (require_value_lem K given _ (λ value.
              set_to_lem K (parse_memory_profile value) (λ x. record config { memory_profile = x })
                (λ _ _. v)))
            (if_ind (Keeps K) (arg == "--memory-budget-mb")
              (require_value_lem K given _ (λ value.
                set_checked_lem K (parse_int_value c.strtol (codes value)) (λ n. is_neg n)
                  (λ n. record config { memory_budget_mb = n })
                  (λ n e. (v.0, (e, v.1.1, v.1.2, v.1.3), v.2, v.3, v.4, v.5, v.6))))
              (if_ind (Keeps K) (arg == "--progress-interval")
                (require_value_lem K given _ (λ value.
                  set_checked_lem K (parse_int_value c.strtol (codes value)) (λ n. is_neg n)
                    (λ n. record config { progress_interval = n })
                    (λ n e. (v.0, (v.1.0, e, v.1.2, v.1.3), v.2, v.3, v.4, v.5, v.6))))
                (if_ind (Keeps K) (arg == "--no-progress")
                  (v.0, (v.1.0, refl, v.1.2, v.1.3), v.2, v.3, v.4, v.5, v.6)
                  (if_ind (Keeps K) (arg == "--ffmpeg-log-level")
                    (require_value_lem K given _ (λ value.
                      if_cases (May K) _ (λ _. tt)
                        (λ e.
                          set_text_lem K _ value (λ t. record config { ffmpeg_log_level = t })
                            (
                              v.0,
                              v.1,
                              v.2,
                              v.3,
                              v.4,
                              (
                                v.5.0,
                                v.5.1,
                                parse_ffmpeg_log_level-IsLogLevel value (passes_test _ e),
                              ),
                              v.6,
                            ))))
                    (tt))))))))

  pub decoder_options_lem :
      (config : PipelineConfig F) (arg : String) (given : Option String)
      → IsConfig c config
      → Keeps K (decoder_options c config arg given)
  unfolding decoder_options
  decoder_options_lem config arg given v =
      if_ind (Keeps K) (arg == "--decoder")
        (require_value_lem K given _ (λ value.
          set_to_lem K (parse_decoder_mode value) (λ x. record config { decoder_mode = x })
            (λ _ _. v)))
        (if_ind (Keeps K) (arg == "--decoder-fallback")
          (require_value_lem K given _ (λ value.
            set_to_lem K (parse_decoder_fallback value)
              (λ x. record config { decoder_fallback = x }) (λ _ _. v)))
          (if_ind (Keeps K) (arg == "--no-decoder-fallback") v (
            if_ind (Keeps K) (arg == "--draw-boxes") v (
              if_ind (Keeps K) (arg == "--no-draw-boxes") v (
                if_ind (Keeps K) (arg == "--box-thickness")
                  (require_value_lem K given _ (λ value.
                    set_checked_lem K (parse_int_value c.strtol (codes value)) (λ n. not (is_pos n))
                      (λ n. record config { box_thickness = n })
                      (λ n e. (
                        v.0,
                        (v.1.0, v.1.1, v.1.2, passes_test (is_pos n) e),
                        v.2,
                        v.3,
                        v.4,
                        v.5,
                        v.6,
                      ))))
                  (if_ind (Keeps K) (arg == "--box-confidence")
                    (require_value_lem K given _ (λ value.
                      set_checked_lem K (parse_float_value c (codes value)) (λ x. outside_unit c x)
                        (λ x. record config { box_confidence = x })
                        (λ x e. (
                          v.0,
                          v.1,
                          v.2,
                          v.3,
                          (v.4.0, v.4.1, in_unit c x e, v.4.3, v.4.4),
                          v.5,
                          v.6,
                        ))))
                    (tt)))))))

  pub batch_options_lem :
      (config : PipelineConfig F) (arg : String) (given : Option String)
      → IsConfig c config
      → Keeps K (batch_options c config arg given)
  unfolding batch_options
  batch_options_lem config arg given v =
      if_ind (Keeps K) (arg == "--batch-size")
        (require_value_lem K given _ (λ value.
          set_to_lem K (parse_batch_setting c value)
            (λ r. record config { batch_size_mode = r.0; batch_size = r.1 })
            (λ r e.
              (v.0, v.1, v.2, (parse_batch_setting_lem c value r e, v.3.1, v.3.2), v.4, v.5, v.6))))
        (if_ind (Keeps K) (arg == "--inflight-batches")
          (require_value_lem K given _ (λ value.
            set_to_lem K (parse_batch_setting c value)
              (λ r. record config { inflight_batches_mode = r.0; inflight_batches = r.1 })
              (λ r e. (
                v.0,
                v.1,
                v.2,
                (v.3.0, parse_batch_setting_lem c value r e, v.3.2),
                v.4,
                v.5,
                v.6,
              ))))
          (if_ind (Keeps K) (arg == "--auto-tune") v (
            if_ind (Keeps K) (arg == "--target-fps")
              (require_value_lem K given _ (λ value.
                set_checked_lem K (parse_float_value c (codes value))
                  (λ x. c.less x (c.thousandths 0)) (λ x. record config { target_fps = x })
                  (λ x e. (v.0, v.1, v.2, v.3, (v.4.0, v.4.1, v.4.2, e, v.4.4), v.5, v.6))))
              (if_ind (Keeps K) (arg == "--vram-budget-ratio")
                (require_value_lem K given _ (λ value.
                  set_checked_lem K (parse_float_value c (codes value)) (λ x. outside_ratio c x)
                    (λ x. record config { vram_budget_ratio = x })
                    (λ x e. (
                      v.0,
                      v.1,
                      v.2,
                      v.3,
                      (v.4.0, v.4.1, v.4.2, v.4.3, in_ratio c x e),
                      v.5,
                      v.6,
                    ))))
                (if_ind (Keeps K) (arg == "--vram-reserve-mb")
                  (require_value_lem K given _ (λ value.
                    set_checked_lem K (parse_int_value c.strtol (codes value)) (λ n. is_neg n)
                      (λ n. record config { vram_reserve_mb = n })
                      (λ n e. (v.0, (v.1.0, v.1.1, e, v.1.3), v.2, v.3, v.4, v.5, v.6))))
                  (if_ind (Keeps K) (arg == "--profile-hardware") v (
                    if_ind (Keeps K) (arg == "--pipeline-overlap")
                      (require_value_lem K given _ (λ value.
                        set_to_lem K (parse_feature_mode value)
                          (λ x. record config { pipeline_overlap_mode = x }) (λ _ _. v)))
                      (if_ind (Keeps K) (arg == "--parallel-inference")
                        (require_value_lem K given _ (λ value.
                          set_to_lem K (parse_feature_mode value)
                            (λ x. record config { parallel_inference_mode = x }) (λ _ _. v)))
                        (if_ind (Keeps K) (arg == "--inference-contexts")
                          (require_value_lem K given _ (λ value.
                            set_to_lem K (parse_batch_setting c value)
                              (λ r. record config {
                                inference_contexts_mode = r.0;
                                inference_contexts = r.1;
                              })
                              (λ r e. (
                                v.0,
                                v.1,
                                v.2,
                                (v.3.0, v.3.1, parse_batch_setting_lem c value r e),
                                v.4,
                                v.5,
                                v.6,
                              ))))
                          (tt))))))))))
