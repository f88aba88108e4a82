-- ===== src/Config/Args/Parse.antt =====
-- pipeline/pipeline_config.c: the loop of `pipeline_config_parse_args`, and the checks after it.
use Prim.Native.String.{String}
use video_compute_pipeline.Prelude.{
  Bool, true, false, not, Option, none, some, List, [], ◌∷◌, if◌then◌else◌,
}
use video_compute_pipeline.Prelude.Int.{eq_ℤ, success}
use video_compute_pipeline.Backend.{inference_runtime_validate_model_path}
use video_compute_pipeline.Config.OutputPath.{apply_output_format_extension}
use video_compute_pipeline.Config.Settings.{PipelineConfig}
use video_compute_pipeline.Config.Args.{
  Platform, Step, unknown_option, bad_option, flag_taken, value_taken, loads_model, or_else,
  with_output_path,
}
use video_compute_pipeline.Config.Args.Options.{
  file_options, threshold_options, backend_options, output_options, count_options, memory_options,
  decoder_options, batch_options,
}

module _ {F : Type 0} (c : Platform F) where
  -- One round of the loop: the option, and the argument after it if there is one.
  unfoldable pub parse_option : PipelineConfig F → String → Option String → Step F
  unfolding file_options threshold_options backend_options output_options count_options
      memory_options decoder_options batch_options
  parse_option config arg given = or_else (file_options c config arg given) (
      or_else (threshold_options c config arg given) (
        or_else (backend_options c config arg given) (
          or_else (output_options c config arg given) (
            or_else (count_options c config arg given) (
              or_else (memory_options c config arg given) (
                or_else (decoder_options c config arg given)
                  (batch_options c config arg given)))))))

  -- What the loop does after an option.
  abbrev pub resume :
      Step F → (PipelineConfig F → Bool → Option (PipelineConfig F)) → Option (PipelineConfig F)
  resume unknown_option next = none
  resume bad_option next = none
  resume (flag_taken config) next = next config false
  resume (value_taken config) next = next config true

  abbrev pub head : List String → Option String
  head [] = none
  head (arg ∷ args) = some arg

  -- The loop over the arguments after the program's name: `skip` says that the option before took
  -- the argument as its value.
  unfoldable pub parse_options : PipelineConfig F → Bool → List String → Option (PipelineConfig F)
  unfolding parse_option
  parse_options config skip [] = some config
  parse_options config true (arg ∷ args) = parse_options config false args
  parse_options config false (arg ∷ args) =
      resume (parse_option config arg (head args)) (λ config' skip. parse_options config' skip args)

  -- The checks after the loop.
  unfoldable pub finish : PipelineConfig F → Option (PipelineConfig F)
  unfolding inference_runtime_validate_model_path apply_output_format_extension
  finish config =
      let extended =
        with_output_path config
          (apply_output_format_extension config.output_format config.output_path) in
      if loads_model config
      then (if not (
            eq_ℤ (inference_runtime_validate_model_path c.tolower config.runtime config.model_path)
              success)
          then none
          else extended)
      else extended

  abbrev pub finished : Option (PipelineConfig F) → Option (PipelineConfig F)
  finished none = none
  finished (some config) = finish config

  unfoldable pub pipeline_config_parse_args :
      PipelineConfig F → List String → Option (PipelineConfig F)
  unfolding parse_options finish
  pipeline_config_parse_args config args = finished (parse_options config false args)
