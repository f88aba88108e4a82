-- ===== src/Config/Args.antt =====
-- pipeline/pipeline_config.c: what the options of `pipeline_config_parse_args` do with their values. A
-- configuration that the code leaves half changed when it fails is none, and the message is left out.
-- `strtol`, `strtof` and `tolower` are the C library's, and the comparisons of floats
-- are the machine's.
pub mod Options
pub mod Parse
pub mod Words
pub mod Valid
pub mod Accepted
pub mod Tests
use Prim.Native.String.{String}
use text.Mathlib.Text.{◌==◌}
use video_compute_pipeline.Prelude.{
  ℕ, Bool, true, false, not, ◌&&◌, ◌||◌, Option, none, some, List, [], ◌∷◌, length, if◌then◌else◌,
}
use video_compute_pipeline.Prelude.Text.{codes, is_nil, same_length}
use video_compute_pipeline.Prelude.Int.{ℤ, pos, is_pos, is_neg, eq_ℤ, success}
use video_compute_pipeline.Backend.{
  InferenceRuntime, runtime_auto, runtime_eq, inference_runtime_parse, inference_runtime_to_string,
  backend_device_parse, model_type_parse, inference_runtime_validate_model_path,
}
use video_compute_pipeline.Config.Names.{
  PipelineTask, task_filter, task_detect, fallback_none, parse_mode, parse_task, parse_filter,
  parse_output_format, parse_memory_profile, parse_decoder_mode, parse_decoder_fallback,
  parse_feature_mode, parse_ffmpeg_log_level,
}
use video_compute_pipeline.Config.OutputPath.{max_path_length, apply_output_format_extension}
use video_compute_pipeline.Config.ClassFilter.{
  parse_int_value, parse_class_id_list, parse_class_name_list,
}
use video_compute_pipeline.Config.Settings.{
  PipelineConfig, BatchSettingMode, batch_auto, batch_manual, copy_path,
}

-- What the parser takes from outside: the C library's functions, the float that a number of
-- thousandths denotes, and `<` and `<=` on floats.
pub record Platform (F : Type 0) : Type 0 where
  pub strtol : List ℕ → ℤ × List ℕ × ℤ
  pub strtof : List ℕ → F × List ℕ × ℤ
  pub tolower : ℕ → ℕ
  pub thousandths : ℕ → F
  pub less : F → F → Bool
  pub less_eq : F → F → Bool

-- What the option is, and the configuration after it.
pub data Step (F : Type 0) : Type 0 where
  unknown_option bad_option : Step F
  flag_taken value_taken : PipelineConfig F → Step F

-- `inference_input_size` of the two sides.
abbrev pub square_size : ℤ → ℤ → ℤ
square_size w h = if eq_ℤ w h then w else pos 0

abbrev pub known_precision : String → Bool
known_precision value = (value == "fp16") || (value == "fp32")

abbrev pub known_encoder : String → Bool
known_encoder value =
    (value == "libx264")
    || ((value == "libx264rgb") || ((value == "h264_nvenc") || (value == "mpeg4")))

abbrev pub is_detect : PipelineTask → Bool
is_detect task_detect = true
is_detect task_filter = false

module _ {F : Type 0} where
  -- The run loads a model: the test before the model path is validated.
  abbrev pub loads_model : PipelineConfig F → Bool
  loads_model config = (is_detect config.task && not config.list_backends) && not config.model_info

  abbrev pub taken : Option (PipelineConfig F) → Step F
  taken none = bad_option
  taken (some config) = value_taken config

  -- `require_value`, and then what the option does with its value.
  abbrev pub require_value : Option String → (String → Option (PipelineConfig F)) → Step F
  require_value none set = bad_option
  require_value (some value) set = taken (set value)

  abbrev pub or_else : Step F → Step F → Step F
  or_else unknown_option next = next
  or_else step next = step

  -- The configuration that a parsed value gives, if it is one.
  abbrev pub set_to : {A : Type 0} → Option A → (A → PipelineConfig F) → Option (PipelineConfig F)
  set_to none set = none
  set_to (some a) set = some (set a)

  abbrev pub set_checked :
      {A : Type 0} → Option A → (A → Bool) → (A → PipelineConfig F) → Option (PipelineConfig F)
  set_checked none bad set = none
  set_checked (some a) bad set = if bad a then none else some (set a)

  abbrev pub set_list :
      {A : Type 0} → List A × ℤ → (List A → PipelineConfig F) → Option (PipelineConfig F)
  set_list result set = if not (eq_ℤ result.1 success) then none else some (set result.0)

  unfoldable pub set_text : ℕ → String → (List ℕ → PipelineConfig F) → Option (PipelineConfig F)
  unfolding copy_path
  set_text size value set = set_list (copy_path size (codes value)) set

  -- `--inference-backend` once its value is parsed.
  unfoldable pub set_backend :
      PipelineConfig F → String → Option InferenceRuntime → Option (PipelineConfig F)
  unfolding set_text
  set_backend config value none = none
  set_backend config value (some r) =
      if runtime_eq r runtime_auto
      then none
      else set_text 64 value (λ t. record config { runtime = r; inference_backend = t })

  -- `--runtime` once its value is parsed.
  unfoldable pub set_runtime :
      PipelineConfig F → Option InferenceRuntime → Option (PipelineConfig F)
  unfolding set_text
  set_runtime config none = none
  set_runtime config (some r) =
      set_text 64 (inference_runtime_to_string r)
        (λ t. record config { runtime = r; inference_backend = t })

  -- The output path that `apply_output_format_extension` leaves.
  abbrev pub with_output_path : PipelineConfig F → List ℕ × ℤ → Option (PipelineConfig F)
  with_output_path config result = set_list result (λ path. record config { output_path = path })

  module _ (c : Platform F) where
    unfoldable pub parse_float_value : List ℕ → Option F
    parse_float_value value =
        let (parsed, end_text, errno) = c.strtof value in
        if not (eq_ℤ errno (pos 0)) || (same_length end_text value || not (is_nil end_text))
        then none
        else some parsed

    abbrev manual_batch : Option ℤ → Option (BatchSettingMode × ℤ)
    manual_batch none = none
    manual_batch (some n) = if not (is_pos n) then none else some (batch_manual, n)

    unfoldable pub parse_batch_setting : String → Option (BatchSettingMode × ℤ)
    unfolding parse_int_value
    parse_batch_setting value =
        if value == "auto"
        then some (batch_auto, pos 1)
        else manual_batch (parse_int_value c.strtol (codes value))

    -- `x < 0.0f || x > 1.0f`.
    abbrev pub outside_unit : F → Bool
    outside_unit x = c.less x (c.thousandths 0) || c.less (c.thousandths 1000) x

    abbrev pub outside_ratio : F → Bool
    outside_ratio x = c.less_eq x (c.thousandths 0) || c.less (c.thousandths 1000) x
