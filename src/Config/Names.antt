-- ===== src/Config/Names.antt =====
-- include/pipeline/pipeline_config.h and pipeline/pipeline_config.c: the choices of the command
-- line, their parsers and their names. A parser that returns -1 leaves its result as it was: none.
use Prim.Native.String.{String}
use text.Mathlib.Text.{◌==◌}
use video_compute_pipeline.Prelude.{Bool, ◌||◌, Option, none, some, if◌then◌else◌}

pub data ProcessMode : Type 0 where
  process_cpu process_gpu : ProcessMode

pub data PipelineTask : Type 0 where
  task_filter task_detect : PipelineTask

pub data FilterType : Type 0 where
  filter_grayscale filter_blur_3x3 filter_blur_5x5 filter_blur_9x9 filter_blur_13x13 : FilterType

pub data MemoryProfile : Type 0 where
  memory_auto memory_low memory_balanced memory_manual : MemoryProfile

pub data VideoDecoderMode : Type 0 where
  decoder_cpu decoder_nvdec : VideoDecoderMode

pub data DecoderFallbackMode : Type 0 where
  fallback_none fallback_cpu : DecoderFallbackMode

pub data OutputFormat : Type 0 where
  output_auto output_mp4 output_mkv : OutputFormat

pub data PipelineFeatureMode : Type 0 where
  feature_auto feature_on feature_off : PipelineFeatureMode

abbrev pub mode_to_string : ProcessMode → String
mode_to_string process_gpu = "gpu"
mode_to_string process_cpu = "cpu"

abbrev pub task_to_string : PipelineTask → String
task_to_string task_detect = "detect"
task_to_string task_filter = "filter"

abbrev pub filter_to_string : FilterType → String
filter_to_string filter_grayscale = "grayscale"
filter_to_string filter_blur_3x3 = "blur3x3"
filter_to_string filter_blur_5x5 = "blur5x5"
filter_to_string filter_blur_9x9 = "blur9x9"
filter_to_string filter_blur_13x13 = "blur13x13"

abbrev pub memory_profile_to_string : MemoryProfile → String
memory_profile_to_string memory_auto = "auto"
memory_profile_to_string memory_low = "low"
memory_profile_to_string memory_balanced = "balanced"
memory_profile_to_string memory_manual = "manual"

abbrev pub decoder_mode_to_string : VideoDecoderMode → String
decoder_mode_to_string decoder_nvdec = "nvdec"
decoder_mode_to_string decoder_cpu = "cpu"

abbrev pub decoder_fallback_to_string : DecoderFallbackMode → String
decoder_fallback_to_string fallback_none = "none"
decoder_fallback_to_string fallback_cpu = "cpu"

abbrev pub output_format_to_string : OutputFormat → String
output_format_to_string output_mp4 = "mp4"
output_format_to_string output_mkv = "mkv"
output_format_to_string output_auto = "auto"

abbrev pub feature_mode_to_string : PipelineFeatureMode → String
feature_mode_to_string feature_on = "on"
feature_mode_to_string feature_off = "off"
feature_mode_to_string feature_auto = "auto"

unfoldable pub parse_mode : String → Option ProcessMode
parse_mode value =
    if value == "cpu" then some process_cpu else if value == "gpu" then some process_gpu else none

unfoldable pub parse_task : String → Option PipelineTask
parse_task value =
    if value == "filter"
    then some task_filter
    else if value == "detect"
    then some task_detect
    else none

unfoldable pub parse_filter : String → Option FilterType
parse_filter value =
    if value == "grayscale"
    then some filter_grayscale
    else if value == "blur3x3"
    then some filter_blur_3x3
    else if value == "blur5x5"
    then some filter_blur_5x5
    else if value == "blur9x9"
    then some filter_blur_9x9
    else if value == "blur13x13"
    then some filter_blur_13x13
    else none

unfoldable pub parse_output_format : String → Option OutputFormat
parse_output_format value =
    if value == "auto"
    then some output_auto
    else if value == "mp4"
    then some output_mp4
    else if value == "mkv"
    then some output_mkv
    else none

unfoldable pub parse_memory_profile : String → Option MemoryProfile
parse_memory_profile value =
    if value == "auto"
    then some memory_auto
    else if value == "low"
    then some memory_low
    else if value == "balanced"
    then some memory_balanced
    else if value == "manual"
    then some memory_manual
    else none

unfoldable pub parse_decoder_mode : String → Option VideoDecoderMode
parse_decoder_mode value =
    if value == "cpu"
    then some decoder_cpu
    else if value == "nvdec"
    then some decoder_nvdec
    else none

unfoldable pub parse_decoder_fallback : String → Option DecoderFallbackMode
parse_decoder_fallback value =
    if value == "cpu"
    then some fallback_cpu
    else if value == "none"
    then some fallback_none
    else none

unfoldable pub parse_feature_mode : String → Option PipelineFeatureMode
parse_feature_mode value =
    if value == "auto"
    then some feature_auto
    else if value == "on"
    then some feature_on
    else if value == "off"
    then some feature_off
    else none

unfoldable pub parse_ffmpeg_log_level : String → Bool
parse_ffmpeg_log_level value =
    value == "quiet"
    || (value == "error" || (value == "warning" || (value == "info" || value == "debug")))
