-- ===== src/Config/Exact.antt =====
-- pipeline/pipeline_config.c: a parser of a choice accepts exactly the names that the summary prints.
use Prim.Native.String.{String}
use text.Mathlib.Text.{◌==◌}
use text.Mathlib.TextEquality.{eq_iff}
use video_compute_pipeline.Prelude.{
  ◌≡◌, ◌↔◌, refl, subst, Option, none, some, if◌then◌else◌, if_cases,
}
use video_compute_pipeline.Config.Names.{
  DecoderFallbackMode, FilterType, MemoryProfile, OutputFormat, PipelineFeatureMode, PipelineTask,
  ProcessMode, VideoDecoderMode, decoder_cpu, decoder_fallback_to_string, decoder_mode_to_string,
  decoder_nvdec, fallback_cpu, fallback_none, feature_auto, feature_mode_to_string, feature_off,
  feature_on, filter_blur_13x13, filter_blur_3x3, filter_blur_5x5, filter_blur_9x9,
  filter_grayscale, filter_to_string, memory_auto, memory_balanced, memory_low, memory_manual,
  memory_profile_to_string, mode_to_string, output_auto, output_format_to_string, output_mkv,
  output_mp4, parse_decoder_fallback, parse_decoder_mode, parse_feature_mode, parse_filter,
  parse_memory_profile, parse_mode, parse_output_format, parse_task, process_cpu, process_gpu,
  task_detect, task_filter, task_to_string,
}

module _ {A : Type 0} (name : A → String) (value : String) where
  -- What a parser returns has the word as its name.
  abbrev Named : Option A → Type 0
  Named none = Unit
  Named (some a) = value ≡ name a

  one_more :
      (a : A) (rest : Option A) → Named rest → Named (if value == name a then some a else rest)
  one_more a rest h = if_cases Named (value == name a) (λ e. (eq_iff value (name a)).0 e) (λ _. h)

  name_of : {o : Option A} (a : A) → Named o → o ≡ some a → value ≡ name a
  name_of a h e = subst Named e h

filter_back : (x : FilterType) → parse_filter (filter_to_string x) ≡ some x
unfolding parse_filter
filter_back filter_grayscale = refl
filter_back filter_blur_3x3 = refl
filter_back filter_blur_5x5 = refl
filter_back filter_blur_9x9 = refl
filter_back filter_blur_13x13 = refl

-- `parse_filter` accepts a word as a choice exactly if the word is its name in `filter_to_string`.
pub parse_filter-filter_to_string :
    (value : String) (x : FilterType) → (parse_filter value ≡ some x) ↔ (value ≡ filter_to_string x)
unfolding parse_filter
parse_filter-filter_to_string value x = (
  λ e.
      name_of filter_to_string value x
        (one_more filter_to_string value filter_grayscale _ (
          one_more filter_to_string value filter_blur_3x3 _ (
            one_more filter_to_string value filter_blur_5x5 _ (
              one_more filter_to_string value filter_blur_9x9 _
                (one_more filter_to_string value filter_blur_13x13 _ tt)))))
        e,
  λ e. rw e (filter_back x),
)

mode_back : (x : ProcessMode) → parse_mode (mode_to_string x) ≡ some x
unfolding parse_mode
mode_back process_cpu = refl
mode_back process_gpu = refl

-- `parse_mode` accepts a word as a choice exactly if the word is its name in `mode_to_string`.
pub parse_mode-mode_to_string :
    (value : String) (x : ProcessMode) → (parse_mode value ≡ some x) ↔ (value ≡ mode_to_string x)
unfolding parse_mode
parse_mode-mode_to_string value x = (
  λ e.
      name_of mode_to_string value x
        (one_more mode_to_string value process_cpu _
          (one_more mode_to_string value process_gpu _ tt))
        e,
  λ e. rw e (mode_back x),
)

task_back : (x : PipelineTask) → parse_task (task_to_string x) ≡ some x
unfolding parse_task
task_back task_filter = refl
task_back task_detect = refl

-- `parse_task` accepts a word as a choice exactly if the word is its name in `task_to_string`.
pub parse_task-task_to_string :
    (value : String) (x : PipelineTask) → (parse_task value ≡ some x) ↔ (value ≡ task_to_string x)
unfolding parse_task
parse_task-task_to_string value x = (
  λ e.
      name_of task_to_string value x
        (one_more task_to_string value task_filter _
          (one_more task_to_string value task_detect _ tt))
        e,
  λ e. rw e (task_back x),
)

output_format_back : (x : OutputFormat) → parse_output_format (output_format_to_string x) ≡ some x
unfolding parse_output_format
output_format_back output_auto = refl
output_format_back output_mp4 = refl
output_format_back output_mkv = refl

-- `parse_output_format` accepts a word as a choice exactly if the word is its name in `output_format_to_string`.
pub parse_output_format-output_format_to_string :
    (value : String) (x : OutputFormat)
    → (parse_output_format value ≡ some x) ↔ (value ≡ output_format_to_string x)
unfolding parse_output_format
parse_output_format-output_format_to_string value x = (
  λ e.
      name_of output_format_to_string value x
        (one_more output_format_to_string value output_auto _ (
          one_more output_format_to_string value output_mp4 _
            (one_more output_format_to_string value output_mkv _ tt)))
        e,
  λ e. rw e (output_format_back x),
)

memory_profile_back :
    (x : MemoryProfile) → parse_memory_profile (memory_profile_to_string x) ≡ some x
unfolding parse_memory_profile
memory_profile_back memory_auto = refl
memory_profile_back memory_low = refl
memory_profile_back memory_balanced = refl
memory_profile_back memory_manual = refl

-- `parse_memory_profile` accepts a word as a choice exactly if the word is its name in `memory_profile_to_string`.
pub parse_memory_profile-memory_profile_to_string :
    (value : String) (x : MemoryProfile)
    → (parse_memory_profile value ≡ some x) ↔ (value ≡ memory_profile_to_string x)
unfolding parse_memory_profile
parse_memory_profile-memory_profile_to_string value x = (
  λ e.
      name_of memory_profile_to_string value x
        (one_more memory_profile_to_string value memory_auto _ (
          one_more memory_profile_to_string value memory_low _ (
            one_more memory_profile_to_string value memory_balanced _
              (one_more memory_profile_to_string value memory_manual _ tt))))
        e,
  λ e. rw e (memory_profile_back x),
)

decoder_mode_back : (x : VideoDecoderMode) → parse_decoder_mode (decoder_mode_to_string x) ≡ some x
unfolding parse_decoder_mode
decoder_mode_back decoder_cpu = refl
decoder_mode_back decoder_nvdec = refl

-- `parse_decoder_mode` accepts a word as a choice exactly if the word is its name in `decoder_mode_to_string`.
pub parse_decoder_mode-decoder_mode_to_string :
    (value : String) (x : VideoDecoderMode)
    → (parse_decoder_mode value ≡ some x) ↔ (value ≡ decoder_mode_to_string x)
unfolding parse_decoder_mode
parse_decoder_mode-decoder_mode_to_string value x = (
  λ e.
      name_of decoder_mode_to_string value x
        (one_more decoder_mode_to_string value decoder_cpu _
          (one_more decoder_mode_to_string value decoder_nvdec _ tt))
        e,
  λ e. rw e (decoder_mode_back x),
)

decoder_fallback_back :
    (x : DecoderFallbackMode) → parse_decoder_fallback (decoder_fallback_to_string x) ≡ some x
unfolding parse_decoder_fallback
decoder_fallback_back fallback_cpu = refl
decoder_fallback_back fallback_none = refl

-- `parse_decoder_fallback` accepts a word as a choice exactly if the word is its name in `decoder_fallback_to_string`.
pub parse_decoder_fallback-decoder_fallback_to_string :
    (value : String) (x : DecoderFallbackMode)
    → (parse_decoder_fallback value ≡ some x) ↔ (value ≡ decoder_fallback_to_string x)
unfolding parse_decoder_fallback
parse_decoder_fallback-decoder_fallback_to_string value x = (
  λ e.
      name_of decoder_fallback_to_string value x
        (one_more decoder_fallback_to_string value fallback_cpu _
          (one_more decoder_fallback_to_string value fallback_none _ tt))
        e,
  λ e. rw e (decoder_fallback_back x),
)

feature_mode_back :
    (x : PipelineFeatureMode) → parse_feature_mode (feature_mode_to_string x) ≡ some x
unfolding parse_feature_mode
feature_mode_back feature_auto = refl
feature_mode_back feature_on = refl
feature_mode_back feature_off = refl

-- `parse_feature_mode` accepts a word as a choice exactly if the word is its name in `feature_mode_to_string`.
pub parse_feature_mode-feature_mode_to_string :
    (value : String) (x : PipelineFeatureMode)
    → (parse_feature_mode value ≡ some x) ↔ (value ≡ feature_mode_to_string x)
unfolding parse_feature_mode
parse_feature_mode-feature_mode_to_string value x = (
  λ e.
      name_of feature_mode_to_string value x
        (one_more feature_mode_to_string value feature_auto _ (
          one_more feature_mode_to_string value feature_on _
            (one_more feature_mode_to_string value feature_off _ tt)))
        e,
  λ e. rw e (feature_mode_back x),
)
