-- ===== src/Config/Args/Tests.antt =====
-- Runs of pipeline_config_parse_args.
use Prim.Native.String.{String}
use video_compute_pipeline.Prelude.{
  ℕ, ◌-◌, ◌≡◌, refl, ◌⊎◌, none, some, List, [], ◌∷◌, ltb, leb, true, false,
}
use video_compute_pipeline.Prelude.Int.{ℤ, pos}
use video_compute_pipeline.Backend.Path.{Accepts}
use video_compute_pipeline.Config.Names.{task_detect, parse_task}
use video_compute_pipeline.Config.ClassFilter.{parse_int_value}
use video_compute_pipeline.Config.Settings.{PipelineConfig, pipeline_config_default}
use video_compute_pipeline.Config.Args.{Platform, parse_float_value, is_detect}
use video_compute_pipeline.Config.Args.Parse.{pipeline_config_parse_args}
use video_compute_pipeline.Config.Args.Valid.{IsConfig}
use video_compute_pipeline.Config.Args.Accepted.{
  pipeline_config_default-IsConfig, pipeline_config_parse_args-IsConfig,
  pipeline_config_parse_args-Accepts,
}

abbrev one_digit : List ℕ → ℤ × List ℕ × ℤ
one_digit [] = (pos 0, [], pos 0)
one_digit (c ∷ cs) = (pos (c - 48), cs, pos 0)

-- Floats that are thousandths, and letters that are small.
abbrev platform : Platform ℕ
platform = record {
  strtol = one_digit;
  strtof = λ text. (500, [], pos 0);
  tolower = λ c. c;
  thousandths = λ n. n;
  less = ltb;
  less_eq = leb;
}

abbrev default : PipelineConfig ℕ
default = pipeline_config_default (λ n. n)

abbrev arguments : List String
arguments = "--frame-slots" ∷ "4" ∷ "--task" ∷ "detect" ∷ "--iou-threshold" ∷ "0.5" ∷ []

abbrev parsed : PipelineConfig ℕ
parsed = record default { frame_slots = pos 4; task = task_detect; iou_threshold = 500 }

run : pipeline_config_parse_args platform default arguments ≡ some parsed
unfolding pipeline_config_parse_args pipeline_config_default parse_int_value parse_task
    parse_float_value
run = refl

no_value : pipeline_config_parse_args platform default ("--task" ∷ []) ≡ none
unfolding pipeline_config_parse_args
no_value = refl

unknown : pipeline_config_parse_args platform default ("--tasks" ∷ "detect" ∷ []) ≡ none
unfolding pipeline_config_parse_args
unknown = refl

no_slots : pipeline_config_parse_args platform default ("--frame-slots" ∷ "0" ∷ []) ≡ none
unfolding pipeline_config_parse_args parse_int_value
no_slots = refl

pipeline_config_parse_args-IsConfig_example : IsConfig platform parsed
pipeline_config_parse_args-IsConfig_example =
    pipeline_config_parse_args-IsConfig platform default arguments parsed
      (pipeline_config_default-IsConfig platform (λ m n a b. refl) (λ m n a b. refl)) run

pipeline_config_parse_args-Accepts_example :
    (is_detect parsed.task ≡ false)
    ⊎ ((parsed.list_backends ≡ true)
        ⊎ ((parsed.model_info ≡ true) ⊎ Accepts (λ c. c) parsed.runtime parsed.model_path))
pipeline_config_parse_args-Accepts_example =
    pipeline_config_parse_args-Accepts platform default arguments parsed run
